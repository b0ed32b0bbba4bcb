-- ===== src/Transport/Tls.antt =====
-- TLS and mutual TLS (src/transport/tls.rs): what is checked of a broker, and with which files.
pub mod Outcomes
pub mod Laws
pub mod NoServerVerification
use pulsemq_cli.Transport.Tls.NoServerVerification.{no_server_verification}
use pulsemq_cli.Base.{
  ℕ, suc, ◌+◌, Bool, true, false, Option, none, some, List, [], ◌∷◌, ◌++◌, Bytes, text, ltb, length,
  if◌then◌else◌, ◌⊎◌, inl, inr,
}
use pulsemq_cli.Error.{Error, usage, mqtt, Result, ok, err, or_usage}
use pulsemq_cli.Error
use pulsemq_cli.Mqtt.{io}
use pulsemq_cli.Cli.{ConnectionArgs}
use pulsemq_cli.Host.{Host}
use pulsemq_cli.Network.{attempt}
use pulsemq_cli.Io.{
  World, Outcome, Action, ◌>>=◌, ◌>>◌, and_then, return, raise, modify, lift_result, done, failed,
}
use pulsemq_cli.Rustls.{Verification, custom, with_roots, ClientConfig}

abbrev pub no_pem_certificates : Bytes → List Bytes → Result (List Bytes)
no_pem_certificates path [] = err (usage (path ++ text ": no PEM certificates found"))
no_pem_certificates path (c ∷ cs) = ok (c ∷ cs)

abbrev pub key_or_error : Bytes → Option Bytes → Result Bytes
key_or_error path none = err (usage (path ++ text ": no private key found"))
key_or_error path (some key) = ok key

-- `RootCertStore::add`, on a store that is the list of its certificates.
abbrev added : Bytes → List Bytes → Bytes → Option Bytes → Result (List Bytes)
added path store cert none = ok (store ++ (cert ∷ []))
added path store cert (some e) = err (usage (text "--cafile " ++ (path ++ (text ": " ++ e))))

abbrev pub native_warning : Bytes → Bytes
native_warning e = text "wispmq-cli: warning: reading a native root certificate: " ++ e

pub warn_native : List Bytes → World → World
warn_native [] w = w
warn_native (e ∷ es) w = warn_native es (record w { warnings = native_warning e ∷ w.warnings })

abbrev pub native_roots : List Bytes → Result (List Bytes)
native_roots [] =
    err (usage (text "no usable certificates found in the OS trust store; pass --cafile"))
native_roots (c ∷ cs) = ok (c ∷ cs)

abbrev pub insecure_warning : Bytes
insecure_warning =
    text "wispmq-cli: warning: --insecure disables TLS server certificate verification"

abbrev pub warn_insecure : World → World
warn_insecure w = record w { warnings = insecure_warning ∷ w.warnings }

abbrev pub with_client_auth_cert :
    Verification → List Bytes → Bytes → Option Bytes → Result ClientConfig
with_client_auth_cert v certs key none =
    ok (record { verification = v; client_auth = some (certs, key) })
with_client_auth_cert v certs key (some e) = err (usage (text "--cert/--key: " ++ e))

module _ (host : Host) where
  open host use {rustls, read_file}

  pub load_certs : Bytes → Result (List Bytes)
  load_certs path = Error.◌>>=◌ (or_usage (path ++ text ": ") (read_file path)) λ file.
      Error.◌>>=◌ (or_usage (path ++ text ": ") (rustls.pem_certs file)) (no_pem_certificates path)

  pub load_key : Bytes → Result Bytes
  load_key path = Error.◌>>=◌ (or_usage (path ++ text ": ") (read_file path)) λ file.
      Error.◌>>=◌ (or_usage (path ++ text ": ") (rustls.pem_private_key file)) (key_or_error path)

  -- The loop over the certificates of --cafile.
  pub add_all : Bytes → List Bytes → List Bytes → Result (List Bytes)
  add_all path [] store = ok store
  add_all path (cert ∷ certs) store =
      Error.◌>>=◌ (added path store cert (rustls.add_error cert)) (add_all path certs)

  -- `add_parsable_certificates`: what it adds to an empty store.
  pub parsable : List Bytes → List Bytes
  parsable [] = []
  parsable (cert ∷ certs) =
      let rest = parsable certs in if rustls.is_parsable cert then cert ∷ rest else rest

  pub load_root_store : Option Bytes → Action World (List Bytes)
  unfolding load_certs add_all parsable warn_native
  load_root_store (some path) =
      lift_result (Error.◌>>=◌ (load_certs path) λ certs. add_all path certs [])
  load_root_store none = do
    modify (warn_native rustls.native_errors)
    lift_result (native_roots (parsable rustls.native_certs))

  pub verification_for : ConnectionArgs → Action World Verification
  unfolding load_root_store
  verification_for args =
      if args.insecure
      then (do modify warn_insecure; return (custom no_server_verification))
      else (do roots ← load_root_store args.cafile; return (with_roots roots))

  pub client_auth_for : Verification → Option Bytes → Option Bytes → Result ClientConfig
  unfolding load_certs load_key
  client_auth_for v (some cert) (some key) = Error.◌>>=◌ (load_certs cert) λ certs.
      Error.◌>>=◌ (load_key key)
        λ secret. with_client_auth_cert v certs secret (rustls.client_auth_error certs secret)
  client_auth_for v _ _ = ok (record { verification = v; client_auth = none })

  pub build_config : ConnectionArgs → Action World ClientConfig
  unfolding verification_for client_auth_for
  build_config args = do
    v ← verification_for args
    lift_result (client_auth_for v args.cert args.key)

  abbrev pub unless_named : ConnectionArgs → Option Bytes → Action World (Unit {0})
  unless_named args none = return tt
  unless_named args (some e) = raise (
      usage (
        text "--broker "
        ++ (host.debug_text args.broker ++ (text " is not a valid TLS server name: " ++ e))))

  unfoldable pub wrap : ConnectionArgs → Action World (Unit {0})
  unfolding build_config
  wrap args = do
    config ← build_config args
    unless_named args (rustls.server_name_error args.broker)
    attempt (λ e. mqtt (io e)) (rustls.handshake config args.broker)
