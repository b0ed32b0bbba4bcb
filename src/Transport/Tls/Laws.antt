-- ===== src/Transport/Tls/Laws.antt =====
-- What a TLS configuration that is made verifies and presents.
use mathlib.Core.List.{append-nil, append_assoc}
use pulsemq_cli.Base.{
  true, false, Option, none, some, List, [], ◌∷◌, ◌++◌, Bytes, text, ◌≡◌, ◌≢◌, refl, sym, ap, ◌∙◌,
  ◌⊎◌, inl, inr, arith, Bool-cases, Option-cases,
}
use pulsemq_cli.Error.{ok}
use pulsemq_cli.Cli.{ConnectionArgs}
use pulsemq_cli.Host.{Host}
use pulsemq_cli.Rustls.{Verification, custom, with_roots}
use pulsemq_cli.Io.{World, done}
use pulsemq_cli.Transport.Tls.{
  load_certs, load_key, add_all, parsable, warn_native, load_root_store, verification_for,
  client_auth_for, build_config, no_pem_certificates, key_or_error, warn_insecure,
  with_client_auth_cert, native_warning, native_roots,
}
use pulsemq_cli.Transport.Tls.NoServerVerification.{no_server_verification}
use pulsemq_cli.Transport.Tls.Outcomes.{
  Yields, bind-Yields, weaken-Yields, or_usage-Yields, Settles, weaken-Settles, and_then-Settles,
  lift_result-Settles,
}

module _ (host : Host) where
  open host use {rustls, read_file}

  -- The certificates of a file, of which there is at least one.
  abbrev pub CertsOf : Bytes → List Bytes → Type 0
  CertsOf path certs =
      (file : Bytes) × (read_file path ≡ inr file)
      × (rustls.pem_certs file ≡ inr certs)
      × (certs ≢ [])

  abbrev pub KeyOf : Bytes → Bytes → Type 0
  KeyOf path key =
      (file : Bytes) × (read_file path ≡ inr file) × (rustls.pem_private_key file ≡ inr (some key))

  no_pem_certificates-Yields :
      (path file : Bytes) (certs : List Bytes)
      → read_file path ≡ inr file
      → rustls.pem_certs file ≡ inr certs
      → Yields (CertsOf path) (no_pem_certificates path certs)
  no_pem_certificates-Yields path file [] f c = tt
  no_pem_certificates-Yields path file (x ∷ xs) f c = (file, f, c, ground arith)

  load_certs-Yields : (path : Bytes) → Yields (CertsOf path) (load_certs host path)
  unfolding load_certs
  load_certs-Yields path =
      bind-Yields (λ file. read_file path ≡ inr file) (CertsOf path) _ _
        (or_usage-Yields (path ++ text ": ") (read_file path))
        (λ file f.
          bind-Yields (λ certs. rustls.pem_certs file ≡ inr certs) (CertsOf path) _ _
            (or_usage-Yields (path ++ text ": ") (rustls.pem_certs file))
            (λ certs c. no_pem_certificates-Yields path file certs f c))

  key_or_error-Yields :
      (path file : Bytes) (key : Option Bytes)
      → read_file path ≡ inr file
      → rustls.pem_private_key file ≡ inr key
      → Yields (KeyOf path) (key_or_error path key)
  key_or_error-Yields path file none f c = tt
  key_or_error-Yields path file (some key) f c = (file, f, c)

  load_key-Yields : (path : Bytes) → Yields (KeyOf path) (load_key host path)
  unfolding load_key
  load_key-Yields path =
      bind-Yields (λ file. read_file path ≡ inr file) (KeyOf path) _ _
        (or_usage-Yields (path ++ text ": ") (read_file path))
        (λ file f.
          bind-Yields (λ key. rustls.pem_private_key file ≡ inr key) (KeyOf path) _ _
            (or_usage-Yields (path ++ text ": ") (rustls.pem_private_key file))
            (λ key c. key_or_error-Yields path file key f c))

  -- None of them is refused by the root store.
  abbrev pub Accepted : List Bytes → Type 0
  Accepted [] = Unit
  Accepted (c ∷ cs) = (rustls.add_error c ≡ none) × Accepted cs

  add_all-Yields :
      (path : Bytes) (certs store : List Bytes)
      → Yields (λ roots. (roots ≡ store ++ certs) × Accepted certs) (add_all host path certs store)
  unfolding add_all
  add_all-Yields path [] store = (sym (append-nil store), tt)
  add_all-Yields path (c ∷ cs) store = elim (Option-cases (rustls.add_error c)) [
    | inl e ↦ rw e (
        bind-Yields (λ s. s ≡ store ++ (c ∷ [])) _ (ok (store ++ (c ∷ []))) (add_all host path cs)
          refl
          (λ s t.
            weaken-Yields (λ roots. (roots ≡ s ++ cs) × Accepted cs) _ (add_all host path cs s)
              (add_all-Yields path cs s)
              (λ roots h.
                (h.0 ∙ ap (λ u. u ++ cs) t ∙ append_assoc store (c ∷ []) cs, (refl, h.1)))))
    | inr (x, e) ↦ rw e tt
  ]

  -- The root certificates that a broker is verified against, of which there is at least one: all
  -- those of --cafile, or those of the system's store that can be parsed.
  abbrev pub RootsFrom : Option Bytes → World → List Bytes → World → Type 0
  RootsFrom (some path) w roots w' = CertsOf path roots × Accepted roots × (w' ≡ w)
  RootsFrom none w roots w' =
      (roots ≡ parsable host rustls.native_certs)
      × (roots ≢ [])
      × (w' ≡ warn_native rustls.native_errors w)

  warn_native-warnings :
      (es : List Bytes) (w : World)
      → warn_native es w ≡ record w { warnings = (warn_native es w).warnings }
  unfolding warn_native
  warn_native-warnings [] w = refl
  warn_native-warnings (e ∷ es) w =
      warn_native-warnings es (record w { warnings = native_warning e ∷ w.warnings })

  native_roots-Yields :
      (roots : List Bytes) → Yields (λ r. (r ≡ roots) × (r ≢ [])) (native_roots roots)
  native_roots-Yields [] = tt
  native_roots-Yields (c ∷ cs) = (refl, ground arith)

  load_root_store-Settles :
      (cafile : Option Bytes) (w : World)
      → Settles (RootsFrom cafile w) w (load_root_store host cafile w)
  unfolding load_root_store
  load_root_store-Settles (some path) w =
      weaken-Settles _ (RootsFrom (some path) w) w _
        (lift_result-Settles (λ roots. CertsOf path roots × Accepted roots) w w _ refl
          (bind-Yields (CertsOf path) (λ roots. CertsOf path roots × Accepted roots)
            (load_certs host path) (λ certs. add_all host path certs []) (load_certs-Yields path)
            (λ certs k.
              weaken-Yields (λ roots. (roots ≡ certs) × Accepted certs)
                (λ roots. CertsOf path roots × Accepted roots) (add_all host path certs [])
                (add_all-Yields path certs []) (λ roots h. rw h.0 (k, h.1)))))
        (λ roots w' h. (h.0.0, h.0.1, h.1))
  load_root_store-Settles none w =
      weaken-Settles _ (RootsFrom none w) w _
        (lift_result-Settles (λ r. (r ≡ parsable host rustls.native_certs) × (r ≢ [])) w
          (warn_native rustls.native_errors w) (native_roots (parsable host rustls.native_certs))
          (warn_native-warnings rustls.native_errors w)
          (native_roots-Yields (parsable host rustls.native_certs)))
        (λ roots w' h. (h.0.0, h.0.1, h.1))

  -- How a broker is going to be verified. With --insecure it is not, and a warning says so.
  abbrev pub Verified : ConnectionArgs → World → Verification → World → Type 0
  Verified args w v w' =
      ((args.insecure ≡ true) × (v ≡ custom no_server_verification) × (w' ≡ warn_insecure w))
      ⊎ ((args.insecure ≡ false)
          × (roots : List Bytes) × (v ≡ with_roots roots)
          × RootsFrom args.cafile w roots w')

  verification_for-Settles :
      (args : ConnectionArgs) (w : World)
      → Settles (Verified args w) w (verification_for host args w)
  unfolding verification_for
  verification_for-Settles args w = elim (Bool-cases args.insecure) [
    | inl e ↦ rw (e, verification_for) (inl (refl, refl, refl), refl)
    | inr e ↦
        rw (e, verification_for)
          (and_then-Settles (RootsFrom args.cafile w) _ w (load_root_store host args.cafile w)
            (λ roots s. done (with_roots roots) s) (load_root_store-Settles args.cafile w)
            (λ roots w' h k. (inr (refl, roots, refl, h), k)))
  ]

  -- The client certificate that is presented: the one of --cert and --key, where both are given.
  abbrev pub Presented : Option Bytes → Option Bytes → Option (List Bytes × Bytes) → Type 0
  Presented (some cert) (some key) auth =
      (certs : List Bytes) × (secret : Bytes) × CertsOf cert certs
      × KeyOf key secret
      × (rustls.client_auth_error certs secret ≡ none)
      × (auth ≡ some (certs, secret))
  Presented (some cert) none auth = auth ≡ none
  Presented none key auth = auth ≡ none

  with_client_auth_cert-Yields :
      (v : Verification) (cert key : Bytes) (certs : List Bytes) (secret : Bytes)
      → CertsOf cert certs
      → KeyOf key secret
      → Yields
          (λ config.
            (config.verification ≡ v) × Presented (some cert) (some key) config.client_auth)
          (with_client_auth_cert v certs secret (rustls.client_auth_error certs secret))
  with_client_auth_cert-Yields v cert key certs secret c k =
      elim (Option-cases (rustls.client_auth_error certs secret)) [
        | inl e ↦ rw e (refl, (certs, secret, c, k, e, refl))
        | inr (x, e) ↦ rw e tt
      ]

  client_auth_for-Yields :
      (v : Verification) (cert key : Option Bytes)
      → Yields
          (λ config. (config.verification ≡ v) × Presented cert key config.client_auth)
          (client_auth_for host v cert key)
  unfolding client_auth_for
  client_auth_for-Yields v (some cert) (some key) =
      bind-Yields (CertsOf cert) _ (load_certs host cert) _ (load_certs-Yields cert) (λ certs c.
        bind-Yields (KeyOf key) _ (load_key host key) _ (load_key-Yields key)
          (λ secret k. with_client_auth_cert-Yields v cert key certs secret c k))
  client_auth_for-Yields v (some cert) none = (refl, refl)
  client_auth_for-Yields v none key = elim key [ none ↦ (refl, refl) | some k ↦ (refl, refl) ]

  -- Making a TLS configuration changes nothing but warnings, and fails with an error of usage only.
  -- With --insecure a warning is said and no certificate is verified; otherwise the broker is
  -- verified against at least one root certificate: all those of --cafile, none of which rustls
  -- refuses, or the parsable ones of the system. A client certificate is presented exactly if
  -- --cert and --key are both given, and it is the one in those files, with its key.
  pub build_config-Settles :
      (args : ConnectionArgs) (w : World)
      → Settles
          (λ config w'.
            Verified args w config.verification w'
            × Presented args.cert args.key config.client_auth)
          w
          (build_config host args w)
  unfolding build_config
  build_config-Settles args w =
      and_then-Settles (Verified args w) _ w (verification_for host args w) _
        (verification_for-Settles args w)
        (λ v u h k.
          weaken-Settles _ _ w _
            (lift_result-Settles
              (λ config.
                (config.verification ≡ v) × Presented args.cert args.key config.client_auth)
              w u (client_auth_for host v args.cert args.key) k
              (client_auth_for-Yields v args.cert args.key))
            (λ config w' r. rw (r.0.0, r.1) (h, r.0.1)))
