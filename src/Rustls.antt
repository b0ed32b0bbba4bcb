-- ===== src/Rustls.antt =====
-- What the tools use of the crates rustls, rustls_pemfile and rustls_native_certs
-- (src/transport/tls.rs). Certificates and keys are their DER bytes, and the left side of a result
-- is the text of the error.
use pulsemq_cli.Network.{Attempt}
use pulsemq_cli.Base.{ℕ, Bool, Option, List, Bytes, ◌⊎◌}

pub data SignatureScheme : Type 0 where
  rsa_pkcs1_sha1 ecdsa_sha1_legacy rsa_pkcs1_sha256 ecdsa_nistp256_sha256 : SignatureScheme
  rsa_pkcs1_sha384 ecdsa_nistp384_sha384 rsa_pkcs1_sha512 : SignatureScheme
  ecdsa_nistp521_sha512 rsa_pss_sha256 rsa_pss_sha384 rsa_pss_sha512 : SignatureScheme
  ed25519 ed448 : SignatureScheme

pub record DigitallySignedStruct : Type 0 where
  pub scheme : SignatureScheme
  pub signature : Bytes

-- The trait that rustls asks whether it may trust a broker.
pub record ServerCertVerifier : Type 0 where
  pub verify_server_cert : Bytes → List Bytes → Bytes → Bytes → ℕ → Bytes ⊎ Unit {0}
  pub verify_tls12_signature : Bytes → Bytes → DigitallySignedStruct → Bytes ⊎ Unit {0}
  pub verify_tls13_signature : Bytes → Bytes → DigitallySignedStruct → Bytes ⊎ Unit {0}
  pub supported_verify_schemes : List SignatureScheme

-- How the broker is verified: by a verifier of the caller's, or against root certificates.
pub data Verification : Type 0 where
  custom : ServerCertVerifier → Verification
  with_roots : List Bytes → Verification

pub record ClientConfig : Type 0 where
  pub verification : Verification
  pub client_auth : Option (List Bytes × Bytes)

pub record Rustls : Type 0 where
  pub pem_certs : Bytes → Bytes ⊎ List Bytes
  pub pem_private_key : Bytes → Bytes ⊎ Option Bytes
  pub add_error : Bytes → Option Bytes  -- why `RootCertStore::add` refuses a certificate
  pub is_parsable : Bytes → Bool
  pub native_certs : List Bytes
  pub native_errors : List Bytes
  pub client_auth_error : List Bytes → Bytes → Option Bytes
  pub server_name_error : Bytes → Option Bytes
  pub handshake : ClientConfig → Bytes → Attempt
