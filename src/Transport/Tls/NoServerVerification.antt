-- ===== src/Transport/Tls/NoServerVerification.antt =====
-- What --insecure puts in the place of verification (src/transport/tls.rs: `NoServerVerification`).
use pulsemq_cli.Base.{ℕ, List, [], ◌∷◌, Bytes, ◌⊎◌, inr}
use pulsemq_cli.Rustls.{
  SignatureScheme, rsa_pkcs1_sha1, ecdsa_sha1_legacy, rsa_pkcs1_sha256, ecdsa_nistp256_sha256,
  rsa_pkcs1_sha384, ecdsa_nistp384_sha384, rsa_pkcs1_sha512, ecdsa_nistp521_sha512, rsa_pss_sha256,
  rsa_pss_sha384, rsa_pss_sha512, ed25519, ed448, DigitallySignedStruct, ServerCertVerifier,
}

abbrev pub verify_server_cert : Bytes → List Bytes → Bytes → Bytes → ℕ → Bytes ⊎ Unit {0}
verify_server_cert end_entity intermediates server_name ocsp_response now = inr tt

abbrev pub verify_tls12_signature : Bytes → Bytes → DigitallySignedStruct → Bytes ⊎ Unit {0}
verify_tls12_signature message cert dss = inr tt

abbrev pub verify_tls13_signature : Bytes → Bytes → DigitallySignedStruct → Bytes ⊎ Unit {0}
verify_tls13_signature message cert dss = inr tt

abbrev pub supported_verify_schemes : List SignatureScheme
supported_verify_schemes =
    rsa_pkcs1_sha1 ∷ ecdsa_sha1_legacy ∷ rsa_pkcs1_sha256 ∷ ecdsa_nistp256_sha256 ∷ rsa_pkcs1_sha384
    ∷ ecdsa_nistp384_sha384 ∷ rsa_pkcs1_sha512 ∷ ecdsa_nistp521_sha512 ∷ rsa_pss_sha256
    ∷ rsa_pss_sha384 ∷ rsa_pss_sha512 ∷ ed25519 ∷ ed448 ∷ []

abbrev pub no_server_verification : ServerCertVerifier
no_server_verification = record {
  verify_server_cert = verify_server_cert;
  verify_tls12_signature = verify_tls12_signature;
  verify_tls13_signature = verify_tls13_signature;
  supported_verify_schemes = supported_verify_schemes;
}
