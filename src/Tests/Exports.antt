-- ===== src/Tests/Exports.antt =====
-- The theorems on exports, with a service that answers every call.
use aws_controllers_k8s_acm.Base.{◌⊎◌, ◌≢◌, ◌<>◌, none}
use aws_controllers_k8s_acm.Base.{
  ℕ, ◌≡◌, refl, String, some, List, [], ◌∷◌, ◌++◌, string_dec, length, All,
}
use aws_controllers_k8s_acm.Base.Strings.{has_part}
use aws_controllers_k8s_acm.Go.{ok, panic}
use aws_controllers_k8s_acm.Api.{Certificate, SecretKeyReference}
use aws_controllers_k8s_acm.Sdk.{Call, ExportCertificateOutput, write_to_secret, read_random}
use aws_controllers_k8s_acm.Certificate.Export.{
  charset, random_char, decrypt_private_key, generate_random_string, write_secret, store_export,
}
use aws_controllers_k8s_acm.Certificate.Export.Laws.{
  IsPrintable, store_export-ok, store_export-no_algorithm, generate_random_string-ok,
}
use aws_controllers_k8s_acm.Tests.Fixtures.{Fault, faults, service, created, crypto}

-- What the runs below compute with.
program : Unit {0}
unfolding string_dec decrypt_private_key generate_random_string write_secret store_export charset
    random_char
program = tt

abbrev to_secret : SecretKeyReference
to_secret = record { name = "tls"; namespace = "ns"; key = "tls.crt" }

abbrev issued : ExportCertificateOutput
issued = record {
  certificate = some "CERT";
  certificate_chain = some "CHAIN";
  private_key = some "KEY";
}

abbrev with_key : Certificate
with_key = record created { spec = record (created.spec) { key_algorithm = some "RSA_2048" } }

abbrev writes : List (Call Fault)
writes =
    write_to_secret "CERTCHAIN" "ns" "tls" "tls.crt"
    ∷ write_to_secret "DECRYPTED" "ns" "tls" "tls.key"
    ∷ []

export_run :
    store_export faults service crypto with_key to_secret (1 ∷ []) issued [] ≡ (ok tt, writes)
unfolding program has_part
export_run = refl

store_export-ok_example :
    (certificate encrypted algorithm key text namespace : String) × (issued.certificate
      ≡ some certificate)
    × (issued.private_key ≡ some encrypted)
    × (with_key.spec.key_algorithm ≡ some algorithm)
    × (decrypt_private_key faults crypto encrypted (1 ∷ []) algorithm ≡ ok key)
    × (((issued.certificate_chain ≡ none) × (text ≡ certificate))
        ⊎ ((c : String) × (issued.certificate_chain ≡ some c) × (text ≡ certificate <> c)))
    × (((to_secret.namespace ≡ "") × (namespace ≡ with_key.metadata.namespace))
        ⊎ ((to_secret.namespace ≢ "") × (namespace ≡ to_secret.namespace)))
    × (writes
        ≡ ([] ++ (write_to_secret text namespace to_secret.name to_secret.key ∷ []))
          ++ (write_to_secret key namespace to_secret.name "tls.key" ∷ []))
store_export-ok_example =
    store_export-ok faults service crypto with_key to_secret (1 ∷ []) issued [] writes export_run

store_export-no_algorithm_example :
    store_export faults service crypto created to_secret (1 ∷ []) issued []
    ≡ (panic, write_to_secret "CERTCHAIN" "ns" "tls" "tls.crt" ∷ [])
unfolding program
store_export-no_algorithm_example =
    store_export-no_algorithm faults service crypto created to_secret (1 ∷ []) issued "CERT" "KEY"
      [] refl refl refl refl

-- The random bytes of the service are all 200.
passphrase_run :
    generate_random_string faults service 2 []
    ≡ (ok (random_char 200 ∷ random_char 200 ∷ []), read_random 2 ∷ [])
unfolding program
passphrase_run = refl

generate_random_string-ok_example :
    (bytes : List ℕ) × (service.random 2 [] ≡ ok bytes)
    × (2 ≡ length bytes)
    × All IsPrintable (random_char 200 ∷ random_char 200 ∷ [])
generate_random_string-ok_example =
    generate_random_string-ok faults service 2 (random_char 200 ∷ random_char 200 ∷ []) []
      (read_random 2 ∷ []) passphrase_run
