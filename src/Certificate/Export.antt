-- ===== src/Certificate/Export.antt =====
-- `exportCertificate`, `generateRandomString` and `DecryptPrivateKey` (hooks.go): the certificate
-- and its decrypted key go to a Kubernetes secret. Cryptography is a parameter.
pub mod Laws
pub mod Safety
use Prim.Native.Char.{code}
use aws_controllers_k8s_acm.Base.{
  ℕ, ◌%◌, String, ◌<>◌, Bool, true, false, Option, none, some, List, [], ◌∷◌, map, length, get_or,
  ◌==◌, string_dec, if◌then◌else◌,
}
use aws_controllers_k8s_acm.Base.Strings.{has_part}
use aws_controllers_k8s_acm.Go.{Outcome, ok, err, panic, Go, return, call, deref, lift, ◌>>=◌, ◌>>◌}
use aws_controllers_k8s_acm.Api.{Certificate, SecretKeyReference, arn_of}
use aws_controllers_k8s_acm.Sdk.{
  Errors, Service, GoM, ExportCertificateInput, ExportCertificateOutput, export_certificate,
  write_to_secret, read_random,
}
use aws_controllers_k8s_acm.Sdk.Metrics.{api_call}

-- `encoding/pem`, `crypto/x509` and `github.com/youmark/pkcs8`. `none` is nil or an error.
pub record Crypto : Type 1 where
  pub Key : Type 0
  pub pem_decode : String → Option (List ℕ)
  pub parse_pkcs8_private_key : List ℕ → List ℕ → Option Key
  -- The key is an `*rsa.PrivateKey`, an `*ecdsa.PrivateKey`.
  pub is_rsa : Key → Bool
  pub is_ecdsa : Key → Bool
  pub marshal_pkcs8_private_key : Key → Option (List ℕ)
  pub pem_encode : String → List ℕ → String

abbrev codes : String → List ℕ
codes String.[] = []
codes (String.◌∷◌ c s) = code c ∷ codes s

unfoldable pub charset : List ℕ
charset =
    codes "abcdefghijklmnopqrstuvwxyzABCDEFGHIJKLMNOPQRSTUVWXYZ0123456789!@#$%^&*()_+-=[]{}|;:,.<>?"

-- `charset[int(b)%charsetLen]`
unfoldable pub random_char : ℕ → ℕ
random_char b = get_or charset (b % length charset) 0

-- The texts of the response, with the chain behind the certificate if there is one.
abbrev pub with_chain : String → Option String → String
with_chain certificate none = certificate
with_chain certificate (some chain) = if chain == "" then certificate else certificate <> chain

-- The secret's namespace, that of the resource by default.
abbrev pub export_namespace : Certificate → SecretKeyReference → String
export_namespace ko to = if to.namespace == "" then ko.metadata.namespace else to.namespace

module _ (X : Errors) (C : Crypto) where
  -- `x509.MarshalPKCS8PrivateKey` of the asserted key, and `pem.EncodeToMemory`.
  abbrev pub encode_key : C.Key → Outcome X.Err String
  encode_key key = elim (C.marshal_pkcs8_private_key key) [
    | none ↦ err (X.errors_new "failed to marshal PEM block")
    | some der ↦ ok (C.pem_encode "PRIVATE KEY" der)
  ]

  -- The type assertions panic on a key of another type.
  unfoldable pub decrypt_private_key : String → List ℕ → String → Outcome X.Err String
  decrypt_private_key encrypted_pem passphrase key_algorithm = elim (C.pem_decode encrypted_pem) [
    | none ↦ err (X.errors_new "failed to decode PEM block: no PEM data found")
    | some bytes ↦ elim (C.parse_pkcs8_private_key bytes passphrase) [
      | none ↦ err (X.errors_new "failed to decrypt PEM block")
      | some key ↦
          if has_part key_algorithm "RSA"
          then (if C.is_rsa key then encode_key key else panic)
          else if C.is_ecdsa key
          then encode_key key
          else panic
    ]
  ]

module _ (X : Errors) (S : Service X) where
  unfoldable pub generate_random_string : ℕ → GoM X (List ℕ)
  generate_random_string n = do
    bytes ← call (read_random n) (S.random n)
    return (map random_char bytes)

  unfoldable pub write_secret : String → String → String → String → GoM X (Unit {0})
  write_secret value namespace name key =
      call (write_to_secret value namespace name key) (S.write_secret value namespace name key)

module _ (X : Errors) (S : Service X) (C : Crypto) where
  -- From the response on.
  unfoldable pub store_export :
      Certificate → SecretKeyReference → List ℕ → ExportCertificateOutput → GoM X (Unit {0})
  store_export ko to passphrase resp = do
    certificate ← deref resp.certificate
    let namespace = export_namespace ko to
    write_secret X S (with_chain certificate resp.certificate_chain) namespace to.name to.key
    private_key ← deref resp.private_key
    key_algorithm ← deref ko.spec.key_algorithm
    decrypted ← lift (decrypt_private_key X C private_key passphrase key_algorithm)
    write_secret X S decrypted namespace to.name "tls.key"

  unfoldable pub export_to : Certificate → SecretKeyReference → GoM X (Unit {0})
  export_to ko to = do
    passphrase ← generate_random_string X S 8
    let input =
        let i : ExportCertificateInput = record {
          certificate_arn = arn_of ko;
          passphrase = passphrase;
        } in
        i
    resp ← api_call X "READ_ONE" "ExportCertificate" (export_certificate input) (S.export input)
    store_export ko to passphrase resp

  unfoldable pub do_export_certificate : Certificate → GoM X (Unit {0})
  do_export_certificate ko = elim ko.spec.export_to [ none ↦ return tt | some to ↦ export_to ko to ]
