-- ===== src/Certificate/Export/Safety.antt =====
-- `exportCertificate` does not panic where the certificate names its key algorithm.
use aws_controllers_k8s_acm.Base.{
  ◌≡◌, ◌≢◌, ℕ, String, true, none, some, List, arith, if◌then◌else◌, inl, inr, Option-cases,
}
use aws_controllers_k8s_acm.Base.Strings.{has_part}
use aws_controllers_k8s_acm.Go.{ok, panic, call, deref, lift}
use aws_controllers_k8s_acm.Go.Safe.{Safe, bind-Safe, bind_ok-Safe, deref-Safe, deref-eq-ok}
use aws_controllers_k8s_acm.Api.{Certificate, SecretKeyReference, arn_of}
use aws_controllers_k8s_acm.Sdk.{
  Errors, Service, Call, ExportCertificateInput, ExportCertificateOutput, export_certificate,
}
use aws_controllers_k8s_acm.Sdk.Metrics.{api_call-Safe, api_call-answer}
use aws_controllers_k8s_acm.Certificate.Export.{
  Crypto, decrypt_private_key, generate_random_string, write_secret, store_export, export_to,
  do_export_certificate,
}

module _ (X : Errors) (S : Service X) where
  -- What an export calls returns, and an answer of `ExportCertificate` is filled.
  pub record Exports : Type 0 where
    pub random : (n : ℕ) (t : List (Call X.Err)) → S.random n t ≢ panic
    pub export : (input : ExportCertificateInput) (t : List (Call X.Err)) → S.export input t ≢ panic
    pub filled :
        (input : ExportCertificateInput) (t : List (Call X.Err)) (resp : ExportCertificateOutput)
        → S.export input t ≡ ok resp
        → (resp.certificate ≢ none) × (resp.private_key ≢ none)
    pub write_secret :
        (value namespace name key : String) (t : List (Call X.Err))
        → S.write_secret value namespace name key t ≢ panic

-- The key that is decrypted from an answer is of the kind that the algorithm names.
abbrev pub IsOfKind : Crypto → Certificate → ExportCertificateOutput → List ℕ → Type 0
IsOfKind C ko resp passphrase =
    (algorithm encrypted : String) (bytes : List ℕ) (key : C.Key)
    → ko.spec.key_algorithm ≡ some algorithm
    → resp.private_key ≡ some encrypted
    → C.pem_decode encrypted ≡ some bytes
    → C.parse_pkcs8_private_key bytes passphrase ≡ some key
    → (if has_part algorithm "RSA" then C.is_rsa key else C.is_ecdsa key) ≡ true

-- The certificate names a key algorithm, and the key that the service answers to an export of it,
-- decrypted with the passphrase of the request, is of that kind.
pub record IsExportable (X : Errors) (S : Service X) (C : Crypto) (ko : Certificate) : Type 0 where
  pub named : ko.spec.key_algorithm ≢ none
  pub of_kind :
      (passphrase : List ℕ) (resp : ExportCertificateOutput) (t : List (Call X.Err))
      → S.export (record { certificate_arn = arn_of ko; passphrase = passphrase }) t ≡ ok resp
      → IsOfKind C ko resp passphrase

module _ (X : Errors) (C : Crypto) where
  decrypt_private_key-ne :
      (ko : Certificate) (algorithm pem : String) (resp : ExportCertificateOutput)
      (passphrase : List ℕ)
      → IsOfKind C ko resp passphrase
      → ko.spec.key_algorithm ≡ some algorithm
      → resp.private_key ≡ some pem
      → decrypt_private_key X C pem passphrase algorithm ≢ panic
  unfolding decrypt_private_key
  decrypt_private_key-ne ko algorithm pem resp passphrase kind e f p =
      elim (Option-cases (C.pem_decode pem)) [
        | inl q ↦ ground arith
        | inr (bytes, q) ↦ elim (Option-cases (C.parse_pkcs8_private_key bytes passphrase)) [
          | inl w ↦ ground arith
          | inr (key, w) ↦ ground (arith, kind algorithm pem bytes key e f q w)
        ]
      ]

module _ (X : Errors) (S : Service X) (C : Crypto) (H : Exports X S) where
  write_secret-Safe :
      (value namespace name key : String) → Safe (write_secret X S value namespace name key)
  unfolding write_secret
  write_secret-Safe value namespace name key t = H.write_secret value namespace name key t

  generate_random_string-Safe : (n : ℕ) → Safe (generate_random_string X S n)
  unfolding generate_random_string
  generate_random_string-Safe n =
      bind-Safe (call _ (S.random n)) (λ bytes. _) (H.random n) (λ bytes t p. ground arith)

  store_export-Safe :
      (ko : Certificate) (to : SecretKeyReference) (passphrase : List ℕ)
      (resp : ExportCertificateOutput)
      → ko.spec.key_algorithm ≢ none
      → IsOfKind C ko resp passphrase
      → resp.certificate ≢ none
      → resp.private_key ≢ none
      → Safe (store_export X S C ko to passphrase resp)
  unfolding store_export
  store_export-Safe ko to passphrase resp named kind has_text has_key =
      bind-Safe (deref resp.certificate) (λ certificate. _) (deref-Safe resp.certificate has_text)
        (λ certificate.
          bind-Safe (write_secret X S _ _ _ _) (λ _. _) (write_secret-Safe _ _ _ _)
            (λ _.
              bind_ok-Safe (deref resp.private_key) (λ private_key. _)
                (deref-Safe resp.private_key has_key)
                (λ private_key t0 s0 f.
                  bind_ok-Safe (deref ko.spec.key_algorithm) (λ key_algorithm. _)
                    (deref-Safe ko.spec.key_algorithm named)
                    (λ key_algorithm t s e.
                      bind-Safe
                        (lift (decrypt_private_key X C private_key passphrase key_algorithm))
                        (λ decrypted. _)
                        (λ t'.
                          decrypt_private_key-ne X C ko key_algorithm private_key resp passphrase
                            kind (deref-eq-ok ko.spec.key_algorithm t e)
                            (deref-eq-ok resp.private_key t0 f))
                        (λ decrypted. write_secret-Safe decrypted _ _ _) s)
                    s0)))

  export_to-Safe :
      (ko : Certificate) (to : SecretKeyReference)
      → IsExportable X S C ko
      → Safe (export_to X S C ko to)
  unfolding export_to
  export_to-Safe ko to able =
      bind-Safe (generate_random_string X S 8) (λ passphrase. _) (generate_random_string-Safe 8)
        (λ passphrase.
          let input : ExportCertificateInput = record {
            certificate_arn = arn_of ko;
            passphrase = passphrase;
          } in
          bind_ok-Safe _ (store_export X S C ko to passphrase)
            (api_call-Safe X "READ_ONE" "ExportCertificate" (export_certificate input)
              (S.export input) (H.export input))
            (λ resp t s e.
              let answered =
                api_call-answer X "READ_ONE" "ExportCertificate" (export_certificate input)
                  (S.export input) t e in
              let (has_text, has_key) = H.filled input t resp answered in
              store_export-Safe ko to passphrase resp able.named
                (able.of_kind passphrase resp t answered) has_text has_key s))

  pub do_export_certificate-Safe :
      (ko : Certificate)
      → (ko.spec.export_to ≢ none → IsExportable X S C ko)
      → Safe (do_export_certificate X S C ko)
  unfolding do_export_certificate
  do_export_certificate-Safe ko able = elim (Option-cases ko.spec.export_to) [
    | inl e ↦ λ t p. ground arith
    | inr (to, e) ↦ λ t p. ground (arith, export_to-Safe ko to (able (λ n. cc)) t)
  ]
