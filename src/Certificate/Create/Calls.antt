-- ===== src/Certificate/Create/Calls.antt =====
-- The calls that creating a certificate makes: a request or an import, and not the other.
use aws_controllers_k8s_acm.Base.{◌≡◌, ap, ◌∙◌, refl, Bool, true, false, Option, arith, any}
use aws_controllers_k8s_acm.Go.{continue_assoc, ◌>>=◌}
use aws_controllers_k8s_acm.Go.Avoids.{calls, Avoids, any-append-false, bind-Avoids}
use aws_controllers_k8s_acm.Api.{Certificate, SecretKeyReference}
use aws_controllers_k8s_acm.Sdk.{
  Errors, Service, Call, request_certificate, import_certificate, secret_value_from_reference,
  ImportCertificateInput,
}
use aws_controllers_k8s_acm.Sdk.Metrics.{api_call-Avoids}
use aws_controllers_k8s_acm.Certificate.{ResourceManager}
use aws_controllers_k8s_acm.Certificate.Import.{
  new_import_certificate_input, import_with, do_import_certificate, secret_value,
}
use aws_controllers_k8s_acm.Certificate.Create.{create_request, request_new, create_public, finish}

module _ {E : Type 0} where
  abbrev pub is_request : Call E → Bool
  is_request (request_certificate i) = true
  is_request _ = false

  abbrev pub is_import : Call E → Bool
  is_import (import_certificate i) = true
  is_import _ = false

module _ (X : Errors) (S : Service X) (rm : ResourceManager) where
  request_new-Avoids : (ko : Certificate) → Avoids is_import (request_new X S rm ko)
  unfolding request_new
  request_new-Avoids ko t =
      let q =
        api_call-Avoids X is_import "CREATE" "RequestCertificate"
          (request_certificate (create_request ko)) (S.request (create_request ko)) refl (λ e. refl)
          t in
      ground (arith, q)

  secret-Avoids :
      (p : Call X.Err → Bool) (ref : Option SecretKeyReference)
      → p (secret_value_from_reference ref) ≡ false
      → Avoids p (secret_value X S rm ref)
  unfolding secret_value
  secret-Avoids p ref h t = any-append-false p t (secret_value_from_reference ref) h

  new_input-Avoids : (ko : Certificate) → Avoids is_request (new_import_certificate_input X S rm ko)
  unfolding new_import_certificate_input
  new_input-Avoids ko =
      bind-Avoids is_request (secret_value X S rm ko.spec.private_key) (λ key. _)
        (secret-Avoids is_request ko.spec.private_key refl)
        (λ key.
          bind-Avoids is_request (secret_value X S rm ko.spec.certificate) (λ certificate. _)
            (secret-Avoids is_request ko.spec.certificate refl)
            (λ certificate.
              bind-Avoids is_request (secret_value X S rm ko.spec.certificate_chain) (λ chain. _)
                (secret-Avoids is_request ko.spec.certificate_chain refl) (λ chain t. refl)))

  import_with-Avoids :
      (ko : Certificate) (input : ImportCertificateInput)
      → Avoids is_request (import_with X S rm ko input)
  unfolding import_with do_import_certificate
  import_with-Avoids ko input t = ground (
    arith,
    api_call-Avoids X is_request "CREATE" "ImportCertificate" (import_certificate input)
        (S.import_ input) refl (λ e. refl) t,
  )

  pub create_public-Avoids : (ko : Certificate) → Avoids is_import (create_public X S rm ko)
  unfolding create_public
  create_public-Avoids ko t = ground (arith, request_new-Avoids ko t)

  finish_import :
      (ko : Certificate) (input : ImportCertificateInput)
      → Avoids is_request (import_with X S rm ko input >>= finish X S rm ko)
  unfolding import_with do_import_certificate
  finish_import ko input t = ground (
    arith,
    api_call-Avoids X is_request "CREATE" "ImportCertificate" (import_certificate input)
        (S.import_ input) refl (λ e. refl) t,
  )

  pub finish_input :
      (ko : Certificate)
      → Avoids is_request
          (new_import_certificate_input X S rm ko >>= import_with X S rm ko >>= finish X S rm ko)
  finish_input ko t =
      ap (any is_request) (
        ap calls (
          continue_assoc (import_with X S rm ko) (finish X S rm ko)
            (new_import_certificate_input X S rm ko t)))
      ∙ bind-Avoids is_request (new_import_certificate_input X S rm ko)
          (λ input. import_with X S rm ko input >>= finish X S rm ko) (new_input-Avoids ko)
          (finish_import ko) t
