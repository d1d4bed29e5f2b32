-- ===== src/Certificate/Create/Safety.antt =====
-- `sdkCreate` does not panic.
use aws_controllers_k8s_acm.Base.{◌≢◌, Option, none, some, List, arith}
use aws_controllers_k8s_acm.Go.{panic}
use aws_controllers_k8s_acm.Go.Safe.{Safe, bind-Safe}
use aws_controllers_k8s_acm.Api.{Certificate, SecretKeyReference}
use aws_controllers_k8s_acm.Sdk.{
  Errors, Service, Call, RequestCertificateInput, ImportCertificateInput, request_certificate,
  import_certificate,
}
use aws_controllers_k8s_acm.Sdk.Metrics.{api_call-Safe}
use aws_controllers_k8s_acm.Certificate.{ResourceManager}
use aws_controllers_k8s_acm.Certificate.Import.{
  maybe_import_certificate, new_import_certificate_input, import_with, do_import_certificate,
  secret_value,
}
use aws_controllers_k8s_acm.Certificate.Create.{
  create_request, request_new, create_public, finish, sdk_create,
}

module _ (X : Errors) (S : Service X) where
  -- The calls that creating a certificate makes return: they do not panic.
  pub record Returns : Type 0 where
    pub request :
        (input : RequestCertificateInput) (t : List (Call X.Err)) → S.request input t ≢ panic
    pub import_ :
        (input : ImportCertificateInput) (t : List (Call X.Err)) → S.import_ input t ≢ panic
    pub secret_value :
        (ref : Option SecretKeyReference) (t : List (Call X.Err)) → S.secret_value ref t ≢ panic

module _ (X : Errors) (S : Service X) (rm : ResourceManager) (H : Returns X S) where
  request_new-Safe : (ko : Certificate) → Safe (request_new X S rm ko)
  unfolding request_new
  request_new-Safe ko t = ground (
    arith,
    api_call-Safe X "CREATE" "RequestCertificate" (request_certificate (create_request ko))
        (S.request (create_request ko)) (H.request (create_request ko)) t,
  )

  secret_value-Safe : (ref : Option SecretKeyReference) → Safe (secret_value X S rm ref)
  unfolding secret_value
  secret_value-Safe ref t p = ground (arith, H.secret_value ref t)

  new_import_certificate_input-Safe :
      (ko : Certificate) → Safe (new_import_certificate_input X S rm ko)
  unfolding new_import_certificate_input
  new_import_certificate_input-Safe ko =
      bind-Safe (secret_value X S rm ko.spec.private_key) (λ key. _)
        (secret_value-Safe ko.spec.private_key)
        (λ key.
          bind-Safe (secret_value X S rm ko.spec.certificate) (λ certificate. _)
            (secret_value-Safe ko.spec.certificate)
            (λ certificate.
              bind-Safe (secret_value X S rm ko.spec.certificate_chain) (λ chain. _)
                (secret_value-Safe ko.spec.certificate_chain) (λ chain t p. ground arith)))

  import_with-Safe :
      (ko : Certificate) (input : ImportCertificateInput) → Safe (import_with X S rm ko input)
  unfolding import_with do_import_certificate
  import_with-Safe ko input t p = ground (
    arith,
    api_call-Safe X "CREATE" "ImportCertificate" (import_certificate input) (S.import_ input)
        (H.import_ input) t,
  )

  maybe_import_certificate-Safe : (ko : Certificate) → Safe (maybe_import_certificate X S rm ko)
  unfolding maybe_import_certificate
  maybe_import_certificate-Safe ko t p = ground (
    arith,
    bind-Safe (new_import_certificate_input X S rm ko) (import_with X S rm ko)
        (new_import_certificate_input-Safe ko) (import_with-Safe ko) t,
  )

  create_public-Safe : (ko : Certificate) → Safe (create_public X S rm ko)
  unfolding create_public
  create_public-Safe ko t p = ground (arith, request_new-Safe ko t)

  finish-Safe : (ko : Certificate) (created : Option Certificate) → Safe (finish X S rm ko created)
  finish-Safe ko none = create_public-Safe ko
  finish-Safe ko (some imported) = λ t p. ground arith

  -- `sdkCreate` does not panic if the calls that it makes do not.
  pub sdk_create-Safe : (ko : Certificate) → Safe (sdk_create X S rm ko)
  unfolding sdk_create
  sdk_create-Safe ko =
      bind-Safe (maybe_import_certificate X S rm ko) (finish X S rm ko)
        (maybe_import_certificate-Safe ko) (finish-Safe ko)
