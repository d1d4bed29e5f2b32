-- ===== src/Certificate/Import.antt =====
-- Importing a certificate: `maybeImportCertificate`, `importCertificate` (hooks.go),
-- `newImportCertificateInput`, `setResourceFromImportCertificateOutput` (sdk.go), and the limit on
-- domain validation options (`validatePublicValidationOptions`, hooks.go).
use mathlib.Core.Option as O
use aws_controllers_k8s_acm.Base.{
  ℕ, String, Bool, ◌||◌, ◌&&◌, Option, none, some, ◌==◌, is_some, if◌then◌else◌, ltb, length,
}
use aws_controllers_k8s_acm.Go.{return, fail, call, ◌>>=◌, on_err}
use aws_controllers_k8s_acm.Api.{Certificate, CertificateSpec, SecretKeyReference, arn_of}
use aws_controllers_k8s_acm.Sdk.{
  Errors, Service, GoM, ImportCertificateInput, ImportCertificateOutput, import_certificate,
  secret_value_from_reference,
}
use aws_controllers_k8s_acm.Sdk.Metrics.{api_call}
use aws_controllers_k8s_acm.Tags.Ack.{elems}
use aws_controllers_k8s_acm.Certificate.{ResourceManager, merge_arn, set_status_defaults}
use aws_controllers_k8s_acm.Certificate.Payload.{sdk_tags_of}

abbrev pub limit_domain_validation_options_public : ℕ
limit_domain_validation_options_public = 5

-- The fields for requests that `maybeImportCertificate` clears in its copy of the specification
-- when the certificate has an ARN already.
abbrev pub clear_request_fields : CertificateSpec → CertificateSpec
clear_request_fields spec = record spec {
  domain_validation_options = none;
  key_algorithm = none;
  subject_alternative_names = none;
  options = none;
  domain_name = none;
}

abbrev pub import_spec : Certificate → CertificateSpec
import_spec ko = if is_some (arn_of ko) then clear_request_fields ko.spec else ko.spec

abbrev pub has_request_fields : CertificateSpec → Bool
has_request_fields spec =
    is_some spec.domain_name
    || ltb 0 (length (elems spec.domain_validation_options))
    || is_some spec.key_algorithm
    || ltb 0 (length (elems spec.subject_alternative_names))
    || is_some spec.options

-- The test behind `if certSpec.Certificate != nil { ... }`, where that field is nil.
abbrev pub has_import_fields : CertificateSpec → Bool
has_import_fields spec =
    is_some spec.certificate || is_some spec.private_key || is_some spec.certificate_chain

module _ (X : Errors) where
  open X use {Err}

  -- `none` is the nil error.
  unfoldable pub validate_public_validation_options : Certificate → Option Err
  validate_public_validation_options ko =
      if is_some ko.spec.certificate_authority_arn
        && ltb limit_domain_validation_options_public
            (length (elems ko.spec.domain_validation_options))
      then some (X.errors_new "Too many domain validation errors")
      else none

  abbrev pub terminal_text : String → Err
  terminal_text s = X.new_terminal_error (X.errors_new s)

module _ (X : Errors) (S : Service X) (rm : ResourceManager) where
  unfoldable pub secret_value : Option SecretKeyReference → GoM X String
  secret_value ref = on_err X.needed (call (secret_value_from_reference ref) (S.secret_value ref))

  unfoldable pub new_import_certificate_input : Certificate → GoM X ImportCertificateInput
  new_import_certificate_input ko = do
    private_key ← secret_value ko.spec.private_key
    certificate ← secret_value ko.spec.certificate
    certificate_chain ← secret_value ko.spec.certificate_chain
    return (record {
      certificate = certificate;
      certificate_arn = ko.spec.certificate_arn;
      certificate_chain = certificate_chain;
      private_key = private_key;
      tags = O.map sdk_tags_of ko.spec.tags;
    })

  unfoldable pub set_resource_from_import_certificate_output :
      Certificate → ImportCertificateOutput → Certificate
  set_resource_from_import_certificate_output ko resp = merge_arn resp.certificate_arn ko

  unfoldable pub do_import_certificate : Certificate → ImportCertificateInput → GoM X Certificate
  do_import_certificate desired input = do
    resp ← api_call X "CREATE" "ImportCertificate" (import_certificate input) (S.import_ input)
    return (set_status_defaults rm (set_resource_from_import_certificate_output desired resp))

  -- The import, once the input is built.
  unfoldable pub import_with : Certificate → ImportCertificateInput → GoM X (Option Certificate)
  import_with ko input =
      if input.private_key == ""
      then fail (terminal_text X "privateKey is required when importing a certificate")
      else do_import_certificate ko input >>= λ created. return (some created)

  -- The created certificate, or `none` where the source returns false: nothing is imported.
  unfoldable pub maybe_import_certificate : Certificate → GoM X (Option Certificate)
  maybe_import_certificate ko =
      if is_some ko.spec.certificate
      then (if has_request_fields (import_spec ko)
          then fail (
              terminal_text X
                "cannot set fields used for requesting a certificate when importing a certificate")
          else new_import_certificate_input ko >>= import_with ko)
      else if is_some ko.spec.domain_name && has_import_fields ko.spec
      then fail (
          terminal_text X
            "cannot set fields used for importing a certificate when requesting a certificate")
      else return none
