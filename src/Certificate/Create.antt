-- ===== src/Certificate/Create.antt =====
-- `sdkCreate` and `sdkDelete` (sdk.go).
pub mod Calls
pub mod Done
pub mod Laws
pub mod Safety
use aws_controllers_k8s_acm.Base.{
  String, Bool, true, false, ◌&&◌, Option, none, some, is_some, is_none, if◌then◌else◌,
}
use aws_controllers_k8s_acm.Go.{Go, return, fail, ◌>>=◌}
use aws_controllers_k8s_acm.Api.{Certificate}
use aws_controllers_k8s_acm.Sdk.{
  Errors, Service, GoM, SdkOptions, RequestCertificateInput, request_certificate,
  delete_certificate,
}
use aws_controllers_k8s_acm.Sdk.Metrics.{api_call}
use aws_controllers_k8s_acm.Certificate.{ResourceManager, merge_arn, set_status_defaults}
use aws_controllers_k8s_acm.Certificate.Payload.{
  new_create_request_payload, new_delete_request_payload,
}
use aws_controllers_k8s_acm.Certificate.Import.{
  validate_public_validation_options, maybe_import_certificate,
}

-- `desired.ko.Spec.ExportTo != nil && CertificateAuthorityARN == nil && CertificateAuthorityRef == nil`
abbrev pub exports : Certificate → Bool
exports ko =
    is_some ko.spec.export_to
    && is_none ko.spec.certificate_authority_arn
    && is_none ko.spec.certificate_authority_ref

abbrev pub options_or_new : Option SdkOptions → SdkOptions
options_or_new none = record { certificate_transparency_logging_preference = ""; export = "" }
options_or_new (some o) = o

-- The payload as `sdkCreate` completes it: DNS validation, and export for public certificates.
unfoldable pub create_request : Certificate → RequestCertificateInput
create_request ko =
    let input = record (new_create_request_payload ko) { validation_method = "DNS" } in
    if exports ko
    then record input {
      options = some (record (options_or_new input.options) { export = "ENABLED" });
    }
    else input

module _ (X : Errors) (S : Service X) (rm : ResourceManager) where
  unfoldable pub request_new : Certificate → GoM X Certificate
  request_new ko = do
    let input = create_request ko
    resp ← api_call X "CREATE" "RequestCertificate" (request_certificate input) (S.request input)
    return (set_status_defaults rm (merge_arn resp.certificate_arn ko))

  -- What follows the import hook.
  unfoldable pub create_public : Certificate → GoM X Certificate
  create_public ko = elim (validate_public_validation_options X ko) [
    | some e ↦ fail (X.new_terminal_error e)
    | none ↦ request_new ko
  ]

  -- `if isImport { return created, nil }`, and what follows.
  abbrev pub finish : Certificate → Option Certificate → GoM X Certificate
  finish ko none = create_public ko
  finish ko (some imported) = return imported

  unfoldable pub sdk_create : Certificate → GoM X Certificate
  sdk_create ko = maybe_import_certificate X S rm ko >>= finish ko

  -- The source returns no resource beside the error.
  unfoldable pub sdk_delete : Certificate → GoM X (Unit {0})
  sdk_delete ko =
      let input = new_delete_request_payload ko in
      api_call X "DELETE" "DeleteCertificate" (delete_certificate input) (S.delete input)
