-- ===== src/Certificate/Payload.antt =====
-- The request payloads of sdk.go: `newDescribeRequestPayload`, `newCreateRequestPayload`,
-- `newUpdateRequestPayload`, `newDeleteRequestPayload`. Copying a field that may be nil under a
-- test for nil is copying it. `aws.ToStringSlice` copies the texts.
use mathlib.Core.Option as O
use aws_controllers_k8s_acm.Base.{String, Option, List, [], ◌∷◌}
use aws_controllers_k8s_acm.Api.{
  Certificate, CertificateOptions, DomainValidationOption, Tag, arn_of,
}
use aws_controllers_k8s_acm.Sdk.{
  SdkTag, SdkOptions, RequestCertificateInput, UpdateCertificateOptionsInput,
}
use aws_controllers_k8s_acm.Certificate.{or_unset}

unfoldable pub new_describe_request_payload : Certificate → Option String
new_describe_request_payload ko = arn_of ko

unfoldable pub new_delete_request_payload : Certificate → Option String
new_delete_request_payload ko = arn_of ko

-- The loop over `Spec.Tags`, in requests and in imports.
unfoldable pub sdk_tags_of : List Tag → List SdkTag
sdk_tags_of [] = []
sdk_tags_of (t ∷ ts) = record { key = t.key; value = t.value } ∷ sdk_tags_of ts

abbrev pub sdk_options_of : CertificateOptions → SdkOptions
sdk_options_of o = record {
  certificate_transparency_logging_preference =
      or_unset o.certificate_transparency_logging_preference;
  export = or_unset o.export;
}

unfoldable pub domain_validation_options_of :
    List DomainValidationOption → List DomainValidationOption
domain_validation_options_of [] = []
domain_validation_options_of (o ∷ os) =
    record { domain_name = o.domain_name; validation_domain = o.validation_domain }
    ∷ domain_validation_options_of os

unfoldable pub new_create_request_payload : Certificate → RequestCertificateInput
unfolding sdk_tags_of domain_validation_options_of
new_create_request_payload ko = record {
  certificate_authority_arn = ko.spec.certificate_authority_arn;
  domain_name = ko.spec.domain_name;
  domain_validation_options = O.map domain_validation_options_of ko.spec.domain_validation_options;
  key_algorithm = or_unset ko.spec.key_algorithm;
  managed_by = or_unset ko.spec.managed_by;
  options = O.map sdk_options_of ko.spec.options;
  subject_alternative_names = ko.spec.subject_alternative_names;
  tags = O.map sdk_tags_of ko.spec.tags;
  validation_method = "";
}

unfoldable pub new_update_request_payload : Certificate → UpdateCertificateOptionsInput
new_update_request_payload ko = record {
  certificate_arn = arn_of ko;
  options = O.map sdk_options_of ko.spec.options;
}
