-- ===== src/Certificate/Find/Merge.antt =====
-- The assignments of `sdkFind`, in blocks of the source. Assigning a field that may be nil, or nil
-- where it is nil, is assigning it. `aws.StringSlice` copies the texts.
use mathlib.Core.Option as O
use aws_controllers_k8s_acm.Base.{Option, none, some, List, [], ◌∷◌, map}
use aws_controllers_k8s_acm.Api.{
  Certificate, DomainValidation, DomainValidationOption, ExtendedKeyUsage, KeyUsage, RenewalSummary,
  ResourceRecord, CertificateOptions,
}
use aws_controllers_k8s_acm.Sdk.{
  CertificateDetail, SdkDomainValidation, SdkResourceRecord, SdkOptions, SdkExtendedKeyUsage,
  SdkKeyUsage, SdkRenewalSummary,
}
use aws_controllers_k8s_acm.Certificate.{non_empty, merge_arn}

abbrev pub resource_record_of : SdkResourceRecord → ResourceRecord
resource_record_of rr = record { name = rr.name; type_ = non_empty rr.type_; value = rr.value }

-- Appending each element to a slice that starts nil leaves nil if there is none.
abbrev pub appended {ℓ} : {A : Type ℓ} → Option (List A) → Option (List A)
appended none = none
appended (some []) = none
appended (some (x ∷ xs)) = some (x ∷ xs)

-- One element of `Status.DomainValidations`: the redirect is not copied.
abbrev pub domain_validation_of : SdkDomainValidation → DomainValidation
domain_validation_of d = record {
  domain_name = d.domain_name;
  http_redirect = none;
  resource_record = O.map resource_record_of d.resource_record;
  validation_domain = d.validation_domain;
  validation_emails = appended d.validation_emails;
  validation_method = non_empty d.validation_method;
  validation_status = non_empty d.validation_status;
}

-- One element of the renewal summary's.
abbrev pub renewal_validation_of : SdkDomainValidation → DomainValidation
renewal_validation_of d = record {
  domain_name = d.domain_name;
  http_redirect =
      O.map (λ h. record { redirect_from = h.redirect_from; redirect_to = h.redirect_to })
        d.http_redirect;
  resource_record = O.map resource_record_of d.resource_record;
  validation_domain = d.validation_domain;
  validation_emails = d.validation_emails;
  validation_method = non_empty d.validation_method;
  validation_status = non_empty d.validation_status;
}

abbrev pub domain_validation_option_of : SdkDomainValidation → DomainValidationOption
domain_validation_option_of d = record {
  domain_name = d.domain_name;
  validation_domain = d.validation_domain;
}

abbrev pub extended_key_usage_of : SdkExtendedKeyUsage → ExtendedKeyUsage
extended_key_usage_of u = record { name = non_empty u.name; oid = u.oid }

abbrev pub key_usage_of : SdkKeyUsage → KeyUsage
key_usage_of u = record { name = non_empty u.name }

abbrev pub options_of : SdkOptions → CertificateOptions
options_of o = record {
  certificate_transparency_logging_preference =
      non_empty o.certificate_transparency_logging_preference;
  export = non_empty o.export;
}

unfoldable pub merge_domain_validations : CertificateDetail → Certificate → Certificate
merge_domain_validations d ko = record ko {
  status = record (ko.status) {
    domain_validations = O.map (map domain_validation_of) d.domain_validation_options;
  };
}

-- From `CertificateArn` to `DomainName`.
unfoldable pub merge_identity : CertificateDetail → Certificate → Certificate
unfolding merge_arn
merge_identity d ko =
    let ko' = merge_arn d.certificate_arn ko in
    record ko' {
      spec = record (ko'.spec) {
        certificate_authority_arn = d.certificate_authority_arn;
        domain_name = d.domain_name;
      };
      status = record (ko'.status) { created_at = d.created_at };
    }

-- From `DomainValidationOptions` to `ExtendedKeyUsages`.
unfoldable pub merge_usages : CertificateDetail → Certificate → Certificate
merge_usages d ko = record ko {
  spec = record (ko.spec) {
    domain_validation_options = O.map (map domain_validation_option_of) d.domain_validation_options;
  };
  status = record (ko.status) {
    extended_key_usages = O.map (map extended_key_usage_of) d.extended_key_usages;
  };
}

-- From `FailureReason` to `ManagedBy`.
unfoldable pub merge_issue : CertificateDetail → Certificate → Certificate
merge_issue d ko = record ko {
  spec = record (ko.spec) {
    key_algorithm = non_empty d.key_algorithm;
    managed_by = non_empty d.managed_by;
  };
  status = record (ko.status) {
    failure_reason = non_empty d.failure_reason;
    imported_at = d.imported_at;
    in_use_by = d.in_use_by;
    issued_at = d.issued_at;
    issuer = d.issuer;
    key_usages = O.map (map key_usage_of) d.key_usages;
  };
}

-- From `NotAfter` to `RenewalEligibility`.
unfoldable pub merge_validity : CertificateDetail → Certificate → Certificate
merge_validity d ko = record ko {
  spec = record (ko.spec) { options = O.map options_of d.options };
  status = record (ko.status) {
    not_after = d.not_after;
    not_before = d.not_before;
    renewal_eligibility = non_empty d.renewal_eligibility;
  };
}

abbrev pub renewal_summary_of : SdkRenewalSummary → RenewalSummary
renewal_summary_of s = record {
  domain_validation_options = O.map (map renewal_validation_of) s.domain_validation_options;
  renewal_status = non_empty s.renewal_status;
  renewal_status_reason = non_empty s.renewal_status_reason;
  updated_at = s.updated_at;
}

unfoldable pub merge_renewal_summary : CertificateDetail → Certificate → Certificate
merge_renewal_summary d ko = record ko {
  status = record (ko.status) { renewal_summary = O.map renewal_summary_of d.renewal_summary };
}

-- From `RevocationReason` to `Type`.
unfoldable pub merge_state : CertificateDetail → Certificate → Certificate
merge_state d ko = record ko {
  spec = record (ko.spec) { subject_alternative_names = d.subject_alternative_names };
  status = record (ko.status) {
    revocation_reason = non_empty d.revocation_reason;
    revoked_at = d.revoked_at;
    serial = d.serial;
    signature_algorithm = d.signature_algorithm;
    status = non_empty d.status;
    subject = d.subject;
    type_ = non_empty d.type_;
  };
}

unfoldable pub merge_detail : CertificateDetail → Certificate → Certificate
unfolding merge_identity merge_usages merge_issue merge_validity merge_renewal_summary merge_state
merge_detail d ko = merge_state d (
    merge_renewal_summary d
      (merge_validity d (merge_issue d (merge_usages d (merge_identity d ko)))))
