-- ===== src/Sdk/Shapes.antt =====
-- The shapes of `aws-sdk-go-v2/service/acm` that the controller reads and fills, as far as it does.
use aws_controllers_k8s_acm.Base.{ℕ, String, Option, List}
use aws_controllers_k8s_acm.Api.{DomainValidationOption, HttpRedirect, Condition, ResourceMetadata}

-- `svcsdktypes.Tag`
pub record SdkTag : Type 0 where
  pub key : Option String
  pub value : Option String

-- `svcsdktypes.CertificateOptions`
pub record SdkOptions : Type 0 where
  pub certificate_transparency_logging_preference : String
  pub export : String

pub record SdkResourceRecord : Type 0 where
  pub name : Option String
  pub type_ : String
  pub value : Option String

-- `svcsdktypes.DomainValidation`
pub record SdkDomainValidation : Type 0 where
  pub domain_name : Option String
  pub http_redirect : Option HttpRedirect
  pub resource_record : Option SdkResourceRecord
  pub validation_domain : Option String
  pub validation_emails : Option (List String)
  pub validation_method : String
  pub validation_status : String

pub record SdkExtendedKeyUsage : Type 0 where
  pub name : String
  pub oid : Option String

pub record SdkKeyUsage : Type 0 where
  pub name : String

pub record SdkRenewalSummary : Type 0 where
  pub domain_validation_options : Option (List SdkDomainValidation)
  pub renewal_status : String
  pub renewal_status_reason : String
  pub updated_at : Option ℕ

-- `svcsdktypes.CertificateDetail`
pub record CertificateDetail : Type 0 where
  pub certificate_arn : Option String
  pub certificate_authority_arn : Option String
  pub created_at : Option ℕ
  pub domain_name : Option String
  pub domain_validation_options : Option (List SdkDomainValidation)
  pub extended_key_usages : Option (List SdkExtendedKeyUsage)
  pub failure_reason : String
  pub imported_at : Option ℕ
  pub in_use_by : Option (List String)
  pub issued_at : Option ℕ
  pub issuer : Option String
  pub key_algorithm : String
  pub key_usages : Option (List SdkKeyUsage)
  pub managed_by : String
  pub not_after : Option ℕ
  pub not_before : Option ℕ
  pub options : Option SdkOptions
  pub renewal_eligibility : String
  pub renewal_summary : Option SdkRenewalSummary
  pub revocation_reason : String
  pub revoked_at : Option ℕ
  pub serial : Option String
  pub signature_algorithm : Option String
  pub status : String
  pub subject : Option String
  pub subject_alternative_names : Option (List String)
  pub type_ : String

pub record DescribeCertificateOutput : Type 0 where
  pub certificate : Option CertificateDetail

pub record RequestCertificateInput : Type 0 where
  pub certificate_authority_arn : Option String
  pub domain_name : Option String
  pub domain_validation_options : Option (List DomainValidationOption)
  pub key_algorithm : String
  pub managed_by : String
  pub options : Option SdkOptions
  pub subject_alternative_names : Option (List String)
  pub tags : Option (List SdkTag)
  pub validation_method : String

pub record RequestCertificateOutput : Type 0 where
  pub certificate_arn : Option String

pub record UpdateCertificateOptionsInput : Type 0 where
  pub certificate_arn : Option String
  pub options : Option SdkOptions

-- The secret texts are byte slices, empty when unset.
pub record ImportCertificateInput : Type 0 where
  pub certificate : String
  pub certificate_arn : Option String
  pub certificate_chain : String
  pub private_key : String
  pub tags : Option (List SdkTag)

pub record ImportCertificateOutput : Type 0 where
  pub certificate_arn : Option String

pub record ExportCertificateInput : Type 0 where
  pub certificate_arn : Option String
  pub passphrase : List ℕ

pub record ExportCertificateOutput : Type 0 where
  pub certificate : Option String
  pub certificate_chain : Option String
  pub private_key : Option String

-- `acmpcaapitypes.CertificateAuthority`
pub record CertificateAuthority : Type 0 where
  pub conditions : Option (List Condition)
  pub ack_resource_metadata : Option ResourceMetadata
