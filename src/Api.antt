-- ===== src/Api.antt =====
-- The custom resource (apis/v1alpha1/certificate.go, apis/v1alpha1/types.go). A pointer, and a
-- slice whose nil differs from empty, is an `Option`; elements of slices are not nil. A time is a
-- number. Of types of other modules (metadata, conditions, references to secrets and resources)
-- the fields that the controller reads or writes are kept.
mod Fields
pub use Fields.*
use aws_controllers_k8s_acm.Base.{ℕ, String, Option, none, some, List, []}
use aws_controllers_k8s_acm.GoMap.{GoMap}

pub record CertificateSpec : Type 0 where
  pub certificate : Option SecretKeyReference
  pub certificate_arn : Option String
  pub certificate_authority_arn : Option String
  pub certificate_authority_ref : Option AwsResourceReferenceWrapper
  pub certificate_chain : Option SecretKeyReference
  pub domain_name : Option String
  pub domain_validation_options : Option (List DomainValidationOption)
  pub export_to : Option SecretKeyReference
  pub key_algorithm : Option String
  pub managed_by : Option String
  pub options : Option CertificateOptions
  pub private_key : Option SecretKeyReference
  pub subject_alternative_names : Option (List String)
  pub tags : Option (List Tag)

pub record CertificateStatus : Type 0 where
  pub ack_resource_metadata : Option ResourceMetadata
  pub conditions : Option (List Condition)
  pub created_at : Option ℕ
  pub domain_validations : Option (List DomainValidation)
  pub extended_key_usages : Option (List ExtendedKeyUsage)
  pub failure_reason : Option String
  pub imported_at : Option ℕ
  pub in_use_by : Option (List String)
  pub issued_at : Option ℕ
  pub issuer : Option String
  pub key_usages : Option (List KeyUsage)
  pub not_after : Option ℕ
  pub not_before : Option ℕ
  pub renewal_eligibility : Option String
  pub renewal_summary : Option RenewalSummary
  pub revocation_reason : Option String
  pub revoked_at : Option ℕ
  pub serial : Option String
  pub signature_algorithm : Option String
  pub status : Option String
  pub subject : Option String
  pub type_ : Option String

pub record ObjectMeta : Type 0 where
  pub name : String
  pub namespace : String
  pub finalizers : List String
  pub annotations : Option (GoMap String)
  pub deletion_timestamp : Option ℕ

pub record Certificate : Type 0 where
  pub metadata : ObjectMeta
  pub spec : CertificateSpec
  pub status : CertificateStatus

-- `Status.ACKResourceMetadata.ARN`, or nil where the metadata is nil.
abbrev pub arn_of : Certificate → Option String
arn_of ko = elim ko.status.ack_resource_metadata [ none ↦ none | some meta ↦ meta.arn ]

-- The zero values.
abbrev pub no_metadata : ResourceMetadata
no_metadata = record { arn = none; owner_account_id = none; region = none; partition = none }

abbrev pub empty_spec : CertificateSpec
empty_spec = record {
  certificate = none;
  certificate_arn = none;
  certificate_authority_arn = none;
  certificate_authority_ref = none;
  certificate_chain = none;
  domain_name = none;
  domain_validation_options = none;
  export_to = none;
  key_algorithm = none;
  managed_by = none;
  options = none;
  private_key = none;
  subject_alternative_names = none;
  tags = none;
}

abbrev pub empty_status : CertificateStatus
empty_status = record {
  ack_resource_metadata = none;
  conditions = none;
  created_at = none;
  domain_validations = none;
  extended_key_usages = none;
  failure_reason = none;
  imported_at = none;
  in_use_by = none;
  issued_at = none;
  issuer = none;
  key_usages = none;
  not_after = none;
  not_before = none;
  renewal_eligibility = none;
  renewal_summary = none;
  revocation_reason = none;
  revoked_at = none;
  serial = none;
  signature_algorithm = none;
  status = none;
  subject = none;
  type_ = none;
}

abbrev pub empty_meta : ObjectMeta
empty_meta = record {
  name = "";
  namespace = "";
  finalizers = [];
  annotations = none;
  deletion_timestamp = none;
}

abbrev pub empty_certificate : Certificate
empty_certificate = record { metadata = empty_meta; spec = empty_spec; status = empty_status }
