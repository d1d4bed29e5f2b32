-- ===== src/Api/Fields.antt =====
-- The structs that the specification and the status are made of (apis/v1alpha1/types.go), and
-- the fields in use of the structs of the runtime.
use aws_controllers_k8s_acm.Base.{ℕ, String, Option, List}

pub record SecretKeyReference : Type 0 where
  pub name : String
  pub namespace : String
  pub key : String

pub record AwsResourceReference : Type 0 where
  pub name : Option String
  pub namespace : Option String

pub record AwsResourceReferenceWrapper : Type 0 where
  pub from : Option AwsResourceReference

pub record ResourceMetadata : Type 0 where
  pub arn : Option String
  pub owner_account_id : Option String
  pub region : Option String
  pub partition : Option String

pub record Condition : Type 0 where
  pub type_ : String
  pub status : String
  pub message : Option String

pub record CertificateOptions : Type 0 where
  pub certificate_transparency_logging_preference : Option String
  pub export : Option String

pub record DomainValidationOption : Type 0 where
  pub domain_name : Option String
  pub validation_domain : Option String

pub record ExtendedKeyUsage : Type 0 where
  pub name : Option String
  pub oid : Option String

pub record HttpRedirect : Type 0 where
  pub redirect_from : Option String
  pub redirect_to : Option String

pub record KeyUsage : Type 0 where
  pub name : Option String

pub record ResourceRecord : Type 0 where
  pub name : Option String
  pub type_ : Option String
  pub value : Option String

pub record DomainValidation : Type 0 where
  pub domain_name : Option String
  pub http_redirect : Option HttpRedirect
  pub resource_record : Option ResourceRecord
  pub validation_domain : Option String
  pub validation_emails : Option (List String)
  pub validation_method : Option String
  pub validation_status : Option String

pub record RenewalSummary : Type 0 where
  pub domain_validation_options : Option (List DomainValidation)
  pub renewal_status : Option String
  pub renewal_status_reason : Option String
  pub updated_at : Option ℕ

pub record Tag : Type 0 where
  pub key : Option String
  pub value : Option String
