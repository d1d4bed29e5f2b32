-- ===== src/Sdk.antt =====
-- What the controller uses of modules that are not in the repository: the shapes of the AWS SDK
-- (`svcsdk`, `svcsdktypes`), the errors of the runtime, and the answers of the outside. None of it
-- is defined here: operations are fields of records that the code takes as parameters. An SDK
-- enumeration is a text, empty when unset.
mod Shapes
pub mod Metrics
pub use Shapes.*
use aws_controllers_k8s_acm.Base.{ℕ, String, Bool, Option, none, some, List, ◌≡◌}
use aws_controllers_k8s_acm.Api.{Certificate, SecretKeyReference, Condition, Tag, ResourceMetadata}
use aws_controllers_k8s_acm.Go.{Outcome, Go}

-- Errors: `ackerr`, `ackrequeue`, `smithy` and the standard library.
pub record Errors : Type 1 where
  pub Err : Type 0
  -- `errors.As(err, &apiErr)` for a `smithy.APIError`, and its `ErrorCode()`
  pub api_code : Err → Option String
  -- `errors.As(err, &termError)` for an `*ackerr.TerminalError`
  pub as_terminal : Err → Bool
  -- `err == ackerr.SecretTypeNotSupported`, `err == ackerr.SecretNotFound`
  pub is_secret_type_not_supported : Err → Bool
  pub is_secret_not_found : Err → Bool
  -- `err.Error()`
  pub message : Err → String
  -- `awsErr, _ := ackerr.AWSError(err)`: the text of `awsErr`, or nil
  pub aws_error : Err → Option String
  -- `ackerr.NotFound`, `ackerr.Terminal`
  pub not_found : Err
  pub terminal : Err
  -- `errors.New`, `ackerr.NewTerminalError`, `ackrequeue.Needed`, `ackrequeue.NeededAfter(nil, d)`
  pub errors_new : String → Err
  pub new_terminal_error : Err → Err
  pub needed : Err → Err
  pub needed_after : ℕ → Err
  -- `ackerr.ResourceReference...For`
  pub reference_and_id_not_supported_for : String → String → Err
  pub reference_terminal_for : String → String → String → Err
  pub reference_not_synced_for : String → String → String → Err
  pub reference_missing_target_field_for : String → String → String → String → Err

-- The calls of the outside that the controller makes.
pub data Call (E : Type 0) : Type 0 where
  describe_certificate : Option String → Call E
  request_certificate : RequestCertificateInput → Call E
  update_certificate_options : UpdateCertificateOptionsInput → Call E
  delete_certificate : Option String → Call E
  import_certificate : ImportCertificateInput → Call E
  export_certificate : ExportCertificateInput → Call E
  add_tags_to_certificate : String → List SdkTag → Call E
  remove_tags_from_certificate : String → List SdkTag → Call E
  list_tags_for_certificate : String → Call E
  -- `rm.metrics.RecordAPICall(opType, opID, err)`
  record_api_call : String → String → Option E → Call E
  -- `rm.rr.SecretValueFromReference(ctx, ref)`, `rm.rr.WriteToSecret(ctx, value, ns, name, key)`
  secret_value_from_reference : Option SecretKeyReference → Call E
  write_to_secret : String → String → String → String → Call E
  -- `io.ReadFull(rand.Reader, b)` for `n` bytes
  read_random : ℕ → Call E
  -- `apiReader.Get` of a `CertificateAuthority`, by namespace and name
  get_certificate_authority : String → String → Call E

-- The answers. Each may depend on all the calls made before it.
module _ (X : Errors) where
  abbrev pub Answer : Type 0 → Type 0
  Answer A = List (Call X.Err) → Outcome X.Err A

pub record Service (X : Errors) : Type 1 where
  pub describe : Option String → Answer X DescribeCertificateOutput
  pub request : RequestCertificateInput → Answer X RequestCertificateOutput
  pub update_options : UpdateCertificateOptionsInput → Answer X (Unit {0})
  pub delete : Option String → Answer X (Unit {0})
  pub import_ : ImportCertificateInput → Answer X ImportCertificateOutput
  pub export : ExportCertificateInput → Answer X ExportCertificateOutput
  pub add_tags : String → List SdkTag → Answer X (Unit {0})
  pub remove_tags : String → List SdkTag → Answer X (Unit {0})
  pub list_tags : String → Answer X (List SdkTag)
  pub secret_value : Option SecretKeyReference → Answer X String
  pub write_secret : String → String → String → String → Answer X (Unit {0})
  pub random : ℕ → Answer X (List ℕ)
  pub certificate_authority : String → String → Answer X CertificateAuthority

module _ (X : Errors) where
  abbrev pub GoM : Type 0 → Type 0
  GoM = Go (Call X.Err) X.Err
