-- ===== src/Certificate/LateInit.antt =====
-- `LateInitialize`, `lateInitializeFromReadOneOutput` and `incompleteLateInitialization`
-- (manager.go). The list of field names is a constant that is not empty, so its test is left out.
pub mod Laws
pub mod Filling
pub mod Answers
use aws_controllers_k8s_acm.Base.{
  ℕ, String, Bool, true, false, ◌||◌, Option, none, some, is_none, or_else, if◌then◌else◌,
}
use aws_controllers_k8s_acm.GoMap.{RangeOrder}
use aws_controllers_k8s_acm.Go.{Go, return, deref, ◌>>=◌}
use aws_controllers_k8s_acm.Api.{Certificate, CertificateOptions}
use aws_controllers_k8s_acm.Sdk.{Errors, Service, GoM}
use aws_controllers_k8s_acm.Certificate.{ResourceManager, Resource}
use aws_controllers_k8s_acm.Certificate.Conditions.{Returned}
use aws_controllers_k8s_acm.Certificate.Manager.{read_one}

-- `ackcondition`: status, message and reason.
pub record SetConditions : Type 0 where
  pub set_late_initialized : Certificate → String → String → String → Certificate
  pub set_synced : Certificate → String → Certificate

-- `latest.Spec.Options.Export`, set where both have options and it is nil.
abbrev pub late_options :
    Option CertificateOptions → Option CertificateOptions → Option CertificateOptions
late_options (some o) (some l) = some (record l { export = or_else l.export o.export })
late_options o l = or_else l o

unfoldable pub late_initialize_from_read_one_output : Certificate → Certificate → Certificate
late_initialize_from_read_one_output observed latest = record latest {
  spec = record (latest.spec) {
    key_algorithm = or_else latest.spec.key_algorithm observed.spec.key_algorithm;
    options = late_options observed.spec.options latest.spec.options;
    subject_alternative_names =
        or_else latest.spec.subject_alternative_names observed.spec.subject_alternative_names;
  };
}

abbrev pub no_export : Option CertificateOptions → Bool
no_export none = true
no_export (some o) = is_none o.export

unfoldable pub incomplete_late_initialization : Certificate → Bool
incomplete_late_initialization ko =
    is_none ko.spec.key_algorithm
    || no_export ko.spec.options
    || is_none ko.spec.subject_alternative_names

-- The hook after the read.
unfoldable pub post_read_one : Certificate → Certificate → Certificate
post_read_one observed latest = record latest {
  spec = record (latest.spec) {
    domain_validation_options =
        or_else latest.spec.domain_validation_options observed.spec.domain_validation_options;
    subject_alternative_names =
        or_else latest.spec.subject_alternative_names observed.spec.subject_alternative_names;
  };
}

module _ (X : Errors) (S : Service X) (r : RangeOrder) (k : SetConditions)
    (rm : ResourceManager) where
  open X use {Err}

  unfoldable pub late_failed : Certificate → Err → Returned X
  late_failed latest e = record {
    resource = some (
        k.set_synced
          (k.set_late_initialized latest "False"
            "Unable to complete Read operation required for late initialization"
            "Late Initialization Failure")
          "False");
    error = some e;
  }

  -- From the read resource on.
  unfoldable pub late_finish : Certificate → Certificate → Returned X
  late_finish observed latest =
      let res = late_initialize_from_read_one_output observed (post_read_one observed latest) in
      if incomplete_late_initialization res
      then record {
        resource = some (
            k.set_synced
              (k.set_late_initialized res "False"
                "Late initialization did not complete, requeuing with delay of 5 seconds"
                "Delayed Late Initialization")
              "False");
        error = some (X.needed_after 5);
      }
      else record {
        resource = some (
            k.set_late_initialized res "True" "Late initialization successful"
              "Late initialization successful");
        error = none;
      }

  -- `latestCopy` comes back from the read with the AWS tags mirrored into it.
  unfoldable pub after_read : Returned X × Certificate → GoM X (Returned X)
  after_read (read, latest) = elim read.error [
    | some e ↦ return (late_failed latest e)
    | none ↦ deref read.resource >>= λ observed. return (late_finish observed latest)
  ]

  unfoldable pub late_initialize : Resource → GoM X (Returned X)
  late_initialize latest = read_one X S r rm latest >>= after_read
