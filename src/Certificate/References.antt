-- ===== src/Certificate/References.antt =====
-- references.go: the reference to a certificate authority. The methods write into the resource
-- that they are given, which is therefore returned beside each error.
pub mod State
pub mod Laws
use aws_controllers_k8s_acm.Base.{
  String, Bool, true, false, ◌&&◌, ◌||◌, not, Option, none, some, List, ◌==◌, string_dec, is_some,
  if◌then◌else◌, any,
}
use aws_controllers_k8s_acm.Go.{
  Outcome, ok, err, panic, Go, return, fail, crash, call, attempt, ◌>>=◌,
}
use aws_controllers_k8s_acm.Api.{
  Certificate, Condition, AwsResourceReference, AwsResourceReferenceWrapper,
}
use aws_controllers_k8s_acm.Sdk.{
  Errors, Service, GoM, CertificateAuthority, get_certificate_authority,
}
use aws_controllers_k8s_acm.Tags.Ack.{elems}
use aws_controllers_k8s_acm.Certificate.{ResourceManager}
use aws_controllers_k8s_acm.Certificate.Conditions.{is_terminal_true}
use aws_controllers_k8s_acm.Certificate.Conditions.Marks.{synced_type}

-- `ackrt.ResolveCrossNamespaceReference`: from the flag, the conditions, the resource's namespace,
-- the reference's namespace and name, the namespace to look in, and the conditions as it leaves
-- them.
pub record CrossNamespace (X : Errors) : Type 0 where
  pub resolve :
      Bool
      → Option (List Condition)
      → String
      → Option String
      → String
      → Outcome X.Err String × Option (List Condition)

unfoldable pub clear_resolved_references : Certificate → Certificate
clear_resolved_references ko =
    if is_some ko.spec.certificate_authority_ref
    then record ko { spec = record (ko.spec) { certificate_authority_arn = none } }
    else ko

abbrev pub is_synced_true : Condition → Bool
is_synced_true c = c.type_ == synced_type && c.status == "True"

-- `obj.Status.ACKResourceMetadata.ARN`, or nil.
abbrev pub authority_arn : CertificateAuthority → Option String
authority_arn obj = elim obj.ack_resource_metadata [ none ↦ none | some meta ↦ meta.arn ]

-- `ko.Spec.CertificateAuthorityRef.From`, or nil.
abbrev pub reference_of : Certificate → Option AwsResourceReference
reference_of ko = elim ko.spec.certificate_authority_ref [ none ↦ none | some ref ↦ ref.from ]

-- `*arr.Name`, where it is there and not empty.
abbrev pub name_of : AwsResourceReference → Option String
name_of ref = elim ref.name [ none ↦ none | some n ↦ if n == "" then none else some n ]

abbrev pub set_authority_arn : Option String → Certificate → Certificate
set_authority_arn arn ko = record ko { spec = record (ko.spec) { certificate_authority_arn = arn } }

abbrev pub set_raw_conditions : Option (List Condition) → Certificate → Certificate
set_raw_conditions cs ko = record ko { status = record (ko.status) { conditions = cs } }

module _ (X : Errors) where
  open X use {Err}

  unfoldable pub validate_reference_fields : Certificate → Option Err
  validate_reference_fields ko =
      if is_some ko.spec.certificate_authority_ref && is_some ko.spec.certificate_authority_arn
      then some
          (X.reference_and_id_not_supported_for "CertificateAuthorityARN" "CertificateAuthorityRef")
      else none

  -- The checks on the object that was read.
  unfoldable pub check_referenced : String → String → CertificateAuthority → Option Err
  check_referenced namespace name obj =
      if any is_terminal_true (elems obj.conditions)
      then some (X.reference_terminal_for "CertificateAuthority" namespace name)
      else if not (any is_synced_true (elems obj.conditions))
      then some (X.reference_not_synced_for "CertificateAuthority" namespace name)
      else if not (is_some (authority_arn obj))
      then some (
          X.reference_missing_target_field_for "CertificateAuthority" namespace name
            "Status.ACKResourceMetadata.ARN")
      else none

  -- `(AWSResource, bool, error)`.
  pub record Resolved : Type 0 where
    pub ko : Certificate
    pub has_references : Bool
    pub error : Option Err

module _ (X : Errors) (S : Service X) (N : CrossNamespace X) (rm : ResourceManager) where
  open X use {Err}

  unfoldable pub get_referenced_resource_state_certificate_authority :
      String → String → GoM X CertificateAuthority
  get_referenced_resource_state_certificate_authority namespace name = do
    obj ← call (get_certificate_authority namespace name) (S.certificate_authority namespace name)
    elim (check_referenced X namespace name obj) [ some e ↦ fail e | none ↦ return obj ]

  abbrev pub resolved : Certificate → Bool → Option Err → GoM X (Resolved X)
  resolved ko has e = return (record { ko = ko; has_references = has; error = e })

  -- The answer of the state check: the field is set from the object.
  unfoldable pub resolve_answer :
      Certificate → Outcome Err CertificateAuthority → GoM X (Resolved X)
  resolve_answer ko (ok obj) = resolved (set_authority_arn (authority_arn obj) ko) true none
  resolve_answer ko (err e) = resolved ko true (some e)
  resolve_answer ko panic = crash

  -- A named reference, in the namespace that the runtime allows.
  unfoldable pub resolve_in :
      Certificate → String → Outcome Err String × Option (List Condition) → GoM X (Resolved X)
  resolve_in ko name (ok namespace, conditions) =
      attempt (get_referenced_resource_state_certificate_authority namespace name)
      >>= resolve_answer (set_raw_conditions conditions ko)
  resolve_in ko name (err e, conditions) = resolved (set_raw_conditions conditions ko) true (some e)
  resolve_in ko name (panic, conditions) = crash

  unfoldable pub resolve_reference_for_certificate_authority_arn : Certificate → GoM X (Resolved X)
  resolve_reference_for_certificate_authority_arn ko = elim (reference_of ko) [
    | none ↦ resolved ko false none
    | some ref ↦ elim (name_of ref) [
      | none ↦ resolved ko true (
          some
            (X.errors_new "provided resource reference is nil or empty: CertificateAuthorityRef"))
      | some name ↦ resolve_in ko name (
          N.resolve rm.enable_cross_namespace ko.status.conditions ko.metadata.namespace
            ref.namespace name)
    ]
  ]

  abbrev pub or_validation : Option Err → Resolved X → Resolved X
  or_validation e res = record res { error = elim res.error [ some e' ↦ some e' | none ↦ e ] }

  unfoldable pub resolve_references : Certificate → GoM X (Resolved X)
  resolve_references ko = resolve_reference_for_certificate_authority_arn ko >>= λ res.
      return (or_validation (validate_reference_fields X ko) res)
