-- ===== src/Certificate/Conditions.antt =====
-- `updateConditions` and `terminalAWSError` (sdk.go), `onError` and `onSuccess` (manager.go). The
-- names of the condition types are those of test/e2e/condition.py. The code keeps pointers to the
-- last condition of each type that it looks for and writes through them, or appends one: here a
-- condition is marked in place. `panic` is the method call on a nil `awsErr`.
pub mod Marks
pub mod Updated
pub mod Outcomes
pub mod Keeps
use aws_controllers_k8s_acm.Base.{
  String, Bool, true, false, not, ◌&&◌, ◌||◌, Option, none, some, List, [], ◌∷◌, ◌++◌, ◌==◌,
  string_dec, contains, if◌then◌else◌, any,
}
use aws_controllers_k8s_acm.Go.{Outcome, ok, err, panic}
use aws_controllers_k8s_acm.Api.{Certificate, Condition}
use aws_controllers_k8s_acm.Sdk.{Errors}
use aws_controllers_k8s_acm.Tags.Ack.{elems}
use aws_controllers_k8s_acm.Certificate.{ResourceManager, set_status_defaults}
use aws_controllers_k8s_acm.Certificate.Conditions.Marks.{
  terminal_type, recoverable_type, synced_type, set_type, clear_type, append_synced, has_type,
}

abbrev pub terminal_codes : List String
terminal_codes =
    "InvalidParameterException" ∷ "InvalidDomainValidationOptionsException" ∷ "InvalidTagException"
    ∷ "TagPolicyException" ∷ "TooManyTagsException" ∷ "InvalidArnException" ∷ []

-- `r1.Conditions()` holds a true terminal condition.
abbrev pub is_terminal_true : Condition → Bool
is_terminal_true c = c.type_ == terminal_type && c.status == "True"

abbrev pub conditions_of : Certificate → List Condition
conditions_of ko = elems ko.status.conditions

abbrev pub set_conditions : List Condition → Certificate → Certificate
set_conditions cs ko = record ko { status = record (ko.status) { conditions = some cs } }

module _ (X : Errors) where
  open X use {Err}

  unfoldable pub terminal_aws_error : Err → Bool
  terminal_aws_error e = elim (X.api_code e) [
    | none ↦ false
    | some code ↦ contains terminal_codes code
  ]

  -- `err == SecretTypeNotSupported || err == SecretNotFound || errors.As(err, &termError)`
  abbrev pub is_own_terminal : Err → Bool
  is_own_terminal e = X.is_secret_type_not_supported e || X.is_secret_not_found e || X.as_terminal e

  abbrev pub is_terminal : Err → Bool
  is_terminal e = terminal_aws_error e || is_own_terminal e

  -- `none` where `awsErr` is nil.
  unfoldable pub terminal_message : Err → Option String
  terminal_message e = if is_own_terminal e then some (X.message e) else X.aws_error e

  abbrev pub recoverable_message : Err → String
  recoverable_message e = elim (X.aws_error e) [ none ↦ X.message e | some m ↦ m ]

  -- The terminal and the recoverable condition.
  unfoldable pub mark_error : Option Err → List Condition → Outcome Err (List Condition)
  mark_error none cs = ok (clear_type recoverable_type (clear_type terminal_type cs))
  mark_error (some e) cs =
      if is_terminal e
      then elim (terminal_message e) [ none ↦ panic | some m ↦ ok (set_type terminal_type m cs) ]
      else ok (set_type recoverable_type (recoverable_message e) (clear_type terminal_type cs))

  -- The certificate with its conditions updated, or nil if it has none of the three.
  unfoldable pub update_conditions :
      ResourceManager → Certificate → Bool → Option Err → Outcome Err (Option Certificate)
  update_conditions rm ko on_success e =
      let ko' = set_status_defaults rm ko in
      elim (mark_error e (conditions_of ko')) [
        | ok marked ↦
            let cs = append_synced on_success marked in
            if has_type terminal_type cs || has_type recoverable_type cs || has_type synced_type cs
            then ok (some (set_conditions cs ko'))
            else ok none
        | err e' ↦ err e'
        | panic ↦ panic
      ]

  -- What the methods of the manager return: `(acktypes.AWSResource, error)`.
  pub record Returned : Type 0 where
    pub resource : Option Certificate
    pub error : Option Err

  abbrev pub returned : Option Certificate → Option Err → Outcome Err Returned
  returned r e = ok (record { resource = r; error = e })

  unfoldable pub on_error : ResourceManager → Option Certificate → Err → Outcome Err Returned
  on_error rm none e = returned none (some e)
  on_error rm (some ko) e = elim (update_conditions rm ko false (some e)) [
    | ok none ↦ returned (some ko) (some e)
    | ok (some ko') ↦
        returned (some ko')
          (some (if any is_terminal_true (conditions_of ko') then X.terminal else e))
    | err e' ↦ err e'
    | panic ↦ panic
  ]

  unfoldable pub on_success : ResourceManager → Option Certificate → Outcome Err Returned
  on_success rm none = returned none none
  on_success rm (some ko) = elim (update_conditions rm ko true none) [
    | ok none ↦ returned (some ko) none
    | ok (some ko') ↦ returned (some ko') none
    | err e' ↦ err e'
    | panic ↦ panic
  ]
