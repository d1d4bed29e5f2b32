-- ===== src/Certificate/Conditions/Keeps.antt =====
-- `onError` and `onSuccess` change nothing but the conditions and the identity, of which they keep the
-- ARN, and an error is always visible in the conditions.
use mathlib.Core.Path.{subst}
use aws_controllers_k8s_acm.Base.{
  ◌≡◌, ◌≢◌, ◌⊎◌, refl, ◌∙◌, sym, String, Bool, true, false, Option, none, some, arith, is_some, inl,
  inr, Option-cases, Bool-cases,
}
use aws_controllers_k8s_acm.Go.{Outcome-cases, ok}
use aws_controllers_k8s_acm.Api.{Certificate, arn_of}
use aws_controllers_k8s_acm.Sdk.{Errors}
use aws_controllers_k8s_acm.Certificate.{ResourceManager, set_status_defaults}
use aws_controllers_k8s_acm.Certificate.Conditions.{
  conditions_of, is_terminal, terminal_message, recoverable_message, mark_error, update_conditions,
  Returned, on_error, on_success, terminal_aws_error,
}
use aws_controllers_k8s_acm.Certificate.Conditions.Marks.{
  terminal_type, recoverable_type, last_of, IsSingle,
}
use aws_controllers_k8s_acm.Certificate.Conditions.Outcomes.{
  on_error-terminal, on_error-recoverable, on_success_lem,
}

-- The resource without its conditions and its identity in AWS.
abbrev pub bare : Certificate → Certificate
bare ko = record ko {
  status = record (ko.status) { conditions = none; ack_resource_metadata = none };
}

-- All but the conditions and the identity is the same, and so is the ARN.
pub record Keeps (ko ko' : Certificate) : Type 0 where
  pub same : bare ko' ≡ bare ko
  pub spec : ko'.spec ≡ ko.spec
  pub metadata : ko'.metadata ≡ ko.metadata
  pub arn : arn_of ko' ≡ arn_of ko

pub some_inj : {a b : Certificate} → some a ≡ some b → a ≡ b
some_inj h = cc

-- The conditions show an error: a true terminal or a true recoverable one, with a message.
abbrev pub ShowsError : Certificate → Type 0
ShowsError ko =
    (message : String) × ((last_of terminal_type (conditions_of ko)
        ≡ some (record { type_ = terminal_type; status = "True"; message = some message }))
      ⊎ (last_of recoverable_type (conditions_of ko)
          ≡ some (record { type_ = recoverable_type; status = "True"; message = some message })))

module _ (X : Errors) where
  -- The runtime's `AWSError` finds the AWS error in each error that an AWS code makes terminal.
  abbrev pub IsSpeaking : Type 0
  IsSpeaking = (e : X.Err) → terminal_aws_error X e ≡ true → is_some (X.aws_error e) ≡ true

  worded : (e : X.Err) → is_terminal X e ≡ true → IsSpeaking → terminal_message X e ≢ none
  unfolding terminal_message
  worded e t speaks q = ground (arith, speaks e)

module _ (X : Errors) (rm : ResourceManager) (ko : Certificate) where
  open X use {Err}

  update_conditions-Keeps :
      (success : Bool) (e : Option Err) (ko' : Certificate)
      → update_conditions X rm ko success e ≡ ok (some ko')
      → Keeps ko ko'
  unfolding update_conditions set_status_defaults
  update_conditions-Keeps success e ko' h = ground arith

  -- What `onSuccess` returns.
  pub on_success-Keeps :
      (ret : Returned X)
      → on_success X rm (some ko) ≡ ok ret
      → (ko' : Certificate) × (ret.resource ≡ some ko') × (ret.error ≡ none) × Keeps ko ko'
  unfolding on_success
  on_success-Keeps ret h = elim (Outcome-cases (update_conditions X rm ko true none)) [
    | inl (none, u) ↦ (
      ko,
      ground arith,
      ground arith,
      record { same = refl; spec = refl; metadata = refl; arn = refl },
    )
    | inl (some ko', u) ↦ (ko', ground arith, ground arith, update_conditions-Keeps true none ko' u)
    | inr (inl u) ↦ absurd (ground arith)
    | inr (inr (v, u)) ↦ absurd (ground arith)
  ]

  on_error-Keeps :
      (e : Err) (ret : Returned X)
      → on_error X rm (some ko) e ≡ ok ret
      → (ko' : Certificate) × (ret.resource ≡ some ko') × Keeps ko ko'
  unfolding on_error
  on_error-Keeps e ret h = elim (Outcome-cases (update_conditions X rm ko false (some e))) [
    | inl (none, u) ↦
        (ko, ground arith, record { same = refl; spec = refl; metadata = refl; arn = refl })
    | inl (some ko', u) ↦ (ko', ground arith, update_conditions-Keeps false (some e) ko' u)
    | inr (inl u) ↦ absurd (ground arith)
    | inr (inr (v, u)) ↦ absurd (ground arith)
  ]

  speechless :
      (e : Err) (ret : Returned X)
      → is_terminal X e ≡ true
      → terminal_message X e ≡ none
      → on_error X rm (some ko) e ≢ ok ret
  unfolding on_error update_conditions mark_error
  speechless e ret t q h = ground arith

  shown :
      (e : Err) (ret : Returned X)
      → IsSingle terminal_type (conditions_of ko)
      → on_error X rm (some ko) e ≡ ok ret
      → (ko' : Certificate) × (e' : Err) × (ret.resource ≡ some ko')
        × (ret.error ≡ some e')
        × ShowsError ko'
  shown e ret single h = elim (Bool-cases (is_terminal X e)) [
    | inl t ↦ elim (Option-cases (terminal_message X e)) [
      | inl q ↦ absurd (speechless e ret t q h)
      | inr (m, q) ↦
          let (ko', o, marked, others) = on_error-terminal X rm ko e m t q in
          (ko', X.terminal, ground (arith, o), ground (arith, o), (m, inl marked))
    ]
    | inr f ↦
        let (ko', o, marked, terminal, others) = on_error-recoverable X rm ko e f single in
        (ko', e, ground (arith, o), ground (arith, o), (recoverable_message X e, inr marked))
  ]

  -- What `onError` returns.
  pub on_error-shown :
      (e : Err) (ret : Returned X)
      → IsSingle terminal_type (conditions_of ko)
      → on_error X rm (some ko) e ≡ ok ret
      → (ko' : Certificate) × (e' : Err) × (ret.resource ≡ some ko')
        × (ret.error ≡ some e')
        × Keeps ko ko'
        × ShowsError ko'
  on_error-shown e ret single h =
      let (ko', e', there, failed, shows) = shown e ret single h in
      let (again, there', keeps) = on_error-Keeps e ret h in
      (ko', e', there, failed, subst (Keeps ko) (some_inj (sym there' ∙ there)) keeps, shows)

  -- `onError` returns.
  pub on_error-ok :
      (e : Err)
      → IsSpeaking X
      → IsSingle terminal_type (conditions_of ko)
      → (ret : Returned X) × (on_error X rm (some ko) e ≡ ok ret)
  on_error-ok e speaks single = elim (Bool-cases (is_terminal X e)) [
    | inl t ↦ elim (Option-cases (terminal_message X e)) [
      | inl q ↦ absurd (worded X e t speaks q)
      | inr (m, q) ↦ let (ko', o, marked, others) = on_error-terminal X rm ko e m t q in (_, o)
    ]
    | inr f ↦
        let (ko', o, marked, terminal, others) = on_error-recoverable X rm ko e f single in (_, o)
  ]

  -- `onSuccess` returns.
  pub on_success-ok : (ret : Returned X) × (on_success X rm (some ko) ≡ ok ret)
  on_success-ok = let made = on_success_lem X rm ko in (_, made.1)
