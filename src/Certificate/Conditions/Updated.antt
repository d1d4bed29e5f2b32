-- ===== src/Certificate/Conditions/Updated.antt =====
-- What `updateConditions`, `onError` and `onSuccess` come to once the error is known to be terminal
-- or not.
use aws_controllers_k8s_acm.Base.{
  ◌≡◌, refl, ap, String, Bool, true, false, ◌||◌, Option, none, some, List, [], ◌∷◌, arith, ◌==◌,
  string_dec, if◌then◌else◌, any,
}
use aws_controllers_k8s_acm.Go.{ok}
use aws_controllers_k8s_acm.Api.{Certificate, Condition}
use aws_controllers_k8s_acm.Sdk.{Errors}
use aws_controllers_k8s_acm.Certificate.{ResourceManager, set_status_defaults}
use aws_controllers_k8s_acm.Certificate.Conditions.{
  conditions_of, set_conditions, is_terminal, terminal_message, recoverable_message, mark_error,
  update_conditions, returned, on_error, on_success, is_terminal_true,
}
use aws_controllers_k8s_acm.Certificate.Conditions.Marks.{
  terminal_type, recoverable_type, synced_type, set_type, clear_type, append_synced, has_type,
  last_of,
}

pub conditions_of-set_status_defaults :
    (rm : ResourceManager) (ko : Certificate)
    → conditions_of (set_status_defaults rm ko) ≡ conditions_of ko
unfolding set_status_defaults
conditions_of-set_status_defaults rm ko = ground arith

-- The three types differ.
pub distinct :
    ((recoverable_type == terminal_type) ≡ false)
    × ((synced_type == terminal_type) ≡ false)
    × ((synced_type == recoverable_type) ≡ false)
    × ((terminal_type == recoverable_type) ≡ false)
    × ((terminal_type == synced_type) ≡ false)
    × ((recoverable_type == synced_type) ≡ false)
unfolding string_dec
distinct = (refl, refl, refl, refl, refl, refl)

pub any-true :
    (cs : List Condition) (m : Option String)
    → last_of terminal_type cs
      ≡ some (record { type_ = terminal_type; status = "True"; message = m })
    → any is_terminal_true cs ≡ true
any-true [] m h = ground arith
any-true (c ∷ cs) m h = ground (arith, any-true cs m)

pub append_synced-false : (cs : List Condition) → append_synced false cs ≡ cs
unfolding append_synced
append_synced-false cs = ground arith

module _ (X : Errors) (rm : ResourceManager) (ko : Certificate) where
  open X use {Err}

  pub marked-terminal :
      (cs : List Condition) (e : Err) (m : String)
      → is_terminal X e ≡ true
      → terminal_message X e ≡ some m
      → mark_error X (some e) cs ≡ ok (set_type terminal_type m cs)
  unfolding mark_error
  marked-terminal cs e m h q = ground arith

  pub marked-recoverable :
      (cs : List Condition) (e : Err)
      → is_terminal X e ≡ false
      → mark_error X (some e) cs
        ≡ ok (set_type recoverable_type (recoverable_message X e) (clear_type terminal_type cs))
  unfolding mark_error
  marked-recoverable cs e h = ground arith

  pub updated :
      (success : Bool) (e : Option Err) (marked : List Condition)
      → mark_error X e (conditions_of ko) ≡ ok marked
      → (let cs = append_synced success marked in
          has_type terminal_type cs || has_type recoverable_type cs || has_type synced_type cs)
        ≡ true
      → update_conditions X rm ko success e
        ≡ ok (some (set_conditions (append_synced success marked) (set_status_defaults rm ko)))
  unfolding update_conditions
  updated success e marked p q =
      ground (arith, ap (mark_error X e) (conditions_of-set_status_defaults rm ko))

  pub on_error-updated :
      (e : Err) (ko' : Certificate)
      → update_conditions X rm ko false (some e) ≡ ok (some ko')
      → on_error X rm (some ko) e
        ≡ returned X
            (some ko')
            (some (if any is_terminal_true (conditions_of ko') then X.terminal else e))
  unfolding on_error
  on_error-updated e ko' h = rw (h, on_error)

  pub on_success-updated :
      (ko' : Certificate)
      → update_conditions X rm ko true none ≡ ok (some ko')
      → on_success X rm (some ko) ≡ returned X (some ko') none
  unfolding on_success
  on_success-updated ko' h = rw (h, on_success)
