-- ===== src/Certificate/Conditions/Outcomes.antt =====
-- What `onError` and `onSuccess` return, and the conditions that they leave.
use mathlib.Core.Option as O
use mathlib.Core.Path.{subst}
use aws_controllers_k8s_acm.Base.{
  ◌≡◌, ◌≢◌, refl, ◌∙◌, sym, ap, String, Bool, true, false, Option, none, some, List, arith, any,
  or_else, inl, inr, Option-cases, Bool-cases,
}
use aws_controllers_k8s_acm.Go.{ok}
use aws_controllers_k8s_acm.Api.{Certificate, Condition}
use aws_controllers_k8s_acm.Sdk.{Errors}
use aws_controllers_k8s_acm.Certificate.{ResourceManager, set_status_defaults}
use aws_controllers_k8s_acm.Certificate.Conditions.{
  conditions_of, set_conditions, is_terminal, terminal_message, recoverable_message, mark_error,
  update_conditions, on_error, on_success, is_terminal_true,
}
use aws_controllers_k8s_acm.Certificate.Conditions.Marks.{
  terminal_type, recoverable_type, synced_type, set_type, clear_type, append_synced, last_of,
  restate, IsSingle, has_type-last_of, last_of-set_type, last_of-clear_type, last_of-append_synced,
  IsSingle-set_type, IsSingle-clear_type, IsSingle-append_synced, any-last_of, is_true,
  is_true-cleared,
}
use aws_controllers_k8s_acm.Certificate.Conditions.Updated.{
  conditions_of-set_status_defaults, distinct, any-true, append_synced-false, marked-terminal,
  marked-recoverable, updated, on_error-updated, on_success-updated,
}

module _ (X : Errors) (rm : ResourceManager) (ko : Certificate) where
  open X use {Err}

  -- A terminal error whose message is known (the error itself is one of the controller's, or the
  -- runtime finds the AWS error in it) is answered by the runtime's terminal error, with a true
  -- terminal condition that holds the message. The other conditions stay.
  pub on_error-terminal :
      (e : Err) (m : String)
      → is_terminal X e ≡ true
      → terminal_message X e ≡ some m
      → (ko' : Certificate) × (on_error X rm (some ko) e
          ≡ ok (record { resource = some ko'; error = some X.terminal }))
        × (last_of terminal_type (conditions_of ko')
            ≡ some (record { type_ = terminal_type; status = "True"; message = some m }))
        × ((u : String)
            → u ≢ terminal_type
            → last_of u (conditions_of ko') ≡ last_of u (conditions_of ko))
  on_error-terminal e m h q =
      let cs = set_type terminal_type m (conditions_of ko) in
      let at = λ (u : String). last_of-set_type terminal_type u m (conditions_of ko) in
      let update =
        updated X rm ko false (some e) cs (marked-terminal X rm ko (conditions_of ko) e m h q) (
          rw (append_synced-false cs)
            (ground (arith, at terminal_type, has_type-last_of terminal_type cs))) in
      (
        set_conditions cs (set_status_defaults rm ko),
        on_error-updated X rm ko e _ update
            ∙ rw (append_synced-false cs) (ground (arith, at terminal_type, any-true cs (some m))),
        ground (arith, at terminal_type),
        λ u n. ground (arith, at u),
      )

  -- Another error comes back unchanged if the resource has at most one terminal condition: that
  -- condition is false now, and a true recoverable condition holds the error's message. The other
  -- conditions stay.
  pub on_error-recoverable :
      (e : Err)
      → is_terminal X e ≡ false
      → IsSingle terminal_type (conditions_of ko)
      → (ko' : Certificate) × (on_error X rm (some ko) e
          ≡ ok (record { resource = some ko'; error = some e }))
        × (last_of recoverable_type (conditions_of ko')
            ≡ some (record {
              type_ = recoverable_type;
              status = "True";
              message = some (recoverable_message X e);
            }))
        × (last_of terminal_type (conditions_of ko')
            ≡ O.map (restate "False" none) (last_of terminal_type (conditions_of ko)))
        × ((u : String)
            → u ≢ terminal_type
            → u ≢ recoverable_type
            → last_of u (conditions_of ko') ≡ last_of u (conditions_of ko))
  on_error-recoverable e h single =
      let cleared = clear_type terminal_type (conditions_of ko) in
      let cs = set_type recoverable_type (recoverable_message X e) cleared in
      let set =
        λ (u : String). last_of-set_type recoverable_type u (recoverable_message X e) cleared in
      let clear = λ (u : String). last_of-clear_type terminal_type u (conditions_of ko) in
      let one =
        IsSingle-set_type recoverable_type terminal_type (recoverable_message X e) cleared
          (IsSingle-clear_type terminal_type terminal_type (conditions_of ko) single) in
      let none_true : any is_terminal_true cs ≡ false =
        any-last_of terminal_type cs one
        ∙ ap is_true (ground (arith, set terminal_type, clear terminal_type, distinct))
        ∙ is_true-cleared (last_of terminal_type (conditions_of ko)) in
      let update =
        updated X rm ko false (some e) cs (marked-recoverable X rm ko (conditions_of ko) e h) (
          rw (append_synced-false cs)
            (ground (arith, set recoverable_type, has_type-last_of recoverable_type cs))) in
      (
        set_conditions cs (set_status_defaults rm ko),
        on_error-updated X rm ko e _ update ∙ rw (append_synced-false cs, none_true),
        ground (arith, set recoverable_type),
        ground (arith, set terminal_type, clear terminal_type, distinct),
        λ u n k. ground (arith, set u, clear u),
      )

  -- Success clears the terminal and the recoverable condition where they are, and sees to it that
  -- there is a condition of type ResourceSynced: a true one is added, but an older one keeps its
  -- status, whatever it is. The other conditions stay, and no error is returned.
  pub on_success_lem :
      (ko' : Certificate) × (on_success X rm (some ko)
        ≡ ok (record { resource = some ko'; error = none }))
      × (last_of terminal_type (conditions_of ko')
          ≡ O.map (restate "False" none) (last_of terminal_type (conditions_of ko)))
      × (last_of recoverable_type (conditions_of ko')
          ≡ O.map (restate "False" none) (last_of recoverable_type (conditions_of ko)))
      × (last_of synced_type (conditions_of ko')
          ≡ or_else
              (last_of synced_type (conditions_of ko))
              (some (record { type_ = synced_type; status = "True"; message = none })))
      × ((u : String)
          → u ≢ terminal_type
          → u ≢ recoverable_type
          → u ≢ synced_type
          → last_of u (conditions_of ko') ≡ last_of u (conditions_of ko))
  on_success_lem =
      let cleared = clear_type terminal_type (conditions_of ko) in
      let quiet = clear_type recoverable_type cleared in
      let cs = append_synced true quiet in
      let add = λ (u : String). last_of-append_synced u true quiet in
      let calm = λ (u : String). last_of-clear_type recoverable_type u cleared in
      let clear = λ (u : String). last_of-clear_type terminal_type u (conditions_of ko) in
      let update =
        updated X rm ko true none quiet (unfold mark_error in refl)
          (ground (arith, add synced_type, has_type-last_of synced_type cs)) in
      (
        set_conditions cs (set_status_defaults rm ko),
        on_success-updated X rm ko _ update,
        ground (arith, add terminal_type, calm terminal_type, clear terminal_type, distinct),
        ground
            (arith, add recoverable_type, calm recoverable_type, clear recoverable_type, distinct),
        ground (arith, add synced_type, calm synced_type, clear synced_type, distinct),
        λ u n k j. ground (arith, add u, calm u, clear u),
      )

  marked-IsSingle :
      (u : String) (e : Option Err) (cs : List Condition) {marked : List Condition}
      → mark_error X e cs ≡ ok marked
      → IsSingle u cs
      → IsSingle u marked
  unfolding mark_error
  marked-IsSingle u none cs h s =
      let p = IsSingle-clear_type recoverable_type u _ (IsSingle-clear_type terminal_type u cs s) in
      subst (IsSingle u) (ground arith) p
  marked-IsSingle u (some e) cs h s = elim (Bool-cases (is_terminal X e)) [
    | inl y ↦ elim (Option-cases (terminal_message X e)) [
      | inl q ↦ absurd (ground arith)
      | inr (m, q) ↦ subst (IsSingle u) (ground arith) (IsSingle-set_type terminal_type u m cs s)
    ]
    | inr n ↦ subst (IsSingle u) (ground arith) (
        IsSingle-set_type recoverable_type u (recoverable_message X e) _
          (IsSingle-clear_type terminal_type u cs s))
  ]

  update_conditions-ok :
      (success : Bool) (e : Option Err) (ko' : Certificate)
      → update_conditions X rm ko success e ≡ ok (some ko')
      → (marked : List Condition) × (mark_error X e (conditions_of ko) ≡ ok marked)
        × (conditions_of ko' ≡ append_synced success marked)
  unfolding update_conditions
  update_conditions-ok success e ko' h =
      let start = ap (mark_error X e) (conditions_of-set_status_defaults rm ko) in
      let (marked, p, q) : (marked : List Condition) × (mark_error X e
              (conditions_of (set_status_defaults rm ko))
            ≡ ok marked)
          × (conditions_of ko' ≡ append_synced success marked) =
        ground arith in
      (marked, sym start ∙ p, q)

  -- If every type has at most one condition, that is so after an update too.
  pub update_conditions-IsSingle :
      (success : Bool) (e : Option Err) (ko' : Certificate) (u : String)
      → IsSingle u (conditions_of ko)
      → update_conditions X rm ko success e ≡ ok (some ko')
      → IsSingle u (conditions_of ko')
  update_conditions-IsSingle success e ko' u s h =
      let (marked, p, q) = update_conditions-ok success e ko' h in
      subst (IsSingle u) (sym q)
        (IsSingle-append_synced u success marked (marked-IsSingle u e (conditions_of ko) p s))
