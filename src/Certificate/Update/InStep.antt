-- ===== src/Certificate/Update/InStep.antt =====
-- An update after a read that shows no drift, or one in the tags only.
use aws_controllers_k8s_acm.Base.{
  ◌≡◌, ◌≢◌, refl, sym, ap, ◌∙◌, ◌⊎◌, inl, inr, String, ◌<>◌, ◌==◌, true, false, List, arith,
  Bool-cases, contains, string_dec, if◌then◌else◌,
}
use aws_controllers_k8s_acm.Base.Strings.{has_prefix}
use aws_controllers_k8s_acm.GoMap.{RangeOrder}
use aws_controllers_k8s_acm.Go.{ok, return, ◌>>◌}
use aws_controllers_k8s_acm.Api.{Certificate}
use aws_controllers_k8s_acm.Sdk.{Errors, Service, Call}
use aws_controllers_k8s_acm.Certificate.{ResourceManager}
use aws_controllers_k8s_acm.Certificate.Delta.{Compare, Delta, compare_certificates}
use aws_controllers_k8s_acm.Certificate.Export.{Crypto}
use aws_controllers_k8s_acm.Certificate.Find.Answers.{Read}
use aws_controllers_k8s_acm.Certificate.Find.Drift.{
  IsReflexive, drifts, contains-compare_certificates,
}
use aws_controllers_k8s_acm.Certificate.Update.{push_tags, update_tags, update_rest, sdk_update}

-- What the runtime documents of the questions that are asked of a delta: one is at a path if there
-- is a difference at the path or below it, and there is none except at a path if each is at it.
pub record IsFinding (c : Compare) : Type 0 where
  pub there : (delta : Delta) (p : String) → contains delta p ≡ true → c.different_at delta p ≡ true
  pub found :
      (delta : Delta) (p : String)
      → c.different_at delta p ≡ true
      → (q : String) × (contains delta q ≡ true) × ((q ≡ p) ⊎ (has_prefix q (p <> ".") ≡ true))
  pub except :
      (delta : Delta) (p : String)
      → ((q : String) → contains delta q ≡ true → q ≡ p)
      → c.different_except delta p ≡ false

-- Nothing is in a delta but the tags.
abbrev OnlyTags : Delta → Type 0
OnlyTags delta = (q : String) → contains delta q ≡ true → q ≡ "Spec.Tags"

module _ (c : Compare) (law : IsFinding c) (delta : Delta) (only : OnlyTags delta) where
  not_at :
      (p : String)
      → ("Spec.Tags" == p) ≡ false
      → has_prefix "Spec.Tags" (p <> ".") ≡ false
      → c.different_at delta p ≡ false
  not_at p differ apart = elim (Bool-cases (c.different_at delta p)) [
    | inr e ↦ e
    | inl e ↦
        let (q, i, w) = law.found delta p e in
        elim w [
          | inl same ↦ absurd (ground (arith, sym (only q i) ∙ same))
          | inr below ↦ absurd (ground (arith, only q i))
        ]
  ]

  at_tags : c.different_at delta "Spec.Tags" ≡ contains delta "Spec.Tags"
  at_tags = elim (Bool-cases (contains delta "Spec.Tags")) [
    | inl e ↦ law.there delta "Spec.Tags" e ∙ sym e
    | inr e ↦ elim (Bool-cases (c.different_at delta "Spec.Tags")) [
      | inr f ↦ f ∙ sym e
      | inl f ↦ let (q, i, w) = law.found delta "Spec.Tags" f in absurd (ground (arith, only q i))
    ]
  ]

  no_issue :
      (c.different_at delta "Spec.Status.IssuedAt" ≡ false)
      × (c.different_at delta "Spec.Status.Serial" ≡ false)
  unfolding has_prefix string_dec
  no_issue = (not_at "Spec.Status.IssuedAt" refl refl, not_at "Spec.Status.Serial" refl refl)

module _ (X : Errors) (S : Service X) (C : Crypto) (r : RangeOrder) (c : Compare)
    (rm : ResourceManager) where
  sdk_update-OnlyTags :
      (ko observed : Certificate) (delta : Delta) (t : List (Call X.Err))
      → IsFinding c
      → OnlyTags delta
      → sdk_update X S C r c rm ko observed delta t ≡ (
          if contains delta "Spec.Tags"
          then (push_tags X S C r c rm ko observed >> return ko) t
          else (ok ko, t))
  unfolding sdk_update update_tags update_rest
  sdk_update-OnlyTags ko observed delta t law only =
      let (issued, serial) = no_issue c law delta only in
      rw (issued, serial, at_tags c law delta only, law.except delta "Spec.Tags" only)
        (elim (Bool-cases (contains delta "Spec.Tags")) [ inl e ↦ rw e refl | inr e ↦ rw e refl ])

  -- If nothing differs from itself and the runtime's questions answer as documented, and what a read
  -- was answered differs from the specification in the tags at most, then an update by the delta
  -- between the resource and what was read returns the resource as it is: with no call if the tags
  -- do not differ either, so that a certificate that is as desired is left alone, and after
  -- `SyncTags` on its tags, and nothing else, if they do.
  pub sdk_update-compare_certificates :
      (ko observed : Certificate) (t : List (Call X.Err))
      → IsReflexive c
      → IsFinding c
      → (read : Read X S rm ko observed)
      → ((p : String) → p ≢ "Spec.Tags" → drifts c ko read.detail read.listed p ≡ false)
      → sdk_update X S C r c rm ko observed (compare_certificates c ko observed) t ≡ (
          if drifts c ko read.detail read.listed "Spec.Tags"
          then (push_tags X S C r c rm ko observed >> return ko) t
          else (ok ko, t))
  sdk_update-compare_certificates ko observed t same law read only =
      let delta = compare_certificates c ko observed in
      let reads = λ (p : String). contains-compare_certificates X S c rm ko observed p same read in
      let in_tags : OnlyTags delta = λ q i. elim (string_dec q "Spec.Tags") [
        | yes e ↦ e
        | no n ↦ absurd (ground (arith, only q n, reads q))
      ] in
      sdk_update-OnlyTags ko observed delta t law in_tags
      ∙ ap (λ b. if b then (push_tags X S C r c rm ko observed >> return ko) t else (ok ko, t))
          (reads "Spec.Tags")
