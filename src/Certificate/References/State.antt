-- ===== src/Certificate/References/State.antt =====
-- Which certificate authorities may be referred to.
use aws_controllers_k8s_acm.Base.{
  ◌≡◌, ◌↔◌, ◌⊎◌, String, true, false, none, some, is_some, List, [], ◌∷◌, ◌==◌, ◌&&◌, arith, any,
  inl, inr, Bool-cases, Option-cases,
}
use aws_controllers_k8s_acm.Go.{}
use aws_controllers_k8s_acm.Api.{Condition, ResourceMetadata}
use aws_controllers_k8s_acm.Sdk.{Errors, CertificateAuthority}
use aws_controllers_k8s_acm.Tags.Ack.{elems}
use aws_controllers_k8s_acm.Certificate.Conditions.{is_terminal_true}
use aws_controllers_k8s_acm.Certificate.References.{is_synced_true, authority_arn, check_referenced}

-- What the conditions of an object say, one by one.
abbrev pub Says : String → List Condition → Type 0
Says type_ [] = ⊥
Says type_ (c ∷ cs) = ((c.type_ ≡ type_) × (c.status ≡ "True")) ⊎ Says type_ cs

any-Says :
    (type_ : String) (cs : List Condition)
    → (any (λ c. c.type_ == type_ && c.status == "True") cs ≡ true) ↔ Says type_ cs
any-Says type_ [] = ground arith
any-Says type_ (c ∷ cs) = ground (arith, any-Says type_ cs)

-- An authority that may be referred to: no condition says that it is terminal, one says that it is
-- synced, and it has an ARN.
pub record IsReferable (obj : CertificateAuthority) (arn : String) : Type 0 where
  pub not_terminal : Says "ACK.Terminal" (elems obj.conditions) → ⊥
  pub synced : Says "ACK.ResourceSynced" (elems obj.conditions)
  pub meta : ResourceMetadata
  pub known : obj.ack_resource_metadata ≡ some meta
  pub named : meta.arn ≡ some arn

module _ (X : Errors) where
  check_referenced_iff :
      (namespace name : String) (obj : CertificateAuthority)
      → (check_referenced X namespace name obj ≡ none) ↔ (
          (any is_terminal_true (elems obj.conditions) ≡ false)
          × (any is_synced_true (elems obj.conditions) ≡ true)
          × (is_some (authority_arn obj) ≡ true))
  unfolding check_referenced
  check_referenced_iff namespace name obj = ground arith

  known_authority :
      (obj : CertificateAuthority)
      → is_some (authority_arn obj) ≡ true
      → (meta : ResourceMetadata) × (arn : String) × (obj.ack_resource_metadata ≡ some meta)
        × (meta.arn ≡ some arn)
  known_authority obj h = elim (Option-cases obj.ack_resource_metadata) [
    | inl e ↦ absurd (ground arith)
    | inr (meta, e) ↦ elim (Option-cases meta.arn) [
      | inl f ↦ absurd (ground arith)
      | inr (arn, f) ↦ (meta, arn, e, f)
    ]
  ]

  -- The state check lets an authority through exactly if none of its conditions has the type
  -- `ACK.Terminal` and the status `True`, one has the type `ACK.ResourceSynced` and the status
  -- `True`, and its metadata have an ARN.
  pub check_referenced-IsReferable :
      (namespace name : String) (obj : CertificateAuthority)
      → (check_referenced X namespace name obj ≡ none) ↔ ((arn : String) × IsReferable obj arn)
  check_referenced-IsReferable namespace name obj =
      let terminal = any-Says "ACK.Terminal" (elems obj.conditions) in
      let synced = any-Says "ACK.ResourceSynced" (elems obj.conditions) in
      let passed = check_referenced_iff namespace name obj in
      (
        λ h.
            let (no_terminal, is_synced, has_arn) = passed.0 h in
            let (meta, arn, known, named) = known_authority obj has_arn in
            (
              arn,
              record {
                not_terminal = λ s. ground (arith, terminal.1 s);
                synced = synced.0 is_synced;
                meta = meta;
                known = known;
                named = named;
              },
            ),
        λ (arn, q). passed.1 (
          elim (Bool-cases (any is_terminal_true (elems obj.conditions))) [
            | inl e ↦ absurd (q.not_terminal (terminal.0 e))
            | inr e ↦ e
          ],
          synced.1 q.synced,
          ground (arith, q.known, q.named),
        ),
      )
