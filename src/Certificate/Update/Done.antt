-- ===== src/Certificate/Update/Done.antt =====
-- What an update that succeeds has done, and what it returns.
use mathlib.Core.Path.{subst}
use aws_controllers_k8s_acm.Base.{
  ◌≡◌, ◌≢◌, refl, sym, ◌∙◌, ◌⊎◌, inl, inr, true, false, none, some, List, [], ◌∷◌, ◌++◌, String,
  Bool-cases, Option-cases, arith,
}
use aws_controllers_k8s_acm.GoMap.{RangeOrder}
use aws_controllers_k8s_acm.Go.{ok, return, continue-eq-ok, return-eq-ok}
use aws_controllers_k8s_acm.Api.{Certificate, arn_of}
use aws_controllers_k8s_acm.Sdk.{Errors, Service, Call, update_certificate_options, record_api_call}
use aws_controllers_k8s_acm.Sdk.Metrics.{api_call, api_call-ok, api_call-answer}
use aws_controllers_k8s_acm.Tags.Ack.{elems}
use aws_controllers_k8s_acm.Tags.Sync.{sync_tags}
use aws_controllers_k8s_acm.Certificate.{ResourceManager, set_status_defaults}
use aws_controllers_k8s_acm.Certificate.Delta.{Compare, Delta, is_text}
use aws_controllers_k8s_acm.Certificate.Export.{Crypto, do_export_certificate}
use aws_controllers_k8s_acm.Certificate.Payload.{new_update_request_payload}
use aws_controllers_k8s_acm.Certificate.Update.{
  keep_issue, push_tags, update_tags, update_options, update_rest, export_issue, sdk_update,
}

-- The desired resource, with the issue that was observed.
pub record Issued (desired latest made : Certificate) : Type 0 where
  pub spec : made.spec ≡ desired.spec
  pub metadata : made.metadata ≡ desired.metadata
  pub arn : arn_of made ≡ arn_of desired
  pub issued_at : made.status.issued_at ≡ latest.status.issued_at
  pub status : made.status.status ≡ latest.status.status
  pub serial : made.status.serial ≡ latest.status.serial

Issued-keep_issue :
    (rm : ResourceManager) (desired latest : Certificate)
    → Issued desired latest (keep_issue rm desired latest)
unfolding keep_issue set_status_defaults
Issued-keep_issue rm desired latest = record {
  spec = refl;
  metadata = refl;
  arn = ground arith;
  issued_at = refl;
  status = refl;
  serial = refl;
}

module _ (X : Errors) (S : Service X) (C : Crypto) (r : RangeOrder) (c : Compare)
    (rm : ResourceManager) (desired latest : Certificate) (delta : Delta) where
  -- The tags were synchronised where they differ.
  pub data Tagged (t s : List (Call X.Err)) : Type 0 where
    synced :
        (arn : String)
        → c.different_at delta "Spec.Tags" ≡ true
        → arn_of desired ≡ some arn
        → sync_tags X S r arn (elems desired.spec.tags) (elems latest.spec.tags) t ≡ (ok tt, s)
        → Tagged t s
    same_tags : c.different_at delta "Spec.Tags" ≡ false → s ≡ t → Tagged t s

  -- After the tags: nothing, if nothing else differs or the certificate is imported; or one call
  -- that updates the options.
  pub data Rested (s : List (Call X.Err)) (made : Certificate) (t' : List (Call X.Err))
      : Type 0 where
    only_tags :
        c.different_except delta "Spec.Tags" ≡ false → made ≡ desired → t' ≡ s → Rested s made t'
    imported :
        latest.status.type_ ≡ some "IMPORTED"
        → c.different_at delta "Spec.Options" ≡ false
        → made ≡ desired
        → t' ≡ s
        → Rested s made t'
    options_sent :
        c.different_except delta "Spec.Tags" ≡ true
        → latest.status.type_ ≢ some "IMPORTED"
        → S.update_options (new_update_request_payload desired) s ≡ ok tt
        → t'
          ≡ (s ++ (update_certificate_options (new_update_request_payload desired) ∷ []))
            ++ (record_api_call "UPDATE" "UpdateCertificateOptions" none ∷ [])
        → Issued desired latest made
        → Rested s made t'

  -- An update that succeeds has exported the latest certificate if it was issued anew, and has
  -- otherwise put the tags and then the options in order.
  pub data Updated (t : List (Call X.Err)) (made : Certificate) (t' : List (Call X.Err))
      : Type 0 where
    exported :
        (c.different_at delta "Spec.Status.IssuedAt" ≡ true)
          ⊎ (c.different_at delta "Spec.Status.Serial" ≡ true)
        → do_export_certificate X S C latest t ≡ (ok tt, t')
        → Issued desired latest made
        → Updated t made t'
    updated :
        (s : List (Call X.Err))
        → c.different_at delta "Spec.Status.IssuedAt" ≡ false
        → c.different_at delta "Spec.Status.Serial" ≡ false
        → Tagged t s
        → Rested s made t'
        → Updated t made t'

  update_tags-Tagged :
      (t s : List (Call X.Err))
      → update_tags X S C r c rm desired latest delta t ≡ (ok tt, s)
      → Tagged t s
  unfolding update_tags push_tags
  update_tags-Tagged t s h = elim (Bool-cases (c.different_at delta "Spec.Tags")) [
    | inl e ↦ elim (Option-cases (arn_of desired)) [
      | inl f ↦ absurd (ground arith)
      | inr (arn, f) ↦ synced arn e f (ground arith)
    ]
    | inr e ↦ same_tags e (ground arith)
  ]

  imported_text :
      is_text latest.status.type_ "IMPORTED" ≡ true → latest.status.type_ ≡ some "IMPORTED"
  imported_text h = elim (Option-cases latest.status.type_) [
    | inl e ↦ absurd (ground arith)
    | inr (u, e) ↦ ground arith
  ]

  other_text :
      is_text latest.status.type_ "IMPORTED" ≡ false → latest.status.type_ ≢ some "IMPORTED"
  other_text h e = ground arith

  update_options-Rested :
      (s t' : List (Call X.Err)) (made : Certificate)
      → c.different_except delta "Spec.Tags" ≡ true
      → latest.status.type_ ≢ some "IMPORTED"
      → update_options X S C r c rm desired latest s ≡ (ok made, t')
      → Rested s made t'
  unfolding update_options
  update_options-Rested s t' made d n h =
      let input = new_update_request_payload desired in
      let run =
        api_call X "UPDATE" "UpdateCertificateOptions" (update_certificate_options input)
          (S.update_options input) s in
      let (_, u, called, finished) =
        continue-eq-ok (λ _. return (keep_issue rm desired latest)) run h in
      let (is_made, ended) = return-eq-ok finished in
      let trace =
        api_call-ok X "UPDATE" "UpdateCertificateOptions" (update_certificate_options input)
          (S.update_options input) s called in
      let answer =
        api_call-answer X "UPDATE" "UpdateCertificateOptions" (update_certificate_options input)
          (S.update_options input) s called in
      options_sent d n answer (sym ended ∙ trace)
        (subst (Issued desired latest) is_made (Issued-keep_issue rm desired latest))

  update_rest-Rested :
      (s t' : List (Call X.Err)) (made : Certificate)
      → update_rest X S C r c rm desired latest delta s ≡ (ok made, t')
      → Rested s made t'
  unfolding update_rest
  update_rest-Rested s t' made h = elim (Bool-cases (c.different_except delta "Spec.Tags")) [
    | inr e ↦ only_tags e (ground arith) (ground arith)
    | inl e ↦ elim (Bool-cases (is_text latest.status.type_ "IMPORTED")) [
      | inr f ↦ update_options-Rested s t' made e (other_text f) (ground arith)
      | inl f ↦ elim (Bool-cases (c.different_at delta "Spec.Options")) [
        | inl g ↦ absurd (ground arith)
        | inr g ↦ imported (imported_text f) g (ground arith) (ground arith)
      ]
    ]
  ]

  export_issue-Updated :
      (t t' : List (Call X.Err)) (made : Certificate)
      → (c.different_at delta "Spec.Status.IssuedAt" ≡ true)
        ⊎ (c.different_at delta "Spec.Status.Serial" ≡ true)
      → export_issue X S C r c rm desired latest t ≡ (ok made, t')
      → Updated t made t'
  unfolding export_issue
  export_issue-Updated t t' made due h =
      let (_, s, ran, rest) =
        continue-eq-ok (λ _. return (keep_issue rm desired latest))
          (do_export_certificate X S C latest t) h in
      let (is_made, ended) = return-eq-ok rest in
      exported due (subst (λ u. do_export_certificate X S C latest t ≡ (ok tt, u)) ended ran)
        (subst (Issued desired latest) is_made (Issued-keep_issue rm desired latest))

  pub sdk_update-Updated :
      (made : Certificate) (t t' : List (Call X.Err))
      → sdk_update X S C r c rm desired latest delta t ≡ (ok made, t')
      → Updated t made t'
  unfolding sdk_update
  sdk_update-Updated made t t' h = elim (Bool-cases (c.different_at delta "Spec.Status.IssuedAt")) [
    | inl e ↦ export_issue-Updated t t' made (inl e) (ground arith)
    | inr e ↦ elim (Bool-cases (c.different_at delta "Spec.Status.Serial")) [
      | inl f ↦ export_issue-Updated t t' made (inr f) (ground arith)
      | inr f ↦
          let (_, s, tagged, rest) =
            continue-eq-ok (λ _. update_rest X S C r c rm desired latest delta)
              (update_tags X S C r c rm desired latest delta t) (rw (e, f) at h) in
          updated s e f (update_tags-Tagged t s tagged) (update_rest-Rested s t' made rest)
    ]
  ]
