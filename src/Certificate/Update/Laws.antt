-- ===== src/Certificate/Update/Laws.antt =====
-- What `sdkUpdate` calls, and what it returns, by what differs.
use mathlib.Core.Path.{subst}
use aws_controllers_k8s_acm.Base.{◌≡◌, false, List, arith, Bool-cases, inl, inr}
use aws_controllers_k8s_acm.GoMap.{RangeOrder}
use aws_controllers_k8s_acm.Go.{Outcome, ok, err, return, continue, continue-eq-ok, return-eq-ok}
use aws_controllers_k8s_acm.Api.{Certificate, arn_of}
use aws_controllers_k8s_acm.Sdk.{Errors, Service, Call, update_certificate_options}
use aws_controllers_k8s_acm.Sdk.Metrics.{api_call}
use aws_controllers_k8s_acm.Certificate.{ResourceManager, set_status_defaults}
use aws_controllers_k8s_acm.Certificate.Delta.{Compare, Delta}
use aws_controllers_k8s_acm.Certificate.Export.{Crypto, do_export_certificate}
use aws_controllers_k8s_acm.Certificate.Payload.{new_update_request_payload}
use aws_controllers_k8s_acm.Certificate.Update.{
  keep_issue, update_tags, update_options, update_rest, export_issue, sdk_update,
}

module _ (X : Errors) (S : Service X) (C : Crypto) (r : RangeOrder) (c : Compare)
    (rm : ResourceManager) where
  -- An error on the tags ends the update: the options are not touched.
  pub sdk_update-tags_fail :
      (desired latest : Certificate) (delta : Delta) (e : X.Err) (t s : List (Call X.Err))
      → c.different_at delta "Spec.Status.IssuedAt" ≡ false
      → c.different_at delta "Spec.Status.Serial" ≡ false
      → update_tags X S C r c rm desired latest delta t ≡ (err e, s)
      → sdk_update X S C r c rm desired latest delta t ≡ (err e, s)
  unfolding sdk_update
  sdk_update-tags_fail desired latest delta e t s a b h = ground arith

  keep_issue_lem :
      (desired latest : Certificate)
      → let ko = keep_issue rm desired latest in
        (ko.spec ≡ desired.spec) × (ko.metadata ≡ desired.metadata) × (arn_of ko ≡ arn_of desired)
  unfolding keep_issue set_status_defaults
  keep_issue_lem desired latest = ground arith

  -- The specification, the metadata and the ARN are the desired ones.
  Keeps : Certificate → Certificate → Type 0
  Keeps desired ko =
      (ko.spec ≡ desired.spec) × (ko.metadata ≡ desired.metadata) × (arn_of ko ≡ arn_of desired)

  kept :
      {A : Type 0} (desired latest ko : Certificate) (p : Outcome X.Err A × List (Call X.Err))
      (s : List (Call X.Err))
      → continue (λ _. return (keep_issue rm desired latest)) p ≡ (ok ko, s)
      → Keeps desired ko
  unfolding Keeps
  kept desired latest ko p s h =
      let (a, t, called, finished) =
        continue-eq-ok (λ _. return (keep_issue rm desired latest)) p h in
      let (made, ended) = return-eq-ok finished in
      subst (Keeps desired) made (keep_issue_lem desired latest)

  export_issue-Keeps :
      (desired latest ko : Certificate) (t s : List (Call X.Err))
      → export_issue X S C r c rm desired latest t ≡ (ok ko, s)
      → Keeps desired ko
  unfolding export_issue
  export_issue-Keeps desired latest ko t s =
      kept desired latest ko (do_export_certificate X S C latest t) s

  update_options-Keeps :
      (desired latest ko : Certificate) (t s : List (Call X.Err))
      → update_options X S C r c rm desired latest t ≡ (ok ko, s)
      → Keeps desired ko
  unfolding update_options
  update_options-Keeps desired latest ko t s =
      let input = new_update_request_payload desired in
      kept desired latest ko
        (api_call X "UPDATE" "UpdateCertificateOptions" (update_certificate_options input)
          (S.update_options input) t)
        s

  update_rest-Keeps :
      (desired latest ko : Certificate) (delta : Delta) (t s : List (Call X.Err))
      → update_rest X S C r c rm desired latest delta t ≡ (ok ko, s)
      → Keeps desired ko
  unfolding update_rest Keeps
  update_rest-Keeps desired latest ko delta t s h =
      ground (arith, update_options-Keeps desired latest ko t s)

  -- Whatever differs, the resource that a successful `sdkUpdate` returns has the desired
  -- specification, metadata and ARN.
  pub sdk_update-keeps :
      (desired latest ko : Certificate) (delta : Delta) (t s : List (Call X.Err))
      → sdk_update X S C r c rm desired latest delta t ≡ (ok ko, s)
      → (ko.spec ≡ desired.spec) × (ko.metadata ≡ desired.metadata) × (arn_of ko ≡ arn_of desired)
  unfolding sdk_update Keeps
  sdk_update-keeps desired latest ko delta t s h =
      elim (Bool-cases (c.different_at delta "Spec.Status.IssuedAt")) [
        | inl e ↦ export_issue-Keeps desired latest ko t s (ground arith)
        | inr e ↦ elim (Bool-cases (c.different_at delta "Spec.Status.Serial")) [
          | inl f ↦ export_issue-Keeps desired latest ko t s (ground arith)
          | inr f ↦
              let (u, t', tagged, rest) =
                continue-eq-ok (λ _. update_rest X S C r c rm desired latest delta)
                  (update_tags X S C r c rm desired latest delta t) (rw (e, f) at h) in
              update_rest-Keeps desired latest ko delta t' s rest
        ]
      ]
