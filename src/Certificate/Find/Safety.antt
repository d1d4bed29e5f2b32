-- ===== src/Certificate/Find/Safety.antt =====
-- `sdkFind` does not panic where the answer of `DescribeCertificate` has a certificate.
use aws_controllers_k8s_acm.Base.{
  ◌≡◌, ◌≢◌, String, Option, none, List, arith, inl, inr, Option-cases,
}
use aws_controllers_k8s_acm.Go.{ok, panic, return, deref, ◌>>=◌, on_err-eq-ok}
use aws_controllers_k8s_acm.Go.Safe.{Safe, bind-Safe, bind_ok-Safe, on_err-Safe, deref-Safe}
use aws_controllers_k8s_acm.Api.{Certificate, arn_of}
use aws_controllers_k8s_acm.Sdk.{
  Errors, Service, Call, DescribeCertificateOutput, describe_certificate, list_tags_for_certificate,
}
use aws_controllers_k8s_acm.Sdk.Metrics.{api_call, api_call-Safe, api_call-answer}
use aws_controllers_k8s_acm.Tags.Sync.{list_tags}
use aws_controllers_k8s_acm.Certificate.{ResourceManager, set_status_defaults}
use aws_controllers_k8s_acm.Certificate.Payload.{new_describe_request_payload}
use aws_controllers_k8s_acm.Certificate.Find.Merge.{merge_domain_validations, merge_detail}
use aws_controllers_k8s_acm.Certificate.Find.{set_tags, find_error, describe, sdk_find}

-- The calls that a read makes return, and an answer of `DescribeCertificate` is filled.
pub record Reads (X : Errors) (S : Service X) : Type 0 where
  pub describe : (arn : Option String) (t : List (Call X.Err)) → S.describe arn t ≢ panic
  pub filled :
      (arn : Option String) (t : List (Call X.Err)) (resp : DescribeCertificateOutput)
      → S.describe arn t ≡ ok resp
      → resp.certificate ≢ none
  pub list_tags : (arn : String) (t : List (Call X.Err)) → S.list_tags arn t ≢ panic

module _ (X : Errors) (S : Service X) (rm : ResourceManager) (H : Reads X S) where
  describe-Safe : (ko : Certificate) → Safe (describe X S rm ko)
  unfolding describe
  describe-Safe ko =
      let arn = new_describe_request_payload ko in
      on_err-Safe (find_error X S rm)
        (api_call X "READ_ONE" "DescribeCertificate" (describe_certificate arn) (S.describe arn))
        (api_call-Safe X "READ_ONE" "DescribeCertificate" (describe_certificate arn)
          (S.describe arn) (H.describe arn))

  -- What `describe` returns is an answer.
  describe-filled :
      (ko : Certificate) (t s : List (Call X.Err)) (resp : DescribeCertificateOutput)
      → describe X S rm ko t ≡ (ok resp, s)
      → resp.certificate ≢ none
  unfolding describe
  describe-filled ko t s resp h =
      let arn = new_describe_request_payload ko in
      let call =
        api_call X "READ_ONE" "DescribeCertificate" (describe_certificate arn) (S.describe arn) in
      H.filled arn t resp (
        api_call-answer X "READ_ONE" "DescribeCertificate" (describe_certificate arn)
          (S.describe arn) t (on_err-eq-ok (find_error X S rm) call t h))

  list_tags-Safe : (arn : String) → Safe (list_tags X S arn)
  unfolding list_tags
  list_tags-Safe arn =
      bind-Safe _ (λ tags. _)
        (api_call-Safe X "GET" "ListTagsForCertificate" (list_tags_for_certificate arn)
          (S.list_tags arn) (H.list_tags arn))
        (λ tags t p. ground arith)

  found-Safe :
      (ko : Certificate)
      → arn_of ko ≢ none
      → Safe (
          describe X S rm ko >>= λ resp. deref resp.certificate >>= λ detail.
          deref (arn_of ko) >>= λ arn. list_tags X S arn >>= λ tags. return (
            set_status_defaults rm
              (merge_detail detail (set_tags tags (merge_domain_validations detail ko)))))
  found-Safe ko named =
      bind_ok-Safe (describe X S rm ko) (λ resp. _) (describe-Safe ko)
        (λ resp t s e.
          bind-Safe (deref resp.certificate) (λ detail. _)
            (deref-Safe resp.certificate (describe-filled ko t s resp e))
            (λ detail.
              bind-Safe (deref (arn_of ko)) (λ arn. _) (deref-Safe (arn_of ko) named)
                (λ arn.
                  bind-Safe (list_tags X S arn) (λ tags. _) (list_tags-Safe arn)
                    (λ tags t p. ground arith)))
            s)

  -- `sdkFind` does not panic.
  pub sdk_find-Safe : (ko : Certificate) → Safe (sdk_find X S rm ko)
  unfolding sdk_find
  sdk_find-Safe ko t p = elim (Option-cases (arn_of ko)) [
    | inl e ↦ ground arith
    | inr (arn, e) ↦ ground (arith, found-Safe ko (λ n. cc) t)
  ]
