-- ===== src/Certificate/Find/Answers.antt =====
-- What a read that succeeds was answered, and what it made of it.
use aws_controllers_k8s_acm.Base.{
  ◌≡◌, ap, ◌∙◌, sym, String, some, List, arith, inl, inr, Option-cases,
}
use aws_controllers_k8s_acm.Go.{
  ok, return, deref, ◌>>=◌, continue-eq-ok, return-eq-ok, on_err-eq-ok,
}
use aws_controllers_k8s_acm.Go.Safe.{deref-eq-ok}
use aws_controllers_k8s_acm.Api.{Certificate, Tag, arn_of}
use aws_controllers_k8s_acm.Sdk.{
  Errors, Service, Call, GoM, SdkTag, CertificateDetail, DescribeCertificateOutput,
  describe_certificate, list_tags_for_certificate,
}
use aws_controllers_k8s_acm.Sdk.Metrics.{api_call, api_call-answer}
use aws_controllers_k8s_acm.Tags.Sync.{list_tags, resource_tags_from_sdk_tags}
use aws_controllers_k8s_acm.Certificate.{ResourceManager, set_status_defaults}
use aws_controllers_k8s_acm.Certificate.Payload.{new_describe_request_payload}
use aws_controllers_k8s_acm.Certificate.Find.Merge.{merge_domain_validations, merge_detail}
use aws_controllers_k8s_acm.Certificate.Find.{set_tags, find_error, describe, sdk_find}

-- The resource after the merge.
abbrev pub merged : ResourceManager → CertificateDetail → List SdkTag → Certificate → Certificate
merged rm d listed ko =
    set_status_defaults rm (
      merge_detail d
        (set_tags (resource_tags_from_sdk_tags listed) (merge_domain_validations d ko)))

-- The answers that a read that succeeds had, and what it made of them.
pub record Read (X : Errors) (S : Service X) (rm : ResourceManager) (ko observed : Certificate)
    : Type 0 where
  pub arn : String
  pub before : List (Call X.Err)
  pub between : List (Call X.Err)
  pub resp : DescribeCertificateOutput
  pub detail : CertificateDetail
  pub listed : List SdkTag
  pub named : arn_of ko ≡ some arn
  pub described : S.describe (some arn) before ≡ ok resp
  pub filled : resp.certificate ≡ some detail
  pub tagged : S.list_tags arn between ≡ ok listed
  pub made : observed ≡ merged rm detail listed ko

module _ (X : Errors) (S : Service X) (rm : ResourceManager) where
  describe-answer :
      (ko : Certificate) (t s : List (Call X.Err)) (resp : DescribeCertificateOutput)
      → describe X S rm ko t ≡ (ok resp, s)
      → S.describe (arn_of ko) t ≡ ok resp
  unfolding describe new_describe_request_payload
  describe-answer ko t s resp h =
      let call =
        api_call X "READ_ONE" "DescribeCertificate" (describe_certificate (arn_of ko))
          (S.describe (arn_of ko)) in
      api_call-answer X "READ_ONE" "DescribeCertificate" (describe_certificate (arn_of ko))
        (S.describe (arn_of ko)) t (on_err-eq-ok (find_error X S rm) call t h)

  list_tags-answer :
      (arn : String) (tags : List Tag) (t s : List (Call X.Err))
      → list_tags X S arn t ≡ (ok tags, s)
      → (listed : List SdkTag) × (S.list_tags arn t ≡ ok listed)
        × (tags ≡ resource_tags_from_sdk_tags listed)
  unfolding list_tags
  list_tags-answer arn tags t s h =
      let run =
        api_call X "GET" "ListTagsForCertificate" (list_tags_for_certificate arn) (S.list_tags arn)
          t in
      let (listed, s', called, rest) =
        continue-eq-ok (λ tags. return (resource_tags_from_sdk_tags tags)) run h in
      (
        listed,
        api_call-answer X "GET" "ListTagsForCertificate" (list_tags_for_certificate arn)
            (S.list_tags arn) t called,
        sym (return-eq-ok rest).0,
      )

  -- From the answer on.
  merge_with : Certificate → String → CertificateDetail → GoM X Certificate
  merge_with ko arn detail = do
    tags ← list_tags X S arn
    return (
        set_status_defaults rm
          (merge_detail detail (set_tags tags (merge_domain_validations detail ko))))

  merge_with-made :
      (ko observed : Certificate) (arn : String) (d : CertificateDetail) (s t' : List (Call X.Err))
      → merge_with ko arn d s ≡ (ok observed, t')
      → (listed : List SdkTag) × (S.list_tags arn s ≡ ok listed)
        × (observed ≡ merged rm d listed ko)
  unfolding merge_with
  merge_with-made ko observed arn d s t' h =
      let make = λ (tags : List Tag).
        set_status_defaults rm (merge_detail d (set_tags tags (merge_domain_validations d ko))) in
      let (tags, s', ran, rest) =
        continue-eq-ok (λ tags. return (make tags)) (list_tags X S arn s) h in
      let (listed, answered, same) = list_tags-answer arn tags s s' ran in
      (listed, answered, sym (return-eq-ok rest).0 ∙ ap make same)

  -- What a read that succeeds was answered.
  pub sdk_find-Read :
      (ko observed : Certificate) (t t' : List (Call X.Err))
      → sdk_find X S rm ko t ≡ (ok observed, t')
      → Read X S rm ko observed
  unfolding sdk_find merge_with
  sdk_find-Read ko observed t t' h = elim (Option-cases (arn_of ko)) [
    | inl e ↦ absurd (ground arith)
    | inr (arn, e) ↦
        let merge = λ (arn : String) (d : CertificateDetail). merge_with ko arn d in
        let (resp, s, ran, rest) =
          continue-eq-ok
            (λ resp. deref resp.certificate >>= λ d. deref (some arn) >>= λ arn. merge arn d)
            (describe X S rm ko t) (ground arith) in
        let (d, s', filled, rest') =
          continue-eq-ok (λ d. deref (some arn) >>= λ arn. merge arn d) (deref resp.certificate s)
            rest in
        let (listed, tagged, made) = merge_with-made ko observed arn d s' t' rest' in
        record {
          arn = arn;
          before = t;
          between = s';
          resp = resp;
          detail = d;
          listed = listed;
          named = e;
          described = ap (λ a. S.describe a t) (sym e) ∙ describe-answer ko t s resp ran;
          filled = deref-eq-ok resp.certificate s filled;
          tagged = tagged;
          made = made;
        }
  ]
