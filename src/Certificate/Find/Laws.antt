-- ===== src/Certificate/Find/Laws.antt =====
-- What `sdkFind` answers without a certificate, and what it leaves of the resource otherwise.
use mathlib.Core.Path.{subst}
use aws_controllers_k8s_acm.Base.{
  ◌≡◌, ◌∙◌, ap, refl, String, Bool, false, Option, none, some, List, [], ◌∷◌, ◌++◌, if◌then◌else◌,
  arith, inl, inr, Option-cases, ◌==◌,
}
use aws_controllers_k8s_acm.Go.{ok, err, return, deref, ◌>>=◌, continue-eq-ok, return-eq-ok}
use aws_controllers_k8s_acm.Api.{Certificate, Tag, arn_of}
use aws_controllers_k8s_acm.Sdk.{
  Errors, Service, Call, GoM, CertificateDetail, describe_certificate, record_api_call,
}
use aws_controllers_k8s_acm.Tags.Sync.{list_tags}
use aws_controllers_k8s_acm.Certificate.{ResourceManager, set_status_defaults}
use aws_controllers_k8s_acm.Certificate.Find.Merge.{
  merge_domain_validations, merge_detail, merge_identity,
}
use aws_controllers_k8s_acm.Certificate.Find.{set_tags, describe, sdk_find}

module _ (X : Errors) where
  abbrev pub is_code : X.Err → String → Bool
  is_code e code = elim (X.api_code e) [ none ↦ false | some c ↦ c == code ]

-- The fields that are not read from AWS.
pub Untouched : Certificate → Certificate → Type 0
Untouched ko observed =
    (observed.metadata ≡ ko.metadata)
    × (observed.spec.certificate ≡ ko.spec.certificate)
    × (observed.spec.private_key ≡ ko.spec.private_key)
    × (observed.spec.certificate_chain ≡ ko.spec.certificate_chain)
    × (observed.spec.certificate_arn ≡ ko.spec.certificate_arn)
    × (observed.spec.export_to ≡ ko.spec.export_to)
    × (observed.spec.certificate_authority_ref ≡ ko.spec.certificate_authority_ref)

-- It depends on the specification and the metadata alone.
pub Untouched-same :
    (ko a b : Certificate)
    → b.spec ≡ a.spec
    → b.metadata ≡ a.metadata
    → Untouched ko a
    → Untouched ko b
unfolding Untouched
Untouched-same ko a b spec meta (m, c, k, ch, arn, to, ref) = (
  meta ∙ m,
  ap (λ s. s.certificate) spec ∙ c,
  ap (λ s. s.private_key) spec ∙ k,
  ap (λ s. s.certificate_chain) spec ∙ ch,
  ap (λ s. s.certificate_arn) spec ∙ arn,
  ap (λ s. s.export_to) spec ∙ to,
  ap (λ s. s.certificate_authority_ref) spec ∙ ref,
)

merged-Untouched :
    (rm : ResourceManager) (d : CertificateDetail) (tags : List Tag) (ko : Certificate)
    → Untouched ko
        (set_status_defaults rm (merge_detail d (set_tags tags (merge_domain_validations d ko))))
unfolding Untouched set_status_defaults merge_detail merge_domain_validations merge_identity
merged-Untouched rm d tags ko = (refl, refl, refl, refl, refl, refl, refl)

module _ (X : Errors) (S : Service X) (rm : ResourceManager) where
  -- A certificate that AWS does not know is answered by `NotFound`, and any other error of the
  -- call passes through; in both cases the call and its metric, with the error as AWS returned it,
  -- are all that was done.
  pub sdk_find-err :
      (ko : Certificate) (arn : String) (e : X.Err) (t : List (Call X.Err))
      → arn_of ko ≡ some arn
      → S.describe (some arn) t ≡ err e
      → sdk_find X S rm ko t ≡ (
        err (if is_code X e "ResourceNotFoundException" then X.not_found else e),
        (t ++ (describe_certificate (some arn) ∷ []))
            ++ (record_api_call "READ_ONE" "DescribeCertificate" (some e) ∷ []),
      )
  unfolding sdk_find
  sdk_find-err ko arn e t a d = ground arith

  -- From the answer on.
  merge_answer : Certificate → String → CertificateDetail → GoM X Certificate
  merge_answer ko arn detail = do
    tags ← list_tags X S arn
    return (
        set_status_defaults rm
          (merge_detail detail (set_tags tags (merge_domain_validations detail ko))))

  merge_answer-Untouched :
      (ko observed : Certificate) (arn : String) (d : CertificateDetail) (t t' : List (Call X.Err))
      → merge_answer ko arn d t ≡ (ok observed, t')
      → Untouched ko observed
  unfolding merge_answer
  merge_answer-Untouched ko observed arn d t t' h =
      let (tags, s, listed, rest) =
        continue-eq-ok
          (λ tags. return (
            set_status_defaults rm
              (merge_detail d (set_tags tags (merge_domain_validations d ko)))))
          (list_tags X S arn t) h in
      subst (Untouched ko) (return-eq-ok rest).0 (merged-Untouched rm d tags ko)

  answered :
      (ko observed : Certificate) (arn : String) (o : Option CertificateDetail)
      (t t' : List (Call X.Err))
      → (deref o >>= λ d. deref (some arn) >>= λ arn. merge_answer ko arn d) t ≡ (ok observed, t')
      → Untouched ko observed
  answered ko observed arn none t t' h = absurd (ground arith)
  answered ko observed arn (some d) t t' h = merge_answer-Untouched ko observed arn d t t' h

  -- Reading merges what AWS says into the resource, and leaves alone what AWS does not know: the
  -- secrets to import from and to export to, the reference to the authority, the ARN to import
  -- over, and the metadata.
  pub sdk_find-ok :
      (ko observed : Certificate) (t t' : List (Call X.Err))
      → sdk_find X S rm ko t ≡ (ok observed, t')
      → (observed.metadata ≡ ko.metadata)
        × (observed.spec.certificate ≡ ko.spec.certificate)
        × (observed.spec.private_key ≡ ko.spec.private_key)
        × (observed.spec.certificate_chain ≡ ko.spec.certificate_chain)
        × (observed.spec.certificate_arn ≡ ko.spec.certificate_arn)
        × (observed.spec.export_to ≡ ko.spec.export_to)
        × (observed.spec.certificate_authority_ref ≡ ko.spec.certificate_authority_ref)
  unfolding sdk_find merge_answer Untouched
  sdk_find-ok ko observed t t' h = elim (Option-cases (arn_of ko)) [
    | inl e ↦ absurd (ground arith)
    | inr (arn, e) ↦
        let (resp, s, described, rest) =
          continue-eq-ok
            (λ resp.
              deref resp.certificate >>= λ d. deref (some arn) >>= λ arn. merge_answer ko arn d)
            (describe X S rm ko t) (ground arith) in
        answered ko observed arn resp.certificate s t' rest
  ]

  pub sdk_find-Untouched :
      (ko observed : Certificate) (t t' : List (Call X.Err))
      → sdk_find X S rm ko t ≡ (ok observed, t')
      → Untouched ko observed
  unfolding Untouched
  sdk_find-Untouched = sdk_find-ok
