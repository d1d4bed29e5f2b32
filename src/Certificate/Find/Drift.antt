-- ===== src/Certificate/Find/Drift.antt =====
-- A read and the comparison with what was read: where the delta comes from.
use mathlib.Core.Option as O
use aws_controllers_k8s_acm.Base.{
  ◌≡◌, refl, ap, ◌∙◌, String, Bool, true, false, not, ◌&&◌, ◌||◌, Option, none, some, List, arith,
  is_some, is_none, contains, ◌==◌, if◌then◌else◌,
}
use aws_controllers_k8s_acm.Go.{ok}
use aws_controllers_k8s_acm.Api.{Certificate, AwsResourceReferenceWrapper}
use aws_controllers_k8s_acm.Sdk.{Errors, Service, Call, SdkTag, CertificateDetail}
use aws_controllers_k8s_acm.Tags.Ack.{convert_to_ordered_ack_tags}
use aws_controllers_k8s_acm.Tags.Sync.{resource_tags_from_sdk_tags}
use aws_controllers_k8s_acm.Certificate.{ResourceManager, set_status_defaults, non_empty}
use aws_controllers_k8s_acm.Certificate.Delta.{
  Compare, both_differ, normalized, is_text, compare_certificates,
}
use aws_controllers_k8s_acm.Certificate.Delta.Laws.{
  in_options, text_differs, differs, compare_certificates_iff,
}
use aws_controllers_k8s_acm.Certificate.Find.Merge.{
  options_of, merge_domain_validations, merge_detail,
}
use aws_controllers_k8s_acm.Certificate.Find.{sdk_find}
use aws_controllers_k8s_acm.Certificate.Find.Answers.{merged, Read, sdk_find-Read}

-- Nothing differs from itself.
pub record IsReflexive (c : Compare) : Type 0 where
  pub has_nil_difference-self : (a : Option String) → c.has_nil_difference a a ≡ false
  pub deep_equal-self : (a : Option AwsResourceReferenceWrapper) → c.deep_equal a a ≡ true

both_differ_self : (a : Option String) → both_differ a a ≡ false
both_differ_self none = refl
both_differ_self (some s) = ground arith

drop_two :
    (issued serial key arn authority ref domain options tags : Bool)
    → arn ≡ false
    → ref ≡ false
    → (issued || serial || key || arn || authority || ref || domain || options || tags)
      ≡ (issued || serial || key || authority || domain || options || tags)
drop_two issued serial key arn authority ref domain options tags a r = ground arith

module _ (c : Compare) where
  abbrev issue_due : Certificate → CertificateDetail → String → Bool
  issue_due ko d p =
      is_some ko.spec.export_to
      && is_none ko.status.issued_at
      && is_text (non_empty d.status) "ISSUED"
      && "Spec.Status.IssuedAt" == p

  abbrev serial_drifts : Certificate → CertificateDetail → String → Bool
  serial_drifts ko d p =
      is_some ko.spec.export_to
      && both_differ ko.status.serial d.serial
      && "Spec.Status.Serial" == p

  abbrev key_drifts : Certificate → CertificateDetail → String → Bool
  key_drifts ko d p =
      both_differ (normalized ko.spec.key_algorithm) (normalized (non_empty d.key_algorithm))
      && "Spec.KeyAlgorithm" == p

  abbrev authority_drifts : Certificate → CertificateDetail → String → Bool
  authority_drifts ko d p =
      text_differs c ko.spec.certificate_authority_arn d.certificate_authority_arn
      && "Spec.CertificateAuthorityARN" == p

  abbrev domain_drifts : Certificate → CertificateDetail → String → Bool
  domain_drifts ko d p = text_differs c ko.spec.domain_name d.domain_name && "Spec.DomainName" == p

  abbrev options_drift : Certificate → CertificateDetail → String → Bool
  options_drift ko d p =
      if c.options_nil_difference ko.spec.options (O.map options_of d.options)
      then "Spec.Options" == p
      else in_options c ko.spec.options (O.map options_of d.options) p

  abbrev tags_drift : Certificate → List SdkTag → String → Bool
  tags_drift ko listed p =
      not (
        c.map_string_string_equal (convert_to_ordered_ack_tags ko.spec.tags).0
          (convert_to_ordered_ack_tags (some (resource_tags_from_sdk_tags listed))).0)
      && "Spec.Tags" == p

  -- Where what AWS answers differs from a certificate's specification.
  abbrev pub drifts : Certificate → CertificateDetail → List SdkTag → String → Bool
  drifts ko d listed p =
      issue_due ko d p
      || serial_drifts ko d p
      || key_drifts ko d p
      || authority_drifts ko d p
      || domain_drifts ko d p
      || options_drift ko d p
      || tags_drift ko listed p

  differs-merged :
      (rm : ResourceManager) (ko : Certificate) (d : CertificateDetail) (listed : List SdkTag)
      (p : String)
      → IsReflexive c
      → differs c ko (merged rm d listed ko) p ≡ drifts ko d listed p
  unfolding set_status_defaults merge_detail merge_domain_validations
  differs-merged rm ko d listed p law =
      let arn = ko.spec.certificate_arn in
      let ref = ko.spec.certificate_authority_ref in
      let same_arn : (text_differs c arn arn && "Spec.CertificateARN" == p) ≡ false =
        ground (arith, law.has_nil_difference-self arn, both_differ_self arn) in
      let same_ref : (not (c.deep_equal ref ref) && "Spec.CertificateAuthorityRef" == p) ≡ false =
        ground (arith, law.deep_equal-self ref) in
      drop_two (issue_due ko d p) (serial_drifts ko d p) (key_drifts ko d p) _
        (authority_drifts ko d p) _ (domain_drifts ko d p) (options_drift ko d p)
        (tags_drift ko listed p) same_arn same_ref

module _ (X : Errors) (S : Service X) (c : Compare) (rm : ResourceManager) where
  pub contains-compare_certificates :
      (ko observed : Certificate) (p : String)
      → IsReflexive c
      → (read : Read X S rm ko observed)
      → contains (compare_certificates c ko observed) p ≡ drifts c ko read.detail read.listed p
  contains-compare_certificates ko observed p law read =
      compare_certificates_iff c p ko observed
      ∙ ap (λ o. differs c ko o p) read.made
      ∙ differs-merged c rm ko read.detail read.listed p law

  -- If nothing differs from itself, then a certificate and what a successful read made of it differ
  -- exactly where the answers of `DescribeCertificate` and `ListTagsForCertificate` differ from its
  -- specification, or where an export is due; the ARN to import over and the reference to an
  -- authority, which AWS does not know, never differ.
  pub compare_certificates-sdk_find :
      (ko observed : Certificate) (t t' : List (Call X.Err))
      → IsReflexive c
      → sdk_find X S rm ko t ≡ (ok observed, t')
      → (read : Read X S rm ko observed) × ((p : String)
          → contains (compare_certificates c ko observed) p ≡ drifts c ko read.detail read.listed p)
  compare_certificates-sdk_find ko observed t t' law h =
      let read = sdk_find-Read X S rm ko observed t t' h in
      (read, λ p. contains-compare_certificates ko observed p law read)
