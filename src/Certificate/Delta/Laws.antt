-- ===== src/Certificate/Delta/Laws.antt =====
-- Which differences a delta has.
use aws_controllers_k8s_acm.Base.{
  ◌≡◌, String, Bool, true, false, not, ◌&&◌, ◌||◌, Option, none, some, is_some, is_none, [], ◌∷◌,
  ◌++◌, if◌then◌else◌, arith, ◌==◌, contains,
}
use aws_controllers_k8s_acm.Api.{Certificate, CertificateOptions}
use aws_controllers_k8s_acm.Tags.Ack.{convert_to_ordered_ack_tags}
use aws_controllers_k8s_acm.Certificate.Delta.{
  Compare, Delta, add_if, both_differ, normalized, compare_key_algorithm, is_text,
  compare_certificate_issued_at, compare_text, compare_option_fields, compare_options, compare_tags,
  compare_certificates,
}

has-append : (p q : String) (d : Delta) → contains (d ++ (q ∷ [])) p ≡ (contains d p || q == p)
has-append p q [] = ground arith
has-append p q (x ∷ d) = ground (arith, has-append p q d)

has-add_if :
    (p q : String) (b : Bool) (d : Delta)
    → contains (add_if b q d) p ≡ (contains d p || (b && q == p))
has-add_if p q true d = has-append p q d
has-add_if p q false d = ground arith

module _ (c : Compare) where
  -- What the comparison of two option blocks that are there adds at a path.
  abbrev pub in_options : Option CertificateOptions → Option CertificateOptions → String → Bool
  in_options (some a) (some b) p =
      ((c.has_nil_difference a.certificate_transparency_logging_preference
            b.certificate_transparency_logging_preference
          || both_differ a.certificate_transparency_logging_preference
              b.certificate_transparency_logging_preference)
        && "Spec.Options.CertificateTransparencyLoggingPreference" == p)
      || ((c.has_nil_difference a.export b.export || both_differ a.export b.export)
          && "Spec.Options.Export" == p)
  in_options _ _ p = false

  has-compare_option_fields :
      (p : String) (a b : Option CertificateOptions) (d : Delta)
      → contains (compare_option_fields c a b d) p ≡ (contains d p || in_options a b p)
  unfolding compare_option_fields compare_text
  has-compare_option_fields p none none d = ground arith
  has-compare_option_fields p none (some b) d = ground arith
  has-compare_option_fields p (some a) none d = ground arith
  has-compare_option_fields p (some a) (some b) d =
      let first =
        c.has_nil_difference a.certificate_transparency_logging_preference
          b.certificate_transparency_logging_preference
        || both_differ a.certificate_transparency_logging_preference
            b.certificate_transparency_logging_preference in
      let path : String = "Spec.Options.CertificateTransparencyLoggingPreference" in
      rw
        (
          has-add_if p "Spec.Options.Export"
              (c.has_nil_difference a.export b.export || both_differ a.export b.export)
              (add_if first path d),
          has-add_if p path first d,
        )
        (ground arith)

  abbrev pub text_differs : Option String → Option String → Bool
  text_differs a b = c.has_nil_difference a b || both_differ a b

  -- All that a delta may have, path by path.
  abbrev pub differs : Certificate → Certificate → String → Bool
  differs a b p =
      (is_some a.spec.export_to
        && is_none a.status.issued_at
        && is_text b.status.status "ISSUED"
        && "Spec.Status.IssuedAt" == p)
      || (is_some a.spec.export_to
          && both_differ a.status.serial b.status.serial
          && "Spec.Status.Serial" == p)
      || (both_differ (normalized a.spec.key_algorithm) (normalized b.spec.key_algorithm)
          && "Spec.KeyAlgorithm" == p)
      || (text_differs a.spec.certificate_arn b.spec.certificate_arn && "Spec.CertificateARN" == p)
      || (text_differs a.spec.certificate_authority_arn b.spec.certificate_authority_arn
          && "Spec.CertificateAuthorityARN" == p)
      || (not (c.deep_equal a.spec.certificate_authority_ref b.spec.certificate_authority_ref)
          && "Spec.CertificateAuthorityRef" == p)
      || (text_differs a.spec.domain_name b.spec.domain_name && "Spec.DomainName" == p)
      || (if c.options_nil_difference a.spec.options b.spec.options
          then "Spec.Options" == p
          else in_options a.spec.options b.spec.options p)
      || (not (
            c.map_string_string_equal (convert_to_ordered_ack_tags a.spec.tags).0
              (convert_to_ordered_ack_tags b.spec.tags).0)
          && "Spec.Tags" == p)

  has-compare_options :
      (p : String) (a b : Option CertificateOptions) (d : Delta)
      → contains (compare_options c a b d) p ≡ (
          contains d p
          || (if c.options_nil_difference a b then "Spec.Options" == p else in_options a b p))
  unfolding compare_options
  has-compare_options p a b d =
      ground (arith, has-append p "Spec.Options" d, has-compare_option_fields p a b d)

  has-issued :
      (p : String) (a b : Certificate)
      → contains (compare_certificate_issued_at [] a b) p ≡ (
          (is_some a.spec.export_to
            && is_none a.status.issued_at
            && is_text b.status.status "ISSUED"
            && "Spec.Status.IssuedAt" == p)
          || (is_some a.spec.export_to
              && both_differ a.status.serial b.status.serial
              && "Spec.Status.Serial" == p))
  unfolding compare_certificate_issued_at
  has-issued p a b =
      let due = is_none a.status.issued_at && is_text b.status.status "ISSUED" in
      let first : Delta = add_if due "Spec.Status.IssuedAt" [] in
      ground (
        arith,
        has-add_if p "Spec.Status.Serial" (both_differ a.status.serial b.status.serial) first,
        has-add_if p "Spec.Status.IssuedAt" due [],
      )

  has-compare_text :
      (p path : String) (a b : Option String) (d : Delta)
      → contains (compare_text c path a b d) p ≡ (contains d p || (text_differs a b && path == p))
  unfolding compare_text
  has-compare_text p path a b d = has-add_if p path (text_differs a b) d

  -- A delta has exactly the paths at which the two resources differ: the hooks' paths, the key
  -- algorithms up to `-` and `_`, and the compared fields.
  pub compare_certificates_iff :
      (p : String) (a b : Certificate) → contains (compare_certificates c a b) p ≡ differs a b p
  unfolding compare_certificates compare_tags compare_key_algorithm
  compare_certificates_iff p a b =
      let issue = compare_certificate_issued_at [] a b in
      let key = both_differ (normalized a.spec.key_algorithm) (normalized b.spec.key_algorithm) in
      let hooks : Delta = add_if key "Spec.KeyAlgorithm" issue in
      let arn =
        compare_text c "Spec.CertificateARN" a.spec.certificate_arn b.spec.certificate_arn hooks in
      let arns =
        compare_text c "Spec.CertificateAuthorityARN" a.spec.certificate_authority_arn
          b.spec.certificate_authority_arn arn in
      let ref =
        not (c.deep_equal a.spec.certificate_authority_ref b.spec.certificate_authority_ref) in
      let refs : Delta = add_if ref "Spec.CertificateAuthorityRef" arns in
      let names = compare_text c "Spec.DomainName" a.spec.domain_name b.spec.domain_name refs in
      let options = compare_options c a.spec.options b.spec.options names in
      let tags = not (
        c.map_string_string_equal (convert_to_ordered_ack_tags a.spec.tags).0
          (convert_to_ordered_ack_tags b.spec.tags).0) in
      ground (
        arith,
        has-issued p a b,
        has-add_if p "Spec.KeyAlgorithm" key issue,
        has-compare_text p "Spec.CertificateARN" a.spec.certificate_arn b.spec.certificate_arn
            hooks,
        has-compare_text p "Spec.CertificateAuthorityARN" a.spec.certificate_authority_arn
            b.spec.certificate_authority_arn arn,
        has-add_if p "Spec.CertificateAuthorityRef" ref arns,
        has-compare_text p "Spec.DomainName" a.spec.domain_name b.spec.domain_name refs,
        has-compare_options p a.spec.options b.spec.options names,
        has-add_if p "Spec.Tags" tags options,
      )
