-- ===== src/Certificate/Delta/Exact.antt =====
-- A delta has a path exactly if the two resources differ there, said without the code's tests.
use aws_controllers_k8s_acm.Base.{
  ◌≡◌, ◌↔◌, ◌∙◌, sym, inl, inr, String, Bool, true, false, ◌&&◌, not, Option, some, is_some,
  is_none, contains, ◌==◌, if◌then◌else◌, arith, Bool-cases, Option-cases,
}
use aws_controllers_k8s_acm.Api.{Certificate, CertificateOptions}
use aws_controllers_k8s_acm.Tags.Ack.{convert_to_ordered_ack_tags}
use aws_controllers_k8s_acm.Certificate.Delta.{
  Compare, both_differ, normalized, is_text, compare_certificates,
}
use aws_controllers_k8s_acm.Certificate.Delta.Laws.{
  in_options, text_differs, differs, compare_certificates_iff,
}
use aws_controllers_k8s_acm.Certificate.Delta.Relations.{
  eq_text, text_eq, or_cases, or_left, or_right, both, left_of, chosen, none_chosen,
  both_differ-Unequal, normalized-Unequal, is_text-eq, TextsDiffer, text_differs-TextsDiffer,
}
use aws_controllers_k8s_acm.Certificate.Delta.Difference.{
  Difference, issued, serial, key_algorithm, certificate_arn, certificate_authority_arn,
  certificate_authority_ref, domain_name, options, preference, export, tags,
}

module _ (c : Compare) where
  module _ (a b : Certificate) (p : String) where
    abbrev issued_at : Bool
    issued_at =
        is_some a.spec.export_to
        && is_none a.status.issued_at
        && is_text b.status.status "ISSUED"
        && "Spec.Status.IssuedAt" == p

    abbrev serial_at : Bool
    serial_at =
        is_some a.spec.export_to
        && both_differ a.status.serial b.status.serial
        && "Spec.Status.Serial" == p

    abbrev key_at : Bool
    key_at =
        both_differ (normalized a.spec.key_algorithm) (normalized b.spec.key_algorithm)
        && "Spec.KeyAlgorithm" == p

    abbrev text_at : Option String → Option String → String → Bool
    text_at x y path = text_differs c x y && path == p

    abbrev ref_at : Bool
    ref_at =
        not (c.deep_equal a.spec.certificate_authority_ref b.spec.certificate_authority_ref)
        && "Spec.CertificateAuthorityRef" == p

    abbrev options_at : Bool
    options_at =
        if c.options_nil_difference a.spec.options b.spec.options
        then "Spec.Options" == p
        else in_options c a.spec.options b.spec.options p

    abbrev tags_at : Bool
    tags_at =
        not (
          c.map_string_string_equal (convert_to_ordered_ack_tags a.spec.tags).0
            (convert_to_ordered_ack_tags b.spec.tags).0)
        && "Spec.Tags" == p

    text_found :
        (x y : Option String) (path : String)
        → text_at x y path ≡ true
        → TextsDiffer c x y × (p ≡ path)
    text_found x y path h =
        ((text_differs-TextsDiffer c x y).0 (ground arith), eq_text path p (ground arith))

    text_there :
        (x y : Option String) (path : String)
        → TextsDiffer c x y
        → p ≡ path
        → text_at x y path ≡ true
    text_there x y path d e =
        both (text_differs c x y) (path == p) ((text_differs-TextsDiffer c x y).1 d)
          (text_eq path p e)

    fields_Difference :
        (o u : CertificateOptions)
        → c.options_nil_difference a.spec.options b.spec.options ≡ false
        → a.spec.options ≡ some o
        → b.spec.options ≡ some u
        → in_options c (some o) (some u) p ≡ true
        → Difference c a b p
    fields_Difference o u e f g h =
        elim (or_cases
          (text_at o.certificate_transparency_logging_preference
            u.certificate_transparency_logging_preference
            "Spec.Options.CertificateTransparencyLoggingPreference")
          (text_at o.export u.export "Spec.Options.Export") h) [
            | inl l ↦ let (d, q) = text_found _ _ _ l in preference o u e f g d q
            | inr l ↦ let (d, q) = text_found _ _ _ l in export o u e f g d q
          ]

    options_Difference : options_at ≡ true → Difference c a b p
    options_Difference h =
        elim (Bool-cases (c.options_nil_difference a.spec.options b.spec.options)) [
          | inl e ↦ options e (eq_text "Spec.Options" p (ground arith))
          | inr e ↦ elim (Option-cases a.spec.options) [
            | inl f ↦ absurd (ground arith)
            | inr (o, f) ↦ elim (Option-cases b.spec.options) [
              | inl g ↦ absurd (ground arith)
              | inr (u, g) ↦ fields_Difference o u e f g (ground arith)
            ]
          ]
        ]

    issued_Difference : issued_at ≡ true → Difference c a b p
    issued_Difference h =
        issued (ground arith) (ground arith)
          ((is_text-eq b.status.status "ISSUED").0 (ground arith))
          (eq_text "Spec.Status.IssuedAt" p (ground arith))

    serial_Difference : serial_at ≡ true → Difference c a b p
    serial_Difference h =
        serial (ground arith)
          ((both_differ-Unequal a.status.serial b.status.serial).0 (ground arith))
          (eq_text "Spec.Status.Serial" p (ground arith))

    key_Difference : key_at ≡ true → Difference c a b p
    key_Difference h =
        let unequal =
          both_differ (normalized a.spec.key_algorithm) (normalized b.spec.key_algorithm) in
        key_algorithm
          ((normalized-Unequal a.spec.key_algorithm b.spec.key_algorithm).0
            (left_of unequal ("Spec.KeyAlgorithm" == p) h))
          (eq_text "Spec.KeyAlgorithm" p (ground arith))

    found : differs c a b p ≡ true → Difference c a b p
    found =
        chosen (Difference c a b p) issued_at serial_at key_at
          (text_at a.spec.certificate_arn b.spec.certificate_arn "Spec.CertificateARN")
          (text_at a.spec.certificate_authority_arn b.spec.certificate_authority_arn
            "Spec.CertificateAuthorityARN")
          ref_at (text_at a.spec.domain_name b.spec.domain_name "Spec.DomainName") options_at
          tags_at issued_Difference serial_Difference key_Difference
          (λ h. let (d, q) = text_found _ _ _ h in certificate_arn d q)
          (λ h. let (d, q) = text_found _ _ _ h in certificate_authority_arn d q)
          (λ h.
            certificate_authority_ref (ground arith)
              (eq_text "Spec.CertificateAuthorityRef" p (ground arith)))
          (λ h. let (d, q) = text_found _ _ _ h in domain_name d q) options_Difference
          (λ h. tags (ground arith) (eq_text "Spec.Tags" p (ground arith)))

    absent :
        differs c a b p ≡ false
        → (issued_at ≡ false)
          × (serial_at ≡ false)
          × (key_at ≡ false)
          × (text_at a.spec.certificate_arn b.spec.certificate_arn "Spec.CertificateARN" ≡ false)
          × (text_at a.spec.certificate_authority_arn b.spec.certificate_authority_arn
                "Spec.CertificateAuthorityARN"
              ≡ false)
          × (ref_at ≡ false)
          × (text_at a.spec.domain_name b.spec.domain_name "Spec.DomainName" ≡ false)
          × (options_at ≡ false)
          × (tags_at ≡ false)
    absent =
        none_chosen issued_at serial_at key_at
          (text_at a.spec.certificate_arn b.spec.certificate_arn "Spec.CertificateARN")
          (text_at a.spec.certificate_authority_arn b.spec.certificate_authority_arn
            "Spec.CertificateAuthorityARN")
          ref_at (text_at a.spec.domain_name b.spec.domain_name "Spec.DomainName") options_at
          tags_at

    clash : (x : Bool) → x ≡ true → x ≡ false → ⊥
    clash x h g = absurd (ground arith)

    refuted : Difference c a b p → differs c a b p ≡ false → ⊥
    refuted d h =
        let (n1, n2, n3, n4, n5, n6, n7, n8, n9) = absent h in
        elim d [
          | issued x y z q ↦
              clash issued_at
                (ground (
                  arith,
                  (is_text-eq b.status.status "ISSUED").1 z,
                  text_eq "Spec.Status.IssuedAt" p q,
                ))
                n1
          | serial x u q ↦
              clash serial_at
                (ground (
                  arith,
                  (both_differ-Unequal a.status.serial b.status.serial).1 u,
                  text_eq "Spec.Status.Serial" p q,
                ))
                n2
          | key_algorithm u q ↦
              clash key_at
                (both
                  (both_differ (normalized a.spec.key_algorithm) (normalized b.spec.key_algorithm))
                  ("Spec.KeyAlgorithm" == p)
                  ((normalized-Unequal a.spec.key_algorithm b.spec.key_algorithm).1 u)
                  (text_eq "Spec.KeyAlgorithm" p q))
                n3
          | certificate_arn u q ↦ clash _ (text_there _ _ _ u q) n4
          | certificate_authority_arn u q ↦ clash _ (text_there _ _ _ u q) n5
          | certificate_authority_ref e q ↦
              clash ref_at (ground (arith, text_eq "Spec.CertificateAuthorityRef" p q)) n6
          | domain_name u q ↦ clash _ (text_there _ _ _ u q) n7
          | options e q ↦ clash options_at (ground (arith, text_eq "Spec.Options" p q)) n8
          | preference o u e f g d q ↦
              clash options_at
                (rw (e, f, g)
                  (or_left
                    (text_at o.certificate_transparency_logging_preference
                      u.certificate_transparency_logging_preference
                      "Spec.Options.CertificateTransparencyLoggingPreference")
                    (text_at o.export u.export "Spec.Options.Export") (text_there _ _ _ d q)))
                n8
          | export o u e f g d q ↦
              clash options_at
                (rw (e, f, g)
                  (or_right
                    (text_at o.certificate_transparency_logging_preference
                      u.certificate_transparency_logging_preference
                      "Spec.Options.CertificateTransparencyLoggingPreference")
                    (text_at o.export u.export "Spec.Options.Export") (text_there _ _ _ d q)))
                n8
          | tags e q ↦ clash tags_at (ground (arith, text_eq "Spec.Tags" p q)) n9
        ]

  -- A delta has a path exactly if the two resources differ there: if a certificate that is to be
  -- exported was issued, or has another serial number; if the key algorithms are both there and
  -- differ with each `-` read as `_`; if the runtime sees one of two texts as nil and the other not,
  -- or both are there and differ; and if the runtime's comparisons of references, options and tags
  -- say so.
  pub compare_certificates-Difference :
      (p : String) (a b : Certificate)
      → (contains (compare_certificates c a b) p ≡ true) ↔ Difference c a b p
  compare_certificates-Difference p a b = (
    λ h. found a b p (sym (compare_certificates_iff c p a b) ∙ h),
    λ d. elim (Bool-cases (differs c a b p)) [
      | inl e ↦ compare_certificates_iff c p a b ∙ e
      | inr e ↦ absurd (refuted a b p d e)
    ],
  )
