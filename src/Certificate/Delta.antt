-- ===== src/Certificate/Delta.antt =====
-- `newResourceDelta` (delta.go), `compareKeyAlgorithm` and `compareCertificateIssuedAt` (hooks.go).
-- A delta is the list of the paths that were added to it; the two values kept beside each path are
-- not read by this code. What the runtime decides is a parameter.
pub mod Laws
pub mod Relations
pub mod Difference
pub mod Exact
use aws_controllers_k8s_acm.Base.{
  ◌≡◌, String, Bool, true, false, not, ◌&&◌, ◌||◌, Option, none, some, List, [], ◌∷◌, ◌++◌, ◌==◌,
  string_dec, is_some, is_none, if◌then◌else◌,
}
use aws_controllers_k8s_acm.Base.Strings.{replace_char}
use aws_controllers_k8s_acm.Api.{Certificate, CertificateOptions, AwsResourceReferenceWrapper, Tag}
use aws_controllers_k8s_acm.Tags.Ack.{AckTags, convert_to_ordered_ack_tags}

-- `ackcompare` and `equality.Semantic`.
pub record Compare : Type 0 where
  -- `HasNilDifference`, of texts and of options
  pub has_nil_difference : Option String → Option String → Bool
  pub options_nil_difference : Option CertificateOptions → Option CertificateOptions → Bool
  -- `Equalities.DeepEqual` of `CertificateAuthorityRef`
  pub deep_equal : Option AwsResourceReferenceWrapper → Option AwsResourceReferenceWrapper → Bool
  pub map_string_string_equal : AckTags → AckTags → Bool
  -- `delta.DifferentAt(path)`, `delta.DifferentExcept(path)`
  pub different_at : List String → String → Bool
  pub different_except : List String → String → Bool

abbrev pub Delta : Type 0
Delta = List String

-- `if b { delta.Add(path, ...) }`
abbrev pub add_if : Bool → String → Delta → Delta
add_if b path delta = if b then delta ++ (path ∷ []) else delta

-- `*a != *b` where both are there.
abbrev pub both_differ : Option String → Option String → Bool
both_differ (some a) (some b) = not (a == b)
both_differ _ _ = false

unfoldable pub normalize_key_algorithm : String → String
normalize_key_algorithm = replace_char "-" "_"

abbrev pub normalized : Option String → Option String
normalized none = none
normalized (some s) = some (normalize_key_algorithm s)

unfoldable pub compare_key_algorithm : Delta → Certificate → Certificate → Delta
compare_key_algorithm delta a b =
    add_if (both_differ (normalized a.spec.key_algorithm) (normalized b.spec.key_algorithm))
      "Spec.KeyAlgorithm" delta

-- `p != nil && *p == s`
abbrev pub is_text : Option String → String → Bool
is_text none s = false
is_text (some t) s = t == s

unfoldable pub compare_certificate_issued_at : Delta → Certificate → Certificate → Delta
compare_certificate_issued_at delta a b =
    if is_some a.spec.export_to
    then add_if (both_differ a.status.serial b.status.serial) "Spec.Status.Serial" (
        add_if (is_none a.status.issued_at && is_text b.status.status "ISSUED")
          "Spec.Status.IssuedAt" delta)
    else delta

module _ (c : Compare) where
  -- `if HasNilDifference(a, b) { Add } else if a != nil && b != nil { if *a != *b { Add } }`
  unfoldable pub compare_text : String → Option String → Option String → Delta → Delta
  compare_text path a b delta = add_if (c.has_nil_difference a b || both_differ a b) path delta

  -- The fields of `Spec.Options`, where both are there.
  unfoldable pub compare_option_fields :
      Option CertificateOptions → Option CertificateOptions → Delta → Delta
  compare_option_fields (some a) (some b) delta =
      compare_text "Spec.Options.Export" a.export b.export (
        compare_text "Spec.Options.CertificateTransparencyLoggingPreference"
          a.certificate_transparency_logging_preference
          b.certificate_transparency_logging_preference delta)
  compare_option_fields _ _ delta = delta

  unfoldable pub compare_options :
      Option CertificateOptions → Option CertificateOptions → Delta → Delta
  compare_options a b delta =
      if c.options_nil_difference a b
      then delta ++ ("Spec.Options" ∷ [])
      else compare_option_fields a b delta

  unfoldable pub compare_tags : Option (List Tag) → Option (List Tag) → Delta → Delta
  compare_tags a b delta =
      add_if
        (not (
          c.map_string_string_equal (convert_to_ordered_ack_tags a).0
            (convert_to_ordered_ack_tags b).0))
        "Spec.Tags" delta

  -- The comparison of two resources that are there, hooks first.
  unfoldable pub compare_certificates : Certificate → Certificate → Delta
  compare_certificates a b =
      let hooks = compare_key_algorithm (compare_certificate_issued_at [] a b) a b in
      let arns =
        compare_text "Spec.CertificateAuthorityARN" a.spec.certificate_authority_arn
          b.spec.certificate_authority_arn
          (compare_text "Spec.CertificateARN" a.spec.certificate_arn b.spec.certificate_arn
            hooks) in
      let refs =
        add_if
          (not (c.deep_equal a.spec.certificate_authority_ref b.spec.certificate_authority_ref))
          "Spec.CertificateAuthorityRef" arns in
      compare_tags a.spec.tags b.spec.tags (
        compare_options a.spec.options b.spec.options
          (compare_text "Spec.DomainName" a.spec.domain_name b.spec.domain_name refs))

  -- `none` is a nil `*resource`. Two of them are a nil pointer dereference, which gives `none`.
  unfoldable pub new_resource_delta : Option Certificate → Option Certificate → Option Delta
  new_resource_delta none none = none
  new_resource_delta (some a) none = some ("" ∷ [])
  new_resource_delta none (some b) = some ("" ∷ [])
  new_resource_delta (some a) (some b) = some (compare_certificates a b)
