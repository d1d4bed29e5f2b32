-- ===== src/Certificate/Delta/Difference.antt =====
-- Where two certificates differ, said without the tests of delta.go and of the comparison hooks.
use aws_controllers_k8s_acm.Base.{◌≡◌, String, true, false, none, some, is_some}
use aws_controllers_k8s_acm.Api.{Certificate, CertificateOptions}
use aws_controllers_k8s_acm.Tags.Ack.{convert_to_ordered_ack_tags}
use aws_controllers_k8s_acm.Certificate.Delta.{Compare}
use aws_controllers_k8s_acm.Certificate.Delta.Laws.{}
use aws_controllers_k8s_acm.Certificate.Delta.Relations.{Unequal, UnequalAlgorithms, TextsDiffer}

module _ (c : Compare) where
  -- Where two resources differ, path by path: an export is due, the serial number of what was
  -- exported changed, or a compared field differs.
  pub data Difference (a b : Certificate) (p : String) : Type 0 where
    issued :
        is_some a.spec.export_to ≡ true
        → a.status.issued_at ≡ none
        → b.status.status ≡ some "ISSUED"
        → p ≡ "Spec.Status.IssuedAt"
        → Difference a b p
    serial :
        is_some a.spec.export_to ≡ true
        → Unequal a.status.serial b.status.serial
        → p ≡ "Spec.Status.Serial"
        → Difference a b p
    key_algorithm :
        UnequalAlgorithms a.spec.key_algorithm b.spec.key_algorithm
        → p ≡ "Spec.KeyAlgorithm"
        → Difference a b p
    certificate_arn :
        TextsDiffer c a.spec.certificate_arn b.spec.certificate_arn
        → p ≡ "Spec.CertificateARN"
        → Difference a b p
    certificate_authority_arn :
        TextsDiffer c a.spec.certificate_authority_arn b.spec.certificate_authority_arn
        → p ≡ "Spec.CertificateAuthorityARN"
        → Difference a b p
    certificate_authority_ref :
        c.deep_equal a.spec.certificate_authority_ref b.spec.certificate_authority_ref ≡ false
        → p ≡ "Spec.CertificateAuthorityRef"
        → Difference a b p
    domain_name :
        TextsDiffer c a.spec.domain_name b.spec.domain_name
        → p ≡ "Spec.DomainName"
        → Difference a b p
    options :
        c.options_nil_difference a.spec.options b.spec.options ≡ true
        → p ≡ "Spec.Options"
        → Difference a b p
    preference :
        (o u : CertificateOptions)
        → c.options_nil_difference a.spec.options b.spec.options ≡ false
        → a.spec.options ≡ some o
        → b.spec.options ≡ some u
        → TextsDiffer c o.certificate_transparency_logging_preference
            u.certificate_transparency_logging_preference
        → p ≡ "Spec.Options.CertificateTransparencyLoggingPreference"
        → Difference a b p
    export :
        (o u : CertificateOptions)
        → c.options_nil_difference a.spec.options b.spec.options ≡ false
        → a.spec.options ≡ some o
        → b.spec.options ≡ some u
        → TextsDiffer c o.export u.export
        → p ≡ "Spec.Options.Export"
        → Difference a b p
    tags :
        c.map_string_string_equal
            (convert_to_ordered_ack_tags a.spec.tags).0
            (convert_to_ordered_ack_tags b.spec.tags).0
          ≡ false
        → p ≡ "Spec.Tags"
        → Difference a b p
