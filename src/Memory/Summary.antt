-- ===== src/Memory/Summary.antt =====
-- The copy of `CertificateSummary` (zz_generated.deepcopy.go).
use aws_controllers_k8s_acm.Base.{ap, String, Bool}
use aws_controllers_k8s_acm.Memory.{
  Ref, Slice, Alloc, return, ◌>>=◌, Deep, ◌⊕◌, ◌&◌, ◌⊗◌, leaf, ref, slice, External,
}
use aws_controllers_k8s_acm.Memory.Laws.{
  IsDeep, IsExternal, leaf-IsDeep, both-IsDeep, ref-IsDeep, slice-IsDeep,
}

module _ (X : External) where
  pub record CertificateSummary : Type 0 where
    pub certificate_arn : Ref String
    pub certificate_key_pair_origin : Ref String
    pub created_at : Ref X.Time
    pub domain_name : Ref String
    pub export_option : Ref String
    pub exported : Ref Bool
    pub extended_key_usages : Slice (Ref String)
    pub has_additional_subject_alternative_names : Ref Bool
    pub imported_at : Ref X.Time
    pub in_use : Ref Bool
    pub issued_at : Ref X.Time
    pub key_algorithm : Ref String
    pub key_usages : Slice (Ref String)
    pub managed_by : Ref String
    pub not_after : Ref X.Time
    pub not_before : Ref X.Time
    pub renewal_eligibility : Ref String
    pub revoked_at : Ref X.Time
    pub status : Ref String
    pub subject_alternative_name_summaries : Slice (Ref String)
    pub type_ : Ref String

  unfoldable pub copy_certificate_summary : CertificateSummary → Alloc CertificateSummary
  copy_certificate_summary x = do
    certificate_arn ← leaf.copy x.certificate_arn
    certificate_key_pair_origin ← leaf.copy x.certificate_key_pair_origin
    created_at ← (ref X.time).copy x.created_at
    domain_name ← leaf.copy x.domain_name
    export_option ← leaf.copy x.export_option
    exported ← leaf.copy x.exported
    extended_key_usages ← (slice leaf).copy x.extended_key_usages
    has_additional_subject_alternative_names ← leaf.copy x.has_additional_subject_alternative_names
    imported_at ← (ref X.time).copy x.imported_at
    in_use ← leaf.copy x.in_use
    issued_at ← (ref X.time).copy x.issued_at
    key_algorithm ← leaf.copy x.key_algorithm
    key_usages ← (slice leaf).copy x.key_usages
    managed_by ← leaf.copy x.managed_by
    not_after ← (ref X.time).copy x.not_after
    not_before ← (ref X.time).copy x.not_before
    renewal_eligibility ← leaf.copy x.renewal_eligibility
    revoked_at ← (ref X.time).copy x.revoked_at
    status ← leaf.copy x.status
    subject_alternative_name_summaries ← (slice leaf).copy x.subject_alternative_name_summaries
    type_ ← leaf.copy x.type_
    return (record x {
      certificate_arn = certificate_arn;
      certificate_key_pair_origin = certificate_key_pair_origin;
      created_at = created_at;
      domain_name = domain_name;
      export_option = export_option;
      exported = exported;
      extended_key_usages = extended_key_usages;
      has_additional_subject_alternative_names = has_additional_subject_alternative_names;
      imported_at = imported_at;
      in_use = in_use;
      issued_at = issued_at;
      key_algorithm = key_algorithm;
      key_usages = key_usages;
      managed_by = managed_by;
      not_after = not_after;
      not_before = not_before;
      renewal_eligibility = renewal_eligibility;
      revoked_at = revoked_at;
      status = status;
      subject_alternative_name_summaries = subject_alternative_name_summaries;
      type_ = type_;
    })

  abbrev CertificateSummaryFields : Type 0
  CertificateSummaryFields =
      Ref String
      ⊕ Ref String
      ⊕ Ref X.Time
      ⊕ Ref String
      ⊕ Ref String
      ⊕ Ref Bool
      ⊕ Slice (Ref String)
      ⊕ Ref Bool
      ⊕ Ref X.Time
      ⊕ Ref Bool
      ⊕ Ref X.Time
      ⊕ Ref String
      ⊕ Slice (Ref String)
      ⊕ Ref String
      ⊕ Ref X.Time
      ⊕ Ref X.Time
      ⊕ Ref String
      ⊕ Ref X.Time
      ⊕ Ref String
      ⊕ Slice (Ref String)
      ⊕ Ref String

  abbrev fields_of_certificate_summary : CertificateSummary → CertificateSummaryFields
  fields_of_certificate_summary x =
      x.certificate_arn & x.certificate_key_pair_origin & x.created_at & x.domain_name
      & x.export_option & x.exported & x.extended_key_usages
      & x.has_additional_subject_alternative_names & x.imported_at & x.in_use & x.issued_at
      & x.key_algorithm & x.key_usages & x.managed_by & x.not_after & x.not_before
      & x.renewal_eligibility & x.revoked_at & x.status & x.subject_alternative_name_summaries
      & x.type_

  abbrev certificate_summary_from : CertificateSummaryFields → CertificateSummary
  certificate_summary_from
        (certificate_arn & certificate_key_pair_origin & created_at & domain_name & export_option
          & exported & extended_key_usages & has_additional_subject_alternative_names & imported_at
          & in_use & issued_at & key_algorithm & key_usages & managed_by & not_after & not_before
          & renewal_eligibility & revoked_at & status & subject_alternative_name_summaries
          & type_) =
      record {
        certificate_arn = certificate_arn;
        certificate_key_pair_origin = certificate_key_pair_origin;
        created_at = created_at;
        domain_name = domain_name;
        export_option = export_option;
        exported = exported;
        extended_key_usages = extended_key_usages;
        has_additional_subject_alternative_names = has_additional_subject_alternative_names;
        imported_at = imported_at;
        in_use = in_use;
        issued_at = issued_at;
        key_algorithm = key_algorithm;
        key_usages = key_usages;
        managed_by = managed_by;
        not_after = not_after;
        not_before = not_before;
        renewal_eligibility = renewal_eligibility;
        revoked_at = revoked_at;
        status = status;
        subject_alternative_name_summaries = subject_alternative_name_summaries;
        type_ = type_;
      }

  abbrev certificate_summary_fields : Deep CertificateSummaryFields
  certificate_summary_fields =
      leaf
      ⊗ leaf
      ⊗ ref X.time
      ⊗ leaf
      ⊗ leaf
      ⊗ leaf
      ⊗ slice leaf
      ⊗ leaf
      ⊗ ref X.time
      ⊗ leaf
      ⊗ ref X.time
      ⊗ leaf
      ⊗ slice leaf
      ⊗ leaf
      ⊗ ref X.time
      ⊗ ref X.time
      ⊗ leaf
      ⊗ ref X.time
      ⊗ leaf
      ⊗ slice leaf
      ⊗ leaf

  abbrev pub certificate_summary : Deep CertificateSummary
  certificate_summary = record {
    copy = copy_certificate_summary;
    addresses = λ x. certificate_summary_fields.addresses (fields_of_certificate_summary x);
    strip = λ x.
        certificate_summary_from
          (certificate_summary_fields.strip (fields_of_certificate_summary x));
  }

  pub certificate_summary-IsDeep : IsExternal X → IsDeep certificate_summary
  unfolding copy_certificate_summary
  certificate_summary-IsDeep L x n =
      let parts =
        both-IsDeep leaf-IsDeep
          (both-IsDeep leaf-IsDeep (
            both-IsDeep (ref-IsDeep X.time L.time) (
              both-IsDeep leaf-IsDeep (
                both-IsDeep leaf-IsDeep (
                  both-IsDeep leaf-IsDeep (
                    both-IsDeep (slice-IsDeep leaf leaf-IsDeep) (
                      both-IsDeep leaf-IsDeep (
                        both-IsDeep (ref-IsDeep X.time L.time) (
                          both-IsDeep leaf-IsDeep (
                            both-IsDeep (ref-IsDeep X.time L.time) (
                              both-IsDeep leaf-IsDeep (
                                both-IsDeep (slice-IsDeep leaf leaf-IsDeep) (
                                  both-IsDeep leaf-IsDeep (
                                    both-IsDeep (ref-IsDeep X.time L.time) (
                                      both-IsDeep (ref-IsDeep X.time L.time) (
                                        both-IsDeep leaf-IsDeep (
                                          both-IsDeep (ref-IsDeep X.time L.time) (
                                            both-IsDeep leaf-IsDeep (
                                              both-IsDeep (slice-IsDeep leaf leaf-IsDeep)
                                                leaf-IsDeep)))))))))))))))))))
          (fields_of_certificate_summary x) n in
      record { same = ap certificate_summary_from parts.same; fresh = parts.fresh }
