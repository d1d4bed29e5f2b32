-- ===== src/Memory/Renewal.antt =====
-- The copy of `RenewalSummary` (zz_generated.deepcopy.go).
use aws_controllers_k8s_acm.Base.{ap, String}
use aws_controllers_k8s_acm.Memory.{
  Ref, Slice, Alloc, return, ◌>>=◌, Deep, ◌⊕◌, ◌&◌, ◌⊗◌, leaf, ref, slice, External,
}
use aws_controllers_k8s_acm.Memory.Laws.{
  IsDeep, IsExternal, leaf-IsDeep, both-IsDeep, ref-IsDeep, slice-IsDeep,
}
use aws_controllers_k8s_acm.Memory.Validation.{
  DomainValidation, domain_validation, domain_validation-IsDeep,
}

module _ (X : External) where
  pub record RenewalSummary : Type 0 where
    pub domain_validation_options : Slice (Ref DomainValidation)
    pub renewal_status : Ref String
    pub renewal_status_reason : Ref String
    pub updated_at : Ref X.Time

  unfoldable pub copy_renewal_summary : RenewalSummary → Alloc RenewalSummary
  copy_renewal_summary x = do
    domain_validation_options ← (slice (ref domain_validation)).copy x.domain_validation_options
    renewal_status ← leaf.copy x.renewal_status
    renewal_status_reason ← leaf.copy x.renewal_status_reason
    updated_at ← (ref X.time).copy x.updated_at
    return (record x {
      domain_validation_options = domain_validation_options;
      renewal_status = renewal_status;
      renewal_status_reason = renewal_status_reason;
      updated_at = updated_at;
    })

  abbrev RenewalSummaryFields : Type 0
  RenewalSummaryFields = Slice (Ref DomainValidation) ⊕ Ref String ⊕ Ref String ⊕ Ref X.Time

  abbrev fields_of_renewal_summary : RenewalSummary → RenewalSummaryFields
  fields_of_renewal_summary x =
      x.domain_validation_options & x.renewal_status & x.renewal_status_reason & x.updated_at

  abbrev renewal_summary_from : RenewalSummaryFields → RenewalSummary
  renewal_summary_from
        (domain_validation_options & renewal_status & renewal_status_reason & updated_at) =
      record {
        domain_validation_options = domain_validation_options;
        renewal_status = renewal_status;
        renewal_status_reason = renewal_status_reason;
        updated_at = updated_at;
      }

  abbrev renewal_summary_fields : Deep RenewalSummaryFields
  renewal_summary_fields = slice (ref domain_validation) ⊗ leaf ⊗ leaf ⊗ ref X.time

  abbrev pub renewal_summary : Deep RenewalSummary
  renewal_summary = record {
    copy = copy_renewal_summary;
    addresses = λ x. renewal_summary_fields.addresses (fields_of_renewal_summary x);
    strip = λ x. renewal_summary_from (renewal_summary_fields.strip (fields_of_renewal_summary x));
  }

  pub renewal_summary-IsDeep : IsExternal X → IsDeep renewal_summary
  unfolding copy_renewal_summary
  renewal_summary-IsDeep L x n =
      let parts =
        both-IsDeep
          (slice-IsDeep (ref domain_validation)
            (ref-IsDeep domain_validation domain_validation-IsDeep))
          (both-IsDeep leaf-IsDeep (both-IsDeep leaf-IsDeep (ref-IsDeep X.time L.time)))
          (fields_of_renewal_summary x) n in
      record { same = ap renewal_summary_from parts.same; fresh = parts.fresh }
