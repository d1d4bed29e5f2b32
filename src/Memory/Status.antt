-- ===== src/Memory/Status.antt =====
-- The copy of `CertificateStatus` (zz_generated.deepcopy.go).
use aws_controllers_k8s_acm.Base.{ap, String}
use aws_controllers_k8s_acm.Memory.{
  Ref, Slice, Alloc, return, ◌>>=◌, Deep, ◌⊕◌, ◌&◌, ◌⊗◌, leaf, ref, slice, External,
}
use aws_controllers_k8s_acm.Memory.Laws.{
  IsDeep, IsExternal, leaf-IsDeep, both-IsDeep, ref-IsDeep, slice-IsDeep,
}
use aws_controllers_k8s_acm.Memory.Validation.{
  DomainValidation, domain_validation, domain_validation-IsDeep,
}
use aws_controllers_k8s_acm.Memory.Fields.{
  ExtendedKeyUsage, extended_key_usage, extended_key_usage-IsDeep, KeyUsage, key_usage,
  key_usage-IsDeep,
}
use aws_controllers_k8s_acm.Memory.Renewal.{RenewalSummary, renewal_summary, renewal_summary-IsDeep}

module _ (X : External) where
  pub record CertificateStatus : Type 0 where
    pub ack_resource_metadata : Ref X.ResourceMetadata
    pub conditions : Slice (Ref X.Condition)
    pub created_at : Ref X.Time
    pub domain_validations : Slice (Ref DomainValidation)
    pub extended_key_usages : Slice (Ref ExtendedKeyUsage)
    pub failure_reason : Ref String
    pub imported_at : Ref X.Time
    pub in_use_by : Slice (Ref String)
    pub issued_at : Ref X.Time
    pub issuer : Ref String
    pub key_usages : Slice (Ref KeyUsage)
    pub not_after : Ref X.Time
    pub not_before : Ref X.Time
    pub renewal_eligibility : Ref String
    pub renewal_summary : Ref (RenewalSummary X)
    pub revocation_reason : Ref String
    pub revoked_at : Ref X.Time
    pub serial : Ref String
    pub signature_algorithm : Ref String
    pub status : Ref String
    pub subject : Ref String
    pub type_ : Ref String

  unfoldable pub copy_certificate_status : CertificateStatus → Alloc CertificateStatus
  copy_certificate_status x = do
    ack_resource_metadata ← (ref X.resource_metadata).copy x.ack_resource_metadata
    conditions ← (slice (ref X.condition)).copy x.conditions
    created_at ← (ref X.time).copy x.created_at
    domain_validations ← (slice (ref domain_validation)).copy x.domain_validations
    extended_key_usages ← (slice (ref extended_key_usage)).copy x.extended_key_usages
    failure_reason ← leaf.copy x.failure_reason
    imported_at ← (ref X.time).copy x.imported_at
    in_use_by ← (slice leaf).copy x.in_use_by
    issued_at ← (ref X.time).copy x.issued_at
    issuer ← leaf.copy x.issuer
    key_usages ← (slice (ref key_usage)).copy x.key_usages
    not_after ← (ref X.time).copy x.not_after
    not_before ← (ref X.time).copy x.not_before
    renewal_eligibility ← leaf.copy x.renewal_eligibility
    renewal_summary ← (ref (renewal_summary X)).copy x.renewal_summary
    revocation_reason ← leaf.copy x.revocation_reason
    revoked_at ← (ref X.time).copy x.revoked_at
    serial ← leaf.copy x.serial
    signature_algorithm ← leaf.copy x.signature_algorithm
    status ← leaf.copy x.status
    subject ← leaf.copy x.subject
    type_ ← leaf.copy x.type_
    return (record x {
      ack_resource_metadata = ack_resource_metadata;
      conditions = conditions;
      created_at = created_at;
      domain_validations = domain_validations;
      extended_key_usages = extended_key_usages;
      failure_reason = failure_reason;
      imported_at = imported_at;
      in_use_by = in_use_by;
      issued_at = issued_at;
      issuer = issuer;
      key_usages = key_usages;
      not_after = not_after;
      not_before = not_before;
      renewal_eligibility = renewal_eligibility;
      renewal_summary = renewal_summary;
      revocation_reason = revocation_reason;
      revoked_at = revoked_at;
      serial = serial;
      signature_algorithm = signature_algorithm;
      status = status;
      subject = subject;
      type_ = type_;
    })

  abbrev CertificateStatusFields : Type 0
  CertificateStatusFields =
      Ref X.ResourceMetadata
      ⊕ Slice (Ref X.Condition)
      ⊕ Ref X.Time
      ⊕ Slice (Ref DomainValidation)
      ⊕ Slice (Ref ExtendedKeyUsage)
      ⊕ Ref String
      ⊕ Ref X.Time
      ⊕ Slice (Ref String)
      ⊕ Ref X.Time
      ⊕ Ref String
      ⊕ Slice (Ref KeyUsage)
      ⊕ Ref X.Time
      ⊕ Ref X.Time
      ⊕ Ref String
      ⊕ Ref (RenewalSummary X)
      ⊕ Ref String
      ⊕ Ref X.Time
      ⊕ Ref String
      ⊕ Ref String
      ⊕ Ref String
      ⊕ Ref String
      ⊕ Ref String

  abbrev fields_of_certificate_status : CertificateStatus → CertificateStatusFields
  fields_of_certificate_status x =
      x.ack_resource_metadata & x.conditions & x.created_at & x.domain_validations
      & x.extended_key_usages & x.failure_reason & x.imported_at & x.in_use_by & x.issued_at
      & x.issuer & x.key_usages & x.not_after & x.not_before & x.renewal_eligibility
      & x.renewal_summary & x.revocation_reason & x.revoked_at & x.serial & x.signature_algorithm
      & x.status & x.subject & x.type_

  abbrev certificate_status_from : CertificateStatusFields → CertificateStatus
  certificate_status_from
        (ack_resource_metadata & conditions & created_at & domain_validations & extended_key_usages
          & failure_reason & imported_at & in_use_by & issued_at & issuer & key_usages & not_after
          & not_before & renewal_eligibility & renewal_summary & revocation_reason & revoked_at
          & serial & signature_algorithm & status & subject & type_) =
      record {
        ack_resource_metadata = ack_resource_metadata;
        conditions = conditions;
        created_at = created_at;
        domain_validations = domain_validations;
        extended_key_usages = extended_key_usages;
        failure_reason = failure_reason;
        imported_at = imported_at;
        in_use_by = in_use_by;
        issued_at = issued_at;
        issuer = issuer;
        key_usages = key_usages;
        not_after = not_after;
        not_before = not_before;
        renewal_eligibility = renewal_eligibility;
        renewal_summary = renewal_summary;
        revocation_reason = revocation_reason;
        revoked_at = revoked_at;
        serial = serial;
        signature_algorithm = signature_algorithm;
        status = status;
        subject = subject;
        type_ = type_;
      }

  abbrev certificate_status_fields : Deep CertificateStatusFields
  certificate_status_fields =
      ref X.resource_metadata
      ⊗ slice (ref X.condition)
      ⊗ ref X.time
      ⊗ slice (ref domain_validation)
      ⊗ slice (ref extended_key_usage)
      ⊗ leaf
      ⊗ ref X.time
      ⊗ slice leaf
      ⊗ ref X.time
      ⊗ leaf
      ⊗ slice (ref key_usage)
      ⊗ ref X.time
      ⊗ ref X.time
      ⊗ leaf
      ⊗ ref (renewal_summary X)
      ⊗ leaf
      ⊗ ref X.time
      ⊗ leaf
      ⊗ leaf
      ⊗ leaf
      ⊗ leaf
      ⊗ leaf

  abbrev pub certificate_status : Deep CertificateStatus
  certificate_status = record {
    copy = copy_certificate_status;
    addresses = λ x. certificate_status_fields.addresses (fields_of_certificate_status x);
    strip = λ x.
        certificate_status_from (certificate_status_fields.strip (fields_of_certificate_status x));
  }

  pub certificate_status-IsDeep : IsExternal X → IsDeep certificate_status
  unfolding copy_certificate_status
  certificate_status-IsDeep L x n =
      let parts =
        both-IsDeep (ref-IsDeep X.resource_metadata L.resource_metadata)
          (both-IsDeep (slice-IsDeep (ref X.condition) (ref-IsDeep X.condition L.condition)) (
            both-IsDeep (ref-IsDeep X.time L.time) (
              both-IsDeep
                (slice-IsDeep (ref domain_validation)
                  (ref-IsDeep domain_validation domain_validation-IsDeep))
                (both-IsDeep
                  (slice-IsDeep (ref extended_key_usage)
                    (ref-IsDeep extended_key_usage extended_key_usage-IsDeep))
                  (both-IsDeep leaf-IsDeep (
                    both-IsDeep (ref-IsDeep X.time L.time) (
                      both-IsDeep (slice-IsDeep leaf leaf-IsDeep) (
                        both-IsDeep (ref-IsDeep X.time L.time) (
                          both-IsDeep leaf-IsDeep (
                            both-IsDeep
                              (slice-IsDeep (ref key_usage) (ref-IsDeep key_usage key_usage-IsDeep))
                              (both-IsDeep (ref-IsDeep X.time L.time) (
                                both-IsDeep (ref-IsDeep X.time L.time) (
                                  both-IsDeep leaf-IsDeep (
                                    both-IsDeep
                                      (ref-IsDeep (renewal_summary X) (renewal_summary-IsDeep X L))
                                      (both-IsDeep leaf-IsDeep (
                                        both-IsDeep (ref-IsDeep X.time L.time) (
                                          both-IsDeep leaf-IsDeep (
                                            both-IsDeep leaf-IsDeep (
                                              both-IsDeep leaf-IsDeep (
                                                both-IsDeep leaf-IsDeep
                                                  leaf-IsDeep))))))))))))))))))))
          (fields_of_certificate_status x) n in
      record { same = ap certificate_status_from parts.same; fresh = parts.fresh }
