-- ===== src/Memory/Detail.antt =====
-- The copy of `CertificateDetail` (zz_generated.deepcopy.go).
use aws_controllers_k8s_acm.Base.{ap, String}
use aws_controllers_k8s_acm.Memory.{
  Ref, Slice, Alloc, return, ◌>>=◌, Deep, ◌⊕◌, ◌&◌, ◌⊗◌, leaf, ref, slice, External,
}
use aws_controllers_k8s_acm.Memory.Laws.{
  IsDeep, IsExternal, leaf-IsDeep, both-IsDeep, ref-IsDeep, slice-IsDeep,
}
use aws_controllers_k8s_acm.Memory.Validation.{
  DomainValidation, domain_validation, domain_validation-IsDeep,
}
use aws_controllers_k8s_acm.Memory.Fields.{
  ExtendedKeyUsage, extended_key_usage, extended_key_usage-IsDeep, KeyUsage, key_usage,
  key_usage-IsDeep, CertificateOptions, certificate_options, certificate_options-IsDeep,
}
use aws_controllers_k8s_acm.Memory.Renewal.{RenewalSummary, renewal_summary, renewal_summary-IsDeep}

module _ (X : External) where
  pub record CertificateDetail : Type 0 where
    pub acme_account_id : Ref String
    pub acme_endpoint_arn : Ref String
    pub certificate_arn : Ref String
    pub certificate_authority_arn : Ref String
    pub certificate_key_pair_origin : Ref String
    pub created_at : Ref X.Time
    pub domain_name : Ref String
    pub domain_validation_options : Slice (Ref DomainValidation)
    pub extended_key_usages : Slice (Ref ExtendedKeyUsage)
    pub failure_reason : Ref String
    pub imported_at : Ref X.Time
    pub in_use_by : Slice (Ref String)
    pub issued_at : Ref X.Time
    pub issuer : Ref String
    pub key_algorithm : Ref String
    pub key_usages : Slice (Ref KeyUsage)
    pub managed_by : Ref String
    pub not_after : Ref X.Time
    pub not_before : Ref X.Time
    pub options : Ref CertificateOptions
    pub renewal_eligibility : Ref String
    pub renewal_summary : Ref (RenewalSummary X)
    pub revocation_reason : Ref String
    pub revoked_at : Ref X.Time
    pub serial : Ref String
    pub signature_algorithm : Ref String
    pub status : Ref String
    pub subject : Ref String
    pub subject_alternative_names : Slice (Ref String)
    pub type_ : Ref String

  unfoldable pub copy_certificate_detail : CertificateDetail → Alloc CertificateDetail
  copy_certificate_detail x = do
    acme_account_id ← leaf.copy x.acme_account_id
    acme_endpoint_arn ← leaf.copy x.acme_endpoint_arn
    certificate_arn ← leaf.copy x.certificate_arn
    certificate_authority_arn ← leaf.copy x.certificate_authority_arn
    certificate_key_pair_origin ← leaf.copy x.certificate_key_pair_origin
    created_at ← (ref X.time).copy x.created_at
    domain_name ← leaf.copy x.domain_name
    domain_validation_options ← (slice (ref domain_validation)).copy x.domain_validation_options
    extended_key_usages ← (slice (ref extended_key_usage)).copy x.extended_key_usages
    failure_reason ← leaf.copy x.failure_reason
    imported_at ← (ref X.time).copy x.imported_at
    in_use_by ← (slice leaf).copy x.in_use_by
    issued_at ← (ref X.time).copy x.issued_at
    issuer ← leaf.copy x.issuer
    key_algorithm ← leaf.copy x.key_algorithm
    key_usages ← (slice (ref key_usage)).copy x.key_usages
    managed_by ← leaf.copy x.managed_by
    not_after ← (ref X.time).copy x.not_after
    not_before ← (ref X.time).copy x.not_before
    options ← (ref certificate_options).copy x.options
    renewal_eligibility ← leaf.copy x.renewal_eligibility
    renewal_summary ← (ref (renewal_summary X)).copy x.renewal_summary
    revocation_reason ← leaf.copy x.revocation_reason
    revoked_at ← (ref X.time).copy x.revoked_at
    serial ← leaf.copy x.serial
    signature_algorithm ← leaf.copy x.signature_algorithm
    status ← leaf.copy x.status
    subject ← leaf.copy x.subject
    subject_alternative_names ← (slice leaf).copy x.subject_alternative_names
    type_ ← leaf.copy x.type_
    return (record x {
      acme_account_id = acme_account_id;
      acme_endpoint_arn = acme_endpoint_arn;
      certificate_arn = certificate_arn;
      certificate_authority_arn = certificate_authority_arn;
      certificate_key_pair_origin = certificate_key_pair_origin;
      created_at = created_at;
      domain_name = domain_name;
      domain_validation_options = domain_validation_options;
      extended_key_usages = extended_key_usages;
      failure_reason = failure_reason;
      imported_at = imported_at;
      in_use_by = in_use_by;
      issued_at = issued_at;
      issuer = issuer;
      key_algorithm = key_algorithm;
      key_usages = key_usages;
      managed_by = managed_by;
      not_after = not_after;
      not_before = not_before;
      options = options;
      renewal_eligibility = renewal_eligibility;
      renewal_summary = renewal_summary;
      revocation_reason = revocation_reason;
      revoked_at = revoked_at;
      serial = serial;
      signature_algorithm = signature_algorithm;
      status = status;
      subject = subject;
      subject_alternative_names = subject_alternative_names;
      type_ = type_;
    })

  abbrev CertificateDetailFields : Type 0
  CertificateDetailFields =
      Ref String
      ⊕ Ref String
      ⊕ Ref String
      ⊕ Ref String
      ⊕ Ref String
      ⊕ Ref X.Time
      ⊕ Ref String
      ⊕ Slice (Ref DomainValidation)
      ⊕ Slice (Ref ExtendedKeyUsage)
      ⊕ Ref String
      ⊕ Ref X.Time
      ⊕ Slice (Ref String)
      ⊕ Ref X.Time
      ⊕ Ref String
      ⊕ Ref String
      ⊕ Slice (Ref KeyUsage)
      ⊕ Ref String
      ⊕ Ref X.Time
      ⊕ Ref X.Time
      ⊕ Ref CertificateOptions
      ⊕ Ref String
      ⊕ Ref (RenewalSummary X)
      ⊕ Ref String
      ⊕ Ref X.Time
      ⊕ Ref String
      ⊕ Ref String
      ⊕ Ref String
      ⊕ Ref String
      ⊕ Slice (Ref String)
      ⊕ Ref String

  abbrev fields_of_certificate_detail : CertificateDetail → CertificateDetailFields
  fields_of_certificate_detail x =
      x.acme_account_id & x.acme_endpoint_arn & x.certificate_arn & x.certificate_authority_arn
      & x.certificate_key_pair_origin & x.created_at & x.domain_name & x.domain_validation_options
      & x.extended_key_usages & x.failure_reason & x.imported_at & x.in_use_by & x.issued_at
      & x.issuer & x.key_algorithm & x.key_usages & x.managed_by & x.not_after & x.not_before
      & x.options & x.renewal_eligibility & x.renewal_summary & x.revocation_reason & x.revoked_at
      & x.serial & x.signature_algorithm & x.status & x.subject & x.subject_alternative_names
      & x.type_

  abbrev certificate_detail_from : CertificateDetailFields → CertificateDetail
  certificate_detail_from
        (acme_account_id & acme_endpoint_arn & certificate_arn & certificate_authority_arn
          & certificate_key_pair_origin & created_at & domain_name & domain_validation_options
          & extended_key_usages & failure_reason & imported_at & in_use_by & issued_at & issuer
          & key_algorithm & key_usages & managed_by & not_after & not_before & options
          & renewal_eligibility & renewal_summary & revocation_reason & revoked_at & serial
          & signature_algorithm & status & subject & subject_alternative_names & type_) =
      record {
        acme_account_id = acme_account_id;
        acme_endpoint_arn = acme_endpoint_arn;
        certificate_arn = certificate_arn;
        certificate_authority_arn = certificate_authority_arn;
        certificate_key_pair_origin = certificate_key_pair_origin;
        created_at = created_at;
        domain_name = domain_name;
        domain_validation_options = domain_validation_options;
        extended_key_usages = extended_key_usages;
        failure_reason = failure_reason;
        imported_at = imported_at;
        in_use_by = in_use_by;
        issued_at = issued_at;
        issuer = issuer;
        key_algorithm = key_algorithm;
        key_usages = key_usages;
        managed_by = managed_by;
        not_after = not_after;
        not_before = not_before;
        options = options;
        renewal_eligibility = renewal_eligibility;
        renewal_summary = renewal_summary;
        revocation_reason = revocation_reason;
        revoked_at = revoked_at;
        serial = serial;
        signature_algorithm = signature_algorithm;
        status = status;
        subject = subject;
        subject_alternative_names = subject_alternative_names;
        type_ = type_;
      }

  abbrev certificate_detail_fields : Deep CertificateDetailFields
  certificate_detail_fields =
      leaf
      ⊗ leaf
      ⊗ leaf
      ⊗ leaf
      ⊗ leaf
      ⊗ ref X.time
      ⊗ leaf
      ⊗ slice (ref domain_validation)
      ⊗ slice (ref extended_key_usage)
      ⊗ leaf
      ⊗ ref X.time
      ⊗ slice leaf
      ⊗ ref X.time
      ⊗ leaf
      ⊗ leaf
      ⊗ slice (ref key_usage)
      ⊗ leaf
      ⊗ ref X.time
      ⊗ ref X.time
      ⊗ ref certificate_options
      ⊗ leaf
      ⊗ ref (renewal_summary X)
      ⊗ leaf
      ⊗ ref X.time
      ⊗ leaf
      ⊗ leaf
      ⊗ leaf
      ⊗ leaf
      ⊗ slice leaf
      ⊗ leaf

  abbrev pub certificate_detail : Deep CertificateDetail
  certificate_detail = record {
    copy = copy_certificate_detail;
    addresses = λ x. certificate_detail_fields.addresses (fields_of_certificate_detail x);
    strip = λ x.
        certificate_detail_from (certificate_detail_fields.strip (fields_of_certificate_detail x));
  }

  pub certificate_detail-IsDeep : IsExternal X → IsDeep certificate_detail
  unfolding copy_certificate_detail
  certificate_detail-IsDeep L x n =
      let parts =
        both-IsDeep leaf-IsDeep
          (both-IsDeep leaf-IsDeep (
            both-IsDeep leaf-IsDeep (
              both-IsDeep leaf-IsDeep (
                both-IsDeep leaf-IsDeep (
                  both-IsDeep (ref-IsDeep X.time L.time) (
                    both-IsDeep leaf-IsDeep (
                      both-IsDeep
                        (slice-IsDeep (ref domain_validation)
                          (ref-IsDeep domain_validation domain_validation-IsDeep))
                        (both-IsDeep
                          (slice-IsDeep (ref extended_key_usage)
                            (ref-IsDeep extended_key_usage extended_key_usage-IsDeep))
                          (both-IsDeep leaf-IsDeep (
                            both-IsDeep (ref-IsDeep X.time L.time) (
                              both-IsDeep (slice-IsDeep leaf leaf-IsDeep) (
                                both-IsDeep (ref-IsDeep X.time L.time) (
                                  both-IsDeep leaf-IsDeep (
                                    both-IsDeep leaf-IsDeep (
                                      both-IsDeep
                                        (slice-IsDeep (ref key_usage)
                                          (ref-IsDeep key_usage key_usage-IsDeep))
                                        (both-IsDeep leaf-IsDeep (
                                          both-IsDeep (ref-IsDeep X.time L.time) (
                                            both-IsDeep (ref-IsDeep X.time L.time) (
                                              both-IsDeep
                                                (ref-IsDeep certificate_options
                                                  certificate_options-IsDeep)
                                                (both-IsDeep leaf-IsDeep (
                                                  both-IsDeep
                                                    (ref-IsDeep (renewal_summary X)
                                                      (renewal_summary-IsDeep X L))
                                                    (both-IsDeep leaf-IsDeep (
                                                      both-IsDeep (ref-IsDeep X.time L.time) (
                                                        both-IsDeep leaf-IsDeep (
                                                          both-IsDeep leaf-IsDeep (
                                                            both-IsDeep leaf-IsDeep (
                                                            both-IsDeep leaf-IsDeep (
                                                            both-IsDeep
                                                            (slice-IsDeep leaf leaf-IsDeep)
                                                            leaf-IsDeep))))))))))))))))))))))))))))
          (fields_of_certificate_detail x) n in
      record { same = ap certificate_detail_from parts.same; fresh = parts.fresh }
