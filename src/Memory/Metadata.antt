-- ===== src/Memory/Metadata.antt =====
-- The copy of `ACMCertificateMetadata` (zz_generated.deepcopy.go).
use aws_controllers_k8s_acm.Base.{ap, String, Bool}
use aws_controllers_k8s_acm.Memory.{
  Ref, Alloc, return, ◌>>=◌, Deep, ◌⊕◌, ◌&◌, ◌⊗◌, leaf, ref, External,
}
use aws_controllers_k8s_acm.Memory.Laws.{IsDeep, IsExternal, leaf-IsDeep, both-IsDeep, ref-IsDeep}

module _ (X : External) where
  pub record AcmCertificateMetadata : Type 0 where
    pub acme_account_id : Ref String
    pub acme_endpoint_arn : Ref String
    pub certificate_key_pair_origin : Ref String
    pub created_at : Ref X.Time
    pub export_option : Ref String
    pub exported : Ref Bool
    pub imported_at : Ref X.Time
    pub in_use : Ref Bool
    pub issued_at : Ref X.Time
    pub managed_by : Ref String
    pub renewal_eligibility : Ref String
    pub renewal_status : Ref String
    pub revoked_at : Ref X.Time
    pub status : Ref String
    pub type_ : Ref String
    pub validation_method : Ref String

  unfoldable pub copy_acm_certificate_metadata :
      AcmCertificateMetadata → Alloc AcmCertificateMetadata
  copy_acm_certificate_metadata x = do
    acme_account_id ← leaf.copy x.acme_account_id
    acme_endpoint_arn ← leaf.copy x.acme_endpoint_arn
    certificate_key_pair_origin ← leaf.copy x.certificate_key_pair_origin
    created_at ← (ref X.time).copy x.created_at
    export_option ← leaf.copy x.export_option
    exported ← leaf.copy x.exported
    imported_at ← (ref X.time).copy x.imported_at
    in_use ← leaf.copy x.in_use
    issued_at ← (ref X.time).copy x.issued_at
    managed_by ← leaf.copy x.managed_by
    renewal_eligibility ← leaf.copy x.renewal_eligibility
    renewal_status ← leaf.copy x.renewal_status
    revoked_at ← (ref X.time).copy x.revoked_at
    status ← leaf.copy x.status
    type_ ← leaf.copy x.type_
    validation_method ← leaf.copy x.validation_method
    return (record x {
      acme_account_id = acme_account_id;
      acme_endpoint_arn = acme_endpoint_arn;
      certificate_key_pair_origin = certificate_key_pair_origin;
      created_at = created_at;
      export_option = export_option;
      exported = exported;
      imported_at = imported_at;
      in_use = in_use;
      issued_at = issued_at;
      managed_by = managed_by;
      renewal_eligibility = renewal_eligibility;
      renewal_status = renewal_status;
      revoked_at = revoked_at;
      status = status;
      type_ = type_;
      validation_method = validation_method;
    })

  abbrev AcmCertificateMetadataFields : Type 0
  AcmCertificateMetadataFields =
      Ref String
      ⊕ Ref String
      ⊕ Ref String
      ⊕ Ref X.Time
      ⊕ Ref String
      ⊕ Ref Bool
      ⊕ Ref X.Time
      ⊕ Ref Bool
      ⊕ Ref X.Time
      ⊕ Ref String
      ⊕ Ref String
      ⊕ Ref String
      ⊕ Ref X.Time
      ⊕ Ref String
      ⊕ Ref String
      ⊕ Ref String

  abbrev fields_of_acm_certificate_metadata : AcmCertificateMetadata → AcmCertificateMetadataFields
  fields_of_acm_certificate_metadata x =
      x.acme_account_id & x.acme_endpoint_arn & x.certificate_key_pair_origin & x.created_at
      & x.export_option & x.exported & x.imported_at & x.in_use & x.issued_at & x.managed_by
      & x.renewal_eligibility & x.renewal_status & x.revoked_at & x.status & x.type_
      & x.validation_method

  abbrev acm_certificate_metadata_from : AcmCertificateMetadataFields → AcmCertificateMetadata
  acm_certificate_metadata_from
        (acme_account_id & acme_endpoint_arn & certificate_key_pair_origin & created_at
          & export_option & exported & imported_at & in_use & issued_at & managed_by
          & renewal_eligibility & renewal_status & revoked_at & status & type_
          & validation_method) =
      record {
        acme_account_id = acme_account_id;
        acme_endpoint_arn = acme_endpoint_arn;
        certificate_key_pair_origin = certificate_key_pair_origin;
        created_at = created_at;
        export_option = export_option;
        exported = exported;
        imported_at = imported_at;
        in_use = in_use;
        issued_at = issued_at;
        managed_by = managed_by;
        renewal_eligibility = renewal_eligibility;
        renewal_status = renewal_status;
        revoked_at = revoked_at;
        status = status;
        type_ = type_;
        validation_method = validation_method;
      }

  abbrev acm_certificate_metadata_fields : Deep AcmCertificateMetadataFields
  acm_certificate_metadata_fields =
      leaf
      ⊗ leaf
      ⊗ leaf
      ⊗ ref X.time
      ⊗ leaf
      ⊗ leaf
      ⊗ ref X.time
      ⊗ leaf
      ⊗ ref X.time
      ⊗ leaf
      ⊗ leaf
      ⊗ leaf
      ⊗ ref X.time
      ⊗ leaf
      ⊗ leaf
      ⊗ leaf

  abbrev pub acm_certificate_metadata : Deep AcmCertificateMetadata
  acm_certificate_metadata = record {
    copy = copy_acm_certificate_metadata;
    addresses =
        λ x. acm_certificate_metadata_fields.addresses (fields_of_acm_certificate_metadata x);
    strip = λ x.
        acm_certificate_metadata_from
          (acm_certificate_metadata_fields.strip (fields_of_acm_certificate_metadata x));
  }

  pub acm_certificate_metadata-IsDeep : IsExternal X → IsDeep acm_certificate_metadata
  unfolding copy_acm_certificate_metadata
  acm_certificate_metadata-IsDeep L x n =
      let parts =
        both-IsDeep leaf-IsDeep
          (both-IsDeep leaf-IsDeep (
            both-IsDeep leaf-IsDeep (
              both-IsDeep (ref-IsDeep X.time L.time) (
                both-IsDeep leaf-IsDeep (
                  both-IsDeep leaf-IsDeep (
                    both-IsDeep (ref-IsDeep X.time L.time) (
                      both-IsDeep leaf-IsDeep (
                        both-IsDeep (ref-IsDeep X.time L.time) (
                          both-IsDeep leaf-IsDeep (
                            both-IsDeep leaf-IsDeep (
                              both-IsDeep leaf-IsDeep (
                                both-IsDeep (ref-IsDeep X.time L.time) (
                                  both-IsDeep leaf-IsDeep
                                    (both-IsDeep leaf-IsDeep leaf-IsDeep))))))))))))))
          (fields_of_acm_certificate_metadata x) n in
      record { same = ap acm_certificate_metadata_from parts.same; fresh = parts.fresh }
