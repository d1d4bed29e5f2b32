-- ===== src/Memory/MetadataFilter.antt =====
-- The copy of `ACMCertificateMetadataFilter` (zz_generated.deepcopy.go).
use aws_controllers_k8s_acm.Base.{ap, String, Bool}
use aws_controllers_k8s_acm.Memory.{Ref, Alloc, return, ◌>>=◌, Deep, ◌⊕◌, ◌&◌, ◌⊗◌, leaf}
use aws_controllers_k8s_acm.Memory.Laws.{IsDeep, leaf-IsDeep, both-IsDeep}

pub record AcmCertificateMetadataFilter : Type 0 where
  pub acme_account_id : Ref String
  pub acme_endpoint_arn : Ref String
  pub certificate_key_pair_origin : Ref String
  pub export_option : Ref String
  pub exported : Ref Bool
  pub in_use : Ref Bool
  pub managed_by : Ref String
  pub renewal_status : Ref String
  pub status : Ref String
  pub type_ : Ref String
  pub validation_method : Ref String

unfoldable pub copy_acm_certificate_metadata_filter :
    AcmCertificateMetadataFilter → Alloc AcmCertificateMetadataFilter
copy_acm_certificate_metadata_filter x = do
  acme_account_id ← leaf.copy x.acme_account_id
  acme_endpoint_arn ← leaf.copy x.acme_endpoint_arn
  certificate_key_pair_origin ← leaf.copy x.certificate_key_pair_origin
  export_option ← leaf.copy x.export_option
  exported ← leaf.copy x.exported
  in_use ← leaf.copy x.in_use
  managed_by ← leaf.copy x.managed_by
  renewal_status ← leaf.copy x.renewal_status
  status ← leaf.copy x.status
  type_ ← leaf.copy x.type_
  validation_method ← leaf.copy x.validation_method
  return (record x {
    acme_account_id = acme_account_id;
    acme_endpoint_arn = acme_endpoint_arn;
    certificate_key_pair_origin = certificate_key_pair_origin;
    export_option = export_option;
    exported = exported;
    in_use = in_use;
    managed_by = managed_by;
    renewal_status = renewal_status;
    status = status;
    type_ = type_;
    validation_method = validation_method;
  })

abbrev AcmCertificateMetadataFilterFields : Type 0
AcmCertificateMetadataFilterFields =
    Ref String
    ⊕ Ref String
    ⊕ Ref String
    ⊕ Ref String
    ⊕ Ref Bool
    ⊕ Ref Bool
    ⊕ Ref String
    ⊕ Ref String
    ⊕ Ref String
    ⊕ Ref String
    ⊕ Ref String

abbrev fields_of_acm_certificate_metadata_filter :
    AcmCertificateMetadataFilter → AcmCertificateMetadataFilterFields
fields_of_acm_certificate_metadata_filter x =
    x.acme_account_id & x.acme_endpoint_arn & x.certificate_key_pair_origin & x.export_option
    & x.exported & x.in_use & x.managed_by & x.renewal_status & x.status & x.type_
    & x.validation_method

abbrev acm_certificate_metadata_filter_from :
    AcmCertificateMetadataFilterFields → AcmCertificateMetadataFilter
acm_certificate_metadata_filter_from
      (acme_account_id & acme_endpoint_arn & certificate_key_pair_origin & export_option & exported
        & in_use & managed_by & renewal_status & status & type_ & validation_method) =
    record {
      acme_account_id = acme_account_id;
      acme_endpoint_arn = acme_endpoint_arn;
      certificate_key_pair_origin = certificate_key_pair_origin;
      export_option = export_option;
      exported = exported;
      in_use = in_use;
      managed_by = managed_by;
      renewal_status = renewal_status;
      status = status;
      type_ = type_;
      validation_method = validation_method;
    }

abbrev acm_certificate_metadata_filter_fields : Deep AcmCertificateMetadataFilterFields
acm_certificate_metadata_filter_fields =
    leaf ⊗ leaf ⊗ leaf ⊗ leaf ⊗ leaf ⊗ leaf ⊗ leaf ⊗ leaf ⊗ leaf ⊗ leaf ⊗ leaf

abbrev pub acm_certificate_metadata_filter : Deep AcmCertificateMetadataFilter
acm_certificate_metadata_filter = record {
  copy = copy_acm_certificate_metadata_filter;
  addresses = λ x.
      acm_certificate_metadata_filter_fields.addresses
        (fields_of_acm_certificate_metadata_filter x);
  strip = λ x.
      acm_certificate_metadata_filter_from (
        acm_certificate_metadata_filter_fields.strip (fields_of_acm_certificate_metadata_filter x));
}

pub acm_certificate_metadata_filter-IsDeep : IsDeep acm_certificate_metadata_filter
unfolding copy_acm_certificate_metadata_filter
acm_certificate_metadata_filter-IsDeep x n =
    let parts =
      both-IsDeep leaf-IsDeep
        (both-IsDeep leaf-IsDeep (
          both-IsDeep leaf-IsDeep (
            both-IsDeep leaf-IsDeep (
              both-IsDeep leaf-IsDeep (
                both-IsDeep leaf-IsDeep (
                  both-IsDeep leaf-IsDeep (
                    both-IsDeep leaf-IsDeep
                      (both-IsDeep leaf-IsDeep (both-IsDeep leaf-IsDeep leaf-IsDeep)))))))))
        (fields_of_acm_certificate_metadata_filter x) n in
    record { same = ap acm_certificate_metadata_filter_from parts.same; fresh = parts.fresh }
