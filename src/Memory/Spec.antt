-- ===== src/Memory/Spec.antt =====
-- The copy of `CertificateSpec` (zz_generated.deepcopy.go).
use aws_controllers_k8s_acm.Base.{ap, String}
use aws_controllers_k8s_acm.Api.{SecretKeyReference}
use aws_controllers_k8s_acm.Memory.{
  Ref, Slice, Alloc, return, ◌>>=◌, Deep, ◌⊕◌, ◌&◌, ◌⊗◌, leaf, ref, slice, External,
}
use aws_controllers_k8s_acm.Memory.Laws.{
  IsDeep, IsExternal, leaf-IsDeep, both-IsDeep, ref-IsDeep, slice-IsDeep,
}
use aws_controllers_k8s_acm.Memory.Domains.{
  DomainValidationOption, domain_validation_option, domain_validation_option-IsDeep,
}
use aws_controllers_k8s_acm.Memory.Fields.{
  CertificateOptions, certificate_options, certificate_options-IsDeep, Tag, tag, tag-IsDeep,
}

module _ (X : External) where
  pub record CertificateSpec : Type 0 where
    pub certificate : Ref SecretKeyReference
    pub certificate_arn : Ref String
    pub certificate_authority_arn : Ref String
    pub certificate_authority_ref : Ref X.AwsResourceReferenceWrapper
    pub certificate_chain : Ref SecretKeyReference
    pub domain_name : Ref String
    pub domain_validation_options : Slice (Ref DomainValidationOption)
    pub export_to : Ref SecretKeyReference
    pub key_algorithm : Ref String
    pub managed_by : Ref String
    pub options : Ref CertificateOptions
    pub private_key : Ref SecretKeyReference
    pub subject_alternative_names : Slice (Ref String)
    pub tags : Slice (Ref Tag)

  unfoldable pub copy_certificate_spec : CertificateSpec → Alloc CertificateSpec
  copy_certificate_spec x = do
    certificate ← leaf.copy x.certificate
    certificate_arn ← leaf.copy x.certificate_arn
    certificate_authority_arn ← leaf.copy x.certificate_authority_arn
    certificate_authority_ref ←
        (ref X.aws_resource_reference_wrapper).copy x.certificate_authority_ref
    certificate_chain ← leaf.copy x.certificate_chain
    domain_name ← leaf.copy x.domain_name
    domain_validation_options ←
        (slice (ref domain_validation_option)).copy x.domain_validation_options
    export_to ← leaf.copy x.export_to
    key_algorithm ← leaf.copy x.key_algorithm
    managed_by ← leaf.copy x.managed_by
    options ← (ref certificate_options).copy x.options
    private_key ← leaf.copy x.private_key
    subject_alternative_names ← (slice leaf).copy x.subject_alternative_names
    tags ← (slice (ref tag)).copy x.tags
    return (record x {
      certificate = certificate;
      certificate_arn = certificate_arn;
      certificate_authority_arn = certificate_authority_arn;
      certificate_authority_ref = certificate_authority_ref;
      certificate_chain = certificate_chain;
      domain_name = domain_name;
      domain_validation_options = domain_validation_options;
      export_to = export_to;
      key_algorithm = key_algorithm;
      managed_by = managed_by;
      options = options;
      private_key = private_key;
      subject_alternative_names = subject_alternative_names;
      tags = tags;
    })

  abbrev CertificateSpecFields : Type 0
  CertificateSpecFields =
      Ref SecretKeyReference
      ⊕ Ref String
      ⊕ Ref String
      ⊕ Ref X.AwsResourceReferenceWrapper
      ⊕ Ref SecretKeyReference
      ⊕ Ref String
      ⊕ Slice (Ref DomainValidationOption)
      ⊕ Ref SecretKeyReference
      ⊕ Ref String
      ⊕ Ref String
      ⊕ Ref CertificateOptions
      ⊕ Ref SecretKeyReference
      ⊕ Slice (Ref String)
      ⊕ Slice (Ref Tag)

  abbrev fields_of_certificate_spec : CertificateSpec → CertificateSpecFields
  fields_of_certificate_spec x =
      x.certificate & x.certificate_arn & x.certificate_authority_arn & x.certificate_authority_ref
      & x.certificate_chain & x.domain_name & x.domain_validation_options & x.export_to
      & x.key_algorithm & x.managed_by & x.options & x.private_key & x.subject_alternative_names
      & x.tags

  abbrev certificate_spec_from : CertificateSpecFields → CertificateSpec
  certificate_spec_from
        (certificate & certificate_arn & certificate_authority_arn & certificate_authority_ref
          & certificate_chain & domain_name & domain_validation_options & export_to & key_algorithm
          & managed_by & options & private_key & subject_alternative_names & tags) =
      record {
        certificate = certificate;
        certificate_arn = certificate_arn;
        certificate_authority_arn = certificate_authority_arn;
        certificate_authority_ref = certificate_authority_ref;
        certificate_chain = certificate_chain;
        domain_name = domain_name;
        domain_validation_options = domain_validation_options;
        export_to = export_to;
        key_algorithm = key_algorithm;
        managed_by = managed_by;
        options = options;
        private_key = private_key;
        subject_alternative_names = subject_alternative_names;
        tags = tags;
      }

  abbrev certificate_spec_fields : Deep CertificateSpecFields
  certificate_spec_fields =
      leaf
      ⊗ leaf
      ⊗ leaf
      ⊗ ref X.aws_resource_reference_wrapper
      ⊗ leaf
      ⊗ leaf
      ⊗ slice (ref domain_validation_option)
      ⊗ leaf
      ⊗ leaf
      ⊗ leaf
      ⊗ ref certificate_options
      ⊗ leaf
      ⊗ slice leaf
      ⊗ slice (ref tag)

  abbrev pub certificate_spec : Deep CertificateSpec
  certificate_spec = record {
    copy = copy_certificate_spec;
    addresses = λ x. certificate_spec_fields.addresses (fields_of_certificate_spec x);
    strip =
        λ x. certificate_spec_from (certificate_spec_fields.strip (fields_of_certificate_spec x));
  }

  pub certificate_spec-IsDeep : IsExternal X → IsDeep certificate_spec
  unfolding copy_certificate_spec
  certificate_spec-IsDeep L x n =
      let parts =
        both-IsDeep leaf-IsDeep
          (both-IsDeep leaf-IsDeep (
            both-IsDeep leaf-IsDeep (
              both-IsDeep
                (ref-IsDeep X.aws_resource_reference_wrapper L.aws_resource_reference_wrapper)
                (both-IsDeep leaf-IsDeep (
                  both-IsDeep leaf-IsDeep (
                    both-IsDeep
                      (slice-IsDeep (ref domain_validation_option)
                        (ref-IsDeep domain_validation_option domain_validation_option-IsDeep))
                      (both-IsDeep leaf-IsDeep (
                        both-IsDeep leaf-IsDeep (
                          both-IsDeep leaf-IsDeep (
                            both-IsDeep (ref-IsDeep certificate_options certificate_options-IsDeep)
                              (both-IsDeep leaf-IsDeep (
                                both-IsDeep (slice-IsDeep leaf leaf-IsDeep)
                                  (slice-IsDeep (ref tag) (ref-IsDeep tag tag-IsDeep))))))))))))))
          (fields_of_certificate_spec x) n in
      record { same = ap certificate_spec_from parts.same; fresh = parts.fresh }
