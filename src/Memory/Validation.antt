-- ===== src/Memory/Validation.antt =====
-- The copies of validations of domains (zz_generated.deepcopy.go).
use aws_controllers_k8s_acm.Base.{ap, String}
use aws_controllers_k8s_acm.Memory.{
  Ref, Slice, Alloc, return, ◌>>=◌, Deep, ◌⊕◌, ◌&◌, ◌⊗◌, leaf, ref, slice,
}
use aws_controllers_k8s_acm.Memory.Laws.{IsDeep, leaf-IsDeep, both-IsDeep, ref-IsDeep, slice-IsDeep}
use aws_controllers_k8s_acm.Memory.Domains.{
  HttpRedirect, http_redirect, http_redirect-IsDeep, ResourceRecord, resource_record,
  resource_record-IsDeep,
}

pub record DomainValidation : Type 0 where
  pub domain_name : Ref String
  pub http_redirect : Ref HttpRedirect
  pub resource_record : Ref ResourceRecord
  pub validation_domain : Ref String
  pub validation_emails : Slice (Ref String)
  pub validation_method : Ref String
  pub validation_status : Ref String

unfoldable pub copy_domain_validation : DomainValidation → Alloc DomainValidation
copy_domain_validation x = do
  domain_name ← leaf.copy x.domain_name
  http_redirect ← (ref http_redirect).copy x.http_redirect
  resource_record ← (ref resource_record).copy x.resource_record
  validation_domain ← leaf.copy x.validation_domain
  validation_emails ← (slice leaf).copy x.validation_emails
  validation_method ← leaf.copy x.validation_method
  validation_status ← leaf.copy x.validation_status
  return (record x {
    domain_name = domain_name;
    http_redirect = http_redirect;
    resource_record = resource_record;
    validation_domain = validation_domain;
    validation_emails = validation_emails;
    validation_method = validation_method;
    validation_status = validation_status;
  })

abbrev DomainValidationFields : Type 0
DomainValidationFields =
    Ref String
    ⊕ Ref HttpRedirect
    ⊕ Ref ResourceRecord
    ⊕ Ref String
    ⊕ Slice (Ref String)
    ⊕ Ref String
    ⊕ Ref String

abbrev fields_of_domain_validation : DomainValidation → DomainValidationFields
fields_of_domain_validation x =
    x.domain_name & x.http_redirect & x.resource_record & x.validation_domain & x.validation_emails
    & x.validation_method & x.validation_status

abbrev domain_validation_from : DomainValidationFields → DomainValidation
domain_validation_from
      (domain_name & http_redirect & resource_record & validation_domain & validation_emails
        & validation_method & validation_status) =
    record {
      domain_name = domain_name;
      http_redirect = http_redirect;
      resource_record = resource_record;
      validation_domain = validation_domain;
      validation_emails = validation_emails;
      validation_method = validation_method;
      validation_status = validation_status;
    }

abbrev domain_validation_fields : Deep DomainValidationFields
domain_validation_fields =
    leaf ⊗ ref http_redirect ⊗ ref resource_record ⊗ leaf ⊗ slice leaf ⊗ leaf ⊗ leaf

abbrev pub domain_validation : Deep DomainValidation
domain_validation = record {
  copy = copy_domain_validation;
  addresses = λ x. domain_validation_fields.addresses (fields_of_domain_validation x);
  strip =
      λ x. domain_validation_from (domain_validation_fields.strip (fields_of_domain_validation x));
}

pub domain_validation-IsDeep : IsDeep domain_validation
unfolding copy_domain_validation
domain_validation-IsDeep x n =
    let parts =
      both-IsDeep leaf-IsDeep
        (both-IsDeep (ref-IsDeep http_redirect http_redirect-IsDeep) (
          both-IsDeep (ref-IsDeep resource_record resource_record-IsDeep) (
            both-IsDeep leaf-IsDeep
              (both-IsDeep (slice-IsDeep leaf leaf-IsDeep) (both-IsDeep leaf-IsDeep leaf-IsDeep)))))
        (fields_of_domain_validation x) n in
    record { same = ap domain_validation_from parts.same; fresh = parts.fresh }

pub record DnsPrevalidationDetails : Type 0 where
  pub resource_record : Ref ResourceRecord

unfoldable pub copy_dns_prevalidation_details :
    DnsPrevalidationDetails → Alloc DnsPrevalidationDetails
copy_dns_prevalidation_details x = do
  resource_record ← (ref resource_record).copy x.resource_record
  return (record x { resource_record = resource_record })

abbrev pub dns_prevalidation_details : Deep DnsPrevalidationDetails
dns_prevalidation_details = record {
  copy = copy_dns_prevalidation_details;
  addresses = λ x. (ref resource_record).addresses x.resource_record;
  strip = λ x. record x { resource_record = (ref resource_record).strip x.resource_record };
}

pub dns_prevalidation_details-IsDeep : IsDeep dns_prevalidation_details
unfolding copy_dns_prevalidation_details
dns_prevalidation_details-IsDeep x n =
    let part = ref-IsDeep resource_record resource_record-IsDeep x.resource_record n in
    record { same = ap (λ a. record x { resource_record = a }) part.same; fresh = part.fresh }
