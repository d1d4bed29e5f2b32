-- ===== src/Memory/Types.antt =====
-- Every type of the API with its deep copy (zz_generated.deepcopy.go).
use aws_controllers_k8s_acm.Base.{ℕ}
use aws_controllers_k8s_acm.Memory.{Ref, Alloc, Deep, ref, copy_ref, External}
use aws_controllers_k8s_acm.Memory.Laws.{IsDeep, IsExternal, ref-IsDeep}
use aws_controllers_k8s_acm.Memory.Fields.{
  CertificateOptions, certificate_options, certificate_options-IsDeep, ExtendedKeyUsage,
  extended_key_usage, extended_key_usage-IsDeep, KeyUsage, key_usage, key_usage-IsDeep, Tag, tag,
  tag-IsDeep,
}
use aws_controllers_k8s_acm.Memory.Domains.{
  DomainValidationOption, domain_validation_option, domain_validation_option-IsDeep, HttpRedirect,
  http_redirect, http_redirect-IsDeep, ResourceRecord, resource_record, resource_record-IsDeep,
}
use aws_controllers_k8s_acm.Memory.Validation.{
  DomainValidation, domain_validation, domain_validation-IsDeep, DnsPrevalidationDetails,
  dns_prevalidation_details, dns_prevalidation_details-IsDeep,
}
use aws_controllers_k8s_acm.Memory.Names.{
  CustomAttribute, custom_attribute, custom_attribute-IsDeep, GeneralName, general_name,
  general_name-IsDeep, OtherName, other_name, other_name-IsDeep,
}
use aws_controllers_k8s_acm.Memory.Subject.{
  DistinguishedName, distinguished_name, distinguished_name-IsDeep,
}
use aws_controllers_k8s_acm.Memory.Accounts.{
  AcmeAccount, acme_account, acme_account-IsDeep, AcmeAccountSummary, acme_account_summary,
  acme_account_summary-IsDeep, AcmeEndpoint, acme_endpoint, acme_endpoint-IsDeep,
  AcmeEndpointSummary, acme_endpoint_summary, acme_endpoint_summary-IsDeep,
}
use aws_controllers_k8s_acm.Memory.Metadata.{
  AcmCertificateMetadata, acm_certificate_metadata, acm_certificate_metadata-IsDeep,
}
use aws_controllers_k8s_acm.Memory.MetadataFilter.{
  AcmCertificateMetadataFilter, acm_certificate_metadata_filter,
  acm_certificate_metadata_filter-IsDeep,
}
use aws_controllers_k8s_acm.Memory.Search.{
  CertificateFilter, certificate_filter, certificate_filter-IsDeep, CertificateSearchResult,
  certificate_search_result, certificate_search_result-IsDeep, FailureDetails, failure_details,
  failure_details-IsDeep, Filters, filters, filters-IsDeep,
}
use aws_controllers_k8s_acm.Memory.Attributes.{
  TimestampRange, timestamp_range, timestamp_range-IsDeep, X509AttributeFilter,
  x509_attribute_filter, x509_attribute_filter-IsDeep, X509Attributes, x509_attributes,
  x509_attributes-IsDeep,
}
use aws_controllers_k8s_acm.Memory.Renewal.{RenewalSummary, renewal_summary, renewal_summary-IsDeep}
use aws_controllers_k8s_acm.Memory.Summary.{
  CertificateSummary, certificate_summary, certificate_summary-IsDeep,
}
use aws_controllers_k8s_acm.Memory.Detail.{
  CertificateDetail, certificate_detail, certificate_detail-IsDeep,
}
use aws_controllers_k8s_acm.Memory.Spec.{CertificateSpec, certificate_spec, certificate_spec-IsDeep}
use aws_controllers_k8s_acm.Memory.Status.{
  CertificateStatus, certificate_status, certificate_status-IsDeep,
}
use aws_controllers_k8s_acm.Memory.Certificate.{
  Certificate, certificate, certificate-IsDeep, CertificateList, certificate_list,
  certificate_list-IsDeep, Allocated, IsCopy, copied-IsCopy,
}

-- The types that zz_generated.deepcopy.go has a copy for.
pub data ApiType : Type 0 where
  a_acm_certificate_metadata : ApiType
  a_acm_certificate_metadata_filter : ApiType
  a_acme_account : ApiType
  a_acme_account_summary : ApiType
  a_acme_endpoint : ApiType
  a_acme_endpoint_summary : ApiType
  a_certificate_detail : ApiType
  a_certificate_filter : ApiType
  a_certificate_options : ApiType
  a_certificate_search_result : ApiType
  a_certificate_spec : ApiType
  a_certificate_status : ApiType
  a_certificate_summary : ApiType
  a_custom_attribute : ApiType
  a_distinguished_name : ApiType
  a_dns_prevalidation_details : ApiType
  a_domain_validation : ApiType
  a_domain_validation_option : ApiType
  a_extended_key_usage : ApiType
  a_failure_details : ApiType
  a_filters : ApiType
  a_general_name : ApiType
  a_http_redirect : ApiType
  a_key_usage : ApiType
  a_other_name : ApiType
  a_renewal_summary : ApiType
  a_resource_record : ApiType
  a_tag : ApiType
  a_timestamp_range : ApiType
  a_x509_attribute_filter : ApiType
  a_x509_attributes : ApiType
  a_certificate : ApiType
  a_certificate_list : ApiType

module _ (X : External) where
  unfoldable pub Value : ApiType → Type 0
  Value a_acm_certificate_metadata = AcmCertificateMetadata X
  Value a_acm_certificate_metadata_filter = AcmCertificateMetadataFilter
  Value a_acme_account = AcmeAccount
  Value a_acme_account_summary = AcmeAccountSummary
  Value a_acme_endpoint = AcmeEndpoint
  Value a_acme_endpoint_summary = AcmeEndpointSummary
  Value a_certificate_detail = CertificateDetail X
  Value a_certificate_filter = CertificateFilter
  Value a_certificate_options = CertificateOptions
  Value a_certificate_search_result = CertificateSearchResult
  Value a_certificate_spec = CertificateSpec X
  Value a_certificate_status = CertificateStatus X
  Value a_certificate_summary = CertificateSummary X
  Value a_custom_attribute = CustomAttribute
  Value a_distinguished_name = DistinguishedName
  Value a_dns_prevalidation_details = DnsPrevalidationDetails
  Value a_domain_validation = DomainValidation
  Value a_domain_validation_option = DomainValidationOption
  Value a_extended_key_usage = ExtendedKeyUsage
  Value a_failure_details = FailureDetails
  Value a_filters = Filters
  Value a_general_name = GeneralName
  Value a_http_redirect = HttpRedirect
  Value a_key_usage = KeyUsage
  Value a_other_name = OtherName
  Value a_renewal_summary = RenewalSummary X
  Value a_resource_record = ResourceRecord
  Value a_tag = Tag
  Value a_timestamp_range = TimestampRange X
  Value a_x509_attribute_filter = X509AttributeFilter
  Value a_x509_attributes = X509Attributes X
  Value a_certificate = Certificate X
  Value a_certificate_list = CertificateList X

  unfoldable pub deep : (t : ApiType) → Deep (Value t)
  unfolding Value
  deep a_acm_certificate_metadata = acm_certificate_metadata X
  deep a_acm_certificate_metadata_filter = acm_certificate_metadata_filter
  deep a_acme_account = acme_account
  deep a_acme_account_summary = acme_account_summary
  deep a_acme_endpoint = acme_endpoint
  deep a_acme_endpoint_summary = acme_endpoint_summary
  deep a_certificate_detail = certificate_detail X
  deep a_certificate_filter = certificate_filter
  deep a_certificate_options = certificate_options
  deep a_certificate_search_result = certificate_search_result
  deep a_certificate_spec = certificate_spec X
  deep a_certificate_status = certificate_status X
  deep a_certificate_summary = certificate_summary X
  deep a_custom_attribute = custom_attribute
  deep a_distinguished_name = distinguished_name
  deep a_dns_prevalidation_details = dns_prevalidation_details
  deep a_domain_validation = domain_validation
  deep a_domain_validation_option = domain_validation_option
  deep a_extended_key_usage = extended_key_usage
  deep a_failure_details = failure_details
  deep a_filters = filters
  deep a_general_name = general_name
  deep a_http_redirect = http_redirect
  deep a_key_usage = key_usage
  deep a_other_name = other_name
  deep a_renewal_summary = renewal_summary X
  deep a_resource_record = resource_record
  deep a_tag = tag
  deep a_timestamp_range = timestamp_range X
  deep a_x509_attribute_filter = x509_attribute_filter
  deep a_x509_attributes = x509_attributes X
  deep a_certificate = certificate X
  deep a_certificate_list = certificate_list X

  -- `if in == nil { return nil }; out := new(T); in.DeepCopyInto(out); return out`
  abbrev pub deep_copy_of : (t : ApiType) → Ref (Value t) → Alloc (Ref (Value t))
  deep_copy_of t = copy_ref (deep t)

  deep-IsDeep : IsExternal X → (t : ApiType) → IsDeep (deep t)
  unfolding Value deep
  deep-IsDeep L a_acm_certificate_metadata = acm_certificate_metadata-IsDeep X L
  deep-IsDeep L a_acm_certificate_metadata_filter = acm_certificate_metadata_filter-IsDeep
  deep-IsDeep L a_acme_account = acme_account-IsDeep
  deep-IsDeep L a_acme_account_summary = acme_account_summary-IsDeep
  deep-IsDeep L a_acme_endpoint = acme_endpoint-IsDeep
  deep-IsDeep L a_acme_endpoint_summary = acme_endpoint_summary-IsDeep
  deep-IsDeep L a_certificate_detail = certificate_detail-IsDeep X L
  deep-IsDeep L a_certificate_filter = certificate_filter-IsDeep
  deep-IsDeep L a_certificate_options = certificate_options-IsDeep
  deep-IsDeep L a_certificate_search_result = certificate_search_result-IsDeep
  deep-IsDeep L a_certificate_spec = certificate_spec-IsDeep X L
  deep-IsDeep L a_certificate_status = certificate_status-IsDeep X L
  deep-IsDeep L a_certificate_summary = certificate_summary-IsDeep X L
  deep-IsDeep L a_custom_attribute = custom_attribute-IsDeep
  deep-IsDeep L a_distinguished_name = distinguished_name-IsDeep
  deep-IsDeep L a_dns_prevalidation_details = dns_prevalidation_details-IsDeep
  deep-IsDeep L a_domain_validation = domain_validation-IsDeep
  deep-IsDeep L a_domain_validation_option = domain_validation_option-IsDeep
  deep-IsDeep L a_extended_key_usage = extended_key_usage-IsDeep
  deep-IsDeep L a_failure_details = failure_details-IsDeep
  deep-IsDeep L a_filters = filters-IsDeep
  deep-IsDeep L a_general_name = general_name-IsDeep
  deep-IsDeep L a_http_redirect = http_redirect-IsDeep
  deep-IsDeep L a_key_usage = key_usage-IsDeep
  deep-IsDeep L a_other_name = other_name-IsDeep
  deep-IsDeep L a_renewal_summary = renewal_summary-IsDeep X L
  deep-IsDeep L a_resource_record = resource_record-IsDeep
  deep-IsDeep L a_tag = tag-IsDeep
  deep-IsDeep L a_timestamp_range = timestamp_range-IsDeep X L
  deep-IsDeep L a_x509_attribute_filter = x509_attribute_filter-IsDeep
  deep-IsDeep L a_x509_attributes = x509_attributes-IsDeep X L
  deep-IsDeep L a_certificate = certificate-IsDeep X L
  deep-IsDeep L a_certificate_list = certificate_list-IsDeep X L

  -- If copies of the types of other modules are deep, then `DeepCopy` of a value of any type of the
  -- API, made where all its addresses are allocated, has the same contents, and no address of the
  -- copy, at any depth, is one of the original's.
  pub deep_copy_of-IsCopy :
      (t : ApiType) (x : Ref (Value t)) (n : ℕ)
      → IsExternal X
      → Allocated n ((ref (deep t)).addresses x)
      → IsCopy (ref (deep t)) x (deep_copy_of t x n).0
  deep_copy_of-IsCopy t x n L old =
      copied-IsCopy (ref (deep t)) x n (ref-IsDeep (deep t) (deep-IsDeep L t)) old
