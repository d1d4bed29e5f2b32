-- ===== src/Memory/Search.antt =====
-- The copies of the types of searches (zz_generated.deepcopy.go).
use aws_controllers_k8s_acm.Base.{ap, String}
use aws_controllers_k8s_acm.Memory.{
  Ref, Slice, Alloc, return, ◌>>=◌, Deep, ◌⊕◌, ◌&◌, ◌⊗◌, leaf, slice,
}
use aws_controllers_k8s_acm.Memory.Laws.{IsDeep, leaf-IsDeep, both-IsDeep, slice-IsDeep}

pub record CertificateFilter : Type 0 where
  pub certificate_arn : Ref String

unfoldable pub copy_certificate_filter : CertificateFilter → Alloc CertificateFilter
copy_certificate_filter x = do
  certificate_arn ← leaf.copy x.certificate_arn
  return (record x { certificate_arn = certificate_arn })

abbrev pub certificate_filter : Deep CertificateFilter
certificate_filter = record {
  copy = copy_certificate_filter;
  addresses = λ x. leaf.addresses x.certificate_arn;
  strip = λ x. record x { certificate_arn = leaf.strip x.certificate_arn };
}

pub certificate_filter-IsDeep : IsDeep certificate_filter
unfolding copy_certificate_filter
certificate_filter-IsDeep x n =
    let part = leaf-IsDeep x.certificate_arn n in
    record { same = ap (λ a. record x { certificate_arn = a }) part.same; fresh = part.fresh }

pub record CertificateSearchResult : Type 0 where
  pub certificate_arn : Ref String

unfoldable pub copy_certificate_search_result :
    CertificateSearchResult → Alloc CertificateSearchResult
copy_certificate_search_result x = do
  certificate_arn ← leaf.copy x.certificate_arn
  return (record x { certificate_arn = certificate_arn })

abbrev pub certificate_search_result : Deep CertificateSearchResult
certificate_search_result = record {
  copy = copy_certificate_search_result;
  addresses = λ x. leaf.addresses x.certificate_arn;
  strip = λ x. record x { certificate_arn = leaf.strip x.certificate_arn };
}

pub certificate_search_result-IsDeep : IsDeep certificate_search_result
unfolding copy_certificate_search_result
certificate_search_result-IsDeep x n =
    let part = leaf-IsDeep x.certificate_arn n in
    record { same = ap (λ a. record x { certificate_arn = a }) part.same; fresh = part.fresh }

pub record FailureDetails : Type 0 where
  pub message : Ref String

unfoldable pub copy_failure_details : FailureDetails → Alloc FailureDetails
copy_failure_details x = do message ← leaf.copy x.message; return (record x { message = message })

abbrev pub failure_details : Deep FailureDetails
failure_details = record {
  copy = copy_failure_details;
  addresses = λ x. leaf.addresses x.message;
  strip = λ x. record x { message = leaf.strip x.message };
}

pub failure_details-IsDeep : IsDeep failure_details
unfolding copy_failure_details
failure_details-IsDeep x n =
    let part = leaf-IsDeep x.message n in
    record { same = ap (λ a. record x { message = a }) part.same; fresh = part.fresh }

pub record Filters : Type 0 where
  pub export_option : Ref String
  pub extended_key_usage : Slice (Ref String)
  pub key_types : Slice (Ref String)
  pub key_usage : Slice (Ref String)
  pub managed_by : Ref String

unfoldable pub copy_filters : Filters → Alloc Filters
copy_filters x = do
  export_option ← leaf.copy x.export_option
  extended_key_usage ← (slice leaf).copy x.extended_key_usage
  key_types ← (slice leaf).copy x.key_types
  key_usage ← (slice leaf).copy x.key_usage
  managed_by ← leaf.copy x.managed_by
  return (record x {
    export_option = export_option;
    extended_key_usage = extended_key_usage;
    key_types = key_types;
    key_usage = key_usage;
    managed_by = managed_by;
  })

abbrev FiltersFields : Type 0
FiltersFields =
    Ref String ⊕ Slice (Ref String) ⊕ Slice (Ref String) ⊕ Slice (Ref String) ⊕ Ref String

abbrev fields_of_filters : Filters → FiltersFields
fields_of_filters x =
    x.export_option & x.extended_key_usage & x.key_types & x.key_usage & x.managed_by

abbrev filters_from : FiltersFields → Filters
filters_from (export_option & extended_key_usage & key_types & key_usage & managed_by) = record {
  export_option = export_option;
  extended_key_usage = extended_key_usage;
  key_types = key_types;
  key_usage = key_usage;
  managed_by = managed_by;
}

abbrev filters_fields : Deep FiltersFields
filters_fields = leaf ⊗ slice leaf ⊗ slice leaf ⊗ slice leaf ⊗ leaf

abbrev pub filters : Deep Filters
filters = record {
  copy = copy_filters;
  addresses = λ x. filters_fields.addresses (fields_of_filters x);
  strip = λ x. filters_from (filters_fields.strip (fields_of_filters x));
}

pub filters-IsDeep : IsDeep filters
unfolding copy_filters
filters-IsDeep x n =
    let parts =
      both-IsDeep leaf-IsDeep
        (both-IsDeep (slice-IsDeep leaf leaf-IsDeep) (
          both-IsDeep (slice-IsDeep leaf leaf-IsDeep)
            (both-IsDeep (slice-IsDeep leaf leaf-IsDeep) leaf-IsDeep)))
        (fields_of_filters x) n in
    record { same = ap filters_from parts.same; fresh = parts.fresh }
