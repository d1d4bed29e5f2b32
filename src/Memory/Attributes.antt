-- ===== src/Memory/Attributes.antt =====
-- The copies of the attributes of certificates that searches are for (zz_generated.deepcopy.go).
use aws_controllers_k8s_acm.Base.{ap, String}
use aws_controllers_k8s_acm.Memory.{
  Ref, Slice, Alloc, return, ◌>>=◌, Deep, ◌⊕◌, ◌&◌, ◌⊗◌, leaf, ref, slice, External,
}
use aws_controllers_k8s_acm.Memory.Laws.{
  IsDeep, IsExternal, leaf-IsDeep, both-IsDeep, ref-IsDeep, slice-IsDeep,
}

module _ (X : External) where
  pub record TimestampRange : Type 0 where
    pub end : Ref X.Time
    pub start : Ref X.Time

  unfoldable pub copy_timestamp_range : TimestampRange → Alloc TimestampRange
  copy_timestamp_range x = do
    end ← (ref X.time).copy x.end
    start ← (ref X.time).copy x.start
    return (record x { end = end; start = start })

  abbrev TimestampRangeFields : Type 0
  TimestampRangeFields = Ref X.Time ⊕ Ref X.Time

  abbrev fields_of_timestamp_range : TimestampRange → TimestampRangeFields
  fields_of_timestamp_range x = x.end & x.start

  abbrev timestamp_range_from : TimestampRangeFields → TimestampRange
  timestamp_range_from (end & start) = record { end = end; start = start }

  abbrev timestamp_range_fields : Deep TimestampRangeFields
  timestamp_range_fields = ref X.time ⊗ ref X.time

  abbrev pub timestamp_range : Deep TimestampRange
  timestamp_range = record {
    copy = copy_timestamp_range;
    addresses = λ x. timestamp_range_fields.addresses (fields_of_timestamp_range x);
    strip = λ x. timestamp_range_from (timestamp_range_fields.strip (fields_of_timestamp_range x));
  }

  pub timestamp_range-IsDeep : IsExternal X → IsDeep timestamp_range
  unfolding copy_timestamp_range
  timestamp_range-IsDeep L x n =
      let parts =
        both-IsDeep (ref-IsDeep X.time L.time) (ref-IsDeep X.time L.time)
          (fields_of_timestamp_range x) n in
      record { same = ap timestamp_range_from parts.same; fresh = parts.fresh }

pub record X509AttributeFilter : Type 0 where
  pub extended_key_usage : Ref String
  pub key_algorithm : Ref String
  pub key_usage : Ref String

unfoldable pub copy_x509_attribute_filter : X509AttributeFilter → Alloc X509AttributeFilter
copy_x509_attribute_filter x = do
  extended_key_usage ← leaf.copy x.extended_key_usage
  key_algorithm ← leaf.copy x.key_algorithm
  key_usage ← leaf.copy x.key_usage
  return (record x {
    extended_key_usage = extended_key_usage;
    key_algorithm = key_algorithm;
    key_usage = key_usage;
  })

abbrev X509AttributeFilterFields : Type 0
X509AttributeFilterFields = Ref String ⊕ Ref String ⊕ Ref String

abbrev fields_of_x509_attribute_filter : X509AttributeFilter → X509AttributeFilterFields
fields_of_x509_attribute_filter x = x.extended_key_usage & x.key_algorithm & x.key_usage

abbrev x509_attribute_filter_from : X509AttributeFilterFields → X509AttributeFilter
x509_attribute_filter_from (extended_key_usage & key_algorithm & key_usage) = record {
  extended_key_usage = extended_key_usage;
  key_algorithm = key_algorithm;
  key_usage = key_usage;
}

abbrev x509_attribute_filter_fields : Deep X509AttributeFilterFields
x509_attribute_filter_fields = leaf ⊗ leaf ⊗ leaf

abbrev pub x509_attribute_filter : Deep X509AttributeFilter
x509_attribute_filter = record {
  copy = copy_x509_attribute_filter;
  addresses = λ x. x509_attribute_filter_fields.addresses (fields_of_x509_attribute_filter x);
  strip = λ x.
      x509_attribute_filter_from
        (x509_attribute_filter_fields.strip (fields_of_x509_attribute_filter x));
}

pub x509_attribute_filter-IsDeep : IsDeep x509_attribute_filter
unfolding copy_x509_attribute_filter
x509_attribute_filter-IsDeep x n =
    let parts =
      both-IsDeep leaf-IsDeep (both-IsDeep leaf-IsDeep leaf-IsDeep)
        (fields_of_x509_attribute_filter x) n in
    record { same = ap x509_attribute_filter_from parts.same; fresh = parts.fresh }

module _ (X : External) where
  pub record X509Attributes : Type 0 where
    pub extended_key_usages : Slice (Ref String)
    pub key_algorithm : Ref String
    pub key_usages : Slice (Ref String)
    pub not_after : Ref X.Time
    pub not_before : Ref X.Time

  unfoldable pub copy_x509_attributes : X509Attributes → Alloc X509Attributes
  copy_x509_attributes x = do
    extended_key_usages ← (slice leaf).copy x.extended_key_usages
    key_algorithm ← leaf.copy x.key_algorithm
    key_usages ← (slice leaf).copy x.key_usages
    not_after ← (ref X.time).copy x.not_after
    not_before ← (ref X.time).copy x.not_before
    return (record x {
      extended_key_usages = extended_key_usages;
      key_algorithm = key_algorithm;
      key_usages = key_usages;
      not_after = not_after;
      not_before = not_before;
    })

  abbrev X509AttributesFields : Type 0
  X509AttributesFields =
      Slice (Ref String) ⊕ Ref String ⊕ Slice (Ref String) ⊕ Ref X.Time ⊕ Ref X.Time

  abbrev fields_of_x509_attributes : X509Attributes → X509AttributesFields
  fields_of_x509_attributes x =
      x.extended_key_usages & x.key_algorithm & x.key_usages & x.not_after & x.not_before

  abbrev x509_attributes_from : X509AttributesFields → X509Attributes
  x509_attributes_from (extended_key_usages & key_algorithm & key_usages & not_after & not_before) =
      record {
        extended_key_usages = extended_key_usages;
        key_algorithm = key_algorithm;
        key_usages = key_usages;
        not_after = not_after;
        not_before = not_before;
      }

  abbrev x509_attributes_fields : Deep X509AttributesFields
  x509_attributes_fields = slice leaf ⊗ leaf ⊗ slice leaf ⊗ ref X.time ⊗ ref X.time

  abbrev pub x509_attributes : Deep X509Attributes
  x509_attributes = record {
    copy = copy_x509_attributes;
    addresses = λ x. x509_attributes_fields.addresses (fields_of_x509_attributes x);
    strip = λ x. x509_attributes_from (x509_attributes_fields.strip (fields_of_x509_attributes x));
  }

  pub x509_attributes-IsDeep : IsExternal X → IsDeep x509_attributes
  unfolding copy_x509_attributes
  x509_attributes-IsDeep L x n =
      let parts =
        both-IsDeep (slice-IsDeep leaf leaf-IsDeep)
          (both-IsDeep leaf-IsDeep (
            both-IsDeep (slice-IsDeep leaf leaf-IsDeep)
              (both-IsDeep (ref-IsDeep X.time L.time) (ref-IsDeep X.time L.time))))
          (fields_of_x509_attributes x) n in
      record { same = ap x509_attributes_from parts.same; fresh = parts.fresh }
