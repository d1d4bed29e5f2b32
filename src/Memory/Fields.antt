-- ===== src/Memory/Fields.antt =====
-- The copies of small parts of a certificate (zz_generated.deepcopy.go).
use aws_controllers_k8s_acm.Base.{ap, String}
use aws_controllers_k8s_acm.Memory.{Ref, Alloc, return, ◌>>=◌, Deep, ◌⊕◌, ◌&◌, ◌⊗◌, leaf}
use aws_controllers_k8s_acm.Memory.Laws.{IsDeep, leaf-IsDeep, both-IsDeep}

pub record CertificateOptions : Type 0 where
  pub certificate_transparency_logging_preference : Ref String
  pub export : Ref String

unfoldable pub copy_certificate_options : CertificateOptions → Alloc CertificateOptions
copy_certificate_options x = do
  certificate_transparency_logging_preference ←
      leaf.copy x.certificate_transparency_logging_preference
  export ← leaf.copy x.export
  return (record x {
    certificate_transparency_logging_preference = certificate_transparency_logging_preference;
    export = export;
  })

abbrev CertificateOptionsFields : Type 0
CertificateOptionsFields = Ref String ⊕ Ref String

abbrev fields_of_certificate_options : CertificateOptions → CertificateOptionsFields
fields_of_certificate_options x = x.certificate_transparency_logging_preference & x.export

abbrev certificate_options_from : CertificateOptionsFields → CertificateOptions
certificate_options_from (certificate_transparency_logging_preference & export) = record {
  certificate_transparency_logging_preference = certificate_transparency_logging_preference;
  export = export;
}

abbrev certificate_options_fields : Deep CertificateOptionsFields
certificate_options_fields = leaf ⊗ leaf

abbrev pub certificate_options : Deep CertificateOptions
certificate_options = record {
  copy = copy_certificate_options;
  addresses = λ x. certificate_options_fields.addresses (fields_of_certificate_options x);
  strip = λ x.
      certificate_options_from (certificate_options_fields.strip (fields_of_certificate_options x));
}

pub certificate_options-IsDeep : IsDeep certificate_options
unfolding copy_certificate_options
certificate_options-IsDeep x n =
    let parts = both-IsDeep leaf-IsDeep leaf-IsDeep (fields_of_certificate_options x) n in
    record { same = ap certificate_options_from parts.same; fresh = parts.fresh }

pub record ExtendedKeyUsage : Type 0 where
  pub name : Ref String
  pub oid : Ref String

unfoldable pub copy_extended_key_usage : ExtendedKeyUsage → Alloc ExtendedKeyUsage
copy_extended_key_usage x = do
  name ← leaf.copy x.name
  oid ← leaf.copy x.oid
  return (record x { name = name; oid = oid })

abbrev ExtendedKeyUsageFields : Type 0
ExtendedKeyUsageFields = Ref String ⊕ Ref String

abbrev fields_of_extended_key_usage : ExtendedKeyUsage → ExtendedKeyUsageFields
fields_of_extended_key_usage x = x.name & x.oid

abbrev extended_key_usage_from : ExtendedKeyUsageFields → ExtendedKeyUsage
extended_key_usage_from (name & oid) = record { name = name; oid = oid }

abbrev extended_key_usage_fields : Deep ExtendedKeyUsageFields
extended_key_usage_fields = leaf ⊗ leaf

abbrev pub extended_key_usage : Deep ExtendedKeyUsage
extended_key_usage = record {
  copy = copy_extended_key_usage;
  addresses = λ x. extended_key_usage_fields.addresses (fields_of_extended_key_usage x);
  strip = λ x.
      extended_key_usage_from (extended_key_usage_fields.strip (fields_of_extended_key_usage x));
}

pub extended_key_usage-IsDeep : IsDeep extended_key_usage
unfolding copy_extended_key_usage
extended_key_usage-IsDeep x n =
    let parts = both-IsDeep leaf-IsDeep leaf-IsDeep (fields_of_extended_key_usage x) n in
    record { same = ap extended_key_usage_from parts.same; fresh = parts.fresh }

pub record KeyUsage : Type 0 where
  pub name : Ref String

unfoldable pub copy_key_usage : KeyUsage → Alloc KeyUsage
copy_key_usage x = do name ← leaf.copy x.name; return (record x { name = name })

abbrev pub key_usage : Deep KeyUsage
key_usage = record {
  copy = copy_key_usage;
  addresses = λ x. leaf.addresses x.name;
  strip = λ x. record x { name = leaf.strip x.name };
}

pub key_usage-IsDeep : IsDeep key_usage
unfolding copy_key_usage
key_usage-IsDeep x n =
    let part = leaf-IsDeep x.name n in
    record { same = ap (λ a. record x { name = a }) part.same; fresh = part.fresh }

pub record Tag : Type 0 where
  pub key : Ref String
  pub value : Ref String

unfoldable pub copy_tag : Tag → Alloc Tag
copy_tag x = do
  key ← leaf.copy x.key
  value ← leaf.copy x.value
  return (record x { key = key; value = value })

abbrev TagFields : Type 0
TagFields = Ref String ⊕ Ref String

abbrev fields_of_tag : Tag → TagFields
fields_of_tag x = x.key & x.value

abbrev tag_from : TagFields → Tag
tag_from (key & value) = record { key = key; value = value }

abbrev tag_fields : Deep TagFields
tag_fields = leaf ⊗ leaf

abbrev pub tag : Deep Tag
tag = record {
  copy = copy_tag;
  addresses = λ x. tag_fields.addresses (fields_of_tag x);
  strip = λ x. tag_from (tag_fields.strip (fields_of_tag x));
}

pub tag-IsDeep : IsDeep tag
unfolding copy_tag
tag-IsDeep x n =
    let parts = both-IsDeep leaf-IsDeep leaf-IsDeep (fields_of_tag x) n in
    record { same = ap tag_from parts.same; fresh = parts.fresh }
