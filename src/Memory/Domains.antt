-- ===== src/Memory/Domains.antt =====
-- The copies of the parts of a validation of a domain (zz_generated.deepcopy.go).
use aws_controllers_k8s_acm.Base.{ap, String}
use aws_controllers_k8s_acm.Memory.{Ref, Alloc, return, ◌>>=◌, Deep, ◌⊕◌, ◌&◌, ◌⊗◌, leaf}
use aws_controllers_k8s_acm.Memory.Laws.{IsDeep, leaf-IsDeep, both-IsDeep}

pub record DomainValidationOption : Type 0 where
  pub domain_name : Ref String
  pub validation_domain : Ref String

unfoldable pub copy_domain_validation_option : DomainValidationOption → Alloc DomainValidationOption
copy_domain_validation_option x = do
  domain_name ← leaf.copy x.domain_name
  validation_domain ← leaf.copy x.validation_domain
  return (record x { domain_name = domain_name; validation_domain = validation_domain })

abbrev DomainValidationOptionFields : Type 0
DomainValidationOptionFields = Ref String ⊕ Ref String

abbrev fields_of_domain_validation_option : DomainValidationOption → DomainValidationOptionFields
fields_of_domain_validation_option x = x.domain_name & x.validation_domain

abbrev domain_validation_option_from : DomainValidationOptionFields → DomainValidationOption
domain_validation_option_from (domain_name & validation_domain) = record {
  domain_name = domain_name;
  validation_domain = validation_domain;
}

abbrev domain_validation_option_fields : Deep DomainValidationOptionFields
domain_validation_option_fields = leaf ⊗ leaf

abbrev pub domain_validation_option : Deep DomainValidationOption
domain_validation_option = record {
  copy = copy_domain_validation_option;
  addresses = λ x. domain_validation_option_fields.addresses (fields_of_domain_validation_option x);
  strip = λ x.
      domain_validation_option_from
        (domain_validation_option_fields.strip (fields_of_domain_validation_option x));
}

pub domain_validation_option-IsDeep : IsDeep domain_validation_option
unfolding copy_domain_validation_option
domain_validation_option-IsDeep x n =
    let parts = both-IsDeep leaf-IsDeep leaf-IsDeep (fields_of_domain_validation_option x) n in
    record { same = ap domain_validation_option_from parts.same; fresh = parts.fresh }

pub record HttpRedirect : Type 0 where
  pub redirect_from : Ref String
  pub redirect_to : Ref String

unfoldable pub copy_http_redirect : HttpRedirect → Alloc HttpRedirect
copy_http_redirect x = do
  redirect_from ← leaf.copy x.redirect_from
  redirect_to ← leaf.copy x.redirect_to
  return (record x { redirect_from = redirect_from; redirect_to = redirect_to })

abbrev HttpRedirectFields : Type 0
HttpRedirectFields = Ref String ⊕ Ref String

abbrev fields_of_http_redirect : HttpRedirect → HttpRedirectFields
fields_of_http_redirect x = x.redirect_from & x.redirect_to

abbrev http_redirect_from : HttpRedirectFields → HttpRedirect
http_redirect_from (redirect_from & redirect_to) = record {
  redirect_from = redirect_from;
  redirect_to = redirect_to;
}

abbrev http_redirect_fields : Deep HttpRedirectFields
http_redirect_fields = leaf ⊗ leaf

abbrev pub http_redirect : Deep HttpRedirect
http_redirect = record {
  copy = copy_http_redirect;
  addresses = λ x. http_redirect_fields.addresses (fields_of_http_redirect x);
  strip = λ x. http_redirect_from (http_redirect_fields.strip (fields_of_http_redirect x));
}

pub http_redirect-IsDeep : IsDeep http_redirect
unfolding copy_http_redirect
http_redirect-IsDeep x n =
    let parts = both-IsDeep leaf-IsDeep leaf-IsDeep (fields_of_http_redirect x) n in
    record { same = ap http_redirect_from parts.same; fresh = parts.fresh }

pub record ResourceRecord : Type 0 where
  pub name : Ref String
  pub type_ : Ref String
  pub value : Ref String

unfoldable pub copy_resource_record : ResourceRecord → Alloc ResourceRecord
copy_resource_record x = do
  name ← leaf.copy x.name
  type_ ← leaf.copy x.type_
  value ← leaf.copy x.value
  return (record x { name = name; type_ = type_; value = value })

abbrev ResourceRecordFields : Type 0
ResourceRecordFields = Ref String ⊕ Ref String ⊕ Ref String

abbrev fields_of_resource_record : ResourceRecord → ResourceRecordFields
fields_of_resource_record x = x.name & x.type_ & x.value

abbrev resource_record_from : ResourceRecordFields → ResourceRecord
resource_record_from (name & type_ & value) = record { name = name; type_ = type_; value = value }

abbrev resource_record_fields : Deep ResourceRecordFields
resource_record_fields = leaf ⊗ leaf ⊗ leaf

abbrev pub resource_record : Deep ResourceRecord
resource_record = record {
  copy = copy_resource_record;
  addresses = λ x. resource_record_fields.addresses (fields_of_resource_record x);
  strip = λ x. resource_record_from (resource_record_fields.strip (fields_of_resource_record x));
}

pub resource_record-IsDeep : IsDeep resource_record
unfolding copy_resource_record
resource_record-IsDeep x n =
    let parts =
      both-IsDeep leaf-IsDeep (both-IsDeep leaf-IsDeep leaf-IsDeep) (fields_of_resource_record x)
        n in
    record { same = ap resource_record_from parts.same; fresh = parts.fresh }
