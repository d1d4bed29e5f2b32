-- ===== src/Memory/Names.antt =====
-- The copies of the types of names (zz_generated.deepcopy.go).
use aws_controllers_k8s_acm.Base.{ap, String}
use aws_controllers_k8s_acm.Memory.{Ref, Alloc, return, ◌>>=◌, Deep, ◌⊕◌, ◌&◌, ◌⊗◌, leaf}
use aws_controllers_k8s_acm.Memory.Laws.{IsDeep, leaf-IsDeep, both-IsDeep}

pub record CustomAttribute : Type 0 where
  pub object_identifier : Ref String
  pub value : Ref String

unfoldable pub copy_custom_attribute : CustomAttribute → Alloc CustomAttribute
copy_custom_attribute x = do
  object_identifier ← leaf.copy x.object_identifier
  value ← leaf.copy x.value
  return (record x { object_identifier = object_identifier; value = value })

abbrev CustomAttributeFields : Type 0
CustomAttributeFields = Ref String ⊕ Ref String

abbrev fields_of_custom_attribute : CustomAttribute → CustomAttributeFields
fields_of_custom_attribute x = x.object_identifier & x.value

abbrev custom_attribute_from : CustomAttributeFields → CustomAttribute
custom_attribute_from (object_identifier & value) = record {
  object_identifier = object_identifier;
  value = value;
}

abbrev custom_attribute_fields : Deep CustomAttributeFields
custom_attribute_fields = leaf ⊗ leaf

abbrev pub custom_attribute : Deep CustomAttribute
custom_attribute = record {
  copy = copy_custom_attribute;
  addresses = λ x. custom_attribute_fields.addresses (fields_of_custom_attribute x);
  strip = λ x. custom_attribute_from (custom_attribute_fields.strip (fields_of_custom_attribute x));
}

pub custom_attribute-IsDeep : IsDeep custom_attribute
unfolding copy_custom_attribute
custom_attribute-IsDeep x n =
    let parts = both-IsDeep leaf-IsDeep leaf-IsDeep (fields_of_custom_attribute x) n in
    record { same = ap custom_attribute_from parts.same; fresh = parts.fresh }

pub record GeneralName : Type 0 where
  pub dns_name : Ref String
  pub ip_address : Ref String
  pub registered_id : Ref String
  pub rfc822_name : Ref String
  pub uniform_resource_identifier : Ref String

unfoldable pub copy_general_name : GeneralName → Alloc GeneralName
copy_general_name x = do
  dns_name ← leaf.copy x.dns_name
  ip_address ← leaf.copy x.ip_address
  registered_id ← leaf.copy x.registered_id
  rfc822_name ← leaf.copy x.rfc822_name
  uniform_resource_identifier ← leaf.copy x.uniform_resource_identifier
  return (record x {
    dns_name = dns_name;
    ip_address = ip_address;
    registered_id = registered_id;
    rfc822_name = rfc822_name;
    uniform_resource_identifier = uniform_resource_identifier;
  })

abbrev GeneralNameFields : Type 0
GeneralNameFields = Ref String ⊕ Ref String ⊕ Ref String ⊕ Ref String ⊕ Ref String

abbrev fields_of_general_name : GeneralName → GeneralNameFields
fields_of_general_name x =
    x.dns_name & x.ip_address & x.registered_id & x.rfc822_name & x.uniform_resource_identifier

abbrev general_name_from : GeneralNameFields → GeneralName
general_name_from
      (dns_name & ip_address & registered_id & rfc822_name & uniform_resource_identifier) =
    record {
      dns_name = dns_name;
      ip_address = ip_address;
      registered_id = registered_id;
      rfc822_name = rfc822_name;
      uniform_resource_identifier = uniform_resource_identifier;
    }

abbrev general_name_fields : Deep GeneralNameFields
general_name_fields = leaf ⊗ leaf ⊗ leaf ⊗ leaf ⊗ leaf

abbrev pub general_name : Deep GeneralName
general_name = record {
  copy = copy_general_name;
  addresses = λ x. general_name_fields.addresses (fields_of_general_name x);
  strip = λ x. general_name_from (general_name_fields.strip (fields_of_general_name x));
}

pub general_name-IsDeep : IsDeep general_name
unfolding copy_general_name
general_name-IsDeep x n =
    let parts =
      both-IsDeep leaf-IsDeep
        (both-IsDeep leaf-IsDeep (both-IsDeep leaf-IsDeep (both-IsDeep leaf-IsDeep leaf-IsDeep)))
        (fields_of_general_name x) n in
    record { same = ap general_name_from parts.same; fresh = parts.fresh }

pub record OtherName : Type 0 where
  pub object_identifier : Ref String
  pub value : Ref String

unfoldable pub copy_other_name : OtherName → Alloc OtherName
copy_other_name x = do
  object_identifier ← leaf.copy x.object_identifier
  value ← leaf.copy x.value
  return (record x { object_identifier = object_identifier; value = value })

abbrev OtherNameFields : Type 0
OtherNameFields = Ref String ⊕ Ref String

abbrev fields_of_other_name : OtherName → OtherNameFields
fields_of_other_name x = x.object_identifier & x.value

abbrev other_name_from : OtherNameFields → OtherName
other_name_from (object_identifier & value) = record {
  object_identifier = object_identifier;
  value = value;
}

abbrev other_name_fields : Deep OtherNameFields
other_name_fields = leaf ⊗ leaf

abbrev pub other_name : Deep OtherName
other_name = record {
  copy = copy_other_name;
  addresses = λ x. other_name_fields.addresses (fields_of_other_name x);
  strip = λ x. other_name_from (other_name_fields.strip (fields_of_other_name x));
}

pub other_name-IsDeep : IsDeep other_name
unfolding copy_other_name
other_name-IsDeep x n =
    let parts = both-IsDeep leaf-IsDeep leaf-IsDeep (fields_of_other_name x) n in
    record { same = ap other_name_from parts.same; fresh = parts.fresh }
