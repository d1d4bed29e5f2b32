-- ===== src/Memory/Subject.antt =====
-- The copy of `DistinguishedName` (zz_generated.deepcopy.go).
use aws_controllers_k8s_acm.Base.{ap, String}
use aws_controllers_k8s_acm.Memory.{Ref, Alloc, return, ◌>>=◌, Deep, ◌⊕◌, ◌&◌, ◌⊗◌, leaf}
use aws_controllers_k8s_acm.Memory.Laws.{IsDeep, leaf-IsDeep, both-IsDeep}

pub record DistinguishedName : Type 0 where
  pub common_name : Ref String
  pub country : Ref String
  pub distinguished_name_qualifier : Ref String
  pub generation_qualifier : Ref String
  pub given_name : Ref String
  pub initials : Ref String
  pub locality : Ref String
  pub organization : Ref String
  pub organizational_unit : Ref String
  pub pseudonym : Ref String
  pub serial_number : Ref String
  pub state : Ref String
  pub surname : Ref String
  pub title : Ref String

unfoldable pub copy_distinguished_name : DistinguishedName → Alloc DistinguishedName
copy_distinguished_name x = do
  common_name ← leaf.copy x.common_name
  country ← leaf.copy x.country
  distinguished_name_qualifier ← leaf.copy x.distinguished_name_qualifier
  generation_qualifier ← leaf.copy x.generation_qualifier
  given_name ← leaf.copy x.given_name
  initials ← leaf.copy x.initials
  locality ← leaf.copy x.locality
  organization ← leaf.copy x.organization
  organizational_unit ← leaf.copy x.organizational_unit
  pseudonym ← leaf.copy x.pseudonym
  serial_number ← leaf.copy x.serial_number
  state ← leaf.copy x.state
  surname ← leaf.copy x.surname
  title ← leaf.copy x.title
  return (record x {
    common_name = common_name;
    country = country;
    distinguished_name_qualifier = distinguished_name_qualifier;
    generation_qualifier = generation_qualifier;
    given_name = given_name;
    initials = initials;
    locality = locality;
    organization = organization;
    organizational_unit = organizational_unit;
    pseudonym = pseudonym;
    serial_number = serial_number;
    state = state;
    surname = surname;
    title = title;
  })

abbrev DistinguishedNameFields : Type 0
DistinguishedNameFields =
    Ref String
    ⊕ Ref String
    ⊕ Ref String
    ⊕ Ref String
    ⊕ Ref String
    ⊕ Ref String
    ⊕ Ref String
    ⊕ Ref String
    ⊕ Ref String
    ⊕ Ref String
    ⊕ Ref String
    ⊕ Ref String
    ⊕ Ref String
    ⊕ Ref String

abbrev fields_of_distinguished_name : DistinguishedName → DistinguishedNameFields
fields_of_distinguished_name x =
    x.common_name & x.country & x.distinguished_name_qualifier & x.generation_qualifier
    & x.given_name & x.initials & x.locality & x.organization & x.organizational_unit & x.pseudonym
    & x.serial_number & x.state & x.surname & x.title

abbrev distinguished_name_from : DistinguishedNameFields → DistinguishedName
distinguished_name_from
      (common_name & country & distinguished_name_qualifier & generation_qualifier & given_name
        & initials & locality & organization & organizational_unit & pseudonym & serial_number
        & state & surname & title) =
    record {
      common_name = common_name;
      country = country;
      distinguished_name_qualifier = distinguished_name_qualifier;
      generation_qualifier = generation_qualifier;
      given_name = given_name;
      initials = initials;
      locality = locality;
      organization = organization;
      organizational_unit = organizational_unit;
      pseudonym = pseudonym;
      serial_number = serial_number;
      state = state;
      surname = surname;
      title = title;
    }

abbrev distinguished_name_fields : Deep DistinguishedNameFields
distinguished_name_fields =
    leaf ⊗ leaf ⊗ leaf ⊗ leaf ⊗ leaf ⊗ leaf ⊗ leaf ⊗ leaf ⊗ leaf ⊗ leaf ⊗ leaf ⊗ leaf ⊗ leaf ⊗ leaf

abbrev pub distinguished_name : Deep DistinguishedName
distinguished_name = record {
  copy = copy_distinguished_name;
  addresses = λ x. distinguished_name_fields.addresses (fields_of_distinguished_name x);
  strip = λ x.
      distinguished_name_from (distinguished_name_fields.strip (fields_of_distinguished_name x));
}

pub distinguished_name-IsDeep : IsDeep distinguished_name
unfolding copy_distinguished_name
distinguished_name-IsDeep x n =
    let parts =
      both-IsDeep leaf-IsDeep
        (both-IsDeep leaf-IsDeep (
          both-IsDeep leaf-IsDeep (
            both-IsDeep leaf-IsDeep (
              both-IsDeep leaf-IsDeep (
                both-IsDeep leaf-IsDeep (
                  both-IsDeep leaf-IsDeep (
                    both-IsDeep leaf-IsDeep (
                      both-IsDeep leaf-IsDeep (
                        both-IsDeep leaf-IsDeep (
                          both-IsDeep leaf-IsDeep (
                            both-IsDeep leaf-IsDeep (both-IsDeep leaf-IsDeep leaf-IsDeep))))))))))))
        (fields_of_distinguished_name x) n in
    record { same = ap distinguished_name_from parts.same; fresh = parts.fresh }
