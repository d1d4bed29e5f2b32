-- ===== src/Tests/Copies.antt =====
-- A deep copy of a certificate, where the types of other modules hold no pointers.
use aws_controllers_k8s_acm.Base.{ℕ, String, none, some, [], ◌∷◌, arith}
use aws_controllers_k8s_acm.Memory.{Ref, flat, ref, External}
use aws_controllers_k8s_acm.Memory.Laws.{IsExternal, flat-IsDeep}
use aws_controllers_k8s_acm.Memory.Spec.{CertificateSpec}
use aws_controllers_k8s_acm.Memory.Status.{CertificateStatus}
use aws_controllers_k8s_acm.Memory.Certificate.{Certificate, IsCopy}
use aws_controllers_k8s_acm.Memory.Types.{
  a_certificate, Value, deep, deep_copy_of, deep_copy_of-IsCopy,
}

abbrev plain : External
plain = record {
  TypeMeta = ℕ;
  ObjectMeta = ℕ;
  ListMeta = ℕ;
  Time = ℕ;
  ResourceMetadata = ℕ;
  Condition = ℕ;
  AwsResourceReferenceWrapper = ℕ;
  object_meta = flat;
  list_meta = flat;
  time = flat;
  resource_metadata = flat;
  condition = flat;
  aws_resource_reference_wrapper = flat;
}

plain-IsExternal : IsExternal plain
plain-IsExternal = record {
  object_meta = flat-IsDeep;
  list_meta = flat-IsDeep;
  time = flat-IsDeep;
  resource_metadata = flat-IsDeep;
  condition = flat-IsDeep;
  aws_resource_reference_wrapper = flat-IsDeep;
}

abbrev text : ℕ → String → Ref String
text p s = some (record { address = p; content = s })

abbrev tagged : CertificateSpec plain
tagged = record {
  certificate = none;
  certificate_arn = none;
  certificate_authority_arn = none;
  certificate_authority_ref = some (record { address = 2; content = 7 });
  certificate_chain = none;
  domain_name = text 3 "example.com";
  domain_validation_options = none;
  export_to = none;
  key_algorithm = none;
  managed_by = none;
  options = none;
  private_key = none;
  subject_alternative_names = none;
  tags = some (record {
    address = 4;
    content =
        some (record { address = 5; content = record { key = text 6 "env"; value = text 7 "dev" } })
        ∷ [];
  });
}

abbrev issued : CertificateStatus plain
issued = record {
  ack_resource_metadata = none;
  conditions = none;
  created_at = none;
  domain_validations = none;
  extended_key_usages = none;
  failure_reason = none;
  imported_at = none;
  in_use_by = none;
  issued_at = some (record { address = 8; content = 20 });
  issuer = none;
  key_usages = none;
  not_after = none;
  not_before = none;
  renewal_eligibility = none;
  renewal_summary = none;
  revocation_reason = none;
  revoked_at = none;
  serial = none;
  signature_algorithm = none;
  status = text 9 "ISSUED";
  subject = none;
  type_ = none;
}

abbrev stored : Ref (Certificate plain)
stored = some (record {
  address = 1;
  content = record { type_meta = 0; object_meta = 0; spec = tagged; status = issued };
})

asked : Ref (Value plain a_certificate)
unfolding Value
asked = stored

deep_copy_of-IsCopy_example :
    IsCopy (ref (deep plain a_certificate)) asked (deep_copy_of plain a_certificate asked 10).0
unfolding Value deep asked
deep_copy_of-IsCopy_example =
    deep_copy_of-IsCopy plain a_certificate asked 10 plain-IsExternal (ground arith)
