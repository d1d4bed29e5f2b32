-- ===== src/Tests/Fixtures.antt =====
-- Concrete errors, a service that accepts every call, a range order, and resources.
use aws_controllers_k8s_acm.Base.{ℕ, String, true, false, Option, none, some, List, [], ◌∷◌, ◌==◌}
use aws_controllers_k8s_acm.Base.{refl, replicate, contains, any, not}
use aws_controllers_k8s_acm.GoMap.{RangeOrder, IsRange}
use aws_controllers_k8s_acm.Go.{ok, err}
use aws_controllers_k8s_acm.Api.{
  Certificate, Tag, empty_certificate, empty_spec, empty_status, no_metadata,
}
use aws_controllers_k8s_acm.Sdk.{CertificateDetail, Errors, Service, SdkTag}
use aws_controllers_k8s_acm.Certificate.{ResourceManager}
use aws_controllers_k8s_acm.Certificate.Delta.{Compare}
use aws_controllers_k8s_acm.Certificate.Export.{Crypto}
use aws_controllers_k8s_acm.Certificate.References.{CrossNamespace}

pub data Fault : Type 0 where
  api : String → String → Fault
  plain : String → Fault
  lasting : Fault → Fault
  again : Fault → Fault
  later : ℕ → Fault
  missing final no_secret bad_secret : Fault
  reference : String → String → String → Fault

abbrev text : Fault → String
text (api code message) = message
text (plain message) = message
text (lasting e) = text e
text (again e) = text e
text (later n) = "requeue"
text missing = "not found"
text final = "terminal"
text no_secret = "secret not found"
text bad_secret = "secret type not supported"
text (reference kind namespace name) = kind

abbrev code_of : Fault → Option String
code_of (api code message) = some code
code_of (lasting e) = code_of e
code_of (again e) = code_of e
code_of _ = none

abbrev pub faults : Errors
faults = record {
  Err = Fault;
  api_code = code_of;
  as_terminal = λ e. elim e [ lasting e' ↦ true | _ ↦ false ];
  is_secret_type_not_supported = λ e. elim e [ bad_secret ↦ true | _ ↦ false ];
  is_secret_not_found = λ e. elim e [ no_secret ↦ true | _ ↦ false ];
  message = text;
  aws_error = λ e. elim (code_of e) [ none ↦ none | some code ↦ some (text e) ];
  not_found = missing;
  terminal = final;
  errors_new = plain;
  new_terminal_error = lasting;
  needed = again;
  needed_after = later;
  reference_and_id_not_supported_for = reference "both";
  reference_terminal_for = λ k ns n. reference "terminal" ns n;
  reference_not_synced_for = λ k ns n. reference "not synced" ns n;
  reference_missing_target_field_for = λ k ns n field. reference field ns n;
}

abbrev pub detail : CertificateDetail
detail = record {
  certificate_arn = some "arn:1";
  certificate_authority_arn = none;
  created_at = some 10;
  domain_name = some "example.com";
  domain_validation_options = some [];
  extended_key_usages = none;
  failure_reason = "";
  imported_at = none;
  in_use_by = none;
  issued_at = some 20;
  issuer = some "Amazon";
  key_algorithm = "RSA-2048";
  key_usages = none;
  managed_by = "";
  not_after = none;
  not_before = none;
  options = none;
  renewal_eligibility = "";
  renewal_summary = none;
  revocation_reason = "";
  revoked_at = none;
  serial = some "01";
  signature_algorithm = none;
  status = "ISSUED";
  subject = none;
  subject_alternative_names = some ("example.com" ∷ []);
  type_ = "AMAZON_ISSUED";
}

abbrev pub listed : List SdkTag
listed = record { key = some "env"; value = some "prod" } ∷ []

abbrev pub service : Service faults
service = record {
  describe = λ arn t. ok (record { certificate = some detail });
  request = λ input t. ok (record { certificate_arn = some "arn:1" });
  update_options = λ input t. ok tt;
  delete = λ arn t. ok tt;
  import_ = λ input t. ok (record { certificate_arn = some "arn:2" });
  export = λ input t. ok (record {
    certificate = some "CERT";
    certificate_chain = some "CHAIN";
    private_key = some "KEY";
  });
  add_tags = λ arn tags t. ok tt;
  remove_tags = λ arn tags t. ok tt;
  list_tags = λ arn t. ok listed;
  secret_value = λ ref t. ok "SECRET";
  write_secret = λ value namespace name key t. ok tt;
  random = λ n t. ok (replicate n 200);
  certificate_authority = λ namespace name t. ok (record {
    conditions =
        some (record { type_ = "ACK.ResourceSynced"; status = "True"; message = none } ∷ []);
    ack_resource_metadata = some (record no_metadata { arn = some "arn:ca" });
  });
}

-- A service that refuses to remove tags.
abbrev pub keeping : Service faults
keeping = record service { remove_tags = λ arn tags t. err (api "ThrottlingException" "slow down") }

abbrev pub stored_order : RangeOrder
stored_order = record { order = λ V m. m }

pub stored_order-IsRange : IsRange stored_order
stored_order-IsRange = record { lookup-order = λ V k m. refl; order-NodupKeys = λ V m u. u }

abbrev pub manager : ResourceManager
manager = record {
  aws_account_id = "123456789012";
  aws_region = "eu-west-1";
  aws_partition = "aws";
  enable_cross_namespace = false;
}

abbrev pub tag : String → String → Tag
tag k v = record { key = some k; value = some v }

abbrev pub created : Certificate
created = record empty_certificate {
  spec = record empty_spec { domain_name = some "example.com"; tags = some (tag "env" "dev" ∷ []) };
  status = record empty_status {
    ack_resource_metadata = some (record no_metadata { arn = some "arn:1" });
  };
}

-- A key is its own PEM text and holds its bytes; every key is an RSA key.
abbrev pub crypto : Crypto
crypto = record {
  Key = List ℕ;
  pem_decode = λ s. some (1 ∷ 2 ∷ []);
  parse_pkcs8_private_key = λ bytes passphrase. some bytes;
  is_rsa = λ key. true;
  is_ecdsa = λ key. false;
  marshal_pkcs8_private_key = λ key. some key;
  pem_encode = λ kind bytes. "DECRYPTED";
}

-- Nothing is nil-different, references and maps are equal, and paths are compared whole.
abbrev pub plain_compare : Compare
plain_compare = record {
  has_nil_difference = λ a b. false;
  options_nil_difference = λ a b. false;
  deep_equal = λ a b. true;
  map_string_string_equal = λ a b. true;
  different_at = contains;
  different_except = λ delta path. any (λ p. not (p == path)) delta;
}

-- Every reference is resolved in its own namespace.
abbrev pub own_namespace : CrossNamespace faults
own_namespace = record { resolve = λ enabled cs namespace ref name. (ok namespace, cs) }
