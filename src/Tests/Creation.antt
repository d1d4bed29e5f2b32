-- ===== src/Tests/Creation.antt =====
-- The theorems on creation, update, deltas and reading at concrete resources.
use aws_controllers_k8s_acm.Base.{
  ◌≡◌, refl, String, false, none, some, List, [], ◌∷◌, string_dec, any,
}
use aws_controllers_k8s_acm.Go.{ok}
use aws_controllers_k8s_acm.Go.Avoids.{calls}
use aws_controllers_k8s_acm.Api.{Certificate, SecretKeyReference, empty_certificate, empty_spec}
use aws_controllers_k8s_acm.Sdk.{Call, request_certificate, record_api_call}
use aws_controllers_k8s_acm.Certificate.{set_status_defaults, merge_arn}
use aws_controllers_k8s_acm.Certificate.Import.{
  validate_public_validation_options, maybe_import_certificate, new_import_certificate_input,
  import_with, do_import_certificate, secret_value, set_resource_from_import_certificate_output,
}
use aws_controllers_k8s_acm.Certificate.Payload.{new_create_request_payload}
use aws_controllers_k8s_acm.Certificate.Create.{
  create_request, request_new, create_public, sdk_create,
}
use aws_controllers_k8s_acm.Certificate.Create.Calls.{is_request, is_import}
use aws_controllers_k8s_acm.Certificate.Create.Laws.{
  imported_is_not_requested, requested_is_not_imported, sdk_create-ok,
}
use aws_controllers_k8s_acm.Tests.Fixtures.{Fault, faults, service, manager}

-- What the runs below compute with.
program : Unit {0}
unfolding string_dec set_status_defaults merge_arn sdk_create create_public request_new
    create_request new_create_request_payload maybe_import_certificate
    validate_public_validation_options new_import_certificate_input import_with
    do_import_certificate secret_value set_resource_from_import_certificate_output
program = tt

abbrev secret : String → SecretKeyReference
secret key = record { name = "tls"; namespace = "ns"; key = key }

abbrev to_request : Certificate
to_request = record empty_certificate {
  spec = record empty_spec {
    domain_name = some "example.com";
    export_to = some (secret "tls.crt");
  };
}

abbrev to_import : Certificate
to_import = record empty_certificate {
  spec = record empty_spec {
    certificate = some (secret "tls.crt");
    private_key = some (secret "tls.key");
  };
}

abbrev requested : Certificate
requested = set_status_defaults manager (merge_arn (some "arn:1") to_request)

abbrev request_calls : List (Call Fault)
request_calls =
    request_certificate (create_request to_request)
    ∷ record_api_call "CREATE" "RequestCertificate" none
    ∷ []

run : sdk_create faults service manager to_request [] ≡ (ok requested, request_calls)
unfolding program
run = refl

sdk_create-ok_example : requested.spec ≡ to_request.spec
sdk_create-ok_example =
    (sdk_create-ok faults service manager to_request requested [] request_calls run).0

imported_is_not_requested_example :
    any is_request (calls (sdk_create faults service manager to_import [])) ≡ false
imported_is_not_requested_example =
    imported_is_not_requested faults service manager to_import [] refl

requested_is_not_imported_example :
    any is_import (calls (sdk_create faults service manager to_request [])) ≡ false
requested_is_not_imported_example =
    requested_is_not_imported faults service manager to_request [] refl
