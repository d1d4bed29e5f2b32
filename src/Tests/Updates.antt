-- ===== src/Tests/Updates.antt =====
-- The theorems on updates, deltas, reads and late initialisation at concrete resources.
use aws_controllers_k8s_acm.Base.{
  ◌≡◌, ◌↔◌, refl, true, none, some, List, [], ◌∷◌, string_dec, contains,
}
use aws_controllers_k8s_acm.Go.{ok, err}
use aws_controllers_k8s_acm.Api.{Certificate}
use aws_controllers_k8s_acm.Sdk.{
  Call, Service, describe_certificate, list_tags_for_certificate, record_api_call,
  update_certificate_options,
}
use aws_controllers_k8s_acm.Tags.Sync.{list_tags}
use aws_controllers_k8s_acm.Certificate.{set_status_defaults}
use aws_controllers_k8s_acm.Certificate.Delta.{Delta, compare_certificates}
use aws_controllers_k8s_acm.Certificate.Delta.Difference.{Difference}
use aws_controllers_k8s_acm.Certificate.Delta.Exact.{compare_certificates-Difference}
use aws_controllers_k8s_acm.Certificate.Find.{set_tags, find_error, describe, sdk_find}
use aws_controllers_k8s_acm.Certificate.Find.Merge.{merge_domain_validations, merge_detail}
use aws_controllers_k8s_acm.Certificate.Find.Laws.{sdk_find-err}
use aws_controllers_k8s_acm.Certificate.Payload.{
  new_describe_request_payload, new_update_request_payload,
}
use aws_controllers_k8s_acm.Certificate.Update.{
  keep_issue, update_tags, update_options, update_rest, sdk_update,
}
use aws_controllers_k8s_acm.Tests.Fixtures.{
  Fault, api, missing, faults, service, manager, tag, created, detail, stored_order, crypto,
  plain_compare,
}

-- What the runs below compute with.
program : Unit {0}
unfolding string_dec set_status_defaults describe find_error new_describe_request_payload sdk_find
    keep_issue new_update_request_payload update_tags update_options update_rest sdk_update
program = tt

abbrev domain_changed : Delta
domain_changed = "Spec.DomainName" ∷ []

abbrev updated : Certificate
updated = keep_issue manager created created

abbrev update_calls : List (Call Fault)
update_calls =
    update_certificate_options (new_update_request_payload created)
    ∷ record_api_call "UPDATE" "UpdateCertificateOptions" none
    ∷ []

update_run :
    sdk_update faults service crypto stored_order plain_compare manager created created
      domain_changed []
    ≡ (ok updated, update_calls)
unfolding program
update_run = refl

-- The desired certificate has another spelling of the key algorithm and an export to make.
abbrev desired : Certificate
desired = record created { spec = record (created.spec) { key_algorithm = some "RSA-2048" } }

abbrev latest : Certificate
latest = record created { spec = record (created.spec) { key_algorithm = some "RSA_2048" } }

compare_certificates-Difference_example :
    (contains (compare_certificates plain_compare desired latest) "Spec.KeyAlgorithm" ≡ true)
    ↔ Difference plain_compare desired latest "Spec.KeyAlgorithm"
compare_certificates-Difference_example =
    compare_certificates-Difference plain_compare "Spec.KeyAlgorithm" desired latest

abbrev pub read_calls : List (Call Fault)
read_calls =
    describe_certificate (some "arn:1")
    ∷ record_api_call "READ_ONE" "DescribeCertificate" none
    ∷ list_tags_for_certificate "arn:1"
    ∷ record_api_call "GET" "ListTagsForCertificate" none
    ∷ []

abbrev pub observed : Certificate
observed = set_status_defaults manager (
    merge_detail detail
      (set_tags (tag "env" "prod" ∷ []) (merge_domain_validations detail created)))

pub read_run : sdk_find faults service manager created [] ≡ (ok observed, read_calls)
unfolding program list_tags
read_run = refl

-- A service that knows no certificate.
abbrev unknown : Service faults
unknown = record service {
  describe = λ arn t. err (api "ResourceNotFoundException" "no such certificate");
}

sdk_find-err_example : sdk_find faults unknown manager created [] ≡ (
  err missing,
  describe_certificate (some "arn:1")
      ∷ record_api_call "READ_ONE" "DescribeCertificate"
          (some (api "ResourceNotFoundException" "no such certificate"))
      ∷ [],
)
unfolding program
sdk_find-err_example =
    sdk_find-err faults unknown manager created "arn:1"
      (api "ResourceNotFoundException" "no such certificate") [] refl refl
