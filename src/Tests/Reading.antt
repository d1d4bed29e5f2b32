-- ===== src/Tests/Reading.antt =====
-- The promises of `ReadOne`, `LateInitialize` and `Delete`, and the drift that a read shows.
use aws_controllers_k8s_acm.Base.{◌≡◌, refl, String, Option, some, List, [], ◌∷◌, arith, contains}
use aws_controllers_k8s_acm.Go.{Outcome, ok}
use aws_controllers_k8s_acm.Api.{Certificate}
use aws_controllers_k8s_acm.Sdk.{Call, delete_certificate, record_api_call}
use aws_controllers_k8s_acm.Certificate.Conditions.{Returned}
use aws_controllers_k8s_acm.Certificate.Delta.{compare_certificates}
use aws_controllers_k8s_acm.Certificate.Find.{sdk_find}
use aws_controllers_k8s_acm.Certificate.Find.Answers.{Read}
use aws_controllers_k8s_acm.Certificate.Find.Drift.{
  IsReflexive, drifts, compare_certificates-sdk_find,
}
use aws_controllers_k8s_acm.Certificate.Find.Safety.{Reads}
use aws_controllers_k8s_acm.Certificate.LateInit.{SetConditions}
use aws_controllers_k8s_acm.Certificate.Manager.{delete, read_one}
use aws_controllers_k8s_acm.Certificate.Manager.Deleting.{Deleted, delete_answers}
use aws_controllers_k8s_acm.Certificate.Manager.Reading.{
  ReadAnswered, KeepsButTags, read_one_answers,
}
use aws_controllers_k8s_acm.Tests.Answers.{faults-IsSpeaking}
use aws_controllers_k8s_acm.Tests.Updates.{read_calls, observed, read_run}
use aws_controllers_k8s_acm.Tests.Fixtures.{
  Fault, faults, service, manager, created, stored_order, plain_compare,
}

service-Reads : Reads faults service
service-Reads = record {
  describe = λ arn t p. ground arith;
  filled = λ arn t resp h p. ground arith;
  list_tags = λ arn t p. ground arith;
}

abbrev found : Outcome Fault Certificate × List (Call Fault)
found = sdk_find faults service manager created []

read_one_answers_example :
    (ret : Returned faults) × (ko' : Certificate) × (read_one faults service stored_order manager
        (record { ko = some created })
        []
      ≡ (ok (ret, ko'), found.1))
    × ReadAnswered faults service manager created found.0 ret
    × KeepsButTags created ko'
read_one_answers_example =
    read_one_answers faults service stored_order manager created [] service-Reads faults-IsSpeaking
      tt

-- The late condition is the one of its type, put first; synced is left alone.
abbrev setting : SetConditions
setting = record {
  set_late_initialized = λ ko status message reason. record ko {
    status = record (ko.status) {
      conditions =
          some (
            record { type_ = "ACK.LateInitialized"; status = status; message = some message } ∷ []);
    };
  };
  set_synced = λ ko status. ko;
}

delete_answers_example :
    (ret : Returned faults) × (reported : Option Fault) × (delete faults service manager
        (record { ko = some created })
        []
      ≡ (
        ok ret,
        delete_certificate (some "arn:1")
            ∷ record_api_call "DELETE" "DeleteCertificate" reported
            ∷ [],
      ))
    × Deleted faults created (service.delete (some "arn:1") []) reported ret
delete_answers_example =
    delete_answers faults service manager created [] (λ p. ground arith) faults-IsSpeaking tt

plain_compare-IsReflexive : IsReflexive plain_compare
plain_compare-IsReflexive = record {
  has_nil_difference-self = λ a. refl;
  deep_equal-self = λ a. refl;
}

compare_certificates-sdk_find_example :
    (read : Read faults service manager created observed) × ((p : String)
      → contains (compare_certificates plain_compare created observed) p
        ≡ drifts plain_compare created read.detail read.listed p)
compare_certificates-sdk_find_example =
    compare_certificates-sdk_find faults service plain_compare manager created observed []
      read_calls plain_compare-IsReflexive read_run
