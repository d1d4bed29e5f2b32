-- ===== src/Tests/Answers.antt =====
-- The promises of `Create` and `Update` to the reconciler, at concrete resources.
use aws_controllers_k8s_acm.Base.{some, List, [], ◌∷◌, arith}
use aws_controllers_k8s_acm.Go.{Outcome}
use aws_controllers_k8s_acm.Api.{Certificate}
use aws_controllers_k8s_acm.Sdk.{Call}
use aws_controllers_k8s_acm.Certificate.Conditions.{terminal_aws_error}
use aws_controllers_k8s_acm.Certificate.Conditions.Keeps.{IsSpeaking}
use aws_controllers_k8s_acm.Certificate.Delta.{Delta}
use aws_controllers_k8s_acm.Certificate.Create.Done.{Done}
use aws_controllers_k8s_acm.Certificate.Update.{sdk_update}
use aws_controllers_k8s_acm.Tests.Fixtures.{
  Fault, faults, service, manager, created, stored_order, crypto, plain_compare,
}

pub faults-IsSpeaking : IsSpeaking faults
unfolding terminal_aws_error
faults-IsSpeaking e h = ground arith

-- A certificate with a key algorithm and an export to make.
abbrev exported : Certificate
exported = record created {
  spec = record (created.spec) {
    key_algorithm = some "RSA_2048";
    export_to = some (record { name = "tls"; namespace = "ns"; key = "tls.crt" });
  };
}

abbrev issued_changed : Delta
issued_changed = "Spec.Status.IssuedAt" ∷ []

abbrev handled : Outcome Fault Certificate × List (Call Fault)
handled =
    sdk_update faults service crypto stored_order plain_compare manager created exported
      issued_changed []
