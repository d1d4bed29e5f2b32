-- ===== src/Tests/Methods.antt =====
-- The theorems on the manager's methods, and what its factory is called with.
use aws_controllers_k8s_acm.Base.{◌≡◌, ◌≢◌, refl, String, false, none, some, [], replicate}
use aws_controllers_k8s_acm.Go.{ok}
use aws_controllers_k8s_acm.Api.{Certificate, empty_certificate, empty_spec}
use aws_controllers_k8s_acm.Certificate.Conditions.{conditions_of}
use aws_controllers_k8s_acm.Certificate.Conditions.Marks.{terminal_type, last_of}
use aws_controllers_k8s_acm.Certificate.Factory.{ManagerArgs}
use aws_controllers_k8s_acm.Certificate.Manager.{create}
use aws_controllers_k8s_acm.Certificate.Manager.Laws.{create-too_many_options}
use aws_controllers_k8s_acm.Tests.Fixtures.{final, faults, service, manager}

abbrev private_with_six : Certificate
private_with_six = record empty_certificate {
  spec = record empty_spec {
    domain_name = some "example.com";
    certificate_authority_arn = some "arn:ca";
    domain_validation_options =
        some
          (replicate 6 (record { domain_name = some "a.example.com"; validation_domain = none }));
  };
}

create-too_many_options_example :
    (ko' : Certificate) × (create faults service manager (record { ko = some private_with_six }) []
      ≡ (ok (record { resource = some ko'; error = some final }), []))
    × (last_of terminal_type (conditions_of ko')
        ≡ some (record {
          type_ = terminal_type;
          status = "True";
          message = some "Too many domain validation errors";
        }))
    × ((u : String)
        → u ≢ terminal_type
        → last_of u (conditions_of ko') ≡ last_of u (conditions_of private_with_six))
create-too_many_options_example =
    create-too_many_options faults service manager private_with_six [] (λ e. refl) refl refl refl
      refl

abbrev pub ireland : ManagerArgs
ireland = record {
  id = "123456789012";
  region = "eu-west-1";
  role_arn = "";
  partition = "aws";
  enable_cross_namespace = false;
}
