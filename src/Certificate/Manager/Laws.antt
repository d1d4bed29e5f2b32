-- ===== src/Certificate/Manager/Laws.antt =====
-- What a method of the manager answers, from its handler to the conditions.
use aws_controllers_k8s_acm.Base.{
  ◌≡◌, ◌≢◌, String, true, false, some, is_some, List, arith, ltb, length,
}
use aws_controllers_k8s_acm.Go.{ok, err}
use aws_controllers_k8s_acm.Api.{Certificate}
use aws_controllers_k8s_acm.Sdk.{Errors, Service, Call}
use aws_controllers_k8s_acm.Tags.Ack.{elems}
use aws_controllers_k8s_acm.Certificate.{ResourceManager}
use aws_controllers_k8s_acm.Certificate.Conditions.{
  Returned, on_error, conditions_of, terminal_message,
}
use aws_controllers_k8s_acm.Certificate.Conditions.Marks.{terminal_type, last_of}
use aws_controllers_k8s_acm.Certificate.Conditions.Outcomes.{on_error-terminal}
use aws_controllers_k8s_acm.Certificate.Create.{sdk_create, create_public}
use aws_controllers_k8s_acm.Certificate.Import.{
  terminal_text, has_import_fields, maybe_import_certificate, validate_public_validation_options,
}
use aws_controllers_k8s_acm.Certificate.Manager.{create, answer}

module _ (X : Errors) (S : Service X) (rm : ResourceManager) where
  create-err :
      (ko : Certificate) (e : X.Err) (t s : List (Call X.Err)) (ret : Returned X)
      → sdk_create X S rm ko t ≡ (err e, s)
      → on_error X rm (some ko) e ≡ ok ret
      → create X S rm (record { ko = some ko }) t ≡ (ok ret, s)
  unfolding create answer
  create-err ko e t s ret h o = ground arith

  -- The limit of five options.
  sdk_create-refused :
      (ko : Certificate) (t : List (Call X.Err))
      → is_some ko.spec.certificate ≡ false
      → has_import_fields ko.spec ≡ false
      → ltb 5 (length (elems ko.spec.domain_validation_options)) ≡ true
      → is_some ko.spec.certificate_authority_arn ≡ true
      → sdk_create X S rm ko t ≡ (err (terminal_text X "Too many domain validation errors"), t)
  unfolding sdk_create maybe_import_certificate create_public validate_public_validation_options
  sdk_create-refused ko t a b c d = ground arith

  -- If the runtime knows its terminal errors again, then creating a certificate that has nothing to
  -- import (no certificate, private key or chain in its specification), the ARN of a private
  -- authority and more than five options for domain validation answers the runtime's terminal error
  -- and calls nothing; the resource that it returns has a true terminal condition with the error's
  -- message, and its other conditions are as before.
  pub create-too_many_options :
      (ko : Certificate) (t : List (Call X.Err))
      → ((e : X.Err) → X.as_terminal (X.new_terminal_error e) ≡ true)
      → is_some ko.spec.certificate ≡ false
      → has_import_fields ko.spec ≡ false
      → ltb 5 (length (elems ko.spec.domain_validation_options)) ≡ true
      → is_some ko.spec.certificate_authority_arn ≡ true
      → (ko' : Certificate) × (create X S rm (record { ko = some ko }) t
          ≡ (ok (record { resource = some ko'; error = some X.terminal }), t))
        × (last_of terminal_type (conditions_of ko')
            ≡ some (record {
              type_ = terminal_type;
              status = "True";
              message = some (X.message (terminal_text X "Too many domain validation errors"));
            }))
        × ((u : String)
            → u ≢ terminal_type
            → last_of u (conditions_of ko') ≡ last_of u (conditions_of ko))
  unfolding terminal_message
  create-too_many_options ko t known a b c d =
      let e = terminal_text X "Too many domain validation errors" in
      let own = known (X.errors_new "Too many domain validation errors") in
      let (ko', answered, terminal, others) =
        on_error-terminal X rm ko e (X.message e) (ground (arith, own)) (ground (arith, own)) in
      let refused = sdk_create-refused ko t a b c d in
      (
        ko',
        create-err ko e t t (record { resource = some ko'; error = some X.terminal })
            (ground (arith, refused)) answered,
        terminal,
        others,
      )
