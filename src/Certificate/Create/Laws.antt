-- ===== src/Certificate/Create/Laws.antt =====
-- What `sdkCreate` calls, what it sends and what it returns.
use mathlib.Core.Option as O
use aws_controllers_k8s_acm.Base.{
  ◌≡◌, refl, String, true, false, Option, none, some, List, is_some, if◌then◌else◌, arith, any,
  Bool-cases, inl, inr, [], ◌∷◌, ◌++◌, or_else,
}
use aws_controllers_k8s_acm.Go.{ok}
use aws_controllers_k8s_acm.Go.Avoids.{calls}
use aws_controllers_k8s_acm.Api.{Certificate, CertificateOptions, arn_of}
use aws_controllers_k8s_acm.Sdk.{Errors, Service, Call, record_api_call}
use aws_controllers_k8s_acm.Certificate.{ResourceManager, or_unset}
use aws_controllers_k8s_acm.Certificate.Payload.{sdk_options_of, new_create_request_payload}
use aws_controllers_k8s_acm.Certificate.Import.{
  maybe_import_certificate, import_spec, has_request_fields,
}
use aws_controllers_k8s_acm.Certificate.Create.{exports, options_or_new, create_request, sdk_create}
use aws_controllers_k8s_acm.Certificate.Create.Calls.{
  is_request, is_import, create_public-Avoids, finish_input,
}
use aws_controllers_k8s_acm.Certificate.Create.Done.{Replies, Done, imported-ok, requested-ok}

preference :
    (o : Option CertificateOptions)
    → (options_or_new (O.map sdk_options_of o)).certificate_transparency_logging_preference
      ≡ or_unset (O.bind o (λ p. p.certificate_transparency_logging_preference))
unfolding O.bind
preference none = refl
preference (some p) = refl

-- A request asks for validation by DNS. Where the specification says where to export to, and names
-- no certificate authority by ARN or reference, the request asks for an exportable certificate, and
-- keeps the preference for transparency logging; elsewhere its options are the specification's.
pub create_request_lem :
    (ko : Certificate)
    → let input = create_request ko in
      (input.validation_method ≡ "DNS")
      × (input.domain_name ≡ ko.spec.domain_name)
      × (input.options ≡ (
          if exports ko
          then some (record {
            certificate_transparency_logging_preference =
                or_unset
                  (O.bind ko.spec.options (λ o. o.certificate_transparency_logging_preference));
            export = "ENABLED";
          })
          else O.map sdk_options_of ko.spec.options))
unfolding create_request new_create_request_payload
create_request_lem ko = (ground arith, ground arith, ground (arith, preference ko.spec.options))

module _ (X : Errors) (S : Service X) (rm : ResourceManager) where
  -- A certificate with secrets to import is never requested.
  pub imported_is_not_requested :
      (ko : Certificate) (t : List (Call X.Err))
      → is_some ko.spec.certificate ≡ true
      → any is_request (calls (sdk_create X S rm ko t)) ≡ any is_request t
  unfolding sdk_create maybe_import_certificate
  imported_is_not_requested ko t h = elim (Bool-cases (has_request_fields (import_spec ko))) [
    | inl e ↦ rw (h, e) refl
    | inr e ↦ rw (h, e) (finish_input X S rm ko t)
  ]

  -- A certificate without secrets to import is never imported.
  pub requested_is_not_imported :
      (ko : Certificate) (t : List (Call X.Err))
      → is_some ko.spec.certificate ≡ false
      → any is_import (calls (sdk_create X S rm ko t)) ≡ any is_import t
  unfolding sdk_create maybe_import_certificate
  requested_is_not_imported ko t h = ground (arith, create_public-Avoids X S rm ko t)

  pub sdk_create-Done :
      (ko created : Certificate) (t t' : List (Call X.Err))
      → sdk_create X S rm ko t ≡ (ok created, t')
      → Done X S rm ko created t'
  sdk_create-Done ko created t t' h = elim (Bool-cases (is_some ko.spec.certificate)) [
    | inl c ↦ imported-ok X S rm ko created t t' c h
    | inr c ↦ requested-ok X S rm ko created t t' c h
  ]

  -- If `sdkCreate` succeeds, then the resource that it returns has the specification and the
  -- metadata that it was given; the last calls are one request, made from the resource, or one
  -- import, and its metric without an error; and the ARN is the one in the service's answer to that
  -- call, or, without, the one it had.
  pub sdk_create-ok :
      (ko created : Certificate) (t t' : List (Call X.Err))
      → sdk_create X S rm ko t ≡ (ok created, t')
      → (created.spec ≡ ko.spec)
        × (created.metadata ≡ ko.metadata)
        × (arn : Option String) × (id : String) × (c : Call X.Err) × (s : List (Call X.Err))
        × (arn_of created ≡ or_else arn (arn_of ko))
        × (t' ≡ (s ++ (c ∷ [])) ++ (record_api_call "CREATE" id none ∷ []))
        × Replies X S rm ko s arn id c
  unfolding Done
  sdk_create-ok = sdk_create-Done
