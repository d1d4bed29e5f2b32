-- ===== src/Certificate/Create/Done.antt =====
-- What a creation that succeeds leaves behind, along the paths of `sdkCreate`.
use mathlib.Core.Path.{subst}
use aws_controllers_k8s_acm.Base.{
  ◌≡◌, ◌∙◌, refl, String, true, false, ◌&&◌, Option, none, List, is_some, arith, string_dec,
  Option-cases, sym, Bool-cases, inl, inr, [], ◌∷◌, ◌++◌, or_else,
}
use aws_controllers_k8s_acm.Go.{
  continue_assoc, ok, return, continue, ◌>>=◌, continue-eq-ok, return-eq-ok,
}
use aws_controllers_k8s_acm.Api.{Certificate, arn_of}
use aws_controllers_k8s_acm.Sdk.{
  Errors, Service, Answer, Call, request_certificate, import_certificate, record_api_call,
  ImportCertificateInput, ImportCertificateOutput, RequestCertificateOutput,
}
use aws_controllers_k8s_acm.Sdk.Metrics.{api_call, api_call-ok, api_call-answer}
use aws_controllers_k8s_acm.Certificate.{ResourceManager, merge_arn, set_status_defaults}
use aws_controllers_k8s_acm.Certificate.Import.{
  validate_public_validation_options, maybe_import_certificate, new_import_certificate_input,
  import_with, do_import_certificate, set_resource_from_import_certificate_output, import_spec,
  has_request_fields, has_import_fields,
}
use aws_controllers_k8s_acm.Certificate.Create.{
  create_request, request_new, create_public, finish, sdk_create,
}

module _ (X : Errors) (S : Service X) (rm : ResourceManager) where
  merged_lem :
      (arn : Option String) (ko : Certificate)
      → let created = set_status_defaults rm (merge_arn arn ko) in
        (created.spec ≡ ko.spec)
        × (created.metadata ≡ ko.metadata)
        × (arn_of created ≡ or_else arn (arn_of ko))
  unfolding set_status_defaults merge_arn
  merged_lem arn ko = ground arith

  -- The calls that create, made after `s`, with the ARN in the answer to them.
  pub data Replies (ko : Certificate) (s : List (Call X.Err))
      : Option String → String → Call X.Err → Type 0 where
    requested :
        (resp : RequestCertificateOutput)
        → S.request (create_request ko) s ≡ ok resp
        → Replies ko s resp.certificate_arn "RequestCertificate"
            (request_certificate (create_request ko))
    imported :
        (input : ImportCertificateInput) (resp : ImportCertificateOutput)
        → S.import_ input s ≡ ok resp
        → Replies ko s resp.certificate_arn "ImportCertificate" (import_certificate input)

  -- What a successful creation leaves behind.
  unfoldable pub Done : Certificate → Certificate → List (Call X.Err) → Type 0
  Done ko created t' =
      (created.spec ≡ ko.spec)
      × (created.metadata ≡ ko.metadata)
      × (arn : Option String) × (id : String) × (c : Call X.Err) × (s : List (Call X.Err)) × (arn_of
            created
          ≡ or_else arn (arn_of ko))
      × (t' ≡ (s ++ (c ∷ [])) ++ (record_api_call "CREATE" id none ∷ []))
      × Replies ko s arn id c

  done_lem :
      (ko : Certificate) (arn : Option String) (id : String) (c : Call X.Err)
      (s : List (Call X.Err))
      → Replies ko s arn id c
      → Done ko
          (set_status_defaults rm (merge_arn arn ko))
          ((s ++ (c ∷ [])) ++ (record_api_call "CREATE" id none ∷ []))
  unfolding Done
  done_lem ko arn id c s h =
      let (spec, metadata, arn_eq) = merged_lem arn ko in
      (spec, metadata, arn, id, c, s, arn_eq, refl, h)

  created_by :
      {A : Type 0} (get : A → Option String) (ko created : Certificate) (id : String)
      (c : Call X.Err) (reply : Answer X A) (t t' : List (Call X.Err))
      → ((resp : A) → reply t ≡ ok resp → Replies ko t (get resp) id c)
      → continue
          (λ resp. return (set_status_defaults rm (merge_arn (get resp) ko)))
          (api_call X "CREATE" id c reply t)
        ≡ (ok created, t')
      → Done ko created t'
  created_by get ko created id c reply t t' p h =
      let (resp, s, called, finished) =
        continue-eq-ok (λ resp. return (set_status_defaults rm (merge_arn (get resp) ko)))
          (api_call X "CREATE" id c reply t) h in
      let (made, ended) = return-eq-ok finished in
      subst (λ u. Done ko u t') made
        (subst (λ u. Done ko (set_status_defaults rm (merge_arn (get resp) ko)) u)
          (sym (api_call-ok X "CREATE" id c reply t called) ∙ ended)
          (done_lem ko (get resp) id c t (p resp (api_call-answer X "CREATE" id c reply t called))))

  request_new-ok :
      (ko created : Certificate) (t t' : List (Call X.Err))
      → request_new X S rm ko t ≡ (ok created, t')
      → Done ko created t'
  unfolding request_new
  request_new-ok ko created t t' =
      let input = create_request ko in
      created_by (λ resp. resp.certificate_arn) ko created "RequestCertificate"
        (request_certificate input) (S.request input) t t' requested

  import_ok :
      (ko created : Certificate) (input : ImportCertificateInput) (t t' : List (Call X.Err))
      → do_import_certificate X S rm ko input t ≡ (ok created, t')
      → Done ko created t'
  unfolding do_import_certificate set_resource_from_import_certificate_output
  import_ok ko created input t t' =
      created_by (λ resp. resp.certificate_arn) ko created "ImportCertificate"
        (import_certificate input) (S.import_ input) t t' (imported input)

  create_public-ok :
      (ko created : Certificate) (t t' : List (Call X.Err))
      → create_public X S rm ko t ≡ (ok created, t')
      → Done ko created t'
  unfolding create_public
  create_public-ok ko created t t' h =
      elim (Option-cases (validate_public_validation_options X ko)) [
        | inl e ↦ request_new-ok ko created t t' (rw (e, create_public) at h)
        | inr (v, e) ↦ absurd (ground arith)
      ]

  finish_import-ok :
      (ko created : Certificate) (input : ImportCertificateInput) (t t' : List (Call X.Err))
      → (import_with X S rm ko input >>= finish X S rm ko) t ≡ (ok created, t')
      → Done ko created t'
  unfolding import_with
  finish_import-ok ko created input t t' h = elim (string_dec input.private_key "") [
    | yes e ↦ absurd (ground arith)
    | no n ↦ import_ok ko created input t t' (ground arith)
  ]

  pub imported-ok :
      (ko created : Certificate) (t t' : List (Call X.Err))
      → is_some ko.spec.certificate ≡ true
      → sdk_create X S rm ko t ≡ (ok created, t')
      → Done ko created t'
  unfolding sdk_create maybe_import_certificate
  imported-ok ko created t t' c h = elim (Bool-cases (has_request_fields (import_spec ko))) [
    | inl e ↦ absurd (ground arith)
    | inr e ↦
        let made = rw (c, e) at h in
        let (input, s, built, rest) =
          continue-eq-ok (λ input. import_with X S rm ko input >>= finish X S rm ko)
            (new_import_certificate_input X S rm ko t)
            (sym (
                continue_assoc (import_with X S rm ko) (finish X S rm ko)
                  (new_import_certificate_input X S rm ko t))
              ∙ made) in
        finish_import-ok ko created input s t' rest
  ]

  pub requested-ok :
      (ko created : Certificate) (t t' : List (Call X.Err))
      → is_some ko.spec.certificate ≡ false
      → sdk_create X S rm ko t ≡ (ok created, t')
      → Done ko created t'
  unfolding sdk_create maybe_import_certificate
  requested-ok ko created t t' c h =
      elim (Bool-cases (is_some ko.spec.domain_name && has_import_fields ko.spec)) [
        | inl e ↦ absurd (ground arith)
        | inr e ↦ create_public-ok ko created t t' (ground arith)
      ]
