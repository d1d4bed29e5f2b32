-- ===== src/Certificate/References/Laws.antt =====
-- Resolving the reference to a certificate authority, and clearing what was resolved.
use mathlib.Core.Path.{subst}
use aws_controllers_k8s_acm.Base.{
  ◌≡◌, refl, ◌≢◌, String, true, not, Option, none, some, is_none, is_some, List, [], ◌∷◌, ◌++◌,
  arith, inl, inr, ◌∙◌, string_dec, Option-cases,
}
use aws_controllers_k8s_acm.Go.{
  Outcome, ok, err, panic, return, attempt, continue-eq-ok, return-eq-ok, attempt-eq-ok,
}
use aws_controllers_k8s_acm.Api.{
  Certificate, Condition, AwsResourceReference, AwsResourceReferenceWrapper,
}
use aws_controllers_k8s_acm.Sdk.{
  Errors, Service, Call, CertificateAuthority, get_certificate_authority,
}
use aws_controllers_k8s_acm.Certificate.{ResourceManager}
use aws_controllers_k8s_acm.Certificate.References.State.{IsReferable, check_referenced-IsReferable}
use aws_controllers_k8s_acm.Certificate.References.{
  CrossNamespace, clear_resolved_references, authority_arn, reference_of, name_of, or_validation,
  set_authority_arn, set_raw_conditions, validate_reference_fields, check_referenced, Resolved,
  get_referenced_resource_state_certificate_authority, resolve_answer, resolve_in,
  resolve_reference_for_certificate_authority_arn, resolve_references,
}

module _ (X : Errors) (S : Service X) (N : CrossNamespace X) (rm : ResourceManager) where
  get_referenced-ok :
      (namespace name : String) (obj : CertificateAuthority) (t t' : List (Call X.Err))
      → get_referenced_resource_state_certificate_authority X S N rm namespace name t ≡ (ok obj, t')
      → (S.certificate_authority namespace name t ≡ ok obj)
        × (check_referenced X namespace name obj ≡ none)
        × (t' ≡ t ++ (get_certificate_authority namespace name ∷ []))
  unfolding get_referenced_resource_state_certificate_authority
  get_referenced-ok namespace name obj t t' h = ground arith

  -- The field was set from the authority of this name, that was read and let through.
  Seen : Certificate → String → String → Resolved X → List (Call X.Err) → List (Call X.Err) → Type 0
  Seen ko namespace name res t t' =
      (obj : CertificateAuthority) × (S.certificate_authority namespace name t ≡ ok obj)
      × (check_referenced X namespace name obj ≡ none)
      × (t' ≡ t ++ (get_certificate_authority namespace name ∷ []))
      × (res.ko.spec ≡ (set_authority_arn (authority_arn obj) ko).spec)

  -- The authority is the one that the resource refers to.
  FromAuthority : Certificate → Resolved X → List (Call X.Err) → List (Call X.Err) → Type 0
  FromAuthority ko res t t' =
      (ref : AwsResourceReference) × (name namespace : String) × (cs : Option (List Condition))
      × (reference_of ko ≡ some ref)
      × (name_of ref ≡ some name)
      × (N.resolve rm.enable_cross_namespace ko.status.conditions ko.metadata.namespace
            ref.namespace name
          ≡ (ok namespace, cs))
      × Seen ko namespace name res t t'

  -- What a resolution leaves in the resource.
  data Resolves (ko : Certificate) (res : Resolved X) (t t' : List (Call X.Err)) : Type 0 where
    untouched :
        res.ko.spec ≡ ko.spec → is_none res.error ≡ not res.has_references → Resolves ko res t t'
    set : is_some (reference_of ko) ≡ true → FromAuthority ko res t t' → Resolves ko res t t'

  resolve_answer-Resolves :
      (ko : Certificate) (cs : Option (List Condition)) (res : Resolved X) (namespace name : String)
      (a : Outcome X.Err CertificateAuthority) (t s t' : List (Call X.Err))
      → is_some (reference_of ko) ≡ true
      → (Seen ko namespace name res t t' → FromAuthority ko res t t')
      → get_referenced_resource_state_certificate_authority X S N rm namespace name t ≡ (a, s)
      → resolve_answer X S N rm (set_raw_conditions cs ko) a s ≡ (ok res, t')
      → Resolves ko res t t'
  unfolding resolve_answer Seen
  resolve_answer-Resolves ko cs res namespace name (ok obj) t s t' i from g h =
      let (read, passed, called) = get_referenced-ok namespace name obj t s g in
      set i (from (obj, read, passed, ground arith, ground arith))
  resolve_answer-Resolves ko cs res namespace name (err e) t s t' i from g h =
      untouched (ground arith) (ground arith)
  resolve_answer-Resolves ko cs res namespace name panic t s t' i from g h = absurd (ground arith)

  resolve_in-Resolves :
      (ko : Certificate) (ref : AwsResourceReference) (name : String) (n : Outcome X.Err String)
      (cs : Option (List Condition)) (res : Resolved X) (t t' : List (Call X.Err))
      → reference_of ko ≡ some ref
      → name_of ref ≡ some name
      → N.resolve rm.enable_cross_namespace ko.status.conditions ko.metadata.namespace ref.namespace
          name
        ≡ (n, cs)
      → resolve_in X S N rm ko name (n, cs) t ≡ (ok res, t')
      → Resolves ko res t t'
  unfolding resolve_in FromAuthority
  resolve_in-Resolves ko ref name (ok namespace) cs res t t' i f q h =
      let m = get_referenced_resource_state_certificate_authority X S N rm namespace name in
      let (a, s, tried, rest) =
        continue-eq-ok (resolve_answer X S N rm (set_raw_conditions cs ko)) (attempt m t) h in
      resolve_answer-Resolves ko cs res namespace name a t s t' (ground arith)
        (λ seen. (ref, name, namespace, cs, i, f, q, seen)) (attempt-eq-ok m t tried) rest
  resolve_in-Resolves ko ref name (err e) cs res t t' i f q h =
      untouched (ground arith) (ground arith)
  resolve_in-Resolves ko ref name panic cs res t t' i f q h = absurd (ground arith)

  resolve_reference-Resolves :
      (ko : Certificate) (res : Resolved X) (t t' : List (Call X.Err))
      → resolve_reference_for_certificate_authority_arn X S N rm ko t ≡ (ok res, t')
      → Resolves ko res t t'
  unfolding resolve_reference_for_certificate_authority_arn
  resolve_reference-Resolves ko res t t' h = elim (Option-cases (reference_of ko)) [
    | inl e ↦ untouched (ground arith) (ground arith)
    | inr (ref, e) ↦ elim (Option-cases (name_of ref)) [
      | inl f ↦ untouched (ground arith) (ground arith)
      | inr (name, f) ↦
          let (n, cs) =
            N.resolve rm.enable_cross_namespace ko.status.conditions ko.metadata.namespace
              ref.namespace name in
          resolve_in-Resolves ko ref name n cs res t t' e f refl (ground arith)
    ]
  ]

  resolved_first :
      (ko : Certificate) (res : Resolved X) (t t' : List (Call X.Err))
      → resolve_references X S N rm ko t ≡ (ok res, t')
      → (first : Resolved X) × Resolves ko first t t'
        × (or_validation X S N rm (validate_reference_fields X ko) first ≡ res)
  unfolding resolve_references
  resolved_first ko res t t' h =
      let (first, s, run, rest) =
        continue-eq-ok (λ res. return (or_validation X S N rm (validate_reference_fields X ko) res))
          (resolve_reference_for_certificate_authority_arn X S N rm ko t) h in
      let (made, ended) = return-eq-ok rest in
      (first, subst (Resolves ko first t) ended (resolve_reference-Resolves ko first t s run), made)

  -- The reference that a resource makes: by name, in the namespace that the runtime allows.
  pub record Refers (ko : Certificate) (namespace name : String) : Type 0 where
    pub wrapper : AwsResourceReferenceWrapper
    pub ref : AwsResourceReference
    pub conditions : Option (List Condition)
    pub there : ko.spec.certificate_authority_ref ≡ some wrapper
    pub from : wrapper.from ≡ some ref
    pub named : ref.name ≡ some name
    pub not_empty : name ≢ ""
    pub allowed :
        N.resolve rm.enable_cross_namespace ko.status.conditions ko.metadata.namespace ref.namespace
          name
        ≡ (ok namespace, conditions)

  raw_name :
      (ref : AwsResourceReference) (name : String)
      → name_of ref ≡ some name
      → (ref.name ≡ some name) × (name ≢ "")
  raw_name ref name h = elim (Option-cases ref.name) [
    | inl e ↦ absurd (ground arith)
    | inr (n, e) ↦ elim (string_dec n "") [
      | yes f ↦ absurd (ground arith)
      | no f ↦ (ground arith, λ g. f (ground arith))
    ]
  ]

  refers :
      (ko : Certificate) (ref : AwsResourceReference) (namespace name : String)
      (cs : Option (List Condition))
      → reference_of ko ≡ some ref
      → name_of ref ≡ some name
      → N.resolve rm.enable_cross_namespace ko.status.conditions ko.metadata.namespace ref.namespace
          name
        ≡ (ok namespace, cs)
      → Refers ko namespace name
  refers ko ref namespace name cs e f q = elim (Option-cases ko.spec.certificate_authority_ref) [
    | inl a ↦ absurd (ground arith)
    | inr (wrapper, a) ↦
        let (named, not_empty) = raw_name ref name f in
        record {
          wrapper = wrapper;
          ref = ref;
          conditions = cs;
          there = a;
          from = ground arith;
          named = named;
          not_empty = not_empty;
          allowed = q;
        }
  ]

  taken :
      (ko : Certificate) (first res : Resolved X) (v : Option X.Err) (t t' : List (Call X.Err))
      → or_validation X S N rm v first ≡ res
      → res.error ≡ none
      → res.has_references ≡ true
      → Resolves ko first t t'
      → FromAuthority ko res t t'
  unfolding FromAuthority Seen
  taken ko first res v t t' o e f (untouched same no_error) = absurd (ground arith)
  taken ko first res v t t' o e f
        (set i (ref, name, namespace, cs, a, b, q, (obj, read, passed, called, spec))) =
      (ref, name, namespace, cs, a, b, q, (obj, read, passed, called, ground arith))

  -- A resolution that finds a reference and returns no error: the one call made is to read the
  -- authority of the reference's name, which is not empty, in the namespace that the runtime allows
  -- for the reference; it returned an authority that has an ARN and is synced and not terminal; and
  -- the specification is the one given with that ARN in it.
  pub resolve_references-ok :
      (ko : Certificate) (res : Resolved X) (t t' : List (Call X.Err))
      → resolve_references X S N rm ko t ≡ (ok res, t')
      → res.error ≡ none
      → res.has_references ≡ true
      → (namespace name arn : String) × (obj : CertificateAuthority) × Refers ko namespace name
        × (t' ≡ t ++ (get_certificate_authority namespace name ∷ []))
        × (S.certificate_authority namespace name t ≡ ok obj)
        × IsReferable obj arn
        × (res.ko.spec ≡ (record (ko.spec) { certificate_authority_arn = some arn }))
  unfolding FromAuthority Seen
  resolve_references-ok ko res t t' h e f =
      let (first, shape, made) = resolved_first ko res t t' h in
      let (ref, name, namespace, cs, a, b, q, (obj, read, passed, called, spec)) =
        taken ko first res (validate_reference_fields X ko) t t' made e f shape in
      let (arn, fit) = (check_referenced-IsReferable X namespace name obj).0 passed in
      (
        namespace,
        name,
        arn,
        obj,
        refers ko ref namespace name cs a b q,
        called,
        read,
        fit,
        spec ∙ ground (arith, fit.known, fit.named),
      )

  -- A reference beside an ARN is an error, whatever the reference resolves to.
  pub resolve_references-both :
      (ko : Certificate) (res : Resolved X) (t t' : List (Call X.Err))
      → is_some ko.spec.certificate_authority_ref ≡ true
      → is_some ko.spec.certificate_authority_arn ≡ true
      → resolve_references X S N rm ko t ≡ (ok res, t')
      → is_some res.error ≡ true
  unfolding validate_reference_fields
  resolve_references-both ko res t t' a b h =
      let (first, shape, made) = resolved_first ko res t t' h in ground arith

  cleared :
      (ko : Certificate) (first res : Resolved X) (v : Option X.Err) (t t' : List (Call X.Err))
      → validate_reference_fields X ko ≡ none
      → or_validation X S N rm v first ≡ res
      → Resolves ko first t t'
      → (clear_resolved_references res.ko).spec ≡ ko.spec
  unfolding clear_resolved_references validate_reference_fields FromAuthority Seen
  cleared ko first res v t t' n o (untouched same no_error) = ground arith
  cleared ko first res v t t' n o
        (set i (ref, name, namespace, cs, a, b, q, (obj, read, passed, called, spec))) =
      ground arith

  -- Clearing what was resolved gives back the specification, if it had no ARN beside its reference.
  pub clear-resolve_references :
      (ko : Certificate) (res : Resolved X) (t t' : List (Call X.Err))
      → validate_reference_fields X ko ≡ none
      → resolve_references X S N rm ko t ≡ (ok res, t')
      → (clear_resolved_references res.ko).spec ≡ ko.spec
  clear-resolve_references ko res t t' v h =
      let (first, shape, made) = resolved_first ko res t t' h in
      cleared ko first res (validate_reference_fields X ko) t t' v made shape
