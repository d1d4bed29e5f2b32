-- ===== src/Certificate/LateInit/Filling.antt =====
-- What late initialisation may add to a specification (manager.go).
use mathlib.Core.Path.{subst}
use aws_controllers_k8s_acm.Base.{
  true, ◌≡◌, refl, ap, ◌∙◌, String, false, Option, none, some, List, arith, inl, inr, Option-cases,
  or_else,
}
use aws_controllers_k8s_acm.Go.{Outcome, ok}
use aws_controllers_k8s_acm.Api.{Certificate, CertificateSpec, CertificateOptions}
use aws_controllers_k8s_acm.Certificate.Manager.Reading.{}
use aws_controllers_k8s_acm.Certificate.LateInit.{
  SetConditions, late_options, late_initialize_from_read_one_output, incomplete_late_initialization,
  post_read_one,
}

-- `ackcondition` changes conditions only.
pub record SetsConditions (k : SetConditions) : Type 0 where
  pub late_spec :
      (ko : Certificate) (status message reason : String)
      → (k.set_late_initialized ko status message reason).spec ≡ ko.spec
  pub late_metadata :
      (ko : Certificate) (status message reason : String)
      → (k.set_late_initialized ko status message reason).metadata ≡ ko.metadata
  pub synced_spec : (ko : Certificate) (status : String) → (k.set_synced ko status).spec ≡ ko.spec
  pub synced_metadata :
      (ko : Certificate) (status : String) → (k.set_synced ko status).metadata ≡ ko.metadata

-- What is set stays.
abbrev pub Extends {ℓ} : {A : Type ℓ} → Option A → Option A → Type ℓ
Extends {A = A} old new = (a : A) → old ≡ some a → new ≡ some a

-- The specification without the fields that are initialised late and the tags.
abbrev pub early : CertificateSpec → CertificateSpec
early spec = record spec {
  key_algorithm = none;
  options = none;
  subject_alternative_names = none;
  domain_validation_options = none;
  tags = none;
}

-- `new` has all that `old` has, but for the tags, and may have more in the fields that are
-- initialised late.
pub record Filled (old new : CertificateSpec) : Type 0 where
  pub others : early new ≡ early old
  pub key_algorithm : Extends old.key_algorithm new.key_algorithm
  pub subject_alternative_names :
      Extends old.subject_alternative_names new.subject_alternative_names
  pub domain_validation_options :
      Extends old.domain_validation_options new.domain_validation_options
  pub options :
      (o : CertificateOptions)
      → old.options ≡ some o
      → (o' : CertificateOptions) × (new.options ≡ some o')
        × (o'.certificate_transparency_logging_preference
            ≡ o.certificate_transparency_logging_preference)
        × Extends o.export o'.export

pub same-Filled : (old : CertificateSpec) → Filled old old
same-Filled old = record {
  others = refl;
  key_algorithm = λ a e. e;
  subject_alternative_names = λ a e. e;
  domain_validation_options = λ a e. e;
  options = λ o e. (o, e, refl, λ a q. q);
}

-- The tags of the old specification do not matter.
pub tags-Filled :
    (old new : CertificateSpec) (old' : CertificateSpec)
    → (record old' { tags = old.tags }) ≡ old
    → Filled old' new
    → Filled old new
tags-Filled old new old' e f =
    subst (λ s. Filled s new) e
      (record {
        others = f.others;
        key_algorithm = f.key_algorithm;
        subject_alternative_names = f.subject_alternative_names;
        domain_validation_options = f.domain_validation_options;
        options = f.options;
      })

late_export :
    (read : Option CertificateOptions) (o : CertificateOptions)
    → (o' : CertificateOptions) × (late_options read (some o) ≡ some o')
      × (o'.certificate_transparency_logging_preference
          ≡ o.certificate_transparency_logging_preference)
      × Extends o.export o'.export
late_export none o = (o, refl, refl, λ a e. e)
late_export (some r) o =
    (record o { export = or_else o.export r.export }, refl, refl, λ a e. ground arith)

-- What was not set is what was read.
abbrev pub Taken : CertificateSpec → CertificateSpec → CertificateSpec → Type 0
Taken old found new =
    (new.key_algorithm ≡ or_else old.key_algorithm found.key_algorithm)
    × (new.subject_alternative_names
        ≡ or_else old.subject_alternative_names found.subject_alternative_names)
    × (new.domain_validation_options
        ≡ or_else old.domain_validation_options found.domain_validation_options)

-- From `old` to `new`, where `read` is how `sdkFind` ended.
pub record Late {E : Type 0} (read : Outcome E Certificate) (old new : CertificateSpec)
    : Type 0 where
  pub filled : Filled old new
  pub taken : (found : Certificate) → read ≡ ok found → Taken old found.spec new

pub late-Taken :
    (seen latest : Certificate) (found : CertificateSpec)
    → seen.spec ≡ found
    → Taken latest.spec found
        (late_initialize_from_read_one_output seen (post_read_one seen latest)).spec
unfolding late_initialize_from_read_one_output post_read_one
late-Taken seen latest found e =
    subst
      (λ s.
        Taken latest.spec s
          (late_initialize_from_read_one_output seen (post_read_one seen latest)).spec)
      e (refl, ground arith, refl)

-- Both hooks after the read.
pub late_fill :
    (seen latest : Certificate)
    → Filled latest.spec
        (late_initialize_from_read_one_output seen (post_read_one seen latest)).spec
unfolding late_initialize_from_read_one_output post_read_one
late_fill seen latest = record {
  others = refl;
  key_algorithm = λ a e. ground arith;
  subject_alternative_names = λ a e. ground arith;
  domain_validation_options = λ a e. ground arith;
  options = λ o e.
      let (o', made, kept, export) = late_export seen.spec.options o in
      (o', ap (late_options seen.spec.options) e ∙ made, kept, export);
}

-- The fields that the reconciler waits for are there. (The options for domain validation are filled
-- late too, but it does not wait for them.)
pub record IsComplete (spec : CertificateSpec) : Type 0 where
  pub algorithm : String
  pub options : CertificateOptions
  pub export : String
  pub names : List String
  pub key_algorithm_set : spec.key_algorithm ≡ some algorithm
  pub options_set : spec.options ≡ some options
  pub export_set : options.export ≡ some export
  pub names_set : spec.subject_alternative_names ≡ some names

pub complete_spec :
    (ko : Certificate) → incomplete_late_initialization ko ≡ false → IsComplete ko.spec
unfolding incomplete_late_initialization
complete_spec ko h = elim (Option-cases ko.spec.key_algorithm) [
  | inl e ↦ absurd (ground arith)
  | inr (algorithm, e) ↦ elim (Option-cases ko.spec.options) [
    | inl f ↦ absurd (ground arith)
    | inr (o, f) ↦ elim (Option-cases o.export) [
      | inl g ↦ absurd (ground arith)
      | inr (export, g) ↦ elim (Option-cases ko.spec.subject_alternative_names) [
        | inl p ↦ absurd (ground arith)
        | inr (names, p) ↦ record {
          algorithm = algorithm;
          options = o;
          export = export;
          names = names;
          key_algorithm_set = e;
          options_set = f;
          export_set = g;
          names_set = p;
        }
      ]
    ]
  ]
]

-- A resource that is still waited for is not complete.
pub incomplete_spec :
    (ko : Certificate)
    → incomplete_late_initialization ko ≡ true
    → (spec : CertificateSpec) → spec ≡ ko.spec
    → IsComplete spec
    → ⊥
unfolding incomplete_late_initialization
incomplete_spec ko h spec same whole = absurd (
    ground (
      arith,
      ap (λ s. s.key_algorithm) same,
      ap (λ s. s.options) same,
      ap (λ s. s.subject_alternative_names) same,
      whole.key_algorithm_set,
      whole.options_set,
      whole.export_set,
      whole.names_set,
    ))
