-- ===== src/Certificate/LateInit/Laws.antt =====
-- Late initialisation fills nil fields from what was read, and finishes where the read has them.
use aws_controllers_k8s_acm.Base.{
  ◌≡◌, ◌||◌, ◌&&◌, none, some, is_none, or_else, arith, if◌then◌else◌,
}
use aws_controllers_k8s_acm.GoMap.{RangeOrder}
use aws_controllers_k8s_acm.Api.{Certificate}
use aws_controllers_k8s_acm.Sdk.{Errors, Service}
use aws_controllers_k8s_acm.Certificate.{ResourceManager}
use aws_controllers_k8s_acm.Certificate.LateInit.{
  SetConditions, late_options, no_export, late_initialize_from_read_one_output,
  incomplete_late_initialization, post_read_one, late_finish,
}

-- The fields after both hooks: each is the resource's own where it is there, and otherwise what
-- was read; of options that are there, `Export` alone may be filled.
pub late_fields :
    (observed latest : Certificate)
    → let res = late_initialize_from_read_one_output observed (post_read_one observed latest) in
      (res.spec.key_algorithm ≡ or_else latest.spec.key_algorithm observed.spec.key_algorithm)
      × (res.spec.subject_alternative_names
          ≡ or_else latest.spec.subject_alternative_names observed.spec.subject_alternative_names)
      × (res.spec.domain_validation_options
          ≡ or_else latest.spec.domain_validation_options observed.spec.domain_validation_options)
      × (res.spec.options ≡ late_options observed.spec.options latest.spec.options)
unfolding late_initialize_from_read_one_output post_read_one
late_fields observed latest = ground arith

-- The late initialised resource misses a field exactly if that field is nil in the resource and in
-- what was read; for the export option, where neither's options have it.
pub incomplete_iff :
    (observed latest : Certificate)
    → incomplete_late_initialization
        (late_initialize_from_read_one_output observed (post_read_one observed latest))
      ≡ ((is_none latest.spec.key_algorithm && is_none observed.spec.key_algorithm)
          || (no_export latest.spec.options && no_export observed.spec.options)
          || (is_none latest.spec.subject_alternative_names
              && is_none observed.spec.subject_alternative_names))
unfolding incomplete_late_initialization late_initialize_from_read_one_output post_read_one
incomplete_iff observed latest = ground arith

-- Late initialisation is idempotent: with what was read before it fills nothing more.
pub late_initialize_idem :
    (observed latest : Certificate)
    → late_initialize_from_read_one_output observed
        (late_initialize_from_read_one_output observed latest)
      ≡ late_initialize_from_read_one_output observed latest
unfolding late_initialize_from_read_one_output
late_initialize_idem observed latest = ground arith

module _ (X : Errors) (S : Service X) (r : RangeOrder) (k : SetConditions)
    (rm : ResourceManager) where
  -- After a read, `LateInitialize` asks to be called again in five seconds if the key algorithm, the export
  -- option or the alternative names are missing both in the resource and in what was read, and
  -- returns no error otherwise.
  pub late_finish_error :
      (observed latest : Certificate)
      → (late_finish X S r k rm observed latest).error ≡ (
          if (is_none latest.spec.key_algorithm && is_none observed.spec.key_algorithm)
            || (no_export latest.spec.options && no_export observed.spec.options)
            || (is_none latest.spec.subject_alternative_names
                && is_none observed.spec.subject_alternative_names)
          then some (X.needed_after 5)
          else none)
  unfolding late_finish
  late_finish_error observed latest = ground (arith, incomplete_iff observed latest)
