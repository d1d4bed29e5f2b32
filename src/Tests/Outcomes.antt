-- ===== src/Tests/Outcomes.antt =====
-- The theorems on conditions, references and the mirrored tags.
use aws_controllers_k8s_acm.Base.{
  ◌≡◌, ◌≢◌, ◌↔◌, refl, String, true, false, Option, none, some, is_some, List, [], ◌∷◌, string_dec,
}
use mathlib.Core.Option as O
use aws_controllers_k8s_acm.Base.Strings.{has_prefix}
use aws_controllers_k8s_acm.Go.{ok}
use aws_controllers_k8s_acm.Api.{Certificate, AwsResourceReferenceWrapper, no_metadata}
use aws_controllers_k8s_acm.Sdk.{Call, CertificateAuthority, get_certificate_authority}
use aws_controllers_k8s_acm.Certificate.AwsTags.{mirror_tags}
use aws_controllers_k8s_acm.Certificate.AwsTags.Laws.{mirrored_is_kept}
use aws_controllers_k8s_acm.Certificate.Conditions.{
  conditions_of, terminal_aws_error, terminal_message, recoverable_message, on_error, on_success,
}
use aws_controllers_k8s_acm.Certificate.Conditions.Marks.{
  terminal_type, recoverable_type, synced_type, last_of, restate,
}
use aws_controllers_k8s_acm.Certificate.Conditions.Outcomes.{
  on_error-terminal, on_error-recoverable, on_success_lem,
}
use aws_controllers_k8s_acm.Certificate.References.{
  clear_resolved_references, validate_reference_fields, check_referenced, Resolved, resolve_answer,
  resolve_in, resolve_reference_for_certificate_authority_arn, resolve_references,
  set_authority_arn, get_referenced_resource_state_certificate_authority,
}
use aws_controllers_k8s_acm.Base.{any, ◌++◌}
use aws_controllers_k8s_acm.Go.Avoids.{calls}
use aws_controllers_k8s_acm.Sdk.{get_certificate_authority}
use aws_controllers_k8s_acm.Tags.Ack.{elems}
use aws_controllers_k8s_acm.Tags.Sync.{sync_tags}
use aws_controllers_k8s_acm.Certificate.AwsTags.Laws.{removes}
use aws_controllers_k8s_acm.Certificate.References.State.{IsReferable, check_referenced-IsReferable}
use aws_controllers_k8s_acm.Certificate.References.Laws.{
  Refers, resolve_references-ok, resolve_references-both, clear-resolve_references,
}
use aws_controllers_k8s_acm.Tests.Fixtures.{
  Fault, reference, plain, lasting, final, faults, service, manager, tag, created, stored_order,
  stored_order-IsRange, own_namespace,
}

-- What the runs below compute with.
program : Unit {0}
unfolding terminal_message terminal_aws_error string_dec clear_resolved_references
    validate_reference_fields check_referenced get_referenced_resource_state_certificate_authority
    resolve_answer resolve_in resolve_reference_for_certificate_authority_arn resolve_references
program = tt

on_error-terminal_example :
    (ko' : Certificate) × (on_error faults manager (some created) (lasting (plain "bad"))
      ≡ ok (record { resource = some ko'; error = some final }))
    × (last_of terminal_type (conditions_of ko')
        ≡ some (record { type_ = terminal_type; status = "True"; message = some "bad" }))
    × ((u : String)
        → u ≢ terminal_type
        → last_of u (conditions_of ko') ≡ last_of u (conditions_of created))
unfolding program
on_error-terminal_example =
    on_error-terminal faults manager created (lasting (plain "bad")) "bad" refl refl

on_error-recoverable_example :
    (ko' : Certificate) × (on_error faults manager (some created) (plain "later")
      ≡ ok (record { resource = some ko'; error = some (plain "later") }))
    × (last_of recoverable_type (conditions_of ko')
        ≡ some (record {
          type_ = recoverable_type;
          status = "True";
          message = some (recoverable_message faults (plain "later"));
        }))
    × (last_of terminal_type (conditions_of ko')
        ≡ O.map (restate "False" none) (last_of terminal_type (conditions_of created)))
    × ((u : String)
        → u ≢ terminal_type
        → u ≢ recoverable_type
        → last_of u (conditions_of ko') ≡ last_of u (conditions_of created))
unfolding program
on_error-recoverable_example = on_error-recoverable faults manager created (plain "later") refl tt

on_success_lem_example :
    (ko' : Certificate) × (on_success faults manager (some created)
      ≡ ok (record { resource = some ko'; error = none }))
    × (last_of terminal_type (conditions_of ko')
        ≡ O.map (restate "False" none) (last_of terminal_type (conditions_of created)))
    × (last_of recoverable_type (conditions_of ko')
        ≡ O.map (restate "False" none) (last_of recoverable_type (conditions_of created)))
    × (last_of synced_type (conditions_of ko')
        ≡ some (record { type_ = synced_type; status = "True"; message = none }))
    × ((u : String)
        → u ≢ terminal_type
        → u ≢ recoverable_type
        → u ≢ synced_type
        → last_of u (conditions_of ko') ≡ last_of u (conditions_of created))
on_success_lem_example = on_success_lem faults manager created

abbrev to_authority : Option AwsResourceReferenceWrapper
to_authority = some (record { from = some (record { name = some "ca"; namespace = none }) })

abbrev referring : Certificate
referring = record created {
  spec = record (created.spec) { certificate_authority_ref = to_authority };
}

abbrev resolved_referring : Resolved faults
resolved_referring = record {
  ko = set_authority_arn (some "arn:ca") referring;
  has_references = true;
  error = none;
}

abbrev authority_calls : List (Call Fault)
authority_calls = get_certificate_authority "" "ca" ∷ []

resolve_run :
    resolve_references faults service own_namespace manager referring []
    ≡ (ok resolved_referring, authority_calls)
unfolding program
resolve_run = refl

clear-resolve_references_example :
    (clear_resolved_references (set_authority_arn (some "arn:ca") referring)).spec ≡ referring.spec
unfolding program
clear-resolve_references_example =
    clear-resolve_references faults service own_namespace manager referring resolved_referring []
      authority_calls refl resolve_run

resolve_references-ok_example :
    (namespace name arn : String) × (obj : CertificateAuthority) × Refers faults service
      own_namespace manager referring namespace name
    × (authority_calls ≡ [] ++ (get_certificate_authority namespace name ∷ []))
    × (service.certificate_authority namespace name [] ≡ ok obj)
    × IsReferable obj arn
    × (resolved_referring.ko.spec
        ≡ (record (referring.spec) { certificate_authority_arn = some arn }))
resolve_references-ok_example =
    resolve_references-ok faults service own_namespace manager referring resolved_referring []
      authority_calls resolve_run refl refl

abbrev with_both : Certificate
with_both = set_authority_arn (some "arn:mine") referring

abbrev both_resolved : Resolved faults
both_resolved = record {
  ko = set_authority_arn (some "arn:ca") referring;
  has_references = true;
  error = some (reference "both" "CertificateAuthorityARN" "CertificateAuthorityRef");
}

both_run :
    resolve_references faults service own_namespace manager with_both []
    ≡ (ok both_resolved, authority_calls)
unfolding program
both_run = refl

resolve_references-both_example : is_some both_resolved.error ≡ true
resolve_references-both_example =
    resolve_references-both faults service own_namespace manager with_both both_resolved []
      authority_calls refl refl both_run

abbrev authority : CertificateAuthority
authority = record {
  conditions = some (record { type_ = "ACK.ResourceSynced"; status = "True"; message = none } ∷ []);
  ack_resource_metadata = some (record no_metadata { arn = some "arn:ca" });
}

check_referenced-IsReferable_example :
    (check_referenced faults "ns" "ca" authority ≡ none)
    ↔ ((arn : String) × IsReferable authority arn)
check_referenced-IsReferable_example = check_referenced-IsReferable faults "ns" "ca" authority

abbrev in_stack : Certificate
in_stack = record created {
  spec = record (created.spec) { tags = some (tag "aws:stack" "s" ∷ tag "old" "1" ∷ []) };
}

aws_key : has_prefix "aws:stack" "aws:" ≡ true
unfolding has_prefix
aws_key = refl

mirrored_is_kept_example :
    any (removes "aws:stack") (
      calls (
        sync_tags faults service stored_order "arn:1"
          (elems (mirror_tags stored_order created in_stack).spec.tags)
          (elems in_stack.spec.tags)
          []))
    ≡ false
mirrored_is_kept_example =
    mirrored_is_kept stored_order stored_order-IsRange faults service "arn:1" "aws:stack" created
      in_stack [] aws_key
