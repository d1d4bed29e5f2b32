-- ===== src/Tests/Tags.antt =====
-- The tag theorems at concrete tags.
use aws_controllers_k8s_acm.Base.{◌≡◌, ◌≢◌, refl, none, some, List, [], ◌∷◌, arith, string_dec}
use aws_controllers_k8s_acm.GoMap.{lookup, insert, erase}
use aws_controllers_k8s_acm.Go.{ok, panic}
use aws_controllers_k8s_acm.Api.{Tag}
use aws_controllers_k8s_acm.Sdk.{
  Call, add_tags_to_certificate, remove_tags_from_certificate, record_api_call,
}
use aws_controllers_k8s_acm.Tags.Sync.{sync_tags}
use aws_controllers_k8s_acm.Tags.Ack.{convert_to_ordered_ack_tags, from_ack_tags}
use aws_controllers_k8s_acm.Tags.Ack.Convert.{lookup-convert-from_ack_tags, from_ack_tags-convert}
use aws_controllers_k8s_acm.Tags.Sync.Remote.{tag_after}
use aws_controllers_k8s_acm.Tags.Sync.Converge.{sync_tags-converges}
use aws_controllers_k8s_acm.Tags.Sync.Quiet.{sync_tags-quiet}
use aws_controllers_k8s_acm.Tags.Sync.Safety.{sync_tags_safe}
use aws_controllers_k8s_acm.Tags.Sync.NilValue.{sync_tags-nil_value}
use aws_controllers_k8s_acm.Tests.Fixtures.{
  Fault, faults, service, stored_order, stored_order-IsRange, tag,
}

-- What the runs below compute with.
program : Unit {0}
unfolding string_dec lookup insert erase sync_tags
program = tt

abbrev desired_tags : List Tag
desired_tags = tag "env" "dev" ∷ tag "team" "pki" ∷ []

abbrev latest_tags : List Tag
latest_tags = tag "env" "prod" ∷ tag "old" "1" ∷ []

abbrev after_sync : List (Call Fault)
after_sync =
    remove_tags_from_certificate "arn:1" (record { key = some "old"; value = some "1" } ∷ [])
    ∷ record_api_call "UPDATE" "RemoveTagsFromCertificate" none
    ∷ add_tags_to_certificate "arn:1" (
        record { key = some "env"; value = some "dev" }
        ∷ record { key = some "team"; value = some "pki" }
        ∷ [])
    ∷ record_api_call "UPDATE" "AddTagsToCertificate" none
    ∷ []

synced :
    sync_tags faults service stored_order "arn:1" desired_tags latest_tags [] ≡ (ok tt, after_sync)
unfolding program
synced = refl

sync_tags-converges_example : tag_after "arn:1" "old" (some (some "1")) after_sync ≡ none
unfolding program
sync_tags-converges_example =
    sync_tags-converges faults service stored_order "arn:1" "old" stored_order-IsRange
      (some (some "1")) desired_tags latest_tags [] after_sync refl refl refl synced

sync_tags-quiet_example :
    sync_tags faults service stored_order "arn:1" (tag "env" "dev" ∷ []) (tag "env" "dev" ∷ []) []
    ≡ (ok tt, [])
unfolding program
sync_tags-quiet_example =
    sync_tags-quiet faults service stored_order "arn:1" stored_order-IsRange (tag "env" "dev" ∷ [])
      (tag "env" "dev" ∷ []) [] refl refl (λ k. refl) (λ k. ground arith)

sync_tags_safe_example :
    (sync_tags faults service stored_order "arn:1" desired_tags latest_tags []).0 ≢ panic
sync_tags_safe_example =
    sync_tags_safe faults service stored_order stored_order-IsRange "arn:1" desired_tags latest_tags
      [] (ground arith) (ground arith) (λ tags t p. ground arith) (λ tags t p. ground arith)

abbrev valueless : Tag
valueless = record { key = some "env"; value = none }

sync_tags-nil_value_example :
    sync_tags faults service stored_order "arn:1" (valueless ∷ []) latest_tags [] ≢ (ok tt, [])
unfolding program
sync_tags-nil_value_example =
    sync_tags-nil_value faults service stored_order stored_order-IsRange "arn:1" "env"
      (valueless ∷ []) latest_tags [] [] refl refl

lookup-convert-from_ack_tags_example :
    lookup "b"
      (convert_to_ordered_ack_tags
        (some (from_ack_tags stored_order (("a", "1") ∷ ("b", "2") ∷ []) ("b" ∷ [])))).0
    ≡ some "2"
unfolding program
lookup-convert-from_ack_tags_example =
    lookup-convert-from_ack_tags stored_order stored_order-IsRange "b"
      (("a", "1") ∷ ("b", "2") ∷ []) ("b" ∷ []) (refl, (refl, tt))

from_ack_tags-convert_example :
    (let (m, key_order) = convert_to_ordered_ack_tags (some desired_tags) in
      from_ack_tags stored_order m key_order ≡ desired_tags)
unfolding program
from_ack_tags-convert_example =
    from_ack_tags-convert stored_order stored_order-IsRange desired_tags
      ("env", "dev", refl, refl, ("team", "pki", refl, refl, tt))
