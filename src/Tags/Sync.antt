-- ===== src/Tags/Sync.antt =====
-- pkg/tags/sync.go: `SyncTags`, `addTags`, `removeTags`, `ListTags`, `resourceTagsFromSDKTags`.
-- The pure parts return `none` where the code dereferences a nil pointer.
pub mod Diff
pub mod Remote
pub mod Converge
pub mod Quiet
pub mod Safety
pub mod NilValue
pub mod Settle
use mathlib.Core.Option as O
use aws_controllers_k8s_acm.Base.{
  String, Bool, true, false, not, Option, none, some, List, [], ◌∷◌, map, ◌==◌, string_dec, is_some,
  if◌then◌else◌,
}
use aws_controllers_k8s_acm.GoMap.{GoMap, lookup, insert, RangeOrder}
use aws_controllers_k8s_acm.Go.{ok, Go, return, crash, deref, ◌>>=◌, ◌>>◌}
use aws_controllers_k8s_acm.Api.{Tag}
use aws_controllers_k8s_acm.Sdk.{
  Errors, Service, GoM, SdkTag, add_tags_to_certificate, remove_tags_from_certificate,
  list_tags_for_certificate,
}
use aws_controllers_k8s_acm.Sdk.Metrics.{api_call}

-- A `map[string]*string`.
abbrev pub TagMap : Type 0
TagMap = GoMap (Option String)

-- `for _, t := range tags { m[*t.Key] = t.Value }`
unfoldable pub tag_map : TagMap → List Tag → Option TagMap
tag_map m [] = some m
tag_map m (t ∷ ts) = elim t.key [ none ↦ none | some k ↦ tag_map (insert k t.value m) ts ]

-- `*ev != *v`
unfoldable pub differ : Option String → Option String → Option Bool
differ (some a) (some b) = some (not (a == b))
differ _ _ = none

-- One round of the loop that fills `toAdd`.
unfoldable pub add_step : TagMap → TagMap → String → Option String → Option TagMap
unfolding differ
add_step existing to_add k v = elim (lookup k existing) [
  | none ↦ some (insert k v to_add)
  | some ev ↦ O.map (λ d. if d then insert k v to_add else to_add) (differ ev v)
]

unfoldable pub add_loop : TagMap → TagMap → TagMap → Option TagMap
unfolding add_step
add_loop existing to_add [] = some to_add
add_loop existing to_add ((k, v) ∷ rest) = elim (add_step existing to_add k v) [
  | none ↦ none
  | some to_add' ↦ add_loop existing to_add' rest
]

-- The loop that fills `toDelete`.
unfoldable pub delete_loop : TagMap → TagMap → TagMap → TagMap
delete_loop desired to_delete [] = to_delete
delete_loop desired to_delete ((k, v) ∷ rest) =
    delete_loop desired (if is_some (lookup k desired) then to_delete else insert k v to_delete)
      rest

-- The entries of a map as the SDK's tags.
unfoldable pub sdk_tags : TagMap → List SdkTag
sdk_tags [] = []
sdk_tags ((k, v) ∷ m) = record { key = some k; value = v } ∷ sdk_tags m

-- The loop that logs `*v` for each entry: true if no value is nil.
unfoldable pub values_set : TagMap → Bool
values_set [] = true
values_set ((k, none) ∷ m) = false
values_set ((k, some v) ∷ m) = values_set m

unfoldable pub resource_tags_from_sdk_tags : List SdkTag → List Tag
resource_tags_from_sdk_tags [] = []
resource_tags_from_sdk_tags (t ∷ ts) =
    record { key = t.key; value = t.value } ∷ resource_tags_from_sdk_tags ts

module _ (X : Errors) (S : Service X) (r : RangeOrder) where
  unfoldable pub add_tags : String → TagMap → GoM X (Unit {0})
  unfolding sdk_tags
  add_tags arn m =
      let tags = sdk_tags (r.order (Option String) m) in
      api_call X "UPDATE" "AddTagsToCertificate" (add_tags_to_certificate arn tags)
        (S.add_tags arn tags)

  unfoldable pub remove_tags : String → TagMap → GoM X (Unit {0})
  unfolding sdk_tags
  remove_tags arn m =
      let tags = sdk_tags (r.order (Option String) m) in
      api_call X "UPDATE" "RemoveTagsFromCertificate" (remove_tags_from_certificate arn tags)
        (S.remove_tags arn tags)

  -- `if len(m) > 0 { log; update }`
  unfoldable pub if_any : (TagMap → GoM X (Unit {0})) → TagMap → GoM X (Unit {0})
  unfolding values_set
  if_any update [] = return tt
  if_any update (e ∷ m) = if values_set (e ∷ m) then update (e ∷ m) else crash

  -- `SyncTags`, once the two maps are built.
  unfoldable pub sync_maps : String → TagMap → TagMap → GoM X (Unit {0})
  unfolding add_loop delete_loop if_any add_tags remove_tags
  sync_maps arn desired existing = do
    to_add ← deref (add_loop existing [] (r.order (Option String) desired))
    let to_delete = delete_loop desired [] (r.order (Option String) existing)
    if_any (remove_tags arn) to_delete
    if_any (add_tags arn) to_add

  unfoldable pub sync_tags : String → List Tag → List Tag → GoM X (Unit {0})
  unfolding tag_map sync_maps
  sync_tags arn a_tags b_tags = do
    desired ← deref (tag_map [] a_tags)
    existing ← deref (tag_map [] b_tags)
    sync_maps arn desired existing

module _ (X : Errors) (S : Service X) where
  unfoldable pub list_tags : String → GoM X (List Tag)
  unfolding resource_tags_from_sdk_tags
  list_tags arn = do
    tags ←
        api_call X "GET" "ListTagsForCertificate" (list_tags_for_certificate arn) (S.list_tags arn)
    return (resource_tags_from_sdk_tags tags)
