-- ===== src/Tags/Sync/Safety.antt =====
-- When `SyncTags` dereferences a nil pointer, and when it does not.
use aws_controllers_k8s_acm.Base.{
  ◌≡◌, ◌≢◌, refl, ◌∙◌, sym, String, true, Option, none, some, List, [], ◌∷◌, arith, ◌==◌, inl, inr,
  Bool-cases, Option-cases, All,
}
use aws_controllers_k8s_acm.GoMap.{
  lookup, insert, NodupKeys, RangeOrder, IsRange, lookup-insert, lookup-nil,
}
use aws_controllers_k8s_acm.Go.{Outcome, ok, err, panic, continue}
use aws_controllers_k8s_acm.Api.{Tag}
use aws_controllers_k8s_acm.Sdk.{
  Errors, Service, Call, add_tags_to_certificate, remove_tags_from_certificate, SdkTag,
}
use aws_controllers_k8s_acm.Sdk.Metrics.{api_call}
use aws_controllers_k8s_acm.Tags.Sync.{
  TagMap, tag_map, add_step, add_loop, delete_loop, values_set, sdk_tags, add_tags, remove_tags,
  if_any, sync_maps, sync_tags,
}
use aws_controllers_k8s_acm.Tags.Sync.Diff.{
  tag_map-NodupKeys, lookup-delete_loop, delete_loop-NodupKeys, add_loop-NodupKeys,
}

-- Every tag has a key and a value.
abbrev pub IsComplete : Tag → Type 0
IsComplete t = (t.key ≢ none) × (t.value ≢ none)

-- No value of the map is nil.
abbrev ValuesSet : TagMap → Type 0
ValuesSet m = (k : String) → lookup k m ≢ some none

ValuesSet-insert :
    (k : String) (v : Option String) (m : TagMap)
    → v ≢ none
    → ValuesSet m
    → ValuesSet (insert k v m)
ValuesSet-insert k v m n f j = ground (arith, lookup-insert j k v m, f j)

tag_map_total :
    (m : TagMap) (tags : List Tag)
    → ValuesSet m
    → All IsComplete tags
    → (out : TagMap) × (tag_map m tags ≡ some out) × ValuesSet out
unfolding tag_map
tag_map_total m [] f _ = (m, refl, f)
tag_map_total m (t ∷ ts) f ((key, value), rest) = elim (Option-cases t.key) [
  | inl e ↦ absurd (key e)
  | inr (k, e) ↦
      let (out, p, g) =
        tag_map_total (insert k t.value m) ts (ValuesSet-insert k t.value m value f) rest in
      (out, rw (e, tag_map) p, g)
]

values_set_of : (m : TagMap) → NodupKeys m → ValuesSet m → values_set m ≡ true
unfolding values_set lookup
values_set_of [] u f = refl
values_set_of ((k, none) ∷ m) u f = absurd (f k (ground arith))
values_set_of ((k, some v) ∷ m) (fresh, u) f = values_set_of m u (λ j e. f j (ground arith))

add_step_total :
    (existing acc : TagMap) (k : String) (v : Option String)
    → v ≢ none
    → ValuesSet existing
    → ValuesSet acc
    → (out : TagMap) × (add_step existing acc k v ≡ some out) × ValuesSet out
unfolding add_step
add_step_total existing acc k none n f g = absurd (n refl)
add_step_total existing acc k (some v) n f g = elim (Option-cases (lookup k existing)) [
  | inl e ↦ (insert k (some v) acc, rw (e, add_step), ValuesSet-insert k (some v) acc n g)
  | inr (none, e) ↦ absurd (f k e)
  | inr (some ev, e) ↦ elim (Bool-cases (ev == v)) [
    | inl same ↦ (acc, ground arith, g)
    | inr other ↦ (insert k (some v) acc, ground arith, ValuesSet-insert k (some v) acc n g)
  ]
]

add_loop_total :
    (existing acc m : TagMap)
    → NodupKeys m
    → ValuesSet m
    → ValuesSet existing
    → ValuesSet acc
    → (out : TagMap) × (add_loop existing acc m ≡ some out) × ValuesSet out
unfolding add_loop
add_loop_total existing acc [] u h f g = (acc, refl, g)
add_loop_total existing acc ((k, v) ∷ m) (fresh, u) h f g =
    let (acc', e, g') =
      add_step_total existing acc k v (λ n. h k (unfold lookup in ground arith)) f g in
    let (out, p, g'') =
      add_loop_total existing acc' m u (λ j e. h j (unfold lookup in ground arith)) f g' in
    (out, rw (e, add_loop) p, g'')

module _ (X : Errors) (S : Service X) (r : RangeOrder) (R : IsRange r) (arn : String) where
  if_any_safe :
      (update : TagMap → List (Call X.Err) → Outcome X.Err (Unit {0}) × List (Call X.Err))
      (m : TagMap) (t : List (Call X.Err))
      → values_set m ≡ true
      → ((t' : List (Call X.Err)) → (update m t').0 ≢ panic)
      → (if_any X S r update m t).0 ≢ panic
  unfolding if_any
  if_any_safe update [] t set safe = λ e. cc
  if_any_safe update (d ∷ ds) t set safe = rw set (safe t)

  continue_safe :
      (p : Outcome X.Err (Unit {0}) × List (Call X.Err))
      (n : List (Call X.Err) → Outcome X.Err (Unit {0}) × List (Call X.Err))
      → p.0 ≢ panic
      → ((t : List (Call X.Err)) → (n t).0 ≢ panic)
      → (continue (λ _. n) p).0 ≢ panic
  continue_safe (ok _, t) n h k = k t
  continue_safe (err e, t) n h k = λ q. cc
  continue_safe (panic, t) n h k = absurd (h refl)

  api_call_safe :
      (op id : String) (c : Call X.Err) (answer : List (Call X.Err) → Outcome X.Err (Unit {0}))
      (t : List (Call X.Err))
      → answer t ≢ panic
      → (api_call X op id c answer t).0 ≢ panic
  api_call_safe op id c answer t h = ground arith

  remove_tags_safe :
      (m : TagMap) (t : List (Call X.Err))
      → ((tags : List SdkTag) (t' : List (Call X.Err)) → S.remove_tags arn tags t' ≢ panic)
      → (remove_tags X S r arn m t).0 ≢ panic
  unfolding remove_tags
  remove_tags_safe m t h =
      let tags = sdk_tags (r.order (Option String) m) in
      api_call_safe "UPDATE" "RemoveTagsFromCertificate" (remove_tags_from_certificate arn tags)
        (S.remove_tags arn tags) t (h tags t)

  add_tags_safe :
      (m : TagMap) (t : List (Call X.Err))
      → ((tags : List SdkTag) (t' : List (Call X.Err)) → S.add_tags arn tags t' ≢ panic)
      → (add_tags X S r arn m t).0 ≢ panic
  unfolding add_tags
  add_tags_safe m t h =
      let tags = sdk_tags (r.order (Option String) m) in
      api_call_safe "UPDATE" "AddTagsToCertificate" (add_tags_to_certificate arn tags)
        (S.add_tags arn tags) t (h tags t)

  deleted_ValuesSet :
      (desired existing : TagMap)
      → NodupKeys existing
      → ValuesSet existing
      → ValuesSet (delete_loop desired [] (r.order (Option String) existing))
  deleted_ValuesSet desired existing w f k = ground (
    arith,
    f k,
    lookup-delete_loop desired [] k (r.order (Option String) existing)
        (R.order-NodupKeys (Option String) existing w),
    R.lookup-order (Option String) k existing,
    lookup-nil {V = Option String} k,
  )

  maps_safe :
      (desired existing : TagMap) (t : List (Call X.Err))
      → NodupKeys desired
      → NodupKeys existing
      → ValuesSet desired
      → ValuesSet existing
      → ((tags : List SdkTag) (t' : List (Call X.Err)) → S.add_tags arn tags t' ≢ panic)
      → ((tags : List SdkTag) (t' : List (Call X.Err)) → S.remove_tags arn tags t' ≢ panic)
      → (sync_maps X S r arn desired existing t).0 ≢ panic
  unfolding sync_maps
  maps_safe desired existing t u w f g add remove =
      let (to_add, p, h) =
        add_loop_total existing [] (r.order (Option String) desired)
          (R.order-NodupKeys (Option String) desired u)
          (λ k e. f k (sym (R.lookup-order (Option String) k desired) ∙ e)) g
          (λ k e. ground (arith, lookup-nil {V = Option String} k)) in
      rw p (
        continue_safe _ (if_any X S r (add_tags X S r arn) to_add)
          (if_any_safe (remove_tags X S r arn)
            (delete_loop desired [] (r.order (Option String) existing)) t
            (values_set_of _
              (delete_loop-NodupKeys desired [] (r.order (Option String) existing) tt)
              (deleted_ValuesSet desired existing w g))
            (λ t'. remove_tags_safe _ t' remove))
          (λ s.
            if_any_safe (add_tags X S r arn) to_add s
              (values_set_of to_add (add_loop-NodupKeys existing [] _ tt p) h)
              (λ t'. add_tags_safe to_add t' add)))

  -- If every tag on both sides has a key and a value, and the two calls of the SDK do not panic,
  -- then `SyncTags` does not panic.
  pub sync_tags_safe :
      (a_tags b_tags : List Tag) (t : List (Call X.Err))
      → All IsComplete a_tags
      → All IsComplete b_tags
      → ((tags : List SdkTag) (t' : List (Call X.Err)) → S.add_tags arn tags t' ≢ panic)
      → ((tags : List SdkTag) (t' : List (Call X.Err)) → S.remove_tags arn tags t' ≢ panic)
      → (sync_tags X S r arn a_tags b_tags t).0 ≢ panic
  unfolding sync_tags
  sync_tags_safe a_tags b_tags t ca cb add remove =
      let empty : ValuesSet [] = λ k e. ground (arith, lookup-nil {V = Option String} k) in
      let (desired, p, f) = tag_map_total [] a_tags empty ca in
      let (existing, q, g) = tag_map_total [] b_tags empty cb in
      rw (p, q)
        (maps_safe desired existing t (tag_map-NodupKeys [] a_tags tt p)
          (tag_map-NodupKeys [] b_tags tt q) f g add remove)
