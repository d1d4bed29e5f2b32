-- ===== src/Tests/Store.antt =====
-- A service that stores the tags of a certificate and lists what it stores, and a round of `ListTags`
-- and `SyncTags` against it.
use aws_controllers_k8s_acm.Base.{
  ◌≡◌, refl, ap, ◌∙◌, String, Option, none, some, List, [], ◌∷◌, arith, ◌==◌, if◌then◌else◌,
  or_else, string_dec, Option-cases, inl, inr,
}
use aws_controllers_k8s_acm.GoMap.{
  lookup, insert, erase, NodupKeys, lookup-insert, lookup-erase, lookup-nil, insert-NodupKeys,
  erase-NodupKeys,
}
use aws_controllers_k8s_acm.Go.{Outcome, ok}
use aws_controllers_k8s_acm.Api.{Tag}
use aws_controllers_k8s_acm.Sdk.{
  Call, Service, SdkTag, add_tags_to_certificate, remove_tags_from_certificate,
}
use aws_controllers_k8s_acm.Tags.Sync.{
  TagMap, tag_map, sdk_tags, sync_tags, list_tags, resource_tags_from_sdk_tags,
}
use aws_controllers_k8s_acm.Tags.Sync.Remote.{drop_value, put_all, drop_all, tag_after}
use aws_controllers_k8s_acm.Tags.Sync.Settle.{IsTagStore, one_round_settles}
use aws_controllers_k8s_acm.Tests.Fixtures.{
  Fault, faults, service, stored_order, stored_order-IsRange, tag,
}

abbrev put : TagMap → List SdkTag → TagMap
put m [] = m
put m (t ∷ ts) = elim t.key [ none ↦ put m ts | some j ↦ put (insert j t.value m) ts ]

abbrev dropped : TagMap → String → Option String → TagMap
dropped m j none = erase j m
dropped m j (some x) = elim (lookup j m) [ some (some y) ↦ if x == y then erase j m else m | _ ↦ m ]

abbrev drop : TagMap → List SdkTag → TagMap
drop m [] = m
drop m (t ∷ ts) = elim t.key [ none ↦ drop m ts | some j ↦ drop (dropped m j t.value) ts ]

abbrev effect : TagMap → Call Fault → TagMap
effect m (add_tags_to_certificate a tags) = if a == "arn:1" then put m tags else m
effect m (remove_tags_from_certificate a tags) = if a == "arn:1" then drop m tags else m
effect m _ = m

abbrev store_after : TagMap → List (Call Fault) → TagMap
store_after m [] = m
store_after m (c ∷ cs) = store_after (effect m c) cs

lookup-put :
    (k : String) (m : TagMap) (ts : List SdkTag) → lookup k (put m ts) ≡ put_all k (lookup k m) ts
lookup-put k m [] = refl
lookup-put k m (t ∷ ts) = elim (Option-cases t.key) [
  | inl e ↦ rw e (lookup-put k m ts)
  | inr (j, e) ↦ rw e (
      lookup-put k (insert j t.value m) ts ∙ ap (λ o. put_all k o ts) (lookup-insert k j t.value m))
]

lookup-dropped :
    (k j : String) (v : Option String) (m : TagMap)
    → lookup k (dropped m j v) ≡ (if k == j then drop_value v (lookup k m) else lookup k m)
lookup-dropped k j none m = lookup-erase k j m
lookup-dropped k j (some x) m = ground (arith, lookup-erase k j m)

lookup-drop :
    (k : String) (m : TagMap) (ts : List SdkTag) → lookup k (drop m ts) ≡ drop_all k (lookup k m) ts
lookup-drop k m [] = refl
lookup-drop k m (t ∷ ts) = elim (Option-cases t.key) [
  | inl e ↦ rw e (lookup-drop k m ts)
  | inr (j, e) ↦ rw e (
      lookup-drop k (dropped m j t.value) ts
      ∙ ap (λ o. drop_all k o ts) (lookup-dropped k j t.value m))
]

lookup-effect :
    (k : String) (m : TagMap) (c : Call Fault)
    → lookup k (effect m c) ≡ tag_after "arn:1" k (lookup k m) (c ∷ [])
lookup-effect k m (add_tags_to_certificate a tags) = ground (arith, lookup-put k m tags)
lookup-effect k m (remove_tags_from_certificate a tags) = ground (arith, lookup-drop k m tags)
lookup-effect k m _ = refl

lookup-store_after :
    (k : String) (m : TagMap) (t : List (Call Fault))
    → lookup k (store_after m t) ≡ tag_after "arn:1" k (lookup k m) t
lookup-store_after k m [] = refl
lookup-store_after k m (c ∷ cs) =
    lookup-store_after k (effect m c) cs ∙ ap (λ o. tag_after "arn:1" k o cs) (lookup-effect k m c)

-- Tags that are listed are read as the map.
read_back :
    (m known : TagMap)
    → NodupKeys m
    → (out : TagMap) × (tag_map known (resource_tags_from_sdk_tags (sdk_tags m)) ≡ some out)
      × ((k : String) → lookup k out ≡ or_else (lookup k m) (lookup k known))
unfolding tag_map sdk_tags resource_tags_from_sdk_tags lookup
read_back [] known u = (known, refl, λ k. refl)
read_back ((j, v) ∷ m) known (fresh, u) =
    let (out, made, same) = read_back m (insert j v known) u in
    (out, made, λ k. ground (arith, same k, lookup-insert k j v known, fresh))

put-NodupKeys : (m : TagMap) (ts : List SdkTag) → NodupKeys m → NodupKeys (put m ts)
put-NodupKeys m [] u = u
put-NodupKeys m (t ∷ ts) u = elim (Option-cases t.key) [
  | inl e ↦ rw e (put-NodupKeys m ts u)
  | inr (j, e) ↦ rw e (put-NodupKeys (insert j t.value m) ts (insert-NodupKeys j t.value m u))
]

dropped-NodupKeys :
    (m : TagMap) (j : String) (v : Option String) → NodupKeys m → NodupKeys (dropped m j v)
dropped-NodupKeys m j none u = erase-NodupKeys j m u
dropped-NodupKeys m j (some x) u = ground (arith, erase-NodupKeys j m u)

drop-NodupKeys : (m : TagMap) (ts : List SdkTag) → NodupKeys m → NodupKeys (drop m ts)
drop-NodupKeys m [] u = u
drop-NodupKeys m (t ∷ ts) u = elim (Option-cases t.key) [
  | inl e ↦ rw e (drop-NodupKeys m ts u)
  | inr (j, e) ↦ rw e (drop-NodupKeys (dropped m j t.value) ts (dropped-NodupKeys m j t.value u))
]

effect-NodupKeys : (m : TagMap) (c : Call Fault) → NodupKeys m → NodupKeys (effect m c)
effect-NodupKeys m (add_tags_to_certificate a tags) u = ground (arith, put-NodupKeys m tags u)
effect-NodupKeys m (remove_tags_from_certificate a tags) u = ground (arith, drop-NodupKeys m tags u)
effect-NodupKeys m _ u = u

store_after-NodupKeys :
    (m : TagMap) (t : List (Call Fault)) → NodupKeys m → NodupKeys (store_after m t)
store_after-NodupKeys m [] u = u
store_after-NodupKeys m (c ∷ cs) u = store_after-NodupKeys (effect m c) cs (effect-NodupKeys m c u)

abbrev at_first : TagMap
at_first = ("env", some "prod") ∷ ("old", some "1") ∷ []

abbrev storing : Service faults
storing = record service { list_tags = λ arn t. ok (sdk_tags (store_after at_first t)) }

listing : {a b : List SdkTag} → ◌≡◌ {A = Outcome Fault (List SdkTag)} (ok a) (ok b) → b ≡ a
listing h = cc

storing-IsTagStore : IsTagStore faults storing "arn:1" (λ k. lookup k at_first)
storing-IsTagStore = record {
  lists = λ t tags fine h.
      let m = store_after at_first t in
      let (out, made, same) =
        read_back m []
          (store_after-NodupKeys at_first t (unfold lookup string_dec in (refl, (refl, tt)))) in
      (
        out,
        ap (λ ts. tag_map [] (resource_tags_from_sdk_tags ts)) (listing h) ∙ made,
        λ k.
            ground
              (arith, same k, lookup-nil {V = Option String} k, lookup-store_after k at_first t),
      );
}

abbrev desired_tags : List Tag
desired_tags = tag "env" "dev" ∷ tag "team" "pki" ∷ []

abbrev first_list : List Tag
first_list = tag "env" "prod" ∷ tag "old" "1" ∷ []

abbrev t1 : List (Call Fault)
t1 = (list_tags faults storing "arn:1" []).1

abbrev t2 : List (Call Fault)
t2 = (sync_tags faults storing stored_order "arn:1" desired_tags first_list t1).1

abbrev t3 : List (Call Fault)
t3 = (list_tags faults storing "arn:1" t2).1

program : Unit {0}
unfolding string_dec lookup insert erase sync_tags list_tags sdk_tags resource_tags_from_sdk_tags
program = tt

one_round_settles_example :
    sync_tags faults storing stored_order "arn:1" desired_tags desired_tags t3 ≡ (ok tt, t3)
unfolding program
one_round_settles_example =
    one_round_settles faults storing stored_order stored_order-IsRange "arn:1"
      (λ k. lookup k at_first) desired_tags first_list desired_tags [] t1 t2 t3 storing-IsTagStore
      refl refl refl refl
