-- ===== src/Tags/Sync/Diff.antt =====
-- What the two loops of `SyncTags` compute, key by key.
use aws_controllers_k8s_acm.Base.{
  ◌≡◌, ◌≢◌, String, Bool, true, false, Option, none, some, List, [], ◌∷◌, arith, ◌==◌, inl, inr,
  Bool-cases, Option-cases, is_some, or_else, if◌then◌else◌,
}
use aws_controllers_k8s_acm.GoMap.{lookup, insert, NodupKeys, lookup-insert, insert-NodupKeys}
use aws_controllers_k8s_acm.Api.{Tag}
use aws_controllers_k8s_acm.Tags.Sync.{TagMap, differ, add_step, add_loop, delete_loop, tag_map}

-- The entry is not there, or it has another value.
abbrev pub needs : TagMap → String → Option String → Bool
needs existing k v = elim (lookup k existing) [
  | none ↦ true
  | some ev ↦ elim (differ ev v) [ none ↦ false | some d ↦ d ]
]

abbrev pub to_add_at : TagMap → String → Option (Option String) → Option (Option String)
to_add_at existing k none = none
to_add_at existing k (some v) = if needs existing k v then some v else none

lookup-add_step :
    (existing acc : TagMap) (k j : String) (v : Option String) {out : TagMap}
    → add_step existing acc j v ≡ some out
    → lookup k out
      ≡ (if k == j then or_else (to_add_at existing j (some v)) (lookup k acc) else lookup k acc)
unfolding add_step
lookup-add_step existing acc k j v h = ground (arith, lookup-insert k j v acc)

pub lookup-add_loop :
    (existing acc : TagMap) (k : String) (m : TagMap) {out : TagMap}
    → NodupKeys m
    → add_loop existing acc m ≡ some out
    → lookup k out ≡ or_else (to_add_at existing k (lookup k m)) (lookup k acc)
unfolding add_loop lookup
lookup-add_loop existing acc k [] u h = ground arith
lookup-add_loop existing acc k ((j, v) ∷ m) {out} (fresh, u) h =
    elim (Option-cases (add_step existing acc j v)) [
      | inl e ↦ absurd (cc (rw (e, add_loop) at h))
      | inr (acc', e) ↦ ground (
        arith,
        lookup-add_step existing acc k j v e,
        lookup-add_loop existing acc' k m u (rw (e, add_loop) at h),
      )
    ]

pub lookup-delete_loop :
    (desired acc : TagMap) (k : String) (m : TagMap)
    → NodupKeys m
    → lookup k (delete_loop desired acc m)
      ≡ or_else (if is_some (lookup k desired) then none else lookup k m) (lookup k acc)
unfolding delete_loop lookup
lookup-delete_loop desired acc k [] u = ground arith
lookup-delete_loop desired acc k ((j, v) ∷ m) (fresh, u) = ground (
  arith,
  lookup-delete_loop desired acc k m u,
  lookup-delete_loop desired (insert j v acc) k m u,
  lookup-insert k j v acc,
)

pub delete_loop-NodupKeys :
    (desired acc m : TagMap) → NodupKeys acc → NodupKeys (delete_loop desired acc m)
unfolding delete_loop
delete_loop-NodupKeys desired acc [] u = u
delete_loop-NodupKeys desired acc ((j, v) ∷ m) u =
    delete_loop-NodupKeys desired (if is_some (lookup j desired) then acc else insert j v acc) m
      (ground (arith, insert-NodupKeys j v acc u))

pub add_loop-NodupKeys :
    (existing acc m : TagMap) {out : TagMap}
    → NodupKeys acc
    → add_loop existing acc m ≡ some out
    → NodupKeys out
unfolding add_loop
add_loop-NodupKeys existing acc [] u h = ground arith
add_loop-NodupKeys existing acc ((j, v) ∷ m) {out} u h =
    elim (Option-cases (add_step existing acc j v)) [
      | inl e ↦ absurd (cc (rw (e, add_loop) at h))
      | inr (acc', e) ↦
          add_loop-NodupKeys existing acc' m
            (unfold add_step in ground (arith, insert-NodupKeys j v acc u)) (rw (e, add_loop) at h)
    ]

-- The map that `SyncTags` builds of a tag list has each key once.
pub tag_map-NodupKeys :
    (m : TagMap) (tags : List Tag) {out : TagMap}
    → NodupKeys m
    → tag_map m tags ≡ some out
    → NodupKeys out
unfolding tag_map
tag_map-NodupKeys m [] u h = ground arith
tag_map-NodupKeys m (t ∷ ts) u h = elim (Option-cases t.key) [
  | inl e ↦ absurd (cc (rw (e, tag_map) at h))
  | inr (k, e) ↦
      tag_map-NodupKeys (insert k t.value m) ts (insert-NodupKeys k t.value m u)
        (rw (e, tag_map) at h)
]

-- Where the loop over the desired tags finishes, no comparison met a nil value.
pub add_loop-differ :
    (existing acc : TagMap) (k : String) (m : TagMap) {out : TagMap} {v ev : Option String}
    → add_loop existing acc m ≡ some out
    → lookup k m ≡ some v
    → lookup k existing ≡ some ev
    → differ ev v ≢ none
unfolding add_loop lookup
add_loop-differ existing acc k [] h p q = ground arith
add_loop-differ existing acc k ((j, v) ∷ m) h p q =
    elim (Option-cases (add_step existing acc j v)) [
      | inl e ↦ absurd (cc (rw (e, add_loop) at h))
      | inr (acc', e) ↦ elim (Bool-cases (k == j)) [
        | inl same ↦ unfold add_step in ground arith
        | inr other ↦ add_loop-differ existing acc' k m (rw (e, add_loop) at h) (ground arith) q
      ]
    ]
