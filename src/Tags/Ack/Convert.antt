-- ===== src/Tags/Ack/Convert.antt =====
-- The conversions lose nothing: a resource's tags go to the map and back.
use mathlib.Core.List.{append-nil, append_assoc}
use aws_controllers_k8s_acm.Base.{
  ◌≡◌, refl, ◌∙◌, String, Option, none, some, List, [], ◌∷◌, ◌++◌, arith, ◌==◌, or_else,
  if◌then◌else◌, inl, inr, Option-cases,
}
use aws_controllers_k8s_acm.GoMap.{
  lookup, insert, erase, NodupKeys, RangeOrder, IsRange, lookup-insert, lookup-erase, lookup-nil,
  insert-NodupKeys, erase-NodupKeys,
}
use aws_controllers_k8s_acm.Api.{Tag}
use aws_controllers_k8s_acm.Tags.Ack.{
  AckTags, elems, value_or_empty, make_tag, convert_loop, convert_to_ordered_ack_tags, ordered_loop,
  rest_tags, from_ack_tags,
}

-- The value that a tag list gives a key: that of its last tag with the key.
abbrev pub tag_value : String → List Tag → Option String
tag_value k [] = none
tag_value k (t ∷ ts) =
    or_else (tag_value k ts)
      (elim t.key [ none ↦ none | some j ↦ if k == j then some (value_or_empty t.value) else none ])

-- Its keys in order, those that are not nil.
abbrev pub tag_keys : List Tag → List String
tag_keys [] = []
tag_keys (t ∷ ts) = elim t.key [ none ↦ tag_keys ts | some k ↦ k ∷ tag_keys ts ]

tag_value-append :
    (k : String) (xs ys : List Tag)
    → tag_value k (xs ++ ys) ≡ or_else (tag_value k ys) (tag_value k xs)
tag_value-append k [] ys = ground arith
tag_value-append k (x ∷ xs) ys = ground (arith, tag_value-append k xs ys)

convert_loop_lem :
    (k : String) (result : AckTags) (key_order : List String) (tags : List Tag)
    → (lookup k (convert_loop result key_order tags).0
        ≡ or_else (tag_value k tags) (lookup k result))
      × ((convert_loop result key_order tags).1 ≡ key_order ++ tag_keys tags)
unfolding convert_loop
convert_loop_lem k result key_order [] = (refl, rw append-nil)
convert_loop_lem k result key_order (t ∷ ts) = elim (Option-cases t.key) [
  | inl e ↦
      let (a, b) = convert_loop_lem k result key_order ts in
      (rw (e, convert_loop) (ground arith), rw (e, convert_loop) b)
  | inr (j, e) ↦
      let (a, b) =
        convert_loop_lem k (insert j (value_or_empty t.value) result) (key_order ++ (j ∷ [])) ts in
      (
        rw (e, convert_loop) (ground (arith, lookup-insert k j (value_or_empty t.value) result)),
        rw (e, convert_loop) (b ∙ append_assoc key_order (j ∷ []) (tag_keys ts)),
      )
]

-- The map holds, for each key, the value of its last tag, the empty text for nil.
pub lookup-convert :
    (k : String) (tags : Option (List Tag))
    → lookup k (convert_to_ordered_ack_tags tags).0 ≡ tag_value k (elems tags)
unfolding convert_to_ordered_ack_tags
lookup-convert k tags =
    ground (arith, (convert_loop_lem k [] [] (elems tags)).0, lookup-nil {V = String} k)

convert_loop-NodupKeys :
    (result : AckTags) (key_order : List String) (tags : List Tag)
    → NodupKeys result
    → NodupKeys (convert_loop result key_order tags).0
unfolding convert_loop
convert_loop-NodupKeys result key_order [] u = u
convert_loop-NodupKeys result key_order (t ∷ ts) u = elim (Option-cases t.key) [
  | inl e ↦ rw (e, convert_loop) (convert_loop-NodupKeys result key_order ts u)
  | inr (j, e) ↦
      rw (e, convert_loop)
        (convert_loop-NodupKeys (insert j (value_or_empty t.value) result) (key_order ++ (j ∷ []))
          ts (insert-NodupKeys j (value_or_empty t.value) result u))
]

pub convert-NodupKeys : (tags : Option (List Tag)) → NodupKeys (convert_to_ordered_ack_tags tags).0
unfolding convert_to_ordered_ack_tags
convert-NodupKeys tags = convert_loop-NodupKeys [] [] (elems tags) tt

tag_value-rest_tags :
    (k : String) (m : AckTags) → NodupKeys m → tag_value k (rest_tags m) ≡ lookup k m
unfolding rest_tags lookup
tag_value-rest_tags k [] u = refl
tag_value-rest_tags k ((j, v) ∷ m) (fresh, u) = ground (arith, tag_value-rest_tags k m u)

ordered_loop_lem :
    (k : String) (ks : List String) (m : AckTags) (result : List Tag)
    → NodupKeys m
    → (or_else (lookup k (ordered_loop ks m result).1) (tag_value k (ordered_loop ks m result).0)
        ≡ or_else (lookup k m) (tag_value k result))
      × NodupKeys (ordered_loop ks m result).1
unfolding ordered_loop
ordered_loop_lem k [] m result u = (refl, u)
ordered_loop_lem k (j ∷ ks) m result u = elim (Option-cases (lookup j m)) [
  | inl e ↦ rw (e, ordered_loop) (ordered_loop_lem k ks m result u)
  | inr (v, e) ↦
      let (a, b) =
        ordered_loop_lem k ks (erase j m) (result ++ (make_tag j v ∷ [])) (erase-NodupKeys j m u) in
      rw (e, ordered_loop)
        (ground (arith, a, lookup-erase k j m, tag_value-append k result (make_tag j v ∷ [])), b)
]

module _ (r : RangeOrder) (R : IsRange r) where
  -- `fromACKTags` writes every entry of the map to the list, whatever the key order and the order
  -- in which `range` visits the map: reading the list back gives each key the value that it had.
  pub lookup-convert-from_ack_tags :
      (k : String) (m : AckTags) (key_order : List String)
      → NodupKeys m
      → lookup k (convert_to_ordered_ack_tags (some (from_ack_tags r m key_order))).0 ≡ lookup k m
  unfolding from_ack_tags
  lookup-convert-from_ack_tags k m key_order u =
      let (a, b) = ordered_loop_lem k key_order m [] u in
      let (result, rest) = ordered_loop key_order m [] in
      lookup-convert k (some (result ++ rest_tags (r.order String rest)))
      ∙ ground (
        arith,
        a,
        tag_value-append k result (rest_tags (r.order String rest)),
        tag_value-rest_tags k (r.order String rest) (R.order-NodupKeys String rest b),
        R.lookup-order String k rest,
      )

-- Every tag has a key, which no later tag has, and a value.
abbrev pub IsPlain : List Tag → Type 0
IsPlain [] = Unit
IsPlain (t ∷ ts) =
    (k : String) × (v : String) × (t ≡ make_tag k v) × (tag_value k ts ≡ none) × IsPlain ts

empty_of_lookup : (m : AckTags) → ((k : String) → lookup k m ≡ none) → m ≡ []
unfolding lookup
empty_of_lookup [] h = refl
empty_of_lookup ((j, v) ∷ m) h = absurd (ground (arith, h j))

ordered_loop-tags :
    (tags : List Tag) (m : AckTags) (result : List Tag)
    → IsPlain tags
    → ((k : String) → lookup k m ≡ tag_value k tags)
    → ordered_loop (tag_keys tags) m result ≡ (result ++ tags, [])
unfolding ordered_loop
ordered_loop-tags [] m result p h = rw (empty_of_lookup m h, append-nil)
ordered_loop-tags (t ∷ ts) m result (k, v, e, fresh, p) h =
    let found : lookup k m ≡ some v = ground (arith, h k) in
    let step =
      ordered_loop-tags ts (erase k m) (result ++ (make_tag k v ∷ [])) p
        (λ j. ground (arith, h j, lookup-erase j k m)) in
    rw (e, found, ordered_loop) (step ∙ rw (append_assoc result (make_tag k v ∷ []) ts))

module _ (r : RangeOrder) (R : IsRange r) where
  order-nil : r.order String [] ≡ []
  order-nil = empty_of_lookup _ (λ k. R.lookup-order String k [] ∙ lookup-nil k)

  -- A tag list whose tags all have a key and a value, with no key twice, goes to the map and back
  -- unchanged, its order included.
  pub from_ack_tags-convert :
      (tags : List Tag)
      → IsPlain tags
      → (let (m, key_order) = convert_to_ordered_ack_tags (some tags) in
          from_ack_tags r m key_order ≡ tags)
  unfolding convert_to_ordered_ack_tags from_ack_tags
  from_ack_tags-convert tags p =
      rw
        (
          (convert_loop_lem "" [] [] tags).1,
          ordered_loop-tags tags (convert_loop [] [] tags).0 [] p
              (λ k. (convert_loop_lem k [] [] tags).0 ∙ ground (arith, lookup-nil {V = String} k)),
          order-nil,
        )
        (append-nil tags)
