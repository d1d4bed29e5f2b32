-- ===== src/Tags/Sync/Remote.antt =====
-- The tags of a certificate in AWS, as the calls in a trace leave them. This is the service's
-- documented behaviour, and the specification that `SyncTags` is held to.
use aws_controllers_k8s_acm.Base.{
  ◌≡◌, refl, String, Option, none, some, List, [], ◌∷◌, ◌++◌, arith, ◌==◌, is_some, or_else,
  if◌then◌else◌,
}
use aws_controllers_k8s_acm.GoMap.{lookup, NodupKeys}
use aws_controllers_k8s_acm.Sdk.{
  Call, SdkTag, add_tags_to_certificate, remove_tags_from_certificate,
}
use aws_controllers_k8s_acm.Tags.Sync.{TagMap, sdk_tags}

-- A tag with a value is removed only if that is its value; one without, whatever its value.
abbrev pub drop_value : Option String → Option (Option String) → Option (Option String)
drop_value none old = none
drop_value (some x) (some (some y)) = if x == y then none else some (some y)
drop_value (some x) old = old

-- What key `k` holds after `AddTagsToCertificate` with the tags.
abbrev pub put_all : String → Option (Option String) → List SdkTag → Option (Option String)
put_all k old [] = old
put_all k old (t ∷ ts) = elim t.key [
  | none ↦ put_all k old ts
  | some j ↦ put_all k (if k == j then some t.value else old) ts
]

-- What key `k` holds after `RemoveTagsFromCertificate` with the tags.
abbrev pub drop_all : String → Option (Option String) → List SdkTag → Option (Option String)
drop_all k old [] = old
drop_all k old (t ∷ ts) = elim t.key [
  | none ↦ drop_all k old ts
  | some j ↦ drop_all k (if k == j then drop_value t.value old else old) ts
]

module _ {E : Type 0} (arn k : String) where
  abbrev tag_effect : Option (Option String) → Call E → Option (Option String)
  tag_effect old (add_tags_to_certificate a tags) = if a == arn then put_all k old tags else old
  tag_effect old (remove_tags_from_certificate a tags) =
      if a == arn then drop_all k old tags else old
  tag_effect old _ = old

  -- What key `k` of the certificate `arn` holds after the calls, from what it held before.
  abbrev pub tag_after : Option (Option String) → List (Call E) → Option (Option String)
  tag_after old [] = old
  tag_after old (c ∷ cs) = tag_after (tag_effect old c) cs

  pub tag_after-append :
      (old : Option (Option String)) (cs ds : List (Call E))
      → tag_after old (cs ++ ds) ≡ tag_after (tag_after old cs) ds
  tag_after-append old [] ds = refl
  tag_after-append old (c ∷ cs) ds = tag_after-append (tag_effect old c) cs ds

pub put_all-sdk_tags :
    (k : String) (old : Option (Option String)) (m : TagMap)
    → NodupKeys m
    → put_all k old (sdk_tags m) ≡ or_else (lookup k m) old
unfolding sdk_tags lookup
put_all-sdk_tags k old [] u = refl
put_all-sdk_tags k old ((j, v) ∷ m) (fresh, u) =
    ground (arith, put_all-sdk_tags k old m u, put_all-sdk_tags k (some v) m u)

drop_all-absent :
    (k : String) (old : Option (Option String)) (m : TagMap)
    → lookup k m ≡ none
    → drop_all k old (sdk_tags m) ≡ old
unfolding sdk_tags lookup
drop_all-absent k old [] h = refl
drop_all-absent k old ((j, v) ∷ m) h = ground (arith, drop_all-absent k old m)

drop_value_self : (v : Option String) → drop_value v (some v) ≡ none
drop_value_self none = refl
drop_value_self (some x) = ground arith

-- Removing entries that are there removes exactly their keys.
pub drop_all-sdk_tags :
    (k : String) (old : Option (Option String)) (m : TagMap)
    → NodupKeys m
    → ((v : Option String) → lookup k m ≡ some v → old ≡ some v)
    → drop_all k old (sdk_tags m) ≡ (if is_some (lookup k m) then none else old)
unfolding sdk_tags lookup
drop_all-sdk_tags k old [] u h = refl
drop_all-sdk_tags k old ((j, v) ∷ m) (fresh, u) h = ground (
  arith,
  h v,
  drop_value_self v,
  drop_all-absent k (drop_value v old) m,
  drop_all-sdk_tags k old m u (λ w e. h w (ground arith)),
)
