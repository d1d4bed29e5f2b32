-- ===== src/Tags/Ack.antt =====
-- pkg/resource/certificate/tags.go: between the tag list of the resource and `acktags.Tags`, a map
-- of texts.
pub mod Convert
pub mod System
use aws_controllers_k8s_acm.Base.{
  String, Bool, true, false, ◌||◌, Option, none, some, List, [], ◌∷◌, ◌++◌, ◌==◌, string_dec,
  contains, if◌then◌else◌,
}
use aws_controllers_k8s_acm.Base.Strings.{has_prefix}
use aws_controllers_k8s_acm.GoMap.{GoMap, lookup, insert, erase, RangeOrder}
use aws_controllers_k8s_acm.Api.{Tag}

abbrev pub AckTags : Type 0
AckTags = GoMap String

-- The elements of a slice that may be nil.
abbrev pub elems {ℓ} : {A : Type ℓ} → Option (List A) → List A
elems none = []
elems (some xs) = xs

-- The value of a tag, the empty text for nil.
abbrev pub value_or_empty : Option String → String
value_or_empty none = ""
value_or_empty (some v) = v

-- The loop of `convertToOrderedACKTags`, from the result and the key order so far.
unfoldable pub convert_loop : AckTags → List String → List Tag → AckTags × List String
convert_loop result key_order [] = (result, key_order)
convert_loop result key_order (t ∷ ts) = elim t.key [
  | none ↦ convert_loop result key_order ts
  | some k ↦ convert_loop (insert k (value_or_empty t.value) result) (key_order ++ (k ∷ [])) ts
]

unfoldable pub convert_to_ordered_ack_tags : Option (List Tag) → AckTags × List String
unfolding convert_loop
convert_to_ordered_ack_tags tags = convert_loop [] [] (elems tags)

abbrev pub make_tag : String → String → Tag
make_tag k v = record { key = some k; value = some v }

-- The first loop of `fromACKTags`: the keys in order. What it leaves in the map comes back.
unfoldable pub ordered_loop : List String → AckTags → List Tag → List Tag × AckTags
ordered_loop [] tags result = (result, tags)
ordered_loop (k ∷ ks) tags result = elim (lookup k tags) [
  | none ↦ ordered_loop ks tags result
  | some v ↦ ordered_loop ks (erase k tags) (result ++ (make_tag k v ∷ []))
]

-- The second loop: the rest, as `range` visits it.
unfoldable pub rest_tags : AckTags → List Tag
rest_tags [] = []
rest_tags ((k, v) ∷ m) = make_tag k v ∷ rest_tags m

-- `strings.HasPrefix(k, "aws:") || slices.Contains(systemTags, k)`
abbrev pub is_system : List String → String → Bool
is_system system_tags k = has_prefix k "aws:" || contains system_tags k

unfoldable pub ignore_loop : List String → AckTags → AckTags → AckTags
ignore_loop system_tags [] tags = tags
ignore_loop system_tags ((k, v) ∷ rest) tags =
    ignore_loop system_tags rest (if is_system system_tags k then erase k tags else tags)

unfoldable pub sync_loop : AckTags → AckTags → AckTags
sync_loop a [] = a
sync_loop a ((k, v) ∷ rest) = sync_loop (if has_prefix k "aws:" then insert k v a else a) rest

module _ (r : RangeOrder) where
  unfoldable pub from_ack_tags : AckTags → List String → List Tag
  unfolding ordered_loop rest_tags
  from_ack_tags tags key_order =
      let (result, rest) = ordered_loop key_order tags [] in
      result ++ rest_tags (r.order String rest)

  unfoldable pub ignore_system_tags : AckTags → List String → AckTags
  unfolding ignore_loop
  ignore_system_tags tags system_tags = ignore_loop system_tags (r.order String tags) tags

  unfoldable pub sync_aws_tags : AckTags → AckTags → AckTags
  unfolding sync_loop
  sync_aws_tags a b = sync_loop a (r.order String b)
