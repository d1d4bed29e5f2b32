-- ===== src/Tags/Ack/System.antt =====
-- `ignoreSystemTags` and `syncAWSTags`, key by key.
use aws_controllers_k8s_acm.Base.{
  ◌≡◌, refl, ◌∙◌, String, none, List, [], ◌∷◌, arith, ◌&&◌, is_some, if◌then◌else◌,
}
use aws_controllers_k8s_acm.Base.Strings.{has_prefix}
use aws_controllers_k8s_acm.GoMap.{
  lookup, insert, erase, NodupKeys, RangeOrder, IsRange, lookup-insert, lookup-erase,
  insert-NodupKeys, erase-NodupKeys,
}
use aws_controllers_k8s_acm.Tags.Ack.{
  AckTags, is_system, ignore_loop, sync_loop, ignore_system_tags, sync_aws_tags,
}

lookup-ignore_loop :
    (system_tags : List String) (k : String) (entries m : AckTags)
    → lookup k (ignore_loop system_tags entries m)
      ≡ (if is_some (lookup k entries) && is_system system_tags k then none else lookup k m)
unfolding ignore_loop lookup
lookup-ignore_loop system_tags k [] m = refl
lookup-ignore_loop system_tags k ((j, v) ∷ rest) m = ground (
  arith,
  lookup-ignore_loop system_tags k rest m,
  lookup-ignore_loop system_tags k rest (erase j m),
  lookup-erase k j m,
)

ignore_loop-NodupKeys :
    (system_tags : List String) (entries m : AckTags)
    → NodupKeys m
    → NodupKeys (ignore_loop system_tags entries m)
unfolding ignore_loop
ignore_loop-NodupKeys system_tags [] m u = u
ignore_loop-NodupKeys system_tags ((j, v) ∷ rest) m u =
    ignore_loop-NodupKeys system_tags rest (if is_system system_tags j then erase j m else m)
      (ground (arith, erase-NodupKeys j m u))

lookup-sync_loop :
    (k : String) (a entries : AckTags)
    → NodupKeys entries
    → lookup k (sync_loop a entries)
      ≡ (if is_some (lookup k entries) && has_prefix k "aws:" then lookup k entries else lookup k a)
unfolding sync_loop lookup
lookup-sync_loop k a [] u = refl
lookup-sync_loop k a ((j, v) ∷ rest) (fresh, u) = ground (
  arith,
  lookup-sync_loop k a rest u,
  lookup-sync_loop k (insert j v a) rest u,
  lookup-insert k j v a,
)

sync_loop-NodupKeys : (a entries : AckTags) → NodupKeys a → NodupKeys (sync_loop a entries)
unfolding sync_loop
sync_loop-NodupKeys a [] u = u
sync_loop-NodupKeys a ((j, v) ∷ rest) u =
    sync_loop-NodupKeys (if has_prefix j "aws:" then insert j v a else a) rest
      (ground (arith, insert-NodupKeys j v a u))

module _ (r : RangeOrder) (R : IsRange r) where
  -- A system key is gone, every other key is as it was.
  pub lookup-ignore_system_tags :
      (k : String) (m : AckTags) (system_tags : List String)
      → lookup k (ignore_system_tags r m system_tags)
        ≡ (if is_system system_tags k then none else lookup k m)
  unfolding ignore_system_tags
  lookup-ignore_system_tags k m system_tags =
      lookup-ignore_loop system_tags k (r.order String m) m
      ∙ ground (arith, R.lookup-order String k m)

  pub ignore_system_tags-NodupKeys :
      (m : AckTags) (system_tags : List String)
      → NodupKeys m
      → NodupKeys (ignore_system_tags r m system_tags)
  unfolding ignore_system_tags
  ignore_system_tags-NodupKeys m system_tags u =
      ignore_loop-NodupKeys system_tags (r.order String m) m u

  -- A key with the prefix takes its value from `b` where it is there; every other key is `a`'s.
  pub lookup-sync_aws_tags :
      (k : String) (a b : AckTags)
      → NodupKeys b
      → lookup k (sync_aws_tags r a b)
        ≡ (if is_some (lookup k b) && has_prefix k "aws:" then lookup k b else lookup k a)
  unfolding sync_aws_tags
  lookup-sync_aws_tags k a b u =
      lookup-sync_loop k a (r.order String b) (R.order-NodupKeys String b u) ∙ rw (R.lookup-order)

  pub sync_aws_tags-NodupKeys : (a b : AckTags) → NodupKeys a → NodupKeys (sync_aws_tags r a b)
  unfolding sync_aws_tags
  sync_aws_tags-NodupKeys a b u = sync_loop-NodupKeys a (r.order String b) u
