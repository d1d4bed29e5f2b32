-- ===== src/Tags/Sync/Quiet.antt =====
-- `SyncTags` on tags that are already right, and after a removal that fails.
use aws_controllers_k8s_acm.Base.{
  ◌≡◌, ◌≢◌, refl, ◌∙◌, sym, String, true, Option, none, some, List, [], ◌∷◌, ◌++◌, arith,
}
use aws_controllers_k8s_acm.GoMap.{lookup, NodupKeys, RangeOrder, IsRange}
use aws_controllers_k8s_acm.Go.{ok, err}
use aws_controllers_k8s_acm.Api.{Tag}
use aws_controllers_k8s_acm.Sdk.{
  Errors, Service, Call, remove_tags_from_certificate, record_api_call,
}
use aws_controllers_k8s_acm.Tags.Sync.{
  TagMap, tag_map, add_step, add_loop, delete_loop, values_set, sdk_tags, remove_tags, if_any,
  sync_maps, sync_tags,
}
use aws_controllers_k8s_acm.Tags.Sync.Diff.{tag_map-NodupKeys}

abbrev Fits : TagMap → TagMap → Type 0
Fits existing m =
    (k : String) (v : Option String)
    → lookup k m ≡ some v
    → (lookup k existing ≡ some v) × (v ≢ none)

Fits-tail :
    (existing : TagMap) (j : String) (w : Option String) (m : TagMap)
    → lookup j m ≡ none
    → Fits existing ((j, w) ∷ m)
    → Fits existing m
unfolding lookup
Fits-tail existing j w m fresh f k v e = f k v (ground arith)

add_step-Fits :
    (existing acc : TagMap) (k : String) (v : Option String)
    → lookup k existing ≡ some v
    → v ≢ none
    → add_step existing acc k v ≡ some acc
unfolding add_step
add_step-Fits existing acc k none e n = absurd (n refl)
add_step-Fits existing acc k (some x) e n = ground arith

add_loop-Fits :
    (existing acc m : TagMap) → NodupKeys m → Fits existing m → add_loop existing acc m ≡ some acc
unfolding add_loop
add_loop-Fits existing acc [] u f = refl
add_loop-Fits existing acc ((j, v) ∷ m) (fresh, u) f =
    let (there, set) = f j v (unfold lookup in ground arith) in
    rw (add_step-Fits existing acc j v there set, add_loop)
      (add_loop-Fits existing acc m u (Fits-tail existing j v m fresh f))

delete_loop-Fits :
    (desired acc m : TagMap)
    → NodupKeys m
    → ((k : String) → lookup k m ≢ none → lookup k desired ≢ none)
    → delete_loop desired acc m ≡ acc
unfolding delete_loop lookup
delete_loop-Fits desired acc [] u f = refl
delete_loop-Fits desired acc ((j, v) ∷ m) (fresh, u) f =
    ground (arith, f j, delete_loop-Fits desired acc m u (λ k n. f k (ground arith)))

module _ (X : Errors) (S : Service X) (r : RangeOrder) (arn : String) where
  module _ (R : IsRange r) where
    maps_quiet :
        (desired existing : TagMap) (t : List (Call X.Err))
        → NodupKeys desired
        → NodupKeys existing
        → ((k : String) → lookup k desired ≡ lookup k existing)
        → ((k : String) → lookup k desired ≢ some none)
        → sync_maps X S r arn desired existing t ≡ (ok tt, t)
    unfolding sync_maps
    maps_quiet desired existing t u w same set = rw (
      add_loop-Fits existing [] (r.order (Option String) desired)
          (R.order-NodupKeys (Option String) desired u)
          (λ k v e.
            let q = sym (R.lookup-order (Option String) k desired) ∙ e in
            (sym (same k) ∙ q, λ nil. set k (ground arith))),
      delete_loop-Fits desired [] (r.order (Option String) existing)
          (R.order-NodupKeys (Option String) existing w)
          (λ k n e. n (R.lookup-order (Option String) k existing ∙ sym (same k) ∙ e)),
    )

    -- If the tag lists describe the same map, with no nil value, `SyncTags` succeeds and makes no
    -- call at all.
    pub sync_tags-quiet :
        (a_tags b_tags : List Tag) (t : List (Call X.Err)) {desired existing : TagMap}
        → tag_map [] a_tags ≡ some desired
        → tag_map [] b_tags ≡ some existing
        → ((k : String) → lookup k desired ≡ lookup k existing)
        → ((k : String) → lookup k desired ≢ some none)
        → sync_tags X S r arn a_tags b_tags t ≡ (ok tt, t)
    unfolding sync_tags
    sync_tags-quiet a_tags b_tags t {desired} {existing} p q same set =
        rw (p, q)
          (maps_quiet desired existing t (tag_map-NodupKeys [] a_tags tt p)
            (tag_map-NodupKeys [] b_tags tt q) same set)

  -- If there is something to remove, no value is nil and the service refuses the removal with an
  -- error, `SyncTags` returns that error: the removal and its metric are all it has done, and the
  -- tags to add are not sent.
  pub sync_tags-removal_fails :
      (a_tags b_tags : List Tag) (t : List (Call X.Err)) {desired existing to_add : TagMap}
      (d : String × Option String) (ds : TagMap) (e : X.Err)
      → let tags = sdk_tags (r.order (Option String) (d ∷ ds)) in
        tag_map [] a_tags ≡ some desired
        → tag_map [] b_tags ≡ some existing
        → add_loop existing [] (r.order (Option String) desired) ≡ some to_add
        → delete_loop desired [] (r.order (Option String) existing) ≡ d ∷ ds
        → values_set (d ∷ ds) ≡ true
        → S.remove_tags arn tags t ≡ err e
        → sync_tags X S r arn a_tags b_tags t ≡ (
          err e,
          (t ++ (remove_tags_from_certificate arn tags ∷ []))
              ++ (record_api_call "UPDATE" "RemoveTagsFromCertificate" (some e) ∷ []),
        )
  unfolding sync_tags sync_maps
  sync_tags-removal_fails a_tags b_tags t d ds e p q found gone set refused =
      rw (p, q, found, gone) (unfold if_any remove_tags in rw (set, refused))
