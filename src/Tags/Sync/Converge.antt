-- ===== src/Tags/Sync/Converge.antt =====
-- `SyncTags` makes the tags in AWS the desired ones, and writes nothing where they are.
use aws_controllers_k8s_acm.Base.{
  ◌≡◌, ◌∙◌, String, true, Option, none, some, List, [], ◌∷◌, arith, ◌==◌, is_some, or_else,
  if◌then◌else◌, inl, inr, Option-cases,
}
use aws_controllers_k8s_acm.GoMap.{lookup, lookup-nil, NodupKeys, RangeOrder, IsRange}
use aws_controllers_k8s_acm.Go.{continue-eq-ok, Outcome, ok}
use aws_controllers_k8s_acm.Api.{Tag}
use aws_controllers_k8s_acm.Sdk.{
  Errors, Service, Call, add_tags_to_certificate, remove_tags_from_certificate,
}
use aws_controllers_k8s_acm.Sdk.Metrics.{api_call, api_call-ok}
use aws_controllers_k8s_acm.Tags.Sync.{
  TagMap, tag_map, differ, add_loop, delete_loop, sdk_tags, add_tags, remove_tags, if_any,
  sync_maps, sync_tags,
}
use aws_controllers_k8s_acm.Tags.Sync.Diff.{
  to_add_at, lookup-add_loop, lookup-delete_loop, add_loop-NodupKeys, delete_loop-NodupKeys,
  tag_map-NodupKeys, add_loop-differ,
}
use aws_controllers_k8s_acm.Tags.Sync.Remote.{
  tag_after, tag_after-append, put_all-sdk_tags, drop_all-sdk_tags,
}

==_refl : (a : String) → (a == a) ≡ true
==_refl a = ground arith

module _ (X : Errors) (S : Service X) (r : RangeOrder) (arn k : String) where
  after_call :
      (old : Option (Option String)) (op id : String) (c : Call X.Err) (t t' : List (Call X.Err))
      (answer : List (Call X.Err) → Outcome X.Err (Unit {0}))
      → api_call X op id c answer t ≡ (ok tt, t')
      → tag_after arn k old t' ≡ tag_after arn k (tag_after arn k old t) (c ∷ [])
  after_call old op id c t t' answer h =
      rw (api_call-ok X op id c answer t h, tag_after-append, tag_after-append)

  if_any-ok :
      (update : TagMap → List (Call X.Err) → Outcome X.Err (Unit {0}) × List (Call X.Err))
      (e : String × Option String) (m : TagMap) {t t' : List (Call X.Err)}
      → if_any X S r update (e ∷ m) t ≡ (ok tt, t')
      → update (e ∷ m) t ≡ (ok tt, t')
  unfolding if_any
  if_any-ok update e m h = ground arith

  module _ (R : IsRange r) where
    removed :
        (old : Option (Option String)) (m : TagMap) (t t' : List (Call X.Err))
        → NodupKeys m
        → ((v : Option String) → lookup k m ≡ some v → tag_after arn k old t ≡ some v)
        → if_any X S r (remove_tags X S r arn) m t ≡ (ok tt, t')
        → tag_after arn k old t' ≡ (if is_some (lookup k m) then none else tag_after arn k old t)
    unfolding remove_tags
    removed old [] t t' u h e = unfold if_any lookup in ground arith
    removed old (j ∷ m) t t' u h e =
        let tags = sdk_tags (r.order (Option String) (j ∷ m)) in
        after_call old "UPDATE" "RemoveTagsFromCertificate" (remove_tags_from_certificate arn tags)
          t t' (S.remove_tags arn tags) (if_any-ok (remove_tags X S r arn) j m e)
        ∙ rw (==_refl arn, ← R.lookup-order (Option String) k (j ∷ m))
            (drop_all-sdk_tags k _ (r.order (Option String) (j ∷ m))
              (R.order-NodupKeys (Option String) (j ∷ m) u) (λ v q. h v (rw (R.lookup-order) at q)))

    added :
        (old : Option (Option String)) (m : TagMap) (t t' : List (Call X.Err))
        → NodupKeys m
        → if_any X S r (add_tags X S r arn) m t ≡ (ok tt, t')
        → tag_after arn k old t' ≡ or_else (lookup k m) (tag_after arn k old t)
    unfolding add_tags
    added old [] t t' u e = unfold if_any lookup in ground arith
    added old (j ∷ m) t t' u e =
        let tags = sdk_tags (r.order (Option String) (j ∷ m)) in
        after_call old "UPDATE" "AddTagsToCertificate" (add_tags_to_certificate arn tags) t t'
          (S.add_tags arn tags) (if_any-ok (add_tags X S r arn) j m e)
        ∙ rw (==_refl arn, ← R.lookup-order (Option String) k (j ∷ m))
            (put_all-sdk_tags k _ (r.order (Option String) (j ∷ m))
              (R.order-NodupKeys (Option String) (j ∷ m) u))

    -- What is left at `k` after the removal and the addition is what is desired.
    settled :
        (desired existing to_add : TagMap)
        → add_loop existing [] (r.order (Option String) desired) ≡ some to_add
        → or_else (to_add_at existing k (lookup k desired)) (
            if is_some (if is_some (lookup k desired) then none else lookup k existing)
            then none
            else lookup k existing)
          ≡ lookup k desired
    unfolding differ
    settled desired existing to_add h = elim (Option-cases (lookup k desired)) [
      | inl e ↦ ground arith
      | inr (v, e) ↦ elim (Option-cases (lookup k existing)) [
        | inl f ↦ ground arith
        | inr (ev, f) ↦ ground (
          arith,
          add_loop-differ existing [] k (r.order (Option String) desired) {v = v} {ev = ev} h
              (R.lookup-order (Option String) k desired ∙ e) f,
        )
      ]
    ]

    deleted :
        (desired existing : TagMap)
        → NodupKeys existing
        → lookup k (delete_loop desired [] (r.order (Option String) existing))
          ≡ (if is_some (lookup k desired) then none else lookup k existing)
    deleted desired existing w = ground (
      arith,
      lookup-delete_loop desired [] k (r.order (Option String) existing)
          (R.order-NodupKeys (Option String) existing w),
      R.lookup-order (Option String) k existing,
      lookup-nil {V = Option String} k,
    )

    pub chosen :
        (desired existing to_add : TagMap)
        → NodupKeys desired
        → add_loop existing [] (r.order (Option String) desired) ≡ some to_add
        → lookup k to_add ≡ to_add_at existing k (lookup k desired)
    chosen desired existing to_add u p = ground (
      arith,
      lookup-add_loop existing [] k (r.order (Option String) desired)
          (R.order-NodupKeys (Option String) desired u) p,
      R.lookup-order (Option String) k desired,
      lookup-nil {V = Option String} k,
    )

    maps_converge :
        (old : Option (Option String)) (desired existing to_add : TagMap)
        (t s t' : List (Call X.Err))
        → NodupKeys desired
        → NodupKeys existing
        → tag_after arn k old t ≡ lookup k existing
        → add_loop existing [] (r.order (Option String) desired) ≡ some to_add
        → let to_delete = delete_loop desired [] (r.order (Option String) existing) in
          if_any X S r (remove_tags X S r arn) to_delete t ≡ (ok tt, s)
          → if_any X S r (add_tags X S r arn) to_add s ≡ (ok tt, t')
          → tag_after arn k old t' ≡ lookup k desired
    maps_converge old desired existing to_add t s t' u w h p first second =
        added old to_add s t' (add_loop-NodupKeys existing [] _ tt p) second
        ∙ rw
            (
              removed old (delete_loop desired [] (r.order (Option String) existing)) t s
                  (delete_loop-NodupKeys desired [] _ tt)
                  (λ v q. h ∙ ground (arith, deleted desired existing w)) first,
              deleted desired existing w,
              chosen desired existing to_add u p,
              h,
            )
            (settled desired existing to_add p)

    pub maps_run :
        (desired existing : TagMap) (t t' : List (Call X.Err))
        → sync_maps X S r arn desired existing t ≡ (ok tt, t')
        → let to_delete = delete_loop desired [] (r.order (Option String) existing) in
          (to_add : TagMap) × (s : List (Call X.Err)) × (add_loop existing []
              (r.order (Option String) desired)
            ≡ some to_add)
          × (if_any X S r (remove_tags X S r arn) to_delete t ≡ (ok tt, s))
          × (if_any X S r (add_tags X S r arn) to_add s ≡ (ok tt, t'))
    unfolding sync_maps
    maps_run desired existing t t' e =
        elim (Option-cases (add_loop existing [] (r.order (Option String) desired))) [
          | inl p ↦ absurd (ground arith)
          | inr (to_add, p) ↦
              let (_, s, first, second) =
                continue-eq-ok (λ _. if_any X S r (add_tags X S r arn) to_add)
                  (if_any X S r (remove_tags X S r arn)
                    (delete_loop desired [] (r.order (Option String) existing)) t)
                  (rw (p, sync_maps) at e) in
              (to_add, s, p, first, second)
        ]

    -- If `SyncTags` succeeds, and the calls before it left the certificate with the tags that it
    -- was told are there, then every key has its desired value afterwards, and the keys that are
    -- not desired are gone.
    pub sync_tags-converges :
        (old : Option (Option String)) (a_tags b_tags : List Tag) {desired existing : TagMap}
        (t t' : List (Call X.Err))
        → tag_map [] a_tags ≡ some desired
        → tag_map [] b_tags ≡ some existing
        → tag_after arn k old t ≡ lookup k existing
        → sync_tags X S r arn a_tags b_tags t ≡ (ok tt, t')
        → tag_after arn k old t' ≡ lookup k desired
    unfolding sync_tags
    sync_tags-converges old a_tags b_tags {desired} {existing} t t' p q h e =
        let (to_add, s, found, first, second) = maps_run desired existing t t' (rw (p, q) at e) in
        maps_converge old desired existing to_add t s t' (tag_map-NodupKeys [] a_tags tt p)
          (tag_map-NodupKeys [] b_tags tt q) h found first second
