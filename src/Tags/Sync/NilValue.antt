-- ===== src/Tags/Sync/NilValue.antt =====
-- A desired tag with a nil value: `SyncTags` dereferences it on every path to success.
use aws_controllers_k8s_acm.Base.{
  ◌≡◌, ◌≢◌, refl, ◌∙◌, String, true, Option, none, some, List, [], ◌∷◌, arith, inl, inr,
  Option-cases,
}
use aws_controllers_k8s_acm.GoMap.{NodupKeys, lookup, RangeOrder, IsRange}
use aws_controllers_k8s_acm.Go.{ok}
use aws_controllers_k8s_acm.Api.{Tag}
use aws_controllers_k8s_acm.Sdk.{Errors, Service, Call}
use aws_controllers_k8s_acm.Tags.Sync.{
  TagMap, tag_map, differ, values_set, add_tags, if_any, sync_maps, sync_tags,
}
use aws_controllers_k8s_acm.Tags.Sync.Diff.{tag_map-NodupKeys, add_loop-differ}
use aws_controllers_k8s_acm.Tags.Sync.Converge.{maps_run, chosen}

values_set-lookup : (k : String) (m : TagMap) → lookup k m ≡ some none → values_set m ≢ true
unfolding values_set lookup
values_set-lookup k [] e = λ q. ground arith
values_set-lookup k ((j, none) ∷ m) e = λ q. ground arith
values_set-lookup k ((j, some v) ∷ m) e = values_set-lookup k m (ground arith)

differ_nil : (ev : Option String) → differ ev none ≡ none
unfolding differ
differ_nil none = refl
differ_nil (some x) = refl

module _ (X : Errors) (S : Service X) (r : RangeOrder) (R : IsRange r) (arn k : String) where
  if_any-values_set :
      (m : TagMap) (t t' : List (Call X.Err))
      → if_any X S r (add_tags X S r arn) m t ≡ (ok tt, t')
      → lookup k m ≢ some none
  unfolding if_any
  if_any-values_set [] t t' h = unfold lookup in λ q. ground arith
  if_any-values_set (d ∷ m) t t' h = λ q. ground (arith, values_set-lookup k (d ∷ m) q)

  maps-nil_value :
      (desired existing : TagMap) (t t' : List (Call X.Err))
      → NodupKeys desired
      → lookup k desired ≡ some none
      → sync_maps X S r arn desired existing t ≢ (ok tt, t')
  maps-nil_value desired existing t t' u nil e =
      let (to_add, s, found, first, second) = maps_run X S r arn k R desired existing t t' e in
      elim (Option-cases (lookup k existing)) [
        | inl absent ↦
            if_any-values_set to_add s t' second
              (ground (arith, chosen X S r arn k R desired existing to_add u found))
        | inr (ev, there) ↦
            add_loop-differ existing [] k (r.order (Option String) desired) found
              (R.lookup-order (Option String) k desired ∙ nil) there (differ_nil ev)
      ]

  -- If the desired tags hold a key whose value is nil, `SyncTags` does not succeed.
  pub sync_tags-nil_value :
      (a_tags b_tags : List Tag) (t t' : List (Call X.Err)) {desired : TagMap}
      → tag_map [] a_tags ≡ some desired
      → lookup k desired ≡ some none
      → sync_tags X S r arn a_tags b_tags t ≢ (ok tt, t')
  unfolding sync_tags
  sync_tags-nil_value a_tags b_tags t t' {desired} p nil = elim (Option-cases (tag_map [] b_tags)) [
    | inl q ↦ rw (p, q) (λ e. ground arith)
    | inr (existing, q) ↦
        rw (p, q) (maps-nil_value desired existing t t' (tag_map-NodupKeys [] a_tags tt p) nil)
  ]
