-- ===== src/Certificate/AwsTags/Laws.antt =====
-- What the three methods do to the tags, key by key, and that mirrored AWS tags are never removed.
use aws_controllers_k8s_acm.Base.{
  ◌≡◌, refl, ◌∙◌, sym, String, Bool, true, false, ◌==◌, any, Option, none, some, List, [], ◌∷◌,
  arith, ◌&&◌, ◌||◌, is_some, or_else, if◌then◌else◌, inl, inr, Option-cases,
}
use aws_controllers_k8s_acm.Base.Strings.{has_prefix}
use aws_controllers_k8s_acm.GoMap.{
  lookup, insert, NodupKeys, RangeOrder, IsRange, lookup-insert, lookup-nil,
}
use aws_controllers_k8s_acm.Go.Avoids.{calls, Avoids, bind-Avoids}
use aws_controllers_k8s_acm.Api.{Certificate, Tag}
use aws_controllers_k8s_acm.Sdk.{
  Errors, Service, Call, GoM, SdkTag, add_tags_to_certificate, remove_tags_from_certificate,
}
use aws_controllers_k8s_acm.Sdk.Metrics.{api_call-Avoids}
use aws_controllers_k8s_acm.Tags.Ack.{
  AckTags, elems, is_system, convert_to_ordered_ack_tags, from_ack_tags, ignore_system_tags,
  sync_aws_tags,
}
use aws_controllers_k8s_acm.Tags.Ack.Convert.{
  tag_value, lookup-convert, convert-NodupKeys, lookup-convert-from_ack_tags,
}
use aws_controllers_k8s_acm.Tags.Ack.System.{
  lookup-ignore_system_tags, ignore_system_tags-NodupKeys, lookup-sync_aws_tags,
  sync_aws_tags-NodupKeys,
}
use aws_controllers_k8s_acm.Tags.Sync.{
  TagMap, tag_map, add_loop, delete_loop, sdk_tags, if_any, add_tags, remove_tags, sync_maps,
  sync_tags,
}
use aws_controllers_k8s_acm.Tags.Sync.Diff.{tag_map-NodupKeys, lookup-delete_loop}
use aws_controllers_k8s_acm.Certificate.AwsTags.{
  Tagging, ensure_tags, filter_system_tags, mirror_tags,
}

-- The value of a tag of the resource.
abbrev pub tag_of : String → Certificate → Option String
tag_of k ko = tag_value k (elems ko.spec.tags)

-- What `acktags.Merge` documents: the first map wins, and each key stands once.
pub record IsMerge (g : Tagging) : Type 0 where
  pub lookup-merge :
      (k : String) (a b : AckTags) → lookup k (g.merge a b) ≡ or_else (lookup k a) (lookup k b)
  pub merge-NodupKeys : (a b : AckTags) → NodupKeys a → NodupKeys b → NodupKeys (g.merge a b)

-- Whether tags name a key, and whether a call removes it.
abbrev pub names : String → List SdkTag → Bool
names k [] = false
names k (t ∷ ts) = elim t.key [ none ↦ false | some j ↦ k == j ] || names k ts

abbrev pub removes : {E : Type 0} → String → Call E → Bool
removes k (remove_tags_from_certificate arn tags) = names k tags
removes k _ = false

names-sdk_tags : (k : String) (m : TagMap) → names k (sdk_tags m) ≡ is_some (lookup k m)
unfolding sdk_tags lookup
names-sdk_tags k [] = refl
names-sdk_tags k ((j, v) ∷ m) = ground (arith, names-sdk_tags k m)

module _ (r : RangeOrder) (R : IsRange r) where
  written :
      (k : String) (m : AckTags) (key_order : List String)
      → NodupKeys m
      → tag_value k (from_ack_tags r m key_order) ≡ lookup k m
  written k m key_order u =
      sym (lookup-convert k (some (from_ack_tags r m key_order)))
      ∙ lookup-convert-from_ack_tags r R k m key_order u

  -- `FilterSystemTags` drops the tags whose key begins with `aws:` or is one of the system tags,
  -- and keeps the value of every other key.
  pub tag_of-filter_system_tags :
      (k : String) (system_tags : List String) (ko : Certificate)
      → tag_of k (filter_system_tags r system_tags ko)
        ≡ (if is_system system_tags k then none else tag_of k ko)
  unfolding filter_system_tags
  tag_of-filter_system_tags k system_tags ko =
      let (m, key_order) = convert_to_ordered_ack_tags ko.spec.tags in
      written k (ignore_system_tags r m system_tags) key_order
        (ignore_system_tags-NodupKeys r R m system_tags (convert-NodupKeys ko.spec.tags))
      ∙ lookup-ignore_system_tags r R k m system_tags
      ∙ rw (lookup-convert k ko.spec.tags)

  -- `mirrorAWSTags` takes the tags whose key begins with `aws:` from the latest resource where that
  -- has them, and keeps the value of every other key of the desired one.
  pub tag_of-mirror_tags :
      (k : String) (a b : Certificate)
      → tag_of k (mirror_tags r a b)
        ≡ (if is_some (tag_of k b) && has_prefix k "aws:" then tag_of k b else tag_of k a)
  unfolding mirror_tags
  tag_of-mirror_tags k a b =
      let (desired, key_order) = convert_to_ordered_ack_tags a.spec.tags in
      let (latest, _) = convert_to_ordered_ack_tags b.spec.tags in
      written k (sync_aws_tags r desired latest) key_order
        (sync_aws_tags-NodupKeys r R desired latest (convert-NodupKeys a.spec.tags))
      ∙ lookup-sync_aws_tags r R k desired latest (convert-NodupKeys b.spec.tags)
      ∙ rw (lookup-convert k a.spec.tags, lookup-convert k b.spec.tags)

  -- If the runtime's merge lets the first map win, `EnsureTags` adds the controller's default tags
  -- and overrides none of the resource's own.
  pub tag_of-ensure_tags :
      (g : Tagging)
      → IsMerge g
      → (ko : Certificate) → NodupKeys (g.default_tags ko)
      → (k : String)
      → tag_of k (ensure_tags r g ko) ≡ or_else (tag_of k ko) (lookup k (g.default_tags ko))
  unfolding ensure_tags
  tag_of-ensure_tags g M ko u k =
      let (m, key_order) = convert_to_ordered_ack_tags ko.spec.tags in
      written k (g.merge m (g.default_tags ko)) key_order
        (M.merge-NodupKeys m (g.default_tags ko) (convert-NodupKeys ko.spec.tags) u)
      ∙ M.lookup-merge k m (g.default_tags ko)
      ∙ rw (lookup-convert k ko.spec.tags)

  keys_of_tag_map :
      (k : String) (m : TagMap) (tags : List Tag) {out : TagMap}
      → tag_map m tags ≡ some out
      → is_some (lookup k out) ≡ (is_some (tag_value k tags) || is_some (lookup k m))
  unfolding tag_map
  keys_of_tag_map k m [] h = ground arith
  keys_of_tag_map k m (t ∷ ts) h = elim (Option-cases t.key) [
    | inl e ↦ absurd (cc (rw (e, tag_map) at h))
    | inr (j, e) ↦ ground (
      arith,
      keys_of_tag_map k (insert j t.value m) ts (rw (e, tag_map) at h),
      lookup-insert k j t.value m,
    )
  ]

  kept_key :
      (k : String) (a b : Certificate) {desired existing : TagMap}
      → has_prefix k "aws:" ≡ true
      → tag_map [] (elems (mirror_tags r a b).spec.tags) ≡ some desired
      → tag_map [] (elems b.spec.tags) ≡ some existing
      → lookup k (delete_loop desired [] (r.order (Option String) existing)) ≡ none
  kept_key k a b {desired} {existing} system p q =
      lookup-delete_loop desired [] k (r.order (Option String) existing)
        (R.order-NodupKeys (Option String) existing (tag_map-NodupKeys [] (elems b.spec.tags) tt q))
      ∙ ground (
        arith,
        R.lookup-order (Option String) k existing,
        lookup-nil {V = Option String} k,
        keys_of_tag_map k [] (elems (mirror_tags r a b).spec.tags) p,
        keys_of_tag_map k [] (elems b.spec.tags) q,
        tag_of-mirror_tags k a b,
      )

  module _ (X : Errors) (S : Service X) (arn k : String) where
    if_any-Avoids :
        (update : TagMap → GoM X (Unit {0})) (m : TagMap)
        → Avoids (removes k) (update m)
        → Avoids (removes k) (if_any X S r update m)
    unfolding if_any
    if_any-Avoids update [] h t = refl
    if_any-Avoids update (e ∷ m) h t = ground (arith, h t)

    remove_tags-Avoids :
        (m : TagMap) → lookup k m ≡ none → Avoids (removes k) (remove_tags X S r arn m)
    unfolding remove_tags
    remove_tags-Avoids m h =
        let tags = sdk_tags (r.order (Option String) m) in
        api_call-Avoids X (removes k) "UPDATE" "RemoveTagsFromCertificate"
          (remove_tags_from_certificate arn tags) (S.remove_tags arn tags)
          (names-sdk_tags k (r.order (Option String) m)
            ∙ ground (arith, R.lookup-order (Option String) k m))
          (λ e. refl)

    add_tags-Avoids : (m : TagMap) → Avoids (removes k) (add_tags X S r arn m)
    unfolding add_tags
    add_tags-Avoids m =
        let tags = sdk_tags (r.order (Option String) m) in
        api_call-Avoids X (removes k) "UPDATE" "AddTagsToCertificate"
          (add_tags_to_certificate arn tags) (S.add_tags arn tags) refl (λ e. refl)

    sync_maps-Avoids :
        (desired existing : TagMap)
        → lookup k (delete_loop desired [] (r.order (Option String) existing)) ≡ none
        → Avoids (removes k) (sync_maps X S r arn desired existing)
    unfolding sync_maps
    sync_maps-Avoids desired existing h t =
        elim (Option-cases (add_loop existing [] (r.order (Option String) desired))) [
          | inl p ↦ rw (p, sync_maps) refl
          | inr (to_add, p) ↦
              let to_delete = delete_loop desired [] (r.order (Option String) existing) in
              rw (p, sync_maps)
                (bind-Avoids (removes k) (if_any X S r (remove_tags X S r arn) to_delete)
                  (λ _. if_any X S r (add_tags X S r arn) to_add)
                  (if_any-Avoids (remove_tags X S r arn) to_delete (remove_tags-Avoids to_delete h))
                  (λ _. if_any-Avoids (add_tags X S r arn) to_add (add_tags-Avoids to_add)) t)
        ]

    -- Once the latest AWS tags are mirrored into the desired resource, `SyncTags` of the two makes
    -- no call that removes a key that begins with `aws:`, however it ends.
    pub mirrored_is_kept :
        (a b : Certificate) (t : List (Call X.Err))
        → has_prefix k "aws:" ≡ true
        → any (removes k) (
            calls (sync_tags X S r arn (elems (mirror_tags r a b).spec.tags) (elems b.spec.tags) t))
          ≡ any (removes k) t
    unfolding sync_tags
    mirrored_is_kept a b t system =
        elim (Option-cases (tag_map [] (elems (mirror_tags r a b).spec.tags))) [
          | inl p ↦ rw (p, sync_tags) refl
          | inr (desired, p) ↦ elim (Option-cases (tag_map [] (elems b.spec.tags))) [
            | inl q ↦ rw (p, q, sync_tags) refl
            | inr (existing, q) ↦
                rw (p, q, sync_tags)
                  (sync_maps-Avoids desired existing (kept_key k a b system p q) t)
          ]
        ]
