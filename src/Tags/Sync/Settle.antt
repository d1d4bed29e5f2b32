-- ===== src/Tags/Sync/Settle.antt =====
-- `ListTags` and `SyncTags` against a service that stores tags: one successful round is enough.
use aws_controllers_k8s_acm.Base.{
  ◌≡◌, refl, ◌≢◌, Bool, false, ◌||◌, ◌==◌, any, sym, ap, ◌∙◌, String, Option, none, some, List, [],
  ◌∷◌, ◌++◌, arith, inl, inr, Option-cases,
}
use aws_controllers_k8s_acm.GoMap.{lookup, RangeOrder, IsRange}
use aws_controllers_k8s_acm.Go.{ok, return, continue-eq-ok, return-eq-ok}
use aws_controllers_k8s_acm.Go.Avoids.{any-append-false}
use aws_controllers_k8s_acm.Api.{Tag}
use aws_controllers_k8s_acm.Sdk.{
  Errors, Service, Answer, GoM, Call, SdkTag, list_tags_for_certificate, add_tags_to_certificate,
  remove_tags_from_certificate, record_api_call,
}
use aws_controllers_k8s_acm.Sdk.Metrics.{api_call, api_call-ok, api_call-answer}
use aws_controllers_k8s_acm.Tags.Sync.{
  TagMap, tag_map, delete_loop, if_any, add_tags, remove_tags, sync_tags, list_tags,
  resource_tags_from_sdk_tags, sdk_tags,
}
use aws_controllers_k8s_acm.Tags.Sync.Remote.{tag_after, tag_after-append}
use aws_controllers_k8s_acm.Tags.Sync.Converge.{sync_tags-converges, maps_run}
use aws_controllers_k8s_acm.Tags.Sync.Quiet.{sync_tags-quiet}
use aws_controllers_k8s_acm.Tags.Sync.NilValue.{sync_tags-nil_value}

-- Whether a change of tags was refused: its error is then in the metric behind it.
abbrev pub refused : {E : Type 0} → Call E → Bool
refused (record_api_call op id (some e)) =
    id == "AddTagsToCertificate" || id == "RemoveTagsFromCertificate"
refused _ = false

module _ (X : Errors) (S : Service X) (arn : String) (old : String → Option (Option String)) where
  -- What `ListTagsForCertificate` documents: where the service has refused no change of tags, its
  -- answer has the tags that the calls so far have left on the certificate, which had the tags `old`
  -- before them.
  pub record IsTagStore : Type 0 where
    pub lists :
        (t : List (Call X.Err)) (tags : List SdkTag)
        → any refused t ≡ false
        → S.list_tags arn t ≡ ok tags
        → (m : TagMap) × (tag_map [] (resource_tags_from_sdk_tags tags) ≡ some m)
          × ((k : String) → lookup k m ≡ tag_after arn k (old k) t)

  -- Listing tags changes none.
  listed_after :
      (t : List (Call X.Err)) (k : String)
      → tag_after arn k (old k) (
          (t ++ (list_tags_for_certificate arn ∷ []))
          ++ (record_api_call "GET" "ListTagsForCertificate" none ∷ []))
        ≡ tag_after arn k (old k) t
  listed_after t k =
      tag_after-append arn k (old k) (t ++ (list_tags_for_certificate arn ∷ []))
        (record_api_call "GET" "ListTagsForCertificate" none ∷ [])
      ∙ tag_after-append arn k (old k) t (list_tags_for_certificate arn ∷ [])

  listed :
      (tags : List Tag) (t t' : List (Call X.Err))
      → IsTagStore
      → any refused t ≡ false
      → list_tags X S arn t ≡ (ok tags, t')
      → (m : TagMap) × (tag_map [] tags ≡ some m)
        × ((k : String) → lookup k m ≡ tag_after arn k (old k) t)
        × ((k : String) → tag_after arn k (old k) t' ≡ tag_after arn k (old k) t)
        × (any refused t' ≡ false)
  unfolding list_tags
  listed tags t t' store accepted h =
      let run =
        api_call X "GET" "ListTagsForCertificate" (list_tags_for_certificate arn) (S.list_tags arn)
          t in
      let (answer, s, called, finished) =
        continue-eq-ok (λ tags. return (resource_tags_from_sdk_tags tags)) run h in
      let (made, ended) = return-eq-ok finished in
      let trace =
        api_call-ok X "GET" "ListTagsForCertificate" (list_tags_for_certificate arn)
          (S.list_tags arn) t called in
      let (m, mapped, known) = store.lists t answer accepted (
        api_call-answer X "GET" "ListTagsForCertificate" (list_tags_for_certificate arn)
          (S.list_tags arn) t called) in
      (
        m,
        ap (tag_map []) (sym made) ∙ mapped,
        known,
        λ k. ap (tag_after arn k (old k)) (sym ended ∙ trace) ∙ listed_after t k,
        ap (any refused) (sym ended ∙ trace)
            ∙ any-append-false refused (t ++ (list_tags_for_certificate arn ∷ []))
                (record_api_call "GET" "ListTagsForCertificate" none) refl
            ∙ any-append-false refused t (list_tags_for_certificate arn) refl
            ∙ accepted,
      )

module _ (X : Errors) (S : Service X) (r : RangeOrder) (R : IsRange r) (arn : String)
    (old : String → Option (Option String)) where
  unmapped :
      (a b : List Tag) (t t' : List (Call X.Err))
      → tag_map [] a ≡ none
      → sync_tags X S r arn a b t ≢ (ok tt, t')
  unfolding sync_tags
  unmapped a b t t' p h = ground arith

  if_any-accepted :
      (update : TagMap → GoM X (Unit {0})) (m : TagMap) (t t' : List (Call X.Err))
      → ((s : List (Call X.Err)) → update m t ≡ (ok tt, s) → any refused s ≡ any refused t)
      → if_any X S r update m t ≡ (ok tt, t')
      → any refused t' ≡ any refused t
  unfolding if_any
  if_any-accepted update [] t t' good h = ground arith
  if_any-accepted update (e ∷ m) t t' good h = ground (arith, good t')

  updated :
      (id : String) (c : Call X.Err) (reply : Answer X (Unit {0})) (t s : List (Call X.Err))
      → refused c ≡ false
      → api_call X "UPDATE" id c reply t ≡ (ok tt, s)
      → any refused s ≡ any refused t
  updated id c reply t s fine h =
      ap (any refused) (api_call-ok X "UPDATE" id c reply t h)
      ∙ any-append-false refused (t ++ (c ∷ [])) (record_api_call "UPDATE" id none) refl
      ∙ any-append-false refused t c fine

  -- A successful synchronisation was not refused anything.
  sync_accepted :
      (a b : List Tag) (t t' : List (Call X.Err))
      → sync_tags X S r arn a b t ≡ (ok tt, t')
      → any refused t' ≡ any refused t
  unfolding sync_tags add_tags remove_tags
  sync_accepted a b t t' h = elim (Option-cases (tag_map [] a)) [
    | inl p ↦ absurd (ground arith)
    | inr (wanted, p) ↦ elim (Option-cases (tag_map [] b)) [
      | inl q ↦ absurd (ground arith)
      | inr (existing, q) ↦
          let (to_add, s, found, first, second) =
            maps_run X S r arn "" R wanted existing t t' (rw (p, q, sync_tags) at h) in
          if_any-accepted (add_tags X S r arn) to_add s t'
            (λ u.
              let tags = sdk_tags (r.order (Option String) to_add) in
              updated "AddTagsToCertificate" (add_tags_to_certificate arn tags)
                (S.add_tags arn tags) s u refl)
            second
          ∙ if_any-accepted (remove_tags X S r arn)
              (delete_loop wanted [] (r.order (Option String) existing)) t s
              (λ u.
                let tags = sdk_tags (
                  r.order (Option String)
                    (delete_loop wanted [] (r.order (Option String) existing))) in
                updated "RemoveTagsFromCertificate" (remove_tags_from_certificate arn tags)
                  (S.remove_tags arn tags) t u refl)
              first
    ]
  ]

  -- Against a service that stores tags and has refused no change of them so far, one successful
  -- round settles: if the tags were listed, the desired ones synchronised with what was listed, and
  -- the tags listed again, then to synchronise the desired tags with these makes no call at all.
  pub one_round_settles :
      (desired latest seen : List Tag) (t0 t1 t2 t3 : List (Call X.Err))
      → IsTagStore X S arn old
      → any refused t0 ≡ false
      → list_tags X S arn t0 ≡ (ok latest, t1)
      → sync_tags X S r arn desired latest t1 ≡ (ok tt, t2)
      → list_tags X S arn t2 ≡ (ok seen, t3)
      → sync_tags X S r arn desired seen t3 ≡ (ok tt, t3)
  one_round_settles desired latest seen t0 t1 t2 t3 store accepted first sync second =
      elim (Option-cases (tag_map [] desired)) [
        | inl p ↦ absurd (unmapped desired latest t1 t2 p sync)
        | inr (wanted, p) ↦
            let (m, q, known, kept, fine) = listed X S arn old latest t0 t1 store accepted first in
            let (m', q', known', kept', fine') =
              listed X S arn old seen t2 t3 store (sync_accepted desired latest t1 t2 sync ∙ fine)
                second in
            sync_tags-quiet X S r arn R desired seen t3 p q'
              (λ k.
                sym (
                  sync_tags-converges X S r arn k R (old k) desired latest t1 t2 p q
                    (kept k ∙ sym (known k)) sync)
                ∙ sym (known' k))
              (λ k nil. sync_tags-nil_value X S r R arn k desired latest t1 t2 p nil sync)
      ]
