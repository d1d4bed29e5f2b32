-- ===== src/Certificate/Manager/Reading.antt =====
-- What `ReadOne` promises to the reconciler.
use mathlib.Core.Path.{subst}
use aws_controllers_k8s_acm.Base.{◌≡◌, refl, ap, sym, none, some, List, arith, inl, inr}
use aws_controllers_k8s_acm.GoMap.{RangeOrder}
use aws_controllers_k8s_acm.Go.{Outcome, ok, err, Outcome-cases}
use aws_controllers_k8s_acm.Api.{Certificate}
use aws_controllers_k8s_acm.Sdk.{Errors, Service, Call}
use aws_controllers_k8s_acm.Certificate.{ResourceManager}
use aws_controllers_k8s_acm.Certificate.AwsTags.{mirror_tags}
use aws_controllers_k8s_acm.Certificate.Conditions.{Returned, conditions_of}
use aws_controllers_k8s_acm.Certificate.Conditions.Keeps.{
  Keeps, ShowsError, IsSpeaking, on_success-ok, on_error-ok, on_success-Keeps, on_error-shown,
}
use aws_controllers_k8s_acm.Certificate.Conditions.Marks.{terminal_type, IsSingle}
use aws_controllers_k8s_acm.Certificate.Find.{sdk_find}
use aws_controllers_k8s_acm.Certificate.Find.Answers.{Read, sdk_find-Read}
use aws_controllers_k8s_acm.Certificate.Find.Laws.{Untouched, Untouched-same, sdk_find-Untouched}
use aws_controllers_k8s_acm.Certificate.Find.Safety.{Reads, sdk_find-Safe}
use aws_controllers_k8s_acm.Certificate.Manager.{read_answer, read_one}

module _ (X : Errors) (S : Service X) (rm : ResourceManager) where
  -- What the reconciler is promised of a read, by how `sdkFind` ended. If it succeeded: no error,
  -- and what it made of the answers of `DescribeCertificate` and `ListTagsForCertificate`, but for
  -- the conditions. If it failed: an error, and `ko` but for its conditions and its identity, of
  -- which the ARN stays, where the conditions show the error.
  pub data ReadAnswered (ko : Certificate) : Outcome X.Err Certificate → Returned X → Type 0 where
    observed :
        (found seen : Certificate) (ret : Returned X)
        → Read X S rm ko found
        → ret.resource ≡ some seen
        → ret.error ≡ none
        → Keeps found seen
        → Untouched ko seen
        → ReadAnswered ko (ok found) ret
    failed :
        (ko' : Certificate) (e e' : X.Err) (ret : Returned X)
        → ret.resource ≡ some ko'
        → ret.error ≡ some e'
        → Keeps ko ko'
        → ShowsError ko'
        → ReadAnswered ko (err e) ret

-- The argument of `ReadOne` keeps all but its tags.
abbrev pub KeepsButTags : Certificate → Certificate → Type 0
KeepsButTags ko ko' =
    (ko'.status ≡ ko.status)
    × (ko'.metadata ≡ ko.metadata)
    × ((record (ko'.spec) { tags = ko.spec.tags }) ≡ ko.spec)

module _ (X : Errors) (S : Service X) (r : RangeOrder) (rm : ResourceManager) where
  mirrored : (ko seen : Certificate) → KeepsButTags ko (mirror_tags r ko seen)
  unfolding mirror_tags
  mirrored ko seen = (refl, refl, refl)

  -- If the service's calls do not panic, an answer of `DescribeCertificate` has a certificate, the
  -- runtime finds the AWS error in the errors that AWS codes make terminal, and the resource has at
  -- most one terminal condition, then `ReadOne` returns after the calls of `sdkFind`. If `sdkFind`
  -- succeeded, it answers what `sdkFind` made of the certificate and the tags that AWS answered,
  -- with the fields that AWS does not know left alone; if it failed, it answers an error, and a true
  -- condition shows it. The argument of `ReadOne` keeps all but its tags.
  pub read_one_answers :
      (ko : Certificate) (t : List (Call X.Err))
      → Reads X S
      → IsSpeaking X
      → IsSingle terminal_type (conditions_of ko)
      → (ret : Returned X) × (ko' : Certificate) × (read_one X S r rm (record { ko = some ko }) t
          ≡ (ok (ret, ko'), (sdk_find X S rm ko t).1))
        × ReadAnswered X S rm ko (sdk_find X S rm ko t).0 ret
        × KeepsButTags ko ko'
  unfolding read_one read_answer
  read_one_answers ko t H speaks single = elim (Outcome-cases (sdk_find X S rm ko t).0) [
    | inl (seen, e) ↦
        let (ret, o) = on_success-ok X rm seen in
        let (seen', there, fine, keeps) = on_success-Keeps X rm seen ret o in
        let run = ap (λ o. (o, (sdk_find X S rm ko t).1)) e in
        (
          ret,
          mirror_tags r ko seen,
          ground (arith, o),
          subst (λ o. ReadAnswered X S rm ko o ret) (sym e)
              (observed seen seen' ret (sdk_find-Read X S rm ko seen t (sdk_find X S rm ko t).1 run)
                there fine keeps
                (Untouched-same ko seen seen' keeps.spec keeps.metadata
                  (sdk_find-Untouched X S rm ko seen t (sdk_find X S rm ko t).1 run))),
          mirrored ko seen,
        )
    | inr (inl e) ↦ absurd (sdk_find-Safe X S rm H ko t e)
    | inr (inr (v, e)) ↦
        let (ret, o) = on_error-ok X rm ko v speaks single in
        let (ko', e', there, wrong, keeps, shows) = on_error-shown X rm ko v ret single o in
        (
          ret,
          ko,
          ground (arith, o),
          subst (λ o. ReadAnswered X S rm ko o ret) (sym e)
              (failed ko' v e' ret there wrong keeps shows),
          (refl, refl, refl),
        )
  ]
