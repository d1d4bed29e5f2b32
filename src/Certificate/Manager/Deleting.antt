-- ===== src/Certificate/Manager/Deleting.antt =====
-- What `Delete` promises to the reconciler, and the call that it makes.
use aws_controllers_k8s_acm.Base.{
  ◌≡◌, ◌≢◌, refl, Option, none, some, List, [], ◌∷◌, ◌++◌, arith, inl, inr,
}
use aws_controllers_k8s_acm.Go.{Outcome, ok, err, panic, Outcome-cases}
use aws_controllers_k8s_acm.Api.{Certificate, arn_of}
use aws_controllers_k8s_acm.Sdk.{Errors, Service, Call, delete_certificate, record_api_call}
use aws_controllers_k8s_acm.Certificate.{ResourceManager}
use aws_controllers_k8s_acm.Certificate.Conditions.{Returned, on_success, conditions_of}
use aws_controllers_k8s_acm.Certificate.Conditions.Keeps.{
  Keeps, ShowsError, IsSpeaking, on_error-ok, on_error-shown,
}
use aws_controllers_k8s_acm.Certificate.Conditions.Marks.{terminal_type, IsSingle}
use aws_controllers_k8s_acm.Certificate.Create.{sdk_delete}
use aws_controllers_k8s_acm.Certificate.Manager.{answer, delete}
use aws_controllers_k8s_acm.Certificate.Payload.{new_delete_request_payload}

module _ (X : Errors) where
  -- What the reconciler is promised of a deletion whose one call was answered by `outcome`,
  -- which the metric reports: on success neither a resource nor an error; on failure the resource but for its conditions and its
  -- identity, of which the ARN stays, and the conditions show the error.
  pub data Deleted (ko : Certificate) (outcome : Outcome X.Err (Unit {0})) (reported : Option X.Err)
      (ret : Returned X) : Type 0 where
    gone :
        outcome ≡ ok tt
        → reported ≡ none
        → ret.resource ≡ none
        → ret.error ≡ none
        → Deleted ko outcome reported ret
    failed :
        (ko' : Certificate) (e e' : X.Err)
        → outcome ≡ err e
        → reported ≡ some e
        → ret.resource ≡ some ko'
        → ret.error ≡ some e'
        → Keeps ko ko'
        → ShowsError ko'
        → Deleted ko outcome reported ret

module _ (X : Errors) (S : Service X) (rm : ResourceManager) where
  -- If the call does not panic, the runtime finds the AWS error in the errors that AWS codes make
  -- terminal, and the resource has at most one terminal condition, then `Delete` returns after one
  -- call, of the deletion of the resource's ARN, and its metric, and answers as promised.
  pub delete_answers :
      (ko : Certificate) (t : List (Call X.Err))
      → S.delete (arn_of ko) t ≢ panic
      → IsSpeaking X
      → IsSingle terminal_type (conditions_of ko)
      → (ret : Returned X) × (reported : Option X.Err) × (delete X S rm (record { ko = some ko }) t
          ≡ (
            ok ret,
            (t ++ (delete_certificate (arn_of ko) ∷ []))
                ++ (record_api_call "DELETE" "DeleteCertificate" reported ∷ []),
          ))
        × Deleted X ko (S.delete (arn_of ko) t) reported ret
  unfolding delete answer sdk_delete new_delete_request_payload on_success
  delete_answers ko t safe speaks single = elim (Outcome-cases (S.delete (arn_of ko) t)) [
    | inl (done, e) ↦
        (record { resource = none; error = none }, none, ground arith, gone e refl refl refl)
    | inr (inl e) ↦ absurd (safe e)
    | inr (inr (v, e)) ↦
        let (ret, o) = on_error-ok X rm ko v speaks single in
        let (ko', e', there, wrong, keeps, shows) = on_error-shown X rm ko v ret single o in
        (ret, some v, ground (arith, o), failed ko' v e' e refl there wrong keeps shows)
  ]
