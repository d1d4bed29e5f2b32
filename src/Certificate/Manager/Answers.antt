-- ===== src/Certificate/Manager/Answers.antt =====
-- What `Create` and `Update` promise to the reconciler, on success and on failure.
use aws_controllers_k8s_acm.Base.{◌≡◌, none, some}
use aws_controllers_k8s_acm.Go.{Outcome, ok, err}
use aws_controllers_k8s_acm.Api.{Certificate}
use aws_controllers_k8s_acm.Sdk.{Errors}
use aws_controllers_k8s_acm.Certificate.Conditions.{Returned}
use aws_controllers_k8s_acm.Certificate.Conditions.Keeps.{Keeps, ShowsError}
use aws_controllers_k8s_acm.Certificate.Create.Done.{Done}
use aws_controllers_k8s_acm.Certificate.Delta.{Delta}
use aws_controllers_k8s_acm.Go.Safe.{Safe}

module _ (X : Errors) where
  -- What the reconciler is promised of a method, by how its handler ended, where `base` is what the
  -- method has. If the handler made a resource, for which `Good` holds: no error, and that resource
  -- but for its conditions. If it failed: an error, and `base` but for its conditions and its
  -- identity, of which the ARN stays, where the conditions show the error.
  pub data Answered (Good : Certificate → Type 0) (base : Certificate) (ret : Returned X)
      : Outcome X.Err Certificate → Type 0 where
    succeeded :
        (made ko : Certificate)
        → Good made
        → ret.resource ≡ some ko
        → ret.error ≡ none
        → Keeps made ko
        → Answered Good base ret (ok made)
    failed :
        (ko : Certificate) (e e' : X.Err)
        → ret.resource ≡ some ko
        → ret.error ≡ some e'
        → Keeps base ko
        → ShowsError ko
        → Answered Good base ret (err e)
