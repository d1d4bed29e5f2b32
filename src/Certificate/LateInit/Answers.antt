-- ===== src/Certificate/LateInit/Answers.antt =====
-- What `LateInitialize` promises to the reconciler, with the read that it makes.
use aws_controllers_k8s_acm.Base.{◌≡◌, none, some}
use aws_controllers_k8s_acm.Go.{Outcome, ok}
use aws_controllers_k8s_acm.Api.{Certificate}
use aws_controllers_k8s_acm.Sdk.{Errors}
use aws_controllers_k8s_acm.Certificate.Conditions.{Returned}
use aws_controllers_k8s_acm.Certificate.LateInit.Filling.{Late, IsComplete}

-- What `LateInitialize` promises, of a read that succeeded or not: the resource that it returns has
-- all that `latest` has but its tags, and there is no error exactly if the read succeeded and the
-- fields that are waited for are there.
pub record LateAnswered (X : Errors) (latest : Certificate) (read : Outcome X.Err Certificate)
    (ret : Returned X) : Type 0 where
  pub resource : Certificate
  pub there : ret.resource ≡ some resource
  pub spec : Late read latest.spec resource.spec
  pub metadata : resource.metadata ≡ latest.metadata
  pub complete :
      ret.error ≡ none → ((found : Certificate) × (read ≡ ok found)) × IsComplete resource.spec
  pub fine : (found : Certificate) → read ≡ ok found → IsComplete resource.spec → ret.error ≡ none
