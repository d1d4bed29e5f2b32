-- ===== src/Certificate/Manager.antt =====
-- The methods of the resource manager (manager.go) around the handlers of sdk.go: `ReadOne`,
-- `Create`, `Update`, `Delete`, `IsSynced`, `ARNFromName`. A nil custom resource is a panic.
pub mod Laws
pub mod Answers
pub mod Reading
pub mod Deleting
use aws_controllers_k8s_acm.Base.{String, ◌<>◌, Bool, true, Option, none, some}
use aws_controllers_k8s_acm.GoMap.{RangeOrder}
use aws_controllers_k8s_acm.Go.{Outcome, ok, err, panic, return, crash, deref, lift, attempt, ◌>>=◌}
use aws_controllers_k8s_acm.Api.{Certificate}
use aws_controllers_k8s_acm.Sdk.{Errors, Service, GoM}
use aws_controllers_k8s_acm.Certificate.{ResourceManager, Resource}
use aws_controllers_k8s_acm.Certificate.AwsTags.{mirror_tags}
use aws_controllers_k8s_acm.Certificate.Conditions.{Returned, on_error, on_success}
use aws_controllers_k8s_acm.Certificate.Create.{sdk_create, sdk_delete}
use aws_controllers_k8s_acm.Certificate.Delta.{Compare, Delta}
use aws_controllers_k8s_acm.Certificate.Export.{Crypto}
use aws_controllers_k8s_acm.Certificate.Find.{sdk_find}
use aws_controllers_k8s_acm.Certificate.Update.{sdk_update}

unfoldable pub arn_from_name : ResourceManager → String → String
arn_from_name rm name =
    "arn:"
    <> (rm.aws_partition
        <> (":acm:" <> (rm.aws_region <> (":" <> (rm.aws_account_id <> (":" <> name))))))

module _ (X : Errors) (S : Service X) (rm : ResourceManager) where
  open X use {Err}

  unfoldable pub is_synced : Resource → GoM X Bool
  is_synced r = deref r.ko >>= λ _. return true

  -- What a method answers to a handler: `onSuccess` with its result or `onError` with `r`.
  unfoldable pub answer : Option Certificate → Outcome Err (Option Certificate) → GoM X (Returned X)
  answer r (ok created) = lift (on_success X rm created)
  answer r (err e) = lift (on_error X rm r e)
  answer r panic = crash

  unfoldable pub create : Resource → GoM X (Returned X)
  create r = do
    ko ← deref r.ko
    result ← attempt (sdk_create X S rm ko >>= λ created. return (some created))
    answer (some ko) result

  -- The handler returns no resource.
  unfoldable pub delete : Resource → GoM X (Returned X)
  delete r = do
    ko ← deref r.ko
    result ← attempt (sdk_delete X S rm ko >>= λ _. return none)
    answer (some ko) result

module _ (X : Errors) (S : Service X) (r : RangeOrder) (rm : ResourceManager) where
  open X use {Err}

  -- `ReadOne` changes its argument too: the AWS tags are mirrored into it.
  unfoldable pub read_answer :
      Certificate → Outcome X.Err Certificate → GoM X (Returned X × Certificate)
  read_answer ko (ok observed) =
      lift (on_success X rm (some observed)) >>= λ ret. return (ret, mirror_tags r ko observed)
  read_answer ko (err e) = lift (on_error X rm (some ko) e) >>= λ ret. return (ret, ko)
  read_answer ko panic = crash

  unfoldable pub read_one : Resource → GoM X (Returned X × Certificate)
  read_one res = do ko ← deref res.ko; result ← attempt (sdk_find X S rm ko); read_answer ko result

module _ (X : Errors) (S : Service X) (C : Crypto) (r : RangeOrder) (c : Compare)
    (rm : ResourceManager) where
  unfoldable pub update : Resource → Resource → Delta → GoM X (Returned X)
  update desired latest delta = do
    desired_ko ← deref desired.ko
    latest_ko ← deref latest.ko
    result ←
        attempt
          (sdk_update X S C r c rm desired_ko latest_ko delta >>= λ updated. return (some updated))
    answer X S rm (some latest_ko) result
