-- ===== src/Certificate/Update/Safety.antt =====
-- `sdkUpdate` does not panic on resources with whole tags, where an export names its key algorithm.
use aws_controllers_k8s_acm.Base.{◌≢◌, String, none, List, All, arith}
use aws_controllers_k8s_acm.GoMap.{RangeOrder, IsRange}
use aws_controllers_k8s_acm.Go.{panic, deref}
use aws_controllers_k8s_acm.Go.Safe.{Safe, bind-Safe, deref-Safe}
use aws_controllers_k8s_acm.Api.{Certificate, arn_of}
use aws_controllers_k8s_acm.Sdk.{
  Errors, Service, Call, SdkTag, UpdateCertificateOptionsInput, update_certificate_options,
}
use aws_controllers_k8s_acm.Sdk.Metrics.{api_call-Safe}
use aws_controllers_k8s_acm.Tags.Ack.{elems}
use aws_controllers_k8s_acm.Tags.Sync.Safety.{IsComplete, sync_tags_safe}
use aws_controllers_k8s_acm.Certificate.{ResourceManager}
use aws_controllers_k8s_acm.Certificate.Delta.{Compare, Delta}
use aws_controllers_k8s_acm.Certificate.Export.{Crypto, do_export_certificate}
use aws_controllers_k8s_acm.Certificate.Export.Safety.{
  Exports, IsExportable, do_export_certificate-Safe,
}
use aws_controllers_k8s_acm.Certificate.Payload.{new_update_request_payload}
use aws_controllers_k8s_acm.Certificate.Update.{
  push_tags, update_tags, update_options, update_rest, export_issue, sdk_update,
}

-- The calls that an update makes return.
pub record Updates (X : Errors) (S : Service X) : Type 0 where
  pub exports : Exports X S
  pub update_options :
      (input : UpdateCertificateOptionsInput) (t : List (Call X.Err))
      → S.update_options input t ≢ panic
  pub add_tags :
      (arn : String) (tags : List SdkTag) (t : List (Call X.Err)) → S.add_tags arn tags t ≢ panic
  pub remove_tags :
      (arn : String) (tags : List SdkTag) (t : List (Call X.Err)) → S.remove_tags arn tags t ≢ panic

-- The desired resource has an ARN, tags have keys and values, and where the latest resource is to be
-- exported, it names its key algorithm and is answered a key of that kind.
pub record IsUpdatable (X : Errors) (S : Service X) (C : Crypto) (desired latest : Certificate)
    : Type 0 where
  pub known : arn_of desired ≢ none
  pub desired_tags : All IsComplete (elems desired.spec.tags)
  pub latest_tags : All IsComplete (elems latest.spec.tags)
  pub exportable : latest.spec.export_to ≢ none → IsExportable X S C latest

module _ (X : Errors) (S : Service X) (C : Crypto) (r : RangeOrder) (R : IsRange r) (c : Compare)
    (rm : ResourceManager) (H : Updates X S) (desired latest : Certificate)
    (able : IsUpdatable X S C desired latest) where
  push_tags-Safe : Safe (push_tags X S C r c rm desired latest)
  unfolding push_tags
  push_tags-Safe =
      bind-Safe (deref (arn_of desired)) (λ arn. _) (deref-Safe (arn_of desired) able.known)
        (λ arn t.
          sync_tags_safe X S r R arn (elems desired.spec.tags) (elems latest.spec.tags) t
            able.desired_tags able.latest_tags (H.add_tags arn) (H.remove_tags arn))

  update_tags-Safe : (delta : Delta) → Safe (update_tags X S C r c rm desired latest delta)
  unfolding update_tags
  update_tags-Safe delta t p = ground (arith, push_tags-Safe t)

  update_options-Safe : Safe (update_options X S C r c rm desired latest)
  unfolding update_options
  update_options-Safe =
      let input = new_update_request_payload desired in
      bind-Safe _ (λ _. _)
        (api_call-Safe X "UPDATE" "UpdateCertificateOptions" (update_certificate_options input)
          (S.update_options input) (H.update_options input))
        (λ _ t p. ground arith)

  update_rest-Safe : (delta : Delta) → Safe (update_rest X S C r c rm desired latest delta)
  unfolding update_rest
  update_rest-Safe delta t p = ground (arith, update_options-Safe t)

  export_issue-Safe : Safe (export_issue X S C r c rm desired latest)
  unfolding export_issue
  export_issue-Safe =
      bind-Safe (do_export_certificate X S C latest) (λ _. _)
        (do_export_certificate-Safe X S C H.exports latest able.exportable) (λ _ t p. ground arith)

  -- `sdkUpdate` does not panic, whatever differs.
  pub sdk_update-Safe : (delta : Delta) → Safe (sdk_update X S C r c rm desired latest delta)
  unfolding sdk_update
  sdk_update-Safe delta t p = ground (
    arith,
    export_issue-Safe t,
    bind-Safe (update_tags X S C r c rm desired latest delta)
        (λ _. update_rest X S C r c rm desired latest delta) (update_tags-Safe delta)
        (λ _. update_rest-Safe delta) t,
  )
