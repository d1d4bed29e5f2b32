-- ===== src/Certificate/Update.antt =====
-- `sdkUpdate` (sdk.go), with the hooks that export the certificate and that update the tags.
pub mod Laws
pub mod Done
pub mod Safety
pub mod InStep
use aws_controllers_k8s_acm.Base.{
  String, Bool, true, false, not, Option, none, some, List, if◌then◌else◌, ◌==◌, string_dec,
}
use aws_controllers_k8s_acm.GoMap.{RangeOrder}
use aws_controllers_k8s_acm.Go.{Go, return, fail, deref, ◌>>=◌, ◌>>◌}
use aws_controllers_k8s_acm.Api.{Certificate, arn_of}
use aws_controllers_k8s_acm.Sdk.{Errors, Service, GoM, update_certificate_options}
use aws_controllers_k8s_acm.Sdk.Metrics.{api_call}
use aws_controllers_k8s_acm.Tags.Ack.{elems}
use aws_controllers_k8s_acm.Tags.Sync.{sync_tags}
use aws_controllers_k8s_acm.Certificate.{ResourceManager, set_status_defaults}
use aws_controllers_k8s_acm.Certificate.Delta.{Compare, Delta, is_text}
use aws_controllers_k8s_acm.Certificate.Export.{Crypto, do_export_certificate}
use aws_controllers_k8s_acm.Certificate.Import.{terminal_text}
use aws_controllers_k8s_acm.Certificate.Payload.{new_update_request_payload}

-- The desired resource with the issue that was observed.
unfoldable pub keep_issue : ResourceManager → Certificate → Certificate → Certificate
keep_issue rm desired latest =
    let ko = set_status_defaults rm desired in
    record ko {
      status = record (ko.status) {
        issued_at = latest.status.issued_at;
        status = latest.status.status;
        serial = latest.status.serial;
      };
    }

module _ (X : Errors) (S : Service X) (C : Crypto) (r : RangeOrder) (c : Compare)
    (rm : ResourceManager) where
  unfoldable pub push_tags : Certificate → Certificate → GoM X (Unit {0})
  push_tags desired latest = do
    arn ← deref (arn_of desired)
    sync_tags X S r arn (elems desired.spec.tags) (elems latest.spec.tags)

  unfoldable pub update_tags : Certificate → Certificate → Delta → GoM X (Unit {0})
  update_tags desired latest delta =
      if c.different_at delta "Spec.Tags" then push_tags desired latest else return tt

  unfoldable pub update_options : Certificate → Certificate → GoM X Certificate
  update_options desired latest =
      let input = new_update_request_payload desired in
      api_call X "UPDATE" "UpdateCertificateOptions" (update_certificate_options input)
        (S.update_options input)
      >> return (keep_issue rm desired latest)

  -- What follows the tags.
  unfoldable pub update_rest : Certificate → Certificate → Delta → GoM X Certificate
  update_rest desired latest delta =
      if not (c.different_except delta "Spec.Tags")
      then return desired
      else if is_text latest.status.type_ "IMPORTED"
      then (if c.different_at delta "Spec.Options"
          then fail (terminal_text X "only tags can be updated for an imported certificate")
          else return desired)
      else update_options desired latest

  unfoldable pub export_issue : Certificate → Certificate → GoM X Certificate
  export_issue desired latest = do
    do_export_certificate X S C latest
    return (keep_issue rm desired latest)

  unfoldable pub sdk_update : Certificate → Certificate → Delta → GoM X Certificate
  sdk_update desired latest delta =
      if c.different_at delta "Spec.Status.IssuedAt"
      then export_issue desired latest
      else if c.different_at delta "Spec.Status.Serial"
      then export_issue desired latest
      else update_tags desired latest delta >> update_rest desired latest delta
