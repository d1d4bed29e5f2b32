-- ===== src/Certificate/Find.antt =====
-- `sdkFind` (sdk.go): reads the certificate from AWS and merges what it reads into a copy of the
-- custom resource. The merge is in `Find/Merge`, block by block.
pub mod Merge
pub mod Laws
pub mod Safety
pub mod Answers
pub mod Drift
use aws_controllers_k8s_acm.Base.{
  String, Bool, true, false, Option, none, some, List, ◌==◌, string_dec, if◌then◌else◌, is_none,
}
use aws_controllers_k8s_acm.Go.{Go, return, fail, deref, ◌>>=◌, on_err}
use aws_controllers_k8s_acm.Api.{Certificate, Tag, arn_of}
use aws_controllers_k8s_acm.Sdk.{
  Errors, Service, GoM, CertificateDetail, DescribeCertificateOutput, describe_certificate,
}
use aws_controllers_k8s_acm.Sdk.Metrics.{api_call}
use aws_controllers_k8s_acm.Tags.Sync.{list_tags}
use aws_controllers_k8s_acm.Certificate.{ResourceManager, set_status_defaults}
use aws_controllers_k8s_acm.Certificate.Payload.{new_describe_request_payload}
use aws_controllers_k8s_acm.Certificate.Find.Merge.{merge_domain_validations, merge_detail}

unfoldable pub required_fields_missing_from_read_one_input : Certificate → Bool
required_fields_missing_from_read_one_input ko = is_none (arn_of ko)

abbrev pub set_tags : List Tag → Certificate → Certificate
set_tags tags ko = record ko { spec = record (ko.spec) { tags = some tags } }

module _ (X : Errors) (S : Service X) (rm : ResourceManager) where
  open X use {Err}

  -- A missing certificate is `ackerr.NotFound`.
  unfoldable pub find_error : Err → Err
  find_error e = elim (X.api_code e) [
    | none ↦ e
    | some code ↦ if code == "ResourceNotFoundException" then X.not_found else e
  ]

  unfoldable pub describe : Certificate → GoM X DescribeCertificateOutput
  unfolding find_error
  describe ko =
      let input = new_describe_request_payload ko in
      on_err find_error (
        api_call X "READ_ONE" "DescribeCertificate" (describe_certificate input) (S.describe input))

  unfoldable pub sdk_find : Certificate → GoM X Certificate
  unfolding describe required_fields_missing_from_read_one_input new_describe_request_payload
      merge_domain_validations merge_detail list_tags set_status_defaults
  sdk_find ko = if required_fields_missing_from_read_one_input ko then fail X.not_found else do
    resp ← describe ko
    detail ← deref resp.certificate
    arn ← deref (arn_of ko)
    tags ← list_tags X S arn
    return (
        set_status_defaults rm
          (merge_detail detail (set_tags tags (merge_domain_validations detail ko))))
