-- ===== src/Certificate.antt =====
-- pkg/resource/certificate: the resource manager of the Certificate kind. This file has what its
-- modules share: the manager's fields, the resource, and `setStatusDefaults` (sdk.go).
pub mod Defaults
pub mod Payload
pub mod Find
pub mod Conditions
pub mod Import
pub mod Export
pub mod Create
pub mod Update
pub mod Delta
pub mod AwsTags
pub mod Manager
pub mod LateInit
pub mod References
pub mod Identity
pub mod Descriptor
pub mod Factory
use aws_controllers_k8s_acm.Base.{
  String, Bool, Option, none, some, ◌==◌, string_dec, if◌then◌else◌, [], or_else,
}
use aws_controllers_k8s_acm.Api.{Certificate, ResourceMetadata, no_metadata}

-- The fields of `resourceManager` that its code reads.
pub record ResourceManager : Type 0 where
  pub aws_account_id : String
  pub aws_region : String
  pub aws_partition : String
  pub enable_cross_namespace : Bool

-- `resource`: a pointer to the custom resource.
pub record Resource : Type 0 where
  pub ko : Option Certificate

-- An enumeration of the SDK as a pointer: `if x != "" { p = aws.String(string(x)) }`.
abbrev pub non_empty : String → Option String
non_empty s = if s == "" then none else some s

-- `string(*p)` into an enumeration of the SDK, unset for nil.
abbrev pub or_unset : Option String → String
or_unset none = ""
or_unset (some s) = s

-- `ko.Status.ACKResourceMetadata`, a new one if it is nil.
abbrev pub metadata_or_new : Option ResourceMetadata → ResourceMetadata
metadata_or_new none = no_metadata
metadata_or_new (some meta) = meta

-- `if arn != nil { ko.Status.ACKResourceMetadata.ARN = arn }` after the metadata is ensured.
unfoldable pub merge_arn : Option String → Certificate → Certificate
merge_arn arn ko =
    let meta = metadata_or_new ko.status.ack_resource_metadata in
    record ko {
      status = record (ko.status) {
        ack_resource_metadata = some (record meta { arn = or_else arn meta.arn });
      };
    }

-- `setStatusDefaults`
unfoldable pub set_status_defaults : ResourceManager → Certificate → Certificate
set_status_defaults rm ko =
    let meta = metadata_or_new ko.status.ack_resource_metadata in
    record ko {
      status = record (ko.status) {
        ack_resource_metadata = some (record meta {
          region = or_else meta.region (some rm.aws_region);
          partition = or_else meta.partition (some rm.aws_partition);
          owner_account_id = or_else meta.owner_account_id (some rm.aws_account_id);
        });
        conditions = or_else ko.status.conditions (some []);
      };
    }
