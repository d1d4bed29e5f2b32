-- ===== src/Certificate/Identity.antt =====
-- resource.go and identifiers.go: the methods of `resource` and of `resourceIdentifiers`. A setter
-- returns the certificate that it has changed.
use aws_controllers_k8s_acm.Base.{◌≡◌, refl, String, Bool, Option, none, some, List, is_some, arith}
use aws_controllers_k8s_acm.GoMap.{GoMap, lookup}
use aws_controllers_k8s_acm.Go.{Outcome, ok, err}
use aws_controllers_k8s_acm.Api.{Certificate, Condition, ObjectMeta, ResourceMetadata}
use aws_controllers_k8s_acm.Sdk.{Errors}
use aws_controllers_k8s_acm.Certificate.{metadata_or_new}
use aws_controllers_k8s_acm.Certificate.Import.{terminal_text}

-- `resourceIdentifiers`
pub record ResourceIdentifiers : Type 0 where
  pub meta : Option ResourceMetadata

unfoldable pub arn : ResourceIdentifiers → Option String
arn ri = elim ri.meta [ none ↦ none | some meta ↦ meta.arn ]

unfoldable pub owner_account_id : ResourceIdentifiers → Option String
owner_account_id ri = elim ri.meta [ none ↦ none | some meta ↦ meta.owner_account_id ]

unfoldable pub region : ResourceIdentifiers → Option String
region ri = elim ri.meta [ none ↦ none | some meta ↦ meta.region ]

unfoldable pub partition : ResourceIdentifiers → Option String
partition ri = elim ri.meta [ none ↦ none | some meta ↦ meta.partition ]

unfoldable pub identifiers : Certificate → ResourceIdentifiers
identifiers ko = record { meta = ko.status.ack_resource_metadata }

unfoldable pub is_being_deleted : Certificate → Bool
is_being_deleted ko = is_some ko.metadata.deletion_timestamp

unfoldable pub conditions : Certificate → Option (List Condition)
conditions ko = ko.status.conditions

unfoldable pub replace_conditions : Option (List Condition) → Certificate → Certificate
replace_conditions cs ko = record ko { status = record (ko.status) { conditions = cs } }

unfoldable pub set_object_meta : ObjectMeta → Certificate → Certificate
set_object_meta meta ko = record ko { metadata = meta }

unfoldable pub set_status : Certificate → Certificate → Certificate
set_status desired ko = record ko { status = desired.status }

-- `identifier.ARN` is assigned also where it is nil.
unfoldable pub set_identifiers : Option String → Certificate → Certificate
set_identifiers identifier ko =
    let meta = metadata_or_new ko.status.ack_resource_metadata in
    record ko {
      status = record (ko.status) {
        ack_resource_metadata = some (record meta { arn = identifier });
      };
    }

module _ (X : Errors) where
  unfoldable pub populate_resource_from_annotation :
      GoMap String → Certificate → Outcome X.Err Certificate
  populate_resource_from_annotation fields ko = elim (lookup "arn" fields) [
    | none ↦ err (terminal_text X "required field missing: arn")
    | some resource_arn ↦ ok (set_identifiers (some resource_arn) ko)
  ]

  -- Populating from the adoption annotation fails exactly where the annotation has no ARN;
  -- otherwise the certificate's identifiers have its ARN, and the account, the region and the
  -- partition that they had.
  pub populate_lem :
      (fields : GoMap String) (ko : Certificate)
      → ((lookup "arn" fields ≡ none)
          → populate_resource_from_annotation fields ko
            ≡ err (terminal_text X "required field missing: arn"))
        × ((a : String)
            → lookup "arn" fields ≡ some a
            → (ko' : Certificate) × (populate_resource_from_annotation fields ko ≡ ok ko')
              × (arn (identifiers ko') ≡ some a)
              × (region (identifiers ko') ≡ region (identifiers ko))
              × (partition (identifiers ko') ≡ partition (identifiers ko))
              × (owner_account_id (identifiers ko') ≡ owner_account_id (identifiers ko)))
  unfolding populate_resource_from_annotation set_identifiers identifiers arn region partition
      owner_account_id
  populate_lem fields ko = (
    λ h. rw (h, populate_resource_from_annotation),
    λ a h. (
      set_identifiers (some a) ko,
      rw (h, populate_resource_from_annotation),
      refl,
      ground arith,
      ground arith,
      ground arith,
    ),
  )
