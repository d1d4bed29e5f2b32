-- ===== src/Certificate/AwsTags.antt =====
-- The methods of manager.go that rewrite a resource's tags: `EnsureTags`, `FilterSystemTags` and
-- `mirrorAWSTags`. A method that changes the resource in place returns it.
pub mod Laws
use aws_controllers_k8s_acm.Base.{String, Option, none, some, List}
use aws_controllers_k8s_acm.GoMap.{RangeOrder}
use aws_controllers_k8s_acm.Api.{Certificate, Tag}
use aws_controllers_k8s_acm.Tags.Ack.{
  AckTags, convert_to_ordered_ack_tags, from_ack_tags, ignore_system_tags, sync_aws_tags,
}

-- `ackrt.GetDefaultTags(&rm.cfg, r.ko, md)` and `acktags.Merge`.
pub record Tagging : Type 0 where
  pub default_tags : Certificate → AckTags
  pub merge : AckTags → AckTags → AckTags

-- `r.ko.Spec.Tags = tags`
abbrev pub with_tags : List Tag → Certificate → Certificate
with_tags tags ko = record ko { spec = record (ko.spec) { tags = some tags } }

module _ (r : RangeOrder) where
  unfoldable pub ensure_tags : Tagging → Certificate → Certificate
  ensure_tags g ko =
      let (resource_tags, key_order) = convert_to_ordered_ack_tags ko.spec.tags in
      with_tags (from_ack_tags r (g.merge resource_tags (g.default_tags ko)) key_order) ko

  unfoldable pub filter_system_tags : List String → Certificate → Certificate
  filter_system_tags system_tags ko =
      let (resource_tags, key_order) = convert_to_ordered_ack_tags ko.spec.tags in
      with_tags (from_ack_tags r (ignore_system_tags r resource_tags system_tags) key_order) ko

  -- `a` and `b` are there.
  unfoldable pub mirror_tags : Certificate → Certificate → Certificate
  mirror_tags a b =
      let (desired, key_order) = convert_to_ordered_ack_tags a.spec.tags in
      let (latest, _) = convert_to_ordered_ack_tags b.spec.tags in
      with_tags (from_ack_tags r (sync_aws_tags r desired latest) key_order) a

  -- Nothing is done where one is nil.
  unfoldable pub mirror_aws_tags : Option Certificate → Option Certificate → Option Certificate
  mirror_aws_tags (some a) (some b) = some (mirror_tags a b)
  mirror_aws_tags a b = a
