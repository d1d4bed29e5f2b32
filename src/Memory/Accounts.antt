-- ===== src/Memory/Accounts.antt =====
-- The copies of the types of ACME accounts and endpoints (zz_generated.deepcopy.go).
use aws_controllers_k8s_acm.Base.{ap, String}
use aws_controllers_k8s_acm.Memory.{
  Ref, Slice, Alloc, return, ◌>>=◌, Deep, ◌⊕◌, ◌&◌, ◌⊗◌, leaf, ref, slice,
}
use aws_controllers_k8s_acm.Memory.Laws.{IsDeep, leaf-IsDeep, both-IsDeep, ref-IsDeep, slice-IsDeep}
use aws_controllers_k8s_acm.Memory.Fields.{Tag, tag, tag-IsDeep}

pub record AcmeAccount : Type 0 where
  pub account_url : Ref String
  pub public_key_thumbprint : Ref String

unfoldable pub copy_acme_account : AcmeAccount → Alloc AcmeAccount
copy_acme_account x = do
  account_url ← leaf.copy x.account_url
  public_key_thumbprint ← leaf.copy x.public_key_thumbprint
  return (record x { account_url = account_url; public_key_thumbprint = public_key_thumbprint })

abbrev AcmeAccountFields : Type 0
AcmeAccountFields = Ref String ⊕ Ref String

abbrev fields_of_acme_account : AcmeAccount → AcmeAccountFields
fields_of_acme_account x = x.account_url & x.public_key_thumbprint

abbrev acme_account_from : AcmeAccountFields → AcmeAccount
acme_account_from (account_url & public_key_thumbprint) = record {
  account_url = account_url;
  public_key_thumbprint = public_key_thumbprint;
}

abbrev acme_account_fields : Deep AcmeAccountFields
acme_account_fields = leaf ⊗ leaf

abbrev pub acme_account : Deep AcmeAccount
acme_account = record {
  copy = copy_acme_account;
  addresses = λ x. acme_account_fields.addresses (fields_of_acme_account x);
  strip = λ x. acme_account_from (acme_account_fields.strip (fields_of_acme_account x));
}

pub acme_account-IsDeep : IsDeep acme_account
unfolding copy_acme_account
acme_account-IsDeep x n =
    let parts = both-IsDeep leaf-IsDeep leaf-IsDeep (fields_of_acme_account x) n in
    record { same = ap acme_account_from parts.same; fresh = parts.fresh }

pub record AcmeAccountSummary : Type 0 where
  pub account_url : Ref String
  pub public_key_thumbprint : Ref String

unfoldable pub copy_acme_account_summary : AcmeAccountSummary → Alloc AcmeAccountSummary
copy_acme_account_summary x = do
  account_url ← leaf.copy x.account_url
  public_key_thumbprint ← leaf.copy x.public_key_thumbprint
  return (record x { account_url = account_url; public_key_thumbprint = public_key_thumbprint })

abbrev AcmeAccountSummaryFields : Type 0
AcmeAccountSummaryFields = Ref String ⊕ Ref String

abbrev fields_of_acme_account_summary : AcmeAccountSummary → AcmeAccountSummaryFields
fields_of_acme_account_summary x = x.account_url & x.public_key_thumbprint

abbrev acme_account_summary_from : AcmeAccountSummaryFields → AcmeAccountSummary
acme_account_summary_from (account_url & public_key_thumbprint) = record {
  account_url = account_url;
  public_key_thumbprint = public_key_thumbprint;
}

abbrev acme_account_summary_fields : Deep AcmeAccountSummaryFields
acme_account_summary_fields = leaf ⊗ leaf

abbrev pub acme_account_summary : Deep AcmeAccountSummary
acme_account_summary = record {
  copy = copy_acme_account_summary;
  addresses = λ x. acme_account_summary_fields.addresses (fields_of_acme_account_summary x);
  strip = λ x.
      acme_account_summary_from
        (acme_account_summary_fields.strip (fields_of_acme_account_summary x));
}

pub acme_account_summary-IsDeep : IsDeep acme_account_summary
unfolding copy_acme_account_summary
acme_account_summary-IsDeep x n =
    let parts = both-IsDeep leaf-IsDeep leaf-IsDeep (fields_of_acme_account_summary x) n in
    record { same = ap acme_account_summary_from parts.same; fresh = parts.fresh }

pub record AcmeEndpoint : Type 0 where
  pub certificate_tags : Slice (Ref Tag)
  pub endpoint_url : Ref String
  pub failure_reason : Ref String

unfoldable pub copy_acme_endpoint : AcmeEndpoint → Alloc AcmeEndpoint
copy_acme_endpoint x = do
  certificate_tags ← (slice (ref tag)).copy x.certificate_tags
  endpoint_url ← leaf.copy x.endpoint_url
  failure_reason ← leaf.copy x.failure_reason
  return (record x {
    certificate_tags = certificate_tags;
    endpoint_url = endpoint_url;
    failure_reason = failure_reason;
  })

abbrev AcmeEndpointFields : Type 0
AcmeEndpointFields = Slice (Ref Tag) ⊕ Ref String ⊕ Ref String

abbrev fields_of_acme_endpoint : AcmeEndpoint → AcmeEndpointFields
fields_of_acme_endpoint x = x.certificate_tags & x.endpoint_url & x.failure_reason

abbrev acme_endpoint_from : AcmeEndpointFields → AcmeEndpoint
acme_endpoint_from (certificate_tags & endpoint_url & failure_reason) = record {
  certificate_tags = certificate_tags;
  endpoint_url = endpoint_url;
  failure_reason = failure_reason;
}

abbrev acme_endpoint_fields : Deep AcmeEndpointFields
acme_endpoint_fields = slice (ref tag) ⊗ leaf ⊗ leaf

abbrev pub acme_endpoint : Deep AcmeEndpoint
acme_endpoint = record {
  copy = copy_acme_endpoint;
  addresses = λ x. acme_endpoint_fields.addresses (fields_of_acme_endpoint x);
  strip = λ x. acme_endpoint_from (acme_endpoint_fields.strip (fields_of_acme_endpoint x));
}

pub acme_endpoint-IsDeep : IsDeep acme_endpoint
unfolding copy_acme_endpoint
acme_endpoint-IsDeep x n =
    let parts =
      both-IsDeep (slice-IsDeep (ref tag) (ref-IsDeep tag tag-IsDeep))
        (both-IsDeep leaf-IsDeep leaf-IsDeep) (fields_of_acme_endpoint x) n in
    record { same = ap acme_endpoint_from parts.same; fresh = parts.fresh }

pub record AcmeEndpointSummary : Type 0 where
  pub certificate_tags : Slice (Ref Tag)
  pub endpoint_url : Ref String
  pub failure_reason : Ref String

unfoldable pub copy_acme_endpoint_summary : AcmeEndpointSummary → Alloc AcmeEndpointSummary
copy_acme_endpoint_summary x = do
  certificate_tags ← (slice (ref tag)).copy x.certificate_tags
  endpoint_url ← leaf.copy x.endpoint_url
  failure_reason ← leaf.copy x.failure_reason
  return (record x {
    certificate_tags = certificate_tags;
    endpoint_url = endpoint_url;
    failure_reason = failure_reason;
  })

abbrev AcmeEndpointSummaryFields : Type 0
AcmeEndpointSummaryFields = Slice (Ref Tag) ⊕ Ref String ⊕ Ref String

abbrev fields_of_acme_endpoint_summary : AcmeEndpointSummary → AcmeEndpointSummaryFields
fields_of_acme_endpoint_summary x = x.certificate_tags & x.endpoint_url & x.failure_reason

abbrev acme_endpoint_summary_from : AcmeEndpointSummaryFields → AcmeEndpointSummary
acme_endpoint_summary_from (certificate_tags & endpoint_url & failure_reason) = record {
  certificate_tags = certificate_tags;
  endpoint_url = endpoint_url;
  failure_reason = failure_reason;
}

abbrev acme_endpoint_summary_fields : Deep AcmeEndpointSummaryFields
acme_endpoint_summary_fields = slice (ref tag) ⊗ leaf ⊗ leaf

abbrev pub acme_endpoint_summary : Deep AcmeEndpointSummary
acme_endpoint_summary = record {
  copy = copy_acme_endpoint_summary;
  addresses = λ x. acme_endpoint_summary_fields.addresses (fields_of_acme_endpoint_summary x);
  strip = λ x.
      acme_endpoint_summary_from
        (acme_endpoint_summary_fields.strip (fields_of_acme_endpoint_summary x));
}

pub acme_endpoint_summary-IsDeep : IsDeep acme_endpoint_summary
unfolding copy_acme_endpoint_summary
acme_endpoint_summary-IsDeep x n =
    let parts =
      both-IsDeep (slice-IsDeep (ref tag) (ref-IsDeep tag tag-IsDeep))
        (both-IsDeep leaf-IsDeep leaf-IsDeep) (fields_of_acme_endpoint_summary x) n in
    record { same = ap acme_endpoint_summary_from parts.same; fresh = parts.fresh }
