-- ===== src/Tests/InStep.antt =====
-- An update after a read that was answered other tags than the desired ones, and nothing else.
use aws_controllers_k8s_acm.Base.{
  ◌≡◌, ◌≢◌, refl, sym, inl, String, not, any, some, [], ◌∷◌, arith, false, true, ◌==◌, contains,
  string_dec,
}
use aws_controllers_k8s_acm.Go.{return, ◌>>◌}
use aws_controllers_k8s_acm.Certificate.Delta.{Compare, Delta, compare_certificates}
use aws_controllers_k8s_acm.Certificate.Find.Answers.{Read, merged}
use aws_controllers_k8s_acm.Certificate.Find.Drift.{IsReflexive, drifts}
use aws_controllers_k8s_acm.Certificate.Update.{push_tags, sdk_update}
use aws_controllers_k8s_acm.Certificate.Update.InStep.{IsFinding, sdk_update-compare_certificates}
use aws_controllers_k8s_acm.Tags.Sync.{resource_tags_from_sdk_tags}
use aws_controllers_k8s_acm.Tests.Updates.{observed}
use aws_controllers_k8s_acm.Tests.Fixtures.{
  faults, service, manager, created, detail, listed, stored_order, crypto, plain_compare,
}

-- Every two maps differ.
abbrev tag_compare : Compare
tag_compare = record plain_compare { map_string_string_equal = λ a b. false }

tag_compare-IsReflexive : IsReflexive tag_compare
tag_compare-IsReflexive = record {
  has_nil_difference-self = λ a. refl;
  deep_equal-self = λ a. refl;
}

any-only :
    (p : String) (delta : Delta)
    → ((q : String) → contains delta q ≡ true → q ≡ p)
    → any (λ q. not (q == p)) delta ≡ false
any-only p [] h = refl
any-only p (q ∷ delta) h =
    let rest = any-only p delta (λ k i. h k (ground (arith, i))) in ground (arith, h q, rest)

tag_compare-IsFinding : IsFinding tag_compare
tag_compare-IsFinding = record {
  there = λ delta p i. i;
  found = λ delta p i. (p, i, inl refl);
  except = λ delta p h. any-only p delta h;
}

observed_run : observed ≡ merged manager detail listed created
unfolding resource_tags_from_sdk_tags
observed_run = refl

abbrev answered : Read faults service manager created observed
answered = record {
  arn = "arn:1";
  before = [];
  between = [];
  resp = record { certificate = some detail };
  detail = detail;
  listed = listed;
  named = refl;
  described = refl;
  filled = refl;
  tagged = refl;
  made = observed_run;
}

another : (p : String) → p ≢ "Spec.Tags" → ("Spec.Tags" == p) ≡ false
another p n = elim (string_dec "Spec.Tags" p) [ yes e ↦ absurd (n (sym e)) | no m ↦ ground arith ]

only_tags_drift :
    (p : String)
    → p ≢ "Spec.Tags"
    → drifts tag_compare created answered.detail answered.listed p ≡ false
unfolding string_dec
only_tags_drift p n = another p n

sdk_update-compare_certificates_example :
    sdk_update faults service crypto stored_order tag_compare manager created observed
      (compare_certificates tag_compare created observed)
      []
    ≡ (push_tags faults service crypto stored_order tag_compare manager created observed
          >> return created)
        []
unfolding string_dec
sdk_update-compare_certificates_example =
    sdk_update-compare_certificates faults service crypto stored_order tag_compare manager created
      observed [] tag_compare-IsReflexive tag_compare-IsFinding answered only_tags_drift
