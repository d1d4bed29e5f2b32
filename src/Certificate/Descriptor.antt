-- ===== src/Certificate/Descriptor.antt =====
-- descriptor.go: the kind that it describes, `EmptyRuntimeObject`, `ResourceFromRuntimeObject`,
-- `Delta`, `IsManaged`, `containsFinalizer`, `MarkManaged`, `MarkUnmanaged`, `MarkAdopted`. The functions
-- of controller-runtime that add and remove a finalizer are parameters.
use aws_controllers_k8s_acm.Base.{
  ◌≡◌, ◌≢◌, refl, String, Bool, true, false, ◌||◌, Option, none, some, List, [], ◌∷◌, arith, ◌==◌,
  if◌then◌else◌,
}
use aws_controllers_k8s_acm.GoMap.{GoMap, lookup, insert, lookup-insert}
use aws_controllers_k8s_acm.Go.{Go, return, crash, deref, ◌>>=◌}
use aws_controllers_k8s_acm.Api.{Certificate, empty_certificate}
use aws_controllers_k8s_acm.Certificate.{Resource}
use aws_controllers_k8s_acm.Certificate.Delta.{Compare, Delta, new_resource_delta}

abbrev pub finalizer_string : String
finalizer_string = "finalizers.acm.services.k8s.aws/Certificate"

-- `GroupKind` and the group and the version of `svcapitypes.GroupVersion`.
pub record GroupVersionKind : Type 0 where
  pub group : String
  pub version : String
  pub kind : String

unfoldable pub group_version_kind : GroupVersionKind
group_version_kind = record {
  group = "acm.services.k8s.aws";
  version = "v1alpha1";
  kind = "Certificate";
}

-- A `rtclient.Object` or an `acktypes.AWSResource`: one of this kind, or of another.
pub data Dynamic (A : Type 0) : Type 0 where
  this : A → Dynamic A
  other : Dynamic A

-- `x.(*T)`
abbrev pub as_this : {C E A : Type 0} → Dynamic A → Go C E A
as_this (this a) = return a
as_this other = crash

unfoldable pub empty_runtime_object : Dynamic (Option Certificate)
empty_runtime_object = this (some empty_certificate)

unfoldable pub resource_from_runtime_object :
    {C E : Type 0} → Dynamic (Option Certificate) → Go C E Resource
resource_from_runtime_object obj = as_this obj >>= λ ko. return (record { ko = ko })

-- As in `new_resource_delta`, a resource is what it points to, and `none` is a nil one.
unfoldable pub delta :
    {C E : Type 0}
    → Compare
    → Dynamic (Option Certificate)
    → Dynamic (Option Certificate)
    → Go C E Delta
delta c a b = do a' ← as_this a; b' ← as_this b; deref (new_resource_delta c a' b')

-- `controllerutil.AddFinalizer` and `RemoveFinalizer`, on the list of finalizers, and
-- `ackv1alpha1.AnnotationAdopted`.
pub record Runtime : Type 0 where
  pub add_finalizer : List String → String → List String
  pub remove_finalizer : List String → String → List String
  pub annotation_adopted : String

abbrev pub set_finalizers : List String → Certificate → Certificate
set_finalizers fs ko = record ko { metadata = record (ko.metadata) { finalizers = fs } }

-- The loop of `containsFinalizer`.
unfoldable pub contains_finalizer : List String → String → Bool
contains_finalizer [] finalizer = false
contains_finalizer (e ∷ es) finalizer = e == finalizer || contains_finalizer es finalizer

unfoldable pub is_managed : Certificate → Bool
unfolding contains_finalizer
is_managed ko = contains_finalizer ko.metadata.finalizers finalizer_string

-- A nil map is made empty first.
abbrev pub annotations_of : Certificate → GoMap String
annotations_of ko = elim ko.metadata.annotations [ none ↦ [] | some curr ↦ curr ]

module _ (t : Runtime) where
  unfoldable pub mark_managed : Certificate → Certificate
  mark_managed ko = set_finalizers (t.add_finalizer ko.metadata.finalizers finalizer_string) ko

  unfoldable pub mark_unmanaged : Certificate → Certificate
  mark_unmanaged ko = set_finalizers (t.remove_finalizer ko.metadata.finalizers finalizer_string) ko

  unfoldable pub mark_adopted : Certificate → Certificate
  mark_adopted ko = record ko {
    metadata = record (ko.metadata) {
      annotations = some (insert t.annotation_adopted "true" (annotations_of ko));
    };
  }

  -- Adopting a resource sets one annotation: it reads "true", and every other annotation and the
  -- question whether the resource is managed are as before.
  pub mark_adopted_lem :
      (ko : Certificate) (k : String)
      → (lookup k (annotations_of (mark_adopted ko))
          ≡ (if k == t.annotation_adopted then some "true" else lookup k (annotations_of ko)))
        × (is_managed (mark_adopted ko) ≡ is_managed ko)
  unfolding mark_adopted is_managed
  mark_adopted_lem ko k = (lookup-insert k t.annotation_adopted "true" (annotations_of ko), refl)

-- What controller-runtime documents: the finalizer is in the list after it is added and not after
-- it is removed, and others are in it as before.
pub record IsRuntime (t : Runtime) : Type 0 where
  pub contains-add :
      (fs : List String) (f g : String)
      → contains_finalizer (t.add_finalizer fs f) g ≡ (f == g || contains_finalizer fs g)
  pub contains-remove :
      (fs : List String) (f g : String)
      → contains_finalizer (t.remove_finalizer fs f) g
        ≡ (if f == g then false else contains_finalizer fs g)

-- A resource is managed after `MarkManaged` and not after `MarkUnmanaged`, whatever it was before;
-- neither adds or removes a finalizer of anybody else.
pub marks_managed :
    (t : Runtime)
    → IsRuntime t
    → (ko : Certificate)
    → (is_managed (mark_managed t ko) ≡ true)
      × (is_managed (mark_unmanaged t (mark_managed t ko)) ≡ false)
      × ((g : String)
          → g ≢ finalizer_string
          → contains_finalizer (mark_unmanaged t (mark_managed t ko)).metadata.finalizers g
            ≡ contains_finalizer ko.metadata.finalizers g)
unfolding is_managed mark_managed mark_unmanaged
marks_managed t T ko =
    let fs = ko.metadata.finalizers in
    let gs = t.add_finalizer fs finalizer_string in
    (
      ground (arith, T.contains-add fs finalizer_string finalizer_string),
      ground (arith, T.contains-remove gs finalizer_string finalizer_string),
      λ g n.
          ground
            (arith, T.contains-add fs finalizer_string g, T.contains-remove gs finalizer_string g),
    )
