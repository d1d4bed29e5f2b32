-- ===== src/Certificate/Factory.antt =====
-- manager_factory.go: `ManagerFor` and its cache of resource managers, and `newResourceManager`
-- (manager.go). A manager is a pointer: the models of two managers differ by their address.
pub mod Callers
pub mod Keys
use aws_controllers_k8s_acm.Base.{
  ◌≡◌, ◌≢◌, refl, ℕ, suc, String, ◌<>◌, Bool, Option, none, some, [], arith, inl, inr, Option-cases,
}
use aws_controllers_k8s_acm.GoMap.{GoMap, lookup, insert, lookup-insert}
use aws_controllers_k8s_acm.Certificate.{ResourceManager}

-- What `ManagerFor` is called with, of what the manager's code reads.
pub record ManagerArgs : Type 0 where
  pub id : String
  pub region : String
  pub role_arn : String
  pub partition : String
  pub enable_cross_namespace : Bool

pub record ManagerRef : Type 0 where
  pub address : ℕ
  pub manager : ResourceManager

-- `resourceManagerFactory`, with the number of managers that were ever made.
pub record Factory : Type 0 where
  pub rm_cache : GoMap ManagerRef
  pub made : ℕ

unfoldable pub new_resource_manager : ManagerArgs → ResourceManager
new_resource_manager a = record {
  aws_account_id = a.id;
  aws_region = a.region;
  aws_partition = a.partition;
  enable_cross_namespace = a.enable_cross_namespace;
}

abbrev pub new_resource_manager_factory : Factory
new_resource_manager_factory = record { rm_cache = []; made = 0 }

-- `fmt.Sprintf("%s/%s/%s", id, region, roleARN)`
unfoldable pub rm_id : ManagerArgs → String
rm_id a = a.id <> ("/" <> (a.region <> ("/" <> a.role_arn)))

-- The part under the read lock.
unfoldable pub find_manager : ManagerArgs → Factory → Option ManagerRef
find_manager a f = lookup (rm_id a) f.rm_cache

-- The part under the write lock.
unfoldable pub make_manager : ManagerArgs → Factory → ManagerRef × Factory
make_manager a f =
    let ref =
      let m : ManagerRef = record { address = f.made; manager = new_resource_manager a } in m in
    (ref, record f { rm_cache = insert (rm_id a) ref f.rm_cache; made = suc f.made })

unfoldable pub manager_for : ManagerArgs → Factory → ManagerRef × Factory
manager_for a f = elim (find_manager a f) [ some ref ↦ (ref, f) | none ↦ make_manager a f ]

manager_for-hit :
    (a : ManagerArgs) (f : Factory) (ref : ManagerRef)
    → find_manager a f ≡ some ref
    → manager_for a f ≡ (ref, f)
unfolding manager_for
manager_for-hit a f ref h = rw (h, manager_for)

manager_for-miss :
    (a : ManagerArgs) (f : Factory) → find_manager a f ≡ none → manager_for a f ≡ make_manager a f
unfolding manager_for
manager_for-miss a f h = rw (h, manager_for)

pub find-make :
    (a b : ManagerArgs) (f : Factory)
    → rm_id b ≡ rm_id a
    → find_manager b (make_manager a f).1 ≡ some (make_manager a f).0
unfolding find_manager make_manager
find-make a b f same = rw (same, lookup-insert) (ground arith)

-- Without other callers in between, a second call for the same account, region and role returns
-- the first call's manager and makes none, whatever else it is called with; and a call leaves the
-- managers of every other key alone.
pub manager_for_twice :
    (a b : ManagerArgs) (f : Factory)
    → rm_id b ≡ rm_id a
    → (manager_for b (manager_for a f).1 ≡ manager_for a f)
      × ((k : String) → k ≢ rm_id a → lookup k (manager_for a f).1.rm_cache ≡ lookup k f.rm_cache)
manager_for_twice a b f same = elim (Option-cases (find_manager a f)) [
  | inl e ↦ rw (manager_for-miss a f e) (
    manager_for-hit b (make_manager a f).1 (make_manager a f).0 (find-make a b f same),
    λ k n. unfold make_manager in rw lookup-insert (ground arith),
  )
  | inr (ref, e) ↦
      rw (manager_for-hit a f ref e)
        (manager_for-hit b f ref (unfold find_manager in rw same e), λ k n. refl)
]
