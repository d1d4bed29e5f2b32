-- ===== src/Certificate/Factory/Callers/Safety.antt =====
-- What holds in every reachable state: the locks exclude each other, and each manager that a call
-- has is one that was made for a call with the same key, and the cache has that key.
use mathlib.Core.Path.{subst}
use native.Mathlib.Decide.{ℕ_discrete}
use aws_controllers_k8s_acm.Base.{
  ◌≡◌, ◌≢◌, refl, sym, ap, ◌∙◌, ℕ, String, true, false, Option, none, some, is_some, arith, ◌==◌,
  string_dec, if◌then◌else◌,
}
use aws_controllers_k8s_acm.GoMap.{lookup, lookup-insert}
use aws_controllers_k8s_acm.Certificate.Factory.{
  ManagerArgs, ManagerRef, Factory, find_manager, make_manager, rm_id, new_resource_manager,
  new_resource_manager_factory,
}
use aws_controllers_k8s_acm.Certificate.Factory.Callers.{
  Pc, reading, looked, missed, waiting, writing, stored, returned, writes, holds, set_pc, System,
  start, moved, Step, r_lock, read, r_unlock, ask, lock, make, unlock, Reach, here, next,
}
use aws_controllers_k8s_acm.Certificate.Factory.Keys.{IsPlainPart, rm_id-inj}

-- The manager that a call has in hand.
abbrev ref_of : Pc → Option ManagerRef
ref_of (looked found) = found
ref_of (stored ref) = some ref
ref_of (returned ref) = some ref
ref_of _ = none

module _ (n : ℕ) (calls : ℕ → ManagerArgs) where
  -- The manager was made for a call with the key.
  abbrev Origin : String → ManagerRef → Type 0
  Origin k ref = (j : ℕ) × (rm_id (calls j) ≡ k) × (ref.manager ≡ new_resource_manager (calls j))

  abbrev Cached : Factory → Type 0
  Cached f = (k : String) (ref : ManagerRef) → lookup k f.rm_cache ≡ some ref → Origin k ref

  abbrev HasGood : Factory → ℕ → ManagerRef → Type 0
  HasGood f i ref =
      Origin (rm_id (calls i)) ref × (is_some (lookup (rm_id (calls i)) f.rm_cache) ≡ true)

  record Inv (s : System) : Type 0 where
    cached : Cached s.factory
    held : (i : ℕ) (ref : ManagerRef) → ref_of (s.pc i) ≡ some ref → HasGood s.factory i ref
    exclusive : (i j : ℕ) → writes (s.pc i) ≡ true → holds (s.pc j) ≡ true → i ≡ j

  held_moved :
      (f : Factory) (pc : ℕ → Pc) (i : ℕ) (p : Pc)
      → ((j : ℕ) (ref : ManagerRef) → ref_of (pc j) ≡ some ref → HasGood f j ref)
      → ((ref : ManagerRef) → ref_of p ≡ some ref → HasGood f i ref)
      → (j : ℕ) (ref : ManagerRef) → ref_of (set_pc pc i p j) ≡ some ref
      → HasGood f j ref
  held_moved f pc i p old new j ref h = elim (ℕ_discrete i j) [
    | yes e ↦ subst (λ j. HasGood f j ref) e (new ref (ground arith))
    | no e ↦ old j ref (ground arith)
  ]

  exclusive_moved :
      (pc : ℕ → Pc) (i : ℕ) (p : Pc)
      → ((k j : ℕ) → writes (pc k) ≡ true → holds (pc j) ≡ true → k ≡ j)
      → (writes p ≡ true → (j : ℕ) → i ≢ j → holds (pc j) ≡ false)
      → (holds p ≡ true → (j : ℕ) → i ≢ j → writes (pc j) ≡ false)
      → (k j : ℕ) → writes (set_pc pc i p k) ≡ true
      → holds (set_pc pc i p j) ≡ true
      → k ≡ j
  exclusive_moved pc i p old w h k j a b = ground (arith, old k j, w _ j, h _ k)

  -- Nobody else holds a lock beside the writer, and nobody else writes beside a holder.
  alone :
      (pc : ℕ → Pc) (i : ℕ)
      → ((k j : ℕ) → writes (pc k) ≡ true → holds (pc j) ≡ true → k ≡ j)
      → (j : ℕ) → i ≢ j
      → (writes (pc i) ≡ true → holds (pc j) ≡ false)
        × (holds (pc i) ≡ true → writes (pc j) ≡ false)
  alone pc i old j e = ground (arith, old i j, old j i)

  moved-Inv :
      (s : System) (i : ℕ) (p : Pc)
      → Inv s
      → ((ref : ManagerRef) → ref_of p ≡ some ref → HasGood s.factory i ref)
      → (writes p ≡ true → (j : ℕ) → i ≢ j → holds (s.pc j) ≡ false)
      → (holds p ≡ true → (j : ℕ) → i ≢ j → writes (s.pc j) ≡ false)
      → Inv (moved s i p)
  moved-Inv s i p v new w h = record {
    cached = v.cached;
    held = held_moved s.factory s.pc i p v.held new;
    exclusive = exclusive_moved s.pc i p v.exclusive w h;
  }

  found_good :
      (s : System) (i : ℕ) (ref : ManagerRef)
      → Cached s.factory
      → find_manager (calls i) s.factory ≡ some ref
      → HasGood s.factory i ref
  unfolding find_manager
  found_good s i ref c h = (c (rm_id (calls i)) ref h, ground arith)

  grown :
      (f : Factory) (i : ℕ) (k : String)
      → lookup k (make_manager (calls i) f).1.rm_cache
        ≡ (if k == rm_id (calls i) then some (make_manager (calls i) f).0 else lookup k f.rm_cache)
  unfolding make_manager
  grown f i k = lookup-insert k (rm_id (calls i)) (make_manager (calls i) f).0 f.rm_cache

  made_here :
      (f : Factory) (i : ℕ) → (make_manager (calls i) f).0.manager ≡ new_resource_manager (calls i)
  unfolding make_manager
  made_here f i = refl

  grown-Cached : (f : Factory) (i : ℕ) → Cached f → Cached (make_manager (calls i) f).1
  grown-Cached f i c k ref h = elim (string_dec k (rm_id (calls i))) [
    | yes e ↦ (i, sym e, ground (arith, made_here f i, grown f i k))
    | no e ↦ c k ref (ground (arith, grown f i k))
  ]

  grown-HasGood :
      (f : Factory) (i j : ℕ) (ref : ManagerRef)
      → HasGood f j ref
      → HasGood (make_manager (calls i) f).1 j ref
  grown-HasGood f i j ref (origin, there) = (origin, ground (arith, grown f i (rm_id (calls j))))

  made-HasGood :
      (f : Factory) (i : ℕ) (ref : ManagerRef)
      → some (make_manager (calls i) f).0 ≡ some ref
      → HasGood (make_manager (calls i) f).1 i ref
  made-HasGood f i ref h =
      ((i, refl, ground (arith, made_here f i)), ground (arith, grown f i (rm_id (calls i))))

  made-Inv :
      (s : System) (i : ℕ)
      → Inv s
      → writes (s.pc i) ≡ true
      → Inv (record {
        factory = (make_manager (calls i) s.factory).1;
        pc = set_pc s.pc i (stored (make_manager (calls i) s.factory).0);
      })
  made-Inv s i v w =
      let f = (make_manager (calls i) s.factory).1 in
      let p = stored (make_manager (calls i) s.factory).0 in
      record {
        cached = grown-Cached s.factory i v.cached;
        held =
            held_moved f s.pc i p (λ j ref q. grown-HasGood s.factory i j ref (v.held j ref q))
              (made-HasGood s.factory i);
        exclusive =
            exclusive_moved s.pc i p v.exclusive (λ q j d. (alone s.pc i v.exclusive j d).0 w)
              (λ q j d. (alone s.pc i v.exclusive j d).1 (ground arith));
      }

  Step-Inv : {s u : System} → Step n calls s u → Inv s → Inv u
  Step-Inv {s} (r_lock i l e free) v =
      moved-Inv s i reading v (λ ref q. ground arith) (λ q. ground arith)
        (λ q j d. ground (arith, free j))
  Step-Inv {s} (read i l e) v =
      moved-Inv s i (looked (find_manager (calls i) s.factory)) v
        (λ ref. found_good s i ref v.cached) (λ q. ground arith)
        (λ q j d. (alone s.pc i v.exclusive j d).1 (ground arith))
  Step-Inv {s} (r_unlock i none l e) v =
      moved-Inv s i missed v (λ ref q. ground arith) (λ q. ground arith) (λ q. ground arith)
  Step-Inv {s} (r_unlock i (some found) l e) v =
      moved-Inv s i (returned found) v (λ ref q. v.held i ref (ground arith)) (λ q. ground arith)
        (λ q. ground arith)
  Step-Inv {s} (ask i l e free) v =
      moved-Inv s i waiting v (λ ref q. ground arith) (λ q. ground arith) (λ q. ground arith)
  Step-Inv {s} (lock i l e free) v =
      moved-Inv s i writing v (λ ref q. ground arith) (λ q j d. free j)
        (λ q j d. ground (arith, free j))
  Step-Inv {s} (make i l e) v = made-Inv s i v (ground arith)
  Step-Inv {s} (unlock i ref l e) v =
      moved-Inv s i (returned ref) v (λ r q. v.held i r (ground arith)) (λ q. ground arith)
        (λ q. ground arith)

  start-Inv : Inv (start new_resource_manager_factory)
  unfolding lookup
  start-Inv = record {
    cached = λ k ref h. absurd (ground arith);
    held = λ i ref h. absurd (ground arith);
    exclusive = λ i j w h. absurd (ground arith);
  }

  Reach-Inv : {k : ℕ} {s : System} → Reach n calls new_resource_manager_factory k s → Inv s
  Reach-Inv here = start-Inv
  Reach-Inv (next r st) = Step-Inv st (Reach-Inv r)

  -- In every state that calls of `ManagerFor` reach from the empty cache, a call that has returned
  -- has a manager for its own account and region, if no account or region has a slash in it; and
  -- the cache has its key, so that a later call finds a manager there.
  pub returned_manager :
      {k : ℕ} {s : System} (i : ℕ) (ref : ManagerRef)
      → ((j : ℕ) → IsPlainPart (calls j).id × IsPlainPart (calls j).region)
      → Reach n calls new_resource_manager_factory k s
      → s.pc i ≡ returned ref
      → (ref.manager.aws_account_id ≡ (calls i).id)
        × (ref.manager.aws_region ≡ (calls i).region)
        × (is_some (find_manager (calls i) s.factory) ≡ true)
  unfolding find_manager new_resource_manager
  returned_manager {s} i ref plain r e =
      let ((j, key, made), there) = (Reach-Inv r).held i ref (ground arith) in
      let (ids, regions, roles) =
        rm_id-inj (calls j) (calls i) (plain j).0 (plain i).0 (plain j).1 (plain i).1 key in
      (ap (λ m. m.aws_account_id) made ∙ ids, ap (λ m. m.aws_region) made ∙ regions, there)

  -- A call that writes the cache is alone: no other call holds a lock of the factory.
  pub writer_is_alone :
      {k : ℕ} {s : System} (i j : ℕ)
      → Reach n calls new_resource_manager_factory k s
      → writes (s.pc i) ≡ true
      → holds (s.pc j) ≡ true
      → i ≡ j
  writer_is_alone i j r w h = (Reach-Inv r).exclusive i j w h
