-- ===== src/Certificate/Factory/Callers/Race.antt =====
-- Two calls of `ManagerFor` with one key may each make a manager: nothing is looked up again between
-- `RUnlock` and `Lock`.
use mathlib.Core.Path.{subst}
use native.Mathlib.Decide.{ℕ_discrete}
use aws_controllers_k8s_acm.Base.{
  ◌≡◌, ◌≢◌, refl, sym, ap, ◌∙◌, ℕ, suc, ◌<◌, Bool, ◌||◌, false, none, some, arith,
}
use aws_controllers_k8s_acm.Certificate.Factory.{
  ManagerArgs, ManagerRef, Factory, find_manager, make_manager, rm_id, find-make,
}
use aws_controllers_k8s_acm.Certificate.Factory.Callers.{
  Pc, idle, reading, looked, missed, waiting, writing, stored, returned, holds, excludes, set_pc,
  System, start, moved, r_lock, read, r_unlock, ask, lock, make, unlock, Reach, here, next,
}

-- In a call of the lock or behind it.
abbrev busy : Pc → Bool
busy p = holds p || excludes p

idle-holds : (p : Pc) → busy p ≡ false → holds p ≡ false
idle-holds p h = ground arith

idle-excludes : (p : Pc) → busy p ≡ false → excludes p ≡ false
idle-excludes p h = ground arith

module _ (n : ℕ) (calls : ℕ → ManagerArgs) (f : Factory) where
  -- The other calls stand where they stood.
  abbrev Others : ℕ → System → System → Type 0
  Others i s u = (j : ℕ) → i ≢ j → u.pc j ≡ s.pc j

  look :
      {k : ℕ} {s : System} (i : ℕ)
      → i < n
      → Reach n calls f k s
      → s.pc i ≡ idle
      → ((j : ℕ) → busy (s.pc j) ≡ false)
      → find_manager (calls i) s.factory ≡ none
      → (u : System) × Reach n calls f (suc (suc (suc k))) u
        × (u.factory ≡ s.factory)
        × (u.pc i ≡ missed)
        × Others i s u
  look {k} {s} i l r e free none_there =
      let a = moved s i reading in
      let b = moved a i (looked (find_manager (calls i) s.factory)) in
      (
        moved b i missed,
        next
            (next (next r (r_lock i l e (λ j. idle-excludes (s.pc j) (free j))))
              (read i l (ground arith)))
            (r_unlock i none l (ground arith)),
        refl,
        ground arith,
        λ j d. ground arith,
      )

  fill :
      {k : ℕ} {s : System} (i : ℕ)
      → i < n
      → Reach n calls f k s
      → s.pc i ≡ missed
      → ((j : ℕ) → busy (s.pc j) ≡ false)
      → (u : System) × Reach n calls f (suc (suc (suc (suc k)))) u
        × (u.factory ≡ (make_manager (calls i) s.factory).1)
        × (u.pc i ≡ returned (make_manager (calls i) s.factory).0)
        × Others i s u
  fill {k} {s} i l r e free =
      let ref = (make_manager (calls i) s.factory).0 in
      let w = moved s i waiting in
      let a = moved w i writing in
      let asked = next r (ask i l e (λ j. idle-excludes (s.pc j) (free j))) in
      let b : System = record {
        factory = (make_manager (calls i) s.factory).1;
        pc = set_pc a.pc i (stored ref);
      } in
      (
        moved b i (returned ref),
        next
            (next
              (next asked
                (lock i l (ground arith) (λ j. ground (arith, idle-holds (s.pc j) (free j)))))
              (make i l (ground arith)))
            (unlock i ref l (ground arith)),
        refl,
        ground arith,
        λ j d. ground arith,
      )

  made_address : (a : ManagerArgs) (g : Factory) → (make_manager a g).0.address ≡ g.made
  unfolding make_manager
  made_address a g = refl

  made_count : (a : ManagerArgs) (g : Factory) → (make_manager a g).1.made ≡ suc g.made
  unfolding make_manager
  made_count a g = refl

  same_miss :
      (i j : ℕ)
      → rm_id (calls j) ≡ rm_id (calls i)
      → find_manager (calls i) f ≡ none
      → find_manager (calls j) f ≡ none
  unfolding find_manager
  same_miss i j same h = rw same h

  quiet :
      (s u : System) (i : ℕ) (p : Pc)
      → u.pc i ≡ p
      → Others i s u
      → busy p ≡ false
      → ((q : ℕ) → busy (s.pc q) ≡ false)
      → (q : ℕ) → busy (u.pc q) ≡ false
  quiet s u i p e o h free q = elim (ℕ_discrete i q) [
    | yes w ↦ subst (λ q. busy (u.pc q) ≡ false) w (ap busy e ∙ h)
    | no w ↦ ap busy (o q w) ∙ free q
  ]

  -- If the cache has no manager for the key of two calls, they may both return, with two different
  -- managers, and the cache keeps the second only.
  pub two_managers :
      (i j : ℕ)
      → i < n
      → j < n
      → i ≢ j
      → rm_id (calls j) ≡ rm_id (calls i)
      → find_manager (calls i) f ≡ none
      → (k : ℕ) × (u : System) × (first second : ManagerRef) × Reach n calls f k u
        × (u.pc i ≡ returned first)
        × (u.pc j ≡ returned second)
        × (first.address ≢ second.address)
        × (find_manager (calls j) u.factory ≡ some second)
  two_managers i j l m d same none_there =
      let (a, ra, fa, ia, oa) = look i l here refl (λ q. refl) none_there in
      let still = quiet (start f) a i missed ia oa refl (λ q. refl) in
      let (b, rb, fb, jb, ob) =
        look j m ra (oa j d) still (rw fa (same_miss i j same none_there)) in
      let calm = quiet a b j missed jb ob refl still in
      let (c, rc, fc, ic, oc) = fill i l rb (ob i (λ e. d (sym e)) ∙ ia) calm in
      let first = (make_manager (calls i) b.factory).0 in
      let (u, ru, fu, ju, ou) =
        fill j m rc (oc j d ∙ jb) (quiet b c i (returned first) ic oc refl calm) in
      let second = (make_manager (calls j) c.factory).0 in
      (
        _,
        u,
        first,
        second,
        ru,
        ou i (λ e. d (sym e)) ∙ ic,
        ju,
        ground (
          arith,
          made_address (calls i) b.factory,
          made_address (calls j) c.factory,
          made_count (calls i) b.factory,
          ap (λ g. g.made) fc,
        ),
        rw fu (find-make (calls j) (calls j) c.factory refl),
      )
