-- ===== src/Certificate/Factory/Callers.antt =====
-- Concurrent callers of `ManagerFor` (manager_factory.go): `n` goroutines, each between two of the
-- statements of the method, interleaved in any order. `sync.RWMutex` enters by what it documents:
-- `Lock` waits for the writers before it and then excludes new readers while it waits for those that
-- hold the lock; `RLock` waits for a writer and for a waiting `Lock`.
pub mod Safety
pub mod Race
pub mod Progress
use mathlib.Core.Logic.{ite}
use native.Mathlib.Decide.{ℕ_discrete}
use aws_controllers_k8s_acm.Base.{◌≡◌, ℕ, suc, ◌<◌, Bool, true, false, Option, none, some}
use aws_controllers_k8s_acm.Certificate.Factory.{
  ManagerArgs, ManagerRef, Factory, find_manager, make_manager,
}

-- Where a goroutine stands. `reading` and `looked` hold the read lock, `writing` and `stored` the
-- write lock, and `waiting` is in `Lock`, with no writer before it; `looked` has what the cache held.
pub data Pc : Type 0 where
  idle reading : Pc
  looked : Option ManagerRef → Pc
  missed waiting writing : Pc
  stored returned : ManagerRef → Pc

abbrev pub writes : Pc → Bool
writes writing = true
writes (stored ref) = true
writes _ = false

abbrev pub holds : Pc → Bool
holds reading = true
holds (looked o) = true
holds writing = true
holds (stored ref) = true
holds _ = false

-- Whether new readers and writers are kept out.
abbrev pub excludes : Pc → Bool
excludes waiting = true
excludes writing = true
excludes (stored ref) = true
excludes _ = false

-- `if found { return rm, nil }`
abbrev pub after_read : Option ManagerRef → Pc
after_read none = missed
after_read (some ref) = returned ref

abbrev pub set_pc : (ℕ → Pc) → ℕ → Pc → ℕ → Pc
set_pc pc i p j = ite (ℕ_discrete i j) p (pc j)

pub record System : Type 0 where
  pub factory : Factory
  pub pc : ℕ → Pc

abbrev pub start : Factory → System
start f = record { factory = f; pc = λ _. idle }

abbrev pub moved : System → ℕ → Pc → System
moved s i p = record s { pc = set_pc s.pc i p }

-- `calls i` is what goroutine `i` calls `ManagerFor` with.
module _ (n : ℕ) (calls : ℕ → ManagerArgs) where
  pub data Step (s : System) : System → Type 0 where
    r_lock :
        (i : ℕ)
        → i < n
        → s.pc i ≡ idle
        → ((j : ℕ) → excludes (s.pc j) ≡ false)
        → Step s (moved s i reading)
    read :
        (i : ℕ)
        → i < n
        → s.pc i ≡ reading
        → Step s (moved s i (looked (find_manager (calls i) s.factory)))
    r_unlock :
        (i : ℕ) (found : Option ManagerRef)
        → i < n
        → s.pc i ≡ looked found
        → Step s (moved s i (after_read found))
    ask :
        (i : ℕ)
        → i < n
        → s.pc i ≡ missed
        → ((j : ℕ) → excludes (s.pc j) ≡ false)
        → Step s (moved s i waiting)
    lock :
        (i : ℕ)
        → i < n
        → s.pc i ≡ waiting
        → ((j : ℕ) → holds (s.pc j) ≡ false)
        → Step s (moved s i writing)
    make :
        (i : ℕ)
        → i < n
        → s.pc i ≡ writing
        → Step s (record {
          factory = (make_manager (calls i) s.factory).1;
          pc = set_pc s.pc i (stored (make_manager (calls i) s.factory).0);
        })
    unlock :
        (i : ℕ) (ref : ManagerRef) → i < n → s.pc i ≡ stored ref → Step s (moved s i (returned ref))

  -- `Reach f k s`: from the factory `f`, `k` steps lead to `s`.
  pub data Reach (f : Factory) : ℕ → System → Type 0 where
    here : Reach f 0 (start f)
    next : {k : ℕ} {s u : System} → Reach f k s → Step s u → Reach f (suc k) u
