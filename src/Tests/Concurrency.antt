-- ===== src/Tests/Concurrency.antt =====
-- The theorems on concurrent callers of `ManagerFor`, for two callers.
use native.Mathlib.Decide.{ℕ_discrete}
use aws_controllers_k8s_acm.Base.{◌≡◌, ◌≢◌, refl, ℕ, ◌≤◌, ◌⊎◌, true, none, some, arith, is_some}
use aws_controllers_k8s_acm.GoMap.{lookup}
use aws_controllers_k8s_acm.Certificate.Factory.{
  ManagerArgs, ManagerRef, Factory, new_resource_manager_factory, find_manager, make_manager,
}
use aws_controllers_k8s_acm.Certificate.Factory.Keys.{IsPlainPart}
use aws_controllers_k8s_acm.Certificate.Factory.Callers.{
  reading, looked, missed, waiting, writing, stored, returned, System, start, moved, set_pc, Step,
  r_lock, read, r_unlock, ask, lock, make, unlock, Reach, here, next,
}
use aws_controllers_k8s_acm.Certificate.Factory.Callers.Safety.{returned_manager}
use aws_controllers_k8s_acm.Certificate.Factory.Callers.Race.{two_managers}
use aws_controllers_k8s_acm.Certificate.Factory.Callers.Progress.{calls_end}
use aws_controllers_k8s_acm.Tests.Methods.{ireland}

abbrev both : ℕ → ManagerArgs
both j = ireland

abbrev empty : Factory
empty = new_resource_manager_factory

abbrev ours : ManagerRef
ours = (make_manager ireland empty).0

abbrev s1 : System
s1 = moved (start empty) 0 reading

abbrev s2 : System
s2 = moved s1 0 (looked (find_manager ireland empty))

abbrev s3 : System
s3 = moved s2 0 missed

abbrev s4 : System
s4 = moved (moved s3 0 waiting) 0 writing

abbrev s5 : System
s5 = record { factory = (make_manager ireland empty).1; pc = set_pc s4.pc 0 (stored ours) }

abbrev s6 : System
s6 = moved s5 0 (returned ours)

-- The first of two callers runs to its end.
run : Reach 2 both empty 7 s6
unfolding find_manager lookup ℕ_discrete
run =
    let r1 : Reach 2 both empty 1 s1 = next here (r_lock 0 (omega arith) refl (λ j. refl)) in
    let r2 : Reach 2 both empty 2 s2 = next r1 (read 0 (omega arith) refl) in
    let r3 : Reach 2 both empty 3 s3 = next r2 (r_unlock 0 none (omega arith) refl) in
    let asked : Reach 2 both empty 4 (moved s3 0 waiting) =
      next r3 (ask 0 (omega arith) refl (λ j. ground arith)) in
    let r4 : Reach 2 both empty 5 s4 = next asked (lock 0 (omega arith) refl (λ j. ground arith)) in
    let r5 : Reach 2 both empty 6 s5 = next r4 (make 0 (omega arith) refl) in
    next r5 (unlock 0 ours (omega arith) refl)

plain_parts : (j : ℕ) → IsPlainPart (both j).id × IsPlainPart (both j).region
plain_parts j = (ground arith, ground arith)

returned_manager_example :
    (ours.manager.aws_account_id ≡ "123456789012")
    × (ours.manager.aws_region ≡ "eu-west-1")
    × (is_some (find_manager ireland s6.factory) ≡ true)
returned_manager_example =
    returned_manager 2 both 0 ours plain_parts run (unfold ℕ_discrete in refl)

two_managers_example :
    (k : ℕ) × (u : System) × (first second : ManagerRef) × Reach 2 both empty k u
    × (u.pc 0 ≡ returned first)
    × (u.pc 1 ≡ returned second)
    × (first.address ≢ second.address)
    × (find_manager ireland u.factory ≡ some second)
unfolding find_manager lookup
two_managers_example =
    two_managers 2 both empty 0 1 (omega arith) (omega arith) (omega arith) refl refl

calls_end_example :
    (7 ≤ 14) × (((u : System) × Step 2 both s6 u) ⊎ ((ref : ManagerRef) × (s6.pc 1 ≡ returned ref)))
calls_end_example = calls_end 2 both 1 run (omega arith)
