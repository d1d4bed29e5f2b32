-- ===== src/Certificate/Factory/Callers/Progress.antt =====
-- How far concurrent calls of `ManagerFor` get (manager_factory.go).
use native.Mathlib.Decide.{ℕ_discrete, dec_lt}
use aws_controllers_k8s_acm.Base.{
  ◌≡◌, refl, ap, ◌∙◌, ℕ, zero, suc, ◌+◌, ◌*◌, ◌<◌, ◌≤◌, ◌⊎◌, inl, inr, Bool, Bool-cases, true,
  false, none, some, arith,
}
use aws_controllers_k8s_acm.Certificate.Factory.{
  ManagerArgs, ManagerRef, Factory, find_manager, make_manager,
}
use aws_controllers_k8s_acm.Certificate.Factory.Callers.{
  Pc, idle, reading, looked, missed, waiting, writing, stored, returned, holds, excludes, set_pc,
  System, Step, r_lock, read, r_unlock, ask, lock, make, unlock, Reach, here, next,
}

-- The most steps that a call may still make.
abbrev weight : Pc → ℕ
weight idle = 7
weight reading = 6
weight (looked found) = 5
weight missed = 4
weight waiting = 3
weight writing = 2
weight (stored ref) = 1
weight (returned ref) = 0

abbrev total : (ℕ → Pc) → ℕ → ℕ
total pc zero = 0
total pc (suc n) = total pc n + weight (pc n)

total-beyond : (pc : ℕ → Pc) (i : ℕ) (p : Pc) (n : ℕ) → n ≤ i → total (set_pc pc i p) n ≡ total pc n
total-beyond pc i p zero h = refl
total-beyond pc i p (suc n) h = ground (arith, total-beyond pc i p n)

total-set :
    (pc : ℕ → Pc) (i : ℕ) (p : Pc) (n : ℕ)
    → i < n
    → total (set_pc pc i p) n + weight (pc i) ≡ total pc n + weight p
total-set pc i p zero h = absurd (omega arith)
total-set pc i p (suc n) h = elim (ℕ_discrete i n) [
  | yes e ↦ ground (arith, total-beyond pc i p n, ap (λ k. weight (pc k)) e)
  | no e ↦ ground (arith, total-set pc i p n)
]

total-start : (n : ℕ) → total (λ _. idle) n ≡ 7 * n
total-start zero = refl
total-start (suc n) = omega (arith, total-start n)

total-drop :
    (pc : ℕ → Pc) (i : ℕ) (p q : Pc) (n : ℕ)
    → i < n
    → pc i ≡ q
    → weight p < weight q
    → suc (total (set_pc pc i p) n) ≤ total pc n
total-drop pc i p q n l e h = omega (arith, total-set pc i p n l, ap weight e)

module _ (n : ℕ) (calls : ℕ → ManagerArgs) where
  Step-total : {s u : System} → Step n calls s u → suc (total u.pc n) ≤ total s.pc n
  Step-total {s} (r_lock i l e free) = total-drop s.pc i reading idle n l e (omega arith)
  Step-total {s} (read i l e) =
      total-drop s.pc i (looked (find_manager (calls i) s.factory)) reading n l e (omega arith)
  Step-total {s} (r_unlock i none l e) = total-drop s.pc i missed (looked none) n l e (omega arith)
  Step-total {s} (r_unlock i (some ref) l e) =
      total-drop s.pc i (returned ref) (looked (some ref)) n l e (omega arith)
  Step-total {s} (ask i l e free) = total-drop s.pc i waiting missed n l e (omega arith)
  Step-total {s} (lock i l e free) = total-drop s.pc i writing waiting n l e (omega arith)
  Step-total {s} (make i l e) =
      total-drop s.pc i (stored (make_manager (calls i) s.factory).0) writing n l e (omega arith)
  Step-total {s} (unlock i ref l e) =
      total-drop s.pc i (returned ref) (stored ref) n l e (omega arith)

  module _ {f : Factory} where
    Reach-total : {k : ℕ} {s : System} → Reach n calls f k s → k + total s.pc n ≤ 7 * n
    Reach-total here = omega (arith, total-start n)
    Reach-total (next r st) = omega (arith, Reach-total r, Step-total st)

    -- Who does not take part stays at the start.
    outside : {k : ℕ} {s : System} → Reach n calls f k s → (j : ℕ) → n ≤ j → s.pc j ≡ idle
    outside here j h = refl
    outside (next r (r_lock i l e free)) j h = ground (arith, outside r j)
    outside (next r (read i l e)) j h = ground (arith, outside r j)
    outside (next r (r_unlock i found l e)) j h = ground (arith, outside r j)
    outside (next r (ask i l e free)) j h = ground (arith, outside r j)
    outside (next r (lock i l e free)) j h = ground (arith, outside r j)
    outside (next r (make i l e)) j h = ground (arith, outside r j)
    outside (next r (unlock i ref l e)) j h = ground (arith, outside r j)

  -- A call that holds a lock can always make its next step.
  holder_moves :
      (s : System) (i : ℕ) (p : Pc)
      → i < n
      → s.pc i ≡ p
      → holds p ≡ true
      → (u : System) × Step n calls s u
  holder_moves s i reading l e h = (_, read i l e)
  holder_moves s i (looked found) l e h = (_, r_unlock i found l e)
  holder_moves s i writing l e h = (_, make i l e)
  holder_moves s i (stored ref) l e h = (_, unlock i ref l e)
  holder_moves s i idle l e h = absurd (ground arith)
  holder_moves s i missed l e h = absurd (ground arith)
  holder_moves s i waiting l e h = absurd (ground arith)
  holder_moves s i (returned ref) l e h = absurd (ground arith)

  -- Without holders and calls that wait for none, any call that has not returned can make its next
  -- step.
  unlocked_moves :
      (s : System) (i : ℕ) (p : Pc)
      → i < n
      → s.pc i ≡ p
      → ((j : ℕ) → excludes (s.pc j) ≡ false)
      → ((u : System) × Step n calls s u) ⊎ ((ref : ManagerRef) × (s.pc i ≡ returned ref))
  unlocked_moves s i idle l e free = inl (_, r_lock i l e free)
  unlocked_moves s i missed l e free = inl (_, ask i l e free)
  unlocked_moves s i (returned ref) l e free = inr (ref, e)
  unlocked_moves s i reading l e free = inl (_, read i l e)
  unlocked_moves s i (looked found) l e free = inl (_, r_unlock i found l e)
  unlocked_moves s i waiting l e free = absurd (ground (arith, free i))
  unlocked_moves s i writing l e free = inl (_, make i l e)
  unlocked_moves s i (stored ref) l e free = inl (_, unlock i ref l e)

  -- The first `k` calls fail a test, or one of them passes it.
  find_call :
      (test : Pc → Bool) (pc : ℕ → Pc) (k : ℕ)
      → ((j : ℕ) × (j < k) × (test (pc j) ≡ true)) ⊎ ((j : ℕ) → j < k → test (pc j) ≡ false)
  find_call test pc zero = inr (λ j h. absurd (omega arith))
  find_call test pc (suc k) = elim (Bool-cases (test (pc k))) [
    | inl e ↦ inl (k, omega arith, e)
    | inr e ↦ elim (find_call test pc k) [
      | inl (j, l, h) ↦ inl (j, omega arith, h)
      | inr free ↦ inr (λ j l. elim (ℕ_discrete j k) [
        | yes q ↦ ap (λ i. test (pc i)) q ∙ e
        | no q ↦ free j (omega arith)
      ])
    ]
  ]

  everywhere :
      {f : Factory} {k : ℕ} {s : System} (test : Pc → Bool)
      → test idle ≡ false
      → Reach n calls f k s
      → ((j : ℕ) → j < n → test (s.pc j) ≡ false)
      → (j : ℕ) → test (s.pc j) ≡ false
  everywhere test z r free j = elim (dec_lt j n) [
    | yes m ↦ free j m
    | no m ↦ ap test (outside r j (omega arith)) ∙ z
  ]

  -- A call that excludes others holds the lock, or waits only for those that hold it.
  excluder_moves :
      (s : System) (i : ℕ) (p : Pc)
      → i < n
      → s.pc i ≡ p
      → ((j : ℕ) → holds (s.pc j) ≡ false)
      → excludes p ≡ true
      → (u : System) × Step n calls s u
  excluder_moves s i waiting l e free h = (_, lock i l e free)
  excluder_moves s i writing l e free h = (_, make i l e)
  excluder_moves s i (stored ref) l e free h = (_, unlock i ref l e)
  excluder_moves s i idle l e free h = absurd (ground arith)
  excluder_moves s i reading l e free h = absurd (ground arith)
  excluder_moves s i (looked found) l e free h = absurd (ground arith)
  excluder_moves s i missed l e free h = absurd (ground arith)
  excluder_moves s i (returned ref) l e free h = absurd (ground arith)

  no_deadlock :
      {f : Factory} {k : ℕ} {s : System} (i : ℕ)
      → Reach n calls f k s
      → i < n
      → ((u : System) × Step n calls s u) ⊎ ((ref : ManagerRef) × (s.pc i ≡ returned ref))
  no_deadlock {s = s} i r l = elim (find_call holds s.pc n) [
    | inl (j, m, h) ↦ inl (holder_moves s j (s.pc j) m refl h)
    | inr free ↦ elim (find_call excludes s.pc n) [
      | inl (j, m, h) ↦ inl (excluder_moves s j (s.pc j) m refl (everywhere holds refl r free) h)
      | inr quiet ↦ unlocked_moves s i (s.pc i) l refl (everywhere excludes refl r quiet)
    ]
  ]

  -- Calls of `ManagerFor` end: in no order do `n` calls make more than `7 * n` steps, and as long as
  -- one of them has not returned a manager, some call can make a step.
  pub calls_end :
      {f : Factory} {k : ℕ} {s : System} (i : ℕ)
      → Reach n calls f k s
      → i < n
      → (k ≤ 7 * n)
        × (((u : System) × Step n calls s u) ⊎ ((ref : ManagerRef) × (s.pc i ≡ returned ref)))
  calls_end i r l = (omega (arith, Reach-total r), no_deadlock i r l)
