-- ===== src/Go.antt =====
-- Go functions with effects: they may return an `error`, panic (a nil pointer dereference or a
-- failed type assertion), and act on the outside. What they have done outside is the list of
-- their calls, oldest first; what the outside answers is a function of that list.
pub mod Avoids
pub mod Safe
use aws_controllers_k8s_acm.Base.{
  ◌⊎◌, inl, inr, ◌≡◌, refl, Bool, true, false, Option, none, some, List, [], ◌∷◌, ◌++◌, arith,
}

-- What a function returns: `(a, nil)`, `(nil, e)`, or nothing because it panics.
pub data Outcome {ℓ} (E A : Type ℓ) : Type ℓ where
  ok : A → Outcome E A
  err : E → Outcome E A
  panic : Outcome E A

-- `C` are the calls, `E` the errors.
abbrev pub Go {ℓ} : Type ℓ → Type ℓ → Type ℓ → Type ℓ
Go C E A = List C → Outcome E A × List C

module _ {ℓ} {C E A : Type ℓ} where
  abbrev pub return : A → Go C E A
  return a t = (ok a, t)

  abbrev pub fail : E → Go C E A
  fail e t = (err e, t)

  abbrev pub crash : Go C E A
  crash t = (panic, t)

  -- A value that is already computed.
  abbrev pub lift : Outcome E A → Go C E A
  lift r t = (r, t)

  -- `*p`
  abbrev pub deref : Option A → Go C E A
  deref none t = (panic, t)
  deref (some a) t = (ok a, t)

  -- A call of the outside: it is recorded, and the answer may depend on all that came before.
  abbrev pub call : C → (List C → Outcome E A) → Go C E A
  call c answer t = (answer t, t ++ (c ∷ []))

module _ {ℓ} {C E A B : Type ℓ} where
  abbrev pub continue : (A → Go C E B) → Outcome E A × List C → Outcome E B × List C
  continue f (ok a, t) = f a t
  continue f (err e, t) = (err e, t)
  continue f (panic, t) = (panic, t)

  -- `a, err := m; if err != nil { return nil, err }; ...`
  infixl 5 ◌>>=◌ ◌>>◌
  abbrev pub ◌>>=◌ : Go C E A → (A → Go C E B) → Go C E B
  ◌>>=◌ m f t = continue f (m t)

  abbrev pub ◌>>◌ : Go C E A → Go C E B → Go C E B
  ◌>>◌ m n t = continue (λ _. n) (m t)

pub Outcome-cases {ℓ} :
    {E A : Type ℓ} (o : Outcome E A)
    → ((a : A) × (o ≡ ok a)) ⊎ ((o ≡ panic) ⊎ ((e : E) × (o ≡ err e)))
Outcome-cases (ok a) = inl (a, refl)
Outcome-cases (err e) = inr (inr (e, refl))
Outcome-cases panic = inr (inl refl)

-- `a, err := m` where the caller looks at `err` itself.
abbrev pub settle {ℓ} : {E A : Type ℓ} → Outcome E A → Outcome E (Outcome E A)
settle (ok a) = ok (ok a)
settle (err e) = ok (err e)
settle panic = panic

abbrev pub attempt {ℓ} : {C E A : Type ℓ} → Go C E A → Go C E (Outcome E A)
attempt m t = let (r, t') = m t in (settle r, t')

-- Inversion of a successful step.
pub continue-eq-ok {ℓ} :
    {C E A B : Type ℓ} (f : A → Go C E B) (p : Outcome E A × List C) {b : B} {t : List C}
    → continue f p ≡ (ok b, t)
    → (a : A) × (s : List C) × (p ≡ (ok a, s)) × (f a s ≡ (ok b, t))
continue-eq-ok f (ok a, s) h = (a, s, refl, h)
continue-eq-ok f (err e, s) h = absurd (ground arith)
continue-eq-ok f (panic, s) h = absurd (ground arith)

-- `if err != nil { return nil, f(err) }`
abbrev pub map_err {ℓ} : {E A : Type ℓ} → (E → E) → Outcome E A → Outcome E A
map_err f (ok a) = ok a
map_err f (err e) = err (f e)
map_err f panic = panic

abbrev pub on_err {ℓ} : {C E A : Type ℓ} → (E → E) → Go C E A → Go C E A
on_err f m t = let (r, t') = m t in (map_err f r, t')

-- Binding is associative.
pub continue_assoc {ℓ} :
    {C E A B D : Type ℓ} (f : A → Go C E B) (g : B → Go C E D) (q : Outcome E A × List C)
    → continue g (continue f q) ≡ continue (λ a. f a >>= g) q
continue_assoc f g (ok a, t) = refl
continue_assoc f g (err e, t) = refl
continue_assoc f g (panic, t) = refl

-- Inversion of `return`.
pub return-eq-ok {ℓ} :
    {C E A : Type ℓ} {a b : A} {s t : List C} → return {E = E} a s ≡ (ok b, t) → (a ≡ b) × (s ≡ t)
return-eq-ok h = ground arith

-- What `attempt` looks at is what the step returned.
pub attempt-eq-ok {ℓ} :
    {C E A : Type ℓ} (m : Go C E A) (t : List C) {a : Outcome E A} {s : List C}
    → attempt m t ≡ (ok a, s)
    → m t ≡ (a, s)
attempt-eq-ok m t h = ground arith

-- A step that succeeds with its errors mapped succeeds without.
pub on_err-eq-ok {ℓ} :
    {C E A : Type ℓ} (f : E → E) (m : Go C E A) (t : List C) {a : A} {s : List C}
    → on_err f m t ≡ (ok a, s)
    → m t ≡ (ok a, s)
on_err-eq-ok f m t h = ground arith
