-- ===== src/Go/Safe.antt =====
-- Functions that do not panic.
use aws_controllers_k8s_acm.Base.{◌≡◌, ◌≢◌, refl, ap, List, Option, none, some, arith}
use aws_controllers_k8s_acm.Go.{
  Outcome, ok, err, panic, Go, continue, on_err, map_err, ◌>>=◌, deref,
}

map_err-ne {ℓ} : {E A : Type ℓ} (f : E → E) (o : Outcome E A) → o ≢ panic → map_err f o ≢ panic
map_err-ne f (ok a) h e = ground arith
map_err-ne f (err v) h e = ground arith
map_err-ne f panic h e = h refl

module _ {ℓ} {C E A : Type ℓ} where
  abbrev pub Safe : Go C E A → Type ℓ
  Safe m = (t : List C) → (m t).0 ≢ panic

  pub on_err-Safe : (f : E → E) (m : Go C E A) → Safe m → Safe (on_err f m)
  on_err-Safe f m h t = map_err-ne f (m t).0 (h t)

  pub deref-Safe : (o : Option A) → o ≢ none → Safe (deref {C = C} {E = E} o)
  deref-Safe none h t = absurd (h refl)
  deref-Safe (some a) h t = λ p. ground arith

  pub deref-eq-ok :
      (o : Option A) (t : List C) {a : A} {s : List C} → deref {E = E} o t ≡ (ok a, s) → o ≡ some a
  deref-eq-ok none t h = absurd (ground arith)
  deref-eq-ok (some a) t h = ground arith

module _ {ℓ} {C E A B : Type ℓ} where
  continue-ne :
      (f : A → Go C E B) (q : Outcome E A × List C)
      → q.0 ≢ panic
      → ((a : A) → Safe (f a))
      → (continue f q).0 ≢ panic
  continue-ne f (ok a, t) h g = g a t
  continue-ne f (err e, t) h g = λ p. ground arith
  continue-ne f (panic, t) h g = λ p. h refl

  pub bind-Safe :
      (m : Go C E A) (f : A → Go C E B) → Safe m → ((a : A) → Safe (f a)) → Safe (m >>= f)
  bind-Safe m f h g t = continue-ne f (m t) (h t) g

  -- The same, with what is known of the first step's result.
  pub bind_ok-Safe :
      (m : Go C E A) (f : A → Go C E B)
      → Safe m
      → ((a : A) (t s : List C) → m t ≡ (ok a, s) → (f a s).0 ≢ panic)
      → Safe (m >>= f)
  bind_ok-Safe m f h g t = known (m t) refl
    where
      known : (q : Outcome E A × List C) → m t ≡ q → (continue f q).0 ≢ panic
      known (ok a, s) e = g a t s e
      known (err v, s) e = λ p. ground arith
      known (panic, s) e = λ p. h t (ap (λ q. q.0) e)
