-- ===== src/Go/Avoids.antt =====
-- Functions that make no call of some sort, whatever the outside answers.
use aws_controllers_k8s_acm.Base.{
  ◌≡◌, refl, ◌∙◌, ap, Bool, false, ◌||◌, List, [], ◌∷◌, ◌++◌, arith, any,
}
use aws_controllers_k8s_acm.Go.{Outcome, ok, err, panic, Go, call, continue, on_err, ◌>>=◌}

pub any-append-false {ℓ} :
    {C : Type ℓ} (p : C → Bool) (t : List C) (c : C) → p c ≡ false → any p (t ++ (c ∷ [])) ≡ any p t
any-append-false p [] c h = ground arith
any-append-false p (x ∷ t) c h = ap (λ b. p x || b) (any-append-false p t c h)

module _ {ℓ} {C E A : Type ℓ} where
  -- The calls of a run.
  abbrev pub calls : Outcome E A × List C → List C
  calls (r, t) = t

  -- No call that `m` adds passes the test.
  abbrev pub Avoids : (C → Bool) → Go C E A → Type ℓ
  Avoids p m = (t : List C) → any p (calls (m t)) ≡ any p t

  pub call-Avoids :
      (p : C → Bool) (c : C) (answer : List C → Outcome E A)
      → p c ≡ false
      → Avoids p (call c answer)
  call-Avoids p c answer h t = any-append-false p t c h

  pub on_err-Avoids : (p : C → Bool) (f : E → E) (m : Go C E A) → Avoids p m → Avoids p (on_err f m)
  on_err-Avoids p f m h t = h t

module _ {ℓ} {C E A B : Type ℓ} where
  continue-Avoids :
      (p : C → Bool) (f : A → Go C E B) (q : Outcome E A × List C)
      → ((a : A) → Avoids p (f a))
      → any p (calls (continue f q)) ≡ any p (calls q)
  continue-Avoids p f (ok a, t) h = h a t
  continue-Avoids p f (err e, t) h = refl
  continue-Avoids p f (panic, t) h = refl

  pub bind-Avoids :
      (p : C → Bool) (m : Go C E A) (f : A → Go C E B)
      → Avoids p m
      → ((a : A) → Avoids p (f a))
      → Avoids p (m >>= f)
  bind-Avoids p m f h g t = continue-Avoids p f (m t) g ∙ h t
