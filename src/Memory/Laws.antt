-- ===== src/Memory/Laws.antt =====
-- A copy is deep: it has the same contents, and all its addresses are new and different.
use aws_controllers_k8s_acm.Base.{
  ℕ, suc, ◌≤◌, ◌≡◌, refl, ap, none, some, List, [], ◌∷◌, ◌++◌, arith,
}
use aws_controllers_k8s_acm.Memory.{Deep, ◌&◌, ◌⊗◌, leaf, flat, ref, items, slice, External}

-- `xs` are addresses from `n` on and below `m`, each above the one before it.
abbrev pub Fresh : ℕ → ℕ → List ℕ → Type 0
Fresh n m [] = n ≤ m
Fresh n m (a ∷ xs) = (n ≤ a) × Fresh (suc a) m xs

pub Fresh-append : (n m k : ℕ) (xs ys : List ℕ) → Fresh n m xs → Fresh m k ys → Fresh n k (xs ++ ys)
Fresh-append n m k [] [] h g = omega arith
Fresh-append n m k [] (y ∷ ys) h g = (omega arith, g.1)
Fresh-append n m k (x ∷ xs) ys h g = (h.0, Fresh-append (suc x) m k xs ys h.1 g)

module _ {A : Type 0} (D : Deep A) where
  -- The copy of `a`, made where `n` is the next free address.
  pub record Copied (a : A) (n : ℕ) : Type 0 where
    pub same : D.strip (D.copy a n).0 ≡ D.strip a
    pub fresh : Fresh n (D.copy a n).1 (D.addresses (D.copy a n).0)

  abbrev pub IsDeep : Type 0
  IsDeep = (a : A) (n : ℕ) → Copied a n

pub flat-IsDeep : {A : Type 0} → IsDeep (flat {A = A})
flat-IsDeep {A} a n = record { same = refl; fresh = omega arith }

-- Where the parts are deep, so are they together.
pub both-IsDeep : {A B : Type 0} {D : Deep A} {E : Deep B} → IsDeep D → IsDeep E → IsDeep (D ⊗ E)
both-IsDeep {D = D} {E = E} first second (a & b) n =
    let l = first a n in
    let r = second b (D.copy a n).1 in
    record {
      same = rw (l.same, r.same) refl;
      fresh = Fresh-append n (D.copy a n).1 _ (D.addresses (D.copy a n).0) _ l.fresh r.fresh;
    }

module _ {A : Type 0} (D : Deep A) (law : IsDeep D) where
  pub ref-IsDeep : IsDeep (ref D)
  ref-IsDeep none n = record { same = refl; fresh = omega arith }
  ref-IsDeep (some c) n =
      let there = law c.content (suc n) in
      record {
        same = ap (λ a. some (record { address = 0; content = a })) there.same;
        fresh = (omega arith, there.fresh);
      }

  pub items-IsDeep : IsDeep (items D)
  items-IsDeep [] n = record { same = refl; fresh = omega arith }
  items-IsDeep (x ∷ xs) n =
      let first = law x n in
      let rest = items-IsDeep xs (D.copy x n).1 in
      record {
        same = rw (first.same, rest.same) refl;
        fresh =
            Fresh-append n (D.copy x n).1 _ (D.addresses (D.copy x n).0) _ first.fresh rest.fresh;
      }

pub leaf-IsDeep : {A : Type 0} → IsDeep (leaf {A = A})
leaf-IsDeep = ref-IsDeep flat flat-IsDeep

pub slice-IsDeep : {A : Type 0} (D : Deep A) → IsDeep D → IsDeep (slice D)
slice-IsDeep D law = ref-IsDeep (items D) (items-IsDeep D law)

-- What is assumed of the types of other modules: their `DeepCopyInto` is deep.
pub record IsExternal (X : External) : Type 0 where
  pub object_meta : IsDeep X.object_meta
  pub list_meta : IsDeep X.list_meta
  pub time : IsDeep X.time
  pub resource_metadata : IsDeep X.resource_metadata
  pub condition : IsDeep X.condition
  pub aws_resource_reference_wrapper : IsDeep X.aws_resource_reference_wrapper
