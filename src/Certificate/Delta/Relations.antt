-- ===== src/Certificate/Delta/Relations.antt =====
-- The tests of delta.go and of the comparison hooks, as relations.
use aws_controllers_k8s_acm.Base.{
  ◌≡◌, refl, ◌≢◌, ◌↔◌, ap, sym, ◌⊎◌, inl, inr, String, Bool, true, false, ◌&&◌, ◌||◌, Option, none,
  some, ◌==◌, string_dec, arith, Option-cases,
}
use aws_controllers_k8s_acm.Base.Strings.{replace_char}
use aws_controllers_k8s_acm.Certificate.Delta.{
  Compare, both_differ, normalized, normalize_key_algorithm, is_text,
}
use aws_controllers_k8s_acm.Certificate.Delta.Laws.{text_differs}

-- Both are there, and differ.
pub record Unequal (a b : Option String) : Type 0 where
  pub left : String
  pub right : String
  pub is_left : a ≡ some left
  pub is_right : b ≡ some right
  pub apart : left ≢ right

-- Both key algorithms are there, and differ with each `-` read as `_`.
pub record UnequalAlgorithms (a b : Option String) : Type 0 where
  pub left : String
  pub right : String
  pub is_left : a ≡ some left
  pub is_right : b ≡ some right
  pub apart : replace_char "-" "_" left ≢ replace_char "-" "_" right

pub eq_text : (s p : String) → (s == p) ≡ true → p ≡ s
eq_text s p h = elim (string_dec s p) [ yes e ↦ sym e | no n ↦ absurd (ground arith) ]

pub text_eq : (s p : String) → p ≡ s → (s == p) ≡ true
text_eq s p h = elim (string_dec s p) [ yes e ↦ ground arith | no n ↦ absurd (n (sym h)) ]

pub or_cases : (a b : Bool) → (a || b) ≡ true → (a ≡ true) ⊎ (b ≡ true)
or_cases true b h = inl h
or_cases false b h = inr h

pub or_left : (a b : Bool) → a ≡ true → (a || b) ≡ true
or_left a b h = ground arith

pub or_right : (a b : Bool) → b ≡ true → (a || b) ≡ true
or_right a b h = ground arith

pub both : (a b : Bool) → a ≡ true → b ≡ true → (a && b) ≡ true
both a b h g = ground arith

pub both_differ-Unequal : (a b : Option String) → (both_differ a b ≡ true) ↔ Unequal a b
both_differ-Unequal a b = (
  λ h. elim (Option-cases a) [
    | inl e ↦ absurd (ground arith)
    | inr (s, e) ↦ elim (Option-cases b) [
      | inl f ↦ absurd (ground arith)
      | inr (u, f) ↦ record {
        left = s;
        right = u;
        is_left = e;
        is_right = f;
        apart = λ q. ground arith;
      }
    ]
  ],
  λ u.
      let apart = u.apart in
      elim (string_dec u.left u.right) [
        | yes q ↦ absurd (apart q)
        | no n ↦ ground (arith, u.is_left, u.is_right)
      ],
)

pub normalized-Unequal :
    (a b : Option String)
    → (both_differ (normalized a) (normalized b) ≡ true) ↔ UnequalAlgorithms a b
unfolding normalize_key_algorithm
normalized-Unequal a b = (
  λ h. elim (Option-cases a) [
    | inl e ↦ absurd (ground arith)
    | inr (s, e) ↦ elim (Option-cases b) [
      | inl f ↦ absurd (ground arith)
      | inr (u, f) ↦ record {
        left = s;
        right = u;
        is_left = e;
        is_right = f;
        apart = λ q. ground arith;
      }
    ]
  ],
  λ u. elim (string_dec (replace_char "-" "_" u.left) (replace_char "-" "_" u.right)) [
    | yes q ↦ absurd (u.apart q)
    | no n ↦ ground (arith, u.is_left, u.is_right)
  ],
)

pub is_text-eq : (a : Option String) (s : String) → (is_text a s ≡ true) ↔ (a ≡ some s)
is_text-eq none s = ground arith
is_text-eq (some u) s = (λ h. ap some (sym (eq_text u s h)), λ e. ground arith)

pub left_of : (a b : Bool) → (a && b) ≡ true → a ≡ true
left_of a b h = ground arith

-- One of nine.
pub chosen :
    (C : Type 0) (d1 d2 d3 d4 d5 d6 d7 d8 d9 : Bool)
    → (d1 ≡ true → C)
    → (d2 ≡ true → C)
    → (d3 ≡ true → C)
    → (d4 ≡ true → C)
    → (d5 ≡ true → C)
    → (d6 ≡ true → C)
    → (d7 ≡ true → C)
    → (d8 ≡ true → C)
    → (d9 ≡ true → C)
    → (d1 || d2 || d3 || d4 || d5 || d6 || d7 || d8 || d9) ≡ true
    → C
chosen C true d2 d3 d4 d5 d6 d7 d8 d9 f1 f2 f3 f4 f5 f6 f7 f8 f9 h = f1 refl
chosen C false true d3 d4 d5 d6 d7 d8 d9 f1 f2 f3 f4 f5 f6 f7 f8 f9 h = f2 refl
chosen C false false true d4 d5 d6 d7 d8 d9 f1 f2 f3 f4 f5 f6 f7 f8 f9 h = f3 refl
chosen C false false false true d5 d6 d7 d8 d9 f1 f2 f3 f4 f5 f6 f7 f8 f9 h = f4 refl
chosen C false false false false true d6 d7 d8 d9 f1 f2 f3 f4 f5 f6 f7 f8 f9 h = f5 refl
chosen C false false false false false true d7 d8 d9 f1 f2 f3 f4 f5 f6 f7 f8 f9 h = f6 refl
chosen C false false false false false false true d8 d9 f1 f2 f3 f4 f5 f6 f7 f8 f9 h = f7 refl
chosen C false false false false false false false true d9 f1 f2 f3 f4 f5 f6 f7 f8 f9 h = f8 refl
chosen C false false false false false false false false true f1 f2 f3 f4 f5 f6 f7 f8 f9 h = f9 refl
chosen C false false false false false false false false false f1 f2 f3 f4 f5 f6 f7 f8 f9 h =
    absurd (ground arith)

pub none_chosen :
    (d1 d2 d3 d4 d5 d6 d7 d8 d9 : Bool)
    → (d1 || d2 || d3 || d4 || d5 || d6 || d7 || d8 || d9) ≡ false
    → (d1 ≡ false)
      × (d2 ≡ false)
      × (d3 ≡ false)
      × (d4 ≡ false)
      × (d5 ≡ false)
      × (d6 ≡ false)
      × (d7 ≡ false)
      × (d8 ≡ false)
      × (d9 ≡ false)
none_chosen d1 d2 d3 d4 d5 d6 d7 d8 d9 h = ground arith

module _ (c : Compare) where
  -- One of them is nil, as the runtime sees it, or both are there and differ.
  abbrev pub TextsDiffer : Option String → Option String → Type 0
  TextsDiffer a b = (c.has_nil_difference a b ≡ true) ⊎ Unequal a b

  pub text_differs-TextsDiffer :
      (a b : Option String) → (text_differs c a b ≡ true) ↔ TextsDiffer a b
  text_differs-TextsDiffer a b = (
    λ h. elim (or_cases (c.has_nil_difference a b) (both_differ a b) h) [
      | inl e ↦ inl e
      | inr e ↦ inr ((both_differ-Unequal a b).0 e)
    ],
    λ d. elim d [
      | inl e ↦ or_left (c.has_nil_difference a b) (both_differ a b) e
      | inr u ↦
          or_right (c.has_nil_difference a b) (both_differ a b) ((both_differ-Unequal a b).1 u)
    ],
  )
