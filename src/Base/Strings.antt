-- ===== src/Base/Strings.antt =====
-- Texts: Go's `==`, `slices.Contains`, `strings.HasPrefix`, `strings.Contains` and the
-- replacement of one character by another.
use Prim.Native.Char.{Char, code}
use Prim.Native.String.{String}
use mathlib.Core.Logic.{ite, dite}
use mathlib.Core.Bool.{Bool, true, false, ◌||◌, Bool-discrete}
use mathlib.Core.List.{List, [], ◌∷◌}
use mathlib.Core.Option.{none, some}
use native.Mathlib.Decide.{ℕ_discrete}
use text.Mathlib.Text
use text.Mathlib.TextEquality.{eq_iff}

-- Shut in proofs, where a split on `s == t` yields the equation or its negation.
unfoldable pub string_dec : Discrete String
string_dec s t =
    dite (Bool-discrete (Text.◌==◌ s t) true) (λ same. yes ((eq_iff s t).0 same))
      (λ differ. no (λ p. differ ((eq_iff s t).1 p)))

infix 50 ◌==◌
abbrev pub ◌==◌ : String → String → Bool
a == b = ite (string_dec a b) true false

-- `slices.Contains(xs, a)`
abbrev pub contains : List String → String → Bool
contains [] a = false
contains (x ∷ xs) a = x == a || contains xs a

-- `strings.HasPrefix(s, prefix)`
unfoldable pub has_prefix : String → String → Bool
has_prefix s prefix = Text.starts_with s prefix

-- `strings.Contains(s, part)`
unfoldable pub has_part : String → String → Bool
has_part s part = elim (Text.find? s part) [ none ↦ false | some _ ↦ true ]

-- `strings.ReplaceAll(s, a, b)` for texts `a` and `b` of one character.
unfoldable pub replace_char : Char → Char → String → String
unfolding ℕ_discrete
replace_char a b String.[] = String.[]
replace_char a b (String.◌∷◌ c s) =
    String.◌∷◌ (ite (ℕ_discrete (code c) (code a)) b c) (replace_char a b s)
