-- ===== src/Certificate/Factory/Keys.antt =====
-- The key of the cache, `fmt.Sprintf("%s/%s/%s", id, region, roleARN)`, tells accounts and regions
-- apart.
use Prim.Native.Char.{Char, code, nul}
use Prim.Native.String.{String}
use Prim.Native.String.append
use aws_controllers_k8s_acm.Base.{ℕ, sym, ◌∙◌, ◌≡◌, ◌≢◌, refl, ap, ◌<>◌}
use aws_controllers_k8s_acm.Certificate.Factory.{ManagerArgs, rm_id}

-- The text has no slash.
abbrev pub IsPlainPart : String → Type 0
IsPlainPart String.[] = Unit
IsPlainPart (String.◌∷◌ c s) = (code c ≢ 47) × IsPlainPart s

abbrev tail : String → String
tail String.[] = String.[]
tail (String.◌∷◌ c s) = s

abbrev head : String → Char
head String.[] = nul
head (String.◌∷◌ c s) = c

abbrev head_code : String → ℕ
head_code String.[] = 0
head_code (String.◌∷◌ c s) = code c

slash_lem : (u : String) → ("/" <> u) ≡ String.◌∷◌ "/" u
slash_lem u = append.cons "/" String.[] u ∙ ap (λ t. String.◌∷◌ "/" t) (append.nil u)

first_lem : (u : String) → ("" <> ("/" <> u)) ≡ String.◌∷◌ "/" u
first_lem u = append.nil ("/" <> u) ∙ slash_lem u

cons_path : (c d : Char) (s t : String) → c ≡ d → s ≡ t → String.◌∷◌ c s ≡ String.◌∷◌ d t
cons_path c d s t h e = rw (h, e) refl

split_part :
    (s t u v : String)
    → IsPlainPart s
    → IsPlainPart t
    → (s <> ("/" <> u)) ≡ (t <> ("/" <> v))
    → (s ≡ t) × (u ≡ v)
split_part String.[] String.[] u v p q h = (refl, ap tail (sym (first_lem u) ∙ h ∙ first_lem v))
split_part String.[] (String.◌∷◌ d t) u v p q h =
    absurd (q.0 (sym (ap head_code (sym (first_lem u) ∙ h ∙ append.cons d t ("/" <> v)))))
split_part (String.◌∷◌ c s) String.[] u v p q h =
    absurd (p.0 (ap head_code (sym (append.cons c s ("/" <> u)) ∙ h ∙ first_lem v)))
split_part (String.◌∷◌ c s) (String.◌∷◌ d t) u v p q h =
    let whole = sym (append.cons c s ("/" <> u)) ∙ h ∙ append.cons d t ("/" <> v) in
    let (same, rest) = split_part s t u v p.1 q.1 (ap tail whole) in
    (cons_path c d s t (ap head whole) same, rest)

-- Calls with the same key are for the same account, region and role, if accounts and regions have
-- no slash.
pub rm_id-inj :
    (a b : ManagerArgs)
    → IsPlainPart a.id
    → IsPlainPart b.id
    → IsPlainPart a.region
    → IsPlainPart b.region
    → rm_id a ≡ rm_id b
    → (a.id ≡ b.id) × (a.region ≡ b.region) × (a.role_arn ≡ b.role_arn)
unfolding rm_id
rm_id-inj a b p q p' q' h =
    let (ids, rest) = split_part a.id b.id _ _ p q h in
    let (regions, roles) = split_part a.region b.region a.role_arn b.role_arn p' q' rest in
    (ids, regions, roles)
