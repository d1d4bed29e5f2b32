-- ===== src/Certificate/Conditions/Marks.antt =====
-- Lists of conditions: the last condition of a type, and how it is set, cleared or appended.
use mathlib.Core.Option as O
use aws_controllers_k8s_acm.Base.{
  ◌≡◌, refl, String, Bool, false, not, ◌&&◌, ◌||◌, Option, none, some, List, [], ◌∷◌, ◌++◌, arith,
  ◌==◌, string_dec, if◌then◌else◌, any, or_else, is_some, inl, inr, Option-cases, Bool-cases,
}
use aws_controllers_k8s_acm.Api.{Condition}

abbrev pub terminal_type : String
terminal_type = "ACK.Terminal"

abbrev pub recoverable_type : String
recoverable_type = "ACK.Recoverable"

abbrev pub synced_type : String
synced_type = "ACK.ResourceSynced"

abbrev pub has_type : String → List Condition → Bool
has_type ty [] = false
has_type ty (c ∷ cs) = c.type_ == ty || has_type ty cs

abbrev pub restate : String → Option String → Condition → Condition
restate status message c = record c { status = status; message = message }

-- A write through the pointer that the search loop leaves: to the last condition of the type.
unfoldable pub mark : String → String → Option String → List Condition → List Condition
mark ty status message [] = []
mark ty status message (c ∷ cs) =
    if c.type_ == ty && not (has_type ty cs)
    then restate status message c ∷ cs
    else c ∷ mark ty status message cs

-- `Status = ConditionTrue` with a message, on a condition that is appended if there is none.
unfoldable pub set_type : String → String → List Condition → List Condition
unfolding mark
set_type ty message cs =
    if has_type ty cs
    then mark ty "True" (some message) cs
    else cs ++ (record { type_ = ty; status = "True"; message = some message } ∷ [])

-- `Status = ConditionFalse` with no message, if there is one.
unfoldable pub clear_type : String → List Condition → List Condition
unfolding mark
clear_type ty cs = mark ty "False" none cs

-- `if syncCondition == nil && onSuccess`
unfoldable pub append_synced : Bool → List Condition → List Condition
append_synced on_success cs =
    if not (has_type synced_type cs) && on_success
    then cs ++ (record { type_ = synced_type; status = "True"; message = none } ∷ [])
    else cs

-- The last condition of a type.
abbrev pub last_of : String → List Condition → Option Condition
last_of ty [] = none
last_of ty (c ∷ cs) = or_else (last_of ty cs) (if c.type_ == ty then some c else none)

-- At most one condition has the type.
abbrev pub IsSingle : String → List Condition → Type 0
IsSingle ty [] = Unit
IsSingle ty (c ∷ cs) = (c.type_ ≡ ty → has_type ty cs ≡ false) × IsSingle ty cs

pub has_type-last_of :
    (ty : String) (cs : List Condition) → has_type ty cs ≡ is_some (last_of ty cs)
has_type-last_of ty [] = refl
has_type-last_of ty (c ∷ cs) = ground (arith, has_type-last_of ty cs)

last_of-append :
    (ty : String) (cs ds : List Condition)
    → last_of ty (cs ++ ds) ≡ or_else (last_of ty ds) (last_of ty cs)
last_of-append ty [] ds = ground arith
last_of-append ty (c ∷ cs) ds = ground (arith, last_of-append ty cs ds)

pub last_of-mark :
    (ty u status : String) (message : Option String) (cs : List Condition)
    → last_of u (mark ty status message cs)
      ≡ (if u == ty then O.map (restate status message) (last_of ty cs) else last_of u cs)
unfolding mark
last_of-mark ty u status message [] = ground arith
last_of-mark ty u status message (c ∷ cs) =
    ground (arith, last_of-mark ty u status message cs, has_type-last_of ty cs)

pub last_of-type :
    (ty : String) (cs : List Condition) (c : Condition) → last_of ty cs ≡ some c → c.type_ ≡ ty
last_of-type ty [] c h = ground arith
last_of-type ty (d ∷ cs) c h = ground (arith, last_of-type ty cs c)

pub has_type-mark :
    (ty u status : String) (message : Option String) (cs : List Condition)
    → has_type u (mark ty status message cs) ≡ has_type u cs
unfolding mark
has_type-mark ty u status message [] = refl
has_type-mark ty u status message (c ∷ cs) = ground (arith, has_type-mark ty u status message cs)

has_type-append :
    (u : String) (cs ds : List Condition) → has_type u (cs ++ ds) ≡ (has_type u cs || has_type u ds)
has_type-append u [] ds = refl
has_type-append u (c ∷ cs) ds = ground (arith, has_type-append u cs ds)

-- Setting a type leaves it true with the message, and leaves the other types alone.
pub last_of-set_type :
    (ty u message : String) (cs : List Condition)
    → last_of u (set_type ty message cs) ≡ (
        if u == ty
        then some (record { type_ = ty; status = "True"; message = some message })
        else last_of u cs)
unfolding set_type
last_of-set_type ty u message cs = elim (Option-cases (last_of ty cs)) [
  | inl e ↦ ground (
    arith,
    has_type-last_of ty cs,
    last_of-append u cs (record { type_ = ty; status = "True"; message = some message } ∷ []),
  )
  | inr (c, e) ↦ ground (
    arith,
    has_type-last_of ty cs,
    last_of-mark ty u "True" (some message) cs,
    last_of-type ty cs c e,
  )
]

-- Clearing makes the last condition of the type false, and leaves the other types alone.
pub last_of-clear_type :
    (ty u : String) (cs : List Condition)
    → last_of u (clear_type ty cs)
      ≡ (if u == ty then O.map (restate "False" none) (last_of ty cs) else last_of u cs)
unfolding clear_type
last_of-clear_type ty u cs = last_of-mark ty u "False" none cs

-- The synced condition is appended on success, if there is none; an older one stays as it was.
pub last_of-append_synced :
    (u : String) (on_success : Bool) (cs : List Condition)
    → last_of u (append_synced on_success cs) ≡ (
        if u == synced_type && on_success
        then or_else
            (last_of synced_type cs)
            (some (record { type_ = synced_type; status = "True"; message = none }))
        else last_of u cs)
unfolding append_synced
last_of-append_synced u on_success cs = ground (
  arith,
  has_type-last_of synced_type cs,
  last_of-append u cs (record { type_ = synced_type; status = "True"; message = none } ∷ []),
)

IsSingle-mark :
    (ty u status : String) (message : Option String) (cs : List Condition)
    → IsSingle u cs
    → IsSingle u (mark ty status message cs)
unfolding mark
IsSingle-mark ty u status message [] s = tt
IsSingle-mark ty u status message (c ∷ cs) (h, s) =
    ground (arith, h, has_type-mark ty u status message cs, IsSingle-mark ty u status message cs s)

IsSingle-append :
    (u : String) (cs : List Condition) (c : Condition)
    → has_type c.type_ cs ≡ false
    → IsSingle u cs
    → IsSingle u (cs ++ (c ∷ []))
IsSingle-append u [] c n s = (λ e. refl, tt)
IsSingle-append u (d ∷ cs) c n (h, s) =
    ground (arith, h, has_type-append u cs (c ∷ []), IsSingle-append u cs c (ground arith) s)

pub IsSingle-set_type :
    (ty u message : String) (cs : List Condition)
    → IsSingle u cs
    → IsSingle u (set_type ty message cs)
unfolding set_type
IsSingle-set_type ty u message cs s = elim (Bool-cases (has_type ty cs)) [
  | inl e ↦ rw e (IsSingle-mark ty u "True" (some message) cs s)
  | inr e ↦ rw e (IsSingle-append u cs _ e s)
]

pub IsSingle-clear_type :
    (ty u : String) (cs : List Condition) → IsSingle u cs → IsSingle u (clear_type ty cs)
unfolding clear_type
IsSingle-clear_type ty u cs s = IsSingle-mark ty u "False" none cs s

pub IsSingle-append_synced :
    (u : String) (on_success : Bool) (cs : List Condition)
    → IsSingle u cs
    → IsSingle u (append_synced on_success cs)
unfolding append_synced
IsSingle-append_synced u on_success cs s = elim (Bool-cases (has_type synced_type cs)) [
  | inl e ↦ rw e s
  | inr e ↦ elim (Bool-cases on_success) [
    | inl y ↦ rw (e, y) (IsSingle-append u cs _ e s)
    | inr n ↦ rw (e, n) s
  ]
]

abbrev pub is_true : Option Condition → Bool
is_true none = false
is_true (some c) = c.status == "True"

pub is_true-cleared : (o : Option Condition) → is_true (O.map (restate "False" none) o) ≡ false
unfolding string_dec
is_true-cleared none = refl
is_true-cleared (some c) = refl

-- Where a type is single, a scan for a true condition of it sees the last one.
pub any-last_of :
    (ty : String) (cs : List Condition)
    → IsSingle ty cs
    → any (λ c. c.type_ == ty && c.status == "True") cs ≡ is_true (last_of ty cs)
any-last_of ty [] s = refl
any-last_of ty (c ∷ cs) (h, s) = ground (arith, h, has_type-last_of ty cs, any-last_of ty cs s)
