-- ===== src/Memory.antt =====
-- Pointers and slices with their addresses, for the generated deep copies
-- (apis/v1alpha1/zz_generated.deepcopy.go). Elsewhere in this library a copy is the value itself;
-- here a pointer is the address together with what it points to, and to allocate is to take the
-- next address. A slice has the address of its array.
pub mod Laws
pub mod Fields
pub mod Domains
pub mod Validation
pub mod Names
pub mod Subject
pub mod Accounts
pub mod Metadata
pub mod MetadataFilter
pub mod Renewal
pub mod Search
pub mod Attributes
pub mod Summary
pub mod Detail
pub mod Status
pub mod Spec
pub mod Certificate
pub mod Types
use aws_controllers_k8s_acm.Base.{ℕ, suc, Option, none, some, List, [], ◌∷◌, ◌++◌}

pub record Cell (A : Type 0) : Type 0 where
  pub address : ℕ
  pub content : A

abbrev pub Ref : Type 0 → Type 0
Ref A = Option (Cell A)

abbrev pub Slice : Type 0 → Type 0
Slice A = Option (Cell (List A))

-- A computation that allocates, from the next free address.
abbrev pub Alloc : Type 0 → Type 0
Alloc A = ℕ → A × ℕ

abbrev pub return : {A : Type 0} → A → Alloc A
return a n = (a, n)

infixl 5 ◌>>=◌
abbrev pub ◌>>=◌ : {A B : Type 0} → Alloc A → (A → Alloc B) → Alloc B
◌>>=◌ m f n = let (a, n') = m n in f a n'

-- `new(T)`, `make([]T, n)`
abbrev pub new : Alloc ℕ
new n = (n, suc n)

-- How values of a type are copied (`DeepCopyInto`: what is given to the caller, who assigns it),
-- the addresses that a value holds, in the order of the fields, and the value without them.
pub record Deep (A : Type 0) : Type 0 where
  pub copy : A → Alloc A
  pub addresses : A → List ℕ
  pub strip : A → A

-- `*out = *in`
abbrev pub flat : {A : Type 0} → Deep A
flat = record { copy = return; addresses = λ a. []; strip = λ a. a }

-- Fields in their order.
infixr 4 ◌⊕◌
infixr 4 ◌&◌
pub data ◌⊕◌ (A B : Type 0) : Type 0 where
  ◌&◌ : A → B → A ⊕ B

abbrev pub copy_both : {A B : Type 0} → Deep A → Deep B → A ⊕ B → Alloc (A ⊕ B)
copy_both D E (a & b) = do a' ← D.copy a; b' ← E.copy b; return (a' & b')

abbrev pub addresses_both : {A B : Type 0} → Deep A → Deep B → A ⊕ B → List ℕ
addresses_both D E (a & b) = D.addresses a ++ E.addresses b

abbrev pub strip_both : {A B : Type 0} → Deep A → Deep B → A ⊕ B → A ⊕ B
strip_both D E (a & b) = D.strip a & E.strip b

-- The first field is copied first.
infixr 4 ◌⊗◌
abbrev pub ◌⊗◌ : {A B : Type 0} → Deep A → Deep B → Deep (A ⊕ B)
D ⊗ E = record { copy = copy_both D E; addresses = addresses_both D E; strip = strip_both D E }

module _ {A : Type 0} (D : Deep A) where
  -- `if in.F != nil { *out = new(T); (*in).DeepCopyInto(*out) }`, and `DeepCopy`
  abbrev pub copy_ref : Ref A → Alloc (Ref A)
  copy_ref none = return none
  copy_ref (some c) = do
    p ← new
    a ← D.copy c.content
    return (some (record { address = p; content = a }))

  abbrev pub addresses_ref : Ref A → List ℕ
  addresses_ref none = []
  addresses_ref (some c) = c.address ∷ D.addresses c.content

  abbrev pub strip_ref : Ref A → Ref A
  strip_ref none = none
  strip_ref (some c) = some (record { address = 0; content = D.strip c.content })

  abbrev pub ref : Deep (Ref A)
  ref = record { copy = copy_ref; addresses = addresses_ref; strip = strip_ref }

  -- `for i := range *in { ... }`
  abbrev pub copy_items : List A → Alloc (List A)
  copy_items [] = return []
  copy_items (x ∷ xs) = do y ← D.copy x; ys ← copy_items xs; return (y ∷ ys)

  abbrev pub addresses_items : List A → List ℕ
  addresses_items [] = []
  addresses_items (x ∷ xs) = D.addresses x ++ addresses_items xs

  abbrev pub strip_items : List A → List A
  strip_items [] = []
  strip_items (x ∷ xs) = D.strip x ∷ strip_items xs

  abbrev pub items : Deep (List A)
  items = record { copy = copy_items; addresses = addresses_items; strip = strip_items }

-- `if in.F != nil { *out = new(string); **out = **in }`
abbrev pub leaf : {A : Type 0} → Deep (Ref A)
leaf = ref flat

-- `if in.F != nil { *out = make([]T, len(*in)); for i := range *in { ... } }`
abbrev pub slice : {A : Type 0} → Deep A → Deep (Slice A)
slice D = ref (items D)

-- The types of other modules, and how they copy themselves.
pub record External : Type 1 where
  pub TypeMeta : Type 0
  pub ObjectMeta : Type 0
  pub ListMeta : Type 0
  pub Time : Type 0
  pub ResourceMetadata : Type 0
  pub Condition : Type 0
  pub AwsResourceReferenceWrapper : Type 0
  pub object_meta : Deep ObjectMeta
  pub list_meta : Deep ListMeta
  pub time : Deep Time
  pub resource_metadata : Deep ResourceMetadata
  pub condition : Deep Condition
  pub aws_resource_reference_wrapper : Deep AwsResourceReferenceWrapper
