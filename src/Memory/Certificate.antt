-- ===== src/Memory/Certificate.antt =====
-- `DeepCopy` of certificates, of lists of them and of the resource (zz_generated.deepcopy.go,
-- resource.go), and that a copy shares no memory with what was copied.
use aws_controllers_k8s_acm.Base.{
  ℕ, suc, ◌≤◌, ◌<◌, ◌≡◌, ◌⊎◌, inl, inr, refl, Option, none, some, List, [], ◌∷◌, ◌++◌, All, arith,
}
use aws_controllers_k8s_acm.Memory.{
  Cell, Ref, Slice, Alloc, return, ◌>>=◌, Deep, ref, slice, copy_ref, External,
}
use aws_controllers_k8s_acm.Memory.Laws.{
  Fresh, Fresh-append, IsDeep, IsExternal, ref-IsDeep, slice-IsDeep,
}
use aws_controllers_k8s_acm.Memory.Spec.{CertificateSpec, certificate_spec, certificate_spec-IsDeep}
use aws_controllers_k8s_acm.Memory.Status.{
  CertificateStatus, certificate_status, certificate_status-IsDeep,
}

-- The addresses that a value holds are allocated: the next free one is above them.
abbrev pub Allocated : ℕ → List ℕ → Type 0
Allocated n = All (λ a. a < n)

abbrev pub Among : ℕ → List ℕ → Type 0
Among a [] = ⊥
Among a (x ∷ xs) = (a ≡ x) ⊎ Among a xs

Fresh-le : (n m a : ℕ) (xs : List ℕ) → Fresh n m xs → Among a xs → n ≤ a
Fresh-le n m a [] f i = elim i [ ]
Fresh-le n m a (x ∷ xs) (h, f) (inl e) = omega arith
Fresh-le n m a (x ∷ xs) (h, f) (inr i) = omega (arith, Fresh-le (suc x) m a xs f i)

Allocated-lt : (n a : ℕ) (xs : List ℕ) → Allocated n xs → Among a xs → a < n
Allocated-lt n a [] f i = elim i [ ]
Allocated-lt n a (x ∷ xs) (h, f) (inl e) = omega arith
Allocated-lt n a (x ∷ xs) (h, f) (inr i) = Allocated-lt n a xs f i

-- The copy has the same contents, and no address of it is one of the original's.
pub record IsCopy {A : Type 0} (D : Deep A) (a : A) (b : A) : Type 0 where
  pub same : D.strip b ≡ D.strip a
  pub apart : (p : ℕ) → Among p (D.addresses b) → Among p (D.addresses a) → ⊥

pub copied-IsCopy :
    {A : Type 0} (D : Deep A) (a : A) (n : ℕ)
    → IsDeep D
    → Allocated n (D.addresses a)
    → IsCopy D a (D.copy a n).0
copied-IsCopy D a n law old =
    let c = law a n in
    record {
      same = c.same;
      apart = λ p i j. absurd (
          omega (
            arith,
            Fresh-le n (D.copy a n).1 p (D.addresses (D.copy a n).0) c.fresh i,
            Allocated-lt n p (D.addresses a) old j,
          ));
    }

module _ (X : External) where
  pub record Certificate : Type 0 where
    pub type_meta : X.TypeMeta
    pub object_meta : X.ObjectMeta
    pub spec : CertificateSpec X
    pub status : CertificateStatus X

  unfoldable pub copy_certificate : Certificate → Alloc Certificate
  copy_certificate x = do
    object_meta ← X.object_meta.copy x.object_meta
    spec ← (certificate_spec X).copy x.spec
    status ← (certificate_status X).copy x.status
    return (record x { object_meta = object_meta; spec = spec; status = status })

  abbrev pub certificate : Deep Certificate
  certificate = record {
    copy = copy_certificate;
    addresses = λ x.
        X.object_meta.addresses x.object_meta
        ++ ((certificate_spec X).addresses x.spec ++ (certificate_status X).addresses x.status);
    strip = λ x. record x {
      object_meta = X.object_meta.strip x.object_meta;
      spec = (certificate_spec X).strip x.spec;
      status = (certificate_status X).strip x.status;
    };
  }

  pub certificate-IsDeep : IsExternal X → IsDeep certificate
  unfolding copy_certificate
  certificate-IsDeep L x n =
      let l0 = L.object_meta x.object_meta n in
      let n0 = (X.object_meta.copy x.object_meta n).1 in
      let l1 = certificate_spec-IsDeep X L x.spec n0 in
      let n1 = ((certificate_spec X).copy x.spec n0).1 in
      let l2 = certificate_status-IsDeep X L x.status n1 in
      record {
        same = rw (l0.same, l1.same, l2.same) refl;
        fresh = Fresh-append n n0 _ _ _ l0.fresh (Fresh-append n0 n1 _ _ _ l1.fresh l2.fresh);
      }

  -- `if in == nil { return nil }; out := new(Certificate); in.DeepCopyInto(out); return out`
  abbrev pub deep_copy : Ref Certificate → Alloc (Ref Certificate)
  deep_copy = copy_ref certificate

  -- A nil interface where the copy is nil.
  abbrev pub deep_copy_object : Ref Certificate → Alloc (Option (Cell Certificate))
  deep_copy_object x = do
    c ← deep_copy x
    elim c [ none ↦ return none | some out ↦ return (some out) ]

  pub record CertificateList : Type 0 where
    pub type_meta : X.TypeMeta
    pub list_meta : X.ListMeta
    pub items : Slice Certificate

  unfoldable pub copy_certificate_list : CertificateList → Alloc CertificateList
  copy_certificate_list x = do
    list_meta ← X.list_meta.copy x.list_meta
    items ← (slice certificate).copy x.items
    return (record x { list_meta = list_meta; items = items })

  abbrev pub certificate_list : Deep CertificateList
  certificate_list = record {
    copy = copy_certificate_list;
    addresses = λ x. X.list_meta.addresses x.list_meta ++ (slice certificate).addresses x.items;
    strip = λ x. record x {
      list_meta = X.list_meta.strip x.list_meta;
      items = (slice certificate).strip x.items;
    };
  }

  pub certificate_list-IsDeep : IsExternal X → IsDeep certificate_list
  unfolding copy_certificate_list
  certificate_list-IsDeep L x n =
      let l0 = L.list_meta x.list_meta n in
      let n0 = (X.list_meta.copy x.list_meta n).1 in
      let l1 = slice-IsDeep certificate (certificate-IsDeep L) x.items n0 in
      record {
        same = rw (l0.same, l1.same) refl;
        fresh = Fresh-append n n0 _ _ _ l0.fresh l1.fresh;
      }

  -- `resource` (resource.go): a pointer to the custom resource.
  pub record Resource : Type 0 where
    pub ko : Ref Certificate

  unfoldable pub deep_copy_resource : Resource → Alloc Resource
  deep_copy_resource r = do ko_copy ← deep_copy r.ko; return (record { ko = ko_copy })

  -- If copies of the types of other modules are deep, then `DeepCopy` of a resource, made where all
  -- its addresses are allocated, has the same contents, and no pointer of the copy, at any depth,
  -- has the address of one of the original.
  pub deep_copy_resource-IsCopy :
      (r : Resource) (n : ℕ)
      → IsExternal X
      → Allocated n ((ref certificate).addresses r.ko)
      → IsCopy (ref certificate) r.ko (deep_copy_resource r n).0.ko
  unfolding deep_copy_resource
  deep_copy_resource-IsCopy r n L old =
      copied-IsCopy (ref certificate) r.ko n (ref-IsDeep certificate (certificate-IsDeep L)) old

  -- If copies of the types of other modules are deep, then so is the copy of a list: it has the same
  -- contents, and no address of it is one of the original's.
  pub copy_certificate_list-IsCopy :
      (x : CertificateList) (n : ℕ)
      → IsExternal X
      → Allocated n (certificate_list.addresses x)
      → IsCopy certificate_list x (copy_certificate_list x n).0
  copy_certificate_list-IsCopy x n L old =
      copied-IsCopy certificate_list x n (certificate_list-IsDeep L) old
