-- ===== src/Certificate/Export/Laws.antt =====
-- What an export writes, in which order, and the passphrase that it chooses.
use mathlib.Core.Path.{subst}
use text.Mathlib.TextLemmas.{append-nil}
use aws_controllers_k8s_acm.Base.{
  ℕ, zero, suc, ◌<◌, ◌≤◌, ltb, ◌&&◌, All, ◌%◌, ◌≡◌, ap, refl, String, Bool, true, none, some, List,
  [], ◌∷◌, ◌++◌, map, arith, inl, inr, Option-cases, length, get_or, length-map, ◌⊎◌, ◌<>◌,
  string_dec, Option, ◌≢◌,
}
use aws_controllers_k8s_acm.Go.{
  Outcome-cases, ok, panic, return, call, continue-eq-ok, return-eq-ok,
}
use aws_controllers_k8s_acm.Api.{Certificate, SecretKeyReference}
use aws_controllers_k8s_acm.Sdk.{
  Errors, Service, Call, ExportCertificateOutput, write_to_secret, read_random,
}
use aws_controllers_k8s_acm.Certificate.Export.{
  Crypto, charset, random_char, with_chain, export_namespace, decrypt_private_key,
  generate_random_string, write_secret, store_export,
}

module _ (X : Errors) (S : Service X) (C : Crypto) where
  -- The certificate, with its chain behind it.
  Chained : String → Option String → String → Type 0
  Chained certificate chain text =
      ((chain ≡ none) × (text ≡ certificate))
      ⊎ ((c : String) × (chain ≡ some c) × (text ≡ certificate <> c))

  Chained-with_chain :
      (certificate : String) (chain : Option String)
      → Chained certificate chain (with_chain certificate chain)
  unfolding Chained
  Chained-with_chain certificate none = inl (refl, refl)
  Chained-with_chain certificate (some c) = elim (string_dec c "") [
    | yes e ↦ inr (c, refl, ground (arith, append-nil certificate, ap (λ d. certificate <> d) e))
    | no n ↦ inr (c, refl, ground arith)
  ]

  -- The namespace of the reference, or, where that has none, of the resource.
  Placed : Certificate → SecretKeyReference → String → Type 0
  Placed ko to namespace =
      ((to.namespace ≡ "") × (namespace ≡ ko.metadata.namespace))
      ⊎ ((to.namespace ≢ "") × (namespace ≡ to.namespace))

  Placed-export_namespace :
      (ko : Certificate) (to : SecretKeyReference) → Placed ko to (export_namespace ko to)
  unfolding Placed
  Placed-export_namespace ko to = elim (string_dec to.namespace "") [
    | yes e ↦ inl (e, ground arith)
    | no n ↦ inr (n, ground arith)
  ]

  -- An export that succeeds writes two secrets of the reference's name and nothing else: under the
  -- key of the reference the certificate, followed by its chain if it has one, and then, under
  -- `tls.key`, the private key, decrypted with the passphrase; both in the namespace of the
  -- reference, or, if that is empty, of the resource.
  pub store_export-ok :
      (ko : Certificate) (to : SecretKeyReference) (passphrase : List ℕ)
      (resp : ExportCertificateOutput) (t t' : List (Call X.Err))
      → store_export X S C ko to passphrase resp t ≡ (ok tt, t')
      → (certificate encrypted algorithm key text namespace : String) × (resp.certificate
          ≡ some certificate)
        × (resp.private_key ≡ some encrypted)
        × (ko.spec.key_algorithm ≡ some algorithm)
        × (decrypt_private_key X C encrypted passphrase algorithm ≡ ok key)
        × (((resp.certificate_chain ≡ none) × (text ≡ certificate))
            ⊎ ((c : String) × (resp.certificate_chain ≡ some c) × (text ≡ certificate <> c)))
        × (((to.namespace ≡ "") × (namespace ≡ ko.metadata.namespace))
            ⊎ ((to.namespace ≢ "") × (namespace ≡ to.namespace)))
        × (t'
            ≡ (t ++ (write_to_secret text namespace to.name to.key ∷ []))
              ++ (write_to_secret key namespace to.name "tls.key" ∷ []))
  unfolding store_export write_secret Chained Placed
  store_export-ok ko to passphrase resp t t' h = elim (Option-cases resp.certificate) [
    | inl a ↦ absurd (ground arith)
    | inr (certificate, a) ↦ elim (Option-cases resp.private_key) [
      | inl b ↦ absurd (ground arith)
      | inr (encrypted, b) ↦ elim (Option-cases ko.spec.key_algorithm) [
        | inl d ↦ absurd (ground arith)
        | inr (algorithm, d) ↦
            elim (Outcome-cases (decrypt_private_key X C encrypted passphrase algorithm)) [
              | inl (key, e) ↦ (
                certificate,
                encrypted,
                algorithm,
                key,
                with_chain certificate resp.certificate_chain,
                export_namespace ko to,
                a,
                b,
                d,
                e,
                Chained-with_chain certificate resp.certificate_chain,
                Placed-export_namespace ko to,
                ground arith,
              )
              | inr (inl e) ↦ absurd (ground arith)
              | inr (inr (v, e)) ↦ absurd (ground arith)
            ]
      ]
    ]
  ]

  -- If the specification has no key algorithm, an export whose first secret is written panics, and
  -- leaves the certificate behind without its key.
  pub store_export-no_algorithm :
      (ko : Certificate) (to : SecretKeyReference) (passphrase : List ℕ)
      (resp : ExportCertificateOutput) (certificate encrypted : String) (t : List (Call X.Err))
      → resp.certificate ≡ some certificate
      → resp.private_key ≡ some encrypted
      → ko.spec.key_algorithm ≡ none
      → S.write_secret
          (with_chain certificate resp.certificate_chain)
          (export_namespace ko to)
          to.name
          to.key
          t
        ≡ ok tt
      → store_export X S C ko to passphrase resp t ≡ (
        panic,
        t
            ++ (write_to_secret
                  (with_chain certificate resp.certificate_chain)
                  (export_namespace ko to)
                  to.name
                  to.key
                ∷ []),
      )
  unfolding store_export write_secret
  store_export-no_algorithm ko to passphrase resp certificate encrypted t a b c d = ground arith

-- A printable ASCII character that is not a space.
abbrev pub IsPrintable : ℕ → Type 0
IsPrintable c = (33 ≤ c) × (c ≤ 126)

get_or-All :
    (xs : List ℕ) (i d : ℕ) → i < length xs → All IsPrintable xs → IsPrintable (get_or xs i d)
get_or-All [] i d h a = absurd (omega arith)
get_or-All (x ∷ xs) zero d h (b, a) = b
get_or-All (x ∷ xs) (suc i) d h (b, a) = get_or-All xs i d (omega arith) a

printable : List ℕ → Bool
printable [] = true
printable (c ∷ cs) = ltb 32 c && ltb c 127 && printable cs

printable-All : (cs : List ℕ) → printable cs ≡ true → All IsPrintable cs
unfolding printable
printable-All [] h = tt
printable-All (c ∷ cs) h = ((ground arith, ground arith), printable-All cs (ground arith))

charset-All : All IsPrintable charset
unfolding charset printable
charset-All = printable-All charset refl

random_char-IsPrintable : (b : ℕ) → IsPrintable (random_char b)
unfolding random_char charset
random_char-IsPrintable b = get_or-All charset (b % length charset) 0 (omega arith) charset-All

chars-All : (bytes : List ℕ) → All IsPrintable (map random_char bytes)
chars-All [] = tt
chars-All (b ∷ bytes) = (random_char-IsPrintable b, chars-All bytes)

module _ (X : Errors) (S : Service X) where
  -- A passphrase has as many characters as there were random bytes, each of them a printable ASCII
  -- character that is not a space, for all values of the bytes.
  pub generate_random_string-ok :
      (n : ℕ) (cs : List ℕ) (t t' : List (Call X.Err))
      → generate_random_string X S n t ≡ (ok cs, t')
      → (bytes : List ℕ) × (S.random n t ≡ ok bytes)
        × (length cs ≡ length bytes)
        × All IsPrintable cs
  unfolding generate_random_string
  generate_random_string-ok n cs t t' h =
      let (bytes, s, read, rest) =
        continue-eq-ok (λ bytes. return (map random_char bytes))
          (call (read_random n) (S.random n) t) h in
      let (made, ended) = return-eq-ok rest in
      (
        bytes,
        ap (λ p. p.0) read,
        subst (λ u. length u ≡ length bytes) made (length-map random_char bytes),
        subst (All IsPrintable) made (chars-All bytes),
      )
