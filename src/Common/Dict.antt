-- ===== src/Common/Dict.antt =====
-- Go's `map` as an association list; the order of the entries stands for the unspecified order
-- of an iteration. A missing key reads `none`.
pub mod Pointwise
use transeuroogs_kms.Common.Tests.{if◌then◌else◌, Bool-cases, Option-cases}
use transeuroogs_kms.Common.Equality.{Eq, ◌==◌}
use transeuroogs_kms.Common.Lists.{length, contains, Distinct, All}
use Prim.Native.Nat.{ℕ, suc, ◌+◌, ◌≤◌, ◌<◌}
use mathlib.Core.Path.{◌≡◌, refl, ap, sym, subst, subst₂}
use mathlib.Core.Logic.{◌⊎◌, inl, inr}
use mathlib.Core.Bool.{Bool, true, false, ◌||◌}
use mathlib.Core.Option.{Option, none, some}
use mathlib.Core.Option
use mathlib.Core.List.{List, [], ◌∷◌, ◌++◌, map}
use native.Mathlib.Omega.{arith}

abbrev pub Dict {ℓ κ} : Type ℓ → Type κ → Type (ℓ ⊔ κ)
Dict K V = List (K × V)

module _ {ℓ κ} {K : Type ℓ} {V : Type κ} where
  abbrev pub keys : Dict K V → List K
  keys = map (λ p. p.0)

module _ {ℓ κ} {K : Type ℓ} {V : Type κ} ⦃e : Eq K⦄ where
  -- `m[k]`
  unfoldable pub lookup : K → Dict K V → Option V
  lookup key [] = none
  lookup key (entry ∷ rest) = elim (entry.0 == key) [
    | true ↦ some entry.1
    | false ↦ lookup key rest
  ]

  -- `m[k] = v`
  unfoldable pub insert : K → V → Dict K V → Dict K V
  insert key value [] = (key, value) ∷ []
  insert key value (entry ∷ rest) = elim (entry.0 == key) [
    | true ↦ (entry.0, value) ∷ rest
    | false ↦ entry ∷ insert key value rest
  ]

  -- `delete(m, k)`
  unfoldable pub erase : K → Dict K V → Dict K V
  erase k [] = []
  erase k ((j, w) ∷ m) = let rest = erase k m in if j == k then rest else (j, w) ∷ rest

  -- A write through the pointer `m[k]`.
  unfoldable pub adjust : K → (V → V) → Dict K V → Dict K V
  adjust k f [] = []
  adjust k f ((j, w) ∷ m) = if j == k then (j, f w) ∷ m else (j, w) ∷ adjust k f m

  pub lookup-insert :
      (k j : K) (v : V) (m : Dict K V)
      → lookup j (insert k v m) ≡ (if k == j then some v else lookup j m)
  unfolding lookup insert
  lookup-insert k j v [] = ground arith
  lookup-insert k j v ((i, w) ∷ m) =
      ground (arith, e.test_iff k j, e.test_iff i k, e.test_iff i j, lookup-insert k j v m)

  pub lookup-erase :
      (k j : K) (m : Dict K V) → lookup j (erase k m) ≡ (if k == j then none else lookup j m)
  unfolding lookup erase
  lookup-erase k j [] = ground arith
  lookup-erase k j ((i, w) ∷ m) =
      ground (arith, e.test_iff k j, e.test_iff i k, e.test_iff i j, lookup-erase k j m)

  pub lookup-adjust :
      (k j : K) (f : V → V) (m : Dict K V)
      → lookup j (adjust k f m) ≡ (if k == j then Option.map f (lookup j m) else lookup j m)
  unfolding lookup adjust
  lookup-adjust k j f [] = ground arith
  lookup-adjust k j f ((i, w) ∷ m) =
      ground (arith, e.test_iff k j, e.test_iff i k, e.test_iff i j, lookup-adjust k j f m)

  pub keys-adjust : (k : K) (f : V → V) (m : Dict K V) → keys (adjust k f m) ≡ keys m
  unfolding adjust
  keys-adjust k f [] = refl
  keys-adjust k f ((i, w) ∷ m) = ground (arith, keys-adjust k f m)

  -- A new key goes to the end.
  pub insert-eq-append :
      (k : K) (v : V) (m : Dict K V) → lookup k m ≡ none → insert k v m ≡ m ++ (k, v) ∷ []
  unfolding lookup insert
  insert-eq-append k v [] h = refl
  insert-eq-append k v ((i, w) ∷ m) h = ground (arith, insert-eq-append k v m)

  pub contains-keys : (k : K) (m : Dict K V) → lookup k m ≡ none → contains (keys m) k ≡ false
  unfolding lookup contains
  contains-keys k [] h = refl
  contains-keys k ((i, w) ∷ m) h = ground (arith, contains-keys k m)

  pub lookup-contains :
      (k : K) (m : Dict K V) → contains (keys m) k ≡ true → (v : V) × (lookup k m ≡ some v)
  lookup-contains k m h = elim (Option-cases (lookup k m)) [
    | inl absent ↦ absurd (ground (arith, contains-keys k m absent))
    | inr found ↦ found
  ]

  pub contains-lookup :
      (k : K) (m : Dict K V) (v : V) → lookup k m ≡ some v → contains (keys m) k ≡ true
  unfolding lookup contains
  contains-lookup k [] v h = cc
  contains-lookup k ((i, w) ∷ m) v h = ground (arith, contains-lookup k m v)

  pub lookup-All {μ} :
      (P : K → V → Type μ) (k : K) (m : Dict K V) (v : V)
      → All (λ p. P p.0 p.1) m
      → lookup k m ≡ some v
      → P k v
  unfolding lookup
  lookup-All P k [] v a h = cc
  lookup-All P k ((i, w) ∷ m) v a h = elim (Bool-cases (i == k)) [
    | inl here ↦ subst₂ P ((e.test_iff i k).0 here) (ground arith) a.0
    | inr there ↦ lookup-All P k m v a.1 (ground arith)
  ]

  pub All-insert {μ} :
      (P : V → Type μ) (k : K) (v : V) (m : Dict K V)
      → P v
      → All (λ p. P p.1) m
      → All (λ p. P p.1) (insert k v m)
  unfolding insert
  All-insert P k v [] h a = (h, tt)
  All-insert P k v ((i, w) ∷ m) h a = elim (Bool-cases (i == k)) [
    | inl here ↦ rw (here, insert) (h, a.1)
    | inr there ↦ rw (there, insert) (a.0, All-insert P k v m h a.1)
  ]

  pub All-adjust {μ} :
      (P : V → Type μ) (k : K) (f : V → V) (m : Dict K V)
      → ((v : V) → P v → P (f v))
      → All (λ p. P p.1) m
      → All (λ p. P p.1) (adjust k f m)
  unfolding adjust
  All-adjust P k f [] h a = tt
  All-adjust P k f ((i, w) ∷ m) h a = elim (Bool-cases (i == k)) [
    | inl here ↦ rw here (h w a.0, a.1)
    | inr there ↦ rw there (a.0, All-adjust P k f m h a.1)
  ]

  -- It is enough to know the value that is written to.
  pub All-adjust_found {μ} :
      (P : V → Type μ) (k : K) (f : V → V) (m : Dict K V) (v : V)
      → lookup k m ≡ some v
      → P (f v)
      → All (λ p. P p.1) m
      → All (λ p. P p.1) (adjust k f m)
  unfolding adjust lookup
  All-adjust_found P k f [] v found h a = tt
  All-adjust_found P k f ((i, w) ∷ m) v found h a = elim (Bool-cases (i == k)) [
    | inl here ↦ rw here (subst (λ x. P (f x)) (ground (arith, found, here)) h, a.1)
    | inr there ↦ rw there (a.0, All-adjust_found P k f m v (ground (arith, found, there)) h a.1)
  ]

  pub length-adjust : (k : K) (f : V → V) (m : Dict K V) → length (adjust k f m) ≡ length m
  unfolding adjust
  length-adjust k f [] = refl
  length-adjust k f ((i, w) ∷ m) = ground (arith, length-adjust k f m)

  pub length-insert-le : (k : K) (v : V) (m : Dict K V) → length (insert k v m) ≤ suc (length m)
  unfolding insert
  length-insert-le k v [] = omega arith
  length-insert-le k v ((i, w) ∷ m) = ground (arith, length-insert-le k v m)

  pub All-erase {μ} :
      (P : V → Type μ) (k : K) (m : Dict K V) → All (λ p. P p.1) m → All (λ p. P p.1) (erase k m)
  unfolding erase
  All-erase P k [] a = tt
  All-erase P k ((i, w) ∷ m) a = elim (Bool-cases (i == k)) [
    | inl here ↦ rw (here, erase) (All-erase P k m a.1)
    | inr there ↦ rw (there, erase) (a.0, All-erase P k m a.1)
  ]

  pub length-erase-le : (k : K) (m : Dict K V) → length (erase k m) ≤ length m
  unfolding erase
  length-erase-le k [] = omega arith
  length-erase-le k ((i, w) ∷ m) = ground (arith, length-erase-le k m)

  pub length-erase-lt :
      (k : K) (m : Dict K V) (v : V) → lookup k m ≡ some v → length (erase k m) < length m
  unfolding lookup erase
  length-erase-lt k [] v h = cc
  length-erase-lt k ((i, w) ∷ m) v h = ground (arith, length-erase-le k m, length-erase-lt k m v)
