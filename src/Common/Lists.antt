-- ===== src/Common/Lists.antt =====
-- Lists measured by native numbers, membership tests and predicates on all elements.
use Prim.Native.Nat.{ℕ, suc, ◌+◌}
use mathlib.Core.Path.{◌≡◌, refl, subst}
use mathlib.Core.Logic.{inl, inr}
use mathlib.Core.Bool.{Bool, true, false, ◌||◌}
use mathlib.Core.List.{List, [], ◌∷◌, ◌++◌}
use native.Mathlib.Omega.{arith}
use transeuroogs_kms.Common.Tests.{Bool-cases}
use transeuroogs_kms.Common.Equality.{Eq, ◌==◌}

module _ {ℓ} {A : Type ℓ} where
  abbrev pub length : List A → ℕ
  length [] = 0
  length (x ∷ xs) = suc (length xs)

  pub length-append : (xs ys : List A) → length (xs ++ ys) ≡ length xs + length ys
  length-append [] ys = omega arith
  length-append (x ∷ xs) ys = omega (arith, length-append xs ys)

  -- How many elements pass a test.
  unfoldable pub count : (A → Bool) → List A → ℕ
  count p [] = 0
  count p (x ∷ xs) = elim (p x) [ true ↦ suc (count p xs) | false ↦ count p xs ]

  -- Every element has the property.
  abbrev pub All {κ} : (A → Type κ) → List A → Type κ
  All Q [] = Unit
  All Q (y ∷ ys) = Q y × All Q ys

  pub All-append {κ} :
      (Q : A → Type κ) (front back : List A) → All Q front → All Q back → All Q (front ++ back)
  All-append Q [] back f b = b
  All-append Q (y ∷ front) back f b = (f.0, All-append Q front back f.1 b)

  pub All-map {κ κ'} :
      (P : A → Type κ) (Q : A → Type κ')
      → ((x : A) → P x → Q x)
      → (xs : List A) → All P xs
      → All Q xs
  All-map P Q f [] h = tt
  All-map P Q f (x ∷ xs) h = (f x h.0, All-map P Q f xs h.1)

  pub All-zip {κ κ' κ''} :
      (P : A → Type κ) (Q : A → Type κ') (R : A → Type κ'')
      → ((x : A) → P x → Q x → R x)
      → (xs : List A) → All P xs
      → All Q xs
      → All R xs
  All-zip P Q R f [] h k = tt
  All-zip P Q R f (x ∷ xs) h k = (f x h.0 k.0, All-zip P Q R f xs h.1 k.1)

module _ {ℓ} {A : Type ℓ} ⦃e : Eq A⦄ where
  -- `slices.Contains`, and a set kept as a list.
  unfoldable pub contains : List A → A → Bool
  contains [] a = false
  contains (x ∷ xs) a = x == a || contains xs a

  -- No element twice.
  abbrev pub Distinct : List A → Type 0
  Distinct [] = Unit
  Distinct (x ∷ xs) = (contains xs x ≡ false) × Distinct xs

  pub contains-append :
      (xs ys : List A) (a : A) → contains (xs ++ ys) a ≡ (contains xs a || contains ys a)
  unfolding contains
  contains-append [] ys a = refl
  contains-append (x ∷ xs) ys a = ground (arith, contains-append xs ys a)

  pub Distinct-append :
      (xs ys : List A)
      → Distinct xs
      → Distinct ys
      → All (λ x. contains ys x ≡ false) xs
      → Distinct (xs ++ ys)
  unfolding contains
  Distinct-append [] ys dx dy h = dy
  Distinct-append (x ∷ xs) ys dx dy h =
      (ground (arith, contains-append xs ys x), Distinct-append xs ys dx.1 dy h.1)

  pub All-contains {κ} :
      (P : A → Type κ) (xs : List A) (a : A) → All P xs → contains xs a ≡ true → P a
  unfolding contains
  All-contains P [] a h m = cc
  All-contains P (x ∷ xs) a h m = elim (Bool-cases (x == a)) [
    | inl here ↦ subst P ((e.test_iff x a).0 here) h.0
    | inr there ↦ All-contains P xs a h.1 (ground arith)
  ]

  pub contains-none : (xs : List A) (a : A) → All (λ x. ¬ (x ≡ a)) xs → contains xs a ≡ false
  unfolding contains
  contains-none [] a h = refl
  contains-none (x ∷ xs) a h = elim (Bool-cases (x == a)) [
    | inl here ↦ absurd (h.0 ((e.test_iff x a).0 here))
    | inr there ↦ ground (arith, there, contains-none xs a h.1)
  ]

  pub not_contains-All :
      (xs : List A) (a : A) → contains xs a ≡ false → All (λ x. (x == a) ≡ false) xs
  unfolding contains
  not_contains-All [] a h = tt
  not_contains-All (x ∷ xs) a h = (ground arith, not_contains-All xs a (ground arith))

  pub All-of_contains {κ} :
      (P : A → Type κ) (xs : List A) → ((a : A) → contains xs a ≡ true → P a) → All P xs
  unfolding contains
  All-of_contains P [] h = tt
  All-of_contains P (x ∷ xs) h = (
    h x (ground (arith, (e.test_iff x x).1 refl)),
    All-of_contains P xs (λ a m. h a (ground arith)),
  )

pub count-congr {ℓ} :
    {A : Type ℓ} (p q : A → Bool) (xs : List A) → All (λ x. p x ≡ q x) xs → count p xs ≡ count q xs
unfolding count
count-congr p q [] h = refl
count-congr p q (x ∷ xs) h = ground (arith, h.0, count-congr p q xs)
