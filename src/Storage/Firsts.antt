-- ===== src/Storage/Firsts.antt =====
-- Facts on the first elements that pass a test.
use transeuroogs_kms.Common.{
  Bool-cases, ℕ, zero, suc, ◌≡◌, refl, inl, inr, Bool, true, false, List, [], ◌∷◌, arith,
  if◌then◌else◌, Eq, All, length, count, contains, Distinct, leb,
}
use transeuroogs_kms.Storage.Scan.{firsts}

module _ {ℓ} {A : Type ℓ} (p : A → Bool) where
  pub firsts-All : (n : ℕ) (xs : List A) → All (λ x. p x ≡ true) (firsts n p xs)
  unfolding firsts
  firsts-All zero xs = tt
  firsts-All (suc n) [] = tt
  firsts-All (suc n) (x ∷ xs) = elim (Bool-cases (p x)) [
    | inl hit ↦ rw (hit, firsts) (hit, firsts-All n xs)
    | inr miss ↦ rw (miss, firsts) (firsts-All (suc n) xs)
  ]

  -- There are `n` of them exactly when `n` elements pass, and fewer otherwise.
  pub length-firsts :
      (n : ℕ) (xs : List A)
      → length (firsts n p xs) ≡ (if leb n (count p xs) then n else count p xs)
  unfolding firsts count
  length-firsts zero xs = ground arith
  length-firsts (suc n) [] = ground arith
  length-firsts (suc n) (x ∷ xs) = ground (arith, length-firsts n xs, length-firsts (suc n) xs)

  module _ ⦃e : Eq A⦄ where
    pub contains-firsts :
        (n : ℕ) (xs : List A) (a : A) → contains xs a ≡ false → contains (firsts n p xs) a ≡ false
    unfolding firsts contains
    contains-firsts zero xs a h = refl
    contains-firsts (suc n) [] a h = refl
    contains-firsts (suc n) (x ∷ xs) a h =
        ground (arith, contains-firsts n xs a, contains-firsts (suc n) xs a)

    pub firsts-Distinct : (n : ℕ) (xs : List A) → Distinct xs → Distinct (firsts n p xs)
    unfolding firsts
    firsts-Distinct zero xs d = tt
    firsts-Distinct (suc n) [] d = tt
    firsts-Distinct (suc n) (x ∷ xs) d = elim (Bool-cases (p x)) [
      | inl hit ↦ rw (hit, firsts) (contains-firsts n xs x d.0, firsts-Distinct n xs d.1)
      | inr miss ↦ rw (miss, firsts) (firsts-Distinct (suc n) xs d.1)
    ]
