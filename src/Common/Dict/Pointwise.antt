-- ===== src/Common/Dict/Pointwise.antt =====
-- Two maps with the same keys, their values related one by one.
use transeuroogs_kms.Common.Tests.{Bool-cases}
use transeuroogs_kms.Common.Equality.{Eq, ◌==◌}
use transeuroogs_kms.Common.Lists.{length, All}
use Prim.Native.Nat.{suc}
use transeuroogs_kms.Common.Dict.{Dict, keys, lookup, adjust}
use mathlib.Core.Path.{◌≡◌, refl, ap, ◌∙◌, subst}
use mathlib.Core.Logic.{inl, inr}
use mathlib.Core.Option.{some}
use mathlib.Core.List.{[], ◌∷◌}
use native.Mathlib.Omega.{arith}

abbrev pub Pointwise : {K V : Type 0} → (V → V → Type 0) → Dict K V → Dict K V → Type 0
Pointwise R [] [] = Unit
Pointwise R [] (q ∷ n) = ⊥
Pointwise R (p ∷ m) [] = ⊥
Pointwise R (p ∷ m) (q ∷ n) = (p.0 ≡ q.0) × R p.1 q.1 × Pointwise R m n

module _ {K V : Type 0} (R : V → V → Type 0) where
  pub Pointwise-refl : ((v : V) → R v v) → (m : Dict K V) → Pointwise R m m
  Pointwise-refl r [] = tt
  Pointwise-refl r (p ∷ m) = (refl, r p.1, Pointwise-refl r m)

  pub Pointwise-trans :
      ((u v w : V) → R u v → R v w → R u w)
      → (l m n : Dict K V) → Pointwise R l m
      → Pointwise R m n
      → Pointwise R l n
  Pointwise-trans t [] [] [] h k = tt
  Pointwise-trans t [] [] (r ∷ n) h k = k
  Pointwise-trans t [] (q ∷ m) n h k = absurd h
  Pointwise-trans t (p ∷ l) [] n h k = absurd h
  Pointwise-trans t (p ∷ l) (q ∷ m) [] h k = k
  Pointwise-trans t (p ∷ l) (q ∷ m) (r ∷ n) h k =
      (h.0 ∙ k.0, t p.1 q.1 r.1 h.1 k.1, Pointwise-trans t l m n h.2 k.2)

  pub Pointwise-keys : (m n : Dict K V) → Pointwise R m n → keys n ≡ keys m
  Pointwise-keys [] [] h = refl
  Pointwise-keys [] (q ∷ n) h = absurd h
  Pointwise-keys (p ∷ m) [] h = absurd h
  Pointwise-keys (p ∷ m) (q ∷ n) h = ground (arith, Pointwise-keys m n h.2)

  module _ ⦃e : Eq K⦄ where
    pub Pointwise-adjust :
        ((v : V) → R v v)
        → (k : K) (f : V → V) (m : Dict K V) → ((v : V) → lookup k m ≡ some v → R v (f v))
        → Pointwise R m (adjust k f m)
    unfolding adjust lookup
    Pointwise-adjust r k f [] h = tt
    Pointwise-adjust r k f ((j, w) ∷ m) h = elim (Bool-cases (j == k)) [
      | inl here ↦ rw here (refl, h w (rw (here, lookup)), Pointwise-refl r m)
      | inr there ↦
          rw there (refl, r w, Pointwise-adjust r k f m (λ v g. h v (rw (there, lookup) g)))
    ]

    pub Pointwise-lookup :
        (k : K) (m n : Dict K V) (v : V)
        → Pointwise R m n
        → lookup k m ≡ some v
        → (w : V) × (lookup k n ≡ some w) × R v w
    unfolding lookup
    Pointwise-lookup k [] n v h g = cc
    Pointwise-lookup k (p ∷ m) [] v h g = absurd h
    Pointwise-lookup k ((i, u) ∷ m) ((j, w) ∷ n) v h g = elim (Bool-cases (i == k)) [
      | inl here ↦
          let same : some u ≡ some v = rw (here, lookup) at g in
          (w, rw (← h.0, here, lookup), ground (arith, h.1))
      | inr there ↦
          rw (← h.0, there, lookup) (Pointwise-lookup k m n v h.2 (rw (there, lookup) at g))
    ]

pub Pointwise-map :
    {K V : Type 0} (R S : V → V → Type 0)
    → ((v w : V) → R v w → S v w)
    → (m n : Dict K V) → Pointwise R m n
    → Pointwise S m n
Pointwise-map R S f [] [] h = tt
Pointwise-map R S f [] (q ∷ n) h = absurd h
Pointwise-map R S f (p ∷ m) [] h = absurd h
Pointwise-map R S f (p ∷ m) (q ∷ n) h = (h.0, f p.1 q.1 h.1, Pointwise-map R S f m n h.2)

pub Pointwise-length :
    {K V : Type 0} (R : V → V → Type 0) (m n : Dict K V) → Pointwise R m n → length n ≡ length m
Pointwise-length R [] [] h = refl
Pointwise-length R [] (q ∷ n) h = absurd h
Pointwise-length R (p ∷ m) [] h = absurd h
Pointwise-length R (p ∷ m) (q ∷ n) h = ap suc (Pointwise-length R m n h.2)

-- A property of the entries that every related pair hands on.
pub Pointwise-All :
    {K V : Type 0} (R : V → V → Type 0) (P : K → V → Type 0)
    → ((k : K) (v w : V) → R v w → P k v → P k w)
    → (m n : Dict K V) → Pointwise R m n
    → All (λ p. P p.0 p.1) m
    → All (λ p. P p.0 p.1) n
Pointwise-All R P f [] [] h a = tt
Pointwise-All R P f [] (q ∷ n) h a = absurd h
Pointwise-All R P f (p ∷ m) [] h a = absurd h
Pointwise-All R P f (p ∷ m) (q ∷ n) h a =
    (subst (λ k. P k q.1) h.0 (f p.0 p.1 q.1 h.1 a.0), Pointwise-All R P f m n h.2 a.1)
