-- ===== src/Etsi014/Json/Scan.antt =====
-- The scan always ends.
use transeuroogs_kms.Common.{
  ℕ, zero, suc, ◌-◌, ◌*◌, ◌≤◌, ◌≡◌, ◌≢◌, true, List, [], ◌∷◌, arith, text_eq_instance, contains,
  ltb, length, if_split,
}
use transeuroogs_kms.Etsi014.Json.{
  Token, open_object, open_array, close, text, null, other, broken, Parsed, rest, bad, out, Place,
  value, items, members, onward, more, closed, scan, unique_json,
}

-- It ends, with no more than `n` tokens left.
unfoldable pub Ends : ℕ → Parsed → Type 0
Ends n (rest ts) = length ts ≤ n
Ends n bad = Unit
Ends n out = 1 ≤ 0

Ends-le : (n m : ℕ) (p : Parsed) → n ≤ m → Ends n p → Ends m p
unfolding Ends
Ends-le n m (rest ts) le h = omega (arith, le, h)
Ends-le n m bad le h = tt
Ends-le n m out le h = h

Ends-onward :
    (n m : ℕ) (p : Parsed) (k : List Token → Parsed)
    → Ends n p
    → ((ts : List Token) → length ts ≤ n → Ends m (k ts))
    → Ends m (onward p k)
unfolding Ends onward
Ends-onward n m (rest ts) k h f = f ts h
Ends-onward n m bad k h f = tt
Ends-onward n m out k h f = absurd (omega (arith, h))

-- The fuel that a place needs before `n` tokens.
unfoldable Enough : ℕ → Place → ℕ → Type 0
Enough fuel value n = suc (2 * n) ≤ fuel
Enough fuel items n = suc (suc (2 * n)) ≤ fuel
Enough fuel (members seen) n = suc (suc (2 * n)) ≤ fuel

-- A value takes a token at least.
unfoldable left : Place → ℕ → ℕ
left value n = n - 1
left items n = n
left (members seen) n = n

closed-Ends : (n : ℕ) (ts : List Token) → length ts ≤ n → Ends n (closed ts)
unfolding closed Ends
closed-Ends n [] le = tt
closed-Ends n (t ∷ ts) le = omega (arith, le)

more-length : (ts : List Token) → more ts ≡ true → 1 ≤ length ts
unfolding more
more-length [] h = absurd cc
more-length (t ∷ ts) h = omega arith

scan-Ends :
    (fuel : ℕ) (place : Place) (depth n : ℕ) (ts : List Token)
    → length ts ≤ n
    → Enough fuel place n
    → Ends (left place n) (scan fuel place depth ts)
unfolding scan Enough Ends left
scan-Ends zero value depth n ts le h = absurd (omega (arith, h))
scan-Ends zero items depth n ts le h = absurd (omega (arith, h))
scan-Ends zero (members seen) depth n ts le h = absurd (omega (arith, h))
scan-Ends (suc fuel) value depth n [] le h = tt
scan-Ends (suc fuel) value depth n (open_object ∷ ts) le h =
    if_split (Ends (n - 1)) (ltb 32 depth) bad (scan fuel (members []) depth ts) (λ _. tt)
      (λ _.
        Ends-le (length ts) (n - 1) _ (omega (arith, le))
          (scan-Ends fuel (members []) depth (length ts) ts (omega arith) (omega (arith, le, h))))
scan-Ends (suc fuel) value depth n (open_array ∷ ts) le h =
    if_split (Ends (n - 1)) (ltb 32 depth) bad (scan fuel items depth ts) (λ _. tt)
      (λ _.
        Ends-le (length ts) (n - 1) _ (omega (arith, le))
          (scan-Ends fuel items depth (length ts) ts (omega arith) (omega (arith, le, h))))
scan-Ends (suc fuel) value depth n (text s ∷ ts) le h =
    if_split (Ends (n - 1)) (ltb 32 depth) bad (rest ts) (λ _. tt) (λ _. omega (arith, le))
scan-Ends (suc fuel) value depth n (null ∷ ts) le h =
    if_split (Ends (n - 1)) (ltb 32 depth) bad (rest ts) (λ _. tt) (λ _. omega (arith, le))
scan-Ends (suc fuel) value depth n (other ∷ ts) le h =
    if_split (Ends (n - 1)) (ltb 32 depth) bad (rest ts) (λ _. tt) (λ _. omega (arith, le))
scan-Ends (suc fuel) value depth n (close ∷ ts) le h = tt
scan-Ends (suc fuel) value depth n (broken ∷ ts) le h = tt
scan-Ends (suc fuel) (members seen) depth n [] le h = tt
scan-Ends (suc fuel) (members seen) depth n (close ∷ ts) le h = omega (arith, le)
scan-Ends (suc fuel) (members seen) depth n (text name ∷ ts) le h =
    if_split (Ends n) (contains seen name) bad
      (onward (scan fuel value (suc depth) ts)
        (λ left. scan fuel (members (name ∷ seen)) depth left))
      (λ _. tt)
      (λ _.
        Ends-onward (length ts) n (scan fuel value (suc depth) ts) _
          (Ends-le (length ts - 1) (length ts) _ (omega arith)
            (scan-Ends fuel value (suc depth) (length ts) ts (omega arith) (omega (arith, le, h))))
          (λ left small. Ends-le (length ts) n _ (omega (arith, le)) (
            scan-Ends fuel (members (name ∷ seen)) depth (length ts) left small
              (omega (arith, le, h)))))
scan-Ends (suc fuel) (members seen) depth n (open_object ∷ ts) le h = tt
scan-Ends (suc fuel) (members seen) depth n (open_array ∷ ts) le h = tt
scan-Ends (suc fuel) (members seen) depth n (null ∷ ts) le h = tt
scan-Ends (suc fuel) (members seen) depth n (other ∷ ts) le h = tt
scan-Ends (suc fuel) (members seen) depth n (broken ∷ ts) le h = tt
scan-Ends (suc fuel) items depth n ts le h =
    if_split (Ends n) (more ts)
      (onward (scan fuel value (suc depth) ts) (λ left. scan fuel items depth left)) (closed ts)
      (λ going.
        Ends-onward (n - 1) n (scan fuel value (suc depth) ts) _
          (scan-Ends fuel value (suc depth) n ts le (omega (arith, h)))
          (λ left small. Ends-le (n - 1) n _ (omega arith) (
            scan-Ends fuel items depth (n - 1) left small
              (omega (arith, h, le, more-length ts going)))))
      (λ _. closed-Ends n ts le)

Ends-out : (n : ℕ) (p : Parsed) → Ends n p → p ≢ out
unfolding Ends
Ends-out n (rest ts) h same = absurd cc
Ends-out n bad h same = absurd cc
Ends-out n out h same = absurd (omega (arith, h))

-- Whatever the tokens are, the scan ends: the fuel that it is given is enough.
pub unique_json-out : (ts : List Token) → unique_json ts ≢ out
unfolding unique_json Enough left
unique_json-out ts =
    Ends-out (length ts - 1) (unique_json ts)
      (scan-Ends (suc (2 * length ts)) value 0 (length ts) ts (omega arith) (omega arith))
