-- ===== src/Relay/Routing.antt =====
-- The hops that a transfer may take.
use native.Mathlib.Nat.{mod-lt, mod-eq_of_lt, add-mod_right}
use transeuroogs_kms.Common.{
  ℕ, zero, suc, ◌+◌, ◌%◌, ◌≤◌, ◌<◌, ◌-◌, leb, ◌≡◌, ◌∙◌, ap, sym, subst, inl, inr, true, false,
  Bool-cases, some, List, [], ◌∷◌, Text, ◌==◌, text_eq_instance, text_eq_iff, text_eq, arith,
  nat_eq, length, contains, All,
}
use transeuroogs_kms.Common.Dict.{lookup}
use transeuroogs_kms.Relay.{Ledger, Engine}
use transeuroogs_kms.Relay.Sources.{hop, hops, candidates, candidates_on, or_no_hops, or_zero}

hop-contains : (route : List Text) (i : ℕ) → i < length route → contains route (hop route i) ≡ true
unfolding hop contains
hop-contains [] i h = absurd (omega (arith, h))
hop-contains (p ∷ route) zero h = ground (arith, text_eq_iff p p)
hop-contains (p ∷ route) (suc i) h = ground (arith, hop-contains route i (omega (arith, h)))

-- Every candidate is a hop of the route, and none is the sender.
hops-All :
    (route : List Text) (start : ℕ) (sender : Text) (i n : ℕ)
    → 0 < length route
    → All (λ p. (contains route p ≡ true) × ((p == sender) ≡ false)) (hops route start sender i n)
unfolding hops
hops-All route start sender i zero h = tt
hops-All route start sender i (suc n) h =
    let p = hop route ((start + i) % length route) in
    let rest = hops-All route start sender (i + 1) n h in
    elim (Bool-cases (text_eq p sender)) [
      | inl same ↦ rw (same, hops) rest
      | inr other ↦
          rw (other, hops)
            ((hop-contains route ((start + i) % length route) (mod-lt _ h), other), rest)
    ]

nat_eq_lem : (a b : ℕ) → nat_eq a b ≡ true → a ≡ b
nat_eq_lem a b h = ground (arith, h)

hops-contains :
    (route : List Text) (start : ℕ) (sender : Text) (i n j : ℕ)
    → i ≤ j
    → j < i + n
    → (hop route ((start + j) % length route) == sender) ≡ false
    → contains (hops route start sender i n) (hop route ((start + j) % length route)) ≡ true
unfolding hops contains
hops-contains route start sender i zero j lo hi other = absurd (omega (arith, lo, hi))
hops-contains route start sender i (suc n) j lo hi other = elim (Bool-cases (nat_eq i j)) [
  | inl here ↦
      let same = nat_eq_lem i j here in
      ground (
        arith,
        same,
        other,
        text_eq_iff (hop route ((start + j) % length route))
            (hop route ((start + j) % length route)),
      )
  | inr later ↦
      let rest =
        hops-contains route start sender (i + 1) n j (ground (arith, lo, later)) (omega (arith, hi))
          other in
      elim (Bool-cases (text_eq (hop route ((start + i) % length route)) sender)) [
        | inl skip ↦ rw (skip, hops) rest
        | inr take ↦ rw (take, hops) (ground (arith, rest))
      ]
]

index_of :
    (route : List Text) (q : Text)
    → contains route q ≡ true
    → (k : ℕ) × (k < length route) × (hop route k ≡ q)
unfolding hop contains
index_of [] q h = cc
index_of (p ∷ route) q h = elim (Bool-cases (text_eq p q)) [
  | inl here ↦ (zero, omega arith, (text_eq_iff p q).0 here)
  | inr later ↦
      let (k, small, same) = index_of route q (ground (arith, h, later)) in
      (suc k, omega (arith, small), same)
]

-- Every place of a ring is reached from every start in less than a round.
reach : (n start k : ℕ) → start < n → k < n → (j : ℕ) × (j < n) × ((start + j) % n ≡ k)
reach n start k s h = elim (Bool-cases (leb start k)) [
  | inl ahead ↦
      (k - start, ground (arith, h), (ap (λ x. x % n) (ground (arith, ahead))) ∙ mod-eq_of_lt h)
  | inr behind ↦ (
    k + n - start,
    ground (arith, s, behind),
    (ap (λ x. x % n) (ground (arith, s))) ∙ add-mod_right k n ∙ mod-eq_of_lt h,
  )
]

-- A list of candidates for a route and a sender.
pub record Serves (route : List Text) (sender : Text) (found : List Text) : Type 0 where
  pub only_hops : All (λ q. (contains route q ≡ true) × ((q == sender) ≡ false)) found
  pub all_hops :
      (q : Text) → contains route q ≡ true → (q == sender) ≡ false → contains found q ≡ true

hops-Serves :
    (route : List Text) (start : ℕ) (sender : Text)
    → start < length route
    → Serves route sender (hops route start sender 0 (length route))
hops-Serves route start sender s = record {
  only_hops = hops-All route start sender 0 (length route) (omega (arith, s));
  all_hops = λ q there other.
      let (k, small, same) = index_of route q there in
      let (j, less, reached) = reach (length route) start k s small in
      let at_q = ap (λ x. hop route x) reached ∙ same in
      subst (λ x. contains (hops route start sender 0 (length route)) x ≡ true) at_q
        (hops-contains route start sender 0 (length route) j (omega arith) (omega (arith, less))
          (subst (λ x. (x == sender) ≡ false) (sym at_q) other));
}

-- Whatever the cursor says, `candidates` of a target with a route that is not empty are hops of
-- the route other than the sender, and every hop of the route other than the sender is one.
pub candidates-Serves :
    (e : Engine) (s : Ledger) (to sender p : Text) (route : List Text)
    → lookup to e.cfg.routes ≡ some (p ∷ route)
    → Serves (p ∷ route) sender (candidates e s to sender).1
unfolding candidates candidates_on
candidates-Serves e s to sender p route found =
    rw (found, or_no_hops, candidates_on)
      (hops-Serves (p ∷ route) (or_zero (lookup to s.cursor) % length (p ∷ route)) sender
        (mod-lt _ (omega arith)))
