-- ===== src/Etsi014/Json/Accepts.antt =====
-- The scan accepts the values that nest at most 32 deep and have no object with two members of one
-- name, and no others.
use transeuroogs_kms.Common.{
  ℕ, zero, suc, ◌+◌, ◌*◌, ◌≤◌, ◌≡◌, refl, ap, ◌∙◌, Bool, true, false, not, ◌&&◌, List, [], ◌∷◌,
  arith, Text, text_eq_iff, text_eq_instance, contains, ltb, leb, length, if◌then◌else◌,
}
use transeuroogs_kms.Etsi014.Json.{
  Token, Parsed, rest, bad, value, items, members, onward, more, scan, unique_json,
}
use transeuroogs_kms.Etsi014.Json.Tree.{
  Json, Items, Members, print, print_items, print_members, height, height_items, height_members,
  names, distinct, unambiguous, unambiguous_items, unambiguous_members, atom, nothing, string,
  array, object, no_item, item, no_member, member,
}

-- The same tests, in the order in which the scan makes them.
mutual
  fine : ℕ → Json → Bool
  fine d atom = not (ltb 32 d)
  fine d nothing = not (ltb 32 d)
  fine d (string s) = not (ltb 32 d)
  fine d (array vs) = not (ltb 32 d) && fine_items d vs
  fine d (object ms) = not (ltb 32 d) && fine_members d [] ms

  fine_items : ℕ → Items → Bool
  fine_items d no_item = true
  fine_items d (item v vs) = fine (suc d) v && fine_items d vs

  fine_members : ℕ → List Text → Members → Bool
  fine_members d seen no_member = true
  fine_members d seen (member name v ms) =
      not (contains seen name) && (fine (suc d) v && fine_members d (name ∷ seen) ms)

abbrev verdict : Bool → List Token → Parsed
verdict b ts = if b then rest ts else bad

mutual
  unfolding print

  print-length : (v : Json) (ts : List Token) → suc (length ts) ≤ length (print v ts)
  print-length atom ts = omega arith
  print-length nothing ts = omega arith
  print-length (string s) ts = omega arith
  print-length (array vs) ts = omega (arith, items-length vs ts)
  print-length (object ms) ts = omega (arith, members-length ms ts)

  items-length : (vs : Items) (ts : List Token) → suc (length ts) ≤ length (print_items vs ts)
  items-length no_item ts = omega arith
  items-length (item v vs) ts =
      omega (arith, print-length v (print_items vs ts), items-length vs ts)

  members-length : (ms : Members) (ts : List Token) → suc (length ts) ≤ length (print_members ms ts)
  members-length no_member ts = omega arith
  members-length (member name v ms) ts =
      omega (arith, print-length v (print_members ms ts), members-length ms ts)

more-print : (v : Json) (ts : List Token) → more (print v ts) ≡ true
unfolding more print
more-print atom ts = refl
more-print nothing ts = refl
more-print (string s) ts = refl
more-print (array vs) ts = refl
more-print (object ms) ts = refl

onward-verdict :
    (a b : Bool) (ts us : List Token) (p : Parsed) (k : List Token → Parsed)
    → p ≡ verdict a ts
    → k ts ≡ verdict b us
    → onward p k ≡ verdict (a && b) us
unfolding onward
onward-verdict true b ts us p k h g = ap (λ x. onward x k) h ∙ g
onward-verdict false b ts us p k h g = ap (λ x. onward x k) h

mutual
  unfolding scan print fine

  scan-print :
      (v : Json) (fuel depth : ℕ) (ts : List Token)
      → suc (2 * length (print v ts)) ≤ fuel
      → scan fuel value depth (print v ts) ≡ verdict (fine depth v) ts
  scan-print v zero depth ts h = absurd (omega (arith, h))
  scan-print atom (suc fuel) depth ts h = ground arith
  scan-print nothing (suc fuel) depth ts h = ground arith
  scan-print (string s) (suc fuel) depth ts h = ground arith
  scan-print (array vs) (suc fuel) depth ts h =
      ground (arith, scan-print_items vs fuel depth ts (omega (arith, h)))
  scan-print (object ms) (suc fuel) depth ts h =
      ground (arith, scan-print_members ms [] fuel depth ts (omega (arith, h)))

  scan-print_items :
      (vs : Items) (fuel depth : ℕ) (ts : List Token)
      → suc (suc (2 * length (print_items vs ts))) ≤ fuel
      → scan fuel items depth (print_items vs ts) ≡ verdict (fine_items depth vs) ts
  scan-print_items vs zero depth ts h = absurd (omega (arith, h))
  scan-print_items no_item (suc fuel) depth ts h = refl
  scan-print_items (item v vs) (suc fuel) depth ts h =
      let after = print_items vs ts in
      rw (more-print v after) (
        onward-verdict (fine (suc depth) v) (fine_items depth vs) after ts _ _
          (scan-print v fuel (suc depth) after (omega (arith, h)))
          (scan-print_items vs fuel depth ts (omega (arith, h, print-length v after))))

  scan-print_members :
      (ms : Members) (seen : List Text) (fuel depth : ℕ) (ts : List Token)
      → suc (suc (2 * length (print_members ms ts))) ≤ fuel
      → scan fuel (members seen) depth (print_members ms ts)
        ≡ verdict (fine_members depth seen ms) ts
  scan-print_members ms seen zero depth ts h = absurd (omega (arith, h))
  scan-print_members no_member seen (suc fuel) depth ts h = refl
  scan-print_members (member name v ms) seen (suc fuel) depth ts h =
      let after = print_members ms ts in
      ground (
        arith,
        onward-verdict (fine (suc depth) v) (fine_members depth (name ∷ seen) ms) after ts
            (scan fuel value (suc depth) (print v after))
            (λ left. scan fuel (members (name ∷ seen)) depth left)
            (scan-print v fuel (suc depth) after (omega (arith, h)))
            (scan-print_members ms (name ∷ seen) fuel depth ts
              (omega (arith, h, print-length v after))),
      )

-- No name of the list was seen before.
none_seen : List Text → List Text → Bool
none_seen seen [] = true
none_seen seen (x ∷ xs) = not (contains seen x) && none_seen seen xs

none_seen-empty : (xs : List Text) → none_seen [] xs ≡ true
unfolding none_seen contains
none_seen-empty [] = refl
none_seen-empty (x ∷ xs) = none_seen-empty xs

none_seen-cons :
    (x : Text) (seen xs : List Text)
    → none_seen (x ∷ seen) xs ≡ (not (contains xs x) && none_seen seen xs)
unfolding none_seen contains
none_seen-cons x seen [] = refl
none_seen-cons x seen (y ∷ xs) =
    ground (arith, none_seen-cons x seen xs, text_eq_iff x y, text_eq_iff y x)

-- The order of the tests does not matter.
mutual
  unfolding fine height unambiguous none_seen names distinct

  fine-eq : (v : Json) (d : ℕ) → fine d v ≡ (leb (d + height v) 32 && unambiguous v)
  fine-eq atom d = ground arith
  fine-eq nothing d = ground arith
  fine-eq (string s) d = ground arith
  fine-eq (array vs) d = ground (arith, fine_items-eq vs d)
  fine-eq (object ms) d = ground (arith, fine_members-eq ms d [], none_seen-empty (names ms))

  fine_items-eq :
      (vs : Items) (d : ℕ)
      → (not (ltb 32 d) && fine_items d vs) ≡ (leb (d + height_items vs) 32 && unambiguous_items vs)
  fine_items-eq no_item d = ground arith
  fine_items-eq (item v vs) d = ground (arith, fine-eq v (suc d), fine_items-eq vs d)

  fine_members-eq :
      (ms : Members) (d : ℕ) (seen : List Text)
      → (not (ltb 32 d) && fine_members d seen ms) ≡ (
          leb (d + height_members ms) 32
          && (none_seen seen (names ms) && (distinct (names ms) && unambiguous_members ms)))
  fine_members-eq no_member d seen = ground arith
  fine_members-eq (member name v ms) d seen = ground (
    arith,
    fine-eq v (suc d),
    fine_members-eq ms d (name ∷ seen),
    none_seen-cons name seen (names ms),
  )

add-zero : (n : ℕ) → 0 + n ≡ n
add-zero n = omega arith

-- On the tokens of any value, and nothing after them, the scan ends with success when the value
-- nests at most 32 deep and none of its objects, at any depth, has two members of one name; in
-- every other case it ends with an error.
pub unique_json-print :
    (v : Json)
    → unique_json (print v []) ≡ (if leb (height v) 32 && unambiguous v then rest [] else bad)
unfolding unique_json
unique_json-print v =
    scan-print v (suc (2 * length (print v []))) 0 [] (omega arith)
    ∙ ap (λ b. verdict b []) (fine-eq v 0)
    ∙ ap (λ n. verdict (leb n 32 && unambiguous v) []) (add-zero (height v))
