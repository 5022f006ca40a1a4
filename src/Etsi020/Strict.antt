-- ===== src/Etsi020/Strict.antt =====
-- What the check of a type accepts, the scan without a type accepts too.
use transeuroogs_kms.Common.{
  ℕ, zero, suc, ◌*◌, ◌≡◌, refl, sym, ◌∙◌, Bool, true, false, ◌&&◌, Option, none, some, List, [],
  ◌∷◌, text_eq_instance, contains, ltb, leb, length, if◌then◌else◌, subst,
}
use transeuroogs_kms.Etsi014.Json.{
  Token, open_object, open_array, close, text, null, other, broken, Parsed, rest, bad, out, Place,
  value, items, members, onward, more, closed, scan, unique_json,
}
use transeuroogs_kms.Etsi014.Json.Tree.{Json, print, height, unambiguous}
use transeuroogs_kms.Etsi014.Json.Accepts.{unique_json-print}
use transeuroogs_kms.Etsi020.Shapes.{
  Shape, Spot, at_value, at_items, at_members, pointed, child_of, element_of, null_fits, check,
  check_json,
}

-- The same spot without its type.
unfoldable erase : Spot → Place
erase (at_value s) = value
erase (at_items s) = items
erase (at_members s seen) = members seen

-- The second ends as the first, if the first succeeds.
unfoldable Follows : Parsed → Parsed → Type 0
Follows (rest ts) p = p ≡ rest ts
Follows bad p = Unit
Follows out p = Unit

Follows-rest : (p q : Parsed) (ts : List Token) → Follows p q → p ≡ rest ts → q ≡ rest ts
unfolding Follows
Follows-rest (rest us) q ts f e = f ∙ e
Follows-rest bad q ts f e = absurd cc
Follows-rest out q ts f e = absurd cc

Follows-refl : (p : Parsed) → Follows p p
unfolding Follows
Follows-refl (rest ts) = refl
Follows-refl bad = tt
Follows-refl out = tt

Follows-onward :
    (p q : Parsed) (k l : List Token → Parsed)
    → Follows p q
    → ((ts : List Token) → Follows (k ts) (l ts))
    → Follows (onward p k) (onward q l)
unfolding Follows onward
Follows-onward (rest ts) q k l f g = subst (λ x. Follows (k ts) (onward x l)) (sym f) (g ts)
Follows-onward bad q k l f g = tt
Follows-onward out q k l f g = tt

-- Under a test that both make.
Follows-if :
    (b : Bool) (p q : Parsed) → Follows p q → Follows (if b then bad else p) (if b then bad else q)
unfolding Follows
Follows-if true p q f = tt
Follows-if false p q f = f

Follows-more :
    (b : Bool) (p q r : Parsed) → Follows p q → Follows (if b then p else r) (if b then q else r)
Follows-more true p q r f = f
Follows-more false p q r f = Follows-refl r

Follows-child :
    (child : Option Shape) (p : Shape → Parsed) (q : Parsed)
    → ((s : Shape) → Follows (p s) q)
    → Follows (elim child [ none ↦ bad | some s ↦ p s ]) q
unfolding Follows
Follows-child none p q f = tt
Follows-child (some s) p q f = f s

Follows-null : (b : Bool) (ts : List Token) → Follows (if b then rest ts else bad) (rest ts)
unfolding Follows
Follows-null true ts = refl
Follows-null false ts = tt

check-Follows :
    (fuel : ℕ) (spot : Spot) (depth : ℕ) (ts : List Token)
    → Follows (check fuel spot depth ts) (scan fuel (erase spot) depth ts)
unfolding check scan erase Follows
check-Follows zero spot depth ts = tt
check-Follows (suc fuel) (at_value s) depth [] = tt
check-Follows (suc fuel) (at_value s) depth (open_object ∷ ts) =
    Follows-if (ltb 32 depth) _ _ (check-Follows fuel (at_members (pointed s) []) depth ts)
check-Follows (suc fuel) (at_value s) depth (open_array ∷ ts) =
    Follows-if (ltb 32 depth) _ _ (check-Follows fuel (at_items (element_of (pointed s))) depth ts)
check-Follows (suc fuel) (at_value s) depth (text x ∷ ts) = Follows-refl _
check-Follows (suc fuel) (at_value s) depth (null ∷ ts) =
    Follows-if (ltb 32 depth) _ _ (Follows-null (null_fits s) ts)
check-Follows (suc fuel) (at_value s) depth (other ∷ ts) = Follows-refl _
check-Follows (suc fuel) (at_value s) depth (close ∷ ts) = tt
check-Follows (suc fuel) (at_value s) depth (broken ∷ ts) = tt
check-Follows (suc fuel) (at_members s seen) depth [] = tt
check-Follows (suc fuel) (at_members s seen) depth (close ∷ ts) = refl
check-Follows (suc fuel) (at_members s seen) depth (text name ∷ ts) =
    Follows-if (contains seen name) _ _ (
      Follows-child (child_of s name) _ _ (λ child.
        Follows-onward (check fuel (at_value child) (suc depth) ts) (scan fuel value (suc depth) ts)
          _ _ (check-Follows fuel (at_value child) (suc depth) ts)
          (λ left. check-Follows fuel (at_members s (name ∷ seen)) depth left)))
check-Follows (suc fuel) (at_members s seen) depth (open_object ∷ ts) = tt
check-Follows (suc fuel) (at_members s seen) depth (open_array ∷ ts) = tt
check-Follows (suc fuel) (at_members s seen) depth (null ∷ ts) = tt
check-Follows (suc fuel) (at_members s seen) depth (other ∷ ts) = tt
check-Follows (suc fuel) (at_members s seen) depth (broken ∷ ts) = tt
check-Follows (suc fuel) (at_items s) depth ts = Follows-more (more ts) _ _ (closed ts) (
    Follows-onward (check fuel (at_value s) (suc depth) ts) (scan fuel value (suc depth) ts) _ _
      (check-Follows fuel (at_value s) (suc depth) ts)
      (λ left. check-Follows fuel (at_items s) depth left))

-- `verdict` backwards.
good-both :
    (a b : Bool) (ts us : List Token)
    → (if a && b then rest ts else bad) ≡ rest us
    → (a ≡ true) × (b ≡ true)
good-both true true ts us h = (refl, refl)
good-both true false ts us h = absurd cc
good-both false b ts us h = absurd cc

-- When the check accepts the tokens of a JSON value, for whatever type, then the value nests at most
-- 32 deep and none of its objects, at any depth and in what the type leaves open too, has two
-- members of one name.
pub check_json-unambiguous :
    (s : Shape) (v : Json)
    → check_json s (print v []) ≡ rest []
    → (leb (height v) 32 ≡ true) × (unambiguous v ≡ true)
unfolding check_json unique_json erase
check_json-unambiguous s v h = good-both (leb (height v) 32) (unambiguous v) [] [] (
    sym (unique_json-print v)
    ∙ Follows-rest (check_json s (print v [])) (unique_json (print v [])) []
        (check-Follows (suc (2 * length (print v []))) (at_value s) 0 (print v [])) h)
