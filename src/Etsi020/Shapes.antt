-- ===== src/Etsi020/Shapes.antt =====
-- http.go: `checkJSON` over the tokens of the library's decoder, with the type that the text is for.
use transeuroogs_kms.Common.{
  ℕ, zero, suc, ◌*◌, Bool, true, false, Option, none, some, List, [], ◌∷◌, Text, ◌==◌,
  text_eq_instance, contains, ltb, length, if◌then◌else◌,
}
use transeuroogs_kms.Etsi014.Json.{
  Token, open_object, open_array, close, text, null, other, broken, Parsed, rest, bad, out, onward,
  more, closed,
}

-- What the check looks at of a type: `untyped` for no type, the members of a struct by their JSON
-- names, the elements of a slice, what a pointer points to; any other type is `plain`.
mutual
  pub data Shape : Type 0 where
    untyped plain : Shape
    slice pointer : Shape → Shape
    struct : Fields → Shape

  pub data Fields : Type 0 where
    no_field : Fields
    field : Text → Shape → Fields → Fields

unfoldable pub pointed : Shape → Shape
pointed (pointer s) = s
pointed s = s

unfoldable pub find : Text → Fields → Option Shape
find name no_field = none
find name (field n s fs) = let later = find name fs in if n == name then some s else later

-- The type of a member: an error for a member that a struct does not have.
unfoldable pub child_of : Shape → Text → Option Shape
unfolding find
child_of (struct fs) name = find name fs
child_of s name = some untyped

unfoldable pub element_of : Shape → Shape
element_of (slice s) = s
element_of s = untyped

unfoldable pub null_fits : Shape → Bool
null_fits untyped = true
null_fits s = false

-- Where the code stands, with the type there.
pub data Spot : Type 0 where
  at_value at_items : Shape → Spot
  at_members : Shape → List Text → Spot

unfoldable pub check : ℕ → Spot → ℕ → List Token → Parsed
unfolding pointed child_of element_of null_fits onward more closed
check zero spot depth ts = out
check (suc fuel) (at_value s) depth [] = bad
check (suc fuel) (at_value s) depth (open_object ∷ ts) =
    let inside = check fuel (at_members (pointed s) []) depth ts in
    if ltb 32 depth then bad else inside
check (suc fuel) (at_value s) depth (open_array ∷ ts) =
    let inside = check fuel (at_items (element_of (pointed s))) depth ts in
    if ltb 32 depth then bad else inside
check (suc fuel) (at_value s) depth (text x ∷ ts) = if ltb 32 depth then bad else rest ts
check (suc fuel) (at_value s) depth (null ∷ ts) =
    if ltb 32 depth then bad else if null_fits s then rest ts else bad
check (suc fuel) (at_value s) depth (other ∷ ts) = if ltb 32 depth then bad else rest ts
check (suc fuel) (at_value s) depth (close ∷ ts) = bad
check (suc fuel) (at_value s) depth (broken ∷ ts) = bad
check (suc fuel) (at_members s seen) depth [] = bad
check (suc fuel) (at_members s seen) depth (close ∷ ts) = rest ts
check (suc fuel) (at_members s seen) depth (text name ∷ ts) =
    let inside = λ (child : Shape).
      onward (check fuel (at_value child) (suc depth) ts)
        (λ left. check fuel (at_members s (name ∷ seen)) depth left) in
    if contains seen name
    then bad
    else elim (child_of s name) [ none ↦ bad | some child ↦ inside child ]
check (suc fuel) (at_members s seen) depth (open_object ∷ ts) = bad
check (suc fuel) (at_members s seen) depth (open_array ∷ ts) = bad
check (suc fuel) (at_members s seen) depth (null ∷ ts) = bad
check (suc fuel) (at_members s seen) depth (other ∷ ts) = bad
check (suc fuel) (at_members s seen) depth (broken ∷ ts) = bad
check (suc fuel) (at_items s) depth ts =
    let inside =
      onward (check fuel (at_value s) (suc depth) ts)
        (λ left. check fuel (at_items s) depth left) in
    if more ts then inside else closed ts

-- `checkJSON(d, typ, 0)`
unfoldable pub check_json : Shape → List Token → Parsed
unfolding check
check_json s ts = check (suc (2 * length ts)) (at_value s) 0 ts
