-- ===== src/Etsi014/Json/Tree.antt =====
-- A JSON value and its tokens, and what a careful reader asks of it.
use transeuroogs_kms.Common.{
  ℕ, suc, Bool, true, not, ◌&&◌, List, [], ◌∷◌, Text, text_eq_instance, contains, ltb,
  if◌then◌else◌,
}
use transeuroogs_kms.Etsi014.Json.{Token, open_object, open_array, close, text, null, other}

mutual
  pub data Json : Type 0 where
    atom nothing : Json
    string : Text → Json
    array : Items → Json
    object : Members → Json

  pub data Items : Type 0 where
    no_item : Items
    item : Json → Items → Items

  pub data Members : Type 0 where
    no_member : Members
    member : Text → Json → Members → Members

-- The tokens of a value, before the tokens that follow.
unfoldable mutual
  pub print : Json → List Token → List Token
  print atom ts = other ∷ ts
  print nothing ts = null ∷ ts
  print (string s) ts = text s ∷ ts
  print (array vs) ts = open_array ∷ print_items vs ts
  print (object ms) ts = open_object ∷ print_members ms ts

  pub print_items : Items → List Token → List Token
  print_items no_item ts = close ∷ ts
  print_items (item v vs) ts = print v (print_items vs ts)

  pub print_members : Members → List Token → List Token
  print_members no_member ts = close ∷ ts
  print_members (member name v ms) ts = text name ∷ print v (print_members ms ts)

unfoldable pub max : ℕ → ℕ → ℕ
max a b = if ltb a b then b else a

-- How deep the value nests.
unfoldable mutual
  unfolding max

  pub height : Json → ℕ
  height atom = 0
  height nothing = 0
  height (string s) = 0
  height (array vs) = height_items vs
  height (object ms) = height_members ms

  pub height_items : Items → ℕ
  height_items no_item = 0
  height_items (item v vs) = max (suc (height v)) (height_items vs)

  pub height_members : Members → ℕ
  height_members no_member = 0
  height_members (member name v ms) = max (suc (height v)) (height_members ms)

unfoldable pub names : Members → List Text
names no_member = []
names (member name v ms) = name ∷ names ms

unfoldable pub distinct : List Text → Bool
distinct [] = true
distinct (x ∷ xs) = not (contains xs x) && distinct xs

-- No object of the value, at any depth, has two members of one name.
unfoldable mutual
  unfolding distinct names

  pub unambiguous : Json → Bool
  unambiguous atom = true
  unambiguous nothing = true
  unambiguous (string s) = true
  unambiguous (array vs) = unambiguous_items vs
  unambiguous (object ms) = distinct (names ms) && unambiguous_members ms

  pub unambiguous_items : Items → Bool
  unambiguous_items no_item = true
  unambiguous_items (item v vs) = unambiguous v && unambiguous_items vs

  pub unambiguous_members : Members → Bool
  unambiguous_members no_member = true
  unambiguous_members (member name v ms) = unambiguous v && unambiguous_members ms
