-- ===== src/Etsi014/Json.antt =====
-- validation.go: `uniqueJSON` over the tokens of the library's decoder.
pub mod Tree
pub mod Scan
pub mod Accepts
use transeuroogs_kms.Common.{
  ℕ, zero, suc, ◌+◌, ◌*◌, Bool, true, false, List, [], ◌∷◌, Text, text_eq_instance, contains, ltb,
  length, if◌then◌else◌,
}

-- What a call of `Token` gives: a delimiter, a text, a null, any other value, or an error. At the end of
-- the list every call gives an error. The decoder sees to it that a bracket closes its own kind.
pub data Token : Type 0 where
  open_object open_array close : Token
  text : Text → Token
  null other broken : Token

-- The rest of the tokens, or an error; `out` only when the fuel runs out.
pub data Parsed : Type 0 where
  rest : List Token → Parsed
  bad out : Parsed

-- Where the code stands: before a value, or in the loop of an object or of an array.
pub data Place : Type 0 where
  value items : Place
  members : List Text → Place

unfoldable pub onward : Parsed → (List Token → Parsed) → Parsed
onward (rest ts) k = k ts
onward bad k = bad
onward out k = out

-- `d.More()`
unfoldable pub more : List Token → Bool
more [] = false
more (close ∷ ts) = false
more (t ∷ ts) = true

-- The last call of `Token`.
unfoldable pub closed : List Token → Parsed
closed [] = bad
closed (t ∷ ts) = rest ts

unfoldable pub scan : ℕ → Place → ℕ → List Token → Parsed
unfolding onward more closed
scan zero place depth ts = out
scan (suc fuel) value depth [] = bad
scan (suc fuel) value depth (open_object ∷ ts) =
    let inside = scan fuel (members []) depth ts in if ltb 32 depth then bad else inside
scan (suc fuel) value depth (open_array ∷ ts) =
    let inside = scan fuel items depth ts in if ltb 32 depth then bad else inside
scan (suc fuel) value depth (text s ∷ ts) = if ltb 32 depth then bad else rest ts
scan (suc fuel) value depth (null ∷ ts) = if ltb 32 depth then bad else rest ts
scan (suc fuel) value depth (other ∷ ts) = if ltb 32 depth then bad else rest ts
scan (suc fuel) value depth (close ∷ ts) = bad
scan (suc fuel) value depth (broken ∷ ts) = bad
scan (suc fuel) (members seen) depth [] = bad
scan (suc fuel) (members seen) depth (close ∷ ts) = rest ts
scan (suc fuel) (members seen) depth (text name ∷ ts) =
    let inside =
      onward (scan fuel value (suc depth) ts)
        (λ left. scan fuel (members (name ∷ seen)) depth left) in
    if contains seen name then bad else inside
scan (suc fuel) (members seen) depth (open_object ∷ ts) = bad
scan (suc fuel) (members seen) depth (open_array ∷ ts) = bad
scan (suc fuel) (members seen) depth (null ∷ ts) = bad
scan (suc fuel) (members seen) depth (other ∷ ts) = bad
scan (suc fuel) (members seen) depth (broken ∷ ts) = bad
scan (suc fuel) items depth ts =
    let inside = onward (scan fuel value (suc depth) ts) (λ left. scan fuel items depth left) in
    if more ts then inside else closed ts

-- `uniqueJSON(d, 0)`
unfoldable pub unique_json : List Token → Parsed
unfolding scan
unique_json ts = scan (suc (2 * length ts)) value 0 ts
