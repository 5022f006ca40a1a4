-- ===== src/Etsi020/Base64.antt =====
-- Standard base64 with padding, as `EncodeToString` writes it and the strict decoder reads it.
-- The decoder of the library skips line breaks; a value with one is refused by the comparison
-- with its encoding that follows every strict decoding of the program.
use transeuroogs_kms.Common.{
  ℕ, ◌+◌, ◌-◌, ◌*◌, ◌/◌, ◌%◌, ◌&&◌, Option, none, some, List, [], ◌∷◌, Text, leb, ltb, nat_eq,
  if◌then◌else◌,
}

-- The character of six bits.
unfoldable pub sextet_char : ℕ → ℕ
sextet_char n =
    if ltb n 26
    then 65 + n
    else if ltb n 52
    then 71 + n
    else if ltb n 62
    then n - 4
    else if nat_eq n 62
    then 43
    else 47

unfoldable pub encode : List ℕ → Text
unfolding sextet_char
encode [] = []
encode (a ∷ []) = sextet_char (a / 4) ∷ sextet_char (a % 4 * 16) ∷ 61 ∷ 61 ∷ []
encode (a ∷ b ∷ []) =
    sextet_char (a / 4) ∷ sextet_char (a % 4 * 16 + b / 16) ∷ sextet_char (b % 16 * 4) ∷ 61 ∷ []
encode (a ∷ b ∷ c ∷ rest) =
    sextet_char (a / 4)
    ∷ sextet_char (a % 4 * 16 + b / 16)
    ∷ sextet_char (b % 16 * 4 + c / 64)
    ∷ sextet_char (c % 64)
    ∷ encode rest

unfoldable pub char_sextet : ℕ → Option ℕ
char_sextet c =
    if leb 65 c && leb c 90
    then some (c - 65)
    else if leb 97 c && leb c 122
    then some (c - 71)
    else if leb 48 c && leb c 57
    then some (c + 4)
    else if nat_eq c 43
    then some 62
    else if nat_eq c 47
    then some 63
    else none

unfoldable pub full_group :
    Option ℕ → Option ℕ → Option ℕ → Option ℕ → Option (List ℕ) → Option (List ℕ)
full_group (some a) (some b) (some c) (some d) (some rest) =
    some ((a * 4 + b / 16) ∷ (b % 16 * 16 + c / 4) ∷ (c % 4 * 64 + d) ∷ rest)
full_group _ _ _ _ _ = none

-- The strict decoder refuses trailing bits that are not zero.
unfoldable pub two_bytes : Option ℕ → Option ℕ → Option ℕ → Option (List ℕ)
two_bytes (some a) (some b) (some c) =
    if nat_eq (c % 4) 0 then some ((a * 4 + b / 16) ∷ (b % 16 * 16 + c / 4) ∷ []) else none
two_bytes _ _ _ = none

unfoldable pub one_byte : Option ℕ → Option ℕ → Option (List ℕ)
one_byte (some a) (some b) = if nat_eq (b % 16) 0 then some ((a * 4 + b / 16) ∷ []) else none
one_byte _ _ = none

-- The last group of four characters.
unfoldable pub last_group : ℕ → ℕ → ℕ → ℕ → Option (List ℕ)
unfolding char_sextet two_bytes one_byte full_group
last_group a b c d =
    if nat_eq c 61 && nat_eq d 61
    then one_byte (char_sextet a) (char_sextet b)
    else if nat_eq d 61
    then two_bytes (char_sextet a) (char_sextet b) (char_sextet c)
    else full_group (char_sextet a) (char_sextet b) (char_sextet c) (char_sextet d) (some [])

unfoldable pub decode : Text → Option (List ℕ)
unfolding last_group
decode [] = some []
decode (a ∷ b ∷ c ∷ d ∷ []) = last_group a b c d
decode (a ∷ b ∷ c ∷ d ∷ e ∷ rest) =
    full_group (char_sextet a) (char_sextet b) (char_sextet c) (char_sextet d) (decode (e ∷ rest))
decode _ = none
