-- ===== src/Core/Id.antt =====
-- key.go: `NewID` and `KeyID.Valid`. An id is its byte string.
pub mod Format
use Prim.Native.Nat.{bit_and, bit_or}
use transeuroogs_kms.Common.{
  ℕ, zero, suc, ◌+◌, ◌-◌, ◌*◌, ◌/◌, ◌%◌, Bool, true, false, not, ◌&&◌, Option, none, some, List, [],
  ◌∷◌, ◌++◌, map, Text, text_eq_instance, ◌==◌, nat_eq, leb, ltb, length, if◌then◌else◌,
}

abbrev pub KeyId : Type 0
KeyId = Text

-- `%x` of a byte.
abbrev pub dash : ℕ
dash = b'-'

hex_digit : ℕ → ℕ
hex_digit n = if ltb n 10 then 48 + n else 87 + n

hex : List ℕ → Text
hex [] = []
hex (b ∷ bs) = hex_digit (b / 16) ∷ hex_digit (b % 16) ∷ hex bs

-- The sixteen random bytes `b`, the version and the variant set.
stamped : (ℕ → ℕ) → ℕ → ℕ
stamped b i =
    if nat_eq i 6
    then bit_or (bit_and (b 6) 0x0f) 0x40
    else if nat_eq i 8
    then bit_or (bit_and (b 8) 0x3f) 0x80
    else b i

unfoldable pub new_id : (ℕ → ℕ) → KeyId
unfolding stamped hex hex_digit
new_id b =
    let c = stamped b in
    hex (c 0 ∷ c 1 ∷ c 2 ∷ c 3 ∷ [])
    ++ (dash
        ∷ (hex (c 4 ∷ c 5 ∷ [])
            ++ (dash
                ∷ (hex (c 6 ∷ c 7 ∷ [])
                    ++ (dash
                        ∷ (hex (c 8 ∷ c 9 ∷ [])
                            ++ (dash ∷ hex (c 10 ∷ c 11 ∷ c 12 ∷ c 13 ∷ c 14 ∷ c 15 ∷ []))))))))

-- `strings.ToLower` on ASCII; an id with any other byte is refused by the hex decoder anyway.
lower_byte : ℕ → ℕ
lower_byte c = if leb b'A' c && leb c b'Z' then c + 32 else c

to_lower : Text → Text
to_lower = map lower_byte

-- `s[i]`, where the length has been tested.
byte_at : Text → ℕ → ℕ
byte_at [] i = 0
byte_at (c ∷ s) zero = c
byte_at (c ∷ s) (suc i) = byte_at s i

-- `strings.ReplaceAll(s, "-", "")`
without_dashes : Text → Text
without_dashes [] = []
without_dashes (c ∷ s) = let rest = without_dashes s in if nat_eq c dash then rest else c ∷ rest

-- A digit of either case, as `hex.DecodeString` reads it.
hex_value : ℕ → Option ℕ
hex_value c =
    if leb b'0' c && leb c b'9'
    then some (c - 48)
    else if leb b'a' c && leb c b'f'
    then some (c - 87)
    else if leb b'A' c && leb c b'F'
    then some (c - 55)
    else none

pair_value : Option ℕ → Option ℕ → Option (List ℕ) → Option (List ℕ)
pair_value (some h) (some l) (some rest) = some ((h * 16 + l) ∷ rest)
pair_value _ _ _ = none

hex_decode : Text → Option (List ℕ)
hex_decode [] = some []
hex_decode (c ∷ []) = none
hex_decode (c ∷ d ∷ s) = pair_value (hex_value c) (hex_value d) (hex_decode s)

version_4 : Option (List ℕ) → Bool
unfolding byte_at
version_4 none = false
version_4 (some b) =
    nat_eq (length b) 16 && nat_eq (byte_at b 6 / 16) 4 && nat_eq (byte_at b 8 / 64) 2

unfoldable pub valid_id : KeyId → Bool
unfolding to_lower lower_byte byte_at without_dashes hex_value pair_value hex_decode version_4
valid_id s =
    nat_eq (length s) 36
    && s == to_lower s
    && nat_eq (byte_at s 8) dash
    && nat_eq (byte_at s 13) dash
    && nat_eq (byte_at s 18) dash
    && nat_eq (byte_at s 23) dash
    && version_4 (hex_decode (without_dashes s))
