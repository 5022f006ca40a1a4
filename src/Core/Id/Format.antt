-- ===== src/Core/Id/Format.antt =====
-- What `NewID` makes is what `Valid` accepts.
use Prim.Native.Nat.{bit_and, bit_or}
use transeuroogs_kms.Common.{
  ℕ, zero, suc, ◌<◌, ◌/◌, ◌%◌, ◌≡◌, refl, Bool, true, false, ◌&&◌, some, List, [], ◌∷◌, ◌++◌, arith,
  All, nat_eq, ltb, text_eq_refl, ap, Text, map,
}
use transeuroogs_kms.Core.Id.{
  dash, hex_digit, hex, stamped, new_id, valid_id, lower_byte, to_lower, without_dashes, hex_value,
  pair_value, hex_decode, version_4, byte_at,
}

-- A test on every number under a bound.
holds_under : (ℕ → Bool) → ℕ → Bool
holds_under good zero = true
holds_under good (suc k) = holds_under good k && good k

holds_under_at : (good : ℕ → Bool) (k b : ℕ) → holds_under good k ≡ true → b < k → good b ≡ true
unfolding holds_under
holds_under_at good zero b all small = absurd (omega arith)
holds_under_at good (suc k) b all small = ground (arith, holds_under_at good k b)

version_byte : ℕ → ℕ
version_byte b = bit_or (bit_and b 0x0f) 0x40

variant_byte : ℕ → ℕ
variant_byte b = bit_or (bit_and b 0x3f) 0x80

version_table :
    holds_under (λ b. ltb (version_byte b) 256 && nat_eq (version_byte b / 16) 4) 256 ≡ true
unfolding holds_under version_byte
version_table = refl

variant_table :
    holds_under (λ b. ltb (variant_byte b) 256 && nat_eq (variant_byte b / 64) 2) 256 ≡ true
unfolding holds_under variant_byte
variant_table = refl

version_bits : (b : ℕ) → b < 256 → (version_byte b < 256) × (version_byte b / 16 ≡ 4)
version_bits b h = ground (arith, holds_under_at _ 256 b version_table h)

variant_bits : (b : ℕ) → b < 256 → (variant_byte b < 256) × (variant_byte b / 64 ≡ 2)
variant_bits b h = ground (arith, holds_under_at _ 256 b variant_table h)

stamped-lt : (b : ℕ → ℕ) → ((i : ℕ) → b i < 256) → (i : ℕ) → stamped b i < 256
unfolding stamped version_byte variant_byte
stamped-lt b h i = ground (arith, h i, version_bits (b 6) (h 6), variant_bits (b 8) (h 8))

stamped_version : (b : ℕ → ℕ) → ((i : ℕ) → b i < 256) → stamped b 6 / 16 ≡ 4
unfolding stamped version_byte
stamped_version b h = (version_bits (b 6) (h 6)).1

stamped_variant : (b : ℕ → ℕ) → ((i : ℕ) → b i < 256) → stamped b 8 / 64 ≡ 2
unfolding stamped variant_byte
stamped_variant b h = (variant_bits (b 8) (h 8)).1

hex_value-hex_digit : (n : ℕ) → n < 16 → hex_value (hex_digit n) ≡ some n
unfolding hex_value hex_digit
hex_value-hex_digit n h = ground arith

lower_byte-hex_digit : (n : ℕ) → n < 16 → lower_byte (hex_digit n) ≡ hex_digit n
unfolding lower_byte hex_digit
lower_byte-hex_digit n h = ground arith

hex_digit-ne-dash : (n : ℕ) → nat_eq (hex_digit n) dash ≡ false
unfolding hex_digit
hex_digit-ne-dash n = ground arith

IsBytes : List ℕ → Type 0
IsBytes = All (λ b. b < 256)

to_lower-hex :
    (bs : List ℕ) (s : Text) → IsBytes bs → to_lower s ≡ s → to_lower (hex bs ++ s) ≡ hex bs ++ s
unfolding hex to_lower IsBytes
to_lower-hex [] s h e = e
to_lower-hex (b ∷ bs) s h e = cc (
  lower_byte-hex_digit (b / 16) (omega arith),
  lower_byte-hex_digit (b % 16) (omega arith),
  to_lower-hex bs s h.1 e,
)

without_dashes-hex :
    (bs : List ℕ) (s : Text) → without_dashes (hex bs ++ s) ≡ hex bs ++ without_dashes s
unfolding hex without_dashes
without_dashes-hex [] s = refl
without_dashes-hex (b ∷ bs) s =
    rw (hex_digit-ne-dash (b / 16), hex_digit-ne-dash (b % 16)) (rw (without_dashes-hex bs s))

hex_decode-hex : (bs : List ℕ) → IsBytes bs → hex_decode (hex bs) ≡ some bs
unfolding hex hex_decode pair_value IsBytes
hex_decode-hex [] h = refl
hex_decode-hex (b ∷ bs) h =
    rw
      (
        hex_value-hex_digit (b / 16) (omega arith),
        hex_value-hex_digit (b % 16) (omega arith),
        hex_decode-hex bs h.1,
      )
      (ap (λ x. some (x ∷ bs)) (omega arith))

module _ (b : ℕ → ℕ) (h : (i : ℕ) → b i < 256) where
  bound : (i : ℕ) → stamped b i < 256
  bound = stamped-lt b h

  bound_all : (is : List ℕ) → IsBytes (map (stamped b) is)
  unfolding IsBytes
  bound_all [] = tt
  bound_all (i ∷ is) = (bound i, bound_all is)

  group : List ℕ → Text
  group is = hex (map (stamped b) is)

  to_lower-group :
      (is : List ℕ) (s : Text)
      → to_lower s ≡ s
      → to_lower (group is ++ dash ∷ s) ≡ group is ++ dash ∷ s
  unfolding group
  to_lower-group is s e =
      to_lower-hex (map (stamped b) is) (dash ∷ s) (bound_all is)
        (unfold to_lower lower_byte in ap (◌∷◌ dash) e)

  to_lower-last : (is : List ℕ) → to_lower (group is ++ []) ≡ group is ++ []
  unfolding group
  to_lower-last is = to_lower-hex _ [] (bound_all is) (unfold to_lower in refl)

  to_lower-new_id : to_lower (new_id b) ≡ new_id b
  unfolding new_id group
  to_lower-new_id = to_lower-group (0 ∷ 1 ∷ 2 ∷ 3 ∷ []) _ (
      to_lower-group (4 ∷ 5 ∷ []) _ (
        to_lower-group (6 ∷ 7 ∷ []) _
          (to_lower-group (8 ∷ 9 ∷ []) _ (to_lower-last (10 ∷ 11 ∷ 12 ∷ 13 ∷ 14 ∷ 15 ∷ [])))))

  abbrev indices : List ℕ
  indices = 0 ∷ 1 ∷ 2 ∷ 3 ∷ 4 ∷ 5 ∷ 6 ∷ 7 ∷ 8 ∷ 9 ∷ 10 ∷ 11 ∷ 12 ∷ 13 ∷ 14 ∷ 15 ∷ []

  stamped_bytes : List ℕ
  stamped_bytes = map (stamped b) indices

  without_dashes-new_id : without_dashes (new_id b) ≡ hex stamped_bytes
  unfolding new_id stamped_bytes without_dashes hex
  without_dashes-new_id = simp hex_digit-ne-dash

  hex_decode-new_id : hex_decode (without_dashes (new_id b)) ≡ some stamped_bytes
  unfolding stamped_bytes
  hex_decode-new_id = rw without_dashes-new_id (hex_decode-hex stamped_bytes (bound_all indices))

  version_4-stamped_bytes : version_4 (some stamped_bytes) ≡ true
  unfolding version_4 stamped_bytes byte_at
  version_4-stamped_bytes = ground (arith, stamped_version b h, stamped_variant b h)

  -- Whatever the random bytes, `NewID` returns an id that `Valid` accepts.
  pub valid_id-new_id : valid_id (new_id b) ≡ true
  unfolding valid_id
  valid_id-new_id =
      rw (to_lower-new_id, text_eq_refl (new_id b), hex_decode-new_id, version_4-stamped_bytes)
        (unfold new_id byte_at in refl)
