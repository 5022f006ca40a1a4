-- ===== src/Core/Key.antt =====
-- key.go: the states of a key, associations, keys and their validation, deliveries.
use transeuroogs_kms.Common.{
  ℕ, ◌*◌, ◌≡◌, ◌↔◌, Bool, true, false, not, ◌&&◌, ◌||◌, Option, none, some, List, [], ◌∷◌, Text,
  text_eq_iff, text_eq_instance, ◌==◌, Eq, nat_eq, leb, ltb, length, arith, if◌then◌else◌,
}
use mathlib.Core.List.{reverse}
use transeuroogs_kms.Core.Id.{KeyId, valid_id}
use transeuroogs_kms.Core.Errors.{Error, invalid}

abbrev pub key_bits : ℕ
key_bits = 256

abbrev pub max_batch : ℕ
max_batch = 128

pub data State : Type 0 where
  available reserved consumed invalidated expired : State

unfoldable pub terminal : State → Bool
terminal consumed = true
terminal invalidated = true
terminal expired = true
terminal _ = false

-- `==` of two states
unfoldable pub state_eq : State → State → Bool
state_eq available available = true
state_eq reserved reserved = true
state_eq consumed consumed = true
state_eq invalidated invalidated = true
state_eq expired expired = true
state_eq _ _ = false

pub record Association : Type 0 where
  pub master : Text
  pub slave : Text

unfoldable pub association_eq : Association → Association → Bool
association_eq a b = a.master == b.master && a.slave == b.slave

pub association_eq_iff : (a b : Association) → (association_eq a b ≡ true) ↔ (a ≡ b)
unfolding association_eq
association_eq_iff a b = ground (arith, text_eq_iff a.master b.master, text_eq_iff a.slave b.slave)

instance abbrev pub association_eq_instance : Eq Association
association_eq_instance = record { test = association_eq; test_iff = association_eq_iff }

-- The spaces that `strings.TrimSpace` removes, in UTF-8.
ascii_space : ℕ → Bool
ascii_space c = (leb 9 c && leb c 13) || nat_eq c 32

two_byte_space : ℕ → ℕ → Bool
two_byte_space c d = nat_eq c 0xc2 && (nat_eq d 0x85 || nat_eq d 0xa0)

three_byte_space : ℕ → ℕ → ℕ → Bool
three_byte_space c d f =
    (nat_eq c 0xe1 && nat_eq d 0x9a && nat_eq f 0x80)
    || (nat_eq c 0xe2
        && nat_eq d 0x80
        && ((leb 0x80 f && leb f 0x8a) || nat_eq f 0xa8 || nat_eq f 0xa9 || nat_eq f 0xaf))
    || (nat_eq c 0xe2 && nat_eq d 0x81 && nat_eq f 0x9f)
    || (nat_eq c 0xe3 && nat_eq d 0x80 && nat_eq f 0x80)

leads_space : Text → Bool
unfolding ascii_space two_byte_space three_byte_space
leads_space [] = false
leads_space (c ∷ []) = ascii_space c
leads_space (c ∷ d ∷ []) = ascii_space c || two_byte_space c d
leads_space (c ∷ d ∷ f ∷ s) = ascii_space c || two_byte_space c d || three_byte_space c d f

-- The same at the end, on the reversed text.
trails_space : Text → Bool
unfolding ascii_space two_byte_space three_byte_space
trails_space [] = false
trails_space (c ∷ []) = ascii_space c
trails_space (c ∷ d ∷ []) = ascii_space c || two_byte_space d c
trails_space (c ∷ d ∷ f ∷ s) = ascii_space c || two_byte_space d c || three_byte_space f d c

-- `strings.TrimSpace(s) == s`
trimmed : Text → Bool
unfolding leads_space trails_space
trimmed s = not (leads_space s) && not (trails_space (reverse s))

-- `strings.ContainsAny(s, "\r\n\x00")`
has_control : Text → Bool
has_control [] = false
has_control (c ∷ s) = nat_eq c 13 || nat_eq c 10 || nat_eq c 0 || has_control s

unfoldable pub valid_name : Text → Bool
unfolding trimmed has_control
valid_name s = ltb 0 (length s) && leb (length s) 128 && trimmed s && not (has_control s)

unfoldable pub valid_association : Association → Bool
unfolding valid_name
valid_association a = valid_name a.master && valid_name a.slave && not (a.master == a.slave)

-- A time is a number of nanoseconds; 0 is the zero time.
pub record Key : Type 0 where
  pub id : KeyId
  pub material : List ℕ
  pub association : Association
  pub source : Text
  pub created_at : ℕ
  pub expires_at : ℕ

-- `none` is a nil error.
unfoldable pub validate : Key → ℕ → Option Error
validate k now =
    if not (valid_id k.id)
      || not (nat_eq (length k.material * 8) key_bits)
      || not (valid_association k.association)
      || not (valid_name k.source)
      || nat_eq k.created_at 0
      || ltb now k.created_at
      || not (ltb now k.expires_at)
      || not (ltb k.created_at k.expires_at)
    then some invalid
    else none

pub record Delivery : Type 0 where
  pub id : KeyId
  pub material : List ℕ

pub record Metadata : Type 0 where
  pub id : KeyId
  pub association : Association
  pub source : Text
  pub created_at : ℕ
  pub expires_at : ℕ
  pub master_state : State
  pub slave_state : State

pub record Reservation : Type 0 where
  pub token : KeyId
  pub ids : List KeyId

pub record Inventory : Type 0 where
  pub available : ℕ
  pub capacity : ℕ
