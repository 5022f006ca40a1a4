-- ===== src/Storage/Stocked.antt =====
-- A memory repository that holds one key, for the tests.
use transeuroogs_kms.Common.{
  ℕ, zero, suc, ◌≡◌, refl, true, some, List, [], ◌∷◌, arith, ascii, text_eq, text_eq_instance, All,
  count,
}
use transeuroogs_kms.Common.Dict.{lookup, insert}
use transeuroogs_kms.Core.Id.{KeyId, valid_id}
use transeuroogs_kms.Core.Key.{
  Key, Association, valid_association, validate, association_eq, association_eq_instance,
  valid_name,
}
use transeuroogs_kms.Storage.{Memory, store_key, inventory, expire, offers, expire_all, new_entry}
use transeuroogs_kms.Core.Token.{fresh_token}
use transeuroogs_kms.Storage.Invariant.{Inv}
use transeuroogs_kms.Storage.Scan.{firsts, offered}
use transeuroogs_kms.Storage.Lapse.{fresh_at}
use transeuroogs_kms.Storage.Reserve.{picks}
use transeuroogs_kms.Storage.Progress.{store_key-Progress}
use transeuroogs_kms.Storage.Guarantees.{LivesAt}

abbrev pub id_1 : KeyId
id_1 = ascii "00112233-4455-4677-8899-aabbccddeeff"

abbrev pub token_1 : KeyId
token_1 = ascii "10112233-4455-4677-8899-aabbccddeeff"

abbrev pub pair_1 : Association
pair_1 = record { master = ascii "alice"; slave = ascii "bob" }

unfoldable pub repeat : ℕ → ℕ → List ℕ
repeat zero b = []
repeat (suc n) b = b ∷ repeat n b

abbrev pub key_1 : Key
unfolding repeat
key_1 = record {
  id = id_1;
  material = repeat 32 7;
  association = pair_1;
  source = ascii "qkd";
  created_at = 1;
  expires_at = 100;
}

abbrev pub empty : Memory
empty = record { capacity = 4; entries = []; order = []; reservations = [] }

pub empty-Inv : Inv empty
empty-Inv = record { ordered = refl; distinct = tt; bounded = omega arith; sound = tt; held = tt }

unfoldable pub stocked : Memory
stocked = (store_key empty key_1 2).0

pub stocked-Inv : Inv stocked
unfolding stocked
stocked-Inv = (store_key-Progress empty key_1 2 empty-Inv).inv

pub pair_valid : valid_association pair_1 ≡ true
unfolding valid_association text_eq
pair_valid = refl

pub drawn_1 : fresh_token (token_1 ∷ []) stocked.reservations ≡ some token_1
unfolding fresh_token stocked lookup store_key validate valid_id valid_association valid_name repeat
    text_eq
drawn_1 = refl

pub stock_1 : (inventory stocked pair_1 3).1.available ≡ 1
unfolding inventory expire_all expire offers count association_eq stocked lookup insert store_key
    validate valid_id valid_association valid_name repeat text_eq new_entry
stock_1 = refl

pub lives_1 : All (LivesAt 4 stocked.entries) (picks stocked pair_1 1 3)
unfolding firsts offered fresh_at expire offers association_eq stocked lookup insert store_key
    validate valid_id valid_association valid_name repeat text_eq new_entry
lives_1 = (λ e h. ground arith, tt)
