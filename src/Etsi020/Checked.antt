-- ===== src/Etsi020/Checked.antt =====
-- What a message that passes its validation satisfies.
use transeuroogs_kms.Common.{
  ℕ, ◌<◌, ◌≤◌, ◌≡◌, refl, Bool, true, false, not, ◌||◌, Option, some, none, List, [], ◌∷◌, map, All,
  Distinct, contains, Text, ◌==◌, text_eq_instance, text_eq_refl, arith, length, nat_eq,
  if◌then◌else◌,
}
use transeuroogs_kms.Core.Errors.{Error}
use transeuroogs_kms.Core.Id.{KeyId, valid_id}
use transeuroogs_kms.Etsi020.{Transfer, ExternalKey}
use transeuroogs_kms.Etsi020.Base64.{encode, decode}
use transeuroogs_kms.Etsi020.Bytes.{decode-encode}
use transeuroogs_kms.Etsi020.Validate.{
  decoded_value, valid_value, valid_extension, keys_fine, pair, targets_fine, transfer_checked,
  validate_transfer, sae_id,
}
use transeuroogs_kms.Core.Batch.Laws.{not_seen}

-- The text of 32 bytes is a valid value.
pub valid_value-encode :
    (bs : List ℕ) → All (λ b. b < 256) bs → length bs ≡ 32 → valid_value (encode bs) ≡ true
unfolding valid_value decoded_value
valid_value-encode bs small size =
    rw (decode-encode bs small) (ground (arith, size, text_eq_refl (encode bs)))

-- A value that is valid is the text of 32 bytes.
abbrev pub Is32Bytes : Text → Type 0
Is32Bytes value =
    (bs : List ℕ) × (decode value ≡ some bs) × (length bs ≡ 32) × ((encode bs == value) ≡ true)

decoded_value_lem :
    (value : Text) (o : Option (List ℕ))
    → decoded_value value o ≡ true
    → (bs : List ℕ) × (o ≡ some bs) × (length bs ≡ 32) × ((encode bs == value) ≡ true)
unfolding decoded_value
decoded_value_lem value none h = absurd (ground (arith, h))
decoded_value_lem value (some bs) h = (bs, refl, ground (arith, h), ground (arith, h))

valid_value-Is32Bytes : (value : Text) → valid_value value ≡ true → Is32Bytes value
unfolding valid_value
valid_value-Is32Bytes value h = decoded_value_lem value (decode value) h

abbrev pub GoodKey : ExternalKey → Type 0
GoodKey k = (valid_id k.id ≡ true) × Is32Bytes k.value × (valid_extension k.extension ≡ true)

abbrev pub ids_of : List ExternalKey → List KeyId
ids_of = map (λ k. k.id)

keys_fine_lem :
    (seen : List KeyId) (ks : List ExternalKey)
    → keys_fine seen ks ≡ true
    → All GoodKey ks × Distinct (ids_of ks) × All (λ id. contains seen id ≡ false) (ids_of ks)
unfolding keys_fine contains
keys_fine_lem seen [] h = (tt, tt, tt)
keys_fine_lem seen (k ∷ ks) h =
    let (good, distinct, unseen) = keys_fine_lem (k.id ∷ seen) ks (ground (arith, h)) in
    let (new, rest) = not_seen k.id seen (ids_of ks) unseen in
    (
      (
        (ground (arith, h), valid_value-Is32Bytes k.value (ground (arith, h)), ground (arith, h)),
        good,
      ),
      (new, distinct),
      (ground (arith, h), rest),
    )

-- The one other party of a message.
targets_lem :
    (initiator : Text) (ts : List Text)
    → length ts ≡ 1
    → targets_fine initiator ts ≡ true
    → (t : Text) × (ts ≡ t ∷ []) × (sae_id t ≡ true) × ((t == initiator) ≡ false)
unfolding targets_fine
targets_lem initiator [] n h = absurd (ground (arith, n))
targets_lem initiator (t ∷ []) n h = (t, refl, ground (arith, h), ground (arith, h))
targets_lem initiator (t ∷ u ∷ ts) n h = absurd (ground (arith, n))

nat_eq_lem : (a b : ℕ) → nat_eq a b ≡ true → a ≡ b
nat_eq_lem a b h = ground (arith, h)

guards_passed :
    (a b c : Bool) (x y z : Error)
    → (if a then some x else if b then some y else if c then some z else none) ≡ none
    → (a ≡ false) × (b ≡ false) × (c ≡ false)
guards_passed a b c x y z h = ground (arith, h)

not-false : (b : Bool) → not b ≡ false → b ≡ true
not-false b h = ground (arith, h)

first_guard : (a b c : Bool) → (not a || b || c) ≡ false → a ≡ true
first_guard a b c h = ground (arith, h)

pub pair_lem :
    (initiator : Text) (ts : List Text)
    → pair initiator ts ≡ none
    → (sae_id initiator ≡ true)
      × ((t : Text) × (ts ≡ t ∷ []) × (sae_id t ≡ true) × ((t == initiator) ≡ false))
unfolding pair
pair_lem initiator ts h =
    let (named, fine, one) = guards_passed _ _ (not (nat_eq (length ts) 1)) _ _ _ h in
    (
      first_guard (sae_id initiator) _ _ named,
      targets_lem initiator ts (nat_eq_lem (length ts) 1 (not-false _ one)) (not-false _ fine),
    )

-- What the engine relies on in a transfer.
pub record GoodTransfer (t : Transfer) : Type 0 where
  pub some_keys : 1 ≤ length t.keys
  pub few_keys : length t.keys ≤ 128
  pub good_keys : All GoodKey t.keys
  pub distinct_ids : Distinct (ids_of t.keys)
  pub one_target :
      (x : Text) × (t.targets ≡ x ∷ []) × (sae_id x ≡ true) × ((x == t.initiator) ≡ false)
  pub callback_given : 1 ≤ length t.callback

transfer_checked_lem :
    (t : Transfer) (o : Option Error)
    → pair t.initiator t.targets ≡ o
    → transfer_checked t o ≡ none
    → GoodTransfer t
unfolding transfer_checked
transfer_checked_lem t (some e) p h = absurd (ground (arith, h))
transfer_checked_lem t none p h =
    let (good, distinct, _) = keys_fine_lem [] t.keys (ground (arith, h)) in
    record {
      some_keys = ground (arith, h);
      few_keys = ground (arith, h);
      good_keys = good;
      distinct_ids = distinct;
      one_target = (pair_lem t.initiator t.targets p).1;
      callback_given = ground (arith, h);
    }

-- A transfer that passes `Validate` has between 1 and 128 keys with distinct valid ids, each with
-- the canonical base64 text of 32 bytes and a valid extension, exactly one target, which is a
-- valid name other than the initiator, and a callback.
pub validate_transfer_lem : (t : Transfer) → validate_transfer t ≡ none → GoodTransfer t
unfolding validate_transfer
validate_transfer_lem t h = transfer_checked_lem t (pair t.initiator t.targets) refl h
