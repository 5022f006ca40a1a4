-- ===== src/Etsi020/Validate.antt =====
-- models.go: the validation of the messages. `none` is a nil error.
use transeuroogs_kms.Common.{
  ℕ, ◌+◌, ◌/◌, Bool, true, false, not, ◌&&◌, ◌||◌, Option, none, some, List, [], ◌∷◌, Text, ◌==◌,
  text_eq_instance, leb, ltb, nat_eq, length, contains, if◌then◌else◌,
}
use transeuroogs_kms.Common.Dict.{Dict}
use transeuroogs_kms.Core.Errors.{
  Error, invalid, unsupported_target_count, unsupported_mandatory_extension, synchronous_mode,
  no_all_confirmation,
}
use transeuroogs_kms.Core.Id.{KeyId, valid_id}
use transeuroogs_kms.Core.Key.{key_bits, max_batch}
use transeuroogs_kms.Core.Batch.{distinct_batch}
use transeuroogs_kms.Etsi020.{Extension, ExternalKey, Transfer, KeyRef, AckStatus, Ack, Void, other}
use transeuroogs_kms.Etsi020.Base64.{decode, encode}

is_digit : ℕ → Bool
is_digit c = leb 48 c && leb c 57

is_hex : ℕ → Bool
unfolding is_digit
is_hex c = is_digit c || (leb 65 c && leb c 70) || (leb 97 c && leb c 102)

-- A character of the class in `saeID`: a letter, a digit or one of `._~:/?#[]@!$&'()*+,;=-`.
sae_char : ℕ → Bool
unfolding is_digit
sae_char c =
    is_digit c
    || (leb 65 c && leb c 90)
    || (leb 97 c && leb c 122)
    || nat_eq c 33
    || (leb 35 c && leb c 36)
    || (leb 38 c && leb c 47)
    || (leb 58 c && leb c 59)
    || nat_eq c 61
    || (leb 63 c && leb c 64)
    || nat_eq c 91
    || nat_eq c 93
    || nat_eq c 95
    || nat_eq c 126

-- The number of characters and escapes of a text in the language of `saeID`.
sae_length : Text → Option ℕ
unfolding sae_char is_hex
sae_length [] = some 0
sae_length (c ∷ []) = if sae_char c then some 1 else none
sae_length (c ∷ d ∷ []) =
    let rest = sae_length (d ∷ []) in
    if sae_char c then elim rest [ none ↦ none | some n ↦ some (n + 1) ] else none
sae_length (c ∷ d ∷ e ∷ s) =
    let rest = sae_length (d ∷ e ∷ s) in
    let after = sae_length s in
    if sae_char c
    then elim rest [ none ↦ none | some n ↦ some (n + 1) ]
    else if nat_eq c 37 && is_hex d && is_hex e
    then elim after [ none ↦ none | some n ↦ some (n + 1) ]
    else none

in_range : Option ℕ → Bool
in_range none = false
in_range (some n) = leb 1 n && leb n 64

-- `saeID.MatchString`
unfoldable pub sae_id : Text → Bool
unfolding sae_length in_range
sae_id s = in_range (sae_length s)

no_newline : Text → Bool
no_newline [] = true
no_newline (c ∷ s) = not (nat_eq c 10) && no_newline s

-- What follows the first digit: more digits, `_`, and at least one character on the line.
after_digit : Text → Bool
unfolding is_digit no_newline
after_digit [] = false
after_digit (c ∷ s) =
    if is_digit c then after_digit s else nat_eq c 95 && not (nat_eq (length s) 0) && no_newline s

-- `extensionName.MatchString`
unfoldable pub extension_name : Text → Bool
unfolding after_digit is_digit
extension_name (e ∷ d ∷ s) = nat_eq e 69 && is_digit d && after_digit s
extension_name _ = false

all_names : Dict Text Text → Bool
unfolding extension_name
all_names [] = true
all_names ((k, _) ∷ m) = extension_name k && all_names m

unfoldable pub valid_extension : Extension → Bool
unfolding all_names
valid_extension none = true
valid_extension (some m) = leb 1 (length m) && leb (length m) 1024 && all_names m

-- The loop of `pair` over the targets.
unfoldable pub targets_fine : Text → List Text → Bool
unfolding sae_id
targets_fine initiator [] = true
targets_fine initiator (t ∷ ts) =
    not (ltb 64 (length t)) && sae_id t && not (t == initiator) && targets_fine initiator ts

unfoldable pub pair : Text → List Text → Option Error
unfolding targets_fine
pair initiator targets =
    if not (sae_id initiator) || ltb 64 (length initiator) || nat_eq (length targets) 0
    then some invalid
    else if not (targets_fine initiator targets)
    then some invalid
    else if not (nat_eq (length targets) 1)
    then some unsupported_target_count
    else none

unfoldable pub decoded_value : Text → Option (List ℕ) → Bool
decoded_value value none = false
decoded_value value (some b) = nat_eq (length b) (key_bits / 8) && encode b == value

-- A canonical base64 text of 32 bytes.
unfoldable pub valid_value : Text → Bool
unfolding decoded_value decode encode
valid_value value = decoded_value value (decode value)

-- The loop of `Transfer.Validate` over the keys.
unfoldable pub keys_fine : List KeyId → List ExternalKey → Bool
unfolding valid_value valid_extension
keys_fine seen [] = true
keys_fine seen (k ∷ ks) =
    let rest = keys_fine (k.id ∷ seen) ks in
    if not (valid_id k.id)
      || contains seen k.id
      || not (valid_value k.value)
      || not (valid_extension k.extension)
    then false
    else rest

unfoldable pub extension_size : Extension → ℕ
extension_size none = 0
extension_size (some m) = length m

unfoldable pub transfer_checked : Transfer → Option Error → Option Error
unfolding extension_size keys_fine
transfer_checked t (some e) = some e
transfer_checked t none =
    if ltb (length t.keys) 1
      || ltb max_batch (length t.keys)
      || not (valid_extension t.mandatory)
      || not (valid_extension t.optional)
      || ltb 1024 (length t.callback)
    then some invalid
    else if ltb 0 (extension_size t.mandatory)
    then some unsupported_mandatory_extension
    else if nat_eq (length t.callback) 0
    then some synchronous_mode
    else if keys_fine [] t.keys
    then none
    else some invalid

unfoldable pub validate_transfer : Transfer → Option Error
unfolding transfer_checked pair
validate_transfer t = transfer_checked t (pair t.initiator t.targets)

known_status : AckStatus → Bool
known_status (other _) = false
known_status _ = true

-- The inner loop of `ValidateAcks`: the ids seen so far, or `none` at a bad reference.
refs_fine : List KeyId → List KeyRef → Option (List KeyId)
refs_fine seen [] = some seen
refs_fine seen (r ∷ rs) =
    let rest = refs_fine (r.id ∷ seen) rs in
    if not (valid_id r.id) || contains seen r.id || not (valid_extension r.extension)
    then none
    else rest

ack_refs : List KeyId → Ack → Option (List KeyRef) → Option (List KeyId)
unfolding known_status refs_fine
ack_refs seen a none = none
ack_refs seen a (some ids) =
    if ltb 1024 (length ids)
      || ltb 4096 (length a.message)
      || not (valid_extension a.extension)
      || not (known_status a.status)
    then none
    else refs_fine seen ids

-- The outer loop.
acks_fine : List KeyId → List Ack → Option Error
unfolding ack_refs pair
acks_fine seen [] = none
acks_fine seen (a ∷ acks) = elim (pair a.initiator a.targets) [
  | some e ↦ some e
  | none ↦ elim (ack_refs seen a a.ids) [ none ↦ some invalid | some seen' ↦ acks_fine seen' acks ]
]

unfoldable pub validate_acks : List Ack → Option Error
unfolding acks_fine
validate_acks acks =
    if ltb (length acks) 1 || ltb 1024 (length acks) then some invalid else acks_fine [] acks

void_ids : Void → Option (List KeyId) → Option Error
void_ids v none = some invalid
void_ids v (some ids) =
    if ltb 1024 (length ids) || ltb 1024 (length v.callback) || not (valid_extension v.extension)
    then some invalid
    else if nat_eq (length ids) 0 && not v.all
    then some no_all_confirmation
    else if nat_eq (length v.callback) 0
    then some synchronous_mode
    else if distinct_batch [] ids
    then none
    else some invalid

void_checked : Void → Option Error → Option Error
unfolding void_ids
void_checked v (some e) = some e
void_checked v none = void_ids v v.ids

unfoldable pub validate_void : Void → Option Error
unfolding void_checked pair
validate_void v = void_checked v (pair v.initiator v.targets)
