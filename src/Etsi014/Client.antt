-- ===== src/Etsi014/Client.antt =====
-- client.go: the client of a segmented service. The HTTP exchange, with its TLS, is a parameter, and
-- so is what the JSON library makes of a text.
use transeuroogs_kms.Common.{
  ℕ, ◌/◌, Bool, true, false, not, ◌&&◌, ◌||◌, Option, none, some, List, [], ◌∷◌, Text, ascii, ◌==◌,
  text_eq_instance, contains, nat_eq, ltb, length, if◌then◌else◌,
}
use transeuroogs_kms.Common.Dict.{Dict, lookup}
use transeuroogs_kms.Core.Errors.{Result, ok, err, panic, invalid, unavailable, unauthorized}
use transeuroogs_kms.Core.Id.{KeyId, valid_id}
use transeuroogs_kms.Core.Key.{Delivery, Inventory, key_bits, max_batch}
use transeuroogs_kms.Etsi020.Base64.{encode, decode}
use transeuroogs_kms.Etsi014.Json.{Token, Parsed, rest, unique_json}
use transeuroogs_kms.Etsi014.Messages.{ℤ, pos, negsuc, KeyValue, KeyContainer}
use transeuroogs_kms.Etsi014.Requests.{differs}
use transeuroogs_kms.Upstream.{Config, master, slave}

-- What a request carries: nothing, a number of keys with their size, or ids.
pub data Sent : Type 0 where
  nothing : Sent
  wanted : ℕ → ℕ → Sent
  listed : List Text → Sent

-- A reply: its status, whether its Content-Type is JSON, and its text, `none` when it cannot be
-- read or is too long.
pub record Reply : Type 0 where
  pub status : ℕ
  pub media_ok : Bool
  pub text : Option Text

-- The members of `Status` that the client looks at.
pub record Reported : Type 0 where
  pub master_sae_id : Text
  pub slave_sae_id : Text
  pub key_size : ℤ
  pub stored_key_count : ℤ
  pub max_key_count : ℤ
  pub max_key_per_request : ℤ

pub record Library : Type 0 where
  pub tokens : Text → List Token
  pub fields : Text → Option (Dict Text Text)
  pub objects : Text → Option (List (Dict Text Text))
  pub container : Text → Option KeyContainer
  pub reported : Text → Option Reported

unfoldable pub then_result {ℓ κ} : {A : Type ℓ} {B : Type κ} → Result A → (A → Result B) → Result B
then_result (ok a) f = f a
then_result (err e) f = err e
then_result panic f = panic

unfoldable pub or_unavailable {ℓ} : {A : Type ℓ} → Option A → Result A
or_unavailable none = err unavailable
or_unavailable (some a) = ok a

unfoldable pub whole : Parsed → Bool
whole (rest []) = true
whole _ = false

-- A member that a map has.
unfoldable pub present : Option Text → Bool
present none = false
present (some v) = true

-- Each key has exactly its two members.
unfoldable pub objects_fine : List (Dict Text Text) → Bool
unfolding present
objects_fine [] = true
objects_fine (k ∷ ks) =
    nat_eq (length k) 2
    && present (lookup (ascii "key_ID") k)
    && present (lookup (ascii "key") k)
    && objects_fine ks

unfoldable pub objects_read : Option (List (Dict Text Text)) → Bool
unfolding objects_fine
objects_read none = false
objects_read (some ks) = objects_fine ks

-- The members of a container of keys: `keys` and no other.
unfoldable pub container_fine : Library → Dict Text Text → Option Text → Bool
unfolding objects_read
container_fine lib fields none = false
container_fine lib fields (some v) = nat_eq (length fields) 1 && objects_read (lib.objects v)

abbrev pub status_names : List Text
status_names =
    ascii "source_KME_ID"
    ∷ ascii "target_KME_ID"
    ∷ ascii "master_SAE_ID"
    ∷ ascii "slave_SAE_ID"
    ∷ ascii "key_size"
    ∷ ascii "stored_key_count"
    ∷ ascii "max_key_count"
    ∷ ascii "max_key_per_request"
    ∷ ascii "max_key_size"
    ∷ ascii "min_key_size"
    ∷ ascii "max_SAE_ID_count"
    ∷ []

unfoldable pub status_fine : Dict Text Text → Bool
status_fine [] = true
status_fine ((name, value) ∷ fields) =
    contains status_names name && not (value == ascii "null") && status_fine fields

-- The first part of `request`, after the exchange: the text of a reply that is whole JSON.
unfoldable pub received : Library → Reply → Result Text
unfolding then_result or_unavailable whole
received lib r =
    if not (nat_eq r.status 200) || not r.media_ok
    then err unavailable
    else then_result (or_unavailable r.text)
        (λ text. if whole (unique_json (lib.tokens text)) then ok text else err unavailable)

unfoldable pub read_container : Library → Reply → Result KeyContainer
unfolding received container_fine then_result or_unavailable
read_container lib r = then_result (received lib r) (λ text.
    then_result (or_unavailable (lib.fields text)) (λ fields.
      if container_fine lib fields (lookup (ascii "keys") fields)
      then or_unavailable (lib.container text)
      else err unavailable))

unfoldable pub read_status : Library → Reply → Result Reported
unfolding received status_fine then_result or_unavailable
read_status lib r = then_result (received lib r) (λ text.
    then_result (or_unavailable (lib.fields text)) (λ fields.
      if status_fine fields then or_unavailable (lib.reported text) else err unavailable))

-- `ids != nil && !requested[id]`
unfoldable pub unrequested : Option (List KeyId) → KeyId → Bool
unrequested none id = false
unrequested (some ids) id = not (contains ids id)

-- A key that is not as it should be, once its text was decoded.
unfoldable pub key_bad : Option (List KeyId) → List KeyId → KeyValue → List ℕ → Bool
unfolding unrequested
key_bad ids seen v material =
    not (valid_id v.id)
    || contains seen v.id
    || not (nat_eq (length material) (key_bits / 8))
    || not (encode material == v.key)
    || unrequested ids v.id

unfoldable pub more_keys : Delivery → Result (List Delivery) → Result (List Delivery)
more_keys d (ok ds) = ok (d ∷ ds)
more_keys d (err e) = err e
more_keys d panic = panic

-- The loop of `validateKeys`, with the ids seen so far.
unfoldable pub keys_read : Option (List KeyId) → List KeyId → KeyContainer → Result (List Delivery)
unfolding key_bad more_keys
keys_read ids seen [] = ok []
keys_read ids seen (v ∷ vs) =
    let later = keys_read ids (v.id ∷ seen) vs in
    elim (decode v.key) [
      | none ↦ err unavailable
      | some material ↦
          if key_bad ids seen v material
          then err unavailable
          else more_keys (record { id = v.id; material = material }) later
    ]

unfoldable pub validate_keys : KeyContainer → ℕ → Option (List KeyId) → Result (List Delivery)
unfolding keys_read
validate_keys ks count ids =
    if not (nat_eq (length ks) count) then err unavailable else keys_read ids [] ks

-- The loop over the ids to retrieve.
unfoldable pub ids_fine : List KeyId → List KeyId → Bool
ids_fine seen [] = true
ids_fine seen (id ∷ ids) =
    let later = ids_fine (id ∷ seen) ids in
    if not (valid_id id) || contains seen id then false else later

-- `n < 1` or `n > m` for a number of the code
unfoldable pub below : ℤ → ℕ → Bool
below (pos n) m = ltb n m
below (negsuc n) m = true

unfoldable pub above : ℤ → ℕ → Bool
above (pos n) m = ltb m n
above (negsuc n) m = false

unfoldable pub natural : ℤ → ℕ
natural (pos n) = n
natural (negsuc n) = 0

-- `s.MaxKeyCount < s.StoredKeyCount`, for a stored count that is not negative
unfoldable pub stock_of : Config → Reported → Result Inventory
unfolding differs below above natural
stock_of cfg s =
    if not (s.master_sae_id == cfg.gateway_master)
      || not (s.slave_sae_id == cfg.gateway_slave)
      || differs s.key_size key_bits
      || below s.stored_key_count 0
      || below s.max_key_count (natural s.stored_key_count)
      || above s.max_key_count 100000
      || below s.max_key_per_request 1
    then err unavailable
    else ok (record { available = natural s.stored_key_count; capacity = natural s.max_key_count })

-- `exchange` sends a request by its method, its peer, its operation and its body; it ends with a
-- reply or with an error.
module _ (lib : Library) (exchange : Text → Text → Text → Sent → Result Reply) (cfg : Config) where
  unfoldable pub allocate : ℕ → Result (List Delivery)
  unfolding then_result read_container validate_keys
  allocate n =
      if not (cfg.role == master)
      then err unauthorized
      else if ltb n 1 || ltb max_batch n
      then err invalid
      else then_result
          (exchange (ascii "POST") cfg.gateway_slave (ascii "enc_keys") (wanted n key_bits))
          (λ r. then_result (read_container lib r) (λ ks. validate_keys ks n none))

  unfoldable pub retrieve : List KeyId → Result (List Delivery)
  unfolding then_result read_container validate_keys ids_fine
  retrieve ids =
      if not (cfg.role == slave)
      then err unauthorized
      else if ltb (length ids) 1 || ltb max_batch (length ids)
      then err invalid
      else if not (ids_fine [] ids)
      then err invalid
      else then_result (exchange (ascii "POST") cfg.gateway_master (ascii "dec_keys") (listed ids))
          (λ r. then_result (read_container lib r) (λ ks. validate_keys ks (length ids) (some ids)))

  unfoldable pub stock : Result Inventory
  unfolding then_result read_status stock_of
  stock =
      if not (cfg.role == master)
      then err unauthorized
      else then_result (exchange (ascii "GET") cfg.gateway_slave (ascii "status") nothing)
          (λ r. then_result (read_status lib r) (stock_of cfg))
