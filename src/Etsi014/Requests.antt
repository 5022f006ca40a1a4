-- ===== src/Etsi014/Requests.antt =====
-- server.go: what `enc` and `dec` read of a request.
use transeuroogs_kms.Common.{
  ℕ, suc, ◌%◌, Bool, true, false, not, ◌||◌, Option, none, some, List, [], ◌∷◌, Text, ascii, ◌==◌,
  text_eq_instance, nat_eq, ltb, length, if◌then◌else◌,
}
use transeuroogs_kms.Common.Dict.{Dict, lookup}
use transeuroogs_kms.Core.Key.{key_bits, max_batch}
use transeuroogs_kms.Etsi014.Messages.{ℤ, pos, negsuc, KeyRequest, Extension}
use transeuroogs_kms.Etsi014.Reading.{
  Read, got, Library, reject, invalid_request, then_read, read_json, query,
}
use transeuroogs_kms.Etsi014.Server.{Request, Method, post}

abbrev pub no_request : KeyRequest
no_request = record {
  number = none;
  size = none;
  additional_slave_sae_ids = [];
  mandatory = [];
  optional = [];
}

unfoldable pub set_parameter : Text → Option ℤ → KeyRequest → Read KeyRequest
set_parameter name none q = invalid_request
set_parameter name (some n) q =
    if name == ascii "number"
    then got (record q { number = some n })
    else got (record q { size = some n })

-- The loop over the parameters of a GET; `query` left one value for each.
unfoldable pub set_parameters : Library → Dict Text (List Text) → KeyRequest → Read KeyRequest
unfolding set_parameter then_read
set_parameters lib [] q = got q
set_parameters lib ((name, v ∷ vs) ∷ rest) q =
    then_read (set_parameter name (lib.atoi v) q) (λ q'. set_parameters lib rest q')
set_parameters lib ((name, []) ∷ rest) q = set_parameters lib rest q

unfoldable pub key_request : Library → Request → Method → Read KeyRequest
unfolding then_read set_parameters
key_request lib r post = then_read (query r.parameters []) (λ _.
    read_json lib lib.key_request
      (ascii "number"
        ∷ ascii "size"
        ∷ ascii "additional_slave_SAE_IDs"
        ∷ ascii "extension_mandatory"
        ∷ ascii "extension_optional"
        ∷ [])
      r.media_ok r.body)
key_request lib r _ =
    then_read (query r.parameters (ascii "number" ∷ ascii "size" ∷ []))
      (λ q. set_parameters lib q no_request)

unfoldable pub or_default : ℕ → Option ℤ → ℤ
or_default n none = pos n
or_default n (some m) = m

-- `size%8 != 0`
unfoldable pub uneven : ℤ → Bool
uneven (pos n) = not (nat_eq (n % 8) 0)
uneven (negsuc n) = not (nat_eq (suc n % 8) 0)

unfoldable pub any_null : List Extension → Bool
any_null [] = false
any_null (none ∷ es) = true
any_null (some m ∷ es) = any_null es

-- `n != m` for a number of the code
unfoldable pub differs : ℤ → ℕ → Bool
differs (pos n) m = not (nat_eq n m)
differs (negsuc n) m = true

-- A count from 1 to the largest batch.
unfoldable pub batch_size : ℤ → Option ℕ
batch_size (negsuc n) = none
batch_size (pos n) = if ltb n 1 || ltb max_batch n then none else some n

unfoldable pub counted : Option ℕ → Bool → Read ℕ
counted (some n) false = got n
counted _ _ = invalid_request

-- How many keys are asked for.
unfoldable pub key_count : KeyRequest → Read ℕ
unfolding or_default uneven any_null differs batch_size counted
key_count q =
    if uneven (or_default key_bits q.size)
    then reject 400 (ascii "size shall be a multiple of 8")
    else if not (nat_eq (length q.mandatory) 0)
    then reject 400 (ascii "not all extension_mandatory parameters are supported")
    else if any_null q.optional
    then invalid_request
    else counted (batch_size (or_default 1 q.number)) (
        differs (or_default key_bits q.size) key_bits
        || not (nat_eq (length q.additional_slave_sae_ids) 0))

-- `q.Get(name)`
unfoldable pub first : Option (List Text) → Text
first (some (v ∷ vs)) = v
first _ = []

-- The ids that are asked for.
unfoldable pub key_ids : Library → Request → Method → Read (List Text)
unfolding then_read first
key_ids lib r post =
    then_read (query r.parameters [])
      (λ _. read_json lib lib.key_ids (ascii "key_IDs" ∷ []) r.media_ok r.body)
key_ids lib r _ =
    then_read (query r.parameters (ascii "key_ID" ∷ []))
      (λ q. got (first (lookup (ascii "key_ID") q) ∷ []))
