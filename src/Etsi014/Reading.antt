-- ===== src/Etsi014/Reading.antt =====
-- validation.go: `readJSON` and `query`. What the libraries make of a body is a parameter.
use transeuroogs_kms.Common.{
  ℕ, Bool, true, false, not, ◌&&◌, ◌||◌, Option, none, some, List, [], ◌∷◌, Text, ascii, ◌==◌,
  text_eq_instance, contains, nat_eq, length, if◌then◌else◌,
}
use transeuroogs_kms.Common.Dict.{Dict}
use transeuroogs_kms.Etsi014.Json.{Token, Parsed, rest, bad, out, unique_json}
use transeuroogs_kms.Etsi014.Messages.{ℤ, KeyRequest}

-- A refusal of the interface: the status and the message of `requestError`.
pub record Refusal : Type 0 where
  pub status : ℕ
  pub message : Text

pub data Read {ℓ} (A : Type ℓ) : Type ℓ where
  got : A → Read A
  refused : Refusal → Read A

-- How the body arrives.
pub data Body : Type 0 where
  too_large unreadable : Body
  sent : Text → Body

-- `json`: the tokens of a text; its members when it is an object, each as its trimmed text; and
-- its decoding into the two requests. `atoi` is `strconv.Atoi`,
-- and `redirect_status` the status of the multiplexer's redirects.
pub record Library : Type 0 where
  pub is_blank : Text → Bool
  pub tokens : Text → List Token
  pub fields : Text → Option (Dict Text Text)
  pub key_request : Text → Option KeyRequest
  pub key_ids : Text → Option (List Text)
  pub atoi : Text → Option ℤ
  pub redirect_status : ℕ

abbrev pub reject {ℓ} : {A : Type ℓ} → ℕ → Text → Read A
reject status message = refused (record { status = status; message = message })

-- What `fail` answers for `core.ErrInvalid`.
abbrev pub invalid_request {ℓ} : {A : Type ℓ} → Read A
invalid_request = reject 400 (ascii "invalid key request")

unfoldable pub then_read {ℓ κ} : {A : Type ℓ} {B : Type κ} → Read A → (A → Read B) → Read B
then_read (got a) f = f a
then_read (refused e) f = refused e

-- The loop over the members of the body.
unfoldable pub fields_fine : List Text → Dict Text Text → Bool
fields_fine allowed [] = true
fields_fine allowed ((key, value) ∷ fields) =
    let later = fields_fine allowed fields in
    if not (contains allowed key) || value == ascii "null" then false else later

-- After the scan: nothing may follow.
unfoldable pub scanned {ℓ} : {A : Type ℓ} → Parsed → Read A → Read A
scanned (rest []) next = next
scanned (rest (t ∷ ts)) next = reject 400 (ascii "trailing JSON data")
scanned bad next = reject 400 (ascii "invalid or ambiguous JSON")
scanned out next = reject 400 (ascii "invalid or ambiguous JSON")

unfoldable pub members_read {ℓ} :
    {A : Type ℓ} → List Text → Option (Dict Text Text) → Read A → Read A
unfolding fields_fine
members_read allowed none next = reject 400 (ascii "expected JSON object")
members_read allowed (some fields) next =
    if fields_fine allowed fields then next else reject 400 (ascii "unknown or null request field")

unfoldable pub typed {ℓ} : {A : Type ℓ} → Option A → Read A
typed none = reject 400 (ascii "invalid request field type")
typed (some a) = got a

unfoldable pub read_data {ℓ} :
    {A : Type ℓ} → Library → (Text → Option A) → List Text → Text → Read A
unfolding scanned members_read typed unique_json
read_data lib decode allowed data_ =
    scanned (unique_json (lib.tokens data_))
      (members_read allowed (lib.fields data_) (typed (decode data_)))

-- `media_ok` says whether the Content-Type is JSON.
unfoldable pub read_json {ℓ} :
    {A : Type ℓ} → Library → (Text → Option A) → List Text → Bool → Body → Read A
unfolding read_data
read_json lib decode allowed false body = reject 415 (ascii "Content-Type must be application/json")
read_json lib decode allowed true too_large = reject 413 (ascii "request body too large")
read_json lib decode allowed true unreadable = reject 400 (ascii "invalid request body")
read_json lib decode allowed true (sent text) =
    read_data lib decode allowed (if lib.is_blank text then ascii "{}" else text)

-- The loop of `query`.
unfoldable pub parameters_fine : List Text → Dict Text (List Text) → Bool
parameters_fine allowed [] = true
parameters_fine allowed ((key, v ∷ []) ∷ q) =
    contains allowed key && not (nat_eq (length v) 0) && parameters_fine allowed q
parameters_fine allowed ((key, _) ∷ q) = false

-- `parsed` is what `url.ParseQuery` gives.
unfoldable pub query : Option (Dict Text (List Text)) → List Text → Read (Dict Text (List Text))
unfolding parameters_fine
query none allowed = reject 400 (ascii "invalid query encoding")
query (some q) allowed =
    if parameters_fine allowed q
    then got q
    else reject 400 (ascii "unknown, repeated or empty query parameter")
