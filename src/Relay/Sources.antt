-- ===== src/Relay/Sources.antt =====
-- engine.go: the choice of a route and the keys that a source stores.
use transeuroogs_kms.Common.{
  ℕ, zero, suc, ◌+◌, ◌%◌, Bool, false, not, ◌||◌, Option, none, some, List, [], ◌∷◌, ◌++◌, Text,
  ◌==◌, text_eq_instance, leb, length, contains, if◌then◌else◌,
}
use transeuroogs_kms.Common.Dict.{lookup, insert}
use transeuroogs_kms.Core.Errors.{
  Error, Result, ok, err, panic, invalid, unavailable, unauthorized, duplicate,
}
use transeuroogs_kms.Core.Errors
use transeuroogs_kms.Core.Id.{KeyId}
use transeuroogs_kms.Core.Key.{Association, association_eq_instance, Key, validate}
use transeuroogs_kms.Etsi020.{Extension, ExternalKey}
use transeuroogs_kms.Etsi020.Base64.{encode}
use transeuroogs_kms.Relay.{Role, source, Rec, Ledger, Engine}
use transeuroogs_kms.Relay.Serve.{Outcome, change, is_local}

-- `route[i]`
unfoldable pub hop : List Text → ℕ → Text
hop [] i = []
hop (p ∷ route) zero = p
hop (p ∷ route) (suc i) = hop route i

-- The loop of `candidates` from index `i`, with `n` indices left.
unfoldable pub hops : List Text → ℕ → Text → ℕ → ℕ → List Text
unfolding hop
hops route start sender i zero = []
hops route start sender i (suc n) =
    let p = hop route ((start + i) % length route) in
    let rest = hops route start sender (i + 1) n in if p == sender then rest else p ∷ rest

unfoldable pub or_zero : Option ℕ → ℕ
or_zero none = 0
or_zero (some n) = n

unfoldable pub or_no_hops : Option (List Text) → List Text
or_no_hops none = []
or_no_hops (some route) = route

unfoldable pub candidates_on : List Text → Ledger → Text → Text → Ledger × List Text
unfolding hops or_zero
candidates_on [] s to sender = (s, [])
candidates_on (p ∷ route) s to sender =
    let start = or_zero (lookup to s.cursor) % length (p ∷ route) in
    (
      record s { cursor = insert to ((start + 1) % length (p ∷ route)) s.cursor },
      hops (p ∷ route) start sender 0 (length (p ∷ route)),
    )

unfoldable pub candidates : Engine → Ledger → Text → Text → Ledger × List Text
unfolding candidates_on or_no_hops
candidates e s to sender = candidates_on (or_no_hops (lookup to e.cfg.routes)) s to sender

-- A record as it is created, before its candidates are known.
unfoldable pub blank : KeyId → Association → Role → ℕ → ℕ → Rec
blank id a role created expires = record {
  id = id;
  pair = a;
  role = role;
  material = [];
  digest = [];
  key_extension = none;
  optional = none;
  sender = [];
  next = [];
  candidates = [];
  sent = false;
  ready = false;
  delivered = false;
  token = [];
  created = created;
  expires = expires;
  voiding = false;
  void_failed = false;
  void_pending = [];
  void_requests = [];
  unknown = false;
  retry = 0;
}

unfoldable pub add_record : Rec → Ledger → Ledger
add_record r s = record s { records = insert r.id r s.records; order = s.order ++ r.id ∷ [] }

unfoldable pub source_record :
    (ExternalKey → Association → Extension → Text) → Key → List Text → Rec
unfolding blank encode
source_record digest k route = record (blank k.id k.association source k.created_at k.expires_at) {
  material = k.material;
  candidates = route;
  digest =
      digest (record { id = k.id; value = encode k.material; extension = none }) k.association none;
}

unfoldable pub source_routed :
    (ExternalKey → Association → Extension → Text)
    → Key
    → Ledger × List Text
    → Result (Ledger × Unit {0})
unfolding add_record source_record
source_routed digest k (s, []) = err unavailable
source_routed digest k (s, p ∷ route) = ok (add_record (source_record digest k (p ∷ route)) s, tt)

unfoldable pub source_found :
    (ExternalKey → Association → Extension → Text)
    → Engine
    → Key
    → Ledger
    → Option Rec
    → Result (Ledger × Unit {0})
unfolding source_routed candidates
source_found digest e k s (some _) = err duplicate
source_found digest e k s none =
    if leb e.capacity (length s.records)
    then err Errors.capacity
    else source_routed digest k (candidates e s k.association.slave [])

unfoldable pub store_source :
    (ExternalKey → Association → Extension → Text)
    → Engine
    → Key
    → Ledger
    → Result (Ledger × Unit {0})
unfolding source_found
store_source digest e k s = source_found digest e k s (lookup k.id s.records)

unfoldable pub store_checked :
    (ExternalKey → Association → Extension → Text)
    → Bool
    → Engine
    → Key
    → Option Error
    → Outcome (Unit {0})
unfolding store_source change is_local
store_checked digest saved e k (some x) = (e, err x)
store_checked digest saved e k none =
    if not (contains e.allowed k.association)
      || not (is_local e k.association.master)
      || is_local e k.association.slave
    then (e, err unauthorized)
    else change saved e (store_source digest e k)

unfoldable pub store_key :
    (ExternalKey → Association → Extension → Text) → Bool → Engine → Key → ℕ → Outcome (Unit {0})
unfolding store_checked
store_key digest saved e k now = store_checked digest saved e k (validate k now)
