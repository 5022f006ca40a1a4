-- ===== src/Storage.antt =====
-- src/internal/storage/memory.go: the ephemeral repository. The mutex makes each operation one
-- step; an operation reads the clock once, `now`. A call returns the state that it leaves beside
-- its result, since entries that expired on the way stay expired when it fails.
pub mod Lifecycle
pub mod Lapse
pub mod Loops
pub mod Checks
pub mod Marking
pub mod Outcomes
pub mod Scan
pub mod Firsts
pub mod Invariant
pub mod Reserve
pub mod Offers
pub mod Store
pub mod Progress
pub mod Trace
pub mod Once
pub mod Agreement
pub mod Guarantees
pub mod Interface
pub mod Stocked
mod Examples
pub mod Tokens
pub mod Consume
pub mod PeerChecks
use mathlib.Core.Option
use transeuroogs_kms.Common.{
  ℕ, ◌+◌, Bool, true, false, not, ◌&&◌, ◌||◌, Option, none, some, List, [], ◌∷◌, ◌++◌, ◌==◌, Eq,
  text_eq_instance, ltb, leb, nat_eq, length, count, if◌then◌else◌,
}
use transeuroogs_kms.Common.Dict.{Dict, lookup, insert, erase, adjust, keys}
use transeuroogs_kms.Core.Errors.{
  Error, Result, ok, err, panic, invalid, duplicate, unavailable, unauthorized,
}
use transeuroogs_kms.Core.Errors
use transeuroogs_kms.Core.Id.{KeyId}
use transeuroogs_kms.Core.Key.{
  State, available, reserved, consumed, invalidated, expired, terminal, state_eq, Association,
  association_eq_instance, valid_association, Key, validate, Delivery, Metadata, Reservation,
  Inventory, max_batch,
}
use transeuroogs_kms.Core.Batch.{distinct_batch}
use transeuroogs_kms.Core.Token.{fresh_token}

pub record Entry : Type 0 where
  pub meta : Metadata
  pub open meta use *
  pub master : List ℕ
  pub slave : List ℕ

-- The record that the repository keeps of a reservation.
pub record Held : Type 0 where
  pub association : Association
  pub ids : List KeyId

pub record Memory : Type 0 where
  pub capacity : ℕ
  pub entries : Dict KeyId Entry
  pub order : List KeyId
  pub reservations : Dict KeyId Held

abbrev pub Outcome {ℓ} : Type ℓ → Type ℓ
Outcome A = Memory × Result A

unfoldable pub new_memory : ℕ → Result Memory
new_memory capacity =
    if ltb capacity 1 || ltb 100000 capacity
    then err invalid
    else ok (record { capacity = capacity; entries = []; order = []; reservations = [] })

-- `e.meta.MasterState = s; clear(e.master); e.master = nil`
unfoldable pub end_master : State → Entry → Entry
end_master s e = record e { meta = record e.meta { master_state = s }; master = [] }

unfoldable pub end_slave : State → Entry → Entry
end_slave s e = record e { meta = record e.meta { slave_state = s }; slave = [] }

-- Both halves that are not terminal yet end in the state `s`.
unfoldable pub end_open : State → Entry → Entry
unfolding end_master end_slave
end_open s e =
    let f = if terminal e.master_state then e else end_master s e in
    if terminal f.slave_state then f else end_slave s f

unfoldable pub expire : ℕ → Entry → Entry
unfolding end_open
expire now e = if ltb now e.expires_at then e else end_open expired e

unfoldable pub new_entry : Key → Entry
new_entry k = record {
  meta = record {
    id = k.id;
    association = k.association;
    source = k.source;
    created_at = k.created_at;
    expires_at = k.expires_at;
    master_state = available;
    slave_state = reserved;
  };
  master = k.material;
  slave = k.material;
}

store_checked : Memory → Key → Option Error → Outcome (Unit {0})
unfolding new_entry
store_checked m k (some e) = (m, err e)
store_checked m k none = elim (lookup k.id m.entries) [
  | some _ ↦ (m, err duplicate)
  | none ↦ if leb m.capacity (length m.entries) then (m, err Errors.capacity) else (
    record m { entries = insert k.id (new_entry k) m.entries; order = m.order ++ k.id ∷ [] },
    ok tt,
  )
]

unfoldable pub store_key : Memory → Key → ℕ → Outcome (Unit {0})
unfolding store_checked
store_key m k now = store_checked m k (validate k now)

-- The test of the scan: `e.meta.Association == a && e.meta.MasterState == Available`.
unfoldable pub offers : Association → Entry → Bool
unfolding state_eq
offers a e = e.association == a && state_eq e.master_state available

-- The loop of `ReserveKeys` over `m.order`: the entries as it leaves them and the ids it found.
unfoldable pub scan :
    Association
    → ℕ
    → ℕ
    → List KeyId
    → List KeyId
    → Dict KeyId Entry
    → Result (Dict KeyId Entry × List KeyId)
scan a count now [] ids es = ok (es, ids)
scan a count now (id ∷ order) ids es =
    let skip = scan a count now order ids (adjust id (expire now) es) in
    let take = scan a count now order (ids ++ id ∷ []) (adjust id (expire now) es) in
    elim (lookup id es) [
      | none ↦ panic
      | some e ↦
          if offers a (expire now e)
          then (if nat_eq (length (ids ++ id ∷ [])) count
              then ok (adjust id (expire now) es, ids ++ id ∷ [])
              else take)
          else skip
    ]

-- The entries of the ids through `f`, in order; a missing one is a nil dereference.
unfoldable pub adjust_each :
    (Entry → Entry) → List KeyId → Dict KeyId Entry → Result (Dict KeyId Entry)
adjust_each f [] es = ok es
adjust_each f (id ∷ ids) es =
    let rest = adjust_each f ids (adjust id f es) in
    elim (lookup id es) [ none ↦ panic | some _ ↦ rest ]

unfoldable pub reserve_entry : Entry → Entry
reserve_entry e = record e { meta = record e.meta { master_state = reserved } }

-- The token that was drawn, the ids marked.
hold :
    Memory
    → Association
    → List KeyId
    → Result (Dict KeyId Entry)
    → Option KeyId
    → Outcome Reservation
hold m a ids (ok es) (some token) = (
  record m {
    entries = es;
    reservations = insert token (record { association = a; ids = ids }) m.reservations;
  },
  ok (record { token = token; ids = ids }),
)
hold m a ids (err e) t = (m, err e)
hold m a ids panic t = (m, panic)
hold m a ids (ok es) none = (m, panic)

reserve_found :
    Memory
    → Association
    → ℕ
    → List KeyId
    → Result (Dict KeyId Entry × List KeyId)
    → Outcome Reservation
unfolding hold reserve_entry
reserve_found m a count draws (ok (es, ids)) =
    if not (nat_eq (length ids) count)
    then (record m { entries = es }, err unavailable)
    else hold (record m { entries = es }) a ids (adjust_each reserve_entry ids es)
        (fresh_token draws m.reservations)
reserve_found m a count draws (err e) = (m, err e)
reserve_found m a count draws panic = (m, panic)

-- Draws that are all in use would make the loop go on for ever; that outcome is `panic` here.
unfoldable pub reserve_keys : Memory → Association → ℕ → ℕ → List KeyId → Outcome Reservation
unfolding reserve_found
reserve_keys m a count now draws =
    if not (valid_association a) || ltb count 1 || ltb max_batch count
    then (m, err invalid)
    else reserve_found m a count draws (scan a count now m.order [] m.entries)

-- The first loop of `ConsumeReservation`: the entries as it leaves them, and its verdict.
unfoldable pub check_reserved :
    ℕ → List KeyId → Dict KeyId Entry → Dict KeyId Entry × Result (Unit {0})
unfolding state_eq
check_reserved now [] es = (es, ok tt)
check_reserved now (id ∷ ids) es =
    let rest = check_reserved now ids (adjust id (expire now) es) in
    elim (lookup id es) [
      | none ↦ (es, panic)
      | some e ↦
          if not (state_eq (expire now e).master_state reserved)
          then (adjust id (expire now) es, err unavailable)
          else rest
    ]

unfoldable pub consume_master : Entry → Entry
consume_master e = record e {
  meta = record e.meta { master_state = consumed; slave_state = available };
  master = [];
}

unfoldable pub consume_slave : Entry → Entry
unfolding end_slave
consume_slave e = end_slave consumed e

prepend :
    Delivery → Dict KeyId Entry × Result (List Delivery) → Dict KeyId Entry × Result (List Delivery)
prepend d (es, ok ds) = (es, ok (d ∷ ds))
prepend d (es, err e) = (es, err e)
prepend d (es, panic) = (es, panic)

-- The delivering loop: a copy of the buffer `of` goes out, then the entry goes through `f`.
unfoldable pub deliver :
    (Entry → List ℕ)
    → (Entry → Entry)
    → List KeyId
    → Dict KeyId Entry
    → Dict KeyId Entry × Result (List Delivery)
unfolding prepend
deliver of f [] es = (es, ok [])
deliver of f (id ∷ ids) es =
    let rest = deliver of f ids (adjust id f es) in
    elim (lookup id es) [
      | none ↦ (es, panic)
      | some e ↦ prepend (record { id = id; material = of e }) rest
    ]

-- `delete(m.reservations, token)`, reached when every id was delivered.
release : KeyId → Memory → Dict KeyId Entry × Result (List Delivery) → Outcome (List Delivery)
release token m (es, ok ds) =
    (record m { entries = es; reservations = erase token m.reservations }, ok ds)
release token m (es, err e) = (record m { entries = es }, err e)
release token m (es, panic) = (record m { entries = es }, panic)

consume_checked :
    Memory → KeyId → List KeyId → Dict KeyId Entry × Result (Unit {0}) → Outcome (List Delivery)
unfolding release
consume_checked m token ids (es, ok _) =
    release token m (deliver (λ e. e.master) consume_master ids es)
consume_checked m token ids (es, err e) = (record m { entries = es }, err e)
consume_checked m token ids (es, panic) = (record m { entries = es }, panic)

unfoldable pub consume_reservation : Memory → Association → KeyId → ℕ → Outcome (List Delivery)
unfolding consume_checked
consume_reservation m a token now = elim (lookup token m.reservations) [
  | none ↦ (m, err unavailable)
  | some r ↦
      if not (r.association == a)
      then (m, err unauthorized)
      else consume_checked m token r.ids (check_reserved now r.ids m.entries)
]

-- The first loop of `ConsumePeerKeys`.
unfoldable pub check_peer :
    Association → ℕ → List KeyId → Dict KeyId Entry → Dict KeyId Entry × Result (Unit {0})
unfolding state_eq
check_peer a now [] es = (es, ok tt)
check_peer a now (id ∷ ids) es =
    let rest = check_peer a now ids (adjust id (expire now) es) in
    elim (lookup id es) [
      | none ↦ (es, err unavailable)
      | some e ↦
          if not (e.association == a)
          then (es, err unauthorized)
          else if not (state_eq (expire now e).slave_state available)
          then (adjust id (expire now) es, err unavailable)
          else rest
    ]

peer_delivered : Memory → Dict KeyId Entry × Result (List Delivery) → Outcome (List Delivery)
peer_delivered m (es, r) = (record m { entries = es }, r)

peer_checked : Memory → List KeyId → Dict KeyId Entry × Result (Unit {0}) → Outcome (List Delivery)
unfolding peer_delivered
peer_checked m ids (es, ok _) = peer_delivered m (deliver (λ e. e.slave) consume_slave ids es)
peer_checked m ids (es, err e) = (record m { entries = es }, err e)
peer_checked m ids (es, panic) = (record m { entries = es }, panic)

unfoldable pub consume_peer_keys : Memory → Association → List KeyId → ℕ → Outcome (List Delivery)
unfolding peer_checked
consume_peer_keys m a ids now =
    if not (valid_association a) || ltb (length ids) 1 || ltb max_batch (length ids)
    then (m, err invalid)
    else if not (distinct_batch [] ids)
    then (m, err invalid)
    else peer_checked m ids (check_peer a now ids m.entries)

unfoldable pub invalidate_key : Memory → KeyId → ℕ → Outcome (Unit {0})
unfolding end_open
invalidate_key m id now = elim (lookup id m.entries) [
  | none ↦ (m, err unavailable)
  | some _ ↦
      (record m { entries = adjust id (λ e. end_open invalidated (expire now e)) m.entries }, ok tt)
]

unfoldable pub metadata : Memory → KeyId → ℕ → Outcome Metadata
metadata m id now = elim (lookup id m.entries) [
  | none ↦ (m, err unavailable)
  | some e ↦ (record m { entries = adjust id (expire now) m.entries }, ok (expire now e).meta)
]

-- The loop of `Inventory` over the whole map.
unfoldable pub expire_all : ℕ → Dict KeyId Entry → Dict KeyId Entry
expire_all now [] = []
expire_all now ((id, e) ∷ es) = (id, expire now e) ∷ expire_all now es

unfoldable pub inventory : Memory → Association → ℕ → Memory × Inventory
inventory m a now =
    let es = expire_all now m.entries in
    (
      record m { entries = es },
      record { available = count (λ p. offers a p.1) es; capacity = m.capacity },
    )
