-- ===== src/Core/Repository.antt =====
-- key.go: the interface `Repository`, for a state `S` and what an operation meets, `T` (the clock,
-- the draws, the answers of a journal and of a service). An operation gives the state after it.
use transeuroogs_kms.Common.{ℕ, List, [], All, map}
use transeuroogs_kms.Core.Errors.{Result, ok, err, panic}
use transeuroogs_kms.Core.Id.{KeyId}
use transeuroogs_kms.Core.Key.{Association, Key, Delivery, Metadata, Reservation, Inventory}

pub record Repository (T S : Type 0) : Type 0 where
  pub store_key : Key → T → S → S × Result (Unit {0})
  pub reserve_keys : Association → ℕ → T → S → S × Result Reservation
  pub consume_reservation : Association → KeyId → T → S → S × Result (List Delivery)
  pub consume_peer_keys : Association → List KeyId → T → S → S × Result (List Delivery)
  pub invalidate_key : KeyId → T → S → S × Result (Unit {0})
  pub metadata : KeyId → T → S → S × Result Metadata
  pub inventory : Association → T → S → S × Inventory

-- The two ends of a pair.
pub data Side : Type 0 where
  master_side slave_side : Side

abbrev pub ids_of : List Delivery → List KeyId
ids_of = map (λ d. d.id)

abbrev pub given : Result (List Delivery) → List KeyId
given (ok ds) = ids_of ds
given (err e) = []
given panic = []

-- A step between two states: soundness is kept, and so is what is gone on either side.
pub record Moves {S : Type 0} (Good : S → Type 0) (Gone : Side → S → KeyId → Type 0) (s s' : S)
    : Type 0 where
  pub good : Good s → Good s'
  pub gone : (side : Side) (id : KeyId) → Good s → Gone side s id → Gone side s' id

-- What was delivered on a side was not gone there before, and is after.
abbrev pub Hands :
    {S : Type 0} → (Side → S → KeyId → Type 0) → Side → S → S × Result (List Delivery) → Type 0
Hands Gone side s o = All (λ id. Gone side o.0 id × ¬ (Gone side s id)) (given o.1)

-- What a client may count on.
pub record Once {T S : Type 0} (r : Repository T S) : Type 1 where
  pub Good : S → Type 0
  pub Gone : Side → S → KeyId → Type 0
  pub reserving :
      (a : Association) (n : ℕ) (t : T) (s : S) → Moves Good Gone s (r.reserve_keys a n t s).0
  pub consuming :
      (a : Association) (token : KeyId) (t : T) (s : S)
      → Moves Good Gone s (r.consume_reservation a token t s).0
  pub consuming_peer :
      (a : Association) (ids : List KeyId) (t : T) (s : S)
      → Moves Good Gone s (r.consume_peer_keys a ids t s).0
  pub counting : (a : Association) (t : T) (s : S) → Moves Good Gone s (r.inventory a t s).0
  pub to_master :
      (a : Association) (token : KeyId) (t : T) (s : S)
      → Good s
      → Hands Gone master_side s (r.consume_reservation a token t s)
  pub to_slave :
      (a : Association) (ids : List KeyId) (t : T) (s : S)
      → Good s
      → Hands Gone slave_side s (r.consume_peer_keys a ids t s)
