-- ===== src/Storage/Interface.antt =====
-- The memory repository fills the interface of the repositories and keeps what it promises.
use transeuroogs_kms.Common.{ℕ, ◌≡◌, List, All-zip}
use transeuroogs_kms.Core.Errors.{Result, ok, err, panic}
use transeuroogs_kms.Core.Id.{KeyId}
use transeuroogs_kms.Core.Key.{State, Delivery, consumed}
use transeuroogs_kms.Core.Repository.{Repository, Once, Moves, Hands, Side, master_side, slave_side}
use transeuroogs_kms.Storage.{
  Entry, Memory, store_key, reserve_keys, consume_reservation, consume_peer_keys, invalidate_key,
  metadata, inventory,
}
use transeuroogs_kms.Storage.Invariant.{Inv}
use transeuroogs_kms.Storage.Progress.{
  Progress, reserve_keys-Progress, consume_reservation-Progress, consume_peer_keys-Progress,
  inventory-Progress,
}
use transeuroogs_kms.Storage.Lifecycle.{Evolves}
use transeuroogs_kms.Storage.Trace.{delivered, ids_of}
use transeuroogs_kms.Storage.Once.{
  Spent, Fresh, consume_reservation-Fresh, consume_peer_keys-Fresh, master_final, slave_final,
}

-- An operation meets a reading of the clock and draws.
abbrev pub memory : Repository (ℕ × List KeyId) Memory
memory = record {
  store_key = λ k t m. store_key m k t.0;
  reserve_keys = λ a n t m. reserve_keys m a n t.0 t.1;
  consume_reservation = λ a token t m. consume_reservation m a token t.0;
  consume_peer_keys = λ a ids t m. consume_peer_keys m a ids t.0;
  invalidate_key = λ id t m. invalidate_key m id t.0;
  metadata = λ id t m. metadata m id t.0;
  inventory = λ a t m. inventory m a t.0;
}

half : Side → Entry → State
half master_side e = e.master_state
half slave_side e = e.slave_state

-- The half of a side was consumed.
abbrev Consumed : Side → Memory → KeyId → Type 0
unfolding half
Consumed side m id = Spent (half side) m id

half_final :
    (side : Side) (e f : Entry) → Evolves e f → half side e ≡ consumed → half side f ≡ consumed
unfolding half
half_final master_side e f v h = master_final e f v h
half_final slave_side e f v h = slave_final e f v h

Progress-Moves : (m n : Memory) → (Inv m → Progress m n) → Moves Inv Consumed m n
unfolding half Consumed
Progress-Moves m n p = record {
  good = λ v. (p v).inv;
  gone = λ side id v (e, found, spent).
      let (f, found', evolves) = (p v).grows id e found in
      (f, found', half_final side e f evolves spent);
}

Fresh-Hands :
    (side : Side) (m : Memory) (o : Memory × Result (List Delivery))
    → Fresh (half side) m o.0 (ids_of (delivered o.1))
    → Hands Consumed side m o
unfolding delivered Consumed
Fresh-Hands side m (n, ok ds) h =
    All-zip _ _ _ (λ id spent unspent. (spent, unspent)) (ids_of ds) h.spent h.unspent
Fresh-Hands side m (n, err e) h = tt
Fresh-Hands side m (n, panic) h = tt

pub memory-Once : Once memory
unfolding half
memory-Once = record {
  Good = Inv;
  Gone = Consumed;
  reserving = λ a n t m. Progress-Moves m _ (reserve_keys-Progress m a n t.0 t.1);
  consuming = λ a token t m. Progress-Moves m _ (consume_reservation-Progress m a token t.0);
  consuming_peer = λ a ids t m. Progress-Moves m _ (consume_peer_keys-Progress m a ids t.0);
  counting = λ a t m. Progress-Moves m _ (inventory-Progress m a t.0);
  to_master =
      λ a token t m v. Fresh-Hands master_side m _ (consume_reservation-Fresh m a token t.0 v);
  to_slave = λ a ids t m v. Fresh-Hands slave_side m _ (consume_peer_keys-Fresh m a ids t.0);
}

pub Inv-Good : (m : Memory) → Inv m → memory-Once.Good m
unfolding memory-Once
Inv-Good m v = v
