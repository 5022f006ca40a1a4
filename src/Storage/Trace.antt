-- ===== src/Storage/Trace.antt =====
-- Any sequence of calls, each with its clock reading and its random draws.
use transeuroogs_kms.Common.{ℕ, List, [], ◌∷◌, ◌++◌, map, text_eq_instance}
use transeuroogs_kms.Core.Errors.{Result, ok}
use transeuroogs_kms.Core.Id.{KeyId}
use transeuroogs_kms.Core.Key.{Association, Key, Delivery}
use transeuroogs_kms.Storage.{
  Memory, store_key, reserve_keys, consume_reservation, consume_peer_keys, invalidate_key, metadata,
  inventory,
}
use transeuroogs_kms.Storage.Invariant.{Inv}
use transeuroogs_kms.Storage.Progress.{
  Progress, Progress-refl, Progress-trans, store_key-Progress, reserve_keys-Progress,
  consume_reservation-Progress, consume_peer_keys-Progress, invalidate_key-Progress,
  metadata-Progress, inventory-Progress,
}

pub data Call : Type 0 where
  store : Key → Call
  reserve : Association → ℕ → List KeyId → Call
  consume : Association → KeyId → Call
  consume_peer : Association → List KeyId → Call
  invalidate : KeyId → Call
  describe : KeyId → Call
  stock : Association → Call

-- The state after a call at the time `now`.
unfoldable pub step : Memory → ℕ × Call → Memory
step m (now, store k) = (store_key m k now).0
step m (now, reserve a n draws) = (reserve_keys m a n now draws).0
step m (now, consume a token) = (consume_reservation m a token now).0
step m (now, consume_peer a ids) = (consume_peer_keys m a ids now).0
step m (now, invalidate id) = (invalidate_key m id now).0
step m (now, describe id) = (metadata m id now).0
step m (now, stock a) = (inventory m a now).0

unfoldable pub run : Memory → List (ℕ × Call) → Memory
run m [] = m
run m (c ∷ cs) = run (step m c) cs

unfoldable pub delivered : Result (List Delivery) → List Delivery
delivered (ok ds) = ds
delivered _ = []

-- What a call hands to a master application, and what to a slave application.
unfoldable pub to_master : Memory → ℕ × Call → List Delivery
unfolding delivered
to_master m (now, consume a token) = delivered (consume_reservation m a token now).1
to_master m _ = []

unfoldable pub to_slave : Memory → ℕ × Call → List Delivery
unfolding delivered
to_slave m (now, consume_peer a ids) = delivered (consume_peer_keys m a ids now).1
to_slave m _ = []

-- All that a run hands out on one side.
unfoldable pub handed :
    (Memory → ℕ × Call → List Delivery) → Memory → List (ℕ × Call) → List Delivery
handed out m [] = []
handed out m (c ∷ cs) = out m c ++ handed out (step m c) cs

abbrev pub ids_of : List Delivery → List KeyId
ids_of = map (λ d. d.id)

pub step-Progress : (m : Memory) (c : ℕ × Call) → Inv m → Progress m (step m c)
unfolding step
step-Progress m (now, store k) v = store_key-Progress m k now v
step-Progress m (now, reserve a n draws) v = reserve_keys-Progress m a n now draws v
step-Progress m (now, consume a token) v = consume_reservation-Progress m a token now v
step-Progress m (now, consume_peer a ids) v = consume_peer_keys-Progress m a ids now v
step-Progress m (now, invalidate id) v = invalidate_key-Progress m id now v
step-Progress m (now, describe id) v = metadata-Progress m id now v
step-Progress m (now, stock a) v = inventory-Progress m a now v

-- After any calls the repository is sound, and has lost no entry nor moved one backwards.
pub run-Progress : (m : Memory) (cs : List (ℕ × Call)) → Inv m → Progress m (run m cs)
unfolding run
run-Progress m [] v = Progress-refl m v
run-Progress m (c ∷ cs) v =
    let p = step-Progress m c v in
    Progress-trans m (step m c) _ p (run-Progress (step m c) cs p.inv)
