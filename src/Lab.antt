-- ===== src/Lab.antt =====
-- src/internal/eaglelab/service.go and src/internal/synthetic/source.go: the stand-ins of the
-- laboratory, a repository that opens at a moment and a source of test keys.
pub mod Laws
use transeuroogs_kms.Common.{
  ℕ, zero, suc, ◌+◌, ◌*◌, ◌/◌, Bool, true, false, not, ◌||◌, List, [], ◌∷◌, Text, ascii, ltb,
  if◌then◌else◌,
}
use transeuroogs_kms.Core.Errors.{Error, Result, ok, err, panic, unavailable, invalid}
use transeuroogs_kms.Core.Id.{KeyId}
use transeuroogs_kms.Core.Key.{
  Association, Key, Delivery, Reservation, Inventory, valid_association,
}
use transeuroogs_kms.Core.Repository.{Repository}

unfoldable pub hidden : {S A : Type 0} → Bool → S → S × Result A → S × Result A
hidden true s o = o
hidden false s o = (s, err unavailable)

unfoldable pub emptied : Bool → Inventory → Inventory
emptied true i = i
emptied false i = record i { available = 0 }

-- `Delayed`: `clock` reads the time of an operation.
module _ {T : Type 0} (ready_at : ℕ) (clock : T → ℕ) where
  unfoldable pub ready : T → Bool
  ready t = not (ltb (clock t) ready_at)

  unfoldable pub delayed : {S : Type 0} → Repository T S → Repository T S
  unfolding ready hidden emptied
  delayed r = record {
    store_key = r.store_key;
    reserve_keys = λ a n t s. hidden (ready t) s (r.reserve_keys a n t s);
    consume_reservation = λ a token t s. hidden (ready t) s (r.consume_reservation a token t s);
    consume_peer_keys = λ a ids t s. hidden (ready t) s (r.consume_peer_keys a ids t s);
    invalidate_key = r.invalidate_key;
    metadata = r.metadata;
    inventory = λ a t s. let o = r.inventory a t s in (o.0, emptied (ready t) o.1);
  }

-- The loop of `Seed`: `draw i` is the id and the material of the i-th key.
module _ {T S : Type 0} (r : Repository T S) (a : Association) (now ttl : ℕ) (t : T)
    (draw : ℕ → KeyId × List ℕ) where
  unfoldable pub synthetic_key : ℕ → Key
  synthetic_key i = record {
    id = (draw i).0;
    material = (draw i).1;
    association = a;
    source = ascii "synthetic-qkd";
    created_at = now;
    expires_at = now + ttl;
  }

  stored_first : S × Result (Unit {0}) → (S → S × Result (Unit {0})) → S × Result (Unit {0})
  stored_first (s, ok _) k = k s
  stored_first (s, err e) k = (s, err e)
  stored_first (s, panic) k = (s, panic)

  -- `count` keys from the i-th on.
  unfoldable pub seed_keys : ℕ → ℕ → S → S × Result (Unit {0})
  unfolding synthetic_key stored_first
  seed_keys zero i s = (s, ok tt)
  seed_keys (suc count) i s =
      stored_first (r.store_key (synthetic_key i) t s) (λ s'. seed_keys count (suc i) s')

  unfoldable pub seed : ℕ → S → S × Result (Unit {0})
  unfolding seed_keys
  seed count s =
      if not (valid_association a) || ltb 100000 count || not (ltb 0 ttl)
      then (s, err invalid)
      else seed_keys count 0 s
