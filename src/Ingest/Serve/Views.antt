-- ===== src/Ingest/Serve/Views.antt =====
-- repository.go: `InvalidateKey`, `Metadata` and `Inventory`.
use transeuroogs_kms.Common.{ℕ, ◌-◌, Option, none, some, ◌==◌, text_eq_instance, ltb, if◌then◌else◌}
use transeuroogs_kms.Common.Dict.{lookup, adjust}
use transeuroogs_kms.Core.Errors.{Error, Result, ok, err, panic, invalid, unavailable, unauthorized}
use transeuroogs_kms.Core.Errors
use transeuroogs_kms.Core.Id.{KeyId}
use transeuroogs_kms.Core.Key.{
  Association, association_eq_instance, Metadata, Inventory, invalidated, terminal,
}
use transeuroogs_kms.Upstream.{Config, master}
use transeuroogs_kms.Ingest.{Stored, Repository, Moment}
use transeuroogs_kms.Ingest.Monad.{M, ◌>>=◌, ◌>>◌, give, fail, refuse, read, change, save}
use transeuroogs_kms.Ingest.Serve.Request.{end_key, expire, check, set_keys}

unfoldable pub invalidate_found : Moment → KeyId → Option Stored → M (Unit {0})
unfolding set_keys end_key
invalidate_found t id none = fail unavailable
invalidate_found t id (some k) =
    if terminal k.state
    then give tt
    else do change (set_keys (adjust id (end_key invalidated))); save t.saved

unfoldable pub invalidate_key : Moment → KeyId → M (Unit {0})
unfolding invalidate_found
invalidate_key t id = do
  r ← read
  refuse r.broken Errors.state
  invalidate_found t id (lookup id r.book.keys)

unfoldable pub describe : Config → Association → KeyId → Option Stored → M Metadata
describe cfg pair id none = fail unavailable
describe cfg pair id (some k) = give (record {
  id = id;
  association = pair;
  source = cfg.url;
  created_at = k.created;
  expires_at = k.expires;
  master_state = if cfg.role == master then k.state else invalidated;
  slave_state = if cfg.role == master then invalidated else k.state;
})

unfoldable pub metadata : Moment → KeyId → M Metadata
unfolding expire describe
metadata t id = do
  r ← read
  refuse r.broken Errors.state
  expire t
  r' ← read
  describe r'.cfg r'.pair id (lookup id r'.book.keys)

unfoldable pub min : ℕ → ℕ → ℕ
min a b = if ltb a b then a else b

unfoldable pub stock : ℕ → ℕ → Option ℕ → ℕ
unfolding min
stock capacity attempts none = 0
stock capacity attempts (some n) = min n (capacity - attempts)

unfoldable pub counted : ℕ → Repository → Option ℕ → Result (Unit {0}) → Inventory
unfolding stock
counted capacity r upstream (ok _) = record {
  available = stock r.capacity r.book.attempts upstream;
  capacity = capacity;
}
counted capacity r upstream _ = record { available = 0; capacity = capacity }

-- `upstream` is the number that the service reports, when it answers with one that is not
-- negative.
unfoldable pub inventory : Option ℕ → Moment → Repository → Association → Repository × Inventory
unfolding check counted
inventory upstream t r a = let o = check t a master r in (o.0, counted r.capacity o.0 upstream o.1)
