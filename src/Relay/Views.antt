-- ===== src/Relay/Views.antt =====
-- engine.go: the operations that only read. A poisoned engine answers none of them, except for
-- the counters.
use transeuroogs_kms.Common.{
  ℕ, ◌+◌, not, none, some, [], ◌∷◌, Text, text_eq_instance, ascii, ltb, length, count,
  if◌then◌else◌,
}
use transeuroogs_kms.Common.Dict.{Dict, lookup, insert}
use transeuroogs_kms.Core.Errors.{Result, ok, err, unavailable}
use transeuroogs_kms.Core.Errors
use transeuroogs_kms.Core.Id.{KeyId}
use transeuroogs_kms.Core.Key.{
  Association, Inventory, Metadata, State, available, reserved, consumed, invalidated, expired,
}
use transeuroogs_kms.Relay.{Role, source, relay, target, role_eq, Rec, Engine, usable}
use transeuroogs_kms.Relay.Serve.{offers}

unfoldable pub inventory : (KeyId → ℕ) → Engine → Association → Inventory
unfolding offers
inventory clock e a = record {
  available = if e.broken then 0 else count (λ p. offers a (clock p.0) p.1) e.ledger.records;
  capacity = e.capacity;
}

-- The last rule that applies decides; the clock is read for use and for expiry.
unfoldable pub state_of : ℕ → ℕ → Rec → State
state_of now later r =
    if r.delivered
    then consumed
    else if not (ltb later r.expires)
    then expired
    else if r.voiding
    then invalidated
    else if usable now r
    then available
    else reserved

role_name : Role → Text
role_name source = ascii "source"
role_name relay = ascii "relay"
role_name target = ascii "target"

unfoldable pub describe : ℕ → ℕ → KeyId → Rec → Metadata
unfolding state_of role_name
describe now later id r = record {
  id = id;
  association = r.pair;
  source = role_name r.role;
  created_at = r.created;
  expires_at = r.expires;
  master_state = if role_eq r.role source then state_of now later r else reserved;
  slave_state = if role_eq r.role target then state_of now later r else reserved;
}

unfoldable pub metadata : ℕ → ℕ → Engine → KeyId → Result Metadata
unfolding describe
metadata now later e id = if e.broken then err Errors.state else elim (lookup id e.ledger.records) [
  | none ↦ err unavailable
  | some r ↦ ok (describe now later id r)
]

pub record Snapshot : Type 0 where
  pub records : ℕ
  pub ready : ℕ
  pub delivered : ℕ
  pub voiding : ℕ
  pub pending_acks : ℕ
  pub paths : Dict Text ℕ

-- `m[k]++`
unfoldable pub bump : Text → Dict Text ℕ → Dict Text ℕ
bump k m = elim (lookup k m) [ none ↦ insert k 1 m | some n ↦ insert k (n + 1) m ]

sent_paths : Dict KeyId Rec → Dict Text ℕ → Dict Text ℕ
unfolding bump
sent_paths [] m = m
sent_paths ((_, r) ∷ rs) m = sent_paths rs (if r.sent then bump r.next m else m)

unfoldable pub snapshot : Engine → Snapshot
unfolding sent_paths
snapshot e = record {
  records = length e.ledger.records;
  ready = count (λ p. p.1.ready) e.ledger.records;
  delivered = count (λ p. p.1.delivered) e.ledger.records;
  voiding = count (λ p. p.1.voiding) e.ledger.records;
  pending_acks = length e.ledger.acks;
  paths = sent_paths e.ledger.records [];
}
