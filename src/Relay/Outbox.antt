-- ===== src/Relay/Outbox.antt =====
-- engine.go: the worker. `Step` lets go of the lock around every call to a peer, so its
-- transactions are operations of their own, between which any other operation may run.
use transeuroogs_kms.Common.{
  ℕ, Bool, true, false, not, ◌&&◌, ◌||◌, Option, none, some, List, [], ◌∷◌, ◌++◌, Text,
  text_eq_instance, ascii, ltb, nat_eq, length, if◌then◌else◌,
}
use transeuroogs_kms.Common.Dict.{Dict, lookup, insert, adjust, erase, keys}
use transeuroogs_kms.Core.Errors.{Result, ok, err, panic, unavailable}
use transeuroogs_kms.Core.Id.{KeyId}
use transeuroogs_kms.Etsi020.{Transfer, Void}
use transeuroogs_kms.Etsi020.Base64.{encode}
use transeuroogs_kms.Peering.{Peer, Config, base}
use transeuroogs_kms.Relay.{target, role_eq, Rec, AckJob, Ledger, Engine}
use transeuroogs_kms.Relay.Serve.{Outcome, change, void_record}
use transeuroogs_kms.Relay.Accept.{due}

-- Whether some record is due; the reading may differ from the one of the transaction.
unfoldable pub any_due : (KeyId → ℕ) → Dict KeyId Rec → Bool
unfolding due
any_due clock [] = false
any_due clock ((id, r) ∷ rs) = due (clock id) r || any_due clock rs

unfoldable pub expire_found : ℕ → (Text → KeyId) → KeyId → Ledger → Option Rec → Ledger
unfolding due void_record
expire_found now draw id s none = s
expire_found now draw id s (some r) = if due now r then void_record draw [] id r s else s

unfoldable pub expire_ids : (KeyId → ℕ) → (KeyId → Text → KeyId) → List KeyId → Ledger → Ledger
unfolding expire_found
expire_ids clock draw [] s = s
expire_ids clock draw (id ∷ ids) s =
    expire_ids clock draw ids (expire_found (clock id) (draw id) id s (lookup id s.records))

unfoldable pub expire_in :
    (KeyId → ℕ) → (KeyId → Text → KeyId) → Ledger → Result (Ledger × Unit {0})
unfolding expire_ids
expire_in clock draw s = ok (expire_ids clock draw (keys s.records) s, tt)

-- The first part of `Step`; nothing happens to a poisoned engine.
unfoldable pub expire_due :
    Bool → (KeyId → ℕ) → (KeyId → ℕ) → (KeyId → Text → KeyId) → Engine → Outcome (Unit {0})
unfolding any_due expire_in change
expire_due saved first clock draw e =
    if not e.broken && any_due first e.ledger.records
    then change saved e (expire_in clock draw)
    else (e, ok tt)

-- A job after the peer answered it, or did not.
unfoldable pub settled : Bool → ℕ → KeyId → Ledger → Option AckJob → Ledger
settled answered again id s none = s
settled true again id s (some j) = record s { acks = erase id s.acks }
settled false again id s (some j) = record s {
  acks = insert id (record j { retry = again }) s.acks;
}

unfoldable pub settle_in : Bool → ℕ → KeyId → Ledger → Result (Ledger × Unit {0})
unfolding settled
settle_in answered again id s = ok (settled answered again id s (lookup id s.acks), tt)

unfoldable pub settle_job : Bool → Bool → ℕ → Engine → KeyId → Outcome (Unit {0})
unfolding change settle_in
settle_job saved answered again e id = change saved e (settle_in answered again id)

pub data Plan : Type 0 where
  rest : Plan
  remind : List Text → Plan
  wait : Plan
  send : Text → Plan

-- The first candidate that answers the probe, else the peer that the record has.
unfoldable pub probe_first : (Text → Bool) → List Text → Text → Text
probe_first probe [] peer = peer
probe_first probe (c ∷ cs) peer =
    let later = probe_first probe cs peer in if probe c then c else later

-- What `sendRecord` decides to do for the record that it copied.
unfoldable pub plan : (Text → Bool) → ℕ → Rec → Plan
unfolding probe_first
plan probe now r =
    if ltb now r.retry
    then rest
    else if r.voiding
    then (if ltb 0 (length r.void_pending) then remind r.void_pending else rest)
    else if r.ready || r.delivered || role_eq r.role target
    then rest
    else if r.sent
    then send r.next
    else (let peer = probe_first probe r.candidates r.next in
        if nat_eq (length peer) 0 then wait else send peer)

unfoldable pub put_off : ℕ → Rec → Rec
put_off again r = record r { retry = again }

unfoldable pub delayed : ℕ → KeyId → Ledger → Option Rec → Result (Ledger × Unit {0})
unfolding put_off
delayed again id s none = panic
delayed again id s (some _) = ok (record s { records = adjust id (put_off again) s.records }, tt)

unfoldable pub delay_in : ℕ → KeyId → Ledger → Result (Ledger × Unit {0})
unfolding delayed
delay_in again id s = delayed again id s (lookup id s.records)

-- The transaction after reminders, and when no candidate answers.
unfoldable pub delay : Bool → ℕ → Engine → KeyId → Outcome (Unit {0})
unfolding change delay_in
delay saved again e id = change saved e (delay_in again id)

unfoldable pub pin : Text → ℕ → Rec → Rec
pin peer again r = record r { next = peer; sent = true; retry = again }

unfoldable pub pinned : ℕ → ℕ → KeyId → Text → Ledger → Option Rec → Result (Ledger × Unit {0})
unfolding pin
pinned now again id peer s none = panic
pinned now again id peer s (some r) =
    if r.voiding || r.ready || not (ltb now r.expires)
    then err unavailable
    else ok (record s { records = adjust id (pin peer again) s.records }, tt)

unfoldable pub commit_in : ℕ → ℕ → KeyId → Text → Ledger → Result (Ledger × Unit {0})
unfolding pinned
commit_in now again id peer s = pinned now again id peer s (lookup id s.records)

-- The transaction before the transfer goes out.
unfoldable pub commit_send : Bool → ℕ → ℕ → Engine → KeyId → Text → Outcome (Unit {0})
unfolding change commit_in
commit_send saved now again e id peer = change saved e (commit_in now again id peer)

unfoldable pub mode_of : Option Peer → Text
mode_of none = []
mode_of (some p) = p.mode

-- What goes out to the peer.
unfoldable pub callback : Config → Text → Text
unfolding mode_of
callback cfg peer = cfg.public_url ++ base (mode_of (lookup peer cfg.peers)) ++ ascii "/ack"

unfoldable pub transfer_of : Config → Text → KeyId → Rec → Transfer
unfolding callback
transfer_of cfg peer id r = record {
  keys = record { id = id; value = encode r.material; extension = r.key_extension } ∷ [];
  initiator = r.pair.master;
  targets = r.pair.slave ∷ [];
  callback = callback cfg peer;
  mandatory = none;
  optional = r.optional;
}

unfoldable pub void_of : Config → Text → KeyId → Rec → Void
unfolding callback
void_of cfg peer id r = record {
  ids = some (id ∷ []);
  initiator = r.pair.master;
  targets = r.pair.slave ∷ [];
  callback = callback cfg peer;
  all = false;
  extension = none;
}
