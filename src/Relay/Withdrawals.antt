-- ===== src/Relay/Withdrawals.antt =====
-- engine.go: the withdrawals that arrive from the peers.
use transeuroogs_kms.Common.{
  ℕ, ◌+◌, Bool, true, false, not, ◌&&◌, ◌||◌, Option, none, some, List, [], ◌∷◌, Text, ◌==◌,
  text_eq_instance, ltb, length, contains, if◌then◌else◌,
}
use transeuroogs_kms.Common.Dict.{Dict, lookup, insert}
use transeuroogs_kms.Core.Errors.{Error, Result, ok, err, panic, unavailable, unauthorized}
use transeuroogs_kms.Core.Errors
use transeuroogs_kms.Core.Id.{KeyId}
use transeuroogs_kms.Core.Key.{Association, association_eq_instance}
use transeuroogs_kms.Etsi020.{KeyRef, Void, key_not_present}
use transeuroogs_kms.Etsi020.Validate.{validate_void}
use transeuroogs_kms.Peering.{Peer}
use transeuroogs_kms.Relay.{relay, target, Rec, AckJob, Ledger, Engine}
use transeuroogs_kms.Relay.Serve.{Outcome, change, is_local, void_record}
use transeuroogs_kms.Relay.Sources.{blank, add_record}
use transeuroogs_kms.Relay.Accept.{ack_url, first_target, pair_of}

-- The keys of the pair that came from the peer or went to it, in the order of arrival.
unfoldable pub shared_with : Association → Text → List KeyId → Dict KeyId Rec → Result (List KeyId)
shared_with a peer [] rs = ok []
shared_with a peer (id ∷ order) rs =
    let rest = shared_with a peer order rs in
    elim (lookup id rs) [
      | none ↦ panic
      | some r ↦
          if r.pair == a && (r.sender == peer || r.next == peer)
          then elim rest [ ok ids ↦ ok (id ∷ ids) | err e ↦ err e | panic ↦ panic ]
          else rest
    ]

empty_ids : Option (List KeyRef) → Bool
empty_ids none = true
empty_ids (some []) = true
empty_ids (some (r ∷ _)) = false

-- Whether a job already tells the peer that it has no key of the pair.
unfoldable pub tells_absent : Association → Text → Dict KeyId AckJob → Bool
unfolding empty_ids
tells_absent a peer [] = false
tells_absent a peer ((_, j) ∷ acks) =
    (j.peer == peer
      && empty_ids j.ack.ids
      && j.ack.initiator == a.master
      && first_target j.ack.targets == a.slave)
    || tells_absent a peer acks

absent_job : Association → Text → AckJob
absent_job a peer = record {
  peer = peer;
  ack = record {
    ids = some [];
    status = key_not_present;
    initiator = a.master;
    targets = a.slave ∷ [];
    message = [];
    extension = none;
  };
  retry = 0;
}

unfoldable pub tell_absent : KeyId → Association → Text → Ledger → Ledger
unfolding tells_absent absent_job
tell_absent draw a peer s =
    if tells_absent a peer s.acks
    then s
    else record s { acks = insert draw (absent_job a peer) s.acks }

-- `ok n` when the peer may withdraw the keys, `n` of which are not known here.
unfoldable pub new_voids : Bool → Text → Association → List KeyId → Dict KeyId Rec → Result ℕ
new_voids incoming peer a [] rs = ok 0
new_voids incoming peer a (id ∷ ids) rs =
    let rest = new_voids incoming peer a ids rs in
    elim (lookup id rs) [
      | none ↦
          if not incoming
          then err unauthorized
          else elim rest [ ok n ↦ ok (n + 1) | err e ↦ err e | panic ↦ panic ]
      | some r ↦
          if not (r.pair == a) || (not (r.sender == peer) && not (r.next == peer))
          then err unauthorized
          else rest
    ]

-- A key that is withdrawn before it was received.
unfoldable pub unknown_record : (ℕ → ℕ) → Engine → Text → Association → KeyId → Rec
unfolding is_local blank
unknown_record clock e peer a id =
    record (blank id a (if is_local e a.slave then target else relay) (clock 0) (clock 1)) {
      sender = peer;
      unknown = true;
    }

unfoldable pub void_key :
    (ℕ → ℕ) → (Text → KeyId) → Engine → Text → Association → KeyId → Ledger → Option Rec → Ledger
unfolding unknown_record void_record add_record
void_key clock draw e peer a id s (some r) = void_record draw peer id r s
void_key clock draw e peer a id s none =
    let r = unknown_record clock e peer a id in void_record draw peer id r (add_record r s)

unfoldable pub void_keys :
    (KeyId → ℕ → ℕ)
    → (KeyId → Text → KeyId)
    → Engine
    → Text
    → Association
    → List KeyId
    → Ledger
    → Ledger
unfolding void_key
void_keys clock draw e peer a [] s = s
void_keys clock draw e peer a (id ∷ ids) s =
    void_keys clock draw e peer a ids
      (void_key (clock id) (draw id) e peer a id s (lookup id s.records))

unfoldable pub void_counted : Engine → Ledger → Result ℕ → Ledger → Result (Ledger × Unit {0})
void_counted e s (ok n) after =
    if ltb e.capacity (length s.records + n) then err Errors.capacity else ok (after, tt)
void_counted e s (err x) after = err x
void_counted e s panic after = panic

-- The transaction for the ids that are meant; `draw [] []` names the job of the empty answer.
unfoldable pub void_found :
    (KeyId → ℕ → ℕ)
    → (KeyId → Text → KeyId)
    → Engine
    → Text
    → Bool
    → Association
    → Ledger
    → Result (List KeyId)
    → Result (Ledger × Unit {0})
unfolding tell_absent void_counted new_voids void_keys
void_found clock draw e peer incoming a s (ok []) = ok (tell_absent (draw [] []) a peer s, tt)
void_found clock draw e peer incoming a s (ok (id ∷ ids)) =
    void_counted e s (new_voids incoming peer a (id ∷ ids) s.records)
      (void_keys clock draw e peer a (id ∷ ids) s)
void_found clock draw e peer incoming a s (err x) = err x
void_found clock draw e peer incoming a s panic = panic

unfoldable pub named_ids : Association → Text → Ledger → Option (List KeyId) → Result (List KeyId)
unfolding shared_with
named_ids a peer s (some (id ∷ ids)) = ok (id ∷ ids)
named_ids a peer s _ = shared_with a peer s.order s.records

unfoldable pub void_in :
    (KeyId → ℕ → ℕ)
    → (KeyId → Text → KeyId)
    → Engine
    → Text
    → Bool
    → Association
    → Option (List KeyId)
    → Ledger
    → Result (Ledger × Unit {0})
unfolding void_found named_ids
void_in clock draw e peer incoming a ids s =
    void_found clock draw e peer incoming a s (named_ids a peer s ids)

unfoldable pub void_from :
    Bool
    → (KeyId → ℕ → ℕ)
    → (KeyId → Text → KeyId)
    → Engine
    → Text
    → Void
    → Option Peer
    → Outcome (Unit {0})
unfolding change void_in pair_of
void_from saved clock draw e peer v none = (e, err unauthorized)
void_from saved clock draw e peer v (some p) =
    let a = pair_of v.initiator v.targets in
    if not (v.callback == ack_url p) || not (contains e.allowed a)
    then (e, err unauthorized)
    else change saved e (void_in clock draw e peer p.incoming a v.ids)

unfoldable pub void_checked :
    Bool
    → (KeyId → ℕ → ℕ)
    → (KeyId → Text → KeyId)
    → Engine
    → Text
    → Void
    → Option Error
    → Outcome (Unit {0})
unfolding void_from
void_checked saved clock draw e peer v (some x) = (e, err x)
void_checked saved clock draw e peer v none =
    void_from saved clock draw e peer v (lookup peer e.cfg.peers)

unfoldable pub void :
    Bool → (KeyId → ℕ → ℕ) → (KeyId → Text → KeyId) → Engine → Text → Void → Outcome (Unit {0})
unfolding void_checked
void saved clock draw e peer v = void_checked saved clock draw e peer v (validate_void v)
