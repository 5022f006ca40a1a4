-- ===== src/Relay/Acks.antt =====
-- engine.go: the results that arrive from the peers.
use transeuroogs_kms.Common.{
  ℕ, Bool, true, not, ◌&&◌, ◌||◌, Option, none, some, List, [], ◌∷◌, Text, ◌==◌, text_eq_instance,
  if◌then◌else◌,
}
use transeuroogs_kms.Common.Dict.{Dict, lookup, adjust}
use transeuroogs_kms.Core.Errors.{Error, Result, ok, err, panic, unauthorized}
use transeuroogs_kms.Core.Id.{KeyId}
use transeuroogs_kms.Core.Key.{association_eq_instance}
use transeuroogs_kms.Etsi020.{
  KeyRef, AckStatus, Ack, relayed, voided, failed_to_void, key_not_present, status_eq,
}
use transeuroogs_kms.Etsi020.Validate.{validate_acks}
use transeuroogs_kms.Peering.{Peer}
use transeuroogs_kms.Relay.{relay, role_eq, Rec, AckJob, Ledger, Engine}
use transeuroogs_kms.Relay.Voiding.{enqueue, start_void, start_void_jobs, finish_void, without_peer}
use transeuroogs_kms.Relay.Serve.{Outcome, change}
use transeuroogs_kms.Relay.Accept.{lapse, lapse_jobs, first_target, accept_rest}

-- The references of all messages, each beside its message.
refs_of : Ack → List KeyRef → List (Ack × KeyId) → List (Ack × KeyId)
refs_of a [] rest = rest
refs_of a (r ∷ rs) rest = (a, r.id) ∷ refs_of a rs rest

ack_ids : Ack → Option (List KeyRef) → List (Ack × KeyId) → List (Ack × KeyId)
unfolding refs_of
ack_ids a none rest = rest
ack_ids a (some rs) rest = refs_of a rs rest

unfoldable pub answered : List Ack → List (Ack × KeyId)
unfolding ack_ids
answered [] = []
answered (a ∷ acks) = ack_ids a a.ids (answered acks)

-- Whether the peer may report this of the record.
unfoldable pub may_report : Text → Ack → Rec → Bool
may_report peer a r =
    r.pair.master == a.initiator
    && r.pair.slave == first_target a.targets
    && (r.next == peer || (r.voiding && r.sender == peer))
    && (not (status_eq a.status relayed) || (r.sent && peer == r.next))

unfoldable pub check_acks : Text → List (Ack × KeyId) → Dict KeyId Rec → Result (Unit {0})
unfolding may_report
check_acks peer [] rs = ok tt
check_acks peer ((a, id) ∷ acks) rs =
    let rest = check_acks peer acks rs in
    elim (lookup id rs) [
      | none ↦ err unauthorized
      | some r ↦ if may_report peer a r then rest else err unauthorized
    ]

unfoldable pub ends_void : AckStatus → Bool
ends_void status =
    status_eq status voided || status_eq status key_not_present || status_eq status failed_to_void

-- A withdrawn record after the answer of the peer.
unfoldable pub void_answer : Text → AckStatus → Rec → Rec
unfolding without_peer
void_answer peer status r = record r {
  void_pending = without_peer peer r.void_pending;
  void_failed = r.void_failed || status_eq status failed_to_void;
}

unfoldable pub hand_on : Rec → Rec
hand_on r = record r { ready = true; material = if role_eq r.role relay then [] else r.material }

-- The record after the report, which found it as `lapse` left it.
unfoldable pub report_record : Text → AckStatus → Rec → Rec
unfolding ends_void void_answer hand_on start_void
report_record peer status r =
    if r.voiding
    then (if ends_void status then void_answer peer status r else r)
    else if status_eq status relayed
    then hand_on r
    else start_void [] r

unfoldable pub report_jobs :
    (Text → KeyId) → Text → AckStatus → Rec → Dict KeyId AckJob → Dict KeyId AckJob
unfolding ends_void report_record finish_void enqueue start_void_jobs
report_jobs draw peer status r acks =
    if r.voiding
    then (if ends_void status then finish_void draw (report_record peer status r) acks else acks)
    else if status_eq status relayed
    then enqueue (draw r.sender) acks r.sender (report_record peer status r) relayed
    else finish_void draw (report_record peer status r) (start_void_jobs r acks)

-- One round of the second loop.
unfoldable pub report : ℕ → (Text → KeyId) → Text → AckStatus → KeyId → Rec → Ledger → Ledger
unfolding report_record report_jobs
report now draw peer status id r s = record s {
  records = adjust id (λ x. report_record peer status (lapse now [] x)) s.records;
  acks = report_jobs draw peer status (lapse now [] r) (lapse_jobs now r s.acks);
}

unfoldable pub report_found :
    ℕ → (Text → KeyId) → Text → AckStatus → KeyId → Ledger → Option Rec → Result Ledger
unfolding report
report_found now draw peer status id s none = panic
report_found now draw peer status id s (some r) = ok (report now draw peer status id r s)

-- The second loop.
unfoldable pub apply_acks :
    (KeyId → ℕ)
    → (KeyId → Text → KeyId)
    → Text
    → List (Ack × KeyId)
    → Ledger
    → Result (Ledger × Unit {0})
unfolding report_found accept_rest
apply_acks clock draw peer [] s = ok (s, tt)
apply_acks clock draw peer ((a, id) ∷ acks) s =
    accept_rest (apply_acks clock draw peer acks)
      (report_found (clock id) (draw id) peer a.status id s (lookup id s.records))

unfoldable pub checked_acks :
    Result (Unit {0}) → Result (Ledger × Unit {0}) → Result (Ledger × Unit {0})
checked_acks (ok _) go = go
checked_acks (err x) go = err x
checked_acks panic go = panic

unfoldable pub acknowledge_in :
    (KeyId → ℕ)
    → (KeyId → Text → KeyId)
    → Text
    → List (Ack × KeyId)
    → Ledger
    → Result (Ledger × Unit {0})
unfolding check_acks apply_acks checked_acks
acknowledge_in clock draw peer acks s =
    checked_acks (check_acks peer acks s.records) (apply_acks clock draw peer acks s)

unfoldable pub acknowledge_from :
    Bool
    → (KeyId → ℕ)
    → (KeyId → Text → KeyId)
    → Engine
    → Text
    → List Ack
    → Option Peer
    → Option Error
    → Outcome (Unit {0})
unfolding change acknowledge_in answered
acknowledge_from saved clock draw e peer acks none x = (e, err unauthorized)
acknowledge_from saved clock draw e peer acks (some _) (some x) = (e, err x)
acknowledge_from saved clock draw e peer acks (some _) none =
    change saved e (acknowledge_in clock draw peer (answered acks))

unfoldable pub acknowledge :
    Bool → (KeyId → ℕ) → (KeyId → Text → KeyId) → Engine → Text → List Ack → Outcome (Unit {0})
unfolding acknowledge_from
acknowledge saved clock draw e peer acks =
    acknowledge_from saved clock draw e peer acks (lookup peer e.cfg.peers) (validate_acks acks)
