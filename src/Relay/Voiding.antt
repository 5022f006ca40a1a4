-- ===== src/Relay/Voiding.antt =====
-- engine.go: the jobs of the outbox and the withdrawal of a key.
use transeuroogs_kms.Common.{
  Bool, true, false, ◌&&◌, Option, none, some, List, [], ◌∷◌, Text, ◌==◌, text_eq_instance, nat_eq,
  ltb, length, contains, if◌then◌else◌,
}
use transeuroogs_kms.Common.Dict.{Dict, insert}
use transeuroogs_kms.Core.Id.{KeyId}
use transeuroogs_kms.Etsi020.{KeyRef, AckStatus, voided, failed_to_void, key_not_present, status_eq}
use transeuroogs_kms.Relay.{Rec, AckJob}

first_id : Option (List KeyRef) → KeyId
first_id none = []
first_id (some []) = []
first_id (some (r ∷ _)) = r.id

-- `keyID`
unfoldable pub job_key : AckJob → KeyId
unfolding first_id
job_key j = first_id j.ack.ids

-- Whether the job is the pending result of the key for the peer.
unfoldable pub answers : Text → KeyId → AckJob → Bool
unfolding job_key
answers peer id j = j.peer == peer && job_key j == id

-- The loop of `enqueue`: whether it meets a job with the same result, where it stops, and the jobs
-- that are left.
unfoldable pub drop_stale : Text → KeyId → AckStatus → Dict KeyId AckJob → Bool × Dict KeyId AckJob
unfolding answers
drop_stale peer id status [] = (false, [])
drop_stale peer id status ((k, j) ∷ acks) =
    let rest = drop_stale peer id status acks in
    if answers peer id j
    then (if status_eq j.ack.status status then (true, (k, j) ∷ acks) else rest)
    else (rest.0, (k, j) ∷ rest.1)

unfoldable pub new_job : Text → Rec → AckStatus → AckJob
new_job peer r status = record {
  peer = peer;
  ack = record {
    ids = some (record { id = r.id; extension = none } ∷ []);
    status = status;
    initiator = r.pair.master;
    targets = r.pair.slave ∷ [];
    message = [];
    extension = none;
  };
  retry = 0;
}

unfoldable pub enqueue : KeyId → Dict KeyId AckJob → Text → Rec → AckStatus → Dict KeyId AckJob
unfolding drop_stale new_job
enqueue draw acks peer r status =
    let d = drop_stale peer r.id status acks in
    if nat_eq (length peer) 0
    then acks
    else if d.0
    then d.1
    else insert draw (new_job peer r status) d.1

-- A set with an element, and without one.
unfoldable pub with_peer : Text → List Text → List Text
with_peer p ps = if contains ps p then ps else p ∷ ps

unfoldable pub without_peer : Text → List Text → List Text
without_peer p [] = []
without_peer p (q ∷ ps) = let rest = without_peer p ps in if q == p then rest else q ∷ rest

unfoldable pub pending_peers : Rec → List Text
unfolding with_peer
pending_peers r =
    let ps = if r.sent then r.next ∷ [] else [] in
    if nat_eq (length r.sender) 0 then ps else with_peer r.sender ps

-- The withdrawal of a record that was not withdrawn before.
unfoldable pub withdraw : Rec → Rec
unfolding pending_peers
withdraw r = record r {
  voiding = true;
  ready = false;
  token = [];
  void_failed = r.delivered;
  retry = 0;
  material = [];
  void_pending = pending_peers r;
  void_requests = [];
}

request : Text → Rec → Rec
unfolding with_peer without_peer
request peer r = if nat_eq (length peer) 0 then r else record r {
  void_requests = with_peer peer r.void_requests;
  void_pending = without_peer peer r.void_pending;
}

-- What `startVoid` does to the record, and to the jobs.
unfoldable pub start_void : Text → Rec → Rec
unfolding withdraw request
start_void peer r = request peer (if r.voiding then r else withdraw r)

unfoldable pub drop_jobs : KeyId → Dict KeyId AckJob → Dict KeyId AckJob
unfolding job_key
drop_jobs id [] = []
drop_jobs id ((k, j) ∷ acks) =
    let rest = drop_jobs id acks in if job_key j == id then rest else (k, j) ∷ rest

unfoldable pub start_void_jobs : Rec → Dict KeyId AckJob → Dict KeyId AckJob
unfolding drop_jobs
start_void_jobs r acks = if r.voiding then acks else drop_jobs r.id acks

unfoldable pub void_status : Rec → AckStatus
void_status r =
    if r.void_failed then failed_to_void else if r.unknown then key_not_present else voided

enqueue_all : (Text → KeyId) → Rec → AckStatus → List Text → Dict KeyId AckJob → Dict KeyId AckJob
unfolding enqueue
enqueue_all draw r status [] acks = acks
enqueue_all draw r status (p ∷ ps) acks =
    enqueue_all draw r status ps (enqueue (draw p) acks p r status)

unfoldable pub finish_void : (Text → KeyId) → Rec → Dict KeyId AckJob → Dict KeyId AckJob
unfolding enqueue_all void_status
finish_void draw r acks =
    if ltb 0 (length r.void_pending)
    then acks
    else enqueue_all draw r (void_status r) r.void_requests acks
