-- ===== src/Relay/Accept.antt =====
-- engine.go: transfers that arrive from the peers. `draw id peer` is the identifier drawn for a
-- job, and `clock id n` the reading number `n` while the id is handled.
use transeuroogs_kms.Common.{
  ℕ, ◌+◌, Bool, true, not, ◌&&◌, ◌||◌, Option, none, some, List, [], ◌∷◌, ◌++◌, Text, ◌==◌,
  text_eq_instance, ascii, ltb, length, contains, if◌then◌else◌,
}
use transeuroogs_kms.Common.Dict.{Dict, lookup, adjust}
use transeuroogs_kms.Core.Errors.{
  Error, Result, ok, err, panic, invalid, unavailable, unauthorized, duplicate,
}
use transeuroogs_kms.Core.Errors
use transeuroogs_kms.Core.Id.{KeyId}
use transeuroogs_kms.Core.Key.{Association, association_eq_instance}
use transeuroogs_kms.Etsi020.{Extension, ExternalKey, Transfer, relayed}
use transeuroogs_kms.Etsi020.Base64.{decode}
use transeuroogs_kms.Etsi020.Validate.{validate_transfer}
use transeuroogs_kms.Peering.{Peer, base}
use transeuroogs_kms.Relay.{Role, relay, target, Rec, AckJob, Ledger, Engine}
use transeuroogs_kms.Relay.Voiding.{enqueue, start_void, start_void_jobs, finish_void}
use transeuroogs_kms.Relay.Serve.{Outcome, change, is_local}
use transeuroogs_kms.Relay.Sources.{candidates, blank, add_record}

abbrev pub hour : ℕ
hour = 3600000000000

-- `if !r.Voiding && !e.now().Before(r.Expires) { startVoid(s, r, peer) }`
unfoldable pub due : ℕ → Rec → Bool
due now r = not r.voiding && not (ltb now r.expires)

unfoldable pub lapse : ℕ → Text → Rec → Rec
unfolding due start_void
lapse now peer r = if due now r then start_void peer r else r

unfoldable pub lapse_jobs : ℕ → Rec → Dict KeyId AckJob → Dict KeyId AckJob
unfolding due start_void_jobs
lapse_jobs now r acks = if due now r then start_void_jobs r acks else acks

unfoldable pub first_target : List Text → Text
first_target [] = []
first_target (t ∷ _) = t

-- The association that a message names.
unfoldable pub pair_of : Text → List Text → Association
unfolding first_target
pair_of initiator targets = record { master = initiator; slave = first_target targets }

-- `ok n` when the peer may send the keys, `n` of which are new.
unfoldable pub new_keys :
    (ExternalKey → Text) → Text → Association → List ExternalKey → Dict KeyId Rec → Result ℕ
new_keys digest peer a [] rs = ok 0
new_keys digest peer a (k ∷ ks) rs =
    let rest = new_keys digest peer a ks rs in
    elim (lookup k.id rs) [
      | some r ↦
          if not (r.sender == peer) || not (r.pair == a)
          then err unauthorized
          else if not r.unknown && not (r.digest == digest k)
          then err duplicate
          else rest
      | none ↦ elim rest [ ok n ↦ ok (n + 1) | err e ↦ err e | panic ↦ panic ]
    ]

-- A key that is known already is answered again, and nothing of it is restored.
unfoldable pub repeated : ℕ → (Text → KeyId) → Text → Rec → Dict KeyId AckJob → Dict KeyId AckJob
unfolding lapse lapse_jobs finish_void enqueue
repeated now draw peer r acks =
    let r' = lapse now peer r in
    let acks' = lapse_jobs now r acks in
    if r'.voiding
    then finish_void draw r' acks'
    else if r'.ready
    then enqueue (draw peer) acks' peer r' relayed
    else acks'

unfoldable pub or_empty : Option (List ℕ) → List ℕ
or_empty none = []
or_empty (some b) = b

-- The record of a new key, in the role that the addressee gives it.
unfoldable pub received :
    (ExternalKey → Text) → (ℕ → ℕ) → Text → Association → Extension → Role → ExternalKey → Rec
unfolding blank decode or_empty
received digest clock peer a optional role k =
    record (blank k.id a role (clock 1) (clock 2 + hour)) {
      sender = peer;
      material = or_empty (decode k.value);
      digest = digest k;
      key_extension = k.extension;
      optional = optional;
    }

unfoldable pub relay_routed : Rec → Ledger × List Text → Result Ledger
unfolding add_record
relay_routed r (s, []) = err unavailable
relay_routed r (s, p ∷ route) = ok (add_record (record r { candidates = p ∷ route }) s)

unfoldable pub accept_new :
    (ExternalKey → Text)
    → (ℕ → ℕ)
    → (Text → KeyId)
    → Engine
    → Text
    → Association
    → Extension
    → ExternalKey
    → Ledger
    → Result Ledger
unfolding received relay_routed add_record candidates enqueue is_local
accept_new digest clock draw e peer a optional k s =
    if is_local e a.slave
    then (let r = record (received digest clock peer a optional target k) { ready = true } in
        ok (add_record r (record s { acks = enqueue (draw peer) s.acks peer r relayed })))
    else relay_routed (received digest clock peer a optional relay k) (candidates e s a.slave peer)

unfoldable pub accept_found :
    (ExternalKey → Text)
    → (ℕ → ℕ)
    → (Text → KeyId)
    → Engine
    → Text
    → Association
    → Extension
    → ExternalKey
    → Ledger
    → Option Rec
    → Result Ledger
unfolding accept_new repeated
accept_found digest clock draw e peer a optional k s (some r) = ok (record s {
  records = adjust k.id (lapse (clock 0) peer) s.records;
  acks = repeated (clock 0) draw peer r s.acks;
})
accept_found digest clock draw e peer a optional k s none =
    accept_new digest clock draw e peer a optional k s

unfoldable pub accept_rest :
    (Ledger → Result (Ledger × Unit {0})) → Result Ledger → Result (Ledger × Unit {0})
accept_rest go (ok s) = go s
accept_rest go (err x) = err x
accept_rest go panic = panic

-- The second loop.
unfoldable pub accept_keys :
    (ExternalKey → Text)
    → (KeyId → ℕ → ℕ)
    → (KeyId → Text → KeyId)
    → Engine
    → Text
    → Association
    → Extension
    → List ExternalKey
    → Ledger
    → Result (Ledger × Unit {0})
unfolding accept_found accept_rest
accept_keys digest clock draw e peer a optional [] s = ok (s, tt)
accept_keys digest clock draw e peer a optional (k ∷ ks) s =
    accept_rest (accept_keys digest clock draw e peer a optional ks)
      (accept_found digest (clock k.id) (draw k.id) e peer a optional k s (lookup k.id s.records))

unfoldable pub accept_counted :
    Engine → Ledger → Result ℕ → Result (Ledger × Unit {0}) → Result (Ledger × Unit {0})
accept_counted e s (ok n) go =
    if ltb e.capacity (length s.records + n) then err Errors.capacity else go
accept_counted e s (err x) go = err x
accept_counted e s panic go = panic

unfoldable pub ack_url : Peer → Text
ack_url p = p.url ++ base p.mode ++ ascii "/ack"

unfoldable pub accept_in :
    (ExternalKey → Text)
    → (KeyId → ℕ → ℕ)
    → (KeyId → Text → KeyId)
    → Engine
    → Text
    → Association
    → Transfer
    → Ledger
    → Result (Ledger × Unit {0})
unfolding accept_counted new_keys accept_keys
accept_in digest clock draw e peer a t s =
    accept_counted e s (new_keys digest peer a t.keys s.records)
      (accept_keys digest clock draw e peer a t.optional t.keys s)

unfoldable pub accept_from :
    (ExternalKey → Association → Extension → Text)
    → Bool
    → (KeyId → ℕ → ℕ)
    → (KeyId → Text → KeyId)
    → Engine
    → Text
    → Transfer
    → Option Peer
    → Outcome (Unit {0})
unfolding change is_local accept_in ack_url pair_of
accept_from digest saved clock draw e peer t none = (e, err unauthorized)
accept_from digest saved clock draw e peer t (some p) =
    let a = pair_of t.initiator t.targets in
    if not p.incoming
      || not (t.callback == ack_url p)
      || not (contains e.allowed a)
      || is_local e a.master
    then (e, err unauthorized)
    else change saved e (accept_in (λ k. digest k a t.optional) clock draw e peer a t)

unfoldable pub accept_checked :
    (ExternalKey → Association → Extension → Text)
    → Bool
    → (KeyId → ℕ → ℕ)
    → (KeyId → Text → KeyId)
    → Engine
    → Text
    → Transfer
    → Option Error
    → Outcome (Unit {0})
unfolding accept_from
accept_checked digest saved clock draw e peer t (some x) = (e, err x)
accept_checked digest saved clock draw e peer t none =
    accept_from digest saved clock draw e peer t (lookup peer e.cfg.peers)

unfoldable pub accept :
    (ExternalKey → Association → Extension → Text)
    → Bool
    → (KeyId → ℕ → ℕ)
    → (KeyId → Text → KeyId)
    → Engine
    → Text
    → Transfer
    → Outcome (Unit {0})
unfolding accept_checked
accept digest saved clock draw e peer t =
    accept_checked digest saved clock draw e peer t (validate_transfer t)
