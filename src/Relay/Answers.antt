-- ===== src/Relay/Answers.antt =====
-- Results and withdrawals of the peers keep the records and move them forward.
use transeuroogs_kms.Common.{
  ℕ, ◌+◌, ◌≡◌, refl, Bool, not, ◌||◌, Option, none, some, List, [], ◌∷◌, Text, ◌==◌,
  text_eq_instance, if_split, ltb, length, contains,
}
use transeuroogs_kms.Common.Dict.{lookup}
use transeuroogs_kms.Core.Errors.{Error, Result, ok, err, panic}
use transeuroogs_kms.Core.Id.{KeyId}
use transeuroogs_kms.Core.Key.{Association, association_eq_instance}
use transeuroogs_kms.Etsi020.{Ack, AckStatus, Void}
use transeuroogs_kms.Etsi020.Validate.{validate_acks, validate_void}
use transeuroogs_kms.Peering.{Peer}
use transeuroogs_kms.Relay.{Rec, Ledger, Engine}
use transeuroogs_kms.Relay.Sources.{add_record, blank}
use transeuroogs_kms.Relay.Accept.{lapse, ack_url, pair_of}
use transeuroogs_kms.Relay.Acks.{
  answered, report_record, report, report_found, apply_acks, check_acks, checked_acks,
  acknowledge_in, acknowledge_from, acknowledge,
}
use transeuroogs_kms.Relay.Withdrawals.{
  tell_absent, tells_absent, new_voids, unknown_record, void_key, void_keys, void_counted,
  void_found, named_ids, void_in, void_from, void_checked, void,
}
use transeuroogs_kms.Relay.Forward.{Fair-compose, lapse-Fair, report_record-Fair}
use transeuroogs_kms.Relay.Moves.{
  Moves, Moves-refl, Moves-trans, Moves-adjust, Leads, Leads-ok, Leads-err, Leads-panic, Keeps,
  Keeps-same, change-Keeps,
}
use transeuroogs_kms.Relay.Transitions.{void_record-Moves}
use transeuroogs_kms.Relay.Arrivals.{live-Kept, add_record-Moves, Goes, accept_rest-Leads}

report_found-Goes :
    (now : ℕ) (draw : Text → KeyId) (peer : Text) (status : AckStatus) (id : KeyId) (s : Ledger)
    → (o : Option Rec) → Goes s (report_found now draw peer status id s o)
unfolding report_found report Goes
report_found-Goes now draw peer status id s none = tt
report_found-Goes now draw peer status id s (some r) =
    Moves-adjust (λ x. report_record peer status (lapse now [] x)) id s.records
      (Fair-compose (lapse now []) (report_record peer status) (lapse-Fair now [])
        (report_record-Fair peer status))

apply_acks-Leads :
    (clock : KeyId → ℕ) (draw : KeyId → Text → KeyId) (peer : Text) (acks : List (Ack × KeyId))
    → (s : Ledger) → Leads s (apply_acks clock draw peer acks s)
unfolding apply_acks
apply_acks-Leads clock draw peer [] s = Leads-ok s _ _ (Moves-refl s.records)
apply_acks-Leads clock draw peer ((a, id) ∷ acks) s =
    accept_rest-Leads (apply_acks clock draw peer acks) s _ (apply_acks-Leads clock draw peer acks)
      (report_found-Goes (clock id) (draw id) peer a.status id s (lookup id s.records))

checked_acks-Leads :
    (s : Ledger) (c : Result (Unit {0})) (go : Result (Ledger × Unit {0}))
    → Leads s go
    → Leads s (checked_acks c go)
unfolding checked_acks
checked_acks-Leads s (ok _) go h = h
checked_acks-Leads s (err x) go h = Leads-err _ s x
checked_acks-Leads s panic go h = Leads-panic _ s

acknowledge_from-Keeps :
    (saved : Bool) (clock : KeyId → ℕ) (draw : KeyId → Text → KeyId) (e : Engine) (peer : Text)
    → (acks : List Ack) (o : Option Peer) (x : Option Error)
    → Keeps e (acknowledge_from saved clock draw e peer acks o x)
unfolding acknowledge_from acknowledge_in
acknowledge_from-Keeps saved clock draw e peer acks none x = Keeps-same e _
acknowledge_from-Keeps saved clock draw e peer acks (some p) (some x) = Keeps-same e _
acknowledge_from-Keeps saved clock draw e peer acks (some p) none =
    change-Keeps saved e (acknowledge_in clock draw peer (answered acks)) (
      checked_acks-Leads e.ledger (check_acks peer (answered acks) e.ledger.records) _
        (apply_acks-Leads clock draw peer (answered acks) e.ledger))

pub acknowledge-Keeps :
    (saved : Bool) (clock : KeyId → ℕ) (draw : KeyId → Text → KeyId) (e : Engine) (peer : Text)
    → (acks : List Ack) → Keeps e (acknowledge saved clock draw e peer acks)
unfolding acknowledge
acknowledge-Keeps saved clock draw e peer acks =
    acknowledge_from-Keeps saved clock draw e peer acks (lookup peer e.cfg.peers)
      (validate_acks acks)

tell_absent-records :
    (draw : KeyId) (a : Association) (peer : Text) (s : Ledger)
    → Moves s.records (tell_absent draw a peer s).records
unfolding tell_absent
tell_absent-records draw a peer s =
    if_split (λ (t : Ledger). Moves s.records t.records) (tells_absent a peer s.acks) _ _
      (λ _. Moves-refl s.records) (λ _. Moves-refl s.records)

void_key-Moves :
    (clock : ℕ → ℕ) (draw : Text → KeyId) (e : Engine) (peer : Text) (a : Association) (id : KeyId)
    → (s : Ledger) (o : Option Rec) → lookup id s.records ≡ o
    → Moves s.records (void_key clock draw e peer a id s o).records
unfolding void_key unknown_record blank
void_key-Moves clock draw e peer a id s (some r) found = void_record-Moves draw peer id r s
void_key-Moves clock draw e peer a id s none found =
    let r = unknown_record clock e peer a id in
    Moves-trans s.records (add_record r s).records _
      (add_record-Moves r s found (live-Kept r refl refl))
      (void_record-Moves draw peer id r (add_record r s))

void_keys-Moves :
    (clock : KeyId → ℕ → ℕ) (draw : KeyId → Text → KeyId) (e : Engine) (peer : Text)
    → (a : Association) (ids : List KeyId) (s : Ledger)
    → Moves s.records (void_keys clock draw e peer a ids s).records
unfolding void_keys
void_keys-Moves clock draw e peer a [] s = Moves-refl s.records
void_keys-Moves clock draw e peer a (id ∷ ids) s =
    let t = void_key (clock id) (draw id) e peer a id s (lookup id s.records) in
    Moves-trans s.records t.records _
      (void_key-Moves (clock id) (draw id) e peer a id s (lookup id s.records) refl)
      (void_keys-Moves clock draw e peer a ids t)

void_counted-Leads :
    (e : Engine) (s : Ledger) (n : Result ℕ) (t : Ledger)
    → Moves s.records t.records
    → Leads s (void_counted e s n t)
unfolding void_counted
void_counted-Leads e s (ok n) t m =
    if_split (Leads s) (ltb e.capacity (length s.records + n)) _ _ (λ _. Leads-err _ s _)
      (λ _. Leads-ok s t _ m)
void_counted-Leads e s (err x) t m = Leads-err _ s x
void_counted-Leads e s panic t m = Leads-panic _ s

void_found-Leads :
    (clock : KeyId → ℕ → ℕ) (draw : KeyId → Text → KeyId) (e : Engine) (peer : Text)
    (incoming : Bool)
    → (a : Association) (s : Ledger) (res : Result (List KeyId))
    → Leads s (void_found clock draw e peer incoming a s res)
unfolding void_found
void_found-Leads clock draw e peer incoming a s (ok []) =
    Leads-ok s _ _ (tell_absent-records (draw [] []) a peer s)
void_found-Leads clock draw e peer incoming a s (ok (id ∷ ids)) =
    void_counted-Leads e s (new_voids incoming peer a (id ∷ ids) s.records) _
      (void_keys-Moves clock draw e peer a (id ∷ ids) s)
void_found-Leads clock draw e peer incoming a s (err x) = Leads-err _ s x
void_found-Leads clock draw e peer incoming a s panic = Leads-panic _ s

void_from-Keeps :
    (saved : Bool) (clock : KeyId → ℕ → ℕ) (draw : KeyId → Text → KeyId) (e : Engine) (peer : Text)
    → (v : Void) (o : Option Peer) → Keeps e (void_from saved clock draw e peer v o)
unfolding void_from void_in
void_from-Keeps saved clock draw e peer v none = Keeps-same e _
void_from-Keeps saved clock draw e peer v (some p) =
    let a = pair_of v.initiator v.targets in
    if_split (Keeps e) (not (v.callback == ack_url p) || not (contains e.allowed a)) _ _
      (λ _. Keeps-same e _)
      (λ _. change-Keeps saved e (void_in clock draw e peer p.incoming a v.ids) (
        void_found-Leads clock draw e peer p.incoming a e.ledger (named_ids a peer e.ledger v.ids)))

void_checked-Keeps :
    (saved : Bool) (clock : KeyId → ℕ → ℕ) (draw : KeyId → Text → KeyId) (e : Engine) (peer : Text)
    → (v : Void) (x : Option Error) → Keeps e (void_checked saved clock draw e peer v x)
unfolding void_checked
void_checked-Keeps saved clock draw e peer v (some x) = Keeps-same e _
void_checked-Keeps saved clock draw e peer v none =
    void_from-Keeps saved clock draw e peer v (lookup peer e.cfg.peers)

pub void-Keeps :
    (saved : Bool) (clock : KeyId → ℕ → ℕ) (draw : KeyId → Text → KeyId) (e : Engine) (peer : Text)
    → (v : Void) → Keeps e (void saved clock draw e peer v)
unfolding void
void-Keeps saved clock draw e peer v =
    void_checked-Keeps saved clock draw e peer v (validate_void v)
