-- ===== src/Relay/Transitions.antt =====
-- Every operation of the engine keeps the records and moves them forward.
use transeuroogs_kms.Common.{
  ℕ, inl, inr, Bool, true, false, not, ◌&&◌, ◌||◌, Option, none, some, List, [], ◌∷◌, Option-cases,
  Text, text_eq_instance, if_split, ltb, nat_eq, length, contains,
}
use transeuroogs_kms.Common.Dict.{Dict, lookup, adjust, keys}
use transeuroogs_kms.Core.Errors.{Result, ok, err, panic}
use transeuroogs_kms.Core.Id.{KeyId, valid_id}
use transeuroogs_kms.Core.Key.{Association, Delivery, max_batch, association_eq_instance}
use transeuroogs_kms.Core.Batch.{distinct_batch}
use transeuroogs_kms.Relay.{Rec, AckJob, Ledger, Engine}
use transeuroogs_kms.Relay.Voiding.{start_void}
use transeuroogs_kms.Relay.Serve.{
  reserve_keys, reserve_in, consume_reservation, consume_in, consume_peer_keys, consume_peer_in,
  invalidate_key, invalidate_in, invalidated_found, void_record, pick, picked, collected,
  collect_reserved, peer_served, peer_checked, check_target, deliver, more_delivered, delivered_ids,
  hold, wipe, wipe_reserved, is_local,
}
use transeuroogs_kms.Relay.Accept.{due}
use transeuroogs_kms.Relay.Outbox.{
  any_due, expire_found, expire_ids, expire_in, expire_due, settled, settle_in, settle_job, put_off,
  delayed, delay_in, delay, pin, pinned, commit_in, commit_send,
}
use transeuroogs_kms.Relay.Forward.{
  hold-Fair, wipe-Fair, wipe_reserved-Fair, start_void-Fair, put_off-Fair, pin-Fair,
}
use transeuroogs_kms.Relay.Moves.{
  Moves, Moves-refl, Moves-trans, Moves-adjust, Moves-adjust_all, Leads, Leads-ok, Leads-err,
  Leads-panic, Keeps, Keeps-same, change-Keeps,
}

picked-Leads :
    (s : Ledger) (n : ℕ) (draw : KeyId) (res : Result (List KeyId)) → Leads s (picked s n draw res)
unfolding picked
picked-Leads s n draw (ok ids) =
    if_split (Leads s) (not (nat_eq (length ids) n)) _ _ (λ _. Leads-err _ s _)
      (λ _. Leads-ok s _ _ (Moves-adjust_all (hold draw) ids s.records (hold-Fair draw)))
picked-Leads s n draw (err e) = Leads-err _ s e
picked-Leads s n draw panic = Leads-panic _ s

reserve_in-Leads :
    (clock : KeyId → ℕ) (draw : KeyId) (e : Engine) (a : Association) (n : ℕ) (s : Ledger)
    → Leads s (reserve_in clock draw e a n s)
unfolding reserve_in
reserve_in-Leads clock draw e a n s =
    if_split (Leads s) (not (contains e.allowed a) || not (is_local e a.master)) _ _
      (λ _. Leads-err _ s _) (λ _. picked-Leads s n draw (pick a clock n s.order s.records))

pub reserve_keys-Keeps :
    (saved : Bool) (clock : KeyId → ℕ) (draw : KeyId) (e : Engine) (a : Association) (n : ℕ)
    → Keeps e (reserve_keys saved clock draw e a n)
unfolding reserve_keys
reserve_keys-Keeps saved clock draw e a n =
    if_split (Keeps e) (ltb n 1 || ltb max_batch n) _ _ (λ _. Keeps-same e _)
      (λ _.
        change-Keeps saved e (reserve_in clock draw e a n)
          (reserve_in-Leads clock draw e a n e.ledger))

collected-Leads : (s : Ledger) (res : Result (List Delivery)) → Leads s (collected s res)
unfolding collected
collected-Leads s (ok []) = Leads-err _ s _
collected-Leads s (ok (d ∷ ds)) =
    Leads-ok s _ _
      (Moves-adjust_all wipe_reserved (delivered_ids (d ∷ ds)) s.records wipe_reserved-Fair)
collected-Leads s (err e) = Leads-err _ s e
collected-Leads s panic = Leads-panic _ s

pub consume_reservation-Keeps :
    (saved : Bool) (clock : KeyId → ℕ) (e : Engine) (a : Association) (token : KeyId)
    → Keeps e (consume_reservation saved clock e a token)
unfolding consume_reservation consume_in
consume_reservation-Keeps saved clock e a token =
    if_split (Keeps e) (not (valid_id token)) _ _ (λ _. Keeps-same e _)
      (λ _.
        change-Keeps saved e (consume_in clock a token) (
          collected-Leads e.ledger
            (collect_reserved a token clock e.ledger.order e.ledger.records)))

-- The records that the delivering loop leaves, when it ends well.
unfoldable pub Delivers : Dict KeyId Rec → Result (Dict KeyId Rec × List Delivery) → Type 0
Delivers rs (ok (rs', ds)) = Moves rs rs'
Delivers rs (err e) = Unit
Delivers rs panic = Unit

more_delivered-Delivers :
    (a b : Dict KeyId Rec) (d : Delivery) (res : Result (Dict KeyId Rec × List Delivery))
    → Moves a b
    → Delivers b res
    → Delivers a (more_delivered d res)
unfolding Delivers more_delivered
more_delivered-Delivers a b d (ok (rs, ds)) m h = Moves-trans a b rs m h
more_delivered-Delivers a b d (err e) m h = tt
more_delivered-Delivers a b d panic m h = tt

pub deliver-Delivers : (ids : List KeyId) (rs : Dict KeyId Rec) → Delivers rs (deliver ids rs)
unfolding deliver
deliver-Delivers [] rs = unfold Delivers in Moves-refl rs
deliver-Delivers (id ∷ ids) rs = elim (Option-cases (lookup id rs)) [
  | inl absent ↦ rw (absent, deliver) (unfold Delivers in tt)
  | inr (r, there) ↦
      rw (there, deliver)
        (more_delivered-Delivers rs (adjust id wipe rs) _ (deliver ids (adjust id wipe rs))
          (Moves-adjust wipe id rs wipe-Fair) (deliver-Delivers ids (adjust id wipe rs)))
]

peer_served-Leads :
    (s : Ledger) (res : Result (Dict KeyId Rec × List Delivery))
    → Delivers s.records res
    → Leads s (peer_served s res)
unfolding peer_served Delivers
peer_served-Leads s (ok (rs, ds)) h = Leads-ok s _ _ h
peer_served-Leads s (err e) h = Leads-err _ s e
peer_served-Leads s panic h = Leads-panic _ s

peer_checked-Leads :
    (s : Ledger) (ids : List KeyId) (res : Result (Unit {0})) → Leads s (peer_checked s ids res)
unfolding peer_checked
peer_checked-Leads s ids (ok _) = peer_served-Leads s _ (deliver-Delivers ids s.records)
peer_checked-Leads s ids (err e) = Leads-err _ s e
peer_checked-Leads s ids panic = Leads-panic _ s

consume_peer_in-Leads :
    (clock : KeyId → ℕ) (e : Engine) (a : Association) (ids : List KeyId) (s : Ledger)
    → Leads s (consume_peer_in clock e a ids s)
unfolding consume_peer_in
consume_peer_in-Leads clock e a ids s =
    if_split (Leads s) (not (contains e.allowed a) || not (is_local e a.slave)) _ _
      (λ _. Leads-err _ s _) (λ _. peer_checked-Leads s ids (check_target a clock ids s.records))

pub consume_peer_keys-Keeps :
    (saved : Bool) (clock : KeyId → ℕ) (e : Engine) (a : Association) (ids : List KeyId)
    → Keeps e (consume_peer_keys saved clock e a ids)
unfolding consume_peer_keys
consume_peer_keys-Keeps saved clock e a ids =
    if_split (Keeps e) (ltb (length ids) 1 || ltb max_batch (length ids)) _ _ (λ _. Keeps-same e _)
      (λ _.
        if_split (Keeps e) (not (distinct_batch [] ids)) _ _ (λ _. Keeps-same e _)
          (λ _.
            change-Keeps saved e (consume_peer_in clock e a ids)
              (consume_peer_in-Leads clock e a ids e.ledger)))

pub void_record-Moves :
    (draw : Text → KeyId) (peer : Text) (id : KeyId) (r : Rec) (s : Ledger)
    → Moves s.records (void_record draw peer id r s).records
unfolding void_record
void_record-Moves draw peer id r s =
    Moves-adjust (start_void peer) id s.records (start_void-Fair peer)

invalidated_found-Leads :
    (draw : Text → KeyId) (id : KeyId) (s : Ledger) (o : Option Rec)
    → Leads s (invalidated_found draw id s o)
unfolding invalidated_found
invalidated_found-Leads draw id s none = Leads-err _ s _
invalidated_found-Leads draw id s (some r) = Leads-ok s _ _ (void_record-Moves draw [] id r s)

pub invalidate_key-Keeps :
    (saved : Bool) (draw : Text → KeyId) (e : Engine) (id : KeyId)
    → Keeps e (invalidate_key saved draw e id)
unfolding invalidate_key invalidate_in
invalidate_key-Keeps saved draw e id =
    change-Keeps saved e (invalidate_in draw id)
      (invalidated_found-Leads draw id e.ledger (lookup id e.ledger.records))

expire_found-Moves :
    (now : ℕ) (draw : Text → KeyId) (id : KeyId) (s : Ledger) (o : Option Rec)
    → Moves s.records (expire_found now draw id s o).records
unfolding expire_found
expire_found-Moves now draw id s none = Moves-refl s.records
expire_found-Moves now draw id s (some r) =
    if_split (λ (x : Ledger). Moves s.records x.records) (due now r) _ _
      (λ _. void_record-Moves draw [] id r s) (λ _. Moves-refl s.records)

expire_ids-Moves :
    (clock : KeyId → ℕ) (draw : KeyId → Text → KeyId) (ids : List KeyId) (s : Ledger)
    → Moves s.records (expire_ids clock draw ids s).records
unfolding expire_ids
expire_ids-Moves clock draw [] s = Moves-refl s.records
expire_ids-Moves clock draw (id ∷ ids) s =
    let t = expire_found (clock id) (draw id) id s (lookup id s.records) in
    Moves-trans s.records t.records _
      (expire_found-Moves (clock id) (draw id) id s (lookup id s.records))
      (expire_ids-Moves clock draw ids t)

pub expire_due-Keeps :
    (saved : Bool) (first clock : KeyId → ℕ) (draw : KeyId → Text → KeyId) (e : Engine)
    → Keeps e (expire_due saved first clock draw e)
unfolding expire_due expire_in
expire_due-Keeps saved first clock draw e =
    if_split (Keeps e) (not e.broken && any_due first e.ledger.records) _ _
      (λ _.
        change-Keeps saved e (expire_in clock draw)
          (Leads-ok e.ledger _ _ (expire_ids-Moves clock draw (keys e.ledger.records) e.ledger)))
      (λ _. Keeps-same e _)

settled-Moves :
    (answered : Bool) (again : ℕ) (id : KeyId) (s : Ledger) (o : Option AckJob)
    → Moves s.records (settled answered again id s o).records
unfolding settled
settled-Moves answered again id s none = Moves-refl s.records
settled-Moves true again id s (some j) = Moves-refl s.records
settled-Moves false again id s (some j) = Moves-refl s.records

pub settle_job-Keeps :
    (saved answered : Bool) (again : ℕ) (e : Engine) (id : KeyId)
    → Keeps e (settle_job saved answered again e id)
unfolding settle_job settle_in
settle_job-Keeps saved answered again e id =
    change-Keeps saved e (settle_in answered again id)
      (Leads-ok e.ledger _ _ (settled-Moves answered again id e.ledger (lookup id e.ledger.acks)))

delayed-Leads :
    (again : ℕ) (id : KeyId) (s : Ledger) (o : Option Rec) → Leads s (delayed again id s o)
unfolding delayed
delayed-Leads again id s none = Leads-panic _ s
delayed-Leads again id s (some r) =
    Leads-ok s _ _ (Moves-adjust (put_off again) id s.records (put_off-Fair again))

pub delay-Keeps :
    (saved : Bool) (again : ℕ) (e : Engine) (id : KeyId) → Keeps e (delay saved again e id)
unfolding delay delay_in
delay-Keeps saved again e id =
    change-Keeps saved e (delay_in again id)
      (delayed-Leads again id e.ledger (lookup id e.ledger.records))

pinned-Leads :
    (now again : ℕ) (id : KeyId) (peer : Text) (s : Ledger) (o : Option Rec)
    → Leads s (pinned now again id peer s o)
unfolding pinned
pinned-Leads now again id peer s none = Leads-panic _ s
pinned-Leads now again id peer s (some r) =
    if_split (Leads s) (r.voiding || r.ready || not (ltb now r.expires)) _ _ (λ _. Leads-err _ s _)
      (λ _. Leads-ok s _ _ (Moves-adjust (pin peer again) id s.records (pin-Fair peer again)))

pub commit_send-Keeps :
    (saved : Bool) (now again : ℕ) (e : Engine) (id : KeyId) (peer : Text)
    → Keeps e (commit_send saved now again e id peer)
unfolding commit_send commit_in
commit_send-Keeps saved now again e id peer =
    change-Keeps saved e (commit_in now again id peer)
      (pinned-Leads now again id peer e.ledger (lookup id e.ledger.records))
