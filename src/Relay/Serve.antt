-- ===== src/Relay/Serve.antt =====
-- engine.go: the transactions of the engine and the operations of the key applications.
use transeuroogs_kms.Common.{
  ℕ, ◌-◌, Bool, true, not, ◌&&◌, ◌||◌, Option, none, some, List, [], ◌∷◌, Text, ◌==◌,
  text_eq_instance, ltb, nat_eq, length, contains, if◌then◌else◌,
}
use transeuroogs_kms.Common.Dict.{Dict, lookup, adjust}
use transeuroogs_kms.Core.Errors.{Error, Result, ok, err, panic, invalid, unavailable, unauthorized}
use transeuroogs_kms.Core.Errors
use transeuroogs_kms.Core.Id.{KeyId, valid_id}
use transeuroogs_kms.Core.Key.{
  Association, association_eq_instance, Delivery, Reservation, max_batch,
}
use transeuroogs_kms.Core.Batch.{distinct_batch}
use transeuroogs_kms.Relay.{source, target, role_eq, Rec, Ledger, Engine, usable}
use transeuroogs_kms.Relay.Voiding.{start_void, start_void_jobs, finish_void}

-- The file of the journal is replaced or not; `saved` is the answer of its `save`. A failed save
-- poisons the process and the caller sees the journal's error, `state`.
abbrev pub Outcome {ℓ} : Type ℓ → Type ℓ
Outcome A = Engine × Result A

unfoldable pub committed {ℓ} : {A : Type ℓ} → Bool → Engine → Result (Ledger × A) → Outcome A
committed saved e (ok (s, a)) =
    if saved
    then (record e { ledger = s }, ok a)
    else (record e { broken = true }, err Errors.state)
committed saved e (err x) = (e, err x)
committed saved e panic = (e, panic)

unfoldable pub change {ℓ} :
    {A : Type ℓ} → Bool → Engine → (Ledger → Result (Ledger × A)) → Outcome A
unfolding committed
change saved e f = if e.broken then (e, err Errors.state) else committed saved e (f e.ledger)

unfoldable pub is_local : Engine → Text → Bool
is_local e sae = contains e.cfg.local_saes sae

-- The test of `ReserveKeys` and of `Inventory`.
unfoldable pub offers : Association → ℕ → Rec → Bool
offers a now r = r.pair == a && role_eq r.role source && nat_eq (length r.token) 0 && usable now r

-- The loop over `s.Order`, where `n` more ids are wanted; it stops at the last.
unfoldable pub pick :
    Association → (KeyId → ℕ) → ℕ → List KeyId → Dict KeyId Rec → Result (List KeyId)
unfolding offers
pick a clock n [] rs = ok []
pick a clock n (id ∷ order) rs =
    let skip = pick a clock n order rs in
    let more = pick a clock (n - 1) order rs in
    elim (lookup id rs) [
      | none ↦ panic
      | some r ↦
          if offers a (clock id) r
          then (if nat_eq n 1
              then ok (id ∷ [])
              else elim more [ ok ids ↦ ok (id ∷ ids) | err e ↦ err e | panic ↦ panic ])
          else skip
    ]

-- Every record of the ids through `f`.
unfoldable pub adjust_all : (Rec → Rec) → List KeyId → Dict KeyId Rec → Dict KeyId Rec
adjust_all f [] rs = rs
adjust_all f (id ∷ ids) rs = adjust_all f ids (adjust id f rs)

unfoldable pub hold : KeyId → Rec → Rec
hold token r = record r { token = token }

unfoldable pub wipe : Rec → Rec
wipe r = record r { delivered = true; material = [] }

unfoldable pub picked : Ledger → ℕ → KeyId → Result (List KeyId) → Result (Ledger × Reservation)
unfolding adjust_all hold
picked s n draw (ok ids) =
    if not (nat_eq (length ids) n)
    then err unavailable
    else ok (
      record s { records = adjust_all (hold draw) ids s.records },
      record { token = draw; ids = ids },
    )
picked s n draw (err e) = err e
picked s n draw panic = panic

unfoldable pub reserve_in :
    (KeyId → ℕ) → KeyId → Engine → Association → ℕ → Ledger → Result (Ledger × Reservation)
unfolding picked pick is_local
reserve_in clock draw e a n s =
    if not (contains e.allowed a) || not (is_local e a.master)
    then err unauthorized
    else picked s n draw (pick a clock n s.order s.records)

unfoldable pub reserve_keys :
    Bool → (KeyId → ℕ) → KeyId → Engine → Association → ℕ → Outcome Reservation
unfolding change reserve_in
reserve_keys saved clock draw e a n =
    if ltb n 1 || ltb max_batch n
    then (e, err invalid)
    else change saved e (reserve_in clock draw e a n)

unfoldable pub more_reserved : Delivery → Result (List Delivery) → Result (List Delivery)
more_reserved d (ok ds) = ok (d ∷ ds)
more_reserved d (err e) = err e
more_reserved d panic = panic

-- The collecting loop of `ConsumeReservation`.
unfoldable pub collect_reserved :
    Association → KeyId → (KeyId → ℕ) → List KeyId → Dict KeyId Rec → Result (List Delivery)
unfolding more_reserved
collect_reserved a token clock [] rs = ok []
collect_reserved a token clock (id ∷ order) rs =
    let rest = collect_reserved a token clock order rs in
    elim (lookup id rs) [
      | none ↦ panic
      | some r ↦
          if not (r.token == token)
          then rest
          else if not (r.pair == a) || not (role_eq r.role source)
          then err unauthorized
          else if not (usable (clock id) r)
          then err unavailable
          else more_reserved (record { id = id; material = r.material }) rest
    ]

unfoldable pub delivered_ids : List Delivery → List KeyId
delivered_ids [] = []
delivered_ids (d ∷ ds) = d.id ∷ delivered_ids ds

unfoldable pub wipe_reserved : Rec → Rec
unfolding wipe
wipe_reserved r = record (wipe r) { token = [] }

unfoldable pub collected : Ledger → Result (List Delivery) → Result (Ledger × List Delivery)
unfolding adjust_all wipe_reserved delivered_ids
collected s (ok []) = err unavailable
collected s (ok (d ∷ ds)) =
    ok (record s { records = adjust_all wipe_reserved (delivered_ids (d ∷ ds)) s.records }, d ∷ ds)
collected s (err e) = err e
collected s panic = panic

unfoldable pub consume_in :
    (KeyId → ℕ) → Association → KeyId → Ledger → Result (Ledger × List Delivery)
unfolding collected collect_reserved
consume_in clock a token s = collected s (collect_reserved a token clock s.order s.records)

unfoldable pub consume_reservation :
    Bool → (KeyId → ℕ) → Engine → Association → KeyId → Outcome (List Delivery)
unfolding change consume_in
consume_reservation saved clock e a token =
    if not (valid_id token) then (e, err invalid) else change saved e (consume_in clock a token)

-- The first loop of `ConsumePeerKeys`.
unfoldable pub check_target :
    Association → (KeyId → ℕ) → List KeyId → Dict KeyId Rec → Result (Unit {0})
check_target a clock [] rs = ok tt
check_target a clock (id ∷ ids) rs =
    let rest = check_target a clock ids rs in
    elim (lookup id rs) [
      | none ↦ err unavailable
      | some r ↦
          if not (r.pair == a) || not (role_eq r.role target)
          then err unauthorized
          else if not (usable (clock id) r)
          then err unavailable
          else rest
    ]

unfoldable pub more_delivered :
    Delivery → Result (Dict KeyId Rec × List Delivery) → Result (Dict KeyId Rec × List Delivery)
more_delivered d (ok (rs, ds)) = ok (rs, d ∷ ds)
more_delivered d (err e) = err e
more_delivered d panic = panic

-- The second loop.
unfoldable pub deliver : List KeyId → Dict KeyId Rec → Result (Dict KeyId Rec × List Delivery)
unfolding wipe more_delivered
deliver [] rs = ok (rs, [])
deliver (id ∷ ids) rs =
    let rest = deliver ids (adjust id wipe rs) in
    elim (lookup id rs) [
      | none ↦ panic
      | some r ↦ more_delivered (record { id = id; material = r.material }) rest
    ]

unfoldable pub peer_served :
    Ledger → Result (Dict KeyId Rec × List Delivery) → Result (Ledger × List Delivery)
peer_served s (ok (rs, ds)) = ok (record s { records = rs }, ds)
peer_served s (err e) = err e
peer_served s panic = panic

unfoldable pub peer_checked :
    Ledger → List KeyId → Result (Unit {0}) → Result (Ledger × List Delivery)
unfolding peer_served deliver
peer_checked s ids (ok _) = peer_served s (deliver ids s.records)
peer_checked s ids (err e) = err e
peer_checked s ids panic = panic

unfoldable pub consume_peer_in :
    (KeyId → ℕ) → Engine → Association → List KeyId → Ledger → Result (Ledger × List Delivery)
unfolding peer_checked check_target is_local
consume_peer_in clock e a ids s =
    if not (contains e.allowed a) || not (is_local e a.slave)
    then err unauthorized
    else peer_checked s ids (check_target a clock ids s.records)

unfoldable pub consume_peer_keys :
    Bool → (KeyId → ℕ) → Engine → Association → List KeyId → Outcome (List Delivery)
unfolding change consume_peer_in
consume_peer_keys saved clock e a ids =
    if ltb (length ids) 1 || ltb max_batch (length ids)
    then (e, err invalid)
    else if not (distinct_batch [] ids)
    then (e, err invalid)
    else change saved e (consume_peer_in clock e a ids)

-- Both parts of a withdrawal of the record under the id.
unfoldable pub void_record : (Text → KeyId) → Text → KeyId → Rec → Ledger → Ledger
unfolding start_void start_void_jobs finish_void
void_record draw peer id r s = record s {
  records = adjust id (start_void peer) s.records;
  acks = finish_void draw (start_void peer r) (start_void_jobs r s.acks);
}

unfoldable pub invalidated_found :
    (Text → KeyId) → KeyId → Ledger → Option Rec → Result (Ledger × Unit {0})
unfolding void_record
invalidated_found draw id s none = err unavailable
invalidated_found draw id s (some r) = ok (void_record draw [] id r s, tt)

unfoldable pub invalidate_in : (Text → KeyId) → KeyId → Ledger → Result (Ledger × Unit {0})
unfolding invalidated_found
invalidate_in draw id s = invalidated_found draw id s (lookup id s.records)

unfoldable pub invalidate_key : Bool → (Text → KeyId) → Engine → KeyId → Outcome (Unit {0})
unfolding change invalidate_in
invalidate_key saved draw e id = change saved e (invalidate_in draw id)
