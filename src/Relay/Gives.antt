-- ===== src/Relay/Gives.antt =====
-- What a consumption hands out was live before it and is delivered after it.
use transeuroogs_kms.Common.{
  ℕ, ◌≡◌, refl, ap, inl, inr, Bool, true, false, not, ◌||◌, ◌==◌, List, [], ◌∷◌, arith, All,
  All-map, Option-cases, if_split, text_eq_instance, length, contains, ltb,
}
use transeuroogs_kms.Common.Dict.{Dict, lookup, adjust}
use transeuroogs_kms.Core.Errors.{Error, Result, ok, err, panic}
use transeuroogs_kms.Core.Id.{KeyId, valid_id}
use transeuroogs_kms.Core.Key.{Association, Delivery, association_eq_instance, max_batch}
use transeuroogs_kms.Core.Batch.{distinct_batch}
use transeuroogs_kms.Relay.{Rec, Ledger, Engine, usable, role_eq, source, target}
use transeuroogs_kms.Relay.Serve.{
  Outcome, change, committed, wipe, wipe_reserved, deliver, more_delivered, delivered_ids,
  collect_reserved, more_reserved, collected, check_target, peer_served, peer_checked, consume_in,
  consume_peer_in, consume_reservation, consume_peer_keys, is_local,
}
use transeuroogs_kms.Relay.Forward.{wipe-Fair, wipe_reserved-Fair}
use transeuroogs_kms.Relay.Moves.{Sound, Moves-adjust}
use transeuroogs_kms.Relay.Transitions.{Delivers, deliver-Delivers}
use transeuroogs_kms.Relay.Live.{Done, Live, Done-Grows, usable-live, Done-adjust, adjust_all-Done}

-- The delivering loop.
unfoldable Marks : List KeyId → Result (Dict KeyId Rec × List Delivery) → Type 0
Marks ids (ok (rs, ds)) = All (Done rs) (delivered_ids ds) × (delivered_ids ds ≡ ids)
Marks ids (err e) = Unit
Marks ids panic = Unit

more_delivered-Marks :
    (d : Delivery) (ids : List KeyId) (b : Dict KeyId Rec)
    → (res : Result (Dict KeyId Rec × List Delivery)) → Sound b
    → Done b d.id
    → Delivers b res
    → Marks ids res
    → Marks (d.id ∷ ids) (more_delivered d res)
unfolding Marks more_delivered Delivers delivered_ids
more_delivered-Marks d ids b (ok (rs, ds)) v done m h =
    ((Done-Grows b rs d.id (m v).1 done, h.0), ap (λ x. d.id ∷ x) h.1)
more_delivered-Marks d ids b (err e) v done m h = tt
more_delivered-Marks d ids b panic v done m h = tt

deliver-Marks : (ids : List KeyId) (rs : Dict KeyId Rec) → Sound rs → Marks ids (deliver ids rs)
unfolding deliver
deliver-Marks [] rs v = unfold Marks delivered_ids in (tt, refl)
deliver-Marks (id ∷ ids) rs v = elim (Option-cases (lookup id rs)) [
  | inl absent ↦ rw (absent, deliver) (unfold Marks in tt)
  | inr (r, there) ↦
      let rest = adjust id wipe rs in
      let v' = (Moves-adjust wipe id rs wipe-Fair v).0 in
      rw (there, deliver)
        (more_delivered-Marks (record { id = id; material = r.material }) ids rest
          (deliver ids rest) v' (Done-adjust wipe id rs r (unfold wipe in λ x. refl) there)
          (deliver-Delivers ids rest) (deliver-Marks ids rest v'))
]

-- A transaction that returns deliveries.
unfoldable Serves : Ledger → Result (Ledger × List Delivery) → Type 0
Serves s (ok (s', ds)) =
    All (Done s'.records) (delivered_ids ds) × All (Live s.records) (delivered_ids ds)
Serves s (err e) = Unit
Serves s panic = Unit

peer_served-Serves :
    (s : Ledger) (ids : List KeyId) (res : Result (Dict KeyId Rec × List Delivery))
    → All (Live s.records) ids
    → Marks ids res
    → Serves s (peer_served s res)
unfolding Serves peer_served Marks
peer_served-Serves s ids (ok (rs, ds)) live h = (h.0, rw h.1 live)
peer_served-Serves s ids (err e) live h = tt
peer_served-Serves s ids panic live h = tt

-- The verdict of the checking loop.
unfoldable Checks : Dict KeyId Rec → List KeyId → Result (Unit {0}) → Type 0
Checks rs ids (ok _) = All (Live rs) ids
Checks rs ids (err e) = Unit
Checks rs ids panic = Unit

Checks-err : (rs : Dict KeyId Rec) (ids : List KeyId) (x : Error) → Checks rs ids (err x)
unfolding Checks
Checks-err rs ids x = tt

Checks-more :
    (rs : Dict KeyId Rec) (id : KeyId) (ids : List KeyId) (res : Result (Unit {0}))
    → Live rs id
    → Checks rs ids res
    → Checks rs (id ∷ ids) res
unfolding Checks
Checks-more rs id ids (ok _) l h = (l, h)
Checks-more rs id ids (err e) l h = tt
Checks-more rs id ids panic l h = tt

check_target-Checks :
    (a : Association) (clock : KeyId → ℕ) (ids : List KeyId) (rs : Dict KeyId Rec)
    → Checks rs ids (check_target a clock ids rs)
unfolding check_target
check_target-Checks a clock [] rs = unfold Checks in tt
check_target-Checks a clock (id ∷ ids) rs = elim (Option-cases (lookup id rs)) [
  | inl absent ↦ rw (absent, check_target) (Checks-err rs (id ∷ ids) _)
  | inr (r, there) ↦
      rw (there, check_target)
        (if_split (Checks rs (id ∷ ids)) (not (r.pair == a) || not (role_eq r.role target)) _ _
          (λ _. Checks-err rs (id ∷ ids) _)
          (λ _.
            if_split (Checks rs (id ∷ ids)) (not (usable (clock id) r)) _ _
              (λ _. Checks-err rs (id ∷ ids) _)
              (λ live.
                Checks-more rs id ids _ (r, there, usable-live (clock id) r (ground (arith, live)))
                  (check_target-Checks a clock ids rs))))
]

peer_checked-Serves :
    (s : Ledger) (ids : List KeyId) (c : Result (Unit {0}))
    → Sound s.records
    → Checks s.records ids c
    → Serves s (peer_checked s ids c)
unfolding peer_checked Checks
peer_checked-Serves s ids (ok _) v live =
    peer_served-Serves s ids (deliver ids s.records) live (deliver-Marks ids s.records v)
peer_checked-Serves s ids (err e) v h = unfold Serves in tt
peer_checked-Serves s ids panic v h = unfold Serves in tt

Serves-err : (s : Ledger) (x : Error) → Serves s (err x)
unfolding Serves
Serves-err s x = tt

consume_peer_in-Serves :
    (clock : KeyId → ℕ) (e : Engine) (a : Association) (ids : List KeyId) (s : Ledger)
    → Sound s.records
    → Serves s (consume_peer_in clock e a ids s)
unfolding consume_peer_in
consume_peer_in-Serves clock e a ids s v =
    if_split (Serves s) (not (contains e.allowed a) || not (is_local e a.slave)) _ _
      (λ _. Serves-err s _)
      (λ _.
        peer_checked-Serves s ids (check_target a clock ids s.records) v
          (check_target-Checks a clock ids s.records))

-- The collecting loop.
unfoldable Lists : Dict KeyId Rec → Result (List Delivery) → Type 0
Lists rs (ok ds) = All (Live rs) (delivered_ids ds)
Lists rs (err e) = Unit
Lists rs panic = Unit

Lists-err : (rs : Dict KeyId Rec) (x : Error) → Lists rs (err x)
unfolding Lists
Lists-err rs x = tt

more_reserved-Lists :
    (rs : Dict KeyId Rec) (d : Delivery) (res : Result (List Delivery))
    → Live rs d.id
    → Lists rs res
    → Lists rs (more_reserved d res)
unfolding Lists more_reserved delivered_ids
more_reserved-Lists rs d (ok ds) l h = (l, h)
more_reserved-Lists rs d (err e) l h = tt
more_reserved-Lists rs d panic l h = tt

collect_reserved-Lists :
    (a : Association) (token : KeyId) (clock : KeyId → ℕ) (order : List KeyId) (rs : Dict KeyId Rec)
    → Lists rs (collect_reserved a token clock order rs)
unfolding collect_reserved
collect_reserved-Lists a token clock [] rs = unfold Lists delivered_ids in tt
collect_reserved-Lists a token clock (id ∷ order) rs =
    let more = collect_reserved-Lists a token clock order rs in
    elim (Option-cases (lookup id rs)) [
      | inl absent ↦ rw (absent, collect_reserved) (unfold Lists in tt)
      | inr (r, there) ↦
          rw (there, collect_reserved)
            (if_split (Lists rs) (not (r.token == token)) _ _ (λ _. more)
              (λ _.
                if_split (Lists rs) (not (r.pair == a) || not (role_eq r.role source)) _ _
                  (λ _. Lists-err rs _)
                  (λ _.
                    if_split (Lists rs) (not (usable (clock id) r)) _ _ (λ _. Lists-err rs _)
                      (λ live.
                        more_reserved-Lists rs (record { id = id; material = r.material }) _
                          (r, there, usable-live (clock id) r (ground (arith, live))) more))))
    ]

collected-Serves :
    (s : Ledger) (res : Result (List Delivery))
    → Sound s.records
    → Lists s.records res
    → Serves s (collected s res)
unfolding collected Lists
collected-Serves s (ok []) v h = Serves-err s _
collected-Serves s (ok (d ∷ ds)) v h =
    unfold Serves in
    (
      adjust_all-Done wipe_reserved (delivered_ids (d ∷ ds)) s.records wipe_reserved-Fair
          (unfold wipe_reserved in λ x. refl) v
          (All-map _ _ (λ id (r, found, _). (r, found, tt)) (delivered_ids (d ∷ ds)) h),
      h,
    )
collected-Serves s (err e) v h = Serves-err s e
collected-Serves s panic v h = unfold Serves in tt

-- The same for an operation of the engine.
unfoldable pub Gives : Engine → Outcome (List Delivery) → Type 0
Gives e (e', ok ds) =
    All (Done e'.ledger.records) (delivered_ids ds) × All (Live e.ledger.records) (delivered_ids ds)
Gives e (e', err x) = Unit
Gives e (e', panic) = Unit

Gives-err : (e e' : Engine) (x : Error) → Gives e (e', err x)
unfolding Gives
Gives-err e e' x = tt

committed-Gives :
    (saved : Bool) (e : Engine) (res : Result (Ledger × List Delivery))
    → Serves e.ledger res
    → Gives e (committed saved e res)
unfolding committed Gives Serves
committed-Gives true e (ok (s, ds)) h = h
committed-Gives false e (ok (s, ds)) h = tt
committed-Gives saved e (err x) h = tt
committed-Gives saved e panic h = tt

change-Gives :
    (saved : Bool) (e : Engine) (f : Ledger → Result (Ledger × List Delivery))
    → Serves e.ledger (f e.ledger)
    → Gives e (change saved e f)
unfolding change
change-Gives saved e f h =
    if_split (Gives e) e.broken _ _ (λ _. Gives-err e e _)
      (λ _. committed-Gives saved e (f e.ledger) h)

pub consume_reservation-Gives :
    (saved : Bool) (clock : KeyId → ℕ) (e : Engine) (a : Association) (token : KeyId)
    → Sound e.ledger.records
    → Gives e (consume_reservation saved clock e a token)
unfolding consume_reservation consume_in
consume_reservation-Gives saved clock e a token v =
    if_split (Gives e) (not (valid_id token)) _ _ (λ _. Gives-err e e _)
      (λ _. change-Gives saved e (consume_in clock a token) (
        collected-Serves e.ledger _ v
          (collect_reserved-Lists a token clock e.ledger.order e.ledger.records)))

pub consume_peer_keys-Gives :
    (saved : Bool) (clock : KeyId → ℕ) (e : Engine) (a : Association) (ids : List KeyId)
    → Sound e.ledger.records
    → Gives e (consume_peer_keys saved clock e a ids)
unfolding consume_peer_keys
consume_peer_keys-Gives saved clock e a ids v =
    if_split (Gives e) (ltb (length ids) 1 || ltb max_batch (length ids)) _ _ (λ _. Gives-err e e _)
      (λ _.
        if_split (Gives e) (not (distinct_batch [] ids)) _ _ (λ _. Gives-err e e _)
          (λ _.
            change-Gives saved e (consume_peer_in clock e a ids)
              (consume_peer_in-Serves clock e a ids e.ledger v)))
