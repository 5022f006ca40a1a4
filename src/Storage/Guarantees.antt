-- ===== src/Storage/Guarantees.antt =====
-- What one call guarantees to the calls after it.
use transeuroogs_kms.Common.{
  All-zip, ℕ, ◌≡◌, ◌<◌, ◌≤◌, refl, ap, sym, inl, inr, true, Option-cases, some, List, [], ◌∷◌, map,
  arith, text_eq_instance, text_eq_iff, All, All-map, ◌∙◌, subst,
}
use transeuroogs_kms.Common.Dict.{Dict, lookup, lookup-All, lookup-insert, insert, lookup-adjust}
use transeuroogs_kms.Core.Errors.{Result, ok}
use transeuroogs_kms.Core.Id.{KeyId}
use transeuroogs_kms.Core.Key.{
  Association, Delivery, Reservation, consumed, invalidated, terminal, valid_association, max_batch,
}
use transeuroogs_kms.Storage.{
  Entry, Memory, Held, reserve_keys, consume_reservation, consume_peer_keys, consume_slave,
  reserve_entry, expire, inventory, invalidate_key, end_open,
}
use transeuroogs_kms.Core.Token.{fresh_token}
use transeuroogs_kms.Storage.Lifecycle.{Sound}
use transeuroogs_kms.Storage.Loops.{delivery_at, delivery_at_found}
use transeuroogs_kms.Storage.Marking.{Moved}
use transeuroogs_kms.Storage.Checks.{Ready, IsReserved, IsOpenTo}
use transeuroogs_kms.Storage.Invariant.{Inv}
use transeuroogs_kms.Storage.Reserve.{IsOffered, picks, reserve_keys_enough}
use transeuroogs_kms.Storage.Offers.{available-offered}
use transeuroogs_kms.Storage.Consume.{consume_reservation-Ready, consume_peer_keys_cases}
use transeuroogs_kms.Storage.Progress.{Progress, reserve_keys-Progress, invalidate_key-Progress}
use transeuroogs_kms.Storage.Trace.{
  Call, store, reserve, consume, consume_peer, invalidate, describe, stock, run, to_slave,
  delivered, run-Progress,
}

-- The key of `id` lives past the time `later`.
abbrev pub LivesAt : ℕ → Dict KeyId Entry → KeyId → Type 0
LivesAt later es id = (e : Entry) → lookup id es ≡ some e → later < e.expires_at

taken_Ready :
    (a : Association) (es gs : Dict KeyId Entry) (later : ℕ) (id : KeyId)
    → LivesAt later es id
    → Moved reserve_entry (IsOffered a) es gs id
    → Ready IsReserved later gs id
unfolding expire reserve_entry
taken_Ready a es gs later id lives (e, here, there, p) =
    (reserve_entry e, there, ground (arith, lives e here))

taken_delivery_at :
    (a : Association) (es gs : Dict KeyId Entry) (id : KeyId)
    → Moved reserve_entry (IsOffered a) es gs id
    → delivery_at (λ e. e.master) gs id ≡ delivery_at (λ e. e.master) es id
unfolding reserve_entry
taken_delivery_at a es gs id (e, here, there, _) =
    delivery_at_found (λ e. e.master) gs id (reserve_entry e) there
    ∙ sym (delivery_at_found (λ e. e.master) es id e here)

map-congr :
    {A B : Type 0} (f g : A → B) (xs : List A) → All (λ x. f x ≡ g x) xs → map f xs ≡ map g xs
map-congr f g [] h = refl
map-congr f g (x ∷ xs) h = cc (h.0, map-congr f g xs h.1)

-- In a sound repository with enough in stock, a reservation of 1 to 128 keys for a valid pair under
-- an unused token is served to its pair, whole and with the bytes that were stored, by the
-- consumption that is the very next call, if none of its keys has expired by then.
pub consume_reservation-reserve_keys :
    (m : Memory) (a : Association) (n now later : ℕ) (draws : List KeyId) (token : KeyId)
    → Inv m
    → valid_association a ≡ true
    → 0 < n
    → n ≤ max_batch
    → fresh_token draws m.reservations ≡ some token
    → n ≤ (inventory m a now).1.available
    → All (LivesAt later m.entries) (picks m a n now)
    → (consume_reservation (reserve_keys m a n now draws).0 a token later).1
      ≡ ok (map (delivery_at (λ e. e.master) m.entries) (picks m a n now))
consume_reservation-reserve_keys m a n now later draws token v valid lo hi drawn enough lives =
    let (gs, done, _, taken) =
      reserve_keys_enough m a n now draws v valid lo hi token drawn
        (omega (arith, available-offered m a now v)) in
    let held : Held = record { association = a; ids = picks m a n now } in
    let after : Memory = record m {
      entries = gs;
      reservations = insert token held m.reservations;
    } in
    let w : Inv after =
      subst (λ (x : Memory). Inv x) (ap (λ (o : Memory × Result Reservation). o.0) done)
        (reserve_keys-Progress m a n now draws v).inv in
    let there : lookup token after.reservations ≡ some held =
      ground (arith, lookup-insert token token held m.reservations, text_eq_iff token token) in
    let (h, _, found, _, served, _, _) =
      consume_reservation-Ready after a token later w held there refl
        (All-zip _ _ _ (taken_Ready a m.entries gs later) (picks m a n now) lives taken) in
    let same_held : h ≡ held = ground (arith, found, there) in
    rw done (
      ap (λ (o : Memory × Result (List Delivery)). o.1) served
      ∙ ap (λ (ds : List Delivery). ok ds)
          (ap (λ (k : Held). map (delivery_at (λ e. e.master) gs) k.ids) same_held
            ∙ map-congr _ _ (picks m a n now)
                (All-map _ _ (taken_delivery_at a m.entries gs) (picks m a n now) taken)))

abbrev MasterSpent : Memory → KeyId → Type 0
MasterSpent m id = (e : Entry) × (lookup id m.entries ≡ some e) × (e.master_state ≡ consumed)

opened_MasterSpent :
    (m : Memory) (a : Association) (gs : Dict KeyId Entry) (ids : List KeyId)
    → Inv m
    → All (Moved consume_slave (IsOpenTo a) m.entries gs) ids
    → All (λ d. MasterSpent m d.id) (map (delivery_at (λ e. e.slave) m.entries) ids)
unfolding delivery_at
opened_MasterSpent m a gs [] v h = tt
opened_MasterSpent m a gs (id ∷ ids) v ((e, found, _, p), h) = (
  (e, found, (lookup-All Sound id m.entries e v.sound found).slave_opens p.1),
  opened_MasterSpent m a gs ids v h,
)

peer_MasterSpent :
    (m : Memory) (a : Association) (ids : List KeyId) (now : ℕ)
    → Inv m
    → All (λ d. MasterSpent m d.id) (delivered (consume_peer_keys m a ids now).1)
unfolding delivered
peer_MasterSpent m a ids now v = elim (consume_peer_keys_cases m a ids now) [
  | inl (fs, e, done, _) ↦ rw done tt
  | inr (_, (gs, done, _, moved)) ↦ rw done (opened_MasterSpent m a gs ids v moved)
]

-- In a sound repository, a slave application is handed only keys whose master half had been consumed
-- before the call.
pub to_slave_after_master :
    (m : Memory) (c : ℕ × Call)
    → Inv m
    → All
        (λ d. (e : Entry) × (lookup d.id m.entries ≡ some e) × (e.master_state ≡ consumed))
        (to_slave m c)
unfolding to_slave
to_slave_after_master m (now, consume_peer a ids) v = peer_MasterSpent m a ids now v
to_slave_after_master m (now, store k) v = tt
to_slave_after_master m (now, reserve a n draws) v = tt
to_slave_after_master m (now, consume a token) v = tt
to_slave_after_master m (now, invalidate id) v = tt
to_slave_after_master m (now, describe id) v = tt
to_slave_after_master m (now, stock a) v = tt

end_open-terminal :
    (e : Entry)
    → (terminal (end_open invalidated e).master_state ≡ true)
      × (terminal (end_open invalidated e).slave_state ≡ true)
unfolding end_open terminal
end_open-terminal e = ground arith

abbrev IsOver : Memory → KeyId → Type 0
IsOver m id =
    (e : Entry) × (lookup id m.entries ≡ some e)
    × (terminal e.master_state ≡ true)
    × (terminal e.slave_state ≡ true)

invalidate_key-IsOver :
    (m : Memory) (id : KeyId) (now : ℕ)
    → (invalidate_key m id now).1 ≡ ok tt
    → IsOver (invalidate_key m id now).0 id
unfolding invalidate_key
invalidate_key-IsOver m id now good = elim (Option-cases (lookup id m.entries)) [
  | inl e ↦ absurd (ground arith)
  | inr (w, e) ↦
      let f : Entry = end_open invalidated (expire now w) in
      let (x, y) = end_open-terminal (expire now w) in
      rw (e, invalidate_key)
        (
          f,
          ground (
            arith,
            lookup-adjust id id (λ e. end_open invalidated (expire now e)) m.entries,
            text_eq_iff id id,
            e,
          ),
          x,
          y,
        )
]

IsOver-Progress :
    (m n : Memory) (id : KeyId)
    → Progress m n
    → IsOver m id
    → (e : Entry) × (lookup id n.entries ≡ some e)
      × (terminal e.master_state ≡ true)
      × (terminal e.slave_state ≡ true)
      × (e.master ≡ [])
      × (e.slave ≡ [])
IsOver-Progress m n id p (e, found, x, y) =
    let (f, there, q) = p.grows id e found in
    let s = lookup-All Sound id n.entries f p.inv.sound there in
    let x' : terminal f.master_state ≡ true = rw (q.master_final x) x in
    let y' : terminal f.slave_state ≡ true = rw (q.slave_final y) y in
    (f, there, x', y', s.master_wiped x', s.slave_wiped y')

-- After `InvalidateKey` of a known key both halves are terminal and wiped, and stay so whatever
-- calls follow.
pub run-invalidate_key :
    (m : Memory) (id : KeyId) (now : ℕ) (cs : List (ℕ × Call))
    → Inv m
    → (invalidate_key m id now).1 ≡ ok tt
    → (e : Entry) × (lookup id (run (invalidate_key m id now).0 cs).entries ≡ some e)
      × (terminal e.master_state ≡ true)
      × (terminal e.slave_state ≡ true)
      × (e.master ≡ [])
      × (e.slave ≡ [])
run-invalidate_key m id now cs v good =
    let w = (invalidate_key-Progress m id now v).inv in
    IsOver-Progress (invalidate_key m id now).0 _ id (run-Progress (invalidate_key m id now).0 cs w)
      (invalidate_key-IsOver m id now good)
