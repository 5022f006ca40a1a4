-- ===== src/Storage/Consume.antt =====
-- `ConsumeReservation` and `ConsumePeerKeys`: whole batches or nothing.
use transeuroogs_kms.Common.{
  Bool-cases, Option-cases, ℕ, ◌≤◌, ◌<◌, ◌≡◌, refl, ◌⊎◌, inl, inr, true, false, some, List, [],
  arith, text_eq_instance, All, All-map, Distinct, ltb, not, ◌||◌, length,
}
use transeuroogs_kms.Common.Dict.{lookup, lookup-All}
use transeuroogs_kms.Core.Errors.{Error, Result, ok, err, panic, invalid, unavailable, unauthorized}
use transeuroogs_kms.Core.Id.{KeyId}
use transeuroogs_kms.Core.Key.{
  terminal, Association, association_eq, association_eq_iff, valid_association, max_batch,
}
use transeuroogs_kms.Core.Batch.{distinct_batch}
use transeuroogs_kms.Core.Batch.Laws.{distinct_batch_iff}
use transeuroogs_kms.Storage.{
  Entry, Held, Memory, check_reserved, check_peer, consume_reservation, consume_peer_keys,
  consume_master, consume_slave,
}
use transeuroogs_kms.Storage.Lifecycle.{consume_master-Step, consume_slave-Step}
use transeuroogs_kms.Storage.Lapse.{Lapses-refl}
use transeuroogs_kms.Storage.Checks.{
  Ready, IsReserved, IsOpenTo, Known, check_reserved-Lapses, check_reserved-ok,
  check_reserved_complete, check_reserved-ne-panic,
}
use transeuroogs_kms.Storage.PeerChecks.{
  check_peer-Lapses, check_peer-ok, check_peer_complete, check_peer-ne-panic,
}
use transeuroogs_kms.Storage.Marking.{delivering}
use transeuroogs_kms.Storage.Outcomes.{Refused, ServesMaster, ServesSlave}
use transeuroogs_kms.Storage.Invariant.{Inv, Holds}

reserved_open :
    (e : Entry)
    → IsReserved e
    → (terminal e.master_state ≡ false) ⊎ (terminal e.slave_state ≡ false)
unfolding terminal
reserved_open e p = inl (ground arith)

open_open :
    {a : Association} (e : Entry)
    → IsOpenTo a e
    → (terminal e.master_state ≡ false) ⊎ (terminal e.slave_state ≡ false)
unfolding terminal
open_open e p = inr (ground arith)

verdict_cases : (r : Result (Unit {0})) → (r ≡ ok tt) ⊎ (((e : Error) × (r ≡ err e)) ⊎ (r ≡ panic))
verdict_cases (ok tt) = inl refl
verdict_cases (err e) = inr (inl (e, refl))
verdict_cases panic = inr (inr refl)

pub held_Holds :
    (m : Memory) (token : KeyId) (h : Held)
    → Inv m
    → lookup token m.reservations ≡ some h
    → Holds m.entries h
held_Holds m token h v found =
    lookup-All (λ _ h. Holds m.entries h) token m.reservations h v.held found

module _ (m : Memory) (a : Association) (token : KeyId) (now : ℕ) (v : Inv m) where
  held_Known : (h : Held) → Holds m.entries h → All (Known m.entries) h.ids
  held_Known h o = All-map _ _ (λ id x. (x.0, x.1)) h.ids o.1

  -- A reservation of the pair is served when all its keys are still reserved.
  pub consume_reservation-Ready :
      (h : Held)
      → lookup token m.reservations ≡ some h
      → h.association ≡ a
      → All (Ready IsReserved now m.entries) h.ids
      → ServesMaster m a token (consume_reservation m a token now)
  unfolding consume_reservation
  consume_reservation-Ready h found same ready =
      let es = (check_reserved now h.ids m.entries).0 in
      let pass = check_reserved_complete now h.ids m.entries ready in
      let pair : association_eq h.association a ≡ true = (association_eq_iff _ a).1 same in
      let (gs, done, steps, moved) =
        delivering IsReserved consume_master consume_master-Step reserved_open now h.ids m.entries
          (held_Holds m token h v found).0 ready es (check_reserved-Lapses now h.ids m.entries)
          (λ e. e.master) in
      (h, gs, found, same, rw (found, consume_reservation, pair, pass, done), steps, moved)

  -- On a repository that satisfies the invariant, `ConsumeReservation` either fails and does
  -- nothing but let entries expire, or finds the reservation, of the same pair, delivers the
  -- master's bytes of all its keys, consumes that half of each, and deletes the reservation.
  pub consume_reservation_cases :
      Refused m now (consume_reservation m a token now)
      ⊎ ServesMaster m a token (consume_reservation m a token now)
  unfolding consume_reservation
  consume_reservation_cases = elim (Option-cases (lookup token m.reservations)) [
    | inl e ↦ inl (m.entries, unavailable, rw (e, consume_reservation), Lapses-refl now m.entries)
    | inr (h, found) ↦ elim (Bool-cases (association_eq h.association a)) [
      | inr other ↦ inl (
        m.entries,
        unauthorized,
        rw (found, consume_reservation, other),
        Lapses-refl now m.entries,
      )
      | inl same ↦ elim (verdict_cases (check_reserved now h.ids m.entries).1) [
        | inl pass ↦ inr (
            consume_reservation-Ready h found ((association_eq_iff _ a).0 same)
              (check_reserved-ok now h.ids m.entries pass))
        | inr (inl (e, fail)) ↦ inl (
          (check_reserved now h.ids m.entries).0,
          e,
          rw (found, consume_reservation, same, fail),
          check_reserved-Lapses now h.ids m.entries,
        )
        | inr (inr nil) ↦ absurd (
            check_reserved-ne-panic now h.ids m.entries
              (held_Known h (held_Holds m token h v found)) nil)
      ]
    ]
  ]

module _ (m : Memory) (a : Association) (ids : List KeyId) (now : ℕ) where
  pub consume_peer_keys-Ready :
      valid_association a ≡ true
      → 0 < length ids
      → length ids ≤ max_batch
      → distinct_batch [] ids ≡ true
      → All (Ready (IsOpenTo a) now m.entries) ids
      → ServesSlave m a ids (consume_peer_keys m a ids now)
  unfolding consume_peer_keys
  consume_peer_keys-Ready valid lo hi distinct ready =
      let guard : (not (valid_association a) || ltb (length ids) 1 || ltb max_batch (length ids))
          ≡ false =
        ground arith in
      let pass = check_peer_complete a now ids m.entries ready in
      let (gs, done, steps, moved) =
        delivering (IsOpenTo a) consume_slave (λ e p. consume_slave-Step e p.1) open_open now ids
          m.entries ((distinct_batch_iff ids).0 distinct).0 ready (check_peer a now ids m.entries).0
          (check_peer-Lapses a now ids m.entries) (λ e. e.slave) in
      (gs, rw (guard, distinct, consume_peer_keys, pass, done), steps, moved)

  -- `ConsumePeerKeys` either fails and does nothing but let entries expire, or the ids are
  -- distinct, the slave's bytes of all of them are delivered and that half of each is consumed.
  pub consume_peer_keys_cases :
      Refused m now (consume_peer_keys m a ids now)
      ⊎ (Distinct ids × ServesSlave m a ids (consume_peer_keys m a ids now))
  unfolding consume_peer_keys
  consume_peer_keys_cases =
      elim (Bool-cases
        (not (valid_association a) || ltb (length ids) 1 || ltb max_batch (length ids))) [
          | inl bad ↦
              inl (m.entries, invalid, rw (bad, consume_peer_keys), Lapses-refl now m.entries)
          | inr fine ↦ elim (Bool-cases (distinct_batch [] ids)) [
            | inr bad ↦
                inl
                  (m.entries, invalid, rw (fine, bad, consume_peer_keys), Lapses-refl now m.entries)
            | inl distinct ↦ elim (verdict_cases (check_peer a now ids m.entries).1) [
              | inl pass ↦ inr (
                ((distinct_batch_iff ids).0 distinct).0,
                consume_peer_keys-Ready (ground arith) (ground arith) (ground arith) distinct
                    (check_peer-ok a now ids m.entries pass),
              )
              | inr (inl (e, fail)) ↦ inl (
                (check_peer a now ids m.entries).0,
                e,
                rw (fine, distinct, consume_peer_keys, fail),
                check_peer-Lapses a now ids m.entries,
              )
              | inr (inr nil) ↦ absurd (check_peer-ne-panic a now ids m.entries nil)
            ]
          ]
        ]
