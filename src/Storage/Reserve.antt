-- ===== src/Storage/Reserve.antt =====
-- `ReserveKeys`: what a reservation takes, and what a failed one leaves.
use transeuroogs_kms.Common.{
  Option-cases, ℕ, ◌≤◌, ◌<◌, ◌≡◌, ◌⊎◌, inl, inr, true, false, none, some, List, [], arith,
  text_eq_instance, All, All-map, length, Distinct, count, ltb, nat_eq, not, ◌||◌,
}
use transeuroogs_kms.Common.Dict.{Dict, lookup, insert}
use transeuroogs_kms.Common.Dict.Pointwise.{Pointwise}
use transeuroogs_kms.Core.Errors.{ok, err, panic, unavailable}
use transeuroogs_kms.Core.Id.{KeyId}
use transeuroogs_kms.Core.Key.{
  available, terminal, Association, association_eq_iff, valid_association, max_batch,
}
use transeuroogs_kms.Storage.{Entry, Memory, expire, offers, reserve_entry, reserve_keys, scan}
use transeuroogs_kms.Core.Token.{fresh_token}
use transeuroogs_kms.Storage.Lifecycle.{Step, reserve_entry-Step}
use transeuroogs_kms.Storage.Lapse.{Lapses, fresh_at}
use transeuroogs_kms.Storage.Checks.{Ready, state_eq_sound}
use transeuroogs_kms.Storage.Marking.{Moved, marking}
use transeuroogs_kms.Storage.Scan.{firsts, offered, scan-firsts}
use transeuroogs_kms.Storage.Firsts.{firsts-All, firsts-Distinct, length-firsts}
use transeuroogs_kms.Storage.Invariant.{Inv, order-Known}

-- An entry on offer to the pair `a`.
abbrev pub IsOffered : Association → Entry → Type 0
IsOffered a e = (e.association ≡ a) × (e.master_state ≡ available)

offers-IsOffered : (a : Association) (e : Entry) → offers a e ≡ true → IsOffered a e
unfolding offers
offers-IsOffered a e h =
    ground (arith, association_eq_iff e.association a, state_eq_sound e.master_state available)

offered-Ready :
    (a : Association) (now : ℕ) (es : Dict KeyId Entry) (id : KeyId)
    → offered a now es id ≡ true
    → Ready (IsOffered a) now es id
unfolding offered fresh_at
offered-Ready a now es id h = elim (Option-cases (lookup id es)) [
  | inl e ↦ absurd (ground arith)
  | inr (v, e) ↦ (v, e, offers-IsOffered a (expire now v) (ground arith))
]

-- The ids that a reservation of `n` keys takes.
abbrev pub picks : Memory → Association → ℕ → ℕ → List KeyId
picks m a n now = firsts n (offered a now m.entries) m.order

offered-Step : {a : Association} (e : Entry) → IsOffered a e → Step e (reserve_entry e)
offered-Step e p = reserve_entry-Step e p.1

offered_open :
    {a : Association} (e : Entry)
    → IsOffered a e
    → (terminal e.master_state ≡ false) ⊎ (terminal e.slave_state ≡ false)
unfolding terminal
offered_open e p = inl (ground arith)

module _ (m : Memory) (a : Association) (n now : ℕ) (draws : List KeyId) (v : Inv m)
    (valid : valid_association a ≡ true) (some_wanted : 0 < n) (in_batch : n ≤ max_batch) where
  scanned :
      (fs : Dict KeyId Entry) × (scan a n now m.order [] m.entries ≡ ok (fs, picks m a n now))
      × Lapses now m.entries fs
  scanned = scan-firsts a n now m.order m.entries some_wanted (order-Known m v)

  picked-Ready : All (Ready (IsOffered a) now m.entries) (picks m a n now)
  picked-Ready =
      All-map _ _ (offered-Ready a now m.entries) (picks m a n now)
        (firsts-All (offered a now m.entries) n m.order)

  guard : (not (valid_association a) || ltb n 1 || ltb max_batch n) ≡ false
  guard = ground arith

  -- With fewer keys on offer than wanted nothing but expiry happens.
  pub reserve_keys_short :
      count (offered a now m.entries) m.order < n
      → (fs : Dict KeyId Entry) × (reserve_keys m a n now draws
          ≡ (record m { entries = fs }, err unavailable))
        × Lapses now m.entries fs
  unfolding reserve_keys
  reserve_keys_short short =
      let (fs, done, lapses) = scanned in
      let few : nat_eq (length (picks m a n now)) n ≡ false =
        ground (arith, length-firsts (offered a now m.entries) n m.order) in
      (fs, rw (guard, done, reserve_keys, few), lapses)

  pub picks-Distinct : Distinct (picks m a n now)
  picks-Distinct = firsts-Distinct (offered a now m.entries) n m.order v.distinct

  -- With enough keys on offer the first `n` of them are taken under a token that was not in use.
  pub reserve_keys_enough :
      (token : KeyId)
      → fresh_token draws m.reservations ≡ some token
      → n ≤ count (offered a now m.entries) m.order
      → (gs : Dict KeyId Entry) × (reserve_keys m a n now draws ≡ (
        record m {
          entries = gs;
          reservations =
              insert token (record { association = a; ids = picks m a n now }) m.reservations;
        },
        ok (record { token = token; ids = picks m a n now }),
      ))
        × Pointwise Step m.entries gs
        × All (Moved reserve_entry (IsOffered a) m.entries gs) (picks m a n now)
  unfolding reserve_keys
  reserve_keys_enough token drawn enough =
      let (fs, done, lapses) = scanned in
      let (gs, marks, steps, taken) =
        marking (IsOffered a) reserve_entry offered-Step offered_open now (picks m a n now)
          m.entries picks-Distinct picked-Ready fs lapses in
      let full : nat_eq (length (picks m a n now)) n ≡ true =
        ground (arith, length-firsts (offered a now m.entries) n m.order) in
      (gs, rw (guard, done, reserve_keys, full, marks, drawn), steps, taken)

  -- Without an unused draw the token loop does not end: the keys were looked at, no more.
  pub reserve_keys_stuck :
      fresh_token draws m.reservations ≡ none
      → n ≤ count (offered a now m.entries) m.order
      → (fs : Dict KeyId Entry) × (reserve_keys m a n now draws
          ≡ (record m { entries = fs }, panic))
        × Lapses now m.entries fs
  unfolding reserve_keys
  reserve_keys_stuck dry enough =
      let (fs, done, lapses) = scanned in
      let (gs, marks, _, _) =
        marking (IsOffered a) reserve_entry offered-Step offered_open now (picks m a n now)
          m.entries picks-Distinct picked-Ready fs lapses in
      let full : nat_eq (length (picks m a n now)) n ≡ true =
        ground (arith, length-firsts (offered a now m.entries) n m.order) in
      (fs, rw (guard, done, reserve_keys, full, marks, dry), lapses)
