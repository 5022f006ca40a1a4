-- ===== src/Storage/Progress.antt =====
-- What every operation of the repository does to its state as a whole.
use transeuroogs_kms.Common.{
  Bool-cases, Option-cases, ℕ, ◌≤◌, ◌<◌, ◌≡◌, inl, inr, true, some, List, arith, text_eq_instance,
  All, All-map, Distinct, count, ltb, leb, not, ◌||◌,
}
use transeuroogs_kms.Common.Dict.{Dict, lookup, insert, All-erase, All-insert, lookup-All}
use transeuroogs_kms.Common.Dict.Pointwise.{Pointwise, Pointwise-lookup, Pointwise-adjust}
use transeuroogs_kms.Core.Id.{KeyId}
use transeuroogs_kms.Core.Key.{Association, Key, valid_association, max_batch}
use transeuroogs_kms.Storage.{
  Entry, Memory, Outcome, store_key, reserve_keys, consume_reservation, consume_peer_keys,
  invalidate_key, metadata, inventory, reserve_entry,
}
use transeuroogs_kms.Core.Token.{fresh_token}
use transeuroogs_kms.Storage.Lifecycle.{
  Sound, Evolves, Evolves-refl, Evolves-trans, Step, Step-refl, invalidate-Step,
}
use transeuroogs_kms.Storage.Lapse.{Lapses, Lapses-Steps, Lapses-adjust}
use transeuroogs_kms.Storage.Loops.{Has}
use transeuroogs_kms.Storage.Marking.{Moved}
use transeuroogs_kms.Storage.Outcomes.{Refused}
use transeuroogs_kms.Storage.Scan.{offered}
use transeuroogs_kms.Storage.Invariant.{Inv, Steps-Inv, IsHeldFor, Holds}
use transeuroogs_kms.Storage.Reserve.{
  IsOffered, picks, picks-Distinct, reserve_keys_short, reserve_keys_enough, reserve_keys_stuck,
}
use transeuroogs_kms.Storage.Consume.{consume_reservation_cases, consume_peer_keys_cases}
use transeuroogs_kms.Storage.Store.{store_key_cases, stored-Inv, lookup-stored}
use transeuroogs_kms.Storage.Offers.{expire_all-Lapses}

-- The invariant holds afterwards, no entry is lost, and each moved forward.
pub record Progress (m n : Memory) : Type 0 where
  pub inv : Inv n
  pub grows :
      (id : KeyId) (e : Entry)
      → lookup id m.entries ≡ some e
      → (f : Entry) × (lookup id n.entries ≡ some f) × Evolves e f

Steps-grow :
    (m : Memory) (fs : Dict KeyId Entry) (id : KeyId) (e : Entry)
    → Inv m
    → Pointwise Step m.entries fs
    → lookup id m.entries ≡ some e
    → (f : Entry) × (lookup id fs ≡ some f) × Evolves e f
Steps-grow m fs id e v steps found =
    let (f, found', step) = Pointwise-lookup Step id m.entries fs e steps found in
    (f, found', step.evolves id (lookup-All Sound id m.entries e v.sound found))

pub Steps-Progress :
    (m : Memory) (fs : Dict KeyId Entry)
    → Inv m
    → Pointwise Step m.entries fs
    → Progress m (record m { entries = fs })
Steps-Progress m fs v steps = record {
  inv = Steps-Inv m fs v steps;
  grows = λ id e. Steps-grow m fs id e v steps;
}

pub Lapses-Progress :
    (m : Memory) (now : ℕ) (fs : Dict KeyId Entry)
    → Inv m
    → Lapses now m.entries fs
    → Progress m (record m { entries = fs })
Lapses-Progress m now fs v lapses = Steps-Progress m fs v (Lapses-Steps now m.entries fs lapses)

pub Progress-refl : (m : Memory) → Inv m → Progress m m
Progress-refl m v = record { inv = v; grows = λ id e found. (e, found, Evolves-refl e) }

pub Progress-trans : (l m n : Memory) → Progress l m → Progress m n → Progress l n
Progress-trans l m n h k = record {
  inv = k.inv;
  grows = λ id e found.
      let (f, found', p) = h.grows id e found in
      let (g, found'', q) = k.grows id f found' in (g, found'', Evolves-trans e f g p q);
}

Refused-Progress :
    {A : Type 0} (m : Memory) (now : ℕ) (out : Outcome A)
    → Inv m
    → Refused m now out
    → Progress m out.0
Refused-Progress m now out v (fs, e, done, lapses) = rw done (Lapses-Progress m now fs v lapses)

pub store_key-Progress : (m : Memory) (k : Key) (now : ℕ) → Inv m → Progress m (store_key m k now).0
store_key-Progress m k now v = elim (store_key_cases m k now) [
  | inl (e, done) ↦ rw done (Progress-refl m v)
  | inr (fine, new, room, done) ↦ rw done (record {
    inv = stored-Inv m k now v fine new room;
    grows = λ id e found. (e, lookup-stored m k id e new found, Evolves-refl e);
  })
]

taken_held :
    {a : Association} (es gs : Dict KeyId Entry) (id : KeyId)
    → Moved reserve_entry (IsOffered a) es gs id
    → Has (IsHeldFor a) gs id
unfolding reserve_entry
taken_held es gs id (e, _, there, p) = (reserve_entry e, there, (p.0, ground arith))

-- A reservation joins.
held_Progress :
    (m : Memory) (gs : Dict KeyId Entry) (token : KeyId) (a : Association) (ids : List KeyId)
    → Inv m
    → Pointwise Step m.entries gs
    → Distinct ids
    → All (Moved reserve_entry (IsOffered a) m.entries gs) ids
    → Progress m (record m {
      entries = gs;
      reservations = insert token (record { association = a; ids = ids }) m.reservations;
    })
held_Progress m gs token a ids v steps distinct taken =
    let w = Steps-Inv m gs v steps in
    record {
      inv = record {
        ordered = w.ordered;
        distinct = w.distinct;
        bounded = w.bounded;
        sound = w.sound;
        held =
            All-insert (Holds gs) token _ m.reservations
              (distinct, All-map _ _ (taken_held m.entries gs) ids taken) w.held;
      };
      grows = λ id e. Steps-grow m gs id e v steps;
    }

pub reserve_keys-Progress :
    (m : Memory) (a : Association) (n now : ℕ) (draws : List KeyId)
    → Inv m
    → Progress m (reserve_keys m a n now draws).0
reserve_keys-Progress m a n now draws v =
    elim (Bool-cases (not (valid_association a) || ltb n 1 || ltb max_batch n)) [
      | inl bad ↦ unfold reserve_keys in rw (bad, reserve_keys) (Progress-refl m v)
      | inr fine ↦
          let valid : valid_association a ≡ true = ground arith in
          let lo : 0 < n = ground arith in
          let hi : n ≤ max_batch = ground arith in
          elim (Bool-cases (leb n (count (offered a now m.entries) m.order))) [
            | inr few ↦
                let (fs, done, lapses) =
                  reserve_keys_short m a n now draws v valid lo hi (ground arith) in
                rw done (Lapses-Progress m now fs v lapses)
            | inl enough ↦ elim (Option-cases (fresh_token draws m.reservations)) [
              | inl dry ↦
                  let (fs, done, lapses) =
                    reserve_keys_stuck m a n now draws v valid lo hi dry (ground arith) in
                  rw done (Lapses-Progress m now fs v lapses)
              | inr (token, drawn) ↦
                  let (gs, done, steps, taken) =
                    reserve_keys_enough m a n now draws v valid lo hi token drawn (ground arith) in
                  rw done (
                    held_Progress m gs token a (picks m a n now) v steps
                      (picks-Distinct m a n now draws v valid lo hi) taken)
            ]
          ]
    ]

pub consume_reservation-Progress :
    (m : Memory) (a : Association) (token : KeyId) (now : ℕ)
    → Inv m
    → Progress m (consume_reservation m a token now).0
consume_reservation-Progress m a token now v = elim (consume_reservation_cases m a token now v) [
  | inl refused ↦ Refused-Progress m now _ v refused
  | inr (h, gs, _, _, done, steps, _) ↦
      let w = Steps-Inv m gs v steps in
      rw done (record {
        inv = record {
          ordered = w.ordered;
          distinct = w.distinct;
          bounded = w.bounded;
          sound = w.sound;
          held = All-erase (Holds gs) token m.reservations w.held;
        };
        grows = λ id e. Steps-grow m gs id e v steps;
      })
]

pub consume_peer_keys-Progress :
    (m : Memory) (a : Association) (ids : List KeyId) (now : ℕ)
    → Inv m
    → Progress m (consume_peer_keys m a ids now).0
consume_peer_keys-Progress m a ids now v = elim (consume_peer_keys_cases m a ids now) [
  | inl refused ↦ Refused-Progress m now _ v refused
  | inr (_, (gs, done, steps, _)) ↦ rw done (Steps-Progress m gs v steps)
]

pub invalidate_key-Progress :
    (m : Memory) (id : KeyId) (now : ℕ) → Inv m → Progress m (invalidate_key m id now).0
unfolding invalidate_key
invalidate_key-Progress m id now v = elim (Option-cases (lookup id m.entries)) [
  | inl e ↦ rw (e, invalidate_key) (Progress-refl m v)
  | inr (w, e) ↦
      rw (e, invalidate_key)
        (Steps-Progress m _ v
          (Pointwise-adjust Step Step-refl id _ m.entries (λ f _. invalidate-Step now f)))
]

pub metadata-Progress :
    (m : Memory) (id : KeyId) (now : ℕ) → Inv m → Progress m (metadata m id now).0
unfolding metadata
metadata-Progress m id now v = elim (Option-cases (lookup id m.entries)) [
  | inl e ↦ rw (e, metadata) (Progress-refl m v)
  | inr (w, e) ↦ rw (e, metadata) (Lapses-Progress m now _ v (Lapses-adjust now id m.entries))
]

pub inventory-Progress :
    (m : Memory) (a : Association) (now : ℕ) → Inv m → Progress m (inventory m a now).0
unfolding inventory
inventory-Progress m a now v = Lapses-Progress m now _ v (expire_all-Lapses now m.entries)
