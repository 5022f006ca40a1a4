-- ===== src/Storage/Checks.antt =====
-- The first loops of the two consuming calls: what they do to the entries and what a pass means.
use transeuroogs_kms.Common.{
  Bool-cases, Option-cases, ℕ, ◌≡◌, ◌≢◌, refl, ◌⊎◌, inl, inr, true, false, some, List, [], ◌∷◌,
  arith, text_eq_instance, text_eq, All, All-map, ◌∙◌,
}
use transeuroogs_kms.Common.Dict.{Dict, lookup, adjust, lookup-adjust}
use transeuroogs_kms.Common.Dict.Pointwise.{Pointwise-lookup}
use transeuroogs_kms.Core.Errors.{ok, panic}
use transeuroogs_kms.Core.Id.{KeyId}
use transeuroogs_kms.Core.Key.{State, available, reserved, terminal, state_eq, Association}
use transeuroogs_kms.Storage.{Entry, expire, check_reserved}
use transeuroogs_kms.Storage.Lapse.{
  Lapse, Lapses, Lapses-refl, Lapses-trans, Lapses-adjust, expire-expire,
}

pub check_reserved-Lapses :
    (now : ℕ) (ids : List KeyId) (es : Dict KeyId Entry)
    → Lapses now es (check_reserved now ids es).0
unfolding check_reserved
check_reserved-Lapses now [] es = Lapses-refl now es
check_reserved-Lapses now (id ∷ ids) es = elim (Option-cases (lookup id es)) [
  | inl e ↦ rw (e, check_reserved) (Lapses-refl now es)
  | inr (v, e) ↦ elim (Bool-cases (state_eq (expire now v).master_state reserved)) [
    | inl p ↦
        rw (e, check_reserved, p)
          (Lapses-trans now es _ _ (Lapses-adjust now id es)
            (check_reserved-Lapses now ids (adjust id (expire now) es)))
    | inr p ↦ rw (e, check_reserved, p) (Lapses-adjust now id es)
  ]
]

-- The entry of an id satisfies `P` once expiry is applied.
abbrev pub Ready : (Entry → Type 0) → ℕ → Dict KeyId Entry → KeyId → Type 0
Ready P now es id = (e : Entry) × (lookup id es ≡ some e) × P (expire now e)

abbrev pub IsReserved : Entry → Type 0
IsReserved e = e.master_state ≡ reserved

abbrev pub IsOpenTo : Association → Entry → Type 0
IsOpenTo a e = (e.association ≡ a) × (e.slave_state ≡ available)

module _ (P : Entry → Type 0) (now : ℕ) (es : Dict KeyId Entry) (id : KeyId) where
  pub Ready-adjust : (j : KeyId) → Ready P now es j → Ready P now (adjust id (expire now) es) j
  Ready-adjust j (e, found, p) = elim (Bool-cases (text_eq id j)) [
    | inl same ↦
        (expire now e, rw (lookup-adjust id j (expire now) es, same, found), rw expire-expire p)
    | inr other ↦ (e, rw (lookup-adjust id j (expire now) es, other) found, p)
  ]

  pub Ready-of_adjust : (j : KeyId) → Ready P now (adjust id (expire now) es) j → Ready P now es j
  Ready-of_adjust j (e, found, p) = elim (Bool-cases (text_eq id j)) [
    | inl same ↦ elim (Option-cases (lookup j es)) [
      | inl gone ↦ absurd (ground (arith, lookup-adjust id j (expire now) es))
      | inr (v, here) ↦
          let q : expire now v ≡ e = ground (arith, lookup-adjust id j (expire now) es) in
          (v, here, rw (← expire-expire now v, q) p)
    ]
    | inr other ↦ (e, rw (lookup-adjust id j (expire now) es, other) at found, p)
  ]

  pub All-Ready-adjust :
      (ids : List KeyId)
      → All (Ready P now es) ids
      → All (Ready P now (adjust id (expire now) es)) ids
  All-Ready-adjust = All-map _ _ Ready-adjust

  pub All-Ready-of_adjust :
      (ids : List KeyId)
      → All (Ready P now (adjust id (expire now) es)) ids
      → All (Ready P now es) ids
  All-Ready-of_adjust = All-map _ _ Ready-of_adjust

pub state_eq_sound : (s t : State) → state_eq s t ≡ true → s ≡ t
unfolding state_eq
state_eq_sound s t h = ground arith

-- The check passes exactly when every id is reserved and has not expired.
pub check_reserved-ok :
    (now : ℕ) (ids : List KeyId) (es : Dict KeyId Entry)
    → (check_reserved now ids es).1 ≡ ok tt
    → All (Ready IsReserved now es) ids
unfolding check_reserved
check_reserved-ok now [] es h = tt
check_reserved-ok now (id ∷ ids) es h = elim (Option-cases (lookup id es)) [
  | inl e ↦ absurd (ground arith)
  | inr (v, e) ↦ elim (Bool-cases (state_eq (expire now v).master_state reserved)) [
    | inl p ↦ (
      (v, e, state_eq_sound _ _ p),
      All-Ready-of_adjust IsReserved now es id ids
          (check_reserved-ok now ids (adjust id (expire now) es) (ground arith)),
    )
    | inr p ↦ absurd (ground arith)
  ]
]

pub check_reserved_complete :
    (now : ℕ) (ids : List KeyId) (es : Dict KeyId Entry)
    → All (Ready IsReserved now es) ids
    → (check_reserved now ids es).1 ≡ ok tt
unfolding check_reserved state_eq
check_reserved_complete now [] es h = refl
check_reserved_complete now (id ∷ ids) es ((e, found, p), h) =
    rw (found, check_reserved, p)
      (check_reserved_complete now ids (adjust id (expire now) es)
        (All-Ready-adjust IsReserved now es id ids h))

-- Every id is known.
abbrev pub Known : Dict KeyId Entry → KeyId → Type 0
Known es id = (e : Entry) × (lookup id es ≡ some e)

pub Known-adjust :
    (f : Entry → Entry) (es : Dict KeyId Entry) (id j : KeyId)
    → Known es j
    → Known (adjust id f es) j
Known-adjust f es id j (e, found) = elim (Bool-cases (text_eq id j)) [
  | inl same ↦ (f e, rw (lookup-adjust id j f es, same, found))
  | inr other ↦ (e, rw (lookup-adjust id j f es, other) found)
]

-- With known ids the check never dereferences nil.
pub check_reserved-ne-panic :
    (now : ℕ) (ids : List KeyId) (es : Dict KeyId Entry)
    → All (Known es) ids
    → (check_reserved now ids es).1 ≢ panic
unfolding check_reserved
check_reserved-ne-panic now [] es k h = cc
check_reserved-ne-panic now (id ∷ ids) es ((e, found), k) h = ground (
  arith,
  check_reserved-ne-panic now ids (adjust id (expire now) es)
      (All-map _ _ (Known-adjust (expire now) es id) ids k),
)

open_unexpired :
    (now : ℕ) (e : Entry)
    → (terminal (expire now e).master_state ≡ false) ⊎ (terminal (expire now e).slave_state ≡ false)
    → expire now e ≡ e
unfolding expire terminal
open_unexpired now e h = ground arith

-- After lapses an open entry stands as it was.
pub Ready-lookup :
    (P : Entry → Type 0) (now : ℕ) (es fs : Dict KeyId Entry) (id : KeyId)
    → ((e : Entry) → P e → (terminal e.master_state ≡ false) ⊎ (terminal e.slave_state ≡ false))
    → Lapses now es fs
    → Ready P now es id
    → (e : Entry) × (lookup id es ≡ some e) × (lookup id fs ≡ some e) × P e
Ready-lookup P now es fs id alive lapses (e, found, p) =
    let (f, found', lapsed) = Pointwise-lookup (Lapse now) id es fs e lapses found in
    let same : expire now e ≡ e = open_unexpired now e (alive _ p) in
    let kept : f ≡ e = elim lapsed.lapse [ inl q ↦ q | inr q ↦ q ∙ same ] in
    (e, found, rw (← kept) found', rw same at p)
