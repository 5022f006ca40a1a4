-- ===== src/Storage/Lapse.antt =====
-- Expiry alone: what a call may do to the entries when it fails, and while it looks.
use transeuroogs_kms.Common.{
  Option-cases, ℕ, ◌≡◌, refl, ap, ◌⊎◌, inl, inr, Option, none, some, arith, text_eq_instance, ◌∙◌,
}
use transeuroogs_kms.Common.Dict.{Dict, lookup, adjust, lookup-adjust}
use transeuroogs_kms.Common.Dict.Pointwise.{
  Pointwise, Pointwise-adjust, Pointwise-refl, Pointwise-trans, Pointwise-map,
}
use transeuroogs_kms.Core.Id.{KeyId}
use transeuroogs_kms.Core.Key.{terminal}
use transeuroogs_kms.Storage.{Entry, expire}
use transeuroogs_kms.Storage.Lifecycle.{Step, Step-refl, expire-Step}

pub expire-expire : (now : ℕ) (e : Entry) → expire now (expire now e) ≡ expire now e
unfolding expire terminal
expire-expire now e = ground arith

-- An entry untouched, or expired at `now`.
pub record Lapse (now : ℕ) (e f : Entry) : Type 0 where
  pub lapse : (f ≡ e) ⊎ (f ≡ expire now e)

pub Lapse-refl : (now : ℕ) (e : Entry) → Lapse now e e
Lapse-refl now e = record { lapse = inl refl }

pub Lapse-trans : (now : ℕ) (d e f : Entry) → Lapse now d e → Lapse now e f → Lapse now d f
Lapse-trans now d e f h k = record {
  lapse = elim h.lapse [
    | inl p ↦ elim k.lapse [ inl q ↦ inl (q ∙ p) | inr q ↦ inr (q ∙ ap (expire now) p) ]
    | inr p ↦ elim k.lapse [
      | inl q ↦ inr (q ∙ p)
      | inr q ↦ inr (q ∙ ap (expire now) p ∙ expire-expire now d)
    ]
  ];
}

pub Lapse-Step : (now : ℕ) (e f : Entry) → Lapse now e f → Step e f
Lapse-Step now e f h = elim h.lapse [
  | inl p ↦ rw p (Step-refl e)
  | inr p ↦ rw p (expire-Step now e)
]

pub Lapse-expire : (now : ℕ) (e f : Entry) → Lapse now e f → expire now f ≡ expire now e
Lapse-expire now e f h = elim h.lapse [
  | inl p ↦ ap (expire now) p
  | inr p ↦ ap (expire now) p ∙ expire-expire now e
]

-- All entries of a map.
abbrev pub Lapses : ℕ → Dict KeyId Entry → Dict KeyId Entry → Type 0
Lapses now = Pointwise (Lapse now)

pub Lapses-refl : (now : ℕ) (es : Dict KeyId Entry) → Lapses now es es
Lapses-refl now = Pointwise-refl (Lapse now) (Lapse-refl now)

pub Lapses-trans :
    (now : ℕ) (cs ds es : Dict KeyId Entry) → Lapses now cs ds → Lapses now ds es → Lapses now cs es
Lapses-trans now = Pointwise-trans (Lapse now) (Lapse-trans now)

pub Lapses-adjust :
    (now : ℕ) (id : KeyId) (es : Dict KeyId Entry) → Lapses now es (adjust id (expire now) es)
Lapses-adjust now id es =
    Pointwise-adjust (Lapse now) (Lapse-refl now) id (expire now) es
      (λ e _. record { lapse = inr refl })

pub Lapses-Steps : (now : ℕ) (es fs : Dict KeyId Entry) → Lapses now es fs → Pointwise Step es fs
Lapses-Steps now = Pointwise-map (Lapse now) Step (Lapse-Step now)

-- The entry of an id as it stands once expiry is applied; lapses do not change it.
unfoldable pub fresh_at : ℕ → Dict KeyId Entry → KeyId → Option Entry
fresh_at now es id = elim (lookup id es) [ none ↦ none | some e ↦ some (expire now e) ]

pub fresh_at-adjust :
    (now : ℕ) (es : Dict KeyId Entry) (id j : KeyId)
    → fresh_at now (adjust id (expire now) es) j ≡ fresh_at now es j
unfolding fresh_at
fresh_at-adjust now es id j = elim (Option-cases (lookup j es)) [
  | inl e ↦ ground (arith, lookup-adjust id j (expire now) es)
  | inr (v, e) ↦ ground (arith, lookup-adjust id j (expire now) es, expire-expire now v)
]
