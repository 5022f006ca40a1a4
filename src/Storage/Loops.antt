-- ===== src/Storage/Loops.antt =====
-- The loops over the ids of a batch, seen as one update of the entries.
use mathlib.Core.Option
use transeuroogs_kms.Common.{
  subst, Option-cases, ℕ, ◌≡◌, refl, inl, inr, false, none, some, List, [], ◌∷◌, map, arith,
  if◌then◌else◌, text_eq_instance, text_eq_iff, text_eq, All, Distinct, contains,
}
use transeuroogs_kms.Common.Dict.{Dict, lookup, adjust, lookup-adjust}
use transeuroogs_kms.Common.Dict.Pointwise.{
  Pointwise, Pointwise-adjust, Pointwise-refl, Pointwise-trans,
}
use transeuroogs_kms.Core.Errors.{ok}
use transeuroogs_kms.Core.Id.{KeyId}
use transeuroogs_kms.Core.Key.{Delivery}
use transeuroogs_kms.Storage.{Entry, adjust_each, deliver}
use transeuroogs_kms.Storage.Lifecycle.{Step, Step-refl, Step-trans}

-- The entry of `id` is there and satisfies `P`.
abbrev pub Has : (Entry → Type 0) → Dict KeyId Entry → KeyId → Type 0
Has P es id = (e : Entry) × (lookup id es ≡ some e) × P e

pub Has-adjust_ne :
    (P : Entry → Type 0) (es : Dict KeyId Entry) (id j : KeyId) (f : Entry → Entry)
    → text_eq id j ≡ false
    → Has P es j
    → Has P (adjust id f es) j
Has-adjust_ne P es id j f ne (e, found, p) = (e, rw (lookup-adjust id j f es, ne) found, p)

pub All-Has-adjust :
    (P : Entry → Type 0) (es : Dict KeyId Entry) (id : KeyId) (f : Entry → Entry) (ids : List KeyId)
    → contains ids id ≡ false
    → All (Has P es) ids
    → All (Has P (adjust id f es)) ids
unfolding contains
All-Has-adjust P es id f [] out h = tt
All-Has-adjust P es id f (j ∷ ids) out h = (
  Has-adjust_ne P es id j f (ground (arith, text_eq_iff id j, text_eq_iff j id)) h.0,
  All-Has-adjust P es id f ids (ground arith) h.1,
)

module _ (P : Entry → Type 0) (f : Entry → Entry) (step : (e : Entry) → P e → Step e (f e)) where
  pub Steps-adjust :
      (id : KeyId) (es : Dict KeyId Entry) → Has P es id → Pointwise Step es (adjust id f es)
  Steps-adjust id es (e, found, p) =
      Pointwise-adjust Step Step-refl id f es
        (λ v here. step v (subst P (ground (arith, here, found)) p))

  -- The marking loop over distinct ids that all satisfy `P`.
  pub adjust_each_lem :
      (ids : List KeyId) (es : Dict KeyId Entry)
      → Distinct ids
      → All (Has P es) ids
      → (fs : Dict KeyId Entry) × (adjust_each f ids es ≡ ok fs)
        × Pointwise Step es fs
        × ((j : KeyId)
            → lookup j fs ≡ (if contains ids j then Option.map f (lookup j es) else lookup j es))
  unfolding adjust_each contains
  adjust_each_lem [] es d h = (es, refl, Pointwise-refl Step Step-refl es, λ j. refl)
  adjust_each_lem (id ∷ ids) es d h =
      let (fs, done, steps, found) =
        adjust_each_lem ids (adjust id f es) d.1 (All-Has-adjust P es id f ids d.0 h.1) in
      (
        fs,
        rw (h.0.1, adjust_each) done,
        Pointwise-trans Step Step-trans es _ fs (Steps-adjust id es h.0) steps,
        λ j. ground (arith, found j, lookup-adjust id j f es, text_eq_iff id j, d.0),
      )

-- What is delivered for an id: the buffer `of` of its entry.
unfoldable pub delivery_at : (Entry → List ℕ) → Dict KeyId Entry → KeyId → Delivery
delivery_at of es id = record {
  id = id;
  material = elim (lookup id es) [ none ↦ [] | some e ↦ of e ];
}

pub delivery_at_found :
    (of : Entry → List ℕ) (es : Dict KeyId Entry) (id : KeyId) (e : Entry)
    → lookup id es ≡ some e
    → delivery_at of es id ≡ record { id = id; material = of e }
unfolding delivery_at
delivery_at_found of es id e h = rw (h, delivery_at)

delivery_at-adjust_ne :
    (of : Entry → List ℕ) (f : Entry → Entry) (id j : KeyId) (es : Dict KeyId Entry)
    → text_eq id j ≡ false
    → delivery_at of (adjust id f es) j ≡ delivery_at of es j
unfolding delivery_at
delivery_at-adjust_ne of f id j es ne = ground (arith, lookup-adjust id j f es)

map-delivery_at-adjust :
    (of : Entry → List ℕ) (f : Entry → Entry) (id : KeyId) (es : Dict KeyId Entry)
    (ids : List KeyId)
    → contains ids id ≡ false
    → map (delivery_at of (adjust id f es)) ids ≡ map (delivery_at of es) ids
unfolding contains
map-delivery_at-adjust of f id es [] out = refl
map-delivery_at-adjust of f id es (j ∷ ids) out = cc (
  delivery_at-adjust_ne of f id j es (ground (arith, text_eq_iff id j, text_eq_iff j id)),
  map-delivery_at-adjust of f id es ids (ground arith),
)

-- The delivering loop makes the updates of the marking loop and hands out each id's buffer.
pub deliver-adjust_each :
    (of : Entry → List ℕ) (f : Entry → Entry) (ids : List KeyId) (es fs : Dict KeyId Entry)
    → Distinct ids
    → adjust_each f ids es ≡ ok fs
    → deliver of f ids es ≡ (fs, ok (map (delivery_at of es) ids))
unfolding deliver adjust_each
deliver-adjust_each of f [] es fs d h = ground arith
deliver-adjust_each of f (id ∷ ids) es fs d h = elim (Option-cases (lookup id es)) [
  | inl e ↦ ground arith
  | inr (v, e) ↦
      let rest = deliver-adjust_each of f ids (adjust id f es) fs d.1 (rw (e, adjust_each) at h) in
      rw (
        e,
        deliver,
        rest,
        map-delivery_at-adjust of f id es ids d.0,
        delivery_at_found of es id v e,
      )
]
