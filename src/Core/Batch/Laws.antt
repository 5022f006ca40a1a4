-- ===== src/Core/Batch/Laws.antt =====
-- What the check of a batch means.
use transeuroogs_kms.Common.{
  ◌≡◌, ◌↔◌, refl, true, false, List, [], ◌∷◌, contains, text_eq_iff, text_eq_instance, All,
  Distinct, arith,
}
use transeuroogs_kms.Core.Id.{KeyId, valid_id}
use transeuroogs_kms.Core.Batch.{distinct_batch}

-- Distinct ids, all of them valid, none of them seen before.
abbrev pub IsBatch : List KeyId → List KeyId → Type 0
IsBatch seen ids =
    Distinct ids × All (λ id. contains seen id ≡ false) ids × All (λ id. valid_id id ≡ true) ids

pub not_seen :
    (id : KeyId) (seen ids : List KeyId)
    → All (λ j. contains (id ∷ seen) j ≡ false) ids
    → (contains ids id ≡ false) × All (λ j. contains seen j ≡ false) ids
unfolding contains
not_seen id seen [] h = (refl, tt)
not_seen id seen (j ∷ ids) h =
    let (out, rest) = not_seen id seen ids h.1 in
    (ground (arith, h.0, text_eq_iff id j, text_eq_iff j id), (ground (arith, h.0), rest))

seen_too :
    (id : KeyId) (seen ids : List KeyId)
    → contains ids id ≡ false
    → All (λ j. contains seen j ≡ false) ids
    → All (λ j. contains (id ∷ seen) j ≡ false) ids
unfolding contains
seen_too id seen [] out h = tt
seen_too id seen (j ∷ ids) out h = (
  ground (arith, h.0, text_eq_iff id j, text_eq_iff j id),
  seen_too id seen ids (ground arith) h.1,
)

pub distinct_batch_sound :
    (seen ids : List KeyId) → distinct_batch seen ids ≡ true → IsBatch seen ids
unfolding distinct_batch
distinct_batch_sound seen [] h = (tt, tt, tt)
distinct_batch_sound seen (id ∷ ids) h =
    let (d, out, valid) = distinct_batch_sound (id ∷ seen) ids (ground arith) in
    let (new, rest) = not_seen id seen ids out in
    ((new, d), (ground arith, rest), (ground arith, valid))

pub distinct_batch_complete :
    (seen ids : List KeyId) → IsBatch seen ids → distinct_batch seen ids ≡ true
unfolding distinct_batch
distinct_batch_complete seen [] h = refl
distinct_batch_complete seen (id ∷ ids) (d, out, valid) =
    rw (valid.0, out.0)
      (distinct_batch_complete (id ∷ seen) ids (d.1, seen_too id seen ids d.0 out.1, valid.1))

-- A batch passes the check exactly when its ids are distinct and valid.
pub distinct_batch_iff :
    (ids : List KeyId)
    → (distinct_batch [] ids ≡ true) ↔ (Distinct ids × All (λ id. valid_id id ≡ true) ids)
distinct_batch_iff ids = (
  λ h. let (d, _, valid) = distinct_batch_sound [] ids h in (d, valid),
  λ h. distinct_batch_complete [] ids (h.0, nothing_seen ids, h.1),
)
  where
    nothing_seen : (js : List KeyId) → All (λ j. contains [] j ≡ false) js
    nothing_seen [] = tt
    nothing_seen (j ∷ js) = (unfold contains in refl, nothing_seen js)
