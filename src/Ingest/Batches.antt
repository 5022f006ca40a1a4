-- ===== src/Ingest/Batches.antt =====
-- What the loops that test a batch of ids say of it.
use transeuroogs_kms.Common.{
  ℕ, ◌≡◌, refl, inl, inr, Bool, true, false, Option-cases, none, List, [], ◌∷◌, arith, length,
  contains, Distinct, text_eq_iff, text_eq_instance,
}
use transeuroogs_kms.Common.Dict.{Dict, lookup}
use transeuroogs_kms.Core.Id.{KeyId}
use transeuroogs_kms.Core.Key.{Delivery}
use transeuroogs_kms.Ingest.{Stored, Request}
use transeuroogs_kms.Ingest.Serve.{batch_fine, validate, new_ids, ids_of}
use transeuroogs_kms.Ingest.Keeps.{validate_fine}

-- An id that was seen is not in the rest of the batch.
fine_unseen :
    (for_slave : Bool) (ids : List KeyId) (ks : Dict KeyId Stored) (seen : List KeyId)
    → (ds : List Delivery) (id : KeyId) → batch_fine for_slave ids ks seen ds ≡ true
    → contains seen id ≡ true
    → contains (ids_of ds) id ≡ false
unfolding batch_fine contains
fine_unseen for_slave ids ks seen [] id h m = refl
fine_unseen for_slave ids ks seen (d ∷ ds) id h m =
    let ih = fine_unseen for_slave ids ks (d.id ∷ seen) ds id in
    ground (arith, h, m, ih, text_eq_iff d.id id)

fine-Distinct :
    (for_slave : Bool) (ids : List KeyId) (ks : Dict KeyId Stored) (seen : List KeyId)
    → (ds : List Delivery) → batch_fine for_slave ids ks seen ds ≡ true
    → Distinct (ids_of ds)
unfolding batch_fine contains
fine-Distinct for_slave ids ks seen [] h = tt
fine-Distinct for_slave ids ks seen (d ∷ ds) h =
    let rest : batch_fine for_slave ids ks (d.id ∷ seen) ds ≡ true = ground (arith, h) in
    (
      fine_unseen for_slave ids ks (d.id ∷ seen) ds d.id rest
          (ground (arith, text_eq_iff d.id d.id)),
      fine-Distinct for_slave ids ks (d.id ∷ seen) ds rest,
    )

-- A batch that was accepted.
pub validate-Distinct :
    (now : ℕ) (q : Request) (for_slave : Bool) (ks : Dict KeyId Stored) (ds : List Delivery)
    → validate now q for_slave ks ds ≡ true
    → Distinct (ids_of ds)
validate-Distinct now q for_slave ks ds h =
    fine-Distinct for_slave q.ids ks [] ds (validate_fine now q for_slave ks ds h)

pub validate-length :
    (now : ℕ) (q : Request) (for_slave : Bool) (ks : Dict KeyId Stored) (ds : List Delivery)
    → validate now q for_slave ks ds ≡ true
    → length ds ≡ q.count
unfolding validate
validate-length now q for_slave ks ds h = ground (arith, h)

new_ids_unseen :
    (seen ids : List KeyId) (ks : Dict KeyId Stored) (id : KeyId)
    → new_ids seen ids ks ≡ none
    → contains seen id ≡ true
    → contains ids id ≡ false
unfolding new_ids contains
new_ids_unseen seen [] ks id h m = refl
new_ids_unseen seen (j ∷ ids) ks id h m =
    let ih = new_ids_unseen (j ∷ seen) ids ks id in
    elim (Option-cases (lookup j ks)) [
      | inl absent ↦ ground (arith, h, m, ih, absent, text_eq_iff j id)
      | inr (k, found) ↦ absurd (ground (arith, h, found))
    ]

pub new_ids-Distinct :
    (seen ids : List KeyId) (ks : Dict KeyId Stored) → new_ids seen ids ks ≡ none → Distinct ids
unfolding new_ids contains
new_ids-Distinct seen [] ks h = tt
new_ids-Distinct seen (j ∷ ids) ks h = elim (Option-cases (lookup j ks)) [
  | inl absent ↦
      let rest : new_ids (j ∷ seen) ids ks ≡ none = ground (arith, h, absent) in
      (
        new_ids_unseen (j ∷ seen) ids ks j rest (ground (arith, text_eq_iff j j)),
        new_ids-Distinct (j ∷ seen) ids ks rest,
      )
  | inr (k, found) ↦ absurd (ground (arith, h, found))
]
