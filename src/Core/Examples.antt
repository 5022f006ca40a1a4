-- ===== src/Core/Examples.antt =====
-- The properties of ids and batches at concrete inputs.
use transeuroogs_kms.Common.{◌≡◌, ◌↔◌, true, [], ◌∷◌, arith, ascii, All, Distinct, text_eq_instance}
use transeuroogs_kms.Core.Id.{new_id, valid_id}
use transeuroogs_kms.Core.Id.Format.{valid_id-new_id}
use transeuroogs_kms.Core.Batch.{distinct_batch}
use transeuroogs_kms.Core.Batch.Laws.{distinct_batch_iff}

valid_id-new_id_example : valid_id (new_id (λ i. 255)) ≡ true
valid_id-new_id_example = valid_id-new_id (λ i. 255) (λ i. omega arith)

distinct_batch_iff_example : (distinct_batch [] (ascii "a" ∷ ascii "b" ∷ []) ≡ true) ↔ (
    Distinct (ascii "a" ∷ ascii "b" ∷ [])
    × All (λ id. valid_id id ≡ true) (ascii "a" ∷ ascii "b" ∷ []))
distinct_batch_iff_example = distinct_batch_iff (ascii "a" ∷ ascii "b" ∷ [])
