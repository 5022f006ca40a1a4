-- ===== src/Core/Batch.antt =====
-- The check of a batch of ids that every repository makes before it delivers to a peer.
pub mod Laws
use transeuroogs_kms.Common.{
  ℕ, ◌≡◌, Bool, true, false, not, ◌||◌, List, [], ◌∷◌, contains, text_eq_instance, if◌then◌else◌,
}
use transeuroogs_kms.Core.Id.{KeyId, valid_id}

-- The loop that refuses a batch with an id that is malformed or comes twice; `seen` grows with it.
unfoldable pub distinct_batch : List KeyId → List KeyId → Bool
distinct_batch seen [] = true
distinct_batch seen (id ∷ ids) =
    let rest = distinct_batch (id ∷ seen) ids in
    if not (valid_id id) || contains seen id then false else rest
