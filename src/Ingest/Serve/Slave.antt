-- ===== src/Ingest/Serve/Slave.antt =====
-- repository.go: `ConsumePeerKeys`.
use transeuroogs_kms.Common.{
  ℕ, true, not, ◌||◌, Option, none, some, List, [], ◌∷◌, ◌==◌, text_eq_instance, ltb, length,
  contains, if◌then◌else◌,
}
use transeuroogs_kms.Common.Dict.{Dict, lookup, adjust}
use transeuroogs_kms.Core.Errors.{Error, invalid, unavailable}
use transeuroogs_kms.Core.Id.{KeyId, valid_id}
use transeuroogs_kms.Core.Key.{Association, association_eq_instance, Delivery, consumed, max_batch}
use transeuroogs_kms.Upstream.{slave}
use transeuroogs_kms.Ingest.{Stored, Status, Request, Moment}
use transeuroogs_kms.Ingest.Monad.{M, ◌>>=◌, ◌>>◌, give, fail, refuse, read, change, save}
use transeuroogs_kms.Ingest.Serve.Request.{check, set_keys, set_status, begin, give_up, validate}

-- The loop over the ids that a slave asks for: an error, or none.
unfoldable pub new_ids : List KeyId → List KeyId → Dict KeyId Stored → Option Error
new_ids seen [] ks = none
new_ids seen (id ∷ ids) ks =
    let rest = new_ids (id ∷ seen) ids ks in
    if not (valid_id id) || contains seen id
    then some invalid
    else elim (lookup id ks) [ some _ ↦ some unavailable | none ↦ rest ]

unfoldable pub refuse_with : Option Error → M (Unit {0})
refuse_with none = give tt
refuse_with (some e) = fail e

-- `byID[id]`: the last key that the service gave for the id.
unfoldable pub by_id : KeyId → List Delivery → List ℕ → List ℕ
by_id id [] found = found
by_id id (d ∷ ds) found = by_id id ds (if d.id == id then d.material else found)

unfoldable pub answers : List KeyId → List Delivery → List Delivery
unfolding by_id
answers [] ds = []
answers (id ∷ ids) ds = record { id = id; material = by_id id ds [] } ∷ answers ids ds

-- `r.s.Keys[id].State = core.Consumed`
unfoldable pub mark_consumed : List KeyId → Dict KeyId Stored → Dict KeyId Stored
mark_consumed [] ks = ks
mark_consumed (id ∷ ids) ks = mark_consumed ids (adjust id (λ k. record k { state = consumed }) ks)

unfoldable pub retrieved :
    Moment → KeyId → Request → List KeyId → Option (List Delivery) → M (List Delivery)
unfolding give_up validate answers mark_consumed set_keys set_status
retrieved t token q ids none = give_up t token q
retrieved t token q ids (some ds) = do
  r ← read
  if not (validate t.later q true r.book.keys ds) then give_up t token q else do
    change (set_keys (mark_consumed ids))
    change (set_status Status.consumed token)
    save t.saved
    give (answers ids ds)

-- `retrieve ids` is the answer of the service.
unfoldable pub consume_peer_keys :
    (List KeyId → Option (List Delivery)) → Moment → Association → List KeyId → M (List Delivery)
unfolding check new_ids refuse_with begin retrieved
consume_peer_keys retrieve t a ids = do
  check t a slave
  refuse (ltb (length ids) 1 || ltb max_batch (length ids)) invalid
  r ← read
  refuse_with (new_ids [] ids r.book.keys)
  (token, q) ← begin t (length ids) ids
  retrieved t token q ids (retrieve ids)
