-- ===== src/Ingest/Keeps.antt =====
-- No operation of the repository revives a key that ended.
use transeuroogs_kms.Common.{
  ℕ, ◌≡◌, refl, inl, inr, Bool, true, false, not, ◌||◌, Option, Option-cases, none, some, List, [],
  ◌∷◌, arith, text_eq_instance, if_split, All, All-map, ltb, length, ◌++◌,
}
use transeuroogs_kms.Common.Dict.{Dict, lookup, adjust}
use transeuroogs_kms.Core.Errors.{Error, Result, ok, err}
use transeuroogs_kms.Core.Id.{KeyId}
use transeuroogs_kms.Core.Key.{
  Association, association_eq_instance, Delivery, Reservation, consumed, invalidated, terminal,
  max_batch,
}
use transeuroogs_kms.Upstream.{Config, master, slave}
use transeuroogs_kms.Ingest.{Stored, Request, Status, Repository, Saved, Moment}
use transeuroogs_kms.Ingest.Monad.{M, ◌>>◌, after, save}
use transeuroogs_kms.Ingest.Serve.{
  set_keys, expire, check, begin, give_up, set_status, validate, batch_fine, put_all, fill, ids_of,
  allocated, reserve_keys, describe, metadata, invalidate_found, invalidate_key, end_key, inventory,
  status_eq_stored, all_held, consume_found, consume_reservation, new_ids, refuse_with, answers,
  mark_consumed, retrieved, consume_peer_keys,
}
use transeuroogs_kms.Ingest.Ended.{
  Grows, Grows-end_keys, Grows-put_all, Grows-adjust, Grows-mark_consumed, not_Ended_lem,
}
use transeuroogs_kms.Ingest.Steps.{
  Advances, Keeps, Keeps-same, Keeps-after, Keeps-refuse, Keeps-change, save-Keeps, expire-Keeps,
  check-Keeps,
}
use transeuroogs_kms.Ingest.Begin.{begin-Keeps}

-- A save, and then an end that changes nothing.
saved-Keeps :
    {A : Type 0} (saved : Saved) (res : Result A) (r s : Repository)
    → s.disk ≡ r.disk
    → Grows r.book.keys s.book.keys
    → Keeps r (after (save saved s) (λ _ x. (x, res)))
saved-Keeps saved res r s same grows =
    Keeps-change r s _ same grows
      (Keeps-after s (save saved s) _ (save-Keeps saved s) (λ x _ _. Keeps-same x res))

give_up-Keeps :
    (A : Type 0) (t : Moment) (token : KeyId) (q : Request) (r : Repository)
    → Keeps {A = A} r (give_up t token q r)
unfolding give_up set_keys set_status terminal
give_up-Keeps A t token q r =
    saved-Keeps t.saved _ r _ refl (Grows-end_keys invalidated q.ids r.book.keys refl)

-- What the loop of `validate` says of a batch for a master: its ids are new.
pub batch_fine-new :
    (ids : List KeyId) (ks : Dict KeyId Stored) (seen : List KeyId) (ds : List Delivery)
    → batch_fine false ids ks seen ds ≡ true
    → All (λ d. lookup d.id ks ≡ none) ds
unfolding batch_fine
batch_fine-new ids ks seen [] h = tt
batch_fine-new ids ks seen (d ∷ ds) h =
    let ih = batch_fine-new ids ks (d.id ∷ seen) ds in
    elim (Option-cases (lookup d.id ks)) [
      | inl absent ↦ (absent, ih (ground (arith, h, absent)))
      | inr (k, found) ↦ absurd (ground (arith, h, found))
    ]

pub validate_fine :
    (now : ℕ) (q : Request) (for_slave : Bool) (ks : Dict KeyId Stored) (ds : List Delivery)
    → validate now q for_slave ks ds ≡ true
    → batch_fine for_slave q.ids ks [] ds ≡ true
unfolding validate
validate_fine now q for_slave ks ds h = ground (arith, h)

allocated-Keeps :
    (t : Moment) (token : KeyId) (q : Request) (o : Option (List Delivery)) (r : Repository)
    → Keeps r (allocated t token q o r)
unfolding allocated set_keys fill
allocated-Keeps t token q none r = give_up-Keeps Reservation t token q r
allocated-Keeps t token q (some ds) r =
    let stored_ok : M Reservation = λ s.
      after (save t.saved s)
        (λ _ x. (x, ok (record { token = token; ids = q.ids ++ ids_of ds }))) in
    if_split (λ (m : M Reservation). Keeps r (m r)) (not (validate t.later q false r.book.keys ds))
      (give_up t token q) (λ x. stored_ok (fill token (ids_of ds) (set_keys (put_all q ds) x)))
      (λ _. give_up-Keeps Reservation t token q r)
      (λ fine. saved-Keeps t.saved _ r _ refl (
        Grows-put_all q ds r.book.keys (
          All-map _ _ (λ d h. not_Ended_lem d.id r.book.keys h) ds
            (batch_fine-new q.ids r.book.keys [] ds
              (validate_fine t.later q false r.book.keys ds (ground (arith, fine)))))))

pub reserve_keys-Keeps :
    (allocate : ℕ → Option (List Delivery)) (t : Moment) (a : Association) (n : ℕ) (r : Repository)
    → Keeps r (reserve_keys allocate t a n r)
unfolding reserve_keys
reserve_keys-Keeps allocate t a n r =
    Keeps-after r (check t a master r) _ (check-Keeps t a master r) (λ s _ _.
      Keeps-after s (begin t n [] s) _ (begin-Keeps t n [] s tt)
        (λ x b _. allocated-Keeps t b.0 b.1 (allocate n) x))

consume_found-Keeps :
    (t : Moment) (token : KeyId) (o : Option Request) (r : Repository)
    → Keeps r (consume_found t token o r)
unfolding consume_found set_keys set_status terminal
consume_found-Keeps t token none r = Keeps-same r _
consume_found-Keeps t token (some q) r =
    Keeps-refuse r (not (status_eq_stored q.status) || not (ltb t.now q.expires)) _ _ (λ _.
      Keeps-refuse r (not (all_held q.ids r.book.keys)) _ _
        (λ _. saved-Keeps t.saved _ r _ refl (Grows-end_keys consumed q.ids r.book.keys refl)))

pub consume_reservation-Keeps :
    (t : Moment) (a : Association) (token : KeyId) (r : Repository)
    → Keeps r (consume_reservation t a token r)
unfolding consume_reservation
consume_reservation-Keeps t a token r =
    Keeps-after r (check t a master r) _ (check-Keeps t a master r)
      (λ s _ _. consume_found-Keeps t token (lookup token s.book.requests) s)

-- What the loop of `ConsumePeerKeys` says of the ids that it lets pass: they are new.
pub new_ids-new :
    (seen ids : List KeyId) (ks : Dict KeyId Stored)
    → new_ids seen ids ks ≡ none
    → All (λ id. lookup id ks ≡ none) ids
unfolding new_ids
new_ids-new seen [] ks h = tt
new_ids-new seen (id ∷ ids) ks h =
    let ih = new_ids-new (id ∷ seen) ids ks in
    elim (Option-cases (lookup id ks)) [
      | inl absent ↦ (absent, ih (ground (arith, h, absent)))
      | inr (k, found) ↦ absurd (ground (arith, h, found))
    ]

retrieved-Keeps :
    (t : Moment) (token : KeyId) (q : Request) (ids : List KeyId) (o : Option (List Delivery))
    → (r : Repository) → Keeps r (retrieved t token q ids o r)
unfolding retrieved set_keys set_status
retrieved-Keeps t token q ids none r = give_up-Keeps (List Delivery) t token q r
retrieved-Keeps t token q ids (some ds) r =
    let stored_ok : M (List Delivery) =
      λ s. after (save t.saved s) (λ _ x. (x, ok (answers ids ds))) in
    if_split (λ (m : M (List Delivery)). Keeps r (m r))
      (not (validate t.later q true r.book.keys ds)) (give_up t token q)
      (λ x. stored_ok (set_status Status.consumed token (set_keys (mark_consumed ids) x)))
      (λ _. give_up-Keeps (List Delivery) t token q r)
      (λ _. saved-Keeps t.saved _ r _ refl (Grows-mark_consumed ids r.book.keys))

pub refuse_with_case :
    {B : Type 0} (P : Repository × Result B → Type 0) (o : Option Error) (k : M B) (r : Repository)
    → ((e : Error) → P (r, err e))
    → (o ≡ none → P (k r))
    → P ((refuse_with o >> k) r)
unfolding refuse_with
refuse_with_case P none k r f g = g refl
refuse_with_case P (some e) k r f g = f e

pub consume_peer_keys-Keeps :
    (retrieve : List KeyId → Option (List Delivery)) (t : Moment) (a : Association)
    → (ids : List KeyId) (r : Repository) → Keeps r (consume_peer_keys retrieve t a ids r)
unfolding consume_peer_keys
consume_peer_keys-Keeps retrieve t a ids r =
    Keeps-after r (check t a slave r) _ (check-Keeps t a slave r) (λ s _ _.
      Keeps-refuse s (ltb (length ids) 1 || ltb max_batch (length ids)) _ _ (λ _.
        refuse_with_case (Keeps s) (new_ids [] ids s.book.keys) _ s (λ e. Keeps-same s (err e))
          (λ new.
            Keeps-after s (begin t (length ids) ids s) _
              (begin-Keeps t (length ids) ids s (
                All-map _ _ (λ id h. not_Ended_lem id s.book.keys h) ids
                  (new_ids-new [] ids s.book.keys new)))
              (λ x b _. retrieved-Keeps t b.0 b.1 ids (retrieve ids) x))))

invalidate_found-Keeps :
    (t : Moment) (id : KeyId) (o : Option Stored) (r : Repository)
    → Keeps r (invalidate_found t id o r)
unfolding invalidate_found set_keys terminal end_key
invalidate_found-Keeps t id none r = Keeps-same r _
invalidate_found-Keeps t id (some k) r =
    if_split (λ (m : M (Unit {0})). Keeps r (m r)) (terminal k.state) _ _ (λ _. Keeps-same r _)
      (λ _.
        Keeps-change r (set_keys (adjust id (end_key invalidated)) r) _ refl
          (Grows-adjust (end_key invalidated) id r.book.keys (λ x _. refl))
          (save-Keeps t.saved (set_keys (adjust id (end_key invalidated)) r)))

pub invalidate_key-Keeps :
    (t : Moment) (id : KeyId) (r : Repository) → Keeps r (invalidate_key t id r)
unfolding invalidate_key
invalidate_key-Keeps t id r =
    Keeps-refuse r r.broken _ _ (λ _. invalidate_found-Keeps t id (lookup id r.book.keys) r)

describe-Keeps :
    (cfg : Config) (a : Association) (id : KeyId) (o : Option Stored) (r : Repository)
    → Keeps r (describe cfg a id o r)
unfolding describe
describe-Keeps cfg a id none r = Keeps-same r _
describe-Keeps cfg a id (some k) r = Keeps-same r _

pub metadata-Keeps : (t : Moment) (id : KeyId) (r : Repository) → Keeps r (metadata t id r)
unfolding metadata
metadata-Keeps t id r = Keeps-refuse r r.broken _ _ (λ _.
    Keeps-after r (expire t r) _ (expire-Keeps t r)
      (λ s _ _. describe-Keeps s.cfg s.pair id (lookup id s.book.keys) s))

pub inventory-Keeps :
    (upstream : Option ℕ) (t : Moment) (a : Association) (r : Repository)
    → Advances r (inventory upstream t r a).0
unfolding inventory Keeps
inventory-Keeps upstream t a r = check-Keeps t a master r
