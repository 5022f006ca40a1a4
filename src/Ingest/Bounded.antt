-- ===== src/Ingest/Bounded.antt =====
-- Each operation keeps to the bound, whatever its branch.
use transeuroogs_kms.Common.{
  ℕ, ◌≡◌, sym, subst, ap, true, false, not, ◌||◌, Option, none, some, List, [], ◌++◌, arith,
  if_split, ltb, length, Distinct, text_eq_instance, text_eq_iff,
}
use transeuroogs_kms.Common.Dict.{lookup, adjust, All-adjust_found, lookup-insert, length-adjust}
use transeuroogs_kms.Core.Id.{KeyId}
use transeuroogs_kms.Core.Key.{
  Association, Delivery, Reservation, invalidated, consumed, terminal, max_batch,
  association_eq_instance,
}
use transeuroogs_kms.Upstream.{Config, master, slave}
use transeuroogs_kms.Ingest.{Stored, Request, Status, Repository, Moment}
use transeuroogs_kms.Ingest.Monad.{M, ◌>>◌, save, give}
use transeuroogs_kms.Ingest.Serve.{
  set_keys, expire, check, begun, begin, end_keys, set_status, give_up, validate, ids_of, put_all,
  fill, allocated, reserve_keys, status_eq_stored, all_held, consume_found, consume_reservation,
  new_ids, answers, mark_consumed, retrieved, consume_peer_keys, invalidate_found, invalidate_key,
  end_key, describe, metadata,
}
use transeuroogs_kms.Ingest.Begin.{begin-Began, Began}
use transeuroogs_kms.Ingest.Bounds.{
  set_keys-Sound, set_status-Sound, expire-Stays, check-Stays, begin-Stays, asked-Sound,
  give_up-Stays,
}
use transeuroogs_kms.Ingest.Batches.{validate-Distinct, validate-length, new_ids-Distinct}
use transeuroogs_kms.Ingest.Keeps.{refuse_with_case}
use transeuroogs_kms.Ingest.Fits.{
  Fair, Sound, Stays, Stays-after, Stays-refuse, save-Stays, saved-Stays, length-end_keys,
  length-mark_consumed, length-put_all_le,
}

-- The request is filled with the keys of the batch.
filled-Sound :
    (c : ℕ) (token : KeyId) (q : Request) (ds : List Delivery) (r : Repository)
    → Sound c q.count r
    → lookup token r.book.requests ≡ some q
    → length ds ≡ q.count
    → Distinct (q.ids ++ ids_of ds)
    → Sound c 0 (fill token (ids_of ds) (set_keys (put_all q ds) r))
unfolding fill set_keys
filled-Sound c token q ds r s found many distinct =
    let keys = length-put_all_le q ds r.book.keys in
    record {
      same = s.same;
      book = record {
        attempts_fit = s.book.attempts_fit;
        keys_fit = omega (arith, keys, many, s.room);
        requests_fair =
            All-adjust_found Fair token
              (λ x. record x { ids = x.ids ++ ids_of ds; status = Status.stored }) r.book.requests q
              found (record { distinct = distinct }) s.book.requests_fair;
      };
      disk = s.disk;
      room = omega (arith, keys, many, s.room);
    }

allocated-Stays :
    (c : ℕ) (t : Moment) (token : KeyId) (q : Request) (o : Option (List Delivery)) (r : Repository)
    → Sound c q.count r
    → lookup token r.book.requests ≡ some q
    → q.ids ≡ []
    → Stays c (allocated t token q o r)
unfolding allocated
allocated-Stays c t token q none r s found empty = give_up-Stays Reservation c q.count t token q r s
allocated-Stays c t token q (some ds) r s found empty =
    if_split (λ (m : M Reservation). Stays c (m r)) (not (validate t.later q false r.book.keys ds))
      (give_up t token q)
      (λ x.
        (save t.saved >> give (record { token = token; ids = q.ids ++ ids_of ds }))
          (fill token (ids_of ds) (set_keys (put_all q ds) x)))
      (λ _. give_up-Stays Reservation c q.count t token q r s)
      (λ bad.
        let fine : validate t.later q false r.book.keys ds ≡ true = ground (arith, bad) in
        saved-Stays c t.saved _ _ (
          filled-Sound c token q ds r s found (validate-length t.later q false r.book.keys ds fine)
            (rw empty (validate-Distinct t.later q false r.book.keys ds fine))))

begun-found :
    (t : Moment) (n : ℕ) (ids : List KeyId) (r s : Repository) (token : KeyId) (q : Request)
    → Began t n ids r s token q
    → lookup token s.book.requests ≡ some q
unfolding begun
begun-found t n ids r s token q b =
    subst (λ x. lookup token x.book.requests ≡ some q) (sym b.state)
      (ground (arith, lookup-insert token token q r.book.requests, text_eq_iff token token))

pub reserve_keys-Stays :
    (c : ℕ) (allocate : ℕ → Option (List Delivery)) (t : Moment) (a : Association) (n : ℕ)
    → (r : Repository) → Sound c 0 r
    → Stays c (reserve_keys allocate t a n r)
unfolding reserve_keys
reserve_keys-Stays c allocate t a n r s =
    Stays-after c (check t a master r) _ (check-Stays c t a master r s) (λ x _ _ sx.
      Stays-after c (begin t n [] x) _ (begin-Stays c t n [] x (omega arith) tt sx) (λ y b h _.
        let began = begin-Began t n [] x y b.0 b.1 h in
        allocated-Stays c t b.0 b.1 (allocate n) y
          (subst (λ k. Sound c k y) (sym (ap (λ q. q.count) began.made))
            (asked-Sound c n t n [] x y b.0 b.1 (omega arith) tt sx began))
          (begun-found t n [] x y b.0 b.1 began) (ap (λ q. q.ids) began.made)))

consume_found-Stays :
    (c : ℕ) (t : Moment) (token : KeyId) (o : Option Request) (r : Repository)
    → Sound c 0 r
    → Stays c (consume_found t token o r)
unfolding consume_found Stays
consume_found-Stays c t token none r s = s
consume_found-Stays c t token (some q) r s =
    Stays-refuse c r (not (status_eq_stored q.status) || not (ltb t.now q.expires)) _ _ s (λ _.
      Stays-refuse c r (not (all_held q.ids r.book.keys)) _ _ s (λ _. saved-Stays c t.saved _ _ (
        set_status-Sound c 0 Status.consumed token (set_keys (end_keys consumed q.ids) r) (
          set_keys-Sound c 0 (end_keys consumed q.ids) r
            (length-end_keys consumed q.ids r.book.keys) s))))

pub consume_reservation-Stays :
    (c : ℕ) (t : Moment) (a : Association) (token : KeyId) (r : Repository)
    → Sound c 0 r
    → Stays c (consume_reservation t a token r)
unfolding consume_reservation
consume_reservation-Stays c t a token r s =
    Stays-after c (check t a master r) _ (check-Stays c t a master r s)
      (λ x _ _ sx. consume_found-Stays c t token (lookup token x.book.requests) x sx)

retrieved-Stays :
    (c : ℕ) (t : Moment) (token : KeyId) (q : Request) (ids : List KeyId)
    → (o : Option (List Delivery)) (r : Repository) → Sound c 0 r
    → Stays c (retrieved t token q ids o r)
unfolding retrieved
retrieved-Stays c t token q ids none r s = give_up-Stays (List Delivery) c 0 t token q r s
retrieved-Stays c t token q ids (some ds) r s =
    if_split (λ (m : M (List Delivery)). Stays c (m r))
      (not (validate t.later q true r.book.keys ds)) (give_up t token q)
      (λ x.
        (save t.saved >> give (answers ids ds))
          (set_status Status.consumed token (set_keys (mark_consumed ids) x)))
      (λ _. give_up-Stays (List Delivery) c 0 t token q r s)
      (λ _. saved-Stays c t.saved _ _ (
        set_status-Sound c 0 Status.consumed token (set_keys (mark_consumed ids) r)
          (set_keys-Sound c 0 (mark_consumed ids) r (length-mark_consumed ids r.book.keys) s)))

pub consume_peer_keys-Stays :
    (c : ℕ) (retrieve : List KeyId → Option (List Delivery)) (t : Moment) (a : Association)
    → (ids : List KeyId) (r : Repository) → Sound c 0 r
    → Stays c (consume_peer_keys retrieve t a ids r)
unfolding consume_peer_keys Stays
consume_peer_keys-Stays c retrieve t a ids r s =
    Stays-after c (check t a slave r) _ (check-Stays c t a slave r s) (λ x _ _ sx.
      Stays-refuse c x (ltb (length ids) 1 || ltb max_batch (length ids)) _ _ sx (λ _.
        refuse_with_case (Stays c) (new_ids [] ids x.book.keys) _ x (λ e. sx)
          (λ new.
            let distinct = new_ids-Distinct [] ids x.book.keys new in
            Stays-after c (begin t (length ids) ids x) _
              (begin-Stays c t (length ids) ids x (omega arith) distinct sx)
              (λ y b h sy. retrieved-Stays c t b.0 b.1 ids (retrieve ids) y sy))))

invalidate_found-Stays :
    (c : ℕ) (t : Moment) (id : KeyId) (o : Option Stored) (r : Repository)
    → Sound c 0 r
    → Stays c (invalidate_found t id o r)
unfolding invalidate_found Stays
invalidate_found-Stays c t id none r s = s
invalidate_found-Stays c t id (some k) r s =
    if_split (λ (m : M (Unit {0})). Stays c (m r)) (terminal k.state) _ _ (λ _. s)
      (λ _. save-Stays c t.saved (set_keys (adjust id (end_key invalidated)) r) (
        set_keys-Sound c 0 (adjust id (end_key invalidated)) r
          (length-adjust id (end_key invalidated) r.book.keys) s))

pub invalidate_key-Stays :
    (c : ℕ) (t : Moment) (id : KeyId) (r : Repository)
    → Sound c 0 r
    → Stays c (invalidate_key t id r)
unfolding invalidate_key
invalidate_key-Stays c t id r s =
    Stays-refuse c r r.broken _ _ s (λ _. invalidate_found-Stays c t id (lookup id r.book.keys) r s)

describe-Stays :
    (c : ℕ) (cfg : Config) (a : Association) (id : KeyId) (o : Option Stored) (r : Repository)
    → Sound c 0 r
    → Stays c (describe cfg a id o r)
unfolding describe Stays
describe-Stays c cfg a id none r s = s
describe-Stays c cfg a id (some k) r s = s

pub metadata-Stays :
    (c : ℕ) (t : Moment) (id : KeyId) (r : Repository) → Sound c 0 r → Stays c (metadata t id r)
unfolding metadata
metadata-Stays c t id r s = Stays-refuse c r r.broken _ _ s (λ _.
    Stays-after c (expire t r) _ (expire-Stays c t r s)
      (λ x _ _ sx. describe-Stays c x.cfg x.pair id (lookup id x.book.keys) x sx))
