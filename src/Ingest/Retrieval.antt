-- ===== src/Ingest/Retrieval.antt =====
-- What a `ConsumePeerKeys` that delivered went through.
use transeuroogs_kms.Common.{
  ◌≡◌, refl, ap, true, false, not, ◌||◌, Option, none, some, List, [], ◌∷◌, arith, if_split, ltb,
  length, text_eq_instance,
}
use transeuroogs_kms.Core.Errors.{Error, ok, invalid}
use transeuroogs_kms.Core.Id.{KeyId}
use transeuroogs_kms.Core.Key.{Association, Delivery, max_batch, invalidated}
use transeuroogs_kms.Upstream.{slave}
use transeuroogs_kms.Ingest.{Request, Status, Repository, Moment}
use transeuroogs_kms.Ingest.Monad.{M, ◌>>◌, after_ok, refuse_ok, save, give}
use transeuroogs_kms.Ingest.Serve.{
  end_keys, set_keys, set_status, check, begin, give_up, validate, answers, mark_consumed,
  retrieved, new_ids, refuse_with, consume_peer_keys, ids_of,
}
use transeuroogs_kms.Ingest.Begin.{on_disk, saved_ok, begin-Began, Began}

pub give_up_fails :
    {A : Type 0} (t : Moment) (token : KeyId) (q : Request) (r s : Repository) (a : A)
    → ¬ (give_up t token q r ≡ (s, ok a))
unfolding give_up
give_up_fails t token q r s a h =
    let (y, u, done, h1) =
      after_ok
        (save t.saved (set_keys (end_keys invalidated q.ids) (set_status Status.uncertain token r)))
        _ s a h in
    ground (arith, ap (λ x. x.1) h1)

pub refuse_with_ok :
    {B : Type 0} (o : Option Error) (k : M B) (r s : Repository) (b : B)
    → (refuse_with o >> k) r ≡ (s, ok b)
    → (o ≡ none) × (k r ≡ (s, ok b))
unfolding refuse_with
refuse_with_ok none k r s b h = (refl, h)
refuse_with_ok (some e) k r s b h = absurd (ground (arith, ap (λ x. x.1) h))

pub answers-ids : (ids : List KeyId) (ds : List Delivery) → ids_of (answers ids ds) ≡ ids
unfolding answers
answers-ids [] ds = refl
answers-ids (id ∷ ids) ds = ap (λ x. id ∷ x) (answers-ids ids ds)

-- The state before the batch was marked, and the batch.
pub record Retrieved (t : Moment) (token : KeyId) (q : Request) (ids : List KeyId)
    (r s : Repository) (batch out : List Delivery) : Type 0 where
  pub fine : validate t.later q true r.book.keys batch ≡ true
  pub left : s ≡ on_disk (set_status Status.consumed token (set_keys (mark_consumed ids) r))
  pub out_is : answers ids batch ≡ out

retrieved-some :
    (t : Moment) (token : KeyId) (q : Request) (ids : List KeyId) (batch : List Delivery)
    → (r s : Repository) (out : List Delivery)
    → retrieved t token q ids (some batch) r ≡ (s, ok out)
    → Retrieved t token q ids r s batch out
unfolding retrieved
retrieved-some t token q ids batch r s out =
    let x = set_status Status.consumed token (set_keys (mark_consumed ids) r) in
    if_split (λ (m : M (List Delivery)). m r ≡ (s, ok out) → Retrieved t token q ids r s batch out)
      (not (validate t.later q true r.book.keys batch)) (give_up t token q)
      (λ y.
        (save t.saved >> give (answers ids batch))
          (set_status Status.consumed token (set_keys (mark_consumed ids) y)))
      (λ _ h. absurd (give_up_fails t token q r s out h))
      (λ bad h.
        let (left, out_is) = saved_ok t.saved x s (answers ids batch) out h in
        record { fine = ground (arith, bad); left = left; out_is = out_is })

pub retrieved_ok :
    (t : Moment) (token : KeyId) (q : Request) (ids : List KeyId) (o : Option (List Delivery))
    → (r s : Repository) (out : List Delivery) → retrieved t token q ids o r ≡ (s, ok out)
    → (batch : List Delivery) × (o ≡ some batch) × Retrieved t token q ids r s batch out
unfolding retrieved
retrieved_ok t token q ids none r s out h = absurd (give_up_fails t token q r s out h)
retrieved_ok t token q ids (some batch) r s out h =
    (batch, refl, retrieved-some t token q ids batch r s out h)

-- The stages of a call that delivered: the state `checked` after the test of the caller, `asked`
-- when the service is called, and what the service gave.
pub record Peer (retrieve : List KeyId → Option (List Delivery)) (t : Moment) (a : Association)
    (ids : List KeyId) (r s : Repository) (out : List Delivery) : Type 0 where
  pub checked : Repository
  pub asked : Repository
  pub token : KeyId
  pub request : Request
  pub batch : List Delivery
  pub passed : check t a slave r ≡ (checked, ok tt)
  pub sized : (ltb (length ids) 1 || ltb max_batch (length ids)) ≡ false
  pub new : new_ids [] ids checked.book.keys ≡ none
  pub began : Began t (length ids) ids checked asked token request
  pub gave : retrieve ids ≡ some batch
  pub done : Retrieved t token request ids asked s batch out

pub consume_peer_keys-Peer :
    (retrieve : List KeyId → Option (List Delivery)) (t : Moment) (a : Association)
    → (ids : List KeyId) (r s : Repository) (out : List Delivery)
    → consume_peer_keys retrieve t a ids r ≡ (s, ok out)
    → Peer retrieve t a ids r s out
unfolding consume_peer_keys
consume_peer_keys-Peer retrieve t a ids r s out h =
    let (checked, u, passed, h1) = after_ok (check t a slave r) _ s out h in
    let (sized, h2) =
      refuse_ok (ltb (length ids) 1 || ltb max_batch (length ids)) invalid _ checked s out h1 in
    let (new, h3) = refuse_with_ok (new_ids [] ids checked.book.keys) _ checked s out h2 in
    let (asked, b, begins, h4) = after_ok (begin t (length ids) ids checked) _ s out h3 in
    let (batch, gave, done) = retrieved_ok t b.0 b.1 ids (retrieve ids) asked s out h4 in
    record {
      checked = checked;
      asked = asked;
      token = b.0;
      request = b.1;
      batch = batch;
      passed = passed;
      sized = sized;
      new = new;
      began = begin-Began t (length ids) ids checked asked b.0 b.1 begins;
      gave = gave;
      done = done;
    }
