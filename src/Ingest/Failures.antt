-- ===== src/Ingest/Failures.antt =====
-- What a retrieval that failed leaves, and a repository whose journal failed.
use transeuroogs_kms.Common.{
  ℕ, ◌≡◌, ◌⊎◌, refl, ap, sym, subst, inl, inr, true, false, ◌||◌, Option, none, some, List, [],
  arith, ltb, length, All, All-map, contains, ◌≢◌, text_eq_instance, text_eq_iff,
}
use transeuroogs_kms.Common.Dict.{lookup, lookup-insert, lookup-adjust}
use transeuroogs_kms.Core.Errors.{Error, Result, ok, err, panic, invalid, unavailable, unauthorized}
use transeuroogs_kms.Core.Errors
use transeuroogs_kms.Core.Id.{KeyId}
use transeuroogs_kms.Core.Key.{Association, Delivery, invalidated, max_batch, terminal}
use transeuroogs_kms.Upstream.{slave}
use transeuroogs_kms.Ingest.{Request, Status, Repository, Saved, kept, lost, torn, Moment}
use transeuroogs_kms.Ingest.Monad.{M, ◌>>◌, after, save, after_runs, refuse_runs}
use transeuroogs_kms.Ingest.Serve.{
  set_keys, check, begin, begun, new_request, end_keys, set_status, give_up, validate, retrieved,
  new_ids, refuse_with, consume_peer_keys, place,
}
use transeuroogs_kms.Ingest.Begin.{begin-Began, Began}
use transeuroogs_kms.Ingest.Once.{Gone-not_delivered}
use transeuroogs_kms.Ingest.Trace.{Call, delivered}
use transeuroogs_kms.Ingest.Ended.{Ended, Known, end_keys-Ended, place-Known}

-- The service failed, or its answer is refused.
abbrev pub Rejected : Moment → Request → Repository → Option (List Delivery) → Type 0
Rejected t q r o =
    (o ≡ none)
    ⊎ ((ds : List Delivery) × (o ≡ some ds) × (validate t.later q true r.book.keys ds ≡ false))

-- How the caller is told: whether the journal kept it decides the error.
unfoldable pub told : Saved → Error
told kept = unavailable
told _ = Errors.state

-- What stands after a request was given up.
pub record Burnt (ids : List KeyId) (token : KeyId) (saved : Saved)
    (o : Repository × Result (List Delivery)) : Type 0 where
  pub error_is : o.1 ≡ err (told saved)
  pub ended : All (Ended o.0.book.keys) ids
  pub never_delivered :
      saved ≢ lost
      → (cs : List (Moment × Call)) → All (λ id. contains (delivered cs o.0) id ≡ false) ids
  pub uncertain_request :
      (q : Request) × (lookup token o.0.book.requests ≡ some q) × (q.status ≡ Status.uncertain)

-- What has ended in a state that is on the disk is not delivered again.
on_disk-never_delivered :
    (ids : List KeyId) (r : Repository) (cs : List (Moment × Call))
    → All (Ended r.book.keys) ids
    → r.disk.keys ≡ r.book.keys
    → All (λ id. contains (delivered cs r) id ≡ false) ids
on_disk-never_delivered ids r cs ended same =
    All-map _ _ (λ id e. Gone-not_delivered cs r id (e, subst (λ ks. Ended ks id) (sym same) e)) ids
      ended

Burnt-saved :
    (ids : List KeyId) (token : KeyId) (saved : Saved) (r : Repository)
    → All (Ended r.book.keys) ids
    → ((q : Request) × (lookup token r.book.requests ≡ some q) × (q.status ≡ Status.uncertain))
    → Burnt ids token saved (after (save saved r) (λ _ x. (x, err unavailable)))
unfolding save told
Burnt-saved ids token kept r e u = record {
  error_is = refl;
  ended = e;
  never_delivered = λ there cs. on_disk-never_delivered ids _ cs e refl;
  uncertain_request = u;
}
Burnt-saved ids token lost r e u = record {
  error_is = refl;
  ended = e;
  never_delivered = λ there cs. absurd (there refl);
  uncertain_request = u;
}
Burnt-saved ids token torn r e u = record {
  error_is = refl;
  ended = e;
  never_delivered = λ there cs. on_disk-never_delivered ids _ cs e refl;
  uncertain_request = u;
}

give_up-Burnt :
    (t : Moment) (token : KeyId) (q : Request) (r : Repository)
    → lookup token r.book.requests ≡ some q
    → All (Known r.book.keys) q.ids
    → Burnt q.ids token t.saved (give_up t token q r)
unfolding give_up set_keys set_status terminal
give_up-Burnt t token q r found known =
    let f : Request → Request = λ z. record z { status = Status.uncertain } in
    Burnt-saved q.ids token t.saved
      (set_keys (end_keys invalidated q.ids) (set_status Status.uncertain token r))
      (end_keys-Ended invalidated q.ids r.book.keys refl known)
      (
        f q,
        ground (arith, lookup-adjust token token f r.book.requests, text_eq_iff token token, found),
        refl,
      )

retrieved-Rejected :
    (t : Moment) (token : KeyId) (q : Request) (ids : List KeyId) (o : Option (List Delivery))
    → (r : Repository) → Rejected t q r o
    → retrieved t token q ids o r ≡ give_up t token q r
unfolding retrieved
retrieved-Rejected t token q ids o r (inl none_came) = rw none_came refl
retrieved-Rejected t token q ids o r (inr (ds, came, bad)) = rw (came, retrieved, bad) refl

asked-Burnt :
    (t : Moment) (n : ℕ) (ids : List KeyId) (x y : Repository) (token : KeyId) (q : Request)
    → Began t n ids x y token q
    → Burnt ids token t.saved (give_up t token q y)
unfolding new_request begun
asked-Burnt t n ids x y token q b =
    let same : q.ids ≡ ids = ap (λ z. z.ids) b.made in
    let known : All (Known (place q.started q.expires q.ids x.book.keys)) q.ids =
      place-Known q.started q.expires q.ids x.book.keys in
    subst (λ z. Burnt z token t.saved (give_up t token q y)) same
      (give_up-Burnt t token q y
        (subst (λ z. lookup token z.book.requests ≡ some q) (sym b.state)
          (ground (arith, lookup-insert token token q x.book.requests, text_eq_iff token token)))
        (subst (λ z. All (Known z.book.keys) q.ids) (sym b.state) known))

refuse_with_runs :
    {B : Type 0} (o : Option Error) (k : M B) (r : Repository) (p : Repository × Result B)
    → o ≡ none
    → k r ≡ p
    → (refuse_with o >> k) r ≡ p
unfolding refuse_with
refuse_with_runs none k r p h g = g
refuse_with_runs (some e) k r p h g = absurd cc

gave_up :
    (answer : List KeyId → Option (List Delivery)) (t : Moment) (a : Association)
    → (ids : List KeyId) (r x y : Repository) (token : KeyId) (q : Request)
    → check t a slave r ≡ (x, ok tt)
    → (ltb (length ids) 1 || ltb max_batch (length ids)) ≡ false
    → new_ids [] ids x.book.keys ≡ none
    → begin t (length ids) ids x ≡ (y, ok (token, q))
    → Rejected t q y (answer ids)
    → consume_peer_keys answer t a ids r ≡ give_up t token q y
unfolding consume_peer_keys
gave_up answer t a ids r x y token q passed sized new begins rejected =
    after_runs (check t a slave r) _ x tt _ passed (
      refuse_runs (ltb (length ids) 1 || ltb max_batch (length ids)) invalid _ x _ sized (
        refuse_with_runs (new_ids [] ids x.book.keys) _ x _ new (
          after_runs (begin t (length ids) ids x) _ y (token, q) _ begins
            (retrieved-Rejected t token q ids (answer ids) y rejected))))

-- A call for new ids, which passes the tests and whose request is begun, but where the service then
-- fails or gives a batch that is refused: the caller gets an error, that the keys are unavailable
-- or, when the save fails, that the state is in doubt; every id that was asked for has ended; the
-- request stands as uncertain; and unless the save failed before it wrote the disk, no later call
-- delivers any of these ids, whatever the calls are, over restarts too.
pub failed_retrieval_burns :
    (answer : List KeyId → Option (List Delivery)) (t : Moment) (a : Association)
    → (ids : List KeyId) (r x y : Repository) (token : KeyId) (q : Request)
    → check t a slave r ≡ (x, ok tt)
    → (ltb (length ids) 1 || ltb max_batch (length ids)) ≡ false
    → new_ids [] ids x.book.keys ≡ none
    → begin t (length ids) ids x ≡ (y, ok (token, q))
    → Rejected t q y (answer ids)
    → Burnt ids token t.saved (consume_peer_keys answer t a ids r)
failed_retrieval_burns answer t a ids r x y token q passed sized new begins rejected =
    subst (Burnt ids token t.saved)
      (sym (gave_up answer t a ids r x y token q passed sized new begins rejected))
      (asked-Burnt t (length ids) ids x y token q
        (begin-Began t (length ids) ids x y token q begins))
