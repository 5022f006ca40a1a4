-- ===== src/Ingest/Once.antt =====
-- A key is delivered once, over restarts of the process as well.
use transeuroogs_kms.Common.{
  ℕ, Text, ◌≡◌, refl, ap, sym, ◌∙◌, subst, inl, inr, true, false, not, ◌||◌, Option, Option-cases,
  none, some, List, [], ◌∷◌, arith, text_eq_instance, ltb, All, All-map, All-zip, contains-none,
  contains-append, All-contains, length, contains,
}
use transeuroogs_kms.Common.Dict.{Dict, lookup, adjust}
use transeuroogs_kms.Core.Errors.{Result, ok, err, panic}
use transeuroogs_kms.Core.Id.{KeyId}
use transeuroogs_kms.Core.Key.{Association, Delivery, consumed, terminal, state_eq}
use transeuroogs_kms.Upstream.{master, slave}
use transeuroogs_kms.Ingest.{Stored, Request, Status, Repository, Moment}
use transeuroogs_kms.Ingest.Monad.{after_ok, refuse_ok}
use transeuroogs_kms.Ingest.Serve.{
  end_keys, end_key, set_keys, set_status, check, status_eq_stored, all_held, hand_out,
  consume_found, consume_reservation, consume_peer_keys, ids_of, begun, place, new_request, new_ids,
  mark_consumed,
}
use transeuroogs_kms.Ingest.Ended.{
  Ended, Known, Known-adjust, end_keys-Ended, mark_consumed-Ended, place-Known, not_Ended_lem,
}
use transeuroogs_kms.Ingest.Steps.{Gone, Advances, Keeps, check-Keeps}
use transeuroogs_kms.Ingest.Keeps.{new_ids-new}
use transeuroogs_kms.Ingest.Retrieval.{Retrieved, consume_peer_keys-Peer, answers-ids}
use transeuroogs_kms.Ingest.Begin.{on_disk, saved_ok, Began}
use transeuroogs_kms.Ingest.Trace.{
  Call, reserve, consume, retrieve, invalidate, describe, count, ticked, closed, restarted, step,
  given, delivered, step-Advances,
}

-- A key that may be handed out: it stands in the book and did not end.
abbrev pub Live : Dict KeyId Stored → KeyId → Type 0
Live ks id = Known ks id × ¬ (Ended ks id)

-- What ends with deliveries gave keys that were live, and they are gone.
abbrev pub Gives : Repository → Repository × Result (List Delivery) → Type 0
Gives r o =
    (s : Repository) (ds : List Delivery)
    → o ≡ (s, ok ds)
    → All (λ id. Gone s id × ¬ (Gone r id)) (ids_of ds)

all_held-Live :
    (ids : List KeyId) (ks : Dict KeyId Stored) → all_held ids ks ≡ true → All (Live ks) ids
unfolding all_held state_eq terminal
all_held-Live [] ks h = tt
all_held-Live (id ∷ ids) ks h = elim (Option-cases (lookup id ks)) [
  | inl absent ↦ absurd (ground (arith, h, absent))
  | inr (k, found) ↦ (
    ((k, found, tt), λ (x, same, ended). ground (arith, h, found, same, ended)),
    all_held-Live ids ks (ground (arith, h, found)),
  )
]

hand_out-ids :
    (ids : List KeyId) (ks : Dict KeyId Stored)
    → All (Known ks) ids
    → ids_of (hand_out ids ks) ≡ ids
unfolding hand_out
hand_out-ids [] ks h = refl
hand_out-ids (id ∷ ids) ks ((k, found, _), rest) =
    let ih =
      hand_out-ids ids (adjust id (end_key consumed) ks)
        (All-map _ _ (λ j h. Known-adjust (end_key consumed) id j ks h) ids rest) in
    ground (arith, found, ih)

-- The ids that a list of deliveries stands for, all gone from `s` on and live before.
Handed : Repository → Repository → List KeyId → Type 0
Handed r s = All (λ id. Gone s id × ¬ (Ended r.book.keys id))

-- What a delivery for a reservation went through.
pub record Served (token : KeyId) (o : Option Request) (r s : Repository) (ds : List Delivery)
    : Type 0 where
  pub request : Request
  pub found : o ≡ some request
  pub live : All (Live r.book.keys) request.ids
  pub left :
      s ≡ on_disk (set_status Status.consumed token (set_keys (end_keys consumed request.ids) r))
  pub out : hand_out request.ids r.book.keys ≡ ds

pub consume_found-Served :
    (t : Moment) (token : KeyId) (o : Option Request) (r s : Repository) (ds : List Delivery)
    → consume_found t token o r ≡ (s, ok ds)
    → Served token o r s ds
unfolding consume_found
consume_found-Served t token none r s ds h = absurd (ground (arith, ap (λ x. x.1) h))
consume_found-Served t token (some q) r s ds h =
    let (open_still, h1) =
      refuse_ok (not (status_eq_stored q.status) || not (ltb t.now q.expires)) _ _ r s ds h in
    let (held, h2) = refuse_ok (not (all_held q.ids r.book.keys)) _ _ r s ds h1 in
    let x = set_status Status.consumed token (set_keys (end_keys consumed q.ids) r) in
    let (left, out) = saved_ok t.saved x s (hand_out q.ids r.book.keys) ds h2 in
    record {
      request = q;
      found = refl;
      live = all_held-Live q.ids r.book.keys (ground (arith, held));
      left = left;
      out = out;
    }

pub Served-ids :
    (token : KeyId) (o : Option Request) (r s : Repository) (ds : List Delivery)
    → (v : Served token o r s ds) → ids_of ds ≡ v.request.ids
Served-ids token o r s ds v =
    sym (ap ids_of v.out)
    ∙ hand_out-ids v.request.ids r.book.keys (All-map _ _ (λ id l. l.0) v.request.ids v.live)

Served-Handed :
    (token : KeyId) (o : Option Request) (r s : Repository) (ds : List Delivery)
    → Served token o r s ds
    → Handed r s (ids_of ds)
unfolding Handed set_keys set_status terminal
Served-Handed token o r s ds v =
    let ids = v.request.ids in
    let ended =
      end_keys-Ended consumed ids r.book.keys refl (All-map _ _ (λ id l. l.0) ids v.live) in
    rw (Served-ids token o r s ds v)
      (rw v.left (All-zip _ _ _ (λ id e l. ((e, e), l.1)) ids ended v.live))

-- The call that tests the caller first can only have ended keys, and what is given was live after.
Handed-Gone :
    (r x s : Repository) (ids : List KeyId)
    → Advances r x
    → Handed x s ids
    → All (λ id. Gone s id × ¬ (Gone r id)) ids
unfolding Handed
Handed-Gone r x s ids f = All-map _ _ (λ id h. (h.0, λ g. h.1 (f id g).0)) ids

-- `check`, when it passes.
passed-Advances :
    (t : Moment) (a : Association) (role : Text) (r s : Repository)
    → check t a role r ≡ (s, ok tt)
    → Advances r s
unfolding Keeps
passed-Advances t a role r s h = subst (λ o. Keeps r o) h (check-Keeps t a role r)

pub consume_reservation-Gives :
    (t : Moment) (a : Association) (token : KeyId) (r : Repository)
    → Gives r (consume_reservation t a token r)
unfolding consume_reservation
consume_reservation-Gives t a token r s ds h =
    let (x, u, passed, h1) = after_ok (check t a master r) _ s ds h in
    Handed-Gone r x s (ids_of ds) (passed-Advances t a master r x passed) (
      Served-Handed token (lookup token x.book.requests) x s ds
        (consume_found-Served t token (lookup token x.book.requests) x s ds h1))

peer-Handed :
    (t : Moment) (n : ℕ) (ids : List KeyId) (x y s : Repository) (token : KeyId) (q : Request)
    → (batch out : List Delivery) → new_ids [] ids x.book.keys ≡ none
    → Began t n ids x y token q
    → Retrieved t token q ids y s batch out
    → Handed x s (ids_of out)
unfolding Handed set_keys set_status begun new_request
peer-Handed t n ids x y s token q batch out new b d =
    let q0 = new_request t.now x.cfg n ids in
    let placed = on_disk (begun n token q0 x) in
    let asked : y ≡ placed = b.state ∙ ap (λ z. on_disk (begun n token z x)) b.made in
    let ended =
      mark_consumed-Ended ids (place q0.started q0.expires ids x.book.keys)
        (place-Known q0.started q0.expires ids x.book.keys) in
    let same : ids_of out ≡ ids = sym (ap ids_of d.out_is) ∙ answers-ids ids batch in
    let left : s
        ≡ on_disk (set_status Status.consumed token (set_keys (mark_consumed ids) placed)) =
      d.left
      ∙ ap (λ z. on_disk (set_status Status.consumed token (set_keys (mark_consumed ids) z)))
          asked in
    rw same (
      rw left (
        All-zip _ _ _ (λ id e l. ((e, e), not_Ended_lem id x.book.keys l)) ids ended
          (new_ids-new [] ids x.book.keys new)))

pub consume_peer_keys-Gives :
    (answer : List KeyId → Option (List Delivery)) (t : Moment) (a : Association)
    → (ids : List KeyId) (r : Repository) → Gives r (consume_peer_keys answer t a ids r)
consume_peer_keys-Gives answer t a ids r s out h =
    let p = consume_peer_keys-Peer answer t a ids r s out h in
    Handed-Gone r p.checked s (ids_of out) (passed-Advances t a slave r p.checked p.passed) (
      peer-Handed t (length ids) ids p.checked p.asked s p.token p.request p.batch out p.new p.began
        p.done)

given-Gone :
    (r : Repository) (o : Repository × Result (List Delivery))
    → Gives r o
    → All (λ id. Gone (given o).0 id × ¬ (Gone r id)) (given o).1
unfolding given
given-Gone r (s, ok ds) g = g s ds refl
given-Gone r (s, err e) g = tt
given-Gone r (s, panic) g = tt

step-Gone :
    (t : Moment) (c : Call) (r : Repository)
    → All (λ id. Gone (step t c r).0 id × ¬ (Gone r id)) (step t c r).1
unfolding step
step-Gone t (reserve allocate a n) r = tt
step-Gone t (consume a token) r = given-Gone r _ (consume_reservation-Gives t a token r)
step-Gone t (retrieve answer a ids) r = given-Gone r _ (consume_peer_keys-Gives answer t a ids r)
step-Gone t (invalidate id) r = tt
step-Gone t (describe id) r = tt
step-Gone t (count upstream a) r = tt
step-Gone t ticked r = tt
step-Gone t closed r = tt
step-Gone t restarted r = tt

-- A key that is gone is not delivered by any later call.
pub Gone-not_delivered :
    (cs : List (Moment × Call)) (r : Repository) (id : KeyId)
    → Gone r id
    → contains (delivered cs r) id ≡ false
unfolding delivered contains
Gone-not_delivered [] r id g = refl
Gone-not_delivered ((t, c) ∷ cs) r id g =
    let here =
      contains-none (step t c r).1 id
        (All-map _ _ (λ j h same. h.1 (subst (Gone r) (sym same) g)) _ (step-Gone t c r)) in
    let later = Gone-not_delivered cs (step t c r).0 id (step-Advances t c r id g) in
    ground (arith, contains-append (step t c r).1 (delivered cs (step t c r).0) id, here, later)

-- A key that a call delivered is not delivered by any later call: whatever the calls, the answers
-- of the service, the clock and the failures of the journal are, and over restarts.
pub never_again :
    (t : Moment) (c : Call) (later : List (Moment × Call)) (r : Repository) (id : KeyId)
    → contains (step t c r).1 id ≡ true
    → contains (delivered later (step t c r).0) id ≡ false
never_again t c later r id given_now =
    Gone-not_delivered later (step t c r).0 id
      (All-contains (λ j. Gone (step t c r).0 j × ¬ (Gone r j)) (step t c r).1 id (step-Gone t c r)
        given_now).0
