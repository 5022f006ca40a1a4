-- ===== src/Ingest/Whole.antt =====
-- Guarantees over the whole life of a repository, from its first opening on.
use transeuroogs_kms.Common.{
  ℕ, ◌≤◌, ◌+◌, ◌≡◌, refl, sym, ap, subst, Bool, not, ◌||◌, Option, none, some, List, [], ◌∷◌, arith,
  if_split, ltb, length, Distinct, Distinct-append, All-of_contains, text_eq_instance,
}
use transeuroogs_kms.Common.Dict.{lookup, lookup-All}
use transeuroogs_kms.Core.Errors.{Result, ok, err, panic, invalid}
use transeuroogs_kms.Core.Id.{KeyId}
use transeuroogs_kms.Core.Key.{Association, valid_association, Delivery}
use transeuroogs_kms.Upstream.{Config, master}
use transeuroogs_kms.Ingest.{Repository, Book, Moment}
use transeuroogs_kms.Ingest.Monad.{after_ok}
use transeuroogs_kms.Ingest.Serve.{
  check, consume_reservation, consume_peer_keys, ids_of, inventory, counted, stock, min,
}
use transeuroogs_kms.Ingest.Recovery.{start, loaded, open_book, opened, empty_book}
use transeuroogs_kms.Ingest.Fits.{Fair, Fits, Sound, Stays}
use transeuroogs_kms.Ingest.Bounds.{check-Stays}
use transeuroogs_kms.Ingest.Limits.{loaded-Sound, start-Stays, step-Sound, run-Sound}
use transeuroogs_kms.Ingest.Batches.{new_ids-Distinct}
use transeuroogs_kms.Ingest.Retrieval.{consume_peer_keys-Peer, answers-ids}
use transeuroogs_kms.Ingest.Once.{consume_found-Served, Served-ids, never_again}
use transeuroogs_kms.Ingest.Trace.{
  Call, reserve, consume, retrieve, invalidate, describe, count, ticked, closed, restarted, step,
  run, delivered, given,
}

opened-Sound_ok :
    (c : ℕ) (o : Repository × Result (Unit {0})) (d : Book) (r : Repository)
    → Stays c o
    → opened o ≡ (d, ok r)
    → Sound c 0 r
unfolding opened Stays
opened-Sound_ok c (x, ok u) d r s h = subst (Sound c 0) (ground (arith, ap (λ y. y.1) h)) s
opened-Sound_ok c (x, err e) d r s h = absurd (ground (arith, ap (λ y. y.1) h))
opened-Sound_ok c (x, panic) d r s h = absurd (ground (arith, ap (λ y. y.1) h))

pub first_open-Sound :
    (t : Moment) (cfg : Config) (fine : Bool) (a : Association) (c : ℕ) (d : Book) (r : Repository)
    → open_book t cfg fine a c none ≡ (d, ok r)
    → Sound c 0 r
unfolding open_book
first_open-Sound t cfg fine a c d r =
    let x = loaded cfg a c empty_book empty_book in
    let fits : Fits c empty_book = record {
      attempts_fit = omega arith;
      keys_fit = omega arith;
      requests_fair = tt;
    } in
    if_split (λ o. o ≡ (d, ok r) → Sound c 0 r)
      (not fine || not (valid_association a) || ltb c 1 || ltb 100000 c) (empty_book, err invalid)
      (opened (start t x)) (λ _ h. absurd (ground (arith, ap (λ y. y.1) h)))
      (λ _.
        opened-Sound_ok c (start t x) d r
          (start-Stays c t x (loaded-Sound c cfg a empty_book empty_book fits fits)))

-- Whatever the calls on a repository that was opened on an empty directory, over restarts too: the
-- keys in its book and on its disk are at most as many as the keys that were attempted, and these
-- are at most the capacity.
pub never_beyond_capacity :
    (t : Moment) (cfg : Config) (fine : Bool) (a : Association) (c : ℕ) (d : Book) (r : Repository)
    → (cs : List (Moment × Call)) → open_book t cfg fine a c none ≡ (d, ok r)
    → (length (run cs r).book.keys ≤ (run cs r).book.attempts)
      × ((run cs r).book.attempts ≤ c)
      × (length (run cs r).disk.keys ≤ (run cs r).disk.attempts)
      × ((run cs r).disk.attempts ≤ c)
never_beyond_capacity t cfg fine a c d r cs h =
    let s = run-Sound c cs r (first_open-Sound t cfg fine a c d r h) in
    (s.book.keys_fit, s.book.attempts_fit, s.disk.keys_fit, s.disk.attempts_fit)

given-Distinct :
    (o : Repository × Result (List Delivery))
    → ((s : Repository) (ds : List Delivery) → o ≡ (s, ok ds) → Distinct (ids_of ds))
    → Distinct (given o).1
unfolding given
given-Distinct (r, ok ds) f = f r ds refl
given-Distinct (r, err e) f = tt
given-Distinct (r, panic) f = tt

reservation-Distinct :
    (c : ℕ) (t : Moment) (a : Association) (token : KeyId) (r s : Repository) (ds : List Delivery)
    → Sound c 0 r
    → consume_reservation t a token r ≡ (s, ok ds)
    → Distinct (ids_of ds)
unfolding consume_reservation Stays
reservation-Distinct c t a token r s ds sound h =
    let (x, u, passed, h1) = after_ok (check t a master r) _ s ds h in
    let sx : Sound c 0 x = subst (λ o. Sound c 0 o.0) passed (check-Stays c t a master r sound) in
    let v = consume_found-Served t token (lookup token x.book.requests) x s ds h1 in
    rw (Served-ids token (lookup token x.book.requests) x s ds v) (
      (lookup-All (λ _. Fair) token x.book.requests v.request sx.book.requests_fair
        v.found).distinct)

peer-Distinct :
    (answer : List KeyId → Option (List Delivery)) (t : Moment) (a : Association)
    → (ids : List KeyId) (r s : Repository) (ds : List Delivery)
    → consume_peer_keys answer t a ids r ≡ (s, ok ds)
    → Distinct (ids_of ds)
peer-Distinct answer t a ids r s ds h =
    let p = consume_peer_keys-Peer answer t a ids r s ds h in
    subst (λ out. Distinct (ids_of out)) p.done.out_is
      (rw (answers-ids ids p.batch) (new_ids-Distinct [] ids p.checked.book.keys p.new))

step-Distinct :
    (c : ℕ) (t : Moment) (call : Call) (r : Repository) → Sound c 0 r → Distinct (step t call r).1
unfolding step
step-Distinct c t (reserve allocate a n) r s = tt
step-Distinct c t (consume a token) r s =
    given-Distinct _ (λ x ds h. reservation-Distinct c t a token r x ds s h)
step-Distinct c t (retrieve answer a ids) r s =
    given-Distinct _ (λ x ds h. peer-Distinct answer t a ids r x ds h)
step-Distinct c t (invalidate id) r s = tt
step-Distinct c t (describe id) r s = tt
step-Distinct c t (count upstream a) r s = tt
step-Distinct c t ticked r s = tt
step-Distinct c t closed r s = tt
step-Distinct c t restarted r s = tt

run-Distinct :
    (c : ℕ) (cs : List (Moment × Call)) (r : Repository) → Sound c 0 r → Distinct (delivered cs r)
unfolding delivered
run-Distinct c [] r s = tt
run-Distinct c ((t, call) ∷ cs) r s =
    Distinct-append (step t call r).1 (delivered cs (step t call r).0) (step-Distinct c t call r s)
      (run-Distinct c cs (step t call r).0 (step-Sound c t call r s))
      (All-of_contains _ (step t call r).1 (λ id. never_again t call cs r id))

-- A repository that was opened on an empty directory never delivers an id twice, in one call or in
-- two: whatever the calls, the answers of the service, the clock and the failures of the journal
-- are, and over restarts.
pub no_id_twice :
    (t : Moment) (cfg : Config) (fine : Bool) (a : Association) (c : ℕ) (d : Book) (r : Repository)
    → (cs : List (Moment × Call)) → open_book t cfg fine a c none ≡ (d, ok r)
    → Distinct (delivered cs r)
no_id_twice t cfg fine a c d r cs h = run-Distinct c cs r (first_open-Sound t cfg fine a c d r h)

counted_le :
    (c : ℕ) (r : Repository) (upstream : Option ℕ) (o : Result (Unit {0}))
    → Sound c 0 r
    → ((counted c r upstream o).available + length r.book.keys ≤ c)
      × ((counted c r upstream o).capacity ≡ c)
unfolding counted stock min
counted_le c r none (ok u) s = (omega (arith, s.book.attempts_fit, s.book.keys_fit), refl)
counted_le c r (some n) (ok u) s =
    (ground (arith, s.book.attempts_fit, s.book.keys_fit, s.same), refl)
counted_le c r upstream (err e) s = (omega (arith, s.book.attempts_fit, s.book.keys_fit), refl)
counted_le c r upstream panic s = (omega (arith, s.book.attempts_fit, s.book.keys_fit), refl)

-- However many keys the service claims to have, a repository that was opened on an empty directory
-- reports, after any run, its own capacity and a stock that fits beside the keys it holds already.
pub inventory_within_capacity :
    (t : Moment) (cfg : Config) (fine : Bool) (a : Association) (c : ℕ) (d : Book) (r : Repository)
    → (cs : List (Moment × Call)) (upstream : Option ℕ) (later : Moment) (b : Association)
    → open_book t cfg fine a c none ≡ (d, ok r)
    → let o = inventory upstream later (run cs r) b in
      (o.1.available + length o.0.book.keys ≤ c) × (o.1.capacity ≡ c)
unfolding inventory Stays
inventory_within_capacity t cfg fine a c d r cs upstream later b h =
    let s = run-Sound c cs r (first_open-Sound t cfg fine a c d r h) in
    let o = check later b master (run cs r) in
    subst
      (λ k.
        ((counted k o.0 upstream o.1).available + length o.0.book.keys ≤ c)
        × ((counted k o.0 upstream o.1).capacity ≡ c))
      (sym s.same) (counted_le c o.0 upstream o.1 (check-Stays c later b master (run cs r) s))
