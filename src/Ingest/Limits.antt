-- ===== src/Ingest/Limits.antt =====
-- The bound of the repository over a whole run, restarts included.
use transeuroogs_kms.Common.{
  ℕ, ◌≡◌, refl, true, not, ◌||◌, List, [], ◌∷◌, arith, if_split, if◌then◌else◌, ltb, length, All,
  text_eq_instance,
}
use transeuroogs_kms.Common.Dict.{Dict}
use transeuroogs_kms.Core.Errors.{Error, Result, ok, err, panic, invalid}
use transeuroogs_kms.Core.Errors
use transeuroogs_kms.Core.Id.{KeyId}
use transeuroogs_kms.Core.Key.{Association, valid_association, Delivery, invalidated}
use transeuroogs_kms.Upstream.{Config}
use transeuroogs_kms.Ingest.{Stored, Request, Status, Repository, Book, Moment}
use transeuroogs_kms.Ingest.Serve.{expire, inventory, end_keys}
use transeuroogs_kms.Upstream.{master}
use transeuroogs_kms.Ingest.Recovery.{
  is_pending, settle_keys, settle_requests, recover, start, loaded, open_book, opened, wipe_all,
  close,
}
use transeuroogs_kms.Ingest.Fits.{
  Fair, Fits, Sound, Stays, Stays-after, save-Stays, length-end_keys,
}
use transeuroogs_kms.Ingest.Bounds.{expire-Stays, check-Stays}
use transeuroogs_kms.Ingest.Bounded.{
  reserve_keys-Stays, consume_reservation-Stays, consume_peer_keys-Stays, invalidate_key-Stays,
  metadata-Stays,
}
use transeuroogs_kms.Ingest.Trace.{
  Call, reserve, consume, retrieve, invalidate, describe, count, ticked, closed, restarted, step,
  run, given, given_lem, tick, restart, reopened,
}

length-settle_keys :
    (qs : Dict KeyId Request) (ks : Dict KeyId Stored) → length (settle_keys qs ks) ≡ length ks
unfolding settle_keys
length-settle_keys [] ks = refl
length-settle_keys ((_, q) ∷ qs) ks = ground (
  arith,
  length-settle_keys qs (if is_pending q.status then end_keys invalidated q.ids ks else ks),
  length-end_keys invalidated q.ids ks,
)

settle_requests-Fair :
    (qs : Dict KeyId Request) → All (λ p. Fair p.1) qs → All (λ p. Fair p.1) (settle_requests qs)
unfolding settle_requests
settle_requests-Fair [] h = tt
settle_requests-Fair ((token, q) ∷ qs) (f, rest) = (
  if_split Fair (is_pending q.status) (record q { status = Status.uncertain }) q
      (λ _. record { distinct = f.distinct }) (λ _. f),
  settle_requests-Fair qs rest,
)

recover-Fits : (c : ℕ) (b : Book) → Fits c b → Fits c (recover b)
unfolding recover
recover-Fits c b f = record {
  attempts_fit = f.attempts_fit;
  keys_fit = omega (arith, f.keys_fit, length-settle_keys b.requests b.keys);
  requests_fair = settle_requests-Fair b.requests f.requests_fair;
}

length-wipe_all : (ks : Dict KeyId Stored) → length (wipe_all ks) ≡ length ks
unfolding wipe_all
length-wipe_all [] = refl
length-wipe_all ((id, k) ∷ ks) = omega (arith, length-wipe_all ks)

close-Sound : (c : ℕ) (r : Repository) → Sound c 0 r → Sound c 0 (close r)
unfolding close
close-Sound c r s = record {
  same = s.same;
  book = record {
    attempts_fit = s.book.attempts_fit;
    keys_fit = omega (arith, s.book.keys_fit, length-wipe_all r.book.keys);
    requests_fair = s.book.requests_fair;
  };
  disk = s.disk;
  room = omega (arith, s.room, length-wipe_all r.book.keys);
}

pub start-Stays : (c : ℕ) (t : Moment) (r : Repository) → Sound c 0 r → Stays c (start t r)
unfolding start
start-Stays c t r s =
    Stays-after c (expire t r) _ (expire-Stays c t r s) (λ x _ _ sx. save-Stays c t.saved x sx)

tick-Sound : (c : ℕ) (t : Moment) (r : Repository) → Sound c 0 r → Sound c 0 (tick t r)
unfolding tick Stays
tick-Sound c t r s =
    if_split (Sound c 0) r.broken r (expire t r).0 (λ _. s) (λ _. expire-Stays c t r s)

opened-Sound :
    (c : ℕ) (r : Repository) (o : Repository × Result (Unit {0}))
    → Sound c 0 r
    → Stays c o
    → Sound c 0 (reopened r (opened o))
unfolding reopened opened Stays
opened-Sound c r (x, ok u) s h = h
opened-Sound c r (x, err e) s h =
    let z = close-Sound c r s in
    record { same = z.same; book = z.book; disk = h.disk; room = z.room }
opened-Sound c r (x, panic) s h =
    let z = close-Sound c r s in
    record { same = z.same; book = z.book; disk = h.disk; room = z.room }

unopened-Sound :
    (c : ℕ) (r : Repository) (e : Error) → Sound c 0 r → Sound c 0 (reopened r (r.disk, err e))
unfolding reopened close
unopened-Sound c r e s = close-Sound c r s

pub loaded-Sound :
    (c : ℕ) (cfg : Config) (a : Association) (b disk : Book)
    → Fits c b
    → Fits c disk
    → Sound c 0 (loaded cfg a c b disk)
loaded-Sound c cfg a b disk f g = record {
  same = refl;
  book = f;
  disk = g;
  room = omega (arith, f.keys_fit);
}

restart-Sound : (c : ℕ) (t : Moment) (r : Repository) → Sound c 0 r → Sound c 0 (restart t r)
unfolding restart open_book
restart-Sound c t r s =
    if_split (λ x. Sound c 0 (reopened r x))
      (not true || not (valid_association r.pair) || ltb r.capacity 1 || ltb 100000 r.capacity) _ _
      (λ _. unopened-Sound c r invalid s)
      (λ _.
        if_split (λ x. Sound c 0 (reopened r x)) (ltb r.capacity r.disk.attempts) _ _
          (λ _. unopened-Sound c r Errors.state s)
          (λ _.
            let x = loaded r.cfg r.pair r.capacity (recover r.disk) r.disk in
            opened-Sound c r (start t x) s (
              start-Stays c t x (record {
                same = s.same;
                book = recover-Fits c r.disk s.disk;
                disk = s.disk;
                room =
                    omega (arith, s.disk.keys_fit, length-settle_keys r.disk.requests r.disk.keys);
              }))))

given-Sound : (c : ℕ) (o : Repository × Result (List Delivery)) → Stays c o → Sound c 0 (given o).0
unfolding Stays
given-Sound c o s = rw (given_lem o) s

pub step-Sound :
    (c : ℕ) (t : Moment) (call : Call) (r : Repository) → Sound c 0 r → Sound c 0 (step t call r).0
unfolding step Stays inventory
step-Sound c t (reserve allocate a n) r s = reserve_keys-Stays c allocate t a n r s
step-Sound c t (consume a token) r s = given-Sound c _ (consume_reservation-Stays c t a token r s)
step-Sound c t (retrieve answer a ids) r s =
    given-Sound c _ (consume_peer_keys-Stays c answer t a ids r s)
step-Sound c t (invalidate id) r s = invalidate_key-Stays c t id r s
step-Sound c t (describe id) r s = metadata-Stays c t id r s
step-Sound c t (count upstream a) r s = check-Stays c t a master r s
step-Sound c t ticked r s = tick-Sound c t r s
step-Sound c t closed r s = close-Sound c r s
step-Sound c t restarted r s = restart-Sound c t r s

pub run-Sound :
    (c : ℕ) (cs : List (Moment × Call)) (r : Repository) → Sound c 0 r → Sound c 0 (run cs r)
unfolding run
run-Sound c [] r s = s
run-Sound c ((t, call) ∷ cs) r s = run-Sound c cs (step t call r).0 (step-Sound c t call r s)
