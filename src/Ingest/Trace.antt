-- ===== src/Ingest/Trace.antt =====
-- A run of the repository: calls, the ticks of `Run`, closings and restarts in any order. The
-- process may stop at any point of an operation: that is a save that was lost and a restart.
use transeuroogs_kms.Common.{
  ℕ, ◌≡◌, refl, true, not, ◌||◌, Option, some, List, [], ◌∷◌, ◌++◌, arith, text_eq_instance,
  if◌then◌else◌, if_split, ltb,
}
use mathlib.Core.Option
use transeuroogs_kms.Common.Dict.{Dict, lookup}
use transeuroogs_kms.Core.Errors.{Error, Result, ok, err, panic, invalid}
use transeuroogs_kms.Core.Errors
use transeuroogs_kms.Core.Id.{KeyId}
use transeuroogs_kms.Core.Key.{Association, valid_association, Delivery, invalidated, terminal}
use transeuroogs_kms.Ingest.{Stored, Request, Repository, Book, Moment}
use transeuroogs_kms.Ingest.Serve.{
  end_keys, expire, reserve_keys, consume_reservation, consume_peer_keys, invalidate_key, metadata,
  inventory, ids_of,
}
use transeuroogs_kms.Ingest.Recovery.{
  is_pending, settle_keys, recover, start, loaded, open_book, opened, wipe_key, wipe_all, close,
}
use transeuroogs_kms.Ingest.Ended.{Ended, Grows, Grows-end_keys}
use transeuroogs_kms.Ingest.Steps.{
  Advances, Keeps, Keeps-after, Keeps-trans, save-Keeps, expire-Keeps,
}
use transeuroogs_kms.Ingest.Keeps.{
  reserve_keys-Keeps, consume_reservation-Keeps, consume_peer_keys-Keeps, invalidate_key-Keeps,
  metadata-Keeps, inventory-Keeps,
}

-- `Run`, at one tick.
unfoldable pub tick : Moment → Repository → Repository
unfolding expire
tick t r = if r.broken then r else (expire t r).0

-- What stands after an attempt to open the repository again: the new one, or the old one, closed.
unfoldable pub reopened : Repository → Book × Result Repository → Repository
reopened r (disk, ok s) = s
reopened r (disk, err e) = record (close r) { disk = disk }
reopened r (disk, panic) = record (close r) { disk = disk }

unfoldable pub restart : Moment → Repository → Repository
unfolding reopened
restart t r = reopened r (open_book t r.cfg true r.pair r.capacity (some r.disk))

-- What happens to a repository, with what the service answers.
pub data Call : Type 0 where
  reserve : (ℕ → Option (List Delivery)) → Association → ℕ → Call
  consume : Association → KeyId → Call
  retrieve : (List KeyId → Option (List Delivery)) → Association → List KeyId → Call
  invalidate : KeyId → Call
  describe : KeyId → Call
  count : Option ℕ → Association → Call
  ticked closed restarted : Call

unfoldable pub given : Repository × Result (List Delivery) → Repository × List KeyId
given (r, ok ds) = (r, ids_of ds)
given (r, err e) = (r, [])
given (r, panic) = (r, [])

-- The repository after a call, and the ids of the keys that it delivered.
unfoldable pub step : Moment → Call → Repository → Repository × List KeyId
unfolding given tick restart
step t (reserve allocate a n) r = ((reserve_keys allocate t a n r).0, [])
step t (consume a token) r = given (consume_reservation t a token r)
step t (retrieve answer a ids) r = given (consume_peer_keys answer t a ids r)
step t (invalidate id) r = ((invalidate_key t id r).0, [])
step t (describe id) r = ((metadata t id r).0, [])
step t (count upstream a) r = ((inventory upstream t r a).0, [])
step t ticked r = (tick t r, [])
step t closed r = (close r, [])
step t restarted r = (restart t r, [])

unfoldable pub run : List (Moment × Call) → Repository → Repository
run [] r = r
run ((t, c) ∷ cs) r = run cs (step t c r).0

-- All that a run delivers, in order.
unfoldable pub delivered : List (Moment × Call) → Repository → List KeyId
delivered [] r = []
delivered ((t, c) ∷ cs) r = (step t c r).1 ++ delivered cs (step t c r).0

Grows-settle_keys :
    (qs : Dict KeyId Request) (ks : Dict KeyId Stored) → Grows ks (settle_keys qs ks)
unfolding settle_keys terminal
Grows-settle_keys [] ks id ended = ended
Grows-settle_keys ((_, q) ∷ qs) ks id ended = Grows-settle_keys qs _ id (
    if_split (λ x. Ended x id) (is_pending q.status) (end_keys invalidated q.ids ks) ks
      (λ _. Grows-end_keys invalidated q.ids ks refl id ended) (λ _. ended))

lookup-wipe_all :
    (id : KeyId) (ks : Dict KeyId Stored)
    → lookup id (wipe_all ks) ≡ Option.map wipe_key (lookup id ks)
unfolding lookup wipe_all
lookup-wipe_all id [] = refl
lookup-wipe_all id ((j, k) ∷ ks) = ground (arith, lookup-wipe_all id ks)

close-Advances : (r : Repository) → Advances r (close r)
unfolding close wipe_key
close-Advances r id ((k, found, ended), d) =
    ((wipe_key k, ground (arith, lookup-wipe_all id r.book.keys, found), ended), d)

start-Keeps : (t : Moment) (r : Repository) → Keeps r (start t r)
unfolding start
start-Keeps t r = Keeps-after r (expire t r) _ (expire-Keeps t r) (λ s _ _. save-Keeps t.saved s)

tick-Advances : (t : Moment) (r : Repository) → Advances r (tick t r)
unfolding tick Keeps
tick-Advances t r =
    if_split (λ x. Advances r x) r.broken r (expire t r).0 (λ _ id g. g) (λ _. expire-Keeps t r)

-- What an attempt to open the repository leaves.
opened-Advances :
    (r : Repository) (o : Repository × Result (Unit {0}))
    → Keeps r o
    → Advances r (reopened r (opened o))
unfolding reopened opened Keeps
opened-Advances r (s, ok u) k id g = k id g
opened-Advances r (s, err e) k id g = ((close-Advances r id g).0, (k id g).1)
opened-Advances r (s, panic) k id g = ((close-Advances r id g).0, (k id g).1)

unopened-Advances : (r : Repository) (e : Error) → Advances r (reopened r (r.disk, err e))
unfolding reopened close
unopened-Advances r e id g = close-Advances r id g

restart-Advances : (t : Moment) (r : Repository) → Advances r (restart t r)
unfolding restart open_book recover
restart-Advances t r =
    if_split (λ x. Advances r (reopened r x))
      (not true || not (valid_association r.pair) || ltb r.capacity 1 || ltb 100000 r.capacity) _ _
      (λ _. unopened-Advances r invalid)
      (λ _.
        if_split (λ x. Advances r (reopened r x)) (ltb r.capacity r.disk.attempts) _ _
          (λ _. unopened-Advances r Errors.state)
          (λ _.
            let s = loaded r.cfg r.pair r.capacity (recover r.disk) r.disk in
            opened-Advances r (start t s) (
              Keeps-trans r s (start t s)
                (λ id g. (Grows-settle_keys r.disk.requests r.disk.keys id g.1, g.1))
                (start-Keeps t s))))

pub given_lem : (o : Repository × Result (List Delivery)) → (given o).0 ≡ o.0
unfolding given
given_lem (r, ok ds) = refl
given_lem (r, err e) = refl
given_lem (r, panic) = refl

given-Advances :
    (r : Repository) (o : Repository × Result (List Delivery)) → Keeps r o → Advances r (given o).0
unfolding Keeps
given-Advances r o k = rw (given_lem o) k

pub step-Advances : (t : Moment) (c : Call) (r : Repository) → Advances r (step t c r).0
unfolding step Keeps
step-Advances t (reserve allocate a n) r = reserve_keys-Keeps allocate t a n r
step-Advances t (consume a token) r = given-Advances r _ (consume_reservation-Keeps t a token r)
step-Advances t (retrieve answer a ids) r =
    given-Advances r _ (consume_peer_keys-Keeps answer t a ids r)
step-Advances t (invalidate id) r = invalidate_key-Keeps t id r
step-Advances t (describe id) r = metadata-Keeps t id r
step-Advances t (count upstream a) r = inventory-Keeps upstream t a r
step-Advances t ticked r = tick-Advances t r
step-Advances t closed r = close-Advances r
step-Advances t restarted r = restart-Advances t r

pub run-Advances : (cs : List (Moment × Call)) (r : Repository) → Advances r (run cs r)
unfolding run
run-Advances [] r id g = g
run-Advances ((t, c) ∷ cs) r id g = run-Advances cs (step t c r).0 id (step-Advances t c r id g)
