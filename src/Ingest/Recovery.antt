-- ===== src/Ingest/Recovery.antt =====
-- repository.go: opening the repository from what the journal holds, and closing it.
use transeuroogs_kms.Common.{
  ℕ, Bool, true, false, not, ◌||◌, Option, none, some, [], ◌∷◌, ltb, if◌then◌else◌,
}
use transeuroogs_kms.Common.Dict.{Dict}
use transeuroogs_kms.Core.Errors.{Error, Result, ok, err, panic, invalid}
use transeuroogs_kms.Core.Errors
use transeuroogs_kms.Core.Id.{KeyId}
use transeuroogs_kms.Core.Key.{Association, valid_association, invalidated}
use transeuroogs_kms.Upstream.{Config}
use transeuroogs_kms.Ingest.{Stored, Status, pending, uncertain, Request, Book, Repository, Moment}
use transeuroogs_kms.Ingest.Monad.{M, ◌>>◌, save}
use transeuroogs_kms.Ingest.Serve.{end_keys, expire}

abbrev pub empty_book : Book
empty_book = record { attempts = 0; requests = []; keys = [] }

unfoldable pub is_pending : Status → Bool
is_pending pending = true
is_pending _ = false

-- The loop over the requests of the journal's state: those that were pending are uncertain.
unfoldable pub settle_requests : Dict KeyId Request → Dict KeyId Request
unfolding is_pending
settle_requests [] = []
settle_requests ((token, q) ∷ qs) =
    (token, if is_pending q.status then record q { status = uncertain } else q) ∷ settle_requests qs

-- The keys of the pending requests are wiped.
unfoldable pub settle_keys : Dict KeyId Request → Dict KeyId Stored → Dict KeyId Stored
unfolding is_pending end_keys
settle_keys [] ks = ks
settle_keys ((_, q) ∷ qs) ks =
    settle_keys qs (if is_pending q.status then end_keys invalidated q.ids ks else ks)

unfoldable pub recover : Book → Book
unfolding settle_requests settle_keys
recover b = record b { requests = settle_requests b.requests; keys = settle_keys b.requests b.keys }

unfoldable pub start : Moment → M (Unit {0})
unfolding expire
start t = do expire t; save t.saved

-- A repository that is open, or the error of `Open` with the state that the disk has then.
unfoldable pub opened : Repository × Result (Unit {0}) → Book × Result Repository
opened (r, ok _) = (r.disk, ok r)
opened (r, err e) = (r.disk, err e)
opened (r, panic) = (r.disk, panic)

abbrev pub loaded : Config → Association → ℕ → Book → Book → Repository
loaded c a capacity book disk = record {
  cfg = c;
  pair = a;
  capacity = capacity;
  book = book;
  disk = disk;
  broken = false;
}

-- `Open`, once the configuration was found valid (`c_ok`) and the journal gave the state `raw`
-- back, `none` for a new one. The journal's state is bound to the configuration.
unfoldable pub open_book :
    Moment → Config → Bool → Association → ℕ → Option Book → Book × Result Repository
unfolding opened start recover
open_book t c c_ok a capacity none =
    if not c_ok || not (valid_association a) || ltb capacity 1 || ltb 100000 capacity
    then (empty_book, err invalid)
    else opened (start t (loaded c a capacity empty_book empty_book))
open_book t c c_ok a capacity (some b) =
    if not c_ok || not (valid_association a) || ltb capacity 1 || ltb 100000 capacity
    then (b, err invalid)
    else if ltb capacity b.attempts
    then (b, err Errors.state)
    else opened (start t (loaded c a capacity (recover b) b))

-- `clear(k.Material); k.Material = nil`
unfoldable pub wipe_key : Stored → Stored
wipe_key k = record k { material = [] }

unfoldable pub wipe_all : Dict KeyId Stored → Dict KeyId Stored
unfolding wipe_key
wipe_all [] = []
wipe_all ((id, k) ∷ ks) = (id, wipe_key k) ∷ wipe_all ks

unfoldable pub close : Repository → Repository
unfolding wipe_all
close r = record r { broken = true; book = record r.book { keys = wipe_all r.book.keys } }
