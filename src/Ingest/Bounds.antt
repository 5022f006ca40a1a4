-- ===== src/Ingest/Bounds.antt =====
-- Every operation keeps to the bound of the repository.
use transeuroogs_kms.Common.{
  ℕ, Text, ◌≤◌, ◌+◌, ◌≡◌, sym, subst, Bool, true, false, not, ◌||◌, Option, none, some, List, arith,
  ltb, length, Distinct, text_eq_instance, ◌==◌,
}
use transeuroogs_kms.Common.Dict.{Dict, All-insert, All-adjust}
use transeuroogs_kms.Core.Errors.{Result, panic}
use transeuroogs_kms.Core.Id.{KeyId}
use transeuroogs_kms.Core.Key.{Association, invalidated, max_batch, association_eq_instance}
use transeuroogs_kms.Core.Token.{fresh_token}
use transeuroogs_kms.Ingest.{Stored, Request, Status, Repository, Saved, Moment}
use transeuroogs_kms.Ingest.Monad.{M, after}
use transeuroogs_kms.Ingest.Serve.{
  set_keys, save_if, any_due, sweep_keys, expire, check, new_request, begun, drawn, begin, end_keys,
  set_status, give_up,
}
use transeuroogs_kms.Ingest.Begin.{on_disk, Began}
use transeuroogs_kms.Ingest.Fits.{
  Fair, Sound, Stays, Stays-refuse, save-Stays, saved-Stays, length-sweep_keys, length-end_keys,
  length-place_le,
}

-- The keys of the book changed, their number did not.
pub set_keys-Sound :
    (c n : ℕ) (f : Dict KeyId Stored → Dict KeyId Stored) (r : Repository)
    → length (f r.book.keys) ≡ length r.book.keys
    → Sound c n r
    → Sound c n (set_keys f r)
unfolding set_keys
set_keys-Sound c n f r h s = record {
  same = s.same;
  book = record {
    attempts_fit = s.book.attempts_fit;
    keys_fit = omega (arith, h, s.book.keys_fit);
    requests_fair = s.book.requests_fair;
  };
  disk = s.disk;
  room = omega (arith, h, s.room);
}

pub set_status-Sound :
    (c n : ℕ) (status : Status) (token : KeyId) (r : Repository)
    → Sound c n r
    → Sound c n (set_status status token r)
unfolding set_status
set_status-Sound c n status token r s = record {
  same = s.same;
  book = record {
    attempts_fit = s.book.attempts_fit;
    keys_fit = s.book.keys_fit;
    requests_fair =
        All-adjust Fair token (λ q. record q { status = status }) r.book.requests
          (λ q f. record { distinct = f.distinct }) s.book.requests_fair;
  };
  disk = s.disk;
  room = s.room;
}

save_if-Stays :
    (c : ℕ) (b : Bool) (saved : Saved) (r : Repository) → Sound c 0 r → Stays c (save_if b saved r)
unfolding save_if Stays
save_if-Stays c true saved r s = save-Stays c saved r s
save_if-Stays c false saved r s = s

pub expire-Stays : (c : ℕ) (t : Moment) (r : Repository) → Sound c 0 r → Stays c (expire t r)
unfolding expire
expire-Stays c t r s =
    let swept = set_keys (sweep_keys t.sweep) r in
    let h = set_keys-Sound c 0 (sweep_keys t.sweep) r (length-sweep_keys t.sweep r.book.keys) s in
    save_if-Stays c (any_due t.sweep r.book.keys) t.sweep_saved swept h

pub check-Stays :
    (c : ℕ) (t : Moment) (a : Association) (role : Text) (r : Repository)
    → Sound c 0 r
    → Stays c (check t a role r)
unfolding check
check-Stays c t a role r s = Stays-refuse c r r.broken _ _ s (λ _.
    Stays-refuse c r (not (a == r.pair) || not (r.cfg.role == role)) _ (expire t) s
      (λ _. expire-Stays c t r s))

-- A request for `n` keys that names some of them leaves room for the others.
pub begun-Sound :
    (c n k : ℕ) (token : KeyId) (q : Request) (r : Repository)
    → r.book.attempts + n ≤ r.capacity
    → length q.ids + k ≤ n
    → Distinct q.ids
    → Sound c 0 r
    → Sound c k (begun n token q r)
unfolding begun
begun-Sound c n k token q r room few distinct s =
    let keys = length-place_le q.started q.expires q.ids r.book.keys in
    record {
      same = s.same;
      book = record {
        attempts_fit = omega (arith, room, s.same);
        keys_fit = omega (arith, keys, few, s.room);
        requests_fair =
            All-insert Fair token q r.book.requests (record { distinct = distinct })
              s.book.requests_fair;
      };
      disk = s.disk;
      room = omega (arith, keys, few, s.room);
    }

pub Sound-none : (c n : ℕ) (r : Repository) → Sound c n r → Sound c 0 r
Sound-none c n r s = record {
  same = s.same;
  book = s.book;
  disk = s.disk;
  room = omega (arith, s.room);
}

drawn_case :
    {B : Type 0} (P : Repository × Result B → Type 0) (o : Option KeyId) (k : KeyId → M B)
    → (r : Repository) → P (r, panic)
    → ((token : KeyId) → P (k token r))
    → P (after (drawn o r) k)
unfolding drawn
drawn_case P none k r f g = f
drawn_case P (some token) k r f g = g token

pub begin-Stays :
    (c : ℕ) (t : Moment) (n : ℕ) (ids : List KeyId) (r : Repository)
    → length ids ≤ n
    → Distinct ids
    → Sound c 0 r
    → Stays c (begin t n ids r)
unfolding begin new_request Stays
begin-Stays c t n ids r few distinct s = Stays-refuse c r (ltb n 1 || ltb max_batch n) _ _ s (λ _.
    Stays-refuse c r (ltb r.capacity (r.book.attempts + n)) _ _ s (λ room.
      drawn_case (Stays c) (fresh_token t.draws r.book.requests) _ r s (λ token.
        saved-Stays c t.begin_saved _ _ (
          begun-Sound c n 0 token (new_request t.now r.cfg n ids) r (ground (arith, room))
            (omega (arith, few)) distinct s))))

-- What the operations find when they call the service.
pub asked-Sound :
    (c k : ℕ) (t : Moment) (n : ℕ) (ids : List KeyId) (r s : Repository) (token : KeyId)
    (q : Request)
    → length ids + k ≤ n
    → Distinct ids
    → Sound c 0 r
    → Began t n ids r s token q
    → Sound c k s
unfolding new_request
asked-Sound c k t n ids r s token q few distinct h b =
    let q0 = new_request t.now r.cfg n ids in
    let x = begun-Sound c n k token q0 r b.room few distinct h in
    subst (Sound c k) (sym b.state) (
      subst (λ y. Sound c k (on_disk (begun n token y r))) (sym b.made)
        (record { same = x.same; book = x.book; disk = x.book; room = x.room }))

pub give_up-Stays :
    (A : Type 0) (c n : ℕ) (t : Moment) (token : KeyId) (q : Request) (r : Repository)
    → Sound c n r
    → Stays {A = A} c (give_up t token q r)
unfolding give_up
give_up-Stays A c n t token q r s = saved-Stays c t.saved _ _ (
    Sound-none c n _ (
      set_keys-Sound c n (end_keys invalidated q.ids) (set_status Status.uncertain token r)
        (length-end_keys invalidated q.ids r.book.keys)
        (set_status-Sound c n Status.uncertain token r s)))
