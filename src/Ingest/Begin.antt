-- ===== src/Ingest/Begin.antt =====
-- What `begin` leaves: the attempts are counted and the request is on the disk before the service
-- is called.
use transeuroogs_kms.Common.{
  ℕ, ◌≤◌, ◌+◌, ◌≡◌, refl, ap, sym, ◌∙◌, false, ◌||◌, Option, none, some, List, arith,
  text_eq_instance, All, ltb,
}
use transeuroogs_kms.Core.Errors.{ok}
use transeuroogs_kms.Core.Id.{KeyId}
use transeuroogs_kms.Core.Key.{association_eq_instance, max_batch}
use transeuroogs_kms.Core.Token.{fresh_token}
use transeuroogs_kms.Ingest.{Request, Repository, Saved, Moment}
use transeuroogs_kms.Ingest.Monad.{after_ok, refuse_ok, save_ok, ◌>>◌, after, save, give}
use transeuroogs_kms.Ingest.Serve.{begin, begun, drawn, new_request}
use transeuroogs_kms.Ingest.Ended.{Ended, Grows-place}
use transeuroogs_kms.Ingest.Steps.{
  Keeps, Keeps-same, Keeps-after, Keeps-refuse, Keeps-change, save-Keeps,
}

drawn-Keeps : (o : Option KeyId) (r : Repository) → Keeps r (drawn o r)
unfolding drawn
drawn-Keeps none r = Keeps-same r _
drawn-Keeps (some token) r = Keeps-same r _

drawn_lem :
    (o : Option KeyId) (r s : Repository) (token : KeyId) → drawn o r ≡ (s, ok token) → s ≡ r
unfolding drawn
drawn_lem none r s token h = absurd (ground (arith, ap (λ x. x.1) h))
drawn_lem (some t) r s token h = sym (ap (λ x. x.0) h)

-- What `begin` records after the token was drawn.
begun-Keeps :
    (saved : Saved) (n : ℕ) (token : KeyId) (q : Request) (r : Repository)
    → All (λ id. ¬ (Ended r.book.keys id)) q.ids
    → Keeps {A = KeyId × Request} r ((save saved >> give (token, q)) (begun n token q r))
unfolding begun
begun-Keeps saved n token q r fresh =
    Keeps-change r (begun n token q r) _ refl
      (Grows-place q.started q.expires q.ids r.book.keys fresh)
      (Keeps-after (begun n token q r) (save saved (begun n token q r)) (λ _. give (token, q))
        (save-Keeps saved (begun n token q r)) (λ s a _. Keeps-same s _))

pub begin-Keeps :
    (t : Moment) (n : ℕ) (ids : List KeyId) (r : Repository)
    → All (λ id. ¬ (Ended r.book.keys id)) ids
    → Keeps r (begin t n ids r)
unfolding begin new_request
begin-Keeps t n ids r fresh = Keeps-refuse r (ltb n 1 || ltb max_batch n) _ _ (λ _.
    Keeps-refuse r (ltb r.capacity (r.book.attempts + n)) _ _ (λ _.
      Keeps-after r (drawn (fresh_token t.draws r.book.requests) r) _ (drawn-Keeps _ r)
        (λ s token h.
          rw (drawn_lem (fresh_token t.draws r.book.requests) r s token h)
            (begun-Keeps t.begin_saved n token (new_request t.now r.cfg n ids) r fresh))))

-- After a save that succeeded.
abbrev pub on_disk : Repository → Repository
on_disk r = record r { disk = r.book }

ok-injective : {A : Type 0} (a b : A) → ok a ≡ ok b → a ≡ b
ok-injective a b h = cc

-- A save, and then an end that gives a value.
pub saved_ok :
    {A : Type 0} (saved : Saved) (x s : Repository) (a b : A)
    → after (save saved x) (λ _ y. (y, ok a)) ≡ (s, ok b)
    → (s ≡ on_disk x) × (a ≡ b)
saved_ok saved x s a b h =
    let (y, u, done, h1) = after_ok (save saved x) (λ _ y. (y, ok a)) s b h in
    (sym (ap (λ o. o.0) h1) ∙ save_ok saved x y done, ok-injective a b (ap (λ o. o.1) h1))

-- The state and the request that `begin` leaves.
pub record Began (t : Moment) (n : ℕ) (ids : List KeyId) (r s : Repository) (token : KeyId)
    (q : Request) : Type 0 where
  pub made : q ≡ new_request t.now r.cfg n ids
  pub room : r.book.attempts + n ≤ r.capacity
  pub unused : fresh_token t.draws r.book.requests ≡ some token
  pub state : s ≡ on_disk (begun n token q r)

pub drawn-some :
    (o : Option KeyId) (r s : Repository) (token : KeyId)
    → drawn o r ≡ (s, ok token)
    → (o ≡ some token) × (s ≡ r)
unfolding drawn
drawn-some none r s token h = absurd (ground (arith, ap (λ x. x.1) h))
drawn-some (some t) r s token h = (ground (arith, ap (λ x. x.1) h), sym (ap (λ x. x.0) h))

Began-end :
    (t : Moment) (n : ℕ) (ids : List KeyId) (r s : Repository) (token : KeyId) (q : Request)
    → (r1 r2 : Repository) (t1 : KeyId) → ltb r.capacity (r.book.attempts + n) ≡ false
    → fresh_token t.draws r.book.requests ≡ some t1
    → r1 ≡ r
    → r2 ≡ on_disk (begun n t1 (new_request t.now r.cfg n ids) r1)
    → r2 ≡ s
    → t1 ≡ token
    → new_request t.now r.cfg n ids ≡ q
    → Began t n ids r s token q
Began-end t n ids r s token q r1 r2 t1 room found same left here one two = record {
  made = sym two;
  room = ground (arith, room);
  unused = found ∙ ap some one;
  state =
      sym here
      ∙ left
      ∙ ap (λ x. on_disk (begun n t1 (new_request t.now r.cfg n ids) x)) same
      ∙ ap (λ x. on_disk (begun n x (new_request t.now r.cfg n ids) r)) one
      ∙ ap (λ x. on_disk (begun n token x r)) two;
}

pub begin-Began :
    (t : Moment) (n : ℕ) (ids : List KeyId) (r s : Repository) (token : KeyId) (q : Request)
    → begin t n ids r ≡ (s, ok (token, q))
    → Began t n ids r s token q
unfolding begin
begin-Began t n ids r s token q h =
    let (small, h1) = refuse_ok (ltb n 1 || ltb max_batch n) _ _ r s (token, q) h in
    let (room, h2) = refuse_ok (ltb r.capacity (r.book.attempts + n)) _ _ r s (token, q) h1 in
    let (r1, t1, drew, h3) =
      after_ok (drawn (fresh_token t.draws r.book.requests) r) _ s (token, q) h2 in
    let (found, same) = drawn-some (fresh_token t.draws r.book.requests) r r1 t1 drew in
    let (r2, u, saved, h4) =
      after_ok (save t.begin_saved (begun n t1 (new_request t.now r.cfg n ids) r1)) _ s (token, q)
        h3 in
    let ends = ok-injective _ _ (ap (λ x. x.1) h4) in
    Began-end t n ids r s token q r1 r2 t1 room found same
      (save_ok t.begin_saved (begun n t1 (new_request t.now r.cfg n ids) r1) r2 saved)
      (ap (λ x. x.0) h4) (ap (λ x. x.0) ends) (ap (λ x. x.1) ends)
