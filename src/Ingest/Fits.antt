-- ===== src/Ingest/Fits.antt =====
-- The bound of the repository: the keys that it ever held never outnumber the attempts, and these
-- never exceed the capacity, in the book and on the disk.
use transeuroogs_kms.Common.{
  ℕ, ◌≤◌, ◌+◌, ◌≡◌, refl, Bool, true, false, List, [], ◌∷◌, arith, length, All, Distinct,
  text_eq_instance,
}
use transeuroogs_kms.Common.Dict.{Dict, insert, adjust, length-adjust, length-insert-le}
use transeuroogs_kms.Core.Errors.{Error, Result, ok, err, panic}
use transeuroogs_kms.Core.Id.{KeyId}
use transeuroogs_kms.Core.Key.{Delivery, State}
use transeuroogs_kms.Ingest.{Stored, Request, Repository, Book, Saved, kept, lost, torn}
use transeuroogs_kms.Ingest.Monad.{M, ◌>>◌, after, save, refuse}
use transeuroogs_kms.Ingest.Serve.{end_key, end_keys, sweep_keys, place, put_all, mark_consumed}

-- What a request keeps to.
pub record Fair (q : Request) : Type 0 where
  pub distinct : Distinct q.ids

pub record Fits (capacity : ℕ) (b : Book) : Type 0 where
  pub attempts_fit : b.attempts ≤ capacity
  pub keys_fit : length b.keys ≤ b.attempts
  pub requests_fair : All (λ p. Fair p.1) b.requests

-- The book fits, with room for `n` keys that were attempted but are not there yet.
pub record Sound (capacity n : ℕ) (r : Repository) : Type 0 where
  pub same : r.capacity ≡ capacity
  pub book : Fits capacity r.book
  pub disk : Fits capacity r.disk
  pub room : length r.book.keys + n ≤ r.book.attempts

unfoldable pub Stays : {A : Type 0} → ℕ → Repository × Result A → Type 0
Stays capacity o = Sound capacity 0 o.0

pub Stays-after :
    {A B : Type 0} (c : ℕ) (o : Repository × Result A) (f : A → M B)
    → Stays c o
    → ((s : Repository) (a : A) → o ≡ (s, ok a) → Sound c 0 s → Stays c (f a s))
    → Stays c (after o f)
unfolding Stays
Stays-after c (s, ok a) f h more = more s a refl h
Stays-after c (s, err e) f h more = h
Stays-after c (s, panic) f h more = h

pub Stays-refuse :
    {B : Type 0} (c : ℕ) (r : Repository) (b : Bool) (e : Error) (k : M B)
    → Sound c 0 r
    → (b ≡ false → Stays c (k r))
    → Stays c ((refuse b e >> k) r)
unfolding Stays
Stays-refuse c r true e k h more = h
Stays-refuse c r false e k h more = more refl

pub save-Stays : (c : ℕ) (saved : Saved) (r : Repository) → Sound c 0 r → Stays c (save saved r)
unfolding save Stays
save-Stays c kept r h = record { same = h.same; book = h.book; disk = h.book; room = h.room }
save-Stays c lost r h = record { same = h.same; book = h.book; disk = h.disk; room = h.room }
save-Stays c torn r h = record { same = h.same; book = h.book; disk = h.book; room = h.room }

pub saved-Stays :
    {A : Type 0} (c : ℕ) (saved : Saved) (res : Result A) (r : Repository)
    → Sound c 0 r
    → Stays c (after (save saved r) (λ _ x. (x, res)))
unfolding Stays
saved-Stays c saved res r h =
    Stays-after c (save saved r) (λ _ x. (x, res)) (save-Stays c saved r h) (λ s _ _ k. k)

pub length-sweep_keys :
    (sweep : KeyId → ℕ) (ks : Dict KeyId Stored) → length (sweep_keys sweep ks) ≡ length ks
unfolding sweep_keys
length-sweep_keys sweep [] = refl
length-sweep_keys sweep ((id, k) ∷ ks) = omega (arith, length-sweep_keys sweep ks)

pub length-end_keys :
    (s : State) (ids : List KeyId) (ks : Dict KeyId Stored) → length (end_keys s ids ks) ≡ length ks
unfolding end_keys
length-end_keys s [] ks = refl
length-end_keys s (id ∷ ids) ks =
    omega (arith, length-end_keys s ids (adjust id (end_key s) ks), length-adjust id (end_key s) ks)

pub length-mark_consumed :
    (ids : List KeyId) (ks : Dict KeyId Stored) → length (mark_consumed ids ks) ≡ length ks
unfolding mark_consumed
length-mark_consumed [] ks = refl
length-mark_consumed (id ∷ ids) ks =
    omega (arith, length-mark_consumed ids (adjust id _ ks), length-adjust id _ ks)

pub length-place_le :
    (now expires : ℕ) (ids : List KeyId) (ks : Dict KeyId Stored)
    → length (place now expires ids ks) ≤ length ks + length ids
unfolding place
length-place_le now expires [] ks = omega arith
length-place_le now expires (id ∷ ids) ks =
    let k : Stored = record {
      id = id;
      material = [];
      state = State.reserved;
      created = now;
      expires = expires;
    } in
    omega (arith, length-place_le now expires ids (insert id k ks), length-insert-le id k ks)

pub length-put_all_le :
    (q : Request) (ds : List Delivery) (ks : Dict KeyId Stored)
    → length (put_all q ds ks) ≤ length ks + length ds
unfolding put_all
length-put_all_le q [] ks = omega arith
length-put_all_le q (d ∷ ds) ks =
    let k : Stored = record {
      id = d.id;
      material = d.material;
      state = State.reserved;
      created = q.started;
      expires = q.expires;
    } in
    omega (arith, length-put_all_le q ds (insert d.id k ks), length-insert-le d.id k ks)
