-- ===== src/Ingest/Steps.antt =====
-- Every operation of the repository keeps what ended in the book and on the disk ended in both.
use transeuroogs_kms.Common.{Text, ◌≡◌, refl, Bool, true, false, not, ◌||◌, text_eq_instance, ◌==◌}
use transeuroogs_kms.Core.Errors.{Error, Result, ok, err, panic}
use transeuroogs_kms.Core.Id.{KeyId}
use transeuroogs_kms.Core.Key.{Association, association_eq_instance}
use transeuroogs_kms.Ingest.{Repository, Saved, kept, lost, torn, Moment}
use transeuroogs_kms.Ingest.Monad.{M, ◌>>◌, after, save, refuse}
use transeuroogs_kms.Ingest.Serve.{set_keys, save_if, sweep_keys, expire, check}
use transeuroogs_kms.Ingest.Ended.{Ended, Grows, Grows-sweep_keys}

-- The key is ended now, and after a restart too.
abbrev pub Gone : Repository → KeyId → Type 0
Gone r id = Ended r.book.keys id × Ended r.disk.keys id

abbrev pub Advances : Repository → Repository → Type 0
Advances r r' = (id : KeyId) → Gone r id → Gone r' id

-- A step from `r` with this end.
unfoldable pub Keeps : {A : Type 0} → Repository → Repository × Result A → Type 0
Keeps r o = Advances r o.0

pub Keeps-same : {A : Type 0} (r : Repository) (res : Result A) → Keeps r (r, res)
unfolding Keeps
Keeps-same r res id g = g

pub Keeps-trans :
    {A : Type 0} (r s : Repository) (o : Repository × Result A)
    → Advances r s
    → Keeps s o
    → Keeps r o
unfolding Keeps
Keeps-trans r s o f k id g = k id (f id g)

pub Keeps-after :
    {A B : Type 0} (r : Repository) (o : Repository × Result A) (f : A → M B)
    → Keeps r o
    → ((s : Repository) (a : A) → o ≡ (s, ok a) → Keeps s (f a s))
    → Keeps r (after o f)
unfolding Keeps
Keeps-after r (s, ok a) f k more id g = more s a refl id (k id g)
Keeps-after r (s, err e) f k more id g = k id g
Keeps-after r (s, panic) f k more id g = k id g

pub Keeps-refuse :
    {B : Type 0} (r : Repository) (b : Bool) (e : Error) (k : M B)
    → (b ≡ false → Keeps r (k r))
    → Keeps r ((refuse b e >> k) r)
Keeps-refuse r true e k more = Keeps-same r _
Keeps-refuse r false e k more = more refl

-- A step that changes the keys of the book.
pub Keeps-change :
    {A : Type 0} (r : Repository) (s : Repository) (o : Repository × Result A)
    → s.disk ≡ r.disk
    → Grows r.book.keys s.book.keys
    → Keeps s o
    → Keeps r o
unfolding Keeps
Keeps-change r s o same grows k id (b, d) = k id (grows id b, rw same d)

pub save-Keeps : (saved : Saved) (r : Repository) → Keeps r (save saved r)
unfolding save Keeps
save-Keeps kept r id (b, d) = (b, b)
save-Keeps lost r id (b, d) = (b, d)
save-Keeps torn r id (b, d) = (b, b)

save_if-Keeps : (t : Bool) (saved : Saved) (r : Repository) → Keeps r (save_if t saved r)
unfolding save_if
save_if-Keeps true saved r = save-Keeps saved r
save_if-Keeps false saved r = Keeps-same r _

pub expire-Keeps : (t : Moment) (r : Repository) → Keeps r (expire t r)
unfolding expire set_keys
expire-Keeps t r =
    Keeps-change r (set_keys (sweep_keys t.sweep) r) _ refl (Grows-sweep_keys t.sweep r.book.keys)
      (save_if-Keeps _ t.sweep_saved (set_keys (sweep_keys t.sweep) r))

pub check-Keeps :
    (t : Moment) (a : Association) (role : Text) (r : Repository) → Keeps r (check t a role r)
unfolding check
check-Keeps t a role r = Keeps-refuse r r.broken _ _ (λ _.
    Keeps-refuse r (not (a == r.pair) || not (r.cfg.role == role)) _ (expire t)
      (λ _. expire-Keeps t r))
