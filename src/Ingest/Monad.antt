-- ===== src/Ingest/Monad.antt =====
-- Steps on a repository that end with a result. The state of a step that fails is kept.
use transeuroogs_kms.Common.{◌≡◌, refl, sym, ap, ◌∙◌, Bool, true, false, arith}
use transeuroogs_kms.Core.Errors.{Error, Result, ok, err, panic}
use transeuroogs_kms.Core.Errors
use transeuroogs_kms.Ingest.{Repository, Saved, kept, lost, torn}

abbrev pub M : Type 0 → Type 0
M A = Repository → Repository × Result A

abbrev pub after : {A B : Type 0} → Repository × Result A → (A → M B) → Repository × Result B
after (r, ok a) f = f a r
after (r, err e) f = (r, err e)
after (r, panic) f = (r, panic)

infixl 5 ◌>>=◌ ◌>>◌
abbrev pub ◌>>=◌ : {A B : Type 0} → M A → (A → M B) → M B
◌>>=◌ m f r = after (m r) f

abbrev pub ◌>>◌ : {B : Type 0} → M (Unit {0}) → M B → M B
m >> k = m >>= λ _. k

abbrev pub give : {A : Type 0} → A → M A
give a r = (r, ok a)

abbrev pub fail : {A : Type 0} → Error → M A
fail e r = (r, err e)

-- Early return with an error.
abbrev pub refuse : Bool → Error → M (Unit {0})
refuse true e r = (r, err e)
refuse false e r = (r, ok tt)

abbrev pub read : M Repository
read r = (r, ok r)

abbrev pub change : (Repository → Repository) → M (Unit {0})
change f r = (f r, ok tt)

-- `save`
unfoldable pub save : Saved → M (Unit {0})
save kept r = (record r { disk = r.book }, ok tt)
save lost r = (record r { broken = true }, err Errors.state)
save torn r = (record r { disk = r.book; broken = true }, err Errors.state)

-- Inversion: what a run that ended well went through.
pub after_ok :
    {A B : Type 0} (o : Repository × Result A) (f : A → M B) (s : Repository) (b : B)
    → after o f ≡ (s, ok b)
    → (r : Repository) × (a : A) × (o ≡ (r, ok a)) × (f a r ≡ (s, ok b))
after_ok (r, ok a) f s b h = (r, a, refl, h)
after_ok (r, err e) f s b h = absurd (ground (arith, ap (λ x. x.1) h))
after_ok (r, panic) f s b h = absurd (ground (arith, ap (λ x. x.1) h))

pub refuse_ok :
    {B : Type 0} (c : Bool) (e : Error) (k : M B) (r s : Repository) (b : B)
    → (refuse c e >> k) r ≡ (s, ok b)
    → (c ≡ false) × (k r ≡ (s, ok b))
refuse_ok true e k r s b h = absurd (ground (arith, ap (λ x. x.1) h))
refuse_ok false e k r s b h = (refl, h)

pub save_ok :
    (saved : Saved) (r s : Repository) → save saved r ≡ (s, ok tt) → s ≡ record r { disk = r.book }
unfolding save
save_ok kept r s h = sym (ap (λ x. x.0) h)
save_ok lost r s h = absurd (ground (arith, ap (λ x. x.1) h))
save_ok torn r s h = absurd (ground (arith, ap (λ x. x.1) h))

-- And back: a run whose first part ended well goes on with the rest.
pub after_runs :
    {A B : Type 0} (o : Repository × Result A) (f : A → M B) (s : Repository) (a : A)
    → (p : Repository × Result B) → o ≡ (s, ok a)
    → f a s ≡ p
    → after o f ≡ p
after_runs o f s a p h g = ap (λ x. after x f) h ∙ g

pub refuse_runs :
    {B : Type 0} (b : Bool) (e : Error) (k : M B) (r : Repository) (o : Repository × Result B)
    → b ≡ false
    → k r ≡ o
    → (refuse b e >> k) r ≡ o
refuse_runs true e k r o h g = absurd cc
refuse_runs false e k r o h g = g
