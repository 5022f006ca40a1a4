-- ===== src/Relay/Moves.antt =====
-- The records of a ledger: changes that keep every record and move it forward.
use transeuroogs_kms.Common.{
  ◌≡◌, inl, inr, Bool, true, false, Bool-cases, none, some, List, [], ◌∷◌, Option-cases, text_eq,
  text_eq_instance, text_eq_iff, arith, if◌then◌else◌, if_split,
}
use transeuroogs_kms.Common.Dict.{Dict, lookup, insert, adjust, lookup-adjust, lookup-insert}
use transeuroogs_kms.Core.Errors.{Error, Result, ok, err, panic}
use transeuroogs_kms.Core.Id.{KeyId}
use transeuroogs_kms.Relay.{Rec, Ledger, Engine}
use transeuroogs_kms.Relay.Serve.{Outcome, change, committed, adjust_all}
use transeuroogs_kms.Relay.Forward.{Kept, Forward, Forward-refl, Forward-trans, Fair}

abbrev pub Sound : Dict KeyId Rec → Type 0
Sound rs = (id : KeyId) (r : Rec) → lookup id rs ≡ some r → Kept r

-- No record is lost, and each one went forward.
abbrev pub Grows : Dict KeyId Rec → Dict KeyId Rec → Type 0
Grows rs rs' =
    (id : KeyId) (r : Rec)
    → lookup id rs ≡ some r
    → (r' : Rec) × (lookup id rs' ≡ some r') × Forward r r'

abbrev pub Moves : Dict KeyId Rec → Dict KeyId Rec → Type 0
Moves rs rs' = Sound rs → Sound rs' × Grows rs rs'

pub Moves-refl : (rs : Dict KeyId Rec) → Moves rs rs
Moves-refl rs v = (v, λ id r found. (r, found, Forward-refl r))

pub Moves-trans : (a b c : Dict KeyId Rec) → Moves a b → Moves b c → Moves a c
Moves-trans a b c f g v = (
  (g (f v).0).0,
  λ id r found.
      let (s, found', s_ok) = (f v).1 id r found in
      let (t, found'', t_ok) = (g (f v).0).1 id s found' in
      (t, found'', Forward-trans r s t s_ok t_ok),
)

-- A record after a change under `id`, and the one that it was.
adjust_origin :
    (id j : KeyId) (f : Rec → Rec) (rs : Dict KeyId Rec) (r : Rec)
    → lookup j (adjust id f rs) ≡ some r
    → (x : Rec) × (lookup j rs ≡ some x) × (r ≡ (if text_eq id j then f x else x))
adjust_origin id j f rs r found = elim (Option-cases (lookup j rs)) [
  | inl absent ↦ absurd (ground (arith, lookup-adjust id j f rs, absent, found))
  | inr (x, there) ↦ (x, there, ground (arith, lookup-adjust id j f rs, there, found))
]

adjust_image :
    (id j : KeyId) (f : Rec → Rec) (rs : Dict KeyId Rec) (r : Rec)
    → lookup j rs ≡ some r
    → lookup j (adjust id f rs) ≡ some (if text_eq id j then f r else r)
adjust_image id j f rs r found = ground (arith, lookup-adjust id j f rs, found)

pub Moves-adjust :
    (f : Rec → Rec) (id : KeyId) (rs : Dict KeyId Rec) → Fair f → Moves rs (adjust id f rs)
Moves-adjust f id rs fair v = (
  λ j r found.
      let (x, there, same) = adjust_origin id j f rs r found in
      rw same
        (if_split Kept (text_eq id j) (f x) x (λ _. (fair x (v j x there)).0) (λ _. v j x there)),
  λ j r found. (
    if text_eq id j then f r else r,
    adjust_image id j f rs r found,
    if_split (Forward r) (text_eq id j) (f r) r (λ _. (fair r (v j r found)).1)
        (λ _. Forward-refl r),
  ),
)

pub Moves-adjust_all :
    (f : Rec → Rec) (ids : List KeyId) (rs : Dict KeyId Rec)
    → Fair f
    → Moves rs (adjust_all f ids rs)
unfolding adjust_all
Moves-adjust_all f [] rs fair = Moves-refl rs
Moves-adjust_all f (id ∷ ids) rs fair =
    Moves-trans rs (adjust id f rs) _ (Moves-adjust f id rs fair)
      (Moves-adjust_all f ids (adjust id f rs) fair)

insert_origin :
    (id j : KeyId) (x r : Rec) (rs : Dict KeyId Rec)
    → Sound rs
    → Kept x
    → lookup j (insert id x rs) ≡ some r
    → Kept r
insert_origin id j x r rs v k found = elim (Bool-cases (text_eq id j)) [
  | inl here ↦ (ground (arith, lookup-insert id j x rs, here, found, k))
  | inr there ↦ v j r (ground (arith, lookup-insert id j x rs, there, found))
]

-- A new record goes in.
pub Moves-insert :
    (id : KeyId) (x : Rec) (rs : Dict KeyId Rec)
    → lookup id rs ≡ none
    → Kept x
    → Moves rs (insert id x rs)
Moves-insert id x rs absent k v = (
  λ j r found. insert_origin id j x r rs v k found,
  λ j r found.
      (r, ground (arith, lookup-insert id j x rs, text_eq_iff id j, found, absent), Forward-refl r),
)

-- A transaction that, when it returns a ledger, moves the records forward.
unfoldable pub Leads {ℓ} : {A : Type ℓ} → Ledger → Result (Ledger × A) → Type 0
Leads s (ok (s', a)) = Moves s.records s'.records
Leads s (err e) = Unit
Leads s panic = Unit

pub Leads-ok {ℓ} :
    {A : Type ℓ} (s s' : Ledger) (a : A) → Moves s.records s'.records → Leads s (ok (s', a))
unfolding Leads
Leads-ok s s' a m = m

pub Leads-err {ℓ} : (A : Type ℓ) (s : Ledger) (x : Error) → Leads {A = A} s (err x)
unfolding Leads
Leads-err A s x = tt

pub Leads-panic {ℓ} : (A : Type ℓ) (s : Ledger) → Leads {A = A} s panic
unfolding Leads
Leads-panic A s = tt

committed-Moves {ℓ} :
    {A : Type ℓ} (saved : Bool) (e : Engine) (res : Result (Ledger × A))
    → Leads e.ledger res
    → Moves e.ledger.records (committed saved e res).0.ledger.records
unfolding committed Leads
committed-Moves true e (ok (s, a)) leads = leads
committed-Moves false e (ok (s, a)) leads = Moves-refl e.ledger.records
committed-Moves saved e (err x) leads = Moves-refl e.ledger.records
committed-Moves saved e panic leads = Moves-refl e.ledger.records

-- An operation that moves the records of the engine forward.
unfoldable pub Keeps {ℓ} : {A : Type ℓ} → Engine → Outcome A → Type 0
Keeps e o = Moves e.ledger.records o.0.ledger.records

pub Keeps-same {ℓ} : {A : Type ℓ} (e : Engine) (res : Result A) → Keeps e (e, res)
unfolding Keeps
Keeps-same e res = Moves-refl e.ledger.records

pub change-Keeps {ℓ} :
    {A : Type ℓ} (saved : Bool) (e : Engine) (f : Ledger → Result (Ledger × A))
    → Leads e.ledger (f e.ledger)
    → Keeps e (change saved e f)
unfolding change Keeps
change-Keeps saved e f leads =
    if_split (λ (o : Outcome _). Moves e.ledger.records o.0.ledger.records) e.broken _ _
      (λ _. Moves-refl e.ledger.records) (λ _. committed-Moves saved e (f e.ledger) leads)
