-- ===== src/Ingest/Exchange.antt =====
-- A reservation that was granted is served, whole and unchanged.
use transeuroogs_kms.Common.{
  ℕ, Text, ◌≡◌, ◌<◌, ◌+◌, ◌*◌, refl, ap, sym, subst, ◌∙◌, Bool, true, false, not, ◌||◌, Option,
  none, some, List, [], ◌∷◌, ◌++◌, arith, if_split, All, Distinct, text_eq_instance, text_eq_iff,
  ◌==◌,
}
use transeuroogs_kms.Common.Dict.{lookup, lookup-insert, lookup-adjust}
use transeuroogs_kms.Core.Errors.{ok, unauthorized}
use transeuroogs_kms.Core.Id.{KeyId}
use transeuroogs_kms.Core.Key.{Association, association_eq_instance, Delivery, Reservation}
use transeuroogs_kms.Upstream.{master}
use transeuroogs_kms.Ingest.{Request, Status, Repository, Saved, kept, Moment}
use transeuroogs_kms.Ingest.Monad.{M, ◌>>◌, after_ok, refuse_ok, save, save_ok, give, refuse_runs}
use transeuroogs_kms.Ingest.Serve.{
  set_keys, save_if, any_due, sweep_keys, expire, check, begin, begun, new_request, give_up,
  validate, ids_of, put_all, fill, allocated, reserve_keys, status_eq_stored, consume_found,
  consume_reservation,
}
use transeuroogs_kms.Ingest.Begin.{on_disk, saved_ok, begin-Began, Began}
use transeuroogs_kms.Ingest.Retrieval.{give_up_fails}
use transeuroogs_kms.Ingest.Batches.{validate-Distinct}
use transeuroogs_kms.Ingest.Keeps.{validate_fine}
use transeuroogs_kms.Ingest.Batch.{
  Holds, put_all-Holds, fine-whole, sweep-Holds, Holds-all_held, Holds-hand_out,
}

-- The repository after a sweep, when it is saved.
pub record Swept (t : Moment) (r x : Repository) : Type 0 where
  pub keys_are : x.book.keys ≡ sweep_keys t.sweep r.book.keys
  pub requests_are : x.book.requests ≡ r.book.requests
  pub broken_is : x.broken ≡ r.broken
  pub pair_is : x.pair ≡ r.pair
  pub cfg_is : x.cfg ≡ r.cfg

save_if-Swept :
    (t : Moment) (b : Bool) (saved : Saved) (r x : Repository)
    → save_if b saved (set_keys (sweep_keys t.sweep) r) ≡ (x, ok tt)
    → Swept t r x
unfolding save_if set_keys
save_if-Swept t true saved r x h =
    subst (Swept t r) (sym (save_ok saved (set_keys (sweep_keys t.sweep) r) x h)) (record {
      keys_are = refl;
      requests_are = refl;
      broken_is = refl;
      pair_is = refl;
      cfg_is = refl;
    })
save_if-Swept t false saved r x h = subst (Swept t r) (ap (λ o. o.0) h) (record {
  keys_are = refl;
  requests_are = refl;
  broken_is = refl;
  pair_is = refl;
  cfg_is = refl;
})

-- What a test of the caller that passed went through.
pub record Passed (t : Moment) (a : Association) (role : Text) (r x : Repository) : Type 0 where
  pub working : r.broken ≡ false
  pub allowed : (not (a == r.pair) || not (r.cfg.role == role)) ≡ false
  pub swept : Swept t r x

pub check-Passed :
    (t : Moment) (a : Association) (role : Text) (r x : Repository)
    → check t a role r ≡ (x, ok tt)
    → Passed t a role r x
unfolding check expire
check-Passed t a role r x h =
    let (working, h1) = refuse_ok r.broken _ _ r x tt h in
    let (allowed, h2) =
      refuse_ok (not (a == r.pair) || not (r.cfg.role == role)) unauthorized (expire t) r x tt h1 in
    record {
      working = working;
      allowed = allowed;
      swept = save_if-Swept t (any_due t.sweep r.book.keys) t.sweep_saved r x h2;
    }

save_if_runs :
    (b : Bool) (saved : Saved) (r : Repository)
    → saved ≡ kept
    → (x : Repository) × (save_if b saved r ≡ (x, ok tt))
unfolding save_if save
save_if_runs true saved r h = (on_disk r, rw h refl)
save_if_runs false saved r h = (r, refl)

-- The test passes for the pair of a repository that works, when a save succeeds.
pub check_runs :
    (t : Moment) (a : Association) (role : Text) (r : Repository)
    → r.broken ≡ false
    → (not (a == r.pair) || not (r.cfg.role == role)) ≡ false
    → t.sweep_saved ≡ kept
    → (x : Repository) × (check t a role r ≡ (x, ok tt))
unfolding check expire
check_runs t a role r working allowed saves =
    let (x, h) =
      save_if_runs (any_due t.sweep r.book.keys) t.sweep_saved (set_keys (sweep_keys t.sweep) r)
        saves in
    (x, refuse_runs r.broken _ _ r _ working (refuse_runs _ _ (expire t) r _ allowed h))

some-injective : {A : Type 0} (a b : A) → some a ≡ some b → a ≡ b
some-injective a b h = cc

-- The stages of a `ReserveKeys` that granted: the state when the service is called, and its batch.
pub record Reserved (allocate : ℕ → Option (List Delivery)) (t : Moment) (a : Association) (n : ℕ)
    (r s : Repository) (res : Reservation) : Type 0 where
  pub checked : Repository
  pub asked : Repository
  pub token : KeyId
  pub request : Request
  pub batch : List Delivery
  pub passed : Passed t a master r checked
  pub began : Began t n [] checked asked token request
  pub gave : allocate n ≡ some batch
  pub fine : validate t.later request false asked.book.keys batch ≡ true
  pub left : s ≡ on_disk (fill token (ids_of batch) (set_keys (put_all request batch) asked))
  pub granted : res ≡ record { token = token; ids = request.ids ++ ids_of batch }

-- What an allocation that was stored leaves.
Allocated :
    Moment
    → KeyId
    → Request
    → Option (List Delivery)
    → Repository
    → Repository
    → Reservation
    → Type 0
Allocated t token q o r s res =
    (batch : List Delivery) × (o ≡ some batch)
    × (validate t.later q false r.book.keys batch ≡ true)
    × (s ≡ on_disk (fill token (ids_of batch) (set_keys (put_all q batch) r)))
    × (res ≡ record { token = token; ids = q.ids ++ ids_of batch })

allocated-some :
    (t : Moment) (token : KeyId) (q : Request) (ds : List Delivery) (r s : Repository)
    → (res : Reservation) → allocated t token q (some ds) r ≡ (s, ok res)
    → Allocated t token q (some ds) r s res
unfolding allocated Allocated
allocated-some t token q ds r s res =
    let end : Reservation = record { token = token; ids = q.ids ++ ids_of ds } in
    if_split (λ (m : M Reservation). m r ≡ (s, ok res) → Allocated t token q (some ds) r s res)
      (not (validate t.later q false r.book.keys ds)) (give_up t token q)
      (λ x. (save t.saved >> give end) (fill token (ids_of ds) (set_keys (put_all q ds) x)))
      (λ _ h. absurd (give_up_fails t token q r s res h))
      (λ bad h.
        let (left, granted) =
          saved_ok t.saved (fill token (ids_of ds) (set_keys (put_all q ds) r)) s end res h in
        (ds, refl, ground (arith, bad), left, sym granted))

allocated_ok :
    (t : Moment) (token : KeyId) (q : Request) (o : Option (List Delivery)) (r s : Repository)
    → (res : Reservation) → allocated t token q o r ≡ (s, ok res)
    → Allocated t token q o r s res
unfolding allocated
allocated_ok t token q none r s res h = absurd (give_up_fails t token q r s res h)
allocated_ok t token q (some ds) r s res h = allocated-some t token q ds r s res h

pub reserve_keys-Reserved :
    (allocate : ℕ → Option (List Delivery)) (t : Moment) (a : Association) (n : ℕ)
    → (r s : Repository) (res : Reservation) → reserve_keys allocate t a n r ≡ (s, ok res)
    → Reserved allocate t a n r s res
unfolding reserve_keys Allocated
reserve_keys-Reserved allocate t a n r s res h =
    let (checked, u, passed, h1) = after_ok (check t a master r) _ s res h in
    let (asked, b, begins, h2) = after_ok (begin t n [] checked) _ s res h1 in
    let (batch, gave, fine, left, granted) = allocated_ok t b.0 b.1 (allocate n) asked s res h2 in
    record {
      checked = checked;
      asked = asked;
      token = b.0;
      request = b.1;
      batch = batch;
      passed = check-Passed t a master r checked passed;
      began = begin-Began t n [] checked asked b.0 b.1 begins;
      gave = gave;
      fine = fine;
      left = left;
      granted = granted;
    }

All-ids :
    (P : KeyId → Type 0) (Q R : Delivery → Type 0) (ds : List Delivery)
    → ((d : Delivery) → P d.id → Q d → R d)
    → All P (ids_of ds)
    → All Q ds
    → All R ds
All-ids P Q R [] f p q = tt
All-ids P Q R (d ∷ ds) f p q = (f d p.0 q.0, All-ids P Q R ds f p.1 q.1)

-- A reservation that stands, with the keys it is for.
record Ready (a : Association) (token : KeyId) (expires : ℕ) (ds : List Delivery) (r : Repository)
    : Type 0 where
  working : r.broken ≡ false
  allowed : (not (a == r.pair) || not (r.cfg.role == master)) ≡ false
  request : Request
  found : lookup token r.book.requests ≡ some request
  is_stored : request.status ≡ Status.stored
  lives : request.expires ≡ expires
  ids_are : request.ids ≡ ids_of ds
  distinct : Distinct (ids_of ds)
  holds : All (Holds expires r.book.keys) ds

Ready-granted :
    (t : Moment) (a : Association) (n : ℕ) (r x y : Repository) (token : KeyId) (q : Request)
    → (ds : List Delivery) → Passed t a master r x
    → Began t n [] x y token q
    → validate t.later q false y.book.keys ds ≡ true
    → Ready a token q.expires ds (on_disk (fill token (ids_of ds) (set_keys (put_all q ds) y)))
unfolding fill set_keys begun new_request
Ready-granted t a n r x y token q ds p b fine =
    let distinct = validate-Distinct t.later q false y.book.keys ds fine in
    let y_broken : y.broken ≡ x.broken = ap (λ z. z.broken) b.state in
    let y_pair : y.pair ≡ x.pair = ap (λ z. z.pair) b.state in
    let y_cfg : y.cfg ≡ x.cfg = ap (λ z. z.cfg) b.state in
    let empty : q.ids ≡ [] = ap (λ z. z.ids) b.made in
    let there : lookup token y.book.requests ≡ some q =
      subst (λ z. lookup token z.book.requests ≡ some q) (sym b.state)
        (ground (arith, lookup-insert token token q x.book.requests, text_eq_iff token token)) in
    let f : Request → Request =
      λ z. record z { ids = z.ids ++ ids_of ds; status = Status.stored } in
    record {
      working = y_broken ∙ p.swept.broken_is ∙ p.working;
      allowed =
          subst (λ z. (not (a == z) || not (y.cfg.role == master)) ≡ false)
            (sym (y_pair ∙ p.swept.pair_is))
            (subst (λ z. (not (a == r.pair) || not (z.role == master)) ≡ false)
              (sym (y_cfg ∙ p.swept.cfg_is)) p.allowed);
      request = f q;
      found =
          ground
            (arith, lookup-adjust token token f y.book.requests, text_eq_iff token token, there);
      is_stored = refl;
      lives = refl;
      ids_are = rw empty refl;
      distinct = distinct;
      holds = put_all-Holds q ds y.book.keys distinct (
          fine-whole false q.ids y.book.keys [] ds
            (validate_fine t.later q false y.book.keys ds fine));
    }

granted-Ready :
    (allocate : ℕ → Option (List Delivery)) (t : Moment) (a : Association) (n : ℕ)
    → (r s : Repository) (res : Reservation) → (v : Reserved allocate t a n r s res)
    → Ready a res.token (t.now + r.cfg.lifetime_seconds * 1000000000) v.batch s
unfolding new_request
granted-Ready allocate t a n r s res v =
    let e : v.request.expires ≡ t.now + r.cfg.lifetime_seconds * 1000000000 =
      ap (λ q. q.expires) v.began.made
      ∙ ap (λ c. t.now + c.lifetime_seconds * 1000000000) v.passed.swept.cfg_is in
    let ready =
      Ready-granted t a n r v.checked v.asked v.token v.request v.batch v.passed v.began v.fine in
    subst (λ x. Ready a res.token x v.batch s) e
      (subst (λ x. Ready a x v.request.expires v.batch s) (sym (ap (λ x. x.token) v.granted))
        (subst (Ready a v.token v.request.expires v.batch) (sym v.left) ready))

Swept-Ready :
    (u : Moment) (a : Association) (token : KeyId) (expires : ℕ) (ds : List Delivery)
    → (r x : Repository) → All (λ id. u.sweep id < expires) (ids_of ds)
    → Ready a token expires ds r
    → Swept u r x
    → All (Holds expires x.book.keys) ds
Swept-Ready u a token expires ds r x early h w =
    rw w.keys_are
      (All-ids _ _ _ ds (λ d e k. sweep-Holds u.sweep expires r.book.keys d e k) early h.holds)

served :
    (u : Moment) (token : KeyId) (expires : ℕ) (ds : List Delivery) (q : Request) (r : Repository)
    → q.status ≡ Status.stored
    → q.expires ≡ expires
    → q.ids ≡ ids_of ds
    → u.now < expires
    → u.saved ≡ kept
    → Distinct (ids_of ds)
    → All (Holds expires r.book.keys) ds
    → (consume_found u token (some q) r).1 ≡ ok ds
unfolding consume_found status_eq_stored save
served u token expires ds q r stands lives ids early saves distinct holds =
    let held = Holds-all_held expires ds r.book.keys holds in
    let out = Holds-hand_out expires ds r.book.keys distinct holds in
    rw (saves, ids) (ground (arith, stands, lives, early, held, out))

Ready-served :
    (u : Moment) (a : Association) (token : KeyId) (expires : ℕ) (ds : List Delivery)
    (r : Repository)
    → Ready a token expires ds r
    → u.sweep_saved ≡ kept
    → u.saved ≡ kept
    → u.now < expires
    → All (λ id. u.sweep id < expires) (ids_of ds)
    → (consume_reservation u a token r).1 ≡ ok ds
unfolding consume_reservation
Ready-served u a token expires ds r h sweeps saves early fresh =
    let (x, runs) = check_runs u a master r h.working h.allowed sweeps in
    let p = check-Passed u a master r x runs in
    let found : lookup token x.book.requests ≡ some h.request =
      ap (lookup token) p.swept.requests_are ∙ h.found in
    rw (runs, found)
      (served u token expires ds h.request x h.is_stored h.lives h.ids_are early saves h.distinct
        (Swept-Ready u a token expires ds r x fresh h p.swept))

-- A reservation that was granted is for the keys that the service allocated; and when its pair
-- consumes it next, before it expires (`u` is that moment) and with the journal's saves kept, it
-- gets exactly what the service had given: the same ids, in the same order, with the same bytes.
pub reserve_then_consume :
    (allocate : ℕ → Option (List Delivery)) (t u : Moment) (a : Association) (n : ℕ)
    → (r s : Repository) (res : Reservation) (ds : List Delivery)
    → reserve_keys allocate t a n r ≡ (s, ok res)
    → allocate n ≡ some ds
    → u.sweep_saved ≡ kept
    → u.saved ≡ kept
    → u.now < t.now + r.cfg.lifetime_seconds * 1000000000
    → All (λ id. u.sweep id < t.now + r.cfg.lifetime_seconds * 1000000000) res.ids
    → (res.ids ≡ ids_of ds) × ((consume_reservation u a res.token s).1 ≡ ok ds)
unfolding new_request
reserve_then_consume allocate t u a n r s res ds h gave sweeps saves early fresh =
    let v = reserve_keys-Reserved allocate t a n r s res h in
    let same : v.batch ≡ ds = some-injective v.batch ds (sym v.gave ∙ gave) in
    let none_asked : v.request.ids ≡ [] = ap (λ q. q.ids) v.began.made in
    let ids : res.ids ≡ ids_of v.batch =
      ap (λ x. x.ids) v.granted ∙ ap (λ x. x ++ ids_of v.batch) none_asked in
    (
      ids ∙ ap ids_of same,
      Ready-served u a res.token _ v.batch s (granted-Ready allocate t a n r s res v) sweeps saves
            early (subst (All _) ids fresh)
          ∙ ap ok same,
    )
