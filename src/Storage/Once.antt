-- ===== src/Storage/Once.antt =====
-- Each half of a key is delivered at most once, over any sequence of calls.
use mathlib.Core.List.{map-append}
use transeuroogs_kms.Common.{
  Bool-cases, ℕ, ◌≡◌, ◌≢◌, refl, ap, inl, inr, some, List, [], ◌∷◌, ◌++◌, map, arith,
  text_eq_instance, All, All-map, All-append, All-contains, Distinct, Distinct-append, contains,
  subst,
}
use transeuroogs_kms.Common.Dict.{Dict, lookup}
use transeuroogs_kms.Core.Id.{KeyId}
use transeuroogs_kms.Core.Key.{State, Association, Delivery, consumed, terminal}
use transeuroogs_kms.Storage.{
  Entry, Memory, consume_reservation, consume_peer_keys, consume_master, consume_slave,
}
use transeuroogs_kms.Storage.Lifecycle.{Evolves}
use transeuroogs_kms.Storage.Loops.{delivery_at}
use transeuroogs_kms.Storage.Marking.{Moved}
use transeuroogs_kms.Storage.Checks.{IsReserved, IsOpenTo}
use transeuroogs_kms.Storage.Invariant.{Inv}
use transeuroogs_kms.Storage.Consume.{
  consume_reservation_cases, consume_peer_keys_cases, held_Holds,
}
use transeuroogs_kms.Storage.Trace.{
  Call, store, reserve, consume, consume_peer, invalidate, describe, stock, step, to_master,
  to_slave, handed, ids_of, delivered, step-Progress,
}

-- The half `half` of the key `id` was consumed.
abbrev pub Spent : (Entry → State) → Memory → KeyId → Type 0
Spent half m id = (e : Entry) × (lookup id m.entries ≡ some e) × (half e ≡ consumed)

-- A call hands out distinct ids, none of them consumed before and each of them after.
pub record Fresh (half : Entry → State) (m n : Memory) (ids : List KeyId) : Type 0 where
  pub distinct : Distinct ids
  pub unspent : All (λ id. ¬ (Spent half m id)) ids
  pub spent : All (Spent half n) ids

module _ (half : Entry → State)
    (final : (e f : Entry) → Evolves e f → half e ≡ consumed → half f ≡ consumed)
    (out : Memory → ℕ × Call → List Delivery)
    (fresh : (m : Memory) (c : ℕ × Call) → Inv m → Fresh half m (step m c) (ids_of (out m c))) where
  Spent-step :
      (m : Memory) (c : ℕ × Call) (id : KeyId) → Inv m → Spent half m id → Spent half (step m c) id
  Spent-step m c id v (e, found, p) =
      let (f, found', q) = (step-Progress m c v).grows id e found in (f, found', final e f q p)

  ids_of-handed :
      (m : Memory) (c : ℕ × Call) (cs : List (ℕ × Call))
      → ids_of (handed out m (c ∷ cs)) ≡ ids_of (out m c) ++ ids_of (handed out (step m c) cs)
  unfolding handed
  ids_of-handed m c cs = map-append _ _ _

  handed_unspent :
      (m : Memory) (cs : List (ℕ × Call))
      → Inv m
      → All (λ id. ¬ (Spent half m id)) (ids_of (handed out m cs))
  handed_unspent m [] v = unfold handed in tt
  handed_unspent m (c ∷ cs) v = rw ids_of-handed (
      All-append _ (ids_of (out m c)) _ (fresh m c v).unspent (
        All-map _ _ (λ id no s. no (Spent-step m c id v s)) _
          (handed_unspent (step m c) cs (step-Progress m c v).inv)))

  handed-Distinct :
      (m : Memory) (cs : List (ℕ × Call)) → Inv m → Distinct (ids_of (handed out m cs))
  handed-Distinct m [] v = unfold handed in tt
  handed-Distinct m (c ∷ cs) v =
      let w = (step-Progress m c v).inv in
      let now = fresh m c v in
      rw ids_of-handed (
        Distinct-append (ids_of (out m c)) _ now.distinct (handed-Distinct (step m c) cs w) (
          All-map _ _
            (λ id s. elim (Bool-cases (contains (ids_of (handed out (step m c) cs)) id)) [
              | inl again ↦ absurd (All-contains _ _ id (handed_unspent (step m c) cs w) again s)
              | inr no_more ↦ no_more
            ])
            _ now.spent))

ids_of-delivery_at :
    (of : Entry → List ℕ) (es : Dict KeyId Entry) (ids : List KeyId)
    → ids_of (map (delivery_at of es) ids) ≡ ids
unfolding delivery_at
ids_of-delivery_at of es [] = refl
ids_of-delivery_at of es (id ∷ ids) = ap (◌∷◌ id) (ids_of-delivery_at of es ids)

nothing_Fresh : (half : Entry → State) (m n : Memory) → Fresh half m n []
nothing_Fresh half m n = record { distinct = tt; unspent = tt; spent = tt }

-- A marked batch is fresh for the half that the marking consumes.
Moved-Fresh :
    (half : Entry → State) (f : Entry → Entry) (P : Entry → Type 0)
    → ((e : Entry) → P e → half e ≢ consumed)
    → ((e : Entry) → half (f e) ≡ consumed)
    → (m n : Memory) (ids : List KeyId) → Distinct ids
    → All (Moved f P m.entries n.entries) ids
    → Fresh half m n ids
Moved-Fresh half f P unspent spent m n ids d moved = record {
  distinct = d;
  unspent =
      All-map _ _
        (λ id x s.
          let (e, here, _, p) = x in
          let (g, there, q) = s in
          unspent e p (subst (λ h. half h ≡ consumed) (ground (arith, here, there)) q))
        ids moved;
  spent = All-map _ _ (λ id x. let (e, _, there, _) = x in (f e, there, spent e)) ids moved;
}

pub consume_reservation-Fresh :
    (m : Memory) (a : Association) (token : KeyId) (now : ℕ)
    → Inv m
    → Fresh
        (λ e. e.master_state)
        m
        (consume_reservation m a token now).0
        (ids_of (delivered (consume_reservation m a token now).1))
unfolding delivered
consume_reservation-Fresh m a token now v = elim (consume_reservation_cases m a token now v) [
  | inl (fs, e, done, _) ↦ rw done (nothing_Fresh _ m _)
  | inr (h, gs, found, _, done, _, moved) ↦
      rw (done, ids_of-delivery_at)
        (Moved-Fresh (λ e. e.master_state) consume_master IsReserved (λ e p q. cc)
          (λ e. unfold consume_master in refl) m _ h.ids (held_Holds m token h v found).0 moved)
]

pub consume_peer_keys-Fresh :
    (m : Memory) (a : Association) (ids : List KeyId) (now : ℕ)
    → Fresh
        (λ e. e.slave_state)
        m
        (consume_peer_keys m a ids now).0
        (ids_of (delivered (consume_peer_keys m a ids now).1))
unfolding delivered
consume_peer_keys-Fresh m a ids now = elim (consume_peer_keys_cases m a ids now) [
  | inl (fs, e, done, _) ↦ rw done (nothing_Fresh _ m _)
  | inr (d, (gs, done, _, moved)) ↦
      rw (done, ids_of-delivery_at)
        (Moved-Fresh (λ e. e.slave_state) consume_slave (IsOpenTo a) (λ e p q. ground arith)
          (λ e. unfold consume_slave in refl) m _ ids d moved)
]

master_Fresh :
    (m : Memory) (c : ℕ × Call)
    → Inv m
    → Fresh (λ e. e.master_state) m (step m c) (ids_of (to_master m c))
unfolding step to_master
master_Fresh m (now, consume a token) v = consume_reservation-Fresh m a token now v
master_Fresh m (now, store k) v = nothing_Fresh _ m _
master_Fresh m (now, reserve a n draws) v = nothing_Fresh _ m _
master_Fresh m (now, consume_peer a ids) v = nothing_Fresh _ m _
master_Fresh m (now, invalidate id) v = nothing_Fresh _ m _
master_Fresh m (now, describe id) v = nothing_Fresh _ m _
master_Fresh m (now, stock a) v = nothing_Fresh _ m _

slave_Fresh :
    (m : Memory) (c : ℕ × Call)
    → Inv m
    → Fresh (λ e. e.slave_state) m (step m c) (ids_of (to_slave m c))
unfolding step to_slave
slave_Fresh m (now, consume_peer a ids) v = consume_peer_keys-Fresh m a ids now
slave_Fresh m (now, store k) v = nothing_Fresh _ m _
slave_Fresh m (now, reserve a n draws) v = nothing_Fresh _ m _
slave_Fresh m (now, consume a token) v = nothing_Fresh _ m _
slave_Fresh m (now, invalidate id) v = nothing_Fresh _ m _
slave_Fresh m (now, describe id) v = nothing_Fresh _ m _
slave_Fresh m (now, stock a) v = nothing_Fresh _ m _

pub master_final :
    (e f : Entry) → Evolves e f → e.master_state ≡ consumed → f.master_state ≡ consumed
unfolding terminal
master_final e f v h = ground arith

pub slave_final : (e f : Entry) → Evolves e f → e.slave_state ≡ consumed → f.slave_state ≡ consumed
unfolding terminal
slave_final e f v h = ground arith

-- Over any calls from a sound repository, with any clock readings and random draws, no key is
-- delivered to a master application twice, and none to a slave application twice.
pub handed_once :
    (m : Memory) (cs : List (ℕ × Call))
    → Inv m
    → Distinct (ids_of (handed to_master m cs)) × Distinct (ids_of (handed to_slave m cs))
handed_once m cs v = (
  handed-Distinct (λ e. e.master_state) master_final to_master master_Fresh m cs v,
  handed-Distinct (λ e. e.slave_state) slave_final to_slave slave_Fresh m cs v,
)
