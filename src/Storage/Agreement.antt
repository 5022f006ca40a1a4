-- ===== src/Storage/Agreement.antt =====
-- Master and slave get the bytes that were stored, and the slave only after the master.
use transeuroogs_kms.Common.{
  ℕ, ◌≡◌, refl, ap, sym, ◌⊎◌, inl, inr, some, List, [], ◌∷◌, ◌++◌, map, arith, text_eq_instance,
  All, All-append, ◌∙◌, subst, length,
}
use transeuroogs_kms.Common.Dict.{Dict, lookup, lookup-All}
use transeuroogs_kms.Core.Errors.{ok}
use transeuroogs_kms.Core.Id.{KeyId}
use transeuroogs_kms.Core.Key.{Association, Key, Delivery, terminal}
use transeuroogs_kms.Storage.{
  Entry, Memory, store_key, consume_reservation, consume_peer_keys, consume_master, consume_slave,
  new_entry,
}
use transeuroogs_kms.Storage.Lifecycle.{Sound}
use transeuroogs_kms.Storage.Loops.{delivery_at, delivery_at_found}
use transeuroogs_kms.Storage.Marking.{Moved}
use transeuroogs_kms.Storage.Checks.{IsReserved, IsOpenTo}
use transeuroogs_kms.Storage.Invariant.{Inv}
use transeuroogs_kms.Storage.Store.{stored, store_key_cases, stored-Inv, lookup-stored_self}
use transeuroogs_kms.Storage.Consume.{consume_reservation_cases, consume_peer_keys_cases}
use transeuroogs_kms.Storage.Trace.{
  Call, store, reserve, consume, consume_peer, invalidate, describe, stock, step, to_master,
  to_slave, handed, delivered, step-Progress,
}

-- A buffer with the material, or wiped.
abbrev IsCopy : List ℕ → List ℕ → Type 0
IsCopy material buffer = (buffer ≡ material) ⊎ (buffer ≡ [])

-- The entry of `id` has the material in both halves, as long as they are not wiped.
Carries : KeyId → List ℕ → Memory → Type 0
Carries id material m =
    (e : Entry) × (lookup id m.entries ≡ some e)
    × IsCopy material e.master
    × IsCopy material e.slave

IsCopy-forward :
    (material b c : List ℕ) → (c ≡ b) ⊎ (c ≡ []) → IsCopy material b → IsCopy material c
IsCopy-forward material b c h k = ground arith

module _ (id : KeyId) (material : List ℕ) where
  -- A delivery of this key has this material.
  abbrev Gives : Delivery → Type 0
  Gives d = d.id ≡ id → d.material ≡ material

  Carries-step :
      (m : Memory) (c : ℕ × Call) → Inv m → Carries id material m → Carries id material (step m c)
  unfolding Carries
  Carries-step m c v (e, found, x, y) =
      let (f, found', q) = (step-Progress m c v).grows id e found in
      (
        f,
        found',
        IsCopy-forward material e.master f.master q.master_data x,
        IsCopy-forward material e.slave f.slave q.slave_data y,
      )

  filled : (b : List ℕ) → IsCopy material b → length b ≡ 32 → b ≡ material
  filled b (inl same) h = same
  filled b (inr wiped) h = absurd (omega (arith, ap length wiped))

  -- A batch whose buffers `of` are filled copies.
  Moved-Gives :
      (of : Entry → List ℕ) (f : Entry → Entry) (P : Entry → Type 0) (m : Memory)
      (gs : Dict KeyId Entry)
      → ((e : Entry) → lookup id m.entries ≡ some e → P e → of e ≡ material)
      → (ids : List KeyId) → All (Moved f P m.entries gs) ids
      → All Gives (map (delivery_at of m.entries) ids)
  Moved-Gives of f P m gs good [] h = tt
  Moved-Gives of f P m gs good (j ∷ ids) ((e, found, _, p), h) = (
    (λ same.
        let d : delivery_at of m.entries j ≡ record { id = j; material = of e } =
          delivery_at_found of m.entries j e found in
        let j_id : j ≡ id = sym (ap (λ (x : Delivery). x.id) d) ∙ same in
        ap (λ (x : Delivery). x.material) d
        ∙ good e (subst (λ (k : KeyId). lookup k m.entries ≡ some e) j_id found) p),
    Moved-Gives of f P m gs good ids h,
  )

  master_filled :
      (m : Memory) (e : Entry)
      → Inv m
      → Carries id material m
      → lookup id m.entries ≡ some e
      → IsReserved e
      → e.master ≡ material
  unfolding Carries terminal
  master_filled m e v (e', there, x, _) found p =
      let s = lookup-All Sound id m.entries e v.sound found in
      let same : e' ≡ e = ground (arith, found, there) in
      filled e.master (subst (λ (y : Entry). IsCopy material y.master) same x)
        (s.master_held (ground arith))

  slave_filled :
      (m : Memory) (a : Association) (e : Entry)
      → Inv m
      → Carries id material m
      → lookup id m.entries ≡ some e
      → IsOpenTo a e
      → e.slave ≡ material
  unfolding Carries terminal
  slave_filled m a e v (e', there, _, y) found p =
      let s = lookup-All Sound id m.entries e v.sound found in
      let same : e' ≡ e = ground (arith, found, there) in
      filled e.slave (subst (λ (y : Entry). IsCopy material y.slave) same y)
        (s.slave_held (ground arith))

  consume_reservation-Gives :
      (m : Memory) (a : Association) (token : KeyId) (now : ℕ)
      → Inv m
      → Carries id material m
      → All Gives (delivered (consume_reservation m a token now).1)
  unfolding delivered
  consume_reservation-Gives m a token now v c = elim (consume_reservation_cases m a token now v) [
    | inl (fs, e, done, _) ↦ rw done tt
    | inr (h, gs, _, _, done, _, moved) ↦ rw done (
        Moved-Gives (λ e. e.master) consume_master IsReserved m gs
          (λ e found p. master_filled m e v c found p) h.ids moved)
  ]

  consume_peer_keys-Gives :
      (m : Memory) (a : Association) (ids : List KeyId) (now : ℕ)
      → Inv m
      → Carries id material m
      → All Gives (delivered (consume_peer_keys m a ids now).1)
  unfolding delivered
  consume_peer_keys-Gives m a ids now v c = elim (consume_peer_keys_cases m a ids now) [
    | inl (fs, e, done, _) ↦ rw done tt
    | inr (_, (gs, done, _, moved)) ↦ rw done (
        Moved-Gives (λ e. e.slave) consume_slave (IsOpenTo a) m gs
          (λ e found p. slave_filled m a e v c found p) ids moved)
  ]

  to_master-Gives :
      (m : Memory) (c : ℕ × Call) → Inv m → Carries id material m → All Gives (to_master m c)
  unfolding to_master
  to_master-Gives m (now, consume a token) v k = consume_reservation-Gives m a token now v k
  to_master-Gives m (now, store x) v k = tt
  to_master-Gives m (now, reserve a n draws) v k = tt
  to_master-Gives m (now, consume_peer a ids) v k = tt
  to_master-Gives m (now, invalidate x) v k = tt
  to_master-Gives m (now, describe x) v k = tt
  to_master-Gives m (now, stock a) v k = tt

  to_slave-Gives :
      (m : Memory) (c : ℕ × Call) → Inv m → Carries id material m → All Gives (to_slave m c)
  unfolding to_slave
  to_slave-Gives m (now, consume_peer a ids) v k = consume_peer_keys-Gives m a ids now v k
  to_slave-Gives m (now, store x) v k = tt
  to_slave-Gives m (now, reserve a n draws) v k = tt
  to_slave-Gives m (now, consume a token) v k = tt
  to_slave-Gives m (now, invalidate x) v k = tt
  to_slave-Gives m (now, describe x) v k = tt
  to_slave-Gives m (now, stock a) v k = tt

  handed-Gives :
      (out : Memory → ℕ × Call → List Delivery)
      → ((m : Memory) (c : ℕ × Call) → Inv m → Carries id material m → All Gives (out m c))
      → (m : Memory) (cs : List (ℕ × Call)) → Inv m
      → Carries id material m
      → All Gives (handed out m cs)
  unfolding handed
  handed-Gives out good m [] v k = tt
  handed-Gives out good m (c ∷ cs) v k =
      All-append Gives (out m c) _ (good m c v k)
        (handed-Gives out good (step m c) cs (step-Progress m c v).inv (Carries-step m c v k))

new_entry-Carries : (m : Memory) (k : Key) → Carries k.id k.material (stored m k)
unfolding Carries new_entry
new_entry-Carries m k = (new_entry k, lookup-stored_self m k, inl refl, inl refl)

-- Once a key was stored, whatever calls follow, each delivery of its id, to a master or to a
-- slave application, carries exactly the bytes that were stored.
pub handed-store_key :
    (m : Memory) (k : Key) (now : ℕ) (cs : List (ℕ × Call))
    → Inv m
    → (store_key m k now).1 ≡ ok tt
    → All
        (λ d. d.id ≡ k.id → d.material ≡ k.material)
        (handed to_master (store_key m k now).0 cs ++ handed to_slave (store_key m k now).0 cs)
handed-store_key m k now cs v good = elim (store_key_cases m k now) [
  | inl (e, done) ↦ absurd (ground arith)
  | inr (fine, new, room, done) ↦
      let w = stored-Inv m k now v fine new room in
      let c = new_entry-Carries m k in
      rw done (
        All-append _ (handed to_master (stored m k) cs) _
          (handed-Gives k.id k.material to_master (to_master-Gives k.id k.material) (stored m k) cs
            w c)
          (handed-Gives k.id k.material to_slave (to_slave-Gives k.id k.material) (stored m k) cs w
            c))
]
