-- ===== src/Storage/Store.antt =====
-- `StoreKey`: a new key joins the repository, or nothing changes.
use mathlib.Core.List.{map-append}
use transeuroogs_kms.Common.{
  Bool-cases, Option-cases, ℕ, ◌<◌, ◌≡◌, refl, ◌⊎◌, inl, inr, false, none, some, List, [], ◌∷◌,
  ◌++◌, arith, text_eq_instance, text_eq_iff, All, All-map, All-append, Distinct-append, contains,
  length, length-append, ap, leb, All-of_contains,
}
use transeuroogs_kms.Common.Dict.{
  Dict, lookup, insert, lookup-insert, insert-eq-append, contains-keys,
}
use transeuroogs_kms.Core.Errors.{Error, Result, ok, err, duplicate}
use transeuroogs_kms.Core.Errors
use transeuroogs_kms.Core.Id.{KeyId}
use transeuroogs_kms.Core.Key.{Key, validate, terminal}
use transeuroogs_kms.Storage.{Entry, Memory, Outcome, store_key, store_checked, new_entry}
use transeuroogs_kms.Storage.Lifecycle.{Sound}
use transeuroogs_kms.Storage.Invariant.{Inv, IsHeldFor}
use transeuroogs_kms.Storage.Loops.{Has}

-- The state after a key was accepted.
unfoldable pub stored : Memory → Key → Memory
stored m k = record m {
  entries = insert k.id (new_entry k) m.entries;
  order = m.order ++ k.id ∷ [];
}

-- The key was accepted.
abbrev pub Stores : Memory → Key → ℕ → Outcome (Unit {0}) → Type 0
Stores m k now out =
    (validate k now ≡ none)
    × (lookup k.id m.entries ≡ none)
    × (length m.entries < m.capacity)
    × (out ≡ (stored m k, ok tt))

pub store_key_cases :
    (m : Memory) (k : Key) (now : ℕ)
    → ((e : Error) × (store_key m k now ≡ (m, err e))) ⊎ Stores m k now (store_key m k now)
unfolding store_key stored
store_key_cases m k now = elim (Option-cases (validate k now)) [
  | inr (e, bad) ↦ inl (e, rw (bad, store_key))
  | inl fine ↦ elim (Option-cases (lookup k.id m.entries)) [
    | inr (w, there) ↦ inl (duplicate, rw (fine, store_key, store_checked, there))
    | inl new ↦ elim (Bool-cases (leb m.capacity (length m.entries))) [
      | inl full ↦ inl (Errors.capacity, rw (fine, store_key, store_checked, new, full))
      | inr room ↦ inr (fine, new, ground arith, rw (fine, store_key, store_checked, new, room))
    ]
  ]
]

validate-material : (k : Key) (now : ℕ) → validate k now ≡ none → length k.material ≡ 32
unfolding validate
validate-material k now h = ground arith

new_entry-Sound : (k : Key) (now : ℕ) → validate k now ≡ none → Sound k.id (new_entry k)
unfolding new_entry terminal
new_entry-Sound k now h = ground (arith, validate-material k now h)

Has-insert :
    (P : Entry → Type 0) (es : Dict KeyId Entry) (id : KeyId) (e : Entry) (j : KeyId)
    → lookup id es ≡ none
    → Has P es j
    → Has P (insert id e es) j
Has-insert P es id e j new (f, found, p) =
    (f, ground (arith, lookup-insert id j e es, text_eq_iff id j, found, new), p)

apart :
    (id : KeyId) (ids : List KeyId)
    → contains ids id ≡ false
    → All (λ j. contains (id ∷ []) j ≡ false) ids
unfolding contains
apart id ids out = All-of_contains _ ids (λ j c. ground (arith, text_eq_iff id j, out, c))

pub stored-Inv :
    (m : Memory) (k : Key) (now : ℕ)
    → Inv m
    → validate k now ≡ none
    → lookup k.id m.entries ≡ none
    → length m.entries < m.capacity
    → Inv (stored m k)
unfolding stored
stored-Inv m k now v fine new room =
    let end = insert-eq-append k.id (new_entry k) m.entries new in
    record {
      ordered = rw (end, map-append) (ap (λ (o : List KeyId). o ++ k.id ∷ []) v.ordered);
      distinct =
          Distinct-append m.order (k.id ∷ []) v.distinct (unfold contains in refl, tt)
            (apart k.id m.order (rw v.ordered (contains-keys k.id m.entries new)));
      bounded = rw end (omega (arith, length-append m.entries ((k.id, new_entry k) ∷ [])));
      sound =
          rw end
            (All-append (λ p. Sound p.0 p.1) m.entries _ v.sound (new_entry-Sound k now fine, tt));
      held =
          All-map _ _
            (λ p h. (
              h.0,
              All-map _ _ (λ id. Has-insert (IsHeldFor p.1.association) m.entries k.id _ id new)
                  p.1.ids h.1,
            ))
            m.reservations v.held;
    }

-- The other entries stay.
pub lookup-stored :
    (m : Memory) (k : Key) (id : KeyId) (e : Entry)
    → lookup k.id m.entries ≡ none
    → lookup id m.entries ≡ some e
    → lookup id (stored m k).entries ≡ some e
unfolding stored
lookup-stored m k id e new found =
    ground (arith, lookup-insert k.id id (new_entry k) m.entries, text_eq_iff k.id id)

-- The new one is there.
pub lookup-stored_self :
    (m : Memory) (k : Key) → lookup k.id (stored m k).entries ≡ some (new_entry k)
unfolding stored
lookup-stored_self m k =
    ground (arith, lookup-insert k.id k.id (new_entry k) m.entries, text_eq_iff k.id k.id)
