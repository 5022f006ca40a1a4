-- ===== src/Storage/Invariant.antt =====
-- What holds of the repository between two operations.
use transeuroogs_kms.Common.{
  ◌≤◌, ◌≡◌, ◌≢◌, arith, text_eq_instance, All, All-map, All-of_contains, ◌∙◌, sym, length, Distinct,
}
use transeuroogs_kms.Common.Dict.{Dict, keys, lookup-All, lookup-contains}
use transeuroogs_kms.Common.Dict.Pointwise.{
  Pointwise, Pointwise-keys, Pointwise-length, Pointwise-All, Pointwise-lookup,
}
use transeuroogs_kms.Core.Id.{KeyId}
use transeuroogs_kms.Core.Key.{available, Association}
use transeuroogs_kms.Storage.{Entry, Held, Memory}
use transeuroogs_kms.Storage.Lifecycle.{Sound, Evolves, Step}
use transeuroogs_kms.Storage.Loops.{Has}
use transeuroogs_kms.Storage.Checks.{Known}

-- An entry that a reservation of the pair `a` holds.
abbrev pub IsHeldFor : Association → Entry → Type 0
IsHeldFor a e = (e.association ≡ a) × (e.master_state ≢ available)

-- The ids of a reservation are distinct, known, of its pair, and no longer on offer.
abbrev pub Holds : Dict KeyId Entry → Held → Type 0
Holds es h = Distinct h.ids × All (Has (IsHeldFor h.association) es) h.ids

pub record Inv (m : Memory) : Type 0 where
  pub ordered : m.order ≡ keys m.entries
  pub distinct : Distinct m.order
  pub bounded : length m.entries ≤ m.capacity
  pub sound : All (λ p. Sound p.0 p.1) m.entries
  pub held : All (λ p. Holds m.entries p.1) m.reservations

not_available_forward :
    (e f : Entry) → Evolves e f → e.master_state ≢ available → f.master_state ≢ available
not_available_forward e f v n = ground arith

pub Has-forward :
    (a : Association) (es fs : Dict KeyId Entry) (id : KeyId)
    → All (λ p. Sound p.0 p.1) es
    → Pointwise Step es fs
    → Has (IsHeldFor a) es id
    → Has (IsHeldFor a) fs id
Has-forward a es fs id s steps (e, found, (same, gone)) =
    let (f, found', step) = Pointwise-lookup Step id es fs e steps found in
    let v = step.evolves id (lookup-All Sound id es e s found) in
    (f, found', (v.association_kept ∙ same, not_available_forward e f v gone))

pub Holds-forward :
    (es fs : Dict KeyId Entry) (h : Held)
    → All (λ p. Sound p.0 p.1) es
    → Pointwise Step es fs
    → Holds es h
    → Holds fs h
Holds-forward es fs h s steps (d, a) =
    (d, All-map _ _ (λ id. Has-forward h.association es fs id s steps) h.ids a)

-- Entries that take steps keep the invariant.
pub Steps-Inv :
    (m : Memory) (fs : Dict KeyId Entry)
    → Inv m
    → Pointwise Step m.entries fs
    → Inv (record m { entries = fs })
Steps-Inv m fs v steps = record {
  ordered = v.ordered ∙ sym (Pointwise-keys Step m.entries fs steps);
  distinct = v.distinct;
  bounded = omega (arith, v.bounded, Pointwise-length Step m.entries fs steps);
  sound = Pointwise-All Step Sound (λ id e f st s. st.sound id s) m.entries fs steps v.sound;
  held = All-map _ _ (λ p. Holds-forward m.entries fs p.1 v.sound steps) m.reservations v.held;
}

-- Every id in the order of arrival has its entry.
pub order-Known : (m : Memory) → Inv m → All (Known m.entries) m.order
order-Known m v =
    All-of_contains (Known m.entries) m.order
      (λ id c. lookup-contains id m.entries (rw v.ordered at c))
