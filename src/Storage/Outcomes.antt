-- ===== src/Storage/Outcomes.antt =====
-- The two ways in which a call of the repository ends.
use transeuroogs_kms.Common.{ℕ, ◌≡◌, some, List, map, All, text_eq_instance}
use transeuroogs_kms.Common.Dict.{Dict, lookup, erase}
use transeuroogs_kms.Common.Dict.Pointwise.{Pointwise}
use transeuroogs_kms.Core.Errors.{Error, ok, err}
use transeuroogs_kms.Core.Id.{KeyId}
use transeuroogs_kms.Core.Key.{Association, Delivery}
use transeuroogs_kms.Storage.{Entry, Held, Memory, Outcome, consume_master, consume_slave}
use transeuroogs_kms.Storage.Lifecycle.{Step}
use transeuroogs_kms.Storage.Lapse.{Lapses}
use transeuroogs_kms.Storage.Loops.{delivery_at}
use transeuroogs_kms.Storage.Checks.{IsReserved, IsOpenTo}
use transeuroogs_kms.Storage.Marking.{Moved}

-- The call failed: no more than expiry happened to the repository.
abbrev pub Refused : {A : Type 0} → Memory → ℕ → Outcome A → Type 0
Refused m now out =
    (fs : Dict KeyId Entry) × (e : Error) × (out ≡ (record m { entries = fs }, err e))
    × Lapses now m.entries fs

-- A reservation of the pair `a` was served whole, and is gone.
abbrev pub ServesMaster : Memory → Association → KeyId → Outcome (List Delivery) → Type 0
ServesMaster m a token out =
    (h : Held) × (gs : Dict KeyId Entry) × (lookup token m.reservations ≡ some h)
    × (h.association ≡ a)
    × (out ≡ (
      record m { entries = gs; reservations = erase token m.reservations },
      ok (map (delivery_at (λ e. e.master) m.entries) h.ids),
    ))
    × Pointwise Step m.entries gs
    × All (Moved consume_master IsReserved m.entries gs) h.ids

-- A batch of the peer was served whole.
abbrev pub ServesSlave : Memory → Association → List KeyId → Outcome (List Delivery) → Type 0
ServesSlave m a ids out =
    (gs : Dict KeyId Entry) × (out
      ≡ (record m { entries = gs }, ok (map (delivery_at (λ e. e.slave) m.entries) ids)))
    × Pointwise Step m.entries gs
    × All (Moved consume_slave (IsOpenTo a) m.entries gs) ids
