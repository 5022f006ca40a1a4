-- ===== src/Storage/Marking.antt =====
-- A batch that passed its check: the marking and the delivering loop after it, seen from the
-- entries before the call.
use transeuroogs_kms.Common.{
  ℕ, ◌≡◌, refl, ap, ◌⊎◌, false, some, List, [], ◌∷◌, map, text_eq_instance, All, All-map,
  All-of_contains, All-contains, ◌∙◌, Distinct,
}
use transeuroogs_kms.Common.Dict.{Dict, lookup}
use transeuroogs_kms.Common.Dict.Pointwise.{Pointwise, Pointwise-trans}
use transeuroogs_kms.Core.Errors.{ok}
use transeuroogs_kms.Core.Id.{KeyId}
use transeuroogs_kms.Core.Key.{terminal, Delivery}
use transeuroogs_kms.Storage.{Entry, adjust_each, deliver}
use transeuroogs_kms.Storage.Lifecycle.{Step, Step-trans}
use transeuroogs_kms.Storage.Lapse.{Lapses, Lapses-Steps}
use transeuroogs_kms.Storage.Loops.{Has, adjust_each_lem, delivery_at, deliver-adjust_each}
use transeuroogs_kms.Storage.Checks.{Ready, Ready-lookup}

-- The entry of `id` satisfied `P` in `es` and stands in `gs` as `f` made it.
abbrev pub Moved :
    (Entry → Entry) → (Entry → Type 0) → Dict KeyId Entry → Dict KeyId Entry → KeyId → Type 0
Moved f P es gs id = (e : Entry) × (lookup id es ≡ some e) × (lookup id gs ≡ some (f e)) × P e

module _ (P : Entry → Type 0) (f : Entry → Entry) (step : (e : Entry) → P e → Step e (f e))
    (alive : (e : Entry)
      → P e
      → (terminal e.master_state ≡ false) ⊎ (terminal e.slave_state ≡ false))
    (now : ℕ) (ids : List KeyId) (es : Dict KeyId Entry) (distinct : Distinct ids)
    (ready : All (Ready P now es) ids) (fs : Dict KeyId Entry) (lapses : Lapses now es fs) where
  unlapsed :
      (id : KeyId)
      → Ready P now es id
      → (e : Entry) × (lookup id es ≡ some e) × (lookup id fs ≡ some e) × P e
  unlapsed id = Ready-lookup P now es fs id alive lapses

  before : All (Has P fs) ids
  before = All-map _ _ (λ id r. let (e, _, there, p) = unlapsed id r in (e, there, p)) ids ready

  pub marking :
      (gs : Dict KeyId Entry) × (adjust_each f ids fs ≡ ok gs)
      × Pointwise Step es gs
      × All (Moved f P es gs) ids
  marking =
      let (gs, done, steps, found) = adjust_each_lem P f step ids fs distinct before in
      (
        gs,
        done,
        Pointwise-trans Step Step-trans es fs gs (Lapses-Steps now es fs lapses) steps,
        All-of_contains (Moved f P es gs) ids (λ id c.
            let (e, here, there, p) = unlapsed id (All-contains (Ready P now es) ids id ready c) in
            (e, here, rw (found id, c, there), p)),
      )

  delivery_at_unlapsed :
      (of : Entry → List ℕ) (id : KeyId)
      → Ready P now es id
      → delivery_at of fs id ≡ delivery_at of es id
  unfolding delivery_at
  delivery_at_unlapsed of id r =
      let (e, here, there, p) = unlapsed id r in rw (there, here, delivery_at)

  map-delivery_at :
      (of : Entry → List ℕ) (js : List KeyId)
      → All (Ready P now es) js
      → map (delivery_at of fs) js ≡ map (delivery_at of es) js
  map-delivery_at of [] r = refl
  map-delivery_at of (j ∷ js) r = cc (delivery_at_unlapsed of j r.0, map-delivery_at of js r.1)

  -- What goes out is what the entries held before the call.
  pub delivering :
      (of : Entry → List ℕ)
      → (gs : Dict KeyId Entry) × (deliver of f ids fs ≡ (gs, ok (map (delivery_at of es) ids)))
        × Pointwise Step es gs
        × All (Moved f P es gs) ids
  delivering of =
      let (gs, done, steps, moved) = marking in
      (
        gs,
        deliver-adjust_each of f ids fs gs distinct done
            ∙ ap (λ (ds : List Delivery). (gs, ok ds)) (map-delivery_at of ids ready),
        steps,
        moved,
      )
