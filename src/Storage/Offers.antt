-- ===== src/Storage/Offers.antt =====
-- `Inventory`: its count is the number of keys that a reservation could take.
use transeuroogs_kms.Common.{
  subst, Bool-cases, ℕ, ◌≤◌, ◌<◌, ◌≡◌, refl, inl, inr, true, false, some, List, [], ◌∷◌, arith,
  if◌then◌else◌, text_eq_instance, text_eq_iff, All-of_contains, ◌∙◌, sym, ap, Distinct, contains,
  count, leb, count-congr,
}
use transeuroogs_kms.Common.Dict.{Dict, keys, lookup}
use transeuroogs_kms.Core.Errors.{ok, err, unavailable}
use transeuroogs_kms.Core.Id.{KeyId}
use transeuroogs_kms.Core.Key.{Association, valid_association, max_batch}
use transeuroogs_kms.Storage.{Entry, Memory, expire, offers, expire_all, inventory, reserve_keys}
use transeuroogs_kms.Core.Token.{fresh_token}
use transeuroogs_kms.Storage.Lapse.{Lapses, fresh_at}
use transeuroogs_kms.Storage.Scan.{offered}
use transeuroogs_kms.Storage.Reserve.{picks, reserve_keys_short, reserve_keys_enough}
use transeuroogs_kms.Storage.Invariant.{Inv}

pub expire_all-Lapses : (now : ℕ) (es : Dict KeyId Entry) → Lapses now es (expire_all now es)
unfolding expire_all
expire_all-Lapses now [] = tt
expire_all-Lapses now (p ∷ es) = (refl, record { lapse = inr refl }, expire_all-Lapses now es)

module _ (a : Association) (now : ℕ) where
  offered_tail :
      (k : KeyId) (e : Entry) (es : Dict KeyId Entry) (js : List KeyId)
      → contains js k ≡ false
      → count (offered a now ((k, e) ∷ es)) js ≡ count (offered a now es) js
  unfolding offered fresh_at lookup contains
  offered_tail k e es js out =
      count-congr _ _ js (All-of_contains _ js (λ j c. ground (arith, text_eq_iff k j, out, c)))

  count-expire_all :
      (es : Dict KeyId Entry)
      → Distinct (keys es)
      → count (λ p. offers a p.1) (expire_all now es) ≡ count (offered a now es) (keys es)
  unfolding count expire_all
  count-expire_all [] d = refl
  count-expire_all ((k, e) ∷ es) d =
      let here : offered a now ((k, e) ∷ es) k ≡ offers a (expire now e) =
        unfold offered fresh_at lookup in ground (arith, text_eq_iff k k) in
      ground (arith, here, offered_tail k e es (keys es) d.0, count-expire_all es d.1)

pub available-offered :
    (m : Memory) (a : Association) (now : ℕ)
    → Inv m
    → (inventory m a now).1.available ≡ count (offered a now m.entries) m.order
unfolding inventory
available-offered m a now v =
    count-expire_all a now m.entries (subst (λ order. Distinct order) v.ordered v.distinct)
    ∙ ap (count (offered a now m.entries)) (sym v.ordered)

module _ (m : Memory) (a : Association) (n now : ℕ) (draws : List KeyId) (token : KeyId)
    (v : Inv m) where
  -- In a sound repository, a request for 1 to 128 keys for a valid pair, with an unused token among
  -- the draws, succeeds exactly when the inventory of the pair at that time has as many: it then
  -- takes the pair's first keys on offer in the order of their
  -- arrival under a token that was not in use, and otherwise it reports unavailable material.
  pub reserve_keys-inventory :
      valid_association a ≡ true
      → 0 < n
      → n ≤ max_batch
      → fresh_token draws m.reservations ≡ some token
      → (reserve_keys m a n now draws).1 ≡ (
          if leb n (inventory m a now).1.available
          then ok (record { token = token; ids = picks m a n now })
          else err unavailable)
  reserve_keys-inventory valid lo hi drawn =
      rw (available-offered m a now v)
        (elim (Bool-cases (leb n (count (offered a now m.entries) m.order))) [
          | inl enough ↦
              let (gs, done, _, _) =
                reserve_keys_enough m a n now draws v valid lo hi token drawn (ground arith) in
              rw (done, enough)
          | inr short ↦
              let (fs, done, _) = reserve_keys_short m a n now draws v valid lo hi (ground arith) in
              rw (done, short)
        ])
