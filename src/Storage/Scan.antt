-- ===== src/Storage/Scan.antt =====
-- The scan of `ReserveKeys` against its specification: the first `count` keys on offer.
use mathlib.Core.Path.{fun_ext}
use mathlib.Core.List.{append_assoc, append-nil}
use transeuroogs_kms.Common.{
  subst, Bool-cases, ℕ, zero, suc, ◌+◌, ◌≡◌, refl, inl, inr, Bool, true, false, Option, none, some,
  List, [], ◌∷◌, ◌++◌, arith, nat_eq, text_eq_instance, All, All-map, ◌-◌, ◌<◌, ◌∙◌, length,
  length-append, ap,
}
use transeuroogs_kms.Common.Dict.{Dict, lookup, adjust}
use transeuroogs_kms.Core.Errors.{ok}
use transeuroogs_kms.Core.Id.{KeyId}
use transeuroogs_kms.Core.Key.{Association}
use transeuroogs_kms.Storage.{Entry, expire, scan, offers}
use transeuroogs_kms.Storage.Lapse.{
  Lapses, Lapses-refl, Lapses-trans, Lapses-adjust, fresh_at, fresh_at-adjust,
}
use transeuroogs_kms.Storage.Checks.{Known, Known-adjust}

-- The first `n` elements that pass a test.
unfoldable pub firsts {ℓ} : {A : Type ℓ} → ℕ → (A → Bool) → List A → List A
firsts zero p xs = []
firsts (suc n) p [] = []
firsts (suc n) p (x ∷ xs) = elim (p x) [ true ↦ x ∷ firsts n p xs | false ↦ firsts (suc n) p xs ]

test_entry : Association → Option Entry → Bool
test_entry a none = false
test_entry a (some e) = offers a e

-- The key of `id` is on offer to the pair `a` at the time `now`.
unfoldable pub offered : Association → ℕ → Dict KeyId Entry → KeyId → Bool
unfolding test_entry
offered a now es id = test_entry a (fresh_at now es id)

offered-adjust :
    (a : Association) (now : ℕ) (es : Dict KeyId Entry) (id : KeyId)
    → offered a now (adjust id (expire now) es) ≡ offered a now es
unfolding offered
offered-adjust a now es id = fun_ext λ j. ap (test_entry a) (fresh_at-adjust now es id j)

offered_found :
    (a : Association) (now : ℕ) (es : Dict KeyId Entry) (id : KeyId) (e : Entry)
    → lookup id es ≡ some e
    → offered a now es id ≡ offers a (expire now e)
unfolding offered fresh_at
offered_found a now es id e h = rw (h, fresh_at)

module _ (a : Association) (wanted now : ℕ) where
  -- What the scan returns from `order` on, with `n + 1` ids still to find by the test `p`.
  Finds : ℕ → (KeyId → Bool) → List KeyId → List KeyId → Dict KeyId Entry → Type 0
  Finds n p order ids es =
      (fs : Dict KeyId Entry) × (scan a wanted now order ids es
        ≡ ok (fs, ids ++ firsts (suc n) p order))
      × Lapses now es fs

  scan_miss :
      (n : ℕ) (p : KeyId → Bool) (id : KeyId) (order ids : List KeyId) (es : Dict KeyId Entry)
      (e : Entry)
      → lookup id es ≡ some e
      → offers a (expire now e) ≡ false
      → p id ≡ false
      → Finds n p order ids (adjust id (expire now) es)
      → Finds n p (id ∷ order) ids es
  unfolding Finds scan firsts
  scan_miss n p id order ids es e found miss out (fs, done, lapses) = (
    fs,
    rw (found, scan, miss, out, firsts) done,
    Lapses-trans now es _ fs (Lapses-adjust now id es) lapses,
  )

  scan_last :
      (p : KeyId → Bool) (id : KeyId) (order ids : List KeyId) (es : Dict KeyId Entry) (e : Entry)
      → lookup id es ≡ some e
      → offers a (expire now e) ≡ true
      → p id ≡ true
      → length ids + 1 ≡ wanted
      → Finds 0 p (id ∷ order) ids es
  unfolding Finds scan firsts
  scan_last p id order ids es e found hit inside h =
      let full : nat_eq (length (ids ++ id ∷ [])) wanted ≡ true =
        ground (arith, length-append ids (id ∷ [])) in
      (
        adjust id (expire now) es,
        rw (found, scan, hit, full, inside, firsts),
        Lapses-adjust now id es,
      )

  scan_more :
      (n : ℕ) (p : KeyId → Bool) (id : KeyId) (order ids : List KeyId) (es : Dict KeyId Entry)
      (e : Entry)
      → lookup id es ≡ some e
      → offers a (expire now e) ≡ true
      → p id ≡ true
      → length ids + suc (suc n) ≡ wanted
      → Finds n p order (ids ++ id ∷ []) (adjust id (expire now) es)
      → Finds (suc n) p (id ∷ order) ids es
  unfolding Finds scan firsts
  scan_more n p id order ids es e found hit inside h (fs, done, lapses) =
      let short : nat_eq (length (ids ++ id ∷ [])) wanted ≡ false =
        ground (arith, length-append ids (id ∷ [])) in
      (
        fs,
        rw (found, scan, hit, short, inside, firsts) (done ∙ rw append_assoc),
        Lapses-trans now es _ fs (Lapses-adjust now id es) lapses,
      )

  scan_hit :
      (n : ℕ) (p : KeyId → Bool) (id : KeyId) (order ids : List KeyId) (es : Dict KeyId Entry)
      (e : Entry)
      → lookup id es ≡ some e
      → offers a (expire now e) ≡ true
      → p id ≡ true
      → length ids + suc n ≡ wanted
      → ((m : ℕ) → n ≡ suc m → Finds m p order (ids ++ id ∷ []) (adjust id (expire now) es))
      → Finds n p (id ∷ order) ids es
  scan_hit zero p id order ids es e found hit inside h rest =
      scan_last p id order ids es e found hit inside (omega arith)
  scan_hit (suc n) p id order ids es e found hit inside h rest =
      scan_more n p id order ids es e found hit inside h (rest n refl)

  scan-Finds :
      (n : ℕ) (p : KeyId → Bool) (order ids : List KeyId) (es : Dict KeyId Entry)
      → offered a now es ≡ p
      → length ids + suc n ≡ wanted
      → All (Known es) order
      → Finds n p order ids es
  scan-Finds n p [] ids es q h k =
      unfold Finds scan firsts in (es, rw append-nil, Lapses-refl now es)
  scan-Finds n p (id ∷ order) ids es q h ((e, found), k) =
      let test : p id ≡ offers a (expire now e) = rw (← q) (offered_found a now es id e found) in
      let q' = offered-adjust a now es id ∙ q in
      let known = All-map _ _ (Known-adjust (expire now) es id) order k in
      elim (Bool-cases (offers a (expire now e))) [
        | inr miss ↦
            scan_miss n p id order ids es e found miss (test ∙ miss)
              (scan-Finds n p order ids (adjust id (expire now) es) q' h known)
        | inl hit ↦ scan_hit n p id order ids es e found hit (test ∙ hit) h (λ m s.
            scan-Finds m p order (ids ++ id ∷ []) (adjust id (expire now) es) q'
              (omega (arith, length-append ids (id ∷ []))) known)
      ]

  -- The scan finds the first keys on offer in the order of their arrival, as many as are wanted
  -- or as there are; it does nothing else than expire entries.
  pub scan-firsts :
      (order : List KeyId) (es : Dict KeyId Entry)
      → 0 < wanted
      → All (Known es) order
      → (fs : Dict KeyId Entry) × (scan a wanted now order [] es
          ≡ ok (fs, firsts wanted (offered a now es) order))
        × Lapses now es fs
  unfolding Finds
  scan-firsts order es h k =
      let e : suc (wanted - 1) ≡ wanted = omega arith in
      subst
        (λ (w : ℕ).
          (fs : Dict KeyId Entry) × (scan a wanted now order [] es
            ≡ ok (fs, firsts w (offered a now es) order))
          × Lapses now es fs)
        e (scan-Finds (wanted - 1) (offered a now es) order [] es refl (omega arith) k)
