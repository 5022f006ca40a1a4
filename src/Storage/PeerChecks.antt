-- ===== src/Storage/PeerChecks.antt =====
-- The first loop of `ConsumePeerKeys`.
use transeuroogs_kms.Common.{
  Bool-cases, Option-cases, ℕ, ◌≡◌, ◌≢◌, refl, inl, inr, true, List, [], ◌∷◌, arith,
  text_eq_instance, All, ◌∙◌, sym,
}
use transeuroogs_kms.Common.Dict.{Dict, lookup, adjust}
use transeuroogs_kms.Core.Errors.{ok, panic}
use transeuroogs_kms.Core.Id.{KeyId}
use transeuroogs_kms.Core.Key.{available, state_eq, Association, association_eq, association_eq_iff}
use transeuroogs_kms.Storage.{Entry, expire, check_peer}
use transeuroogs_kms.Storage.Lapse.{Lapses, Lapses-refl, Lapses-trans, Lapses-adjust}
use transeuroogs_kms.Storage.Checks.{
  Ready, IsOpenTo, All-Ready-adjust, All-Ready-of_adjust, state_eq_sound,
}

association-expire : (now : ℕ) (e : Entry) → (expire now e).association ≡ e.association
unfolding expire
association-expire now e = ground arith

module _ (a : Association) (now : ℕ) where
  pub check_peer-Lapses :
      (ids : List KeyId) (es : Dict KeyId Entry) → Lapses now es (check_peer a now ids es).0
  unfolding check_peer
  check_peer-Lapses [] es = Lapses-refl now es
  check_peer-Lapses (id ∷ ids) es = elim (Option-cases (lookup id es)) [
    | inl e ↦ rw (e, check_peer) (Lapses-refl now es)
    | inr (v, e) ↦ elim (Bool-cases (association_eq v.association a)) [
      | inl q ↦ elim (Bool-cases (state_eq (expire now v).slave_state available)) [
        | inl p ↦
            rw (e, check_peer, q, p)
              (Lapses-trans now es _ _ (Lapses-adjust now id es)
                (check_peer-Lapses ids (adjust id (expire now) es)))
        | inr p ↦ rw (e, check_peer, q, p) (Lapses-adjust now id es)
      ]
      | inr q ↦ rw (e, check_peer, q) (Lapses-refl now es)
    ]
  ]

  -- The check passes exactly when every id is there, belongs to the pair and is open to the peer.
  pub check_peer-ok :
      (ids : List KeyId) (es : Dict KeyId Entry)
      → (check_peer a now ids es).1 ≡ ok tt
      → All (Ready (IsOpenTo a) now es) ids
  unfolding check_peer
  check_peer-ok [] es h = tt
  check_peer-ok (id ∷ ids) es h = elim (Option-cases (lookup id es)) [
    | inl e ↦ absurd (ground arith)
    | inr (v, e) ↦ elim (Bool-cases (association_eq v.association a)) [
      | inl q ↦ elim (Bool-cases (state_eq (expire now v).slave_state available)) [
        | inl p ↦ (
          (v, e, (association-expire now v ∙ (association_eq_iff _ a).0 q, state_eq_sound _ _ p)),
          All-Ready-of_adjust (IsOpenTo a) now es id ids
              (check_peer-ok ids (adjust id (expire now) es) (ground arith)),
        )
        | inr p ↦ absurd (ground arith)
      ]
      | inr q ↦ absurd (ground arith)
    ]
  ]

  pub check_peer_complete :
      (ids : List KeyId) (es : Dict KeyId Entry)
      → All (Ready (IsOpenTo a) now es) ids
      → (check_peer a now ids es).1 ≡ ok tt
  unfolding check_peer state_eq
  check_peer_complete [] es h = refl
  check_peer_complete (id ∷ ids) es ((e, found, p), h) =
      let q : association_eq e.association a ≡ true =
        (association_eq_iff _ a).1 (sym (association-expire now e) ∙ p.0) in
      rw (found, check_peer, q, p.1)
        (check_peer_complete ids (adjust id (expire now) es)
          (All-Ready-adjust (IsOpenTo a) now es id ids h))

  -- A missing id is an error here, never a nil dereference.
  pub check_peer-ne-panic :
      (ids : List KeyId) (es : Dict KeyId Entry) → (check_peer a now ids es).1 ≢ panic
  unfolding check_peer
  check_peer-ne-panic [] es h = cc
  check_peer-ne-panic (id ∷ ids) es h =
      ground (arith, check_peer-ne-panic ids (adjust id (expire now) es))
