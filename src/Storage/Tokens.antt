-- ===== src/Storage/Tokens.antt =====
-- The token loop of `ReserveKeys` ends when there are more distinct draws than reservations.
use transeuroogs_kms.Common.{
  Option-cases, ◌<◌, ◌≡◌, refl, inl, inr, false, none, some, List, [], ◌∷◌, arith, text_eq_instance,
  text_eq_iff, length, Distinct, contains,
}
use transeuroogs_kms.Common.Dict.{Dict, lookup, erase, lookup-erase, length-erase-lt}
use transeuroogs_kms.Core.Id.{KeyId}
use transeuroogs_kms.Core.Token.{fresh_token}

-- A token outside the draws does not change which of them is taken.
fresh_token-erase {ℓ} :
    {V : Type ℓ} (t : KeyId) (draws : List KeyId) (held : Dict KeyId V)
    → contains draws t ≡ false
    → fresh_token draws (erase t held) ≡ fresh_token draws held
unfolding fresh_token contains
fresh_token-erase t [] held out = refl
fresh_token-erase t (u ∷ draws) held out =
    ground (
      arith,
      lookup-erase t u held,
      text_eq_iff u t,
      text_eq_iff t u,
      fresh_token-erase t draws held,
    )

-- More distinct draws than there are reservations end the loop with a token that is none of them.
pub fresh_token-enough {ℓ} :
    {V : Type ℓ} (draws : List KeyId) (held : Dict KeyId V)
    → Distinct draws
    → length held < length draws
    → (token : KeyId) × (fresh_token draws held ≡ some token)
unfolding fresh_token
fresh_token-enough [] held d h = absurd (omega arith)
fresh_token-enough (t ∷ draws) held d h = elim (Option-cases (lookup t held)) [
  | inl e ↦ (t, rw (e, fresh_token))
  | inr (v, e) ↦
      let (u, drawn) =
        fresh_token-enough draws (erase t held) d.1 (omega (arith, length-erase-lt t held v e)) in
      (u, rw (e, fresh_token) (rw (← fresh_token-erase t draws held d.0) drawn))
]

-- A token that was drawn is not in use.
pub fresh_token-unused {ℓ} :
    {V : Type ℓ} (draws : List KeyId) (held : Dict KeyId V) (token : KeyId)
    → fresh_token draws held ≡ some token
    → lookup token held ≡ none
unfolding fresh_token
fresh_token-unused [] held token h = cc
fresh_token-unused (t ∷ draws) held token h = elim (Option-cases (lookup t held)) [
  | inl e ↦ ground arith
  | inr (v, e) ↦ fresh_token-unused draws held token (rw (e, fresh_token) at h)
]
