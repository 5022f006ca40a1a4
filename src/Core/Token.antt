-- ===== src/Core/Token.antt =====
-- memory.go and repository.go draw a token with `NewID` until it is not a key of their map.
use transeuroogs_kms.Common.{Option, none, some, List, [], ◌∷◌, text_eq_instance}
use transeuroogs_kms.Common.Dict.{Dict, lookup}
use transeuroogs_kms.Core.Id.{KeyId}

-- `draws` are the results of `NewID`; `none` says that all of them were in use.
unfoldable pub fresh_token {ℓ} : {V : Type ℓ} → List KeyId → Dict KeyId V → Option KeyId
fresh_token [] held = none
fresh_token (t ∷ draws) held =
    let rest = fresh_token draws held in elim (lookup t held) [ none ↦ some t | some _ ↦ rest ]
