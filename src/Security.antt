-- ===== src/Security.antt =====
-- src/internal/security/identity.go: the application that a connection belongs to.
use transeuroogs_kms.Common.{
  Option, none, some, List, [], ◌∷◌, Text, text_eq_instance, nat_eq, length, if◌then◌else◌,
}
use transeuroogs_kms.Common.Dict.{Dict, lookup}

-- `ok && sae != ""`
unfoldable pub named : Option Text → Option Text
named none = none
named (some sae) = if nat_eq (length sae) 0 then none else some sae

-- `uris` are the URIs of the leaf of the first verified chain, `none` when there is no such chain.
unfoldable pub sae_identity : Option (List Text) → Dict Text Text → Option Text
unfolding named
sae_identity (some (uri ∷ [])) identities = named (lookup uri identities)
sae_identity _ identities = none
