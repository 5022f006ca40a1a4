-- ===== src/Upstream.antt =====
-- src/internal/upstream/config.go: the profile of the segmented service. What the parser of URLs
-- says of a text is a parameter: `https_ok` of the service's address, `urn_ok` of an identity.
use transeuroogs_kms.Common.{
  ℕ, Bool, false, not, ◌&&◌, ◌||◌, [], ◌∷◌, Text, ascii, ◌==◌, text_eq_instance, nat_eq, ltb,
  length, if◌then◌else◌, Option, none, some,
}
use transeuroogs_kms.Core.Errors.{Error, invalid}
use transeuroogs_kms.Core.Key.{valid_association}

abbrev pub profile_name : Text
profile_name = ascii "synthetic-segmented-v1"

abbrev pub master : Text
master = ascii "master"

abbrev pub slave : Text
slave = ascii "slave"

pub record Config : Type 0 where
  pub profile : Text
  pub url : Text
  pub server_identity : Text
  pub gateway_identity : Text
  pub gateway_master : Text
  pub gateway_slave : Text
  pub role : Text
  pub remote_kme_id : Text
  pub pki_dir : Text
  pub certificate_name : Text
  pub state_dir : Text
  pub lifetime_seconds : ℕ

-- `strings.ContainsAny(s, "/\\")`
has_separator : Text → Bool
has_separator [] = false
has_separator (c ∷ s) = nat_eq c 47 || nat_eq c 92 || has_separator s

-- `none` is a nil error.
unfoldable pub validate : (Text → Bool) → (Text → Bool) → Config → Option Error
unfolding has_separator
validate https_ok urn_ok c =
    if not (https_ok c.url)
    then some invalid
    else if not (c.profile == profile_name)
        || (not (c.role == master) && not (c.role == slave))
        || nat_eq (length c.state_dir) 0
        || nat_eq (length c.pki_dir) 0
        || nat_eq (length c.certificate_name) 0
        || has_separator c.certificate_name
        || c.certificate_name == ascii "."
        || c.certificate_name == ascii ".."
        || nat_eq (length c.remote_kme_id) 0
        || ltb c.lifetime_seconds 1
        || ltb 86400 c.lifetime_seconds
    then some invalid
    else if not (valid_association (record { master = c.gateway_master; slave = c.gateway_slave }))
    then some invalid
    else if not (urn_ok c.server_identity) || not (urn_ok c.gateway_identity)
    then some invalid
    else none
