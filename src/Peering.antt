-- ===== src/Peering.antt =====
-- src/internal/peering/config.go: the static routing policy.
pub mod Validate
pub mod Routes
mod Examples
use transeuroogs_kms.Common.{Text, Bool, List, ascii, ◌==◌, text_eq_instance, if◌then◌else◌}
use transeuroogs_kms.Common.Dict.{Dict}

pub record Peer : Type 0 where
  pub url : Text
  pub identity : Text
  pub mode : Text
  pub incoming : Bool

pub record Config : Type 0 where
  pub public_url : Text
  pub identity : Text
  pub state_dir : Text
  pub local_saes : List Text
  pub peers : Dict Text Peer
  pub routes : Dict Text (List Text)
  pub target_kmes : Dict Text Text

abbrev pub standard : Text
standard = ascii "etsi020"

abbrev pub lab_relay : Text
lab_relay = ascii "lab-relay"

unfoldable pub base : Text → Text
base mode = if mode == lab_relay then ascii "/lab/v1/relay/keys" else ascii "/kmapi/v1/ext_keys"

unfoldable pub versions : Text → Text
versions mode = if mode == lab_relay then ascii "/lab/versions" else ascii "/kmapi/versions"
