-- ===== src/Etsi020.antt =====
-- src/internal/etsi020/models.go: the messages between key management systems.
pub mod Base64
pub mod Bytes
pub mod Checked
pub mod Http
pub mod Admission
pub mod Shapes
pub mod Strict
mod Examples
pub mod Validate
use transeuroogs_kms.Common.{Text, Bool, true, false, Option, List, []}
use transeuroogs_kms.Common.Dict.{Dict}
use transeuroogs_kms.Core.Id.{KeyId}

-- Raw JSON by name; `none` is a nil map.
abbrev pub Extension : Type 0
Extension = Option (Dict Text Text)

pub record ExternalKey : Type 0 where
  pub id : KeyId
  pub value : Text
  pub extension : Extension

pub record Transfer : Type 0 where
  pub keys : List ExternalKey
  pub initiator : Text
  pub targets : List Text
  pub callback : Text
  pub mandatory : Extension
  pub optional : Extension

pub record KeyRef : Type 0 where
  pub id : KeyId
  pub extension : Extension

-- The words of the profile, or another text.
pub data AckStatus : Type 0 where
  relayed failed voided failed_to_void key_not_present : AckStatus
  other : Text → AckStatus

pub record Ack : Type 0 where
  pub ids : Option (List KeyRef)
  pub status : AckStatus
  pub initiator : Text
  pub targets : List Text
  pub message : Text
  pub extension : Extension

pub record Void : Type 0 where
  pub ids : Option (List KeyId)
  pub initiator : Text
  pub targets : List Text
  pub callback : Text
  pub all : Bool
  pub extension : Extension

-- Two of the five words are equal; other texts were refused before any comparison.
unfoldable pub status_eq : AckStatus → AckStatus → Bool
status_eq relayed relayed = true
status_eq failed failed = true
status_eq voided voided = true
status_eq failed_to_void failed_to_void = true
status_eq key_not_present key_not_present = true
status_eq _ _ = false
