-- ===== src/Etsi014/Messages.antt =====
-- models.go: the messages of the interface. What an extension holds is opaque: the code only asks
-- how many there are and whether one is null.
use transeuroogs_kms.Common.{ℕ, Option, List, Text}
use transeuroogs_kms.Common.Dict.{Dict}

pub record Status : Type 0 where
  pub source_kme_id : Text
  pub target_kme_id : Text
  pub master_sae_id : Text
  pub slave_sae_id : Text
  pub key_size : ℕ
  pub stored_key_count : ℕ
  pub max_key_count : ℕ
  pub max_key_per_request : ℕ
  pub max_key_size : ℕ
  pub min_key_size : ℕ
  pub max_sae_id_count : ℕ

-- A JSON object as its members, `none` for null.
abbrev pub Extension : Type 0
Extension = Option (Dict Text Text)

-- The type `int`; `negsuc n` is - n - 1.
pub data ℤ : Type 0 where
  pos negsuc : ℕ → ℤ

pub record KeyRequest : Type 0 where
  pub number : Option ℤ
  pub size : Option ℤ
  pub additional_slave_sae_ids : List Text
  pub mandatory : List Extension
  pub optional : List Extension

pub record KeyValue : Type 0 where
  pub id : Text
  pub key : Text

abbrev pub KeyContainer : Type 0
KeyContainer = List KeyValue
