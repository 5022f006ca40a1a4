-- ===== src/Relay.antt =====
-- src/internal/relay/engine.go: the relay's persistent records of keys and its outbox.
-- A clock is the reading that a loop takes while it handles an id; the digest of a transfer is
-- the hash that the caller computed.
pub mod Voiding
pub mod Serve
pub mod Views
pub mod Sources
pub mod Accept
pub mod Acks
pub mod Withdrawals
pub mod Outbox
pub mod Forward
pub mod Moves
pub mod Transitions
pub mod Arrivals
pub mod Answers
pub mod Trace
pub mod Live
pub mod Gives
pub mod Spent
pub mod Handover
pub mod Routing
pub mod Interface
mod Examples
use transeuroogs_kms.Common.{
  ℕ, ◌*◌, ◌/◌, Bool, true, false, not, ◌&&◌, Option, none, some, List, [], ◌∷◌, Text, ltb, nat_eq,
  length,
}
use transeuroogs_kms.Common.Dict.{Dict}
use transeuroogs_kms.Core.Id.{KeyId}
use transeuroogs_kms.Core.Key.{Association, key_bits}
use transeuroogs_kms.Etsi020.{Extension, Ack}
use transeuroogs_kms.Peering.{Config}

pub data Role : Type 0 where
  source relay target : Role

unfoldable pub role_eq : Role → Role → Bool
role_eq source source = true
role_eq relay relay = true
role_eq target target = true
role_eq _ _ = false

-- The type `record`; sets of peers are lists, and the empty text is no peer and no token.
pub record Rec : Type 0 where
  pub id : KeyId
  pub pair : Association
  pub role : Role
  pub material : List ℕ
  pub digest : Text
  pub key_extension : Extension
  pub optional : Extension
  pub sender : Text
  pub next : Text
  pub candidates : List Text
  pub sent : Bool
  pub ready : Bool
  pub delivered : Bool
  pub token : KeyId
  pub created : ℕ
  pub expires : ℕ
  pub voiding : Bool
  pub void_failed : Bool
  pub void_pending : List Text
  pub void_requests : List Text
  pub unknown : Bool
  pub retry : ℕ

pub record AckJob : Type 0 where
  pub peer : Text
  pub ack : Ack
  pub retry : ℕ

-- The type `state`, without the version and the binding that only `Open` reads.
pub record Ledger : Type 0 where
  pub records : Dict KeyId Rec
  pub order : List KeyId
  pub cursor : Dict Text ℕ
  pub acks : Dict KeyId AckJob

pub record Engine : Type 0 where
  pub cfg : Config
  pub allowed : List Association
  pub capacity : ℕ
  pub ledger : Ledger
  pub broken : Bool

unfoldable pub usable : ℕ → Rec → Bool
usable now r =
    r.ready
    && not r.voiding
    && not r.delivered
    && ltb now r.expires
    && nat_eq (length r.material) (key_bits / 8)
