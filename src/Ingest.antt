-- ===== src/Ingest.antt =====
-- src/internal/ingest/repository.go: the persistent repository of keys that an upstream service
-- allocates. An operation holds the mutex throughout, calls of the service included, so it is one
-- step; it changes the state in place, and what it changed stays when it fails.
pub mod Monad
pub mod Serve
pub mod Recovery
pub mod Ended
pub mod Steps
pub mod Begin
pub mod Keeps
pub mod Trace
pub mod Retrieval
pub mod Once
pub mod Fits
pub mod Batches
pub mod Bounds
pub mod Bounded
pub mod Limits
pub mod Whole
pub mod Batch
pub mod Exchange
pub mod Failures
pub mod Interface
mod Examples
use transeuroogs_kms.Common.{ℕ, Bool, List, Text}
use transeuroogs_kms.Common.Dict.{Dict}
use transeuroogs_kms.Core.Id.{KeyId}
use transeuroogs_kms.Core.Key.{Association, State}
use transeuroogs_kms.Upstream.{Config}

-- The type `key`.
pub record Stored : Type 0 where
  pub id : KeyId
  pub material : List ℕ
  pub state : State
  pub created : ℕ
  pub expires : ℕ

-- The words of `Status`.
pub data Status : Type 0 where
  pending stored consumed uncertain : Status

pub record Request : Type 0 where
  pub ids : List KeyId
  pub count : ℕ
  pub status : Status
  pub started : ℕ
  pub expires : ℕ

-- The type `state`, without the version and the binding that only `Open` reads.
pub record Book : Type 0 where
  pub attempts : ℕ
  pub requests : Dict KeyId Request
  pub keys : Dict KeyId Stored

-- `disk` is what the journal gives back when the repository is opened again.
pub record Repository : Type 0 where
  pub cfg : Config
  pub pair : Association
  pub capacity : ℕ
  pub book : Book
  pub disk : Book
  pub broken : Bool

-- How a call of `journal.Save` ends: with the state on the disk; with an error and the old state
-- there; or with an error after the new state was put there.
pub data Saved : Type 0 where
  kept lost torn : Saved

-- What an operation meets: the readings of the clock (for each key in `expire`, in `begin` or in
-- the test of a reservation, and in `validate`), the draws, and the answers of the journal.
pub record Moment : Type 0 where
  pub sweep : KeyId → ℕ
  pub sweep_saved : Saved
  pub now : ℕ
  pub draws : List KeyId
  pub begin_saved : Saved
  pub later : ℕ
  pub saved : Saved
