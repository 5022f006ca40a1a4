-- ===== src/Relay/Trace.antt =====
-- Any sequence of the engine's transactions, each with its clock, its draws and the answer of
-- the journal; the worker's transactions may come anywhere between the others.
use transeuroogs_kms.Common.{ℕ, Bool, List, [], ◌∷◌, Text}
use transeuroogs_kms.Core.Id.{KeyId}
use transeuroogs_kms.Core.Key.{Association, Key}
use transeuroogs_kms.Etsi020.{ExternalKey, Extension, Transfer, Ack, Void}
use transeuroogs_kms.Relay.{Engine}
use transeuroogs_kms.Relay.Serve.{
  reserve_keys, consume_reservation, consume_peer_keys, invalidate_key,
}
use transeuroogs_kms.Relay.Sources.{store_key}
use transeuroogs_kms.Relay.Accept.{accept}
use transeuroogs_kms.Relay.Acks.{acknowledge}
use transeuroogs_kms.Relay.Withdrawals.{void}
use transeuroogs_kms.Relay.Outbox.{expire_due, settle_job, delay, commit_send}
use transeuroogs_kms.Relay.Moves.{Sound, Grows, Keeps, Moves, Moves-refl, Moves-trans}
use transeuroogs_kms.Relay.Transitions.{
  reserve_keys-Keeps, consume_reservation-Keeps, consume_peer_keys-Keeps, invalidate_key-Keeps,
  expire_due-Keeps, settle_job-Keeps, delay-Keeps, commit_send-Keeps,
}
use transeuroogs_kms.Relay.Arrivals.{store_key-Keeps, accept-Keeps}
use transeuroogs_kms.Relay.Answers.{acknowledge-Keeps, void-Keeps}

pub data Call : Type 0 where
  store : Key → ℕ → Call
  reserve : Association → ℕ → (KeyId → ℕ) → KeyId → Call
  consume : Association → KeyId → (KeyId → ℕ) → Call
  consume_peer : Association → List KeyId → (KeyId → ℕ) → Call
  invalidate : KeyId → (Text → KeyId) → Call
  transfer : Text → Transfer → (KeyId → ℕ → ℕ) → (KeyId → Text → KeyId) → Call
  acks : Text → List Ack → (KeyId → ℕ) → (KeyId → Text → KeyId) → Call
  withdrawal : Text → Void → (KeyId → ℕ → ℕ) → (KeyId → Text → KeyId) → Call
  expiry : (KeyId → ℕ) → (KeyId → ℕ) → (KeyId → Text → KeyId) → Call
  settle : Bool → ℕ → KeyId → Call
  put_back : ℕ → KeyId → Call
  commit : ℕ → ℕ → KeyId → Text → Call

-- `hash` is the digest of a transfer, and the Boolean of a call whether the journal was saved.
module _ (hash : ExternalKey → Association → Extension → Text) where
  unfoldable pub step : Engine → Bool × Call → Engine
  step e (saved, store k now) = (store_key hash saved e k now).0
  step e (saved, reserve a n clock draw) = (reserve_keys saved clock draw e a n).0
  step e (saved, consume a token clock) = (consume_reservation saved clock e a token).0
  step e (saved, consume_peer a ids clock) = (consume_peer_keys saved clock e a ids).0
  step e (saved, invalidate id draw) = (invalidate_key saved draw e id).0
  step e (saved, transfer peer t clock draw) = (accept hash saved clock draw e peer t).0
  step e (saved, acks peer answers clock draw) = (acknowledge saved clock draw e peer answers).0
  step e (saved, withdrawal peer v clock draw) = (void saved clock draw e peer v).0
  step e (saved, expiry first clock draw) = (expire_due saved first clock draw e).0
  step e (saved, settle answered again id) = (settle_job saved answered again e id).0
  step e (saved, put_back again id) = (delay saved again e id).0
  step e (saved, commit now again id peer) = (commit_send saved now again e id peer).0

  unfoldable pub run : Engine → List (Bool × Call) → Engine
  run e [] = e
  run e (c ∷ cs) = run (step e c) cs

  pub step-Moves : (e : Engine) (c : Bool × Call) → Moves e.ledger.records (step e c).ledger.records
  unfolding step Keeps
  step-Moves e (saved, store k now) = store_key-Keeps hash saved e k now
  step-Moves e (saved, reserve a n clock draw) = reserve_keys-Keeps saved clock draw e a n
  step-Moves e (saved, consume a token clock) = consume_reservation-Keeps saved clock e a token
  step-Moves e (saved, consume_peer a ids clock) = consume_peer_keys-Keeps saved clock e a ids
  step-Moves e (saved, invalidate id draw) = invalidate_key-Keeps saved draw e id
  step-Moves e (saved, transfer peer t clock draw) = accept-Keeps hash saved clock draw e peer t
  step-Moves e (saved, acks peer answers clock draw) =
      acknowledge-Keeps saved clock draw e peer answers
  step-Moves e (saved, withdrawal peer v clock draw) = void-Keeps saved clock draw e peer v
  step-Moves e (saved, expiry first clock draw) = expire_due-Keeps saved first clock draw e
  step-Moves e (saved, settle answered again id) = settle_job-Keeps saved answered again e id
  step-Moves e (saved, put_back again id) = delay-Keeps saved again e id
  step-Moves e (saved, commit now again id peer) = commit_send-Keeps saved now again e id peer

  run-Moves :
      (e : Engine) (cs : List (Bool × Call)) → Moves e.ledger.records (run e cs).ledger.records
  unfolding run
  run-Moves e [] = Moves-refl e.ledger.records
  run-Moves e (c ∷ cs) =
      Moves-trans e.ledger.records (step e c).ledger.records _ (step-Moves e c)
        (run-Moves (step e c) cs)

  -- From sound records, any sequence of transactions, whether their saves succeed or fail, ends
  -- with sound records: a record that is withdrawn or delivered holds no material, and a
  -- withdrawn one is not ready. It loses no record, and each one keeps its pair, role, sender,
  -- digest and expiry, stays sent, delivered and withdrawn once it is, and has the material it
  -- had or none.
  pub run-Sound-Grows :
      (e : Engine) (cs : List (Bool × Call))
      → Sound e.ledger.records
      → Sound (run e cs).ledger.records × Grows e.ledger.records (run e cs).ledger.records
  run-Sound-Grows e cs v = run-Moves e cs v
