-- ===== src/Relay/Interface.antt =====
-- The engine fills the interface of the repositories and keeps what it promises.
use transeuroogs_kms.Common.{ℕ, ◌≡◌, refl, ap, subst, Bool, Text, List, [], ◌∷◌, All, All-zip}
use transeuroogs_kms.Core.Errors.{ok, err, panic}
use transeuroogs_kms.Core.Id.{KeyId}
use transeuroogs_kms.Core.Key.{Association, Delivery}
use transeuroogs_kms.Core.Repository.{Repository, Once, Side, master_side, slave_side, ids_of}
use transeuroogs_kms.Core.Repository
use transeuroogs_kms.Etsi020.{ExternalKey, Extension}
use transeuroogs_kms.Etsi020.Http.{Backend}
use transeuroogs_kms.Relay.{Engine}
use transeuroogs_kms.Relay.Accept.{accept}
use transeuroogs_kms.Relay.Acks.{acknowledge}
use transeuroogs_kms.Relay.Withdrawals.{void}
use transeuroogs_kms.Relay.Serve.{
  Outcome, reserve_keys, consume_reservation, consume_peer_keys, invalidate_key, delivered_ids,
}
use transeuroogs_kms.Relay.Sources.{store_key}
use transeuroogs_kms.Relay.Views.{metadata, inventory}
use transeuroogs_kms.Relay.Moves.{Sound, Moves, Keeps, Moves-refl}
use transeuroogs_kms.Relay.Transitions.{
  reserve_keys-Keeps, consume_reservation-Keeps, consume_peer_keys-Keeps,
}
use transeuroogs_kms.Relay.Gives.{consume_reservation-Gives, consume_peer_keys-Gives}
use transeuroogs_kms.Relay.Spent.{Gone, Gone-Grows, Hands-Gives, handed_by, Hands}

-- What an operation of the engine meets: whether the journal is saved, readings of the clock and
-- draws.
pub record Moment : Type 0 where
  pub saved : Bool
  pub clock : KeyId → ℕ
  pub now : ℕ
  pub later : ℕ
  pub token : KeyId
  pub draw : Text → KeyId

abbrev pub engine : (ExternalKey → Association → Extension → Text) → Repository Moment Engine
engine hash = record {
  store_key = λ k t e. store_key hash t.saved e k t.now;
  reserve_keys = λ a n t e. reserve_keys t.saved t.clock t.token e a n;
  consume_reservation = λ a token t e. consume_reservation t.saved t.clock e a token;
  consume_peer_keys = λ a ids t e. consume_peer_keys t.saved t.clock e a ids;
  invalidate_key = λ id t e. invalidate_key t.saved t.draw e id;
  metadata = λ id t e. (e, metadata t.now t.later e id);
  inventory = λ a t e. (e, inventory t.clock e a);
}

abbrev SoundEngine : Engine → Type 0
SoundEngine e = Sound e.ledger.records

-- A record serves one side only.
abbrev GoneAt : Side → Engine → KeyId → Type 0
GoneAt side e id = Gone e.ledger.records id

Moves-engine :
    (e e' : Engine)
    → Moves e.ledger.records e'.ledger.records
    → Repository.Moves SoundEngine GoneAt e e'
Moves-engine e e' m = record {
  good = λ v. (m v).0;
  gone = λ side id v g. Gone-Grows e.ledger.records e'.ledger.records id (m v).1 g;
}

ids_eq : (ds : List Delivery) → delivered_ids ds ≡ ids_of ds
unfolding delivered_ids
ids_eq [] = refl
ids_eq (d ∷ ds) = ap (λ x. d.id ∷ x) (ids_eq ds)

handed-engine :
    (side : Side) (e : Engine) (o : Outcome (List Delivery))
    → Hands e.ledger.records o.0.ledger.records (handed_by o.1)
    → Repository.Hands GoneAt side e o
unfolding handed_by
handed-engine side e (e', ok ds) h =
    subst (All (λ id. GoneAt side e' id × ¬ (GoneAt side e id))) (ids_eq ds) (
      All-zip _ _ _ (λ id after before. (after, before)) (delivered_ids ds) h.gone_after
        h.not_before)
handed-engine side e (e', err x) h = tt
handed-engine side e (e', panic) h = tt

pub engine-Once : (hash : ExternalKey → Association → Extension → Text) → Once (engine hash)
unfolding Keeps
engine-Once hash = record {
  Good = SoundEngine;
  Gone = GoneAt;
  reserving = λ a n t e. Moves-engine e _ (reserve_keys-Keeps t.saved t.clock t.token e a n);
  consuming = λ a token t e. Moves-engine e _ (consume_reservation-Keeps t.saved t.clock e a token);
  consuming_peer = λ a ids t e. Moves-engine e _ (consume_peer_keys-Keeps t.saved t.clock e a ids);
  counting = λ a t e. Moves-engine e e (Moves-refl e.ledger.records);
  to_master = λ a token t e v.
      let o = consume_reservation t.saved t.clock e a token in
      handed-engine master_side e o
        (Hands-Gives e o (consume_reservation-Gives t.saved t.clock e a token v));
  to_slave = λ a ids t e v.
      let o = consume_peer_keys t.saved t.clock e a ids in
      handed-engine slave_side e o
        (Hands-Gives e o (consume_peer_keys-Gives t.saved t.clock e a ids v));
}

-- What a message of a peer meets.
pub record Arrival : Type 0 where
  pub saved : Bool
  pub clock : KeyId → ℕ → ℕ
  pub draw : KeyId → Text → KeyId

-- The engine behind the server between the systems.
abbrev pub backend : (ExternalKey → Association → Extension → Text) → Backend Arrival Engine
backend hash = record {
  accept = λ peer x t e. accept hash t.saved t.clock t.draw e peer x;
  acknowledge = λ peer x t e. acknowledge t.saved (λ id. t.clock id 0) t.draw e peer x;
  void = λ peer x t e. void t.saved t.clock t.draw e peer x;
}
