-- ===== src/Ingest/Interface.antt =====
-- The persistent repository fills the interface of the repositories and keeps what it promises.
use transeuroogs_kms.Common.{ℕ, refl, Option, List}
use transeuroogs_kms.Core.Errors.{Result, ok, err, panic}
use transeuroogs_kms.Core.Id.{KeyId}
use transeuroogs_kms.Core.Key.{Delivery}
use transeuroogs_kms.Core.Repository.{Repository, Once, Moves, Hands, Side, master_side, slave_side}
use transeuroogs_kms.Ingest.{Moment}
use transeuroogs_kms.Ingest
use transeuroogs_kms.Ingest.Serve.{
  store_key, reserve_keys, consume_reservation, consume_peer_keys, invalidate_key, metadata,
  inventory,
}
use transeuroogs_kms.Ingest.Steps.{Gone, Advances, Keeps}
use transeuroogs_kms.Ingest.Keeps.{
  reserve_keys-Keeps, consume_reservation-Keeps, consume_peer_keys-Keeps, inventory-Keeps,
}
use transeuroogs_kms.Ingest.Once.{Gives, consume_reservation-Gives, consume_peer_keys-Gives}

-- The segmented service, as its answers at one moment: to an allocation, to a retrieval, and the
-- number of keys that it reports.
pub record Provider : Type 0 where
  pub allocate : ℕ → Option (List Delivery)
  pub retrieve : List KeyId → Option (List Delivery)
  pub available : Option ℕ

abbrev pub persistent : Repository (Provider × Moment) Ingest.Repository
persistent = record {
  store_key = λ k t r. store_key k r;
  reserve_keys = λ a n t r. reserve_keys t.0.allocate t.1 a n r;
  consume_reservation = λ a token t r. consume_reservation t.1 a token r;
  consume_peer_keys = λ a ids t r. consume_peer_keys t.0.retrieve t.1 a ids r;
  invalidate_key = λ id t r. invalidate_key t.1 id r;
  metadata = λ id t r. metadata t.1 id r;
  inventory = λ a t r. inventory t.0.available t.1 r a;
}

-- Nothing is asked of the state.
Any : Ingest.Repository → Type 0
Any r = Unit {0}

-- A repository serves one side only.
EndedAt : Side → Ingest.Repository → KeyId → Type 0
EndedAt side r id = Gone r id

Advances-Moves : (r s : Ingest.Repository) → Advances r s → Moves Any EndedAt r s
unfolding Any EndedAt
Advances-Moves r s f = record { good = λ g. g; gone = λ side id g x. f id x }

Gives-Hands :
    (side : Side) (r : Ingest.Repository) (o : Ingest.Repository × Result (List Delivery))
    → Gives r o
    → Hands EndedAt side r o
unfolding EndedAt
Gives-Hands side r (s, ok ds) h = h s ds refl
Gives-Hands side r (s, err e) h = tt
Gives-Hands side r (s, panic) h = tt

pub persistent-Once : Once persistent
unfolding Keeps
persistent-Once = record {
  Good = Any;
  Gone = EndedAt;
  reserving = λ a n t r. Advances-Moves r _ (reserve_keys-Keeps t.0.allocate t.1 a n r);
  consuming = λ a token t r. Advances-Moves r _ (consume_reservation-Keeps t.1 a token r);
  consuming_peer =
      λ a ids t r. Advances-Moves r _ (consume_peer_keys-Keeps t.0.retrieve t.1 a ids r);
  counting = λ a t r. Advances-Moves r _ (inventory-Keeps t.0.available t.1 a r);
  to_master =
      λ a token t r g. Gives-Hands master_side r _ (consume_reservation-Gives t.1 a token r);
  to_slave =
      λ a ids t r g. Gives-Hands slave_side r _ (consume_peer_keys-Gives t.0.retrieve t.1 a ids r);
}
