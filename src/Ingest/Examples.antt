-- ===== src/Ingest/Examples.antt =====
-- Runs of a repository for a slave and of one for a master, and the guarantees at these inputs.
use transeuroogs_kms.Common.{
  ℕ, zero, suc, ◌≤◌, ◌+◌, ◌≡◌, refl, inl, true, false, none, some, List, [], ◌∷◌, arith, ascii,
  text_eq, text_eq_instance, Distinct, contains, length, Text,
}
use transeuroogs_kms.Common.Dict.{lookup, insert, adjust}
use transeuroogs_kms.Core.Errors.{ok}
use transeuroogs_kms.Core.Id.{KeyId, valid_id}
use transeuroogs_kms.Core.Key.{
  Association, valid_association, association_eq, Delivery, Reservation, terminal,
}
use transeuroogs_kms.Core.Token.{fresh_token}
use transeuroogs_kms.Upstream.{Config, profile_name, master, slave}
use transeuroogs_kms.Ingest.{Request, Repository, kept, Moment}
use transeuroogs_kms.Ingest.Monad.{save}
use transeuroogs_kms.Ingest.Serve.{
  expire, check, new_request, begin, ids_of, reserve_keys, consume_reservation, consume_peer_keys,
  inventory, new_ids,
}
use transeuroogs_kms.Ingest.Recovery.{open_book, opened, start, loaded, empty_book}
use transeuroogs_kms.Ingest.Trace.{Call, reserve, retrieve, restarted, step, run, delivered}
use transeuroogs_kms.Ingest.Once.{never_again}
use transeuroogs_kms.Ingest.Whole.{never_beyond_capacity, no_id_twice, inventory_within_capacity}
use transeuroogs_kms.Ingest.Exchange.{reserve_then_consume}
use transeuroogs_kms.Ingest.Failures.{Burnt, failed_retrieval_burns}

abbrev id_1 : KeyId
id_1 = ascii "00112233-4455-4677-8899-aabbccddeeff"

abbrev token_1 : KeyId
token_1 = ascii "10112233-4455-4677-8899-aabbccddeeff"

abbrev token_2 : KeyId
token_2 = ascii "20112233-4455-4677-8899-aabbccddeeff"

abbrev pair_1 : Association
pair_1 = record { master = ascii "alice"; slave = ascii "bob" }

abbrev cfg_of : Text → Config
cfg_of role = record {
  profile = profile_name;
  url = ascii "https://u";
  server_identity = ascii "urn:u";
  gateway_identity = ascii "urn:g";
  gateway_master = ascii "g1";
  gateway_slave = ascii "g2";
  role = role;
  remote_kme_id = ascii "k";
  pki_dir = ascii "p";
  certificate_name = ascii "c";
  state_dir = ascii "s";
  lifetime_seconds = 60;
}

repeat : ℕ → ℕ → List ℕ
repeat zero b = []
repeat (suc n) b = b ∷ repeat n b

abbrev batch_1 : List Delivery
unfolding repeat
batch_1 = record { id = id_1; material = repeat 32 7 } ∷ []

abbrev moment_1 : Moment
moment_1 = record {
  sweep = λ _. 1;
  sweep_saved = kept;
  now = 1;
  draws = token_1 ∷ token_2 ∷ [];
  begin_saved = kept;
  later = 2;
  saved = kept;
}

abbrev slave_1 : Repository
slave_1 = loaded (cfg_of slave) pair_1 5 empty_book empty_book

abbrev master_1 : Repository
master_1 = loaded (cfg_of master) pair_1 5 empty_book empty_book

-- The keys are asked for, after a restart again, and so are others that do not come.
abbrev calls_1 : List (Moment × Call)
unfolding batch_1
calls_1 =
    (moment_1, retrieve (λ _. some batch_1) pair_1 (id_1 ∷ []))
    ∷ (moment_1, restarted)
    ∷ (moment_1, retrieve (λ _. some batch_1) pair_1 (id_1 ∷ []))
    ∷ (moment_1, retrieve (λ _. none) pair_1 (token_1 ∷ []))
    ∷ []

opened_1 : open_book moment_1 (cfg_of slave) true pair_1 5 none ≡ (empty_book, ok slave_1)
unfolding open_book opened start expire valid_association text_eq save
opened_1 = refl

delivered_1 : delivered calls_1 slave_1 ≡ id_1 ∷ []
unfolding delivered step calls_1 consume_peer_keys association_eq text_eq valid_id contains lookup
    fresh_token save open_book valid_association adjust insert terminal
delivered_1 = refl

no_id_twice_example : Distinct (delivered calls_1 slave_1)
no_id_twice_example =
    no_id_twice moment_1 (cfg_of slave) true pair_1 5 empty_book slave_1 calls_1 opened_1

never_beyond_capacity_example :
    (length (run calls_1 slave_1).book.keys ≤ (run calls_1 slave_1).book.attempts)
    × ((run calls_1 slave_1).book.attempts ≤ 5)
    × (length (run calls_1 slave_1).disk.keys ≤ (run calls_1 slave_1).disk.attempts)
    × ((run calls_1 slave_1).disk.attempts ≤ 5)
never_beyond_capacity_example =
    never_beyond_capacity moment_1 (cfg_of slave) true pair_1 5 empty_book slave_1 calls_1 opened_1

given_1 :
    contains (step moment_1 (retrieve (λ _. some batch_1) pair_1 (id_1 ∷ [])) slave_1).1 id_1 ≡ true
unfolding step batch_1 consume_peer_keys association_eq text_eq valid_id contains lookup fresh_token
    save adjust insert terminal
given_1 = refl

never_again_example :
    contains
      (delivered calls_1
        (step moment_1 (retrieve (λ _. some batch_1) pair_1 (id_1 ∷ [])) slave_1).0)
      id_1
    ≡ false
never_again_example =
    never_again moment_1 (retrieve (λ _. some batch_1) pair_1 (id_1 ∷ [])) calls_1 slave_1 id_1
      given_1

opened_2 : open_book moment_1 (cfg_of master) true pair_1 5 none ≡ (empty_book, ok master_1)
unfolding open_book opened start expire valid_association text_eq save
opened_2 = refl

abbrev calls_2 : List (Moment × Call)
unfolding batch_1
calls_2 = (moment_1, reserve (λ _. some batch_1) pair_1 1) ∷ []

inventory_within_capacity_example :
    ((inventory (some 9) moment_1 (run calls_2 master_1) pair_1).1.available
        + length (inventory (some 9) moment_1 (run calls_2 master_1) pair_1).0.book.keys
      ≤ 5)
    × ((inventory (some 9) moment_1 (run calls_2 master_1) pair_1).1.capacity ≡ 5)
inventory_within_capacity_example =
    inventory_within_capacity moment_1 (cfg_of master) true pair_1 5 empty_book master_1 calls_2
      (some 9) moment_1 pair_1 opened_2

abbrev reserved_1 : Repository
unfolding batch_1
reserved_1 = (reserve_keys (λ _. some batch_1) moment_1 pair_1 1 master_1).0

abbrev reservation_1 : Reservation
reservation_1 = record { token = token_1; ids = id_1 ∷ [] }

reserve_1 :
    reserve_keys (λ _. some batch_1) moment_1 pair_1 1 master_1 ≡ (reserved_1, ok reservation_1)
unfolding reserved_1 reserve_keys association_eq text_eq fresh_token lookup save valid_id contains
reserve_1 = refl

reserve_then_consume_example :
    (reservation_1.ids ≡ ids_of batch_1)
    × ((consume_reservation moment_1 pair_1 token_1 reserved_1).1 ≡ ok batch_1)
reserve_then_consume_example =
    reserve_then_consume (λ _. some batch_1) moment_1 moment_1 pair_1 1 master_1 reserved_1
      reservation_1 batch_1 reserve_1 refl refl refl (omega arith) (omega arith, tt)

abbrev request_1 : Request
unfolding new_request
request_1 = new_request 1 (cfg_of slave) 1 (id_1 ∷ [])

abbrev asked_1 : Repository
asked_1 = (begin moment_1 1 (id_1 ∷ []) slave_1).0

failed_retrieval_burns_example :
    Burnt
      (id_1 ∷ [])
      token_1
      kept
      (consume_peer_keys (λ _. none) moment_1 pair_1 (id_1 ∷ []) slave_1)
unfolding request_1 asked_1 check association_eq text_eq new_ids valid_id contains lookup begin
    fresh_token save
failed_retrieval_burns_example =
    failed_retrieval_burns (λ _. none) moment_1 pair_1 (id_1 ∷ []) slave_1 slave_1 asked_1 token_1
      request_1 refl refl refl refl (inl refl)
