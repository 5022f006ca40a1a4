-- ===== src/Relay/Examples.antt =====
-- The guarantees of the engine on one ready record.
use transeuroogs_kms.Common.{
  ℕ, zero, suc, ◌<◌, ◌≡◌, refl, Bool, true, false, none, some, List, [], ◌∷◌, arith, ascii, All,
  contains, text_eq_instance, Text, text_eq,
}
use transeuroogs_kms.Common.Dict.{lookup, insert, adjust}
use transeuroogs_kms.Core.Errors.{ok}
use transeuroogs_kms.Core.Id.{KeyId, valid_id}
use transeuroogs_kms.Core.Batch.{distinct_batch}
use transeuroogs_kms.Core.Key.{Association, association_eq, association_eq_instance}
use transeuroogs_kms.Etsi020.{ExternalKey, Extension}
use transeuroogs_kms.Relay.Accept.{accept}
use transeuroogs_kms.Etsi020.Validate.{validate_transfer, pair, valid_extension}
use transeuroogs_kms.Etsi020.Checked.{GoodTransfer, validate_transfer_lem}
use transeuroogs_kms.Peering.{Config, base, standard}
use transeuroogs_kms.Relay.{Rec, Engine, target, role_eq, usable}
use transeuroogs_kms.Relay.Serve.{invalidate_key, consume_peer_keys, delivered_ids, is_local}
use transeuroogs_kms.Relay.Sources.{blank, candidates}
use transeuroogs_kms.Relay.Routing.{Serves, candidates-Serves}
use transeuroogs_kms.Relay.Outbox.{transfer_of, callback}
use transeuroogs_kms.Relay.Forward.{Kept}
use transeuroogs_kms.Relay.Moves.{Sound, Grows, Moves-insert}
use transeuroogs_kms.Relay.Trace.{Call, step, run, run-Sound-Grows, consume_peer}
use transeuroogs_kms.Relay.Spent.{out, handed, delivered_once, invalidated_never_handed}
use transeuroogs_kms.Relay.Handover.{
  validate_transfer-transfer_of, Linked, Sends, Awaits, Arrived, accept-transfer_of,
}

abbrev id_1 : KeyId
id_1 = ascii "00112233-4455-4677-8899-aabbccddeeff"

abbrev token_b : KeyId
token_b = ascii "j"

abbrev pair_1 : Association
pair_1 = record { master = ascii "alice"; slave = ascii "bob" }

repeat : ℕ → ℕ → List ℕ
repeat zero b = []
repeat (suc n) b = b ∷ repeat n b

abbrev cfg_1 : Config
cfg_1 = record {
  public_url = ascii "https://b";
  identity = ascii "b";
  state_dir = [];
  local_saes = ascii "bob" ∷ [];
  peers = [];
  routes = [];
  target_kmes = [];
}

abbrev rec_1 : Rec
unfolding blank repeat
rec_1 = record (blank id_1 pair_1 target 1 100) {
  material = repeat 32 7;
  sender = ascii "a";
  ready = true;
}

abbrev engine_1 : Engine
engine_1 = record {
  cfg = cfg_1;
  allowed = pair_1 ∷ [];
  capacity = 10;
  ledger = record { records = (id_1, rec_1) ∷ []; order = id_1 ∷ []; cursor = []; acks = [] };
  broken = false;
}

hash_1 : ExternalKey → Association → Extension → Text
hash_1 k a x = k.value

abbrev serve_1 : Bool × Call
serve_1 = (true, consume_peer pair_1 (id_1 ∷ []) (λ id. 5))

rec_1-Kept : Kept rec_1
unfolding blank rec_1
rec_1-Kept = record {
  withdrawn_wiped = λ h. cc;
  withdrawn_unready = λ h. cc;
  delivered_wiped = λ h. cc;
}

empty-Sound : Sound []
unfolding lookup
empty-Sound id r h = cc

engine_1-Sound : Sound engine_1.ledger.records
unfolding insert
engine_1-Sound = (Moves-insert id_1 rec_1 [] (unfold lookup in refl) rec_1-Kept empty-Sound).0

-- The record is delivered, so that the guarantee is about a key.
serve_1_delivers : out engine_1 serve_1 ≡ id_1 ∷ []
unfolding out consume_peer_keys valid_id distinct_batch contains lookup adjust text_eq
    association_eq rec_1 role_eq usable delivered_ids
serve_1_delivers = refl

run-Sound-Grows_example :
    Sound (run hash_1 engine_1 (serve_1 ∷ [])).ledger.records
    × Grows engine_1.ledger.records (run hash_1 engine_1 (serve_1 ∷ [])).ledger.records
run-Sound-Grows_example = run-Sound-Grows hash_1 engine_1 (serve_1 ∷ []) engine_1-Sound

delivered_once_example :
    All
      (λ id. contains (handed hash_1 (step hash_1 engine_1 serve_1) (serve_1 ∷ [])) id ≡ false)
      (out engine_1 serve_1)
delivered_once_example = delivered_once hash_1 engine_1 serve_1 (serve_1 ∷ []) engine_1-Sound

engine_2 : Engine
engine_2 = (invalidate_key true (λ p. []) engine_1 id_1).0

engine_2_made : invalidate_key true (λ p. []) engine_1 id_1 ≡ (engine_2, ok tt)
unfolding engine_2 invalidate_key lookup text_eq
engine_2_made = refl

invalidated_never_handed_example : contains (handed hash_1 engine_2 (serve_1 ∷ [])) id_1 ≡ false
invalidated_never_handed_example =
    invalidated_never_handed hash_1 true (λ p. []) engine_1 engine_2 id_1 (serve_1 ∷ [])
      engine_1-Sound engine_2_made

rec_1_small : All (λ b. b < 256) rec_1.material
unfolding blank repeat
rec_1_small = ground arith

parties_1 : pair rec_1.pair.master (rec_1.pair.slave ∷ []) ≡ none
unfolding blank pair rec_1 text_eq
parties_1 = refl

sent_1_valid : validate_transfer (transfer_of cfg_1 (ascii "a") id_1 rec_1) ≡ none
unfolding text_eq rec_1
sent_1_valid =
    validate_transfer-transfer_of cfg_1 (ascii "a") id_1 rec_1 (unfold valid_id in refl) rec_1_small
      (unfold blank repeat in refl) parties_1 (unfold valid_extension blank in refl)
      (unfold valid_extension blank in refl) (unfold callback lookup base in omega arith)
      (unfold callback lookup base in omega arith)

validate_transfer_lem_example : GoodTransfer (transfer_of cfg_1 (ascii "a") id_1 rec_1)
validate_transfer_lem_example =
    validate_transfer_lem (transfer_of cfg_1 (ascii "a") id_1 rec_1) sent_1_valid

-- A sender, and a receiver that serves the slave and knows the sender.
abbrev cfg_a : Config
cfg_a = record cfg_1 {
  public_url = ascii "https://a";
  identity = ascii "a";
  local_saes = ascii "alice" ∷ [];
  peers =
      (
        ascii "b",
        record { url = ascii "https://b"; identity = ascii "b"; mode = standard; incoming = false },
      )
      ∷ [];
}

abbrev engine_b : Engine
engine_b = record engine_1 {
  cfg = record cfg_1 {
    peers =
        (
          ascii "a",
          record {
            url = ascii "https://a";
            identity = ascii "a";
            mode = standard;
            incoming = true;
          },
        )
        ∷ [];
  };
  ledger = record { records = []; order = []; cursor = []; acks = [] };
}

cfg_a-Linked : Linked cfg_a (ascii "b") engine_b (ascii "a")
unfolding lookup text_eq
cfg_a-Linked = record {
  ours = record {
    url = ascii "https://b";
    identity = ascii "b";
    mode = standard;
    incoming = false;
  };
  theirs = record {
    url = ascii "https://a";
    identity = ascii "a";
    mode = standard;
    incoming = true;
  };
  known = refl;
  knows = refl;
  same_mode = refl;
  same_url = refl;
  may_send = refl;
}

rec_1-Sends : Sends cfg_a (ascii "b") id_1 rec_1
unfolding text_eq rec_1
rec_1-Sends = record {
  named = unfold valid_id in refl;
  bytes = rec_1_small;
  whole = unfold blank repeat in refl;
  parties = parties_1;
  key_extension = unfold valid_extension blank in refl;
  optional = unfold valid_extension blank in refl;
  called_back = unfold callback lookup base in omega arith;
  short = unfold callback lookup base in omega arith;
}

engine_b-Awaits : Awaits engine_b id_1 rec_1.pair
unfolding lookup contains association_eq text_eq is_local blank rec_1
engine_b-Awaits = record {
  intact = refl;
  room = omega arith;
  absent = refl;
  allowed = refl;
  foreign = refl;
  home = refl;
}

accept-transfer_of_example :
    ((accept hash_1 true
        (λ id n. 5)
        (λ id p. token_b)
        engine_b
        (ascii "a")
        (transfer_of cfg_a (ascii "b") id_1 rec_1)).1
      ≡ ok tt)
    × (z : Rec) × (lookup id_1
          (accept hash_1 true
            (λ id n. 5)
            (λ id p. token_b)
            engine_b
            (ascii "a")
            (transfer_of cfg_a (ascii "b") id_1 rec_1)).0.ledger.records
        ≡ some z)
    × Arrived (ascii "a") rec_1 z
accept-transfer_of_example =
    accept-transfer_of hash_1 (λ id n. 5) (λ id p. token_b) engine_b (ascii "a") cfg_a (ascii "b")
      id_1 rec_1 cfg_a-Linked rec_1-Sends engine_b-Awaits

abbrev engine_3 : Engine
engine_3 = record engine_1 {
  cfg = record cfg_1 { routes = (ascii "dora", ascii "c" ∷ ascii "b" ∷ []) ∷ [] };
}

route_3 : lookup (ascii "dora") engine_3.cfg.routes ≡ some (ascii "c" ∷ ascii "b" ∷ [])
unfolding lookup text_eq
route_3 = refl

candidates-Serves_example :
    Serves
      (ascii "c" ∷ ascii "b" ∷ [])
      (ascii "c")
      (candidates engine_3 engine_3.ledger (ascii "dora") (ascii "c")).1
candidates-Serves_example =
    candidates-Serves engine_3 engine_3.ledger (ascii "dora") (ascii "c") (ascii "c")
      (ascii "b" ∷ []) route_3
