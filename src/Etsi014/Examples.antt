-- ===== src/Etsi014/Examples.antt =====
-- A server over a memory repository with one key, and the guarantees at these inputs.
use transeuroogs_kms.Common.{
  ℕ, ◌≡◌, ◌<◌, refl, ap, inl, true, false, none, some, List, [], ◌∷◌, arith, ascii, text_eq,
  text_eq_instance, All, contains, Text, map, if◌then◌else◌, leb, ◌&&◌,
}
use transeuroogs_kms.Common.Dict.{lookup}
use transeuroogs_kms.Core.Errors.{Result, ok}
use transeuroogs_kms.Core.Id.{KeyId, valid_id}
use transeuroogs_kms.Core.Key.{
  Association, association_eq, association_eq_iff, association_eq_instance, Delivery,
}
use transeuroogs_kms.Core.Repository.{master_side}
use transeuroogs_kms.Security.{sae_identity}
use transeuroogs_kms.Storage.Stocked.{
  id_1, token_1, pair_1, repeat, stocked, stocked-Inv, pair_valid, drawn_1, stock_1, lives_1,
}
use transeuroogs_kms.Storage.{Memory}
use transeuroogs_kms.Storage
use transeuroogs_kms.Core.Key
use transeuroogs_kms.Core.Key.{valid_association, valid_name, state_eq, terminal}
use transeuroogs_kms.Core.Token.{fresh_token}
use transeuroogs_kms.Common.Dict.{adjust, insert, erase}
use transeuroogs_kms.Etsi014.Once.{side_of, carried}
use transeuroogs_kms.Etsi014.Handler.{enc}
use transeuroogs_kms.Etsi014.Server.{association}
use transeuroogs_kms.Storage.Loops.{delivery_at}
use transeuroogs_kms.Storage.Reserve.{picks}
use transeuroogs_kms.Storage.Interface.{memory, memory-Once, Inv-Good}
use transeuroogs_kms.Upstream.{Config, slave}
use transeuroogs_kms.Ingest.{Request, Status}
use transeuroogs_kms.Ingest.Serve.{validate}
use transeuroogs_kms.Etsi020.Base64.{encode, decode}
use transeuroogs_kms.Etsi014.Json.{Token, rest, bad, unique_json}
use transeuroogs_kms.Etsi014.Json.Tree.{
  Json, atom, object, member, no_member, array, item, no_item, print, height, unambiguous,
}
use transeuroogs_kms.Etsi014.Json.Accepts.{unique_json-print}
use transeuroogs_kms.Etsi014.Reading.{Library, unreadable, query}
use transeuroogs_kms.Etsi014.Requests.{key_request, key_count}
use transeuroogs_kms.Etsi014.Server.{Server, Method, get, values_of, deliver, is_post}
use transeuroogs_kms.Etsi014.Server
use transeuroogs_kms.Etsi014.Handler.{
  reserved_keys, handle, handle_whole, matched, canonical, replied,
}
use transeuroogs_kms.Etsi014.Access.{Stranger, TurnedAway, handle-TurnedAway}
use transeuroogs_kms.Etsi014.Service.{
  Event, Running, Harmless, request, resume, answered, all_answered, after_event, outcome,
  event-Moves, answered_once,
}
use transeuroogs_kms.Etsi014.Granted.{Asks, handle-granted}
use transeuroogs_kms.Etsi014.Client
use transeuroogs_kms.Etsi014.Client.{Sent, Reply, validate_keys, retrieve, unrequested}
use transeuroogs_kms.Etsi014.Agreement.{Sendable, retrieve-validate, validate_keys-values_of}

-- Two members of one name.
abbrev twice : Json
twice = object (member (ascii "a") atom (member (ascii "a") (array (item atom no_item)) no_member))

unique_json-print_example :
    unique_json (print twice [])
    ≡ (if leb (height twice) 32 && unambiguous twice then rest [] else bad)
unique_json-print_example = unique_json-print twice

twice_bad : unique_json (print twice []) ≡ bad
unfolding unique_json print contains text_eq
twice_bad = refl

abbrev library : Library
library = record {
  is_blank = λ t. true;
  tokens = λ t. [];
  fields = λ t. none;
  key_request = λ t. none;
  key_ids = λ t. none;
  atoi = λ t. none;
  redirect_status = 307;
}

abbrev server : Server
server = record {
  kme = ascii "kme";
  identities = (ascii "urn:alice", ascii "alice") ∷ (ascii "urn:eve", ascii "eve") ∷ [];
  allowed = pair_1 ∷ [];
  target_kmes = [];
}

abbrev asked_by : Text → Server.Request
asked_by uri = record {
  method = get;
  uris = some (uri ∷ []);
  with_body = false;
  raw_path = ascii "api" ∷ ascii "v1" ∷ ascii "keys" ∷ ascii "bob" ∷ ascii "enc_keys" ∷ [];
  path = ascii "api" ∷ ascii "v1" ∷ ascii "keys" ∷ ascii "bob" ∷ ascii "enc_keys" ∷ [];
  parameters = some [];
  media_ok = false;
  body = unreadable;
}

example-Asks : Asks server (asked_by (ascii "urn:alice")) pair_1
unfolding sae_identity lookup text_eq contains association_eq matched canonical is_post
example-Asks = record {
  caller = refl;
  allowed = refl;
  path = refl;
  clean = refl;
  without_body = refl;
}

handle-granted_example :
    (handle_whole memory library server
      (3, token_1 ∷ [])
      (4, [])
      (asked_by (ascii "urn:alice"))
      stocked).1
    ≡ replied
        (deliver (map (delivery_at (λ e. e.master) stocked.entries) (picks stocked pair_1 1 3)))
unfolding key_request query key_count
handle-granted_example =
    handle-granted library server 3 4 (token_1 ∷ []) [] token_1 (asked_by (ascii "urn:alice"))
      pair_1 stocked 1 (inl refl) example-Asks refl stocked-Inv pair_valid (omega arith)
      (omega arith) drawn_1 (omega (arith, stock_1)) lives_1

only_pair : (a : Association) → contains server.allowed a ≡ true → pair_1 ≡ a
unfolding contains
only_pair a h = (association_eq_iff pair_1 a).0 (ground (arith, h))

eve_barred : Stranger server (sae_identity (some (ascii "urn:eve" ∷ [])) server.identities)
unfolding sae_identity lookup text_eq
eve_barred a h =
    let same : pair_1 ≡ a = only_pair a h in
    (
      λ x. ground (arith, ap (λ p. p.master) same, x),
      λ x. ground (arith, ap (λ p. p.slave) same, x),
    )

handle-TurnedAway_example :
    TurnedAway
      (asked_by (ascii "urn:eve"))
      stocked
      (handle memory library server (3, token_1 ∷ []) (asked_by (ascii "urn:eve")) stocked)
handle-TurnedAway_example =
    handle-TurnedAway memory library server (3, token_1 ∷ []) (asked_by (ascii "urn:eve")) stocked
      eve_barred

-- A request of the master, between its two calls.
abbrev under_way : Running Memory
under_way =
    after_event memory library server (request (3, token_1 ∷ []) (asked_by (ascii "urn:alice")))
      (record { store = stocked; flights = [] })

-- The second call of that request, and a second request of the master with both its calls.
abbrev ending : Event (ℕ × List KeyId) Memory
ending = resume 0 (4, [])

abbrev events : List (Event (ℕ × List KeyId) Memory)
events = request (5, token_1 ∷ []) (asked_by (ascii "urn:alice")) ∷ resume 0 (6, []) ∷ []

first_answer : contains (answered memory library server master_side ending under_way) id_1 ≡ true
unfolding answered contains side_of matched text_eq carried handle sae_identity lookup
    association_eq association enc key_request query key_count Storage.reserve_keys
    valid_association Storage.scan Storage.offers Storage.expire state_eq adjust insert fresh_token
    Storage.adjust_each Storage.reserve_entry Storage.consume_reservation Storage.check_reserved
    Storage.deliver Storage.consume_master erase terminal valid_id stocked Storage.store_key
    Key.validate valid_name repeat Storage.new_entry deliver encode outcome after_event
    reserved_keys
first_answer = refl

under_way-Good : memory-Once.Good under_way.store
unfolding Harmless
under_way-Good =
    (event-Moves memory library server memory-Once
        (request (3, token_1 ∷ []) (asked_by (ascii "urn:alice")))
        (record { store = stocked; flights = [] }) tt).good
      (Inv-Good stocked stocked-Inv)

answered_once_example :
    contains
      (all_answered memory library server master_side events
        (after_event memory library server ending under_way))
      id_1
    ≡ false
unfolding Harmless
answered_once_example =
    answered_once memory library server memory-Once master_side ending events under_way id_1 tt
      (tt, (tt, tt)) under_way-Good first_answer

abbrev delivered_1 : List Delivery
unfolding repeat
delivered_1 = record { id = id_1; material = repeat 32 7 } ∷ []

small : All (λ b. b < 256) (repeat 32 7)
unfolding repeat
small = ground arith

example-Sendable : All (Sendable (some (id_1 ∷ []))) delivered_1
unfolding delivered_1 valid_id text_eq unrequested contains
example-Sendable = (record { named = refl; whole = refl; bytes = small; asked = refl }, tt)

validate_keys-values_of_example :
    validate_keys (values_of delivered_1) 1 (some (id_1 ∷ [])) ≡ ok delivered_1
unfolding contains delivered_1
validate_keys-values_of_example =
    validate_keys-values_of (some (id_1 ∷ [])) delivered_1 example-Sendable (refl, tt)

abbrev client_library : Client.Library
unfolding delivered_1 values_of
client_library = record {
  tokens = λ t. Token.other ∷ [];
  fields = λ t. some ((ascii "keys", t) ∷ []);
  objects = λ t. some [];
  container = λ t. some (values_of delivered_1);
  reported = λ t. none;
}

abbrev reply : Text → Text → Text → Sent → Result Reply
reply method peer operation body = ok (record { status = 200; media_ok = true; text = some [] })

abbrev slave_cfg : Config
slave_cfg = record {
  profile = [];
  url = [];
  server_identity = [];
  gateway_identity = [];
  gateway_master = ascii "g1";
  gateway_slave = ascii "g2";
  role = slave;
  remote_kme_id = [];
  pki_dir = [];
  certificate_name = [];
  state_dir = [];
  lifetime_seconds = 60;
}

abbrev pending_1 : Request
pending_1 = record { ids = id_1 ∷ []; count = 1; status = Status.pending; started = 1; expires = 9 }

retrieved_1 : retrieve client_library reply slave_cfg (id_1 ∷ []) ≡ ok delivered_1
unfolding retrieve text_eq valid_id contains unique_json client_library lookup decode encode
retrieved_1 = refl

retrieve-validate_example : validate 2 pending_1 true [] delivered_1 ≡ true
retrieve-validate_example =
    retrieve-validate client_library reply slave_cfg (id_1 ∷ []) delivered_1 2 pending_1 [] refl
      refl (omega arith) retrieved_1
