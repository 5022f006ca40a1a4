-- ===== src/Etsi020/Examples.antt =====
-- The server between the systems, over an engine without records.
use transeuroogs_kms.Common.{
  ◌≡◌, ◌⊎◌, refl, true, false, none, some, [], ◌∷◌, Text, ascii, leb, contains, text_eq,
}
use transeuroogs_kms.Core.Key.{Association}
use transeuroogs_kms.Security.{sae_identity}
use transeuroogs_kms.Peering.{Config, standard}
use transeuroogs_kms.Etsi020.{ExternalKey, Extension}
use transeuroogs_kms.Etsi020.Http.{Request, post, handle, identities}
use transeuroogs_kms.Etsi020.Admission.{Admitted, handle-Admitted}
use transeuroogs_kms.Etsi014.Json.Tree.{
  Json, object, no_member, member, nothing, string, print, height, unambiguous,
}
use transeuroogs_kms.Etsi020.Shapes.{Shape, untyped, plain, struct, no_field, field, check_json}
use transeuroogs_kms.Etsi020.Strict.{check_json-unambiguous}
use transeuroogs_kms.Relay.{Engine}
use transeuroogs_kms.Relay.Interface.{Arrival, backend}

abbrev cfg_1 : Config
cfg_1 = record {
  public_url = ascii "https://b";
  identity = ascii "urn:b";
  state_dir = ascii "s";
  local_saes = ascii "bob" ∷ [];
  peers =
      (
        ascii "a",
        record {
          url = ascii "https://a";
          identity = ascii "urn:a";
          mode = standard;
          incoming = true;
        },
      )
      ∷ [];
  routes = [];
  target_kmes = [];
}

abbrev engine_1 : Engine
engine_1 = record {
  cfg = cfg_1;
  allowed = [];
  capacity = 4;
  ledger = record { records = []; order = []; cursor = []; acks = [] };
  broken = false;
}

abbrev arrival_1 : Arrival
arrival_1 = record { saved = true; clock = λ id n. 1; draw = λ id p. [] }

-- A withdrawal by the peer.
abbrev request_1 : Request
request_1 = record {
  method = post;
  uris = some (ascii "urn:a" ∷ []);
  raw_query = [];
  with_body = true;
  path = ascii "/kmapi/v1/ext_keys/void";
  transfer = none;
  acks = none;
  void = some (record {
    ids = some [];
    initiator = ascii "alice";
    targets = ascii "bob" ∷ [];
    callback = ascii "https://a/kmapi/v1/ext_keys/ack";
    all = true;
    extension = none;
  });
}

abbrev hash_1 : ExternalKey → Association → Extension → Text
hash_1 k a e = []

handle-Admitted_example :
    ((handle (backend hash_1) cfg_1 standard arrival_1 request_1 engine_1).0 ≡ engine_1)
    ⊎ ((peer : Text) × (sae_identity request_1.uris (identities standard cfg_1.peers) ≡ some peer)
        × Admitted
            (backend hash_1)
            cfg_1
            standard
            arrival_1
            request_1
            engine_1
            peer
            (handle (backend hash_1) cfg_1 standard arrival_1 request_1 engine_1))
handle-Admitted_example =
    handle-Admitted (backend hash_1) cfg_1 standard arrival_1 request_1 engine_1

-- A struct of a plain member and an open one, and a text for it.
abbrev shape_1 : Shape
shape_1 = struct (field (ascii "id") plain (field (ascii "x") untyped no_field))

abbrev json_1 : Json
json_1 = object (
    member (ascii "id") (string (ascii "k"))
      (member (ascii "x") (object (member (ascii "y") nothing no_member)) no_member))

check_json-unambiguous_example : (leb (height json_1) 32 ≡ true) × (unambiguous json_1 ≡ true)
unfolding check_json print contains text_eq
check_json-unambiguous_example = check_json-unambiguous shape_1 json_1 refl
