-- ===== src/Peering/Examples.antt =====
-- A policy of two peers.
use transeuroogs_kms.Common.{◌≡◌, refl, Bool, contains, true, [], ◌∷◌, Text, ascii, text_eq}
use transeuroogs_kms.Peering.{Peer, Config, standard}
use transeuroogs_kms.Peering.Validate.{has_prefix, valid_config}
use transeuroogs_kms.Peering.Routes.{GoodConfig, valid_config_lem}

abbrev url_ok_1 : Text → Bool
url_ok_1 s = has_prefix s (ascii "https://")

abbrev peer_b : Peer
peer_b = record {
  url = ascii "https://b";
  identity = ascii "urn:b";
  mode = standard;
  incoming = true;
}

abbrev peer_c : Peer
peer_c = record {
  url = ascii "https://c";
  identity = ascii "urn:c";
  mode = standard;
  incoming = true;
}

abbrev config_1 : Config
config_1 = record {
  public_url = ascii "https://a";
  identity = ascii "urn:a";
  state_dir = ascii "/s";
  local_saes = ascii "alice" ∷ [];
  peers = (ascii "b", peer_b) ∷ (ascii "c", peer_c) ∷ [];
  routes = (ascii "bob", ascii "c" ∷ ascii "b" ∷ []) ∷ [];
  target_kmes = [];
}

config_1_valid : valid_config url_ok_1 config_1 ≡ true
unfolding valid_config has_prefix text_eq contains
config_1_valid = refl

valid_config_lem_example : GoodConfig url_ok_1 config_1
valid_config_lem_example = valid_config_lem url_ok_1 config_1 config_1_valid
