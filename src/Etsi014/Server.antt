-- ===== src/Etsi014/Server.antt =====
-- server.go: the server over a repository.
use transeuroogs_kms.Common.{
  ℕ, Bool, true, false, ◌&&◌, ◌||◌, Option, none, some, List, [], ◌∷◌, Text, ascii, ◌==◌,
  text_eq_instance, contains, nat_eq, length, map, if◌then◌else◌,
}
use transeuroogs_kms.Common.Dict.{Dict, lookup}
use transeuroogs_kms.Core.Errors.{Error, Result, ok, err, invalid, unauthorized}
use transeuroogs_kms.Core.Key.{
  Association, association_eq_instance, Delivery, Inventory, key_bits, max_batch,
}
use transeuroogs_kms.Etsi020.Base64.{encode}
use transeuroogs_kms.Etsi014.Messages.{Status, KeyContainer}
use transeuroogs_kms.Etsi014.Reading.{Refusal, Body}
use transeuroogs_kms.Peering
use transeuroogs_kms.Settings.{Config, blank}
use transeuroogs_kms.Upstream
use transeuroogs_kms.Upstream.{master}

pub record Server : Type 0 where
  pub kme : Text
  pub identities : Dict Text Text
  pub allowed : List Association
  pub target_kmes : Dict Text Text

pub data Method : Type 0 where
  get post : Method
  another : Text → Method

unfoldable pub is_post : Method → Bool
is_post post = true
is_post _ = false

-- A request as the libraries give it: the URIs of the verified leaf (`none` without a verified
-- chain), whether there is a body, the segments of the path after its first slash, escaped (`raw_path`)
-- and with their escapes undone (`path`), the parsed query, and for a POST whether the Content-Type
-- is JSON and how the body arrives.
pub record Request : Type 0 where
  pub method : Method
  pub uris : Option (List Text)
  pub with_body : Bool
  pub raw_path : List Text
  pub path : List Text
  pub parameters : Option (Dict Text (List Text))
  pub media_ok : Bool
  pub body : Body

pub data Answer : Type 0 where
  message : Text → Answer
  stock : Status → Answer
  container : KeyContainer → Answer
  redirect bare : Answer

-- The status and the body of an answer.
pub record Response : Type 0 where
  pub status : ℕ
  pub answer : Answer

abbrev pub respond : ℕ → Answer → Response
respond status answer = record { status = status; answer = answer }

-- Which of the identities a process serves.
unfoldable pub served_by : List Text → Option Peering.Config → Text → Bool
served_by locals none id = nat_eq (length locals) 0 || contains locals id
served_by locals (some p) id =
    (nat_eq (length locals) 0 || contains locals id) && contains p.local_saes id

unfoldable pub kept_identities : (Text → Bool) → Dict Text Text → Dict Text Text
kept_identities serves [] = []
kept_identities serves ((uri, id) ∷ rest) =
    let later = kept_identities serves rest in if serves id then (uri, id) ∷ later else later

-- The systems of the targets, by the last setting that has them.
unfoldable pub policy_targets : Dict Text Text → Option Peering.Config → Dict Text Text
policy_targets targets none = targets
policy_targets targets (some p) = p.target_kmes

unfoldable pub service_targets :
    Dict Text Text → List Association → Option Upstream.Config → Dict Text Text
service_targets targets (a ∷ rest) (some e) =
    if e.role == master then (a.slave, e.remote_kme_id) ∷ [] else targets
service_targets targets _ _ = targets

-- `New`; `fine` says whether the configuration is valid.
unfoldable pub new_server : Bool → Config → Result Server
unfolding served_by kept_identities policy_targets service_targets
new_server false c = err invalid
new_server true c = ok (record {
  kme = c.kme_id;
  identities = kept_identities (served_by c.local_saes c.inter_kms) c.identities;
  allowed = c.associations;
  target_kmes = service_targets (policy_targets c.target_kmes c.inter_kms) c.associations c.eagle;
})

fail_status : Error → ℕ
fail_status invalid = 400
fail_status unauthorized = 401
fail_status _ = 503

fail_message : Error → Text
fail_message invalid = ascii "invalid key request"
fail_message unauthorized = ascii "unauthorized"
fail_message _ = ascii "key material unavailable"

-- `fail`, for an error of the repository. A panic ends the connection without an answer.
unfoldable pub fail : Error → Response
unfolding fail_status fail_message
fail e = respond (fail_status e) (message (fail_message e))

-- `fail`, for a refusal of the interface.
unfoldable pub fail_with : Refusal → Response
fail_with e = respond e.status (message e.message)

-- The container of `deliver`.
unfoldable pub values_of : List Delivery → KeyContainer
values_of = map (λ d. record { id = d.id; key = encode d.material })

unfoldable pub deliver : List Delivery → Response
unfolding values_of
deliver ds = respond 200 (container (values_of ds))

unfoldable pub association : Text → Text → Bool → Association
association caller sae false = record { master = caller; slave = sae }
association caller sae true = record { master = sae; slave = caller }

unfoldable pub target_kme : Server → Option Text → Text
unfolding blank
target_kme s none = s.kme
target_kme s (some id) = if blank id then s.kme else id

unfoldable pub status_of : Server → Association → Inventory → Status
unfolding target_kme
status_of s a i = record {
  source_kme_id = s.kme;
  target_kme_id = target_kme s (lookup a.slave s.target_kmes);
  master_sae_id = a.master;
  slave_sae_id = a.slave;
  key_size = key_bits;
  stored_key_count = i.available;
  max_key_count = i.capacity;
  max_key_per_request = max_batch;
  max_key_size = key_bits;
  min_key_size = key_bits;
  max_sae_id_count = 0;
}
