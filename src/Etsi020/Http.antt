-- ===== src/Etsi020/Http.antt =====
-- http.go: the server between the systems, over the backend that the engine is. What the decoder
-- gives for a body is a parameter.
use transeuroogs_kms.Common.{
  ℕ, Bool, false, not, ◌&&◌, Option, none, some, List, [], ◌∷◌, ◌++◌, Text, ascii, ◌==◌,
  text_eq_instance, nat_eq, length, if◌then◌else◌,
}
use transeuroogs_kms.Common.Dict.{Dict, lookup}
use transeuroogs_kms.Core.Errors.{Error, Result, ok, err, panic, invalid, duplicate, unauthorized}
use transeuroogs_kms.Core.Errors
use transeuroogs_kms.Etsi020.{Transfer, Ack, Void}
use transeuroogs_kms.Etsi020.Validate.{validate_transfer, validate_acks, validate_void}
use transeuroogs_kms.Peering.{Peer, Config, base, versions}
use transeuroogs_kms.Security.{sae_identity}

-- `Backend`; `T` is what an operation meets.
pub record Backend (T S : Type 0) : Type 0 where
  pub accept : Text → Transfer → T → S → S × Result (Unit {0})
  pub acknowledge : Text → List Ack → T → S → S × Result (Unit {0})
  pub void : Text → Void → T → S → S × Result (Unit {0})

pub data Method : Type 0 where
  get post another : Method

-- A request; the body as what `decode` gives for each of the messages.
pub record Request : Type 0 where
  pub method : Method
  pub uris : Option (List Text)
  pub raw_query : Text
  pub with_body : Bool
  pub path : Text
  pub transfer : Option Transfer
  pub acks : Option (List Ack)
  pub void : Option Void

pub data Answer : Type 0 where
  listing problem bare : Answer

pub record Response : Type 0 where
  pub status : ℕ
  pub answer : Answer

abbrev pub respond : ℕ → Answer → Response
respond status answer = record { status = status; answer = answer }

-- The peers of a mode, by their identities.
unfoldable pub identities : Text → Dict Text Peer → Dict Text Text
identities mode [] = []
identities mode ((id, p) ∷ peers) =
    let rest = identities mode peers in if p.mode == mode then (p.identity, id) ∷ rest else rest

failure_status : Error → ℕ
failure_status invalid = 400
failure_status duplicate = 400
failure_status Errors.no_all_confirmation = 400
failure_status unauthorized = 401
failure_status _ = 503

unfoldable pub failure : Error → Response
unfolding failure_status
failure e = respond (failure_status e) problem

-- The end of a request, by the error that it met.
unfoldable pub finish : {S : Type 0} → ℕ → S × Result (Unit {0}) → S × Option Response
finish status (s, ok u) = (s, some (respond status bare))
finish status (s, err e) = (s, some (failure e))
finish status (s, panic) = (s, none)

-- `err == nil`, and on.
unfoldable pub on_valid :
    {S : Type 0} → S → Option Error → S × Option Response → S × Option Response
on_valid s none next = next
on_valid s (some e) next = (s, some (failure e))

unfoldable pub incoming : Option Peer → Bool
incoming none = false
incoming (some p) = p.incoming

-- `cfg.Peers[peer].URL + peering.Base(mode) + "/ack"`
unfoldable pub callback_of : Text → Option Peer → Text
callback_of mode none = base mode ++ ascii "/ack"
callback_of mode (some p) = p.url ++ (base mode ++ ascii "/ack")

module _ {T S : Type 0} (b : Backend T S) (cfg : Config) (mode : Text) where
  unfoldable pub on_transfer : T → Text → Option Transfer → S → S × Option Response
  unfolding finish on_valid callback_of
  on_transfer t peer none s = (s, some (failure invalid))
  on_transfer t peer (some x) s = on_valid s (validate_transfer x) (
      if not (x.callback == callback_of mode (lookup peer cfg.peers))
      then (s, some (failure unauthorized))
      else finish 202 (b.accept peer x t s))

  unfoldable pub on_acks : T → Text → Option (List Ack) → S → S × Option Response
  unfolding finish on_valid
  on_acks t peer none s = (s, some (failure invalid))
  on_acks t peer (some x) s = on_valid s (validate_acks x) (finish 200 (b.acknowledge peer x t s))

  unfoldable pub on_void : T → Text → Option Void → S → S × Option Response
  unfolding finish on_valid callback_of
  on_void t peer none s = (s, some (failure invalid))
  on_void t peer (some x) s = on_valid s (validate_void x) (
      if not (x.callback == callback_of mode (lookup peer cfg.peers))
      then (s, some (failure unauthorized))
      else finish 202 (b.void peer x t s))

  -- A POST.
  unfoldable pub posted : T → Request → Text → S → S × Option Response
  unfolding on_transfer on_acks on_void incoming
  posted t q peer s =
      if q.path == base mode
      then (if not (incoming (lookup peer cfg.peers))
          then (s, some (failure unauthorized))
          else on_transfer t peer q.transfer s)
      else if q.path == base mode ++ ascii "/ack"
      then on_acks t peer q.acks s
      else if q.path == base mode ++ ascii "/void"
      then on_void t peer q.void s
      else (s, some (respond 404 bare))

  unfoldable pub by_method : T → Request → Text → Method → S → S × Option Response
  unfolding posted
  by_method t q peer post s = posted t q peer s
  by_method t q peer get s =
      if q.path == versions mode && not q.with_body
      then (s, some (respond 200 listing))
      else (s, some (respond 405 bare))
  by_method t q peer another s = (s, some (respond 405 bare))

  unfoldable pub for_peer : T → Request → Option Text → S → S × Option Response
  unfolding by_method
  for_peer t q none s = (s, some (failure unauthorized))
  for_peer t q (some peer) s =
      if not (nat_eq (length q.raw_query) 0)
      then (s, some (failure invalid))
      else by_method t q peer q.method s

  -- `Handler`
  unfoldable pub handle : T → Request → S → S × Option Response
  unfolding for_peer identities
  handle t q s = for_peer t q (sae_identity q.uris (identities mode cfg.peers)) s
