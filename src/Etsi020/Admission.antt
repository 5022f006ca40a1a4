-- ===== src/Etsi020/Admission.antt =====
-- What reaches the backend of the server between the systems.
use transeuroogs_kms.Common.{
  ◌≡◌, ◌⊎◌, refl, inl, inr, true, not, ◌&&◌, Option, none, some, List, ◌++◌, Text, ascii, ◌==◌,
  text_eq_iff, text_eq_instance, nat_eq, length, if_split, arith,
}
use transeuroogs_kms.Common.Dict.{lookup}
use transeuroogs_kms.Core.Errors.{Error, invalid, unauthorized}
use transeuroogs_kms.Etsi020.{Transfer, Ack, Void}
use transeuroogs_kms.Etsi020.Validate.{validate_transfer, validate_acks, validate_void}
use transeuroogs_kms.Peering.{Config, base, versions}
use transeuroogs_kms.Security.{sae_identity}
use transeuroogs_kms.Etsi020.Http.{
  Backend, Method, get, post, another, Request, Response, respond, bare, listing, identities,
  failure, finish, on_valid, incoming, callback_of, on_transfer, on_acks, on_void, posted,
  by_method, for_peer, handle,
}

module _ {T S : Type 0} (b : Backend T S) (cfg : Config) (mode : Text) (t : T) (q : Request)
    (s : S) where
  -- A transfer of a peer that may send, valid and with the peer's own callback.
  pub record Transferred (peer : Text) (o : S × Option Response) : Type 0 where
    pub message : Transfer
    pub came : q.transfer ≡ some message
    pub to_base : q.path ≡ base mode
    pub may_send : incoming (lookup peer cfg.peers) ≡ true
    pub valid : validate_transfer message ≡ none
    pub own_callback : message.callback ≡ callback_of mode (lookup peer cfg.peers)
    pub passed_on : o ≡ finish 202 (b.accept peer message t s)

  -- Valid results of a peer.
  pub record Acknowledged (peer : Text) (o : S × Option Response) : Type 0 where
    pub message : List Ack
    pub came : q.acks ≡ some message
    pub valid : validate_acks message ≡ none
    pub passed_on : o ≡ finish 200 (b.acknowledge peer message t s)

  -- A valid withdrawal with the peer's own callback.
  pub record Withdrawn (peer : Text) (o : S × Option Response) : Type 0 where
    pub message : Void
    pub came : q.void ≡ some message
    pub valid : validate_void message ≡ none
    pub own_callback : message.callback ≡ callback_of mode (lookup peer cfg.peers)
    pub passed_on : o ≡ finish 202 (b.void peer message t s)

  -- The backend was left alone, or it got one of the three calls.
  unfoldable pub Admitted : Text → S × Option Response → Type 0
  Admitted peer o = (o.0 ≡ s) ⊎ (Transferred peer o ⊎ (Acknowledged peer o ⊎ Withdrawn peer o))

  on_valid_case :
      (peer : Text) (e : Option Error) (next : S × Option Response)
      → (e ≡ none → Admitted peer next)
      → Admitted peer (on_valid s e next)
  unfolding on_valid Admitted
  on_valid_case peer none next f = f refl
  on_valid_case peer (some e) next f = inl refl

  on_transfer-Admitted :
      (peer : Text) (x : Option Transfer)
      → q.transfer ≡ x
      → q.path ≡ base mode
      → incoming (lookup peer cfg.peers) ≡ true
      → Admitted peer (on_transfer b cfg mode t peer x s)
  unfolding on_transfer Admitted
  on_transfer-Admitted peer none came here may = inl refl
  on_transfer-Admitted peer (some x) came here may =
      on_valid_case peer (validate_transfer x) _ (λ valid.
        if_split (Admitted peer) (not (x.callback == callback_of mode (lookup peer cfg.peers)))
          (s, some (failure unauthorized)) (finish 202 (b.accept peer x t s)) (λ _. inl refl)
          (λ own. inr (
            inl (record {
              message = x;
              came = came;
              to_base = here;
              may_send = may;
              valid = valid;
              own_callback =
                  (text_eq_iff x.callback (callback_of mode (lookup peer cfg.peers))).0
                    (ground (arith, own));
              passed_on = refl;
            }))))

  on_acks-Admitted :
      (peer : Text) (x : Option (List Ack))
      → q.acks ≡ x
      → Admitted peer (on_acks b cfg mode t peer x s)
  unfolding on_acks Admitted
  on_acks-Admitted peer none came = inl refl
  on_acks-Admitted peer (some x) came = on_valid_case peer (validate_acks x) _ (λ valid.
      inr (inr (inl (record { message = x; came = came; valid = valid; passed_on = refl }))))

  on_void-Admitted :
      (peer : Text) (x : Option Void) → q.void ≡ x → Admitted peer (on_void b cfg mode t peer x s)
  unfolding on_void Admitted
  on_void-Admitted peer none came = inl refl
  on_void-Admitted peer (some x) came = on_valid_case peer (validate_void x) _ (λ valid.
      if_split (Admitted peer) (not (x.callback == callback_of mode (lookup peer cfg.peers)))
        (s, some (failure unauthorized)) (finish 202 (b.void peer x t s)) (λ _. inl refl)
        (λ own. inr (
          inr (
            inr (record {
              message = x;
              came = came;
              valid = valid;
              own_callback =
                  (text_eq_iff x.callback (callback_of mode (lookup peer cfg.peers))).0
                    (ground (arith, own));
              passed_on = refl;
            })))))

  posted-Admitted : (peer : Text) → Admitted peer (posted b cfg mode t q peer s)
  unfolding posted Admitted
  posted-Admitted peer =
      if_split (Admitted peer) (q.path == base mode) _ _
        (λ here.
          if_split (Admitted peer) (not (incoming (lookup peer cfg.peers)))
            (s, some (failure unauthorized)) (on_transfer b cfg mode t peer q.transfer s)
            (λ _. inl refl)
            (λ may.
              on_transfer-Admitted peer q.transfer refl ((text_eq_iff q.path (base mode)).0 here)
                (ground (arith, may))))
        (λ _.
          if_split (Admitted peer) (q.path == base mode ++ ascii "/ack")
            (on_acks b cfg mode t peer q.acks s) _ (λ _. on_acks-Admitted peer q.acks refl)
            (λ _.
              if_split (Admitted peer) (q.path == base mode ++ ascii "/void")
                (on_void b cfg mode t peer q.void s) (s, some (respond 404 bare))
                (λ _. on_void-Admitted peer q.void refl) (λ _. inl refl)))

  by_method-Admitted :
      (peer : Text) (m : Method) → Admitted peer (by_method b cfg mode t q peer m s)
  unfolding by_method Admitted
  by_method-Admitted peer post = posted-Admitted peer
  by_method-Admitted peer get =
      if_split (Admitted peer) (q.path == versions mode && not q.with_body)
        (s, some (respond 200 listing)) (s, some (respond 405 bare)) (λ _. inl refl) (λ _. inl refl)
  by_method-Admitted peer another = inl refl

  for_peer-Admitted :
      (caller : Option Text)
      → ((for_peer b cfg mode t q caller s).0 ≡ s)
        ⊎ ((peer : Text) × (caller ≡ some peer) × Admitted peer (for_peer b cfg mode t q caller s))
  unfolding for_peer Admitted
  for_peer-Admitted none = inl refl
  for_peer-Admitted (some peer) = inr (
    peer,
    refl,
    if_split (Admitted peer) (not (nat_eq (length q.raw_query) 0)) (s, some (failure invalid))
        (by_method b cfg mode t q peer q.method s) (λ _. inl refl)
        (λ _. by_method-Admitted peer q.method),
  )

  -- A request to the server between the systems leaves the backend alone, or it comes over a verified
  -- connection of a configured peer of the mode and is one of three: a valid transfer of a peer that
  -- may send, with that peer's own callback; valid results; or a valid withdrawal with the peer's own
  -- callback. What the backend then gets is that message under the name of that peer, and nothing
  -- else.
  pub handle-Admitted :
      ((handle b cfg mode t q s).0 ≡ s)
      ⊎ ((peer : Text) × (sae_identity q.uris (identities mode cfg.peers) ≡ some peer)
          × Admitted peer (handle b cfg mode t q s))
  unfolding handle
  handle-Admitted = for_peer-Admitted (sae_identity q.uris (identities mode cfg.peers))
