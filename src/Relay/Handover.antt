-- ===== src/Relay/Handover.antt =====
-- What the worker sends is what a peer accepts.
use transeuroogs_kms.Common.{
  ℕ, ◌+◌, ◌<◌, ◌≤◌, ◌≡◌, refl, ap, ◌∙◌, true, false, none, some, [], ◌∷◌, All, Text, arith, length,
  ltb, nat_eq, contains, text_eq_iff, text_eq_instance, ◌==◌,
}
use transeuroogs_kms.Common.Dict.{lookup, lookup-insert}
use transeuroogs_kms.Core.Errors.{ok}
use transeuroogs_kms.Core.Id.{KeyId, valid_id}
use transeuroogs_kms.Core.Key.{Association, association_eq_instance}
use transeuroogs_kms.Etsi020.{ExternalKey, Extension, relayed}
use transeuroogs_kms.Etsi020.Base64.{encode}
use transeuroogs_kms.Etsi020.Bytes.{decode-encode}
use transeuroogs_kms.Etsi020.Checked.{valid_value-encode}
use transeuroogs_kms.Etsi020.Validate.{
  validate_transfer, transfer_checked, keys_fine, pair, valid_extension, extension_size,
}
use transeuroogs_kms.Peering.{Config, Peer}
use transeuroogs_kms.Relay.{Rec, Engine, Ledger, target}
use transeuroogs_kms.Relay.Voiding.{enqueue}
use transeuroogs_kms.Relay.Serve.{is_local, change, committed}
use transeuroogs_kms.Relay.Sources.{blank, add_record}
use transeuroogs_kms.Relay.Accept.{
  ack_url, received, or_empty, accept, accept_checked, accept_from, accept_in, accept_counted,
  accept_keys, accept_found, accept_new, accept_rest, new_keys, pair_of, first_target,
}
use transeuroogs_kms.Relay.Outbox.{transfer_of, callback, mode_of}

short_text : (n : ℕ) → n ≤ 1024 → ltb 1024 n ≡ false
short_text n h = ground (arith, h)

some_text : (n : ℕ) → 1 ≤ n → nat_eq n 0 ≡ false
some_text n h = ground (arith, h)

-- The transfer that the worker makes of a record passes `Validate`, when the record has 32 bytes
-- under a valid id, its pair passes the check of the parties, its extensions are valid, and the
-- callback has between 1 and 1024 bytes.
pub validate_transfer-transfer_of :
    (cfg : Config) (peer : Text) (id : KeyId) (r : Rec)
    → valid_id id ≡ true
    → All (λ b. b < 256) r.material
    → length r.material ≡ 32
    → pair r.pair.master (r.pair.slave ∷ []) ≡ none
    → valid_extension r.key_extension ≡ true
    → valid_extension r.optional ≡ true
    → 1 ≤ length (callback cfg peer)
    → length (callback cfg peer) ≤ 1024
    → validate_transfer (transfer_of cfg peer id r) ≡ none
unfolding validate_transfer transfer_checked keys_fine transfer_of contains valid_extension
    extension_size
validate_transfer-transfer_of cfg peer id r named small size parties ext opt given short =
    rw
      (
        parties,
        named,
        ext,
        opt,
        valid_value-encode r.material small size,
        short_text (length (callback cfg peer)) short,
        some_text (length (callback cfg peer)) given,
      )
      refl

-- The two systems know each other: the sender `cfg` has the receiver as `peer`, and the receiver `e`
-- has the sender as `here`, at the sender's own address, in one mode, as a peer that may send.
pub record Linked (cfg : Config) (peer : Text) (e : Engine) (here : Text) : Type 0 where
  pub ours : Peer
  pub theirs : Peer
  pub known : lookup peer cfg.peers ≡ some ours
  pub knows : lookup here e.cfg.peers ≡ some theirs
  pub same_mode : ours.mode ≡ theirs.mode
  pub same_url : theirs.url ≡ cfg.public_url
  pub may_send : theirs.incoming ≡ true

-- What the sender has: 32 bytes under a valid id, parties and extensions that the messages allow,
-- and a callback of 1 to 1024 bytes.
pub record Sends (cfg : Config) (peer : Text) (id : KeyId) (r : Rec) : Type 0 where
  pub named : valid_id id ≡ true
  pub bytes : All (λ b. b < 256) r.material
  pub whole : length r.material ≡ 32
  pub parties : pair r.pair.master (r.pair.slave ∷ []) ≡ none
  pub key_extension : valid_extension r.key_extension ≡ true
  pub optional : valid_extension r.optional ≡ true
  pub called_back : 1 ≤ length (callback cfg peer)
  pub short : length (callback cfg peer) ≤ 1024

-- The receiver is sound, has room and does not have the key; the pair is allowed there, and its slave
-- is local and its master is not.
pub record Awaits (e : Engine) (id : KeyId) (a : Association) : Type 0 where
  pub intact : e.broken ≡ false
  pub room : length e.ledger.records < e.capacity
  pub absent : lookup id e.ledger.records ≡ none
  pub allowed : contains e.allowed a ≡ true
  pub foreign : is_local e a.master ≡ false
  pub home : is_local e a.slave ≡ true

-- The record `z` has what `r` has for the slave, from `here`.
pub record Arrived (here : Text) (r z : Rec) : Type 0 where
  pub material : z.material ≡ r.material
  pub pair : z.pair ≡ r.pair
  pub key_extension : z.key_extension ≡ r.key_extension
  pub optional : z.optional ≡ r.optional
  pub sender : z.sender ≡ here
  pub role : z.role ≡ target
  pub ready : z.ready ≡ true
  pub undelivered : z.delivered ≡ false

same_callback :
    (cfg : Config) (peer : Text) (e : Engine) (here : Text) (l : Linked cfg peer e here)
    → callback cfg peer ≡ ack_url l.theirs
unfolding callback ack_url mode_of
same_callback cfg peer e here l = rw (l.known, l.same_mode, l.same_url) refl

-- The record of the key that came.
landed : (ExternalKey → Text) → (ℕ → ℕ) → Text → Config → Text → KeyId → Rec → Rec
unfolding transfer_of
landed digest clock here cfg peer id r =
    record (received digest clock here r.pair r.optional target
      (record { id = id; value = encode r.material; extension = r.key_extension })) { ready = true }

landed-Arrived :
    (digest : ExternalKey → Text) (clock : ℕ → ℕ) (here : Text) (cfg : Config) (peer : Text)
    → (id : KeyId) (r : Rec) → All (λ b. b < 256) r.material
    → Arrived here r (landed digest clock here cfg peer id r)
unfolding landed received blank or_empty
landed-Arrived digest clock here cfg peer id r small = record {
  material = rw (decode-encode r.material small) refl;
  pair = refl;
  key_extension = refl;
  optional = refl;
  sender = refl;
  role = refl;
  ready = refl;
  undelivered = refl;
}

roomy : (n c : ℕ) → n < c → ltb c (n + 1) ≡ false
roomy n c h = ground (arith, h)

-- The only key of a transfer is new and for a local slave.
accept_in-home :
    (digest : ExternalKey → Text) (clock : KeyId → ℕ → ℕ) (draw : KeyId → Text → KeyId)
    → (e : Engine) (here : Text) (cfg : Config) (peer : Text) (id : KeyId) (r : Rec)
    → Awaits e id r.pair
    → (s : Ledger) × (accept_in digest clock draw e here r.pair (transfer_of cfg peer id r) e.ledger
        ≡ ok (s, tt))
      × (lookup id s.records ≡ some (landed digest (clock id) here cfg peer id r))
unfolding accept_in accept_counted new_keys accept_keys accept_found accept_rest accept_new
    transfer_of add_record landed received blank
accept_in-home digest clock draw e here cfg peer id r w = (
  add_record (landed digest (clock id) here cfg peer id r) (record e.ledger {
    acks =
        enqueue (draw id here) e.ledger.acks here (landed digest (clock id) here cfg peer id r)
          relayed;
  }),
  rw (w.absent, accept_counted, roomy (length e.ledger.records) e.capacity w.room, w.home) refl,
  ground (
    arith,
    lookup-insert id id (landed digest (clock id) here cfg peer id r) e.ledger.records,
    text_eq_iff id id,
  ),
)

-- The transfer passes the tests before the transaction.
accept-passes :
    (digest : ExternalKey → Association → Extension → Text) (clock : KeyId → ℕ → ℕ)
    → (draw : KeyId → Text → KeyId) (e : Engine) (here : Text) (cfg : Config) (peer : Text)
    → (id : KeyId) (r : Rec) → Linked cfg peer e here
    → Sends cfg peer id r
    → Awaits e id r.pair
    → accept digest true clock draw e here (transfer_of cfg peer id r)
      ≡ committed true e (
          accept_in
            (λ k. digest k r.pair r.optional)
            clock
            draw
            e
            here
            r.pair
            (transfer_of cfg peer id r)
            e.ledger)
unfolding accept accept_checked accept_from change transfer_of pair_of first_target
accept-passes digest clock draw e here cfg peer id r l x w =
    let valid =
      validate_transfer-transfer_of cfg peer id r x.named x.bytes x.whole x.parties x.key_extension
        x.optional x.called_back x.short in
    let own : (callback cfg peer == ack_url l.theirs) ≡ true =
      (text_eq_iff (callback cfg peer) (ack_url l.theirs)).1 (same_callback cfg peer e here l) in
    rw
      (valid, accept_checked, l.knows, accept_from, l.may_send, own, w.allowed, w.foreign, w.intact)
      refl

-- What the worker sends for a record is accepted by the engine that it is for, when the two systems
-- know each other, the key, its parties, its extensions and the callback are within what the
-- messages allow, the receiver works and has room, does not have the key, has the pair among its
-- allowed ones, and serves the slave but not the master, and its journal keeps the change. The
-- receiver then has a record of that id, ready for the slave, with the bytes, the pair and both
-- extensions of the sender's record, from the sender.
pub accept-transfer_of :
    (digest : ExternalKey → Association → Extension → Text) (clock : KeyId → ℕ → ℕ)
    → (draw : KeyId → Text → KeyId) (e : Engine) (here : Text) (cfg : Config) (peer : Text)
    → (id : KeyId) (r : Rec) → Linked cfg peer e here
    → Sends cfg peer id r
    → Awaits e id r.pair
    → ((accept digest true clock draw e here (transfer_of cfg peer id r)).1 ≡ ok tt)
      × (z : Rec) × (lookup id
            (accept digest true clock draw e here (transfer_of cfg peer id r)).0.ledger.records
          ≡ some z)
      × Arrived here r z
unfolding committed
accept-transfer_of digest clock draw e here cfg peer id r l x w =
    let dg : ExternalKey → Text = λ k. digest k r.pair r.optional in
    let (s, done, there) = accept_in-home dg clock draw e here cfg peer id r w in
    let all =
      accept-passes digest clock draw e here cfg peer id r l x w ∙ ap (committed true e) done in
    (
      ap (λ o. o.1) all,
      landed dg (clock id) here cfg peer id r,
      ap (λ o. lookup id o.0.ledger.records) all ∙ there,
      landed-Arrived dg (clock id) here cfg peer id r x.bytes,
    )
