-- ===== src/Relay/Arrivals.antt =====
-- Keys that arrive from sources and peers keep the records too, and adds sound ones.
use transeuroogs_kms.Common.{
  ℕ, ◌+◌, ◌≡◌, refl, Bool, true, false, not, ◌||◌, Option, none, some, List, [], ◌∷◌, Text, ◌==◌,
  text_eq_instance, arith, if_split, ltb, leb, length, contains,
}
use transeuroogs_kms.Common.Dict.{lookup}
use transeuroogs_kms.Core.Errors.{Error, Result, ok, err, panic}
use transeuroogs_kms.Core.Id.{KeyId}
use transeuroogs_kms.Core.Key.{Association, association_eq_instance, Key, validate}
use transeuroogs_kms.Etsi020.{ExternalKey, Extension, Transfer, relayed}
use transeuroogs_kms.Etsi020.Validate.{validate_transfer}
use transeuroogs_kms.Peering.{Peer}
use transeuroogs_kms.Relay.{Rec, Ledger, Engine, relay, target}
use transeuroogs_kms.Relay.Voiding.{enqueue}
use transeuroogs_kms.Relay.Serve.{is_local}
use transeuroogs_kms.Relay.Sources.{
  candidates, candidates_on, add_record, blank, source_record, source_routed, source_found,
  store_source, store_checked, store_key,
}
use transeuroogs_kms.Relay.Accept.{
  lapse, new_keys, received, relay_routed, accept_new, accept_found, accept_rest, accept_keys,
  accept_counted, accept_in, accept_from, accept_checked, accept, ack_url, pair_of,
}
use transeuroogs_kms.Relay.Forward.{Kept, lapse-Fair}
use transeuroogs_kms.Relay.Moves.{
  Moves, Moves-refl, Moves-trans, Moves-adjust, Moves-insert, Leads, Leads-ok, Leads-err,
  Leads-panic, Keeps, Keeps-same, change-Keeps,
}

-- A record that is neither withdrawn nor delivered is sound.
pub live-Kept : (r : Rec) → r.voiding ≡ false → r.delivered ≡ false → Kept r
live-Kept r v d = ground arith

-- Choosing a route leaves the records alone.
candidates_on-records :
    (route : List Text) (s : Ledger) (to sender : Text)
    → (candidates_on route s to sender).0.records ≡ s.records
unfolding candidates_on
candidates_on-records [] s to sender = refl
candidates_on-records (p ∷ route) s to sender = refl

candidates-records :
    (e : Engine) (s : Ledger) (to sender : Text) → (candidates e s to sender).0.records ≡ s.records
unfolding candidates
candidates-records e s to sender = candidates_on-records _ s to sender

pub add_record-Moves :
    (r : Rec) (s : Ledger)
    → lookup r.id s.records ≡ none
    → Kept r
    → Moves s.records (add_record r s).records
unfolding add_record
add_record-Moves r s absent k = Moves-insert r.id r s.records absent k

source_routed-Leads :
    (digest : ExternalKey → Association → Extension → Text)
    → (k : Key) (s : Ledger) (o : Ledger × List Text) → o.0.records ≡ s.records
    → lookup k.id s.records ≡ none
    → Leads s (source_routed digest k o)
unfolding source_routed source_record blank
source_routed-Leads digest k s (t, []) same absent = Leads-err _ s _
source_routed-Leads digest k s (t, p ∷ route) same absent =
    let r = source_record digest k (p ∷ route) in
    Leads-ok s _ _
      (rw⁻¹ same (add_record-Moves r t (ground (arith, same, absent)) (live-Kept r refl refl)))

source_found-Leads :
    (digest : ExternalKey → Association → Extension → Text)
    → (e : Engine) (k : Key) (s : Ledger) (o : Option Rec) → lookup k.id s.records ≡ o
    → Leads s (source_found digest e k s o)
unfolding source_found
source_found-Leads digest e k s (some r) found = Leads-err _ s _
source_found-Leads digest e k s none found =
    if_split (Leads s) (leb e.capacity (length s.records)) _ _ (λ _. Leads-err _ s _)
      (λ _.
        source_routed-Leads digest k s (candidates e s k.association.slave [])
          (candidates-records e s k.association.slave []) found)

store_checked-Keeps :
    (digest : ExternalKey → Association → Extension → Text)
    → (saved : Bool) (e : Engine) (k : Key) (x : Option Error)
    → Keeps e (store_checked digest saved e k x)
unfolding store_checked store_source
store_checked-Keeps digest saved e k (some x) = Keeps-same e _
store_checked-Keeps digest saved e k none =
    if_split (Keeps e)
      (not (contains e.allowed k.association)
        || not (is_local e k.association.master)
        || is_local e k.association.slave)
      _ _ (λ _. Keeps-same e _)
      (λ _.
        change-Keeps saved e (store_source digest e k)
          (source_found-Leads digest e k e.ledger (lookup k.id e.ledger.records) refl))

pub store_key-Keeps :
    (digest : ExternalKey → Association → Extension → Text)
    → (saved : Bool) (e : Engine) (k : Key) (now : ℕ) → Keeps e (store_key digest saved e k now)
unfolding store_key
store_key-Keeps digest saved e k now = store_checked-Keeps digest saved e k (validate k now)

-- The same for a transaction that is one round of a loop.
unfoldable pub Goes : Ledger → Result Ledger → Type 0
Goes s (ok t) = Moves s.records t.records
Goes s (err e) = Unit
Goes s panic = Unit

relay_routed-Goes :
    (r : Rec) (s : Ledger) (o : Ledger × List Text)
    → o.0.records ≡ s.records
    → lookup r.id s.records ≡ none
    → r.voiding ≡ false
    → r.delivered ≡ false
    → Goes s (relay_routed r o)
unfolding relay_routed Goes
relay_routed-Goes r s (t, []) same absent v d = tt
relay_routed-Goes r s (t, p ∷ route) same absent v d = rw⁻¹ same (
    add_record-Moves (record r { candidates = p ∷ route }) t (ground (arith, same, absent))
      (live-Kept (record r { candidates = p ∷ route }) v d))

accept_new-Goes :
    (digest : ExternalKey → Text) (clock : ℕ → ℕ) (draw : Text → KeyId)
    → (e : Engine) (peer : Text) (a : Association) (optional : Extension) (k : ExternalKey)
      (s : Ledger)
    → lookup k.id s.records ≡ none
    → Goes s (accept_new digest clock draw e peer a optional k s)
unfolding accept_new received blank
accept_new-Goes digest clock draw e peer a optional k s absent =
    let r = record (received digest clock peer a optional target k) { ready = true } in
    if_split (Goes s) (is_local e a.slave) _ _
      (λ _.
        unfold Goes in
        add_record-Moves r (record s { acks = enqueue (draw peer) s.acks peer r relayed }) absent
          (live-Kept r refl refl))
      (λ _.
        relay_routed-Goes (received digest clock peer a optional relay k) s
          (candidates e s a.slave peer) (candidates-records e s a.slave peer) absent refl refl)

accept_found-Goes :
    (digest : ExternalKey → Text) (clock : ℕ → ℕ) (draw : Text → KeyId)
    → (e : Engine) (peer : Text) (a : Association) (optional : Extension) (k : ExternalKey)
      (s : Ledger)
    → (o : Option Rec) → lookup k.id s.records ≡ o
    → Goes s (accept_found digest clock draw e peer a optional k s o)
unfolding accept_found
accept_found-Goes digest clock draw e peer a optional k s (some r) found =
    unfold Goes in Moves-adjust (lapse (clock 0) peer) k.id s.records (lapse-Fair (clock 0) peer)
accept_found-Goes digest clock draw e peer a optional k s none found =
    accept_new-Goes digest clock draw e peer a optional k s found

Leads-trans :
    (s t : Ledger) (res : Result (Ledger × Unit {0}))
    → Moves s.records t.records
    → Leads t res
    → Leads s res
unfolding Leads
Leads-trans s t (ok (u, _)) m h = Moves-trans s.records t.records u.records m h
Leads-trans s t (err e) m h = tt
Leads-trans s t panic m h = tt

pub accept_rest-Leads :
    (go : Ledger → Result (Ledger × Unit {0})) (s : Ledger) (res : Result Ledger)
    → ((t : Ledger) → Leads t (go t))
    → Goes s res
    → Leads s (accept_rest go res)
unfolding accept_rest Goes
accept_rest-Leads go s (ok t) more m = Leads-trans s t (go t) m (more t)
accept_rest-Leads go s (err e) more m = Leads-err _ s e
accept_rest-Leads go s panic more m = Leads-panic _ s

accept_keys-Leads :
    (digest : ExternalKey → Text) (clock : KeyId → ℕ → ℕ) (draw : KeyId → Text → KeyId)
    → (e : Engine) (peer : Text) (a : Association) (optional : Extension)
    → (ks : List ExternalKey) (s : Ledger)
    → Leads s (accept_keys digest clock draw e peer a optional ks s)
unfolding accept_keys
accept_keys-Leads digest clock draw e peer a optional [] s = Leads-ok s _ _ (Moves-refl s.records)
accept_keys-Leads digest clock draw e peer a optional (k ∷ ks) s =
    accept_rest-Leads (accept_keys digest clock draw e peer a optional ks) s _
      (accept_keys-Leads digest clock draw e peer a optional ks)
      (accept_found-Goes digest (clock k.id) (draw k.id) e peer a optional k s
        (lookup k.id s.records) refl)

accept_counted-Leads :
    (e : Engine) (s : Ledger) (n : Result ℕ) (go : Result (Ledger × Unit {0}))
    → Leads s go
    → Leads s (accept_counted e s n go)
unfolding accept_counted
accept_counted-Leads e s (ok n) go h =
    if_split (Leads s) (ltb e.capacity (length s.records + n)) _ _ (λ _. Leads-err _ s _) (λ _. h)
accept_counted-Leads e s (err x) go h = Leads-err _ s x
accept_counted-Leads e s panic go h = Leads-panic _ s

accept_from-Keeps :
    (digest : ExternalKey → Association → Extension → Text)
    → (saved : Bool) (clock : KeyId → ℕ → ℕ) (draw : KeyId → Text → KeyId)
    → (e : Engine) (peer : Text) (t : Transfer) (o : Option Peer)
    → Keeps e (accept_from digest saved clock draw e peer t o)
unfolding accept_from accept_in
accept_from-Keeps digest saved clock draw e peer t none = Keeps-same e _
accept_from-Keeps digest saved clock draw e peer t (some p) =
    let a = pair_of t.initiator t.targets in
    if_split (Keeps e)
      (not p.incoming
        || not (t.callback == ack_url p)
        || not (contains e.allowed a)
        || is_local e a.master)
      _ _ (λ _. Keeps-same e _)
      (λ _. change-Keeps saved e (accept_in (λ k. digest k a t.optional) clock draw e peer a t) (
        accept_counted-Leads e e.ledger
          (new_keys (λ k. digest k a t.optional) peer a t.keys e.ledger.records) _
          (accept_keys-Leads (λ k. digest k a t.optional) clock draw e peer a t.optional t.keys
            e.ledger)))

accept_checked-Keeps :
    (digest : ExternalKey → Association → Extension → Text)
    → (saved : Bool) (clock : KeyId → ℕ → ℕ) (draw : KeyId → Text → KeyId)
    → (e : Engine) (peer : Text) (t : Transfer) (x : Option Error)
    → Keeps e (accept_checked digest saved clock draw e peer t x)
unfolding accept_checked
accept_checked-Keeps digest saved clock draw e peer t (some x) = Keeps-same e _
accept_checked-Keeps digest saved clock draw e peer t none =
    accept_from-Keeps digest saved clock draw e peer t (lookup peer e.cfg.peers)

pub accept-Keeps :
    (digest : ExternalKey → Association → Extension → Text)
    → (saved : Bool) (clock : KeyId → ℕ → ℕ) (draw : KeyId → Text → KeyId)
    → (e : Engine) (peer : Text) (t : Transfer) → Keeps e (accept digest saved clock draw e peer t)
unfolding accept
accept-Keeps digest saved clock draw e peer t =
    accept_checked-Keeps digest saved clock draw e peer t (validate_transfer t)
