-- ===== src/Relay/Spent.antt =====
-- A key that was delivered or withdrawn is never delivered again.
use transeuroogs_kms.Common.{
  ◌≡◌, ◌⊎◌, refl, subst, ap, inl, inr, Bool, Option, text_eq_iff, Bool-cases, true, false, some,
  none, List, [], ◌∷◌, ◌++◌, arith, All, All-map, All-append, All-contains, contains,
  text_eq_instance, Text,
}
use transeuroogs_kms.Common.Dict.{Dict, lookup, lookup-adjust}
use transeuroogs_kms.Core.Errors.{Result, ok, err, panic}
use transeuroogs_kms.Core.Id.{KeyId}
use transeuroogs_kms.Core.Key.{Association, Delivery}
use transeuroogs_kms.Etsi020.{ExternalKey, Extension}
use transeuroogs_kms.Relay.{Rec, Ledger, Engine}
use transeuroogs_kms.Relay.Voiding.{start_void, withdraw}
use transeuroogs_kms.Relay.Serve.{
  Outcome, consume_reservation, consume_peer_keys, delivered_ids, change, committed, invalidate_key,
  invalidate_in, invalidated_found, void_record,
}
use transeuroogs_kms.Relay.Moves.{Sound, Grows, Keeps}
use transeuroogs_kms.Relay.Transitions.{invalidate_key-Keeps}
use transeuroogs_kms.Relay.Trace.{Call, consume, consume_peer, step, step-Moves}
use transeuroogs_kms.Relay.Live.{Has, Live}
use transeuroogs_kms.Relay.Gives.{Gives, consume_reservation-Gives, consume_peer_keys-Gives}

unfoldable pub handed_by : Result (List Delivery) → List KeyId
handed_by (ok ds) = delivered_ids ds
handed_by _ = []

-- The keys that a call delivers to an application.
unfoldable pub out : Engine → Bool × Call → List KeyId
unfolding handed_by
out e (saved, consume a token clock) = handed_by (consume_reservation saved clock e a token).1
out e (saved, consume_peer a ids clock) = handed_by (consume_peer_keys saved clock e a ids).1
out e _ = []

-- A record that was delivered or withdrawn.
abbrev pub Gone : Dict KeyId Rec → KeyId → Type 0
Gone = Has (λ r. (r.delivered ≡ true) ⊎ (r.voiding ≡ true))

pub Gone-Grows : (a b : Dict KeyId Rec) (id : KeyId) → Grows a b → Gone a id → Gone b id
Gone-Grows a b id g (r, found, gone) =
    let (r', found', f) = g id r found in
    (
      r',
      found',
      elim gone [ inl d ↦ inl (f.stays_delivered d) | inr w ↦ inr (f.stays_withdrawn w) ],
    )

not_Gone-Live : (rs : Dict KeyId Rec) (id : KeyId) → Live rs id → ¬ (Gone rs id)
not_Gone-Live rs id (r, found, live) (x, found', gone) = ground arith

pub record Hands (a b : Dict KeyId Rec) (ids : List KeyId) : Type 0 where
  pub gone_after : All (Gone b) ids
  pub not_before : All (λ id. ¬ (Gone a id)) ids

pub Hands-Gives :
    (e : Engine) (o : Outcome (List Delivery))
    → Gives e o
    → Hands e.ledger.records o.0.ledger.records (handed_by o.1)
unfolding Gives handed_by
Hands-Gives e (e', ok ds) h = record {
  gone_after = All-map _ _ (λ id (r, found, d). (r, found, inl d)) (delivered_ids ds) h.0;
  not_before = All-map _ _ (λ id live. not_Gone-Live _ id live) (delivered_ids ds) h.1;
}
Hands-Gives e (e', err x) h = record { gone_after = tt; not_before = tt }
Hands-Gives e (e', panic) h = record { gone_after = tt; not_before = tt }

nothing : (a b : Dict KeyId Rec) → Hands a b []
nothing a b = record { gone_after = tt; not_before = tt }

-- A transaction that returns marked the record of `id`.
unfoldable Marks : KeyId → Result (Ledger × Unit {0}) → Type 0
Marks id (ok (s, _)) = Gone s.records id
Marks id (err x) = Unit
Marks id panic = Unit

start_void-voiding : (peer : Text) (r : Rec) → (start_void peer r).voiding ≡ true
unfolding start_void withdraw
start_void-voiding peer r = elim (Bool-cases r.voiding) [
  | inl before ↦ ground arith
  | inr fresh ↦ ground arith
]

invalidated_found-Marks :
    (draw : Text → KeyId) (id : KeyId) (s : Ledger) (o : Option Rec)
    → lookup id s.records ≡ o
    → Marks id (invalidated_found draw id s o)
unfolding invalidated_found void_record Marks
invalidated_found-Marks draw id s none found = tt
invalidated_found-Marks draw id s (some r) found = (
  start_void [] r,
  ground (arith, lookup-adjust id id (start_void []) s.records, text_eq_iff id id, found),
  inr (start_void-voiding [] r),
)

committed_marked :
    (saved : Bool) (e e' : Engine) (id : KeyId) (res : Result (Ledger × Unit {0})) (u : Unit {0})
    → Marks id res
    → committed saved e res ≡ (e', ok u)
    → Gone e'.ledger.records id
unfolding committed Marks
committed_marked true e e' id (ok (s, _)) u h same =
    subst (λ x. Gone x.ledger.records id) (ap (λ x. x.0) same) h
committed_marked false e e' id (ok (s, _)) u h same = absurd (ground (arith, ap (λ x. x.1) same))
committed_marked saved e e' id (err x) u h same = absurd (ground (arith, ap (λ x. x.1) same))
committed_marked saved e e' id panic u h same = absurd (ground (arith, ap (λ x. x.1) same))

invalidate_key-Sound :
    (saved : Bool) (draw : Text → KeyId) (e : Engine) (id : KeyId)
    → Sound e.ledger.records
    → Sound (invalidate_key saved draw e id).0.ledger.records
unfolding Keeps
invalidate_key-Sound saved draw e id v = (invalidate_key-Keeps saved draw e id v).0

invalidate_marked :
    (saved : Bool) (draw : Text → KeyId) (e e' : Engine) (id : KeyId)
    → invalidate_key saved draw e id ≡ (e', ok tt)
    → Gone e'.ledger.records id
unfolding invalidate_key change invalidate_in
invalidate_marked saved draw e e' id done = elim (Bool-cases e.broken) [
  | inl dead ↦ absurd (ground (arith, ap (λ x. x.1) done, dead))
  | inr well ↦
      committed_marked saved e e' id
        (invalidated_found draw id e.ledger (lookup id e.ledger.records)) tt
        (invalidated_found-Marks draw id e.ledger (lookup id e.ledger.records) refl)
        (ground (arith, done, well))
]

module _ (hash : ExternalKey → Association → Extension → Text) where
  -- All that a run delivers.
  unfoldable pub handed : Engine → List (Bool × Call) → List KeyId
  handed e [] = []
  handed e (c ∷ cs) = out e c ++ handed (step hash e c) cs

  step-Hands :
      (e : Engine) (c : Bool × Call)
      → Sound e.ledger.records
      → Hands e.ledger.records (step hash e c).ledger.records (out e c)
  unfolding step out
  step-Hands e (saved, consume a token clock) v =
      Hands-Gives e _ (consume_reservation-Gives saved clock e a token v)
  step-Hands e (saved, consume_peer a ids clock) v =
      Hands-Gives e _ (consume_peer_keys-Gives saved clock e a ids v)
  step-Hands e (saved, Call.store k now) v = nothing _ _
  step-Hands e (saved, Call.reserve a n clock draw) v = nothing _ _
  step-Hands e (saved, Call.invalidate id draw) v = nothing _ _
  step-Hands e (saved, Call.transfer peer t clock draw) v = nothing _ _
  step-Hands e (saved, Call.acks peer answers clock draw) v = nothing _ _
  step-Hands e (saved, Call.withdrawal peer x clock draw) v = nothing _ _
  step-Hands e (saved, Call.expiry first clock draw) v = nothing _ _
  step-Hands e (saved, Call.settle answered again id) v = nothing _ _
  step-Hands e (saved, Call.put_back again id) v = nothing _ _
  step-Hands e (saved, Call.commit now again id peer) v = nothing _ _

  handed-Gone :
      (e : Engine) (cs : List (Bool × Call))
      → Sound e.ledger.records
      → All (λ id. ¬ (Gone e.ledger.records id)) (handed e cs)
  unfolding handed
  handed-Gone e [] v = tt
  handed-Gone e (c ∷ cs) v = All-append _ (out e c) _ (step-Hands e c v).not_before (
      All-map _ _ (λ id no g. no (Gone-Grows _ _ id (step-Moves hash e c v).1 g)) _
        (handed-Gone (step hash e c) cs (step-Moves hash e c v).0))

  -- From sound records, a key that a record marks as delivered or withdrawn is in no delivery of
  -- any sequence of transactions that follows.
  pub Gone-never_handed :
      (e : Engine) (cs : List (Bool × Call)) (id : KeyId)
      → Sound e.ledger.records
      → Gone e.ledger.records id
      → contains (handed e cs) id ≡ false
  Gone-never_handed e cs id v gone = elim (Bool-cases (contains (handed e cs) id)) [
    | inl again ↦ absurd (All-contains _ _ id (handed-Gone e cs v) again gone)
    | inr no_more ↦ no_more
  ]

  -- From sound records, a key that one transaction delivers to an application, of either side,
  -- is delivered by no transaction after it.
  pub delivered_once :
      (e : Engine) (c : Bool × Call) (cs : List (Bool × Call))
      → Sound e.ledger.records
      → All (λ id. contains (handed (step hash e c) cs) id ≡ false) (out e c)
  delivered_once e c cs v =
      All-map _ _
        (λ id gone. Gone-never_handed (step hash e c) cs id (step-Moves hash e c v).0 gone)
        (out e c) (step-Hands e c v).gone_after

  -- From sound records, when `InvalidateKey` returns without an error, the key is in no delivery
  -- of any sequence of transactions that follows.
  pub invalidated_never_handed :
      (saved : Bool) (draw : Text → KeyId) (e e' : Engine) (id : KeyId) (cs : List (Bool × Call))
      → Sound e.ledger.records
      → invalidate_key saved draw e id ≡ (e', ok tt)
      → contains (handed e' cs) id ≡ false
  invalidated_never_handed saved draw e e' id cs v done =
      Gone-never_handed e' cs id
        (subst (λ x. Sound x.0.ledger.records) done (invalidate_key-Sound saved draw e id v))
        (invalidate_marked saved draw e e' id done)
