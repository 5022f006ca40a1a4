-- ===== src/Ingest/Ended.antt =====
-- The life of a stored key: once its state is terminal it stays terminal.
use mathlib.Core.Option
use transeuroogs_kms.Common.{
  ℕ, ◌≡◌, refl, inl, inr, Bool-cases, true, false, none, some, List, [], ◌∷◌, arith, text_eq,
  text_eq_instance, text_eq_iff, if◌then◌else◌, if_split, All, All-map,
}
use transeuroogs_kms.Common.Dict.{Dict, lookup, insert, adjust, lookup-insert, lookup-adjust}
use transeuroogs_kms.Core.Id.{KeyId}
use transeuroogs_kms.Core.Key.{State, reserved, consumed, terminal, Delivery}
use transeuroogs_kms.Ingest.{Stored, Request}
use transeuroogs_kms.Ingest.Serve.{
  end_key, due, sweep_key, sweep_keys, end_keys, place, put_all, mark_consumed,
}

-- The key is in the book, with the property.
abbrev pub Has : (Stored → Type 0) → Dict KeyId Stored → KeyId → Type 0
Has P ks id = (k : Stored) × (lookup id ks ≡ some k) × P k

-- It will never be delivered.
abbrev pub Ended : Dict KeyId Stored → KeyId → Type 0
Ended = Has (λ k. terminal k.state ≡ true)

abbrev pub Known : Dict KeyId Stored → KeyId → Type 0
Known = Has (λ k. Unit {0})

-- Whatever ended stays ended.
abbrev pub Grows : Dict KeyId Stored → Dict KeyId Stored → Type 0
Grows ks ks' = (id : KeyId) → Ended ks id → Ended ks' id

-- A change of one key that does not revive it.
abbrev pub Final : (Stored → Stored) → Type 0
Final f = (k : Stored) → terminal k.state ≡ true → terminal (f k).state ≡ true

Has-adjust :
    (P : Stored → Type 0) (f : Stored → Stored) (id j : KeyId) (ks : Dict KeyId Stored)
    → ((k : Stored) → P k → P (f k))
    → Has P ks j
    → Has P (adjust id f ks) j
Has-adjust P f id j ks keep (k, found, p) = (
  if text_eq id j then f k else k,
  ground (arith, lookup-adjust id j f ks, found),
  if_split P (text_eq id j) (f k) k (λ _. keep k p) (λ _. p),
)

pub Grows-adjust :
    (f : Stored → Stored) (id : KeyId) (ks : Dict KeyId Stored)
    → Final f
    → Grows ks (adjust id f ks)
Grows-adjust f id ks final j ended = Has-adjust _ f id j ks final ended

pub Known-adjust :
    (f : Stored → Stored) (id j : KeyId) (ks : Dict KeyId Stored)
    → Known ks j
    → Known (adjust id f ks) j
Known-adjust f id j ks known = Has-adjust _ f id j ks (λ k _. tt) known

Ended-adjust :
    (f : Stored → Stored) (id : KeyId) (ks : Dict KeyId Stored)
    → ((k : Stored) → terminal (f k).state ≡ true)
    → Known ks id
    → Ended (adjust id f ks) id
Ended-adjust f id ks ends (k, found, _) =
    (f k, ground (arith, lookup-adjust id id f ks, text_eq_iff id id, found), ends k)

-- A key that did not end may be written anew.
pub Grows-insert :
    (id : KeyId) (k : Stored) (ks : Dict KeyId Stored) → ¬ (Ended ks id) → Grows ks (insert id k ks)
Grows-insert id k ks fresh j (x, found, ended) = elim (Bool-cases (text_eq id j)) [
  | inl here ↦ absurd (fresh (x, ground (arith, (text_eq_iff id j).0 here, found), ended))
  | inr there ↦ (x, ground (arith, lookup-insert id j k ks, there, found), ended)
]

pub not_Ended-insert :
    (id j : KeyId) (k : Stored) (ks : Dict KeyId Stored)
    → terminal k.state ≡ false
    → ¬ (Ended ks j)
    → ¬ (Ended (insert id k ks) j)
not_Ended-insert id j k ks live fresh (x, found, ended) = elim (Bool-cases (text_eq id j)) [
  | inl here ↦ ground (arith, lookup-insert id j k ks, here, found, ended, live)
  | inr there ↦ fresh (x, ground (arith, lookup-insert id j k ks, there, found), ended)
]

pub not_Ended_lem : (id : KeyId) (ks : Dict KeyId Stored) → lookup id ks ≡ none → ¬ (Ended ks id)
not_Ended_lem id ks absent (k, found, _) = cc (absent, found)

pub lookup-sweep_keys :
    (sweep : KeyId → ℕ) (id : KeyId) (ks : Dict KeyId Stored)
    → lookup id (sweep_keys sweep ks) ≡ Option.map (sweep_key (sweep id)) (lookup id ks)
unfolding lookup sweep_keys
lookup-sweep_keys sweep id [] = refl
lookup-sweep_keys sweep id ((j, k) ∷ ks) =
    ground (arith, text_eq_iff j id, lookup-sweep_keys sweep id ks)

sweep_key-Final : (now : ℕ) → Final (sweep_key now)
unfolding sweep_key due end_key terminal
sweep_key-Final now k ended = ground arith

pub Grows-sweep_keys : (sweep : KeyId → ℕ) (ks : Dict KeyId Stored) → Grows ks (sweep_keys sweep ks)
Grows-sweep_keys sweep ks id (k, found, ended) = (
  sweep_key (sweep id) k,
  ground (arith, lookup-sweep_keys sweep id ks, found),
  sweep_key-Final (sweep id) k ended,
)

end_key-Final : (s : State) → terminal s ≡ true → Final (end_key s)
unfolding end_key
end_key-Final s t k ended = t

pub Grows-trans : (a b c : Dict KeyId Stored) → Grows a b → Grows b c → Grows a c
Grows-trans a b c f g id ended = g id (f id ended)

pub Grows-end_keys :
    (s : State) (ids : List KeyId) (ks : Dict KeyId Stored)
    → terminal s ≡ true
    → Grows ks (end_keys s ids ks)
unfolding end_keys
Grows-end_keys s [] ks t id ended = ended
Grows-end_keys s (j ∷ ids) ks t id ended =
    Grows-end_keys s ids (adjust j (end_key s) ks) t id
      (Grows-adjust (end_key s) j ks (end_key-Final s t) id ended)

-- All the keys of the loop are ended by it.
pub end_keys-Ended :
    (s : State) (ids : List KeyId) (ks : Dict KeyId Stored)
    → terminal s ≡ true
    → All (Known ks) ids
    → All (Ended (end_keys s ids ks)) ids
unfolding end_keys
end_keys-Ended s [] ks t h = tt
end_keys-Ended s (id ∷ ids) ks t (known, rest) =
    let after = adjust id (end_key s) ks in
    (
      Grows-end_keys s ids after t id
          (Ended-adjust (end_key s) id ks (unfold end_key in λ k. t) known),
      end_keys-Ended s ids after t
          (All-map _ _ (λ j h. Known-adjust (end_key s) id j ks h) ids rest),
    )

abbrev consume_key : Stored → Stored
consume_key k = record k { state = consumed }

pub Grows-mark_consumed :
    (ids : List KeyId) (ks : Dict KeyId Stored) → Grows ks (mark_consumed ids ks)
unfolding mark_consumed terminal
Grows-mark_consumed [] ks id ended = ended
Grows-mark_consumed (j ∷ ids) ks id ended =
    Grows-mark_consumed ids (adjust j consume_key ks) id
      (Grows-adjust consume_key j ks (λ k _. refl) id ended)

pub mark_consumed-Ended :
    (ids : List KeyId) (ks : Dict KeyId Stored)
    → All (Known ks) ids
    → All (Ended (mark_consumed ids ks)) ids
unfolding mark_consumed terminal
mark_consumed-Ended [] ks h = tt
mark_consumed-Ended (id ∷ ids) ks (known, rest) =
    let after = adjust id consume_key ks in
    (
      Grows-mark_consumed ids after id (Ended-adjust consume_key id ks (λ k. refl) known),
      mark_consumed-Ended ids after
          (All-map _ _ (λ j h. Known-adjust consume_key id j ks h) ids rest),
    )

pub Grows-place :
    (now expires : ℕ) (ids : List KeyId) (ks : Dict KeyId Stored)
    → All (λ id. ¬ (Ended ks id)) ids
    → Grows ks (place now expires ids ks)
unfolding place terminal
Grows-place now expires [] ks fresh id ended = ended
Grows-place now expires (j ∷ ids) ks (fresh, rest) id ended =
    Grows-place now expires ids _ (All-map _ _ (λ i f. not_Ended-insert j i _ ks refl f) ids rest)
      id (Grows-insert j _ ks fresh id ended)

Known-insert :
    (id j : KeyId) (k : Stored) (ks : Dict KeyId Stored) → Known ks j → Known (insert id k ks) j
Known-insert id j k ks (x, found, _) =
    (if text_eq id j then k else x, ground (arith, lookup-insert id j k ks, found), tt)

Known-place_kept :
    (now expires : ℕ) (ids : List KeyId) (id : KeyId) (ks : Dict KeyId Stored)
    → Known ks id
    → Known (place now expires ids ks) id
unfolding place
Known-place_kept now expires [] id ks known = known
Known-place_kept now expires (j ∷ ids) id ks known =
    Known-place_kept now expires ids id _ (Known-insert j id _ ks known)

pub place-Known :
    (now expires : ℕ) (ids : List KeyId) (ks : Dict KeyId Stored)
    → All (Known (place now expires ids ks)) ids
unfolding place
place-Known now expires [] ks = tt
place-Known now expires (id ∷ ids) ks =
    let k : Stored = record {
      id = id;
      material = [];
      state = reserved;
      created = now;
      expires = expires;
    } in
    (
      Known-place_kept now expires ids id (insert id k ks)
          (k, ground (arith, lookup-insert id id k ks, text_eq_iff id id), tt),
      place-Known now expires ids (insert id k ks),
    )

pub Grows-put_all :
    (q : Request) (ds : List Delivery) (ks : Dict KeyId Stored)
    → All (λ d. ¬ (Ended ks d.id)) ds
    → Grows ks (put_all q ds ks)
unfolding put_all terminal
Grows-put_all q [] ks fresh id ended = ended
Grows-put_all q (d ∷ ds) ks (fresh, rest) id ended =
    Grows-put_all q ds _ (All-map _ _ (λ x f. not_Ended-insert d.id x.id _ ks refl f) ds rest) id
      (Grows-insert d.id _ ks fresh id ended)
