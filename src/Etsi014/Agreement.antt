-- ===== src/Etsi014/Agreement.antt =====
-- The client against the server and against the persistent repository.
use transeuroogs_kms.Common.{
  ℕ, suc, ◌≡◌, ◌<◌, ◌/◌, refl, ap, ◌∙◌, sym, inl, inr, Bool, Bool-cases, true, false, not, ◌||◌,
  Option, Option-cases, some, List, [], ◌∷◌, Text, ◌==◌, text_eq_iff, text_eq_instance, contains,
  Distinct, nat_eq, ltb, length, if◌then◌else◌, All, arith, map, if_split, ascii,
}
use transeuroogs_kms.Common.Dict.{Dict}
use transeuroogs_kms.Core.Errors.{Error, Result, ok, err, panic, unavailable}
use transeuroogs_kms.Core.Id.{KeyId, valid_id}
use transeuroogs_kms.Core.Key.{Delivery, key_bits}
use transeuroogs_kms.Etsi020.Base64.{encode, decode}
use transeuroogs_kms.Etsi020.Bytes.{decode-encode}
use transeuroogs_kms.Etsi014.Messages.{KeyValue, KeyContainer}
use transeuroogs_kms.Etsi014.Client.{key_bad, more_keys, keys_read, validate_keys, unrequested}
use transeuroogs_kms.Core.Key.{max_batch}
use transeuroogs_kms.Core.Errors.{invalid, unauthorized}
use transeuroogs_kms.Upstream.{Config, slave}
use transeuroogs_kms.Etsi014.Client.{
  Library, Sent, Reply, then_result, read_container, retrieve, ids_fine, listed,
}
use transeuroogs_kms.Etsi014.Server.{values_of}
use transeuroogs_kms.Ingest.{Stored, Request}
use transeuroogs_kms.Ingest.Serve.{batch_fine, validate}

ok-injective : {A : Type 0} (a b : A) → ok a ≡ ok b → a ≡ b
ok-injective a b h = cc

more_keys_ok :
    (d : Delivery) (r : Result (List Delivery)) (ds : List Delivery)
    → more_keys d r ≡ ok ds
    → (es : List Delivery) × (r ≡ ok es) × (d ∷ es ≡ ds)
unfolding more_keys
more_keys_ok d (ok es) ds h = (es, refl, ok-injective (d ∷ es) ds h)
more_keys_ok d (err e) ds h = absurd cc
more_keys_ok d panic ds h = absurd cc

-- A container that was read: the first key, and the others.
record ReadFirst (ids : Option (List KeyId)) (seen : List KeyId) (v : KeyValue) (vs : KeyContainer)
    (ds : List Delivery) : Type 0 where
  material : List ℕ
  others : List Delivery
  fine : key_bad ids seen v material ≡ false
  is_first : record { id = v.id; material = material } ∷ others ≡ ds
  read_others : keys_read ids (v.id ∷ seen) vs ≡ ok others

keys_read_first :
    (ids : Option (List KeyId)) (seen : List KeyId) (v : KeyValue) (vs : KeyContainer)
    → (ds : List Delivery) → keys_read ids seen (v ∷ vs) ≡ ok ds
    → ReadFirst ids seen v vs ds
unfolding keys_read
keys_read_first ids seen v vs ds h = elim (Option-cases (decode v.key)) [
  | inl undecoded ↦ absurd (ground (arith, h, undecoded))
  | inr (material, decoded) ↦ elim (Bool-cases (key_bad ids seen v material)) [
    | inl wrong ↦ absurd (ground (arith, h, decoded, wrong))
    | inr right ↦
        let d : Delivery = record { id = v.id; material = material } in
        let (es, later, same) =
          more_keys_ok d (keys_read ids (v.id ∷ seen) vs) ds (ground (arith, h, decoded, right)) in
        record {
          material = material;
          others = es;
          fine = right;
          is_first = same;
          read_others = later;
        }
  ]
]

keys_read-length :
    (ids : Option (List KeyId)) (seen : List KeyId) (vs : KeyContainer) (ds : List Delivery)
    → keys_read ids seen vs ≡ ok ds
    → length ds ≡ length vs
unfolding keys_read
keys_read-length ids seen [] ds h = ap length (sym (ok-injective [] ds h))
keys_read-length ids seen (v ∷ vs) ds h =
    let f = keys_read_first ids seen v vs ds h in
    ap length (sym f.is_first)
    ∙ ap suc (keys_read-length ids (v.id ∷ seen) vs f.others f.read_others)

first_fine :
    (ids : List KeyId) (ks : Dict KeyId Stored) (seen : List KeyId) (v : KeyValue)
    (vs : KeyContainer)
    → (ds : List Delivery) (f : ReadFirst (some ids) seen v vs ds)
    → batch_fine true ids ks (v.id ∷ seen) f.others ≡ true
    → batch_fine true ids ks seen (record { id = v.id; material = f.material } ∷ f.others) ≡ true
unfolding batch_fine key_bad unrequested
first_fine ids ks seen v vs ds f later = ground (arith, f.fine, later)

keys_read-fine :
    (ids : List KeyId) (ks : Dict KeyId Stored) (seen : List KeyId) (vs : KeyContainer)
    → (ds : List Delivery) → keys_read (some ids) seen vs ≡ ok ds
    → batch_fine true ids ks seen ds ≡ true
unfolding keys_read batch_fine
keys_read-fine ids ks seen [] ds h = ap (batch_fine true ids ks seen) (sym (ok-injective [] ds h))
keys_read-fine ids ks seen (v ∷ vs) ds h =
    let f = keys_read_first (some ids) seen v vs ds h in
    ap (batch_fine true ids ks seen) (sym f.is_first)
    ∙ first_fine ids ks seen v vs ds f
        (keys_read-fine ids ks (v.id ∷ seen) vs f.others f.read_others)

validate_keys-validate :
    (ks : KeyContainer) (ids : List KeyId) (ds : List Delivery) (now : ℕ) (q : Request)
    → (book : Dict KeyId Stored) → q.ids ≡ ids
    → q.count ≡ length ids
    → now < q.expires
    → validate_keys ks (length ids) (some ids) ≡ ok ds
    → validate now q true book ds ≡ true
unfolding validate_keys validate
validate_keys-validate ks ids ds now q book same count early =
    if_split (λ x. x ≡ ok ds → validate now q true book ds ≡ true)
      (not (nat_eq (length ks) (length ids))) (err unavailable) (keys_read (some ids) [] ks)
      (λ _ h. absurd cc)
      (λ many h. ground (
        arith,
        keys_read-fine ids book [] ks ds h,
        keys_read-length (some ids) [] ks ds h,
        many,
        same,
        count,
        early,
      ))

then_result_ok :
    {A B : Type 0} (x : Result A) (f : A → Result B) (b : B)
    → then_result x f ≡ ok b
    → (a : A) × (x ≡ ok a) × (f a ≡ ok b)
unfolding then_result
then_result_ok (ok a) f b h = (a, refl, h)
then_result_ok (err e) f b h = absurd cc
then_result_ok panic f b h = absurd cc

-- A chain of guards that ended well passed them.
guard_ok :
    {A : Type 0} (t : Bool) (e : Error) (x : Result A) (a : A)
    → (if t then err e else x) ≡ ok a
    → x ≡ ok a
guard_ok true e x a h = absurd cc
guard_ok false e x a h = h

-- What the client's `Retrieve` returns for some ids passes the test that the persistent repository
-- makes again of a request for these ids that has not expired.
pub retrieve-validate :
    (lib : Library) (exchange : Text → Text → Text → Sent → Result Reply) (cfg : Config)
    → (ids : List KeyId) (ds : List Delivery) (now : ℕ) (q : Request) (book : Dict KeyId Stored)
    → q.ids ≡ ids
    → q.count ≡ length ids
    → now < q.expires
    → retrieve lib exchange cfg ids ≡ ok ds
    → validate now q true book ds ≡ true
unfolding retrieve
retrieve-validate lib exchange cfg ids ds now q book same count early h =
    let sent = exchange (ascii "POST") cfg.gateway_master (ascii "dec_keys") (listed ids) in
    let h1 = guard_ok (not (cfg.role == slave)) unauthorized _ ds h in
    let h2 = guard_ok (ltb (length ids) 1 || ltb max_batch (length ids)) invalid _ ds h1 in
    let h3 = guard_ok (not (ids_fine [] ids)) invalid _ ds h2 in
    let (reply, came, h4) = then_result_ok sent _ ds h3 in
    let (ks, parsed, h5) = then_result_ok (read_container lib reply) _ ds h4 in
    validate_keys-validate ks ids ds now q book same count early h5

-- A delivery that the interface can carry.
pub record Sendable (ids : Option (List KeyId)) (d : Delivery) : Type 0 where
  pub named : valid_id d.id ≡ true
  pub whole : length d.material ≡ key_bits / 8
  pub bytes : All (λ b. b < 256) d.material
  pub asked : unrequested ids d.id ≡ false

NoneOfThese : List KeyId → List Delivery → Type 0
NoneOfThese seen [] = Unit
NoneOfThese seen (d ∷ ds) = (contains seen d.id ≡ false) × NoneOfThese seen ds

NoneOfThese-cons :
    (id : KeyId) (seen : List KeyId) (ds : List Delivery)
    → contains (map (λ d. d.id) ds) id ≡ false
    → NoneOfThese seen ds
    → NoneOfThese (id ∷ seen) ds
unfolding NoneOfThese contains
NoneOfThese-cons id seen [] h n = tt
NoneOfThese-cons id seen (d ∷ ds) h (new, n) = (
  ground (arith, h, new, text_eq_iff d.id id, text_eq_iff id d.id),
  NoneOfThese-cons id seen ds (ground (arith, h)) n,
)

NoneOfThese-empty : (ds : List Delivery) → NoneOfThese [] ds
unfolding NoneOfThese contains
NoneOfThese-empty [] = tt
NoneOfThese-empty (d ∷ ds) = (refl, NoneOfThese-empty ds)

keys_read-values_of :
    (ids : Option (List KeyId)) (seen : List KeyId) (ds : List Delivery)
    → All (Sendable ids) ds
    → Distinct (map (λ d. d.id) ds)
    → NoneOfThese seen ds
    → keys_read ids seen (values_of ds) ≡ ok ds
unfolding keys_read values_of key_bad more_keys NoneOfThese
keys_read-values_of ids seen [] s u n = refl
keys_read-values_of ids seen (d ∷ ds) (s, ss) (new, u) (unseen, n) =
    let later =
      keys_read-values_of ids (d.id ∷ seen) ds ss u (NoneOfThese-cons d.id seen ds new n) in
    ground (
      arith,
      decode-encode d.material s.bytes,
      s.named,
      s.whole,
      s.asked,
      unseen,
      later,
      text_eq_iff (encode d.material) (encode d.material),
    )

length-values_of : (ds : List Delivery) → length (values_of ds) ≡ length ds
unfolding values_of
length-values_of [] = refl
length-values_of (d ∷ ds) = omega (arith, length-values_of ds)

-- The client reads the container that the server makes of deliveries back to these deliveries, when
-- they have distinct valid ids that were asked for and 32 bytes each.
pub validate_keys-values_of :
    (ids : Option (List KeyId)) (ds : List Delivery)
    → All (Sendable ids) ds
    → Distinct (map (λ d. d.id) ds)
    → validate_keys (values_of ds) (length ds) ids ≡ ok ds
unfolding validate_keys
validate_keys-values_of ids ds s u =
    ground (arith, length-values_of ds, keys_read-values_of ids [] ds s u (NoneOfThese-empty ds))
