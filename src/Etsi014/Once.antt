-- ===== src/Etsi014/Once.antt =====
-- A server over a repository that keeps `Once` answers with a key at most once on each side.
use transeuroogs_kms.Common.{
  ℕ, ◌≡◌, refl, ap, Option, none, some, List, [], ◌∷◌, Text, ascii, ◌==◌, text_eq_instance,
  contains, if◌then◌else◌, if_split, All, All-map, map,
}
use transeuroogs_kms.Core.Errors.{Result, ok, err, panic}
use transeuroogs_kms.Core.Id.{KeyId}
use transeuroogs_kms.Core.Key.{Association, association_eq_instance, Delivery, Reservation}
use transeuroogs_kms.Core.Repository.{
  Repository, Once, Moves, Hands, Side, master_side, slave_side, ids_of,
}
use transeuroogs_kms.Etsi014.Reading.{Read, got, refused, Library, query, then_read}
use transeuroogs_kms.Etsi014.Server.{
  Server, Request, Answer, message, container, bare, respond, deliver, fail, fail_with,
}
use transeuroogs_kms.Etsi014.Requests.{key_request, key_count, key_ids}
use transeuroogs_kms.Etsi014.Handler.{
  Progress, replied, dropped, between, on_read, on_result, status, enc, dec, reserved_keys,
  for_pair, matched,
}

ids_in : Answer → List KeyId
ids_in (container ks) = map (λ k. k.id) ks
ids_in _ = []

-- The ids that an answer carries.
unfoldable pub carried : Progress → List KeyId
unfolding ids_in
carried (replied x) = ids_in x.answer
carried dropped = []
carried (between a res) = []

-- The side that a request is for.
unfoldable pub side_of_operation : Text → Side
side_of_operation operation =
    if operation == ascii "status"
    then master_side
    else if operation == ascii "enc_keys"
    then master_side
    else slave_side

unfoldable pub side_of_match : Option (Text × Text) → Side
unfolding side_of_operation
side_of_match none = master_side
side_of_match (some (sae, operation)) = side_of_operation operation

unfoldable pub side_of : Request → Side
unfolding side_of_match
side_of q = side_of_match (matched q.path)

carried-deliver : (ds : List Delivery) → carried (replied (deliver ds)) ≡ ids_of ds
unfolding carried deliver
carried-deliver [] = refl
carried-deliver (d ∷ ds) = ap (λ x. d.id ∷ x) (carried-deliver ds)

-- A step of the server: the repository moves, and the keys of the answer were not gone on the side
-- and are.
pub record Serves {S : Type 0} (Good : S → Type 0) (Gone : Side → S → KeyId → Type 0) (side : Side)
    (s : S) (o : S × Progress) : Type 0 where
  pub moves : Moves Good Gone s o.0
  pub hands : Good s → All (λ id. Gone side o.0 id × ¬ (Gone side s id)) (carried o.1)

module _ {S : Type 0} (Good : S → Type 0) (Gone : Side → S → KeyId → Type 0) where
  pub stays : (s : S) → Moves Good Gone s s
  stays s = record { good = λ g. g; gone = λ side id g x. x }

  then-Moves : (a b c : S) → Moves Good Gone a b → Moves Good Gone b c → Moves Good Gone a c
  then-Moves a b c f g = record {
    good = λ x. g.good (f.good x);
    gone = λ side id x h. g.gone side id (f.good x) (f.gone side id x h);
  }

  -- An answer without keys.
  pub nothing :
      (side : Side) (s s' : S) (x : Progress)
      → carried x ≡ []
      → Moves Good Gone s s'
      → Serves Good Gone side s (s', x)
  nothing side s s' x empty m = record { moves = m; hands = λ g. rw empty tt }

  on_result-Serves :
      {A : Type 0} (side : Side) (s : S) (o : S × Result A) (f : A → S → S × Progress)
      → Moves Good Gone s o.0
      → ((a : A) → o.1 ≡ ok a → Serves Good Gone side s (f a o.0))
      → Serves Good Gone side s (on_result o f)
  unfolding on_result fail carried
  on_result-Serves side s (s', ok a) f m more = more a refl
  on_result-Serves side s (s', err e) f m more = nothing side s s' _ refl m
  on_result-Serves side s (s', panic) f m more = nothing side s s' _ refl m

  on_read-Serves :
      {A : Type 0} (side : Side) (s : S) (x : Read A) (f : A → S × Progress)
      → ((a : A) → Serves Good Gone side s (f a))
      → Serves Good Gone side s (on_read s x f)
  unfolding on_read fail_with carried
  on_read-Serves side s (got a) f more = more a
  on_read-Serves side s (refused e) f more = nothing side s s _ refl (stays s)

  -- What the repository delivered is what the answer carries.
  deliver-Serves :
      (side : Side) (s s1 : S) (o : S × Result (List Delivery))
      → Moves Good Gone s s1
      → Moves Good Gone s1 o.0
      → (Good s1 → Hands Gone side s1 o)
      → Serves Good Gone side s (on_result o (λ ds s'. (s', replied (deliver ds))))
  unfolding on_result fail carried
  deliver-Serves side s s1 (s', ok ds) f m h = record {
    moves = then-Moves s s1 s' f m;
    hands = λ g. rw (carried-deliver ds) (
        All-map _ _ (λ id x. (x.0, λ before. x.1 (f.gone side id g before))) (ids_of ds)
          (h (f.good g)));
  }
  deliver-Serves side s s1 (s', err e) f m h = nothing side s s' _ refl (then-Moves s s1 s' f m)
  deliver-Serves side s s1 (s', panic) f m h = nothing side s s' _ refl (then-Moves s s1 s' f m)

module _ {T S : Type 0} (r : Repository T S) (p : Once r) (lib : Library) (srv : Server) where
  pub for_pair-Serves :
      (side : Side) (a : Association) (s : S) (f : Association → S → S × Progress)
      → Serves p.Good p.Gone side s (f a s)
      → Serves p.Good p.Gone side s (for_pair r lib srv a s f)
  unfolding for_pair carried
  for_pair-Serves side a s f h =
      if_split (Serves p.Good p.Gone side s) (contains srv.allowed a) (f a s) _ (λ _. h)
        (λ _. nothing p.Good p.Gone side s s _ refl (stays p.Good p.Gone s))

  pub status-Serves :
      (t : T) (q : Request) (a : Association) (s : S)
      → Serves p.Good p.Gone master_side s (status r lib srv t q a s)
  unfolding status carried
  status-Serves t q a s =
      on_read-Serves p.Good p.Gone master_side s (query q.parameters []) _
        (λ _. nothing p.Good p.Gone master_side s _ _ refl (p.counting a t s))

  pub enc-Serves :
      (t : T) (q : Request) (a : Association) (s : S)
      → Serves p.Good p.Gone master_side s (enc r lib srv t q a s)
  unfolding enc carried
  enc-Serves t q a s =
      on_read-Serves p.Good p.Gone master_side s (then_read (key_request lib q q.method) key_count)
        _
        (λ n.
          on_result-Serves p.Good p.Gone master_side s (r.reserve_keys a n t s) _
            (p.reserving a n t s)
            (λ res _. nothing p.Good p.Gone master_side s _ _ refl (p.reserving a n t s)))

  pub reserved_keys-Serves :
      (u : T) (a : Association) (res : Reservation) (s : S)
      → Serves p.Good p.Gone master_side s (reserved_keys r lib srv u a res s)
  unfolding reserved_keys
  reserved_keys-Serves u a res s =
      deliver-Serves p.Good p.Gone master_side s s (r.consume_reservation a res.token u s)
        (stays p.Good p.Gone s) (p.consuming a res.token u s) (p.to_master a res.token u s)

  pub dec-Serves :
      (t : T) (q : Request) (a : Association) (s : S)
      → Serves p.Good p.Gone slave_side s (dec r lib srv t q a s)
  unfolding dec
  dec-Serves t q a s = on_read-Serves p.Good p.Gone slave_side s (key_ids lib q q.method) _ (λ ids.
      deliver-Serves p.Good p.Gone slave_side s s (r.consume_peer_keys a ids t s)
        (stays p.Good p.Gone s) (p.consuming_peer a ids t s) (p.to_slave a ids t s))

  pub bare_end :
      (side : Side) (s : S) (code : ℕ)
      → Serves p.Good p.Gone side s (s, replied (respond code bare))
  unfolding carried
  bare_end side s code = nothing p.Good p.Gone side s s _ refl (stays p.Good p.Gone s)

  pub message_end :
      (side : Side) (s : S) (code : ℕ) (x : Text)
      → Serves p.Good p.Gone side s (s, replied (respond code (message x)))
  unfolding carried
  message_end side s code x = nothing p.Good p.Gone side s s _ refl (stays p.Good p.Gone s)
