-- ===== src/Etsi014/Service.antt =====
-- A server over any repository that keeps `Once`, with requests and other work in any order,
-- also between the two calls of a request.
use transeuroogs_kms.Common.{
  ℕ, zero, suc, ◌≡◌, refl, sym, subst, Bool, true, false, not, ◌&&◌, Option, none, some, List, [],
  ◌∷◌, ◌++◌, Text, ascii, ◌==◌, text_eq_instance, contains, contains-append, contains-none,
  if◌then◌else◌, if_split, All, All-map, All-contains, arith,
}
use transeuroogs_kms.Core.Id.{KeyId}
use transeuroogs_kms.Core.Key.{Association, Reservation}
use transeuroogs_kms.Core.Repository.{Repository, Once, Moves, Side, master_side, slave_side}
use transeuroogs_kms.Etsi014.Reading.{Library}
use transeuroogs_kms.Etsi014.Server.{
  Server, Request, Method, get, post, another, bare, respond, association, is_post,
}
use transeuroogs_kms.Etsi014.Handler.{
  Progress, replied, dropped, between, status, enc, reserved_keys, dec, for_pair, routed,
  identified, by_method, handle, matched, canonical,
}
use transeuroogs_kms.Etsi014.Once.{
  Serves, carried, side_of, side_of_match, side_of_operation, for_pair-Serves, status-Serves,
  enc-Serves, dec-Serves, reserved_keys-Serves, bare_end, message_end, nothing, stays,
}

-- Two choices by the same test.
Serves-if :
    {S : Type 0} (Good : S → Type 0) (Gone : Side → S → KeyId → Type 0) (s : S) (b : Bool)
    → (one two : Side) (x y : S × Progress) → Serves Good Gone one s x
    → Serves Good Gone two s y
    → Serves Good Gone (if b then one else two) s (if b then x else y)
Serves-if Good Gone s true one two x y f g = f
Serves-if Good Gone s false one two x y f g = g

module _ {T S : Type 0} (r : Repository T S) (p : Once r) (lib : Library) (srv : Server) where
  routed-Serves :
      (t : T) (q : Request) (caller : Text) (m : Option (Text × Text)) (s : S)
      → Serves p.Good p.Gone (side_of_match m) s (routed r lib srv t q caller m s)
  unfolding routed side_of_match side_of_operation
  routed-Serves t q caller none s = bare_end r p lib srv master_side s 404
  routed-Serves t q caller (some (sae, operation)) s =
      let as_master = association caller sae false in
      let as_slave = association caller sae true in
      let on_dec = for_pair r lib srv as_slave s (dec r lib srv t q) in
      Serves-if p.Good p.Gone s (operation == ascii "status") master_side _ _ _
        (if_split (Serves p.Good p.Gone master_side s) (is_post q.method)
          (s, replied (respond 405 bare)) (for_pair r lib srv as_master s (status r lib srv t q))
          (λ _. bare_end r p lib srv master_side s 405)
          (λ _.
            for_pair-Serves r p lib srv master_side as_master s (status r lib srv t q)
              (status-Serves r p lib srv t q as_master s)))
        (Serves-if p.Good p.Gone s (operation == ascii "enc_keys") master_side slave_side _ _
          (for_pair-Serves r p lib srv master_side as_master s (enc r lib srv t q)
            (enc-Serves r p lib srv t q as_master s))
          (if_split (Serves p.Good p.Gone slave_side s) (operation == ascii "dec_keys") on_dec
            (s, replied (respond 404 bare))
            (λ _.
              for_pair-Serves r p lib srv slave_side as_slave s (dec r lib srv t q)
                (dec-Serves r p lib srv t q as_slave s))
            (λ _. bare_end r p lib srv slave_side s 404)))

  identified-Serves :
      (t : T) (q : Request) (caller : Option Text) (s : S)
      → Serves p.Good p.Gone (side_of q) s (identified r lib srv t q caller s)
  unfolding identified side_of carried
  identified-Serves t q none s = message_end r p lib srv _ s 401 (ascii "unauthorized")
  identified-Serves t q (some caller) s =
      if_split (Serves p.Good p.Gone (side_of q) s) (not (is_post q.method) && q.with_body) _ _
        (λ _. message_end r p lib srv (side_of q) s 400 (ascii "GET body not supported"))
        (λ _.
          if_split (Serves p.Good p.Gone (side_of q) s) (not (canonical q.raw_path)) _ _
            (λ _. nothing p.Good p.Gone (side_of q) s s _ refl (stays p.Good p.Gone s))
            (λ _. routed-Serves t q caller (matched q.path) s))

  by_method-Serves :
      (t : T) (q : Request) (m : Method) (s : S)
      → Serves p.Good p.Gone (side_of q) s (by_method r lib srv t q m s)
  unfolding by_method
  by_method-Serves t q get s = identified-Serves t q _ s
  by_method-Serves t q post s = identified-Serves t q _ s
  by_method-Serves t q (another m) s =
      message_end r p lib srv (side_of q) s 405 (ascii "method not allowed")

  pub handle-Serves :
      (t : T) (q : Request) (s : S) → Serves p.Good p.Gone (side_of q) s (handle r lib srv t q s)
  unfolding handle
  handle-Serves t q s = by_method-Serves t q q.method s

-- The requests between their two calls, each with its reservation.
abbrev pub Flights : Type 0
Flights = List (Association × Reservation)

-- The repository and the requests that are under way.
pub record Running (S : Type 0) : Type 0 where
  pub store : S
  pub flights : Flights

-- A step of the server: a request up to and with its first call of the repository, the second call of
-- the `n`-th request that is under way, or work on the repository that is not for the server. A
-- request whose second call never comes is one that the process did not live to end.
pub data Event (T S : Type 0) : Type 0 where
  request : T → Request → Event T S
  resume : ℕ → T → Event T S
  background : (S → S) → Event T S

unfoldable pub same_side : Side → Side → Bool
same_side master_side master_side = true
same_side slave_side slave_side = true
same_side _ _ = false

-- Work that does not undo what was delivered.
unfoldable pub Harmless : {T S : Type 0} {r : Repository T S} → Once r → Event T S → Type 0
Harmless p (request t q) = Unit
Harmless p (resume n u) = Unit
Harmless p (background f) = (s : _) → Moves p.Good p.Gone s (f s)

unfoldable pub flight : ℕ → Flights → Option (Association × Reservation)
flight n [] = none
flight zero (x ∷ xs) = some x
flight (suc n) (x ∷ xs) = flight n xs

unfoldable pub landed : ℕ → Flights → Flights
landed n [] = []
landed zero (x ∷ xs) = xs
landed (suc n) (x ∷ xs) = x ∷ landed n xs

unfoldable pub side_of_event : {T S : Type 0} → Event T S → Side
side_of_event (request t q) = side_of q
side_of_event _ = master_side

unfoldable pub flights_after : {T S : Type 0} → Event T S → Progress → Flights → Flights
unfolding landed
flights_after (request t q) (between a res) fs = (a, res) ∷ fs
flights_after (resume n u) x fs = landed n fs
flights_after _ x fs = fs

module _ {T S : Type 0} (r : Repository T S) (lib : Library) (srv : Server) where
  unfoldable pub resumed : T → Option (Association × Reservation) → S → S × Progress
  resumed u none s = (s, dropped)
  resumed u (some (a, res)) s = reserved_keys r lib srv u a res s

  unfoldable pub outcome : Event T S → Running S → S × Progress
  unfolding resumed flight
  outcome (request t q) w = handle r lib srv t q w.store
  outcome (resume n u) w = resumed u (flight n w.flights) w.store
  outcome (background f) w = (f w.store, dropped)

  unfoldable pub after_event : Event T S → Running S → Running S
  unfolding outcome flights_after
  after_event e w =
      let o = outcome e w in record { store = o.0; flights = flights_after e o.1 w.flights }

  -- The ids of the keys that an event answers with to applications of a side.
  unfoldable pub answered : Side → Event T S → Running S → List KeyId
  unfolding same_side side_of_event outcome
  answered side e w = if same_side (side_of_event e) side then carried (outcome e w).1 else []

  unfoldable pub all_answered : Side → List (Event T S) → Running S → List KeyId
  unfolding after_event answered
  all_answered side [] w = []
  all_answered side (e ∷ es) w = answered side e w ++ all_answered side es (after_event e w)

  module _ (p : Once r) where
    resumed-Serves :
        (u : T) (x : Option (Association × Reservation)) (s : S)
        → Serves p.Good p.Gone master_side s (resumed u x s)
    unfolding resumed carried
    resumed-Serves u none s = nothing p.Good p.Gone master_side s s _ refl (stays p.Good p.Gone s)
    resumed-Serves u (some (a, res)) s = reserved_keys-Serves r p lib srv u a res s

    outcome-Serves :
        (e : Event T S) (w : Running S)
        → Harmless p e
        → Serves p.Good p.Gone (side_of_event e) w.store (outcome e w)
    unfolding outcome Harmless side_of_event carried
    outcome-Serves (request t q) w h = handle-Serves r p lib srv t q w.store
    outcome-Serves (resume n u) w h = resumed-Serves u (flight n w.flights) w.store
    outcome-Serves (background f) w h =
        nothing p.Good p.Gone master_side w.store _ _ refl (h w.store)

    side_case :
        (side other : Side) (s s' : S) (ids : List KeyId)
        → All (λ id. p.Gone other s' id × ¬ (p.Gone other s id)) ids
        → All
            (λ id. p.Gone side s' id × ¬ (p.Gone side s id))
            (if same_side other side then ids else [])
    unfolding same_side
    side_case master_side master_side s s' ids h = h
    side_case slave_side slave_side s s' ids h = h
    side_case master_side slave_side s s' ids h = tt
    side_case slave_side master_side s s' ids h = tt

    event-Hands :
        (side : Side) (e : Event T S) (w : Running S)
        → Harmless p e
        → p.Good w.store
        → All
            (λ id. p.Gone side (after_event e w).store id × ¬ (p.Gone side w.store id))
            (answered side e w)
    unfolding answered after_event
    event-Hands side e w h g =
        side_case side (side_of_event e) w.store _ _ ((outcome-Serves e w h).hands g)

    pub event-Moves :
        (e : Event T S) (w : Running S)
        → Harmless p e
        → Moves p.Good p.Gone w.store (after_event e w).store
    unfolding after_event
    event-Moves e w h = (outcome-Serves e w h).moves

    Gone-not_answered :
        (side : Side) (es : List (Event T S)) (w : Running S) (id : KeyId)
        → All (Harmless p) es
        → p.Good w.store
        → p.Gone side w.store id
        → contains (all_answered side es w) id ≡ false
    unfolding all_answered contains
    Gone-not_answered side [] w id hs g gone = refl
    Gone-not_answered side (e ∷ es) w id (h, hs) g gone =
        let m = event-Moves e w h in
        let here = contains-none (answered side e w) id (
          All-map _ _ (λ j x same. x.1 (subst (p.Gone side w.store) (sym same) gone)) _
            (event-Hands side e w h g)) in
        let later =
          Gone-not_answered side es (after_event e w) id hs (m.good g) (m.gone side id g gone) in
        ground (
          arith,
          contains-append (answered side e w) (all_answered side es (after_event e w)) id,
          here,
          later,
        )

    -- When the repository keeps what `Once` asks and starts sound, an answer with a key to
    -- applications of one side is the last one of that side with it, in any order of the steps of all
    -- requests, where a request for new keys has one step for each of its two calls of the
    -- repository, and of other work on the repository that is harmless. Whatever the requests are,
    -- and whatever requests were under way, steps of others may stand between the two calls of one.
    pub answered_once :
        (side : Side) (e : Event T S) (es : List (Event T S)) (w : Running S) (id : KeyId)
        → Harmless p e
        → All (Harmless p) es
        → p.Good w.store
        → contains (answered side e w) id ≡ true
        → contains (all_answered side es (after_event e w)) id ≡ false
    answered_once side e es w id h hs g given_now =
        let m = event-Moves e w h in
        Gone-not_answered side es (after_event e w) id hs (m.good g)
          (All-contains (λ j. p.Gone side (after_event e w).store j × ¬ (p.Gone side w.store j))
            (answered side e w) id (event-Hands side e w h g) given_now).0
