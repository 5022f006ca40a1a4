-- ===== src/Ingest/Serve/Master.antt =====
-- repository.go: `StoreKey`, `ReserveKeys` and `ConsumeReservation`.
use transeuroogs_kms.Common.{
  ℕ, ◌/◌, Bool, true, false, not, ◌||◌, Option, none, some, List, [], ◌∷◌, ◌++◌, text_eq_instance,
  ltb, nat_eq, length, if◌then◌else◌,
}
use transeuroogs_kms.Common.Dict.{Dict, lookup, insert, adjust}
use transeuroogs_kms.Core.Errors.{unavailable, unauthorized}
use transeuroogs_kms.Core.Id.{KeyId}
use transeuroogs_kms.Core.Key.{
  Association, association_eq_instance, Delivery, Reservation, reserved, consumed, state_eq,
  key_bits, Key,
}
use transeuroogs_kms.Upstream.{master}
use transeuroogs_kms.Ingest.{Stored, Status, stored, Request, Repository, Moment}
use transeuroogs_kms.Ingest.Monad.{M, ◌>>=◌, ◌>>◌, give, fail, refuse, read, change, save}
use transeuroogs_kms.Ingest.Serve.Request.{
  end_key, check, set_keys, set_status, begin, end_keys, give_up, validate, ids_of,
}

-- The loop that stores what the service allocated.
unfoldable pub put_all : Request → List Delivery → Dict KeyId Stored → Dict KeyId Stored
put_all q [] ks = ks
put_all q (d ∷ ds) ks = put_all q ds (
    insert d.id
      (record {
        id = d.id;
        material = d.material;
        state = reserved;
        created = q.started;
        expires = q.expires;
      })
      ks)

-- The request as it stands in the book once its keys are stored.
unfoldable pub fill : KeyId → List KeyId → Repository → Repository
fill token ids r = record r {
  book = record r.book {
    requests = adjust token (λ q. record q { ids = q.ids ++ ids; status = stored }) r.book.requests;
  };
}

unfoldable pub allocated : Moment → KeyId → Request → Option (List Delivery) → M Reservation
unfolding give_up validate set_keys put_all fill
allocated t token q none = give_up t token q
allocated t token q (some ds) = do
  r ← read
  if not (validate t.later q false r.book.keys ds) then give_up t token q else do
    change (set_keys (put_all q ds))
    change (fill token (ids_of ds))
    save t.saved
    give (record { token = token; ids = q.ids ++ ids_of ds })

-- `allocate n` is the answer of the service, `none` an error.
unfoldable pub reserve_keys :
    (ℕ → Option (List Delivery)) → Moment → Association → ℕ → M Reservation
unfolding check begin allocated
reserve_keys allocate t a n = do
  check t a master
  (token, q) ← begin t n []
  allocated t token q (allocate n)

-- `External injection … is deliberately unsupported.`
unfoldable pub store_key : Key → M (Unit {0})
store_key k = fail unauthorized

unfoldable pub status_eq_stored : Status → Bool
status_eq_stored stored = true
status_eq_stored _ = false

-- The first loop of `ConsumeReservation`.
unfoldable pub all_held : List KeyId → Dict KeyId Stored → Bool
all_held [] ks = true
all_held (id ∷ ids) ks =
    let rest = all_held ids ks in
    elim (lookup id ks) [
      | none ↦ false
      | some k ↦
          if not (state_eq k.state reserved) || not (nat_eq (length k.material) (key_bits / 8))
          then false
          else rest
    ]

-- The second loop, over keys that the first one found.
unfoldable pub hand_out : List KeyId → Dict KeyId Stored → List Delivery
unfolding end_key
hand_out [] ks = []
hand_out (id ∷ ids) ks =
    let rest = hand_out ids (adjust id (end_key consumed) ks) in
    elim (lookup id ks) [ none ↦ rest | some k ↦ record { id = id; material = k.material } ∷ rest ]

unfoldable pub consume_found : Moment → KeyId → Option Request → M (List Delivery)
unfolding status_eq_stored all_held hand_out set_keys end_keys set_status
consume_found t token none = fail unavailable
consume_found t token (some q) = do
  refuse (not (status_eq_stored q.status) || not (ltb t.now q.expires)) unavailable
  r ← read
  refuse (not (all_held q.ids r.book.keys)) unavailable
  change (set_keys (end_keys consumed q.ids))
  change (set_status Status.consumed token)
  save t.saved
  give (hand_out q.ids r.book.keys)

unfoldable pub consume_reservation : Moment → Association → KeyId → M (List Delivery)
unfolding check consume_found
consume_reservation t a token = do
  check t a master
  r ← read
  consume_found t token (lookup token r.book.requests)
