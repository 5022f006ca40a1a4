-- ===== src/Ingest/Serve/Request.antt =====
-- repository.go: expiry, and the common steps of a request.
use transeuroogs_kms.Common.{
  ℕ, ◌+◌, ◌*◌, ◌/◌, Bool, true, false, not, ◌&&◌, ◌||◌, Option, none, some, List, [], ◌∷◌, Text,
  ◌==◌, text_eq_instance, ltb, nat_eq, length, contains, if◌then◌else◌, map,
}
use transeuroogs_kms.Common.Dict.{Dict, lookup, insert, adjust}
use transeuroogs_kms.Core.Errors.{Error, Result, ok, err, panic, invalid, unavailable, unauthorized}
use transeuroogs_kms.Core.Errors
use transeuroogs_kms.Core.Id.{KeyId, valid_id}
use transeuroogs_kms.Core.Key.{
  Association, association_eq_instance, Delivery, State, reserved, invalidated, expired, terminal,
  key_bits, max_batch,
}
use transeuroogs_kms.Core.Token.{fresh_token}
use transeuroogs_kms.Upstream.{Config}
use transeuroogs_kms.Ingest.{Stored, Status, pending, uncertain, Request, Repository, Saved, Moment}
use transeuroogs_kms.Ingest.Monad.{M, ◌>>=◌, ◌>>◌, give, fail, refuse, read, change, save}

-- `clear(k.Material); k.Material = nil; k.State = s`
unfoldable pub end_key : State → Stored → Stored
end_key s k = record k { material = []; state = s }

unfoldable pub due : ℕ → Stored → Bool
due now k = not (terminal k.state) && not (ltb now k.expires)

unfoldable pub any_due : (KeyId → ℕ) → Dict KeyId Stored → Bool
unfolding due
any_due sweep [] = false
any_due sweep ((id, k) ∷ ks) = due (sweep id) k || any_due sweep ks

unfoldable pub sweep_key : ℕ → Stored → Stored
unfolding due end_key
sweep_key now k = if due now k then end_key expired k else k

unfoldable pub sweep_keys : (KeyId → ℕ) → Dict KeyId Stored → Dict KeyId Stored
unfolding sweep_key
sweep_keys sweep [] = []
sweep_keys sweep ((id, k) ∷ ks) = (id, sweep_key (sweep id) k) ∷ sweep_keys sweep ks

unfoldable pub set_keys : (Dict KeyId Stored → Dict KeyId Stored) → Repository → Repository
set_keys f r = record r { book = record r.book { keys = f r.book.keys } }

unfoldable pub save_if : Bool → Saved → M (Unit {0})
save_if true saved = save saved
save_if false saved = give tt

unfoldable pub expire : Moment → M (Unit {0})
unfolding any_due sweep_keys set_keys save_if
expire t = do
  r ← read
  change (set_keys (sweep_keys t.sweep))
  save_if (any_due t.sweep r.book.keys) t.sweep_saved

unfoldable pub check : Moment → Association → Text → M (Unit {0})
unfolding expire
check t a role = do
  r ← read
  refuse r.broken Errors.state
  refuse (not (a == r.pair) || not (r.cfg.role == role)) unauthorized
  expire t

-- The placeholders of the ids that a slave asks for.
unfoldable pub place : ℕ → ℕ → List KeyId → Dict KeyId Stored → Dict KeyId Stored
place now expires [] ks = ks
place now expires (id ∷ ids) ks = place now expires ids (
    insert id
      (record { id = id; material = []; state = reserved; created = now; expires = expires }) ks)

unfoldable pub new_request : ℕ → Config → ℕ → List KeyId → Request
new_request now cfg n ids = record {
  ids = ids;
  count = n;
  status = pending;
  started = now;
  expires = now + cfg.lifetime_seconds * 1000000000;
}

-- The book with a request that was begun under a new token.
unfoldable pub begun : ℕ → KeyId → Request → Repository → Repository
unfolding place
begun n token q r = record r {
  book = record {
    attempts = r.book.attempts + n;
    requests = insert token q r.book.requests;
    keys = place q.started q.expires q.ids r.book.keys;
  };
}

-- Draws that are all in use would make the loop go on for ever; that outcome is `panic` here.
unfoldable pub drawn : Option KeyId → M KeyId
drawn none r = (r, panic)
drawn (some token) r = (r, ok token)

unfoldable pub begin : Moment → ℕ → List KeyId → M (KeyId × Request)
unfolding drawn new_request begun
begin t n ids = do
  refuse (ltb n 1 || ltb max_batch n) invalid
  r ← read
  refuse (ltb r.capacity (r.book.attempts + n)) Errors.capacity
  token ← drawn (fresh_token t.draws r.book.requests)
  change (begun n token (new_request t.now r.cfg n ids))
  save t.begin_saved
  give (token, new_request t.now r.cfg n ids)

unfoldable pub end_keys : State → List KeyId → Dict KeyId Stored → Dict KeyId Stored
unfolding end_key
end_keys s [] ks = ks
end_keys s (id ∷ ids) ks = end_keys s ids (adjust id (end_key s) ks)

unfoldable pub set_status : Status → KeyId → Repository → Repository
set_status status token r = record r {
  book = record r.book {
    requests = adjust token (λ q. record q { status = status }) r.book.requests;
  };
}

-- `uncertain`, for a request `q` that stands under `token`.
unfoldable pub give_up : {A : Type 0} → Moment → KeyId → Request → M A
unfolding set_status set_keys end_keys
give_up t token q = do
  change (set_status uncertain token)
  change (set_keys (end_keys invalidated q.ids))
  save t.saved
  fail unavailable

-- The loop of `validate`.
unfoldable pub batch_fine :
    Bool → List KeyId → Dict KeyId Stored → List KeyId → List Delivery → Bool
batch_fine for_slave ids ks seen [] = true
batch_fine for_slave ids ks seen (d ∷ ds) =
    let rest = batch_fine for_slave ids ks (d.id ∷ seen) ds in
    if not (valid_id d.id) || not (nat_eq (length d.material) (key_bits / 8)) || contains seen d.id
    then false
    else if for_slave
    then (if contains ids d.id then rest else false)
    else elim (lookup d.id ks) [ none ↦ rest | some _ ↦ false ]

unfoldable pub validate : ℕ → Request → Bool → Dict KeyId Stored → List Delivery → Bool
unfolding batch_fine
validate now q for_slave ks ds =
    if not (nat_eq (length ds) q.count) || not (ltb now q.expires)
    then false
    else batch_fine for_slave q.ids ks [] ds

abbrev pub ids_of : List Delivery → List KeyId
ids_of = map (λ d. d.id)
