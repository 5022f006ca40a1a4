-- ===== src/Etsi014/Handler.antt =====
-- server.go: the handler, and the three operations behind it.
use transeuroogs_kms.Common.{
  Bool, true, false, not, ◌&&◌, ◌||◌, Option, none, some, List, [], ◌∷◌, Text, ascii, ◌==◌,
  text_eq_instance, contains, if◌then◌else◌,
}
use transeuroogs_kms.Core.Errors.{Result, ok, err, panic}
use transeuroogs_kms.Core.Key.{Association, association_eq_instance, Reservation}
use transeuroogs_kms.Core.Repository.{Repository}
use transeuroogs_kms.Security.{sae_identity}
use transeuroogs_kms.Etsi014.Reading.{Read, got, refused, Library, query, then_read}
use transeuroogs_kms.Etsi014.Server.{
  Server, Request, Method, another, Response, message, stock, redirect, bare, respond, fail,
  fail_with, deliver, association, status_of, is_post,
}
use transeuroogs_kms.Etsi014.Requests.{key_request, key_count, key_ids}

abbrev pub unauthorized_answer : Response
unauthorized_answer = respond 401 (message (ascii "unauthorized"))

-- Where a request is after its first call of the repository: answered, without an answer since a
-- panic closed its connection, or between the two calls of `enc`, with its reservation. The
-- repository locks each call for itself, so that other requests run there.
pub data Progress : Type 0 where
  replied : Response → Progress
  dropped : Progress
  between : Association → Reservation → Progress

-- An end with a refusal, or on.
unfoldable pub on_read {ℓ} :
    {A : Type ℓ} {S : Type 0} → S → Read A → (A → S × Progress) → S × Progress
on_read s (got a) f = f a
on_read s (refused e) f = (s, replied (fail_with e))

-- The end of a call of the repository.
unfoldable pub on_result {ℓ} :
    {A : Type ℓ} {S : Type 0} → S × Result A → (A → S → S × Progress) → S × Progress
on_result (s, ok a) f = f a s
on_result (s, err e) f = (s, replied (fail e))
on_result (s, panic) f = (s, dropped)

-- The multiplexer redirects a path that is not in its canonical form: that has an empty segment
-- before the last, or a segment of one or two dots.
unfoldable pub dots : Text → Bool
dots x = x == ascii "." || x == ascii ".."

unfoldable pub canonical : List Text → Bool
unfolding dots
canonical [] = false
canonical (x ∷ []) = not (dots x)
canonical (x ∷ y ∷ rest) = not (x == [] || dots x) && canonical (y ∷ rest)

-- `/api/v1/keys/{sae}/{operation}`
unfoldable pub matched : List Text → Option (Text × Text)
matched (api ∷ v1 ∷ keys ∷ sae ∷ operation ∷ []) =
    if api == ascii "api" && v1 == ascii "v1" && keys == ascii "keys"
    then some (sae, operation)
    else none
matched _ = none

module _ {T S : Type 0} (r : Repository T S) (lib : Library) (srv : Server) where
  unfoldable pub status : T → Request → Association → S → S × Progress
  unfolding on_read
  status t q a s =
      on_read s (query q.parameters []) (λ _.
        let o = r.inventory a t s in (o.0, replied (respond 200 (stock (status_of srv a o.1)))))

  -- `enc` up to its first call of the repository.
  unfoldable pub enc : T → Request → Association → S → S × Progress
  unfolding on_read on_result then_read
  enc t q a s =
      on_read s (then_read (key_request lib q q.method) key_count)
        (λ n. on_result (r.reserve_keys a n t s) (λ res s'. (s', between a res)))

  -- The second call, and the answer.
  unfoldable pub reserved_keys : T → Association → Reservation → S → S × Progress
  unfolding on_result
  reserved_keys u a res s =
      on_result (r.consume_reservation a res.token u s) (λ ds s'. (s', replied (deliver ds)))

  unfoldable pub dec : T → Request → Association → S → S × Progress
  unfolding on_read on_result
  dec t q a s =
      on_read s (key_ids lib q q.method)
        (λ ids. on_result (r.consume_peer_keys a ids t s) (λ ds s'. (s', replied (deliver ds))))

  -- The test of `association`, and what follows it.
  unfoldable pub for_pair : Association → S → (Association → S → S × Progress) → S × Progress
  for_pair a s f = if contains srv.allowed a then f a s else (s, replied unauthorized_answer)

  unfoldable pub routed : T → Request → Text → Option (Text × Text) → S → S × Progress
  unfolding for_pair is_post
  routed t q caller none s = (s, replied (respond 404 bare))
  routed t q caller (some (sae, operation)) s =
      if operation == ascii "status"
      then (if is_post q.method
          then (s, replied (respond 405 bare))
          else for_pair (association caller sae false) s (status t q))
      else if operation == ascii "enc_keys"
      then for_pair (association caller sae false) s (enc t q)
      else if operation == ascii "dec_keys"
      then for_pair (association caller sae true) s (dec t q)
      else (s, replied (respond 404 bare))

  unfoldable pub identified : T → Request → Option Text → S → S × Progress
  unfolding routed is_post matched canonical
  identified t q none s = (s, replied unauthorized_answer)
  identified t q (some caller) s =
      if not (is_post q.method) && q.with_body
      then (s, replied (respond 400 (message (ascii "GET body not supported"))))
      else if not (canonical q.raw_path)
      then (s, replied (respond lib.redirect_status redirect))
      else routed t q caller (matched q.path) s

  unfoldable pub by_method : T → Request → Method → S → S × Progress
  unfolding identified
  by_method t q (another m) s = (s, replied (respond 405 (message (ascii "method not allowed"))))
  by_method t q _ s = identified t q (sae_identity q.uris srv.identities) s

  unfoldable pub handle : T → Request → S → S × Progress
  unfolding by_method
  handle t q s = by_method t q q.method s

  -- What follows the first call.
  unfoldable pub finish : T → S × Progress → S × Progress
  unfolding reserved_keys
  finish u (s, between a res) = reserved_keys u a res s
  finish u (s, replied x) = (s, replied x)
  finish u (s, dropped) = (s, dropped)

  -- A request with nothing between its two calls.
  unfoldable pub handle_whole : T → T → Request → S → S × Progress
  unfolding handle finish
  handle_whole t u q s = finish u (handle t q s)
