-- ===== src/Etsi014/Granted.antt =====
-- A request for keys that are there is granted, by a server over the memory repository.
use transeuroogs_kms.Common.{
  ℕ, ◌≡◌, ◌≤◌, ◌<◌, refl, ap, ◌∙◌, subst, inl, inr, ◌⊎◌, true, false, not, ◌&&◌, some, List, ascii,
  text_eq, text_eq_instance, contains, All, arith, map,
}
use transeuroogs_kms.Core.Errors.{Result, ok, err, panic}
use transeuroogs_kms.Core.Id.{KeyId}
use transeuroogs_kms.Core.Key.{
  Association, association_eq_instance, valid_association, Delivery, Reservation, max_batch,
}
use transeuroogs_kms.Core.Repository.{Repository}
use transeuroogs_kms.Core.Token.{fresh_token}
use transeuroogs_kms.Security.{sae_identity}
use transeuroogs_kms.Storage.{Memory, reserve_keys, consume_reservation, inventory}
use transeuroogs_kms.Storage.Invariant.{Inv}
use transeuroogs_kms.Storage.Loops.{delivery_at}
use transeuroogs_kms.Storage.Reserve.{picks, reserve_keys_enough}
use transeuroogs_kms.Storage.Guarantees.{consume_reservation-reserve_keys, LivesAt}
use transeuroogs_kms.Storage.Offers.{available-offered}
use transeuroogs_kms.Storage.Interface.{memory}
use transeuroogs_kms.Etsi014.Reading.{Library, got, then_read}
use transeuroogs_kms.Etsi014.Server.{Server, Request, get, post, deliver, association, is_post}
use transeuroogs_kms.Etsi014.Requests.{key_request, key_count}
use transeuroogs_kms.Etsi014.Handler.{
  on_read, on_result, enc, reserved_keys, for_pair, routed, identified, by_method, handle,
  handle_whole, finish, matched, canonical, Progress, replied, between,
}

-- A request of an application for keys to share with another: a GET without a body, or a POST.
pub record Asks (srv : Server) (q : Request) (a : Association) : Type 0 where
  pub caller : sae_identity q.uris srv.identities ≡ some a.master
  pub allowed : contains srv.allowed a ≡ true
  pub path : matched q.path ≡ some (a.slave, ascii "enc_keys")
  pub clean : canonical q.raw_path ≡ true
  pub without_body : (not (is_post q.method) && q.with_body) ≡ false

module _ {T S : Type 0} (r : Repository T S) (lib : Library) (srv : Server) where
  identified-enc :
      (t : T) (q : Request) (a : Association) (s : S)
      → Asks srv q a
      → identified r lib srv t q (sae_identity q.uris srv.identities) s ≡ enc r lib srv t q a s
  unfolding identified routed for_pair association text_eq
  identified-enc t q a s h =
      rw (h.caller, identified, h.without_body, h.clean, h.path, routed, h.allowed) refl

  handle-enc :
      (t : T) (q : Request) (a : Association) (s : S)
      → (q.method ≡ get) ⊎ (q.method ≡ post)
      → Asks srv q a
      → handle r lib srv t q s ≡ enc r lib srv t q a s
  unfolding handle by_method
  handle-enc t q a s (inl is_get) h =
      ap (λ m. by_method r lib srv t q m s) is_get ∙ identified-enc t q a s h
  handle-enc t q a s (inr posted) h =
      ap (λ m. by_method r lib srv t q m s) posted ∙ identified-enc t q a s h

ok-injective : {A : Type 0} (a b : A) → ok a ≡ ok b → a ≡ b
ok-injective a b h = cc

on_result_ok :
    {S : Type 0} (o : S × Result (List Delivery)) (ds : List Delivery)
    → o.1 ≡ ok ds
    → (on_result o (λ ds s'. (s', replied (deliver ds)))).1 ≡ replied (deliver ds)
unfolding on_result
on_result_ok (s, ok es) ds h = ap (λ x. replied (deliver x)) (ok-injective es ds h)
on_result_ok (s, err e) ds h = absurd cc
on_result_ok (s, panic) ds h = absurd cc

-- The answer to a request that asks for `n` keys, when its reservation is consumed well.
enc-deliver :
    (lib : Library) (srv : Server) (now later : ℕ) (draws more : List KeyId) (q : Request)
    → (a : Association) (m m' : Memory) (n : ℕ) (res : Reservation) (ds : List Delivery)
    → then_read (key_request lib q q.method) key_count ≡ got n
    → reserve_keys m a n now draws ≡ (m', ok res)
    → (consume_reservation m' a res.token later).1 ≡ ok ds
    → (finish memory lib srv (later, more) (enc memory lib srv (now, draws) q a m)).1
      ≡ replied (deliver ds)
unfolding enc on_read on_result reserved_keys finish
enc-deliver lib srv now later draws more q a m m' n res ds asked reserved served =
    let last : Memory × Progress → Progress = λ o. (finish memory lib srv (later, more) o).1 in
    let hold : Reservation → Memory → Memory × Progress = λ x s. (s, between a x) in
    ap (λ x. last (on_read m x (λ k. on_result (reserve_keys m a k now draws) hold))) asked
    ∙ ap (λ o. last (on_result o hold)) reserved
    ∙ on_result_ok (consume_reservation m' a res.token later) ds served

-- A server over a sound memory repository grants the request of the master of an allowed, valid
-- pair for 1 to 128 keys, when that many are in stock, none of those first in line expires before
-- they are consumed, an unused token is drawn, and nothing comes between its two calls of the
-- repository: the answer is 200 with exactly these keys, with the ids and the bytes that were
-- stored.
pub handle-granted :
    (lib : Library) (srv : Server) (now later : ℕ) (draws more : List KeyId) (token : KeyId)
    → (q : Request) (a : Association) (m : Memory) (n : ℕ) → (q.method ≡ get) ⊎ (q.method ≡ post)
    → Asks srv q a
    → then_read (key_request lib q q.method) key_count ≡ got n
    → Inv m
    → valid_association a ≡ true
    → 0 < n
    → n ≤ max_batch
    → fresh_token draws m.reservations ≡ some token
    → n ≤ (inventory m a now).1.available
    → All (LivesAt later m.entries) (picks m a n now)
    → (handle_whole memory lib srv (now, draws) (later, more) q m).1
      ≡ replied (deliver (map (delivery_at (λ e. e.master) m.entries) (picks m a n now)))
unfolding handle_whole
handle-granted lib srv now later draws more token q a m n known asks asked v valid lo hi drawn
      enough lives =
    let (gs, done, _, _) =
      reserve_keys_enough m a n now draws v valid lo hi token drawn
        (omega (arith, available-offered m a now v)) in
    let served =
      consume_reservation-reserve_keys m a n now later draws token v valid lo hi drawn enough
        lives in
    ap (λ o. (finish memory lib srv (later, more) o).1)
      (handle-enc memory lib srv (now, draws) q a m known asks)
    ∙ enc-deliver lib srv now later draws more q a m _ n _ _ asked done (
        subst
          (λ o.
            (consume_reservation o.0 a token later).1
            ≡ ok (map (delivery_at (λ e. e.master) m.entries) (picks m a n now)))
          done served)
