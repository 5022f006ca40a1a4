-- ===== src/Ingest/Batch.antt =====
-- Storing a batch and handing it out again, on the keys of the book.
use transeuroogs_kms.Common.{
  ℕ, ◌≡◌, ◌<◌, refl, ◌∙◌, Bool, true, false, some, List, [], ◌∷◌, arith, length, contains, Distinct,
  text_eq, text_eq_iff, text_eq_instance, ◌/◌, All, All-zip,
}
use transeuroogs_kms.Common.Dict.{Dict, lookup, insert, adjust, lookup-insert, lookup-adjust}
use transeuroogs_kms.Core.Id.{KeyId}
use transeuroogs_kms.Core.Key.{Delivery, reserved, consumed, state_eq, key_bits}
use transeuroogs_kms.Ingest.{Stored, Request}
use transeuroogs_kms.Ingest.Serve.{
  batch_fine, ids_of, put_all, all_held, hand_out, end_key, sweep_keys, sweep_key, due,
}
use transeuroogs_kms.Ingest.Ended.{lookup-sweep_keys}

-- The key that stands for a delivery: it is reserved, whole, and lives until `expires`.
pub record Holds (expires : ℕ) (ks : Dict KeyId Stored) (d : Delivery) : Type 0 where
  pub key : Stored
  pub found : lookup d.id ks ≡ some key
  pub kept_material : key.material ≡ d.material
  pub is_reserved : key.state ≡ reserved
  pub lives : key.expires ≡ expires
  pub whole : length d.material ≡ key_bits / 8

put_all-lookup_other :
    (q : Request) (ds : List Delivery) (ks : Dict KeyId Stored) (id : KeyId)
    → contains (ids_of ds) id ≡ false
    → lookup id (put_all q ds ks) ≡ lookup id ks
unfolding put_all contains
put_all-lookup_other q [] ks id h = refl
put_all-lookup_other q (d ∷ ds) ks id h =
    let k : Stored = record {
      id = d.id;
      material = d.material;
      state = reserved;
      created = q.started;
      expires = q.expires;
    } in
    ground (arith, put_all-lookup_other q ds (insert d.id k ks) id, h, lookup-insert d.id id k ks)

pub fine-whole :
    (for_slave : Bool) (ids : List KeyId) (ks : Dict KeyId Stored) (seen : List KeyId)
    → (ds : List Delivery) → batch_fine for_slave ids ks seen ds ≡ true
    → All (λ d. length d.material ≡ key_bits / 8) ds
unfolding batch_fine
fine-whole for_slave ids ks seen [] h = tt
fine-whole for_slave ids ks seen (d ∷ ds) h =
    let rest : batch_fine for_slave ids ks (d.id ∷ seen) ds ≡ true = ground (arith, h) in
    (ground (arith, h), fine-whole for_slave ids ks (d.id ∷ seen) ds rest)

pub put_all-Holds :
    (q : Request) (ds : List Delivery) (ks : Dict KeyId Stored)
    → Distinct (ids_of ds)
    → All (λ d. length d.material ≡ key_bits / 8) ds
    → All (Holds q.expires (put_all q ds ks)) ds
unfolding put_all
put_all-Holds q [] ks h w = tt
put_all-Holds q (d ∷ ds) ks (new, rest) (w, ws) =
    let k : Stored = record {
      id = d.id;
      material = d.material;
      state = reserved;
      created = q.started;
      expires = q.expires;
    } in
    (
      record {
        key = k;
        found =
            put_all-lookup_other q ds (insert d.id k ks) d.id new
            ∙ ground (arith, lookup-insert d.id d.id k ks, text_eq_iff d.id d.id);
        kept_material = refl;
        is_reserved = refl;
        lives = refl;
        whole = w;
      },
      put_all-Holds q ds (insert d.id k ks) rest ws,
    )

-- A key that is not due survives the sweep.
pub sweep-Holds :
    (sweep : KeyId → ℕ) (expires : ℕ) (ks : Dict KeyId Stored) (d : Delivery)
    → sweep d.id < expires
    → Holds expires ks d
    → Holds expires (sweep_keys sweep ks) d
unfolding sweep_key due
sweep-Holds sweep expires ks d early h = record {
  key = h.key;
  found = ground (arith, lookup-sweep_keys sweep d.id ks, h.found, h.lives, early);
  kept_material = h.kept_material;
  is_reserved = h.is_reserved;
  lives = h.lives;
  whole = h.whole;
}

pub Holds-all_held :
    (expires : ℕ) (ds : List Delivery) (ks : Dict KeyId Stored)
    → All (Holds expires ks) ds
    → all_held (ids_of ds) ks ≡ true
unfolding all_held state_eq
Holds-all_held expires [] ks h = refl
Holds-all_held expires (d ∷ ds) ks (h, rest) =
    ground
      (arith, Holds-all_held expires ds ks rest, h.found, h.is_reserved, h.kept_material, h.whole)

Holds-adjust :
    (expires : ℕ) (id : KeyId) (f : Stored → Stored) (ks : Dict KeyId Stored) (d : Delivery)
    → text_eq d.id id ≡ false
    → Holds expires ks d
    → Holds expires (adjust id f ks) d
Holds-adjust expires id f ks d other h = record {
  key = h.key;
  found =
      ground (
        arith,
        lookup-adjust id d.id f ks,
        h.found,
        other,
        text_eq_iff d.id id,
        text_eq_iff id d.id,
      );
  kept_material = h.kept_material;
  is_reserved = h.is_reserved;
  lives = h.lives;
  whole = h.whole;
}

not_in_ids :
    (ds : List Delivery) (id : KeyId)
    → contains (ids_of ds) id ≡ false
    → All (λ d. text_eq d.id id ≡ false) ds
unfolding contains
not_in_ids [] id h = tt
not_in_ids (d ∷ ds) id h = (ground (arith, h), not_in_ids ds id (ground (arith, h)))

-- What was stored is handed out, in the same order and with the same bytes.
pub Holds-hand_out :
    (expires : ℕ) (ds : List Delivery) (ks : Dict KeyId Stored)
    → Distinct (ids_of ds)
    → All (Holds expires ks) ds
    → hand_out (ids_of ds) ks ≡ ds
unfolding hand_out
Holds-hand_out expires [] ks u h = refl
Holds-hand_out expires (d ∷ ds) ks (new, distinct) (h, rest) =
    let ih = Holds-hand_out expires ds (adjust d.id (end_key consumed) ks) distinct (
      All-zip _ _ _ (λ x other hx. Holds-adjust expires d.id (end_key consumed) ks x other hx) ds
        (not_in_ids ds d.id new) rest) in
    ground (arith, h.found, h.kept_material, ih)
