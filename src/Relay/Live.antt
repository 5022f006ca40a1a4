-- ===== src/Relay/Live.antt =====
-- Records that may still be delivered, and records that were.
use transeuroogs_kms.Common.{
  ℕ, ◌≡◌, true, false, some, List, [], ◌∷◌, arith, All, All-map, text_eq_instance, text_eq_iff,
}
use transeuroogs_kms.Common.Dict.{Dict, lookup, adjust, lookup-adjust}
use transeuroogs_kms.Core.Id.{KeyId}
use transeuroogs_kms.Core.Key.{association_eq_instance}
use transeuroogs_kms.Relay.{Rec, usable}
use transeuroogs_kms.Relay.Serve.{adjust_all}
use transeuroogs_kms.Relay.Forward.{Fair}
use transeuroogs_kms.Relay.Moves.{Sound, Grows, Moves-adjust, Moves-adjust_all}

abbrev pub Has : (Rec → Type 0) → Dict KeyId Rec → KeyId → Type 0
Has P rs id = (r : Rec) × (lookup id rs ≡ some r) × P r

abbrev pub Done : Dict KeyId Rec → KeyId → Type 0
Done = Has (λ r. r.delivered ≡ true)

abbrev pub Live : Dict KeyId Rec → KeyId → Type 0
Live = Has (λ r. (r.delivered ≡ false) × (r.voiding ≡ false))

pub Done-Grows : (a b : Dict KeyId Rec) (id : KeyId) → Grows a b → Done a id → Done b id
Done-Grows a b id g (r, found, d) =
    let (r', found', f) = g id r found in (r', found', f.stays_delivered d)

pub usable-live :
    (now : ℕ) (r : Rec) → usable now r ≡ true → (r.delivered ≡ false) × (r.voiding ≡ false)
unfolding usable
usable-live now r h = ground arith

pub Done-adjust :
    (f : Rec → Rec) (id : KeyId) (rs : Dict KeyId Rec) (r : Rec)
    → ((x : Rec) → (f x).delivered ≡ true)
    → lookup id rs ≡ some r
    → Done (adjust id f rs) id
Done-adjust f id rs r sets found =
    (f r, ground (arith, lookup-adjust id id f rs, text_eq_iff id id, found), sets r)

-- The marking loop over records that exist.
pub adjust_all-Done :
    (f : Rec → Rec) (ids : List KeyId) (rs : Dict KeyId Rec)
    → Fair f
    → ((x : Rec) → (f x).delivered ≡ true)
    → Sound rs
    → All (Has (λ _. Unit {0}) rs) ids
    → All (Done (adjust_all f ids rs)) ids
unfolding adjust_all
adjust_all-Done f [] rs fair sets v h = tt
adjust_all-Done f (id ∷ ids) rs fair sets v ((r, found, _), h) =
    let (v', grows) = Moves-adjust f id rs fair v in
    let rest = adjust id f rs in
    (
      Done-Grows rest _ id (Moves-adjust_all f ids rest fair v').1
          (Done-adjust f id rs r sets found),
      adjust_all-Done f ids rest fair sets v' (
          All-map _ _ (λ j (x, there, _). let (y, there', _) = grows j x there in (y, there', tt))
            ids h),
    )
