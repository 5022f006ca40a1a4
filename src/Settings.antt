-- ===== src/Settings.antt =====
-- src/internal/config/config.go: the configuration of a process, once it is decoded. What the
-- parser of URLs says of a text is a parameter: `urn` of an identity, `url_ok` of the addresses of
-- a routing policy, `https_ok` and `urn_ok` of those of a segmented service.
use transeuroogs_kms.Common.{
  ℕ, Bool, true, false, not, ◌&&◌, ◌||◌, Option, none, some, List, [], ◌∷◌, Text, ◌==◌,
  text_eq_instance, nat_eq, ltb, length, contains, map, if◌then◌else◌,
}
use transeuroogs_kms.Common.Dict.{Dict, lookup}
use transeuroogs_kms.Core.Key.{Association, valid_association, association_eq_instance}
use transeuroogs_kms.Peering
use transeuroogs_kms.Peering.Validate.{valid_config}
use transeuroogs_kms.Upstream
use transeuroogs_kms.Upstream.{slave}

pub record Config : Type 0 where
  pub kme_id : Text
  pub capacity : ℕ
  pub identities : Dict Text Text
  pub associations : List Association
  pub inter_kms : Option Peering.Config
  pub local_saes : List Text
  pub target_kmes : Dict Text Text
  pub eagle : Option Upstream.Config

-- `x == nil`
unfoldable pub none_of {ℓ} : {A : Type ℓ} → Option A → Bool
none_of none = true
none_of (some a) = false

unfoldable pub blank : Text → Bool
blank s = nat_eq (length s) 0

-- The length of a list in a map, 0 for a missing key.
unfoldable pub route_length : Option (List Text) → ℕ
route_length none = 0
route_length (some route) = length route

-- `m[k] == ""`
unfoldable pub unset : Option Text → Bool
unfolding blank
unset none = true
unset (some s) = blank s

-- The loop over the associations, with those seen so far.
unfoldable pub associations_fine : List Text → List Association → List Association → Bool
associations_fine saes seen [] = true
associations_fine saes seen (a ∷ rest) =
    let later = associations_fine saes (a ∷ seen) rest in
    if not (valid_association a)
      || not (contains saes a.master)
      || not (contains saes a.slave)
      || contains seen a
    then false
    else later

unfoldable pub known_all : List Text → List Text → Bool
known_all saes [] = true
known_all saes (id ∷ ids) = contains saes id && known_all saes ids

-- The loop that asks for a route and a system for each target that is not local.
unfoldable pub targets_routed : Peering.Config → List Association → Bool
unfolding route_length unset
targets_routed p [] = true
targets_routed p (a ∷ rest) =
    let later = targets_routed p rest in
    if not (contains p.local_saes a.slave)
      && (nat_eq (route_length (lookup a.slave p.routes)) 0 || unset (lookup a.slave p.target_kmes))
    then false
    else later

unfoldable pub local_fine : List Text → List Text → List Text → Bool
local_fine saes before [] = true
local_fine saes before (id ∷ ids) =
    let later = local_fine saes (id ∷ before) ids in
    if not (contains saes id) || contains before id then false else later

unfoldable pub target_kmes_fine : List Text → Dict Text Text → Bool
unfolding blank
target_kmes_fine saes [] = true
target_kmes_fine saes ((sae, kme) ∷ rest) =
    contains saes sae && not (blank kme) && target_kmes_fine saes rest

-- The application that a process for one association serves.
unfoldable pub eagle_local : Upstream.Config → List Association → List Text → Bool
eagle_local e (a ∷ []) (id ∷ []) = id == (if e.role == slave then a.slave else a.master)
eagle_local e _ _ = false

module _ (urn url_ok https_ok urn_ok : Text → Bool) where
  -- The loop over the identities, with the applications seen so far.
  unfoldable pub identities_fine : List Text → Dict Text Text → Bool
  unfolding blank
  identities_fine seen [] = true
  identities_fine seen ((identity, sae) ∷ rest) =
      let later = identities_fine (sae ∷ seen) rest in
      if not (urn identity) || blank sae || contains seen sae then false else later

  unfoldable pub inter_kms_fine : Config → List Text → Option Peering.Config → Bool
  unfolding known_all targets_routed none_of
  inter_kms_fine c saes none = true
  inter_kms_fine c saes (some p) =
      none_of c.eagle
      && nat_eq (length c.local_saes) 0
      && valid_config url_ok p
      && known_all saes p.local_saes
      && targets_routed p c.associations

  unfoldable pub eagle_fine : Config → Option Upstream.Config → Bool
  unfolding eagle_local none_of
  eagle_fine c none = true
  eagle_fine c (some e) =
      none_of (Upstream.validate https_ok urn_ok e) && eagle_local e c.associations c.local_saes

  -- `c.Validate() == nil`
  unfoldable pub valid : Config → Bool
  unfolding blank identities_fine associations_fine inter_kms_fine local_fine target_kmes_fine
      eagle_fine
  valid c =
      let saes = map (λ p. p.1) c.identities in
      if blank c.kme_id
        || ltb c.capacity 1
        || ltb 100000 c.capacity
        || nat_eq (length c.identities) 0
        || nat_eq (length c.associations) 0
      then false
      else identities_fine [] c.identities
        && associations_fine saes [] c.associations
        && inter_kms_fine c saes c.inter_kms
        && local_fine saes [] c.local_saes
        && target_kmes_fine saes c.target_kmes
        && eagle_fine c c.eagle
