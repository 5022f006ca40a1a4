-- ===== src/Peering/Routes.antt =====
-- What a policy that passes its validation satisfies.
use transeuroogs_kms.Common.{
  ◌≡◌, true, false, List, [], ◌∷◌, ◌++◌, Text, text_eq_instance, nat_eq, length, contains,
  contains-append, All, Distinct, arith, map, Bool,
}
use transeuroogs_kms.Common.Dict.{Dict, keys}
use transeuroogs_kms.Core.Batch.Laws.{not_seen}
use transeuroogs_kms.Peering.{Peer, Config}
use transeuroogs_kms.Peering.Validate.{
  peers_fine, locals_fine, hops_fine, routes_fine, valid_config,
}

-- The hops of a route are peers, none of them twice.
not_before :
    (id : Text) (before route : List Text)
    → All (λ j. contains (before ++ id ∷ []) j ≡ false) route
    → All (λ j. contains (id ∷ before) j ≡ false) route
unfolding contains
not_before id before [] h = tt
not_before id before (j ∷ route) h =
    (ground (arith, h.0, contains-append before (id ∷ []) j), not_before id before route h.1)

hops_fine_lem :
    (known before route : List Text)
    → hops_fine known before route ≡ true
    → All (λ id. contains known id ≡ true) route
      × Distinct route
      × All (λ id. contains before id ≡ false) route
unfolding hops_fine
hops_fine_lem known before [] h = (tt, tt, tt)
hops_fine_lem known before (id ∷ route) h =
    let (peers, distinct, unseen) =
      hops_fine_lem known (before ++ id ∷ []) route (ground (arith, h)) in
    let (new, rest) = not_seen id before route (not_before id before route unseen) in
    ((ground (arith, h), peers), (new, distinct), (ground (arith, h), rest))

-- A route of the policy.
abbrev pub GoodRoute : List Text → List Text → Text × List Text → Type 0
GoodRoute known locals r =
    (contains locals r.0 ≡ false)
    × (nat_eq (length r.1) 0 ≡ false)
    × All (λ id. contains known id ≡ true) r.1
    × Distinct r.1

routes_fine_lem :
    (known locals : List Text) (routes : Dict Text (List Text))
    → routes_fine known locals routes ≡ true
    → All (GoodRoute known locals) routes
unfolding routes_fine
routes_fine_lem known locals [] h = tt
routes_fine_lem known locals ((to, route) ∷ routes) h =
    let (peers, distinct, _) = hops_fine_lem known [] route (ground (arith, h)) in
    (
      (ground (arith, h), ground (arith, h), peers, distinct),
      routes_fine_lem known locals routes (ground (arith, h)),
    )

abbrev pub identities : Dict Text Peer → List Text
identities = map (λ p. p.1.identity)

abbrev pub urls : Dict Text Peer → List Text
urls = map (λ p. p.1.url)

locals_fine_lem :
    (seen ids : List Text)
    → locals_fine seen ids ≡ true
    → Distinct ids × All (λ id. contains seen id ≡ false) ids
unfolding locals_fine
locals_fine_lem seen [] h = (tt, tt)
locals_fine_lem seen (id ∷ ids) h =
    let (distinct, unseen) = locals_fine_lem (id ∷ seen) ids (ground (arith, h)) in
    let (new, rest) = not_seen id seen ids unseen in ((new, distinct), (ground (arith, h), rest))

module _ (url_ok : Text → Bool) where
  peers_fine_lem :
      (seen addresses : List Text) (peers : Dict Text Peer)
      → peers_fine url_ok seen addresses peers ≡ true
      → Distinct (identities peers)
        × All (λ i. contains seen i ≡ false) (identities peers)
        × Distinct (urls peers)
        × All (λ u. contains addresses u ≡ false) (urls peers)
  unfolding peers_fine
  peers_fine_lem seen addresses [] h = (tt, tt, tt, tt)
  peers_fine_lem seen addresses ((id, p) ∷ peers) h =
      let (di, ui, du, uu) =
        peers_fine_lem (p.identity ∷ seen) (p.url ∷ addresses) peers (ground (arith, h)) in
      let (new_i, rest_i) = not_seen p.identity seen (identities peers) ui in
      let (new_u, rest_u) = not_seen p.url addresses (urls peers) uu in
      ((new_i, di), (ground (arith, h), rest_i), (new_u, du), (ground (arith, h), rest_u))

  -- What the engine relies on in its policy.
  pub record GoodConfig (c : Config) : Type 0 where
    pub own_identity : contains (identities c.peers) c.identity ≡ false
    pub distinct_identities : Distinct (identities c.peers)
    pub own_url : contains (urls c.peers) c.public_url ≡ false
    pub distinct_urls : Distinct (urls c.peers)
    pub distinct_locals : Distinct c.local_saes
    pub good_routes : All (GoodRoute (keys c.peers) c.local_saes) c.routes

  -- In a policy that passes `Validate`, whatever texts `validURL` accepts, no two of the systems,
  -- this one included, share an identity or an address, no local application is listed twice,
  -- and every route leads to an application that is not local, over at least one hop, over
  -- peers of the policy only, and over none of them twice.
  pub valid_config_lem : (c : Config) → valid_config url_ok c ≡ true → GoodConfig c
  unfolding valid_config
  valid_config_lem c h =
      let (di, ui, du, uu) =
        peers_fine_lem (c.identity ∷ []) (c.public_url ∷ []) c.peers (ground (arith, h)) in
      record {
        own_identity = (not_seen c.identity [] (identities c.peers) ui).0;
        distinct_identities = di;
        own_url = (not_seen c.public_url [] (urls c.peers) uu).0;
        distinct_urls = du;
        distinct_locals = (locals_fine_lem [] c.local_saes (ground (arith, h))).0;
        good_routes = routes_fine_lem (keys c.peers) c.local_saes c.routes (ground (arith, h));
      }
