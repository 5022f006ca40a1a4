-- ===== src/Peering/Validate.antt =====
-- config.go: the validation of the routing policy. `url_ok` says whether `validURL` accepts a
-- text, which the parser of the library decides.
use transeuroogs_kms.Common.{
  Bool, true, false, not, ◌&&◌, ◌||◌, List, [], ◌∷◌, ◌++◌, Text, ascii, ◌==◌, text_eq_instance,
  nat_eq, length, contains, if◌then◌else◌,
}
use transeuroogs_kms.Common.Dict.{Dict, keys}
use transeuroogs_kms.Peering.{Peer, Config, lab_relay, standard}

-- `strings.HasPrefix`
unfoldable pub has_prefix : Text → Text → Bool
has_prefix s [] = true
has_prefix [] (c ∷ p) = false
has_prefix (d ∷ s) (c ∷ p) = nat_eq d c && has_prefix s p

empty : Text → Bool
empty s = nat_eq (length s) 0

-- The loop over the local applications.
unfoldable pub locals_fine : List Text → List Text → Bool
unfolding empty
locals_fine seen [] = true
locals_fine seen (id ∷ ids) =
    let rest = locals_fine (id ∷ seen) ids in if empty id || contains seen id then false else rest

-- The inner loop over a route, with the hops before.
unfoldable pub hops_fine : List Text → List Text → List Text → Bool
hops_fine known before [] = true
hops_fine known before (id ∷ route) =
    let rest = hops_fine known (before ++ id ∷ []) route in
    if not (contains known id) || contains before id then false else rest

-- The loop over the routes.
unfoldable pub routes_fine : List Text → List Text → Dict Text (List Text) → Bool
unfolding empty hops_fine
routes_fine known locals [] = true
routes_fine known locals ((to, route) ∷ routes) =
    let rest = routes_fine known locals routes in
    if empty to || nat_eq (length route) 0 || contains locals to
    then false
    else if not (hops_fine known [] route)
    then false
    else rest

module _ (url_ok : Text → Bool) where
  -- The loop over the peers, with the identities and the addresses seen so far.
  unfoldable pub peers_fine : List Text → List Text → Dict Text Peer → Bool
  unfolding empty has_prefix
  peers_fine seen urls [] = true
  peers_fine seen urls ((id, p) ∷ peers) =
      let rest = peers_fine (p.identity ∷ seen) (p.url ∷ urls) peers in
      if empty id
        || not (url_ok p.url)
        || not (has_prefix p.identity (ascii "urn:"))
        || contains seen p.identity
        || contains urls p.url
        || (not (p.mode == standard) && not (p.mode == lab_relay))
      then false
      else rest

  unfoldable pub valid_config : Config → Bool
  unfolding empty has_prefix peers_fine locals_fine routes_fine
  valid_config c =
      url_ok c.public_url
      && has_prefix c.identity (ascii "urn:")
      && not (empty c.state_dir)
      && not (nat_eq (length c.peers) 0)
      && peers_fine (c.identity ∷ []) (c.public_url ∷ []) c.peers
      && locals_fine [] c.local_saes
      && routes_fine (keys c.peers) c.local_saes c.routes
