-- ===== src/Etsi014/Access.antt =====
-- Who is not a party of an allowed association gets nothing and changes nothing.
use transeuroogs_kms.Common.{
  ◌≡◌, ◌≢◌, ◌⊎◌, inl, inr, arith, refl, true, false, not, ◌&&◌, Option, none, some, Text, ascii,
  ◌==◌, text_eq_instance, contains, if_split, ltb,
}
use transeuroogs_kms.Core.Key.{Association, association_eq_instance}
use transeuroogs_kms.Core.Repository.{Repository}
use transeuroogs_kms.Security.{sae_identity}
use transeuroogs_kms.Etsi014.Reading.{Library}
use transeuroogs_kms.Etsi014.Server.{
  Server, Request, Method, get, post, another, Response, message, respond, bare, redirect,
  association, is_post,
}
use transeuroogs_kms.Etsi014.Handler.{
  status, enc, dec, for_pair, routed, identified, by_method, handle, matched, canonical, Progress,
  replied, unauthorized_answer,
}

-- An error, or the redirect of a path that is not in its canonical form.
abbrev pub IsRefusal : Request → Response → Type 0
IsRefusal q x =
    (ltb x.status 400 ≡ false) ⊎ ((x.answer ≡ redirect) × (canonical q.raw_path ≡ false))

-- The repository is as it was, and the answer is a refusal.
pub record TurnedAway {S : Type 0} (q : Request) (s : S) (o : S × Progress) : Type 0 where
  pub untouched : o.0 ≡ s
  pub response : Response
  pub answer : o.1 ≡ replied response
  pub refusal : IsRefusal q response

refused_with :
    {S : Type 0} (q : Request) (s : S) (x : Response)
    → IsRefusal q x
    → TurnedAway q s (s, replied x)
refused_with q s x h = record { untouched = refl; response = x; answer = refl; refusal = h }

-- No allowed association has the application as a party.
abbrev pub Outsider : Server → Text → Type 0
Outsider srv caller =
    (a : Association) → contains srv.allowed a ≡ true → (a.master ≢ caller) × (a.slave ≢ caller)

-- The caller is nobody that the server knows, or a party of no allowed association.
abbrev pub Stranger : Server → Option Text → Type 0
Stranger srv none = Unit
Stranger srv (some caller) = Outsider srv caller

module _ {T S : Type 0} (r : Repository T S) (lib : Library) (srv : Server) where
  for_pair-TurnedAway :
      (q : Request) (a : Association) (s : S) (f : Association → S → S × Progress)
      → contains srv.allowed a ≢ true
      → TurnedAway q s (for_pair r lib srv a s f)
  unfolding for_pair
  for_pair-TurnedAway q a s f barred =
      if_split (TurnedAway q s) (contains srv.allowed a) _ _ (λ allowed. absurd (barred allowed))
        (λ _. refused_with q s (unauthorized_answer) (inl refl))

  routed-TurnedAway :
      (t : T) (q : Request) (caller : Text) (m : Option (Text × Text)) (s : S)
      → Outsider srv caller
      → TurnedAway q s (routed r lib srv t q caller m s)
  unfolding routed association
  routed-TurnedAway t q caller none s o = refused_with q s (respond 404 bare) (inl refl)
  routed-TurnedAway t q caller (some (sae, operation)) s o =
      let as_master : contains srv.allowed (association caller sae false) ≢ true =
        λ h. (o (association caller sae false) h).0 refl in
      let as_slave : contains srv.allowed (association caller sae true) ≢ true =
        λ h. (o (association caller sae true) h).1 refl in
      if_split (TurnedAway q s) (operation == ascii "status") _ _
        (λ _.
          if_split (TurnedAway q s) (is_post q.method) _ _
            (λ _. refused_with q s (respond 405 bare) (inl refl))
            (λ _. for_pair-TurnedAway q _ s (status r lib srv t q) as_master))
        (λ _.
          if_split (TurnedAway q s) (operation == ascii "enc_keys") _ _
            (λ _. for_pair-TurnedAway q _ s (enc r lib srv t q) as_master)
            (λ _.
              if_split (TurnedAway q s) (operation == ascii "dec_keys") _ _
                (λ _. for_pair-TurnedAway q _ s (dec r lib srv t q) as_slave)
                (λ _. refused_with q s (respond 404 bare) (inl refl))))

  identified-TurnedAway :
      (t : T) (q : Request) (caller : Option Text) (s : S)
      → Stranger srv caller
      → TurnedAway q s (identified r lib srv t q caller s)
  unfolding identified
  identified-TurnedAway t q none s o = refused_with q s (unauthorized_answer) (inl refl)
  identified-TurnedAway t q (some caller) s o =
      if_split (TurnedAway q s) (not (is_post q.method) && q.with_body) _ _
        (λ _. refused_with q s (respond 400 (message (ascii "GET body not supported"))) (inl refl))
        (λ _.
          if_split (TurnedAway q s) (not (canonical q.raw_path)) _ _
            (λ unclean.
              refused_with q s (respond lib.redirect_status redirect)
                (inr (refl, ground (arith, unclean))))
            (λ _. routed-TurnedAway t q caller (matched q.path) s o))

  by_method-TurnedAway :
      (t : T) (q : Request) (m : Method) (s : S)
      → Stranger srv (sae_identity q.uris srv.identities)
      → TurnedAway q s (by_method r lib srv t q m s)
  unfolding by_method
  by_method-TurnedAway t q get s o = identified-TurnedAway t q _ s o
  by_method-TurnedAway t q post s o = identified-TurnedAway t q _ s o
  by_method-TurnedAway t q (another m) s o =
      refused_with q s (respond 405 (message (ascii "method not allowed"))) (inl refl)

  -- A request over a connection without a verified chain, or with a certificate that names no
  -- application of the server or one that is a party of no allowed association, leaves the
  -- repository as it was and ends with its first answer, whatever the method, the path and the body.
  -- The answer is an error, or, only for a path that is not in its canonical form, a redirect.
  pub handle-TurnedAway :
      (t : T) (q : Request) (s : S)
      → Stranger srv (sae_identity q.uris srv.identities)
      → TurnedAway q s (handle r lib srv t q s)
  unfolding handle
  handle-TurnedAway t q s o = by_method-TurnedAway t q q.method s o
