-- ===== src/Client/Requests/Versions.antt =====
-- Which version of a resource type a request at any version is answered at.
use rancher_ai_mcp.Prelude.{
  String, ◌≡◌, refl, sym, ◌∙◌, ◌↔◌, Option, some, List, [], ◌∷◌, Result, ok, err,
}
use rancher_ai_mcp.Changes.{Gvr}
use rancher_ai_mcp.Client.{
  CallError, call_failed, not_found, Client, ResourceInterface, Kube, Caches, Step, local,
  interface_at,
}
use rancher_ai_mcp.Client.Requests.{
  next, call, call_result, at_version, get_resource_interface, attempt, first_at, ◌>>=◌,
}

module _ {RestConfig Object A : Type 0} (k : Kube RestConfig Object) (c : Client)
    (resolve : String → String → String → String → Step Gvr) (token namespace : String)
    (ask : ResourceInterface Object → Result CallError A) (gvr : Gvr) where
  -- The first version that does not answer that nothing is found answers this.
  pub data IsFirst : List String → A → Type 0 where
    here :
        {version : String} {versions : List String} {r : ResourceInterface Object} {a : A}
        → interface_at k c token namespace (at_version gvr version) local ≡ ok r
        → ask r ≡ ok a
        → IsFirst (version ∷ versions) a
    later :
        {version e : String} {versions : List String} {r : ResourceInterface Object} {a : A}
        → interface_at k c token namespace (at_version gvr version) local ≡ ok r
        → ask r ≡ err (not_found e)
        → IsFirst versions a
        → IsFirst (version ∷ versions) a

  interface_local :
      (at : Gvr) (caches : Caches)
      → get_resource_interface k c resolve token namespace local at caches
        ≡ (caches, call_result (interface_at k c token namespace at local))
  unfolding get_resource_interface ◌>>=◌ next call
  interface_local at caches = refl

  -- One round of the loop, by what the connection and then the request answer.
  round : Result CallError (ResourceInterface Object) → Step (Option A) → Step (Option A)
  unfolding call_result next attempt
  round connected rest caches =
      next (caches, call_result connected) (λ r. attempt k c resolve rest (ask r))

  first_at-round :
      (version : String) (versions : List String) (caches : Caches)
      → first_at k c resolve token namespace local ask gvr (version ∷ versions) caches
        ≡ round
            (interface_at k c token namespace (at_version gvr version) local)
            (first_at k c resolve token namespace local ask gvr versions)
            caches
  unfolding first_at round ◌>>=◌
  first_at-round version versions caches = rw (interface_local (at_version gvr version) caches) refl

  round-later :
      (r : ResourceInterface Object) (e : String) (rest : Step (Option A)) (caches : Caches)
      → ask r ≡ err (not_found e)
      → round (ok r) rest caches ≡ rest caches
  unfolding round next call_result attempt
  round-later r e rest caches missed = rw missed refl

  round-here :
      (r : ResourceInterface Object) (a : A) (rest : Step (Option A)) (caches : Caches)
      → ask r ≡ ok a
      → round (ok r) rest caches ≡ (caches, ok (some a))
  unfolding round next call_result attempt
  round-here r a rest caches got = rw got refl

  first_at-IsFirst :
      (versions : List String) (caches : Caches) (a : A)
      → IsFirst versions a
      → first_at k c resolve token namespace local ask gvr versions caches ≡ (caches, ok (some a))
  first_at-IsFirst [] caches a h = elim h [ ]
  first_at-IsFirst (version ∷ versions) caches a (here {r = r} reached got) =
      rw (first_at-round version versions caches, reached) (round-here r a _ caches got)
  first_at-IsFirst (version ∷ versions) caches a (later {e = e} {r = r} reached missed rest) =
      rw (first_at-round version versions caches, reached)
        (round-later r e _ caches missed ∙ first_at-IsFirst versions caches a rest)

  IsFirst-answered :
      (version : String) (versions : List String) (caches : Caches) (a : A)
      (r : ResourceInterface Object) (answer : Result CallError A)
      → interface_at k c token namespace (at_version gvr version) local ≡ ok r
      → ask r ≡ answer
      → (first_at k c resolve token namespace local ask gvr versions caches ≡ (caches, ok (some a))
          → IsFirst versions a)
      → attempt k c resolve
          (first_at k c resolve token namespace local ask gvr versions)
          answer
          caches
        ≡ (caches, ok (some a))
      → IsFirst (version ∷ versions) a
  unfolding attempt
  IsFirst-answered version versions caches a r (err (not_found e)) reached got rest h =
      later reached got (rest h)
  IsFirst-answered version versions caches a r (err (call_failed e)) reached got rest h = cc
  IsFirst-answered version versions caches a r (ok b) reached got rest h = here reached cc

  IsFirst-round :
      (version : String) (versions : List String) (caches : Caches) (a : A)
      (connected : Result CallError (ResourceInterface Object))
      → interface_at k c token namespace (at_version gvr version) local ≡ connected
      → (first_at k c resolve token namespace local ask gvr versions caches ≡ (caches, ok (some a))
          → IsFirst versions a)
      → round connected (first_at k c resolve token namespace local ask gvr versions) caches
        ≡ (caches, ok (some a))
      → IsFirst (version ∷ versions) a
  unfolding round next call_result
  IsFirst-round version versions caches a (err e) reached rest h = cc
  IsFirst-round version versions caches a (ok r) reached rest h =
      IsFirst-answered version versions caches a r (ask r) reached refl rest h

  IsFirst-first_at :
      (versions : List String) (caches : Caches) (a : A)
      → first_at k c resolve token namespace local ask gvr versions caches ≡ (caches, ok (some a))
      → IsFirst versions a
  unfolding first_at call call_result
  IsFirst-first_at [] caches a h = cc
  IsFirst-first_at (version ∷ versions) caches a h =
      IsFirst-round version versions caches a _ refl (IsFirst-first_at versions caches a)
        (sym (first_at-round version versions caches) ∙ h)

  -- The loop over a list of versions, in the local cluster, ends with an answer exactly if that is
  -- the answer of some version of the list, and each version before it answered that nothing is
  -- found. The caches stay as they are.
  pub first_at_iff :
      (versions : List String) (caches : Caches) (a : A)
      → (first_at k c resolve token namespace local ask gvr versions caches ≡ (caches, ok (some a)))
        ↔ IsFirst versions a
  first_at_iff versions caches a =
      (IsFirst-first_at versions caches a, first_at-IsFirst versions caches a)
