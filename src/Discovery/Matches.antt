-- ===== src/Discovery/Matches.antt =====
-- What a full scan of a cluster's lists finds for a kind.
use mathlib.Core.Path.{subst}
use mathlib.Core.List.{Memᴰ}
use mathlib.Core.List.Memᴰ.{head, tail}
use rancher_ai_mcp.Prelude.{
  String, ◌≡◌, refl, ap, sym, ◌∙◌, inl, inr, Bool, true, false, Bool-cases, ◌||◌, Option, none,
  some, Option-cases, List, [], ◌∷◌, ok, err, arith, if◌then◌else◌, str_eq, eq_iff, eq_refl, any,
}
use rancher_ai_mcp.Changes.{Gvr}
use rancher_ai_mcp.Discovery.{
  kind_not_found, ApiResource, ApiResourceList, GroupVersion, Names, gvr_of, first_of_kind,
  match_in, map_gvr, list_match, by_discovery, pick,
}
use rancher_ai_mcp.Discovery.First.{
  HasKind, IsFirst, first_of_kind-IsFirst, IsFirst-first_of_kind, HasKind-IsFirst,
}

module _ (names : Names) (kind : String) where
  -- The list serves the kind, in this group version, as this resource.
  pub record IsServedBy (list : ApiResourceList) (gvr : Gvr) : Type 0 where
    pub gv : GroupVersion
    pub ar : ApiResource
    pub parsed : names.parse_group_version list.group_version ≡ some gv
    pub first : IsFirst names kind list.api_resources ar
    pub same : gvr ≡ record { group = gv.group; version = gv.version; resource = ar.name }

  -- Some list serves it.
  pub data IsServed : List ApiResourceList → Gvr → Type 0 where
    here :
        {list : ApiResourceList} {lists : List ApiResourceList} {gvr : Gvr}
        → IsServedBy list gvr
        → IsServed (list ∷ lists) gvr
    there :
        {list : ApiResourceList} {lists : List ApiResourceList} {gvr : Gvr}
        → IsServed lists gvr
        → IsServed (list ∷ lists) gvr

  -- The group is that of a match.
  abbrev pub has_group : String → List Gvr → Bool
  has_group group gvrs = any (λ (gvr : Gvr). str_eq group gvr.group) gvrs

  parsed-IsServed :
      (seen : List String) (list : ApiResourceList) (gvr : Gvr) (gv : GroupVersion)
      → names.parse_group_version list.group_version ≡ some gv
      → (if any (str_eq gv.group) seen
          then none
          else map_gvr names gv (first_of_kind names kind list.api_resources))
        ≡ some gvr
      → IsServedBy list gvr
  unfolding map_gvr gvr_of
  parsed-IsServed seen list gvr gv parsed h = elim (Bool-cases (any (str_eq gv.group) seen)) [
    | inl e ↦ cc (rw e at h)
    | inr e ↦ elim (Option-cases (first_of_kind names kind list.api_resources)) [
      | inl f ↦ cc (rw (e, f) at h)
      | inr (ar, f) ↦
          let same : some (gvr_of names gv ar) ≡ some gvr = rw (e, f) at h in
          record {
            gv = gv;
            ar = ar;
            parsed = parsed;
            first = first_of_kind-IsFirst names kind list.api_resources ar f;
            same = cc;
          }
    ]
  ]

  match_in-IsServed :
      (seen : List String) (list : ApiResourceList) (gvr : Gvr) (o : Option GroupVersion)
      → names.parse_group_version list.group_version ≡ o
      → match_in names kind seen list o ≡ some gvr
      → IsServedBy list gvr
  unfolding match_in
  match_in-IsServed seen list gvr none parsed h = cc
  match_in-IsServed seen list gvr (some gv) parsed h = parsed-IsServed seen list gvr gv parsed h

  match-IsServed :
      (seen : List String) (list : ApiResourceList) (gvr : Gvr)
      → list_match names kind seen list ≡ some gvr
      → IsServedBy list gvr
  unfolding list_match
  match-IsServed seen list gvr h = match_in-IsServed seen list gvr _ refl h

  list_match-IsServedBy :
      (seen : List String) (list : ApiResourceList) (gvr : Gvr)
      → IsServedBy list gvr
      → any (str_eq gvr.group) seen ≡ false
      → list_match names kind seen list ≡ some gvr
  unfolding list_match match_in map_gvr gvr_of
  list_match-IsServedBy seen list gvr h fresh =
      let group : gvr.group ≡ h.gv.group = ap (λ (g : Gvr). g.group) h.same in
      let fresh' : any (str_eq h.gv.group) seen ≡ false =
        ap (λ (g : String). any (str_eq g) seen) (sym group) ∙ fresh in
      ap (match_in names kind seen list) h.parsed
      ∙ rw (fresh', IsFirst-first_of_kind names kind list.api_resources h.ar h.first)
          (ap some (sym h.same))

  -- Every match is served.
  data IsMatch : List Gvr → Gvr → Type 0 where
    first_match : {gvrs : List Gvr} {gvr : Gvr} → IsMatch (gvr ∷ gvrs) gvr
    later_match :
        {gvrs : List Gvr} {gvr other : Gvr} → IsMatch gvrs gvr → IsMatch (other ∷ gvrs) gvr

  match_or_rest :
      (list : ApiResourceList) (lists : List ApiResourceList) (gvr g : Gvr) (rest : List Gvr)
      → IsServedBy list g
      → (IsMatch rest gvr → IsServed lists gvr)
      → IsMatch (g ∷ rest) gvr
      → IsServed (list ∷ lists) gvr
  match_or_rest list lists gvr g rest h f first_match = here h
  match_or_rest list lists gvr g rest h f (later_match m) = there (f m)

  matches-IsServed :
      (seen : List String) (lists : List ApiResourceList) (gvr : Gvr)
      → IsMatch (by_discovery names kind seen lists) gvr
      → IsServed lists gvr
  unfolding by_discovery
  matches-IsServed seen [] gvr h = elim h [ ]
  matches-IsServed seen (list ∷ lists) gvr h =
      elim (Option-cases (list_match names kind seen list)) [
        | inl e ↦ there (matches-IsServed seen lists gvr (rw (e, by_discovery) at h))
        | inr (g, e) ↦
            match_or_rest list lists gvr g _ (match-IsServed seen list g e)
              (matches-IsServed (g.group ∷ seen) lists gvr) (rw (e, by_discovery) at h)
      ]

  by_discovery-none :
      (seen : List String) (list : ApiResourceList) (lists : List ApiResourceList)
      → list_match names kind seen list ≡ none
      → by_discovery names kind seen (list ∷ lists) ≡ by_discovery names kind seen lists
  unfolding by_discovery
  by_discovery-none seen list lists e = rw (e, by_discovery) refl

  by_discovery-some :
      (seen : List String) (list : ApiResourceList) (lists : List ApiResourceList) (gvr : Gvr)
      → list_match names kind seen list ≡ some gvr
      → by_discovery names kind seen (list ∷ lists)
        ≡ gvr ∷ by_discovery names kind (gvr.group ∷ seen) lists
  unfolding by_discovery
  by_discovery-some seen list lists gvr e = rw (e, by_discovery) refl

  has_group-IsServed :
      (seen : List String) (lists : List ApiResourceList) (gvr : Gvr)
      → IsServed lists gvr
      → (has_group gvr.group (by_discovery names kind seen lists) || any (str_eq gvr.group) seen)
        ≡ true
  unfolding by_discovery
  has_group-IsServed seen [] gvr h = elim h [ ]
  has_group-IsServed seen (list ∷ lists) gvr (here h) =
      elim (Bool-cases (any (str_eq gvr.group) seen)) [
        | inl e ↦ rw e (ground arith)
        | inr e ↦
            rw
              (
                by_discovery-some seen list lists gvr (list_match-IsServedBy seen list gvr h e),
                eq_refl gvr.group,
              )
              refl
      ]
  has_group-IsServed seen (list ∷ lists) gvr (there h) =
      elim (Option-cases (list_match names kind seen list)) [
        | inl e ↦ rw (by_discovery-none seen list lists e) (has_group-IsServed seen lists gvr h)
        | inr (g, e) ↦
            rw (by_discovery-some seen list lists g e)
              (ground (arith, has_group-IsServed (g.group ∷ seen) lists gvr h))
      ]

  pick_ok : (gvrs : List Gvr) (gvr : Gvr) → pick gvrs ≡ ok gvr → gvrs ≡ gvr ∷ []
  unfolding pick
  pick_ok [] gvr h = cc
  pick_ok (g ∷ []) gvr h = cc
  pick_ok (g ∷ (g' ∷ gs)) gvr h = cc

  pick_none : (gvrs : List Gvr) → pick gvrs ≡ err kind_not_found → gvrs ≡ []
  unfolding pick
  pick_none [] h = refl
  pick_none (g ∷ []) h = cc
  pick_none (g ∷ (g' ∷ gs)) h = cc

  -- Some list with a valid group version has a resource of the kind.
  pub record IsOffered (lists : List ApiResourceList) : Type 0 where
    pub list : ApiResourceList
    pub member : Memᴰ list lists
    pub gv : GroupVersion
    pub parsed : names.parse_group_version list.group_version ≡ some gv
    pub ar : ApiResource
    pub listed : Memᴰ ar list.api_resources
    pub has : HasKind names kind ar

  member-IsServed :
      (list : ApiResourceList) (lists : List ApiResourceList) (gvr : Gvr)
      → Memᴰ list lists
      → IsServedBy list gvr
      → IsServed lists gvr
  member-IsServed list [] gvr m served = elim m [ ]
  member-IsServed list (l ∷ lists) gvr (head same) served =
      here (subst (λ (r : ApiResourceList). IsServedBy r gvr) same served)
  member-IsServed list (l ∷ lists) gvr (tail m) served =
      there (member-IsServed list lists gvr m served)

  IsOffered-IsServed :
      (lists : List ApiResourceList) (offer : IsOffered lists)
      → (gvr : Gvr) × IsServed lists gvr × (gvr.group ≡ offer.gv.group)
  IsOffered-IsServed lists offer =
      let (ar, first) =
        HasKind-IsFirst names kind offer.list.api_resources offer.ar offer.listed offer.has in
      let gvr : Gvr = record {
        group = offer.gv.group;
        version = offer.gv.version;
        resource = ar.name;
      } in
      (
        gvr,
        member-IsServed offer.list lists gvr offer.member
            (record { gv = offer.gv; ar = ar; parsed = offer.parsed; first = first; same = refl }),
        refl,
      )

  -- If the scan resolves the kind to a resource, then some list of the cluster has it as its first
  -- resource of the kind, and whichever list with a valid group version has a resource of the kind
  -- is of the same group.
  pub by_discovery_unique :
      (lists : List ApiResourceList) (gvr : Gvr)
      → pick (by_discovery names kind [] lists) ≡ ok gvr
      → IsServed lists gvr × ((offer : IsOffered lists) → offer.gv.group ≡ gvr.group)
  unfolding by_discovery
  by_discovery_unique lists gvr h =
      let one = pick_ok (by_discovery names kind [] lists) gvr h in
      (
        matches-IsServed [] lists gvr (rw one first_match),
        λ offer.
            let (other, served, same) = IsOffered-IsServed lists offer in
            let grouped : (has_group other.group (gvr ∷ []) || false) ≡ true =
              rw one at (has_group-IsServed [] lists other served) in
            sym same ∙ (eq_iff other.group gvr.group).0 (ground (arith, grouped)),
      )

  -- If the scan reports that the kind is not found, no list with a valid group version has a
  -- resource of the kind.
  pub by_discovery_none-IsOffered :
      (lists : List ApiResourceList)
      → pick (by_discovery names kind [] lists) ≡ err kind_not_found
      → ¬ IsOffered lists
  unfolding by_discovery
  by_discovery_none-IsOffered lists h offer =
      let empty = pick_none (by_discovery names kind [] lists) h in
      let (gvr, served, same) = IsOffered-IsServed lists offer in
      let grouped : false ≡ true = rw empty at (has_group-IsServed [] lists gvr served) in
      cc grouped
