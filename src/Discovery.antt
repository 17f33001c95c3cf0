-- ===== src/Discovery.antt =====
-- pkg/client/resolve.go: how a kind is resolved to a resource type, with the cache of what each
-- cluster serves. Times are nanoseconds since 1970. The cluster's answers and the readings of the
-- clock are arguments of `apiResources`; a second call of it, after the cache is found stale, has
-- its own.
pub mod Stale
pub mod First
pub mod Matches
mod Tests
use rancher_ai_mcp.Prelude.{
  ℕ, zero, suc, ◌+◌, ◌*◌, String, Bool, true, false, not, ◌&&◌, ◌||◌, Option, none, some, List, [],
  ◌∷◌, ◌++◌, Result, ok, err, if◌then◌else◌, ltb, str_eq, any, is_empty,
}
use rancher_ai_mcp.Prelude.Dict
use rancher_ai_mcp.Prelude.Dict.{Dict}
use rancher_ai_mcp.Changes.{Gvr}

pub data ResolveError : Type 0 where
  kind_empty : ResolveError
  invalid_api_version : ResolveError
  -- the errors that wrap `errKindNotFound`
  kind_not_found : ResolveError
  -- the candidates, in the order found
  ambiguous : List Gvr → ResolveError
  call_failed : String → ResolveError

-- `metav1.APIResource`, `metav1.APIResourceList` and `schema.GroupVersion`
pub record ApiResource : Type 0 where
  pub name : String
  pub kind : String

pub record ApiResourceList : Type 0 where
  pub group_version : String
  pub api_resources : List ApiResource

pub record GroupVersion : Type 0 where
  pub group : String
  pub version : String

-- Packages that the code calls.
pub record Names : Type 0 where
  pub parse_group_version : String → Option GroupVersion
  -- `GroupVersion.String`
  pub show_group_version : GroupVersion → String
  pub equal_fold : String → String → Bool
  pub to_lower : String → String
  pub trim_space : String → String
  -- `strings.Contains(s, "/")`
  pub has_slash : String → Bool
  -- `s[:i], s[i+1:]` at the first "/" (or "."), if there is one
  pub cut_slash : String → Option (String × String)
  pub cut_dot : String → Option (String × String)
  -- `converter.K8sKindsToGVRs`
  pub kinds : Dict Gvr

pub record DiscoveryEntry : Type 0 where
  pub lists : List ApiResourceList
  pub expiry : ℕ

abbrev pub Cache : Type 0
Cache = Dict DiscoveryEntry

-- 5 minutes
abbrev pub discovery_cache_ttl : ℕ
discovery_cache_ttl = 300000000000

-- `discovery.ServerPreferredResources`: the lists it returns, with or without an error, and
-- whether the error is a failed group.
pub record Preferred : Type 0 where
  pub lists : List ApiResourceList
  pub error : Option String
  pub group_discovery_failed : Bool

-- What one call of `apiResources` meets: the cluster's ID, the client set, the answer of the
-- cluster, and two readings of the clock.
pub record Answers : Type 0 where
  pub cluster_id : Result ResolveError String
  pub client_set : Result ResolveError (Unit {0})
  pub preferred : Preferred
  pub now : ℕ
  pub now' : ℕ

-- Partial lists are used when only some groups failed.
usable : Preferred → Result ResolveError (List ApiResourceList)
usable p = elim (p.error) [
  | none ↦ ok p.lists
  | some e ↦
      if p.group_discovery_failed && not (is_empty p.lists) then ok p.lists else err (call_failed e)
]

pub fetch_api_resources : Answers → Result ResolveError (List ApiResourceList)
unfolding usable
fetch_api_resources a = elim (a.client_set) [ ok _ ↦ usable a.preferred | err e ↦ err e ]

store :
    Cache
    → String
    → ℕ
    → Result ResolveError (List ApiResourceList)
    → Cache × Result ResolveError (List ApiResourceList)
store cache id now (err e) = (cache, err e)
store cache id now (ok lists) =
    (Dict.put id (record { lists = lists; expiry = now + discovery_cache_ttl }) cache, ok lists)

-- The cached lists, unless they are stale or the refresh is forced.
cached : Option DiscoveryEntry → ℕ → Bool → Option (List ApiResourceList)
cached none now force = none
cached (some entry) now force = if not force && ltb now entry.expiry then some entry.lists else none

load :
    Cache
    → String
    → Answers
    → Option (List ApiResourceList)
    → Cache × Result ResolveError (List ApiResourceList)
unfolding store fetch_api_resources
load cache id a (some lists) = (cache, ok lists)
load cache id a none = store cache id a.now' (fetch_api_resources a)

-- `apiResources`
pub api_resources : Cache → Answers → Bool → Cache × Result ResolveError (List ApiResourceList)
unfolding load cached
api_resources cache a force = elim (a.cluster_id) [
  | err e ↦ (cache, err e)
  | ok id ↦ load cache id a (cached (Dict.get cache id) a.now force)
]

module _ (names : Names) where
  pub gvr_of : GroupVersion → ApiResource → Gvr
  gvr_of gv ar = record { group = gv.group; version = gv.version; resource = ar.name }

  pub is_subresource : ApiResource → Bool
  is_subresource ar = names.has_slash ar.name

  -- The resource is no subresource and has the kind, up to case.
  pub serves : String → ApiResource → Bool
  unfolding is_subresource
  serves kind ar = not (is_subresource ar) && names.equal_fold ar.kind kind

  -- The first resource of a list with the kind.
  pub first_of_kind : String → List ApiResource → Option ApiResource
  unfolding serves
  first_of_kind kind [] = none
  first_of_kind kind (ar ∷ ars) =
      let rest = first_of_kind kind ars in if serves kind ar then some ar else rest

  or_next : {A : Type 0} → Option A → Option A → Option A
  or_next (some a) rest = some a
  or_next none rest = rest

  map_gvr : GroupVersion → Option ApiResource → Option Gvr
  unfolding gvr_of
  map_gvr gv none = none
  map_gvr gv (some ar) = some (gvr_of gv ar)

  -- The loop of `resolveInGroupVersion`.
  pub in_group_version : String → GroupVersion → List ApiResourceList → Option Gvr
  unfolding or_next first_of_kind map_gvr
  in_group_version kind gv [] = none
  in_group_version kind gv (list ∷ lists) =
      let rest = in_group_version kind gv lists in
      if not (str_eq list.group_version (names.show_group_version gv))
      then rest
      else or_next (map_gvr gv (first_of_kind kind list.api_resources)) rest

  in_list : String → String → ApiResourceList → Option GroupVersion → Option Gvr
  unfolding first_of_kind map_gvr
  in_list group kind list none = none
  in_list group kind list (some gv) =
      if str_eq gv.group group then map_gvr gv (first_of_kind kind list.api_resources) else none

  -- The loop of `resolveInGroup`: the lists come in the order of preference.
  pub in_group : String → String → List ApiResourceList → Option Gvr
  unfolding or_next in_list
  in_group group kind [] = none
  in_group group kind (list ∷ lists) =
      or_next (in_list group kind list (names.parse_group_version list.group_version))
        (in_group group kind lists)

  match_in : String → List String → ApiResourceList → Option GroupVersion → Option Gvr
  unfolding first_of_kind map_gvr
  match_in kind seen list none = none
  match_in kind seen list (some gv) =
      if any (str_eq gv.group) seen
      then none
      else map_gvr gv (first_of_kind kind list.api_resources)

  -- What the loop of `resolveByDiscovery` takes from one list.
  pub list_match : String → List String → ApiResourceList → Option Gvr
  unfolding match_in
  list_match kind seen list = match_in kind seen list (names.parse_group_version list.group_version)

  -- The loop of `resolveByDiscovery`: at most one match for each group, the first.
  pub by_discovery : String → List String → List ApiResourceList → List Gvr
  unfolding list_match
  by_discovery kind seen [] = []
  by_discovery kind seen (list ∷ lists) = elim (list_match kind seen list) [
    | none ↦ by_discovery kind seen lists
    | some gvr ↦ gvr ∷ by_discovery kind (gvr.group ∷ seen) lists
  ]

-- `i > 0 && i < len(kind)-1`
both_parts : Option (String × String) → Option (String × String)
both_parts none = none
both_parts (some (left, right)) =
    if not (str_eq left "") && not (str_eq right "") then some (left, right) else none

-- `splitQualifiedKind`: "group/Kind" or "Kind.group"; group and kind.
qualified : Option (String × String) → Option (String × String) → Option (String × String)
qualified (some (group, kind)) dot = some (group, kind)
qualified none (some (kind, group)) = some (group, kind)
qualified none none = none

found : Option Gvr → Result ResolveError Gvr
found none = err kind_not_found
found (some gvr) = ok gvr

pub pick : List Gvr → Result ResolveError Gvr
pick [] = err kind_not_found
pick (gvr ∷ []) = ok gvr
pick (gvr ∷ (gvr' ∷ gvrs)) = err (ambiguous (gvr ∷ gvr' ∷ gvrs))

-- How the cluster's lists are searched, or an answer without them.
pub data Search : Type 0 where
  answer : Result ResolveError Gvr → Search
  search : (List ApiResourceList → Result ResolveError Gvr) → Search

module _ (names : Names) where
  search_qualified : String → Option (String × String) → Search
  unfolding found pick in_group by_discovery
  search_qualified kind (some (group, k)) = search (λ lists. found (in_group names group k lists))
  search_qualified kind none = search (λ lists. pick (by_discovery names kind [] lists))

  search_version : String → Option GroupVersion → Search
  unfolding found in_group_version
  search_version kind none = answer (err invalid_api_version)
  search_version kind (some gv) = search (λ lists. found (in_group_version names kind gv lists))

  search_table : String → Option Gvr → Search
  unfolding search_qualified qualified both_parts
  search_table kind (some gvr) = answer (ok gvr)
  search_table kind none =
      search_qualified kind
        (qualified (both_parts (names.cut_slash kind)) (both_parts (names.cut_dot kind)))

  -- The order of resolution of `resolveGVR`.
  pub search_of : String → String → Search
  unfolding search_version search_table
  search_of kind api_version =
      if str_eq (names.trim_space kind) ""
      then answer (err kind_empty)
      else if not (str_eq api_version "")
      then search_version kind (names.parse_group_version api_version)
      else search_table kind (Dict.get names.kinds (names.to_lower kind))

  in_lists :
      (List ApiResourceList → Result ResolveError Gvr)
      → Cache × Result ResolveError (List ApiResourceList)
      → Cache × Result ResolveError Gvr
  in_lists f (cache, err e) = (cache, err e)
  in_lists f (cache, ok lists) = (cache, f lists)

  run_search : Search → Cache → Answers → Bool → Cache × Result ResolveError Gvr
  unfolding in_lists api_resources
  run_search (answer r) cache a force = (cache, r)
  run_search (search f) cache a force = in_lists f (api_resources cache a force)

  is_kind_not_found : Result ResolveError Gvr → Bool
  is_kind_not_found (err kind_not_found) = true
  is_kind_not_found _ = false

  -- `ResolveGVR`: the cache is passed over once when the kind is not found.
  retry : Search → Answers → Cache × Result ResolveError Gvr → Cache × Result ResolveError Gvr
  unfolding run_search is_kind_not_found
  retry s a (cache, r) = if is_kind_not_found r then run_search s cache a true else (cache, r)

  pub resolve_gvr : Cache → Answers → Answers → String → String → Cache × Result ResolveError Gvr
  unfolding retry run_search search_of
  resolve_gvr cache a a' kind api_version =
      retry (search_of kind api_version) a' (run_search (search_of kind api_version) cache a false)
