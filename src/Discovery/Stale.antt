-- ===== src/Discovery/Stale.antt =====
-- What the cache of a cluster's resource types may answer.
use rancher_ai_mcp.Prelude.{
  ℕ, ◌+◌, ◌<◌, String, ◌≡◌, refl, ap, sym, ◌∙◌, true, false, Option, none, some, List, Result, ok,
  err, eq_refl, lt→ltb,
}
use rancher_ai_mcp.Prelude.Dict
use rancher_ai_mcp.Prelude.Dict.{Dict, get-put}
use rancher_ai_mcp.Changes.{Gvr}
use rancher_ai_mcp.Discovery.{
  ResolveError, kind_not_found, kind_empty, invalid_api_version, ambiguous, call_failed,
  ApiResourceList, Names, Cache, DiscoveryEntry, Answers, discovery_cache_ttl, fetch_api_resources,
  store, cached, load, api_resources, Search, search, search_of, in_lists, run_search, retry,
  is_kind_not_found, resolve_gvr,
}

load_hit :
    (cache : Cache) (id : String) (lists : List ApiResourceList) (expiry : ℕ) (a : Answers)
    → a.cluster_id ≡ ok id
    → Dict.get cache id ≡ some (record { lists = lists; expiry = expiry })
    → a.now < expiry
    → api_resources cache a false ≡ (cache, ok lists)
unfolding api_resources load cached
load_hit cache id lists expiry a same there live = rw (same, there, lt→ltb a.now expiry live) refl

cached_forced : (entry : Option DiscoveryEntry) (now : ℕ) → cached entry now true ≡ none
unfolding cached
cached_forced none now = refl
cached_forced (some entry) now = refl

api_resources_forced :
    (cache : Cache) (id : String) (lists : List ApiResourceList) (a : Answers)
    → a.cluster_id ≡ ok id
    → fetch_api_resources a ≡ ok lists
    → api_resources cache a true ≡ (
      Dict.put id (record { lists = lists; expiry = a.now' + discovery_cache_ttl }) cache,
      ok lists,
    )
unfolding api_resources load store
api_resources_forced cache id lists a same fetched =
    rw (same, cached_forced (Dict.get cache id) a.now, fetched) refl

-- If a forced call at one cluster returns lists, then, until five minutes after its last reading
-- of the clock, every further call that is not forced at that cluster returns the same lists,
-- whatever the cluster would answer by then, and leaves the cache as it is.
pub cached_for_ttl :
    (cache : Cache) (a a' : Answers) (id : String) (lists : List ApiResourceList)
    → a.cluster_id ≡ ok id
    → fetch_api_resources a ≡ ok lists
    → a'.cluster_id ≡ ok id
    → a'.now < a.now' + discovery_cache_ttl
    → ((api_resources cache a true).1 ≡ ok lists)
      × (api_resources (api_resources cache a true).0 a' false
          ≡ ((api_resources cache a true).0, ok lists))
cached_for_ttl cache a a' id lists same fetched same' live =
    let forced = api_resources_forced cache id lists a same fetched in
    (
      ap (λ (r : Cache × Result ResolveError (List ApiResourceList)). r.1) forced,
      rw forced (
          load_hit
            (Dict.put id (record { lists = lists; expiry = a.now' + discovery_cache_ttl }) cache) id
            lists (a.now' + discovery_cache_ttl) a' same' (simp (get-put, eq_refl) refl) live),
    )

retry_not_found :
    (names : Names) (f : List ApiResourceList → Result ResolveError Gvr) (a : Answers) (id : String)
    (lists : List ApiResourceList) (r : Cache × Result ResolveError Gvr)
    → a.cluster_id ≡ ok id
    → fetch_api_resources a ≡ ok lists
    → (retry names (search f) a r).1 ≡ err kind_not_found
    → f lists ≡ err kind_not_found
unfolding retry run_search is_kind_not_found in_lists
retry_not_found names f a id lists (cache, ok gvr) same fetched h = cc
retry_not_found names f a id lists (cache, err kind_empty) same fetched h = cc
retry_not_found names f a id lists (cache, err invalid_api_version) same fetched h = cc
retry_not_found names f a id lists (cache, err (ambiguous gvrs)) same fetched h = cc
retry_not_found names f a id lists (cache, err (call_failed e)) same fetched h = cc
retry_not_found names f a id lists (cache, err kind_not_found) same fetched h =
    sym (
      ap (λ (r : Cache × Result ResolveError (List ApiResourceList)). (in_lists names f r).1)
        (api_resources_forced cache id lists a same fetched))
    ∙ h

-- If a kind is not found, the kinds that the cluster serves now were asked for: the last search
-- was over lists fetched by the second round of answers, not over cached ones.
pub not_found_fresh :
    (names : Names) (cache : Cache) (a a' : Answers) (kind api_version : String)
    (f : List ApiResourceList → Result ResolveError Gvr) (id : String)
    (lists : List ApiResourceList)
    → search_of names kind api_version ≡ search f
    → a'.cluster_id ≡ ok id
    → fetch_api_resources a' ≡ ok lists
    → (resolve_gvr names cache a a' kind api_version).1 ≡ err kind_not_found
    → f lists ≡ err kind_not_found
unfolding resolve_gvr
not_found_fresh names cache a a' kind api_version f id lists e same fetched h =
    retry_not_found names f a' id lists
      (run_search names (search_of names kind api_version) cache a false) same fetched
      (ap
          (λ (s : Search).
            (retry names s a'
              (run_search names (search_of names kind api_version) cache a false)).1)
          (sym e)
        ∙ h)
