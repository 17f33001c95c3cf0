-- ===== src/Discovery/Tests.antt =====
-- A cluster that serves pods in two groups and deployments in one.
use rancher_ai_mcp.Prelude.{
  ℕ, String, ◌≡◌, refl, true, false, none, some, List, [], ◌∷◌, ok, err, str_eq, if◌then◌else◌,
  arith,
}
use rancher_ai_mcp.Prelude.Dict
use rancher_ai_mcp.Changes.{Gvr}
use rancher_ai_mcp.Discovery.{
  kind_not_found, ambiguous, ApiResource, ApiResourceList, Names, Answers, fetch_api_resources,
  api_resources, pick, by_discovery, search_of, resolve_gvr,
}
use rancher_ai_mcp.Discovery.Stale.{cached_for_ttl, not_found_fresh}
use rancher_ai_mcp.Discovery.Matches.{
  IsServed, IsOffered, by_discovery_unique, by_discovery_none-IsOffered,
}

abbrev names : Names
names = record {
  parse_group_version = λ s. some (
      if str_eq s "v1"
      then record { group = ""; version = "v1" }
      else record { group = s; version = "v1" });
  show_group_version = λ gv. gv.version;
  equal_fold = str_eq;
  to_lower = λ s. s;
  trim_space = λ s. s;
  has_slash = λ s. false;
  cut_slash = λ s. none;
  cut_dot = λ s. none;
  kinds = [];
}

abbrev resource : String → String → ApiResource
resource name kind = record { name = name; kind = kind }

abbrev core : ApiResourceList
core = record { group_version = "v1"; api_resources = resource "pods" "Pod" ∷ [] }

abbrev apps : ApiResourceList
apps = record { group_version = "apps"; api_resources = resource "deployments" "Deployment" ∷ [] }

abbrev metrics : ApiResourceList
metrics = record { group_version = "metrics"; api_resources = resource "pods" "Pod" ∷ [] }

abbrev served : List ApiResourceList
served = core ∷ apps ∷ metrics ∷ []

abbrev deployments : Gvr
deployments = record { group = "apps"; version = "v1"; resource = "deployments" }

scan : Unit {0}
unfolding Dict.get pick by_discovery resolve_gvr fetch_api_resources api_resources search_of
scan = tt

by_discovery_unique_example :
    IsServed names "Deployment" served deployments
    × ((offer : IsOffered names "Deployment" served) → offer.gv.group ≡ deployments.group)
unfolding scan
by_discovery_unique_example = by_discovery_unique names "Deployment" served deployments refl

by_discovery_none-IsOffered_example : ¬ IsOffered names "Secret" served
unfolding scan
by_discovery_none-IsOffered_example = by_discovery_none-IsOffered names "Secret" served refl

abbrev answers : ℕ → Answers
answers t = record {
  cluster_id = ok "c1";
  client_set = ok tt;
  preferred = record { lists = served; error = none; group_discovery_failed = false };
  now = t;
  now' = t;
}

cached_for_ttl_example :
    ((api_resources [] (answers 5) true).1 ≡ ok served)
    × (api_resources (api_resources [] (answers 5) true).0 (answers 300000000004) false
        ≡ ((api_resources [] (answers 5) true).0, ok served))
unfolding scan
cached_for_ttl_example =
    cached_for_ttl [] (answers 5) (answers 300000000004) "c1" served refl refl refl (omega arith)

not_found_fresh_example : pick (by_discovery names "Secret" [] served) ≡ err kind_not_found
unfolding scan Dict.put
not_found_fresh_example =
    not_found_fresh names [] (answers 5) (answers 6) "Secret" ""
      (λ lists. pick (by_discovery names "Secret" [] lists)) "c1" served refl refl refl refl

ambiguous_pods :
    pick (by_discovery names "Pod" [] served)
    ≡ err (
        ambiguous (
          record { group = ""; version = "v1"; resource = "pods" }
          ∷ record { group = "metrics"; version = "v1"; resource = "pods" }
          ∷ []))
unfolding scan
ambiguous_pods = refl
