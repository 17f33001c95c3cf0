-- ===== src/Client/Requests.antt =====
-- pkg/client/client.go: the requests for one object, for a list, and for either at whichever
-- version of a resource type the cluster serves. `resolve` stands for `ResolveGVR` of
-- pkg/client/resolve.go (module Discovery), which fills the caches of cluster identifiers too.
pub mod Versions
pub mod Listing
pub mod AnyVersion
use rancher_ai_mcp.Prelude.{
  ℕ, String, Bool, true, false, Option, none, some, List, [], ◌∷◌, ◌++◌, Result, ok, err,
  if◌then◌else◌, str_eq, is_empty,
}
use rancher_ai_mcp.Prelude.Dict
use rancher_ai_mcp.Prelude.Int.{ℤ, pos, negsuc}
use rancher_ai_mcp.Changes.{Gvr}
use rancher_ai_mcp.Client.{
  CallError, call_failed, not_found, ClientError, call_error, unknown_kind, Client, ListOptions,
  ResourceInterface, ApiGroup, ClientSet, Kube, Caches, Step, create_rest_config, interface_at,
  get_cluster_id,
}

pub record GetParams : Type 0 where
  pub cluster : String
  pub kind : String
  pub api_version : String
  pub namespace : String
  pub name : String
  pub token : String

pub record ListParams : Type 0 where
  pub cluster : String
  pub kind : String
  pub api_version : String
  pub namespace : String
  pub name : String
  pub token : String
  pub label_selector : String
  pub limit : ℤ

-- `v, err := first; if err != nil { return err }; next(v)`, over the caches
pub next :
    {A B : Type 0} → Caches × Result ClientError A → (A → Step B) → Caches × Result ClientError B
next (caches, err e) f = (caches, err e)
next (caches, ok a) f = f a caches

infixl 5 ◌>>=◌
unfoldable pub ◌>>=◌ : {A B : Type 0} → Step A → (A → Step B) → Step B
unfolding next
(m >>= f) caches = next (m caches) f

pub call_result : {A : Type 0} → Result CallError A → Result ClientError A
call_result (err e) = err (call_error e)
call_result (ok a) = ok a

-- A call that leaves the caches alone.
unfoldable pub call : {A : Type 0} → Result CallError A → Step A
unfolding call_result
call r caches = (caches, call_result r)

unfoldable pub fail : {A : Type 0} → ClientError → Step A
fail e caches = (caches, err e)

-- `if params.Limit > 0`
pub limit_of : ℤ → ℤ
limit_of (pos n) = pos n
limit_of (negsuc n) = pos 0

pub list_options : ListParams → ListOptions
unfolding limit_of
list_options p = record { label_selector = p.label_selector; limit = limit_of p.limit }

-- The versions of the groups with this name, in the order of the cluster.
pub group_versions : String → List ApiGroup → List String
group_versions group [] = []
group_versions group (g ∷ groups) =
    let rest = group_versions group groups in
    if str_eq g.name group then g.versions ++ rest else rest

pub at_version : Gvr → String → Gvr
at_version gvr version = record { group = gvr.group; version = version; resource = gvr.resource }

module _ {RestConfig Object : Type 0} (k : Kube RestConfig Object) (c : Client)
    (resolve : String → String → String → String → Step Gvr) where
  -- `CreateClientSet`
  pub create_client_set : String → String → Step ClientSet
  unfolding ◌>>=◌ call get_cluster_id create_rest_config
  create_client_set token cluster = do
    cluster_id ← get_cluster_id k c token cluster
    config ← call (create_rest_config k c token cluster_id)
    call (k.client_set config)

  -- `GetResourceInterface`
  pub get_resource_interface : String → String → String → Gvr → Step (ResourceInterface Object)
  unfolding ◌>>=◌ call get_cluster_id interface_at
  get_resource_interface token namespace cluster gvr = do
    cluster_id ← get_cluster_id k c token cluster
    call (interface_at k c token namespace gvr cluster_id)

  pub get_resource_by_gvr : GetParams → Gvr → Step Object
  unfolding ◌>>=◌ call get_resource_interface
  get_resource_by_gvr p gvr = do
    r ← get_resource_interface p.token p.namespace p.cluster gvr
    call (r.get p.name)

  pub get_resource : GetParams → Step Object
  unfolding ◌>>=◌ call get_resource_interface
  get_resource p = do
    gvr ← resolve p.token p.cluster p.kind p.api_version
    r ← get_resource_interface p.token p.namespace p.cluster gvr
    call (r.get p.name)

  pub get_resources : ListParams → Step (List Object)
  unfolding ◌>>=◌ call get_resource_interface list_options
  get_resources p = do
    gvr ← resolve p.token p.cluster p.kind p.api_version
    r ← get_resource_interface p.token p.namespace p.cluster gvr
    call (r.list (list_options p))

  -- `getAPIVersionsForGR`
  pub get_api_versions_for_gr : String → String → String → Step (List String)
  unfolding ◌>>=◌ call create_client_set group_versions
  get_api_versions_for_gr token cluster group = do
    client_set ← create_client_set token cluster
    groups ← call client_set.server_groups
    call (ok (group_versions group groups))

  -- A failed attempt at one version leaves the next one to try, if nothing was found there.
  pub attempt : {A : Type 0} → Step (Option A) → Result CallError A → Step (Option A)
  attempt rest (err (not_found e)) caches = rest caches
  attempt rest (err (call_failed e)) caches = (caches, err (call_error (call_failed e)))
  attempt rest (ok a) caches = (caches, ok (some a))

  -- The loop over the versions.
  pub first_at :
      {A : Type 0}
      → String
      → String
      → String
      → (ResourceInterface Object → Result CallError A)
      → Gvr
      → List String
      → Step (Option A)
  unfolding ◌>>=◌ call get_resource_interface attempt
  first_at token namespace cluster ask gvr [] = call (ok none)
  first_at token namespace cluster ask gvr (version ∷ versions) = do
    r ← get_resource_interface token namespace cluster (at_version gvr version)
    attempt (first_at token namespace cluster ask gvr versions) (ask r)

  at_any :
      {A : Type 0}
      → String
      → String
      → String
      → (ResourceInterface Object → Result CallError A)
      → Option Gvr
      → String
      → Step (Option A)
  unfolding ◌>>=◌ get_api_versions_for_gr first_at fail
  at_any token namespace cluster ask none kind = fail (unknown_kind kind)
  at_any token namespace cluster ask (some gvr) kind = do
    versions ← get_api_versions_for_gr token cluster gvr.group
    first_at token namespace cluster ask gvr versions

  found_object : String → Option Object → Step Object
  unfolding call
  found_object name none = call (err (not_found name))
  found_object name (some object) = call (ok object)

  found_objects : String → Option (List Object) → Step (List Object)
  unfolding call
  found_objects name none = call (err (not_found name))
  found_objects name (some []) = call (err (not_found name))
  found_objects name (some (object ∷ objects)) = call (ok (object ∷ objects))

  pub get_resource_at_any_api_version : GetParams → Step Object
  unfolding ◌>>=◌ at_any found_object
  get_resource_at_any_api_version p = do
    found ←
        at_any p.token p.namespace p.cluster (λ r. r.get p.name)
          (Dict.get k.kinds (k.to_lower p.kind)) p.kind
    found_object p.name found

  pub get_resources_at_any_api_version : ListParams → Step (List Object)
  unfolding ◌>>=◌ at_any found_objects list_options
  get_resources_at_any_api_version p = do
    found ←
        at_any p.token p.namespace p.cluster (λ r. r.list (list_options p))
          (Dict.get k.kinds (k.to_lower p.kind)) p.kind
    found_objects p.name found
