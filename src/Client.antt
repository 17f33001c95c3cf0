-- ===== src/Client.antt =====
-- pkg/client/client.go: the client that reaches the clusters behind Rancher. A value of
-- `dynamic.Interface` or `kubernetes.Interface` is a record of what its calls answer; the two
-- caches of cluster identifiers are the state that `Step` threads through.
pub mod Lookup
mod Tests
pub mod Setup
pub mod Requests
use rancher_ai_mcp.Prelude.{
  String, Bool, true, false, Option, none, some, List, [], ◌∷◌, Result, ok, err, ◌>>=◌,
  if◌then◌else◌, str_eq, concat,
}
use rancher_ai_mcp.Prelude.Dict
use rancher_ai_mcp.Prelude.Dict.{Dict}
use rancher_ai_mcp.Prelude.Int.{ℤ, pos}
use rancher_ai_mcp.Confirm.{Bytes}
use rancher_ai_mcp.Changes.{Gvr}

-- The error of a call: `not_found` where `errors.IsNotFound` holds of it.
pub data CallError : Type 0 where
  call_failed not_found : String → CallError

pub data ClientError : Type 0 where
  call_error : CallError → ClientError
  unknown_kind : String → ClientError
  cluster_not_found : String → ClientError

pub record Client : Type 0 where
  pub insecure : Bool
  pub rancher_url : String
  pub ca_bundle : Bytes

-- `clientcmdapi.Config` with one cluster, one user and one context.
pub record Kubeconfig : Type 0 where
  pub server : String
  pub insecure_skip_tls_verify : Bool
  pub certificate_authority_data : Bytes
  pub token : String

-- `metav1.ListOptions`
pub record ListOptions : Type 0 where
  pub label_selector : String
  pub limit : ℤ

-- `dynamic.ResourceInterface`
pub record ResourceInterface (Object : Type 0) : Type 0 where
  pub get : String → Result CallError Object
  pub list : ListOptions → Result CallError (List Object)

-- `dynamic.Interface`: without a namespace, and in one
pub record DynClient (Object : Type 0) : Type 0 where
  pub resource : Gvr → ResourceInterface Object
  pub namespaced : Gvr → String → ResourceInterface Object

-- `metav1.APIGroup`
pub record ApiGroup : Type 0 where
  pub name : String
  pub versions : List String

-- `kubernetes.Interface`: `Discovery().ServerGroups()`
pub record ClientSet : Type 0 where
  pub server_groups : Result CallError (List ApiGroup)

-- Packages that the client calls, and the kind table of pkg/converter.
pub record Kube (RestConfig Object : Type 0) : Type 0 where
  pub client_config : Kubeconfig → Result CallError RestConfig
  pub dyn_client : RestConfig → Result CallError (DynClient Object)
  pub client_set : RestConfig → Result CallError ClientSet
  pub get_name : Object → String
  -- `NestedString(o, "spec", "displayName")`: an error where it is no string
  pub display_name : Object → Result CallError (Option String)
  pub managed_clusters : Gvr
  pub kinds : Dict Gvr
  pub to_lower : String → String

-- `clusterIdsCache` and `clustersDisplayNameToIDCache`
pub record Caches : Type 0 where
  pub ids : Dict (Unit {0})
  pub display_names : Dict String

-- A call that may fill the caches.
abbrev pub Step : Type 0 → Type 0
Step A = Caches → Caches × Result ClientError A

pub store_id : String → Caches → Caches
store_id id caches = record {
  ids = Dict.put id tt caches.ids;
  display_names = caches.display_names;
}

pub store_display_name : String → String → Caches → Caches
store_display_name name id caches = record {
  ids = caches.ids;
  display_names = Dict.put name id caches.display_names;
}

-- Both entries of a cluster, where it has a display name.
pub store_cluster : String → Option String → Caches → Caches
unfolding store_id store_display_name
store_cluster id none caches = store_id id caches
store_cluster id (some name) caches = store_display_name name id (store_id id caches)

pub is_named : String → Option String → Bool
is_named wanted none = false
is_named wanted (some name) = str_eq name wanted

-- `metav1.ListOptions{}`
abbrev pub no_options : ListOptions
no_options = record { label_selector = ""; limit = pos 0 }

abbrev pub local : String
local = "local"

module _ {RestConfig Object : Type 0} (k : Kube RestConfig Object) (c : Client) where
  pub kubeconfig : String → String → Kubeconfig
  kubeconfig token cluster_id = record {
    server = concat c.rancher_url (concat "/k8s/clusters/" cluster_id);
    insecure_skip_tls_verify = c.insecure;
    certificate_authority_data = if c.insecure then [] else c.ca_bundle;
    token = token;
  }

  -- `CreateRestConfig`
  pub create_rest_config : String → String → Result CallError RestConfig
  unfolding kubeconfig
  create_rest_config token cluster_id = k.client_config (kubeconfig token cluster_id)

  pub namespaced_interface : String → Gvr → DynClient Object → ResourceInterface Object
  namespaced_interface namespace gvr dyn =
      if str_eq namespace "" then dyn.resource gvr else dyn.namespaced gvr namespace

  -- `GetResourceInterface`, once the cluster's ID is known.
  pub interface_at : String → String → Gvr → String → Result CallError (ResourceInterface Object)
  unfolding create_rest_config namespaced_interface
  interface_at token namespace gvr cluster_id = do
    config ← create_rest_config token cluster_id
    dyn ← k.dyn_client config
    ok (namespaced_interface namespace gvr dyn)

  -- The loop over the listed clusters, up to the first with this display name.
  pub scan : String → List Object → Step String
  unfolding store_id store_cluster is_named
  scan wanted [] caches = (caches, err (cluster_not_found wanted))
  scan wanted (cluster ∷ clusters) caches =
      let id = k.get_name cluster in
      elim (k.display_name cluster) [
        | err e ↦ (store_id id caches, err (call_error e))
        | ok name ↦
            let stored = store_cluster id name caches in
            elim (is_named wanted name) [
              | true ↦ (stored, ok id)
              | false ↦ scan wanted clusters stored
            ]
      ]

  pub scan_listed : String → Result CallError (List Object) → Step String
  unfolding scan
  scan_listed wanted (err e) caches = (caches, err (call_error e))
  scan_listed wanted (ok clusters) caches = scan wanted clusters caches

  pub store_fetched : String → Result CallError (Option String) → Step String
  unfolding store_id store_cluster
  store_fetched id (err e) caches = (store_id id caches, err (call_error e))
  store_fetched id (ok name) caches = (store_cluster id name caches, ok id)

  -- The cluster by its ID, or else by its display name.
  pub fetch_by_id : String → ResourceInterface Object → Result CallError Object → Step String
  unfolding scan_listed store_fetched
  fetch_by_id wanted clusters (err (not_found e)) caches =
      scan_listed wanted (clusters.list no_options) caches
  fetch_by_id wanted clusters (err e) caches = (caches, err (call_error e))
  fetch_by_id wanted clusters (ok cluster) caches =
      store_fetched wanted (k.display_name cluster) caches

  pub fetch_cluster_id : String → Result CallError (ResourceInterface Object) → Step String
  unfolding fetch_by_id
  fetch_cluster_id wanted (err e) caches = (caches, err (call_error e))
  fetch_cluster_id wanted (ok clusters) caches =
      fetch_by_id wanted clusters (clusters.get wanted) caches

  pub known_by_name : String → String → Option String → Step String
  unfolding fetch_cluster_id interface_at
  known_by_name token wanted (some id) caches = (caches, ok id)
  known_by_name token wanted none caches =
      fetch_cluster_id wanted (interface_at token "" k.managed_clusters local) caches

  pub known_by_id : String → String → Option (Unit {0}) → Step String
  unfolding known_by_name
  known_by_id token wanted (some _) caches = (caches, ok wanted)
  known_by_id token wanted none caches =
      known_by_name token wanted (Dict.get caches.display_names wanted) caches

  -- `GetClusterID`
  pub get_cluster_id : String → String → Step String
  unfolding known_by_id
  get_cluster_id token wanted caches =
      if str_eq wanted local
      then (caches, ok local)
      else known_by_id token wanted (Dict.get caches.ids wanted) caches
