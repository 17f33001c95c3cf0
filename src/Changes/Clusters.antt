-- ===== src/Changes/Clusters.antt =====
-- pkg/toolsets/provisioning: create_custom_cluster.go, create_imported_cluster.go,
-- create_k3k_cluster.go: the cluster objects that they create.
pub mod Create
pub mod Supported
pub mod Described
mod Tests
use rancher_ai_mcp.Prelude.{
  ℕ, ◌==◌, String, Bool, true, false, not, ◌&&◌, ◌||◌, Option, none, some, List, [], ◌∷◌, ◌++◌,
  Result, ok, err, ◌>>=◌, ◌>>◌, if◌then◌else◌, str_eq, refuse_unless,
}
use rancher_ai_mcp.Prelude.Int.{ℤ, pos, negsuc, ltb_ℤ}
use rancher_ai_mcp.Prelude.Dict.{Dict}
use rancher_ai_mcp.Confirm.{Bytes}
use rancher_ai_mcp.Changes.{Gvr, Failure, invalid}
use rancher_ai_mcp.Changes.Projects.{text_set}
use rancher_ai_mcp.Changes.Releases.{
  Releases, is_distribution, supported_kubernetes_version, supported_cni,
}

abbrev pub local : String
local = "local"

-- `DefaultClusterResourcesNamespace`
abbrev pub fleet_default : String
fleet_default = "fleet-default"

pub record CustomParams : Type 0 where
  pub name : String
  pub description : String
  pub cni : String
  pub version : String
  pub distribution : String
  pub confirmation_token : Bytes

pub record DrainOptions : Type 0 where
  pub delete_empty_dir_data : Bool
  pub grace_period : ℤ
  pub ignore_daemon_sets : Bool
  pub timeout : ℕ

-- The fields of the `provisioningV1.Cluster` that is created.
pub record CustomCluster : Type 0 where
  pub kind : String
  pub api_version : String
  pub name : String
  pub namespace : String
  pub annotations : Dict String
  pub kubernetes_version : String
  pub snapshot_retention : ℕ
  pub snapshot_schedule_cron : String
  pub machine_global_config : Dict String
  pub control_plane_concurrency : String
  pub control_plane_drain_options : DrainOptions
  pub worker_concurrency : String
  pub worker_drain_options : DrainOptions

pub record ImportedParams : Type 0 where
  pub name : String
  pub description : String
  pub version_management_setting : String
  pub confirmation_token : Bytes

pub record ImportedCluster : Type 0 where
  pub annotations : Dict String
  pub type : String
  pub name : String
  pub description : String

pub record ResourceLimits : Type 0 where
  pub cpu : String
  pub memory : String

pub record PersistenceConfig : Type 0 where
  pub type : String
  pub storage_class_name : String
  pub storage_request : String

pub record SyncConfig : Type 0 where
  pub priority_classes : Bool
  pub ingresses : Bool

pub record K3kParams : Type 0 where
  pub name : String
  pub namespace : String
  pub target_cluster : String
  pub version : String
  pub mode : String
  pub servers : ℤ
  pub agents : ℤ
  pub sync : SyncConfig
  pub server_limit : ResourceLimits
  pub worker_limit : ResourceLimits
  pub persistence : PersistenceConfig
  pub confirmation_token : Bytes

-- The object of a K3k cluster; `none`, or an empty map, where the spec has no such field. `sync`
-- lists what is enabled.
pub record K3kCluster : Type 0 where
  pub api_version : String
  pub kind : String
  pub name : String
  pub namespace : String
  pub version : Option String
  pub mode : Option String
  pub servers : Option ℤ
  pub agents : Option ℤ
  pub sync : List String
  pub server_limit : Dict String
  pub worker_limit : Dict String
  pub persistence : Dict String

-- What the handlers call besides the shared services.
pub record ClusterServices (Object : Type 0) : Type 0 where
  pub rancher_url : String
  pub releases : Releases
  -- the JSON of the cluster, read as an object
  pub custom_object : CustomCluster → Result Failure Object
  pub imported_object : ImportedCluster → Object
  -- the object as it is shown in a plan: kind, API version, namespace and name set
  pub shown : Object → String → String → String → String → Object
  pub k3k_object : K3kCluster → Object
  -- the POST to Rancher's API: URL and body; status and body of the answer
  pub post_answer : String → Bytes → Result Failure (ℕ × Bytes)
  pub unmarshal_object : Bytes → Result Failure Object
  -- `%s` of bytes
  pub show : Bytes → String
  -- the entries of `converter.K8sKindsToGVRs`
  pub provisioning_gvr : Gvr
  pub k3k_gvr : Gvr

abbrev pub drain_options : DrainOptions
drain_options = record {
  delete_empty_dir_data = true;
  grace_period = negsuc 0;
  ignore_daemon_sets = true;
  timeout = 120;
}

pub custom_cluster : CustomParams → String → CustomCluster
custom_cluster p version = record {
  kind = "Cluster";
  api_version = "provisioning.cattle.io/v1";
  name = p.name;
  namespace = fleet_default;
  annotations = ("field.cattle.io/description", p.description) ∷ [];
  kubernetes_version = version;
  snapshot_retention = 5;
  snapshot_schedule_cron = "0 */5 * * *";
  machine_global_config = ("cni", p.cni) ∷ [];
  control_plane_concurrency = "1";
  control_plane_drain_options = drain_options;
  worker_concurrency = "1";
  worker_drain_options = drain_options;
}

-- Entries of a map for the values that are not empty.
pub filled : List (String × String) → Dict String
filled [] = []
filled ((key, value) ∷ rest) =
    let others = filled rest in if str_eq value "" then others else (key, value) ∷ others

pub positive : ℤ → Option ℤ
positive n = if ltb_ℤ (pos 0) n then some n else none

pub enabled : List (String × Bool) → List String
enabled [] = []
enabled ((key, on) ∷ rest) = let others = enabled rest in if on then key ∷ others else others

pub limits : ResourceLimits → Dict String
unfolding filled
limits l = filled (("cpu", l.cpu) ∷ ("memory", l.memory) ∷ [])

-- `createK3kClusterObj`
pub create_k3k_cluster_obj : K3kParams → K3kCluster
unfolding text_set positive enabled limits filled
create_k3k_cluster_obj p = record {
  api_version = "k3k.io/v1beta1";
  kind = "Cluster";
  name = p.name;
  namespace = p.namespace;
  version = text_set p.version;
  mode = text_set p.mode;
  servers = positive p.servers;
  agents = positive p.agents;
  sync =
      enabled (("ingresses", p.sync.ingresses) ∷ ("priorityClasses", p.sync.priority_classes) ∷ []);
  server_limit = limits p.server_limit;
  worker_limit = limits p.worker_limit;
  persistence = filled (
      ("type", p.persistence.type)
      ∷ ("storageClassName", p.persistence.storage_class_name)
      ∷ ("storageRequest", p.persistence.storage_request)
      ∷ []);
}

pub is_setting : String → Bool
is_setting s = str_eq s "" || (str_eq s "true" || (str_eq s "false" || str_eq s "system-default"))

-- `createImportedClusterObj`
pub create_imported_cluster_obj : ImportedParams → Result Failure ImportedCluster
unfolding is_setting
create_imported_cluster_obj p =
    if not (is_setting p.version_management_setting)
    then err (invalid "VersionManagementSetting")
    else if str_eq p.name ""
    then err (invalid "name")
    else ok (record {
      annotations =
          (
            "rancher.io/imported-cluster-version-management",
            if str_eq p.version_management_setting ""
                then "system-default"
                else p.version_management_setting,
          )
          ∷ [];
      type = "cluster";
      name = p.name;
      description = p.description;
    })

supported : Option String → Result Failure String
supported none = err (invalid "version")
supported (some version) = ok version

-- `CreateCustomClusterObj`; `lower` is `strings.ToLower`
pub create_custom_cluster_obj :
    {Object : Type 0}
    → ClusterServices Object
    → (String → String)
    → CustomParams
    → Result Failure Object
unfolding supported custom_cluster
create_custom_cluster_obj x lower p = do
  refuse_unless (not (str_eq p.name "")) (invalid "name")
  refuse_unless (is_distribution p.distribution) (invalid "distribution")
  refuse_unless (supported_cni (lower p.cni)) (invalid "cni")
  found ← supported_kubernetes_version x.releases x.rancher_url p.distribution p.version
  version ← supported found.0
  x.custom_object (custom_cluster p version)
