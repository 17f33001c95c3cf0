-- ===== src/Changes/Clusters/Described.antt =====
-- What the cluster objects of the creation handlers say, field by field, of the parameters.
use rancher_ai_mcp.Prelude.{
  String, ◌≡◌, ◌≢◌, refl, sym, ◌⊎◌, true, Bool-cases, inl, inr, not, Option, none, some, [], ◌∷◌,
  ok, ok_injective, refuse_if-inv, str_eq, str_ne, eq_iff, if◌then◌else◌, any, arith,
}
use rancher_ai_mcp.Prelude.Int.{pos, negsuc, ltb_ℤ}
use rancher_ai_mcp.Prelude.Dict
use rancher_ai_mcp.Prelude.Dict.{Dict}
use rancher_ai_mcp.Changes.{invalid}
use rancher_ai_mcp.Changes.Projects.{text_set}
use rancher_ai_mcp.Changes.Clusters.{
  CustomParams, CustomCluster, DrainOptions, ImportedParams, ImportedCluster, K3kParams, K3kCluster,
  ResourceLimits, custom_cluster, filled, positive, enabled, limits, create_k3k_cluster_obj,
  is_setting, create_imported_cluster_obj,
}

-- How nodes are drained before an upgrade.
pub record IsDrain (options : DrainOptions) : Type 0 where
  pub delete_empty_dir_data : options.delete_empty_dir_data ≡ true
  pub grace_period : options.grace_period ≡ negsuc 0
  pub ignore_daemon_sets : options.ignore_daemon_sets ≡ true
  pub timeout : options.timeout ≡ 120

-- A custom cluster of the parameters at a version, with the settings that every one has.
pub record IsCustomOf (p : CustomParams) (version : String) (cluster : CustomCluster) : Type 0 where
  pub kind : cluster.kind ≡ "Cluster"
  pub api_version : cluster.api_version ≡ "provisioning.cattle.io/v1"
  pub name : cluster.name ≡ p.name
  pub namespace : cluster.namespace ≡ "fleet-default"
  pub annotations : cluster.annotations ≡ ("field.cattle.io/description", p.description) ∷ []
  pub kubernetes_version : cluster.kubernetes_version ≡ version
  pub cni : cluster.machine_global_config ≡ ("cni", p.cni) ∷ []
  pub snapshot_retention : cluster.snapshot_retention ≡ 5
  pub snapshot_schedule_cron : cluster.snapshot_schedule_cron ≡ "0 */5 * * *"
  pub control_plane_concurrency : cluster.control_plane_concurrency ≡ "1"
  pub control_plane_drain : IsDrain cluster.control_plane_drain_options
  pub worker_concurrency : cluster.worker_concurrency ≡ "1"
  pub worker_drain : IsDrain cluster.worker_drain_options

pub custom_cluster-IsCustomOf :
    (p : CustomParams) (version : String) → IsCustomOf p version (custom_cluster p version)
unfolding custom_cluster
custom_cluster-IsCustomOf p version = record {
  kind = refl;
  api_version = refl;
  name = refl;
  namespace = refl;
  annotations = refl;
  kubernetes_version = refl;
  cni = refl;
  snapshot_retention = refl;
  snapshot_schedule_cron = refl;
  control_plane_concurrency = refl;
  control_plane_drain = record {
    delete_empty_dir_data = refl;
    grace_period = refl;
    ignore_daemon_sets = refl;
    timeout = refl;
  };
  worker_concurrency = refl;
  worker_drain = record {
    delete_empty_dir_data = refl;
    grace_period = refl;
    ignore_daemon_sets = refl;
    timeout = refl;
  };
}

-- An imported cluster of the parameters, which are complete and have a valid setting.
pub record IsImportOf (p : ImportedParams) (cluster : ImportedCluster) : Type 0 where
  pub named : p.name ≢ ""
  pub valid :
      (p.version_management_setting ≡ "")
      ⊎ ((p.version_management_setting ≡ "true")
          ⊎ ((p.version_management_setting ≡ "false")
              ⊎ (p.version_management_setting ≡ "system-default")))
  pub type : cluster.type ≡ "cluster"
  pub name : cluster.name ≡ p.name
  pub description : cluster.description ≡ p.description
  pub annotations :
      cluster.annotations
      ≡ (
        "rancher.io/imported-cluster-version-management",
        if str_eq p.version_management_setting ""
            then "system-default"
            else p.version_management_setting,
      )
        ∷ []

is_setting-valid :
    (setting : String)
    → is_setting setting ≡ true
    → (setting ≡ "") ⊎ ((setting ≡ "true") ⊎ ((setting ≡ "false") ⊎ (setting ≡ "system-default")))
unfolding is_setting
is_setting-valid setting h = elim (Bool-cases (str_eq setting "")) [
  | inl e ↦ inl ((eq_iff setting "").0 e)
  | inr e ↦ elim (Bool-cases (str_eq setting "true")) [
    | inl f ↦ inr (inl ((eq_iff setting "true").0 f))
    | inr f ↦ elim (Bool-cases (str_eq setting "false")) [
      | inl i ↦ inr (inr (inl ((eq_iff setting "false").0 i)))
      | inr i ↦ inr (inr (inr ((eq_iff setting "system-default").0 (ground (arith, h, e, f, i)))))
    ]
  ]
]

pub create_imported_cluster_obj-IsImportOf :
    (p : ImportedParams) (cluster : ImportedCluster)
    → create_imported_cluster_obj p ≡ ok cluster
    → IsImportOf p cluster
unfolding create_imported_cluster_obj
create_imported_cluster_obj-IsImportOf p cluster h =
    let (valid, h1) =
      refuse_if-inv (not (is_setting p.version_management_setting))
        (invalid "VersionManagementSetting") _ cluster h in
    let (named, h2) = refuse_if-inv (str_eq p.name "") (invalid "name") _ cluster h1 in
    rw (sym (ok_injective h2)) (record {
      named = str_ne p.name "" named;
      valid = is_setting-valid p.version_management_setting (ground (arith, valid));
      type = refl;
      name = refl;
      description = refl;
      annotations = refl;
    })

-- The value, where it is not empty.
abbrev pub given : String → Option String
given s = if str_eq s "" then none else some s

-- Limits of a node that are given.
pub record IsLimitsOf (l : ResourceLimits) (entries : Dict String) : Type 0 where
  pub cpu : Dict.get entries "cpu" ≡ given l.cpu
  pub memory : Dict.get entries "memory" ≡ given l.memory

-- A K3k cluster of the parameters: each setting is there exactly where it is given.
pub record IsK3kOf (p : K3kParams) (cluster : K3kCluster) : Type 0 where
  pub api_version : cluster.api_version ≡ "k3k.io/v1beta1"
  pub kind : cluster.kind ≡ "Cluster"
  pub name : cluster.name ≡ p.name
  pub namespace : cluster.namespace ≡ p.namespace
  pub version : cluster.version ≡ given p.version
  pub mode : cluster.mode ≡ given p.mode
  pub servers : cluster.servers ≡ (if ltb_ℤ (pos 0) p.servers then some p.servers else none)
  pub agents : cluster.agents ≡ (if ltb_ℤ (pos 0) p.agents then some p.agents else none)
  pub ingresses : any (str_eq "ingresses") cluster.sync ≡ p.sync.ingresses
  pub priority_classes : any (str_eq "priorityClasses") cluster.sync ≡ p.sync.priority_classes
  pub server_limit : IsLimitsOf p.server_limit cluster.server_limit
  pub worker_limit : IsLimitsOf p.worker_limit cluster.worker_limit
  pub persistence_type : Dict.get cluster.persistence "type" ≡ given p.persistence.type
  pub storage_class_name :
      Dict.get cluster.persistence "storageClassName" ≡ given p.persistence.storage_class_name
  pub storage_request :
      Dict.get cluster.persistence "storageRequest" ≡ given p.persistence.storage_request

limits-IsLimitsOf : (l : ResourceLimits) → IsLimitsOf l (limits l)
unfolding limits filled Dict.get
limits-IsLimitsOf l = record { cpu = ground arith; memory = ground arith }

pub create_k3k_cluster_obj-IsK3kOf : (p : K3kParams) → IsK3kOf p (create_k3k_cluster_obj p)
unfolding create_k3k_cluster_obj text_set positive enabled filled Dict.get
create_k3k_cluster_obj-IsK3kOf p = record {
  api_version = refl;
  kind = refl;
  name = refl;
  namespace = refl;
  version = refl;
  mode = refl;
  servers = refl;
  agents = refl;
  ingresses = ground arith;
  priority_classes = ground arith;
  server_limit = limits-IsLimitsOf p.server_limit;
  worker_limit = limits-IsLimitsOf p.worker_limit;
  persistence_type = ground arith;
  storage_class_name = ground arith;
  storage_request = ground arith;
}
