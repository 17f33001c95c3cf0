-- ===== src/Merged.antt =====
-- The merged tools planChange and executeChange: pkg/toolsets/dispatch/params.go (ChangeParams),
-- the tables of pkg/toolsets/core/merged_change_cases.go, pkg/toolsets/core/projects/merged_cases.go
-- and pkg/toolsets/provisioning/merged_cases.go, and pkg/toolsets/merged/tools.go.
pub mod Cases
mod Tests
use rancher_ai_mcp.Prelude.{
  ℕ, ◌-◌, ◌==◌, String, Bool, true, false, not, ◌&&◌, ◌||◌, Option, none, some, List, [], ◌∷◌,
  Result, ok, err, ◌>>=◌, if◌then◌else◌, str_eq, is_empty, length, take, drop, leb, get_elem?,
}
use rancher_ai_mcp.Prelude.Int.{ℤ, pos, eqb_ℤ}
use rancher_ai_mcp.Prelude.Dict.{Dict}
use rancher_ai_mcp.Confirm.{Bytes}
use rancher_ai_mcp.Changes.{Failure, unexpected_response, Services, Unstructured}
use rancher_ai_mcp.Changes.Resources.{CreateParams, UpdateParams, DeleteParams}
use rancher_ai_mcp.Changes.Exec.{ExecParams, ExecServices}
use rancher_ai_mcp.Changes.Projects.{CreateProjectParams, MoveNamespaceParams, ProjectServices}
use rancher_ai_mcp.Changes.NodePool.{NodePoolParams, NodePoolServices}
use rancher_ai_mcp.Changes.Clusters.{
  CustomParams, ImportedParams, K3kParams, ResourceLimits, PersistenceConfig, SyncConfig,
  ClusterServices,
}

-- `ChangeParams`. The raw patch is empty where it is missing, and the command `none`.
pub record ChangeParams : Type 0 where
  pub operation : String
  pub cluster : String
  pub namespace : String
  pub name : String
  pub description : String
  pub confirmation_token : Bytes
  pub kind : String
  pub api_version : String
  pub manifest : String
  pub patch : Bytes
  pub cni : String
  pub version : String
  pub distribution : String
  pub version_management_setting : String
  pub target_cluster : String
  pub mode : String
  pub servers : ℤ
  pub agents : ℤ
  pub sync : SyncConfig
  pub persistence : PersistenceConfig
  pub server_limit : ResourceLimits
  pub worker_limit : ResourceLimits
  pub display_name : String
  pub cpu_limit : ℤ
  pub cpu_reservation : ℤ
  pub memory_limit : ℤ
  pub memory_reservation : ℤ
  pub project : String
  pub node_pool_name : String
  pub desired_size : ℤ
  pub amount_to_add : ℤ
  pub amount_to_subtract : ℤ
  pub container : String
  pub command : Option (List String)

-- `encoding/json` on patches: a JSON string's text, and a JSON array of patches, marshalled again.
pub record PatchCodec : Type 0 where
  pub trim_space : Bytes → Bytes
  pub decode_string : Bytes → Option Bytes
  pub decode_patches : Bytes → Option Bytes

-- What the handlers of all operations call.
pub record Tools (Object : Type 0) : Type 0 where
  pub s : Services Object
  pub u : Unstructured Object
  pub exec : ExecServices Object
  pub projects : ProjectServices Object
  pub pools : NodePoolServices
  pub clusters : ClusterServices Object
  pub codec : PatchCodec
  -- `%s` of bytes, and the patch applied to the marshalled original
  pub show : Bytes → String
  pub apply : Bytes → Bytes → Result Failure Bytes

no_text : String → Bool
no_text s = str_eq s ""

no_number : ℤ → Bool
no_number n = eqb_ℤ n (pos 0)

no_command : Option (List String) → Bool
no_command none = true
no_command (some command) = false

-- The JSON names of the fields, each with whether `IsZero` holds of its value.
pub change_fields : ChangeParams → Dict Bool
unfolding no_text no_number no_command
change_fields p =
    ("operation", no_text p.operation)
    ∷ ("cluster", no_text p.cluster)
    ∷ ("namespace", no_text p.namespace)
    ∷ ("name", no_text p.name)
    ∷ ("description", no_text p.description)
    ∷ ("confirmationToken", is_empty p.confirmation_token)
    ∷ ("kind", no_text p.kind)
    ∷ ("apiVersion", no_text p.api_version)
    ∷ ("manifest", no_text p.manifest)
    ∷ ("patch", is_empty p.patch)
    ∷ ("CNI", no_text p.cni)
    ∷ ("version", no_text p.version)
    ∷ ("distribution", no_text p.distribution)
    ∷ ("VersionManagementSetting", no_text p.version_management_setting)
    ∷ ("targetCluster", no_text p.target_cluster)
    ∷ ("mode", no_text p.mode)
    ∷ ("servers", no_number p.servers)
    ∷ ("agents", no_number p.agents)
    ∷ ("sync", not p.sync.priority_classes && not p.sync.ingresses)
    ∷ (
      "persistence",
      no_text p.persistence.type
          && no_text p.persistence.storage_class_name
          && no_text p.persistence.storage_request,
    )
    ∷ ("serverLimit", no_text p.server_limit.cpu && no_text p.server_limit.memory)
    ∷ ("workerLimit", no_text p.worker_limit.cpu && no_text p.worker_limit.memory)
    ∷ ("displayName", no_text p.display_name)
    ∷ ("cpuLimit", no_number p.cpu_limit)
    ∷ ("cpuReservation", no_number p.cpu_reservation)
    ∷ ("memoryLimit", no_number p.memory_limit)
    ∷ ("memoryReservation", no_number p.memory_reservation)
    ∷ ("project", no_text p.project)
    ∷ ("nodePoolName", no_text p.node_pool_name)
    ∷ ("desiredSize", no_number p.desired_size)
    ∷ ("amountToAdd", no_number p.amount_to_add)
    ∷ ("amountToSubtract", no_number p.amount_to_subtract)
    ∷ ("container", no_text p.container)
    ∷ ("command", no_command p.command)
    ∷ []

-- A pair of single quotes around the text is stripped.
single_quoted : Bytes → Bool
single_quoted text = elim (get_elem? text 0) [
  | none ↦ false
  | some first ↦ elim (get_elem? text (length text - 1)) [
    | none ↦ false
    | some last ↦ leb 2 (length text) && (first == 39 && last == 39)
  ]
]

inner : Bytes → Bytes
inner text = take (length text - 2) (drop 1 text)

module _ (codec : PatchCodec) where
  stripped : Bytes → Bytes
  unfolding single_quoted inner
  stripped text = if single_quoted text then codec.trim_space (inner text) else text

  in_string : Option Bytes → Result Failure Bytes
  unfolding stripped
  in_string none = err (unexpected_response "patch string")
  in_string (some text) = ok (stripped (codec.trim_space text))

  -- The text of the patches: what a JSON string holds, or the JSON itself.
  pub unwrapped : Bytes → Result Failure Bytes
  unfolding in_string
  unwrapped [] = ok []
  unwrapped (b ∷ rest) =
      if b == 34 then in_string (codec.decode_string (b ∷ rest)) else ok (b ∷ rest)

  decoded : Option Bytes → Result Failure Bytes
  decoded none = err (unexpected_response "patch array")
  decoded (some patches) = ok patches

  -- `patchList`, by `jsonPatchList.UnmarshalJSON`
  pub patch_list : Bytes → Result Failure Bytes
  unfolding unwrapped decoded
  patch_list raw = do text ← unwrapped (codec.trim_space raw); decoded (codec.decode_patches text)

pub create_params : ChangeParams → CreateParams
create_params p = record {
  name = p.name;
  namespace = p.namespace;
  kind = p.kind;
  cluster = p.cluster;
  manifest = p.manifest;
  confirmation_token = p.confirmation_token;
}

pub update_params : ChangeParams → Bytes → UpdateParams
update_params p patches = record {
  name = p.name;
  namespace = p.namespace;
  kind = p.kind;
  api_version = p.api_version;
  cluster = p.cluster;
  patch_bytes = patches;
  confirmation_token = p.confirmation_token;
}

pub delete_params : ChangeParams → DeleteParams
delete_params p = record {
  name = p.name;
  namespace = p.namespace;
  kind = p.kind;
  api_version = p.api_version;
  cluster = p.cluster;
  confirmation_token = p.confirmation_token;
}

given_command : Option (List String) → List String
given_command none = []
given_command (some command) = command

pub exec_params : ChangeParams → ExecParams
unfolding given_command
exec_params p = record {
  cluster = p.cluster;
  namespace = p.namespace;
  name = p.name;
  container = p.container;
  command = given_command p.command;
  confirmation_token = p.confirmation_token;
}

-- `changeParams` of pkg/toolsets/core/projects
pub project_params : ChangeParams → CreateProjectParams
project_params p = record {
  cluster = p.cluster;
  name = p.name;
  description = p.description;
  display_name = p.display_name;
  cpu_limit = p.cpu_limit;
  cpu_reservation = p.cpu_reservation;
  memory_limit = p.memory_limit;
  memory_reservation = p.memory_reservation;
  confirmation_token = p.confirmation_token;
}

pub move_ns_params : ChangeParams → MoveNamespaceParams
move_ns_params p = record {
  cluster = p.cluster;
  namespace = p.namespace;
  project = p.project;
  confirmation_token = p.confirmation_token;
}

pub custom_cluster_params : ChangeParams → CustomParams
custom_cluster_params p = record {
  name = p.name;
  description = p.description;
  cni = p.cni;
  version = p.version;
  distribution = p.distribution;
  confirmation_token = p.confirmation_token;
}

pub imported_cluster_params : ChangeParams → ImportedParams
imported_cluster_params p = record {
  name = p.name;
  description = p.description;
  version_management_setting = p.version_management_setting;
  confirmation_token = p.confirmation_token;
}

pub k3k_cluster_params : ChangeParams → K3kParams
k3k_cluster_params p = record {
  name = p.name;
  namespace = p.namespace;
  target_cluster = p.target_cluster;
  version = p.version;
  mode = p.mode;
  servers = p.servers;
  agents = p.agents;
  sync = p.sync;
  server_limit = p.server_limit;
  worker_limit = p.worker_limit;
  persistence = p.persistence;
  confirmation_token = p.confirmation_token;
}

pub scale_params : ChangeParams → NodePoolParams
scale_params p = record {
  cluster = p.cluster;
  namespace = p.namespace;
  sizes = record {
    node_pool_name = p.node_pool_name;
    desired_size = p.desired_size;
    amount_to_add = p.amount_to_add;
    amount_to_subtract = p.amount_to_subtract;
  };
  confirmation_token = p.confirmation_token;
}
