-- ===== src/Merged/Tests.antt =====
-- The change tools over a small cluster.
use rancher_ai_mcp.Prelude.{String, ◌≡◌, refl, false, Option, none, some, [], ok}
use rancher_ai_mcp.Prelude.Int.{pos}
use rancher_ai_mcp.Prelude.Dict
use rancher_ai_mcp.Confirm.Toy.{gate, token}
use rancher_ai_mcp.Dispatch.{merge_maps}
use rancher_ai_mcp.Changes.Rules.{GatedAt}
use rancher_ai_mcp.Changes.Toy.{
  services, objects, exec_services, project_services, pool_services, cluster_services, k3k,
}
use rancher_ai_mcp.Merged.{ChangeParams, Tools}
use rancher_ai_mcp.Merged.Cases.{CaseMaps, build_case_maps, call_change_tool}
use rancher_ai_mcp.Merged.Cases.Safety.{IsExecuted, call_change_tool-Gated}

abbrev tools : Tools String
tools = record {
  s = services;
  u = objects;
  exec = exec_services;
  projects = project_services;
  pools = pool_services;
  clusters = cluster_services;
  codec = record { trim_space = λ b. b; decode_string = λ b. some b; decode_patches = λ b. some b };
  show = λ b. "patch";
  apply = λ patches original. ok original;
}

abbrev delete_web : ChangeParams
delete_web = record {
  operation = "deleteKubernetesResource";
  cluster = "c1";
  namespace = "ns";
  name = "web";
  description = "";
  confirmation_token = token;
  kind = "pod";
  api_version = "v1";
  manifest = "";
  patch = [];
  cni = "";
  version = "";
  distribution = "";
  version_management_setting = "";
  target_cluster = "";
  mode = "";
  servers = pos 0;
  agents = pos 0;
  sync = k3k.sync;
  persistence = k3k.persistence;
  server_limit = k3k.server_limit;
  worker_limit = k3k.worker_limit;
  display_name = "";
  cpu_limit = pos 0;
  cpu_reservation = pos 0;
  memory_limit = pos 0;
  memory_reservation = pos 0;
  project = "";
  node_pool_name = "";
  desired_size = pos 0;
  amount_to_add = pos 0;
  amount_to_subtract = pos 0;
  container = "";
  command = none;
}

or_empty : Option (CaseMaps String) → CaseMaps String
or_empty none = record { plan = []; execute = [] }
or_empty (some m) = m

maps : CaseMaps String
unfolding or_empty
maps = or_empty (build_case_maps tools)

-- The tables have no operation twice: building them does not panic.
built : build_case_maps tools ≡ some maps
unfolding maps build_case_maps merge_maps Dict.get Dict.put Dict.remove
built = refl

call_change_tool-Gated_example :
    GatedAt
      (IsExecuted tools false "executeChange" delete_web)
      (call_change_tool tools (λ keys. keys) maps false "executeChange" delete_web)
      gate
call_change_tool-Gated_example =
    call_change_tool-Gated tools (λ keys. keys) maps false "executeChange" delete_web built gate
