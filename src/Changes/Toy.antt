-- ===== src/Changes/Toy.antt =====
-- A small cluster, whose objects are their names, and calls on it: data for the tests.
use rancher_ai_mcp.Prelude.{String, true, false, none, some, [], ◌∷◌, ok, if◌then◌else◌, str_eq}
use rancher_ai_mcp.Changes.Releases.{release}
use rancher_ai_mcp.Changes.Clusters.{CustomParams, ImportedParams, K3kParams, ClusterServices}
use rancher_ai_mcp.Prelude.Int.{pos}
use rancher_ai_mcp.Confirm.Toy.{toy, token, typed}
use rancher_ai_mcp.Changes.{Gvr, Services, Unstructured}
use rancher_ai_mcp.Changes.Resources.{DeleteParams, CreateParams, UpdateParams}
use rancher_ai_mcp.Changes.Exec.{ExecParams, ExecServices, exited}
use rancher_ai_mcp.Changes.NodePool.{NodePoolParams, NodePoolServices}
use rancher_ai_mcp.Changes.Projects.{CreateProjectParams, MoveNamespaceParams, ProjectServices}

abbrev pub pods : Gvr
pods = record { group = ""; version = "v1"; resource = "pods" }

abbrev pub metrics : Gvr
metrics = record { group = "metrics.k8s.io"; version = "v1beta1"; resource = "pods" }

abbrev pub services : Services String
services = record {
  codec = toy;
  elicit = typed;
  auto_write = true;
  enable_exec = true;
  random = some [];
  now = 1000000000;
  now' = 1000000000;
  resolve_gvr = λ cluster kind version.
      ok (if str_eq version "metrics.k8s.io/v1beta1" then metrics else pods);
  get_resource_interface = λ namespace cluster gvr. ok tt;
  get_cluster_id = λ cluster. ok cluster;
  get_object = λ namespace cluster gvr name. ok name;
  answer = λ change. ok "answer";
  marshal = λ obj. ok (1 ∷ []);
  sprintf = λ format args. format;
  to_lower = λ s. s;
  equal_fold = str_eq;
  create_response = λ objects cluster. ok "done";
  create_response_any = λ entries. ok "done";
  create_plan_response = λ plan. ok "plan";
}

abbrev pub objects : Unstructured String
objects = record {
  unmarshal = λ manifest. some manifest;
  group_version = λ o. "v1";
  version = λ o. "v1";
  kind = λ o. "pod";
  get_name = λ o. o;
  get_namespace = λ o. "ns";
  get_labels = λ o. [];
  set_labels = λ o labels. o;
  get_annotations = λ o. [];
  set_annotations = λ o annotations. o;
  display_name = λ o. none;
  container_names = λ o. some "app" ∷ [];
}

abbrev pub web : DeleteParams
web = record {
  name = "web";
  namespace = "ns";
  kind = "pod";
  api_version = "v1";
  cluster = "c1";
  confirmation_token = token;
}

abbrev pub patch_web : UpdateParams
patch_web = record {
  name = "web";
  namespace = "ns";
  kind = "pod";
  api_version = "v1";
  cluster = "c1";
  patch_bytes = 5 ∷ [];
  confirmation_token = [];
}

abbrev pub new_web : CreateParams
new_web = record {
  name = "web";
  namespace = "";
  kind = "pod";
  cluster = "c1";
  manifest = "web";
  confirmation_token = [];
}

abbrev pub ls : ExecParams
ls = record {
  cluster = "c1";
  namespace = "ns";
  name = "web";
  container = "";
  command = "ls" ∷ [];
  confirmation_token = token;
}

abbrev pub exec_services : ExecServices String
exec_services = record {
  create_rest_config = λ cluster. ok "host";
  path_escape = λ s. s;
  parse_url = λ url. ok url;
  new_executor = λ url query. ok tt;
  stream = λ change. record { stdout = (104 ∷ []) ∷ []; stderr = []; ended = exited };
  exec_response = λ result. ok "done";
  get_pod = λ p. ok "web";
  bytes = λ s. 1 ∷ [];
  join = λ separator args. separator;
}

abbrev pub pool_services : NodePoolServices
pool_services = record {
  get_provisioning_cluster = λ namespace name. ok (record {
    name = name;
    machine_pools =
        some (record { name = "workers"; etcd_role = false; quantity = some (pos 2) } ∷ []);
  });
  marshal_patch = λ scaled. ok (9 ∷ []);
  show = λ payload. "patch";
  cluster_gvr = record { group = "provisioning.cattle.io"; version = "v1"; resource = "clusters" };
}

abbrev pub five_workers : NodePoolParams
five_workers = record {
  cluster = "c1";
  namespace = "default";
  sizes = record {
    node_pool_name = "workers";
    desired_size = pos 5;
    amount_to_add = pos 0;
    amount_to_subtract = pos 0;
  };
  confirmation_token = [];
}

abbrev pub project_services : ProjectServices String
project_services = record {
  get_resource = λ cluster kind namespace name. ok name;
  get_resources = λ cluster kind namespace. ok [];
  project_object = λ project. project.name;
  marshal_map = λ entries. ok (8 ∷ []);
  sprintf_int = λ format n. format;
  show = λ payload. "project";
  project_gvr = record { group = "management.cattle.io"; version = "v3"; resource = "projects" };
  namespace_gvr = record { group = ""; version = "v1"; resource = "namespaces" };
}

abbrev pub new_project : CreateProjectParams
new_project = record {
  cluster = "c1";
  name = "team";
  description = "";
  display_name = "Team";
  cpu_limit = pos 500;
  cpu_reservation = pos 0;
  memory_limit = pos 0;
  memory_reservation = pos 0;
  confirmation_token = [];
}

abbrev pub move_ns : MoveNamespaceParams
move_ns = record { namespace = "ns"; project = "team"; cluster = "c1"; confirmation_token = [] }

abbrev pub cluster_services : ClusterServices String
cluster_services = record {
  rancher_url = "https://rancher";
  releases = λ url. ok (some (release "v1.33.2+rke2r1" ∷ release "v1.33.2+rke2r3" ∷ []));
  custom_object = λ cluster. ok cluster.kubernetes_version;
  imported_object = λ cluster. cluster.name;
  shown = λ object kind version namespace name. object;
  k3k_object = λ cluster. cluster.name;
  post_answer = λ url body. ok (201, body);
  unmarshal_object = λ body. ok "imported";
  show = λ payload. "cluster";
  provisioning_gvr = record {
    group = "provisioning.cattle.io";
    version = "v1";
    resource = "clusters";
  };
  k3k_gvr = record { group = "k3k.io"; version = "v1beta1"; resource = "clusters" };
}

abbrev pub custom : CustomParams
custom = record {
  name = "edge";
  description = "";
  cni = "calico";
  version = "v1.33.2";
  distribution = "rke2";
  confirmation_token = [];
}

abbrev pub imported : ImportedParams
imported = record {
  name = "legacy";
  description = "";
  version_management_setting = "";
  confirmation_token = [];
}

abbrev pub k3k : K3kParams
k3k = record {
  name = "virtual";
  namespace = "ns";
  target_cluster = "c1";
  version = "";
  mode = "shared";
  servers = pos 1;
  agents = pos 0;
  sync = record { priority_classes = false; ingresses = true };
  server_limit = record { cpu = "1"; memory = "" };
  worker_limit = record { cpu = ""; memory = "" };
  persistence = record { type = ""; storage_class_name = ""; storage_request = "" };
  confirmation_token = [];
}
