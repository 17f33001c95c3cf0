-- ===== src/Usage/Sums/Tests.antt =====
-- The sample of a small namespace, with integers as quantities.
use rancher_ai_mcp.Prelude.{◌≡◌, refl, String, [], ◌∷◌, ok, if◌then◌else◌, str_eq, arith}
use rancher_ai_mcp.Prelude.Dict
use rancher_ai_mcp.Prelude.Dict.{Dict}
use rancher_ai_mcp.Prelude.Int.{ℤ, pos, negsuc, ◌+ℤ◌, ◌-ℤ◌, leb_ℤ}
use rancher_ai_mcp.Usage.{
  Quantities, Container, Pod, Sample, UsageServices, new_sample, metrics_by_pod, metrics_listed,
  get_namespace_resource_usage,
}
use rancher_ai_mcp.Usage.Sums.{metrics_at, metrics_of, if_running, running_pods}
use rancher_ai_mcp.Usage.Sums.Totals.{IsTotal}
use rancher_ai_mcp.Usage.Sums.Namespace.{get_namespace_resource_usage-IsTotal}

abbrev integers : Quantities ℤ
integers = record {
  decimal_zero = pos 0;
  binary_zero = pos 0;
  add = λ a b. a +ℤ b;
  cmp = λ a b. a -ℤ b;
}

cmp_amount : (a b : ℤ) → leb_ℤ (pos 0) (a -ℤ b) ≡ leb_ℤ b a
cmp_amount (pos a) (pos b) = ground arith
cmp_amount (pos a) (negsuc b) = ground arith
cmp_amount (negsuc a) (pos b) = ground arith
cmp_amount (negsuc a) (negsuc b) = ground arith

abbrev asks : ℤ → Container ℤ
asks amount = record { requests = ("cpu", amount) ∷ []; limits = [] }

-- Two containers, and an init container that asks more than both.
abbrev web : Pod ℤ
web = record {
  name = "web";
  phase = "Running";
  containers = asks (pos 100) ∷ asks (pos 200) ∷ [];
  init_containers = asks (pos 500) ∷ [];
}

abbrev job : Pod ℤ
job = record {
  name = "job";
  phase = "Succeeded";
  containers = asks (pos 900) ∷ [];
  init_containers = [];
}

abbrev db : Pod ℤ
db = record {
  name = "db";
  phase = "Running";
  containers = asks (pos 300) ∷ [];
  init_containers = asks (pos 50) ∷ [];
}

abbrev services : UsageServices String ℤ
services = record {
  get_cluster_id = λ cluster. ok cluster;
  get_namespace = λ cluster name. ok name;
  get_project = λ cluster name. ok name;
  list_projects = λ cluster. ok [];
  project_label = λ name. ok name;
  list_namespaces = λ cluster label. ok [];
  list_pods = λ cluster namespace. ok ("web" ∷ "job" ∷ "db" ∷ []);
  list_metrics = λ cluster namespace. ok ("web" ∷ []);
  get_name = λ object. object;
  display_name = λ object. ok object;
  to_pod = λ object.
      if str_eq object "web" then ok web else if str_eq object "job" then ok job else ok db;
  to_metrics = λ object. ok ((("cpu", pos 70) ∷ []) ∷ []);
}

get_namespace_resource_usage-IsTotal_example :
    (totals : Sample ℤ) × (get_namespace_resource_usage integers services "c-1" "default"
      ≡ ok totals)
    × IsTotal integers services
        (λ a. a)
        (metrics_by_pod integers services [] (metrics_listed integers services (ok ("web" ∷ []))))
        (new_sample integers services)
        totals
        (web ∷ db ∷ [])
unfolding running_pods if_running metrics_of metrics_at metrics_by_pod metrics_listed Dict.get
    Dict.put Dict.remove
get_namespace_resource_usage-IsTotal_example =
    get_namespace_resource_usage-IsTotal integers services (λ a. a)
      (record { decimal = refl; binary = refl; add = λ a b. refl; cmp = cmp_amount }) "c-1"
      "default" ("web" ∷ "job" ∷ "db" ∷ []) (web ∷ db ∷ []) refl refl
      (((("cpu", pos 70) ∷ []) ∷ [], refl), (([], refl), tt))

-- 500 for the init container of one pod, 300 for the container of the other.
sampled :
    get_namespace_resource_usage integers services "c-1" "default"
    ≡ ok (record (new_sample integers services) {
      cpu_requests = pos 800;
      cpu_usage = pos 70;
      pod_count = 2;
    })
unfolding get_namespace_resource_usage new_sample metrics_by_pod metrics_listed Dict.get Dict.put
    Dict.remove
sampled = refl
