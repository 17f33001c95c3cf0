-- ===== src/Usage/Projects.antt =====
-- The usage of the namespaces of a project, and the whole of getResourceUsage
-- (pkg/toolsets/core/projects/get_project_resource_usage.go).
use rancher_ai_mcp.Prelude.{
  ◌+◌, String, not, List, [], ◌∷◌, Result, ok, ◌>>=◌, if◌then◌else◌, str_eq,
}
use rancher_ai_mcp.Prelude.Dict
use rancher_ai_mcp.Prelude.Dict.{Dict}
use rancher_ai_mcp.Usage.{
  UsageError, Quantities, Sample, UsageServices, new_sample, get_namespace_resource_usage,
}

pub record ProjectUsage (Quantity : Type 0) : Type 0 where
  pub name : String
  pub display_name : String
  pub totals : Sample Quantity
  -- `byNs`; the answer lists it in no particular order
  pub namespaces : Dict (Sample Quantity)

pub data Usage (Quantity : Type 0) : Type 0 where
  of_namespace : String → String → Sample Quantity → Usage Quantity
  of_projects : String → List (ProjectUsage Quantity) → Usage Quantity

module _ {Object Quantity : Type 0} (q : Quantities Quantity)
    (s : UsageServices Object Quantity) where
  pub add_sample : Sample Quantity → Sample Quantity → Sample Quantity
  add_sample totals n = record {
    cpu_requests = q.add totals.cpu_requests n.cpu_requests;
    cpu_limits = q.add totals.cpu_limits n.cpu_limits;
    memory_requests = q.add totals.memory_requests n.memory_requests;
    memory_limits = q.add totals.memory_limits n.memory_limits;
    cpu_usage = q.add totals.cpu_usage n.cpu_usage;
    memory_usage = q.add totals.memory_usage n.memory_usage;
    pod_count = totals.pod_count + n.pod_count;
  }

  -- The loop over the namespaces of a project: its totals, and the sample of each.
  pub add_namespaces :
      String
      → Sample Quantity
      → Dict (Sample Quantity)
      → List Object
      → Result UsageError (Sample Quantity × Dict (Sample Quantity))
  unfolding add_sample get_namespace_resource_usage
  add_namespaces cluster_id totals by_ns [] = ok (totals, by_ns)
  add_namespaces cluster_id totals by_ns (ns ∷ rest) = do
    n ← get_namespace_resource_usage q s cluster_id (s.get_name ns)
    add_namespaces cluster_id (add_sample totals n) (Dict.put (s.get_name ns) n by_ns) rest

  pub project_usage : String → Object → Result UsageError (ProjectUsage Quantity)
  unfolding add_namespaces new_sample
  project_usage cluster_id project = do
    display_name ← s.display_name project
    label ← s.project_label (s.get_name project)
    namespaces ← s.list_namespaces cluster_id label
    summed ← add_namespaces cluster_id (new_sample q s) [] namespaces
    ok (record {
      name = s.get_name project;
      display_name = display_name;
      totals = summed.0;
      namespaces = summed.1;
    })

  pub project_usages : String → List Object → Result UsageError (List (ProjectUsage Quantity))
  unfolding project_usage
  project_usages cluster_id [] = ok []
  project_usages cluster_id (project ∷ projects) = do
    usage ← project_usage cluster_id project
    rest ← project_usages cluster_id projects
    ok (usage ∷ rest)

  pub namespace_usage : String → String → Result UsageError (Usage Quantity)
  unfolding get_namespace_resource_usage
  namespace_usage cluster_id namespace = do
    ns ← s.get_namespace cluster_id namespace
    n ← get_namespace_resource_usage q s cluster_id (s.get_name ns)
    ok (of_namespace cluster_id namespace n)

  -- The project of the call, or all projects of the cluster.
  pub projects_of : String → String → Result UsageError (List Object)
  projects_of cluster_id project =
      if not (str_eq project "")
      then (s.get_project cluster_id project >>= (λ found. ok (found ∷ [])))
      else s.list_projects cluster_id

  pub projects_usage : String → String → Result UsageError (Usage Quantity)
  unfolding projects_of project_usages
  projects_usage cluster_id project = do
    projects ← projects_of cluster_id project
    usages ← project_usages cluster_id projects
    ok (of_projects cluster_id usages)

  -- `getResourceUsage`, on the cluster, the project and the namespace of the call.
  pub get_resource_usage : String → String → String → Result UsageError (Usage Quantity)
  unfolding namespace_usage projects_usage
  get_resource_usage cluster project namespace = do
    cluster_id ← s.get_cluster_id cluster
    if not (str_eq namespace "")
        then namespace_usage cluster_id namespace
        else projects_usage cluster_id project
