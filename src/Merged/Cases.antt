-- ===== src/Merged/Cases.antt =====
-- The tables of planChange and executeChange, their union, and the registration of the tools.
use rancher_ai_mcp.Prelude.{
  String, Bool, true, false, Option, none, some, List, [], ◌∷◌, Result, ok, err, if◌then◌else◌,
  str_eq,
}
use rancher_ai_mcp.Prelude.Dict.{Dict}
pub mod Plans
pub mod Executes
pub mod Safety
use rancher_ai_mcp.Dispatch.{DispatchError, Case, merge_maps, dispatch}
use rancher_ai_mcp.Changes.{
  Failure, dispatch_error, unknown_tool, Reply, Services, Act, ◌>>=◌, lift,
}
use rancher_ai_mcp.Changes.Resources.{
  delete_kubernetes_resource, delete_kubernetes_resource_plan, update_kubernetes_resource,
  update_kubernetes_resource_plan, create_kubernetes_resource, create_kubernetes_resource_plan,
}
use rancher_ai_mcp.Changes.Exec.{exec_pod, exec_pod_plan, exec_gated}
use rancher_ai_mcp.Changes.Projects.{
  create_project, create_project_plan, move_namespace, move_namespace_plan,
}
use rancher_ai_mcp.Changes.NodePool.{scale_cluster_node_pool, scale_cluster_node_pool_plan}
use rancher_ai_mcp.Changes.Clusters.Create.{
  create_custom_cluster, create_custom_cluster_plan, create_imported_cluster,
  create_imported_cluster_plan, create_k3k_cluster, create_k3k_cluster_plan,
}
use rancher_ai_mcp.Merged.{
  ChangeParams, Tools, change_fields, patch_list, create_params, update_params, delete_params,
  exec_params, project_params, move_ns_params, custom_cluster_params, imported_cluster_params,
  k3k_cluster_params, scale_params,
}

abbrev pub Handler : Type 0 → Type 0
Handler Object = ChangeParams → Act Object (Reply Object)

abbrev pub Table : Type 0 → Type 0
Table Object = Dict (Case (Handler Object))

pub record CaseMaps (Object : Type 0) : Type 0 where
  pub plan : Table Object
  pub execute : Table Object

abbrev pub case_of : {Object : Type 0} → List String → Handler Object → Case (Handler Object)
case_of required handler = record { required = required; handler = handler }

module _ {Object : Type 0} (t : Tools Object) where
  pub patch_plan : Handler Object
  unfolding ◌>>=◌ lift patch_list update_params
  patch_plan p = do
    patches ← lift (patch_list t.codec p.patch)
    update_kubernetes_resource_plan t.s t.apply (update_params p patches)

  pub patch_execute : Handler Object
  unfolding ◌>>=◌ lift patch_list update_params
  patch_execute p = do
    patches ← lift (patch_list t.codec p.patch)
    update_kubernetes_resource t.s t.show (update_params p patches)

  pub core_plan_cases : Table Object
  core_plan_cases =
      (
        "createKubernetesResource",
        case_of ("cluster" ∷ "kind" ∷ "name" ∷ "manifest" ∷ [])
            (λ p. create_kubernetes_resource_plan t.s t.u (create_params p)),
      )
      ∷ ("patchKubernetesResource", case_of ("cluster" ∷ "kind" ∷ "name" ∷ "patch" ∷ []) patch_plan)
      ∷ (
        "deleteKubernetesResource",
        case_of ("cluster" ∷ "kind" ∷ "name" ∷ [])
            (λ p. delete_kubernetes_resource_plan t.s (delete_params p)),
      )
      ∷ (
        "execPod",
        case_of ("cluster" ∷ "namespace" ∷ "name" ∷ "command" ∷ [])
            (λ p. exec_gated t.s t.exec (exec_pod_plan t.s t.exec t.u (exec_params p))),
      )
      ∷ []

  pub core_execute_cases : Table Object
  core_execute_cases =
      (
        "createKubernetesResource",
        case_of ("cluster" ∷ "kind" ∷ "name" ∷ "manifest" ∷ [])
            (λ p. create_kubernetes_resource t.s t.u (create_params p)),
      )
      ∷ (
        "patchKubernetesResource",
        case_of ("cluster" ∷ "kind" ∷ "name" ∷ "patch" ∷ []) patch_execute,
      )
      ∷ (
        "deleteKubernetesResource",
        case_of ("cluster" ∷ "kind" ∷ "name" ∷ [])
            (λ p. delete_kubernetes_resource t.s (delete_params p)),
      )
      ∷ (
        "execPod",
        case_of ("cluster" ∷ "namespace" ∷ "name" ∷ "command" ∷ [])
            (λ p. exec_gated t.s t.exec (exec_pod t.s t.exec (exec_params p))),
      )
      ∷ []

  pub project_plan_cases : Table Object
  project_plan_cases =
      (
        "createProject",
        case_of ("cluster" ∷ "name" ∷ [])
            (λ p. create_project_plan t.s t.projects t.u (project_params p)),
      )
      ∷ (
        "moveNamespace",
        case_of ("cluster" ∷ "namespace" ∷ "project" ∷ [])
            (λ p. move_namespace_plan t.s t.projects t.u (move_ns_params p)),
      )
      ∷ []

  pub project_execute_cases : Table Object
  project_execute_cases =
      (
        "createProject",
        case_of ("cluster" ∷ "name" ∷ [])
            (λ p. create_project t.s t.projects t.u (project_params p)),
      )
      ∷ (
        "moveNamespace",
        case_of ("cluster" ∷ "namespace" ∷ "project" ∷ [])
            (λ p. move_namespace t.s t.projects t.u (move_ns_params p)),
      )
      ∷ []

  pub provisioning_plan_cases : Table Object
  provisioning_plan_cases =
      (
        "createCustomCluster",
        case_of ("name" ∷ "CNI" ∷ "version" ∷ "distribution" ∷ [])
            (λ p. create_custom_cluster_plan t.s t.clusters t.u (custom_cluster_params p)),
      )
      ∷ (
        "createImportedCluster",
        case_of ("name" ∷ [])
            (λ p. create_imported_cluster_plan t.s t.clusters t.u (imported_cluster_params p)),
      )
      ∷ (
        "createK3kCluster",
        case_of ("name" ∷ "namespace" ∷ "targetCluster" ∷ [])
            (λ p. create_k3k_cluster_plan t.s t.clusters t.u (k3k_cluster_params p)),
      )
      ∷ (
        "scaleClusterNodePool",
        case_of ("cluster" ∷ "namespace" ∷ "nodePoolName" ∷ [])
            (λ p. scale_cluster_node_pool_plan t.s t.pools (scale_params p)),
      )
      ∷ []

  pub provisioning_execute_cases : Table Object
  provisioning_execute_cases =
      (
        "createCustomCluster",
        case_of ("name" ∷ "CNI" ∷ "version" ∷ "distribution" ∷ [])
            (λ p. create_custom_cluster t.s t.clusters t.u (custom_cluster_params p)),
      )
      ∷ (
        "createImportedCluster",
        case_of ("name" ∷ [])
            (λ p. create_imported_cluster t.s t.clusters t.u (imported_cluster_params p)),
      )
      ∷ (
        "createK3kCluster",
        case_of ("name" ∷ "namespace" ∷ "targetCluster" ∷ [])
            (λ p. create_k3k_cluster t.s t.clusters t.u (k3k_cluster_params p)),
      )
      ∷ (
        "scaleClusterNodePool",
        case_of ("cluster" ∷ "namespace" ∷ "nodePoolName" ∷ [])
            (λ p. scale_cluster_node_pool t.s t.pools (scale_params p)),
      )
      ∷ []

  -- A table and the projects' slice, with the provisioning slice; `none` is a panic.
  pub union_of : Table Object → Table Object → Table Object → Option (Table Object)
  union_of core projects provisioning = elim (merge_maps (core ∷ projects ∷ [])) [
    | none ↦ none
    | some merged ↦ merge_maps (merged ∷ provisioning ∷ [])
  ]

  pair : Option (Table Object) → Option (Table Object) → Option (CaseMaps Object)
  pair none e = none
  pair (some p) none = none
  pair (some p) (some e) = some (record { plan = p; execute = e })

  -- `buildCaseMaps`, of the two change phases
  unfoldable pub build_case_maps : Option (CaseMaps Object)
  unfolding pair union_of core_plan_cases project_plan_cases provisioning_plan_cases
      core_execute_cases project_execute_cases provisioning_execute_cases
  build_case_maps =
      pair (union_of core_plan_cases project_plan_cases provisioning_plan_cases)
        (union_of core_execute_cases project_execute_cases provisioning_execute_cases)

  -- `caseMapFor`: no case for another phase
  pub case_map_for : String → CaseMaps Object → Table Object
  case_map_for phase m =
      if str_eq phase "plan" then m.plan else if str_eq phase "execute" then m.execute else []

  -- The phase of a tool that `Register` adds; none of the two in a server that is read-only.
  pub phase_of : Bool → String → Option String
  phase_of read_only tool =
      if read_only
      then none
      else if str_eq tool "planChange"
      then some "plan"
      else if str_eq tool "executeChange"
      then some "execute"
      else none

  pub run_dispatched :
      ChangeParams → Result DispatchError (Handler Object) → Act Object (Reply Object)
  unfolding lift
  run_dispatched p (err e) = lift (err (dispatch_error e))
  run_dispatched p (ok handler) = handler p

  call_phase :
      (List String → List String)
      → CaseMaps Object
      → ChangeParams
      → Option String
      → Act Object (Reply Object)
  unfolding lift run_dispatched case_map_for change_fields
  call_phase sort m p none = lift (err unknown_tool)
  call_phase sort m p (some phase) =
      run_dispatched p (dispatch sort p.operation (change_fields p) (case_map_for phase m))

  -- A call of planChange or executeChange at the server.
  pub call_change_tool :
      (List String → List String)
      → CaseMaps Object
      → Bool
      → String
      → ChangeParams
      → Act Object (Reply Object)
  unfolding call_phase phase_of
  call_change_tool sort m read_only tool p = call_phase sort m p (phase_of read_only tool)
