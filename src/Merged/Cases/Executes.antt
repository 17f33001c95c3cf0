-- ===== src/Merged/Cases/Executes.antt =====
-- The handlers of executeChange.
use rancher_ai_mcp.Prelude.{String, ◌≡◌, ◌≢◌, refl, Bool, true, false, ok, str_eq, str_ne}
use rancher_ai_mcp.Confirm.{Operation, Gate, require_token}
use rancher_ai_mcp.Confirm.Approval.{IsApproved}
use rancher_ai_mcp.Dispatch.Every.{AllCases, AllCases-nil, AllCases-cons}
use rancher_ai_mcp.Changes.{exec_disabled, Reply}
use rancher_ai_mcp.Changes.Rules.{
  Gated, IsCleared, confirmed, Gated-weaken, Gated-lift, Gated-if, Gated-err,
}
use rancher_ai_mcp.Changes.Resources.{
  delete_operation, update_operation, create_operation, delete_kubernetes_resource,
  create_kubernetes_resource, update_kubernetes_resource,
}
use rancher_ai_mcp.Changes.Resources.Safety.{
  delete_kubernetes_resource-Gated, update_kubernetes_resource-Gated,
  create_kubernetes_resource-Gated,
}
use rancher_ai_mcp.Changes.Exec.{exec_operation, exec_pod, exec_gated}
use rancher_ai_mcp.Changes.Exec.Safety.{exec_pod-Gated}
use rancher_ai_mcp.Changes.Projects.{
  create_project_operation, move_operation, create_project, move_namespace,
}
use rancher_ai_mcp.Changes.Projects.Safety.{create_project-Gated, move_namespace-Gated}
use rancher_ai_mcp.Changes.NodePool.{scale_operation, scale_cluster_node_pool}
use rancher_ai_mcp.Changes.NodePool.Safety.{scale_cluster_node_pool-Gated}
use rancher_ai_mcp.Changes.Clusters.Create.{
  custom_operation, imported_operation, k3k_operation, create_custom_cluster,
  create_imported_cluster, create_k3k_cluster,
}
use rancher_ai_mcp.Changes.Clusters.Create.Safety.{
  create_custom_cluster-Gated, create_imported_cluster-Gated, create_k3k_cluster-Gated,
}
use rancher_ai_mcp.Merged.{
  ChangeParams, Tools, patch_list, create_params, update_params, delete_params, exec_params,
  project_params, move_ns_params, custom_cluster_params, imported_cluster_params,
  k3k_cluster_params, scale_params,
}
use rancher_ai_mcp.Merged.Cases.{
  Handler, patch_execute, core_execute_cases, project_execute_cases, provisioning_execute_cases,
}

module _ {Object : Type 0} (t : Tools Object) where
  -- The gate cleared an operation of this name with the token of the call. It does so unasked
  -- only in auto-write mode, and neither for a deletion nor for a command.
  pub data IsAuthorized (key : String) (p : ChangeParams) (g : Gate) : Type 0 where
    authorized :
        (op : Operation) (summary typed_name : String) (bypass : Bool)
        → op.tool ≡ key
        → (bypass ≡ true
            → (t.s.auto_write ≡ true) × (key ≢ "deleteKubernetesResource") × (key ≢ "execPod"))
        → IsCleared t.s op p.confirmation_token summary typed_name bypass g
        → IsAuthorized key p g

  abbrev pub IsExecute : String → Handler Object → Type 0
  IsExecute key handler = (p : ChangeParams) → Gated (λ g c. IsAuthorized key p g) (handler p)

  -- Cleared by an operation that auto-write mode may pass.
  passable :
      (key : String) (p : ChangeParams) (g : Gate) (op : Operation) (summary typed_name : String)
      → op.tool ≡ key
      → str_eq key "deleteKubernetesResource" ≡ false
      → str_eq key "execPod" ≡ false
      → IsCleared t.s op p.confirmation_token summary typed_name t.s.auto_write g
      → IsAuthorized key p g
  passable key p g op summary typed_name same keeps runs_none cleared =
      authorized op summary typed_name t.s.auto_write same
        (λ e. (e, str_ne key "deleteKubernetesResource" keeps, str_ne key "execPod" runs_none))
        cleared

  -- Confirmed in any mode.
  always :
      (key : String) (p : ChangeParams) (g : Gate) (op : Operation) (summary typed_name : String)
      → op.tool ≡ key
      → (require_token t.s.codec g op p.confirmation_token t.s.now t.s.now').1 ≡ ok tt
      → IsApproved t.s.elicit summary typed_name
      → IsAuthorized key p g
  always key p g op summary typed_name same accepted approved =
      authorized op summary typed_name false same (λ e. cc e) (confirmed accepted approved)

  create-IsExecute :
      IsExecute "createKubernetesResource"
        (λ p. create_kubernetes_resource t.s t.u (create_params p))
  unfolding create_operation create_params
  create-IsExecute p =
      Gated-weaken _ _ (create_kubernetes_resource t.s t.u (create_params p))
        (λ g c h. passable _ p g _ _ _ refl refl refl h.8)
        (create_kubernetes_resource-Gated t.s t.u (create_params p))

  patch_execute-IsExecute : IsExecute "patchKubernetesResource" (patch_execute t)
  unfolding patch_execute update_operation update_params
  patch_execute-IsExecute p = Gated-lift _ (patch_list t.codec p.patch) _ (λ patches e.
      Gated-weaken _ _ (update_kubernetes_resource t.s t.show (update_params p patches))
        (λ g c h. passable _ p g _ _ _ refl refl refl h.3)
        (update_kubernetes_resource-Gated t.s t.show (update_params p patches)))

  delete-IsExecute :
      IsExecute "deleteKubernetesResource" (λ p. delete_kubernetes_resource t.s (delete_params p))
  unfolding delete_operation delete_params
  delete-IsExecute p =
      Gated-weaken _ _ (delete_kubernetes_resource t.s (delete_params p))
        (λ g c h. always _ p g _ _ _ refl h.3 h.4)
        (delete_kubernetes_resource-Gated t.s (delete_params p))

  exec-IsExecute :
      IsExecute "execPod" (λ p. exec_gated t.s t.exec (exec_pod t.s t.exec (exec_params p)))
  unfolding exec_operation exec_gated exec_params
  exec-IsExecute p =
      Gated-if _ t.s.enable_exec _ _
        (Gated-weaken _ _ (exec_pod t.s t.exec (exec_params p))
          (λ g c h. always _ p g _ _ _ refl h.2 h.3) (exec_pod-Gated t.s t.exec (exec_params p)))
        (Gated-err (Reply Object) _ exec_disabled)

  pub core_executes : AllCases IsExecute (core_execute_cases t)
  unfolding core_execute_cases
  core_executes = AllCases-cons _ _ _ _ create-IsExecute (
      AllCases-cons _ _ _ _ patch_execute-IsExecute (
        AllCases-cons _ _ _ _ delete-IsExecute
          (AllCases-cons _ _ _ _ exec-IsExecute (AllCases-nil IsExecute))))

  pub project_executes : AllCases IsExecute (project_execute_cases t)
  unfolding project_execute_cases create_project_operation move_operation project_params
      move_ns_params
  project_executes =
      AllCases-cons _ _ _ _
        (λ p.
          Gated-weaken _ _ (create_project t.s t.projects t.u (project_params p))
            (λ g c h. passable _ p g _ _ _ refl refl refl h.5)
            (create_project-Gated t.s t.projects t.u (project_params p)))
        (AllCases-cons _ _ _ _
          (λ p.
            Gated-weaken _ _ (move_namespace t.s t.projects t.u (move_ns_params p))
              (λ g c h. passable _ p g _ _ _ refl refl refl h.7)
              (move_namespace-Gated t.s t.projects t.u (move_ns_params p)))
          (AllCases-nil IsExecute))

  pub provisioning_executes : AllCases IsExecute (provisioning_execute_cases t)
  unfolding provisioning_execute_cases custom_operation imported_operation k3k_operation
      scale_operation custom_cluster_params imported_cluster_params k3k_cluster_params scale_params
  provisioning_executes =
      AllCases-cons _ _ _ _
        (λ p.
          Gated-weaken _ _ (create_custom_cluster t.s t.clusters t.u (custom_cluster_params p))
            (λ g c h. passable _ p g _ _ _ refl refl refl h.5)
            (create_custom_cluster-Gated t.s t.clusters t.u (custom_cluster_params p)))
        (AllCases-cons _ _ _ _
          (λ p.
            Gated-weaken _ _
              (create_imported_cluster t.s t.clusters t.u (imported_cluster_params p))
              (λ g c h. passable _ p g _ _ _ refl refl refl h.5)
              (create_imported_cluster-Gated t.s t.clusters t.u (imported_cluster_params p)))
          (AllCases-cons _ _ _ _
            (λ p.
              Gated-weaken _ _ (create_k3k_cluster t.s t.clusters t.u (k3k_cluster_params p))
                (λ g c h. passable _ p g _ _ _ refl refl refl h.5)
                (create_k3k_cluster-Gated t.s t.clusters t.u (k3k_cluster_params p)))
            (AllCases-cons _ _ _ _
              (λ p.
                Gated-weaken _ _ (scale_cluster_node_pool t.s t.pools (scale_params p))
                  (λ g c h. passable _ p g _ _ _ refl refl refl h.4)
                  (scale_cluster_node_pool-Gated t.s t.pools (scale_params p)))
              (AllCases-nil IsExecute))))
