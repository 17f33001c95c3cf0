-- ===== src/Merged/Cases/Plans.antt =====
-- The handlers of planChange.
use rancher_ai_mcp.Prelude.{String, refl}
use rancher_ai_mcp.Dispatch.Every.{AllCases, AllCases-nil, AllCases-cons}
use rancher_ai_mcp.Changes.Rules.{Silent, Silent-lift, Silent-if}
use rancher_ai_mcp.Changes.Resources.Safety.{plans-Silent, plans-Silent}
use rancher_ai_mcp.Changes.Exec.{exec_gated}
use rancher_ai_mcp.Changes.Exec.Safety.{exec_pod_plan-Silent}
use rancher_ai_mcp.Changes.Projects.Safety.{project_plans-Silent}
use rancher_ai_mcp.Changes.NodePool.Safety.{scale_cluster_node_pool_plan-Silent}
use rancher_ai_mcp.Changes.Clusters.Create.Safety.{cluster_plans-Silent}
use rancher_ai_mcp.Merged.{
  ChangeParams, Tools, patch_list, create_params, update_params, delete_params, exec_params,
  project_params, move_ns_params, custom_cluster_params, imported_cluster_params,
  k3k_cluster_params, scale_params,
}
use rancher_ai_mcp.Merged.Cases.{
  Handler, patch_plan, core_plan_cases, project_plan_cases, provisioning_plan_cases,
}

module _ {Object : Type 0} (t : Tools Object) where
  abbrev pub IsPlan : String → Handler Object → Type 0
  IsPlan key handler = (p : ChangeParams) → Silent (handler p)

  patch_plan-IsPlan : IsPlan "patchKubernetesResource" (patch_plan t)
  unfolding patch_plan
  patch_plan-IsPlan p =
      Silent-lift (patch_list t.codec p.patch) _
        (λ patches. (plans-Silent t.s t.u).1 t.apply (update_params p patches))

  pub core_plans : AllCases IsPlan (core_plan_cases t)
  unfolding core_plan_cases exec_gated
  core_plans =
      AllCases-cons _ _ _ _ (λ p. (plans-Silent t.s t.u).2 (create_params p))
        (AllCases-cons _ _ _ _ patch_plan-IsPlan (
          AllCases-cons _ _ _ _ (λ p. (plans-Silent t.s t.u).0 (delete_params p))
            (AllCases-cons _ _ _ _
              (λ p.
                Silent-if t.s.enable_exec _ _ (exec_pod_plan-Silent t.s t.exec t.u (exec_params p))
                  (λ g. refl))
              (AllCases-nil IsPlan))))

  pub project_plans : AllCases IsPlan (project_plan_cases t)
  unfolding project_plan_cases
  project_plans =
      AllCases-cons _ _ _ _ (λ p. (project_plans-Silent t.s t.projects t.u).0 (project_params p))
        (AllCases-cons _ _ _ _ (λ p. (project_plans-Silent t.s t.projects t.u).1 (move_ns_params p))
          (AllCases-nil IsPlan))

  pub provisioning_plans : AllCases IsPlan (provisioning_plan_cases t)
  unfolding provisioning_plan_cases
  provisioning_plans =
      let planned = cluster_plans-Silent t.s t.clusters t.u in
      AllCases-cons _ _ _ _ (λ p. planned.0 (custom_cluster_params p))
        (AllCases-cons _ _ _ _ (λ p. planned.1 (imported_cluster_params p))
          (AllCases-cons _ _ _ _ (λ p. planned.2 (k3k_cluster_params p))
            (AllCases-cons _ _ _ _
              (λ p. scale_cluster_node_pool_plan-Silent t.s t.pools (scale_params p))
              (AllCases-nil IsPlan))))
