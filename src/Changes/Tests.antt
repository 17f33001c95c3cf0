-- ===== src/Changes/Tests.antt =====
-- The handlers over a small cluster, whose objects are their names.
use rancher_ai_mcp.Prelude.{String, ◌≡◌, ◌≢◌, refl, eq_iff, [], ◌∷◌, ok, arith}
use rancher_ai_mcp.Prelude.Dict
use rancher_ai_mcp.Prelude.Dict.{Dict}
use rancher_ai_mcp.Confirm.Approval.{IsApproved, text}
use rancher_ai_mcp.Confirm.Toy.{toy-IsCodec, gate, token, issued, typed}
use rancher_ai_mcp.Changes.{delete, planned}
use rancher_ai_mcp.Changes.Rules.{GatedAt}
use rancher_ai_mcp.Changes.Resources.{
  delete_operation, delete_summary, delete_kubernetes_resource, delete_kubernetes_resource_plan,
  update_kubernetes_resource, create_kubernetes_resource,
}
use rancher_ai_mcp.Changes.Resources.Safety.{
  IsPatch, IsCreation, update_kubernetes_resource-Gated, create_kubernetes_resource-Gated,
}
use rancher_ai_mcp.Changes.Resources.Flow.{
  IsPlanned, delete_plan, plan_then_delete, plan_then_delete_other,
}
use rancher_ai_mcp.Changes.Exec.{exec_pod}
use rancher_ai_mcp.Changes.Exec.Safety.{IsExecution, exec_pod-Gated}
use rancher_ai_mcp.Changes.NodePool.{scale_cluster_node_pool}
use rancher_ai_mcp.Changes.NodePool.Safety.{IsScaling, scale_cluster_node_pool-Gated}
use rancher_ai_mcp.Changes.Projects.{create_project, move_namespace}
use rancher_ai_mcp.Changes.Projects.Safety.{
  IsNewProject, IsMove, create_project-Gated, move_namespace-Gated,
}
use rancher_ai_mcp.Changes.Toy.{
  pods, metrics, services, objects, web, patch_web, new_web, ls, exec_services, pool_services,
  five_workers, project_services, new_project, move_ns,
}

update_kubernetes_resource-Gated_example :
    GatedAt
      (IsPatch services (λ b. "patch") patch_web)
      (update_kubernetes_resource services (λ b. "patch") patch_web)
      gate
update_kubernetes_resource-Gated_example =
    update_kubernetes_resource-Gated services (λ b. "patch") patch_web gate

create_kubernetes_resource-Gated_example :
    GatedAt
      (IsCreation services objects new_web)
      (create_kubernetes_resource services objects new_web)
      gate
create_kubernetes_resource-Gated_example =
    create_kubernetes_resource-Gated services objects new_web gate

exec_pod-Gated_example :
    GatedAt (IsExecution services exec_services ls) (exec_pod services exec_services ls) gate
exec_pod-Gated_example = exec_pod-Gated services exec_services ls gate

scale_cluster_node_pool-Gated_example :
    GatedAt
      (IsScaling services pool_services five_workers)
      (scale_cluster_node_pool services pool_services five_workers)
      gate
scale_cluster_node_pool-Gated_example =
    scale_cluster_node_pool-Gated services pool_services five_workers gate

create_project-Gated_example :
    GatedAt
      (IsNewProject services project_services objects new_project)
      (create_project services project_services objects new_project)
      gate
create_project-Gated_example =
    create_project-Gated services project_services objects new_project gate

move_namespace-Gated_example :
    GatedAt
      (IsMove services project_services objects move_ns)
      (move_namespace services project_services objects move_ns)
      gate
move_namespace-Gated_example = move_namespace-Gated services project_services objects move_ns gate

web_ne : ◌≢◌ {A = String} "web" ""
web_ne = ground (arith, eq_iff "web" "")

web-IsApproved : (summary : String) → IsApproved typed summary "web"
unfolding Dict.get
web-IsApproved summary = record {
  res = record { action = "accept"; content = ("confirmName", text "web") ∷ [] };
  asked = refl;
  approval = record { accepted = refl; chosen = λ p. absurd (web_ne p); retyped = λ p. refl };
}

web-IsPlanned : IsPlanned services web gate [] token
unfolding delete_operation
web-IsPlanned = record {
  gvr = pods;
  current = "web";
  text = "plan";
  resolved = refl;
  found = refl;
  got = refl;
  random = refl;
  issued = issued;
  written = refl;
}

plan_then_delete_example :
    ((delete_kubernetes_resource_plan services web gate).result
      ≡ ok (planned (delete_plan services web "web" token gate) "plan"))
    × ((delete_kubernetes_resource services
          (record web { confirmation_token = token })
          gate).changes
        ≡ delete "ns" "c1" pods "web" ∷ [])
unfolding Dict.get web-IsPlanned
plan_then_delete_example =
    plan_then_delete services services toy-IsCodec refl web gate gate [] token web-IsPlanned refl
      refl refl refl (omega arith) (web-IsApproved (delete_summary services web pods))

plan_then_delete_other_example :
    (delete_kubernetes_resource services
      (record web { api_version = "metrics.k8s.io/v1beta1"; confirmation_token = token })
      gate).changes
    ≡ delete "ns" "c1" metrics "web" ∷ []
unfolding Dict.get
plan_then_delete_other_example =
    plan_then_delete_other services services toy-IsCodec refl web gate gate [] token
      "metrics.k8s.io/v1beta1" metrics web-IsPlanned refl refl refl refl (omega arith)
      (web-IsApproved (delete_summary services web metrics))
