-- ===== src/Changes/Clusters/Tests.antt =====
-- The handlers that create clusters, over a small Rancher.
use rancher_ai_mcp.Prelude.{String, ◌≡◌, refl, none, some, List, [], ◌∷◌, ok, contains, cut, atoi}
use rancher_ai_mcp.Confirm.Toy.{gate}
use rancher_ai_mcp.Changes.Rules.{GatedAt}
use rancher_ai_mcp.Changes.Releases.{choose_version, supported_kubernetes_version, supported_cni}
use rancher_ai_mcp.Changes.Releases.Choice.{IsChoice, choose_version-IsChoice}
use rancher_ai_mcp.Changes.Clusters.{create_custom_cluster_obj}
use rancher_ai_mcp.Changes.Clusters.Supported.{IsSupported, create_custom_cluster_obj-IsSupported}
use rancher_ai_mcp.Changes.Clusters.Create.{
  create_custom_cluster, create_imported_cluster, create_k3k_cluster,
}
use rancher_ai_mcp.Changes.Clusters.Create.Safety.{
  IsCustomCluster, IsImport, IsK3kCluster, create_custom_cluster-Gated,
  create_imported_cluster-Gated, create_k3k_cluster-Gated,
}
use rancher_ai_mcp.Changes.Toy.{services, objects, cluster_services, custom, imported, k3k}

create_custom_cluster-Gated_example :
    GatedAt
      (IsCustomCluster services cluster_services objects custom)
      (create_custom_cluster services cluster_services objects custom)
      gate
create_custom_cluster-Gated_example =
    create_custom_cluster-Gated services cluster_services objects custom gate

create_imported_cluster-Gated_example :
    GatedAt
      (IsImport services cluster_services objects imported)
      (create_imported_cluster services cluster_services objects imported)
      gate
create_imported_cluster-Gated_example =
    create_imported_cluster-Gated services cluster_services objects imported gate

create_k3k_cluster-Gated_example :
    GatedAt
      (IsK3kCluster services cluster_services objects k3k)
      (create_k3k_cluster services cluster_services objects k3k)
      gate
create_k3k_cluster-Gated_example =
    create_k3k_cluster-Gated services cluster_services objects k3k gate

abbrev releases : List String
releases = "v1.31.3+rke2r1" ∷ "v1.33.2+rke2r1" ∷ "v1.33.2+rke2r3" ∷ "v1.33.2+rke2r2" ∷ []

choose_version-IsChoice_example :
    IsChoice "v1.33.2" "rke2" releases (choose_version "v1.33.2" "rke2" releases)
choose_version-IsChoice_example = choose_version-IsChoice "v1.33.2" "rke2" releases

-- A request for 1.3 takes a release of 1.31, and one without a version any release.
part_of_version :
    (choose_version "v1.33.2" "rke2" releases ≡ some "v1.33.2+rke2r3")
    × (choose_version "1.3" "rke2" releases ≡ some "v1.31.3+rke2r1")
    × (choose_version "" "rke2" releases ≡ some "v1.33.2+rke2r3")
    × (choose_version "v1.30.0" "rke2" releases ≡ none)
unfolding choose_version contains cut atoi
part_of_version = (refl, refl, refl, refl)

create_custom_cluster_obj-IsSupported_example :
    IsSupported cluster_services (λ s. s) custom "v1.33.2+rke2r3"
unfolding create_custom_cluster_obj supported_kubernetes_version supported_cni contains cut atoi
create_custom_cluster_obj-IsSupported_example =
    create_custom_cluster_obj-IsSupported cluster_services (λ s. s) custom "v1.33.2+rke2r3" refl

-- A CNI in capitals passes for the supported one, and is written as it is given.
capitals :
    create_custom_cluster_obj
      (record cluster_services {
        custom_object = λ cluster.
            ok (elim (cluster.machine_global_config) [ [] ↦ "" | entry ∷ rest ↦ entry.1 ]);
      })
      (λ s. "calico")
      (record custom { cni = "CALICO" })
    ≡ ok "CALICO"
unfolding create_custom_cluster_obj supported_kubernetes_version supported_cni contains cut atoi
capitals = refl
