-- ===== src/Changes/Clusters/Create/Safety.antt =====
-- What the handlers that create clusters can change, and that planning them changes nothing.
use rancher_ai_mcp.Prelude.{String, ◌≡◌, refl, true, some, List, [], ◌∷◌, ok, concat}
use rancher_ai_mcp.Confirm.{Bytes, Gate}
use rancher_ai_mcp.Changes.{Change, create, post, Services, Unstructured}
use rancher_ai_mcp.Changes.Rules.{
  Silent, Gated, IsCleared, Silent-lift, Silent-then, Silent-issue, Silent-plan_reply, Gated-lift,
  Gated-then, Gated-make, Gated-perform, Gated-check,
}
use rancher_ai_mcp.Changes.Clusters.{
  local, fleet_default, CustomParams, ImportedParams, ImportedCluster, K3kParams, ClusterServices,
  CustomCluster, K3kCluster, custom_cluster, create_k3k_cluster_obj, create_custom_cluster_obj,
  create_imported_cluster_obj,
}
use rancher_ai_mcp.Changes.Clusters.Supported.{create_custom_cluster_obj-IsSupported}
use rancher_ai_mcp.Changes.Clusters.Described.{
  IsCustomOf, IsImportOf, IsK3kOf, custom_cluster-IsCustomOf,
  create_imported_cluster_obj-IsImportOf, create_k3k_cluster_obj-IsK3kOf,
}
use rancher_ai_mcp.Changes.Releases.{get_kdm_releases, supported_cni}
use rancher_ai_mcp.Changes.Releases.Choice.{IsChoice}
use rancher_ai_mcp.Changes.Clusters.Create.{
  custom_operation, custom_summary, custom_approved, create_custom_cluster,
  create_custom_cluster_plan, imported_operation, imported_summary, clusters_url, created_object,
  imported_approved, create_imported_cluster, create_imported_cluster_plan, k3k_object_of,
  k3k_operation, k3k_summary, k3k_approved, create_k3k_cluster, check_k3k_params,
  create_k3k_cluster_plan,
}

module _ {Object : Type 0} (s : Services Object) (x : ClusterServices Object)
    (u : Unstructured Object) where
  custom_approved-Gated :
      (obj : Object)
      → Gated
          (λ g c. c ≡ create fleet_default local x.provisioning_gvr obj)
          (custom_approved s x u obj)
  unfolding custom_approved
  custom_approved-Gated obj =
      Gated-then _ (s.get_resource_interface fleet_default local x.provisioning_gvr) _ (
        Gated-perform s (create fleet_default local x.provisioning_gvr obj) _
          (λ a. Silent-lift (s.create_response (a ∷ []) local) _ (λ text g. refl)))

  -- The object of a cluster of the parameters, at a version and with a CNI that are supported.
  pub data IsCustomObject (p : CustomParams) (obj : Object) : Type 0 where
    is_custom_object :
        (version : String) (versions : List String) (cluster : CustomCluster)
        → get_kdm_releases x.releases x.rancher_url p.distribution ≡ ok versions
        → IsChoice p.version p.distribution versions (some version)
        → supported_cni (s.to_lower p.cni) ≡ true
        → IsCustomOf p version cluster
        → x.custom_object cluster ≡ ok obj
        → IsCustomObject p obj

  custom_obj-IsCustomObject :
      (p : CustomParams) (obj : Object)
      → create_custom_cluster_obj x s.to_lower p ≡ ok obj
      → IsCustomObject p obj
  custom_obj-IsCustomObject p obj h =
      let d = create_custom_cluster_obj-IsSupported x s.to_lower p obj h in
      is_custom_object d.version d.versions (custom_cluster p d.version) d.fetched d.choice d.cni
        (custom_cluster-IsCustomOf p d.version) d.made

  abbrev pub IsCustomCluster : CustomParams → Gate → Change Object → Type 0
  IsCustomCluster p g c =
      (obj : Object) × (payload : Bytes) × IsCustomObject p obj
      × (s.marshal obj ≡ ok payload)
      × (c ≡ create "fleet-default" "local" x.provisioning_gvr obj)
      × IsCleared s
          (record {
            tool = "createCustomCluster";
            cluster = "local";
            namespace = "fleet-default";
            kind = "cluster";
            name = p.name;
            payload = payload;
          })
          p.confirmation_token
          (s.sprintf
            "CREATE custom cluster %s in namespace %q of cluster %q with the following object:\n%s"
            (p.name ∷ "fleet-default" ∷ "local" ∷ x.show payload ∷ []))
          "" s.auto_write g

  -- A createCustomCluster call makes at most one change, the creation in fleet-default of the
  -- local cluster of a cluster object with the name, description and CNI of its parameters at a
  -- version chosen from the releases for theirs, where the CNI is a supported one up to case; and
  -- only if the gate cleared, with the call's token, the operation with this name and the object's
  -- bytes as payload, on a summary that shows them, which in auto-write mode it does unasked.
  pub create_custom_cluster-Gated :
      (p : CustomParams) → Gated (IsCustomCluster p) (create_custom_cluster s x u p)
  unfolding create_custom_cluster custom_operation custom_summary
  create_custom_cluster-Gated p =
      Gated-lift _ (create_custom_cluster_obj x s.to_lower p) _ (λ obj e.
        Gated-lift _ (s.marshal obj) _ (λ payload f.
          Gated-check (λ c. c ≡ create fleet_default local x.provisioning_gvr obj) _ s
            (custom_operation s x u p payload) p.confirmation_token (custom_summary s x u p payload)
            "" s.auto_write (custom_approved s x u obj) (custom_approved-Gated obj)
            (λ g c clear same. (obj, payload, custom_obj-IsCustomObject p obj e, f, same, clear))))

  imported_approved-Gated :
      (payload : Bytes)
      → Gated (λ g c. c ≡ post (clusters_url s x u) payload) (imported_approved s x u payload)
  unfolding imported_approved
  imported_approved-Gated payload =
      Gated-make _ (post (clusters_url s x u) payload) _ _ (λ g. refl)
        (λ answered.
          Silent-lift (created_object s x u answered) _
            (λ obj. Silent-lift (s.create_response (obj ∷ []) local) _ (λ text g. refl)))

  abbrev pub IsImport : ImportedParams → Gate → Change Object → Type 0
  IsImport p g c =
      (cluster : ImportedCluster) × (payload : Bytes) × IsImportOf p cluster
      × (s.marshal (x.imported_object cluster) ≡ ok payload)
      × (c ≡ post (concat x.rancher_url (concat "/" "v3/clusters")) payload)
      × IsCleared s
          (record {
            tool = "createImportedCluster";
            cluster = "local";
            namespace = "";
            kind = "cluster";
            name = p.name;
            payload = payload;
          })
          p.confirmation_token
          (s.sprintf "CREATE imported cluster %s in cluster %q with the following object:\n%s"
            (p.name ∷ "local" ∷ x.show payload ∷ []))
          "" s.auto_write g

  -- A createImportedCluster call makes at most one change, the POST to the clusters of Rancher's
  -- API of the bytes of a cluster with the name, the description and the version management
  -- setting of its parameters, which give a name and a valid setting or none; and only if the gate
  -- cleared, with the call's token, the operation with this name and these bytes as payload, on a
  -- summary that shows them, which in auto-write mode it does unasked.
  pub create_imported_cluster-Gated :
      (p : ImportedParams) → Gated (IsImport p) (create_imported_cluster s x u p)
  unfolding create_imported_cluster imported_operation imported_summary clusters_url
  create_imported_cluster-Gated p = Gated-lift _ (create_imported_cluster_obj p) _ (λ cluster e.
      Gated-lift _ (s.marshal (x.imported_object cluster)) _ (λ payload f.
        Gated-check (λ c. c ≡ post (clusters_url s x u) payload) _ s
          (imported_operation s x u p payload) p.confirmation_token
          (imported_summary s x u p payload) "" s.auto_write (imported_approved s x u payload)
          (imported_approved-Gated payload)
          (λ g c clear same. (
            cluster,
            payload,
            create_imported_cluster_obj-IsImportOf p cluster e,
            f,
            same,
            clear,
          ))))

  k3k_approved-Gated :
      (p : K3kParams)
      → Gated
          (λ g c. c ≡ create p.namespace p.target_cluster x.k3k_gvr (k3k_object_of s x u p))
          (k3k_approved s x u p)
  unfolding k3k_approved
  k3k_approved-Gated p =
      Gated-then _ (s.get_resource_interface p.namespace p.target_cluster x.k3k_gvr) _ (
        Gated-perform s (create p.namespace p.target_cluster x.k3k_gvr (k3k_object_of s x u p)) _
          (λ a. Silent-lift (s.create_response (a ∷ []) p.target_cluster) _ (λ text g. refl)))

  abbrev pub IsK3kCluster : K3kParams → Gate → Change Object → Type 0
  IsK3kCluster p g c =
      (cluster : K3kCluster) × (payload : Bytes) × IsK3kOf p cluster
      × (s.marshal (x.k3k_object cluster) ≡ ok payload)
      × (c ≡ create p.namespace p.target_cluster x.k3k_gvr (x.k3k_object cluster))
      × IsCleared s
          (record {
            tool = "createK3kCluster";
            cluster = p.target_cluster;
            namespace = p.namespace;
            kind = "cluster";
            name = p.name;
            payload = payload;
          })
          p.confirmation_token
          (s.sprintf
            "CREATE K3k cluster %s in namespace %q of cluster %q with the following object:\n%s"
            (p.name ∷ p.namespace ∷ p.target_cluster ∷ x.show payload ∷ []))
          "" s.auto_write g

  -- A createK3kCluster call makes at most one change, the creation in the namespace and the target
  -- cluster of its parameters of a virtual cluster with their name and, each exactly where it is
  -- given, their version, mode, synchronized kinds, limits and persistence, and their numbers of
  -- servers and agents where these are positive; and only if the gate cleared, with the call's token, the operation with this
  -- cluster, namespace and name and the object's bytes as payload, on a summary that shows them,
  -- which in auto-write mode it does unasked.
  pub create_k3k_cluster-Gated :
      (p : K3kParams) → Gated (IsK3kCluster p) (create_k3k_cluster s x u p)
  unfolding create_k3k_cluster k3k_object_of k3k_operation k3k_summary
  create_k3k_cluster-Gated p = Gated-lift _ (s.marshal (k3k_object_of s x u p)) _ (λ payload e.
      Gated-check (λ c. c ≡ create p.namespace p.target_cluster x.k3k_gvr (k3k_object_of s x u p)) _
        s (k3k_operation s x u p payload) p.confirmation_token (k3k_summary s x u p payload) ""
        s.auto_write (k3k_approved s x u p) (k3k_approved-Gated p)
        (λ g c clear same.
          (create_k3k_cluster_obj p, payload, create_k3k_cluster_obj-IsK3kOf p, e, same, clear)))

  pub cluster_plans-Silent :
      ((p : CustomParams) → Silent (create_custom_cluster_plan s x u p))
      × ((p : ImportedParams) → Silent (create_imported_cluster_plan s x u p))
      × ((p : K3kParams) → Silent (create_k3k_cluster_plan s x u p))
  unfolding create_custom_cluster_plan create_imported_cluster_plan create_k3k_cluster_plan
  cluster_plans-Silent = (
    λ p. Silent-lift (create_custom_cluster_obj x s.to_lower p) _ (λ obj.
        Silent-lift (s.marshal obj) _ (λ payload.
          Silent-issue s (custom_operation s x u p payload) _
            (λ token. Silent-plan_reply s _ _ _ _ _ _ token))),
    λ p. Silent-lift (create_imported_cluster_obj p) _ (λ cluster.
        Silent-lift (s.marshal (x.imported_object cluster)) _ (λ payload.
          Silent-issue s (imported_operation s x u p payload) _
            (λ token. Silent-plan_reply s _ _ _ _ _ _ token))),
    λ p. Silent-then (check_k3k_params s x u p) _ (
        Silent-lift (s.marshal (k3k_object_of s x u p)) _ (λ payload.
          Silent-issue s (k3k_operation s x u p payload) _
            (λ token. Silent-plan_reply s _ _ _ _ _ _ token))),
  )
