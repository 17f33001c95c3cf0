-- ===== src/Changes/Clusters/Create.antt =====
-- pkg/toolsets/provisioning: the handlers of create_custom_cluster.go, create_imported_cluster.go
-- and create_k3k_cluster.go, and their plans.
pub mod Safety
use rancher_ai_mcp.Prelude.{
  ℕ, ◌==◌, String, Bool, true, false, not, List, [], ◌∷◌, Result, ok, err, if◌then◌else◌, str_eq,
  concat,
}
use rancher_ai_mcp.Confirm.{Bytes, Operation}
use rancher_ai_mcp.Changes.{
  Failure, invalid, bad_status, Change, create, post, object, op_create, Reply, replied, Services,
  Unstructured, Act, ◌>>=◌, ◌>>◌, lift, return, make, perform, check_gate, issue, when_approved,
  plan_reply,
}
use rancher_ai_mcp.Changes.Clusters.{
  local, fleet_default, CustomParams, ImportedParams, ImportedCluster, K3kParams, ClusterServices,
  create_custom_cluster_obj, create_imported_cluster_obj, create_k3k_cluster_obj,
}

module _ {Object : Type 0} (s : Services Object) (x : ClusterServices Object)
    (u : Unstructured Object) where
  unfoldable pub custom_operation : CustomParams → Bytes → Operation
  custom_operation p payload = record {
    tool = "createCustomCluster";
    cluster = local;
    namespace = fleet_default;
    kind = "cluster";
    name = p.name;
    payload = payload;
  }

  pub custom_summary : CustomParams → Bytes → String
  custom_summary p payload =
      s.sprintf
        "CREATE custom cluster %s in namespace %q of cluster %q with the following object:\n%s"
        (p.name ∷ fleet_default ∷ local ∷ x.show payload ∷ [])

  pub custom_approved : Object → Act Object (Reply Object)
  unfolding ◌>>=◌ ◌>>◌ lift return perform
  custom_approved obj = do
    lift (s.get_resource_interface fleet_default local x.provisioning_gvr)
    created ← perform s (create fleet_default local x.provisioning_gvr obj)
    text ← lift (s.create_response (created ∷ []) local)
    return (replied text)

  pub create_custom_cluster : CustomParams → Act Object (Reply Object)
  unfolding ◌>>=◌ lift check_gate when_approved custom_operation custom_summary custom_approved
  create_custom_cluster p = do
    obj ← lift (create_custom_cluster_obj x s.to_lower p)
    payload ← lift (s.marshal obj)
    approved ←
        check_gate s (custom_operation p payload) p.confirmation_token (custom_summary p payload) ""
          s.auto_write
    when_approved approved (custom_approved obj)

  pub create_custom_cluster_plan : CustomParams → Act Object (Reply Object)
  unfolding ◌>>=◌ lift issue plan_reply custom_operation
  create_custom_cluster_plan p = do
    obj ← lift (create_custom_cluster_obj x s.to_lower p)
    payload ← lift (s.marshal obj)
    token ← issue s (custom_operation p payload)
    plan_reply s op_create (u.get_name obj) (u.kind obj) local (u.get_namespace obj) (object obj)
        token

  unfoldable pub imported_operation : ImportedParams → Bytes → Operation
  imported_operation p payload = record {
    tool = "createImportedCluster";
    cluster = local;
    namespace = "";
    kind = "cluster";
    name = p.name;
    payload = payload;
  }

  pub imported_summary : ImportedParams → Bytes → String
  imported_summary p payload =
      s.sprintf "CREATE imported cluster %s in cluster %q with the following object:\n%s"
        (p.name ∷ local ∷ x.show payload ∷ [])

  -- The URL of `makeRancherRequest`.
  pub clusters_url : String
  clusters_url = concat x.rancher_url (concat "/" "v3/clusters")

  -- `if status != http.StatusCreated`
  pub created_object : ℕ × Bytes → Result Failure Object
  created_object (status, body) =
      if status == 201 then x.unmarshal_object body else err (bad_status status)

  pub imported_approved : Bytes → Act Object (Reply Object)
  unfolding ◌>>=◌ lift return make clusters_url created_object
  imported_approved payload = do
    answered ← make (post clusters_url payload) (x.post_answer clusters_url payload)
    obj ← lift (created_object answered)
    text ← lift (s.create_response (obj ∷ []) local)
    return (replied text)

  pub create_imported_cluster : ImportedParams → Act Object (Reply Object)
  unfolding ◌>>=◌ lift check_gate when_approved imported_operation imported_summary
      imported_approved
  create_imported_cluster p = do
    cluster ← lift (create_imported_cluster_obj p)
    payload ← lift (s.marshal (x.imported_object cluster))
    approved ←
        check_gate s (imported_operation p payload) p.confirmation_token
          (imported_summary p payload) "" s.auto_write
    when_approved approved (imported_approved payload)

  pub create_imported_cluster_plan : ImportedParams → Act Object (Reply Object)
  unfolding ◌>>=◌ lift issue plan_reply imported_operation
  create_imported_cluster_plan p = do
    cluster ← lift (create_imported_cluster_obj p)
    payload ← lift (s.marshal (x.imported_object cluster))
    token ← issue s (imported_operation p payload)
    let shown =
        x.shown (x.imported_object cluster) "Cluster" "management.cattle.io/v3" fleet_default p.name
    plan_reply s op_create (u.get_name shown) (u.kind shown) local (u.get_namespace shown)
        (object shown) token

  pub k3k_object_of : K3kParams → Object
  k3k_object_of p = x.k3k_object (create_k3k_cluster_obj p)

  unfoldable pub k3k_operation : K3kParams → Bytes → Operation
  k3k_operation p payload = record {
    tool = "createK3kCluster";
    cluster = p.target_cluster;
    namespace = p.namespace;
    kind = "cluster";
    name = p.name;
    payload = payload;
  }

  pub k3k_summary : K3kParams → Bytes → String
  k3k_summary p payload =
      s.sprintf "CREATE K3k cluster %s in namespace %q of cluster %q with the following object:\n%s"
        (p.name ∷ p.namespace ∷ p.target_cluster ∷ x.show payload ∷ [])

  pub k3k_approved : K3kParams → Act Object (Reply Object)
  unfolding ◌>>=◌ ◌>>◌ lift return perform k3k_object_of
  k3k_approved p = do
    lift (s.get_resource_interface p.namespace p.target_cluster x.k3k_gvr)
    created ← perform s (create p.namespace p.target_cluster x.k3k_gvr (k3k_object_of p))
    text ← lift (s.create_response (created ∷ []) p.target_cluster)
    return (replied text)

  pub create_k3k_cluster : K3kParams → Act Object (Reply Object)
  unfolding ◌>>=◌ lift check_gate when_approved k3k_object_of k3k_operation k3k_summary k3k_approved
  create_k3k_cluster p = do
    payload ← lift (s.marshal (k3k_object_of p))
    approved ←
        check_gate s (k3k_operation p payload) p.confirmation_token (k3k_summary p payload) ""
          s.auto_write
    when_approved approved (k3k_approved p)

  -- What the plan refuses, and the creation does not.
  pub check_k3k_params : K3kParams → Result Failure (Unit {0})
  check_k3k_params p =
      if str_eq p.name ""
      then err (invalid "name")
      else if str_eq p.namespace ""
      then err (invalid "namespace")
      else if str_eq p.target_cluster ""
      then err (invalid "targetCluster")
      else ok tt

  pub create_k3k_cluster_plan : K3kParams → Act Object (Reply Object)
  unfolding ◌>>=◌ ◌>>◌ lift issue plan_reply k3k_object_of k3k_operation check_k3k_params
  create_k3k_cluster_plan p = do
    lift (check_k3k_params p)
    payload ← lift (s.marshal (k3k_object_of p))
    token ← issue s (k3k_operation p payload)
    plan_reply s op_create (u.get_name (k3k_object_of p)) (u.kind (k3k_object_of p))
        p.target_cluster (u.get_namespace (k3k_object_of p)) (object (k3k_object_of p)) token
