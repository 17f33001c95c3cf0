-- ===== src/Changes/NodePool.antt =====
-- pkg/toolsets/provisioning/scale_node_pool.go and scale_node_pool_plan.go: the handlers around
-- the patch of `ScaleNodePool`.
pub mod Safety
use rancher_ai_mcp.Prelude.{
  String, Bool, true, false, ◌||◌, List, [], ◌∷◌, Result, ok, err, if◌then◌else◌, str_eq,
}
use rancher_ai_mcp.ScaleNodePool
use rancher_ai_mcp.ScaleNodePool.{ProvCluster, ScaleParams, Patch, scale_cluster_node_pool_patch}
use rancher_ai_mcp.Confirm.{Bytes, Operation}
use rancher_ai_mcp.Changes.{
  Gvr, Failure, local_cluster, scale_error, Change, patch, patch_bytes, op_update, Reply, replied,
  Services, Act, ◌>>=◌, ◌>>◌, lift, return, perform, check_gate, issue, when_approved, plan_reply,
}

pub record NodePoolParams : Type 0 where
  pub cluster : String
  pub namespace : String
  pub sizes : ScaleParams
  pub confirmation_token : Bytes

-- What the handlers call besides the shared services.
pub record NodePoolServices : Type 0 where
  -- `getProvisioningCluster`: namespace and name
  pub get_provisioning_cluster : String → String → Result Failure ProvCluster
  pub marshal_patch : Patch → Result Failure Bytes
  -- `%s` of bytes
  pub show : Bytes → String
  -- the entry of `converter.K8sKindsToGVRs` for provisioning clusters
  pub cluster_gvr : Gvr

abbrev pub local : String
local = "local"

-- `DefaultClusterResourcesNamespace`, in place of no namespace or "default".
pub pool_namespace : String → String
pool_namespace namespace =
    if str_eq namespace "" || str_eq namespace "default" then "fleet-default" else namespace

module _ {Object : Type 0} (s : Services Object) (x : NodePoolServices) where
  scale_bytes : Result ScaleNodePool.Error Patch → Result Failure Bytes
  scale_bytes (err e) = err (scale_error e)
  scale_bytes (ok scaled) = x.marshal_patch scaled

  patch_of_cluster : ScaleParams → Result Failure ProvCluster → Result Failure Bytes
  unfolding scale_bytes
  patch_of_cluster sizes (err e) = err e
  patch_of_cluster sizes (ok cluster) = scale_bytes (scale_cluster_node_pool_patch cluster sizes)

  -- `scaleClusterNodePoolPatch`, with the cluster it fetches and the bytes it makes.
  pub scale_patch : NodePoolParams → Result Failure Bytes
  unfolding patch_of_cluster pool_namespace
  scale_patch p =
      patch_of_cluster p.sizes (x.get_provisioning_cluster (pool_namespace p.namespace) p.cluster)

  unfoldable pub scale_operation : NodePoolParams → Bytes → Operation
  unfolding pool_namespace
  scale_operation p payload = record {
    tool = "scaleClusterNodePool";
    cluster = p.cluster;
    namespace = pool_namespace p.namespace;
    kind = "nodepool";
    name = p.sizes.node_pool_name;
    payload = payload;
  }

  pub scale_summary : NodePoolParams → Bytes → String
  unfolding pool_namespace
  scale_summary p payload =
      s.sprintf
        "SCALE node pool %s of cluster %q in namespace %q of cluster %q to the size given by this patch:\n%s"
        (p.sizes.node_pool_name
          ∷ p.cluster
          ∷ pool_namespace p.namespace
          ∷ local
          ∷ x.show payload
          ∷ [])

  pub scale_approved : NodePoolParams → Bytes → Act Object (Reply Object)
  unfolding ◌>>=◌ lift return perform pool_namespace
  scale_approved p payload = do
    obj ← perform s (patch (pool_namespace p.namespace) local x.cluster_gvr p.cluster payload)
    text ← lift (s.create_response (obj ∷ []) p.cluster)
    return (replied text)

  pub scale_cluster_node_pool : NodePoolParams → Act Object (Reply Object)
  unfolding ◌>>=◌ ◌>>◌ lift check_gate when_approved pool_namespace scale_patch scale_operation
      scale_summary scale_approved
  scale_cluster_node_pool p =
      if str_eq (s.to_lower p.cluster) local then lift (err local_cluster) else (do
        lift (s.get_resource_interface (pool_namespace p.namespace) local x.cluster_gvr)
        payload ← lift (scale_patch p)
        approved ←
            check_gate s (scale_operation p payload) p.confirmation_token (scale_summary p payload)
              "" s.auto_write
        when_approved approved (scale_approved p payload))

  pub scale_cluster_node_pool_plan : NodePoolParams → Act Object (Reply Object)
  unfolding ◌>>=◌ lift issue plan_reply pool_namespace scale_patch scale_operation
  scale_cluster_node_pool_plan p = do
    payload ← lift (scale_patch p)
    token ← issue s (scale_operation p payload)
    plan_reply s op_update p.cluster "provisioningcluster" local (pool_namespace p.namespace)
        (patch_bytes payload) token
