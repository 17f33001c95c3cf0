-- ===== src/Changes/NodePool/Safety.antt =====
-- What scaleClusterNodePool can change, and that planning it changes nothing.
use rancher_ai_mcp.Prelude.{
  String, ◌≡◌, ◌≢◌, refl, sym, Bool, true, false, [], ◌∷◌, Result, ok, err, str_eq, str_ne,
  if◌then◌else◌, arith,
}
use rancher_ai_mcp.ScaleNodePool.{Error, ProvCluster, Patch, scale_cluster_node_pool_patch}
use rancher_ai_mcp.Confirm.{Bytes, Gate}
use rancher_ai_mcp.Changes.{
  Failure, local_cluster, Change, patch, Services, ◌>>=◌, ◌>>◌, lift, check_gate, when_approved,
}
use rancher_ai_mcp.Changes.Rules.{
  Silent, Gated, IsCleared, Silent-lift, Silent-issue, Silent-plan_reply, Gated-lift, Gated-then,
  Gated-perform, Gated-err, Gated-check,
}
use rancher_ai_mcp.Changes.NodePool.{
  NodePoolParams, NodePoolServices, local, pool_namespace, scale_bytes, patch_of_cluster,
  scale_patch, scale_operation, scale_summary, scale_approved, scale_cluster_node_pool,
  scale_cluster_node_pool_plan,
}

-- The namespace of the call, or fleet-default where it gives none or "default".
abbrev pub target : String → String
target namespace =
    if str_eq namespace ""
    then "fleet-default"
    else if str_eq namespace "default"
    then "fleet-default"
    else namespace

pool_namespace-target : (namespace : String) → pool_namespace namespace ≡ target namespace
unfolding pool_namespace
pool_namespace-target namespace = ground arith

module _ {Object : Type 0} (s : Services Object) (x : NodePoolServices) where
  -- The bytes are the patch that the sizes and the fetched cluster give.
  pub data IsScalePatch (p : NodePoolParams) (payload : Bytes) : Type 0 where
    is_scale_patch :
        (cluster : ProvCluster) (scaled : Patch)
        → x.get_provisioning_cluster (target p.namespace) p.cluster ≡ ok cluster
        → scale_cluster_node_pool_patch cluster p.sizes ≡ ok scaled
        → x.marshal_patch scaled ≡ ok payload
        → IsScalePatch p payload

  scale_bytes-ok :
      (r : Result Error Patch) (payload : Bytes)
      → scale_bytes s x r ≡ ok payload
      → (scaled : Patch) × (r ≡ ok scaled) × (x.marshal_patch scaled ≡ ok payload)
  unfolding scale_bytes
  scale_bytes-ok (err e) payload h = cc
  scale_bytes-ok (ok scaled) payload h = (scaled, refl, h)

  patch_of_cluster-ok :
      (p : NodePoolParams) (r : Result Failure ProvCluster) (payload : Bytes)
      → x.get_provisioning_cluster (pool_namespace p.namespace) p.cluster ≡ r
      → patch_of_cluster s x p.sizes r ≡ ok payload
      → IsScalePatch p payload
  unfolding patch_of_cluster
  patch_of_cluster-ok p (err e) payload found h = cc
  patch_of_cluster-ok p (ok cluster) payload found h =
      let (scaled, e, f) =
        scale_bytes-ok (scale_cluster_node_pool_patch cluster p.sizes) payload h in
      is_scale_patch cluster scaled (rw (sym (pool_namespace-target p.namespace)) found) e f

  scale_patch-IsScalePatch :
      (p : NodePoolParams) (payload : Bytes)
      → scale_patch s x p ≡ ok payload
      → IsScalePatch p payload
  unfolding scale_patch
  scale_patch-IsScalePatch p payload h = patch_of_cluster-ok p _ payload refl h

  scale_approved-Gated :
      (p : NodePoolParams) (payload : Bytes)
      → Gated
          (λ g c. c ≡ patch (pool_namespace p.namespace) local x.cluster_gvr p.cluster payload)
          (scale_approved s x p payload)
  unfolding scale_approved
  scale_approved-Gated p payload =
      Gated-perform s (patch (pool_namespace p.namespace) local x.cluster_gvr p.cluster payload) _
        (λ a. Silent-lift (s.create_response (a ∷ []) p.cluster) _ (λ text g. refl))

  abbrev pub IsScaling : NodePoolParams → Gate → Change Object → Type 0
  IsScaling p g c =
      (payload : Bytes) × (s.to_lower p.cluster ≢ "local")
      × IsScalePatch p payload
      × (c ≡ patch (target p.namespace) "local" x.cluster_gvr p.cluster payload)
      × IsCleared s
          (record {
            tool = "scaleClusterNodePool";
            cluster = p.cluster;
            namespace = target p.namespace;
            kind = "nodepool";
            name = p.sizes.node_pool_name;
            payload = payload;
          })
          p.confirmation_token
          (s.sprintf
            "SCALE node pool %s of cluster %q in namespace %q of cluster %q to the size given by this patch:\n%s"
            (p.sizes.node_pool_name
              ∷ p.cluster
              ∷ target p.namespace
              ∷ "local"
              ∷ x.show payload
              ∷ []))
          "" s.auto_write g

  Gated-unless_local :
      (p : NodePoolParams) (b : Bool)
      → str_eq (s.to_lower p.cluster) local ≡ b
      → Gated (IsScaling p) (
          if b
          then lift (err local_cluster)
          else (lift (s.get_resource_interface (pool_namespace p.namespace) local x.cluster_gvr)
              >> (lift (scale_patch s x p) >>= λ payload.
                  check_gate s
                    (scale_operation s x p payload)
                    p.confirmation_token
                    (scale_summary s x p payload)
                    ""
                    s.auto_write
                  >>= λ approved. when_approved approved (scale_approved s x p payload))))
  unfolding scale_operation scale_summary
  Gated-unless_local p true e = Gated-err _ _ local_cluster
  Gated-unless_local p false e =
      Gated-then _ (s.get_resource_interface (pool_namespace p.namespace) local x.cluster_gvr) _ (
        Gated-lift _ (scale_patch s x p) _ (λ payload found.
          Gated-check
            (λ c. c ≡ patch (pool_namespace p.namespace) local x.cluster_gvr p.cluster payload) _ s
            (scale_operation s x p payload) p.confirmation_token (scale_summary s x p payload) ""
            s.auto_write (scale_approved s x p payload) (scale_approved-Gated p payload)
            (λ g c clear same. (
              payload,
              str_ne (s.to_lower p.cluster) "local" e,
              scale_patch-IsScalePatch p payload found,
              rw (sym (pool_namespace-target p.namespace)) same,
              rw (sym (pool_namespace-target p.namespace)) clear,
            ))))

  -- A scale call makes at most one change: it patches the named provisioning cluster, in the
  -- namespace of the call or in fleet-default where the call gives none or "default", with the
  -- bytes of the patch that scaleClusterNodePoolPatch makes of the cluster fetched there and the
  -- sizes, never for the local cluster; and only if the gate cleared, with the call's token, the
  -- operation with this cluster, namespace and node pool and these bytes as payload, on a summary
  -- that shows them, which in auto-write mode it does unasked.
  pub scale_cluster_node_pool-Gated :
      (p : NodePoolParams) → Gated (IsScaling p) (scale_cluster_node_pool s x p)
  unfolding scale_cluster_node_pool
  scale_cluster_node_pool-Gated p = Gated-unless_local p (str_eq (s.to_lower p.cluster) local) refl

  -- Planning to scale a node pool changes nothing, on any path.
  pub scale_cluster_node_pool_plan-Silent :
      (p : NodePoolParams) → Silent (scale_cluster_node_pool_plan s x p)
  unfolding scale_cluster_node_pool_plan
  scale_cluster_node_pool_plan-Silent p = Silent-lift (scale_patch s x p) _ (λ payload.
      Silent-issue s (scale_operation s x p payload) _
        (λ token. Silent-plan_reply s _ _ _ _ _ _ token))
