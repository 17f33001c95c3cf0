-- ===== src/ScaleNodePool/Truncation.antt =====
-- The conversion to `int32` at the head of `scaleClusterNodePoolPatch`.
use rancher_ai_mcp.Prelude.{
  String, ℕ, zero, suc, ◌+◌, ◌*◌, ◌≡◌, refl, ap, ◌∙◌, Option, none, some, List, [], ◌∷◌, arith,
}
use rancher_ai_mcp.Prelude.Int.{pos, int32}
use rancher_ai_mcp.ScaleNodePool.{
  MachinePool, ProvCluster, ScaleParams, scale_pools, scale_cluster_node_pool_patch,
}

int32_once : (n : ℕ) → int32 (pos (n + 4294967296)) ≡ int32 (pos n)
unfolding int32
int32_once n = ground arith

int32_shift : (n i : ℕ) → int32 (pos (n + i * 4294967296)) ≡ int32 (pos n)
int32_shift n zero = ap (λ (m : ℕ). int32 (pos m)) (omega arith)
int32_shift n (suc i) =
    ap (λ (m : ℕ). int32 (pos m)) (omega arith) ∙ int32_once (n + i * 4294967296) ∙ int32_shift n i

abbrev params_of : String → ℕ → ℕ → ℕ → ScaleParams
params_of wanted desired add subtract = record {
  node_pool_name = wanted;
  desired_size = pos desired;
  amount_to_add = pos add;
  amount_to_subtract = pos subtract;
}

pools_truncate :
    (cluster : ProvCluster) (wanted : String) (desired add subtract i j k : ℕ)
    (pools : Option (List MachinePool))
    → scale_pools cluster
        (params_of wanted
          (desired + i * 4294967296)
          (add + j * 4294967296)
          (subtract + k * 4294967296))
        pools
      ≡ scale_pools cluster (params_of wanted desired add subtract) pools
unfolding scale_pools
pools_truncate cluster wanted desired add subtract i j k none = refl
pools_truncate cluster wanted desired add subtract i j k (some []) = refl
pools_truncate cluster wanted desired add subtract i j k (some (pool ∷ pools)) =
    rw (int32_shift desired i, int32_shift add j, int32_shift subtract k) refl

-- Amounts of nodes are cut to 32 bits before any check: whichever multiples of 2^32 are put on
-- top of the amounts to have, to add and to remove, on each its own, the patch or the error is
-- that of the smaller amounts.
pub scale_truncates :
    (cluster : ProvCluster) (wanted : String) (desired add subtract i j k : ℕ)
    → scale_cluster_node_pool_patch cluster (record {
      node_pool_name = wanted;
      desired_size = pos (desired + i * 4294967296);
      amount_to_add = pos (add + j * 4294967296);
      amount_to_subtract = pos (subtract + k * 4294967296);
    })
      ≡ scale_cluster_node_pool_patch cluster (record {
        node_pool_name = wanted;
        desired_size = pos desired;
        amount_to_add = pos add;
        amount_to_subtract = pos subtract;
      })
unfolding scale_cluster_node_pool_patch
scale_truncates cluster wanted desired add subtract i j k =
    pools_truncate cluster wanted desired add subtract i j k cluster.machine_pools
