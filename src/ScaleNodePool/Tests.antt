-- ===== src/ScaleNodePool/Tests.antt =====
-- The patch at concrete clusters.
use rancher_ai_mcp.Prelude.{ℕ, ◌<◌, Option, ◌≡◌, refl, true, false, some, [], ◌∷◌, ok, err, arith}
use rancher_ai_mcp.Prelude.Int.{ℤ, pos, int32, IsInt32, ◌≤ℤ◌}
use rancher_ai_mcp.ScaleNodePool.{
  MachinePool, ProvCluster, ScaleParams, Patch, etcd_even, pool_not_found, is_named, is_even,
  check_size, check_amounts, scale_pools, requested_size, scale_pool, find_pool,
  scale_cluster_node_pool_patch,
}
use rancher_ai_mcp.ScaleNodePool.Sizes.{true_size}
use rancher_ai_mcp.ScaleNodePool.Pools.{IsRight, scale_exact, HasQuantities}
use rancher_ai_mcp.ScaleNodePool.Truncation.{scale_truncates}

abbrev workers : MachinePool
workers = record { name = "workers"; etcd_role = false; quantity = some (pos 2) }

abbrev etcd : MachinePool
etcd = record { name = "etcd"; etcd_role = true; quantity = some (pos 3) }

abbrev prod : ProvCluster
prod = record { name = "prod"; machine_pools = some (workers ∷ etcd ∷ []) }

abbrev add_two : ScaleParams
add_two = record {
  node_pool_name = "prod-etcd";
  desired_size = pos 0;
  amount_to_add = pos 2;
  amount_to_subtract = pos 0;
}

abbrev expected : Patch
expected = record { index = 1; value = pos 5 }

scaling : Unit {0}
unfolding scale_cluster_node_pool_patch scale_pools check_amounts find_pool scale_pool check_size
    requested_size is_named is_even int32
scaling = tt

adds_two : scale_cluster_node_pool_patch prod add_two ≡ ok expected
unfolding scaling
adds_two = refl

refuses_even :
    scale_cluster_node_pool_patch prod (record add_two { amount_to_add = pos 1 }) ≡ err etcd_even
unfolding scaling
refuses_even = refl

refuses_unknown :
    scale_cluster_node_pool_patch prod (record add_two { node_pool_name = "db" })
    ≡ err pool_not_found
unfolding scaling
refuses_unknown = refl

quantity_of_eq :
    (n : ℕ) (old : ℤ)
    → n < 2147483648
    → ◌≡◌ {A = Option ℤ} (some (pos n)) (some old)
    → (pos 0 ≤ℤ old) × IsInt32 old
quantity_of_eq n old small e = let same : pos n ≡ old = cc in rw (← same) (omega arith, omega arith)

prod-HasQuantities : HasQuantities prod
prod-HasQuantities pools e =
    let same : workers ∷ etcd ∷ [] ≡ pools = cc in
    rw (← same) (
      λ old h. quantity_of_eq 2 old (omega arith) h,
      (λ old h. quantity_of_eq 3 old (omega arith) h, tt),
    )

scale_exact_example :
    (r : IsRight prod add_two expected) × (expected.value
      ≡ true_size (pos 0) (pos 2) (pos 0) r.found.scaled.old)
scale_exact_example =
    scale_exact prod add_two expected (omega arith) (omega arith) (omega arith) prod-HasQuantities
      adds_two

-- Only the amount to have is out of range.
scale_truncates_example :
    scale_cluster_node_pool_patch prod (record {
      node_pool_name = "workers";
      desired_size = pos 4294967304;
      amount_to_add = pos 0;
      amount_to_subtract = pos 0;
    })
    ≡ scale_cluster_node_pool_patch prod (record {
      node_pool_name = "workers";
      desired_size = pos 8;
      amount_to_add = pos 0;
      amount_to_subtract = pos 0;
    })
scale_truncates_example = scale_truncates prod "workers" 8 0 0 1 0 0
