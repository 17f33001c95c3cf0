-- ===== src/ScaleNodePool/Pools.antt =====
-- The whole of `scaleClusterNodePoolPatch`: which pool is scaled, to which size.
use rancher_ai_mcp.Prelude.{
  ℕ, zero, suc, ◌+◌, ◌≡◌, refl, ◌∙◌, sym, ap, String, ◌⊎◌, inl, inr, true, false, Option, none,
  some, List, [], ◌∷◌, ◌++◌, Result, ok, err, arith, >>=-ok-inv, Bool-cases, All, length,
}
use rancher_ai_mcp.Prelude.Int.{ℤ, pos, ◌≤ℤ◌, int32, int32-IsInt32, int32_of_IsInt32, IsInt32}
use rancher_ai_mcp.ScaleNodePool.{
  Error, MachinePool, ProvCluster, ScaleParams, Patch, is_named, scale_pool, find_pool,
  check_amounts, scale_pools, scale_cluster_node_pool_patch,
}
use rancher_ai_mcp.ScaleNodePool.Sizes.{IsScaled, scale_pool_iff, requested_size_exact, true_size}

-- The first pool with the name, and what the patch does to it.
pub record IsFound (cluster wanted : String) (desired add subtract : ℤ) (start : ℕ)
    (pools : List MachinePool) (patch : Patch) : Type 0 where
  pub before : List MachinePool
  pub pool : MachinePool
  pub after : List MachinePool
  pub split : pools ≡ before ++ pool ∷ after
  pub others : All (λ p. is_named cluster wanted p ≡ false) before
  pub named : is_named cluster wanted pool ≡ true
  pub index : patch.index ≡ start + length before
  pub scaled : IsScaled desired add subtract pool patch.value

index_of : Result Error Patch → ℕ
index_of (ok p) = p.index
index_of (err e) = 0

value_of : Result Error Patch → ℤ
value_of (ok p) = p.value
value_of (err e) = pos 0

module _ (cluster wanted : String) (desired add subtract : ℤ) where
  find_pool-IsFound :
      (start : ℕ) (pools : List MachinePool) (patch : Patch)
      → find_pool cluster wanted desired add subtract start pools ≡ ok patch
      → IsFound cluster wanted desired add subtract start pools patch
  unfolding find_pool index_of value_of
  find_pool-IsFound start [] patch h = cc
  find_pool-IsFound start (pool ∷ pools) patch h =
      elim (Bool-cases (is_named cluster wanted pool)) [
        | inl here ↦
            let (value, scaled, made) =
              >>=-ok-inv (scale_pool desired add subtract pool) _ (rw here at h) in
            record {
              before = [];
              pool = pool;
              after = pools;
              split = refl;
              others = tt;
              named = here;
              index = omega (arith, ap index_of made);
              scaled =
                  (scale_pool_iff desired add subtract patch.value pool).0
                    (scaled ∙ ap ok (ap value_of made));
            }
        | inr other ↦
            let f = find_pool-IsFound (suc start) pools patch (rw other at h) in
            record {
              before = pool ∷ f.before;
              pool = f.pool;
              after = f.after;
              split = ap (λ (r : List MachinePool). pool ∷ r) f.split;
              others = (other, f.others);
              named = f.named;
              index = omega (arith, f.index);
              scaled = f.scaled;
            }
      ]

-- The cluster has pools, and the patch is right for the first one with the name.
pub record IsRight (cluster : ProvCluster) (params : ScaleParams) (patch : Patch) : Type 0 where
  pub pools : List MachinePool
  pub listed : cluster.machine_pools ≡ some pools
  pub found :
      IsFound cluster.name params.node_pool_name
        (int32 params.desired_size)
        (int32 params.amount_to_add)
        (int32 params.amount_to_subtract)
        0
        pools
        patch
  pub one_amount : (int32 params.amount_to_add ≡ pos 0) ⊎ (int32 params.amount_to_subtract ≡ pos 0)

one_amount_of :
    (desired add subtract : ℤ)
    → check_amounts desired add subtract ≡ ok tt
    → (add ≡ pos 0) ⊎ (subtract ≡ pos 0)
unfolding check_amounts
one_amount_of desired (pos zero) subtract h = inl refl
one_amount_of desired add (pos zero) h = inr refl
one_amount_of desired add subtract h = ground arith

scale_pools-IsRight :
    (cluster : ProvCluster) (params : ScaleParams) (patch : Patch)
    (pools : Option (List MachinePool))
    → cluster.machine_pools ≡ pools
    → scale_pools cluster params pools ≡ ok patch
    → IsRight cluster params patch
unfolding scale_pools
scale_pools-IsRight cluster params patch none e h = cc
scale_pools-IsRight cluster params patch (some []) e h = cc
scale_pools-IsRight cluster params patch (some (pool ∷ pools)) e h =
    let (t, allowed, rest) =
      >>=-ok-inv
        (check_amounts (int32 params.desired_size) (int32 params.amount_to_add)
          (int32 params.amount_to_subtract))
        _ h in
    record {
      pools = pool ∷ pools;
      listed = e;
      found =
          find_pool-IsFound cluster.name params.node_pool_name (int32 params.desired_size)
            (int32 params.amount_to_add) (int32 params.amount_to_subtract) 0 (pool ∷ pools) patch
            rest;
      one_amount = one_amount_of _ _ _ allowed;
    }

pub scale-IsRight :
    (cluster : ProvCluster) (params : ScaleParams) (patch : Patch)
    → scale_cluster_node_pool_patch cluster params ≡ ok patch
    → IsRight cluster params patch
unfolding scale_cluster_node_pool_patch
scale-IsRight cluster params patch h =
    scale_pools-IsRight cluster params patch cluster.machine_pools refl h

abbrev pub HasQuantity : MachinePool → Type 0
HasQuantity p = (old : ℤ) → p.quantity ≡ some old → (pos 0 ≤ℤ old) × IsInt32 old

-- The quantities that the cluster may hold: 32-bit numbers from 0 on.
abbrev pub HasQuantities : ProvCluster → Type 0
HasQuantities cluster =
    (pools : List MachinePool) → cluster.machine_pools ≡ some pools → All HasQuantity pools

All-middle :
    (P : MachinePool → Type 0) (before : List MachinePool) (pool : MachinePool)
    (after : List MachinePool)
    → All P (before ++ pool ∷ after)
    → P pool
All-middle P [] pool after h = h.0
All-middle P (p ∷ before) pool after h = All-middle P before pool after h.1

-- With amounts that fit 32 bits, and pools whose quantities are 32-bit numbers from 0 on, the
-- new size is the true sum, difference or wanted size, from the quantity of the pool that the
-- patch is for: no wrapped-around size is ever sent.
pub scale_exact :
    (cluster : ProvCluster) (params : ScaleParams) (patch : Patch)
    → IsInt32 params.desired_size
    → IsInt32 params.amount_to_add
    → IsInt32 params.amount_to_subtract
    → HasQuantities cluster
    → scale_cluster_node_pool_patch cluster params ≡ ok patch
    → (r : IsRight cluster params patch) × (patch.value
        ≡ true_size params.desired_size params.amount_to_add params.amount_to_subtract
            r.found.scaled.old)
scale_exact cluster params patch i j k quantities h =
    let r = scale-IsRight cluster params patch h in
    let s = r.found.scaled in
    let (from_zero, fits) =
      All-middle HasQuantity r.found.before r.found.pool r.found.after
        (rw r.found.split at (quantities r.pools r.listed)) s.old s.quantity in
    let exact =
      requested_size_exact (int32 params.desired_size) (int32 params.amount_to_add)
        (int32 params.amount_to_subtract) s.old from_zero fits (int32-IsInt32 params.amount_to_add)
        (int32-IsInt32 params.amount_to_subtract) (rw s.size s.allowed.0) in
    (
      r,
      sym s.size
          ∙ exact
          ∙ cc (
            int32_of_IsInt32 params.desired_size i,
            int32_of_IsInt32 params.amount_to_add j,
            int32_of_IsInt32 params.amount_to_subtract k,
          ),
    )
