-- ===== src/ScaleNodePool.antt =====
-- pkg/toolsets/provisioning/scale_node_pool.go: the patch that scales a node pool of a cluster.
-- Parameters are Go's 64-bit `int`, sizes `int32`. `Quantity` is a pointer, and the code reads
-- through it: nil is a panic. The provisioning cluster that was fetched is an argument.
pub mod Sizes
pub mod Pools
pub mod Truncation
mod Tests
use Prim.Native.String
use rancher_ai_mcp.Prelude.{
  ℕ, zero, suc, ◌+◌, ◌%◌, String, Bool, true, false, not, ◌&&◌, ◌||◌, Option, none, some, List, [],
  ◌∷◌, Result, ok, err, ◌>>=◌, ◌>>◌, refuse_unless, if◌then◌else◌, ltb, ◌==◌, str_eq, is_empty,
}
use rancher_ai_mcp.Prelude.Int.{ℤ, pos, negsuc, int32, ◌+ℤ◌, ◌-ℤ◌, ltb_ℤ, leb_ℤ, eqb_ℤ}

pub data Error : Type 0 where
  nil_rke_config no_node_pools negative_size nothing_specified add_and_subtract : Error
  etcd_quorum etcd_too_many etcd_even not_positive pool_not_found : Error
  nil_quantity_panic : Error

pub record MachinePool : Type 0 where
  pub name : String
  pub etcd_role : Bool
  pub quantity : Option ℤ

pub record ProvCluster : Type 0 where
  pub name : String
  pub machine_pools : Option (List MachinePool)

pub record ScaleParams : Type 0 where
  pub node_pool_name : String
  pub desired_size : ℤ
  pub amount_to_add : ℤ
  pub amount_to_subtract : ℤ

-- `[{"op": "replace", "path": "/spec/rkeConfig/machinePools/<index>/quantity", "value": <value>}]`
pub record Patch : Type 0 where
  pub index : ℕ
  pub value : ℤ

-- `x % 2 == 0`; the remainder of a negative number has its sign.
pub is_even : ℤ → Bool
is_even (pos n) = n % 2 == 0
is_even (negsuc n) = (n + 1) % 2 == 0

-- The name of the pool, or the name that the UI shows.
pub is_named : String → String → MachinePool → Bool
is_named cluster wanted pool =
    str_eq wanted pool.name || str_eq wanted (String.◌++◌ cluster (String.◌++◌ "-" pool.name))

-- The size that the three 32-bit amounts ask for, from the pool's old size.
pub requested_size : ℤ → ℤ → ℤ → ℤ → ℤ
requested_size desired add subtract old =
    if not (eqb_ℤ subtract (pos 0))
    then int32 (old -ℤ subtract)
    else if not (eqb_ℤ add (pos 0))
    then int32 (old +ℤ add)
    else desired

check_etcd : Bool → ℤ → ℤ → Result Error (Unit {0})
check_etcd false size old = ok tt
check_etcd true size old =
    if ltb_ℤ size (pos 3) && ltb_ℤ size old
    then err etcd_quorum
    else if ltb_ℤ (pos 7) size
    then err etcd_too_many
    else if is_even size
    then err etcd_even
    else ok tt

pub check_size : Bool → ℤ → ℤ → Result Error ℤ
unfolding check_etcd
check_size etcd_role size old = do
  allowed ← check_etcd etcd_role size old
  if leb_ℤ size (pos 0) then err not_positive else ok size

-- The body of the loop, at the pool that was asked for.
pub scale_pool : ℤ → ℤ → ℤ → MachinePool → Result Error ℤ
unfolding check_size requested_size
scale_pool desired add subtract pool = elim pool.quantity [
  | none ↦ err nil_quantity_panic
  | some old ↦ check_size pool.etcd_role (requested_size desired add subtract old) old
]

-- The loop, with the index of the first pool that is left.
pub find_pool : String → String → ℤ → ℤ → ℤ → ℕ → List MachinePool → Result Error Patch
find_pool cluster wanted desired add subtract index [] = err pool_not_found
find_pool cluster wanted desired add subtract index (pool ∷ pools) =
    let rest = find_pool cluster wanted desired add subtract (suc index) pools in
    if is_named cluster wanted pool
    then (do
      value ← scale_pool desired add subtract pool
      ok (record { index = index; value = value }))
    else rest

check_amounts : ℤ → ℤ → ℤ → Result Error (Unit {0})
check_amounts desired add subtract =
    if ltb_ℤ desired (pos 0)
    then err negative_size
    else if eqb_ℤ desired (pos 0) && (eqb_ℤ add (pos 0) && eqb_ℤ subtract (pos 0))
    then err nothing_specified
    else if not (eqb_ℤ add (pos 0)) && not (eqb_ℤ subtract (pos 0))
    then err add_and_subtract
    else ok tt

scale_pools : ProvCluster → ScaleParams → Option (List MachinePool) → Result Error Patch
scale_pools cluster params none = err nil_rke_config
scale_pools cluster params (some []) = err no_node_pools
scale_pools cluster params (some (pool ∷ pools)) = do
  let desired = int32 params.desired_size
  let add = int32 params.amount_to_add
  let subtract = int32 params.amount_to_subtract
  allowed ← check_amounts desired add subtract
  find_pool cluster.name params.node_pool_name desired add subtract 0 (pool ∷ pools)

-- `scaleClusterNodePoolPatch`
pub scale_cluster_node_pool_patch : ProvCluster → ScaleParams → Result Error Patch
unfolding scale_pools
scale_cluster_node_pool_patch cluster params = scale_pools cluster params cluster.machine_pools
