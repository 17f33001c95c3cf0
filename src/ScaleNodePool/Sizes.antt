-- ===== src/ScaleNodePool/Sizes.antt =====
-- Which sizes `scaleClusterNodePoolPatch` accepts for a pool.
use rancher_ai_mcp.Prelude.{
  ◌≡◌, refl, ◌↔◌, ◌⊎◌, inl, inr, Bool, true, false, not, Option, none, some, ok, arith,
  if◌then◌else◌, Bool-cases,
}
use rancher_ai_mcp.Prelude.Int.{ℤ, pos, negsuc, int32, IsInt32, ◌+ℤ◌, ◌-ℤ◌, ◌≤ℤ◌, eqb_ℤ}
use rancher_ai_mcp.ScaleNodePool.{
  MachinePool, is_even, check_etcd, check_size, requested_size, scale_pool,
}

-- A size that an etcd pool may get: odd, at most 7, and below 3 only if the pool does not shrink.
abbrev pub EtcdAllows : Bool → ℤ → ℤ → Type 0
EtcdAllows false size old = Unit
EtcdAllows true size old =
    (is_even size ≡ false) × (size ≤ℤ pos 7) × ((pos 3 ≤ℤ size) ⊎ (old ≤ℤ size))

abbrev pub IsAllowed : Bool → ℤ → ℤ → Type 0
IsAllowed etcd_role size old = (pos 1 ≤ℤ size) × EtcdAllows etcd_role size old

pub check_size_iff :
    (etcd_role : Bool) (size old value : ℤ)
    → (check_size etcd_role size old ≡ ok value) ↔ ((size ≡ value) × IsAllowed etcd_role size old)
unfolding check_size check_etcd
check_size_iff false size old value = ground arith
check_size_iff true size old value = ground arith

-- A pool that can be scaled has a quantity, and gets exactly the size that was asked for.
pub record IsScaled (desired add subtract : ℤ) (pool : MachinePool) (value : ℤ) : Type 0 where
  pub old : ℤ
  pub quantity : pool.quantity ≡ some old
  pub size : requested_size desired add subtract old ≡ value
  pub allowed : IsAllowed pool.etcd_role value old

quantity-cases :
    (desired add subtract value : ℤ) (pool : MachinePool) (quantity : Option ℤ)
    → pool.quantity ≡ quantity
    → scale_pool desired add subtract pool ≡ ok value
    → IsScaled desired add subtract pool value
unfolding scale_pool
quantity-cases desired add subtract value pool none e h = cc (rw (e, scale_pool) at h)
quantity-cases desired add subtract value pool (some old) e h =
    let (size, allowed) =
      (check_size_iff pool.etcd_role (requested_size desired add subtract old) old value).0
        (rw (e, scale_pool) at h) in
    record { old = old; quantity = e; size = size; allowed = rw (← size) allowed }

pub scale_pool_iff :
    (desired add subtract value : ℤ) (pool : MachinePool)
    → (scale_pool desired add subtract pool ≡ ok value) ↔ IsScaled desired add subtract pool value
unfolding scale_pool
scale_pool_iff desired add subtract value pool = (
  quantity-cases desired add subtract value pool pool.quantity refl,
  λ s.
      rw (s.quantity, scale_pool)
        ((check_size_iff pool.etcd_role (requested_size desired add subtract s.old) s.old value).1
          (s.size, rw s.size s.allowed)),
)

-- No wrap-around gets through: a positive 32-bit sum or difference is the true one.
pub add_exact :
    (old add : ℤ)
    → pos 0 ≤ℤ old
    → IsInt32 old
    → IsInt32 add
    → pos 1 ≤ℤ int32 (old +ℤ add)
    → int32 (old +ℤ add) ≡ old +ℤ add
unfolding int32
add_exact (pos n) (pos m) p i j h = ground arith
add_exact (pos n) (negsuc m) p i j h = ground arith
add_exact (negsuc n) add p i j h = absurd (omega arith)

pub subtract_exact :
    (old subtract : ℤ)
    → pos 0 ≤ℤ old
    → IsInt32 old
    → IsInt32 subtract
    → pos 1 ≤ℤ int32 (old -ℤ subtract)
    → int32 (old -ℤ subtract) ≡ old -ℤ subtract
unfolding int32
subtract_exact (pos n) (pos m) p i j h = ground arith
subtract_exact (pos n) (negsuc m) p i j h = ground arith
subtract_exact (negsuc n) subtract p i j h = absurd (omega arith)

-- The size as it is meant, without the machine's arithmetic.
pub true_size : ℤ → ℤ → ℤ → ℤ → ℤ
true_size desired add subtract old =
    if not (eqb_ℤ subtract (pos 0))
    then old -ℤ subtract
    else if not (eqb_ℤ add (pos 0))
    then old +ℤ add
    else desired

pub requested_size_exact :
    (desired add subtract old : ℤ)
    → pos 0 ≤ℤ old
    → IsInt32 old
    → IsInt32 add
    → IsInt32 subtract
    → pos 1 ≤ℤ requested_size desired add subtract old
    → requested_size desired add subtract old ≡ true_size desired add subtract old
unfolding requested_size true_size
requested_size_exact desired add subtract old p i j k h =
    elim (Bool-cases (not (eqb_ℤ subtract (pos 0)))) [
      | inl yes_sub ↦ rw yes_sub (subtract_exact old subtract p i k (rw yes_sub at h))
      | inr no_sub ↦ elim (Bool-cases (not (eqb_ℤ add (pos 0)))) [
        | inl yes_add ↦ rw (no_sub, yes_add) (add_exact old add p i j (rw (no_sub, yes_add) at h))
        | inr no_add ↦ rw (no_sub, no_add) refl
      ]
    ]
