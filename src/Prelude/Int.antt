-- ===== src/Prelude/Int.antt =====
-- Go's signed integers over the native numbers, under the library's names, and the wrap-around
-- of the 32-bit and 64-bit types.
use Prim.Native.Nat.{ℕ, suc, ◌+◌, ◌-◌, ◌%◌, ◌≤◌, ◌<◌}
use mathlib.Core.Path.{◌≡◌}
use mathlib.Core.Bool.{Bool}
use native.Mathlib.Omega.{arith}
use rancher_ai_mcp.Prelude.Tests.{ltb, leb, if◌then◌else◌, ◌==◌}

-- `negsuc n` is -(n + 1).
pub data ℤ : Type 0 where
  pos : ℕ → ℤ
  negsuc : ℕ → ℤ

abbrev pub pos_part : ℤ → ℕ
pos_part (pos n) = n
pos_part (negsuc n) = 0

abbrev pub neg_part : ℤ → ℕ
neg_part (pos n) = 0
neg_part (negsuc n) = suc n

-- a - b, as an integer.
abbrev pub sub_ℕ : ℕ → ℕ → ℤ
sub_ℕ a b = if leb b a then pos (a - b) else negsuc (b - a - 1)

infixl 65 ◌+ℤ◌ ◌-ℤ◌
abbrev pub ◌+ℤ◌ : ℤ → ℤ → ℤ
a +ℤ b = sub_ℕ (pos_part a + pos_part b) (neg_part a + neg_part b)

abbrev pub ◌-ℤ◌ : ℤ → ℤ → ℤ
a -ℤ b = sub_ℕ (pos_part a + neg_part b) (neg_part a + pos_part b)

infix 50 ◌≤ℤ◌ ◌<ℤ◌
abbrev pub ◌≤ℤ◌ : ℤ → ℤ → Type 0
a ≤ℤ b = pos_part a + neg_part b ≤ pos_part b + neg_part a

abbrev pub ◌<ℤ◌ : ℤ → ℤ → Type 0
a <ℤ b = pos_part a + neg_part b < pos_part b + neg_part a

abbrev pub ltb_ℤ : ℤ → ℤ → Bool
ltb_ℤ a b = ltb (pos_part a + neg_part b) (pos_part b + neg_part a)

abbrev pub leb_ℤ : ℤ → ℤ → Bool
leb_ℤ a b = leb (pos_part a + neg_part b) (pos_part b + neg_part a)

abbrev pub eqb_ℤ : ℤ → ℤ → Bool
eqb_ℤ a b = (pos_part a + neg_part b) == (pos_part b + neg_part a)

-- The value that a two's complement word of `2 * half` codes holds after it took the integer.
abbrev pub wrap : ℕ → ℤ → ℤ
wrap half (pos n) =
    if ltb (n % (half + half)) half
    then pos (n % (half + half))
    else negsuc (half + half - 1 - n % (half + half))
wrap half (negsuc n) =
    if ltb (n % (half + half)) half
    then negsuc (n % (half + half))
    else pos (half + half - 1 - n % (half + half))

abbrev pub half32 : ℕ
half32 = 2147483648

abbrev pub half64 : ℕ
half64 = 9223372036854775808

-- Go's conversion `int32(x)`, and what an `int32` or `int64` operation leaves.
unfoldable pub int32 : ℤ → ℤ
int32 x = wrap half32 x

unfoldable pub int64 : ℤ → ℤ
int64 x = wrap half64 x

-- The range of the types.
abbrev pub IsInt32 : ℤ → Type 0
IsInt32 x = (pos_part x < half32) × (neg_part x ≤ half32)

abbrev pub IsInt64 : ℤ → Type 0
IsInt64 x = (pos_part x < half64) × (neg_part x ≤ half64)

pub int32-IsInt32 : (x : ℤ) → IsInt32 (int32 x)
unfolding int32
int32-IsInt32 (pos n) = ground arith
int32-IsInt32 (negsuc n) = ground arith

pub int32_of_IsInt32 : (x : ℤ) → IsInt32 x → int32 x ≡ x
unfolding int32
int32_of_IsInt32 (pos n) h = ground arith
int32_of_IsInt32 (negsuc n) h = ground arith

pub int64_of_IsInt64 : (x : ℤ) → IsInt64 x → int64 x ≡ x
unfolding int64
int64_of_IsInt64 (pos n) h = ground arith
int64_of_IsInt64 (negsuc n) h = ground arith
