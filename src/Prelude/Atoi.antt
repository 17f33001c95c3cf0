-- ===== src/Prelude/Atoi.antt =====
-- `strconv.Atoi` on native strings: an optional sign and one or more decimal digits, in the range
-- of the 64-bit integers.
use Prim.Native.Nat.{ℕ, ◌+◌, ◌-◌, ◌*◌, ◌^◌}
use Prim.Native.Char.{Char, code}
use Prim.Native.String.{String, [], ◌∷◌}
use mathlib.Core.Path.{◌≡◌, refl}
use mathlib.Core.Bool.{Bool, ◌&&◌}
use mathlib.Core.Option.{Option, none, some}
use rancher_ai_mcp.Prelude.Tests.{leb, if◌then◌else◌, ◌==◌}
use rancher_ai_mcp.Prelude.Int.{ℤ, pos, negsuc, sub_ℕ}

is_digit : Char → Bool
is_digit c = leb 48 (code c) && leb (code c) 57

digits : ℕ → String → Option ℕ
unfolding is_digit
digits acc [] = some acc
digits acc (c ∷ s) =
    let rest = digits (acc * 10 + (code c - 48)) s in if is_digit c then rest else none

unsigned : String → Option ℕ
unfolding digits
unsigned [] = none
unsigned (c ∷ s) = digits 0 (c ∷ s)

positive : Option ℕ → Option ℤ
positive none = none
positive (some n) = if leb n (2 ^ 63 - 1) then some (pos n) else none

negative : Option ℕ → Option ℤ
negative none = none
negative (some n) = if leb n (2 ^ 63) then some (sub_ℕ 0 n) else none

-- `none` where it returns an error
unfoldable pub atoi : String → Option ℤ
unfolding unsigned positive negative
atoi [] = none
atoi (c ∷ s) =
    if code c == 45
    then negative (unsigned s)
    else if code c == 43
    then positive (unsigned s)
    else positive (unsigned (c ∷ s))

atoi_runs :
    (atoi "12" ≡ some (pos 12))
    × (atoi "-3" ≡ some (negsuc 2))
    × (atoi "1x" ≡ none)
    × (atoi "9223372036854775808" ≡ none)
unfolding atoi
atoi_runs = (refl, refl, refl, refl)
