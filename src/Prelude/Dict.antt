-- ===== src/Prelude/Dict.antt =====
-- A Go map with string keys, as an association list with at most one entry for each key that
-- is looked up first. The order of entries is not read by the laws.
use mathlib.Core.Path.{◌≡◌, refl}
use mathlib.Core.Logic.{◌⊎◌, inl, inr}
use mathlib.Core.Option.{Option, none, some}
use mathlib.Core.List.{List, [], ◌∷◌}
use native.Mathlib.Omega.{arith}
use Prim.Native.String.{String}
use text.Mathlib.TextEquality.{eq_iff}
use rancher_ai_mcp.Prelude.Tests.{if◌then◌else◌, Bool-cases}
use rancher_ai_mcp.Prelude.Text.{str_eq}

abbrev pub Dict {ℓ} : Type ℓ → Type ℓ
Dict V = List (String × V)

module _ {ℓ} {V : Type ℓ} where
  -- `v, ok := m[k]`
  unfoldable pub get : Dict V → String → Option V
  get [] k = none
  get ((j, v) ∷ m) k = if str_eq j k then some v else get m k

  -- `delete(m, k)`
  unfoldable pub remove : String → Dict V → Dict V
  remove k [] = []
  remove k ((j, v) ∷ m) = let rest = remove k m in if str_eq j k then rest else (j, v) ∷ rest

  -- `m[k] = v`
  unfoldable pub put : String → V → Dict V → Dict V
  put k v m = (k, v) ∷ remove k m

  pub get-remove :
      (k j : String) (m : Dict V) → get (remove k m) j ≡ (if str_eq k j then none else get m j)
  unfolding get remove
  get-remove k j [] = ground arith
  get-remove k j ((i, v) ∷ m) = ground (arith, get-remove k j m, eq_iff i k, eq_iff i j, eq_iff k j)

  pub get-put :
      (k j : String) (v : V) (m : Dict V)
      → get (put k v m) j ≡ (if str_eq k j then some v else get m j)
  unfolding get put
  get-put k j v m = ground (arith, get-remove k j m)

-- What a map holds after a write is what was written, or it was there before.
pub get-put-inv {ℓ} :
    {V : Type ℓ} (k j : String) (v w : V) (m : Dict V)
    → get (put k v m) j ≡ some w
    → ((k ≡ j) × (v ≡ w)) ⊎ (get m j ≡ some w)
get-put-inv k j v w m h = elim (Bool-cases (str_eq k j)) [
  | inl e ↦ inl ((eq_iff k j).0 e, cc (rw (get-put k j v m, e) at h))
  | inr e ↦ inr (rw (get-put k j v m, e) at h)
]

pub get-empty {ℓ} : {V : Type ℓ} (k : String) → get {V = V} [] k ≡ none
unfolding get
get-empty k = refl

pub ruleset dict_laws = (get-empty, get-remove, get-put)
