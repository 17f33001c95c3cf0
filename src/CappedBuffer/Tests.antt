-- ===== src/CappedBuffer/Tests.antt =====
-- The buffer at concrete writes.
use rancher_ai_mcp.Prelude.{◌≡◌, refl, List, ℕ, [], ◌∷◌, ltb, length, take, arith}
use rancher_ai_mcp.CappedBuffer.{empty, write, write_all}
use rancher_ai_mcp.CappedBuffer.Laws.{capped, flatten}

abbrev output : List (List ℕ)
output = (1 ∷ 2 ∷ []) ∷ (3 ∷ 4 ∷ []) ∷ (5 ∷ []) ∷ []

cut_at_three : (write_all output (empty 3)).buf ≡ 1 ∷ 2 ∷ 3 ∷ []
unfolding write_all write
cut_at_three = refl

capped_example :
    ((write_all output (empty 3)).buf ≡ take 3 (flatten output))
    × ((write_all output (empty 3)).truncated ≡ ltb 3 (length (flatten output)))
capped_example = capped 3 output (omega arith)
