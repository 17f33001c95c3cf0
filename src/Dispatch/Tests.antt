-- ===== src/Dispatch/Tests.antt =====
-- Two small tables, whose handlers are numbers.
use rancher_ai_mcp.Prelude.{ℕ, ◌≡◌, refl, ◌↔◌, Bool, true, false, some, [], ◌∷◌, ok, err, All}
use rancher_ai_mcp.Prelude.Dict
use rancher_ai_mcp.Prelude.Dict.{Dict}
use rancher_ai_mcp.Dispatch.{Case, dispatch, missing}
use rancher_ai_mcp.Dispatch.Laws.{HasField, dispatch_iff}

abbrev case_of : ℕ → Case ℕ
case_of n = record { required = "cluster" ∷ "name" ∷ []; handler = n }

abbrev core : Dict (Case ℕ)
core = ("execPod", case_of 1) ∷ []

abbrev fields : Dict Bool
fields = ("cluster", false) ∷ ("name", true) ∷ []

tables : Unit {0}
unfolding dispatch Dict.get Dict.put Dict.remove
tables = tt

name_missing : dispatch (λ keys. keys) "execPod" fields core ≡ err (missing ("name" ∷ []))
unfolding tables
name_missing = refl

dispatch_iff_example : (dispatch (λ keys. keys) "execPod" fields core ≡ ok 1) ↔ (
    (c : Case ℕ) × (Dict.get core "execPod" ≡ some c)
    × All (HasField fields) c.required
    × (c.handler ≡ 1))
dispatch_iff_example = dispatch_iff (λ keys. keys) "execPod" fields core 1
