-- ===== src/Confirm/Tests.antt =====
-- The gate at concrete inputs, over a codec that meets the laws.
use rancher_ai_mcp.Prelude.{◌≡◌, ◌≢◌, refl, ◌⊎◌, true, false, [], ◌∷◌, arith, ok, err, ◌↔◌}
use rancher_ai_mcp.Prelude.Dict
use rancher_ai_mcp.Confirm.{
  split_dots, bytes_eq, open_token, matches, check_token, consume, require_token, token_consumed,
  payload_hash, or_else, sweep, record_nonce, validate, decode_parts,
}
use rancher_ai_mcp.Confirm.Approval.{check, IsApproved, check_iff, requested}
use rancher_ai_mcp.Confirm.Issue.{IsCollision, IsSameTarget, require-issue, token_binding}
use rancher_ai_mcp.Confirm.SingleUse.{Call, call, run, single_use, double_use}
use rancher_ai_mcp.Confirm.Toy.{demo, op, toy, gate, token, issued, toy-IsCodec, typed}

abbrev first : Call
first = record { op = op; token = token; now = 2000000000; now' = 2000000001 }

abbrev second : Call
second = record { op = op; token = token; now = 5000000000; now' = 5000000000 }

gate_tests : Unit {0}
unfolding require_token check_token open_token decode_parts or_else split_dots bytes_eq validate
    matches payload_hash consume record_nonce sweep Dict.get Dict.put Dict.remove check requested
    run
gate_tests = tt

first_accepted : (call toy gate first).1 ≡ ok tt
unfolding gate_tests
first_accepted = refl

first_checked : check_token toy gate first.op first.token first.now ≡ ok demo
unfolding gate_tests
first_checked = refl

refused_again : (call toy (call toy gate first).0 second).1 ≡ err token_consumed
unfolding gate_tests
refused_again = refl

single_use_example : (call toy (run toy (call toy gate first).0 (second ∷ [])) second).1 ≢ ok tt
single_use_example =
    single_use toy gate first second (second ∷ []) first_accepted (omega arith) (omega arith) refl

double_use_example :
    ((consume gate demo 700000000000).1 ≡ ok tt)
    × ((consume (consume gate demo 700000000000).0 demo 700000000000).1 ≡ ok tt)
unfolding gate_tests
double_use_example =
    double_use toy gate (record first { now' = 700000000000 })
      (record first { now' = 700000000000 }) demo first_checked first_checked refl (omega arith)

require-issue_example : (require_token toy gate op token 601000000000 601000000000).1 ≡ ok tt
unfolding gate_tests
require-issue_example =
    require-issue toy toy-IsCodec gate gate op [] 1000000000 601000000000 601000000000 token issued
      refl refl (omega arith)

token_binding_example :
    IsSameTarget op op × ((op.payload ≡ op.payload) ⊎ IsCollision toy op.payload op.payload)
token_binding_example =
    token_binding toy toy-IsCodec gate gate op op [] 1000000000 2000000000 2000000001 token issued
      refl first_accepted

approved : (check toy typed gate op token "DELETE" "web" false 2000000000 2000000001).1 ≡ ok true
unfolding gate_tests
approved = refl

check_iff_example :
    (((check toy typed gate op token "DELETE" "web" false 2000000000 2000000001).1 ≡ ok true) ↔ (
      ((require_token toy gate op token 2000000000 2000000001).1 ≡ ok tt)
      × IsApproved typed "DELETE" "web"))
    × ((check toy typed gate op token "DELETE" "web" false 2000000000 2000000001).0
        ≡ (require_token toy gate op token 2000000000 2000000001).0)
check_iff_example = check_iff toy typed gate op token "DELETE" "web" 2000000000 2000000001
