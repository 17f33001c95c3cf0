-- ===== src/KeepaliveGate/Throttle.antt =====
-- The throttle window of `begin`.
use rancher_ai_mcp.Prelude.{ℕ, String, ◌≡◌, refl, none, some, arith, eq_refl}
use rancher_ai_mcp.Prelude.Dict
use rancher_ai_mcp.Prelude.Dict.{get-put, get-remove}
use rancher_ai_mcp.KeepaliveGate.{SessionState, Sessions, throttle, session_or_new, begin, done}
use rancher_ai_mcp.KeepaliveGate.Counting.{get-done}

wait-begin :
    (id : String) (now : ℕ) (m : Sessions)
    → (begin id now m).1 ≡ throttle (session_or_new (Dict.get m id)).latest_start now
unfolding begin
wait-begin id now m = refl

-- The window does not outlive the session's last elicitation: once it is done, the next call
-- does not wait, however soon it comes.
pub throttle_forgotten :
    (id : String) (m : Sessions) (e : SessionState) (now : ℕ)
    → Dict.get m id ≡ some e
    → e.open_count ≡ 1
    → (begin id now (done id m).0).1 ≡ 0
unfolding throttle session_or_new
throttle_forgotten id m e now found last =
    let gone : Dict.get (done id m).0 id ≡ none = rw (get-done, eq_refl id, found) (ground arith) in
    rw (wait-begin, gone) refl
