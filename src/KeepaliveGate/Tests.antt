-- ===== src/KeepaliveGate/Tests.antt =====
-- Interleavings of two calls of one session.
use rancher_ai_mcp.Prelude.{◌≤◌, ◌<◌, ◌≡◌, refl, if◌then◌else◌, false, some, [], arith}
use rancher_ai_mcp.Prelude.Dict
use rancher_ai_mcp.KeepaliveGate.{
  State, Sessions, initial, arrive, ask, answered, ping_failed, arrives, asks, is_answered, Reach,
  here, next, begin, done, ensure_watchdog,
}
use rancher_ai_mcp.KeepaliveGate.Silence.{IsCounted, watching, Reach-IsCounted, Reach-silence}
use rancher_ai_mcp.KeepaliveGate.Throttle.{throttle_forgotten}

gate : Unit {0}
unfolding arrive ask answered begin done ensure_watchdog Dict.get Dict.put Dict.remove
gate = tt

-- Two calls arrive, the first asks and is answered while the second waits.
abbrev busy : State
busy = arrive "s" 5 (ask "s" (arrive "s" 3 initial))

abbrev half_done : State
half_done = answered "s" busy

half_done_reached : Reach half_done
unfolding gate
half_done_reached =
    next
      (next
        (next (next here (arrives "s" 3 initial)) (asks "s" (arrive "s" 3 initial) (omega arith)))
        (arrives "s" 5 (ask "s" (arrive "s" 3 initial))))
      (is_answered "s" busy (omega arith))

-- The watchdog ends on a failed ping, and the second call goes unpinged.
unpinged : (ask "s" (ping_failed "s" half_done)).live "s" ≡ 0
unfolding gate ping_failed
unpinged = refl

still_pinged : half_done.live "s" ≡ 1
unfolding gate
still_pinged = refl

Reach-IsCounted_example : IsCounted half_done
Reach-IsCounted_example = Reach-IsCounted half_done_reached

Reach-silence_example :
    (half_done.live "s" ≤ 1)
    × (half_done.waiting "s" ≡ 0 → half_done.asking "s" ≡ 0 → half_done.live "s" ≡ 0)
    × (0 < half_done.waiting "s"
        → (ask "s" half_done).live "s"
          ≡ (if watching (Dict.get half_done.sessions "s") then half_done.live "s" else 1))
Reach-silence_example = Reach-silence "s" half_done_reached

abbrev one_open : Sessions
one_open = (begin "s" 3 []).0

throttle_forgotten_example : (begin "s" 4 (done "s" one_open).0).1 ≡ 0
unfolding gate
throttle_forgotten_example =
    throttle_forgotten "s" one_open
      (record { open_count = 1; latest_start = some 3; watch = false }) 4 refl refl
