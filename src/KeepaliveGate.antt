-- ===== src/KeepaliveGate.antt =====
-- pkg/keepalivegate/keepalivegate.go: which sessions are pinged, and when.
-- The mutex makes `begin`, `done` and `ensure_watchdog` one step each; the goroutines are the
-- interleavings of `Step`. Times are nanoseconds. The zero `time.Time` of a new session is
-- `none`, and `watch` says that a session's entry holds a cancel function.
mod Counting
pub mod Silence
pub mod Throttle
mod Tests
use rancher_ai_mcp.Prelude.{
  ℕ, ◌+◌, ◌-◌, String, Bool, true, false, Option, none, some, List, [], ◌∷◌, if◌then◌else◌, ltb,
  ◌==◌, str_eq, ◌<◌,
}
use rancher_ai_mcp.Prelude.Dict
use rancher_ai_mcp.Prelude.Dict.{Dict}

abbrev pub min_spacing : ℕ
min_spacing = 2000000000

pub record SessionState : Type 0 where
  pub open_count : ℕ
  pub latest_start : Option ℕ
  pub watch : Bool

abbrev pub Sessions : Type 0
Sessions = Dict SessionState

new_session : SessionState
new_session = record { open_count = 0; latest_start = none; watch = false }

pub session_or_new : Option SessionState → SessionState
unfolding new_session
session_or_new none = new_session
session_or_new (some s) = s

-- How long a caller has to wait after the latest start.
throttle : Option ℕ → ℕ → ℕ
throttle none now = 0
throttle (some latest) now =
    if ltb (now - latest) min_spacing then min_spacing - (now - latest) else 0

-- `begin`: the new table and the wait. The clock's two readings are taken as one.
pub begin : String → ℕ → Sessions → Sessions × ℕ
unfolding session_or_new throttle
begin id now sessions =
    let s = session_or_new (Dict.get sessions id) in
    (
      Dict.put id (record s { open_count = s.open_count + 1; latest_start = some now }) sessions,
      throttle s.latest_start now,
    )

-- `done`: the new table, and whether a watchdog was cancelled.
finish : String → Sessions → SessionState → Sessions × Bool
finish id sessions s =
    let open_count = s.open_count - 1 in
    if open_count == 0
    then (Dict.remove id sessions, s.watch)
    else (Dict.put id (record s { open_count = open_count }) sessions, false)

pub done : String → Sessions → Sessions × Bool
unfolding finish
done id sessions = elim (Dict.get sessions id) [
  | none ↦ (sessions, false)
  | some s ↦ finish id sessions s
]

-- `ensureWatchdog`: the new table, and whether a watchdog was started.
pub ensure_watchdog : String → Sessions → Sessions × Bool
ensure_watchdog id sessions = elim (Dict.get sessions id) [
  | none ↦ (sessions, false)
  | some s ↦
      if s.watch
      then (sessions, false)
      else (Dict.put id (record s { watch = true }) sessions, true)
]

-- The calls of the middleware in flight for each session, in their throttle wait or past
-- `ensureWatchdog`, and the watchdogs of each session that run: their context is not cancelled,
-- and none of their pings failed.
pub record State : Type 0 where
  pub sessions : Sessions
  pub waiting : String → ℕ
  pub asking : String → ℕ
  pub live : String → ℕ

abbrev pub initial : State
initial = record { sessions = []; waiting = λ id. 0; asking = λ id. 0; live = λ id. 0 }

abbrev pub update : (String → ℕ) → String → ℕ → String → ℕ
update f id n j = if str_eq id j then n else f j

count : Bool → ℕ
count true = 1
count false = 0

-- A call comes in and registers.
pub arrive : String → ℕ → State → State
arrive id now s = record s {
  sessions = (begin id now s.sessions).0;
  waiting = update s.waiting id (s.waiting id + 1);
}

-- Its wait is over (at once, if there is none): it ensures the watchdog and asks the client.
pub ask : String → State → State
unfolding count
ask id s =
    let r = ensure_watchdog id s.sessions in
    record s {
      sessions = r.0;
      waiting = update s.waiting id (s.waiting id - 1);
      asking = update s.asking id (s.asking id + 1);
      live = update s.live id (s.live id + count r.1);
    }

-- The caller goes away during the wait.
pub give_up : String → State → State
unfolding count
give_up id s =
    let r = done id s.sessions in
    record s {
      sessions = r.0;
      waiting = update s.waiting id (s.waiting id - 1);
      live = update s.live id (s.live id - count r.1);
    }

-- The client has answered.
pub answered : String → State → State
unfolding count
answered id s =
    let r = done id s.sessions in
    record s {
      sessions = r.0;
      asking = update s.asking id (s.asking id - 1);
      live = update s.live id (s.live id - count r.1);
    }

-- A ping of a watchdog fails, and the watchdog ends; the session's entry is left as it is.
pub ping_failed : String → State → State
ping_failed id s = record s { live = update s.live id (s.live id - 1) }

-- One step of one goroutine, of the middleware or of a watchdog.
pub data Step : State → State → Type 0 where
  arrives : (id : String) (now : ℕ) (s : State) → Step s (arrive id now s)
  asks : (id : String) (s : State) → 0 < s.waiting id → Step s (ask id s)
  gives_up : (id : String) (s : State) → 0 < s.waiting id → Step s (give_up id s)
  is_answered : (id : String) (s : State) → 0 < s.asking id → Step s (answered id s)
  ping_fails : (id : String) (s : State) → 0 < s.live id → Step s (ping_failed id s)

pub data Reach : State → Type 0 where
  here : Reach initial
  next : {s t : State} → Reach s → Step s t → Reach t
