-- ===== src/KeepaliveGate/Counting.antt =====
-- What each operation does to the entry of each session.
use rancher_ai_mcp.Prelude.{
  ℕ, ◌+◌, ◌-◌, String, ◌≡◌, Bool, true, false, Option, none, some, arith, if◌then◌else◌, ◌==◌,
  str_eq, eq_iff, Option-cases, inl, inr,
}
use rancher_ai_mcp.Prelude.Dict
use rancher_ai_mcp.Prelude.Dict.{get-put, get-remove}
use rancher_ai_mcp.KeepaliveGate.{
  SessionState, Sessions, session_or_new, begin, finish, done, ensure_watchdog,
}

-- The entry alone.
abbrev pub begun : ℕ → Option SessionState → Option SessionState
begun now e =
    let s = session_or_new e in
    some (record s { open_count = s.open_count + 1; latest_start = some now })

abbrev pub finished : Option SessionState → Option SessionState
finished none = none
finished (some s) =
    if (s.open_count - 1) == 0 then none else some (record s { open_count = s.open_count - 1 })

abbrev pub cancels : Option SessionState → Bool
cancels none = false
cancels (some s) = if (s.open_count - 1) == 0 then s.watch else false

abbrev pub watched : Option SessionState → Option SessionState
watched none = none
watched (some s) = some (record s { watch = true })

abbrev pub starts : Option SessionState → Bool
starts none = false
starts (some s) = if s.watch then false else true

module _ (id j : String) (m : Sessions) where
  pub get-begin :
      (now : ℕ)
      → Dict.get (begin id now m).0 j
        ≡ (if str_eq id j then begun now (Dict.get m id) else Dict.get m j)
  unfolding begin
  get-begin now = get-put id j _ m

  pub get-done :
      Dict.get (done id m).0 j ≡ (if str_eq id j then finished (Dict.get m id) else Dict.get m j)
  unfolding done finish
  get-done = elim (Option-cases (Dict.get m id)) [
    | inl e ↦ ground (arith, eq_iff id j)
    | inr (s, e) ↦ ground (
      arith,
      eq_iff id j,
      get-put id j (record s { open_count = s.open_count - 1 }) m,
      get-remove id j m,
    )
  ]

  pub get-ensure_watchdog :
      Dict.get (ensure_watchdog id m).0 j
      ≡ (if str_eq id j then watched (Dict.get m id) else Dict.get m j)
  unfolding ensure_watchdog
  get-ensure_watchdog = elim (Option-cases (Dict.get m id)) [
    | inl e ↦ ground (arith, eq_iff id j)
    | inr (s, e) ↦ ground (arith, eq_iff id j, get-put id j (record s { watch = true }) m)
  ]

module _ (id : String) (m : Sessions) where
  pub cancels-done : (done id m).1 ≡ cancels (Dict.get m id)
  unfolding done finish
  cancels-done = ground arith

  pub starts-ensure_watchdog : (ensure_watchdog id m).1 ≡ starts (Dict.get m id)
  unfolding ensure_watchdog
  starts-ensure_watchdog = ground arith
