-- ===== src/KeepaliveGate/Silence.antt =====
-- When a session is pinged.
use rancher_ai_mcp.Prelude.{
  ℕ, ◌+◌, ◌-◌, ◌≤◌, ◌<◌, String, ◌≡◌, refl, ◌∙◌, eq_refl, Bool, true, false, Option, none, some,
  arith, if◌then◌else◌, str_eq, eq_iff, inl, inr, Bool-cases,
}
use rancher_ai_mcp.Prelude.Dict
use rancher_ai_mcp.Prelude.Dict.{get-empty}
use rancher_ai_mcp.KeepaliveGate.{
  SessionState, State, initial, count, arrive, ask, give_up, answered, Step, arrives, asks,
  gives_up, is_answered, ping_failed, ping_fails, Reach, here, next, session_or_new,
}
use rancher_ai_mcp.KeepaliveGate.Counting.{
  begun, finished, cancels, watched, starts, get-begin, get-done, get-ensure_watchdog, cancels-done,
  starts-ensure_watchdog,
}

-- What a session's entry says of its calls and watchdogs.
abbrev pub Fits : Option SessionState → ℕ → ℕ → ℕ → Type 0
Fits none waiting asking live = (waiting ≡ 0) × (asking ≡ 0) × (live ≡ 0)
Fits (some e) waiting asking live =
    (e.open_count ≡ waiting + asking)
    × (0 < e.open_count)
    × (live ≤ (if e.watch then 1 else 0))
    × (0 < asking → e.watch ≡ true)

-- The entry holds a cancel function.
abbrev pub watching : Option SessionState → Bool
watching none = false
watching (some e) = e.watch

begun-Fits :
    (now : ℕ) (e : Option SessionState) (w a l : ℕ) → Fits e w a l → Fits (begun now e) (w + 1) a l
unfolding session_or_new
begun-Fits now none w a l h = ground arith
begun-Fits now (some e) w a l h = ground arith

watched-Fits :
    (e : Option SessionState) (w a l : ℕ)
    → 0 < w
    → Fits e w a l
    → Fits (watched e) (w - 1) (a + 1) (l + count (starts e))
unfolding count
watched-Fits none w a l p h = absurd (omega arith)
watched-Fits (some e) w a l p h = ground arith

given_up-Fits :
    (e : Option SessionState) (w a l : ℕ)
    → 0 < w
    → Fits e w a l
    → Fits (finished e) (w - 1) a (l - count (cancels e))
unfolding count
given_up-Fits none w a l p h = absurd (omega arith)
given_up-Fits (some e) w a l p h = ground arith

answered-Fits :
    (e : Option SessionState) (w a l : ℕ)
    → 0 < a
    → Fits e w a l
    → Fits (finished e) w (a - 1) (l - count (cancels e))
unfolding count
answered-Fits none w a l p h = absurd (omega arith)
answered-Fits (some e) w a l p h = ground arith

abbrev pub IsCounted : State → Type 0
IsCounted s = (id : String) → Fits (Dict.get s.sessions id) (s.waiting id) (s.asking id) (s.live id)

module _ (id : String) (s : State) (h : IsCounted s) where
  arrive-IsCounted : (now : ℕ) → IsCounted (arrive id now s)
  unfolding arrive
  arrive-IsCounted now j = elim (Bool-cases (str_eq id j)) [
    | inl one ↦
        let same = (eq_iff id j).0 one in
        rw (get-begin, one, ← same)
          (begun-Fits now (Dict.get s.sessions id) (s.waiting id) (s.asking id) (s.live id) (h id))
    | inr other ↦ rw (get-begin, other) (h j)
  ]

  ask-IsCounted : 0 < s.waiting id → IsCounted (ask id s)
  unfolding ask
  ask-IsCounted p j = elim (Bool-cases (str_eq id j)) [
    | inl one ↦
        rw (get-ensure_watchdog, starts-ensure_watchdog, one)
          (watched-Fits (Dict.get s.sessions id) (s.waiting id) (s.asking id) (s.live id) p (h id))
    | inr other ↦ rw (get-ensure_watchdog, other) (h j)
  ]

  give_up-IsCounted : 0 < s.waiting id → IsCounted (give_up id s)
  unfolding give_up
  give_up-IsCounted p j = elim (Bool-cases (str_eq id j)) [
    | inl one ↦
        let same = (eq_iff id j).0 one in
        rw (get-done, cancels-done, one, ← same)
          (given_up-Fits (Dict.get s.sessions id) (s.waiting id) (s.asking id) (s.live id) p (h id))
    | inr other ↦ rw (get-done, other) (h j)
  ]

  answered-IsCounted : 0 < s.asking id → IsCounted (answered id s)
  unfolding answered
  answered-IsCounted p j = elim (Bool-cases (str_eq id j)) [
    | inl one ↦
        let same = (eq_iff id j).0 one in
        rw (get-done, cancels-done, one, ← same)
          (answered-Fits (Dict.get s.sessions id) (s.waiting id) (s.asking id) (s.live id) p (h id))
    | inr other ↦ rw (get-done, other) (h j)
  ]

ping_failed-Fits : (e : Option SessionState) (w a l : ℕ) → Fits e w a l → Fits e w a (l - 1)
ping_failed-Fits none w a l h = omega arith
ping_failed-Fits (some e) w a l h = ground arith

ping_failed-IsCounted : (id : String) (s : State) → IsCounted s → IsCounted (ping_failed id s)
unfolding ping_failed
ping_failed-IsCounted id s h j = elim (Bool-cases (str_eq id j)) [
  | inl one ↦
      let same = (eq_iff id j).0 one in
      rw (one, ← same)
        (ping_failed-Fits (Dict.get s.sessions id) (s.waiting id) (s.asking id) (s.live id) (h id))
  | inr other ↦ rw other (h j)
]

Step-IsCounted : {s t : State} → Step s t → IsCounted s → IsCounted t
Step-IsCounted (arrives id now s) h = arrive-IsCounted id s h now
Step-IsCounted (asks id s p) h = ask-IsCounted id s h p
Step-IsCounted (gives_up id s p) h = give_up-IsCounted id s h p
Step-IsCounted (is_answered id s p) h = answered-IsCounted id s h p
Step-IsCounted (ping_fails id s p) h = ping_failed-IsCounted id s h

initial-IsCounted : IsCounted initial
initial-IsCounted id = rw (get-empty {V = SessionState} id) (refl, refl, refl)

-- In every state that the calls can reach, however they interleave, each session's entry counts
-- exactly its calls in flight and is gone when there are none; a watchdog of the session runs
-- only while its entry holds a cancel function, and then no second one does; and the entry holds
-- one whenever an elicitation is past its wait. (The watchdog itself may have ended by then, after
-- a ping that failed. A watchdog that is cancelled counts as ended.)
pub Reach-IsCounted : {s : State} → Reach s → IsCounted s
Reach-IsCounted here = initial-IsCounted
Reach-IsCounted (next r step) = Step-IsCounted step (Reach-IsCounted r)

of_Fits :
    (e : Option SessionState) (w a l : ℕ)
    → Fits e w a l
    → (l ≤ 1)
      × (w ≡ 0 → a ≡ 0 → l ≡ 0)
      × (0 < w → l + count (starts e) ≡ (if watching e then l else 1))
unfolding count
of_Fits none w a l h = (omega arith, λ p q. omega arith, λ p. absurd (omega arith))
of_Fits (some e) w a l h = (ground arith, λ p q. ground arith, λ p. ground arith)

ask-live :
    (id : String) (s : State)
    → (ask id s).live id ≡ s.live id + count (starts (Dict.get s.sessions id))
unfolding ask
ask-live id s = rw (eq_refl id, starts-ensure_watchdog) refl

-- So a session has at most one watchdog that is neither cancelled nor ended by a failed ping, and
-- none when nothing of it is in flight; and an elicitation that gets past its wait leaves it with
-- one if its entry holds no cancel function, but starts none if it does, even after the watchdog
-- of the entry has ended.
pub Reach-silence :
    {s : State} (id : String)
    → Reach s
    → (s.live id ≤ 1)
      × (s.waiting id ≡ 0 → s.asking id ≡ 0 → s.live id ≡ 0)
      × (0 < s.waiting id
          → (ask id s).live id ≡ (if watching (Dict.get s.sessions id) then s.live id else 1))
Reach-silence {s} id r =
    let (one, silent, started) = of_Fits (Dict.get s.sessions id) _ _ _ (Reach-IsCounted r id) in
    (one, silent, λ p. ask-live id s ∙ started p)
