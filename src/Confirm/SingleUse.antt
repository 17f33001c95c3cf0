-- ===== src/Confirm/SingleUse.antt =====
-- A token that was accepted once is spent: pkg/confirm/confirm.go over a sequence of calls.
use rancher_ai_mcp.Prelude.{
  ℕ, ◌≤◌, ◌<◌, ◌≡◌, ◌≢◌, refl, ap, ◌∙◌, ◌⊎◌, Bool-cases, Option-cases, inl, inr, true, none, some,
  List, [], ◌∷◌, arith, eq_iff, ltb, lt→ltb, Result, ok, err, >>=-ok-inv,
}
use rancher_ai_mcp.Prelude.Dict
use rancher_ai_mcp.Prelude.Dict.{Dict, get-put, get-remove}
use rancher_ai_mcp.Confirm.{
  Bytes, Error, Operation, TokenBody, Codec, Gate, unix, open_token, matches, validate, check_token,
  sweep, record_nonce, consume, require_token, token_consumed,
}
use rancher_ai_mcp.Confirm.Sweep.{get-sweep_live, get-sweep-none}

-- One call of `RequireToken` with the two clock readings that it makes.
pub record Call : Type 0 where
  pub op : Operation
  pub token : Bytes
  pub now : ℕ
  pub now' : ℕ

-- The clock does not go back: not below `t`, not within a call, not from call to call.
abbrev pub IsLater : ℕ → List Call → Type 0
IsLater t [] = Unit
IsLater t (c ∷ cs) = (t ≤ c.now) × (c.now ≤ c.now') × IsLater c.now' cs

-- The last reading of the clock.
abbrev pub end_of : ℕ → List Call → ℕ
end_of t [] = t
end_of t (c ∷ cs) = end_of c.now' cs

-- A body that can never be accepted again, from time `t` on.
abbrev IsSpent : Gate → TokenBody → ℕ → Type 0
IsSpent g body t = (Dict.get g.consumed body.nonce ≡ some body.expiry) ⊎ (body.expiry < unix t)

module _ (codec : Codec) where
  abbrev pub call : Gate → Call → Gate × Result Error (Unit {0})
  call g c = require_token codec g c.op c.token c.now c.now'

  -- The gate after a sequence of calls, accepted or refused.
  unfoldable pub run : Gate → List Call → Gate
  run g [] = g
  run g (c ∷ cs) = run (call g c).0 cs

  validate-eq-ok :
      (other : TokenBody) (op : Operation) (now : ℕ) (body : TokenBody)
      → validate codec other op now ≡ ok body
      → (other ≡ body) × (unix now ≤ other.expiry) × (matches codec other op ≡ true)
  unfolding validate
  validate-eq-ok other op now body h = ground arith

  pub check_token-opened :
      (g : Gate) (c : Call) (body : TokenBody)
      → check_token codec g c.op c.token c.now ≡ ok body
      → (open_token codec g.key c.token ≡ ok body)
        × (unix c.now ≤ body.expiry)
        × (matches codec body c.op ≡ true)
  unfolding check_token
  check_token-opened g c body h =
      let (other, opened, rest) = >>=-ok-inv (open_token codec g.key c.token) _ h in
      let (same, live, fits) = validate-eq-ok other c.op c.now body rest in
      (opened ∙ ap ok same, rw (← same) live, rw (← same) fits)

module _ (g : Gate) (body other : TokenBody) (t now : ℕ) (later : t ≤ now) where
  -- The other body has the same nonce, whose entry is there, or it has another nonce.
  record_nonce-IsSpent :
      Dict.get g.consumed other.nonce ≡ none
      → IsSpent g body t
      → IsSpent (record_nonce other now g) body now
  unfolding record_nonce
  record_nonce-IsSpent fresh (inr expired) = inr (omega arith)
  record_nonce-IsSpent fresh (inl used) = elim (Bool-cases (ltb body.expiry (unix now))) [
    | inl expired ↦ inr (ground arith)
    | inr live ↦ inl (
        get-sweep_live (unix now) body.nonce (Dict.put other.nonce other.expiry g.consumed)
          body.expiry
          (ground (
            arith,
            get-put other.nonce body.nonce other.expiry g.consumed,
            eq_iff other.nonce body.nonce,
          ))
          (ground arith))
  ]

  consume-IsSpent : IsSpent g body t → IsSpent (consume g other now).0 body now
  unfolding consume
  consume-IsSpent h = elim (Option-cases (Dict.get g.consumed other.nonce)) [
    | inl fresh ↦ rw (fresh, consume) (record_nonce-IsSpent fresh h)
    | inr (used, e) ↦ rw (e, consume) (elim h [ inl a ↦ inl a | inr b ↦ inr (omega arith) ])
  ]

spends_fresh : (g : Gate) (body : TokenBody) (now : ℕ) → IsSpent (record_nonce body now g) body now
unfolding record_nonce
spends_fresh g body now = elim (Bool-cases (ltb body.expiry (unix now))) [
  | inl expired ↦ inr (ground arith)
  | inr live ↦ inl (
      get-sweep_live (unix now) body.nonce (Dict.put body.nonce body.expiry g.consumed) body.expiry
        (ground (
          arith,
          get-put body.nonce body.nonce body.expiry g.consumed,
          eq_iff body.nonce body.nonce,
        ))
        (ground arith))
]

-- A call that is accepted spends the body that it accepted.
consume-spends :
    (g : Gate) (body : TokenBody) (now : ℕ)
    → (consume g body now).1 ≡ ok tt
    → IsSpent (consume g body now).0 body now
unfolding consume
consume-spends g body now h = elim (Option-cases (Dict.get g.consumed body.nonce)) [
  | inl fresh ↦ rw (fresh, consume) (spends_fresh g body now)
  | inr (used, e) ↦ cc (rw (e, consume) at h)
]

-- A spent body is refused.
consume-refuses :
    (g : Gate) (body : TokenBody) (t now : ℕ)
    → IsSpent g body t
    → t ≤ now
    → unix now ≤ body.expiry
    → (now' : ℕ) → (consume g body now').1 ≡ err token_consumed
unfolding consume
consume-refuses g body t now (inl used) l live now' = rw (used, consume)
consume-refuses g body t now (inr expired) l live now' = absurd (omega arith)

key-consume : (g : Gate) (body : TokenBody) (now : ℕ) → (consume g body now).0.key ≡ g.key
unfolding consume record_nonce
key-consume g body now = elim (Option-cases (Dict.get g.consumed body.nonce)) [
  | inl fresh ↦ rw (fresh, consume)
  | inr (used, e) ↦ rw (e, consume)
]

module _ (codec : Codec) where
  Result-cases :
      (r : Result Error TokenBody) → ((e : Error) × (r ≡ err e)) ⊎ ((b : TokenBody) × (r ≡ ok b))
  Result-cases (ok b) = inr (b, refl)
  Result-cases (err e) = inl (e, refl)

  call-IsSpent :
      (g : Gate) (c : Call) (body : TokenBody) (t : ℕ)
      → t ≤ c.now
      → c.now ≤ c.now'
      → IsSpent g body t
      → IsSpent (call codec g c).0 body c.now'
  unfolding require_token
  call-IsSpent g c body t l l' h = elim (Result-cases (check_token codec g c.op c.token c.now)) [
    | inl (e, refused) ↦
        rw (refused, require_token) (elim h [ inl a ↦ inl a | inr b ↦ inr (omega arith) ])
    | inr (other, checked) ↦
        rw (checked, require_token) (consume-IsSpent g body other t c.now' (omega arith) h)
  ]

  key-call : (g : Gate) (c : Call) → (call codec g c).0.key ≡ g.key
  unfolding require_token
  key-call g c = elim (Result-cases (check_token codec g c.op c.token c.now)) [
    | inl (e, refused) ↦ rw (refused, require_token)
    | inr (other, checked) ↦ rw (checked, require_token) (key-consume g other c.now')
  ]

  run-IsSpent :
      (g : Gate) (cs : List Call) (body : TokenBody) (t : ℕ)
      → IsLater t cs
      → IsSpent g body t
      → IsSpent (run codec g cs) body (end_of t cs)
  unfolding run
  run-IsSpent g [] body t l h = h
  run-IsSpent g (c ∷ cs) body t (l, l', ls) h =
      run-IsSpent (call codec g c).0 cs body c.now' ls (call-IsSpent g c body t l l' h)

  key-run : (g : Gate) (cs : List Call) → (run codec g cs).key ≡ g.key
  unfolding run
  key-run g [] = refl
  key-run g (c ∷ cs) = key-run (call codec g c).0 cs ∙ key-call g c

  pub accepted_body :
      (g : Gate) (c : Call)
      → (call codec g c).1 ≡ ok tt
      → (body : TokenBody) × (check_token codec g c.op c.token c.now ≡ ok body)
        × IsSpent (call codec g c).0 body c.now'
  unfolding require_token
  accepted_body g c h = elim (Result-cases (check_token codec g c.op c.token c.now)) [
    | inl (e, refused) ↦ cc (rw (refused, require_token) at h)
    | inr (body, checked) ↦ (
      body,
      checked,
      rw (checked, require_token) (consume-spends g body c.now' (rw (checked, require_token) at h)),
    )
  ]

  -- Once `RequireToken` has accepted a token, it never accepts it again: not after any later
  -- calls, for no operation, and not in another encoding of the same signed body, as long as
  -- the calls run one after another and the clock does not go back.
  pub single_use :
      (g : Gate) (c d : Call) (cs : List Call)
      → (call codec g c).1 ≡ ok tt
      → IsLater c.now' cs
      → end_of c.now' cs ≤ d.now
      → open_token codec g.key d.token ≡ open_token codec g.key c.token
      → (call codec (run codec (call codec g c).0 cs) d).1 ≢ ok tt
  unfolding require_token
  single_use g c d cs accepted later l same again =
      let (body, checked, spent) = accepted_body g c accepted in
      let g' = run codec (call codec g c).0 cs in
      let (reused, checked', _) = accepted_body g' d again in
      let (opened, _, _) = check_token-opened codec g c body checked in
      let (opened', live, _) = check_token-opened codec g' d reused checked' in
      let key : g'.key ≡ g.key = key-run (call codec g c).0 cs ∙ key-call g c in
      let one : reused ≡ body =
        cc (opened, same, ap (λ k. open_token codec k d.token) key, opened') in
      let refused =
        consume-refuses g' reused (end_of c.now' cs) d.now
          (rw one (run-IsSpent (call codec g c).0 cs body c.now' later spent)) l live d.now' in
      cc (refused, rw (checked', require_token) at again)

pub consume_fresh :
    (g : Gate) (body : TokenBody) (now : ℕ)
    → Dict.get g.consumed body.nonce ≡ none
    → consume g body now ≡ (record_nonce body now g, ok tt)
unfolding consume
consume_fresh g body now fresh = rw (fresh, consume)

record_nonce_expired :
    (g : Gate) (body : TokenBody) (now : ℕ)
    → body.expiry < unix now
    → Dict.get (record_nonce body now g).consumed body.nonce ≡ none
unfolding record_nonce sweep Dict.put
record_nonce_expired g body now late =
    let removed =
      get-sweep-none (unix now) body.nonce (Dict.remove body.nonce g.consumed) (
        ground
          (arith, get-remove body.nonce body.nonce g.consumed, eq_iff body.nonce body.nonce)) in
    rw (lt→ltb _ _ late) removed

-- The clock's reading under the lock may lie past the expiry that was checked before it. Then
-- the sweep drops the nonce that was just recorded, and a second call that had passed the same
-- checks meanwhile is accepted too: between concurrent calls a token is not single-use.
pub double_use :
    (codec : Codec) (g : Gate) (c d : Call) (body : TokenBody)
    → check_token codec g c.op c.token c.now ≡ ok body
    → check_token codec g d.op d.token d.now ≡ ok body
    → Dict.get g.consumed body.nonce ≡ none
    → body.expiry < unix c.now'
    → ((consume g body c.now').1 ≡ ok tt)
      × ((consume (consume g body c.now').0 body d.now').1 ≡ ok tt)
double_use codec g c d body first second fresh late =
    let one = consume_fresh g body c.now' fresh in
    let again =
      consume_fresh (record_nonce body c.now' g) body d.now'
        (record_nonce_expired g body c.now' late) in
    (rw one refl, rw (one, again) refl)
