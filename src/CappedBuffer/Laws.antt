-- ===== src/CappedBuffer/Laws.antt =====
-- What the buffer holds after any writes (pkg/toolsets/core/exec_pod.go).
use rancher_ai_mcp.Prelude.{
  ℕ, ◌-◌, ◌≤◌, ◌<◌, min, zero, suc, ◌≡◌, refl, ap, ◌∙◌, true, false, List, [], ◌∷◌, ◌++◌, ltb,
  length, take, sym, All, lt→ltb, le→ltb, ltb→lt, length-append, length-take, arith, Bool-cases,
  inl, inr,
}
use mathlib.Core.List.{append_assoc, append-nil}
use rancher_ai_mcp.CappedBuffer.{CappedBuffer, empty, write, write_all}

pub flatten : List (List ℕ) → List ℕ
flatten [] = []
flatten (p ∷ ps) = p ++ flatten ps

take-all : (n : ℕ) (xs : List ℕ) → length xs ≤ n → take n xs ≡ xs
take-all zero [] h = refl
take-all zero (x ∷ xs) h = absurd (omega arith)
take-all (suc n) [] h = refl
take-all (suc n) (x ∷ xs) h = ap (λ (r : List ℕ). x ∷ r) (take-all n xs (omega arith))

take-append_short :
    (n : ℕ) (xs ys : List ℕ) → length xs ≤ n → take n (xs ++ ys) ≡ xs ++ take (n - length xs) ys
take-append_short n [] ys h = ap (λ k. take k ys) (omega arith)
take-append_short zero (x ∷ xs) ys h = absurd (omega arith)
take-append_short (suc n) (x ∷ xs) ys h =
    ap (λ (r : List ℕ). x ∷ r)
      (take-append_short n xs ys (omega arith) ∙ ap (λ k. xs ++ take k ys) (omega arith))

-- The buffer holds what fits of the bytes that came, and says whether any did not.
pub record Holds (c : CappedBuffer) (bytes : List ℕ) : Type 0 where
  pub kept : c.buf ≡ take c.limit bytes
  pub flag : c.truncated ≡ ltb c.limit (length bytes)

take-append_long : (n : ℕ) (xs ys : List ℕ) → n ≤ length xs → take n (xs ++ ys) ≡ take n xs
take-append_long zero xs ys h = refl
take-append_long (suc n) [] ys h = absurd (omega arith)
take-append_long (suc n) (x ∷ xs) ys h =
    ap (λ (r : List ℕ). x ∷ r) (take-append_long n xs ys (omega arith))

write_cut :
    (c : CappedBuffer) (p : List ℕ)
    → length c.buf < c.limit
    → c.limit - length c.buf < length p
    → (write p c).0 ≡ record c { buf = c.buf ++ take (c.limit - length c.buf) p; truncated = true }
unfolding write
write_cut c p room cut = rw (lt→ltb 0 (c.limit - length c.buf) (omega arith), lt→ltb _ _ cut)

write_fits :
    (c : CappedBuffer) (p : List ℕ)
    → length c.buf < c.limit
    → length p ≤ c.limit - length c.buf
    → (write p c).0 ≡ record c { buf = c.buf ++ p }
unfolding write
write_fits c p room fits = rw (lt→ltb 0 (c.limit - length c.buf) (omega arith), le→ltb _ _ fits)

write_none :
    (c : CappedBuffer) (p : List ℕ)
    → c.limit ≤ length c.buf
    → (write p c).0 ≡ record c { truncated = true }
unfolding write
write_none c p full = rw (le→ltb 0 (c.limit - length c.buf) (omega arith))

length-kept :
    (c : CappedBuffer) (bytes : List ℕ) → Holds c bytes → length c.buf ≡ min c.limit (length bytes)
length-kept c bytes h = ap (λ (l : List ℕ). length l) h.kept ∙ length-take c.limit bytes

take-nil : (n : ℕ) → [] ≡ take {A = ℕ} n []
take-nil zero = refl
take-nil (suc n) = refl

limit-write : (c : CappedBuffer) (p : List ℕ) → (write p c).0.limit ≡ c.limit
unfolding write
limit-write c p = ground arith

limit-write_all : (ps : List (List ℕ)) (c : CappedBuffer) → (write_all ps c).limit ≡ c.limit
unfolding write_all
limit-write_all [] c = refl
limit-write_all (p ∷ ps) c = limit-write_all ps (write p c).0 ∙ limit-write c p

fits_total :
    (c : CappedBuffer) (bytes p : List ℕ)
    → length bytes < c.limit
    → c.buf ≡ bytes
    → ltb (c.limit - length c.buf) (length p) ≡ false
    → length (bytes ++ p) ≤ c.limit
fits_total c bytes p short whole fits =
    let room : length p ≤ c.limit - length c.buf = ground arith in
    omega (arith, length-append bytes p, ap (λ (l : List ℕ). length l) whole)

-- There was room: nothing has been cut so far.
write_room :
    (c : CappedBuffer) (bytes p : List ℕ)
    → length c.buf < c.limit
    → Holds c bytes
    → Holds (write p c).0 (bytes ++ p)
write_room c bytes p room h =
    let short : length bytes < c.limit = omega (arith, length-kept c bytes h) in
    let whole : c.buf ≡ bytes = h.kept ∙ take-all c.limit bytes (omega arith) in
    let cut = take-append_short c.limit bytes p (omega arith) in
    let small : ltb (c.limit - length c.buf) (length p) ≡ false → length (bytes ++ p) ≤ c.limit =
      λ fits. fits_total c bytes p short whole fits in
    elim (Bool-cases (ltb (c.limit - length c.buf) (length p))) [
      | inl over ↦ rw (write_cut c p room (ltb→lt _ _ over)) (record {
        kept = rw (whole, cut) refl;
        flag = sym (
            lt→ltb _ _ (
              omega (
                arith,
                length-append bytes p,
                ap (λ (l : List ℕ). length l) whole,
                ltb→lt _ _ over,
              )));
      })
      | inr fits ↦ rw (write_fits c p room (ground arith)) (record {
        kept = rw (whole, take-all c.limit (bytes ++ p) (small fits)) refl;
        flag = h.flag ∙ le→ltb _ _ (omega arith) ∙ sym (le→ltb _ _ (small fits));
      })
    ]

-- There was no room: the bytes are dropped.
write_full :
    (c : CappedBuffer) (bytes p : List ℕ)
    → c.limit ≤ length c.buf
    → 0 < length p
    → Holds c bytes
    → Holds (write p c).0 (bytes ++ p)
write_full c bytes p full some h =
    let long : c.limit ≤ length bytes = omega (arith, length-kept c bytes h) in
    rw (write_none c p full) (record {
      kept = rw (take-append_long c.limit bytes p long) h.kept;
      flag = sym (lt→ltb _ _ (omega (arith, length-append bytes p)));
    })

write-Holds :
    (c : CappedBuffer) (bytes p : List ℕ)
    → 0 < length p
    → Holds c bytes
    → Holds (write p c).0 (bytes ++ p)
write-Holds c bytes p some h = elim (Bool-cases (ltb (length c.buf) c.limit)) [
  | inl room ↦ write_room c bytes p (ltb→lt _ _ room) h
  | inr full ↦ write_full c bytes p (ground arith) some h
]

write_all-Holds :
    (ps : List (List ℕ)) (c : CappedBuffer) (bytes : List ℕ)
    → All (λ p. 0 < length p) ps
    → Holds c bytes
    → Holds (write_all ps c) (bytes ++ flatten ps)
unfolding write_all flatten
write_all-Holds [] c bytes some h = rw (append-nil bytes) h
write_all-Holds (p ∷ ps) c bytes (one, some) h =
    rw (← append_assoc bytes p (flatten ps))
      (write_all-Holds ps (write p c).0 (bytes ++ p) some (write-Holds c bytes p one h))

-- However the output is cut into non-empty writes, the buffer holds its first `limit` bytes and
-- no other, and `truncated` is set exactly if there were more.
pub capped :
    (limit : ℕ) (ps : List (List ℕ))
    → All (λ p. 0 < length p) ps
    → ((write_all ps (empty limit)).buf ≡ take limit (flatten ps))
      × ((write_all ps (empty limit)).truncated ≡ ltb limit (length (flatten ps)))
capped limit ps some =
    let h =
      write_all-Holds ps (empty limit) [] some
        (record { kept = take-nil limit; flag = sym (le→ltb limit 0 (omega arith)) }) in
    (
      h.kept ∙ ap (λ n. take n (flatten ps)) (limit-write_all ps (empty limit)),
      h.flag ∙ ap (λ n. ltb n (length (flatten ps))) (limit-write_all ps (empty limit)),
    )
