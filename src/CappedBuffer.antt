-- ===== src/CappedBuffer.antt =====
-- pkg/toolsets/core/exec_pod.go: the buffer that keeps a command's output below a limit.
-- Bytes are numbers. `limit - Len()` is a signed `int` in the source; the buffer is never longer
-- than its limit, and only a positive difference is used.
pub mod Laws
mod Tests
use rancher_ai_mcp.Prelude.{
  ℕ, ◌-◌, Bool, true, false, List, [], ◌∷◌, ◌++◌, if◌then◌else◌, ltb, length, take,
}

pub record CappedBuffer : Type 0 where
  pub buf : List ℕ
  pub limit : ℕ
  pub truncated : Bool

abbrev pub empty : ℕ → CappedBuffer
empty limit = record { buf = []; limit = limit; truncated = false }

-- `Write`: the new buffer and the count that it reports.
pub write : List ℕ → CappedBuffer → CappedBuffer × ℕ
write p c =
    let remaining = c.limit - length c.buf in
    if ltb 0 remaining
    then (if ltb remaining (length p)
        then (record c { buf = c.buf ++ take remaining p; truncated = true }, length p)
        else (record c { buf = c.buf ++ p }, length p))
    else (record c { truncated = true }, length p)

-- A stream of writes.
pub write_all : List (List ℕ) → CappedBuffer → CappedBuffer
write_all [] c = c
write_all (p ∷ ps) c = write_all ps (write p c).0
