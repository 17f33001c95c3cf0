-- ===== src/Prelude/Text.antt =====
-- The equality test on native strings, and Go's `strings` operations on them.
use Prim.Native.String.{String, len, slice, find, ◌++◌}
use Prim.Native.Nat.{◌+◌, ◌<◌, compare}
use mathlib.Core.Option.{Option, none, some}
use mathlib.Core.Bool.{Bool, true, false}
use mathlib.Core.Logic.{◌≢◌, inl, inr}
use native.Mathlib.Omega.{arith}
use text.Mathlib.TextEquality.{eq_iff, starts_with_iff}
use rancher_ai_mcp.Prelude.Tests.{Bool-cases}
use text.Mathlib.Text.{is_le, ◌==◌, starts_with}
use text.Mathlib.TextPositions.{slice-append_right, len-append, starts_with-append}
use mathlib.Core.Path.{sym, subst, ◌≡◌, ap, ◌∙◌}

abbrev pub str_eq : String → String → Bool
str_eq a b = a == b

-- `a + b`
abbrev pub concat : String → String → String
concat a b = a ++ b

-- `strings.HasPrefix`
abbrev pub has_prefix : String → String → Bool
has_prefix s prefix = starts_with s prefix

-- `strings.Contains`
unfoldable pub contains : String → String → Bool
contains s t = is_le (compare (find s t) (len s))

-- `strings.Cut`: what stands before and after the first occurrence
unfoldable pub cut : String → String → Option (String × String)
cut s t = elim (is_le (compare (find s t) (len s))) [
  | true ↦ some (slice s 0 (find s t), slice s (find s t + len t) (len s))
  | false ↦ none
]

cut_prefix : Bool → String → String → String
cut_prefix true s prefix = slice s (len prefix) (len s)
cut_prefix false s prefix = s

-- `strings.TrimPrefix`
unfoldable pub trim_prefix : String → String → String
unfolding cut_prefix
trim_prefix s prefix = cut_prefix (starts_with s prefix) s prefix

pub trim_prefix-concat : (prefix s : String) → trim_prefix (concat prefix s) prefix ≡ s
unfolding trim_prefix cut_prefix
trim_prefix-concat prefix s =
    ap (λ b. cut_prefix b (concat prefix s) prefix) (starts_with-append prefix s)
    ∙ ap (slice (concat prefix s) (len prefix)) (len-append prefix s)
    ∙ slice-append_right prefix s

-- A prefix that is trimmed stood there.
pub trim_prefix-inv :
    (s prefix : String) → trim_prefix s prefix ≢ s → concat prefix (trim_prefix s prefix) ≡ s
unfolding trim_prefix cut_prefix
trim_prefix-inv s prefix h = elim (Bool-cases (starts_with s prefix)) [
  | inl e ↦
      let stood = (starts_with_iff s prefix).0 e in
      subst (λ (w : String). concat prefix (trim_prefix w prefix) ≡ w) stood.1
        (ap (concat prefix) (trim_prefix-concat prefix stood.0))
  | inr e ↦ elim (h (ap (λ b. cut_prefix b s prefix) e)) [ ]
]

pub str_ne : (s t : String) → str_eq s t ≡ false → s ≢ t
str_ne s t h e = cc ((eq_iff s t).1 e, h)

pub ne-str_eq : (s t : String) → s ≢ t → str_eq s t ≡ false
ne-str_eq s t h = elim (Bool-cases (str_eq s t)) [
  | inl e ↦ elim (h ((eq_iff s t).0 e)) [ ]
  | inr e ↦ e
]

-- A text with more in front is another text, and is not empty.
pub concat-longer : (prefix s : String) → 0 < len prefix → str_eq s (concat prefix s) ≡ false
concat-longer prefix s h =
    ne-str_eq s (concat prefix s)
      (λ e. let same : len s ≡ len prefix + len s = ap len e ∙ len-append prefix s in omega arith)

pub concat-filled : (prefix s : String) → 0 < len prefix → str_eq (concat prefix s) "" ≡ false
concat-filled prefix s h =
    ne-str_eq (concat prefix s) ""
      (λ e. let same : len prefix + len s ≡ 0 = sym (len-append prefix s) ∙ ap len e in omega arith)
