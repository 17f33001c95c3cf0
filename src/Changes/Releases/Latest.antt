-- ===== src/Changes/Releases/Latest.antt =====
-- The latest of a list of releases.
use mathlib.Core.List.{Memᴰ}
use mathlib.Core.List.Memᴰ.{head, tail}
use rancher_ai_mcp.Prelude.{
  ℕ, ◌<◌, ◌≤◌, String, ◌≡◌, ◌≢◌, refl, ap, sym, ◌∙◌, ◌⊎◌, inl, inr, Bool, true, false, Bool-cases,
  Option, none, some, Option-cases, List, [], ◌∷◌, Result, ok, err, ok_injective, >>=-ok-inv,
  if◌then◌else◌, ltb, ltb→lt, str_eq, eq_iff, eq_refl, str_ne, contains, cut, All, arith,
}
use rancher_ai_mcp.Changes.Releases.{release_number, is_above, or_zero, latest_version}

-- No release of the list has a higher number.
abbrev pub IsBound : String → ℕ → List String → Type 0
IsBound split n versions =
    (v : String) → Memᴰ v versions → is_above n (release_number split v) ≡ false

-- The result is the best before, and nothing in the list is above it; or it is in the list, is
-- above the best before, and nothing in the list is above it.
pub data IsLatest (split best : String) (n : ℕ) (versions : List String) (result : String)
    : Type 0 where
  kept : result ≡ best → IsBound split n versions → IsLatest split best n versions result
  newer :
      (m : ℕ)
      → release_number split result ≡ some m
      → n < m
      → Memᴰ result versions
      → IsBound split m versions
      → IsLatest split best n versions result

above-number :
    (n : ℕ) (number : Option ℕ)
    → is_above n number ≡ true
    → (number ≡ some (or_zero number)) × (n < or_zero number)
unfolding is_above or_zero
above-number n none h = cc
above-number n (some m) h = (refl, ltb→lt n m h)

above_trans :
    (n m : ℕ) (number : Option ℕ) → n < m → is_above n number ≡ false → is_above m number ≡ false
unfolding is_above
above_trans n m none h e = refl
above_trans n m (some k) h e = ground arith

not_above_self : (number : Option ℕ) → is_above (or_zero number) number ≡ false
unfolding is_above or_zero
not_above_self none = refl
not_above_self (some n) = ground arith

IsBound-cons :
    (split v : String) (n : ℕ) (versions : List String)
    → is_above n (release_number split v) ≡ false
    → IsBound split n versions
    → IsBound split n (v ∷ versions)
IsBound-cons split v n versions low bound u (head e) = rw e low
IsBound-cons split v n versions low bound u (tail m) = bound u m

IsLatest-higher :
    (split best v result : String) (n : ℕ) (versions : List String)
    → is_above n (release_number split v) ≡ true
    → IsLatest split v (or_zero (release_number split v)) versions result
    → IsLatest split best n (v ∷ versions) result
IsLatest-higher split best v result n versions high (kept same bound) =
    let number = above-number n (release_number split v) high in
    newer (or_zero (release_number split v)) (ap (release_number split) same ∙ number.0) number.1
      (head same) (IsBound-cons split v _ versions (not_above_self (release_number split v)) bound)
IsLatest-higher split best v result n versions high (newer m number above member bound) =
    let lower = above-number n (release_number split v) high in
    newer m number (omega (arith, lower.1, above)) (tail member) (
      IsBound-cons split v m versions
        (above_trans (or_zero (release_number split v)) m (release_number split v) above
          (not_above_self (release_number split v)))
        bound)

IsLatest-lower :
    (split best v result : String) (n : ℕ) (versions : List String)
    → is_above n (release_number split v) ≡ false
    → IsLatest split best n versions result
    → IsLatest split best n (v ∷ versions) result
IsLatest-lower split best v result n versions low (kept same bound) =
    kept same (IsBound-cons split v n versions low bound)
IsLatest-lower split best v result n versions low (newer m number above member bound) =
    newer m number above (tail member)
      (IsBound-cons split v m versions (above_trans n m (release_number split v) above low) bound)

pub latest_version-IsLatest :
    (split best : String) (n : ℕ) (versions : List String)
    → IsLatest split best n versions (latest_version split best n versions)
unfolding latest_version release_number rancher_ai_mcp.Prelude.cut
latest_version-IsLatest split best n [] = kept refl (λ v m. elim m [ ])
latest_version-IsLatest split best n (v ∷ versions) =
    elim (Bool-cases (is_above n (release_number split v))) [
      | inl high ↦
          rw (high, latest_version)
            (IsLatest-higher split best v _ n versions high
              (latest_version-IsLatest split v (or_zero (release_number split v)) versions))
      | inr low ↦
          rw (low, latest_version)
            (IsLatest-lower split best v _ n versions low
              (latest_version-IsLatest split best n versions))
    ]
