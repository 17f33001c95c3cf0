-- ===== src/Prelude/Results.antt =====
-- Go's `(value, error)` pairs: a value, or an error of the component's own type.
use mathlib.Core.Path.{◌≡◌, refl}
use mathlib.Core.Logic.{◌⊎◌, inl, inr}
use mathlib.Core.Bool.{Bool, true, false}
use rancher_ai_mcp.Prelude.Tests.{if◌then◌else◌}

pub data Result {ℓ} (E A : Type ℓ) : Type ℓ where
  err : E → Result E A
  ok : A → Result E A

-- `if !b { return failure }`
abbrev pub refuse_unless : {E : Type 0} → Bool → E → Result E (Unit {0})
refuse_unless false failure = err failure
refuse_unless true failure = ok tt

infixl 5 ◌>>◌
abbrev pub ◌>>◌ {ℓ} : {E B : Type ℓ} → Result E (Unit {ℓ}) → Result E B → Result E B
err failure >> last = err failure
ok done >> last = last

module _ {ℓ} {E A B : Type ℓ} where
  infixl 5 ◌>>=◌
  -- `v, err := first; if err != nil { return err }; next(v)`
  abbrev pub ◌>>=◌ : Result E A → (A → Result E B) → Result E B
  err failure >>= next = err failure
  ok value >>= next = next value

  -- A sequence that returned a value went through its first step.
  pub >>=-ok-inv :
      (first : Result E A) (next : A → Result E B) {last : B}
      → (first >>= next) ≡ ok last
      → (value : A) × (first ≡ ok value) × (next value ≡ ok last)
  >>=-ok-inv (err failure) next sent = cc
  >>=-ok-inv (ok value) next sent = (value, refl, sent)

pub Result-cases {ℓ} :
    {E A : Type ℓ} (r : Result E A) → ((e : E) × (r ≡ err e)) ⊎ ((a : A) × (r ≡ ok a))
Result-cases (err e) = inl (e, refl)
Result-cases (ok a) = inr (a, refl)

-- A sequence that returned a value passed the test it began with.
pub refuse_unless-inv :
    {E A : Type 0} (b : Bool) (failure : E) (last : Result E A) (value : A)
    → (refuse_unless b failure >> last) ≡ ok value
    → (b ≡ true) × (last ≡ ok value)
refuse_unless-inv false failure last value h = cc
refuse_unless-inv true failure last value h = (refl, h)

-- A test that returned its failure was not met where a value was returned.
pub refuse_if-inv :
    {E A : Type 0} (b : Bool) (failure : E) (last : Result E A) (value : A)
    → (if b then err failure else last) ≡ ok value
    → (b ≡ false) × (last ≡ ok value)
refuse_if-inv true failure last value h = cc
refuse_if-inv false failure last value h = (refl, h)

pub ok_injective : {E A : Type 0} {a b : A} → ◌≡◌ {A = Result E A} (ok a) (ok b) → a ≡ b
ok_injective h = cc
