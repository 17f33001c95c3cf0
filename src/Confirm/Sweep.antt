-- ===== src/Confirm/Sweep.antt =====
-- The table of consumed nonces under a sweep.
use rancher_ai_mcp.Prelude.{ℕ, ◌≤◌, String, ◌≡◌, refl, none, some, [], ◌∷◌, arith, All}
use rancher_ai_mcp.Prelude.Dict
use rancher_ai_mcp.Prelude.Dict.{Dict, get-put}
use rancher_ai_mcp.Confirm.{sweep}

module _ (now : ℕ) where
  -- What has not expired stays.
  pub get-sweep_live :
      (n : String) (m : Dict ℕ) (e : ℕ)
      → Dict.get m n ≡ some e
      → now ≤ e
      → Dict.get (sweep now m) n ≡ some e
  unfolding sweep Dict.get
  get-sweep_live n [] e h l = cc
  get-sweep_live n ((j, f) ∷ m) e h l = ground (arith, get-sweep_live n m e)

  -- A sweep adds nothing.
  pub get-sweep-none :
      (n : String) (m : Dict ℕ) → Dict.get m n ≡ none → Dict.get (sweep now m) n ≡ none
  unfolding sweep Dict.get
  get-sweep-none n [] h = refl
  get-sweep-none n ((j, f) ∷ m) h = ground (arith, get-sweep-none n m)

  -- No expired nonce is left.
  pub sweep-IsLive : (m : Dict ℕ) → All (λ entry. now ≤ entry.1) (sweep now m)
  unfolding sweep
  sweep-IsLive [] = tt
  sweep-IsLive ((j, f) ∷ m) = ground (arith, sweep-IsLive m)
