-- ===== src/Dispatch/Every.antt =====
-- Properties of every handler of a table, through the union of tables.
use mathlib.Core.Path.{subst}
use rancher_ai_mcp.Prelude.{
  String, ◌≡◌, sym, ◌∙◌, inl, inr, Bool, Bool-cases, some, Option-cases, List, [], ◌∷◌, ok, All,
  str_eq, eq_iff,
}
use rancher_ai_mcp.Prelude.Dict
use rancher_ai_mcp.Prelude.Dict.{Dict, get-empty}
use rancher_ai_mcp.Dispatch.{Case, merge_into, merge_all, merge_maps, dispatch}
use rancher_ai_mcp.Dispatch.Laws.{get-merge_into, dispatch_iff}

module _ {A : Type 0} (P : String → A → Type 0) where
  -- Each case that the table has holds.
  abbrev pub AllCases : Dict (Case A) → Type 0
  AllCases m = (k : String) (c : Case A) → Dict.get m k ≡ some c → P k c.handler

  pub AllCases-nil : AllCases []
  AllCases-nil k c h = cc (get-empty {0} {V = Case A} k, h)

  pub AllCases-cons :
      (k : String) (c : Case A) (m : Dict (Case A))
      → P k c.handler
      → AllCases m
      → AllCases ((k, c) ∷ m)
  unfolding Dict.get
  AllCases-cons k c m p rest j d h = elim (Bool-cases (str_eq k j)) [
    | inl e ↦
        let same : c ≡ d = cc (rw e at h) in
        subst (λ (c' : Case A). P j c'.handler) same
          (subst (λ (j' : String). P j' c.handler) ((eq_iff k j).0 e) p)
    | inr e ↦ rest j d (rw e at h)
  ]

  AllCases-merge_into :
      (out m merged : Dict (Case A))
      → merge_into out m ≡ some merged
      → AllCases out
      → AllCases m
      → AllCases merged
  AllCases-merge_into out m merged e all_out all_m k c h =
      let split = sym (get-merge_into out m merged k e) ∙ h in
      elim (Option-cases (Dict.get out k)) [
        | inl absent ↦ all_m k c (rw absent at split)
        | inr (d, found) ↦ all_out k c (found ∙ rw found at split)
      ]

  AllCases-merge_all :
      (out : Dict (Case A)) (ms : List (Dict (Case A))) (merged : Dict (Case A))
      → merge_all out ms ≡ some merged
      → AllCases out
      → All AllCases ms
      → AllCases merged
  unfolding merge_all
  AllCases-merge_all out [] merged e all_out all_ms = subst AllCases (cc e) all_out
  AllCases-merge_all out (m ∷ ms) merged e all_out (all_m, all_ms) =
      elim (Option-cases (merge_into out m)) [
        | inl none_merged ↦ cc (rw (none_merged, merge_all) at e)
        | inr (out', merging) ↦
            AllCases-merge_all out' ms merged (rw (merging, merge_all) at e)
              (AllCases-merge_into out m out' merging all_out all_m) all_ms
      ]

  -- What holds of each case of some tables holds of each case of their union.
  pub AllCases-merge_maps :
      (ms : List (Dict (Case A))) (merged : Dict (Case A))
      → merge_maps ms ≡ some merged
      → All AllCases ms
      → AllCases merged
  unfolding merge_maps
  AllCases-merge_maps ms merged e all_ms = AllCases-merge_all [] ms merged e AllCases-nil all_ms

  -- The handler that a dispatch runs is that of a case for the key.
  pub AllCases-dispatch :
      (sort : List String → List String) (key : String) (fields : Dict Bool) (m : Dict (Case A))
      (handler : A)
      → AllCases m
      → dispatch sort key fields m ≡ ok handler
      → P key handler
  AllCases-dispatch sort key fields m handler all_m h =
      let ran = (dispatch_iff sort key fields m handler).0 h in
      subst (P key) ran.3 (all_m key ran.0 ran.1)
