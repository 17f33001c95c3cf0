-- ===== src/Dispatch/Laws.antt =====
-- Which handler runs, and what a merged table holds.
use mathlib.Core.Path.{subst}
use rancher_ai_mcp.Prelude.{
  String, ◌≡◌, refl, ap, sym, Bool-cases, ◌∙◌, ◌↔◌, Bool, true, false, Option, none, some,
  Option-cases, inl, inr, List, [], ◌∷◌, Result, ok, err, if◌then◌else◌, str_eq, eq_iff, All,
}
use rancher_ai_mcp.Prelude.Dict
use rancher_ai_mcp.Prelude.Dict.{Dict, get-put}
use rancher_ai_mcp.Dispatch.{
  DispatchError, Case, merge_new, merge_into, add_missing, missing_fields, report, validate_case,
  run_case, dispatch_to, dispatch,
}

-- The call has the parameter, and its value is not zero.
abbrev pub HasField : Dict Bool → String → Type 0
HasField fields name = Dict.get fields name ≡ some false

add_missing_iff :
    (name : String) (o : Option Bool) (rest : Result DispatchError (List String))
    → (add_missing name o rest ≡ ok []) ↔ ((o ≡ some false) × (rest ≡ ok []))
unfolding add_missing
add_missing_iff name none rest = (λ h. cc, λ h. cc (h.0))
add_missing_iff name (some z) (err e) = (λ h. cc, λ h. cc (h.1))
add_missing_iff name (some true) (ok names) = (λ h. cc, λ h. cc (h.0))
add_missing_iff name (some false) (ok names) = (λ h. (refl, h), λ h. h.1)

missing_fields_iff :
    (fields : Dict Bool) (required : List String)
    → (missing_fields fields required ≡ ok []) ↔ All (HasField fields) required
unfolding missing_fields
missing_fields_iff fields [] = (λ h. tt, λ h. refl)
missing_fields_iff fields (name ∷ names) =
    let step = add_missing_iff name (Dict.get fields name) (missing_fields fields names) in
    let rest = missing_fields_iff fields names in
    (λ h. ((step.0 h).0, rest.0 (step.0 h).1), λ h. step.1 (h.0, rest.1 h.1))

report_iff : (r : Result DispatchError (List String)) → (report r ≡ ok tt) ↔ (r ≡ ok [])
unfolding report
report_iff (err e) = (λ h. cc, λ h. cc)
report_iff (ok []) = (λ h. refl, λ h. refl)
report_iff (ok (n ∷ ns)) = (λ h. cc, λ h. cc)

run_case_iff :
    {A : Type 0} (c : Case A) (r : Result DispatchError (Unit {0})) (a : A)
    → (run_case c r ≡ ok a) ↔ ((r ≡ ok tt) × (c.handler ≡ a))
unfolding run_case
run_case_iff c (err e) a = (λ h. cc, λ h. cc (h.0))
run_case_iff c (ok t) a = (λ h. (refl, cc h), λ h. ap ok h.1)

dispatch_to_iff :
    {A : Type 0} (fields : Dict Bool) (keys : List String) (o : Option (Case A)) (a : A)
    → (dispatch_to fields keys o ≡ ok a)
      ↔ ((c : Case A) × (o ≡ some c) × All (HasField fields) c.required × (c.handler ≡ a))
unfolding dispatch_to validate_case
dispatch_to_iff fields keys none a = (λ h. cc, λ h. cc (h.1))
dispatch_to_iff {A} fields keys (some c) a =
    let run = run_case_iff c (validate_case fields c.required) a in
    let reported = report_iff (missing_fields fields c.required) in
    let set = missing_fields_iff fields c.required in
    (
      λ h. (c, refl, set.0 (reported.0 (run.0 h).0), (run.0 h).1),
      λ h.
          let same : h.0 ≡ c = cc (h.1) in
          run.1 (
            reported.1 (set.1 (subst (λ (d : Case A). All (HasField fields) d.required) same h.2)),
            ap (λ (d : Case A). d.handler) (sym same) ∙ h.3,
          ),
    )

-- A dispatch runs a handler exactly if the table has a case for the key, all of the case's
-- required parameters are known and not zero, and the handler is that case's.
pub dispatch_iff :
    {A : Type 0} (sort : List String → List String) (key : String) (fields : Dict Bool)
    (cases : Dict (Case A)) (a : A)
    → (dispatch sort key fields cases ≡ ok a) ↔ (
        (c : Case A) × (Dict.get cases key ≡ some c)
        × All (HasField fields) c.required
        × (c.handler ≡ a))
unfolding dispatch
dispatch_iff sort key fields cases a = dispatch_to_iff fields _ (Dict.get cases key) a

-- The first of two answers that is there.
abbrev pub first_some {ℓ} : {A : Type ℓ} → Option A → Option A → Option A
first_some (some a) o = some a
first_some none o = o

module _ {A : Type 0} where
  merge_new-some :
      (o : Option (Case A)) (out : Dict (Case A)) (k : String) (v : Case A)
      (rest : Dict (Case A) → Option (Dict (Case A))) (merged : Dict (Case A))
      → merge_new o out k v rest ≡ some merged
      → (o ≡ none) × (rest (Dict.put k v out) ≡ some merged)
  unfolding merge_new
  merge_new-some (some dup) out k v rest merged h = cc
  merge_new-some none out k v rest merged h = (refl, h)

  merge_new-none :
      (o : Option (Case A)) (out : Dict (Case A)) (k : String) (v : Case A)
      (rest : Dict (Case A) → Option (Dict (Case A)))
      → rest (Dict.put k v out) ≡ none
      → merge_new o out k v rest ≡ none
  unfolding merge_new
  merge_new-none (some dup) out k v rest h = refl
  merge_new-none none out k v rest h = h

  first_some-put :
      (out : Dict (Case A)) (j k : String) (v : Case A) (o : Option (Case A))
      → Dict.get out j ≡ none
      → first_some (Dict.get (Dict.put j v out) k) o
        ≡ first_some (Dict.get out k) (if str_eq j k then some v else o)
  first_some-put out j k v o fresh = elim (Bool-cases (str_eq j k)) [
    | inl e ↦
        let absent : Dict.get out k ≡ none = ap (Dict.get out) (sym ((eq_iff j k).0 e)) ∙ fresh in
        rw (get-put j k v out, e, absent) refl
    | inr e ↦ rw (get-put j k v out, e) refl
  ]

  first_some-none :
      (out merged : Dict (Case A)) (k : String)
      → out ≡ merged
      → Dict.get merged k ≡ first_some (Dict.get out k) none
  first_some-none out merged k e = elim (Option-cases (Dict.get out k)) [
    | inl f ↦ rw (f, ← e, f) refl
    | inr (a, f) ↦ rw (f, ← e, f) refl
  ]

  -- If two tables merge, the merged one has each case of both, and no other.
  pub get-merge_into :
      (out m merged : Dict (Case A)) (k : String)
      → merge_into out m ≡ some merged
      → Dict.get merged k ≡ first_some (Dict.get out k) (Dict.get m k)
  unfolding merge_into Dict.get
  get-merge_into out [] merged k h = first_some-none out merged k (cc h)
  get-merge_into out ((j, v) ∷ m) merged k h =
      let (fresh, rest) = merge_new-some (Dict.get out j) out j v _ merged h in
      get-merge_into (Dict.put j v out) m merged k rest
      ∙ first_some-put out j k v (Dict.get m k) fresh

  -- If a key of the second table is in the first one, the merge panics.
  pub merge_into_duplicate :
      (out m : Dict (Case A)) (k : String) (c c' : Case A)
      → Dict.get out k ≡ some c
      → Dict.get m k ≡ some c'
      → merge_into out m ≡ none
  unfolding merge_into merge_new Dict.get
  merge_into_duplicate out [] k c c' there again = cc again
  merge_into_duplicate out ((j, v) ∷ m) k c c' there again = elim (Bool-cases (str_eq j k)) [
    | inl e ↦
        let dup : Dict.get out j ≡ some c = ap (Dict.get out) ((eq_iff j k).0 e) ∙ there in
        ap
          (λ (o : Option (Case A)).
            merge_new o out j v (λ (out' : Dict (Case A)). merge_into out' m))
          dup
    | inr e ↦ merge_new-none (Dict.get out j) out j v _ (
        merge_into_duplicate (Dict.put j v out) m k c c' (get-put j k v out ∙ rw e there)
          (rw e at again))
  ]
