-- ===== src/Dispatch.antt =====
-- pkg/toolsets/dispatch: the tables that map an enum value to its handler, and the check of the
-- required parameters. The parameters of a call are given by their JSON names, each with whether
-- its value is zero (`reflect`); a table is the order in which Go happens to walk the map. A
-- panic of `MergeMaps` is `none`.
pub mod Laws
pub mod Every
mod Tests
use rancher_ai_mcp.Prelude.{
  String, Bool, true, false, Option, none, some, List, [], ◌∷◌, map, Result, ok, err, if◌then◌else◌,
  is_empty,
}
use rancher_ai_mcp.Prelude.Dict
use rancher_ai_mcp.Prelude.Dict.{Dict}

pub data DispatchError : Type 0 where
  -- the valid values
  unknown_value : List String → DispatchError
  unknown_required_field : String → DispatchError
  missing : List String → DispatchError

pub record Case (A : Type 0) : Type 0 where
  pub required : List String
  pub handler : A

module _ {A : Type 0} where
  merge_new :
      Option (Case A)
      → Dict (Case A)
      → String
      → Case A
      → (Dict (Case A) → Option (Dict (Case A)))
      → Option (Dict (Case A))
  merge_new (some dup) out k v rest = none
  merge_new none out k v rest = rest (Dict.put k v out)

  pub merge_into : Dict (Case A) → Dict (Case A) → Option (Dict (Case A))
  unfolding merge_new
  merge_into out [] = some out
  merge_into out ((k, v) ∷ m) =
      merge_new (Dict.get out k) out k v (λ (out' : Dict (Case A)). merge_into out' m)

  pub merge_all : Dict (Case A) → List (Dict (Case A)) → Option (Dict (Case A))
  unfolding merge_into
  merge_all out [] = some out
  merge_all out (m ∷ ms) = elim (merge_into out m) [ none ↦ none | some out' ↦ merge_all out' ms ]

  -- `MergeMaps`
  unfoldable pub merge_maps : List (Dict (Case A)) → Option (Dict (Case A))
  unfolding merge_all
  merge_maps ms = merge_all [] ms

add_missing :
    String → Option Bool → Result DispatchError (List String) → Result DispatchError (List String)
add_missing name none rest = err (unknown_required_field name)
add_missing name (some zero_value) (err e) = err e
add_missing name (some zero_value) (ok names) = ok (if zero_value then name ∷ names else names)

-- The loop over the required names.
pub missing_fields : Dict Bool → List String → Result DispatchError (List String)
unfolding add_missing
missing_fields fields [] = ok []
missing_fields fields (name ∷ names) =
    add_missing name (Dict.get fields name) (missing_fields fields names)

report : Result DispatchError (List String) → Result DispatchError (Unit {0})
report (err e) = err e
report (ok []) = ok tt
report (ok (name ∷ names)) = err (missing (name ∷ names))

-- `Validate`
pub validate_case : Dict Bool → List String → Result DispatchError (Unit {0})
unfolding report missing_fields
validate_case fields required = report (missing_fields fields required)

run_case : {A : Type 0} → Case A → Result DispatchError (Unit {0}) → Result DispatchError A
run_case c (err e) = err e
run_case c (ok _) = ok c.handler

dispatch_to : {A : Type 0} → Dict Bool → List String → Option (Case A) → Result DispatchError A
unfolding run_case validate_case
dispatch_to fields keys none = err (unknown_value keys)
dispatch_to fields keys (some c) = run_case c (validate_case fields c.required)

-- `Dispatch`, with `sort.Strings` given; a handler that runs is the result.
pub dispatch :
    {A : Type 0}
    → (List String → List String)
    → String
    → Dict Bool
    → Dict (Case A)
    → Result DispatchError A
unfolding dispatch_to
dispatch {A} sort key fields cases =
    dispatch_to fields (sort (map (λ (entry : String × Case A). entry.0) cases))
      (Dict.get cases key)
