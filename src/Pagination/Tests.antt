-- ===== src/Pagination/Tests.antt =====
-- Three resources in two namespaces, read two at a time.
use rancher_ai_mcp.Prelude.{
  ◌≡◌, refl, String, Bool, none, some, List, [], ◌∷◌, arith, if◌then◌else◌,
}
use rancher_ai_mcp.Prelude.Int.{pos}
use rancher_ai_mcp.Pagination.{Meta, less, sort_and_paginate}
use rancher_ai_mcp.Pagination.Overflow.{sort_and_paginate_overflow}
use rancher_ai_mcp.Pagination.Pages.{read_on, read_on_all}

first : String × String → String
first (a, b) = a

second : String × String → String
second (a, b) = b

by_name : Meta (String × String)
unfolding first second
by_name = record { get_namespace = λ r. first r; get_name = λ r. second r }

-- An insertion sort, as one `sort.Slice`.
insert : {R : Type 0} → (R → R → Bool) → R → List R → List R
insert before x [] = x ∷ []
insert before x (y ∷ ys) =
    let rest = insert before x ys in if before y x then y ∷ rest else x ∷ (y ∷ ys)

insertion_sort : {R : Type 0} → (R → R → Bool) → List R → List R
insertion_sort before [] = []
insertion_sort before (x ∷ xs) = insert before x (insertion_sort before xs)

abbrev three : List (String × String)
three = ("b", "x") ∷ ("a", "y") ∷ ("a", "x") ∷ []

runs : Unit {0}
unfolding insertion_sort insert less by_name first second
runs = tt

three_sorted : insertion_sort (less by_name) three ≡ ("a", "x") ∷ ("a", "y") ∷ ("b", "x") ∷ []
unfolding runs
three_sorted = refl

read_on_all_example :
    read_on by_name insertion_sort 4 three (pos 2) (pos 0)
    ≡ some (insertion_sort (less by_name) three)
unfolding runs
read_on_all_example =
    read_on_all by_name insertion_sort three 2 4 (omega arith) (omega arith) (omega arith)

sort_and_paginate_overflow_example :
    sort_and_paginate by_name insertion_sort three (pos 9223372036854775807) (pos 1) ≡ none
sort_and_paginate_overflow_example =
    sort_and_paginate_overflow by_name insertion_sort three 9223372036854775807 1 (omega arith)
      (omega arith) (omega arith) (omega arith)
