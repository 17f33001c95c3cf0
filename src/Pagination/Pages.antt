-- ===== src/Pagination/Pages.antt =====
-- A client that reads page after page, at the offset that the note names.
use rancher_ai_mcp.Prelude.{
  ℕ, zero, suc, ◌+◌, ◌≤◌, ◌<◌, ◌≡◌, refl, ap, ◌∙◌, sym, Bool, true, false, Bool-cases, Option, none,
  some, List, [], ◌∷◌, ◌++◌, ltb, ltb→lt, arith, if◌then◌else◌, length, take, drop,
  take-append-drop, length-drop, inl, inr,
}
use rancher_ai_mcp.Prelude.Int.{ℤ, pos, half64, int64, int64_of_IsInt64, ◌+ℤ◌, eqb_ℤ}
use rancher_ai_mcp.Pagination.{PaginationResult, Meta, less, build_note, sort_and_paginate}
use rancher_ai_mcp.Pagination.Windows.{window_lem, sort_and_paginate-window}

-- The offset that the note of a page tells the client to ask for next.
next_of : {R : Type 0} → PaginationResult R → Option ℤ
unfolding build_note
next_of page = elim (build_note page "") [ none ↦ none | some note ↦ note.next_offset ]

append_rest : {R : Type 0} → List R → Option (List R) → Option (List R)
append_rest items none = none
append_rest items (some rest) = some (items ++ rest)

follow : {R : Type 0} → List R → Option ℤ → (ℤ → Option (List R)) → Option (List R)
unfolding append_rest
follow items none again = some items
follow items (some next) again = append_rest items (again next)

after_page : {R : Type 0} → Option (PaginationResult R) → (ℤ → Option (List R)) → Option (List R)
unfolding follow next_of
after_page none again = none
after_page (some page) again = follow page.items (next_of page) again

-- All the resources a client sees that asks at `offset` and then at each offset it is told,
-- `fuel` calls at most; `none` when a call panics or the calls run out.
pub read_on :
    {R : Type 0}
    → Meta R
    → ((R → R → Bool) → List R → List R)
    → ℕ
    → List R
    → ℤ
    → ℤ
    → Option (List R)
unfolding after_page
read_on m sort zero resources limit offset = none
read_on m sort (suc fuel) resources limit offset =
    after_page (sort_and_paginate m sort resources offset limit)
      (read_on m sort fuel resources limit)

take_all : {A : Type 0} (l : ℕ) (xs : List A) → length xs ≤ l → take l xs ≡ xs
take_all zero [] p = refl
take_all zero (x ∷ xs) p = absurd (omega arith)
take_all (suc l) [] p = refl
take_all {A} (suc l) (x ∷ xs) p = ap (λ (r : List A). x ∷ r) (take_all l xs (omega arith))

drop_past : {A : Type 0} (l : ℕ) → drop {A = A} l [] ≡ []
drop_past zero = refl
drop_past (suc l) = refl

drop-drop : {A : Type 0} (o l n : ℕ) (xs : List A) → n ≡ o + l → drop n xs ≡ drop l (drop o xs)
drop-drop zero l n xs e = ap (λ (k : ℕ). drop k xs) (omega (arith, e))
drop-drop (suc o) l zero xs e = absurd (omega arith)
drop-drop (suc o) l (suc n) [] e = sym (drop_past l)
drop-drop (suc o) l (suc n) (x ∷ xs) e = drop-drop o l n xs (omega arith)

note_offset :
    {R : Type 0} (items : List R) (total o l : ℤ) (more first : Bool)
    → eqb_ℤ o (pos 0) ≡ first
    → next_of (record { items = items; total = total; offset = o; limit = l; has_more = more })
      ≡ (if more then some (int64 (o +ℤ l)) else none)
unfolding next_of build_note
note_offset {R} items total o l true first e = refl
note_offset {R} items total o l false true e = rw (next_of, e) refl
note_offset {R} items total o l false false e = rw (next_of, e) refl

page : {R : Type 0} → List R → ℕ → ℕ → Bool → PaginationResult R
page xs o l more = record {
  items = take l (drop o xs);
  total = pos (length xs);
  offset = pos o;
  limit = pos l;
  has_more = more;
}

next_of-page :
    {R : Type 0} (xs : List R) (o l : ℕ) (more : Bool)
    → next_of (page xs o l more) ≡ (if more then some (int64 (pos o +ℤ pos l)) else none)
unfolding page
next_of-page xs o l more =
    note_offset (take l (drop o xs)) (pos (length xs)) (pos o) (pos l) more _ refl

after_last_page :
    {R : Type 0} (xs : List R) (o l : ℕ) (again : ℤ → Option (List R))
    → length xs ≤ o + l
    → after_page (some (page xs o l false)) again ≡ some (drop o xs)
unfolding after_page follow page
after_last_page xs o l again p =
    rw (next_of-page xs o l false)
      (ap some (take_all l (drop o xs) (rw (length-drop o xs) (omega arith))))

after_full_page :
    {R : Type 0} (xs : List R) (o l : ℕ) (again : ℤ → Option (List R))
    → o + l < half64
    → again (pos (o + l)) ≡ some (drop (o + l) xs)
    → after_page (some (page xs o l true)) again ≡ some (drop o xs)
unfolding after_page follow append_rest page
after_full_page {R} xs o l again fits rest =
    let sum : int64 (pos o +ℤ pos l) ≡ pos (o + l) =
      int64_of_IsInt64 (pos o +ℤ pos l) (ground arith) ∙ ground arith in
    let next : next_of (page xs o l true) ≡ some (pos (o + l)) =
      next_of-page xs o l true ∙ ap some sum in
    ap (λ (n : Option ℤ). follow (take l (drop o xs)) n again) next
    ∙ ap (append_rest (take l (drop o xs))) rest
    ∙ ap some (
        ap (λ (r : List R). take l (drop o xs) ++ r) (drop-drop o l (o + l) xs refl)
        ∙ take-append-drop l (drop o xs))

read_from :
    {R : Type 0} (m : Meta R) (sort : (R → R → Bool) → List R → List R) (resources : List R)
    (l fuel o : ℕ)
    → 0 < l
    → length (sort (less m) resources) + l < half64
    → o ≤ length (sort (less m) resources)
    → length (sort (less m) resources) < fuel + o
    → read_on m sort fuel resources (pos l) (pos o) ≡ some (drop o (sort (less m) resources))
unfolding read_on page
read_from m sort resources l zero o p fits q r = absurd (omega arith)
read_from {R} m sort resources l (suc fuel) o p fits q r =
    let xs = sort (less m) resources in
    let again = read_on m sort fuel resources (pos l) in
    let cut : sort_and_paginate m sort resources (pos o) (pos l)
        ≡ some (page xs o l (ltb (o + l) (length xs))) =
      sort_and_paginate-window m sort resources o l p ∙ window_lem xs o l (omega arith) in
    rw cut (elim (Bool-cases (ltb (o + l) (length xs))) [
      | inl e ↦ rw e (
          after_full_page xs o l again (omega arith) (
            read_from m sort resources l fuel (o + l) p fits
              (omega (arith, ltb→lt (o + l) (length xs) e)) (omega arith)))
      | inr e ↦ rw e (after_last_page xs o l again (ground arith))
    ])

-- If the limit is positive and the number of resources plus the limit fits 64 bits, a client
-- that starts at offset 0 and goes on at each offset the note names sees exactly the sorted
-- resources, each once and in order, within one call more than there are resources.
pub read_on_all :
    {R : Type 0} (m : Meta R) (sort : (R → R → Bool) → List R → List R) (resources : List R)
    (limit fuel : ℕ)
    → 0 < limit
    → length (sort (less m) resources) + limit < half64
    → length (sort (less m) resources) < fuel
    → read_on m sort fuel resources (pos limit) (pos 0) ≡ some (sort (less m) resources)
read_on_all m sort resources limit fuel p fits enough =
    read_from m sort resources limit fuel 0 p fits (omega arith) (omega arith)
