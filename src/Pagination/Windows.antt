-- ===== src/Pagination/Windows.antt =====
-- What a page holds, when `offset + limit` fits 64 bits.
use rancher_ai_mcp.Prelude.{
  ℕ, zero, suc, ◌+◌, ◌-◌, ◌≤◌, ◌<◌, min, ◌≡◌, refl, ap, ◌∙◌, Bool, some, List, [], ◌∷◌, arith, ltb,
  length, take, drop,
}
use rancher_ai_mcp.Prelude.Int.{ℤ, pos, half64, int64, int64_of_IsInt64, ◌+ℤ◌, ltb_ℤ}
use rancher_ai_mcp.Pagination.{
  Meta, less, min_ℤ, slice, page_of, page_until, window, effective_limit, effective_offset,
  sort_and_paginate,
}

take_beyond : {A : Type 0} (k n : ℕ) (xs : List A) → k ≡ min n (length xs) → take k xs ≡ take n xs
take_beyond zero zero xs e = refl
take_beyond zero (suc n) [] e = refl
take_beyond zero (suc n) (x ∷ xs) e = absurd (omega arith)
take_beyond (suc k) zero xs e = absurd (omega arith)
take_beyond (suc k) (suc n) [] e = refl
take_beyond {A} (suc k) (suc n) (x ∷ xs) e =
    ap (λ (r : List A). x ∷ r) (take_beyond k n xs (omega arith))

take_nil : {A : Type 0} (n : ℕ) → take {A = A} n [] ≡ []
take_nil zero = refl
take_nil (suc n) = refl

drop_nil : {A : Type 0} (n : ℕ) → drop {A = A} n [] ≡ []
drop_nil zero = refl
drop_nil (suc n) = refl

min_pos : (a b : ℕ) → min_ℤ (pos a) (pos b) ≡ pos (min a b)
min_pos a b = ground arith

slice_between :
    {A : Type 0} (start end : ℕ) (xs : List A)
    → start ≤ end
    → end ≤ length xs
    → slice xs (pos start) (pos end) ≡ some (take (end - start) (drop start xs))
unfolding slice
slice_between start end xs p q = ground arith

-- The clamped window is the plain one.
take-drop_clamped :
    {A : Type 0} (o l : ℕ) (xs : List A) (k j : ℕ)
    → k ≡ min (o + l) (length xs) - min o (length xs)
    → j ≡ min o (length xs)
    → take k (drop j xs) ≡ take l (drop o xs)
take-drop_clamped zero l xs k zero e f = take_beyond k l xs (omega arith)
take-drop_clamped zero l xs k (suc j) e f = absurd (omega arith)
take-drop_clamped (suc o) l [] k j e f = rw (drop_nil j, take_nil k, take_nil l) refl
take-drop_clamped (suc o) l (x ∷ xs) k zero e f = absurd (omega arith)
take-drop_clamped (suc o) l (x ∷ xs) k (suc j) e f =
    take-drop_clamped o l xs k j (omega arith) (omega arith)

slice_clamped :
    {A : Type 0} (o l : ℕ) (xs : List A)
    → slice xs (min_ℤ (pos o) (pos (length xs))) (min_ℤ (pos (o + l)) (pos (length xs)))
      ≡ some (take l (drop o xs))
slice_clamped o l xs =
    let n = length xs in
    rw (min_pos o n, min_pos (o + l) n)
      (slice_between (min o n) (min (o + l) n) xs (omega arith) (omega arith)
        ∙ ap some (take-drop_clamped o l xs (min (o + l) n - min o n) (min o n) refl refl))

-- One page: the resources from `o` on, at most `l` of them; and more are left exactly if the
-- page ends before the last one.
pub window_lem :
    {R : Type 0} (xs : List R) (o l : ℕ)
    → o + l < half64
    → window xs (pos o) (pos l)
      ≡ some (record {
        items = take l (drop o xs);
        total = pos (length xs);
        offset = pos o;
        limit = pos l;
        has_more = ltb (o + l) (length xs);
      })
unfolding window page_until page_of
window_lem {R} xs o l fits =
    let sum : int64 (pos o +ℤ pos l) ≡ pos (o + l) =
      int64_of_IsInt64 (pos o +ℤ pos l) (ground arith) ∙ ground arith in
    let more : ltb_ℤ (pos (o + l)) (pos (length xs)) ≡ ltb (o + l) (length xs) = ground arith in
    let page : (next : ℤ)
        → next ≡ pos (o + l)
        → page_until xs (pos o) (pos l) next
          ≡ some (record {
            items = take l (drop o xs);
            total = pos (length xs);
            offset = pos o;
            limit = pos l;
            has_more = ltb (o + l) (length xs);
          }) =
      λ next e. rw (e, slice_clamped o l xs, more) refl in
    page (int64 (pos o +ℤ pos l)) sum

pub effective_offset_pos : (o : ℕ) → effective_offset (pos o) ≡ pos o
unfolding effective_offset
effective_offset_pos o = ground arith

pub effective_limit_pos : (l : ℕ) → 0 < l → effective_limit (pos l) ≡ pos l
unfolding effective_limit
effective_limit_pos l p = ground arith

-- With an offset of 0 or more and a positive limit, the code cuts the window it was asked for.
pub sort_and_paginate-window :
    {R : Type 0} (m : Meta R) (sort : (R → R → Bool) → List R → List R) (resources : List R)
    (o l : ℕ)
    → 0 < l
    → sort_and_paginate m sort resources (pos o) (pos l)
      ≡ window (sort (less m) resources) (pos o) (pos l)
unfolding sort_and_paginate
sort_and_paginate-window m sort resources o l p =
    rw (effective_offset_pos o, effective_limit_pos l p) refl
