-- ===== src/Pagination/Overflow.antt =====
-- What the window does when `offset + limit` leaves 64 bits.
use rancher_ai_mcp.Prelude.{ℕ, ◌+◌, ◌-◌, ◌≤◌, ◌<◌, ◌≡◌, refl, ◌∙◌, none, List, arith, length, Bool}
use rancher_ai_mcp.Prelude.Int.{ℤ, pos, negsuc, half64, int64, ◌+ℤ◌}
use rancher_ai_mcp.Pagination.Windows.{sort_and_paginate-window}
use rancher_ai_mcp.Pagination.{
  Meta, less, min_ℤ, slice, page_of, page_until, window, sort_and_paginate,
}

wrapped_sum :
    (o l : ℕ)
    → o < half64
    → l < half64
    → half64 ≤ o + l
    → int64 (pos o +ℤ pos l) ≡ negsuc (half64 + half64 - 1 - (o + l))
unfolding int64
wrapped_sum o l p q r = ground arith

slice_negative : {A : Type 0} (xs : List A) (start : ℤ) (k : ℕ) → slice xs start (negsuc k) ≡ none
unfolding slice
slice_negative xs (pos s) k = refl
slice_negative xs (negsuc s) k = refl

min_negative : (k n : ℕ) → min_ℤ (negsuc k) (pos n) ≡ negsuc k
min_negative k n = ground arith

page_until_negative :
    {R : Type 0} (xs : List R) (offset limit next : ℤ) (k : ℕ)
    → next ≡ negsuc k
    → page_until xs offset limit next ≡ none
unfolding page_until page_of
page_until_negative xs offset limit next k e =
    rw (e, min_negative k (length xs), slice_negative xs (min_ℤ offset (pos (length xs))) k) refl

-- If a positive limit and an offset of 0 or more, both in 64 bits, have a sum that does not fit
-- 64 bits, the slice expression panics, whatever the resources are.
pub sort_and_paginate_overflow :
    {R : Type 0} (m : Meta R) (sort : (R → R → Bool) → List R → List R) (resources : List R)
    (offset limit : ℕ)
    → 0 < limit
    → offset < half64
    → limit < half64
    → half64 ≤ offset + limit
    → sort_and_paginate m sort resources (pos offset) (pos limit) ≡ none
unfolding window
sort_and_paginate_overflow m sort resources offset limit p q r s =
    sort_and_paginate-window m sort resources offset limit p
    ∙ page_until_negative (sort (less m) resources) (pos offset) (pos limit) _
        (half64 + half64 - 1 - (offset + limit)) (wrapped_sum offset limit q r s)
