-- ===== src/Pagination.antt =====
-- pkg/utils/pagination.go. `offset` and `limit` are Go's `int64`; `none` is the panic of a slice
-- expression out of range. `sort.Slice` is the parameter `sort`, at the order that the code
-- gives it (by namespace, then by name). A resource is of any type.
pub mod Windows
pub mod Overflow
pub mod Pages
mod Tests
use Prim.Native.Nat.{Ordering}
use Prim.Native.String.{compare}
use rancher_ai_mcp.Prelude.{
  str_eq, ℕ, ◌-◌, String, Bool, true, false, Option, none, some, List, [], ◌∷◌, if◌then◌else◌, ltb,
  leb, ◌==◌, ◌&&◌, not, length, take, drop,
}
use rancher_ai_mcp.Prelude.Int.{ℤ, pos, negsuc, int64, ◌+ℤ◌, ltb_ℤ, leb_ℤ, eqb_ℤ}

abbrev pub default_list_limit : ℤ
default_list_limit = pos 100

pub record PaginationResult (R : Type 0) : Type 0 where
  pub items : List R
  pub total : ℤ
  pub offset : ℤ
  pub limit : ℤ
  pub has_more : Bool

abbrev pub min_ℤ : ℤ → ℤ → ℤ
min_ℤ a b = if leb_ℤ a b then a else b

pub effective_limit : ℤ → ℤ
effective_limit limit = if leb_ℤ limit (pos 0) then default_list_limit else limit

pub effective_offset : ℤ → ℤ
effective_offset offset = if ltb_ℤ offset (pos 0) then pos 0 else offset

-- `resources[start:end]`, over a slice whose capacity is its length.
pub slice {ℓ} : {A : Type ℓ} → List A → ℤ → ℤ → Option (List A)
slice xs (pos start) (pos end) =
    if leb start end && leb end (length xs) then some (take (end - start) (drop start xs)) else none
slice xs start end = none

-- `a < b` on Go strings.
str_lt : String → String → Bool
str_lt a b = elim (compare a b) [ Ordering.lt ↦ true | _ ↦ false ]

-- How the program reads a resource.
pub record Meta (R : Type 0) : Type 0 where
  pub get_namespace : R → String
  pub get_name : R → String

-- The order that `sort.Slice` is given.
pub less : {R : Type 0} → Meta R → R → R → Bool
unfolding str_lt
less m a b =
    if not (str_eq (m.get_namespace a) (m.get_namespace b))
    then str_lt (m.get_namespace a) (m.get_namespace b)
    else str_lt (m.get_name a) (m.get_name b)

-- The page, once `next` = `offset+limit` is known.
pub page_of : {R : Type 0} → Option (List R) → ℕ → ℤ → ℤ → ℤ → Option (PaginationResult R)
page_of none total offset limit next = none
page_of (some items) total offset limit next = some (record {
  items = items;
  total = pos total;
  offset = offset;
  limit = limit;
  has_more = ltb_ℤ next (pos total);
})

pub page_until : {R : Type 0} → List R → ℤ → ℤ → ℤ → Option (PaginationResult R)
unfolding page_of
page_until resources offset limit next =
    page_of
      (slice resources (min_ℤ offset (pos (length resources)))
        (min_ℤ next (pos (length resources))))
      (length resources) offset limit next

pub window : {R : Type 0} → List R → ℤ → ℤ → Option (PaginationResult R)
unfolding page_until
window resources offset limit = page_until resources offset limit (int64 (offset +ℤ limit))

module _ {R : Type 0} (m : Meta R) (sort : (R → R → Bool) → List R → List R) where
  pub sort_and_paginate : List R → ℤ → ℤ → Option (PaginationResult R)
  unfolding window effective_limit effective_offset
  sort_and_paginate resources offset limit =
      window (sort (less m) resources) (effective_offset offset) (effective_limit limit)

-- The numbers that `BuildNote` writes; the text around them is left out.
pub record Note : Type 0 where
  pub returned : ℕ
  pub offset : ℤ
  pub limit : ℤ
  pub total : ℤ
  pub filter_suffix : String
  pub next_offset : Option ℤ

pub build_note : {R : Type 0} → PaginationResult R → String → Option Note
build_note result filter_suffix =
    if not result.has_more && eqb_ℤ result.offset (pos 0)
    then none
    else some (record {
      returned = length result.items;
      offset = result.offset;
      limit = result.limit;
      total = result.total;
      filter_suffix = filter_suffix;
      next_offset = if result.has_more then some (int64 (result.offset +ℤ result.limit)) else none;
    })
