-- ===== src/Pageindex/Sanity.antt =====
-- sanity_check_bigalloc of src/pageindex.c, which SANITY_CHECK_BIGALLOC calls where assertions are
-- compiled in: whether all of its assertions hold. The allocators' minimum alignment is a parameter, 0
-- for an allocator that has none.
pub mod Passes
use liballocs.Common.{
  ℕ, zero, suc, ◌+◌, ◌-◌, ◌%◌, Bool, true, false, not, ◌&&◌, ◌||◌, Option, none, some, leb, ◌==◌,
  if◌then◌else◌,
}
use liballocs.Pageindex.Vas.{Vas}
use liballocs.Pageindex.State.{BigAlloc, in_use}
use liballocs.Pageindex.Depth.{bigalloc_depth}

-- whether the depth of `upper`, and `more`, are the depth of `lower`
abbrev pub deeper_by : (more : ℕ) (lower upper : Option ℕ) → Bool
deeper_by more none upper = false
deeper_by more (some m) none = false
deeper_by more (some m) (some n) = m == n + more

module _ (v : Vas) (min_alignment : ℕ → ℕ) (bs : ℕ → BigAlloc) (pageindex : ℕ → ℕ) where
  -- the assertions that read no other record
  unfoldable pub own_checks : (b : ℕ) → Bool
  own_checks b =
      let align = min_alignment (bs b).allocated_by in
      not ((bs b).end == (bs b).begin)
      && not (pageindex (v.pagenum ((bs b).begin - 1)) == b)
      && not (pageindex (v.pagenum (bs b).end) == b)
      && (((bs b).allocated_by == 0) || (align == 0) || ((bs b).begin % align == 0))

module _ (bs : ℕ → BigAlloc) (depth_fuel : ℕ) where
  -- the assertions on the parent
  unfoldable pub parent_checks : (b : ℕ) → Bool
  unfolding bigalloc_depth
  parent_checks b =
      let up = (bs b).parent in
      (up == 0)
      || deeper_by 1 (bigalloc_depth bs depth_fuel b) (bigalloc_depth bs depth_fuel up)
        && leb (bs up).begin (bs b).begin
        && leb (bs b).end (bs up).end

  -- the loop over the children after the first, on fuel; `check` is sanity_check_bigalloc
  unfoldable pub siblings_check :
      (check : ℕ → Bool) (first_child_depth : Option ℕ) (fuel child : ℕ) → Bool
  unfolding bigalloc_depth
  siblings_check check d zero child = child == 0
  siblings_check check d (suc k) child =
      let later = siblings_check check d k (bs child).next_sib in
      (child == 0) || deeper_by 0 (bigalloc_depth bs depth_fuel child) d && check child && later

module _ (v : Vas) (min_alignment : ℕ → ℕ) (bs : ℕ → BigAlloc) (pageindex : ℕ → ℕ)
    (depth_fuel : ℕ) where
  -- sanity_check_bigalloc, on fuel for the depth of the recursion and the length of a list of children
  unfoldable pub sanity_check_bigalloc : (fuel b : ℕ) → Bool
  unfolding own_checks parent_checks siblings_check
  sanity_check_bigalloc zero b = false
  sanity_check_bigalloc (suc k) b =
      let first = (bs b).first_child in
      let siblings =
        siblings_check bs depth_fuel (sanity_check_bigalloc k) (bigalloc_depth bs depth_fuel first)
          k (bs first).next_sib in
      not (in_use (bs b))
      || own_checks v min_alignment bs pageindex b
        && parent_checks bs depth_fuel b
        && ((first == 0) || siblings)
