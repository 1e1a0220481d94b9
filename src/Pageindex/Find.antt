-- ===== src/Pageindex/Find.antt =====
-- The searches of src/pageindex.c and include/pageindex.h that descend the tree of big allocations:
-- find_deepest_bigalloc_recursive, find_bigalloc_recursive from a given start, the loop of
-- __liballocs_leaf_allocator_for, and is_one_or_more_levels_under. The fuel bounds the number of
-- records visited; `none` means that it ran out.
pub mod Laws
pub mod Nesting
pub mod Correct
use liballocs.Common.{
  ℕ, zero, suc, Bool, true, false, Option, none, some, ◌==◌, if◌then◌else◌, ◌>>=◌,
}
use liballocs.Pageindex.State.{BigAlloc, spans}

module _ (bs : ℕ → BigAlloc) where
  -- find_deepest_bigalloc_recursive on `start`, from its loop at `child` on
  unfoldable pub find_deepest_from : (addr : ℕ) → ℕ → (start child : ℕ) → Option ℕ
  find_deepest_from addr zero start child = none
  find_deepest_from addr (suc k) start child = elim (child == 0) [
    | true ↦ some start
    | false ↦ elim (spans (bs child) addr) [
      | true ↦ do
        maybe_deeper ← find_deepest_from addr k child (bs child).first_child
        elim (maybe_deeper == 0) [
          | true ↦ find_deepest_from addr k start (bs child).next_sib
          | false ↦ some maybe_deeper
        ]
      | false ↦ find_deepest_from addr k start (bs child).next_sib
    ]
  ]

  -- find_deepest_bigalloc_recursive
  abbrev pub find_deepest_bigalloc_recursive : (fuel start addr : ℕ) → Option ℕ
  find_deepest_bigalloc_recursive fuel start addr =
      find_deepest_from addr fuel start (bs start).first_child

  -- what find_bigalloc_recursive compares
  abbrev pub is_match : (a : ℕ) → Bool → ℕ → Bool
  is_match a match_suballocator b =
      (if match_suballocator then (bs b).suballocator else (bs b).allocated_by) == a

  -- find_bigalloc_recursive after the test of the start, from its loop at `child` on
  unfoldable pub find_bigalloc_from : (addr a : ℕ) → Bool → ℕ → (child : ℕ) → Option ℕ
  find_bigalloc_from addr a match_suballocator zero child = none
  find_bigalloc_from addr a match_suballocator (suc k) child = elim (child == 0) [
    | true ↦ some 0
    | false ↦ elim (spans (bs child) addr) [
      | true ↦ elim (is_match a match_suballocator child) [
        | true ↦ some child
        | false ↦ find_bigalloc_from addr a match_suballocator k (bs child).first_child
      ]
      | false ↦ find_bigalloc_from addr a match_suballocator k (bs child).next_sib
    ]
  ]

  -- find_bigalloc_recursive from a `start` that is not null
  unfoldable pub find_bigalloc_recursive : (fuel start addr a : ℕ) → Bool → Option ℕ
  unfolding find_bigalloc_from
  find_bigalloc_recursive fuel start addr a match_suballocator =
      if is_match a match_suballocator start
      then some start
      else find_bigalloc_from addr a match_suballocator fuel (bs start).first_child

  -- the inner loop of __liballocs_leaf_allocator_for: the last sibling from `child` on that spans the
  -- address, or `cur`
  unfoldable pub last_child_spanning : (addr : ℕ) → ℕ → (cur child : ℕ) → Option ℕ
  last_child_spanning addr zero cur child = none
  last_child_spanning addr (suc k) cur child = elim (child == 0) [
    | true ↦ some cur
    | false ↦
        last_child_spanning addr k (if spans (bs child) addr then child else cur)
          (bs child).next_sib
  ]

  -- its outer loop, from `cur` on
  unfoldable pub leaf_from : (addr : ℕ) → ℕ → (cur : ℕ) → Option ℕ
  unfolding last_child_spanning
  leaf_from addr zero cur = none
  leaf_from addr (suc k) cur = do
    cur' ← last_child_spanning addr (suc k) cur (bs cur).first_child
    elim (cur' == cur) [ true ↦ some cur | false ↦ leaf_from addr k cur' ]

  -- __liballocs_leaf_allocator_for: the allocator and the record, both 0 when there is none
  unfoldable pub leaf_allocator_for : (pageindex : ℕ → ℕ) (fuel pagenum addr : ℕ) → Option (ℕ × ℕ)
  unfolding leaf_from
  leaf_allocator_for pageindex fuel pagenum addr =
      if pageindex pagenum == 0
      then some (0, 0)
      else leaf_from addr fuel (pageindex pagenum) >>= λ deepest. some (
        if (bs deepest).suballocator == 0
            then (bs deepest).allocated_by
            else (bs deepest).suballocator,
        deepest,
      )

  -- the first loop of is_one_or_more_levels_under
  unfoldable pub is_sibling : (n : ℕ) → ℕ → (child : ℕ) → Option Bool
  is_sibling n zero child = none
  is_sibling n (suc k) child = elim (child == 0) [
    | true ↦ some false
    | false ↦ elim (child == n) [ true ↦ some true | false ↦ is_sibling n k (bs child).next_sib ]
  ]

  -- its second loop, with the recursive call on each child written out
  unfoldable pub any_is_under : (n : ℕ) → ℕ → (child : ℕ) → Option Bool
  unfolding is_sibling
  any_is_under n zero child = none
  any_is_under n (suc k) child = elim (child == 0) [
    | true ↦ some false
    | false ↦ do
      rec ← elim (n == child) [
        | true ↦ some false
        | false ↦ do
          direct ← is_sibling n k (bs child).first_child
          elim direct [ true ↦ some true | false ↦ any_is_under n k (bs child).first_child ]
      ]
      elim rec [ true ↦ some true | false ↦ any_is_under n k (bs child).next_sib ]
  ]

  -- is_one_or_more_levels_under
  unfoldable pub is_one_or_more_levels_under : (fuel maybe_lower_n b : ℕ) → Option Bool
  unfolding is_sibling any_is_under
  is_one_or_more_levels_under fuel maybe_lower_n b =
      if maybe_lower_n == b
      then some false
      else is_sibling maybe_lower_n fuel (bs b).first_child >>= λ direct.
          if direct then some true else any_is_under maybe_lower_n fuel (bs b).first_child
