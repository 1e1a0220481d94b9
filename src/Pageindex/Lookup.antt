-- ===== src/Pageindex/Lookup.antt =====
-- The searches of src/pageindex.c that set out from the page index, and
-- __liballocs_new_bigalloc, which looks for a parent there. `systrap_is_initialized` holds. `none` is an
-- abort, a failed assertion or fuel run out; the lock and the output are left out.
pub mod Correct
use liballocs.Common.{
  ℕ, ◌+◌, ◌-◌, Bool, true, false, not, ◌&&◌, ◌||◌, Option, none, some, ltb, ◌==◌, if◌then◌else◌,
  require, ◌>>=◌, ◌>>◌,
}
use liballocs.Pageindex.Vas.{Vas, page_size}
use liballocs.Pageindex.State.{BigAlloc, State}
use liballocs.Pageindex.Find.{find_bigalloc_recursive, find_deepest_bigalloc_recursive}
use liballocs.Pageindex.Depth.{bigalloc_depth, get_common_parent_bigalloc_recursive}
use liballocs.Pageindex.Create.{bigalloc_new}
use liballocs.Pageindex.Delete.{outermost, find_bigalloc_from_root}

module _ (v : Vas) (fuel : ℕ) where
  -- find_bigalloc_under_pageindex
  unfoldable pub find_bigalloc_under_pageindex : State → (addr a : ℕ) → Option ℕ
  unfolding find_bigalloc_recursive
  find_bigalloc_under_pageindex s addr a =
      let start_idx = s.pageindex (v.pagenum addr) in
      if start_idx == 0
      then some 0
      else find_bigalloc_recursive s.big_allocations fuel start_idx addr a false

  -- find_bigalloc_under_pageindex_nofail
  unfoldable pub find_bigalloc_under_pageindex_nofail : State → (addr a : ℕ) → Option ℕ
  unfolding find_bigalloc_recursive
  find_bigalloc_under_pageindex_nofail s addr a = do
    let start_idx = s.pageindex (v.pagenum addr)
    require (not (start_idx == 0))
    find_bigalloc_recursive s.big_allocations fuel start_idx addr a false

  -- __lookup_bigalloc_under_pageindex
  unfoldable pub lookup_bigalloc_under_pageindex : State → (mem a : ℕ) → Option ℕ
  unfolding find_bigalloc_under_pageindex
  lookup_bigalloc_under_pageindex s mem a = do
    require (not v.debug || not (a == 0))
    find_bigalloc_under_pageindex s mem a

  -- __lookup_bigalloc_under, from a `start` that is not null
  unfoldable pub lookup_bigalloc_under : State → (mem a start : ℕ) → Option ℕ
  unfolding find_bigalloc_recursive
  lookup_bigalloc_under s mem a start = do
    require (not v.debug || not (a == 0))
    find_bigalloc_recursive s.big_allocations fuel start mem a false

  -- __lookup_bigalloc_under_by_suballocator, from a `start` that is not null
  unfoldable pub lookup_bigalloc_under_by_suballocator : State → (mem sub_a start : ℕ) → Option ℕ
  unfolding find_bigalloc_recursive
  lookup_bigalloc_under_by_suballocator s mem sub_a start = do
    require (not v.debug || not (sub_a == 0))
    find_bigalloc_recursive s.big_allocations fuel start mem sub_a true

  -- __lookup_bigalloc_from_root
  unfoldable pub lookup_bigalloc_from_root : State → (mem a : ℕ) → Option ℕ
  unfolding find_bigalloc_from_root
  lookup_bigalloc_from_root s mem a = do
    require (not v.debug || not (a == 0))
    find_bigalloc_from_root v fuel s mem a

  -- __lookup_bigalloc_from_root_by_suballocator
  unfoldable pub lookup_bigalloc_from_root_by_suballocator : State → (mem sub_a : ℕ) → Option ℕ
  unfolding outermost find_bigalloc_recursive
  lookup_bigalloc_from_root_by_suballocator s mem sub_a = do
    require (not v.debug || not (sub_a == 0))
    start ← outermost s.big_allocations fuel (s.pageindex (v.pagenum mem))
    find_bigalloc_recursive s.big_allocations fuel start mem sub_a true

  -- __lookup_bigalloc_top_level
  unfoldable pub lookup_bigalloc_top_level : State → (mem : ℕ) → Option ℕ
  unfolding outermost
  lookup_bigalloc_top_level s mem =
      let n = s.pageindex (v.pagenum mem) in
      if n == 0 then some 0 else outermost s.big_allocations fuel n

-- what an allocator does when it is asked for an address: the state, and whether it has the address
abbrev pub Notify : Type 0
Notify = State → ℕ → State × Bool

-- __liballocs_notify_unindexed_address, over the notify_unindexed_address functions of the stack and
-- the mmap allocator
abbrev pub notify_unindexed_address : (stack mmap : Notify) → Notify
notify_unindexed_address stack mmap s ptr =
    let (s1, ret) = stack s ptr in let answer = mmap s1 ptr in if ret then (s1, true) else answer

module _ (v : Vas) (fuel : ℕ) (stack mmap : Notify) where
  -- find_deepest_bigalloc, which may have an address without an entry indexed: the state and the record
  unfoldable pub find_deepest_bigalloc : State → (addr : ℕ) → Option (State × ℕ)
  find_deepest_bigalloc s addr = do
    let s' =
        if s.pageindex (v.pagenum addr) == 0
        then (notify_unindexed_address stack mmap s addr).0
        else s
    let start_idx = s'.pageindex (v.pagenum addr)
    b ←
        (if start_idx == 0
          then some 0
          else find_deepest_bigalloc_recursive s'.big_allocations fuel start_idx addr)
    some (s', b)

  -- get_common_parent_bigalloc
  unfoldable pub get_common_parent_bigalloc : State → (ptr end : ℕ) → Option (State × ℕ)
  unfolding find_deepest_bigalloc bigalloc_depth get_common_parent_bigalloc_recursive
  get_common_parent_bigalloc s ptr end = do
    (s1, b1) ← find_deepest_bigalloc s ptr
    (s2, b2) ← find_deepest_bigalloc s1 end
    depth1 ← bigalloc_depth s2.big_allocations fuel b1
    depth2 ← bigalloc_depth s2.big_allocations fuel b2
    some (s2, get_common_parent_bigalloc_recursive s2.big_allocations b1 depth1 b2 depth2)

  -- the parent that __liballocs_new_bigalloc finds
  unfoldable pub find_parent : State → (ptr size : ℕ) → Option (State × ℕ)
  unfolding find_deepest_bigalloc
  find_parent s ptr size = do
    let chunk_lastbyte = ptr + size - 1
    (s1, deepest_at_start) ← find_deepest_bigalloc s ptr
    (s2, deepest_at_end) ← find_deepest_bigalloc s1 chunk_lastbyte
    require (deepest_at_start == deepest_at_end)
    require (
        not (deepest_at_start == 0)
        || (v.round_up ptr page_size == ptr)
          && (v.round_up (chunk_lastbyte + 1) page_size == chunk_lastbyte + 1))
    some (s2, deepest_at_start)

  -- __liballocs_new_bigalloc: the state and the new record
  unfoldable pub new_bigalloc :
      (start : ℕ)
      → State
      → (ptr size allocator_private allocator_private_free maybe_parent allocated_by : ℕ)
      → Option (State × ℕ)
  unfolding find_parent bigalloc_new
  new_bigalloc start s ptr size allocator_private allocator_private_free maybe_parent allocated_by =
      do
        require (not (ltb v.biggest_sane_user_alloc size))
        (s1, parent) ← elim (maybe_parent == 0) [
          | true ↦ find_parent s ptr size
          | false ↦ some (s, maybe_parent)
        ]
        bigalloc_new v start fuel s1 ptr size parent allocator_private allocator_private_free
            allocated_by
