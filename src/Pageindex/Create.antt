-- ===== src/Pageindex/Create.antt =====
-- The creation of records in src/pageindex.c: find_free_bigalloc, is_unindexed (__pages_unused),
-- bigalloc_init_nomemset, bigalloc_init and bigalloc_new. `none` is an abort, a failed assertion or
-- fuel run out; `start` and `fuel` are those of the list of records without a parent. The calls of
-- SANITY_CHECK_BIGALLOC, which store nothing, are left out, those in add_child by using link_child.
pub mod Correct
use liballocs.Common.{
  ℕ, zero, suc, ◌+◌, ◌-◌, Bool, true, false, not, ◌&&◌, ◌||◌, Option, none, some, ltb, ◌==◌,
  if◌then◌else◌, update, require, ◌>>=◌, ◌>>◌,
}
use liballocs.Pageindex.Vas.{Vas, page_size, page_dist}
use liballocs.Pageindex.State.{BigAlloc, State, in_use, nbigallocs}
use liballocs.Pageindex.Link.{link_child}
use liballocs.Pageindex.Toplevel.{add_toplevel}
use liballocs.Pageindex.Resize.{set_record, memset_state}

-- the loop of find_free_bigalloc, from record p on for `left` records
unfoldable pub free_from : (ℕ → BigAlloc) → ℕ → ℕ → Option ℕ
free_from bs zero p = none
free_from bs (suc left) p =
    let rest = free_from bs left (p + 1) in if not (in_use (bs p)) then some p else rest

-- find_free_bigalloc: record 0 is not used
unfoldable pub find_free_bigalloc : (ℕ → BigAlloc) → Option ℕ
unfolding free_from
find_free_bigalloc bs = free_from bs (nbigallocs - 1) 1

-- the loop of is_unindexed, over `left` entries
unfoldable pub none_indexed : (ℕ → ℕ) → ℕ → ℕ → Bool
none_indexed t zero pos = true
none_indexed t (suc left) pos = let rest = none_indexed t left (pos + 1) in (t pos == 0) && rest

-- what the creator of a record says of it, apart from its range and its parent
pub record Info : Type 0 where
  pub allocator_private : ℕ
  pub allocator_private_free : ℕ
  pub allocated_by : ℕ
  pub suballocator : ℕ
  pub suballocator_private : ℕ
  pub suballocator_private_free : ℕ

-- the fields that bigalloc_init_nomemset stores; `parent` is left as it was
abbrev pub init_record : BigAlloc → (ptr size : ℕ) → Info → BigAlloc
init_record r ptr size info = record r {
  begin = ptr;
  end = ptr + size;
  allocator_private = info.allocator_private;
  allocator_private_free = info.allocator_private_free;
  allocated_by = info.allocated_by;
  suballocator = info.suballocator;
  suballocator_private = info.suballocator_private;
  suballocator_private_free = info.suballocator_private_free;
  first_child = 0;
  next_sib = 0;
  prev_sib = 0;
}

module _ (v : Vas) (start fuel : ℕ) where
  -- bigalloc_init_nomemset
  unfoldable pub bigalloc_init_nomemset : State → (b ptr size parent : ℕ) → Info → Option State
  unfolding link_child add_toplevel
  bigalloc_init_nomemset s b ptr size parent info =
      let s1 = set_record s b (init_record (s.big_allocations b) ptr size info) in
      if parent == 0
      then (do
        bs ← add_toplevel v.debug s1.big_allocations start fuel b
        some (record s1 { big_allocations = bs }))
      else (do
        bs ← link_child v.debug s1.big_allocations b parent
        require (not v.debug || not ((bs b).parent == 0))
        some (record s1 { big_allocations = bs }))

  -- bigalloc_init
  unfoldable pub bigalloc_init : State → (b ptr size parent : ℕ) → Info → Option State
  unfolding bigalloc_init_nomemset
  bigalloc_init s b ptr size parent info = do
    s1 ← bigalloc_init_nomemset s b ptr size parent info
    let r = s1.big_allocations b
    memset_state v s1 (v.pagenum (v.round_up r.begin page_size)) b parent
        (page_dist v (v.round_up r.begin page_size) (v.round_down r.end page_size))

  -- is_unindexed: no page from `begin` up to `end` has an entry. The loop stops at the end's entry; a
  -- begin beyond it is answered no.
  unfoldable pub is_unindexed : State → (begin end : ℕ) → Bool
  unfolding none_indexed
  is_unindexed s begin end =
      if ltb (v.pagenum end) (v.pagenum begin)
      then false
      else none_indexed s.pageindex (v.pagenum end - v.pagenum begin) (v.pagenum begin)

  -- bigalloc_new: the state and the new record
  unfoldable pub bigalloc_new :
      State
      → (ptr size parent allocator_private allocator_private_free allocated_by : ℕ)
      → Option (State × ℕ)
  unfolding find_free_bigalloc bigalloc_init
  bigalloc_new s ptr size parent allocator_private allocator_private_free allocated_by = do
    b ← find_free_bigalloc s.big_allocations
    s' ← bigalloc_init s b ptr size parent (record {
      allocator_private = allocator_private;
      allocator_private_free = allocator_private_free;
      allocated_by = allocated_by;
      suballocator = 0;
      suballocator_private = 0;
      suballocator_private_free = 0;
    })
    some (s', b)
