-- ===== src/Pageindex/State.antt =====
-- The state of src/pageindex.c: the array big_allocations (struct big_allocation of
-- include/pageindex.h) and the page index. A pointer to a record is the record's number, BIDX and
-- IDXB being the two directions, and 0 is the null pointer. Addresses, allocators, metadata and
-- functions are numbers, 0 for null.
use liballocs.Common.{ℕ, ◌==◌, Bool, not, ◌&&◌, leb, ltb, List}

-- struct big_allocation
pub record BigAlloc : Type 0 where
  pub begin : ℕ
  pub end : ℕ
  pub first_child : ℕ
  pub next_sib : ℕ
  pub parent : ℕ
  pub prev_sib : ℕ
  pub allocated_by : ℕ
  pub suballocator : ℕ
  pub allocator_private : ℕ
  pub allocator_private_free : ℕ
  pub suballocator_private : ℕ
  pub suballocator_private_free : ℕ

-- NBIGALLOCS
abbrev pub nbigallocs : ℕ
nbigallocs = 32768

pub record State : Type 0 where
  pub big_allocations : ℕ → BigAlloc
  pub pageindex : ℕ → ℕ
  -- the calls of the records' free functions so far, latest first: the function and its argument
  pub freed : List (ℕ × ℕ)

-- BIGALLOC_IN_USE
abbrev pub in_use : BigAlloc → Bool
in_use b = not (b.begin == 0) && not (b.end == 0)

-- the test that a record's range holds an address, as the searches make it
abbrev pub spans : BigAlloc → ℕ → Bool
spans b addr = leb b.begin addr && ltb addr b.end
