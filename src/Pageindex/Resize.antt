-- ===== src/Pageindex/Resize.antt =====
-- The operations of src/pageindex.c that move a bound of a big allocation and update the page index:
-- __liballocs_extend_bigalloc, __liballocs_pre_extend_bigalloc, __liballocs_truncate_bigalloc_at_end
-- (bigalloc_truncate_at_end), __liballocs_truncate_bigalloc_at_beginning, __adjust_bigalloc_end and
-- __liballocs_pre_extend_bigalloc_recursive. Records are given by number; the calls of
-- SANITY_CHECK_BIGALLOC, which store nothing, are left out. `none` is an abort or fuel run out.
pub mod Laws
pub mod Correct
use liballocs.Common.{
  ℕ, zero, suc, Bool, true, false, not, ◌&&◌, Option, none, some, ltb, ◌==◌, if◌then◌else◌, update,
  ◌>>=◌,
}
use liballocs.Pageindex.Vas.{Vas, page_size, page_dist}
use liballocs.Pageindex.State.{BigAlloc, State}
use liballocs.Pageindex.Memset.{memset_bigalloc}
use liballocs.Pageindex.Find.{is_one_or_more_levels_under}

-- `*b = r`
abbrev pub set_record : State → ℕ → BigAlloc → State
set_record s b r = record s { big_allocations = update s.big_allocations b r }

module _ (v : Vas) where
  -- memset_bigalloc on the index of the state
  abbrev pub memset_state : State → (begin num old_num n : ℕ) → Option State
  memset_state s begin num old_num n = do
    t ← memset_bigalloc v s.pageindex begin num old_num n
    some (record s { pageindex = t })

  -- __liballocs_extend_bigalloc
  unfoldable pub extend_bigalloc : State → (b new_end : ℕ) → Option State
  extend_bigalloc s b new_end =
      let r = s.big_allocations b in
      let parent_num = if r.parent == 0 then 0 else r.parent in
      memset_state (set_record s b (record r { end = new_end }))
        (v.pagenum (v.round_down r.end page_size)) b parent_num
        (page_dist v (v.round_down r.end page_size) (v.round_down new_end page_size))

  -- the end of the pages that __liballocs_pre_extend_bigalloc takes over
  abbrev pub taken_end : BigAlloc → Bool → ℕ
  taken_end r under =
      if ltb (v.pagenum r.begin) (v.pagenum r.end) && not under
      then v.round_up r.begin page_size
      else v.round_down r.begin page_size

  -- __liballocs_pre_extend_bigalloc
  unfoldable pub pre_extend_bigalloc : (fuel : ℕ) → State → (b new_begin : ℕ) → Option State
  pre_extend_bigalloc fuel s b new_begin =
      let r = s.big_allocations b in
      let s' = set_record s b (record r { begin = new_begin }) in
      let extended =
        is_one_or_more_levels_under s'.big_allocations fuel (s.pageindex (v.pagenum r.begin)) b
        >>= λ under.
            memset_state s' (v.pagenum (v.round_up new_begin page_size)) b r.parent
              (page_dist v (v.round_up new_begin page_size) (taken_end r under)) in
      if ltb new_begin r.begin then extended else some s

  -- __liballocs_pre_extend_bigalloc_recursive: the chain of parents first. `min_alignment` is that
  -- field of each allocator. It always answers 1.
  unfoldable pub pre_extend_bigalloc_recursive :
      (min_alignment : ℕ → ℕ) (fuel : ℕ) → ℕ → State → (b new_begin : ℕ) → Option State
  unfolding pre_extend_bigalloc
  pre_extend_bigalloc_recursive min_alignment fuel zero s b new_begin = none
  pre_extend_bigalloc_recursive min_alignment fuel (suc k) s b new_begin =
      let up = (s.big_allocations b).parent in
      let align = min_alignment (s.big_allocations up).allocated_by in
      let parents =
        pre_extend_bigalloc_recursive min_alignment fuel k s up
          (if align == 0 then new_begin else v.round_down new_begin align) in
      (if up == 0 then some s else parents) >>= λ s'. pre_extend_bigalloc fuel s' b new_begin

  -- bigalloc_truncate_at_end
  unfoldable pub truncate_bigalloc_at_end : State → (b new_end : ℕ) → Option State
  truncate_bigalloc_at_end s b new_end =
      let r = s.big_allocations b in
      memset_state (set_record s b (record r { end = new_end }))
        (v.pagenum (v.round_down new_end page_size)) r.parent b
        (page_dist v (v.round_down new_end page_size) (v.round_down r.end page_size))

  -- __liballocs_truncate_bigalloc_at_beginning
  unfoldable pub truncate_bigalloc_at_beginning : State → (b new_begin : ℕ) → Option State
  truncate_bigalloc_at_beginning s b new_begin =
      let r = s.big_allocations b in
      memset_state (set_record s b (record r { begin = new_begin }))
        (v.pagenum (v.round_up r.begin page_size)) r.parent b
        (page_dist v (v.round_up r.begin page_size) (v.round_up new_begin page_size))

  -- __adjust_bigalloc_end
  unfoldable pub adjust_bigalloc_end : State → (b new_end : ℕ) → Option State
  unfolding extend_bigalloc truncate_bigalloc_at_end
  adjust_bigalloc_end s b new_end =
      let old_end = (s.big_allocations b).end in
      let less = truncate_bigalloc_at_end s b new_end in
      let more = extend_bigalloc s b new_end in
      if ltb new_end old_end then less else if ltb old_end new_end then more else some s
