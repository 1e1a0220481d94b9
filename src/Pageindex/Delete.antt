-- ===== src/Pageindex/Delete.antt =====
-- The deletion of records in src/pageindex.c: clear_bigalloc_nomemset, bigalloc_del,
-- __liballocs_delete_bigalloc_at and __liballocs_delete_all_bigallocs_overlapping_range. The calls of
-- free functions are logged in the state's `freed`. The calls of SANITY_CHECK_BIGALLOC, of the lock
-- and of the output functions are left out. `none` is an abort, a failed assertion or fuel run out.
pub mod Cleared
use liballocs.Common.{
  ℕ, zero, suc, ◌+◌, ◌*◌, ◌-◌, ltb, leb, Bool, true, false, not, ◌&&◌, ◌||◌, Option, none, some,
  List, ◌∷◌, ◌==◌, if◌then◌else◌, require, ◌>>=◌, ◌>>◌,
}
use liballocs.Pageindex.Vas.{Vas, page_size, page_dist}
use liballocs.Pageindex.State.{BigAlloc, State, in_use}
use liballocs.Pageindex.Link.{unlink_child}
use liballocs.Pageindex.Toplevel.{unlink_toplevel}
use liballocs.Pageindex.Find.{find_bigalloc_recursive}
use liballocs.Pageindex.Resize.{set_record, memset_state}

-- the calls that delete the user metadata of a record, added to the log
abbrev pub free_private : List (ℕ × ℕ) → BigAlloc → List (ℕ × ℕ)
free_private freed r =
    let freed1 =
      if not (r.allocator_private == 0) && not (r.allocator_private_free == 0)
      then (r.allocator_private_free, r.allocator_private) ∷ freed
      else freed in
    if r.suballocator_private_free == 0
    then freed1
    else (r.suballocator_private_free, r.suballocator_private) ∷ freed1

-- clear_bigalloc_nomemset
abbrev pub clear_bigalloc_nomemset : State → ℕ → State
clear_bigalloc_nomemset s b = set_record s b (record (s.big_allocations b) { begin = 0; end = 0 })

-- the removal from the list that the record is on
unfoldable pub unlink : (debug : Bool) → (ℕ → BigAlloc) → ℕ → Option (ℕ → BigAlloc)
unfolding unlink_child unlink_toplevel
unlink debug bs b =
    if (bs b).parent == 0 then some (unlink_toplevel bs b) else unlink_child debug bs b

module _ (v : Vas) where
  -- bigalloc_del after the deletion of the children
  unfoldable pub del_childless : State → ℕ → Option State
  unfolding unlink
  del_childless s b = do
    let s1 = record s { freed = free_private s.freed (s.big_allocations b) }
    let parent = (s1.big_allocations b).parent
    bs ← unlink v.debug s1.big_allocations b
    let r = bs b
    s2 ←
        memset_state v (record s1 { big_allocations = bs })
          (v.pagenum (v.round_up r.begin page_size)) parent b
          (page_dist v (v.round_up r.begin page_size) (v.round_down r.end page_size))
    let s3 = clear_bigalloc_nomemset s2 b
    require (not v.debug || not (in_use (s3.big_allocations b)))
    some s3

  -- the loop of bigalloc_del over the children, from `child` on
  unfoldable pub del_children : ℕ → State → (child : ℕ) → Option State
  unfolding del_childless
  del_children zero s child = none
  del_children (suc k) s child = elim (child == 0) [
    | true ↦ some s
    | false ↦ do
      let next_child = (s.big_allocations child).next_sib
      s1 ← del_children k s (s.big_allocations child).first_child
      s2 ← del_childless s1 child
      del_children k s2 next_child
  ]

  -- bigalloc_del
  unfoldable pub bigalloc_del : (fuel : ℕ) → State → ℕ → Option State
  unfolding del_children
  bigalloc_del fuel s b = do
    s1 ← del_children fuel s (s.big_allocations b).first_child
    del_childless s1 b

-- `while (BIDX(b->parent)) b = BIDX(b->parent)`
unfoldable pub outermost : (ℕ → BigAlloc) → ℕ → (b : ℕ) → Option ℕ
outermost bs zero b = none
outermost bs (suc k) b =
    let up = outermost bs k (bs b).parent in if (bs b).parent == 0 then some b else up

-- find_bigalloc_from_root for an allocator that is not null, once __liballocs_systrap_is_initialized:
-- an address whose page has no entry is searched from record 0, as the code does.
unfoldable pub find_bigalloc_from_root : Vas → (fuel : ℕ) → State → (addr a : ℕ) → Option ℕ
unfolding outermost find_bigalloc_recursive
find_bigalloc_from_root v fuel s addr a = do
  start ← outermost s.big_allocations fuel (s.pageindex (v.pagenum addr))
  find_bigalloc_recursive s.big_allocations fuel start addr a false

-- the number of entries before the first one that is not 0, of the `n` from `pos` on
unfoldable pub zeros_from : (ℕ → ℕ) → ℕ → ℕ → ℕ
zeros_from t zero pos = 0
zeros_from t (suc n) pos = let rest = zeros_from t n (pos + 1) in if t pos == 0 then 1 + rest else 0

module _ (v : Vas) where
  -- __liballocs_delete_bigalloc_at: the state and the answer
  unfoldable pub delete_bigalloc_at : (fuel : ℕ) → State → (begin a : ℕ) → Option (State × Bool)
  unfolding find_bigalloc_from_root bigalloc_del
  delete_bigalloc_at fuel s begin a = do
    b ← find_bigalloc_from_root v fuel s begin a
    elim (b == 0) [
      | true ↦ some (s, false)
      | false ↦ do s' ← bigalloc_del v fuel s b; some (s', true)
    ]

  -- where the loop goes on: the address of the next entry that is not 0
  unfoldable pub next_indexed : State → (deleted_up_to end : ℕ) → ℕ
  unfolding zeros_from
  next_indexed s deleted_up_to end =
      let initial_pagenum = v.pagenum deleted_up_to in
      let max_len = v.pagenum (v.round_up end page_size) - initial_pagenum in
      deleted_up_to + page_size * zeros_from s.pageindex max_len initial_pagenum

  -- the loop of __liballocs_delete_all_bigallocs_overlapping_range, which always answers 1
  unfoldable pub delete_all_from : (fuel : ℕ) → ℕ → State → (deleted_up_to end : ℕ) → Option State
  unfolding next_indexed outermost bigalloc_del
  delete_all_from fuel zero s deleted_up_to end = none
  delete_all_from fuel (suc k) s deleted_up_to end = elim (ltb deleted_up_to end) [
    | false ↦ some s
    | true ↦
        let from = next_indexed s deleted_up_to end in
        elim (leb end from) [
          | true ↦ some s
          | false ↦ do
            let n = s.pageindex (v.pagenum from)
            require (not (n == 0))
            require (not ((s.big_allocations n).begin == 0))
            require (not ((s.big_allocations n).end == 0))
            b ← outermost s.big_allocations fuel n
            require (ltb from (s.big_allocations b).end)
            s' ← bigalloc_del v fuel s b
            delete_all_from fuel k s' (s.big_allocations b).end end
        ]
  ]

  -- __liballocs_delete_all_bigallocs_overlapping_range
  unfoldable pub delete_all_bigallocs_overlapping_range :
      (fuel : ℕ) → State → (begin end : ℕ) → Option State
  unfolding delete_all_from
  delete_all_bigallocs_overlapping_range fuel s begin end = delete_all_from fuel fuel s begin end
