-- ===== src/Pageindex/Link.antt =====
-- add_child and unlink_child of src/pageindex.c, on the array of records. `none` is an abort or a
-- failed assertion; the assertions are checked where `debug` says that they are compiled in. link_child
-- is add_child less its calls of SANITY_CHECK_BIGALLOC, and unlink_child is without those calls.
pub mod Added
pub mod Graft
pub mod Prune
use liballocs.Common.{
  ℕ, Bool, true, false, not, ◌||◌, Option, none, some, ◌==◌, if◌then◌else◌, update, require, ◌>>=◌,
  ◌>>◌,
}
use liballocs.Pageindex.Vas.{Vas}
use liballocs.Pageindex.State.{BigAlloc}
use liballocs.Pageindex.Sanity.{sanity_check_bigalloc}

abbrev pub set_parent : (ℕ → BigAlloc) → ℕ → ℕ → ℕ → BigAlloc
set_parent bs b n = update bs b (record (bs b) { parent = n })

abbrev pub set_first_child : (ℕ → BigAlloc) → ℕ → ℕ → ℕ → BigAlloc
set_first_child bs b n = update bs b (record (bs b) { first_child = n })

abbrev pub set_next_sib : (ℕ → BigAlloc) → ℕ → ℕ → ℕ → BigAlloc
set_next_sib bs b n = update bs b (record (bs b) { next_sib = n })

abbrev pub set_prev_sib : (ℕ → BigAlloc) → ℕ → ℕ → ℕ → BigAlloc
set_prev_sib bs b n = update bs b (record (bs b) { prev_sib = n })

-- add_child, less its three calls of SANITY_CHECK_BIGALLOC
unfoldable pub link_child :
    (debug : Bool) → (ℕ → BigAlloc) → (child parent : ℕ) → Option (ℕ → BigAlloc)
link_child debug bs child parent = do
  require (not debug || (bs child).parent == 0)
  let bs1 = set_parent bs child parent
  let previous_first_child = (bs1 parent).first_child
  let bs2 = set_first_child bs1 parent child
  require (not debug || (bs2 child).next_sib == 0)
  let bs3 = set_next_sib bs2 child previous_first_child
  require (not debug || (previous_first_child == 0) || (bs3 previous_first_child).prev_sib == 0)
  let bs4 = if previous_first_child == 0 then bs3 else set_prev_sib bs3 previous_first_child child
  require (not debug || (bs4 child).prev_sib == 0)
  some bs4

-- add_child
unfoldable pub add_child :
    (v : Vas) (min_alignment : ℕ → ℕ) (depth_fuel fuel : ℕ) (pageindex : ℕ → ℕ)
    → (ℕ → BigAlloc)
    → (child parent : ℕ) → Option (ℕ → BigAlloc)
unfolding link_child sanity_check_bigalloc
add_child v min_alignment depth_fuel fuel pageindex bs child parent = do
  require (not v.debug || sanity_check_bigalloc v min_alignment bs pageindex depth_fuel fuel parent)
  bs1 ← link_child v.debug bs child parent
  require (not v.debug || sanity_check_bigalloc v min_alignment bs1 pageindex depth_fuel fuel child)
  require
      (not v.debug || sanity_check_bigalloc v min_alignment bs1 pageindex depth_fuel fuel parent)
  some bs1

-- unlink_child
unfoldable pub unlink_child : (debug : Bool) → (ℕ → BigAlloc) → (child : ℕ) → Option (ℕ → BigAlloc)
unlink_child debug bs child = do
  let parent = (bs child).parent
  require (not (parent == 0))
  let is_first = child == (bs parent).first_child
  let bs1 = if is_first then set_first_child bs parent (bs child).next_sib else bs
  require (
      not debug
      || (if is_first then (bs1 child).prev_sib == 0 else not ((bs1 child).prev_sib == 0)))
  let prev = (bs1 child).prev_sib
  let bs2 = if prev == 0 then bs1 else set_next_sib bs1 prev (bs1 child).next_sib
  let next = (bs2 child).next_sib
  let bs3 = if next == 0 then bs2 else set_prev_sib bs2 next (bs2 child).prev_sib
  some (set_parent (set_next_sib (set_prev_sib bs3 child 0) child 0) child 0)
