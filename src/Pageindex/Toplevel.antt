-- ===== src/Pageindex/Toplevel.antt =====
-- The list of records without a parent, of src/pageindex.c: find_toplevel_lowest_ge,
-- find_toplevel_highest_lt, add_toplevel, unlink_toplevel, __liballocs_find_mapping_at_or_above and
-- __liballocs_find_mapping_below. `start` is START, the record of the private malloc heap, from which
-- every search sets out. The fuel bounds the records visited; `none` is fuel run out or a failed
-- assertion.
pub mod Search
pub mod Correct
use liballocs.Common.{
  ℕ, zero, suc, ◌+◌, ◌%◌, Bool, true, false, not, ◌&&◌, ◌||◌, Option, none, some, ltb, leb, ◌==◌,
  if◌then◌else◌, require, ◌>>=◌, ◌>>◌,
}
use liballocs.Pageindex.State.{BigAlloc}
use liballocs.Pageindex.Link.{set_next_sib, set_prev_sib}

-- search_xwards_until_p along `step`: the record at which it stops, and the one before it
unfoldable pub search_until : (step : ℕ → ℕ) (p : ℕ → Bool) → ℕ → (cur prev : ℕ) → Option (ℕ × ℕ)
search_until step p zero cur prev = none
search_until step p (suc k) cur prev =
    let rest = search_until step p k (step cur) cur in
    if (cur == 0) || p cur then some (cur, prev) else rest

module _ (debug : Bool) (bs : ℕ → BigAlloc) (start fuel : ℕ) where
  -- `(uintptr_t) cur->end - 1 >= addr`, with the wrap-around of an end of 0
  abbrev pub is_ge : (addr cur : ℕ) → Bool
  is_ge addr cur = leb addr (((bs cur).end + 0xffff_ffff_ffff_ffff) % 0x1_0000_0000_0000_0000)

  -- `cur->begin < addr`
  abbrev pub is_lt : (addr cur : ℕ) → Bool
  is_lt addr cur = ltb (bs cur).begin addr

  abbrev pub next_of : ℕ → ℕ
  next_of b = (bs b).next_sib

  abbrev pub prev_of : ℕ → ℕ
  prev_of b = (bs b).prev_sib

  -- the second search of both functions, in the other direction
  unfoldable pub turn_back : (step : ℕ → ℕ) (p : ℕ → Bool) → Option ℕ
  unfolding search_until
  turn_back step p = do
    (cur, prev) ← search_until step (λ b. not (p b)) fuel start 0
    require (not debug || not (cur == start))
    require (not debug || not (prev == 0))
    some prev

  -- both functions, over the two directions and the test
  unfoldable pub search_around : (step back : ℕ → ℕ) (p : ℕ → Bool) → Option ℕ
  unfolding search_until turn_back
  search_around step back p = do
    (cur, prev) ← search_until step p fuel start 0
    (if not (cur == 0) && not (cur == start)
        then some cur
        else if cur == 0
        then some 0
        else turn_back back p)

  -- find_toplevel_lowest_ge
  unfoldable pub find_toplevel_lowest_ge : ℕ → Option ℕ
  unfolding search_around
  find_toplevel_lowest_ge addr = search_around next_of prev_of (is_ge addr)

  -- find_toplevel_highest_lt
  unfoldable pub find_toplevel_highest_lt : ℕ → Option ℕ
  unfolding search_around
  find_toplevel_highest_lt addr = search_around prev_of next_of (is_lt addr)

  -- __liballocs_find_mapping_at_or_above
  unfoldable pub find_mapping_at_or_above : ℕ → Option ℕ
  unfolding find_toplevel_lowest_ge find_toplevel_highest_lt
  find_mapping_at_or_above addr = do
    found ← find_toplevel_highest_lt addr
    (if found == 0
        then some 0
        else if leb (bs found).end addr
        then find_toplevel_lowest_ge addr
        else some found)

  -- __liballocs_find_mapping_below
  unfoldable pub find_mapping_below : ℕ → Option ℕ
  unfolding find_toplevel_highest_lt
  find_mapping_below addr = do
    found ← find_toplevel_highest_lt addr
    (if found == 0
        then some 0
        else if ltb addr (bs found).end
        then find_toplevel_highest_lt (bs found).begin
        else some found)

  -- add_toplevel
  unfoldable pub add_toplevel : ℕ → Option (ℕ → BigAlloc)
  unfolding find_toplevel_lowest_ge find_toplevel_highest_lt
  add_toplevel b = do
    next ← find_toplevel_lowest_ge (bs b).end
    let bs1 = set_next_sib bs b next
    prev ← (if next == 0 then find_toplevel_highest_lt (bs b).begin else some (bs1 next).prev_sib)
    let bs2 = set_prev_sib bs1 b prev
    let bs3 = if prev == 0 then bs2 else set_next_sib bs2 prev b
    some (if next == 0 then bs3 else set_prev_sib bs3 next b)

-- unlink_toplevel
unfoldable pub unlink_toplevel : (ℕ → BigAlloc) → ℕ → ℕ → BigAlloc
unlink_toplevel bs b =
    let prev = (bs b).prev_sib in
    let bs1 = if prev == 0 then bs else set_next_sib bs prev (bs b).next_sib in
    let next = (bs1 b).next_sib in if next == 0 then bs1 else set_prev_sib bs1 next (bs1 b).prev_sib
