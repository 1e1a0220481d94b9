-- ===== src/Mmap/Augment.antt =====
-- augment_sequence of src/allocators/mmap.c. The function get_highest_loaded_object_below belongs to
-- librunt: `object_below` stands for it. What __private_nommap_malloc and strcpy make of a filename is
-- `copied`: the number of the copied text, or 0 when there is no memory.
pub mod Splice
pub mod Stages
pub mod Search
pub mod Views
pub mod Spliced
pub mod Overlap
pub mod Correct
pub mod Append
pub mod Overrun
use liballocs.Common.{
  ℕ, zero, suc, ◌+◌, ◌-◌, ◌%◌, Bool, true, false, not, ◌&&◌, ◌||◌, Option, none, some, leb, ltb,
  ◌==◌, if◌then◌else◌, update, require, ◌>>=◌, ◌>>◌,
}
use liballocs.Mmap.{
  MappingEntry, MappingSequence, copy_all_left_from_by, copy_all_right_from_by,
  check_mapping_sequence_sanity,
}

-- the parameters of augment_sequence after the sequence
pub record Mapping : Type 0 where
  pub begin : ℕ
  pub end : ℕ
  pub prot : ℕ
  pub flags : ℕ
  pub offset : ℕ
  pub filename : ℕ
  pub caller : ℕ

-- OVERLAPS
abbrev pub overlaps : (b1 e1 b2 e2 : ℕ) → Bool
overlaps b1 e1 b2 e2 = ltb b1 e2 && leb b2 e1

abbrev pub is_null : ℕ → Bool
is_null p = p == 0

-- the entry that stands for the new mapping
abbrev pub new_entry : Mapping → MappingEntry
new_entry m = record {
  begin = m.begin;
  end = m.end;
  prot = m.prot;
  flags = m.flags;
  offset = m.offset;
  is_anon = is_null m.filename;
  caller = m.caller;
}

abbrev pub overlapped : (t : ℕ → MappingEntry) → Mapping → ℕ → Bool
overlapped t m i = overlaps (t i).begin (t i).end m.begin m.end

-- the loop that skips to the first overlapped entry; `none` means that the fuel ran out
unfoldable pub first_overlapped : (fuel : ℕ) (t : ℕ → MappingEntry) → Mapping → ℕ → Option ℕ
first_overlapped zero t m i = none
first_overlapped (suc fuel) t m i =
    let rest = first_overlapped fuel t m (i + 1) in if not (overlapped t m i) then rest else some i

-- the loop that goes down to the last overlapped entry, below i; `none` is a read of entry -1
unfoldable pub last_overlapped : (t : ℕ → MappingEntry) → Mapping → ℕ → Option ℕ
last_overlapped t m zero = none
last_overlapped t m (suc i) =
    let rest = last_overlapped t m i in if not (overlapped t m i) then rest else some i

set_entry_begin : (i begin : ℕ) → MappingSequence → MappingSequence
set_entry_begin i begin s = record s {
  mappings = update s.mappings i (record (s.mappings i) { begin = begin });
}

set_entry_end : (i end : ℕ) → MappingSequence → MappingSequence
set_entry_end i end s = record s {
  mappings = update s.mappings i (record (s.mappings i) { end = end });
}

unfoldable pub set_entry : (i : ℕ) → MappingEntry → MappingSequence → MappingSequence
set_entry i e s = record s { mappings = update s.mappings i e }

-- the elimination of a partial overlap at the beginning
unfoldable pub split_first : (i begin : ℕ) → MappingSequence → MappingSequence
unfolding copy_all_right_from_by set_entry_begin set_entry_end
split_first i begin s =
    set_entry_begin (i + 1) begin (set_entry_end i begin (copy_all_right_from_by s i 1))

-- the elimination of a partial overlap at the end
unfoldable pub split_last : (i end : ℕ) → MappingSequence → MappingSequence
unfolding copy_all_right_from_by set_entry_begin set_entry_end
split_last i end s =
    set_entry_end i end (set_entry_begin (i + 1) end (copy_all_right_from_by s i 1))

-- the end of the branch for an overlap: the entries from `first` on to `last` become the new one
unfoldable pub replace :
    (debug : Bool) (first last : ℕ) → MappingEntry → MappingSequence → Option MappingSequence
unfolding copy_all_left_from_by set_entry
replace debug first last e s = do
  require (not debug || leb first last)
  some (
      set_entry first e
        (if ltb first last then copy_all_left_from_by s (last + 1) (last - first) else s))

-- the index of the last overlapped entry after a partial overlap at the beginning is eliminated
abbrev pub last_after_split : (first last : ℕ) → ℕ
last_after_split first last =
    let last' = if first == last then last else last + 1 in
    if first == last' then last' + 1 else last'

-- the elimination of partial overlaps and what follows
unfoldable pub splice :
    (debug : Bool) (first last : ℕ) → Mapping → MappingSequence → Option MappingSequence
unfolding split_first split_last replace
splice debug first last m s =
    let begin_partial = not ((s.mappings first).begin == m.begin) in
    let end_partial = not ((s.mappings last).end == m.end) in
    let s1 = if begin_partial then split_first first m.begin s else s in
    let first1 = if begin_partial then first + 1 else first in
    let last1 = if begin_partial then last_after_split first last else last in
    let s2 = if end_partial then split_last last1 m.end s1 else s1 in
    replace debug first1 last1 (new_entry m) s2

module _ (object_below copied : ℕ → ℕ) where
  -- the test of the filename for a mapping that begins at the end of the sequence
  unfoldable pub may_follow : Mapping → MappingSequence → Bool
  may_follow m cur =
      let last = cur.mappings (cur.nused - 1) in
      (is_null m.filename && is_null cur.filename)
      || (cur.nused == 0)
      || ((m.prot == 0) && is_null m.filename)
      || (is_null m.filename
          && not (is_null cur.filename)
          && not last.is_anon
          && ((is_null m.caller && is_null last.caller)
              || (object_below m.caller == object_below last.caller)))
      || (not (is_null m.filename) && not (is_null cur.filename) && (m.filename == cur.filename))

  -- whether the entry before the new mapping is anonymous
  abbrev pub anon_before : (first : ℕ) (begin_partial : Bool) → MappingSequence → Bool
  anon_before first begin_partial cur =
      if begin_partial
      then (cur.mappings first).is_anon
      else not (first == 0) && (cur.mappings (first - 1)).is_anon

  -- whether there is an entry after the new mapping that has a filename
  abbrev pub named_after : (last : ℕ) (end_partial : Bool) → MappingSequence → Bool
  named_after last end_partial cur =
      let following = if end_partial then last else last + 1 in
      ltb following cur.nused && not (cur.mappings following).is_anon

  -- the test of the filename for a mapping over a part of the sequence
  unfoldable pub may_replace : (first last : ℕ) → Mapping → MappingSequence → Bool
  may_replace first last m cur =
      let begin_partial = not ((cur.mappings first).begin == m.begin) in
      let end_partial = not ((cur.mappings last).end == m.end) in
      let old_caller = (cur.mappings first).caller in
      if (is_null m.filename && is_null cur.filename) || (cur.nused == 0)
      then true
      else if not (is_null m.filename)
          && not (is_null cur.filename)
          && not (m.filename == cur.filename)
      then false
      else not (
          (anon_before first begin_partial cur && not (is_null m.filename))
          || (is_null m.filename && named_after last end_partial cur))
        && (is_null m.caller
            || is_null old_caller
            || (object_below m.caller == object_below old_caller))

  -- the new sequence of the branch for a mapping that begins at the end
  unfoldable pub append_entry : Mapping → MappingSequence → MappingSequence
  append_entry m cur = record {
    begin = if is_null cur.begin then m.begin else cur.begin;
    end = m.end;
    filename =
        if is_null cur.filename
        then (if is_null m.filename then 0 else copied m.filename)
        else cur.filename;
    nused = cur.nused + 1;
    mappings = update cur.mappings cur.nused (new_entry m);
  }

  -- the branch for a mapping over a part of the sequence; `none` for the sequence means that it stays
  unfoldable pub overlap_branch :
      (debug : Bool) → Mapping → MappingSequence → Option (Bool × MappingSequence)
  unfolding first_overlapped last_overlapped splice may_replace
  overlap_branch debug m cur = do
    first ← first_overlapped cur.nused cur.mappings m 0
    last ← last_overlapped cur.mappings m cur.nused
    let begin_partial = not ((cur.mappings first).begin == m.begin)
    let end_partial = not ((cur.mappings last).end == m.end)
    let nspare = (8 + 4294967296 - cur.nused) % 4294967296
    if not (may_replace first last m cur)
        then some (false, cur)
        else (if ltb nspare ((if begin_partial then 1 else 0) + (if end_partial then 1 else 0))
            then some (false, cur)
            else (do cur' ← splice debug first last m cur; some (true, cur')))

  abbrev pub is_clean_extension : Mapping → MappingSequence → Bool
  is_clean_extension m cur = is_null cur.end || (cur.end == m.begin)

  -- the branches of augment_sequence, from the first check of the sequence to `out`
  unfoldable pub augment_branches :
      (debug : Bool) → Mapping → MappingSequence → Option (Bool × MappingSequence)
  unfolding may_follow append_entry overlap_branch
  augment_branches debug m cur =
      if (is_clean_extension m cur || overlaps cur.begin cur.end m.begin m.end)
        && leb cur.begin m.begin
        && not (cur.nused == 8)
      then (if is_clean_extension m cur
          then (if may_follow m cur then some (true, append_entry m cur) else some (false, cur))
          else overlap_branch debug m cur)
      else some (false, cur)

  -- augment_sequence, on a sequence that is not null
  unfoldable pub augment_sequence :
      (debug : Bool) → Mapping → MappingSequence → Option (Bool × MappingSequence)
  unfolding augment_branches check_mapping_sequence_sanity
  augment_sequence debug m cur = do
    require (not debug || check_mapping_sequence_sanity cur)
    (ret, cur') ← augment_branches debug m cur
    require (not debug || check_mapping_sequence_sanity cur')
    some (ret, cur')
