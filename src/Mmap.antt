-- ===== src/Mmap.antt =====
-- The mapping sequences of src/allocators/mmap.c (struct mapping_sequence of src/liballocs_private.h,
-- struct mapping_entry of include/liballocs.h): at most eight abutting memory mappings under one
-- record of the page index. The array `mappings` is a function of the index. A filename is a number
-- that stands for the text, 0 for the null pointer, so that strcmp gives 0 on equal numbers. An abort
-- or a failed assertion is `none`.
pub mod Entries
pub mod Compare
pub mod Delete
pub mod Augment
mod Tests
use liballocs.Common.{
  ℕ, zero, suc, ◌+◌, ◌-◌, Bool, true, false, not, ◌&&◌, ◌||◌, Option, none, some, leb, ltb, ◌==◌,
  if◌then◌else◌, update,
}

-- struct mapping_entry
pub record MappingEntry : Type 0 where
  pub begin : ℕ
  pub end : ℕ
  pub prot : ℕ
  pub flags : ℕ
  pub offset : ℕ
  pub is_anon : Bool
  pub caller : ℕ

-- MAPPING_SEQUENCE_MAX_LEN
abbrev pub mapping_sequence_max_len : ℕ
mapping_sequence_max_len = 8

-- struct mapping_sequence
pub record MappingSequence : Type 0 where
  pub begin : ℕ
  pub end : ℕ
  pub filename : ℕ
  pub nused : ℕ
  pub mappings : ℕ → MappingEntry

-- what memset makes of an entry
abbrev pub zero_entry : MappingEntry
zero_entry = record {
  begin = 0;
  end = 0;
  prot = 0;
  flags = 0;
  offset = 0;
  is_anon = false;
  caller = 0;
}

abbrev pub same_bool : Bool → Bool → Bool
same_bool a b = if a then b else not b

-- mapping_entry_equal
abbrev pub mapping_entry_equal : MappingEntry → MappingEntry → Bool
mapping_entry_equal e1 e2 =
    (e1.begin == e2.begin)
    && (e1.end == e2.end)
    && (e1.prot == e2.prot)
    && (e1.flags == e2.flags)
    && (e1.offset == e2.offset)
    && same_bool e1.is_anon e2.is_anon
    && (e1.caller == e2.caller)

-- mapping_entries_equal on n elements from t1[i] and t2[j] on
unfoldable pub mapping_entries_equal : (t1 t2 : ℕ → MappingEntry) (i j n : ℕ) → Bool
mapping_entries_equal t1 t2 i j zero = true
mapping_entries_equal t1 t2 i j (suc n) =
    let rest = mapping_entries_equal t1 t2 (i + 1) (j + 1) n in
    if not (mapping_entry_equal (t1 i) (t2 j)) then false else rest

-- mapping_sequence_prefix
unfoldable pub mapping_sequence_prefix : MappingSequence → MappingSequence → Bool
unfolding mapping_entries_equal
mapping_sequence_prefix s1 s2 =
    let last1 = s1.mappings (s1.nused - 1) in
    let last2 = s2.mappings (s2.nused - 1) in
    leb s1.nused s2.nused
    && (mapping_entries_equal s1.mappings s2.mappings 0 0 s1.nused
        || (mapping_entries_equal s1.mappings s2.mappings 0 0 (s1.nused - 1)
            && (s1.nused == s2.nused)
            && last1.is_anon
            && last2.is_anon
            && (last1.begin == last2.begin)
            && leb last1.end last2.end))

-- mem_range_prefix
abbrev pub mem_range_prefix : MappingSequence → MappingSequence → Bool
mem_range_prefix s1 s2 = (s1.begin == s2.begin) && ltb s1.end s2.end

-- mapping_sequence_suffix
unfoldable pub mapping_sequence_suffix : MappingSequence → MappingSequence → Bool
unfolding mapping_entries_equal
mapping_sequence_suffix s1 s2 =
    leb s1.nused s2.nused
    && mapping_entries_equal s2.mappings s1.mappings (s2.nused - s1.nused) 0 s1.nused

-- mem_range_suffix
abbrev pub mem_range_suffix : MappingSequence → MappingSequence → Bool
mem_range_suffix s1 s2 = (s1.end == s2.end) && ltb s2.begin s1.begin

abbrev pub in_mapping : MappingEntry → ℕ → Bool
in_mapping e addr = leb e.begin addr && ltb addr e.end

-- the loop of __mmap_allocator_find_entry, from index i on
unfoldable pub find_entry_from : (t : ℕ → MappingEntry) (addr left i : ℕ) → Option ℕ
find_entry_from t addr zero i = none
find_entry_from t addr (suc left) i =
    let rest = find_entry_from t addr left (i + 1) in if in_mapping (t i) addr then some i else rest

-- __mmap_allocator_find_entry: the index of the entry, or `none` for the null pointer
unfoldable pub find_entry : ℕ → MappingSequence → Option ℕ
unfolding find_entry_from
find_entry addr seq = find_entry_from seq.mappings addr seq.nused 0

-- copy_all_left_from_by: memmove, and fewer entries in use
unfoldable pub copy_all_left_from_by : MappingSequence → (from by : ℕ) → MappingSequence
copy_all_left_from_by s from by = record s {
  mappings =
      λ j. if leb (from - by) j && ltb (j + by) s.nused then s.mappings (j + by) else s.mappings j;
  nused = s.nused - by;
}

-- copy_all_right_from_by
unfoldable pub copy_all_right_from_by : MappingSequence → (from by : ℕ) → MappingSequence
copy_all_right_from_by s from by = record s {
  mappings =
      λ j. if leb (from + by) j && ltb j (s.nused + by) then s.mappings (j - by) else s.mappings j;
  nused = s.nused + by;
}

-- the loop of check_mapping_sequence_sanity, from index i on
unfoldable pub sane_from : (t : ℕ → MappingEntry) (left i : ℕ) → Bool
sane_from t zero i = true
sane_from t (suc left) i =
    let rest = sane_from t left (i + 1) in
    not ((t i).begin == 0)
    && not ((t i).end == 0)
    && ltb (t i).begin (t i).end
    && ((i == 0) || ((t (i - 1)).end == (t i).begin))
    && rest

-- check_mapping_sequence_sanity: whether no assertion fails
unfoldable pub check_mapping_sequence_sanity : MappingSequence → Bool
unfolding sane_from
check_mapping_sequence_sanity cur =
    (cur.nused == 0)
    || ((cur.begin == (cur.mappings 0).begin)
        && (cur.end == (cur.mappings (cur.nused - 1)).end)
        && sane_from cur.mappings cur.nused 0)
