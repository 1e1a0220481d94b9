-- ===== src/Mmap/Delete.antt =====
-- delete_mapping_sequence_span of src/allocators/mmap.c.
pub mod Loops
pub mod Trim
pub mod Correct
use liballocs.Common.{
  ℕ, zero, suc, ◌+◌, ◌-◌, Bool, true, false, not, ◌&&◌, ◌||◌, Option, none, some, leb, ltb, ◌==◌,
  if◌then◌else◌, update, require, ◌>>=◌, ◌>>◌,
}
use liballocs.Mmap.{
  MappingEntry, MappingSequence, zero_entry, mapping_sequence_max_len,
  check_mapping_sequence_sanity,
}

module _ (addr length : ℕ) where
  -- the test for overlap
  abbrev pub touches : MappingEntry → Bool
  touches e = leb e.begin (addr + length) && ltb addr e.end

  abbrev pub splits_mapping : MappingEntry → Bool
  splits_mapping e = ltb e.begin addr && ltb (addr + length) e.end

  abbrev pub left_at_beginning : MappingEntry → ℕ
  left_at_beginning e = if ltb e.begin addr then addr - e.begin else 0

  abbrev pub left_at_end : MappingEntry → ℕ
  left_at_end e = if ltb e.end (addr + length) then 0 else e.end - (addr + length)

  -- the new begin of an entry that keeps its end, and the new end of one that keeps its begin
  abbrev pub cut_begin : MappingEntry → ℕ
  cut_begin e = e.begin + (e.end - e.begin - left_at_end e)

  abbrev pub cut_end : MappingEntry → ℕ
  cut_end e = e.end - (e.end - e.begin - left_at_beginning e)

  module _ (debug : Bool) where
    -- the body of the loop over the entries
    unfoldable pub delete_from_entry : (i : ℕ) → MappingSequence → Option MappingSequence
    delete_from_entry i seq =
        let e = seq.mappings i in
        if touches e
        then (do
          require (not (splits_mapping e))
          if (left_at_beginning e == 0) && (left_at_end e == 0)
              then some (record seq { mappings = update seq.mappings i zero_entry })
              else (do
                require (not debug || ((left_at_beginning e == 0) || (left_at_end e == 0)))
                if left_at_beginning e == 0
                    then some (record seq {
                      mappings = update seq.mappings i (record e { begin = cut_begin e });
                      begin = if i == 0 then cut_begin e else seq.begin;
                    })
                    else some (record seq {
                      mappings = update seq.mappings i (record e { end = cut_end e });
                      end = if i + 1 == seq.nused then cut_end e else seq.end;
                    })))
        else some seq

    -- the loop, with `left` rounds to go from index i on
    unfoldable pub delete_from_entries : (left i : ℕ) → MappingSequence → Option MappingSequence
    unfolding delete_from_entry
    delete_from_entries zero i seq = some seq
    delete_from_entries (suc left) i seq = do
      seq' ← delete_from_entry i seq
      delete_from_entries left (i + 1) seq'

-- the move down over a cleared entry
unfoldable pub remove_entry : (i : ℕ) → MappingSequence → MappingSequence
remove_entry i seq =
    let moved : ℕ → MappingEntry =
      λ j. if leb i j && ltb (j + 1) seq.nused then seq.mappings (j + 1) else seq.mappings j in
    record seq { mappings = update moved (seq.nused - 1) zero_entry; nused = seq.nused - 1 }

-- the loop that compacts the sequence; `none` means that the fuel ran out
unfoldable pub compact : (fuel i : ℕ) → MappingSequence → Option MappingSequence
unfolding remove_entry
compact zero i seq = none
compact (suc fuel) i seq = elim (ltb i seq.nused) [
  | false ↦ some seq
  | true ↦ elim ((seq.mappings i).begin == 0) [
    | true ↦ compact fuel i (remove_entry i seq)
    | false ↦ compact fuel (i + 1) seq
  ]
]

-- the update of the overall metadata
unfoldable pub clip_bounds : (addr length : ℕ) → MappingSequence → MappingSequence
clip_bounds addr length seq = record seq {
  begin = if leb addr seq.begin && ltb seq.begin (addr + length) then addr + length else seq.begin;
  end = if ltb addr seq.end && leb seq.end (addr + length) then addr else seq.end;
}

-- delete_mapping_sequence_span
unfoldable pub delete_mapping_sequence_span :
    (debug : Bool) → MappingSequence → (addr length : ℕ) → Option MappingSequence
unfolding delete_from_entries compact clip_bounds check_mapping_sequence_sanity
delete_mapping_sequence_span debug seq addr length = do
  require (not debug || check_mapping_sequence_sanity seq)
  seq1 ← delete_from_entries addr length debug mapping_sequence_max_len 0 seq
  seq2 ← compact (seq1.nused + 1) 0 seq1
  let seq3 = clip_bounds addr length seq2
  require (not debug || check_mapping_sequence_sanity seq3)
  some seq3
