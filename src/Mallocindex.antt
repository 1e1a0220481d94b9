-- ===== src/Mallocindex.antt =====
-- The bitmap index of heap chunks in include/generic_malloc_index.h, as it is built with NO_BIGALLOCS and
-- NO_ALLOC_CACHE. A chunk ends in a struct insert of 8 bytes, of include/malloc-meta.h; the memory of
-- inserts is a function of their addresses. The bitmaps and the rounding of addresses are of another
-- project and are a record of operations with their laws; sizefn, an argument of the code's functions too,
-- is a function. `none` is a failed assertion.
pub mod Lookup
pub mod Update
mod Tests
use liballocs.Common.{
  ℕ, zero, suc, ◌+◌, ◌-◌, ◌*◌, ◌/◌, ◌%◌, ◌≤◌, ◌<◌, ◌≡◌, Bool, true, false, not, ◌&&◌, ◌||◌, Option,
  none, some, leb, ltb, ◌==◌, if◌then◌else◌, require, ◌>>=◌, ◌>>◌,
}

-- bitmap.h and the rounding macros: rfind finds the last bit that is set, from word `hidden` to word
-- `nwords`, at or before a bit that it is given, both counted from word `hidden` on; grow is the
-- reallocation with new words of zeros
pub record BitmapOps : Type 1 where
  pub Bits : Type 0
  pub no_bits : Bits
  pub test : Bits → ℕ → Bool
  pub set : Bits → ℕ → Bits
  pub clear : Bits → ℕ → Bits
  pub grow : Bits → (nwords total_words : ℕ) → Bits
  pub rfind : Bits → (hidden nwords start_idx : ℕ) → Option ℕ
  pub round_down : (p align : ℕ) → ℕ
  pub round_up : (p align : ℕ) → ℕ
  pub test-set : (b : Bits) (i j : ℕ) → test (set b i) j ≡ (if j == i then true else test b j)
  pub test-clear : (b : Bits) (i j : ℕ) → test (clear b i) j ≡ (if j == i then false else test b j)
  pub test-grow :
      (b : Bits) (n total j : ℕ)
      → j < 64 * total
      → test (grow b n total) j ≡ (if ltb j (64 * n) then test b j else false)
  pub rfind_last :
      (b : Bits) (hidden n start i : ℕ)
      → 64 * hidden + start < 64 * n
      → i ≤ start
      → test b (64 * hidden + i) ≡ true
      → ((j : ℕ) → i < j → j ≤ start → test b (64 * hidden + j) ≡ false)
      → rfind b hidden n start ≡ some i
  pub rfind_none :
      (b : Bits) (hidden n start : ℕ)
      → 64 * hidden + start < 64 * n
      → ((j : ℕ) → j ≤ start → test b (64 * hidden + j) ≡ false)
      → rfind b hidden n start ≡ none
  pub round_down_multiple : (p align : ℕ) → 0 < align → round_down p align ≡ p - p % align
  pub round_up_multiple :
      (p align : ℕ)
      → 0 < align
      → round_up p align ≡ (if p % align == 0 then p else p + align - p % align)

-- struct insert: `initial` as it is laid out
pub record Insert : Type 0 where
  pub always_0 : ℕ
  pub alloc_site : ℕ
  pub unused : ℕ
  pub lifetime_policies : ℕ

-- INSERT_DESCRIBES_OBJECT; alloc_site_id is the low 15 bits of alloc_site
unfoldable pub insert_describes_object : (minimum_user_address : ℕ) → Insert → Bool
insert_describes_object minimum_user_address ins =
    not (ins.alloc_site % 0x8000 == 0) || leb minimum_user_address ins.alloc_site

-- a difference of 64-bit numbers
abbrev pub sub64 : (a b : ℕ) → ℕ
sub64 a b = (a + 0x1_0000_0000_0000_0000 - b) % 0x1_0000_0000_0000_0000

-- caller_usable_size_for_chunk_and_usable_size
abbrev pub caller_usable_size_for_chunk_and_usable_size : (alloc_usable_size : ℕ) → ℕ
caller_usable_size_for_chunk_and_usable_size alloc_usable_size = sub64 alloc_usable_size 8

-- insert_for_chunk
unfoldable pub insert_for_chunk : (userptr : ℕ) (sizefn : ℕ → ℕ) → ℕ
insert_for_chunk userptr sizefn =
    (userptr + caller_usable_size_for_chunk_and_usable_size (sizefn userptr))
    % 0x1_0000_0000_0000_0000

-- what a lookup finds: the address of the insert, the start and the size of the object
pub record FoundObject : Type 0 where
  pub insert : ℕ
  pub object_start : ℕ
  pub object_size : ℕ

module _ (ops : BitmapOps) where
  -- struct arena_bitmap_info
  pub record ArenaBitmapInfo : Type 0 where
    pub nwords : ℕ
    pub bitmap : ops.Bits
    pub bitmap_base_addr : ℕ
    pub bitmap_insert_count : ℕ
    pub biggest_allocated_object : ℕ
    pub biggest_unpromoted_object : ℕ

  -- ensure_arena_has_info, for an arena without one
  abbrev pub ensure_arena_has_info : (arena_begin : ℕ) → ArenaBitmapInfo
  ensure_arena_has_info arena_begin = record {
    nwords = 0;
    bitmap = ops.no_bits;
    bitmap_base_addr = ops.round_down arena_begin 1024;
    bitmap_insert_count = 0;
    biggest_allocated_object = 0;
    biggest_unpromoted_object = 0;
  }

  -- ensure_has_bitmap_to
  unfoldable pub ensure_has_bitmap_to : ArenaBitmapInfo → (end : ℕ) → ArenaBitmapInfo
  ensure_has_bitmap_to info end =
      let total_words = sub64 (ops.round_up end 1024) info.bitmap_base_addr / 1024 in
      if ltb info.nwords total_words
      then record info {
        nwords = total_words;
        bitmap = ops.grow info.bitmap info.nwords total_words;
      }
      else info

module _ (debug : Bool) (ops : BitmapOps) (sizefn : ℕ → ℕ) where
  -- __generic_malloc_index_insert: the inserts and the index
  unfoldable pub index_insert :
      (inserts : ℕ → Insert) (info : ArenaBitmapInfo ops)
      (allocptr caller_requested_size caller : ℕ)
      → (ℕ → Insert) × ArenaBitmapInfo ops
  index_insert inserts info allocptr caller_requested_size caller =
      let info1 = ensure_has_bitmap_to ops info (allocptr + caller_requested_size) in
      let caller_usable_size = caller_usable_size_for_chunk_and_usable_size (sizefn allocptr) in
      let insertptr = insert_for_chunk allocptr sizefn in
      (
        λ a.
            if a == insertptr
            then record (inserts a) { alloc_site = caller % 0x8000_0000_0000; unused = 0 }
            else inserts a,
        record info1 {
          biggest_allocated_object =
              if ltb info1.biggest_allocated_object caller_usable_size
              then caller_usable_size
              else info1.biggest_allocated_object;
          biggest_unpromoted_object =
              if ltb info1.biggest_unpromoted_object caller_usable_size
              then caller_usable_size
              else info1.biggest_unpromoted_object;
          bitmap_insert_count =
              if debug then info1.bitmap_insert_count + 1 else info1.bitmap_insert_count;
          bitmap = ops.set info1.bitmap (sub64 allocptr info1.bitmap_base_addr / 16);
        },
      )

  -- __generic_malloc_index_delete
  unfoldable pub index_delete : ArenaBitmapInfo ops → (userptr : ℕ) → Option (ArenaBitmapInfo ops)
  index_delete info userptr = do
    require (not debug || not (userptr == 0))
    require (not debug || leb info.bitmap_base_addr userptr)
    some (record info { bitmap = ops.clear info.bitmap (sub64 userptr info.bitmap_base_addr / 16) })

  -- the words that a search without assertions leaves out
  unfoldable pub hidden_words : ArenaBitmapInfo ops → (mem : ℕ) → ℕ
  hidden_words info mem =
      let fake = ops.round_down (sub64 mem info.biggest_unpromoted_object) 1024 in
      if not debug && ltb info.bitmap_base_addr fake
      then (fake - info.bitmap_base_addr) / 1024
      else 0

  -- what lookup_object_info_via_bitmap answers for a bit that it found
  unfoldable pub found_object :
      (minimum_user_address : ℕ) (inserts : ℕ → Insert)
      → ArenaBitmapInfo ops
      → (hidden : ℕ) → Option ℕ
      → Option (Option FoundObject)
  found_object minimum_user_address inserts info hidden none = some none
  found_object minimum_user_address inserts info hidden (some found_bitidx) =
      let object_start = info.bitmap_base_addr + 16 * (found_bitidx + 64 * hidden) in
      let insert = insert_for_chunk object_start sizefn in
      do
        require (
            not debug
            || not (object_start == 0)
              && insert_describes_object minimum_user_address (inserts insert))
        some (
            some (record {
              insert = insert;
              object_start = object_start;
              object_size = caller_usable_size_for_chunk_and_usable_size (sizefn object_start);
            }))

  -- lookup_object_info_via_bitmap, on an index that there is
  unfoldable pub lookup_object_info_via_bitmap :
      (minimum_user_address : ℕ) (inserts : ℕ → Insert)
      → ArenaBitmapInfo ops
      → (mem : ℕ) → Option (Option FoundObject)
  lookup_object_info_via_bitmap minimum_user_address inserts info mem =
      let start_idx = sub64 mem info.bitmap_base_addr / 16 % 0x1_0000_0000 in
      let hidden = hidden_words info mem in
      found_object minimum_user_address inserts info hidden
        (ops.rfind info.bitmap hidden info.nwords (sub64 start_idx (64 * hidden)))
