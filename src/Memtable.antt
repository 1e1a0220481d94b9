-- ===== src/Memtable.antt =====
-- The address arithmetic of include/memtable.h: a table with one entry of `entry_size` bytes for each
-- region of `coverage` bytes from `addr_begin` on. The function memtable_mapping_size, which divides
-- by a power of two, and the calls that map and unmap a table are not modelled.
mod Tests
use liballocs.Common.{
  ℕ, ◌+◌, ◌-◌, ◌*◌, ◌/◌, ◌%◌, ◌≤◌, ◌<◌, ◌≡◌, refl, ap, ◌∙◌, Bool, true, false, ◌&&◌, ◌||◌, Option,
  none, some, arith, ltb, leb, ◌==◌, if◌then◌else◌, ◌⊎◌, require, require-true, ◌>>=◌, ◌>>◌,
}
use native.Mathlib.Nat.{add-sub_cancel_left, mul-div_cancel_left, div-add-mod', mod-lt}

module _ (memtable entry_size coverage addr_begin addr_end : ℕ) where
  -- memtable_index
  abbrev pub memtable_index : ℕ → ℕ
  memtable_index index = memtable + entry_size * index

  -- memtable_addr; `none` is the failed assertion
  unfoldable pub memtable_addr : ℕ → Option ℕ
  memtable_addr addr = do
    require (leb addr_begin addr && ((addr_end == 0) || ltb addr addr_end))
    some (memtable_index ((addr - addr_begin) / coverage))

  -- memtable_entry_range_base
  unfoldable pub memtable_entry_range_base : ℕ → ℕ
  memtable_entry_range_base entry_ptr = (entry_ptr - memtable) / entry_size * coverage + addr_begin

  -- memtable_addr_range_base
  unfoldable pub memtable_addr_range_base : ℕ → Option ℕ
  unfolding memtable_addr memtable_entry_range_base
  memtable_addr_range_base addr = do
    entry ← memtable_addr addr
    some (memtable_entry_range_base entry)

  -- memtable_addr_range_offset
  unfoldable pub memtable_addr_range_offset : ℕ → Option ℕ
  unfolding memtable_addr_range_base
  memtable_addr_range_offset addr = do base ← memtable_addr_range_base addr; some (addr - base)

module _ (memtable entry_size coverage addr_begin addr_end addr : ℕ) (some_size : 0 < entry_size)
    (some_coverage : 0 < coverage) (above : addr_begin ≤ addr)
    (under : (addr_end ≡ 0) ⊎ (addr < addr_end)) where
  memtable_addr-index :
      memtable_addr memtable entry_size coverage addr_begin addr_end addr
      ≡ some (memtable + entry_size * ((addr - addr_begin) / coverage))
  unfolding memtable_addr
  memtable_addr-index =
      require-true (leb addr_begin addr && ((addr_end == 0) || ltb addr addr_end)) _ (ground arith)

  entry_range_base-index :
      (k : ℕ)
      → memtable_entry_range_base memtable entry_size coverage addr_begin addr_end
          (memtable + entry_size * k)
        ≡ k * coverage + addr_begin
  unfolding memtable_entry_range_base
  entry_range_base-index k =
      ap (λ t. t / entry_size * coverage + addr_begin)
        (add-sub_cancel_left memtable (entry_size * k))
      ∙ ap (λ t. t * coverage + addr_begin) (mul-div_cancel_left k some_size)

  range_base-eq :
      memtable_addr_range_base memtable entry_size coverage addr_begin addr_end addr
      ≡ some ((addr - addr_begin) / coverage * coverage + addr_begin)
  unfolding memtable_addr_range_base
  range_base-eq =
      ap
        (λ m. m >>= λ entry.
          some (memtable_entry_range_base memtable entry_size coverage addr_begin addr_end entry))
        memtable_addr-index
      ∙ ap some (entry_range_base-index ((addr - addr_begin) / coverage))

  -- For an address in the range of a table whose entries and regions are not empty,
  -- memtable_addr_range_base passes its assertion and returns the begin of the region, one of those
  -- that follow each other from addr_begin on, that the address lies in;
  -- memtable_addr returns the entry of the same number, and memtable_addr_range_offset the distance to
  -- that begin.
  pub memtable_addr_range_base-region :
      (base : ℕ) × (k : ℕ) × (memtable_addr_range_base memtable entry_size coverage addr_begin
          addr_end addr
        ≡ some base)
      × (base ≡ k * coverage + addr_begin)
      × (base ≤ addr)
      × (addr < base + coverage)
      × (memtable_addr memtable entry_size coverage addr_begin addr_end addr
          ≡ some (memtable + entry_size * k))
      × (memtable_addr_range_offset memtable entry_size coverage addr_begin addr_end addr
          ≡ some (addr - base))
  unfolding memtable_addr_range_base memtable_addr_range_offset
  memtable_addr_range_base-region =
      let k = (addr - addr_begin) / coverage in
      let whole = div-add-mod' (addr - addr_begin) coverage in
      let less = mod-lt (addr - addr_begin) some_coverage in
      let entry = memtable_addr-index in
      (
        k * coverage + addr_begin,
        k,
        range_base-eq,
        refl,
        ground arith,
        ground arith,
        entry,
        ap (λ m. m >>= λ b. some (addr - b)) range_base-eq,
      )
