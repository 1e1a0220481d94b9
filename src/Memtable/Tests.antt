-- ===== src/Memtable/Tests.antt =====
-- A table of one-byte entries for regions of 512 bytes.
use liballocs.Common.{ℕ, ◌+◌, ◌-◌, ◌*◌, ◌≤◌, ◌<◌, ◌≡◌, refl, inl, some, arith}
use liballocs.Memtable.{
  memtable_addr, memtable_addr_range_base, memtable_addr_range_offset,
  memtable_addr_range_base-region,
}

memtable_addr_range_base-region_example :
    (base : ℕ) × (k : ℕ) × (memtable_addr_range_base 0x8000 1 512 0x1000 0 0x1777 ≡ some base)
    × (base ≡ k * 512 + 0x1000)
    × (base ≤ 0x1777)
    × (0x1777 < base + 512)
    × (memtable_addr 0x8000 1 512 0x1000 0 0x1777 ≡ some (0x8000 + 1 * k))
    × (memtable_addr_range_offset 0x8000 1 512 0x1000 0 0x1777 ≡ some (0x1777 - base))
memtable_addr_range_base-region_example =
    memtable_addr_range_base-region 0x8000 1 512 0x1000 0 0x1777 (omega arith) (omega arith)
      (omega arith) (inl refl)

memtable_addr_range_offset_run :
    memtable_addr_range_offset 0x8000 1 512 0x1000 0 0x1777 ≡ some 0x177
unfolding memtable_addr_range_offset
memtable_addr_range_offset_run = refl
