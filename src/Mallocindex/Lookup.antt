-- ===== src/Mallocindex/Lookup.antt =====
-- What the bitmap index holds, and the lookup of the chunk around an address.
use liballocs.Common.{
  ℕ, ◌+◌, ◌-◌, ◌*◌, ◌/◌, ◌%◌, ◌≤◌, ◌<◌, ◌≡◌, Bool, true, false, Option, none, some, arith, List,
  has, ◌∈◌, Distinct, ap, ◌∙◌, Bool-cases, inl, inr,
}
use liballocs.Mallocindex.{
  BitmapOps, ArenaBitmapInfo, Insert, insert_describes_object, sub64, insert_for_chunk,
  hidden_words, found_object, lookup_object_info_via_bitmap,
}

-- The arena ends below 2 ^ 47 and less than 64 GiB after the base; a chunk is 16-byte-aligned, holds
-- its insert, and ends in the arena.
pub record IsChunk (base : ℕ) (sizefn : ℕ → ℕ) (a : ℕ) : Type 0 where
  pub after_base : base ≤ a
  pub aligned : (a - base) % 16 ≡ 0
  pub holds_insert : 8 ≤ sizefn a
  pub low : a + sizefn a < 0x8000_0000_0000
  pub near : a + sizefn a < base + 0x10_0000_0000

-- The bits that are set are those of the chunks at `starts`, each chunk has a bit, an insert that
-- describes an object, and a size that the bound covers.
pub record IsIndex (ops : BitmapOps) (sizefn : ℕ → ℕ) (minimum_user_address : ℕ)
    (inserts : ℕ → Insert) (info : ArenaBitmapInfo ops) (starts : List ℕ) : Type 0 where
  pub base_aligned : info.bitmap_base_addr % 1024 ≡ 0
  pub base_positive : 0 < info.bitmap_base_addr
  pub bits :
      (i : ℕ)
      → i < 64 * info.nwords
      → ops.test info.bitmap i ≡ has (info.bitmap_base_addr + 16 * i) starts
  pub once : Distinct starts
  pub chunks : (a : ℕ) → a ∈ starts → IsChunk info.bitmap_base_addr sizefn a
  pub covered : (a : ℕ) → a ∈ starts → a < info.bitmap_base_addr + 1024 * info.nwords
  pub bounded : (a : ℕ) → a ∈ starts → sizefn a ≤ info.biggest_unpromoted_object + 8
  pub described :
      (a : ℕ)
      → a ∈ starts
      → insert_describes_object minimum_user_address (inserts (insert_for_chunk a sizefn)) ≡ true

module _ (debug : Bool) (ops : BitmapOps) (sizefn : ℕ → ℕ) where
  -- The words that are left out end at or before the bit of the chunk.
  hidden_words_bound :
      (info : ArenaBitmapInfo ops) (mem a : ℕ)
      → info.bitmap_base_addr ≤ a
      → a ≤ mem
      → mem < 0x8000_0000_0000
      → info.biggest_unpromoted_object ≤ mem
      → mem ≤ a + info.biggest_unpromoted_object
      → 64 * hidden_words debug ops sizefn info mem ≤ (a - info.bitmap_base_addr) / 16
  unfolding hidden_words
  hidden_words_bound info mem a above le small enough near =
      ground (
        arith,
        ops.round_down_multiple (sub64 mem info.biggest_unpromoted_object) 1024 (omega arith),
      )

  bit_index :
      (base mem : ℕ)
      → base ≤ mem
      → mem < 0x8000_0000_0000
      → mem < base + 0x10_0000_0000
      → sub64 mem base / 16 % 0x1_0000_0000 ≡ (mem - base) / 16
  bit_index base mem above small near = omega arith

  rfind_finds :
      (b : ops.Bits) (h n s m : ℕ)
      → 64 * h ≤ s
      → s ≤ m
      → m < 64 * n
      → ops.test b s ≡ true
      → ((j : ℕ) → s < j → j ≤ m → ops.test b j ≡ false)
      → ops.rfind b h n (m - 64 * h) ≡ some (s - 64 * h)
  rfind_finds b h n s m hidden le covered set_ clear_ =
      let at : 64 * h + (s - 64 * h) ≡ s = omega arith in
      ops.rfind_last b h n (m - 64 * h) (s - 64 * h) (omega arith) (omega arith) (rw at set_)
        (λ j up down. clear_ (64 * h + j) (omega arith) (omega arith))

  found_object_finds :
      (minimum_user_address : ℕ) (inserts : ℕ → Insert) (info : ArenaBitmapInfo ops)
      (hidden k a size : ℕ)
      → (info.bitmap_base_addr + 16 * (k + 64 * hidden)) ≡ a
      → sub64 (sizefn a) 8 ≡ size
      → 0 < a
      → insert_describes_object minimum_user_address (inserts (insert_for_chunk a sizefn)) ≡ true
      → found_object debug ops sizefn minimum_user_address inserts info hidden (some k)
        ≡ some (
            some
              (record { insert = insert_for_chunk a sizefn; object_start = a; object_size = size }))
  unfolding found_object
  found_object_finds minimum_user_address inserts info hidden k a size e same pos ok =
      rw (e, same) (ground (arith, ok))

  lookup_by_rfind :
      (minimum_user_address : ℕ) (inserts : ℕ → Insert) (info : ArenaBitmapInfo ops) (mem start : ℕ)
      (found : Option ℕ)
      → sub64
          (sub64 mem info.bitmap_base_addr / 16 % 0x1_0000_0000)
          (64 * hidden_words debug ops sizefn info mem)
        ≡ start
      → ops.rfind info.bitmap (hidden_words debug ops sizefn info mem) info.nwords start ≡ found
      → lookup_object_info_via_bitmap debug ops sizefn minimum_user_address inserts info mem
        ≡ found_object debug ops sizefn minimum_user_address inserts info
            (hidden_words debug ops sizefn info mem)
            found
  unfolding lookup_object_info_via_bitmap
  lookup_by_rfind minimum_user_address inserts info mem start found e run =
      ap
        (λ (r : Option ℕ).
          found_object debug ops sizefn minimum_user_address inserts info
            (hidden_words debug ops sizefn info mem) r)
        (ap
            (λ (i : ℕ).
              ops.rfind info.bitmap (hidden_words debug ops sizefn info mem) info.nwords i)
            e
          ∙ run)

  hidden_words_start :
      (base mem h : ℕ)
      → base ≤ mem
      → mem < 0x8000_0000_0000
      → mem < base + 0x10_0000_0000
      → 64 * h ≤ (mem - base) / 16
      → sub64 (sub64 mem base / 16 % 0x1_0000_0000) (64 * h) ≡ (mem - base) / 16 - 64 * h
  hidden_words_start base mem h above small near le = omega arith

module _ (debug : Bool) (ops : BitmapOps) (sizefn : ℕ → ℕ) (minimum_user_address : ℕ)
    (inserts : ℕ → Insert) (info : ArenaBitmapInfo ops) (starts : List ℕ)
    (index : IsIndex ops sizefn minimum_user_address inserts info starts) where
  bit_of_chunk :
      (a : ℕ) → a ∈ starts → ops.test info.bitmap ((a - info.bitmap_base_addr) / 16) ≡ true
  bit_of_chunk a m =
      let chunk = index.chunks a m in
      let at : (info.bitmap_base_addr + 16 * ((a - info.bitmap_base_addr) / 16)) ≡ a =
        omega (arith, chunk.after_base, chunk.aligned) in
      index.bits ((a - info.bitmap_base_addr) / 16)
        (omega (arith, index.covered a m, chunk.after_base))
      ∙ rw at m

  bit_in_gap :
      (a mem : ℕ)
      → info.bitmap_base_addr ≤ a
      → mem < info.bitmap_base_addr + 1024 * info.nwords
      → (a - info.bitmap_base_addr) % 16 ≡ 0
      → ((b : ℕ) → b ∈ starts → a < b → mem < b)
      → (j : ℕ) → (a - info.bitmap_base_addr) / 16 < j
      → j ≤ (mem - info.bitmap_base_addr) / 16
      → ops.test info.bitmap j ≡ false
  bit_in_gap a mem above covered aligned gap j up down =
      elim (Bool-cases (has (info.bitmap_base_addr + 16 * j) starts)) [
        | inl there ↦
            absurd (omega (arith, gap (info.bitmap_base_addr + 16 * j) there (omega arith)))
        | inr absent ↦ index.bits j (omega arith) ∙ absent
      ]

  bit_before :
      (mem : ℕ)
      → info.bitmap_base_addr ≤ mem
      → mem < info.bitmap_base_addr + 1024 * info.nwords
      → ((b : ℕ) → b ∈ starts → mem < b)
      → (j : ℕ) → j ≤ (mem - info.bitmap_base_addr) / 16
      → ops.test info.bitmap j ≡ false
  bit_before mem above covered none_before j down =
      elim (Bool-cases (has (info.bitmap_base_addr + 16 * j) starts)) [
        | inl there ↦ absurd (omega (arith, none_before (info.bitmap_base_addr + 16 * j) there))
        | inr absent ↦ index.bits j (omega arith) ∙ absent
      ]

  -- Let an address lie in a chunk of the index, before its insert, in the part that the bitmap covers,
  -- and let no other chunk begin between the chunk's start and the address. Then, with and without the
  -- search that leaves out words, the lookup finds the chunk's insert, start and size. In the search
  -- that leaves out words, the largest size must not be above the address.
  pub lookup_object_info_via_bitmap_finds :
      (mem a : ℕ)
      → a ∈ starts
      → a ≤ mem
      → mem + 8 < a + sizefn a
      → mem < info.bitmap_base_addr + 1024 * info.nwords
      → info.biggest_unpromoted_object ≤ mem
      → ((b : ℕ) → b ∈ starts → a < b → mem < b)
      → lookup_object_info_via_bitmap debug ops sizefn minimum_user_address inserts info mem
        ≡ some (
            some (record {
              insert = insert_for_chunk a sizefn;
              object_start = a;
              object_size = sizefn a - 8;
            }))
  lookup_object_info_via_bitmap_finds mem a m le inside covered enough gap =
      let chunk = index.chunks a m in
      let base = info.bitmap_base_addr in
      let h = hidden_words debug ops sizefn info mem in
      let s = (a - base) / 16 in
      let small : mem < 0x8000_0000_0000 = omega (arith, chunk.low) in
      let near : mem < base + 0x10_0000_0000 = omega (arith, chunk.near) in
      let bound : 64 * h ≤ s =
        hidden_words_bound debug ops sizefn info mem a chunk.after_base le small enough
          (omega (arith, index.bounded a m)) in
      let run : ops.rfind info.bitmap h info.nwords ((mem - base) / 16 - 64 * h)
          ≡ some (s - 64 * h) =
        rfind_finds debug ops sizefn info.bitmap h info.nwords s ((mem - base) / 16) bound
          (omega (arith, chunk.after_base)) (omega (arith, chunk.after_base)) (bit_of_chunk a m)
          (bit_in_gap a mem chunk.after_base covered chunk.aligned gap) in
      let size : sub64 (sizefn a) 8 ≡ (sizefn a - 8) =
        omega (arith, chunk.holds_insert, chunk.low) in
      lookup_by_rfind debug ops sizefn minimum_user_address inserts info mem
        ((mem - base) / 16 - 64 * h) (some (s - 64 * h))
        (hidden_words_start debug ops sizefn base mem h (omega (arith, chunk.after_base)) small near
          (omega (arith, chunk.after_base)))
        run
      ∙ found_object_finds debug ops sizefn minimum_user_address inserts info h (s - 64 * h) a
          (sizefn a - 8) (omega (arith, chunk.after_base, chunk.aligned, bound)) size
          (omega (arith, chunk.after_base, index.base_positive)) (index.described a m)

  -- An address before which no chunk begins is found to be in none.
  lookup_object_info_via_bitmap_misses :
      (mem : ℕ)
      → info.bitmap_base_addr ≤ mem
      → mem < 0x8000_0000_0000
      → mem < info.bitmap_base_addr + 0x10_0000_0000
      → mem < info.bitmap_base_addr + 1024 * info.nwords
      → info.biggest_unpromoted_object ≤ mem
      → ((b : ℕ) → b ∈ starts → mem < b)
      → lookup_object_info_via_bitmap debug ops sizefn minimum_user_address inserts info mem
        ≡ some none
  unfolding found_object
  lookup_object_info_via_bitmap_misses mem above small near covered enough none_before =
      let base = info.bitmap_base_addr in
      let h = hidden_words debug ops sizefn info mem in
      let m = (mem - base) / 16 in
      let bound : 64 * h ≤ m =
        hidden_words_bound debug ops sizefn info mem mem above (omega arith) small enough
          (omega arith) in
      lookup_by_rfind debug ops sizefn minimum_user_address inserts info mem (m - 64 * h) none
        (hidden_words_start debug ops sizefn base mem h above small near bound)
        (ops.rfind_none info.bitmap h info.nwords (m - 64 * h)
          (omega (arith, above, covered, bound))
          (λ j le. bit_before mem above covered none_before (64 * h + j) (omega (arith, bound))))
