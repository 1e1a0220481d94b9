-- ===== src/Mallocindex/Update.antt =====
-- The bitmap index stays one: a chunk is added, or taken off.
use liballocs.Common.{
  ℕ, ◌+◌, ◌-◌, ◌*◌, ◌/◌, ◌%◌, ◌≤◌, ◌<◌, ◌≡◌, ◌≢◌, refl, Bool, false, some, arith, ltb, ◌==◌, List,
  [], ◌∷◌, has, ◌∈◌, ◌∉◌, sym, ap, subst, Bool-cases, inl, inr, erase, has-erase_ne, has-erase_self,
  erase-Distinct,
}
use liballocs.Mallocindex.{
  BitmapOps, ArenaBitmapInfo, Insert, insert_describes_object, sub64, insert_for_chunk,
  ensure_arena_has_info, ensure_has_bitmap_to, index_insert, index_delete,
}
use liballocs.Mallocindex.Lookup.{IsChunk, IsIndex}

module _ (ops : BitmapOps) (sizefn : ℕ → ℕ) (minimum_user_address : ℕ) where
  -- a bitmap with more words
  IsIndex-grown :
      (inserts : ℕ → Insert) (info : ArenaBitmapInfo ops) (starts : List ℕ) (total : ℕ)
      → info.nwords < total
      → IsIndex ops sizefn minimum_user_address inserts info starts
      → IsIndex ops sizefn minimum_user_address inserts
          (record info { nwords = total; bitmap = ops.grow info.bitmap info.nwords total })
          starts
  IsIndex-grown inserts info starts total more index = record {
    base_aligned = index.base_aligned;
    base_positive = index.base_positive;
    bits = λ i small. elim (Bool-cases (has (info.bitmap_base_addr + 16 * i) starts)) [
      | inl there ↦ ground (
        arith,
        ops.test-grow info.bitmap info.nwords total i small,
        index.bits i,
        index.covered (info.bitmap_base_addr + 16 * i) there,
      )
      | inr absent ↦
          ground (arith, ops.test-grow info.bitmap info.nwords total i small, index.bits i, absent)
    ];
    once = index.once;
    chunks = index.chunks;
    covered = λ a m. omega (arith, index.covered a m, more);
    bounded = index.bounded;
    described = index.described;
  }

  total_words_cover :
      (base end : ℕ)
      → base ≤ end
      → end < 0x8000_0000_0000
      → base % 1024 ≡ 0
      → end ≤ base + 1024 * (sub64 (ops.round_up end 1024) base / 1024)
  total_words_cover base end above small aligned =
      ground (arith, ops.round_up_multiple end 1024 (omega arith))

  ensure_has_bitmap_to-IsIndex :
      (inserts : ℕ → Insert) (info : ArenaBitmapInfo ops) (starts : List ℕ) (end : ℕ)
      → info.bitmap_base_addr ≤ end
      → end < 0x8000_0000_0000
      → IsIndex ops sizefn minimum_user_address inserts info starts
      → IsIndex ops sizefn minimum_user_address inserts (ensure_has_bitmap_to ops info end) starts
        × (end ≤ info.bitmap_base_addr + 1024 * (ensure_has_bitmap_to ops info end).nwords)
        × ((ensure_has_bitmap_to ops info end).bitmap_base_addr ≡ info.bitmap_base_addr)
  unfolding ensure_has_bitmap_to
  ensure_has_bitmap_to-IsIndex inserts info starts end above small index =
      let total = sub64 (ops.round_up end 1024) info.bitmap_base_addr / 1024 in
      let cover = total_words_cover info.bitmap_base_addr end above small index.base_aligned in
      elim (Bool-cases (ltb info.nwords total)) [
        | inl more ↦
            rw more
              (IsIndex-grown inserts info starts total (ground (arith, more)) index, cover, refl)
        | inr enough ↦ rw enough (index, ground (arith, enough, cover), refl)
      ]

  -- A new index is one of no chunks.
  pub ensure_arena_has_info-IsIndex :
      (inserts : ℕ → Insert) (arena_begin : ℕ)
      → 1024 ≤ arena_begin
      → IsIndex ops sizefn minimum_user_address inserts (ensure_arena_has_info ops arena_begin) []
  ensure_arena_has_info-IsIndex inserts arena_begin above =
      let base = ops.round_down_multiple arena_begin 1024 (omega arith) in
      record {
        base_aligned = omega (arith, base);
        base_positive = omega (arith, base);
        bits = λ i less. absurd (omega arith);
        once = tt;
        chunks = λ a m. absurd (ground arith);
        covered = λ a m. absurd (ground arith);
        bounded = λ a m. absurd (ground arith);
        described = λ a m. absurd (ground arith);
      }

  -- Chunks have their bits for themselves.
  same_bit :
      (base p i : ℕ)
      → base ≤ p
      → (p - base) % 16 ≡ 0
      → p < 0x8000_0000_0000
      → (i == sub64 p base / 16) ≡ (base + 16 * i == p)
  same_bit base p i above aligned small = ground arith

  insert_for_chunk_end :
      (a : ℕ)
      → 8 ≤ sizefn a
      → a + sizefn a < 0x8000_0000_0000
      → insert_for_chunk a sizefn ≡ a + sizefn a - 8
  unfolding insert_for_chunk
  insert_for_chunk_end a holds small = omega arith

  module _ (debug : Bool) (inserts : ℕ → Insert) (info : ArenaBitmapInfo ops) (starts : List ℕ)
      (index : IsIndex ops sizefn minimum_user_address inserts info starts) where
    private_inserts :
        (p a : ℕ)
        → IsChunk info.bitmap_base_addr sizefn p
        → a ∈ starts
        → a + sizefn a ≢ p + sizefn p
        → (insert_for_chunk a sizefn == insert_for_chunk p sizefn) ≡ false
    private_inserts p a c m apart =
        let d = index.chunks a m in
        ground (
          arith,
          insert_for_chunk_end a d.holds_insert d.low,
          insert_for_chunk_end p c.holds_insert c.low,
        )

    -- Let a chunk not be in the index, its insert be no other chunk's, and the size asked for be not 0
    -- and leave room for the insert; let the caller be a user address. Then inserting the chunk gives
    -- an index of one chunk more.
    pub index_insert-IsIndex :
        (p caller_requested_size caller : ℕ)
        → p ∉ starts
        → IsChunk info.bitmap_base_addr sizefn p
        → 0 < caller_requested_size
        → caller_requested_size + 8 ≤ sizefn p
        → ((a : ℕ) → a ∈ starts → a + sizefn a ≢ p + sizefn p)
        → minimum_user_address ≤ caller
        → caller < 0x8000_0000_0000
        → IsIndex ops sizefn minimum_user_address
            (index_insert debug ops sizefn inserts info p caller_requested_size caller).0
            (index_insert debug ops sizefn inserts info p caller_requested_size caller).1
            (p ∷ starts)
    unfolding index_insert insert_describes_object
    index_insert-IsIndex p req caller fresh c some_ fits apart user small =
        let end = p + req in
        let (grown, cover, base1) =
          ensure_has_bitmap_to-IsIndex inserts info starts end (omega (arith, c.after_base))
            (omega (arith, c.low)) index in
        record {
          base_aligned = grown.base_aligned;
          base_positive = grown.base_positive;
          bits = λ i less. ground (
            arith,
            ops.test-set (ensure_has_bitmap_to ops info end).bitmap
                (sub64 p (ensure_has_bitmap_to ops info end).bitmap_base_addr / 16) i,
            grown.bits i less,
            same_bit (ensure_has_bitmap_to ops info end).bitmap_base_addr p i
                (omega (arith, base1, c.after_base)) (rw base1 c.aligned) (omega (arith, c.low)),
          );
          once = (fresh, index.once);
          chunks = λ a m. elim (Bool-cases (a == p)) [
            | inl same ↦
                subst (λ x. IsChunk (ensure_has_bitmap_to ops info end).bitmap_base_addr sizefn x)
                  (ground arith) (subst (λ b. IsChunk b sizefn p) (sym base1) c)
            | inr other ↦ grown.chunks a (ground arith)
          ];
          covered = λ a m. elim (Bool-cases (a == p)) [
            | inl same ↦ ground (arith, cover, base1)
            | inr other ↦ grown.covered a (ground arith)
          ];
          bounded = λ a m. elim (Bool-cases (a == p)) [
            | inl same ↦
                let at : a ≡ p = ground arith in ground (arith, ap sizefn at, c.low, c.holds_insert)
            | inr other ↦ ground (arith, grown.bounded a)
          ];
          described = λ a m. elim (Bool-cases (a == p)) [
            | inl same ↦ let at : a ≡ p = ground arith in rw at (ground arith)
            | inr other ↦
                rw (private_inserts p a c (ground arith) (apart a (ground arith)))
                  (grown.described a (ground arith))
          ];
        }

    mem_of_erase : (p a : ℕ) → a ∈ erase p starts → (a == p) ≡ false
    mem_of_erase p a m = elim (Bool-cases (a == p)) [
      | inl same ↦
          let at : a ≡ p = ground arith in
          absurd (
            ground
              (arith, subst (λ x. x ∈ erase p starts) at m, has-erase_self p starts index.once))
      | inr other ↦ other
    ]

    erase-subset : (p a : ℕ) → a ∈ erase p starts → a ∈ starts
    erase-subset p a m = ground (arith, mem_of_erase p a m, has-erase_ne a p starts)

    cleared-IsIndex :
        (p : ℕ)
        → p ∈ starts
        → IsIndex ops sizefn minimum_user_address inserts
            (record info { bitmap = ops.clear info.bitmap (sub64 p info.bitmap_base_addr / 16) })
            (erase p starts)
    cleared-IsIndex p m =
        let c = index.chunks p m in
        record {
          base_aligned = index.base_aligned;
          base_positive = index.base_positive;
          bits = λ i less. elim (Bool-cases (info.bitmap_base_addr + 16 * i == p)) [
            | inl same ↦
                let at : (info.bitmap_base_addr + 16 * i) ≡ p = ground arith in
                ground (
                  arith,
                  ops.test-clear info.bitmap (sub64 p info.bitmap_base_addr / 16) i,
                  same_bit info.bitmap_base_addr p i c.after_base c.aligned (omega (arith, c.low)),
                  subst (λ x. x ∉ erase p starts) (sym at) (has-erase_self p starts index.once),
                )
            | inr other ↦ ground (
              arith,
              ops.test-clear info.bitmap (sub64 p info.bitmap_base_addr / 16) i,
              same_bit info.bitmap_base_addr p i c.after_base c.aligned (omega (arith, c.low)),
              index.bits i less,
              has-erase_ne (info.bitmap_base_addr + 16 * i) p starts,
            )
          ];
          once = erase-Distinct p starts index.once;
          chunks = λ a i. index.chunks a (erase-subset p a i);
          covered = λ a i. index.covered a (erase-subset p a i);
          bounded = λ a i. index.bounded a (erase-subset p a i);
          described = λ a i. index.described a (erase-subset p a i);
        }

    -- Deleting a chunk of the index fails no assertion and gives the index of the other chunks.
    pub index_delete-IsIndex :
        (p : ℕ)
        → p ∈ starts
        → (info' : ArenaBitmapInfo ops) × (index_delete debug ops sizefn info p ≡ some info')
          × IsIndex ops sizefn minimum_user_address inserts info' (erase p starts)
    unfolding index_delete
    index_delete-IsIndex p m =
        let c = index.chunks p m in
        (
          record info { bitmap = ops.clear info.bitmap (sub64 p info.bitmap_base_addr / 16) },
          ground (arith, c.after_base, index.base_positive),
          cleared-IsIndex p m,
        )
