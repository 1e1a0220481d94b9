-- ===== src/Mallocindex/Tests.antt =====
-- An index of one chunk, on bitmaps that are functions.
use liballocs.Common.{
  ℕ, zero, suc, ◌+◌, ◌-◌, ◌*◌, ◌%◌, ◌≤◌, ◌<◌, ◌≡◌, refl, Bool, true, false, Option, none, some,
  arith, ltb, ◌==◌, if◌then◌else◌, [], ◌∷◌, sym, ap, subst, Bool-cases, inl, inr, erase,
}
use liballocs.Mallocindex.{
  BitmapOps, ArenaBitmapInfo, Insert, insert_for_chunk, ensure_arena_has_info, index_insert,
  index_delete, lookup_object_info_via_bitmap,
}
use liballocs.Mallocindex.Lookup.{IsChunk, IsIndex, lookup_object_info_via_bitmap_finds}
use liballocs.Mallocindex.Update.{
  ensure_arena_has_info-IsIndex, index_insert-IsIndex, index_delete-IsIndex,
}

-- the last bit that is set at or before a bit, counted from `from` on
abbrev last_set : (b : ℕ → Bool) (from start : ℕ) → Option ℕ
last_set b from zero = if b (from + 0) then some 0 else none
last_set b from (suc k) =
    let earlier = last_set b from k in if b (from + suc k) then some (suc k) else earlier

last_set-last :
    (b : ℕ → Bool) (from start i : ℕ)
    → i ≤ start
    → b (from + i) ≡ true
    → ((j : ℕ) → i < j → j ≤ start → b (from + j) ≡ false)
    → last_set b from start ≡ some i
last_set-last b from zero i le set_ after =
    let at : i ≡ 0 = omega arith in
    rw (subst (λ j. b (from + j) ≡ true) at set_) (ap (λ (j : ℕ). some j) (sym at))
last_set-last b from (suc k) i le set_ after = elim (Bool-cases (i == suc k)) [
  | inl same ↦
      let at : i ≡ suc k = ground arith in
      rw (subst (λ j. b (from + j) ≡ true) at set_) (ap (λ (j : ℕ). some j) (sym at))
  | inr other ↦
      rw (after (suc k) (ground arith) (omega arith))
        (last_set-last b from k i (ground arith) set_ (λ j up down. after j up (omega arith)))
]

last_set-none :
    (b : ℕ → Bool) (from start : ℕ)
    → ((j : ℕ) → j ≤ start → b (from + j) ≡ false)
    → last_set b from start ≡ none
last_set-none b from zero clear_ = rw (clear_ 0 (omega arith)) refl
last_set-none b from (suc k) clear_ =
    rw (clear_ (suc k) (omega arith)) (last_set-none b from k (λ j le. clear_ j (omega arith)))

abbrev ops : BitmapOps
ops = record {
  Bits = ℕ → Bool;
  no_bits = λ i. false;
  test = λ b i. b i;
  set = λ b i j. if j == i then true else b j;
  clear = λ b i j. if j == i then false else b j;
  grow = λ b nwords total j. if ltb j (64 * nwords) then b j else false;
  rfind = λ b hidden nwords start. last_set b (64 * hidden) start;
  round_down = λ p align. p - p % align;
  round_up = λ p align. if p % align == 0 then p else p + align - p % align;
  test-set = λ b i j. refl;
  test-clear = λ b i j. refl;
  test-grow = λ b n total j less. refl;
  rfind_last =
      λ b hidden n start i less le set_ after. last_set-last b (64 * hidden) start i le set_ after;
  rfind_none = λ b hidden n start less clear_. last_set-none b (64 * hidden) start clear_;
  round_down_multiple = λ p align pos. refl;
  round_up_multiple = λ p align pos. refl;
}

-- a chunk of 48 bytes at 0x600010
abbrev sizes : ℕ → ℕ
sizes a = 48

abbrev blank : ℕ → Insert
blank a = record { always_0 = 0; alloc_site = 0; unused = 7; lifetime_policies = 1 }

abbrev fresh : ArenaBitmapInfo ops
fresh = ensure_arena_has_info ops 0x600000

fresh-IsIndex : IsIndex ops sizes 0x400000 blank fresh []
fresh-IsIndex = ensure_arena_has_info-IsIndex ops sizes 0x400000 blank 0x600000 (omega arith)

placed-IsChunk : IsChunk 0x600000 sizes 0x600010
placed-IsChunk = record {
  after_base = omega arith;
  aligned = refl;
  holds_insert = omega arith;
  low = omega arith;
  near = omega arith;
}

index_insert-IsIndex_example :
    IsIndex ops sizes 0x400000
      (index_insert true ops sizes blank fresh 0x600010 40 0x400100).0
      (index_insert true ops sizes blank fresh 0x600010 40 0x400100).1
      (0x600010 ∷ [])
index_insert-IsIndex_example =
    index_insert-IsIndex ops sizes 0x400000 true blank fresh [] fresh-IsIndex 0x600010 40 0x400100
      refl placed-IsChunk (omega arith) (omega arith) (λ a m. absurd (ground arith)) (omega arith)
      (omega arith)

filled-IsIndex :
    IsIndex ops sizes 0x400000
      (index_insert true ops sizes blank fresh 0x600010 40 0x400100).0
      (index_insert true ops sizes blank fresh 0x600010 40 0x400100).1
      (0x600010 ∷ [])
filled-IsIndex =
    index_insert-IsIndex ops sizes 0x400000 true blank fresh [] fresh-IsIndex 0x600010 40 0x400100
      refl placed-IsChunk (omega arith) (omega arith) (λ a m. absurd (ground arith)) (omega arith)
      (omega arith)

abbrev filled_inserts : ℕ → Insert
filled_inserts = (index_insert true ops sizes blank fresh 0x600010 40 0x400100).0

abbrev filled : ArenaBitmapInfo ops
filled = (index_insert true ops sizes blank fresh 0x600010 40 0x400100).1

index_insert_run :
    (filled.nwords ≡ 1)
    × (filled.biggest_unpromoted_object ≡ 40)
    × ((filled_inserts 0x600038).alloc_site ≡ 0x400100)
unfolding index_insert liballocs.Mallocindex.ensure_has_bitmap_to
    liballocs.Mallocindex.insert_for_chunk
index_insert_run = (refl, refl, refl)

lookup_object_info_via_bitmap_finds_example :
    lookup_object_info_via_bitmap true ops sizes 0x400000 filled_inserts filled 0x600020
    ≡ some (
        some (record {
          insert = insert_for_chunk 0x600010 sizes;
          object_start = 0x600010;
          object_size = 40;
        }))
unfolding index_insert liballocs.Mallocindex.ensure_has_bitmap_to
    liballocs.Mallocindex.insert_for_chunk
lookup_object_info_via_bitmap_finds_example =
    lookup_object_info_via_bitmap_finds true ops sizes 0x400000 filled_inserts filled
      (0x600010 ∷ []) filled-IsIndex 0x600020 0x600010 refl (omega arith) (omega arith)
      (omega arith) (omega arith) (λ b m less. absurd (ground arith))

index_delete-IsIndex_example :
    (info' : ArenaBitmapInfo ops) × (index_delete true ops sizes filled 0x600010 ≡ some info')
    × IsIndex ops sizes 0x400000 filled_inserts info' (erase 0x600010 (0x600010 ∷ []))
index_delete-IsIndex_example =
    index_delete-IsIndex ops sizes 0x400000 true filled_inserts filled (0x600010 ∷ [])
      filled-IsIndex 0x600010 refl
