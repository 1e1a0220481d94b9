-- ===== src/Cache/Insert.antt =====
-- __liballocs_cache_with_type: the slot it takes, and the cache it leaves.
use liballocs.Common.{
  ℕ, zero, suc, ◌+◌, ◌-◌, ◌≤◌, ◌<◌, ◌≡◌, ◌≢◌, sym, ◌∙◌, subst, Bool, true, false, List, ◌∷◌, some,
  arith, ◌==◌, ◌∈◌, ◌∉◌, erase, last_or, ◌⊎◌, inl, inr, Bool-cases,
}
use liballocs.Common.Int.{ℤ}
use liballocs.Common.Chain.{frame, Chain-nonzero, last_or-mem_of}
use liballocs.Cache.{
  Entry, Cache, next_of, prev_of, ushort, ffs_clear, choose_slot, fill, bump_mru, bump_victim,
  cache_with_type, lookup, found,
}
use liballocs.Cache.Lookup.{lookup_most_recent}
use liballocs.Cache.Sane.{
  IsSane, bump_mru-IsSane, bump_victim-IsSane, SameRange, bump_mru-SameRanges,
  bump_victim-SameRanges,
}

-- the lowest clear bit from k on, if there is one at m
ffs_clear-least :
    (v : ℕ → Bool) (left k m : ℕ)
    → v m ≡ false
    → k ≤ m
    → m < k + left
    → (k < ffs_clear v left k) × (ffs_clear v left k ≤ m + 1) × (v (ffs_clear v left k - 1) ≡ false)
unfolding ffs_clear
ffs_clear-least v zero k m h p q = absurd (omega arith)
ffs_clear-least v (suc left) k m h p q = elim (Bool-cases (v k)) [
  | inl e ↦ rw e (
      let ne : k + 1 ≤ m = ground arith in
      let r = ffs_clear-least v left (k + 1) m h ne (omega arith) in (omega arith, r.1, r.2))
  | inr e ↦ rw e (omega arith, omega arith, let t : k + 1 - 1 ≡ k = omega arith in rw t e)
]

-- every bit below it is set
ffs_clear-below : (v : ℕ → Bool) (left k j : ℕ) → k ≤ j → j + 1 < ffs_clear v left k → v j ≡ true
unfolding ffs_clear
ffs_clear-below v zero k j p q = ground arith
ffs_clear-below v (suc left) k j p q = elim (Bool-cases (j == k)) [
  | inl e ↦ ground arith
  | inr e ↦ ground (arith, ffs_clear-below v left (k + 1) j)
]

-- The slot taken is free, or it is the least recent one and no slot is free.
abbrev pub IsSlot : Cache → List ℕ → ℕ → Type 0
IsSlot c xs pos =
    (0 < pos)
    × (pos < c.size_plus_one)
    × ((pos ∉ xs) ⊎ ((pos ≡ last_or 0 xs) × ((j : ℕ) → 0 < j → j < c.size_plus_one → j ∈ xs)))

module _ {c : Cache} {xs : List ℕ} (s : IsSane c xs) (big : 1 < c.size_plus_one) where
  beyond-clear : c.validity (c.size_plus_one - 1) ≡ false
  beyond-clear = ground (arith, s.valid c.size_plus_one, s.range c.size_plus_one)

  first_clear :
      (0 < ffs_clear c.validity 32 0)
      × (ffs_clear c.validity 32 0 ≤ c.size_plus_one)
      × (c.validity (ffs_clear c.validity 32 0 - 1) ≡ false)
  first_clear =
      let r =
        ffs_clear-least c.validity 32 0 (c.size_plus_one - 1) beyond-clear (omega arith)
          (omega (arith, s.size)) in
      (r.0, omega arith, r.2)

  -- with no free slot the list is full, and its end is a slot
  full-last : ffs_clear c.validity 32 0 ≡ c.size_plus_one → IsSlot c xs c.tail_mru
  full-last e =
      let all = λ (j : ℕ) (p : 0 < j) (q : j < c.size_plus_one).
        sym (s.valid j p) ∙ ffs_clear-below c.validity 32 0 (j - 1) (omega arith) (omega arith) in
      let end = last_or-mem_of 0 1 xs (all 1 (omega arith) big) in
      let listed = subst (λ t. t ∈ xs) (sym s.tail) end in
      (
        ground (arith, Chain-nonzero (next_of c) (prev_of c) 0 c.head_mru xs s.chain),
        s.range c.tail_mru listed,
        inr (s.tail, all),
      )

  choose_slot-IsSlot : (pos : ℕ) × (choose_slot c ≡ some pos) × IsSlot c xs pos
  unfolding choose_slot
  choose_slot-IsSlot = elim (Bool-cases (ffs_clear c.validity 32 0 == c.size_plus_one)) [
    | inl e ↦ (c.tail_mru, ground (arith, first_clear, full-last), full-last (ground arith))
    | inr e ↦ (
      ffs_clear c.validity 32 0,
      ground (arith, first_clear),
      (
        first_clear.0,
        ground (arith, first_clear),
        inl (sym (s.valid (ffs_clear c.validity 32 0) first_clear.0) ∙ first_clear.2),
      ),
    )
  ]

module _ {c : Cache} {xs : List ℕ} (s : IsSane c xs) (pos base limit t : ℕ) (depth : ℤ)
    (period : ℕ) where
  fill-IsSane : IsSane (fill c pos base limit t depth period) xs
  fill-IsSane = record {
    chain = frame _ _ _ _ 0 c.head_mru xs s.chain (λ j m. ground arith);
    distinct = s.distinct;
    tail = s.tail;
    valid = s.valid;
    range = s.range;
    size = s.size;
    victim = s.victim;
  }

-- the entry that __liballocs_cache_with_type writes describes this range
abbrev pub Describes : (base limit t : ℕ) → ℤ → ℕ → Entry → Type 0
Describes base limit t depth period e =
    (e.obj_base ≡ base)
    × (e.obj_limit ≡ limit)
    × (e.uniqtype ≡ t)
    × (e.period ≡ ushort period)
    × (e.depth ≡ depth)

abbrev stored : Cache → (pos base limit t : ℕ) → ℤ → ℕ → Cache
stored c pos base limit t depth period =
    bump_victim (bump_mru (fill c pos base limit t depth (ushort period)) pos) pos

module _ (c : Cache) (pos base limit t : ℕ) (depth : ℤ) (period : ℕ) where
  cache_with_type-eq :
      choose_slot c ≡ some pos
      → cache_with_type c base limit t depth period ≡ some (stored c pos base limit t depth period)
  unfolding cache_with_type
  cache_with_type-eq e = rw (e, cache_with_type)

  abbrev filled : Cache
  filled = fill c pos base limit t depth (ushort period)

  stored-SameRange :
      (j : ℕ) → SameRange (filled.entries j) ((stored c pos base limit t depth period).entries j)
  stored-SameRange j = ground (
    arith,
    (bump_mru-SameRanges filled pos).1 j,
    (bump_victim-SameRanges (bump_mru filled pos) pos).1 j,
  )

  stored-size : (stored c pos base limit t depth period).size_plus_one ≡ c.size_plus_one
  stored-size =
      (bump_victim-SameRanges (bump_mru filled pos) pos).0 ∙ (bump_mru-SameRanges filled pos).0

  stored-Describes :
      Describes base limit t depth period ((stored c pos base limit t depth period).entries pos)
  stored-Describes = ground (arith, stored-SameRange pos)

  stored-others :
      (j : ℕ)
      → j ≢ pos
      → SameRange (c.entries j) ((stored c pos base limit t depth period).entries j)
  stored-others j ne = ground (arith, stored-SameRange j)

-- Caching a range in a sane cache with room for an entry succeeds. It takes a free slot, or the least
-- recently used one if none is free; that slot then describes the range and is the most recent, the
-- other entries keep their ranges and their order, and the cache is sane.
pub cache_with_type-IsSane :
    {c : Cache} {xs : List ℕ} (base limit t : ℕ) (depth : ℤ) (period : ℕ)
    → IsSane c xs
    → 1 < c.size_plus_one
    → (pos : ℕ) × (c' : Cache) × (cache_with_type c base limit t depth period ≡ some c')
      × IsSlot c xs pos
      × IsSane c' (pos ∷ erase pos xs)
      × Describes base limit t depth period (c'.entries pos)
      × ((j : ℕ) → j ≢ pos → SameRange (c.entries j) (c'.entries j))
      × (c'.size_plus_one ≡ c.size_plus_one)
cache_with_type-IsSane {c} {xs} base limit t depth period s big =
    let (pos, e, slot) = choose_slot-IsSlot s big in
    let sane = fill-IsSane s pos base limit t depth (ushort period) in
    let bumped = bump_mru-IsSane sane pos slot.0 slot.1 in
    let same = bump_mru-SameRanges (fill c pos base limit t depth (ushort period)) pos in
    (
      pos,
      stored c pos base limit t depth period,
      cache_with_type-eq c pos base limit t depth period e,
      slot,
      bump_victim-IsSane bumped pos slot.0 (omega arith),
      stored-Describes c pos base limit t depth period,
      stored-others c pos base limit t depth period,
      stored-size c pos base limit t depth period,
    )

-- What __liballocs_cache_with_type stores in a sane cache, a typed lookup at the base of the range
-- finds at once, without changing the cache.
pub lookup-cache_with_type :
    {c : Cache} {xs : List ℕ} (base limit t : ℕ) (depth : ℤ) (period : ℕ)
    → IsSane c xs
    → 1 < c.size_plus_one
    → base < limit
    → (pos : ℕ) × (c' : Cache) × (cache_with_type c base limit t depth period ≡ some c')
      × (lookup c' base t 0 ≡ found pos c')
      × Describes base limit t depth period (c'.entries pos)
lookup-cache_with_type base limit t depth period s big h =
    let (pos, c', e, slot, sane, desc, others, size) =
      cache_with_type-IsSane base limit t depth period s big in
    (
      pos,
      c',
      e,
      rw desc.0 at (lookup_most_recent t sane desc.2 (omega (arith, desc.0, desc.1))),
      desc,
    )
