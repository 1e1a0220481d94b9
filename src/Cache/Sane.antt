-- ===== src/Cache/Sane.antt =====
-- The invariant of the memory range cache, with the recency list as its abstract value, and its
-- preservation by the operations on one slot.
use liballocs.Common.{
  ℕ, ◌-◌, ◌%◌, ◌≤◌, ◌<◌, ◌≡◌, refl, Bool, true, false, ◌&&◌, ltb, inl, inr, List, [], ◌∷◌, arith,
  ◌==◌, if◌then◌else◌, has, ◌∈◌, ◌∉◌, Distinct, erase, last_or, has-erase_ne, has-erase_self,
  erase-Distinct, mem_of_erase, erase-eq_of_not_mem, Bool-cases,
}
use liballocs.Common.Chain.{
  Chain, unhook_next, unhook_prev, frame, rehead, Chain-nonzero, cons-erase_head, unhook-Chain,
  last-erase, last_or-eq, head-mem,
}
use liballocs.Cache.{
  Entry, Cache, is_valid, next_of, prev_of, unlink, push_head_mru, bump_victim, bump_mru,
  empty_cache,
}

-- `xs` is the recency list, most recent first: it is threaded through the entries both ways, ends at
-- the tail, and names exactly the valid slots. The slots fit the 32 bits of `validity` with one spare.
pub record IsSane (c : Cache) (xs : List ℕ) : Type 0 where
  pub chain : Chain (next_of c) (prev_of c) 0 c.head_mru xs
  pub distinct : Distinct xs
  pub tail : c.tail_mru ≡ last_or 0 xs
  pub valid : (i : ℕ) → 0 < i → is_valid c i ≡ has i xs
  pub range : (i : ℕ) → i ∈ xs → i < c.size_plus_one
  pub size : c.size_plus_one ≤ 32
  pub victim : 1 < c.size_plus_one → (0 < c.next_victim) × (c.next_victim < c.size_plus_one)

pub IsSane-empty_cache : (n : ℕ) → n < 32 → IsSane (empty_cache n) []
unfolding empty_cache
IsSane-empty_cache n h = record {
  chain = refl;
  distinct = tt;
  tail = refl;
  valid = λ i p. refl;
  range = λ i m. ground arith;
  size = omega arith;
  victim = λ p. omega arith;
}

-- the range that an entry describes, apart from its place on the recency list
abbrev pub SameRange : Entry → Entry → Type 0
SameRange e e' =
    (e'.obj_base ≡ e.obj_base)
    × (e'.obj_limit ≡ e.obj_limit)
    × (e'.uniqtype ≡ e.uniqtype)
    × (e'.period ≡ e.period)
    × (e'.depth ≡ e.depth)

abbrev pub SameRanges : Cache → Cache → Type 0
SameRanges c c' =
    (c'.size_plus_one ≡ c.size_plus_one) × ((j : ℕ) → SameRange (c.entries j) (c'.entries j))

pub unlink-SameRanges : (c : Cache) (i : ℕ) → SameRanges c (unlink c i)
unfolding unlink
unlink-SameRanges c i = (refl, λ j. ground arith)

push-SameRanges : (c : Cache) (i : ℕ) → SameRanges c (push_head_mru c i)
unfolding push_head_mru
push-SameRanges c i = (refl, λ j. ground arith)

pub bump_mru-SameRanges : (c : Cache) (i : ℕ) → SameRanges c (bump_mru c i)
unfolding bump_mru
bump_mru-SameRanges c i = (
  ground (
    arith,
    (push-SameRanges c i).0,
    (push-SameRanges (unlink c i) i).0,
    (unlink-SameRanges c i).0,
  ),
  λ j. ground (
    arith,
    (unlink-SameRanges c i).1 j,
    (push-SameRanges c i).1 j,
    (push-SameRanges (unlink c i) i).1 j,
  ),
)

pub bump_victim-SameRanges : (c : Cache) (i : ℕ) → SameRanges c (bump_victim c i)
unfolding bump_victim
bump_victim-SameRanges c i = (ground arith, λ j. ground arith)

module _ {c : Cache} {xs : List ℕ} (s : IsSane c xs) (i : ℕ) where
  unlink_links :
      (j : ℕ)
      → (next_of (unlink c i) j ≡ unhook_next (next_of c) (prev_of c) i j)
        × (prev_of (unlink c i) j ≡ unhook_prev (next_of c) (prev_of c) i j)
  unfolding unlink
  unlink_links j = ground arith

  unlink-head : (unlink c i).head_mru ≡ (if c.head_mru == i then next_of c i else c.head_mru)
  unfolding unlink
  unlink-head = refl

  unlink-Chain :
      i ∈ xs
      → Chain (next_of (unlink c i)) (prev_of (unlink c i)) 0 (unlink c i).head_mru (erase i xs)
  unlink-Chain m =
      frame _ _ _ _ _ _ _
        (rw unlink-head (
          unhook-Chain _ _ 0 c.head_mru i xs s.chain s.distinct (Chain-nonzero _ _ _ _ xs s.chain)
            m))
        (λ j k. unlink_links j)

  unlink-tail : i ∈ xs → (unlink c i).tail_mru ≡ last_or 0 (erase i xs)
  unfolding unlink
  unlink-tail m =
      ground
        (arith, s.tail, last-erase (next_of c) (prev_of c) 0 c.head_mru i xs s.chain s.distinct)

  unlink-valid : i ∈ xs → (j : ℕ) → 0 < j → is_valid (unlink c i) j ≡ has j (erase i xs)
  unfolding unlink
  unlink-valid m j p = ground (
    arith,
    s.valid j,
    has-erase_ne j i xs,
    has-erase_self i xs s.distinct,
    Chain-nonzero _ _ _ _ xs s.chain,
  )

  -- unlinking a valid slot drops it from the recency list
  pub unlink-IsSane : i ∈ xs → IsSane (unlink c i) (erase i xs)
  unlink-IsSane m = record {
    chain = unlink-Chain m;
    distinct = erase-Distinct i xs s.distinct;
    tail = unlink-tail m;
    valid = unlink-valid m;
    range = λ j k. unfold unlink in s.range j (mem_of_erase j i xs k);
    size = unfold unlink in s.size;
    victim =
        λ p. unfold unlink in ground (arith, s.range i m, s.size, Chain-nonzero _ _ _ _ xs s.chain);
  }

module _ {c : Cache} {xs : List ℕ} (s : IsSane c xs) (i : ℕ) (p : 0 < i) (q : i < c.size_plus_one)
    (out : i ∉ xs) where
  push-frame :
      (j : ℕ)
      → j ∈ xs
      → (next_of (push_head_mru c i) j ≡ next_of c j)
        × (prev_of (push_head_mru c i) j ≡ (if j == c.head_mru then i else prev_of c j))
  unfolding push_head_mru
  push-frame j m = ground (arith, s.size, Chain-nonzero _ _ _ _ xs s.chain)

  push-head : (next_of (push_head_mru c i) i ≡ c.head_mru) × (prev_of (push_head_mru c i) i ≡ 0)
  unfolding push_head_mru
  push-head = ground (arith, s.size, head-mem (next_of c) (prev_of c) 0 c.head_mru xs s.chain)

  push-tail : (push_head_mru c i).tail_mru ≡ last_or 0 (i ∷ xs)
  unfolding push_head_mru
  push-tail = ground (arith, s.size, s.tail, last_or-eq i xs (Chain-nonzero _ _ _ _ xs s.chain))

  push-Chain :
      Chain
        (next_of (push_head_mru c i))
        (prev_of (push_head_mru c i))
        0
        (push_head_mru c i).head_mru
        (i ∷ xs)
  unfolding push_head_mru
  push-Chain =
      let rest =
        rehead (next_of c) (prev_of c) (next_of (push_head_mru c i)) (prev_of (push_head_mru c i)) 0
          c.head_mru i xs s.chain s.distinct push-frame in
      (omega (arith, s.size), omega arith, push-head.1, rw push-head.0 rest)

  -- pushing a slot that is not valid makes it valid and most recent
  pub push-IsSane : IsSane (push_head_mru c i) (i ∷ xs)
  unfolding push_head_mru
  push-IsSane = record {
    chain = push-Chain;
    distinct = (out, s.distinct);
    tail = push-tail;
    valid = λ j r. ground (arith, s.valid j);
    range = λ j k. ground (arith, s.range j);
    size = s.size;
    victim = s.victim;
  }

module _ {c : Cache} {xs : List ℕ} (s : IsSane c xs) (i : ℕ) (p : 0 < i)
    (q : i < c.size_plus_one) where
  push_unlinked :
      (b : Bool)
      → has i xs ≡ b
      → IsSane (push_head_mru (if b then unlink c i else c) i) (i ∷ erase i xs)
  push_unlinked true m =
      push-IsSane (unlink-IsSane s i m) i p (unfold unlink in q) (has-erase_self i xs s.distinct)
  push_unlinked false m = rw (erase-eq_of_not_mem i xs m) (push-IsSane s i p q m)

  -- bumping a slot, valid or not, makes it the most recent and keeps the order of the others
  pub bump_mru-IsSane : IsSane (bump_mru c i) (i ∷ erase i xs)
  unfolding bump_mru
  bump_mru-IsSane = elim (Bool-cases (c.head_mru == i)) [
    | inl e ↦ rw e (
        let h : c.head_mru ≡ i = ground arith in
        rw
          (rw h at (cons-erase_head (next_of c) (prev_of c) 0 c.head_mru xs s.chain (ground arith)))
          s)
    | inr e ↦ rw e (rw (s.valid i p) (push_unlinked (has i xs) refl))
  ]

  -- the replacement pointer leaves the slot if there is another, and stays among the slots
  pub bump_victim-IsSane : IsSane (bump_victim c i) xs
  unfolding bump_victim
  bump_victim-IsSane = elim (Bool-cases ((c.next_victim == i) && ltb 1 c.size_plus_one)) [
    | inl e ↦ rw e (record {
      chain = s.chain;
      distinct = s.distinct;
      tail = s.tail;
      valid = s.valid;
      range = s.range;
      size = s.size;
      victim = λ r.
          let m : i % (c.size_plus_one - 1) < c.size_plus_one - 1 = omega arith in
          omega (arith, s.size);
    })
    | inr e ↦ rw e s
  ]
