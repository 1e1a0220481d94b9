-- ===== src/Cache/Tests.antt =====
-- The cache at concrete inputs: a cache of two slots, both in use.
use liballocs.Common.{
  ℕ, ◌≡◌, ◌≢◌, refl, true, [], ◌∷◌, some, arith, ◌==◌, if◌then◌else◌, ◌||◌, erase, remove_if,
}
use liballocs.Common.Int.{ℤ}
use liballocs.Cache.{
  Entry, Cache, found, bump_mru, bump_victim, lookup, hit_typed, cache_with_type, choose_slot,
  uncache_all, begins_in, empty_cache, fill,
}
use liballocs.Cache.Sane.{IsSane, SameRange, SameRanges}
use liballocs.Cache.Lookup.{Answers, lookup-Answers}
use liballocs.Cache.Insert.{IsSlot, Describes, cache_with_type-IsSane, lookup-cache_with_type}
use liballocs.Cache.Uncache.{uncache_all-remove_if}
use liballocs.Cache.Debug.{check_cache_sanity}
use liballocs.Cache.Reach.{Reach, here, next, cached, Reach-check_cache_sanity}

abbrev entry : (base limit t period prev after : ℕ) → Entry
entry base limit t period prev after = record {
  obj_base = base;
  obj_limit = limit;
  uniqtype = t;
  period = period;
  depth = ℤ.pos 0;
  prev_mru = prev;
  next_mru = after;
}

-- slot 2, an array of 8-byte elements of type 70, is more recent than slot 1
abbrev two : Cache
two = record {
  validity = λ k. (k == 0) || (k == 1);
  size_plus_one = 3;
  next_victim = 1;
  head_mru = 2;
  tail_mru = 1;
  entries = λ j. if j == 1 then entry 100 108 60 8 2 0 else entry 200 240 70 8 0 1;
}

two-IsSane : IsSane two (2 ∷ 1 ∷ [])
two-IsSane = record {
  chain = ground arith;
  distinct = ground arith;
  tail = refl;
  valid = λ i p. ground arith;
  range = λ i m. ground arith;
  size = omega arith;
  victim = λ p. omega arith;
}

lookup-Answers_example : Answers (hit_typed 100 60 0) two (2 ∷ 1 ∷ []) (lookup two 100 60 0)
lookup-Answers_example = lookup-Answers two-IsSane 100 60 0

-- the older entry is hit and comes to the front
lookup_run : lookup two 100 60 0 ≡ found 1 (bump_mru two 1)
unfolding lookup bump_mru
lookup_run = refl

cache_with_type-IsSane_example :
    (pos : ℕ) × (c' : Cache) × (cache_with_type two 300 304 80 (ℤ.pos 0) 4 ≡ some c')
    × IsSlot two (2 ∷ 1 ∷ []) pos
    × IsSane c' (pos ∷ erase pos (2 ∷ 1 ∷ []))
    × Describes 300 304 80 (ℤ.pos 0) 4 (c'.entries pos)
    × ((j : ℕ) → j ≢ pos → SameRange (two.entries j) (c'.entries j))
    × (c'.size_plus_one ≡ 3)
cache_with_type-IsSane_example =
    cache_with_type-IsSane 300 304 80 (ℤ.pos 0) 4 two-IsSane (omega arith)

-- with both slots in use the least recent one is taken
choose_slot_full : choose_slot two ≡ some 1
unfolding choose_slot
choose_slot_full = refl

lookup-cache_with_type_example :
    (pos : ℕ) × (c' : Cache) × (cache_with_type two 300 304 80 (ℤ.pos 0) 4 ≡ some c')
    × (lookup c' 300 80 0 ≡ found pos c')
    × Describes 300 304 80 (ℤ.pos 0) 4 (c'.entries pos)
lookup-cache_with_type_example =
    lookup-cache_with_type 300 304 80 (ℤ.pos 0) 4 two-IsSane (omega arith) (omega arith)

uncache_all-remove_if_example :
    IsSane
      (uncache_all two 150 100)
      (remove_if (λ j. begins_in 150 100 (two.entries j)) (2 ∷ 1 ∷ []))
    × SameRanges two (uncache_all two 150 100)
uncache_all-remove_if_example = uncache_all-remove_if 150 100 two-IsSane

uncache_run : remove_if (λ j. begins_in 150 100 (two.entries j)) (2 ∷ 1 ∷ []) ≡ 1 ∷ []
unfolding remove_if begins_in
uncache_run = refl

-- one entry cached in an empty cache of two slots
abbrev one : Cache
one = bump_victim (bump_mru (fill (empty_cache 2) 1 100 108 60 (ℤ.pos 0) 8) 1) 1

cached_one : Reach (empty_cache 2) one
unfolding cache_with_type empty_cache
cached_one = next here (cached 100 108 60 (ℤ.pos 0) 8 refl)

Reach-check_cache_sanity_example :
    (check_cache_sanity one ≡ true)
    × ((base limit t : ℕ) (depth : ℤ) (period : ℕ)
        → (c' : Cache) × (cache_with_type one base limit t depth period ≡ some c'))
Reach-check_cache_sanity_example = Reach-check_cache_sanity (omega arith) (omega arith) cached_one
