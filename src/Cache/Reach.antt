-- ===== src/Cache/Reach.antt =====
-- The cache over any sequence of its operations, from the state in which the program starts it.
use liballocs.Common.{ℕ, ◌<◌, ◌≡◌, true, List, [], some, arith, subst, sym}
use liballocs.Common.Int.{ℤ}
use liballocs.Cache.{
  Cache, found, miss, lookup, lookup_notype, cache_with_type, uncache_all, empty_cache,
}
use liballocs.Cache.Sane.{IsSane, IsSane-empty_cache}
use liballocs.Cache.Lookup.{Answers, lookup-Answers, lookup_notype-Answers}
use liballocs.Cache.Insert.{cache_with_type-IsSane}
use liballocs.Cache.Uncache.{uncache_all-remove_if}
use liballocs.Cache.Debug.{check_cache_sanity, check_cache_sanity-IsSane}

-- what an operation does to the cache
pub data Step (c c' : Cache) : Type 0 where
  hit : (obj t require_period i : ℕ) → lookup c obj t require_period ≡ found i c' → Step c c'
  hit_any : (obj require_period i : ℕ) → lookup_notype c obj require_period ≡ found i c' → Step c c'
  missed : (obj t require_period : ℕ) → lookup c obj t require_period ≡ miss c' → Step c c'
  missed_any : (obj require_period : ℕ) → lookup_notype c obj require_period ≡ miss c' → Step c c'
  cached :
      (base limit t : ℕ) (depth : ℤ) (period : ℕ)
      → cache_with_type c base limit t depth period ≡ some c'
      → Step c c'
  uncached : (ptr size : ℕ) → uncache_all c ptr size ≡ c' → Step c c'

pub data Reach (c : Cache) : Cache → Type 0 where
  here : Reach c c
  next : {d e : Cache} → Reach c d → Step d e → Reach c e

-- a sane cache with room for an entry
IsGood : Cache → Type 0
IsGood c = (xs : List ℕ) × IsSane c xs × (1 < c.size_plus_one)

Step-IsGood : {c c' : Cache} → Step c c' → IsGood c → IsGood c'
unfolding IsGood
Step-IsGood (hit obj t require_period i e) (xs, s, big) =
    let a = subst (Answers _ _ xs) e (lookup-Answers s obj t require_period) in
    (_, a.2, omega (arith, a.3.0))
Step-IsGood (hit_any obj require_period i e) (xs, s, big) =
    let a = subst (Answers _ _ xs) e (lookup_notype-Answers s obj require_period) in
    (_, a.2, omega (arith, a.3.0))
Step-IsGood (missed obj t require_period e) (xs, s, big) =
    let a = subst (Answers _ _ xs) e (lookup-Answers s obj t require_period) in
    subst IsGood (sym a.0) (xs, s, big)
Step-IsGood (missed_any obj require_period e) (xs, s, big) =
    let a = subst (Answers _ _ xs) e (lookup_notype-Answers s obj require_period) in
    subst IsGood (sym a.0) (xs, s, big)
Step-IsGood {c' = after} (cached base limit t depth period e) (xs, s, big) =
    let (pos, d, e', slot, sane, desc, others, size) =
      cache_with_type-IsSane base limit t depth period s big in
    let same : d ≡ after = cc in subst IsGood same (_, sane, omega arith)
Step-IsGood (uncached ptr size e) (xs, s, big) =
    let r = uncache_all-remove_if ptr size s in subst IsGood e (_, r.0, omega (arith, r.1.0))

Reach-IsGood : {c c' : Cache} → IsGood c → Reach c c' → IsGood c'
Reach-IsGood g here = g
Reach-IsGood g (next r st) = Step-IsGood st (Reach-IsGood g r)

-- From the initial state, with room for 1 to 31 entries, every sequence of typed and untyped lookups,
-- insertions and invalidations leads to a cache that passes the debug check, and whose next insertion
-- succeeds.
pub Reach-check_cache_sanity :
    {n : ℕ} {c : Cache}
    → 0 < n
    → n < 32
    → Reach (empty_cache n) c
    → (check_cache_sanity c ≡ true)
      × ((base limit t : ℕ) (depth : ℤ) (period : ℕ)
          → (c' : Cache) × (cache_with_type c base limit t depth period ≡ some c'))
unfolding IsGood empty_cache
Reach-check_cache_sanity {n} some_room fits r =
    let (xs, s, big) = Reach-IsGood ([], IsSane-empty_cache n fits, omega arith) r in
    (
      check_cache_sanity-IsSane s,
      λ base limit t depth period.
          let found_slot = cache_with_type-IsSane base limit t depth period s big in
          (found_slot.1, found_slot.2),
    )
