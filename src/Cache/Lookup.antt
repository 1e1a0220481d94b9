-- ===== src/Cache/Lookup.antt =====
-- The lookups of the memory range cache, against the search of the recency list as a list.
use liballocs.Common.{
  ℕ, zero, suc, ◌+◌, ◌-◌, ◌%◌, ◌≤◌, ◌<◌, ◌≡◌, refl, ◌∙◌, ◌≢◌, Bool, true, false, List, [], ◌∷◌,
  Option, none, some, arith, if◌then◌else◌, ◌∈◌, erase, length, length_le_of_bound, ◌⊎◌,
}
use liballocs.Common.Chain.{Chain, Chain-nonzero}
use liballocs.Cache.{
  Entry, Cache, Outcome, found, miss, out_of_fuel, is_valid, next_of, prev_of, bump_mru,
  lookup_loop, lookup, lookup_notype, hit_typed, hit_notype,
}
use liballocs.Cache.Sane.{IsSane, SameRanges, bump_mru-IsSane, bump_mru-SameRanges}

-- the first slot of a recency list whose entry passes the test
unfoldable pub first_hit : (Entry → Bool) → (ℕ → Entry) → List ℕ → Option ℕ
first_hit hit es [] = none
first_hit hit es (x ∷ xs) = let rest = first_hit hit es xs in if hit (es x) then some x else rest

-- what a lookup comes to
unfoldable pub outcome_of : Cache → Option ℕ → Outcome
outcome_of c none = miss c
outcome_of c (some i) = found i (bump_mru c i)

lookup_loop-first_hit :
    (hit : Entry → Bool) (c : Cache) (k q h : ℕ) (xs : List ℕ)
    → Chain (next_of c) (prev_of c) q h xs
    → ((i : ℕ) → i ∈ xs → is_valid c i ≡ true)
    → length xs < k
    → lookup_loop hit k h c ≡ outcome_of c (first_hit hit c.entries xs)
unfolding lookup_loop first_hit outcome_of
lookup_loop-first_hit hit c zero q h xs ch v f = absurd (omega arith)
lookup_loop-first_hit hit c (suc k) q h [] ch v f = ground arith
lookup_loop-first_hit hit c (suc k) q h (x ∷ xs) ch v f =
    ground (
      arith,
      v x,
      lookup_loop-first_hit hit c k x (next_of c x) xs ch.3 (λ i m. v i (ground arith)),
    )

module _ {c : Cache} {xs : List ℕ} (s : IsSane c xs) where
  length-lt : length xs ≤ c.size_plus_one
  length-lt = length_le_of_bound c.size_plus_one xs s.distinct s.range

  listed-valid : (i : ℕ) → i ∈ xs → is_valid c i ≡ true
  listed-valid i m =
      s.valid i (ground (arith, Chain-nonzero (next_of c) (prev_of c) 0 c.head_mru xs s.chain)) ∙ m

  -- the loop, started at the head with the fuel of the lookups
  lookup_loop-eq :
      (hit : Entry → Bool)
      → lookup_loop hit (c.size_plus_one + 1) c.head_mru c
        ≡ outcome_of c (first_hit hit c.entries xs)
  lookup_loop-eq hit =
      lookup_loop-first_hit hit c (c.size_plus_one + 1) 0 c.head_mru xs s.chain listed-valid
        (omega (arith, length-lt))

first_hit-mem :
    (hit : Entry → Bool) (es : ℕ → Entry) (xs : List ℕ) (i : ℕ)
    → first_hit hit es xs ≡ some i
    → (i ∈ xs) × (hit (es i) ≡ true)
unfolding first_hit
first_hit-mem hit es [] i h = ground arith
first_hit-mem hit es (x ∷ xs) i h = ground (arith, first_hit-mem hit es xs i)

first_hit-none :
    (hit : Entry → Bool) (es : ℕ → Entry) (xs : List ℕ) (i : ℕ)
    → first_hit hit es xs ≡ none
    → i ∈ xs
    → hit (es i) ≡ false
unfolding first_hit
first_hit-none hit es [] i h m = ground arith
first_hit-none hit es (x ∷ xs) i h m = ground (arith, first_hit-none hit es xs i)

-- What a lookup with the test `hit` promises of a sane cache: it ends; a hit is the first entry of the
-- recency list that passes, it becomes the most recent, and all ranges stay; on a miss no valid entry
-- passes, and the cache is as before.
abbrev pub Answers : (Entry → Bool) → Cache → List ℕ → Outcome → Type 0
Answers hit c xs (found i c') =
    (first_hit hit c.entries xs ≡ some i)
    × (hit (c.entries i) ≡ true)
    × IsSane c' (i ∷ erase i xs)
    × SameRanges c c'
Answers hit c xs (miss c') = (c' ≡ c) × ((i : ℕ) → i ∈ xs → hit (c.entries i) ≡ false)
Answers hit c xs out_of_fuel = ⊥

outcome_of-Answers :
    (hit : Entry → Bool) {c : Cache} {xs : List ℕ}
    → IsSane c xs
    → (o : Option ℕ) → first_hit hit c.entries xs ≡ o
    → Answers hit c xs (outcome_of c o)
unfolding outcome_of
outcome_of-Answers hit {c} {xs} s none e = (refl, λ i m. first_hit-none hit c.entries xs i e m)
outcome_of-Answers hit {c} {xs} s (some i) e =
    let (m, h) = first_hit-mem hit c.entries xs i e in
    (
      e,
      h,
      bump_mru-IsSane s i
          (ground (arith, Chain-nonzero (next_of c) (prev_of c) 0 c.head_mru xs s.chain))
          (s.range i m),
      bump_mru-SameRanges c i,
    )

module _ {c : Cache} {xs : List ℕ} (s : IsSane c xs) (obj t require_period : ℕ) where
  -- In a sane cache __liballocs_memrange_cache_lookup ends and returns the first entry of the recency
  -- list that holds `obj` with type `t` on its period, if there is one; it becomes the most recent
  -- entry, the cache stays sane, and no range changes. On a miss no valid entry passes the test.
  pub lookup-Answers : Answers (hit_typed obj t require_period) c xs (lookup c obj t require_period)
  unfolding lookup
  lookup-Answers =
      rw (lookup_loop-eq s (hit_typed obj t require_period))
        (outcome_of-Answers (hit_typed obj t require_period) s _ refl)

module _ {c : Cache} {xs : List ℕ} (s : IsSane c xs) (obj require_period : ℕ) where
  -- In a sane cache __liballocs_memrange_cache_lookup_notype ends and returns the first entry of the
  -- recency list that holds `obj` on its period, whatever its type, if there is one; it becomes the
  -- most recent entry, the cache stays sane, and no range changes. On a miss no valid entry passes
  -- the test.
  pub lookup_notype-Answers :
      Answers (hit_notype obj require_period) c xs (lookup_notype c obj require_period)
  unfolding lookup_notype
  lookup_notype-Answers =
      rw (lookup_loop-eq s (hit_notype obj require_period))
        (outcome_of-Answers (hit_notype obj require_period) s _ refl)

-- an entry that a typed lookup returns covers the object, with its type, at a multiple of its period
pub hit_typed_sound :
    (obj t require_period : ℕ) (e : Entry)
    → hit_typed obj t require_period e ≡ true
    → (e.uniqtype ≡ t)
      × (e.obj_base ≤ obj)
      × (obj < e.obj_limit)
      × ((obj ≡ e.obj_base) ⊎ ((e.period ≢ 0) × ((obj - e.obj_base) % e.period ≡ 0)))
unfolding hit_typed
hit_typed_sound obj t require_period e h = ground arith

-- A range that is described by the most recent entry is found at its base.
pub lookup_most_recent :
    {c : Cache} {x : ℕ} {xs : List ℕ} (t : ℕ)
    → IsSane c (x ∷ xs)
    → (c.entries x).uniqtype ≡ t
    → (c.entries x).obj_base < (c.entries x).obj_limit
    → lookup c (c.entries x).obj_base t 0 ≡ found x c
unfolding lookup lookup_loop hit_typed bump_mru
lookup_most_recent {c} {x} {xs} t s e h =
    ground
      (arith, lookup_loop-eq s (hit_typed (c.entries x).obj_base t 0), s.chain, listed-valid s x)
