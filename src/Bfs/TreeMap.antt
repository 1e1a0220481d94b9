-- ===== src/Bfs/TreeMap.antt =====
-- The maps of src/uniqtype-bfs.c: pairs of a key and a value in a binary search tree of the C library,
-- compared by compar.
use liballocs.Common.{
  ℕ, ◌+◌, ◌-◌, ◌%◌, ◌≤◌, ◌<◌, ◌≡◌, ◌≢◌, inl, inr, Bool, not, ◌||◌, Option, none, some, arith, ◌==◌,
  if◌then◌else◌, require, ◌>>=◌, ◌>>◌, Option-cases,
}

-- compar, as a 32-bit pattern: the difference of the keys, converted to int
abbrev pub compar : (key1 key2 : ℕ) → ℕ
compar key1 key2 = (key1 + 0x1_0000_0000_0000_0000 - key2) % 0x1_0000_0000

-- the keys that compar orders: those within 2 ^ 31 bytes from a base
abbrev pub InReach : (base k : ℕ) → Type 0
InReach base k = (base ≤ k) × (k < base + 0x8000_0000) × (k < 0x1_0000_0000_0000_0000)

-- tfind and tsearch on trees of keys that compar orders. tfind gives the value of the pair that it
-- finds, `store` writes to that of the pair that tfind finds, and tsearch adds a pair.
pub record SearchTree (base : ℕ) : Type 1 where
  pub Tree : Type 0
  pub empty : Tree
  pub tfind : Tree → ℕ → Option ℕ
  pub store : Tree → (k value : ℕ) → Tree
  pub tsearch : Tree → (k value : ℕ) → Tree
  pub tfind-empty : (k : ℕ) → tfind empty k ≡ none
  pub tfind-store :
      (t : Tree) (k j value : ℕ)
      → InReach base k
      → InReach base j
      → tfind t k ≢ none
      → tfind (store t k value) j ≡ (if compar j k == 0 then some value else tfind t j)
  pub tfind-tsearch :
      (t : Tree) (k j value : ℕ)
      → InReach base k
      → InReach base j
      → tfind t k ≡ none
      → tfind (tsearch t k value) j ≡ (if compar j k == 0 then some value else tfind t j)

module _ {base : ℕ} (debug : Bool) (tree : SearchTree base) where
  -- treemap_get
  unfoldable pub treemap_get : tree.Tree → ℕ → Option ℕ
  treemap_get t k = elim (tree.tfind t k) [
    | none ↦ some 0
    | some value ↦ do require (not debug || not (value == 0)); some value
  ]

  -- treemap_set
  unfoldable pub treemap_set : tree.Tree → ℕ → ℕ → Option tree.Tree
  unfolding treemap_get
  treemap_set t k value = elim (tree.tfind t k) [
    | some old ↦ some (tree.store t k value)
    | none ↦ do
      let t' = tree.tsearch t k value
      now ← treemap_get t' k
      require (not debug || (now == value))
      some t'
  ]

-- On keys within reach, compar answers 0 for equal keys only.
pub compar_zero : (base j k : ℕ) → InReach base j → InReach base k → (compar j k == 0) ≡ (j == k)
compar_zero base j k rj rk = ground arith

-- Keys that are 2 ^ 32 bytes apart compare equal.
compar_collides : (k : ℕ) → k < 0x1_0000_0000_0000_0000 → compar (k + 0x1_0000_0000) k ≡ 0
compar_collides k small = omega arith

module _ {base : ℕ} (debug : Bool) (tree : SearchTree base) where
  -- On keys within reach, a value other than 0 that is set is the one that is read, and the other keys
  -- keep theirs.
  pub get-set :
      (t : tree.Tree) (k value n : ℕ)
      → InReach base k
      → value ≢ 0
      → treemap_get debug tree t k ≡ some n
      → (t' : tree.Tree) × (treemap_set debug tree t k value ≡ some t')
        × ((j : ℕ)
            → InReach base j
            → treemap_get debug tree t' j
              ≡ (if j == k then some value else treemap_get debug tree t j))
  unfolding treemap_get treemap_set
  get-set t k value n rk nz readable = elim (Option-cases (tree.tfind t k)) [
    | inl absent ↦ (
      tree.tsearch t k value,
      ground (arith, tree.tfind-tsearch t k k value rk rk absent, compar_zero base k k rk rk),
      λ j rj.
          ground (arith, tree.tfind-tsearch t k j value rk rj absent, compar_zero base j k rj rk),
    )
    | inr (old, present) ↦ (
      tree.store t k value,
      ground (arith, present),
      λ j rj. ground (
        arith,
        tree.tfind-store t k j value rk rj (λ e. ground (arith, present)),
        compar_zero base j k rj rk,
      ),
    )
  ]

  pub get-empty : (k : ℕ) → treemap_get debug tree tree.empty k ≡ some 0
  unfolding treemap_get
  get-empty k = ground (arith, tree.tfind-empty k)
