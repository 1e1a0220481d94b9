-- ===== src/Pageindex/Find/Laws.antt =====
-- What the searches find, read off the path of records that lead down to the address.
use liballocs.Common.{
  ℕ, zero, suc, ◌<◌, ◌≡◌, ◌≢◌, refl, Bool, false, not, ◌&&◌, ◌||◌, List, [], ◌∷◌, some, arith, has,
  ◌==◌, if◌then◌else◌, has-append, last_or,
}
use liballocs.Pageindex.State.{BigAlloc, spans}
use liballocs.Pageindex.Forest.{Forest, leaf, node, ids, size, IsForest, path}
use liballocs.Pageindex.Find.{
  find_deepest_from, is_match, find_bigalloc_from, last_child_spanning, is_sibling, any_is_under,
  is_one_or_more_levels_under,
}

module _ (bs : ℕ → BigAlloc) (addr : ℕ) where
  pub path-nonzero :
      (start up q h : ℕ) (f : Forest)
      → start ≢ 0
      → IsForest bs up q h f
      → last_or start (path bs addr f) ≢ 0
  path-nonzero start up q h leaf ne c = ne
  path-nonzero start up q h (node x kids rest) ne c = ground (
    arith,
    path-nonzero x x 0 (bs x).first_child kids,
    path-nonzero start up x (bs x).next_sib rest,
  )

  pub find_deepest_from-path :
      (k start up q h : ℕ) (f : Forest)
      → start ≢ 0
      → IsForest bs up q h f
      → size f < k
      → find_deepest_from bs addr k start h ≡ some (last_or start (path bs addr f))
  unfolding find_deepest_from
  find_deepest_from-path zero start up q h f ne c fuel = ground arith
  find_deepest_from-path (suc k) start up q h leaf ne c fuel = ground arith
  find_deepest_from-path (suc k) start up q h (node x kids rest) ne c fuel =
      let down = find_deepest_from-path k x x 0 (bs x).first_child kids c.1 c.4 (omega arith) in
      let along = find_deepest_from-path k start up x (bs x).next_sib rest ne c.5 (omega arith) in
      ground (arith, down, along, path-nonzero x x 0 (bs x).first_child kids)

  -- the first record of a list that the search by allocator accepts, or 0
  abbrev pub first_match : (a : ℕ) → Bool → List ℕ → ℕ
  first_match a sub [] = 0
  first_match a sub (x ∷ xs) =
      let later = first_match a sub xs in if is_match bs a sub x then x else later

  pub find_bigalloc_from-path :
      (a : ℕ) (sub : Bool) (k up q h : ℕ) (f : Forest)
      → IsForest bs up q h f
      → size f < k
      → find_bigalloc_from bs addr a sub k h ≡ some (first_match a sub (path bs addr f))
  unfolding find_bigalloc_from
  find_bigalloc_from-path a sub zero up q h f c fuel = ground arith
  find_bigalloc_from-path a sub (suc k) up q h leaf c fuel = ground arith
  find_bigalloc_from-path a sub (suc k) up q h (node x kids rest) c fuel =
      let down = find_bigalloc_from-path a sub k x 0 (bs x).first_child kids c.4 (omega arith) in
      let along = find_bigalloc_from-path a sub k up x (bs x).next_sib rest c.5 (omega arith) in
      ground arith

  -- the last of the siblings that spans the address, or `cur`
  abbrev pub last_spanning : ℕ → Forest → ℕ
  last_spanning cur leaf = cur
  last_spanning cur (node x kids rest) = last_spanning (if spans (bs x) addr then x else cur) rest

  pub last_child_spanning-eq :
      (k cur up q h : ℕ) (f : Forest)
      → IsForest bs up q h f
      → size f < k
      → last_child_spanning bs addr k cur h ≡ some (last_spanning cur f)
  unfolding last_child_spanning
  last_child_spanning-eq zero cur up q h f c fuel = ground arith
  last_child_spanning-eq (suc k) cur up q h leaf c fuel = ground arith
  last_child_spanning-eq (suc k) cur up q h (node x kids rest) c fuel =
      let along =
        last_child_spanning-eq k (if spans (bs x) addr then x else cur) up x (bs x).next_sib rest
          c.5 (omega arith) in
      ground arith

module _ (bs : ℕ → BigAlloc) where
  -- the numbers at the top of a forest
  abbrev tops : Forest → List ℕ
  tops leaf = []
  tops (node x kids rest) = x ∷ tops rest

  is_sibling-has :
      (n k up q h : ℕ) (f : Forest)
      → IsForest bs up q h f
      → size f < k
      → is_sibling bs n k h ≡ some (has n (tops f))
  unfolding is_sibling
  is_sibling-has n zero up q h f c fuel = ground arith
  is_sibling-has n (suc k) up q h leaf c fuel = ground arith
  is_sibling-has n (suc k) up q h (node x kids rest) c fuel =
      let along = is_sibling-has n k up x (bs x).next_sib rest c.5 (omega arith) in ground arith

  -- whether the number occurs below the top of a forest, not counting what lies under itself
  abbrev below : ℕ → Forest → Bool
  below n leaf = false
  below n (node x kids rest) = (not (n == x) && has n (ids kids)) || below n rest

  has-ids : (n : ℕ) (f : Forest) → has n (ids f) ≡ (has n (tops f) || below n f)
  has-ids n leaf = refl
  has-ids n (node x kids rest) =
      ground (arith, has-ids n kids, has-ids n rest, has-append n (ids kids) (ids rest))

module _ (bs : ℕ → BigAlloc) where
  any_is_under-below :
      (n k up q h : ℕ) (f : Forest)
      → IsForest bs up q h f
      → size f < k
      → any_is_under bs n k h ≡ some (below bs n f)
  unfolding any_is_under
  any_is_under-below n zero up q h f c fuel = ground arith
  any_is_under-below n (suc k) up q h leaf c fuel = ground arith
  any_is_under-below n (suc k) up q h (node x kids rest) c fuel =
      let direct = is_sibling-has bs n k x 0 (bs x).first_child kids c.4 (omega arith) in
      let down = any_is_under-below n k x 0 (bs x).first_child kids c.4 (omega arith) in
      let along = any_is_under-below n k up x (bs x).next_sib rest c.5 (omega arith) in
      ground (arith, direct, down, along, has-ids bs n kids)

  -- is_one_or_more_levels_under says whether a number is that of a proper descendant of `b`, given
  -- the tree `f` of b's descendants and fuel beyond its size.
  pub is_one_or_more_levels_under-has :
      (fuel n b : ℕ) (f : Forest)
      → IsForest bs b 0 (bs b).first_child f
      → size f < fuel
      → is_one_or_more_levels_under bs fuel n b ≡ some (not (n == b) && has n (ids f))
  unfolding is_one_or_more_levels_under
  is_one_or_more_levels_under-has fuel n b f c enough =
      let direct = is_sibling-has bs n fuel b 0 (bs b).first_child f c enough in
      let down = any_is_under-below n fuel b 0 (bs b).first_child f c enough in
      ground (arith, direct, down, has-ids bs n f)
