-- ===== src/Pageindex/Sanity/Passes.antt =====
-- The records of a forest whose ranges nest pass the check.
use liballocs.Common.{
  ℕ, zero, suc, ◌+◌, ◌≤◌, ◌≡◌, ◌≢◌, inl, inr, refl, Bool, true, ◌||◌, some, ◌∈◌, arith, ◌==◌,
  Bool-cases, has-append, sym, subst, ap, has,
}
use liballocs.Pageindex.Vas.{Vas}
use liballocs.Pageindex.State.{BigAlloc}
use liballocs.Pageindex.Forest.{Forest, leaf, node, ids, size, IsForest, Within}
use liballocs.Pageindex.Depth.{bigalloc_depth}
use liballocs.Pageindex.Sanity.{own_checks, parent_checks, siblings_check, sanity_check_bigalloc}

-- With fuel for the records from `b` up, the depth is `n`.
abbrev pub HasDepth : (bs : ℕ → BigAlloc) (b n : ℕ) → Type 0
HasDepth bs b n = (fuel : ℕ) → n ≤ fuel → bigalloc_depth bs fuel b ≡ some n

pub HasDepth-null : (bs : ℕ → BigAlloc) → HasDepth bs 0 0
unfolding bigalloc_depth
HasDepth-null bs zero le = refl
HasDepth-null bs (suc k) le = refl

pub HasDepth-child :
    (bs : ℕ → BigAlloc) (b up n : ℕ)
    → b ≢ 0
    → (bs b).parent ≡ up
    → HasDepth bs up n
    → HasDepth bs b (n + 1)
unfolding bigalloc_depth
HasDepth-child bs b up n nz e d zero le = absurd (omega arith)
HasDepth-child bs b up n nz e d (suc k) le = ground (arith, e, d k (omega arith))

module _ (v : Vas) (min_alignment : ℕ → ℕ) (bs : ℕ → BigAlloc) (pageindex : ℕ → ℕ) where
  -- every record of the forest passes its own assertions and has its children in its range
  abbrev pub Fits : Forest → Type 0
  Fits leaf = Unit {0}
  Fits (node y kids rest) =
      (own_checks v min_alignment bs pageindex y ≡ true)
      × Within bs (bs y).begin (bs y).end kids
      × Fits kids
      × Fits rest

module _ (bs : ℕ → BigAlloc) (depth_fuel : ℕ) where
  siblings_passes :
      (check : ℕ → Bool) (m : ℕ) (up q h n : ℕ) (f : Forest)
      → IsForest bs up q h f
      → HasDepth bs up n
      → n + 1 ≤ depth_fuel
      → ((y : ℕ) → y ∈ ids f → check y ≡ true)
      → size f ≤ m
      → siblings_check bs depth_fuel check (some (n + 1)) m h ≡ true
  unfolding siblings_check
  siblings_passes check zero up q h n leaf c d deep ok le = ground arith
  siblings_passes check (suc m) up q h n leaf c d deep ok le = ground arith
  siblings_passes check zero up q h n (node y kids rest) c d deep ok le = absurd (omega arith)
  siblings_passes check (suc m) up q h n (node y kids rest) c d deep ok le =
      let later =
        siblings_passes check m up y (bs y).next_sib n rest c.5 d deep
          (λ z i. ok z (ground (arith, has-append z (ids kids) (ids rest)))) (omega arith) in
      let depth = HasDepth-child bs y up n c.1 c.3 d depth_fuel deep in
      ground (arith, depth, later, ok y (ground arith))

  parent_passes :
      (b up n : ℕ)
      → b ≢ 0
      → (bs b).parent ≡ up
      → HasDepth bs up n
      → n + 1 ≤ depth_fuel
      → (up ≢ 0 → ((bs up).begin ≤ (bs b).begin) × ((bs b).end ≤ (bs up).end))
      → parent_checks bs depth_fuel b ≡ true
  unfolding parent_checks
  parent_passes b up n nz e d deep inside = elim (Bool-cases (up == 0)) [
    | inl top ↦ ground (arith, e)
    | inr below ↦
        let range = inside (λ z. ground arith) in
        ground
          (arith, e, HasDepth-child bs b up n nz e d depth_fuel deep, d depth_fuel (omega arith))
  ]

  children_passes :
      (check : ℕ → Bool) (k y n : ℕ) (kids : Forest)
      → IsForest bs y 0 (bs y).first_child kids
      → HasDepth bs y n
      → n + 1 ≤ depth_fuel
      → ((z : ℕ) → z ∈ ids kids → check z ≡ true)
      → size kids ≤ k
      → (((bs y).first_child == 0)
          || siblings_check bs depth_fuel check
              (bigalloc_depth bs depth_fuel (bs y).first_child)
              k
              (bs (bs y).first_child).next_sib)
        ≡ true
  children_passes check k y n leaf c d deep ok le = ground arith
  children_passes check k y n (node z zs zr) c d deep ok le =
      let depth : bigalloc_depth bs depth_fuel (bs y).first_child ≡ some (n + 1) =
        subst (λ w. bigalloc_depth bs depth_fuel w ≡ some (n + 1)) (sym c.0)
          (HasDepth-child bs z y n c.1 c.3 d depth_fuel deep) in
      let next : (bs (bs y).first_child).next_sib ≡ (bs z).next_sib =
        ap (λ (w : ℕ). (bs w).next_sib) c.0 in
      let others =
        siblings_passes check k y z (bs z).next_sib n zr c.5 d deep
          (λ w i. ok w (ground (arith, has-append w (ids zs) (ids zr)))) (omega arith) in
      rw (depth, next, others) (ground arith)

module _ (v : Vas) (min_alignment : ℕ → ℕ) (bs : ℕ → BigAlloc) (pageindex : ℕ → ℕ)
    (depth_fuel : ℕ) where
  sanity_passes_at :
      (k y n up : ℕ) (kids : Forest)
      → y ≢ 0
      → (bs y).parent ≡ up
      → IsForest bs y 0 (bs y).first_child kids
      → HasDepth bs up n
      → n + 1 + size kids ≤ depth_fuel
      → own_checks v min_alignment bs pageindex y ≡ true
      → (up ≢ 0 → ((bs up).begin ≤ (bs y).begin) × ((bs y).end ≤ (bs up).end))
      → ((z : ℕ)
          → z ∈ ids kids
          → sanity_check_bigalloc v min_alignment bs pageindex depth_fuel k z ≡ true)
      → size kids ≤ k
      → sanity_check_bigalloc v min_alignment bs pageindex depth_fuel (suc k) y ≡ true
  unfolding sanity_check_bigalloc
  sanity_passes_at k y n up leaf nz e c d deep own inside ok le =
      ground (arith, parent_passes bs depth_fuel y up n nz e d (omega arith) inside)
  sanity_passes_at k y n up (node z zs zr) nz e c d deep own inside ok le = ground (
    arith,
    parent_passes bs depth_fuel y up n nz e d (omega arith) inside,
    children_passes bs depth_fuel (sanity_check_bigalloc v min_alignment bs pageindex depth_fuel k)
        k y (n + 1) (node z zs zr) c (HasDepth-child bs y up n nz e d) (omega arith) ok le,
  )

  -- With fuel for the records of the forest, every record of it passes.
  pub sanity_check_bigalloc-passes :
      (k up q h n : ℕ) (f : Forest)
      → IsForest bs up q h f
      → HasDepth bs up n
      → n + size f ≤ depth_fuel
      → Fits v min_alignment bs pageindex f
      → (up ≢ 0 → Within bs (bs up).begin (bs up).end f)
      → size f ≤ k
      → (y : ℕ) → y ∈ ids f
      → sanity_check_bigalloc v min_alignment bs pageindex depth_fuel k y ≡ true
  sanity_check_bigalloc-passes k up q h n leaf c d deep fits inside le y m = absurd (ground arith)
  sanity_check_bigalloc-passes zero up q h n (node x kids rest) c d deep fits inside le y m =
      absurd (omega arith)
  sanity_check_bigalloc-passes (suc k) up q h n (node x kids rest) c d deep fits inside le y m =
      elim (Bool-cases (y == x)) [
        | inl here ↦
            let at : y ≡ x = ground arith in
            subst
              (λ w. sanity_check_bigalloc v min_alignment bs pageindex depth_fuel (suc k) w ≡ true)
              (sym at)
              (sanity_passes_at k x n up kids c.1 c.3 c.4 d (omega arith) fits.0
                (λ nz. ((inside nz).0, (inside nz).1))
                (sanity_check_bigalloc-passes k x 0 (bs x).first_child (n + 1) kids c.4
                  (HasDepth-child bs x up n c.1 c.3 d) (omega arith) fits.2 (λ nz. fits.1)
                  (omega arith))
                (omega arith))
        | inr other ↦ elim (Bool-cases (has y (ids kids))) [
          | inl below ↦
              sanity_check_bigalloc-passes (suc k) x 0 (bs x).first_child (n + 1) kids c.4
                (HasDepth-child bs x up n c.1 c.3 d) (omega arith) fits.2 (λ nz. fits.1)
                (omega arith) y below
          | inr beside ↦
              sanity_check_bigalloc-passes (suc k) up x (bs x).next_sib n rest c.5 d (omega arith)
                fits.3 (λ nz. (inside nz).2) (omega arith) y
                (ground (arith, has-append y (ids kids) (ids rest)))
        ]
      ]
