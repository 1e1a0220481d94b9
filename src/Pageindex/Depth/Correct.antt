-- ===== src/Pageindex/Depth/Correct.antt =====
-- What climbing the tree returns.
use liballocs.Common.{
  ℕ, zero, suc, ◌≤◌, ◌<◌, ◌≡◌, ◌≢◌, some, arith, ltb, ◌==◌, Bool-cases, inl, inr,
}
use liballocs.Pageindex.State.{BigAlloc}
use liballocs.Pageindex.Depth.{bigalloc_depth, get_common_parent_bigalloc_recursive, ancestor}

-- With fuel for the `n` records from `b` up to one without a parent, bigalloc_depth returns n.
bigalloc_depth-ancestor :
    (bs : ℕ → BigAlloc) (n fuel b : ℕ)
    → ((i : ℕ) → i < n → ancestor bs i b ≢ 0)
    → ancestor bs n b ≡ 0
    → n ≤ fuel
    → bigalloc_depth bs fuel b ≡ some n
unfolding bigalloc_depth
bigalloc_depth-ancestor bs zero zero b below top enough = ground arith
bigalloc_depth-ancestor bs zero (suc k) b below top enough = ground arith
bigalloc_depth-ancestor bs (suc n) zero b below top enough = ground arith
bigalloc_depth-ancestor bs (suc n) (suc k) b below top enough = ground (
  arith,
  below 0,
  bigalloc_depth-ancestor bs n k (bs b).parent (λ i l. below (suc i) (omega arith)) top,
)

-- Whatever the depths given, get_common_parent_bigalloc_recursive returns null or a record that both
-- records have above them, or are.
get_common_parent-ancestor :
    (bs : ℕ → BigAlloc) (b1 depth1 b2 depth2 : ℕ)
    → get_common_parent_bigalloc_recursive bs b1 depth1 b2 depth2 ≢ 0
    → let r = get_common_parent_bigalloc_recursive bs b1 depth1 b2 depth2 in
      (n : ℕ) × (m : ℕ) × (ancestor bs n b1 ≡ r) × (ancestor bs m b2 ≡ r)
unfolding get_common_parent_bigalloc_recursive
get_common_parent-ancestor bs b1 depth1 b2 zero h = (0, 0, ground arith, ground arith)
get_common_parent-ancestor bs b1 zero b2 (suc depth2) h = (0, 0, ground arith, ground arith)
get_common_parent-ancestor bs b1 (suc depth1) b2 (suc depth2) h = elim (Bool-cases (b1 == b2)) [
  | inl same ↦ (0, 0, ground arith, ground arith)
  | inr other ↦ elim (Bool-cases (ltb (suc depth2) (suc depth1))) [
    | inl deeper ↦
        let (n, m, e, f) =
          get_common_parent-ancestor bs (bs b1).parent depth1 b2 depth2 (λ z. h (ground arith)) in
        (suc n, m, ground arith, ground arith)
    | inr level ↦
        let (n, m, e, f) =
          get_common_parent-ancestor bs b1 (suc depth1) (bs b2).parent depth2
            (λ z. h (ground arith)) in
        (n, suc m, ground arith, ground arith)
  ]
]

-- For a record two levels below the root and one that is another child of the root, with their depths
-- 3 and 2, the search for a common parent returns null, although the root is one.
get_common_parent_misses :
    (bs : ℕ → BigAlloc) (b1 b2 p root : ℕ)
    → (bs b1).parent ≡ p
    → (bs p).parent ≡ root
    → (bs b2).parent ≡ root
    → b1 ≢ b2
    → p ≢ b2
    → root ≢ b2
    → get_common_parent_bigalloc_recursive bs b1 3 b2 2 ≡ 0
unfolding get_common_parent_bigalloc_recursive
get_common_parent_misses bs b1 b2 p root e1 e2 e3 n1 n2 n3 = ground arith
