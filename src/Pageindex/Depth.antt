-- ===== src/Pageindex/Depth.antt =====
-- bigalloc_depth and get_common_parent_bigalloc_recursive of src/pageindex.c, which climb from records
-- to their parents.
pub mod Correct
use liballocs.Common.{
  ℕ, zero, suc, ◌+◌, Bool, true, false, ◌||◌, Option, none, some, ltb, ◌==◌, if◌then◌else◌, ◌>>=◌,
}
use liballocs.Pageindex.State.{BigAlloc}

module _ (bs : ℕ → BigAlloc) where
  -- bigalloc_depth, from `tmp` on, on fuel for the number of records above it
  unfoldable pub bigalloc_depth : (fuel tmp : ℕ) → Option ℕ
  bigalloc_depth zero tmp = if tmp == 0 then some 0 else none
  bigalloc_depth (suc k) tmp =
      let above = bigalloc_depth k (bs tmp).parent in
      if tmp == 0 then some 0 else above >>= λ depth. some (depth + 1)

  -- get_common_parent_bigalloc_recursive; every call takes one off `depth2`
  unfoldable pub get_common_parent_bigalloc_recursive : (b1 depth1 b2 depth2 : ℕ) → ℕ
  get_common_parent_bigalloc_recursive b1 depth1 b2 zero = if b1 == b2 then b1 else 0
  get_common_parent_bigalloc_recursive b1 zero b2 (suc depth2) = if b1 == b2 then b1 else 0
  get_common_parent_bigalloc_recursive b1 (suc depth1) b2 (suc depth2) =
      let up1 = get_common_parent_bigalloc_recursive (bs b1).parent depth1 b2 depth2 in
      let up2 = get_common_parent_bigalloc_recursive b1 (suc depth1) (bs b2).parent depth2 in
      if b1 == b2 then b1 else if ltb (suc depth2) (suc depth1) then up1 else up2

  -- the record `n` levels above
  abbrev pub ancestor : (n b : ℕ) → ℕ
  ancestor zero b = b
  ancestor (suc n) b = ancestor n (bs b).parent
