-- ===== src/Pageindex/Lookup/Correct.antt =====
-- What a lookup from the root returns.
use liballocs.Common.{
  ℕ, zero, suc, ◌+◌, ◌≤◌, ◌<◌, ◌≡◌, ◌≢◌, ◌∙◌, false, not, ◌||◌, ◌∷◌, some, arith, ◌∈◌, ◌==◌, has,
  true, has-append, Bool-cases, inl, inr, require-true, >>=-some,
}
use liballocs.Pageindex.Vas.{Vas}
use liballocs.Pageindex.State.{BigAlloc, State, spans}
use liballocs.Pageindex.Forest.{Forest, leaf, node, ids, size, IsForest}
use liballocs.Pageindex.Find.Nesting.{Outermost}
use liballocs.Pageindex.Find.Correct.{IsTree, find_bigalloc-Outermost}
use liballocs.Pageindex.Find.{find_bigalloc_recursive}
use liballocs.Pageindex.Delete.{outermost, find_bigalloc_from_root}
use liballocs.Pageindex.Lookup.{lookup_bigalloc_from_root}

module _ (bs : ℕ → BigAlloc) (r : ℕ) where
  outermost_mono : (k j b : ℕ) → outermost bs k b ≡ some r → k ≤ j → outermost bs j b ≡ some r
  unfolding outermost
  outermost_mono zero j b e l = ground arith
  outermost_mono (suc k) zero b e l = absurd (omega arith)
  outermost_mono (suc k) (suc j) b e l = ground (arith, outermost_mono k j (bs b).parent)

  outermost_step :
      (k b : ℕ)
      → (bs b).parent ≢ 0
      → outermost bs k (bs b).parent ≡ some r
      → outermost bs (suc k) b ≡ some r
  unfolding outermost
  outermost_step k b nz e = ground arith

  -- every record of a forest under `up` has the outermost parent that `up` has
  climb :
      (up q h : ℕ) (f : Forest) (b k : ℕ)
      → IsForest bs up q h f
      → up ≢ 0
      → b ∈ ids f
      → outermost bs k up ≡ some r
      → outermost bs (size f + k) b ≡ some r
  climb up q h leaf b k c nz m e = ground arith
  climb up q h (node x kids rest) b k c nz m e =
      let here : outermost bs (suc k) x ≡ some r =
        outermost_step k x (ground arith) (ground arith) in
      let parts = has-append b (ids kids) (ids rest) in
      elim (Bool-cases (b == x)) [
        | inl same ↦
            outermost_mono (suc k) (size (node x kids rest) + k) b (ground arith) (omega arith)
        | inr other ↦ elim (Bool-cases (has b (ids kids))) [
          | inl down ↦
              outermost_mono (size kids + suc k) (size (node x kids rest) + k) b
                (climb x 0 (bs x).first_child kids b (suc k) c.4 c.1 down here) (omega arith)
          | inr along ↦
              outermost_mono (size rest + k) (size (node x kids rest) + k) b
                (climb up x (bs x).next_sib rest b k c.5 nz (ground arith) e) (omega arith)
        ]
      ]

outermost-root :
    (bs : ℕ → BigAlloc) (n b fuel : ℕ) (f : Forest)
    → IsTree bs n f
    → (bs n).parent ≡ 0
    → size f < fuel
    → b ∈ (n ∷ ids f)
    → outermost bs fuel b ≡ some n
unfolding outermost
outermost-root bs n b fuel f tree top enough m =
    let root : outermost bs 1 n ≡ some n = ground arith in
    elim (Bool-cases (b == n)) [
      | inl same ↦ outermost_mono bs n 1 fuel b (ground arith) (omega arith)
      | inr other ↦
          outermost_mono bs n (size f + 1) fuel b
            (climb bs n n 0 (bs n).first_child f b 1 tree.links tree.is_record (ground arith) root)
            (omega arith)
    ]

-- Where the page of the address has an entry in a well-formed tree whose root spans the address, and
-- with fuel beyond the number of the root's descendants, __lookup_bigalloc_from_root for an allocator
-- that is not null returns the outermost record of the tree that spans the address and has that
-- allocator, from whichever record the page index names; it returns null only if there is none.
pub lookup_bigalloc_from_root-Outermost :
    (v : Vas) (s : State) (n fuel mem a : ℕ) (f : Forest)
    → IsTree s.big_allocations n f
    → (s.big_allocations n).parent ≡ 0
    → size f < fuel
    → a ≢ 0
    → s.pageindex (v.pagenum mem) ∈ (n ∷ ids f)
    → spans (s.big_allocations n) mem ≡ true
    → (r : ℕ) × (lookup_bigalloc_from_root v fuel s mem a ≡ some r)
      × Outermost s.big_allocations mem a false r (n ∷ ids f)
unfolding lookup_bigalloc_from_root find_bigalloc_from_root
lookup_bigalloc_from_root-Outermost v s n fuel mem a f tree top enough nz m hit =
    let (r, found, outer) = find_bigalloc-Outermost tree fuel mem enough a false hit in
    let climbed =
      outermost-root s.big_allocations n (s.pageindex (v.pagenum mem)) fuel f tree top enough m in
    (
      r,
      require-true (not v.debug || not (a == 0)) _ (ground arith)
          ∙ >>=-some (λ start. find_bigalloc_recursive s.big_allocations fuel start mem a false)
              climbed found,
      outer,
    )
