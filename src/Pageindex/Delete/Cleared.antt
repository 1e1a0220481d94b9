-- ===== src/Pageindex/Delete/Cleared.antt =====
-- Deleting a record that has no children and is below a parent.
use liballocs.Common.{
  ℕ, suc, ◌+◌, ◌/◌, ◌<◌, ◌≡◌, ◌≢◌, refl, ap, ◌∙◌, Bool, false, not, ◌||◌, some, arith, ltb, leb,
  if◌then◌else◌, ◌∈◌, Distinct, ◌&&◌, >>=-some, require-true, List, [], ◌∷◌, ◌++◌, ◌==◌,
}
use liballocs.Pageindex.Vas.{Vas, page_size, page_dist}
use liballocs.Pageindex.State.{BigAlloc, State, in_use}
use liballocs.Pageindex.Forest.{Forest, ids, IsForest, SameLinks, IsForest-frame}
use liballocs.Pageindex.Link.{unlink_child}
use liballocs.Pageindex.Link.Prune.{prune, unlink_child-prune}
use liballocs.Pageindex.Resize.{memset_state}
use liballocs.Pageindex.Resize.Laws.{
  spans_page, Writable, memset_state-Wrote, floor_page, ceil_page,
}
use liballocs.Pageindex.Create.Correct.{SameRange}
use liballocs.Pageindex.Delete.{
  free_private, clear_bigalloc_nomemset, unlink, del_childless, del_children, bigalloc_del,
}

cleared_pages :
    (r : BigAlloc) (q num old : ℕ)
    → (if leb ((r.begin + 4095) / 4096) q && ltb q (r.end / 4096) then num else old)
      ≡ (if spans_page r q then num else old)
cleared_pages r q num old = ground arith

unlink-below :
    (debug : Bool) (bs : ℕ → BigAlloc) (x : ℕ)
    → (bs x).parent ≢ 0
    → unlink debug bs x ≡ unlink_child debug bs x
unfolding unlink
unlink-below debug bs x nz = ground arith

module _ (s2 : State) (bs : ℕ → BigAlloc) (x j : ℕ) where
  cleared-links :
      s2.big_allocations ≡ bs → SameLinks (bs j) ((clear_bigalloc_nomemset s2 x).big_allocations j)
  cleared-links e = let ej = ap (λ (t : ℕ → BigAlloc). t j) e in ground arith

  cleared-idle : in_use ((clear_bigalloc_nomemset s2 x).big_allocations x) ≡ false
  cleared-idle = ground arith

  cleared-range :
      s2.big_allocations ≡ bs
      → j ≢ x
      → SameRange (bs j) ((clear_bigalloc_nomemset s2 x).big_allocations j)
  cleared-range e ne = let ej = ap (λ (t : ℕ → BigAlloc). t j) e in ground arith

module _ (v : Vas) (s : State) (x : ℕ) where
  -- the state after the free functions are called and the record is unlinked
  abbrev unlinked : (ℕ → BigAlloc) → State
  unlinked bs = record s {
    freed = free_private s.freed (s.big_allocations x);
    big_allocations = bs;
  }

  bigalloc_del-childless :
      (k : ℕ)
      → (s.big_allocations x).first_child ≡ 0
      → bigalloc_del v (suc k) s x ≡ del_childless v s x
  unfolding bigalloc_del del_children
  bigalloc_del-childless k e =
      >>=-some {m = del_children v (suc k) s (s.big_allocations x).first_child} {a = s}
        (λ s1. del_childless v s1 x) (rw e refl) refl

  del_childless-run :
      (bs : ℕ → BigAlloc) (s2 : State)
      → unlink v.debug s.big_allocations x ≡ some bs
      → memset_state v
          (unlinked bs)
          (v.pagenum (v.round_up (bs x).begin page_size))
          (s.big_allocations x).parent
          x
          (page_dist v (v.round_up (bs x).begin page_size) (v.round_down (bs x).end page_size))
        ≡ some s2
      → del_childless v s x ≡ some (clear_bigalloc_nomemset s2 x)
  unfolding del_childless
  del_childless-run bs s2 off wrote = >>=-some _ off (
      >>=-some _ wrote (
        require-true
          (not v.debug || not (in_use ((clear_bigalloc_nomemset s2 x).big_allocations x))) _
          (ground arith)))

-- the call that frees a record's suballocator_private, and the one that frees its allocator_private
abbrev pub suballocator_call : BigAlloc → List (ℕ × ℕ)
suballocator_call r =
    if r.suballocator_private_free == 0
    then []
    else (r.suballocator_private_free, r.suballocator_private) ∷ []

abbrev pub allocator_call : BigAlloc → List (ℕ × ℕ)
allocator_call r =
    if (r.allocator_private == 0) || (r.allocator_private_free == 0)
    then []
    else (r.allocator_private_free, r.allocator_private) ∷ []

free_private-calls :
    (freed : List (ℕ × ℕ)) (r : BigAlloc)
    → free_private freed r ≡ suballocator_call r ++ (allocator_call r ++ freed)
free_private-calls freed r = ground arith

-- On a record that has no children and is below a parent of number below 65536, in the list of trees
-- that starts at the record `h`, where the entries of the pages that it spans are 0 or its own number,
-- bigalloc_del succeeds: it calls the free functions of the metadata that the record has, that of its
-- allocator first and then that of its suballocator, takes the record out of
-- the trees, clears its range and keeps the range of every other record, and gives its parent's number
-- to the entries of exactly the pages that the record spanned completely.
pub bigalloc_del-prune :
    (v : Vas) (s : State) (x h k : ℕ) (f : Forest)
    → IsForest s.big_allocations 0 0 h f
    → Distinct (ids f)
    → x ∈ ids f
    → let r = s.big_allocations x in
      r.first_child ≡ 0
      → r.parent ≢ 0
      → r.parent < 65536
      → Writable v s x ((r.begin + 4095) / 4096) (r.end / 4096)
      → (s' : State) × (bigalloc_del v (suc k) s x ≡ some s')
        × IsForest s'.big_allocations 0 0 h (prune x f)
        × (in_use (s'.big_allocations x) ≡ false)
        × ((i : ℕ) → i ≢ x → SameRange (s.big_allocations i) (s'.big_allocations i))
        × (s'.freed ≡ suballocator_call r ++ (allocator_call r ++ s.freed))
        × ((q : ℕ) → s'.pageindex q ≡ (if spans_page r q then r.parent else s.pageindex q))
bigalloc_del-prune v s x h k f c d m alone up small w =
    let r = s.big_allocations x in
    let (bs, off, tree, _, _, _, ranges) =
      unlink_child-prune v.debug s.big_allocations x h f c d m up in
    let (begins, ends) = ranges x in
    let lo = ceil_page v (bs x).begin in
    let hi = floor_page v (bs x).end in
    let (s2, wrote, (same, freed, ix)) =
      memset_state-Wrote v (unlinked v s x bs) r.parent x ((r.begin + 4095) / 4096) (r.end / 4096)
        (v.pagenum (v.round_up (bs x).begin page_size)) x
        (page_dist v (v.round_up (bs x).begin page_size) (v.round_down (bs x).end page_size)) small
        w (ground arith) refl (ground arith) in
    (
      clear_bigalloc_nomemset s2 x,
      bigalloc_del-childless v s x k alone
          ∙ del_childless-run v s x bs s2 (unlink-below v.debug s.big_allocations x up ∙ off) wrote,
      IsForest-frame bs (clear_bigalloc_nomemset s2 x).big_allocations 0 0 h (prune x f) tree
          (λ j n. cleared-links s2 bs x j same),
      cleared-idle s2 bs x x,
      λ i ne. ground (arith, ranges i, cleared-range s2 bs x i same),
      freed ∙ free_private-calls s.freed r,
      λ q. ix q ∙ cleared_pages r q r.parent (s.pageindex q),
    )
