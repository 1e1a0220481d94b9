-- ===== src/Pageindex/Indexed.antt =====
-- What the page index of src/pageindex.c means, as include/pageindex.h describes it: it maps a page to
-- the deepest big allocation that completely spans the page; and what the creation of a record does to it.
use liballocs.Common.{
  ℕ, ◌+◌, ◌/◌, ◌≤◌, ◌<◌, ◌≡◌, ◌≢◌, inl, inr, refl, sym, subst, true, false, List, [], ◌∷◌, some,
  arith, if◌then◌else◌, ◌∈◌, ◌∉◌, Distinct, has-append, last_or, Bool-cases,
}
use liballocs.Pageindex.Vas.{Vas}
use liballocs.Pageindex.State.{BigAlloc, State, in_use, nbigallocs}
use liballocs.Pageindex.Forest.{Forest, leaf, node, ids, IsForest, Within, Apart, Nested}
use liballocs.Pageindex.Find.Nesting.{below-Within, below-Apart}
use liballocs.Pageindex.Link.Graft.{graft}
use liballocs.Pageindex.Resize.Laws.{spans_page, Writable}
use liballocs.Pageindex.Create.{bigalloc_new}
use liballocs.Pageindex.Create.Correct.{bigalloc_new-graft, SameRange}

-- the records of a forest that completely span a page, outermost first
abbrev pub page_path : (ℕ → BigAlloc) → ℕ → Forest → List ℕ
page_path bs q leaf = []
page_path bs q (node y kids rest) =
    let down = page_path bs q kids in
    let along = page_path bs q rest in if spans_page (bs y) q then y ∷ down else along

-- the index maps each page to the deepest of them, or 0
abbrev pub Indexed : State → Forest → Type 0
Indexed s f = (q : ℕ) → s.pageindex q ≡ last_or 0 (page_path s.big_allocations q f)

page_path-frame :
    (bs bs' : ℕ → BigAlloc) (q : ℕ) (f : Forest)
    → ((j : ℕ) → j ∈ ids f → SameRange (bs j) (bs' j))
    → page_path bs' q f ≡ page_path bs q f
page_path-frame bs bs' q leaf same = refl
page_path-frame bs bs' q (node y kids rest) same = ground (
  arith,
  same y,
  page_path-frame bs bs' q kids
      (λ j m. same j (ground (arith, has-append j (ids kids) (ids rest)))),
  page_path-frame bs bs' q rest
      (λ j m. same j (ground (arith, has-append j (ids kids) (ids rest)))),
)

module _ (bs : ℕ → BigAlloc) (q p x : ℕ) where
  -- a new leaf that does not span the page changes nothing
  page_path-graft_beside :
      (f : Forest)
      → spans_page (bs x) q ≡ false
      → page_path bs q (graft p x leaf f) ≡ page_path bs q f
  page_path-graft_beside leaf out = refl
  page_path-graft_beside (node y kids rest) out =
      ground (arith, page_path-graft_beside kids out, page_path-graft_beside rest out)

  -- one that does is the deepest
  page_path-graft_over :
      (d : ℕ) (f : Forest)
      → Nested bs f
      → p ∈ ids f
      → (bs p).begin ≤ (bs x).begin
      → (bs x).end ≤ (bs p).end
      → spans_page (bs x) q ≡ true
      → last_or d (page_path bs q (graft p x leaf f)) ≡ x
  page_path-graft_over d leaf n m lo hi over = ground arith
  page_path-graft_over d (node y kids rest) n m lo hi over = ground (
    arith,
    has-append p (ids kids) (ids rest),
    below-Within bs (bs y).begin (bs y).end p kids n.0 n.2,
    below-Apart bs (bs y).begin (bs y).end p rest n.1 n.3,
    page_path-graft_over y kids n.2,
    page_path-graft_over d rest n.3,
  )

-- a nested forest stays so when ranges do not change
Within-frame :
    (bs bs' : ℕ → BigAlloc) (a b : ℕ) (f : Forest)
    → ((j : ℕ) → j ∈ ids f → SameRange (bs j) (bs' j))
    → Within bs a b f
    → Within bs' a b f
Within-frame bs bs' a b leaf same w = w
Within-frame bs bs' a b (node y kids rest) same w = ground (
  arith,
  same y,
  Within-frame bs bs' a b rest (λ j m. same j (ground (arith, has-append j (ids kids) (ids rest)))),
)

Apart-frame :
    (bs bs' : ℕ → BigAlloc) (a b : ℕ) (f : Forest)
    → ((j : ℕ) → j ∈ ids f → SameRange (bs j) (bs' j))
    → Apart bs a b f
    → Apart bs' a b f
Apart-frame bs bs' a b leaf same w = w
Apart-frame bs bs' a b (node y kids rest) same w = ground (
  arith,
  same y,
  Apart-frame bs bs' a b rest (λ j m. same j (ground (arith, has-append j (ids kids) (ids rest)))),
)

Nested-frame :
    (bs bs' : ℕ → BigAlloc) (f : Forest)
    → ((j : ℕ) → j ∈ ids f → SameRange (bs j) (bs' j))
    → Nested bs f
    → Nested bs' f
Nested-frame bs bs' leaf same n = n
Nested-frame bs bs' (node y kids rest) same n =
    let sk =
      λ (j : ℕ) (m : j ∈ ids kids). same j (ground (arith, has-append j (ids kids) (ids rest))) in
    let sr =
      λ (j : ℕ) (m : j ∈ ids rest). same j (ground (arith, has-append j (ids kids) (ids rest))) in
    let (eb, ee) = same y (ground arith) in
    (
      subst (λ a. Within bs' a (bs' y).end kids) (sym eb)
          (subst (λ b. Within bs' (bs y).begin b kids) (sym ee)
            (Within-frame bs bs' (bs y).begin (bs y).end kids sk n.0)),
      subst (λ a. Apart bs' a (bs' y).end rest) (sym eb)
          (subst (λ b. Apart bs' (bs y).begin b rest) (sym ee)
            (Apart-frame bs bs' (bs y).begin (bs y).end rest sr n.1)),
      Nested-frame bs bs' kids sk n.2,
      Nested-frame bs bs' rest sr n.3,
    )

-- the entry of a page after a record is added
deepest_new :
    (s s' : State) (q p x : ℕ) (f : Forest)
    → Indexed s f
    → p ∈ ids f
    → x ∉ ids f
    → ((i : ℕ) → i ≢ x → SameRange (s.big_allocations i) (s'.big_allocations i))
    → s'.pageindex q ≡ (if spans_page (s'.big_allocations x) q then x else s.pageindex q)
    → Nested s.big_allocations f
    → (s.big_allocations p).begin ≤ (s'.big_allocations x).begin
    → (s'.big_allocations x).end ≤ (s.big_allocations p).end
    → s'.pageindex q ≡ last_or 0 (page_path s'.big_allocations q (graft p x leaf f))
deepest_new s s' q p x f ix m out same e n lo hi =
    let bs' = s'.big_allocations in
    let kept = λ (j : ℕ) (mj : j ∈ ids f). same j (λ z. ground arith) in
    let n' = Nested-frame s.big_allocations bs' f kept n in
    let framed = page_path-frame s.big_allocations bs' q f kept in
    let old = ix q in
    let range = kept p m in
    elim (Bool-cases (spans_page (bs' x) q)) [
      | inl over ↦
          ground (arith, page_path-graft_over bs' q p x 0 f n' m (omega arith) (omega arith) over)
      | inr beside ↦ ground (arith, page_path-graft_beside bs' q p x f beside)
    ]

-- Let the index map each page to the deepest record of a nested forest that completely spans it. Where
-- the range lies in that of the record p of the forest, some record below NBIGALLOCS is not in use, the
-- records not in use are outside the forest and have no parent, and the entries of the pages that the
-- range spans are 0 or p, bigalloc_new succeeds, and the index again maps each page to the deepest
-- record that completely spans it, now with the new record as a child of p.
pub bigalloc_new-Indexed :
    (v : Vas) (start fuel : ℕ) (s : State)
    (ptr size p allocator_private allocator_private_free allocated_by j h : ℕ) (f : Forest)
    → IsForest s.big_allocations 0 0 h f
    → Distinct (ids f)
    → Nested s.big_allocations f
    → Indexed s f
    → p ∈ ids f
    → p ≢ 0
    → (s.big_allocations p).begin ≤ ptr
    → ptr + size ≤ (s.big_allocations p).end
    → in_use (s.big_allocations j) ≡ false
    → 1 ≤ j
    → j < nbigallocs
    → ((i : ℕ)
        → in_use (s.big_allocations i) ≡ false
        → (i ∉ ids f) × ((s.big_allocations i).parent ≡ 0))
    → Writable v s p ((ptr + 4095) / 4096) ((ptr + size) / 4096)
    → (x : ℕ) × (s' : State) × (bigalloc_new v start fuel s ptr size p allocator_private
          allocator_private_free allocated_by
        ≡ some (s', x))
      × IsForest s'.big_allocations 0 0 h (graft p x leaf f)
      × Indexed s' (graft p x leaf f)
bigalloc_new-Indexed v start fuel s ptr size p ap af by j h f c d n ix m pz lo hi free least below
      idle w =
    let (x, s', ran, unused, before, tree, begins, ends, same, indexed) =
      bigalloc_new-graft v start fuel s ptr size p ap af by j h f c d m pz free least below idle
        w in
    let (out, orphan) = idle x unused in
    (
      x,
      s',
      ran,
      tree,
      λ q.
          deepest_new s s' q p x f ix m out same (indexed q) n (omega (arith, begins, lo))
            (omega (arith, ends, hi)),
    )
