-- ===== src/Pageindex/Create/Correct.antt =====
-- Creating a record below a parent.
use liballocs.Common.{
  ℕ, zero, suc, ◌+◌, ◌-◌, ◌/◌, ◌≤◌, ◌<◌, ◌≡◌, ◌≢◌, ◌↔◌, inl, inr, refl, ap, sym, subst, ◌∙◌, true,
  false, ◌&&◌, some, arith, ltb, leb, if◌then◌else◌, ◌∈◌, ◌∉◌, Distinct, Bool-cases,
}
use liballocs.Pageindex.Vas.{Vas, page_size, page_dist}
use liballocs.Pageindex.State.{BigAlloc, State, in_use, nbigallocs}
use liballocs.Pageindex.Forest.{Forest, leaf, ids, IsForest, IsForest-frame}
use liballocs.Pageindex.Link.{link_child}
use liballocs.Pageindex.Link.Graft.{graft, link_child-graft}
use liballocs.Pageindex.Resize.{set_record, memset_state}
use liballocs.Pageindex.Resize.Laws.{
  spans_page, Writable, memset_state-Wrote, floor_page, ceil_page,
}
use liballocs.Pageindex.Create.{
  free_from, find_free_bigalloc, none_indexed, is_unindexed, Info, init_record,
  bigalloc_init_nomemset, bigalloc_init, bigalloc_new,
}

-- two records with the same range
abbrev pub SameRange : BigAlloc → BigAlloc → Type 0
SameRange r r' = (r'.begin ≡ r.begin) × (r'.end ≡ r.end)

-- The search returns the first record that is not in use, if there is one in its range.
free_from-first :
    (bs : ℕ → BigAlloc) (left p j : ℕ)
    → in_use (bs j) ≡ false
    → p ≤ j
    → j < p + left
    → (x : ℕ) × (free_from bs left p ≡ some x)
      × (in_use (bs x) ≡ false)
      × (p ≤ x)
      × (x ≤ j)
      × ((i : ℕ) → p ≤ i → i < x → in_use (bs i) ≡ true)
unfolding free_from
free_from-first bs zero p j free lo hi = absurd (omega arith)
free_from-first bs (suc left) p j free lo hi = elim (Bool-cases (in_use (bs p))) [
  | inl used ↦
      let ne : p ≢ j = λ e. ground arith in
      let (x, e, f, l, u, before) =
        free_from-first bs left (p + 1) j free (omega arith) (omega arith) in
      (x, ground arith, f, omega arith, u, λ i a b. ground (arith, before i))
  | inr here ↦ (p, ground arith, here, omega arith, lo, λ i a b. absurd (omega arith))
]

none_indexed-zero :
    (t : ℕ → ℕ) (left pos p : ℕ)
    → none_indexed t left pos ≡ true
    → pos ≤ p
    → p < pos + left
    → t p ≡ 0
unfolding none_indexed
none_indexed-zero t zero pos p e lo hi = absurd (omega arith)
none_indexed-zero t (suc left) pos p e lo hi = ground (arith, none_indexed-zero t left (pos + 1) p)

none_indexed-true :
    (t : ℕ → ℕ) (left pos : ℕ)
    → ((p : ℕ) → pos ≤ p → p < pos + left → t p ≡ 0)
    → none_indexed t left pos ≡ true
unfolding none_indexed
none_indexed-true t zero pos h = refl
none_indexed-true t (suc left) pos h =
    ground
      (arith, h pos, none_indexed-true t left (pos + 1) (λ p a b. h p (omega arith) (omega arith)))

-- is_unindexed (__pages_unused) decides whether the page of `begin` is not beyond that of `end` and no
-- page from the one up to, and not including, the other has an entry in the index.
is_unindexed_iff :
    (v : Vas) (start fuel : ℕ) (s : State) (begin end : ℕ)
    → (is_unindexed v start fuel s begin end ≡ true) ↔ (
        (begin / 4096 ≤ end / 4096)
        × ((p : ℕ) → begin / 4096 ≤ p → p < end / 4096 → s.pageindex p ≡ 0))
unfolding is_unindexed
is_unindexed_iff v start fuel s begin end =
    let eb = v.pagenum_lem begin in
    let ee = v.pagenum_lem end in
    let n = v.pagenum end - v.pagenum begin in
    (
      λ h. (
        ground arith,
        λ p a b. ground (arith, none_indexed-zero s.pageindex n (v.pagenum begin) p),
      ),
      λ h. ground (
        arith,
        none_indexed-true s.pageindex n (v.pagenum begin)
            (λ p a b. h.1 p (omega arith) (omega arith)),
      ),
    )

module _ (v : Vas) (start fuel : ℕ) (s : State) (x ptr size p : ℕ) (info : Info) where
  -- the state in which bigalloc_init_nomemset links the record
  abbrev stored : State
  stored = set_record s x (init_record (s.big_allocations x) ptr size info)

  nomemset-eq :
      (bs : ℕ → BigAlloc)
      → p ≢ 0
      → (bs x).parent ≡ p
      → link_child v.debug stored.big_allocations x p ≡ some bs
      → bigalloc_init_nomemset v start fuel s x ptr size p info
        ≡ some (record stored { big_allocations = bs })
  unfolding bigalloc_init_nomemset
  nomemset-eq bs pz par ran = ground (arith, ran)

  -- what initialising the record comes to
  abbrev Initialised : (h : ℕ) → Forest → State → Type 0
  Initialised h f s' =
      IsForest s'.big_allocations 0 0 h (graft p x leaf f)
      × ((s'.big_allocations x).begin ≡ ptr)
      × ((s'.big_allocations x).end ≡ ptr + size)
      × ((i : ℕ) → i ≢ x → SameRange (s.big_allocations i) (s'.big_allocations i))

spans_pages :
    (r : BigAlloc) (ptr size q x old old' : ℕ)
    → r.begin ≡ ptr
    → r.end ≡ ptr + size
    → old' ≡ old
    → (if leb ((ptr + 4095) / 4096) q && ltb q ((ptr + size) / 4096) then x else old')
      ≡ (if spans_page r q then x else old)
spans_pages r ptr size q x old old' e1 e2 e3 = ground arith

module _ (v : Vas) (start fuel : ℕ) (s : State) (x ptr size p : ℕ) (info : Info) (h : ℕ)
    (f : Forest) where
  nomemset-graft :
      IsForest s.big_allocations 0 0 h f
      → Distinct (ids f)
      → p ∈ ids f
      → p ≢ 0
      → x ∉ ids f
      → x ≢ 0
      → (s.big_allocations x).parent ≡ 0
      → (s' : State) × (bigalloc_init_nomemset v start fuel s x ptr size p info ≡ some s')
        × Initialised v start fuel s x ptr size p info h f s'
        × (s'.pageindex ≡ s.pageindex)
  nomemset-graft c d m pz out nz orphan =
      let s1 = stored v start fuel s x ptr size p info in
      let framed =
        IsForest-frame s.big_allocations s1.big_allocations 0 0 h f c (λ j mj. ground arith) in
      let (bs, ran, tree, par, ranges) =
        link_child-graft v.debug s1.big_allocations x p 0 0 h f leaf framed (ground arith) (out, d)
          m nz (ground arith) (ground arith) (ground arith) in
      let begins : (s1.big_allocations x).begin ≡ ptr = ground arith in
      let ends : (s1.big_allocations x).end ≡ ptr + size = ground arith in
      (
        record s1 { big_allocations = bs },
        nomemset-eq v start fuel s x ptr size p info bs pz par ran,
        (tree, (ranges x).0 ∙ begins, (ranges x).1 ∙ ends, λ i ne. ground (arith, ranges i)),
        refl,
      )

  -- the pages of the new record
  indexed-eq :
      (s2 : State)
      → x < 65536
      → Initialised v start fuel s x ptr size p info h f s2
      → s2.pageindex ≡ s.pageindex
      → Writable v s p ((ptr + 4095) / 4096) ((ptr + size) / 4096)
      → let r = s2.big_allocations x in
        (s' : State) × (memset_state v s2
            (v.pagenum (v.round_up r.begin page_size))
            x
            p
            (page_dist v (v.round_up r.begin page_size) (v.round_down r.end page_size))
          ≡ some s')
        × Initialised v start fuel s x ptr size p info h f s'
        × ((q : ℕ)
            → s'.pageindex q ≡ (if spans_page (s'.big_allocations x) q then x else s.pageindex q))
  indexed-eq s2 small made same w =
      let r = s2.big_allocations x in
      let lo = ceil_page v r.begin in
      let hi = floor_page v r.end in
      let w2 =
        subst
          (λ t.
            Writable v (record s2 { pageindex = t }) p ((ptr + 4095) / 4096) ((ptr + size) / 4096))
          (sym same) w in
      let (s', wrote, (bs, fs, ix)) =
        memset_state-Wrote v s2 x p ((ptr + 4095) / 4096) ((ptr + size) / 4096)
          (v.pagenum (v.round_up r.begin page_size)) p
          (page_dist v (v.round_up r.begin page_size) (v.round_down r.end page_size)) small w2
          (ground arith) refl (ground arith) in
      let made' =
        subst
          (λ t.
            Initialised v start fuel s x ptr size p info h f (record s' { big_allocations = t }))
          (sym bs) made in
      (
        s',
        wrote,
        made',
        λ q.
            ix q
            ∙ spans_pages (s'.big_allocations x) ptr size q x (s.pageindex q) (s2.pageindex q)
                made'.1 made'.2 (ap (λ (t : ℕ → ℕ). t q) same),
      )

abbrev new_info : (allocator_private allocator_private_free allocated_by : ℕ) → Info
new_info allocator_private allocator_private_free allocated_by = record {
  allocator_private = allocator_private;
  allocator_private_free = allocator_private_free;
  allocated_by = allocated_by;
  suballocator = 0;
  suballocator_private = 0;
  suballocator_private_free = 0;
}

new-eq :
    (v : Vas) (start fuel : ℕ) (s s2 s' : State) (ptr size p private free by x : ℕ)
    → find_free_bigalloc s.big_allocations ≡ some x
    → bigalloc_init_nomemset v start fuel s x ptr size p (new_info private free by) ≡ some s2
    → memset_state v s2 (v.pagenum (v.round_up (s2.big_allocations x).begin page_size)) x p (
        page_dist v
          (v.round_up (s2.big_allocations x).begin page_size)
          (v.round_down (s2.big_allocations x).end page_size))
      ≡ some s'
    → bigalloc_new v start fuel s ptr size p private free by ≡ some (s', x)
unfolding bigalloc_new bigalloc_init
new-eq v start fuel s s2 s' ptr size p private free by x found ran wrote =
    rw (found, ran, wrote) refl

-- Where the forest of records has `p`, some record below NBIGALLOCS is not in use, the records not in
-- use are outside the forest and have no parent, and the entries of the pages that the range spans are
-- 0 or p: bigalloc_new takes the first record not in use, gives it the range and makes it the first
-- child of p, and sets the index entries of exactly the pages that it spans completely to its number;
-- the other records keep their ranges.
pub bigalloc_new-graft :
    (v : Vas) (start fuel : ℕ) (s : State)
    (ptr size p allocator_private allocator_private_free allocated_by j h : ℕ) (f : Forest)
    → IsForest s.big_allocations 0 0 h f
    → Distinct (ids f)
    → p ∈ ids f
    → p ≢ 0
    → in_use (s.big_allocations j) ≡ false
    → 1 ≤ j
    → j < nbigallocs
    → ((i : ℕ)
        → in_use (s.big_allocations i) ≡ false
        → (i ∉ ids f) × ((s.big_allocations i).parent ≡ 0))
    → Writable v s p ((ptr + 4095) / 4096) ((ptr + size) / 4096)
    → (x : ℕ) × (s' : State) × (bigalloc_new v start fuel s ptr size p allocator_private
          allocator_private_free allocated_by
        ≡ some (s', x))
      × (in_use (s.big_allocations x) ≡ false)
      × ((i : ℕ) → 1 ≤ i → i < x → in_use (s.big_allocations i) ≡ true)
      × IsForest s'.big_allocations 0 0 h (graft p x leaf f)
      × ((s'.big_allocations x).begin ≡ ptr)
      × ((s'.big_allocations x).end ≡ ptr + size)
      × ((i : ℕ) → i ≢ x → SameRange (s.big_allocations i) (s'.big_allocations i))
      × ((q : ℕ)
          → s'.pageindex q ≡ (if spans_page (s'.big_allocations x) q then x else s.pageindex q))
unfolding find_free_bigalloc
bigalloc_new-graft v start fuel s ptr size p ap af by j h f c d m pz free lo hi idle w =
    let (x, found, unused, least, most, before) =
      free_from-first s.big_allocations (nbigallocs - 1) 1 j free lo (omega arith) in
    let (out, orphan) = idle x unused in
    let info = new_info ap af by in
    let (s2, ran, made, same) =
      nomemset-graft v start fuel s x ptr size p info h f c d m pz out (λ e. omega arith) orphan in
    let (s', wrote, made', indexed) =
      indexed-eq v start fuel s x ptr size p info h f s2 (omega arith) made same w in
    (
      x,
      s',
      new-eq v start fuel s s2 s' ptr size p ap af by x found ran wrote,
      unused,
      before,
      made'.0,
      made'.1,
      made'.2,
      made'.3,
      indexed,
    )
