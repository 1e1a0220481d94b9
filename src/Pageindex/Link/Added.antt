-- ===== src/Pageindex/Link/Added.antt =====
-- add_child of src/pageindex.c with its sanity checks, as an operation on the tree that the links form.
use liballocs.Common.{
  ℕ, ◌≤◌, ◌≡◌, ◌≢◌, inl, inr, refl, true, some, ◌∷◌, ◌++◌, arith, ◌∈◌, Distinct, ◌==◌, has-append,
  Bool-cases, has,
}
use liballocs.Pageindex.Vas.{Vas}
use liballocs.Pageindex.State.{BigAlloc}
use liballocs.Pageindex.Forest.{Forest, leaf, node, ids, size, IsForest, Within}
use liballocs.Pageindex.Sanity.{own_checks, sanity_check_bigalloc}
use liballocs.Pageindex.Sanity.Passes.{Fits, HasDepth-null, sanity_check_bigalloc-passes}
use liballocs.Pageindex.Link.{add_child, link_child}
use liballocs.Pageindex.Link.Graft.{graft, link_child-graft}

size-graft : (p x : ℕ) (own f : Forest) → size f ≤ size (graft p x own f)
size-graft p x own leaf = omega arith
size-graft p x own (node y kids rest) =
    ground (arith, size-graft p x own kids, size-graft p x own rest)

-- `p` and the new child are in the forest
graft-ids :
    (p x : ℕ) (own f : Forest)
    → p ∈ ids f
    → (p ∈ ids (graft p x own f)) × (x ∈ ids (graft p x own f))
graft-ids p x own leaf m = absurd (ground arith)
graft-ids p x own (node y kids rest) m = elim (Bool-cases (y == p)) [
  | inl here ↦ ground arith
  | inr other ↦ elim (Bool-cases (has p (ids kids))) [
    | inl below ↦
        let (a, b) = graft-ids p x own kids below in
        ground (
          arith,
          has-append p (ids (graft p x own kids)) (ids (graft p x own rest)),
          has-append x (ids (graft p x own kids)) (ids (graft p x own rest)),
        )
    | inr beside ↦
        let (a, b) = graft-ids p x own rest (ground (arith, has-append p (ids kids) (ids rest))) in
        ground (
          arith,
          has-append p (ids (graft p x own kids)) (ids (graft p x own rest)),
          has-append x (ids (graft p x own kids)) (ids (graft p x own rest)),
        )
  ]
]

Within-graft :
    (bs : ℕ → BigAlloc) (a b p x : ℕ) (own f : Forest)
    → Within bs a b f
    → Within bs a b (graft p x own f)
Within-graft bs a b p x own leaf w = w
Within-graft bs a b p x own (node y kids rest) w =
    ground (arith, Within-graft bs a b p x own rest w.2)

module _ (v : Vas) (min_alignment : ℕ → ℕ) (bs bs' : ℕ → BigAlloc) (pageindex : ℕ → ℕ)
    (same : (j : ℕ)
      → ((bs' j).begin ≡ (bs j).begin)
        × ((bs' j).end ≡ (bs j).end)
        × ((bs' j).allocated_by ≡ (bs j).allocated_by)) where
  own_checks-frame :
      (y : ℕ)
      → own_checks v min_alignment bs pageindex y ≡ true
      → own_checks v min_alignment bs' pageindex y ≡ true
  unfolding own_checks
  own_checks-frame y h = rw ((same y).0, (same y).1, (same y).2) h

  Within-frame : (a b : ℕ) (f : Forest) → Within bs a b f → Within bs' a b f
  Within-frame a b leaf w = w
  Within-frame a b (node y kids rest) w =
      let later = Within-frame a b rest w.2 in
      (omega (arith, w.0, (same y).0), omega (arith, w.1, (same y).1), later)

  Fits-frame :
      (f : Forest) → Fits v min_alignment bs pageindex f → Fits v min_alignment bs' pageindex f
  Fits-frame leaf h = h
  Fits-frame (node y kids rest) h = (
    own_checks-frame y h.0,
    rw ((same y).0, (same y).1) (Within-frame (bs y).begin (bs y).end kids h.1),
    Fits-frame kids h.2,
    Fits-frame rest h.3,
  )

Fits-graft :
    (v : Vas) (min_alignment : ℕ → ℕ) (bs : ℕ → BigAlloc) (pageindex : ℕ → ℕ) (p x : ℕ)
    (own f : Forest)
    → Fits v min_alignment bs pageindex (node x own leaf)
    → ((bs p).begin ≤ (bs x).begin)
    → ((bs x).end ≤ (bs p).end)
    → Fits v min_alignment bs pageindex f
    → Fits v min_alignment bs pageindex (graft p x own f)
Fits-graft v min_alignment bs pageindex p x own leaf mine lo hi h = h
Fits-graft v min_alignment bs pageindex p x own (node y kids rest) mine lo hi h =
    elim (Bool-cases (y == p)) [
      | inl here ↦
          let at : y ≡ p = ground arith in
          rw here (h.0, (rw at lo, rw at hi, h.1), (mine.0, mine.1, mine.2, h.2), h.3)
      | inr other ↦ rw other (
        h.0,
        Within-graft bs (bs y).begin (bs y).end p x own kids h.1,
        Fits-graft v min_alignment bs pageindex p x own kids mine lo hi h.2,
        Fits-graft v min_alignment bs pageindex p x own rest mine lo hi h.3,
      )
    ]

add_child-runs :
    (v : Vas) (min_alignment : ℕ → ℕ) (depth_fuel fuel : ℕ) (pageindex : ℕ → ℕ)
    (bs bs1 : ℕ → BigAlloc) (child parent : ℕ)
    → sanity_check_bigalloc v min_alignment bs pageindex depth_fuel fuel parent ≡ true
    → link_child v.debug bs child parent ≡ some bs1
    → sanity_check_bigalloc v min_alignment bs1 pageindex depth_fuel fuel child ≡ true
    → sanity_check_bigalloc v min_alignment bs1 pageindex depth_fuel fuel parent ≡ true
    → add_child v min_alignment depth_fuel fuel pageindex bs child parent ≡ some bs1
unfolding add_child
add_child-runs v min_alignment depth_fuel fuel pageindex bs bs1 child parent before run own up =
    ground (arith, before, run, own, up)

-- Take a forest of records without parents and their descendants, and a tree of `x` and its descendants
-- `own` that is not in it, the links of `x` to a parent and siblings being clear. Let every record have
-- its children in its range and pass those assertions of sanity_check_bigalloc that read no other
-- record, and let `x` lie in the range of a record `p` of the forest. With fuel for the records of both,
-- add_child passes its assertions, those of its sanity checks included. It makes the tree the first
-- child of `p` and changes nothing else in the forest, nor any record's range or allocator, and every
-- record of the new forest passes sanity_check_bigalloc.
pub add_child-graft :
    (v : Vas) (min_alignment : ℕ → ℕ) (depth_fuel fuel : ℕ) (pageindex : ℕ → ℕ) (bs : ℕ → BigAlloc)
    (x p q h : ℕ) (f own : Forest)
    → IsForest bs 0 q h f
    → IsForest bs x 0 (bs x).first_child own
    → Distinct ((x ∷ ids own) ++ ids f)
    → p ∈ ids f
    → x ≢ 0
    → (bs x).parent ≡ 0
    → (bs x).next_sib ≡ 0
    → (bs x).prev_sib ≡ 0
    → Fits v min_alignment bs pageindex f
    → Fits v min_alignment bs pageindex (node x own leaf)
    → (bs p).begin ≤ (bs x).begin
    → (bs x).end ≤ (bs p).end
    → size (graft p x own f) ≤ depth_fuel
    → size (graft p x own f) ≤ fuel
    → (bs' : ℕ → BigAlloc) × (add_child v min_alignment depth_fuel fuel pageindex bs x p ≡ some bs')
      × IsForest bs' 0 q h (graft p x own f)
      × ((bs' x).parent ≡ p)
      × ((j : ℕ)
          → ((bs' j).begin ≡ (bs j).begin)
            × ((bs' j).end ≡ (bs j).end)
            × ((bs' j).allocated_by ≡ (bs j).allocated_by))
      × ((y : ℕ)
          → y ∈ ids (graft p x own f)
          → sanity_check_bigalloc v min_alignment bs' pageindex depth_fuel fuel y ≡ true)
add_child-graft v min_alignment depth_fuel fuel pageindex bs x p q h f own c mine d m nz p0 n0 v0
      fits fits_own lo hi deep enough =
    let (bs', run, c', up, same) =
      link_child-graft v.debug bs x p 0 q h f own c mine d m nz p0 n0 v0 in
    let smaller = size-graft p x own f in
    let before =
      sanity_check_bigalloc-passes v min_alignment bs pageindex depth_fuel fuel 0 q h 0 f c
        (HasDepth-null bs) (omega (arith, deep, smaller)) fits (λ e. absurd (e refl))
        (omega (arith, enough, smaller)) p m in
    let after =
      sanity_check_bigalloc-passes v min_alignment bs' pageindex depth_fuel fuel 0 q h 0
        (graft p x own f) c' (HasDepth-null bs') (omega (arith, deep))
        (Fits-frame v min_alignment bs bs' pageindex same (graft p x own f)
          (Fits-graft v min_alignment bs pageindex p x own f fits_own lo hi fits))
        (λ e. absurd (e refl)) enough in
    let (there_p, there_x) = graft-ids p x own f m in
    (
      bs',
      add_child-runs v min_alignment depth_fuel fuel pageindex bs bs' x p before run
          (after x there_x) (after p there_p),
      c',
      up,
      same,
      after,
    )
