-- ===== src/Pageindex/Link/Prune.antt =====
-- unlink_child of src/pageindex.c, as an operation on the tree that the links form.
use liballocs.Common.{
  ℕ, ◌≡◌, ◌≢◌, ◌⊎◌, inl, inr, refl, subst, ◌∙◌, Bool, not, ◌&&◌, ◌||◌, some, arith, ◌∈◌, ◌∉◌,
  Distinct, ◌==◌, if◌then◌else◌, has-append, require-true, Bool-cases,
}
use liballocs.Pageindex.State.{BigAlloc}
use liballocs.Pageindex.Forest.{Forest, leaf, node, ids, IsForest}
use liballocs.Pageindex.Link.{unlink_child, set_parent, set_first_child, set_next_sib, set_prev_sib}
use liballocs.Pageindex.Link.Graft.{Distinct-append, head-mem, IsForest-nonzero}

-- the forest less the tree of `x`
abbrev pub prune : (x : ℕ) → Forest → Forest
prune x leaf = leaf
prune x (node y kids rest) =
    let kids' = prune x kids in
    let rest' = prune x rest in if y == x then rest else node y kids' rest'

prune-absent : (x : ℕ) (f : Forest) → x ∉ ids f → prune x f ≡ f
prune-absent x leaf out = refl
prune-absent x (node y kids rest) out =
    ground (arith, has-append x (ids kids) (ids rest), prune-absent x kids, prune-absent x rest)

module _ (bs : ℕ → BigAlloc) (x : ℕ) where
  -- the next sibling points back
  next-prev :
      (up q h : ℕ) (f : Forest)
      → IsForest bs up q h f
      → x ∈ ids f
      → ((bs x).next_sib ≡ 0) ⊎ ((bs (bs x).next_sib).prev_sib ≡ x)
  next-prev up q h leaf c m = ground arith
  next-prev up q h (node y kids leaf) c m =
      ground (arith, has-append x (ids kids) (ids leaf), next-prev y 0 (bs y).first_child kids c.4)
  next-prev up q h (node y kids (node z zs zr)) c m = ground (
    arith,
    has-append x (ids kids) (ids (node z zs zr)),
    next-prev y 0 (bs y).first_child kids c.4,
    next-prev up y (bs y).next_sib (node z zs zr) c.5,
  )

  -- the previous sibling points forth
  prev-next :
      (up q h : ℕ) (f : Forest)
      → IsForest bs up q h f
      → x ∈ ids f
      → ((h ≡ x) × ((bs x).prev_sib ≡ q))
        ⊎ (((bs x).prev_sib ≡ 0) ⊎ ((bs (bs x).prev_sib).next_sib ≡ x))
  prev-next up q h leaf c m = ground arith
  prev-next up q h (node y kids rest) c m = ground (
    arith,
    has-append x (ids kids) (ids rest),
    prev-next y 0 (bs y).first_child kids c.4,
    prev-next up y (bs y).next_sib rest c.5,
  )

  -- a record is a first child exactly if it has no previous sibling
  first-prev :
      (up q h : ℕ) (f : Forest)
      → IsForest bs up q h f
      → x ∈ ids f
      → (((bs x).parent ≡ up) × (if h == x then (bs x).prev_sib ≡ q else ((bs x).prev_sib ≢ 0)))
        ⊎ (if (bs (bs x).parent).first_child == x
            then (bs x).prev_sib ≡ 0
            else ((bs x).prev_sib ≢ 0))
  first-prev up q h leaf c m = ground arith
  first-prev up q h (node y kids rest) c m = ground (
    arith,
    has-append x (ids kids) (ids rest),
    first-prev y 0 (bs y).first_child kids c.4,
    first-prev up y (bs y).next_sib rest c.5,
  )

  -- what unlink_child does to the records other than `x`
  abbrev Unhooked : (bs' : ℕ → BigAlloc) → ℕ → Type 0
  Unhooked bs' j =
      let r = bs x in
      ((bs' j).parent ≡ (bs j).parent)
      × ((bs' j).next_sib
          ≡ (if not (r.prev_sib == 0) && (j == r.prev_sib) then r.next_sib else (bs j).next_sib))
      × ((bs' j).prev_sib
          ≡ (if not (r.next_sib == 0) && (j == r.next_sib) then r.prev_sib else (bs j).prev_sib))
      × ((bs' j).first_child ≡ (
          if (j == r.parent) && ((bs j).first_child == x) then r.next_sib else (bs j).first_child))

head-links :
    (bs : ℕ → BigAlloc) (up q h : ℕ) (f : Forest)
    → IsForest bs up q h f
    → (h ≡ 0) ⊎ (((bs h).parent ≡ up) × ((bs h).prev_sib ≡ q))
head-links bs up q h leaf c = inl c
head-links bs up q h (node y kids rest) c = ground arith

module _ (bs bs' : ℕ → BigAlloc) (x : ℕ) (nz : x ≢ 0)
    (links : (j : ℕ) → j ≢ x → Unhooked bs x bs' j)
    (back : (bs x).next_sib ≢ 0 → (bs (bs x).next_sib).prev_sib ≡ x)
    (forth : (bs x).prev_sib ≢ 0 → (bs (bs x).prev_sib).next_sib ≡ x) where
  prune-IsForest :
      (up q h : ℕ) (f : Forest)
      → IsForest bs up q h f
      → Distinct (ids f)
      → q ≢ x
      → IsForest bs' up q (if h == x then (bs x).next_sib else h) (prune x f)
  prune-IsForest up q h leaf c d ne = ground arith
  prune-IsForest up q h (node y kids leaf) c d ne =
      let (dk, dr, apart) = Distinct-append (ids kids) (ids leaf) d.1 in
      let down = prune-IsForest y 0 (bs y).first_child kids c.4 dk (λ e. ground arith) in
      let child = head-links bs y 0 (bs y).first_child kids c.4 in ground (arith, links y)
  prune-IsForest up q h (node y kids (node z zs zr)) c d ne = elim (Bool-cases (y == x)) [
    | inl here ↦
        let (dk, dr, apart) = Distinct-append (ids kids) (ids (node z zs zr)) d.1 in
        let (ds, dz, apart') = Distinct-append (ids zs) (ids zr) dr.1 in
        let out = has-append x (ids kids) (ids (node z zs zr)) in
        let out' = has-append x (ids zs) (ids zr) in
        let child = head-mem bs z 0 (bs z).first_child zs c.5.4 in
        let sib = head-mem bs up z (bs z).next_sib zr c.5.5 in
        let down = prune-IsForest z 0 (bs z).first_child zs c.5.4 ds (λ e. ground arith) in
        let along = prune-IsForest up z (bs z).next_sib zr c.5.5 dz (λ e. ground arith) in
        let same = prune-absent x zs in let same' = prune-absent x zr in ground (arith, links z)
    | inr other ↦
        let (dk, dr, apart) = Distinct-append (ids kids) (ids (node z zs zr)) d.1 in
        let child = head-links bs y 0 (bs y).first_child kids c.4 in
        let down = prune-IsForest y 0 (bs y).first_child kids c.4 dk (λ e. ground arith) in
        let along = prune-IsForest up y (bs y).next_sib (node z zs zr) c.5 dr (λ e. ground arith) in
        ground (arith, links y)
  ]

module _ (bs : ℕ → BigAlloc) (x : ℕ) where
  -- the records as unlink_child changes them, step by step
  abbrev off_parent : ℕ → BigAlloc
  off_parent =
      let parent = (bs x).parent in
      if x == (bs parent).first_child then set_first_child bs parent (bs x).next_sib else bs

  abbrev off_prev : ℕ → BigAlloc
  off_prev =
      let prev = (off_parent x).prev_sib in
      if prev == 0 then off_parent else set_next_sib off_parent prev (off_parent x).next_sib

  abbrev off_next : ℕ → BigAlloc
  off_next =
      let next = (off_prev x).next_sib in
      if next == 0 then off_prev else set_prev_sib off_prev next (off_prev x).prev_sib

  abbrev unhooked : ℕ → BigAlloc
  unhooked = set_parent (set_next_sib (set_prev_sib off_next x 0) x 0) x 0

  off_parent_self :
      ((off_parent x).prev_sib ≡ (bs x).prev_sib) × ((off_parent x).next_sib ≡ (bs x).next_sib)
  off_parent_self = ground arith

module _ (bs : ℕ → BigAlloc) (x : ℕ) where
  off_prev_self :
      ((off_prev bs x x).prev_sib ≡ (bs x).prev_sib)
      × ((off_prev bs x x).next_sib ≡ (bs x).next_sib)
  off_prev_self = ground (arith, off_parent_self bs x)

  unhooked-Unhooked : (j : ℕ) → j ≢ x → Unhooked bs x (unhooked bs x) j
  unhooked-Unhooked j ne = ground (arith, off_parent_self bs x)

  unhooked-range :
      (j : ℕ) → ((unhooked bs x j).begin ≡ (bs j).begin) × ((unhooked bs x j).end ≡ (bs j).end)
  unhooked-range j = ground arith

  unlink_child-unhooked :
      (debug : Bool)
      → (bs x).parent ≢ 0
      → (if (bs (bs x).parent).first_child == x then (bs x).prev_sib ≡ 0 else ((bs x).prev_sib ≢ 0))
      → unlink_child debug bs x ≡ some (unhooked bs x)
  unfolding unlink_child
  unlink_child-unhooked debug nz first =
      require-true (not ((bs x).parent == 0)) _ (ground arith)
      ∙ require-true
          (not debug
            || (if x == (bs (bs x).parent).first_child
                then (off_parent bs x x).prev_sib == 0
                else not ((off_parent bs x x).prev_sib == 0)))
          _ (ground arith)

-- In the list of trees that starts at the record `h` without a parent, unlink_child on a record that
-- has a parent passes its assertions, takes its tree out and changes nothing else in the list, clears
-- the record's own links, and keeps every record's range.
pub unlink_child-prune :
    (debug : Bool) (bs : ℕ → BigAlloc) (x h : ℕ) (f : Forest)
    → IsForest bs 0 0 h f
    → Distinct (ids f)
    → x ∈ ids f
    → (bs x).parent ≢ 0
    → (bs' : ℕ → BigAlloc) × (unlink_child debug bs x ≡ some bs')
      × IsForest bs' 0 0 h (prune x f)
      × ((bs' x).parent ≡ 0)
      × ((bs' x).next_sib ≡ 0)
      × ((bs' x).prev_sib ≡ 0)
      × ((j : ℕ) → ((bs' j).begin ≡ (bs j).begin) × ((bs' j).end ≡ (bs j).end))
unlink_child-prune debug bs x h f c d m up =
    let first = first-prev bs x 0 0 h f c m in
    let top = head-links bs 0 0 h f c in
    let nz : x ≢ 0 = λ e. ground (arith, IsForest-nonzero bs 0 0 h f c) in
    let after = next-prev bs x 0 0 h f c m in
    let before = prev-next bs x 0 0 h f c m in
    let head_kept : (if h == x then (bs x).next_sib else h) ≡ h = ground arith in
    let pruned =
      prune-IsForest bs (unhooked bs x) x nz (unhooked-Unhooked bs x) (λ n. ground arith)
        (λ n. ground arith) 0 0 h f c d (λ e. ground arith) in
    (
      unhooked bs x,
      unlink_child-unhooked bs x debug up (ground arith),
      subst (λ k. IsForest (unhooked bs x) 0 0 k (prune x f)) head_kept pruned,
      ground arith,
      ground arith,
      ground arith,
      λ j. unhooked-range bs x j,
    )
