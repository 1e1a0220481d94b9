-- ===== src/Pageindex/Link/Graft.antt =====
-- The links that add_child of src/pageindex.c stores, as an operation on the tree that the links form.
use liballocs.Common.{
  ℕ, ◌≡◌, ◌≢◌, ◌⊎◌, inl, inr, refl, ◌∙◌, Bool, not, ◌&&◌, ◌||◌, List, [], ◌∷◌, ◌++◌, some, arith,
  ◌∈◌, ◌∉◌, Distinct, ◌==◌, if◌then◌else◌, has-append, require-true, Bool-cases,
}
use liballocs.Pageindex.State.{BigAlloc}
use liballocs.Pageindex.Forest.{Forest, leaf, node, ids, IsForest, IsForest-frame}
use liballocs.Pageindex.Link.{link_child, set_parent, set_first_child, set_next_sib, set_prev_sib}

-- the forest with `x` and its children `own` as the first child of `p`
abbrev pub graft : (p x : ℕ) → Forest → Forest → Forest
graft p x own leaf = leaf
graft p x own (node y kids rest) =
    let kids' = graft p x own kids in
    let rest' = graft p x own rest in
    if y == p then node y (node x own kids) rest else node y kids' rest'

-- the first child of a record of a forest is in the forest, but not its first record
first_child-mem :
    (bs : ℕ → BigAlloc) (up q h p : ℕ) (f : Forest)
    → IsForest bs up q h f
    → p ∈ ids f
    → ((bs p).first_child ≡ 0) ⊎ ((bs p).first_child ∈ ids f)
first_child-mem bs up q h p leaf c m = ground arith
first_child-mem bs up q h p (node y leaf rest) c m =
    ground (arith, first_child-mem bs up y (bs y).next_sib p rest c.5)
first_child-mem bs up q h p (node y (node z zs zr) rest) c m =
    let a = has-append (bs p).first_child (ids (node z zs zr)) (ids rest) in
    let b = has-append p (ids (node z zs zr)) (ids rest) in
    ground (
      arith,
      first_child-mem bs up y (bs y).next_sib p rest c.5,
      first_child-mem bs y 0 (bs y).first_child p (node z zs zr) c.4,
    )

module _ (bs : ℕ → BigAlloc) (x p : ℕ) where
  -- the records as link_child changes them, step by step
  abbrev first_of : ℕ
  first_of = (set_parent bs x p p).first_child

  abbrev hooked : ℕ → BigAlloc
  hooked = set_next_sib (set_first_child (set_parent bs x p) p x) x first_of

  abbrev grafted : ℕ → BigAlloc
  grafted = if first_of == 0 then hooked else set_prev_sib hooked first_of x

-- what link_child does to a record other than `x`
abbrev Relinked : (bs bs' : ℕ → BigAlloc) (x p j : ℕ) → Type 0
Relinked bs bs' x p j =
    let first = (bs p).first_child in
    ((bs' j).next_sib ≡ (bs j).next_sib)
    × ((bs' j).parent ≡ (bs j).parent)
    × ((bs' j).first_child ≡ (if j == p then x else (bs j).first_child))
    × ((bs' j).prev_sib ≡ (if not (first == 0) && (j == first) then x else (bs j).prev_sib))

-- what it does to `x`
abbrev Adopted : (bs bs' : ℕ → BigAlloc) (x p : ℕ) → Type 0
Adopted bs bs' x p =
    ((bs' x).next_sib ≡ (bs p).first_child)
    × ((bs' x).parent ≡ p)
    × ((bs' x).first_child ≡ (bs x).first_child)
    × ((bs' x).prev_sib ≡ (bs x).prev_sib)

grafted-Relinked :
    (bs : ℕ → BigAlloc) (x p j : ℕ)
    → j ≢ x
    → x ≢ p
    → (bs p).first_child ≢ x
    → Relinked bs (grafted bs x p) x p j
grafted-Relinked bs x p j n1 n2 n3 = ground arith

grafted-Adopted :
    (bs : ℕ → BigAlloc) (x p : ℕ) → x ≢ p → (bs p).first_child ≢ x → Adopted bs (grafted bs x p) x p
grafted-Adopted bs x p n2 n3 = ground arith

pub IsForest-nonzero :
    (bs : ℕ → BigAlloc) (up q h : ℕ) (f : Forest) → IsForest bs up q h f → 0 ∉ ids f
IsForest-nonzero bs up q h leaf c = refl
IsForest-nonzero bs up q h (node y kids rest) c = ground (
  arith,
  has-append 0 (ids kids) (ids rest),
  IsForest-nonzero bs y 0 (bs y).first_child kids c.4,
  IsForest-nonzero bs up y (bs y).next_sib rest c.5,
)

pub head-mem :
    (bs : ℕ → BigAlloc) (up q h : ℕ) (f : Forest) → IsForest bs up q h f → (h ≡ 0) ⊎ (h ∈ ids f)
head-mem bs up q h leaf c = inl c
head-mem bs up q h (node y kids rest) c = ground arith

pub Distinct-append :
    (xs ys : List ℕ) → Distinct (xs ++ ys) → Distinct xs × Distinct ys × ((j : ℕ) → j ∈ xs → j ∉ ys)
Distinct-append [] ys d = (tt, d, λ j m. ground arith)
Distinct-append (x ∷ xs) ys d =
    let (l, r, apart) = Distinct-append xs ys d.1 in
    (ground (arith, has-append x xs ys), r, λ j m. ground (arith, apart j, has-append x xs ys))

module _ (bs bs' : ℕ → BigAlloc) (x p : ℕ) (own : Forest) where
  -- the children of `p` after the new one
  rehead :
      (up q h : ℕ) (f : Forest)
      → IsForest bs up q h f
      → h ≡ (bs p).first_child
      → Distinct (ids f)
      → p ∉ ids f
      → ((j : ℕ) → j ∈ ids f → Relinked bs bs' x p j)
      → IsForest bs' up x h f
  rehead up q h leaf c e d out links = c
  rehead up q h (node y kids rest) c e d out links =
      let (dk, dr, apart) = Distinct-append (ids kids) (ids rest) d.1 in
      let down = IsForest-frame bs bs' y 0 (bs y).first_child kids c.4 (λ j m.
        ground (
          arith,
          links j,
          has-append j (ids kids) (ids rest),
          has-append p (ids kids) (ids rest),
        )) in
      let along = IsForest-frame bs bs' up y (bs y).next_sib rest c.5 (λ j m.
        ground (
          arith,
          links j,
          has-append j (ids kids) (ids rest),
          has-append p (ids kids) (ids rest),
        )) in
      ground (arith, links y, has-append p (ids kids) (ids rest))

  graft-IsForest :
      (up q h : ℕ) (f : Forest)
      → IsForest bs up q h f
      → Distinct (ids f)
      → (p ∈ ids f) ⊎ ((p ∉ ids f) × ((bs p).first_child ∉ ids f))
      → ((j : ℕ) → j ∈ ids f → Relinked bs bs' x p j)
      → x ≢ 0
      → Adopted bs bs' x p
      → (bs x).prev_sib ≡ 0
      → IsForest bs' x 0 (bs x).first_child own
      → IsForest bs' up q h (graft p x own f)
  graft-IsForest up q h leaf c d at links nz self alone mine = c
  graft-IsForest up q h (node y kids rest) c d at links nz self alone mine =
      let (dk, dr, apart) = Distinct-append (ids kids) (ids rest) d.1 in
      let in_p = has-append p (ids kids) (ids rest) in
      let in_first = has-append (bs p).first_child (ids kids) (ids rest) in
      let apart_p = apart p in
      let apart_first = apart (bs p).first_child in
      let no_kid = IsForest-nonzero bs y 0 (bs y).first_child kids c.4 in
      let no_rest = IsForest-nonzero bs up y (bs y).next_sib rest c.5 in
      let below = first_child-mem bs y 0 (bs y).first_child p kids c.4 in
      let after = first_child-mem bs up y (bs y).next_sib p rest c.5 in
      let head = head-mem bs y 0 (bs y).first_child kids c.4 in
      let lk = λ (j : ℕ) (m : j ∈ ids kids).
        links j (ground (arith, has-append j (ids kids) (ids rest))) in
      let lr = λ (j : ℕ) (m : j ∈ ids rest).
        links j (ground (arith, has-append j (ids kids) (ids rest))) in
      elim (Bool-cases (y == p)) [
        | inl here ↦
            let others =
              rehead y 0 (bs y).first_child kids c.4 (ground arith) dk (ground arith) lk in
            let along =
              IsForest-frame bs bs' up y (bs y).next_sib rest c.5 (λ j m. ground (arith, lr j m)) in
            ground (arith, links y)
        | inr other ↦
            let down =
              graft-IsForest y 0 (bs y).first_child kids c.4 dk (ground arith) lk nz self alone
                mine in
            let along =
              graft-IsForest up y (bs y).next_sib rest c.5 dr (ground arith) lr nz self alone
                mine in
            ground (arith, links y)
      ]

-- a first child has no previous sibling
first_child-prev :
    (bs : ℕ → BigAlloc) (up q h p : ℕ) (f : Forest)
    → IsForest bs up q h f
    → p ∈ ids f
    → (bs p).first_child ≢ 0
    → (bs (bs p).first_child).prev_sib ≡ 0
first_child-prev bs up q h p leaf c m nz = ground arith
first_child-prev bs up q h p (node y leaf rest) c m nz =
    ground (arith, first_child-prev bs up y (bs y).next_sib p rest c.5)
first_child-prev bs up q h p (node y (node z zs zr) rest) c m nz =
    let in_p = has-append p (ids (node z zs zr)) (ids rest) in
    ground (
      arith,
      first_child-prev bs up y (bs y).next_sib p rest c.5,
      first_child-prev bs y 0 (bs y).first_child p (node z zs zr) c.4,
    )

grafted-range :
    (bs : ℕ → BigAlloc) (x p j : ℕ)
    → ((grafted bs x p j).begin ≡ (bs j).begin)
      × ((grafted bs x p j).end ≡ (bs j).end)
      × ((grafted bs x p j).allocated_by ≡ (bs j).allocated_by)
grafted-range bs x p j = ground arith

-- the assertions on links
module _ (debug : Bool) (bs : ℕ → BigAlloc) (x p : ℕ) where
  link_child-grafted :
      (bs x).parent ≡ 0
      → (bs x).next_sib ≡ 0
      → (bs x).prev_sib ≡ 0
      → x ≢ p
      → (bs p).first_child ≢ x
      → ((bs p).first_child ≢ 0 → (bs (bs p).first_child).prev_sib ≡ 0)
      → link_child debug bs x p ≡ some (grafted bs x p)
  unfolding link_child
  link_child-grafted p0 n0 v0 ne nf fresh =
      require-true (not debug || (bs x).parent == 0) _ (ground arith)
      ∙ require-true (not debug || (set_first_child (set_parent bs x p) p x x).next_sib == 0) _
          (ground arith)
      ∙ require-true
          (not debug || (first_of bs x p == 0) || (hooked bs x p (first_of bs x p)).prev_sib == 0) _
          (ground arith)
      ∙ require-true (not debug || (grafted bs x p x).prev_sib == 0) _ (ground arith)

-- In a forest without `x`, whose own links are cleared, link_child passes its assertions, and makes `x`
-- with its descendants `own` the first child of `p`, where the forest has `p`, and changes nothing
-- else in it; no record's range or allocator changes.
pub link_child-graft :
    (debug : Bool) (bs : ℕ → BigAlloc) (x p up q h : ℕ) (f own : Forest)
    → IsForest bs up q h f
    → IsForest bs x 0 (bs x).first_child own
    → Distinct ((x ∷ ids own) ++ ids f)
    → p ∈ ids f
    → x ≢ 0
    → (bs x).parent ≡ 0
    → (bs x).next_sib ≡ 0
    → (bs x).prev_sib ≡ 0
    → (bs' : ℕ → BigAlloc) × (link_child debug bs x p ≡ some bs')
      × IsForest bs' up q h (graft p x own f)
      × ((bs' x).parent ≡ p)
      × ((j : ℕ)
          → ((bs' j).begin ≡ (bs j).begin)
            × ((bs' j).end ≡ (bs j).end)
            × ((bs' j).allocated_by ≡ (bs j).allocated_by))
unfolding link_child
link_child-graft debug bs x p up q h f own c mine d m nz p0 n0 v0 =
    let (dx, df, apart) = Distinct-append (x ∷ ids own) (ids f) d in
    let at = first_child-mem bs up q h p f c m in
    let fresh = first_child-prev bs up q h p f c m in
    let no_zero = IsForest-nonzero bs up q h f c in
    let out = apart x (ground arith) in
    let ne : x ≢ p = λ e. ground arith in
    let nf : (bs p).first_child ≢ x = λ e. ground arith in
    let own' =
      IsForest-frame bs (grafted bs x p) x 0 (bs x).first_child own mine
        (λ j mj. ground (arith, grafted-Relinked bs x p j, apart j)) in
    (
      grafted bs x p,
      link_child-grafted debug bs x p p0 n0 v0 ne nf fresh,
      graft-IsForest bs (grafted bs x p) x p own up q h f c df (inl m)
          (λ j mj. grafted-Relinked bs x p j (λ e. ground arith) ne nf) nz
          (grafted-Adopted bs x p ne nf) v0 own',
      (grafted-Adopted bs x p ne nf).1,
      λ j. grafted-range bs x p j,
    )
