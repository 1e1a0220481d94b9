-- ===== src/Pageindex/Forest.antt =====
-- The trees that the records' links form, as a ghost structure: a list of siblings, each with its
-- number and its children.
use liballocs.Common.{
  ℕ, ◌+◌, ◌≤◌, ◌≡◌, ◌≢◌, ◌⊎◌, List, [], ◌∷◌, ◌++◌, arith, ◌∈◌, if◌then◌else◌, has-append,
}
use liballocs.Pageindex.State.{BigAlloc, spans}

pub data Forest : Type 0 where
  leaf : Forest
  node : ℕ → Forest → Forest → Forest

abbrev pub ids : Forest → List ℕ
ids leaf = []
ids (node x kids rest) = x ∷ (ids kids ++ ids rest)

abbrev pub size : Forest → ℕ
size leaf = 0
size (node x kids rest) = 1 + size kids + size rest

module _ (bs : ℕ → BigAlloc) where
  -- From `h`, whose previous sibling is `q`, the links of `bs` form this forest under `up`.
  abbrev pub IsForest : (up q h : ℕ) → Forest → Type 0
  IsForest up q h leaf = h ≡ 0
  IsForest up q h (node x kids rest) =
      (h ≡ x)
      × (x ≢ 0)
      × ((bs x).prev_sib ≡ q)
      × ((bs x).parent ≡ up)
      × IsForest x 0 (bs x).first_child kids
      × IsForest up x (bs x).next_sib rest

  -- every record of the forest lies in the range from `a` to `b`
  abbrev pub Within : (a b : ℕ) → Forest → Type 0
  Within a b leaf = Unit {0}
  Within a b (node x kids rest) = (a ≤ (bs x).begin) × ((bs x).end ≤ b) × Within a b rest

  -- no record of the forest's top overlaps the range from `a` to `b`
  abbrev pub Apart : (a b : ℕ) → Forest → Type 0
  Apart a b leaf = Unit {0}
  Apart a b (node x kids rest) = ((bs x).end ≤ a ⊎ b ≤ (bs x).begin) × Apart a b rest

  -- siblings are disjoint and children lie within their parents
  abbrev pub Nested : Forest → Type 0
  Nested leaf = Unit {0}
  Nested (node x kids rest) =
      Within (bs x).begin (bs x).end kids
      × Apart (bs x).begin (bs x).end rest
      × Nested kids
      × Nested rest

  -- the records on the way down to an address
  abbrev pub path : ℕ → Forest → List ℕ
  path addr leaf = []
  path addr (node x kids rest) =
      let down = path addr kids in
      let along = path addr rest in if spans (bs x) addr then x ∷ down else along

-- two records with the same links
abbrev pub SameLinks : BigAlloc → BigAlloc → Type 0
SameLinks r r' =
    (r'.first_child ≡ r.first_child)
    × (r'.next_sib ≡ r.next_sib)
    × (r'.parent ≡ r.parent)
    × (r'.prev_sib ≡ r.prev_sib)

-- A forest reads only the links of its own records.
pub IsForest-frame :
    (bs bs' : ℕ → BigAlloc) (up q h : ℕ) (f : Forest)
    → IsForest bs up q h f
    → ((x : ℕ) → x ∈ ids f → SameLinks (bs x) (bs' x))
    → IsForest bs' up q h f
IsForest-frame bs bs' up q h leaf c same = c
IsForest-frame bs bs' up q h (node x kids rest) c same =
    let down =
      IsForest-frame bs bs' x 0 (bs x).first_child kids c.4
        (λ y m. same y (ground (arith, has-append y (ids kids) (ids rest)))) in
    let along =
      IsForest-frame bs bs' up x (bs x).next_sib rest c.5
        (λ y m. same y (ground (arith, has-append y (ids kids) (ids rest)))) in
    ground (arith, same x, down, along)
