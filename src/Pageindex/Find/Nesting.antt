-- ===== src/Pageindex/Find/Nesting.antt =====
-- What the searches find in a tree where siblings are disjoint and children lie within their parents.
use liballocs.Common.{
  ℕ, zero, suc, ◌≤◌, ◌<◌, ◌≡◌, ◌⊎◌, inl, inr, refl, Bool, true, false, List, [], ◌∷◌, ◌++◌, some,
  arith, ◌∈◌, Distinct, Bool-cases, has-append, last_or,
}
use liballocs.Pageindex.State.{BigAlloc, spans}
use liballocs.Pageindex.Forest.{
  Forest, leaf, node, ids, size, IsForest, path, Within, Apart, Nested,
}
use liballocs.Pageindex.Find.{is_match, leaf_from}
use liballocs.Pageindex.Find.Laws.{first_match, last_spanning, last_child_spanning-eq}

Distinct-append_left : (xs ys : List ℕ) → Distinct (xs ++ ys) → Distinct xs
Distinct-append_left [] ys d = tt
Distinct-append_left (x ∷ xs) ys d =
    ground (arith, has-append x xs ys, Distinct-append_left xs ys d.1)

Distinct-append_right : (xs ys : List ℕ) → Distinct (xs ++ ys) → Distinct ys
Distinct-append_right [] ys d = d
Distinct-append_right (x ∷ xs) ys d = Distinct-append_right xs ys d.1

module _ (bs : ℕ → BigAlloc) (addr : ℕ) where
  Apart-path :
      (a b cur : ℕ) (f : Forest)
      → Apart bs a b f
      → a ≤ addr
      → addr < b
      → (path bs addr f ≡ []) × (last_spanning bs addr cur f ≡ cur)
  Apart-path a b cur leaf out lo hi = (refl, refl)
  Apart-path a b cur (node x kids rest) out lo hi =
      ground (arith, Apart-path a b cur rest out.1 lo hi)

  -- Either no record at the top spans the address, or one does, and its children are the next tree to
  -- search.
  abbrev Descends : (cur : ℕ) → Forest → Type 0
  Descends cur f =
      ((path bs addr f ≡ []) × (last_spanning bs addr cur f ≡ cur))
      ⊎ ((y : ℕ) × (kids : Forest) × (path bs addr f ≡ y ∷ path bs addr kids)
          × (last_spanning bs addr cur f ≡ y)
          × (y ∈ ids f)
          × IsForest bs y 0 (bs y).first_child kids
          × Nested bs kids
          × Distinct (y ∷ ids kids)
          × size kids < size f)

  pub path-mem : (cur : ℕ) (f : Forest) → last_or cur (path bs addr f) ∈ (cur ∷ ids f)
  path-mem cur leaf = ground arith
  path-mem cur (node x kids rest) =
      let m = last_or x (path bs addr kids) in
      let r = last_or cur (path bs addr rest) in
      ground (
        arith,
        path-mem x kids,
        path-mem cur rest,
        has-append m (ids kids) (ids rest),
        has-append r (ids kids) (ids rest),
      )

  descend :
      (cur up q h : ℕ) (f : Forest)
      → IsForest bs up q h f
      → Nested bs f
      → Distinct (ids f)
      → Descends cur f
  descend cur up q h leaf c n d = inl (refl, refl)
  descend cur up q h (node x kids rest) c n d = elim (Bool-cases (spans (bs x) addr)) [
    | inl hit ↦
        let none_after =
          Apart-path (bs x).begin (bs x).end x rest n.1 (ground arith) (ground arith) in
        inr (
          x,
          kids,
          ground arith,
          ground arith,
          ground arith,
          ground arith,
          n.2,
          ground (
            arith,
            has-append x (ids kids) (ids rest),
            Distinct-append_left (ids kids) (ids rest),
          ),
          omega arith,
        )
    | inr miss ↦
        elim (descend cur up x (bs x).next_sib rest c.5 n.3
          (Distinct-append_right (ids kids) (ids rest) d.1)) [
            | inl (e, l) ↦ inl (ground arith, ground arith)
            | inr (y, ks, e, l, m, c', n', d', s) ↦ inr (
              y,
              ks,
              ground arith,
              ground arith,
              ground (arith, has-append y (ids kids) (ids rest)),
              c',
              n',
              d',
              omega arith,
            )
          ]
  ]

  pub leaf_from-path :
      (k cur : ℕ) (f : Forest)
      → IsForest bs cur 0 (bs cur).first_child f
      → Nested bs f
      → Distinct (cur ∷ ids f)
      → size f < k
      → leaf_from bs addr k cur ≡ some (last_or cur (path bs addr f))
  unfolding leaf_from
  leaf_from-path zero cur f c n d fuel = ground arith
  leaf_from-path (suc k) cur f c n d fuel =
      let scan = last_child_spanning-eq bs addr (suc k) cur cur 0 (bs cur).first_child f c fuel in
      elim (descend cur cur 0 (bs cur).first_child f c n d.1) [
        | inl (e, l) ↦ ground arith
        | inr (y, kids, e, l, m, c', n', d', s) ↦
            let deeper = leaf_from-path k y kids c' n' d' (omega arith) in ground (arith, deeper)
      ]

-- Records below a range stay in it, and records below records apart from a range stay apart from it.
module _ (bs : ℕ → BigAlloc) where
  pub below-Within :
      (a b x : ℕ) (f : Forest)
      → Within bs a b f
      → Nested bs f
      → x ∈ ids f
      → (a ≤ (bs x).begin) × ((bs x).end ≤ b)
  below-Within a b x leaf w n m = ground arith
  below-Within a b x (node y kids rest) w n m = ground (
    arith,
    below-Within (bs y).begin (bs y).end x kids n.0 n.2,
    below-Within a b x rest w.2 n.3,
    has-append x (ids kids) (ids rest),
  )

  pub below-Apart :
      (a b x : ℕ) (f : Forest)
      → Apart bs a b f
      → Nested bs f
      → x ∈ ids f
      → ((bs x).end ≤ a) ⊎ (b ≤ (bs x).begin)
  below-Apart a b x leaf w n m = ground arith
  below-Apart a b x (node y kids rest) w n m = ground (
    arith,
    below-Within (bs y).begin (bs y).end x kids n.0 n.2,
    below-Apart a b x rest w.1 n.3,
    has-append x (ids kids) (ids rest),
  )

module _ (bs : ℕ → BigAlloc) (addr : ℕ) where
  -- `outer` holds the range of `inner`
  abbrev pub Holds : (outer inner : ℕ) → Type 0
  Holds outer inner = ((bs outer).begin ≤ (bs inner).begin) × ((bs inner).end ≤ (bs outer).end)

  -- `d` spans the address, and so tightly that each record of the list that spans it holds `d`
  abbrev pub Tightest : (d : ℕ) → List ℕ → Type 0
  Tightest d xs =
      (spans (bs d) addr ≡ true) × ((x : ℕ) → x ∈ xs → spans (bs x) addr ≡ true → Holds x d)

  pub path-Tightest :
      (cur : ℕ) (f : Forest)
      → Within bs (bs cur).begin (bs cur).end f
      → Nested bs f
      → spans (bs cur) addr ≡ true
      → Tightest (last_or cur (path bs addr f)) (ids f) × Holds cur (last_or cur (path bs addr f))
  path-Tightest cur leaf w n s = ((s, λ x m. ground arith), ground arith)
  path-Tightest cur (node x kids rest) w n s = elim (Bool-cases (spans (bs x) addr)) [
    | inl hit ↦
        let ((sd, tight), held) = path-Tightest x kids n.0 n.2 hit in
        (
          (
            ground arith,
            λ y m sy. ground (
              arith,
              tight y,
              below-Apart bs (bs x).begin (bs x).end y rest n.1 n.3,
              has-append y (ids kids) (ids rest),
            ),
          ),
          ground arith,
        )
    | inr miss ↦
        let ((sd, tight), held) = path-Tightest cur rest w.2 n.3 s in
        (
          (
            ground arith,
            λ y m sy. ground (
              arith,
              tight y,
              below-Within bs (bs x).begin (bs x).end y kids n.0 n.2,
              has-append y (ids kids) (ids rest),
            ),
          ),
          ground arith,
        )
  ]

  -- `r` is the outermost record of `f` that spans the address and matches, or 0 when there is none
  abbrev pub Outermost : (a : ℕ) → Bool → (r : ℕ) → List ℕ → Type 0
  Outermost a sub r xs =
      ((r ≡ 0) × ((x : ℕ) → x ∈ xs → spans (bs x) addr ≡ true → is_match bs a sub x ≡ false))
      ⊎ ((r ∈ xs)
          × (spans (bs r) addr ≡ true)
          × (is_match bs a sub r ≡ true)
          × ((x : ℕ) → x ∈ xs → spans (bs x) addr ≡ true → is_match bs a sub x ≡ true → Holds r x))

  pub path-Outermost :
      (a : ℕ) (sub : Bool) (f : Forest)
      → Nested bs f
      → Outermost a sub (first_match bs addr a sub (path bs addr f)) (ids f)
  path-Outermost a sub leaf n = inl (refl, λ x m. ground arith)
  path-Outermost a sub (node x kids rest) n = elim (Bool-cases (spans (bs x) addr)) [
    | inl hit ↦ elim (Bool-cases (is_match bs a sub x)) [
      | inl fits ↦ inr (
        ground arith,
        ground arith,
        ground arith,
        λ y m sy my. ground (
          arith,
          below-Apart bs (bs x).begin (bs x).end y rest n.1 n.3,
          below-Within bs (bs x).begin (bs x).end y kids n.0 n.2,
          has-append y (ids kids) (ids rest),
        ),
      )
      | inr other ↦ elim (path-Outermost a sub kids n.2) [
        | inl (e, none_there) ↦ inl (
          ground arith,
          λ y m sy. ground (
            arith,
            none_there y,
            below-Apart bs (bs x).begin (bs x).end y rest n.1 n.3,
            has-append y (ids kids) (ids rest),
          ),
        )
        | inr (m, s, i, outer) ↦ inr (
          ground (
            arith,
            has-append (first_match bs addr a sub (path bs addr kids)) (ids kids) (ids rest),
          ),
          ground arith,
          ground arith,
          λ y m sy my. ground (
            arith,
            outer y,
            below-Apart bs (bs x).begin (bs x).end y rest n.1 n.3,
            has-append y (ids kids) (ids rest),
          ),
        )
      ]
    ]
    | inr miss ↦ elim (path-Outermost a sub rest n.3) [
      | inl (e, none_there) ↦ inl (
        ground arith,
        λ y m sy. ground (
          arith,
          none_there y,
          below-Within bs (bs x).begin (bs x).end y kids n.0 n.2,
          has-append y (ids kids) (ids rest),
        ),
      )
      | inr (m, s, i, outer) ↦ inr (
        ground (
          arith,
          has-append (first_match bs addr a sub (path bs addr rest)) (ids kids) (ids rest),
        ),
        ground arith,
        ground arith,
        λ y m sy my. ground (
          arith,
          outer y,
          below-Within bs (bs x).begin (bs x).end y kids n.0 n.2,
          has-append y (ids kids) (ids rest),
        ),
      )
    ]
  ]
