-- ===== src/Subobject/Match.antt =====
-- What __liballocs_find_matching_subobject decides, and the loop over the subobjects at one offset.
pub mod Correct
use liballocs.Common.{
  ℕ, zero, suc, ◌+◌, ◌-◌, ◌≤◌, ◌<◌, ◌≡◌, ◌≢◌, ◌⊎◌, inl, inr, refl, Bool, true, false, ◌&&◌, ◌||◌,
  not, Option, none, some, arith, ltb, leb, ◌==◌, ◌>>=◌, Bool-cases, >>=-some, require-true, subst,
  ==_iff, ◌∙◌, sym,
}
use liballocs.Subobject.{
  Uniqtype, Spanning, Found, add32, first_subobject_spanning, try_subobjects,
  find_matching_subobject,
}
use liballocs.Subobject.Bisect.{Ascending}
use liballocs.Subobject.First.{SubAt, IsFirstSub, first_subobject_spanning-IsFirstSub}

-- A table of types: members ascend by their offsets, an array has no members, and a type is of lower
-- rank than those that contain it.
pub record IsSane (types : ℕ → Uniqtype) (rank : ℕ → ℕ) : Type 0 where
  pub ascending : (u : ℕ) → Ascending (types u).off (types u).member_count
  pub no_members : (u : ℕ) → (types u).is_array ≡ true → (types u).member_count ≡ 0
  pub element_below : (u : ℕ) → (types u).is_array ≡ true → rank (types u).element < rank u
  pub memb_below : (u i : ℕ) → i < (types u).member_count → rank ((types u).memb i) < rank u

-- An object of type `u` has, at the target, the beginning of an object of the type `test` (of any type,
-- if that is 0): itself, or one within a subobject that spans the target.
pub data Matches (types : ℕ → Uniqtype) (test : ℕ) : (target u : ℕ) → Type 0 where
  here : {target u : ℕ} → target ≡ 0 → (test ≡ 0) ⊎ (u ≡ test) → Matches types test target u
  inside :
      {target u : ℕ} (i target' u' : ℕ)
      → SubAt types target u i target' u'
      → Matches types test target' u'
      → Matches types test target u

-- the run returns, and answers whether `P` holds
abbrev pub Decides : Type 0 → Option (Bool × Found) → Type 0
Decides P r =
    ((s : Found) × (r ≡ some (true, s)) × P) ⊎ ((s : Found) × (r ≡ some (false, s)) × (P → ⊥))

module _ (types : ℕ → Uniqtype) (test : ℕ) (rec : ℕ → ℕ → Found → Option (Bool × Found))
    (u o : ℕ) where
  -- a member from `pos` on, at its offset, matches
  abbrev pub SomeMember : (pos : ℕ) → Type 0
  SomeMember pos =
      let t = types u in
      (i : ℕ) × (pos ≤ i)
      × (i < t.member_count)
      × (t.off i ≡ t.off pos)
      × Matches types test o (t.memb i)

  last_here :
      (pos : ℕ)
      → Ascending (types u).off (types u).member_count
      → (leb (types u).member_count (pos + 1) || not ((types u).off (pos + 1) == (types u).off pos))
        ≡ true
      → (Matches types test o ((types u).memb pos) → ⊥)
      → SomeMember pos
      → ⊥
  last_here pos up last never (i, le, less, same, m) = elim (Bool-cases (i == pos)) [
    | inl e ↦ never (subst (λ j. Matches types test o ((types u).memb j)) ((==_iff i pos).0 e) m)
    | inr ne ↦ ground (arith, up pos (pos + 1), up (pos + 1) i)
  ]

  later :
      (pos : ℕ)
      → Ascending (types u).off (types u).member_count
      → (Matches types test o ((types u).memb pos) → ⊥)
      → (SomeMember (pos + 1) → ⊥)
      → (types u).off (pos + 1) ≡ (types u).off pos
      → SomeMember pos
      → ⊥
  later pos up never none_there eq (i, le, less, same, m) = elim (Bool-cases (i == pos)) [
    | inl e ↦ never (subst (λ j. Matches types test o ((types u).memb j)) ((==_iff i pos).0 e) m)
    | inr ne ↦ none_there (i, ground arith, less, ground arith, m)
  ]

  -- one round of the loop, by the answer of the recursive call
  pub try_matched :
      (k pos v : ℕ) (s s1 : Found)
      → rec o v s ≡ some (true, s1)
      → try_subobjects types rec u o (suc k) pos v s
        ≡ some (true, record s1 { containing = some (u, pos) })
  unfolding try_subobjects
  try_matched k pos v s s1 ran = >>=-some _ ran refl

  pub try_last :
      (k pos v : ℕ) (s s1 : Found)
      → rec o v s ≡ some (false, s1)
      → ((pos == 0) || ltb pos (types u).member_count) ≡ true
      → (leb (types u).member_count (pos + 1) || not ((types u).off (pos + 1) == (types u).off pos))
        ≡ true
      → try_subobjects types rec u o (suc k) pos v s ≡ some (false, s1)
  unfolding try_subobjects
  try_last k pos v s s1 ran sane last = >>=-some _ ran (ground arith)

  try_next :
      (k pos v : ℕ) (s s1 : Found)
      → rec o v s ≡ some (false, s1)
      → ((pos == 0) || ltb pos (types u).member_count) ≡ true
      → (leb (types u).member_count (pos + 1) || not ((types u).off (pos + 1) == (types u).off pos))
        ≡ false
      → try_subobjects types rec u o (suc k) pos v s
        ≡ try_subobjects types rec u o k (pos + 1) ((types u).memb (pos + 1)) s1
  unfolding try_subobjects
  try_next k pos v s s1 ran sane last = >>=-some _ ran (ground arith)

  pub try_members :
      (up : Ascending (types u).off (types u).member_count)
      (decide : (i : ℕ) (s : Found)
        → i < (types u).member_count
        → Decides (Matches types test o ((types u).memb i)) (rec o ((types u).memb i) s))
      (k pos : ℕ) (s : Found)
      → pos < (types u).member_count
      → (types u).member_count < pos + k
      → Decides (SomeMember pos) (try_subobjects types rec u o k pos ((types u).memb pos) s)
  try_members up decide zero pos s less enough = absurd (omega arith)
  try_members up decide (suc k) pos s less enough = elim (decide pos s less) [
    | inl (s1, ran, m) ↦ inl (
      record s1 { containing = some (u, pos) },
      try_matched k pos ((types u).memb pos) s s1 ran,
      (pos, omega arith, less, refl, m),
    )
    | inr (s1, ran, never) ↦
        elim (Bool-cases (
          leb (types u).member_count (pos + 1)
          || not ((types u).off (pos + 1) == (types u).off pos))) [
            | inl last ↦ inr (
              s1,
              try_last k pos ((types u).memb pos) s s1 ran (ground arith) last,
              last_here pos up last never,
            )
            | inr more ↦
                let step = try_next k pos ((types u).memb pos) s s1 ran (ground arith) more in
                elim (try_members up decide k (pos + 1) s1 (ground arith) (omega arith)) [
                  | inl (s2, ran2, (i, le, less2, same, m)) ↦
                      inl (s2, step ∙ ran2, (i, omega arith, less2, ground arith, m))
                  | inr (s2, ran2, none_there) ↦
                      inr (s2, step ∙ ran2, later pos up never none_there (ground arith))
                ]
          ]
  ]

pub Decides-map :
    {P Q : Type 0} (r : Option (Bool × Found)) → (P → Q) → (Q → P) → Decides P r → Decides Q r
Decides-map r f g (inl (s, e, p)) = inl (s, e, f p)
Decides-map r f g (inr (s, e, never)) = inr (s, e, λ q. never (g q))

module _ (types : ℕ → Uniqtype) (test target u : ℕ) where
  -- the test at the start
  abbrev pub is_here : Bool
  is_here = (target == 0) && ((test == 0) || (u == test))

  -- with the test at the start failed, a match is within a subobject
  pub Matches-inside :
      is_here ≡ false
      → Matches types test target u
      → (i : ℕ) × (target' : ℕ) × (u' : ℕ) × SubAt types target u i target' u'
        × Matches types test target' u'
  Matches-inside miss (here z w) = ground arith
  Matches-inside miss (inside i o v sub m) = (i, o, v, sub, m)

  module _ (r : Spanning) (first : IsFirstSub types target u r) (miss : is_here ≡ false) where
    abbrev pub FromFirst : Type 0
    FromFirst =
        (i : ℕ) × (r.cur_contained_pos ≤ i)
        × (i < (types u).member_count)
        × ((types u).off i ≡ (types u).off r.cur_contained_pos)
        × Matches types test r.target_offset ((types u).memb i)

    pub element_only :
        (types u).is_array ≡ true
        → Matches types test target u
        → Matches types test r.target_offset r.cur_obj_uniqtype
    element_only a m =
        let (i, o, v, sub, within) = Matches-inside miss m in
        let eo : o ≡ r.target_offset = ground (arith, first.0, sub) in
        let ev : v ≡ r.cur_obj_uniqtype = ground (arith, first.0, sub) in
        subst (λ x. Matches types test r.target_offset x) ev
          (subst (λ x. Matches types test x v) eo within)

    pub to_member : (types u).is_array ≡ false → Matches types test target u → FromFirst
    to_member c m =
        let (i, o, v, sub, within) = Matches-inside miss m in
        let le = first.1 i o v sub in member_case c i o v le first.0 sub within
      where
        member_case :
            (types u).is_array ≡ false
            → (i o v : ℕ) → r.cur_contained_pos ≤ i
            → SubAt types target u r.cur_contained_pos r.target_offset r.cur_obj_uniqtype
            → SubAt types target u i o v
            → Matches types test o v
            → FromFirst
        member_case c i o v le (inl x) sub1 within = ground arith
        member_case c i o v le (inr x) (inl y) within = ground arith
        member_case c i o v le (inr (_, less, best, eo, ev)) (inr (_, less', best', eo', ev'))
              within =
            let same : (types u).off i ≡ (types u).off r.cur_contained_pos =
              omega (arith, best.1 i less' best'.0, best'.1 r.cur_contained_pos less best.0) in
            let e : o ≡ r.target_offset = ground arith in
            (
              i,
              le,
              less',
              same,
              subst (λ x. Matches types test r.target_offset x) ev'
                  (subst (λ x. Matches types test x v) e within),
            )

    pub of_member : (types u).is_array ≡ false → FromFirst → Matches types test target u
    of_member c (i, le, less, same, m) = elim first.0 [
      | inl x ↦ ground arith
      | inr (_, less0, best, eo, ev) ↦
          inside i r.target_offset ((types u).memb i)
            (inr (c, less, (omega arith, λ j a b. omega (arith, best.1 j a b)), ground arith, refl))
            m
    ]
