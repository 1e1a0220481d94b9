-- ===== src/Subobject/Walk/Members.antt =====
-- The forward scan of __liballocs_walk_subobjects_spanning_rec over the members at one offset.
use liballocs.Common.{
  ℕ, zero, suc, ◌+◌, ◌-◌, ◌≤◌, ◌<◌, ◌≡◌, inl, inr, refl, sym, subst, true, false, Option, some,
  List, ◌∷◌, ◌++◌, arith, ◌==◌, Bool-cases, ==_iff,
}
use liballocs.Subobject.{Uniqtype, Visit, add32, walk_members}
use liballocs.Subobject.Bisect.{Ascending, IsBest}
use liballocs.Subobject.First.{}
use liballocs.Subobject.Match.{}
use liballocs.Subobject.Walk.{
  is_best, best_members, visit_at, call_each, call_each-append, best-true, skip,
}

-- The scan over the members against the list of subobjects.
module _ {A : Type 0} (types : ℕ → Uniqtype) (cb : Visit → A → ℕ × A)
    (walk : (accum_offset accum_depth target u : ℕ) → A → Option (ℕ × A))
    (accum_offset accum_depth target u : ℕ) (below : ℕ → List Visit) where
  abbrev pub member_visit : ℕ → Visit
  member_visit i = visit_at types accum_offset accum_depth u ((types u).off i) i ((types u).memb i)

  abbrev pub from_member : (left i : ℕ) → List Visit
  from_member = best_members (types u).off (types u).member_count target member_visit below

  -- one round, on a member at the offset
  pub walk_round :
      (left i : ℕ) (a : A)
      → target < (types u).pos_maxoff
      → ((a' : A)
          → walk
              (add32 accum_offset ((types u).off i))
              (add32 accum_depth 1)
              (target - (types u).off i)
              ((types u).memb i)
              a'
            ≡ some (call_each cb (below i) a'))
      → ((a' : A)
          → walk_members types cb walk accum_offset accum_depth target u
              ((types u).off i)
              left
              (i + 1)
              a'
            ≡ some (call_each cb (from_member left (i + 1)) a'))
      → walk_members types cb walk accum_offset accum_depth target u
          ((types u).off i)
          (suc left)
          i
          a
        ≡ some (call_each cb (member_visit i ∷ (below i ++ from_member left (i + 1))) a)
  unfolding walk_members
  walk_round left i a inside sub rest = elim (Bool-cases ((cb (member_visit i) a).0 == 0)) [
    | inr stop ↦ ground arith
    | inl go_on ↦
        let a1 = (cb (member_visit i) a).1 in
        elim (Bool-cases ((call_each cb (below i) a1).0 == 0)) [
          | inl more ↦ ground (
            arith,
            sub a1,
            rest (call_each cb (below i) a1).1,
            call_each-append cb (below i) (from_member left (i + 1)) a1,
          )
          | inr stop ↦
              ground (arith, sub a1, call_each-append cb (below i) (from_member left (i + 1)) a1)
        ]
  ]

  module _ (o : ℕ) (up : Ascending (types u).off (types u).member_count)
      (best : IsBest (types u).off (types u).member_count target o) where
    pub walk_best :
        (left i : ℕ) (a : A)
        → i + left ≡ (types u).member_count
        → ((j : ℕ) → i ≤ j → j < (types u).member_count → o ≤ (types u).off j)
        → target < (types u).pos_maxoff
        → ((j : ℕ) (a' : A)
            → j < (types u).member_count
            → walk
                (add32 accum_offset ((types u).off j))
                (add32 accum_depth 1)
                (target - (types u).off j)
                ((types u).memb j)
                a'
              ≡ some (call_each cb (below j) a'))
        → walk_members types cb walk accum_offset accum_depth target u o left i a
          ≡ some (call_each cb (from_member left i) a)
    unfolding walk_members
    walk_best zero i a all above inside sub = refl
    walk_best (suc left) i a all above inside sub =
        let off = (types u).off in
        let n = (types u).member_count in
        elim (Bool-cases (off i == o)) [
          | inl same ↦
              let e : off i ≡ o = (==_iff (off i) o).0 same in
              let here : is_best off n target i ≡ true =
                best-true off n target i (subst (λ x. IsBest off n target x) (sym e) best) in
              let rest = λ (a' : A).
                (subst
                  (λ x.
                    walk_members types cb walk accum_offset accum_depth target u x left (i + 1) a'
                    ≡ some (call_each cb (from_member left (i + 1)) a'))
                  (sym e)
                  (walk_best left (i + 1) a' (omega arith) (λ j b c. above j (omega arith) c) inside
                    sub)) in
              let round = walk_round left i a inside (λ a'. sub i a' (omega arith)) rest in
              subst
                (λ x.
                  walk_members types cb walk accum_offset accum_depth target u x (suc left) i a
                  ≡ some (call_each cb (from_member (suc left) i) a))
                e (rw here round)
          | inr other ↦
              let past =
                skip off n target member_visit below (suc left) i
                  (λ j b c. beyond i j (ground (arith, above i)) b (omega arith)) in
              rw past (ground arith)
        ]
      where
        beyond :
            (i j : ℕ)
            → o < (types u).off i
            → i ≤ j
            → j < (types u).member_count
            → is_best (types u).off (types u).member_count target j ≡ false
        beyond i j more le less = ground (arith, up i j, best.1 j)
