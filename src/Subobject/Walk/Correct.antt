-- ===== src/Subobject/Walk/Correct.antt =====
-- __liballocs_walk_subobjects_spanning calls the callback on the subobjects that span the target.
use liballocs.Common.{
  ℕ, zero, suc, ◌+◌, ◌-◌, ◌*◌, ◌/◌, ◌%◌, ◌≤◌, ◌<◌, ◌≡◌, inl, inr, refl, true, false, Option, some,
  List, [], arith, ltb, ◌==◌, Bool-cases, >>=-some,
}
use liballocs.Subobject.{
  Uniqtype, Visit, add32, bisect, lowest, walk_members, walk_composite,
  walk_subobjects_spanning_rec, walk_subobjects_spanning,
}
use liballocs.Subobject.Bisect.{Ascending, lowest-IsFirst, bisect-choice}
use liballocs.Subobject.First.{bisect_empty}
use liballocs.Subobject.Match.{IsSane}
use liballocs.Subobject.Walk.{visit_at, subobjects, call_each, best-false, skip, skip_first}
use liballocs.Subobject.Walk.Members.{walk_best, member_visit, from_member}
use native.Mathlib.Nat.{div-lt_iff_lt-mul}

-- an array has elements of some size, and lies within its own size
pub record IsSized (types : ℕ → Uniqtype) : Type 0 where
  pub element_size : (u : ℕ) → (types u).is_array ≡ true → 0 < (types (types u).element).pos_maxoff
  pub array_size :
      (u : ℕ)
      → (types u).is_array ≡ true
      → (types u).array_length * (types (types u).element).pos_maxoff ≤ (types u).pos_maxoff

module _ {A : Type 0} (types : ℕ → Uniqtype) (cb : Visit → A → ℕ × A)
    (walk : (accum_offset accum_depth target u : ℕ) → A → Option (ℕ × A))
    (accum_offset accum_depth target u : ℕ) (below : ℕ → List Visit) where
  -- the scan over a type that the target is beyond
  walk_outside :
      (o left i : ℕ) (a : A)
      → (types u).pos_maxoff ≤ target
      → walk_members types cb walk accum_offset accum_depth target u o left i a ≡ some (0, a)
  unfolding walk_members
  walk_outside o zero i a out = refl
  walk_outside o (suc left) i a out = ground (arith, walk_outside o left (i + 1) a)

  composite_empty :
      (a : A)
      → (types u).member_count ≡ 0
      → walk_composite types cb walk accum_offset accum_depth target u a ≡ some (0, a)
  unfolding walk_composite
  composite_empty a e =
      >>=-some _ (bisect_empty (types u).off target (types u).member_count e) (ground arith)

  composite_above :
      (l : ℕ) (a : A)
      → bisect (types u).off target (suc (types u).member_count) 0 (types u).member_count
        ≡ some (l, l + 1)
      → target < (types u).off l
      → walk_composite types cb walk accum_offset accum_depth target u a ≡ some (0, a)
  unfolding walk_composite
  composite_above l a ran above = >>=-some _ ran (ground arith)

  composite_scan :
      (l : ℕ) (a : A) (r : ℕ × A)
      → bisect (types u).off target (suc (types u).member_count) 0 (types u).member_count
        ≡ some (l, l + 1)
      → (types u).off l ≤ target
      → walk_members types cb walk accum_offset accum_depth target u
          ((types u).off l)
          ((types u).member_count - lowest (types u).off l)
          (lowest (types u).off l)
          a
        ≡ some r
      → walk_composite types cb walk accum_offset accum_depth target u a ≡ some r
  unfolding walk_composite
  composite_scan l a r ran le scan = >>=-some _ ran (ground (arith, scan))

  -- what the struct and union case does
  walk_composite-members :
      (a : A)
      → Ascending (types u).off (types u).member_count
      → ((j : ℕ) (a' : A)
          → j < (types u).member_count
          → walk
              (add32 accum_offset ((types u).off j))
              (add32 accum_depth 1)
              (target - (types u).off j)
              ((types u).memb j)
              a'
            ≡ some (call_each cb (below j) a'))
      → walk_composite types cb walk accum_offset accum_depth target u a
        ≡ some (
            call_each cb
              (elim (ltb target (types u).pos_maxoff) as (λ b. List Visit) [
                | true ↦
                    from_member types cb walk accum_offset accum_depth target u below
                      (types u).member_count
                      0
                | false ↦ []
              ])
              a)
  walk_composite-members a up sub =
      let n = (types u).member_count in
      let off = (types u).off in
      let all =
        λ (left i : ℕ). from_member types cb walk accum_offset accum_depth target u below left i in
      let at = member_visit types cb walk accum_offset accum_depth target u below in
      elim (Bool-cases (n == 0)) [
        | inl empty ↦
            let e : n ≡ 0 = ground arith in
            let nil : all n 0 ≡ [] = rw e refl in
            elim (Bool-cases (ltb target (types u).pos_maxoff)) [
              | inl inside ↦ rw (inside, nil) (composite_empty a e)
              | inr out ↦ rw out (composite_empty a e)
            ]
        | inr some_members ↦
            let (l, ran, less, choice) = bisect-choice off n target up (ground arith) in
            elim choice [
              | inl (above, none_there) ↦
                  let nil : all n 0 ≡ [] =
                    skip off n target at below n 0 (λ j b c. ground (arith, none_there j)) in
                  elim (Bool-cases (ltb target (types u).pos_maxoff)) [
                    | inl inside ↦ rw (inside, nil) (composite_above l a ran above)
                    | inr out ↦ rw out (composite_above l a ran above)
                  ]
              | inr best ↦
                  let i = lowest off l in
                  let (first, same) = lowest-IsFirst off n target l up less best in
                  elim (Bool-cases (ltb target (types u).pos_maxoff)) [
                    | inr out ↦ rw out (
                        composite_scan l a (0, a) ran best.0
                          (walk_outside (off l) (n - i) i a (ground arith)))
                    | inl inside ↦
                        let cut : all n 0 ≡ all (n - i) i =
                          skip_first off n target at below i (n - i) n 0 i (omega (arith, first.0))
                            (omega arith)
                            (λ j b c.
                              best-false off n target l j less best.0 best (omega (arith, first.0))
                                (ground (arith, first.2 j))) in
                        rw (inside, cut)
                          (composite_scan l a (call_each cb (all (n - i) i) a) ran best.0 (
                            walk_best types cb walk accum_offset accum_depth target u below (off l)
                              up best (n - i) i a (omega (arith, first.0))
                              (λ j b c. omega (arith, up i j b c)) (ground arith) sub))
                  ]
            ]
      ]

-- the array case, by the run on the element
module _ {A : Type 0} (types : ℕ → Uniqtype) (cb : Visit → A → ℕ × A)
    (k accum_offset accum_depth target u : ℕ) (a : A) where
  abbrev element_size_of : ℕ
  element_size_of = (types (types u).element).pos_maxoff

  abbrev element_start : ℕ
  element_start = target / element_size_of * element_size_of

  walk_element :
      (types u).is_array ≡ true
      → 0 < element_size_of
      → target / element_size_of < (types u).array_length
      → target < (types u).pos_maxoff
      → ((a' : A)
          → walk_subobjects_spanning_rec types cb k
              (add32 accum_offset element_start)
              (add32 accum_depth 1)
              (target % element_size_of)
              (types u).element
              a'
            ≡ some (
                call_each cb
                  (subobjects types k
                    (add32 accum_offset element_start)
                    (add32 accum_depth 1)
                    (target % element_size_of)
                    (types u).element)
                  a'))
      → walk_subobjects_spanning_rec types cb (suc k) accum_offset accum_depth target u a
        ≡ some (call_each cb (subobjects types (suc k) accum_offset accum_depth target u) a)
  unfolding walk_subobjects_spanning_rec subobjects
  walk_element is size less inside sub =
      let v = visit_at types accum_offset accum_depth u element_start 0 (types u).element in
      elim (Bool-cases ((cb v a).0 == 0)) [
        | inl go_on ↦ ground (arith, sub (cb v a).1)
        | inr stop ↦ ground arith
      ]

  walk_past :
      (types u).is_array ≡ true
      → 0 < element_size_of
      → (types u).array_length ≤ target / element_size_of
      → walk_subobjects_spanning_rec types cb (suc k) accum_offset accum_depth target u a
        ≡ some (call_each cb (subobjects types (suc k) accum_offset accum_depth target u) a)
  unfolding walk_subobjects_spanning_rec subobjects
  walk_past is size past = ground arith

  walk_members_of :
      (types u).is_array ≡ false
      → Ascending (types u).off (types u).member_count
      → ((j : ℕ) (a' : A)
          → j < (types u).member_count
          → walk_subobjects_spanning_rec types cb k
              (add32 accum_offset ((types u).off j))
              (add32 accum_depth 1)
              (target - (types u).off j)
              ((types u).memb j)
              a'
            ≡ some (
                call_each cb
                  (subobjects types k
                    (add32 accum_offset ((types u).off j))
                    (add32 accum_depth 1)
                    (target - (types u).off j)
                    ((types u).memb j))
                  a'))
      → walk_subobjects_spanning_rec types cb (suc k) accum_offset accum_depth target u a
        ≡ some (call_each cb (subobjects types (suc k) accum_offset accum_depth target u) a)
  unfolding walk_subobjects_spanning_rec subobjects
  walk_members_of isnt up sub =
      rw (isnt, walk_subobjects_spanning_rec, subobjects)
        (walk_composite-members types cb (walk_subobjects_spanning_rec types cb k) accum_offset
          accum_depth target u
          (λ i.
            subobjects types k (add32 accum_offset ((types u).off i)) (add32 accum_depth 1)
              (target - (types u).off i) ((types u).memb i))
          a up sub)

module _ {A : Type 0} (types : ℕ → Uniqtype) (rank : ℕ → ℕ) (cb : Visit → A → ℕ × A)
    (sane : IsSane types rank) (sized : IsSized types) where
  walk_rec-subobjects :
      (k accum_offset accum_depth target u : ℕ) (a : A)
      → rank u < k
      → walk_subobjects_spanning_rec types cb k accum_offset accum_depth target u a
        ≡ some (call_each cb (subobjects types k accum_offset accum_depth target u) a)
  walk_rec-subobjects zero o d target u a enough = absurd (omega arith)
  walk_rec-subobjects (suc k) o d target u a enough = elim (Bool-cases (types u).is_array) [
    | inr isnt ↦ walk_members_of types cb k o d target u a isnt (sane.ascending u) (λ j a' less.
        walk_rec-subobjects k (add32 o ((types u).off j)) (add32 d 1) (target - (types u).off j)
          ((types u).memb j) a' (omega (arith, sane.memb_below u j less)))
    | inl is ↦
        let size = (types (types u).element).pos_maxoff in
        let positive = sized.element_size u is in
        elim (Bool-cases (ltb (target / size) (types u).array_length)) [
          | inr past ↦ walk_past types cb k o d target u a is positive (ground arith)
          | inl within ↦
              let inside : target < (types u).array_length * size =
                (div-lt_iff_lt-mul {k = size} {x = target} {y = (types u).array_length} positive).0
                  (ground arith) in
              walk_element types cb k o d target u a is positive (ground arith)
                (omega (arith, inside, sized.array_size u is))
                (λ a'.
                  walk_rec-subobjects k (add32 o (target / size * size)) (add32 d 1) (target % size)
                    (types u).element a' (omega (arith, sane.element_below u is)))
        ]
  ]

  -- On a table of types in which no type contains itself, an array has elements of some size and lies
  -- within its own, and with fuel beyond the rank of the type, __liballocs_walk_subobjects_spanning
  -- returns. It calls the callback on each subobject that spans the target, and changes nothing else:
  -- an element, or every member with the greatest offset up to the target, in their order and each
  -- before those within it. It stops at the first call that does not return 0, and returns its result.
  pub walk_subobjects_spanning-call_each :
      (k target u : ℕ) (a : A)
      → rank u < k
      → walk_subobjects_spanning types cb k target u a
        ≡ some (call_each cb (subobjects types k 0 0 target u) a)
  unfolding walk_subobjects_spanning
  walk_subobjects_spanning-call_each k target u a enough =
      walk_rec-subobjects k 0 0 target u a enough
