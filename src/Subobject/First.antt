-- ===== src/Subobject/First.antt =====
-- What __liballocs_first_subobject_spanning finds.
use liballocs.Common.{
  ℕ, suc, ◌+◌, ◌-◌, ◌/◌, ◌%◌, ◌≤◌, ◌<◌, ◌≡◌, ◌≢◌, ◌⊎◌, inl, inr, refl, true, false, some, none,
  arith, ◌==◌, Bool-cases, Option-cases, >>=-some,
}
use liballocs.Subobject.{
  Uniqtype, Spanning, bisect, lowest, first_member, first_element, first_subobject_spanning,
}
use liballocs.Subobject.Bisect.{Ascending, IsBest, IsFirst, lowest-IsFirst, bisect-choice}

pub bisect_empty :
    (off : ℕ → ℕ) (target n : ℕ) → n ≡ 0 → bisect off target (suc n) 0 n ≡ some (0, n)
unfolding bisect
bisect_empty off target n e = ground arith

module _ (types : ℕ → Uniqtype) where
  -- The subobject of `u` at the place `i`, of type `u'`, spans the target, which is `target'` in it: an
  -- element of an array, or a member with the greatest offset up to the target.
  abbrev pub SubAt : (target u i target' u' : ℕ) → Type 0
  SubAt target u i target' u' =
      let t = types u in
      let size = (types t.element).pos_maxoff in
      ((t.is_array ≡ true)
        × (size ≢ 0)
        × (target / size < t.array_length)
        × (i ≡ 0)
        × (target' ≡ target % size)
        × (u' ≡ t.element))
      ⊎ ((t.is_array ≡ false)
          × (i < t.member_count)
          × IsBest t.off t.member_count target (t.off i)
          × (target' ≡ target - t.off i)
          × (u' ≡ t.memb i))

  -- `r` is the subobject in the first place of those that span the target
  abbrev pub IsFirstSub : (target u : ℕ) → Spanning → Type 0
  IsFirstSub target u r =
      SubAt target u r.cur_contained_pos r.target_offset r.cur_obj_uniqtype
      × ((i target' u' : ℕ) → SubAt target u i target' u' → r.cur_contained_pos ≤ i)

  abbrev NoSub : (target u : ℕ) → Type 0
  NoSub target u = (i target' u' : ℕ) → SubAt target u i target' u' → ⊥

  -- the record that the function fills for a member
  abbrev pub at_member : (target u i : ℕ) → Spanning
  at_member target u i = record {
    cur_obj_uniqtype = (types u).memb i;
    cur_contained_pos = i;
    target_offset = target - (types u).off i;
  }

  module _ (target u : ℕ) where
    -- a run of the bisection, taken further
    pub first_member-eq :
        (l : ℕ)
        → bisect (types u).off target (suc (types u).member_count) 0 (types u).member_count
          ≡ some (l, l + 1)
        → (types u).off l ≤ target
        → first_member types target u ≡ some (some (at_member target u (lowest (types u).off l)))
    unfolding first_member
    first_member-eq l ran le = >>=-some _ ran (ground arith)

    pub first_member-above :
        (l : ℕ)
        → bisect (types u).off target (suc (types u).member_count) 0 (types u).member_count
          ≡ some (l, l + 1)
        → target < (types u).off l
        → first_member types target u ≡ some none
    unfolding first_member
    first_member-above l ran above = >>=-some _ ran (ground arith)

    first_member-empty : (types u).member_count ≡ 0 → first_member types target u ≡ some none
    unfolding first_member
    first_member-empty e =
        >>=-some _ (bisect_empty (types u).off target (types u).member_count e) (ground arith)

    -- no place before the first member at the greatest offset spans the target
    pub least_member :
        (k : ℕ)
        → (types u).is_array ≡ false
        → IsFirst (types u).off (types u).member_count target k
        → (i target' u' : ℕ) → SubAt target u i target' u'
        → k ≤ i
    least_member k c (less, best, first) i target' u' s = elim s [
      | inl e ↦ ground arith
      | inr (_, less', best', _, _) ↦ ground (arith, first i, best'.1 k)
    ]

    no_element : (types u).is_array ≡ true → first_element types target u ≡ none → NoSub target u
    unfolding first_element
    no_element a e i target' u' s = ground arith

    an_element :
        (r : Spanning)
        → (types u).is_array ≡ true
        → first_element types target u ≡ some r
        → IsFirstSub target u r
    unfolding first_element
    an_element r a e = (ground arith, λ i target' u' s. ground arith)

-- On a type whose members ascend by their offsets, __liballocs_first_subobject_spanning returns. It
-- answers 0 only if no subobject spans the target: no member begins at or before it, or it is beyond
-- the elements of the array. Else it finds, out of the members with the greatest offset up to the
-- target, the one in the first place, or the element, with the offset that is left.
pub first_subobject_spanning-IsFirstSub :
    (types : ℕ → Uniqtype) (target u : ℕ)
    → Ascending (types u).off (types u).member_count
    → ((first_subobject_spanning types target u ≡ some none)
        × ((i target' u' : ℕ) → SubAt types target u i target' u' → ⊥))
      ⊎ ((r : Spanning) × (first_subobject_spanning types target u ≡ some (some r))
          × IsFirstSub types target u r)
unfolding first_subobject_spanning
first_subobject_spanning-IsFirstSub types target u up = elim (Bool-cases (types u).is_array) [
  | inl a ↦ elim (Option-cases (first_element types target u)) [
    | inl e ↦ inl (ground arith, no_element types target u a e)
    | inr (r, e) ↦ inr (r, ground arith, an_element types target u r a e)
  ]
  | inr c ↦ elim (Bool-cases ((types u).member_count == 0)) [
    | inl empty ↦ inl (
      ground (arith, first_member-empty types target u (ground arith)),
      λ i target' u' s. ground arith,
    )
    | inr some_members ↦
        let (l, ran, less, choice) =
          bisect-choice (types u).off (types u).member_count target up (ground arith) in
        elim choice [
          | inl (above, none_there) ↦ inl (
            ground (arith, first_member-above types target u l ran above),
            λ i target' u' s. ground (arith, none_there i),
          )
          | inr best ↦
              let (first, same) =
                lowest-IsFirst (types u).off (types u).member_count target l up less best in
              inr (
                at_member types target u (lowest (types u).off l),
                ground (arith, first_member-eq types target u l ran best.0),
                (
                  inr (c, first.0, first.1, refl, refl),
                  least_member types target u (lowest (types u).off l) c first,
                ),
              )
        ]
  ]
]
