-- ===== src/Subobject/Match/Correct.antt =====
-- __liballocs_find_matching_subobject decides whether there is a match.
use liballocs.Common.{
  ℕ, zero, suc, ◌<◌, ◌≡◌, ◌⊎◌, inl, inr, Bool, true, false, Option, none, some, arith, Bool-cases,
  subst, sym,
}
use liballocs.Subobject.{
  Uniqtype, Spanning, Found, add32, first_subobject_spanning, try_subobjects,
  find_matching_subobject,
}
use liballocs.Subobject.Bisect.{Ascending}
use liballocs.Subobject.First.{IsFirstSub, first_subobject_spanning-IsFirstSub}
use liballocs.Subobject.Match.{
  IsSane, Matches, here, inside, Decides, is_here, try_matched, try_last, try_members, Decides-map,
  Matches-inside, element_only, to_member, of_member,
}

module _ (types : ℕ → Uniqtype) (test k target u : ℕ) (s : Found) where
  find_here :
      is_here types test target u ≡ true
      → find_matching_subobject types test (suc k) target u s
        ≡ some (true, record s { containing = none })
  unfolding find_matching_subobject
  find_here hit = ground arith

  find_none :
      is_here types test target u ≡ false
      → first_subobject_spanning types target u ≡ some none
      → find_matching_subobject types test (suc k) target u s ≡ some (false, s)
  unfolding find_matching_subobject
  find_none miss first = ground (arith, first)

  -- the results stored before the loop
  abbrev descended : Spanning → Found
  descended r = record s {
    cumulative_offset_searched =
        add32 s.cumulative_offset_searched ((types u).off r.cur_contained_pos);
    last_attempted_uniqtype = r.cur_obj_uniqtype;
    last_uniqtype_offset = r.target_offset;
  }

  find_some :
      (r : Spanning)
      → is_here types test target u ≡ false
      → first_subobject_spanning types target u ≡ some (some r)
      → find_matching_subobject types test (suc k) target u s
        ≡ try_subobjects types
            (find_matching_subobject types test k)
            u
            r.target_offset
            (suc (types u).member_count)
            r.cur_contained_pos
            r.cur_obj_uniqtype
            (descended r)
  unfolding find_matching_subobject
  find_some r miss first = ground (arith, first)

module _ (types : ℕ → Uniqtype) (test target u : ℕ) (r : Spanning)
    (first : IsFirstSub types target u r) (miss : is_here types test target u ≡ false) where
  -- the loop over the subobjects, in each of the two cases
  try_element :
      (rec : ℕ → ℕ → Found → Option (Bool × Found)) (n : ℕ) (s : Found)
      → (types u).is_array ≡ true
      → (types u).member_count ≡ 0
      → ((s' : Found)
          → Decides
              (Matches types test r.target_offset (types u).element)
              (rec r.target_offset (types u).element s'))
      → Decides (Matches types test target u) (
          try_subobjects types rec u r.target_offset
            (suc n)
            r.cur_contained_pos
            r.cur_obj_uniqtype
            s)
  try_element rec n s a none_in decide =
      let eq : r.cur_obj_uniqtype ≡ (types u).element = ground (arith, first.0) in
      let found =
        subst (λ v. Decides (Matches types test r.target_offset v) (rec r.target_offset v s))
          (sym eq) (decide s) in
      elim found [
        | inl (s1, ran, m) ↦ inl (
          record s1 { containing = some (u, r.cur_contained_pos) },
          try_matched types test rec u r.target_offset n r.cur_contained_pos r.cur_obj_uniqtype s s1
              ran,
          inside r.cur_contained_pos r.target_offset r.cur_obj_uniqtype first.0 m,
        )
        | inr (s1, ran, never) ↦ inr (
          s1,
          try_last types test rec u r.target_offset n r.cur_contained_pos r.cur_obj_uniqtype s s1
              ran (ground (arith, first.0)) (ground arith),
          λ m. never (element_only types test target u r first miss a m),
        )
      ]

  try_member :
      (rec : ℕ → ℕ → Found → Option (Bool × Found)) (s : Found)
      → (types u).is_array ≡ false
      → Ascending (types u).off (types u).member_count
      → ((i : ℕ) (s' : Found)
          → i < (types u).member_count
          → Decides
              (Matches types test r.target_offset ((types u).memb i))
              (rec r.target_offset ((types u).memb i) s'))
      → Decides (Matches types test target u) (
          try_subobjects types rec u r.target_offset
            (suc (types u).member_count)
            r.cur_contained_pos
            r.cur_obj_uniqtype
            s)
  try_member rec s c up decide =
      let eq : r.cur_obj_uniqtype ≡ (types u).memb r.cur_contained_pos = ground (arith, first.0) in
      let run = λ (v : ℕ).
        (try_subobjects types rec u r.target_offset (suc (types u).member_count) r.cur_contained_pos
          v s) in
      subst (λ v. Decides (Matches types test target u) (run v)) (sym eq)
        (Decides-map (run ((types u).memb r.cur_contained_pos))
          (of_member types test target u r first miss c)
          (to_member types test target u r first miss c)
          (try_members types test rec u r.target_offset up decide (suc (types u).member_count)
            r.cur_contained_pos s (ground (arith, first.0)) (omega arith)))

-- On a table of types in which no type contains itself, with fuel beyond the rank of the type,
-- __liballocs_find_matching_subobject returns, and it answers 1 exactly if the object has, at the
-- target, the beginning of an object of the type asked for: itself, or one that a chain of subobjects
-- leads to, each an element or any of the members with the greatest offset up to the target.
pub find_matching_subobject-Matches :
    (types : ℕ → Uniqtype) (rank : ℕ → ℕ) (test k target u : ℕ) (s : Found)
    → IsSane types rank
    → rank u < k
    → Decides (Matches types test target u) (find_matching_subobject types test k target u s)
find_matching_subobject-Matches types rank test zero target u s sane enough = absurd (omega arith)
find_matching_subobject-Matches types rank test (suc k) target u s sane enough =
    elim (Bool-cases (is_here types test target u)) [
      | inl hit ↦ inl (
        record s { containing = none },
        find_here types test k target u s hit,
        here (ground arith) (matched hit),
      )
      | inr miss ↦ elim (first_subobject_spanning-IsFirstSub types target u (sane.ascending u)) [
        | inl (e, none_there) ↦ inr (
          s,
          find_none types test k target u s miss e,
          λ m.
              let (i, o, v, sub, _) = Matches-inside types test target u miss m in
              none_there i o v sub,
        )
        | inr (r, e, first) ↦
            subst (λ x. Decides (Matches types test target u) x)
              (sym (find_some types test k target u s r miss e))
              (loop r first miss (descended types test k target u s r) (λ v s' less.
                find_matching_subobject-Matches types rank test k r.target_offset v s' sane less))
      ]
    ]
  where
    matched : is_here types test target u ≡ true → (test ≡ 0) ⊎ (u ≡ test)
    matched hit = ground arith

    loop :
        (r : Spanning)
        → IsFirstSub types target u r
        → is_here types test target u ≡ false
        → (s1 : Found)
        → ((v : ℕ) (s' : Found)
            → rank v < k
            → Decides
                (Matches types test r.target_offset v)
                (find_matching_subobject types test k r.target_offset v s'))
        → Decides (Matches types test target u) (
            try_subobjects types
              (find_matching_subobject types test k)
              u
              r.target_offset
              (suc (types u).member_count)
              r.cur_contained_pos
              r.cur_obj_uniqtype
              s1)
    loop r first miss s1 decide = elim (Bool-cases (types u).is_array) [
      | inl a ↦
          try_element types test target u r first miss (find_matching_subobject types test k)
            (types u).member_count s1 a (sane.no_members u a)
            (λ s'. decide (types u).element s' (omega (arith, sane.element_below u a)))
      | inr c ↦
          try_member types test target u r first miss (find_matching_subobject types test k) s1 c
            (sane.ascending u)
            (λ i s' less. decide ((types u).memb i) s' (omega (arith, sane.memb_below u i less)))
    ]
