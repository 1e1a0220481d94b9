-- ===== src/Subobject.antt =====
-- The walk of subobjects in include/liballocs.h: __liballocs_first_subobject_spanning,
-- __liballocs_find_matching_subobject and __liballocs_walk_subobjects_spanning_rec. A pointer to a
-- struct uniqtype is a number, and a table has what the macros of uniqtype-defs.h, of another project,
-- read from it. `none` is a failed assertion, a division by zero or fuel run out. An `unsigned` has 32
-- bits; the counts of members are below 2 ^ 31.
pub mod Bisect
pub mod First
pub mod Match
pub mod Walk
mod Tests
use liballocs.Common.{
  ℕ, zero, suc, ◌+◌, ◌-◌, ◌*◌, ◌/◌, ◌%◌, Bool, true, false, not, ◌&&◌, ◌||◌, Option, none, some,
  leb, ltb, ◌==◌, if◌then◌else◌, require, ◌>>=◌, ◌>>◌,
}

-- struct uniqtype: `member_count` is UNIQTYPE_COMPOSITE_MEMBER_COUNT, `element` is related[0].un.t.ptr,
-- and `off i` and `memb i` are related[i].un.memb.off and related[i].un.memb.ptr.
pub record Uniqtype : Type 0 where
  pub pos_maxoff : ℕ
  pub is_array : Bool
  pub array_length : ℕ
  pub element : ℕ
  pub member_count : ℕ
  pub off : ℕ → ℕ
  pub memb : ℕ → ℕ

-- `a + b` of type unsigned
abbrev pub add32 : ℕ → ℕ → ℕ
add32 a b = (a + b) % 0x1_0000_0000

-- the loop that bisects the interval, on fuel for its rounds
unfoldable pub bisect : (off : ℕ → ℕ) (target : ℕ) → ℕ → (lower_ind upper_ind : ℕ) → Option (ℕ × ℕ)
bisect off target zero lower_ind upper_ind = none
bisect off target (suc k) lower_ind upper_ind = elim (ltb (lower_ind + 1) upper_ind) [
  | false ↦ some (lower_ind, upper_ind)
  | true ↦
      let bisect_ind = (upper_ind + lower_ind) / 2 in
      elim (ltb lower_ind bisect_ind) [
        | false ↦ none
        | true ↦ elim (ltb target (off bisect_ind)) [
          | true ↦ bisect off target k lower_ind bisect_ind
          | false ↦ bisect off target k bisect_ind upper_ind
        ]
      ]
]

-- the backward scan for the lowest index with the same offset
unfoldable pub lowest : (off : ℕ → ℕ) (lower_ind : ℕ) → ℕ
lowest off zero = 0
lowest off (suc i) = let down = lowest off i in if off i == off (suc i) then down else suc i

-- what __liballocs_first_subobject_spanning stores: the contained type, its place in related[], and the
-- offset within it
pub record Spanning : Type 0 where
  pub cur_obj_uniqtype : ℕ
  pub cur_contained_pos : ℕ
  pub target_offset : ℕ

module _ (types : ℕ → Uniqtype) where
  -- its struct and union case
  unfoldable pub first_member : (target u : ℕ) → Option (Option Spanning)
  unfolding bisect lowest
  first_member target u = do
    let t = types u
    let num_contained = t.member_count
    (lower_ind, upper_ind) ← bisect t.off target (suc num_contained) 0 num_contained
    elim (lower_ind + 1 == upper_ind) [
      | true ↦ elim (ltb target (t.off lower_ind)) [
        | true ↦ some none
        | false ↦
            let i = lowest t.off lower_ind in
            some (
              some (record {
                cur_obj_uniqtype = t.memb i;
                cur_contained_pos = i;
                target_offset = target - t.off i;
              }))
      ]
      | false ↦ do require (num_contained == 0); some none
    ]

  -- its array case
  unfoldable pub first_element : (target u : ℕ) → Option Spanning
  first_element target u =
      let t = types u in
      let size = (types t.element).pos_maxoff in
      if not (size == 0) && ltb (target / size) t.array_length
      then some (record {
        cur_obj_uniqtype = t.element;
        cur_contained_pos = 0;
        target_offset = target % size;
      })
      else none

  -- __liballocs_first_subobject_spanning; it answers 0 by `some none`
  unfoldable pub first_subobject_spanning : (target u : ℕ) → Option (Option Spanning)
  unfolding first_member first_element
  first_subobject_spanning target u =
      if (types u).is_array then some (first_element target u) else first_member target u

-- the results of __liballocs_find_matching_subobject, by way of the pointers that it is given; the
-- containing type and the position are none for null
pub record Found : Type 0 where
  pub last_attempted_uniqtype : ℕ
  pub last_uniqtype_offset : ℕ
  pub cumulative_offset_searched : ℕ
  pub containing : Option (ℕ × ℕ)

module _ (types : ℕ → Uniqtype) where
  -- the loop over the subobjects at one offset, on fuel for the members left, from `pos` on;
  -- `recursive_test` is the recursive call
  unfoldable pub try_subobjects :
      (recursive_test : ℕ → ℕ → Found → Option (Bool × Found)) (u sub_target_offset : ℕ)
      → ℕ
      → (pos contained : ℕ) → Found
      → Option (Bool × Found)
  try_subobjects recursive_test u o zero pos contained s = none
  try_subobjects recursive_test u o (suc k) pos contained s = do
    let t = types u
    (matched, s1) ← recursive_test o contained s
    elim matched [
      | true ↦ some (true, record s1 { containing = some (u, pos) })
      | false ↦ do
        require ((pos == 0) || ltb pos t.member_count)
        elim (leb t.member_count (pos + 1) || not (t.off (pos + 1) == t.off pos)) [
          | true ↦ some (false, s1)
          | false ↦ try_subobjects recursive_test u o k (pos + 1) (t.memb (pos + 1)) s1
        ]
    ]

  -- __liballocs_find_matching_subobject, on fuel for the depth; `test` is 0 for null
  unfoldable pub find_matching_subobject :
      (test : ℕ) → ℕ → (target u : ℕ) → Found → Option (Bool × Found)
  unfolding first_subobject_spanning try_subobjects
  find_matching_subobject test zero target u s = none
  find_matching_subobject test (suc k) target u s =
      elim ((target == 0) && ((test == 0) || (u == test))) [
        | true ↦ some (true, record s { containing = none })
        | false ↦ do
          first ← first_subobject_spanning types target u
          elim first [
            | none ↦ some (false, s)
            | some r ↦
                let t = types u in
                let s1 = record s {
                  cumulative_offset_searched =
                      add32 s.cumulative_offset_searched (t.off r.cur_contained_pos);
                  last_attempted_uniqtype = r.cur_obj_uniqtype;
                  last_uniqtype_offset = r.target_offset;
                } in
                try_subobjects (find_matching_subobject test k) u r.target_offset
                  (suc t.member_count) r.cur_contained_pos r.cur_obj_uniqtype s1
          ]
      ]

-- the arguments of a call of the callback
pub record Visit : Type 0 where
  pub spans : ℕ
  pub span_start_offset : ℕ
  pub depth : ℕ
  pub containing : ℕ
  pub contained_pos : ℕ
  pub containing_span_start_offset : ℕ

-- The callback returns a number, of which 0 goes on, and may change `A`.
module _ {A : Type 0} (types : ℕ → Uniqtype) (cb : Visit → A → ℕ × A) where
  -- a call of the callback and, if it returns 0, what follows
  abbrev pub call_back : Visit → A → (A → Option (ℕ × A)) → Option (ℕ × A)
  call_back v a next =
      let (ret, a1) = cb v a in elim (ret == 0) [ true ↦ next a1 | false ↦ some (ret, a1) ]

  -- the forward scan over the members at `offset`, from `i` on, `left` of them being left; `walk` is
  -- the recursive call
  unfoldable pub walk_members :
      (walk : (accum_offset accum_depth target u : ℕ) → A → Option (ℕ × A))
      (accum_offset accum_depth target u offset : ℕ)
      → (left i : ℕ) → A
      → Option (ℕ × A)
  walk_members walk accum_offset accum_depth target u offset zero i a = some (0, a)
  walk_members walk accum_offset accum_depth target u offset (suc left) i a =
      let t = types u in
      elim (t.off i == offset) [
        | false ↦ some (0, a)
        | true ↦ elim (ltb target t.pos_maxoff) [
          | false ↦ walk_members walk accum_offset accum_depth target u offset left (i + 1) a
          | true ↦
              call_back
                (record {
                  spans = t.memb i;
                  span_start_offset = add32 accum_offset offset;
                  depth = add32 accum_depth 1;
                  containing = u;
                  contained_pos = i;
                  containing_span_start_offset = accum_offset;
                })
                a
                λ a1.
                  (walk (add32 accum_offset offset) (add32 accum_depth 1) (target - offset)
                      (t.memb i) a1
                    >>= λ r. elim (r.0 == 0) [
                      | true ↦
                          walk_members walk accum_offset accum_depth target u offset left (i + 1)
                            r.1
                      | false ↦ some r
                    ])
        ]
      ]

  -- the struct and union case of __liballocs_walk_subobjects_spanning_rec
  unfoldable pub walk_composite :
      (walk : (accum_offset accum_depth target u : ℕ) → A → Option (ℕ × A))
      → (accum_offset accum_depth target u : ℕ) → A
      → Option (ℕ × A)
  unfolding bisect lowest walk_members
  walk_composite walk accum_offset accum_depth target u a = do
    let t = types u
    let num_contained = t.member_count
    (lower_ind, upper_ind) ← bisect t.off target (suc num_contained) 0 num_contained
    elim (lower_ind + 1 == upper_ind) [
      | true ↦ elim (ltb target (t.off lower_ind)) [
        | true ↦ some (0, a)
        | false ↦
            let i = lowest t.off lower_ind in
            walk_members walk accum_offset accum_depth target u (t.off lower_ind)
              (num_contained - i) i a
      ]
      | false ↦ do require (num_contained == 0); some (0, a)
    ]

  -- __liballocs_walk_subobjects_spanning_rec, on fuel for the depth
  unfoldable pub walk_subobjects_spanning_rec :
      ℕ → (accum_offset accum_depth target u : ℕ) → A → Option (ℕ × A)
  unfolding walk_composite
  walk_subobjects_spanning_rec zero accum_offset accum_depth target u a = none
  walk_subobjects_spanning_rec (suc k) accum_offset accum_depth target u a =
      let t = types u in
      elim t.is_array [
        | false ↦
            walk_composite (walk_subobjects_spanning_rec k) accum_offset accum_depth target u a
        | true ↦ do
          let size = (types t.element).pos_maxoff
          require (not (size == 0))
          let div = target / size
          elim (ltb div t.array_length) [
            | false ↦ some (0, a)
            | true ↦ do
              require (ltb target t.pos_maxoff)
              call_back
                  (record {
                    spans = t.element;
                    span_start_offset = add32 accum_offset (div * size);
                    depth = add32 accum_depth 1;
                    containing = u;
                    contained_pos = 0;
                    containing_span_start_offset = accum_offset;
                  })
                  a
                  (walk_subobjects_spanning_rec k (add32 accum_offset (div * size))
                    (add32 accum_depth 1) (target % size) t.element)
          ]
      ]

  -- __liballocs_walk_subobjects_spanning
  unfoldable pub walk_subobjects_spanning : ℕ → (target u : ℕ) → A → Option (ℕ × A)
  unfolding walk_subobjects_spanning_rec
  walk_subobjects_spanning fuel target u a = walk_subobjects_spanning_rec fuel 0 0 target u a
