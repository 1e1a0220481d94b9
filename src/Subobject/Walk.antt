-- ===== src/Subobject/Walk.antt =====
-- What __liballocs_walk_subobjects_spanning is to visit: the list of the subobjects that span the target.
pub mod Members
pub mod Correct
use liballocs.Common.{
  ℕ, zero, suc, ◌+◌, ◌-◌, ◌*◌, ◌/◌, ◌%◌, ◌≤◌, ◌<◌, ◌≡◌, ◌≢◌, inl, inr, refl, sym, ap, ◌∙◌, subst,
  Bool, true, false, ◌&&◌, ◌||◌, not, Option, none, some, List, [], ◌∷◌, ◌++◌, arith, ltb, leb,
  ◌==◌, if◌then◌else◌, ◌>>=◌, Bool-cases, ==_iff, >>=-some, require-true,
}
use liballocs.Subobject.{
  Uniqtype, Visit, add32, bisect, lowest, walk_members, walk_composite,
  walk_subobjects_spanning_rec, walk_subobjects_spanning,
}
use liballocs.Subobject.Bisect.{Ascending, IsBest, IsFirst, lowest-IsFirst, bisect-choice}
use liballocs.Subobject.First.{bisect_empty}
use liballocs.Subobject.Match.{IsSane}

-- among `n` members, none has an offset above `o` and up to the target
abbrev pub none_better : (off : ℕ → ℕ) (target o : ℕ) → ℕ → Bool
none_better off target o zero = true
none_better off target o (suc n) =
    none_better off target o n && (ltb target (off n) || leb (off n) o)

-- member `i` has the greatest offset up to the target
abbrev pub is_best : (off : ℕ → ℕ) (n target i : ℕ) → Bool
is_best off n target i = leb (off i) target && none_better off target (off i) n

-- The subobjects that span the target, each before those within it. `below` lists those within the
-- subobject in place `i`, whose visit is `at i`.
abbrev pub best_members :
    (off : ℕ → ℕ) (n target : ℕ) (at : ℕ → Visit) (below : ℕ → List Visit)
    → (left i : ℕ) → List Visit
best_members off n target at below zero i = []
best_members off n target at below (suc left) i =
    let rest = best_members off n target at below left (i + 1) in
    if is_best off n target i then at i ∷ (below i ++ rest) else rest

-- the visit of a subobject in place `i` of `u`, whose span starts at `start`
abbrev pub visit_at : (types : ℕ → Uniqtype) (accum_offset accum_depth u start i spans : ℕ) → Visit
visit_at types accum_offset accum_depth u start i spans = record {
  spans = spans;
  span_start_offset = add32 accum_offset start;
  depth = add32 accum_depth 1;
  containing = u;
  contained_pos = i;
  containing_span_start_offset = accum_offset;
}

unfoldable pub subobjects :
    (types : ℕ → Uniqtype) → ℕ → (accum_offset accum_depth target u : ℕ) → List Visit
subobjects types zero accum_offset accum_depth target u = []
subobjects types (suc k) accum_offset accum_depth target u =
    let t = types u in
    let size = (types t.element).pos_maxoff in
    let start = target / size * size in
    elim t.is_array [
      | true ↦ elim (ltb (target / size) t.array_length) [
        | true ↦
            visit_at types accum_offset accum_depth u start 0 t.element
            ∷ subobjects types k (add32 accum_offset start) (add32 accum_depth 1) (target % size)
                t.element
        | false ↦ []
      ]
      | false ↦ elim (ltb target t.pos_maxoff) [
        | true ↦
            best_members t.off t.member_count target
              (λ i. visit_at types accum_offset accum_depth u (t.off i) i (t.memb i))
              (λ i.
                subobjects types k (add32 accum_offset (t.off i)) (add32 accum_depth 1)
                  (target - t.off i) (t.memb i))
              t.member_count 0
        | false ↦ []
      ]
    ]

-- the callback called on each visit in turn, up to the first that returns a number other than 0
abbrev pub call_each : {A : Type 0} (cb : Visit → A → ℕ × A) → List Visit → A → ℕ × A
call_each cb [] a = (0, a)
call_each cb (v ∷ vs) a =
    let (ret, a1) = cb v a in let rest = call_each cb vs a1 in if ret == 0 then rest else (ret, a1)

pub call_each-append :
    {A : Type 0} (cb : Visit → A → ℕ × A) (vs ws : List Visit) (a : A)
    → call_each cb (vs ++ ws) a ≡ (
        let (ret, a1) = call_each cb vs a in
        let rest = call_each cb ws a1 in if ret == 0 then rest else (ret, a1))
call_each-append cb [] ws a = refl
call_each-append cb (v ∷ vs) ws a = elim (Bool-cases ((cb v a).0 == 0)) [
  | inl go_on ↦ rw go_on (call_each-append cb vs ws (cb v a).1)
  | inr stop ↦ rw stop (rw stop refl)
]

-- what the test says
module _ (off : ℕ → ℕ) (target o : ℕ) where
  none_better-true :
      (n : ℕ) → ((j : ℕ) → j < n → off j ≤ target → off j ≤ o) → none_better off target o n ≡ true
  none_better-true zero h = refl
  none_better-true (suc n) h =
      ground (arith, h n, none_better-true n (λ j a b. h j (omega arith) b))

  none_better-false :
      (n j : ℕ) → j < n → off j ≤ target → o < off j → none_better off target o n ≡ false
  none_better-false zero j a b c = absurd (omega arith)
  none_better-false (suc n) j a b c = ground (arith, none_better-false n j)

module _ (off : ℕ → ℕ) (n target : ℕ) where
  pub best-true : (i : ℕ) → IsBest off n target (off i) → is_best off n target i ≡ true
  best-true i best = ground (arith, none_better-true off target (off i) n best.1)

  pub best-false :
      (b i : ℕ)
      → b < n
      → off b ≤ target
      → IsBest off n target (off b)
      → i < n
      → off i ≢ off b
      → is_best off n target i ≡ false
  best-false b i less le best less' ne =
      ground (arith, best.1 i, none_better-false off target (off i) n b)

  -- members none of which is at the greatest offset contribute nothing
  pub skip :
      (at : ℕ → Visit) (below : ℕ → List Visit) (left i : ℕ)
      → ((j : ℕ) → i ≤ j → j < i + left → is_best off n target j ≡ false)
      → best_members off n target at below left i ≡ []
  skip at below zero i h = refl
  skip at below (suc left) i h =
      rw (h i (omega arith) (omega arith))
        (skip at below left (i + 1) (λ j a b. h j (omega arith) (omega arith)))

  pub skip_first :
      (at : ℕ → Visit) (below : ℕ → List Visit) (first left total i p : ℕ)
      → total ≡ first + left
      → p ≡ i + first
      → ((j : ℕ) → i ≤ j → j < p → is_best off n target j ≡ false)
      → best_members off n target at below total i ≡ best_members off n target at below left p
  skip_first at below zero left total i p et ep h = ground arith
  skip_first at below (suc first) left zero i p et ep h = absurd (omega arith)
  skip_first at below (suc first) left (suc total) i p et ep h =
      rw (h i (omega arith) (omega arith)) (
        skip_first at below first left total (i + 1) p (omega arith) (omega arith)
          (λ j a b. h j (omega arith) b))
