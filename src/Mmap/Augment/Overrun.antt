-- ===== src/Mmap/Augment/Overrun.antt =====
-- A new mapping that begins within a sequence and ends after it.
use mathlib.Core.List.{}
use liballocs.Common.{
  ℕ, suc, ◌+◌, ◌≤◌, ◌<◌, ◌≡◌, refl, ap, subst, ◌∙◌, Bool, true, false, not, ◌||◌, none, some, ◌==◌,
  if◌then◌else◌, List, [], ◌∷◌, ◌++◌, length, length-append, arith, Bool-cases, inl, inr, >>=-some,
  ◌>>=◌, require-true, require,
}
use liballocs.Mmap.{MappingEntry, MappingSequence, check_mapping_sequence_sanity}
use liballocs.Mmap.Entries.{
  Holds, Holds-append_split, Represents, Contiguous, Covers, check-Contiguous, check-eq_true,
}
use liballocs.Mmap.Augment.{
  Mapping, new_entry, augment_sequence, augment_branches, first_overlapped, last_overlapped,
  is_clean_extension,
}
use liballocs.Mmap.Augment.Stages.{before, after, head_or, splice-Spliced}
use liballocs.Mmap.Augment.Search.{FirstAt, first_overlapped-FirstAt}
use liballocs.Mmap.Augment.Overlap.{overlap_run}
use liballocs.Mmap.Augment.Correct.{joins, dirty_run, accepted-unnamed}

-- The search downwards stops at the last entry.
abbrev Ending :
    (t : ℕ → MappingEntry) (m : Mapping) (i e : ℕ) (f : MappingEntry) (es bs : List MappingEntry)
    (l : MappingEntry)
    → Type 0
Ending t m i e f es bs l =
    (es ≡ bs ++ l ∷ [])
    × (head_or l bs ≡ f)
    × (last_overlapped t m (i + length es) ≡ some (i + length bs))
    × (l.end ≡ e)

last_overlapped-Ending :
    (t : ℕ → MappingEntry) (m : Mapping) (i b e : ℕ) (x : MappingEntry) (xs : List MappingEntry)
    → Holds t i (x ∷ xs)
    → Contiguous b e (x ∷ xs)
    → e < m.end
    → m.begin ≤ x.end
    → (bs : List MappingEntry) × (l : MappingEntry) × Ending t m i e x (x ∷ xs) bs l
unfolding last_overlapped
last_overlapped-Ending t m i b e x [] h c p r =
    let here : last_overlapped t m (suc i) ≡ some i = ground arith in
    (
      [],
      x,
      (
        refl,
        refl,
        ap (last_overlapped t m) (let q : i + 1 ≡ suc i = omega arith in q)
            ∙ here
            ∙ ap some (omega arith),
        c.3,
      ),
    )
last_overlapped-Ending t m i b e x (y ∷ ys) h c p r =
    let (bs, l, rest) = last_overlapped-Ending t m (i + 1) x.end e y ys h.1 c.3 p (ground arith) in
    (
      x ∷ bs,
      l,
      (
        ap (λ ts. x ∷ ts) rest.0,
        refl,
        ap (last_overlapped t m)
              (let q : i + suc (suc (length ys)) ≡ i + 1 + suc (length ys) = omega arith in q)
            ∙ rest.2
            ∙ ap some (omega arith),
        rest.3,
      ),
    )

check-append :
    (s : MappingSequence) (ps qs : List MappingEntry) (x : MappingEntry)
    → Represents s (ps ++ x ∷ qs)
    → check_mapping_sequence_sanity s ≡ true
    → Contiguous s.begin s.end (ps ++ x ∷ qs)
check-append s [] qs x r c = check-eq_true s x qs r c
check-append s (p ∷ ps) qs x r c = check-eq_true s p (ps ++ x ∷ qs) r c

Contiguous-drop :
    (b e : ℕ) (ps qs : List MappingEntry) → Contiguous b e (ps ++ qs) → (c : ℕ) × Contiguous c e qs
Contiguous-drop b e [] qs c = (b, c)
Contiguous-drop b e (p ∷ ps) qs c = Contiguous-drop p.end e ps qs c.3

-- an entry that ends before it begins fails the check
overrun-insane :
    (s : MappingSequence) (m : Mapping) (l : MappingEntry) (ps : List MappingEntry)
    → l.end < m.end
    → Represents s (ps ++ new_entry m ∷ (after l m.end ++ []))
    → check_mapping_sequence_sanity s ≡ false
overrun-insane s m l ps p r = elim (Bool-cases (check_mapping_sequence_sanity s)) [
  | inr z ↦ z
  | inl z ↦
      let (c, k) =
        Contiguous-drop s.begin s.end ps _
          (check-append s ps (after l m.end ++ []) (new_entry m) r z) in
      let some_after : (l.end == m.end) ≡ false = ground arith in absurd (bad c some_after k)
]
  where
    bad :
        (c : ℕ)
        → (l.end == m.end) ≡ false
        → Contiguous c s.end (new_entry m ∷ (after l m.end ++ []))
        → ⊥
    bad c q k = ground arith

-- the run, from its parts, up to the failing check
overrun_run :
    (object_below copied : ℕ → ℕ) (m : Mapping) (s s' : MappingSequence)
    → check_mapping_sequence_sanity s ≡ true
    → augment_branches object_below copied true m s ≡ some (true, s')
    → check_mapping_sequence_sanity s' ≡ false
    → augment_sequence object_below copied true m s ≡ none
unfolding augment_sequence
overrun_run object_below copied m s s' sane run insane =
    require-true (not true || check_mapping_sequence_sanity s) _ (ground arith)
    ∙ >>=-some _ run (
        ap
          (λ b. ◌>>=◌ {B = Bool × MappingSequence} (require (not true || b)) (λ _. some (true, s')))
          insane)

module _ (object_below copied : ℕ → ℕ) (m : Mapping) (s : MappingSequence) (es : List MappingEntry)
    (v : Covers s es) (pos : 0 < m.begin) (nonempty : m.begin < m.end) where
  overrun_of :
      (us rs bs : List MappingEntry) (f l : MappingEntry)
      → s.filename ≡ 0
      → m.filename ≡ 0
      → s.nused ≤ 6
      → joins object_below copied m s es v pos nonempty ≡ true
      → is_clean_extension object_below copied m s ≡ false
      → s.end < m.end
      → FirstAt s.mappings m 0 s.begin s.end es us rs f
      → Ending s.mappings m (length us) s.end f (f ∷ rs) bs l
      → augment_sequence object_below copied true m s ≡ none
  overrun_of us rs bs f l unnamed unnamed' few z dirty over fa la =
      let whole : es ≡ us ++ (bs ++ l ∷ []) = fa.0 ∙ ap (λ ts. us ++ ts) la.0 in
      let r : Represents s (us ++ (bs ++ l ∷ [])) = subst (Represents s) whole v.0 in
      let count : s.nused ≡ length us + length (f ∷ rs) =
        v.0.0 ∙ ap length fa.0 ∙ length-append us (f ∷ rs) in
      let (s', run3, r', same) =
        splice-Spliced true (length us) (length us + length bs) m s l us bs [] refl refl r in
      let run =
        overlap_run object_below copied true (length us) (length us + length bs) m s s'
          (ap (λ n. first_overlapped n s.mappings m 0) v.0.0 ∙ fa.1 ∙ ap some (omega arith))
          (ap (last_overlapped s.mappings m) count ∙ la.2) run3 in
      let a =
        accepted-unnamed object_below copied m s es v pos nonempty unnamed unnamed' (length us)
          (length us + length bs) few in
      overrun_run object_below copied m s s' (check-Contiguous s es v.0 v.2)
        (dirty_run object_below copied m s es v pos nonempty true z dirty
          ∙ run
          ∙ ap (λ b. some (b, if b then s' else s)) a)
        (overrun-insane s' m l (us ++ before (head_or l bs) m.begin) (omega (arith, la.3)) r')

  -- For a sequence of at most six abutting entries that cover its range, neither of it nor the
  -- mapping having a filename: if the mapping begins within the range, not at address 0, and ends
  -- after it, augment_sequence fails an assertion when these are compiled in.
  pub augment_sequence-overrun :
      s.filename ≡ 0
      → m.filename ≡ 0
      → s.nused ≤ 6
      → s.begin ≤ m.begin
      → m.begin < s.end
      → s.end < m.end
      → augment_sequence object_below copied true m s ≡ none
  augment_sequence-overrun unnamed unnamed' few lo under over =
      let dirty : is_clean_extension object_below copied m s ≡ false = ground arith in
      let z : joins object_below copied m s es v pos nonempty ≡ true = ground arith in
      let (us, rs, f, fa) =
        first_overlapped-FirstAt s.mappings m 0 s.begin s.end es v.0.1 v.2 lo under nonempty in
      let held =
        Holds-append_split s.mappings 0 (length us) us (f ∷ rs) (omega arith)
          (subst (Holds s.mappings 0) fa.0 v.0.1) in
      let (bs, l, la) =
        last_overlapped-Ending s.mappings m (length us) f.begin s.end f rs held.1 fa.3 over fa.5 in
      overrun_of us rs bs f l unnamed unnamed' few z dirty over fa la
