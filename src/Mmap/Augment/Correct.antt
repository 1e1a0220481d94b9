-- ===== src/Mmap/Augment/Correct.antt =====
-- augment_sequence as an operation on what a sequence says of each address.
use liballocs.Common.{
  ℕ, ◌+◌, ◌-◌, ◌%◌, ◌≤◌, ◌<◌, ◌≡◌, ◌⊎◌, refl, ap, subst, ◌∙◌, Bool, true, false, not, ◌&&◌, ◌||◌,
  some, ltb, leb, ◌==◌, if◌then◌else◌, List, arith, Bool-cases, inl, inr, >>=-some, require-true,
}
use liballocs.Mmap.{MappingEntry, MappingSequence, check_mapping_sequence_sanity}
use liballocs.Mmap.Entries.{Covers, check-Contiguous}
use liballocs.Mmap.Augment.{
  Mapping, augment_branches, augment_sequence, may_replace, may_follow, append_entry,
  is_clean_extension, overlaps, overlap_branch,
}
use liballocs.Mmap.Augment.Search.{}
use liballocs.Mmap.Augment.Views.{}
use liballocs.Mmap.Augment.Append.{append_entry-Extended}
use liballocs.Mmap.Augment.Overlap.{Extended, Outcome, accepted, overlap_branch-Outcome}

module _ (object_below copied : ℕ → ℕ) (m : Mapping) (s : MappingSequence) (es : List MappingEntry)
    (v : Covers s es) (pos : 0 < m.begin) (nonempty : m.begin < m.end) where
  augment_run :
      (debug : Bool) (r : Bool) (s' : MappingSequence)
      → augment_branches object_below copied debug m s ≡ some (r, s')
      → check_mapping_sequence_sanity s' ≡ true
      → augment_sequence object_below copied debug m s ≡ some (r, s')
  unfolding augment_sequence
  augment_run debug r s' run sane =
      let sane0 = check-Contiguous s es v.0 v.2 in
      require-true (not debug || check_mapping_sequence_sanity s) _ (ground arith)
      ∙ >>=-some _ run
          (require-true (not debug || check_mapping_sequence_sanity s') _ (ground arith))

  -- the flag and the sequence that the branches leave
  abbrev Ends : (debug : Bool) → Type 0
  Ends debug =
      (r : Bool) × (s' : MappingSequence) × (augment_branches object_below copied debug m s
        ≡ some (r, s'))
      × Outcome m s r s'

  abbrev pub joins : Bool
  joins =
      (is_clean_extension object_below copied m s || overlaps s.begin s.end m.begin m.end)
      && leb s.begin m.begin
      && not (s.nused == 8)

  few : joins ≡ true → s.nused < 8
  few z = let n : s.nused ≤ 8 = omega (arith, v.0.0, v.1) in ground arith

  inside : joins ≡ true → is_clean_extension object_below copied m s ≡ false → m.begin < s.end
  inside z dirty = ground arith

  ends :
      joins ≡ true
      → is_clean_extension object_below copied m s ≡ false
      → (m.end ≤ s.end) ⊎ (s.end ≤ m.begin)
      → m.end ≤ s.end
  ends z dirty u = let i = inside z dirty in ground arith

  pub dirty_run :
      (debug : Bool)
      → joins ≡ true
      → is_clean_extension object_below copied m s ≡ false
      → augment_branches object_below copied debug m s
        ≡ overlap_branch object_below copied debug m s
  unfolding augment_branches
  dirty_run debug z dirty = rw (z, dirty) refl

  augment_branches-Outcome : (debug : Bool) → (m.end ≤ s.end) ⊎ (s.end ≤ m.begin) → Ends debug
  unfolding augment_branches
  augment_branches-Outcome debug u = elim (Bool-cases joins) [
    | inr z ↦ (false, s, rw z refl, refl)
    | inl z ↦ elim (Bool-cases (is_clean_extension object_below copied m s)) [
      | inl clean ↦ elim (Bool-cases (may_follow object_below copied m s)) [
        | inl f ↦ (
          true,
          append_entry object_below copied m s,
          rw (z, clean, f) refl,
          append_entry-Extended object_below copied m s es v pos nonempty (few z) clean
              (ground arith),
        )
        | inr f ↦ (false, s, rw (z, clean, f) refl, refl)
      ]
      | inr dirty ↦
          let (first, last, s', run, out) =
            overlap_branch-Outcome object_below copied debug m s es v (few z) nonempty
              (ground arith) (inside z dirty) (ends z dirty u) in
          (accepted object_below copied first last m s, s', dirty_run debug z dirty ∙ run, out)
    ]
  ]

  -- Whatever the flag says, the debug checks pass, and the sequence is as it says.
  augment_sequence-Outcome_of :
      (debug : Bool)
      → Ends debug
      → (r : Bool) × (s' : MappingSequence) × (augment_sequence object_below copied debug m s
          ≡ some (r, s'))
        × Outcome m s r s'
  augment_sequence-Outcome_of debug (r, s', run, out) =
      (r, s', augment_run debug r s' run (sane r s' out), out)
    where
      sane :
          (r : Bool) (s' : MappingSequence)
          → Outcome m s r s'
          → check_mapping_sequence_sanity s' ≡ true
      sane true s' out = check-Contiguous s' out.0.0 out.0.1.0 out.0.1.2
      sane false s' out = rw out (check-Contiguous s es v.0 v.2)

  clean_run :
      (debug : Bool)
      → joins ≡ true
      → is_clean_extension object_below copied m s ≡ true
      → may_follow object_below copied m s ≡ true
      → augment_branches object_below copied debug m s
        ≡ some (true, append_entry object_below copied m s)
  unfolding augment_branches
  clean_run debug z clean f = rw (z, clean, f) refl

  module _ (unnamed : s.filename ≡ 0) (unnamed' : m.filename ≡ 0) where
    may_follow-unnamed : may_follow object_below copied m s ≡ true
    unfolding may_follow
    may_follow-unnamed = rw (unnamed, unnamed') refl

    pub may_replace-unnamed :
        (first last : ℕ) → may_replace object_below copied first last m s ≡ true
    unfolding may_replace
    may_replace-unnamed first last = rw (unnamed, unnamed') refl

    pub accepted-unnamed :
        (first last : ℕ) → s.nused ≤ 6 → accepted object_below copied first last m s ≡ true
    accepted-unnamed first last h =
        rw (may_replace-unnamed first last)
          (spare (not ((s.mappings first).begin == m.begin)) (not ((s.mappings last).end == m.end)))
      where
        spare :
            (p q : Bool)
            → not (
                ltb
                  ((8 + 4294967296 - s.nused) % 4294967296)
                  ((if p then 1 else 0) + (if q then 1 else 0)))
              ≡ true
        spare p q = ground arith

    ends_true :
        (debug : Bool)
        → s.nused ≤ 6
        → s.begin ≤ m.begin
        → m.begin ≤ s.end
        → (m.end ≤ s.end) ⊎ (s.end ≤ m.begin)
        → (s' : MappingSequence) × (augment_branches object_below copied debug m s
            ≡ some (true, s'))
          × Extended m s s'
    ends_true debug h lo up u =
        let z : joins ≡ true = ground arith in
        elim (Bool-cases (is_clean_extension object_below copied m s)) [
          | inl clean ↦ (
            append_entry object_below copied m s,
            clean_run debug z clean may_follow-unnamed,
            append_entry-Extended object_below copied m s es v pos nonempty (few z) clean lo,
          )
          | inr dirty ↦
              let (first, last, s', run, out) =
                overlap_branch-Outcome object_below copied debug m s es v (few z) nonempty lo
                  (inside z dirty) (ends z dirty u) in
              let a = accepted-unnamed first last h in
              (
                s',
                dirty_run debug z dirty ∙ run ∙ ap (λ r. some (r, s')) a,
                subst (λ r. Outcome m s r s') a out,
              )
        ]

module _ (object_below copied : ℕ → ℕ) (debug : Bool) (m : Mapping) (s : MappingSequence)
    (es : List MappingEntry) (v : Covers s es) (pos : 0 < m.begin) (nonempty : m.begin < m.end)
    (u : (m.end ≤ s.end) ⊎ (s.end ≤ m.begin)) where
  -- For a sequence of at most eight abutting entries that cover its range, none if the range is
  -- empty, and a nonempty mapping, not at address 0, that does not begin before the range's end and
  -- end after it, augment_sequence returns, assertions included. If it returns false the sequence is
  -- unchanged. If it returns true the sequence again has at most eight abutting entries that cover
  -- its range; the range begins where it did, or at the mapping if it had no begin, and ends at the
  -- later of the two ends; the addresses of the mapping have the mapping's attributes, and all others
  -- those that they had.
  pub augment_sequence-Outcome :
      (r : Bool) × (s' : MappingSequence) × (augment_sequence object_below copied debug m s
        ≡ some (r, s'))
      × Outcome m s r s'
  augment_sequence-Outcome =
      augment_sequence-Outcome_of object_below copied m s es v pos nonempty debug
        (augment_branches-Outcome object_below copied m s es v pos nonempty debug u)

  -- Under the same conditions, if neither the sequence nor the mapping has a filename, at most six
  -- entries are in use, and the mapping begins in the range or at its end, augment_sequence returns
  -- true with the mapping as part of the sequence.
  pub augment_sequence-accepts :
      s.filename ≡ 0
      → m.filename ≡ 0
      → s.nused ≤ 6
      → s.begin ≤ m.begin
      → m.begin ≤ s.end
      → (s' : MappingSequence) × (augment_sequence object_below copied debug m s ≡ some (true, s'))
        × Extended m s s'
  augment_sequence-accepts unnamed unnamed' h lo up =
      let (s', run, out) =
        ends_true object_below copied m s es v pos nonempty unnamed unnamed' debug h lo up u in
      (
        s',
        augment_run object_below copied m s es v pos nonempty debug true s' run
            (check-Contiguous s' out.0.0 out.0.1.0 out.0.1.2),
        out,
      )
