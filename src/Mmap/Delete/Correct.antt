-- ===== src/Mmap/Delete/Correct.antt =====
-- What delete_mapping_sequence_span leaves of a sequence.
use mathlib.Core.List.{map}
use liballocs.Common.{
  ℕ, ◌+◌, ◌-◌, ◌≤◌, ◌<◌, ◌≡◌, ◌⊎◌, refl, ap, sym, ◌∙◌, Bool, true, false, not, ◌&&◌, ◌||◌, none,
  some, leb, ltb, if◌then◌else◌, List, [], ◌∷◌, length, arith, inl, inr, Bool-cases, length-map,
  require-true, >>=-some,
}
use liballocs.Mmap.{MappingEntry, MappingSequence, check_mapping_sequence_sanity}
use liballocs.Mmap.Entries.{
  Holds, Represents, Contiguous, IsSequence, Contiguous-le, view, view-list_view, check-Contiguous,
  check-nil, last_end,
}
use liballocs.Mmap.Delete.{
  delete_from_entries, compact, splits_mapping, delete_mapping_sequence_span, clip_bounds,
}
use liballocs.Mmap.Delete.Trim.{
  trimmed, length-trimmed, Holds-trimmed, unsplit, last_begin, clip_bounds-eq, trimmed-Contiguous,
  trimmed-list_view,
}
use liballocs.Mmap.Delete.Loops.{
  trim, trimmed_begin, Trimmed, Trims, delete_from_entries-Trimmed, compact-Compacted,
}

Trimmed-Holds :
    (addr len : ℕ) (s s1 : MappingSequence) (es : List MappingEntry)
    → Holds s.mappings 0 es
    → length es ≤ 8
    → Trimmed addr len 0 8 s s1
    → Holds s1.mappings 0 (map (trim addr len) es)
Trimmed-Holds addr len s s1 es h fits t =
    Holds-trimmed addr len s.mappings s1.mappings 0 es h (λ k lo hi.
      let inside : (leb 0 k && ltb k 8) ≡ true = ground arith in
      t.4 k ∙ ap (λ b. if b then trim addr len (s.mappings k) else s.mappings k) inside)

-- The sequence after a deletion: where its bounds are, and what it says of each address.
abbrev pub Deleted : (addr length : ℕ) (s s' : MappingSequence) → Type 0
Deleted addr len s s' =
    (s'.begin ≡ (if leb addr s.begin then addr + len else s.begin))
    × (s'.end ≡ (if leb s.end (addr + len) then addr else s.end))
    × (s'.filename ≡ s.filename)
    × ((a : ℕ) → view s' a ≡ (if leb addr a && ltb a (addr + len) then none else view s a))

IsSequence-check :
    (s : MappingSequence) (es : List MappingEntry)
    → IsSequence s es
    → check_mapping_sequence_sanity s ≡ true
IsSequence-check s es (r, fits, inl none_left) = check-nil s (r.0 ∙ ap length none_left)
IsSequence-check s es (r, fits, inr c) = check-Contiguous s es r c

-- the last steps, from the sequence that the loops leave
clip-Deleted :
    (addr len : ℕ) (s s2 : MappingSequence) (es : List MappingEntry)
    → Represents s es
    → length es ≤ 8
    → Contiguous s.begin s.end es
    → addr < s.end
    → s.begin ≤ addr + len
    → (addr ≤ s.begin) ⊎ (s.end ≤ addr + len)
    → Represents s2 (trimmed addr len es)
    → s2.filename ≡ s.filename
    → ((clip_bounds addr len s2).begin ≡ (if leb addr s.begin then addr + len else s.begin))
      × ((clip_bounds addr len s2).end ≡ (if leb s.end (addr + len) then addr else s.end))
    → IsSequence (clip_bounds addr len s2) (trimmed addr len es)
      × Deleted addr len s (clip_bounds addr len s2)
unfolding clip_bounds
clip-Deleted addr len s s2 es r fits c p q u r2 f bounds =
    let s3 = clip_bounds addr len s2 in
    let cover = trimmed-Contiguous addr len s.begin s.end es c p q u in
    (
      (r2, omega (arith, length-trimmed addr len es), rw bounds.0 (rw bounds.1 cover)),
      (
        bounds.0,
        bounds.1,
        f,
        λ a.
            view-list_view s3 (trimmed addr len es) a r2
            ∙ trimmed-list_view addr len s.begin s.end a es c u
            ∙ ap (λ w. if leb addr a && ltb a (addr + len) then none else w)
                (sym (view-list_view s es a r)),
      ),
    )

-- the run, from its parts
delete_run :
    (debug : Bool) (addr len : ℕ) (s s1 s2 : MappingSequence)
    → check_mapping_sequence_sanity s ≡ true
    → delete_from_entries addr len debug 8 0 s ≡ some s1
    → compact (s1.nused + 1) 0 s1 ≡ some s2
    → check_mapping_sequence_sanity (clip_bounds addr len s2) ≡ true
    → delete_mapping_sequence_span debug s addr len ≡ some (clip_bounds addr len s2)
unfolding delete_mapping_sequence_span
delete_run debug addr len s s1 s2 sane run1 run2 sane' =
    require-true (not debug || check_mapping_sequence_sanity s) _ (ground arith)
    ∙ >>=-some _ run1 (
        >>=-some _ run2 (
          require-true (not debug || check_mapping_sequence_sanity (clip_bounds addr len s2)) _
            (ground arith)))

module _ (debug : Bool) (addr len : ℕ) (s : MappingSequence) (x : MappingEntry)
    (xs : List MappingEntry) (r : Represents s (x ∷ xs)) (fits : length (x ∷ xs) ≤ 8)
    (c : Contiguous s.begin s.end (x ∷ xs)) (p : addr < s.end) (q : s.begin ≤ addr + len)
    (u : (addr ≤ s.begin) ⊎ (s.end ≤ addr + len)) where
  bounds_lem :
      (s1 s2 : MappingSequence)
      → Trimmed addr len 0 8 s s1
      → s2.begin ≡ s1.begin
      → s2.end ≡ s1.end
      → ((clip_bounds addr len s2).begin ≡ (if leb addr s.begin then addr + len else s.begin))
        × ((clip_bounds addr len s2).end ≡ (if leb s.end (addr + len) then addr else s.end))
  unfolding clip_bounds
  bounds_lem s1 s2 t e f =
      let y = s.mappings (s.nused - 1) in
      let last = last_end s.mappings 0 (s.nused - 1) s.begin s.end x xs r.1 c (omega arith) in
      let low = last_begin s.mappings 0 (s.nused - 1) s.begin s.end x xs r.1 c (omega arith) in
      clip_bounds-eq addr len s.begin s.end s2.begin s2.end x y c.0 c.2 last low.0 low.1
        (Contiguous-le x.end s.end xs c.3) p q u
        (e ∙ t.2 ∙ ap (λ z. trimmed_begin addr len z s.begin) r.1.0) (f ∙ t.3 ∙ ground arith)

  -- Deleting a span that meets a sequence of at most eight abutting entries and holds one of the
  -- ends of its range succeeds, assertions included, unless the span would split an entry that is
  -- no longer in use. The sequence then again consists of at most eight abutting entries that cover
  -- its range, or of none; the span is gone from its range; and each address outside the span has
  -- the attributes it had, while no address within it has any.
  pub delete_mapping_sequence_span-Deleted :
      ((k : ℕ) → s.nused ≤ k → k < 8 → splits_mapping addr len (s.mappings k) ≡ false)
      → (s' : MappingSequence) × (es : List MappingEntry) × (delete_mapping_sequence_span debug s
            addr len
          ≡ some s')
        × IsSequence s' es
        × Deleted addr len s s'
  unfolding delete_mapping_sequence_span
  delete_mapping_sequence_span-Deleted stale =
      let whole : (k : ℕ) → 0 ≤ k → k < 0 + 8 → splits_mapping addr len (s.mappings k) ≡ false =
        λ k lo hi. elim (Bool-cases (ltb k s.nused)) [
          | inl i ↦ unsplit addr len s.mappings 0 s.begin s.end (x ∷ xs) r.1 c u k lo (ground arith)
          | inr i ↦ stale k (ground arith) hi
        ] in
      finish (delete_from_entries-Trimmed debug addr len 8 0 s whole)
    where
      finish :
          Trims debug addr len 8 0 s
          → (s' : MappingSequence) × (es : List MappingEntry) × (delete_mapping_sequence_span debug
                s addr len
              ≡ some s')
            × IsSequence s' es
            × Deleted addr len s s'
      finish (s1, run1, t) =
          let held = Trimmed-Holds addr len s s1 (x ∷ xs) r.1 fits t in
          let count : s1.nused ≡ length (map (trim addr len) (x ∷ xs)) =
            t.0 ∙ r.0 ∙ sym (length-map (trim addr len) (x ∷ xs)) in
          let (s2, run2, left) =
            compact-Compacted (s1.nused + 1) 0 [] (map (trim addr len) (x ∷ xs)) s1 (omega arith)
              refl (count ∙ omega arith) tt held in
          let bounds = bounds_lem s1 s2 t left.1 left.2 in
          let done =
            clip-Deleted addr len s s2 (x ∷ xs) r fits c p q u left.0 (left.3 ∙ t.1) bounds in
          (
            clip_bounds addr len s2,
            trimmed addr len (x ∷ xs),
            delete_run debug addr len s s1 s2 (check-Contiguous s (x ∷ xs) r c) run1 run2
                (IsSequence-check (clip_bounds addr len s2) _ done.0),
            done.0,
            done.1,
          )
