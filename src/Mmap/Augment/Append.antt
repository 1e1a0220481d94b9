-- ===== src/Mmap/Augment/Append.antt =====
-- The branch of augment_sequence for a mapping that begins at the end of the sequence.
use liballocs.Common.{
  ℕ, ◌≤◌, ◌<◌, ◌≡◌, refl, ap, sym, subst, ◌∙◌, true, false, ◌&&◌, ◌||◌, Option, none, some, ltb,
  leb, ◌==◌, if◌then◌else◌, List, [], ◌∷◌, ◌++◌, length-append, arith, Bool-cases, inl, inr,
}
use liballocs.Mmap.{MappingEntry, MappingSequence, in_mapping}
use liballocs.Mmap.Entries.{
  Holds-frame, Holds-append, Represents, Contiguous, Contiguous-le, Covers, list_view, attributes,
  view-list_view,
}
use liballocs.Mmap.Augment.{Mapping, new_entry, append_entry, is_clean_extension}
use liballocs.Mmap.Augment.Search.{Contiguous-append}
use liballocs.Mmap.Augment.Views.{view-within, list_view-append, list_view-cons, or_else}
use liballocs.Mmap.Augment.Overlap.{Extended}

or_else-none : {A : Type 0} (x : Option A) → or_else x none ≡ x
or_else-none none = refl
or_else-none (some a) = refl

append-list_view :
    (a b : ℕ) (x : MappingEntry) (es : List MappingEntry)
    → Contiguous b x.begin es
    → list_view (es ++ x ∷ []) a
      ≡ (if leb x.begin a && ltb a x.end then some (attributes x) else list_view es a)
append-list_view a b x es c = elim (Bool-cases (in_mapping x a)) [
  | inl i ↦ rw i (view-within a b x es [] c i)
  | inr o ↦ rw o (
      list_view-append a es (x ∷ [])
      ∙ ap (or_else (list_view es a))
          (list_view-cons a x [] ∙ ap (λ t. if t then some (attributes x) else none) o)
      ∙ or_else-none (list_view es a))
]

-- the entries before a mapping that begins at the end
clean-Contiguous :
    (b e c : ℕ) (es : List MappingEntry)
    → Contiguous b e es
    → ((e == 0) || (e == c)) ≡ true
    → Contiguous (if b == 0 then c else b) c es
clean-Contiguous b e c [] k clean = ground arith
clean-Contiguous b e c (x ∷ xs) k clean =
    let le = Contiguous-le x.end e xs k.3 in
    let same : e ≡ c = ground arith in
    let pos : (b == 0) ≡ false = ground arith in
    rw pos (k.0, k.1, k.2, subst (λ t. Contiguous x.end t xs) same k.3)

module _ (object_below copied : ℕ → ℕ) (m : Mapping) (s : MappingSequence) (es : List MappingEntry)
    (v : Covers s es) (pos : 0 < m.begin) (nonempty : m.begin < m.end) where
  append_entry-Represents :
      Represents (append_entry object_below copied m s) (es ++ new_entry m ∷ [])
  unfolding append_entry
  append_entry-Represents = (
    omega (arith, v.0.0, length-append es (new_entry m ∷ [])),
    Holds-append _ 0 s.nused es (new_entry m ∷ []) (omega (arith, v.0.0))
        (Holds-frame s.mappings _ 0 es v.0.1 (λ j lo hi. ground (arith, v.0.0))) (ground arith, tt),
  )

  append-Contiguous :
      Contiguous (if s.begin == 0 then m.begin else s.begin) m.begin es
      → Contiguous
          (append_entry object_below copied m s).begin
          (append_entry object_below copied m s).end
          (es ++ new_entry m ∷ [])
  unfolding append_entry
  append-Contiguous c =
      Contiguous-append _ m.begin m.end es (new_entry m ∷ []) c (refl, pos, nonempty, refl)

  begin_lem :
      (append_entry object_below copied m s).begin ≡ (if s.begin == 0 then m.begin else s.begin)
  unfolding append_entry
  begin_lem = refl

  end_lem :
      is_clean_extension object_below copied m s ≡ true
      → (append_entry object_below copied m s).end ≡ (if ltb s.end m.end then m.end else s.end)
  unfolding append_entry
  end_lem clean = ground arith

  -- The branch for a mapping that begins at the end of the sequence
  pub append_entry-Extended :
      s.nused < 8
      → is_clean_extension object_below copied m s ≡ true
      → s.begin ≤ m.begin
      → Extended m s (append_entry object_below copied m s)
  append_entry-Extended few clean lo =
      let s' = append_entry object_below copied m s in
      let c = clean-Contiguous s.begin s.end m.begin es v.2 clean in
      let r = append_entry-Represents in
      (
        (
          es ++ new_entry m ∷ [],
          (r, omega (arith, v.0.0, length-append es (new_entry m ∷ [])), append-Contiguous c),
        ),
        begin_lem,
        end_lem clean,
        λ a.
            view-list_view s' (es ++ new_entry m ∷ []) a r
            ∙ append-list_view a (if s.begin == 0 then m.begin else s.begin) (new_entry m) es c
            ∙ ap (λ w. if leb m.begin a && ltb a m.end then some (attributes (new_entry m)) else w)
                (sym (view-list_view s es a v.0)),
      )
