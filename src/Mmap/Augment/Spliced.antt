-- ===== src/Mmap/Augment/Spliced.antt =====
-- The list of entries that augment_sequence leaves when it replaces a part of a sequence.
use mathlib.Core.List.{append_assoc}
use liballocs.Common.{
  ℕ, ◌+◌, ◌≤◌, ◌<◌, ◌≡◌, refl, ap, sym, ◌∙◌, true, false, not, ◌&&◌, some, ltb, leb, ◌==◌,
  if◌then◌else◌, List, [], ◌∷◌, ◌++◌, length, length-append, arith, Bool-cases, inl, inr,
}
use liballocs.Mmap.{MappingEntry}
use liballocs.Mmap.Entries.{Contiguous, list_view, attributes}
use liballocs.Mmap.Augment.{Mapping, new_entry}
use liballocs.Mmap.Augment.Splice.{}
use liballocs.Mmap.Augment.Stages.{before, after}
use liballocs.Mmap.Augment.Search.{Contiguous-append, before-Contiguous, after-Contiguous}
use liballocs.Mmap.Augment.Views.{view-below, view-above, view-within}

-- the list that the branch for an overlap leaves
abbrev pub spliced :
    Mapping → (f l : MappingEntry) → (us zs : List MappingEntry) → List MappingEntry
spliced m f l us zs = (us ++ before f m.begin) ++ new_entry m ∷ (after l m.end ++ zs)

module _ (m : Mapping) (b e : ℕ) (es us rs bs zs : List MappingEntry) (f l : MappingEntry)
    (some_m : m.begin < m.end) (pos : 0 < m.begin) (split : es ≡ us ++ f ∷ rs)
    (cu : Contiguous b f.begin us) (cf : Contiguous f.begin e (f ∷ rs)) (lo : f.begin ≤ m.begin)
    (lo' : m.begin ≤ f.end) (split' : f ∷ rs ≡ bs ++ l ∷ zs) (cb : Contiguous f.begin l.begin bs)
    (cl : Contiguous l.begin e (l ∷ zs)) (hi : l.begin < m.end) (hi' : m.end ≤ l.end) where
  lower-Contiguous : Contiguous b m.begin (us ++ before f m.begin)
  lower-Contiguous =
      Contiguous-append b f.begin m.begin us (before f m.begin) cu
        (before-Contiguous f m.begin cf.1 lo)

  upper-Contiguous : Contiguous m.begin e (new_entry m ∷ (after l m.end ++ zs))
  upper-Contiguous = (
    refl,
    pos,
    some_m,
    Contiguous-append m.end l.end e (after l m.end) zs (after-Contiguous l m.end (omega arith) hi')
        cl.3,
  )

  pub spliced-Contiguous : Contiguous b e (spliced m f l us zs)
  spliced-Contiguous =
      Contiguous-append b m.begin e (us ++ before f m.begin) _ lower-Contiguous upper-Contiguous

  pub spliced-list_view :
      (a : ℕ)
      → list_view (spliced m f l us zs) a
        ≡ (if leb m.begin a && ltb a m.end then some (attributes (new_entry m)) else list_view es a)
  spliced-list_view a = elim (Bool-cases (ltb a m.begin)) [
    | inl z ↦
        let out : (leb m.begin a && ltb a m.end) ≡ false = ground arith in
        rw out (
          view-below a m.begin e e f us rs _ cf lo' upper-Contiguous (ground arith)
          ∙ ap (λ ts. list_view ts a) (sym split))
    | inr z ↦ elim (Bool-cases (ltb a m.end)) [
      | inl w ↦
          let ins : (leb m.begin a && ltb a m.end) ≡ true = ground arith in
          rw ins (
            view-within a b (new_entry m) (us ++ before f m.begin) (after l m.end ++ zs)
              lower-Contiguous ins)
      | inr w ↦
          let out : (leb m.begin a && ltb a m.end) ≡ false = ground arith in
          rw out (above a (ground arith))
    ]
  ]
    where
      above : (a : ℕ) → m.end ≤ a → list_view (spliced m f l us zs) a ≡ list_view es a
      above a p =
          ap (λ ts. list_view ts a)
            (sym (append_assoc (us ++ before f m.begin) (new_entry m ∷ []) (after l m.end ++ zs)))
          ∙ view-above a m.end b b e l ((us ++ before f m.begin) ++ new_entry m ∷ []) (us ++ bs) zs
              (Contiguous-append b m.begin m.end (us ++ before f m.begin) (new_entry m ∷ [])
                lower-Contiguous (refl, pos, some_m, refl))
              (Contiguous-append b f.begin l.begin us bs cu cb) (omega arith) p
          ∙ ap (λ ts. list_view ts a)
              (append_assoc us bs (l ∷ zs) ∙ ap (λ ts. us ++ ts) (sym split') ∙ sym split)

pub length-spliced :
    (m : Mapping) (f l : MappingEntry) (us bs zs es : List MappingEntry)
    → es ≡ us ++ (bs ++ l ∷ zs)
    → length (spliced m f l us zs)
      ≤ length es
        + ((if not (f.begin == m.begin) then 1 else 0) + (if not (l.end == m.end) then 1 else 0))
length-spliced m f l us bs zs es e = ground (
  arith,
  ap length e,
  length-append us (bs ++ l ∷ zs),
  length-append bs (l ∷ zs),
  length-append (us ++ before f m.begin) (new_entry m ∷ (after l m.end ++ zs)),
  length-append us (before f m.begin),
  length-append (after l m.end) zs,
)
