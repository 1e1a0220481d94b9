-- ===== src/Mmap/Augment/Views.antt =====
-- What a list of entries says of each address after a part of it was replaced.
use mathlib.Core.List.{append_assoc}
use liballocs.Common.{
  ℕ, ◌≤◌, ◌<◌, ◌≡◌, refl, ap, sym, ◌∙◌, Bool, true, false, ◌&&◌, Option, none, some, ltb, leb,
  if◌then◌else◌, List, [], ◌∷◌, ◌++◌, arith, Bool-cases, inl, inr,
}
use liballocs.Mmap.{MappingEntry, in_mapping}
use liballocs.Mmap.Entries.{
  Contiguous, entry_at-outside, list_view, attributes, Attributes, map_option,
}
use liballocs.Mmap.Augment.Stages.{before, after}
use liballocs.Mmap.Augment.Search.{}

abbrev pub or_else {ℓ} : {A : Type ℓ} → Option A → Option A → Option A
or_else none y = y
or_else (some x) y = some x

pub list_view-cons :
    (a : ℕ) (x : MappingEntry) (xs : List MappingEntry)
    → list_view (x ∷ xs) a ≡ (if in_mapping x a then some (attributes x) else list_view xs a)
list_view-cons a x xs = ground arith

pub list_view-append :
    (a : ℕ) (xs ys : List MappingEntry)
    → list_view (xs ++ ys) a ≡ or_else (list_view xs a) (list_view ys a)
list_view-append a [] ys = refl
list_view-append a (x ∷ xs) ys =
    ground (arith, list_view-cons a x xs, list_view-cons a x (xs ++ ys), list_view-append a xs ys)

list_view-outside :
    (b e a : ℕ) (es : List MappingEntry)
    → Contiguous b e es
    → (leb b a && ltb a e) ≡ false
    → list_view es a ≡ none
list_view-outside b e a es c h = ap (map_option attributes) (entry_at-outside b e a es c h)

before-list_view :
    (a b : ℕ) (f : MappingEntry)
    → list_view (before f b) a ≡ (if leb f.begin a && ltb a b then some (attributes f) else none)
before-list_view a b f = ground arith

after-list_view :
    (a b : ℕ) (l : MappingEntry)
    → list_view (after l b) a ≡ (if leb b a && ltb a l.end then some (attributes l) else none)
after-list_view a b l = ground arith

-- addresses below the new entry
below-list_view :
    (a b e : ℕ) (f : MappingEntry) (rs ts : List MappingEntry)
    → Contiguous f.begin e (f ∷ rs)
    → b ≤ f.end
    → a < b
    → list_view ts a ≡ none
    → or_else (list_view (before f b) a) (list_view ts a) ≡ list_view (f ∷ rs) a
below-list_view a b e f rs ts k q lt above = elim (Bool-cases (leb f.begin a)) [
  | inl z ↦
      let i : in_mapping f a ≡ true = ground arith in
      let i' : (leb f.begin a && ltb a b) ≡ true = ground arith in
      rw (before-list_view a b f, i', list_view-cons a f rs, i) refl
  | inr z ↦
      let i' : (leb f.begin a && ltb a b) ≡ false = ground arith in
      rw (before-list_view a b f, i', above)
        (sym (list_view-outside f.begin e a (f ∷ rs) k (ground arith)))
]

pub view-below :
    (a b c e : ℕ) (f : MappingEntry) (us rs ts : List MappingEntry)
    → Contiguous f.begin e (f ∷ rs)
    → b ≤ f.end
    → Contiguous b c ts
    → a < b
    → list_view ((us ++ before f b) ++ ts) a ≡ list_view (us ++ f ∷ rs) a
view-below a b c e f us rs ts k q kt lt =
    let above = list_view-outside b c a ts kt (ground arith) in
    ap (λ l. list_view l a) (append_assoc us (before f b) ts)
    ∙ list_view-append a us (before f b ++ ts)
    ∙ ap (or_else (list_view us a))
        (list_view-append a (before f b) ts ∙ below-list_view a b e f rs ts k q lt above)
    ∙ sym (list_view-append a us (f ∷ rs))

-- addresses above the new entry
above-list_view :
    (a b e : ℕ) (l : MappingEntry) (zs : List MappingEntry)
    → l.begin ≤ b
    → b ≤ a
    → list_view (after l b ++ zs) a ≡ list_view (l ∷ zs) a
above-list_view a b e l zs p q =
    let i : in_mapping l a ≡ (leb b a && ltb a l.end) = ground arith in
    list_view-append a (after l b) zs
    ∙ rw (after-list_view a b l, list_view-cons a l zs, i)
        (or_else-if (leb b a && ltb a l.end) (some (attributes l)) (list_view zs a))
  where
    or_else-if :
        (c : Bool) (x y : Option Attributes)
        → or_else (if c then some (attributes l) else none) y
          ≡ (if c then some (attributes l) else y)
    or_else-if true x y = refl
    or_else-if false x y = refl

pub view-above :
    (a b c d e : ℕ) (l : MappingEntry) (ps qs zs : List MappingEntry)
    → Contiguous c b ps
    → Contiguous d l.begin qs
    → l.begin ≤ b
    → b ≤ a
    → list_view (ps ++ (after l b ++ zs)) a ≡ list_view (qs ++ l ∷ zs) a
view-above a b c d e l ps qs zs kp kq p q =
    list_view-append a ps (after l b ++ zs)
    ∙ rw
        (
          list_view-outside c b a ps kp (ground arith),
          list_view-append a qs (l ∷ zs),
          list_view-outside d l.begin a qs kq (ground arith),
        )
        (above-list_view a b e l zs p q)

-- addresses of the new entry
pub view-within :
    (a c : ℕ) (x : MappingEntry) (ps zs : List MappingEntry)
    → Contiguous c x.begin ps
    → in_mapping x a ≡ true
    → list_view (ps ++ x ∷ zs) a ≡ some (attributes x)
view-within a c x ps zs k i =
    list_view-append a ps (x ∷ zs)
    ∙ rw (list_view-outside c x.begin a ps k (ground arith), list_view-cons a x zs, i) refl
