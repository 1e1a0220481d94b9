-- ===== src/Mmap/Augment/Search.antt =====
-- The searches of augment_sequence for the entries that a new mapping overlaps, and what the new list
-- of entries says of each address.
use mathlib.Core.List.{}
use liballocs.Common.{
  ℕ, suc, ◌+◌, ◌≤◌, ◌<◌, ◌≡◌, refl, ap, sym, ◌∙◌, some, leb, List, [], ◌∷◌, ◌++◌, length, arith,
  Bool-cases, inl, inr,
}
use liballocs.Mmap.{MappingEntry}
use liballocs.Mmap.Entries.{Holds, Contiguous}
use liballocs.Mmap.Augment.{Mapping, first_overlapped, last_overlapped}
use liballocs.Mmap.Augment.Stages.{before, after, head_or}

-- The search upwards stops at the first entry that ends at or after the new mapping's begin.
abbrev pub FirstAt :
    (t : ℕ → MappingEntry) (m : Mapping) (i b e : ℕ) (es us rs : List MappingEntry)
    (f : MappingEntry)
    → Type 0
FirstAt t m i b e es us rs f =
    (es ≡ us ++ f ∷ rs)
    × (first_overlapped (length es) t m i ≡ some (i + length us))
    × Contiguous b f.begin us
    × Contiguous f.begin e (f ∷ rs)
    × (f.begin ≤ m.begin)
    × (m.begin ≤ f.end)

pub first_overlapped-FirstAt :
    (t : ℕ → MappingEntry) (m : Mapping) (i b e : ℕ) (es : List MappingEntry)
    → Holds t i es
    → Contiguous b e es
    → b ≤ m.begin
    → m.begin < e
    → m.begin < m.end
    → (us : List MappingEntry) × (rs : List MappingEntry) × (f : MappingEntry) × FirstAt t m i b e
        es us rs f
unfolding first_overlapped
first_overlapped-FirstAt t m i b e [] h c p q r = absurd (omega arith)
first_overlapped-FirstAt t m i b e (x ∷ xs) h c p q r = elim (Bool-cases (leb m.begin x.end)) [
  | inl z ↦ ([], xs, x, ground arith)
  | inr z ↦
      let (us, rs, f, rest) =
        first_overlapped-FirstAt t m (i + 1) x.end e xs h.1 c.3 (ground arith) q r in
      (
        x ∷ us,
        rs,
        f,
        (
          ap (λ ys. x ∷ ys) rest.0,
          ground (arith, rest.1),
          (c.0, c.1, c.2, rest.2),
          rest.3,
          rest.4,
          rest.5,
        ),
      )
]

-- The search downwards stops at the last entry that begins before the new mapping's end.
abbrev pub LastAt :
    (t : ℕ → MappingEntry) (m : Mapping) (i b e : ℕ) (f : MappingEntry)
    (es bs zs : List MappingEntry) (l : MappingEntry)
    → Type 0
LastAt t m i b e f es bs zs l =
    (es ≡ bs ++ l ∷ zs)
    × (head_or l bs ≡ f)
    × (last_overlapped t m (i + length es) ≡ some (i + length bs))
    × Contiguous b l.begin bs
    × Contiguous l.begin e (l ∷ zs)
    × (l.begin < m.end)
    × (m.end ≤ l.end)

last_overlapped-skip :
    (t : ℕ → MappingEntry) (m : Mapping) (i b e : ℕ) (es : List MappingEntry)
    → Holds t i es
    → Contiguous b e es
    → m.end ≤ b
    → last_overlapped t m (i + length es) ≡ last_overlapped t m i
unfolding last_overlapped
last_overlapped-skip t m i b e [] h c p = ap (last_overlapped t m) (omega arith)
last_overlapped-skip t m i b e (x ∷ xs) h c p =
    let next : last_overlapped t m (suc i) ≡ last_overlapped t m i = ground arith in
    ap (last_overlapped t m) (let s : i + suc (length xs) ≡ i + 1 + length xs = omega arith in s)
    ∙ last_overlapped-skip t m (i + 1) x.end e xs h.1 c.3 (omega arith)
    ∙ ap (last_overlapped t m) (let s : i + 1 ≡ suc i = omega arith in s)
    ∙ next

-- the entry at hand is the last
last_overlapped-here :
    (t : ℕ → MappingEntry) (m : Mapping) (i b e : ℕ) (x : MappingEntry) (xs : List MappingEntry)
    → Holds t i (x ∷ xs)
    → Contiguous b e (x ∷ xs)
    → b < m.end
    → m.begin ≤ x.end
    → m.end ≤ x.end
    → LastAt t m i b e x (x ∷ xs) [] xs x
unfolding last_overlapped
last_overlapped-here t m i b e x xs h c p r z =
    let here : last_overlapped t m (suc i) ≡ some i = ground arith in
    (
      refl,
      refl,
      ap (last_overlapped t m) (let s : i + suc (length xs) ≡ i + 1 + length xs = omega arith in s)
          ∙ last_overlapped-skip t m (i + 1) x.end e xs h.1 c.3 z
          ∙ ap (last_overlapped t m) (let s : i + 1 ≡ suc i = omega arith in s)
          ∙ here
          ∙ ap some (omega arith),
      sym c.0,
      (refl, ground arith, ground arith, c.3),
      ground arith,
      z,
    )

-- the last entry is further up
last_overlapped-later :
    (t : ℕ → MappingEntry) (m : Mapping) (i b e : ℕ) (x y : MappingEntry)
    (ys bs zs : List MappingEntry) (l : MappingEntry)
    → Contiguous b e (x ∷ y ∷ ys)
    → LastAt t m (i + 1) x.end e y (y ∷ ys) bs zs l
    → LastAt t m i b e x (x ∷ y ∷ ys) (x ∷ bs) zs l
last_overlapped-later t m i b e x y ys bs zs l c rest = (
  ap (λ ts. x ∷ ts) rest.0,
  refl,
  ap (last_overlapped t m)
        (let s : i + suc (suc (length ys)) ≡ i + 1 + suc (length ys) = omega arith in s)
      ∙ rest.2
      ∙ ap some (omega arith),
  (c.0, c.1, c.2, rest.3),
  rest.4,
  rest.5,
  rest.6,
)

pub last_overlapped-LastAt :
    (t : ℕ → MappingEntry) (m : Mapping) (i b e : ℕ) (x : MappingEntry) (xs : List MappingEntry)
    → Holds t i (x ∷ xs)
    → Contiguous b e (x ∷ xs)
    → b < m.end
    → m.end ≤ e
    → m.begin ≤ x.end
    → (bs : List MappingEntry) × (zs : List MappingEntry) × (l : MappingEntry) × LastAt t m i b e x
        (x ∷ xs)
        bs
        zs
        l
last_overlapped-LastAt t m i b e x [] h c p q r =
    ([], [], x, last_overlapped-here t m i b e x [] h c p r (omega arith))
last_overlapped-LastAt t m i b e x (y ∷ ys) h c p q r = elim (Bool-cases (leb m.end x.end)) [
  | inl z ↦ ([], y ∷ ys, x, last_overlapped-here t m i b e x (y ∷ ys) h c p r (ground arith))
  | inr z ↦
      let (bs, zs, l, rest) =
        last_overlapped-LastAt t m (i + 1) x.end e y ys h.1 c.3 (ground arith) q (ground arith) in
      (x ∷ bs, zs, l, last_overlapped-later t m i b e x y ys bs zs l c rest)
]

pub Contiguous-append :
    (b c e : ℕ) (xs ys : List MappingEntry)
    → Contiguous b c xs
    → Contiguous c e ys
    → Contiguous b e (xs ++ ys)
Contiguous-append b c e [] ys h k = let p : c ≡ b = sym h in rw (← p) k
Contiguous-append b c e (x ∷ xs) ys h k = (h.0, h.1, h.2, Contiguous-append x.end c e xs ys h.3 k)

pub before-Contiguous :
    (f : MappingEntry) (b : ℕ) → 0 < f.begin → f.begin ≤ b → Contiguous f.begin b (before f b)
before-Contiguous f b p q = ground arith

pub after-Contiguous :
    (l : MappingEntry) (b : ℕ) → 0 < b → b ≤ l.end → Contiguous b l.end (after l b)
after-Contiguous l b p q = ground arith
