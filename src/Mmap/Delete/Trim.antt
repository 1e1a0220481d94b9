-- ===== src/Mmap/Delete/Trim.antt =====
-- What the deletion of a span leaves of a list of entries.
use mathlib.Core.List.{map}
use liballocs.Common.{
  ℕ, ◌+◌, ◌≤◌, ◌<◌, ◌≡◌, ◌⊎◌, refl, ap, ◌∙◌, Bool, true, false, not, ◌&&◌, none, some, leb, ltb,
  ◌==◌, if◌then◌else◌, List, [], ◌∷◌, length, arith, inl, inr, Bool-cases,
}
use liballocs.Mmap.{MappingEntry, in_mapping}
use liballocs.Mmap.Entries.{Holds, Contiguous, Contiguous-le, attributes, list_view}
use liballocs.Mmap.Delete.{splits_mapping}
use liballocs.Mmap.Delete.Loops.{trim, keep, trimmed_begin, trimmed_end}

abbrev pub trimmed : (addr length : ℕ) → List MappingEntry → List MappingEntry
trimmed addr len es = keep (map (trim addr len) es)

module _ (addr len : ℕ) where
  -- entries above the span stay
  trimmed-above :
      (b e : ℕ) (es : List MappingEntry)
      → Contiguous b e es
      → addr + len < b
      → trimmed addr len es ≡ es
  trimmed-above b e [] c h = refl
  trimmed-above b e (x ∷ xs) c h = ground (arith, trimmed-above x.end e xs)

  -- entries within the span go
  trimmed-within :
      (b e : ℕ) (es : List MappingEntry)
      → Contiguous b e es
      → addr ≤ b
      → e ≤ addr + len
      → trimmed addr len es ≡ []
  trimmed-within b e [] c h k = refl
  trimmed-within b e (x ∷ xs) c h k =
      ground (arith, Contiguous-le x.end e xs, trimmed-within x.end e xs)

  trimmed-prefix :
      (b e : ℕ) (es : List MappingEntry)
      → Contiguous b e es
      → addr ≤ b
      → b ≤ addr + len
      → addr + len < e
      → Contiguous (addr + len) e (trimmed addr len es)
  trimmed-prefix b e [] c h k l = absurd (omega arith)
  trimmed-prefix b e (x ∷ xs) c h k l =
      ground (arith, trimmed-above x.end e xs, trimmed-prefix x.end e xs)

  trimmed-suffix :
      (b e : ℕ) (es : List MappingEntry)
      → Contiguous b e es
      → b ≤ addr
      → addr ≤ e
      → e ≤ addr + len
      → Contiguous b addr (trimmed addr len es)
  trimmed-suffix b e [] c h k l = omega arith
  trimmed-suffix b e (x ∷ xs) c h k l =
      ground (arith, Contiguous-le x.end e xs, trimmed-within x.end e xs, trimmed-suffix x.end e xs)

  -- what is left of an entry has its addresses outside the span, and its attributes
  trim-cleared :
      (a : ℕ) (x : MappingEntry)
      → 0 < x.begin
      → splits_mapping addr len x ≡ false
      → ((trim addr len x).begin == 0) ≡ true
      → (in_mapping x a && not (leb addr a && ltb a (addr + len))) ≡ false
  trim-cleared a x pos whole z = ground arith

  trim-in_mapping :
      (a : ℕ) (x : MappingEntry)
      → splits_mapping addr len x ≡ false
      → ((trim addr len x).begin == 0) ≡ false
      → x.begin < x.end
      → in_mapping (trim addr len x) a ≡ (in_mapping x a && not (leb addr a && ltb a (addr + len)))
  trim-in_mapping a x whole z pos = ground arith

  trim-attributes :
      (x : MappingEntry)
      → ((trim addr len x).begin == 0) ≡ false
      → attributes (trim addr len x) ≡ attributes x
  trim-attributes x z = ground arith

view-cons_keep :
    (a : ℕ) (inside : Bool) (x y : MappingEntry) (xs ys : List MappingEntry)
    → list_view ys a ≡ (if inside then none else list_view xs a)
    → ((y.begin == 0) ≡ true → (in_mapping x a && not inside) ≡ false)
    → ((y.begin == 0) ≡ false
        → (in_mapping y a ≡ (in_mapping x a && not inside)) × (attributes y ≡ attributes x))
    → list_view (if y.begin == 0 then ys else y ∷ ys) a
      ≡ (if inside then none else list_view (x ∷ xs) a)
view-cons_keep a inside x y xs ys rest gone left = elim (Bool-cases (y.begin == 0)) [
  | inl z ↦ let g = gone z in rw z (view-skip a inside x xs ys rest g)
  | inr z ↦ let g = left z in rw z (view-take a inside x y xs ys rest g.0 g.1)
]
  where
    view-skip :
        (a : ℕ) (inside : Bool) (x : MappingEntry) (xs ys : List MappingEntry)
        → list_view ys a ≡ (if inside then none else list_view xs a)
        → (in_mapping x a && not inside) ≡ false
        → list_view ys a ≡ (if inside then none else list_view (x ∷ xs) a)
    view-skip a true x xs ys rest g = rest
    view-skip a false x xs ys rest g =
        let out : in_mapping x a ≡ false = ground (arith) in rw out rest

    view-take :
        (a : ℕ) (inside : Bool) (x y : MappingEntry) (xs ys : List MappingEntry)
        → list_view ys a ≡ (if inside then none else list_view xs a)
        → in_mapping y a ≡ (in_mapping x a && not inside)
        → attributes y ≡ attributes x
        → list_view (y ∷ ys) a ≡ (if inside then none else list_view (x ∷ xs) a)
    view-take a true x y xs ys rest g same =
        let out : in_mapping y a ≡ false = ground (arith) in rw out rest
    view-take a false x y xs ys rest g same = elim (Bool-cases (in_mapping x a)) [
      | inl i ↦ let i' : in_mapping y a ≡ true = ground arith in rw (i, i') (ap some same)
      | inr i ↦ let i' : in_mapping y a ≡ false = ground arith in rw (i, i') rest
    ]

module _ (addr len : ℕ) where
  -- the entries that are left say of an address what they said, unless the span holds it
  pub trimmed-list_view :
      (b e a : ℕ) (es : List MappingEntry)
      → Contiguous b e es
      → (addr ≤ b) ⊎ (e ≤ addr + len)
      → list_view (trimmed addr len es) a
        ≡ (if leb addr a && ltb a (addr + len) then none else list_view es a)
  trimmed-list_view b e a [] c h = ground arith
  trimmed-list_view b e a (x ∷ xs) c h =
      let le = Contiguous-le x.end e xs c.3 in
      let whole : splits_mapping addr len x ≡ false = ground arith in
      view-cons_keep a (leb addr a && ltb a (addr + len)) x (trim addr len x) xs
        (trimmed addr len xs) (trimmed-list_view x.end e a xs c.3 (ground arith))
        (trim-cleared addr len a x (omega arith) whole)
        (λ z. (trim-in_mapping addr len a x whole z (omega arith), trim-attributes addr len x z))

pub length-trimmed :
    (addr len : ℕ) (es : List MappingEntry) → length (trimmed addr len es) ≤ length es
length-trimmed addr len [] = omega arith
length-trimmed addr len (e ∷ es) = ground (arith, length-trimmed addr len es)

pub Holds-trimmed :
    (addr len : ℕ) (t t' : ℕ → MappingEntry) (i : ℕ) (es : List MappingEntry)
    → Holds t i es
    → ((k : ℕ) → i ≤ k → k < i + length es → t' k ≡ trim addr len (t k))
    → Holds t' i (map (trim addr len) es)
Holds-trimmed addr len t t' i [] h same = h
Holds-trimmed addr len t t' i (e ∷ es) h same = (
  same i (omega arith) (omega arith) ∙ ap (trim addr len) h.0,
  Holds-trimmed addr len t t' (i + 1) es h.1 (λ k a b. same k (omega arith) (omega arith)),
)

-- A span that holds one end of the range splits no entry.
pub unsplit :
    (addr len : ℕ) (t : ℕ → MappingEntry) (i b e : ℕ) (es : List MappingEntry)
    → Holds t i es
    → Contiguous b e es
    → (addr ≤ b) ⊎ (e ≤ addr + len)
    → (k : ℕ) → i ≤ k
    → k < i + length es
    → splits_mapping addr len (t k) ≡ false
unsplit addr len t i b e [] h c p k lo hi = absurd (omega arith)
unsplit addr len t i b e (x ∷ xs) h c p k lo hi = elim (Bool-cases (i == k)) [
  | inl q ↦
      let le = Contiguous-le x.end e xs c.3 in
      let at : t k ≡ x = ap t (ground arith) ∙ h.0 in ground arith
  | inr q ↦
      unsplit addr len t (i + 1) x.end e xs h.1 c.3 (ground arith) k (ground arith) (omega arith)
]

pub last_begin :
    (t : ℕ → MappingEntry) (i j b e : ℕ) (x : MappingEntry) (xs : List MappingEntry)
    → Holds t i (x ∷ xs)
    → Contiguous b e (x ∷ xs)
    → j ≡ i + length xs
    → (b ≤ (t j).begin) × ((t j).begin < e)
last_begin t i j b e x [] h c p = let q : t j ≡ t i = ap t (omega arith) in ground arith
last_begin t i j b e x (y ∷ ys) h c p =
    omega (arith, last_begin t (i + 1) j x.end e y ys h.1 c.3 (omega arith))

-- the bounds after the loops and the final update
pub clip_bounds-eq :
    (addr len b e b1 e1 : ℕ) (x y : MappingEntry)
    → x.begin ≡ b
    → b < x.end
    → y.end ≡ e
    → b ≤ y.begin
    → y.begin < e
    → x.end ≤ e
    → addr < e
    → b ≤ addr + len
    → (addr ≤ b) ⊎ (e ≤ addr + len)
    → b1 ≡ trimmed_begin addr len x b
    → e1 ≡ trimmed_end addr len y e
    → ((if leb addr b1 && ltb b1 (addr + len) then addr + len else b1)
        ≡ (if leb addr b then addr + len else b))
      × ((if ltb addr e1 && leb e1 (addr + len) then addr else e1)
          ≡ (if leb e (addr + len) then addr else e))
clip_bounds-eq addr len b e b1 e1 x y p q r s t u v w c i j = (ground arith, ground arith)

pub trimmed-Contiguous :
    (addr len b e : ℕ) (es : List MappingEntry)
    → Contiguous b e es
    → addr < e
    → b ≤ addr + len
    → (addr ≤ b) ⊎ (e ≤ addr + len)
    → (trimmed addr len es ≡ [])
      ⊎ Contiguous
          (if leb addr b then addr + len else b)
          (if leb e (addr + len) then addr else e)
          (trimmed addr len es)
trimmed-Contiguous addr len b e es c p q r = elim (Bool-cases (leb addr b)) [
  | inl s ↦ elim (Bool-cases (leb e (addr + len))) [
    | inl t ↦ inl (trimmed-within addr len b e es c (ground arith) (ground arith))
    | inr t ↦ rw (s, t) (inr (trimmed-prefix addr len b e es c (ground arith) q (ground arith)))
  ]
  | inr s ↦
      let t : leb e (addr + len) ≡ true = ground arith in
      rw (s, t) (inr (trimmed-suffix addr len b e es c (ground arith) (omega arith) (ground arith)))
]
