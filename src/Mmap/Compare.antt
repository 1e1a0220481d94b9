-- ===== src/Mmap/Compare.antt =====
-- The comparisons of mapping sequences, on their lists of entries.
use liballocs.Common.{
  ℕ, zero, suc, ◌+◌, ◌-◌, ◌≤◌, ◌≡◌, ◌↔◌, refl, ap, sym, subst, ◌∙◌, true, false, leb, List, [], ◌∷◌,
  ◌++◌, length, length-append, arith, Bool-cases, inl, inr,
}
use liballocs.Mmap.{
  MappingEntry, MappingSequence, mapping_entry_equal, mapping_entries_equal,
  mapping_sequence_suffix,
}
use liballocs.Mmap.Entries.{Holds, Holds-append_split, Represents}

entry_equal_iff : (x y : MappingEntry) → (mapping_entry_equal x y ≡ true) ↔ (x ≡ y)
entry_equal_iff x y = (λ h. ground arith, λ e. rw e (self y))
  where
    self : (y : MappingEntry) → mapping_entry_equal y y ≡ true
    self y = ground arith

cons_inj : {x y : MappingEntry} {xs ys : List MappingEntry} → x ∷ xs ≡ y ∷ ys → (x ≡ y) × (xs ≡ ys)
cons_inj e = (cc, cc)

-- the comparison of n entries, where the tables hold lists of that length
entries_equal→eq :
    (t1 t2 : ℕ → MappingEntry) (i j : ℕ) (xs ys : List MappingEntry)
    → length xs ≡ length ys
    → Holds t1 i xs
    → Holds t2 j ys
    → mapping_entries_equal t1 t2 i j (length xs) ≡ true
    → xs ≡ ys
unfolding mapping_entries_equal
entries_equal→eq t1 t2 i j [] [] e h k q = refl
entries_equal→eq t1 t2 i j [] (y ∷ ys) e h k q = absurd (omega arith)
entries_equal→eq t1 t2 i j (x ∷ xs) [] e h k q = absurd (omega arith)
entries_equal→eq t1 t2 i j (x ∷ xs) (y ∷ ys) e h k q =
    elim (Bool-cases (mapping_entry_equal (t1 i) (t2 j))) [
      | inl p ↦
          let same : x ≡ y = sym h.0 ∙ (entry_equal_iff (t1 i) (t2 j)).0 p ∙ k.0 in
          let more : mapping_entries_equal t1 t2 (i + 1) (j + 1) (length xs) ≡ true = rw p at q in
          let rest = entries_equal→eq t1 t2 (i + 1) (j + 1) xs ys (omega arith) h.1 k.1 more in cc
      | inr p ↦ let bad : false ≡ true = rw p at q in cc
    ]

eq→entries_equal :
    (t1 t2 : ℕ → MappingEntry) (i j : ℕ) (xs : List MappingEntry)
    → Holds t1 i xs
    → Holds t2 j xs
    → mapping_entries_equal t1 t2 i j (length xs) ≡ true
unfolding mapping_entries_equal
eq→entries_equal t1 t2 i j [] h k = refl
eq→entries_equal t1 t2 i j (x ∷ xs) h k =
    let p = (entry_equal_iff (t1 i) (t2 j)).1 (h.0 ∙ sym k.0) in
    rw p (eq→entries_equal t1 t2 (i + 1) (j + 1) xs h.1 k.1)

-- a list cut at an index
split_at :
    (k : ℕ) (xs : List MappingEntry)
    → k ≤ length xs
    → (ps : List MappingEntry) × (qs : List MappingEntry) × (xs ≡ ps ++ qs) × (length ps ≡ k)
split_at zero xs h = ([], xs, refl, refl)
split_at (suc k) [] h = absurd (omega arith)
split_at (suc k) (x ∷ xs) h =
    let (ps, qs, e, l) = split_at k xs (omega arith) in
    (x ∷ ps, qs, ap (λ ts. x ∷ ts) e, omega arith)

-- One sequence passes the test as a suffix of another exactly if its list of entries is the end of
-- the other's.
mapping_sequence_suffix_iff :
    (s1 s2 : MappingSequence) (xs ys : List MappingEntry)
    → Represents s1 xs
    → Represents s2 ys
    → (mapping_sequence_suffix s1 s2 ≡ true) ↔ ((ps : List MappingEntry) × (ys ≡ ps ++ xs))
unfolding mapping_sequence_suffix
mapping_sequence_suffix_iff s1 s2 xs ys r1 r2 = (to, from)
  where
    to : mapping_sequence_suffix s1 s2 ≡ true → (ps : List MappingEntry) × (ys ≡ ps ++ xs)
    to h =
        let fits : leb s1.nused s2.nused ≡ true = ground arith in
        let same : mapping_entries_equal s2.mappings s1.mappings (s2.nused - s1.nused) 0 s1.nused
            ≡ true =
          ground arith in
        let (ps, qs, e, l) = split_at (s2.nused - s1.nused) ys (omega (arith, r1.0, r2.0)) in
        let count : length qs ≡ length xs =
          let n : length ys ≡ length ps + length qs = ap length e ∙ length-append ps qs in
          let le : s1.nused ≤ s2.nused = ground arith in omega (arith, r1.0, r2.0) in
        let held =
          Holds-append_split s2.mappings 0 (s2.nused - s1.nused) ps qs (omega arith)
            (subst (Holds s2.mappings 0) e r2.1) in
        let same' : mapping_entries_equal s2.mappings s1.mappings (s2.nused - s1.nused) 0
              (length qs)
            ≡ true =
          ap (mapping_entries_equal s2.mappings s1.mappings (s2.nused - s1.nused) 0)
            (count ∙ sym r1.0)
          ∙ same in
        let last =
          entries_equal→eq s2.mappings s1.mappings (s2.nused - s1.nused) 0 qs xs count held.1 r1.1
            same' in
        (ps, e ∙ ap (λ ts. ps ++ ts) last)

    from : (ps : List MappingEntry) × (ys ≡ ps ++ xs) → mapping_sequence_suffix s1 s2 ≡ true
    from (ps, e) =
        let n : length ys ≡ length ps + length xs = ap length e ∙ length-append ps xs in
        let held =
          Holds-append_split s2.mappings 0 (s2.nused - s1.nused) ps xs (omega (arith, r1.0, r2.0))
            (subst (Holds s2.mappings 0) e r2.1) in
        let same : mapping_entries_equal s2.mappings s1.mappings (s2.nused - s1.nused) 0 s1.nused
            ≡ true =
          ap (mapping_entries_equal s2.mappings s1.mappings (s2.nused - s1.nused) 0) r1.0
          ∙ eq→entries_equal s2.mappings s1.mappings (s2.nused - s1.nused) 0 xs held.1 r1.1 in
        let le : s1.nused ≤ s2.nused = omega (arith, r1.0, r2.0) in ground arith
