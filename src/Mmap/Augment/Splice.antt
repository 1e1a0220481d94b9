-- ===== src/Mmap/Augment/Splice.antt =====
-- The steps of augment_sequence that replace a part of a sequence, on the list of entries.
use mathlib.Core.List.{append_assoc}
use liballocs.Common.{
  ℕ, suc, ◌+◌, ◌-◌, ◌≤◌, ◌<◌, ◌≡◌, refl, ap, subst, ◌∙◌, Bool, true, false, not, ◌&&◌, ◌||◌, some,
  leb, ltb, ◌==◌, if◌then◌else◌, List, ◌∷◌, ◌++◌, length, length-append, arith, update,
  require-true,
}
use liballocs.Mmap.{MappingEntry, MappingSequence, copy_all_left_from_by, copy_all_right_from_by}
use liballocs.Mmap.Entries.{
  Holds, Holds-frame, Holds-shift, Holds-append, Holds-append_split, Represents,
}
use liballocs.Mmap.Augment.{set_entry, split_first, split_last, replace}

-- the bounds and the filename of the sequence stay
abbrev pub SameBounds : (s s' : MappingSequence) → Type 0
SameBounds s s' = (s'.begin ≡ s.begin) × (s'.end ≡ s.end) × (s'.filename ≡ s.filename)

-- what both splits make of the table
abbrev split_table : (t : ℕ → MappingEntry) (n i : ℕ) (x y : MappingEntry) → ℕ → MappingEntry
split_table t n i x y j =
    if j == i
    then x
    else if j == i + 1
    then y
    else if leb (i + 1) j && ltb j (n + 1)
    then t (j - 1)
    else t j

split-Holds :
    (t t' : ℕ → MappingEntry) (n i : ℕ) (x y z : MappingEntry) (xs zs : List MappingEntry)
    → i ≡ length xs
    → n ≡ length (xs ++ z ∷ zs)
    → Holds t 0 (xs ++ z ∷ zs)
    → ((j : ℕ) → t' j ≡ split_table t n i x y j)
    → Holds t' 0 (xs ++ x ∷ y ∷ zs)
split-Holds t t' n i x y z xs zs at count h same =
    let count' = count ∙ length-append xs (z ∷ zs) in
    let parts = Holds-append_split t 0 i xs (z ∷ zs) (omega arith) h in
    let before = Holds-frame t t' 0 xs parts.0 (λ j lo hi. same j ∙ ground arith) in
    let after =
      Holds-shift t t' (i + 1) (i + 1 + 1) zs parts.1.1
        (λ j hi. same (i + 1 + 1 + j) ∙ split-above j hi count') in
    Holds-append t' 0 i xs (x ∷ y ∷ zs) (omega arith) before
      (same i ∙ ground arith, (same (i + 1) ∙ ground arith, after))
  where
    split-above :
        (j : ℕ)
        → j < length zs
        → n ≡ length xs + suc (length zs)
        → split_table t n i x y (i + 1 + 1 + j) ≡ t (i + 1 + j)
    split-above j hi count' =
        let e : t (i + 1 + 1 + j - 1) ≡ t (i + 1 + j) = ap t (omega arith) in ground arith

choose-cong :
    (c d : Bool) {x x' y y' : MappingEntry} (w : MappingEntry)
    → x ≡ x'
    → y ≡ y'
    → (if c then x else if d then y else w) ≡ (if c then x' else if d then y' else w)
choose-cong true d w e f = e
choose-cong false true w e f = f
choose-cong false false w e f = refl

module _ (u : ℕ → MappingEntry) (i : ℕ) (f g : MappingEntry → MappingEntry) (j : ℕ) where
  set_both :
      let u' = update u i (f (u i)) in
      update u' (i + 1) (g (u' (i + 1))) j
      ≡ (if j == i then f (u i) else if j == i + 1 then g (u (i + 1)) else u j)
  set_both = ground arith

  set_both_up :
      let u' = update u (i + 1) (g (u (i + 1))) in
      update u' i (f (u' i)) j
      ≡ (if j == i then f (u i) else if j == i + 1 then g (u (i + 1)) else u j)
  set_both_up = ground arith

module _ (s : MappingSequence) (i b : ℕ) (z : MappingEntry) (xs zs : List MappingEntry)
    (at : i ≡ length xs) (r : Represents s (xs ++ z ∷ zs)) where
  pub entry_lem : s.mappings i ≡ z
  entry_lem = (Holds-append_split s.mappings 0 i xs (z ∷ zs) (omega arith) r.1).1.0

  abbrev with_end : MappingEntry → MappingEntry
  with_end e = record e { end = b }

  abbrev with_begin : MappingEntry → MappingEntry
  with_begin e = record e { begin = b }

  copied_at : (copy_all_right_from_by s i 1).mappings i ≡ z
  unfolding copy_all_right_from_by
  copied_at = let e = entry_lem in ground arith

  copied_next : (copy_all_right_from_by s i 1).mappings (i + 1) ≡ z
  unfolding copy_all_right_from_by
  copied_next =
      let e : s.mappings (i + 1 - 1) ≡ z = ap s.mappings (omega arith) ∙ entry_lem in
      let inside : i + 1 < s.nused + 1 = omega (arith, r.0, length-append xs (z ∷ zs)) in
      ground arith

  copied_table :
      (j : ℕ)
      → (let u = (copy_all_right_from_by s i 1).mappings in
          if j == i then with_end (u i) else if j == i + 1 then with_begin (u (i + 1)) else u j)
        ≡ split_table s.mappings s.nused i (with_end z) (with_begin z) j
  unfolding copy_all_right_from_by
  copied_table j =
      choose-cong (j == i) (j == i + 1) _ (ap with_end copied_at) (ap with_begin copied_next)

  split-count : s.nused + 1 ≡ length (xs ++ record z { end = b } ∷ record z { begin = b } ∷ zs)
  split-count = omega (
    arith,
    r.0,
    length-append xs (z ∷ zs),
    length-append xs (record z { end = b } ∷ record z { begin = b } ∷ zs),
  )

  pub split_first-Represents :
      Represents (split_first i b s) (xs ++ record z { end = b } ∷ record z { begin = b } ∷ zs)
  unfolding split_first
  split_first-Represents = (
    split-count,
    split-Holds s.mappings _ s.nused i (record z { end = b }) (record z { begin = b }) z xs zs at
        r.0 r.1
        (λ j.
          set_both (copy_all_right_from_by s i 1).mappings i with_end with_begin j
          ∙ copied_table j),
  )

  pub split_last-Represents :
      Represents (split_last i b s) (xs ++ record z { end = b } ∷ record z { begin = b } ∷ zs)
  unfolding split_last
  split_last-Represents = (
    split-count,
    split-Holds s.mappings _ s.nused i (record z { end = b }) (record z { begin = b }) z xs zs at
        r.0 r.1
        (λ j.
          set_both_up (copy_all_right_from_by s i 1).mappings i with_end with_begin j
          ∙ copied_table j),
  )

-- what the replacement makes of the sequence
abbrev pub replaced : (first last : ℕ) → MappingEntry → MappingSequence → MappingSequence
replaced first last e s =
    set_entry first e
      (if ltb first last then copy_all_left_from_by s (last + 1) (last - first) else s)

module _ (s : MappingSequence) (first last : ℕ) (e : MappingEntry) where
  replaced-at : (replaced first last e s).mappings first ≡ e
  unfolding set_entry
  replaced-at = ground arith

  replaced-below :
      (j : ℕ) → j < first → first ≤ last → (replaced first last e s).mappings j ≡ s.mappings j
  unfolding set_entry copy_all_left_from_by
  replaced-below j lt le = ground arith

  replaced-above :
      (k : ℕ)
      → first ≤ last
      → last + 1 + k < s.nused
      → (replaced first last e s).mappings (first + 1 + k) ≡ s.mappings (last + 1 + k)
  unfolding set_entry copy_all_left_from_by
  replaced-above k le lt =
      let same : s.mappings (first + 1 + k + (last - first)) ≡ s.mappings (last + 1 + k) =
        ap s.mappings (omega arith) in
      let equal : (ltb first last ≡ false)
          → s.mappings (first + 1 + k) ≡ s.mappings (last + 1 + k) =
        λ h. ap s.mappings (ground arith) in
      ground arith

  replaced-nused : first ≤ last → (replaced first last e s).nused ≡ s.nused - (last - first)
  unfolding set_entry copy_all_left_from_by
  replaced-nused le = ground arith

  pub replaced-SameBounds : SameBounds s (replaced first last e s)
  unfolding set_entry copy_all_left_from_by
  replaced-SameBounds = (ground arith, ground arith, ground arith)

  pub replace_run :
      (debug : Bool) → first ≤ last → replace debug first last e s ≡ some (replaced first last e s)
  unfolding replace
  replace_run debug le = require-true (not debug || leb first last) _ (ground arith)

  -- The entries between two indices are replaced by one.
  pub replaced-Represents :
      (x : MappingEntry) (xs ys zs : List MappingEntry)
      → first ≡ length xs
      → last ≡ first + length ys
      → Represents s (xs ++ (x ∷ ys) ++ zs)
      → Represents (replaced first last e s) (xs ++ e ∷ zs)
  replaced-Represents x xs ys zs at at' r =
      let r' = subst (Represents s) (append_assoc xs (x ∷ ys) zs) r in
      let count : s.nused ≡ length xs + suc (length ys + length zs) =
        omega (arith, r'.0, length-append xs (x ∷ (ys ++ zs)), length-append ys zs) in
      let parts = Holds-append_split s.mappings 0 first xs (x ∷ (ys ++ zs)) (omega arith) r'.1 in
      let parts' =
        Holds-append_split s.mappings (first + 1) (last + 1) ys zs (omega arith) parts.1.1 in
      (
        replaced-nused (omega arith) ∙ omega (arith, length-append xs (e ∷ zs)),
        Holds-append (replaced first last e s).mappings 0 first xs (e ∷ zs) (omega arith)
            (Holds-frame s.mappings _ 0 xs parts.0
              (λ j lo hi. replaced-below j (omega arith) (omega arith)))
            (
              replaced-at,
              Holds-shift s.mappings _ (last + 1) (first + 1) zs parts'.1
                  (λ k hi. replaced-above k (omega arith) (omega arith)),
            ),
      )
