-- ===== src/Mmap/Augment/Stages.antt =====
-- The whole of the replacement of a part of a sequence by augment_sequence.
use mathlib.Core.List.{append_assoc, append-nil}
use liballocs.Common.{
  ℕ, ◌+◌, ◌≡◌, refl, ap, sym, subst, ◌∙◌, Bool, true, false, not, some, ◌==◌, if◌then◌else◌, List,
  [], ◌∷◌, ◌++◌, length, length-append, arith,
}
use liballocs.Mmap.{MappingEntry, MappingSequence}
use liballocs.Mmap.Entries.{Represents}
use liballocs.Mmap.Augment.{
  Mapping, new_entry, split_first, split_last, replace, splice, last_after_split,
}
use liballocs.Mmap.Augment.Splice.{
  SameBounds, entry_lem, split_first-Represents, split_last-Represents, replaced,
  replaced-Represents, replaced-SameBounds, replace_run,
}

-- what is left of an entry before an address, and of one after an address
abbrev pub before : MappingEntry → ℕ → List MappingEntry
before e b = if e.begin == b then [] else record e { end = b } ∷ []

abbrev pub after : MappingEntry → ℕ → List MappingEntry
after e b = if e.end == b then [] else record e { begin = b } ∷ []

-- the first entry of a list that ends with x
abbrev pub head_or : MappingEntry → List MappingEntry → MappingEntry
head_or x [] = x
head_or x (y ∷ ys) = y

split_first-SameBounds : (i b : ℕ) (s : MappingSequence) → SameBounds s (split_first i b s)
unfolding split_first
split_first-SameBounds i b s = (refl, refl, refl)

split_last-SameBounds : (i b : ℕ) (s : MappingSequence) → SameBounds s (split_last i b s)
unfolding split_last
split_last-SameBounds i b s = (refl, refl, refl)

module _ (s : MappingSequence) (i b : ℕ) (z : MappingEntry) (xs zs : List MappingEntry)
    (at : i ≡ length xs) (r : Represents s (xs ++ z ∷ zs)) where
  -- the partial overlap at the beginning
  first-Represents :
      (p : Bool)
      → p ≡ not (z.begin == b)
      → let s' = if p then split_first i b s else s in
        Represents s' ((xs ++ before z b) ++ record z { begin = b } ∷ zs)
        × ((if p then i + 1 else i) ≡ length (xs ++ before z b))
        × SameBounds s s'
  first-Represents true e =
      let ne : (z.begin == b) ≡ false = ground arith in
      rw ne (
        subst (Represents (split_first i b s)) (sym (append_assoc xs (record z { end = b } ∷ []) _))
            (split_first-Represents s i b z xs zs at r),
        omega (arith, length-append xs (record z { end = b } ∷ [])),
        split_first-SameBounds i b s,
      )
  first-Represents false e =
      let eq : (z.begin == b) ≡ true = ground arith in
      let same : record z { begin = b } ≡ z = ground arith in
      rw (eq, same)
        (
          subst (λ ys. Represents s (ys ++ z ∷ zs)) (sym (append-nil xs)) r,
          at ∙ ap length (sym (append-nil xs)),
          (refl, refl, refl),
        )

  -- the partial overlap at the end
  last-Represents :
      (p : Bool)
      → p ≡ not (z.end == b)
      → let s' = if p then split_last i b s else s in
        Represents s' (xs ++ record z { end = b } ∷ (after z b ++ zs)) × SameBounds s s'
  last-Represents true e =
      let ne : (z.end == b) ≡ false = ground arith in
      rw ne (split_last-Represents s i b z xs zs at r, split_last-SameBounds i b s)
  last-Represents false e =
      let eq : (z.end == b) ≡ true = ground arith in
      let same : record z { end = b } ≡ z = ground arith in rw (eq, same) (r, (refl, refl, refl))

-- the sequences between the steps of `splice`
abbrev begin_partial : (s : MappingSequence) (first : ℕ) → Mapping → Bool
begin_partial s first m = not ((s.mappings first).begin == m.begin)

abbrev end_partial : (s : MappingSequence) (last : ℕ) → Mapping → Bool
end_partial s last m = not ((s.mappings last).end == m.end)

abbrev after_first : (s : MappingSequence) (first : ℕ) → Mapping → MappingSequence
after_first s first m = if begin_partial s first m then split_first first m.begin s else s

abbrev first_index : (s : MappingSequence) (first : ℕ) → Mapping → ℕ
first_index s first m = if begin_partial s first m then first + 1 else first

abbrev last_index : (s : MappingSequence) (first last : ℕ) → Mapping → ℕ
last_index s first last m = if begin_partial s first m then last_after_split first last else last

abbrev after_last : (s : MappingSequence) (first last : ℕ) → Mapping → MappingSequence
after_last s first last m =
    if end_partial s last m
    then split_last (last_index s first last m) m.end (after_first s first m)
    else after_first s first m

splice-eq :
    (debug : Bool) (first last : ℕ) (m : Mapping) (s : MappingSequence)
    → splice debug first last m s
      ≡ replace debug
          (first_index s first m)
          (last_index s first last m)
          (new_entry m)
          (after_last s first last m)
unfolding splice
splice-eq debug first last m s = refl

SameBounds-trans :
    (s s' s'' : MappingSequence) → SameBounds s s' → SameBounds s' s'' → SameBounds s s''
SameBounds-trans s s' s'' h k = (k.0 ∙ h.0, k.1 ∙ h.1, k.2 ∙ h.2)

last_index-eq :
    (s : MappingSequence) (first last d : ℕ) (m : Mapping)
    → last ≡ first + d
    → last_index s first last m ≡ first_index s first m + d
last_index-eq s first last d m e = ground arith

regroup :
    (xs ys zs : List MappingEntry) (y z : MappingEntry)
    → (xs ++ y ∷ ys) ++ z ∷ zs ≡ (xs ++ (y ∷ (ys ++ z ∷ []))) ++ zs
regroup xs ys zs y z = simp append_assoc

-- The last two steps took place.
abbrev Finished :
    (debug : Bool) (first1 last1 : ℕ) (m : Mapping) (s1 s2 : MappingSequence)
    (xs zs : List MappingEntry)
    → Type 0
Finished debug first1 last1 m s1 s2 xs zs =
    (s' : MappingSequence) × (replace debug first1 last1 (new_entry m) s2 ≡ some s')
    × Represents s' (xs ++ new_entry m ∷ zs)
    × SameBounds s1 s'

replace-Finished :
    (debug : Bool) (first1 last1 : ℕ) (m : Mapping) (s1 s2 : MappingSequence) (x : MappingEntry)
    (xs ys zs : List MappingEntry)
    → first1 ≡ length xs
    → last1 ≡ first1 + length ys
    → Represents s2 ((xs ++ x ∷ ys) ++ zs)
    → SameBounds s1 s2
    → Finished debug first1 last1 m s1 s2 xs zs
replace-Finished debug first1 last1 m s1 s2 x xs ys zs at at' r b = (
  replaced first1 last1 (new_entry m) s2,
  replace_run s2 first1 last1 (new_entry m) debug (omega arith),
  replaced-Represents s2 first1 last1 (new_entry m) x xs ys zs at at' r,
  SameBounds-trans s1 s2 (replaced first1 last1 (new_entry m) s2) b
      (replaced-SameBounds s2 first1 last1 (new_entry m)),
)

finish :
    (debug : Bool) (first1 last1 : ℕ) (q : Bool) (m : Mapping) (s1 : MappingSequence)
    (z : MappingEntry) (xs ys zs : List MappingEntry)
    → first1 ≡ length xs
    → last1 ≡ first1 + length ys
    → q ≡ not (z.end == m.end)
    → Represents s1 (xs ++ (ys ++ z ∷ zs))
    → Finished debug first1 last1 m s1
        (if q then split_last last1 m.end s1 else s1)
        xs
        (after z m.end ++ zs)
finish debug first1 last1 q m s1 z xs [] zs at at' e r =
    let s2 : MappingSequence = if q then split_last last1 m.end s1 else s1 in
    let (r2, b) = last-Represents s1 last1 m.end z xs zs (omega arith) r q e in
    replace-Finished debug first1 last1 m s1 s2 (record z { end = m.end }) xs []
      (after z m.end ++ zs) at at' (subst (Represents s2) (sym (append_assoc xs _ _)) r2) b
finish debug first1 last1 q m s1 z xs (y ∷ ys) zs at at' e r =
    let s2 : MappingSequence = if q then split_last last1 m.end s1 else s1 in
    let (r2, b) =
      last-Represents s1 last1 m.end z (xs ++ y ∷ ys) zs (omega (arith, length-append xs (y ∷ ys)))
        (subst (Represents s1) (sym (append_assoc xs (y ∷ ys) (z ∷ zs))) r) q e in
    replace-Finished debug first1 last1 m s1 s2 y xs (ys ++ record z { end = m.end } ∷ [])
      (after z m.end ++ zs) at (omega (arith, length-append ys (record z { end = m.end } ∷ [])))
      (subst (Represents s2) (regroup xs ys (after z m.end ++ zs) y (record z { end = m.end })) r2)
      b

-- The entries from one that reaches up to the new mapping's begin to one that reaches beyond its end
-- are replaced by it, less what lies before it and after it.
abbrev pub Spliced :
    (debug : Bool) (first last : ℕ) (m : Mapping) (s : MappingSequence) (f l : MappingEntry)
    (us zs : List MappingEntry)
    → Type 0
Spliced debug first last m s f l us zs =
    (s' : MappingSequence) × (splice debug first last m s ≡ some s')
    × Represents s' ((us ++ before f m.begin) ++ new_entry m ∷ (after l m.end ++ zs))
    × SameBounds s s'

splice_step :
    (debug : Bool) (first last : ℕ) (m : Mapping) (s : MappingSequence) (f l z : MappingEntry)
    (us ys zs : List MappingEntry)
    → s.mappings first ≡ f
    → s.mappings last ≡ l
    → last ≡ first + length ys
    → first_index s first m ≡ length (us ++ before f m.begin)
    → z.end ≡ l.end
    → after z m.end ≡ after l m.end
    → Represents (after_first s first m) ((us ++ before f m.begin) ++ (ys ++ z ∷ zs))
    → SameBounds s (after_first s first m)
    → Spliced debug first last m s f l us zs
splice_step debug first last m s f l z us ys zs ef el at at' ez ea r b =
    let q : end_partial s last m ≡ not (z.end == m.end) =
      ap (λ (e : MappingEntry). not (e.end == m.end)) el ∙ ap (λ n. not (n == m.end)) (sym ez) in
    let (s', run, r', b') =
      finish debug (first_index s first m) (last_index s first last m) (end_partial s last m) m
        (after_first s first m) z (us ++ before f m.begin) ys zs at'
        (last_index-eq s first last (length ys) m at) q r in
    (
      s',
      splice-eq debug first last m s ∙ run,
      subst (λ t. Represents s' ((us ++ before f m.begin) ++ new_entry m ∷ (t ++ zs))) ea r',
      SameBounds-trans s (after_first s first m) s' b b',
    )

pub splice-Spliced :
    (debug : Bool) (first last : ℕ) (m : Mapping) (s : MappingSequence) (l : MappingEntry)
    (us bs zs : List MappingEntry)
    → first ≡ length us
    → last ≡ first + length bs
    → Represents s (us ++ (bs ++ l ∷ zs))
    → Spliced debug first last m s (head_or l bs) l us zs
splice-Spliced debug first last m s l us [] zs at at' r =
    let el = entry_lem s first 0 l us zs at r in
    let e : s.mappings last ≡ l = ap s.mappings (omega arith) ∙ el in
    let (r1, at1, b) =
      first-Represents s first m.begin l us zs at r (begin_partial s first m)
        (ap (λ (x : MappingEntry). not (x.begin == m.begin)) el) in
    splice_step debug first last m s l l (record l { begin = m.begin }) us [] zs el e at' at1 refl
      refl r1 b
splice-Spliced debug first last m s l us (y ∷ bs) zs at at' r =
    let ef = entry_lem s first 0 y us (bs ++ l ∷ zs) at r in
    let el =
      entry_lem s last 0 l (us ++ y ∷ bs) zs (omega (arith, length-append us (y ∷ bs)))
        (subst (Represents s) (sym (append_assoc us (y ∷ bs) (l ∷ zs))) r) in
    let (r1, at1, b) =
      first-Represents s first m.begin y us (bs ++ l ∷ zs) at r (begin_partial s first m)
        (ap (λ (x : MappingEntry). not (x.begin == m.begin)) ef) in
    splice_step debug first last m s y l l us (record y { begin = m.begin } ∷ bs) zs ef el at' at1
      refl refl r1 b
