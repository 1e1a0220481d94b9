-- ===== src/Mmap/Delete/Loops.antt =====
-- The two loops of delete_mapping_sequence_span, on the list of entries.
use liballocs.Common.{
  ℕ, zero, suc, ◌+◌, ◌-◌, ◌≤◌, ◌<◌, ◌≡◌, refl, ap, ◌∙◌, Bool, true, false, not, ◌&&◌, ◌||◌, some,
  leb, ltb, ◌==◌, if◌then◌else◌, List, [], ◌∷◌, ◌++◌, length, length-append, arith, update, subst,
  Bool-cases, inl, inr, >>=-some,
}
use mathlib.Core.List.{append-nil, append_assoc}
use liballocs.Mmap.{MappingEntry, MappingSequence, zero_entry}
use liballocs.Mmap.Entries.{Holds, Holds-frame, Holds-shift, Holds-append, Represents}
use liballocs.Mmap.Delete.{
  delete_from_entry, delete_from_entries, touches, splits_mapping, cut_begin, cut_end, compact,
  remove_entry,
}

-- an entry less the addresses of the span; `zero_entry` if nothing is left
abbrev pub trim : (addr length : ℕ) → MappingEntry → MappingEntry
trim addr length e =
    if leb e.end addr || ltb (addr + length) e.begin
    then e
    else if ltb e.begin addr
    then record e { end = addr }
    else if ltb (addr + length) e.end
    then record e { begin = addr + length }
    else zero_entry

-- the bounds of the sequence after the entries are trimmed
abbrev pub trimmed_begin : (addr length : ℕ) → MappingEntry → ℕ → ℕ
trimmed_begin addr length e b =
    if touches addr length e && not (ltb e.begin addr) && ltb (addr + length) e.end
    then addr + length
    else b

abbrev pub trimmed_end : (addr length : ℕ) → MappingEntry → ℕ → ℕ
trimmed_end addr length e b = if touches addr length e && ltb e.begin addr then addr else b

-- the sequence after the entries from i up to j are trimmed
abbrev pub Trimmed : (addr length i j : ℕ) (s s' : MappingSequence) → Type 0
Trimmed addr length i j s s' =
    (s'.nused ≡ s.nused)
    × (s'.filename ≡ s.filename)
    × (s'.begin ≡ (
        if (i == 0) && ltb 0 j then trimmed_begin addr length (s.mappings 0) s.begin else s.begin))
    × (s'.end ≡ (
        if leb (i + 1) s.nused && leb s.nused j
        then trimmed_end addr length (s.mappings (s.nused - 1)) s.end
        else s.end))
    × ((k : ℕ)
        → s'.mappings k
          ≡ (if leb i k && ltb k j then trim addr length (s.mappings k) else s.mappings k))

-- the sequence after one entry is trimmed
abbrev trimmed_at : (addr length i : ℕ) → MappingSequence → MappingSequence
trimmed_at addr length i s =
    let e = s.mappings i in
    record s {
      mappings =
          if touches addr length e then update s.mappings i (trim addr length e) else s.mappings;
      begin = if i == 0 then trimmed_begin addr length e s.begin else s.begin;
      end = if i + 1 == s.nused then trimmed_end addr length e s.end else s.end;
    }

cut_begin_lem :
    (addr len : ℕ) (e : MappingEntry)
    → touches addr len e ≡ true
    → ltb (addr + len) e.end ≡ true
    → cut_begin addr len e ≡ addr + len
cut_begin_lem addr len e t u = ground arith

cut_end_lem :
    (addr len : ℕ) (e : MappingEntry)
    → touches addr len e ≡ true
    → ltb e.begin addr ≡ true
    → cut_end addr len e ≡ addr
cut_end_lem addr len e t u = ground arith

delete_from_entry_lem :
    (debug : Bool) (addr len i : ℕ) (s : MappingSequence)
    → splits_mapping addr len (s.mappings i) ≡ false
    → delete_from_entry addr len debug i s ≡ some (trimmed_at addr len i s)
unfolding delete_from_entry
delete_from_entry_lem debug addr len i s h =
    ground (arith, cut_begin_lem addr len (s.mappings i), cut_end_lem addr len (s.mappings i))

trimmed_at-Trimmed :
    (addr len i : ℕ) (s : MappingSequence) → Trimmed addr len i (i + 1) s (trimmed_at addr len i s)
trimmed_at-Trimmed addr len i s =
    let zero_case : (i == 0) ≡ true
        → trimmed_begin addr len (s.mappings i) s.begin
          ≡ trimmed_begin addr len (s.mappings 0) s.begin =
      λ e. ap (λ k. trimmed_begin addr len (s.mappings k) s.begin) (ground arith) in
    let last_case : (i + 1 == s.nused) ≡ true
        → trimmed_end addr len (s.mappings i) s.end
          ≡ trimmed_end addr len (s.mappings (s.nused - 1)) s.end =
      λ e. ap (λ k. trimmed_end addr len (s.mappings k) s.end) (ground arith) in
    (refl, refl, ground arith, ground arith, λ k. ground arith)

Trimmed-trans :
    (addr len i j : ℕ) (s s1 s' : MappingSequence)
    → i < j
    → Trimmed addr len i (i + 1) s s1
    → Trimmed addr len (i + 1) j s1 s'
    → Trimmed addr len i j s s'
Trimmed-trans addr len i j s s1 s' lt p q =
    let last : trimmed_end addr len (s1.mappings (s1.nused - 1)) s1.end
        ≡ trimmed_end addr len (s1.mappings (s.nused - 1)) s1.end =
      ap (λ n. trimmed_end addr len (s1.mappings (n - 1)) s1.end) p.0 in
    (
      q.0 ∙ p.0,
      q.1 ∙ p.1,
      ground (arith, p.2, q.2),
      ground (arith, p.0, p.3, q.3, p.4 (s.nused - 1)),
      λ k. ground (arith, p.4 k, q.4 k),
    )

-- The loop ends and trims its entries.
abbrev pub Trims : (debug : Bool) (addr length left i : ℕ) (s : MappingSequence) → Type 0
Trims debug addr len left i s =
    (s' : MappingSequence) × (delete_from_entries addr len debug left i s ≡ some s')
    × Trimmed addr len i (i + left) s s'

-- The first loop trims its entries, unless one would have to be split.
pub delete_from_entries-Trimmed :
    (debug : Bool) (addr len left i : ℕ) (s : MappingSequence)
    → ((k : ℕ) → i ≤ k → k < i + left → splits_mapping addr len (s.mappings k) ≡ false)
    → Trims debug addr len left i s
unfolding delete_from_entries
delete_from_entries-Trimmed debug addr len zero i s h =
    (s, refl, (refl, refl, ground arith, ground arith, λ k. ground arith))
delete_from_entries-Trimmed debug addr len (suc left) i s h =
    let one = delete_from_entry_lem debug addr len i s (h i (omega arith) (omega arith)) in
    let here = trimmed_at-Trimmed addr len i s in
    go (trimmed_at addr len i s) one here (
      delete_from_entries-Trimmed debug addr len left (i + 1) (trimmed_at addr len i s)
        (λ k a b. ground (arith, here.4 k, h k (omega arith) (omega arith))))
  where
    go :
        (s1 : MappingSequence)
        → delete_from_entry addr len debug i s ≡ some s1
        → Trimmed addr len i (i + 1) s s1
        → Trims debug addr len left (i + 1) s1
        → Trims debug addr len (suc left) i s
    go s1 one here (s', more, rest) =
        let e : i + 1 + left ≡ i + suc left = omega arith in
        (
          s',
          >>=-some (delete_from_entries addr len debug left (i + 1)) one more,
          subst (λ j. Trimmed addr len i j s s') e
              (Trimmed-trans addr len i (i + 1 + left) s s1 s' (omega arith) here rest),
        )

-- what is left of a list of entries
abbrev pub keep : List MappingEntry → List MappingEntry
keep [] = []
keep (e ∷ es) = let rest = keep es in if e.begin == 0 then rest else e ∷ rest

remove_entry-Holds :
    (i : ℕ) (e : MappingEntry) (xs es : List MappingEntry) (s : MappingSequence)
    → i ≡ length xs
    → s.nused ≡ i + suc (length es)
    → Holds s.mappings 0 xs
    → Holds s.mappings i (e ∷ es)
    → Holds (remove_entry i s).mappings 0 xs × Holds (remove_entry i s).mappings i es
unfolding remove_entry
remove_entry-Holds i e xs es s at count before after = (
  Holds-frame s.mappings _ 0 xs before (λ j a b. ground arith),
  Holds-shift s.mappings _ (i + 1) i es after.1 (λ j b. ground arith),
)

-- The sequence has these entries, and the bounds and the filename of the other.
abbrev pub Compacted : (s s' : MappingSequence) → List MappingEntry → Type 0
Compacted s s' es =
    Represents s' es × (s'.begin ≡ s.begin) × (s'.end ≡ s.end) × (s'.filename ≡ s.filename)

-- The second loop ends within its fuel and leaves the entries that are not cleared, in order.
pub compact-Compacted :
    (fuel i : ℕ) (xs es : List MappingEntry) (s : MappingSequence)
    → length es < fuel
    → i ≡ length xs
    → s.nused ≡ i + length es
    → Holds s.mappings 0 xs
    → Holds s.mappings i es
    → (s' : MappingSequence) × (compact fuel i s ≡ some s') × Compacted s s' (xs ++ keep es)
unfolding compact
compact-Compacted zero i xs es s f at count before after = absurd (omega arith)
compact-Compacted (suc fuel) i xs [] s f at count before after =
    let e : xs ++ [] ≡ xs = append-nil xs in (s, ground arith, rw e (ground arith))
compact-Compacted (suc fuel) i xs (e ∷ es) s f at count before after =
    elim (Bool-cases (e.begin == 0)) [
      | inl z ↦
          let held = remove_entry-Holds i e xs es s at count before after in
          let (s', run, done) =
            compact-Compacted fuel i xs es (remove_entry i s) (omega arith) at (omega arith) held.0
              held.1 in
          (s', ground arith, rw z done)
      | inr z ↦
          let (s', run, done) =
            compact-Compacted fuel (i + 1) (xs ++ (e ∷ [])) es s (omega arith)
              (omega (arith, length-append xs (e ∷ []))) (omega arith)
              (Holds-append s.mappings 0 i xs (e ∷ []) (omega arith) before (after.0, tt))
              after.1 in
          (
            s',
            ground arith,
            rw z (subst (Compacted s s') (append_assoc xs (e ∷ []) (keep es)) done),
          )
    ]
