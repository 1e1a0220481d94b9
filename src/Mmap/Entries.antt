-- ===== src/Mmap/Entries.antt =====
-- The entries in use of a mapping sequence as a list, and what the list says of the addresses.
use liballocs.Common.{
  ℕ, suc, ◌+◌, ◌-◌, ◌≤◌, ◌<◌, ◌≡◌, ◌⊎◌, refl, ap, sym, ◌∙◌, Bool, true, false, ◌&&◌, ◌||◌, Option,
  none, some, leb, ltb, ◌==◌, if◌then◌else◌, List, [], ◌∷◌, ◌++◌, length, arith,
}
use liballocs.Mmap.{
  MappingEntry, MappingSequence, in_mapping, find_entry, find_entry_from, sane_from,
  check_mapping_sequence_sanity,
}

-- The table holds the list from index i on.
abbrev pub Holds : (t : ℕ → MappingEntry) → ℕ → List MappingEntry → Type 0
Holds t i [] = Unit {0}
Holds t i (e ∷ es) = (t i ≡ e) × Holds t (i + 1) es

-- The entries in use are the list.
abbrev pub Represents : MappingSequence → List MappingEntry → Type 0
Represents s es = (s.nused ≡ length es) × Holds s.mappings 0 es

-- The entries are nonempty and cover the range from b to e without a gap.
abbrev pub Contiguous : (b e : ℕ) → List MappingEntry → Type 0
Contiguous b e [] = b ≡ e
Contiguous b e (x ∷ xs) = (x.begin ≡ b) × (0 < b) × (b < x.end) × Contiguous x.end e xs

-- The entries in use are the list, at most eight, and cover the range of the sequence.
abbrev pub Covers : MappingSequence → List MappingEntry → Type 0
Covers s es = Represents s es × (length es ≤ 8) × Contiguous s.begin s.end es

-- The entries in use are the list, at most eight, and cover the range of the sequence or are none.
abbrev pub IsSequence : MappingSequence → List MappingEntry → Type 0
IsSequence s es = Represents s es × (length es ≤ 8) × ((es ≡ []) ⊎ Contiguous s.begin s.end es)

-- the first entry that an address lies in
abbrev pub entry_at : ℕ → List MappingEntry → Option MappingEntry
entry_at addr [] = none
entry_at addr (x ∷ xs) = let rest = entry_at addr xs in if in_mapping x addr then some x else rest

-- what an entry says of its addresses
abbrev pub Attributes : Type 0
Attributes = ℕ × ℕ × ℕ × Bool × ℕ

abbrev pub attributes : MappingEntry → Attributes
attributes e = (e.prot, e.flags, e.offset, e.is_anon, e.caller)

abbrev pub map_option {ℓ κ} : {A : Type ℓ} {B : Type κ} → (A → B) → Option A → Option B
map_option f none = none
map_option f (some a) = some (f a)

-- what the sequence says of an address, as a client reads it by __mmap_allocator_find_entry
abbrev pub view : MappingSequence → ℕ → Option Attributes
view s addr = map_option (λ i. attributes (s.mappings i)) (find_entry addr s)

abbrev pub list_view : List MappingEntry → ℕ → Option Attributes
list_view es addr = map_option attributes (entry_at addr es)

pub Holds-frame :
    (t t' : ℕ → MappingEntry) (i : ℕ) (es : List MappingEntry)
    → Holds t i es
    → ((j : ℕ) → i ≤ j → j < i + length es → t' j ≡ t j)
    → Holds t' i es
Holds-frame t t' i [] h same = h
Holds-frame t t' i (e ∷ es) h same =
    let rest = Holds-frame t t' (i + 1) es h.1 (λ j a b. same j (omega arith) (omega arith)) in
    (same i (omega arith) (omega arith) ∙ h.0, rest)

-- a table that holds the list further up or down
pub Holds-shift :
    (t t' : ℕ → MappingEntry) (i k : ℕ) (es : List MappingEntry)
    → Holds t i es
    → ((j : ℕ) → j < length es → t' (k + j) ≡ t (i + j))
    → Holds t' k es
Holds-shift t t' i k [] h same = h
Holds-shift t t' i k (e ∷ es) h same =
    let first : t' k ≡ t i = ap t' (omega arith) ∙ same 0 (omega arith) ∙ ap t (omega arith) in
    let rest = Holds-shift t t' (i + 1) (k + 1) es h.1 (λ j b.
      ap t' (let e : k + 1 + j ≡ k + (j + 1) = omega arith in e)
      ∙ same (j + 1) (omega arith)
      ∙ ap t (let e : i + (j + 1) ≡ i + 1 + j = omega arith in e)) in
    (first ∙ h.0, rest)

pub Holds-append :
    (t : ℕ → MappingEntry) (i j : ℕ) (xs ys : List MappingEntry)
    → j ≡ i + length xs
    → Holds t i xs
    → Holds t j ys
    → Holds t i (xs ++ ys)
Holds-append t i j [] ys e h k = let e' : j ≡ i = omega arith in rw (← e') k
Holds-append t i j (x ∷ xs) ys e h k = (h.0, Holds-append t (i + 1) j xs ys (omega arith) h.1 k)

pub Holds-append_split :
    (t : ℕ → MappingEntry) (i j : ℕ) (xs ys : List MappingEntry)
    → j ≡ i + length xs
    → Holds t i (xs ++ ys)
    → Holds t i xs × Holds t j ys
Holds-append_split t i j [] ys e h = let e' : j ≡ i = omega arith in (tt, rw e' h)
Holds-append_split t i j (x ∷ xs) ys e h =
    let rest = Holds-append_split t (i + 1) j xs ys (omega arith) h.1 in ((h.0, rest.0), rest.1)

find_entry_from-entry_at :
    (t : ℕ → MappingEntry) (addr i : ℕ) (es : List MappingEntry)
    → Holds t i es
    → map_option (λ k. attributes (t k)) (find_entry_from t addr (length es) i) ≡ list_view es addr
unfolding find_entry_from
find_entry_from-entry_at t addr i [] h = refl
find_entry_from-entry_at t addr i (e ∷ es) h =
    ground (arith, find_entry_from-entry_at t addr (i + 1) es)

-- the search by index is the search of the list
pub view-list_view :
    (s : MappingSequence) (es : List MappingEntry) (addr : ℕ)
    → Represents s es
    → view s addr ≡ list_view es addr
unfolding find_entry
view-list_view s es addr r = rw r.0 (find_entry_from-entry_at s.mappings addr 0 es r.1)

pub Contiguous-le : (b e : ℕ) (es : List MappingEntry) → Contiguous b e es → b ≤ e
Contiguous-le b e [] c = omega arith
Contiguous-le b e (x ∷ xs) c = omega (arith, Contiguous-le x.end e xs c.3)

-- outside the range there is no entry
pub entry_at-outside :
    (b e a : ℕ) (es : List MappingEntry)
    → Contiguous b e es
    → (leb b a && ltb a e) ≡ false
    → entry_at a es ≡ none
entry_at-outside b e a [] c out = refl
entry_at-outside b e a (x ∷ xs) c out =
    ground (arith, Contiguous-le x.end e xs, entry_at-outside x.end e a xs)

sane_from-Contiguous :
    (t : ℕ → MappingEntry) (i b e : ℕ) (es : List MappingEntry)
    → Holds t i es
    → Contiguous b e es
    → ((i == 0) || ((t (i - 1)).end == b)) ≡ true
    → sane_from t (length es) i ≡ true
unfolding sane_from
sane_from-Contiguous t i b e [] h c prev = refl
sane_from-Contiguous t i b e (x ∷ xs) h c prev =
    let same : t (i + 1 - 1) ≡ t i = ap t (omega arith) in
    ground (arith, sane_from-Contiguous t (i + 1) x.end e xs)

pub last_end :
    (t : ℕ → MappingEntry) (i j b e : ℕ) (x : MappingEntry) (xs : List MappingEntry)
    → Holds t i (x ∷ xs)
    → Contiguous b e (x ∷ xs)
    → j ≡ i + length xs
    → (t j).end ≡ e
last_end t i j b e x [] h c p =
    let q : j ≡ i = omega arith in
    ap (λ k. (t k).end) q ∙ ap (λ (y : MappingEntry). y.end) h.0 ∙ c.3
last_end t i j b e x (y ∷ ys) h c p = last_end t (i + 1) j x.end e y ys h.1 c.3 (omega arith)

pub check-nil : (s : MappingSequence) → s.nused ≡ 0 → check_mapping_sequence_sanity s ≡ true
unfolding check_mapping_sequence_sanity
check-nil s e = ground arith

-- a sequence whose entries cover its range passes the check
pub check-Contiguous :
    (s : MappingSequence) (es : List MappingEntry)
    → Represents s es
    → Contiguous s.begin s.end es
    → check_mapping_sequence_sanity s ≡ true
unfolding check_mapping_sequence_sanity
check-Contiguous s [] r c = ground arith
check-Contiguous s (x ∷ xs) r c =
    let count : length xs ≡ s.nused - 1 = omega arith in
    let all = sane_from-Contiguous s.mappings 0 s.begin s.end (x ∷ xs) r.1 c refl in
    let all' : sane_from s.mappings s.nused 0 ≡ true = rw r.0 all in
    let last = last_end s.mappings 0 (s.nused - 1) s.begin s.end x xs r.1 c (omega arith) in
    ground arith

-- a sequence that has entries and passes the check covers its range
Contiguous-of_sane :
    (t : ℕ → MappingEntry) (i b : ℕ) (e : ℕ) (x : MappingEntry) (xs : List MappingEntry)
    → Holds t i (x ∷ xs)
    → sane_from t (suc (length xs)) i ≡ true
    → x.begin ≡ b
    → (t (i + length xs)).end ≡ e
    → Contiguous b e (x ∷ xs)
unfolding sane_from
Contiguous-of_sane t i b e x [] h c p q =
    let same : t (i + 0) ≡ t i = ap t (omega arith) in ground arith
Contiguous-of_sane t i b e x (y ∷ ys) h c p q =
    let same : t (i + 1 - 1) ≡ t i = ap t (omega arith) in
    let same' : t (i + suc (length ys)) ≡ t (i + 1 + length ys) = ap t (omega arith) in
    ground (arith, Contiguous-of_sane t (i + 1) x.end e y ys)

pub check-eq_true :
    (s : MappingSequence) (x : MappingEntry) (xs : List MappingEntry)
    → Represents s (x ∷ xs)
    → check_mapping_sequence_sanity s ≡ true
    → Contiguous s.begin s.end (x ∷ xs)
unfolding check_mapping_sequence_sanity
check-eq_true s x xs r c =
    let same : s.mappings (s.nused - 1) ≡ s.mappings (0 + length xs) =
      ap s.mappings (omega arith) in
    let all : sane_from s.mappings s.nused 0 ≡ true = ground arith in
    let all' : sane_from s.mappings (suc (length xs)) 0 ≡ true =
      ap (λ n. sane_from s.mappings n 0) (sym r.0) ∙ all in
    Contiguous-of_sane s.mappings 0 s.begin s.end x xs r.1 all' (ground arith) (ground arith)
