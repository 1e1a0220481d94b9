-- ===== src/Mmap/Augment/Overlap.antt =====
-- The branch of augment_sequence for a mapping over a part of the sequence.
use mathlib.Core.List.{append_assoc}
use liballocs.Common.{
  ℕ, ◌+◌, ◌-◌, ◌%◌, ◌≤◌, ◌<◌, ◌≡◌, refl, ap, sym, subst, ◌∙◌, Bool, true, false, not, ◌&&◌, Option,
  some, ltb, leb, ◌==◌, if◌then◌else◌, List, [], ◌∷◌, ◌++◌, length, length-append, arith, >>=-some,
  ◌>>=◌,
}
use liballocs.Mmap.{MappingEntry, MappingSequence}
use liballocs.Mmap.Entries.{
  Holds, Holds-append_split, Represents, Contiguous, Covers, list_view, attributes, view,
  view-list_view,
}
use liballocs.Mmap.Augment.{
  Mapping, new_entry, overlap_branch, first_overlapped, last_overlapped, splice, may_replace,
}
use liballocs.Mmap.Augment.Splice.{SameBounds, entry_lem}
use liballocs.Mmap.Augment.Stages.{Spliced, splice-Spliced}
use liballocs.Mmap.Augment.Search.{
  FirstAt, first_overlapped-FirstAt, LastAt, last_overlapped-LastAt,
}
use liballocs.Mmap.Augment.Spliced.{spliced, spliced-Contiguous, spliced-list_view, length-spliced}
use liballocs.Mmap.Augment.Views.{}

-- The new mapping is part of the sequence: the sequence covers a range that holds the old one and the
-- new mapping; the addresses of the new mapping have its attributes, the others what they had.
abbrev pub Extended : Mapping → (s s' : MappingSequence) → Type 0
Extended m s s' =
    ((es : List MappingEntry) × Covers s' es)
    × (s'.begin ≡ (if s.begin == 0 then m.begin else s.begin))
    × (s'.end ≡ (if ltb s.end m.end then m.end else s.end))
    × ((a : ℕ)
        → view s' a
          ≡ (if leb m.begin a && ltb a m.end then some (attributes (new_entry m)) else view s a))

-- what the flag says of the sequence: it stays, or the new mapping is part of it
abbrev pub Outcome : Mapping → MappingSequence → Bool → MappingSequence → Type 0
Outcome m s false s' = s' ≡ s
Outcome m s true s' = Extended m s s'

-- The branch for a mapping over a part of the sequence decides by the filename and the room.
abbrev pub accepted :
    (object_below copied : ℕ → ℕ) (first last : ℕ) → Mapping → MappingSequence → Bool
accepted object_below copied first last m s =
    may_replace object_below copied first last m s
    && not (
        ltb ((8 + 4294967296 - s.nused) % 4294967296) (
          (if not ((s.mappings first).begin == m.begin) then 1 else 0)
          + (if not ((s.mappings last).end == m.end) then 1 else 0)))

pub accepted_run :
    (p q : Bool) (sp : Option MappingSequence) (s s' : MappingSequence)
    → sp ≡ some s'
    → if◌then◌else◌ {A = Option (Bool × MappingSequence)}
        (not p)
        (some (false, s))
        (if q then some (false, s) else (sp >>= λ c. some (true, c)))
      ≡ some (p && not q, if p && not q then s' else s)
accepted_run false q sp s s' e = refl
accepted_run true true sp s s' e = refl
accepted_run true false sp s s' e = >>=-some _ e refl

pub overlap_run :
    (object_below copied : ℕ → ℕ) (debug : Bool) (first last : ℕ) (m : Mapping)
    (s s' : MappingSequence)
    → first_overlapped s.nused s.mappings m 0 ≡ some first
    → last_overlapped s.mappings m s.nused ≡ some last
    → splice debug first last m s ≡ some s'
    → let r = accepted object_below copied first last m s in
      overlap_branch object_below copied debug m s ≡ some (r, if r then s' else s)
unfolding overlap_branch
overlap_run object_below copied debug first last m s s' run1 run2 run3 =
    >>=-some _ run1 (>>=-some _ run2 (accepted_run _ _ _ s s' run3))

module _ (m : Mapping) (s : MappingSequence) (es : List MappingEntry) (v : Covers s es)
    (nonempty : m.begin < m.end) (lo : s.begin ≤ m.begin) (under : m.begin < s.end)
    (hi : m.end ≤ s.end) where
  -- the two searches, by what they find
  abbrev Searched : Type 0
  Searched =
      (first : ℕ) × (last : ℕ) × (f : MappingEntry) × (l : MappingEntry) × (us : List MappingEntry)
      × (zs : List MappingEntry) × (first_overlapped s.nused s.mappings m 0 ≡ some first)
      × (last_overlapped s.mappings m s.nused ≡ some last)
      × (s.mappings first ≡ f)
      × (s.mappings last ≡ l)
      × Contiguous s.begin s.end (spliced m f l us zs)
      × (length (spliced m f l us zs)
          ≤ length es
            + ((if not (f.begin == m.begin) then 1 else 0)
                + (if not (l.end == m.end) then 1 else 0)))
      × ((a : ℕ)
          → list_view (spliced m f l us zs) a ≡ (
              if leb m.begin a && ltb a m.end
              then some (attributes (new_entry m))
              else list_view es a))
      × ((debug : Bool) → Spliced debug first last m s f l us zs)

  searched_of :
      (us rs bs zs : List MappingEntry) (f l : MappingEntry)
      → FirstAt s.mappings m 0 s.begin s.end es us rs f
      → LastAt s.mappings m (length us) f.begin s.end f (f ∷ rs) bs zs l
      → Searched
  searched_of us rs bs zs f l fa la =
      let whole : es ≡ us ++ (bs ++ l ∷ zs) = fa.0 ∙ ap (λ ts. us ++ ts) la.0 in
      let r : Represents s (us ++ (bs ++ l ∷ zs)) = subst (Represents s) whole v.0 in
      let held =
        Holds-append_split s.mappings 0 (length us) us (f ∷ rs) (omega arith)
          (subst (Holds s.mappings 0) fa.0 v.0.1) in
      let pos : 0 < m.begin = omega (arith, fa.3.1, fa.4) in
      let count : s.nused ≡ length us + length (f ∷ rs) =
        v.0.0 ∙ ap length fa.0 ∙ length-append us (f ∷ rs) in
      (
        length us,
        length us + length bs,
        f,
        l,
        us,
        zs,
        ap (λ n. first_overlapped n s.mappings m 0) v.0.0 ∙ fa.1 ∙ ap some (omega arith),
        ap (last_overlapped s.mappings m) count ∙ la.2,
        held.1.0,
        entry_lem s (length us + length bs) 0 l (us ++ bs) zs (omega (arith, length-append us bs))
            (subst (Represents s) (sym (append_assoc us bs (l ∷ zs))) r),
        spliced-Contiguous m s.begin s.end es us rs bs zs f l nonempty pos fa.0 fa.2 fa.3 fa.4 fa.5
            la.0 la.3 la.4 la.5 la.6,
        length-spliced m f l us bs zs es whole,
        spliced-list_view m s.begin s.end es us rs bs zs f l nonempty pos fa.0 fa.2 fa.3 fa.4 fa.5
            la.0 la.3 la.4 la.5 la.6,
        λ debug.
            subst (λ x. Spliced debug (length us) (length us + length bs) m s x l us zs) la.1
              (splice-Spliced debug (length us) (length us + length bs) m s l us bs zs refl refl r),
      )

  searched : Searched
  searched =
      let (us, rs, f, fa) =
        first_overlapped-FirstAt s.mappings m 0 s.begin s.end es v.0.1 v.2 lo under nonempty in
      let held =
        Holds-append_split s.mappings 0 (length us) us (f ∷ rs) (omega arith)
          (subst (Holds s.mappings 0) fa.0 v.0.1) in
      let (bs, zs, l, la) =
        last_overlapped-LastAt s.mappings m (length us) f.begin s.end f rs held.1 fa.3 (omega arith)
          hi fa.5 in
      searched_of us rs bs zs f l fa la

Contiguous-pos : (b e : ℕ) (es : List MappingEntry) → Contiguous b e es → b < e → 0 < b
Contiguous-pos b e [] c p = omega arith
Contiguous-pos b e (x ∷ xs) c p = c.1

-- the sequence that the replacement leaves
spliced-Extended :
    (m : Mapping) (s s' : MappingSequence) (es ts : List MappingEntry)
    → Covers s es
    → m.end ≤ s.end
    → s.begin < s.end
    → Represents s' ts
    → SameBounds s s'
    → length ts ≤ 8
    → Contiguous s.begin s.end ts
    → ((a : ℕ)
        → list_view ts a ≡ (
            if leb m.begin a && ltb a m.end
            then some (attributes (new_entry m))
            else list_view es a))
    → Extended m s s'
spliced-Extended m s s' es ts v hi some_s r same fits c views =
    let pos = Contiguous-pos s.begin s.end es v.2 some_s in
    (
      (ts, (r, fits, rw (same.0, same.1) c)),
      ground arith,
      ground arith,
      λ a.
          view-list_view s' ts a r
          ∙ views a
          ∙ ap (λ w. if leb m.begin a && ltb a m.end then some (attributes (new_entry m)) else w)
              (sym (view-list_view s es a v.0)),
    )

Outcome-if :
    (m : Mapping) (s s' : MappingSequence) (r : Bool)
    → (r ≡ true → Extended m s s')
    → Outcome m s r (if r then s' else s)
Outcome-if m s s' true h = h refl
Outcome-if m s s' false h = refl

room :
    (object_below copied : ℕ → ℕ) (first last n k : ℕ) (m : Mapping) (s : MappingSequence)
    (f l : MappingEntry)
    → s.mappings first ≡ f
    → s.mappings last ≡ l
    → s.nused ≡ n
    → n < 8
    → k
      ≤ n + ((if not (f.begin == m.begin) then 1 else 0) + (if not (l.end == m.end) then 1 else 0))
    → accepted object_below copied first last m s ≡ true
    → k ≤ 8
room object_below copied first last n k m s f l ef el c p h a =
    ground (arith, ap (λ (e : MappingEntry). e.begin) ef, ap (λ (e : MappingEntry). e.end) el)

-- The run of the branch for an overlap
pub overlap_branch-Outcome :
    (object_below copied : ℕ → ℕ) (debug : Bool) (m : Mapping) (s : MappingSequence)
    (es : List MappingEntry)
    → Covers s es
    → s.nused < 8
    → m.begin < m.end
    → s.begin ≤ m.begin
    → m.begin < s.end
    → m.end ≤ s.end
    → (first : ℕ) × (last : ℕ) × (s' : MappingSequence) × (overlap_branch object_below copied debug
          m s
        ≡ some (accepted object_below copied first last m s, s'))
      × Outcome m s (accepted object_below copied first last m s) s'
overlap_branch-Outcome object_below copied debug m s es v few nonempty lo under hi =
    let (first, last, f, l, us, zs, run1, run2, ef, el, c, len, views, spl) =
      searched m s es v nonempty lo under hi in
    let (s', run3, r, same) = spl debug in
    (
      first,
      last,
      (if accepted object_below copied first last m s then s' else s),
      overlap_run object_below copied debug first last m s s' run1 run2 run3,
      Outcome-if m s s' (accepted object_below copied first last m s) (λ a.
          spliced-Extended m s s' es (spliced m f l us zs) v hi (omega arith) r same
            (room object_below copied first last (length es) (length (spliced m f l us zs)) m s f l
              ef el v.0.0 (omega (arith, v.0.0)) len a)
            c views),
    )
