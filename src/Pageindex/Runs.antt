-- ===== src/Pageindex/Runs.antt =====
-- Lookups from the page index, the split of a record and the creation of a record whose parent is
-- looked up, at the state of Pageindex/Examples with record 4 of another allocator.
use liballocs.Common.{ℕ, ◌≡◌, refl, false, List, [], ◌∷◌, Option, some, arith, ◌>>=◌, update}
use mathlib.Core.List.{map}
use liballocs.Pageindex.Vas.{x86_64}
use liballocs.Pageindex.State.{State}
use liballocs.Pageindex.Forest.{Forest, leaf, node, ids}
use liballocs.Pageindex.Memset.{memset_bigalloc}
use liballocs.Pageindex.Find.{find_deepest_from}
use liballocs.Pageindex.Find.Nesting.{Outermost}
use liballocs.Pageindex.Find.Correct.{IsTree}
use liballocs.Pageindex.Examples.{heap, world}
use liballocs.Pageindex.Split.{split_bigalloc_at_page_boundary}
use liballocs.Pageindex.Lookup.{
  lookup_bigalloc_from_root, lookup_bigalloc_from_root_by_suballocator, lookup_bigalloc_top_level,
  lookup_bigalloc_under, lookup_bigalloc_under_by_suballocator, lookup_bigalloc_under_pageindex,
  find_bigalloc_under_pageindex_nofail, get_common_parent_bigalloc, new_bigalloc, Notify,
}
use liballocs.Pageindex.Lookup.Correct.{lookup_bigalloc_from_root-Outermost}

abbrev mixed : State
mixed = record world {
  big_allocations = update heap 4 (record (heap 4) { allocated_by = 71; suballocator = 72 });
}

abbrev below : Forest
below = node 4 leaf (node 5 (node 6 leaf leaf) leaf)

mixed-IsTree : IsTree mixed.big_allocations 1 below
mixed-IsTree = record {
  is_record = λ e. ground arith;
  links = ground arith;
  inside = ground arith;
  nested = ground arith;
  distinct = ground arith;
}

lookup_bigalloc_from_root-Outermost_example :
    (r : ℕ) × (lookup_bigalloc_from_root x86_64 4 mixed 0x5800 71 ≡ some r)
    × Outermost mixed.big_allocations 0x5800 71 false r (1 ∷ ids below)
lookup_bigalloc_from_root-Outermost_example =
    lookup_bigalloc_from_root-Outermost x86_64 mixed 1 4 0x5800 71 below mixed-IsTree refl
      (omega arith) (λ e. ground arith) refl refl

from_root_run : lookup_bigalloc_from_root x86_64 4 mixed 0x5800 71 ≡ some 4
unfolding lookup_bigalloc_from_root
from_root_run = refl

by_suballocator_run : lookup_bigalloc_from_root_by_suballocator x86_64 4 mixed 0x5800 72 ≡ some 4
unfolding lookup_bigalloc_from_root_by_suballocator
by_suballocator_run = refl

under_run : lookup_bigalloc_under x86_64 4 mixed 0x5800 71 1 ≡ some 4
unfolding lookup_bigalloc_under
under_run = refl

under_by_suballocator_run :
    lookup_bigalloc_under_by_suballocator x86_64 4 mixed 0x8184 72 1 ≡ some 0
unfolding lookup_bigalloc_under_by_suballocator
under_by_suballocator_run = refl

-- a lookup that sets out below the record misses it
under_pageindex_run : lookup_bigalloc_under_pageindex x86_64 4 mixed 0x5800 70 ≡ some 0
unfolding lookup_bigalloc_under_pageindex
under_pageindex_run = refl

nofail_run : find_bigalloc_under_pageindex_nofail x86_64 4 mixed 0xf000 70 ≡ Option.none
unfolding find_bigalloc_under_pageindex_nofail
nofail_run = refl

top_level_run : lookup_bigalloc_top_level x86_64 4 mixed 0x5800 ≡ some 1
unfolding lookup_bigalloc_top_level
top_level_run = refl

-- no allocator knows the address
abbrev unknown : Notify
unknown s ptr = (s, false)

-- records 6 and 4, at depths 3 and 2, have record 1 above them, and the search misses it
common_run :
    ◌>>=◌ {B = ℕ}
      (get_common_parent_bigalloc x86_64 4 unknown unknown mixed 0x8184 0x5800)
      (λ p. some p.1)
    ≡ some 0
unfolding get_common_parent_bigalloc find_deepest_from
common_run = refl

-- the deepest record at both ends is 1, below which the new record 7 goes
new_run :
    ◌>>=◌ {B = ℕ × List ℕ}
      (new_bigalloc x86_64 4 unknown unknown 1 mixed 0x7000 0x1000 90 0 0 71)
      (λ p. some (p.1, map p.0.pageindex (6 ∷ 7 ∷ 8 ∷ [])))
    ≡ some (7, 4 ∷ 7 ∷ 1 ∷ [])
unfolding new_bigalloc memset_bigalloc find_deepest_from
new_run = refl

-- record 7 takes the page from 0x8000 and record 5 with it, and follows record 1
split_run :
    ◌>>=◌ {B = List ℕ × List ℕ} (split_bigalloc_at_page_boundary x86_64 1 4 mixed 1 0x8000) (λ p.
      let (s, b) = p in
      let new = s.big_allocations b in
      some (
        b ∷ new.begin ∷ new.end ∷ new.first_child ∷ new.prev_sib ∷ new.next_sib ∷ [],
        (s.big_allocations 1).end
            ∷ (s.big_allocations 4).next_sib
            ∷ map s.pageindex (7 ∷ 8 ∷ 9 ∷ []),
      ))
    ≡ some (7 ∷ 0x8000 ∷ 0x9000 ∷ 5 ∷ 1 ∷ 3 ∷ [], 0x8000 ∷ 0 ∷ 1 ∷ 7 ∷ 0 ∷ [])
unfolding split_bigalloc_at_page_boundary
split_run = refl
