-- ===== src/Pageindex/Examples.antt =====
-- Records without a parent, the creation of records and the climb to their parents, at a concrete
-- state: records 2, 1 and 3 follow each other, 1 being START, and records 4 and 5 are below 1.
use liballocs.Common.{
  ℕ, ◌≤◌, ◌<◌, ◌≡◌, ◌≢◌, refl, true, false, ◌||◌, [], ◌∷◌, some, arith, ◌==◌, if◌then◌else◌, has,
  update, List, ◌>>=◌,
}
use mathlib.Core.List.{map}
use liballocs.Pageindex.Vas.{x86_64}
use liballocs.Pageindex.State.{BigAlloc, State, in_use}
use liballocs.Pageindex.Forest.{Forest, leaf, node, IsForest}
use liballocs.Pageindex.Memset.{memset_bigalloc}
use liballocs.Pageindex.Toplevel.{find_toplevel_lowest_ge, find_mapping_at_or_above}
use liballocs.Pageindex.Toplevel.Correct.{
  IsToplevel, LowestPast, find_toplevel_lowest_ge-LowestPast, find_mapping_at_or_above-LowestPast,
}
use liballocs.Pageindex.Depth.{bigalloc_depth, get_common_parent_bigalloc_recursive}
use liballocs.Pageindex.Create.{bigalloc_new}
use liballocs.Pageindex.Create.Correct.{SameRange, bigalloc_new-graft}
use liballocs.Pageindex.Indexed.{Indexed, bigalloc_new-Indexed}
use liballocs.Pageindex.Link.Graft.{graft}
use liballocs.Pageindex.Link.Prune.{prune}
use liballocs.Pageindex.Delete.{bigalloc_del, delete_all_bigallocs_overlapping_range}
use liballocs.Pageindex.Delete.Cleared.{bigalloc_del-prune}
use liballocs.Pageindex.Resize.Laws.{spans_page}

abbrev top : (begin end first_child next_sib parent prev_sib : ℕ) → BigAlloc
top begin end first_child next_sib parent prev_sib = record {
  begin = begin;
  end = end;
  first_child = first_child;
  next_sib = next_sib;
  parent = parent;
  prev_sib = prev_sib;
  allocated_by = 70;
  suballocator = 0;
  allocator_private = 0;
  allocator_private_free = 0;
  suballocator_private = 0;
  suballocator_private_free = 0;
}

abbrev pub heap : ℕ → BigAlloc
heap b =
    if b == 1
    then top 0x5000 0x9000 4 3 0 2
    else if b == 2
    then top 0x1000 0x2000 0 1 0 0
    else if b == 3
    then top 0xa000 0xb000 0 0 0 1
    else if b == 4
    then top 0x5000 0x7000 0 5 1 0
    else if b == 5
    then top 0x8100 0x8200 6 0 1 4
    else if b == 6
    then top 0x8180 0x8190 0 0 5 0
    else top 0 0 0 0 0 0

abbrev pub pages : ℕ → ℕ
pages p =
    if p == 1
    then 2
    else if (p == 5) || (p == 6)
    then 4
    else if (p == 7) || (p == 8)
    then 1
    else if p == 10
    then 3
    else 0

abbrev pub world : State
world = record { big_allocations = heap; pageindex = pages; freed = [] }

heap-IsToplevel : IsToplevel heap 1 (3 ∷ []) (2 ∷ [])
heap-IsToplevel = record {
  forth = ground arith;
  back = ground arith;
  ascending = (λ y m. ground arith, (λ y m. ground arith, tt));
  descending = (λ y m. ground arith, (λ y m. ground arith, tt));
  nonempty = λ y m. ground arith;
}

find_toplevel_lowest_ge-LowestPast_example :
    (r : ℕ) × (find_toplevel_lowest_ge true heap 1 4 0x9800 ≡ some r)
    × LowestPast heap 0x9800 r (λ y. has y (1 ∷ 3 ∷ []) || has y (2 ∷ []))
find_toplevel_lowest_ge-LowestPast_example =
    find_toplevel_lowest_ge-LowestPast true heap-IsToplevel 4 0x9800 (omega arith) (omega arith)

find_mapping_at_or_above-LowestPast_example :
    (r : ℕ) × (find_mapping_at_or_above true heap 1 4 0x9800 ≡ some r)
    × LowestPast heap 0x9800 r (λ y. has y (1 ∷ 3 ∷ []) || has y (2 ∷ []))
find_mapping_at_or_above-LowestPast_example =
    find_mapping_at_or_above-LowestPast true heap-IsToplevel 4 0x9800 (omega arith) (omega arith) 2
      refl (omega arith)

-- the depths of a record and of its root's other child, and the common parent that the search misses
depth_run : bigalloc_depth heap 7 6 ≡ some 3
unfolding bigalloc_depth
depth_run = refl

common_parent_run : get_common_parent_bigalloc_recursive heap 6 3 4 2 ≡ 0
unfolding get_common_parent_bigalloc_recursive
common_parent_run = refl

-- a record of one page and a bit, between the children of record 1
abbrev forest : Forest
forest = node 2 leaf (node 1 (node 4 leaf (node 5 (node 6 leaf leaf) leaf)) (node 3 leaf leaf))

bigalloc_new-graft_example :
    (x : ℕ) × (s' : State) × (bigalloc_new x86_64 1 4 world 0x7000 0x1080 1 90 0 71 ≡ some (s', x))
    × (in_use (heap x) ≡ false)
    × ((i : ℕ) → 1 ≤ i → i < x → in_use (heap i) ≡ true)
    × IsForest s'.big_allocations 0 0 2 (graft 1 x leaf forest)
    × ((s'.big_allocations x).begin ≡ 0x7000)
    × ((s'.big_allocations x).end ≡ 0x8080)
    × ((i : ℕ) → i ≢ x → SameRange (heap i) (s'.big_allocations i))
    × ((q : ℕ) → s'.pageindex q ≡ (if spans_page (s'.big_allocations x) q then x else pages q))
bigalloc_new-graft_example =
    bigalloc_new-graft x86_64 1 4 world 0x7000 0x1080 1 90 0 71 7 2 forest (ground arith)
      (ground arith) refl (λ e. ground arith) refl (omega arith) (omega arith) (λ i e. ground arith)
      (λ p a b. ground arith, omega arith, omega arith, omega arith)

-- record 4 has metadata and a function that frees it
abbrev owned : State
owned = record world {
  big_allocations =
      update heap 4 (record (heap 4) { allocator_private = 90; allocator_private_free = 91 });
}

bigalloc_del-prune_example :
    (s' : State) × (bigalloc_del x86_64 1 owned 4 ≡ some s')
    × IsForest s'.big_allocations 0 0 2 (prune 4 forest)
    × (in_use (s'.big_allocations 4) ≡ false)
    × ((i : ℕ) → i ≢ 4 → SameRange (owned.big_allocations i) (s'.big_allocations i))
    × (s'.freed ≡ ((91, 90) ∷ []))
    × ((q : ℕ) → s'.pageindex q ≡ (if spans_page (heap 4) q then 1 else pages q))
bigalloc_del-prune_example =
    bigalloc_del-prune x86_64 owned 4 2 0 forest (ground arith) (ground arith) refl refl
      (λ e. ground arith) (omega arith)
      (λ p a b. ground arith, omega arith, omega arith, omega arith)

-- records 1, with its descendants, and 3 overlap the range
delete_all_run :
    ◌>>=◌ {B = List ℕ × List (ℕ × ℕ)}
      (delete_all_bigallocs_overlapping_range x86_64 6 owned 0x5800 0xa800)
      (λ s. some (map s.pageindex (1 ∷ 5 ∷ 6 ∷ 7 ∷ 8 ∷ 10 ∷ []), s.freed))
    ≡ some (2 ∷ 0 ∷ 0 ∷ 0 ∷ 0 ∷ 0 ∷ [], (91, 90) ∷ [])
unfolding delete_all_bigallocs_overlapping_range memset_bigalloc
delete_all_run = refl

world-Indexed : Indexed world forest
world-Indexed q = ground arith

bigalloc_new-Indexed_example :
    (x : ℕ) × (s' : State) × (bigalloc_new x86_64 1 4 world 0x7000 0x1080 1 90 0 71 ≡ some (s', x))
    × IsForest s'.big_allocations 0 0 2 (graft 1 x leaf forest)
    × Indexed s' (graft 1 x leaf forest)
bigalloc_new-Indexed_example =
    bigalloc_new-Indexed x86_64 1 4 world 0x7000 0x1080 1 90 0 71 7 2 forest (ground arith)
      (ground arith) (ground arith) world-Indexed refl (λ e. ground arith) (omega arith)
      (omega arith) refl (omega arith) (omega arith) (λ i e. ground arith)
      (λ p a b. ground arith, omega arith, omega arith, omega arith)
