-- ===== src/Pageindex/Tests.antt =====
-- The page index at a concrete state: record 1 spans 16 pages, its children are 3, within a page, and
-- 2, of four pages, with the child 4 in it. Record 5 is not linked.
use liballocs.Common.{
  ℕ, ◌/◌, ◌≡◌, refl, true, false, not, ◌&&◌, [], ◌∷◌, none, some, arith, ltb, leb, ◌==◌,
  if◌then◌else◌, ◌∈◌,
}
use liballocs.Pageindex.Vas.{x86_64}
use liballocs.Pageindex.State.{BigAlloc, State}
use liballocs.Pageindex.Forest.{Forest, leaf, node, ids, IsForest}
use liballocs.Pageindex.Memset.{memset_bigalloc}
use liballocs.Pageindex.Memset.Laws.{fill, memset_bigalloc-fill}
use liballocs.Pageindex.Find.{
  find_deepest_bigalloc_recursive, find_bigalloc_recursive, leaf_allocator_for,
}
use liballocs.Pageindex.Find.Laws.{}
use liballocs.Pageindex.Find.Nesting.{Tightest, Outermost}
use liballocs.Pageindex.Find.Correct.{
  IsTree, find_deepest-Tightest, find_bigalloc-Outermost, leaf_allocator_for-find_deepest,
}
use liballocs.Pageindex.Resize.{extend_bigalloc, pre_extend_bigalloc}
use liballocs.Pageindex.Resize.Laws.{spans_page}
use liballocs.Pageindex.Resize.Correct.{
  Resized, extend_bigalloc-Resized, pre_extend_bigalloc-Resized, taken_below,
}
use liballocs.Pageindex.Sanity.{own_checks, sanity_check_bigalloc}
use liballocs.Pageindex.Sanity.Passes.{Fits}
use liballocs.Pageindex.Link.{add_child, unlink_child}
use liballocs.Pageindex.Link.Graft.{graft}
use liballocs.Pageindex.Link.Added.{add_child-graft}
use liballocs.Pageindex.Link.Prune.{prune, unlink_child-prune}

abbrev rec : (begin end first_child next_sib parent prev_sib allocated_by : ℕ) → BigAlloc
rec begin end first_child next_sib parent prev_sib allocated_by = record {
  begin = begin;
  end = end;
  first_child = first_child;
  next_sib = next_sib;
  parent = parent;
  prev_sib = prev_sib;
  allocated_by = allocated_by;
  suballocator = 0;
  allocator_private = 0;
  allocator_private_free = 0;
  suballocator_private = 0;
  suballocator_private_free = 0;
}

abbrev records : ℕ → BigAlloc
records b =
    if b == 1
    then rec 0x10000 0x20000 3 0 0 0 70
    else if b == 2
    then rec 0x10000 0x14000 4 0 1 3 71
    else if b == 3
    then rec 0x14800 0x15000 0 2 1 0 71
    else if b == 4
    then rec 0x10800 0x10900 0 0 2 0 72
    else rec 0x16000 0x17000 0 0 0 0 71

abbrev index : ℕ → ℕ
index p = if leb 16 p && ltb p 20 then 2 else if leb 20 p && ltb p 32 then 1 else 0

abbrev sample : State
sample = record { big_allocations = records; pageindex = index; freed = [] }

abbrev below_one : Forest
below_one = node 3 leaf (node 2 (node 4 leaf leaf) leaf)

sample-IsTree : IsTree records 1 below_one
sample-IsTree = record {
  is_record = λ e. ground arith;
  links = ground arith;
  inside = ground arith;
  nested = ground arith;
  distinct = ground arith;
}

memset_bigalloc-fill_example :
    (t' : ℕ → ℕ) × (memset_bigalloc x86_64 index 15 7 2 4 ≡ some t')
    × ((q : ℕ) → t' q ≡ fill index 15 7 4 q)
memset_bigalloc-fill_example =
    memset_bigalloc-fill x86_64 index 15 7 2 4 (omega arith) (λ p a b. ground arith) (omega arith)
      (omega arith)

find_deepest-Tightest_example :
    (d : ℕ) × (find_deepest_bigalloc_recursive records 5 1 0x10880 ≡ some d)
    × (d ∈ (1 ∷ ids below_one))
    × Tightest records 0x10880 d (1 ∷ ids below_one)
find_deepest-Tightest_example = find_deepest-Tightest sample-IsTree 5 0x10880 (omega arith) refl

find_bigalloc-Outermost_example :
    (r : ℕ) × (find_bigalloc_recursive records 5 1 0x10880 71 false ≡ some r)
    × Outermost records 0x10880 71 false r (1 ∷ ids below_one)
find_bigalloc-Outermost_example =
    find_bigalloc-Outermost sample-IsTree 5 0x10880 (omega arith) 71 false refl

leaf_allocator_for-find_deepest_example :
    (d : ℕ) × (find_deepest_bigalloc_recursive records 5 1 0x14880 ≡ some d)
    × (leaf_allocator_for records index 5 20 0x14880
        ≡ some (
          if (records d).suballocator == 0
              then (records d).allocated_by
              else (records d).suballocator,
          d,
        ))
leaf_allocator_for-find_deepest_example =
    leaf_allocator_for-find_deepest sample-IsTree 5 0x14880 (omega arith) index 20 refl

leaf_allocator_for_run : leaf_allocator_for records index 5 20 0x14880 ≡ some (71, 3)
unfolding leaf_allocator_for
leaf_allocator_for_run = refl

extend_bigalloc-Resized_example :
    (s' : State) × (extend_bigalloc x86_64 sample 1 0x22000 ≡ some s')
    × Resized sample s' 1
        (record (records 1) { end = 0x22000 })
        1
        (λ p. spans_page (record (records 1) { end = 0x22000 }) p && not (spans_page (records 1) p))
extend_bigalloc-Resized_example =
    extend_bigalloc-Resized x86_64 sample 1 0x22000 (omega arith) (omega arith) (omega arith)
      (λ p a b. ground arith, omega arith, omega arith, omega arith)

pre_extend_bigalloc-Resized_example :
    (s' : State) × (pre_extend_bigalloc x86_64 5 sample 1 0xe000 ≡ some s')
    × Resized sample s' 1
        (record (records 1) { begin = 0xe000 })
        1
        (λ p.
          spans_page (record (records 1) { begin = 0xe000 }) p
          && not (spans_page (records 1) p)
          && not ((p == 0x10000 / 4096) && taken_below x86_64 sample 1 0xe000 below_one))
pre_extend_bigalloc-Resized_example =
    pre_extend_bigalloc-Resized x86_64 sample 1 0xe000 5 below_one (omega arith) sample-IsTree.links
      (omega arith) (omega arith) (omega arith)
      (λ p a b. ground arith, omega arith, omega arith, omega arith)

-- record 5 becomes the first child of record 1
abbrev all_of_one : Forest
all_of_one = node 1 below_one leaf

all_of_one-IsForest : IsForest records 0 0 1 all_of_one
all_of_one-IsForest = ground arith

-- minimum alignments: allocator 70 wants pages, the others have none
abbrev alignment : ℕ → ℕ
alignment a = if a == 70 then 4096 else 0

sample-Fits : Fits x86_64 alignment records index all_of_one
unfolding own_checks
sample-Fits = ground arith

fifth-Fits : Fits x86_64 alignment records index (node 5 leaf leaf)
unfolding own_checks
fifth-Fits = ground arith

add_child-graft_example :
    (bs' : ℕ → BigAlloc) × (add_child x86_64 alignment 5 5 index records 5 1 ≡ some bs')
    × IsForest bs' 0 0 1 (graft 1 5 leaf all_of_one)
    × ((bs' 5).parent ≡ 1)
    × ((j : ℕ)
        → ((bs' j).begin ≡ (records j).begin)
          × ((bs' j).end ≡ (records j).end)
          × ((bs' j).allocated_by ≡ (records j).allocated_by))
    × ((y : ℕ)
        → y ∈ ids (graft 1 5 leaf all_of_one)
        → sanity_check_bigalloc x86_64 alignment bs' index 5 5 y ≡ true)
add_child-graft_example =
    add_child-graft x86_64 alignment 5 5 index records 5 1 0 1 all_of_one leaf all_of_one-IsForest
      refl (ground arith) refl (λ e. ground arith) refl refl refl sample-Fits fifth-Fits
      (omega arith) (omega arith) (omega arith) (omega arith)

-- under record 2, whose range does not hold record 5, the check of the child fails
add_child_outside : add_child x86_64 alignment 5 5 index records 5 2 ≡ none
unfolding add_child
add_child_outside = refl

graft_run : graft 1 5 leaf all_of_one ≡ node 1 (node 5 leaf below_one) leaf
graft_run = refl

unlink_child-prune_example :
    (bs' : ℕ → BigAlloc) × (unlink_child true records 2 ≡ some bs')
    × IsForest bs' 0 0 1 (prune 2 all_of_one)
    × ((bs' 2).parent ≡ 0)
    × ((bs' 2).next_sib ≡ 0)
    × ((bs' 2).prev_sib ≡ 0)
    × ((j : ℕ) → ((bs' j).begin ≡ (records j).begin) × ((bs' j).end ≡ (records j).end))
unlink_child-prune_example =
    unlink_child-prune true records 2 1 all_of_one all_of_one-IsForest (ground arith) refl
      (λ e. ground arith)

prune_run : prune 2 all_of_one ≡ node 1 (node 3 leaf leaf) leaf
prune_run = refl
