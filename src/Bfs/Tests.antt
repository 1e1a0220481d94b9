-- ===== src/Bfs/Tests.antt =====
-- Two objects with pointers to each other and to themselves, and a queue.
use liballocs.Common.{
  ℕ, ◌%◌, ◌≡◌, ◌⊎◌, inl, inr, refl, true, false, Option, none, some, List, [], ◌∷◌, arith, ◌==◌,
  if◌then◌else◌, ◌∈◌, subst, sym,
}
use liballocs.Bfs.{WalkType, Node, default_follow_ptr, walk_bfs_from_object}
use liballocs.Bfs.TreeMap.{SearchTree, InReach, compar}
use liballocs.Bfs.Reference.{NodeIn, Reachable, here, next, IsSearch}
use liballocs.Bfs.Adjacency.{adjacent_nodes, is_plain}
use liballocs.Bfs.Correct.{walk_bfs_from_object-IsSearch}
use liballocs.Bfs.Queue.{NodeQueue, IsQueue, push, pop, run_queue, run_queue-run_list}

abbrev remainder : ℕ → ℕ
remainder k = k % 0x1_0000_0000

abbrev keep : (ℕ → Option ℕ) → (k value : ℕ) → ℕ → Option ℕ
keep t k value r = if r == remainder k then some value else t r

compar-remainder :
    (base j k : ℕ)
    → InReach base j
    → InReach base k
    → (remainder j == remainder k) ≡ (compar j k == 0)
compar-remainder base j k rj rk = ground arith

keep_lem :
    (t : ℕ → Option ℕ) (k j value : ℕ)
    → InReach 4194304 k
    → InReach 4194304 j
    → keep t k value (remainder j) ≡ (if compar j k == 0 then some value else t (remainder j))
keep_lem t k j value rk rj = ground (arith, compar-remainder 4194304 j k rj rk)

-- a map from the remainders that compar tells apart
abbrev tree : SearchTree 4194304
tree = record {
  Tree = ℕ → Option ℕ;
  empty = λ r. none;
  tfind = λ t k. t (remainder k);
  store = keep;
  tsearch = keep;
  tfind-empty = λ k. refl;
  tfind-store = λ t k j value rk rj there. keep_lem t k j value rk rj;
  tfind-tsearch = λ t k j value rk rj absent. keep_lem t k j value rk rj;
}

-- a structure with a pointer and, 8 bytes in, a structure with a pointer
abbrev types : ℕ → WalkType
types t =
    if t == 1
    then record {
      is_pointer = false;
      pointee = 0;
      is_composite = true;
      has_subobjects = true;
      make_precise = false;
      subobjects = (3, 0) ∷ (2, 8) ∷ [];
    }
    else if t == 2
    then record {
      is_pointer = false;
      pointee = 0;
      is_composite = true;
      has_subobjects = true;
      make_precise = false;
      subobjects = (3, 0) ∷ [];
    }
    else record {
      is_pointer = true;
      pointee = 1;
      is_composite = false;
      has_subobjects = false;
      make_precise = false;
      subobjects = [];
    }

-- the word at 0x400000 points to 0x400010, all other words to 0x400000
abbrev mem : ℕ → ℕ
mem a = if a == 4194304 then 4194320 else 4194304

abbrev first : Node
first = (4194304, 1)

abbrev second : Node
second = (4194320, 1)

either : (P : Node → Type 0) → P first → P second → (v : Node) → (v ≡ first) ⊎ (v ≡ second) → P v
either P a b v (inl e) = subst P (sym e) a
either P a b v (inr e) = subst P (sym e) b

-- what a node among two is, when both are among the two objects
among :
    (x y v : Node)
    → (x ≡ first) ⊎ (x ≡ second)
    → (y ≡ first) ⊎ (y ≡ second)
    → NodeIn v (x ∷ y ∷ [])
    → (v ≡ first) ⊎ (v ≡ second)
among x y v hx hy (inl e) = subst (λ w. (w ≡ first) ⊎ (w ≡ second)) (sym e) hx
among x y v hx hy (inr (inl e)) = subst (λ w. (w ≡ first) ⊎ (w ≡ second)) (sym e) hy
among x y v hx hy (inr (inr e)) = absurd e

reached :
    (v : Node)
    → Reachable (adjacent_nodes true types 9 mem default_follow_ptr 3) first v
    → (v ≡ first) ⊎ (v ≡ second)
reached v here = inl refl
reached v (next {u = u} r m) =
    either
      (λ w.
        NodeIn v (adjacent_nodes true types 9 mem default_follow_ptr 3 w)
        → (v ≡ first) ⊎ (v ≡ second))
      (λ i. among second first v (inr refl) (inl refl) i)
      (λ i. among first first v (inl refl) (inl refl) i) u (reached u r) m

walk_run :
    walk_bfs_from_object true tree types 9 mem default_follow_ptr 3 3 4194304 1
    ≡ some (first ∷ second ∷ [])
unfolding walk_bfs_from_object liballocs.Bfs.TreeMap.treemap_set
walk_run = refl

walk_bfs_from_object-IsSearch_example :
    (visited : List Node) × (walk_bfs_from_object true tree types 9 mem default_follow_ptr 3 3
        4194304 1
      ≡ some visited)
    × IsSearch (adjacent_nodes true types 9 mem default_follow_ptr 3) first visited
walk_bfs_from_object-IsSearch_example =
    walk_bfs_from_object-IsSearch true tree types 9 mem default_follow_ptr 3 3 4194304 1
      (4194304 ∷ 4194320 ∷ []) (omega arith)
      (λ v r.
        either (λ w. InReach 4194304 w.0) (omega arith, omega arith, omega arith)
          (omega arith, omega arith, omega arith) v (reached v r))
      (λ v r. either (λ w. w.0 ∈ (4194304 ∷ 4194320 ∷ [])) refl refl v (reached v r))
      (λ v r.
        either (λ w. is_plain true types 9 mem default_follow_ptr 3 w.1 ≡ true) refl refl v
          (reached v r))
      (omega arith)

abbrev empty_queue : NodeQueue
empty_queue = record { head = 0; tail = 0; next = λ a. 0 }

empty_queue-IsQueue : IsQueue empty_queue []
empty_queue-IsQueue = record { linked = refl; tail = refl; once = tt; free = λ n o. refl }

run_queue-run_list_example :
    run_queue true (push 8 ∷ push 16 ∷ pop ∷ push 8 ∷ pop ∷ pop ∷ pop ∷ []) empty_queue
    ≡ some ((8, false) ∷ (16, false) ∷ (8, true) ∷ (0, true) ∷ [])
run_queue-run_list_example =
    run_queue-run_list true (push 8 ∷ push 16 ∷ pop ∷ push 8 ∷ pop ∷ pop ∷ pop ∷ []) empty_queue []
      ((8, false) ∷ (16, false) ∷ (8, true) ∷ (0, true) ∷ []) empty_queue-IsQueue refl
