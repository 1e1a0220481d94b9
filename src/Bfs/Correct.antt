-- ===== src/Bfs/Correct.antt =====
-- The walk visits what the search over lists finds.
use liballocs.Common.{
  ℕ, zero, suc, ◌<◌, ◌≡◌, refl, Bool, true, false, ◌||◌, Option, some, List, [], ◌∷◌, arith, ◌==◌,
  length, has, ◌∈◌, sym, subst, ◌∙◌,
}
use liballocs.Bfs.{
  Node, WalkType, Walk, process_node, process_bfs_queue, build_adjacency_list_recursive,
  walk_bfs_from_object,
}
use liballocs.Bfs.TreeMap.{SearchTree, InReach}
use liballocs.Bfs.Reference.{
  objects, enqueue, search_from, Reachable, here, next, IsSearch, Invariant, Invariant-start,
  Invariant-step, search_from-IsSearch, All-of_mem,
}
use liballocs.Bfs.Adjacency.{adjacent_nodes, is_plain, build_adjacency_list-nodes_at}
use liballocs.Bfs.Maps.{Mapped, Mapped-start, process_node-step}

-- The objects that are not white are those visited and those queued, but for the head of the queue,
-- which may still be white.
abbrev Agrees : (known : ℕ → Bool) (queue visited : List Node) → Type 0
Agrees known [] visited = Unit
Agrees known (u ∷ rest) visited =
    (j : ℕ) → ((j == u.0) || known j) ≡ (has j (u.0 ∷ objects visited) || has j (objects rest))

Agrees-objects :
    (queue visited : List Node)
    → Agrees (λ j. has j (objects visited) || has j (objects queue)) queue visited
Agrees-objects [] visited = tt
Agrees-objects (u ∷ rest) visited = λ j. ground arith

module _ {base : ℕ} (debug : Bool) (tree : SearchTree base)
    (build : Node → Option (List Node)) where
  process_bfs_queue-nil :
      (k : ℕ) (s : Walk tree) → s.queue ≡ [] → process_bfs_queue debug tree build (suc k) s ≡ some s
  unfolding process_bfs_queue
  process_bfs_queue-nil k s e = ground (arith, e)

  process_bfs_queue-next :
      (k : ℕ) (u : Node) (rest : List Node) (s s' : Walk tree)
      → s.queue ≡ u ∷ rest
      → process_node debug tree build u (record s { queue = rest }) ≡ some s'
      → process_bfs_queue debug tree build (suc k) s ≡ process_bfs_queue debug tree build k s'
  unfolding process_bfs_queue
  process_bfs_queue-next k u rest s s' e run = ground (arith, e, run)

module _ {base : ℕ} (debug : Bool) (tree : SearchTree base) (build : Node → Option (List Node))
    (adjacent : Node → List Node) (start : Node) (positive : 0 < base)
    (reach : (v : Node) → Reachable adjacent start v → InReach base v.0)
    (built : (v : Node) → Reachable adjacent start v → build v ≡ some (adjacent v)) where
  process_bfs_queue-search_from :
      (k : ℕ) (queue : List Node) (known : ℕ → Bool) (s : Walk tree) (found : List Node)
      → s.queue ≡ queue
      → Invariant adjacent start queue s.blackened
      → Mapped debug tree known s
      → Agrees known queue s.blackened
      → search_from adjacent k queue s.blackened ≡ some found
      → (s' : Walk tree) × (process_bfs_queue debug tree build k s ≡ some s')
        × (s'.blackened ≡ found)
  unfolding search_from
  process_bfs_queue-search_from zero queue known s found e inv m agrees run =
      absurd (ground (arith, run))
  process_bfs_queue-search_from (suc k) [] known s found e inv m agrees run =
      (s, process_bfs_queue-nil debug tree build k s e, ground (arith, run))
  process_bfs_queue-search_from (suc k) (u ∷ rest) known s found e inv m agrees run =
      let ru = inv.sound_queue.0 in
      let (s1, step, queue1, blackened1, m1) =
        process_node-step debug tree build u (adjacent u) known (record s { queue = rest }) positive
          (reach u ru) (built u ru)
          (All-of_mem (λ (v : Node). InReach base v.0) (adjacent u) (λ v i. reach v (next ru i)))
          record {
            colour = m.colour;
            distance = m.distance;
            predecessor = m.predecessor;
            white = m.white;
            near = m.near;
          }
          agrees in
      let queue = enqueue (u.0 ∷ objects s.blackened) (adjacent u) rest in
      let (s2, runs, blackened) =
        process_bfs_queue-search_from k queue
          (λ j. has j (objects s1.blackened) || has j (objects s1.queue)) s1 found queue1
          (subst (λ l. Invariant adjacent start queue l) (sym blackened1)
            (Invariant-step adjacent start u rest s.blackened inv))
          m1
          (subst
            (λ q.
              Agrees (λ j. has j (objects s1.blackened) || has j (objects q)) queue s1.blackened)
            (sym queue1) (Agrees-objects queue s1.blackened))
          (subst (λ l. search_from adjacent k queue l ≡ some found) (sym blackened1) run) in
      (s2, process_bfs_queue-next debug tree build k u rest s s1 e step ∙ runs, blackened)

module _ {base : ℕ} (debug : Bool) (tree : SearchTree base) (types : ℕ → WalkType)
    (void_pointer : ℕ) (mem : ℕ → ℕ) (follow_ptr : Node → Node) where
  walk_bfs_from_object-runs :
      (depth fuel object t : ℕ) (s : Walk tree)
      → (object == 0) ≡ false
      → process_bfs_queue debug tree
          (λ u.
            build_adjacency_list_recursive debug types void_pointer mem follow_ptr depth u.0 0 u.1
              [])
          fuel
          (record {
            queue = (object, t) ∷ [];
            colours = tree.empty;
            distances = tree.empty;
            predecessors = tree.empty;
            blackened = [];
          })
        ≡ some s
      → walk_bfs_from_object debug tree types void_pointer mem follow_ptr depth fuel object t
        ≡ some s.blackened
  unfolding walk_bfs_from_object
  walk_bfs_from_object-runs depth fuel object t s e run = ground (arith, e, run)

  -- Let the objects that are reached from the given one through pointers be within reach of the maps'
  -- comparison and among those of `universe`, and let their types be plain, that is, nest no deeper
  -- than `depth` and fail no assertion. With fuel for more nodes than `universe` has, the walk returns;
  -- it blackens each object at most once, the object given among them; every node that it blackens is
  -- reached from the object, and of every node that it blackens, all adjacent nodes have their objects
  -- blackened.
  pub walk_bfs_from_object-IsSearch :
      (depth fuel object t : ℕ) (universe : List ℕ)
      → 0 < base
      → ((v : Node)
          → Reachable (adjacent_nodes debug types void_pointer mem follow_ptr depth) (object, t) v
          → InReach base v.0)
      → ((v : Node)
          → Reachable (adjacent_nodes debug types void_pointer mem follow_ptr depth) (object, t) v
          → v.0 ∈ universe)
      → ((v : Node)
          → Reachable (adjacent_nodes debug types void_pointer mem follow_ptr depth) (object, t) v
          → is_plain debug types void_pointer mem follow_ptr depth v.1 ≡ true)
      → length universe < fuel
      → (visited : List Node) × (walk_bfs_from_object debug tree types void_pointer mem follow_ptr
            depth fuel object t
          ≡ some visited)
        × IsSearch
            (adjacent_nodes debug types void_pointer mem follow_ptr depth)
            (object, t)
            visited
  walk_bfs_from_object-IsSearch depth fuel object t universe positive reach covers plain enough =
      let start : Node = (object, t) in
      let adjacent = adjacent_nodes debug types void_pointer mem follow_ptr depth in
      let (found, run, search) =
        search_from-IsSearch adjacent start universe fuel (start ∷ []) [] covers
          (Invariant-start adjacent start) (omega (arith, enough)) in
      let (s, runs, blackened) =
        process_bfs_queue-search_from debug tree
          (λ u.
            build_adjacency_list_recursive debug types void_pointer mem follow_ptr depth u.0 0 u.1
              [])
          adjacent start positive reach
          (λ v r.
            build_adjacency_list-nodes_at debug types void_pointer mem follow_ptr depth v.0 0 v.1 []
              (plain v r))
          fuel (start ∷ []) (λ j. false)
          (record {
            queue = start ∷ [];
            colours = tree.empty;
            distances = tree.empty;
            predecessors = tree.empty;
            blackened = [];
          })
          found refl (Invariant-start adjacent start) (Mapped-start debug tree start)
          (λ j. ground arith) run in
      (
        found,
        subst
            (λ l.
              walk_bfs_from_object debug tree types void_pointer mem follow_ptr depth fuel object t
              ≡ some l)
            blackened
            (walk_bfs_from_object-runs depth fuel object t s (ground (arith, (reach start here).0))
              runs),
        search,
      )
