-- ===== src/Bfs.antt =====
-- The breadth-first walk of objects in src/uniqtype-bfs.c. A node record is its object and its type; a
-- queue of records is a list, which Bfs/Queue shows of the functions of include/uniqtype-bfs.h. What the
-- macros of uniqtype-defs.h, of another project, read from a struct uniqtype is a table; the memory and
-- the callback follow_ptr are functions, and the calls of on_blacken are logged. Output is left out.
-- `none` is a failed assertion, a read through null, or fuel run out.
pub mod TreeMap
pub mod Queue
pub mod Reference
pub mod Adjacency
pub mod Maps
pub mod Correct
mod Tests
use liballocs.Common.{
  ℕ, zero, suc, ◌+◌, ◌%◌, Bool, true, false, not, ◌&&◌, ◌||◌, Option, none, some, List, [], ◌∷◌,
  ◌++◌, leb, ltb, ◌==◌, if◌then◌else◌, require, ◌>>=◌, ◌>>◌,
}
use liballocs.Bfs.TreeMap.{SearchTree, treemap_get, treemap_set}

-- struct uniqtype, with the types and offsets that UNIQTYPE_FOR_EACH_SUBOBJECT goes through
pub record WalkType : Type 0 where
  pub is_pointer : Bool
  pub pointee : ℕ
  pub is_composite : Bool
  pub has_subobjects : Bool
  pub make_precise : Bool
  pub subobjects : List (ℕ × ℕ)

-- __uniqtype_node_rec: the object and its type
abbrev pub Node : Type 0
Node = ℕ × ℕ

-- __uniqtype_default_follow_ptr
abbrev pub default_follow_ptr : Node → Node
default_follow_ptr node = node

-- IS_PLAUSIBLE_POINTER
abbrev pub is_plausible_pointer : ℕ → Bool
is_plausible_pointer p =
    (p == 0) || (p == 0xffff_ffff_ffff_ffff) || leb 4194304 p && ltb p 0x8000_0000_0000

module _ (debug : Bool) (types : ℕ → WalkType) (void_pointer : ℕ) (mem : ℕ → ℕ)
    (follow_ptr : Node → Node) where
  -- the node that a pointer adds to the adjacency list
  abbrev pub pointed_to : (pointed_to_object static_t : ℕ) → List Node
  pointed_to p t =
      let node = follow_ptr (p, t) in
      if not (p == 0) && is_plausible_pointer p && not (node.0 == 0) then node ∷ [] else []

  -- visit_one_subobject; `recurse` is build_adjacency_list_recursive
  unfoldable pub visit_one_subobject :
      (recurse : (start_offset t : ℕ) → List Node → Option (List Node)) (obj_start start_offset : ℕ)
      → (element_type memb_offset : ℕ) → List Node
      → Option (List Node)
  visit_one_subobject recurse obj_start start_offset element_type memb_offset adj =
      let e = types element_type in
      elim e.is_pointer [
        | true ↦ some (
            adj
            ++ pointed_to (mem ((obj_start + start_offset + memb_offset) % 0x1_0000_0000_0000_0000))
                e.pointee)
        | false ↦ elim e.is_composite [
          | true ↦ recurse (start_offset + memb_offset) element_type adj
          | false ↦ some adj
        ]
      ]

  -- the loop over the subobjects
  unfoldable pub for_each_subobject :
      (visit : (element_type memb_offset : ℕ) → List Node → Option (List Node))
      → List (ℕ × ℕ)
      → List Node
      → Option (List Node)
  for_each_subobject visit [] adj = some adj
  for_each_subobject visit ((element_type, memb_offset) ∷ rest) adj = do
    adj' ← visit element_type memb_offset adj
    for_each_subobject visit rest adj'

  -- build_adjacency_list_recursive, on fuel for the depth
  unfoldable pub build_adjacency_list_recursive :
      ℕ → (obj_start start_offset t : ℕ) → List Node → Option (List Node)
  unfolding for_each_subobject visit_one_subobject
  build_adjacency_list_recursive zero obj_start start_offset t adj = none
  build_adjacency_list_recursive (suc k) obj_start start_offset t adj = elim (t == void_pointer) [
    | true ↦ some adj
    | false ↦ do
      require (not debug || not (t == 0) && not (types t).make_precise)
      elim ((t == 0) || not (types t).has_subobjects) [
        | true ↦ some adj
        | false ↦
            for_each_subobject
              (visit_one_subobject (build_adjacency_list_recursive k obj_start) obj_start
                start_offset)
              (types t).subobjects adj
      ]
  ]

-- enum node_colour
abbrev pub grey : ℕ
grey = 1

abbrev pub black : ℕ
black = 2

module _ {base : ℕ} (tree : SearchTree base) where
  -- the queue, the three maps, and the calls of on_blacken so far, in order
  pub record Walk : Type 0 where
    pub queue : List Node
    pub colours : tree.Tree
    pub distances : tree.Tree
    pub predecessors : tree.Tree
    pub blackened : List Node

module _ {base : ℕ} (debug : Bool) (tree : SearchTree base) where
  -- the loop over the adjacent nodes
  unfoldable pub enqueue_white : List Node → Walk tree → Option (Walk tree)
  enqueue_white [] s = some s
  enqueue_white (v ∷ adj) s = do
    colour ← treemap_get debug tree s.colours v.0
    s' ← elim (colour == 0) [
      | false ↦ some s
      | true ↦ do
        colours ← treemap_set debug tree s.colours v.0 grey
        distance ← treemap_get debug tree s.distances v.0
        distances ←
            treemap_set debug tree s.distances v.0 ((distance + 1) % 0x1_0000_0000_0000_0000)
        predecessors ← treemap_set debug tree s.predecessors v.0 v.0
        some (record s {
          queue = s.queue ++ v ∷ [];
          colours = colours;
          distances = distances;
          predecessors = predecessors;
        })
    ]
    enqueue_white adj s'

  -- the body of the loop, after `u` left the queue; `adjacent` builds the adjacency list
  unfoldable pub process_node :
      (adjacent : Node → Option (List Node)) → Node → Walk tree → Option (Walk tree)
  unfolding enqueue_white
  process_node adjacent u s = do
    colours ← treemap_set debug tree s.colours u.0 grey
    adj ← adjacent u
    s1 ← enqueue_white adj (record s { colours = colours })
    colours1 ← treemap_set debug tree s1.colours u.0 black
    some (record s1 { colours = colours1; blackened = s1.blackened ++ u ∷ [] })

  -- process_bfs_queue_and_maps, on fuel for the nodes
  unfoldable pub process_bfs_queue :
      (adjacent : Node → Option (List Node)) → ℕ → Walk tree → Option (Walk tree)
  unfolding process_node
  process_bfs_queue adjacent zero s = none
  process_bfs_queue adjacent (suc k) s = elim s.queue [
    | [] ↦ some s
    | u ∷ rest ↦ do
      s' ← process_node adjacent u (record s { queue = rest })
      process_bfs_queue adjacent k s'
  ]

module _ {base : ℕ} (debug : Bool) (tree : SearchTree base) (types : ℕ → WalkType)
    (void_pointer : ℕ) (mem : ℕ → ℕ) (follow_ptr : Node → Node) where
  -- __uniqtype_walk_bfs_from_object: the calls of on_blacken; `depth` is fuel for the types
  unfoldable pub walk_bfs_from_object : (depth fuel : ℕ) → (object t : ℕ) → Option (List Node)
  unfolding process_bfs_queue build_adjacency_list_recursive
  walk_bfs_from_object depth fuel object t = elim (object == 0) [
    | true ↦ some []
    | false ↦ do
      s ←
          process_bfs_queue debug tree
            (λ u.
              build_adjacency_list_recursive debug types void_pointer mem follow_ptr depth u.0 0 u.1
                [])
            fuel
            (record {
              queue = (object, t) ∷ [];
              colours = tree.empty;
              distances = tree.empty;
              predecessors = tree.empty;
              blackened = [];
            })
      some s.blackened
  ]
