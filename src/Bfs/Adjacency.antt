-- ===== src/Bfs/Adjacency.antt =====
-- The adjacency list that the walk builds for an object, against the list of the pointers in its type.
use mathlib.Core.List.{append-nil, append_assoc}
use liballocs.Common.{
  ℕ, zero, suc, ◌+◌, ◌%◌, ◌≡◌, inl, inr, refl, Bool, true, false, not, ◌&&◌, ◌||◌, Option, some,
  List, [], ◌∷◌, ◌++◌, arith, ◌==◌, if◌then◌else◌, Bool-cases, ap, sym, ◌∙◌,
}
use liballocs.Bfs.{
  Node, WalkType, pointed_to, visit_one_subobject, for_each_subobject,
  build_adjacency_list_recursive,
}

module _ (debug : Bool) (types : ℕ → WalkType) (void_pointer : ℕ) (mem : ℕ → ℕ)
    (follow_ptr : Node → Node) where
  -- the pointers of one subobject, and of several
  abbrev fields_of_one :
      (inside : (start_offset t : ℕ) → List (ℕ × ℕ)) (start_offset e o : ℕ) → List (ℕ × ℕ)
  fields_of_one inside start e o =
      if (types e).is_pointer
      then (start + o, (types e).pointee) ∷ []
      else if (types e).is_composite
      then inside (start + o) e
      else []

  abbrev fields_of :
      (inside : (start_offset t : ℕ) → List (ℕ × ℕ)) (start_offset : ℕ)
      → List (ℕ × ℕ)
      → List (ℕ × ℕ)
  fields_of inside start [] = []
  fields_of inside start ((e, o) ∷ rest) =
      fields_of_one inside start e o ++ fields_of inside start rest

  -- the offset and the pointee of each pointer in a type, in the order of the subobjects
  abbrev pointer_fields : ℕ → (start_offset t : ℕ) → List (ℕ × ℕ)
  pointer_fields zero start t = []
  pointer_fields (suc k) start t =
      let inside = fields_of (pointer_fields k) start (types t).subobjects in
      if (t == void_pointer) || (t == 0) || not (types t).has_subobjects then [] else inside

  -- the nodes that these pointers lead to from an object
  abbrev nodes_at : (obj_start : ℕ) → List (ℕ × ℕ) → List Node
  nodes_at obj [] = []
  nodes_at obj ((o, t) ∷ rest) =
      pointed_to debug types void_pointer mem follow_ptr (mem ((obj + o) % 0x1_0000_0000_0000_0000))
        t
      ++ nodes_at obj rest

  -- the nodes that the pointers in an object lead to
  abbrev pub adjacent_nodes : (depth : ℕ) → Node → List Node
  adjacent_nodes depth u = nodes_at u.0 (pointer_fields depth 0 u.1)

  abbrev all_plain : (plain : ℕ → Bool) → List (ℕ × ℕ) → Bool
  all_plain plain [] = true
  all_plain plain ((e, o) ∷ rest) =
      ((types e).is_pointer || not (types e).is_composite || plain e) && all_plain plain rest

  -- the composite types of a type nest no deeper than k, and none fails the assertion
  abbrev pub is_plain : ℕ → (t : ℕ) → Bool
  is_plain zero t = false
  is_plain (suc k) t =
      let inside = all_plain (is_plain k) (types t).subobjects in
      (t == void_pointer)
      || (not debug || not (t == 0) && not (types t).make_precise)
        && ((t == 0) || not (types t).has_subobjects || inside)

  nodes_at-append :
      (obj : ℕ) (xs ys : List (ℕ × ℕ))
      → nodes_at obj (xs ++ ys) ≡ nodes_at obj xs ++ nodes_at obj ys
  nodes_at-append obj [] ys = refl
  nodes_at-append obj ((o, t) ∷ xs) ys =
      let here =
        pointed_to debug types void_pointer mem follow_ptr
          (mem ((obj + o) % 0x1_0000_0000_0000_0000)) t in
      ap (λ (l : List Node). here ++ l) (nodes_at-append obj xs ys)
      ∙ sym (append_assoc here (nodes_at obj xs) (nodes_at obj ys))

  module _ (recurse : (start_offset t : ℕ) → List Node → Option (List Node))
      (inside : (start_offset t : ℕ) → List (ℕ × ℕ)) (plain : ℕ → Bool) (obj start : ℕ)
      (inner : (start_offset t : ℕ) (adj : List Node)
        → plain t ≡ true
        → recurse start_offset t adj ≡ some (adj ++ nodes_at obj (inside start_offset t))) where
    visit_one_subobject-nodes_at :
        (e o : ℕ) (adj : List Node)
        → ((types e).is_pointer || not (types e).is_composite || plain e) ≡ true
        → visit_one_subobject debug types void_pointer mem follow_ptr recurse obj start e o adj
          ≡ some (adj ++ nodes_at obj (fields_of_one inside start e o))
    unfolding visit_one_subobject
    visit_one_subobject-nodes_at e o adj ok = elim (Bool-cases (types e).is_pointer) [
      | inl pointer ↦
          let to =
            pointed_to debug types void_pointer mem follow_ptr
              (mem ((obj + (start + o)) % 0x1_0000_0000_0000_0000)) (types e).pointee in
          let address : (obj + start + o) ≡ (obj + (start + o)) = omega arith in
          ground (arith, address, append-nil to)
      | inr other ↦ elim (Bool-cases (types e).is_composite) [
        | inl composite ↦ ground (arith, inner (start + o) e adj)
        | inr simple ↦ ground (arith, append-nil adj)
      ]
    ]

    for_each_subobject-nodes_at :
        (members : List (ℕ × ℕ)) (adj : List Node)
        → all_plain plain members ≡ true
        → for_each_subobject debug types void_pointer mem follow_ptr
            (visit_one_subobject debug types void_pointer mem follow_ptr recurse obj start)
            members
            adj
          ≡ some (adj ++ nodes_at obj (fields_of inside start members))
    unfolding for_each_subobject
    for_each_subobject-nodes_at [] adj ok = ap (λ l. some l) (sym (append-nil adj))
    for_each_subobject-nodes_at ((e, o) ∷ rest) adj ok =
        let these = nodes_at obj (fields_of_one inside start e o) in
        let those = nodes_at obj (fields_of inside start rest) in
        let run : visit_one_subobject debug types void_pointer mem follow_ptr recurse obj start e o
              adj
            ≡ some (adj ++ these) =
          visit_one_subobject-nodes_at e o adj (ground arith) in
        let joined : (adj ++ these) ++ those
            ≡ adj ++ nodes_at obj (fields_of inside start ((e, o) ∷ rest)) =
          append_assoc adj these those
          ∙ ap (λ (l : List Node). adj ++ l)
              (sym (
                nodes_at-append obj (fields_of_one inside start e o)
                  (fields_of inside start rest))) in
        rw run (for_each_subobject-nodes_at rest (adj ++ these) (ground arith))
        ∙ ap (λ l. some l) joined

  -- Of a plain type, the list is built, and it has the nodes of the pointers in order.
  pub build_adjacency_list-nodes_at :
      (k obj start t : ℕ) (adj : List Node)
      → is_plain k t ≡ true
      → build_adjacency_list_recursive debug types void_pointer mem follow_ptr k obj start t adj
        ≡ some (adj ++ nodes_at obj (pointer_fields k start t))
  unfolding build_adjacency_list_recursive
  build_adjacency_list-nodes_at zero obj start t adj ok = absurd (ground arith)
  build_adjacency_list-nodes_at (suc k) obj start t adj ok = elim (Bool-cases (t == void_pointer)) [
    | inl void ↦ ground (arith, append-nil adj)
    | inr other ↦ elim (Bool-cases ((t == 0) || not (types t).has_subobjects)) [
      | inl simple ↦ ground (arith, append-nil adj)
      | inr inner ↦ ground (
        arith,
        for_each_subobject-nodes_at
            (build_adjacency_list_recursive debug types void_pointer mem follow_ptr k obj)
            (pointer_fields k) (is_plain k) obj start (build_adjacency_list-nodes_at k obj)
            (types t).subobjects adj,
      )
    ]
  ]
