-- ===== src/Bfs/Maps.antt =====
-- The loop of the walk, with its maps, does what the search over lists does.
use liballocs.Common.{
  ℕ, ◌<◌, ◌≡◌, ◌≢◌, inl, inr, refl, Bool, true, false, not, ◌||◌, Option, some, List, [], ◌∷◌, ◌++◌,
  arith, ◌==◌, if◌then◌else◌, has, All, Bool-cases, ap, sym, subst, ◌∙◌,
}
use liballocs.Bfs.{Node, Walk, grey, black, enqueue_white, process_node}
use liballocs.Bfs.TreeMap.{SearchTree, InReach, treemap_get, treemap_set, get-set, get-empty}
use liballocs.Bfs.Reference.{objects, enqueue, has-objects_append}

Known-snoc :
    (seen : List ℕ) (queue queue' : List Node) (v : Node) (j : ℕ)
    → queue' ≡ queue ++ v ∷ []
    → ((j == v.0) || (has j seen || has j (objects queue))) ≡ (has j seen || has j (objects queue'))
Known-snoc seen queue queue' v j e =
    subst
      (λ q.
        ((j == v.0) || (has j seen || has j (objects queue))) ≡ (has j seen || has j (objects q)))
      (sym e) (ground (arith, has-objects_append j queue (v ∷ [])))

Known-visited :
    (visited visited' queue : List Node) (u : Node) (j : ℕ)
    → visited' ≡ visited
    → ((j == u.0) || (has j (u.0 ∷ objects visited) || has j (objects queue)))
      ≡ (has j (objects (visited' ++ u ∷ [])) || has j (objects queue))
Known-visited visited visited' queue u j e =
    subst
      (λ l.
        ((j == u.0) || (has j (u.0 ∷ objects visited) || has j (objects queue)))
        ≡ (has j (objects (l ++ u ∷ [])) || has j (objects queue)))
      (sym e) (ground (arith, has-objects_append j visited (u ∷ [])))

module _ {base : ℕ} (debug : Bool) (tree : SearchTree base) where
  -- a map that every key within reach can be read from
  pub record Readable (m : tree.Tree) : Type 0 where
    pub value : ℕ → ℕ
    pub reads : (j : ℕ) → InReach base j → treemap_get debug tree m j ≡ some (value j)

  Readable-empty : Readable tree.empty
  Readable-empty = record { value = λ j. 0; reads = λ j r. get-empty debug tree j }

  Readable-set :
      (m : tree.Tree) (r : Readable m) (k v : ℕ)
      → InReach base k
      → v ≢ 0
      → (m' : tree.Tree) × (treemap_set debug tree m k v ≡ some m')
        × (r' : Readable m') × ((j : ℕ) → r'.value j ≡ (if j == k then v else r.value j))
  Readable-set m r k v rk nz =
      let (m', run, after) = get-set debug tree m k v (r.value k) rk nz (r.reads k rk) in
      (
        m',
        run,
        record {
          value = λ j. if j == k then v else r.value j;
          reads = λ j rj. ground (arith, after j rj, r.reads j rj);
        },
        λ j. refl,
      )

  -- The maps can be read, the white objects are those that are not `known`, and a white object has
  -- distance 0.
  pub record Mapped (known : ℕ → Bool) (s : Walk tree) : Type 0 where
    pub colour : Readable s.colours
    pub distance : Readable s.distances
    pub predecessor : Readable s.predecessors
    pub white : (j : ℕ) → (colour.value j == 0) ≡ not (known j)
    pub near : (j : ℕ) → colour.value j ≡ 0 → distance.value j ≡ 0

  -- at the start of the walk
  pub Mapped-start :
      (start : Node)
      → Mapped
          (λ j. false)
          record {
            queue = start ∷ [];
            colours = tree.empty;
            distances = tree.empty;
            predecessors = tree.empty;
            blackened = [];
          }
  unfolding Readable-empty
  Mapped-start start = record {
    colour = Readable-empty;
    distance = Readable-empty;
    predecessor = Readable-empty;
    white = λ j. refl;
    near = λ j e. refl;
  }

  -- the state that one white node is queued in
  abbrev queued : Walk tree → Node → (colours distances predecessors : tree.Tree) → Walk tree
  queued s v colours distances predecessors = record s {
    queue = s.queue ++ v ∷ [];
    colours = colours;
    distances = distances;
    predecessors = predecessors;
  }

  enqueue_white-runs :
      (v : Node) (s : Walk tree) (c d p : tree.Tree) (adj : List Node)
      → treemap_get debug tree s.colours v.0 ≡ some 0
      → treemap_get debug tree s.distances v.0 ≡ some 0
      → treemap_set debug tree s.colours v.0 grey ≡ some c
      → treemap_set debug tree s.distances v.0 1 ≡ some d
      → treemap_set debug tree s.predecessors v.0 v.0 ≡ some p
      → enqueue_white debug tree (v ∷ adj) s ≡ enqueue_white debug tree adj (queued s v c d p)
  unfolding enqueue_white
  enqueue_white-runs v s c d p adj colour distance c_run d_run p_run =
      simp (colour, distance, c_run, d_run, p_run)

  enqueue_white-white :
      (known : ℕ → Bool) (v : Node) (s : Walk tree)
      → 0 < base
      → InReach base v.0
      → Mapped known s
      → known v.0 ≡ false
      → (s' : Walk tree) × ((adj : List Node)
          → enqueue_white debug tree (v ∷ adj) s ≡ enqueue_white debug tree adj s')
        × (s'.queue ≡ s.queue ++ v ∷ [])
        × (s'.blackened ≡ s.blackened)
        × Mapped (λ j. (j == v.0) || known j) s'
  unfolding enqueue_white
  enqueue_white-white known v s positive rv m new =
      let (c, c_run, c_map, c_value) =
        Readable-set s.colours m.colour v.0 grey rv (λ e. omega arith) in
      let (d, d_run, d_map, d_value) =
        Readable-set s.distances m.distance v.0 1 rv (λ e. omega arith) in
      let (p, p_run, p_map, p_value) =
        Readable-set s.predecessors m.predecessor v.0 v.0 rv (λ e. ground arith) in
      (
        queued s v c d p,
        λ adj.
            enqueue_white-runs v s c d p adj (ground (arith, m.colour.reads v.0 rv, m.white v.0))
              (ground (arith, m.distance.reads v.0 rv, m.white v.0, m.near v.0)) c_run d_run p_run,
        refl,
        refl,
        record {
          colour = c_map;
          distance = d_map;
          predecessor = p_map;
          white = λ j. ground (arith, c_value j, m.white j);
          near = λ j e. ground (arith, c_value j, d_value j, m.near j);
        },
      )

  enqueue_white-known :
      (known : ℕ → Bool) (v : Node) (s : Walk tree) (adj : List Node)
      → InReach base v.0
      → Mapped known s
      → known v.0 ≡ true
      → enqueue_white debug tree (v ∷ adj) s ≡ enqueue_white debug tree adj s
  unfolding enqueue_white
  enqueue_white-known known v s adj rv m old = ground (arith, m.colour.reads v.0 rv, m.white v.0)

  pub Mapped-same :
      (known known' : ℕ → Bool) (s : Walk tree)
      → ((j : ℕ) → known j ≡ known' j)
      → Mapped known s
      → Mapped known' s
  Mapped-same known known' s same m = record {
    colour = m.colour;
    distance = m.distance;
    predecessor = m.predecessor;
    white = λ j. ground (arith, same j, m.white j);
    near = m.near;
  }

  enqueue_white-nil : (s : Walk tree) → enqueue_white debug tree [] s ≡ some s
  unfolding enqueue_white
  enqueue_white-nil s = refl

  -- The loop over the adjacent nodes queues what `enqueue` does.
  enqueue_white-enqueue :
      (seen : List ℕ) (adj : List Node) (s : Walk tree)
      → 0 < base
      → All (λ (v : Node). InReach base v.0) adj
      → Mapped (λ j. has j seen || has j (objects s.queue)) s
      → (s' : Walk tree) × (enqueue_white debug tree adj s ≡ some s')
        × (s'.queue ≡ enqueue seen adj s.queue)
        × (s'.blackened ≡ s.blackened)
        × Mapped (λ j. has j seen || has j (objects s'.queue)) s'
  enqueue_white-enqueue seen [] s positive reach m = (s, enqueue_white-nil s, refl, refl, m)
  enqueue_white-enqueue seen (v ∷ adj) s positive reach m =
      elim (Bool-cases (has v.0 seen || has v.0 (objects s.queue))) [
        | inl old ↦
            let (s2, run, queue, blackened, m2) =
              enqueue_white-enqueue seen adj s positive reach.1 m in
            (
              s2,
              enqueue_white-known (λ j. has j seen || has j (objects s.queue)) v s adj reach.0 m old
                  ∙ run,
              rw old queue,
              blackened,
              m2,
            )
        | inr new ↦
            let (s1, step, queue1, blackened1, m1) =
              enqueue_white-white (λ j. has j seen || has j (objects s.queue)) v s positive reach.0
                m new in
            let (s2, run, queue, blackened, m2) =
              enqueue_white-enqueue seen adj s1 positive reach.1 (
                Mapped-same (λ j. (j == v.0) || (has j seen || has j (objects s.queue)))
                  (λ j. has j seen || has j (objects s1.queue)) s1
                  (λ j. Known-snoc seen s.queue s1.queue v j queue1) m1) in
            (s2, step adj ∙ run, rw (new, sym queue1) queue, blackened ∙ blackened1, m2)
      ]

  Mapped-recoloured :
      (known : ℕ → Bool) (s : Walk tree) (k colour : ℕ)
      → InReach base k
      → 0 < colour
      → Mapped known s
      → (c : tree.Tree) × (treemap_set debug tree s.colours k colour ≡ some c)
        × ((blackened : List Node)
            → Mapped (λ j. (j == k) || known j) (record s { colours = c; blackened = blackened }))
  Mapped-recoloured known s k colour rk positive m =
      let (c, run, c_map, c_value) =
        Readable-set s.colours m.colour k colour rk (λ e. ground arith) in
      (
        c,
        run,
        λ blackened. record {
          colour = c_map;
          distance = m.distance;
          predecessor = m.predecessor;
          white = λ j. ground (arith, c_value j, m.white j);
          near = λ j e. ground (arith, c_value j, m.near j);
        },
      )

  process_node-runs :
      (build : Node → Option (List Node)) (u : Node) (adj : List Node) (s s1 : Walk tree)
      (c b : tree.Tree)
      → treemap_set debug tree s.colours u.0 grey ≡ some c
      → build u ≡ some adj
      → enqueue_white debug tree adj (record s { colours = c }) ≡ some s1
      → treemap_set debug tree s1.colours u.0 black ≡ some b
      → process_node debug tree build u s
        ≡ some (record s1 { colours = b; blackened = s1.blackened ++ u ∷ [] })
  unfolding process_node
  process_node-runs build u adj s s1 c b c_run built run b_run = simp (c_run, built, run, b_run)

  -- One round of the loop.
  pub process_node-step :
      (build : Node → Option (List Node)) (u : Node) (adj : List Node) (known : ℕ → Bool)
      (s : Walk tree)
      → 0 < base
      → InReach base u.0
      → build u ≡ some adj
      → All (λ (v : Node). InReach base v.0) adj
      → Mapped known s
      → ((j : ℕ)
          → ((j == u.0) || known j)
            ≡ (has j (u.0 ∷ objects s.blackened) || has j (objects s.queue)))
      → (s' : Walk tree) × (process_node debug tree build u s ≡ some s')
        × (s'.queue ≡ enqueue (u.0 ∷ objects s.blackened) adj s.queue)
        × (s'.blackened ≡ s.blackened ++ u ∷ [])
        × Mapped (λ j. has j (objects s'.blackened) || has j (objects s'.queue)) s'
  process_node-step build u adj known s positive ru built reach m agrees =
      let seen = u.0 ∷ objects s.blackened in
      let (c, c_run, c_map) = Mapped-recoloured known s u.0 grey ru (omega arith) m in
      let (s1, run, queue1, blackened1, m1) =
        enqueue_white-enqueue seen adj (record s { colours = c }) positive reach
          (Mapped-same (λ j. (j == u.0) || known j) (λ j. has j seen || has j (objects s.queue))
            (record s { colours = c }) agrees (c_map s.blackened)) in
      let (b, b_run, b_map) =
        Mapped-recoloured (λ j. has j seen || has j (objects s1.queue)) s1 u.0 black ru
          (omega arith) m1 in
      let s2 = record s1 { colours = b; blackened = s1.blackened ++ u ∷ [] } in
      (
        s2,
        process_node-runs build u adj s s1 c b c_run built run b_run,
        queue1,
        ap (λ (l : List Node). l ++ u ∷ []) blackened1,
        Mapped-same (λ j. (j == u.0) || (has j seen || has j (objects s1.queue)))
            (λ j. has j (objects s2.blackened) || has j (objects s2.queue)) s2
            (λ j. Known-visited s.blackened s1.blackened s1.queue u j blackened1)
            (b_map (s1.blackened ++ u ∷ [])),
      )
