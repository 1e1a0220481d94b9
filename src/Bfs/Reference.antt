-- ===== src/Bfs/Reference.antt =====
-- A breadth-first search over lists, and what it finds.
use liballocs.Common.{
  ℕ, zero, suc, ◌+◌, ◌≤◌, ◌<◌, ◌≡◌, ◌⊎◌, inl, inr, refl, true, not, ◌&&◌, ◌||◌, Option, none, some,
  List, [], ◌∷◌, ◌++◌, arith, ◌==◌, if◌then◌else◌, length, has, ◌∈◌, ◌∉◌, length-append, Distinct,
  All, erase, has-erase_ne, Bool-cases, ap,
}
use liballocs.Bfs.{Node}

abbrev pub objects : List Node → List ℕ
objects [] = []
objects (x ∷ xs) = x.0 ∷ objects xs

-- the queue with the nodes that are neither seen nor queued
abbrev pub enqueue : (seen : List ℕ) → (adj queue : List Node) → List Node
enqueue seen [] queue = queue
enqueue seen (v ∷ adj) queue =
    enqueue seen adj (if has v.0 seen || has v.0 (objects queue) then queue else queue ++ v ∷ [])

unfoldable pub search_from :
    (adjacent : Node → List Node) → ℕ → (queue visited : List Node) → Option (List Node)
search_from adjacent zero queue visited = none
search_from adjacent (suc k) [] visited = some visited
search_from adjacent (suc k) (u ∷ rest) visited =
    search_from adjacent k (enqueue (u.0 ∷ objects visited) (adjacent u) rest) (visited ++ u ∷ [])

abbrev pub NodeIn : Node → List Node → Type 0
NodeIn v [] = ⊥
NodeIn v (x ∷ xs) = (v ≡ x) ⊎ NodeIn v xs

pub data Reachable (adjacent : Node → List Node) (start : Node) : Node → Type 0 where
  here : Reachable adjacent start start
  next :
      {u v : Node} → Reachable adjacent start u → NodeIn v (adjacent u) → Reachable adjacent start v

-- The nodes visited: each object once, the start's among them; all can be reached, and so have the
-- objects of all nodes adjacent to one of them been visited.
pub record IsSearch (adjacent : Node → List Node) (start : Node) (visited : List Node)
    : Type 0 where
  pub once : Distinct (objects visited)
  pub starts : start.0 ∈ objects visited
  pub sound : All (Reachable adjacent start) visited
  pub closed : All (λ (u : Node). All (λ (v : Node). v.0 ∈ objects visited) (adjacent u)) visited

All-imp : (P Q : Node → Type 0) (xs : List Node) → ((x : Node) → P x → Q x) → All P xs → All Q xs
All-imp P Q [] f a = tt
All-imp P Q (x ∷ xs) f a = (f x a.0, All-imp P Q xs f a.1)

All-append : (P : Node → Type 0) (xs ys : List Node) → All P xs → All P ys → All P (xs ++ ys)
All-append P [] ys a b = b
All-append P (x ∷ xs) ys a b = (a.0, All-append P xs ys a.1 b)

pub All-of_mem : (P : Node → Type 0) (xs : List Node) → ((x : Node) → NodeIn x xs → P x) → All P xs
All-of_mem P [] f = tt
All-of_mem P (x ∷ xs) f = (f x (inl refl), All-of_mem P xs (λ y m. f y (inr m)))

pub objects-append : (xs ys : List Node) → objects (xs ++ ys) ≡ objects xs ++ objects ys
objects-append [] ys = refl
objects-append (x ∷ xs) ys = ap (λ (l : List ℕ). x.0 ∷ l) (objects-append xs ys)

pub has-objects_append :
    (a : ℕ) (xs ys : List Node)
    → has a (objects (xs ++ ys)) ≡ (has a (objects xs) || has a (objects ys))
has-objects_append a [] ys = refl
has-objects_append a (x ∷ xs) ys = ground (arith, has-objects_append a xs ys)

Distinct-snoc :
    (xs : List Node) (x : Node)
    → Distinct (objects xs)
    → x.0 ∉ objects xs
    → Distinct (objects (xs ++ x ∷ []))
Distinct-snoc [] x d out = (refl, tt)
Distinct-snoc (y ∷ ys) x d out =
    (ground (arith, has-objects_append y.0 ys (x ∷ [])), Distinct-snoc ys x d.1 (ground arith))

module _ (seen : List ℕ) where
  has-enqueue :
      (adj queue : List Node) (a : ℕ)
      → has a (objects (enqueue seen adj queue))
        ≡ (has a (objects queue) || has a (objects adj) && not (has a seen))
  has-enqueue [] queue a = ground arith
  has-enqueue (v ∷ adj) queue a = elim (Bool-cases (has v.0 seen || has v.0 (objects queue))) [
    | inl old ↦ ground (arith, has-enqueue adj queue a)
    | inr new ↦
        ground (arith, has-enqueue adj (queue ++ v ∷ []) a, has-objects_append a queue (v ∷ []))
  ]

  Distinct-enqueue :
      (adj queue : List Node)
      → Distinct (objects queue)
      → Distinct (objects (enqueue seen adj queue))
  Distinct-enqueue [] queue d = d
  Distinct-enqueue (v ∷ adj) queue d = elim (Bool-cases (has v.0 seen || has v.0 (objects queue))) [
    | inl old ↦ rw old (Distinct-enqueue adj queue d)
    | inr new ↦
        rw new (Distinct-enqueue adj (queue ++ v ∷ []) (Distinct-snoc queue v d (ground arith)))
  ]

  All-enqueue :
      (P : Node → Type 0) (adj queue : List Node)
      → All P adj
      → All P queue
      → All P (enqueue seen adj queue)
  All-enqueue P [] queue a b = b
  All-enqueue P (v ∷ adj) queue a b = elim (Bool-cases (has v.0 seen || has v.0 (objects queue))) [
    | inl old ↦ rw old (All-enqueue P adj queue a.1 b)
    | inr new ↦
        rw new (All-enqueue P adj (queue ++ v ∷ []) a.1 (All-append P queue (v ∷ []) b (a.0, tt)))
  ]

-- distinct objects of a list are no more than the list has
length-erase_mem : (a : ℕ) (ys : List ℕ) → a ∈ ys → length (erase a ys) + 1 ≡ length ys
length-erase_mem a [] m = ground arith
length-erase_mem a (y ∷ ys) m = ground (arith, length-erase_mem a ys)

pub length_le_of_subset :
    (xs ys : List ℕ) → Distinct xs → ((a : ℕ) → a ∈ xs → a ∈ ys) → length xs ≤ length ys
length_le_of_subset [] ys d sub = omega arith
length_le_of_subset (x ∷ xs) ys d sub =
    let rest =
      length_le_of_subset xs (erase x ys) d.1 (λ a m. ground (arith, sub a, has-erase_ne a x ys)) in
    omega (arith, length-erase_mem x ys (sub x (ground arith)))

has-objects_of_mem : (v : Node) (xs : List Node) → NodeIn v xs → v.0 ∈ objects xs
has-objects_of_mem v [] m = absurd m
has-objects_of_mem v (x ∷ xs) (inl e) = ground (arith, ap (λ (n : Node). n.0) e)
has-objects_of_mem v (x ∷ xs) (inr m) = ground (arith, has-objects_of_mem v xs m)

All-objects :
    (universe : List ℕ) (xs : List Node)
    → All (λ (v : Node). v.0 ∈ universe) xs
    → (a : ℕ) → a ∈ objects xs
    → a ∈ universe
All-objects universe [] al a m = ground (arith)
All-objects universe (x ∷ xs) al a m = elim (Bool-cases (a == x.0)) [
  | inl same ↦ ground (arith, al.0)
  | inr other ↦ All-objects universe xs al.1 a (ground (arith))
]

-- seen or queued
abbrev pub Known : (visited queue : List Node) → Node → Type 0
Known visited queue v = (has v.0 (objects visited) || has v.0 (objects queue)) ≡ true

Known-step :
    (u v : Node) (rest visited adj : List Node)
    → (has v.0 (objects visited) || has v.0 (objects (u ∷ rest)) || has v.0 (objects adj)) ≡ true
    → Known (visited ++ u ∷ []) (enqueue (u.0 ∷ objects visited) adj rest) v
Known-step u v rest visited adj known = ground (
  arith,
  has-objects_append v.0 visited (u ∷ []),
  has-enqueue (u.0 ∷ objects visited) adj rest v.0,
)

module _ (adjacent : Node → List Node) (start : Node) where
  -- Held while the search runs.
  pub record Invariant (queue visited : List Node) : Type 0 where
    pub once : Distinct (objects visited)
    pub queued_once : Distinct (objects queue)
    pub disjoint : (a : ℕ) → a ∈ objects queue → a ∉ objects visited
    pub starts : (has start.0 (objects visited) || has start.0 (objects queue)) ≡ true
    pub sound : All (Reachable adjacent start) visited
    pub sound_queue : All (Reachable adjacent start) queue
    pub closed : All (λ (u : Node). All (Known visited queue) (adjacent u)) visited

  pub Invariant-start : Invariant (start ∷ []) []
  Invariant-start = record {
    once = tt;
    queued_once = (refl, tt);
    disjoint = λ a m. refl;
    starts = ground arith;
    sound = tt;
    sound_queue = (here, tt);
    closed = tt;
  }

  pub Invariant-step :
      (u : Node) (rest visited : List Node)
      → Invariant (u ∷ rest) visited
      → Invariant (enqueue (u.0 ∷ objects visited) (adjacent u) rest) (visited ++ u ∷ [])
  Invariant-step u rest visited inv =
      let seen = u.0 ∷ objects visited in
      let queue = enqueue seen (adjacent u) rest in
      let all_seen = λ (a : ℕ). has-objects_append a visited (u ∷ []) in
      let queued = λ (a : ℕ). has-enqueue seen (adjacent u) rest a in
      record {
        once = Distinct-snoc visited u inv.once (inv.disjoint u.0 (ground arith));
        queued_once = Distinct-enqueue seen (adjacent u) rest inv.queued_once.1;
        disjoint = λ a m. ground (arith, all_seen a, queued a, inv.queued_once.0, inv.disjoint a);
        starts = ground (arith, all_seen start.0, queued start.0, inv.starts);
        sound =
            All-append (Reachable adjacent start) visited (u ∷ []) inv.sound
              (inv.sound_queue.0, tt);
        sound_queue =
            All-enqueue seen (Reachable adjacent start) (adjacent u) rest
              (All-of_mem (Reachable adjacent start) (adjacent u) (λ v m. next inv.sound_queue.0 m))
              inv.sound_queue.1;
        closed =
            All-append (λ (w : Node). All (Known (visited ++ u ∷ []) queue) (adjacent w)) visited
              (u ∷ [])
              (All-imp (λ (w : Node). All (Known visited (u ∷ rest)) (adjacent w))
                (λ (w : Node). All (Known (visited ++ u ∷ []) queue) (adjacent w)) visited
                (λ w.
                  All-imp (Known visited (u ∷ rest)) (Known (visited ++ u ∷ []) queue) (adjacent w)
                    (λ v known. Known-step u v rest visited (adjacent u) (ground (arith, known))))
                inv.closed)
              (
                All-of_mem (Known (visited ++ u ∷ []) queue) (adjacent u) (λ v m.
                    Known-step u v rest visited (adjacent u)
                      (ground (arith, has-objects_of_mem v (adjacent u) m))),
                tt,
              );
      }

  Invariant-length :
      (universe : List ℕ) (queue visited : List Node)
      → ((v : Node) → Reachable adjacent start v → v.0 ∈ universe)
      → Invariant queue visited
      → length (objects visited) ≤ length universe
  Invariant-length universe queue visited covers inv =
      length_le_of_subset (objects visited) universe inv.once (
        All-objects universe visited (
          All-imp (Reachable adjacent start) (λ (v : Node). v.0 ∈ universe) visited covers
            inv.sound))

  Invariant-IsSearch :
      (visited : List Node) → Invariant [] visited → IsSearch adjacent start visited
  Invariant-IsSearch visited inv = record {
    once = inv.once;
    starts = ground (arith, inv.starts);
    sound = inv.sound;
    closed =
        All-imp (λ (u : Node). All (Known visited []) (adjacent u))
          (λ (u : Node). All (λ (v : Node). v.0 ∈ objects visited) (adjacent u)) visited
          (λ u.
            All-imp (Known visited []) (λ (v : Node). v.0 ∈ objects visited) (adjacent u)
              (λ v known. ground (arith, known)))
          inv.closed;
  }

  -- With more fuel than there are objects, the search returns.
  pub search_from-IsSearch :
      (universe : List ℕ) (k : ℕ) (queue visited : List Node)
      → ((v : Node) → Reachable adjacent start v → v.0 ∈ universe)
      → Invariant queue visited
      → length universe < k + length (objects visited)
      → (found : List Node) × (search_from adjacent k queue visited ≡ some found)
        × IsSearch adjacent start found
  unfolding search_from
  search_from-IsSearch universe zero queue visited covers inv fuel =
      absurd (omega (arith, Invariant-length universe queue visited covers inv))
  search_from-IsSearch universe (suc k) [] visited covers inv fuel =
      (visited, refl, Invariant-IsSearch visited inv)
  search_from-IsSearch universe (suc k) (u ∷ rest) visited covers inv fuel =
      search_from-IsSearch universe k (enqueue (u.0 ∷ objects visited) (adjacent u) rest)
        (visited ++ u ∷ []) covers (Invariant-step u rest visited inv)
        (ground
          (arith, objects-append visited (u ∷ []), length-append (objects visited) (u.0 ∷ [])))
