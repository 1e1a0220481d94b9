-- ===== src/Bfs/Queue.antt =====
-- The queues of include/uniqtype-bfs.h: node records linked by `next`, with a head and a tail. A record
-- is its address, 0 is null.
use mathlib.Core.List.{◌++◌}
use liballocs.Common.{
  ℕ, ◌<◌, ◌≡◌, inl, inr, refl, Bool, true, false, not, ◌&&◌, ◌||◌, Option, some, List, [], ◌∷◌,
  arith, ◌==◌, if◌then◌else◌, require, ◌>>=◌, ◌>>◌, Bool-cases, has, ◌∈◌, ◌∉◌, Distinct, last_or,
  has-append, Option-cases, ap, sym, subst,
}
use liballocs.Common.Chain.{last_or-mem}

pub record NodeQueue : Type 0 where
  pub head : ℕ
  pub tail : ℕ
  pub next : ℕ → ℕ

-- __uniqtype_node_queue_push_tail
unfoldable pub push_tail : (debug : Bool) → NodeQueue → ℕ → Option NodeQueue
push_tail debug q to_enqueue = do
  require (not debug || (q.next to_enqueue == 0))
  elim (q.tail == 0) [
    | false ↦ some (record {
      head = q.head;
      tail = to_enqueue;
      next = λ a. if a == q.tail then to_enqueue else q.next a;
    })
    | true ↦ do
      require (not debug || (q.head == 0))
      some (record { head = to_enqueue; tail = to_enqueue; next = q.next })
  ]

-- __uniqtype_node_queue_pop_head
unfoldable pub pop_head : NodeQueue → ℕ × NodeQueue
pop_head q = elim (q.head == 0) [
  | true ↦ (0, q)
  | false ↦ (
    q.head,
    record {
      head = q.next q.head;
      tail = if q.next q.head == 0 then 0 else q.tail;
      next = λ a. if a == q.head then 0 else q.next a;
    },
  )
]

-- __uniqtype_node_queue_empty
abbrev pub queue_empty : NodeQueue → Bool
queue_empty q = q.head == 0

-- a call of the client's
pub data QueueCall : Type 0 where
  push : ℕ → QueueCall
  pop : QueueCall

-- what the calls answer, pop_head's node and then queue_empty's bit; none on a failed assertion
abbrev pub run_queue : (debug : Bool) → List QueueCall → NodeQueue → Option (List (ℕ × Bool))
run_queue debug [] q = some []
run_queue debug (push n ∷ calls) q = push_tail debug q n >>= λ q'. run_queue debug calls q'
run_queue debug (pop ∷ calls) q =
    let (n, q') = pop_head q in
    run_queue debug calls q' >>= λ answers. some ((n, queue_empty q') ∷ answers)

-- the same on a list; none when a null or a queued record is pushed
abbrev pub run_list : List QueueCall → List ℕ → Option (List (ℕ × Bool))
run_list [] xs = some []
run_list (push n ∷ calls) xs =
    require (not (n == 0) && not (has n xs)) >> run_list calls (xs ++ n ∷ [])
run_list (pop ∷ calls) [] = run_list calls [] >>= λ answers. some ((0, true) ∷ answers)
run_list (pop ∷ calls) (x ∷ []) = run_list calls [] >>= λ answers. some ((x, true) ∷ answers)
run_list (pop ∷ calls) (x ∷ y ∷ xs) =
    run_list calls (y ∷ xs) >>= λ answers. some ((x, false) ∷ answers)

-- the records linked from an address on
abbrev pub Linked : (next : ℕ → ℕ) (p : ℕ) → List ℕ → Type 0
Linked next p [] = p ≡ 0
Linked next p (x ∷ xs) = (p ≡ x) × (0 < x) × Linked next (next x) xs

-- The queue links the records of the list, each once, and no other record is linked to another.
pub record IsQueue (q : NodeQueue) (xs : List ℕ) : Type 0 where
  pub linked : Linked q.next q.head xs
  pub tail : q.tail ≡ last_or 0 xs
  pub once : Distinct xs
  pub free : (n : ℕ) → n ∉ xs → q.next n ≡ 0

Linked-other :
    (next next' : ℕ → ℕ) (p : ℕ) (xs : List ℕ)
    → ((n : ℕ) → n ∈ xs → next' n ≡ next n)
    → Linked next p xs
    → Linked next' p xs
Linked-other next next' p [] same l = l
Linked-other next next' p (x ∷ xs) same (e, pos, l) = (
  e,
  pos,
  Linked-other next next' (next' x) xs (λ n m. same n (ground arith))
      (subst (λ a. Linked next a xs) (sym (same x (ground arith))) l),
)

Linked-positive : (next : ℕ → ℕ) (p n : ℕ) (xs : List ℕ) → Linked next p xs → n ∈ xs → 0 < n
Linked-positive next p n [] l m = ground arith
Linked-positive next p n (x ∷ xs) (e, pos, l) m = elim (Bool-cases (n == x)) [
  | inl same ↦ ground arith
  | inr other ↦ Linked-positive next (next x) n xs l (ground arith)
]

-- a record linked at the end
Linked-snoc :
    (next : ℕ → ℕ) (p n x : ℕ) (xs : List ℕ)
    → 0 < n
    → n ∉ (x ∷ xs)
    → next n ≡ 0
    → Distinct (x ∷ xs)
    → Linked next p (x ∷ xs)
    → Linked (λ a. if a == last_or x xs then n else next a) p ((x ∷ xs) ++ n ∷ [])
Linked-snoc next p n x [] pos out free once (e, xpos, l) =
    (e, xpos, (ground arith, pos, ground arith))
Linked-snoc next p n x (y ∷ ys) pos out free once (e, xpos, l) = (
  e,
  xpos,
  subst (λ a. Linked (λ b. if b == last_or y ys then n else next b) a ((y ∷ ys) ++ n ∷ []))
      (ground (arith, last_or-mem x y ys))
      (Linked-snoc next (next x) n y ys pos (ground arith) free once.1 l),
)

Distinct-snoc : (xs : List ℕ) (n : ℕ) → Distinct xs → n ∉ xs → Distinct (xs ++ n ∷ [])
Distinct-snoc [] n d out = (refl, tt)
Distinct-snoc (x ∷ xs) n d out =
    (ground (arith, has-append x xs (n ∷ [])), Distinct-snoc xs n d.1 (ground arith))

last_or-snoc : (d n : ℕ) (xs : List ℕ) → last_or d (xs ++ n ∷ []) ≡ n
last_or-snoc d n [] = refl
last_or-snoc d n (x ∷ xs) = last_or-snoc x n xs

module _ (debug : Bool) where
  push_tail-runs :
      (q : NodeQueue) (n : ℕ) (xs : List ℕ)
      → 0 < last_or 0 xs
      → n ∉ xs
      → IsQueue q xs
      → push_tail debug q n
        ≡ some (record { head = q.head; tail = n; next = λ a. if a == q.tail then n else q.next a })
  unfolding push_tail
  push_tail-runs q n xs pos out r = ground (arith, r.tail, r.free n out)

  push_tail-IsQueue :
      (q : NodeQueue) (n : ℕ) (xs : List ℕ)
      → 0 < n
      → n ∉ xs
      → IsQueue q xs
      → (q' : NodeQueue) × (push_tail debug q n ≡ some q') × IsQueue q' (xs ++ n ∷ [])
  unfolding push_tail
  push_tail-IsQueue q n [] pos out r = (
    record { head = n; tail = n; next = q.next },
    ground (arith, r.linked, r.tail, r.free n out),
    record {
      linked = (refl, pos, r.free n out);
      tail = refl;
      once = (refl, tt);
      free = λ m o. r.free m refl;
    },
  )
  push_tail-IsQueue q n (x ∷ xs) pos out r = (
    record { head = q.head; tail = n; next = λ a. if a == q.tail then n else q.next a },
    push_tail-runs q n (x ∷ xs)
        (Linked-positive q.next q.head (last_or x xs) (x ∷ xs) r.linked (last_or-mem 0 x xs)) out r,
    record {
      linked =
          subst (λ t. Linked (λ a. if a == t then n else q.next a) q.head ((x ∷ xs) ++ n ∷ []))
            (sym r.tail) (Linked-snoc q.next q.head n x xs pos out (r.free n out) r.once r.linked);
      tail = sym (last_or-snoc x n xs);
      once = Distinct-snoc (x ∷ xs) n r.once out;
      free = λ m o.
          ground (arith, r.tail, r.free m, last_or-mem 0 x xs, has-append m (x ∷ xs) (n ∷ []));
    },
  )

pop_head-runs :
    (q : NodeQueue) (x : ℕ)
    → q.head ≡ x
    → 0 < x
    → pop_head q ≡ (
      x,
      record {
        head = q.next x;
        tail = if q.next x == 0 then 0 else q.tail;
        next = λ a. if a == x then 0 else q.next a;
      },
    )
unfolding pop_head
pop_head-runs q x e pos = rw e (ground arith)

popped_tail :
    (q : NodeQueue) (x : ℕ) (xs : List ℕ)
    → IsQueue q (x ∷ xs)
    → (if q.next x == 0 then 0 else q.tail) ≡ last_or 0 xs
popped_tail q x [] r = ground (arith, r.linked.2)
popped_tail q x (y ∷ ys) r = ground (arith, r.linked.2.0, r.linked.2.1, r.tail)

queue_empty-IsQueue :
    (q : NodeQueue) (x : ℕ) (xs : List ℕ) → IsQueue q (x ∷ xs) → queue_empty q ≡ false
queue_empty-IsQueue q x xs r = ground (arith, r.linked.0, r.linked.1)

pop_head-nil : (q : NodeQueue) → IsQueue q [] → pop_head q ≡ (0, q)
unfolding pop_head
pop_head-nil q r = ground (arith, r.linked)

popped-IsQueue :
    (q : NodeQueue) (x : ℕ) (xs : List ℕ)
    → IsQueue q (x ∷ xs)
    → IsQueue
        record {
          head = q.next x;
          tail = if q.next x == 0 then 0 else q.tail;
          next = λ a. if a == x then 0 else q.next a;
        }
        xs
popped-IsQueue q x xs r = record {
  linked =
      Linked-other q.next (λ a. if a == x then 0 else q.next a) (q.next x) xs
        (λ n m. ground (arith, r.once.0)) r.linked.2;
  tail = popped_tail q x xs r;
  once = r.once.1;
  free = λ n o. ground (arith, r.free n);
}

pop_head-IsQueue :
    (q : NodeQueue) (x : ℕ) (xs : List ℕ)
    → IsQueue q (x ∷ xs)
    → ((pop_head q).0 ≡ x) × IsQueue (pop_head q).1 xs
pop_head-IsQueue q x xs r =
    rw (pop_head-runs q x r.linked.0 r.linked.1) (refl, popped-IsQueue q x xs r)

popped-run :
    (debug : Bool) (calls : List QueueCall) (q : NodeQueue) (xs : List ℕ) (n : ℕ) (b : Bool)
    (answers : List (ℕ × Bool))
    → (pop_head q).0 ≡ n
    → queue_empty (pop_head q).1 ≡ b
    → ((rest : List (ℕ × Bool))
        → run_list calls xs ≡ some rest
        → run_queue debug calls (pop_head q).1 ≡ some rest)
    → (run_list calls xs >>= λ l. some ((n, b) ∷ l)) ≡ some answers
    → run_queue debug (pop ∷ calls) q ≡ some answers
popped-run debug calls q xs n b answers e empty inner run =
    elim (Option-cases (run_list calls xs)) [
      | inl none_ ↦ absurd (ground (arith, none_, run))
      | inr (rest, some_) ↦ rw (inner rest some_, e, empty) (ground (arith, some_, run))
    ]

-- Calls that push no null and no queued record answer on the linked queue what they answer on the list.
pub run_queue-run_list :
    (debug : Bool) (calls : List QueueCall) (q : NodeQueue) (xs : List ℕ)
    (answers : List (ℕ × Bool))
    → IsQueue q xs
    → run_list calls xs ≡ some answers
    → run_queue debug calls q ≡ some answers
run_queue-run_list debug [] q xs answers r run = run
run_queue-run_list debug (push n ∷ calls) q xs answers r run =
    let (q', step, r') = push_tail-IsQueue debug q n xs (ground arith) (ground arith) r in
    rw step (run_queue-run_list debug calls q' (xs ++ n ∷ []) answers r' (ground arith))
run_queue-run_list debug (pop ∷ calls) q [] answers r run =
    let e = pop_head-nil q r in
    popped-run debug calls q [] 0 true answers (ap (λ (p : ℕ × NodeQueue). p.0) e)
      (ground (arith, e, r.linked))
      (λ rest ran. rw e (run_queue-run_list debug calls q [] rest r ran)) run
run_queue-run_list debug (pop ∷ calls) q (x ∷ []) answers r run =
    let (e, r') = pop_head-IsQueue q x [] r in
    popped-run debug calls q [] x true answers e (ground (arith, r'.linked))
      (λ rest ran. run_queue-run_list debug calls (pop_head q).1 [] rest r' ran) run
run_queue-run_list debug (pop ∷ calls) q (x ∷ y ∷ xs) answers r run =
    let (e, r') = pop_head-IsQueue q x (y ∷ xs) r in
    popped-run debug calls q (y ∷ xs) x false answers e (queue_empty-IsQueue (pop_head q).1 y xs r')
      (λ rest ran. run_queue-run_list debug calls (pop_head q).1 (y ∷ xs) rest r' ran) run
