-- ===== src/Common/Chain.antt =====
-- Doubly linked chains threaded through a table by `next` and `prev` indices, 0 for none: the shape
-- of the sibling lists of big_allocation records and of the recency list of the memory range cache.
use liballocs.Common.Tests.{◌==◌, if◌then◌else◌}
use liballocs.Common.Lists.{◌∈◌, ◌∉◌, Distinct, erase, last_or}
use Prim.Native.Nat.{ℕ}
use mathlib.Core.Path.{◌≡◌, refl}
use mathlib.Core.Logic.{◌≢◌, ◌⊎◌, inl, inr}
use mathlib.Core.Bool.{not, ◌&&◌}
use mathlib.Core.List.{List, [], ◌∷◌}
use native.Mathlib.Omega.{arith}

-- From `h`, whose predecessor is `q`, the links lead through the nodes `xs` to 0.
abbrev pub Chain : (nx pv : ℕ → ℕ) (q h : ℕ) → List ℕ → Type 0
Chain nx pv q h [] = h ≡ 0
Chain nx pv q h (x ∷ xs) = (h ≡ x) × (x ≢ 0) × (pv x ≡ q) × Chain nx pv x (nx x) xs

-- the links after `x` is bypassed
abbrev pub unhook_next : (nx pv : ℕ → ℕ) → ℕ → ℕ → ℕ
unhook_next nx pv x j = if not (pv x == 0) && (j == pv x) then nx x else nx j

abbrev pub unhook_prev : (nx pv : ℕ → ℕ) → ℕ → ℕ → ℕ
unhook_prev nx pv x j = if not (nx x == 0) && (j == nx x) then pv x else pv j

-- A chain reads only the links of its own nodes.
pub frame :
    (nx pv nx' pv' : ℕ → ℕ) (q h : ℕ) (xs : List ℕ)
    → Chain nx pv q h xs
    → ((j : ℕ) → j ∈ xs → (nx' j ≡ nx j) × (pv' j ≡ pv j))
    → Chain nx' pv' q h xs
frame nx pv nx' pv' q h [] c same = c
frame nx pv nx' pv' q h (x ∷ xs) c same =
    ground (arith, same x, frame nx pv nx' pv' x (nx x) xs c.3 (λ j i. same j (ground arith)))

-- A chain whose head gets the new predecessor `x`.
pub rehead :
    (nx pv nx' pv' : ℕ → ℕ) (q h x : ℕ) (xs : List ℕ)
    → Chain nx pv q h xs
    → Distinct xs
    → ((j : ℕ) → j ∈ xs → (nx' j ≡ nx j) × (pv' j ≡ (if j == h then x else pv j)))
    → Chain nx' pv' x h xs
rehead nx pv nx' pv' q h x [] c d same = c
rehead nx pv nx' pv' q h x (y ∷ ys) c d same =
    ground (arith, same y, frame nx pv nx' pv' y (nx y) ys c.3 (λ j i. ground (arith, same j)))

pub last_or-mem : (q x : ℕ) (xs : List ℕ) → last_or q (x ∷ xs) ∈ (x ∷ xs)
last_or-mem q x [] = ground arith
last_or-mem q x (y ∷ xs) = ground (arith, last_or-mem x y xs)

pub last_or-mem_of : (q a : ℕ) (xs : List ℕ) → a ∈ xs → last_or q xs ∈ xs
last_or-mem_of q a [] m = ground arith
last_or-mem_of q a (x ∷ xs) m = last_or-mem q x xs

module _ (nx pv : ℕ → ℕ) where
  pub Chain-nonzero : (q h : ℕ) (xs : List ℕ) → Chain nx pv q h xs → 0 ∉ xs
  Chain-nonzero q h [] c = refl
  Chain-nonzero q h (x ∷ xs) c = ground (arith, Chain-nonzero x (nx x) xs c.3)

  -- the head is a node or 0
  pub head-mem : (q h : ℕ) (xs : List ℕ) → Chain nx pv q h xs → (h ≡ 0) ⊎ (h ∈ xs)
  head-mem q h [] c = inl c
  head-mem q h (y ∷ xs) c = ground arith

  pub cons-erase_head : (q h : ℕ) (xs : List ℕ) → Chain nx pv q h xs → h ≢ 0 → h ∷ erase h xs ≡ xs
  cons-erase_head q h [] c ne = absurd (ne c)
  cons-erase_head q h (y ∷ xs) c ne = ground arith

  -- the successor of a node is a node or 0
  next-mem : (q h x : ℕ) (xs : List ℕ) → Chain nx pv q h xs → x ∈ xs → (nx x ≡ 0) ⊎ (nx x ∈ xs)
  next-mem q h x [] c m = inr m
  next-mem q h x (y ∷ []) c m = ground arith
  next-mem q h x (y ∷ z ∷ xs) c m = ground (arith, next-mem y (nx y) x (z ∷ xs) c.3)

  -- the predecessor of a node is `q` for the head, and a node for the others
  prev-mem :
      (q h x : ℕ) (xs : List ℕ)
      → Chain nx pv q h xs
      → Distinct xs
      → x ∈ xs
      → if h == x then pv x ≡ q else (pv x ∈ xs)
  prev-mem q h x [] c d m = ground arith
  prev-mem q h x (y ∷ []) c d m = ground arith
  prev-mem q h x (y ∷ z ∷ xs) c d m = ground (arith, prev-mem y (nx y) x (z ∷ xs) c.3 d.1)

  unhook-head :
      (q h x : ℕ) (xs : List ℕ)
      → Chain nx pv q h (x ∷ xs)
      → Distinct (x ∷ xs)
      → q ∉ (x ∷ xs)
      → Chain (unhook_next nx pv x) (unhook_prev nx pv x) q (nx x) xs
  unhook-head q h x [] c d out = c.3
  unhook-head q h x (z ∷ zs) c d out =
      let rest =
        frame nx pv (unhook_next nx pv x) (unhook_prev nx pv x) z (nx z) zs c.3.3
          (λ j i. ground arith) in
      ground arith

  -- Bypassing a node removes it from the list.
  pub unhook-Chain :
      (q h x : ℕ) (xs : List ℕ)
      → Chain nx pv q h xs
      → Distinct xs
      → q ∉ xs
      → x ∈ xs
      → Chain
          (unhook_next nx pv x)
          (unhook_prev nx pv x)
          q
          (if h == x then nx x else h)
          (erase x xs)
  unhook-Chain q h x [] c d out m = ground arith
  unhook-Chain q h x (y ∷ xs) c d out m =
      let back = prev-mem y (nx y) x xs c.3 d.1 in
      let forth = next-mem y (nx y) x xs c.3 in
      let rest = unhook-Chain y (nx y) x xs c.3 d.1 d.0 in
      let first = unhook-head q h y xs c d out in ground (arith, back, forth, rest)

  -- bypassing a node moves the end to its predecessor if it was the end
  pub last-erase :
      (q h x : ℕ) (xs : List ℕ)
      → Chain nx pv q h xs
      → Distinct xs
      → x ∈ xs
      → last_or q (erase x xs) ≡ (if last_or q xs == x then pv x else last_or q xs)
  last-erase q h x [] c d m = ground arith
  last-erase q h x (y ∷ []) c d m = ground arith
  last-erase q h x (y ∷ z ∷ xs) c d m =
      ground (arith, last_or-mem y z xs, last-erase y (nx y) x (z ∷ xs) c.3 d.1)

-- among nodes other than 0 an end of 0 means that there is none
pub last_or-eq :
    (i : ℕ) (xs : List ℕ) → 0 ∉ xs → last_or i xs ≡ (if last_or 0 xs == 0 then i else last_or 0 xs)
last_or-eq i [] h = ground arith
last_or-eq i (x ∷ xs) h = ground (arith, last_or-mem 0 x xs)
