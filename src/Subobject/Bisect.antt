-- ===== src/Subobject/Bisect.antt =====
-- The bisection of the members of a struct or union by their offsets, and the scan for the lowest member
-- at the offset found.
use liballocs.Common.{
  ℕ, zero, suc, ◌+◌, ◌/◌, ◌≤◌, ◌<◌, ◌≡◌, ◌≢◌, ◌⊎◌, inl, inr, refl, some, arith, ltb, ◌==◌,
  Bool-cases,
}
use liballocs.Subobject.{bisect, lowest}

-- the offsets of the members ascend
abbrev pub Ascending : (off : ℕ → ℕ) (n : ℕ) → Type 0
Ascending off n = (i j : ℕ) → i ≤ j → j < n → off i ≤ off j

-- among the `n` members, `o` is the greatest offset up to the target
abbrev pub IsBest : (off : ℕ → ℕ) (n target o : ℕ) → Type 0
IsBest off n target o = (o ≤ target) × ((j : ℕ) → j < n → off j ≤ target → off j ≤ o)

-- `i` is the lowest member at that offset
abbrev pub IsFirst : (off : ℕ → ℕ) (n target i : ℕ) → Type 0
IsFirst off n target i = (i < n) × IsBest off n target (off i) × ((j : ℕ) → j < i → off j < off i)

module _ (off : ℕ → ℕ) (target : ℕ) where
  bisect-returns :
      (k lower upper : ℕ)
      → lower < upper
      → upper ≤ lower + k
      → (l : ℕ) × (bisect off target k lower upper ≡ some (l, l + 1))
        × (lower ≤ l)
        × (l + 1 ≤ upper)
        × ((l ≡ lower) ⊎ (off l ≤ target))
        × ((l + 1 ≡ upper) ⊎ (target < off (l + 1)))
  unfolding bisect
  bisect-returns zero lower upper less enough = absurd (omega arith)
  bisect-returns (suc k) lower upper less enough = elim (Bool-cases (ltb (lower + 1) upper)) [
    | inr narrow ↦ (lower, ground arith, omega arith, omega arith, inl refl, inl (ground arith))
    | inl wide ↦
        let mid = (upper + lower) / 2 in
        elim (Bool-cases (ltb target (off mid))) [
          | inl above ↦
              let (l, ran, lo, hi, low, high) =
                bisect-returns k lower mid (ground arith) (ground arith) in
              (l, ground arith, lo, ground arith, low, ground arith)
          | inr below ↦
              let (l, ran, lo, hi, low, high) =
                bisect-returns k mid upper (ground arith) (ground arith) in
              (l, ground arith, ground arith, hi, ground arith, high)
        ]
  ]

module _ (off : ℕ → ℕ) where
  lowest-first :
      (i : ℕ)
      → (lowest off i ≤ i)
        × (off (lowest off i) ≡ off i)
        × ((j : ℕ) → lowest off i ≤ j → j ≤ i → off j ≡ off i)
        × ((p : ℕ) → lowest off i ≡ suc p → off p ≢ off i)
  unfolding lowest
  lowest-first zero = (omega arith, refl, λ j a b. ground arith, λ p e. absurd (omega arith))
  lowest-first (suc i) =
      let (le, same, run, edge) = lowest-first i in
      elim (Bool-cases (off i == off (suc i))) [
        | inl eq ↦ (
          ground arith,
          ground arith,
          λ j a b. ground (arith, run j),
          λ p e. ground (arith, edge p),
        )
        | inr ne ↦ (ground arith, ground arith, λ j a b. ground arith, λ p e. ground arith)
      ]

  pub lowest-IsFirst :
      (n target l : ℕ)
      → Ascending off n
      → l < n
      → IsBest off n target (off l)
      → IsFirst off n target (lowest off l) × (off (lowest off l) ≡ off l)
  lowest-IsFirst n target l up less best =
      let (le, same, run, edge) = lowest-first l in
      (
        (
          omega arith,
          (omega arith, λ j a b. ground (arith, best.1 j)),
          λ j a. below j (lowest off l) (omega arith) a same edge,
        ),
        same,
      )
    where
      below :
          (j i : ℕ)
          → i ≤ l
          → j < i
          → off i ≡ off l
          → ((p : ℕ) → i ≡ suc p → off p ≢ off l)
          → off j < off i
      below j zero le a same edge = absurd (omega arith)
      below j (suc p) le a same edge =
          ground
            (arith, up j p (omega arith) (omega arith), up p l (omega arith) (omega arith), edge p)

module _ (off : ℕ → ℕ) (n target : ℕ) (up : Ascending off n) where
  none_below :
      (l : ℕ) → (l ≡ 0) ⊎ (off l ≤ target) → target < off l → (j : ℕ) → j < n → target < off j
  none_below l low above j less = ground (arith, up 0 j)

  best_at :
      (l : ℕ)
      → (l + 1 ≡ n) ⊎ (target < off (l + 1))
      → l < n
      → off l ≤ target
      → (j : ℕ) → j < n
      → off j ≤ target
      → off j ≤ off l
  best_at l high less below j a b = ground (arith, up j l, up (l + 1) j)

  -- The bisection ends within n rounds, at the last member up to the target or, when all are beyond it,
  -- at the first one.
  pub bisect-choice :
      0 < n
      → (l : ℕ) × (bisect off target (suc n) 0 n ≡ some (l, l + 1))
        × (l < n)
        × (((target < off l) × ((j : ℕ) → j < n → target < off j)) ⊎ IsBest off n target (off l))
  bisect-choice some_members =
      let (l, ran, lo, hi, low, high) =
        bisect-returns off target (suc n) 0 n some_members (omega arith) in
      (
        l,
        ran,
        omega arith,
        elim (Bool-cases (ltb target (off l))) [
          | inl above ↦ inl (ground arith, none_below l low (ground arith))
          | inr below ↦ inr (ground arith, best_at l high (omega arith) (ground arith))
        ],
      )
