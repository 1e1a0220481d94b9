-- ===== src/Pageindex/Toplevel/Correct.antt =====
-- The searches of a sorted list of records without a parent.
use liballocs.Common.{
  ℕ, ◌+◌, ◌≤◌, ◌<◌, ◌≡◌, ◌⊎◌, inl, inr, Bool, true, ◌||◌, List, [], ◌∷◌, some, arith, leb, has, ◌∈◌,
  ◌∉◌, length, Bool-cases,
}
use liballocs.Pageindex.State.{BigAlloc}
use liballocs.Pageindex.Toplevel.{
  is_ge, is_lt, next_of, prev_of, find_toplevel_lowest_ge, find_toplevel_highest_lt,
  find_mapping_at_or_above,
}
use liballocs.Pageindex.Toplevel.Search.{Walk, Rising, Falling, search_around-Nearest, Walk-nonzero}

module _ (bs : ℕ → BigAlloc) where
  -- each record ends before the later ones begin
  abbrev pub Ascending : List ℕ → Type 0
  Ascending [] = Unit {0}
  Ascending (x ∷ xs) = ((y : ℕ) → y ∈ xs → (bs x).end ≤ (bs y).begin) × Ascending xs

  abbrev pub Descending : List ℕ → Type 0
  Descending [] = Unit {0}
  Descending (x ∷ xs) = ((y : ℕ) → y ∈ xs → (bs y).end ≤ (bs x).begin) × Descending xs

-- The list of records without a parent, seen from `start`: the records after it, and those before it,
-- nearest first.
pub record IsToplevel (bs : ℕ → BigAlloc) (start : ℕ) (after before : List ℕ) : Type 0 where
  pub forth : Walk (λ b. (bs b).next_sib) start (start ∷ after)
  pub back : Walk (λ b. (bs b).prev_sib) start (start ∷ before)
  pub ascending : Ascending bs (start ∷ after)
  pub descending : Descending bs (start ∷ before)
  pub nonempty :
      (y : ℕ)
      → (has y (start ∷ after) || has y before) ≡ true
      → ((bs y).begin < (bs y).end) × ((bs y).end < 0x1_0000_0000_0000_0000)

-- `r` is the lowest of the records `on` that ends after the address, or 0 for none
abbrev pub LowestPast : (bs : ℕ → BigAlloc) (addr r : ℕ) → (ℕ → Bool) → Type 0
LowestPast bs addr r on =
    ((r ≡ 0) × ((y : ℕ) → on y ≡ true → (bs y).end ≤ addr))
    ⊎ ((on r ≡ true)
        × (addr < (bs r).end)
        × ((y : ℕ) → on y ≡ true → addr < (bs y).end → (bs r).begin ≤ (bs y).begin))

-- `r` is the highest of the records `on` that begins before the address, or 0 for none
abbrev pub HighestBefore : (bs : ℕ → BigAlloc) (addr r : ℕ) → (ℕ → Bool) → Type 0
HighestBefore bs addr r on =
    ((r ≡ 0) × ((y : ℕ) → on y ≡ true → addr ≤ (bs y).begin))
    ⊎ ((on r ≡ true)
        × ((bs r).begin < addr)
        × ((y : ℕ) → on y ≡ true → (bs y).begin < addr → (bs y).begin ≤ (bs r).begin))

module _ (debug : Bool) (bs : ℕ → BigAlloc) (start fuel addr : ℕ) where
  ge-Rising :
      (xs : List ℕ)
      → Ascending bs xs
      → ((y : ℕ) → y ∈ xs → ((bs y).begin < (bs y).end) × ((bs y).end < 0x1_0000_0000_0000_0000))
      → Rising (is_ge debug bs start fuel addr) (λ x y. (bs x).begin ≤ (bs y).begin) xs
  ge-Rising [] a n = tt
  ge-Rising (x ∷ xs) a n =
      (λ y m. ground (arith, a.0 y, n x, n y), ge-Rising xs a.1 (λ y m. n y (ground arith)))

  ge-Falling :
      (xs : List ℕ)
      → Descending bs xs
      → ((y : ℕ) → y ∈ xs → ((bs y).begin < (bs y).end) × ((bs y).end < 0x1_0000_0000_0000_0000))
      → Falling (is_ge debug bs start fuel addr) (λ x y. (bs x).begin ≤ (bs y).begin) xs
  ge-Falling [] a n = tt
  ge-Falling (x ∷ xs) a n =
      (λ y m. ground (arith, a.0 y, n x, n y), ge-Falling xs a.1 (λ y m. n y (ground arith)))

  lt-Rising :
      (xs : List ℕ)
      → Descending bs xs
      → ((y : ℕ) → y ∈ xs → ((bs y).begin < (bs y).end) × ((bs y).end < 0x1_0000_0000_0000_0000))
      → Rising (is_lt debug bs start fuel addr) (λ x y. (bs y).begin ≤ (bs x).begin) xs
  lt-Rising [] a n = tt
  lt-Rising (x ∷ xs) a n =
      (λ y m. ground (arith, a.0 y, n x, n y), lt-Rising xs a.1 (λ y m. n y (ground arith)))

  lt-Falling :
      (xs : List ℕ)
      → Ascending bs xs
      → ((y : ℕ) → y ∈ xs → ((bs y).begin < (bs y).end) × ((bs y).end < 0x1_0000_0000_0000_0000))
      → Falling (is_lt debug bs start fuel addr) (λ x y. (bs y).begin ≤ (bs x).begin) xs
  lt-Falling [] a n = tt
  lt-Falling (x ∷ xs) a n =
      (λ y m. ground (arith, a.0 y, n x, n y), lt-Falling xs a.1 (λ y m. n y (ground arith)))

module _ (debug : Bool) {bs : ℕ → BigAlloc} {start : ℕ} {after before : List ℕ}
    (list : IsToplevel bs start after before) (fuel addr : ℕ) (enough : length after + 1 < fuel)
    (enough' : length before + 1 < fuel) where
  -- the records of the list
  abbrev pub listed : ℕ → Bool
  listed y = has y (start ∷ after) || has y before

  apart : (start ∉ after) × (start ∉ before)
  apart =
      let ok = list.nonempty start (ground arith) in
      (ground (arith, list.ascending.0 start), ground (arith, list.descending.0 start))

  -- In a sorted list with fuel beyond its length, find_toplevel_lowest_ge passes its assertions and
  -- returns the lowest record that ends after the address, wherever START stands, or 0 if all end at
  -- or before it.
  pub find_toplevel_lowest_ge-LowestPast :
      (r : ℕ) × (find_toplevel_lowest_ge debug bs start fuel addr ≡ some r)
      × LowestPast bs addr r listed
  unfolding find_toplevel_lowest_ge
  find_toplevel_lowest_ge-LowestPast =
      let rising =
        ge-Rising debug bs start fuel addr (start ∷ after) list.ascending
          (λ y m. list.nonempty y (ground arith)) in
      let falling =
        ge-Falling debug bs start fuel addr (start ∷ before) list.descending
          (λ y m. list.nonempty y (ground arith)) in
      let (r, ran, near) =
        search_around-Nearest debug bs start fuel (next_of debug bs start fuel)
          (prev_of debug bs start fuel) (is_ge debug bs start fuel addr)
          (λ x y. (bs x).begin ≤ (bs y).begin) (λ x. omega arith) (λ x y z a b. omega arith) after
          before list.forth list.back apart.0 apart.1 rising falling enough enough' in
      (
        r,
        ran,
        elim near [
          | inl (z, none_there) ↦ inl (z, λ y m. ground (arith, none_there y m, list.nonempty y m))
          | inr (i, g, least) ↦ inr (
            i,
            ground (arith, list.nonempty r i),
            λ y m l. ground (arith, least y m, list.nonempty y m),
          )
        ],
      )

  -- In a sorted list with fuel beyond its length, find_toplevel_highest_lt passes its assertions and
  -- returns the highest record that begins before the address, wherever START stands, or 0 if all
  -- begin at or after it.
  find_toplevel_highest_lt-HighestBefore :
      (r : ℕ) × (find_toplevel_highest_lt debug bs start fuel addr ≡ some r)
      × HighestBefore bs addr r listed
  unfolding find_toplevel_highest_lt
  find_toplevel_highest_lt-HighestBefore =
      let rising =
        lt-Rising debug bs start fuel addr (start ∷ before) list.descending
          (λ y m. list.nonempty y (ground arith)) in
      let falling =
        lt-Falling debug bs start fuel addr (start ∷ after) list.ascending
          (λ y m. list.nonempty y (ground arith)) in
      let (r, ran, near) =
        search_around-Nearest debug bs start fuel (prev_of debug bs start fuel)
          (next_of debug bs start fuel) (is_lt debug bs start fuel addr)
          (λ x y. (bs y).begin ≤ (bs x).begin) (λ x. omega arith) (λ x y z a b. omega arith) before
          after list.back list.forth apart.1 apart.0 rising falling enough' enough in
      (
        r,
        ran,
        elim near [
          | inl (z, none_there) ↦ inl (z, λ y m. ground (arith, none_there y (ground arith)))
          | inr (i, g, least) ↦
              inr (ground arith, ground arith, λ y m l. ground (arith, least y (ground arith)))
        ],
      )

Ascending-apart :
    (bs : ℕ → BigAlloc) (xs : List ℕ) (x y : ℕ)
    → Ascending bs xs
    → x ∈ xs
    → y ∈ xs
    → (x ≡ y) ⊎ (((bs x).end ≤ (bs y).begin) ⊎ ((bs y).end ≤ (bs x).begin))
Ascending-apart bs [] x y a m n = ground arith
Ascending-apart bs (z ∷ zs) x y a m n = ground (arith, a.0 x, a.0 y, Ascending-apart bs zs x y a.1)

Descending-apart :
    (bs : ℕ → BigAlloc) (xs : List ℕ) (x y : ℕ)
    → Descending bs xs
    → x ∈ xs
    → y ∈ xs
    → (x ≡ y) ⊎ (((bs x).end ≤ (bs y).begin) ⊎ ((bs y).end ≤ (bs x).begin))
Descending-apart bs [] x y a m n = ground arith
Descending-apart bs (z ∷ zs) x y a m n =
    ground (arith, a.0 x, a.0 y, Descending-apart bs zs x y a.1)

module _ (debug : Bool) {bs : ℕ → BigAlloc} {start : ℕ} {after before : List ℕ}
    (list : IsToplevel bs start after before) (fuel addr : ℕ) (enough : length after + 1 < fuel)
    (enough' : length before + 1 < fuel) where
  listed-apart :
      (x y : ℕ)
      → (has x (start ∷ after) || has x before) ≡ true
      → (has y (start ∷ after) || has y before) ≡ true
      → (x ≡ y) ⊎ (((bs x).end ≤ (bs y).begin) ⊎ ((bs y).end ≤ (bs x).begin))
  listed-apart x y m n = ground (
    arith,
    Ascending-apart bs (start ∷ after) x y list.ascending,
    Descending-apart bs (start ∷ before) x y list.descending,
    list.ascending.0 x,
    list.ascending.0 y,
    list.descending.0 x,
    list.descending.0 y,
    list.nonempty start (ground arith),
  )

  -- In a sorted list with fuel beyond its length, one of whose records begins before the address,
  -- __liballocs_find_mapping_at_or_above returns the lowest record that ends after the address, or 0
  -- if there is none.
  pub find_mapping_at_or_above-LowestPast :
      (y : ℕ)
      → (has y (start ∷ after) || has y before) ≡ true
      → (bs y).begin < addr
      → (r : ℕ) × (find_mapping_at_or_above debug bs start fuel addr ≡ some r)
        × LowestPast bs addr r (λ y. has y (start ∷ after) || has y before)
  unfolding find_mapping_at_or_above
  find_mapping_at_or_above-LowestPast y m lo =
      let (found, ran, highest) =
        find_toplevel_highest_lt-HighestBefore debug list fuel addr enough enough' in
      let (r, ran', lowest) =
        find_toplevel_lowest_ge-LowestPast debug list fuel addr enough enough' in
      let no_zero = Walk-nonzero (λ b. (bs b).next_sib) start (start ∷ after) list.forth in
      let no_zero' = Walk-nonzero (λ b. (bs b).prev_sib) start (start ∷ before) list.back in
      elim highest [
        | inl (z, none_there) ↦ absurd (ground (arith, none_there y))
        | inr (i, b, most) ↦ elim (Bool-cases (leb (bs found).end addr)) [
          | inl over ↦ (r, ground (arith, ran, ran'), lowest)
          | inr on ↦ (
            found,
            ground (arith, ran),
            inr (
              i,
              ground arith,
              λ z n l. ground (arith, most z n, listed-apart z found n i, list.nonempty z n),
            ),
          )
        ]
      ]

  -- In a sorted list with fuel beyond its length, whose records all begin at or after the address,
  -- __liballocs_find_mapping_at_or_above returns 0, although its name promises the first of them.
  find_mapping_at_or_above_misses :
      ((y : ℕ) → (has y (start ∷ after) || has y before) ≡ true → addr ≤ (bs y).begin)
      → find_mapping_at_or_above debug bs start fuel addr ≡ some 0
  unfolding find_mapping_at_or_above
  find_mapping_at_or_above_misses all_above =
      let (found, ran, highest) =
        find_toplevel_highest_lt-HighestBefore debug list fuel addr enough enough' in
      elim highest [
        | inl (z, none_there) ↦ ground (arith, ran)
        | inr (i, b, most) ↦ absurd (ground (arith, all_above found i))
      ]
