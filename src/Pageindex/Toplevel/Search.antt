-- ===== src/Pageindex/Toplevel/Search.antt =====
-- The searches of the list of records without a parent, over the records on either side of START.
use liballocs.Common.{
  ℕ, zero, suc, ◌+◌, ◌<◌, ◌≡◌, ◌≢◌, ◌⊎◌, inl, inr, refl, Bool, true, false, not, ◌||◌, List, [],
  ◌∷◌, some, arith, if◌then◌else◌, has, ◌∈◌, ◌∉◌, length, Bool-cases,
}
use liballocs.Pageindex.State.{BigAlloc}
use liballocs.Pageindex.Toplevel.{search_until, turn_back, search_around}

-- the links of `step` from `h` lead through the records `xs`, none of them 0, to 0
abbrev pub Walk : (step : ℕ → ℕ) (h : ℕ) → List ℕ → Type 0
Walk step h [] = h ≡ 0
Walk step h (x ∷ xs) = (h ≡ x) × (x ≢ 0) × Walk step (step x) xs

-- the first record that passes a test, or 0, and the record before it, or `prev`
abbrev stop_at : (p : ℕ → Bool) → List ℕ → ℕ
stop_at p [] = 0
stop_at p (x ∷ xs) = let rest = stop_at p xs in if p x then x else rest

abbrev stop_after : (p : ℕ → Bool) (prev : ℕ) → List ℕ → ℕ
stop_after p prev [] = prev
stop_after p prev (x ∷ xs) = let rest = stop_after p x xs in if p x then prev else rest

search_until-eq :
    (step : ℕ → ℕ) (p : ℕ → Bool) (k h prev : ℕ) (xs : List ℕ)
    → Walk step h xs
    → length xs < k
    → search_until step p k h prev ≡ some (stop_at p xs, stop_after p prev xs)
unfolding search_until
search_until-eq step p zero h prev xs w fuel = ground arith
search_until-eq step p (suc k) h prev [] w fuel = ground arith
search_until-eq step p (suc k) h prev (x ∷ xs) w fuel =
    ground (arith, search_until-eq step p k (step x) x xs w.2 (omega arith))

stop_at-mem : (p : ℕ → Bool) (xs : List ℕ) → (stop_at p xs ≡ 0) ⊎ (stop_at p xs ∈ xs)
stop_at-mem p [] = inl refl
stop_at-mem p (x ∷ xs) = ground (arith, stop_at-mem p xs)

pub Walk-nonzero : (step : ℕ → ℕ) (h : ℕ) (xs : List ℕ) → Walk step h xs → 0 ∉ xs
Walk-nonzero step h [] w = refl
Walk-nonzero step h (x ∷ xs) w = ground (arith, Walk-nonzero step (step x) xs w.2)

-- `R x y` says that x lies before y. Along the list from the start the records come nearer to passing
-- the test: once a record passes, the later ones pass too, and lie after it.
abbrev pub Rising : (p : ℕ → Bool) (R : ℕ → ℕ → Type 0) → List ℕ → Type 0
Rising p R [] = Unit {0}
Rising p R (x ∷ xs) = ((y : ℕ) → y ∈ xs → R x y × (p x ≡ true → p y ≡ true)) × Rising p R xs

-- the same in the other direction
abbrev pub Falling : (p : ℕ → Bool) (R : ℕ → ℕ → Type 0) → List ℕ → Type 0
Falling p R [] = Unit {0}
Falling p R (x ∷ xs) = ((y : ℕ) → y ∈ xs → R y x × (p y ≡ true → p x ≡ true)) × Falling p R xs

-- `r` is the first of the records `on` that passes the test, or 0 for none
abbrev pub Nearest : (p : ℕ → Bool) (R : ℕ → ℕ → Type 0) (r : ℕ) → (ℕ → Bool) → Type 0
Nearest p R r on =
    ((r ≡ 0) × ((y : ℕ) → on y ≡ true → p y ≡ false))
    ⊎ ((on r ≡ true) × (p r ≡ true) × ((y : ℕ) → on y ≡ true → p y ≡ true → R r y))

module _ (p : ℕ → Bool) (R : ℕ → ℕ → Type 0) (same : (x : ℕ) → R x x) where
  stop_at-Nearest : (xs : List ℕ) → Rising p R xs → Nearest p R (stop_at p xs) (λ y. has y xs)
  stop_at-Nearest [] r = inl (refl, λ y h. ground arith)
  stop_at-Nearest (x ∷ xs) r = elim (Bool-cases (p x)) [
    | inl fits ↦ inr (ground arith, ground arith, λ y h e. ground (arith, r.0 y, same x))
    | inr other ↦ elim (stop_at-Nearest xs r.1) [
      | inl (e, none_there) ↦ inl (ground arith, λ y h. ground (arith, none_there y))
      | inr (i, f, least) ↦ inr (ground arith, ground arith, λ y h e. ground (arith, least y))
    ]
  ]

  -- the last record before the test fails
  stop_after-Nearest :
      (prev : ℕ) (xs : List ℕ)
      → Falling p R (prev ∷ xs)
      → p prev ≡ true
      → let r = stop_after (λ b. not (p b)) prev xs in
        (r ∈ (prev ∷ xs)) × (p r ≡ true) × ((y : ℕ) → y ∈ (prev ∷ xs) → p y ≡ true → R r y)
  stop_after-Nearest prev [] f e = (ground arith, ground arith, λ y h e'. ground (arith, same prev))
  stop_after-Nearest prev (x ∷ xs) f e = elim (Bool-cases (p x)) [
    | inl fits ↦
        let (i, g, least) = stop_after-Nearest x xs f.1 fits in
        let r = stop_after (λ b. not (p b)) x xs in
        (ground arith, ground arith, λ y h e'. ground (arith, f.0 r, least y))
    | inr other ↦ (ground arith, ground arith, λ y h e'. ground (arith, f.1.0 y, same prev))
  ]

-- The records on the two sides of `start`, and the list that they and `start` form: `ahead` in the
-- direction of `step`, nearest first, and `behind` in the other.
module _ (debug : Bool) (bs : ℕ → BigAlloc) (start fuel : ℕ) (step back : ℕ → ℕ) (p : ℕ → Bool)
    (R : ℕ → ℕ → Type 0) (same : (x : ℕ) → R x x) (trans : (x y z : ℕ) → R x y → R y z → R x z)
    (ahead behind : List ℕ) (forth : Walk step start (start ∷ ahead))
    (rev : Walk back start (start ∷ behind)) (out : start ∉ ahead) (apart : start ∉ behind)
    (up : Rising p R (start ∷ ahead)) (down : Falling p R (start ∷ behind))
    (enough : length ahead + 1 < fuel) (enough' : length behind + 1 < fuel) where
  pub search_around-Nearest :
      (r : ℕ) × (search_around debug bs start fuel step back p ≡ some r)
      × Nearest p R r (λ y. has y (start ∷ ahead) || has y behind)
  unfolding search_around turn_back
  search_around-Nearest =
      let there = search_until-eq step p fuel start 0 (start ∷ ahead) forth (omega arith) in
      let turned =
        search_until-eq back (λ b. not (p b)) fuel start 0 (start ∷ behind) rev (omega arith) in
      let no_zero = Walk-nonzero step start (start ∷ ahead) forth in
      let no_zero' = Walk-nonzero back start (start ∷ behind) rev in
      elim (Bool-cases (p start)) [
        | inl fits ↦
            let (i, g, least) = stop_after-Nearest p R same start behind down fits in
            let r = stop_after (λ b. not (p b)) start behind in
            let beyond = stop_at-mem (λ b. not (p b)) behind in
            (
              r,
              ground (arith, there, turned),
              inr (
                ground arith,
                g,
                λ y h e. ground (arith, least y, least start, up.0 y, trans r start y),
              ),
            )
        | inr other ↦
            let beyond = stop_at-mem p ahead in
            (
              stop_at p ahead,
              ground (arith, there),
              elim (stop_at-Nearest p R same ahead up.1) [
                | inl (z, none_there) ↦ inl (z, λ y h. ground (arith, none_there y, down.0 y))
                | inr (i, g, least) ↦
                    inr (ground arith, g, λ y h e. ground (arith, least y, down.0 y))
              ],
            )
      ]
