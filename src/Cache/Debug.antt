-- ===== src/Cache/Debug.antt =====
-- __liballocs_check_cache_sanity, the check that a debug build makes around each operation, against
-- the invariant.
use liballocs.Common.{
  ℕ, zero, suc, ◌+◌, ◌-◌, ◌≤◌, ◌<◌, ◌≡◌, ◌≢◌, refl, sym, subst, ◌||◌, Bool, true, false, not, ◌&&◌,
  List, [], ◌∷◌, Option, none, some, arith, ◌==◌, ltb, if◌then◌else◌, update, has, ◌∈◌, ◌∉◌,
  Distinct, last_or, length, length_le_of_bound,
}
use liballocs.Common.Chain.{Chain, Chain-nonzero}
use liballocs.Cache.{Cache, is_valid, next_of, prev_of}
use liballocs.Cache.Sane.{IsSane}

-- the first loop: the valid slots below `size_plus_one`
visited_linear : Cache → ℕ → Bool
visited_linear c k = ltb (k + 1) c.size_plus_one && c.validity k

-- A walk along `step` from slot i, with what it has visited; `none` is a failed assertion or a walk
-- longer than the fuel.
visit : (ℕ → ℕ) → Cache → ℕ → ℕ → (ℕ → Bool) → Option (ℕ → Bool)
visit step c zero i seen = none
visit step c (suc k) i seen =
    let rest = visit step c k (step i) (update seen (i - 1) true) in
    if i == 0 then some seen else if is_valid c i && not (seen (i - 1)) then rest else none

-- equality of two 32-bit words, from bit k on for `left` bits
same_bits : ℕ → ℕ → (ℕ → Bool) → (ℕ → Bool) → Bool
same_bits zero k v w = true
same_bits (suc left) k v w =
    let rest = same_bits left (k + 1) v w in if v k then w k && rest else not (w k) && rest

agrees : Cache → Option (ℕ → Bool) → Bool
unfolding visited_linear same_bits
agrees c none = false
agrees c (some seen) = same_bits 32 0 (visited_linear c) seen

-- __liballocs_check_cache_sanity: whether all its assertions hold
pub check_cache_sanity : Cache → Bool
unfolding agrees visit
check_cache_sanity c =
    agrees c (visit (next_of c) c 34 c.head_mru (λ _. false))
    && agrees c (visit (prev_of c) c 34 c.tail_mru (λ _. false))

-- the nodes met from `h` along `step`, up to 0
abbrev Walk : (ℕ → ℕ) → ℕ → List ℕ → Type 0
Walk step h [] = h ≡ 0
Walk step h (x ∷ xs) = (h ≡ x) × (x ≢ 0) × Walk step (step x) xs

abbrev turned : List ℕ → List ℕ → List ℕ
turned [] ys = ys
turned (x ∷ xs) ys = turned xs (x ∷ ys)

Walk-next : (nx pv : ℕ → ℕ) (q h : ℕ) (xs : List ℕ) → Chain nx pv q h xs → Walk nx h xs
Walk-next nx pv q h [] c = c
Walk-next nx pv q h (x ∷ xs) c = (c.0, c.1, Walk-next nx pv x (nx x) xs c.3)

-- backwards from the end of a chain
Walk-prev :
    (nx pv : ℕ → ℕ) (q h : ℕ) (xs ys : List ℕ)
    → Chain nx pv q h xs
    → Walk pv q ys
    → Walk pv (last_or q xs) (turned xs ys)
Walk-prev nx pv q h [] ys c w = w
Walk-prev nx pv q h (x ∷ xs) ys c w =
    Walk-prev nx pv x (nx x) xs (x ∷ ys) c.3 (refl, c.1, subst (λ t. Walk pv t ys) (sym c.2) w)

has-turned : (a : ℕ) (xs ys : List ℕ) → has a (turned xs ys) ≡ (has a xs || has a ys)
has-turned a [] ys = refl
has-turned a (x ∷ xs) ys = ground (arith, has-turned a xs (x ∷ ys))

length-turned : (xs ys : List ℕ) → length (turned xs ys) ≡ length xs + length ys
length-turned [] ys = omega arith
length-turned (x ∷ xs) ys = omega (arith, length-turned xs (x ∷ ys))

turned-Distinct :
    (xs ys : List ℕ)
    → Distinct xs
    → Distinct ys
    → ((a : ℕ) → a ∈ xs → a ∉ ys)
    → Distinct (turned xs ys)
turned-Distinct [] ys d e apart = e
turned-Distinct (x ∷ xs) ys d e apart =
    turned-Distinct xs (x ∷ ys) d.1 (ground (arith, apart x), e) (λ a m. ground (arith, apart a))

-- A walk over distinct valid slots ends, having visited exactly these.
visit-some :
    (step : ℕ → ℕ) (c : Cache) (k h : ℕ) (xs : List ℕ) (seen : ℕ → Bool)
    → Walk step h xs
    → Distinct xs
    → ((i : ℕ) → i ∈ xs → (0 < i) × (is_valid c i ≡ true) × (seen (i - 1) ≡ false))
    → length xs < k
    → (seen' : ℕ → Bool) × (visit step c k h seen ≡ some seen')
      × ((b : ℕ) → seen' b ≡ (has (b + 1) xs || seen b))
unfolding visit
visit-some step c zero h xs seen w d v f = absurd (omega arith)
visit-some step c (suc k) h [] seen w d v f = (seen, ground arith, λ b. refl)
visit-some step c (suc k) h (x ∷ xs) seen w d v f =
    let (seen', e, s) =
      visit-some step c k (step x) xs (update seen (x - 1) true) w.2 d.1
        (λ i m. ground (arith, v i, v x)) (omega arith) in
    (seen', ground (arith, v x), λ b. ground (arith, s b, v x))

same_bits-true : (left k : ℕ) (v w : ℕ → Bool) → ((b : ℕ) → v b ≡ w b) → same_bits left k v w ≡ true
unfolding same_bits
same_bits-true zero k v w h = refl
same_bits-true (suc left) k v w h = ground (arith, h k, same_bits-true left (k + 1) v w h)

module _ {c : Cache} {xs : List ℕ} (s : IsSane c xs) where
  agrees-visit :
      (step : ℕ → ℕ) (h : ℕ) (ys : List ℕ)
      → Walk step h ys
      → Distinct ys
      → ((a : ℕ) → has a ys ≡ has a xs)
      → length ys ≤ 32
      → agrees c (visit step c 34 h (λ _. false)) ≡ true
  unfolding agrees
  agrees-visit step h ys w d same short =
      let nonzero = Chain-nonzero (next_of c) (prev_of c) 0 c.head_mru xs s.chain in
      let (seen, e, at) =
        visit-some step c 34 h ys (λ _. false) w d
          (λ i m. ground (arith, same i, s.valid i, nonzero)) (omega arith) in
      rw e (
        same_bits-true 32 0 (visited_linear c) seen (λ b.
          unfold visited_linear in
          ground (arith, at b, same (b + 1), s.valid (b + 1), s.range (b + 1))))

  -- A sane cache passes the check that a debug build makes before and after every operation: both
  -- walks of the recency list end, visit no slot twice, and visit exactly the valid slots.
  pub check_cache_sanity-IsSane : check_cache_sanity c ≡ true
  unfolding check_cache_sanity
  check_cache_sanity-IsSane =
      let short = length_le_of_bound c.size_plus_one xs s.distinct s.range in
      let ch = s.chain in
      let back = Walk-prev (next_of c) (prev_of c) 0 c.head_mru xs [] ch refl in
      rw (
        agrees-visit (next_of c) c.head_mru xs (Walk-next _ _ _ _ xs ch) s.distinct (λ a. refl)
            (omega (arith, s.size)),
        agrees-visit (prev_of c) c.tail_mru (turned xs [])
            (subst (λ t. Walk (prev_of c) t (turned xs [])) (sym s.tail) back)
            (turned-Distinct xs [] s.distinct tt (λ a m. refl))
            (λ a. ground (arith, has-turned a xs [])) (omega (arith, s.size, length-turned xs [])),
      )
