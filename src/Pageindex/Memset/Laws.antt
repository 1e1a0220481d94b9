-- ===== src/Pageindex/Memset/Laws.antt =====
-- memset_bigalloc of src/pageindex.c, entry by entry.
use liballocs.Common.{
  ℕ, zero, suc, ◌+◌, ◌-◌, ◌*◌, ◌/◌, ◌%◌, ◌≤◌, ◌<◌, ◌≡◌, refl, ap, sym, true, not, ◌&&◌, some, arith,
  ltb, leb, ◌==◌, if◌then◌else◌, update, Bool-cases, require-eq_some, >>=-eq_some, some_injective,
  inl, inr, ◌⊎◌,
}
use mathlib.Core.Path.{}
use liballocs.Pageindex.Vas.{Vas, page_size, user_pages}
use liballocs.Pageindex.Memset.{
  loc_ok, store_wchar, wmemset, check_range, set_first, set_last, set_rest, memset_bigalloc,
}

-- the index with `num` in the n entries from `begin` on
abbrev pub fill : (ℕ → ℕ) → (begin num n : ℕ) → ℕ → ℕ
fill t begin num n p = if leb begin p && ltb p (begin + n) then num else t p

wmemset-fill :
    (t : ℕ → ℕ) (p num k q : ℕ)
    → num < 65536
    → wmemset t p (num * 65536 + num) k q ≡ fill t p num (k + k) q
unfolding wmemset
wmemset-fill t p num zero q h = ground arith
wmemset-fill t p num (suc k) q h =
    ground (arith, wmemset-fill (store_wchar t p (num * 65536 + num)) (p + 2) num k q)

-- every entry of the range holds 0 or the number expected there
abbrev pub AllOk : (ℕ → ℕ) → (begin old_num n : ℕ) → Type 0
AllOk t begin old_num n = (p : ℕ) → begin ≤ p → p < begin + n → loc_ok old_num (t p) ≡ true

check_range-true :
    (t : ℕ → ℕ) (old_num limit p n : ℕ)
    → AllOk t p old_num n
    → p + n ≤ limit
    → check_range t old_num limit p n ≡ true
unfolding check_range
check_range-true t old_num limit p zero ok h = refl
check_range-true t old_num limit p (suc n) ok h = ground (
  arith,
  ok p,
  check_range-true t old_num limit (p + 1) n (λ q a b. ok q (omega arith) (omega arith)),
)

module _ (v : Vas) (t : ℕ → ℕ) (begin num old_num n : ℕ) where
  set_last-eq :
      (t' : ℕ → ℕ) (q : ℕ)
      → set_last v t begin num old_num n ≡ some t'
      → t' q ≡ (if (n % 2 == 1) && (q == begin + (n - 1)) then num else t q)
  unfolding set_last
  set_last-eq t' q h = elim (Bool-cases (n % 2 == 1)) [
    | inl odd ↦
        let ends = (require-eq_some _ _ (rw (odd, set_last) at h)).1 in
        rw odd (ap (λ (f : ℕ → ℕ). f q) (sym (some_injective ends)))
    | inr even ↦ rw even (ap (λ (f : ℕ → ℕ). f q) (sym (some_injective (rw (even, set_last) at h))))
  ]

-- What set_first leaves: either the first entry is written and skipped, or nothing is done.
abbrev First : (t : ℕ → ℕ) (begin num n : ℕ) → (ℕ → ℕ) × ℕ × ℕ → Type 0
First t begin num n r = (r ≡ (update t begin num, begin + 1, n - 1) × 0 < n) ⊎ (r ≡ (t, begin, n))

module _ (v : Vas) (t : ℕ → ℕ) (begin num old_num n : ℕ) where
  set_first-First :
      (r : (ℕ → ℕ) × ℕ × ℕ) → set_first v t begin num old_num n ≡ some r → First t begin num n r
  unfolding set_first
  set_first-First r h = elim (Bool-cases (ltb 0 n && not (begin % 2 == 0))) [
    | inl odd ↦
        let ends = (require-eq_some _ _ (rw (odd, set_first) at h)).1 in
        inl (sym (some_injective ends), ground arith)
    | inr even ↦ inr (sym (some_injective (rw (even, set_first) at h)))
  ]

module _ (v : Vas) (t : ℕ → ℕ) (begin num old_num n : ℕ) (small : num < 65536) where
  set_rest-fill :
      (t' : ℕ → ℕ) (q : ℕ)
      → set_rest v t begin num old_num n ≡ some t'
      → t' q ≡ fill t begin num n q
  unfolding set_rest
  set_rest-fill t' q h =
      let wide = wmemset t begin (num * 65536 + num) (n / 2) in
      let ends = set_last-eq v wide begin num old_num n t' q (require-eq_some _ _ h).1 in
      ground (arith, ends, wmemset-fill t begin num (n / 2) q)

module _ (v : Vas) (t : ℕ → ℕ) (begin num old_num n : ℕ) (small : num < 65536) where
  resume_fill :
      (t1 : ℕ → ℕ) (begin1 n1 : ℕ) (t' : ℕ → ℕ) (q : ℕ)
      → First t begin num n (t1, begin1, n1)
      → set_rest v t1 begin1 num old_num n1 ≡ some t'
      → t' q ≡ fill t begin num n q
  resume_fill t1 begin1 n1 t' q first rest = elim first [
    | inl (e, pos) ↦
        let e0 = ap (λ (r : (ℕ → ℕ) × ℕ × ℕ). r.0 q) e in
        let e1 = ap (λ (r : (ℕ → ℕ) × ℕ × ℕ). r.1) e in
        let e2 = ap (λ (r : (ℕ → ℕ) × ℕ × ℕ). r.2) e in
        ground (arith, set_rest-fill v t1 begin1 num old_num n1 small t' q rest)
    | inr e ↦
        let e0 = ap (λ (r : (ℕ → ℕ) × ℕ × ℕ). r.0 q) e in
        let e1 = ap (λ (r : (ℕ → ℕ) × ℕ × ℕ). r.1) e in
        let e2 = ap (λ (r : (ℕ → ℕ) × ℕ × ℕ). r.2) e in
        ground (arith, set_rest-fill v t1 begin1 num old_num n1 small t' q rest)
  ]

-- a successful run, for a 16-bit `num`
memset-fill :
    (v : Vas) (t : ℕ → ℕ) (begin num old_num n : ℕ) (t' : ℕ → ℕ) (q : ℕ)
    → num < 65536
    → memset_bigalloc v t begin num old_num n ≡ some t'
    → t' q ≡ fill t begin num n q
unfolding memset_bigalloc
memset-fill v t begin num old_num n t' q small h =
    let body = (require-eq_some (leb n (v.biggest_sane_user_alloc / page_size)) _ h).1 in
    let (r, first, rest) =
      >>=-eq_some (set_first v t begin num old_num n) (λ r. set_rest v r.0 r.1 num old_num r.2)
        body in
    resume_fill v t begin num old_num n small r.0 r.1 r.2 t' q
      (set_first-First v t begin num old_num n r first) rest

module _ (v : Vas) (t : ℕ → ℕ) (begin num old_num n : ℕ) where
  set_last-returns :
      ((n % 2 == 1) ≡ true → loc_ok old_num (t (begin + (n - 1))) ≡ true)
      → (t' : ℕ → ℕ) × (set_last v t begin num old_num n ≡ some t')
  unfolding set_last
  set_last-returns ok = elim (Bool-cases (n % 2 == 1)) [
    | inl odd ↦ (update t (begin + (n - 1)) num, ground (arith, ok odd))
    | inr even ↦ (t, ground arith)
  ]

module _ (v : Vas) (t : ℕ → ℕ) (begin num old_num n : ℕ) where
  set_rest-returns :
      num < 65536
      → AllOk t begin old_num n
      → begin + n ≤ user_pages v
      → (t' : ℕ → ℕ) × (set_rest v t begin num old_num n ≡ some t')
  unfolding set_rest
  set_rest-returns small ok fits =
      let good = check_range-true t old_num (user_pages v) begin n ok fits in
      let wide = wmemset t begin (num * 65536 + num) (n / 2) in
      let (t', last) = set_last-returns v wide begin num old_num n (λ odd.
        ground (arith, wmemset-fill t begin num (n / 2) (begin + (n - 1)), ok (begin + (n - 1)))) in
      (t', ground (arith, good, last))

-- the range is as the assertions expect it
memset-returns :
    (v : Vas) (t : ℕ → ℕ) (begin num old_num n : ℕ)
    → num < 65536
    → AllOk t begin old_num n
    → begin + n ≤ user_pages v
    → n ≤ v.biggest_sane_user_alloc / page_size
    → (t' : ℕ → ℕ) × (memset_bigalloc v t begin num old_num n ≡ some t')
unfolding memset_bigalloc set_first
memset-returns v t begin num old_num n small ok fits sane =
    elim (Bool-cases (ltb 0 n && not (begin % 2 == 0))) [
      | inl odd ↦
          let (t', rest) =
            set_rest-returns v (update t begin num) (begin + 1) num old_num (n - 1) small
              (λ p a b. ground (arith, ok p)) (ground arith) in
          (t', ground (arith, ok begin, rest))
      | inr even ↦
          let (t', rest) = set_rest-returns v t begin num old_num n small ok fits in
          (t', ground (arith, rest))
    ]

-- If every entry of the range is 0 or `old_num`, and the range lies in the index and is not insanely
-- large, then memset_bigalloc does not abort for a 16-bit `num`: it writes `num` in the n entries from
-- `begin` on, whatever the parity of `begin` and of n, and leaves every other entry as it was.
pub memset_bigalloc-fill :
    (v : Vas) (t : ℕ → ℕ) (begin num old_num n : ℕ)
    → num < 65536
    → AllOk t begin old_num n
    → begin + n ≤ user_pages v
    → n ≤ v.biggest_sane_user_alloc / page_size
    → (t' : ℕ → ℕ) × (memset_bigalloc v t begin num old_num n ≡ some t')
      × ((q : ℕ) → t' q ≡ fill t begin num n q)
memset_bigalloc-fill v t begin num old_num n small ok fits sane =
    let (t', ran) = memset-returns v t begin num old_num n small ok fits sane in
    (t', ran, λ q. memset-fill v t begin num old_num n t' q small ran)
