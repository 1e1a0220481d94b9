-- ===== src/Addrlist.antt =====
-- The growing list of addresses of src/addrlist.c (struct addrlist of src/liballocs_private.h). The
-- function __private_realloc belongs to an allocator of another project: `realloc` stands for what it
-- makes of the array, given the old and the new number of elements, and is assumed to succeed.
mod Tests
use liballocs.Common.{
  ℕ, zero, suc, ◌+◌, ◌*◌, ◌%◌, ◌≤◌, ◌<◌, ◌≡◌, ◌≢◌, refl, ap, ◌∙◌, Bool, true, false, arith, ltb,
  ◌==◌, if◌then◌else◌, update, Bool-cases, inl, inr,
}

-- struct addrlist
pub record Addrlist : Type 0 where
  pub count : ℕ
  pub allocsz : ℕ
  pub addrs : ℕ → ℕ

-- the loop of __liballocs_addrlist_contains, from index i on
unfoldable pub contains_from : (addrs : ℕ → ℕ) (addr : ℕ) → ℕ → ℕ → ℕ
contains_from addrs addr zero i = 0
contains_from addrs addr (suc left) i =
    let rest = contains_from addrs addr left (i + 1) in if addrs i == addr then 1 + i else rest

-- __liballocs_addrlist_contains
unfoldable pub contains : Addrlist → ℕ → ℕ
unfolding contains_from
contains l addr = contains_from l.addrs addr l.count 0

-- `++allocsz; allocsz *= 2` on an unsigned int
abbrev pub grown : ℕ → ℕ
grown n = (n + 1) % 4294967296 * 2 % 4294967296

module _ (realloc : (ℕ → ℕ) → (old new : ℕ) → ℕ → ℕ) where
  -- __liballocs_addrlist_add
  unfoldable pub addrlist_add : Addrlist → ℕ → Addrlist
  addrlist_add l addr =
      let full = l.count == l.allocsz in
      let addrs = if full then realloc l.addrs l.allocsz (grown l.allocsz) else l.addrs in
      record {
        count = (l.count + 1) % 4294967296;
        allocsz = if full then grown l.allocsz else l.allocsz;
        addrs = update addrs l.count addr;
      }

contains_from-cong :
    (t t' : ℕ → ℕ) (addr left i : ℕ)
    → ((j : ℕ) → i ≤ j → j < i + left → t' j ≡ t j)
    → contains_from t' addr left i ≡ contains_from t addr left i
unfolding contains_from
contains_from-cong t t' addr zero i same = refl
contains_from-cong t t' addr (suc left) i same = ground (
  arith,
  same i,
  contains_from-cong t t' addr left (i + 1) (λ j a b. same j (omega arith) (omega arith)),
)

-- the search of one more element
contains_from-suc :
    (t : ℕ → ℕ) (addr left i : ℕ)
    → contains_from t addr (suc left) i ≡ (
        if contains_from t addr left i == 0
        then (if t (i + left) == addr then 1 + (i + left) else 0)
        else contains_from t addr left i)
unfolding contains_from
contains_from-suc t addr zero i = let e : t (i + 0) ≡ t i = ap t (omega arith) in ground arith
contains_from-suc t addr (suc left) i =
    let e : t (i + suc left) ≡ t (i + 1 + left) = ap t (omega arith) in
    let later = contains_from-suc t addr left (i + 1) in ground arith

choose-eq :
    (c' c x addr a n : ℕ)
    → c' ≡ c
    → x ≡ addr
    → (if c' == 0 then (if x == a then 1 + (0 + n) else 0) else c')
      ≡ (if c == 0 then (if addr == a then n + 1 else 0) else c)
choose-eq c' c x addr a n e f = ground arith

-- A list that has at most as many elements as there is room for, and room for fewer than 2 ^ 31 - 1,
-- stays within its room when an address is added, if realloc keeps the elements. Afterwards an
-- address is found at the index where it was found before; the new one, if it was not there, is found
-- at the end; others are still not found.
pub addrlist_add-contains :
    (realloc : (ℕ → ℕ) → (old new : ℕ) → ℕ → ℕ)
    → ((t : ℕ → ℕ) (old new j : ℕ) → j < old → j < new → realloc t old new j ≡ t j)
    → (l : Addrlist) (addr a : ℕ) → l.count ≤ l.allocsz
    → l.allocsz < 2147483647
    → let l' = addrlist_add realloc l addr in
      (l'.count ≤ l'.allocsz)
      × (contains l' a
          ≡ (if contains l a == 0 then (if addr == a then l.count + 1 else 0) else contains l a))
unfolding addrlist_add contains
addrlist_add-contains realloc keeps l addr a fits room =
    let l' = addrlist_add realloc l addr in
    let kept =
      contains_from-cong l.addrs l'.addrs a l.count 0
        (λ j lo hi. ground (arith, keeps l.addrs l.allocsz (grown l.allocsz) j)) in
    let more = contains_from-suc l'.addrs a l.count 0 in
    let last : l'.addrs l.count ≡ addr = ground arith in
    let count : l'.count ≡ suc l.count = omega arith in
    let all = ap (λ n. contains_from l'.addrs a n 0) count in
    (
      ground arith,
      all
          ∙ more
          ∙ choose-eq (contains_from l'.addrs a l.count 0) (contains_from l.addrs a l.count 0)
              (l'.addrs (0 + l.count)) addr a l.count kept (ap l'.addrs (omega arith) ∙ last),
    )
