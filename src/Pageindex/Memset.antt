-- ===== src/Pageindex/Memset.antt =====
-- memset_bigalloc of src/pageindex.c: writes a bigalloc number over a range of the page index, two
-- 16-bit entries at a time. Entry p stands at byte 2 * p of a table aligned to its pages, so it is
-- aligned for a wchar_t of four bytes when p is even.
pub mod Laws
use liballocs.Common.{
  ℕ, zero, suc, ◌+◌, ◌-◌, ◌*◌, ◌/◌, ◌%◌, Bool, true, false, not, ◌&&◌, ◌||◌, Option, none, some,
  ltb, leb, ◌==◌, if◌then◌else◌, update, require, ◌>>=◌, ◌>>◌,
}
use liballocs.Pageindex.Vas.{Vas, page_size, user_pages}

-- (bigalloc_num_t) -1, which asks for no check
abbrev pub any_num : ℕ
any_num = 65535

-- what CHECK_LOC accepts in an entry
abbrev pub loc_ok : (old_num loc : ℕ) → Bool
loc_ok old_num loc = (old_num == any_num) || (loc == 0) || (loc == old_num)

-- a store of a wide character over entries p and p + 1, low half first
abbrev pub store_wchar : (ℕ → ℕ) → ℕ → ℕ → ℕ → ℕ
store_wchar t p w = update (update t p (w % 65536)) (p + 1) (w / 65536 % 65536)

-- the C library's wmemset, of k wide characters from entry p on
unfoldable pub wmemset : (ℕ → ℕ) → ℕ → ℕ → ℕ → ℕ → ℕ
wmemset t p w zero = t
wmemset t p w (suc k) = wmemset (store_wchar t p w) (p + 2) w k

-- The check of the range: the loop stops at the end of the index, and must not have stopped early.
unfoldable pub check_range : (t : ℕ → ℕ) (old_num limit p : ℕ) → ℕ → Bool
check_range t old_num limit p zero = true
check_range t old_num limit p (suc n) =
    let rest = check_range t old_num limit (p + 1) n in ltb p limit && loc_ok old_num (t p) && rest

module _ (v : Vas) where
  -- the entries up to an aligned one
  unfoldable pub set_first : (ℕ → ℕ) → (begin num old_num n : ℕ) → Option ((ℕ → ℕ) × ℕ × ℕ)
  set_first t begin num old_num n =
      if ltb 0 n && not (begin % 2 == 0)
      then (do
        require (not v.debug || loc_ok old_num (t begin))
        some (update t begin num, begin + 1, n - 1))
      else some (t, begin, n)

  -- the one that an odd length leaves over
  unfoldable pub set_last : (ℕ → ℕ) → (begin num old_num n : ℕ) → Option (ℕ → ℕ)
  set_last t begin num old_num n =
      if n % 2 == 1
      then (do
        require (not v.debug || loc_ok old_num (t (begin + (n - 1))))
        some (update t (begin + (n - 1)) num))
      else some t

  -- the check and the stores from an aligned entry on
  unfoldable pub set_rest : (ℕ → ℕ) → (begin num old_num n : ℕ) → Option (ℕ → ℕ)
  unfolding wmemset check_range set_last
  set_rest t begin num old_num n = do
    require (
        not v.debug
        || (old_num == any_num)
        || (old_num == 0)
        || check_range t old_num (user_pages v) begin n)
    let wchar_val = num * 65536 + num
    set_last (wmemset t begin wchar_val (n / 2)) begin num old_num n

  -- memset_bigalloc, on the index `t`
  unfoldable pub memset_bigalloc : (ℕ → ℕ) → (begin num old_num n : ℕ) → Option (ℕ → ℕ)
  unfolding set_first set_rest
  memset_bigalloc t begin num old_num n = do
    require (leb n (v.biggest_sane_user_alloc / page_size))
    (t', begin', n') ← set_first t begin num old_num n
    set_rest t' begin' num old_num n'
