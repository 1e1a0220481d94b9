-- ===== src/Pageindex/Vas.antt =====
-- The address arithmetic of the page index. PAGENUM, ROUND_UP, ROUND_DOWN, MAXIMUM_USER_ADDRESS and
-- BIGGEST_SANE_USER_ALLOC come from vas.h, which is not part of the repository: they are parameters,
-- with what their names say for pages of PAGE_SIZE bytes (src/liballocs_private.h). The index of a
-- page is its address shifted right by LOG_PAGE_SIZE, as src/allocators/mmap.c:818 and
-- src/pageindex.c:1154 spell it out.
use liballocs.Common.{ℕ, ◌+◌, ◌-◌, ◌*◌, ◌/◌, ◌≡◌, Bool, ltb, if◌then◌else◌, refl}

abbrev pub page_size : ℕ
page_size = 4096

pub record Vas : Type 0 where
  pub pagenum : ℕ → ℕ
  pub round_up : ℕ → ℕ → ℕ
  pub round_down : ℕ → ℕ → ℕ
  pub maximum_user_address : ℕ
  pub biggest_sane_user_alloc : ℕ
  -- whether assertions are compiled in, that is, NDEBUG is not defined
  pub debug : Bool
  pub pagenum_lem : (a : ℕ) → pagenum a ≡ a / 4096
  pub round_up_lem : (a : ℕ) → round_up a 4096 ≡ (a + 4095) / 4096 * 4096
  pub round_down_lem : (a : ℕ) → round_down a 4096 ≡ a / 4096 * 4096

module _ (v : Vas) where
  -- PAGE_DIST
  abbrev pub page_dist : ℕ → ℕ → ℕ
  page_dist first second =
      if ltb (v.pagenum first) (v.pagenum second) then v.pagenum second - v.pagenum first else 0

  -- the number of entries of the page index
  abbrev pub user_pages : ℕ
  user_pages = v.pagenum (v.maximum_user_address + 1)

-- A value that meets the assumptions: x86-64 with 47-bit user addresses, and assertions on.
abbrev pub x86_64 : Vas
x86_64 = record {
  pagenum = λ a. a / 4096;
  round_up = λ a n. (a + (n - 1)) / n * n;
  round_down = λ a n. a / n * n;
  maximum_user_address = 0x7fff_ffff_ffff;
  biggest_sane_user_alloc = 0x1_0000_0000;
  debug = Bool.true;
  pagenum_lem = λ a. refl;
  round_up_lem = λ a. refl;
  round_down_lem = λ a. refl;
}
