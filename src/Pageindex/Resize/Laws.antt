-- ===== src/Pageindex/Resize/Laws.antt =====
-- Writing the page index over the pages between two addresses.
use liballocs.Common.{
  ℕ, ◌+◌, ◌-◌, ◌*◌, ◌/◌, ◌≤◌, ◌<◌, ◌≡◌, refl, Bool, true, ◌&&◌, some, arith, ltb, leb,
  if◌then◌else◌,
}
use liballocs.Pageindex.Vas.{Vas, page_size, user_pages}
use liballocs.Pageindex.State.{BigAlloc, State}
use liballocs.Pageindex.Memset.{loc_ok}
use liballocs.Pageindex.Memset.Laws.{memset_bigalloc-fill}
use liballocs.Pageindex.Resize.{memset_state}

-- the record spans page `p` completely
abbrev pub spans_page : BigAlloc → ℕ → Bool
spans_page r p = leb r.begin (p * 4096) && leb (p * 4096 + 4096) r.end

module _ (v : Vas) where
  -- what memset_bigalloc asks of the pages from `lo` to `hi`: entries 0 or `old_num`, in the index
  abbrev pub Writable : State → (old_num lo hi : ℕ) → Type 0
  Writable s old_num lo hi =
      ((p : ℕ) → lo ≤ p → p < hi → loc_ok old_num (s.pageindex p) ≡ true)
      × (hi ≤ user_pages v)
      × (hi ≤ lo + v.biggest_sane_user_alloc / page_size)
      × (lo ≤ user_pages v)

  -- the state with `num` written on the pages from `lo` to `hi`
  abbrev pub Wrote : (s s' : State) (num lo hi : ℕ) → Type 0
  Wrote s s' num lo hi =
      (s'.big_allocations ≡ s.big_allocations)
      × (s'.freed ≡ s.freed)
      × ((p : ℕ) → s'.pageindex p ≡ (if leb lo p && ltb p hi then num else s.pageindex p))

  -- the page numbers at which the operations start and stop
  pub floor_page : (a : ℕ) → v.pagenum (v.round_down a page_size) ≡ a / 4096
  floor_page a = ground (arith, v.round_down_lem a, v.pagenum_lem (v.round_down a 4096))

  pub ceil_page : (a : ℕ) → v.pagenum (v.round_up a page_size) ≡ (a + 4095) / 4096
  ceil_page a = ground (arith, v.round_up_lem a, v.pagenum_lem (v.round_up a 4096))

  pub memset_state-Wrote :
      (s : State) (num old_num lo hi begin old n : ℕ)
      → num < 65536
      → Writable s old_num lo hi
      → begin ≡ lo
      → old ≡ old_num
      → n ≡ hi - lo
      → (s' : State) × (memset_state v s begin num old n ≡ some s') × Wrote s s' num lo hi
  memset_state-Wrote s num old_num lo hi begin old n small w e o m =
      let (t, ran, filled) =
        memset_bigalloc-fill v s.pageindex begin num old n small (λ p a b. ground (arith, w.0 p))
          (omega arith) (omega arith) in
      (record s { pageindex = t }, ground (arith, ran), (refl, refl, λ p. ground (arith, filled p)))
