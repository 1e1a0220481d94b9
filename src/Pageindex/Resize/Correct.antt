-- ===== src/Pageindex/Resize/Correct.antt =====
-- What moving a bound of a big allocation does to the page index.
use liballocs.Common.{
  ℕ, ◌+◌, ◌*◌, ◌/◌, ◌≤◌, ◌<◌, ◌≡◌, refl, ap, ◌∙◌, subst, Bool, true, false, not, ◌&&◌, some, arith,
  ltb, leb, ◌==◌, if◌then◌else◌, update, has,
}
use liballocs.Pageindex.Vas.{Vas, page_size, page_dist}
use liballocs.Pageindex.State.{BigAlloc, State}
use liballocs.Pageindex.Memset.{}
use liballocs.Pageindex.Forest.{Forest, ids, size, IsForest, IsForest-frame}
use liballocs.Pageindex.Find.{}
use liballocs.Pageindex.Find.Laws.{is_one_or_more_levels_under-has}
use liballocs.Pageindex.Resize.{
  set_record, extend_bigalloc, pre_extend_bigalloc, taken_end, truncate_bigalloc_at_end,
  truncate_bigalloc_at_beginning,
}
use liballocs.Pageindex.Resize.Laws.{
  spans_page, Writable, memset_state-Wrote, floor_page, ceil_page,
}

-- `s'` is `s` with the record `r` for `b`, and with `num` in the index on the pages that satisfy `on`.
abbrev pub Resized : (s s' : State) (b : ℕ) → BigAlloc → (num : ℕ) → (ℕ → Bool) → Type 0
Resized s s' b r num on =
    (s'.big_allocations ≡ update s.big_allocations b r)
    × (s'.freed ≡ s.freed)
    × ((p : ℕ) → s'.pageindex p ≡ (if on p then num else s.pageindex p))

-- the pages that a record's begin, moved down from `begin` to `new`, takes over
taken_pages :
    (begin end new p : ℕ) (taken : Bool)
    → new < begin
    → begin ≤ end
    → (leb ((new + 4095) / 4096) p
        && ltb p (
            if ltb (begin / 4096) (end / 4096) && not taken
            then (begin + 4095) / 4096
            else begin / 4096))
      ≡ ((leb new (p * 4096) && leb (p * 4096 + 4096) end)
          && not (leb begin (p * 4096) && leb (p * 4096 + 4096) end)
          && not ((p == begin / 4096) && taken))
taken_pages begin end new p true less sane = ground arith
taken_pages begin end new p false less sane = ground arith

module _ (v : Vas) (s : State) (b new : ℕ) where
  -- Extending a record of number below 65536 whose last page boundary is not before its begin, over
  -- pages whose entries are 0 or its parent, succeeds: its end moves, and the index changes exactly on
  -- the pages that it newly spans completely, to its number.
  pub extend_bigalloc-Resized :
      let r = s.big_allocations b in
      b < 65536
      → r.begin ≤ r.end / 4096 * 4096
      → r.end ≤ new
      → Writable v s r.parent (r.end / 4096) (new / 4096)
      → (s' : State) × (extend_bigalloc v s b new ≡ some s')
        × Resized s s' b
            (record r { end = new })
            b
            (λ p. spans_page (record r { end = new }) p && not (spans_page r p))
  unfolding extend_bigalloc
  extend_bigalloc-Resized small start more w =
      let r = s.big_allocations b in
      let down = floor_page v r.end in
      let up = floor_page v new in
      let (s', ran, (bs, fs, ix)) =
        memset_state-Wrote v (set_record s b (record r { end = new })) b r.parent (r.end / 4096)
          (new / 4096) (v.pagenum (v.round_down r.end page_size))
          (if r.parent == 0 then 0 else r.parent)
          (page_dist v (v.round_down r.end page_size) (v.round_down new page_size)) small w down
          (ground arith) (ground arith) in
      (s', ran, (bs, fs, λ p. ground (arith, ix p)))

  -- Truncating a record at the end, to an end in whose page it does not begin, over pages whose
  -- entries are 0 or its number, succeeds, for a parent's number below 65536: its end moves, and the
  -- index changes exactly on the pages that it no longer spans completely, to its parent's number.
  truncate_bigalloc_at_end-Resized :
      let r = s.big_allocations b in
      r.parent < 65536
      → r.begin ≤ new / 4096 * 4096
      → new ≤ r.end
      → Writable v s b (new / 4096) (r.end / 4096)
      → (s' : State) × (truncate_bigalloc_at_end v s b new ≡ some s')
        × Resized s s' b
            (record r { end = new })
            r.parent
            (λ p. spans_page r p && not (spans_page (record r { end = new }) p))
  unfolding truncate_bigalloc_at_end
  truncate_bigalloc_at_end-Resized small start less w =
      let r = s.big_allocations b in
      let down = floor_page v new in
      let up = floor_page v r.end in
      let (s', ran, (bs, fs, ix)) =
        memset_state-Wrote v (set_record s b (record r { end = new })) r.parent b (new / 4096)
          (r.end / 4096) (v.pagenum (v.round_down new page_size)) b
          (page_dist v (v.round_down new page_size) (v.round_down r.end page_size)) small w down
          refl (ground arith) in
      (s', ran, (bs, fs, λ p. ground (arith, ix p)))

  -- Truncating a record at the beginning, to a begin whose next page boundary is not past its end,
  -- over pages whose entries are 0 or its number, succeeds, for a parent's number below 65536: its
  -- begin moves, and the index changes exactly on the pages that it no longer spans completely, to its
  -- parent's number.
  truncate_bigalloc_at_beginning-Resized :
      let r = s.big_allocations b in
      r.parent < 65536
      → r.begin ≤ new
      → (new + 4095) / 4096 * 4096 ≤ r.end
      → Writable v s b ((r.begin + 4095) / 4096) ((new + 4095) / 4096)
      → (s' : State) × (truncate_bigalloc_at_beginning v s b new ≡ some s')
        × Resized s s' b
            (record r { begin = new })
            r.parent
            (λ p. spans_page r p && not (spans_page (record r { begin = new }) p))
  unfolding truncate_bigalloc_at_beginning
  truncate_bigalloc_at_beginning-Resized small less fits w =
      let r = s.big_allocations b in
      let down = ceil_page v r.begin in
      let up = ceil_page v new in
      let (s', ran, (bs, fs, ix)) =
        memset_state-Wrote v (set_record s b (record r { begin = new })) r.parent b
          ((r.begin + 4095) / 4096) ((new + 4095) / 4096) (v.pagenum (v.round_up r.begin page_size))
          b (page_dist v (v.round_up r.begin page_size) (v.round_up new page_size)) small w down
          refl (ground arith) in
      (s', ran, (bs, fs, λ p. ground (arith, ix p)))

  -- Whether the entry of the page in which a record begins names a proper descendant of `b`, `f` being
  -- the tree of its descendants.
  abbrev pub taken_below : Forest → Bool
  taken_below f =
      let n = s.pageindex ((s.big_allocations b).begin / 4096) in not (n == b) && has n (ids f)

  -- Moving the begin of a record, of number below 65536, down over pages whose entries are 0 or its
  -- parent succeeds, with fuel beyond the number of its descendants: its begin moves, and the index
  -- changes to its number exactly on the pages that it newly spans completely, less the page of its
  -- old begin when a descendant has that one.
  pub pre_extend_bigalloc-Resized :
      let r = s.big_allocations b in
      (fuel : ℕ) (f : Forest)
      → b < 65536
      → IsForest s.big_allocations b 0 r.first_child f
      → size f < fuel
      → new < r.begin
      → r.begin ≤ r.end
      → Writable v s r.parent ((new + 4095) / 4096) (
          if ltb (r.begin / 4096) (r.end / 4096) && not (taken_below f)
          then (r.begin + 4095) / 4096
          else r.begin / 4096)
      → (s' : State) × (pre_extend_bigalloc v fuel s b new ≡ some s')
        × Resized s s' b
            (record r { begin = new })
            b
            (λ p.
              spans_page (record r { begin = new }) p
              && not (spans_page r p)
              && not ((p == r.begin / 4096) && taken_below f))
  unfolding pre_extend_bigalloc
  pre_extend_bigalloc-Resized fuel f small links enough less sane w =
      let r = s.big_allocations b in
      let s1 = set_record s b (record r { begin = new }) in
      let n = s.pageindex (v.pagenum r.begin) in
      let links' =
        IsForest-frame s.big_allocations s1.big_allocations b 0 r.first_child f links
          (λ x m. ground arith) in
      let head = subst (λ h. IsForest s1.big_allocations b 0 h f) (ground arith) links' in
      let under = is_one_or_more_levels_under-has s1.big_allocations fuel n b f head enough in
      let first = ceil_page v new in
      let e0 = v.pagenum_lem r.begin in
      let e1 = v.pagenum_lem r.end in
      let e2 = floor_page v r.begin in
      let e3 = ceil_page v r.begin in
      let (s', ran, (bs, fs, ix)) =
        memset_state-Wrote v s1 b r.parent ((new + 4095) / 4096)
          (if ltb (r.begin / 4096) (r.end / 4096) && not (taken_below f)
            then (r.begin + 4095) / 4096
            else r.begin / 4096)
          (v.pagenum (v.round_up new page_size)) r.parent
          (page_dist v (v.round_up new page_size) (taken_end v r (not (n == b) && has n (ids f))))
          small w first refl (ground arith) in
      (
        s',
        ground (arith, under, ran),
        (
          bs,
          fs,
          λ p.
              ix p
              ∙ ap (λ t. if t then b else s.pageindex p)
                  (taken_pages r.begin r.end new p (taken_below f) less sane),
        ),
      )
