-- ===== src/Pageindex/Split.antt =====
-- __liballocs_split_bigalloc_at_page_boundary of src/pageindex.c: the record keeps the part below
-- `split_addr`, and a new one gets the rest, with the children that lie in it. `none` is an abort, a
-- failed assertion or fuel run out; SANITY_CHECK_BIGALLOC is left out, so link_child is for add_child.
use liballocs.Common.{
  ℕ, zero, suc, ◌+◌, ◌-◌, Bool, true, false, not, ◌&&◌, Option, none, some, leb, ◌==◌,
  if◌then◌else◌, update, require, ◌>>=◌, ◌>>◌,
}
use liballocs.Pageindex.Vas.{Vas, page_size}
use liballocs.Pageindex.State.{BigAlloc, State}
use liballocs.Pageindex.Link.{link_child, unlink_child}
use liballocs.Pageindex.Resize.{set_record}
use liballocs.Pageindex.Create.{Info, find_free_bigalloc, bigalloc_init_nomemset}

-- what the new record takes over from the old one
abbrev pub info_of : BigAlloc → Info
info_of r = record {
  allocator_private = r.allocator_private;
  allocator_private_free = r.allocator_private_free;
  allocated_by = r.allocated_by;
  suballocator = r.suballocator;
  suballocator_private = r.suballocator_private;
  suballocator_private_free = r.suballocator_private_free;
}

-- within_first_half and within_second_half
abbrev pub within : BigAlloc → (begin end : ℕ) → Bool
within child begin end = leb begin child.begin && leb child.end end

-- the body of the loop over the children
unfoldable pub move_child :
    (debug : Bool) → (ℕ → BigAlloc) → (b new_bigalloc split_addr child : ℕ) → Option (ℕ → BigAlloc)
unfolding link_child unlink_child
move_child debug bs b new_bigalloc split_addr child = do
  let within_first_half = within (bs child) (bs b).begin split_addr
  let within_second_half = within (bs child) split_addr (bs b).end
  require (not (within_first_half && within_second_half))
  elim within_second_half [
    | true ↦ do bs1 ← unlink_child debug bs child; link_child debug bs1 child new_bigalloc
    | false ↦ some bs
  ]

-- the loop over the children, from `child` on
unfoldable pub move_children :
    (debug : Bool) (b new_bigalloc split_addr : ℕ)
    → ℕ
    → (ℕ → BigAlloc)
    → (child : ℕ) → Option (ℕ → BigAlloc)
unfolding move_child
move_children debug b new_bigalloc split_addr zero bs child = none
move_children debug b new_bigalloc split_addr (suc k) bs child = elim (child == 0) [
  | true ↦ some bs
  | false ↦ do
    let next_in_original_list = (bs child).next_sib
    bs1 ← move_child debug bs b new_bigalloc split_addr child
    move_children debug b new_bigalloc split_addr k bs1 next_in_original_list
]

-- the loop over `n` entries of the index from `pos` on, which puts `num` for `old`
unfoldable pub renumber : (old num : ℕ) → ℕ → (ℕ → ℕ) → (pos : ℕ) → ℕ → ℕ
renumber old num zero t pos = t
renumber old num (suc n) t pos =
    renumber old num n (if t pos == old then update t pos num else t) (pos + 1)

-- __liballocs_split_bigalloc_at_page_boundary: the state and the new record
unfoldable pub split_bigalloc_at_page_boundary :
    Vas → (start fuel : ℕ) → State → (b split_addr : ℕ) → Option (State × ℕ)
unfolding find_free_bigalloc bigalloc_init_nomemset move_children renumber
split_bigalloc_at_page_boundary v start fuel s b split_addr = do
  let tmp = s.big_allocations b
  new_bigalloc ← find_free_bigalloc s.big_allocations
  s1 ←
      bigalloc_init_nomemset v start fuel s new_bigalloc split_addr (tmp.end - split_addr)
        tmp.parent (info_of tmp)
  bs ←
      move_children v.debug b new_bigalloc split_addr fuel s1.big_allocations
        (s1.big_allocations b).first_child
  let s2 = set_record (record s1 { big_allocations = bs }) b (record (bs b) { end = split_addr })
  let r = s2.big_allocations new_bigalloc
  let first = v.pagenum (v.round_up r.begin page_size)
  let last = v.pagenum (v.round_up r.end page_size)
  some (
    record s2 { pageindex = renumber b new_bigalloc (last - first) s2.pageindex first },
    new_bigalloc,
  )
