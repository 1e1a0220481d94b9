-- ===== src/Allocsites.antt =====
-- The identifiers of allocation sites: src/allocsites.c, less the definitions of variables, and
-- include/allocsites.h. A pointer to an allocsite_entry counts in entries, and `vaddr` reads its
-- allocsite_vaddr; a pointer to a file's metadata is a number that `files` reads. The symbol lookup is a
-- parameter: what it found. So is bsearch_leq_generic, of another project. `none` is an abort, a failed
-- assertion or an access through null. An allocsite_id_t has 16 bits.
pub mod Contiguous
pub mod RoundTrip
mod Tests
use liballocs.Common.{
  ℕ, suc, ◌+◌, ◌-◌, ◌%◌, ◌≤◌, ◌<◌, Bool, true, false, not, ◌||◌, Option, none, some, leb, ltb, ◌==◌,
  if◌then◌else◌, update, require, ◌>>=◌, ◌>>◌,
}
use liballocs.Pageindex.Vas.{Vas}
use liballocs.Pageindex.State.{State}
use liballocs.Pageindex.Lookup.{lookup_bigalloc_from_root}

-- struct allocsites_vectors_by_base_id_entry
pub record VectorEntry : Type 0 where
  pub start_id : ℕ
  pub count : ℕ
  pub file_base_addr : ℕ
  pub ptr : ℕ

-- the spine: allocsites_vectors_by_base_id, of allocsites_index_size entries, and allocsites_id_entry_slot_next_free
pub record Spine : Type 0 where
  pub vectors : ℕ → VectorEntry
  pub next_free : ℕ

-- ALLOCSITES_INDEX_SIZE
abbrev pub allocsites_index_size : ℕ
allocsites_index_size = 256

-- what is read of struct allocs_file_metadata: its handle, its load address, and its slot of the spine
pub record AllocsFile : Type 0 where
  pub meta_obj_handle : ℕ
  pub l_addr : ℕ
  pub allocsites_info : Option ℕ

-- the start_id of a new slot
unfoldable pub next_start_id : Spine → (slot_pos : ℕ) → Option ℕ
next_start_id sp slot_pos = elim (slot_pos == 0) [
  | true ↦ some 0
  | false ↦ do
    let prev = sp.vectors (slot_pos - 1)
    let start_id = (prev.start_id + prev.count) % 65536
    require (not (ltb start_id prev.start_id))
    some start_id
]

-- what init_allocsites_info does: an abort, a store outside the table, or its return
pub data InitOutcome : Type 0 where
  aborted : InitOutcome
  out_of_bounds : InitOutcome
  returned : Spine → AllocsFile → InitOutcome

-- the stores of init_allocsites_info to the slot, for a table of allocsites_index_size entries
abbrev pub fill_slot :
    (first_entry entries start_id slot_pos : ℕ) → Spine → AllocsFile → InitOutcome
fill_slot first_entry entries start_id slot_pos sp file =
    if leb allocsites_index_size slot_pos
    then out_of_bounds
    else returned
        (record {
          vectors = update sp.vectors slot_pos (record {
            start_id = start_id;
            count = entries % 65536;
            file_base_addr = file.l_addr;
            ptr = first_entry;
          });
          next_free = (slot_pos + 1) % 65536;
        })
        (record file { allocsites_info = some slot_pos })

-- init_allocsites_info; `found` is the symbol's address and its size in entries
unfoldable pub init_allocsites_info : (found : Option (ℕ × ℕ)) → Spine → AllocsFile → InitOutcome
unfolding next_start_id
init_allocsites_info none sp file = returned sp file
init_allocsites_info (some (first_entry, entries)) sp file =
    let slot_pos = sp.next_free in
    if file.meta_obj_handle == 0
    then returned sp file
    else if ltb allocsites_index_size slot_pos
    then aborted
    else elim (next_start_id sp slot_pos) [
      | none ↦ aborted
      | some start_id ↦ fill_slot first_entry entries start_id slot_pos sp file
    ]

-- The parameters: the page index and the static file allocator, the files, the entries, and the search
-- for the last of `n` elements whose projection is up to a target.
module _ (v : Vas) (fuel : ℕ) (pages : State) (static_file_allocator : ℕ) (files : ℕ → AllocsFile)
    (vaddr : ℕ → ℕ) (bsearch_leq : (proj : ℕ → ℕ) → (target n : ℕ) → Option ℕ) (sp : Spine) where
  -- get_file
  unfoldable pub get_file : (allocsite : ℕ) → Option ℕ
  unfolding lookup_bigalloc_from_root
  get_file allocsite = do
    file_bigalloc ← lookup_bigalloc_from_root v fuel pages allocsite static_file_allocator
    some (if file_bigalloc == 0 then 0 else (pages.big_allocations file_bigalloc).allocator_private)

  -- the search in the vector of one file
  abbrev pub find_in_vector : VectorEntry → (allocsite_vaddr : ℕ) → ℕ
  find_in_vector e allocsite_vaddr =
      elim (bsearch_leq (λ i. vaddr (e.ptr + i)) allocsite_vaddr e.count) [
        | none ↦ 0
        | some i ↦ e.ptr + i
      ]

  -- __liballocs_find_allocsite_entry_at
  unfoldable pub find_allocsite_entry_at : (allocsite : ℕ) → Option ℕ
  unfolding get_file
  find_allocsite_entry_at allocsite = do
    file ← get_file allocsite
    elim (file == 0) [
      | true ↦ some 0
      | false ↦
          let f = files file in
          let allocsite_vaddr =
            (allocsite + 0x1_0000_0000_0000_0000 - f.l_addr) % 0x1_0000_0000_0000_0000 in
          elim f.allocsites_info [
            | none ↦ some 0
            | some slot ↦ some (find_in_vector (sp.vectors slot) allocsite_vaddr)
          ]
    ]

  -- the identifier of an entry of a file
  abbrev pub id_of_entry : AllocsFile → (found_entry : ℕ) → Option ℕ
  id_of_entry f found_entry = elim f.allocsites_info [
    | none ↦ none
    | some slot ↦ let e = sp.vectors slot in some ((e.start_id + (found_entry - e.ptr)) % 65536)
  ]

  -- __liballocs_allocsite_id
  unfoldable pub allocsite_id : (allocsite : ℕ) → Option ℕ
  unfolding get_file find_allocsite_entry_at
  allocsite_id allocsite = do
    file ← get_file allocsite
    elim (file == 0) [
      | true ↦ some 0
      | false ↦ do
        found_entry ← find_allocsite_entry_at allocsite
        (if found_entry == 0 then some 65535 else id_of_entry (files file) found_entry)
    ]

  -- __liballocs_allocsite_entry_by_id: the entry, and the base address of its file
  unfoldable pub allocsite_entry_by_id : (id : ℕ) → Option (ℕ × ℕ)
  allocsite_entry_by_id id = elim (bsearch_leq (λ i. (sp.vectors i).start_id) id sp.next_free) [
    | none ↦ some (0, 0)
    | some i ↦ do
      let e = sp.vectors i
      require (not v.debug || leb e.start_id id)
      some (e.ptr + (id - e.start_id), e.file_base_addr)
  ]

  -- __liballocs_allocsite_by_id
  unfoldable pub allocsite_by_id : (id : ℕ) → Option ℕ
  unfolding allocsite_entry_by_id
  allocsite_by_id id = do
    (entry, file_base_addr) ← allocsite_entry_by_id id
    some (if entry == 0 then 0 else (file_base_addr + vaddr entry) % 0x1_0000_0000_0000_0000)
