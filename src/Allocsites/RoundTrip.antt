-- ===== src/Allocsites/RoundTrip.antt =====
-- An allocation site's identifier leads back to the site.
use liballocs.Common.{
  ℕ, ◌+◌, ◌-◌, ◌%◌, ◌≤◌, ◌<◌, ◌≡◌, ◌≢◌, inl, inr, refl, Option, none, some, arith, ◌==◌, >>=-some,
  Bool-cases,
}
use liballocs.Pageindex.Vas.{Vas}
use liballocs.Pageindex.State.{State}
use liballocs.Allocsites.{
  Spine, AllocsFile, get_file, find_in_vector, find_allocsite_entry_at, allocsite_id,
  allocsite_entry_by_id, allocsite_by_id,
}
use liballocs.Allocsites.Contiguous.{IsContiguous, starts_ascend, starts_past}

-- what bsearch_leq_generic says of `n` elements whose projections ascend: nothing only if all are
-- beyond the target, else an element with the greatest projection up to the target
abbrev pub LastUpTo : (proj : ℕ → ℕ) (target n : ℕ) → Option ℕ → Type 0
LastUpTo proj target n none = (j : ℕ) → j < n → target < proj j
LastUpTo proj target n (some i) =
    (i < n) × (proj i ≤ target) × ((j : ℕ) → j < n → proj j ≤ target → proj j ≤ proj i)

abbrev pub BsearchLeq : ((proj : ℕ → ℕ) → (target n : ℕ) → Option ℕ) → Type 0
BsearchLeq bsearch_leq =
    (proj : ℕ → ℕ) (target n : ℕ)
    → ((i j : ℕ) → i ≤ j → j < n → proj i ≤ proj j)
    → LastUpTo proj target n (bsearch_leq proj target n)

-- with projections that ascend strictly, the search finds the element at the target
LastUpTo-exact :
    (proj : ℕ → ℕ) (n k : ℕ) (r : Option ℕ)
    → ((i j : ℕ) → i < j → j < n → proj i < proj j)
    → k < n
    → LastUpTo proj (proj k) n r
    → r ≡ some k
LastUpTo-exact proj n k none up less h = ground (arith, h k)
LastUpTo-exact proj n k (some i) up less h = ground (arith, h.2 k, up i k, up k i)

-- where the slots follow on each other and none is empty, the search finds the slot of an identifier
LastUpTo-slot :
    (sp : Spine) (slot id : ℕ) (r : Option ℕ)
    → IsContiguous sp
    → slot < sp.next_free
    → (sp.vectors slot).start_id ≤ id
    → id < (sp.vectors slot).start_id + (sp.vectors slot).count
    → ((i : ℕ) → i < sp.next_free → 0 < (sp.vectors i).count)
    → LastUpTo (λ i. (sp.vectors i).start_id) id sp.next_free r
    → r ≡ some slot
LastUpTo-slot sp slot id none contiguous less lo hi full h = ground (arith, h slot)
LastUpTo-slot sp slot id (some i) contiguous less lo hi full h =
    ground
      (arith, h.2 slot, starts_past sp contiguous i slot, starts_past sp contiguous slot i, full i)

-- A file in the slot `slot` of the spine: its sites' addresses ascend.
pub record IsLoaded (vaddr : ℕ → ℕ) (sp : Spine) (f : AllocsFile) (slot : ℕ) : Type 0 where
  pub in_use : slot < sp.next_free
  pub info : f.allocsites_info ≡ some slot
  pub base : (sp.vectors slot).file_base_addr ≡ f.l_addr
  pub has_entries : (sp.vectors slot).ptr ≢ 0
  pub sorted :
      (i j : ℕ)
      → i < j
      → j < (sp.vectors slot).count
      → vaddr ((sp.vectors slot).ptr + i) < vaddr ((sp.vectors slot).ptr + j)

module _ (v : Vas) (fuel : ℕ) (pages : State) (static_file_allocator : ℕ) (files : ℕ → AllocsFile)
    (vaddr : ℕ → ℕ) (bsearch_leq : (proj : ℕ → ℕ) → (target n : ℕ) → Option ℕ) (sp : Spine)
    (law : BsearchLeq bsearch_leq) (file slot k : ℕ) (loaded : IsLoaded vaddr sp (files file) slot)
    (less : k < (sp.vectors slot).count) where
  abbrev entry : ℕ
  entry = (sp.vectors slot).ptr + k

  found_in_vector :
      find_in_vector v fuel pages static_file_allocator files vaddr bsearch_leq sp
        (sp.vectors slot)
        (vaddr entry)
      ≡ entry
  found_in_vector =
      let e = sp.vectors slot in
      let proj = λ (i : ℕ). vaddr (e.ptr + i) in
      let ascend = weak proj e.count loaded.sorted in
      let found =
        LastUpTo-exact proj e.count k (bsearch_leq proj (proj k) e.count) loaded.sorted less
          (law proj (proj k) e.count ascend) in
      rw (found, find_in_vector) refl
    where
      weak :
          (proj : ℕ → ℕ) (n : ℕ)
          → ((i j : ℕ) → i < j → j < n → proj i < proj j)
          → (i j : ℕ) → i ≤ j
          → j < n
          → proj i ≤ proj j
      weak proj n up i j le less' = elim (Bool-cases (i == j)) [
        | inl same ↦ ground arith
        | inr ne ↦ ground (arith, up i j)
      ]

  module _ (allocsite : ℕ) (known : file ≢ 0)
      (owner : get_file v fuel pages static_file_allocator files vaddr bsearch_leq sp allocsite
        ≡ some file)
      (place : allocsite ≡ (files file).l_addr + vaddr entry)
      (address : allocsite < 0x1_0000_0000_0000_0000) where
    found_at :
        find_allocsite_entry_at v fuel pages static_file_allocator files vaddr bsearch_leq sp
          allocsite
        ≡ some entry
    unfolding find_allocsite_entry_at
    found_at =
        let offset : (allocsite + 0x1_0000_0000_0000_0000 - (files file).l_addr)
              % 0x1_0000_0000_0000_0000
            ≡ vaddr entry =
          omega arith in
        >>=-some _ owner (ground (arith, loaded.info, offset, found_in_vector))

    id_at :
        (sp.vectors slot).start_id + k < 65536
        → allocsite_id v fuel pages static_file_allocator files vaddr bsearch_leq sp allocsite
          ≡ some ((sp.vectors slot).start_id + k)
    unfolding allocsite_id
    id_at small = >>=-some _ owner (ground (arith, found_at, loaded.info, loaded.has_entries))

  slot_of_id :
      IsContiguous sp
      → ((i : ℕ) → i < sp.next_free → 0 < (sp.vectors i).count)
      → allocsite_entry_by_id v fuel pages static_file_allocator files vaddr bsearch_leq sp
          ((sp.vectors slot).start_id + k)
        ≡ some (entry, (files file).l_addr)
  unfolding allocsite_entry_by_id
  slot_of_id contiguous full =
      let id = (sp.vectors slot).start_id + k in
      let starts = λ (i : ℕ). (sp.vectors i).start_id in
      let found =
        LastUpTo-slot sp slot id (bsearch_leq starts id sp.next_free) contiguous loaded.in_use
          (omega arith) (omega arith) full
          (law starts id sp.next_free (starts_ascend sp contiguous)) in
      ground (arith, found, loaded.base)

-- In a spine whose slots follow on each other and are not empty, for a loaded file whose sites' addresses
-- ascend, and where bsearch_leq_generic finds the last element up to its target: the identifier that
-- __liballocs_allocsite_id gives the site of an entry of that file, if it is below 2 ^ 16, is the
-- entry's index on top of the slot's start, and __liballocs_allocsite_by_id gives the site for it.
pub allocsite_by_id-allocsite_id :
    (v : Vas) (fuel : ℕ) (pages : State) (static_file_allocator : ℕ) (files : ℕ → AllocsFile)
    (vaddr : ℕ → ℕ) (bsearch_leq : (proj : ℕ → ℕ) → (target n : ℕ) → Option ℕ) (sp : Spine)
    (file slot k allocsite : ℕ)
    → BsearchLeq bsearch_leq
    → IsContiguous sp
    → ((i : ℕ) → i < sp.next_free → 0 < (sp.vectors i).count)
    → IsLoaded vaddr sp (files file) slot
    → k < (sp.vectors slot).count
    → (sp.vectors slot).start_id + k < 65536
    → file ≢ 0
    → get_file v fuel pages static_file_allocator files vaddr bsearch_leq sp allocsite ≡ some file
    → allocsite ≡ (files file).l_addr + vaddr ((sp.vectors slot).ptr + k)
    → allocsite < 0x1_0000_0000_0000_0000
    → (allocsite_id v fuel pages static_file_allocator files vaddr bsearch_leq sp allocsite
        ≡ some ((sp.vectors slot).start_id + k))
      × (allocsite_by_id v fuel pages static_file_allocator files vaddr bsearch_leq sp
            ((sp.vectors slot).start_id + k)
          ≡ some allocsite)
unfolding allocsite_by_id
allocsite_by_id-allocsite_id v fuel pages a files vaddr bsearch_leq sp file slot k allocsite law
      contiguous full loaded less small known owner place address =
    let back =
      slot_of_id v fuel pages a files vaddr bsearch_leq sp law file slot k loaded less contiguous
        full in
    (
      id_at v fuel pages a files vaddr bsearch_leq sp law file slot k loaded less allocsite known
          owner place address small,
      >>=-some _ back (ground (arith, loaded.has_entries)),
    )
