-- ===== src/Allocsites/Tests.antt =====
-- Two files' allocation sites, the second file being that of record 1 of Pageindex/Examples, and a search
-- by bisection for bsearch_leq_generic.
use liballocs.Common.{
  ℕ, zero, suc, ◌≤◌, ◌≡◌, ◌≢◌, inl, inr, refl, Option, none, some, arith, ltb, ◌==◌, ◌*◌, false,
  lt→ltb, if◌then◌else◌, update, ◌>>=◌,
}
use liballocs.Pageindex.Vas.{x86_64}
use liballocs.Pageindex.State.{State}
use liballocs.Pageindex.Examples.{heap, world}
use liballocs.Subobject.{bisect}
use liballocs.Subobject.Bisect.{bisect-choice}
use liballocs.Allocsites.{
  VectorEntry, Spine, AllocsFile, out_of_bounds, returned, allocsites_index_size,
  init_allocsites_info, get_file, allocsite_id, allocsite_by_id,
}
use liballocs.Allocsites.Contiguous.{IsContiguous, new_vector, init_allocsites_info-IsContiguous}
use liballocs.Allocsites.RoundTrip.{BsearchLeq, IsLoaded, allocsite_by_id-allocsite_id}

abbrev search_by_bisection : (proj : ℕ → ℕ) (target n : ℕ) → Option ℕ
search_by_bisection proj target zero = none
search_by_bisection proj target (suc n) = bisect proj target (suc (suc n)) 0 (suc n) >>= λ r.
    if ltb target (proj r.0) then none else some r.0

search_by_bisection-BsearchLeq : BsearchLeq search_by_bisection
search_by_bisection-BsearchLeq proj target zero up = λ j less. absurd (omega arith)
search_by_bisection-BsearchLeq proj target (suc n) up =
    let (l, ran, less, choice) = bisect-choice proj (suc n) target up (omega arith) in
    elim choice [
      | inl (above, all_above) ↦ rw (ran, (lt→ltb target (proj l) above)) all_above
      | inr (le, best) ↦ rw (ran, beyond l le) (less, le, best)
    ]
  where
    beyond : (l : ℕ) → proj l ≤ target → ltb target (proj l) ≡ false
    beyond l le = ground arith

abbrev vector : (start_id count base ptr : ℕ) → VectorEntry
vector start_id count base ptr = record {
  start_id = start_id;
  count = count;
  file_base_addr = base;
  ptr = ptr;
}

abbrev one_file : Spine
one_file = record { vectors = λ i. vector 0 3 0x10_0000 100; next_free = 1 }

abbrev new_file : AllocsFile
new_file = record { meta_obj_handle = 1; l_addr = 0x5000; allocsites_info = none }

one_file-IsContiguous : IsContiguous one_file
one_file-IsContiguous = record {
  first = λ in_use. refl;
  follows = λ i less. absurd (omega arith);
  start_small = λ i less. omega arith;
  count_small = λ i less. omega arith;
}

init_allocsites_info-IsContiguous_example :
    (sp' : Spine) × (init_allocsites_info (some (200, 2)) one_file new_file
      ≡ returned sp' (record new_file { allocsites_info = some 1 }))
    × IsContiguous sp'
    × (sp'.next_free ≡ 2)
    × (sp'.vectors 1 ≡ new_vector one_file 200 2 0x5000)
    × ((i : ℕ) → i ≢ 1 → sp'.vectors i ≡ one_file.vectors i)
init_allocsites_info-IsContiguous_example =
    init_allocsites_info-IsContiguous one_file new_file 200 2 one_file-IsContiguous
      (λ e. ground arith) (omega arith) (omega arith)

-- the guard accepts the slot one past the last of the table
abbrev full_spine : Spine
full_spine = record {
  vectors = λ i. vector i 1 (0x1000 * i) (100 * i);
  next_free = allocsites_index_size;
}

init_past_the_end : init_allocsites_info (some (200, 2)) full_spine new_file ≡ out_of_bounds
unfolding init_allocsites_info
init_past_the_end = refl

abbrev two_files : Spine
two_files = record { vectors = update one_file.vectors 1 (vector 3 2 0x5000 200); next_free = 2 }

two_files-IsContiguous : IsContiguous two_files
two_files-IsContiguous = record {
  first = λ in_use. refl;
  follows = λ i less. ground arith;
  start_small = λ i less. ground arith;
  count_small = λ i less. ground arith;
}

abbrev files : ℕ → AllocsFile
files n = record new_file { allocsites_info = some 1 }

abbrev vaddr : ℕ → ℕ
vaddr p = if p == 200 then 0x700 else 0x800

second-IsLoaded : IsLoaded vaddr two_files (files 1) 1
second-IsLoaded = record {
  in_use = omega arith;
  info = refl;
  base = refl;
  has_entries = λ e. ground arith;
  sorted = λ i j less in_range. ground arith;
}

abbrev pages : State
pages = record world {
  big_allocations = update heap 1 (record (heap 1) { allocated_by = 9; allocator_private = 1 });
}

owner_run : get_file x86_64 6 pages 9 files vaddr search_by_bisection two_files 0x5800 ≡ some 1
unfolding get_file
owner_run = refl

allocsite_by_id-allocsite_id_example :
    (allocsite_id x86_64 6 pages 9 files vaddr search_by_bisection two_files 0x5800 ≡ some 4)
    × (allocsite_by_id x86_64 6 pages 9 files vaddr search_by_bisection two_files 4 ≡ some 0x5800)
allocsite_by_id-allocsite_id_example =
    allocsite_by_id-allocsite_id x86_64 6 pages 9 files vaddr search_by_bisection two_files 1 1 1
      0x5800 search_by_bisection-BsearchLeq two_files-IsContiguous (λ i less. ground arith)
      second-IsLoaded (omega arith) (omega arith) (λ e. ground arith) owner_run refl (omega arith)

-- an address of no file gets the identifier of the first site
unknown_run :
    allocsite_id x86_64 6 pages 9 files vaddr search_by_bisection two_files 0x1800 ≡ some 0
unfolding allocsite_id
unknown_run = refl
