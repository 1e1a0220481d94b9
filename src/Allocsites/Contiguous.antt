-- ===== src/Allocsites/Contiguous.antt =====
-- The spine of the allocation sites' vectors: the identifiers of its slots follow on each other.
use liballocs.Common.{
  ℕ, zero, suc, ◌+◌, ◌-◌, ◌%◌, ◌≤◌, ◌<◌, ◌≡◌, ◌≢◌, refl, some, arith, ◌==◌, update, if◌then◌else◌,
}
use liballocs.Allocsites.{
  VectorEntry, Spine, AllocsFile, out_of_bounds, returned, allocsites_index_size, next_start_id,
  init_allocsites_info,
}

-- every slot in use starts where the one before it ends, and starts are 16-bit numbers
pub record IsContiguous (sp : Spine) : Type 0 where
  pub first : 0 < sp.next_free → (sp.vectors 0).start_id ≡ 0
  pub follows :
      (i : ℕ)
      → suc i < sp.next_free
      → (sp.vectors (suc i)).start_id ≡ (sp.vectors i).start_id + (sp.vectors i).count
  pub start_small : (i : ℕ) → i < sp.next_free → (sp.vectors i).start_id < 65536
  pub count_small : (i : ℕ) → i < sp.next_free → (sp.vectors i).count < 65536

module _ (sp : Spine) where
  -- where the next slot starts
  abbrev pub end_of_spine : ℕ
  end_of_spine =
      let prev = sp.vectors (sp.next_free - 1) in
      if sp.next_free == 0 then 0 else prev.start_id + prev.count

  -- the new slot, and the spine with it
  abbrev pub new_vector : (first_entry entries base : ℕ) → VectorEntry
  new_vector first_entry entries base = record {
    start_id = end_of_spine;
    count = entries % 65536;
    file_base_addr = base;
    ptr = first_entry;
  }

  abbrev pub extended : (first_entry entries base : ℕ) → Spine
  extended first_entry entries base = record {
    vectors = update sp.vectors sp.next_free (new_vector first_entry entries base);
    next_free = suc sp.next_free;
  }

module _ (sp : Spine) (contiguous : IsContiguous sp) where
  pub starts_ascend :
      (i j : ℕ) → i ≤ j → j < sp.next_free → (sp.vectors i).start_id ≤ (sp.vectors j).start_id
  starts_ascend i zero le less = ground arith
  starts_ascend i (suc j) le less = ground (arith, contiguous.follows j less, starts_ascend i j)

  -- the next slot starts after the whole of this one
  pub starts_past :
      (i j : ℕ)
      → i < j
      → j < sp.next_free
      → (sp.vectors i).start_id + (sp.vectors i).count ≤ (sp.vectors j).start_id
  starts_past i j less in_use =
      omega (arith, contiguous.follows i (omega arith), starts_ascend (suc i) j less in_use)

  next_start_id-end :
      end_of_spine sp < 65536 → next_start_id sp sp.next_free ≡ some (end_of_spine sp)
  unfolding next_start_id
  next_start_id-end small = ground arith

  extended-follows :
      (first_entry entries base i : ℕ)
      → suc i < suc sp.next_free
      → ((extended sp first_entry entries base).vectors (suc i)).start_id
        ≡ ((extended sp first_entry entries base).vectors i).start_id
          + ((extended sp first_entry entries base).vectors i).count
  extended-follows first_entry entries base i less = ground (arith, contiguous.follows i)

  extended-IsContiguous :
      (first_entry entries base : ℕ)
      → end_of_spine sp < 65536
      → IsContiguous (extended sp first_entry entries base)
  extended-IsContiguous first_entry entries base small = record {
    first = λ in_use. ground (arith, contiguous.first);
    follows = extended-follows first_entry entries base;
    start_small = λ i less. ground (arith, contiguous.start_small i);
    count_small = λ i less. ground (arith, contiguous.count_small i);
  }

-- If the slots follow on each other, the next free one is in the table and its identifiers start below
-- 2 ^ 16, then init_allocsites_info on a file with metadata and an allocsites symbol returns: it fills
-- that slot, which starts where the last one ends, tells the file of it, leaves the other slots as they
-- were, and the slots still follow on each other.
pub init_allocsites_info-IsContiguous :
    (sp : Spine) (file : AllocsFile) (first_entry entries : ℕ) (contiguous : IsContiguous sp)
    → file.meta_obj_handle ≢ 0
    → sp.next_free < allocsites_index_size
    → end_of_spine sp < 65536
    → (sp' : Spine) × (init_allocsites_info (some (first_entry, entries)) sp file
        ≡ returned sp' (record file { allocsites_info = some sp.next_free }))
      × IsContiguous sp'
      × (sp'.next_free ≡ suc sp.next_free)
      × (sp'.vectors sp.next_free ≡ new_vector sp first_entry entries file.l_addr)
      × ((i : ℕ) → i ≢ sp.next_free → sp'.vectors i ≡ sp.vectors i)
unfolding init_allocsites_info
init_allocsites_info-IsContiguous sp file first_entry entries contiguous handle room small = (
  extended sp first_entry entries file.l_addr,
  ground (arith, next_start_id-end sp contiguous small),
  extended-IsContiguous sp contiguous first_entry entries file.l_addr small,
  refl,
  ground arith,
  λ i ne. ground arith,
)

-- With all slots of the table in use, the guard of init_allocsites_info lets a file with metadata and an
-- allocsites symbol through, and the function stores outside the table.
init_allocsites_info-overruns :
    (sp : Spine) (file : AllocsFile) (first_entry entries : ℕ) (contiguous : IsContiguous sp)
    → file.meta_obj_handle ≢ 0
    → sp.next_free ≡ allocsites_index_size
    → end_of_spine sp < 65536
    → init_allocsites_info (some (first_entry, entries)) sp file ≡ out_of_bounds
unfolding init_allocsites_info
init_allocsites_info-overruns sp file first_entry entries contiguous handle full small =
    ground (arith, next_start_id-end sp contiguous small)
