-- ===== src/Mmap/Tests.antt =====
-- Concrete mapping sequences: an anonymous one of two entries, cut and extended.
use liballocs.Common.{
  ℕ, ◌≡◌, refl, Bool, true, Option, none, some, List, [], ◌∷◌, arith, inl, if◌then◌else◌, ◌==◌,
}
use liballocs.Mmap.{MappingEntry, MappingSequence, zero_entry, find_entry}
use liballocs.Mmap.Entries.{IsSequence, Covers}
use liballocs.Mmap.Delete.{delete_mapping_sequence_span}
use liballocs.Mmap.Delete.Correct.{Deleted, delete_mapping_sequence_span-Deleted}
use liballocs.Mmap.Augment.{Mapping, augment_sequence}
use liballocs.Mmap.Augment.Overlap.{Outcome, Extended}
use liballocs.Mmap.Augment.Correct.{augment_sequence-Outcome, augment_sequence-accepts}
use liballocs.Mmap.Augment.Overrun.{augment_sequence-overrun}

abbrev first_entry : MappingEntry
first_entry = record {
  begin = 0x1000;
  end = 0x3000;
  prot = 1;
  flags = 2;
  offset = 0;
  is_anon = true;
  caller = 0;
}

abbrev second_entry : MappingEntry
second_entry = record {
  begin = 0x3000;
  end = 0x5000;
  prot = 3;
  flags = 2;
  offset = 0;
  is_anon = true;
  caller = 0;
}

abbrev two_entries : MappingSequence
two_entries = record {
  begin = 0x1000;
  end = 0x5000;
  filename = 0;
  nused = 2;
  mappings = λ i. if i == 0 then first_entry else if i == 1 then second_entry else zero_entry;
}

abbrev two_listed : List MappingEntry
two_listed = first_entry ∷ second_entry ∷ []

two_entries-Covers : Covers two_entries two_listed
two_entries-Covers = (
  (refl, (refl, (refl, tt))),
  omega arith,
  (refl, omega arith, omega arith, (refl, omega arith, omega arith, refl)),
)

delete_mapping_sequence_span-Deleted_example :
    (s' : MappingSequence) × (es : List MappingEntry) × (delete_mapping_sequence_span true
        two_entries 0x1000 0x2800
      ≡ some s')
    × IsSequence s' es
    × Deleted 0x1000 0x2800 two_entries s'
delete_mapping_sequence_span-Deleted_example =
    delete_mapping_sequence_span-Deleted true 0x1000 0x2800 two_entries first_entry
      (second_entry ∷ []) two_entries-Covers.0 (omega arith) two_entries-Covers.2 (omega arith)
      (omega arith) (inl (omega arith)) (λ k lo hi. ground arith)

-- no object is loaded, and the copy of a filename is the filename
abbrev no_object : ℕ → ℕ
no_object a = 0

abbrev same_text : ℕ → ℕ
same_text a = a

-- a mapping in the middle of both entries
abbrev middle : Mapping
middle = record {
  begin = 0x2000;
  end = 0x4000;
  prot = 5;
  flags = 0x12;
  offset = 0;
  filename = 0;
  caller = 0;
}

-- a mapping over the second entry and beyond
abbrev beyond : Mapping
beyond = record middle { begin = 0x4000; end = 0x6000 }

augment_sequence-Outcome_example :
    (r : Bool) × (s' : MappingSequence) × (augment_sequence no_object same_text true middle
        two_entries
      ≡ some (r, s'))
    × Outcome middle two_entries r s'
augment_sequence-Outcome_example =
    augment_sequence-Outcome no_object same_text true middle two_entries two_listed
      two_entries-Covers (omega arith) (omega arith) (inl (omega arith))

augment_sequence-accepts_example :
    (s' : MappingSequence) × (augment_sequence no_object same_text true middle two_entries
      ≡ some (true, s'))
    × Extended middle two_entries s'
augment_sequence-accepts_example =
    augment_sequence-accepts no_object same_text true middle two_entries two_listed
      two_entries-Covers (omega arith) (omega arith) (inl (omega arith)) refl refl (omega arith)
      (omega arith) (omega arith)

augment_sequence-overrun_example :
    augment_sequence no_object same_text true beyond two_entries ≡ none
augment_sequence-overrun_example =
    augment_sequence-overrun no_object same_text beyond two_entries two_listed two_entries-Covers
      (omega arith) (omega arith) refl refl (omega arith) (omega arith) (omega arith) (omega arith)

-- the protection that the sequence gives for an address, after a run
abbrev prot_of : Option (Bool × MappingSequence) → ℕ → ℕ
prot_of none a = 99
prot_of (some (r, s)) a = elim (find_entry a s) [ none ↦ 98 | some i ↦ (s.mappings i).prot ]

abbrev run_middle : Option (Bool × MappingSequence)
run_middle = augment_sequence no_object same_text true middle two_entries

middle_prots :
    (prot_of run_middle 0x1fff ≡ 1)
    × (prot_of run_middle 0x2000 ≡ 5)
    × (prot_of run_middle 0x3fff ≡ 5)
    × (prot_of run_middle 0x4000 ≡ 3)
    × (prot_of run_middle 0x5000 ≡ 98)
unfolding augment_sequence find_entry
middle_prots = (refl, refl, refl, refl, refl)

-- the second entry alone
abbrev second_only : MappingSequence
second_only = record {
  begin = 0x3000;
  end = 0x5000;
  filename = 0;
  nused = 1;
  mappings = λ i. if i == 0 then second_entry else zero_entry;
}
