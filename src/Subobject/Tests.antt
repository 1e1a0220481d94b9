-- ===== src/Subobject/Tests.antt =====
-- Subobjects of a concrete type: type 5 is a struct of an int, an array of three pairs of ints, and a
-- union of a pair and an int.
use liballocs.Common.{
  ℕ, ◌≡◌, ◌⊎◌, refl, Bool, true, false, some, none, List, [], ◌∷◌, ◌++◌, arith, ◌==◌, if◌then◌else◌,
  ◌||◌, ◌&&◌,
}
use liballocs.Subobject.{
  Uniqtype, Spanning, Found, Visit, first_subobject_spanning, find_matching_subobject,
  walk_subobjects_spanning,
}
use liballocs.Subobject.Bisect.{}
use liballocs.Subobject.First.{SubAt, IsFirstSub, first_subobject_spanning-IsFirstSub}
use liballocs.Subobject.Match.{IsSane, Matches, Decides}
use liballocs.Subobject.Match.Correct.{find_matching_subobject-Matches}
use liballocs.Subobject.Walk.{subobjects, call_each}
use liballocs.Subobject.Walk.Correct.{IsSized, walk_subobjects_spanning-call_each}

abbrev composite : (size count : ℕ) → (off memb : ℕ → ℕ) → Uniqtype
composite size count off memb = record {
  pos_maxoff = size;
  is_array = false;
  array_length = 0;
  element = 0;
  member_count = count;
  off = off;
  memb = memb;
}

abbrev triple : (a b c i : ℕ) → ℕ
triple a b c i = if i == 0 then a else if i == 1 then b else c

abbrev types : ℕ → Uniqtype
types u =
    if u == 1
    then composite 4 0 (triple 0 0 0) (triple 0 0 0)
    else if u == 2
    then composite 8 2 (triple 0 4 0) (triple 1 1 0)
    else if u == 3
    then record (composite 24 0 (triple 0 0 0) (triple 0 0 0)) {
      is_array = true;
      array_length = 3;
      element = 2;
    }
    else if u == 4
    then composite 8 2 (triple 0 0 0) (triple 2 1 0)
    else if u == 5
    then composite 40 3 (triple 0 8 32) (triple 1 3 4)
    else composite 0 0 (triple 0 0 0) (triple 0 0 0)

abbrev rank : ℕ → ℕ
rank u = if u == 2 then 1 else if (u == 3) || (u == 4) then 2 else if u == 5 then 3 else 0

types-IsSane : IsSane types rank
types-IsSane = record {
  ascending = λ u i j le less. ground arith;
  no_members = λ u a. ground arith;
  element_below = λ u a. ground arith;
  memb_below = λ u i less. ground arith;
}

types-IsSized : IsSized types
types-IsSized = record { element_size = λ u a. ground arith; array_size = λ u a. ground arith }

first_subobject_spanning-IsFirstSub_example :
    ((first_subobject_spanning types 20 5 ≡ some none)
      × ((i target' u' : ℕ) → SubAt types 20 5 i target' u' → ⊥))
    ⊎ ((r : Spanning) × (first_subobject_spanning types 20 5 ≡ some (some r))
        × IsFirstSub types 20 5 r)
first_subobject_spanning-IsFirstSub_example =
    first_subobject_spanning-IsFirstSub types 20 5 (types-IsSane.ascending 5)

first_run :
    first_subobject_spanning types 20 5
    ≡ some (some (record { cur_obj_uniqtype = 3; cur_contained_pos = 1; target_offset = 12 }))
unfolding first_subobject_spanning
first_run = refl

abbrev nothing : Found
nothing = record {
  last_attempted_uniqtype = 0;
  last_uniqtype_offset = 0;
  cumulative_offset_searched = 0;
  containing = none;
}

find_matching_subobject-Matches_example :
    Decides (Matches types 1 20 5) (find_matching_subobject types 1 4 20 5 nothing)
find_matching_subobject-Matches_example =
    find_matching_subobject-Matches types rank 1 4 20 5 nothing types-IsSane (omega arith)

-- the int of the union is found after the pair in the same place
find_run :
    find_matching_subobject types 1 4 32 5 nothing
    ≡ some (
      true,
      record {
        last_attempted_uniqtype = 1;
        last_uniqtype_offset = 0;
        cumulative_offset_searched = 32;
        containing = some (5, 2);
      },
    )
unfolding find_matching_subobject
find_run = refl

-- a callback that writes down the types, and stops at an int if `stop` says so
abbrev note : (stop : Bool) → Visit → List ℕ → ℕ × List ℕ
note stop v seen = (if stop && (v.spans == 1) then 7 else 0, seen ++ v.spans ∷ [])

walk_subobjects_spanning-call_each_example :
    walk_subobjects_spanning types (note true) 4 32 5 []
    ≡ some (call_each (note true) (subobjects types 4 0 0 32 5) [])
walk_subobjects_spanning-call_each_example =
    walk_subobjects_spanning-call_each types rank (note true) types-IsSane types-IsSized 4 32 5 []
      (omega arith)

-- both members of the union are walked
walk_run : walk_subobjects_spanning types (note false) 4 32 5 [] ≡ some (0, 4 ∷ 2 ∷ 1 ∷ 1 ∷ [])
unfolding walk_subobjects_spanning
walk_run = refl

walk_stops : walk_subobjects_spanning types (note true) 4 20 5 [] ≡ some (7, 3 ∷ 2 ∷ 1 ∷ [])
unfolding walk_subobjects_spanning
walk_stops = refl

subobjects_run : call_each (note false) (subobjects types 4 0 0 32 5) [] ≡ (0, 4 ∷ 2 ∷ 1 ∷ 1 ∷ [])
unfolding subobjects
subobjects_run = refl
