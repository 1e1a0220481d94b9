-- ===== src/Pageindex/Find/Correct.antt =====
-- The searches below one record of the page index: what they return, and that they return.
use liballocs.Common.{
  ℕ, ◌<◌, ◌≡◌, ◌≢◌, inl, inr, Bool, true, ◌∷◌, some, arith, ◌∈◌, Distinct, ◌==◌, if◌then◌else◌,
  last_or, Bool-cases,
}
use liballocs.Pageindex.State.{BigAlloc, spans}
use liballocs.Pageindex.Forest.{Forest, ids, size, IsForest, path, Within, Nested}
use liballocs.Pageindex.Find.{
  find_deepest_bigalloc_recursive, is_match, find_bigalloc_recursive, leaf_allocator_for,
}
use liballocs.Pageindex.Find.Laws.{find_deepest_from-path, find_bigalloc_from-path, first_match}
use liballocs.Pageindex.Find.Nesting.{
  Tightest, Outermost, below-Within, path-mem, leaf_from-path, path-Tightest, path-Outermost,
}

-- Record `n` of the table has the descendants `f`: the links form that tree, no record occurs twice,
-- siblings are disjoint and children lie within their parents.
pub record IsTree (bs : ℕ → BigAlloc) (n : ℕ) (f : Forest) : Type 0 where
  pub is_record : n ≢ 0
  pub links : IsForest bs n 0 (bs n).first_child f
  pub inside : Within bs (bs n).begin (bs n).end f
  pub nested : Nested bs f
  pub distinct : Distinct (n ∷ ids f)

module _ {bs : ℕ → BigAlloc} {n : ℕ} {f : Forest} (tree : IsTree bs n f) (fuel addr : ℕ)
    (enough : size f < fuel) where
  -- With fuel beyond the number of descendants of the start, which spans the address,
  -- find_deepest_bigalloc_recursive returns the start or one of its descendants, which spans the
  -- address and whose range lies within that of each descendant that spans it and of the start.
  pub find_deepest-Tightest :
      spans (bs n) addr ≡ true
      → (d : ℕ) × (find_deepest_bigalloc_recursive bs fuel n addr ≡ some d)
        × (d ∈ (n ∷ ids f))
        × Tightest bs addr d (n ∷ ids f)
  find_deepest-Tightest s =
      let ((sd, tight), held) = path-Tightest bs addr n f tree.inside tree.nested s in
      (
        last_or n (path bs addr f),
        find_deepest_from-path bs addr fuel n n 0 (bs n).first_child f tree.is_record tree.links
            enough,
        path-mem bs addr n f,
        (sd, λ x m sx. ground (arith, tight x)),
      )

  start_first :
      (a : ℕ) (sub : Bool)
      → spans (bs n) addr ≡ true
      → Outermost bs addr a sub (first_match bs addr a sub (n ∷ path bs addr f)) (n ∷ ids f)
  start_first a sub s = elim (Bool-cases (is_match bs a sub n)) [
    | inl fits ↦ inr (
      ground arith,
      ground arith,
      ground arith,
      λ x m sx mx.
          ground (arith, below-Within bs (bs n).begin (bs n).end x f tree.inside tree.nested),
    )
    | inr other ↦ elim (path-Outermost bs addr a sub f tree.nested) [
      | inl (e, none_there) ↦ inl (ground arith, λ x m sx. ground (arith, none_there x))
      | inr (m, sr, i, outer) ↦
          inr (ground arith, ground arith, ground arith, λ x mx sx ix. ground (arith, outer x))
    ]
  ]

  -- With fuel beyond the number of descendants of the start, find_bigalloc_recursive returns the
  -- outermost record that spans the address and has the allocator (or suballocator) asked for, out of
  -- the start, which spans it, and its descendants; it returns null only if there is none.
  pub find_bigalloc-Outermost :
      (a : ℕ) (match_suballocator : Bool)
      → spans (bs n) addr ≡ true
      → (r : ℕ) × (find_bigalloc_recursive bs fuel n addr a match_suballocator ≡ some r)
        × Outermost bs addr a match_suballocator r (n ∷ ids f)
  unfolding find_bigalloc_recursive
  find_bigalloc-Outermost a match_suballocator s =
      let below =
        find_bigalloc_from-path bs addr a match_suballocator fuel n 0 (bs n).first_child f
          tree.links enough in
      (
        first_match bs addr a match_suballocator (n ∷ path bs addr f),
        ground (arith, below),
        start_first a match_suballocator s,
      )

  -- Where the page index names a record with a well-formed tree, __liballocs_leaf_allocator_for
  -- returns the record that find_deepest_bigalloc_recursive finds, although it looks for the last
  -- child that spans the address and not the first, and that record's suballocator, or its
  -- allocator if it has none.
  pub leaf_allocator_for-find_deepest :
      (pageindex : ℕ → ℕ) (pagenum : ℕ)
      → pageindex pagenum ≡ n
      → (d : ℕ) × (find_deepest_bigalloc_recursive bs fuel n addr ≡ some d)
        × (leaf_allocator_for bs pageindex fuel pagenum addr
            ≡ some
                (if (bs d).suballocator == 0 then (bs d).allocated_by else (bs d).suballocator, d))
  unfolding leaf_allocator_for
  leaf_allocator_for-find_deepest pageindex pagenum e =
      let deepest =
        find_deepest_from-path bs addr fuel n n 0 (bs n).first_child f tree.is_record tree.links
          enough in
      let leaf_is = leaf_from-path bs addr fuel n f tree.links tree.nested tree.distinct enough in
      (last_or n (path bs addr f), deepest, ground (arith, leaf_is, tree.is_record))
