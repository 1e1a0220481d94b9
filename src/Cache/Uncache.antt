-- ===== src/Cache/Uncache.antt =====
-- __liballocs_uncache_all of src/cache.c, as an operation on the recency list.
use liballocs.Common.{
  ℕ, zero, suc, ◌+◌, ◌-◌, ◌<◌, ◌≡◌, refl, sym, ap, ◌∙◌, subst, Bool, true, false, List, ◌&&◌, arith,
  ltb, leb, has, ◌∈◌, erase, Bool-cases, inl, inr, remove_if, remove_if-cong, remove_if-erase,
  remove_if-none, has-erase_self, ◌==◌,
}
use liballocs.Common.Chain.{Chain-nonzero}
use liballocs.Cache.{
  Entry, Cache, next_of, prev_of, unlink, begins_in, uncache_slot, uncache_from, uncache_all,
}
use liballocs.Cache.Sane.{IsSane, SameRanges, unlink-IsSane, unlink-SameRanges}

-- the slots from i on, `left` in number, whose range begins in the region
dropped : (ptr size : ℕ) → (ℕ → Entry) → (i left : ℕ) → ℕ → Bool
dropped ptr size es i left j = leb i j && ltb j (i + left) && begins_in ptr size (es j)

abbrev Left : (ptr size : ℕ) → Cache → List ℕ → (i left : ℕ) → Cache → Type 0
Left ptr size c xs i left c' =
    IsSane c' (remove_if (dropped ptr size c.entries i left) xs) × SameRanges c c'

-- Slot i dealt with, the others count as before.
dropped-suc :
    (ptr size : ℕ) (es es' : ℕ → Entry) (i left j : ℕ)
    → (es' j).obj_base ≡ (es j).obj_base
    → (j == i) && begins_in ptr size (es j) ≡ false
    → dropped ptr size es' (i + 1) left j ≡ dropped ptr size es i (suc left) j
unfolding dropped begins_in
dropped-suc ptr size es es' i left j e h = ground arith

dropped_self :
    (ptr size : ℕ) (es : ℕ → Entry) (i left : ℕ)
    → begins_in ptr size (es i) ≡ true
    → dropped ptr size es i (suc left) i ≡ true
unfolding dropped
dropped_self ptr size es i left h = ground arith

dropped-zero : (ptr size : ℕ) (es : ℕ → Entry) (i j : ℕ) → dropped ptr size es i 0 j ≡ false
unfolding dropped
dropped-zero ptr size es i j = ground arith

module _ (ptr size : ℕ) where
  -- one round on a slot that it drops
  slot-hit :
      {c : Cache} {xs : List ℕ} (i : ℕ)
      → IsSane c xs
      → 0 < i
      → i ∈ xs
      → begins_in ptr size (c.entries i) ≡ true
      → uncache_slot ptr size c i ≡ unlink c i
  unfolding uncache_slot unlink
  slot-hit i s p m b = rw (s.valid i p, m, b) refl

  slot-miss :
      {c : Cache} {xs : List ℕ} (i : ℕ)
      → IsSane c xs
      → 0 < i
      → has i xs && begins_in ptr size (c.entries i) ≡ false
      → uncache_slot ptr size c i ≡ c
  unfolding uncache_slot
  slot-miss i s p b = rw (s.valid i p, b) refl

  Left-step :
      (c c1 r : Cache) (xs ys : List ℕ) (i left : ℕ)
      → SameRanges c c1
      → Left ptr size c1 ys (i + 1) left r
      → remove_if (dropped ptr size c1.entries (i + 1) left) ys
        ≡ remove_if (dropped ptr size c.entries i (suc left)) xs
      → Left ptr size c xs i (suc left) r
  Left-step c c1 r xs ys i left same done e =
      (subst (IsSane r) e done.0, (done.1.0 ∙ same.0, λ j. ground (arith, done.1.1 j, same.1 j)))

  uncache_from-Left :
      (left i : ℕ) {c : Cache} {xs : List ℕ}
      → IsSane c xs
      → 0 < i
      → Left ptr size c xs i left (uncache_from ptr size left i c)
  unfolding uncache_from
  uncache_from-Left zero i {c} {xs} s p = (
    rw
        (remove_if-none (dropped ptr size c.entries i 0) xs
          (λ j m. dropped-zero ptr size c.entries i j))
        s,
    (refl, λ j. (refl, refl, refl, refl, refl)),
  )
  uncache_from-Left (suc left) i {c} {xs} s p =
      elim (Bool-cases (has i xs && begins_in ptr size (c.entries i))) [
        | inl e ↦
            let m : i ∈ xs = ground arith in
            let b : begins_in ptr size (c.entries i) ≡ true = ground arith in
            let same = unlink-SameRanges c i in
            subst (Left ptr size c xs i (suc left))
              (ap (uncache_from ptr size left (i + 1)) (sym (slot-hit i s p m b)))
              (Left-step c (unlink c i) _ xs (erase i xs) i left same
                (uncache_from-Left left (i + 1) (unlink-IsSane s i m) (omega arith))
                (remove_if-cong _ _ (erase i xs) (λ j k.
                    dropped-suc ptr size c.entries (unlink c i).entries i left j (same.1 j).0
                      (ground (arith, has-erase_self i xs s.distinct)))
                  ∙ remove_if-erase _ i xs (dropped_self ptr size c.entries i left b)))
        | inr e ↦
            subst (Left ptr size c xs i (suc left))
              (ap (uncache_from ptr size left (i + 1)) (sym (slot-miss i s p e)))
              (Left-step c c _ xs xs i left (refl, λ j. (refl, refl, refl, refl, refl))
                (uncache_from-Left left (i + 1) s (omega arith))
                (remove_if-cong _ _ xs
                  (λ j k. dropped-suc ptr size c.entries c.entries i left j refl (ground arith))))
      ]

  -- In a sane cache __liballocs_uncache_all drops exactly the valid entries whose range begins in
  -- [ptr, ptr + size). The other entries keep their ranges and their order, and the cache stays sane.
  pub uncache_all-remove_if :
      {c : Cache} {xs : List ℕ}
      → IsSane c xs
      → IsSane (uncache_all c ptr size) (remove_if (λ j. begins_in ptr size (c.entries j)) xs)
        × SameRanges c (uncache_all c ptr size)
  unfolding uncache_all
  uncache_all-remove_if {c} {xs} s =
      let done = uncache_from-Left (c.size_plus_one - 1) 1 s (omega arith) in
      (
        subst (IsSane (uncache_all c ptr size))
            (remove_if-cong (dropped ptr size c.entries 1 (c.size_plus_one - 1))
              (λ j. begins_in ptr size (c.entries j)) xs
              (λ j m.
                unfold dropped in
                ground (
                  arith,
                  s.range j,
                  Chain-nonzero (next_of c) (prev_of c) 0 c.head_mru xs s.chain,
                )))
            done.0,
        done.1,
      )
