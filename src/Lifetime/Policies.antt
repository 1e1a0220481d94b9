-- ===== src/Lifetime/Policies.antt =====
-- What policies do for the chunks that they are attached to, and how many can be registered.
use liballocs.Common.{
  ℕ, zero, suc, ◌<◌, ◌≡◌, ◌↔◌, refl, ap, sym, subst, ◌∙◌, Bool, true, false, ◌&&◌, Option, none,
  some, ◌==◌, update, List, [], ◌∷◌, arith, has, All, Bool-cases, Option-cases, inl, inr,
}
use liballocs.Common.Int.{}
use liballocs.Lifetime.{
  Lifetimes, Allocators, get_lifetime_insert_info, attach_to_chunk, attach_lifetime_policy, any_bit,
  detach_from_chunk, detach_lifetime_policy,
}

pub data Op : Type 0 where
  attach : (policy_id obj : ℕ) → Op
  detach : (policy_id obj : ℕ) → Op

any_bit-true : (n i : ℕ) (bits : ℕ → Bool) → i < n → bits i ≡ true → any_bit n bits ≡ true
unfolding any_bit
any_bit-true zero i bits h e = elim h [ ]
any_bit-true (suc n) i bits h e = elim (Bool-cases (i == n)) [
  | inl q ↦ let e' : bits n ≡ true = ap bits (ground arith) ∙ e in ground arith
  | inr q ↦ ground (arith, any_bit-true n i bits)
]

-- the policy is attached to the chunk, and the chunk was freed as before
abbrev pub Kept : (policy_id chunk : ℕ) (s s' : Lifetimes) → Type 0
Kept p c s s' = (s'.inserts c p ≡ true) × (has c s'.freed ≡ has c s.freed)

-- a detachment of another policy, or from another chunk
abbrev pub IsOther : (policy_id chunk q : ℕ) → Option ℕ → Type 0
IsOther p c q none = Unit {0}
IsOther p c q (some d) = ((q == p) && (d == c)) ≡ false

module _ (al : Allocators) (width : ℕ) where
  abbrev pub apply : Op → Lifetimes → Lifetimes
  apply (attach p obj) s = attach_lifetime_policy al width p obj s
  apply (detach p obj) s = detach_lifetime_policy al width p obj s

  abbrev pub run : List Op → Lifetimes → Lifetimes
  run [] s = s
  run (op ∷ ops) s = run ops (apply op s)

  -- the operation does not detach the policy from the chunk
  abbrev pub Spares : (policy_id chunk : ℕ) → Op → Type 0
  Spares p c (attach q obj) = Unit {0}
  Spares p c (detach q obj) = IsOther p c q (get_lifetime_insert_info al obj)

  attach-none :
      (p obj : ℕ) (s : Lifetimes)
      → get_lifetime_insert_info al obj ≡ none
      → attach_lifetime_policy al width p obj s ≡ s
  unfolding attach_lifetime_policy
  attach-none p obj s e = ground arith

  attach-some :
      (p obj c : ℕ) (s : Lifetimes)
      → get_lifetime_insert_info al obj ≡ some c
      → attach_lifetime_policy al width p obj s ≡ attach_to_chunk width p c s
  unfolding attach_lifetime_policy
  attach-some p obj c s e = ground arith

  detach-none :
      (p obj : ℕ) (s : Lifetimes)
      → get_lifetime_insert_info al obj ≡ none
      → detach_lifetime_policy al width p obj s ≡ s
  unfolding detach_lifetime_policy
  detach-none p obj s e = ground arith

  detach-some :
      (p obj c : ℕ) (s : Lifetimes)
      → get_lifetime_insert_info al obj ≡ some c
      → detach_lifetime_policy al width p obj s ≡ detach_from_chunk width p c s
  unfolding detach_lifetime_policy
  detach-some p obj c s e = ground arith

  attach-Kept :
      (p c q d : ℕ) (s : Lifetimes)
      → s.inserts c p ≡ true
      → Kept p c s (attach_to_chunk width q d s)
  unfolding attach_to_chunk
  attach-Kept p c q d s e = (ground arith, refl)

  detach-Kept :
      (p c q d : ℕ) (s : Lifetimes)
      → p < width
      → s.inserts c p ≡ true
      → ((q == p) && (d == c)) ≡ false
      → Kept p c s (detach_from_chunk width q d s)
  unfolding detach_from_chunk
  detach-Kept p c q d s lt e sp = elim (Bool-cases (d == c)) [
    | inl z ↦
        let same : d ≡ c = ground arith in
        let bit : update (s.inserts d) q false p ≡ true = rw same (ground arith) in
        let any = any_bit-true width p (update (s.inserts d) q false) lt bit in
        (ground arith, rw any refl)
    | inr z ↦ (ground arith, ground arith)
  ]

  step-Kept :
      (p c : ℕ) (op : Op) (s : Lifetimes)
      → p < width
      → s.inserts c p ≡ true
      → Spares p c op
      → Kept p c s (apply op s)
  step-Kept p c (attach q obj) s lt e sp = elim (Option-cases (get_lifetime_insert_info al obj)) [
    | inl z ↦ subst (Kept p c s) (sym (attach-none q obj s z)) (e, refl)
    | inr (d, z) ↦ subst (Kept p c s) (sym (attach-some q obj d s z)) (attach-Kept p c q d s e)
  ]
  step-Kept p c (detach q obj) s lt e sp = elim (Option-cases (get_lifetime_insert_info al obj)) [
    | inl z ↦ subst (Kept p c s) (sym (detach-none q obj s z)) (e, refl)
    | inr (d, z) ↦
        let apart : ((q == p) && (d == c)) ≡ false =
          spared (get_lifetime_insert_info al obj) d z sp in
        subst (Kept p c s) (sym (detach-some q obj d s z)) (detach-Kept p c q d s lt e apart)
  ]
    where
      spared :
          (o : Option ℕ) (d : ℕ) → o ≡ some d → IsOther p c q o → ((q == p) && (d == c)) ≡ false
      spared none d z sp = cc
      spared (some d') d z sp =
          let same : d' ≡ d = cc in subst (λ k. ((q == p) && (k == c)) ≡ false) same sp

  -- In every sequence of attachments and detachments that does not detach a given policy, one that
  -- an insert has a bit for, from a given chunk that it is attached to: the policy stays attached to
  -- the chunk, and the chunk is among those freed afterwards exactly if it was before.
  pub run-Kept :
      (p c : ℕ) (ops : List Op) (s : Lifetimes)
      → p < width
      → s.inserts c p ≡ true
      → All (Spares p c) ops
      → Kept p c s (run ops s)
  run-Kept p c [] s lt e sp = (e, refl)
  run-Kept p c (op ∷ ops) s lt e sp =
      let one = step-Kept p c op s lt e sp.0 in
      let more = run-Kept p c ops (apply op s) lt one.0 sp.1 in (more.0, more.1 ∙ one.1)

pub any_bit-false :
    (n : ℕ) (bits : ℕ → Bool) → any_bit n bits ≡ false → (i : ℕ) → i < n → bits i ≡ false
any_bit-false n bits e i h = elim (Bool-cases (bits i)) [
  | inl t ↦ let bad = any_bit-true n i bits h t in cc
  | inr f ↦ f
]

all_clear : (n : ℕ) (bits : ℕ → Bool) → ((i : ℕ) → i < n → bits i ≡ false) → any_bit n bits ≡ false
unfolding any_bit
all_clear zero bits h = refl
all_clear (suc n) bits h = ground (arith, h n, all_clear n bits (λ i lt. h i (omega arith)))

-- The detachment of a policy from a chunk that was not freed frees it exactly if no other policy,
-- that of manual deallocation included, is attached to the chunk.
pub detach_lifetime_policy-frees_iff :
    (al : Allocators) (width p obj c : ℕ) (s : Lifetimes)
    → get_lifetime_insert_info al obj ≡ some c
    → has c s.freed ≡ false
    → (has c (detach_lifetime_policy al width p obj s).freed ≡ true)
      ↔ ((q : ℕ) → q < width → (q == p) ≡ false → s.inserts c q ≡ false)
unfolding detach_from_chunk
detach_lifetime_policy-frees_iff al width p obj c s e live =
    subst
      (λ (s' : Lifetimes).
        (has c s'.freed ≡ true) ↔ ((q : ℕ) → q < width → (q == p) ≡ false → s.inserts c q ≡ false))
      (sym (detach-some al width p obj c s e)) (to, from)
  where
    to :
        has c (detach_from_chunk width p c s).freed ≡ true
        → (q : ℕ) → q < width
        → (q == p) ≡ false
        → s.inserts c q ≡ false
    to h q lt ne =
        let clear : any_bit width (update (s.inserts c) p false) ≡ false = ground arith in
        ground (arith, any_bit-false width (update (s.inserts c) p false) clear q lt)

    from :
        ((q : ℕ) → q < width → (q == p) ≡ false → s.inserts c q ≡ false)
        → has c (detach_from_chunk width p c s).freed ≡ true
    from h =
        let clear =
          all_clear width (update (s.inserts c) p false) (λ q lt. ground (arith, h q lt)) in
        rw clear (ground arith)
