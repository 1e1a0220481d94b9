-- ===== src/Lifetime/Writes.antt =====
-- The callbacks that a pointer write calls, whatever they do to the state.
use liballocs.Common.{
  ℕ, zero, suc, ◌+◌, ◌-◌, ◌≤◌, ◌<◌, ◌≡◌, refl, subst, sym, Bool, true, false, Option, none, some,
  if◌then◌else◌, update, List, [], ◌∷◌, arith, Bool-cases, inl, inr,
}
use liballocs.Lifetime.{
  Lifetimes, Call, Allocators, get_lifetime_insert_info, any_bit, call, delrefs, addrefs,
  has_lifetime_policies_attached, notify_ptr_write,
}
use liballocs.Lifetime.Policies.{any_bit-false}

-- the policies from i on that are attached, in order
abbrev attached : (bits : ℕ → Bool) (left i : ℕ) → List ℕ
attached bits zero i = []
attached bits (suc left) i =
    let rest = attached bits left (i + 1) in if bits i then i ∷ rest else rest

-- the policies attached to a value's chunk in a state, if it has an insert
abbrev pub policies_of : (size : ℕ) (s : Lifetimes) → Option ℕ → List ℕ
policies_of size s none = []
policies_of size s (some c) = attached (s.inserts c) (size - 1) 1

abbrev pub chunk_or : Option ℕ → ℕ
chunk_or none = 0
chunk_or (some c) = c

module _ (callback : Call → Lifetimes → Lifetimes) where
  -- the delref callbacks of the policies of a list, in order, each the one that the table then holds
  abbrev pub delref_each : (target dest : ℕ) → List ℕ → Lifetimes → Lifetimes
  delref_each target dest [] s = s
  delref_each target dest (i ∷ is) s = delref_each target dest is (
      call callback
        (record { callback = (s.lifetime_policies i).delref; target = target; from = dest }) s)

  -- The policies from i on have their turn, one after the other: the addref callback of a policy is
  -- called if the policy is attached to the chunk when its turn comes, and not otherwise.
  pub data AddrefTurns (target dest : ℕ) : (left i : ℕ) (s s' : Lifetimes) → Type 0 where
    over : {i : ℕ} {s : Lifetimes} → AddrefTurns target dest 0 i s s
    called :
        {left i : ℕ} {s s' : Lifetimes}
        → s.inserts target i ≡ true
        → AddrefTurns target dest left
            (i + 1)
            (call callback
              (record { callback = (s.lifetime_policies i).addref; target = target; from = dest })
              s)
            s'
        → AddrefTurns target dest (suc left) i s s'
    skipped :
        {left i : ℕ} {s s' : Lifetimes}
        → s.inserts target i ≡ false
        → AddrefTurns target dest left (i + 1) s s'
        → AddrefTurns target dest (suc left) i s s'

  -- the turns for the chunk of the new value, if it has an insert
  abbrev pub NewValueTurns : (size dest : ℕ) → Option ℕ → (s s' : Lifetimes) → Type 0
  NewValueTurns size dest none s s' = s' ≡ s
  NewValueTurns size dest (some c) s s' = AddrefTurns c dest (size - 1) 1 s s'

  delrefs-delref_each :
      (left i : ℕ) (bits : ℕ → Bool) (target dest : ℕ) (s : Lifetimes)
      → delrefs callback left i bits target dest s
        ≡ delref_each target dest (attached bits left i) s
  unfolding delrefs
  delrefs-delref_each zero i bits target dest s = refl
  delrefs-delref_each (suc left) i bits target dest s = elim (Bool-cases (bits i)) [
    | inl on ↦ rw on (delrefs-delref_each left (i + 1) bits target dest _)
    | inr off ↦ rw off (delrefs-delref_each left (i + 1) bits target dest s)
  ]

  addrefs-AddrefTurns :
      (left i target dest : ℕ) (s : Lifetimes)
      → AddrefTurns target dest left i s (addrefs callback left i target dest s)
  unfolding addrefs
  addrefs-AddrefTurns zero i target dest s = over
  addrefs-AddrefTurns (suc left) i target dest s =
      let k : Call = record {
        callback = (s.lifetime_policies i).addref;
        target = target;
        from = dest;
      } in
      let then_ = λ (b : Bool).
        AddrefTurns target dest (suc left) i s
          (addrefs callback left (i + 1) target dest (if b then call callback k s else s)) in
      elim (Bool-cases (s.inserts target i)) [
        | inl on ↦
            subst then_ (sym on)
              (called on (addrefs-AddrefTurns left (i + 1) target dest (call callback k s)))
        | inr off ↦
            subst then_ (sym off) (skipped off (addrefs-AddrefTurns left (i + 1) target dest s))
      ]

-- no bit is set, other than that of manual deallocation
attached-nil :
    (width : ℕ) (bits : ℕ → Bool) (left i : ℕ)
    → any_bit width (update bits 0 false) ≡ false
    → 0 < i
    → i + left ≤ width
    → attached bits left i ≡ []
attached-nil width bits zero i h p lt = refl
attached-nil width bits (suc left) i h p lt =
    let clear = any_bit-false width (update bits 0 false) h i (omega arith) in
    let off : bits i ≡ false = ground arith in
    rw off (attached-nil width bits left (i + 1) h (omega arith) (omega arith))

any_bit-skipped :
    (callback : Call → Lifetimes → Lifetimes) (width : ℕ) (target dest left i : ℕ) (s : Lifetimes)
    → any_bit width (update (s.inserts target) 0 false) ≡ false
    → 0 < i
    → i + left ≤ width
    → AddrefTurns callback target dest left i s s
any_bit-skipped callback width target dest zero i s clear pos le = over
any_bit-skipped callback width target dest (suc left) i s clear pos le =
    let bit = any_bit-false width (update (s.inserts target) 0 false) clear i (omega arith) in
    skipped (ground arith)
      (any_bit-skipped callback width target dest left (i + 1) s clear (omega arith) (omega arith))

module _ (callback : Call → Lifetimes → Lifetimes) (width size dest : ℕ) (wide : size ≤ width)
    (some_size : 0 < size) where
  abbrev old_step : Option ℕ → Lifetimes → Lifetimes
  old_step o s = elim o [
    | none ↦ s
    | some c ↦
        if has_lifetime_policies_attached callback width (s.inserts c)
        then delrefs callback (size - 1) 1 (s.inserts c) c dest s
        else s
  ]

  abbrev new_step : Option ℕ → Lifetimes → Lifetimes
  new_step o s = elim o [
    | none ↦ s
    | some c ↦
        if has_lifetime_policies_attached callback width (s.inserts c)
        then addrefs callback (size - 1) 1 c dest s
        else s
  ]

  old_step-delref_each :
      (o : Option ℕ) (s : Lifetimes)
      → old_step o s ≡ delref_each callback (chunk_or o) dest (policies_of size s o) s
  unfolding has_lifetime_policies_attached
  old_step-delref_each none s = refl
  old_step-delref_each (some c) s =
      elim (Bool-cases (any_bit width (update (s.inserts c) 0 false))) [
        | inl z ↦ rw z (delrefs-delref_each callback (size - 1) 1 (s.inserts c) c dest s)
        | inr z ↦
            rw (z, attached-nil width (s.inserts c) (size - 1) 1 z (omega arith) (omega arith)) refl
      ]

  new_step-NewValueTurns :
      (o : Option ℕ) (s : Lifetimes) → NewValueTurns callback size dest o s (new_step o s)
  unfolding has_lifetime_policies_attached
  new_step-NewValueTurns none s = refl
  new_step-NewValueTurns (some c) s =
      elim (Bool-cases (any_bit width (update (s.inserts c) 0 false))) [
        | inl z ↦ rw z (addrefs-AddrefTurns callback (size - 1) 1 c dest s)
        | inr z ↦
            rw z
              (any_bit-skipped callback width c dest (size - 1) 1 s z (omega arith) (omega arith))
      ]

  -- Let an insert have a bit for each entry of the nonempty table of policies. Whatever the callbacks
  -- do to the inserts, the table, and what the allocators answer, a pointer write first calls, in order
  -- of their numbers, the delref callback of each policy other than manual deallocation that was
  -- attached to the chunk of the old value before the write, also if a call before has detached it or
  -- freed the chunk. In the state that this leaves, it looks up the chunk of the new value, and gives
  -- each policy other than manual deallocation its turn, in order of their numbers: its addref
  -- callback is called if it is attached to that chunk when its turn comes, and not otherwise. Each
  -- callback is the one that the table holds when it is called; it is given the chunk's start and the
  -- place written. For a value whose chunk has no insert, none is called.
  pub notify_ptr_write-calls :
      (al : Lifetimes → Allocators) (old_val val : ℕ) (s : Lifetimes)
      → let old = get_lifetime_insert_info (al s) old_val in
        let s1 = delref_each callback (chunk_or old) dest (policies_of size s old) s in
        NewValueTurns callback size dest
          (get_lifetime_insert_info (al s1) val)
          s1
          (notify_ptr_write callback al width size dest old_val val s)
  unfolding notify_ptr_write
  notify_ptr_write-calls al old_val val s =
      subst
        (λ t.
          NewValueTurns callback size dest (get_lifetime_insert_info (al t) val) t
            (notify_ptr_write callback al width size dest old_val val s))
        (old_step-delref_each (get_lifetime_insert_info (al s) old_val) s)
        (new_step-NewValueTurns
          (get_lifetime_insert_info (al (old_step (get_lifetime_insert_info (al s) old_val) s)) val)
          (old_step (get_lifetime_insert_info (al s) old_val) s))
