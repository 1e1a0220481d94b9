-- ===== src/Lifetime.antt =====
-- The lifetime policies of src/lifetime_policies.c: the table of policies, the attachment and the
-- detachment of a policy, and the notifications of pointer writes and copies. The lifetime insert of
-- a chunk is the function that gives its bits, the policies attached to it. Callbacks and free
-- functions are code of the program's that calls the library: `callback` is what a call does to the
-- state. LIFETIME_POLICIES, the bounds of user addresses, and the allocators' operations are
-- parameters.
pub mod Policies
pub mod Registry
pub mod Writes
pub mod Copy
mod Tests
use liballocs.Common.{
  ℕ, zero, suc, ◌+◌, ◌-◌, Bool, true, false, not, ◌&&◌, ◌||◌, Option, none, some, leb, ltb, ◌==◌,
  if◌then◌else◌, update, List, [], ◌∷◌,
}
use liballocs.Common.Int.{ℤ, pos, negsuc}

-- struct lifetime_policy: the numbers of two callbacks
pub record LifetimePolicy : Type 0 where
  pub addref : ℕ
  pub delref : ℕ

-- a call of a callback: its number, the target and the place of the pointer
pub record Call : Type 0 where
  pub callback : ℕ
  pub target : ℕ
  pub from : ℕ

pub record Lifetimes : Type 0 where
  -- __last_free_lifetime_policy_id
  pub last_free_lifetime_policy_id : ℕ
  pub lifetime_policies : ℕ → LifetimePolicy
  -- the bits of the insert of the chunk that starts at an address
  pub inserts : ℕ → ℕ → Bool
  -- the chunks that a free function was called for so far, latest first
  pub freed : List ℕ
  -- the calls of callbacks so far, latest first
  pub calls : List Call

-- what __liballocs_register_gc_policy does: a store out of the table, or the result and the state
pub data Registered : Type 0 where
  out_of_bounds : Registered
  returned : ℤ → Lifetimes → Registered

-- __liballocs_register_gc_policy, for a table of `lifetime_policies` entries
unfoldable pub register_gc_policy :
    (lifetime_policies : ℕ) (addref delref : ℕ) → Lifetimes → Registered
register_gc_policy lifetime_policies addref delref s =
    let id = s.last_free_lifetime_policy_id in
    let s' = record s { last_free_lifetime_policy_id = id + 1 } in
    if ltb lifetime_policies id
    then returned (negsuc 0) s'
    else if leb lifetime_policies id
    then out_of_bounds
    else returned (pos id) (record s' {
      lifetime_policies =
          update s.lifetime_policies id (record { addref = addref; delref = delref });
    })

-- what the function takes from the rest of the library: the bounds of user addresses, the leaf
-- allocator for an address and its big allocation, whether an allocator handles lifetime inserts,
-- and the start of the chunk that its get_info reports, `none` for an error
pub record Allocators : Type 0 where
  pub minimum_user_address : ℕ
  pub maximum_user_address : ℕ
  pub leaf_allocator_for : ℕ → Option (ℕ × ℕ)
  pub handle_lifetime_insert : ℕ → Bool
  pub get_info : (allocator obj bigalloc : ℕ) → Option ℕ

module _ (al : Allocators) where
  -- get_lifetime_insert_info: the start of the chunk whose insert it returns
  unfoldable pub get_lifetime_insert_info : ℕ → Option ℕ
  get_lifetime_insert_info obj =
      if ltb obj al.minimum_user_address || ltb al.maximum_user_address obj
      then none
      else elim (al.leaf_allocator_for obj) [
        | none ↦ none
        | some (a, b) ↦ if not (al.handle_lifetime_insert a) then none else al.get_info a obj b
      ]

-- whether one of the first n bits is set
unfoldable pub any_bit : (n : ℕ) → (ℕ → Bool) → Bool
any_bit zero bits = false
any_bit (suc n) bits = bits n || any_bit n bits

module _ (width : ℕ) where
  -- `*lti |= LIFETIME_POLICY_FLAG(policy_id)` on the insert of a chunk of `width` bits
  unfoldable pub attach_to_chunk : (policy_id chunk : ℕ) → Lifetimes → Lifetimes
  attach_to_chunk policy_id c s =
      let bits = s.inserts c in
      record s {
        inserts =
            update s.inserts c (if ltb policy_id width then update bits policy_id true else bits);
      }

  -- what the detachment does if there is an insert
  unfoldable pub detach_from_chunk : (policy_id chunk : ℕ) → Lifetimes → Lifetimes
  unfolding any_bit
  detach_from_chunk policy_id c s =
      let bits = update (s.inserts c) policy_id false in
      record s {
        inserts = update s.inserts c bits;
        freed = if not (any_bit width bits) then c ∷ s.freed else s.freed;
      }

module _ (al : Allocators) (width : ℕ) where
  -- __liballocs_attach_lifetime_policy
  unfoldable pub attach_lifetime_policy : (policy_id obj : ℕ) → Lifetimes → Lifetimes
  unfolding get_lifetime_insert_info attach_to_chunk
  attach_lifetime_policy policy_id obj s = elim (get_lifetime_insert_info al obj) [
    | none ↦ s
    | some c ↦ attach_to_chunk width policy_id c s
  ]

  -- __liballocs_detach_lifetime_policy
  unfoldable pub detach_lifetime_policy : (policy_id obj : ℕ) → Lifetimes → Lifetimes
  unfolding get_lifetime_insert_info detach_from_chunk
  detach_lifetime_policy policy_id obj s = elim (get_lifetime_insert_info al obj) [
    | none ↦ s
    | some c ↦ detach_from_chunk width policy_id c s
  ]

module _ (callback : Call → Lifetimes → Lifetimes) where
  -- a call, which the state remembers
  unfoldable pub call : Call → Lifetimes → Lifetimes
  call c s = callback c (record s { calls = c ∷ s.calls })

  -- the loop over the policies of the old value, whose bits were saved
  unfoldable pub delrefs : (left i : ℕ) (bits : ℕ → Bool) (target dest : ℕ) → Lifetimes → Lifetimes
  unfolding call
  delrefs zero i bits target dest s = s
  delrefs (suc left) i bits target dest s = delrefs left (i + 1) bits target dest (
      if bits i
      then call (record { callback = (s.lifetime_policies i).delref; target = target; from = dest })
          s
      else s)

  -- the loop over the policies of the new value, whose bits are read in each round
  unfoldable pub addrefs : (left i target dest : ℕ) → Lifetimes → Lifetimes
  unfolding call
  addrefs zero i target dest s = s
  addrefs (suc left) i target dest s = addrefs left (i + 1) target dest (
      if s.inserts target i
      then call (record { callback = (s.lifetime_policies i).addref; target = target; from = dest })
          s
      else s)

  -- HAS_LIFETIME_POLICIES_ATTACHED: a bit other than that of manual deallocation is set
  unfoldable pub has_lifetime_policies_attached : (width : ℕ) → (ℕ → Bool) → Bool
  unfolding any_bit
  has_lifetime_policies_attached width bits = any_bit width (update bits 0 false)

  -- __notify_ptr_write for a place that holds old_val; a callback may free chunks, so what the
  -- allocators answer depends on the state
  unfoldable pub notify_ptr_write :
      (al : Lifetimes → Allocators) (width lifetime_policies : ℕ) (dest old_val val : ℕ)
      → Lifetimes
      → Lifetimes
  unfolding delrefs addrefs has_lifetime_policies_attached get_lifetime_insert_info
  notify_ptr_write al width lifetime_policies dest old_val val s =
      let s1 : Lifetimes = elim (get_lifetime_insert_info (al s) old_val) [
        | none ↦ s
        | some c ↦
            if has_lifetime_policies_attached width (s.inserts c)
            then delrefs (lifetime_policies - 1) 1 (s.inserts c) c dest s
            else s
      ] in
      elim (get_lifetime_insert_info (al s1) val) [
        | none ↦ s1
        | some c ↦
            if has_lifetime_policies_attached width (s1.inserts c)
            then addrefs (lifetime_policies - 1) 1 c dest s1
            else s1
      ]
