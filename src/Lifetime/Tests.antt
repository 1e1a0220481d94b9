-- ===== src/Lifetime/Tests.antt =====
-- Two policies, one chunk that both are attached to, and copies of small objects.
use liballocs.Common.{
  ℕ, ◌+◌, ◌<◌, ◌≡◌, refl, true, ◌||◌, Option, none, some, ◌==◌, if◌then◌else◌, List, [], ◌∷◌, arith,
  ◌&&◌, ◌*◌, ◌/◌, not, leb, has,
}
use liballocs.Lifetime.{
  LifetimePolicy, Lifetimes, Call, Allocators, get_lifetime_insert_info, notify_ptr_write,
}
use liballocs.Lifetime.Policies.{Op, attach, detach, run, Kept, run-Kept}
use liballocs.Lifetime.Registry.{register_all, register_all-overruns}
use liballocs.Lifetime.Writes.{
  delref_each, NewValueTurns, policies_of, chunk_or, notify_ptr_write-calls,
}
use liballocs.Lifetime.Copy.{
  UniqType, address, composite, other, no_members, member, size_in_bytes, PtrWrite, notify_copy,
  need_copy_notification,
}
use liballocs.Lifetime.Copy.Slots.{WellSized, slots}
use liballocs.Lifetime.Copy.Loop.{all_slots, notify_copy-slots, notify_copy-overruns}

abbrev policy : LifetimePolicy
policy = record { addref = 0x100; delref = 0x200 }

-- a chunk at 0x5000 with two policies attached
abbrev one_chunk : Lifetimes
one_chunk = record {
  last_free_lifetime_policy_id = 3;
  lifetime_policies = λ i. policy;
  inserts = λ c i. (c == 0x5000) && ((i == 1) || (i == 2));
  freed = [];
  calls = [];
}

-- one allocator, which handles inserts, with chunks at multiples of 0x1000
abbrev one_allocator : Allocators
one_allocator = record {
  minimum_user_address = 0x1000;
  maximum_user_address = 0x7fff;
  leaf_allocator_for = λ obj. some (1, 1);
  handle_lifetime_insert = λ a. true;
  get_info = λ a obj b. some (obj / 0x1000 * 0x1000);
}

-- policies whose callbacks have the policy's number in them, and two chunks with policies attached
abbrev two_chunks : Lifetimes
two_chunks = record one_chunk {
  lifetime_policies = λ i. record { addref = 0x100 + i; delref = 0x200 + i };
  inserts = λ c i. ((c == 0x5000) && ((i == 1) || (i == 2))) || ((c == 0x6000) && (i == 1));
}

-- A delref callback detaches all policies of its chunk and frees it; an addref callback attaches policy
-- 3 to its chunk.
abbrev meddling : Call → Lifetimes → Lifetimes
meddling k s =
    if leb 0x200 k.callback
    then record s {
      inserts = λ c i. not (c == k.target) && s.inserts c i;
      freed = k.target ∷ s.freed;
    }
    else record s { inserts = λ c i. ((c == k.target) && (i == 3)) || s.inserts c i }

-- the allocator no longer answers for a chunk that was freed
abbrev still_there : Lifetimes → Allocators
still_there s = record one_allocator {
  get_info = λ a obj b. let c = obj / 0x1000 * 0x1000 in if has c s.freed then none else some c;
}

abbrev some_ops : List Op
some_ops = attach 3 0x5008 ∷ detach 1 0x5010 ∷ detach 3 0x5000 ∷ []

run-Kept_example : Kept 2 0x5000 one_chunk (run one_allocator 4 some_ops one_chunk)
unfolding get_lifetime_insert_info
run-Kept_example =
    run-Kept one_allocator 4 2 0x5000 some_ops one_chunk (omega arith) refl (tt, (refl, (refl, tt)))

notify_ptr_write-calls_example :
    let old = get_lifetime_insert_info (still_there two_chunks) 0x5008 in
    let s1 = delref_each meddling (chunk_or old) 0x3000 (policies_of 4 two_chunks old) two_chunks in
    NewValueTurns meddling 4 0x3000
      (get_lifetime_insert_info (still_there s1) 0x6000)
      s1
      (notify_ptr_write meddling still_there 4 4 0x3000 0x5008 0x6000 two_chunks)
notify_ptr_write-calls_example =
    notify_ptr_write-calls meddling 4 4 0x3000 (omega arith) (omega arith) still_there 0x5008 0x6000
      two_chunks

-- policy 2's delref is called although the first call freed the chunk, and policy 3's addref since the
-- one before attached it
notify_ptr_write_run :
    (notify_ptr_write meddling still_there 4 4 0x3000 0x5008 0x6000 two_chunks).calls
    ≡ record { callback = 0x103; target = 0x6000; from = 0x3000 }
      ∷ record { callback = 0x101; target = 0x6000; from = 0x3000 }
      ∷ record { callback = 0x202; target = 0x5000; from = 0x3000 }
      ∷ record { callback = 0x201; target = 0x5000; from = 0x3000 }
      ∷ []
unfolding notify_ptr_write
notify_ptr_write_run = refl

register_all-overruns_example : register_all 4 (policy ∷ policy ∷ []) one_chunk ≡ none
register_all-overruns_example =
    register_all-overruns 4 (policy ∷ policy ∷ []) one_chunk (omega arith) (omega arith)

-- an object of a number and a pointer, and a buffer of 32 bytes
abbrev pair_type : UniqType
pair_type = composite 16 (member 0 (other 8) (member 8 (address 8) no_members))

abbrev buffer_type : UniqType
buffer_type = other 32

abbrev two_pairs : ℕ → Option UniqType
two_pairs a = if (a == 0x4000) || (a == 0x4010) then some pair_type else none

notify_copy-slots_example :
    notify_copy two_pairs true 3 0x4000 0x5000 32
    ≡ (all_slots (pair_type ∷ pair_type ∷ []) 0x4000 0x5000, true)
unfolding WellSized
notify_copy-slots_example =
    notify_copy-slots two_pairs 3 0x4000 0x5000 32 (pair_type ∷ pair_type ∷ []) (omega arith)
      (omega arith)
      (
        refl,
        (omega arith, (omega arith, tt, (omega arith, refl, tt))),
        omega arith,
        omega arith,
        (
          refl,
          (omega arith, (omega arith, tt, (omega arith, refl, tt))),
          omega arith,
          omega arith,
          omega arith,
        ),
      )

abbrev buffer_and_pointer : ℕ → Option UniqType
buffer_and_pointer a =
    if a == 0x4000 then some buffer_type else if a == 0x4020 then some (address 8) else none

notify_copy-overruns_example :
    (w : PtrWrite) × (rest : List PtrWrite) × ((notify_copy buffer_and_pointer true 2 0x4000 0x5000
        8).0
      ≡ w ∷ rest)
    × (w.dest ≡ 0x4000 + size_in_bytes buffer_type)
    × (0x4000 + 8 < w.dest)
unfolding need_copy_notification
notify_copy-overruns_example =
    notify_copy-overruns buffer_and_pointer 0 0x4000 0x5000 8 buffer_type refl refl refl
      (omega arith) (omega arith) (omega arith)

slots_run :
    all_slots (pair_type ∷ pair_type ∷ []) 0x4000 0x5000
    ≡ record { dest = 0x4008; src = some 0x5008 } ∷ record { dest = 0x4018; src = some 0x5018 } ∷ []
unfolding slots
slots_run = refl
