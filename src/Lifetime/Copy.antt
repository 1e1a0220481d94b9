-- ===== src/Lifetime/Copy.antt =====
-- The notification of copied pointers in src/lifetime_policies.c. A type is what the macros of
-- uniqtype-defs.h, of another project, read from a struct uniqtype: its kind, its size, the length and
-- the element type of an array, the offsets and the types of members. A copy from the null pointer
-- stands for a free.
pub mod Slots
pub mod Loop
use liballocs.Common.{
  ℕ, zero, suc, ◌+◌, ◌-◌, ◌%◌, Bool, true, false, not, ◌&&◌, ◌||◌, Option, none, some, leb, ltb,
  ◌==◌, if◌then◌else◌, List, [], ◌∷◌, ◌++◌,
}

mutual
  pub data UniqType : Type 0 where
    address : (size : ℕ) → UniqType
    array : (size nelems : ℕ) → UniqType → UniqType
    composite : (size : ℕ) → Members → UniqType
    other : (size : ℕ) → UniqType

  pub data Members : Type 0 where
    no_members : Members
    member : (off : ℕ) → UniqType → Members → Members

-- UNIQTYPE_SIZE_IN_BYTES
abbrev pub size_in_bytes : UniqType → ℕ
size_in_bytes (address size) = size
size_in_bytes (array size nelems e) = size
size_in_bytes (composite size ms) = size
size_in_bytes (other size) = size

-- a call of __notify_ptr_write: the place written, and where the new value stands, if it is not null
pub record PtrWrite : Type 0 where
  pub dest : ℕ
  pub src : Option ℕ

unfoldable mutual
  -- need_copy_notification
  pub need_copy_notification : UniqType → Bool
  need_copy_notification (address size) = true
  need_copy_notification (array size nelems e) = need_copy_notification e
  need_copy_notification (composite size ms) = need_members ms
  need_copy_notification (other size) = false

  pub need_members : Members → Bool
  need_members no_members = false
  need_members (member off t ms) = need_copy_notification t || need_members ms

abbrev pub advance : Option ℕ → ℕ → Option ℕ
advance none n = none
advance (some src) n = some (src + n)

-- the calls that were made, and a size
abbrev pub Handled : Type 0
Handled = List PtrWrite × ℕ

-- the loop over the elements of an array; the size is what remains
unfoldable pub notify_elements :
    (notify : ℕ → Option ℕ → ℕ → Handled) (elemsize nelems dest : ℕ) (src : Option ℕ)
    (remainsize : ℕ)
    → Handled
notify_elements notify elemsize zero dest src remainsize = ([], remainsize)
notify_elements notify elemsize (suc nelems) dest src remainsize =
    let cursize = if ltb elemsize remainsize then elemsize else remainsize in
    let rest : Handled =
      notify_elements notify elemsize nelems (dest + cursize) (advance src cursize)
        (remainsize - cursize) in
    if remainsize == 0 then ([], remainsize) else ((notify dest src cursize).0 ++ rest.0, rest.1)

unfoldable mutual
  -- notify_copy_for_type: the size is that of the data handled; sums of unsigned long wrap around
  pub notify_copy_for_type : UniqType → ℕ → Option ℕ → ℕ → Handled
  notify_copy_for_type (address n) dest src size =
      if not (need_copy_notification (address n))
      then ([], n)
      else if ltb size 8
      then ([], size)
      else (record { dest = dest; src = src } ∷ [], 8)
  notify_copy_for_type (array n nelems e) dest src size =
      let loop = notify_elements (notify_copy_for_type e) (size_in_bytes e) nelems dest src size in
      if not (need_copy_notification (array n nelems e)) then ([], n) else (loop.0, size - loop.1)
  notify_copy_for_type (composite n ms) dest src size =
      let calls = notify_members ms dest src size in
      if not (need_copy_notification (composite n ms))
      then ([], n)
      else (calls, if ltb n size then n else size)
  notify_copy_for_type (other n) dest src size = ([], n)

  -- the loop over the members
  pub notify_members : Members → ℕ → Option ℕ → ℕ → List PtrWrite
  notify_members no_members dest src size = []
  notify_members (member off t ms) dest src size =
      let maxmembsize = (size + 18446744073709551616 - off) % 18446744073709551616 in
      let membsize = if ltb maxmembsize (size_in_bytes t) then maxmembsize else size_in_bytes t in
      (notify_copy_for_type t (dest + off) (advance src off) membsize).0
      ++ notify_members ms dest src size

-- try_get_alloc_type, from the leaf allocator for an address with its big allocation, and from the
-- type that the allocator's get_info reports, `none` for an error or no type. The counter of
-- unrecognised allocation sites, which the function restores, is not part of the model.
unfoldable pub try_get_alloc_type :
    (leaf_allocator_for : ℕ → Option (ℕ × ℕ))
    (get_info : (allocator obj bigalloc : ℕ) → Option UniqType)
    → ℕ
    → Option UniqType
try_get_alloc_type leaf_allocator_for get_info obj = elim (leaf_allocator_for obj) [
  | none ↦ none
  | some (a, b) ↦ get_info a obj b
]

-- The calls so far, and whether the function returned: otherwise the fuel ran out.
abbrev pub Run : Type 0
Run = List PtrWrite × Bool

-- the loop of __notify_copy; `type_at` is try_get_alloc_type, the type of the object at an address
unfoldable pub notify_copy_loop : (type_at : ℕ → Option UniqType) (fuel dest src n : ℕ) → Run
unfolding notify_copy_for_type
notify_copy_loop type_at zero dest src n = ([], false)
notify_copy_loop type_at (suc fuel) dest src n = elim (leb 8 n) [
  | false ↦ ([], true)
  | true ↦ elim (type_at dest) [
    | none ↦ ([], true)
    | some typ ↦
        let handled = notify_copy_for_type typ dest (some src) n in
        let rest : Run =
          notify_copy_loop type_at fuel (dest + handled.1) (src + handled.1)
            ((n + 18446744073709551616 - handled.1) % 18446744073709551616) in
        (handled.0 ++ rest.0, rest.1)
  ]
]

-- __notify_copy
unfoldable pub notify_copy :
    (type_at : ℕ → Option UniqType) (is_initialized : Bool) (fuel dest src n : ℕ) → Run
unfolding notify_copy_loop
notify_copy type_at is_initialized fuel dest src n =
    if not is_initialized then ([], true) else notify_copy_loop type_at fuel dest src n

-- __notify_free
unfoldable pub notify_free :
    (type_at : ℕ → Option UniqType) (is_initialized : Bool) (dest : ℕ) → List PtrWrite
unfolding notify_copy_for_type
notify_free type_at is_initialized dest = if not is_initialized then [] else elim (type_at dest) [
  | none ↦ []
  | some typ ↦ (notify_copy_for_type typ dest none (size_in_bytes typ)).0
]
