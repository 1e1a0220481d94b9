-- ===== src/Lifetime/Copy/Slots.antt =====
-- The pointers that an object of a type holds, and the calls that a copy of the whole object makes.
use native.Mathlib.Nat.{suc-mul, zero-mul}
use liballocs.Common.{
  ℕ, zero, suc, ◌+◌, ◌-◌, ◌*◌, ◌%◌, ◌≤◌, ◌<◌, ◌≡◌, refl, ap, sym, Bool, true, false, not, Option,
  ltb, ◌==◌, if◌then◌else◌, List, [], ◌∷◌, ◌++◌, arith,
}
use liballocs.Lifetime.Copy.{
  UniqType, address, array, composite, other, Members, no_members, member, size_in_bytes, PtrWrite,
  need_copy_notification, need_members, advance, Handled, notify_elements, notify_copy_for_type,
  notify_members,
}

-- the pointers of nelems elements, one after another
unfoldable pub repeat_slots :
    (f : ℕ → Option ℕ → List PtrWrite) (elemsize nelems dest : ℕ) (src : Option ℕ) → List PtrWrite
repeat_slots f elemsize zero dest src = []
repeat_slots f elemsize (suc nelems) dest src =
    f dest src ++ repeat_slots f elemsize nelems (dest + elemsize) (advance src elemsize)

unfoldable mutual
  -- the pointers of an object at an address, in order
  pub slots : UniqType → ℕ → Option ℕ → List PtrWrite
  slots (address n) dest src = record { dest = dest; src = src } ∷ []
  slots (array n nelems e) dest src = repeat_slots (slots e) (size_in_bytes e) nelems dest src
  slots (composite n ms) dest src = member_slots ms dest src
  slots (other n) dest src = []

  pub member_slots : Members → ℕ → Option ℕ → List PtrWrite
  member_slots no_members dest src = []
  member_slots (member off t ms) dest src =
      slots t (dest + off) (advance src off) ++ member_slots ms dest src

unfoldable mutual
  -- Sizes are as a compiler lays types out: a pointer has eight bytes, an array is full of elements
  -- that are not empty, members lie within their object, and objects have fewer than 2 ^ 64 bytes.
  pub WellSized : UniqType → Type 0
  WellSized (address n) = n ≡ 8
  WellSized (array n nelems e) =
      (n ≡ nelems * size_in_bytes e)
      × (0 < size_in_bytes e)
      × (size_in_bytes e < 18446744073709551616)
      × WellSized e
  WellSized (composite n ms) = (n < 18446744073709551616) × Fit n ms
  WellSized (other n) = Unit {0}

  pub Fit : ℕ → Members → Type 0
  Fit n no_members = Unit {0}
  Fit n (member off t ms) = (off + size_in_bytes t ≤ n) × WellSized t × Fit n ms

repeat_slots-nil :
    (f : ℕ → Option ℕ → List PtrWrite) (elemsize nelems dest : ℕ) (src : Option ℕ)
    → ((d : ℕ) (s : Option ℕ) → f d s ≡ [])
    → repeat_slots f elemsize nelems dest src ≡ []
unfolding repeat_slots
repeat_slots-nil f elemsize zero dest src h = refl
repeat_slots-nil f elemsize (suc nelems) dest src h =
    rw (h dest src) (repeat_slots-nil f elemsize nelems (dest + elemsize) (advance src elemsize) h)

-- Types without need of notification hold no pointers.
mutual
  unfolding slots need_copy_notification

  slots-nil :
      (t : UniqType) (dest : ℕ) (src : Option ℕ)
      → need_copy_notification t ≡ false
      → slots t dest src ≡ []
  slots-nil (address n) dest src h = cc
  slots-nil (array n nelems e) dest src h =
      repeat_slots-nil (slots e) (size_in_bytes e) nelems dest src (λ d s. slots-nil e d s h)
  slots-nil (composite n ms) dest src h = member_slots-nil ms dest src h
  slots-nil (other n) dest src h = refl

  member_slots-nil :
      (ms : Members) (dest : ℕ) (src : Option ℕ)
      → need_members ms ≡ false
      → member_slots ms dest src ≡ []
  member_slots-nil no_members dest src h = refl
  member_slots-nil (member off t ms) dest src h =
      let first : need_copy_notification t ≡ false = ground arith in
      let rest : need_members ms ≡ false = ground arith in
      rw (slots-nil t (dest + off) (advance src off) first) (member_slots-nil ms dest src rest)

notify_elements-repeat_slots :
    (notify : ℕ → Option ℕ → ℕ → Handled) (f : ℕ → Option ℕ → List PtrWrite)
    (elemsize nelems dest : ℕ) (src : Option ℕ) (size more : ℕ)
    → 0 < elemsize
    → size ≡ nelems * elemsize + more
    → ((d : ℕ) (s : Option ℕ) → (notify d s elemsize).0 ≡ f d s)
    → notify_elements notify elemsize nelems dest src size
      ≡ (repeat_slots f elemsize nelems dest src, more)
unfolding notify_elements repeat_slots
notify_elements-repeat_slots notify f elemsize zero dest src size more p e h =
    ap (λ n. ([], n)) (omega (arith, e, zero-mul elemsize))
notify_elements-repeat_slots notify f elemsize (suc nelems) dest src size more p e h =
    let e' : size ≡ nelems * elemsize + elemsize + more =
      omega (arith, e, suc-mul nelems elemsize) in
    let cur : (if ltb elemsize size then elemsize else size) ≡ elemsize = ground arith in
    let some_left : (size == 0) ≡ false = ground arith in
    let rest =
      notify_elements-repeat_slots notify f elemsize nelems (dest + elemsize) (advance src elemsize)
        (size - elemsize) more p (omega arith) h in
    rw (some_left, cur, rest, h dest src) refl

-- the cases of the function
notify-address :
    (n dest : ℕ) (src : Option ℕ) (size : ℕ)
    → n ≡ 8
    → n ≤ size
    → notify_copy_for_type (address n) dest src size ≡ (record { dest = dest; src = src } ∷ [], n)
unfolding notify_copy_for_type need_copy_notification
notify-address n dest src size e le =
    let big : ltb size 8 ≡ false = ground arith in rw (big, e) refl

array-Handled :
    (need : Bool) (n size : ℕ) (loop : Handled) (calls : List PtrWrite)
    → n ≤ size
    → loop ≡ (calls, size - n)
    → (need ≡ false → calls ≡ [])
    → ◌≡◌ {A = Handled} (if not need then ([], n) else (loop.0, size - loop.1)) (calls, n)
array-Handled true n size loop calls le e h = rw e (ap (λ k. (calls, k)) (omega arith))
array-Handled false n size loop calls le e h = ap (λ cs. (cs, n)) (sym (h refl))

composite-Handled :
    (need : Bool) (n size : ℕ) (made calls : List PtrWrite)
    → n ≤ size
    → made ≡ calls
    → (need ≡ false → calls ≡ [])
    → ◌≡◌ {A = Handled}
        (if not need then ([], n) else (made, if ltb n size then n else size))
        (calls, n)
composite-Handled true n size made calls le e h =
    let same : (if ltb n size then n else size) ≡ n = ground arith in rw (same, e) refl
composite-Handled false n size made calls le e h = ap (λ cs. (cs, n)) (sym (h refl))

-- the size that is left for a member that fits
member_size :
    (n off size : ℕ)
    → n < 18446744073709551616
    → off + size ≤ n
    → (if ltb ((n + 18446744073709551616 - off) % 18446744073709551616) size
        then (n + 18446744073709551616 - off) % 18446744073709551616
        else size)
      ≡ size
member_size n off size h fits = ground arith

mutual
  unfolding slots WellSized notify_copy_for_type need_copy_notification

  -- The copy of a whole object, and maybe of more.
  pub notify-slots :
      (t : UniqType) (dest : ℕ) (src : Option ℕ) (size : ℕ)
      → WellSized t
      → size < 18446744073709551616
      → size_in_bytes t ≤ size
      → notify_copy_for_type t dest src size ≡ (slots t dest src, size_in_bytes t)
  notify-slots (address n) dest src size w lt le = notify-address n dest src size w le
  notify-slots (array n nelems e) dest src size w lt le =
      array-Handled (need_copy_notification e) n size
        (notify_elements (notify_copy_for_type e) (size_in_bytes e) nelems dest src size)
        (repeat_slots (slots e) (size_in_bytes e) nelems dest src) le
        (notify_elements-repeat_slots (notify_copy_for_type e) (slots e) (size_in_bytes e) nelems
          dest src size (size - n) w.1 (omega (arith, w.0))
          (λ d s.
            ap (λ (h : Handled). h.0) (notify-slots e d s (size_in_bytes e) w.3 w.2 (omega arith))))
        (λ h. slots-nil (array n nelems e) dest src h)
  notify-slots (composite n ms) dest src size w lt le =
      composite-Handled (need_members ms) n size (notify_members ms dest src size)
        (member_slots ms dest src) le (notify_members-slots n ms dest src size lt le w.1)
        (λ h. slots-nil (composite n ms) dest src h)
  notify-slots (other n) dest src size w lt le = refl

  notify_members-slots :
      (n : ℕ) (ms : Members) (dest : ℕ) (src : Option ℕ) (size : ℕ)
      → size < 18446744073709551616
      → n ≤ size
      → Fit n ms
      → notify_members ms dest src size ≡ member_slots ms dest src
  notify_members-slots n no_members dest src size lt le w = refl
  notify_members-slots n (member off t ms) dest src size lt le w =
      let part = member_size size off (size_in_bytes t) lt (omega (arith, w.0)) in
      let first =
        ap (λ (h : Handled). h.0)
          (notify-slots t (dest + off) (advance src off) (size_in_bytes t) w.1 (omega (arith, w.0))
            (omega arith)) in
      rw (part, first)
        (ap (λ cs. slots t (dest + off) (advance src off) ++ cs)
          (notify_members-slots n ms dest src size lt le w.2))
