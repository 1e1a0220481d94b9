-- ===== src/Lifetime/Copy/Loop.antt =====
-- The loop of __notify_copy over the objects that a copy writes to.
use liballocs.Common.{
  ℕ, zero, suc, ◌+◌, ◌-◌, ◌%◌, ◌≤◌, ◌<◌, ◌≡◌, refl, ap, ◌∙◌, true, false, Option, some, leb, List,
  [], ◌∷◌, ◌++◌, arith, length,
}
use liballocs.Lifetime.Copy.{
  UniqType, address, array, composite, other, size_in_bytes, PtrWrite, need_copy_notification, Run,
  notify_copy_for_type, notify_copy_loop, notify_copy,
}
use liballocs.Lifetime.Copy.Slots.{slots, WellSized, notify-slots}

-- 2 ^ 64
abbrev word : ℕ
word = 18446744073709551616

-- the pointers of objects one after another
abbrev pub all_slots : List UniqType → ℕ → ℕ → List PtrWrite
all_slots [] dest src = []
all_slots (t ∷ ts) dest src =
    slots t dest (some src) ++ all_slots ts (dest + size_in_bytes t) (src + size_in_bytes t)

-- The n bytes from an address on hold objects of these types one after another, and less than a
-- pointer's size more.
abbrev pub Laid : (ℕ → Option UniqType) → (dest n : ℕ) → List UniqType → Type 0
Laid type_at dest n [] = n < 8
Laid type_at dest n (t ∷ ts) =
    (type_at dest ≡ some t)
    × WellSized t
    × (8 ≤ n)
    × (size_in_bytes t ≤ n)
    × Laid type_at (dest + size_in_bytes t) (n - size_in_bytes t) ts

notify_copy_loop-step :
    (type_at : ℕ → Option UniqType) (fuel dest src n k : ℕ) (t : UniqType) (calls : List PtrWrite)
    → leb 8 n ≡ true
    → type_at dest ≡ some t
    → notify_copy_for_type t dest (some src) n ≡ (calls, k)
    → let rest = notify_copy_loop type_at fuel (dest + k) (src + k) ((n + word - k) % word) in
      notify_copy_loop type_at (suc fuel) dest src n ≡ (calls ++ rest.0, rest.1)
unfolding notify_copy_loop
notify_copy_loop-step type_at fuel dest src n k t calls z e h = ground arith

notify_copy_loop-slots :
    (type_at : ℕ → Option UniqType) (fuel dest src n : ℕ) (ts : List UniqType)
    → n < word
    → length ts < fuel
    → Laid type_at dest n ts
    → notify_copy_loop type_at fuel dest src n ≡ (all_slots ts dest src, true)
unfolding notify_copy_loop
notify_copy_loop-slots type_at zero dest src n ts lt f l = absurd (omega arith)
notify_copy_loop-slots type_at (suc fuel) dest src n [] lt f l = ground arith
notify_copy_loop-slots type_at (suc fuel) dest src n (t ∷ ts) lt f l =
    let size = size_in_bytes t in
    let left : (n + word - size) % word ≡ n - size = ground arith in
    let rest =
      notify_copy_loop-slots type_at fuel (dest + size) (src + size) (n - size) ts (omega arith)
        (omega arith) l.4 in
    notify_copy_loop-step type_at fuel dest src n size t (slots t dest (some src)) (ground arith)
      l.0 (notify-slots t dest (some src) n l.1 lt l.3)
    ∙ ap
        (λ k.
          let rest = notify_copy_loop type_at fuel (dest + size) (src + size) k in
          (slots t dest (some src) ++ rest.0, rest.1))
        left
    ∙ ap (λ (r : Run). (slots t dest (some src) ++ r.0, r.1)) rest

-- If the library is initialised and the n bytes of a copy's destination, fewer than 2 ^ 64, hold
-- whole objects one after another, whose types have sizes as a compiler lays them out, and less than
-- a pointer's size more, __notify_copy ends after at most one round for each object and one more, and
-- has called __notify_ptr_write for each pointer in them once, in order, with the place in the source
-- that corresponds, and for nothing else.
pub notify_copy-slots :
    (type_at : ℕ → Option UniqType) (fuel dest src n : ℕ) (ts : List UniqType)
    → n < 18446744073709551616
    → length ts < fuel
    → Laid type_at dest n ts
    → notify_copy type_at true fuel dest src n ≡ (all_slots ts dest src, true)
unfolding notify_copy
notify_copy-slots type_at fuel dest src n ts lt f l =
    notify_copy_loop-slots type_at fuel dest src n ts lt f l

pointerless-Handled :
    (t : UniqType) (dest : ℕ) (src : Option ℕ) (n : ℕ)
    → need_copy_notification t ≡ false
    → notify_copy_for_type t dest src n ≡ ([], size_in_bytes t)
unfolding notify_copy_for_type need_copy_notification
pointerless-Handled (address k) dest src n h = cc
pointerless-Handled (array k nelems e) dest src n h = ground arith
pointerless-Handled (composite k ms) dest src n h = ground arith
pointerless-Handled (other k) dest src n h = refl

-- If the library is initialised, a copy of at least eight bytes goes to the begin of an object whose
-- type holds no pointers and is larger than the copy, of fewer than 2 ^ 64 bytes, and a pointer
-- stands right after that object, then __notify_copy, given two rounds or more, calls
-- __notify_ptr_write first for that pointer, which lies beyond the bytes that are copied.
pub notify_copy-overruns :
    (type_at : ℕ → Option UniqType) (fuel dest src n : ℕ) (t : UniqType)
    → need_copy_notification t ≡ false
    → type_at dest ≡ some t
    → type_at (dest + size_in_bytes t) ≡ some (address 8)
    → 8 ≤ n
    → n < size_in_bytes t
    → size_in_bytes t < 18446744073709551616
    → (w : PtrWrite) × (rest : List PtrWrite) × ((notify_copy type_at true
          (suc (suc fuel))
          dest
          src
          n).0
        ≡ w ∷ rest)
      × (w.dest ≡ dest + size_in_bytes t)
      × (dest + n < w.dest)
unfolding notify_copy WellSized slots
notify_copy-overruns type_at fuel dest src n t none_inside e e' big small lt =
    let size = size_in_bytes t in
    let left = (n + word - size) % word in
    let w : PtrWrite = record { dest = dest + size; src = some (src + size) } in
    let next =
      notify_copy_loop-step type_at fuel (dest + size) (src + size) left 8 (address 8) (w ∷ [])
        (ground arith) e'
        (notify-slots (address 8) (dest + size) (some (src + size)) left refl (ground arith)
          (ground arith)) in
    let first =
      notify_copy_loop-step type_at (suc fuel) dest src n size t [] (ground arith) e
        (pointerless-Handled t dest (some src) n none_inside) in
    (
      w,
      (notify_copy_loop type_at fuel (dest + size + 8) (src + size + 8)
          ((left + word - 8) % word)).0,
      ap (λ (r : Run). r.0) (first ∙ ap (λ (r : Run). (r.0, r.1)) next),
      refl,
      omega arith,
    )
