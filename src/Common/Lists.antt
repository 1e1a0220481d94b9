-- ===== src/Common/Lists.antt =====
-- Lists of table indices: Boolean membership, distinctness, removal.
use Prim.Native.Nat.{ℕ, zero, suc, ◌+◌, ◌≤◌, ◌<◌}
use mathlib.Core.Path.{◌≡◌, refl}
use mathlib.Core.Bool.{Bool, true, false, ◌||◌}
use mathlib.Core.List.{List, [], ◌∷◌, ◌++◌, map}
use native.Mathlib.Omega.{arith}
use liballocs.Common.Tests.{◌==◌, if◌then◌else◌}

abbrev pub length {ℓ} : {A : Type ℓ} → List A → ℕ
length [] = 0
length (x ∷ xs) = suc (length xs)

abbrev pub has : ℕ → List ℕ → Bool
has a [] = false
has a (x ∷ xs) = (a == x) || has a xs

infix 40 ◌∈◌ ◌∉◌
abbrev pub ◌∈◌ : ℕ → List ℕ → Type 0
a ∈ xs = has a xs ≡ true

abbrev pub ◌∉◌ : ℕ → List ℕ → Type 0
a ∉ xs = has a xs ≡ false

-- no index occurs twice
abbrev pub Distinct : List ℕ → Type 0
Distinct [] = Unit {0}
Distinct (x ∷ xs) = (x ∉ xs) × Distinct xs

-- every element satisfies `P`
abbrev pub All {ℓ κ} : {A : Type ℓ} → (A → Type κ) → List A → Type κ
All P [] = Unit
All P (x ∷ xs) = P x × All P xs

-- the list less an index
abbrev pub erase : ℕ → List ℕ → List ℕ
erase a [] = []
erase a (x ∷ xs) = let rest = erase a xs in if a == x then xs else x ∷ rest

-- the last element, or `d`
abbrev pub last_or : ℕ → List ℕ → ℕ
last_or d [] = d
last_or d (x ∷ xs) = last_or x xs

pub length-append {ℓ} : {A : Type ℓ} (xs ys : List A) → length (xs ++ ys) ≡ length xs + length ys
length-append [] ys = omega arith
length-append (x ∷ xs) ys = omega (arith, length-append xs ys)

pub length-map {ℓ κ} :
    {A : Type ℓ} {B : Type κ} (f : A → B) (xs : List A) → length (map f xs) ≡ length xs
length-map f [] = refl
length-map f (x ∷ xs) = omega (arith, length-map f xs)

pub has-append : (a : ℕ) (xs ys : List ℕ) → has a (xs ++ ys) ≡ (has a xs || has a ys)
has-append a [] ys = refl
has-append a (x ∷ xs) ys = ground (arith, has-append a xs ys)

pub has-erase : (a b : ℕ) (xs : List ℕ) → a ∉ xs → a ∉ erase b xs
has-erase a b [] h = refl
has-erase a b (x ∷ xs) h = ground (arith, has-erase a b xs)

pub has-erase_ne : (a b : ℕ) (xs : List ℕ) → (a == b) ≡ false → has a (erase b xs) ≡ has a xs
has-erase_ne a b [] h = refl
has-erase_ne a b (x ∷ xs) h = ground (arith, has-erase_ne a b xs)

pub has-erase_self : (a : ℕ) (xs : List ℕ) → Distinct xs → a ∉ erase a xs
has-erase_self a [] d = refl
has-erase_self a (x ∷ xs) d = ground (arith, has-erase_self a xs d.1)

pub erase-Distinct : (a : ℕ) (xs : List ℕ) → Distinct xs → Distinct (erase a xs)
erase-Distinct a [] d = d
erase-Distinct a (x ∷ xs) d = ground (arith, erase-Distinct a xs d.1, has-erase x a xs)

pub erase-eq_of_not_mem : (a : ℕ) (xs : List ℕ) → a ∉ xs → erase a xs ≡ xs
erase-eq_of_not_mem a [] h = refl
erase-eq_of_not_mem a (x ∷ xs) h = ground (arith, erase-eq_of_not_mem a xs)

pub mem_of_erase : (a b : ℕ) (xs : List ℕ) → a ∈ erase b xs → a ∈ xs
mem_of_erase a b [] h = h
mem_of_erase a b (x ∷ xs) h = ground (arith, mem_of_erase a b xs)

pub length-erase : (a : ℕ) (xs : List ℕ) → length xs ≤ length (erase a xs) + 1
length-erase a [] = omega arith
length-erase a (x ∷ xs) = ground (arith, length-erase a xs)

-- distinct indices below `n` number at most `n`
pub length_le_of_bound :
    (n : ℕ) (xs : List ℕ) → Distinct xs → ((i : ℕ) → i ∈ xs → i < n) → length xs ≤ n
length_le_of_bound n [] d h = omega arith
length_le_of_bound zero (x ∷ xs) d h = ground (arith, h x)
length_le_of_bound (suc n) (x ∷ xs) d h =
    let rest =
      length_le_of_bound n (erase n (x ∷ xs)) (erase-Distinct n (x ∷ xs) d)
        (λ i m. ground (arith, h i, mem_of_erase i n (x ∷ xs), has-erase_self n (x ∷ xs) d)) in
    omega (arith, length-erase n (x ∷ xs))

-- the list less the indices that satisfy `p`
unfoldable pub remove_if : (ℕ → Bool) → List ℕ → List ℕ
remove_if p [] = []
remove_if p (x ∷ xs) = let rest = remove_if p xs in if p x then rest else x ∷ rest

pub remove_if-cong :
    (p q : ℕ → Bool) (xs : List ℕ)
    → ((j : ℕ) → j ∈ xs → p j ≡ q j)
    → remove_if p xs ≡ remove_if q xs
unfolding remove_if
remove_if-cong p q [] h = refl
remove_if-cong p q (x ∷ xs) h =
    ground (arith, h x, remove_if-cong p q xs (λ j m. h j (ground arith)))

pub remove_if-erase :
    (p : ℕ → Bool) (i : ℕ) (xs : List ℕ) → p i ≡ true → remove_if p (erase i xs) ≡ remove_if p xs
unfolding remove_if
remove_if-erase p i [] h = refl
remove_if-erase p i (x ∷ xs) h = ground (arith, remove_if-erase p i xs)

pub remove_if-none :
    (p : ℕ → Bool) (xs : List ℕ) → ((j : ℕ) → j ∈ xs → p j ≡ false) → remove_if p xs ≡ xs
unfolding remove_if
remove_if-none p [] h = refl
remove_if-none p (x ∷ xs) h = ground (arith, h x, remove_if-none p xs (λ j m. h j (ground arith)))
