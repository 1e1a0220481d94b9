-- ===== src/Common/Tests.antt =====
-- Boolean tests on the native numbers, the conditional, and updates of a table.
use Prim.Native.Nat.{ℕ, ◌≤◌, ◌<◌, compare, Ordering}
use mathlib.Core.Path.{◌≡◌, refl, ap, ◌∙◌}
use mathlib.Core.Logic.{◌↔◌, ◌⊎◌, inl, inr}
use mathlib.Core.Bool.{Bool, true, false}
use mathlib.Core.Option.{Option, none, some}
use native.Mathlib.Omega.{arith}

abbrev pub ltb : ℕ → ℕ → Bool
ltb a b = elim (compare a b) [ Ordering.lt ↦ true | _ ↦ false ]

abbrev pub leb : ℕ → ℕ → Bool
leb a b = elim (compare a b) [ Ordering.gt ↦ false | _ ↦ true ]

infix 50 ◌==◌
abbrev pub ◌==◌ : ℕ → ℕ → Bool
a == b = elim (compare a b) [ Ordering.eq ↦ true | _ ↦ false ]

infix 1 if◌then◌else◌
abbrev pub if◌then◌else◌ {ℓ} : {A : Type ℓ} → Bool → A → A → A
if true then x else y = x
if false then x else y = y

-- `t[i] = v`
abbrev pub update {ℓ} : {A : Type ℓ} → (ℕ → A) → ℕ → A → ℕ → A
update t i v j = if j == i then v else t j

pub ==_iff : (a b : ℕ) → ((a == b) ≡ true) ↔ (a ≡ b)
==_iff a b = ground arith

pub ==_false : (a b : ℕ) → ((a == b) ≡ false) ↔ (a ≡ b → ⊥)
==_false a b = (λ h e. ground arith, λ h. ground arith)

pub lt→ltb : (a b : ℕ) → a < b → ltb a b ≡ true
lt→ltb a b h = ground arith

pub le→leb : (a b : ℕ) → a ≤ b → leb a b ≡ true
le→leb a b h = ground arith

-- To split on a computed value and keep the equation.
pub Bool-cases : (b : Bool) → (b ≡ true) ⊎ (b ≡ false)
Bool-cases true = inl refl
Bool-cases false = inr refl

pub Option-cases {ℓ} : {A : Type ℓ} (o : Option A) → (o ≡ none) ⊎ ((a : A) × (o ≡ some a))
Option-cases none = inl refl
Option-cases (some a) = inr (a, refl)

-- A run that may abort: `none` is a call of abort() or a failed assertion.
infixl 5 ◌>>=◌ ◌>>◌
abbrev pub ◌>>=◌ {ℓ κ} : {A : Type ℓ} {B : Type κ} → Option A → (A → Option B) → Option B
none >>= f = none
some a >>= f = f a

abbrev pub ◌>>◌ {ℓ} : {B : Type ℓ} → Option (Unit {0}) → Option B → Option B
m >> k = m >>= λ _. k

-- continue only if the test holds
abbrev pub require : Bool → Option (Unit {0})
require true = some tt
require false = none

pub require-true {ℓ} : {B : Type ℓ} (b : Bool) (m : Option B) → b ≡ true → (require b >> m) ≡ m
require-true true m h = refl
require-true false m h = ground arith

-- Inversion of a successful run.
pub require-eq_some {ℓ} :
    {B : Type ℓ} (b : Bool) (m : Option B) {x : B}
    → (require b >> m) ≡ some x
    → (b ≡ true) × (m ≡ some x)
require-eq_some true m h = (refl, h)
require-eq_some false m h = ground arith

pub >>=-eq_some {ℓ κ} :
    {A : Type ℓ} {B : Type κ} (m : Option A) (f : A → Option B) {x : B}
    → (m >>= f) ≡ some x
    → (a : A) × (m ≡ some a) × (f a ≡ some x)
>>=-eq_some none f h = cc
>>=-eq_some (some a) f h = (a, refl, h)

pub some_injective {ℓ} : {A : Type ℓ} {a b : A} → some a ≡ some b → a ≡ b
some_injective h = cc

pub >>=-some {ℓ κ} :
    {A : Type ℓ} {B : Type κ} {m : Option A} {a : A} (f : A → Option B) {r : Option B}
    → m ≡ some a
    → f a ≡ r
    → (m >>= f) ≡ r
>>=-some f e h = ap (λ m. m >>= f) e ∙ h
