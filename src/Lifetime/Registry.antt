-- ===== src/Lifetime/Registry.antt =====
-- How many policies can be registered.
use liballocs.Common.{
  ℕ, ◌+◌, ◌≤◌, ◌<◌, ◌≡◌, refl, ◌∙◌, Option, none, some, ◌==◌, update, List, [], ◌∷◌, arith, length,
  Bool-cases, inl, inr,
}
use liballocs.Common.Int.{ℤ, pos}
use liballocs.Lifetime.{LifetimePolicy, Lifetimes, out_of_bounds, returned, register_gc_policy}

-- registrations one after another: the results and the state, or `none` for a store out of the table
unfoldable pub register_all :
    (size : ℕ) → List LifetimePolicy → Lifetimes → Option (List ℤ × Lifetimes)
register_all size [] s = some ([], s)
register_all size (x ∷ xs) s = elim (register_gc_policy size x.addref x.delref s) [
  | out_of_bounds ↦ none
  | returned r s' ↦ elim (register_all size xs s') [
    | none ↦ none
    | some (rs, s'') ↦ some (r ∷ rs, s'')
  ]
]

-- the results of registrations from a policy number on
abbrev pub numbers : ℕ → List LifetimePolicy → List ℤ
numbers id [] = []
numbers id (x ∷ xs) = pos id ∷ numbers (id + 1) xs

-- the table has the policies from an index on
abbrev pub Table : (ℕ → LifetimePolicy) → ℕ → List LifetimePolicy → Type 0
Table t id [] = Unit {0}
Table t id (x ∷ xs) = (t id ≡ x) × Table t (id + 1) xs

register_one :
    (size : ℕ) (x : LifetimePolicy) (s : Lifetimes)
    → s.last_free_lifetime_policy_id < size
    → register_gc_policy size x.addref x.delref s
      ≡ returned (pos s.last_free_lifetime_policy_id) (record s {
        last_free_lifetime_policy_id = s.last_free_lifetime_policy_id + 1;
        lifetime_policies = update s.lifetime_policies s.last_free_lifetime_policy_id x;
      })
unfolding register_gc_policy
register_one size x s lt = ground arith

register_out :
    (size : ℕ) (x : LifetimePolicy) (s : Lifetimes)
    → s.last_free_lifetime_policy_id ≡ size
    → register_gc_policy size x.addref x.delref s ≡ out_of_bounds
unfolding register_gc_policy
register_out size x s e = ground arith

register_all_step :
    (size : ℕ) (x : LifetimePolicy) (xs : List LifetimePolicy) (s s1 s2 : Lifetimes) (r : ℤ)
    (rs : List ℤ)
    → register_gc_policy size x.addref x.delref s ≡ returned r s1
    → register_all size xs s1 ≡ some (rs, s2)
    → register_all size (x ∷ xs) s ≡ some (r ∷ rs, s2)
unfolding register_all
register_all_step size x xs s s1 s2 r rs e h = ground arith

register_all_fails :
    (size : ℕ) (x : LifetimePolicy) (xs : List LifetimePolicy) (s s1 : Lifetimes) (r : ℤ)
    → register_gc_policy size x.addref x.delref s ≡ returned r s1
    → register_all size xs s1 ≡ none
    → register_all size (x ∷ xs) s ≡ none
unfolding register_all
register_all_fails size x xs s s1 r e h = ground arith

-- the state after one registration
abbrev after_one : LifetimePolicy → Lifetimes → Lifetimes
after_one x s = record s {
  last_free_lifetime_policy_id = s.last_free_lifetime_policy_id + 1;
  lifetime_policies = update s.lifetime_policies s.last_free_lifetime_policy_id x;
}

-- As long as the next number and those of further policies are below the size of the table,
-- registering policies gives them these numbers, in order, and puts them into the table under their
-- numbers, and leaves what the table has below.
pub register_all-Table :
    (size : ℕ) (xs : List LifetimePolicy) (s : Lifetimes)
    → s.last_free_lifetime_policy_id + length xs ≤ size
    → (s' : Lifetimes) × (register_all size xs s
        ≡ some (numbers s.last_free_lifetime_policy_id xs, s'))
      × Table s'.lifetime_policies s.last_free_lifetime_policy_id xs
      × ((k : ℕ)
          → k < s.last_free_lifetime_policy_id
          → s'.lifetime_policies k ≡ s.lifetime_policies k)
unfolding register_all
register_all-Table size [] s fits = (s, refl, tt, λ k lt. refl)
register_all-Table size (x ∷ xs) s fits =
    let id = s.last_free_lifetime_policy_id in
    let (s', run, table, below) = register_all-Table size xs (after_one x s) (omega arith) in
    (
      s',
      register_all_step size x xs s (after_one x s) s' (pos id) (numbers (id + 1) xs)
          (register_one size x s (omega arith)) run,
      (below id (omega arith) ∙ ground arith, table),
      λ k lt. below k (omega arith) ∙ ground arith,
    )

-- Registering so many policies that the last of their numbers is the size of the table or more,
-- from a number that is not above it, stores a policy out of the table.
pub register_all-overruns :
    (size : ℕ) (xs : List LifetimePolicy) (s : Lifetimes)
    → s.last_free_lifetime_policy_id ≤ size
    → size < s.last_free_lifetime_policy_id + length xs
    → register_all size xs s ≡ none
unfolding register_all
register_all-overruns size [] s le over = absurd (omega arith)
register_all-overruns size (x ∷ xs) s le over =
    elim (Bool-cases (s.last_free_lifetime_policy_id == size)) [
      | inl z ↦ let bad = register_out size x s (ground arith) in ground arith
      | inr z ↦
          register_all_fails size x xs s (after_one x s) (pos s.last_free_lifetime_policy_id)
            (register_one size x s (ground arith))
            (register_all-overruns size xs (after_one x s) (ground arith) (omega arith))
    ]
