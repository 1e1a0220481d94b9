-- ===== src/Addrlist/Tests.antt =====
-- A full list of one address that grows.
use liballocs.Common.{ℕ, ◌+◌, ◌≤◌, ◌≡◌, refl, ◌==◌, if◌then◌else◌, arith}
use liballocs.Addrlist.{Addrlist, contains, addrlist_add, addrlist_add-contains}

-- an array that keeps what it has
abbrev same_array : (ℕ → ℕ) → ℕ → ℕ → ℕ → ℕ
same_array t old new = t

abbrev single : Addrlist
single = record { count = 1; allocsz = 1; addrs = λ _. 0x400 }

addrlist_add-contains_example :
    ((addrlist_add same_array single 0x500).count ≤ (addrlist_add same_array single 0x500).allocsz)
    × (contains (addrlist_add same_array single 0x500) 0x500 ≡ (
        if contains single 0x500 == 0
        then (if 0x500 == 0x500 then 1 + 1 else 0)
        else contains single 0x500))
addrlist_add-contains_example =
    addrlist_add-contains same_array (λ t old new j a b. refl) single 0x500 0x500 (omega arith)
      (omega arith)

contains_run : contains (addrlist_add same_array single 0x500) 0x500 ≡ 2
unfolding contains addrlist_add
contains_run = refl
