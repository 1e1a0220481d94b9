-- ===== src/Cache.antt =====
-- The memory range cache of include/liballocs_cil_inlines.h (lines 189-440) and src/cache.c: a table
-- of address ranges with their types, whose valid entries are threaded on a recency list.
-- The 32-bit `validity` word is read by bits: `validity k` says whether bit k is set. The debug check
-- __liballocs_check_cache_sanity is the function `check_cache_sanity` of Cache/Debug.
pub mod Sane
pub mod Lookup
pub mod Insert
pub mod Uncache
pub mod Debug
pub mod Reach
mod Tests
use liballocs.Common.{
  ℕ, zero, suc, ◌+◌, ◌-◌, ◌%◌, Bool, true, false, not, ◌&&◌, ◌||◌, Option, none, some, ltb, leb,
  ◌==◌, if◌then◌else◌, update,
}
use liballocs.Common.Int.{ℤ}

-- stores to `unsigned char` and `unsigned short` fields
abbrev pub uchar : ℕ → ℕ
uchar n = n % 256

abbrev pub ushort : ℕ → ℕ
ushort n = n % 65536

-- struct __liballocs_memrange_cache_entry_s; pointers are numbers, `uniqtype` 0 is null
pub record Entry : Type 0 where
  pub obj_base : ℕ
  pub obj_limit : ℕ
  pub uniqtype : ℕ
  pub period : ℕ
  pub depth : ℤ
  pub prev_mru : ℕ
  pub next_mru : ℕ

-- struct __liballocs_memrange_cache
pub record Cache : Type 0 where
  pub validity : ℕ → Bool
  pub size_plus_one : ℕ
  pub next_victim : ℕ
  pub head_mru : ℕ
  pub tail_mru : ℕ
  pub entries : ℕ → Entry

-- `validity & (1u<<(i-1))`
abbrev pub is_valid : Cache → ℕ → Bool
is_valid c i = c.validity (i - 1)

abbrev pub next_of : Cache → ℕ → ℕ
next_of c j = (c.entries j).next_mru

abbrev pub prev_of : Cache → ℕ → ℕ
prev_of c j = (c.entries j).prev_mru

abbrev pub set_next : (ℕ → Entry) → ℕ → ℕ → ℕ → Entry
set_next es i v = update es i (record (es i) { next_mru = v })

abbrev pub set_prev : (ℕ → Entry) → ℕ → ℕ → ℕ → Entry
set_prev es i v = update es i (record (es i) { prev_mru = v })

-- __liballocs_cache_unlink
unfoldable pub unlink : Cache → ℕ → Cache
unlink c i =
    let our_next = next_of c i in
    let our_prev = prev_of c i in
    let es = if our_prev == 0 then c.entries else set_next c.entries our_prev our_next in
    let es' = if our_next == 0 then es else set_prev es our_next our_prev in
    record c {
      validity = update c.validity (i - 1) false;
      next_victim = ushort i;
      head_mru = if c.head_mru == i then our_next else c.head_mru;
      tail_mru = if c.tail_mru == i then our_prev else c.tail_mru;
      entries = es';
    }

-- __liballocs_cache_push_head_mru
unfoldable pub push_head_mru : Cache → ℕ → Cache
push_head_mru c i =
    let es = update c.entries i (record (c.entries i) { prev_mru = 0; next_mru = c.head_mru }) in
    record c {
      validity = update c.validity (i - 1) true;
      head_mru = uchar i;
      tail_mru = if c.tail_mru == 0 then uchar i else c.tail_mru;
      entries = if c.head_mru == 0 then es else set_prev es c.head_mru (uchar i);
    }

-- __liballocs_cache_bump_victim
unfoldable pub bump_victim : Cache → ℕ → Cache
bump_victim c i =
    if (c.next_victim == i) && ltb 1 c.size_plus_one
    then record c { next_victim = ushort (1 + i % (c.size_plus_one - 1)) }
    else c

-- __liballocs_cache_bump_mru
unfoldable pub bump_mru : Cache → ℕ → Cache
bump_mru c i =
    if c.head_mru == i then c else push_head_mru (if is_valid c i then unlink c i else c) i

-- the initial state of __liballocs_ool_cache (src/cache.c), for LIBALLOCS_MEMRANGE_CACHE_MAX_SIZE `n`
unfoldable pub empty_cache : ℕ → Cache
empty_cache n = record {
  validity = λ _. false;
  size_plus_one = 1 + n;
  next_victim = 1;
  head_mru = 0;
  tail_mru = 0;
  entries = λ _. record {
    obj_base = 0;
    obj_limit = 0;
    uniqtype = 0;
    period = 0;
    depth = ℤ.pos 0;
    prev_mru = 0;
    next_mru = 0;
  };
}

-- The two tests of a lookup, on the object's address `obj`: the offset `diff` is taken once `obj` is
-- known not to precede the base. `require_period` 0 asks for none.
abbrev pub in_entry : ℕ → Entry → Bool
in_entry obj e = leb e.obj_base obj && ltb obj e.obj_limit

abbrev pub on_period : ℕ → ℕ → Entry → Bool
on_period obj require_period e =
    let diff = obj - e.obj_base in
    not (e.period == 0)
    && ((require_period == 0) || (e.period == require_period))
    && (diff % e.period == 0)

-- the condition of __liballocs_memrange_cache_lookup
unfoldable pub hit_typed : (obj t require_period : ℕ) → Entry → Bool
hit_typed obj t require_period e =
    (e.uniqtype == t)
    && in_entry obj e
    && ((obj - e.obj_base == 0) || on_period obj require_period e)

-- the condition of __liballocs_memrange_cache_lookup_notype
unfoldable pub hit_notype : (obj require_period : ℕ) → Entry → Bool
hit_notype obj require_period e =
    in_entry obj e
    && (((obj - e.obj_base == 0) && (require_period == 0)) || on_period obj require_period e)

-- `found i c`: the pointer to entry i is returned, with the cache `c`
pub data Outcome : Type 0 where
  found : ℕ → Cache → Outcome
  miss : Cache → Outcome
  out_of_fuel : Outcome

-- The loop that the two lookups share, over the test on an entry, walking the recency list.
unfoldable pub lookup_loop : (Entry → Bool) → ℕ → ℕ → Cache → Outcome
lookup_loop hit zero i c = out_of_fuel
lookup_loop hit (suc k) i c =
    let rest = lookup_loop hit k (next_of c i) c in
    if i == 0
    then miss c
    else if is_valid c i && hit (c.entries i)
    then found i (bump_mru c i)
    else rest

-- __liballocs_memrange_cache_lookup
pub lookup : Cache → (obj t require_period : ℕ) → Outcome
unfolding lookup_loop hit_typed
lookup c obj t require_period =
    lookup_loop (hit_typed obj t require_period) (c.size_plus_one + 1) c.head_mru c

-- __liballocs_memrange_cache_lookup_notype
pub lookup_notype : Cache → (obj require_period : ℕ) → Outcome
unfolding lookup_loop hit_notype
lookup_notype c obj require_period =
    lookup_loop (hit_notype obj require_period) (c.size_plus_one + 1) c.head_mru c

-- __liballocs_get_cached_object_type: the cache as left by the lookup, and the type or null
pub get_cached_object_type : Cache → ℕ → Option (Cache × ℕ)
unfolding lookup_notype
get_cached_object_type c addr = elim (lookup_notype c addr 0) [
  | found i c' ↦ some (c', (c'.entries i).uniqtype)
  | miss c' ↦ some (c', 0)
  | out_of_fuel ↦ none
]

-- `__builtin_ffs(~validity)`: one plus the number of the lowest clear bit of 32, 0 if there is none.
unfoldable pub ffs_clear : (ℕ → Bool) → ℕ → ℕ → ℕ
ffs_clear v zero k = 0
ffs_clear v (suc left) k = let rest = ffs_clear v left (k + 1) in if v k then rest else k + 1

-- the slot that __liballocs_cache_with_type takes; `none` is a failed assertion
unfoldable pub choose_slot : Cache → Option ℕ
unfolding ffs_clear
choose_slot c =
    let pos = ffs_clear c.validity 32 0 in
    if not (leb pos c.size_plus_one)
    then none
    else if pos == c.size_plus_one
    then (if c.tail_mru == 0 then none else some c.tail_mru)
    else some pos

abbrev pub fill : Cache → (pos base limit t : ℕ) → ℤ → ℕ → Cache
fill c pos base limit t depth period = record c {
  entries = update c.entries pos (record {
    obj_base = base;
    obj_limit = limit;
    uniqtype = t;
    period = period;
    depth = depth;
    prev_mru = prev_of c pos;
    next_mru = next_of c pos;
  });
}

-- __liballocs_cache_with_type
unfoldable pub cache_with_type : Cache → (base limit t : ℕ) → ℤ → ℕ → Option Cache
unfolding choose_slot bump_mru bump_victim unlink push_head_mru
cache_with_type c base limit t depth period = elim (choose_slot c) [
  | none ↦ none
  | some pos ↦ some (bump_victim (bump_mru (fill c pos base limit t depth (ushort period)) pos) pos)
]

-- the test of __liballocs_uncache_all
unfoldable pub begins_in : (ptr size : ℕ) → Entry → Bool
begins_in ptr size e = leb ptr e.obj_base && ltb e.obj_base (ptr + size)

-- one round of its loop, at slot i
unfoldable pub uncache_slot : (ptr size : ℕ) → Cache → ℕ → Cache
unfolding begins_in unlink
uncache_slot ptr size c i =
    if is_valid c i && begins_in ptr size (c.entries i)
    then record (unlink c i) { next_victim = ushort i }
    else c

-- the loop, from slot i for `left` rounds
unfoldable pub uncache_from : (ptr size : ℕ) → ℕ → ℕ → Cache → Cache
uncache_from ptr size zero i c = c
uncache_from ptr size (suc left) i c =
    uncache_from ptr size left (i + 1) (uncache_slot ptr size c i)

-- __liballocs_uncache_all (src/cache.c)
pub uncache_all : Cache → (ptr size : ℕ) → Cache
unfolding uncache_from uncache_slot
uncache_all c ptr size = uncache_from ptr size (c.size_plus_one - 1) 1 c
