-- ===== src/CacheSim.antt =====
-- Cache Simulator/csim.c: `struct cache_block`, the counters, `cache_access`, the set-up of the
-- array and the loop over the trace; Main has the rest of `main`. The array is a function of the
-- index.
pub mod Search
pub mod Invariant
pub mod Access
pub mod Alias
pub mod Run
pub mod Setup
pub mod Main
pub mod Report
mod Tests
use introduction_to_computer.Base.{
  ℕ, zero, suc, ◌+◌, ◌-◌, ◌*◌, ◌/◌, ◌%◌, ◌^◌, Option, none, some, List, [], ◌∷◌, ltb, ◌==◌,
  if◌then◌else◌, update,
}

pub record CacheBlock : Type 0 where
  pub valid : ℕ
  pub tag : ℕ
  pub block_lru_count : ℕ

-- The options `-s`, `-E` and `-b`.
pub record Config : Type 0 where
  pub set_bits : ℕ
  pub number_of_lines : ℕ
  pub block_bits : ℕ

-- The counters and the array behind `cache`. The counters are C ints, here without a bound: each
-- grows by at most one in an access.
pub record Sim : Type 0 where
  pub hit_count : ℕ
  pub miss_count : ℕ
  pub eviction_count : ℕ
  pub lru_count : ℕ
  pub cache : ℕ → CacheBlock

-- `address >> k` on a 32-bit int, by bit pattern: the sign bit is copied.
unfoldable pub shift_right : ℕ → ℕ → ℕ
shift_right a k = if ltb a (2 ^ 31) then a / 2 ^ k else a / 2 ^ k + (2 ^ 32 - 2 ^ (32 - k))

module _ (c : Config) where
  -- `x & set_address_mask`, where the mask is `~(-1 << (set_bits + block_bits))`
  unfoldable pub mask : ℕ → ℕ
  mask x = x % 2 ^ (c.set_bits + c.block_bits)

  unfoldable pub set_number : ℕ → ℕ
  unfolding mask
  set_number address = mask address / 2 ^ c.block_bits

  unfoldable pub tag_number : ℕ → ℕ
  unfolding mask shift_right
  tag_number address = mask (shift_right address (c.set_bits + c.block_bits))

  abbrev pub set_offset : ℕ → ℕ
  set_offset address = c.number_of_lines * set_number address

-- The first loop: the first line `j` of the set whose tag matches. `k` counts the rounds left.
unfoldable pub find_line : (ℕ → CacheBlock) → (off tag : ℕ) → (k j : ℕ) → Option ℕ
find_line cache off tag zero j = none
find_line cache off tag (suc k) j =
    if (cache (off + j)).tag == tag then some j else find_line cache off tag k (j + 1)

-- The second loop: `smallest` and `suspect` are block_LRU_count_smallest and
-- evict_block_suspect_index.
unfoldable pub find_lru : (ℕ → CacheBlock) → (off : ℕ) → (k j smallest suspect : ℕ) → ℕ
find_lru cache off zero j smallest suspect = suspect
find_lru cache off (suc k) j smallest suspect =
    let n = (cache (off + j)).block_lru_count in
    let less = ltb n smallest in
    find_lru cache off k (j + 1) (if less then n else smallest) (if less then j else suspect)

-- The tag is found in block `i` of the array: a cold miss if it is not valid, else a hit.
unfoldable pub found_block : Sim → ℕ → Sim
found_block s i =
    let b = s.cache i in
    if b.valid == 0
    then record s {
      cache = update s.cache i (record b { valid = 1; block_lru_count = s.lru_count });
      miss_count = s.miss_count + 1;
    }
    else record s {
      cache = update s.cache i (record b { block_lru_count = s.lru_count });
      hit_count = s.hit_count + 1;
    }

-- The tag is not found: block `i` takes it.
unfoldable pub evict_block : Sim → ℕ → ℕ → Sim
evict_block s i tag =
    let b = s.cache i in
    record s {
      miss_count = s.miss_count + 1;
      eviction_count = if b.valid == 1 then s.eviction_count + 1 else s.eviction_count;
      cache = update s.cache i (record {
        valid = if b.valid == 1 then b.valid else 1;
        tag = tag;
        block_lru_count = s.lru_count;
      });
    }

-- What follows the first loop.
unfoldable pub conclude : Config → Sim → (off tag : ℕ) → Option ℕ → Sim
unfolding found_block evict_block find_lru
conclude c s off tag (some j) = found_block s (off + j)
conclude c s off tag none =
    let suspect = find_lru s.cache off c.number_of_lines 0 (s.cache off).block_lru_count 0 in
    evict_block s (off + suspect) tag

unfoldable pub cache_access : Config → Sim → ℕ → Sim
unfolding find_line conclude
cache_access c s address =
    let off = set_offset c address in
    let tag = tag_number c address in
    let s' : Sim = record s { lru_count = s.lru_count + 1 } in
    conclude c s' off tag (find_line s'.cache off tag c.number_of_lines 0)

-- What `fscanf` reads from a line of the trace; any other action is skipped.
pub data Action : Type 0 where
  load store modify other : Action

abbrev pub Line : Type 0
Line = Action × ℕ

unfoldable pub step : Config → Sim → Action → ℕ → Sim
unfolding cache_access
step c s load a = cache_access c s a
step c s store a = cache_access c s a
step c s modify a = cache_access c (cache_access c s a) a
step c s other a = s

unfoldable pub simulate : Config → Sim → List Line → Sim
unfolding step
simulate c s [] = s
simulate c s ((action, a) ∷ trace) = simulate c (step c s action a) trace

abbrev pub empty_block : CacheBlock
empty_block = record { valid = 0; tag = 0; block_lru_count = 0 }

-- The inner loop of the set-up: `cache + (i + j)` for `k` values of `j`.
unfoldable pub init_row : (ℕ → CacheBlock) → (i k j : ℕ) → ℕ → CacheBlock
init_row cache i zero j = cache
init_row cache i (suc k) j = init_row (update cache (i + j) empty_block) i k (j + 1)

unfoldable pub init_rows : (ℕ → CacheBlock) → (lines k i : ℕ) → ℕ → CacheBlock
unfolding init_row
init_rows cache lines zero i = cache
init_rows cache lines (suc k) i = init_rows (init_row cache i lines 0) lines k (i + 1)

-- The state in which `main` starts to read the trace; `memory` is what `malloc` returned.
unfoldable pub start : Config → (ℕ → CacheBlock) → Sim
unfolding init_rows
start c memory = record {
  hit_count = 0;
  miss_count = 0;
  eviction_count = 0;
  lru_count = 0;
  cache = init_rows memory c.number_of_lines (2 ^ c.set_bits) 0;
}
