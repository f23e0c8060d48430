-- ===== src/CacheSim/Access.antt =====
-- `cache_access` of csim.c on a well-formed array: which line it uses, what it counts, and that
-- the array stays well-formed.
use native.Mathlib.Decide.{ℕ_discrete}
use introduction_to_computer.Base.{
  ℕ, ◌+◌, ◌^◌, ◌≤◌, ◌<◌, ◌≡◌, ◌≢◌, inl, inr, refl, Bool, true, false, arith, if◌then◌else◌, update,
  Option-cases, field-lt, ap, ◌∙◌, sym, update_ne,
}
use introduction_to_computer.CacheSim.{
  Config, Sim, mask, set_number, tag_number, set_offset, find_line, found_block, evict_block,
  cache_access,
}
use introduction_to_computer.CacheSim.Search.{
  FirstMatch, IsOldest, stamp, find_line-some, find_line-none, find_lru_lem,
}
use introduction_to_computer.CacheSim.Invariant.{
  SetOk, WellFormed, used, use-SetOk, SetOk-frame, set_disjoint,
}

-- What one access did: line `j` of the set now holds the tag, and the counters grew by the bits
-- `hit` and `evicted`.
pub record Accessed (c : Config) (s s' : Sim) (address j : ℕ) (hit evicted : Bool) : Type 0 where
  pub inside : j < c.number_of_lines
  pub array :
      s'.cache ≡ update s.cache (set_offset c address + j) (used (tag_number c address) s.lru_count)
  pub clock : s'.lru_count ≡ s.lru_count + 1
  pub hits : s'.hit_count ≡ (if hit then s.hit_count + 1 else s.hit_count)
  pub misses : s'.miss_count ≡ (if hit then s.miss_count else s.miss_count + 1)
  pub evictions : s'.eviction_count ≡ (if evicted then s.eviction_count + 1 else s.eviction_count)

-- The tag is in a used line of the set of the address.
abbrev pub Cached : Config → Sim → (address j : ℕ) → Type 0
Cached c s address j =
    (j < c.number_of_lines)
    × ((s.cache (set_offset c address + j)).valid ≡ 1)
    × ((s.cache (set_offset c address + j)).tag ≡ tag_number c address)

abbrev pub Absent : Config → Sim → ℕ → Type 0
Absent c s address = (j : ℕ) → ¬ Cached c s address j

-- What a set-associative cache with LRU replacement does: the line of the tag is used again, or
-- the first empty line is filled, or the line that was used least recently is given up.
pub data Outcome (c : Config) (s s' : Sim) (address : ℕ) : Type 0 where
  hit :
      (j : ℕ) → Cached c s address j → Accessed c s s' address j true false → Outcome c s s' address
  fill :
      (j : ℕ)
      → Absent c s address
      → (s.cache (set_offset c address + j)).valid ≡ 0
      → ((i : ℕ) → i < j → (s.cache (set_offset c address + i)).valid ≡ 1)
      → Accessed c s s' address j false false
      → Outcome c s s' address
  evict :
      (j : ℕ)
      → Absent c s address
      → ((i : ℕ) → i < c.number_of_lines → (s.cache (set_offset c address + i)).valid ≡ 1)
      → ((i : ℕ)
          → i < c.number_of_lines
          → stamp s.cache (set_offset c address) j ≤ stamp s.cache (set_offset c address) i)
      → Accessed c s s' address j false true
      → Outcome c s s' address

module _ (c : Config) (s : Sim) (address : ℕ) where
  abbrev off : ℕ
  off = set_offset c address

  abbrev tag : ℕ
  tag = tag_number c address

  abbrev ticked : Sim
  ticked = record s { lru_count = s.lru_count + 1 }

  found_block-Outcome :
      (r : ℕ)
      → SetOk c.number_of_lines s.lru_count s.cache off
      → FirstMatch s.cache off tag 0 r
      → r < c.number_of_lines
      → Outcome c s (found_block ticked (off + r)) address
  unfolding found_block
  found_block-Outcome r ok m inside = elim (ok.blocks r inside) [
    | inl (empty, zero_tag, zero_stamp) ↦
        Outcome.fill r (λ j h. ground (arith, m.first j, ok.front r j)) empty
          (λ i h. ground (arith, m.first i, ok.blocks i))
          (rw empty (record {
            inside = inside;
            array = ap (λ t. update s.cache (off + r) (used t s.lru_count)) m.matches;
            clock = refl;
            hits = refl;
            misses = refl;
            evictions = refl;
          }))
    | inr (valid, _, _) ↦
        Outcome.hit r (inside, valid, m.matches)
          (rw valid (record {
            inside = inside;
            array = ap (λ t. update s.cache (off + r) (used t s.lru_count)) m.matches;
            clock = refl;
            hits = refl;
            misses = refl;
            evictions = refl;
          }))
  ]

  evict_block-Outcome :
      (r : ℕ)
      → SetOk c.number_of_lines s.lru_count s.cache off
      → 0 < c.number_of_lines
      → Absent c s address
      → IsOldest s.cache off c.number_of_lines r
      → Outcome c s (evict_block ticked (off + r) tag) address
  unfolding evict_block
  evict_block-Outcome r ok positive absent oldest = elim (ok.blocks r (oldest.inside positive)) [
    | inl (empty, zero_tag, zero_stamp) ↦
        Outcome.fill r absent empty (λ i h. ground (arith, oldest.first i, ok.blocks i))
          (rw empty (record {
            inside = oldest.inside positive;
            array = refl;
            clock = refl;
            hits = refl;
            misses = refl;
            evictions = refl;
          }))
    | inr (valid, stamped, _) ↦
        Outcome.evict r absent (λ i h. ground (arith, oldest.least i, ok.blocks i)) oldest.least
          (rw valid (record {
            inside = oldest.inside positive;
            array = refl;
            clock = refl;
            hits = refl;
            misses = refl;
            evictions = refl;
          }))
  ]

  -- If the set of the address is well-formed and a set has a line, an access has one of three
  -- outcomes: the line that holds the tag is marked as used now and counts as a hit; or no line
  -- holds the tag, the first empty line is filled, and it counts as a miss; or all lines are used,
  -- the one with the oldest stamp is replaced, and it counts as a miss and an eviction. No other
  -- block of the cache changes.
  pub cache_access-Outcome :
      SetOk c.number_of_lines s.lru_count s.cache off
      → 0 < c.number_of_lines
      → Outcome c s (cache_access c s address) address
  unfolding cache_access
  cache_access-Outcome ok positive =
      elim (Option-cases (find_line s.cache off tag c.number_of_lines 0)) [
        | inl miss ↦ rw miss (
            evict_block-Outcome _ ok positive
              (λ j h.
                find_line-none s.cache off tag c.number_of_lines 0 miss j (omega arith)
                  (omega arith) h.2)
              (find_lru_lem s.cache off c.number_of_lines))
        | inr (r, found) ↦
            let (m, bound) = find_line-some s.cache off tag c.number_of_lines 0 r found in
            rw found (found_block-Outcome r ok m (omega arith))
      ]

-- The written line, with what the invariant asks of it.
record Written (c : Config) (s s' : Sim) (address j : ℕ) : Type 0 where
  inside : j < c.number_of_lines
  array :
      s'.cache ≡ update s.cache (set_offset c address + j) (used (tag_number c address) s.lru_count)
  clock : s'.lru_count ≡ s.lru_count + 1
  before : (i : ℕ) → i < j → (s.cache (set_offset c address + i)).valid ≡ 1
  other :
      (i : ℕ)
      → i < c.number_of_lines
      → i ≢ j
      → (s.cache (set_offset c address + i)).valid ≡ 1
      → (s.cache (set_offset c address + i)).tag ≢ tag_number c address

module _ {c : Config} {s s' : Sim} {address : ℕ} where
  Outcome-Written :
      SetOk c.number_of_lines s.lru_count s.cache (set_offset c address)
      → Outcome c s s' address
      → (j : ℕ) × Written c s s' address j
  Outcome-Written ok (hit j (inside, valid, same) a) = (
    j,
    record {
      inside = inside;
      array = a.array;
      clock = a.clock;
      before = λ i h. ok.front i j h inside valid;
      other = λ i h ne v t. ne (ok.tags i j h inside v valid (t ∙ sym same));
    },
  )
  Outcome-Written ok (fill j absent empty before a) = (
    j,
    record {
      inside = a.inside;
      array = a.array;
      clock = a.clock;
      before = before;
      other = λ i h ne v t. absent i (h, v, t);
    },
  )
  Outcome-Written ok (evict j absent full least a) = (
    j,
    record {
      inside = a.inside;
      array = a.array;
      clock = a.clock;
      before = λ i h. full i (omega (arith, a.inside));
      other = λ i h ne v t. absent i (h, v, t);
    },
  )

  Written-WellFormed :
      (j : ℕ)
      → Written c s s' address j
      → WellFormed c s
      → set_number c address < 2 ^ c.set_bits
      → WellFormed c s'
  Written-WellFormed j w wf small n h =
      rw (w.array, w.clock)
        (elim (ℕ_discrete n (set_number c address)) [
          | yes e ↦ rw e (
              use-SetOk (wf (set_number c address) small) j (tag_number c address) w.inside w.before
                w.other)
          | no e ↦ SetOk-frame (wf n h) (λ i hi.
              update_ne s.cache _
                (set_disjoint c.number_of_lines n (set_number c address) i j hi w.inside e))
        ])

pub set_number-lt : (c : Config) (a : ℕ) → set_number c a < 2 ^ c.set_bits
unfolding set_number mask
set_number-lt c a = field-lt a c.set_bits c.block_bits

-- If a set has a line, an access keeps every set well-formed: used lines come before empty ones,
-- no two of them hold the same tag or the same stamp, and each stamp is below the clock.
pub cache_access-WellFormed :
    (c : Config) (s : Sim) (address : ℕ)
    → 0 < c.number_of_lines
    → WellFormed c s
    → WellFormed c (cache_access c s address)
cache_access-WellFormed c s address positive wf =
    let small = set_number-lt c address in
    let ok = wf (set_number c address) small in
    let (j, w) = Outcome-Written ok (cache_access-Outcome c s address ok positive) in
    Written-WellFormed j w wf small
