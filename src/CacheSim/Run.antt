-- ===== src/CacheSim/Run.antt =====
-- Whole traces through csim.c: the invariant along a run, and what the counters add up to.
use introduction_to_computer.Base.{
  ℕ, ◌+◌, ◌/◌, ◌^◌, ◌≢◌, ◌≤◌, ◌<◌, ◌≡◌, inl, inr, Bool, true, false, List, [], ◌∷◌, arith,
  Option-cases,
}
use introduction_to_computer.CacheSim.{
  Config, Sim, load, store, modify, other, Line, set_number, tag_number, set_offset, find_line,
  cache_access, step, simulate,
}
use introduction_to_computer.CacheSim.Alias.{far, far-set_number, far-tag_number, far-block}
use introduction_to_computer.CacheSim.Invariant.{WellFormed}
use introduction_to_computer.CacheSim.Access.{
  Cached, Accessed, Outcome, hit, fill, evict, cache_access-Outcome, cache_access-WellFormed,
  set_number-lt,
}

-- The accesses that a line of the trace asks for.
unfoldable pub accesses : List Line → ℕ
accesses [] = 0
accesses ((load, _) ∷ trace) = 1 + accesses trace
accesses ((store, _) ∷ trace) = 1 + accesses trace
accesses ((modify, _) ∷ trace) = 2 + accesses trace
accesses ((other, _) ∷ trace) = accesses trace

-- One access counts once, as a hit or as a miss, and evicts only on a miss.
pub record Counted (s s' : Sim) (n : ℕ) : Type 0 where
  pub total : s'.hit_count + s'.miss_count ≡ s.hit_count + s.miss_count + n
  pub hits : s.hit_count ≤ s'.hit_count
  pub misses : s.miss_count ≤ s'.miss_count
  pub evictions : s'.eviction_count + s.miss_count ≤ s.eviction_count + s'.miss_count
  pub monotone : s.eviction_count ≤ s'.eviction_count
  pub clock : s'.lru_count ≡ s.lru_count + n

cache_access-Counted : (c : Config) (s : Sim) (a : ℕ) → Counted s (cache_access c s a) 1
unfolding cache_access
cache_access-Counted c s a =
    elim (Option-cases (find_line s.cache (set_offset c a) (tag_number c a) c.number_of_lines 0)) [
      | inl miss ↦ rw miss (ground arith)
      | inr (j, found) ↦ rw found (ground arith)
    ]

Counted-trans : {s t u : Sim} {m n : ℕ} → Counted s t m → Counted t u n → Counted s u (m + n)
Counted-trans p q = omega (arith, p.total, q.total)

-- Over any trace from any state, hits and misses together grow by the accesses of the trace, the
-- clock grows by as much, neither count falls, and evictions grow by no more than misses.
pub simulate-Counted :
    (c : Config) (s : Sim) (trace : List Line) → Counted s (simulate c s trace) (accesses trace)
unfolding simulate accesses
simulate-Counted c s [] = omega arith
simulate-Counted c s ((load, a) ∷ trace) =
    Counted-trans (cache_access-Counted c s a) (simulate-Counted c (cache_access c s a) trace)
simulate-Counted c s ((store, a) ∷ trace) =
    Counted-trans (cache_access-Counted c s a) (simulate-Counted c (cache_access c s a) trace)
simulate-Counted c s ((modify, a) ∷ trace) =
    Counted-trans
      (Counted-trans (cache_access-Counted c s a) (cache_access-Counted c (cache_access c s a) a))
      (simulate-Counted c (cache_access c (cache_access c s a) a) trace)
simulate-Counted c s ((other, a) ∷ trace) = simulate-Counted c s trace

module _ (c : Config) (positive : 0 < c.number_of_lines) where
  -- If a set has a line, a simulation from a well-formed cache ends in a well-formed cache.
  pub simulate-WellFormed :
      (s : Sim) (trace : List Line) → WellFormed c s → WellFormed c (simulate c s trace)
  unfolding simulate
  simulate-WellFormed s [] wf = wf
  simulate-WellFormed s ((load, a) ∷ trace) wf =
      simulate-WellFormed (cache_access c s a) trace (cache_access-WellFormed c s a positive wf)
  simulate-WellFormed s ((store, a) ∷ trace) wf =
      simulate-WellFormed (cache_access c s a) trace (cache_access-WellFormed c s a positive wf)
  simulate-WellFormed s ((modify, a) ∷ trace) wf =
      simulate-WellFormed (cache_access c (cache_access c s a) a) trace (
        cache_access-WellFormed c (cache_access c s a) a positive
          (cache_access-WellFormed c s a positive wf))
  simulate-WellFormed s ((other, a) ∷ trace) wf = simulate-WellFormed s trace wf

  -- An access to an address whose tag is cached is a hit, and evicts nothing.
  pub access-Cached :
      (s : Sim) (a j : ℕ)
      → WellFormed c s
      → Cached c s a j
      → ((cache_access c s a).hit_count ≡ s.hit_count + 1)
        × ((cache_access c s a).miss_count ≡ s.miss_count)
        × ((cache_access c s a).eviction_count ≡ s.eviction_count)
  access-Cached s a j wf cached =
      go (cache_access-Outcome c s a (wf (set_number c a) (set_number-lt c a)) positive)
    where
      go :
          Outcome c s (cache_access c s a) a
          → ((cache_access c s a).hit_count ≡ s.hit_count + 1)
            × ((cache_access c s a).miss_count ≡ s.miss_count)
            × ((cache_access c s a).eviction_count ≡ s.eviction_count)
      go (hit k _ d) = (d.hits, d.misses, d.evictions)
      go (fill k absent _ _ _) = absurd (absent j cached)
      go (evict k absent _ _ _) = absurd (absent j cached)

  -- After an access its tag is cached.
  pub access-caches :
      (s : Sim) (a : ℕ) → WellFormed c s → (j : ℕ) × Cached c (cache_access c s a) a j
  access-caches s a wf =
      go (cache_access-Outcome c s a (wf (set_number c a) (set_number-lt c a)) positive)
    where
      line :
          (j : ℕ) (h e : Bool)
          → Accessed c s (cache_access c s a) a j h e
          → (j : ℕ) × Cached c (cache_access c s a) a j
      line j h e d = (j, (d.inside, rw d.array (ground arith), rw d.array (ground arith)))

      go : Outcome c s (cache_access c s a) a → (j : ℕ) × Cached c (cache_access c s a) a j
      go (hit j _ d) = line j true false d
      go (fill j _ _ _ d) = line j false false d
      go (evict j _ _ _ d) = line j false true d

  -- On a well-formed cache whose sets have a line, a modify line counts one hit more than a load of
  -- the same address, and as many misses and evictions: its store always hits.
  pub modify-hit :
      (s : Sim) (a : ℕ)
      → WellFormed c s
      → ((step c s modify a).hit_count ≡ (step c s load a).hit_count + 1)
        × ((step c s modify a).miss_count ≡ (step c s load a).miss_count)
        × ((step c s modify a).eviction_count ≡ (step c s load a).eviction_count)
  unfolding step
  modify-hit s a wf =
      let (j, cached) = access-caches s a wf in
      access-Cached (cache_access c s a) a j (cache_access-WellFormed c s a positive wf) cached

  -- Addresses of one set number and one tag number share a line.
  access-same_tag :
      (s : Sim) (a b : ℕ)
      → WellFormed c s
      → set_number c b ≡ set_number c a
      → tag_number c b ≡ tag_number c a
      → (cache_access c (cache_access c s a) b).hit_count ≡ (cache_access c s a).hit_count + 1
  access-same_tag s a b wf set tag =
      let (j, (inside, valid, same)) = access-caches s a wf in
      (access-Cached (cache_access c s a) b j (cache_access-WellFormed c s a positive wf)
        (inside, rw set valid, rw (set, tag) same)).0

  -- On a well-formed cache whose sets have a line, with `k` for `set_bits + block_bits`: an address
  -- and the one a positive multiple of `2 ^ (2 * k)` above it, which is below `2 ^ 31`, lie in
  -- different blocks of memory, and yet right after an access to the one, an access to the other
  -- counts as a hit.
  pub access-aliased :
      (s : Sim) (a d : ℕ)
      → WellFormed c s
      → 0 < d
      → far c a d < 2 ^ 31
      → (far c a d / 2 ^ c.block_bits ≢ a / 2 ^ c.block_bits)
        × ((cache_access c (cache_access c s a) (far c a d)).hit_count
            ≡ (cache_access c s a).hit_count + 1)
  access-aliased s a d wf more small = (
    far-block c a d more,
    access-same_tag s a (far c a d) wf (far-set_number c a d) (far-tag_number c a d small),
  )
