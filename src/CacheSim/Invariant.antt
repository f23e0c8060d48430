-- ===== src/CacheSim/Invariant.antt =====
-- What holds of the array of csim.c between accesses, set by set.
use native.Mathlib.Decide.{dec_lt}
use introduction_to_computer.Base.{ℕ, ◌+◌, ◌*◌, ◌^◌, ◌≤◌, ◌<◌, ◌≡◌, ◌≢◌, ◌⊎◌, arith, update}
use introduction_to_computer.CacheSim.{CacheBlock, Config, Sim}

-- An empty line has the tag 0 and the stamp 0; a used one was stamped by an earlier access.
abbrev pub BlockOk : ℕ → CacheBlock → Type 0
BlockOk count b =
    ((b.valid ≡ 0) × (b.tag ≡ 0) × (b.block_lru_count ≡ 0))
    ⊎ ((b.valid ≡ 1) × (0 < b.block_lru_count) × (b.block_lru_count ≤ count))

-- The set at `off`: used lines come first, and no two of them share a tag or a stamp.
pub record SetOk (lines count : ℕ) (cache : ℕ → CacheBlock) (off : ℕ) : Type 0 where
  pub blocks : (j : ℕ) → j < lines → BlockOk count (cache (off + j))
  pub front :
      (j k : ℕ) → j < k → k < lines → (cache (off + k)).valid ≡ 1 → (cache (off + j)).valid ≡ 1
  pub tags :
      (j k : ℕ)
      → j < lines
      → k < lines
      → (cache (off + j)).valid ≡ 1
      → (cache (off + k)).valid ≡ 1
      → (cache (off + j)).tag ≡ (cache (off + k)).tag
      → j ≡ k
  pub stamps :
      (j k : ℕ)
      → j < lines
      → k < lines
      → (cache (off + j)).valid ≡ 1
      → (cache (off + k)).valid ≡ 1
      → (cache (off + j)).block_lru_count ≡ (cache (off + k)).block_lru_count
      → j ≡ k

abbrev pub WellFormed : Config → Sim → Type 0
WellFormed c s =
    (n : ℕ)
    → n < 2 ^ c.set_bits
    → SetOk c.number_of_lines s.lru_count s.cache (c.number_of_lines * n)

-- Line `j` of the set takes the tag and the stamp `count + 1`.
abbrev pub used : ℕ → ℕ → CacheBlock
used tag count = record { valid = 1; tag = tag; block_lru_count = count + 1 }

module _ {lines count : ℕ} {cache : ℕ → CacheBlock} {off : ℕ}
    (ok : SetOk lines count cache off) where
  open ok use {blocks, front, tags, stamps}

  pub use-SetOk :
      (j tag : ℕ)
      → j < lines
      → ((i : ℕ) → i < j → (cache (off + i)).valid ≡ 1)
      → ((i : ℕ) → i < lines → i ≢ j → (cache (off + i)).valid ≡ 1 → (cache (off + i)).tag ≢ tag)
      → SetOk lines (count + 1) (update cache (off + j) (used tag count)) off
  use-SetOk j tag inside before other = record {
    blocks = λ i h. ground (arith, blocks i);
    front = λ i k lt h v. ground (arith, front i k, before i);
    tags = λ i k hi hk vi vk e. ground (arith, tags i k, other i, other k);
    stamps = λ i k hi hk vi vk e. ground (arith, stamps i k, blocks i, blocks k);
  }

-- A set that is not written stays well-formed while the count grows.
pub SetOk-frame :
    {lines count : ℕ} {cache cache' : ℕ → CacheBlock} {off : ℕ}
    → SetOk lines count cache off
    → ((i : ℕ) → i < lines → cache' (off + i) ≡ cache (off + i))
    → SetOk lines (count + 1) cache' off
SetOk-frame ok same = record {
  blocks = λ i h. ground (arith, ok.blocks i, same i);
  front = λ i k lt h v. ground (arith, ok.front i k, same i, same k);
  tags = λ i k hi hk vi vk e. ground (arith, ok.tags i k, same i, same k);
  stamps = λ i k hi hk vi vk e. ground (arith, ok.stamps i k, same i, same k);
}

pub index_lt : (lines n sets j : ℕ) → n < sets → j < lines → lines * n + j < lines * sets
index_lt lines n sets j h hj = grind arith

-- Lines of different sets are different blocks.
pub set_disjoint :
    (lines n m j k : ℕ) → j < lines → k < lines → n ≢ m → lines * n + j ≢ lines * m + k
set_disjoint lines n m j k hj hk ne e = elim (dec_lt n m) [
  | yes lt ↦ absurd (omega (arith, index_lt lines n m j lt hj))
  | no ge ↦ absurd (omega (arith, index_lt lines m n k (omega arith) hk))
]
