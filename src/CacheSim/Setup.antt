-- ===== src/CacheSim/Setup.antt =====
-- The loops of csim.c that clear the array before the trace is read: which blocks they reach, and
-- when the simulation starts well-formed.
use native.Mathlib.Decide.{dec_lt}
use native.Mathlib.Nat.{pow-suc}
use introduction_to_computer.Base.{
  ℕ, zero, suc, ◌+◌, ◌-◌, ◌*◌, ◌^◌, ◌≤◌, ◌<◌, ◌≡◌, ◌∙◌, ◌⊎◌, inr, refl, arith, pow_pos, update,
}
use introduction_to_computer.CacheSim.{CacheBlock, Config, empty_block, init_row, init_rows, start}
use introduction_to_computer.CacheSim.Invariant.{WellFormed}

init_row-outside :
    (cache : ℕ → CacheBlock) (i k j n : ℕ)
    → (n < i + j) ⊎ (i + j + k ≤ n)
    → init_row cache i k j n ≡ cache n
unfolding init_row
init_row-outside cache i zero j n h = refl
init_row-outside cache i (suc k) j n h =
    init_row-outside (update cache (i + j) empty_block) i k (j + 1) n (ground arith) ∙ ground arith

init_row-keeps :
    (cache : ℕ → CacheBlock) (i k j n : ℕ)
    → cache n ≡ empty_block
    → init_row cache i k j n ≡ empty_block
unfolding init_row
init_row-keeps cache i zero j n h = h
init_row-keeps cache i (suc k) j n h =
    init_row-keeps (update cache (i + j) empty_block) i k (j + 1) n (ground arith)

init_row-inside :
    (cache : ℕ → CacheBlock) (i k j n : ℕ)
    → i + j ≤ n
    → n < i + j + k
    → init_row cache i k j n ≡ empty_block
unfolding init_row
init_row-inside cache i zero j n lo hi = absurd (omega arith)
init_row-inside cache i (suc k) j n lo hi = elim (dec_lt (i + j) n) [
  | yes lt ↦
      init_row-inside (update cache (i + j) empty_block) i k (j + 1) n (omega arith) (omega arith)
  | no ge ↦ init_row-keeps (update cache (i + j) empty_block) i k (j + 1) n (ground arith)
]

init_rows-outside :
    (cache : ℕ → CacheBlock) (lines k i n : ℕ)
    → i + k + lines ≤ n + 1
    → init_rows cache lines k i n ≡ cache n
unfolding init_rows
init_rows-outside cache lines zero i n h = refl
init_rows-outside cache lines (suc k) i n h =
    init_rows-outside (init_row cache i lines 0) lines k (i + 1) n (omega arith)
    ∙ init_row-outside cache i lines 0 n (inr (omega arith))

init_rows-keeps :
    (cache : ℕ → CacheBlock) (lines k i n : ℕ)
    → cache n ≡ empty_block
    → init_rows cache lines k i n ≡ empty_block
unfolding init_rows
init_rows-keeps cache lines zero i n h = h
init_rows-keeps cache lines (suc k) i n h =
    init_rows-keeps (init_row cache i lines 0) lines k (i + 1) n
      (init_row-keeps cache i lines 0 n h)

init_rows-inside :
    (cache : ℕ → CacheBlock) (lines k i n : ℕ)
    → i ≤ n
    → n + 1 < i + k + lines
    → 0 < lines
    → 0 < k
    → init_rows cache lines k i n ≡ empty_block
unfolding init_rows
init_rows-inside cache lines zero i n lo hi pos more = absurd (omega arith)
init_rows-inside cache lines (suc k) i n lo hi pos more = elim (dec_lt n (i + lines)) [
  | yes lt ↦
      init_rows-keeps (init_row cache i lines 0) lines k (i + 1) n
        (init_row-inside cache i lines 0 n (omega arith) (omega arith))
  | no ge ↦
      init_rows-inside (init_row cache i lines 0) lines k (i + 1) n (omega arith) (omega arith) pos
        (omega arith)
]

sum-le-product : (x y : ℕ) → 1 < x → 1 < y → x + y ≤ x * y
sum-le-product zero y hx hy = absurd (omega arith)
sum-le-product (suc zero) y hx hy = absurd (omega arith)
sum-le-product (suc (suc p)) zero hx hy = absurd (omega arith)
sum-le-product (suc (suc p)) (suc zero) hx hy = absurd (omega arith)
sum-le-product (suc (suc p)) (suc (suc q)) hx hy = omega arith

one-lt-pow : (n : ℕ) → 0 < n → 1 < 2 ^ n
one-lt-pow zero h = absurd (omega arith)
one-lt-pow (suc n) h = rw pow-suc (omega (arith, pow_pos n))

block_in_range : (sets lines n j : ℕ) → n < sets → j < lines → lines * n + j < sets * lines
block_in_range sets lines n j hn hj = grind arith

module _ (c : Config) (memory : ℕ → CacheBlock) where
  -- If a set has a line, the loops of `main` clear every block below `2 ^ set_bits + number_of_lines - 1`, and leave
  -- the rest of what `malloc` returned as it was.
  start-cleared :
      0 < c.number_of_lines
      → (n : ℕ)
      → (n + 1 < 2 ^ c.set_bits + c.number_of_lines → (start c memory).cache n ≡ empty_block)
        × (2 ^ c.set_bits + c.number_of_lines ≤ n + 1 → (start c memory).cache n ≡ memory n)
  unfolding start
  start-cleared positive n = (
    λ h.
        init_rows-inside memory c.number_of_lines (2 ^ c.set_bits) 0 n (omega arith) (omega arith)
          positive (pow_pos c.set_bits),
    λ h. init_rows-outside memory c.number_of_lines (2 ^ c.set_bits) 0 n (omega arith),
  )

  -- With two sets and two lines or more, the last block of the cache keeps what `malloc` returned.
  start-uncleared :
      0 < c.set_bits
      → 1 < c.number_of_lines
      → (start c memory).cache (2 ^ c.set_bits * c.number_of_lines - 1)
        ≡ memory (2 ^ c.set_bits * c.number_of_lines - 1)
  start-uncleared sets lines = (start-cleared (omega arith) _).1 (
      omega (
        arith,
        sum-le-product (2 ^ c.set_bits) c.number_of_lines (one-lt-pow c.set_bits sets) lines,
      ))

  start-empty :
      ((n : ℕ)
        → 2 ^ c.set_bits + c.number_of_lines ≤ n + 1
        → n < 2 ^ c.set_bits * c.number_of_lines
        → memory n ≡ empty_block)
      → (n j : ℕ) → n < 2 ^ c.set_bits
      → j < c.number_of_lines
      → (start c memory).cache (c.number_of_lines * n + j) ≡ empty_block
  start-empty rest n j set line =
      let block = c.number_of_lines * n + j in
      elim (dec_lt (block + 1) (2 ^ c.set_bits + c.number_of_lines)) [
        | yes low ↦ (start-cleared (omega arith) block).0 low
        | no high ↦
            (start-cleared (omega arith) block).1 (omega (arith, high))
            ∙ rest block (omega (arith, high))
                (block_in_range (2 ^ c.set_bits) c.number_of_lines n j set line)
      ]

  -- If `malloc` returned empty blocks where the clearing loops do not write, from block
  -- `2 ^ set_bits + number_of_lines - 1` to the last one of the cache, then whatever the other blocks
  -- were, the simulation starts well-formed, with every counter 0.
  pub start-WellFormed :
      ((n : ℕ)
        → 2 ^ c.set_bits + c.number_of_lines ≤ n + 1
        → n < 2 ^ c.set_bits * c.number_of_lines
        → memory n ≡ empty_block)
      → WellFormed c (start c memory)
        × ((start c memory).hit_count ≡ 0)
        × ((start c memory).miss_count ≡ 0)
        × ((start c memory).eviction_count ≡ 0)
  unfolding start
  start-WellFormed rest = (
    λ n h. record {
      blocks = λ j hj. ground (arith, start-empty rest n j h hj);
      front = λ j k lt hk v. ground (arith, start-empty rest n k h hk);
      tags = λ j k hj hk vj vk e. ground (arith, start-empty rest n k h hk);
      stamps = λ j k hj hk vj vk e. ground (arith, start-empty rest n k h hk);
    },
    refl,
    refl,
    refl,
  )
