-- ===== src/Transpose.antt =====
-- Cache Simulator/trans.c: the transpose functions. A matrix is a function of the row and the
-- column; A and B are distinct arrays, as the driver passes them.
pub mod Cells
pub mod Correct
mod Tests
use introduction_to_computer.Base.{
  ℕ, zero, suc, ◌+◌, ◌-◌, ◌*◌, ◌/◌, Bool, true, false, ◌&&◌, ltb, ◌==◌, if◌then◌else◌,
}

abbrev pub Matrix {ℓ} : Type ℓ → Type ℓ
Matrix A = ℕ → ℕ → A

-- `B[j][i] = v`
unfoldable pub put {ℓ} : {A : Type ℓ} → Matrix A → (j i : ℕ) → A → Matrix A
put b j i v j' i' = if j' == j && i' == i then v else b j' i'

-- `n` rounds of a loop whose counter starts at `i` and grows by `step`.
unfoldable pub rounds {ℓ} : {S : Type ℓ} → (n i step : ℕ) → (ℕ → S → S) → S → S
rounds zero i step body s = s
rounds (suc n) i step body s = rounds n (i + step) step body (body i s)

-- `for (i = lo; i < hi; i = i + step)`
unfoldable pub for {ℓ} : {S : Type ℓ} → (lo hi step : ℕ) → (ℕ → S → S) → S → S
unfolding rounds
for lo hi step = rounds ((hi - lo + (step - 1)) / step) lo step

-- `n` rounds of a loop whose counter starts at `i` and falls by 1.
unfoldable pub rounds_down {ℓ} : {S : Type ℓ} → (n i : ℕ) → (ℕ → S → S) → S → S
rounds_down zero i body s = s
rounds_down (suc n) i body s = rounds_down n (i - 1) body (body i s)

-- `i < hi` and `i < end`
abbrev pub lesser : ℕ → ℕ → ℕ
lesser hi end = if ltb hi end then hi else end

module _ {ℓ} {V : Type ℓ} (a : Matrix V) where
  -- Row `i1` of an 8 by 8 block, by way of t0 to t7.
  unfoldable pub copy_8 : (j i1 : ℕ) → Matrix V → Matrix V
  copy_8 j i1 b =
      let t0 = a i1 j in
      let t1 = a i1 (j + 1) in
      let t2 = a i1 (j + 2) in
      let t3 = a i1 (j + 3) in
      let t4 = a i1 (j + 4) in
      let t5 = a i1 (j + 5) in
      let t6 = a i1 (j + 6) in
      let t7 = a i1 (j + 7) in
      let b = put b j i1 t0 in
      let b = put b (j + 1) i1 t1 in
      let b = put b (j + 2) i1 t2 in
      let b = put b (j + 3) i1 t3 in
      let b = put b (j + 4) i1 t4 in
      let b = put b (j + 5) i1 t5 in let b = put b (j + 6) i1 t6 in put b (j + 7) i1 t7

  unfoldable pub transpose_32 : (m n : ℕ) → Matrix V → Matrix V
  transpose_32 m n = for 0 n 8 (λ i. for 0 m 8 (λ j. for i (i + 8) 1 (copy_8 j)))

  -- Four columns of a row of a block, by way of t0 to t3.
  unfoldable pub copy_4 : (j i1 : ℕ) → Matrix V → Matrix V
  copy_4 j i1 b =
      let t0 = a i1 j in
      let t1 = a i1 (j + 1) in
      let t2 = a i1 (j + 2) in
      let t3 = a i1 (j + 3) in
      let b = put b j i1 t0 in
      let b = put b (j + 1) i1 t1 in let b = put b (j + 2) i1 t2 in put b (j + 3) i1 t3

  -- Down the rows of a block for its first four columns, and up again for the others.
  unfoldable pub block_64 : (j i : ℕ) → Matrix V → Matrix V
  block_64 j i b = rounds_down 8 (i + 7) (copy_4 (j + 4)) (for i (i + 8) 1 (copy_4 j) b)

  unfoldable pub transpose_64 : (m n : ℕ) → Matrix V → Matrix V
  transpose_64 m n = for 0 m 8 (λ j. for 0 n 8 (block_64 j))

  unfoldable pub transpose_61 : (m n : ℕ) → Matrix V → Matrix V
  transpose_61 m n = for 0 n 8 (λ i. for 0 m 8 (λ j.
      for j (lesser (j + 8) m) 1
        (λ j1. for i (lesser (i + 8) n) 1 (λ i1 b. put b j1 i1 (a i1 j1)))))

  unfoldable pub transpose_submit : (m n : ℕ) → Matrix V → Matrix V
  transpose_submit m n b =
      if m == 32 && n == 32
      then transpose_32 m n b
      else if m == 64 && n == 64
      then transpose_64 m n b
      else if m == 61 && n == 67
      then transpose_61 m n b
      else b

  unfoldable pub trans : (m n : ℕ) → Matrix V → Matrix V
  trans m n = for 0 n 1 (λ i. for 0 m 1 (λ j b. put b j i (a i j)))

-- `for (k = 0; k < n; k++)` around a test that returns 0 at once: the rest of the loop from `k` on.
unfoldable pub all_from : (n k : ℕ) → (ℕ → Bool) → Bool
all_from zero k test = true
all_from (suc n) k test = test k && all_from n (k + 1) test

-- The matrices hold ints, which are compared as they are stored.
unfoldable pub is_transpose : (a : Matrix ℕ) → (m n : ℕ) → (b : Matrix ℕ) → Bool
is_transpose a m n b = all_from n 0 (λ i. all_from m 0 (λ j. a i j == b j i))
