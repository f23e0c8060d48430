-- ===== src/Transpose/Correct.antt =====
-- The transpose functions of trans.c store the transpose of A in B.
use introduction_to_computer.Base.{
  ℕ, zero, suc, ◌+◌, ◌-◌, ◌*◌, ◌/◌, ◌<◌, ◌≤◌, ◌≡◌, ◌⊎◌, inl, inr, refl, sym, ◌∙◌, Bool, true, arith,
  ltb, ◌==◌, subst, Bool-cases,
}
use introduction_to_computer.Transpose.{
  Matrix, put, for, lesser, copy_4, transpose_32, block_64, transpose_64, transpose_61,
  transpose_submit, trans, all_from, is_transpose,
}
use introduction_to_computer.Transpose.Cells.{
  Copied, for-keeps, for_1-hits, for_8-hits, rounds_down-keeps, rounds_down-hits, put-keeps,
  put-hits, copy_8-keeps, copy_8-hits, copy_4-keeps, copy_4-hits,
}

module _ {V : Type 0} (a : Matrix V) (m n : ℕ) (b : Matrix V) (j i : ℕ) where
  abbrev P : Matrix V → Type 0
  P = Copied a j i

  -- For every number of rows and columns, `trans` leaves cell (i, j) of A in cell (j, i) of B, for
  -- each row i and column j of A.
  pub trans-Copied : j < m → i < n → Copied a j i (trans a m n b)
  unfolding trans
  trans-Copied hj hi =
      for_1-hits P _ (λ i' s h. for-keeps P _ (λ j' t g. put-keeps a j i j' i' t g) 0 m 1 s h) 0 n i
        b (omega arith) hi
        (λ s.
          for_1-hits P _ (λ j' t g. put-keeps a j i j' i t g) 0 m j s (omega arith) hj
            (λ t. put-hits a j i t))

  transpose_32-Copied : j < m → i < n → Copied a j i (transpose_32 a m n b)
  unfolding transpose_32
  transpose_32-Copied hj hi =
      for_8-hits P _
        (λ i' s h.
          for-keeps P _ (λ j' t g. for-keeps P _ (copy_8-keeps a j i j') i' (i' + 8) 1 t g) 0 m 8 s
            h)
        n i b hi
        (λ s.
          for_8-hits P _
            (λ j' t g. for-keeps P _ (copy_8-keeps a j i j') (8 * (i / 8)) (8 * (i / 8) + 8) 1 t g)
            m j s hj
            (λ t.
              for_1-hits P _ (copy_8-keeps a j i (8 * (j / 8))) (8 * (i / 8)) (8 * (i / 8) + 8) i t
                (omega arith) (omega arith)
                (λ u. copy_8-hits a j i (8 * (j / 8)) u (omega arith) (omega arith))))

  block_64-keeps : (j' i' : ℕ) (s : Matrix V) → P s → P (block_64 a j' i' s)
  unfolding block_64
  block_64-keeps j' i' s h =
      rounds_down-keeps P _ (copy_4-keeps a j i (j' + 4)) 8 (i' + 7) _
        (for-keeps P _ (copy_4-keeps a j i j') i' (i' + 8) 1 s h)

  block_64-hits :
      (j' i' : ℕ) (s : Matrix V)
      → j' ≤ j
      → j < j' + 8
      → i' ≤ i
      → i < i' + 8
      → P (block_64 a j' i' s)
  unfolding block_64
  block_64-hits j' i' s jlo jhi ilo ihi = elim (Bool-cases (ltb j (j' + 4))) [
    | inl left ↦ rounds_down-keeps P _ (copy_4-keeps a j i (j' + 4)) 8 (i' + 7) _ (
        for_1-hits P _ (copy_4-keeps a j i j') i' (i' + 8) i s ilo ihi
          (λ t. copy_4-hits a j i j' t jlo (ground arith)))
    | inr right ↦
        rounds_down-hits P _ (copy_4-keeps a j i (j' + 4)) 8 (i' + 7) (i' + 7 - i) _ (omega arith)
          (λ t.
            subst (λ (u : ℕ). P (copy_4 a (j' + 4) u t)) (omega arith)
              (copy_4-hits a j i (j' + 4) t (ground arith) (omega arith)))
  ]

  transpose_64-Copied : j < m → i < n → Copied a j i (transpose_64 a m n b)
  unfolding transpose_64
  transpose_64-Copied hj hi =
      for_8-hits P _ (λ j' s h. for-keeps P _ (block_64-keeps j') 0 n 8 s h) m j b hj
        (λ s. for_8-hits P _ (block_64-keeps (8 * (j / 8))) n i s hi (λ t.
          block_64-hits (8 * (j / 8)) (8 * (i / 8)) t (omega arith) (omega arith) (omega arith)
            (omega arith)))

  column-keeps :
      (i' j1 : ℕ) (s : Matrix V)
      → P s
      → P (for i' (lesser (i' + 8) n) 1 (λ i1 t. put t j1 i1 (a i1 j1)) s)
  column-keeps i' j1 s h =
      for-keeps P _ (λ i1 t g. put-keeps a j i j1 i1 t g) i' (lesser (i' + 8) n) 1 s h

  transpose_61-Copied : j < m → i < n → Copied a j i (transpose_61 a m n b)
  unfolding transpose_61
  transpose_61-Copied hj hi =
      for_8-hits P _
        (λ i' s h.
          for-keeps P _ (λ j' t g. for-keeps P _ (column-keeps i') j' (lesser (j' + 8) m) 1 t g) 0 m
            8 s h)
        n i b hi
        (λ s.
          for_8-hits P _
            (λ j' t g. for-keeps P _ (column-keeps (8 * (i / 8))) j' (lesser (j' + 8) m) 1 t g) m j
            s hj
            (λ t.
              for_1-hits P _ (column-keeps (8 * (i / 8))) (8 * (j / 8)) (lesser (8 * (j / 8) + 8) m)
                j t (omega arith) (ground arith)
                (λ u.
                  for_1-hits P _ (λ i1 w g. put-keeps a j i j i1 w g) (8 * (i / 8))
                    (lesser (8 * (i / 8) + 8) n) i u (omega arith) (ground arith)
                    (λ w. put-hits a j i w))))

-- The sizes that `transpose_submit` has code for.
abbrev pub Supported : ℕ → ℕ → Type 0
Supported m n = ((m ≡ 32) × (n ≡ 32)) ⊎ (((m ≡ 64) × (n ≡ 64)) ⊎ ((m ≡ 61) × (n ≡ 67)))

module _ {V : Type 0} (a : Matrix V) (m n : ℕ) (b : Matrix V) where
  -- For M and N both 32, both 64, or 61 and 67, `transpose_submit` leaves cell (i, j) of A in cell
  -- (j, i) of B, for each row i and column j of A.
  pub transpose_submit-Copied :
      Supported m n → (j i : ℕ) → j < m → i < n → Copied a j i (transpose_submit a m n b)
  unfolding transpose_submit
  transpose_submit-Copied size j i hj hi = ground (
    arith,
    transpose_32-Copied a m n b j i,
    transpose_64-Copied a m n b j i,
    transpose_61-Copied a m n b j i,
  )

  -- For M and N both 32, both 64, or 61 and 67, `transpose_submit` and the plain loops of `trans`
  -- leave the same in each cell (j, i) of B with j below M and i below N, whatever B was before.
  pub transpose_submit-trans :
      (c : Matrix V)
      → Supported m n
      → (j i : ℕ) → j < m
      → i < n
      → transpose_submit a m n b j i ≡ trans a m n c j i
  transpose_submit-trans c size j i hj hi =
      transpose_submit-Copied size j i hj hi ∙ sym (trans-Copied a m n c j i hj hi)

module _ {V : Type 0} (a : Matrix V) (m n : ℕ) (b : Matrix V) where
  -- For M and N that are not both 32, both 64, or 61 and 67, `transpose_submit` leaves B as it was.
  transpose_submit-unsupported : ¬ Supported m n → transpose_submit a m n b ≡ b
  unfolding transpose_submit
  transpose_submit-unsupported other = ground arith

all_from-holds :
    (test : ℕ → Bool) (n k : ℕ)
    → ((i : ℕ) → k ≤ i → i < k + n → test i ≡ true)
    → all_from n k test ≡ true
unfolding all_from
all_from-holds test zero k each = refl
all_from-holds test (suc n) k each =
    let here = each k (omega arith) (omega arith) in
    let rest = all_from-holds test n (k + 1) (λ i lo hi. each i (omega arith) (omega arith)) in
    ground (arith, here, rest)

==-refl : (x y : ℕ) → y ≡ x → (x == y) ≡ true
==-refl x y h = ground arith

-- A matrix that holds the transpose cell by cell passes `is_transpose`.
pub Copied-is_transpose :
    (a : Matrix ℕ) (m n : ℕ) (b : Matrix ℕ)
    → ((j i : ℕ) → j < m → i < n → Copied a j i b)
    → is_transpose a m n b ≡ true
unfolding is_transpose
Copied-is_transpose a m n b copied =
    all_from-holds (λ i. all_from m 0 (λ j. a i j == b j i)) n 0
      (λ i lo hi.
        all_from-holds (λ j. a i j == b j i) m 0
          (λ j jlo jhi. ==-refl (a i j) (b j i) (copied j i (omega arith) (omega arith))))

-- After `trans`, for every size and every B, `is_transpose` answers that B is the transpose of A.
pub is_transpose-trans :
    (a : Matrix ℕ) (m n : ℕ) (b : Matrix ℕ) → is_transpose a m n (trans a m n b) ≡ true
is_transpose-trans a m n b = Copied-is_transpose a m n (trans a m n b) (trans-Copied a m n b)
