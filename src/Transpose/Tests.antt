-- ===== src/Transpose/Tests.antt =====
-- The transpose functions of trans.c on a matrix whose cell (i, j) holds 100 * i + j.
use introduction_to_computer.Base.{ℕ, ◌+◌, ◌*◌, ◌≡◌, refl, inl, inr, arith, true}
use introduction_to_computer.Transpose.{Matrix, trans, transpose_submit, is_transpose}
use introduction_to_computer.Transpose.Cells.{Copied}
use introduction_to_computer.Transpose.Correct.{
  transpose_submit-Copied, transpose_submit-trans, is_transpose-trans,
}

abbrev numbered : Matrix ℕ
numbered i j = 100 * i + j

abbrev zeros : Matrix ℕ
zeros j i = 0

transpose_submit-Copied_example : Copied numbered 60 66 (transpose_submit numbered 61 67 zeros)
transpose_submit-Copied_example =
    transpose_submit-Copied numbered 61 67 zeros (inr (inr (refl, refl))) 60 66 (omega arith)
      (omega arith)

transpose_submit-trans_example :
    transpose_submit numbered 32 32 zeros 3 8 ≡ trans numbered 32 32 zeros 3 8
transpose_submit-trans_example =
    transpose_submit-trans numbered 32 32 zeros zeros (inl (refl, refl)) 3 8 (omega arith)
      (omega arith)

is_transpose-trans_example : is_transpose numbered 4 3 (trans numbered 4 3 zeros) ≡ true
is_transpose-trans_example = is_transpose-trans numbered 4 3 zeros
