-- ===== src/Transpose/Cells.antt =====
-- Loops that only copy cells: what is copied once stays copied, and a loop copies what one of its
-- rounds copies.
use introduction_to_computer.Base.{ℕ, zero, suc, ◌+◌, ◌-◌, ◌*◌, ◌/◌, ◌<◌, ◌≤◌, ◌≡◌, subst, arith}
use introduction_to_computer.Transpose.{Matrix, put, rounds, for, rounds_down, copy_8, copy_4}

module _ {ℓ κ} {S : Type ℓ} (P : S → Type κ) (body : ℕ → S → S) where
  pub rounds-keeps :
      ((i : ℕ) (s : S) → P s → P (body i s))
      → (n i step : ℕ) (s : S) → P s
      → P (rounds n i step body s)
  unfolding rounds
  rounds-keeps keep zero i step s h = h
  rounds-keeps keep (suc n) i step s h = rounds-keeps keep n (i + step) step (body i s) (keep i s h)

  pub rounds-hits :
      ((i : ℕ) (s : S) → P s → P (body i s))
      → (n i step k : ℕ) (s : S) → k < n
      → ((s : S) → P (body (i + k * step) s))
      → P (rounds n i step body s)
  unfolding rounds
  rounds-hits keep zero i step k s lt hit = absurd (omega arith)
  rounds-hits keep (suc n) i step zero s lt hit =
      rounds-keeps keep n (i + step) step (body i s)
        (subst (λ (t : ℕ). P (body t s)) (omega arith) (hit s))
  rounds-hits keep (suc n) i step (suc k) s lt hit =
      rounds-hits keep n (i + step) step k (body i s) (omega arith)
        (λ t. subst (λ (u : ℕ). P (body u t)) (omega arith) (hit t))

  pub rounds_down-keeps :
      ((i : ℕ) (s : S) → P s → P (body i s)) → (n i : ℕ) (s : S) → P s → P (rounds_down n i body s)
  unfolding rounds_down
  rounds_down-keeps keep zero i s h = h
  rounds_down-keeps keep (suc n) i s h = rounds_down-keeps keep n (i - 1) (body i s) (keep i s h)

  pub rounds_down-hits :
      ((i : ℕ) (s : S) → P s → P (body i s))
      → (n i k : ℕ) (s : S) → k < n
      → ((s : S) → P (body (i - k) s))
      → P (rounds_down n i body s)
  unfolding rounds_down
  rounds_down-hits keep zero i k s lt hit = absurd (omega arith)
  rounds_down-hits keep (suc n) i zero s lt hit =
      rounds_down-keeps keep n (i - 1) (body i s)
        (subst (λ (t : ℕ). P (body t s)) (omega arith) (hit s))
  rounds_down-hits keep (suc n) i (suc k) s lt hit =
      rounds_down-hits keep n (i - 1) k (body i s) (omega arith)
        (λ t. subst (λ (u : ℕ). P (body u t)) (omega arith) (hit t))

  -- A `for` loop keeps what its body keeps.
  pub for-keeps :
      ((i : ℕ) (s : S) → P s → P (body i s))
      → (lo hi step : ℕ) (s : S) → P s
      → P (for lo hi step body s)
  unfolding for
  for-keeps keep lo hi step = rounds-keeps keep ((hi - lo + (step - 1)) / step) lo step

  pub for_1-hits :
      ((i : ℕ) (s : S) → P s → P (body i s))
      → (lo hi i : ℕ) (s : S) → lo ≤ i
      → i < hi
      → ((s : S) → P (body i s))
      → P (for lo hi 1 body s)
  unfolding for
  for_1-hits keep lo hi i s below above hit =
      rounds-hits keep ((hi - lo + (1 - 1)) / 1) lo 1 (i - lo) s (omega arith)
        (λ t. subst (λ (u : ℕ). P (body u t)) (omega arith) (hit t))

  -- The block of eight that holds `i`.
  pub for_8-hits :
      ((i : ℕ) (s : S) → P s → P (body i s))
      → (hi i : ℕ) (s : S) → i < hi
      → ((s : S) → P (body (8 * (i / 8)) s))
      → P (for 0 hi 8 body s)
  unfolding for
  for_8-hits keep hi i s above hit =
      rounds-hits keep ((hi - 0 + (8 - 1)) / 8) 0 8 (i / 8) s (omega arith)
        (λ t. subst (λ (u : ℕ). P (body u t)) (omega arith) (hit t))

-- Cell (j, i) of `b` holds cell (i, j) of `a`.
abbrev pub Copied : {V : Type 0} → Matrix V → (j i : ℕ) → Matrix V → Type 0
Copied a j i b = b j i ≡ a i j

module _ {V : Type 0} (a : Matrix V) (j i : ℕ) where
  pub put-keeps : (j' i' : ℕ) (b : Matrix V) → Copied a j i b → Copied a j i (put b j' i' (a i' j'))
  unfolding put
  put-keeps j' i' b h = ground arith

  pub put-hits : (b : Matrix V) → Copied a j i (put b j i (a i j))
  unfolding put
  put-hits b = ground arith

  pub copy_8-keeps : (j' i' : ℕ) (b : Matrix V) → Copied a j i b → Copied a j i (copy_8 a j' i' b)
  unfolding copy_8
  copy_8-keeps j' i' b h = put-keeps _ _ _ (
      put-keeps _ _ _ (
        put-keeps _ _ _ (
          put-keeps _ _ _
            (put-keeps _ _ _ (put-keeps _ _ _ (put-keeps _ _ _ (put-keeps _ _ _ h)))))))

  pub copy_8-hits : (j' : ℕ) (b : Matrix V) → j' ≤ j → j < j' + 8 → Copied a j i (copy_8 a j' i b)
  unfolding copy_8 put
  copy_8-hits j' b lo hi = ground arith

  pub copy_4-keeps : (j' i' : ℕ) (b : Matrix V) → Copied a j i b → Copied a j i (copy_4 a j' i' b)
  unfolding copy_4
  copy_4-keeps j' i' b h = put-keeps _ _ _ (put-keeps _ _ _ (put-keeps _ _ _ (put-keeps _ _ _ h)))

  pub copy_4-hits : (j' : ℕ) (b : Matrix V) → j' ≤ j → j < j' + 4 → Copied a j i (copy_4 a j' i b)
  unfolding copy_4 put
  copy_4-hits j' b lo hi = ground arith
