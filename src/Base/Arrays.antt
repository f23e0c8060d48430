-- ===== src/Base/Arrays.antt =====
-- C arrays: a function of the index, with the update of one cell.
use Prim.Native.Nat.{ℕ}
use mathlib.Core.Path.{◌≡◌}
use mathlib.Core.Logic.{◌≢◌}
use native.Mathlib.Omega.{arith}
use introduction_to_computer.Base.Tests.{◌==◌, if◌then◌else◌}

-- `a[i] = v`
abbrev pub update {ℓ} : {A : Type ℓ} → (ℕ → A) → ℕ → A → ℕ → A
update a i v j = if j == i then v else a j

module _ {ℓ} {A : Type ℓ} (a : ℕ → A) (v : A) where
  pub update_self : (i : ℕ) → update a i v i ≡ v
  update_self i = ground arith

  pub update_ne : {i j : ℕ} → j ≢ i → update a i v j ≡ a j
  update_ne h = ground arith
