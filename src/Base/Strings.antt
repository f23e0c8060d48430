-- ===== src/Base/Strings.antt =====
-- C strings as the bytes in front of the terminating zero, and what the programs call of string.h.
use introduction_to_computer.Base.Tests.{◌==◌, if◌then◌else◌}
use Prim.Native.Nat.{ℕ}
use mathlib.Core.Bool.{Bool, true, false, ◌||◌}
use mathlib.Core.Option.{Option, none, some}
use mathlib.Core.List.{List, [], ◌∷◌, ◌++◌}

abbrev pub CString : Type 0
CString = List ℕ

unfoldable pub str_eq : CString → CString → Bool
str_eq [] [] = true
str_eq [] (d ∷ t) = false
str_eq (c ∷ s) [] = false
str_eq (c ∷ s) (d ∷ t) = let rest = str_eq s t in if c == d then rest else false

-- Whether the second string begins with the first.
unfoldable pub is_prefix : CString → CString → Bool
is_prefix [] t = true
is_prefix (c ∷ s) [] = false
is_prefix (c ∷ s) (d ∷ t) = let rest = is_prefix s t in if c == d then rest else false

-- `strstr(t, s) != NULL`
unfoldable pub contains : (t s : CString) → Bool
unfolding is_prefix
contains [] s = is_prefix s []
contains (c ∷ t) s = is_prefix s (c ∷ t) || contains t s

-- `index(s, c)`: what stands in front of the first `c`, and what begins with it.
unfoldable pub index : (s : CString) → (c : ℕ) → Option (CString × CString)
index [] c = none
index (d ∷ s) c =
    let more : Option (CString × CString) = elim (index s c) [
      | none ↦ none
      | some (front, back) ↦ some (d ∷ front, back)
    ] in
    if d == c then some ([], d ∷ s) else more

abbrev pub concat : List CString → CString
concat [] = []
concat (s ∷ ss) = s ++ concat ss
