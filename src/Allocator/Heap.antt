-- ===== src/Allocator/Heap.antt =====
-- The blocks of the heap of mm.c, one behind the other, and the words of their headers and footers.
pub mod Listed
pub mod Deleted
pub mod Added
pub mod Parts
pub mod Edited
pub mod Flags
pub mod Merged
pub mod Reads
pub mod Joined
pub mod JoinedPrev
pub mod BothWords
pub mod JoinedBoth
pub mod Chained
pub mod Coalesced
pub mod Released
pub mod Freed
use introduction_to_computer.Base.{
  ℕ, zero, suc, ◌+◌, ◌-◌, ◌*◌, ◌/◌, ◌%◌, ◌<◌, ◌≤◌, ◌≡◌, ◌≢◌, ◌⊎◌, inl, inr, refl, sym, ◌∙◌, ap,
  subst, List, [], ◌∷◌, ◌++◌, arith,
}
use introduction_to_computer.Allocator.Blocks.{get_size}
use introduction_to_computer.Allocator.Links.{Far}

-- A block, with the flag of its predecessor that its header holds; both flags are 0 or 1.
pub record Block : Type 0 where
  pub size : ℕ
  pub prev : ℕ
  pub used : ℕ

abbrev pub total : List Block → ℕ
total [] = 0
total (b ∷ bs) = b.size + total bs

pub total-append : (l r : List Block) → total (l ++ r) ≡ total l + total r
total-append [] r = omega arith
total-append (b ∷ l) r = omega (arith, total-append l r)

-- The word of a header.
abbrev pub header : Block → ℕ
header b = b.size + (b.prev * 2 + b.used)

-- From `a` on, memory holds the headers of the blocks and the footers of the free ones.
abbrev pub Run : (word : ℕ → ℕ) → (a : ℕ) → List Block → Type 0
Run word a [] = Unit {0}
Run word a (b ∷ bs) =
    (word (a - 4) ≡ header b)
    × (b.used ≡ 0 → word (a + b.size - 8) ≡ b.size)
    × Run word (a + b.size) bs

abbrev pub SizedBlock : Block → Type 0
SizedBlock b = (b.size % 8 ≡ 0) × (b.used ≡ 0 → 16 ≤ b.size) × (b.prev ≤ 1) × (b.used ≤ 1)

abbrev pub Sized : List Block → Type 0
Sized [] = Unit {0}
Sized (b ∷ bs) = SizedBlock b × Sized bs

-- A free block of size `n` stands at `c`.
abbrev pub Free : (a : ℕ) → List Block → (c n : ℕ) → Type 0
Free a [] c n = ⊥
Free a (b ∷ bs) c n = ((c ≡ a) × (b.size ≡ n) × (b.used ≡ 0)) ⊎ Free (a + b.size) bs c n

-- The address is that of a header or of a free block's footer.
abbrev pub Meta : (q a : ℕ) → List Block → Type 0
Meta q a [] = ⊥
Meta q a (b ∷ bs) = (q ≡ a - 4) ⊎ (((b.used ≡ 0) × (q ≡ a + b.size - 8)) ⊎ Meta q (a + b.size) bs)

-- The address is neither that of a header nor in a free block.
abbrev pub Outside : (q a : ℕ) → List Block → Type 0
Outside q a [] = Unit {0}
Outside q a (b ∷ bs) =
    (q ≢ a - 4) × (b.used ≡ 0 → (q + 4 < a) ⊎ (a + b.size ≤ q + 4)) × Outside q (a + b.size) bs

pub Run-same :
    (word word' : ℕ → ℕ) (a : ℕ) (bs : List Block)
    → ((q : ℕ) → Meta q a bs → word' q ≡ word q)
    → Run word a bs
    → Run word' a bs
Run-same word word' a [] same run = tt
Run-same word word' a (b ∷ bs) same run = (
  same (a - 4) (inl refl) ∙ run.0,
  λ free. same (a + b.size - 8) (inr (inl (free, refl))) ∙ run.1 free,
  Run-same word word' (a + b.size) bs (λ q x. same q (inr (inr x))) run.2,
)

pub Run-append :
    (word : ℕ → ℕ) (a : ℕ) (l r : List Block)
    → Run word a (l ++ r)
    → Run word a l × Run word (a + total l) r
Run-append word a [] r run = (tt, subst (λ (x : ℕ). Run word x r) (omega arith) run)
Run-append word a (b ∷ l) r run =
    let (front, back) = Run-append word (a + b.size) l r run.2 in
    ((run.0, run.1, front), subst (λ (x : ℕ). Run word x r) (omega arith) back)

pub Run-join :
    (word : ℕ → ℕ) (a : ℕ) (l r : List Block)
    → Run word a l
    → Run word (a + total l) r
    → Run word a (l ++ r)
Run-join word a [] r front back = subst (λ (x : ℕ). Run word x r) (omega arith) back
Run-join word a (b ∷ l) r front back = (
  front.0,
  front.1,
  Run-join word (a + b.size) l r front.2 (subst (λ (x : ℕ). Run word x r) (omega arith) back),
)

pub Sized-append : (l r : List Block) → Sized (l ++ r) → Sized l × Sized r
Sized-append [] r s = (tt, s)
Sized-append (b ∷ l) r s = let (front, back) = Sized-append l r s.1 in ((s.0, front), back)

pub Sized-join : (l r : List Block) → Sized l → Sized r → Sized (l ++ r)
Sized-join [] r front back = back
Sized-join (b ∷ l) r front back = (front.0, Sized-join l r front.1 back)

pub Free-append :
    (a : ℕ) (l r : List Block) (c n : ℕ)
    → Free a (l ++ r) c n
    → Free a l c n ⊎ Free (a + total l) r c n
Free-append a [] r c n f = inr (subst (λ (x : ℕ). Free x r c n) (omega arith) f)
Free-append a (b ∷ l) r c n (inl here) = inl (inl here)
Free-append a (b ∷ l) r c n (inr f) = elim (Free-append (a + b.size) l r c n f) [
  | inl x ↦ inl (inr x)
  | inr y ↦ inr (subst (λ (x : ℕ). Free x r c n) (omega arith) y)
]

pub Free-front : (a : ℕ) (l r : List Block) (c n : ℕ) → Free a l c n → Free a (l ++ r) c n
Free-front a [] r c n f = elim f [ ]
Free-front a (b ∷ l) r c n (inl here) = inl here
Free-front a (b ∷ l) r c n (inr f) = inr (Free-front (a + b.size) l r c n f)

pub Free-back :
    (a : ℕ) (l r : List Block) (c n : ℕ) → Free (a + total l) r c n → Free a (l ++ r) c n
Free-back a [] r c n f = subst (λ (x : ℕ). Free x r c n) (omega arith) f
Free-back a (b ∷ l) r c n f =
    inr (Free-back (a + b.size) l r c n (subst (λ (x : ℕ). Free x r c n) (omega arith) f))

pub Free-bounds :
    (a : ℕ) (bs : List Block) (c n : ℕ)
    → Sized bs
    → Free a bs c n
    → (a ≤ c) × (c + n ≤ a + total bs) × (16 ≤ n) × (n % 8 ≡ 0)
Free-bounds a [] c n s f = elim f [ ]
Free-bounds a (b ∷ bs) c n s (inl (at, size, free)) =
    let (whole, large, prev, used) = s.0 in
    let large = large free in omega (arith, at, size, whole, large)
Free-bounds a (b ∷ bs) c n s (inr f) =
    let rest = Free-bounds (a + b.size) bs c n s.1 f in omega (arith, rest)

pub Free-size :
    (a : ℕ) (bs : List Block) (c n n' : ℕ) → Sized bs → Free a bs c n → Free a bs c n' → n ≡ n'
Free-size a [] c n n' s f f' = elim f [ ]
Free-size a (b ∷ bs) c n n' s (inl (at, size, free)) (inl (at', size', free')) =
    omega (arith, size, size')
Free-size a (b ∷ bs) c n n' s (inl (at, size, free)) (inr f') =
    let large = s.0.1 free in
    let rest = Free-bounds (a + b.size) bs c n' s.1 f' in absurd (omega (arith, at, large, rest))
Free-size a (b ∷ bs) c n n' s (inr f) (inl (at, size, free)) =
    let large = s.0.1 free in
    let rest = Free-bounds (a + b.size) bs c n s.1 f in absurd (omega (arith, at, large, rest))
Free-size a (b ∷ bs) c n n' s (inr f) (inr f') = Free-size (a + b.size) bs c n n' s.1 f f'

pub Free-Far :
    (a : ℕ) (bs : List Block) (c n c' n' : ℕ)
    → Sized bs
    → Free a bs c n
    → Free a bs c' n'
    → c ≢ c'
    → Far c c'
Free-Far a [] c n c' n' s f f' ne = elim f [ ]
Free-Far a (b ∷ bs) c n c' n' s (inl (at, size, free)) (inl (at', size', free')) ne =
    absurd (ne (at ∙ sym at'))
Free-Far a (b ∷ bs) c n c' n' s (inl (at, size, free)) (inr f') ne =
    let large = s.0.1 free in
    let rest = Free-bounds (a + b.size) bs c' n' s.1 f' in inl (omega (arith, at, large, rest))
Free-Far a (b ∷ bs) c n c' n' s (inr f) (inl (at, size, free)) ne =
    let large = s.0.1 free in
    let rest = Free-bounds (a + b.size) bs c n s.1 f in inr (omega (arith, at, large, rest))
Free-Far a (b ∷ bs) c n c' n' s (inr f) (inr f') ne = Free-Far (a + b.size) bs c n c' n' s.1 f f' ne

pub Meta-bounds :
    (q a : ℕ) (bs : List Block)
    → Sized bs
    → 4 ≤ a
    → Meta q a bs
    → (a ≤ q + 4) × (q + 4 ≤ a + total bs)
Meta-bounds q a [] s low m = elim m [ ]
Meta-bounds q a (b ∷ bs) s low (inl e) = omega (arith, e, low)
Meta-bounds q a (b ∷ bs) s low (inr (inl (free, e))) =
    let large = s.0.1 free in omega (arith, e, low, large)
Meta-bounds q a (b ∷ bs) s low (inr (inr m)) =
    let rest = Meta-bounds q (a + b.size) bs s.1 (omega (arith, low)) m in omega (arith, rest)

-- Headers and footers are no link words of free blocks.
pub Meta-Free :
    (q a : ℕ) (bs : List Block) (c n : ℕ)
    → Sized bs
    → 4 ≤ a
    → Meta q a bs
    → Free a bs c n
    → (q ≢ c) × (q ≢ c + 4)
Meta-Free q a [] c n s low m f = elim f [ ]
Meta-Free q a (b ∷ bs) c n s low (inl e) f =
    let at = Free-bounds a (b ∷ bs) c n s f in
    (λ x. omega (arith, x, e, at, low), λ x. omega (arith, x, e, at, low))
Meta-Free q a (b ∷ bs) c n s low (inr (inl (free, e))) (inl (at, size, free')) =
    let large = s.0.1 free in
    (λ x. omega (arith, x, e, at, large), λ x. omega (arith, x, e, at, large))
Meta-Free q a (b ∷ bs) c n s low (inr (inl (free, e))) (inr f) =
    let large = s.0.1 free in
    let rest = Free-bounds (a + b.size) bs c n s.1 f in
    (λ x. omega (arith, x, e, rest, large), λ x. omega (arith, x, e, rest, large))
Meta-Free q a (b ∷ bs) c n s low (inr (inr m)) (inl (at, size, free)) =
    let large = s.0.1 free in
    let rest = Meta-bounds q (a + b.size) bs s.1 (omega (arith, low)) m in
    (λ x. omega (arith, x, at, rest, large), λ x. omega (arith, x, at, rest, large))
Meta-Free q a (b ∷ bs) c n s low (inr (inr m)) (inr f) =
    Meta-Free q (a + b.size) bs c n s.1 (omega (arith, low)) m f

-- Words outside are no link words of free blocks.
pub Outside-Free :
    (q a : ℕ) (bs : List Block) (c n : ℕ)
    → Sized bs
    → Outside q a bs
    → Free a bs c n
    → (q + 4 < c) ⊎ (c + n ≤ q + 4)
Outside-Free q a [] c n s out f = elim f [ ]
Outside-Free q a (b ∷ bs) c n s out (inl (at, size, free)) = elim (out.1 free) [
  | inl x ↦ inl (omega (arith, x, at))
  | inr x ↦ inr (omega (arith, x, at, size))
]
Outside-Free q a (b ∷ bs) c n s out (inr f) = Outside-Free q (a + b.size) bs c n s.1 out.2 f

-- Every block but the last takes room.
abbrev pub Positive : List Block → Type 0
Positive [] = Unit {0}
Positive (b ∷ bs) = ((bs ≡ []) ⊎ (0 < b.size)) × Positive bs

pub header-size : (b : Block) → SizedBlock b → get_size (header b) ≡ b.size
unfolding get_size
header-size b s = let (whole, large, prev, used) = s in omega (arith, whole, prev, used)

pub Free-get_size :
    (word : ℕ → ℕ) (a : ℕ) (bs : List Block) (c n : ℕ)
    → Sized bs
    → Run word a bs
    → Free a bs c n
    → get_size (word (c - 4)) ≡ n
Free-get_size word a [] c n s run f = elim f [ ]
Free-get_size word a (b ∷ bs) c n s run (inl (at, size, free)) =
    ap (λ x. get_size (word (x - 4))) at ∙ ap get_size run.0 ∙ header-size b s.0 ∙ size
Free-get_size word a (b ∷ bs) c n s run (inr f) = Free-get_size word (a + b.size) bs c n s.1 run.2 f
