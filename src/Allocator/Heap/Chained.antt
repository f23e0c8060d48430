-- ===== src/Allocator/Heap/Chained.antt =====
-- The flags of neighbouring blocks of the heap of mm.c, and the blocks in use.
use introduction_to_computer.Base.{
  ℕ, ◌+◌, ◌≤◌, ◌≡◌, ◌⊎◌, inl, inr, refl, ◌∙◌, ap, subst, List, [], ◌∷◌, ◌++◌, arith, ◌==◌,
  if◌then◌else◌, Bool-cases,
}
use introduction_to_computer.Allocator.Heap.{Block, total, Outside}
use introduction_to_computer.Allocator.Heap.Parts.{before-Outside}

-- Each block has the flag of the one in front of it, `p` for the first, and no two neighbours are
-- free.
abbrev pub Chained : (p : ℕ) → List Block → Type 0
Chained p [] = Unit {0}
Chained p (b ∷ bs) = (b.prev ≡ p) × (1 ≤ p + b.used) × Chained b.used bs

-- The last block is the epilogue.
abbrev pub Closed : List Block → Type 0
Closed [] = ⊥
Closed (b ∷ []) = (b.used ≡ 1) × (b.size ≡ 0)
Closed (b ∷ c ∷ r) = Closed (c ∷ r)

abbrev pub last_used : ℕ → List Block → ℕ
last_used p [] = p
last_used p (b ∷ bs) = last_used b.used bs

pub Chained-split :
    (p : ℕ) (l r : List Block) → Chained p (l ++ r) → Chained p l × Chained (last_used p l) r
Chained-split p [] r c = (tt, c)
Chained-split p (b ∷ l) r c =
    let (front, back) = Chained-split b.used l r c.2 in ((c.0, c.1, front), back)

pub Chained-join :
    (p : ℕ) (l r : List Block) → Chained p l → Chained (last_used p l) r → Chained p (l ++ r)
Chained-join p [] r front back = back
Chained-join p (b ∷ l) r front back = (front.0, front.1, Chained-join b.used l r front.2 back)

pub Closed-back :
    (l : List Block) (b : Block) (r : List Block) → Closed (l ++ b ∷ r) → Closed (b ∷ r)
Closed-back [] b r c = c
Closed-back (a ∷ []) b r c = c
Closed-back (a ∷ a' ∷ l) b r c = Closed-back (a' ∷ l) b r c

pub Closed-join :
    (l : List Block) (b : Block) (r : List Block) → Closed (b ∷ r) → Closed (l ++ b ∷ r)
Closed-join [] b r c = c
Closed-join (a ∷ []) b r c = c
Closed-join (a ∷ a' ∷ l) b r c = Closed-join (a' ∷ l) b r c

-- Behind a free block the list in front ends with it.
pub record LastFree (l : List Block) : Type 0 where
  pub front : List Block
  pub block : Block
  pub split : l ≡ front ++ block ∷ []
  pub free : block.used ≡ 0

cons-LastFree : (b : Block) (l : List Block) → last_used b.used l ≡ 0 → LastFree (b ∷ l)
cons-LastFree b [] z = record { front = []; block = b; split = refl; free = z }
cons-LastFree b (c ∷ l) z =
    let rest = cons-LastFree c l z in
    record {
      front = b ∷ rest.front;
      block = rest.block;
      split = ap (λ (x : List Block). b ∷ x) rest.split;
      free = rest.free;
    }

pub last-LastFree : (l : List Block) → last_used 1 l ≡ 0 → LastFree l
last-LastFree [] z = absurd (omega (arith, z))
last-LastFree (b ∷ l) z = cons-LastFree b l z

-- The addresses and sizes of the blocks in use.
abbrev pub in_use : (a : ℕ) → List Block → List (ℕ × ℕ)
in_use a [] = []
in_use a (b ∷ bs) =
    let rest = in_use (a + b.size) bs in if b.used == 0 then rest else (a, b.size) ∷ rest

pub in_use-append :
    (a : ℕ) (l r : List Block) → in_use a (l ++ r) ≡ in_use a l ++ in_use (a + total l) r
in_use-append a [] r = ap (λ (x : ℕ). in_use x r) (omega arith)
in_use-append a (b ∷ l) r = elim (Bool-cases (b.used == 0)) [
  | inl free ↦ rw (in_use, free) (in_use-append (a + b.size) l r ∙ tail)
  | inr used ↦
      rw (in_use, used)
        (ap (λ (x : List (ℕ × ℕ)). (a, b.size) ∷ x) (in_use-append (a + b.size) l r ∙ tail))
]
  where
    tail :
        in_use (a + b.size) l ++ in_use (a + b.size + total l) r
        ≡ in_use (a + b.size) l ++ in_use (a + total (b ∷ l)) r
    tail = ap (λ (x : ℕ). in_use (a + b.size) l ++ in_use x r) (omega arith)

-- The word at `q` belongs to the contents of a block in use.
abbrev pub Contents : (a : ℕ) → List Block → (q : ℕ) → Type 0
Contents a [] q = ⊥
Contents a (b ∷ bs) q = ((b.used ≡ 1) × (a ≤ q) × (q + 8 ≤ a + b.size)) ⊎ Contents (a + b.size) bs q

pub Contents-bounds :
    (a : ℕ) (bs : List Block) (q : ℕ) → Contents a bs q → (a ≤ q) × (q + 8 ≤ a + total bs)
Contents-bounds a [] q c = elim c [ ]
Contents-bounds a (b ∷ bs) q (inl here) = omega (arith, here)
Contents-bounds a (b ∷ bs) q (inr c) =
    let rest = Contents-bounds (a + b.size) bs q c in omega (arith, rest)

pub Contents-Outside : (a : ℕ) (bs : List Block) (q : ℕ) → 4 ≤ a → Contents a bs q → Outside q a bs
Contents-Outside a [] q low c = elim c [ ]
Contents-Outside a (b ∷ bs) q low (inl (used, lo, hi)) = (
  λ e. omega (arith, e, lo, low),
  λ free. absurd (omega (arith, free, used)),
  before-Outside q (a + b.size) bs (omega (arith, hi)),
)
Contents-Outside a (b ∷ bs) q low (inr c) =
    let rest = Contents-bounds (a + b.size) bs q c in
    (
      λ e. omega (arith, e, rest, low),
      λ free. inr (omega (arith, rest)),
      Contents-Outside (a + b.size) bs q (omega (arith, low)) c,
    )

pub Contents-front : (a : ℕ) (l r : List Block) (q : ℕ) → Contents a l q → Contents a (l ++ r) q
Contents-front a [] r q c = elim c [ ]
Contents-front a (b ∷ l) r q (inl here) = inl here
Contents-front a (b ∷ l) r q (inr c) = inr (Contents-front (a + b.size) l r q c)

pub Contents-back :
    (a : ℕ) (l r : List Block) (q : ℕ) → Contents (a + total l) r q → Contents a (l ++ r) q
Contents-back a [] r q c = subst (λ (x : ℕ). Contents x r q) (omega arith) c
Contents-back a (b ∷ l) r q c =
    inr (Contents-back (a + b.size) l r q (subst (λ (x : ℕ). Contents x r q) (omega arith) c))
