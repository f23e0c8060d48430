-- ===== src/Allocator/Heap/Parts.antt =====
-- The blocks of the heap of mm.c in front of an address and behind it.
use introduction_to_computer.Base.{
  ℕ, ◌+◌, ◌<◌, ◌≤◌, ◌≡◌, ◌⊎◌, inl, inr, sym, subst, List, [], ◌∷◌, ◌++◌, arith,
}
use introduction_to_computer.Allocator.Links.{In}
use introduction_to_computer.Allocator.Heap.{
  Block, total, Sized, Free, Meta, Outside, Positive, Free-append, Free-front, Free-back,
  Free-bounds,
}

abbrev pub AllPositive : List Block → Type 0
AllPositive [] = Unit {0}
AllPositive (b ∷ bs) = (0 < b.size) × AllPositive bs

abbrev Full : List Block → Type 0
Full [] = ⊥
Full (b ∷ bs) = Unit {0}

pub Positive-split :
    (l : List Block) (c : Block) (r : List Block)
    → Positive (l ++ c ∷ r)
    → AllPositive l × Positive (c ∷ r)
Positive-split [] c r p = (tt, p)
Positive-split (b ∷ l) c r (here, p) =
    let (front, back) = Positive-split l c r p in ((first l here, front), back)
  where
    first : (l : List Block) → ((l ++ c ∷ r) ≡ []) ⊎ (0 < b.size) → 0 < b.size
    first l (inr x) = x
    first [] (inl e) = absurd (subst Full e tt)
    first (d ∷ l) (inl e) = absurd (subst Full e tt)

pub Positive-join :
    (l : List Block) (c : Block) (r : List Block)
    → AllPositive l
    → Positive (c ∷ r)
    → Positive (l ++ c ∷ r)
Positive-join [] c r front back = back
Positive-join (b ∷ l) c r front back = (inr front.0, Positive-join l c r front.1 back)

pub Outside-append :
    (q a : ℕ) (l r : List Block) → Outside q a (l ++ r) → Outside q a l × Outside q (a + total l) r
Outside-append q a [] r out = (tt, subst (λ (x : ℕ). Outside q x r) (omega arith) out)
Outside-append q a (b ∷ l) r out =
    let (front, back) = Outside-append q (a + b.size) l r out.2 in
    ((out.0, out.1, front), subst (λ (x : ℕ). Outside q x r) (omega arith) back)

pub Outside-join :
    (q a : ℕ) (l r : List Block) → Outside q a l → Outside q (a + total l) r → Outside q a (l ++ r)
Outside-join q a [] r front back = subst (λ (x : ℕ). Outside q x r) (omega arith) back
Outside-join q a (b ∷ l) r front back = (
  front.0,
  front.1,
  Outside-join q (a + b.size) l r front.2 (subst (λ (x : ℕ). Outside q x r) (omega arith) back),
)

-- Addresses in front of all blocks, and behind them if they take room.
pub before-Outside : (q a : ℕ) (bs : List Block) → q + 4 < a → Outside q a bs
before-Outside q a [] low = tt
before-Outside q a (b ∷ bs) low = (
  λ e. omega (arith, e, low),
  λ free. inl low,
  before-Outside q (a + b.size) bs (omega (arith, low)),
)

pub behind-Outside :
    (q a : ℕ) (bs : List Block) → 4 ≤ a → AllPositive bs → a + total bs ≤ q + 4 → Outside q a bs
behind-Outside q a [] low p high = tt
behind-Outside q a (b ∷ bs) low p high =
    let here = p.0 in
    (
      λ e. omega (arith, e, high, here, low),
      λ free. inr (omega (arith, high)),
      behind-Outside q (a + b.size) bs (omega (arith, low)) p.1 (omega (arith, high)),
    )

pub Meta-front :
    (q a : ℕ) (l : List Block) → Sized l → AllPositive l → 4 ≤ a → Meta q a l → q + 4 < a + total l
Meta-front q a [] s p low m = elim m [ ]
Meta-front q a (b ∷ l) s p low (inl e) = let here = p.0 in omega (arith, e, here, low)
Meta-front q a (b ∷ l) s p low (inr (inl (free, e))) =
    let large = s.0.1 free in omega (arith, e, large, low)
Meta-front q a (b ∷ l) s p low (inr (inr m)) =
    let rest = Meta-front q (a + b.size) l s.1 p.1 (omega (arith, low)) m in omega (arith, rest)

-- The free blocks that are not in `X`, when blocks in the middle make way for others.
pub Free-edit :
    (a : ℕ) (l m m' r : List Block) (X Y : List ℕ) (c n : ℕ)
    → Sized l
    → Sized r
    → total m' ≡ total m
    → ((c n : ℕ) → Free (a + total l) m c n → ¬ In c X → Free (a + total l) m' c n × (¬ In c Y))
    → ((c : ℕ) → (c < a + total l) ⊎ (a + total l + total m ≤ c) → ¬ In c X → ¬ In c Y)
    → Free a (l ++ (m ++ r)) c n
    → ¬ In c X
    → Free a (l ++ (m' ++ r)) c n × (¬ In c Y)
Free-edit a l m m' r X Y c n sized_l sized_r same middle around f nin =
    elim (Free-append a l (m ++ r) c n f) [
      | inl x ↦
          let at = Free-bounds a l c n sized_l x in
          (Free-front a l (m' ++ r) c n x, around c (inl (omega (arith, at))) nin)
      | inr y ↦ elim (Free-append (a + total l) m r c n y) [
        | inl x ↦
            let (f', out) = middle c n x nin in
            (Free-back a l (m' ++ r) c n (Free-front (a + total l) m' r c n f'), out)
        | inr x ↦
            let at = Free-bounds (a + total l + total m) r c n sized_r x in
            (
              Free-back a l (m' ++ r) c n (
                  Free-back (a + total l) m' r c n
                    (subst (λ (z : ℕ). Free (a + total l + z) r c n) (sym same) x)),
              around c (inr at.0) nin,
            )
      ]
    ]
