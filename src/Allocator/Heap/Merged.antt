-- ===== src/Allocator/Heap/Merged.antt =====
-- Free blocks of mm.c that become one: the new header and footer.
use introduction_to_computer.Base.{
  ℕ, ◌+◌, ◌-◌, ◌*◌, ◌%◌, ◌^◌, ◌<◌, ◌≤◌, ◌≡◌, ◌≢◌, ◌⊎◌, inl, inr, List, [], ◌∷◌, ◌++◌, arith,
}
use introduction_to_computer.Allocator.Memlib.{Mem}
use introduction_to_computer.Allocator.Blocks.{get_size}
use introduction_to_computer.Allocator.State.{Mm}
use introduction_to_computer.Allocator.Links.{In}
use introduction_to_computer.Allocator.Heap.{
  Block, total, total-append, header, Sized, Positive, Free, Outside, Sized-append,
}
use introduction_to_computer.Allocator.Heap.Parts.{AllPositive}
use introduction_to_computer.Allocator.Heap.Listed.{Heap}
use introduction_to_computer.Allocator.Heap.Edited.{Edit, Edit-Heap}

abbrev pub AllFree : List Block → Type 0
AllFree [] = Unit {0}
AllFree (b ∷ bs) = (b.used ≡ 0) × AllFree bs

-- One free block in place of several.
abbrev pub merged : Block → List Block → Block
merged b bs = record { size = b.size + total bs; prev = b.prev; used = 0 }

AllFree-AllPositive : (bs : List Block) → Sized bs → AllFree bs → AllPositive bs
AllFree-AllPositive [] s free = tt
AllFree-AllPositive (b ∷ bs) s free =
    let large = s.0.1 free.0 in (omega (arith, large), AllFree-AllPositive bs s.1 free.1)

AllFree-range :
    (q a : ℕ) (bs : List Block) → AllFree bs → Outside q a bs → (q + 4 < a) ⊎ (a + total bs ≤ q + 4)
AllFree-range q a [] free out = ground arith
AllFree-range q a (b ∷ bs) free out = elim (out.1 free.0) [
  | inl low ↦ inl low
  | inr high ↦ elim (AllFree-range q (a + b.size) bs free.1 out.2) [
    | inl low ↦ absurd (omega (arith, low, high))
    | inr high ↦ inr (omega (arith, high))
  ]
]

total-whole : (bs : List Block) → Sized bs → total bs % 8 ≡ 0
total-whole [] s = omega arith
total-whole (b ∷ bs) s =
    let here = s.0.0 in let rest = total-whole bs s.1 in omega (arith, here, rest)

Positive-drop : (bs r : List Block) → Positive (bs ++ r) → Positive r
Positive-drop [] r p = p
Positive-drop (b ∷ bs) r p = Positive-drop bs r p.1

-- The words of the merged block.
pub record Merge (word word' : ℕ → ℕ) (x : ℕ) (b : Block) (bs : List Block) : Type 0 where
  pub head : word' (x - 4) ≡ header (merged b bs)
  pub foot : word' (x + (b.size + total bs) - 8) ≡ b.size + total bs
  pub other : (q : ℕ) → q ≢ x - 4 → q ≢ x + (b.size + total bs) - 8 → word' q ≡ word q

one_block-Edit :
    (K : ℕ → Type 0) (word word' : ℕ → ℕ) (x : ℕ) (b : Block) (bs : List Block) (X : List ℕ)
    → 8 ≤ x
    → Sized (b ∷ bs)
    → AllFree (b ∷ bs)
    → ((c n : ℕ) → Free x (b ∷ bs) c n → In c X)
    → ((c : ℕ) → In c X → (x ≤ c) × (c < x + total (b ∷ bs)))
    → Merge word word' x b bs
    → Edit K word word' x (b ∷ bs) (merged b bs ∷ []) X (x ∷ [])
one_block-Edit K word word' x b bs X low sized free all inside merge = record {
  same_total = omega arith;
  run = (merge.head, λ z. merge.foot, tt);
  sized = ((whole, λ z. omega (arith, large), sized.0.2, omega arith), tt);
  free = λ c n f nin. absurd (nin (all c n f));
  free_back = λ c n f nin. elim f [ inl y ↦ absurd (nin (inl y.0)) | inr none ↦ elim none [ ] ];
  around = λ c o.
      (λ z. λ i. elim i [ inl e ↦ at c o e | inr none ↦ none ], λ z. λ i. out c o (inside c i));
  outside = λ q z o. keep q o (AllFree-range q x (b ∷ bs) free o);
}
  where
    large : 16 ≤ b.size
    large = sized.0.1 free.0

    whole : (b.size + total bs) % 8 ≡ 0
    whole = total-whole (b ∷ bs) sized

    at : (c : ℕ) → (c < x) ⊎ (x + total (b ∷ bs) ≤ c) → c ≡ x → ⊥
    at c (inl z) e = omega (arith, z, e)
    at c (inr z) e = omega (arith, z, e, large)

    out : (c : ℕ) → (c < x) ⊎ (x + total (b ∷ bs) ≤ c) → (x ≤ c) × (c < x + total (b ∷ bs)) → ⊥
    out c (inl z) i = omega (arith, z, i)
    out c (inr z) i = omega (arith, z, i)

    keep :
        (q : ℕ)
        → Outside q x (b ∷ bs)
        → (q + 4 < x) ⊎ (x + total (b ∷ bs) ≤ q + 4)
        → (word' q ≡ word q) × Outside q x (merged b bs ∷ [])
    keep q o range = (merge.other q o.0 (λ e. foot range e), (o.0, λ z. range, tt))
      where
        foot : (q + 4 < x) ⊎ (x + total (b ∷ bs) ≤ q + 4) → q ≡ x + (b.size + total bs) - 8 → ⊥
        foot (inl z) e = omega (arith, z, e, large)
        foot (inr z) e = omega (arith, z, e, large)

module _ (h : ℕ) (m : Mem) (K : ℕ → Type 0) (v : ℕ → ℕ) (s : Mm) (l : List Block) (b : Block)
    (bs r : List Block) (X : List ℕ) where
  pub merged-fits :
      Heap h m K v s (l ++ ((b ∷ bs) ++ r)) X
      → ((b.size + total bs + b.prev * 2) % 2 ^ 32 ≡ b.size + total bs + b.prev * 2)
        × ((b.size + total bs) % 2 ^ 32 ≡ b.size + total bs)
        × (get_size (b.size + total bs + b.prev * 2) ≡ b.size + total bs)
  unfolding get_size
  merged-fits heap =
      let sized = (Sized-append (b ∷ bs) r (Sized-append l ((b ∷ bs) ++ r) heap.shape.sized).1).0 in
      let whole = total-whole (b ∷ bs) sized in
      let prev = sized.0.2 in
      omega (
        arith,
        whole,
        prev,
        heap.shape.fits,
        total-append l ((b ∷ bs) ++ r),
        total-append (b ∷ bs) r,
      )

  -- If the blocks are free and in no list, the merged block is free and in no list.
  pub Merge-Heap :
      (word' : ℕ → ℕ)
      → Heap h m K v s (l ++ ((b ∷ bs) ++ r)) X
      → AllFree (b ∷ bs)
      → ((c n : ℕ) → Free (h + 8 + total l) (b ∷ bs) c n → In c X)
      → ((c : ℕ) → In c X → (h + 8 + total l ≤ c) × (c < h + 8 + total l + total (b ∷ bs)))
      → Merge s.word word' (h + 8 + total l) b bs
      → Heap h m K v (record s { word = word' }) (l ++ merged b bs ∷ r) ((h + 8 + total l) ∷ [])
  Merge-Heap word' heap free all inside merge =
      let sized = (Sized-append (b ∷ bs) r (Sized-append l ((b ∷ bs) ++ r) heap.shape.sized).1).0 in
      let large = sized.0.1 free.0 in
      Edit-Heap h m K v s word' l b bs (merged b bs) [] r X ((h + 8 + total l) ∷ []) heap
        (one_block-Edit K s.word word' (h + 8 + total l) b bs X (omega arith) sized free all inside
          merge)
        (inl (AllFree-AllPositive (b ∷ bs) sized free))
        (λ p. (inr (omega (arith, large)), Positive-drop (b ∷ bs) r p))
