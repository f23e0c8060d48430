-- ===== src/Allocator/Heap/Reads.antt =====
-- What the macros of mm.c read in a heap, and the last steps of `coalesce`.
use introduction_to_computer.Base.{
  ℕ, ◌+◌, ◌-◌, ◌*◌, ◌%◌, ◌^◌, ◌<◌, ◌≡◌, inl, refl, sym, ◌∙◌, ap, subst, List, [], ◌∷◌, ◌++◌,
  append_assoc, arith,
}
use introduction_to_computer.Allocator.Memlib.{Mem}
use introduction_to_computer.Allocator.Blocks.{get_size, get_alloc, get_prev_alloc}
use introduction_to_computer.Allocator.State.{Mm, next_blkp, prev_blkp, set_next_dealloc}
use introduction_to_computer.Allocator.Lists.{add_to_list}
use introduction_to_computer.Allocator.Heap.{
  Block, total, total-append, header, SizedBlock, Run-append, Sized-append, Free-back, header-size,
}
use introduction_to_computer.Allocator.Heap.Listed.{Heap}
use introduction_to_computer.Allocator.Heap.Added.{add_to_list-Heap}
use introduction_to_computer.Allocator.Heap.Flags.{flagged, set_next_dealloc-Heap}

header-prev : (b : Block) → SizedBlock b → get_prev_alloc (header b) ≡ b.prev * 2
unfolding get_prev_alloc
header-prev b s = let (whole, large, prev, used) = s in omega (arith, whole, prev, used)

header-used : (b : Block) → SizedBlock b → get_alloc (header b) ≡ b.used
unfolding get_alloc
header-used b s = let (whole, large, prev, used) = s in omega (arith, whole, prev, used)

pub whole-size : (n : ℕ) → n % 8 ≡ 0 → get_size n ≡ n
unfolding get_size
whole-size n whole = omega (arith, whole)

-- What the header of a block says.
pub record Reads (word : ℕ → ℕ) (x : ℕ) (b : Block) : Type 0 where
  pub sized : SizedBlock b
  pub size : get_size (word (x - 4)) ≡ b.size
  pub prev : get_prev_alloc (word (x - 4)) ≡ b.prev * 2
  pub used : get_alloc (word (x - 4)) ≡ b.used
  pub foot : b.used ≡ 0 → word (x + b.size - 8) ≡ b.size
  pub fits : b.size + 8 < 2 ^ 32

module _ (h : ℕ) (m : Mem) (K : ℕ → Type 0) (v : ℕ → ℕ) where
  pub Heap-Reads :
      (s : Mm) (l : List Block) (b : Block) (r : List Block) (X : List ℕ)
      → Heap h m K v s (l ++ b ∷ r) X
      → Reads s.word (h + 8 + total l) b
  Heap-Reads s l b r X heap =
      let sized = (Sized-append l (b ∷ r) heap.shape.sized).1 in
      let run = (Run-append s.word (h + 8) l (b ∷ r) heap.run).1 in
      record {
        sized = sized.0;
        size = ap get_size run.0 ∙ header-size b sized.0;
        prev = ap get_prev_alloc run.0 ∙ header-prev b sized.0;
        used = ap get_alloc run.0 ∙ header-used b sized.0;
        foot = run.1;
        fits = omega (arith, heap.shape.fits, total-append l (b ∷ r));
      }

  pub Heap-prev_blkp :
      (s : Mm) (l : List Block) (p : Block) (r : List Block) (X : List ℕ)
      → Heap h m K v s (l ++ p ∷ r) X
      → p.used ≡ 0
      → prev_blkp s (h + 8 + total l + p.size) ≡ h + 8 + total l
  Heap-prev_blkp s l p r X heap free =
      let reads = Heap-Reads s l p r X heap in
      let size : get_size (s.word (h + 8 + total l + p.size - 8)) ≡ p.size =
        ap get_size (reads.foot free) ∙ whole-size p.size reads.sized.0 in
      omega (arith, size)

  pub shift :
      (s : Mm) (l k r : List Block) (X : List ℕ)
      → Heap h m K v s ((l ++ k) ++ r) X
      → Heap h m K v s (l ++ (k ++ r)) X
  shift s l k r X = subst (λ (bs : List Block). Heap h m K v s bs X) (append_assoc l k r)

  pub unshift :
      (s : Mm) (l k r : List Block) (X : List ℕ)
      → Heap h m K v s (l ++ (k ++ r)) X
      → Heap h m K v s ((l ++ k) ++ r) X
  unshift s l k r X = subst (λ (bs : List Block). Heap h m K v s bs X) (sym (append_assoc l k r))

  pub Heap-Reads_next :
      (s : Mm) (l : List Block) (b c : Block) (r : List Block) (X : List ℕ)
      → Heap h m K v s (l ++ b ∷ c ∷ r) X
      → Reads s.word (h + 8 + total l + b.size) c
  Heap-Reads_next s l b c r X heap =
      subst (λ (z : ℕ). Reads s.word z c) (omega (arith, total-append l (b ∷ [])))
        (Heap-Reads s (l ++ b ∷ []) c r X (unshift s l (b ∷ []) (c ∷ r) X heap))

  pub Heap-next_blkp :
      (s : Mm) (l : List Block) (b : Block) (r : List Block) (X : List ℕ)
      → Heap h m K v s (l ++ b ∷ r) X
      → next_blkp s (h + 8 + total l) ≡ h + 8 + total l + b.size
  Heap-next_blkp s l b r X heap =
      ap (λ (z : ℕ). h + 8 + total l + z) (Heap-Reads s l b r X heap).size

  pub Heap-next_next_blkp :
      (s : Mm) (l : List Block) (b c : Block) (r : List Block) (X : List ℕ)
      → Heap h m K v s (l ++ b ∷ c ∷ r) X
      → next_blkp s (next_blkp s (h + 8 + total l)) ≡ h + 8 + total l + b.size + c.size
  Heap-next_next_blkp s l b c r X heap =
      ap (λ (z : ℕ). next_blkp s z) (Heap-next_blkp s l b (c ∷ r) X heap)
      ∙ ap (λ (z : ℕ). h + 8 + total l + b.size + z) (Heap-Reads_next s l b c r X heap).size

  -- A free block that is in no list is added, and the next block told of it.
  pub finish-Heap :
      (s : Mm) (l : List Block) (b d : Block) (r : List Block)
      → Heap h m K v s (l ++ b ∷ d ∷ r) ((h + 8 + total l) ∷ [])
      → b.used ≡ 0
      → Heap h m K v
          (set_next_dealloc (h + 8 + total l) (add_to_list (h + 8 + total l) s))
          (l ++ b ∷ flagged 0 d ∷ r)
          []
  finish-Heap s l b d r heap free =
      let x = h + 8 + total l in
      let added =
        add_to_list-Heap h m K v s (l ++ b ∷ d ∷ r) [] x b.size heap
          (Free-back (h + 8) l (b ∷ d ∷ r) x b.size (inl (refl, refl, free))) (λ z. z) in
      let size = (Heap-Reads (add_to_list x s) l b (d ∷ r) [] added).size in
      shift _ l (b ∷ []) (flagged 0 d ∷ r) [] (
        set_next_dealloc-Heap h m K v (add_to_list x s) (l ++ b ∷ []) d r []
          (unshift _ l (b ∷ []) (d ∷ r) [] added) x (omega (arith, size, total-append l (b ∷ []))))
