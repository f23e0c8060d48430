-- ===== src/Allocator/Heap/Released.antt =====
-- What `free` of mm.c does to a block in use.
use introduction_to_computer.Base.{
  ℕ, ◌+◌, ◌-◌, ◌*◌, ◌%◌, ◌^◌, ◌<◌, ◌≤◌, ◌≡◌, ◌≢◌, ◌⊎◌, inl, inr, refl, sym, ◌∙◌, ap, subst, List,
  [], ◌∷◌, ◌++◌, update, update_self, update_ne, arith, ◌==◌, if◌then◌else◌, Bool, false, some,
}
use introduction_to_computer.Allocator.Memlib.{Mem}
use introduction_to_computer.Allocator.Blocks.{pack, get_size, get_prev_alloc}
use introduction_to_computer.Allocator.State.{Mm, put, hdrp, ftrp, curr_size, set_next_dealloc}
use introduction_to_computer.Allocator.Moves.{coalesce}
use introduction_to_computer.Allocator.Malloc.{mm_init, free}
use introduction_to_computer.Allocator.Heap.{Block, total, total-append, SizedBlock, Outside}
use introduction_to_computer.Allocator.Heap.Listed.{Heap}
use introduction_to_computer.Allocator.Heap.Edited.{Edit, Edit-Heap}
use introduction_to_computer.Allocator.Heap.Flags.{flagged, set_next_dealloc-Heap}
use introduction_to_computer.Allocator.Heap.Reads.{Reads, Heap-Reads, shift, unshift}
use introduction_to_computer.Allocator.Heap.Joined.{fenced}
use introduction_to_computer.Allocator.Heap.Chained.{Chained, last_used, Chained-split, Closed-back}
use introduction_to_computer.Allocator.Heap.Coalesced.{
  Ready, Freed, Loose, Closed-flagged, in_use-replace, coalesce-Freed,
}

-- The block, free.
abbrev pub released : Block → Block
released b = record b { used = 0 }

release-Edit :
    (K : ℕ → Type 0) (word : ℕ → ℕ) (x : ℕ) (b : Block)
    → 8 ≤ x
    → 16 ≤ b.size
    → b.used ≡ 1
    → SizedBlock b
    → ((q : ℕ) → K q → (q + 4 < x) ⊎ (x + b.size ≤ q + 4))
    → Edit K word (fenced word x b.size (b.prev * 2)) x (b ∷ []) (released b ∷ []) [] (x ∷ [])
release-Edit K word x b low large used sized avoid =
    let w1 = update word (x - 4) (b.size + b.prev * 2) in
    record {
      same_total = refl;
      run = (
        update_ne w1 b.size (λ e. omega (arith, e, low, large))
            ∙ update_self word (b.size + b.prev * 2) (x - 4)
            ∙ omega arith,
        λ z. update_self w1 b.size (x + b.size - 8),
        tt,
      );
      sized = ((sized.0, λ z. large, sized.2, omega arith), tt);
      free = λ c n f nin. elim f [ inl y ↦ absurd (taken y.2) | inr none ↦ elim none [ ] ];
      free_back = λ c n f nin. elim f [ inl y ↦ absurd (nin (inl y.0)) | inr none ↦ elim none [ ] ];
      around = λ c o. (λ z. λ i. elim i [ inl e ↦ off c o e | inr none ↦ none ], λ z. λ none. none);
      outside = λ q z o. keep q o (range q z);
    }
  where
    taken : b.used ≡ 0 → ⊥
    taken z = omega (arith, z, used)

    off : (c : ℕ) → (c < x) ⊎ (x + (b.size + 0) ≤ c) → c ≡ x → ⊥
    off c (inl z) e = omega (arith, z, e)
    off c (inr z) e = omega (arith, z, e, large)

    range :
        (q : ℕ)
        → K q ⊎ ((q + 4 < x) ⊎ (x + (b.size + 0) ≤ q + 4))
        → (q + 4 < x) ⊎ (x + b.size ≤ q + 4)
    range q (inl k) = avoid q k
    range q (inr (inl z)) = inl z
    range q (inr (inr z)) = inr (omega (arith, z))

    foot : (q : ℕ) → (q + 4 < x) ⊎ (x + b.size ≤ q + 4) → q ≡ x + b.size - 8 → ⊥
    foot q (inl z) e = omega (arith, z, e, large)
    foot q (inr z) e = omega (arith, z, e, large)

    keep :
        (q : ℕ)
        → Outside q x (b ∷ [])
        → (q + 4 < x) ⊎ (x + b.size ≤ q + 4)
        → (fenced word x b.size (b.prev * 2) q ≡ word q) × Outside q x (released b ∷ [])
    keep q o z = (
      update_ne (update word (x - 4) (b.size + b.prev * 2)) b.size (foot q z)
          ∙ update_ne word (b.size + b.prev * 2) o.0,
      (o.0, λ free. z, tt),
    )

-- What `free` does behind `mm_init`.
abbrev free_tail : (size x : ℕ) → Mm → Mm
free_tail size x s =
    let s = put (hdrp x) (pack size (get_prev_alloc (s.word (hdrp x)))) s in
    let s = put (ftrp s x) (pack size 0) s in (coalesce x (set_next_dealloc x s)).1

free_tail-words :
    (s : Mm) (x n p : ℕ)
    → get_prev_alloc (s.word (x - 4)) ≡ p
    → (n + p) % 2 ^ 32 ≡ n + p
    → n % 2 ^ 32 ≡ n
    → get_size (n + p) ≡ n
    → free_tail n x s
      ≡ (coalesce x (set_next_dealloc x (record s { word = fenced s.word x n p }))).1
unfolding pack
free_tail-words s x n p prev small small' whole =
    let w1 = update s.word (x - 4) (n + p) in
    let s1 : Mm = record s { word = w1 } in
    let foot = λ (t : Mm). (coalesce x (set_next_dealloc x (put (ftrp t x) (n + 0) t))).1 in
    let at : ftrp s1 x ≡ x + n - 8 =
      ap (λ (z : ℕ). x + get_size z - 8) (update_self s.word (n + p) (x - 4))
      ∙ ap (λ (z : ℕ). x + z - 8) whole in
    ap (λ (z : ℕ). foot (put (x - 4) (n + z) s)) prev
    ∙ ap (λ (z : ℕ). foot (record s { word = update s.word (x - 4) z })) small
    ∙ ap (λ (z : ℕ). (coalesce x (set_next_dealloc x (put z (n + 0) s1))).1) at
    ∙ ap
        (λ (z : ℕ).
          (coalesce x (set_next_dealloc x (record s1 { word = update w1 (x + n - 8) z }))).1)
        (ap (λ (z : ℕ). z % 2 ^ 32) (omega arith) ∙ small')

size-of : {n p : ℕ} → n % 8 ≡ 0 → p ≤ 1 → get_size (n + p * 2) ≡ n
unfolding get_size
size-of whole small = omega (arith, whole, small)

module _ (h : ℕ) (m : Mem) (K : ℕ → Type 0) (v : ℕ → ℕ) where
  -- The same heap with other words to keep.
  pub rebased :
      (K' : ℕ → Type 0) (v' : ℕ → ℕ) (s : Mm) (bs : List Block) (X : List ℕ)
      → Heap h m K v s bs X
      → ((q : ℕ) → K' q → Outside q (h + 8) bs)
      → ((q : ℕ) → K' q → s.word q ≡ v' q)
      → Heap h m K' v' s bs X
  rebased K' v' s bs X heap apart kept = record {
    at = heap.at;
    memory = heap.memory;
    shape = record {
      sized = heap.shape.sized;
      positive = heap.shape.positive;
      fits = heap.shape.fits;
      apart = apart;
    };
    run = heap.run;
    listing = record {
      lists = heap.listing.lists;
      bins = heap.listing.bins;
      listed = heap.listing.listed;
      complete = heap.listing.complete;
    };
    kept = kept;
  }

  module _ (sbrk_ok : ℕ → Bool) (s : Mm) (l : List Block) (b d : Block) (r : List Block)
      (ready : Ready h m K v s (l ++ b ∷ d ∷ r)) (used : b.used ≡ 1) (large : 16 ≤ b.size)
      (positive : h ≢ 0)
      (avoid : ((q : ℕ)
        → K q
        → (q + 4 < h + 8 + total l) ⊎ (h + 8 + total l + b.size ≤ q + 4))) where
    abbrev x : ℕ
    x = h + 8 + total l

    abbrev b' : Block
    b' = released b

    abbrev word' : ℕ → ℕ
    word' = fenced s.word x b.size (b.prev * 2)

    abbrev t1 : Mm
    t1 = record s { word = word' }

    abbrev t2 : Mm
    t2 = set_next_dealloc x t1

    fields : Reads s.word x b
    fields = Heap-Reads h m K v s l b (d ∷ r) [] ready.heap

    chain_parts : Chained 1 l × Chained (last_used 1 l) (b ∷ d ∷ r)
    chain_parts = Chained-split 1 l (b ∷ d ∷ r) ready.chained

    heap1 : Heap h m K v t1 (l ++ b' ∷ d ∷ r) (x ∷ [])
    heap1 =
        Edit-Heap h m K v s word' l b [] b' [] (d ∷ r) [] (x ∷ []) ready.heap
          (release-Edit K s.word x b (omega arith) large used fields.sized avoid)
          (inl (omega (arith, large), tt)) (λ p. (inr (omega (arith, large)), p.1))

    heap2 : Heap h m K v t2 (l ++ b' ∷ flagged 0 d ∷ r) (x ∷ [])
    heap2 =
        let size = (Heap-Reads h m K v t1 l b' (d ∷ r) (x ∷ []) heap1).size in
        shift h m K v t2 l (b' ∷ []) (flagged 0 d ∷ r) (x ∷ []) (
          set_next_dealloc-Heap h m K v t1 (l ++ b' ∷ []) d r (x ∷ [])
            (unshift h m K v t1 l (b' ∷ []) (d ∷ r) (x ∷ []) heap1) x
            (omega (arith, size, total-append l (b' ∷ []))))

    b'-Loose : Loose h m K v t2 l b' (flagged 0 d) r x
    b'-Loose = record {
      heap = heap2;
      free = refl;
      chained = chain_parts.0;
      linked = chain_parts.1.0;
      chained_next = chain_parts.1.2.2;
      closed = Closed-flagged d r (Closed-back l b (d ∷ r) ready.closed);
    }

    known :
        {t : Mm} → Freed h m K v t (l ++ b' ∷ flagged 0 d ∷ r) → Freed h m K v t (l ++ b' ∷ d ∷ r)
    known {t} (bs, again, e) = (
      bs,
      again,
      e
          ∙ in_use-replace (h + 8) l (b' ∷ []) (b' ∷ []) (d ∷ r) (flagged 0 d ∷ r) (refl, tt)
              (refl, tt) refl (λ z. refl),
    )

    runs : free sbrk_ok (some x) s ≡ (coalesce x t2).1
    unfolding free coalesce
    runs =
        let (whole, big, prev, flag) = fields.sized in
        let fits = fields.fits in
        let started : (s.heap_listp == 0) ≡ false = ground (arith, ready.heap.at, positive) in
        ap (λ (z : Bool). free_tail (curr_size s x) x (if z then (mm_init sbrk_ok s).1 else s))
          started
        ∙ ap (λ (z : ℕ). free_tail z x s) fields.size
        ∙ free_tail-words s x b.size (b.prev * 2) fields.prev (omega (arith, prev, fits, whole))
            (omega (arith, fits)) (size-of whole prev)

    pub free-Ready :
        Freed h m K v (free sbrk_ok (some (h + 8 + total l)) s) (l ++ released b ∷ d ∷ r)
    free-Ready =
        subst (λ (t : Mm). Freed h m K v t (l ++ b' ∷ d ∷ r)) (sym runs)
          (known (coalesce-Freed h m K v t2 l b' (flagged 0 d) r b'-Loose))
