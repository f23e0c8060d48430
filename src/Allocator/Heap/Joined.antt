-- ===== src/Allocator/Heap/Joined.antt =====
-- The cases of `coalesce` of mm.c in which a neighbour is free.
use introduction_to_computer.Base.{
  ℕ, ◌+◌, ◌-◌, ◌*◌, ◌%◌, ◌^◌, ◌<◌, ◌≤◌, ◌≡◌, inl, inr, refl, sym, ◌∙◌, ap, subst, List, [], ◌∷◌,
  ◌++◌, update, update_self, update_ne, arith,
}
use introduction_to_computer.Allocator.Memlib.{Mem}
use introduction_to_computer.Allocator.Blocks.{pack, get_size, get_prev_alloc}
use introduction_to_computer.Allocator.State.{
  Mm, put, hdrp, ftrp, curr_size, next_blkp, set_next_alloc, set_next_dealloc,
}
use introduction_to_computer.Allocator.Lists.{add_to_list, delete_from_list}
use introduction_to_computer.Allocator.Moves.{join_next}
use introduction_to_computer.Allocator.Links.{In}
use introduction_to_computer.Allocator.Heap.{Block, total, total-append, Free, Free-back}
use introduction_to_computer.Allocator.Heap.Listed.{Heap}
use introduction_to_computer.Allocator.Heap.Deleted.{delete_from_list-Heap}
use introduction_to_computer.Allocator.Heap.Flags.{flagged, set_next_alloc-Heap}
use introduction_to_computer.Allocator.Heap.Merged.{merged, Merge, merged-fits, Merge-Heap}
use introduction_to_computer.Allocator.Heap.Reads.{
  Heap-Reads, Heap-Reads_next, Heap-next_blkp, Heap-next_next_blkp, shift, unshift, finish-Heap,
}

-- A header and a footer that are written over.
abbrev pub fenced : (ℕ → ℕ) → (x n p : ℕ) → ℕ → ℕ
fenced word x n p = update (update word (x - 4) (n + p)) (x + n - 8) n

pub fenced-Merge :
    (word : ℕ → ℕ) (x : ℕ) (b : Block) (bs : List Block)
    → 8 ≤ x
    → 16 ≤ b.size
    → Merge word (fenced word x (b.size + total bs) (b.prev * 2)) x b bs
fenced-Merge word x b bs low large =
    let w1 = update word (x - 4) (b.size + total bs + b.prev * 2) in
    record {
      head =
          update_ne w1 (b.size + total bs) (λ e. omega (arith, e, low, large))
          ∙ update_self word (b.size + total bs + b.prev * 2) (x - 4)
          ∙ omega arith;
      foot = update_self w1 (b.size + total bs) (x + (b.size + total bs) - 8);
      other = λ q ne ne_foot.
          update_ne w1 (b.size + total bs) ne_foot
          ∙ update_ne word (b.size + total bs + b.prev * 2) ne;
    }

-- What case 2 does behind `set_next_alloc`.
abbrev next_tail : (size x : ℕ) → Mm → Mm
next_tail size x s =
    let size = size + curr_size s (next_blkp s x) in
    let s = put (hdrp x) (pack size (get_prev_alloc (s.word (hdrp x)))) s in
    let s = put (ftrp s x) (pack size 0) s in let s = add_to_list x s in set_next_dealloc x s

next_tail-words :
    (s : Mm) (x n n' p : ℕ)
    → get_size (s.word (x - 4)) ≡ n
    → get_size (s.word (x + n - 4)) ≡ n'
    → get_prev_alloc (s.word (x - 4)) ≡ p
    → (n + n' + p) % 2 ^ 32 ≡ n + n' + p
    → (n + n') % 2 ^ 32 ≡ n + n'
    → get_size (n + n' + p) ≡ n + n'
    → next_tail n x s
      ≡ set_next_dealloc x (add_to_list x (record s { word = fenced s.word x (n + n') p }))
unfolding pack
next_tail-words s x n n' p size size' prev small small' whole =
    let w1 = update s.word (x - 4) (n + n' + p) in
    let s1 : Mm = record s { word = w1 } in
    let foot = λ (t : Mm) (k : ℕ). set_next_dealloc x (add_to_list x (put (ftrp t x) (k + 0) t)) in
    let e_size : n + curr_size s (next_blkp s x) ≡ n + n' =
      ap (λ (z : ℕ). n + get_size (s.word (x + z - 4))) size ∙ ap (λ (z : ℕ). n + z) size' in
    let at : ftrp s1 x ≡ x + (n + n') - 8 =
      ap (λ (z : ℕ). x + get_size z - 8) (update_self s.word (n + n' + p) (x - 4))
      ∙ ap (λ (z : ℕ). x + z - 8) whole in
    ap (λ (z : ℕ). foot (put (x - 4) (z + get_prev_alloc (s.word (x - 4))) s) z) e_size
    ∙ ap (λ (z : ℕ). foot (put (x - 4) (n + n' + z) s) (n + n')) prev
    ∙ ap (λ (z : ℕ). foot (record s { word = update s.word (x - 4) z }) (n + n')) small
    ∙ ap (λ (z : ℕ). set_next_dealloc x (add_to_list x (put z (n + n' + 0) s1))) at
    ∙ ap
        (λ (z : ℕ).
          set_next_dealloc x (add_to_list x (record s1 { word = update w1 (x + (n + n') - 8) z })))
        (ap (λ (z : ℕ). z % 2 ^ 32) (omega arith) ∙ small')

module _ (h : ℕ) (m : Mem) (K : ℕ → Type 0) (v : ℕ → ℕ) where
  module _ (s : Mm) (l : List Block) (b c d : Block) (r : List Block)
      (heap0 : Heap h m K v s (l ++ b ∷ c ∷ d ∷ r) ((h + 8 + total l) ∷ [])) (free_b : b.used ≡ 0)
      (free_c : c.used ≡ 0) where
    abbrev x : ℕ
    x = h + 8 + total l

    abbrev n : ℕ
    n = x + b.size

    abbrev bs : List Block
    bs = l ++ b ∷ c ∷ d ∷ r

    large : 16 ≤ b.size
    large = (Heap-Reads h m K v s l b (c ∷ d ∷ r) (x ∷ []) heap0).sized.1 free_b

    told :
        {t : Mm}
        → Heap h m K v t bs (n ∷ x ∷ [])
        → Heap h m K v
            (set_next_alloc (next_blkp t x) t)
            (l ++ b ∷ c ∷ flagged 1 d ∷ r)
            (n ∷ x ∷ [])
    told {t} heap = shift h m K v _ l (b ∷ c ∷ []) (flagged 1 d ∷ r) (n ∷ x ∷ []) (
        set_next_alloc-Heap h m K v t (l ++ b ∷ c ∷ []) d r (n ∷ x ∷ [])
          (unshift h m K v t l (b ∷ c ∷ []) (d ∷ r) (n ∷ x ∷ []) heap) (next_blkp t x)
          (Heap-next_next_blkp h m K v t l b c (d ∷ r) (n ∷ x ∷ []) heap
            ∙ omega (arith, total-append l (b ∷ c ∷ []))))

    all : (a k : ℕ) → Free x (b ∷ c ∷ []) a k → In a (n ∷ x ∷ [])
    all a k (inl f) = inr (inl f.0)
    all a k (inr (inl f)) = inl f.0
    all a k (inr (inr none)) = elim none [ ]

    inside : (a : ℕ) → In a (n ∷ x ∷ []) → (x ≤ a) × (a < x + total (b ∷ c ∷ []))
    inside a (inl e) =
        let large_c = (Heap-Reads_next h m K v s l b c (d ∷ r) (x ∷ []) heap0).sized.1 free_c in
        omega (arith, e, large_c)
    inside a (inr (inl e)) = omega (arith, e, large)
    inside a (inr (inr none)) = elim none [ ]

    ends :
        {t : Mm}
        → Heap h m K v t (l ++ b ∷ c ∷ flagged 1 d ∷ r) (n ∷ x ∷ [])
        → Heap h m K v (next_tail (curr_size s x) x t) (l ++ merged b (c ∷ []) ∷ flagged 0 d ∷ r) []
    ends {t} heap =
        let reads = Heap-Reads h m K v t l b (c ∷ flagged 1 d ∷ r) (n ∷ x ∷ []) heap in
        let reads_c = Heap-Reads_next h m K v t l b c (flagged 1 d ∷ r) (n ∷ x ∷ []) heap in
        let size = (Heap-Reads h m K v s l b (c ∷ d ∷ r) (x ∷ []) heap0).size in
        let (small, small', whole) =
          merged-fits h m K v t l b (c ∷ []) (flagged 1 d ∷ r) (n ∷ x ∷ []) heap in
        let size_c : get_size (t.word (n - 4)) ≡ total (c ∷ []) = omega (arith, reads_c.size) in
        subst (λ (u : Mm). Heap h m K v u (l ++ merged b (c ∷ []) ∷ flagged 0 d ∷ r) [])
          (sym (
            ap (λ (z : ℕ). next_tail z x t) size
            ∙ next_tail-words t x b.size (total (c ∷ [])) (b.prev * 2) reads.size size_c reads.prev
                small small' whole))
          (finish-Heap h m K v
            (record t { word = fenced t.word x (b.size + total (c ∷ [])) (b.prev * 2) }) l
            (merged b (c ∷ [])) (flagged 1 d) r
            (Merge-Heap h m K v t l b (c ∷ []) (flagged 1 d ∷ r) (n ∷ x ∷ [])
              (fenced t.word x (b.size + total (c ∷ [])) (b.prev * 2)) heap (free_b, (free_c, tt))
              all inside (fenced-Merge t.word x b (c ∷ []) (omega arith) large))
            refl)

    -- Case 2: the next block is free.
    pub join_next-Heap :
        Heap h m K v (join_next (h + 8 + total l) s) (l ++ merged b (c ∷ []) ∷ flagged 0 d ∷ r) []
    unfolding join_next
    join_next-Heap = ends (
        told (
          subst (λ (z : ℕ). Heap h m K v (delete_from_list z s) bs (n ∷ x ∷ []))
            (sym (Heap-next_blkp h m K v s l b (c ∷ d ∷ r) (x ∷ []) heap0))
            (delete_from_list-Heap h m K v s bs (x ∷ []) n c.size heap0
              (Free-back (h + 8) l (b ∷ c ∷ d ∷ r) n c.size (inr (inl (refl, refl, free_c))))
              (λ i. elim i [ inl e ↦ omega (arith, e, large) | inr none ↦ none ]))))
