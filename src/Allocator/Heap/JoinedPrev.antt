-- ===== src/Allocator/Heap/JoinedPrev.antt =====
-- The case of `coalesce` of mm.c in which only the previous block is free.
use introduction_to_computer.Base.{
  ℕ, ◌+◌, ◌-◌, ◌*◌, ◌%◌, ◌^◌, ◌<◌, ◌≤◌, ◌≡◌, inl, inr, refl, sym, ◌∙◌, ap, subst, List, [], ◌∷◌,
  ◌++◌, update, update_self, update_ne, arith,
}
use introduction_to_computer.Allocator.Memlib.{Mem}
use introduction_to_computer.Allocator.Blocks.{pack, get_size, get_prev_alloc}
use introduction_to_computer.Allocator.State.{
  Mm, put, hdrp, ftrp, curr_size, next_blkp, prev_blkp, set_next_alloc, set_next_dealloc,
}
use introduction_to_computer.Allocator.Lists.{add_to_list, delete_from_list}
use introduction_to_computer.Allocator.Moves.{join_prev}
use introduction_to_computer.Allocator.Links.{In}
use introduction_to_computer.Allocator.Heap.{Block, total, total-append, Free, Free-back}
use introduction_to_computer.Allocator.Heap.Listed.{Heap}
use introduction_to_computer.Allocator.Heap.Deleted.{delete_from_list-Heap}
use introduction_to_computer.Allocator.Heap.Flags.{flagged, set_next_alloc-Heap}
use introduction_to_computer.Allocator.Heap.Merged.{merged, Merge, merged-fits, Merge-Heap}
use introduction_to_computer.Allocator.Heap.Reads.{
  Reads, Heap-Reads, Heap-Reads_next, Heap-next_blkp, Heap-prev_blkp, shift, unshift, finish-Heap,
  whole-size,
}

-- A footer and a header that are written over.
abbrev fenced_back : (ℕ → ℕ) → (y n p : ℕ) → ℕ → ℕ
fenced_back word y n p = update (update word (y + n - 8) n) (y - 4) (n + p)

fenced_back-Merge :
    (word : ℕ → ℕ) (y : ℕ) (b : Block) (bs : List Block)
    → 8 ≤ y
    → 16 ≤ b.size
    → Merge word (fenced_back word y (b.size + total bs) (b.prev * 2)) y b bs
fenced_back-Merge word y b bs low large =
    let n = b.size + total bs in
    let w1 = update word (y + n - 8) n in
    record {
      head = update_self w1 (n + b.prev * 2) (y - 4) ∙ omega arith;
      foot =
          update_ne w1 (n + b.prev * 2) (λ e. omega (arith, e, low, large))
          ∙ update_self word n (y + n - 8);
      other = λ q ne ne_foot. update_ne w1 (n + b.prev * 2) ne ∙ update_ne word n ne_foot;
    }

-- What case 3 does behind `set_next_alloc`, from its end on.
abbrev pub listed_at : (bp : ℕ) → Mm → ℕ × Mm
listed_at bp s = (bp, set_next_dealloc bp (add_to_list bp s))

abbrev head_at : (size x bp : ℕ) → Mm → ℕ × Mm
head_at size x bp s =
    let s = put (hdrp bp) (pack size (get_prev_alloc (s.word (hdrp bp)))) s in
    listed_at (prev_blkp s x) s

abbrev prev_tail : (size x : ℕ) → Mm → ℕ × Mm
prev_tail size x s =
    let size = size + curr_size s (prev_blkp s x) in
    let s = put (ftrp s x) (pack size 0) s in head_at size x (prev_blkp s x) s

prev_tail-words :
    (s : Mm) (x y n n' p : ℕ)
    → x ≡ y + n'
    → 8 ≤ y
    → 16 ≤ n
    → 16 ≤ n'
    → get_size (s.word (x - 8)) ≡ n'
    → get_size (s.word (x - 4)) ≡ n
    → get_size (s.word (y - 4)) ≡ n'
    → get_prev_alloc (s.word (y - 4)) ≡ p
    → (n' + n + p) % 2 ^ 32 ≡ n' + n + p
    → (n' + n) % 2 ^ 32 ≡ n' + n
    → prev_tail n x s ≡ listed_at y (record s { word = fenced_back s.word y (n' + n) p })
unfolding pack
prev_tail-words s x y n n' p e low large large' foot size size' prev small small' =
    let k = n' + n in
    let w1 = update s.word (y + k - 8) k in
    let s1 : Mm = record s { word = w1 } in
    let w2 = update w1 (y - 4) (k + p) in
    let s2 : Mm = record s { word = w2 } in
    let tail = λ (size : ℕ) (t : Mm). head_at size x (prev_blkp t x) t in
    let at_prev : prev_blkp s x ≡ y = omega (arith, foot, e) in
    let e_size : n + curr_size s (prev_blkp s x) ≡ k =
      ap (λ (z : ℕ). n + curr_size s z) at_prev ∙ omega (arith, size') in
    let at : ftrp s x ≡ y + k - 8 = omega (arith, size, e) in
    let foot_1 : w1 (x - 8) ≡ s.word (x - 8) =
      update_ne s.word k (λ z. omega (arith, z, e, large, large', low)) in
    let at_prev_1 : prev_blkp s1 x ≡ y =
      ap (λ (z : ℕ). x - get_size z) foot_1 ∙ omega (arith, foot, e) in
    let foot_2 : w2 (x - 8) ≡ s.word (x - 8) =
      update_ne w1 (k + p) (λ z. omega (arith, z, e, large, large', low)) ∙ foot_1 in
    let at_prev_2 : prev_blkp s2 x ≡ y =
      ap (λ (z : ℕ). x - get_size z) foot_2 ∙ omega (arith, foot, e) in
    let prev_1 : get_prev_alloc (w1 (y - 4)) ≡ p =
      ap get_prev_alloc (update_ne s.word k (λ z. omega (arith, z, e, large, large', low)))
      ∙ prev in
    ap (λ (z : ℕ). tail z (put (ftrp s x) (z + 0) s)) e_size
    ∙ ap (λ (z : ℕ). tail k (put z (k + 0) s)) at
    ∙ ap (λ (z : ℕ). tail k (record s { word = update s.word (y + k - 8) z }))
        (ap (λ (z : ℕ). z % 2 ^ 32) (omega arith) ∙ small')
    ∙ ap (λ (z : ℕ). head_at k x z s1) at_prev_1
    ∙ ap (λ (z : ℕ). let t = put (y - 4) (k + z) s1 in listed_at (prev_blkp t x) t) prev_1
    ∙ ap
        (λ (z : ℕ).
          let t : Mm = record s1 { word = update w1 (y - 4) z } in listed_at (prev_blkp t x) t)
        small
    ∙ ap (λ (z : ℕ). listed_at z s2) at_prev_2

module _ (h : ℕ) (m : Mem) (K : ℕ → Type 0) (v : ℕ → ℕ) where
  module _ (s : Mm) (l : List Block) (p b d : Block) (r : List Block)
      (heap0 : Heap h m K v s (l ++ p ∷ b ∷ d ∷ r) ((h + 8 + total l + p.size) ∷ []))
      (free_p : p.used ≡ 0) (free_b : b.used ≡ 0) where
    abbrev y : ℕ
    y = h + 8 + total l

    abbrev x : ℕ
    x = y + p.size

    abbrev bs : List Block
    bs = l ++ p ∷ b ∷ d ∷ r

    abbrev b1 : Block
    b1 = flagged 1 b

    large : 16 ≤ p.size
    large = (Heap-Reads h m K v s l p (b ∷ d ∷ r) (x ∷ []) heap0).sized.1 free_p

    b_fields : Reads s.word x b
    b_fields = Heap-Reads_next h m K v s l p b (d ∷ r) (x ∷ []) heap0

    told :
        {t : Mm}
        → Heap h m K v t bs (y ∷ x ∷ [])
        → Heap h m K v (set_next_alloc (prev_blkp t x) t) (l ++ p ∷ b1 ∷ d ∷ r) (y ∷ x ∷ [])
    told {t} heap = shift h m K v _ l (p ∷ []) (b1 ∷ d ∷ r) (y ∷ x ∷ []) (
        set_next_alloc-Heap h m K v t (l ++ p ∷ []) b (d ∷ r) (y ∷ x ∷ [])
          (unshift h m K v t l (p ∷ []) (b ∷ d ∷ r) (y ∷ x ∷ []) heap) (prev_blkp t x)
          (ap (next_blkp t) (Heap-prev_blkp h m K v t l p (b ∷ d ∷ r) (y ∷ x ∷ []) heap free_p)
            ∙ Heap-next_blkp h m K v t l p (b ∷ d ∷ r) (y ∷ x ∷ []) heap
            ∙ omega (arith, total-append l (p ∷ []))))

    all : (a k : ℕ) → Free y (p ∷ b1 ∷ []) a k → In a (y ∷ x ∷ [])
    all a k (inl f) = inl f.0
    all a k (inr (inl f)) = inr (inl f.0)
    all a k (inr (inr none)) = elim none [ ]

    inside : (a : ℕ) → In a (y ∷ x ∷ []) → (y ≤ a) × (a < y + total (p ∷ b1 ∷ []))
    inside a (inl e) = omega (arith, e, large)
    inside a (inr (inl e)) = let large_b = b_fields.sized.1 free_b in omega (arith, e, large_b)
    inside a (inr (inr none)) = elim none [ ]

    ends :
        {t : Mm}
        → Heap h m K v t (l ++ p ∷ b1 ∷ d ∷ r) (y ∷ x ∷ [])
        → ((prev_tail (curr_size s x) x t).0 ≡ y)
          × Heap h m K v
              (prev_tail (curr_size s x) x t).1
              (l ++ merged p (b1 ∷ []) ∷ flagged 0 d ∷ r)
              []
    ends {t} heap =
        let reads = Heap-Reads h m K v t l p (b1 ∷ d ∷ r) (y ∷ x ∷ []) heap in
        let reads_b1 = Heap-Reads_next h m K v t l p b1 (d ∷ r) (y ∷ x ∷ []) heap in
        let (small, small', whole) =
          merged-fits h m K v t l p (b1 ∷ []) (d ∷ r) (y ∷ x ∷ []) heap in
        let large_b = b_fields.sized.1 free_b in
        let foot : get_size (t.word (x - 8)) ≡ p.size =
          ap get_size (reads.foot free_p) ∙ whole-size p.size reads.sized.0 in
        subst
          (λ (u : ℕ × Mm).
            (u.0 ≡ y) × Heap h m K v u.1 (l ++ merged p (b1 ∷ []) ∷ flagged 0 d ∷ r) [])
          (sym (
            ap (λ (z : ℕ). prev_tail z x t) (b_fields.size ∙ omega arith)
            ∙ prev_tail-words t x y (total (b1 ∷ [])) p.size (p.prev * 2) refl (omega arith)
                (omega (arith, large_b)) large foot (omega (arith, reads_b1.size)) reads.size
                reads.prev small small'))
          (
            refl,
            finish-Heap h m K v
                (record t { word = fenced_back t.word y (p.size + total (b1 ∷ [])) (p.prev * 2) }) l
                (merged p (b1 ∷ [])) d r
                (Merge-Heap h m K v t l p (b1 ∷ []) (d ∷ r) (y ∷ x ∷ [])
                  (fenced_back t.word y (p.size + total (b1 ∷ [])) (p.prev * 2)) heap
                  (free_p, (free_b, tt)) all inside
                  (fenced_back-Merge t.word y p (b1 ∷ []) (omega arith) large))
                refl,
          )

    pub join_prev-Heap :
        ((join_prev (h + 8 + total l + p.size) s).0 ≡ h + 8 + total l)
        × Heap h m K v
            (join_prev (h + 8 + total l + p.size) s).1
            (l ++ merged p (flagged 1 b ∷ []) ∷ flagged 0 d ∷ r)
            []
    unfolding join_prev
    join_prev-Heap = ends (
        told (
          subst (λ (z : ℕ). Heap h m K v (delete_from_list z s) bs (y ∷ x ∷ []))
            (sym (Heap-prev_blkp h m K v s l p (b ∷ d ∷ r) (x ∷ []) heap0 free_p))
            (delete_from_list-Heap h m K v s bs (x ∷ []) y p.size heap0
              (Free-back (h + 8) l (p ∷ b ∷ d ∷ r) y p.size (inl (refl, refl, free_p)))
              (λ i. elim i [ inl e ↦ omega (arith, e, large) | inr none ↦ none ]))))
