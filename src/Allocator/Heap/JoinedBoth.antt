-- ===== src/Allocator/Heap/JoinedBoth.antt =====
-- The case of `coalesce` of mm.c in which both neighbours are free.
use introduction_to_computer.Base.{
  ℕ, ◌+◌, ◌-◌, ◌*◌, ◌<◌, ◌≤◌, ◌≡◌, inl, inr, refl, sym, ◌∙◌, ap, subst, List, [], ◌∷◌, ◌++◌, arith,
}
use introduction_to_computer.Allocator.Memlib.{Mem}
use introduction_to_computer.Allocator.Blocks.{get_size}
use introduction_to_computer.Allocator.State.{Mm, curr_size, next_blkp, prev_blkp, set_next_alloc}
use introduction_to_computer.Allocator.Lists.{delete_from_list}
use introduction_to_computer.Allocator.Moves.{join_both}
use introduction_to_computer.Allocator.Links.{In}
use introduction_to_computer.Allocator.Heap.{Block, total, total-append, Free, Free-back}
use introduction_to_computer.Allocator.Heap.Listed.{Heap}
use introduction_to_computer.Allocator.Heap.Deleted.{delete_from_list-Heap}
use introduction_to_computer.Allocator.Heap.Flags.{flagged, set_next_alloc-Heap}
use introduction_to_computer.Allocator.Heap.Merged.{merged, merged-fits, Merge-Heap}
use introduction_to_computer.Allocator.Heap.Reads.{
  Reads, Heap-Reads, Heap-Reads_next, Heap-next_blkp, Heap-next_next_blkp, Heap-prev_blkp, shift,
  unshift, finish-Heap, whole-size,
}
use introduction_to_computer.Allocator.Heap.Joined.{fenced, fenced-Merge}
use introduction_to_computer.Allocator.Heap.BothWords.{both_tail, both_tail-words}

module _ (h : ℕ) (m : Mem) (K : ℕ → Type 0) (v : ℕ → ℕ) where
  module _ (s : Mm) (l : List Block) (p b c d : Block) (r : List Block)
      (heap0 : Heap h m K v s (l ++ p ∷ b ∷ c ∷ d ∷ r) ((h + 8 + total l + p.size) ∷ []))
      (free_p : p.used ≡ 0) (free_b : b.used ≡ 0) (free_c : c.used ≡ 0) where
    abbrev y : ℕ
    y = h + 8 + total l

    abbrev x : ℕ
    x = y + p.size

    abbrev n : ℕ
    n = x + b.size

    abbrev bs : List Block
    bs = l ++ p ∷ b ∷ c ∷ d ∷ r

    abbrev X : List ℕ
    X = n ∷ y ∷ x ∷ []

    abbrev b1 : Block
    b1 = flagged 1 b

    large : 16 ≤ p.size
    large = (Heap-Reads h m K v s l p (b ∷ c ∷ d ∷ r) (x ∷ []) heap0).sized.1 free_p

    large_b : 16 ≤ b.size
    large_b = (Heap-Reads_next h m K v s l p b (c ∷ d ∷ r) (x ∷ []) heap0).sized.1 free_b

    -- The third block and the one behind it, seen from the second.
    third :
        (b' d' : Block) {Y : List ℕ} {t : Mm}
        → Heap h m K v t (l ++ p ∷ b' ∷ c ∷ d' ∷ r) Y
        → Heap h m K v t ((l ++ p ∷ []) ++ b' ∷ c ∷ d' ∷ r) Y
    third b' d' {Y} {t} heap = unshift h m K v t l (p ∷ []) (b' ∷ c ∷ d' ∷ r) Y heap

    at_x : h + 8 + total (l ++ p ∷ []) ≡ x
    at_x = omega (arith, total-append l (p ∷ []))

    next_at :
        (b' d' : Block) {Y : List ℕ} (t : Mm)
        → Heap h m K v t (l ++ p ∷ b' ∷ c ∷ d' ∷ r) Y
        → next_blkp t x ≡ x + b'.size
    next_at b' d' {Y} t heap =
        subst (λ (z : ℕ). next_blkp t z ≡ z + b'.size) at_x
          (Heap-next_blkp h m K v t (l ++ p ∷ []) b' (c ∷ d' ∷ r) Y (third b' d' heap))

    next_out :
        {t : Mm}
        → Heap h m K v t bs (y ∷ x ∷ [])
        → Heap h m K v (delete_from_list (next_blkp t x) t) bs X
    next_out {t} heap =
        subst (λ (z : ℕ). Heap h m K v (delete_from_list z t) bs X) (sym (next_at b d t heap))
          (delete_from_list-Heap h m K v t bs (y ∷ x ∷ []) n c.size heap
            (Free-back (h + 8) l (p ∷ b ∷ c ∷ d ∷ r) n c.size
              (inr (inr (inl (refl, refl, free_c)))))
            (λ i. elim i [
              | inl e ↦ omega (arith, e, large)
              | inr i ↦ elim i [ inl e ↦ omega (arith, e, large_b) | inr none ↦ none ]
            ]))

    told_prev :
        {t : Mm}
        → Heap h m K v t bs X
        → Heap h m K v (set_next_alloc (prev_blkp t x) t) (l ++ p ∷ b1 ∷ c ∷ d ∷ r) X
    told_prev {t} heap = shift h m K v _ l (p ∷ []) (b1 ∷ c ∷ d ∷ r) X (
        set_next_alloc-Heap h m K v t (l ++ p ∷ []) b (c ∷ d ∷ r) X (third b d heap) (prev_blkp t x)
          (ap (next_blkp t) (Heap-prev_blkp h m K v t l p (b ∷ c ∷ d ∷ r) X heap free_p)
            ∙ Heap-next_blkp h m K v t l p (b ∷ c ∷ d ∷ r) X heap
            ∙ omega (arith, total-append l (p ∷ []))))

    told_next :
        {t : Mm}
        → Heap h m K v t (l ++ p ∷ b1 ∷ c ∷ d ∷ r) X
        → Heap h m K v (set_next_alloc (next_blkp t x) t) (l ++ p ∷ b1 ∷ c ∷ flagged 1 d ∷ r) X
    told_next {t} heap = shift h m K v _ l (p ∷ b1 ∷ c ∷ []) (flagged 1 d ∷ r) X (
        set_next_alloc-Heap h m K v t (l ++ p ∷ b1 ∷ c ∷ []) d r X
          (unshift h m K v t l (p ∷ b1 ∷ c ∷ []) (d ∷ r) X heap) (next_blkp t x)
          (subst (λ (z : ℕ). next_blkp t (next_blkp t z) ≡ z + b1.size + c.size) at_x
              (Heap-next_next_blkp h m K v t (l ++ p ∷ []) b1 c (d ∷ r) X (third b1 d heap))
            ∙ omega (arith, total-append l (p ∷ b1 ∷ c ∷ []))))

    all : (a k : ℕ) → Free y (p ∷ b1 ∷ c ∷ []) a k → In a X
    all a k (inl f) = inr (inl f.0)
    all a k (inr (inl f)) = inr (inr (inl f.0))
    all a k (inr (inr (inl f))) = inl f.0
    all a k (inr (inr (inr none))) = elim none [ ]

    large_c : 16 ≤ c.size
    large_c =
        (Heap-Reads_next h m K v s (l ++ p ∷ []) b c (d ∷ r) (x ∷ []) (third b d heap0)).sized.1
          free_c

    inside : (a : ℕ) → In a X → (y ≤ a) × (a < y + total (p ∷ b1 ∷ c ∷ []))
    inside a (inl e) = omega (arith, e, large_c)
    inside a (inr (inl e)) = omega (arith, e, large)
    inside a (inr (inr (inl e))) = omega (arith, e, large_b)
    inside a (inr (inr (inr none))) = elim none [ ]

    ends :
        {t : Mm}
        → Heap h m K v t (l ++ p ∷ b1 ∷ c ∷ flagged 1 d ∷ r) X
        → ((both_tail (curr_size s x) x t).0 ≡ y)
          × Heap h m K v
              (both_tail (curr_size s x) x t).1
              (l ++ merged p (b1 ∷ c ∷ []) ∷ flagged 0 d ∷ r)
              []
    ends {t} heap =
        let d1 = flagged 1 d in
        let k = p.size + total (b1 ∷ c ∷ []) in
        let reads = Heap-Reads h m K v t l p (b1 ∷ c ∷ d1 ∷ r) X heap in
        let reads_b1 = Heap-Reads_next h m K v t l p b1 (c ∷ d1 ∷ r) X heap in
        let reads_c : Reads t.word (x + b.size) c =
          subst (λ (z : ℕ). Reads t.word (z + b.size) c) at_x
            (Heap-Reads_next h m K v t (l ++ p ∷ []) b1 c (d1 ∷ r) X (third b1 d1 heap)) in
        let size = (Heap-Reads_next h m K v s l p b (c ∷ d ∷ r) (x ∷ []) heap0).size in
        let (small, small', whole) = merged-fits h m K v t l p (b1 ∷ c ∷ []) (d1 ∷ r) X heap in
        let foot : get_size (t.word (x - 8)) ≡ p.size =
          ap get_size (reads.foot free_p) ∙ whole-size p.size reads.sized.0 in
        let foot_c : get_size (t.word (x + b.size + c.size - 8)) ≡ c.size =
          ap get_size (reads_c.foot free_c) ∙ whole-size c.size reads_c.sized.0 in
        subst
          (λ (u : ℕ × Mm).
            (u.0 ≡ y) × Heap h m K v u.1 (l ++ merged p (b1 ∷ c ∷ []) ∷ flagged 0 d ∷ r) [])
          (sym (
            ap (λ (z : ℕ). both_tail z x t) size
            ∙ both_tail-words t x y b.size p.size c.size k (p.prev * 2) refl (omega arith)
                (omega arith) large_b large large_c foot reads_b1.size reads.size reads_c.size
                foot_c reads.prev small small'))
          (
            refl,
            finish-Heap h m K v (record t { word = fenced t.word y k (p.prev * 2) }) l
                (merged p (b1 ∷ c ∷ [])) d1 r
                (Merge-Heap h m K v t l p (b1 ∷ c ∷ []) (d1 ∷ r) X (fenced t.word y k (p.prev * 2))
                  heap (free_p, (free_b, (free_c, tt))) all inside
                  (fenced-Merge t.word y p (b1 ∷ c ∷ []) (omega arith) large))
                refl,
          )

    pub join_both-Heap :
        ((join_both (h + 8 + total l + p.size) s).0 ≡ h + 8 + total l)
        × Heap h m K v
            (join_both (h + 8 + total l + p.size) s).1
            (l ++ merged p (flagged 1 b ∷ c ∷ []) ∷ flagged 0 d ∷ r)
            []
    unfolding join_both
    join_both-Heap = ends (
        told_next (
          told_prev (
            next_out (
              subst (λ (z : ℕ). Heap h m K v (delete_from_list z s) bs (y ∷ x ∷ []))
                (sym (Heap-prev_blkp h m K v s l p (b ∷ c ∷ d ∷ r) (x ∷ []) heap0 free_p))
                (delete_from_list-Heap h m K v s bs (x ∷ []) y p.size heap0
                  (Free-back (h + 8) l (p ∷ b ∷ c ∷ d ∷ r) y p.size (inl (refl, refl, free_p)))
                  (λ i. elim i [ inl e ↦ omega (arith, e, large) | inr none ↦ none ]))))))
