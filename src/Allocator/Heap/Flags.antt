-- ===== src/Allocator/Heap/Flags.antt =====
-- What `SET_NEXT_ALLOC` and `SET_NEXT_DEALLOC` of mm.c make of the heap.
use introduction_to_computer.Base.{
  ℕ, ◌+◌, ◌-◌, ◌%◌, ◌^◌, ◌≤◌, ◌≡◌, ◌≢◌, ◌⊎◌, inl, inr, refl, sym, ◌∙◌, ap, subst, List, [], ◌∷◌,
  ◌++◌, update, update_self, update_ne, arith,
}
use introduction_to_computer.Allocator.Memlib.{Mem}
use introduction_to_computer.Allocator.Blocks.{get_prev_alloc, set_prev_alloc, set_prev_dealloc}
use introduction_to_computer.Allocator.State.{Mm, put, next_blkp, set_next_alloc, set_next_dealloc}
use introduction_to_computer.Allocator.Heap.{
  Block, total, total-append, header, Run, Positive, SizedBlock, Free, Run-append, Sized-append,
}
use introduction_to_computer.Allocator.Heap.Listed.{Heap}
use introduction_to_computer.Allocator.Heap.Parts.{AllPositive, Positive-split}
use introduction_to_computer.Allocator.Heap.Edited.{Edit, Edit-Heap}

-- The block with another flag for its predecessor.
abbrev pub flagged : ℕ → Block → Block
flagged p d = record d { prev = p }

set_prev_alloc-header :
    (d : Block) → SizedBlock d → set_prev_alloc (header d) ≡ header (flagged 1 d)
unfolding set_prev_alloc get_prev_alloc
set_prev_alloc-header d s = let (whole, large, prev, used) = s in omega (arith, whole, prev, used)

set_prev_dealloc-header :
    (d : Block) → SizedBlock d → set_prev_dealloc (header d) ≡ header (flagged 0 d)
unfolding set_prev_dealloc get_prev_alloc
set_prev_dealloc-header d s = let (whole, large, prev, used) = s in omega (arith, whole, prev, used)

flag-Edit :
    (K : ℕ → Type 0) (word : ℕ → ℕ) (x p : ℕ) (d : Block) (X : List ℕ)
    → 8 ≤ x
    → p ≤ 1
    → SizedBlock d
    → Run word x (d ∷ [])
    → Edit K word (update word (x - 4) (header (flagged p d))) x (d ∷ []) (flagged p d ∷ []) X X
flag-Edit K word x p d X low small s run = record {
  same_total = refl;
  run = (
    update_self word (header (flagged p d)) (x - 4),
    λ free. other (x + d.size - 8) (foot (s.1 free)) ∙ run.1 free,
    tt,
  );
  sized = ((s.0, s.1, small, s.3), tt);
  free = λ c n f nin. ((f, nin), other c (link c n f), other (c + 4) (link_4 c n f));
  free_back = λ c n f nin. (f, nin);
  around = λ c o. (λ z. z, λ z. z);
  outside = λ q z o. (other q o.0, o);
}
  where
    other : (q : ℕ) → q ≢ x - 4 → update word (x - 4) (header (flagged p d)) q ≡ word q
    other q ne = update_ne word (header (flagged p d)) ne

    foot : 16 ≤ d.size → x + d.size - 8 ≢ x - 4
    foot large e = omega (arith, large, e, low)

    link : (c n : ℕ) → Free x (d ∷ []) c n → c ≢ x - 4
    link c n (inl f) e = let at = f.0 in omega (arith, at, e, low)
    link c n (inr f) e = elim f [ ]

    link_4 : (c n : ℕ) → Free x (d ∷ []) c n → c + 4 ≢ x - 4
    link_4 c n (inl f) e = let at = f.0 in omega (arith, at, e, low)
    link_4 c n (inr f) e = elim f [ ]

module _ (h : ℕ) (m : Mem) (K : ℕ → Type 0) (v : ℕ → ℕ) (s : Mm) (l : List Block) (d : Block)
    (r : List Block) (X : List ℕ) (heap : Heap h m K v s (l ++ d ∷ r) X) where
  abbrev x : ℕ
  x = h + 8 + total l

  parts : SizedBlock d × Run s.word x (d ∷ [])
  parts =
      let run = (Run-append s.word (h + 8) l (d ∷ r) heap.run).1 in
      let sized = (Sized-append l (d ∷ r) heap.shape.sized).1 in (sized.0, (run.0, run.1, tt))

  small-header : (p : ℕ) → p ≤ 1 → header (flagged p d) % 2 ^ 32 ≡ header (flagged p d)
  small-header p small =
      let ((whole, large, prev, used), run) = parts in
      omega (arith, small, whole, used, heap.shape.fits, total-append l (d ∷ r))

  flagged-Heap :
      (p : ℕ) → p ≤ 1 → Heap h m K v (put (x - 4) (header (flagged p d)) s) (l ++ flagged p d ∷ r) X
  flagged-Heap p small =
      subst
        (λ (w : ℕ).
          Heap h m K v (record s { word = update s.word (x - 4) w }) (l ++ flagged p d ∷ r) X)
        (sym (small-header p small))
        (Edit-Heap h m K v s (update s.word (x - 4) (header (flagged p d))) l d [] (flagged p d) []
          r X X heap (flag-Edit K s.word x p d X (omega arith) small parts.0 parts.1)
          (hollow heap.shape.positive) (λ z. z))
    where
      hollow : Positive (l ++ d ∷ r) → AllPositive (d ∷ []) ⊎ (r ≡ [])
      hollow z = elim (Positive-split l d r z).1.0 [ inl e ↦ inr e | inr takes ↦ inl (takes, tt) ]

  -- `bp` is a block in front of the one at `x`.
  pub set_next_alloc-Heap :
      (bp : ℕ) → next_blkp s bp ≡ x → Heap h m K v (set_next_alloc bp s) (l ++ flagged 1 d ∷ r) X
  unfolding set_next_alloc
  set_next_alloc-Heap bp e =
      subst (λ (t : Mm). Heap h m K v t (l ++ flagged 1 d ∷ r) X)
        (ap (λ (w : ℕ). put (x - 4) w s)
            (sym (ap set_prev_alloc parts.1.0 ∙ set_prev_alloc-header d parts.0))
          ∙ ap (λ (z : ℕ). put (z - 4) (set_prev_alloc (s.word (z - 4))) s) (sym e))
        (flagged-Heap 1 (omega arith))

  pub set_next_dealloc-Heap :
      (bp : ℕ) → next_blkp s bp ≡ x → Heap h m K v (set_next_dealloc bp s) (l ++ flagged 0 d ∷ r) X
  unfolding set_next_dealloc
  set_next_dealloc-Heap bp e =
      subst (λ (t : Mm). Heap h m K v t (l ++ flagged 0 d ∷ r) X)
        (ap (λ (w : ℕ). put (x - 4) w s)
            (sym (ap set_prev_dealloc parts.1.0 ∙ set_prev_dealloc-header d parts.0))
          ∙ ap (λ (z : ℕ). put (z - 4) (set_prev_dealloc (s.word (z - 4))) s) (sym e))
        (flagged-Heap 0 (omega arith))
