-- ===== src/Allocator/Heap/Freed.antt =====
-- `free` of mm.c keeps the heap well-formed.
use introduction_to_computer.Base.{
  ℕ, ◌+◌, ◌<◌, ◌≤◌, ◌≡◌, ◌≢◌, ◌⊎◌, inl, inr, refl, ◌∙◌, List, [], ◌∷◌, ◌++◌, arith, Bool, some,
}
use introduction_to_computer.Allocator.Memlib.{Mem}
use introduction_to_computer.Allocator.State.{Mm}
use introduction_to_computer.Allocator.Malloc.{free}
use introduction_to_computer.Allocator.Heap.{Block, total, Outside}
use introduction_to_computer.Allocator.Heap.Chained.{
  Closed-back, in_use, in_use-append, Contents, Contents-bounds, Contents-Outside, Contents-front,
  Contents-back,
}
use introduction_to_computer.Allocator.Heap.Coalesced.{Ready}
use introduction_to_computer.Allocator.Heap.Released.{released, rebased, free-Ready}

-- The heap between two calls, whatever the contents of the blocks in use: every free block is in the
-- list of its bin, no two neighbours are free, the last block is the epilogue.
abbrev pub WellFormed : (h : ℕ) (m : Mem) → Mm → List Block → Type 0
WellFormed h m = Ready h m (λ q. ⊥) (λ q. 0)

-- For a block in use of at least 16 bytes in a well-formed heap whose `heap_listp` is not NULL,
-- `free` leaves a well-formed heap, in which the blocks in use are those from before without that
-- block, and their contents are the same.
pub free-WellFormed :
    (sbrk_ok : ℕ → Bool) (h : ℕ) (m : Mem) (s : Mm) (l : List Block) (b : Block) (r : List Block)
    → WellFormed h m s (l ++ b ∷ r)
    → b.used ≡ 1
    → 16 ≤ b.size
    → h ≢ 0
    → (bs : List Block) × WellFormed h m (free sbrk_ok (some (h + 8 + total l)) s) bs
      × (in_use (h + 8) bs ≡ in_use (h + 8) l ++ in_use (h + 8 + total l + b.size) r)
      × ((q : ℕ)
          → Contents (h + 8) l q ⊎ Contents (h + 8 + total l + b.size) r q
          → (free sbrk_ok (some (h + 8 + total l)) s).word q ≡ s.word q)
free-WellFormed sbrk_ok h m s l b [] ready used large positive =
    let c = Closed-back l b [] ready.closed in
    let empty = c.1 in absurd (omega (arith, empty, large))
free-WellFormed sbrk_ok h m s l b (d ∷ r) ready used large positive =
    let (bs, again, same) =
      free-Ready h m others s.word sbrk_ok s l b d r
        (record {
          heap =
              rebased h m (λ q. ⊥) (λ q. 0) others s.word s (l ++ b ∷ d ∷ r) [] ready.heap apart
                (λ q k. refl);
          chained = ready.chained;
          closed = ready.closed;
        })
        used large positive avoid in
    (
      bs,
      record {
        heap =
            rebased h m others s.word (λ q. ⊥) (λ q. 0) (free sbrk_ok (some x) s) bs [] again.heap
              (λ q none. elim none [ ]) (λ q none. elim none [ ]);
        chained = again.chained;
        closed = again.closed;
      },
      same ∙ in_use-append (h + 8) l (released b ∷ d ∷ r),
      again.heap.kept,
    )
  where
    x : ℕ
    x = h + 8 + total l

    others : ℕ → Type 0
    others q = Contents (h + 8) l q ⊎ Contents (x + b.size) (d ∷ r) q

    apart : (q : ℕ) → others q → Outside q (h + 8) (l ++ b ∷ d ∷ r)
    apart q (inl c) =
        Contents-Outside (h + 8) (l ++ b ∷ d ∷ r) q (omega arith)
          (Contents-front (h + 8) l (b ∷ d ∷ r) q c)
    apart q (inr c) =
        Contents-Outside (h + 8) (l ++ b ∷ d ∷ r) q (omega arith)
          (Contents-back (h + 8) l (b ∷ d ∷ r) q (inr c))

    avoid : (q : ℕ) → others q → (q + 4 < x) ⊎ (x + b.size ≤ q + 4)
    avoid q (inl c) = let at = Contents-bounds (h + 8) l q c in inl (omega (arith, at))
    avoid q (inr c) = let at = Contents-bounds (x + b.size) (d ∷ r) q c in inr (omega (arith, at))
