-- ===== src/Allocator/Heap/Coalesced.antt =====
-- `coalesce` of mm.c in each of its cases.
use introduction_to_computer.Base.{
  ℕ, ◌+◌, ◌-◌, ◌≤◌, ◌≡◌, refl, sym, ◌∙◌, ap, subst, List, [], ◌∷◌, ◌++◌, append_assoc, arith, ◌==◌,
  if◌then◌else◌, Bool, true, false,
}
use introduction_to_computer.Allocator.Memlib.{Mem}
use introduction_to_computer.Allocator.Blocks.{get_alloc, get_prev_alloc}
use introduction_to_computer.Allocator.State.{Mm, next_blkp, set_next_dealloc}
use introduction_to_computer.Allocator.Lists.{add_to_list}
use introduction_to_computer.Allocator.Moves.{coalesce, join_next, join_prev, join_both}
use introduction_to_computer.Allocator.Heap.{Block, total, total-append}
use introduction_to_computer.Allocator.Heap.Listed.{Heap}
use introduction_to_computer.Allocator.Heap.Flags.{flagged}
use introduction_to_computer.Allocator.Heap.Merged.{AllFree, merged}
use introduction_to_computer.Allocator.Heap.Reads.{
  Heap-Reads, Heap-Reads_next, Heap-next_blkp, shift, finish-Heap,
}
use introduction_to_computer.Allocator.Heap.Joined.{join_next-Heap}
use introduction_to_computer.Allocator.Heap.JoinedPrev.{join_prev-Heap}
use introduction_to_computer.Allocator.Heap.JoinedBoth.{join_both-Heap}
use introduction_to_computer.Allocator.Heap.Chained.{
  Chained, Closed, last_used, Chained-split, Chained-join, Closed-join, LastFree, last-LastFree,
  in_use, in_use-append,
}

in_use-free : (a : ℕ) (m r : List Block) → AllFree m → in_use a (m ++ r) ≡ in_use (a + total m) r
in_use-free a [] r free = ap (λ (x : ℕ). in_use x r) (omega arith)
in_use-free a (b ∷ m) r free =
    let test : (b.used == 0) ≡ true = ground (arith, free.0) in
    rw (in_use, test)
      (in_use-free (a + b.size) m r free.1 ∙ ap (λ (x : ℕ). in_use x r) (omega arith))

pub in_use-replace :
    (a : ℕ) (l m m' r r' : List Block)
    → AllFree m
    → AllFree m'
    → total m' ≡ total m
    → ((x : ℕ) → in_use x r' ≡ in_use x r)
    → in_use a (l ++ (m' ++ r')) ≡ in_use a (l ++ (m ++ r))
in_use-replace a l m m' r r' free free' same ends =
    in_use-append a l (m' ++ r')
    ∙ ap (λ (x : List (ℕ × ℕ)). in_use a l ++ x)
        (in_use-free (a + total l) m' r' free'
          ∙ ends (a + total l + total m')
          ∙ ap (λ (x : ℕ). in_use (a + total l + x) r) same
          ∙ sym (in_use-free (a + total l) m r free))
    ∙ sym (in_use-append a l (m ++ r))

pub Closed-flagged : (d : Block) (r : List Block) → Closed (d ∷ r) → Closed (flagged 0 d ∷ r)
Closed-flagged d [] c = c
Closed-flagged d (e ∷ r) c = c

-- What `coalesce` does by its two tests.
abbrev choose : (prev_free next_free : Bool) → (bp : ℕ) → Mm → ℕ × Mm
choose prev_free next_free bp s =
    if prev_free
    then (if next_free then join_both bp s else join_prev bp s)
    else if next_free
    then (bp, join_next bp s)
    else (bp, set_next_dealloc bp (add_to_list bp s))

module _ (h : ℕ) (m : Mem) (K : ℕ → Type 0) (v : ℕ → ℕ) where
  -- The heap between two calls: every free block is listed, no two neighbours are free.
  pub record Ready (s : Mm) (bs : List Block) : Type 0 where
    pub heap : Heap h m K v s bs []
    pub chained : Chained 1 bs
    pub closed : Closed bs

  -- A heap with the same blocks in use as `bs`.
  abbrev pub Freed : Mm → List Block → Type 0
  Freed t bs = (bs' : List Block) × Ready t bs' × (in_use (h + 8) bs' ≡ in_use (h + 8) bs)

  -- A free block in the middle that is not listed.
  pub record Loose (s : Mm) (l : List Block) (b d : Block) (r : List Block) (x : ℕ) : Type 0 where
    pub heap : Heap h m K v s (l ++ b ∷ d ∷ r) (x ∷ [])
    pub free : b.used ≡ 0
    pub chained : Chained 1 l
    pub linked : b.prev ≡ last_used 1 l
    pub chained_next : Chained d.used r
    pub closed : Closed (d ∷ r)

  alone :
      (s : Mm) (l : List Block) (b d : Block) (r : List Block)
      → Loose s l b d r (h + 8 + total l)
      → b.prev ≡ 1
      → 1 ≤ d.used
      → Freed (choose false false (h + 8 + total l) s).1 (l ++ b ∷ d ∷ r)
  alone s l b d r loose prev used =
      let linked = loose.linked in
      let free = loose.free in
      (
        l ++ b ∷ flagged 0 d ∷ r,
        record {
          heap = finish-Heap h m K v s l b d r loose.heap loose.free;
          chained = Chained-join 1 l (b ∷ flagged 0 d ∷ r) loose.chained (
            linked,
            omega (arith, linked, prev),
            (sym free, omega (arith, used), loose.chained_next),
          );
          closed = Closed-join l b (flagged 0 d ∷ r) (Closed-flagged d r loose.closed);
        },
        in_use-replace (h + 8) l (b ∷ []) (b ∷ []) (d ∷ r) (flagged 0 d ∷ r) (free, tt) (free, tt)
            refl (λ x. refl),
      )

  next_joined :
      (s : Mm) (l : List Block) (b d e : Block) (r : List Block)
      → Loose s l b d (e ∷ r) (h + 8 + total l)
      → b.prev ≡ 1
      → d.used ≡ 0
      → Freed (choose false true (h + 8 + total l) s).1 (l ++ b ∷ d ∷ e ∷ r)
  next_joined s l b d e r loose prev free_d =
      let linked = loose.linked in
      let used_e = loose.chained_next.1 in
      (
        l ++ merged b (d ∷ []) ∷ flagged 0 e ∷ r,
        record {
          heap = join_next-Heap h m K v s l b d e r loose.heap loose.free free_d;
          chained = Chained-join 1 l (merged b (d ∷ []) ∷ flagged 0 e ∷ r) loose.chained (
            linked,
            omega (arith, linked, prev),
            (refl, omega (arith, free_d, used_e), loose.chained_next.2),
          );
          closed =
              Closed-join l (merged b (d ∷ [])) (flagged 0 e ∷ r) (Closed-flagged e r loose.closed);
        },
        in_use-replace (h + 8) l (b ∷ d ∷ []) (merged b (d ∷ []) ∷ []) (e ∷ r) (flagged 0 e ∷ r)
            (loose.free, (free_d, tt)) (refl, tt) (omega arith) (λ x. refl),
      )

  -- The block in front is free.
  module _ (s : Mm) (k : List Block) (p b d : Block) (r : List Block) (x : ℕ)
      (loose : Loose s (k ++ p ∷ []) b d r x) (free_p : p.used ≡ 0)
      (at : x ≡ h + 8 + total k + p.size) where
    heap_k : Heap h m K v s (k ++ p ∷ b ∷ d ∷ r) ((h + 8 + total k + p.size) ∷ [])
    heap_k =
        subst (λ (z : ℕ). Heap h m K v s (k ++ p ∷ b ∷ d ∷ r) (z ∷ [])) at
          (shift h m K v s k (p ∷ []) (b ∷ d ∷ r) (x ∷ []) loose.heap)

    front : Chained 1 k × (p.prev ≡ last_used 1 k) × (1 ≤ last_used 1 k)
    front =
        let (ck, cp) = Chained-split 1 k (p ∷ []) loose.chained in
        let one = cp.1 in (ck, cp.0, omega (arith, one, free_p))

    with_p : in_use (h + 8) (k ++ p ∷ b ∷ d ∷ r) ≡ in_use (h + 8) ((k ++ p ∷ []) ++ b ∷ d ∷ r)
    with_p = ap (in_use (h + 8)) (sym (append_assoc k (p ∷ []) (b ∷ d ∷ r)))

    prev_joined : 1 ≤ d.used → Freed (choose true false x s).1 ((k ++ p ∷ []) ++ b ∷ d ∷ r)
    prev_joined used =
        let (ck, linked, one) = front in
        let joined = join_prev-Heap h m K v s k p b d r heap_k free_p loose.free in
        (
          k ++ merged p (flagged 1 b ∷ []) ∷ flagged 0 d ∷ r,
          record {
            heap =
                subst
                  (λ (z : ℕ).
                    Heap h m K v (join_prev z s).1
                      (k ++ merged p (flagged 1 b ∷ []) ∷ flagged 0 d ∷ r) [])
                  (sym at) joined.1;
            chained =
                Chained-join 1 k (merged p (flagged 1 b ∷ []) ∷ flagged 0 d ∷ r) ck
                  (linked, omega (arith, one), (refl, omega (arith, used), loose.chained_next));
            closed =
                Closed-join k (merged p (flagged 1 b ∷ [])) (flagged 0 d ∷ r)
                  (Closed-flagged d r loose.closed);
          },
          in_use-replace (h + 8) k (p ∷ b ∷ []) (merged p (flagged 1 b ∷ []) ∷ []) (d ∷ r)
                (flagged 0 d ∷ r) (free_p, (loose.free, tt)) (refl, tt) (omega arith) (λ x. refl)
              ∙ with_p,
        )

  both_joined :
      (s : Mm) (k : List Block) (p b d e : Block) (r : List Block) (x : ℕ)
      → Loose s (k ++ p ∷ []) b d (e ∷ r) x
      → p.used ≡ 0
      → x ≡ h + 8 + total k + p.size
      → d.used ≡ 0
      → Freed (choose true true x s).1 ((k ++ p ∷ []) ++ b ∷ d ∷ e ∷ r)
  both_joined s k p b d e r x loose free_p at free_d =
      let (ck, linked, one) = front s k p b d (e ∷ r) x loose free_p at in
      let used_e = loose.chained_next.1 in
      let all = merged p (flagged 1 b ∷ d ∷ []) in
      let joined =
        join_both-Heap h m K v s k p b d e r (heap_k s k p b d (e ∷ r) x loose free_p at) free_p
          loose.free free_d in
      (
        k ++ all ∷ flagged 0 e ∷ r,
        record {
          heap =
              subst (λ (z : ℕ). Heap h m K v (join_both z s).1 (k ++ all ∷ flagged 0 e ∷ r) [])
                (sym at) joined.1;
          chained = Chained-join 1 k (all ∷ flagged 0 e ∷ r) ck (
            linked,
            omega (arith, one),
            (refl, omega (arith, free_d, used_e), loose.chained_next.2),
          );
          closed = Closed-join k all (flagged 0 e ∷ r) (Closed-flagged e r loose.closed);
        },
        in_use-replace (h + 8) k (p ∷ b ∷ d ∷ []) (all ∷ []) (e ∷ r) (flagged 0 e ∷ r)
              (free_p, (loose.free, (free_d, tt))) (refl, tt) (omega arith) (λ x. refl)
            ∙ with_p s k p b d (e ∷ r) x loose free_p at,
      )

  -- The cases with the block in front taken off the end of the list.
  module _ (s : Mm) (l : List Block) (b d : Block) (r : List Block)
      (loose : Loose s l b d r (h + 8 + total l)) where
    prev-one : (b.prev == 0) ≡ false → b.prev ≡ 1
    prev-one p =
        let sized = (Heap-Reads h m K v s l b (d ∷ r) ((h + 8 + total l) ∷ []) loose.heap).sized in
        let small = sized.2 in ground (arith, p, small)

    last : (b.prev == 0) ≡ true → LastFree l
    last p = let linked = loose.linked in last-LastFree l (ground (arith, p, linked))

    split-Loose : (f : LastFree l) → Loose s (f.front ++ f.block ∷ []) b d r (h + 8 + total l)
    split-Loose f = subst (λ (z : List Block). Loose s z b d r (h + 8 + total l)) f.split loose

    at_last : (f : LastFree l) → h + 8 + total l ≡ h + 8 + total f.front + f.block.size
    at_last f = let e = ap total f.split in omega (arith, e, total-append f.front (f.block ∷ []))

    at_split :
        (f : LastFree l) (t : Mm)
        → Freed t ((f.front ++ f.block ∷ []) ++ b ∷ d ∷ r)
        → Freed t (l ++ b ∷ d ∷ r)
    at_split f t = subst (λ (z : List Block). Freed t (z ++ b ∷ d ∷ r)) (sym f.split)

  chosen :
      (pf nf : Bool) (s : Mm) (l : List Block) (b d : Block) (r : List Block)
      → Loose s l b d r (h + 8 + total l)
      → (b.prev == 0) ≡ pf
      → (d.used == 0) ≡ nf
      → Freed (choose pf nf (h + 8 + total l) s).1 (l ++ b ∷ d ∷ r)
  chosen false false s l b d r loose p n =
      alone s l b d r loose (prev-one s l b d r loose p) (ground (arith, n))
  chosen false true s l b d [] loose p n = absurd (let c = loose.closed.0 in ground (arith, n, c))
  chosen false true s l b d (e ∷ r) loose p n =
      next_joined s l b d e r loose (prev-one s l b d (e ∷ r) loose p) (ground (arith, n))
  chosen true false s l b d r loose p n =
      let f = last s l b d r loose p in
      at_split s l b d r loose f (choose true false (h + 8 + total l) s).1 (
        prev_joined s f.front f.block b d r (h + 8 + total l) (split-Loose s l b d r loose f) f.free
          (at_last s l b d r loose f) (ground (arith, n)))
  chosen true true s l b d [] loose p n = absurd (let c = loose.closed.0 in ground (arith, n, c))
  chosen true true s l b d (e ∷ r) loose p n =
      let f = last s l b d (e ∷ r) loose p in
      at_split s l b d (e ∷ r) loose f (choose true true (h + 8 + total l) s).1 (
        both_joined s f.front f.block b d e r (h + 8 + total l)
          (split-Loose s l b d (e ∷ r) loose f) f.free (at_last s l b d (e ∷ r) loose f)
          (ground (arith, n)))

  -- `coalesce` of a free block that is in no list leaves a heap in which it is part of a free block
  -- that is listed, and the blocks in use are the same.
  pub coalesce-Freed :
      (s : Mm) (l : List Block) (b d : Block) (r : List Block)
      → Loose s l b d r (h + 8 + total l)
      → Freed (coalesce (h + 8 + total l) s).1 (l ++ b ∷ d ∷ r)
  unfolding coalesce
  coalesce-Freed s l b d r loose =
      subst (λ (u : ℕ × Mm). Freed u.1 (l ++ b ∷ d ∷ r)) (sym tests)
        (chosen (b.prev == 0) (d.used == 0) s l b d r loose refl refl)
    where
      x : ℕ
      x = h + 8 + total l

      tests : coalesce x s ≡ choose (b.prev == 0) (d.used == 0) x s
      tests =
          let reads = Heap-Reads h m K v s l b (d ∷ r) (x ∷ []) loose.heap in
          let reads_d = Heap-Reads_next h m K v s l b d r (x ∷ []) loose.heap in
          let next = Heap-next_blkp h m K v s l b (d ∷ r) (x ∷ []) loose.heap in
          let prev = reads.prev in
          let first : (get_prev_alloc (s.word (x - 4)) == 0) ≡ (b.prev == 0) =
            ground (arith, prev) in
          let used : get_alloc (s.word (next_blkp s x - 4)) ≡ d.used =
            ap (λ (z : ℕ). get_alloc (s.word (z - 4))) next ∙ reads_d.used in
          ap (λ (z : Bool). choose z (get_alloc (s.word (next_blkp s x - 4)) == 0) x s) first
          ∙ ap (λ (z : ℕ). choose (b.prev == 0) (z == 0) x s) used
