-- ===== src/Allocator/Heap/Edited.antt =====
-- What a change of the words of blocks in the middle of the heap of mm.c makes of the heap.
use introduction_to_computer.Base.{
  ℕ, ◌+◌, ◌<◌, ◌≤◌, ◌≡◌, ◌⊎◌, inl, inr, refl, sym, ◌∙◌, subst, List, [], ◌∷◌, ◌++◌, arith,
}
use introduction_to_computer.Allocator.Memlib.{Mem}
use introduction_to_computer.Allocator.State.{Mm}
use introduction_to_computer.Allocator.Links.{In}
use introduction_to_computer.Allocator.Heap.{
  Block, total, total-append, Run, Sized, Positive, Free, Meta, Outside, Run-same, Run-append,
  Run-join, Sized-append, Sized-join, Free-append, Free-bounds, Meta-bounds,
}
use introduction_to_computer.Allocator.Heap.Parts.{
  AllPositive, Positive-split, Positive-join, Outside-append, Outside-join, before-Outside,
  behind-Outside, Meta-front, Free-edit,
}
use introduction_to_computer.Allocator.Heap.Listed.{Shape, Listing, Known, Heap, Bin-same}

-- The words `word'` hold the blocks `m'` where `word` holds `m`; no word of `K` and none outside of
-- `m` differs, and no link word of its free blocks that are not in `X`. These are those of `m'` that are not in `Y`.
pub record Edit (K : ℕ → Type 0) (word word' : ℕ → ℕ) (x : ℕ) (m m' : List Block) (X Y : List ℕ)
    : Type 0 where
  pub same_total : total m' ≡ total m
  pub run : Run word' x m'
  pub sized : Sized m'
  pub free :
      (c n : ℕ)
      → Free x m c n
      → ¬ In c X
      → (Free x m' c n × (¬ In c Y)) × (word' c ≡ word c) × (word' (c + 4) ≡ word (c + 4))
  pub free_back : (c n : ℕ) → Free x m' c n → ¬ In c Y → Free x m c n × (¬ In c X)
  pub around :
      (c : ℕ) → (c < x) ⊎ (x + total m ≤ c) → ((¬ In c X) → ¬ In c Y) × ((¬ In c Y) → ¬ In c X)
  pub outside :
      (q : ℕ)
      → K q ⊎ ((q + 4 < x) ⊎ (x + total m ≤ q + 4))
      → Outside q x m
      → (word' q ≡ word q) × Outside q x m'

module _ (h : ℕ) (mem : Mem) (K : ℕ → Type 0) (v : ℕ → ℕ) where
  module _ (s : Mm) (word' : ℕ → ℕ) (l : List Block) (d : Block) (m : List Block) (d' : Block)
      (m' r : List Block) (X Y : List ℕ) where
    abbrev pub x : ℕ
    x = h + 8 + total l

    module _ (heap : Heap h mem K v s (l ++ ((d ∷ m) ++ r)) X)
        (edit : Edit K s.word word' x (d ∷ m) (d' ∷ m') X Y)
        (hollow : AllPositive (d ∷ m) ⊎ (r ≡ [])) where
      parts-Sized : Sized l × Sized r
      parts-Sized =
          let (front, back) = Sized-append l ((d ∷ m) ++ r) heap.shape.sized in
          (front, (Sized-append (d ∷ m) r back).1)

      same_front : (q : ℕ) → q + 4 < x → word' q ≡ s.word q
      same_front q low = (edit.outside q (inr (inl low)) (before-Outside q x (d ∷ m) low)).0

      same_behind : (q : ℕ) → x + total (d ∷ m) ≤ q + 4 → (r ≡ [] → ⊥) → word' q ≡ s.word q
      same_behind q high full = elim hollow [
        | inl takes ↦
            (edit.outside q (inr (inr high))
              (behind-Outside q x (d ∷ m) (omega arith) takes high)).0
        | inr none ↦ absurd (full none)
      ]

      edited-Run : Run word' (h + 8) (l ++ ((d' ∷ m') ++ r))
      edited-Run =
          let (run_l, rest) = Run-append s.word (h + 8) l ((d ∷ m) ++ r) heap.run in
          let (run_m, run_r) = Run-append s.word x (d ∷ m) r rest in
          let takes = (Positive-split l d (m ++ r) heap.shape.positive).0 in
          Run-join word' (h + 8) l ((d' ∷ m') ++ r)
            (Run-same s.word word' (h + 8) l
              (λ q i. same_front q (Meta-front q (h + 8) l parts-Sized.0 takes (omega arith) i))
              run_l)
            (Run-join word' x (d' ∷ m') r edit.run (
              subst (λ (z : ℕ). Run word' (x + z) r) (sym edit.same_total)
                (Run-same s.word word' (x + total (d ∷ m)) r
                  (λ q i.
                    same_behind q
                      (Meta-bounds q (x + total (d ∷ m)) r parts-Sized.1 (omega arith) i).0
                      (λ e. subst (Meta q (x + total (d ∷ m))) e i))
                  run_r)))

      edited-Known :
          (i c : ℕ)
          → Known h mem K v (l ++ ((d ∷ m) ++ r)) X i c
          → Known h mem K v (l ++ ((d' ∷ m') ++ r)) Y i c
      edited-Known i c ((n, f, at), nin) =
          let (f', out) =
            Free-edit (h + 8) l (d ∷ m) (d' ∷ m') r X Y c n parts-Sized.0 parts-Sized.1
              edit.same_total (λ c n f nin. (edit.free c n f nin).0) (λ c o. (edit.around c o).0) f
              nin in
          ((n, f', at), out)

      same_links :
          (i c : ℕ)
          → Known h mem K v (l ++ ((d ∷ m) ++ r)) X i c
          → (word' c ≡ s.word c) × (word' (c + 4) ≡ s.word (c + 4))
      same_links i c ((n, f, at), nin) = elim (Free-append (h + 8) l ((d ∷ m) ++ r) c n f) [
        | inl y ↦
            let b = Free-bounds (h + 8) l c n parts-Sized.0 y in
            (same_front c (omega (arith, b)), same_front (c + 4) (omega (arith, b)))
        | inr y ↦ elim (Free-append x (d ∷ m) r c n y) [
          | inl z ↦ let e = edit.free c n z nin in (e.1, e.2)
          | inr z ↦
              let b = Free-bounds (x + total (d ∷ m)) r c n parts-Sized.1 z in
              let full =
                λ (e : r ≡ []). subst (λ (k : List Block). Free (x + total (d ∷ m)) k c n) e z in
              (same_behind c (omega (arith, b)) full, same_behind (c + 4) (omega (arith, b)) full)
        ]
      ]

      edited-Listing : Listing h mem K v (record s { word = word' }) (l ++ ((d' ∷ m') ++ r)) Y
      edited-Listing = record {
        lists = heap.listing.lists;
        bins = λ i.
            Bin-same h (s.seglist_head i) (s.seglist_head i) s.word word' (heap.listing.lists i)
              refl (λ c j. same_links i c (heap.listing.listed i c j)) (heap.listing.bins i);
        listed = λ i c j. edited-Known i c (heap.listing.listed i c j);
        complete = λ c n f nin.
            let (f', out) =
              Free-edit (h + 8) l (d' ∷ m') (d ∷ m) r Y X c n parts-Sized.0 parts-Sized.1
                (sym edit.same_total) edit.free_back
                (λ c o.
                  (edit.around c (subst (λ (z : ℕ). (c < x) ⊎ (x + z ≤ c)) edit.same_total o)).1)
                f nin in
            heap.listing.complete c n f' out;
      }

      edited-Outside :
          (q : ℕ) → K q → Outside q x (d ∷ m) × Outside q (h + 8) (l ++ ((d' ∷ m') ++ r))
      edited-Outside q k =
          let (front, rest) = Outside-append q (h + 8) l ((d ∷ m) ++ r) (heap.shape.apart q k) in
          let (middle, back) = Outside-append q x (d ∷ m) r rest in
          (
            middle,
            Outside-join q (h + 8) l ((d' ∷ m') ++ r) front (
                Outside-join q x (d' ∷ m') r (edit.outside q (inl k) middle).1
                  (subst (λ (z : ℕ). Outside q (x + z) r) (sym edit.same_total) back)),
          )

      edited-Shape :
          (Positive ((d ∷ m) ++ r) → Positive ((d' ∷ m') ++ r))
          → Shape h mem K v (l ++ ((d' ∷ m') ++ r))
      edited-Shape positive = record {
        sized =
            Sized-join l ((d' ∷ m') ++ r) parts-Sized.0
              (Sized-join (d' ∷ m') r edit.sized parts-Sized.1);
        positive =
            let (front, back) = Positive-split l d (m ++ r) heap.shape.positive in
            Positive-join l d' (m' ++ r) front (positive back);
        fits = omega (
          arith,
          heap.shape.fits,
          edit.same_total,
          total-append l ((d ∷ m) ++ r),
          total-append (d ∷ m) r,
          total-append l ((d' ∷ m') ++ r),
          total-append (d' ∷ m') r,
        );
        apart = λ q k. (edited-Outside q k).1;
      }

      pub Edit-Heap :
          (Positive ((d ∷ m) ++ r) → Positive ((d' ∷ m') ++ r))
          → Heap h mem K v (record s { word = word' }) (l ++ ((d' ∷ m') ++ r)) Y
      Edit-Heap positive = record {
        at = heap.at;
        memory = heap.memory;
        shape = edited-Shape positive;
        run = edited-Run;
        listing = edited-Listing;
        kept = λ q k. (edit.outside q (inl k) (edited-Outside q k).0).0 ∙ heap.kept q k;
      }
