-- ===== src/Allocator/Heap/Deleted.antt =====
-- What `delete_from_list` of mm.c makes of the heap.
use introduction_to_computer.Base.{
  ℕ, ◌+◌, ◌≡◌, ◌≢◌, inl, inr, sym, ◌∙◌, ap, subst, List, ◌∷◌, ◌++◌, update,
}
use introduction_to_computer.Allocator.Memlib.{Mem}
use introduction_to_computer.Allocator.Blocks.{get_seg_index}
use introduction_to_computer.Allocator.State.{Mm, curr_size}
use introduction_to_computer.Allocator.Lists.{delete_from_list}
use introduction_to_computer.Allocator.Links.{In, Spread}
use introduction_to_computer.Allocator.Pushed.{Bin, Relisted}
use introduction_to_computer.Allocator.Removed.{Parts, Spread-Parts}
use introduction_to_computer.Allocator.Unlisted.{delete_from_list-Relisted}
use introduction_to_computer.Allocator.Heap.{Block, Free}
use introduction_to_computer.Allocator.Heap.Listed.{
  Known, Heap, relisted-Heap, other-Bin, Free-other, Free-curr_size, In-split, In-apart, In-without,
  In-with, update-each,
}

module _ (h : ℕ) (m : Mem) (K : ℕ → Type 0) (v : ℕ → ℕ) where
  module _ (s : Mm) (bs : List Block) (X : List ℕ) (c n : ℕ) (heap : Heap h m K v s bs X)
      (f : Free (h + 8) bs c n) (nin : ¬ In c X) where
    deleted-Heap :
        (i : ℕ)
        → get_seg_index n ≡ i
        → (l k : List ℕ) → heap.listing.lists i ≡ l ++ c ∷ k
        → Relisted s (delete_from_list c s) i (l ++ k) (l ++ c ∷ k)
        → Heap h m K v (delete_from_list c s) bs (c ∷ X)
    deleted-Heap i index l k e r =
        relisted-Heap h m K v s bs X heap (delete_from_list c s) (l ++ c ∷ k) (c ∷ X) r.listp
          r.memory r.words (λ d x. let ((n', f', at), y) = of d x in (n', f'))
          (record {
            lists = update heap.listing.lists i (l ++ k);
            bins =
                update-each
                  (λ j lst.
                    Bin h ((delete_from_list c s).seglist_head j) (delete_from_list c s).word lst)
                  heap.listing.lists i (l ++ k)
                  (subst
                    (λ (x : ℕ).
                      Bin x ((delete_from_list c s).seglist_head i) (delete_from_list c s).word
                        (l ++ k))
                    heap.at r.bin)
                  (λ j ne.
                    other-Bin h m K v s bs X heap (delete_from_list c s) (l ++ c ∷ k) j
                      (r.others j ne) r.words (λ d x. let ((n', f', at), y) = of d x in (n', f'))
                      (λ d d' x x'. other j ne d d' (of d x) (heap.listing.listed j d' x')));
            listed =
                update-each (λ j lst. (d : ℕ) → In d lst → Known h m K v bs (c ∷ X) j d)
                  heap.listing.lists i (l ++ k)
                  (λ d x.
                    let (at, y) = of d (In-with l c k d x) in
                    (
                      at,
                      λ z. elim z [
                        | inl same ↦ In-apart l c k d far.far_left far.far_right x same
                        | inr z ↦ y z
                      ],
                    ))
                  (λ j ne d x.
                    let (at, y) = heap.listing.listed j d x in
                    (
                      at,
                      λ z. elim z [
                        | inl same ↦ other j ne c d ((n, f, index), nin) (at, y) same
                        | inr z ↦ y z
                      ],
                    ));
            complete = λ d n' f' out.
                update-each (λ j lst. In d (heap.listing.lists j) → In d lst) heap.listing.lists i
                  (l ++ k) (λ x. In-without l c k d (λ same. out (inl same)) (subst (In d) e x))
                  (λ j ne x. x) (get_seg_index n')
                  (heap.listing.complete d n' f' (λ z. out (inr z)));
          })
      where
        of : (d : ℕ) → In d (l ++ c ∷ k) → Known h m K v bs X i d
        of d x = heap.listing.listed i d (subst (In d) (sym e) x)

        far : Parts l c k
        far = Spread-Parts l c k (subst Spread e (heap.listing.bins i).spread)

        other :
            (j : ℕ) → j ≢ i → (d d' : ℕ) → Known h m K v bs X i d → Known h m K v bs X j d' → d' ≢ d
        other j ne d d' ((n1, f1, at1), y1) ((n2, f2, at2), y2) =
            Free-other h m K v s bs X heap d n1 d' n2 f1 f2 (λ same. ne (sym at2 ∙ sym same ∙ at1))

    -- `delete_from_list` takes a free block out of the lists.
    pub delete_from_list-Heap : Heap h m K v (delete_from_list c s) bs (c ∷ X)
    delete_from_list-Heap =
        let i = get_seg_index (curr_size s c) in
        let index : get_seg_index n ≡ i =
          ap get_seg_index (sym (Free-curr_size h m K v s bs X heap c n f)) in
        let (l, k, e) = In-split c (heap.listing.lists i) (
          subst (λ (x : ℕ). In c (heap.listing.lists x)) index (heap.listing.complete c n f nin)) in
        deleted-Heap i index l k e (
          delete_from_list-Relisted c s l k (
            subst (λ (x : ℕ). Bin x (s.seglist_head i) s.word (l ++ c ∷ k)) (sym heap.at)
              (subst (λ (x : List ℕ). Bin h (s.seglist_head i) s.word x) e (heap.listing.bins i))))
