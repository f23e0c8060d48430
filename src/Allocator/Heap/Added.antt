-- ===== src/Allocator/Heap/Added.antt =====
-- What `add_to_list` of mm.c makes of the heap.
use introduction_to_computer.Base.{
  ℕ, ◌+◌, ◌≡◌, ◌≢◌, inl, inr, refl, sym, ◌∙◌, ap, subst, List, ◌∷◌, false, ◌==◌, update, arith,
  Bool-cases,
}
use introduction_to_computer.Allocator.Memlib.{Mem}
use introduction_to_computer.Allocator.Blocks.{get_seg_index}
use introduction_to_computer.Allocator.State.{Mm, curr_size}
use introduction_to_computer.Allocator.Lists.{add_to_list}
use introduction_to_computer.Allocator.Links.{In}
use introduction_to_computer.Allocator.Pushed.{Near, Bin, Relisted, add_to_list-Relisted}
use introduction_to_computer.Allocator.Heap.{Block, Free, Free-size, Free-Far}
use introduction_to_computer.Allocator.Heap.Listed.{
  Known, Heap, relisted-Heap, other-Bin, Free-other, Free-curr_size, Free-Near, update-each,
}

module _ (h : ℕ) (m : Mem) (K : ℕ → Type 0) (v : ℕ → ℕ) where
  module _ (s : Mm) (bs : List Block) (X : List ℕ) (b n : ℕ) (heap : Heap h m K v s bs (b ∷ X))
      (f : Free (h + 8) bs b n) (nin : ¬ In b X) where
    added-Heap :
        (i : ℕ)
        → get_seg_index n ≡ i
        → Relisted s (add_to_list b s) i (b ∷ heap.listing.lists i) (b ∷ heap.listing.lists i)
        → Heap h m K v (add_to_list b s) bs X
    added-Heap i index r =
        relisted-Heap h m K v s bs (b ∷ X) heap t (b ∷ heap.listing.lists i) X r.listp r.memory
          r.words free
          (record {
            lists = update heap.listing.lists i (b ∷ heap.listing.lists i);
            bins =
                update-each (λ j l. Bin h (t.seglist_head j) t.word l) heap.listing.lists i
                  (b ∷ heap.listing.lists i)
                  (subst (λ (x : ℕ). Bin x (t.seglist_head i) t.word (b ∷ heap.listing.lists i))
                    heap.at r.bin)
                  (λ j ne.
                    other-Bin h m K v s bs (b ∷ X) heap t (b ∷ heap.listing.lists i) j
                      (r.others j ne) r.words free (other j ne));
            listed =
                update-each (λ j l. (d : ℕ) → In d l → Known h m K v bs X j d) heap.listing.lists i
                  (b ∷ heap.listing.lists i)
                  (λ d x. elim x [
                    | inl e ↦ subst (Known h m K v bs X i) (sym e) ((n, f, index), nin)
                    | inr x ↦ known i d x
                  ])
                  (λ j ne d x. known j d x);
            complete = λ d n' f' out.
                update-each (λ j l. get_seg_index n' ≡ j → In d l) heap.listing.lists i
                  (b ∷ heap.listing.lists i)
                  (λ e. elim (Bool-cases (d == b)) [
                    | inl same ↦ inl (ground (arith, same))
                    | inr differs ↦
                        inr (
                          subst (λ (x : ℕ). In d (heap.listing.lists x)) e
                            (old d n' f' out differs))
                  ])
                  (λ j ne e. elim (Bool-cases (d == b)) [
                    | inl same ↦ absurd (ne (sym e ∙ index_of d n' f' (ground (arith, same))))
                    | inr differs ↦
                        subst (λ (x : ℕ). In d (heap.listing.lists x)) e (old d n' f' out differs)
                  ])
                  (get_seg_index n') refl;
          })
      where
        t : Mm
        t = add_to_list b s

        known : (j d : ℕ) → In d (heap.listing.lists j) → Known h m K v bs X j d
        known j d x = let (at, y) = heap.listing.listed j d x in (at, λ z. y (inr z))

        free : (d : ℕ) → In d (b ∷ heap.listing.lists i) → (n : ℕ) × Free (h + 8) bs d n
        free d (inl e) = (n, subst (λ (x : ℕ). Free (h + 8) bs x n) (sym e) f)
        free d (inr x) = let ((n', f', at), y) = known i d x in (n', f')

        other :
            (j : ℕ)
            → j ≢ i
            → (c d : ℕ) → In c (b ∷ heap.listing.lists i)
            → In d (heap.listing.lists j)
            → d ≢ c
        other j ne c d (inl e) x same = (heap.listing.listed j d x).1 (inl (same ∙ e))
        other j ne c d (inr x) x' same =
            let ((n1, f1, at1), y1) = known i c x in
            let ((n2, f2, at2), y2) = known j d x' in
            Free-other h m K v s bs (b ∷ X) heap c n1 d n2 f1 f2 (λ e. ne (sym at2 ∙ sym e ∙ at1))
              same

        index_of : (d n' : ℕ) → Free (h + 8) bs d n' → d ≡ b → get_seg_index n' ≡ i
        index_of d n' f' e =
            ap get_seg_index (
              Free-size (h + 8) bs b n' n heap.shape.sized
                (subst (λ (x : ℕ). Free (h + 8) bs x n') e f') f)
            ∙ index

        old :
            (d n' : ℕ)
            → Free (h + 8) bs d n'
            → ¬ In d X
            → (d == b) ≡ false
            → In d (heap.listing.lists (get_seg_index n'))
        old d n' f' out differs =
            heap.listing.complete d n' f'
              (λ z. elim z [ inl e ↦ absurd (ground (arith, differs, e)) | inr z ↦ out z ])

    -- `add_to_list` puts a free block into the lists.
    pub add_to_list-Heap : Heap h m K v (add_to_list b s) bs X
    add_to_list-Heap =
        let i = get_seg_index (curr_size s b) in
        let index : get_seg_index n ≡ i =
          ap get_seg_index (sym (Free-curr_size h m K v s bs (b ∷ X) heap b n f)) in
        added-Heap i index (
          add_to_list-Relisted b s (heap.listing.lists i)
            (subst (λ (x : ℕ). Bin x (s.seglist_head i) s.word (heap.listing.lists i)) (sym heap.at)
              (heap.listing.bins i))
            (λ d x.
              let ((n', f', at), y) = heap.listing.listed i d x in
              Free-Far (h + 8) bs b n d n' heap.shape.sized f f' (λ e. y (inl (sym e))))
            (subst (λ (x : ℕ). Near x b) (sym heap.at) (Free-Near h m K v s bs (b ∷ X) heap b n f)))
