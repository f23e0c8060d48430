-- ===== src/Allocator/Heap/Listed.antt =====
-- The free blocks of mm.c and the lists of the bins: a change of link words only.
use introduction_to_computer.Base.{
  ℕ, ◌+◌, ◌^◌, ◌<◌, ◌≡◌, ◌≢◌, inl, inr, sym, ◌∙◌, ap, subst, List, [], ◌∷◌, ◌++◌, ◌==◌, update,
  update_self, update_ne, arith, Bool-cases,
}
use introduction_to_computer.Allocator.Memlib.{Mem}
use introduction_to_computer.Allocator.Blocks.{get_seg_index}
use introduction_to_computer.Allocator.State.{Mm, curr_size}
use introduction_to_computer.Allocator.Links.{
  In, Far, FarAll, Off, In-front, In-back, In-parts, Linked-same, Far-Off, Far-Off_4,
}
use introduction_to_computer.Allocator.Pushed.{Near, Bin}
use introduction_to_computer.Allocator.Heap.{
  Block, total, Run, Sized, Positive, Free, Outside, Run-same, Free-bounds, Free-size, Free-Far,
  Meta-Free, Outside-Free, Free-get_size,
}

pub In-split :
    (c : ℕ) (l : List ℕ) → In c l → (front : List ℕ) × (back : List ℕ) × (l ≡ front ++ c ∷ back)
In-split c [] i = elim i [ ]
In-split c (d ∷ l) (inl e) = ([], l, ap (λ (x : ℕ). x ∷ l) (sym e))
In-split c (d ∷ l) (inr i) =
    let (front, back, e) = In-split c l i in (d ∷ front, back, ap (λ (x : List ℕ). d ∷ x) e)

pub update-each :
    {A : Type 0} (P : ℕ → A → Type 0) (f : ℕ → A) (i : ℕ) (x : A)
    → P i x
    → ((j : ℕ) → j ≢ i → P j (f j))
    → (j : ℕ) → P j (update f i x j)
update-each P f i x here there j = elim (Bool-cases (j == i)) [
  | inl same ↦
      let e : j ≡ i = ground (arith, same) in
      subst (λ (k : ℕ). P k (update f i x k)) (sym e) (subst (P i) (sym (update_self f x i)) here)
  | inr other ↦
      let ne : j ≢ i = λ e. absurd (ground (arith, other, e)) in
      subst (P j) (sym (update_ne f x ne)) (there j ne)
]

-- The block is not in the parts beside it.
pub In-apart :
    (l : List ℕ) (b : ℕ) (k : List ℕ) (c : ℕ) → FarAll b l → FarAll b k → In c (l ++ k) → c ≢ b
In-apart l b k c far_l far_k i e = elim (In-parts l k c i) [
  | inl x ↦ close (far_l c x)
  | inr x ↦ close (far_k c x)
]
  where
    close : Far b c → ⊥
    close (inl x) = omega (arith, x, e)
    close (inr x) = omega (arith, x, e)

pub In-without :
    (l : List ℕ) (b : ℕ) (k : List ℕ) (c : ℕ) → c ≢ b → In c (l ++ b ∷ k) → In c (l ++ k)
In-without l b k c ne i = elim (In-parts l (b ∷ k) c i) [
  | inl x ↦ In-front l k c x
  | inr x ↦ elim x [ inl e ↦ absurd (ne e) | inr y ↦ In-back l k c y ]
]

pub In-with : (l : List ℕ) (b : ℕ) (k : List ℕ) (c : ℕ) → In c (l ++ k) → In c (l ++ b ∷ k)
In-with l b k c i = elim (In-parts l k c i) [
  | inl x ↦ In-front l (b ∷ k) c x
  | inr x ↦ In-back l (b ∷ k) c (inr x)
]

-- A list whose words and head are the same.
pub Bin-same :
    (h head head' : ℕ) (word word' : ℕ → ℕ) (l : List ℕ)
    → head' ≡ head
    → ((c : ℕ) → In c l → (word' c ≡ word c) × (word' (c + 4) ≡ word (c + 4)))
    → Bin h head word l
    → Bin h head' word' l
Bin-same h head head' word word' l same_head same bin = record {
  at_head = same_head ∙ bin.at_head;
  links = Linked-same word h word' 0 l 0 same bin.links;
  spread = bin.spread;
  near = bin.near;
}

-- `h` is `heap_listp`; the words at the addresses that `K` holds of are to stay what `v` says.
module _ (h : ℕ) (m : Mem) (K : ℕ → Type 0) (v : ℕ → ℕ) where
  pub record Shape (bs : List Block) : Type 0 where
    pub sized : Sized bs
    pub positive : Positive bs
    pub fits : total bs + 8 < 2 ^ 32
    pub apart : (q : ℕ) → K q → Outside q (h + 8) bs

  -- A free block of bin `i` that is not in `X`.
  abbrev pub Known : List Block → List ℕ → (i c : ℕ) → Type 0
  Known bs X i c = ((n : ℕ) × Free (h + 8) bs c n × (get_seg_index n ≡ i)) × (¬ In c X)

  -- The lists of the bins hold the free blocks that are not in `X`.
  pub record Listing (s : Mm) (bs : List Block) (X : List ℕ) : Type 0 where
    pub lists : ℕ → List ℕ
    pub bins : (i : ℕ) → Bin h (s.seglist_head i) s.word (lists i)
    pub listed : (i c : ℕ) → In c (lists i) → Known bs X i c
    pub complete : (c n : ℕ) → Free (h + 8) bs c n → ¬ In c X → In c (lists (get_seg_index n))

  pub record Heap (s : Mm) (bs : List Block) (X : List ℕ) : Type 0 where
    pub at : s.heap_listp ≡ h
    pub memory : s.mem ≡ m
    pub shape : Shape bs
    pub run : Run s.word (h + 8) bs
    pub listing : Listing s bs X
    pub kept : (q : ℕ) → K q → s.word q ≡ v q

  module _ (s : Mm) (bs : List Block) (X : List ℕ) (heap : Heap s bs X) where
    pub Free-curr_size : (c n : ℕ) → Free (h + 8) bs c n → curr_size s c ≡ n
    Free-curr_size c n f = Free-get_size s.word (h + 8) bs c n heap.shape.sized heap.run f

    pub Free-Near : (c n : ℕ) → Free (h + 8) bs c n → Near h c
    Free-Near c n f =
        let at = Free-bounds (h + 8) bs c n heap.shape.sized f in
        let fits = heap.shape.fits in (omega (arith, at), omega (arith, at, fits))

    -- A change of link words of free blocks only.
    pub relisted-Heap :
        (t : Mm) (touched : List ℕ) (Y : List ℕ)
        → t.heap_listp ≡ s.heap_listp
        → t.mem ≡ s.mem
        → ((q : ℕ) → Off q touched → t.word q ≡ s.word q)
        → ((c : ℕ) → In c touched → (n : ℕ) × Free (h + 8) bs c n)
        → Listing t bs Y
        → Heap t bs Y
    relisted-Heap t touched Y listp memory same free listing = record {
      at = listp ∙ heap.at;
      memory = memory ∙ heap.memory;
      shape = heap.shape;
      run =
          Run-same s.word t.word (h + 8) bs
            (λ q x. same q (λ c i.
              let (n, f) = free c i in
              Meta-Free q (h + 8) bs c n heap.shape.sized (omega arith) x f))
            heap.run;
      listing = listing;
      kept = λ q k. same q (λ c i. off q c k (free c i)) ∙ heap.kept q k;
    }
      where
        off : (q c : ℕ) → K q → (n : ℕ) × Free (h + 8) bs c n → (q ≢ c) × (q ≢ c + 4)
        off q c k (n, f) =
            let at = Free-bounds (h + 8) bs c n heap.shape.sized f in
            let out = Outside-Free q (h + 8) bs c n heap.shape.sized (heap.shape.apart q k) f in
            (λ e. absurd (ground (arith, at, out, e)), λ e. absurd (ground (arith, at, out, e)))

    pub Free-other :
        (c n d n' : ℕ)
        → Free (h + 8) bs c n
        → Free (h + 8) bs d n'
        → get_seg_index n ≢ get_seg_index n'
        → d ≢ c
    Free-other c n d n' f f' ne e = ne (
        ap get_seg_index (
          Free-size (h + 8) bs c n n' heap.shape.sized f
            (subst (λ (x : ℕ). Free (h + 8) bs x n') e f')))

    -- The list of another bin, if the touched blocks are free and not in that list.
    pub other-Bin :
        (t : Mm) (touched : List ℕ) (j : ℕ)
        → t.seglist_head j ≡ s.seglist_head j
        → ((q : ℕ) → Off q touched → t.word q ≡ s.word q)
        → ((c : ℕ) → In c touched → (n : ℕ) × Free (h + 8) bs c n)
        → ((c d : ℕ) → In c touched → In d (heap.listing.lists j) → d ≢ c)
        → Bin h (t.seglist_head j) t.word (heap.listing.lists j)
    other-Bin t touched j head same free ne =
        Bin-same h (s.seglist_head j) (t.seglist_head j) s.word t.word (heap.listing.lists j) head
          (λ d i.
            (same d (Far-Off d touched (far d i)), same (d + 4) (Far-Off_4 d touched (far d i))))
          (heap.listing.bins j)
      where
        far : (d : ℕ) → In d (heap.listing.lists j) → FarAll d touched
        far d i c k =
            let ((n, f, at), x) = heap.listing.listed j d i in
            let (n', f') = free c k in
            Free-Far (h + 8) bs d n c n' heap.shape.sized f f' (ne c d k i)
