-- ===== src/Allocator/Fits.antt =====
-- `find_fit` of mm.c is a first-fit search of the lists of the bins, and it ends.
use introduction_to_computer.Base.{
  ℕ, zero, suc, ◌+◌, ◌-◌, ◌<◌, ◌≡◌, inl, inr, refl, sym, true, false, leb, ◌==◌, List, [], ◌∷◌,
  ◌++◌, length, if◌then◌else◌, arith, Bool-cases,
}
use introduction_to_computer.Allocator.Memlib.{mem_heapsize}
use introduction_to_computer.Allocator.Blocks.{bin_size, get_seg_index}
use introduction_to_computer.Allocator.State.{Mm, curr_size}
use introduction_to_computer.Allocator.Lists.{
  Fit, fit, no_fit, or_else, search_list, search_bins, find_fit,
}
use introduction_to_computer.Allocator.Links.{Spread, Linked}
use introduction_to_computer.Allocator.Pushed.{NearAll, Bin}
use introduction_to_computer.Allocator.Room.{Within, Spread-length}

-- The first block of the list that is large enough.
abbrev pub first_fit : (asize : ℕ) → Mm → List ℕ → Fit
first_fit asize s [] = no_fit
first_fit asize s (b ∷ l) = if leb asize (curr_size s b) then fit b else first_fit asize s l

-- The blocks of `n` bins from `index` on.
abbrev pub blocks_from : (n index : ℕ) → (ℕ → List ℕ) → List ℕ
blocks_from zero index lists = []
blocks_from (suc n) index lists = lists index ++ blocks_from n (index + 1) lists

first_fit-append :
    (asize : ℕ) (s : Mm) (l m : List ℕ)
    → first_fit asize s (l ++ m) ≡ or_else (first_fit asize s l) (first_fit asize s m)
first_fit-append asize s [] m = refl
first_fit-append asize s (b ∷ l) m = elim (Bool-cases (leb asize (curr_size s b))) [
  | inl large ↦ rw (first_fit, large) refl
  | inr small ↦ rw (first_fit, small) (first_fit-append asize s l m)
]

search_list-first_fit :
    (fuel asize : ℕ) (s : Mm) (p b : ℕ) (l : List ℕ)
    → length l < fuel
    → Linked s.word s.heap_listp p (b ∷ l) 0
    → NearAll s.heap_listp (b ∷ l)
    → search_list fuel asize b s ≡ first_fit asize s (b ∷ l)
unfolding search_list
search_list-first_fit zero asize s p b l short links near = absurd (omega (arith, short))
search_list-first_fit (suc fuel) asize s p b [] short links near =
    let e = links.1 in
    let is_last : (s.word (b + 4) + s.heap_listp == s.heap_listp) ≡ true = ground (arith, e) in
    rw (search_list, is_last) refl
search_list-first_fit (suc fuel) asize s p b (c ∷ l) short links near =
    let e = links.1 in
    let close = near c (inr (inl refl)) in
    let is_last : (s.word (b + 4) + s.heap_listp == s.heap_listp) ≡ false =
      ground (arith, e, close) in
    let at : s.word (b + 4) + s.heap_listp - 4 ≡ c = omega (arith, e, close) in
    let rest =
      search_list-first_fit fuel asize s (b - s.heap_listp) c l (omega (arith, short)) links.2
        (λ d i. near d (inr i)) in
    rw (search_list, is_last, at, rest) refl

-- The bins of the heap: each has its list, whose blocks lie inside the heap.
pub record Bins (s : Mm) (lists : ℕ → List ℕ) : Type 0 where
  pub bin : (i : ℕ) → Bin s.heap_listp (s.seglist_head i) s.word (lists i)
  pub inside : (i : ℕ) → Within s.mem.heap s.mem.mem_brk (lists i)

short-list :
    (s : Mm) (b : ℕ) (l : List ℕ)
    → Spread (b ∷ l)
    → Within s.mem.heap s.mem.mem_brk (b ∷ l)
    → length l < mem_heapsize s.mem
unfolding mem_heapsize
short-list s b l spread inside =
    let room = Spread-length (b ∷ l) s.mem.heap s.mem.mem_brk spread inside in omega (arith, room)

search_bins-first_fit :
    (n index asize : ℕ) (s : Mm) (lists : ℕ → List ℕ)
    → Bins s lists
    → search_bins n index asize s ≡ first_fit asize s (blocks_from n index lists)
unfolding search_bins
search_bins-first_fit zero index asize s lists bins = refl
search_bins-first_fit (suc n) index asize s lists bins =
    go (lists index) (bins.bin index) (bins.inside index)
      (search_bins-first_fit n (index + 1) asize s lists bins)
  where
    go :
        (l : List ℕ)
        → Bin s.heap_listp (s.seglist_head index) s.word l
        → Within s.mem.heap s.mem.mem_brk l
        → search_bins n (index + 1) asize s ≡ first_fit asize s (blocks_from n (index + 1) lists)
        → search_bins (suc n) index asize s
          ≡ first_fit asize s (l ++ blocks_from n (index + 1) lists)
    go [] bin inside rest =
        let empty : (s.seglist_head index == 0) ≡ true = ground (arith, bin.at_head) in
        rw (search_bins, empty) rest
    go (b ∷ l) bin inside rest =
        let at = bin.at_head in
        let close = bin.near b (inl refl) in
        let nonempty : (b == 0) ≡ false = ground (arith, close) in
        let here =
          search_list-first_fit (mem_heapsize s.mem) asize s 0 b l
            (short-list s b l bin.spread inside) bin.links bin.near in
        rw (search_bins, at, nonempty, here, rest)
          (sym (first_fit-append asize s (b ∷ l) (blocks_from n (index + 1) lists)))

-- If the heads and the link words hold a list for each bin, whose blocks are far from each other
-- and inside the heap, `find_fit` ends with the first block that is at least `asize` bytes large in
-- the lists of the bins from that of `asize` on, and finds none if there is none.
pub find_fit-first_fit :
    (asize : ℕ) (s : Mm) (lists : ℕ → List ℕ)
    → Bins s lists
    → find_fit asize s
      ≡ first_fit asize s (blocks_from (bin_size - get_seg_index asize) (get_seg_index asize) lists)
unfolding find_fit
find_fit-first_fit asize s lists bins =
    search_bins-first_fit (bin_size - get_seg_index asize) (get_seg_index asize) asize s lists bins
