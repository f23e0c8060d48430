-- ===== src/Allocator/Samples.antt =====
-- The theorems about mm.c and mm-naive.c on small heaps.
use introduction_to_computer.Base.{
  ℕ, ◌+◌, ◌-◌, ◌*◌, ◌%◌, ◌^◌, ◌≤◌, ◌≡◌, ◌⊎◌, inl, inr, refl, subst, sym, List, [], ◌∷◌, ◌++◌, ◌==◌,
  if◌then◌else◌, true, some, none, arith, Bool-cases,
}
use introduction_to_computer.Allocator.Memlib.{Mem}
use introduction_to_computer.Allocator.Blocks.{align, get_size, get_seg_index, bin_size}
use introduction_to_computer.Allocator.State.{Mm, curr_size}
use introduction_to_computer.Allocator.Lists.{find_fit, delete_from_list}
use introduction_to_computer.Allocator.Malloc.{free}
use introduction_to_computer.Allocator.Links.{In}
use introduction_to_computer.Allocator.Pushed.{Bin, Relisted}
use introduction_to_computer.Allocator.Unlisted.{delete_from_list-Relisted}
use introduction_to_computer.Allocator.Fits.{Bins, first_fit, blocks_from, find_fit-first_fit}
use introduction_to_computer.Allocator.Heap.{Block, Free}
use introduction_to_computer.Allocator.Heap.Listed.{Known}
use introduction_to_computer.Allocator.Heap.Chained.{in_use, Contents}
use introduction_to_computer.Allocator.Heap.Freed.{WellFormed, free-WellFormed}
use introduction_to_computer.Allocator.Naive.{Naive, malloc}
use introduction_to_computer.Allocator.Naive.BlocksApart.{Ok, added, malloc-apart, malloc-short}

abbrev mem : Mem
mem = record { heap = 4032; mem_brk = 4144; mem_max_addr = 8192 }

-- A block in use at 4104, and a free one at 4120, which is the only one in bin 0.
abbrev heap : Mm
heap = record {
  mem = mem;
  word = λ p.
      if p == 4100
      then 19
      else if p == 4116
      then 26
      else if p == 4136
      then 24
      else if p == 4140
      then 1
      else 0;
  seglist_head = λ i. if i == 0 then 4120 else 0;
  heap_listp = 4096;
}

abbrev block : Block
block = record { size = 16; prev = 1; used = 1 }

abbrev behind : List Block
behind = record { size = 24; prev = 1; used = 0 } ∷ record { size = 0; prev = 0; used = 1 } ∷ []

abbrev bins : ℕ → List ℕ
bins i = if i == 0 then 4120 ∷ [] else []

-- What holds of the list of bin 0 and of the empty list holds of each list.
each_bin :
    (P : ℕ → ℕ → List ℕ → Type 0)
    → P 0 4120 (4120 ∷ [])
    → ((i : ℕ) → P i 0 [])
    → (i : ℕ) → P i (heap.seglist_head i) (bins i)
each_bin P one empty i = elim (Bool-cases (i == 0)) [
  | inl e ↦
      let at : i ≡ 0 = ground (arith, e) in
      subst (λ (j : ℕ). P j (heap.seglist_head j) (bins j)) (sym at) one
  | inr e ↦ rw e (empty i)
]

only-Bin : Bin 4096 4120 heap.word (4120 ∷ [])
only-Bin = record {
  at_head = refl;
  links = (refl, refl, tt);
  spread = (λ c i. elim i [ ], tt);
  near = λ c i. elim i [ inl e ↦ omega (arith, e) | inr z ↦ elim z [ ] ];
}

empty-Bin : Bin 4096 0 heap.word []
empty-Bin = record { at_head = refl; links = tt; spread = tt; near = λ c i. elim i [ ] }

each-Bin : (i : ℕ) → Bin 4096 (heap.seglist_head i) heap.word (bins i)
each-Bin = each_bin (λ i head l. Bin 4096 head heap.word l) only-Bin (λ i. empty-Bin)

heap-Bins : Bins heap bins
heap-Bins = record {
  bin = each-Bin;
  inside =
      each_bin (λ i head l. (c : ℕ) → In c l → (4032 ≤ c) × (c + 8 ≤ 4144))
        (λ c i. elim i [ inl e ↦ omega (arith, e) | inr z ↦ elim z [ ] ]) (λ i c z. elim z [ ]);
}

find_fit-first_fit_example :
    find_fit 24 heap
    ≡ first_fit 24 heap (blocks_from (bin_size - get_seg_index 24) (get_seg_index 24) bins)
find_fit-first_fit_example = find_fit-first_fit 24 heap bins heap-Bins

delete_from_list-Relisted_example :
    Relisted heap (delete_from_list 4120 heap) (get_seg_index (curr_size heap 4120)) [] (4120 ∷ [])
unfolding get_seg_index get_size
delete_from_list-Relisted_example = delete_from_list-Relisted 4120 heap [] [] only-Bin

complete : (c n : ℕ) → Free 4104 (block ∷ behind) c n → In c (bins (get_seg_index n))
unfolding get_seg_index
complete c n (inl y) = absurd (omega (arith, y.2))
complete c n (inr (inl y)) = subst (λ (k : ℕ). In c (bins (get_seg_index k))) y.1 (inl y.0)
complete c n (inr (inr (inl y))) = absurd (omega (arith, y.2))
complete c n (inr (inr (inr z))) = elim z [ ]

heap-WellFormed : WellFormed 4096 mem heap (block ∷ behind)
unfolding get_seg_index
heap-WellFormed = record {
  heap = record {
    at = refl;
    memory = refl;
    shape = record {
      sized = omega arith;
      positive = (inr (omega arith), (inr (omega arith), (inl refl, tt)));
      fits = omega arith;
      apart = λ q z. elim z [ ];
    };
    run = (
      refl,
      λ z. absurd (omega (arith, z)),
      (refl, λ z. refl, (refl, λ z. absurd (omega (arith, z)), tt)),
    );
    listing = record {
      lists = bins;
      bins = each-Bin;
      listed =
          each_bin
            (λ i head l.
              (c : ℕ) → In c l → Known 4096 mem (λ q. ⊥) (λ q. 0) (block ∷ behind) [] i c)
            (λ c i. elim i [
              | inl e ↦ ((24, inr (inl (e, refl, refl)), refl), λ z. z)
              | inr z ↦ elim z [ ]
            ])
            (λ i c z. elim z [ ]);
      complete = λ c n f nin. complete c n f;
    };
    kept = λ q z. elim z [ ];
  };
  chained = omega arith;
  closed = (refl, refl);
}

free-WellFormed_example :
    (bs : List Block) × WellFormed 4096 mem (free (λ brk. true) (some 4104) heap) bs
    × (in_use 4104 bs ≡ [] ++ in_use 4120 behind)
    × ((q : ℕ)
        → Contents 4104 [] q ⊎ Contents 4120 behind q
        → (free (λ brk. true) (some 4104) heap).word q ≡ heap.word q)
free-WellFormed_example =
    free-WellFormed (λ brk. true) 4096 mem heap [] block behind heap-WellFormed refl (omega arith)
      (omega arith)

-- A heap of mm-naive.c with one block of 5 bytes at 4104.
abbrev naive : Naive
naive = record {
  mem = record { heap = 4096; mem_brk = 4112; mem_max_addr = 8192 };
  size_word = λ p. if p == 4096 then 5 else 0;
  byte = λ p. p % 256;
}

naive-Ok : Ok naive ((4104, 5) ∷ [])
naive-Ok = record {
  aligned = refl;
  inside = omega arith;
  blocks = (refl, omega arith, refl, omega arith, omega arith);
}

malloc-apart_example :
    (malloc true 13 naive ≡ (none, naive))
    ⊎ ((p : ℕ) × (t : Naive) × (malloc true 13 naive ≡ (some p, t))
        × Ok t ((p, 13) ∷ (4104, 5) ∷ []))
malloc-apart_example = malloc-apart true 13 naive ((4104, 5) ∷ []) (omega arith) naive-Ok

malloc-short_example : malloc true (1 * 2 ^ 32 + 3) naive ≡ (some 4120, added naive 16 (2 ^ 32 + 3))
unfolding align
malloc-short_example = malloc-short 1 3 naive (omega arith) (omega arith) (omega arith)
