-- ===== src/Allocator/State.antt =====
-- mm.c: the heap as words at their addresses, the heads of the free lists, and the macros on them.
-- The array of the heads fills the first 56 bytes of the heap, which no word access touches.
use introduction_to_computer.Base.{ℕ, ◌+◌, ◌-◌, ◌%◌, ◌^◌, ltb, if◌then◌else◌, update}
use introduction_to_computer.Base.Int.{ℤ, pos, negsuc}
use introduction_to_computer.Allocator.Memlib.{Mem}
use introduction_to_computer.Allocator.Blocks.{get_size, set_prev_alloc, set_prev_dealloc}

pub record Mm : Type 0 where
  pub mem : Mem
  pub word : ℕ → ℕ
  pub seglist_head : ℕ → ℕ
  pub heap_listp : ℕ

-- `PUT` and `PUT_P` store an unsigned of 32 bits.
abbrev pub put : (p v : ℕ) → Mm → Mm
put p v s = record s { word = update s.word p (v % 2 ^ 32) }

abbrev pub set_head : (index p : ℕ) → Mm → Mm
set_head index p s = record s { seglist_head = update s.seglist_head index p }

abbrev pub hdrp : ℕ → ℕ
hdrp bp = bp - 4

-- `GET_SIZE(HDRP(bp))`
abbrev pub curr_size : Mm → ℕ → ℕ
curr_size s bp = get_size (s.word (hdrp bp))

abbrev pub ftrp : Mm → ℕ → ℕ
ftrp s bp = bp + curr_size s bp - 8

abbrev pub next_blkp : Mm → ℕ → ℕ
next_blkp s bp = bp + curr_size s bp

abbrev pub prev_blkp : Mm → ℕ → ℕ
prev_blkp s bp = bp - get_size (s.word (bp - 8))

-- `SET_NEXT_ALLOC` and `SET_NEXT_DEALLOC`
unfoldable pub set_next_alloc : ℕ → Mm → Mm
set_next_alloc bp s = let p = hdrp (next_blkp s bp) in put p (set_prev_alloc (s.word p)) s

unfoldable pub set_next_dealloc : ℕ → Mm → Mm
set_next_dealloc bp s = let p = hdrp (next_blkp s bp) in put p (set_prev_dealloc (s.word p)) s

-- `PRED` is the block pointer itself.
abbrev pub succ : ℕ → ℕ
succ bp = bp + 4

-- `PREDPOINT`, `SUCCPOINT` and `NEXTP`; the offset 0 leads to HEAP_NULL, which is `heap_listp`.
abbrev pub pred_point : Mm → ℕ → ℕ
pred_point s bp = s.word bp + s.heap_listp

abbrev pub succ_point : Mm → ℕ → ℕ
succ_point s bp = s.word (succ bp) + s.heap_listp

abbrev pub nextp : Mm → ℕ → ℕ
nextp s bp = succ_point s bp - 4

-- `P_OFFSET_VAL`: the difference of two 64-bit addresses, cut to 32 bits
abbrev pub p_offset : Mm → ℕ → ℕ
p_offset s p = (p + 2 ^ 64 - s.heap_listp) % 2 ^ 32

-- A size as the int that `mem_sbrk` takes.
unfoldable pub to_int : ℕ → ℤ
to_int n = let m = n % 2 ^ 32 in if ltb m (2 ^ 31) then pos m else negsuc (2 ^ 32 - 1 - m)
