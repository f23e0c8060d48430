-- ===== src/Allocator/Blocks.antt =====
-- mm.c: the words of the headers, the sizes of blocks and the bins of the free lists.
use introduction_to_computer.Base.{
  ℕ, ◌+◌, ◌-◌, ◌*◌, ◌/◌, ◌%◌, ◌^◌, ltb, leb, Bool, ◌&&◌, if◌then◌else◌,
}
use introduction_to_computer.Allocator.Memlib.{Mem, mem_heap_lo, mem_heap_hi}

-- `ALIGN(p)` on a 64-bit size
unfoldable pub align : ℕ → ℕ
align p = let q = (p + 7) % 2 ^ 64 in q - q % 8

abbrev pub wsize : ℕ
wsize = 4

abbrev pub dsize : ℕ
dsize = 8

abbrev pub chunksize : ℕ
chunksize = 2 ^ 6

-- `PACK(size, alloc)` for a size whose low three bits are 0 and flags below 8: the or of the two
-- is their sum.
unfoldable pub pack : (size alloc : ℕ) → ℕ
pack size alloc = size + alloc

-- `GET_SIZE`, `GET_ALLOC` and `GET_PREV_ALLOC` of a word
unfoldable pub get_size : ℕ → ℕ
get_size word = word - word % 8

unfoldable pub get_alloc : ℕ → ℕ
get_alloc word = word % 2

unfoldable pub get_prev_alloc : ℕ → ℕ
get_prev_alloc word = word / 2 % 2 * 2

-- What `SET_NEXT_ALLOC` and `SET_NEXT_DEALLOC` make of the header of the next block.
unfoldable pub set_prev_alloc : ℕ → ℕ
unfolding get_prev_alloc
set_prev_alloc word = word - get_prev_alloc word + 2

unfoldable pub set_prev_dealloc : ℕ → ℕ
unfolding get_prev_alloc
set_prev_dealloc word = word - get_prev_alloc word

-- The adjusted size of `malloc`, on 64-bit sizes.
unfoldable pub adjusted_size : ℕ → ℕ
adjusted_size size =
    if leb size dsize then 2 * dsize else dsize * ((size + dsize + (wsize - 1)) % 2 ^ 64 / dsize)

-- By how much `malloc` extends the heap.
unfoldable pub extend_size : (asize : ℕ) → ℕ
extend_size asize = if ltb chunksize asize then asize else chunksize

abbrev pub bin_size : ℕ
bin_size = 7

unfoldable pub get_seg_index : ℕ → ℕ
get_seg_index blocksize =
    if leb blocksize 50
    then 0
    else if ltb 50 blocksize && leb blocksize 100
    then 1
    else if ltb 100 blocksize && leb blocksize 1000
    then 2
    else if ltb 1000 blocksize && leb blocksize 2000
    then 3
    else if ltb 2000 blocksize && leb blocksize 3000
    then 4
    else if ltb 3000 blocksize && leb blocksize 4500
    then 5
    else if ltb 4500 blocksize
    then 6
    else 0

-- `total_bytes` of `calloc`
unfoldable pub total_bytes : (num_blocks size : ℕ) → ℕ
total_bytes num_blocks size = num_blocks * size % 2 ^ 64

unfoldable pub in_heap : Mem → ℕ → Bool
unfolding mem_heap_lo mem_heap_hi
in_heap s p = leb p (mem_heap_hi s) && leb (mem_heap_lo s) p
