-- ===== src/Allocator/Sizes.antt =====
-- The block sizes that `malloc` of mm.c asks for, and the bins of the free lists.
use introduction_to_computer.Base.{ℕ, ◌+◌, ◌*◌, ◌%◌, ◌^◌, ◌<◌, ◌≤◌, ◌≡◌, arith}
use introduction_to_computer.Allocator.Blocks.{wsize, dsize, adjusted_size, bin_size, get_seg_index}

-- For a request of at most 2^64 - 12 bytes the adjusted size is a multiple of 8, at least 16, and
-- holds the request and a header of 4 bytes, and is at most 16 bytes above the request.
pub adjusted_size-holds :
    (size : ℕ)
    → size + 11 < 2 ^ 64
    → (adjusted_size size % 8 ≡ 0)
      × (2 * dsize ≤ adjusted_size size)
      × (size + wsize ≤ adjusted_size size)
      × (adjusted_size size ≤ size + 16)
unfolding adjusted_size
adjusted_size-holds size small = ground arith

-- For a 64-bit request above 2^64 - 12 bytes the sum wraps around, and the adjusted size is at most 8.
pub adjusted_size-wraps : (size : ℕ) → 2 ^ 64 ≤ size + 11 → size < 2 ^ 64 → adjusted_size size ≤ 8
unfolding adjusted_size
adjusted_size-wraps size huge bound = ground arith

-- The bin of a block is one of the seven, and a block in a lower bin is smaller.
get_seg_index-ordered :
    (a b : ℕ) → (get_seg_index a < bin_size) × (get_seg_index a < get_seg_index b → a < b)
unfolding get_seg_index
get_seg_index-ordered a b = (ground arith, ground arith)
