-- ===== src/Allocator/Headers.antt =====
-- The header words of mm.c hold a size and two flags.
use introduction_to_computer.Base.{ℕ, ◌+◌, ◌*◌, ◌%◌, ◌<◌, ◌≡◌, arith}
use introduction_to_computer.Allocator.Blocks.{
  pack, get_size, get_alloc, get_prev_alloc, set_prev_alloc, set_prev_dealloc,
}

-- A size that is a multiple of 8, the flag of the block and the flag of the block before it are read
-- back from the word that PACK makes of them.
pack-fields :
    (size alloc prev : ℕ)
    → size % 8 ≡ 0
    → alloc < 2
    → prev < 2
    → (get_size (pack size (prev * 2 + alloc)) ≡ size)
      × (get_alloc (pack size (prev * 2 + alloc)) ≡ alloc)
      × (get_prev_alloc (pack size (prev * 2 + alloc)) ≡ prev * 2)
unfolding pack get_size get_alloc get_prev_alloc
pack-fields size alloc prev whole flag before = omega arith

-- SET_NEXT_ALLOC sets the flag of the block before, and SET_NEXT_DEALLOC clears it; both keep the
-- size and the flag of the block itself.
set_prev_alloc-fields :
    (word : ℕ)
    → (get_prev_alloc (set_prev_alloc word) ≡ 2)
      × (get_size (set_prev_alloc word) ≡ get_size word)
      × (get_alloc (set_prev_alloc word) ≡ get_alloc word)
      × (get_prev_alloc (set_prev_dealloc word) ≡ 0)
      × (get_size (set_prev_dealloc word) ≡ get_size word)
      × (get_alloc (set_prev_dealloc word) ≡ get_alloc word)
unfolding set_prev_alloc set_prev_dealloc get_size get_alloc get_prev_alloc
set_prev_alloc-fields word = omega arith
