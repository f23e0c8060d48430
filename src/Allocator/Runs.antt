-- ===== src/Allocator/Runs.antt =====
-- Short runs of mm.c: the heap checker accepts the heap after each call.
use introduction_to_computer.Base.{ℕ, ◌^◌, ◌≡◌, refl, Bool, true, none}
use introduction_to_computer.Allocator.Memlib.{
  mem_init, mem_sbrk, mem_heapsize, mem_heap_lo, mem_heap_hi,
}
use introduction_to_computer.Allocator.Blocks.{
  pack, get_size, get_alloc, get_prev_alloc, set_prev_alloc, set_prev_dealloc, adjusted_size,
  extend_size, get_seg_index, in_heap,
}
use introduction_to_computer.Allocator.State.{Mm, set_next_alloc, set_next_dealloc, to_int}
use introduction_to_computer.Allocator.Lists.{
  push_front, add_to_list, drop_head, bypass, unlist, delete_from_list, replace, block_split,
  search_list, search_bins, find_fit,
}
use introduction_to_computer.Allocator.Moves.{
  join_next, join_prev, join_both, coalesce, format, even_bytes, sbrk, extend_heap, split_in_place,
  split_to_bin, take_whole, place,
}
use introduction_to_computer.Allocator.Malloc.{
  Result, done, endless, Pointer, prologue, mm_init, grow, allocate, malloc, free,
}
use introduction_to_computer.Allocator.Check.{
  passed, check_heap_block, check_free_block, check_cycle, check_blocks, check_list, check_lists,
  mm_checkheap,
}

abbrev empty : Mm
empty = record { mem = mem_init (2 ^ 35); word = λ p. 0; seglist_head = λ i. 0; heap_listp = 0 }

abbrev grant : ℕ → Bool
grant brk = true

abbrev after : Result Pointer → Mm
after (done p s) = s
after endless = empty

abbrev pointer : Result Pointer → Pointer
pointer (done p s) = p
pointer endless = none

abbrev first : Result Pointer
first = malloc grant 20 empty

abbrev second : Result Pointer
second = malloc grant 100 (after first)

-- The first block is freed, and a smaller one takes its place.
abbrev freed : Mm
freed = free grant (pointer first) (after second)

abbrev third : Result Pointer
third = malloc grant 3 freed

runs_pass :
    (mm_checkheap (after second) ≡ passed)
    × (mm_checkheap freed ≡ passed)
    × (mm_checkheap (after third) ≡ passed)
    × (mm_checkheap (free grant (pointer second) (after third)) ≡ passed)
unfolding mem_init mem_sbrk mem_heapsize mem_heap_lo mem_heap_hi pack get_size get_alloc
    get_prev_alloc set_prev_alloc set_prev_dealloc adjusted_size extend_size get_seg_index in_heap
    set_next_alloc set_next_dealloc to_int push_front add_to_list drop_head bypass unlist
    delete_from_list replace block_split search_list search_bins find_fit join_next join_prev
    join_both coalesce format even_bytes sbrk extend_heap split_in_place split_to_bin take_whole
    place prologue mm_init grow allocate malloc free check_heap_block check_free_block check_cycle
    check_blocks check_list check_lists mm_checkheap
runs_pass = (refl, refl, refl, refl)
