-- ===== src/Allocator/Tests.antt =====
-- The theorems about the allocator at concrete sizes.
use introduction_to_computer.Base.{◌+◌, ◌*◌, ◌-◌, ◌%◌, ◌^◌, ◌≤◌, ◌≡◌, true, arith}
use introduction_to_computer.Base.Int.{pos}
use introduction_to_computer.Allocator.Memlib.{Mem, mem_sbrk}
use introduction_to_computer.Allocator.Blocks.{wsize, dsize, adjusted_size}
use introduction_to_computer.Allocator.Break.{Moved, mem_sbrk-Moved}
use introduction_to_computer.Allocator.Sizes.{adjusted_size-holds, adjusted_size-wraps}

abbrev fresh : Mem
fresh = record { heap = 4096; mem_brk = 4096; mem_max_addr = 8192 }

mem_sbrk-Moved_example : Moved (pos 72) fresh (mem_sbrk true (pos 72) fresh)
mem_sbrk-Moved_example = mem_sbrk-Moved true (pos 72) fresh (omega arith)

adjusted_size-holds_example :
    (adjusted_size 13 % 8 ≡ 0)
    × (2 * dsize ≤ adjusted_size 13)
    × (13 + wsize ≤ adjusted_size 13)
    × (adjusted_size 13 ≤ 13 + 16)
adjusted_size-holds_example = adjusted_size-holds 13 (omega arith)

adjusted_size-wraps_example : adjusted_size (2 ^ 64 - 1) ≤ 8
adjusted_size-wraps_example = adjusted_size-wraps (2 ^ 64 - 1) (omega arith) (omega arith)
