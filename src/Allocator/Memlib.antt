-- ===== src/Allocator/Memlib.antt =====
-- memlib.c: the memory that `mmap` returned and the break in it. What `mmap` and `sbrk` answer is
-- an argument; addresses are numbers.
use introduction_to_computer.Base.{
  ℕ, ◌+◌, ◌-◌, ◌*◌, ◌^◌, ltb, Bool, ◌||◌, not, Option, none, some, if◌then◌else◌,
}
use introduction_to_computer.Base.Int.{ℤ, pos, negsuc}

pub record Mem : Type 0 where
  pub heap : ℕ
  pub mem_brk : ℕ
  pub mem_max_addr : ℕ

abbrev pub max_heap : ℕ
max_heap = 100 * 2 ^ 20

unfoldable pub mem_init : (mmap : ℕ) → Mem
mem_init mmap = record { heap = mmap; mem_brk = mmap; mem_max_addr = mmap + max_heap }

unfoldable pub mem_reset_brk : Mem → Mem
mem_reset_brk s = record s { mem_brk = s.heap }

-- The old break, or `none` for `(void *)-1`.
unfoldable pub mem_sbrk : (sbrk_ok : Bool) → (incr : ℤ) → Mem → Option ℕ × Mem
mem_sbrk sbrk_ok (negsuc n) s = (none, s)
mem_sbrk sbrk_ok (pos incr) s =
    if ltb s.mem_max_addr (s.mem_brk + incr) || not sbrk_ok
    then (none, s)
    else (some s.mem_brk, record s { mem_brk = s.mem_brk + incr })

unfoldable pub mem_heap_lo : Mem → ℕ
mem_heap_lo s = s.heap

unfoldable pub mem_heap_hi : Mem → ℕ
mem_heap_hi s = s.mem_brk - 1

unfoldable pub mem_heapsize : Mem → ℕ
mem_heapsize s = s.mem_brk - s.heap
