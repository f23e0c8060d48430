-- ===== src/Allocator/Naive.antt =====
-- mm-naive.c: every block at the break, in front of it its size.
pub mod BlocksApart
use introduction_to_computer.Base.{
  ℕ, zero, suc, ◌+◌, ◌-◌, ◌*◌, ◌%◌, ◌^◌, ltb, leb, ◌&&◌, ◌==◌, if◌then◌else◌, Bool, true, false,
  Option, none, some, update,
}
use introduction_to_computer.Allocator.Memlib.{Mem, mem_sbrk}
use introduction_to_computer.Allocator.Blocks.{align}
use introduction_to_computer.Allocator.State.{to_int}

-- The size_t words in front of the blocks, and the bytes of the blocks.
pub record Naive : Type 0 where
  pub mem : Mem
  pub size_word : ℕ → ℕ
  pub byte : ℕ → ℕ

abbrev pub size_t_size : ℕ
size_t_size = 8

-- `SIZE_PTR`
abbrev pub size_ptr : ℕ → ℕ
size_ptr p = p - size_t_size

abbrev pub mm_init : Naive → Bool × Naive
mm_init s = (true, s)

-- `ALIGN(size + SIZE_T_SIZE)` on 64 bits
abbrev pub new_size : ℕ → ℕ
new_size size = align ((size + size_t_size) % 2 ^ 64)

-- What `malloc` does with what `mem_sbrk` returned.
unfoldable pub take : (size : ℕ) → Naive → Option ℕ × Mem → Option ℕ × Naive
take size s (none, m) = (none, record s { mem = m })
take size s (some p, m) =
    let p = p + size_t_size in
    (some p, record s { mem = m; size_word = update s.size_word (size_ptr p) size })

unfoldable pub malloc : (sbrk_ok : Bool) → (size : ℕ) → Naive → Option ℕ × Naive
unfolding take
malloc sbrk_ok size s = take size s (mem_sbrk sbrk_ok (to_int (new_size size)) s.mem)

abbrev pub free : Option ℕ → Naive → Naive
free ptr s = s

-- `memcpy(to, from, n)`
unfoldable pub copy_bytes : (n to from : ℕ) → Naive → Naive
copy_bytes n to from s = record s {
  byte = λ q. if leb to q && ltb q (to + n) then s.byte (from + (q - to)) else s.byte q;
}

-- `memset(to, 0, n)`
unfoldable pub clear_bytes : (n to : ℕ) → Naive → Naive
clear_bytes n to s = record s { byte = λ q. if leb to q && ltb q (to + n) then 0 else s.byte q }

-- What `realloc` does with the new block.
unfoldable pub move : (size oldptr : ℕ) → Option ℕ × Naive → Option ℕ × Naive
unfolding copy_bytes
move size oldptr (none, s) = (none, s)
move size oldptr (some newptr, s) =
    let oldsize = s.size_word (size_ptr oldptr) in
    let n = if ltb size oldsize then size else oldsize in
    (some newptr, free (some oldptr) (copy_bytes n newptr oldptr s))

unfoldable pub realloc : (sbrk_ok : Bool) → Option ℕ → (size : ℕ) → Naive → Option ℕ × Naive
unfolding malloc move
realloc sbrk_ok oldptr zero s = (none, free oldptr s)
realloc sbrk_ok none (suc size) s = malloc sbrk_ok (suc size) s
realloc sbrk_ok (some oldptr) (suc size) s = move (suc size) oldptr (malloc sbrk_ok (suc size) s)

-- `none` is a fault: `memset` through the NULL that `malloc` returned.
unfoldable pub calloc : (sbrk_ok : Bool) → (nmemb size : ℕ) → Naive → Option (Option ℕ × Naive)
unfolding malloc clear_bytes
calloc sbrk_ok nmemb size s =
    let bytes = nmemb * size % 2 ^ 64 in
    let (newptr, t) = malloc sbrk_ok bytes s in
    elim newptr [
      | some p ↦ some (some p, clear_bytes bytes p t)
      | none ↦ if bytes == 0 then some (none, t) else none
    ]
