-- ===== src/Allocator/Moves.antt =====
-- mm.c: `coalesce`, `extend_heap` and `place`. Whether `sbrk` succeeds is an argument, which may
-- depend on the break.
use introduction_to_computer.Base.{
  ℕ, ◌+◌, ◌-◌, ◌*◌, ◌%◌, ◌^◌, leb, ◌==◌, if◌then◌else◌, Bool, Option, none, some,
}
use introduction_to_computer.Allocator.Memlib.{mem_sbrk}
use introduction_to_computer.Allocator.Blocks.{
  wsize, dsize, pack, get_size, get_alloc, get_prev_alloc, get_seg_index,
}
use introduction_to_computer.Allocator.State.{
  Mm, put, hdrp, curr_size, ftrp, next_blkp, prev_blkp, set_next_alloc, set_next_dealloc, to_int,
}
use introduction_to_computer.Allocator.Lists.{add_to_list, delete_from_list, block_split}

-- Case 2 of `coalesce`: the next block is free.
unfoldable pub join_next : (bp : ℕ) → Mm → Mm
join_next bp s =
    let size = curr_size s bp in
    let s = delete_from_list (next_blkp s bp) s in
    let s = set_next_alloc (next_blkp s bp) s in
    let size = size + curr_size s (next_blkp s bp) in
    let s = put (hdrp bp) (pack size (get_prev_alloc (s.word (hdrp bp)))) s in
    let s = put (ftrp s bp) (pack size 0) s in let s = add_to_list bp s in set_next_dealloc bp s

-- Case 3: the previous block is free.
unfoldable pub join_prev : (bp : ℕ) → Mm → ℕ × Mm
join_prev bp s =
    let size = curr_size s bp in
    let s = delete_from_list (prev_blkp s bp) s in
    let s = set_next_alloc (prev_blkp s bp) s in
    let size = size + curr_size s (prev_blkp s bp) in
    let s = put (ftrp s bp) (pack size 0) s in
    let prev_alloc = get_prev_alloc (s.word (hdrp (prev_blkp s bp))) in
    let s = put (hdrp (prev_blkp s bp)) (pack size prev_alloc) s in
    let bp = prev_blkp s bp in let s = add_to_list bp s in (bp, set_next_dealloc bp s)

-- Case 4: both are free.
unfoldable pub join_both : (bp : ℕ) → Mm → ℕ × Mm
join_both bp s =
    let size = curr_size s bp in
    let s = delete_from_list (prev_blkp s bp) s in
    let s = delete_from_list (next_blkp s bp) s in
    let s = set_next_alloc (prev_blkp s bp) s in
    let s = set_next_alloc (next_blkp s bp) s in
    let size =
      size + (curr_size s (prev_blkp s bp) + get_size (s.word (ftrp s (next_blkp s bp)))) in
    let prev_alloc = get_prev_alloc (s.word (hdrp (prev_blkp s bp))) in
    let s = put (hdrp (prev_blkp s bp)) (pack size prev_alloc) s in
    let s = put (ftrp s (next_blkp s bp)) (pack size 0) s in
    let bp = prev_blkp s bp in let s = add_to_list bp s in (bp, set_next_dealloc bp s)

unfoldable pub coalesce : (bp : ℕ) → Mm → ℕ × Mm
unfolding join_next join_prev join_both
coalesce bp s =
    let prev_free = get_prev_alloc (s.word (hdrp bp)) == 0 in
    let next_free = get_alloc (s.word (hdrp (next_blkp s bp))) == 0 in
    if prev_free
    then (if next_free then join_both bp s else join_prev bp s)
    else if next_free
    then (bp, join_next bp s)
    else (bp, set_next_dealloc bp (add_to_list bp s))

-- The new area `bp` becomes a free block in front of a new epilogue.
unfoldable pub format : (bp size : ℕ) → Mm → ℕ × Mm
unfolding coalesce
format bp size s =
    let s = put (hdrp bp) (pack size (get_prev_alloc (s.word (hdrp bp)))) s in
    let s = put (ftrp s bp) (pack size 0) s in
    let s = put (hdrp (next_blkp s bp)) (pack 0 1) s in
    let s = set_next_dealloc bp s in coalesce bp s

-- The number of bytes that `words` words take, evened out, on 64 bits.
unfoldable pub even_bytes : ℕ → ℕ
even_bytes words = if words % 2 == 0 then words * wsize % 2 ^ 64 else (words + 1) * wsize % 2 ^ 64

module _ (sbrk_ok : ℕ → Bool) where
  unfoldable pub sbrk : (size : ℕ) → Mm → Option ℕ × Mm
  sbrk size s =
      let (old, m) = mem_sbrk (sbrk_ok s.mem.mem_brk) (to_int size) s.mem in
      (old, record s { mem = m })

  unfoldable pub extend_heap : (words : ℕ) → Mm → Option ℕ × Mm
  unfolding sbrk format even_bytes
  extend_heap words s =
      let (old, s) = sbrk (even_bytes words) s in
      elim old [
        | none ↦ (none, s)
        | some bp ↦ let (bp, s) = format bp (even_bytes words) s in (some bp, s)
      ]

-- The difference of two 64-bit sizes
abbrev pub minus : ℕ → ℕ → ℕ
minus a b = (a + 2 ^ 64 - b) % 2 ^ 64

-- The rest of a split block stays in its bin.
unfoldable pub split_in_place : (bp asize csize : ℕ) → Mm → Mm
split_in_place bp asize csize s =
    let rest = minus csize asize in
    let s = put (hdrp bp) (pack asize (get_prev_alloc (s.word (hdrp bp)) + 1)) s in
    let s = set_next_alloc bp s in
    let next = next_blkp s bp in
    let s = put (hdrp next) (pack rest (get_prev_alloc (s.word (hdrp next)))) s in
    let s = put (ftrp s next) (pack rest 0) s in
    let s = set_next_dealloc next s in block_split bp (get_seg_index csize) s

-- The rest of a split block goes to another bin.
unfoldable pub split_to_bin : (bp asize csize : ℕ) → Mm → Mm
split_to_bin bp asize csize s =
    let rest = minus csize asize in
    let s = delete_from_list bp s in
    let s = put (hdrp bp) (pack asize (get_prev_alloc (s.word (hdrp bp)) + 1)) s in
    let s = set_next_alloc bp s in
    let next = next_blkp s bp in
    let s = put (hdrp next) (pack rest (get_prev_alloc (s.word (hdrp next)))) s in
    let s = put (ftrp s next) (pack rest 0) s in
    let s = add_to_list next s in set_next_dealloc next s

unfoldable pub take_whole : (bp csize : ℕ) → Mm → Mm
take_whole bp csize s =
    let s = set_next_alloc bp s in
    let s = put (hdrp bp) (pack csize (get_prev_alloc (s.word (hdrp bp)) + 1)) s in
    delete_from_list bp s

unfoldable pub place : (bp asize : ℕ) → Mm → Mm
unfolding split_in_place split_to_bin take_whole
place bp asize s =
    let csize = curr_size s bp in
    let rest = minus csize asize in
    if leb (2 * dsize) rest
    then (if get_seg_index rest == get_seg_index csize
        then split_in_place bp asize csize s
        else split_to_bin bp asize csize s)
    else take_whole bp csize s
