-- ===== src/Allocator/Malloc.antt =====
-- mm.c: `mm_init`, `malloc`, `free`, `realloc` and `calloc`.
use introduction_to_computer.Base.{
  ℕ, zero, suc, ◌+◌, ◌-◌, ◌*◌, ◌/◌, ◌%◌, ◌^◌, ltb, ◌==◌, if◌then◌else◌, Bool, true, false, Option,
  none, some,
}
use introduction_to_computer.Allocator.Blocks.{
  wsize, dsize, chunksize, bin_size, pack, get_prev_alloc, adjusted_size, extend_size, total_bytes,
}
use introduction_to_computer.Allocator.State.{
  Mm, put, hdrp, curr_size, ftrp, set_next_alloc, set_next_dealloc,
}
use introduction_to_computer.Allocator.Lists.{fit, no_fit, out_of_fuel, find_fit}
use introduction_to_computer.Allocator.Moves.{coalesce, sbrk, extend_heap, place}

-- A call returns, or a search of the free lists does not end.
pub data Result (A : Type 0) : Type 0 where
  done : A → Mm → Result A
  endless : Result A

-- A null pointer is `none`.
abbrev pub Pointer : Type 0
Pointer = Option ℕ

-- The words in front of the heap's blocks; `base` is what `mem_sbrk` returned.
unfoldable pub prologue : (base : ℕ) → Mm → Mm
unfolding set_next_alloc
prologue base s =
    let s : Mm = record s { seglist_head = λ index. 0; heap_listp = base + bin_size * dsize } in
    let p = s.heap_listp in
    let s = put p 0 s in
    let s = put (p + 1 * wsize) (pack dsize 1) s in
    let s = put (p + 2 * wsize) (pack dsize 1) s in
    let s = put (p + 3 * wsize) (pack 0 1) s in
    let s : Mm = record s { heap_listp = p + 2 * wsize } in set_next_alloc s.heap_listp s

-- `memcpy(to, from, n)` of an area that starts at a word: whole words, and the first bytes of one.
unfoldable pub memcpy : (n to from : ℕ) → Mm → Mm
memcpy n to from s = record s {
  word = λ p. if ltb p to then s.word p else elim (ltb (p + 3) (to + n)) [
    | true ↦ s.word (from + (p - to))
    | false ↦
        let part = 256 ^ (to + n - p) in
        s.word p - s.word p % part + s.word (from + (p - to)) % part
  ];
}

-- `memset(to, 0, n)`
unfoldable pub memset_0 : (n to : ℕ) → Mm → Mm
memset_0 n to s = record s {
  word = λ p. if ltb p to then s.word p else elim (ltb (p + 3) (to + n)) [
    | true ↦ 0
    | false ↦ s.word p - s.word p % 256 ^ (to + n - p)
  ];
}

-- The address that `memset` is given when `malloc` returns NULL is 0: a fault, unless no byte is
-- set.
pub data Calloc : Type 0 where
  returned : Result Pointer → Calloc
  null_fault : Calloc

unfoldable pub zeroed : (total : ℕ) → Result Pointer → Calloc
unfolding memset_0
zeroed total endless = returned endless
zeroed total (done (some ptr) s) = returned (done (some ptr) (memset_0 total ptr s))
zeroed total (done none s) = if total == 0 then returned (done none s) else null_fault

module _ (sbrk_ok : ℕ → Bool) where
  -- 0 or -1; a failure leaves `(void *)-1` in `heap_listp`.
  unfoldable pub mm_init : Mm → Bool × Mm
  unfolding sbrk prologue extend_heap
  mm_init s =
      let (old, s) = sbrk sbrk_ok (bin_size * dsize + 4 * wsize) s in
      elim old [
        | none ↦ (false, record s { heap_listp = 2 ^ 64 - 1 })
        | some base ↦
            let (bp, s) = extend_heap sbrk_ok (chunksize / wsize) (prologue base s) in
            elim bp [ none ↦ (false, s) | some _ ↦ (true, s) ]
      ]

  abbrev pub ensure_init : Mm → Mm
  ensure_init s = if s.heap_listp == 0 then (mm_init s).1 else s

  -- No block fits: the heap grows.
  unfoldable pub grow : (asize : ℕ) → Mm → Pointer × Mm
  unfolding extend_heap place
  grow asize s =
      let (bp, s) = extend_heap sbrk_ok (extend_size asize / wsize) s in
      elim bp [ none ↦ (none, s) | some bp ↦ (some bp, place bp asize s) ]

  unfoldable pub allocate : (asize : ℕ) → Mm → Result Pointer
  unfolding grow find_fit place
  allocate asize s = elim (find_fit asize s) [
    | fit bp ↦ done (some bp) (place bp asize s)
    | no_fit ↦ let (bp, s) = grow asize s in done bp s
    | out_of_fuel ↦ endless
  ]

  unfoldable pub malloc : (size : ℕ) → Mm → Result Pointer
  unfolding mm_init allocate
  malloc size s =
      let s = ensure_init s in if size == 0 then done none s else allocate (adjusted_size size) s

  unfoldable pub free : Pointer → Mm → Mm
  unfolding mm_init coalesce set_next_dealloc
  free none s = s
  free (some bp) s =
      let size = curr_size s bp in
      let s = ensure_init s in
      let s = put (hdrp bp) (pack size (get_prev_alloc (s.word (hdrp bp)))) s in
      let s = put (ftrp s bp) (pack size 0) s in (coalesce bp (set_next_dealloc bp s)).1

  -- The contents move to the new block, and the old one is freed.
  unfoldable pub move : (size : ℕ) → (ptr : ℕ) → Result Pointer → Result Pointer
  unfolding memcpy free
  move size ptr endless = endless
  move size ptr (done none s) = done none s
  move size ptr (done (some newptr) s) =
      let oldsize = curr_size s ptr in
      let n = if ltb size oldsize then size else oldsize in
      done (some newptr) (free (some ptr) (memcpy n newptr ptr s))

  unfoldable pub realloc : Pointer → (size : ℕ) → Mm → Result Pointer
  unfolding malloc free move
  realloc ptr zero s = done none (free ptr s)
  realloc none (suc size) s = malloc (suc size) s
  realloc (some ptr) (suc size) s = move (suc size) ptr (malloc (suc size) s)

  unfoldable pub calloc : (num_blocks size : ℕ) → Mm → Calloc
  unfolding malloc zeroed total_bytes
  calloc num_blocks size s =
      zeroed (total_bytes num_blocks size) (malloc (total_bytes num_blocks size) s)
