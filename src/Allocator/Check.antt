-- ===== src/Allocator/Check.antt =====
-- mm.c: the heap checker, as it runs without VERBOSE_CHECKHEAP.
use introduction_to_computer.Base.{
  ℕ, zero, suc, ◌+◌, ◌%◌, ◌==◌, not, ◌&&◌, ◌||◌, if◌then◌else◌, Bool, true, false,
}
use introduction_to_computer.Allocator.Memlib.{mem_heapsize}
use introduction_to_computer.Allocator.Blocks.{
  dsize, bin_size, get_size, get_alloc, get_prev_alloc, get_seg_index, in_heap,
}
use introduction_to_computer.Allocator.State.{
  Mm, hdrp, curr_size, ftrp, next_blkp, succ, pred_point, succ_point, nextp,
}

-- A check returns, ends the process with -1, or never ends.
pub data Checked : Type 0 where
  passed : Checked
  failed : Checked
  out_of_fuel : Checked

abbrev pub and_then : Checked → Checked → Checked
and_then passed next = next
and_then failed next = failed
and_then out_of_fuel next = out_of_fuel

abbrev pub expect : Bool → Checked
expect true = passed
expect false = failed

abbrev pub block_alloc : Mm → ℕ → ℕ
block_alloc s bp = get_alloc (s.word (hdrp bp))

unfoldable pub check_heap_block : (bp : ℕ) → Mm → Checked
check_heap_block bp s =
    let next = next_blkp s bp in
    let next_prev_alloc = if get_prev_alloc (s.word (hdrp next)) == 0 then 0 else 1 in
    expect (
      bp % 8 == 0
      && block_alloc s bp == next_prev_alloc
      && not (block_alloc s bp == 0 && block_alloc s next == 0)
      && in_heap s.mem bp)

unfoldable pub check_free_block : (bp : ℕ) → Mm → Checked
check_free_block bp s =
    let header = s.word (hdrp bp) in
    let footer = s.word (ftrp s bp) in
    let back = pred_point s (nextp s bp) == bp in
    let forth = succ_point s (pred_point s bp) == succ bp in
    expect (
      bp % 8 == 0
      && get_alloc header == get_alloc footer
      && get_size header == get_size footer
      && (succ_point s bp == s.heap_listp || back)
      && (pred_point s bp == s.heap_listp || forth)
      && in_heap s.mem bp)

-- The loop ends with its first round, by the `return` behind the test.
unfoldable pub check_cycle : (head : ℕ) → Mm → Checked
check_cycle head s =
    let slow = nextp s head in
    let fast = nextp s (nextp s head) in
    if head == 0
    then passed
    else if succ_point s head == 0
    then passed
    else expect (not (slow == fast))

-- A running count of free blocks, or how a check ended.
pub data Count : Type 0 where
  count : ℕ → Count
  stop : Checked → Count

abbrev pub checked : Checked → Count → Count
checked passed next = next
checked failed next = stop failed
checked out_of_fuel next = stop out_of_fuel

-- The loop over the blocks of the heap from `bp` on, and the check of the epilogue behind it.
unfoldable pub check_blocks : (fuel bp free_count : ℕ) → Mm → Count
unfolding check_heap_block
check_blocks zero bp free_count s = stop out_of_fuel
check_blocks (suc fuel) bp free_count s =
    let free_count' = if block_alloc s bp == 0 then free_count + 1 else free_count in
    let more = check_blocks fuel (next_blkp s bp) free_count' s in
    if curr_size s bp == 0
    then checked (expect (not (block_alloc s bp == 0))) (count free_count)
    else checked (check_heap_block bp s) more

-- The loop over one list, and the check of its last block behind it.
unfoldable pub check_list : (fuel index bp free_count : ℕ) → Mm → Count
unfolding check_free_block
check_list zero index bp free_count s = stop out_of_fuel
check_list (suc fuel) index bp free_count s =
    let more = check_list fuel index (nextp s bp) (free_count + 1) s in
    if succ_point s bp == s.heap_listp
    then checked (check_free_block bp s) (count free_count)
    else checked (expect (get_seg_index (curr_size s bp) == index))
        (checked (check_free_block bp s) more)

abbrev pub then_count : Count → (ℕ → Count) → Count
then_count (count n) next = next n
then_count (stop c) next = stop c

-- `n` lists from `index` on.
unfoldable pub check_lists : (n index free_count : ℕ) → Mm → Count
unfolding check_cycle check_list
check_lists zero index free_count s = count free_count
check_lists (suc n) index free_count s =
    let head = s.seglist_head index in
    if head == 0
    then check_lists n (index + 1) free_count s
    else checked (check_cycle head s) (
        then_count (check_list (mem_heapsize s.mem) index head (free_count + 1) s)
          (λ free_count. check_lists n (index + 1) free_count s))

abbrev pub finish : Count → Checked
finish (count n) = passed
finish (stop c) = c

unfoldable pub mm_checkheap : Mm → Checked
unfolding check_blocks check_lists check_heap_block
mm_checkheap s =
    let p = s.heap_listp in
    let prologue = expect (curr_size s p == dsize && not (block_alloc s p == 0)) in
    finish (
      checked prologue (
        checked (check_heap_block p s) (
          then_count (check_blocks (mem_heapsize s.mem) p 0 s) (λ in_blocks.
            then_count (check_lists bin_size 0 0 s)
              (λ in_lists. checked (expect (in_blocks == in_lists)) (count in_lists))))))
