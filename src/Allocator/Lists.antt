-- ===== src/Allocator/Lists.antt =====
-- mm.c: the segregated free lists.
use introduction_to_computer.Base.{ℕ, zero, suc, ◌+◌, ◌-◌, leb, ◌==◌, if◌then◌else◌}
use introduction_to_computer.Allocator.Memlib.{mem_heapsize}
use introduction_to_computer.Allocator.Blocks.{bin_size, get_seg_index}
use introduction_to_computer.Allocator.State.{
  Mm, put, set_head, curr_size, next_blkp, succ, pred_point, succ_point, nextp, p_offset,
}

-- The head of the list whose head is `head` gets a predecessor.
unfoldable pub push_front : (index head bp : ℕ) → Mm → Mm
push_front index head bp s =
    let s = put head (p_offset s bp) s in
    let s = put (succ bp) (p_offset s (succ head)) s in let s = put bp 0 s in set_head index bp s

unfoldable pub add_to_list : (bp : ℕ) → Mm → Mm
unfolding push_front
add_to_list bp s =
    let index = get_seg_index (curr_size s bp) in
    let head = s.seglist_head index in
    if head == 0
    then put (succ bp) 0 (put bp 0 (set_head index bp s))
    else push_front index head bp s

-- The next block becomes the head.
unfoldable pub drop_head : (index bp : ℕ) → Mm → Mm
drop_head index bp s = let head = nextp s bp in put head 0 (set_head index head s)

-- The neighbours in the list point to each other.
unfoldable pub bypass : (bp : ℕ) → Mm → Mm
bypass bp s =
    let s' = put (nextp s bp) (s.word bp) s in put (succ (pred_point s' bp)) (s'.word (succ bp)) s'

unfoldable pub unlist : (index bp : ℕ) → Mm → Mm
unfolding drop_head bypass
unlist index bp s =
    let is_last = succ_point s bp == s.heap_listp in
    if bp == s.seglist_head index
    then (if is_last then set_head index 0 s else drop_head index bp s)
    else if is_last
    then put (succ (pred_point s bp)) 0 s
    else bypass bp s

unfoldable pub delete_from_list : (bp : ℕ) → Mm → Mm
unfolding unlist
delete_from_list bp s = put (succ bp) 0 (put bp 0 (unlist (get_seg_index (curr_size s bp)) bp s))

-- `bp_next` takes the place of `bp` in the list.
unfoldable pub replace : (index bp bp_next : ℕ) → Mm → Mm
replace index bp bp_next s =
    let is_last = succ_point s bp == s.heap_listp in
    let after = put (nextp s bp) (p_offset s bp_next) s in
    if bp == s.seglist_head index
    then (if is_last then set_head index bp_next s else set_head index bp_next after)
    else if is_last
    then put (succ (pred_point s bp)) (p_offset s (succ bp_next)) s
    else put (succ (pred_point after bp)) (p_offset after (succ bp_next)) after

unfoldable pub block_split : (bp index : ℕ) → Mm → Mm
unfolding replace
block_split bp index s =
    let bp_next = next_blkp s bp in
    let s = put bp_next (s.word bp) s in
    let s = put (succ bp_next) (s.word (succ bp)) s in
    let s = replace index bp bp_next s in put (succ bp) 0 (put bp 0 s)

-- What a search of the free lists finds.
pub data Fit : Type 0 where
  fit : ℕ → Fit
  no_fit : Fit
  out_of_fuel : Fit

-- First fit in one list, from the block `bp` on.
unfoldable pub search_list : (fuel asize bp : ℕ) → Mm → Fit
search_list zero asize bp s = out_of_fuel
search_list (suc fuel) asize bp s =
    let more = search_list fuel asize (nextp s bp) s in
    if succ_point s bp == s.heap_listp
    then (if leb asize (curr_size s bp) then fit bp else no_fit)
    else if leb asize (curr_size s bp)
    then fit bp
    else more

abbrev pub or_else : Fit → Fit → Fit
or_else (fit bp) more = fit bp
or_else no_fit more = more
or_else out_of_fuel more = out_of_fuel

-- `n` bins from `index` on. A list has fewer blocks than the heap has bytes.
unfoldable pub search_bins : (n index asize : ℕ) → Mm → Fit
unfolding search_list
search_bins zero index asize s = no_fit
search_bins (suc n) index asize s =
    let head = s.seglist_head index in
    let more = search_bins n (index + 1) asize s in
    if head == 0 then more else or_else (search_list (mem_heapsize s.mem) asize head s) more

unfoldable pub find_fit : (asize : ℕ) → Mm → Fit
unfolding search_bins
find_fit asize s = let index = get_seg_index asize in search_bins (bin_size - index) index asize s
