-- ===== src/Allocator/Heap/BothWords.antt =====
-- The words that case 4 of `coalesce` of mm.c writes.
use introduction_to_computer.Base.{
  ℕ, ◌+◌, ◌-◌, ◌%◌, ◌^◌, ◌≤◌, ◌≡◌, ◌∙◌, ap, update, update_ne, arith,
}
use introduction_to_computer.Allocator.Blocks.{pack, get_size, get_prev_alloc}
use introduction_to_computer.Allocator.State.{Mm, put, hdrp, ftrp, curr_size, next_blkp, prev_blkp}
use introduction_to_computer.Allocator.Heap.Reads.{}
use introduction_to_computer.Allocator.Heap.Joined.{fenced}
use introduction_to_computer.Allocator.Heap.JoinedPrev.{listed_at}

-- What case 4 does behind `set_next_alloc`, from its end on.
abbrev foot_at : (size x : ℕ) → Mm → ℕ × Mm
foot_at size x s =
    let s = put (ftrp s (next_blkp s x)) (pack size 0) s in listed_at (prev_blkp s x) s

abbrev head_at : (size x bp : ℕ) → Mm → ℕ × Mm
head_at size x bp s =
    foot_at size x (put (hdrp bp) (pack size (get_prev_alloc (s.word (hdrp bp)))) s)

abbrev pub both_tail : (size x : ℕ) → Mm → ℕ × Mm
both_tail size x s =
    let size = size + (curr_size s (prev_blkp s x) + get_size (s.word (ftrp s (next_blkp s x)))) in
    head_at size x (prev_blkp s x) s

pub both_tail-words :
    (s : Mm) (x y n n' n'' k p : ℕ)
    → x ≡ y + n'
    → k ≡ n' + n + n''
    → 8 ≤ y
    → 16 ≤ n
    → 16 ≤ n'
    → 16 ≤ n''
    → get_size (s.word (x - 8)) ≡ n'
    → get_size (s.word (x - 4)) ≡ n
    → get_size (s.word (y - 4)) ≡ n'
    → get_size (s.word (x + n - 4)) ≡ n''
    → get_size (s.word (x + n + n'' - 8)) ≡ n''
    → get_prev_alloc (s.word (y - 4)) ≡ p
    → (k + p) % 2 ^ 32 ≡ k + p
    → k % 2 ^ 32 ≡ k
    → both_tail n x s ≡ listed_at y (record s { word = fenced s.word y k p })
unfolding pack
both_tail-words s x y n n' n'' k p e e_k low large large' large'' foot size size' size'' foot'' prev
      small small' =
    let w1 = update s.word (y - 4) (k + p) in
    let s1 : Mm = record s { word = w1 } in
    let w2 = update w1 (y + k - 8) k in
    let s2 : Mm = record s { word = w2 } in
    let at_prev : prev_blkp s x ≡ y = omega (arith, foot, e) in
    let at_next : ftrp s (next_blkp s x) ≡ x + n + n'' - 8 =
      ap (λ (z : ℕ). ftrp s (x + z)) size ∙ ap (λ (z : ℕ). x + n + z - 8) size'' in
    let prev_size : curr_size s (prev_blkp s x) ≡ n' = ap (curr_size s) at_prev ∙ size' in
    let next_size : get_size (s.word (ftrp s (next_blkp s x))) ≡ n'' =
      ap (λ (z : ℕ). get_size (s.word z)) at_next ∙ foot'' in
    let e_size : n + (curr_size s (prev_blkp s x) + get_size (s.word (ftrp s (next_blkp s x))))
        ≡ k =
      omega (arith, prev_size, next_size, e_k) in
    let size_1 : get_size (w1 (x - 4)) ≡ n =
      ap get_size (update_ne s.word (k + p) (λ z. omega (arith, z, e, large', low))) ∙ size in
    let size_1'' : get_size (w1 (x + n - 4)) ≡ n'' =
      ap get_size (update_ne s.word (k + p) (λ z. omega (arith, z, e, large', low))) ∙ size'' in
    let at_next_1 : ftrp s1 (next_blkp s1 x) ≡ y + k - 8 =
      ap (λ (z : ℕ). ftrp s1 (x + z)) size_1
      ∙ ap (λ (z : ℕ). x + n + z - 8) size_1''
      ∙ omega (arith, e, e_k) in
    let foot_2 : w2 (x - 8) ≡ s.word (x - 8) =
      update_ne w1 k (λ z. omega (arith, z, e, e_k, large, large'', low))
      ∙ update_ne s.word (k + p) (λ z. omega (arith, z, e, large', low)) in
    let at_prev_2 : prev_blkp s2 x ≡ y =
      ap (λ (z : ℕ). x - get_size z) foot_2 ∙ omega (arith, foot, e) in
    ap (λ (z : ℕ). head_at z x (prev_blkp s x) s) e_size
    ∙ ap (λ (z : ℕ). head_at k x z s) at_prev
    ∙ ap (λ (z : ℕ). foot_at k x (put (y - 4) (k + z) s)) prev
    ∙ ap (λ (z : ℕ). foot_at k x (record s { word = update s.word (y - 4) z })) small
    ∙ ap (λ (z : ℕ). let t = put z (k + 0) s1 in listed_at (prev_blkp t x) t) at_next_1
    ∙ ap
        (λ (z : ℕ).
          let t : Mm = record s1 { word = update w1 (y + k - 8) z } in listed_at (prev_blkp t x) t)
        (ap (λ (z : ℕ). z % 2 ^ 32) (omega arith) ∙ small')
    ∙ ap (λ (z : ℕ). listed_at z s2) at_prev_2
