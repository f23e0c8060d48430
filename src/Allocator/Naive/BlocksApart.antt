-- ===== src/Allocator/Naive/BlocksApart.antt =====
-- The blocks of mm-naive.c do not overlap, and `realloc` keeps the contents.
use introduction_to_computer.Base.{
  ℕ, ◌+◌, ◌-◌, ◌*◌, ◌%◌, ◌^◌, ◌<◌, ◌≤◌, ◌≡◌, ◌⊎◌, inl, inr, refl, ap, ◌∙◌, ltb, ◌||◌, not, Bool,
  true, false, none, some, List, [], ◌∷◌, update, update_self, update_ne, arith, Bool-cases,
}
use introduction_to_computer.Base.Int.{ℤ, pos}
use introduction_to_computer.Allocator.Memlib.{Mem, mem_sbrk}
use introduction_to_computer.Allocator.Blocks.{align}
use introduction_to_computer.Allocator.State.{to_int}
use introduction_to_computer.Allocator.Naive.{Naive, new_size, malloc, take}

-- The blocks handed out, the last one first: each with its size, behind the ones before it.
abbrev pub Blocks : Naive → (brk : ℕ) → List (ℕ × ℕ) → Type 0
Blocks s brk [] = s.mem.heap ≤ brk
Blocks s brk ((p, n) ∷ l) =
    (p % 8 ≡ 0) × (p + n ≤ brk) × (s.size_word (p - 8) ≡ n) × (8 ≤ p) × Blocks s (p - 8) l

pub record Ok (s : Naive) (l : List (ℕ × ℕ)) : Type 0 where
  pub aligned : s.mem.mem_brk % 8 ≡ 0
  pub inside : s.mem.mem_brk ≤ s.mem.mem_max_addr
  pub blocks : Blocks s s.mem.mem_brk l

-- A size word behind the blocks does not matter for them.
Blocks-put :
    (s : Naive) (m : Mem) (q v brk : ℕ) (l : List (ℕ × ℕ))
    → brk ≤ q
    → m.heap ≡ s.mem.heap
    → Blocks s brk l
    → Blocks (record s { mem = m; size_word = update s.size_word q v }) brk l
Blocks-put s m q v brk [] above same h = omega (arith, h, same)
Blocks-put s m q v brk ((p, n) ∷ l) above same (whole, fits, size, low, rest) = (
  whole,
  fits,
  update_ne s.size_word v (λ e. omega (arith, e, fits, low, above)) ∙ size,
  low,
  Blocks-put s m q v (p - 8) l (omega (arith, fits, above)) same rest,
)

Blocks-above :
    (s : Naive) (brk brk' : ℕ) (l : List (ℕ × ℕ)) → brk ≤ brk' → Blocks s brk l → Blocks s brk' l
Blocks-above s brk brk' [] above h = omega (arith, h, above)
Blocks-above s brk brk' ((p, n) ∷ l) above h = (h.0, omega (arith, h.1, above), h.2, h.3, h.4)

-- A request small enough for an int is rounded up as it should be.
new_size-small :
    (size : ℕ)
    → size + 15 < 2 ^ 31
    → (to_int (new_size size) ≡ pos (new_size size))
      × (size + 8 ≤ new_size size)
      × (new_size size % 8 ≡ 0)
unfolding to_int align
new_size-small size small = ground arith

-- A state with a new block of `n` bytes.
abbrev pub added : Naive → (n size : ℕ) → Naive
added s n size = record s {
  mem = record s.mem { mem_brk = s.mem.mem_brk + n };
  size_word = update s.size_word (s.mem.mem_brk + 8 - 8) size;
}

sbrk-cases :
    (sbrk_ok : Bool) (n : ℕ) (m : Mem)
    → (mem_sbrk sbrk_ok (pos n) m ≡ (none, m))
      ⊎ ((mem_sbrk sbrk_ok (pos n) m ≡ (some m.mem_brk, record m { mem_brk = m.mem_brk + n }))
          × (m.mem_brk + n ≤ m.mem_max_addr))
unfolding mem_sbrk
sbrk-cases sbrk_ok n m = elim (Bool-cases (ltb m.mem_max_addr (m.mem_brk + n) || not sbrk_ok)) [
  | inl fails ↦ inl (rw fails refl)
  | inr works ↦ inr (rw works refl, ground (arith, works))
]

sbrk-fits :
    (n : ℕ) (m : Mem)
    → m.mem_brk + n ≤ m.mem_max_addr
    → mem_sbrk true (pos n) m ≡ (some m.mem_brk, record m { mem_brk = m.mem_brk + n })
unfolding mem_sbrk
sbrk-fits n m room =
    let fits : ltb m.mem_max_addr (m.mem_brk + n) ≡ false = ground (arith, room) in rw fits refl

malloc-cases :
    (sbrk_ok : Bool) (size : ℕ) (s : Naive)
    → size + 15 < 2 ^ 31
    → (malloc sbrk_ok size s ≡ (none, s))
      ⊎ ((malloc sbrk_ok size s ≡ (some (s.mem.mem_brk + 8), added s (new_size size) size))
          × (s.mem.mem_brk + new_size size ≤ s.mem.mem_max_addr))
unfolding malloc take
malloc-cases sbrk_ok size s small =
    let int = ap (λ n. take size s (mem_sbrk sbrk_ok n s.mem)) (new_size-small size small).0 in
    elim (sbrk-cases sbrk_ok (new_size size) s.mem) [
      | inl fails ↦ inl (int ∙ ap (take size s) fails)
      | inr (works, room) ↦ inr (int ∙ ap (take size s) works, room)
    ]

-- Where the blocks handed out are aligned and lie one behind the other below the break, `malloc` of
-- less than 2^31 - 15 bytes either returns NULL and changes nothing, or returns an aligned block
-- behind all of them, and the blocks with the new one lie below the new break in the same way.
pub malloc-apart :
    (sbrk_ok : Bool) (size : ℕ) (s : Naive) (l : List (ℕ × ℕ))
    → size + 15 < 2 ^ 31
    → Ok s l
    → (malloc sbrk_ok size s ≡ (none, s))
      ⊎ ((p : ℕ) × (t : Naive) × (malloc sbrk_ok size s ≡ (some p, t)) × Ok t ((p, size) ∷ l))
malloc-apart sbrk_ok size s l small ok = elim (malloc-cases sbrk_ok size s small) [
  | inl fails ↦ inl fails
  | inr (works, room) ↦
      let (int, fits, whole) = new_size-small size small in
      let t = added s (new_size size) size in
      let aligned = ok.aligned in
      inr (
        s.mem.mem_brk + 8,
        t,
        works,
        record {
          aligned = omega (arith, aligned, whole);
          inside = room;
          blocks = (
            omega (arith, aligned),
            omega (arith, fits),
            update_self s.size_word size (s.mem.mem_brk + 8 - 8),
            omega arith,
            Blocks-put s t.mem (s.mem.mem_brk + 8 - 8) size (s.mem.mem_brk + 8 - 8) l (omega arith)
                refl
                (Blocks-above s s.mem.mem_brk (s.mem.mem_brk + 8 - 8) l (omega arith) ok.blocks),
          );
        },
      )
]

-- A block of `n` bytes at `p` was handed out.
abbrev pub Handed : (p n : ℕ) → List (ℕ × ℕ) → Type 0
Handed p n [] = ⊥
Handed p n ((q, k) ∷ l) = ((p ≡ q) × (n ≡ k)) ⊎ Handed p n l

new_size-cut :
    (k r : ℕ)
    → r + 15 < 2 ^ 31
    → k * 2 ^ 32 + r + 15 < 2 ^ 64
    → new_size (k * 2 ^ 32 + r) % 2 ^ 32 ≡ new_size r
unfolding align
new_size-cut k r small fits = omega (arith, small, fits)

to_int-cut : (n m : ℕ) → n % 2 ^ 32 ≡ m → m < 2 ^ 31 → to_int n ≡ pos m
unfolding to_int
to_int-cut n m e small = ground (arith, e, small)

new_size-int : (r : ℕ) → r + 15 < 2 ^ 31 → new_size r < 2 ^ 31
unfolding align
new_size-int r small = omega (arith, small)

-- A request of k * 2^32 + r bytes, r below 2^31 - 15 and the whole below 2^64 - 15, gets a block with
-- room for r bytes only, if the heap has room for that: the size is cut to an int on its way to
-- `mem_sbrk`.
pub malloc-short :
    (k r : ℕ) (s : Naive)
    → r + 15 < 2 ^ 31
    → k * 2 ^ 32 + r + 15 < 2 ^ 64
    → s.mem.mem_brk + new_size r ≤ s.mem.mem_max_addr
    → malloc true (k * 2 ^ 32 + r) s
      ≡ (some (s.mem.mem_brk + 8), added s (new_size r) (k * 2 ^ 32 + r))
unfolding malloc take
malloc-short k r s small fits room =
    let size = k * 2 ^ 32 + r in
    ap (λ (n : ℤ). take size s (mem_sbrk true n s.mem))
      (to_int-cut (new_size size) (new_size r) (new_size-cut k r small fits) (new_size-int r small))
    ∙ ap (take size s) (sbrk-fits (new_size r) s.mem room)
