-- ===== src/Allocator/Break.antt =====
-- The break of memlib.c stays within the memory.
use introduction_to_computer.Base.{
  ℕ, ◌+◌, ◌≤◌, ◌≡◌, ◌⊎◌, inl, inr, refl, ltb, Bool, ◌||◌, not, Option, none, some, arith,
  Bool-cases,
}
use introduction_to_computer.Base.Int.{ℤ, pos, negsuc}
use introduction_to_computer.Allocator.Memlib.{Mem, mem_sbrk}

abbrev pub InBounds : Mem → Type 0
InBounds s = (s.heap ≤ s.mem_brk) × (s.mem_brk ≤ s.mem_max_addr)

-- What a call with `incr` did: nothing, or the break moved up over the area that it returns.
abbrev pub Moved : ℤ → Mem → (Option ℕ × Mem) → Type 0
Moved incr s (r, t) =
    ((r ≡ none) × (t ≡ s))
    ⊎ ((n : ℕ) × (incr ≡ pos n)
        × (r ≡ some s.mem_brk)
        × (t.mem_brk ≡ s.mem_brk + n)
        × (t.heap ≡ s.heap)
        × InBounds t)

-- If the break is within the memory, `mem_sbrk` either fails and changes nothing, which it does for
-- every negative increment, or returns the old break and moves the break up by the increment, and
-- the new break is within the memory.
pub mem_sbrk-Moved :
    (sbrk_ok : Bool) (incr : ℤ) (s : Mem) → InBounds s → Moved incr s (mem_sbrk sbrk_ok incr s)
unfolding mem_sbrk
mem_sbrk-Moved sbrk_ok (negsuc n) s ok = inl (refl, refl)
mem_sbrk-Moved sbrk_ok (pos incr) s ok =
    elim (Bool-cases (ltb s.mem_max_addr (s.mem_brk + incr) || not sbrk_ok)) [
      | inl fails ↦ rw fails (inl (refl, refl))
      | inr works ↦
          rw works (inr (incr, refl, refl, refl, refl, (omega (arith, ok), ground (arith, works))))
    ]
