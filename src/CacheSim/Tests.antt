-- ===== src/CacheSim/Tests.antt =====
-- A cache of two sets of two lines with two-byte blocks: runs of csim.c, and the theorems there.
use introduction_to_computer.Base.{
  ℕ, ◌+◌, ◌/◌, ◌^◌, ◌≡◌, ◌≢◌, refl, List, [], ◌∷◌, arith, if◌then◌else◌, ◌==◌, str_eq,
}
use introduction_to_computer.Base.Int.{pos, negsuc}
use introduction_to_computer.Base.{Option, none, some}
use introduction_to_computer.CacheSim.{
  CacheBlock, Config, Sim, load, store, modify, other, Line, cache_access, step, simulate,
  empty_block, start, set_number, tag_number,
}
use introduction_to_computer.CacheSim.Main.{
  Opt, opt_s, opt_e, opt_b, opt_t, bad_option, exited, undefined, main,
}
use introduction_to_computer.CacheSim.Alias.{far}
use introduction_to_computer.CacheSim.Report
use introduction_to_computer.CacheSim.Report.{chosen, ReportsRun}
use introduction_to_computer.CacheSim.Invariant.{WellFormed}
use introduction_to_computer.CacheSim.Access.{
  Outcome, cache_access-Outcome, set_number-lt, cache_access-WellFormed,
}
use introduction_to_computer.CacheSim.Run
use introduction_to_computer.CacheSim.Run.{accesses, Counted}
use introduction_to_computer.CacheSim.Setup

abbrev small : Config
small = record { set_bits = 1; number_of_lines = 2; block_bits = 1 }

abbrev trace : List Line
trace = (load, 0) ∷ (store, 4) ∷ (modify, 8) ∷ (other, 3) ∷ (load, 0) ∷ []

abbrev empty : Sim
empty = start small (λ _. empty_block)

abbrev after : Sim
after = simulate small empty trace

summary : (after.hit_count ≡ 1) × (after.miss_count ≡ 4) × (after.eviction_count ≡ 2)
unfolding start simulate set_number tag_number
summary = (refl, refl, refl)

empty-WellFormed : WellFormed small empty
empty-WellFormed = (Setup.start-WellFormed small (λ _. empty_block) (λ n _ _. refl)).0

after-WellFormed : WellFormed small after
after-WellFormed = Run.simulate-WellFormed small (omega arith) empty trace empty-WellFormed

cache_access-Outcome_example : Outcome small after (cache_access small after 12) 12
cache_access-Outcome_example =
    cache_access-Outcome small after 12 (after-WellFormed _ (set_number-lt small 12)) (omega arith)

cache_access-WellFormed_example : WellFormed small (cache_access small after 12)
cache_access-WellFormed_example =
    cache_access-WellFormed small after 12 (omega arith) after-WellFormed

simulate-Counted_example : Counted empty after (accesses trace)
simulate-Counted_example = Run.simulate-Counted small empty trace

modify-hit_example :
    ((step small after modify 12).hit_count ≡ (step small after load 12).hit_count + 1)
    × ((step small after modify 12).miss_count ≡ (step small after load 12).miss_count)
    × ((step small after modify 12).eviction_count ≡ (step small after load 12).eviction_count)
modify-hit_example = Run.modify-hit small (omega arith) after 12 after-WellFormed

access-aliased_example :
    (far small 0 1 / 2 ^ small.block_bits ≢ 0 / 2 ^ small.block_bits)
    × ((cache_access small (cache_access small after 0) (far small 0 1)).hit_count
        ≡ (cache_access small after 0).hit_count + 1)
access-aliased_example =
    Run.access-aliased small (omega arith) after 0 1 after-WellFormed (omega arith) (omega arith)

-- Only the last block of the cache is empty.
abbrev garbage : ℕ → CacheBlock
garbage n = if n == 3 then empty_block else record { valid = 7; tag = 7; block_lru_count = 7 }

start-WellFormed_example :
    WellFormed small (start small garbage)
    × ((start small garbage).hit_count ≡ 0)
    × ((start small garbage).miss_count ≡ 0)
    × ((start small garbage).eviction_count ≡ 0)
start-WellFormed_example =
    Setup.start-WellFormed small garbage (λ n low high. ground (arith, low, high))

-- The second `-s` counts.
abbrev options : List Opt
options = opt_s (pos 7) ∷ opt_e (pos 2) ∷ opt_t (b'x' ∷ []) ∷ opt_b (pos 1) ∷ opt_s (pos 1) ∷ []

abbrev the_trace : List ℕ → Option (List Line)
the_trace name = if str_eq name (b'x' ∷ []) then some trace else none

main-Reported_example :
    ReportsRun
      (main the_trace (λ _. some garbage) options)
      (simulate small (start small garbage) trace)
      trace
unfolding chosen str_eq
main-Reported_example =
    Report.main-Reported the_trace (λ _. some garbage) small (b'x' ∷ []) trace garbage options tt
      refl refl refl refl refl (omega arith) (omega arith) (omega arith) (omega arith) refl

-- With no `-t` the file name is not set; with no lines an access is outside the array.
no_file : main the_trace (λ _. some garbage) (opt_s (pos 1) ∷ opt_e (pos 2) ∷ []) ≡ undefined
unfolding main
no_file = refl

no_lines : main the_trace (λ _. some garbage) (opt_t (b'x' ∷ []) ∷ []) ≡ undefined
unfolding main str_eq
no_lines = refl

bad_number_of_lines : main the_trace (λ _. none) (opt_e (negsuc 2) ∷ bad_option ∷ []) ≡ exited 1
unfolding main
bad_number_of_lines = refl
