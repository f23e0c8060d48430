-- ===== src/CacheSim/Main.antt =====
-- `main` of csim.c: the options, and what it opens and allocates before it reads the trace.
use introduction_to_computer.Base.{
  ℕ, ◌+◌, ◌-◌, ◌*◌, ◌^◌, Bool, true, false, ◌&&◌, Option, none, some, List, [], ◌∷◌, ltb, leb,
  if◌then◌else◌,
}
use introduction_to_computer.Base.Int.{ℤ, pos, negsuc}
use introduction_to_computer.CacheSim.{CacheBlock, Config, Sim, other, Line, simulate, start}

-- What `getopt` returns, the numbers as `atoi` reads them; `bad_option` is anything else.
pub data Opt : Type 0 where
  opt_s opt_e opt_b : ℤ → Opt
  opt_t : List ℕ → Opt
  bad_option : Opt

-- The variables that the option loop sets; `none` is the pointer that is not set.
pub record Options : Type 0 where
  pub set_bits : ℤ
  pub number_of_lines : ℤ
  pub block_bits : ℤ
  pub trace_file_name : Option (List ℕ)

abbrev pub no_options : Options
no_options = record {
  set_bits = pos 0;
  number_of_lines = pos 0;
  block_bits = pos 0;
  trace_file_name = none;
}

-- The option loop; `none` is its `exit(1)`.
unfoldable pub read_options : Options → List Opt → Option Options
read_options o [] = some o
read_options o (opt_s n ∷ opts) = read_options (record o { set_bits = n }) opts
read_options o (opt_e n ∷ opts) = read_options (record o { number_of_lines = n }) opts
read_options o (opt_b n ∷ opts) = read_options (record o { block_bits = n }) opts
read_options o (opt_t file ∷ opts) = read_options (record o { trace_file_name = some file }) opts
read_options o (bad_option ∷ opts) = none

-- How `main` ends: with a status, with the numbers it passes to `printSummary`, or in what the C
-- standard leaves open.
pub data Ending : Type 0 where
  exited : ℕ → Ending
  summary : (hits misses evictions : ℕ) → Ending
  undefined : Ending

-- `(1<<set_bits)*number_of_lines`, if neither the shift nor the product is undefined.
unfoldable pub number_of_sets : (set_bits number_of_lines : ℤ) → Option ℤ
number_of_sets (negsuc _) lines = none
number_of_sets (pos s) (pos lines) =
    if ltb s 31 && ltb (2 ^ s * lines) (2 ^ 31) then some (pos (2 ^ s * lines)) else none
number_of_sets (pos s) (negsuc n) =
    if ltb s 31 && leb (2 ^ s * (n + 1)) (2 ^ 31) then some (negsuc (2 ^ s * (n + 1) - 1)) else none

-- The options for which an access is defined: the shifts are by 0 to 31 bits, and a set has a line,
-- as `cache_access` uses the first block of the set at least.
unfoldable pub config : (set_bits number_of_lines block_bits : ℤ) → Option Config
config (pos s) (pos lines) (pos b) =
    if ltb 0 lines && ltb (s + b) 32
    then some (record { set_bits = s; number_of_lines = lines; block_bits = b })
    else none
config _ _ _ = none

-- The trace has no line of the actions L, S and M.
unfoldable pub no_access : List Line → Bool
no_access [] = true
no_access ((other, _) ∷ trace) = no_access trace
no_access _ = false

unfoldable pub print_summary : Sim → Ending
print_summary s = summary s.hit_count s.miss_count s.eviction_count

-- The loop over the trace, on the memory that `malloc` returned.
unfoldable pub run_trace : Option Config → (ℕ → CacheBlock) → List Line → Ending
unfolding simulate start print_summary no_access
run_trace none memory trace = if no_access trace then summary 0 0 0 else undefined
run_trace (some c) memory trace = print_summary (simulate c (start c memory) trace)

module _ (open_trace : List ℕ → Option (List Line)) (malloc : ℤ → Option (ℕ → CacheBlock)) where
  -- What follows the call of `malloc`.
  unfoldable pub check_memory : Options → List Line → Option (ℕ → CacheBlock) → Ending
  unfolding run_trace config
  check_memory o trace none = exited 3
  check_memory o trace (some memory) =
      run_trace (config o.set_bits o.number_of_lines o.block_bits) memory trace

  unfoldable pub allocate : Options → List Line → Option ℤ → Ending
  unfolding check_memory
  allocate o trace none = undefined
  allocate o trace (some n) = check_memory o trace (malloc n)

  -- What follows the call of `fopen`.
  unfoldable pub check_trace : Options → Option (List Line) → Ending
  unfolding allocate number_of_sets
  check_trace o none = exited 2
  check_trace o (some trace) = allocate o trace (number_of_sets o.set_bits o.number_of_lines)

  unfoldable pub open_and_run : Option Options → Ending
  unfolding check_trace
  open_and_run none = exited 1
  open_and_run (some o) = elim o.trace_file_name [
    | none ↦ undefined
    | some file ↦ check_trace o (open_trace file)
  ]

  -- `open_trace` is the trace behind a file name, if `fopen` opens it; `malloc` the blocks that it
  -- returns for a number of them.
  unfoldable pub main : List Opt → Ending
  unfolding open_and_run read_options
  main opts = open_and_run (read_options no_options opts)
