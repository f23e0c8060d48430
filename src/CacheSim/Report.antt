-- ===== src/CacheSim/Report.antt =====
-- What `main` of csim.c reports for a list of options.
use introduction_to_computer.Base.{
  ℕ, ◌+◌, ◌*◌, ◌^◌, ◌≤◌, ◌<◌, ◌≡◌, ◌∙◌, ap, refl, Option, none, some, List, [], ◌∷◌, arith,
  Option-cases, inl, inr, lt→ltb,
}
use introduction_to_computer.Base.Int.{ℤ, pos}
use introduction_to_computer.CacheSim.{CacheBlock, Config, Sim, Line, start, simulate}
use introduction_to_computer.CacheSim.Main.{
  Opt, opt_s, opt_e, opt_b, opt_t, bad_option, Options, no_options, read_options, Ending, summary,
  run_trace, check_trace, open_and_run, main,
}
use introduction_to_computer.CacheSim.Run.{accesses, simulate-Counted}

abbrev pub the_s : Opt → Option ℤ
the_s (opt_s n) = some n
the_s _ = none

abbrev pub the_e : Opt → Option ℤ
the_e (opt_e n) = some n
the_e _ = none

abbrev pub the_b : Opt → Option ℤ
the_b (opt_b n) = some n
the_b _ = none

abbrev pub the_t : Opt → Option (Option (List ℕ))
the_t (opt_t file) = some (some file)
the_t _ = none

-- The last match in a list.
unfoldable last_match {ℓ} : {A : Type ℓ} → (Opt → Option A) → List Opt → Option A
last_match match [] = none
last_match match (o ∷ opts) = elim (last_match match opts) [
  | none ↦ match o
  | some value ↦ some value
]

abbrev with_default {ℓ} : {A : Type ℓ} → A → Option A → A
with_default default none = default
with_default default (some value) = value

-- The value of an option: the last one in the list counts.
unfoldable pub chosen {ℓ} : {A : Type ℓ} → (Opt → Option A) → A → List Opt → A
unfolding last_match
chosen match default opts = with_default default (last_match match opts)

abbrev pub Accepted : List Opt → Type 0
Accepted [] = Unit {0}
Accepted (bad_option ∷ opts) = ⊥
Accepted (_ ∷ opts) = Accepted opts

chosen-cons {ℓ} :
    {A : Type ℓ} (match : Opt → Option A) (default : A) (o : Opt) (opts : List Opt)
    → chosen match (with_default default (match o)) opts ≡ chosen match default (o ∷ opts)
unfolding chosen
chosen-cons match default o opts = elim (Option-cases (last_match match opts)) [
  | inl absent ↦ rw absent refl
  | inr (value, found) ↦ rw found refl
]

-- What the options of a list make of the variables.
abbrev chosen_options : Options → List Opt → Options
chosen_options o opts = record {
  set_bits = chosen the_s o.set_bits opts;
  number_of_lines = chosen the_e o.number_of_lines opts;
  block_bits = chosen the_b o.block_bits opts;
  trace_file_name = chosen the_t o.trace_file_name opts;
}

chosen_options-cons :
    (o o' : Options) (opt : Opt) (opts : List Opt)
    → o'.set_bits ≡ with_default o.set_bits (the_s opt)
    → o'.number_of_lines ≡ with_default o.number_of_lines (the_e opt)
    → o'.block_bits ≡ with_default o.block_bits (the_b opt)
    → o'.trace_file_name ≡ with_default o.trace_file_name (the_t opt)
    → chosen_options o' opts ≡ chosen_options o (opt ∷ opts)
chosen_options-cons o o' opt opts s e b t =
    rw
      (
        s,
        e,
        b,
        t,
        chosen-cons the_s o.set_bits opt opts,
        chosen-cons the_e o.number_of_lines opt opts,
        chosen-cons the_b o.block_bits opt opts,
        chosen-cons the_t o.trace_file_name opt opts,
      )
      refl

read_options-chosen :
    (o : Options) (opts : List Opt)
    → Accepted opts
    → read_options o opts ≡ some (chosen_options o opts)
unfolding read_options chosen
read_options-chosen o [] good = refl
read_options-chosen o (opt_s n ∷ opts) good =
    read_options-chosen (record o { set_bits = n }) opts good
    ∙ ap some (chosen_options-cons o (record o { set_bits = n }) (opt_s n) opts refl refl refl refl)
read_options-chosen o (opt_e n ∷ opts) good =
    read_options-chosen (record o { number_of_lines = n }) opts good
    ∙ ap some (
        chosen_options-cons o (record o { number_of_lines = n }) (opt_e n) opts refl refl refl refl)
read_options-chosen o (opt_b n ∷ opts) good =
    read_options-chosen (record o { block_bits = n }) opts good
    ∙ ap some
        (chosen_options-cons o (record o { block_bits = n }) (opt_b n) opts refl refl refl refl)
read_options-chosen o (opt_t file ∷ opts) good =
    read_options-chosen (record o { trace_file_name = some file }) opts good
    ∙ ap some (
        chosen_options-cons o (record o { trace_file_name = some file }) (opt_t file) opts refl refl
          refl refl)
read_options-chosen o (bad_option ∷ opts) good = absurd good

-- The counters of a simulation are what `main` reports, and add up.
abbrev pub ReportsRun : Ending → Sim → List Line → Type 0
ReportsRun ending r trace =
    (ending ≡ summary r.hit_count r.miss_count r.eviction_count)
    × (r.hit_count + r.miss_count ≡ accesses trace)
    × (r.eviction_count ≤ r.miss_count)

module _ (open_trace : List ℕ → Option (List Line)) (malloc : ℤ → Option (ℕ → CacheBlock))
    (c : Config) (file : List ℕ) (trace : List Line) (memory : ℕ → CacheBlock) where
  abbrev given : Options
  given = record {
    set_bits = pos c.set_bits;
    number_of_lines = pos c.number_of_lines;
    block_bits = pos c.block_bits;
    trace_file_name = some file;
  }

  check_trace-runs :
      0 < c.number_of_lines
      → c.set_bits < 31
      → c.set_bits + c.block_bits < 32
      → 2 ^ c.set_bits * c.number_of_lines < 2 ^ 31
      → malloc (pos (2 ^ c.set_bits * c.number_of_lines)) ≡ some memory
      → check_trace open_trace malloc given (some trace) ≡ run_trace (some c) memory trace
  unfolding check_trace
  check_trace-runs positive shift bits small allocated =
      rw (lt→ltb _ _ shift, lt→ltb _ _ small, allocated, lt→ltb _ _ positive, lt→ltb _ _ bits) refl

  -- If every option is valid, the last `-t` names a trace that opens, and the last `-s`, `-E` and `-b`, or 0,
  -- give bits and lines that C can shift by and multiply, with at least one line, and `malloc`
  -- returns that many blocks: `main` reports the counters of the simulation of that trace with those
  -- numbers; its hits and misses add up to the accesses of the trace, and it has no more evictions
  -- than misses.
  pub main-Reported :
      (opts : List Opt)
      → Accepted opts
      → chosen the_s (pos 0) opts ≡ pos c.set_bits
      → chosen the_e (pos 0) opts ≡ pos c.number_of_lines
      → chosen the_b (pos 0) opts ≡ pos c.block_bits
      → chosen the_t none opts ≡ some file
      → open_trace file ≡ some trace
      → 0 < c.number_of_lines
      → c.set_bits < 31
      → c.set_bits + c.block_bits < 32
      → 2 ^ c.set_bits * c.number_of_lines < 2 ^ 31
      → malloc (pos (2 ^ c.set_bits * c.number_of_lines)) ≡ some memory
      → ReportsRun (main open_trace malloc opts) (simulate c (start c memory) trace) trace
  unfolding main run_trace
  main-Reported opts good s e b t opened positive shift bits small allocated =
      let r = simulate-Counted c (start c memory) trace in
      let options : chosen_options no_options opts ≡ given = rw (s, e, b, t) refl in
      (
        ap (open_and_run open_trace malloc)
              (read_options-chosen no_options opts good ∙ ap some options)
            ∙ ap (check_trace open_trace malloc given) opened
            ∙ check_trace-runs positive shift bits small allocated,
        unfold start in omega (arith, r.total),
        unfold start in omega (arith, r.evictions),
      )
