-- ===== src/Shell/Main.antt =====
-- `main` of svijay_tsh.c: the options and the read/eval loop. What `getopt` and `fgets` return, and
-- what the kernel does for each command line, are arguments.
use introduction_to_computer.Base.{
  Bool, true, false, Option, none, some, List, [], ◌∷◌, if◌then◌else◌,
}
use introduction_to_computer.Base.Int.{ℤ}
use introduction_to_computer.Shell.Defs.{
  CString, maxjobs, ShellState, prompted, printed_newline, printed_usage, fgets_error, emit, ok,
  exit, fault, waiting, M, ◌>>◌, ◌>>=◌,
}
use introduction_to_computer.Shell.Jobs.{cleared, initjobs}
use introduction_to_computer.Shell.Signals.{handle_all}
use introduction_to_computer.Shell.Eval.{Kernel, eval}

-- What `getopt(argc, argv, "hvp")` returns.
pub data ShellOpt : Type 0 where
  opt_h opt_v opt_p unknown_opt : ShellOpt

unfoldable pub usage : {A : Type 0} → M A
usage s = exit 1 (emit printed_usage s)

-- The option loop; it returns `emit_prompt`.
unfoldable pub read_opts : (emit_prompt : Bool) → List ShellOpt → M Bool
unfolding usage
read_opts emit_prompt [] s = ok emit_prompt s
read_opts emit_prompt (opt_h ∷ opts) s = usage s
read_opts emit_prompt (opt_v ∷ opts) s = read_opts emit_prompt opts (record s { verbose = true })
read_opts emit_prompt (opt_p ∷ opts) s = read_opts false opts s
read_opts emit_prompt (unknown_opt ∷ opts) s = usage s

-- What `fgets` does; a last line without a newline counts as `end_of_file`, as `feof` is then true
-- and the line is not evaluated.
pub data Input : Type 0 where
  read_error : Input
  end_of_file : Input
  line : CString → Input

-- `cmdline[strlen(cmdline)-1] = '\0'`; with no character this writes in front of the array.
unfoldable pub chomp : CString → Option CString
chomp [] = none
chomp (c ∷ []) = some []
chomp (c ∷ d ∷ cs) = elim (chomp (d ∷ cs)) [ none ↦ none | some rest ↦ some (c ∷ rest) ]

-- The global variables before `main`.
abbrev pub globals : ShellState
globals = record { job_list = cleared maxjobs; nextjid = 1; verbose = false; events = [] }

module _ (atoi : CString → ℤ) where
  -- The handlers of the signals that are left run before the next line is read.
  unfoldable pub eval_line : Kernel → Option CString → M (Unit {0})
  unfolding handle_all
  eval_line k none = fault
  eval_line k (some cmdline) = eval atoi k cmdline >>= handle_all

  unfoldable pub evaluate : (ShellState → Kernel) → Input → M (Unit {0})
  unfolding eval_line
  evaluate kernel read_error s = exit 1 (emit fgets_error s)
  evaluate kernel end_of_file s = exit 0 (emit printed_newline s)
  evaluate kernel (line cmdline) s = eval_line (kernel s) (chomp cmdline) s

  -- One trip for each input; after the last one the shell waits in `fgets`.
  unfoldable pub repl : (emit_prompt : Bool) → (ShellState → Kernel) → List Input → M (Unit {0})
  unfolding evaluate
  repl emit_prompt kernel [] s = waiting (if emit_prompt then emit prompted s else s)
  repl emit_prompt kernel (input ∷ inputs) s =
      (evaluate kernel input >> repl emit_prompt kernel inputs)
        (if emit_prompt then emit prompted s else s)

  unfoldable pub main : List ShellOpt → (ShellState → Kernel) → List Input → M (Unit {0})
  unfolding read_opts repl
  main opts kernel inputs =
      read_opts true opts >>= λ emit_prompt s. repl emit_prompt kernel inputs (initjobs s)
