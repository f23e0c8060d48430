-- ===== src/Shell/Session.antt =====
-- A whole session of svijay_tsh.c, from `main` on.
use introduction_to_computer.Base.{
  ℕ, zero, suc, inl, inr, refl, Bool, Option-cases, true, false, if◌then◌else◌, List, [], ◌∷◌,
}
use introduction_to_computer.Base.Int.{ℤ}
use introduction_to_computer.Shell.Defs.{CString, ShellState, Result, emit, prompted}
use introduction_to_computer.Shell.Jobs.{cleared, initjobs}
use introduction_to_computer.Shell.Eval.{Kernel, eval}
use introduction_to_computer.Shell.Main.{
  ShellOpt, opt_h, opt_v, opt_p, unknown_opt, read_opts, usage, Input, read_error, end_of_file,
  line, chomp, eval_line, evaluate, repl, globals, main,
}
use introduction_to_computer.Shell.Slots.{SlotsOk, NoFg}
use introduction_to_computer.Shell.Ends.{Ends, Ends-bind}
use introduction_to_computer.Shell.Foreground.{
  AtPrompt, AtMostOne, Always, Kept, handle_all-AtPrompt, AtPrompt-AtMostOne,
}
use introduction_to_computer.Shell.OneForeground.{ForkFresh, eval-AtPrompt}
use introduction_to_computer.Shell.Resume.{Undisturbed}

module _ (atoi : CString → ℤ) (kernel : ShellState → Kernel)
    (fresh : (s : ShellState) → ForkFresh (kernel s) s)
    (calm : (s : ShellState) → Undisturbed ((kernel s).interrupts)) where
  evaluate-AtPrompt : (i : Input) (s : ShellState) → AtPrompt s → Kept (evaluate atoi kernel i s)
  unfolding evaluate eval_line
  evaluate-AtPrompt read_error s a = AtPrompt-AtMostOne s a
  evaluate-AtPrompt end_of_file s a = AtPrompt-AtMostOne s a
  evaluate-AtPrompt (line cmdline) s a = elim (Option-cases (chomp cmdline)) [
    | inl empty ↦ rw empty (AtPrompt-AtMostOne s a)
    | inr (c, e) ↦ rw e (
        Ends-bind AtMostOne (Always AtPrompt) (Always AtPrompt) (eval atoi (kernel s) c s) _
          (eval-AtPrompt atoi (kernel s) c s a (fresh s) (calm s))
          (λ ds s' a'. handle_all-AtPrompt ds s' a'))
  ]

  prompt-AtPrompt :
      (emit_prompt : Bool) (s : ShellState)
      → AtPrompt s
      → AtPrompt (if emit_prompt then emit prompted s else s)
  prompt-AtPrompt true s a = a
  prompt-AtPrompt false s a = a

  -- It never returns: the second postcondition is false.
  abbrev Endless : Result (Unit {0}) → Type 0
  Endless = Ends AtMostOne (λ _ _. ⊥)

  repl-AtMostOne :
      (emit_prompt : Bool) (inputs : List Input) (s : ShellState)
      → AtPrompt s
      → Endless (repl atoi emit_prompt kernel inputs s)
  unfolding repl
  repl-AtMostOne emit_prompt [] s a =
      AtPrompt-AtMostOne (if emit_prompt then emit prompted s else s)
        (prompt-AtPrompt emit_prompt s a)
  repl-AtMostOne emit_prompt (i ∷ inputs) s a =
      Ends-bind AtMostOne (Always AtPrompt) (λ _ _. ⊥) _ _
        (evaluate-AtPrompt i (if emit_prompt then emit prompted s else s)
          (prompt-AtPrompt emit_prompt s a))
        (λ _ s' a'. repl-AtMostOne emit_prompt inputs s' a')

  cleared-AtPrompt : (n : ℕ) → SlotsOk (cleared n) × NoFg (cleared n)
  cleared-AtPrompt zero = (tt, tt)
  cleared-AtPrompt (suc n) =
      let (ok, idle) = cleared-AtPrompt n in ((inr (refl, refl), inl refl, ok), (refl, idle))

  start-AtMostOne :
      (emit_prompt : Bool) (opts : List ShellOpt) (s : ShellState)
      → AtPrompt s
      → Ends AtMostOne (Always AtPrompt) (read_opts emit_prompt opts s)
  unfolding read_opts usage
  start-AtMostOne p [] s a = a
  start-AtMostOne p (opt_h ∷ opts) s a = AtPrompt-AtMostOne s a
  start-AtMostOne p (opt_v ∷ opts) s a = start-AtMostOne p opts (record s { verbose = true }) a
  start-AtMostOne p (opt_p ∷ opts) s a = start-AtMostOne false opts s a
  start-AtMostOne p (unknown_opt ∷ opts) s a = AtPrompt-AtMostOne s a

  -- Whatever the options, the lines typed, and the signals that arrive while a command runs and
  -- between commands, as long as `fork` gives a PID that no job has, and no SIGCHLD handler runs
  -- between the look-up of a job by `bg` or `fg` and the change of its state: `main` never returns,
  -- and it ends, or waits for input or a child, with at most one job in the foreground.
  pub main-AtMostOne :
      (opts : List ShellOpt) (inputs : List Input)
      → Ends AtMostOne (λ _ _. ⊥) (main atoi opts kernel inputs globals)
  unfolding main initjobs
  main-AtMostOne opts inputs =
      Ends-bind AtMostOne (Always AtPrompt) (λ _ _. ⊥) (read_opts true opts globals) _
        (start-AtMostOne true opts globals (cleared-AtPrompt 16))
        (λ emit_prompt t _. repl-AtMostOne emit_prompt inputs (initjobs t) (cleared-AtPrompt 16))
