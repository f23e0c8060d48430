-- ===== src/Shell/OneForeground.antt =====
-- `eval` of svijay_tsh.c keeps at most one job in the foreground, and returns to the prompt with
-- none there.
use introduction_to_computer.Base.{
  ℕ, ◌<◌, ◌≡◌, inl, inr, refl, Bool, true, false, Option, none, some, List, Bool-cases,
  Option-cases, List-cases,
}
use introduction_to_computer.Base.Int.{ℤ}
use introduction_to_computer.Shell.Defs.{CString, fg, bg, ShellState, Result, M, and_then, pure}
use introduction_to_computer.Shell.Jobs.{fill_slot, addjob}
use introduction_to_computer.Shell.Parse.{
  Builtin, builtin_none, builtin_quit, builtin_jobs, builtin_bg, builtin_fg, CmdlineTokens, Parsed,
  parse_error, parsed, no_fuel, parseline,
}
use introduction_to_computer.Shell.Slots.{
  has_pid, new_job, addjob-list, addjob-full, FgOnly-NoFg, Replaced-SlotsOk, Replaced-FgOnly,
  Replaced-NoFg, fill_slot-Replaced,
}
use introduction_to_computer.Shell.Ends.{Ends-bind, Ends-mono}
use introduction_to_computer.Shell.Foreground.{
  Waiting, AtPrompt, AtMostOne, Always, Kept, wait_state-AtPrompt, handle_all-AtPrompt,
  Waiting-AtMostOne, AtPrompt-AtMostOne,
}
use introduction_to_computer.Shell.Signals.{Delivery, wait_state}
use introduction_to_computer.Shell.Lookup.{Found, extract_job_val-Found}
use introduction_to_computer.Shell.Resume.{Undisturbed, resume_bg-AtPrompt, resume_fg-AtPrompt}
use introduction_to_computer.Shell.Builtins.{
  builtin_jobs_handler, extract_job_val, builtin_bg_handler, builtin_fg_handler, second,
}
use introduction_to_computer.Shell.Eval.{Kernel, run_job, start_job, dispatch, eval_parsed, eval}

-- The child's PID is positive and not in the list.
abbrev pub ForkFresh : Kernel → ShellState → Type 0
ForkFresh k s = (pid : ℕ) → k.fork_pid ≡ some pid → (0 < pid) × (has_pid pid s.job_list ≡ false)

module _ (s : ShellState) (at_prompt : AtPrompt s) where
  addjob-fg :
      (pid : ℕ) (cmdline : CString)
      → 0 < pid
      → has_pid pid s.job_list ≡ false
      → Waiting pid (addjob s pid fg cmdline).1
  addjob-fg pid cmdline positive fresh =
      elim (Option-cases (fill_slot (new_job s pid fg cmdline) s.job_list)) [
        | inl full ↦
            rw (addjob-full s pid fg cmdline full)
              (at_prompt.0, FgOnly-NoFg pid s.job_list at_prompt.1)
        | inr (l, found) ↦
            let (old, _, r) = fill_slot-Replaced (new_job s pid fg cmdline) s.job_list l found in
            rw (addjob-list s pid fg cmdline l positive found) (
              Replaced-SlotsOk r (inl positive) (inr (inr fresh)) at_prompt.0,
              Replaced-FgOnly pid r (inr refl) (FgOnly-NoFg pid s.job_list at_prompt.1),
            )
      ]

  addjob-bg :
      (pid : ℕ) (cmdline : CString)
      → 0 < pid
      → has_pid pid s.job_list ≡ false
      → AtPrompt (addjob s pid bg cmdline).1
  addjob-bg pid cmdline positive fresh =
      elim (Option-cases (fill_slot (new_job s pid bg cmdline) s.job_list)) [
        | inl full ↦ rw (addjob-full s pid bg cmdline full) at_prompt
        | inr (l, found) ↦
            let (old, _, r) = fill_slot-Replaced (new_job s pid bg cmdline) s.job_list l found in
            rw (addjob-list s pid bg cmdline l positive found) (
              Replaced-SlotsOk r (inl positive) (inr (inr fresh)) at_prompt.0,
              Replaced-NoFg r refl at_prompt.1,
            )
      ]

  run_job-AtPrompt :
      (k : Kernel) (is_bg : Bool) (cmdline : CString) (pid : ℕ)
      → 0 < pid
      → has_pid pid s.job_list ≡ false
      → Kept (run_job k is_bg cmdline pid s)
  unfolding run_job
  run_job-AtPrompt k true cmdline pid positive fresh =
      Ends-bind AtMostOne (Always AtPrompt) (Always AtPrompt) _ _
        (handle_all-AtPrompt k.interrupts.before_end _ (addjob-bg pid cmdline positive fresh))
        (λ _ t a. a)
  run_job-AtPrompt k false cmdline pid positive fresh =
      Ends-mono (Waiting pid) AtMostOne (Always AtPrompt) (Always AtPrompt)
        (wait_state pid k.deliveries (addjob s pid fg cmdline).1)
        (wait_state-AtPrompt pid k.deliveries _ (addjob-fg pid cmdline positive fresh))
        (Waiting-AtMostOne pid) (λ _ s' a. a)

  start_job-AtPrompt :
      (k : Kernel) (is_bg : Bool) (cmdline : CString) (pid : Option ℕ)
      → ((p : ℕ) → pid ≡ some p → (0 < p) × (has_pid p s.job_list ≡ false))
      → Kept (start_job k is_bg cmdline pid s)
  unfolding start_job
  start_job-AtPrompt k is_bg cmdline none fresh = AtPrompt-AtMostOne s at_prompt
  start_job-AtPrompt k is_bg cmdline (some pid) fresh =
      run_job-AtPrompt k is_bg cmdline pid (fresh pid refl).0 (fresh pid refl).1

  builtin_jobs_handler-AtPrompt :
      (open_ok : Bool) (tok : CmdlineTokens) → Kept (builtin_jobs_handler open_ok tok s)
  unfolding builtin_jobs_handler
  builtin_jobs_handler-AtPrompt open_ok tok = elim (Option-cases tok.outfile) [
    | inr (file, out) ↦ elim (Bool-cases open_ok) [
      | inl opened ↦ rw (out, opened) at_prompt
      | inr refused ↦ rw (out, refused) (AtPrompt-AtMostOne s at_prompt)
    ]
    | inl no_out ↦ elim (Option-cases tok.infile) [
      | inr (file, has_in) ↦ rw (no_out, has_in) at_prompt
      | inl no_in ↦ rw (no_out, no_in) at_prompt
    ]
  ]

Ends-Found :
    {A : Type 0} (s : ShellState) (atoi : CString → ℤ) (arg : Option CString) (k : Option ℕ → M A)
    → ((o : Option ℕ) (s' : ShellState) → Found s o s' → Kept (k o s'))
    → Kept (and_then (extract_job_val atoi arg s) k)
Ends-Found s atoi arg k next =
    Ends-bind AtMostOne (Found s) (Always AtPrompt) (extract_job_val atoi arg s) k
      (Ends-mono (λ _. ⊥) AtMostOne (Found s) (Found s) (extract_job_val atoi arg s)
        (extract_job_val-Found atoi arg s) (λ _ h. absurd h) (λ _ _ f. f))
      next

then_pure :
    {A : Type 0} (ds : List Delivery) (r : Result A) → Kept r → Kept (and_then r (λ _. pure ds))
then_pure ds r h = Ends-bind AtMostOne (Always AtPrompt) (Always AtPrompt) r _ h (λ _ s' a. a)

module _ (s : ShellState) (at_prompt : AtPrompt s) where
  dispatch-AtPrompt :
      (atoi : CString → ℤ) (k : Kernel) (is_bg : Bool) (cmdline : CString) (tok : CmdlineTokens)
      (b : Builtin)
      → ForkFresh k s
      → Undisturbed k.interrupts
      → Kept (dispatch atoi k is_bg cmdline tok b s)
  unfolding dispatch builtin_bg_handler builtin_fg_handler extract_job_val
  dispatch-AtPrompt atoi k is_bg cmdline tok builtin_quit fresh calm =
      AtPrompt-AtMostOne s at_prompt
  dispatch-AtPrompt atoi k is_bg cmdline tok builtin_jobs fresh calm = then_pure k.deliveries _ (
      Ends-bind AtMostOne (Always AtPrompt) (Always AtPrompt) _ _
        (handle_all-AtPrompt k.interrupts.before_find s at_prompt)
        (λ _ t a. builtin_jobs_handler-AtPrompt t a k.open_ok tok))
  dispatch-AtPrompt atoi k is_bg cmdline tok builtin_bg fresh calm = then_pure k.deliveries _ (
      Ends-bind AtMostOne (Always AtPrompt) (Always AtPrompt) _ _
        (handle_all-AtPrompt k.interrupts.before_find s at_prompt)
        (λ _ t a.
          Ends-Found t atoi (second tok.argv) _
            (resume_bg-AtPrompt t a k.kill_ok k.interrupts calm)))
  dispatch-AtPrompt atoi k is_bg cmdline tok builtin_fg fresh calm =
      Ends-bind AtMostOne (Always AtPrompt) (Always AtPrompt) _ _
        (handle_all-AtPrompt k.interrupts.before_find s at_prompt)
        (λ _ t a.
          Ends-Found t atoi (second tok.argv) _
            (resume_fg-AtPrompt t a k.kill_ok k.interrupts k.deliveries calm))
  dispatch-AtPrompt atoi k is_bg cmdline tok builtin_none fresh calm =
      start_job-AtPrompt s at_prompt k is_bg cmdline k.fork_pid fresh

  eval_parsed-AtPrompt :
      (atoi : CString → ℤ) (k : Kernel) (cmdline : CString) (p : Parsed)
      → ForkFresh k s
      → Undisturbed k.interrupts
      → Kept (eval_parsed atoi k cmdline p s)
  unfolding eval_parsed
  eval_parsed-AtPrompt atoi k cmdline (parse_error e) fresh calm = at_prompt
  eval_parsed-AtPrompt atoi k cmdline no_fuel fresh calm = AtPrompt-AtMostOne s at_prompt
  eval_parsed-AtPrompt atoi k cmdline (parsed is_bg tok) fresh calm = elim (List-cases tok.argv) [
    | inl blank ↦ rw (blank, eval_parsed) at_prompt
    | inr (a, args, e) ↦
        rw (e, eval_parsed) (dispatch-AtPrompt atoi k is_bg cmdline tok tok.builtins fresh calm)
  ]

-- Whatever the command line, and whatever the signals and the kernel do, as long as `fork` gives a
-- PID that no job has, and no SIGCHLD handler runs between the look-up of a job by `bg` or `fg` and
-- the change of its state: `eval` from a state with well-formed slots and no foreground job ends, or
-- waits, with at most one job in the foreground, and if it returns, with none.
pub eval-AtPrompt :
    (atoi : CString → ℤ) (k : Kernel) (cmdline : CString) (s : ShellState)
    → AtPrompt s
    → ForkFresh k s
    → Undisturbed k.interrupts
    → Kept (eval atoi k cmdline s)
unfolding eval
eval-AtPrompt atoi k cmdline s at_prompt fresh calm =
    eval_parsed-AtPrompt s at_prompt atoi k cmdline (parseline cmdline) fresh calm
