-- ===== src/Shell/Eval.antt =====
-- `builtin_command` and `eval` of svijay_tsh.c, in the shell and in the child that it forks.
use introduction_to_computer.Base.{
  ℕ, Bool, true, false, Option, none, some, List, [], ◌∷◌, if◌then◌else◌,
}
use introduction_to_computer.Base.Int.{ℤ}
use introduction_to_computer.Shell.Defs.{
  CString, fg, bg, emit, job_line, ok, exit, fault, M, and_then, pure, ◌>>◌,
}
use introduction_to_computer.Shell.Jobs.{addjob, pid2jid}
use introduction_to_computer.Shell.Parse.{
  Builtin, builtin_none, builtin_quit, builtin_jobs, builtin_bg, builtin_fg, CmdlineTokens, Parsed,
  parse_error, parsed, no_fuel, parseline,
}
use introduction_to_computer.Shell.Signals.{Delivery, Interrupts, handle_all, wait_state}
use introduction_to_computer.Shell.Builtins.{
  builtin_jobs_handler, builtin_bg_handler, builtin_fg_handler,
}

-- What the kernel does during one `eval`: the PID of the child (`none` if `fork` fails), whether
-- `kill` and `open` succeed, the signals that reach the shell while it waits for a job and after
-- that, and those that reach it elsewhere.
pub record Kernel : Type 0 where
  pub fork_pid : Option ℕ
  pub kill_ok : Bool
  pub open_ok : Bool
  pub deliveries : List Delivery
  pub interrupts : Interrupts

-- What the child does before `execve`, and how it ends.
pub data ChildStep : Type 0 where
  unblock_signals : ChildStep
  set_process_group : ChildStep
  redirect_stdout : CString → ChildStep
  redirect_stdin : CString → ChildStep
  default_handlers : ChildStep

pub data ChildEnd : Type 0 where
  replaced : List CString → ChildEnd
  exited_1 : ChildEnd
  returned : CString → ChildEnd

-- Opens the file, if one is given, and goes on if that succeeds.
abbrev pub redirect :
    (CString → Bool)
    → (CString → ChildStep)
    → Option CString
    → List ChildStep × ChildEnd
    → List ChildStep × ChildEnd
redirect open_ok step none rest = rest
redirect open_ok step (some file) (steps, end) =
    if open_ok file then (step file ∷ steps, end) else ([], exited_1)

-- The child's branch of `eval`. If `execve` fails, it returns from `eval`.
unfoldable pub child :
    (open_ok : CString → Bool) (exec_ok : List CString → Bool)
    → CmdlineTokens
    → CString
    → List ChildStep × ChildEnd
child open_ok exec_ok tok cmdline =
    let (steps, end) = redirect open_ok redirect_stdout tok.outfile (
      redirect open_ok redirect_stdin tok.infile (
        default_handlers ∷ [],
        if exec_ok tok.argv then replaced tok.argv else returned cmdline,
      )) in
    (unblock_signals ∷ set_process_group ∷ steps, end)

-- The shell's branch after `fork`.
unfoldable pub run_job : Kernel → (is_bg : Bool) → CString → ℕ → M (List Delivery)
unfolding handle_all
run_job k true cmdline pid s =
    and_then (handle_all k.interrupts.before_end (addjob s pid bg cmdline).1)
      (λ _ t. ok k.deliveries (emit (job_line (pid2jid t.job_list pid) pid cmdline) t))
run_job k false cmdline pid s = wait_state pid k.deliveries (addjob s pid fg cmdline).1

unfoldable pub start_job : Kernel → (is_bg : Bool) → CString → Option ℕ → M (List Delivery)
unfolding run_job
start_job k is_bg cmdline none s = exit 1 s
start_job k is_bg cmdline (some pid) s = run_job k is_bg cmdline pid s

module _ (atoi : CString → ℤ) where
  -- `builtin_command`, and for its return value 0 what `eval` does then.
  unfoldable pub dispatch :
      Kernel → (is_bg : Bool) → CString → CmdlineTokens → Builtin → M (List Delivery)
  unfolding start_job handle_all
  dispatch k is_bg cmdline tok builtin_quit = exit 0
  dispatch k is_bg cmdline tok builtin_jobs =
      handle_all k.interrupts.before_find >> builtin_jobs_handler k.open_ok tok >> pure k.deliveries
  dispatch k is_bg cmdline tok builtin_bg =
      handle_all k.interrupts.before_find
      >> builtin_bg_handler atoi k.kill_ok k.interrupts tok
      >> pure k.deliveries
  dispatch k is_bg cmdline tok builtin_fg =
      handle_all k.interrupts.before_find
      >> builtin_fg_handler atoi k.kill_ok k.interrupts k.deliveries tok
  dispatch k is_bg cmdline tok builtin_none = start_job k is_bg cmdline k.fork_pid

  unfoldable pub eval_parsed : Kernel → CString → Parsed → M (List Delivery)
  unfolding dispatch
  eval_parsed k cmdline (parse_error e) = pure k.deliveries
  eval_parsed k cmdline no_fuel = fault
  eval_parsed k cmdline (parsed is_bg tok) = elim tok.argv [
    | [] ↦ pure k.deliveries
    | _ ∷ _ ↦ dispatch k is_bg cmdline tok tok.builtins
  ]

  unfoldable pub eval : Kernel → CString → M (List Delivery)
  unfolding eval_parsed
  eval k cmdline = eval_parsed k cmdline (parseline cmdline)
