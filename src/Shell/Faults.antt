-- ===== src/Shell/Faults.antt =====
-- Where svijay_tsh.c does not do what it means to: a stopped child that is not the foreground job,
-- a PID given to `bg` or `fg`, and a command that is not found.
use introduction_to_computer.Base.{
  ℕ, ◌≡◌, refl, Bool, true, false, Option, none, some, List, [], ◌∷◌, arith, ltb, ◌==◌, Bool-cases,
  ap, inl, inr, ◌∙◌,
}
use introduction_to_computer.Base.Int.{ℤ, pos, negsuc}
use introduction_to_computer.Shell.Defs.{CString, JobT, ShellState, emit, stopped, ok, fault}
use introduction_to_computer.Shell.Jobs.{fgpid, getjobpid, getjobjid, pid2jid, job_at}
use introduction_to_computer.Shell.Parse.{CmdlineTokens}
use introduction_to_computer.Shell.Slots.{NoFg, index_of-job_at}
use introduction_to_computer.Shell.Signals.{Status, stopped_by, sigchld_handler}
use introduction_to_computer.Shell.Builtins.{extract_job_val}
use introduction_to_computer.Shell.Eval.{
  ChildStep, ChildEnd, redirect_stdout, redirect_stdin, returned, child, redirect,
}

NoFg-fgpid : (l : List JobT) → NoFg l → fgpid l ≡ 0
unfolding fgpid
NoFg-fgpid [] h = refl
NoFg-fgpid (j ∷ l) h = ground (arith, NoFg-fgpid l h.1)

-- If a child stops while no job is in the foreground, the SIGCHLD handler writes through NULL,
-- whatever the child and whatever the children reported after it.
pub sigchld_handler-stopped_background :
    (s : ShellState) (pid signal : ℕ) (children : List (ℕ × Status))
    → NoFg s.job_list
    → sigchld_handler ((pid, stopped_by signal) ∷ children) s
      ≡ fault (emit (stopped (pid2jid s.job_list pid) pid signal) s)
unfolding sigchld_handler getjobpid
sigchld_handler-stopped_background s pid signal children idle =
    ground (arith, NoFg-fgpid s.job_list idle)

getjobjid-jid :
    (l : List JobT) (z : ℤ) (i : ℕ) (job : JobT)
    → getjobjid l z ≡ some i
    → job_at l i ≡ some job
    → pos job.jid ≡ z
unfolding getjobjid
getjobjid-jid l (negsuc n) i job found at = cc
getjobjid-jid l (pos jid) i job found at = elim (Bool-cases (ltb jid 1)) [
  | inl invalid ↦ absurd (ground arith)
  | inr valid ↦
      let (job', at', same) = index_of-job_at (λ j. j.jid == jid) l i (ground arith) in
      ap pos (ground arith)
]

-- If the argument of `bg` or `fg` does not begin with `%` and the look-up in the job list finds a
-- job, it is the job whose job ID is the number given.
extract_job_val-pid :
    (atoi : CString → ℤ) (s : ShellState) (c : ℕ) (rest : CString) (i : ℕ) (job : JobT)
    → (c == b'%') ≡ false
    → getjobjid s.job_list (atoi (c ∷ rest)) ≡ some i
    → job_at s.job_list i ≡ some job
    → (extract_job_val atoi (some (c ∷ rest)) s ≡ ok (some i) s) × (pos job.jid ≡ atoi (c ∷ rest))
unfolding extract_job_val
extract_job_val-pid atoi s c rest i job plain found at =
    (rw (plain, found), getjobjid-jid s.job_list (atoi (c ∷ rest)) i job found at)

redirect-end :
    (open_ok : CString → Bool) (step : CString → ChildStep) (file : Option CString)
    → ((file : CString) → open_ok file ≡ true)
    → (rest : List ChildStep × ChildEnd) → (redirect open_ok step file rest).1 ≡ rest.1
redirect-end open_ok step none opens rest = refl
redirect-end open_ok step (some file) opens rest = rw (opens file)

-- If the files of the redirections open and `execve` refuses the command, the child returns from
-- `eval` and reads commands as a second shell.
child-not_found :
    (open_ok : CString → Bool) (exec_ok : List CString → Bool) (tok : CmdlineTokens)
    (cmdline : CString)
    → ((file : CString) → open_ok file ≡ true)
    → exec_ok tok.argv ≡ false
    → (child open_ok exec_ok tok cmdline).1 ≡ returned cmdline
unfolding child
child-not_found open_ok exec_ok tok cmdline opens fails =
    redirect-end open_ok redirect_stdout tok.outfile opens _
    ∙ redirect-end open_ok redirect_stdin tok.infile opens _
    ∙ rw fails
