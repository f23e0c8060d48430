-- ===== src/Shell/Builtins.antt =====
-- The built-in commands of svijay_tsh.c. `atoi` is the C library's; `kill_ok` and `open_ok` say
-- whether `kill` and `open` succeed.
use introduction_to_computer.Base.{
  ℕ, Bool, true, false, Option, none, some, List, [], ◌∷◌, ◌++◌, ◌==◌, if◌then◌else◌,
}
use introduction_to_computer.Base.Int.{ℤ}
use introduction_to_computer.Shell.Defs.{
  CString, JobState, fg, bg, sigcont, emit, job_line, needs_argument, no_such_job, no_such_process,
  killed, ok, exit, fault, M, and_then, pure, ◌>>=◌, ◌>>◌, say,
}
use introduction_to_computer.Shell.Jobs.{getjobjid, listjobs, set_state, job_at}
use introduction_to_computer.Shell.Parse.{CmdlineTokens}
use introduction_to_computer.Shell.Signals.{Delivery, Interrupts, handle_all, wait_state}

-- `argv[1]`
abbrev pub second : List CString → Option CString
second (_ ∷ a ∷ _) = some a
second _ = none

-- `exit(1)` unless the system call succeeds
abbrev pub require : Bool → M (Unit {0})
require true s = ok tt s
require false s = exit 1 s

unfoldable pub builtin_jobs_handler : (open_ok : Bool) → CmdlineTokens → M (Unit {0})
unfolding listjobs
builtin_jobs_handler open_ok tok s = elim tok.outfile [
  | some file ↦
      and_then (require open_ok s)
        (λ _ s'. ok tt (record s' { events = s'.events ++ listjobs s'.job_list (some file) }))
  | none ↦ elim tok.infile [
    | some _ ↦ ok tt s
    | none ↦ ok tt (record s { events = s.events ++ listjobs s.job_list none })
  ]
]

-- `kill(-pid, SIGCONT)`
unfoldable pub continue_group : (kill_ok : Bool) → ℕ → M (Unit {0})
continue_group kill_ok pid = require kill_ok >> say (killed pid sigcont)

-- `job->pid`
unfoldable pub read_pid : ℕ → M ℕ
read_pid i s = elim (job_at s.job_list i) [ none ↦ fault s | some job ↦ ok job.pid s ]

-- `job->state = state`
unfoldable pub put_state : ℕ → JobState → M (Unit {0})
put_state i state s = ok tt (record s { job_list = set_state s.job_list i state })

-- `printf("[%d] (%d) %s \n", job->jid, job->pid, job->cmdline)`
unfoldable pub print_job : ℕ → M (Unit {0})
print_job i s = elim (job_at s.job_list i) [
  | none ↦ fault s
  | some job ↦ ok tt (emit (job_line job.jid job.pid job.cmdline) s)
]

-- What `builtin_bg_handler` does with the job it found.
unfoldable pub resume_bg : (kill_ok : Bool) → Interrupts → Option ℕ → M (Unit {0})
unfolding continue_group handle_all read_pid put_state print_job
resume_bg kill_ok at none = pure tt
resume_bg kill_ok at (some i) = handle_all at.after_find >> read_pid i >>= λ pid.
    handle_all at.after_pid
    >> continue_group kill_ok pid
    >> handle_all at.before_bg
    >> put_state i bg
    >> handle_all at.before_end
    >> print_job i

-- What `builtin_fg_handler` does with the job it found.
unfoldable pub resume_fg :
    (kill_ok : Bool) → Interrupts → List Delivery → Option ℕ → M (List Delivery)
unfolding continue_group handle_all read_pid put_state
resume_fg kill_ok at ds none = pure ds
resume_fg kill_ok at ds (some i) = handle_all at.after_find >> read_pid i >>= λ pid.
    handle_all at.after_pid
    >> put_state i fg
    >> handle_all at.after_fg
    >> continue_group kill_ok pid
    >> handle_all at.before_end
    >> wait_state pid ds

module _ (atoi : CString → ℤ) where
  -- The job of an argument, by a JID after `%`.
  unfoldable pub find_job : CString → M (Option ℕ)
  find_job (c ∷ rest) s =
      if c == b'%'
      then elim (getjobjid s.job_list (atoi rest)) [
        | none ↦ ok none (emit (no_such_job (c ∷ rest)) s)
        | some i ↦ ok (some i) s
      ]
      else elim (getjobjid s.job_list (atoi (c ∷ rest))) [
        | none ↦ ok none (emit (no_such_process (atoi (c ∷ rest))) s)
        | some i ↦ ok (some i) s
      ]
  find_job [] s = elim (getjobjid s.job_list (atoi [])) [
    | none ↦ ok none (emit (no_such_process (atoi [])) s)
    | some i ↦ ok (some i) s
  ]

  unfoldable pub extract_job_val : Option CString → M (Option ℕ)
  unfolding find_job
  extract_job_val none = say needs_argument >> pure none
  extract_job_val (some arg) = find_job arg

  unfoldable pub builtin_bg_handler : (kill_ok : Bool) → Interrupts → CmdlineTokens → M (Unit {0})
  unfolding extract_job_val resume_bg
  builtin_bg_handler kill_ok at tok = extract_job_val (second tok.argv) >>= resume_bg kill_ok at

  unfoldable pub builtin_fg_handler :
      (kill_ok : Bool) → Interrupts → List Delivery → CmdlineTokens → M (List Delivery)
  unfolding extract_job_val resume_fg
  builtin_fg_handler kill_ok at ds tok =
      extract_job_val (second tok.argv) >>= resume_fg kill_ok at ds
