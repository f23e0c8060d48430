-- ===== src/Shell/Signals.antt =====
-- The signal handlers of svijay_tsh.c and `wait_state`. The kernel's part is an argument: the
-- children that `waitpid` reports, whether `kill` succeeds, and the signals that end `sigsuspend`.
use introduction_to_computer.Base.{
  ℕ, Bool, true, false, Option, none, some, List, [], ◌∷◌, ◌==◌, if◌then◌else◌,
}
use introduction_to_computer.Shell.Defs.{
  st, SignalName, sigint, sigtstp, emit, terminated, stopped, killed, ok, exit, fault, waiting, M,
  and_then, pure, ◌>>◌, say,
}
use introduction_to_computer.Shell.Jobs.{deletejob, pid2jid, fgpid, getjobpid, set_state}

-- What `waitpid` says of a child; `other` is a status that no test of the handler takes.
pub data Status : Type 0 where
  exited : Status
  signaled : ℕ → Status
  stopped_by : ℕ → Status
  other : Status

abbrev pub delete : ℕ → M (Unit {0})
delete pid s = ok tt (deletejob s pid).1

-- `current_fgjobpid->state = ST`, a read through NULL if there is no foreground job
unfoldable pub stop_job : Option ℕ → M (Unit {0})
unfolding set_state
stop_job none s = fault s
stop_job (some i) s = ok tt (record s { job_list = set_state s.job_list i st })

-- One round of the handler's loop.
unfoldable pub reap : ℕ → Status → M (Unit {0})
unfolding stop_job
reap pid exited s = delete pid s
reap pid (signaled term) s = (say (terminated (pid2jid s.job_list pid) pid term) >> delete pid) s
reap pid (stopped_by stop) s =
    (say (stopped (pid2jid s.job_list pid) pid stop)
        >> stop_job (getjobpid s.job_list (fgpid s.job_list)))
      s
reap pid other s = ok tt s

unfoldable pub sigchld_handler : List (ℕ × Status) → M (Unit {0})
unfolding reap
sigchld_handler [] = pure tt
sigchld_handler ((pid, status) ∷ children) = reap pid status >> sigchld_handler children

-- `sigint_handler` and `sigtstp_handler` differ in the signal that they pass on.
unfoldable pub forward_signal : SignalName → (kill_ok : Bool) → M (Unit {0})
forward_signal signal kill_ok s =
    let current = fgpid s.job_list in
    if current == 0
    then ok tt s
    else if kill_ok
    then ok tt (emit (killed current signal) s)
    else exit 1 s

abbrev pub sigint_handler : Bool → M (Unit {0})
sigint_handler = forward_signal sigint

abbrev pub sigtstp_handler : Bool → M (Unit {0})
sigtstp_handler = forward_signal sigtstp

-- A signal that reaches the shell, with what the handler learns from the kernel. After an `unseen`
-- one the loop of `wait_state` does not test: it came between the test and `sigsuspend`, or
-- `sigsuspend` ran the handler of the next one too before it returned.
pub data Delivery : Type 0 where
  chld : List (ℕ × Status) → Delivery
  int : (kill_ok : Bool) → Delivery
  tstp : (kill_ok : Bool) → Delivery
  unseen : Delivery → Delivery

unfoldable pub handle : Delivery → M (Unit {0})
unfolding sigchld_handler forward_signal
handle (chld children) = sigchld_handler children
handle (int kill_ok) = sigint_handler kill_ok
handle (tstp kill_ok) = sigtstp_handler kill_ok
handle (unseen d) = handle d

-- The handlers of the signals that reach the shell at one place of its code.
unfoldable pub handle_all : List Delivery → M (Unit {0})
unfolding handle
handle_all [] = pure tt
handle_all (d ∷ ds) = handle d >> handle_all ds

abbrev pub is_seen : Delivery → Bool
is_seen (unseen d) = false
is_seen _ = true

-- The loop, at its test or, if `tests` is false, in `sigsuspend`. The deliveries that are left are
-- returned.
unfoldable pub wait_loop : (tests : Bool) → (pid : ℕ) → List Delivery → M (List Delivery)
unfolding handle
wait_loop true pid [] s = if pid == fgpid s.job_list then waiting s else ok [] s
wait_loop true pid (d ∷ ds) s =
    let rest = and_then (handle d s) (λ _. wait_loop (is_seen d) pid ds) in
    if pid == fgpid s.job_list then rest else ok (d ∷ ds) s
wait_loop false pid [] s = waiting s
wait_loop false pid (d ∷ ds) s = and_then (handle d s) (λ _. wait_loop (is_seen d) pid ds)

unfoldable pub wait_state : (pid : ℕ) → List Delivery → M (List Delivery)
unfolding wait_loop
wait_state = wait_loop true

-- The signals that reach the shell where the code does not block them: at the start of a built-in
-- command, after `extract_job_val`, after the read of `job->pid`, before `bg` and after `fg` set the
-- state of the job, and before a job is printed or waited for.
pub record Interrupts : Type 0 where
  pub before_find : List Delivery
  pub after_find : List Delivery
  pub after_pid : List Delivery
  pub before_bg : List Delivery
  pub after_fg : List Delivery
  pub before_end : List Delivery
