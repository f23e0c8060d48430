-- ===== src/Shell/Tests.antt =====
-- Runs of svijay_tsh.c on small job lists and command lines, and the theorems there.
use introduction_to_computer.Base.{
  ℕ, zero, suc, ◌-◌, ◌<◌, ◌≡◌, refl, inl, inr, true, false, none, some, List, [], ◌∷◌, ◌++◌, arith,
  ◌==◌, if◌then◌else◌, Bool-cases,
}
use introduction_to_computer.Base.Int.{ℤ, pos}
use introduction_to_computer.Shell.Defs.{
  CString, JobState, fg, bg, JobT, ShellState, emit, terminated, stopped, killed, sigcont, sigint,
  ok, fault, waiting,
}
use introduction_to_computer.Shell.Jobs.{
  cleared, addjob, deletejob, pid2jid, fgpid, getjobjid, job_at, maxjid,
}
use introduction_to_computer.Shell.Parse.{parseline, parse_error, parsed, unmatched, builtin_of}
use introduction_to_computer.Shell.Signals.{
  exited, signaled, stopped_by, Delivery, chld, int, unseen, Interrupts, sigchld_handler,
  wait_state,
}
use introduction_to_computer.Shell.Builtins.{builtin_fg_handler}
use introduction_to_computer.Shell.Eval.{Kernel, eval}
use introduction_to_computer.Shell.Slots.{SlotsOk, NoFg, has_pid}
use introduction_to_computer.Shell.Ends.{Ends}
use introduction_to_computer.Shell.Foreground.{AtPrompt, AtMostOne, Always}
use introduction_to_computer.Shell.OneForeground.{ForkFresh, eval-AtPrompt}
use introduction_to_computer.Shell.Main.{line, opt_v, main, globals, end_of_file}
use introduction_to_computer.Shell.Session.{main-AtMostOne}
use introduction_to_computer.Shell.JobIds
use introduction_to_computer.Shell.Resume.{Undisturbed}
use introduction_to_computer.Shell.ParseTotal.{ArgsFit, parseline-ArgsFit}
use introduction_to_computer.Shell.ParsePrint
use introduction_to_computer.Shell.ParsePrint.{print}
use introduction_to_computer.Shell.Faults

abbrev job : ℕ → ℕ → JobState → JobT
job pid jid state = record { pid = pid; jid = jid; state = state; cmdline = [] }

abbrev shell : List JobT → ℕ → ShellState
shell l next = record { job_list = l; nextjid = next; verbose = false; events = [] }

abbrev one : ShellState
one = shell (job 100 1 bg ∷ cleared 15) 2

-- `atoi` on one digit.
abbrev digit : CString → ℤ
digit [] = pos 0
digit (c ∷ _) = pos (c - 48)

abbrev quiet : Interrupts
quiet = record {
  before_find = [];
  after_find = [];
  after_pid = [];
  before_bg = [];
  after_fg = [];
  before_end = [];
}

-- The child is 200; ctrl-c is typed while it runs, and then it is gone.
abbrev kernel : Kernel
kernel = record {
  fork_pid = some 200;
  kill_ok = true;
  open_ok = true;
  deliveries = int true ∷ chld ((200, signaled 2) ∷ []) ∷ [];
  interrupts = record quiet { before_find = chld [] ∷ []; after_pid = int true ∷ [] };
}

abbrev ls : CString
ls = b'l' ∷ b's' ∷ []

abbrev fg_1 : CString
fg_1 = b'f' ∷ b'g' ∷ b' ' ∷ b'%' ∷ b'1' ∷ []

one-AtPrompt : AtPrompt one
one-AtPrompt = ((inl (omega arith), inr refl, cleared-SlotsOk 15), (refl, cleared-NoFg 15))
  where
    cleared-SlotsOk : (n : ℕ) → SlotsOk (cleared n)
    cleared-SlotsOk zero = tt
    cleared-SlotsOk (suc n) = (inr (refl, refl), inl refl, cleared-SlotsOk n)

    cleared-NoFg : (n : ℕ) → NoFg (cleared n)
    cleared-NoFg zero = tt
    cleared-NoFg (suc n) = (refl, cleared-NoFg n)

ls_runs :
    eval digit kernel ls one
    ≡ ok [] (record one { events = killed 200 sigint ∷ terminated 2 200 2 ∷ [] })
unfolding eval addjob deletejob wait_state parseline pid2jid fgpid maxjid
ls_runs = refl

fg_waits :
    eval digit (record kernel { deliveries = [] }) fg_1 one
    ≡ waiting
        (record one { job_list = job 100 1 fg ∷ cleared 15; events = killed 100 sigcont ∷ [] })
unfolding eval wait_state parseline builtin_fg_handler getjobjid job_at fgpid
fg_waits = refl

-- The child ends between the test of the loop and `sigsuspend`: the shell waits for ever.
abbrev missed : Delivery
missed = unseen (chld ((100, exited) ∷ []))

fg_misses :
    eval digit (record kernel { deliveries = missed ∷ [] }) fg_1 one
    ≡ waiting (record one { job_list = cleared 16; events = killed 100 sigcont ∷ []; nextjid = 1 })
unfolding eval wait_state parseline builtin_fg_handler getjobjid job_at fgpid deletejob maxjid
fg_misses = refl

-- The child ends between the look-up of its job and `fg_job->state = FG`: a free entry is in the
-- foreground, and the shell waits for it.
abbrev gone : Interrupts
gone = record quiet { after_find = chld ((100, exited) ∷ []) ∷ [] }

fg_of_free_entry :
    eval digit (record kernel { deliveries = []; interrupts = gone }) fg_1 one
    ≡ waiting (record one {
      job_list = job 0 0 fg ∷ cleared 15;
      events = killed 0 sigcont ∷ [];
      nextjid = 1;
    })
unfolding eval wait_state parseline builtin_fg_handler getjobjid job_at fgpid deletejob maxjid
fg_of_free_entry = refl

quote_unmatched : parseline (b'"' ∷ b'a' ∷ []) ≡ parse_error (unmatched b'"')
unfolding parseline
quote_unmatched = refl

eval-AtPrompt_example : Ends AtMostOne (Always AtPrompt) (eval digit kernel ls one)
eval-AtPrompt_example =
    eval-AtPrompt digit kernel ls one one-AtPrompt (λ pid e. (ground arith, ground arith))
      (tt, (tt, tt), tt)

pid2jid-addjob_example :
    pid2jid (addjob one 200 fg ls).1.job_list 200
    ≡ (if 200 == 200 then one.nextjid else pid2jid one.job_list 200)
unfolding addjob
pid2jid-addjob_example = JobIds.pid2jid-addjob one 200 fg ls (omega arith, refl, refl) 200

pid2jid-deletejob_example :
    pid2jid (deletejob one 100).1.job_list 100
    ≡ (if 100 == 100 then 0 else pid2jid one.job_list 100)
unfolding deletejob
pid2jid-deletejob_example = JobIds.pid2jid-deletejob one 100 one-AtPrompt.0 refl 100

deletejob-fresh_example : pid2jid (deletejob one 100).1.job_list 100 < (deletejob one 100).1.nextjid
unfolding deletejob
deletejob-fresh_example = JobIds.deletejob-fresh one 100 refl 100

-- Jobs 1 and 16 are left of sixteen, so the next ID is 17.
abbrev late : ShellState
late = shell (job 100 1 bg ∷ cleared 14 ++ job 115 16 bg ∷ []) 17

addjob-reuses_example :
    let t : ShellState = (addjob (addjob late 200 bg ls).1 201 bg ls).1 in
    (pid2jid t.job_list 100 ≡ 1) × (pid2jid t.job_list 201 ≡ 1)
unfolding addjob pid2jid
addjob-reuses_example =
    JobIds.addjob-reuses late 200 bg ls 201 bg ls 100 (omega arith) (omega arith, refl, refl)
      (omega arith, refl, refl) refl (omega arith) (omega arith)

parseline-ArgsFit_example : ArgsFit (parseline fg_1)
parseline-ArgsFit_example = parseline-ArgsFit fg_1

abbrev amp_word : CString
amp_word = b'&' ∷ []

parseline-print_example :
    parseline (b' ' ∷ [] ++ print ((ls, b' ' ∷ 9 ∷ []) ∷ (ls, []) ∷ []))
    ≡ parsed false
        (record { argv = ls ∷ ls ∷ []; infile = none; outfile = none; builtins = builtin_of ls })
parseline-print_example =
    ParsePrint.parseline-print (b' ' ∷ []) ((ls, b' ' ∷ 9 ∷ []) ∷ (ls, []) ∷ []) ls (ls ∷ []) refl
      (ground arith) (ground arith) (ground arith) (omega arith) refl

parseline-print_background_example :
    parseline ([] ++ print ((ls, b' ' ∷ []) ∷ (amp_word, []) ∷ []))
    ≡ parsed true
        (record { argv = ls ∷ []; infile = none; outfile = none; builtins = builtin_of ls })
parseline-print_background_example =
    ParsePrint.parseline-print_background [] ((ls, b' ' ∷ []) ∷ (amp_word, []) ∷ []) ls [] amp_word
      refl (ground arith) (ground arith) (ground arith) (omega arith) refl

sigchld_handler-stopped_background_example :
    sigchld_handler ((100, stopped_by 20) ∷ []) one
    ≡ fault (emit (stopped (pid2jid one.job_list 100) 100 20) one)
sigchld_handler-stopped_background_example =
    Faults.sigchld_handler-stopped_background one 100 20 [] one-AtPrompt.1

-- `fork` gives the PID 200 as long as no job has it, and fails otherwise.
abbrev kernel_of : ShellState → Kernel
kernel_of s = if has_pid 200 s.job_list then record kernel { fork_pid = none } else kernel

kernel_of-Undisturbed : (s : ShellState) → Undisturbed ((kernel_of s).interrupts)
kernel_of-Undisturbed s = elim (Bool-cases (has_pid 200 s.job_list)) [
  | inl taken ↦ rw taken (tt, (tt, tt), tt)
  | inr free ↦ rw free (tt, (tt, tt), tt)
]

kernel_of-ForkFresh : (s : ShellState) → ForkFresh (kernel_of s) s
kernel_of-ForkFresh s pid = elim (Bool-cases (has_pid 200 s.job_list)) [
  | inl taken ↦ rw taken (λ e. absurd (ground arith))
  | inr free ↦ rw free (λ e. (ground (arith, e), ground (arith, e, free)))
]

main-AtMostOne_example :
    Ends AtMostOne
      (λ _ _. ⊥)
      (main digit (opt_v ∷ []) kernel_of (line (ls ++ 10 ∷ []) ∷ end_of_file ∷ []) globals)
main-AtMostOne_example =
    main-AtMostOne digit kernel_of kernel_of-ForkFresh kernel_of-Undisturbed (opt_v ∷ [])
      (line (ls ++ 10 ∷ []) ∷ end_of_file ∷ [])
