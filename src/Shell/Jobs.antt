-- ===== src/Shell/Jobs.antt =====
-- The helper routines of svijay_tsh.c on the job list. The array is a list of MAXJOBS entries, a
-- pointer into it an index.
use introduction_to_computer.Base.{
  ℕ, zero, suc, ◌+◌, Bool, true, false, Option, none, some, List, [], ◌∷◌, ltb, ◌==◌, if◌then◌else◌,
}
use introduction_to_computer.Base.Int.{ℤ, pos, negsuc}
use introduction_to_computer.Shell.Defs.{
  CString, JobState, undef, fg, JobT, maxjobs, ShellState, emit, Event, added_job, too_many_jobs,
  listed,
}

abbrev pub clearjob : JobT
clearjob = record { pid = 0; jid = 0; state = undef; cmdline = [] }

abbrev pub cleared : ℕ → List JobT
cleared zero = []
cleared (suc n) = clearjob ∷ cleared n

unfoldable pub initjobs : ShellState → ShellState
initjobs s = record s { job_list = cleared maxjobs }

-- The loop of `maxjid` from a running maximum.
unfoldable pub maxjid_from : ℕ → List JobT → ℕ
maxjid_from max [] = max
maxjid_from max (j ∷ l) = maxjid_from (if ltb max j.jid then j.jid else max) l

unfoldable pub maxjid : List JobT → ℕ
unfolding maxjid_from
maxjid l = maxjid_from 0 l

-- The loop of `addjob`: the first free entry takes the job.
unfoldable pub fill_slot : JobT → List JobT → Option (List JobT)
fill_slot new [] = none
fill_slot new (j ∷ l) =
    if j.pid == 0
    then some (new ∷ l)
    else elim (fill_slot new l) [ none ↦ none | some l' ↦ some (j ∷ l') ]

unfoldable pub addjob : ShellState → (pid : ℕ) → JobState → CString → Bool × ShellState
unfolding fill_slot
addjob s pid state cmdline =
    let new : JobT = record { pid = pid; jid = s.nextjid; state = state; cmdline = cmdline } in
    if ltb pid 1 then (false, s) else elim (fill_slot new s.job_list) [
      | none ↦ (false, emit too_many_jobs s)
      | some l ↦
          let next = s.nextjid + 1 in
          let s' : ShellState = record s {
            job_list = l;
            nextjid = if ltb maxjobs next then 1 else next;
          } in
          (true, if s.verbose then emit (added_job new.jid pid cmdline) s' else s')
    ]

-- The loop of `deletejob`: the first entry with the PID is cleared.
unfoldable pub clear_slot : (pid : ℕ) → List JobT → Option (List JobT)
clear_slot pid [] = none
clear_slot pid (j ∷ l) =
    if j.pid == pid
    then some (clearjob ∷ l)
    else elim (clear_slot pid l) [ none ↦ none | some l' ↦ some (j ∷ l') ]

unfoldable pub deletejob : ShellState → (pid : ℕ) → Bool × ShellState
unfolding clear_slot
deletejob s pid = if ltb pid 1 then (false, s) else elim (clear_slot pid s.job_list) [
  | none ↦ (false, s)
  | some l ↦ (true, record s { job_list = l; nextjid = maxjid l + 1 })
]

abbrev pub is_fg : JobState → Bool
is_fg fg = true
is_fg _ = false

-- PID of the current foreground job, 0 if there is none
unfoldable pub fgpid : List JobT → ℕ
fgpid [] = 0
fgpid (j ∷ l) = if is_fg j.state then j.pid else fgpid l

-- The index of the first entry that passes the test of the loop.
unfoldable pub index_of : (JobT → Bool) → List JobT → Option ℕ
index_of test [] = none
index_of test (j ∷ l) =
    if test j then some 0 else elim (index_of test l) [ none ↦ none | some i ↦ some (suc i) ]

unfoldable pub getjobpid : List JobT → (pid : ℕ) → Option ℕ
unfolding index_of
getjobpid l pid = if ltb pid 1 then none else index_of (λ j. j.pid == pid) l

unfoldable pub getjobjid : List JobT → (jid : ℤ) → Option ℕ
unfolding index_of
getjobjid l (negsuc n) = none
getjobjid l (pos jid) = if ltb jid 1 then none else index_of (λ j. j.jid == jid) l

unfoldable pub jid_of : (pid : ℕ) → List JobT → ℕ
jid_of pid [] = 0
jid_of pid (j ∷ l) = if j.pid == pid then j.jid else jid_of pid l

unfoldable pub pid2jid : List JobT → (pid : ℕ) → ℕ
unfolding jid_of
pid2jid l pid = if ltb pid 1 then 0 else jid_of pid l

-- What `listjobs` writes: an entry for each used slot. `output` is the file behind the descriptor
-- `output_fd`, `none` for the terminal.
unfoldable pub listjobs : List JobT → (output : Option CString) → List Event
listjobs [] output = []
listjobs (j ∷ l) output =
    let rest = listjobs l output in
    if j.pid == 0 then rest else listed output j.jid j.pid j.state j.cmdline ∷ rest

-- `job->state = state` through a pointer into the array
unfoldable pub set_state : List JobT → ℕ → JobState → List JobT
set_state [] i state = []
set_state (j ∷ l) zero state = record j { state = state } ∷ l
set_state (j ∷ l) (suc i) state = j ∷ set_state l i state

unfoldable pub job_at : List JobT → ℕ → Option JobT
job_at [] i = none
job_at (j ∷ l) zero = some j
job_at (j ∷ l) (suc i) = job_at l i
