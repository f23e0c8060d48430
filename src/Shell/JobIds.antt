-- ===== src/Shell/JobIds.antt =====
-- The job IDs of svijay_tsh.c: what `addjob` and `deletejob` do to them, and when an ID is used
-- twice.
use introduction_to_computer.Base.{
  ℕ, ◌+◌, ◌<◌, ◌≤◌, ◌≡◌, ◌≢◌, refl, true, false, List, [], ◌∷◌, arith, ltb, ◌==◌, if◌then◌else◌,
  ◌∙◌,
}
use introduction_to_computer.Shell.Defs.{CString, JobState, JobT, maxjobs, ShellState}
use introduction_to_computer.Shell.Jobs.{
  clearjob, addjob, deletejob, jid_of, pid2jid, maxjid, maxjid_from,
}
use introduction_to_computer.Shell.Slots.{
  has_pid, SlotsOk, Replaced, here, there, Replaced-mem, addjob-Replaced, deletejob-Replaced,
}

-- The PID is not in the list, and the list has a free entry.
abbrev pub Addable : ShellState → ℕ → JobState → CString → Type 0
Addable s pid state cmdline =
    (0 < pid) × (has_pid pid s.job_list ≡ false) × ((addjob s pid state cmdline).0 ≡ true)

jid_of-fill :
    {old new : JobT} {l l' : List JobT} (q : ℕ)
    → Replaced old new l l'
    → old.pid ≡ 0
    → has_pid new.pid l ≡ false
    → 0 < q
    → jid_of q l' ≡ (if new.pid == q then new.jid else jid_of q l)
unfolding jid_of
jid_of-fill q here free fresh pos = ground arith
jid_of-fill q (there r) free fresh pos = ground (arith, jid_of-fill q r)

jid_of-absent : (q : ℕ) (l : List JobT) → has_pid q l ≡ false → jid_of q l ≡ 0
unfolding jid_of
jid_of-absent q [] h = refl
jid_of-absent q (j ∷ l) h = ground (arith, jid_of-absent q l)

jid_of-clear :
    {old : JobT} {l l' : List JobT} (q : ℕ)
    → Replaced old clearjob l l'
    → SlotsOk l
    → 0 < q
    → jid_of q l' ≡ (if old.pid == q then 0 else jid_of q l)
unfolding jid_of
jid_of-clear q (here {l}) ok positive = ground (arith, jid_of-absent q l)
jid_of-clear q (there r) ok positive = ground (arith, jid_of-clear q r, Replaced-mem r)

-- If `addjob` adds a job whose PID is positive and not in the list, it gives that PID the ID
-- `nextjid` and leaves every other PID its ID.
pub pid2jid-addjob :
    (s : ShellState) (pid : ℕ) (state : JobState) (cmdline : CString)
    → Addable s pid state cmdline
    → (q : ℕ)
    → pid2jid (addjob s pid state cmdline).1.job_list q
      ≡ (if q == pid then s.nextjid else pid2jid s.job_list q)
unfolding pid2jid
pid2jid-addjob s pid state cmdline (positive, fresh, added) q =
    let (old, free, r) = addjob-Replaced s pid state cmdline added in
    ground (arith, jid_of-fill q r free fresh)

-- If the slots are well-formed and `deletejob` deletes the PID's job, it takes the PID's ID away
-- and leaves every other PID its ID.
pub pid2jid-deletejob :
    (s : ShellState) (pid : ℕ)
    → SlotsOk s.job_list
    → (deletejob s pid).0 ≡ true
    → (q : ℕ)
    → pid2jid (deletejob s pid).1.job_list q ≡ (if q == pid then 0 else pid2jid s.job_list q)
unfolding pid2jid
pid2jid-deletejob s pid ok deleted q =
    let (old, same, r) = deletejob-Replaced s pid deleted in ground (arith, jid_of-clear q r ok)

addjob-nextjid :
    (s : ShellState) (pid : ℕ) (state : JobState) (cmdline : CString)
    → (addjob s pid state cmdline).0 ≡ true
    → (addjob s pid state cmdline).1.nextjid
      ≡ (if ltb maxjobs (s.nextjid + 1) then 1 else s.nextjid + 1)
unfolding addjob
addjob-nextjid s pid state cmdline added = ground arith

abbrev JidsBelow : ℕ → List JobT → Type 0
JidsBelow n [] = Unit {0}
JidsBelow n (j ∷ l) = (j.jid < n) × JidsBelow n l

maxjid_from-le : (m : ℕ) (l : List JobT) → m ≤ maxjid_from m l
unfolding maxjid_from
maxjid_from-le m [] = omega arith
maxjid_from-le m (j ∷ l) = ground (arith, maxjid_from-le (if ltb m j.jid then j.jid else m) l)

maxjid_from-JidsBelow : (m n : ℕ) (l : List JobT) → maxjid_from m l < n → JidsBelow n l
unfolding maxjid_from
maxjid_from-JidsBelow m n [] h = tt
maxjid_from-JidsBelow m n (j ∷ l) h = (
  ground (arith, maxjid_from-le (if ltb m j.jid then j.jid else m) l),
  maxjid_from-JidsBelow (if ltb m j.jid then j.jid else m) n l h,
)

jid_of-JidsBelow : (n q : ℕ) (l : List JobT) → JidsBelow n l → 0 < n → jid_of q l < n
unfolding jid_of
jid_of-JidsBelow n q [] h positive = positive
jid_of-JidsBelow n q (j ∷ l) h positive = ground (arith, jid_of-JidsBelow n q l h.1)

maxjid-JidsBelow : (l : List JobT) → JidsBelow (maxjid l + 1) l
unfolding maxjid
maxjid-JidsBelow l = maxjid_from-JidsBelow 0 (maxjid_from 0 l + 1) l (omega arith)

deletejob-nextjid :
    (s : ShellState) (pid : ℕ)
    → (deletejob s pid).0 ≡ true
    → (deletejob s pid).1.nextjid ≡ maxjid (deletejob s pid).1.job_list + 1
unfolding deletejob
deletejob-nextjid s pid deleted = ground arith

-- After a deletion of a job the next ID is above every ID in use.
pub deletejob-fresh :
    (s : ShellState) (pid : ℕ)
    → (deletejob s pid).0 ≡ true
    → (q : ℕ) → pid2jid (deletejob s pid).1.job_list q < (deletejob s pid).1.nextjid
unfolding pid2jid
deletejob-fresh s pid deleted q =
    let e = deletejob-nextjid s pid deleted in
    let l = (deletejob s pid).1.job_list in
    let below = maxjid-JidsBelow l in ground (arith, e, jid_of-JidsBelow (maxjid l + 1) q l below)

-- If the next ID is MAXJOBS or more and two jobs are added without a deletion in between, the
-- second has the ID 1 and shares it with the job that had it before.
pub addjob-reuses :
    (s : ShellState) (p : ℕ) (state : JobState) (cmdline : CString) (p' : ℕ) (state' : JobState)
    (cmdline' : CString) (q : ℕ)
    → maxjobs ≤ s.nextjid
    → Addable s p state cmdline
    → Addable (addjob s p state cmdline).1 p' state' cmdline'
    → pid2jid s.job_list q ≡ 1
    → q ≢ p
    → q ≢ p'
    → let t : ShellState = (addjob (addjob s p state cmdline).1 p' state' cmdline').1 in
      (pid2jid t.job_list q ≡ 1) × (pid2jid t.job_list p' ≡ 1)
addjob-reuses s p state cmdline p' state' cmdline' q full first second old ne ne' = (
  pid2jid-addjob (addjob s p state cmdline).1 p' state' cmdline' second q
      ∙ ground (arith, pid2jid-addjob s p state cmdline first q),
  pid2jid-addjob (addjob s p state cmdline).1 p' state' cmdline' second p'
      ∙ ground (arith, addjob-nextjid s p state cmdline first.2),
)
