-- ===== src/Shell/Slots.antt =====
-- What the job list of svijay_tsh.c keeps: free entries are cleared, no PID stands twice, and which
-- process may be in the foreground. Each change of the list keeps it.
use introduction_to_computer.Base.{
  none, ltb, ℕ, zero, suc, ◌<◌, ◌≡◌, ◌≢◌, ◌⊎◌, inl, inr, refl, Bool, true, false, ◌||◌, some, List,
  [], ◌∷◌, arith, ◌==◌, ◌≤◌, if◌then◌else◌, Bool-cases, Option-cases, subst,
}
use introduction_to_computer.Shell.Defs.{CString, ShellState, JobState, JobT}
use introduction_to_computer.Shell.Jobs.{
  addjob, deletejob, is_fg, clearjob, fill_slot, clear_slot, fgpid, index_of, set_state, job_at,
}

abbrev pub has_pid : ℕ → List JobT → Bool
has_pid pid [] = false
has_pid pid (j ∷ l) = (j.pid == pid) || has_pid pid l

-- An entry is in use, or cleared as far as the loops look.
abbrev pub SlotOk : JobT → Type 0
SlotOk j = (0 < j.pid) ⊎ ((j.jid ≡ 0) × (is_fg j.state ≡ false))

abbrev pub SlotsOk : List JobT → Type 0
SlotsOk [] = Unit {0}
SlotsOk (j ∷ l) = SlotOk j × ((j.pid ≡ 0) ⊎ (has_pid j.pid l ≡ false)) × SlotsOk l

-- Only the process `p` may be in the foreground.
abbrev pub FgOnly : ℕ → List JobT → Type 0
FgOnly p [] = Unit {0}
FgOnly p (j ∷ l) = ((is_fg j.state ≡ false) ⊎ (j.pid ≡ p)) × FgOnly p l

abbrev pub NoFg : List JobT → Type 0
NoFg [] = Unit {0}
NoFg (j ∷ l) = (is_fg j.state ≡ false) × NoFg l

-- How many jobs are in the foreground.
unfoldable pub fg_count : List JobT → ℕ
fg_count [] = 0
fg_count (j ∷ l) = if is_fg j.state then suc (fg_count l) else fg_count l

pub FgOnly-NoFg : (p : ℕ) (l : List JobT) → NoFg l → FgOnly p l
FgOnly-NoFg p [] h = tt
FgOnly-NoFg p (j ∷ l) h = (inl h.0, FgOnly-NoFg p l h.1)

NoFg-absent : (p : ℕ) (l : List JobT) → FgOnly p l → has_pid p l ≡ false → NoFg l
NoFg-absent p [] h a = tt
NoFg-absent p (j ∷ l) h a = (ground arith, NoFg-absent p l h.1 (ground arith))

NoFg-count : (l : List JobT) → NoFg l → fg_count l ≡ 0
unfolding fg_count
NoFg-count [] h = refl
NoFg-count (j ∷ l) h = ground (arith, NoFg-count l h.1)

-- With distinct PIDs, one process in the foreground is one job.
pub FgOnly-count : (p : ℕ) (l : List JobT) → SlotsOk l → FgOnly p l → fg_count l ≤ 1
unfolding fg_count
FgOnly-count p [] ok h = omega arith
FgOnly-count p (j ∷ l) (slot, distinct, ok) h = elim (Bool-cases (is_fg j.state)) [
  | inl is ↦ ground (arith, NoFg-count l (NoFg-absent p l h.1 (ground arith)))
  | inr not ↦ ground (arith, FgOnly-count p l ok h.1)
]

-- `fgpid` finds the foreground job.
pub fgpid-NoFg : (p : ℕ) (l : List JobT) → SlotsOk l → FgOnly p l → fgpid l ≢ p → NoFg l
unfolding fgpid
fgpid-NoFg p [] ok h ne = tt
fgpid-NoFg p (j ∷ l) ok h ne = (ground arith, fgpid-NoFg p l ok.2 h.1 (ground arith))

-- One entry, `old`, has become `new`: what every change of the list comes to.
pub data Replaced (old new : JobT) : List JobT → List JobT → Type 0 where
  here : {l : List JobT} → Replaced old new (old ∷ l) (new ∷ l)
  there : {j : JobT} {l l' : List JobT} → Replaced old new l l' → Replaced old new (j ∷ l) (j ∷ l')

-- The new PID is none, the old one, or one that no entry has.
abbrev pub PidOk : (old new : JobT) → List JobT → Type 0
PidOk old new l = (new.pid ≡ 0) ⊎ ((new.pid ≡ old.pid) ⊎ (has_pid new.pid l ≡ false))

module _ {old new : JobT} where
  pub Replaced-mem : {l l' : List JobT} → Replaced old new l l' → has_pid old.pid l ≡ true
  Replaced-mem here = ground arith
  Replaced-mem (there r) = ground (arith, Replaced-mem r)

  pub Replaced-has_pid :
      {l l' : List JobT} (q : ℕ)
      → Replaced old new l l'
      → has_pid q l ≡ false
      → (new.pid == q) ≡ false
      → has_pid q l' ≡ false
  Replaced-has_pid q here absent ne = ground arith
  Replaced-has_pid q (there r) absent ne = ground (arith, Replaced-has_pid q r)

  pub Replaced-SlotsOk :
      {l l' : List JobT}
      → Replaced old new l l'
      → SlotOk new
      → PidOk old new l
      → SlotsOk l
      → SlotsOk l'
  Replaced-SlotsOk here slot pid ok = (slot, ground arith, ok.2)
  Replaced-SlotsOk (there {j} r) slot pid ok = (
    ok.0,
    ground (arith, Replaced-has_pid j.pid r, Replaced-mem r),
    Replaced-SlotsOk r slot (ground arith) ok.2,
  )

  pub Replaced-FgOnly :
      {l l' : List JobT} (p : ℕ)
      → Replaced old new l l'
      → ((is_fg new.state ≡ false) ⊎ (new.pid ≡ p))
      → FgOnly p l
      → FgOnly p l'
  Replaced-FgOnly p here n h = (n, h.1)
  Replaced-FgOnly p (there r) n h = (h.0, Replaced-FgOnly p r n h.1)

  pub Replaced-NoFg :
      {l l' : List JobT} → Replaced old new l l' → is_fg new.state ≡ false → NoFg l → NoFg l'
  Replaced-NoFg here n h = (n, h.1)
  Replaced-NoFg (there r) n h = (h.0, Replaced-NoFg r n h.1)

-- `fill_slot`, `clear_slot` and `set_state` replace one entry.
pub fill_slot-Replaced :
    (new : JobT) (l l' : List JobT)
    → fill_slot new l ≡ some l'
    → (old : JobT) × (old.pid ≡ 0) × Replaced old new l l'
unfolding fill_slot
fill_slot-Replaced new [] l' e = cc
fill_slot-Replaced new (j ∷ l) l' e = elim (Bool-cases (j.pid == 0)) [
  | inl free ↦ (j, ground arith, subst (Replaced j new (j ∷ l)) (ground arith) here)
  | inr used ↦ elim (Option-cases (fill_slot new l)) [
    | inl full ↦ absurd (ground arith)
    | inr (m, found) ↦
        let (old, pid, r) = fill_slot-Replaced new l m found in
        (old, pid, subst (Replaced old new (j ∷ l)) (ground arith) (there r))
  ]
]

pub clear_slot-Replaced :
    (pid : ℕ) (l l' : List JobT)
    → clear_slot pid l ≡ some l'
    → (old : JobT) × (old.pid ≡ pid) × Replaced old clearjob l l'
unfolding clear_slot
clear_slot-Replaced pid [] l' e = cc
clear_slot-Replaced pid (j ∷ l) l' e = elim (Bool-cases (j.pid == pid)) [
  | inl hit ↦ (j, ground arith, subst (Replaced j clearjob (j ∷ l)) (ground arith) here)
  | inr miss ↦ elim (Option-cases (clear_slot pid l)) [
    | inl absent ↦ absurd (ground arith)
    | inr (m, found) ↦
        let (old, same, r) = clear_slot-Replaced pid l m found in
        (old, same, subst (Replaced old clearjob (j ∷ l)) (ground arith) (there r))
  ]
]

pub set_state-Replaced :
    (l : List JobT) (i : ℕ) (state : JobState) (job : JobT)
    → job_at l i ≡ some job
    → Replaced job (record job { state = state }) l (set_state l i state)
unfolding set_state job_at
set_state-Replaced [] i state job e = cc
set_state-Replaced (j ∷ l) zero state job e =
    subst
      (λ (k : JobT).
        Replaced k (record k { state = state }) (j ∷ l) (record j { state = state } ∷ l))
      (ground arith) here
set_state-Replaced (j ∷ l) (suc i) state job e = there (set_state-Replaced l i state job e)

-- The loops return indices of entries that pass their test.
pub index_of-job_at :
    (test : JobT → Bool) (l : List JobT) (i : ℕ)
    → index_of test l ≡ some i
    → (job : JobT) × (job_at l i ≡ some job) × (test job ≡ true)
unfolding index_of job_at
index_of-job_at test [] i e = cc
index_of-job_at test (j ∷ l) zero e = elim (Bool-cases (test j)) [
  | inl hit ↦ (j, refl, hit)
  | inr miss ↦ absurd (ground arith)
]
index_of-job_at test (j ∷ l) (suc i) e = elim (Bool-cases (test j)) [
  | inl hit ↦ absurd (ground arith)
  | inr miss ↦ index_of-job_at test l i (ground arith)
]

abbrev pub new_job : ShellState → ℕ → JobState → CString → JobT
new_job s pid state cmdline = record {
  pid = pid;
  jid = s.nextjid;
  state = state;
  cmdline = cmdline;
}

-- `addjob` fills a free entry, or leaves the list as it is.
pub addjob-list :
    (s : ShellState) (pid : ℕ) (state : JobState) (cmdline : CString) (l : List JobT)
    → 0 < pid
    → fill_slot (new_job s pid state cmdline) s.job_list ≡ some l
    → (addjob s pid state cmdline).1.job_list ≡ l
unfolding addjob
addjob-list s pid state cmdline l positive found = ground arith

pub addjob-full :
    (s : ShellState) (pid : ℕ) (state : JobState) (cmdline : CString)
    → fill_slot (new_job s pid state cmdline) s.job_list ≡ none
    → (addjob s pid state cmdline).1.job_list ≡ s.job_list
unfolding addjob
addjob-full s pid state cmdline full = ground arith

pub addjob-Replaced :
    (s : ShellState) (pid : ℕ) (state : JobState) (cmdline : CString)
    → (addjob s pid state cmdline).0 ≡ true
    → (old : JobT) × (old.pid ≡ 0)
      × Replaced old
          (new_job s pid state cmdline)
          s.job_list
          (addjob s pid state cmdline).1.job_list
unfolding addjob
addjob-Replaced s pid state cmdline added = elim (Bool-cases (ltb pid 1)) [
  | inl invalid ↦ absurd (ground arith)
  | inr valid ↦ elim (Option-cases (fill_slot (new_job s pid state cmdline) s.job_list)) [
    | inl full ↦ absurd (ground arith)
    | inr (l, found) ↦
        let (old, free, r) = fill_slot-Replaced (new_job s pid state cmdline) s.job_list l found in
        (old, free, rw (addjob-list s pid state cmdline l (ground arith) found) r)
  ]
]

pub deletejob-Replaced :
    (s : ShellState) (pid : ℕ)
    → (deletejob s pid).0 ≡ true
    → (old : JobT) × (old.pid ≡ pid) × Replaced old clearjob s.job_list (deletejob s pid).1.job_list
unfolding deletejob
deletejob-Replaced s pid deleted = elim (Bool-cases (ltb pid 1)) [
  | inl invalid ↦ absurd (ground arith)
  | inr valid ↦ elim (Option-cases (clear_slot pid s.job_list)) [
    | inl absent ↦ absurd (ground arith)
    | inr (l, found) ↦
        let (old, same, r) = clear_slot-Replaced pid s.job_list l found in
        (old, same, rw (valid, found) r)
  ]
]
