-- ===== src/Shell/Foreground.antt =====
-- The foreground job of svijay_tsh.c, through the handlers and `wait_state`.
use introduction_to_computer.Base.{
  ℕ, zero, suc, ◌<◌, ◌≤◌, ◌≡◌, inl, inr, refl, Bool, true, false, some, List, [], ◌∷◌, arith, ltb,
  ◌==◌, Bool-cases, Option-cases,
}
use introduction_to_computer.Shell.Defs.{JobT, st, ShellState, Result, emit, SignalName}
use introduction_to_computer.Shell.Jobs.{clear_slot, deletejob, fgpid, getjobpid, job_at}
use introduction_to_computer.Shell.Slots.{
  SlotOk, SlotsOk, FgOnly, NoFg, fg_count, fgpid-NoFg, FgOnly-NoFg, FgOnly-count, Replaced-SlotsOk,
  Replaced-FgOnly, clear_slot-Replaced, set_state-Replaced, index_of-job_at,
}
use introduction_to_computer.Shell.Ends.{Ends, Ends-bind, Ends-mono}
use introduction_to_computer.Shell.Signals.{
  Status, exited, signaled, stopped_by, other, delete, stop_job, reap, sigchld_handler,
  forward_signal, Delivery, chld, int, tstp, unseen, handle, handle_all, is_seen, wait_loop,
  wait_state,
}

-- While the shell waits for `p`: the list is in order and only `p` may be in the foreground.
abbrev pub Waiting : ℕ → ShellState → Type 0
Waiting p s = SlotsOk s.job_list × FgOnly p s.job_list

-- At the prompt: the list is in order and no job is in the foreground.
abbrev pub AtPrompt : ShellState → Type 0
AtPrompt s = SlotsOk s.job_list × NoFg s.job_list

abbrev pub AtMostOne : ShellState → Type 0
AtMostOne s = SlotsOk s.job_list × (fg_count s.job_list ≤ 1)

abbrev pub Always : {A : Type 0} → (ShellState → Type 0) → A → ShellState → Type 0
Always P _ s = P s

pub SlotsOk-at :
    (l : List JobT) (i : ℕ) (job : JobT) → job_at l i ≡ some job → SlotsOk l → SlotOk job
unfolding job_at
SlotsOk-at [] i job e slots = cc
SlotsOk-at (j ∷ l) zero job e slots = ground arith
SlotsOk-at (j ∷ l) (suc i) job e slots = SlotsOk-at l i job e slots.2

getjobpid-job_at :
    (l : List JobT) (pid i : ℕ)
    → getjobpid l pid ≡ some i
    → (job : JobT) × (job_at l i ≡ some job) × (0 < job.pid)
unfolding getjobpid
getjobpid-job_at l pid i e = elim (Bool-cases (ltb pid 1)) [
  | inl invalid ↦ absurd (ground arith)
  | inr valid ↦
      let (job, at, same) = index_of-job_at (λ j. j.pid == pid) l i (ground arith) in
      (job, at, ground arith)
]

module _ (p : ℕ) where
  abbrev Keeps : {A : Type 0} → Result A → Type 0
  Keeps r = Ends (Waiting p) (Always (Waiting p)) r

  delete-Waiting : (pid : ℕ) (s : ShellState) → Waiting p s → Keeps (delete pid s)
  unfolding deletejob
  delete-Waiting pid s w = elim (Bool-cases (ltb pid 1)) [
    | inl none_such ↦ rw none_such w
    | inr valid ↦ elim (Option-cases (clear_slot pid s.job_list)) [
      | inl absent ↦ rw (valid, absent) w
      | inr (l, found) ↦
          let (old, _, r) = clear_slot-Replaced pid s.job_list l found in
          rw (valid, found)
            (
              Replaced-SlotsOk r (inr (refl, refl)) (inl refl) w.0,
              Replaced-FgOnly p r (inl refl) w.1,
            )
    ]
  ]

  stop_job-Waiting :
      (pid : ℕ) (s : ShellState) → Waiting p s → Keeps (stop_job (getjobpid s.job_list pid) s)
  unfolding stop_job
  stop_job-Waiting pid s w = elim (Option-cases (getjobpid s.job_list pid)) [
    | inl absent ↦ rw absent w
    | inr (i, found) ↦
        let (job, at, positive) = getjobpid-job_at s.job_list pid i found in
        let r = set_state-Replaced s.job_list i st job at in
        rw found (
          Replaced-SlotsOk r (inl positive) (inr (inl refl)) w.0,
          Replaced-FgOnly p r (inl refl) w.1,
        )
  ]

  reap-Waiting :
      (pid : ℕ) (status : Status) (s : ShellState) → Waiting p s → Keeps (reap pid status s)
  unfolding reap
  reap-Waiting pid exited s w = delete-Waiting pid s w
  reap-Waiting pid (signaled term) s w = delete-Waiting pid (emit _ s) w
  reap-Waiting pid (stopped_by stop) s w = stop_job-Waiting _ (emit _ s) w
  reap-Waiting pid other s w = w

  sigchld_handler-Waiting :
      (children : List (ℕ × Status)) (s : ShellState)
      → Waiting p s
      → Keeps (sigchld_handler children s)
  unfolding sigchld_handler
  sigchld_handler-Waiting [] s w = w
  sigchld_handler-Waiting ((pid, status) ∷ children) s w =
      Ends-bind (Waiting p) (Always (Waiting p)) (Always (Waiting p)) (reap pid status s) _
        (reap-Waiting pid status s w) (λ _ s' w'. sigchld_handler-Waiting children s' w')

  forward_signal-Waiting :
      (signal : SignalName) (kill_ok : Bool) (s : ShellState)
      → Waiting p s
      → Keeps (forward_signal signal kill_ok s)
  unfolding forward_signal
  forward_signal-Waiting signal kill_ok s w = elim (Bool-cases (fgpid s.job_list == 0)) [
    | inl idle ↦ rw idle w
    | inr busy ↦ elim (Bool-cases kill_ok) [
      | inl sent ↦ rw (busy, sent) w
      | inr bad ↦ rw (busy, bad) w
    ]
  ]

  pub handle-Waiting : (d : Delivery) (s : ShellState) → Waiting p s → Keeps (handle d s)
  unfolding handle
  handle-Waiting (chld children) s w = sigchld_handler-Waiting children s w
  handle-Waiting (int kill_ok) s w = forward_signal-Waiting _ kill_ok s w
  handle-Waiting (tstp kill_ok) s w = forward_signal-Waiting _ kill_ok s w
  handle-Waiting (unseen d) s w = handle-Waiting d s w

  pub handle_all-Waiting :
      (ds : List Delivery) (s : ShellState) → Waiting p s → Keeps (handle_all ds s)
  unfolding handle_all
  handle_all-Waiting [] s w = w
  handle_all-Waiting (d ∷ ds) s w =
      Ends-bind (Waiting p) (Always (Waiting p)) (Always (Waiting p)) (handle d s) _
        (handle-Waiting d s w) (λ _ s' w'. handle_all-Waiting ds s' w')

  wait_loop-AtPrompt :
      (tests : Bool) (ds : List Delivery) (s : ShellState)
      → Waiting p s
      → Ends (Waiting p) (Always AtPrompt) (wait_loop tests p ds s)
  unfolding wait_loop
  wait_loop-AtPrompt true [] s w = elim (Bool-cases (p == fgpid s.job_list)) [
    | inl busy ↦ rw busy w
    | inr free ↦ rw free (w.0, fgpid-NoFg p s.job_list w.0 w.1 (ground arith))
  ]
  wait_loop-AtPrompt true (d ∷ ds) s w = elim (Bool-cases (p == fgpid s.job_list)) [
    | inl busy ↦ rw busy (
        Ends-bind (Waiting p) (Always (Waiting p)) (Always AtPrompt) (handle d s) _
          (handle-Waiting d s w) (λ _ s' w'. wait_loop-AtPrompt (is_seen d) ds s' w'))
    | inr free ↦ rw free (w.0, fgpid-NoFg p s.job_list w.0 w.1 (ground arith))
  ]
  wait_loop-AtPrompt false [] s w = w
  wait_loop-AtPrompt false (d ∷ ds) s w =
      Ends-bind (Waiting p) (Always (Waiting p)) (Always AtPrompt) (handle d s) _
        (handle-Waiting d s w) (λ _ s' w'. wait_loop-AtPrompt (is_seen d) ds s' w')

  pub wait_state-AtPrompt :
      (ds : List Delivery) (s : ShellState)
      → Waiting p s
      → Ends (Waiting p) (Always AtPrompt) (wait_state p ds s)
  unfolding wait_state
  wait_state-AtPrompt ds s w = wait_loop-AtPrompt true ds s w

-- A free entry is not in the foreground.
FgOnly-no_job : (l : List JobT) → SlotsOk l → FgOnly 0 l → NoFg l
FgOnly-no_job [] ok h = tt
FgOnly-no_job (j ∷ l) ok h = (ground (arith, ok.0, h.0), FgOnly-no_job l ok.2 h.1)

Waiting-AtPrompt : (s : ShellState) → Waiting 0 s → AtPrompt s
Waiting-AtPrompt s w = (w.0, FgOnly-no_job s.job_list w.0 w.1)

pub Waiting-AtMostOne : (p : ℕ) (s : ShellState) → Waiting p s → AtMostOne s
Waiting-AtMostOne p s w = (w.0, FgOnly-count p s.job_list w.0 w.1)

pub AtPrompt-AtMostOne : (s : ShellState) → AtPrompt s → AtMostOne s
AtPrompt-AtMostOne s a = Waiting-AtMostOne 0 s (a.0, FgOnly-NoFg 0 s.job_list a.1)

-- A call from the prompt and back to it.
abbrev pub Kept : {A : Type 0} → Result A → Type 0
Kept = Ends AtMostOne (Always AtPrompt)

pub handle_all-AtPrompt :
    (ds : List Delivery) (s : ShellState) → AtPrompt s → Kept (handle_all ds s)
handle_all-AtPrompt ds s a =
    Ends-mono (Waiting 0) AtMostOne (Always (Waiting 0)) (Always AtPrompt) (handle_all ds s)
      (handle_all-Waiting 0 ds s (a.0, FgOnly-NoFg 0 s.job_list a.1)) (Waiting-AtMostOne 0)
      (λ _ t w. Waiting-AtPrompt t w)
