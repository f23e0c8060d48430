-- ===== src/Shell/Resume.antt =====
-- `bg` and `fg` of svijay_tsh.c, with the signals that reach the shell while they run.
use introduction_to_computer.Base.{
  ℕ, ◌<◌, ◌≡◌, inl, inr, refl, Bool, true, false, Option, none, some, List, [], ◌∷◌, arith, ◌==◌,
  Bool-cases, Option-cases, sym, subst,
}
use introduction_to_computer.Shell.Defs.{
  JobT, fg, bg, ShellState, Result, SignalName, M, and_then, ◌>>◌,
}
use introduction_to_computer.Shell.Jobs.{fgpid, job_at}
use introduction_to_computer.Shell.Slots.{
  SlotsOk, NoFg, FgOnly, FgOnly-NoFg, Replaced-SlotsOk, Replaced-FgOnly, Replaced-NoFg,
  set_state-Replaced,
}
use introduction_to_computer.Shell.Ends.{Ends, Ends-bind, Ends-mono}
use introduction_to_computer.Shell.Foreground.{
  Waiting, AtPrompt, AtMostOne, Always, Kept, SlotsOk-at, handle_all-Waiting, handle_all-AtPrompt,
  wait_state-AtPrompt, Waiting-AtMostOne, AtPrompt-AtMostOne,
}
use introduction_to_computer.Shell.Signals.{
  Delivery, chld, int, tstp, unseen, forward_signal, handle, handle_all, Interrupts, wait_state,
}
use introduction_to_computer.Shell.Builtins.{
  continue_group, read_pid, put_state, print_job, resume_bg, resume_fg,
}
use introduction_to_computer.Shell.Lookup.{Found}

-- A signal other than SIGCHLD.
abbrev pub FromKeyboard : Delivery → Type 0
FromKeyboard (chld children) = ⊥
FromKeyboard (int kill_ok) = Unit {0}
FromKeyboard (tstp kill_ok) = Unit {0}
FromKeyboard (unseen d) = FromKeyboard d

abbrev pub AllFromKeyboard : List Delivery → Type 0
AllFromKeyboard [] = Unit {0}
AllFromKeyboard (d ∷ ds) = FromKeyboard d × AllFromKeyboard ds

-- No SIGCHLD handler runs between the look-up of a job by `bg` or `fg` and the change of its state.
abbrev pub Undisturbed : Interrupts → Type 0
Undisturbed at =
    AllFromKeyboard at.after_find × AllFromKeyboard at.after_pid × AllFromKeyboard at.before_bg

-- The job list is still `l`.
abbrev Holds : List JobT → ShellState → Type 0
Holds l t = t.job_list ≡ l

forward_signal-Holds :
    (l : List JobT) (signal : SignalName) (kill_ok : Bool) (t : ShellState)
    → Holds l t
    → Ends (Holds l) (Always (Holds l)) (forward_signal signal kill_ok t)
unfolding forward_signal
forward_signal-Holds l signal kill_ok t h = elim (Bool-cases (fgpid t.job_list == 0)) [
  | inl idle ↦ rw idle h
  | inr busy ↦ elim (Bool-cases kill_ok) [
    | inl sent ↦ rw (busy, sent) h
    | inr bad ↦ rw (busy, bad) h
  ]
]

handle-Holds :
    (l : List JobT) (d : Delivery) (t : ShellState)
    → FromKeyboard d
    → Holds l t
    → Ends (Holds l) (Always (Holds l)) (handle d t)
unfolding handle
handle-Holds l (chld children) t key h = absurd key
handle-Holds l (int kill_ok) t key h = forward_signal-Holds l _ kill_ok t h
handle-Holds l (tstp kill_ok) t key h = forward_signal-Holds l _ kill_ok t h
handle-Holds l (unseen d) t key h = handle-Holds l d t key h

handle_all-Holds :
    (l : List JobT) (ds : List Delivery) (t : ShellState)
    → AllFromKeyboard ds
    → Holds l t
    → Ends (Holds l) (Always (Holds l)) (handle_all ds t)
unfolding handle_all
handle_all-Holds l [] t key h = h
handle_all-Holds l (d ∷ ds) t (key, keys) h =
    Ends-bind (Holds l) (Always (Holds l)) (Always (Holds l)) (handle d t) _
      (handle-Holds l d t key h) (λ _ u h'. handle_all-Holds l ds u keys h')

continue_group-Ends :
    (P : List JobT → Type 0)
    → ((s : ShellState) → P s.job_list → AtMostOne s)
    → (kill_ok : Bool) (pid : ℕ) (s : ShellState) → P s.job_list
    → Ends AtMostOne (Always (λ t. P t.job_list)) (continue_group kill_ok pid s)
unfolding continue_group
continue_group-Ends P weaken true pid s h = h
continue_group-Ends P weaken false pid s h = weaken s h

print_job-AtPrompt : (i : ℕ) (s : ShellState) → AtPrompt s → Kept (print_job i s)
unfolding print_job
print_job-AtPrompt i s a = elim (Option-cases (job_at s.job_list i)) [
  | inl absent ↦ rw (absent, print_job) (AtPrompt-AtMostOne s a)
  | inr (job, found) ↦ rw (found, print_job) a
]

-- One call after another.
in_turn :
    {A B : Type 0} (P Q : ShellState → Type 0) (r : Result A) (n : M B)
    → Ends AtMostOne (Always P) r
    → ((s : ShellState) → P s → Ends AtMostOne (Always Q) (n s))
    → Ends AtMostOne (Always Q) (and_then r (λ _. n))
in_turn P Q r n h next = Ends-bind AtMostOne (Always P) (Always Q) r (λ _. n) h (λ _ s p. next s p)

handle_all-Running :
    (pid : ℕ) (ds : List Delivery) (s : ShellState)
    → Waiting pid s
    → Ends AtMostOne (Always (Waiting pid)) (handle_all ds s)
handle_all-Running pid ds s w =
    Ends-mono (Waiting pid) AtMostOne (Always (Waiting pid)) (Always (Waiting pid))
      (handle_all ds s) (handle_all-Waiting pid ds s w) (Waiting-AtMostOne pid) (λ _ t v. v)

wait_state-Kept :
    (pid : ℕ) (ds : List Delivery) (s : ShellState) → Waiting pid s → Kept (wait_state pid ds s)
wait_state-Kept pid ds s w =
    Ends-mono (Waiting pid) AtMostOne (Always AtPrompt) (Always AtPrompt) (wait_state pid ds s)
      (wait_state-AtPrompt pid ds s w) (Waiting-AtMostOne pid) (λ _ t a. a)

-- The job of entry `i` of the list `l`, with no job in the foreground.
module _ (l : List JobT) (slots : SlotsOk l) (idle : NoFg l) (i : ℕ) (job : JobT)
    (found : job_at l i ≡ some job) (positive : 0 < job.pid) where
  Holds-AtPrompt : (t : ShellState) → Holds l t → AtPrompt t
  Holds-AtPrompt t h = rw h (slots, idle)

  quiet :
      (ds : List Delivery) (t : ShellState)
      → AllFromKeyboard ds
      → Holds l t
      → Ends AtMostOne (Always (Holds l)) (handle_all ds t)
  quiet ds t key h =
      Ends-mono (Holds l) AtMostOne (Always (Holds l)) (Always (Holds l)) (handle_all ds t)
        (handle_all-Holds l ds t key h) (λ u e. AtPrompt-AtMostOne u (Holds-AtPrompt u e))
        (λ _ u e. e)

  at_list : (t : ShellState) → Holds l t → job_at t.job_list i ≡ some job
  at_list t h = rw h found

  read_pid-Holds :
      (t : ShellState)
      → Holds l t
      → Ends AtMostOne (λ pid u. (pid ≡ job.pid) × Holds l u) (read_pid i t)
  unfolding read_pid
  read_pid-Holds t h = rw (at_list t h, read_pid) (refl, h)

  put_bg : (t : ShellState) → Holds l t → Kept (put_state i bg t)
  unfolding put_state
  put_bg t h =
      let r = set_state-Replaced l i bg job found in
      rw h (Replaced-SlotsOk r (inl positive) (inr (inl refl)) slots, Replaced-NoFg r refl idle)

  put_fg :
      (t : ShellState) → Holds l t → Ends AtMostOne (Always (Waiting job.pid)) (put_state i fg t)
  unfolding put_state
  put_fg t h =
      let r = set_state-Replaced l i fg job found in
      rw h (
        Replaced-SlotsOk r (inl positive) (inr (inl refl)) slots,
        Replaced-FgOnly job.pid r (inr refl) (FgOnly-NoFg job.pid l idle),
      )

  find_pid-Holds :
      (ds : List Delivery) (t : ShellState)
      → AllFromKeyboard ds
      → Holds l t
      → Ends AtMostOne (λ pid u. (pid ≡ job.pid) × Holds l u) ((handle_all ds >> read_pid i) t)
  find_pid-Holds ds t key h =
      Ends-bind AtMostOne (Always (Holds l)) (λ pid u. (pid ≡ job.pid) × Holds l u)
        (handle_all ds t) _ (quiet ds t key h) (λ _ u e. read_pid-Holds u e)

  resume_bg-Kept :
      (kill_ok : Bool) (at : Interrupts) (t : ShellState)
      → Undisturbed at
      → Holds l t
      → Kept (resume_bg kill_ok at (some i) t)
  unfolding resume_bg
  resume_bg-Kept kill_ok at t (after_find, after_pid, before_bg) h =
      Ends-bind AtMostOne (λ pid u. (pid ≡ job.pid) × Holds l u) (Always AtPrompt) _ _
        (find_pid-Holds at.after_find t after_find h)
        (λ pid u e.
          in_turn AtPrompt AtPrompt _ _
            (in_turn AtPrompt AtPrompt _ _
              (in_turn (Holds l) AtPrompt _ _
                (in_turn (Holds l) (Holds l) _ _
                  (in_turn (Holds l) (Holds l) _ _ (quiet at.after_pid u after_pid e.1) (
                    continue_group-Ends (λ m. m ≡ l)
                      (λ v h'. AtPrompt-AtMostOne v (Holds-AtPrompt v h')) kill_ok pid))
                  (λ v h'. quiet at.before_bg v before_bg h'))
                put_bg)
              (handle_all-AtPrompt at.before_end))
            (print_job-AtPrompt i))

  resume_fg-Kept :
      (kill_ok : Bool) (at : Interrupts) (ds : List Delivery) (t : ShellState)
      → Undisturbed at
      → Holds l t
      → Kept (resume_fg kill_ok at ds (some i) t)
  unfolding resume_fg
  resume_fg-Kept kill_ok at ds t (after_find, after_pid, _) h =
      Ends-bind AtMostOne (λ pid u. (pid ≡ job.pid) × Holds l u) (Always AtPrompt) _ _
        (find_pid-Holds at.after_find t after_find h)
        (λ pid u e.
          in_turn (Waiting job.pid) AtPrompt _ _
            (in_turn (Waiting job.pid) (Waiting job.pid) _ _
              (in_turn (Waiting job.pid) (Waiting job.pid) _ _
                (in_turn (Waiting job.pid) (Waiting job.pid) _ _
                  (in_turn (Holds l) (Waiting job.pid) _ _ (quiet at.after_pid u after_pid e.1)
                    put_fg)
                  (handle_all-Running job.pid at.after_fg))
                (continue_group-Ends (λ m. SlotsOk m × FgOnly job.pid m) (Waiting-AtMostOne job.pid)
                  kill_ok pid))
              (handle_all-Running job.pid at.before_end))
            (λ v w.
              subst (λ n. Kept (wait_state n ds v)) (sym e.0) (wait_state-Kept job.pid ds v w)))

module _ (s : ShellState) (at_prompt : AtPrompt s) where
  Found-AtPrompt : (o : Option ℕ) (s' : ShellState) → Found s o s' → AtPrompt s'
  Found-AtPrompt o s' found = rw found.0 at_prompt

  Found-job :
      (i : ℕ) (s' : ShellState)
      → Found s (some i) s'
      → (job : JobT) × (job_at s.job_list i ≡ some job) × (0 < job.pid)
  Found-job i s' found =
      let (job, at, numbered) = found.1 i refl in
      (job, at, ground (arith, SlotsOk-at s.job_list i job at at_prompt.0))

  pub resume_bg-AtPrompt :
      (kill_ok : Bool) (at : Interrupts)
      → Undisturbed at
      → (o : Option ℕ) (s' : ShellState) → Found s o s'
      → Kept (resume_bg kill_ok at o s')
  unfolding resume_bg
  resume_bg-AtPrompt kill_ok at calm none s' found = Found-AtPrompt none s' found
  resume_bg-AtPrompt kill_ok at calm (some i) s' found =
      let (job, here, positive) = Found-job i s' found in
      resume_bg-Kept s.job_list at_prompt.0 at_prompt.1 i job here positive kill_ok at s' calm
        found.0

  pub resume_fg-AtPrompt :
      (kill_ok : Bool) (at : Interrupts) (ds : List Delivery)
      → Undisturbed at
      → (o : Option ℕ) (s' : ShellState) → Found s o s'
      → Kept (resume_fg kill_ok at ds o s')
  unfolding resume_fg
  resume_fg-AtPrompt kill_ok at ds calm none s' found = Found-AtPrompt none s' found
  resume_fg-AtPrompt kill_ok at ds calm (some i) s' found =
      let (job, here, positive) = Found-job i s' found in
      resume_fg-Kept s.job_list at_prompt.0 at_prompt.1 i job here positive kill_ok at ds s' calm
        found.0
