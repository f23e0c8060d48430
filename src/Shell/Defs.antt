-- ===== src/Shell/Defs.antt =====
-- The types of svijay_tsh.c, and what its functions do to the world outside: text printed, signals
-- sent, and the ends of the process.
use introduction_to_computer.Base.{ℕ, Bool, Option, List, [], ◌∷◌, ◌++◌}
use introduction_to_computer.Base.Int.{ℤ}
-- Characters are their codes. A string holds no 0.
pub use introduction_to_computer.Base.{CString}

-- UNDEF, FG, BG and ST
pub data JobState : Type 0 where
  undef fg bg st : JobState

pub record JobT : Type 0 where
  pub pid : ℕ
  pub jid : ℕ
  pub state : JobState
  pub cmdline : CString

abbrev pub maxline : ℕ
maxline = 1024

abbrev pub maxargs : ℕ
maxargs = 128

abbrev pub maxjobs : ℕ
maxjobs = 16

pub data SignalName : Type 0 where
  sigint sigtstp sigcont : SignalName

-- What the shell prints and whom it signals, in order.
pub data Event : Type 0 where
  added_job : (jid pid : ℕ) → CString → Event
  too_many_jobs : Event
  terminated : (jid pid signal : ℕ) → Event
  stopped : (jid pid signal : ℕ) → Event
  job_line : (jid pid : ℕ) → CString → Event
  listed : (output : Option CString) → (jid pid : ℕ) → JobState → CString → Event
  needs_argument : Event
  no_such_job : CString → Event
  no_such_process : ℤ → Event
  killed : (pgid : ℕ) → SignalName → Event
  prompted : Event
  printed_newline : Event
  printed_usage : Event
  fgets_error : Event

-- The global variables, and the events so far.
pub record ShellState : Type 0 where
  pub job_list : List JobT
  pub nextjid : ℕ
  pub verbose : Bool
  pub events : List Event

abbrev pub emit : Event → ShellState → ShellState
emit e s = record s { events = s.events ++ e ∷ [] }

-- A call returns, ends the process, reads through NULL, or waits for a signal that never comes.
pub data Result (A : Type 0) : Type 0 where
  ok : A → ShellState → Result A
  exit : ℕ → ShellState → Result A
  fault : ShellState → Result A
  waiting : ShellState → Result A

abbrev pub M : Type 0 → Type 0
M A = ShellState → Result A

abbrev pub pure : {A : Type 0} → A → M A
pure = ok

abbrev pub and_then : {A B : Type 0} → Result A → (A → M B) → Result B
and_then (ok a s) k = k a s
and_then (exit n s) k = exit n s
and_then (fault s) k = fault s
and_then (waiting s) k = waiting s

infixl 5 ◌>>=◌ ◌>>◌
abbrev pub ◌>>=◌ : {A B : Type 0} → M A → (A → M B) → M B
m >>= k = λ s. and_then (m s) k

abbrev pub ◌>>◌ : {A B : Type 0} → M A → M B → M B
m >> n = m >>= λ _. n

abbrev pub say : Event → M (Unit {0})
say e s = ok tt (emit e s)
