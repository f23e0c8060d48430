-- ===== src/Shell/Ends.antt =====
-- Postconditions of the calls of svijay_tsh.c: one for a return, one for every other end.
use introduction_to_computer.Shell.Defs.{ShellState, Result, ok, exit, fault, waiting, M, and_then}

abbrev pub Ends :
    {A : Type 0} → (ShellState → Type 0) → (A → ShellState → Type 0) → Result A → Type 0
Ends P Q (ok a s) = Q a s
Ends P Q (exit n s) = P s
Ends P Q (fault s) = P s
Ends P Q (waiting s) = P s

pub Ends-bind :
    {A B : Type 0} (P : ShellState → Type 0) (Q : A → ShellState → Type 0)
    (R : B → ShellState → Type 0) (r : Result A) (k : A → M B)
    → Ends P Q r
    → ((a : A) (s : ShellState) → Q a s → Ends P R (k a s))
    → Ends P R (and_then r k)
Ends-bind P Q R (ok a s) k h next = next a s h
Ends-bind P Q R (exit n s) k h next = h
Ends-bind P Q R (fault s) k h next = h
Ends-bind P Q R (waiting s) k h next = h

pub Ends-mono :
    {A : Type 0} (P P' : ShellState → Type 0) (Q Q' : A → ShellState → Type 0) (r : Result A)
    → Ends P Q r
    → ((s : ShellState) → P s → P' s)
    → ((a : A) (s : ShellState) → Q a s → Q' a s)
    → Ends P' Q' r
Ends-mono P P' Q Q' (ok a s) h p q = q a s h
Ends-mono P P' Q Q' (exit n s) h p q = p s h
Ends-mono P P' Q Q' (fault s) h p q = p s h
Ends-mono P P' Q Q' (waiting s) h p q = p s h
