-- ===== src/Shell/Lookup.antt =====
-- The job that `extract_job_val` of svijay_tsh.c finds.
use introduction_to_computer.Base.{
  ℕ, ◌<◌, ◌≡◌, inl, inr, refl, Option, none, some, List, [], ◌∷◌, arith, ltb, ◌==◌, Bool-cases,
  Option-cases, ◌∙◌,
}
use introduction_to_computer.Base.Int.{ℤ, pos, negsuc}
use introduction_to_computer.Shell.Defs.{CString, JobT, ShellState, emit, Event, ok}
use introduction_to_computer.Shell.Jobs.{getjobjid, job_at}
use introduction_to_computer.Shell.Slots.{index_of-job_at}
use introduction_to_computer.Shell.Ends.{Ends}
use introduction_to_computer.Shell.Foreground.{}
use introduction_to_computer.Shell.Signals.{}
use introduction_to_computer.Shell.Builtins.{extract_job_val}

-- The job that `extract_job_val` finds is in the list, which it does not change.
abbrev pub Found : ShellState → Option ℕ → ShellState → Type 0
Found s o s' =
    (s'.job_list ≡ s.job_list)
    × ((i : ℕ) → o ≡ some i → (job : JobT) × (job_at s.job_list i ≡ some job) × (0 < job.jid))

getjobjid-job_at :
    (l : List JobT) (jid : ℤ) (i : ℕ)
    → getjobjid l jid ≡ some i
    → (job : JobT) × (job_at l i ≡ some job) × (0 < job.jid)
unfolding getjobjid
getjobjid-job_at l (negsuc n) i e = cc
getjobjid-job_at l (pos jid) i e = elim (Bool-cases (ltb jid 1)) [
  | inl invalid ↦ absurd (ground arith)
  | inr valid ↦
      let (job, at, same) = index_of-job_at (λ j. j.jid == jid) l i (ground arith) in
      (job, at, ground arith)
]

none-some {ℓ} : {A : Type ℓ} {a : A} {P : Type 0} → none ≡ some a → P
none-some e = cc

find_with :
    (s : ShellState) (jid : ℤ) (e : Event)
    → Ends
        (λ _. ⊥)
        (Found s)
        (elim (getjobjid s.job_list jid) [ none ↦ ok none (emit e s) | some i ↦ ok (some i) s ])
find_with s jid e = elim (Option-cases (getjobjid s.job_list jid)) [
  | inl absent ↦ rw absent (refl, λ i h. none-some h)
  | inr (i, found) ↦ rw found (refl, λ k h. getjobjid-job_at s.job_list jid k (found ∙ h))
]

pub extract_job_val-Found :
    (atoi : CString → ℤ) (arg : Option CString) (s : ShellState)
    → Ends (λ _. ⊥) (Found s) (extract_job_val atoi arg s)
unfolding extract_job_val
extract_job_val-Found atoi none s = (refl, λ i h. none-some h)
extract_job_val-Found atoi (some []) s = find_with s (atoi []) _
extract_job_val-Found atoi (some (c ∷ rest)) s = elim (Bool-cases (c == b'%')) [
  | inl percent ↦ rw percent (find_with s (atoi rest) _)
  | inr plain ↦ rw plain (find_with s (atoi (c ∷ rest)) _)
]
