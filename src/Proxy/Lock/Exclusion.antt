-- ===== src/Proxy/Lock/Exclusion.antt =====
-- No thread of proxy.c writes the cache while another writes it or reads it in the readers' section.
use introduction_to_computer.Base.{
  ℕ, ◌+◌, ◌<◌, ◌≤◌, ◌≡◌, refl, ◌==◌, Bool, some, List, ◌∷◌, ◌++◌, if◌then◌else◌, arith,
}
use introduction_to_computer.Proxy.Lock.{
  Globals, Place, ready, entered, counted, admitted, reading, leaving, uncounted, released,
  to_touch, touching, fetching, to_add, adding, done, advance, System, Step, step, Reachable, start,
  spawn, move,
}
use introduction_to_computer.Proxy.Lock.Counts.{
  sum, sum-append, in_mutex, is_counted, holds, at_counted, at_uncounted, is_reading, is_writing,
  Related, sum-Related,
}

-- 1 if the count is not 0
abbrev pub some_of : ℕ → ℕ
some_of n = if n == 0 then 0 else 1

-- What the counts of all threads say of the globals.
pub record Ordered (g : Globals) (m c h x : ℕ) : Type 0 where
  pub mutex_once : g.mutex + m ≡ 1
  pub readers : g.readcnt ≡ c
  pub w_once : g.w + x + some_of h ≡ 1

-- The other threads' counts, and one thread at a place.
abbrev With : Globals → Place → (m c h x : ℕ) → Type 0
With g p m c h x = Ordered g (in_mutex p + m) (is_counted p + c) (holds p + h) (is_writing p + x)

advance-Ordered :
    (go_on : Bool) (p q : Place) (g g' : Globals) (m c h x a u r : ℕ)
    → Related m c h a u r
    → advance go_on p g ≡ some (q, g')
    → With g p m c h x
    → With g' q m c h x
unfolding advance
advance-Ordered go_on ready q g g' m c h x a u r rel e o = ground arith
advance-Ordered go_on entered q g g' m c h x a u r rel e o = ground arith
advance-Ordered go_on counted q g g' m c h x a u r rel e o = ground arith
advance-Ordered go_on admitted q g g' m c h x a u r rel e o = ground arith
advance-Ordered go_on reading q g g' m c h x a u r rel e o = ground arith
advance-Ordered go_on leaving q g g' m c h x a u r rel e o = ground arith
advance-Ordered go_on uncounted q g g' m c h x a u r rel e o = ground arith
advance-Ordered go_on released q g g' m c h x a u r rel e o = ground arith
advance-Ordered go_on to_touch q g g' m c h x a u r rel e o = ground arith
advance-Ordered go_on touching q g g' m c h x a u r rel e o = ground arith
advance-Ordered go_on fetching q g g' m c h x a u r rel e o = ground arith
advance-Ordered go_on to_add q g g' m c h x a u r rel e o = ground arith
advance-Ordered go_on adding q g g' m c h x a u r rel e o = ground arith
advance-Ordered go_on done q g g' m c h x a u r rel e o = ground arith

abbrev Invariant : Globals → List Place → Type 0
Invariant g ts = Ordered g (sum in_mutex ts) (sum is_counted ts) (sum holds ts) (sum is_writing ts)

-- The counts with one thread taken out of the middle.
module _ (g : Globals) (p : Place) (before after : List Place) where
  abbrev others : (Place → ℕ) → ℕ
  others f = sum f before + sum f after

  abbrev Apart : Type 0
  Apart = With g p (others in_mutex) (others is_counted) (others holds) (others is_writing)

  Invariant-Apart : Invariant g (before ++ p ∷ after) → Apart
  Invariant-Apart i =
      rw⁻¹
        (
          sum-append in_mutex before p after,
          sum-append is_counted before p after,
          sum-append holds before p after,
          sum-append is_writing before p after,
        )
        i

  Apart-Invariant : Apart → Invariant g (before ++ p ∷ after)
  Apart-Invariant i =
      rw
        (
          sum-append in_mutex before p after,
          sum-append is_counted before p after,
          sum-append holds before p after,
          sum-append is_writing before p after,
        )
        i

Step-Invariant :
    {s t : System} → Step s t → Invariant s.globals s.threads → Invariant t.globals t.threads
Step-Invariant (step go_on p q g g' before after e) i = Apart-Invariant g' q before after (
    advance-Ordered go_on p q g g' _ _ _ _ (sum at_counted before + sum at_counted after)
      (sum at_uncounted before + sum at_uncounted after)
      (sum is_reading before + sum is_reading after)
      (omega (arith, sum-Related before, sum-Related after)) e (Invariant-Apart g p before after i))

pub Reachable-Invariant : {s : System} → Reachable s → Invariant s.globals s.threads
Reachable-Invariant start = record { mutex_once = refl; readers = refl; w_once = refl }
Reachable-Invariant (spawn r) = let i = Reachable-Invariant r in ground (arith, i)
Reachable-Invariant (move r m) = Step-Invariant m (Reachable-Invariant r)

-- However the threads of the proxy interleave, at most one of them is in a writers' section, and
-- while one is, none is in the readers' section.
pub Reachable-exclusive :
    (s : System)
    → Reachable s
    → (sum is_writing s.threads ≤ 1) × (0 < sum is_writing s.threads → sum is_reading s.threads ≡ 0)
Reachable-exclusive s reach =
    let i = Reachable-Invariant reach in
    let rel = sum-Related s.threads in
    (ground (arith, i, rel), λ some_writes. ground (arith, i, rel, some_writes))

-- In every state that the threads of the proxy reach, `readcnt` is the number of the threads that
-- have been counted and not yet uncounted.
pub Reachable-readcnt : (s : System) → Reachable s → s.globals.readcnt ≡ sum is_counted s.threads
Reachable-readcnt s reach = (Reachable-Invariant reach).readers
