-- ===== src/Proxy/Lock/Progress.antt =====
-- The threads of proxy.c do not block one another for ever.
use introduction_to_computer.Base.{
  ℕ, ◌+◌, ◌==◌, ◌<◌, ◌≤◌, ◌≡◌, ◌≢◌, refl, ap, inl, inr, Bool, true, false, none, List, [], ◌∷◌,
  ◌++◌, if◌then◌else◌, arith, Bool-cases, ◌&&◌,
}
use introduction_to_computer.Proxy.Lock.{
  Globals, Place, ready, entered, counted, admitted, reading, leaving, uncounted, released,
  to_touch, touching, fetching, to_add, adding, done, advance, System, Reachable,
}
use introduction_to_computer.Proxy.Lock.Counts.{
  sum, in_mutex, is_counted, holds, at_counted, is_writing, sum-Related,
}
use introduction_to_computer.Proxy.Lock.Exclusion.{Ordered, Reachable-Invariant}

-- Where no semaphore is in the way.
abbrev is_free : Place → ℕ
is_free entered = 1
is_free admitted = 1
is_free leaving = 1
is_free uncounted = 1
is_free released = 1
is_free touching = 1
is_free fetching = 1
is_free adding = 1
is_free _ = 0

-- In front of `P(&mutex)`.
abbrev wants_mutex : Place → ℕ
wants_mutex ready = 1
wants_mutex reading = 1
wants_mutex _ = 0

-- In front of `P(&w)` as a writer.
abbrev wants_w : Place → ℕ
wants_w to_touch = 1
wants_w to_add = 1
wants_w _ = 0

-- Not at the end.
abbrev pub is_running : Place → ℕ
is_running done = 0
is_running _ = 1

abbrev Classes : (run f wm ww a m h x : ℕ) → Type 0
Classes run f wm ww a m h x = (run ≡ f + wm + ww + a) × (m ≤ f + a) × (h ≤ f + wm) × (x ≤ f)

one-Classes :
    (p : Place)
    → Classes
        (is_running p)
        (is_free p)
        (wants_mutex p)
        (wants_w p)
        (at_counted p)
        (in_mutex p)
        (holds p)
        (is_writing p)
one-Classes ready = omega arith
one-Classes entered = omega arith
one-Classes counted = omega arith
one-Classes admitted = omega arith
one-Classes reading = omega arith
one-Classes leaving = omega arith
one-Classes uncounted = omega arith
one-Classes released = omega arith
one-Classes to_touch = omega arith
one-Classes touching = omega arith
one-Classes fetching = omega arith
one-Classes to_add = omega arith
one-Classes adding = omega arith
one-Classes done = omega arith

sum-Classes :
    (ps : List Place)
    → Classes
        (sum is_running ps)
        (sum is_free ps)
        (sum wants_mutex ps)
        (sum wants_w ps)
        (sum at_counted ps)
        (sum in_mutex ps)
        (sum holds ps)
        (sum is_writing ps)
sum-Classes [] = omega arith
sum-Classes (p ∷ ps) = omega (arith, one-Classes p, sum-Classes ps)

-- Whatever the thread's request, its next step is possible.
abbrev pub Able : Globals → Place → Type 0
Able g p = (go_on : Bool) → advance go_on p g ≢ none

-- 1 where the semaphores let a thread pass.
abbrev passes : Globals → Place → ℕ
passes g p =
    is_free p
    + (if g.mutex == 0 then 0 else wants_mutex p)
    + (if g.w == 0 then 0 else wants_w p)
    + (if (g.w == 0) && (g.readcnt == 1) then 0 else at_counted p)

passes-Able : (g : Globals) (p : Place) → 0 < passes g p → Able g p
unfolding advance
passes-Able g ready free go_on e = ground (arith, free, e)
passes-Able g entered free go_on e = ground (arith, e)
passes-Able g counted free go_on e = ground (arith, free, e)
passes-Able g admitted free go_on e = ground (arith, e)
passes-Able g reading free go_on e = ground (arith, free, e)
passes-Able g leaving free go_on e = ground (arith, e)
passes-Able g uncounted free go_on e = ground (arith, e)
passes-Able g released free go_on e = ground (arith, e)
passes-Able g to_touch free go_on e = ground (arith, free, e)
passes-Able g touching free go_on e = ground (arith, e)
passes-Able g fetching free go_on e = ground (arith, e)
passes-Able g to_add free go_on e = ground (arith, free, e)
passes-Able g adding free go_on e = ground (arith, e)
passes-Able g done free go_on e = absurd (ground (arith, free))

sum-+ : (f f' : Place → ℕ) (ps : List Place) → sum (λ p. f p + f' p) ps ≡ sum f ps + sum f' ps
sum-+ f f' [] = omega arith
sum-+ f f' (p ∷ ps) = omega (arith, sum-+ f f' ps)

sum-if :
    (b : Bool) (f : Place → ℕ) (ps : List Place)
    → sum (λ p. if b then 0 else f p) ps ≡ (if b then 0 else sum f ps)
sum-if true f [] = refl
sum-if true f (p ∷ ps) = omega (arith, sum-if true f ps)
sum-if false f ps = refl

sum-passes :
    (g : Globals) (ps : List Place)
    → sum (passes g) ps
      ≡ sum is_free ps
        + (if g.mutex == 0 then 0 else sum wants_mutex ps)
        + (if g.w == 0 then 0 else sum wants_w ps)
        + (if (g.w == 0) && (g.readcnt == 1) then 0 else sum at_counted ps)
sum-passes g ps =
    let no_mutex = g.mutex == 0 in
    let no_w = g.w == 0 in
    let first_of_all = no_w && (g.readcnt == 1) in
    let mutex = λ (p : Place). if no_mutex then 0 else wants_mutex p in
    let w = λ (p : Place). if no_w then 0 else wants_w p in
    let first = λ (p : Place). if first_of_all then 0 else at_counted p in
    omega (
      arith,
      sum-+ (λ p. is_free p + mutex p + w p) first ps,
      sum-+ (λ p. is_free p + mutex p) w ps,
      sum-+ is_free mutex ps,
      sum-if no_mutex wants_mutex ps,
      sum-if no_w wants_w ps,
      sum-if first_of_all at_counted ps,
    )

-- A thread that the count counts.
abbrev pub Found : (Place → ℕ) → List Place → Type 0
Found f ts =
    (before : List Place) × (p : Place) × (after : List Place) × (ts ≡ before ++ p ∷ after)
    × (0 < f p)

sum-Found : (f : Place → ℕ) (ts : List Place) → 0 < sum f ts → Found f ts
sum-Found f [] some_one = absurd (omega (arith, some_one))
sum-Found f (p ∷ ts) some_one = elim (Bool-cases (f p == 0)) [
  | inr here ↦ ([], p, ts, refl, ground (arith, here))
  | inl none_here ↦
      let (before, q, after, at, counts) = sum-Found f ts (ground (arith, none_here, some_one)) in
      (p ∷ before, q, after, ap (λ (l : List Place). p ∷ l) at, counts)
]

some-passes :
    (g : Globals) (ps : List Place)
    → Ordered g (sum in_mutex ps) (sum is_counted ps) (sum holds ps) (sum is_writing ps)
    → 0 < sum is_running ps
    → 0 < sum (passes g) ps
some-passes g ps i running =
    let rel = sum-Related ps in
    let classes = sum-Classes ps in
    let passes = sum-passes g ps in
    ground (arith, rel, classes, passes, i.mutex_once, i.readers, i.w_once, running)

-- In every state that the threads of the proxy reach, if some thread is not at its end, there is a
-- thread whose next step no semaphore holds up, whatever its request.
pub Reachable-progress :
    (s : System)
    → Reachable s
    → 0 < sum is_running s.threads
    → (before : List Place) × (p : Place) × (after : List Place) × (s.threads ≡ before ++ p ∷ after)
      × ((go_on : Bool) → advance go_on p s.globals ≢ none)
Reachable-progress s reach running =
    let i = Reachable-Invariant reach in
    let (before, p, after, at, counts) =
      sum-Found (passes s.globals) s.threads (some-passes s.globals s.threads i running) in
    (before, p, after, at, passes-Able s.globals p counts)
