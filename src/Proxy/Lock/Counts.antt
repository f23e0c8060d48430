-- ===== src/Proxy/Lock/Counts.antt =====
-- How many threads of proxy.c are where.
use introduction_to_computer.Base.{ℕ, ◌+◌, ◌≤◌, ◌≡◌, List, [], ◌∷◌, ◌++◌, arith}
use introduction_to_computer.Proxy.Lock.{
  Place, ready, entered, counted, admitted, reading, leaving, uncounted, released, to_touch,
  touching, fetching, to_add, adding, done,
}

abbrev pub sum : (Place → ℕ) → List Place → ℕ
sum f [] = 0
sum f (p ∷ ps) = f p + sum f ps

pub sum-append :
    (f : Place → ℕ) (ps : List Place) (q : Place) (qs : List Place)
    → sum f (ps ++ q ∷ qs) ≡ f q + (sum f ps + sum f qs)
sum-append f [] q qs = omega arith
sum-append f (p ∷ ps) q qs = omega (arith, sum-append f ps q qs)

-- Between `P(&mutex)` and `V(&mutex)`.
abbrev pub in_mutex : Place → ℕ
in_mutex entered = 1
in_mutex counted = 1
in_mutex admitted = 1
in_mutex leaving = 1
in_mutex uncounted = 1
in_mutex released = 1
in_mutex _ = 0

-- Between `readcnt++` and `readcnt--`.
abbrev pub is_counted : Place → ℕ
is_counted counted = 1
is_counted admitted = 1
is_counted reading = 1
is_counted leaving = 1
is_counted _ = 0

-- Where the readers hold `w`.
abbrev pub holds : Place → ℕ
holds admitted = 1
holds reading = 1
holds leaving = 1
holds uncounted = 1
holds _ = 0

abbrev pub at_counted : Place → ℕ
at_counted counted = 1
at_counted _ = 0

abbrev pub at_uncounted : Place → ℕ
at_uncounted uncounted = 1
at_uncounted _ = 0

-- In the readers' section of `forward_to_server`.
abbrev pub is_reading : Place → ℕ
is_reading reading = 1
is_reading _ = 0

-- In a writers' section.
abbrev pub is_writing : Place → ℕ
is_writing touching = 1
is_writing adding = 1
is_writing _ = 0

-- How the counts of one place hang together.
abbrev pub Related : (m c h a u r : ℕ) → Type 0
Related m c h a u r = (c + u ≡ h + a) × (a + u ≤ m) × (r ≤ h)

one-Related :
    (p : Place)
    → Related (in_mutex p) (is_counted p) (holds p) (at_counted p) (at_uncounted p) (is_reading p)
one-Related ready = omega arith
one-Related entered = omega arith
one-Related counted = omega arith
one-Related admitted = omega arith
one-Related reading = omega arith
one-Related leaving = omega arith
one-Related uncounted = omega arith
one-Related released = omega arith
one-Related to_touch = omega arith
one-Related touching = omega arith
one-Related fetching = omega arith
one-Related to_add = omega arith
one-Related adding = omega arith
one-Related done = omega arith

pub sum-Related :
    (ps : List Place)
    → Related
        (sum in_mutex ps)
        (sum is_counted ps)
        (sum holds ps)
        (sum at_counted ps)
        (sum at_uncounted ps)
        (sum is_reading ps)
sum-Related [] = omega arith
sum-Related (p ∷ ps) = omega (arith, one-Related p, sum-Related ps)
