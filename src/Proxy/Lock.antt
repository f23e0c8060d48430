-- ===== src/Proxy/Lock.antt =====
-- The semaphores of proxy.c: one thread's way through `forward_to_server` and
-- `forward_from_server`, and any number of threads in any order.
pub mod Counts
pub mod Exclusion
pub mod Progress
use introduction_to_computer.Base.{
  ℕ, zero, suc, ◌+◌, ◌-◌, ◌==◌, ◌≡◌, Bool, true, false, Option, none, some, List, [], ◌∷◌, ◌++◌,
  if◌then◌else◌,
}

-- The semaphores `mutex` and `w`, and `readcnt`.
pub record Globals : Type 0 where
  pub mutex : ℕ
  pub w : ℕ
  pub readcnt : ℕ

-- Where a thread is: in front of the readers' section; in it, behind `P(&mutex)`, behind
-- `readcnt++` and in front of `V(&mutex)`; at `find_node`; the same on the way out; in front of the
-- writers' section and in it; in `forward_from_server`, and in its writers' section; at the end.
pub data Place : Type 0 where
  ready entered counted admitted reading leaving uncounted released : Place
  to_touch touching fetching to_add adding done : Place

-- `P(&w)` and `P(&mutex)`: no step while the semaphore is 0.
abbrev pub p_w : Place → Globals → Option (Place × Globals)
p_w next g = if g.w == 0 then none else some (next, record g { w = g.w - 1 })

abbrev pub p_mutex : Place → Globals → Option (Place × Globals)
p_mutex next g = if g.mutex == 0 then none else some (next, record g { mutex = g.mutex - 1 })

-- `V(&w)` and `V(&mutex)`
abbrev pub v_w : Place → Globals → Option (Place × Globals)
v_w next g = some (next, record g { w = g.w + 1 })

abbrev pub v_mutex : Place → Globals → Option (Place × Globals)
v_mutex next g = some (next, record g { mutex = g.mutex + 1 })

-- The thread's next step; `go_on` is false where a request that is not a GET, an object that is in
-- the cache, or one that cannot be cached makes the thread return.
unfoldable pub advance : (go_on : Bool) → Place → Globals → Option (Place × Globals)
advance go_on ready g = if go_on then p_mutex entered g else some (done, g)
advance go_on entered g = some (counted, record g { readcnt = g.readcnt + 1 })
advance go_on counted g = if g.readcnt == 1 then p_w admitted g else some (admitted, g)
advance go_on admitted g = v_mutex reading g
advance go_on reading g = p_mutex leaving g
advance go_on leaving g = some (uncounted, record g { readcnt = g.readcnt - 1 })
advance go_on uncounted g = if g.readcnt == 0 then v_w released g else some (released, g)
advance go_on released g = v_mutex to_touch g
advance go_on to_touch g = p_w touching g
advance go_on touching g = v_w fetching g
advance go_on fetching g = some (if go_on then to_add else done, g)
advance go_on to_add g = p_w adding g
advance go_on adding g = v_w done g
advance go_on done g = none

-- The threads and what they share.
pub record System : Type 0 where
  pub globals : Globals
  pub threads : List Place

-- Some thread makes its next step.
pub data Step : System → System → Type 0 where
  step :
      (go_on : Bool) (p q : Place) (g g' : Globals) (before after : List Place)
      → advance go_on p g ≡ some (q, g')
      → Step
          (record { globals = g; threads = before ++ p ∷ after })
          (record { globals = g'; threads = before ++ q ∷ after })

-- Reached from the start by a sequence of steps; `read_from_client` may add a thread at any time.
pub data Reachable : System → Type 0 where
  start : Reachable (record { globals = record { mutex = 1; w = 1; readcnt = 0 }; threads = [] })
  spawn :
      {g : Globals} {ts : List Place}
      → Reachable (record { globals = g; threads = ts })
      → Reachable (record { globals = g; threads = ready ∷ ts })
  move : {s t : System} → Reachable s → Step s t → Reachable t
