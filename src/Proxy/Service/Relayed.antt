-- ===== src/Proxy/Service/Relayed.antt =====
-- What proxy.c passes on from the server, and what it puts into the cache.
use introduction_to_computer.Base.{
  ℕ, ◌+◌, ◌<◌, ◌≤◌, ◌≡◌, refl, sym, ◌∙◌, ap, subst, CString, concat, length, length-append,
  append_assoc, append-nil, leb, Bool, true, some, List, [], ◌∷◌, ◌++◌, if◌then◌else◌, arith,
  Bool-cases, inl, inr,
}
use introduction_to_computer.Proxy.Queue.{
  Cache, max_object_size, not_found, find_node, add_to_cache,
}
use introduction_to_computer.Proxy.Uri.{Target}
use introduction_to_computer.Proxy.Headers.{Header}
use introduction_to_computer.Proxy.Service.{
  Relay, store, relay, relay_start, Traffic, Server, fetch, forward_from_server, keep,
}

-- Every write to the client succeeds.
abbrev pub all_sent : List CString → List (CString × Bool)
all_sent [] = []
all_sent (l ∷ ls) = (l, true) ∷ all_sent ls

-- What the loop has done, from the state `r`, once it has passed on `ls`.
record Relayed (r : Relay) (ls : List CString) (t : Relay) : Type 0 where
  pub passed : t.sent ≡ r.sent ++ ls
  pub size : t.new_size ≡ r.new_size + length (concat ls)
  pub fits :
      r.new_size + length (concat ls) ≤ max_object_size
      → (t.buf_entry_invalid ≡ r.buf_entry_invalid)
        × (t.new_cache_buf ≡ r.new_cache_buf ++ concat ls)
  pub too_big :
      r.new_size ≤ max_object_size
      → max_object_size < r.new_size + length (concat ls)
      → t.buf_entry_invalid ≡ true
  pub stays : r.buf_entry_invalid ≡ true → t.buf_entry_invalid ≡ true

append-one : (a : List CString) (l : CString) (b : List CString) → (a ++ l ∷ []) ++ b ≡ a ++ l ∷ b
append-one a l b = append_assoc a (l ∷ []) b

-- The state after a line that fits, and after one that does not.
abbrev stored : CString → Relay → Relay
stored l r = record r {
  sent = r.sent ++ l ∷ [];
  new_cache_buf = r.new_cache_buf ++ l;
  new_size = r.new_size + length l;
}

abbrev refused : CString → Relay → Relay
refused l r = record r {
  sent = r.sent ++ l ∷ [];
  new_size = r.new_size + length l;
  buf_entry_invalid = true;
}

stored-Relayed :
    (l : CString) (ls : List CString) (r t : Relay)
    → r.new_size + length l ≤ max_object_size
    → Relayed (stored l r) ls t
    → Relayed r (l ∷ ls) t
stored-Relayed l ls r t room rec =
    let sizes = length-append l (concat ls) in
    record {
      passed = rec.passed ∙ append-one r.sent l ls;
      size = omega (arith, sizes, rec.size);
      fits = λ h.
          let (flag, buf) = rec.fits (omega (arith, sizes, h)) in
          (flag, buf ∙ append_assoc r.new_cache_buf l (concat ls));
      too_big = λ small big. rec.too_big room (omega (arith, sizes, big));
      stays = rec.stays;
    }

refused-Relayed :
    (l : CString) (ls : List CString) (r t : Relay)
    → max_object_size < r.new_size + length l
    → Relayed (refused l r) ls t
    → Relayed r (l ∷ ls) t
refused-Relayed l ls r t full rec =
    let sizes = length-append l (concat ls) in
    record {
      passed = rec.passed ∙ append-one r.sent l ls;
      size = omega (arith, sizes, rec.size);
      fits = λ h. absurd (omega (arith, sizes, h, full));
      too_big = λ small big. rec.stays refl;
      stays = λ e. rec.stays refl;
    }

relay-Relayed : (ls : List CString) (r : Relay) → Relayed r ls (relay (all_sent ls) r)
unfolding relay store
relay-Relayed [] r = record {
  passed = sym (append-nil r.sent);
  size = omega arith;
  fits = λ _. (refl, sym (append-nil r.new_cache_buf));
  too_big = λ small big. absurd (omega (arith, small, big));
  stays = λ e. e;
}
relay-Relayed (l ∷ ls) r = elim (Bool-cases (leb (r.new_size + length l) max_object_size)) [
  | inl room ↦
      rw room (stored-Relayed l ls r _ (ground (arith, room)) (relay-Relayed ls (stored l r)))
  | inr full ↦
      rw full (refused-Relayed l ls r _ (ground (arith, full)) (relay-Relayed ls (refused l r)))
]

-- The client was sent `lines`, and the cache `s` took them in under `uri` if they fit.
abbrev pub PassedOn : (uri : CString) → List CString → Cache → Traffic → Type 0
PassedOn uri lines s t =
    (t.to_client ≡ lines)
    × (t.cache ≡ (
        if leb (length (concat lines)) max_object_size
        then add_to_cache uri (concat lines) (length (concat lines)) s
        else some s))

keep-Relayed :
    (uri : CString) (lines : List CString) (s : Cache) (r : Relay)
    → Relayed relay_start lines r
    → keep uri r s ≡ (
        if leb (length (concat lines)) max_object_size
        then add_to_cache uri (concat lines) (length (concat lines)) s
        else some s)
unfolding keep
keep-Relayed uri lines s r done = elim (Bool-cases (leb (length (concat lines)) max_object_size)) [
  | inl room ↦
      let (flag, buf) = done.fits (ground (arith, room)) in
      rw (room, flag, buf)
        (ap (λ (n : ℕ). add_to_cache uri (concat lines) n s) (omega (arith, done.size)))
  | inr full ↦ let flag = done.too_big (omega arith) (ground (arith, full)) in rw (full, flag) refl
]

fetch-PassedOn :
    (server : Server) (uri : CString) (target : Target) (h : Header) (s : Cache)
    (lines : List CString)
    → ((request : List CString) → server target.host target.port request ≡ all_sent lines)
    → PassedOn uri lines s (fetch server uri target h s)
unfolding fetch
fetch-PassedOn server uri target h s lines answers =
    let done = relay-Relayed lines relay_start in
    let same = answers (fetch server uri target h s).to_server in
    (
      ap (λ (ls : List (CString × Bool)). (relay ls relay_start).sent) same ∙ done.passed,
      ap (λ (ls : List (CString × Bool)). keep uri (relay ls relay_start) s) same
          ∙ keep-Relayed uri lines s (relay (all_sent lines) relay_start) done,
    )

miss-fetch :
    (server : Server) (uri : CString) (target : Target) (h : Header) (s : Cache)
    → find_node uri s ≡ not_found
    → fetch server uri target h s ≡ forward_from_server server uri target h s
unfolding forward_from_server
miss-fetch server uri target h s miss = rw (miss, forward_from_server) refl

-- If the URI is not in the cache and every write to the client succeeds, the client is sent the
-- lines of the server, in order, and the server's whole response is added to the cache under the
-- URI if it is no longer than MAX_OBJECT_SIZE; else the cache stays as it was.
pub forward_from_server-miss :
    (server : Server) (uri : CString) (target : Target) (h : Header) (s : Cache)
    (lines : List CString)
    → find_node uri s ≡ not_found
    → ((request : List CString) → server target.host target.port request ≡ all_sent lines)
    → PassedOn uri lines s (forward_from_server server uri target h s)
forward_from_server-miss server uri target h s lines miss answers =
    subst (PassedOn uri lines s) (miss-fetch server uri target h s miss)
      (fetch-PassedOn server uri target h s lines answers)
