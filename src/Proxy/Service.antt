-- ===== src/Proxy/Service.antt =====
-- `forward_to_server` and `forward_from_server` of proxy.c as one thread runs them. The client's
-- lines, the server's answer and whether each write to the client succeeds are arguments.
pub mod Relayed
pub mod Hit
use introduction_to_computer.Base.{
  ℕ, ◌+◌, CString, str_eq, length, leb, ltb, Bool, true, false, not, ◌&&◌, Option, none, some, List,
  [], ◌∷◌, ◌++◌, map, if◌then◌else◌,
}
use introduction_to_computer.Proxy.Text.{crlf, get_name, get_prefix, http_version}
use introduction_to_computer.Proxy.ClientError.{clienterror}
use introduction_to_computer.Proxy.Uri.{Target, parse_uri}
use introduction_to_computer.Proxy.Headers.{Header, read_request_header, write_request_header}
use introduction_to_computer.Proxy.Queue.{
  Cache, max_object_size, Found, found, not_found, bad_pointer, out_of_fuel, find_node,
  delete_from_cache, add_to_cache,
}

-- The variables of the loop that reads from the server, and what was written to the client.
pub record Relay : Type 0 where
  pub sent : List CString
  pub new_cache_buf : CString
  pub new_size : ℕ
  pub buf_entry_invalid : Bool

-- `memcpy(&new_cache_buf[pos], ...)` while the response fits.
unfoldable pub store : CString → Relay → Relay
store l r =
    let size = r.new_size + length l in
    if leb size max_object_size
    then record r { sent = r.sent ++ l ∷ []; new_cache_buf = r.new_cache_buf ++ l; new_size = size }
    else record r { sent = r.sent ++ l ∷ []; new_size = size; buf_entry_invalid = true }

-- Each line of the server, and whether writing it to the client succeeds.
unfoldable pub relay : List (CString × Bool) → Relay → Relay
unfolding store
relay [] r = r
relay ((l, ok) ∷ lines) r =
    let more = relay lines (store l r) in if ok then more else record r { buf_entry_invalid = true }

abbrev pub relay_start : Relay
relay_start = record { sent = []; new_cache_buf = []; new_size = 0; buf_entry_invalid = false }

-- What was written to the two sockets, and the cache; no cache if a pointer was bad.
pub record Traffic : Type 0 where
  pub cache : Option Cache
  pub to_client : List CString
  pub to_server : List CString

abbrev pub Server : Type 0
Server = (host port : CString) → (request : List CString) → List (CString × Bool)

-- `if(buf_entry_invalid == 0) add_to_cache(...)`
unfoldable pub keep : (uri : CString) → Relay → Cache → Option Cache
keep uri r s = if r.buf_entry_invalid then some s else add_to_cache uri r.new_cache_buf r.new_size s

unfoldable pub fetch : Server → (uri : CString) → Target → Header → Cache → Traffic
unfolding relay keep
fetch server uri target h s =
    let request =
      (get_prefix ++ (target.query ++ http_version)) ∷ write_request_header h target.host in
    let r = relay (server target.host target.port request) relay_start in
    record { cache = keep uri r s; to_client = r.sent; to_server = request }

abbrev pub quiet : Option Cache → Traffic
quiet s = record { cache = s; to_client = []; to_server = [] }

unfoldable pub forward_from_server : Server → (uri : CString) → Target → Header → Cache → Traffic
unfolding fetch
forward_from_server server uri target h s = elim (find_node uri s) [
  | found a ↦ quiet (some s)
  | not_found ↦ fetch server uri target h s
  | bad_pointer ↦ quiet none
  | out_of_fuel ↦ quiet none
]

-- The writers' section: an element that was found goes to the front.
unfoldable pub touch : (uri : CString) → Cache → Option Cache
touch uri s = elim (find_node uri s) [
  | not_found ↦ some s
  | bad_pointer ↦ none
  | out_of_fuel ↦ none
  | found a ↦ elim (s.nodes a) [
    | none ↦ none
    | some e ↦ elim (delete_from_cache (some a) s) [
      | none ↦ none
      | some t ↦ add_to_cache uri e.cache_buf e.size t
    ]
  ]
]

-- The readers' section: what it writes to the client. The size of an element is the length of its
-- buffer, as `forward_from_server` stores it.
unfoldable pub serve : (uri : CString) → Cache → List CString
serve uri s = elim (find_node uri s) [
  | found a ↦ elim (s.nodes a) [ none ↦ [] | some e ↦ e.cache_buf ∷ [] ]
  | _ ↦ []
]

unfoldable pub answer : Server → (uri : CString) → Target → Header → Cache → Traffic
unfolding serve touch forward_from_server
answer server uri target h s = elim (touch uri s) [
  | none ↦ record { cache = none; to_client = serve uri s; to_server = [] }
  | some t ↦
      let rest = forward_from_server server uri target h t in
      record rest { to_client = serve uri s ++ rest.to_client }
]

-- `strcasecmp`, by the letters in lower case
abbrev pub lower : ℕ → ℕ
lower c = if leb 65 c && leb c 90 then c + 32 else c

abbrev pub is_get : CString → Bool
is_get method = str_eq (map lower method) get_name

-- How `forward_to_server` goes on: it returns, reads headers for ever, or reads through NULL.
pub data Served : Type 0 where
  served : Traffic → Served
  endless : Served
  bad_uri : Served

-- `method` and `uri` are what `sscanf` reads from the request line.
unfoldable pub forward_to_server :
    Server
    → (stale : ℕ → ℕ) → (sscanf : CString → CString × CString) → List CString
    → Cache
    → Served
unfolding answer
forward_to_server server stale sscanf [] s = served (quiet (some s))
forward_to_server server stale sscanf (request_line ∷ lines) s =
    let (method, uri) = sscanf request_line in
    elim (read_request_header stale lines) [
      | none ↦ endless
      | some h ↦
          let answered : Served = elim (parse_uri uri) [
            | none ↦ bad_uri
            | some target ↦ served (answer server uri target h s)
          ] in
          if is_get method
          then answered
          else served (record { cache = some s; to_client = clienterror method; to_server = [] })
    ]
