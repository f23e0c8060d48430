-- ===== src/Proxy/Headers.antt =====
-- `read_request_header` and `write_request_header` of proxy.c. The lines that `Rio_readlineb`
-- returns are an argument; when there are no more it returns 0 and leaves the buffer as it was.
use introduction_to_computer.Base.{
  ℕ, zero, suc, CString, str_eq, contains, length, Bool, true, false, not, ◌&&◌, Option, none, some,
  List, [], ◌∷◌, ◌++◌, if◌then◌else◌,
}
use introduction_to_computer.Proxy.Text.{
  crlf, host_name, user_agent_name, accept_name, accept_encoding_name, connection_name,
  proxy_connection_name, user_agent_hdr, accept_hdr, accept_encoding_hdr, connection_hdr,
  proxy_connection_hdr, host_prefix,
}

-- `host_header` is an array of which `strncpy` sets only the first bytes.
pub record Header : Type 0 where
  pub host_header_found : Bool
  pub host_header : ℕ → ℕ
  pub header_body : CString

-- `strncpy(host_header, s, strlen(s))`: no zero is written behind the string.
unfoldable pub strncpy : (ℕ → ℕ) → CString → ℕ → ℕ
strncpy buf [] i = buf i
strncpy buf (c ∷ s) zero = c
strncpy buf (c ∷ s) (suc i) = strncpy (λ j. buf (suc j)) s i

abbrev pub is_host : CString → Bool
is_host buf = contains buf host_name

-- A header that the proxy does not write itself.
abbrev pub is_kept : CString → Bool
is_kept buf =
    not (contains buf user_agent_name)
    && not (contains buf accept_name)
    && not (contains buf accept_encoding_name)
    && not (contains buf connection_name)
    && not (contains buf proxy_connection_name)

-- What a round of the loop does with the line that it read.
unfoldable pub take_line : Header → CString → Header
unfolding strncpy
take_line h buf =
    if is_host buf
    then record h { host_header_found = true; host_header = strncpy h.host_header buf }
    else if is_kept buf
    then record h { header_body = h.header_body ++ buf }
    else h

-- The loop; `none` if it does not end, as when the lines end without an empty one.
unfoldable pub read_loop : (proxy_buf : CString) → List CString → Header → Option Header
unfolding take_line
read_loop proxy_buf [] h = if str_eq proxy_buf crlf then some h else none
read_loop proxy_buf (l ∷ lines) h =
    let more = read_loop l lines (take_line h l) in if str_eq proxy_buf crlf then some h else more

-- `strcpy(host_header, "")` and the like; `stale` is what the array of the caller held.
abbrev pub empty_header : (stale : ℕ → ℕ) → Header
empty_header stale = record {
  host_header_found = false;
  host_header = strncpy stale (0 ∷ []);
  header_body = [];
}

-- The first line is read before the loop.
unfoldable pub read_request_header : (stale : ℕ → ℕ) → List CString → Option Header
unfolding read_loop strncpy
read_request_header stale [] = read_loop [] [] (empty_header stale)
read_request_header stale (l ∷ lines) = read_loop l lines (empty_header stale)

-- The `n` bytes of an array from `i` on.
unfoldable pub bytes : (ℕ → ℕ) → (n i : ℕ) → CString
bytes buf zero i = []
bytes buf (suc n) i = buf i ∷ bytes buf n (suc i)

-- The `Host:` line: from the array with the length of the body, or from the host of the URI.
unfoldable pub host_line : Header → (host : CString) → CString
unfolding bytes
host_line h host =
    if h.host_header_found
    then bytes h.host_header (length h.header_body) 0
    else host_prefix ++ (host ++ crlf)

-- What each call of `Rio_writen` sends to the server.
unfoldable pub write_request_header : Header → (host : CString) → List CString
unfolding host_line
write_request_header h host =
    host_line h host
    ∷ user_agent_hdr
    ∷ accept_hdr
    ∷ accept_encoding_hdr
    ∷ connection_hdr
    ∷ (proxy_connection_hdr ++ crlf)
    ∷ h.header_body
    ∷ []
