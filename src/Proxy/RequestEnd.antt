-- ===== src/Proxy/RequestEnd.antt =====
-- Where the request that proxy.c sends to the server ends.
use introduction_to_computer.Base.{
  append_assoc, ◌≤◌, length, ℕ, zero, suc, ◌≡◌, refl, ap, ◌∙◌, CString, concat, List, is_prefix,
  true, false, [], ◌∷◌, ◌++◌, if◌then◌else◌, arith,
}
use introduction_to_computer.Proxy.Text.{
  crlf, user_agent_hdr, accept_hdr, accept_encoding_hdr, connection_hdr, proxy_connection_hdr,
  host_prefix,
}
use introduction_to_computer.Proxy.Headers.{Header, host_line, bytes, strncpy, write_request_header}
use introduction_to_computer.Proxy.UriPrint.{Lacks}

-- The request line and headers as a server reads them: up to the first empty line.
unfoldable pub header_block : CString → CString
unfolding is_prefix
header_block [] = []
header_block (c ∷ s) = if is_prefix (crlf ++ crlf) (c ∷ s) then crlf ++ crlf else c ∷ header_block s

header_block-plain : (s t : CString) → Lacks 13 s → header_block (s ++ t) ≡ s ++ header_block t
unfolding header_block is_prefix
header_block-plain [] t plain = refl
header_block-plain (c ∷ s) t plain = ground (arith, header_block-plain s t plain.1)

-- The headers that the proxy writes itself, with the empty line that it writes behind them.
abbrev pub defaults : List CString
defaults =
    user_agent_hdr
    ∷ accept_hdr
    ∷ accept_encoding_hdr
    ∷ connection_hdr
    ∷ (proxy_connection_hdr ++ crlf)
    ∷ []

abbrev pub rest : CString → CString
rest body = concat (defaults ++ body ∷ [])

defaults-end : (body : CString) → header_block (crlf ++ rest body) ≡ crlf ++ concat defaults
unfolding header_block is_prefix
defaults-end body = refl

-- If the client sent no `Host:` and the host of the URI holds no carriage return, what a server
-- reads as the headers is the `Host:` line and the defaults: the body, in which the other headers
-- of the client are, comes after the empty line.
pub write_request_header-end :
    (h : Header) (host : CString)
    → h.host_header_found ≡ false
    → Lacks 13 host
    → header_block (concat (write_request_header h host))
      ≡ concat (host_prefix ∷ host ∷ crlf ∷ defaults)
unfolding write_request_header host_line
write_request_header-end h host none plain = rw none (
    ap header_block (
      append_assoc host_prefix (host ++ crlf) (rest h.header_body)
      ∙ ap (λ t. host_prefix ++ t) (append_assoc host crlf (rest h.header_body)))
    ∙ header_block-plain host_prefix (host ++ (crlf ++ rest h.header_body))
        (refl, (refl, (refl, (refl, (refl, (refl, tt))))))
    ∙ ap (λ t. host_prefix ++ t)
        (header_block-plain host (crlf ++ rest h.header_body) plain
          ∙ ap (λ t. host ++ t) (defaults-end h.header_body)))

abbrev pub take : ℕ → CString → CString
take zero s = []
take (suc n) [] = []
take (suc n) (c ∷ s) = c ∷ take n s

bytes-shift : (buf : ℕ → ℕ) (n i : ℕ) → bytes buf n (suc i) ≡ bytes (λ j. buf (suc j)) n i
unfolding bytes
bytes-shift buf zero i = refl
bytes-shift buf (suc n) i = ap (λ t. buf (suc i) ∷ t) (bytes-shift buf n (suc i))

bytes-strncpy :
    (n : ℕ) (buf : ℕ → ℕ) (l : CString) → n ≤ length l → bytes (strncpy buf l) n 0 ≡ take n l
unfolding bytes strncpy
bytes-strncpy zero buf l h = refl
bytes-strncpy (suc n) buf [] h = absurd (omega arith)
bytes-strncpy (suc n) buf (c ∷ l) h =
    ap (λ t. c ∷ t)
      (bytes-shift (strncpy buf (c ∷ l)) n 0 ∙ bytes-strncpy n (λ j. buf (suc j)) l (omega arith))

-- If the client sent `Host:`, the first bytes sent are as many bytes of the `Host:` array as the
-- body is long: with a body shorter than the line, `Host:` is cut off.
pub write_request_header-cut :
    (stale : ℕ → ℕ) (l host body : CString)
    → length body ≤ length l
    → concat (
        write_request_header
          (record { host_header_found = true; host_header = strncpy stale l; header_body = body })
          host)
      ≡ take (length body) l ++ rest body
unfolding write_request_header host_line
write_request_header-cut stale l host body short =
    ap (λ t. t ++ rest body) (bytes-strncpy (length body) stale l short)
