-- ===== src/Proxy/UriPrint.antt =====
-- `parse_uri` of proxy.c reads back the URIs that are written from their parts.
use introduction_to_computer.Base.{
  ℕ, CString, index, Option, none, some, [], ◌∷◌, ◌++◌, ◌≡◌, refl, false, ◌==◌, arith,
}
use introduction_to_computer.Proxy.Text.{http_port}
use introduction_to_computer.Proxy.Uri.{split_hostname, parse_uri}

-- The character is not in the string.
abbrev pub Lacks : ℕ → CString → Type 0
Lacks c [] = Unit {0}
Lacks c (d ∷ s) = ((d == c) ≡ false) × Lacks c s

pub index-found : (s t : CString) (c : ℕ) → Lacks c s → index (s ++ c ∷ t) c ≡ some (s, c ∷ t)
unfolding index
index-found [] t c lacks = ground arith
index-found (d ∷ s) t c lacks = rw (lacks.0, index-found s t c lacks.1)

pub index-absent : (s : CString) (c : ℕ) → Lacks c s → index s c ≡ none
unfolding index
index-absent [] c lacks = refl
index-absent (d ∷ s) c lacks = rw (lacks.0, index-absent s c lacks.1)

Lacks-append : (c : ℕ) (s t : CString) → Lacks c s → Lacks c t → Lacks c (s ++ t)
Lacks-append c [] t p q = q
Lacks-append c (d ∷ s) t p q = (p.0, Lacks-append c s t p.1 q)

append-cons : (s t : CString) (c : ℕ) (u : CString) → (s ++ c ∷ t) ++ u ≡ s ++ c ∷ (t ++ u)
append-cons [] t c u = refl
append-cons (d ∷ s) t c u = rw (append-cons s t c u)

-- A URI without its scheme; the port is left out if there is none.
abbrev pub authority : CString → Option CString → CString
authority host none = host
authority host (some port) = host ++ b':' ∷ port

abbrev pub print_uri : CString → Option CString → CString → CString
print_uri host port path = authority host port ++ b'/' ∷ path

abbrev pub port_or_default : Option CString → CString
port_or_default none = http_port
port_or_default (some port) = port

abbrev pub PortPlain : Option CString → Type 0
PortPlain none = Unit {0}
PortPlain (some port) = Lacks b'/' port

authority-Lacks :
    (host : CString) (port : Option CString)
    → Lacks b'/' host
    → PortPlain port
    → Lacks b'/' (authority host port)
authority-Lacks host none plain h = plain
authority-Lacks host (some port) plain h = Lacks-append b'/' host (b':' ∷ port) plain (refl, h)

split_hostname-authority :
    (host : CString) (port : Option CString) (query : CString)
    → Lacks b':' host
    → split_hostname (authority host port) query
      ≡ record { host = host; query = query; port = port_or_default port }
unfolding split_hostname
split_hostname-authority host none query plain =
    rw (index-absent host b':' plain, split_hostname) refl
split_hostname-authority host (some port) query plain =
    rw (index-found host port b':' plain, split_hostname) refl

-- If the host holds neither a slash nor a colon and the port, if one is given, holds no slash,
-- `parse_uri` finds in the URI the host, the path from its slash on, and the port, which is 80 if
-- none is given.
pub parse_uri-print :
    (host : CString) (port : Option CString) (path : CString)
    → Lacks b'/' host
    → Lacks b':' host
    → PortPlain port
    → parse_uri (print_uri host port path)
      ≡ some (record { host = host; query = b'/' ∷ path; port = port_or_default port })
unfolding parse_uri
parse_uri-print host port path no_slash no_colon plain = rw (
  index-found (authority host port) path b'/' (authority-Lacks host port no_slash plain),
  parse_uri,
  split_hostname-authority host port (b'/' ∷ path) no_colon,
)

-- On a URI without a slash `parse_uri` reads through NULL.
pub parse_uri-no_slash : (uri : CString) → Lacks b'/' uri → parse_uri uri ≡ none
unfolding parse_uri
parse_uri-no_slash uri lacks = rw (index-absent uri b'/' lacks, parse_uri) refl
