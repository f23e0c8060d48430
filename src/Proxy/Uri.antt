-- ===== src/Proxy/Uri.antt =====
-- `parse_uri` of proxy.c on the URI without `http://`.
use introduction_to_computer.Base.{CString, index, Option, none, some, [], ◌∷◌}
use introduction_to_computer.Proxy.Text.{http_port}

pub record Target : Type 0 where
  pub host : CString
  pub query : CString
  pub port : CString

abbrev pub drop_1 : CString → CString
drop_1 [] = []
drop_1 (c ∷ s) = s

-- The host and the port, by the colon in `hostname` if there is one.
unfoldable pub split_hostname : (hostname query : CString) → Target
split_hostname hostname query = elim (index hostname b':') [
  | some (host, from_colon) ↦ record { host = host; query = query; port = drop_1 from_colon }
  | none ↦ record { host = hostname; query = query; port = http_port }
]

-- `none` is a read through NULL, which `strcpy` does when there is no slash.
unfoldable pub parse_uri : CString → Option Target
unfolding split_hostname
parse_uri uri = elim (index uri b'/') [
  | none ↦ none
  | some (hostname, query) ↦ some (split_hostname hostname query)
]
