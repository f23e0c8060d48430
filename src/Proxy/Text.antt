-- ===== src/Proxy/Text.antt =====
-- The strings of proxy.c, as bytes.
use introduction_to_computer.Base.{CString, [], ◌∷◌}

abbrev pub crlf : CString
crlf = 13 ∷ 10 ∷ []

abbrev pub host_name : CString
host_name = b'H' ∷ b'o' ∷ b's' ∷ b't' ∷ b':' ∷ []

abbrev pub user_agent_name : CString
user_agent_name = b'U' ∷ b's' ∷ b'e' ∷ b'r' ∷ b'-' ∷ b'A' ∷ b'g' ∷ b'e' ∷ b'n' ∷ b't' ∷ b':' ∷ []

abbrev pub accept_name : CString
accept_name = b'A' ∷ b'c' ∷ b'c' ∷ b'e' ∷ b'p' ∷ b't' ∷ b':' ∷ []

abbrev pub accept_encoding_name : CString
accept_encoding_name =
    b'A' ∷ b'c' ∷ b'c' ∷ b'e' ∷ b'p' ∷ b't' ∷ b'-' ∷ b'E' ∷ b'n' ∷ b'c' ∷ b'o' ∷ b'd' ∷ b'i' ∷ b'n'
    ∷ b'g' ∷ b':' ∷ []

abbrev pub connection_name : CString
connection_name = b'C' ∷ b'o' ∷ b'n' ∷ b'n' ∷ b'e' ∷ b'c' ∷ b't' ∷ b'i' ∷ b'o' ∷ b'n' ∷ b':' ∷ []

abbrev pub proxy_connection_name : CString
proxy_connection_name =
    b'P' ∷ b'r' ∷ b'o' ∷ b'x' ∷ b'y' ∷ b'-' ∷ b'C' ∷ b'o' ∷ b'n' ∷ b'n' ∷ b'e' ∷ b'c' ∷ b't' ∷ b'i'
    ∷ b'o' ∷ b'n' ∷ []

abbrev pub user_agent_hdr : CString
user_agent_hdr =
    b'U' ∷ b's' ∷ b'e' ∷ b'r' ∷ b'-' ∷ b'A' ∷ b'g' ∷ b'e' ∷ b'n' ∷ b't' ∷ b':' ∷ b' ' ∷ b'M' ∷ b'o'
    ∷ b'z' ∷ b'i' ∷ b'l' ∷ b'l' ∷ b'a' ∷ b'/' ∷ b'5' ∷ b'.' ∷ b'0' ∷ b' ' ∷ b'(' ∷ b'X' ∷ b'1'
    ∷ b'1' ∷ b';' ∷ b' ' ∷ b'L' ∷ b'i' ∷ b'n' ∷ b'u' ∷ b'x' ∷ b' ' ∷ b'x' ∷ b'8' ∷ b'6' ∷ b'_'
    ∷ b'6' ∷ b'4' ∷ b';' ∷ b' ' ∷ b'r' ∷ b'v' ∷ b':' ∷ b'1' ∷ b'0' ∷ b'.' ∷ b'0' ∷ b'.' ∷ b'3'
    ∷ b')' ∷ b' ' ∷ b'G' ∷ b'e' ∷ b'c' ∷ b'k' ∷ b'o' ∷ b'/' ∷ b'2' ∷ b'0' ∷ b'1' ∷ b'2' ∷ b'0'
    ∷ b'3' ∷ b'0' ∷ b'5' ∷ b' ' ∷ b'F' ∷ b'i' ∷ b'r' ∷ b'e' ∷ b'f' ∷ b'o' ∷ b'x' ∷ b'/' ∷ b'1'
    ∷ b'0' ∷ b'.' ∷ b'0' ∷ b'.' ∷ b'3' ∷ 13 ∷ 10 ∷ []

abbrev pub accept_hdr : CString
accept_hdr =
    b'A' ∷ b'c' ∷ b'c' ∷ b'e' ∷ b'p' ∷ b't' ∷ b':' ∷ b' ' ∷ b't' ∷ b'e' ∷ b'x' ∷ b't' ∷ b'/' ∷ b'h'
    ∷ b't' ∷ b'm' ∷ b'l' ∷ b',' ∷ b'a' ∷ b'p' ∷ b'p' ∷ b'l' ∷ b'i' ∷ b'c' ∷ b'a' ∷ b't' ∷ b'i'
    ∷ b'o' ∷ b'n' ∷ b'/' ∷ b'x' ∷ b'h' ∷ b't' ∷ b'm' ∷ b'l' ∷ b'+' ∷ b'x' ∷ b'm' ∷ b'l' ∷ b','
    ∷ b'a' ∷ b'p' ∷ b'p' ∷ b'l' ∷ b'i' ∷ b'c' ∷ b'a' ∷ b't' ∷ b'i' ∷ b'o' ∷ b'n' ∷ b'/' ∷ b'x'
    ∷ b'm' ∷ b'l' ∷ b';' ∷ b'q' ∷ b'=' ∷ b'0' ∷ b'.' ∷ b'9' ∷ b',' ∷ b'*' ∷ b'/' ∷ b'*' ∷ b';'
    ∷ b'q' ∷ b'=' ∷ b'0' ∷ b'.' ∷ b'8' ∷ 13 ∷ 10 ∷ []

abbrev pub accept_encoding_hdr : CString
accept_encoding_hdr =
    b'A' ∷ b'c' ∷ b'c' ∷ b'e' ∷ b'p' ∷ b't' ∷ b'-' ∷ b'E' ∷ b'n' ∷ b'c' ∷ b'o' ∷ b'd' ∷ b'i' ∷ b'n'
    ∷ b'g' ∷ b':' ∷ b' ' ∷ b'g' ∷ b'z' ∷ b'i' ∷ b'p' ∷ b',' ∷ b' ' ∷ b'd' ∷ b'e' ∷ b'f' ∷ b'l'
    ∷ b'a' ∷ b't' ∷ b'e' ∷ 13 ∷ 10 ∷ []

abbrev pub connection_hdr : CString
connection_hdr =
    b'C' ∷ b'o' ∷ b'n' ∷ b'n' ∷ b'e' ∷ b'c' ∷ b't' ∷ b'i' ∷ b'o' ∷ b'n' ∷ b':' ∷ b' ' ∷ b'c' ∷ b'l'
    ∷ b'o' ∷ b's' ∷ b'e' ∷ 13 ∷ 10 ∷ []

abbrev pub proxy_connection_hdr : CString
proxy_connection_hdr =
    b'P' ∷ b'r' ∷ b'o' ∷ b'x' ∷ b'y' ∷ b'-' ∷ b'C' ∷ b'o' ∷ b'n' ∷ b'n' ∷ b'e' ∷ b'c' ∷ b't' ∷ b'i'
    ∷ b'o' ∷ b'n' ∷ b':' ∷ b' ' ∷ b'c' ∷ b'l' ∷ b'o' ∷ b's' ∷ b'e' ∷ 13 ∷ 10 ∷ []

abbrev pub host_prefix : CString
host_prefix = b'H' ∷ b'o' ∷ b's' ∷ b't' ∷ b':' ∷ b' ' ∷ []

abbrev pub http_port : CString
http_port = b'8' ∷ b'0' ∷ []

abbrev pub get_name : CString
get_name = b'g' ∷ b'e' ∷ b't' ∷ []

abbrev pub get_prefix : CString
get_prefix = b'G' ∷ b'E' ∷ b'T' ∷ b' ' ∷ []

abbrev pub http_version : CString
http_version = b' ' ∷ b'H' ∷ b'T' ∷ b'T' ∷ b'P' ∷ b'/' ∷ b'1' ∷ b'.' ∷ b'0' ∷ 13 ∷ 10 ∷ []
