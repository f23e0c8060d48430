-- ===== src/Proxy/ClientError.antt =====
-- `clienterror` of proxy.c with the arguments of its one call.
use introduction_to_computer.Base.{
  ℕ, zero, suc, ◌+◌, ◌/◌, ◌%◌, ltb, length, if◌then◌else◌, CString, List, [], ◌∷◌, ◌++◌,
}
use introduction_to_computer.Proxy.Text.{crlf}

abbrev error_front : CString
error_front =
    b'<' ∷ b'h' ∷ b't' ∷ b'm' ∷ b'l' ∷ b'>' ∷ b'<' ∷ b't' ∷ b'i' ∷ b't' ∷ b'l' ∷ b'e' ∷ b'>' ∷ b'T'
    ∷ b'i' ∷ b'n' ∷ b'y' ∷ b' ' ∷ b'E' ∷ b'r' ∷ b'r' ∷ b'o' ∷ b'r' ∷ b'<' ∷ b'/' ∷ b't' ∷ b'i'
    ∷ b't' ∷ b'l' ∷ b'e' ∷ b'>' ∷ b'<' ∷ b'b' ∷ b'o' ∷ b'd' ∷ b'y' ∷ b' ' ∷ b'b' ∷ b'g' ∷ b'c'
    ∷ b'o' ∷ b'l' ∷ b'o' ∷ b'r' ∷ b'=' ∷ b'f' ∷ b'f' ∷ b'f' ∷ b'f' ∷ b'f' ∷ b'f' ∷ b'>' ∷ 13 ∷ 10
    ∷ b'5' ∷ b'0' ∷ b'1' ∷ b':' ∷ b' ' ∷ b'N' ∷ b'o' ∷ b't' ∷ b' ' ∷ b'I' ∷ b'm' ∷ b'p' ∷ b'l'
    ∷ b'e' ∷ b'm' ∷ b'e' ∷ b'n' ∷ b't' ∷ b'e' ∷ b'd' ∷ 13 ∷ 10 ∷ b'<' ∷ b'p' ∷ b'>' ∷ b'T' ∷ b'i'
    ∷ b'n' ∷ b'y' ∷ b' ' ∷ b'd' ∷ b'o' ∷ b'e' ∷ b's' ∷ b' ' ∷ b'n' ∷ b'o' ∷ b't' ∷ b' ' ∷ b'i'
    ∷ b'm' ∷ b'p' ∷ b'l' ∷ b'e' ∷ b'm' ∷ b'e' ∷ b'n' ∷ b't' ∷ b' ' ∷ b't' ∷ b'h' ∷ b'i' ∷ b's'
    ∷ b' ' ∷ b'm' ∷ b'e' ∷ b't' ∷ b'h' ∷ b'o' ∷ b'd' ∷ b':' ∷ b' ' ∷ []

abbrev error_back : CString
error_back =
    13 ∷ 10 ∷ b'<' ∷ b'h' ∷ b'r' ∷ b'>' ∷ b'<' ∷ b'e' ∷ b'm' ∷ b'>' ∷ b'T' ∷ b'h' ∷ b'e' ∷ b' '
    ∷ b'T' ∷ b'i' ∷ b'n' ∷ b'y' ∷ b' ' ∷ b'W' ∷ b'e' ∷ b'b' ∷ b' ' ∷ b's' ∷ b'e' ∷ b'r' ∷ b'v'
    ∷ b'e' ∷ b'r' ∷ b'<' ∷ b'/' ∷ b'e' ∷ b'm' ∷ b'>' ∷ 13 ∷ 10 ∷ []

abbrev error_line : CString
error_line =
    b'H' ∷ b'T' ∷ b'T' ∷ b'P' ∷ b'/' ∷ b'1' ∷ b'.' ∷ b'0' ∷ b' ' ∷ b'5' ∷ b'0' ∷ b'1' ∷ b' ' ∷ b'N'
    ∷ b'o' ∷ b't' ∷ b' ' ∷ b'I' ∷ b'm' ∷ b'p' ∷ b'l' ∷ b'e' ∷ b'm' ∷ b'e' ∷ b'n' ∷ b't' ∷ b'e'
    ∷ b'd' ∷ 13 ∷ 10 ∷ []

abbrev error_type : CString
error_type =
    b'C' ∷ b'o' ∷ b'n' ∷ b't' ∷ b'e' ∷ b'n' ∷ b't' ∷ b'-' ∷ b't' ∷ b'y' ∷ b'p' ∷ b'e' ∷ b':' ∷ b' '
    ∷ b't' ∷ b'e' ∷ b'x' ∷ b't' ∷ b'/' ∷ b'h' ∷ b't' ∷ b'm' ∷ b'l' ∷ 13 ∷ 10 ∷ []

abbrev error_length : CString
error_length =
    b'C' ∷ b'o' ∷ b'n' ∷ b't' ∷ b'e' ∷ b'n' ∷ b't' ∷ b'-' ∷ b'l' ∷ b'e' ∷ b'n' ∷ b'g' ∷ b't' ∷ b'h'
    ∷ b':' ∷ b' ' ∷ []

-- The decimal digits of a number of at most `fuel` digits, in front of `s`.
unfoldable pub digits : (fuel n : ℕ) → CString → CString
digits zero n s = s
digits (suc fuel) n s =
    let more = digits fuel (n / 10) ((48 + n % 10) ∷ s) in if ltb n 10 then (48 + n) ∷ s else more

-- The body, around the method.
abbrev pub error_body : (cause : CString) → CString
error_body cause = error_front ++ (cause ++ error_back)

-- What is written to the client; a length has at most 20 digits.
unfoldable pub clienterror : (cause : CString) → List CString
unfolding digits
clienterror cause =
    error_line
    ∷ error_type
    ∷ (error_length ++ (digits 20 (length (error_body cause)) [] ++ (crlf ++ crlf)))
    ∷ error_body cause
    ∷ []
