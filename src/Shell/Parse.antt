-- ===== src/Shell/Parse.antt =====
-- `parseline` of svijay_tsh.c. `buf` is what is left between `buf` and `endbuf`; a token is the
-- characters that the code ends with a 0.
use introduction_to_computer.Base.{
  str_eq, ℕ, zero, suc, ◌+◌, ◌-◌, Bool, true, false, ◌||◌, Option, none, some, List, [], ◌∷◌, ◌++◌,
  leb, ◌==◌, if◌then◌else◌, length,
}
use introduction_to_computer.Shell.Defs.{CString, maxargs}

-- the characters of `delims`
abbrev pub is_delim : ℕ → Bool
is_delim c = c == b' ' || c == 9 || c == 13 || c == 10

pub data Builtin : Type 0 where
  builtin_none builtin_quit builtin_jobs builtin_bg builtin_fg : Builtin

-- `argc` is the length of `argv`.
pub record CmdlineTokens : Type 0 where
  pub argv : List CString
  pub infile : Option CString
  pub outfile : Option CString
  pub builtins : Builtin

pub data ParseError : Type 0 where
  ambiguous_redirection : ParseError
  unmatched : ℕ → ParseError
  no_file_name : ParseError

-- The variables of the loop; `in_bit` and `out_bit` are the bits of `parsing_state`.
pub record Scan : Type 0 where
  pub argv : List CString
  pub infile : Option CString
  pub outfile : Option CString
  pub in_bit : Bool
  pub out_bit : Bool

pub data Scanned : Type 0 where
  done : Scan → Scanned
  error : ParseError → Scanned
  out_of_fuel : Scanned

unfoldable pub skip_delims : CString → CString
skip_delims [] = []
skip_delims (c ∷ buf) = if is_delim c then skip_delims buf else c ∷ buf

abbrev pub cons_token : ℕ → CString × CString → CString × CString
cons_token c (token, rest) = (c ∷ token, rest)

-- Up to the next delimiter; the rest starts behind it.
unfoldable pub take_word : CString → CString × CString
take_word [] = ([], [])
take_word (c ∷ buf) =
    let more = cons_token c (take_word buf) in if is_delim c then ([], buf) else more

-- Up to the closing quote; `none` if there is none.
unfoldable pub take_quoted : ℕ → CString → Option (CString × CString)
take_quoted q [] = none
take_quoted q (c ∷ buf) =
    let more : Option (CString × CString) = elim (take_quoted q buf) [
      | none ↦ none
      | some t ↦ some (cons_token c t)
    ] in
    if c == q then some ([], buf) else more

abbrev pub is_quote : ℕ → Bool
is_quote c = c == 39 || c == 34

-- The token that begins with `c`, and what follows it.
unfoldable pub take_token : ℕ → CString → Option (CString × CString)
take_token c buf = if is_quote c then take_quoted c buf else some (take_word (c ∷ buf))

-- The `switch` on `parsing_state`.
unfoldable pub record_token : Scan → (in_bit out_bit : Bool) → CString → Option Scan
record_token s false false token = some (record s { argv = s.argv ++ token ∷ [] })
record_token s true false token = some (record s { infile = some token; in_bit = false })
record_token s false true token = some (record s { outfile = some token; out_bit = false })
record_token s true true token = none

abbrev pub is_some : Option CString → Bool
is_some none = false
is_some (some _) = true

-- What follows the `switch`; `next` is the rest of the loop.
unfoldable pub keep_token : (Scan → CString → Scanned) → CString → Option Scan → Scanned
keep_token next rest none = error ambiguous_redirection
keep_token next rest (some s) = if leb (maxargs - 1) (length s.argv) then done s else next s rest

unfoldable pub token_step :
    (Scan → CString → Scanned) → Scan → ℕ → Option (CString × CString) → Scanned
token_step next s c none = error (unmatched c)
token_step next s c (some (token, rest)) =
    keep_token next rest (record_token s s.in_bit s.out_bit token)

-- One round, from the first character that is no delimiter.
unfoldable pub scan_step : (Scan → CString → Scanned) → Scan → CString → Scanned
scan_step next s [] = done s
scan_step next s (c ∷ buf) =
    if c == b'<'
    then if is_some s.infile
      then error ambiguous_redirection
      else next (record s { in_bit = true }) buf
    else if c == b'>'
    then if is_some s.outfile
      then error ambiguous_redirection
      else next (record s { out_bit = true }) buf
    else token_step next s c (take_token c buf)

unfoldable pub scan : ℕ → Scan → CString → Scanned
scan zero s buf = out_of_fuel
scan (suc fuel) s buf = scan_step (scan fuel) s (skip_delims buf)

abbrev pub quit_name : CString
quit_name = b'q' ∷ b'u' ∷ b'i' ∷ b't' ∷ []

abbrev pub jobs_name : CString
jobs_name = b'j' ∷ b'o' ∷ b'b' ∷ b's' ∷ []

abbrev pub bg_name : CString
bg_name = b'b' ∷ b'g' ∷ []

abbrev pub fg_name : CString
fg_name = b'f' ∷ b'g' ∷ []

unfoldable pub builtin_of : CString → Builtin
builtin_of name =
    if str_eq name quit_name
    then builtin_quit
    else if str_eq name jobs_name
    then builtin_jobs
    else if str_eq name bg_name
    then builtin_bg
    else if str_eq name fg_name
    then builtin_fg
    else builtin_none

abbrev pub starts_with_amp : CString → Bool
starts_with_amp [] = false
starts_with_amp (c ∷ _) = c == b'&'

-- Whether the last argument begins with `&`, and the arguments without it if so.
unfoldable pub background : List CString → Bool × List CString
background [] = (false, [])
background (a ∷ []) = if starts_with_amp a then (true, []) else (false, a ∷ [])
background (a ∷ b ∷ args) = let (is_bg, rest) = background (b ∷ args) in (is_bg, a ∷ rest)

-- `parse_error` is the return value -1; else the value is 1 for a background job and 0 for a
-- foreground job. A blank line is 1 with no arguments.
pub data Parsed : Type 0 where
  parse_error : ParseError → Parsed
  parsed : (is_bg : Bool) → CmdlineTokens → Parsed
  no_fuel : Parsed

unfoldable pub conclude_args : Scan → List CString → Parsed
conclude_args s [] =
    parsed true
      (record { argv = []; infile = s.infile; outfile = s.outfile; builtins = builtin_none })
conclude_args s (a ∷ args) =
    let (is_bg, argv) = background (a ∷ args) in
    parsed is_bg
      (record { argv = argv; infile = s.infile; outfile = s.outfile; builtins = builtin_of a })

unfoldable pub conclude : Scanned → Parsed
conclude out_of_fuel = no_fuel
conclude (error e) = parse_error e
conclude (done s) =
    if s.in_bit || s.out_bit then parse_error no_file_name else conclude_args s s.argv

abbrev pub scan_start : Scan
scan_start = record { argv = []; infile = none; outfile = none; in_bit = false; out_bit = false }

-- A round uses up a character at least, so the fuel is the length of the line and one.
unfoldable pub parseline : CString → Parsed
unfolding scan scan_step skip_delims token_step take_token take_word take_quoted keep_token
    record_token conclude conclude_args builtin_of background str_eq
parseline cmdline = conclude (scan (length cmdline + 1) scan_start cmdline)
