-- ===== src/Shell/ParseTotal.antt =====
-- The loop of `parseline` of svijay_tsh.c ends, and never fills `argv` beyond its array.
use introduction_to_computer.Base.{
  ℕ, zero, suc, ◌+◌, ◌-◌, ◌<◌, ◌≤◌, ◌≡◌, inl, inr, Bool, true, false, ◌||◌, some, List, [], ◌∷◌,
  ◌++◌, arith, leb, ◌==◌, length, length-append, Bool-cases, Option-cases,
}
use introduction_to_computer.Shell.Defs.{CString, maxargs}
use introduction_to_computer.Shell.Parse.{
  is_quote, is_some, Scan, Scanned, done, error, out_of_fuel, skip_delims, take_word, take_quoted,
  take_token, record_token, keep_token, token_step, scan_step, scan, background, Parsed,
  parse_error, parsed, no_fuel, conclude_args, conclude, scan_start, parseline,
}

length-skip_delims : (buf : CString) → length (skip_delims buf) ≤ length buf
unfolding skip_delims
length-skip_delims [] = omega arith
length-skip_delims (c ∷ buf) = ground (arith, length-skip_delims buf)

length-take_word : (buf : CString) → length (take_word buf).1 ≤ length buf
unfolding take_word
length-take_word [] = omega arith
length-take_word (c ∷ buf) = ground (arith, length-take_word buf)

length-take_quoted :
    (q : ℕ) (buf token rest : CString)
    → take_quoted q buf ≡ some (token, rest)
    → length rest < length buf
unfolding take_quoted
length-take_quoted q [] token rest h = cc
length-take_quoted q (c ∷ buf) token rest h = elim (Bool-cases (c == q)) [
  | inl close ↦ ground arith
  | inr more ↦ elim (Option-cases (take_quoted q buf)) [
    | inl unclosed ↦ absurd (ground arith)
    | inr ((t, r), found) ↦ ground (arith, length-take_quoted q buf t r found)
  ]
]

length-take_word_cons : (c : ℕ) (buf : CString) → length (take_word (c ∷ buf)).1 ≤ length buf
unfolding take_word
length-take_word_cons c buf = ground (arith, length-take_word buf)

length-take_token :
    (c : ℕ) (buf token rest : CString)
    → take_token c buf ≡ some (token, rest)
    → length rest ≤ length buf
unfolding take_token
length-take_token c buf token rest h = elim (Bool-cases (is_quote c)) [
  | inl quote ↦ ground (arith, length-take_quoted c buf token rest)
  | inr word ↦ ground (arith, length-take_word_cons c buf)
]

lt→leb : (a b : ℕ) → b < a → leb a b ≡ false
lt→leb a b h = ground arith

-- The loop was left, and its arguments fit into `argv` with the NULL behind them.
abbrev pub Fits : Scanned → Type 0
Fits (done s) = length s.argv ≤ maxargs - 1
Fits (error e) = Unit {0}
Fits out_of_fuel = ⊥

module _ (next : Scan → CString → Scanned) (n : ℕ)
    (ih : (s : Scan) (buf : CString)
      → length buf < n
      → length s.argv < maxargs - 1
      → Fits (next s buf)) where
  record_token-Fits :
      (s : Scan) (rest token : CString) (i o : Bool)
      → length rest < n
      → length s.argv < maxargs - 1
      → Fits (keep_token next rest (record_token s i o token))
  unfolding record_token keep_token
  record_token-Fits s rest token false false le room =
      elim (Bool-cases (leb (maxargs - 1) (length (s.argv ++ token ∷ [])))) [
        | inl full ↦ rw full (omega (arith, length-append s.argv (token ∷ [])))
        | inr more ↦ rw more (ih (record s { argv = s.argv ++ token ∷ [] }) rest le (ground arith))
      ]
  record_token-Fits s rest token true false le room =
      rw (lt→leb (maxargs - 1) (length s.argv) room)
        (ih (record s { infile = some token; in_bit = false }) rest le room)
  record_token-Fits s rest token false true le room =
      rw (lt→leb (maxargs - 1) (length s.argv) room)
        (ih (record s { outfile = some token; out_bit = false }) rest le room)
  record_token-Fits s rest token true true le room = tt

  token_step-Fits :
      (s : Scan) (c : ℕ) (buf : CString)
      → length buf < n
      → length s.argv < maxargs - 1
      → Fits (token_step next s c (take_token c buf))
  unfolding token_step
  token_step-Fits s c buf le room = elim (Option-cases (take_token c buf)) [
    | inl open_quote ↦ rw open_quote tt
    | inr ((token, rest), found) ↦ rw found (
        record_token-Fits s rest token s.in_bit s.out_bit
          (omega (arith, length-take_token c buf token rest found)) room)
  ]

  scan_step-Fits :
      (s : Scan) (buf : CString)
      → length buf ≤ n
      → length s.argv < maxargs - 1
      → Fits (scan_step next s buf)
  unfolding scan_step
  scan_step-Fits s [] le room = omega arith
  scan_step-Fits s (c ∷ buf) le room = elim (Bool-cases (c == b'<')) [
    | inl lt ↦ elim (Bool-cases (is_some s.infile)) [
      | inl twice ↦ rw (lt, twice) tt
      | inr once ↦ rw (lt, once) (ih (record s { in_bit = true }) buf (omega arith) room)
    ]
    | inr not_lt ↦ elim (Bool-cases (c == b'>')) [
      | inl gt ↦ elim (Bool-cases (is_some s.outfile)) [
        | inl twice ↦ rw (not_lt, gt, twice) tt
        | inr once ↦ rw (not_lt, gt, once) (ih (record s { out_bit = true }) buf (omega arith) room)
      ]
      | inr not_gt ↦ rw (not_lt, not_gt) (token_step-Fits s c buf (omega arith) room)
    ]
  ]

-- With more fuel than characters the loop of `parseline` ends by itself.
pub scan-Fits :
    (fuel : ℕ) (s : Scan) (buf : CString)
    → length buf < fuel
    → length s.argv < maxargs - 1
    → Fits (scan fuel s buf)
unfolding scan
scan-Fits zero s buf h room = absurd (omega arith)
scan-Fits (suc fuel) s buf h room =
    scan_step-Fits (scan fuel) fuel (scan-Fits fuel) s (skip_delims buf)
      (omega (arith, length-skip_delims buf)) room

length-background : (args : List CString) → length (background args).1 ≤ length args
unfolding background
length-background [] = omega arith
length-background (a ∷ []) = ground arith
length-background (a ∷ b ∷ args) = omega (arith, length-background (b ∷ args))

-- What `parseline` leaves in `argv`.
abbrev pub ArgsFit : Parsed → Type 0
ArgsFit (parse_error e) = Unit {0}
ArgsFit (parsed is_bg tok) = length tok.argv + 1 ≤ maxargs
ArgsFit no_fuel = ⊥

conclude_args-ArgsFit :
    (s : Scan) (args : List CString) → length args ≤ maxargs - 1 → ArgsFit (conclude_args s args)
unfolding conclude_args
conclude_args-ArgsFit s [] h = omega arith
conclude_args-ArgsFit s (a ∷ args) h = omega (arith, length-background (a ∷ args))

conclude-ArgsFit : (r : Scanned) → Fits r → ArgsFit (conclude r)
unfolding conclude
conclude-ArgsFit (done s) h = elim (Bool-cases (s.in_bit || s.out_bit)) [
  | inl pending ↦ rw pending tt
  | inr clear ↦ rw clear (conclude_args-ArgsFit s s.argv h)
]
conclude-ArgsFit (error e) h = tt
conclude-ArgsFit out_of_fuel h = elim h [ ]

-- `parseline` returns on every line, and the arguments and the NULL behind them fit into the
-- MAXARGS entries of `argv`.
pub parseline-ArgsFit : (cmdline : CString) → ArgsFit (parseline cmdline)
unfolding parseline
parseline-ArgsFit cmdline =
    conclude-ArgsFit (scan (length cmdline + 1) scan_start cmdline)
      (scan-Fits (length cmdline + 1) scan_start cmdline (omega arith) (omega arith))
