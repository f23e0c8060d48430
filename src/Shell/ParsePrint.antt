-- ===== src/Shell/ParsePrint.antt =====
-- `parseline` of svijay_tsh.c reads back a command line of plain words.
use introduction_to_computer.Base.{
  ℕ, zero, suc, ◌+◌, ◌-◌, ◌<◌, ◌≤◌, ◌≡◌, ◌∙◌, ap, refl, Bool, true, false, none, List, [], ◌∷◌,
  ◌++◌, arith, ◌==◌, length, length-append,
}
use mathlib.Core.List.{append-nil, append_assoc}
use introduction_to_computer.Shell.Defs.{CString, maxargs}
use introduction_to_computer.Shell.Parse.{
  is_delim, is_quote, Scan, Scanned, done, skip_delims, take_word, take_token, record_token,
  keep_token, token_step, scan_step, scan, conclude_args, conclude, scan_start, parseline, parsed,
  background, builtin_of, starts_with_amp,
}

-- The characters of a word.
abbrev NoDelims : CString → Type 0
NoDelims [] = Unit {0}
NoDelims (c ∷ w) = (is_delim c ≡ false) × NoDelims w

-- A word that is one argument: not empty, no white space, and no special first character.
abbrev pub PlainWord : CString → Type 0
PlainWord [] = ⊥
PlainWord (c ∷ w) =
    NoDelims (c ∷ w) × (is_quote c ≡ false) × ((c == b'<') ≡ false) × ((c == b'>') ≡ false)

abbrev pub PlainWords : List CString → Type 0
PlainWords [] = Unit {0}
PlainWords (w ∷ ws) = PlainWord w × PlainWords ws

abbrev pub Delims : CString → Type 0
Delims [] = Unit {0}
Delims (c ∷ gap) = (is_delim c ≡ true) × Delims gap

-- A word and the white space behind it.
abbrev pub Spaced : Type 0
Spaced = CString × CString

-- The command line: each word, and the white space behind it.
abbrev pub print : List Spaced → CString
print [] = []
print ((w, gap) ∷ l) = w ++ (gap ++ print l)

abbrev pub words : List Spaced → List CString
words [] = []
words ((w, _) ∷ l) = w ∷ words l

-- White space follows every word, except that the last one may end the line.
abbrev pub Gaps : List Spaced → Type 0
Gaps [] = Unit {0}
Gaps ((w, []) ∷ []) = Unit {0}
Gaps ((w, []) ∷ _ ∷ _) = ⊥
Gaps ((w, d ∷ gap) ∷ l) = (is_delim d ≡ true) × Delims gap × Gaps l

skip_delims-append :
    (gap rest : CString) → Delims gap → skip_delims (gap ++ rest) ≡ skip_delims rest
unfolding skip_delims
skip_delims-append [] rest h = refl
skip_delims-append (d ∷ gap) rest (delim, h) = rw (delim, skip_delims-append gap rest h)

take_word-append :
    (w : CString) (d : ℕ) (rest : CString)
    → NoDelims w
    → is_delim d ≡ true
    → take_word (w ++ d ∷ rest) ≡ (w, rest)
unfolding take_word
take_word-append [] d rest h delim = rw delim
take_word-append (c ∷ w) d rest (plain, h) delim = rw (plain, take_word-append w d rest h delim)

take_word-end : (w : CString) → NoDelims w → take_word (w ++ []) ≡ (w, [])
unfolding take_word
take_word-end [] h = refl
take_word-end (c ∷ w) (plain, h) = rw (plain, take_word-end w h)

PlainWord-NoDelims : (w : CString) → PlainWord w → NoDelims w
PlainWord-NoDelims [] h = absurd h
PlainWord-NoDelims (c ∷ w) h = h.0

scan_step-word :
    (next : Scan → CString → Scanned) (s : Scan) (w line rest : CString)
    → PlainWord w
    → take_word (w ++ line) ≡ (w, rest)
    → s.in_bit ≡ false
    → s.out_bit ≡ false
    → length s.argv + 1 < maxargs - 1
    → scan_step next s (skip_delims (w ++ line)) ≡ next (record s { argv = s.argv ++ w ∷ [] }) rest
unfolding scan_step skip_delims token_step take_token record_token keep_token
scan_step-word next s [] line rest h taken i o room = absurd h
scan_step-word next s (c ∷ w) line rest (plain, quote, lt, gt) taken i o room =
    rw (plain.0, lt, gt, quote, taken, i, o) (ground (arith, length-append s.argv ((c ∷ w) ∷ [])))

scan-words :
    (fuel : ℕ) (s : Scan) (lead : CString) (l : List Spaced)
    → length (words l) < fuel
    → Delims lead
    → Gaps l
    → PlainWords (words l)
    → s.in_bit ≡ false
    → s.out_bit ≡ false
    → length s.argv + length (words l) < maxargs - 1
    → scan fuel s (lead ++ print l) ≡ done (record s { argv = s.argv ++ words l })
unfolding scan scan_step
scan-words zero s lead l h skip gaps plain i o room = absurd (omega arith)
scan-words (suc fuel) s lead [] h skip gaps plain i o room =
    ap (scan_step (scan fuel) s) (skip_delims-append lead [] skip)
    ∙ unfold skip_delims in rw append-nil
scan-words (suc fuel) s lead ((w, []) ∷ []) h skip gaps (plain, _) i o room =
    ap (scan_step (scan fuel) s) (skip_delims-append lead (w ++ []) skip)
    ∙ scan_step-word (scan fuel) s w [] [] plain (take_word-end w (PlainWord-NoDelims w plain)) i o
        (omega arith)
    ∙ scan-words fuel (record s { argv = s.argv ++ w ∷ [] }) [] [] (omega arith) tt tt tt i o
        (omega (arith, length-append s.argv (w ∷ [])))
    ∙ rw append-nil
scan-words (suc fuel) s lead ((w, []) ∷ v ∷ l) h skip gaps plain i o room = absurd gaps
scan-words (suc fuel) s lead ((w, d ∷ gap) ∷ l) h skip (delim, more, gaps) (plain, rest) i o room =
    ap (scan_step (scan fuel) s) (skip_delims-append lead (w ++ d ∷ (gap ++ print l)) skip)
    ∙ scan_step-word (scan fuel) s w (d ∷ (gap ++ print l)) (gap ++ print l) plain
        (take_word-append w d (gap ++ print l) (PlainWord-NoDelims w plain) delim) i o (omega arith)
    ∙ scan-words fuel (record s { argv = s.argv ++ w ∷ [] }) gap l (omega arith) more gaps rest i o
        (omega (arith, length-append s.argv (w ∷ [])))
    ∙ rw append_assoc

length-print : (l : List Spaced) → PlainWords (words l) → length (words l) ≤ length (print l)
length-print [] h = omega arith
length-print (([], gap) ∷ l) (plain, h) = absurd plain
length-print ((c ∷ w, gap) ∷ l) (plain, h) =
    omega (arith, length-append w (gap ++ print l), length-append gap (print l), length-print l h)

parseline-words :
    (lead : CString) (l : List Spaced)
    → Delims lead
    → Gaps l
    → PlainWords (words l)
    → length (words l) < maxargs - 1
    → parseline (lead ++ print l) ≡ conclude_args (record scan_start { argv = words l }) (words l)
unfolding parseline
parseline-words lead l skip gaps plain room = ap conclude (
    scan-words (length (lead ++ print l) + 1) scan_start lead l
      (omega (arith, length-append lead (print l), length-print l plain)) skip gaps plain refl refl
      (omega arith))

-- The last word asks for the background.
abbrev pub last_amp : CString → List CString → Bool
last_amp w [] = starts_with_amp w
last_amp w (v ∷ ws) = last_amp v ws

background-fg :
    (w : CString) (ws : List CString)
    → last_amp w ws ≡ false
    → background (w ∷ ws) ≡ (false, w ∷ ws)
unfolding background
background-fg w [] h = rw h
background-fg w (v ∷ ws) h = rw (background-fg v ws h)

background-bg :
    (ws : List CString) (w amp : CString)
    → starts_with_amp amp ≡ true
    → background (w ∷ ws ++ amp ∷ []) ≡ (true, w ∷ ws)
unfolding background
background-bg [] w amp h = rw h
background-bg (v ∷ ws) w amp h = rw (background-bg ws v amp h)

-- A line of fewer than MAXARGS - 1 plain words, with any white space in front, between and, or not,
-- behind them, is read as a foreground command with just those words as its arguments, if the last
-- word has no `&` in front.
pub parseline-print :
    (lead : CString) (l : List Spaced) (w : CString) (ws : List CString)
    → words l ≡ w ∷ ws
    → Delims lead
    → Gaps l
    → PlainWords (words l)
    → length (words l) < maxargs - 1
    → last_amp w ws ≡ false
    → parseline (lead ++ print l)
      ≡ parsed false
          (record { argv = w ∷ ws; infile = none; outfile = none; builtins = builtin_of w })
parseline-print lead l w ws e skip gaps plain room amp =
    parseline-words lead l skip gaps plain room
    ∙ ap (λ v. conclude_args (record scan_start { argv = v }) v) e
    ∙ unfold conclude_args in rw (background-fg w ws amp)

-- A line of fewer than MAXARGS - 1 plain words, two at least, with any white space in front, between
-- and, or not, behind them, is read as the background command of all but the last word, if that
-- has `&` in front.
pub parseline-print_background :
    (lead : CString) (l : List Spaced) (w : CString) (ws : List CString) (amp : CString)
    → words l ≡ w ∷ ws ++ amp ∷ []
    → Delims lead
    → Gaps l
    → PlainWords (words l)
    → length (words l) < maxargs - 1
    → starts_with_amp amp ≡ true
    → parseline (lead ++ print l)
      ≡ parsed true
          (record { argv = w ∷ ws; infile = none; outfile = none; builtins = builtin_of w })
parseline-print_background lead l w ws amp e skip gaps plain room is_amp =
    parseline-words lead l skip gaps plain room
    ∙ ap (λ v. conclude_args (record scan_start { argv = v }) v) e
    ∙ unfold conclude_args in rw (background-bg ws w amp is_amp)
