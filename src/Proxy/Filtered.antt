-- ===== src/Proxy/Filtered.antt =====
-- What the request headers read by proxy.c become.
use introduction_to_computer.Base.{
  append_assoc, append-nil, ℕ, ◌≡◌, refl, ap, sym, ◌∙◌, CString, str_eq, contains, Bool, true,
  false, none, some, List, [], ◌∷◌, ◌++◌, if◌then◌else◌, arith, Bool-cases, inl, inr,
}
use introduction_to_computer.Proxy.Text.{crlf}
use introduction_to_computer.Proxy.Headers.{
  Header, empty_header, is_host, is_kept, take_line, read_loop, read_request_header,
}

-- No line is the empty line that ends the headers.
abbrev pub NoEmptyLine : List CString → Type 0
NoEmptyLine [] = Unit {0}
NoEmptyLine (l ∷ ls) = (str_eq l crlf ≡ false) × NoEmptyLine ls

-- The lines that the proxy passes on, one behind the other.
unfoldable pub passed_on : List CString → CString
passed_on [] = []
passed_on (l ∷ ls) =
    if is_host l then passed_on ls else if is_kept l then l ++ passed_on ls else passed_on ls

unfoldable pub any_host : List CString → Bool
any_host [] = false
any_host (l ∷ ls) = if is_host l then true else any_host ls

-- The headers that the loop makes of the lines up to the empty one.
abbrev Read : Header → List CString → Header → Type 0
Read h ls h' =
    (h'.header_body ≡ h.header_body ++ passed_on ls)
    × (h'.host_header_found ≡ (if any_host ls then true else h.host_header_found))

take_line-Read :
    (h h' : Header) (l : CString) (ls : List CString)
    → Read (take_line h l) ls h'
    → Read h (l ∷ ls) h'
unfolding take_line passed_on any_host
take_line-Read h h' l ls r = elim (Bool-cases (is_host l)) [
  | inl host ↦ ground arith
  | inr other ↦ elim (Bool-cases (is_kept l)) [
    | inl kept ↦ ground (arith, append_assoc h.header_body l (passed_on ls))
    | inr dropped ↦ ground arith
  ]
]

Read-nil : (h : Header) → Read h [] h
unfolding passed_on any_host
Read-nil h = (sym (append-nil h.header_body), refl)

passed_on-end : (ls : List CString) → passed_on (ls ++ crlf ∷ []) ≡ passed_on ls ++ crlf
unfolding passed_on contains
passed_on-end [] = refl
passed_on-end (l ∷ ls) = elim (Bool-cases (is_host l)) [
  | inl host ↦ rw host (passed_on-end ls)
  | inr other ↦ elim (Bool-cases (is_kept l)) [
    | inl kept ↦
        rw (other, kept)
          (ap (λ t. l ++ t) (passed_on-end ls) ∙ sym (append_assoc l (passed_on ls) crlf))
    | inr dropped ↦ rw (other, dropped) (passed_on-end ls)
  ]
]

any_host-end : (ls : List CString) → any_host (ls ++ crlf ∷ []) ≡ any_host ls
unfolding any_host contains
any_host-end [] = refl
any_host-end (l ∷ ls) = rw (any_host-end ls)

read_loop-stops : (rest : List CString) (h : Header) → read_loop crlf rest h ≡ some h
unfolding read_loop str_eq
read_loop-stops [] h = refl
read_loop-stops (l ∷ rest) h = refl

read_loop-Read :
    (buf : CString) (ls rest : List CString) (h : Header)
    → str_eq buf crlf ≡ false
    → NoEmptyLine ls
    → (h' : Header) × (read_loop buf (ls ++ crlf ∷ rest) h ≡ some h') × Read h (ls ++ crlf ∷ []) h'
unfolding read_loop
read_loop-Read buf [] rest h more plain = (
  take_line h crlf,
  rw more (read_loop-stops rest (take_line h crlf)),
  take_line-Read h (take_line h crlf) crlf [] (Read-nil (take_line h crlf)),
)
read_loop-Read buf (l ∷ ls) rest h more plain =
    let (h', e, r) = read_loop-Read l ls rest (take_line h l) plain.0 plain.1 in
    (h', rw more e, take_line-Read h h' l (ls ++ crlf ∷ []) r)

-- If the first line is not empty and further lines that are not empty follow, and then an empty
-- one, `read_request_header` returns: the body holds of the lines after the first those that the
-- proxy passes on, in order, and the empty line, and the flag says whether one of them has `Host:`.
pub read_request_header-passed_on :
    (stale : ℕ → ℕ) (first : CString) (ls rest : List CString)
    → str_eq first crlf ≡ false
    → NoEmptyLine ls
    → (h : Header) × (read_request_header stale (first ∷ ls ++ crlf ∷ rest) ≡ some h)
      × (h.header_body ≡ passed_on ls ++ crlf)
      × (h.host_header_found ≡ any_host ls)
unfolding read_request_header
read_request_header-passed_on stale first ls rest more plain =
    let (h, e, (body, found)) = read_loop-Read first ls rest (empty_header stale) more plain in
    (h, e, body ∙ passed_on-end ls, found ∙ flag (any_host-end ls))
  where
    flag : {a b : Bool} → a ≡ b → (if a then true else false) ≡ b
    flag e = ground arith

read_loop-endless :
    (buf : CString) (ls : List CString) (h : Header)
    → str_eq buf crlf ≡ false
    → NoEmptyLine ls
    → read_loop buf ls h ≡ none
unfolding read_loop
read_loop-endless buf [] h more plain = rw more
read_loop-endless buf (l ∷ ls) h more plain =
    rw more (read_loop-endless l ls (take_line h l) plain.0 plain.1)

-- If the client sends no empty line, the loop of `read_request_header` never ends.
read_request_header-endless :
    (stale : ℕ → ℕ) (ls : List CString) → NoEmptyLine ls → read_request_header stale ls ≡ none
unfolding read_request_header str_eq
read_request_header-endless stale [] plain = read_loop-endless [] [] (empty_header stale) refl plain
read_request_header-endless stale (l ∷ ls) plain =
    read_loop-endless l ls (empty_header stale) plain.0 plain.1
