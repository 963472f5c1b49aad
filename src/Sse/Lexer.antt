-- ===== src/Sse/Lexer.antt =====
-- The lines of _sse_parser.py's `_split`, one character at a time: the reference that the scan of a
-- whole chunk is held against.
use mcp_persist.Prelude.{
  ℕ, ◌≡◌, refl, ap, sym, ◌∙◌, Bool, true, false, ◌&&◌, ◌||◌, List, [], ◌∷◌, ◌++◌, append_assoc,
  arith, Text, ◌==◌, if◌then◌else◌, inl, inr, Bool-cases,
}
use mcp_persist.Sse.{cr, lf, scan, hold_cr}

-- The lines that one character completes, whether a "\r" is now held, and the unfinished line.
pub lex_char : Bool → Text → ℕ → List Text × Bool × Text
lex_char true cur c =
    if c == lf
    then (cur ∷ [], false, [])
    else if c == cr
    then (cur ∷ [], true, [])
    else (cur ∷ [], false, c ∷ [])
lex_char false cur c =
    if c == cr
    then ([], true, cur)
    else if c == lf
    then (cur ∷ [], false, [])
    else ([], false, cur ++ c ∷ [])

unfoldable pub lex : Bool → Text → Text → List Text × Bool × Text
unfolding lex_char
lex held cur [] = ([], held, cur)
lex held cur (c ∷ rest) =
    let (done, held', cur') = lex_char held cur c in
    let (lines, held'', cur'') = lex held' cur' rest in (done ++ lines, held'', cur'')

-- Two texts in a row are the first, then the second from where the first left off.
pub lex-append :
    (held : Bool) (cur s t : Text)
    → lex held cur (s ++ t) ≡ (
      (lex held cur s).0 ++ (lex (lex held cur s).1 (lex held cur s).2 t).0,
      (lex (lex held cur s).1 (lex held cur s).2 t).1,
      (lex (lex held cur s).1 (lex held cur s).2 t).2,
    )
unfolding lex
lex-append held cur [] t = refl
lex-append held cur (c ∷ s) t =
    let (done, held', cur') = lex_char held cur c in rw (lex-append held' cur' s t, append_assoc)

-- A held "\r" is read again with the next chunk.
pub lex_held : (cur t : Text) → lex true cur t ≡ lex false cur (cr ∷ t)
unfolding lex
lex_held cur t = refl

abbrev empty : Text → Bool
empty [] = true
empty (c ∷ s) = false

hold_cr-cons :
    (d : ℕ) (rest : Text)
    → hold_cr (d ∷ rest)
      ≡ (if (d == cr) && empty rest then (true, []) else ((hold_cr rest).0, d ∷ (hold_cr rest).1))
unfolding hold_cr
hold_cr-cons d [] = ground arith
hold_cr-cons d (e ∷ rest) = ground arith

abbrev starts_lf : Text → Bool
starts_lf [] = false
starts_lf (c ∷ s) = c == lf

abbrev emit : Text → List Text × Bool × Text → List Text × Bool × Text
emit line (lines, held, cur) = (line ∷ lines, held, cur)

abbrev pub from_scan : Bool → List Text × Text → List Text × Bool × Text
from_scan held (lines, cur) = (lines, held, cur)

-- One step of the scan: "\r\n" and a lone terminator complete a line, another character does not.
scan_crlf :
    (held : Bool) (cur : Text) (c d : ℕ) (t : Text)
    → (c == cr) ≡ true
    → (d == lf) ≡ true
    → from_scan held (scan cur (c ∷ d ∷ t)) ≡ emit cur (from_scan held (scan [] t))
unfolding scan
scan_crlf held cur c d t h k = ground arith

scan_eol :
    (held : Bool) (cur : Text) (c : ℕ) (t : Text)
    → (c == cr || c == lf) ≡ true
    → (c == cr && starts_lf t) ≡ false
    → from_scan held (scan cur (c ∷ t)) ≡ emit cur (from_scan held (scan [] t))
unfolding scan
scan_eol held cur c [] h k = ground arith
scan_eol held cur c (d ∷ t) h k = ground arith

scan_other :
    (cur : Text) (c : ℕ) (t : Text)
    → (c == cr || c == lf) ≡ false
    → scan cur (c ∷ t) ≡ scan (cur ++ c ∷ []) t
unfolding scan
scan_other cur c [] h = ground arith
scan_other cur c (d ∷ t) h = ground arith

-- The same steps of the reference.
lex_crlf :
    (cur : Text) (c d : ℕ) (t : Text)
    → (c == cr) ≡ true
    → (d == lf) ≡ true
    → lex false cur (c ∷ d ∷ t) ≡ emit cur (lex false [] t)
unfolding lex
lex_crlf cur c d t h k = ground arith

lex_eol :
    (cur : Text) (c d : ℕ) (t : Text)
    → (c == cr || c == lf) ≡ true
    → (c == cr && d == lf) ≡ false
    → lex false cur (c ∷ d ∷ t) ≡ emit cur (lex false [] (d ∷ t))
unfolding lex
lex_eol cur c d t h k = ground arith

lex_other :
    (cur : Text) (c : ℕ) (t : Text)
    → (c == cr || c == lf) ≡ false
    → lex false cur (c ∷ t) ≡ lex false (cur ++ c ∷ []) t
unfolding lex
lex_other cur c t h = ground arith

hold_cr_one :
    (c d : ℕ) (t : Text) → hold_cr (c ∷ d ∷ t) ≡ ((hold_cr (d ∷ t)).0, c ∷ (hold_cr (d ∷ t)).1)
unfolding hold_cr
hold_cr_one c d t = refl

starts_lf-hold_cr :
    (c d : ℕ) (t : Text)
    → (c == cr && d == lf) ≡ false
    → (c == cr && starts_lf (hold_cr (d ∷ t)).1) ≡ false
starts_lf-hold_cr c d t h = rw (hold_cr-cons d t) (ground arith)

-- The scan of a chunk, its last "\r" held back, finds the lines of the reference.
pub lex-scan : (cur t : Text) → lex false cur t ≡ from_scan (hold_cr t).0 (scan cur (hold_cr t).1)
lex-scan cur [] = unfold lex scan hold_cr in refl
lex-scan cur (c ∷ []) = unfold lex scan hold_cr in ground arith
lex-scan cur (c ∷ d ∷ rest) = elim (Bool-cases (c == cr && d == lf)) [
  | inl pair ↦ ground (
    arith,
    lex_crlf cur c d rest,
    lex-scan [] rest,
    hold_cr_one c d rest,
    hold_cr-cons d rest,
    scan_crlf (hold_cr rest).0 cur c d (hold_cr rest).1,
  )
  | inr single ↦ elim (Bool-cases (c == cr || c == lf)) [
    | inl eol ↦
        rw (lex_eol cur c d rest eol single, hold_cr_one c d rest)
          (ap (emit cur) (lex-scan [] (d ∷ rest))
            ∙ sym (scan_eol _ cur c _ eol (starts_lf-hold_cr c d rest single)))
    | inr other ↦
        rw (lex_other cur c (d ∷ rest) other, hold_cr_one c d rest, scan_other cur c _ other)
          (lex-scan (cur ++ c ∷ []) (d ∷ rest))
  ]
]
