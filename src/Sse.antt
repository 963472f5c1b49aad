-- ===== src/Sse.antt =====
-- src/mcp_persist/_sse_parser.py: the incremental parser of Server-Sent Events. Text is a list of
-- code points. Each method returns the parser that it leaves behind.
pub mod Lexer
pub mod Chunks
pub mod Frames
use mcp_persist.Prelude.{
  ℕ, Bool, true, false, ◌&&◌, ◌||◌, not, List, [], ◌∷◌, ◌++◌, Option, none, some, Text, codes,
  text_eq, after_prefix, ◌==◌, if◌then◌else◌,
}

abbrev pub cr : ℕ
cr = 13

abbrev pub lf : ℕ
lf = 10

-- SSEFrame
pub record SseFrame : Type 0 where
  pub text : Text
  pub event : Option Text
  pub original_id : Option Text

-- SSEParser: the pieces of the unfinished line, the held "\r", and the fields of the event that is
-- being built.
pub record SseParser : Type 0 where
  pub partial : List Text
  pub held_cr : Bool
  pub text : Text
  pub event : Option Text
  pub id : Option Text

-- SSEParser.__init__
abbrev pub new_parser : SseParser
new_parser = record { partial = []; held_cr = false; text = []; event = none; id = none }

-- "".join(pieces)
abbrev pub join : List Text → Text
join [] = []
join (p ∷ ps) = p ++ join ps

-- What `_LINE_END.finditer` cuts a text into: the pieces before the terminators, and the tail. `cur`
-- is the piece so far; "\r\n" is one terminator, tried first.
pub scan : Text → Text → List Text × Text
scan cur [] = ([], cur)
scan cur (c ∷ []) = if c == cr || c == lf then (cur ∷ [], []) else ([], cur ++ c ∷ [])
scan cur (c ∷ d ∷ rest) =
    let pair = scan [] rest in
    let one = scan [] (d ∷ rest) in
    let more = scan (cur ++ c ∷ []) (d ∷ rest) in
    if c == cr && d == lf
    then (cur ∷ pair.0, pair.1)
    else if c == cr || c == lf
    then (cur ∷ one.0, one.1)
    else more

-- chunk.endswith("\r"), and the chunk without it
pub hold_cr : Text → Bool × Text
hold_cr [] = (false, [])
hold_cr (c ∷ []) = if c == cr then (true, []) else (false, c ∷ [])
hold_cr (c ∷ d ∷ rest) = let (held, body) = hold_cr (d ∷ rest) in (held, c ∷ body)

-- The first piece completes the unfinished line; the pieces that were kept are used up then.
pub complete : List Text → List Text → List Text × List Text
complete partial [] = ([], partial)
complete [] (piece ∷ pieces) = (piece ∷ pieces, [])
complete (p ∷ partial) (piece ∷ pieces) = ((join (p ∷ partial) ++ piece) ∷ pieces, [])

-- `if start < len(chunk): self._partial.append(chunk[start:])`
pub keep_tail : List Text → Text → List Text
keep_tail partial [] = partial
keep_tail partial (c ∷ tail) = partial ++ (c ∷ tail) ∷ []

-- SSEParser._split
pub split : SseParser → Text → List Text × SseParser
unfolding scan hold_cr complete keep_tail
split p chunk =
    let (held, body) = hold_cr (if p.held_cr then cr ∷ chunk else chunk) in
    let (pieces, tail) = scan [] body in
    let (lines, partial) = complete p.partial pieces in
    (lines, record p { partial = keep_tail partial tail; held_cr = held })

-- line.partition(":"), with the one space behind the colon removed as `_consume_field` does
pub partition : Text → Text × Bool × Text
partition [] = ([], false, [])
partition (c ∷ rest) =
    let (name, sep, value) = partition rest in
    if c == b':' then ([], true, rest) else (c ∷ name, sep, value)

pub strip_space : Bool → Text → Text
strip_space false value = value
strip_space true [] = []
strip_space true (c ∷ value) = if c == b' ' then value else c ∷ value

-- SSEParser._consume_field
pub consume_field : SseParser → Text → SseParser
unfolding partition strip_space
consume_field p line =
    let (name, sep, rest) = partition line in
    let value = strip_space sep rest in
    if text_eq name (codes "data")
    then record p { text = p.text ++ (value ++ lf ∷ []) }
    else if text_eq name (codes "event")
    then record p { event = some value }
    else if text_eq name (codes "id")
    then record p { id = some value }
    else p

-- data[:-1] if data.endswith("\n")
pub strip_last_lf : Text → Text
strip_last_lf [] = []
strip_last_lf (c ∷ []) = if c == lf then [] else c ∷ []
strip_last_lf (c ∷ d ∷ rest) = c ∷ strip_last_lf (d ∷ rest)

abbrev frame_of : Text → Option Text → Option Text → Option SseFrame
frame_of [] event id = none
frame_of (c ∷ s) event id =
    some (record { text = strip_last_lf (c ∷ s); event = event; original_id = id })

-- SSEParser._dispatch
pub dispatch : SseParser → Option SseFrame × SseParser
unfolding strip_last_lf
dispatch p = (frame_of p.text p.event p.id, record p { text = []; event = none; id = none })

-- One turn of the loop of `_process`: a blank line, a comment, or a field.
pub process_line : SseParser → Text → List SseFrame × SseParser
unfolding dispatch consume_field
process_line p [] = let (frame, p') = dispatch p in (elim frame [ none ↦ [] | some f ↦ f ∷ [] ], p')
process_line p (c ∷ line) = if c == b':' then ([], p) else ([], consume_field p (c ∷ line))

-- SSEParser._process
pub process : SseParser → List Text → List SseFrame × SseParser
unfolding process_line
process p [] = ([], p)
process p (line ∷ lines) =
    let (frames, p') = process_line p line in
    let (rest, p'') = process p' lines in (frames ++ rest, p'')

-- SSEParser.feed
pub feed : SseParser → Text → List SseFrame × SseParser
unfolding split process
feed p chunk = let (lines, p') = split p chunk in process p' lines

-- SSEParser.flush
pub flush : SseParser → List SseFrame × SseParser
unfolding process
flush p =
    if p.held_cr
    then process (record p { partial = []; held_cr = false }) (join p.partial ∷ [])
    else ([], p)

-- The chunks of a response, one `feed` each.
pub feed_all : SseParser → List Text → List SseFrame × SseParser
unfolding feed
feed_all p [] = ([], p)
feed_all p (chunk ∷ chunks) =
    let (frames, p') = feed p chunk in let (rest, p'') = feed_all p' chunks in (frames ++ rest, p'')
