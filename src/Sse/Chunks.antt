-- ===== src/Sse/Chunks.antt =====
-- How an SSE response is cut into chunks makes no difference to `SSEParser`.
use mcp_persist.Prelude.{
  ◌≡◌, refl, ap, sym, ◌∙◌, Bool, true, false, List, [], ◌∷◌, ◌++◌, append-nil, append_assoc, arith,
  Text, if◌then◌else◌,
}
use mcp_persist.Sse.{
  SseParser, SseFrame, new_parser, cr, join, scan, hold_cr, complete, keep_tail, split,
  consume_field, process_line, process, feed, flush, feed_all,
}
use mcp_persist.Sse.Lexer.{lex, lex-append, lex_held, from_scan, lex-scan}

-- The state with its unfinished line joined: what no later call can tell from the pieces.
unfoldable pub joined : SseParser → SseParser
joined p = record p { partial = join p.partial ∷ [] }

abbrev pub with_line : SseParser → List Text → Bool → SseParser
with_line p partial held = record p { partial = partial; held_cr = held }

-- The fields of the event are all that `process` reads and writes.
consume_field-with_line :
    (p : SseParser) (l : Text) (xs : List Text) (h : Bool)
    → consume_field (with_line p xs h) l ≡ with_line (consume_field p l) xs h
unfolding consume_field
consume_field-with_line p l xs h = ground arith

process_line-with_line :
    (p : SseParser) (l : Text) (xs : List Text) (h : Bool)
    → process_line (with_line p xs h) l
      ≡ ((process_line p l).0, with_line (process_line p l).1 xs h)
unfolding process_line
process_line-with_line p [] xs h = refl
process_line-with_line p (c ∷ l) xs h = ground (arith, consume_field-with_line p (c ∷ l) xs h)

process-with_line :
    (p : SseParser) (ls : List Text) (xs : List Text) (h : Bool)
    → process (with_line p xs h) ls ≡ ((process p ls).0, with_line (process p ls).1 xs h)
unfolding process
process-with_line p [] xs h = refl
process-with_line p (l ∷ ls) xs h =
    rw (process_line-with_line p l xs h, process-with_line (process_line p l).1 ls xs h)

process-append :
    (p : SseParser) (ls ms : List Text)
    → process p (ls ++ ms)
      ≡ ((process p ls).0 ++ (process (process p ls).1 ms).0, (process (process p ls).1 ms).1)
unfolding process
process-append p [] ms = refl
process-append p (l ∷ ls) ms = rw (process-append (process_line p l).1 ls ms, append_assoc)

join-append : (xs ys : List Text) → join (xs ++ ys) ≡ join xs ++ join ys
join-append [] ys = refl
join-append (x ∷ xs) ys = rw (join-append xs ys, append_assoc)

-- The unfinished line goes in front of the first piece, or of the tail where there is none.
abbrev prefixed : Text → List Text × Text → List Text × Text
prefixed line ([], tail) = ([], line ++ tail)
prefixed line (x ∷ xs, tail) = ((line ++ x) ∷ xs, tail)

scan-prefixed : (line cur t : Text) → scan (line ++ cur) t ≡ prefixed line (scan cur t)
unfolding scan
scan-prefixed line cur [] = refl
scan-prefixed line cur (c ∷ []) = ground (arith, append_assoc line cur (c ∷ []))
scan-prefixed line cur (c ∷ d ∷ t) =
    ground (arith, append_assoc line cur (c ∷ []), scan-prefixed line (cur ++ c ∷ []) (d ∷ t))

join-snoc : (xs : List Text) (x : Text) → join (xs ++ x ∷ []) ≡ join xs ++ x
join-snoc xs x = rw (join-append xs (x ∷ []), append-nil x)

keep-scan :
    (ps : List Text) (xs : List Text) (tail : Text)
    → prefixed (join ps) (xs, tail) ≡ ((complete ps xs).0, join (keep_tail (complete ps xs).1 tail))
unfolding complete keep_tail
keep-scan ps [] [] = rw append-nil
keep-scan ps [] (c ∷ tail) = rw (join-snoc ps (c ∷ tail))
keep-scan [] (x ∷ xs) [] = refl
keep-scan [] (x ∷ xs) (c ∷ tail) = rw append-nil
keep-scan (q ∷ ps) (x ∷ xs) [] = refl
keep-scan (q ∷ ps) (x ∷ xs) (c ∷ tail) = rw append-nil

scan-keep :
    (ps : List Text) (t : Text)
    → scan (join ps) t ≡ (
      (complete ps (scan [] t).0).0,
      join (keep_tail (complete ps (scan [] t).0).1 (scan [] t).1),
    )
scan-keep ps t =
    ap (λ u. scan u t) (sym (append-nil (join ps)))
    ∙ scan-prefixed (join ps) [] t
    ∙ keep-scan ps (scan [] t).0 (scan [] t).1

lex-held_text : (h : Bool) (cur t : Text) → lex h cur t ≡ lex false cur (if h then cr ∷ t else t)
lex-held_text true cur t = lex_held cur t
lex-held_text false cur t = refl

-- What `_split` completes and leaves, by the reference.
split-lex :
    (p : SseParser) (t : Text)
    → ((split p t).0, (split p t).1.held_cr, join (split p t).1.partial)
      ≡ lex p.held_cr (join p.partial) t
unfolding split
split-lex p t =
    let text : Text = if p.held_cr then cr ∷ t else t in
    ap (from_scan (hold_cr text).0) (sym (scan-keep p.partial (hold_cr text).1))
    ∙ sym (lex-scan (join p.partial) text)
    ∙ sym (lex-held_text p.held_cr (join p.partial) t)

-- `feed` by the reference, its unfinished line joined.
unfoldable pub feed_lines : SseParser → List Text × Bool × Text → List SseFrame × SseParser
feed_lines p (lines, held, cur) =
    ((process p lines).0, with_line (process p lines).1 (cur ∷ []) held)

unfoldable pub feed_ref : SseParser → Text → List SseFrame × SseParser
unfolding feed_lines
feed_ref p t = feed_lines p (lex p.held_cr (join p.partial) t)

abbrev pub seen : List SseFrame × SseParser → List SseFrame × SseParser
seen (frames, p) = (frames, joined p)

pub feed-feed_ref : (p : SseParser) (t : Text) → seen (feed p t) ≡ feed_ref p t
unfolding feed_ref
feed-feed_ref p t =
    unfold feed joined feed_lines split in
    ap seen (process-with_line p (split p t).0 _ _) ∙ ap (feed_lines p) (split-lex p t)

pub feed_ref-joined : (p : SseParser) (t : Text) → feed_ref (joined p) t ≡ feed_ref p t
unfolding feed_ref joined
feed_ref-joined p t = rw (
  append-nil,
  process-with_line p (lex p.held_cr (join p.partial) t).0 (join p.partial ∷ []) p.held_cr,
)

pub feed_ref-append :
    (p : SseParser) (s t : Text)
    → feed_ref p (s ++ t)
      ≡ ((feed_ref p s).0 ++ (feed_ref (feed_ref p s).1 t).0, (feed_ref (feed_ref p s).1 t).1)
unfolding feed_ref
feed_ref-append p s t =
    let (lines, held, cur) = lex p.held_cr (join p.partial) s in
    rw (
      append-nil cur,
      process-with_line (process p lines).1 (lex held cur t).0 (cur ∷ []) held,
      lex-append p.held_cr (join p.partial) s t,
      process-append p lines (lex held cur t).0,
    )

pub feed_all-feed_ref :
    (p : SseParser) (chunks : List Text) → seen (feed_all p chunks) ≡ feed_ref p (join chunks)
unfolding feed_all
feed_all-feed_ref p [] = unfold feed_ref feed_lines lex joined process in refl
feed_all-feed_ref p (chunk ∷ chunks) =
    let p' = (feed p chunk).1 in
    let rest : seen (feed_all p' chunks) ≡ feed_ref (joined p') (join chunks) =
      feed_all-feed_ref p' chunks ∙ sym (feed_ref-joined p' (join chunks)) in
    ap (λ (r : List SseFrame × SseParser). ((feed p chunk).0 ++ r.0, r.1)) rest
    ∙ ap
        (λ (r : List SseFrame × SseParser).
          (r.0 ++ (feed_ref r.1 (join chunks)).0, (feed_ref r.1 (join chunks)).1))
        (feed-feed_ref p chunk)
    ∙ sym (feed_ref-append p chunk (join chunks))

-- However a response is cut into chunks, `feed` returns the same frames in the same order and ends
-- in the same state, its unfinished line joined, as for the whole text in one chunk.
pub feed_all-join :
    (p : SseParser) (chunks : List Text) → seen (feed_all p chunks) ≡ seen (feed p (join chunks))
feed_all-join p chunks = feed_all-feed_ref p chunks ∙ sym (feed-feed_ref p (join chunks))

-- All frames of a response: those of its chunks, then those of `flush` at its end.
unfoldable pub parse_response : List Text → List SseFrame
parse_response chunks = let (frames, p) = feed_all new_parser chunks in frames ++ (flush p).0

pub flush-joined : (p : SseParser) → (flush (joined p)).0 ≡ (flush p).0
unfolding flush joined
flush-joined p = ground (arith, append-nil (join p.partial))

-- Two ways to cut one response, end of stream included, give the same frames.
pub parse_response_chunks :
    (chunks others : List Text)
    → join chunks ≡ join others
    → parse_response chunks ≡ parse_response others
unfolding parse_response
parse_response_chunks chunks others same =
    let e : seen (feed_all new_parser chunks) ≡ seen (feed_all new_parser others) =
      feed_all-feed_ref new_parser chunks
      ∙ ap (feed_ref new_parser) same
      ∙ sym (feed_all-feed_ref new_parser others) in
    rw
      (← flush-joined (feed_all new_parser chunks).1, ← flush-joined (feed_all new_parser others).1)
      (ap (λ (r : List SseFrame × SseParser). r.0 ++ (flush r.1).0) e)
