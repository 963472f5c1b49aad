-- ===== src/Sse/Frames.antt =====
-- src/mcp_persist/proxy.py, `_sse_frame`: the bytes that the proxy writes for one event, read back by
-- the parser of _sse_parser.py.
use mcp_persist.Prelude.{
  ◌≡◌, refl, ap, sym, ◌∙◌, false, ◌||◌, List, [], ◌∷◌, ◌++◌, append-nil, append_assoc, none, some,
  arith, Text, codes, ◌==◌, Every,
}
use mcp_persist.Sse.{
  SseParser, SseFrame, new_parser, join, feed_all, flush, cr, lf, strip_last_lf, process,
}
use mcp_persist.Sse.Lexer.{lex}
use mcp_persist.Sse.Chunks.{
  joined, seen, feed_lines, feed_ref, feed_ref-append, feed_ref-joined, feed_all-feed_ref,
  flush-joined, parse_response,
}

abbrev crlf : Text
crlf = cr ∷ lf ∷ []

-- proxy.py `_sse_frame`
pub sse_frame : Text → Text → Text
sse_frame event_id [] = codes "id: " ++ (event_id ++ (crlf ++ (codes "data: " ++ (crlf ++ crlf))))
sse_frame event_id (c ∷ s) =
    codes "id: "
    ++ (event_id
        ++ (crlf
            ++ (codes "event: message"
                ++ (crlf ++ (codes "data: " ++ ((c ∷ s) ++ (crlf ++ crlf)))))))

-- A text with no line terminator, which a field's value must be.
abbrev pub OneLine : Text → Type 0
OneLine = Every (λ c. (c == cr || c == lf) ≡ false)

-- A line and its "\r\n" are one line of the reference.
lex-line :
    (cur s t : Text)
    → OneLine s
    → lex false cur (s ++ (crlf ++ t))
      ≡ ((cur ++ s) ∷ (lex false [] t).0, (lex false [] t).1, (lex false [] t).2)
unfolding lex
lex-line cur [] t h = rw append-nil
lex-line cur (c ∷ s) t h =
    rw (sym (append_assoc cur (c ∷ []) s))
      (unfold lex in ground (arith, h.0, lex-line (cur ++ c ∷ []) s t h.1))

strip_last_lf-snoc : (s : Text) → strip_last_lf (s ++ lf ∷ []) ≡ s
unfolding strip_last_lf
strip_last_lf-snoc [] = refl
strip_last_lf-snoc (c ∷ []) = refl
strip_last_lf-snoc (c ∷ d ∷ s) = ap (◌∷◌ c) (strip_last_lf-snoc (d ∷ s))

-- The frame that stands for one stored event.
abbrev pub event_frame : Text → Text → SseFrame
event_frame event_id [] = record { text = []; event = none; original_id = some event_id }
event_frame event_id (c ∷ s) = record {
  text = c ∷ s;
  event = some (codes "message");
  original_id = some event_id;
}

abbrev frame_lines : Text → Text → List Text
frame_lines event_id [] = (codes "id: " ++ event_id) ∷ codes "data: " ∷ [] ∷ []
frame_lines event_id (c ∷ s) =
    (codes "id: " ++ event_id) ∷ codes "event: message" ∷ (codes "data: " ++ c ∷ s) ∷ [] ∷ []

-- A parser between two events.
abbrev idle : SseParser
idle = record { partial = [] ∷ []; held_cr = false; text = []; event = none; id = none }

lex-sse_frame :
    (event_id s : Text)
    → OneLine event_id
    → OneLine s
    → lex false [] (sse_frame event_id s) ≡ (frame_lines event_id s, false, [])
unfolding sse_frame
lex-sse_frame event_id [] h k =
    rw
      (
        lex-line [] (codes "id: " ++ event_id) (codes "data: " ++ (crlf ++ crlf))
            (refl, (refl, (refl, (refl, h)))),
        lex-line [] (codes "data: ") crlf (refl, (refl, (refl, (refl, (refl, (refl, tt)))))),
      )
      (unfold lex in refl)
lex-sse_frame event_id (c ∷ s) h k =
    rw
      (
        lex-line [] (codes "id: " ++ event_id) _ (refl, (refl, (refl, (refl, h)))),
        lex-line [] (codes "event: message") _ (
          refl,
          (
            refl,
            (
              refl,
              (
                refl,
                (refl, (refl, (refl, (refl, (refl, (refl, (refl, (refl, (refl, (refl, tt)))))))))),
              ),
            ),
          ),
        ),
        lex-line [] (codes "data: " ++ c ∷ s) crlf
            (refl, (refl, (refl, (refl, (refl, (refl, k)))))),
      )
      (unfold lex in refl)

process-frame_lines :
    (event_id s : Text)
    → process idle (frame_lines event_id s) ≡ (event_frame event_id s ∷ [], idle)
unfolding process
process-frame_lines event_id [] = refl
process-frame_lines event_id (c ∷ s) = rw (strip_last_lf-snoc (c ∷ s))

-- The bytes of some events, as `_pump` writes them one after the other.
pub wire : List (Text × Text) → Text
wire [] = []
wire ((event_id, s) ∷ events) = sse_frame event_id s ++ wire events

abbrev pub frames_of : List (Text × Text) → List SseFrame
frames_of [] = []
frames_of ((event_id, s) ∷ events) = event_frame event_id s ∷ frames_of events

abbrev pub OneLines : List (Text × Text) → Type 0
OneLines = Every (λ e. OneLine e.0 × OneLine e.1)

feed_ref-sse_frame :
    (event_id s : Text)
    → OneLine event_id
    → OneLine s
    → feed_ref idle (sse_frame event_id s) ≡ (event_frame event_id s ∷ [], idle)
unfolding feed_ref feed_lines
feed_ref-sse_frame event_id s h k =
    rw (lex-sse_frame event_id s h k, process-frame_lines event_id s)

feed_ref-wire :
    (events : List (Text × Text))
    → OneLines events
    → feed_ref idle (wire events) ≡ (frames_of events, idle)
unfolding wire
feed_ref-wire [] h = unfold feed_ref feed_lines lex process in refl
feed_ref-wire ((event_id, s) ∷ events) h = rw (
  feed_ref-append idle (sse_frame event_id s) (wire events),
  feed_ref-sse_frame event_id s h.0.0 h.0.1,
  feed_ref-wire events h.1,
)

-- The events that the proxy writes are the frames that the parser reads back, in order and complete,
-- however the network cuts the bytes, if no id and no payload contains a line terminator: an event
-- with a payload as a "message" event, a priming event as a frame with empty data.
pub parse_response-wire :
    (events : List (Text × Text)) (chunks : List Text)
    → OneLines events
    → join chunks ≡ wire events
    → parse_response chunks ≡ frames_of events
unfolding parse_response flush joined
parse_response-wire events chunks h e =
    let state : seen (feed_all new_parser chunks) ≡ (frames_of events, idle) =
      feed_all-feed_ref new_parser chunks
      ∙ ap (feed_ref new_parser) e
      ∙ sym (feed_ref-joined new_parser (wire events))
      ∙ feed_ref-wire events h in
    rw (← flush-joined (feed_all new_parser chunks).1)
      (ap (λ (r : List SseFrame × SseParser). r.0 ++ (flush r.1).0) state ∙ at_end)
  where
    at_end : frames_of events ++ (flush idle).0 ≡ frames_of events
    at_end = append-nil (frames_of events)
