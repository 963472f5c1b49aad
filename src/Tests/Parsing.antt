-- ===== src/Tests/Parsing.antt =====
-- Streams of server-sent events, cut into chunks.
use mcp_persist.Prelude.{◌≡◌, refl, append-nil, List, [], ◌∷◌, Text, codes}
use mcp_persist.Sse.Chunks.{parse_response, parse_response_chunks}
use mcp_persist.Sse.Frames.{wire, frames_of, parse_response-wire}

abbrev in_pieces : List Text
in_pieces = codes "da" ∷ codes "ta: x\r" ∷ codes "\n\r" ∷ codes "\ndata: y\n\n" ∷ []

abbrev in_one : List Text
in_one = codes "data: x\r\n\r\ndata: y\n\n" ∷ []

parse_response_chunks_example : parse_response in_pieces ≡ parse_response in_one
parse_response_chunks_example = parse_response_chunks in_pieces in_one refl

abbrev two_events : List (Text × Text)
two_events = (codes "7", codes "{}") ∷ (codes "8", []) ∷ []

parse_response-wire_example : parse_response (wire two_events ∷ []) ≡ frames_of two_events
parse_response-wire_example =
    parse_response-wire two_events (wire two_events ∷ [])
      (((refl, tt), (refl, (refl, tt))), (((refl, tt), tt), tt)) (append-nil (wire two_events))
