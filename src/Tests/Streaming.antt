-- ===== src/Tests/Streaming.antt =====
-- A stream buffer whose window holds one event.
use mcp_persist.Prelude.{ℕ, ◌<◌, ◌≡◌, refl, arith, false, List, [], ◌∷◌, some, Text, codes, Every}
use mcp_persist.StreamBuffer.{
  Event, returned, Turn, store_turn, append_turn, end_turn, consume_turn, run, turn, pass, fresh,
  has_id,
}
use mcp_persist.StreamBuffer.Order.{Rising}
use mcp_persist.StreamBuffer.Complete.{IsDelivered, AreTurns, run-delivered}

abbrev same : Text → Text
same t = t

abbrev event : ℕ → Event
event id = record { event_id = id; payload = codes "{}" }

abbrev old : List Event
old = event 1 ∷ event 2 ∷ []

-- The consumer reads the second event from the store, a new one is stored meanwhile, and the stream ends.
abbrev turns : List Turn
turns =
    consume_turn
    ∷ consume_turn
    ∷ store_turn (event 3)
    ∷ consume_turn
    ∷ append_turn
    ∷ consume_turn
    ∷ consume_turn
    ∷ consume_turn
    ∷ consume_turn
    ∷ end_turn false
    ∷ consume_turn
    ∷ consume_turn
    ∷ []

turns-returned : (run 1 same turns (fresh old (some 1))).phase ≡ returned
unfolding run turn pass
turns-returned = refl

turns-AreTurns : AreTurns same 1 turns (fresh old (some 1))
unfolding turn pass
turns-AreTurns =
    (tt, (tt, ((omega arith, refl), (tt, (tt, (tt, (tt, (tt, (tt, (tt, (tt, (tt, tt))))))))))))

run-delivered_example :
    Rising (run 1 same turns (fresh old (some 1))).delivered
    × Every (λ d. 1 < d.event_id) (run 1 same turns (fresh old (some 1))).delivered
    × ((run 1 same turns (fresh old (some 1))).phase ≡ returned
        → Every
            (IsDelivered same 1 (run 1 same turns (fresh old (some 1))).delivered)
            (run 1 same turns (fresh old (some 1))).stored)
run-delivered_example =
    run-delivered same 1 1 old turns ((omega arith, tt), (tt, tt)) refl turns-AreTurns

-- Two events arrive between a replay that yields nothing and the look at the window: the first is lost.
abbrev burst : List Turn
burst =
    consume_turn
    ∷ consume_turn
    ∷ store_turn (event 3)
    ∷ append_turn
    ∷ store_turn (event 4)
    ∷ append_turn
    ∷ consume_turn
    ∷ end_turn false
    ∷ consume_turn
    ∷ consume_turn
    ∷ []

burst-returned : (run 1 same burst (fresh (event 1 ∷ []) (some 1))).phase ≡ returned
unfolding run turn pass
burst-returned = refl

burst-lost : has_id 3 (run 1 same burst (fresh (event 1 ∷ []) (some 1))).delivered ≡ false
unfolding run turn pass
burst-lost = refl
