-- ===== src/StreamBuffer.antt =====
-- src/mcp_persist/_stream_buffer.py, `StreamBuffer`: one upstream stream that is stored and kept in a
-- bounded window, and a consumer that reads from its own cursor. The producer's task and the consumer
-- run in turns, from one `await` or `yield` to the next. What the store holds of the stream is part of
-- the state, and an id has this stream as its owner if the stream has an event with it there; the text
-- that a replay makes of a stored message is a parameter.
pub mod Order
pub mod Progress
pub mod Sources
pub mod Consumer
pub mod Producer
pub mod Complete
use mcp_persist.Prelude.{
  ℕ, zero, suc, ◌+◌, ◌-◌, Bool, true, false, not, ◌&&◌, List, [], ◌∷◌, ◌++◌, Option, none, some,
  Text, ltb, leb, ◌==◌, if◌then◌else◌, filter, map, length, drop,
}

-- An event of the stream; a priming event has no data.
pub record Event : Type 0 where
  pub event_id : ℕ
  pub payload : Text

pub data Phase : Type 0 where
  -- at the head of the loop, or parked behind it
  top parked : Phase
  -- awaiting the store, and with what it replayed
  reading : Phase
  replayed : List Event → Phase
  -- between two events of a replay, or of a snapshot of the window
  in_replay : List Event → Phase
  in_window : List Event → Phase
  -- returned, or raised what the producer raised
  returned raised : Phase

pub record Run : Type 0 where
  -- the store's events of this stream, and the one that is stored and not yet in the window
  pub stored : List Event
  pub pending : Option Event
  pub window : List Event
  pub done : Bool
  pub failed : Bool
  -- the consumer
  pub cursor : Option ℕ
  pub phase : Phase
  pub delivered : List Event

-- `deque.append` with a `maxlen`
abbrev pub append_bounded : ℕ → List Event → Event → List Event
append_bounded maxlen window e = let all = window ++ e ∷ [] in drop (length all - maxlen) all

-- `_notify`
abbrev pub notify : Phase → Phase
notify top = top
notify parked = top
notify reading = reading
notify (replayed es) = replayed es
notify (in_replay es) = in_replay es
notify (in_window es) = in_window es
notify returned = returned
notify raised = raised

-- `cursor is None or int(event_id) > int(cursor)`
abbrev pub is_after : Option ℕ → Event → Bool
is_after none e = true
is_after (some c) e = ltb c e.event_id

-- `_cold_needed`
abbrev pub cold_needed : Option ℕ → List Event → Bool
cold_needed none window = false
cold_needed (some c) [] = true
cold_needed (some c) (e ∷ es) = ltb c e.event_id

abbrev pub is_empty : Text → Bool
is_empty [] = true
is_empty (c ∷ t) = false

-- `yield event_id, data` and `cursor = event_id`
abbrev pub deliver : Event → Phase → Run → Run
deliver e p r = record r { cursor = some e.event_id; phase = p; delivered = r.delivered ++ e ∷ [] }

-- A pass over the window that yields nothing: the producer has ended, by an exception or not, or the
-- consumer waits.
abbrev pub end_phase : Bool → Bool → Phase
end_phase true true = raised
end_phase true false = returned
end_phase false failed = parked

abbrev pub pass_end : Bool → Run → Run
pass_end true r = record r { phase = top }
pass_end false r = record r { phase = end_phase r.done r.failed }

-- The pass over a snapshot of the window, to its next event.
unfoldable pub pass : Bool → List Event → Run → Run
pass progressed [] r = pass_end progressed r
pass progressed (e ∷ es) r =
    let rest = pass progressed es r in
    if is_after r.cursor e then deliver e (in_window es) r else rest

-- An id is among events.
abbrev pub has_id : ℕ → List Event → Bool
has_id n [] = false
has_id n (e ∷ es) = if e.event_id == n then true else has_id n es

module _ (rewrite : Text → Text) where
  -- What `replay_events_after` yields behind a cursor: messages, without the priming events.
  abbrev pub replay_after : ℕ → List Event → List Event
  replay_after c [] = []
  replay_after c (e ∷ es) =
      if ltb c e.event_id && not (is_empty e.payload)
      then record e { payload = rewrite e.payload } ∷ replay_after c es
      else replay_after c es

  -- A cursor of another stream, or one that the store does not know, replays nothing.
  abbrev pub replay : Option ℕ → List Event → List Event
  replay none es = []
  replay (some c) es = if has_id c es then replay_after c es else []

  -- The consumer's next step in `consume_from`.
  abbrev pub consume_at : Phase → Run → Run
  consume_at top r =
      if cold_needed r.cursor r.window then record r { phase = reading } else pass false r.window r
  consume_at parked r = r
  consume_at reading r = record r { phase = replayed (replay r.cursor r.stored) }
  consume_at (replayed []) r = pass false r.window r
  consume_at (replayed (e ∷ es)) r = deliver e (in_replay es) r
  consume_at (in_replay []) r = record r { phase = top }
  consume_at (in_replay (e ∷ es)) r = deliver e (in_replay es) r
  consume_at (in_window es) r = pass true es r
  consume_at returned r = r
  consume_at raised r = r

-- `_ingest` puts the stored event in the window.
abbrev pub appended : ℕ → Option Event → Run → Run
appended maxlen none r = r
appended maxlen (some e) r = record r {
  pending = none;
  window = append_bounded maxlen r.window e;
  phase = notify r.phase;
}

abbrev pub is_none : Option Event → Bool
is_none none = true
is_none (some e) = false

-- A turn: `_ingest` stores an event under its new id, or puts it in the window; `_consume` ends; or the
-- consumer goes on.
pub data Turn : Type 0 where
  store_turn : Event → Turn
  append_turn : Turn
  end_turn : Bool → Turn
  consume_turn : Turn

module _ (maxlen : ℕ) (rewrite : Text → Text) where
  unfoldable pub turn : Turn → Run → Run
  unfolding pass
  turn (store_turn e) r =
      if is_none r.pending && not r.done
      then record r { stored = r.stored ++ e ∷ []; pending = some e }
      else r
  turn append_turn r = appended maxlen r.pending r
  turn (end_turn failed) r =
      if is_none r.pending && not r.done
      then record r { done = true; failed = failed; phase = notify r.phase }
      else r
  turn consume_turn r = consume_at rewrite r.phase r

  unfoldable pub run : List Turn → Run → Run
  unfolding turn
  run [] r = r
  run (t ∷ ts) r = run ts (turn t r)

-- A buffer before its first event, and a consumer behind `after`; `old` is what the store has already.
abbrev pub fresh : List Event → Option ℕ → Run
fresh old after = record {
  stored = old;
  pending = none;
  window = [];
  done = false;
  failed = false;
  cursor = after;
  phase = top;
  delivered = [];
}
