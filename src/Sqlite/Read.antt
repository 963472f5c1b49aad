-- ===== src/Sqlite/Read.antt =====
-- sqlite.py: replay, iteration, subscription and the lookups by event id. An event id that a client
-- sends is `int(event_id)`, or `none` where that raises. Log lines are not modelled.
pub mod Segments
pub mod Stored
use mcp_persist.Prelude.{
  ℕ, zero, suc, ◌+◌, ◌-◌, max, Bool, true, false, not, ◌&&◌, List, [], ◌∷◌, ◌++◌, Option, none,
  some, Text, text_eq, ltb, leb, ◌==◌, if◌then◌else◌, filter, filter_map, find?, any, length,
}
use mcp_persist.Table.{Row, Table, in_scope}
use mcp_persist.Sqlite.State.{
  Codec, Fork, SqliteStore, StoreError, not_streaming, bad_poll_interval, Result, ok, err,
}
use mcp_persist.Sqlite.Forks.{Segment, get_stream_segments}

-- `SELECT stream_id … WHERE event_id = ?` in the store's scope
abbrev pub find_event : SqliteStore → ℕ → Option Row
find_event s id = find? (λ r. r.event_id == id && in_scope s.tenant_id r) s.db.table.rows

-- `_stream_id_for_event`
unfoldable pub stream_id_for_event : SqliteStore → Option ℕ → Option Text
stream_id_for_event s none = none
stream_id_for_event s (some id) = elim (find_event s id) [ none ↦ none | some r ↦ some r.stream_id ]

-- `_event_exists`
unfoldable pub event_exists : SqliteStore → Option ℕ → Bool
event_exists s none = false
event_exists s (some id) = elim (find_event s id) [ none ↦ false | some _ ↦ true ]

-- `cutoff = time.time() - self._ttl if self._ttl is not None else None`
abbrev pub ttl_cutoff : Option ℕ → ℕ → Option ℕ
ttl_cutoff none now = none
ttl_cutoff (some ttl) now = some (now - ttl)

-- `created_at >= ?`, `event_id <= ?`, where there is such a clause
abbrev pub at_least : Option ℕ → ℕ → Bool
at_least none n = true
at_least (some bound) n = leb bound n

abbrev pub at_most : Option ℕ → ℕ → Bool
at_most none n = true
at_most (some bound) n = leb n bound

-- `low`: the later of the client's event and the fork point
abbrev pub low_id : ℕ → Option ℕ → ℕ
low_id anchor none = anchor
low_id anchor (some min) = if ltb anchor min then min else anchor

-- `if max_id is not None and low >= max_id: continue`
abbrev pub is_past : Option ℕ → ℕ → Bool
is_past none low = false
is_past (some bound) low = leb bound low

-- The SELECT of one segment.
abbrev pub selected : Option Text → Option ℕ → Segment → ℕ → Row → Bool
selected tenant cutoff seg low r =
    text_eq r.stream_id seg.stream
    && in_scope tenant r
    && ltb low r.event_id
    && at_most seg.max_id r.event_id
    && at_least cutoff r.created_at

module _ {Message : Type 0} (codec : Codec Message) where
  -- The loop over the rows: a priming event or a payload that does not decode is passed over.
  abbrev pub delivered : Text → Row → Option (ℕ × Message)
  delivered stream r = elim r.payload [
    | [] ↦ none
    | c ∷ p ↦ elim (codec.decode stream (c ∷ p)) [ none ↦ none | some m ↦ some (r.event_id, m) ]
  ]

  abbrev pub replay_segment : Option Text → Option ℕ → ℕ → List Row → Segment → List (ℕ × Message)
  replay_segment tenant cutoff anchor rows seg =
      let low = low_id anchor seg.min_id in
      if is_past seg.max_id low
      then []
      else filter_map (delivered seg.stream) (filter (selected tenant cutoff seg low) rows)

  unfoldable pub replay_segments :
      Option Text → Option ℕ → ℕ → List Row → List Segment → List (ℕ × Message)
  replay_segments tenant cutoff anchor rows [] = []
  replay_segments tenant cutoff anchor rows (seg ∷ segs) =
      replay_segment tenant cutoff anchor rows seg ++ replay_segments tenant cutoff anchor rows segs

  -- The events that `_replay_events_after_impl` hands to the callback for a stream that is known.
  unfoldable pub replay_stream : SqliteStore → ℕ → Text → ℕ → List (ℕ × Message)
  unfolding replay_segments
  replay_stream s anchor stream now =
      replay_segments s.tenant_id (ttl_cutoff s.ttl now) anchor s.db.table.rows
        (get_stream_segments s.db.forks stream)

  -- `resolved_stream_id`, or `None` where there is no such event.
  abbrev pub replay_found : SqliteStore → ℕ → ℕ → Option Text → Option Text × List (ℕ × Message)
  replay_found s anchor now none = (none, [])
  replay_found s anchor now (some stream) = (some stream, replay_stream s anchor stream now)

  -- `_replay_events_after_impl`: the stream that it returns, and what the callback received.
  unfoldable pub replay_events_after :
      SqliteStore → Option ℕ → Option Text → ℕ → Option Text × List (ℕ × Message)
  unfolding replay_stream stream_id_for_event
  replay_events_after s none stream now = (none, [])
  replay_events_after s (some anchor) (some stream) now = replay_found s anchor now (some stream)
  replay_events_after s (some anchor) none now =
      replay_found s anchor now (stream_id_for_event s (some anchor))

  -- The SELECT of `_iter_stream_events`: no expiry, and the fork point as lower bound.
  abbrev pub in_segment : Option Text → Segment → Row → Bool
  in_segment tenant seg r =
      text_eq r.stream_id seg.stream
      && in_scope tenant r
      && (elim seg.min_id [ none ↦ true | some min ↦ ltb min r.event_id ])
      && at_most seg.max_id r.event_id

  -- What it yields for a row, or `none` where the payload does not decode.
  abbrev pub iterated : Text → Row → Option (ℕ × Option Message)
  iterated stream r = elim r.payload [
    | [] ↦ some (r.event_id, none)
    | c ∷ p ↦ elim (codec.decode stream (c ∷ p)) [
      | none ↦ none
      | some m ↦ some (r.event_id, some m)
    ]
  ]

  unfoldable pub iter_segments :
      Option Text → List Row → List Segment → List (ℕ × Option Message) × ℕ
  iter_segments tenant rows [] = ([], 0)
  iter_segments tenant rows (seg ∷ segs) =
      let found = filter (in_segment tenant seg) rows in
      let read = filter_map (iterated seg.stream) found in
      let (later, unread) = iter_segments tenant rows segs in
      (read ++ later, (length found - length read) + unread)

  -- `_iter_stream_events`: the events, and the store with its count of unreadable ones.
  unfoldable pub iter_stream_events : SqliteStore → Text → List (ℕ × Option Message) × SqliteStore
  unfolding iter_segments
  iter_stream_events s stream =
      let (events, unread) =
        iter_segments s.tenant_id s.db.table.rows (get_stream_segments s.db.forks stream) in
      (events, record s { unreadable_events = s.unreadable_events + unread })

  abbrev pub on_stream : Option Text → Text → ℕ → Row → Bool
  on_stream tenant stream last_seen r =
      text_eq r.stream_id stream && in_scope tenant r && ltb last_seen r.event_id

  -- `last_seen = event_id_int` for each row
  abbrev pub last_id : ℕ → List Row → ℕ
  last_id seen [] = seen
  last_id seen (r ∷ rs) = last_id r.event_id rs

  -- One turn of the loop of `subscribe`.
  unfoldable pub poll : SqliteStore → Text → ℕ → List (ℕ × Message) × ℕ
  poll s stream last_seen =
      let rows = filter (on_stream s.tenant_id stream last_seen) s.db.table.rows in
      (filter_map (delivered stream) rows, last_id last_seen rows)

-- `SELECT MAX(event_id)`, 0 on an empty stream
pub newest_id : Option Text → Text → List Row → ℕ
newest_id tenant stream [] = 0
newest_id tenant stream (r ∷ rs) =
    let later = newest_id tenant stream rs in
    if text_eq r.stream_id stream && in_scope tenant r then max r.event_id later else later

-- The start of `subscribe`: its checks, and the newest id of the stream.
unfoldable pub subscribe : SqliteStore → Text → ℕ → Result ℕ
unfolding newest_id
subscribe s stream poll_interval =
    if not s.enable_streaming
    then err not_streaming
    else if poll_interval == 0
    then err bad_poll_interval
    else ok (newest_id s.tenant_id stream s.db.table.rows)

-- SELECT DISTINCT
abbrev pub insert_new : Text → List Text → List Text
insert_new x xs = if any (text_eq x) xs then xs else x ∷ xs

pub distinct_streams : Option Text → List Row → List Text
distinct_streams tenant [] = []
distinct_streams tenant (r ∷ rs) =
    let rest = distinct_streams tenant rs in
    if in_scope tenant r then insert_new r.stream_id rest else rest

-- `list_streams`
unfoldable pub list_streams : SqliteStore → List Text
unfolding distinct_streams
list_streams s = distinct_streams s.tenant_id s.db.table.rows
