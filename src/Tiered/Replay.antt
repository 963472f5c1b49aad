-- ===== src/Tiered/Replay.antt =====
-- A chained replay against the replay of one store that holds both tables.
use mcp_persist.Prelude.{
  ℕ, ◌≤◌, ◌<◌, ◌≡◌, ap, ◌∙◌, refl, arith, true, false, List, [], ◌∷◌, ◌++◌, append-nil, Option,
  none, some, Text, filter, filter-append, filter_map, filter_map-append, Every, Every-filter_map,
}
use mcp_persist.Table.{Row, Table}
use mcp_persist.Sqlite.State.{Codec, SqliteStore}
use mcp_persist.Sqlite.Forks.{Segment, find_fork}
use mcp_persist.Sqlite.Forks.Chains.{get_stream_segments_unforked}
use mcp_persist.Sqlite.Read.{
  selected, delivered, in_segment, iterated, replay_segments, iter_segments, replay_stream,
  iter_stream_events, event_exists,
}
use mcp_persist.Tiered.{
  ChainedEventStore, last_replayed, after_id, replay_cold, replay_resolved, resolved,
  replay_events_after,
}

abbrev whole : Text → Segment
whole stream = record { stream = stream; min_id = none; max_id = none }

module _ {Message : Type 0} (codec : Codec Message) (stream : Text) (tenant : Option Text)
    (m : ℕ) where
  last_replayed-le :
      (events : List (ℕ × Message)) (anchor : ℕ)
      → anchor ≤ m
      → Every (λ e. e.0 ≤ m) events
      → last_replayed anchor events ≤ m
  last_replayed-le [] anchor le h = le
  last_replayed-le (e ∷ es) anchor le h = last_replayed-le es e.0 h.0 h.1

  after-iterated :
      (last : ℕ) (r : Row)
      → last < r.event_id
      → (elim (iterated codec stream r) [ none ↦ none | some e ↦ after_id last e ])
        ≡ delivered codec stream r
  after-iterated last r lt = ground arith

  hot-selected :
      (anchor last : ℕ) (rows : List Row)
      → anchor ≤ m
      → last ≤ m
      → Every (λ r. m < r.event_id) rows
      → filter_map (after_id last) (
          filter_map (iterated codec stream) (filter (in_segment codec tenant (whole stream)) rows))
        ≡ filter_map
            (delivered codec stream)
            (filter (selected tenant none (whole stream) anchor) rows)
  hot-selected anchor last [] la ll h = refl
  hot-selected anchor last (r ∷ rs) la ll h =
      ground
        (arith, after-iterated last r (omega (arith, h.0)), hot-selected anchor last rs la ll h.1)

  cold-le :
      (anchor : ℕ) (rows : List Row)
      → Every (λ r. r.event_id ≤ m) rows
      → Every
          (λ e. e.0 ≤ m)
          (filter_map
            (delivered codec stream)
            (filter (selected tenant none (whole stream) anchor) rows))
  cold-le anchor rows h =
      Every-filter_map (λ e. e.0 ≤ m) (delivered codec stream)
        (selected tenant none (whole stream) anchor) (λ r. r.event_id ≤ m) rows
        (λ r le e found. ground (arith, le, found)) h

-- One store with the rows of both, the cold ones first.
abbrev pub merged : ChainedEventStore → SqliteStore
merged c =
    let t : Table = record {
      rows = c.cold.db.table.rows ++ c.hot.db.table.rows;
      seq = c.hot.db.table.seq;
    } in
    record c.cold { db = record c.cold.db { table = t } }

-- The cold part of a replay, and the hot part behind it.
replay_cold-merged :
    {Message : Type 0} (codec : Codec Message) (c : ChainedEventStore) (anchor : ℕ) (stream : Text)
    (now m : ℕ)
    → c.cold.ttl ≡ none
    → c.hot.tenant_id ≡ c.cold.tenant_id
    → find_fork c.cold.db.forks stream ≡ none
    → find_fork c.hot.db.forks stream ≡ none
    → Every (λ r. r.event_id ≤ m) c.cold.db.table.rows
    → Every (λ r. m < r.event_id) c.hot.db.table.rows
    → anchor ≤ m
    → replay_cold codec c anchor stream now ≡ replay_stream codec (merged c) anchor stream now
unfolding replay_cold replay_stream iter_stream_events replay_segments iter_segments
replay_cold-merged codec c anchor stream now m forever same cold_root hot_root low high le =
    rw
      (
        forever,
        get_stream_segments_unforked c.cold.db.forks stream cold_root,
        get_stream_segments_unforked c.hot.db.forks stream hot_root,
        same,
      )
      (simp append-nil (
        rw (
          filter-append (selected c.cold.tenant_id none (whole stream) anchor) c.cold.db.table.rows
              c.hot.db.table.rows,
          filter_map-append (delivered codec stream),
          hot-selected codec stream c.cold.tenant_id m anchor
              (last_replayed anchor (
                filter_map (delivered codec stream) (
                  filter (selected c.cold.tenant_id none (whole stream) anchor)
                    c.cold.db.table.rows)))
              c.hot.db.table.rows le
              (last_replayed-le codec stream c.cold.tenant_id m _ anchor le
                (cold-le codec stream c.cold.tenant_id m anchor c.cold.db.table.rows low))
              high,
        )))

-- A chained replay from an event that only the cold store holds gives the events that one store without a
-- ttl and with the rows of both would replay: none is lost or repeated where the two meet. The client
-- names the stream, or the cold store finds it by the event. The hot store's own ttl is not applied: its
-- events past their ttl that are still there are replayed too. The cold store has no ttl, every id in it
-- lies below those of the hot one, the two have one tenant, and the stream is no fork.
pub replay_events_after-merged :
    {Message : Type 0} (codec : Codec Message) (c : ChainedEventStore) (anchor : ℕ)
    (given : Option Text) (stream : Text) (now m : ℕ)
    → resolved codec c anchor given ≡ some stream
    → event_exists c.hot (some anchor) ≡ false
    → event_exists c.cold (some anchor) ≡ true
    → c.cold.ttl ≡ none
    → c.hot.tenant_id ≡ c.cold.tenant_id
    → find_fork c.cold.db.forks stream ≡ none
    → find_fork c.hot.db.forks stream ≡ none
    → Every (λ r. r.event_id ≤ m) c.cold.db.table.rows
    → Every (λ r. m < r.event_id) c.hot.db.table.rows
    → anchor ≤ m
    → replay_events_after codec c (some anchor) given now
      ≡ (some stream, replay_stream codec (merged c) anchor stream now)
unfolding replay_events_after
replay_events_after-merged codec c anchor given stream now m known out in_cold forever same
      cold_root hot_root low high le =
    rw (out, in_cold)
      (ap (replay_resolved codec c anchor now) known
        ∙ ap (λ events. (some stream, events))
            (replay_cold-merged codec c anchor stream now m forever same cold_root hot_root low high
              le))
