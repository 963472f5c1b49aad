-- ===== src/Tiered.antt =====
-- src/mcp_persist/tiered.py: a hot store chained with a cold one, here two SQLite stores. An event id
-- that a client sends is `int(event_id)`, or `none` where that raises. Metrics are not modelled.
pub mod Replay
use mcp_persist.Prelude.{
  ℕ, Bool, true, false, not, ◌&&◌, List, [], ◌∷◌, ◌++◌, Option, none, some, Text, ltb, leb,
  if◌then◌else◌, filter_map,
}
use mcp_persist.Sqlite.State.{Codec, SqliteStore, Result, ok, err}
use mcp_persist.Sqlite.Write.{fork_stream}
use mcp_persist.Sqlite.Write
use mcp_persist.Sqlite.Read.{event_exists, stream_id_for_event, replay_stream, iter_stream_events}
use mcp_persist.Sqlite.Read

-- ChainedEventStore
pub record ChainedEventStore : Type 0 where
  pub hot : SqliteStore
  pub cold : SqliteStore

-- `cold_callback`: the id of the last event that it passed on
abbrev pub last_replayed {ℓ} : {M : Type ℓ} → ℕ → List (ℕ × M) → ℕ
last_replayed id [] = id
last_replayed id ((i, m) ∷ events) = last_replayed i events

-- `_replay_stream_after`: events at or before the id, and priming events, are passed over.
abbrev pub after_id {ℓ} : {M : Type ℓ} → ℕ → ℕ × Option M → Option (ℕ × M)
after_id id (i, none) = none
after_id id (i, some m) = if leb i id then none else some (i, m)

module _ {Message : Type 0} (codec : Codec Message) where
  -- `store_event`: new events go to the hot store only.
  unfoldable pub store_event : ChainedEventStore → Text → Option Message → ℕ → ℕ × ChainedEventStore
  store_event c stream message now =
      let (id, hot) = Write.store_event codec c.hot stream message now in
      (id, record c { hot = hot })

  -- The cold events behind the anchor, and the hot ones behind the last of these.
  unfoldable pub replay_cold : ChainedEventStore → ℕ → Text → ℕ → List (ℕ × Message)
  unfolding replay_stream iter_stream_events
  replay_cold c anchor stream now =
      let archived = replay_stream codec c.cold anchor stream now in
      let (events, hot) = iter_stream_events codec c.hot stream in
      archived ++ filter_map (after_id (last_replayed anchor archived)) events

  abbrev pub replay_resolved :
      ChainedEventStore → ℕ → ℕ → Option Text → Option Text × List (ℕ × Message)
  replay_resolved c anchor now none = (none, [])
  replay_resolved c anchor now (some stream) = (some stream, replay_cold c anchor stream now)

  -- `resolved_stream_id`
  abbrev pub resolved : ChainedEventStore → ℕ → Option Text → Option Text
  resolved c anchor (some stream) = some stream
  resolved c anchor none = stream_id_for_event c.cold (some anchor)

  -- `_replay_events_after_impl`
  unfoldable pub replay_events_after :
      ChainedEventStore → Option ℕ → Option Text → ℕ → Option Text × List (ℕ × Message)
  unfolding replay_cold event_exists stream_id_for_event
  replay_events_after c none stream now = (none, [])
  replay_events_after c (some anchor) stream now =
      if event_exists c.hot (some anchor)
      then Read.replay_events_after codec c.hot (some anchor) stream now
      else if event_exists c.cold (some anchor)
      then replay_resolved c anchor now (resolved c anchor stream)
      else (none, [])

-- `fork_stream`: in the hot store, then in the cold one; the first to raise ends it.
unfoldable pub fork_both : ChainedEventStore → Text → ℕ → Text → Result ChainedEventStore
unfolding fork_stream
fork_both c parent event_id child = elim (fork_stream c.hot parent event_id child) [
  | err e ↦ err e
  | ok hot ↦ elim (fork_stream c.cold parent event_id child) [
    | err e ↦ err e
    | ok cold ↦ ok (record { hot = hot; cold = cold })
  ]
]
