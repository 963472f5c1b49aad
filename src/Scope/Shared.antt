-- ===== src/Scope/Shared.antt =====
-- One SQLite store shared by all sessions, behind their scoped views. How an event id is written and
-- read, `str` and `int`, is a parameter; `int` yields `none` where it raises.
use mcp_persist.Prelude.{
  ℕ, ◌≡◌, ◌≢◌, refl, ap, sym, ◌∙◌, List, [], ◌++◌, Option, none, some, Text, map,
}
use mcp_persist.Sqlite.State.{Codec, SqliteStore}
use mcp_persist.Sqlite.Read.{stream_id_for_event, replay_found}
use mcp_persist.Sqlite.Read
use mcp_persist.Sqlite.Write
use mcp_persist.Scope.{EventStore, prefix_of, replay_events_after}
use mcp_persist.Scope.Isolation.{IsConsistent, NoColon, replay_events_after_foreign}

module _ {Message : Type 0} (codec : Codec Message) (int : Text → Option ℕ) (str : ℕ → Text)
    (now : ℕ) where
  abbrev pub named_events : Option Text × List (ℕ × Message) → Option Text × List (Text × Message)
  named_events (stream, events) = (stream, map (λ e. (str e.0, e.1)) events)

  abbrev pub named_id : ℕ × SqliteStore → Text × SqliteStore
  named_id (id, s) = (str id, s)

  -- The store at the time `now`, as its sessions use it.
  abbrev pub sqlite_events : EventStore Message SqliteStore
  sqlite_events = record {
    lookup = some (λ s event_id. stream_id_for_event s (int event_id));
    replay = λ s event_id. named_events (Read.replay_events_after codec s (int event_id) none now);
    store = λ s stream message. named_id (Write.store_event codec s stream message now);
  }

  stream-replay_found :
      (s : SqliteStore) (anchor : ℕ) (o : Option Text) → o ≡ (replay_found codec s anchor now o).0
  stream-replay_found s anchor none = refl
  stream-replay_found s anchor (some stream) = refl

  lookup-replay :
      (s : SqliteStore) (id : Option ℕ)
      → stream_id_for_event s id ≡ (Read.replay_events_after codec s id none now).0
  lookup-replay s none = unfold Read.replay_events_after stream_id_for_event in refl
  lookup-replay s (some id) =
      unfold Read.replay_events_after in stream-replay_found s id (stream_id_for_event s (some id))

  answer : Option (SqliteStore → Text → Option Text) → SqliteStore → Text → Option Text
  answer none s event_id = none
  answer (some lookup) s event_id = lookup s event_id

  -- The store's lookup answers the stream that a replay returns.
  sqlite_events-IsConsistent : IsConsistent sqlite_events
  unfolding answer
  sqlite_events-IsConsistent = record {
    agree = λ lookup s event_id e.
        ap (λ o. answer o s event_id) (sym e) ∙ lookup-replay s (int event_id);
  }

  -- On a SQLite store that sessions share, a session whose client names an event of another session's
  -- stream is sent nothing and is told no stream. The ids of the two sessions differ and do not contain
  -- the separator.
  pub sqlite_events_foreign :
      (a b stream : Text) (s : SqliteStore) (event_id : Text)
      → NoColon a
      → NoColon b
      → a ≢ b
      → stream_id_for_event s (int event_id) ≡ some (prefix_of a ++ stream)
      → replay_events_after sqlite_events b s event_id ≡ (none, [])
  sqlite_events_foreign a b stream s event_id na nb ne e =
      replay_events_after_foreign sqlite_events sqlite_events-IsConsistent a b stream s event_id na
        nb ne (sym (lookup-replay s (int event_id)) ∙ e)
