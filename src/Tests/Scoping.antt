-- ===== src/Tests/Scoping.antt =====
-- Two sessions on one store whose stream names carry their prefixes.
use mcp_persist.Prelude.{
  ℕ, ◌≡◌, refl, ap, sym, arith, List, [], ◌∷◌, Option, none, some, Text, codes, text_eq,
  if◌then◌else◌,
}
use mcp_persist.Scope.{EventStore, replay_events_after}
use mcp_persist.Sqlite.State.{SqliteStore}
use mcp_persist.Sqlite.Read.{stream_id_for_event}
use mcp_persist.Tests.Storing.{marked, row_at, store}
use mcp_persist.Scope.Shared.{sqlite_events, sqlite_events_foreign}
use mcp_persist.Scope.Isolation.{IsConsistent, NoColon, owns-injective, replay_events_after_foreign}

-- A store of one event, "1", on the stream "a:s".
abbrev replay_one : Text → Option Text × List (Text × Text)
replay_one event_id =
    if text_eq event_id (codes "1")
    then (some (codes "a:s"), (codes "2", codes "{}") ∷ [])
    else (none, [])

abbrev one_event : EventStore Text Unit
one_event = record {
  lookup = some (λ s event_id. (replay_one event_id).0);
  replay = λ s event_id. replay_one event_id;
  store = λ s stream message. (codes "2", s);
}

abbrev answer : Option (Unit {0} → Text → Option Text) → Text → Option Text
answer none event_id = none
answer (some lookup) event_id = lookup tt event_id

one_event-IsConsistent : IsConsistent one_event
one_event-IsConsistent = record {
  agree = λ lookup s event_id e. ap (λ o. answer o event_id) (sym e);
}

a-NoColon : NoColon (codes "a")
a-NoColon = (refl, tt)

b-NoColon : NoColon (codes "b")
b-NoColon = (refl, tt)

owns-injective_example : codes "a" ≡ codes "a"
owns-injective_example =
    owns-injective (codes "a") (codes "a") (codes "a:s") a-NoColon a-NoColon refl refl

replay_events_after_foreign_example :
    replay_events_after one_event (codes "b") tt (codes "1") ≡ (none, [])
replay_events_after_foreign_example =
    replay_events_after_foreign one_event one_event-IsConsistent (codes "a") (codes "b") (codes "s")
      tt (codes "1") a-NoColon b-NoColon (λ e. ground arith) refl

-- Ids of one character.
abbrev int : Text → Option ℕ
int [] = none
int (c ∷ s) = some c

abbrev str : ℕ → Text
str n = n ∷ []

abbrev sessions : SqliteStore
sessions = record store {
  db = record { table = record { rows = row_at 3 (codes "a:s") 10 ∷ []; seq = 3 }; forks = [] };
}

sqlite_events_foreign_example :
    replay_events_after (sqlite_events marked int str 40) (codes "b") sessions (3 ∷ []) ≡ (none, [])
sqlite_events_foreign_example =
    sqlite_events_foreign marked int str 40 (codes "a") (codes "b") (codes "s") sessions (3 ∷ [])
      a-NoColon b-NoColon (λ e. ground arith) (unfold stream_id_for_event in refl)
