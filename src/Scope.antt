-- ===== src/Scope.antt =====
-- src/mcp_persist/session_scope.py: one session's view of a store that all sessions share, and the
-- gate of src/mcp_persist/proxy.py, `_store_replay`. The shared store is a parameter.
pub mod Isolation
pub mod Shared
use mcp_persist.Prelude.{
  ℕ, Bool, true, false, List, [], ◌∷◌, ◌++◌, Option, none, some, Text, text_eq, after_prefix,
  if◌then◌else◌,
}

-- An `EventStore`: what `_owning_stream` finds out of `_stream_id_for_event`, `none` where the store
-- has no such lookup (`_UNKNOWN`); the replay with its stream; and the write.
pub record EventStore (Message S : Type 0) : Type 0 where
  pub lookup : Option (S → Text → Option Text)
  pub replay : S → Text → Option Text × List (Text × Message)
  pub store : S → Text → Option Message → Text × S

abbrev pub owning_from :
    {S : Type 0} → Option (S → Text → Option Text) → S → Text → Option (Option Text)
owning_from none s event_id = none
owning_from (some lookup) s event_id = some (lookup s event_id)

-- `_owning_stream`: `none` is `_UNKNOWN`, `some none` an unknown event.
unfoldable pub owning_stream :
    {Message S : Type 0} → EventStore Message S → S → Text → Option (Option Text)
owning_stream e s event_id = owning_from e.lookup s event_id

-- SESSION_STREAM_SEPARATOR
abbrev pub separator : Text
separator = b':' ∷ []

-- `self._prefix`
abbrev pub prefix_of : Text → Text
prefix_of session = session ++ separator

-- `_owns`
abbrev pub owns : Text → Text → Bool
owns session stream = elim (after_prefix (prefix_of session) stream) [
  | none ↦ false
  | some _ ↦ true
]

-- `_unprefixed`
abbrev pub unprefixed : Text → Option Text → Option Text
unprefixed session none = none
unprefixed session (some stream) = after_prefix (prefix_of session) stream

module _ {Message S : Type 0} (e : EventStore Message S) where
  -- SessionScopedEventStore.store_event
  unfoldable pub store_event : Text → S → Text → Option Message → Text × S
  store_event session s stream message = e.store s (prefix_of session ++ stream) message

  -- The branch where the store does not name the stream: the replay is held back until it is done.
  abbrev pub collected :
      Text → Option Text × List (Text × Message) → Option Text × List (Text × Message)
  collected session (none, events) = (none, [])
  collected session (some stream, events) =
      if owns session stream then (unprefixed session (some stream), events) else (none, [])

  abbrev pub unprefixed_first :
      Text → Option Text × List (Text × Message) → Option Text × List (Text × Message)
  unprefixed_first session (stream, events) = (unprefixed session stream, events)

  abbrev pub replay_owned :
      Text → S → Text → Option (Option Text) → Option Text × List (Text × Message)
  replay_owned session s event_id none = collected session (e.replay s event_id)
  replay_owned session s event_id (some none) = (none, [])
  replay_owned session s event_id (some (some owner)) =
      if owns session owner then unprefixed_first session (e.replay s event_id) else (none, [])

  -- SessionScopedEventStore.replay_events_after: the stream it returns, and what the client is sent.
  unfoldable pub replay_events_after : Text → S → Text → Option Text × List (Text × Message)
  unfolding owning_stream
  replay_events_after session s event_id =
      replay_owned session s event_id (owning_stream e s event_id)

  -- proxy.py `_store_replay`: the events that it yields.
  abbrev pub yielded : Text → Option Text × List (Text × Message) → List (Text × Message)
  yielded session (none, events) = []
  yielded session (some stream, events) = if owns session stream then events else []

  abbrev pub store_replay_from : Text → S → Text → Option (Option Text) → List (Text × Message)
  store_replay_from session s event_id none = yielded session (e.replay s event_id)
  store_replay_from session s event_id (some none) = []
  store_replay_from session s event_id (some (some known)) =
      if owns session known then yielded session (e.replay s event_id) else []

  unfoldable pub store_replay : Text → S → Text → List (Text × Message)
  unfolding owning_stream
  store_replay session s event_id =
      store_replay_from session s event_id (owning_stream e s event_id)

-- `_scope_transport`: the store that a session's transport gets. `view` is a store or a scoped view.
pub data View (S : Type 0) : Type 0 where
  shared : S → View S
  scoped : S → Text → View S

pub data Transport (S : Type 0) : Type 0 where
  no_attribute : Transport S
  with_store : Option (View S) → Transport S

pub data ScopeResult (S : Type 0) : Type 0 where
  ok : Transport S → ScopeResult S
  unsupported : ScopeResult S

unfoldable pub scope_transport : {S : Type 0} → Transport S → Text → Option S → ScopeResult S
scope_transport transport session none = ok transport
scope_transport no_attribute session (some store) = unsupported
scope_transport (with_store none) session (some store) = ok (with_store none)
scope_transport (with_store (some (shared current))) session (some store) =
    ok (with_store (some (scoped current session)))
scope_transport (with_store (some (scoped current other))) session (some store) =
    if text_eq other session
    then ok (with_store (some (scoped current other)))
    else ok (with_store (some (scoped current session)))
