-- ===== src/Sqlite/Write.antt =====
-- sqlite.py: storing events, the write-behind buffer, and the writes of forks and of archived events.
pub mod Laws
use mcp_persist.Prelude.{
  ℕ, zero, suc, ◌+◌, Bool, true, false, not, ◌&&◌, List, [], ◌∷◌, ◌++◌, Option, none, some, Text,
  text_eq, leb, ◌==◌, if◌then◌else◌, filter,
}
use mcp_persist.Table.{Row, Table, insert, upsert}
use mcp_persist.Sqlite.State.{
  Codec, Fork, Db, SqliteStore, StoreError, fork_into_itself, Result, ok, err, commit, with_table,
}

-- `_ensure_flusher`: the background task runs once there is an interval.
unfoldable pub ensure_flusher : SqliteStore → SqliteStore
ensure_flusher s = elim s.commit_interval [ none ↦ s | some _ ↦ record s { flushing = true } ]

-- `_flush`, one turn of `_commit_loop`
unfoldable pub flush : SqliteStore → SqliteStore
unfolding commit
flush s = if s.pending == 0 then s else record (commit s) { pending = 0 }

-- `aclose`
unfoldable pub aclose : SqliteStore → SqliteStore
unfolding flush
aclose s = flush (record s { flushing = false })

abbrev reached : Option ℕ → ℕ → Bool
reached none pending = false
reached (some limit) pending = leb limit pending

-- The branch of `_store_event_impl` behind its INSERT.
abbrev pub after_insert : Option ℕ → Option ℕ → SqliteStore → SqliteStore
after_insert none none s = commit s
after_insert interval max_pending s =
    let s' = ensure_flusher s in
    let s'' = record s' { pending = s'.pending + 1 } in
    if reached max_pending s''.pending then flush s'' else s''

module _ {Message : Type 0} (codec : Codec Message) where
  -- A priming event, `None`, has the empty payload.
  abbrev pub payload_of : Text → Option Message → Text
  payload_of stream none = []
  payload_of stream (some m) = codec.encode stream m

  -- `_store_event_impl`, at the time `now`
  unfoldable pub store_event : SqliteStore → Text → Option Message → ℕ → ℕ × SqliteStore
  unfolding ensure_flusher flush commit
  store_event s stream message now =
      let (id, table) = insert stream (payload_of stream message) now s.tenant_id s.db.table in
      (id, after_insert s.commit_interval s.commit_max_pending (with_table s table))

-- `fork_stream`: INSERT OR REPLACE of the child's row
unfoldable pub fork_stream : SqliteStore → Text → ℕ → Text → Result SqliteStore
unfolding commit
fork_stream s parent event_id child =
    let fork : Fork = record { child = child; parent = parent; event_id = event_id } in
    let forks = filter (λ f. not (text_eq f.child child)) s.db.forks ++ fork ∷ [] in
    if text_eq child parent
    then err fork_into_itself
    else ok (commit (record s { db = record s.db { forks = forks } }))

-- `_store_event_raw`
unfoldable pub store_event_raw : SqliteStore → Text → ℕ → Text → ℕ → SqliteStore
unfolding commit
store_event_raw s stream id payload created_at =
    let row : Row = record {
      event_id = id;
      stream_id = stream;
      payload = payload;
      created_at = created_at;
      tenant_id = s.tenant_id;
    } in
    commit (with_table s (upsert row s.db.table))
