-- ===== src/Archive.antt =====
-- src/mcp_persist/stored.py, and the loop of `ArchiveScheduler` in src/mcp_persist/scheduler.py:
-- expired events move from a hot SQLite store to a cold one, a batch at a time.
pub mod Lossless
pub mod Moves
pub mod Drain
use mcp_persist.Prelude.{
  ℕ, zero, suc, ◌+◌, ◌-◌, Bool, true, false, List, [], ◌∷◌, Option, none, some, ltb, if◌then◌else◌,
  length, map, foldl,
}
use mcp_persist.Table.{Row, ids}
use mcp_persist.Sqlite.State.{SqliteStore, StoreError, bad_batch_size, Result, ok, err}
use mcp_persist.Sqlite.Write.{store_event_raw}
use mcp_persist.Sqlite.Expire.{select_expired, delete_events}

-- The loop over the batch that writes each event to the cold store.
abbrev pub archive_one : SqliteStore → Row → SqliteStore
archive_one cold r = store_event_raw cold r.stream_id r.event_id r.payload r.created_at

abbrev pub archive_all : SqliteStore → List Row → SqliteStore
archive_all cold batch = foldl archive_one cold batch

-- Behind the selection: an empty batch deletes nothing.
unfoldable pub archive_selected :
    SqliteStore → SqliteStore → List Row → ℕ × (SqliteStore × SqliteStore)
unfolding store_event_raw delete_events
archive_selected hot cold [] = (0, (hot, cold))
archive_selected hot cold (r ∷ rs) =
    let (removed, hot') = delete_events hot (ids (r ∷ rs)) in
    (length (r ∷ rs), (hot', archive_all cold (r ∷ rs)))

abbrev pub archive_found :
    SqliteStore → SqliteStore → Result (List Row) → Result (ℕ × (SqliteStore × SqliteStore))
archive_found hot cold (err e) = err e
archive_found hot cold (ok batch) = ok (archive_selected hot cold batch)

abbrev pub archive_before :
    SqliteStore → SqliteStore → ℕ → Option ℕ → ℕ → Result (ℕ × (SqliteStore × SqliteStore))
archive_before hot cold batch_size none now = ok (0, (hot, cold))
archive_before hot cold batch_size (some ttl) now =
    archive_found hot cold (select_expired hot (now - ttl) batch_size)

-- `archive_expired_batch`: the number of events, and the two stores, hot first.
unfoldable pub archive_expired_batch :
    SqliteStore → SqliteStore → ℕ → ℕ → Result (ℕ × (SqliteStore × SqliteStore))
unfolding archive_selected select_expired
archive_expired_batch hot cold zero now = err bad_batch_size
archive_expired_batch hot cold (suc n) now = archive_before hot cold (suc n) hot.ttl now

-- A turn of the loop of `ArchiveScheduler._run`: a short batch is the last.
abbrev pub drain_next :
    (ℕ → SqliteStore → SqliteStore → Option (ℕ × (SqliteStore × SqliteStore)))
    → ℕ
    → ℕ
    → Result (ℕ × (SqliteStore × SqliteStore))
    → Option (ℕ × (SqliteStore × SqliteStore))
drain_next again total batch_size (err e) = none
drain_next again total batch_size (ok (archived, (hot', cold'))) =
    if ltb archived batch_size
    then some (total + archived, (hot', cold'))
    else again (total + archived) hot' cold'

-- `while True` of `ArchiveScheduler._run`, on fuel: the total and the stores; `none` where the fuel ends
-- first, or where a batch raises. `clock` is the time that each batch reads, from this one on.
unfoldable pub drain :
    ℕ → SqliteStore → SqliteStore → ℕ → (ℕ → ℕ) → ℕ → Option (ℕ × (SqliteStore × SqliteStore))
unfolding archive_expired_batch
drain zero hot cold batch_size clock total = none
drain (suc fuel) hot cold batch_size clock total =
    drain_next (λ t h c. drain fuel h c batch_size (λ i. clock (suc i)) t) total batch_size
      (archive_expired_batch hot cold batch_size (clock 0))
