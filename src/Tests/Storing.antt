-- ===== src/Tests/Storing.antt =====
-- A small SQLite store.
use mcp_persist.Prelude.{
  Bool, ℕ, ◌≡◌, ◌≢◌, ◌<◌, refl, arith, true, false, List, [], ◌∷◌, ◌++◌, Option, none, some, Text,
  codes, Every, length,
}
use mcp_persist.Table.{Row, Table, delete_where, delete_batch}
use mcp_persist.Table.Order.{IsValid}
use mcp_persist.Table.Batches.{purge_loop, purge_loop-fuel}
use mcp_persist.Sqlite.State.{Codec, IsFaithful, Fork, Db, SqliteStore, ok, commit}
use mcp_persist.Sqlite.Write.{store_event}
use mcp_persist.Sqlite.Write.Laws.{IsBuffered, store_event-fresh, store_all, store_all-crash}
use mcp_persist.Sqlite.Forks.{get_stream_segments}
use mcp_persist.Sqlite.Forks.Chains.{
  get_stream_segments_unforked, IsSegmented, get_stream_segments-IsSegmented,
}
use mcp_persist.Sqlite.Read.{replay_stream, replay_events_after, ttl_cutoff}
use mcp_persist.Sqlite.Read.Segments.{IsReplayed, replay_stream-IsReplayed}
use mcp_persist.Sqlite.Read.Stored.{
  replay_stream-stored, replay_stream_elsewhere, replay_stream-tenant,
}
use mcp_persist.Sqlite.Expire.{
  purge_tenant, distinct_tenants, expiry_cutoff, purge_expired, count_expired,
}
use mcp_persist.Sqlite.Expire.Purges.{kept, purge_expired-kept, replay_events_after-purge_expired}
use mcp_persist.Retention.{
  RetentionPolicy, DeletionAuditEntry, Cycle, Interruption, cycle, cycle_from, run_purge,
  commit_chunks, window_for,
}

-- A coding that marks each payload with one character.
abbrev pub decode : Text → Text → Option Text
decode stream [] = none
decode stream (c ∷ m) = some m

abbrev pub marked : Codec Text
marked = record { encode = λ stream m. 109 ∷ m; decode = decode }

marked-IsFaithful : IsFaithful marked
marked-IsFaithful = record {
  encode_ne = λ stream m e. ground arith;
  decode_encode = λ stream m. refl;
}

abbrev pub main : Text
main = codes "main"

abbrev pub side : Text
side = codes "side"

abbrev pub row_at : ℕ → Text → ℕ → Row
row_at id stream now = record {
  event_id = id;
  stream_id = stream;
  payload = 109 ∷ 1 ∷ [];
  created_at = now;
  tenant_id = some (codes "t");
}

abbrev table : Table
table = record { rows = row_at 1 main 10 ∷ row_at 2 main 20 ∷ row_at 4 main 30 ∷ []; seq = 4 }

-- `side` branches off `main` at event 2.
abbrev forked : Fork
forked = record { child = side; parent = main; event_id = 2 }

abbrev pub db : Db
db = record { table = table; forks = forked ∷ [] }

abbrev pub store : SqliteStore
store = record {
  tenant_id = some (codes "t");
  ttl = some 15;
  commit_interval = some 1;
  commit_max_pending = some 3;
  enable_streaming = true;
  pending = 0;
  flushing = false;
  unreadable_events = 0;
  db = db;
  committed = db;
}

abbrev other_tenant : SqliteStore
other_tenant = record store { tenant_id = some (codes "u") }

store-IsValid : IsValid store.db.table
store-IsValid = (omega arith, (omega arith, (omega arith, omega arith)))

store-IsBuffered : IsBuffered store
store-IsBuffered = record { extra = []; rows = refl; size = omega arith; synced = λ z. refl }

replay_stream-stored_example :
    replay_stream marked (store_event marked store side (some (9 ∷ [])) 30).1 1 side 40
    ≡ replay_stream marked store 1 side 40
      ++ ((store_event marked store side (some (9 ∷ [])) 30).0, 9 ∷ []) ∷ []
replay_stream-stored_example =
    replay_stream-stored marked marked-IsFaithful store side (9 ∷ []) 30 1 40 (omega arith, tt)
      (omega arith) refl

far_elsewhere : Every (λ seg. seg.stream ≢ codes "far") (get_stream_segments store.db.forks main)
far_elsewhere = rw (get_stream_segments_unforked (forked ∷ []) main refl) (λ e. ground arith, tt)

replay_stream_elsewhere_example :
    replay_stream marked (store_event marked store (codes "far") none 30).1 1 main 40
    ≡ replay_stream marked store 1 main 40
replay_stream_elsewhere_example =
    replay_stream_elsewhere marked store (codes "far") none 30 1 main 40 far_elsewhere

replay_stream-tenant_example :
    replay_stream marked
      (record store { db = (store_event marked other_tenant main none 30).1.db })
      1
      main
      40
    ≡ replay_stream marked store 1 main 40
replay_stream-tenant_example =
    replay_stream-tenant marked store other_tenant (codes "t") (codes "u") main none 30 1 main 40
      refl refl (λ e. ground arith) refl

replay_stream-IsReplayed_example :
    Every
      (IsReplayed marked store.tenant_id
        (ttl_cutoff store.ttl 40)
        1
        store.db.table.rows
        (get_stream_segments store.db.forks side))
      (replay_stream marked store 1 side 40)
replay_stream-IsReplayed_example = replay_stream-IsReplayed marked store 1 side 40

abbrev three_events : List (Text × Option Text × ℕ)
three_events = (main, some (1 ∷ []), 40) ∷ (side, none, 41) ∷ (main, some (2 ∷ []), 42) ∷ []

store_all-crash_example :
    (lost : List Row) × ((store_all marked store three_events).db.table.rows
      ≡ (store_all marked store three_events).committed.table.rows ++ lost)
    × (length lost < 3)
store_all-crash_example =
    store_all-crash marked 3 store three_events store-IsBuffered refl (omega arith)

store_event-fresh_example :
    Every (λ r. r.event_id < (store_event marked store main none 40).0) store.db.table.rows
    × (store.db.table.seq < (store_event marked store main none 40).0)
    × IsValid (store_event marked store main none 40).1.db.table
store_event-fresh_example = store_event-fresh marked store main none 40 store-IsValid

get_stream_segments-IsSegmented_example :
    IsSegmented 4 (forked ∷ []) side (get_stream_segments (forked ∷ []) side)
get_stream_segments-IsSegmented_example =
    get_stream_segments-IsSegmented 4 (forked ∷ []) side (omega arith, tt)

purge_loop-fuel_example : purge_loop 4 (λ r. true) 1 table ≡ delete_where (λ r. true) table
purge_loop-fuel_example =
    purge_loop-fuel 4 (λ r. true) 1 table store-IsValid (omega arith) (omega arith)

purge_expired-kept_example :
    purge_expired store (some 1) none 40 ≡ ok (count_expired store none 40, kept store 25)
purge_expired-kept_example =
    purge_expired-kept store (some 1) none 40 25 store-IsValid refl (unfold expiry_cutoff in refl)

replay_events_after-purge_expired_example :
    (s' : SqliteStore) × (purge_expired store (some 1) none 40
      ≡ ok (count_expired store none 40, s'))
    × (replay_events_after marked s' (some 4) none 45
        ≡ replay_events_after marked store (some 4) none 45)
replay_events_after-purge_expired_example =
    replay_events_after-purge_expired marked store (some 1) 15 40 45 4 none store-IsValid refl refl
      (omega arith) (row_at 4 main 30, refl, refl)

abbrev policy : RetentionPolicy
policy = record { windows = (some (codes "t"), 15) ∷ []; default = none }

-- A sink that refuses every entry.
abbrev refusing : DeletionAuditEntry → Bool
refusing entry = false

-- A purge that raises behind its first chunk: the row that is gone is in no entry.
abbrev broken_off_at : Option Text → Option Interruption
broken_off_at t = some (record { is_cancelled = false; chunks = 1 })

abbrev broken_cycle : Cycle
broken_cycle = cycle policy refusing true false (some 1) 40 (λ t. 41) broken_off_at store

broken_cycle-handed : broken_cycle.handed ≡ []
unfolding cycle cycle_from run_purge purge_tenant distinct_tenants window_for
broken_cycle-handed = refl

broken_cycle-store : length broken_cycle.store.db.table.rows ≡ 2
unfolding cycle cycle_from run_purge purge_tenant distinct_tenants window_for commit_chunks
    delete_batch commit delete_where
broken_cycle-store = refl
