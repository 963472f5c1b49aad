-- ===== src/Archive/Drain.antt =====
-- The loop that archives the whole expired backlog.
use mcp_persist.Prelude.{ℕ, ◌+◌, ◌≡◌, false, not, List, Option, some, Every, length, filter}
use mcp_persist.Table.{Row, ids, contains_id}
use mcp_persist.Sqlite.State.{SqliteStore}
use mcp_persist.Sqlite.Expire.{is_expired}
use mcp_persist.Archive.Lossless.{rows_of, archived}
use mcp_persist.Archive.Moves.{IsMoved}
use mcp_persist.Archive.{archive_all}

-- What archiving a batch does to the hot store.
record IsReduced (hot cold : SqliteStore) (batch : List Row) (out : ℕ × (SqliteStore × SqliteStore))
    : Type 0 where
  count : out.0 ≡ length batch
  written : out.1.1 ≡ archive_all cold batch
  rows : out.1.0.db.table.rows ≡ filter (λ r. not (contains_id (ids batch) r)) hot.db.table.rows
  seq : out.1.0.db.table.seq ≡ hot.db.table.seq
  tenant : out.1.0.tenant_id ≡ hot.tenant_id
  ttl : out.1.0.ttl ≡ hot.ttl

-- The hot store's expired rows, and the others.
abbrev pub expired : SqliteStore → ℕ → List Row
expired hot cutoff = filter (is_expired hot.tenant_id cutoff) hot.db.table.rows

abbrev pub alive : SqliteStore → ℕ → List Row
alive hot cutoff = filter (λ r. not (is_expired hot.tenant_id cutoff r)) hot.db.table.rows

-- What the loop returns, and what it leaves: no row that was expired at `first`.
pub record IsDrained (first last total : ℕ) (hot cold : SqliteStore)
    (o : Option (ℕ × (SqliteStore × SqliteStore))) : Type 0 where
  pub archived : ℕ
  pub hot' : SqliteStore
  pub cold' : SqliteStore
  pub result : o ≡ some (total + archived, (hot', cold'))
  pub count : archived + length (rows_of hot') ≡ length (rows_of hot)
  pub moved : IsMoved last hot cold hot' cold'
  pub left : Every (λ r. is_expired hot.tenant_id first r ≡ false) (rows_of hot')
