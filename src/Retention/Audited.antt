-- ===== src/Retention/Audited.antt =====
-- Every row that a retention cycle deletes is in the count of an entry that the sink was given.
use mcp_persist.Prelude.{ℕ, ◌+◌, ◌≡◌, List, [], ◌∷◌, length}
use mcp_persist.Table.Order.{IsValid}
use mcp_persist.Sqlite.State.{SqliteStore, Result, ok, err}
use mcp_persist.Retention.{DeletionAuditEntry, Cycle}

-- The deletions of some entries.
pub deleted_total : List DeletionAuditEntry → ℕ
deleted_total [] = 0
deleted_total (e ∷ es) = e.deleted_count + deleted_total es

-- A purge that counts what it removes from a table, and leaves rising ids.
IsCounted : SqliteStore → ℕ × SqliteStore → Type 0
IsCounted s out =
    (out.0 + length out.1.db.table.rows ≡ length s.db.table.rows) × IsValid out.1.db.table

Counts : SqliteStore → Result (ℕ × SqliteStore) → Type 0
Counts s (err e) = Unit
Counts s (ok out) = IsCounted s out

-- The rows that are left and those that the entries count make `n`.
Accounts : ℕ → Cycle → Type 0
Accounts n c = deleted_total c.handed + length c.store.db.table.rows ≡ n

-- What the rest of the loop does with any store and entries.
Continues : (SqliteStore → List DeletionAuditEntry → Cycle) → Type 0
Continues again =
    (s : SqliteStore) (handed : List DeletionAuditEntry)
    → IsValid s.db.table
    → Accounts (deleted_total handed + length s.db.table.rows) (again s handed)
