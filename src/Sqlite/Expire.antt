-- ===== src/Sqlite/Expire.antt =====
-- sqlite.py: expired events, counted, selected for archival, and deleted.
pub mod Purges
use mcp_persist.Prelude.{
  ℕ, zero, suc, ◌+◌, ◌-◌, Bool, true, false, ◌&&◌, List, [], ◌∷◌, Option, none, some, Text, text_eq,
  ltb, leb, ◌==◌, if◌then◌else◌, filter, any, take, length,
}
use mcp_persist.Table.{Row, Table, delete_where, contains_id, same_tenant, in_scope}
use mcp_persist.Table.Batches.{purge_loop}
use mcp_persist.Sqlite.State.{
  SqliteStore, StoreError, bad_batch_size, bad_window, Result, ok, err, commit, with_table,
}

-- `_expiry_cutoff`
unfoldable pub expiry_cutoff : SqliteStore → Option ℕ → ℕ → Option ℕ
expiry_cutoff s (some older_than) now = some (now - older_than)
expiry_cutoff s none now = elim s.ttl [ none ↦ none | some ttl ↦ some (now - ttl) ]

-- `created_at < ?` in the store's scope
abbrev pub is_expired : Option Text → ℕ → Row → Bool
is_expired tenant cutoff r = ltb r.created_at cutoff && in_scope tenant r

-- `batch_size is not None and batch_size < 1`
abbrev pub is_zero : Option ℕ → Bool
is_zero (some zero) = true
is_zero _ = false

-- A DELETE and its commit: one statement, or the loop over batches.
unfoldable pub purge_where : SqliteStore → (Row → Bool) → Option ℕ → ℕ × SqliteStore
unfolding commit delete_where purge_loop
purge_where s p none =
    let (removed, t) = delete_where p s.db.table in (removed, commit (with_table s t))
purge_where s p (some n) =
    let (removed, t) = purge_loop (length s.db.table.rows + 1) p n s.db.table in
    (removed, commit (with_table s t))

-- `purge_expired`
unfoldable pub purge_expired : SqliteStore → Option ℕ → Option ℕ → ℕ → Result (ℕ × SqliteStore)
unfolding purge_where expiry_cutoff
purge_expired s batch_size older_than now =
    if is_zero batch_size then err bad_batch_size else elim (expiry_cutoff s older_than now) [
      | none ↦ ok (0, s)
      | some cutoff ↦ ok (purge_where s (is_expired s.tenant_id cutoff) batch_size)
    ]

-- `tenant_id IS NULL` or `tenant_id = ?`
abbrev pub is_tenant : Option Text → Option Text → Bool
is_tenant none none = true
is_tenant none (some u) = false
is_tenant (some t) u = same_tenant t u

-- `purge_tenant`
unfoldable pub purge_tenant :
    SqliteStore → Option Text → ℕ → Option ℕ → ℕ → Result (ℕ × SqliteStore)
unfolding purge_where
purge_tenant s tenant window_seconds batch_size now =
    if window_seconds == 0
    then err bad_window
    else if is_zero batch_size
    then err bad_batch_size
    else ok (
        purge_where s (λ r. ltb r.created_at (now - window_seconds) && is_tenant tenant r.tenant_id)
          batch_size)

-- `count_expired`
unfoldable pub count_expired : SqliteStore → Option ℕ → ℕ → ℕ
unfolding expiry_cutoff
count_expired s older_than now = elim (expiry_cutoff s older_than now) [
  | none ↦ 0
  | some cutoff ↦ length (filter (is_expired s.tenant_id cutoff) s.db.table.rows)
]

-- `select_expired`
unfoldable pub select_expired : SqliteStore → ℕ → ℕ → Result (List Row)
select_expired s cutoff zero = err bad_batch_size
select_expired s cutoff (suc n) =
    ok (take (suc n) (filter (is_expired s.tenant_id cutoff) s.db.table.rows))

-- `delete_events`, by the ids of the events
unfoldable pub delete_events : SqliteStore → List ℕ → ℕ × SqliteStore
unfolding commit delete_where
delete_events s [] = (0, s)
delete_events s (id ∷ ids) =
    let (removed, t) = delete_where (contains_id (id ∷ ids)) s.db.table in
    (removed, commit (with_table s t))

abbrev pub insert_tenant : Option Text → List (Option Text) → List (Option Text)
insert_tenant t ts = if any (is_tenant t) ts then ts else t ∷ ts

pub distinct_of : List Row → List (Option Text)
distinct_of [] = []
distinct_of (r ∷ rs) = insert_tenant r.tenant_id (distinct_of rs)

-- `distinct_tenants`
unfoldable pub distinct_tenants : SqliteStore → List (Option Text)
unfolding distinct_of
distinct_tenants s = distinct_of s.db.table.rows
