-- ===== src/Retention.antt =====
-- src/mcp_persist/retention.py, `RetentionPolicy`, and one cycle of `RetentionScheduler` in
-- src/mcp_persist/scheduler.py over a SQLite store. The audit sink is a parameter: whether it takes an
-- entry or raises, and so is which purge is broken off. An entry's names of the backend and of the table, which do not change, are left out.
pub mod Audited
use mcp_persist.Prelude.{
  ℕ, zero, suc, ◌+◌, ◌-◌, Bool, true, false, not, ◌&&◌, ◌||◌, List, [], ◌∷◌, ◌++◌, Option, none,
  some, Text, ◌==◌, ltb, if◌then◌else◌, any,
}
use mcp_persist.Table.{Row, delete_batch}
use mcp_persist.Sqlite.State.{with_table, commit, SqliteStore, StoreError, Result, ok, err}
use mcp_persist.Sqlite.Expire.{is_tenant, purge_where, purge_tenant, distinct_tenants}

pub record RetentionPolicy : Type 0 where
  pub windows : List (Option Text × ℕ)
  pub default : Option ℕ

-- `tenant_id in self.windows`, with its window
pub lookup : Option Text → List (Option Text × ℕ) → Option ℕ
lookup tenant [] = none
lookup tenant ((key, window) ∷ windows) =
    let rest = lookup tenant windows in if is_tenant key tenant then some window else rest

abbrev pub or_default : Option ℕ → Option ℕ → Option ℕ
or_default (some window) default = some window
or_default none default = default

-- `window_for`
unfoldable pub window_for : RetentionPolicy → Option Text → Option ℕ
unfolding lookup
window_for policy tenant = or_default (lookup tenant policy.windows) policy.default

pub record DeletionAuditEntry : Type 0 where
  pub timestamp : ℕ
  pub tenant_id : Option Text
  pub window_seconds : ℕ
  pub cutoff : ℕ
  pub deleted_count : ℕ
  pub default_applied : Bool

-- How a cycle ends: with its last tenant, by an error that is logged, or by an error of the sink that
-- stops the scheduler, or by a cancellation during a purge.
pub data CycleEnd : Type 0 where
  completed retried audit_failed cancelled : CycleEnd

-- The end, the store, and the entries that the sink was given.
pub record Cycle : Type 0 where
  pub end_state : CycleEnd
  pub store : SqliteStore
  pub handed : List DeletionAuditEntry

abbrev is_none : Option ℕ → Bool
is_none none = true
is_none (some n) = false

-- How a purge is broken off: by the task's cancellation or by an error of the database, and behind how many
-- of its committed chunks.
pub record Interruption : Type 0 where
  pub is_cancelled : Bool
  pub chunks : ℕ

pub data Purge : Type 0 where
  finished : Result (ℕ × SqliteStore) → Purge
  broken_off : Bool → SqliteStore → Purge

-- The first chunks of the loop of `purge_tenant`, each committed.
unfoldable pub commit_chunks : (Row → Bool) → ℕ → ℕ → SqliteStore → SqliteStore
unfolding commit delete_batch
commit_chunks p n zero s = s
commit_chunks p n (suc k) s =
    commit_chunks p n k (commit (with_table s (delete_batch p n s.db.table).1))

-- A purge in one statement is broken off before its commit or behind it.
abbrev pub committed_before : (Row → Bool) → Option ℕ → ℕ → SqliteStore → SqliteStore
committed_before p none zero s = s
committed_before p none (suc k) s = (purge_where s p none).1
committed_before p (some n) k s = commit_chunks p n k s

abbrev pub purge_end : SqliteStore → SqliteStore → Bool → Result (ℕ × SqliteStore) → Purge
purge_end s broken is_cancelled (err e) = finished (err e)
purge_end s broken is_cancelled (ok out) = broken_off is_cancelled broken

-- `await self._store.purge_tenant(...)`, whether it is broken off or not
unfoldable pub run_purge :
    SqliteStore → Option Text → ℕ → Option ℕ → ℕ → Option Interruption → Purge
unfolding purge_tenant purge_where commit_chunks
run_purge s tenant window batch_size now none =
    finished (purge_tenant s tenant window batch_size now)
run_purge s tenant window batch_size now (some i) =
    let due = λ (r : Row). ltb r.created_at (now - window) && is_tenant tenant r.tenant_id in
    purge_end s (committed_before due batch_size i.chunks s) i.is_cancelled
      (purge_tenant s tenant window batch_size now)

module _ (policy : RetentionPolicy) (sink : DeletionAuditEntry → Bool)
    (strict_audit audit_empty : Bool) (batch_size : Option ℕ) (now : ℕ) (clock : Option Text → ℕ)
    (interrupted : Option Text → Option Interruption) where
  abbrev pub entry_of : Option Text → ℕ → ℕ → DeletionAuditEntry
  entry_of tenant window deleted = record {
    timestamp = now;
    tenant_id = tenant;
    window_seconds = window;
    cutoff = now - window;
    deleted_count = deleted;
    default_applied = is_none (lookup tenant policy.windows);
  }

  -- `await self._audit_sink.record(entry)` and its handler
  abbrev pub recorded :
      (SqliteStore → List DeletionAuditEntry → Cycle)
      → SqliteStore
      → List DeletionAuditEntry
      → Bool
      → Cycle
  recorded again s handed true = again s handed
  recorded again s handed false =
      if strict_audit
      then record { end_state = audit_failed; store = s; handed = handed }
      else again s handed

  -- The body of the loop from the purge on; `clock` is the time that the purge of a tenant reads,
  -- and `interrupted` says which purge is broken off.
  abbrev pub purged :
      (SqliteStore → List DeletionAuditEntry → Cycle)
      → SqliteStore
      → List DeletionAuditEntry
      → Option Text
      → ℕ
      → Purge
      → Cycle
  purged again s handed tenant window (broken_off true s') = record {
    end_state = cancelled;
    store = s';
    handed = handed;
  }
  purged again s handed tenant window (broken_off false s') = record {
    end_state = retried;
    store = s';
    handed = handed;
  }
  purged again s handed tenant window (finished (err e)) = record {
    end_state = retried;
    store = s;
    handed = handed;
  }
  purged again s handed tenant window (finished (ok (deleted, s'))) =
      let entry = entry_of tenant window deleted in
      if deleted == 0 && not audit_empty
      then again s' handed
      else recorded again s' (handed ++ entry ∷ []) (sink entry)

  abbrev pub tenant_next :
      (SqliteStore → List DeletionAuditEntry → Cycle)
      → SqliteStore
      → List DeletionAuditEntry
      → Option Text
      → Option ℕ
      → Cycle
  tenant_next again s handed tenant none = again s handed
  tenant_next again s handed tenant (some window) =
      purged again s handed tenant window
        (run_purge s tenant window batch_size (clock tenant) (interrupted tenant))

  unfoldable pub cycle_from : List (Option Text) → SqliteStore → List DeletionAuditEntry → Cycle
  unfolding window_for run_purge
  cycle_from [] s handed = record { end_state = completed; store = s; handed = handed }
  cycle_from (tenant ∷ tenants) s handed =
      tenant_next (λ s' handed'. cycle_from tenants s' handed') s handed tenant
        (window_for policy tenant)

  -- One cycle of `RetentionScheduler._run`.
  unfoldable pub cycle : SqliteStore → Cycle
  unfolding cycle_from distinct_tenants
  cycle s = cycle_from (distinct_tenants s) s []
