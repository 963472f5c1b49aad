-- ===== src/Sqlite/Write/Laws.antt =====
-- Fresh ids, and what a crash can lose.
use mcp_persist.Prelude.{
  ℕ, ◌+◌, ◌≤◌, ◌<◌, ◌≡◌, refl, sym, ◌∙◌, Bool, true, false, List, [], ◌∷◌, ◌++◌, append-nil,
  append_assoc, Option, none, some, Text, arith, ◌==◌, if◌then◌else◌, length, length-append, Every,
  Every-mono, inl, inr, Bool-cases,
}
use mcp_persist.Table.{Row, Table, insert}
use mcp_persist.Table.Order.{IsValid, Ordered-bounds, insert-IsValid}
use mcp_persist.Sqlite.State.{Codec, SqliteStore, commit, with_table}
use mcp_persist.Sqlite.Write.{ensure_flusher, flush, aclose, after_insert, payload_of, store_event}

-- The rows that are not yet committed are the last ones, as many as `pending` counts at most.
pub record IsBuffered (s : SqliteStore) : Type 0 where
  pub extra : List Row
  pub rows : s.db.table.rows ≡ s.committed.table.rows ++ extra
  pub size : length extra ≤ s.pending
  pub synced : s.pending ≡ 0 → s.committed ≡ s.db

pub commit-IsBuffered : (s : SqliteStore) → IsBuffered (commit s)
unfolding commit
commit-IsBuffered s = record {
  extra = [];
  rows = sym (append-nil s.db.table.rows);
  size = omega arith;
  synced = λ _. refl;
}

pub flush-IsBuffered : (s : SqliteStore) → IsBuffered s → IsBuffered (flush s)
unfolding flush
flush-IsBuffered s b = elim (Bool-cases (s.pending == 0)) [
  | inl e ↦ rw e b
  | inr e ↦ rw e (record {
    extra = [];
    rows = sym (append-nil s.db.table.rows);
    size = omega arith;
    synced = λ _. refl;
  })
]

-- After `aclose` all that the store shows is committed. Before it, what is committed is a prefix of what
-- the store shows, at most `pending` rows shorter, and all of it where nothing is pending.
pub aclose-committed : (s : SqliteStore) → IsBuffered s → (aclose s).committed ≡ (aclose s).db
unfolding aclose
aclose-committed s b = elim (Bool-cases (s.pending == 0)) [
  | inl e ↦ rw e (b.synced (ground arith))
  | inr e ↦ rw e
]

-- A store whose open transaction is at most one row further than `pending` says.
record IsAhead (s : SqliteStore) : Type 0 where
  extra : List Row
  rows : s.db.table.rows ≡ s.committed.table.rows ++ extra
  size : length extra ≤ s.pending + 1

buffered :
    (s s' : SqliteStore)
    → IsAhead s
    → s'.db ≡ s.db
    → s'.committed ≡ s.committed
    → s'.pending ≡ s.pending + 1
    → IsBuffered s'
buffered s s' a e f g = record {
  extra = a.extra;
  rows = cc (a.rows);
  size = omega (arith, a.size);
  synced = λ z. absurd (omega arith);
}

counted : (s : SqliteStore) → SqliteStore
counted s = record (ensure_flusher s) { pending = (ensure_flusher s).pending + 1 }

counted-IsBuffered : (s : SqliteStore) → IsAhead s → IsBuffered (counted s)
unfolding counted ensure_flusher
counted-IsBuffered s a = buffered s (counted s) a (ground arith) (ground arith) (ground arith)

capped-IsBuffered :
    (b : Bool) (s : SqliteStore) → IsBuffered s → IsBuffered (if b then flush s else s)
capped-IsBuffered true s h = flush-IsBuffered s h
capped-IsBuffered false s h = h

after_insert-IsBuffered :
    (interval max_pending : Option ℕ) (s : SqliteStore)
    → IsAhead s
    → IsBuffered (after_insert interval max_pending s)
unfolding counted
after_insert-IsBuffered none none s a = commit-IsBuffered s
after_insert-IsBuffered (some i) none s a = counted-IsBuffered s a
after_insert-IsBuffered none (some n) s a = capped-IsBuffered _ (counted s) (counted-IsBuffered s a)
after_insert-IsBuffered (some i) (some n) s a =
    capped-IsBuffered _ (counted s) (counted-IsBuffered s a)

module _ {Message : Type 0} (codec : Codec Message) where
  module _ (s : SqliteStore) (stream : Text) (message : Option Message) (now : ℕ) where
    -- The row that `store_event` adds.
    abbrev pub new_row : Row
    new_row = record {
      event_id = s.db.table.seq + 1;
      stream_id = stream;
      payload = payload_of codec stream message;
      created_at = now;
      tenant_id = s.tenant_id;
    }

    abbrev inserted : ℕ × Table
    inserted = insert stream (payload_of codec stream message) now s.tenant_id s.db.table

    -- Whatever the commit mode, the store shows the inserted row, and nothing else has changed.
    pub store_event-insert :
        ((store_event codec s stream message now).0 ≡ inserted.0)
        × ((store_event codec s stream message now).1.db.table ≡ inserted.1)
        × ((store_event codec s stream message now).1.db.forks ≡ s.db.forks)
        × ((store_event codec s stream message now).1.tenant_id ≡ s.tenant_id)
        × ((store_event codec s stream message now).1.ttl ≡ s.ttl)
    unfolding store_event
    store_event-insert = ground arith

    -- In a table with rising ids, none above the sequence, the id of a stored event is larger than every id
    -- of the table and than the sequence, hence than the ids of deleted rows, and the table stays so.
    pub store_event-fresh :
        IsValid s.db.table
        → Every (λ r. r.event_id < (store_event codec s stream message now).0) s.db.table.rows
          × (s.db.table.seq < (store_event codec s stream message now).0)
          × IsValid (store_event codec s stream message now).1.db.table
    store_event-fresh v =
        let (id, table, _, _, _) = store_event-insert in
        rw (id, table)
          (
            Every-mono (λ r. (0 < r.event_id) × (r.event_id ≤ s.db.table.seq)) _ s.db.table.rows
                (λ r b. unfold insert in omega (arith, b.1))
                (Ordered-bounds 0 s.db.table.rows s.db.table.seq v),
            unfold insert in omega arith,
            insert-IsValid stream (payload_of codec stream message) now s.tenant_id s.db.table v,
          )

    pub store_event-IsBuffered :
        IsBuffered s → IsBuffered (store_event codec s stream message now).1
    unfolding store_event insert
    store_event-IsBuffered b =
        after_insert-IsBuffered s.commit_interval s.commit_max_pending (with_table s inserted.1)
          (record {
            extra = b.extra ++ new_row ∷ [];
            rows = rw (b.rows, append_assoc s.committed.table.rows b.extra (new_row ∷ []));
            size = omega (arith, length-append b.extra (new_row ∷ []), b.size);
          })

    -- With a cap on the buffer fewer than that many rows wait.
    pub store_event-pending :
        (n : ℕ)
        → s.commit_max_pending ≡ some n
        → s.pending < n
        → (store_event codec s stream message now).1.pending < n
    unfolding store_event ensure_flusher flush commit
    store_event-pending n e h = ground arith

module _ {Message : Type 0} (codec : Codec Message) where
  -- A stream, a message and a time for each `store_event`, one after the other.
  pub store_all : SqliteStore → List (Text × Option Message × ℕ) → SqliteStore
  store_all s [] = s
  store_all s ((stream, message, now) ∷ events) =
      store_all (store_event codec s stream message now).1 events

  store_event-max_pending :
      (s : SqliteStore) (stream : Text) (message : Option Message) (now : ℕ)
      → (store_event codec s stream message now).1.commit_max_pending ≡ s.commit_max_pending
  unfolding store_event ensure_flusher flush commit
  store_event-max_pending s stream message now = ground arith

  store_all-IsBuffered :
      (n : ℕ) (s : SqliteStore) (events : List (Text × Option Message × ℕ))
      → IsBuffered s
      → s.commit_max_pending ≡ some n
      → s.pending < n
      → IsBuffered (store_all s events) × ((store_all s events).pending < n)
  unfolding store_all
  store_all-IsBuffered n s [] b e lt = (b, lt)
  store_all-IsBuffered n s ((stream, message, now) ∷ events) b e lt =
      store_all-IsBuffered n (store_event codec s stream message now).1 events
        (store_event-IsBuffered codec s stream message now b)
        (store_event-max_pending s stream message now ∙ e)
        (store_event-pending codec s stream message now n e lt)

  -- With `commit_max_pending = n` a crash after any series of `store_event` loses fewer than `n` events,
  -- the last ones stored: what is committed is a prefix of what the store shows. At the start the store
  -- is such a one too, with fewer than `n` rows pending.
  pub store_all-crash :
      (n : ℕ) (s : SqliteStore) (events : List (Text × Option Message × ℕ))
      → IsBuffered s
      → s.commit_max_pending ≡ some n
      → s.pending < n
      → (lost : List Row) × ((store_all s events).db.table.rows
          ≡ (store_all s events).committed.table.rows ++ lost)
        × (length lost < n)
  store_all-crash n s events b e lt =
      let (after, bound) = store_all-IsBuffered n s events b e lt in
      (after.extra, after.rows, omega (arith, after.size))
