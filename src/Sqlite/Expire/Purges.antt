-- ===== src/Sqlite/Expire/Purges.antt =====
-- Purging in batches or at once, what goes and what stays, and what a replay makes of it.
use mcp_persist.Prelude.{
  ℕ, zero, suc, ◌+◌, ◌-◌, ◌≤◌, ◌≡◌, refl, ◌∙◌, Bool, true, false, not, ◌&&◌, ◌==◌, List, [], ◌∷◌,
  find?, ap, sym, Option, none, some, arith, Text, filter, length, length-filter-le, inl, inr,
  Option-cases,
}
use mcp_persist.Table.{Row, Table, delete_where, in_scope}
use mcp_persist.Table.Order.{IsValid}
use mcp_persist.Table.Batches.{purge_loop-fuel}
use mcp_persist.Sqlite.State.{Codec, Db, SqliteStore, ok, commit}
use mcp_persist.Sqlite.Forks.{Segment, get_stream_segments}
use mcp_persist.Sqlite.Read.{
  ttl_cutoff, replay_stream, find_event, stream_id_for_event, replay_found, replay_events_after,
}
use mcp_persist.Sqlite.Read.Segments.{wanted, replay_segments-filter}
use mcp_persist.Sqlite.Expire.{
  expiry_cutoff, is_zero, is_expired, purge_where, purge_expired, purge_tenant, count_expired,
}

pub purge_where-batches :
    (s : SqliteStore) (p : Row → Bool) (n : ℕ)
    → IsValid s.db.table
    → purge_where s p (some (suc n)) ≡ purge_where s p none
unfolding purge_where
purge_where-batches s p n v = rw (
    purge_loop-fuel (length s.db.table.rows + 1) p (suc n) s.db.table v (omega arith)
      (omega (arith, length-filter-le p s.db.table.rows)))

-- Whatever the batch size, if it is positive, `purge_expired` returns the count and leaves the store of a
-- single DELETE, errors included. The ids of the table rise.
pub purge_expired-batches :
    (s : SqliteStore) (n : ℕ) (older_than : Option ℕ) (now : ℕ)
    → IsValid s.db.table
    → purge_expired s (some (suc n)) older_than now ≡ purge_expired s none older_than now
unfolding purge_expired
purge_expired-batches s n older_than now v = elim (Option-cases (expiry_cutoff s older_than now)) [
  | inl never ↦ rw never
  | inr (cutoff, e) ↦ rw (e, purge_where-batches s (is_expired s.tenant_id cutoff) n v)
]

-- Whatever the batch size, if it is positive, `purge_tenant` returns the count and leaves the store of a
-- single DELETE, errors included. The ids of the table rise.
pub purge_tenant-batches :
    (s : SqliteStore) (tenant : Option Text) (window n now : ℕ)
    → IsValid s.db.table
    → purge_tenant s tenant window (some (suc n)) now ≡ purge_tenant s tenant window none now
unfolding purge_tenant
purge_tenant-batches s tenant window n now v = rw (purge_where-batches s _ n v)

-- The store without its expired rows, committed.
abbrev pub kept : SqliteStore → ℕ → SqliteStore
kept s cutoff =
    let t : Table = record s.db.table {
      rows = filter (λ r. not (is_expired s.tenant_id cutoff r)) s.db.table.rows;
    } in
    let db : Db = record s.db { table = t } in record s { db = db; committed = db }

purge_where-kept :
    (s : SqliteStore) (cutoff : ℕ) (batch_size : Option ℕ)
    → IsValid s.db.table
    → is_zero batch_size ≡ false
    → purge_where s (is_expired s.tenant_id cutoff) batch_size
      ≡ (length (filter (is_expired s.tenant_id cutoff) s.db.table.rows), kept s cutoff)
purge_where-kept s cutoff none v h = unfold purge_where delete_where commit in refl
purge_where-kept s cutoff (some zero) v h = cc
purge_where-kept s cutoff (some (suc n)) v h =
    purge_where-batches s (is_expired s.tenant_id cutoff) n v
    ∙ (unfold purge_where delete_where commit in refl)

count_expired-cutoff :
    (s : SqliteStore) (older_than : Option ℕ) (now cutoff : ℕ)
    → expiry_cutoff s older_than now ≡ some cutoff
    → count_expired s older_than now
      ≡ length (filter (is_expired s.tenant_id cutoff) s.db.table.rows)
unfolding count_expired
count_expired-cutoff s older_than now cutoff e = rw (e, count_expired)

-- A purge with a cutoff, in one statement or in batches of a positive size, removes exactly the expired
-- rows in the store's scope, commits, and returns what `count_expired` counted before. The ids of the
-- table rise.
pub purge_expired-kept :
    (s : SqliteStore) (batch_size older_than : Option ℕ) (now cutoff : ℕ)
    → IsValid s.db.table
    → is_zero batch_size ≡ false
    → expiry_cutoff s older_than now ≡ some cutoff
    → purge_expired s batch_size older_than now ≡ ok (count_expired s older_than now, kept s cutoff)
unfolding purge_expired
purge_expired-kept s batch_size older_than now cutoff v h e =
    rw (
      h,
      e,
      purge_where-kept s cutoff batch_size v h,
      count_expired-cutoff s older_than now cutoff e,
    )

expired_unwanted :
    (tenant : Option Text) (ttl now later anchor : ℕ) (seg : Segment) (r : Row)
    → now ≤ later
    → wanted tenant (ttl_cutoff (some ttl) later) anchor seg r ≡ true
    → not (is_expired tenant (now - ttl) r) ≡ true
expired_unwanted tenant ttl now later anchor seg r le w = ground arith

kept-replay_stream :
    {Message : Type 0} (codec : Codec Message) (s : SqliteStore) (ttl now later anchor : ℕ)
    (stream : Text)
    → s.ttl ≡ some ttl
    → now ≤ later
    → replay_stream codec (kept s (now - ttl)) anchor stream later
      ≡ replay_stream codec s anchor stream later
unfolding replay_stream
kept-replay_stream codec s ttl now later anchor stream e le =
    replay_segments-filter codec s.tenant_id (ttl_cutoff s.ttl later) anchor s.db.table.rows
      (λ r. not (is_expired s.tenant_id (now - ttl) r)) (get_stream_segments s.db.forks stream)
      (λ seg r. rw e (expired_unwanted s.tenant_id ttl now later anchor seg r le))

-- The client's own event, if it is there and not expired.
find?-filter :
    (p q : Row → Bool) (rows : List Row) (x : Row)
    → find? p rows ≡ some x
    → q x ≡ true
    → find? p (filter q rows) ≡ some x
find?-filter p q [] x h k = h
find?-filter p q (r ∷ rows) x h k = ground (arith, h, k, find?-filter p q rows x)

kept-stream_id_for_event :
    (s : SqliteStore) (cutoff anchor : ℕ) (x : Row)
    → find_event s anchor ≡ some x
    → not (is_expired s.tenant_id cutoff x) ≡ true
    → stream_id_for_event (kept s cutoff) (some anchor) ≡ stream_id_for_event s (some anchor)
unfolding stream_id_for_event
kept-stream_id_for_event s cutoff anchor x h k =
    ap (λ (o : Option Row). elim o [ none ↦ none | some r ↦ some r.stream_id ])
      (find?-filter (λ r. r.event_id == anchor && in_scope s.tenant_id r)
          (λ r. not (is_expired s.tenant_id cutoff r)) s.db.table.rows x h k
        ∙ sym h)

-- What a client gives with the id of its last event: the stream, or an event that the store still finds
-- and that is not expired.
abbrev pub IsResolvable : SqliteStore → ℕ → ℕ → Option Text → Type 0
IsResolvable s cutoff anchor (some stream) = Unit {0}
IsResolvable s cutoff anchor none =
    (x : Row) × (find_event s anchor ≡ some x) × (not (is_expired s.tenant_id cutoff x) ≡ true)

kept-replay_events_after :
    {Message : Type 0} (codec : Codec Message) (s : SqliteStore) (ttl now later anchor : ℕ)
    (stream : Option Text)
    → s.ttl ≡ some ttl
    → now ≤ later
    → IsResolvable s (now - ttl) anchor stream
    → replay_events_after codec (kept s (now - ttl)) (some anchor) stream later
      ≡ replay_events_after codec s (some anchor) stream later
unfolding replay_events_after
kept-replay_events_after codec s ttl now later anchor (some stream) e le h =
    ap (λ events. (some stream, events))
      (kept-replay_stream codec s ttl now later anchor stream e le)
kept-replay_events_after codec s ttl now later anchor none e le (x, found, fresh) =
    ap (replay_found codec (kept s (now - ttl)) anchor later)
      (kept-stream_id_for_event s (now - ttl) anchor x found fresh)
    ∙ elim (stream_id_for_event s (some anchor))
        as (λ o.
          replay_found codec (kept s (now - ttl)) anchor later o
          ≡ replay_found codec s anchor later o) [
            | none ↦ refl
            | some stream ↦
                ap (λ events. (some stream, events))
                  (kept-replay_stream codec s ttl now later anchor stream e le)
          ]

-- A purge by the store's own `ttl`, in one statement or in batches of a positive size, succeeds with the
-- count of `count_expired` and changes no `replay_events_after` at that time or later, for a client that
-- names its stream, or one whose own event the store finds and that is not expired: what was removed
-- would have been passed over as expired. The ids of the table rise.
pub replay_events_after-purge_expired :
    {Message : Type 0} (codec : Codec Message) (s : SqliteStore) (batch_size : Option ℕ)
    (ttl now later anchor : ℕ) (stream : Option Text)
    → IsValid s.db.table
    → is_zero batch_size ≡ false
    → s.ttl ≡ some ttl
    → now ≤ later
    → IsResolvable s (now - ttl) anchor stream
    → (s' : SqliteStore) × (purge_expired s batch_size none now ≡ ok (count_expired s none now, s'))
      × (replay_events_after codec s' (some anchor) stream later
          ≡ replay_events_after codec s (some anchor) stream later)
replay_events_after-purge_expired codec s batch_size ttl now later anchor stream v h e le given = (
  kept s (now - ttl),
  purge_expired-kept s batch_size none now (now - ttl) v h (unfold expiry_cutoff in rw e),
  kept-replay_events_after codec s ttl now later anchor stream e le given,
)
