-- ===== src/Batching.antt =====
-- src/mcp_persist/batching.py, `BatchingEventStore`: writes that wait for the next flush. The wrapped
-- store is a parameter. A flush writes without the store's lock, so it is two steps, and writes may be
-- accepted between them.
pub mod History
pub mod Backlog
pub mod Bounds
use mcp_persist.Prelude.{
  ℕ, zero, suc, ◌+◌, Bool, true, false, ◌||◌, List, [], ◌∷◌, ◌++◌, Option, none, some, Text, ltb,
  leb, ◌==◌, if◌then◌else◌, length, drop, max,
}

-- _PendingWrite
pub record PendingWrite (Message : Type 0) : Type 0 where
  pub stream_id : Text
  pub message : Option Message
  pub event_id : ℕ

-- The wrapped store, `none` where a call raises: `_allocate_event_ids`, `_store_event_with_id` and,
-- where it has one, `_store_events_with_ids`.
pub record Backend (Message : Type 0) (S : Type 0) : Type 0 where
  pub allocate : S → ℕ → Option (List ℕ × S)
  pub store_with_id : S → PendingWrite Message → Option S
  pub store_batch : Option (S → List (PendingWrite Message) → Option S)

-- `in_flight`: the batch of a flush that holds the flush lock. `armed`: `_next_flush_at` is set.
pub record Batcher (Message : Type 0) (S : Type 0) : Type 0 where
  pub inner : S
  pub flush_max_events : ℕ
  pub max_pending : ℕ
  pub pending : List (PendingWrite Message)
  pub in_flight : Option (List (PendingWrite Message))
  pub id_block : List ℕ
  pub armed : Bool
  pub closed : Bool

pub data BatchError : Type 0 where
  bad_flush_max_events bad_latency bad_max_pending is_closed refusing backend_failed : BatchError

pub data Result {ℓ} (A : Type ℓ) : Type ℓ where
  ok : A → Result A
  err : BatchError → Result A

-- The steps that can follow one another in any order while tasks take turns.
pub data Action (Message : Type 0) : Type 0 where
  write : Text → Option Message → Action Message
  start_flush finish_flush close : Action Message

abbrev default_pending : ℕ → Option ℕ → ℕ
default_pending flush_max_events none = max 10000 flush_max_events
default_pending flush_max_events (some n) = n

module _ {Message S : Type 0} where
  -- BatchingEventStore.__init__
  unfoldable pub init : S → ℕ → ℕ → Option ℕ → Result (Batcher Message S)
  init inner flush_max_events flush_max_latency_ms max_pending =
      let limit = default_pending flush_max_events max_pending in
      if flush_max_events == 0
      then err bad_flush_max_events
      else if flush_max_latency_ms == 0
      then err bad_latency
      else if ltb limit flush_max_events
      then err bad_max_pending
      else ok (record {
        inner = inner;
        flush_max_events = flush_max_events;
        max_pending = limit;
        pending = [];
        in_flight = none;
        id_block = [];
        armed = false;
        closed = false;
      })

  module _ (b : Backend Message S) where
    -- `if not self._id_block: self._id_block.extend(await … _allocate_event_ids(…))`
    abbrev pub refill : Batcher Message S → List ℕ → Option (List ℕ × S)
    refill s [] = b.allocate s.inner s.flush_max_events
    refill s (id ∷ ids) = some (id ∷ ids, s.inner)

    abbrev pub take_id :
        Batcher Message S
        → Text
        → Option Message
        → Option (List ℕ × S)
        → Result (ℕ × Batcher Message S)
    take_id s stream message none = err backend_failed
    take_id s stream message (some ([], inner)) = err backend_failed
    take_id s stream message (some (id ∷ ids, inner)) =
        let write : PendingWrite Message = record {
          stream_id = stream;
          message = message;
          event_id = id;
        } in
        ok (
          id,
          record s {
            inner = inner;
            pending = s.pending ++ write ∷ [];
            id_block = ids;
            armed = true;
          },
        )

    -- `_store_event_impl` under the lock: refused if closed or full, else buffered under the next id.
    unfoldable pub accept :
        Batcher Message S → Text → Option Message → Result (ℕ × Batcher Message S)
    accept s stream message =
        if s.closed
        then err is_closed
        else if leb s.max_pending (length s.pending)
        then err refusing
        else take_id s stream message (refill s s.id_block)

    -- The first part of `flush`: the whole backlog becomes the batch in flight.
    abbrev pub begin_with : Batcher Message S → List (PendingWrite Message) → Batcher Message S
    begin_with s [] = s
    begin_with s (w ∷ ws) = record s { pending = []; in_flight = some (w ∷ ws) }

    abbrev pub begin_from :
        Batcher Message S → Option (List (PendingWrite Message)) → Batcher Message S
    begin_from s none = begin_with s s.pending
    begin_from s (some batch) = s

    unfoldable pub begin_flush : Batcher Message S → Batcher Message S
    begin_flush s = begin_from s s.in_flight

    -- The loop over single writes: the number written, the wrapped store, and whether all succeeded.
    pub write_items : S → List (PendingWrite Message) → ℕ × S × Bool
    write_items inner [] = (0, inner, true)
    write_items inner (w ∷ ws) = elim (b.store_with_id inner w) [
      | none ↦ (0, inner, false)
      | some inner' ↦
          let (written, inner'', done) = write_items inner' ws in (suc written, inner'', done)
    ]

    pub write_batch : S → List (PendingWrite Message) → ℕ × S × Bool
    unfolding write_items
    write_batch inner batch = elim b.store_batch [
      | none ↦ write_items inner batch
      | some store ↦ elim (store inner batch) [
        | none ↦ (0, inner, false)
        | some inner' ↦ (length batch, inner', true)
      ]
    ]

    abbrev is_nonempty : List (PendingWrite Message) → Bool
    is_nonempty [] = false
    is_nonempty (w ∷ ws) = true

    -- What `flush` does once the batch is written, or has failed: `batch[written:] + self._pending`.
    abbrev pub settle :
        Batcher Message S → List (PendingWrite Message) → ℕ × S × Bool → Batcher Message S
    settle s batch (written, inner, true) = record s {
      inner = inner;
      in_flight = none;
      armed = is_nonempty s.pending;
    }
    settle s batch (written, inner, false) = record s {
      inner = inner;
      in_flight = none;
      pending = drop written batch ++ s.pending;
      armed = true;
    }

    -- The second part of `flush`.
    abbrev pub end_from :
        Batcher Message S → Option (List (PendingWrite Message)) → Batcher Message S
    end_from s none = s
    end_from s (some batch) = settle s batch (write_batch s.inner batch)

    unfoldable pub end_flush : Batcher Message S → Batcher Message S
    unfolding write_batch
    end_flush s = end_from s s.in_flight

    -- `flush`, with nothing in between
    unfoldable pub flush : Batcher Message S → Batcher Message S
    unfolding begin_flush end_flush
    flush s = end_flush (begin_flush s)

    -- `store_event` with nothing in between: accepted, and flushed once the buffer is full
    unfoldable pub store_event :
        Batcher Message S → Text → Option Message → Result (ℕ × Batcher Message S)
    unfolding accept flush
    store_event s stream message = elim (accept s stream message) [
      | err e ↦ err e
      | ok (id, s') ↦ ok (id, if leb s'.flush_max_events (length s'.pending) then flush s' else s')
    ]

    -- `aclose`: no further writes, and a last flush
    unfoldable pub aclose : Batcher Message S → Batcher Message S
    unfolding flush
    aclose s = flush (record s { closed = true })

    -- A write that is refused, or for which no id was to be had, changes nothing.
    abbrev pub after_accept : Batcher Message S → Result (ℕ × Batcher Message S) → Batcher Message S
    after_accept s (err e) = s
    after_accept s (ok (id, s')) = s'

    unfoldable pub act : Batcher Message S → Action Message → Batcher Message S
    unfolding accept begin_flush end_flush
    act s (write stream message) = after_accept s (accept s stream message)
    act s start_flush = begin_flush s
    act s finish_flush = end_flush s
    act s close = record s { closed = true }

    unfoldable pub run : Batcher Message S → List (Action Message) → Batcher Message S
    unfolding act
    run s [] = s
    run s (a ∷ actions) = run (act s a) actions
