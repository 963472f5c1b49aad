-- ===== src/Recorder.antt =====
-- src/mcp_persist/recorder.py, `RecordFlusher`: records queued on the request path and written in the
-- background. The record store is a parameter that shows in the outcome of each write. The steps that
-- tasks can take in any order are the values of `Action`; metrics hooks and log lines are left out.
pub mod Settled
pub mod Totals
use mcp_persist.Prelude.{
  ℕ, zero, suc, ◌+◌, ◌-◌, min, Bool, true, false, ◌||◌, List, [], ◌∷◌, ◌++◌, Option, none, some,
  leb, ◌==◌, if◌then◌else◌, length, take, drop,
}

-- `_task`: none, none while `start` awaits `initialize`, running, or done because it was cancelled from
-- elsewhere. A second `start` during that wait, which would make a second writer, is not modelled.
pub data TaskState : Type 0 where
  no_task initializing active ended : TaskState

-- RecordFlusher. `batch` is what the writer has taken from the queue; `_inflight` is its length.
pub record RecordFlusher {ℓ} (R : Type ℓ) : Type ℓ where
  pub max_queue : ℕ
  pub batch_size : ℕ
  pub queue : List R
  pub batch : List R
  pub task : TaskState
  pub written : ℕ
  pub dropped : ℕ
  pub failed : ℕ
  pub accounted_at_shutdown : Bool
  pub closing : Bool

-- What `store_records` does with a batch: it returns a count, or `None`; it raises; it is cancelled.
pub data Outcome : Type 0 where
  stored : Option ℕ → Outcome
  raised cancelled : Outcome

pub data Action {ℓ} (R : Type ℓ) : Type ℓ where
  submitting : R → Action R
  starting : Action R
  initialized : Bool → Action R
  collecting closing_begins closing_ends : Action R
  finishing : Outcome → Action R

-- `len(batch) if stored is None else min(int(stored), len(batch))`
abbrev pub count_of : Option ℕ → ℕ → ℕ
count_of none n = n
count_of (some count) n = min count n

module _ {R : Type 0} where
  -- RecordFlusher.__init__; `none` where it raises.
  unfoldable pub init : ℕ → ℕ → Option (RecordFlusher R)
  init max_queue batch_size =
      if max_queue == 0 || batch_size == 0
      then none
      else some (record {
        max_queue = max_queue;
        batch_size = batch_size;
        queue = [];
        batch = [];
        task = no_task;
        written = 0;
        dropped = 0;
        failed = 0;
        accounted_at_shutdown = false;
        closing = false;
      })

  -- `start` up to its wait for the store.
  abbrev pub start_from : RecordFlusher R → TaskState → Bool → RecordFlusher R
  start_from s no_task false = record s { accounted_at_shutdown = false; task = initializing }
  start_from s no_task true = s
  start_from s initializing closing = s
  start_from s active closing = s
  start_from s ended closing = s

  unfoldable pub start : RecordFlusher R → RecordFlusher R
  start s = start_from s s.task s.closing

  -- The rest of `start`, or its end where `initialize` raises.
  abbrev pub initialize_from : RecordFlusher R → TaskState → Bool → RecordFlusher R
  initialize_from s initializing true = record s { task = active }
  initialize_from s initializing false = record s { task = no_task }
  initialize_from s no_task works = s
  initialize_from s active works = s
  initialize_from s ended works = s

  unfoldable pub initialize : RecordFlusher R → Bool → RecordFlusher R
  initialize s works = initialize_from s s.task works

  -- `submit`: false if the record was dropped.
  unfoldable pub submit : RecordFlusher R → R → Bool × RecordFlusher R
  submit s r =
      if leb s.max_queue (length s.queue)
      then (false, record s { dropped = s.dropped + 1 })
      else (true, record s { queue = s.queue ++ r ∷ [] })

  -- `_collect`, by a running writer that has no batch: it waits until there is a record.
  abbrev pub collect_from : RecordFlusher R → TaskState → List R → RecordFlusher R
  collect_from s active [] = record s {
    batch = take s.batch_size s.queue;
    queue = drop s.batch_size s.queue;
  }
  collect_from s active (r ∷ rs) = s
  collect_from s no_task batch = s
  collect_from s initializing batch = s
  collect_from s ended batch = s

  unfoldable pub collect : RecordFlusher R → RecordFlusher R
  collect s = collect_from s s.task s.batch

  -- The rest of a turn of `_run`, with a batch in hand.
  abbrev pub settle : RecordFlusher R → ℕ → Outcome → RecordFlusher R
  settle s n (stored count) = record s {
    batch = [];
    written = s.written + count_of count n;
    failed = s.failed + (n - count_of count n);
  }
  settle s n raised = record s { batch = []; failed = s.failed + n }
  settle s n cancelled = record s {
    batch = [];
    task = ended;
    dropped = s.dropped + (if s.accounted_at_shutdown then 0 else n);
  }

  -- A cancellation while the writer waits for a record ends it too.
  abbrev pub end_idle : RecordFlusher R → TaskState → RecordFlusher R
  end_idle s active = record s { task = ended }
  end_idle s no_task = s
  end_idle s initializing = s
  end_idle s ended = s

  abbrev pub finish_from : RecordFlusher R → List R → Outcome → RecordFlusher R
  finish_from s [] (stored count) = s
  finish_from s [] raised = s
  finish_from s [] cancelled = end_idle s s.task
  finish_from s (r ∷ rs) outcome = settle s (length (r ∷ rs)) outcome

  unfoldable pub finish : RecordFlusher R → Outcome → RecordFlusher R
  finish s outcome = finish_from s s.batch outcome

  -- `aclose` up to its wait for the queue.
  abbrev pub begin_from : RecordFlusher R → TaskState → RecordFlusher R
  begin_from s no_task = s
  begin_from s initializing = s
  begin_from s active = record s { closing = true }
  begin_from s ended = record s { closing = true }

  unfoldable pub begin_close : RecordFlusher R → RecordFlusher R
  begin_close s = begin_from s s.task

  -- The rest of `aclose`: the wait has ended, at once if nothing waits, else by its timeout, and the
  -- writer is cancelled. Nothing else runs between the count of what is left and the cancellation.
  abbrev pub stopped : RecordFlusher R → RecordFlusher R
  stopped s = record s { task = no_task; closing = false }

  abbrev pub charge : RecordFlusher R → ℕ → RecordFlusher R
  charge s zero = s
  charge s (suc n) = record s { dropped = s.dropped + suc n; accounted_at_shutdown = true }

  abbrev pub close_from : RecordFlusher R → Bool → RecordFlusher R
  close_from s true =
      stopped (finish_from (charge s (length s.queue + length s.batch)) s.batch cancelled)
  close_from s false = s

  unfoldable pub end_close : RecordFlusher R → RecordFlusher R
  end_close s = close_from s s.closing

  unfoldable pub act : RecordFlusher R → Action R → RecordFlusher R
  unfolding submit start initialize collect finish begin_close end_close
  act s (submitting r) = (submit s r).1
  act s starting = start s
  act s (initialized works) = initialize s works
  act s collecting = collect s
  act s (finishing outcome) = finish s outcome
  act s closing_begins = begin_close s
  act s closing_ends = end_close s

  unfoldable pub run : RecordFlusher R → List (Action R) → RecordFlusher R
  unfolding act
  run s [] = s
  run s (a ∷ actions) = run (act s a) actions
