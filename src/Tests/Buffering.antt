-- ===== src/Tests/Buffering.antt =====
-- A backend that keeps its writes in a list, and one that is down.
use mcp_persist.Prelude.{
  ℕ, suc, ◌+◌, ◌≡◌, refl, arith, true, false, List, [], ◌∷◌, ◌++◌, none, some, Text, codes, length,
}
use mcp_persist.Batching.{PendingWrite, Backend, Batcher, Action, run}
use mcp_persist.Batching.History.{IsBackend, all_writes, run_accepted, run-all_writes}
use mcp_persist.Batching.Backlog.{IsDown, HasBacklog, failed_round, repeat, backlog_grows}
use mcp_persist.Recorder.{
  RecordFlusher, no_task, active, Outcome, stored, raised, submitting, starting, initialized,
  collecting, finishing, closing_begins, closing_ends,
}
use mcp_persist.Recorder
use mcp_persist.Recorder.Totals.{counted, end_close-counted}

abbrev Log : Type 0
Log = List (PendingWrite Text)

abbrev keeping : Backend Text Log
keeping = record {
  allocate = λ s n. some (suc (length s) ∷ [], s);
  store_with_id = λ s w. some (s ++ w ∷ []);
  store_batch = none;
}

abbrev down : Backend Text Log
down = record {
  allocate = λ s n. some (7 ∷ [], s);
  store_with_id = λ s w. none;
  store_batch = none;
}

keeping-IsBackend : IsBackend keeping (λ s. s)
keeping-IsBackend = record {
  written-allocate = λ s n ids s' e. ground arith;
  written-store_with_id = λ s w s' e. ground arith;
  written-store_batch = λ store s ws s' e. ground arith;
}

down-IsDown : IsDown down
down-IsDown = record {
  fails = λ s w. refl;
  batch_fails = λ f s batch e. cc;
  supply = λ s n. (7, [], s, refl);
}

abbrev waiting : PendingWrite Text
waiting = record { stream_id = codes "main"; message = none; event_id = 1 }

abbrev batcher : Batcher Text Log
batcher = record {
  inner = [];
  flush_max_events = 1;
  max_pending = 2;
  pending = waiting ∷ [];
  in_flight = none;
  id_block = 2 ∷ [];
  armed = true;
  closed = false;
}

abbrev actions : List (Action Text)
actions =
    Action.start_flush
    ∷ Action.write (codes "main") (some (codes "{}"))
    ∷ Action.finish_flush
    ∷ Action.start_flush
    ∷ Action.close
    ∷ Action.finish_flush
    ∷ []

run-all_writes_example :
    all_writes keeping (λ s. s) keeping-IsBackend (run keeping batcher actions)
    ≡ all_writes keeping (λ s. s) keeping-IsBackend batcher
      ++ run_accepted keeping (λ s. s) keeping-IsBackend batcher actions
run-all_writes_example = run-all_writes keeping (λ s. s) keeping-IsBackend batcher actions

batcher-HasBacklog : HasBacklog down 1 batcher
batcher-HasBacklog = record { waiting = refl; idle = refl; opened = refl; room = omega arith }

backlog_grows_example :
    HasBacklog down
      (suc (5 + 0))
      (run down batcher (repeat down 5 (failed_round down (codes "main") none)))
backlog_grows_example =
    backlog_grows down down-IsDown (codes "main") none 5 0 batcher batcher-HasBacklog

-- A flusher with one record in hand, one in its queue, and a close under way.
abbrev flusher : RecordFlusher ℕ
flusher = record {
  max_queue = 2;
  batch_size = 1;
  queue = 8 ∷ [];
  batch = 7 ∷ [];
  task = active;
  written = 3;
  dropped = 1;
  failed = 0;
  accounted_at_shutdown = false;
  closing = true;
}

abbrev steps : List (Recorder.Action ℕ)
steps =
    submitting 9
    ∷ submitting 10
    ∷ finishing (stored (some 0))
    ∷ collecting
    ∷ closing_ends
    ∷ starting
    ∷ initialized true
    ∷ collecting
    ∷ finishing raised
    ∷ []

end_close-counted_example :
    (counted (Recorder.end_close flusher) ≡ 6)
    × ((Recorder.end_close flusher).batch ≡ [])
    × ((Recorder.end_close flusher).task ≡ no_task)
end_close-counted_example = end_close-counted flusher refl
