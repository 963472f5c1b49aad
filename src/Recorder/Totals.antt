-- ===== src/Recorder/Totals.antt =====
-- What becomes of the records that are submitted.
use mcp_persist.Prelude.{
  ℕ, zero, suc, ◌+◌, ◌≡◌, refl, subst, sym, ap, ◌∙◌, arith, true, List, [], ◌∷◌, if◌then◌else◌,
  length,
}
use mcp_persist.Recorder.{
  TaskState, no_task, active, ended, RecordFlusher, cancelled, Action, initializing, initialized,
  submitting, starting, collecting, closing_begins, closing_ends, finishing, finish_from, end_idle,
  stopped, charge, close_from, end_close, act,
}
use mcp_persist.Recorder.Settled.{batch-finish_from, batch-charge}

module _ {R : Type 0} where
  -- Counted, or still to be.
  abbrev pub total : RecordFlusher R → ℕ
  total s = ((s.written + s.dropped) + s.failed) + (length s.queue + length s.batch)

  stopped-end_idle : (s : RecordFlusher R) (t : TaskState) → stopped (end_idle s t) ≡ stopped s
  stopped-end_idle s active = refl
  stopped-end_idle s no_task = refl
  stopped-end_idle s initializing = refl
  stopped-end_idle s ended = refl

  -- What an action adds to the total: a record, or what a close leaves in the queue, which it has
  -- counted as dropped.
  abbrev pub gain : RecordFlusher R → Action R → ℕ
  gain s (submitting r) = 1
  gain s closing_ends = if s.closing then length s.queue else 0
  gain s starting = 0
  gain s (initialized works) = 0
  gain s collecting = 0
  gain s (finishing o) = 0
  gain s closing_begins = 0

  pub gains : RecordFlusher R → List (Action R) → ℕ
  gains s [] = 0
  gains s (a ∷ actions) = gain s a + gains (act s a) actions

  -- What the counters say has become of the records.
  abbrev pub counted : RecordFlusher R → ℕ
  counted s = (s.written + s.dropped) + s.failed

  charged-counted :
      (s : RecordFlusher R) (b : List R) (n : ℕ)
      → n ≡ length s.queue + length b
      → counted (stopped (finish_from (charge s n) b cancelled)) ≡ counted s + n
  charged-counted s [] zero h = ap counted (stopped-end_idle s s.task) ∙ omega (arith, h)
  charged-counted s (r ∷ rs) zero h = absurd (omega (arith, h))
  charged-counted s [] (suc n) h =
      ap counted (stopped-end_idle (charge s (suc n)) s.task) ∙ omega (arith, h)
  charged-counted s (r ∷ rs) (suc n) h = omega arith

  -- A close that began ends with no writer and no batch in hand, and its counters then account, once
  -- each, for every record counted before, queued or in hand.
  pub end_close-counted :
      (s : RecordFlusher R)
      → s.closing ≡ true
      → (counted (end_close s) ≡ total s)
        × ((end_close s).batch ≡ [])
        × ((end_close s).task ≡ no_task)
  unfolding end_close
  end_close-counted s e =
      let n = length s.queue + length s.batch in
      subst
        (λ c.
          (counted (close_from s c) ≡ total s)
          × ((close_from s c).batch ≡ [])
          × ((close_from s c).task ≡ no_task))
        (sym e)
        (
          charged-counted s s.batch n refl,
          batch-finish_from (charge s n) s.batch cancelled (batch-charge s n),
          refl,
        )
