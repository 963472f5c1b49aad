-- ===== src/Recorder/Settled.antt =====
-- What a shutdown of the recorder has counted is not in hand any more.
use mcp_persist.Prelude.{
  ℕ, zero, suc, ◌+◌, ◌≡◌, ◌≢◌, refl, sym, ◌∙◌, arith, Bool, true, false, List, [], ◌∷◌, ◌++◌, leb,
  if◌then◌else◌, length,
}
use mcp_persist.Recorder.{
  TaskState, no_task, active, ended, RecordFlusher, Outcome, stored, raised, cancelled, Action,
  initializing, initialized, initialize, initialize_from, submitting, starting, collecting,
  closing_begins, closing_ends, finishing, start_from, start, submit, collect_from, collect,
  finish_from, finish, end_idle, begin_from, begin_close, charge, close_from, end_close, act,
}

false-ne : false ≢ true
false-ne e = ground arith

active-ne : active ≢ no_task
active-ne e = ground arith

initializing-ne : initializing ≢ no_task
initializing-ne e = ground arith

cons-ne : {R : Type 0} {r : R} {rs : List R} → (r ∷ rs) ≢ []
cons-ne e = ground arith

module _ {R : Type 0} where
  -- Nothing is in hand once a shutdown has counted it.
  pub record IsSettled (s : RecordFlusher R) : Type 0 where
    pub idle : s.accounted_at_shutdown ≡ true → s.batch ≡ []
    pub stopped_task : s.accounted_at_shutdown ≡ true → s.task ≡ no_task

  batch-end_idle : (s : RecordFlusher R) (t : TaskState) → (end_idle s t).batch ≡ s.batch
  batch-end_idle s active = refl
  batch-end_idle s no_task = refl
  batch-end_idle s initializing = refl
  batch-end_idle s ended = refl

  pub batch-finish_from :
      (s : RecordFlusher R) (b : List R) (o : Outcome)
      → s.batch ≡ b
      → (finish_from s b o).batch ≡ []
  batch-finish_from s [] (stored n) e = e
  batch-finish_from s [] raised e = e
  batch-finish_from s [] cancelled e = batch-end_idle s s.task ∙ e
  batch-finish_from s (r ∷ rs) (stored n) e = refl
  batch-finish_from s (r ∷ rs) raised e = refl
  batch-finish_from s (r ∷ rs) cancelled e = refl

  IsSettled-start_from :
      (s : RecordFlusher R) (t : TaskState) (c : Bool) → IsSettled s → IsSettled (start_from s t c)
  IsSettled-start_from s no_task false h = record {
    idle = λ e. absurd (false-ne e);
    stopped_task = λ e. absurd (false-ne e);
  }
  IsSettled-start_from s no_task true h = h
  IsSettled-start_from s initializing c h = h
  IsSettled-start_from s active c h = h
  IsSettled-start_from s ended c h = h

  IsSettled-initialize_from :
      (s : RecordFlusher R) (t : TaskState) (works : Bool)
      → s.task ≡ t
      → IsSettled s
      → IsSettled (initialize_from s t works)
  IsSettled-initialize_from s initializing true e h = record {
    idle = h.idle;
    stopped_task = λ f. absurd (initializing-ne (sym e ∙ h.stopped_task f));
  }
  IsSettled-initialize_from s initializing false e h = record {
    idle = h.idle;
    stopped_task = λ f. refl;
  }
  IsSettled-initialize_from s no_task works e h = h
  IsSettled-initialize_from s active works e h = h
  IsSettled-initialize_from s ended works e h = h

  IsSettled-collect_from :
      (s : RecordFlusher R) (t : TaskState) (b : List R)
      → s.task ≡ t
      → IsSettled s
      → IsSettled (collect_from s t b)
  IsSettled-collect_from s active [] e h = record {
    idle = λ f. absurd (active-ne (sym e ∙ h.stopped_task f));
    stopped_task = h.stopped_task;
  }
  IsSettled-collect_from s active (r ∷ rs) e h = h
  IsSettled-collect_from s no_task b e h = h
  IsSettled-collect_from s initializing b e h = h
  IsSettled-collect_from s ended b e h = h

  IsSettled-end_idle :
      (s : RecordFlusher R) (t : TaskState) → s.task ≡ t → IsSettled s → IsSettled (end_idle s t)
  IsSettled-end_idle s active e h = record {
    idle = h.idle;
    stopped_task = λ f. absurd (active-ne (sym e ∙ h.stopped_task f));
  }
  IsSettled-end_idle s no_task e h = h
  IsSettled-end_idle s initializing e h = h
  IsSettled-end_idle s ended e h = h

  IsSettled-finish_from :
      (s : RecordFlusher R) (b : List R) (o : Outcome)
      → s.batch ≡ b
      → IsSettled s
      → IsSettled (finish_from s b o)
  IsSettled-finish_from s [] (stored n) e h = h
  IsSettled-finish_from s [] raised e h = h
  IsSettled-finish_from s [] cancelled e h = IsSettled-end_idle s s.task refl h
  IsSettled-finish_from s (r ∷ rs) (stored n) e h = record {
    idle = λ f. refl;
    stopped_task = h.stopped_task;
  }
  IsSettled-finish_from s (r ∷ rs) raised e h = record {
    idle = λ f. refl;
    stopped_task = h.stopped_task;
  }
  IsSettled-finish_from s (r ∷ rs) cancelled e h = record {
    idle = λ f. refl;
    stopped_task = λ f. absurd (cons-ne (sym e ∙ h.idle f));
  }

  IsSettled-begin_from :
      (s : RecordFlusher R) (t : TaskState) → IsSettled s → IsSettled (begin_from s t)
  IsSettled-begin_from s no_task h = h
  IsSettled-begin_from s initializing h = h
  IsSettled-begin_from s active h = record { idle = h.idle; stopped_task = h.stopped_task }
  IsSettled-begin_from s ended h = record { idle = h.idle; stopped_task = h.stopped_task }

  pub batch-charge : (s : RecordFlusher R) (n : ℕ) → (charge s n).batch ≡ s.batch
  batch-charge s zero = refl
  batch-charge s (suc n) = refl

  IsSettled-close_from : (s : RecordFlusher R) (c : Bool) → IsSettled s → IsSettled (close_from s c)
  IsSettled-close_from s true h =
      let n = length s.queue + length s.batch in
      record {
        idle = λ f. batch-finish_from (charge s n) s.batch cancelled (batch-charge s n);
        stopped_task = λ f. refl;
      }
  IsSettled-close_from s false h = h

  IsSettled-submit : (s : RecordFlusher R) (r : R) → IsSettled s → IsSettled (submit s r).1
  unfolding submit
  IsSettled-submit s r h =
      elim (leb s.max_queue (length s.queue))
        as (λ b.
          let out : Bool × RecordFlusher R =
            if b
            then (false, record s { dropped = s.dropped + 1 })
            else (true, record s { queue = s.queue ++ r ∷ [] }) in
          IsSettled out.1) [
            | true ↦ record { idle = h.idle; stopped_task = h.stopped_task }
            | false ↦ record { idle = h.idle; stopped_task = h.stopped_task }
          ]

  pub IsSettled-act : (s : RecordFlusher R) (a : Action R) → IsSettled s → IsSettled (act s a)
  unfolding act
  IsSettled-act s (submitting r) h = IsSettled-submit s r h
  IsSettled-act s starting h = unfold start in IsSettled-start_from s s.task s.closing h
  IsSettled-act s (initialized works) h =
      unfold initialize in IsSettled-initialize_from s s.task works refl h
  IsSettled-act s collecting h = unfold collect in IsSettled-collect_from s s.task s.batch refl h
  IsSettled-act s (finishing o) h = unfold finish in IsSettled-finish_from s s.batch o refl h
  IsSettled-act s closing_begins h = unfold begin_close in IsSettled-begin_from s s.task h
  IsSettled-act s closing_ends h = unfold end_close in IsSettled-close_from s s.closing h
