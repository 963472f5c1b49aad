-- ===== src/Batching/Backlog.antt =====
-- The bound on the backlog: `max_pending` bounds what a write may join, but not what a failed flush
-- puts back on top of the writes accepted while it ran.
use mcp_persist.Prelude.{
  ℕ, zero, suc, ◌+◌, ◌<◌, ◌≡◌, refl, ap, sym, subst, ◌∙◌, true, false, List, [], ◌∷◌, ◌++◌, Option,
  none, some, arith, Text, length, length-append, Option-cases, inl, inr,
}
use mcp_persist.Batching.{
  PendingWrite, Backend, Batcher, ok, refill, take_id, accept, act, Action, begin_flush, end_flush,
  write_items, write_batch, begin_with, begin_from, end_from, settle, after_accept, run,
}

module _ {Message S : Type 0} (b : Backend Message S) where
  -- A backend that is down: every write raises, of one event or of a batch. Ids are still to be had.
  pub record IsDown : Type 0 where
    pub fails : (s : S) (w : PendingWrite Message) → b.store_with_id s w ≡ none
    pub batch_fails :
        (f : S → List (PendingWrite Message) → Option S) (s : S)
        (batch : List (PendingWrite Message))
        → b.store_batch ≡ some f
        → f s batch ≡ none
    pub supply :
        (s : S) (n : ℕ)
        → (id : ℕ) × (ids : List ℕ) × (s' : S) × (b.allocate s n ≡ some (id ∷ ids, s'))

  -- A store between two flushes, with a backlog of `n` writes.
  pub record HasBacklog (n : ℕ) (s : Batcher Message S) : Type 0 where
    pub waiting : length s.pending ≡ n
    pub idle : s.in_flight ≡ none
    pub opened : s.closed ≡ false
    pub room : 0 < s.max_pending

  -- A flush that fails while one write is accepted.
  abbrev pub failed_round : Text → Option Message → List (Action Message)
  failed_round stream message =
      Action.start_flush ∷ Action.write stream message ∷ Action.finish_flush ∷ []

  cons_of_length :
      (ws : List (PendingWrite Message)) (n : ℕ)
      → length ws ≡ suc n
      → (v : PendingWrite Message) × (vs : List (PendingWrite Message)) × (ws ≡ v ∷ vs)
  cons_of_length [] n e = absurd (omega arith)
  cons_of_length (v ∷ vs) n e = (v, vs, refl)

  refill_supply :
      IsDown
      → (s : Batcher Message S) (block : List ℕ)
      → (id : ℕ) × (ids : List ℕ) × (inner : S) × (refill b s block ≡ some (id ∷ ids, inner))
  refill_supply down s [] = down.supply s.inner s.flush_max_events
  refill_supply down s (id ∷ ids) = (id, ids, s.inner, refl)

  write_batch_down :
      IsDown
      → (inner : S) (v : PendingWrite Message) (vs : List (PendingWrite Message))
      → write_batch b inner (v ∷ vs) ≡ (0, inner, false)
  unfolding write_batch write_items
  write_batch_down down inner v vs = elim (Option-cases b.store_batch) [
    | inl e ↦ ground (arith, e, down.fails inner v)
    | inr (f, e) ↦ ground (arith, e, down.batch_fails f inner (v ∷ vs) e)
  ]

  -- Between the two parts of a flush: the whole backlog of `n` writes is in flight.
  record IsBusy (v : PendingWrite Message) (vs : List (PendingWrite Message)) (n : ℕ)
      (s : Batcher Message S) : Type 0 where
    flying : s.in_flight ≡ some (v ∷ vs)
    waiting : length s.pending ≡ n
    opened : s.closed ≡ false
    room : 0 < s.max_pending

  start_IsBusy :
      (n : ℕ) (s : Batcher Message S) (v : PendingWrite Message) (vs : List (PendingWrite Message))
      → HasBacklog n s
      → s.pending ≡ v ∷ vs
      → IsBusy v vs 0 (begin_flush b s)
  unfolding begin_flush
  start_IsBusy n s v vs h e =
      let same : begin_from b s s.in_flight ≡ begin_with b s (v ∷ vs) =
        ap (begin_from b s) h.idle ∙ ap (begin_with b s) e in
      subst (IsBusy v vs 0) (sym same)
        (record { flying = refl; waiting = refl; opened = h.opened; room = h.room })

  write-IsBusy :
      IsDown
      → (stream : Text) (message : Option Message) (s : Batcher Message S)
        (v : PendingWrite Message) (vs : List (PendingWrite Message))
      → IsBusy v vs 0 s
      → IsBusy v vs 1 (act b s (Action.write stream message))
  write-IsBusy down stream message s v vs h =
      let (id, ids, inner, e) = refill_supply down s s.id_block in
      let new : PendingWrite Message = record {
        stream_id = stream;
        message = message;
        event_id = id;
      } in
      let t : Batcher Message S = record s {
        inner = inner;
        pending = s.pending ++ new ∷ [];
        id_block = ids;
        armed = true;
      } in
      let taken : accept b s stream message ≡ ok (id, t) =
        (unfold accept in
          ground (arith, ap (take_id b s stream message) e, h.waiting, h.opened, h.room)) in
      let same : act b s (Action.write stream message) ≡ t =
        (unfold act in ap (after_accept b s) taken) in
      subst (IsBusy v vs 1) (sym same) (record {
        flying = h.flying;
        waiting = omega (arith, length-append s.pending (new ∷ []), h.waiting);
        opened = h.opened;
        room = h.room;
      })

  finish_HasBacklog :
      IsDown
      → (n : ℕ) (s : Batcher Message S) (v : PendingWrite Message)
        (vs : List (PendingWrite Message))
      → IsBusy v vs n s
      → HasBacklog (length (v ∷ vs) + n) (end_flush b s)
  unfolding end_flush
  finish_HasBacklog down n s v vs h =
      let same : end_from b s s.in_flight ≡ settle b s (v ∷ vs) (0, s.inner, false) =
        ap (end_from b s) h.flying
        ∙ ap (settle b s (v ∷ vs)) (write_batch_down down s.inner v vs) in
      subst (HasBacklog (length (v ∷ vs) + n)) (sym same) (record {
        waiting = omega (arith, length-append (v ∷ vs) s.pending, h.waiting);
        idle = refl;
        opened = h.opened;
        room = h.room;
      })

  failed_round-HasBacklog :
      IsDown
      → (stream : Text) (message : Option Message) (n : ℕ) (s : Batcher Message S)
      → HasBacklog (suc n) s
      → HasBacklog (suc (suc n)) (run b s (failed_round stream message))
  unfolding run
  failed_round-HasBacklog down stream message n s h =
      let (v, vs, e) = cons_of_length s.pending n h.waiting in
      let s' = begin_flush b s in
      let s'' = act b s' (Action.write stream message) in
      let count : length (v ∷ vs) + 1 ≡ suc (suc n) = omega (arith, ap length e, h.waiting) in
      subst (λ (k : ℕ). HasBacklog k (end_flush b s'')) count
        (finish_HasBacklog down 1 s'' v vs
          (write-IsBusy down stream message s' v vs (start_IsBusy (suc n) s v vs h e)))

  pub repeat : ℕ → List (Action Message) → List (Action Message)
  repeat zero actions = []
  repeat (suc k) actions = actions ++ repeat k actions

  run-append :
      (s : Batcher Message S) (xs ys : List (Action Message))
      → run b s (xs ++ ys) ≡ run b (run b s xs) ys
  unfolding run
  run-append s [] ys = refl
  run-append s (x ∷ xs) ys = run-append (act b s x) xs ys

  -- While every write of the backend raises, of one event or of a batch where it has
  -- `_store_events_with_ids`, though it still gives out ids, the backlog of an open store with
  -- writes waiting and a positive `max_pending` is not bounded by it: each failing flush during
  -- which one write is accepted makes it one longer, `k` of them `k` longer, for every `k`.
  pub backlog_grows :
      IsDown
      → (stream : Text) (message : Option Message) (k n : ℕ) (s : Batcher Message S)
      → HasBacklog (suc n) s
      → HasBacklog (suc (k + n)) (run b s (repeat k (failed_round stream message)))
  unfolding repeat
  backlog_grows down stream message zero n s h =
      unfold run in subst (λ (m : ℕ). HasBacklog (suc m) s) (omega arith) h
  backlog_grows down stream message (suc k) n s h =
      let round = failed_round stream message in
      rw (run-append s round (repeat k round)) (
        subst (λ (m : ℕ). HasBacklog (suc m) (run b (run b s round) (repeat k round))) (omega arith)
          (backlog_grows down stream message k (suc n) (run b s round)
            (failed_round-HasBacklog down stream message n s h)))
