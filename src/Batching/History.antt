-- ===== src/Batching/History.antt =====
-- No accepted write is lost, duplicated or reordered, whatever tasks do between the parts of a flush
-- and however often the backend fails.
use mcp_persist.Prelude.{
  ℕ, suc, ◌≡◌, refl, ap, sym, ◌∙◌, Bool, true, false, List, [], ◌∷◌, ◌++◌, append-nil, append_assoc,
  Option, none, some, arith, Text, length, drop, inl, inr, Option-cases,
}
use mcp_persist.Batching.{
  PendingWrite, Backend, Batcher, Result, ok, err, refill, take_id, accept, begin_with, begin_from,
  end_from, write_items, write_batch, settle, after_accept, Action, act, run,
}

-- What is known of the wrapped store: `written` lists its events in the order of writing; a call that
-- raises has written nothing, and one that returns has written what it was given.
pub record IsBackend {Message S : Type 0} (b : Backend Message S)
    (written : S → List (PendingWrite Message)) : Type 0 where
  pub written-allocate :
      (s : S) (n : ℕ) (ids : List ℕ) (s' : S)
      → b.allocate s n ≡ some (ids, s')
      → written s' ≡ written s
  pub written-store_with_id :
      (s : S) (w : PendingWrite Message) (s' : S)
      → b.store_with_id s w ≡ some s'
      → written s' ≡ written s ++ w ∷ []
  pub written-store_batch :
      (store : S → List (PendingWrite Message) → Option S) (s : S)
      (ws : List (PendingWrite Message)) (s' : S)
      → b.store_batch ≡ some store
      → store s ws ≡ some s'
      → written s' ≡ written s ++ ws

module _ {Message S : Type 0} (b : Backend Message S) (written : S → List (PendingWrite Message))
    (law : IsBackend b written) where
  abbrev batch_of : Option (List (PendingWrite Message)) → List (PendingWrite Message)
  batch_of none = []
  batch_of (some ws) = ws

  -- Written, in flight and pending, in this order.
  abbrev pub all_writes : Batcher Message S → List (PendingWrite Message)
  all_writes s = written s.inner ++ (batch_of s.in_flight ++ s.pending)

  abbrev one : Text → Option Message → Result (ℕ × Batcher Message S) → List (PendingWrite Message)
  one stream message (err e) = []
  one stream message (ok (id, s')) =
      record { stream_id = stream; message = message; event_id = id } ∷ []

  -- The write that an action adds.
  abbrev pub accepted : Batcher Message S → Action Message → List (PendingWrite Message)
  accepted s (Action.write stream message) = one stream message (accept b s stream message)
  accepted s Action.start_flush = []
  accepted s Action.finish_flush = []
  accepted s Action.close = []

  write_items_failed :
      (inner : S) (w : PendingWrite Message) (ws : List (PendingWrite Message))
      → b.store_with_id inner w ≡ none
      → write_items b inner (w ∷ ws) ≡ (0, inner, false)
  unfolding write_items
  write_items_failed inner w ws e = rw (e, write_items)

  write_items_next :
      (inner : S) (w : PendingWrite Message) (ws : List (PendingWrite Message)) (inner' : S)
      → b.store_with_id inner w ≡ some inner'
      → write_items b inner (w ∷ ws) ≡ (
        suc (write_items b inner' ws).0,
        (write_items b inner' ws).1,
        (write_items b inner' ws).2,
      )
  unfolding write_items
  write_items_next inner w ws inner' e = rw (e, write_items)

  -- The loop has written the first `written` writes of the batch.
  written-write_items :
      (inner : S) (ws : List (PendingWrite Message))
      → written (write_items b inner ws).1 ++ drop (write_items b inner ws).0 ws
        ≡ written inner ++ ws
  written-write_items inner [] = unfold write_items in refl
  written-write_items inner (w ∷ ws) = elim (Option-cases (b.store_with_id inner w)) [
    | inl failed ↦ rw (write_items_failed inner w ws failed)
    | inr (inner', e) ↦ rw (
      write_items_next inner w ws inner' e,
      written-write_items inner' ws,
      law.written-store_with_id inner w inner' e,
      append_assoc,
    )
  ]

  drop-all : (ws : List (PendingWrite Message)) → drop (length ws) ws ≡ []
  drop-all [] = refl
  drop-all (w ∷ ws) = drop-all ws

  write_items-done :
      (inner : S) (ws : List (PendingWrite Message))
      → (write_items b inner ws).2 ≡ true
      → drop (write_items b inner ws).0 ws ≡ []
  write_items-done inner [] h = unfold write_items in refl
  write_items-done inner (w ∷ ws) h = elim (Option-cases (b.store_with_id inner w)) [
    | inl failed ↦ cc (h, ap (λ r. r.2) (write_items_failed inner w ws failed))
    | inr (inner', e) ↦
        let next = write_items_next inner w ws inner' e in
        rw next (write_items-done inner' ws (sym (ap (λ r. r.2) next) ∙ h))
  ]

  write_batch_items :
      (inner : S) (ws : List (PendingWrite Message))
      → b.store_batch ≡ none
      → write_batch b inner ws ≡ write_items b inner ws
  unfolding write_batch
  write_batch_items inner ws e = rw e

  write_batch_failed :
      (inner : S) (ws : List (PendingWrite Message))
      (store : S → List (PendingWrite Message) → Option S)
      → b.store_batch ≡ some store
      → store inner ws ≡ none
      → write_batch b inner ws ≡ (0, inner, false)
  unfolding write_batch
  write_batch_failed inner ws store e f = rw (e, f)

  write_batch_all :
      (inner : S) (ws : List (PendingWrite Message))
      (store : S → List (PendingWrite Message) → Option S) (inner' : S)
      → b.store_batch ≡ some store
      → store inner ws ≡ some inner'
      → write_batch b inner ws ≡ (length ws, inner', true)
  unfolding write_batch
  write_batch_all inner ws store inner' e f = rw (e, f)

  -- A batch leaves written what it had written before it failed, and the rest to be put back.
  record Outcome (inner : S) (ws : List (PendingWrite Message)) (r : ℕ × S × Bool) : Type 0 where
    split : written r.1 ++ drop r.0 ws ≡ written inner ++ ws
    all_done : r.2 ≡ true → drop r.0 ws ≡ []

  write_batch-Outcome :
      (inner : S) (ws : List (PendingWrite Message)) → Outcome inner ws (write_batch b inner ws)
  write_batch-Outcome inner ws = elim (Option-cases b.store_batch) [
    | inl single ↦
        rw (write_batch_items inner ws single)
          (record { split = written-write_items inner ws; all_done = write_items-done inner ws })
    | inr (store, e) ↦ elim (Option-cases (store inner ws)) [
      | inl failed ↦
          rw (write_batch_failed inner ws store e failed)
            (record { split = refl; all_done = λ h. cc })
      | inr (inner', f) ↦ rw (write_batch_all inner ws store inner' e f) (record {
        split = rw (drop-all ws, append-nil) (law.written-store_batch store inner ws inner' e f);
        all_done = λ h. drop-all ws;
      })
    ]
  ]

  settle-all_writes :
      (s : Batcher Message S) (ws : List (PendingWrite Message)) (r : ℕ × S × Bool)
      → Outcome s.inner ws r
      → all_writes (settle b s ws r) ≡ written s.inner ++ (ws ++ s.pending)
  settle-all_writes s ws (n, inner, true) o =
      ap (λ xs. xs ++ s.pending)
        (sym (append-nil (written inner))
          ∙ ap (λ ys. written inner ++ ys) (sym (o.all_done refl))
          ∙ o.split)
      ∙ append_assoc (written s.inner) ws s.pending
  settle-all_writes s ws (n, inner, false) o =
      sym (append_assoc (written inner) (drop n ws) s.pending)
      ∙ ap (λ xs. xs ++ s.pending) o.split
      ∙ append_assoc (written s.inner) ws s.pending

  begin_with-all_writes :
      (s : Batcher Message S) (ws : List (PendingWrite Message))
      → s.in_flight ≡ none
      → s.pending ≡ ws
      → all_writes (begin_with b s ws) ≡ all_writes s
  begin_with-all_writes s [] e p = refl
  begin_with-all_writes s (w ∷ ws) e p = rw (e, p, append-nil)

  begin_from-all_writes :
      (s : Batcher Message S) (o : Option (List (PendingWrite Message)))
      → s.in_flight ≡ o
      → all_writes (begin_from b s o) ≡ all_writes s
  begin_from-all_writes s none e = begin_with-all_writes s s.pending e refl
  begin_from-all_writes s (some ws) e = refl

  end_from-all_writes :
      (s : Batcher Message S) (o : Option (List (PendingWrite Message)))
      → s.in_flight ≡ o
      → all_writes (end_from b s o) ≡ all_writes s
  end_from-all_writes s none e = refl
  end_from-all_writes s (some ws) e =
      settle-all_writes s ws (write_batch b s.inner ws) (write_batch-Outcome s.inner ws)
      ∙ ap
          (λ (o : Option (List (PendingWrite Message))).
            written s.inner ++ (batch_of o ++ s.pending))
          (sym e)

  -- The id that a new write gets is the first of the block, filled up if it was empty.
  take_id-all_writes :
      (s : Batcher Message S) (stream : Text) (message : Option Message) (o : Option (List ℕ × S))
      → ((ids : List ℕ) (inner : S) → o ≡ some (ids, inner) → written inner ≡ written s.inner)
      → (id : ℕ) (s' : Batcher Message S) → take_id b s stream message o ≡ ok (id, s')
      → all_writes s'
        ≡ all_writes s ++ record { stream_id = stream; message = message; event_id = id } ∷ []
  take_id-all_writes s stream message none w id s' e = cc
  take_id-all_writes s stream message (some ([], inner)) w id s' e = cc
  take_id-all_writes s stream message (some (i ∷ ids, inner)) w id s' e =
      let new : PendingWrite Message = record {
        stream_id = stream;
        message = message;
        event_id = i;
      } in
      let t : Batcher Message S = record s {
        inner = inner;
        pending = s.pending ++ new ∷ [];
        id_block = ids;
        armed = true;
      } in
      let same : s' ≡ t = cc in
      let first : id ≡ i = cc in
      rw (same, first, w (i ∷ ids) inner refl)
        (ap (λ ys. written s.inner ++ ys)
            (sym (append_assoc (batch_of s.in_flight) s.pending (new ∷ [])))
          ∙ sym (append_assoc (written s.inner) (batch_of s.in_flight ++ s.pending) (new ∷ [])))

  refill-written :
      (s : Batcher Message S) (block : List ℕ) (ids : List ℕ) (inner : S)
      → refill b s block ≡ some (ids, inner)
      → written inner ≡ written s.inner
  refill-written s [] ids inner e = law.written-allocate s.inner s.flush_max_events ids inner e
  refill-written s (i ∷ block) ids inner e = ground (arith)

  result-all_writes :
      (s : Batcher Message S) (stream : Text) (message : Option Message)
      (r : Result (ℕ × Batcher Message S))
      → ((id : ℕ) (s' : Batcher Message S)
          → r ≡ ok (id, s')
          → all_writes s' ≡ all_writes s ++ one stream message (ok (id, s')))
      → all_writes (after_accept b s r) ≡ all_writes s ++ one stream message r
  result-all_writes s stream message (err e) h = sym (append-nil (all_writes s))
  result-all_writes s stream message (ok (id, s')) h = h id s' refl

  accept-all_writes :
      (s : Batcher Message S) (stream : Text) (message : Option Message) (id : ℕ)
      (s' : Batcher Message S)
      → accept b s stream message ≡ ok (id, s')
      → all_writes s' ≡ all_writes s ++ one stream message (ok (id, s'))
  unfolding accept
  accept-all_writes s stream message id s' e =
      take_id-all_writes s stream message (refill b s s.id_block) (refill-written s s.id_block) id
        s' (ground arith)

  -- An action, failing or not, adds the write that it accepted at the end, and changes nothing else.
  pub act-all_writes :
      (s : Batcher Message S) (a : Action Message)
      → all_writes (act b s a) ≡ all_writes s ++ accepted s a
  unfolding act
  act-all_writes s (Action.write stream message) =
      result-all_writes s stream message (accept b s stream message)
        (accept-all_writes s stream message)
  act-all_writes s Action.start_flush =
      begin_from-all_writes s s.in_flight refl ∙ sym (append-nil (all_writes s))
  act-all_writes s Action.finish_flush =
      end_from-all_writes s s.in_flight refl ∙ sym (append-nil (all_writes s))
  act-all_writes s Action.close = sym (append-nil (all_writes s))

  pub run_accepted : Batcher Message S → List (Action Message) → List (PendingWrite Message)
  run_accepted s [] = []
  run_accepted s (a ∷ actions) = accepted s a ++ run_accepted (act b s a) actions

  -- Along any interleaving of writes, closing and the parts of flushes, failing flushes included: what
  -- is written, in flight or pending, in this order, is what it was at the start and then the writes
  -- accepted since, in the order of acceptance. None is lost, repeated or overtaken. A call of the
  -- wrapped store that raises has written nothing, and one that returns has written what it was given.
  pub run-all_writes :
      (s : Batcher Message S) (actions : List (Action Message))
      → all_writes (run b s actions) ≡ all_writes s ++ run_accepted s actions
  unfolding run run_accepted
  run-all_writes s [] = sym (append-nil (all_writes s))
  run-all_writes s (a ∷ actions) =
      rw (run-all_writes (act b s a) actions, act-all_writes s a, append_assoc)
