-- ===== src/StreamBuffer/Complete.antt =====
-- Any order of turns, and what the consumer has when it returns.
use mcp_persist.Prelude.{
  ℕ, ◌≤◌, ◌<◌, ◌≡◌, refl, sym, subst, ◌∙◌, arith, true, false, not, ◌&&◌, List, [], ◌∷◌, ◌++◌,
  Option, none, some, Text, leb, if◌then◌else◌, append-nil, Every, Every-mono, Bool-cases, inl, inr,
}
use mcp_persist.StreamBuffer.{
  Event, Phase, returned, Run, has_id, notify, is_empty, appended, is_none, Turn, store_turn,
  append_turn, end_turn, consume_turn, turn, run, fresh,
}
use mcp_persist.StreamBuffer.Order.{Rising, IsGot, IsBehind, Every-both}
use mcp_persist.StreamBuffer.Progress.{newest, IsKnown, all-IsKnown, Holds, Sound, Stands}
use mcp_persist.StreamBuffer.Consumer.{consume_at-Stands}
use mcp_persist.StreamBuffer.Producer.{
  is_returned, Ends, consume_at-Ends, is_idle, store-Holds, notify-Holds, notify-returned,
  store-Sound, append-Sound, end-Sound,
}

module _ (rewrite : Text → Text) where
  -- What the store promises of a new event, and when it comes.
  abbrev pub IsTurn : Turn → Run → Type 0
  IsTurn (store_turn e) r = (newest r.stored < e.event_id) × (is_idle r.phase ≡ true)
  IsTurn append_turn r = Unit {0}
  IsTurn (end_turn failed) r = Unit {0}
  IsTurn consume_turn r = Unit {0}

  is_none-none : (o : Option Event) → is_none o ≡ true → o ≡ none
  is_none-none none h = refl
  is_none-none (some e) h = ground (arith, h)

  appended-Stands :
      (a maxlen : ℕ) (o : Option Event) (r : Run)
      → r.pending ≡ o
      → Stands a r × Ends r
      → Stands a (appended maxlen o r) × Ends (appended maxlen o r)
  appended-Stands a maxlen none r e h = h
  appended-Stands a maxlen (some x) r e ((c, s, h), ends) = (
    (c, (append-Sound rewrite) a c maxlen x r s e, (notify-Holds rewrite) c r.stored r.phase h),
    λ k. ends (sym (notify-returned rewrite r.phase) ∙ k),
  )

  abbrev Goes : ℕ → Run → Type 0
  Goes a r = Stands a r × Ends r

  -- A turn of the producer that waits for the event before, and does nothing once it has ended.
  producer-Goes :
      (a : ℕ) (x r : Run)
      → Goes a r
      → (r.pending ≡ none → r.done ≡ false → Goes a x)
      → Goes a (if is_none r.pending && not r.done then x else r)
  producer-Goes a x r h f = elim (Bool-cases (is_none r.pending && not r.done)) [
    | inl free ↦
        subst (λ b. Goes a (if b then x else r)) (sym free)
          (f (is_none-none r.pending (ground (arith, free))) (ground (arith, free)))
    | inr busy ↦ subst (λ b. Goes a (if b then x else r)) (sym busy) h
  ]

  turn-Stands :
      (a maxlen : ℕ) (t : Turn) (r : Run)
      → IsTurn t r
      → Stands a r × Ends r
      → Stands a (turn maxlen rewrite t r) × Ends (turn maxlen rewrite t r)
  unfolding turn
  turn-Stands a maxlen (store_turn e) r v ((c, s, h), ends) =
      producer-Goes a (record r { stored = r.stored ++ e ∷ []; pending = some e }) r
        ((c, s, h), ends)
        (λ free going.
          let running : is_returned r.phase ≡ false = elim (Bool-cases (is_returned r.phase)) [
            | inl over ↦ absurd (ground (arith, ends over, going))
            | inr on ↦ on
          ] in
          (
            (
              c,
              (store-Sound rewrite) a c e r s free going v.0,
              (store-Holds rewrite) c r.stored e r.phase v.0 v.1 running h,
            ),
            ends,
          ))
  turn-Stands a maxlen append_turn r v h = appended-Stands a maxlen r.pending r refl h
  turn-Stands a maxlen (end_turn failed) r v ((c, s, h), ends) =
      producer-Goes a (record r { done = true; failed = failed; phase = notify r.phase }) r
        ((c, s, h), ends)
        (λ free going. (
          (c, (end-Sound rewrite) a c failed r s free, (notify-Holds rewrite) c r.stored r.phase h),
          λ k. refl,
        ))
  turn-Stands a maxlen consume_turn r v ((c, s, h), ends) = (
    consume_at-Stands rewrite a c r.phase r refl s h,
    (consume_at-Ends rewrite) r.phase r ends refl,
  )

  abbrev pub AreTurns : ℕ → List Turn → Run → Type 0
  AreTurns maxlen [] r = Unit {0}
  AreTurns maxlen (t ∷ ts) r = IsTurn t r × AreTurns maxlen ts (turn maxlen rewrite t r)

  run-Goes :
      (a maxlen : ℕ) (ts : List Turn) (r : Run)
      → AreTurns maxlen ts r
      → Goes a r
      → Goes a (run maxlen rewrite ts r)
  unfolding run
  run-Goes a maxlen [] r v h = h
  run-Goes a maxlen (t ∷ ts) r v h =
      run-Goes a maxlen ts (turn maxlen rewrite t r) v.1 (turn-Stands a maxlen t r v.0 h)

  fresh-Goes :
      (a : ℕ) (old : List Event) → Rising old → has_id a old ≡ true → Goes a (fresh old (some a))
  fresh-Goes a old rising own = (
    (
      a,
      record {
        cursor_at = refl;
        rising = rising;
        gone = old;
        parts = sym (append-nil old);
        got =
            Every-mono (IsKnown old) (IsGot a a []) old
              (λ x k lo hi full. absurd (omega (arith, lo, hi))) (all-IsKnown old);
        order = tt;
        seen = tt;
        from_start = omega arith;
        bound = omega arith;
        own = own;
        all_known = all-IsKnown old;
        idle = λ done. refl;
      },
      tt,
    ),
    λ k. absurd (ground (arith, k)),
  )

  -- A message behind `a` was delivered.
  abbrev pub IsDelivered : ℕ → List Event → Event → Type 0
  IsDelivered a ds e = a < e.event_id → is_empty e.payload ≡ false → has_id e.event_id ds ≡ true

  returned-IsDelivered :
      (a c : ℕ) (r : Run) (p : Phase)
      → r.phase ≡ p
      → Sound a c r
      → Holds c r.stored p
      → p ≡ returned
      → Every (IsDelivered a r.delivered) r.stored
  returned-IsDelivered a c r p e s h over =
      Every-both (IsGot a c r.delivered) (IsBehind c) (IsDelivered a r.delivered) r.stored
        (λ x got behind lo full. elim (Bool-cases (leb x.event_id c)) [
          | inl near ↦ got lo (ground (arith, near)) full
          | inr far ↦ absurd (ground (arith, behind (ground (arith, far)), full))
        ])
        s.got (subst (Holds c r.stored) over h)

  -- A consumer reads each message after its cursor once, in order: in any order of the producer's and
  -- the consumer's turns the ids of what is delivered rise and lie above `a`, and when the consumer
  -- returns, each message of the stream with an id above `a` has been delivered, from the store or from
  -- the window, whatever the window evicts. The store has the stream's events `old` in order, `a` the id
  -- of one of them, and gives each new one a higher id, and no event is stored between a replay that yields nothing and the look at the window that follows it.
  pub run-delivered :
      (a maxlen : ℕ) (old : List Event) (ts : List Turn)
      → Rising old
      → has_id a old ≡ true
      → AreTurns maxlen ts (fresh old (some a))
      → (let r = run maxlen rewrite ts (fresh old (some a)) in
          Rising r.delivered
          × Every (λ d. a < d.event_id) r.delivered
          × (r.phase ≡ returned → Every (IsDelivered a r.delivered) r.stored))
  run-delivered a maxlen old ts rising own v =
      let r = run maxlen rewrite ts (fresh old (some a)) in
      let ((c, s, h), ends) =
        run-Goes a maxlen ts (fresh old (some a)) v (fresh-Goes a old rising own) in
      (
        s.order,
        Every-mono (λ d. (a < d.event_id) × (d.event_id ≤ c)) (λ d. a < d.event_id) r.delivered
            (λ d k. k.0) s.seen,
        λ over. returned-IsDelivered a c r r.phase refl s h over,
      )
