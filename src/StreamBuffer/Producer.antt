-- ===== src/StreamBuffer/Producer.antt =====
-- The producer's turns.
use mcp_persist.Prelude.{
  ℕ, ◌-◌, ◌<◌, max, ◌≡◌, refl, sym, ap, ◌∙◌, arith, Bool, true, false, List, [], ◌∷◌, ◌++◌, none,
  some, Text, if◌then◌else◌, drop, take, take-drop, length, append-nil, append_assoc, Every-append,
  Every-mono,
}
use mcp_persist.StreamBuffer.{
  Event, Phase, top, parked, reading, replayed, in_replay, in_window, returned, raised, Run,
  append_bounded, notify, is_after, cold_needed, deliver, end_phase, pass, consume_at,
}
use mcp_persist.StreamBuffer.Order.{IsGot, IsCovered, Rising-append, has_id-append, has_id-last}
use mcp_persist.StreamBuffer.Progress.{newest, pending_list, IsKnown, IsSource, Holds, Sound}
use mcp_persist.StreamBuffer.Sources.{reaches-below}

-- The consumer has returned only if the producer has ended.
abbrev pub is_returned : Phase → Bool
is_returned top = false
is_returned parked = false
is_returned reading = false
is_returned (replayed es) = false
is_returned (in_replay es) = false
is_returned (in_window es) = false
is_returned returned = true
is_returned raised = false

abbrev pub Ends : Run → Type 0
Ends r = is_returned r.phase ≡ true → r.done ≡ true

end_phase-Ends : (done failed : Bool) → is_returned (end_phase done failed) ≡ true → done ≡ true
end_phase-Ends true failed h = refl
end_phase-Ends false failed h = h

pass-Ends : (progressed : Bool) (es : List Event) (r : Run) → Ends (pass progressed es r)
unfolding pass
pass-Ends true [] r = λ h. absurd (ground (arith, h))
pass-Ends false [] r = end_phase-Ends r.done r.failed
pass-Ends progressed (e ∷ es) r =
    elim (is_after r.cursor e)
      as (λ b. Ends (if b then deliver e (in_window es) r else pass progressed es r)) [
        | true ↦ λ h. absurd (ground (arith, h))
        | false ↦ pass-Ends progressed es r
      ]

newest-append : (es : List Event) (e : Event) → newest (es ++ e ∷ []) ≡ max (newest es) e.event_id
newest-append [] e = omega arith
newest-append (x ∷ es) e = omega (arith, newest-append es e)

-- Nothing is stored between a replay that yields nothing and the consumer's look at the window.
abbrev pub is_idle : Phase → Bool
is_idle top = true
is_idle parked = true
is_idle reading = true
is_idle (replayed []) = false
is_idle (replayed (e ∷ es)) = true
is_idle (in_replay es) = true
is_idle (in_window es) = true
is_idle returned = true
is_idle raised = true

module _ (rewrite : Text → Text) where
  pub consume_at-Ends :
      (p : Phase) (r : Run)
      → (is_returned p ≡ true → r.done ≡ true)
      → r.phase ≡ p
      → Ends (consume_at rewrite p r)
  consume_at-Ends top r h e =
      elim (cold_needed r.cursor r.window)
        as (λ b. Ends (if b then record r { phase = reading } else pass false r.window r)) [
          | true ↦ λ k. absurd (ground (arith, k))
          | false ↦ pass-Ends false r.window r
        ]
  consume_at-Ends parked r h e = λ k. h (ap is_returned (sym e) ∙ k)
  consume_at-Ends reading r h e = λ k. absurd (ground (arith, k))
  consume_at-Ends (replayed []) r h e = pass-Ends false r.window r
  consume_at-Ends (replayed (x ∷ es)) r h e = λ k. absurd (ground (arith, k))
  consume_at-Ends (in_replay []) r h e = λ k. absurd (ground (arith, k))
  consume_at-Ends (in_replay (x ∷ es)) r h e = λ k. absurd (ground (arith, k))
  consume_at-Ends (in_window es) r h e = pass-Ends true es r
  consume_at-Ends returned r h e = λ k. h refl
  consume_at-Ends raised r h e = λ k. absurd (ground (arith, ap is_returned (sym e) ∙ k))

  IsKnown-append :
      (stored : List Event) (e x : Event) → IsKnown stored x → IsKnown (stored ++ e ∷ []) x
  IsKnown-append stored e x k =
      (omega (arith, k.0, newest-append stored e), has_id-append x.event_id stored (e ∷ []) k.1)

  -- A new id is above all that a consumer is about to deliver.
  store-IsSource :
      (c : ℕ) (stored es : List Event) (e : Event)
      → newest stored < e.event_id
      → IsSource c stored es
      → IsSource c (stored ++ e ∷ []) es
  store-IsSource c stored es e up src = (
    src.0,
    Every-append (IsCovered c es) stored (e ∷ []) src.1 (
      (λ lo full far. absurd (
          ground (
            arith,
            far,
            reaches-below e.event_id es (
                Every-mono (IsKnown stored) (λ x. x.event_id < e.event_id) es
                  (λ x k. omega (arith, k.0, up)) src.2),
          ))),
      tt,
    ),
    Every-mono (IsKnown stored) (IsKnown (stored ++ e ∷ [])) es (λ x k. IsKnown-append stored e x k)
        src.2,
  )

  pub store-Holds :
      (c : ℕ) (stored : List Event) (e : Event) (p : Phase)
      → newest stored < e.event_id
      → is_idle p ≡ true
      → is_returned p ≡ false
      → Holds c stored p
      → Holds c (stored ++ e ∷ []) p
  store-Holds c stored e top up i n h = tt
  store-Holds c stored e parked up i n h = tt
  store-Holds c stored e reading up i n h = tt
  store-Holds c stored e (replayed []) up i n h = absurd (ground (arith, i))
  store-Holds c stored e (replayed (x ∷ es)) up i n h =
      (store-IsSource c stored (x ∷ es) e up h.0, h.1)
  store-Holds c stored e (in_replay es) up i n h = (store-IsSource c stored es e up h.0, h.1)
  store-Holds c stored e (in_window es) up i n h = store-IsSource c stored es e up h
  store-Holds c stored e returned up i n h = absurd (ground (arith, n))
  store-Holds c stored e raised up i n h = tt

  pub notify-Holds :
      (c : ℕ) (stored : List Event) (p : Phase) → Holds c stored p → Holds c stored (notify p)
  notify-Holds c stored top h = h
  notify-Holds c stored parked h = h
  notify-Holds c stored reading h = h
  notify-Holds c stored (replayed es) h = h
  notify-Holds c stored (in_replay es) h = h
  notify-Holds c stored (in_window es) h = h
  notify-Holds c stored returned h = h
  notify-Holds c stored raised h = h

  pub notify-returned : (p : Phase) → is_returned (notify p) ≡ is_returned p
  notify-returned top = refl
  notify-returned parked = refl
  notify-returned reading = refl
  notify-returned (replayed es) = refl
  notify-returned (in_replay es) = refl
  notify-returned (in_window es) = refl
  notify-returned returned = refl
  notify-returned raised = refl

  pub store-Sound :
      (a c : ℕ) (e : Event) (r : Run)
      → Sound a c r
      → r.pending ≡ none
      → r.done ≡ false
      → newest r.stored < e.event_id
      → Sound a c (record r { stored = r.stored ++ e ∷ []; pending = some e })
  store-Sound a c e r s free going up = record {
    cursor_at = s.cursor_at;
    rising = Rising-append r.stored e s.rising (
        Every-mono (IsKnown r.stored) (λ x. x.event_id < e.event_id) r.stored
          (λ x k. omega (arith, k.0, up)) s.all_known);
    gone = s.gone;
    parts =
        ap (λ xs. xs ++ e ∷ []) (s.parts ∙ ap (λ p. s.gone ++ (r.window ++ pending_list p)) free)
        ∙ ap (λ xs. s.gone ++ xs ++ e ∷ []) (append-nil r.window)
        ∙ append_assoc s.gone r.window (e ∷ []);
    got =
        Every-append (IsGot a c r.delivered) r.stored (e ∷ []) s.got
          ((λ lo hi full. absurd (omega (arith, lo, hi, s.bound, up))), tt);
    order = s.order;
    seen = s.seen;
    from_start = s.from_start;
    bound = omega (arith, s.bound, newest-append r.stored e);
    own = has_id-append c r.stored (e ∷ []) s.own;
    all_known =
        Every-append (IsKnown (r.stored ++ e ∷ [])) r.stored (e ∷ [])
          (Every-mono (IsKnown r.stored) (IsKnown (r.stored ++ e ∷ [])) r.stored
            (λ x k. IsKnown-append r.stored e x k) s.all_known)
          ((omega (arith, newest-append r.stored e), has_id-last e r.stored), tt);
    idle = λ done. absurd (ground (arith, done, going));
  }

  pub append-Sound :
      (a c maxlen : ℕ) (e : Event) (r : Run)
      → Sound a c r
      → r.pending ≡ some e
      → Sound a c (record r {
        pending = none;
        window = append_bounded maxlen r.window e;
        phase = notify r.phase;
      })
  append-Sound a c maxlen e r s waiting =
      let all = r.window ++ e ∷ [] in
      let k = length all - maxlen in
      record {
        cursor_at = s.cursor_at;
        rising = s.rising;
        gone = s.gone ++ take k all;
        parts =
            s.parts
            ∙ ap (λ p. s.gone ++ (r.window ++ pending_list p)) waiting
            ∙ ap (λ xs. s.gone ++ xs) (sym (take-drop k all))
            ∙ sym (append_assoc s.gone (take k all) (drop k all))
            ∙ ap (λ xs. s.gone ++ take k all ++ xs) (sym (append-nil (drop k all)));
        got = s.got;
        order = s.order;
        seen = s.seen;
        from_start = s.from_start;
        bound = s.bound;
        own = s.own;
        all_known = s.all_known;
        idle = λ done. refl;
      }

  pub end-Sound :
      (a c : ℕ) (failed : Bool) (r : Run)
      → Sound a c r
      → r.pending ≡ none
      → Sound a c (record r { done = true; failed = failed; phase = notify r.phase })
  end-Sound a c failed r s free = record {
    cursor_at = s.cursor_at;
    rising = s.rising;
    gone = s.gone;
    parts = s.parts;
    got = s.got;
    order = s.order;
    seen = s.seen;
    from_start = s.from_start;
    bound = s.bound;
    own = s.own;
    all_known = s.all_known;
    idle = λ done. free;
  }
