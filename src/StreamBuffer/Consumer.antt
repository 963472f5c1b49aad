-- ===== src/StreamBuffer/Consumer.antt =====
-- The consumer's turns.
use mcp_persist.Prelude.{
  ℕ, ◌<◌, ◌≡◌, sym, ap, subst, ◌∙◌, arith, true, false, List, [], ◌∷◌, ◌++◌, some, Text,
  if◌then◌else◌, Every, Every-mono, Bool-cases, inl, inr,
}
use mcp_persist.StreamBuffer.{
  Event, Phase, top, parked, reading, replayed, in_replay, in_window, returned, raised, Run,
  cold_needed, is_empty, deliver, pass, replay_after, replay, consume_at,
}
use mcp_persist.StreamBuffer.Order.{Rising, IsCovered, IsBehind}
use mcp_persist.StreamBuffer.Progress.{
  pending_list, IsKnown, IsSource, IsReplay, Holds, Sound, Stands, deliver-Sound, deliver-IsSource,
  phase-Sound, pass-Stands,
}
use mcp_persist.StreamBuffer.Sources.{
  Every-right, Every-left, Rising-right, Rising-left, window-IsCovered, window-IsBehind, IsFound,
  replay_after-Every, replay_after-Rising, replay_after-above, replay_after_complete,
}

module _ (rewrite : Text → Text) where
  replayed-Holds :
      (c : ℕ) (stored es : List Event)
      → Every (IsFound c es) stored
      → Rising es
      → Every (IsKnown stored) es
      → Every (λ x. c < x.event_id) es
      → Holds c stored (replayed es)
  replayed-Holds c stored [] h r k a =
      Every-mono (IsFound c []) (IsBehind c) stored
        (λ e f lo. elim (Bool-cases (is_empty e.payload)) [
          | inl empty ↦ empty
          | inr full ↦ absurd (ground (arith, f lo full))
        ])
        h
  replayed-Holds c stored (x ∷ es) h r k a = (
    (
      r,
      Every-mono (IsFound c (x ∷ es)) (IsCovered c (x ∷ es)) stored (λ e f lo full far. f lo full)
          h,
      k,
    ),
    a,
  )

  replay-Stands :
      (a c : ℕ) (r : Run)
      → Sound a c r
      → Stands a (record r { phase = replayed (replay rewrite r.cursor r.stored) })
  replay-Stands a c r s =
      subst (λ o. Stands a (record r { phase = replayed (replay rewrite o r.stored) }))
        (sym s.cursor_at)
        (subst
          (λ b.
            Stands a
              (record r { phase = replayed (if b then replay_after rewrite c r.stored else []) }))
          (sym s.own)
          (
            c,
            phase-Sound a c (replayed (replay_after rewrite c r.stored)) r s,
            replayed-Holds c r.stored (replay_after rewrite c r.stored)
                (replay_after_complete rewrite c r.stored)
                (replay_after-Rising rewrite c r.stored s.rising)
                (replay_after-Every rewrite (IsKnown r.stored) c r.stored (λ x k. k) s.all_known)
                (replay_after-above rewrite c r.stored),
          ))

  -- The window is a source, unless the cursor is before it.
  window-IsSource :
      (a c : ℕ) (r : Run)
      → Sound a c r
      → Every (IsCovered c r.window) r.stored
      → IsSource c r.stored r.window
  window-IsSource a c r s covered =
      let tail = r.window ++ pending_list r.pending in
      (
        Rising-left r.window (pending_list r.pending)
            (Rising-right s.gone tail (subst Rising s.parts s.rising)),
        covered,
        Every-left (IsKnown r.stored) r.window (pending_list r.pending) (
            Every-right (IsKnown r.stored) s.gone tail
              (subst (Every (IsKnown r.stored)) s.parts s.all_known)),
      )

  warm-Stands :
      (a c : ℕ) (r : Run)
      → Sound a c r
      → cold_needed r.cursor r.window ≡ false
      → Stands a (pass false r.window r)
  warm-Stands a c r s warm =
      let warm' : cold_needed (some c) r.window ≡ false =
        ap (λ o. cold_needed o r.window) (sym s.cursor_at) ∙ warm in
      let all = subst Rising s.parts s.rising in
      pass-Stands a c false r.window r s
        (window-IsSource a c r s (
          subst (Every (IsCovered c r.window)) (sym s.parts)
            (window-IsCovered c s.gone r.window r.pending all warm')))
        (λ none_after p done.
          subst (Every (IsBehind c)) (sym s.parts)
            (window-IsBehind c s.gone r.window r.pending all warm' (s.idle done) none_after))

  replay_delivered-Stands :
      (a c : ℕ) (x : Event) (es : List Event) (r : Run)
      → Sound a c r
      → IsReplay c r.stored (x ∷ es)
      → Stands a (deliver x (in_replay es) r)
  replay_delivered-Stands a c x es r s src = (
    x.event_id,
    deliver-Sound a c x es (in_replay es) r s src.0 src.1.0,
    (deliver-IsSource c x es r.stored (omega (arith, src.1.0)) src.0, src.0.0.0),
  )

  -- Each turn of the consumer.
  pub consume_at-Stands :
      (a c : ℕ) (p : Phase) (r : Run)
      → r.phase ≡ p
      → Sound a c r
      → Holds c r.stored p
      → Stands a (consume_at rewrite p r)
  consume_at-Stands a c top r e s h = elim (Bool-cases (cold_needed r.cursor r.window)) [
    | inl cold ↦ rw cold (c, phase-Sound a c reading r s, tt)
    | inr warm ↦ rw warm (warm-Stands a c r s warm)
  ]
  consume_at-Stands a c parked r e s h = (c, s, subst (Holds c r.stored) (sym e) h)
  consume_at-Stands a c reading r e s h = replay-Stands a c r s
  consume_at-Stands a c (replayed []) r e s h =
      pass-Stands a c false r.window r s
        (window-IsSource a c r s (
          Every-mono (IsBehind c) (IsCovered c r.window) r.stored
            (λ x b lo full far. absurd (ground (arith, b lo, full))) h))
        (λ none_after p done. h)
  consume_at-Stands a c (replayed (x ∷ es)) r e s h = replay_delivered-Stands a c x es r s h
  consume_at-Stands a c (in_replay []) r e s h = (c, phase-Sound a c top r s, tt)
  consume_at-Stands a c (in_replay (x ∷ es)) r e s h = replay_delivered-Stands a c x es r s h
  consume_at-Stands a c (in_window es) r e s h =
      pass-Stands a c true es r s h (λ none_after p. absurd (ground (arith, p)))
  consume_at-Stands a c returned r e s h = (c, s, subst (Holds c r.stored) (sym e) h)
  consume_at-Stands a c raised r e s h = (c, s, subst (Holds c r.stored) (sym e) h)
