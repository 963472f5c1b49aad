-- ===== src/StreamBuffer/Progress.antt =====
-- What holds of a consumer between any two turns.
use mcp_persist.Prelude.{
  ℕ, ◌≤◌, ◌<◌, max, ◌≡◌, refl, sym, ap, subst, ◌∙◌, arith, Bool, true, false, List, [], ◌∷◌, ◌++◌,
  Option, none, some, ltb, if◌then◌else◌, Every, Every-append, Every-mono, Bool-cases, inl, inr,
}
use mcp_persist.StreamBuffer.{
  Event, Phase, top, parked, reading, replayed, in_replay, in_window, returned, raised, Run,
  is_after, deliver, end_phase, pass_end, pass, has_id,
}
use mcp_persist.StreamBuffer.Order.{
  Rising, IsGot, IsCovered, IsBehind, Rising-append, next-IsCovered, deliver-all,
}

abbrev pub newest : List Event → ℕ
newest [] = 0
newest (e ∷ es) = max e.event_id (newest es)

abbrev pub pending_list : Option Event → List Event
pending_list none = []
pending_list (some e) = e ∷ []

abbrev pub IsKnown : List Event → Event → Type 0
IsKnown stored e = (e.event_id ≤ newest stored) × (has_id e.event_id stored ≡ true)

IsKnown-next : (e : Event) (es : List Event) (x : Event) → IsKnown es x → IsKnown (e ∷ es) x
IsKnown-next e es x k = (omega (arith, k.0), ground (arith, k.1))

pub all-IsKnown : (es : List Event) → Every (IsKnown es) es
all-IsKnown [] = tt
all-IsKnown (e ∷ es) = (
  (omega arith, ground arith),
  Every-mono (IsKnown es) (IsKnown (e ∷ es)) es (λ x. IsKnown-next e es x) (all-IsKnown es),
)

-- A list that a consumer delivers from.
abbrev pub IsSource : ℕ → List Event → List Event → Type 0
IsSource c stored es = Rising es × Every (IsCovered c es) stored × Every (IsKnown stored) es

abbrev pub IsReplay : ℕ → List Event → List Event → Type 0
IsReplay c stored es = IsSource c stored es × Every (λ x. c < x.event_id) es

abbrev pub Holds : ℕ → List Event → Phase → Type 0
Holds c stored top = Unit {0}
Holds c stored parked = Unit {0}
Holds c stored reading = Unit {0}
Holds c stored (replayed []) = Every (IsBehind c) stored
Holds c stored (replayed (e ∷ es)) = IsReplay c stored (e ∷ es)
Holds c stored (in_replay es) = IsReplay c stored es
Holds c stored (in_window es) = IsSource c stored es
Holds c stored returned = Every (IsBehind c) stored
Holds c stored raised = Unit {0}

-- A consumer that began behind `a` and stands at `c`.
pub record Sound (a c : ℕ) (r : Run) : Type 0 where
  pub cursor_at : r.cursor ≡ some c
  pub rising : Rising r.stored
  pub gone : List Event
  pub parts : r.stored ≡ gone ++ (r.window ++ pending_list r.pending)
  pub got : Every (IsGot a c r.delivered) r.stored
  pub order : Rising r.delivered
  pub seen : Every (λ d. (a < d.event_id) × (d.event_id ≤ c)) r.delivered
  pub from_start : a ≤ c
  pub bound : c ≤ max a (newest r.stored)
  pub own : has_id c r.stored ≡ true
  pub all_known : Every (IsKnown r.stored) r.stored
  pub idle : r.done ≡ true → r.pending ≡ none

abbrev pub Stands : ℕ → Run → Type 0
Stands a r = (c : ℕ) × Sound a c r × Holds c r.stored r.phase

pub deliver-Sound :
    (a c : ℕ) (x : Event) (es : List Event) (p : Phase) (r : Run)
    → Sound a c r
    → IsSource c r.stored (x ∷ es)
    → c < x.event_id
    → Sound a x.event_id (deliver x p r)
deliver-Sound a c x es p r s src up = record {
  cursor_at = refl;
  rising = s.rising;
  gone = s.gone;
  parts = s.parts;
  got = deliver-all a c r.delivered es x r.stored src.0.0 s.got src.1;
  order = Rising-append r.delivered x s.order (
      Every-mono (λ d. (a < d.event_id) × (d.event_id ≤ c)) (λ d. d.event_id < x.event_id)
        r.delivered (λ d k. omega (arith, k.1, up)) s.seen);
  seen =
      Every-append (λ d. (a < d.event_id) × (d.event_id ≤ x.event_id)) r.delivered (x ∷ [])
        (Every-mono (λ d. (a < d.event_id) × (d.event_id ≤ c))
          (λ d. (a < d.event_id) × (d.event_id ≤ x.event_id)) r.delivered
          (λ d k. (k.0, omega (arith, k.1, up))) s.seen)
        ((omega (arith, s.from_start, up), omega arith), tt);
  from_start = omega (arith, s.from_start, up);
  bound = omega (arith, src.2.0.0);
  own = src.2.0.1;
  all_known = s.all_known;
  idle = s.idle;
}

pub deliver-IsSource :
    (c : ℕ) (x : Event) (es stored : List Event)
    → c ≤ x.event_id
    → IsSource c stored (x ∷ es)
    → IsSource x.event_id stored es
deliver-IsSource c x es stored le src = (
  src.0.1,
  Every-mono (IsCovered c (x ∷ es)) (IsCovered x.event_id es) stored
      (λ e. next-IsCovered c x.event_id es x e le (omega arith)) src.1,
  src.2.1,
)

skip-IsSource :
    (c : ℕ) (x : Event) (es stored : List Event)
    → x.event_id ≤ c
    → IsSource c stored (x ∷ es)
    → IsSource c stored es
skip-IsSource c x es stored le src = (
  src.0.1,
  Every-mono (IsCovered c (x ∷ es)) (IsCovered c es) stored
      (λ e. next-IsCovered c c es x e (omega arith) le) src.1,
  src.2.1,
)

pub phase-Sound : (a c : ℕ) (p : Phase) (r : Run) → Sound a c r → Sound a c (record r { phase = p })
phase-Sound a c p r s = record {
  cursor_at = s.cursor_at;
  rising = s.rising;
  gone = s.gone;
  parts = s.parts;
  got = s.got;
  order = s.order;
  seen = s.seen;
  from_start = s.from_start;
  bound = s.bound;
  own = s.own;
  all_known = s.all_known;
  idle = s.idle;
}

end_phase-Holds :
    (c : ℕ) (stored : List Event) (done failed : Bool)
    → (done ≡ true → Every (IsBehind c) stored)
    → Holds c stored (end_phase done failed)
end_phase-Holds c stored true true h = tt
end_phase-Holds c stored true false h = h refl
end_phase-Holds c stored false failed h = tt

pass_end-Stands :
    (a c : ℕ) (progressed : Bool) (r : Run)
    → Sound a c r
    → (progressed ≡ false → r.done ≡ true → Every (IsBehind c) r.stored)
    → Stands a (pass_end progressed r)
pass_end-Stands a c true r s h = (c, phase-Sound a c top r s, tt)
pass_end-Stands a c false r s h = (
  c,
  phase-Sound a c (end_phase r.done r.failed) r s,
  end_phase-Holds c r.stored r.done r.failed (h refl),
)

-- A pass over a source.
pub pass-Stands :
    (a c : ℕ) (progressed : Bool) (es : List Event) (r : Run)
    → Sound a c r
    → IsSource c r.stored es
    → (Every (λ x. x.event_id ≤ c) es
        → progressed ≡ false
        → r.done ≡ true
        → Every (IsBehind c) r.stored)
    → Stands a (pass progressed es r)
unfolding pass
pass-Stands a c progressed [] r s src h = pass_end-Stands a c progressed r s (h tt)
pass-Stands a c progressed (x ∷ es) r s src h = elim (Bool-cases (ltb c x.event_id)) [
  | inl after ↦
      subst (λ b. Stands a (if b then deliver x (in_window es) r else pass progressed es r))
        (sym (ap (λ o. is_after o x) s.cursor_at ∙ after))
        (
          x.event_id,
          deliver-Sound a c x es (in_window es) r s src (ground (arith, after)),
          deliver-IsSource c x es r.stored (ground (arith, after)) src,
        )
  | inr before ↦
      subst (λ b. Stands a (if b then deliver x (in_window es) r else pass progressed es r))
        (sym (ap (λ o. is_after o x) s.cursor_at ∙ before))
        (pass-Stands a c progressed es r s
          (skip-IsSource c x es r.stored (ground (arith, before)) src)
          (λ k. h (ground (arith, before), k)))
]
