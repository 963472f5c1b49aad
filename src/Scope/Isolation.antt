-- ===== src/Scope/Isolation.antt =====
-- No session is sent another session's events.
use mcp_persist.Prelude.{
  ◌≡◌, ◌≢◌, refl, ap, ap₂, sym, ◌∙◌, Bool, true, false, List, [], ◌∷◌, ◌++◌, append_assoc, Option,
  none, some, arith, Text, after_prefix, after_prefix_append, after_prefix-eq-some, ◌==◌, Every,
  inl, inr, Option-cases,
}
use mathlib.Core.Bool.{false≢true}
use mcp_persist.Scope.{
  EventStore, owning_from, separator, prefix_of, owns, unprefixed, collected, yielded, replay_owned,
  store_replay_from, replay_events_after, store_replay,
}

-- What the lookup answers is the stream that a replay of the same event returns.
pub record IsConsistent {Message S : Type 0} (e : EventStore Message S) : Type 0 where
  pub agree :
      (lookup : S → Text → Option Text) (s : S) (event_id : Text)
      → e.lookup ≡ some lookup
      → lookup s event_id ≡ (e.replay s event_id).0

-- What a session may see of a replay: all of it if the stream carries its prefix, named without the
-- prefix, and nothing otherwise.
abbrev pub named :
    {Message : Type 0} → Option Text → List (Text × Message) → Option Text × List (Text × Message)
named none events = (none, [])
named (some rest) events = (some rest, events)

abbrev pub gate :
    {Message : Type 0}
    → Text
    → Option Text × List (Text × Message)
    → Option Text × List (Text × Message)
gate session (stream, events) = named (unprefixed session stream) events

module _ {Message S : Type 0} (e : EventStore Message S) where
  collected-gate :
      (session : Text) (r : Option Text × List (Text × Message))
      → collected e session r ≡ gate session r
  collected-gate session (none, events) = refl
  collected-gate session (some stream, events) = ground arith

  replay_owned-gate :
      (session : Text) (s : S) (event_id : Text) (known : Option (Option Text))
      → ((o : Option Text) → known ≡ some o → o ≡ (e.replay s event_id).0)
      → replay_owned e session s event_id known ≡ gate session (e.replay s event_id)
  replay_owned-gate session s event_id none h = collected-gate session (e.replay s event_id)
  replay_owned-gate session s event_id (some none) h = rw (← h none refl)
  replay_owned-gate session s event_id (some (some owner)) h =
      rw (← h (some owner) refl) (ground arith)

  owning_from-replay :
      IsConsistent e
      → (s : S) (event_id : Text) (l : Option (S → Text → Option Text)) → e.lookup ≡ l
      → (o : Option Text) → owning_from l s event_id ≡ some o
      → o ≡ (e.replay s event_id).0
  owning_from-replay c s event_id none found o h = cc
  owning_from-replay c s event_id (some f) found o h =
      let same : o ≡ f s event_id = cc in same ∙ c.agree f s event_id found

  -- The view's replay is the gate on the shared store's replay, on both paths: with a lookup that names
  -- the stream up front, which answers the stream that a replay returns, and without one.
  pub replay_events_after-gate :
      IsConsistent e
      → (session : Text) (s : S) (event_id : Text)
      → replay_events_after e session s event_id ≡ gate session (e.replay s event_id)
  unfolding replay_events_after
  replay_events_after-gate c session s event_id =
      replay_owned-gate session s event_id (owning_from e.lookup s event_id)
        (owning_from-replay c s event_id e.lookup refl)

  yielded-gate :
      (session : Text) (r : Option Text × List (Text × Message))
      → yielded e session r ≡ (gate session r).1
  yielded-gate session (none, events) = refl
  yielded-gate session (some stream, events) = ground arith

  store_replay_from-gate :
      (session : Text) (s : S) (event_id : Text) (known : Option (Option Text))
      → ((o : Option Text) → known ≡ some o → o ≡ (e.replay s event_id).0)
      → store_replay_from e session s event_id known ≡ (gate session (e.replay s event_id)).1
  store_replay_from-gate session s event_id none h = yielded-gate session (e.replay s event_id)
  store_replay_from-gate session s event_id (some none) h = rw (← h none refl)
  store_replay_from-gate session s event_id (some (some known)) h =
      rw (← h (some known) refl) (ground arith)

  -- The proxy's gate yields the same events as a session's view. A lookup, if the store has one, answers
  -- the stream that a replay returns.
  pub store_replay-gate :
      IsConsistent e
      → (session : Text) (s : S) (event_id : Text)
      → store_replay e session s event_id ≡ (replay_events_after e session s event_id).1
  unfolding store_replay
  store_replay-gate c session s event_id =
      store_replay_from-gate session s event_id (owning_from e.lookup s event_id)
        (owning_from-replay c s event_id e.lookup refl)
      ∙ sym (ap (λ r. r.1) (replay_events_after-gate c session s event_id))

-- A session id without the separator.
abbrev pub NoColon : Text → Type 0
NoColon = Every (λ c. (c == b':') ≡ false)

prefix-injective : (a b s t : Text) → NoColon a → NoColon b → a ++ b':' ∷ s ≡ b ++ b':' ∷ t → a ≡ b
prefix-injective [] [] s t h k e = refl
prefix-injective [] (d ∷ b) s t h k e = ground (arith, k.0)
prefix-injective (c ∷ a) [] s t h k e = ground (arith, h.0)
prefix-injective (c ∷ a) (d ∷ b) s t h k e =
    let first : c ≡ d = cc in
    let rest : a ++ b':' ∷ s ≡ b ++ b':' ∷ t = cc in
    ap₂ ◌∷◌ first (prefix-injective a b s t h.1 k.1 rest)

abbrev owned : Option Text → Bool
owned none = false
owned (some t) = true

owns-eq :
    (session stream : Text)
    → owns session stream ≡ true
    → (rest : Text) × (stream ≡ prefix_of session ++ rest)
owns-eq session stream h = elim (Option-cases (after_prefix (prefix_of session) stream)) [
  | inl foreign ↦ absurd (false≢true (sym (ap owned foreign) ∙ h))
  | inr (rest, e) ↦ (rest, after_prefix-eq-some (prefix_of session) stream rest e)
]

-- No stream belongs to two sessions whose ids do not contain the separator.
pub owns-injective :
    (a b stream : Text)
    → NoColon a
    → NoColon b
    → owns a stream ≡ true
    → owns b stream ≡ true
    → a ≡ b
owns-injective a b stream h k own_a own_b =
    let (s, e) = owns-eq a stream own_a in
    let (t, f) = owns-eq b stream own_b in
    prefix-injective a b s t h k
      (sym (append_assoc a separator s) ∙ sym e ∙ f ∙ append_assoc b separator t)

foreign_prefix :
    (a b stream : Text)
    → NoColon a
    → NoColon b
    → a ≢ b
    → after_prefix (prefix_of b) (prefix_of a ++ stream) ≡ none
foreign_prefix a b stream h k apart =
    elim (Option-cases (after_prefix (prefix_of b) (prefix_of a ++ stream))) [
      | inl none_found ↦ none_found
      | inr (rest, e) ↦
          let own_a : owns a (prefix_of a ++ stream) ≡ true =
            ap owned (after_prefix_append (prefix_of a) stream) in
          absurd (apart (owns-injective a b (prefix_of a ++ stream) h k own_a (ap owned e)))
    ]

module _ {Message S : Type 0} (e : EventStore Message S) where
  -- What one session stored under its own prefix another session is never sent: its replay from any
  -- event whose stream carries the other's prefix returns no stream and sends nothing. The two ids differ
  -- and do not contain the separator; a lookup, if the store has one, answers the stream that a replay
  -- returns.
  pub replay_events_after_foreign :
      IsConsistent e
      → (a b stream : Text) (s : S) (event_id : Text) → NoColon a
      → NoColon b
      → a ≢ b
      → (e.replay s event_id).0 ≡ some (prefix_of a ++ stream)
      → replay_events_after e b s event_id ≡ (none, [])
  replay_events_after_foreign c a b stream s event_id h k apart owner =
      let blocked : unprefixed b (e.replay s event_id).0 ≡ none =
        ap (unprefixed b) owner ∙ foreign_prefix a b stream h k apart in
      replay_events_after-gate e c b s event_id
      ∙ ap (λ (u : Option Text). named u (e.replay s event_id).1) blocked
