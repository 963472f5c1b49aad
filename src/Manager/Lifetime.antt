-- ===== src/Manager/Lifetime.antt =====
-- A session over the requests of several processes: the manager's calls, given to the abstract registry.
use mcp_persist.Prelude.{
  ℕ, ◌≡◌, ◌⊎◌, refl, sym, ap, subst, ◌∙◌, Bool, true, false, List, [], ◌∷◌, Option, none, some,
  Text, text_eq, Every, Bool-cases, inl, inr,
}
use mcp_persist.Sessions.{
  JsonText, SessionRecord, Op, register, touch, terminate, purge, Registry, step, run_spec, Remains,
  owner_matches,
}
use mcp_persist.Manager.{Manager, declined, try_adopt}

-- Any call but a purge.
abbrev pub IsNotPurge : {Object : Type 0} → Op Object → Type 0
IsNotPurge (purge cutoff) = ⊥
IsNotPurge _ = Unit {0}

-- A call that ends no session.
abbrev pub IsRefresh : {Object : Type 0} → Op Object → Type 0
IsRefresh (register id owner handshake now) = Unit {0}
IsRefresh (touch id now) = Unit {0}
IsRefresh _ = ⊥

-- A record that is live, of the owner.
abbrev pub IsLive : {Object : Type 0} → Option Object → Option (SessionRecord Object) → Type 0
IsLive owner none = ⊥
IsLive owner (some r) = (r.owner ≡ owner) × (r.terminated ≡ false)

module _ {Object : Type 0} (old : ℕ → ℕ → Bool) where
  -- One call: the record stays, and by a refresh it is not ended.
  step-Remains :
      (op : Op Object) (id : Text) (r : SessionRecord Object) (o : Option (SessionRecord Object))
      → IsNotPurge op
      → Remains r o
      → Remains r (step old op id o)
  step-Remains op id r none k h = absurd h
  step-Remains (register x owner handshake now) id r (some r') k h =
      elim (Bool-cases (text_eq x id)) [ inl e ↦ rw e h | inr e ↦ rw e h ]
  step-Remains (touch x now) id r (some r') k h = elim (Bool-cases (text_eq x id)) [
    | inl e ↦ rw e h
    | inr e ↦ rw e h
  ]
  step-Remains (terminate x now) id r (some r') k h = elim (Bool-cases (text_eq x id)) [
    | inl e ↦ rw e (h.0, h.1, λ w. refl)
    | inr e ↦ rw e h
  ]
  step-Remains (purge cutoff) id r (some r') k h = absurd k

  run_spec-Remains :
      (ops : List (Op Object)) (reg : Registry Object) (id : Text) (r : SessionRecord Object)
      → Every IsNotPurge ops
      → Remains r (reg id)
      → Remains r (run_spec old ops reg id)
  unfolding run_spec
  run_spec-Remains [] reg id r k h = h
  run_spec-Remains (op ∷ ops) reg id r k h =
      run_spec-Remains ops (λ x. step old op x (reg x)) id r k.1
        (step-Remains op id r (reg id) k.0 h)

  step-IsLive :
      (op : Op Object) (id : Text) (owner : Option Object) (o : Option (SessionRecord Object))
      → IsRefresh op
      → IsLive owner o
      → IsLive owner (step old op id o)
  step-IsLive op id owner none k h = absurd h
  step-IsLive (register x owner' handshake now) id owner (some r) k h =
      elim (Bool-cases (text_eq x id)) [ inl e ↦ rw e h | inr e ↦ rw e h ]
  step-IsLive (touch x now) id owner (some r) k h = elim (Bool-cases (text_eq x id)) [
    | inl e ↦ rw e h
    | inr e ↦ rw e h
  ]
  step-IsLive (terminate x now) id owner (some r) k h = absurd k
  step-IsLive (purge cutoff) id owner (some r) k h = absurd k

  pub run_spec-IsLive :
      (ops : List (Op Object)) (reg : Registry Object) (id : Text) (owner : Option Object)
      → Every IsRefresh ops
      → IsLive owner (reg id)
      → IsLive owner (run_spec old ops reg id)
  unfolding run_spec
  run_spec-IsLive [] reg id owner k h = h
  run_spec-IsLive (op ∷ ops) reg id owner k h =
      run_spec-IsLive ops (λ x. step old op x (reg x)) id owner k.1
        (step-IsLive op id owner (reg id) k.0 h)

module _ {Object : Type 0} (j : JsonText Object) (old : ℕ → ℕ → Bool) where
  declined_for :
      (r : SessionRecord Object) (id : Text) (requestor : Option Object) (now : ℕ)
      (m : Manager Object) (o : Option (SessionRecord Object))
      → Remains r o
      → (r.terminated ≡ true) ⊎ (owner_matches j r.owner requestor ≡ false)
      → try_adopt j id requestor now (some o) m ≡ declined j id requestor now m
  unfolding try_adopt
  declined_for r id requestor now m none h k = absurd h
  declined_for r id requestor now m (some r') h (inl ended) = rw (h.2 ended)
  declined_for r id requestor now m (some r') h (inr foreign) =
      let other : owner_matches j r'.owner requestor ≡ false =
        ap (λ o. owner_matches j o requestor) h.0 ∙ foreign in
      elim (Bool-cases r'.terminated) [ inl e ↦ rw e | inr e ↦ rw (e, other) ]

  -- A session that the registry holds is not adopted by a principal other than its owner, nor by anyone
  -- once it has ended: whatever calls the registry takes later, registrations of the same id by others
  -- among them, no process adopts it. The calls purge nothing.
  pub try_adopt_never :
      (reg : Registry Object) (id : Text) (r : SessionRecord Object) (ops : List (Op Object))
      (requestor : Option Object) (now : ℕ) (m : Manager Object)
      → reg id ≡ some r
      → Every IsNotPurge ops
      → (r.terminated ≡ true) ⊎ (owner_matches j r.owner requestor ≡ false)
      → try_adopt j id requestor now (some (run_spec old ops reg id)) m
        ≡ declined j id requestor now m
  try_adopt_never reg id r ops requestor now m e k why =
      declined_for r id requestor now m (run_spec old ops reg id)
        (run_spec-Remains old ops reg id r k (subst (Remains r) (sym e) (refl, refl, λ w. w))) why
