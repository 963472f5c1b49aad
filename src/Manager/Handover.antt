-- ===== src/Manager/Handover.antt =====
-- A process that goes away, and the process that takes its sessions over.
use mcp_persist.Prelude.{
  ℕ, ◌≡◌, Bool, true, false, not, ◌&&◌, [], Option, none, some, Text, map, Every, Every-append,
  Bool-cases, inl, inr,
}
use mcp_persist.Sessions.{JsonText, SessionRecord, Registry, run_spec, owner_matches}
use mcp_persist.Manager.{
  Transport, Manager, value_at, Handled, Upstream, admitted, is_adopted, at_session_limit,
  try_adopt, send_all, is_some, reconcile, handle_upstream, after_adoption, ended_calls, Served,
  too_many_sessions, served, not_adopted, Answer, handle_stateful_request,
}
use mcp_persist.Manager.Adoption.{admitted-is_adopted}
use mcp_persist.Manager.Lifetime.{IsRefresh, IsLive, run_spec-IsLive}
use mcp_persist.Manager.Restart.{
  IsLeaving, IsLate, IsLateEnd, ended_calls-IsRefresh, send_all-IsRefresh, reconcile-IsRefresh,
}

module _ {Object : Type 0} (j : JsonText Object) (requestor handshake : Option Object) (now : ℕ)
    (upstream : Manager Object → Upstream Object) (serve : Manager Object → Served Object) where
  handle_upstream-IsRefresh :
      (session_id : Option Text) (m : Manager Object)
      → IsLeaving (upstream m).manager
      → Every IsLate (upstream m).steps
      → Every IsRefresh (handle_upstream j requestor handshake now upstream serve session_id m).1
  handle_upstream-IsRefresh session_id m h late =
      let known = map (λ x. x.0) m.server_instances in
      let u = upstream m in
      let sent =
        send_all requestor handshake now known u.steps
          (record { registered = []; refused = false; calls = [] }) in
      Every-append IsRefresh sent.calls
        (reconcile requestor handshake now known session_id sent.registered sent.refused u.created
          u.manager).1
        (send_all-IsRefresh requestor handshake now known u.steps
          (record { registered = []; refused = false; calls = [] }) late tt)
        (reconcile-IsRefresh requestor handshake now known session_id sent.registered sent.refused
          u.created u.manager h)

  admitted-IsRefresh :
      (id : Text) (t : Option Transport) (m : Manager Object)
      → Every IsRefresh (admitted j id requestor now t m).calls
  admitted-IsRefresh id (some t) m = tt
  admitted-IsRefresh id none m = elim (Bool-cases (at_session_limit m)) [
    | inl e ↦ rw e tt
    | inr e ↦ rw e (tt, tt)
  ]

  try_adopt-IsRefresh :
      (id : Text) (found : Option (Option (SessionRecord Object))) (m : Manager Object)
      → Every IsRefresh (try_adopt j id requestor now found m).calls
  unfolding try_adopt
  try_adopt-IsRefresh id none m = tt
  try_adopt-IsRefresh id (some none) m = tt
  try_adopt-IsRefresh id (some (some r)) m = elim (Bool-cases r.terminated) [
    | inl e ↦ rw e tt
    | inr e ↦ elim (Bool-cases (owner_matches j r.owner requestor)) [
      | inl own ↦ rw (e, own) (admitted-IsRefresh id (value_at id m.server_instances) m)
      | inr other ↦ rw (e, other) tt
    ]
  ]

  -- The managers that a request of a leaving process passes through, and the transports that were
  -- terminated on the way, none of them before the process began to shut down.
  abbrev pub AreLeaving : Manager Object → Type 0
  AreLeaving m =
      IsLeaving (upstream m).manager
      × Every IsLate (upstream m).steps
      × ((x : Manager Object) → Every IsLateEnd (serve x).ended)

  after_adoption-IsRefresh :
      (answer : Answer) (id : Text) (m : Manager Object) (a : Handled Object)
      → AreLeaving m
      → Every IsRefresh a.calls
      → Every IsRefresh (after_adoption j requestor handshake now upstream serve answer id m a).1
  after_adoption-IsRefresh not_adopted id m a h k = handle_upstream-IsRefresh (some id) m h.0 h.1
  after_adoption-IsRefresh too_many_sessions id m a h k = k
  after_adoption-IsRefresh served id m a h k =
      Every-append IsRefresh a.calls (ended_calls now (serve a.manager).ended) k
        (ended_calls-IsRefresh Object now (serve a.manager).ended (h.2 a.manager))

  handle_stateful_request-IsRefresh :
      (session_id : Option Text) (found : Option (Option (SessionRecord Object)))
      (m : Manager Object)
      → AreLeaving m
      → Every IsRefresh
          (handle_stateful_request j requestor handshake now upstream serve session_id found m).1
  unfolding handle_stateful_request
  handle_stateful_request-IsRefresh none found m h = handle_upstream-IsRefresh none m h.0 h.1
  handle_stateful_request-IsRefresh (some id) found m h =
      elim (Bool-cases (m.adopt_sessions && not (is_some (value_at id m.server_instances)))) [
        | inl e ↦ rw e (
            after_adoption-IsRefresh (try_adopt j id requestor now found m).answer id m
              (try_adopt j id requestor now found m) h (try_adopt-IsRefresh id found m))
        | inr e ↦ rw e (handle_upstream-IsRefresh (some id) m h.0 h.1)
      ]

  live-is_adopted :
      (id : Text) (owner q : Option Object) (later : ℕ) (o : Option (SessionRecord Object))
      (m : Manager Object)
      → IsLive owner o
      → owner_matches j owner q ≡ true
      → is_adopted (try_adopt j id q later (some o) m).answer ≡ true
  unfolding try_adopt
  live-is_adopted id owner q later none m h k = absurd h
  live-is_adopted id owner q later (some r) m h k =
      rw (h.1, h.0, k) (admitted-is_adopted j id q later (value_at id m.server_instances) m)

  -- A restart ends no session: after a request that ends while the process is shutting down, a session
  -- that was live is adopted by any process that looks it up for a request of its owner, or refused there
  -- only for want of room: a process does so where `adopt_sessions` is set and it does not hold the
  -- session. No transport, of this session or another, is terminated during the request before the
  -- process began to shut down, and the SDK leaves those of its table not terminated.
  pub handle_stateful_request-restart :
      (session_id : Option Text) (found : Option (Option (SessionRecord Object)))
      (m : Manager Object) (old : ℕ → ℕ → Bool) (reg : Registry Object) (id : Text)
      (owner q : Option Object) (later : ℕ) (next : Manager Object)
      → AreLeaving m
      → IsLive owner (reg id)
      → owner_matches j owner q ≡ true
      → (let calls =
            (handle_stateful_request j requestor handshake now upstream serve session_id found
              m).1 in
          is_adopted (try_adopt j id q later (some (run_spec old calls reg id)) next).answer ≡ true)
  handle_stateful_request-restart session_id found m old reg id owner q later next h live own =
      let calls =
        (handle_stateful_request j requestor handshake now upstream serve session_id found m).1 in
      live-is_adopted id owner q later (run_spec old calls reg id) next
        (run_spec-IsLive old calls reg id owner
          (handle_stateful_request-IsRefresh session_id found m h) live)
        own
