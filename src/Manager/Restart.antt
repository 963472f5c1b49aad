-- ===== src/Manager/Restart.antt =====
-- What a process that is shutting down tells the registry.
use mcp_persist.Prelude.{
  ℕ, ◌≡◌, refl, arith, Bool, true, false, List, [], ◌∷◌, ◌++◌, Option, none, some, Text, text_eq,
  leb, Every, Every-append, Bool-cases, inl, inr,
}
use mcp_persist.Sessions.{register}
use mcp_persist.Manager.{
  Ended, terminate_and_record, ended_calls, Step, starts_response, ends_session, take_step,
  Transport, Manager, value_at, set_at, hook_termination, hooked_at, ResponseStart, Sent,
  send_once_registered, send_all, new_session, record_created, is_member, reconcile_created,
  reconcile_gone, reconcile_named, after_use, reconcile,
}
use mcp_persist.Manager.Lifetime.{IsRefresh}

-- A transport of the table has not terminated.
abbrev pub IsOpen : Text × Transport → Type 0
IsOpen (id, t) = t.is_terminated ≡ false

-- A manager that is shutting down, with the transports in its table open.
abbrev pub IsLeaving : {Object : Type 0} → Manager Object → Type 0
IsLeaving m = (m.shutting_down ≡ true) × Every IsOpen m.server_instances

value_at-IsOpen :
    (id : Text) (ts : List (Text × Transport)) (t : Transport)
    → Every IsOpen ts
    → value_at id ts ≡ some t
    → t.is_terminated ≡ false
value_at-IsOpen id [] t k e = ground arith
value_at-IsOpen id ((x, u) ∷ ts) t k e = elim (Bool-cases (text_eq x id)) [
  | inl same ↦ ground (arith, same, e, k.0)
  | inr other ↦ value_at-IsOpen id ts t k.1 (ground (arith, other, e))
]

set_at-IsOpen :
    (id : Text) (t : Transport) (ts : List (Text × Transport))
    → t.is_terminated ≡ false
    → Every IsOpen ts
    → Every IsOpen (set_at id t ts)
set_at-IsOpen id t [] h k = (h, tt)
set_at-IsOpen id t ((x, u) ∷ ts) h k = elim (Bool-cases (text_eq x id)) [
  | inl same ↦ rw same (h, k.1)
  | inr other ↦ rw other (k.0, set_at-IsOpen id t ts h k.1)
]

hooked_at-IsOpen :
    (id : Text) (o : Option Transport) (ts : List (Text × Transport))
    → value_at id ts ≡ o
    → Every IsOpen ts
    → Every IsOpen (hooked_at id o ts)
hooked_at-IsOpen id none ts e k = k
hooked_at-IsOpen id (some t) ts e k =
    set_at-IsOpen id (record t { hooked = true }) ts (value_at-IsOpen id ts t k e) k

module _ {Object : Type 0} where
  hook_termination-IsLeaving :
      (id : Text) (m : Manager Object) → IsLeaving m → IsLeaving (hook_termination id m)
  hook_termination-IsLeaving id m h =
      (h.0, hooked_at-IsOpen id (value_at id m.server_instances) m.server_instances refl h.1)

-- A transport that was terminated only when the process was already shutting down.
abbrev pub IsLateEnd : Ended → Type 0
IsLateEnd e = e.shutting_down ≡ true

abbrev pub IsLate : Step → Type 0
IsLate (starts_response start) = Unit {0}
IsLate (ends_session e) = IsLateEnd e

terminate_and_record-IsRefresh :
    (Object : Type 0) (now : ℕ) (e : Ended)
    → IsLateEnd e
    → Every IsRefresh (terminate_and_record {Object = Object} now e)
terminate_and_record-IsRefresh Object now e late = elim (Bool-cases e.transport.hooked) [
  | inl hooked ↦ rw (hooked, late) tt
  | inr free ↦ rw free tt
]

pub ended_calls-IsRefresh :
    (Object : Type 0) (now : ℕ) (es : List Ended)
    → Every IsLateEnd es
    → Every IsRefresh (ended_calls {Object = Object} now es)
ended_calls-IsRefresh Object now [] late = tt
ended_calls-IsRefresh Object now (e ∷ es) late =
    Every-append IsRefresh (terminate_and_record now e) (ended_calls now es)
      (terminate_and_record-IsRefresh Object now e late.0)
      (ended_calls-IsRefresh Object now es late.1)

module _ {Object : Type 0} (requestor handshake : Option Object) (now : ℕ) where
  new_session-IsRefresh :
      (known : List Text) (o : Option Text) (s : Sent Object)
      → Every IsRefresh s.calls
      → Every IsRefresh (new_session requestor handshake now known o s).calls
  new_session-IsRefresh known none s h = h
  new_session-IsRefresh known (some id) s h = elim (Bool-cases (is_member id known)) [
    | inl e ↦ rw e h
    | inr e ↦ elim (Bool-cases (is_member id s.registered)) [
      | inl again ↦ rw (e, again) h
      | inr fresh ↦
          rw (e, fresh)
            (Every-append IsRefresh s.calls (register id requestor handshake now ∷ []) h (tt, tt))
    ]
  ]

  send_once_registered-IsRefresh :
      (known : List Text) (start : ResponseStart) (s : Sent Object)
      → Every IsRefresh s.calls
      → Every IsRefresh (send_once_registered requestor handshake now known start s).calls
  send_once_registered-IsRefresh known start s h = elim (Bool-cases (leb 400 start.status)) [
    | inl e ↦ rw e h
    | inr e ↦ rw e (new_session-IsRefresh known start.session_id s h)
  ]

  pub take_step-IsRefresh :
      (known : List Text) (step : Step) (s : Sent Object)
      → IsLate step
      → Every IsRefresh s.calls
      → Every IsRefresh (take_step requestor handshake now known step s).calls
  take_step-IsRefresh known (starts_response start) s late h =
      send_once_registered-IsRefresh known start s h
  take_step-IsRefresh known (ends_session e) s late h =
      Every-append IsRefresh s.calls (terminate_and_record now e) h
        (terminate_and_record-IsRefresh Object now e late)

  pub send_all-IsRefresh :
      (known : List Text) (steps : List Step) (s : Sent Object)
      → Every IsLate steps
      → Every IsRefresh s.calls
      → Every IsRefresh (send_all requestor handshake now known steps s).calls
  unfolding send_all
  send_all-IsRefresh known [] s late h = h
  send_all-IsRefresh known (step ∷ steps) s late h =
      send_all-IsRefresh known steps (take_step requestor handshake now known step s) late.1
        (take_step-IsRefresh known step s late.0 h)

  record_created-IsRefresh :
      (id : Text) (o : Option Transport) (registered : List Text)
      → Every IsRefresh (record_created requestor handshake now id o registered)
  record_created-IsRefresh id none registered = tt
  record_created-IsRefresh id (some t) registered = elim (Bool-cases (is_member id registered)) [
    | inl e ↦ rw e tt
    | inr e ↦ rw e (tt, tt)
  ]

  reconcile_created-IsRefresh :
      (ids registered : List Text) (m : Manager Object)
      → IsLeaving m
      → (let out = reconcile_created requestor handshake now ids registered m in
          IsLeaving out.0 × Every IsRefresh out.1)
  unfolding reconcile_created
  reconcile_created-IsRefresh [] registered m h = (h, tt)
  reconcile_created-IsRefresh (id ∷ ids) registered m h =
      let (left, calls) =
        reconcile_created-IsRefresh ids registered (hook_termination id m)
          (hook_termination-IsLeaving id m h) in
      (
        left,
        Every-append IsRefresh
            (record_created requestor handshake now id (value_at id m.server_instances) registered)
            (reconcile_created requestor handshake now ids registered (hook_termination id m)).1
            (record_created-IsRefresh id (value_at id m.server_instances) registered) calls,
      )

  after_use-IsRefresh :
      (id : Text) (o : Option Transport) (known : List Text) (refused : Bool) (m : Manager Object)
      → IsLeaving m
      → value_at id m.server_instances ≡ o
      → Every IsRefresh (after_use requestor handshake now id o known refused m)
  after_use-IsRefresh id none known refused m h e = elim (Bool-cases (is_member id known)) [
    | inl k ↦ rw (k, h.0) tt
    | inr k ↦ rw k tt
  ]
  after_use-IsRefresh id (some t) known true m h e =
      rw (value_at-IsOpen id m.server_instances t h.1 e) tt
  after_use-IsRefresh id (some t) known false m h e =
      rw (value_at-IsOpen id m.server_instances t h.1 e) (tt, tt)

  reconcile_named-IsRefresh :
      (session_id : Option Text) (known : List Text) (refused : Bool) (m : Manager Object)
      → IsLeaving m
      → Every IsRefresh (reconcile_named requestor handshake now session_id known refused m)
  reconcile_named-IsRefresh none known refused m h = tt
  reconcile_named-IsRefresh (some id) known refused m h =
      after_use-IsRefresh id (value_at id m.server_instances) known refused m h refl

  pub reconcile-IsRefresh :
      (known : List Text) (session_id : Option Text) (registered : List Text) (refused : Bool)
      (created : List Text) (m : Manager Object)
      → IsLeaving m
      → Every IsRefresh
          (reconcile requestor handshake now known session_id registered refused created m).1
  unfolding reconcile
  reconcile-IsRefresh known session_id registered refused created m h =
      let out = reconcile_created requestor handshake now created registered m in
      let (left, calls) = reconcile_created-IsRefresh created registered m h in
      let gone : Every IsRefresh (reconcile_gone requestor handshake now registered out.0) =
        rw left.0 tt in
      Every-append IsRefresh (out.1 ++ reconcile_gone requestor handshake now registered out.0)
        (reconcile_named requestor handshake now session_id known refused out.0)
        (Every-append IsRefresh out.1 (reconcile_gone requestor handshake now registered out.0)
          calls gone)
        (reconcile_named-IsRefresh session_id known refused out.0 left)
