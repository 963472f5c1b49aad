-- ===== src/Manager.antt =====
-- src/mcp_persist/session_manager.py, `ResumableSessionManager`: which sessions a process adopts, and
-- what a request records in the session registry. A call of the registry is a value of `Op`: what the
-- registry does with it is in Sessions, and where it raises, the manager goes on. The SDK's manager is
-- a parameter: the sessions that it holds after a request, and the responses that it began and the
-- transports that it terminated on the way.
pub mod Adoption
pub mod Lifetime
pub mod Restart
pub mod Handover
pub mod Handshake
use mcp_persist.Prelude.{
  ℕ, ◌≡◌, Bool, true, false, not, ◌&&◌, List, [], ◌∷◌, ◌++◌, Option, none, some, Text, text_eq, leb,
  if◌then◌else◌, filter, any, map, length,
}
use mcp_persist.Sessions.{JsonText, SessionRecord, Op, register, touch, terminate, owner_matches}

-- The SDK's transport of a session, with the mark that its `terminate` is hooked.
pub record Transport : Type 0 where
  pub hooked : Bool
  pub is_terminated : Bool

pub record Manager (Object : Type 0) : Type 0 where
  pub server_instances : List (Text × Transport)
  pub session_owners : List (Text × Object)
  pub adopt_sessions : Bool
  pub max_sessions : Option ℕ
  pub shutting_down : Bool

-- dict: `get`, `in`, item assignment and deletion
abbrev pub value_at {ℓ} : {A : Type ℓ} → Text → List (Text × A) → Option A
value_at id [] = none
value_at id ((x, a) ∷ rest) = if text_eq x id then some a else value_at id rest

abbrev pub is_some {ℓ} : {A : Type ℓ} → Option A → Bool
is_some none = false
is_some (some a) = true

abbrev pub set_at {ℓ} : {A : Type ℓ} → Text → A → List (Text × A) → List (Text × A)
set_at id a [] = (id, a) ∷ []
set_at id a ((x, b) ∷ rest) = if text_eq x id then (x, a) ∷ rest else (x, b) ∷ set_at id a rest

abbrev pub without_key {ℓ} : {A : Type ℓ} → Text → List (Text × A) → List (Text × A)
without_key id xs = filter (λ x. not (text_eq x.0 id)) xs

abbrev pub is_member : Text → List Text → Bool
is_member id ids = any (λ x. text_eq x id) ids

abbrev pub hooked_at : Text → Option Transport → List (Text × Transport) → List (Text × Transport)
hooked_at id none ts = ts
hooked_at id (some t) ts = set_at id (record t { hooked = true }) ts

module _ {Object : Type 0} where
  -- `_at_session_limit`
  abbrev pub at_session_limit : Manager Object → Bool
  at_session_limit m = elim m.max_sessions [
    | none ↦ false
    | some n ↦ leb n (length m.server_instances)
  ]

  -- `_hook_termination`
  abbrev pub hook_termination : Text → Manager Object → Manager Object
  hook_termination id m = record m {
    server_instances = hooked_at id (value_at id m.server_instances) m.server_instances;
  }

  abbrev pub owners_with : Text → Option Object → List (Text × Object) → List (Text × Object)
  owners_with id none owners = owners
  owners_with id (some o) owners = set_at id o owners

  -- `_start_adopted`
  abbrev pub start_adopted : Text → Option Object → Manager Object → Manager Object
  start_adopted id requestor m = record m {
    session_owners = owners_with id requestor m.session_owners;
    server_instances =
        set_at id (record { hooked = true; is_terminated = false }) m.server_instances;
  }

  -- After the request: a session that the request ended is forgotten, if the table still holds its
  -- transport.
  abbrev pub forget_ended : Text → Bool → Bool → Manager Object → Manager Object
  forget_ended id is_terminated is_held m =
      if is_terminated && is_held
      then record m {
        server_instances = without_key id m.server_instances;
        session_owners = without_key id m.session_owners;
      }
      else m

-- How `_try_adopt` ends: with the SDK's 404, with a 503, or with the session's transport.
pub data Answer : Type 0 where
  not_adopted too_many_sessions served : Answer

pub record Handled (Object : Type 0) : Type 0 where
  pub answer : Answer
  pub manager : Manager Object
  pub calls : List (Op Object)

module _ {Object : Type 0} (j : JsonText Object) (id : Text) (requestor : Option Object)
    (now : ℕ) where
  abbrev pub declined : Manager Object → Handled Object
  declined m = record { answer = not_adopted; manager = m; calls = [] }

  -- Under the creation lock.
  abbrev pub admitted : Option Transport → Manager Object → Handled Object
  admitted (some t) m = record { answer = served; manager = m; calls = [] }
  admitted none m =
      if at_session_limit m
      then record { answer = too_many_sessions; manager = m; calls = [] }
      else record {
        answer = served;
        manager = start_adopted id requestor m;
        calls = touch id now ∷ [];
      }

  -- `_try_adopt` up to the transport's own work, with what the registry's `get` yields: it can raise.
  unfoldable pub try_adopt :
      Option (Option (SessionRecord Object)) → Manager Object → Handled Object
  unfolding owner_matches
  try_adopt none m = declined m
  try_adopt (some none) m = declined m
  try_adopt (some (some r)) m =
      if r.terminated
      then declined m
      else if owner_matches j r.owner requestor
      then admitted (value_at id m.server_instances) m
      else declined m

-- A transport whose `terminate` runs during a request, and whether the process is shutting down then.
pub record Ended : Type 0 where
  pub session_id : Text
  pub transport : Transport
  pub shutting_down : Bool

-- What `terminate_and_record`, the hook, records of it.
abbrev pub terminate_and_record : {Object : Type 0} → ℕ → Ended → List (Op Object)
terminate_and_record now e =
    if e.transport.hooked && not e.shutting_down then terminate e.session_id now ∷ [] else []

abbrev pub ended_calls : {Object : Type 0} → ℕ → List Ended → List (Op Object)
ended_calls now [] = []
ended_calls now (e ∷ es) = terminate_and_record now e ++ ended_calls now es

-- The start of a response: its status, and the session id that it assigns.
pub record ResponseStart : Type 0 where
  pub status : ℕ
  pub session_id : Option Text

-- What `send_once_registered` has seen.
pub record Sent (Object : Type 0) : Type 0 where
  pub registered : List Text
  pub refused : Bool
  pub calls : List (Op Object)

-- What reaches the registry while the SDK's manager works on a request: it begins a response, or the
-- `terminate` of a transport runs, this session's or another's.
pub data Step : Type 0 where
  starts_response : ResponseStart → Step
  ends_session : Ended → Step

-- What the SDK's manager leaves of a request.
pub record Upstream (Object : Type 0) : Type 0 where
  pub manager : Manager Object
  pub steps : List Step
  pub created : List Text

module _ {Object : Type 0} (requestor handshake : Option Object) (now : ℕ) where
  abbrev pub new_session : List Text → Option Text → Sent Object → Sent Object
  new_session known none s = s
  new_session known (some id) s =
      if is_member id known then s else if is_member id s.registered then s else record s {
        registered = s.registered ++ id ∷ [];
        calls = s.calls ++ register id requestor handshake now ∷ [];
      }

  -- `send_once_registered`
  abbrev pub send_once_registered : List Text → ResponseStart → Sent Object → Sent Object
  send_once_registered known start s =
      if leb 400 start.status
      then record s { refused = true }
      else new_session known start.session_id s

  -- A step of the SDK's manager, and all of them in their order.
  abbrev pub take_step : List Text → Step → Sent Object → Sent Object
  take_step known (starts_response start) s = send_once_registered known start s
  take_step known (ends_session e) s = record s { calls = s.calls ++ terminate_and_record now e }

  unfoldable pub send_all : List Text → List Step → Sent Object → Sent Object
  send_all known [] s = s
  send_all known (step ∷ steps) s = send_all known steps (take_step known step s)

  abbrev pub record_created : Text → Option Transport → List Text → List (Op Object)
  record_created id none registered = []
  record_created id (some t) registered =
      if is_member id registered then [] else register id requestor handshake now ∷ []

  -- `_reconcile`, for the sessions that the request created
  unfoldable pub reconcile_created :
      List Text → List Text → Manager Object → Manager Object × List (Op Object)
  reconcile_created [] registered m = (m, [])
  reconcile_created (id ∷ ids) registered m =
      let (m', calls) = reconcile_created ids registered (hook_termination id m) in
      (m', record_created id (value_at id m.server_instances) registered ++ calls)

  abbrev pub end_gone : List Text → Manager Object → List (Op Object)
  end_gone [] m = []
  end_gone (id ∷ ids) m =
      if is_some (value_at id m.server_instances)
      then end_gone ids m
      else terminate id now ∷ end_gone ids m

  -- for those that are gone
  abbrev pub reconcile_gone : List Text → Manager Object → List (Op Object)
  reconcile_gone registered m = if m.shutting_down then [] else end_gone registered m

  abbrev pub after_use :
      Text → Option Transport → List Text → Bool → Manager Object → List (Op Object)
  after_use id none known refused m =
      if is_member id known && not m.shutting_down then terminate id now ∷ [] else []
  after_use id (some t) known refused m =
      if t.is_terminated then terminate id now ∷ [] else if refused then [] else touch id now ∷ []

  -- and for the session that the request named
  abbrev pub reconcile_named : Option Text → List Text → Bool → Manager Object → List (Op Object)
  reconcile_named none known refused m = []
  reconcile_named (some id) known refused m =
      after_use id (value_at id m.server_instances) known refused m

  -- `_reconcile`
  unfoldable pub reconcile :
      List Text
      → Option Text
      → List Text
      → Bool
      → List Text
      → Manager Object
      → Manager Object × List (Op Object)
  unfolding reconcile_created
  reconcile known session_id registered refused created m =
      let (m', calls) = reconcile_created created registered m in
      (m', calls ++ reconcile_gone registered m' ++ reconcile_named session_id known refused m')

-- `return True`: the request was handled.
abbrev pub is_adopted : Answer → Bool
is_adopted not_adopted = false
is_adopted too_many_sessions = true
is_adopted served = true

-- What the session's transport leaves of a request that it handles: the manager, the transport,
-- whether the table still holds it, and the transports that were terminated meanwhile.
pub record Served (Object : Type 0) : Type 0 where
  pub manager : Manager Object
  pub transport : Transport
  pub is_held : Bool
  pub ended : List Ended

module _ {Object : Type 0} (j : JsonText Object) (requestor handshake : Option Object) (now : ℕ)
    (upstream : Manager Object → Upstream Object) (serve : Manager Object → Served Object) where
  -- `super()._handle_stateful_request`, and `_reconcile` after it
  abbrev pub handle_upstream : Option Text → Manager Object → Manager Object × List (Op Object)
  handle_upstream session_id m =
      let known = map (λ x. x.0) m.server_instances in
      let u = upstream m in
      let sent =
        send_all requestor handshake now known u.steps
          (record { registered = []; refused = false; calls = [] }) in
      let (m', calls) =
        reconcile requestor handshake now known session_id sent.registered sent.refused u.created
          u.manager in
      (m', sent.calls ++ calls)

  -- `_try_adopt` from the transport's own work on
  abbrev pub after_adoption :
      Answer → Text → Manager Object → Handled Object → Manager Object × List (Op Object)
  after_adoption not_adopted id m h = handle_upstream (some id) m
  after_adoption too_many_sessions id m h = (h.manager, h.calls)
  after_adoption served id m h =
      let v = serve h.manager in
      (
        forget_ended id v.transport.is_terminated v.is_held v.manager,
        h.calls ++ ended_calls now v.ended,
      )

  -- `_handle_stateful_request`, with what `get` yields for the id
  unfoldable pub handle_stateful_request :
      Option Text
      → Option (Option (SessionRecord Object))
      → Manager Object
      → Manager Object × List (Op Object)
  unfolding try_adopt send_all reconcile
  handle_stateful_request none found m = handle_upstream none m
  handle_stateful_request (some id) found m =
      if m.adopt_sessions && not (is_some (value_at id m.server_instances))
      then after_adoption (try_adopt j id requestor now found m).answer id m
          (try_adopt j id requestor now found m)
      else handle_upstream (some id) m
