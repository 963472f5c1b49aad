-- ===== src/Tests/Adopting.antt =====
-- Session registries and a session manager, with a text for an object.
use mcp_persist.Prelude.{
  ℕ, ◌≡◌, ◌⊎◌, refl, arith, ltb, leb, true, false, List, [], ◌∷◌, ◌++◌, Option, none, some, Text,
  codes, if◌then◌else◌, text_eq, take, drop, inr, Every, Every-append,
}
use mcp_persist.Sessions.{
  JsonText, IsJsonText, SessionRecord, Op, register, touch, terminate, purge, no_sessions, run_spec,
  Remains, owner_matches, Registry,
}
use mcp_persist.Sessions.Sql
use mcp_persist.Sessions.Redis
use mcp_persist.Sessions.Redis.{
  Redis, Command, exec_all, seen_commands, register_writes, terminate_writes, no_keys,
}
use mcp_persist.Sessions.Refinement.{calls_of, sql_get-run_spec}
use mcp_persist.Sessions.Agreement.{redis_get-run_spec}
use mcp_persist.Sessions.Listing.{list_sessions, shown, still}
use mcp_persist.Sessions.Paging.{list_sessions-shown}
use mcp_persist.Sessions.Races.{IsSent, of_register, of_terminate, Every-of_Elem, exec_all-Remains}
use mcp_persist.Manager.{
  Manager, Upstream, starts_response, ends_session, Served, try_adopt, declined, is_adopted,
  not_adopted, handle_stateful_request,
}
use mcp_persist.Portability.{Json, object, string, field, no_fields}
use mcp_persist.Manager.Handshake.{keep_all, joined, initialize_params, initialize_params-keep_all}
use mcp_persist.Manager.Adoption.{IsWithin, IsUnadoptable, try_adopt-owner, try_adopt-IsWithin}
use mcp_persist.Manager.Lifetime.{try_adopt_never}
use mcp_persist.Manager.Handover.{handle_stateful_request-restart}

abbrev load : Text → Option (Option Text)
load [] = none
load (c ∷ t) = some (some t)

abbrev json : JsonText Text
json = record { dumps = λ o. 123 ∷ o; loads = load; same_at = λ key a b. text_eq a b }

json-IsJsonText : IsJsonText json
json-IsJsonText = record { loads_dumps = λ o. refl; dumps_ne = λ o e. ground arith }

abbrev alice : Option Text
alice = some (codes "alice")

abbrev bob : Option Text
bob = some (codes "bob")

-- A session that a second registration cannot take over and that is ended, beside another one.
abbrev ops : List (Op Text)
ops =
    register (codes "s") alice none 1
    ∷ register (codes "t") none none 2
    ∷ register (codes "s") bob (some (codes "h")) 3
    ∷ terminate (codes "s") 4
    ∷ touch (codes "s") 5
    ∷ purge 2
    ∷ []

abbrev record_s : SessionRecord Text
record_s = record {
  session_id = codes "s";
  created_at = 1;
  last_seen_at = 5;
  terminated = true;
  owner = alice;
  handshake = some (codes "h");
}

run_spec-ops : run_spec leb ops no_sessions (codes "s") ≡ some record_s
unfolding run_spec
run_spec-ops = refl

abbrev tenant_ops : List (Option Text × Op Text)
tenant_ops =
    (some (codes "a"), register (codes "s") alice none 1)
    ∷ (none, register (codes "s") bob none 2)
    ∷ (some (codes "b"), terminate (codes "s") 3)
    ∷ (some (codes "a"), touch (codes "s") 4)
    ∷ []

sql_get-run_spec_example :
    Sql.get json (some (codes "a")) (codes "s") (Sql.run_calls json tenant_ops [])
    ≡ run_spec ltb (calls_of json (some (codes "a")) tenant_ops) no_sessions (codes "s")
sql_get-run_spec_example =
    sql_get-run_spec json json-IsJsonText (some (codes "a")) tenant_ops (codes "s")

redis_get-run_spec_example :
    Redis.get json (Redis.run_calls json ops no_keys) (codes "s")
    ≡ run_spec leb ops no_sessions (codes "s")
redis_get-run_spec_example = redis_get-run_spec json json-IsJsonText ops (codes "s")

-- The hash of a session, written by its registration.
abbrev started : Redis
started =
    exec_all (seen_commands (codes "s") (register_writes json (codes "s") alice none 1) 1) no_keys

abbrev started_record : SessionRecord Text
started_record = record {
  session_id = codes "s";
  created_at = 1;
  last_seen_at = 1;
  terminated = false;
  owner = alice;
  handshake = none;
}

started-get : Redis.get json started (codes "s") ≡ some started_record
unfolding exec_all
started-get = refl

-- A termination by one client into which the registration by another one falls.
abbrev ended : List Command
ended = seen_commands (codes "s") (terminate_writes 2) 2

abbrev taken : List Command
taken = seen_commands (codes "s") (register_writes json (codes "s") bob none 3) 3

abbrev mixed : List Command
mixed = take 1 ended ++ taken ++ drop 1 ended

taken-IsSent : Every (IsSent json (codes "s")) taken
taken-IsSent =
    Every-of_Elem (IsSent json (codes "s")) taken (λ c e. of_register (codes "s") bob none 3 e)

ended-IsSent : Every (IsSent json (codes "s")) ended
ended-IsSent = Every-of_Elem (IsSent json (codes "s")) ended (λ c e. of_terminate (codes "s") 2 e)

mixed-IsSent : Every (IsSent json (codes "s")) mixed
mixed-IsSent =
    Every-append (IsSent json (codes "s")) (take 1 ended ++ taken) (drop 1 ended)
      (Every-append (IsSent json (codes "s")) (take 1 ended) taken (ended-IsSent.0, tt)
        taken-IsSent)
      ended-IsSent.1

exec_all-Remains_example :
    Remains started_record (Redis.get json (exec_all mixed started) (codes "s"))
exec_all-Remains_example =
    exec_all-Remains json mixed started (codes "s") started_record mixed-IsSent started-get

list_sessions-shown_example :
    (list_sessions json false 1 (still started) 2 started).0
    ≡ take 1 (shown json false 1 started started.index)
unfolding exec_all Redis.insert_member
list_sessions-shown_example = list_sessions-shown json false 1 started 2 (omega arith)

abbrev manager : Manager Text
manager = record {
  server_instances = [];
  session_owners = [];
  adopt_sessions = true;
  max_sessions = some 1;
  shutting_down = false;
}

try_adopt-owner_example :
    IsUnadoptable json (codes "s") bob 3 (some (some started_record))
      × ((try_adopt json (codes "s") bob 3 (some (some started_record)) manager).answer
          ≡ not_adopted)
      × ((try_adopt json (codes "s") bob 3 (some (some started_record)) manager).manager ≡ manager)
      × ((try_adopt json (codes "s") bob 3 (some (some started_record)) manager).calls ≡ [])
    ⊎ (r : SessionRecord Text) × (some (some started_record) ≡ some (some r))
      × (r.terminated ≡ false)
      × (owner_matches json r.owner bob ≡ true)
      × (is_adopted (try_adopt json (codes "s") bob 3 (some (some started_record)) manager).answer
          ≡ true)
try_adopt-owner_example =
    try_adopt-owner json (codes "s") bob 3 (some (some started_record)) manager

try_adopt-IsWithin_example :
    IsWithin (try_adopt json (codes "s") alice 3 (some (some started_record)) manager).manager
try_adopt-IsWithin_example =
    try_adopt-IsWithin json (codes "s") alice 3 (some (some started_record)) manager (omega arith)

abbrev known : Registry Text
known id = if text_eq (codes "s") id then some started_record else none

abbrev later : List (Op Text)
later = register (codes "s") bob none 2 ∷ touch (codes "s") 3 ∷ []

try_adopt_never_example :
    try_adopt json (codes "s") bob 4 (some (run_spec leb later known (codes "s"))) manager
    ≡ declined json (codes "s") bob 4 manager
try_adopt_never_example =
    try_adopt_never json leb known (codes "s") started_record later bob 4 manager refl
      (tt, (tt, tt)) (inr (unfold owner_matches in refl))

abbrev leaving : Manager Text
leaving = record manager {
  server_instances = (codes "t", record { hooked = true; is_terminated = false }) ∷ [];
  shutting_down = true;
}

abbrev upstream : Manager Text → Upstream Text
upstream m = record {
  manager = leaving;
  steps =
      starts_response (record { status = 200; session_id = some (codes "t") })
      ∷ ends_session (record {
        session_id = codes "s";
        transport = record { hooked = true; is_terminated = false };
        shutting_down = true;
      })
      ∷ [];
  created = codes "t" ∷ [];
}

abbrev serve : Manager Text → Served Text
serve m = record {
  manager = leaving;
  transport = record { hooked = true; is_terminated = true };
  is_held = true;
  ended = [];
}

handle_stateful_request-restart_example :
    is_adopted
      (try_adopt json
        (codes "s")
        alice
        9
        (some (
          run_spec leb
            (handle_stateful_request json bob none 5 upstream serve none none manager).1
            known
            (codes "s")))
        manager).answer
    ≡ true
handle_stateful_request-restart_example =
    handle_stateful_request-restart json bob none 5 upstream serve none none manager leb known
      (codes "s") alice alice 9 manager ((refl, (refl, tt)), (tt, (refl, tt)), λ x. tt) (refl, refl)
      (unfold owner_matches in refl)

abbrev opening : Json
opening = object (
    field (codes "method") (string (codes "initialize"))
      (field (codes "params") (object no_fields) no_fields))

abbrev parse : List ℕ → Option Json
parse body = some opening

abbrev chunks : List (List ℕ)
chunks = codes "{}" ∷ codes " " ∷ []

initialize_params-keep_all_example :
    initialize_params parse (keep_all [] chunks) ≡ initialize_params parse ([] ++ joined chunks)
initialize_params-keep_all_example = initialize_params-keep_all parse [] chunks
