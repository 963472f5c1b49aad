-- ===== src/Sessions/Sql.antt =====
-- src/mcp_persist/sessions.py, `SQLiteSessionRegistry`: the sessions table, which the registries of all
-- tenants share, and the statements.
use mcp_persist.Prelude.{
  ℕ, Bool, true, false, not, ◌&&◌, List, [], ◌∷◌, Option, none, some, Text, text_eq, ltb, leb,
  if◌then◌else◌, filter, find?, map, length, take,
}
use mcp_persist.Sessions.{
  JsonText, SessionRecord, Op, register, touch, terminate, purge, or_else, object_of,
}

-- A row; the primary key is the session id with the tenant's key.
pub record SessionRow : Type 0 where
  pub session_id : Text
  pub tenant_id : Text
  pub created_at : ℕ
  pub last_seen_at : ℕ
  pub terminated : Bool
  pub owner : Option Text
  pub handshake : Option Text

-- `_tenant_key`
abbrev pub tenant_key : Option Text → Text
tenant_key none = []
tenant_key (some t) = t

-- `session_id = ? AND tenant_id = ?`
abbrev pub is_session : Text → Text → SessionRow → Bool
is_session tenant id r = text_eq r.session_id id && text_eq r.tenant_id tenant

-- ON CONFLICT DO UPDATE of `register`
abbrev pub refresh : SessionRow → SessionRow → SessionRow
refresh excluded r = record r {
  last_seen_at = excluded.last_seen_at;
  handshake = or_else r.handshake excluded.handshake;
}

-- INSERT ... ON CONFLICT (session_id, tenant_id)
unfoldable pub upsert_session : SessionRow → List SessionRow → List SessionRow
upsert_session row [] = row ∷ []
upsert_session row (r ∷ rs) =
    let rest = upsert_session row rs in
    if is_session row.tenant_id row.session_id r then refresh row r ∷ rs else r ∷ rest

-- UPDATE ... WHERE session_id = ? AND tenant_id = ?
unfoldable pub update_session :
    Text → Text → (SessionRow → SessionRow) → List SessionRow → List SessionRow
update_session tenant id set [] = []
update_session tenant id set (r ∷ rs) =
    (if is_session tenant id r then set r else r) ∷ update_session tenant id set rs

-- `last_seen_at < ? AND tenant_id = ?`
abbrev pub is_stale : Text → ℕ → SessionRow → Bool
is_stale tenant cutoff r = ltb r.last_seen_at cutoff && text_eq r.tenant_id tenant

module _ {Object : Type 0} (j : JsonText Object) where
  -- `_encode_json`
  abbrev pub encode_json : Option Object → Option Text
  encode_json none = none
  encode_json (some o) = some (j.dumps o)

  -- `_decode_json`
  abbrev pub decode_json : Option Text → Option Object
  decode_json none = none
  decode_json (some raw) = object_of (j.loads raw)

  abbrev pub record_of_row : SessionRow → SessionRecord Object
  record_of_row r = record {
    session_id = r.session_id;
    created_at = r.created_at;
    last_seen_at = r.last_seen_at;
    terminated = r.terminated;
    owner = decode_json r.owner;
    handshake = decode_json r.handshake;
  }

  abbrev pub fetched : Option SessionRow → Option (SessionRecord Object)
  fetched none = none
  fetched (some r) = some (record_of_row r)

  -- `get`
  abbrev pub get : Option Text → Text → List SessionRow → Option (SessionRecord Object)
  get tenant id rows = fetched (find? (is_session (tenant_key tenant) id) rows)

  -- A call of the registry of a tenant.
  unfoldable pub call : Option Text → Op Object → List SessionRow → List SessionRow
  unfolding upsert_session update_session
  call tenant (register id owner handshake now) rows =
      upsert_session
        (record {
          session_id = id;
          tenant_id = tenant_key tenant;
          created_at = now;
          last_seen_at = now;
          terminated = false;
          owner = encode_json owner;
          handshake = encode_json handshake;
        })
        rows
  call tenant (touch id now) rows =
      update_session (tenant_key tenant) id (λ r. record r { last_seen_at = now }) rows
  call tenant (terminate id now) rows =
      update_session (tenant_key tenant) id
        (λ r. record r { last_seen_at = now; terminated = true }) rows
  call tenant (purge cutoff) rows = filter (λ r. not (is_stale (tenant_key tenant) cutoff r)) rows

  -- The count that `purge` returns.
  abbrev pub purge_count : Option Text → ℕ → List SessionRow → ℕ
  purge_count tenant cutoff rows = length (filter (is_stale (tenant_key tenant) cutoff) rows)

  -- The calls of the registries of several tenants, in order.
  unfoldable pub run_calls : List (Option Text × Op Object) → List SessionRow → List SessionRow
  unfolding call
  run_calls [] rows = rows
  run_calls ((tenant, op) ∷ ops) rows = run_calls ops (call tenant op rows)

-- ORDER BY last_seen_at DESC
unfoldable pub insert_newest : SessionRow → List SessionRow → List SessionRow
insert_newest row [] = row ∷ []
insert_newest row (r ∷ rs) =
    let rest = insert_newest row rs in
    if leb r.last_seen_at row.last_seen_at then row ∷ r ∷ rs else r ∷ rest

unfoldable pub newest_first : List SessionRow → List SessionRow
unfolding insert_newest
newest_first [] = []
newest_first (r ∷ rs) = insert_newest r (newest_first rs)

-- `tenant_id = ?`, and `terminated = 0` unless the ended ones are wanted
abbrev pub is_listed : Text → Bool → SessionRow → Bool
is_listed tenant include_terminated r =
    text_eq r.tenant_id tenant && (if include_terminated then true else not r.terminated)

-- `list_sessions`
unfoldable pub list_sessions :
    {Object : Type 0}
    → JsonText Object
    → Option Text
    → Bool
    → ℕ
    → List SessionRow
    → List (SessionRecord Object)
unfolding newest_first
list_sessions j tenant include_terminated limit rows =
    map (record_of_row j)
      (take limit (newest_first (filter (is_listed (tenant_key tenant) include_terminated) rows)))
