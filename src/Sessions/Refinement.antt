-- ===== src/Sessions/Refinement.antt =====
-- `SQLiteSessionRegistry` does what the abstract registry says.
use mcp_persist.Prelude.{
  ℕ, ◌≡◌, refl, sym, ap, ap₂, subst, ◌∙◌, arith, Bool, true, false, not, ◌&&◌, List, [], ◌∷◌,
  Option, none, some, Text, text_eq, text_eq_iff, text_eq_refl, ltb, if◌then◌else◌, Bool-cases, inl,
  inr,
}
use mcp_persist.Sessions.{
  JsonText, IsJsonText, SessionRecord, Op, register, touch, terminate, purge, Registry, no_sessions,
  registered, touched, ended, purged, step, run_spec, or_else, object_of,
}
use mcp_persist.Sessions.Sql.{
  SessionRow, tenant_key, is_session, upsert_session, is_stale, encode_json, decode_json, fetched,
  get, call, run_calls,
}
use mcp_persist.Sessions.Rows.{
  row_at, Keyed, refreshed, set_in, kept, text_eq_sym, row_at-upsert_session, is_session_iff,
  row_at-upsert_session_other, row_at-update_session, row_at-filter, upsert_session-Keyed,
  update_session-Keyed, filter-Keyed,
}

module _ {Object : Type 0} (j : JsonText Object) where
  abbrev row_for : Text → SessionRecord Object → SessionRow
  row_for tenant r = record {
    session_id = r.session_id;
    tenant_id = tenant;
    created_at = r.created_at;
    last_seen_at = r.last_seen_at;
    terminated = r.terminated;
    owner = encode_json j r.owner;
    handshake = encode_json j r.handshake;
  }

  abbrev written : Text → Option (SessionRecord Object) → Option SessionRow
  written tenant none = none
  written tenant (some r) = some (row_for tenant r)

  call-Keyed :
      (tenant : Option Text) (op : Op Object) (rows : List SessionRow)
      → Keyed rows
      → Keyed (call j tenant op rows)
  unfolding call
  call-Keyed tenant (register id owner handshake now) rows k = upsert_session-Keyed _ rows k
  call-Keyed tenant (touch id now) rows k =
      update_session-Keyed _ (λ r. (refl, refl)) (tenant_key tenant) id rows k
  call-Keyed tenant (terminate id now) rows k =
      update_session-Keyed _ (λ r. (refl, refl)) (tenant_key tenant) id rows k
  call-Keyed tenant (purge cutoff) rows k = filter-Keyed _ rows k

  encode_or_else :
      (a b : Option Object)
      → or_else (encode_json j a) (encode_json j b) ≡ encode_json j (or_else a b)
  encode_or_else none b = refl
  encode_or_else (some a) b = refl

  refresh_written :
      (id tenant : Text) (owner handshake : Option Object) (now : ℕ)
      (o : Option (SessionRecord Object))
      → refreshed (row_for tenant (registered id owner handshake now none)) (written tenant o)
        ≡ row_for tenant (registered id owner handshake now o)
  refresh_written id tenant owner handshake now none = refl
  refresh_written id tenant owner handshake now (some r) =
      ap (λ h. record (row_for tenant r) { last_seen_at = now; handshake = h })
        (encode_or_else r.handshake handshake)

  set_touched :
      (b : Bool) (tenant : Text) (now : ℕ) (o : Option (SessionRecord Object))
      → set_in (b && true) (λ r. record r { last_seen_at = now }) (written tenant o)
        ≡ written tenant (if b then touched now o else o)
  set_touched true tenant now none = refl
  set_touched true tenant now (some r) = refl
  set_touched false tenant now o = refl

  set_ended :
      (b : Bool) (tenant : Text) (now : ℕ) (o : Option (SessionRecord Object))
      → set_in
          (b && true)
          (λ r. record r { last_seen_at = now; terminated = true })
          (written tenant o)
        ≡ written tenant (if b then ended now o else o)
  set_ended true tenant now none = refl
  set_ended true tenant now (some r) = refl
  set_ended false tenant now o = refl

  kept-purged :
      (tenant : Text) (cutoff : ℕ) (o : Option (SessionRecord Object))
      → kept (λ r. not (is_stale tenant cutoff r)) (written tenant o)
        ≡ written tenant (purged ltb cutoff o)
  kept-purged tenant cutoff none = refl
  kept-purged tenant cutoff (some r) = ground (arith, text_eq_refl tenant)

  -- A call of the tenant's own registry.
  row_at-call :
      (tenant : Option Text) (op : Op Object) (rows : List SessionRow) (id : Text)
      (o : Option (SessionRecord Object))
      → Keyed rows
      → row_at (tenant_key tenant) id rows ≡ written (tenant_key tenant) o
      → row_at (tenant_key tenant) id (call j tenant op rows)
        ≡ written (tenant_key tenant) (step ltb op id o)
  unfolding call
  row_at-call tenant (register x owner handshake now) rows id o k h =
      let row = row_for (tenant_key tenant) (registered x owner handshake now none) in
      elim (Bool-cases (text_eq x id)) [
        | inl e ↦
            let same = (text_eq_iff x id).0 e in
            subst
              (λ i.
                row_at (tenant_key tenant) i rows ≡ written (tenant_key tenant) o
                → row_at (tenant_key tenant) i (upsert_session row rows)
                  ≡ written (tenant_key tenant)
                      (if text_eq x i then some (registered x owner handshake now o) else o))
              same
              (λ h'.
                row_at-upsert_session row rows
                ∙ ap some (
                    ap (refreshed row) h'
                    ∙ refresh_written x (tenant_key tenant) owner handshake now o)
                ∙ ap
                    (λ b.
                      written (tenant_key tenant)
                        (if b then some (registered x owner handshake now o) else o))
                    (sym (text_eq_refl x)))
              h
        | inr e ↦
            row_at-upsert_session_other row (tenant_key tenant) id rows (ground (arith, e))
            ∙ h
            ∙ ap
                (λ b.
                  written (tenant_key tenant)
                    (if b then some (registered x owner handshake now o) else o))
                (sym e)
      ]
  row_at-call tenant (touch x now) rows id o k h =
      row_at-update_session _ (λ r. (refl, refl)) (tenant_key tenant) x (tenant_key tenant) id rows
      ∙ rw (h, text_eq_refl (tenant_key tenant))
          (set_touched (text_eq x id) (tenant_key tenant) now o)
  row_at-call tenant (terminate x now) rows id o k h =
      row_at-update_session _ (λ r. (refl, refl)) (tenant_key tenant) x (tenant_key tenant) id rows
      ∙ rw (h, text_eq_refl (tenant_key tenant))
          (set_ended (text_eq x id) (tenant_key tenant) now o)
  row_at-call tenant (purge cutoff) rows id o k h =
      row_at-filter _ (tenant_key tenant) id rows k
      ∙ ap (kept (λ r. not (is_stale (tenant_key tenant) cutoff r))) h
      ∙ kept-purged (tenant_key tenant) cutoff o

  kept_other :
      (t tenant id : Text) (cutoff : ℕ) (rows : List SessionRow)
      → text_eq t tenant ≡ false
      → kept (λ r. not (is_stale t cutoff r)) (row_at tenant id rows) ≡ row_at tenant id rows
  kept_other t tenant id cutoff [] ne = refl
  kept_other t tenant id cutoff (r ∷ rs) ne = elim (Bool-cases (is_session tenant id r)) [
    | inl e ↦ ground (arith, e, ne, (is_session_iff tenant id r e).1, text_eq_sym t tenant)
    | inr e ↦ ground (arith, e, kept_other t tenant id cutoff rs ne)
  ]

  -- A call of another tenant's registry.
  row_at-call_other :
      (tenant : Option Text) (op : Op Object) (rows : List SessionRow) (t id : Text)
      → Keyed rows
      → text_eq (tenant_key tenant) t ≡ false
      → row_at t id (call j tenant op rows) ≡ row_at t id rows
  unfolding call
  row_at-call_other tenant (register x owner handshake now) rows t id k ne =
      row_at-upsert_session_other _ t id rows (ground (arith, ne))
  row_at-call_other tenant (touch x now) rows t id k ne =
      row_at-update_session _ (λ r. (refl, refl)) (tenant_key tenant) x t id rows
      ∙ ground (arith, ne)
  row_at-call_other tenant (terminate x now) rows t id k ne =
      row_at-update_session _ (λ r. (refl, refl)) (tenant_key tenant) x t id rows
      ∙ ground (arith, ne)
  row_at-call_other tenant (purge cutoff) rows t id k ne =
      row_at-filter _ t id rows k ∙ kept_other (tenant_key tenant) t id cutoff rows ne

  -- The calls of the tenant.
  unfoldable pub calls_of : Option Text → List (Option Text × Op Object) → List (Op Object)
  calls_of tenant [] = []
  calls_of tenant ((t, op) ∷ ops) =
      if text_eq (tenant_key t) (tenant_key tenant)
      then op ∷ calls_of tenant ops
      else calls_of tenant ops

  row_at-run_calls :
      (tenant : Option Text) (ops : List (Option Text × Op Object)) (rows : List SessionRow)
      (s : Registry Object) (id : Text)
      → Keyed rows
      → ((x : Text) → row_at (tenant_key tenant) x rows ≡ written (tenant_key tenant) (s x))
      → row_at (tenant_key tenant) id (run_calls j ops rows)
        ≡ written (tenant_key tenant) (run_spec ltb (calls_of tenant ops) s id)
  unfolding run_calls run_spec calls_of
  row_at-run_calls tenant [] rows s id k h = h id
  row_at-run_calls tenant ((t, op) ∷ ops) rows s id k h =
      elim (Bool-cases (text_eq (tenant_key t) (tenant_key tenant))) [
        | inl e ↦
            let same = (text_eq_iff (tenant_key t) (tenant_key tenant)).0 e in
            rw e (
              row_at-run_calls tenant ops (call j t op rows) (λ x. step ltb op x (s x)) id
                (call-Keyed t op rows k)
                (subst
                  (λ u.
                    ((x : Text) → row_at u x rows ≡ written u (s x))
                    → (x : Text) → row_at u x (call j t op rows) ≡ written u (step ltb op x (s x)))
                  same (λ h' x. row_at-call t op rows x (s x) k (h' x)) h))
        | inr e ↦ rw e (
            row_at-run_calls tenant ops (call j t op rows) s id (call-Keyed t op rows k)
              (λ x. row_at-call_other t op rows (tenant_key tenant) x k e ∙ h x))
      ]

  decode_encode : IsJsonText j → (o : Option Object) → decode_json j (encode_json j o) ≡ o
  decode_encode js none = refl
  decode_encode js (some d) = ap object_of (js.loads_dumps d)

  fetched_written :
      IsJsonText j
      → (tenant : Text) (o : Option (SessionRecord Object)) → fetched j (written tenant o) ≡ o
  fetched_written js tenant none = refl
  fetched_written js tenant (some r) =
      ap₂ (λ a b. some (record r { owner = a; handshake = b })) (decode_encode js r.owner)
        (decode_encode js r.handshake)

  -- The SQL registry refines the abstract one: after any calls by the registries of any tenants on one
  -- table, what a tenant's registry returns for an id is what the abstract registry holds after that
  -- tenant's calls alone. Sessions last used before a cutoff are purged. JSON that is dumped is read back.
  pub sql_get-run_spec :
      IsJsonText j
      → (tenant : Option Text) (ops : List (Option Text × Op Object)) (id : Text)
      → get j tenant id (run_calls j ops []) ≡ run_spec ltb (calls_of tenant ops) no_sessions id
  sql_get-run_spec js tenant ops id =
      ap (fetched j) (row_at-run_calls tenant ops [] no_sessions id tt (λ x. refl))
      ∙ fetched_written js (tenant_key tenant) (run_spec ltb (calls_of tenant ops) no_sessions id)
