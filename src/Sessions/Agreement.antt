-- ===== src/Sessions/Agreement.antt =====
-- `RedisSessionRegistry` does what the abstract registry says.
use mcp_persist.Prelude.{
  ℕ, ◌≡◌, ◌≢◌, refl, sym, ap, subst, ◌∙◌, arith, Bool, true, false, List, [], ◌∷◌, ◌++◌, Option,
  none, some, Text, codes, text_eq, text_eq_iff, leb, if◌then◌else◌, any, Bool-cases, inl, inr,
}
use mcp_persist.Sessions.{
  JsonText, IsJsonText, SessionRecord, Op, register, touch, terminate, purge, Registry, no_sessions,
  registered, touched, ended, purged, step, run_spec, object_of,
}
use mcp_persist.Sessions.Redis.{
  Hash, Redis, no_keys, exec_all, owner_text, seen_commands, register_writes, touch_writes,
  terminate_writes, exists, json_object, or_id, record_of_hash, get, purge_commands, zrem_commands,
  old_members, call, run_calls,
}
use mcp_persist.Sessions.Keyspace.{
  scores, contains, contains-old_members, exec_all-append, hashes-purge_commands,
  index-purge_commands, hashes-zrem_commands, scores-zrem_commands,
}
use mcp_persist.Sessions.Held.{
  flag, handshake_text, Holds, written_registered, registered_seen, registered_named, write_Holds,
  guarded_Holds,
}

module _ {Object : Type 0} (j : JsonText Object) where
  purge_state :
      (names : List Text) (s : Redis) (id : Text)
      → (let s' = exec_all (purge_commands names ++ zrem_commands names) s in
          (s'.hashes id ≡ (if contains id names then none else s.hashes id))
          × (contains id names ≡ false → scores id s'.index ≡ scores id s.index))
  purge_state names s id =
      let split = exec_all-append (purge_commands names) (zrem_commands names) s in
      let t = exec_all (purge_commands names) s in
      (
        ap (λ u. u.hashes id) split
            ∙ ap (λ g. g id) (hashes-zrem_commands names t)
            ∙ hashes-purge_commands names s id,
        λ kept.
            ap (λ u. scores id u.index) split
            ∙ scores-zrem_commands names t id kept
            ∙ ap (scores id) (index-purge_commands names s),
      )

  purge-Holds :
      (cutoff : ℕ) (s : Redis) (id : Text) (o : Option (SessionRecord Object))
      → (Holds j) id o (s.hashes id) (scores id s.index)
      → (let names = old_members cutoff s.index in
          let s' = exec_all (purge_commands names ++ zrem_commands names) s in
          (Holds j) id (purged leb cutoff o) (s'.hashes id) (scores id s'.index))
  purge-Holds cutoff s id none h =
      let names = old_members cutoff s.index in
      let p = purge_state names s id in
      let gone : (b : Bool) → (if b then none else s.hashes id) ≡ none = λ b.
        elim b as (λ b. (if b then none else s.hashes id) ≡ none) [ true ↦ refl | false ↦ h.0 ] in
      (p.0 ∙ gone (contains id names), tt)
  purge-Holds cutoff s id (some r) h =
      let names = old_members cutoff s.index in
      let p = purge_state names s id in
      let in_names : contains id names ≡ leb r.last_seen_at cutoff =
        contains-old_members id cutoff s.index ∙ ap (any (λ n. leb n cutoff)) h.1 ∙ ground arith in
      elim (Bool-cases (leb r.last_seen_at cutoff)) [
        | inl e ↦ rw e (p.0 ∙ ap (λ b. if b then none else s.hashes id) (in_names ∙ e), tt)
        | inr e ↦ rw e (
          p.0 ∙ ap (λ b. if b then none else s.hashes id) (in_names ∙ e) ∙ h.0,
          p.1 (in_names ∙ e) ∙ h.1,
          h.2,
        )
      ]

  same_session :
      (x id : Text) (reg : Registry Object)
      (f : Option (SessionRecord Object) → Option (SessionRecord Object))
      → (if text_eq x id then f (reg x) else reg id) ≡ (if text_eq x id then f (reg id) else reg id)
  same_session x id reg f = elim (Bool-cases (text_eq x id)) [
    | inl e ↦ rw e (ap (λ i. f (reg i)) ((text_eq_iff x id).0 e))
    | inr e ↦ rw e
  ]

  call-Holds :
      (op : Op Object) (s : Redis) (reg : Registry Object)
      → ((x : Text) → (Holds j) x (reg x) (s.hashes x) (scores x s.index))
      → (id : Text)
      → (Holds j) id
          (step leb op id (reg id))
          ((call j op s).hashes id)
          (scores id (call j op s).index)
  unfolding call
  call-Holds (register x owner handshake now) s reg h id =
      let s' = exec_all (seen_commands x (register_writes j x owner handshake now) now) s in
      subst (λ o. (Holds j) id o (s'.hashes id) (scores id s'.index))
        (same_session x id reg (λ o. some (registered x owner handshake now o)))
        (write_Holds j x id (register_writes j x owner handshake now) now s (reg id) (reg x)
          (registered x owner handshake now (reg x)) (h x)
          (written_registered j x owner handshake now (reg x))
          (registered_seen j x owner handshake now (reg x))
          (registered_named j x owner handshake now (reg x) (s.hashes x) (scores x s.index) (h x))
          (h id))
  call-Holds (touch x now) s reg h id =
      let s' =
        if exists (s.hashes x) then exec_all (seen_commands x (touch_writes now) now) s else s in
      subst (λ o. (Holds j) id o (s'.hashes id) (scores id s'.index))
        (same_session x id reg (touched now))
        (guarded_Holds j x id (touch_writes now) now s (reg id) (reg x) (touched now) refl
          (λ r. (record r { last_seen_at = now }, refl, refl, refl, refl)) (h x) (h id))
  call-Holds (terminate x now) s reg h id =
      let s' =
        if exists (s.hashes x)
        then exec_all (seen_commands x (terminate_writes now) now) s
        else s in
      subst (λ o. (Holds j) id o (s'.hashes id) (scores id s'.index))
        (same_session x id reg (ended now))
        (guarded_Holds j x id (terminate_writes now) now s (reg id) (reg x) (ended now) refl
          (λ r. (record r { last_seen_at = now; terminated = true }, refl, refl, refl, refl)) (h x)
          (h id))
  call-Holds (purge cutoff) s reg h id = purge-Holds cutoff s id (reg id) (h id)

  run_calls-Holds :
      (ops : List (Op Object)) (s : Redis) (reg : Registry Object)
      → ((x : Text) → (Holds j) x (reg x) (s.hashes x) (scores x s.index))
      → (id : Text)
      → (Holds j) id
          (run_spec leb ops reg id)
          ((run_calls j ops s).hashes id)
          (scores id (run_calls j ops s).index)
  unfolding run_calls run_spec
  run_calls-Holds [] s reg h id = h id
  run_calls-Holds (op ∷ ops) s reg h id =
      run_calls-Holds ops (call j op s) (λ x. step leb op x (reg x)) (λ x. call-Holds op s reg h x)
        id

  json_object_nonempty : (t : Text) → t ≢ [] → json_object j (some t) ≡ object_of (j.loads t)
  json_object_nonempty [] ne = absurd (ne refl)
  json_object_nonempty (c ∷ t) ne = refl

  owner_back : IsJsonText j → (o : Option Object) → json_object j (some (owner_text j o)) ≡ o
  owner_back js none = refl
  owner_back js (some d) =
      json_object_nonempty (j.dumps d) (js.dumps_ne d) ∙ ap object_of (js.loads_dumps d)

  handshake_back : IsJsonText j → (o : Option Object) → json_object j (handshake_text j o) ≡ o
  handshake_back js none = refl
  handshake_back js (some d) = owner_back js (some d)

  flag_back : (b : Bool) → text_eq (flag j b) (codes "1") ≡ b
  flag_back true = refl
  flag_back false = refl

  or_id_same : (a id : Text) → a ≡ id → or_id j (some a) id ≡ a
  or_id_same [] id e = sym e
  or_id_same (c ∷ a) id e = refl

  record_of_hash-hash_for :
      IsJsonText j
      → (id : Text) (o : Option (SessionRecord Object)) (h : Option Hash) (ns : List ℕ)
      → (Holds j) id o h ns
      → record_of_hash j id h ≡ o
  record_of_hash-hash_for js id none h ns k = rw k.0
  record_of_hash-hash_for js id (some r) h ns k = rw (
    k.0,
    or_id_same r.session_id id k.2,
    flag_back r.terminated,
    owner_back js r.owner,
    handshake_back js r.handshake,
  )

  -- The Redis registry refines the abstract one: after any calls, each uninterrupted and with no key
  -- expired, what it returns for an id is what the abstract registry holds. Sessions last used at or
  -- before a cutoff are purged. JSON that is dumped is read back, and is not empty.
  pub redis_get-run_spec :
      IsJsonText j
      → (ops : List (Op Object)) (id : Text)
      → get j (run_calls j ops no_keys) id ≡ run_spec leb ops no_sessions id
  redis_get-run_spec js ops id =
      record_of_hash-hash_for js id _ _ _
        (run_calls-Holds ops no_keys no_sessions (λ x. (refl, tt)) id)
