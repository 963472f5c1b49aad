-- ===== src/Sessions/Held.antt =====
-- `RedisSessionRegistry` does what the abstract registry says, when each call runs on its own and no key
-- expires.
use mcp_persist.Prelude.{
  ℕ, ◌≡◌, refl, sym, ap, subst, ◌∙◌, Bool, true, false, List, [], ◌∷◌, Option, none, some, Text,
  codes, text_eq, text_eq_iff, if◌then◌else◌, Bool-cases, inl, inr,
}
use mcp_persist.Sessions.{JsonText, SessionRecord, registered, or_else}
use mcp_persist.Sessions.Redis.{
  Hash, Redis, exec_all, owner_text, Write, seen_commands, register_writes, exists,
}
use mcp_persist.Sessions.Keyspace.{scores, written_hash, Seen, seen_commands-Seen}

module _ {Object : Type 0} (j : JsonText Object) where
  abbrev pub flag : Bool → Text
  flag true = codes "1"
  flag false = codes "0"

  abbrev pub handshake_text : Option Object → Option Text
  handshake_text none = none
  handshake_text (some o) = some (j.dumps o)

  abbrev hash_for : SessionRecord Object → Hash
  hash_for r = record {
    session_id = some r.session_id;
    terminated = some (flag r.terminated);
    owner = some (owner_text j r.owner);
    handshake = handshake_text r.handshake;
    created_at = some r.created_at;
    last_seen_at = some r.last_seen_at;
  }

  -- Redis holds the record of an id: its hash, and one member of the index.
  abbrev pub Holds : Text → Option (SessionRecord Object) → Option Hash → List ℕ → Type 0
  Holds id none h ns = (h ≡ none) × Unit {0}
  Holds id (some r) h ns =
      (h ≡ some (hash_for r)) × (ns ≡ r.last_seen_at ∷ []) × (r.session_id ≡ id)

  Seen-Holds :
      (x id : Text) (r : SessionRecord Object) (o : Option (SessionRecord Object)) (s s' : Redis)
      → Seen x (some (hash_for r)) r.last_seen_at s s'
      → r.session_id ≡ x
      → Holds id o (s.hashes id) (scores id s.index)
      → Holds id (if text_eq x id then some r else o) (s'.hashes id) (scores id s'.index)
  Seen-Holds x id r o s s' seen named h = elim (Bool-cases (text_eq x id)) [
    | inl e ↦
        let same = (text_eq_iff x id).0 e in
        rw e (
          ap s'.hashes (sym same) ∙ seen.hash,
          ap (λ i. scores i s'.index) (sym same) ∙ seen.score,
          named ∙ same,
        )
    | inr e ↦ rw e (
        subst (λ g. Holds id o g (scores id s'.index)) (sym (seen.other_hash id e))
          (subst (Holds id o (s.hashes id)) (sym (seen.other_score id e)) h))
  ]

  abbrev held : Option (SessionRecord Object) → Option Hash
  held none = none
  held (some r) = some (hash_for r)

  Holds-held :
      (id : Text) (o : Option (SessionRecord Object)) (h : Option Hash) (ns : List ℕ)
      → Holds id o h ns
      → h ≡ held o
  Holds-held id none h ns k = k.0
  Holds-held id (some r) h ns k = k.0

  handshake_kept : (h : Option Object) → handshake_text h ≡ handshake_text (or_else h none)
  handshake_kept none = refl
  handshake_kept (some a) = refl

  handshake_added :
      (h : Option Object) (d : Object)
      → or_else (handshake_text h) (some (j.dumps d)) ≡ handshake_text (or_else h (some d))
  handshake_added none d = refl
  handshake_added (some a) d = refl

  pub written_registered :
      (id : Text) (owner handshake : Option Object) (now : ℕ) (o : Option (SessionRecord Object))
      → written_hash (register_writes j id owner handshake now) (held o)
        ≡ some (hash_for (registered id owner handshake now o))
  written_registered id owner none now none = refl
  written_registered id owner (some d) now none = refl
  written_registered id owner none now (some r) =
      ap (λ t. some (record (hash_for r) { last_seen_at = some now; handshake = t }))
        (handshake_kept r.handshake)
  written_registered id owner (some d) now (some r) =
      ap (λ t. some (record (hash_for r) { last_seen_at = some now; handshake = t }))
        (handshake_added r.handshake d)

  pub registered_seen :
      (id : Text) (owner handshake : Option Object) (now : ℕ) (o : Option (SessionRecord Object))
      → (registered id owner handshake now o).last_seen_at ≡ now
  registered_seen id owner handshake now none = refl
  registered_seen id owner handshake now (some r) = refl

  pub registered_named :
      (id : Text) (owner handshake : Option Object) (now : ℕ) (o : Option (SessionRecord Object))
      (h : Option Hash) (ns : List ℕ)
      → Holds id o h ns
      → (registered id owner handshake now o).session_id ≡ id
  registered_named id owner handshake now none h ns k = refl
  registered_named id owner handshake now (some r) h ns k = k.2

  -- A call that writes a session which Redis holds.
  pub write_Holds :
      (x id : Text) (ws : List Write) (now : ℕ) (s : Redis) (o p : Option (SessionRecord Object))
      (r : SessionRecord Object)
      → Holds x p (s.hashes x) (scores x s.index)
      → written_hash ws (held p) ≡ some (hash_for r)
      → r.last_seen_at ≡ now
      → r.session_id ≡ x
      → Holds id o (s.hashes id) (scores id s.index)
      → (let s' = exec_all (seen_commands x ws now) s in
          Holds id (if text_eq x id then some r else o) (s'.hashes id) (scores id s'.index))
  write_Holds x id ws now s o p r k w seen named h =
      let s' = exec_all (seen_commands x ws now) s in
      Seen-Holds x id r o s s'
        (subst (λ g. Seen x g r.last_seen_at s s')
          (ap (written_hash ws) (Holds-held x p (s.hashes x) (scores x s.index) k) ∙ w)
          (subst (λ n. Seen x (written_hash ws (s.hashes x)) n s s') (sym seen)
            (seen_commands-Seen x ws now s)))
        named h

  -- A call that writes only to a key that exists.
  pub guarded_Holds :
      (x id : Text) (ws : List Write) (now : ℕ) (s : Redis) (o p : Option (SessionRecord Object))
      (f : Option (SessionRecord Object) → Option (SessionRecord Object))
      → f none ≡ none
      → ((r : SessionRecord Object)
          → (r' : SessionRecord Object) × (f (some r) ≡ some r')
            × (written_hash ws (held (some r)) ≡ some (hash_for r'))
            × (r'.last_seen_at ≡ now)
            × (r'.session_id ≡ r.session_id))
      → Holds x p (s.hashes x) (scores x s.index)
      → Holds id o (s.hashes id) (scores id s.index)
      → (let s' = if exists (s.hashes x) then exec_all (seen_commands x ws now) s else s in
          Holds id (if text_eq x id then f p else o) (s'.hashes id) (scores id s'.index))
  guarded_Holds x id ws now s o none f fn fs k h = elim (Bool-cases (text_eq x id)) [
    | inl e ↦ rw (k.0, e, fn) (ap s.hashes (sym ((text_eq_iff x id).0 e)) ∙ k.0, tt)
    | inr e ↦ rw (k.0, e) h
  ]
  guarded_Holds x id ws now s o (some r) f fn fs k h =
      let (r', e, w, seen, named) = fs r in
      rw (k.0, e) (write_Holds x id ws now s o (some r) r' k w seen (named ∙ k.2) h)
