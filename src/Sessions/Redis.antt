-- ===== src/Sessions/Redis.antt =====
-- src/mcp_persist/sessions.py, `RedisSessionRegistry`, as commands to Redis: a pipeline without a
-- transaction is a list of commands, between which those of other clients can run. Texts of numbers are
-- numbers. A key with a deadline can expire between any two commands.
use mcp_persist.Prelude.{
  ℕ, Bool, true, false, not, ◌&&◌, ◌||◌, List, [], ◌∷◌, ◌++◌, Option, none, some, Text, codes,
  text_eq, ltb, leb, ◌==◌, if◌then◌else◌, filter, map,
}
use mcp_persist.Sessions.{
  JsonText, SessionRecord, Op, register, touch, terminate, purge, or_else, object_of,
}

-- The HASH of a session.
pub record Hash : Type 0 where
  pub session_id : Option Text
  pub terminated : Option Text
  pub owner : Option Text
  pub handshake : Option Text
  pub created_at : Option ℕ
  pub last_seen_at : Option ℕ

abbrev pub empty_hash : Hash
empty_hash = record {
  session_id = none;
  terminated = none;
  owner = none;
  handshake = none;
  created_at = none;
  last_seen_at = none;
}

-- The hashes by session id, and the members of the index with their scores, newest first.
pub record Redis : Type 0 where
  pub hashes : Text → Option Hash
  pub index : List (Text × ℕ)

abbrev pub no_keys : Redis
no_keys = record { hashes = λ id. none; index = [] }

-- HSETNX and HSET of one field
pub data Write : Type 0 where
  nx_session_id : Text → Write
  nx_terminated : Text → Write
  nx_owner : Text → Write
  nx_handshake : Text → Write
  nx_created_at : ℕ → Write
  set_terminated : Text → Write
  set_last_seen_at : ℕ → Write

abbrev pub write : Write → Hash → Hash
write (nx_session_id v) h = record h { session_id = or_else h.session_id (some v) }
write (nx_terminated v) h = record h { terminated = or_else h.terminated (some v) }
write (nx_owner v) h = record h { owner = or_else h.owner (some v) }
write (nx_handshake v) h = record h { handshake = or_else h.handshake (some v) }
write (nx_created_at t) h = record h {
  created_at = elim h.created_at [ none ↦ some t | some u ↦ some u ];
}
write (set_terminated v) h = record h { terminated = some v }
write (set_last_seen_at t) h = record h { last_seen_at = some t }

pub data Command : Type 0 where
  hash_write : Text → Write → Command
  delete : Text → Command
  expired : Text → Command
  zadd : Text → ℕ → Command
  zrem : Text → Command

abbrev pub hash_or_empty : Option Hash → Hash
hash_or_empty none = empty_hash
hash_or_empty (some h) = h

abbrev pub put_hash : Text → Option Hash → (Text → Option Hash) → Text → Option Hash
put_hash id h hashes x = if text_eq id x then h else hashes x

abbrev pub without_member : Text → List (Text × ℕ) → List (Text × ℕ)
without_member id index = filter (λ m. not (text_eq id m.0)) index

-- The order of code points.
unfoldable pub text_leb : Text → Text → Bool
text_leb [] t = true
text_leb (c ∷ s) [] = false
text_leb (c ∷ s) (d ∷ t) =
    let rest = text_leb s t in if ltb c d then true else if c == d then rest else false

-- `a` is not before `b` when the index is walked backwards.
abbrev pub newer_than : Text × ℕ → Text × ℕ → Bool
newer_than (x, m) (y, n) = ltb n m || (m == n && text_leb y x)

unfoldable pub insert_member : Text × ℕ → List (Text × ℕ) → List (Text × ℕ)
unfolding text_leb
insert_member a [] = a ∷ []
insert_member a (b ∷ bs) =
    let rest = insert_member a bs in if newer_than a b then a ∷ b ∷ bs else b ∷ rest

abbrev pub exec : Command → Redis → Redis
exec (hash_write id w) s = record s {
  hashes = put_hash id (some (write w (hash_or_empty (s.hashes id)))) s.hashes;
}
exec (delete id) s = record s { hashes = put_hash id none s.hashes }
exec (expired id) s = record s { hashes = put_hash id none s.hashes }
exec (zadd id score) s = record s { index = insert_member (id, score) (without_member id s.index) }
exec (zrem id) s = record s { index = without_member id s.index }

unfoldable pub exec_all : List Command → Redis → Redis
exec_all [] s = s
exec_all (c ∷ cs) s = exec_all cs (exec c s)

-- Writes to one hash.
abbrev pub hash_writes : Text → List Write → List Command
hash_writes id [] = []
hash_writes id (w ∷ ws) = hash_write id w ∷ hash_writes id ws

module _ {Object : Type 0} (j : JsonText Object) where
  abbrev pub owner_text : Option Object → Text
  owner_text none = []
  owner_text (some o) = j.dumps o

  abbrev pub handshake_writes : Option Object → List Write
  handshake_writes none = []
  handshake_writes (some o) = nx_handshake (j.dumps o) ∷ []

  -- The pipeline of `register`; EXPIRE, which sets a deadline, changes no field.
  abbrev pub register_writes : Text → Option Object → Option Object → ℕ → List Write
  register_writes id owner handshake now =
      nx_session_id id
        ∷ nx_terminated (codes "0")
        ∷ nx_owner (owner_text owner)
        ∷ handshake_writes handshake
      ++ nx_created_at now ∷ set_last_seen_at now ∷ []

  -- `_json_object`
  abbrev pub json_object : Option Text → Option Object
  json_object none = none
  json_object (some []) = none
  json_object (some (c ∷ t)) = object_of (j.loads (c ∷ t))

  abbrev pub or_id : Option Text → Text → Text
  or_id none id = id
  or_id (some []) id = id
  or_id (some (c ∷ t)) id = c ∷ t

  abbrev pub or_zero : Option ℕ → ℕ
  or_zero none = 0
  or_zero (some t) = t

  -- A hash with the fields that every registration writes.
  abbrev pub record_with :
      Text → Hash → Option ℕ → Option Text → Option Text → Option (SessionRecord Object)
  record_with id h none owner terminated = none
  record_with id h (some created) none terminated = none
  record_with id h (some created) (some owner) none = none
  record_with id h (some created) (some owner) (some terminated) = some (record {
    session_id = or_id h.session_id id;
    created_at = created;
    last_seen_at = or_zero h.last_seen_at;
    terminated = text_eq terminated (codes "1");
    owner = json_object (some owner);
    handshake = json_object h.handshake;
  })

  abbrev pub record_of_hash : Text → Option Hash → Option (SessionRecord Object)
  record_of_hash id none = none
  record_of_hash id (some h) = record_with id h h.created_at h.owner h.terminated

  -- `get`
  abbrev pub get : Redis → Text → Option (SessionRecord Object)
  get s id = record_of_hash id (s.hashes id)

abbrev pub touch_writes : ℕ → List Write
touch_writes now = set_last_seen_at now ∷ []

abbrev pub terminate_writes : ℕ → List Write
terminate_writes now = set_terminated (codes "1") ∷ set_last_seen_at now ∷ []

-- Writes to the hash of a session, and its score in the index.
abbrev pub seen_commands : Text → List Write → ℕ → List Command
seen_commands id ws now = hash_writes id ws ++ zadd id now ∷ []

abbrev pub purge_commands : List Text → List Command
purge_commands [] = []
purge_commands (id ∷ ids) = delete id ∷ purge_commands ids

abbrev pub zrem_commands : List Text → List Command
zrem_commands [] = []
zrem_commands (id ∷ ids) = zrem id ∷ zrem_commands ids

-- ZRANGEBYSCORE from -inf to the cutoff, which it includes
abbrev pub old_members : ℕ → List (Text × ℕ) → List Text
old_members cutoff index = map (λ m. m.0) (filter (λ m. leb m.1 cutoff) index)

abbrev pub exists : Option Hash → Bool
exists none = false
exists (some h) = true

module _ {Object : Type 0} (j : JsonText Object) where
  -- A call that no other client interrupts; `touch` and `terminate` look for the key first.
  unfoldable pub call : Op Object → Redis → Redis
  unfolding exec_all
  call (register id owner handshake now) s =
      exec_all (seen_commands id (register_writes j id owner handshake now) now) s
  call (touch id now) s =
      if exists (s.hashes id) then exec_all (seen_commands id (touch_writes now) now) s else s
  call (terminate id now) s =
      if exists (s.hashes id) then exec_all (seen_commands id (terminate_writes now) now) s else s
  call (purge cutoff) s =
      let names = old_members cutoff s.index in
      exec_all (purge_commands names ++ zrem_commands names) s

  unfoldable pub run_calls : List (Op Object) → Redis → Redis
  unfolding call
  run_calls [] s = s
  run_calls (op ∷ ops) s = run_calls ops (call op s)
