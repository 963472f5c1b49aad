-- ===== src/Sessions/Races.antt =====
-- src/mcp_persist/sessions.py, `RedisSessionRegistry`: its pipelines are not transactions, so the
-- commands of several clients can run in any order.
use mcp_persist.Prelude.{
  ℕ, ◌≡◌, refl, sym, ap, subst, ◌∙◌, arith, true, false, List, [], ◌∷◌, Option, none, some, Text,
  codes, text_eq, text_eq_iff, Every, Every-mono, Elem, Bool-cases, inl, inr,
}
use mcp_persist.Sessions.{JsonText, SessionRecord, Remains, or_else}
use mcp_persist.Sessions.Redis.{
  Hash, Redis, Command, hash_write, delete, expired, zadd, zrem, Write, nx_session_id,
  nx_terminated, nx_owner, nx_handshake, nx_created_at, set_terminated, set_last_seen_at, write,
  exec, exec_all, get, record_of_hash, record_with, hash_or_empty, json_object, register_writes,
  touch_writes, terminate_writes, seen_commands, purge_commands, zrem_commands,
}

Every-Elem : {A : Type 0} (P : A → Type 0) (x : A) (xs : List A) → Elem x xs → Every P xs → P x
Every-Elem P x [] e h = absurd e.1
Every-Elem P x (y ∷ ys) (inl e) h = subst P (sym e) h.0
Every-Elem P x (y ∷ ys) (inr e) h = Every-Elem P x ys e h.1

pub Every-of_Elem :
    {A : Type 0} (P : A → Type 0) (xs : List A) → ((x : A) → Elem x xs → P x) → Every P xs
Every-of_Elem P [] f = tt
Every-of_Elem P (x ∷ xs) f = (f x (inl refl), Every-of_Elem P xs (λ y e. f y (inr e)))

-- What the registry's pipelines are made of: `terminated` is only ever set to "1".
abbrev IsRegistryWrite : Write → Type 0
IsRegistryWrite (set_terminated v) = v ≡ codes "1"
IsRegistryWrite _ = Unit {0}

-- A command of a registration, a touch or a termination of any session, or the end of another key.
abbrev Keeps : Text → Command → Type 0
Keeps id (hash_write x w) = IsRegistryWrite w
Keeps id (delete x) = text_eq x id ≡ false
Keeps id (expired x) = text_eq x id ≡ false
Keeps id (zadd x n) = Unit {0}
Keeps id (zrem x) = Unit {0}

abbrev EndedText : Text → Text → Type 0
EndedText before after = (text_eq before (codes "1") ≡ true) → (text_eq after (codes "1") ≡ true)

-- The fields of a hash that follows one with this owner, end and time.
abbrev Follows : Text → Text → ℕ → Option Text → Option Text → Option ℕ → Type 0
Follows owner terminated created owner' terminated' created' =
    (owner' ≡ some owner)
    × (created' ≡ some created)
    × (now : Text) × (terminated' ≡ some now)
    × EndedText terminated now

abbrev HashFollows : Text → Text → ℕ → Hash → Type 0
HashFollows owner terminated created h =
    Follows owner terminated created h.owner h.terminated h.created_at

write-Follows :
    (w : Write) (owner terminated : Text) (created : ℕ) (h : Hash)
    → IsRegistryWrite w
    → HashFollows owner terminated created h
    → HashFollows owner terminated created (write w h)
write-Follows (nx_session_id v) owner terminated created h k f = f
write-Follows (nx_terminated v) owner terminated created h k (o, c, now, t, e) =
    (o, c, now, ap (λ x. or_else x (some v)) t, e)
write-Follows (nx_owner v) owner terminated created h k (o, c, now, t, e) =
    (ap (λ x. or_else x (some v)) o, c, now, t, e)
write-Follows (nx_handshake v) owner terminated created h k f = f
write-Follows (nx_created_at n) owner terminated created h k (o, c, now, t, e) =
    (o, ap (λ x. elim x [ none ↦ some n | some u ↦ some u ]) c, now, t, e)
write-Follows (set_terminated v) owner terminated created h k (o, c, now, t, e) =
    (o, c, v, refl, λ was. ap (λ x. text_eq x (codes "1")) k)
write-Follows (set_last_seen_at n) owner terminated created h k f = f

-- What Redis holds under a key, after commands that keep the key.
abbrev KeyFollows : Text → Text → ℕ → Option Hash → Type 0
KeyFollows owner terminated created none = ⊥
KeyFollows owner terminated created (some h) = HashFollows owner terminated created h

write_key-Follows :
    (w : Write) (owner terminated : Text) (created : ℕ) (h : Option Hash)
    → IsRegistryWrite w
    → KeyFollows owner terminated created h
    → KeyFollows owner terminated created (some (write w (hash_or_empty h)))
write_key-Follows w owner terminated created none k f = absurd f
write_key-Follows w owner terminated created (some h) k f =
    write-Follows w owner terminated created h k f

exec-Follows :
    (c : Command) (owner terminated : Text) (created : ℕ) (id : Text) (s : Redis)
    → Keeps id c
    → KeyFollows owner terminated created (s.hashes id)
    → KeyFollows owner terminated created ((exec c s).hashes id)
exec-Follows (hash_write x w) owner terminated created id s k f = elim (Bool-cases (text_eq x id)) [
  | inl e ↦ rw e (
      write_key-Follows w owner terminated created (s.hashes x) k (
        subst (λ i. KeyFollows owner terminated created (s.hashes i)) (sym ((text_eq_iff x id).0 e))
          f))
  | inr e ↦ rw e f
]
exec-Follows (delete x) owner terminated created id s k f = rw k f
exec-Follows (expired x) owner terminated created id s k f = rw k f
exec-Follows (zadd x n) owner terminated created id s k f = f
exec-Follows (zrem x) owner terminated created id s k f = f

exec_all-Follows :
    (cs : List Command) (owner terminated : Text) (created : ℕ) (id : Text) (s : Redis)
    → Every (Keeps id) cs
    → KeyFollows owner terminated created (s.hashes id)
    → KeyFollows owner terminated created ((exec_all cs s).hashes id)
unfolding exec_all
exec_all-Follows [] owner terminated created id s k f = f
exec_all-Follows (c ∷ cs) owner terminated created id s k f =
    exec_all-Follows cs owner terminated created id (exec c s) k.1
      (exec-Follows c owner terminated created id s k.0 f)

module _ {Object : Type 0} (j : JsonText Object) where
  shown_Follows :
      (id : Text) (h : Hash) (owner terminated : Option Text) (created : Option ℕ)
      (r : SessionRecord Object)
      → record_with j id h created owner terminated ≡ some r
      → (o t : Text) × (c : ℕ) × (Follows o t c owner terminated created)
        × (r.owner ≡ json_object j (some o))
        × (r.created_at ≡ c)
        × (r.terminated ≡ text_eq t (codes "1"))
  shown_Follows id h owner terminated none r e = ground arith
  shown_Follows id h none terminated (some c) r e = ground arith
  shown_Follows id h (some o) none (some c) r e = ground arith
  shown_Follows id h (some o) (some t) (some c) r e =
      (o, t, c, (refl, refl, t, refl, λ w. w), cc, cc, cc)

  Follows-Remains :
      (id : Text) (h : Hash) (owner terminated : Option Text) (created : Option ℕ)
      (r : SessionRecord Object) (o t : Text) (c : ℕ)
      → Follows o t c owner terminated created
      → r.owner ≡ json_object j (some o)
      → r.created_at ≡ c
      → r.terminated ≡ text_eq t (codes "1")
      → Remains r (record_with j id h created owner terminated)
  Follows-Remains id h owner terminated created r o t c f a b d =
      rw (f.0, f.1, f.3) (sym a, sym b, λ w. f.4 (sym d ∙ w))

  KeyFollows-Remains :
      (id : Text) (h : Option Hash) (r : SessionRecord Object) (o t : Text) (c : ℕ)
      → KeyFollows o t c h
      → r.owner ≡ json_object j (some o)
      → r.created_at ≡ c
      → r.terminated ≡ text_eq t (codes "1")
      → Remains r (record_of_hash j id h)
  KeyFollows-Remains id none r o t c k a b d = absurd k
  KeyFollows-Remains id (some h) r o t c k a b d =
      Follows-Remains id h h.owner h.terminated h.created_at r o t c k a b d

  key_Remains :
      (id : Text) (h h' : Option Hash) (r : SessionRecord Object)
      → record_of_hash j id h ≡ some r
      → ((o t : Text) (c : ℕ) → KeyFollows o t c h → KeyFollows o t c h')
      → Remains r (record_of_hash j id h')
  key_Remains id none h' r e f = ground arith
  key_Remains id (some h) h' r e f =
      let (o, t, c, now, a, b, d) = shown_Follows id h h.owner h.terminated h.created_at r e in
      KeyFollows-Remains id h' r o t c (f o t c now) a b d

  Keeps-hash_writes :
      (x id : Text) (ws : List Write) (now : ℕ)
      → Every IsRegistryWrite ws
      → Every (Keeps id) (seen_commands x ws now)
  Keeps-hash_writes x id [] now k = (tt, tt)
  Keeps-hash_writes x id (w ∷ ws) now k = (k.0, Keeps-hash_writes x id ws now k.1)

  Keeps-register :
      (x id : Text) (owner handshake : Option Object) (now : ℕ)
      → Every (Keeps id) (seen_commands x (register_writes j x owner handshake now) now)
  Keeps-register x id owner none now =
      Keeps-hash_writes x id (register_writes j x owner none now) now
        (tt, (tt, (tt, (tt, (tt, tt)))))
  Keeps-register x id owner (some d) now =
      Keeps-hash_writes x id (register_writes j x owner (some d) now) now
        (tt, (tt, (tt, (tt, (tt, (tt, tt))))))

  Keeps-touch : (x id : Text) (now : ℕ) → Every (Keeps id) (seen_commands x (touch_writes now) now)
  Keeps-touch x id now = Keeps-hash_writes x id (touch_writes now) now (tt, tt)

  Keeps-terminate :
      (x id : Text) (now : ℕ) → Every (Keeps id) (seen_commands x (terminate_writes now) now)
  Keeps-terminate x id now = Keeps-hash_writes x id (terminate_writes now) now (refl, (tt, tt))

  Keeps-purge_commands :
      (id : Text) (names : List Text)
      → Every (λ x. text_eq x id ≡ false) names
      → Every (Keeps id) (purge_commands names)
  Keeps-purge_commands id [] h = tt
  Keeps-purge_commands id (x ∷ names) h = (h.0, Keeps-purge_commands id names h.1)

  Keeps-zrem_commands : (id : Text) (names : List Text) → Every (Keeps id) (zrem_commands names)
  Keeps-zrem_commands id [] = tt
  Keeps-zrem_commands id (x ∷ names) = (tt, Keeps-zrem_commands id names)

  -- A command that a call of the registry sends, for any session: a purge of other sessions, a removal of
  -- ids from the index, or Redis ends another key.
  pub data IsSent (id : Text) (c : Command) : Type 0 where
    of_register :
        (x : Text) (owner handshake : Option Object) (now : ℕ)
        → Elem c (seen_commands x (register_writes j x owner handshake now) now)
        → IsSent id c
    of_touch : (x : Text) (now : ℕ) → Elem c (seen_commands x (touch_writes now) now) → IsSent id c
    of_terminate :
        (x : Text) (now : ℕ) → Elem c (seen_commands x (terminate_writes now) now) → IsSent id c
    of_purge :
        (names : List Text)
        → Every (λ x. text_eq x id ≡ false) names
        → Elem c (purge_commands names)
        → IsSent id c
    of_zrem : (names : List Text) → Elem c (zrem_commands names) → IsSent id c
    of_expiry : (x : Text) → text_eq x id ≡ false → c ≡ expired x → IsSent id c

  IsSent-Keeps : (id : Text) (c : Command) → IsSent id c → Keeps id c
  IsSent-Keeps id c (of_register x owner handshake now e) =
      Every-Elem (Keeps id) c (seen_commands x (register_writes j x owner handshake now) now) e
        (Keeps-register x id owner handshake now)
  IsSent-Keeps id c (of_touch x now e) =
      Every-Elem (Keeps id) c (seen_commands x (touch_writes now) now) e (Keeps-touch x id now)
  IsSent-Keeps id c (of_terminate x now e) =
      Every-Elem (Keeps id) c (seen_commands x (terminate_writes now) now) e
        (Keeps-terminate x id now)
  IsSent-Keeps id c (of_purge names h e) =
      Every-Elem (Keeps id) c (purge_commands names) e (Keeps-purge_commands id names h)
  IsSent-Keeps id c (of_zrem names e) =
      Every-Elem (Keeps id) c (zrem_commands names) e (Keeps-zrem_commands id names)
  IsSent-Keeps id c (of_expiry x h e) = subst (Keeps id) (sym e) h

  -- Whatever commands of the registrations, touches and terminations of any sessions, and of purges of
  -- other sessions, run, in any order and cut anywhere, a session that is found stays found with its owner
  -- and its time of creation, and stays ended once it is. No purge names its key, and the key does
  -- not expire.
  pub exec_all-Remains :
      (cs : List Command) (s : Redis) (id : Text) (r : SessionRecord Object)
      → Every (IsSent id) cs
      → get j s id ≡ some r
      → Remains r (get j (exec_all cs s) id)
  exec_all-Remains cs s id r sent e =
      key_Remains id (s.hashes id) ((exec_all cs s).hashes id) r e (λ o t c f.
        exec_all-Follows cs o t c id s
          (Every-mono (IsSent id) (Keeps id) cs (λ x. IsSent-Keeps id x) sent) f)
