-- ===== src/Sessions.antt =====
-- src/mcp_persist/sessions.py: the record of a session, the comparison of owners, and what a registry
-- promises. A record's `metadata`, which no registry writes, is left out.
pub mod Sql
pub mod Redis
pub mod Listing
pub mod Paging
pub mod Keyspace
pub mod Held
pub mod Agreement
pub mod Rows
pub mod Refinement
pub mod Races
use mcp_persist.Prelude.{
  ℕ, ◌≡◌, ◌≢◌, Bool, true, false, ◌&&◌, List, [], ◌∷◌, Option, none, some, Text, codes, text_eq,
  if◌then◌else◌,
}

-- JSON objects: `json.dumps` of one, and `json.loads` of a text, which raises, or yields an object or
-- something else; and `a.get(key) == b.get(key)`.
pub record JsonText (Object : Type 0) : Type 0 where
  pub dumps : Object → Text
  pub loads : Text → Option (Option Object)
  pub same_at : Text → Object → Object → Bool

-- What is dumped is read back, and is not the empty text.
pub record IsJsonText {Object : Type 0} (j : JsonText Object) : Type 0 where
  pub loads_dumps : (o : Object) → j.loads (j.dumps o) ≡ some (some o)
  pub dumps_ne : (o : Object) → j.dumps o ≢ []

pub record SessionRecord (Object : Type 0) : Type 0 where
  pub session_id : Text
  pub created_at : ℕ
  pub last_seen_at : ℕ
  pub terminated : Bool
  pub owner : Option Object
  pub handshake : Option Object

abbrev pub object_of {ℓ} : {Object : Type ℓ} → Option (Option Object) → Option Object
object_of none = none
object_of (some o) = o

module _ {Object : Type 0} (j : JsonText Object) where
  -- `_owner_matches`
  unfoldable pub owner_matches : Option Object → Option Object → Bool
  owner_matches none none = true
  owner_matches none (some b) = false
  owner_matches (some a) none = false
  owner_matches (some a) (some b) =
      j.same_at (codes "client_id") a b
      && j.same_at (codes "issuer") a b
      && j.same_at (codes "subject") a b

-- `SessionRegistry`: the calls that change it, each with the time it reads, and `purge` with its cutoff.
pub data Op (Object : Type 0) : Type 0 where
  register : Text → Option Object → Option Object → ℕ → Op Object
  touch : Text → ℕ → Op Object
  terminate : Text → ℕ → Op Object
  purge : ℕ → Op Object

-- The abstract registry: the record of each session id.
abbrev pub Registry : Type 0 → Type 0
Registry Object = Text → Option (SessionRecord Object)

abbrev pub or_else {ℓ} : {A : Type ℓ} → Option A → Option A → Option A
or_else none b = b
or_else (some a) b = some a

module _ {Object : Type 0} where
  abbrev pub no_sessions : Registry Object
  no_sessions id = none

  -- A first registration fixes the owner and the time; a later one is seen, and adds the handshake if
  -- there was none.
  abbrev pub registered :
      Text
      → Option Object
      → Option Object
      → ℕ
      → Option (SessionRecord Object)
      → SessionRecord Object
  registered id owner handshake now none = record {
    session_id = id;
    created_at = now;
    last_seen_at = now;
    terminated = false;
    owner = owner;
    handshake = handshake;
  }
  registered id owner handshake now (some r) = record r {
    last_seen_at = now;
    handshake = or_else r.handshake handshake;
  }

  abbrev pub touched : ℕ → Option (SessionRecord Object) → Option (SessionRecord Object)
  touched now none = none
  touched now (some r) = some (record r { last_seen_at = now })

  abbrev pub ended : ℕ → Option (SessionRecord Object) → Option (SessionRecord Object)
  ended now none = none
  ended now (some r) = some (record r { last_seen_at = now; terminated = true })

  -- `old`: which times of last use a cutoff makes old.
  abbrev pub purged :
      (ℕ → ℕ → Bool) → ℕ → Option (SessionRecord Object) → Option (SessionRecord Object)
  purged old cutoff none = none
  purged old cutoff (some r) = if old r.last_seen_at cutoff then none else some r

  -- What a call makes of the record of the id `id`.
  abbrev pub step :
      (ℕ → ℕ → Bool)
      → Op Object
      → Text
      → Option (SessionRecord Object)
      → Option (SessionRecord Object)
  step old (register x owner handshake now) id r =
      if text_eq x id then some (registered x owner handshake now r) else r
  step old (touch x now) id r = if text_eq x id then touched now r else r
  step old (terminate x now) id r = if text_eq x id then ended now r else r
  step old (purge cutoff) id r = purged old cutoff r

  unfoldable pub run_spec : (ℕ → ℕ → Bool) → List (Op Object) → Registry Object → Registry Object
  run_spec old [] s id = s id
  run_spec old (op ∷ ops) s id = run_spec old ops (λ x. step old op x (s x)) id

-- The record that a session still has: of the same owner and time, and ended if it was.
abbrev pub Remains :
    {Object : Type 0} → SessionRecord Object → Option (SessionRecord Object) → Type 0
Remains r none = ⊥
Remains r (some r') =
    (r'.owner ≡ r.owner)
    × (r'.created_at ≡ r.created_at)
    × (r.terminated ≡ true → r'.terminated ≡ true)
