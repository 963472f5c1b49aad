-- ===== src/Sqlite/State.antt =====
-- sqlite.py: the store's fields, its constructor's checks, and the connection: what the open
-- transaction shows, and what is committed. A payload's coding is the parameter `Codec`.
use mcp_persist.Prelude.{
  ◌≡◌, ◌≢◌, ℕ, zero, suc, Bool, true, false, not, ◌&&◌, ◌||◌, List, [], ◌∷◌, Option, none, some,
  Text, leb, ltb, ◌==◌, if◌then◌else◌, length,
}
use mcp_persist.Table.{Table}

-- `_encode_payload(message.model_dump_json(…), event_context(stream))` and what `_decode_payload` and
-- `validate_json` make of a stored payload: a message, or `none` where they raise.
pub record Codec (Message : Type 0) : Type 0 where
  pub encode : Text → Message → Text
  pub decode : Text → Text → Option Message

-- What a store relies on: an encoded payload is not empty, and decodes under the same stream.
pub record IsFaithful {Message : Type 0} (codec : Codec Message) : Type 0 where
  pub encode_ne : (stream : Text) (m : Message) → codec.encode stream m ≢ []
  pub decode_encode :
      (stream : Text) (m : Message) → codec.decode stream (codec.encode stream m) ≡ some m

-- A row of the forks table.
pub record Fork : Type 0 where
  pub child : Text
  pub parent : Text
  pub event_id : ℕ

pub record Db : Type 0 where
  pub table : Table
  pub forks : List Fork

-- SQLiteEventStore, after `initialize`
pub record SqliteStore : Type 0 where
  pub tenant_id : Option Text
  pub ttl : Option ℕ
  pub commit_interval : Option ℕ
  pub commit_max_pending : Option ℕ
  pub enable_streaming : Bool
  pub pending : ℕ
  pub flushing : Bool
  pub unreadable_events : ℕ
  pub db : Db
  pub committed : Db

pub data StoreError : Type 0 where
  bad_table_name bad_commit_interval bad_commit_max_pending fork_into_itself bad_batch_size :
      StoreError
  bad_window not_streaming bad_poll_interval bad_event_id : StoreError

pub data Result {ℓ} (A : Type ℓ) : Type ℓ where
  ok : A → Result A
  err : StoreError → Result A

-- `IDENTIFIER_RE.match(part)`: letters, digits, "_" and "-"
pub is_identifier_char : ℕ → Bool
is_identifier_char c =
    (leb b'a' c && leb c b'z')
    || (leb b'A' c && leb c b'Z')
    || (leb b'0' c && leb c b'9')
    || c == b'_'
    || c == b'-'

abbrev is_digit_zero : Option ℕ → Bool
is_digit_zero none = false
is_digit_zero (some zero) = true
is_digit_zero (some (suc n)) = false

-- Behind the first character; Python's "$" also matches before a final "\n".
pub identifier_tail : Text → Bool
unfolding is_identifier_char
identifier_tail [] = true
identifier_tail (c ∷ []) = is_identifier_char c || c == 10
identifier_tail (c ∷ d ∷ s) = is_identifier_char c && identifier_tail (d ∷ s)

pub is_identifier : Text → Bool
unfolding identifier_tail
is_identifier [] = false
is_identifier (c ∷ s) = is_identifier_char c && identifier_tail s

-- `table_name.split(".")`
abbrev split_at : Bool → ℕ → List Text → List Text
split_at true c parts = [] ∷ parts
split_at false c [] = (c ∷ []) ∷ []
split_at false c (p ∷ parts) = (c ∷ p) ∷ parts

pub split_dots : Text → List Text
split_dots [] = [] ∷ []
split_dots (c ∷ s) = split_at (c == b'.') c (split_dots s)

abbrev every_identifier : List Text → Bool
every_identifier [] = true
every_identifier (p ∷ ps) = is_identifier p && every_identifier ps

-- SQLiteEventStore.__init__: the checks, then a store with nothing buffered.
unfoldable pub init :
    Text → Option Text → Option ℕ → Bool → Option ℕ → Option ℕ → Db → Result SqliteStore
unfolding split_dots is_identifier
init table_name tenant ttl streaming interval max_pending db =
    if ltb 2 (length (split_dots table_name)) || not (every_identifier (split_dots table_name))
    then err bad_table_name
    else if is_digit_zero interval
    then err bad_commit_interval
    else if is_digit_zero max_pending
    then err bad_commit_max_pending
    else ok (record {
      tenant_id = tenant;
      ttl = ttl;
      commit_interval = interval;
      commit_max_pending = max_pending;
      enable_streaming = streaming;
      pending = 0;
      flushing = false;
      unreadable_events = 0;
      db = db;
      committed = db;
    })

-- `self._conn.commit()`: everything that the connection shows is durable.
unfoldable pub commit : SqliteStore → SqliteStore
commit s = record s { committed = s.db }

-- A statement on the events table, in the open transaction.
abbrev pub with_table : SqliteStore → Table → SqliteStore
with_table s t = record s { db = record s.db { table = t } }
