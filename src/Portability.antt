-- ===== src/Portability.antt =====
-- src/mcp_persist/portability.py: one stream exported to a JSON document, and a document restored into
-- a store. The store, `model_dump` and `_message_adapter.validate_python` are parameters.
pub mod Restore
use mcp_persist.Prelude.{
  ℕ, zero, suc, Bool, true, false, not, ◌||◌, List, [], ◌∷◌, Option, none, some, Text, codes,
  text_eq, ◌==◌, if◌then◌else◌, length, map, foldl, ◌⊎◌, inl, inr,
}

-- A parsed JSON value; numbers are whole and not negative.
mutual
  pub data Json : Type 0 where
    null : Json
    boolean : Bool → Json
    number : ℕ → Json
    string : Text → Json
    array : Items → Json
    object : Fields → Json

  pub data Items : Type 0 where
    no_items : Items
    item : Json → Items → Items

  pub data Fields : Type 0 where
    no_fields : Fields
    field : Text → Json → Fields → Fields

abbrev pub items : List Json → Items
items [] = no_items
items (x ∷ xs) = item x (items xs)

abbrev pub values : Items → List Json
values no_items = []
values (item x xs) = x ∷ values xs

-- `document.get(key)`, with `none` for a key that is missing
pub get : Text → Fields → Option Json
get key no_fields = none
get key (field k v fs) = let rest = get key fs in if text_eq k key then some v else rest

abbrev pub key_format : Text
key_format = codes "format"

abbrev pub key_version : Text
key_version = codes "version"

abbrev pub key_stream_id : Text
key_stream_id = codes "stream_id"

abbrev pub key_exported_at : Text
key_exported_at = codes "exported_at"

abbrev pub key_events : Text
key_events = codes "events"

abbrev pub key_backend : Text
key_backend = codes "backend"

abbrev pub key_event_id : Text
key_event_id = codes "event_id"

abbrev pub key_message : Text
key_message = codes "message"

-- DUMP_FORMAT
abbrev pub dump_format : Text
dump_format = codes "mcp-persist-dump"

pub data ImportError : Type 0 where
  not_an_object wrong_format unsupported_version events_not_list : ImportError
  no_stream malformed_event invalid_message : ImportError

-- `document.get("format") != DUMP_FORMAT`, negated
abbrev pub is_format : Option Json → Bool
is_format (some (string s)) = text_eq s dump_format
is_format _ = false

-- `version != DUMP_VERSION`, negated; in Python, `True == 1`.
abbrev pub is_version : Option Json → Bool
is_version (some (number n)) = n == 1
is_version (some (boolean b)) = b
is_version _ = false

abbrev pub events_of : Option Json → Option (List Json)
events_of (some (array events)) = some (values events)
events_of _ = none

-- `_validate_document`, with the events that it lets through
unfoldable pub validate_document : Json → List Json ⊎ ImportError
unfolding get
validate_document (object fs) =
    if not (is_format (get key_format fs))
    then inr wrong_format
    else if not (is_version (get key_version fs))
    then inr unsupported_version
    else elim (events_of (get key_events fs)) [
      | none ↦ inr events_not_list
      | some events ↦ inl events
    ]
validate_document _ = inr not_an_object

-- A value that is false in Python.
abbrev pub is_falsy : Json → Bool
is_falsy null = true
is_falsy (boolean b) = not b
is_falsy (number n) = n == 0
is_falsy (string []) = true
is_falsy (string (c ∷ s)) = false
is_falsy (array no_items) = true
is_falsy (array (item x xs)) = false
is_falsy (object no_fields) = true
is_falsy (object (field k v fs)) = false

-- `stream_id if stream_id is not None else document.get("stream_id")`
abbrev pub target_of : Option Text → Json → Json
target_of (some stream) document = string stream
target_of none (object fs) = elim (get key_stream_id fs) [ none ↦ null | some v ↦ v ]
target_of none _ = null

module _ {Message : Type 0} (model_dump : Message → Json) where
  -- `export_stream`, from the events that `_iter_stream_events` yields
  abbrev pub payload_of : Option Message → Json
  payload_of none = null
  payload_of (some m) = model_dump m

  abbrev pub dump_event : Text × Option Message → Json
  dump_event (event_id, message) =
      object
        (field key_event_id (string event_id) (field key_message (payload_of message) no_fields))

  abbrev pub backend_field : Option Text → Fields
  backend_field none = no_fields
  backend_field (some name) = field key_backend (string name) no_fields

  unfoldable pub export_stream : List (Text × Option Message) → Text → Option Text → ℕ → Json
  export_stream events stream backend now = object (
      field key_format (string dump_format) (
        field key_version (number 1) (
          field key_stream_id (string stream) (
            field key_exported_at (number now)
              (field key_events (array (items (map dump_event events))) (backend_field backend))))))

module _ {Message : Type 0} (validate_python : Json → Option Message) where
  -- The body of the loop over `document["events"]`.
  abbrev pub message_of : Option Json → Option Message ⊎ ImportError
  message_of none = inr malformed_event
  message_of (some null) = inl none
  message_of (some payload) = elim (validate_python payload) [
    | none ↦ inr invalid_message
    | some m ↦ inl (some m)
  ]

  abbrev pub parse_event : Json → Option Message ⊎ ImportError
  parse_event (object fs) = message_of (get key_message fs)
  parse_event _ = inr malformed_event

  abbrev pub cons_message :
      Option Message ⊎ ImportError
      → List (Option Message) ⊎ ImportError
      → List (Option Message) ⊎ ImportError
  cons_message (inr e) rest = inr e
  cons_message (inl m) (inr e) = inr e
  cons_message (inl m) (inl ms) = inl (m ∷ ms)

  pub parse_events : List Json → List (Option Message) ⊎ ImportError
  unfolding get
  parse_events [] = inl []
  parse_events (raw ∷ raws) = cons_message (parse_event raw) (parse_events raws)

  -- `import_stream` on a store `S`: the number of events written, or the error, and the store.
  module _ {S : Type 0} (store_event : S → Json → Option Message → S) where
    abbrev pub write_all : S → Json → List (Option Message) → S
    write_all s target messages = foldl (λ s m. store_event s target m) s messages

    abbrev pub write_parsed : S → Json → List (Option Message) ⊎ ImportError → (ℕ ⊎ ImportError) × S
    write_parsed s target (inr e) = (inr e, s)
    write_parsed s target (inl messages) = (inl (length messages), write_all s target messages)

    abbrev pub import_events : S → Json → List Json ⊎ ImportError → (ℕ ⊎ ImportError) × S
    import_events s target (inr e) = (inr e, s)
    import_events s target (inl events) =
        if is_falsy target then (inr no_stream, s) else write_parsed s target (parse_events events)

    unfoldable pub import_stream : S → Json → Option Text → (ℕ ⊎ ImportError) × S
    unfolding validate_document
    import_stream s document stream_id =
        import_events s (target_of stream_id document) (validate_document document)
