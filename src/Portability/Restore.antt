-- ===== src/Portability/Restore.antt =====
-- What a dump restores, and what a document that is refused leaves behind.
use mcp_persist.Prelude.{
  ℕ, ◌≡◌, ◌≢◌, refl, arith, true, false, List, [], ◌∷◌, Option, none, some, Text, length, map,
  foldl, ◌⊎◌, inl, inr, if◌then◌else◌,
}
use mcp_persist.Portability.{
  Json, null, ImportError, get, string, object, is_falsy, target_of, validate_document, message_of,
  parse_event, parse_events, boolean, number, array, values, items, write_parsed, no_stream,
  payload_of, dump_event, export_stream, import_events, import_stream,
}

module _ {Message : Type 0} (model_dump : Message → Json) (validate_python : Json → Option Message)
    (dump_ne : (m : Message) → model_dump m ≢ null)
    (validate_dump : (m : Message) → validate_python (model_dump m) ≡ some m) where
  message_of_dump :
      (m : Message) (j : Json)
      → j ≢ null
      → validate_python j ≡ some m
      → message_of validate_python (some j) ≡ inl (some m)
  message_of_dump m null h e = absurd (h refl)
  message_of_dump m (boolean b) h e = rw (message_of, e)
  message_of_dump m (number b) h e = rw (message_of, e)
  message_of_dump m (string b) h e = rw (message_of, e)
  message_of_dump m (array b) h e = rw (message_of, e)
  message_of_dump m (object b) h e = rw (message_of, e)

  message_of-payload_of :
      (o : Option Message) → message_of validate_python (some (payload_of model_dump o)) ≡ inl o
  message_of-payload_of none = refl
  message_of-payload_of (some m) = message_of_dump m (model_dump m) (dump_ne m) (validate_dump m)

  parse_event-dump_event :
      (e : Text × Option Message) → parse_event validate_python (dump_event model_dump e) ≡ inl e.1
  unfolding get
  parse_event-dump_event (i, m) = message_of-payload_of m

  values-items : (js : List Json) → values (items js) ≡ js
  values-items [] = refl
  values-items (j ∷ js) = rw (values-items js)

  parse_events-dump :
      (es : List (Text × Option Message))
      → parse_events validate_python (map (dump_event model_dump) es) ≡ inl (map (λ e. e.1) es)
  unfolding parse_events
  parse_events-dump [] = refl
  parse_events-dump (e ∷ es) = rw (parse_event-dump_event e, parse_events-dump es)

  validate-export :
      (es : List (Text × Option Message)) (stream : Text) (backend : Option Text) (now : ℕ)
      → validate_document (export_stream model_dump es stream backend now)
        ≡ inl (map (dump_event model_dump) es)
  unfolding validate_document export_stream get
  validate-export es stream backend now = rw (values-items (map (dump_event model_dump) es))

  length-map : {A B : Type 0} (f : A → B) (xs : List A) → length (map f xs) ≡ length xs
  length-map f [] = refl
  length-map f (x ∷ xs) = rw (length-map f xs)

  target-export :
      (es : List (Text × Option Message)) (stream : Text) (backend : Option Text) (now : ℕ)
      → target_of none (export_stream model_dump es stream backend now) ≡ string stream
  unfolding export_stream get
  target-export es stream backend now = refl

  -- A dump of a stream restores, under the stream's own name, the messages of all its events, priming
  -- events included, in their order, and the count is that of the events. The name is not empty; a
  -- message dumps to a JSON value that is not `null` and that validates as the message.
  pub import_stream-export_stream :
      {S : Type 0} (store : S → Json → Option Message → S) (s : S)
      (es : List (Text × Option Message)) (c : ℕ) (stream : Text) (backend : Option Text) (now : ℕ)
      → import_stream validate_python store s
          (export_stream model_dump es (c ∷ stream) backend now)
          none
        ≡ (inl (length es), foldl (λ t m. store t (string (c ∷ stream)) m) s (map (λ e. e.1) es))
  unfolding import_stream
  import_stream-export_stream store s es c stream backend now = rw (
    validate-export es (c ∷ stream) backend now,
    target-export es (c ∷ stream) backend now,
    parse_events-dump es,
    length-map (λ e. e.1) es,
  )

write_parsed_refused :
    {Message S : Type 0} (validate_python : Json → Option Message)
    (store : S → Json → Option Message → S) (s : S) (target : Json) (e : ImportError)
    (r : List (Option Message) ⊎ ImportError)
    → (write_parsed validate_python store s target r).0 ≡ inr e
    → (write_parsed validate_python store s target r).1 ≡ s
write_parsed_refused v store s target e (inl ms) h = ground arith
write_parsed_refused v store s target e (inr e') h = refl

import_events_refused :
    {Message S : Type 0} (validate_python : Json → Option Message)
    (store : S → Json → Option Message → S) (s : S) (target : Json) (e : ImportError)
    (r : List Json ⊎ ImportError)
    → (import_events validate_python store s target r).0 ≡ inr e
    → (import_events validate_python store s target r).1 ≡ s
import_events_refused v store s target e (inr e') h = refl
import_events_refused v store s target e (inl events) h =
    elim (is_falsy target)
        as (λ b.
          (if b
              then (inr no_stream, s)
              else write_parsed v store s target (parse_events v events)).0
            ≡ inr e
          → (if b
              then (inr no_stream, s)
              else write_parsed v store s target (parse_events v events)).1
            ≡ s) [
              | true ↦ λ k. refl
              | false ↦ write_parsed_refused v store s target e (parse_events v events)
            ]
      h

-- A document that is refused, for its envelope, its stream or any one of its events, leaves the store
-- as it was.
pub import_stream_refused :
    {Message S : Type 0} (validate_python : Json → Option Message)
    (store : S → Json → Option Message → S) (s : S) (document : Json) (stream_id : Option Text)
    (e : ImportError)
    → (import_stream validate_python store s document stream_id).0 ≡ inr e
    → (import_stream validate_python store s document stream_id).1 ≡ s
unfolding import_stream
import_stream_refused validate_python store s document stream_id e =
    import_events_refused validate_python store s (target_of stream_id document) e
      (validate_document document)
