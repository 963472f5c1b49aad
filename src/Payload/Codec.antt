-- ===== src/Payload/Codec.antt =====
-- The coding of a SQLite store's payloads: JSON, compressed and encrypted under the stream's context.
use mcp_persist.Prelude.{
  ◌≤◌, ◌≡◌, ◌≢◌, refl, ap, sym, ◌∙◌, arith, [], Option, none, some, ◌>>=◌, Text, length,
}
use mcp_persist.Sqlite.State.{Codec, IsFaithful}
use mcp_persist.Payload.Library.{Bytes, Library, IsInverse}
use mcp_persist.Payload.Compression.{max_decompressed_bytes, decompress_payload}
use mcp_persist.Payload.Encryption.{nonce_bytes, event_context, decrypt_payload}
use mcp_persist.Payload.Coding.{Settings, encode_payload, decode_payload}
use mcp_persist.Payload.RoundTrip.{IsPlain, IsUsable?, decode_payload-encode_payload}

-- `model_dump_json` and `validate_json` of the messages.
pub record Json (Message : Type 0) : Type 0 where
  pub dump : Message → Text
  pub validate : Text → Option Message

-- A message dumps to a text that is not empty, begins with no marker, is no longer than the cap, and
-- validates as the message.
pub record IsJson {Message : Type 0} (l : Library) (j : Json Message) : Type 0 where
  pub plain : (m : Message) → IsPlain (j.dump m)
  pub full : (m : Message) → j.dump m ≢ []
  pub size : (m : Message) → length (l.utf8 (j.dump m)) ≤ max_decompressed_bytes
  pub back : (m : Message) → j.validate (j.dump m) ≡ some m

module _ {Message : Type 0} (l : Library) (c : Settings) (j : Json Message) (nonce : Bytes) where
  abbrev pub or_empty : Option Text → Text
  or_empty none = []
  or_empty (some t) = t

  -- What a store writes and reads in the column; where encryption raises no row is written.
  abbrev pub payload_codec : Codec Message
  payload_codec = record {
    encode =
        λ stream m. or_empty (encode_payload l c nonce (j.dump m) (some (event_context stream)));
    decode = λ stream t. decode_payload l c t (some (event_context stream)) >>= j.validate;
  }

  decode_payload_empty :
      (stream : Text) → decode_payload l c [] (some (event_context stream)) ≡ some []
  unfolding decode_payload decrypt_payload decompress_payload
  decode_payload_empty stream = refl

  -- The coding is what a store relies on: an encoded message is not empty and is decoded under its own
  -- stream. The libraries' decoders undo their encoders, the ring, if there is one, can encrypt, the
  -- nonce has its length, and messages dump to JSON that is read back and no longer than the cap.
  pub payload_codec-IsFaithful :
      IsInverse l
      → IsJson l j
      → IsUsable? c.keyring
      → length nonce ≡ nonce_bytes
      → IsFaithful payload_codec
  payload_codec-IsFaithful inv js u n = record {
    encode_ne = λ stream m e.
        let (t, coded, back) =
          decode_payload-encode_payload l inv c nonce (j.dump m) (event_context stream) (js.plain m)
            (js.size m) u n in
        let nothing : some (j.dump m) ≡ some [] =
          sym back
          ∙ ap (λ x. decode_payload l c x (some (event_context stream)))
              (sym (ap or_empty coded) ∙ e)
          ∙ decode_payload_empty stream in
        js.full m (ground (arith, nothing));
    decode_encode = λ stream m.
        let (t, coded, back) =
          decode_payload-encode_payload l inv c nonce (j.dump m) (event_context stream) (js.plain m)
            (js.size m) u n in
        ap (λ x. decode_payload l c x (some (event_context stream)) >>= j.validate)
          (ap or_empty coded)
        ∙ ap (λ o. o >>= j.validate) back
        ∙ js.back m;
  }
