-- ===== src/Payload/Encryption.antt =====
-- encryption.py: the keyring, and payloads encrypted under its active key.
use mcp_persist.Prelude.{
  ℕ, Bool, true, false, not, ◌&&◌, List, [], ◌∷◌, ◌++◌, Option, none, some, ◌>>=◌, Text, codes,
  text_eq, after_prefix, ◌==◌, if◌then◌else◌, length, take, drop, any,
}
use mcp_persist.Payload.Library.{Bytes, Library}

abbrev pub enc_prefix : Text
enc_prefix = codes "en:"

abbrev pub bound_prefix : Text
bound_prefix = codes "ea:"

-- _NONCE_BYTES
abbrev pub nonce_bytes : ℕ
nonce_bytes = 12

-- _KEY_BYTES
abbrev pub key_bytes : ℕ
key_bytes = 32

pub record KeyRing : Type 0 where
  pub keys : List (Text × Bytes)
  pub active_key_id : Text
  pub bind_context : Bool

-- `KeyRing.get`; `none` where it raises
unfoldable pub key_of : Text → List (Text × Bytes) → Option Bytes
key_of id [] = none
key_of id ((k, raw) ∷ keys) = let rest = key_of id keys in if text_eq k id then some raw else rest

abbrev pub is_key : Text × Bytes → Bool
is_key ([], raw) = false
is_key (c ∷ id, raw) = not (any (λ d. d == b':') (c ∷ id)) && length raw == key_bytes

abbrev pub all_keys : List (Text × Bytes) → Bool
all_keys [] = true
all_keys (k ∷ keys) = is_key k && all_keys keys

-- KeyRing.__init__, which raises on `none`
abbrev pub ring_with : List (Text × Bytes) → Text → Bool → Bool → Option Bytes → Option KeyRing
ring_with [] active bind valid found = none
ring_with (k ∷ keys) active bind false found = none
ring_with (k ∷ keys) active bind true none = none
ring_with (k ∷ keys) active bind true (some raw) =
    some (record { keys = k ∷ keys; active_key_id = active; bind_context = bind })

unfoldable pub key_ring : List (Text × Bytes) → Text → Bool → Option KeyRing
unfolding key_of
key_ring keys active bind = ring_with keys active bind (all_keys keys) (key_of active keys)

-- `event_context` and `record_context`
abbrev pub event_context : Text → Text
event_context stream = codes "event" ++ 0 ∷ stream

abbrev pub record_context : Text → Text
record_context id = codes "record" ++ 0 ∷ id

-- `body.partition(":")`, `none` without a separator
unfoldable pub partition_colon : Text → Option (Text × Text)
partition_colon [] = none
partition_colon (c ∷ s) =
    let rest = partition_colon s in
    if c == b':' then some ([], s) else (elim rest [ none ↦ none | some (a, b) ↦ some (c ∷ a, b) ])

module _ (l : Library) where
  abbrev pub aad_of : Bool → Option Text → Option Bytes
  aad_of true (some context) = some (l.utf8 context)
  aad_of true none = none
  aad_of false context = none

  -- `context is not None and keyring.bind_context`
  abbrev pub is_bound : KeyRing → Option Text → Bool
  is_bound ring none = false
  is_bound ring (some context) = ring.bind_context

  abbrev pub marker : Bool → Text
  marker true = bound_prefix
  marker false = enc_prefix

  abbrev pub sealed : Bool → Text → Bytes → Bytes → Text → Option Text → Text
  sealed bound key_id key nonce payload context =
      marker bound
      ++ key_id
      ++ b':'
        ∷ l.b64encode (nonce ++ l.aes_encrypt key nonce (l.utf8 payload) (aad_of bound context))

  -- `encrypt_payload` with the nonce that it draws; `none` where it raises.
  abbrev pub encrypt_with : KeyRing → Bytes → Text → Option Text → Option Bytes → Option Text
  encrypt_with ring nonce payload context none = none
  encrypt_with ring nonce payload context (some key) =
      some (sealed (is_bound ring context) ring.active_key_id key nonce payload context)

  unfoldable pub encrypt_payload : Option KeyRing → Bytes → Text → Option Text → Option Text
  unfolding key_of
  encrypt_payload none nonce payload context = some payload
  encrypt_payload (some ring) nonce [] context = some []
  encrypt_payload (some ring) nonce (c ∷ p) context =
      encrypt_with ring nonce (c ∷ p) context (key_of ring.active_key_id ring.keys)

  -- `decrypt_payload` behind its marker.
  unfoldable pub unseal : Bool → KeyRing → Text → Option Text → Option Text
  unfolding key_of partition_colon
  unseal bound ring body context = do
    (key_id, b64) ← partition_colon body
    key ← key_of key_id ring.keys
    blob ← l.b64decode b64
    plain ← l.aes_decrypt key (take nonce_bytes blob) (drop nonce_bytes blob) (aad_of bound context)
    l.utf8_decode plain

  abbrev pub decrypt_body : Bool → Option KeyRing → Text → Option Text → Option Text
  decrypt_body true ring body none = none
  decrypt_body true none body (some context) = none
  decrypt_body true (some ring) body (some context) = unseal true ring body (some context)
  decrypt_body false none body context = none
  decrypt_body false (some ring) body context = unseal false ring body context

  abbrev pub decrypt_unbound : Option KeyRing → Text → Option Text → Option Text → Option Text
  decrypt_unbound ring stored context none = some stored
  decrypt_unbound ring stored context (some body) = decrypt_body false ring body context

  abbrev pub decrypt_marked : Option KeyRing → Text → Option Text → Option Text → Option Text
  decrypt_marked ring stored context none =
      decrypt_unbound ring stored context (after_prefix enc_prefix stored)
  decrypt_marked ring stored context (some body) = decrypt_body true ring body context

  unfoldable pub decrypt_payload : Option KeyRing → Text → Option Text → Option Text
  unfolding unseal
  decrypt_payload ring stored context =
      decrypt_marked ring stored context (after_prefix bound_prefix stored)
