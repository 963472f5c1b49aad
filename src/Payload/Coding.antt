-- ===== src/Payload/Coding.antt =====
-- sqlite.py, `_encode_payload` and `_decode_payload`: compressed, then encrypted.
use mcp_persist.Prelude.{ℕ, Option, ◌>>=◌, Text}
use mcp_persist.Payload.Library.{Bytes, Library}
use mcp_persist.Payload.Compression.{Compressor, compress_payload, decompress_payload}
use mcp_persist.Payload.Encryption.{KeyRing, encrypt_payload, decrypt_payload}

pub record Settings : Type 0 where
  pub compression : Option Compressor
  pub compress_min_bytes : ℕ
  pub keyring : Option KeyRing

module _ (l : Library) (c : Settings) where
  -- `_encode_payload` under the nonce that it draws
  unfoldable pub encode_payload : Bytes → Text → Option Text → Option Text
  unfolding compress_payload encrypt_payload
  encode_payload nonce payload context =
      encrypt_payload l c.keyring nonce
        (compress_payload l c.compression c.compress_min_bytes payload) context

  -- `_decode_payload`
  unfoldable pub decode_payload : Text → Option Text → Option Text
  unfolding decompress_payload decrypt_payload
  decode_payload stored context = do
    packed ← decrypt_payload l c.keyring stored context
    decompress_payload l packed
