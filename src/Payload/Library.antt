-- ===== src/Payload/Library.antt =====
-- The functions of other libraries that the payload coding calls, with what it relies on. `none` is a
-- call that raises.
use mcp_persist.Prelude.{ℕ, ◌≡◌, ◌≢◌, List, Option, none, some, Text}

abbrev pub Bytes : Type 0
Bytes = List ℕ

pub record Library : Type 0 where
  pub utf8 : Text → Bytes
  pub utf8_decode : Bytes → Option Text
  pub b64encode : Bytes → Text
  pub b64decode : Text → Option Bytes
  pub gzip : Bytes → Bytes
  pub gunzip : Bytes → Option Bytes
  pub zstd : Bytes → Bytes
  pub unzstd : Bytes → Option Bytes
  -- key, nonce, text and associated data
  pub aes_encrypt : Bytes → Bytes → Bytes → Option Bytes → Bytes
  pub aes_decrypt : Bytes → Bytes → Bytes → Option Bytes → Option Bytes

-- Decoding undoes encoding.
pub record IsInverse (l : Library) : Type 0 where
  pub utf8_back : (t : Text) → l.utf8_decode (l.utf8 t) ≡ some t
  pub b64_back : (b : Bytes) → l.b64decode (l.b64encode b) ≡ some b
  pub gzip_back : (b : Bytes) → l.gunzip (l.gzip b) ≡ some b
  pub zstd_back : (b : Bytes) → l.unzstd (l.zstd b) ≡ some b
  pub aes_back :
      (key nonce plain : Bytes) (aad : Option Bytes)
      → l.aes_decrypt key nonce (l.aes_encrypt key nonce plain aad) aad ≡ some plain

-- AES-GCM authenticates its associated data, and UTF-8 tells texts apart.
pub record IsAuthentic (l : Library) : Type 0 where
  pub utf8_injective : (s t : Text) → l.utf8 s ≡ l.utf8 t → s ≡ t
  pub aes_refuses :
      (key nonce plain : Bytes) (aad other : Option Bytes)
      → aad ≢ other
      → l.aes_decrypt key nonce (l.aes_encrypt key nonce plain aad) other ≡ none
