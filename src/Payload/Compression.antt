-- ===== src/Payload/Compression.antt =====
-- compression.py
use mcp_persist.Prelude.{
  ℕ, Bool, ◌&&◌, [], ◌∷◌, ◌++◌, Option, none, some, ◌>>=◌, Text, codes, text_eq, after_prefix, ltb,
  leb, if◌then◌else◌, length,
}
use mcp_persist.Payload.Library.{Bytes, Library}

-- SUPPORTED_COMPRESSION
pub data Compressor : Type 0 where
  gzip zstd : Compressor

-- `validate_compression`; `none` where it raises, `installed` says whether zstd can be imported.
unfoldable pub validate_compression : Bool → Option Text → Option (Option Compressor)
validate_compression installed none = some none
validate_compression installed (some codec) =
    if text_eq codec (codes "gzip")
    then some (some gzip)
    else if text_eq codec (codes "zstd") && installed
    then some (some zstd)
    else none

abbrev pub gzip_prefix : Text
gzip_prefix = codes "gz:"

abbrev pub zstd_prefix : Text
zstd_prefix = codes "zs:"

-- MAX_DECOMPRESSED_BYTES
abbrev pub max_decompressed_bytes : ℕ
max_decompressed_bytes = 104857600

module _ (l : Library) where
  abbrev pub encoded : Compressor → Bytes → Text
  encoded gzip raw = gzip_prefix ++ l.b64encode (l.gzip raw)
  encoded zstd raw = zstd_prefix ++ l.b64encode (l.zstd raw)

  -- `if len(encoded) >= len(payload): return payload`
  abbrev pub shorter : Text → Text → Text
  shorter payload packed = if leb (length payload) (length packed) then payload else packed

  unfoldable pub compress_payload : Option Compressor → ℕ → Text → Text
  compress_payload none min_bytes payload = payload
  compress_payload (some codec) min_bytes [] = []
  compress_payload (some codec) min_bytes (c ∷ p) =
      let raw = l.utf8 (c ∷ p) in
      if ltb (length raw) min_bytes then c ∷ p else shorter (c ∷ p) (encoded codec raw)

  -- What both bounded decompressors return of the whole output.
  abbrev pub within : Bytes → Option Text
  within out = if ltb max_decompressed_bytes (length out) then none else l.utf8_decode out

  -- `_gunzip_bounded`
  unfoldable pub gunzip_bounded : Bytes → Option Text
  gunzip_bounded raw = do out ← l.gunzip raw; within out

  -- `_zstd_decompress_bounded`
  unfoldable pub zstd_decompress_bounded : Bytes → Option Text
  zstd_decompress_bounded raw = do out ← l.unzstd raw; within out

  abbrev pub unpack_zstd : Text → Option Text → Option Text
  unpack_zstd stored none = some stored
  unpack_zstd stored (some body) = do raw ← l.b64decode body; zstd_decompress_bounded raw

  abbrev pub unpack_gzip : Text → Option Text → Option Text
  unpack_gzip stored none = unpack_zstd stored (after_prefix zstd_prefix stored)
  unpack_gzip stored (some body) = do raw ← l.b64decode body; gunzip_bounded raw

  unfoldable pub decompress_payload : Text → Option Text
  unfolding gunzip_bounded zstd_decompress_bounded
  decompress_payload stored = unpack_gzip stored (after_prefix gzip_prefix stored)
