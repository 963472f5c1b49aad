-- ===== src/Payload.antt =====
-- src/mcp_persist/compression.py and src/mcp_persist/encryption.py: what stands in a store in place of
-- a payload. The two compressors, base64, UTF-8 and AES-GCM are parameters.
pub mod Library
pub mod Compression
pub mod Encryption
pub mod Coding
pub mod RoundTrip
pub mod Binding
pub mod Codec
