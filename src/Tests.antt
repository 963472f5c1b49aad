-- ===== src/Tests.antt =====
-- The theorems applied to concrete inputs.
mod Storing
mod Scoping
mod Parsing
mod Buffering
mod Moving
mod Coding
mod Adopting
mod Streaming
