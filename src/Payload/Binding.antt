-- ===== src/Payload/Binding.antt =====
-- What the marker of a stored payload promises: an encrypted payload is bound to its place, an output
-- of decompression is bounded, and a ring that was built can encrypt.
use mcp_persist.Prelude.{
  ℕ, ◌<◌, ◌≡◌, ◌≢◌, refl, ap, sym, subst, ◌∙◌, arith, Bool, true, false, List, [], ◌∷◌, Option,
  none, some, ◌>>=◌, Text, text_eq, text_eq_iff, ◌==◌, length, drop, any, Bool-cases, inl, inr,
}
use mcp_persist.Payload.Library.{Bytes, Library, IsInverse, IsAuthentic}
use mcp_persist.Payload.Compression.{
  Compressor, gzip, zstd, compress_payload, max_decompressed_bytes, within, gunzip_bounded,
  zstd_decompress_bounded, decompress_payload,
}
use mcp_persist.Payload.Encryption.{
  KeyRing, key_of, is_key, all_keys, ring_with, key_ring, nonce_bytes, event_context, sealed,
  encrypt_payload, decrypt_payload,
}
use mcp_persist.Payload.RoundTrip.{IsUsable, unseal-sealed, Packs, compress_payload-Packs}
use mcp_persist.Payload.Coding.{Settings, encode_payload, decode_payload}

event_context_injective : (a b : Text) → event_context a ≡ event_context b → a ≡ b
event_context_injective a b e = ap (drop 6) e

module _ (l : Library) (inv : IsInverse l) (safe : IsAuthentic l) where
  decrypt_elsewhere :
      (ring : KeyRing) (u : IsUsable ring) (nonce : Bytes) (payload context other : Text)
      → length nonce ≡ nonce_bytes
      → context ≢ other
      → decrypt_payload l
          (some ring)
          (sealed l true ring.active_key_id u.key nonce payload (some context))
          (some other)
        ≡ none
  unfolding decrypt_payload
  decrypt_elsewhere ring u nonce payload context other size ne =
      unseal-sealed l inv true ring u.key nonce payload (some context) (some other) u.found
        u.no_colon size
      ∙ ap (λ o. o >>= l.utf8_decode)
          (safe.aes_refuses u.key nonce (l.utf8 payload) (some (l.utf8 context))
            (some (l.utf8 other)) (λ e. ne (safe.utf8_injective context other (ground (arith, e)))))

is_key-no_colon : (k : Text) (raw : Bytes) → is_key (k, raw) ≡ true → any (λ d. d == b':') k ≡ false
is_key-no_colon [] raw h = refl
is_key-no_colon (c ∷ k) raw h = ground arith

key_of-no_colon :
    (id : Text) (keys : List (Text × Bytes)) (raw : Bytes)
    → all_keys keys ≡ true
    → key_of id keys ≡ some raw
    → any (λ d. d == b':') id ≡ false
unfolding key_of
key_of-no_colon id [] raw h e = ground arith
key_of-no_colon id ((k, r) ∷ keys) raw h e = elim (Bool-cases (text_eq k id)) [
  | inl same ↦
      ap (any (λ d. d == b':')) (sym ((text_eq_iff k id).0 same))
      ∙ is_key-no_colon k r (ground (arith, h))
  | inr other ↦ key_of-no_colon id keys raw (ground (arith, h)) (ground (arith, e, other))
]

ring_with-IsUsable :
    (keys : List (Text × Bytes)) (active : Text) (bind : Bool) (ring : KeyRing) (valid : Bool)
    (found : Option Bytes)
    → all_keys keys ≡ valid
    → key_of active keys ≡ found
    → ring_with keys active bind valid found ≡ some ring
    → IsUsable ring
ring_with-IsUsable [] active bind ring valid found v f e = ground arith
ring_with-IsUsable (k ∷ keys) active bind ring false found v f e = ground arith
ring_with-IsUsable (k ∷ keys) active bind ring true none v f e = ground arith
ring_with-IsUsable (k ∷ keys) active bind ring true (some raw) v f e =
    let built : KeyRing = record { keys = k ∷ keys; active_key_id = active; bind_context = bind } in
    let same : built ≡ ring = cc in
    subst IsUsable same
      (record { key = raw; found = f; no_colon = key_of-no_colon active (k ∷ keys) raw v f })

-- A ring that was built can encrypt: its active key is on it, under an id that its marker can hold.
pub key_ring-IsUsable :
    (keys : List (Text × Bytes)) (active : Text) (bind : Bool) (ring : KeyRing)
    → key_ring keys active bind ≡ some ring
    → IsUsable ring
unfolding key_ring
key_ring-IsUsable keys active bind ring e =
    ring_with-IsUsable keys active bind ring (all_keys keys) (key_of active keys) refl refl e

ring_with-bind_context :
    (keys : List (Text × Bytes)) (active : Text) (bind valid : Bool) (found : Option Bytes)
    (ring : KeyRing)
    → ring_with keys active bind valid found ≡ some ring
    → ring.bind_context ≡ bind
ring_with-bind_context [] active bind valid found ring e = ground arith
ring_with-bind_context (k ∷ keys) active bind false found ring e = ground arith
ring_with-bind_context (k ∷ keys) active bind true none ring e = ground arith
ring_with-bind_context (k ∷ keys) active bind true (some raw) ring e = ground (arith, e)

module _ (l : Library) (inv : IsInverse l) where
  encrypt-sealed :
      (ring : KeyRing) (u : IsUsable ring) (nonce : Bytes) (t context : Text)
      → t ≢ []
      → encrypt_payload l (some ring) nonce t (some context)
        ≡ some (sealed l ring.bind_context ring.active_key_id u.key nonce t (some context))
  unfolding encrypt_payload
  encrypt-sealed ring u nonce [] context ne = absurd (ne refl)
  encrypt-sealed ring u nonce (c ∷ t) context ne = rw u.found

  Packs-nonempty : (c : ℕ) (p t : Text) → Packs l inv (c ∷ p) t → t ≢ []
  Packs-nonempty c p t (inl e) h = ground (arith, e, h)
  Packs-nonempty c p t (inr (gzip, e)) h = ground (arith, e, h)
  Packs-nonempty c p t (inr (zstd, e)) h = ground (arith, e, h)

  -- An encrypted payload is bound to its stream: what is stored for one stream, under a ring that binds
  -- and was built, is not decoded in the place of another. The payload is not empty and the nonce has
  -- its length; AES-GCM authenticates its associated data and UTF-8 tells texts apart.
  pub decode_payload_elsewhere :
      IsAuthentic l
      → (c : Settings) (keys : List (Text × Bytes)) (active : Text) (ring : KeyRing) (nonce : Bytes)
        (x : ℕ) (p stream other : Text)
      → key_ring keys active true ≡ some ring
      → c.keyring ≡ some ring
      → length nonce ≡ nonce_bytes
      → stream ≢ other
      → (t : Text) × (encode_payload l c nonce (x ∷ p) (some (event_context stream)) ≡ some t)
        × (decode_payload l c t (some (event_context other)) ≡ none)
  unfolding encode_payload decode_payload
  decode_payload_elsewhere safe c keys active ring nonce x p stream other built e size ne =
      let u = key_ring-IsUsable keys active true ring built in
      let packed = compress_payload l c.compression c.compress_min_bytes (x ∷ p) in
      let full =
        Packs-nonempty x p packed
          (compress_payload-Packs l inv c.compression c.compress_min_bytes (x ∷ p)) in
      let binds : ring.bind_context ≡ true =
        unfold key_ring in
        ring_with-bind_context keys active true (all_keys keys) (key_of active keys) ring built in
      let t = sealed l true ring.active_key_id u.key nonce packed (some (event_context stream)) in
      (
        t,
        ap (λ k. encrypt_payload l k nonce packed (some (event_context stream))) e
            ∙ encrypt-sealed ring u nonce packed (event_context stream) full
            ∙ ap
                (λ b.
                  some (
                    sealed l b ring.active_key_id u.key nonce packed (some (event_context stream))))
                binds,
        ap (λ k. decrypt_payload l k t (some (event_context other)) >>= decompress_payload l) e
            ∙ ap (λ o. o >>= decompress_payload l)
                (decrypt_elsewhere l inv safe ring u nonce packed (event_context stream)
                  (event_context other) size
                  (λ same. ne (event_context_injective stream other same))),
      )

  within_over : (p : Text) → max_decompressed_bytes < length (l.utf8 p) → within l (l.utf8 p) ≡ none
  within_over p h = ground (arith, h)

  decompress_over :
      (p t : Text)
      → max_decompressed_bytes < length (l.utf8 p)
      → Packs l inv p t
      → t ≢ p
      → decompress_payload l t ≡ none
  unfolding decompress_payload gunzip_bounded zstd_decompress_bounded
  decompress_over p t h (inl e) ne = absurd (ne e)
  decompress_over p t h (inr (gzip, e)) ne =
      rw (e, inv.b64_back (l.gzip (l.utf8 p)), inv.gzip_back (l.utf8 p)) (within_over p h)
  decompress_over p t h (inr (zstd, e)) ne =
      rw (e, inv.b64_back (l.zstd (l.utf8 p)), inv.zstd_back (l.utf8 p)) (within_over p h)

  -- A payload over the cap on decompression that compression did shorten is stored, and no read
  -- accepts it again.
  pub compress_payload_over :
      (codec : Option Compressor) (min_bytes : ℕ) (p : Text)
      → max_decompressed_bytes < length (l.utf8 p)
      → compress_payload l codec min_bytes p ≢ p
      → decompress_payload l (compress_payload l codec min_bytes p) ≡ none
  compress_payload_over codec min_bytes p h ne =
      decompress_over p (compress_payload l codec min_bytes p) h
        (compress_payload-Packs l inv codec min_bytes p) ne
