-- ===== src/Payload/RoundTrip.antt =====
-- A payload that is stored is read back.
use mcp_persist.Prelude.{
  ℕ, ◌≤◌, ◌≡◌, refl, ap, sym, ◌∙◌, arith, Bool, true, false, [], ◌∷◌, ◌++◌, Option, none, some,
  ◌>>=◌, Text, after_prefix, ltb, leb, ◌==◌, if◌then◌else◌, length, take, drop, any, inl, inr, ◌⊎◌,
}
use mcp_persist.Payload.Library.{Bytes, Library, IsInverse}
use mcp_persist.Payload.Compression.{
  Compressor, gzip, zstd, gzip_prefix, zstd_prefix, max_decompressed_bytes, encoded, shorter,
  compress_payload, within, gunzip_bounded, zstd_decompress_bounded, decompress_payload,
}
use mcp_persist.Payload.Encryption.{
  KeyRing, key_of, enc_prefix, bound_prefix, nonce_bytes, partition_colon, aad_of, sealed,
  encrypt_payload, unseal, decrypt_payload,
}
use mcp_persist.Payload.Coding.{Settings, encode_payload, decode_payload}

-- A text that begins with no marker, as every JSON object does.
abbrev pub IsPlain : Text → Type 0
IsPlain p =
    (after_prefix gzip_prefix p ≡ none)
    × (after_prefix zstd_prefix p ≡ none)
    × (after_prefix enc_prefix p ≡ none)
    × (after_prefix bound_prefix p ≡ none)

-- A ring that can encrypt: its active key is on it, under an id without the separator.
pub record IsUsable (ring : KeyRing) : Type 0 where
  pub key : Bytes
  pub found : key_of ring.active_key_id ring.keys ≡ some key
  pub no_colon : any (λ d. d == b':') ring.active_key_id ≡ false

abbrev pub IsUsable? : Option KeyRing → Type 0
IsUsable? none = Unit
IsUsable? (some ring) = IsUsable ring

take-append : (xs ys : Bytes) → take (length xs) (xs ++ ys) ≡ xs
take-append [] ys = refl
take-append (x ∷ xs) ys = ap (◌∷◌ x) (take-append xs ys)

drop-append : (xs ys : Bytes) → drop (length xs) (xs ++ ys) ≡ ys
drop-append [] ys = refl
drop-append (x ∷ xs) ys = drop-append xs ys

pub partition_colon-append :
    (id s : Text)
    → any (λ d. d == b':') id ≡ false
    → partition_colon (id ++ b':' ∷ s) ≡ some (id, s)
unfolding partition_colon
partition_colon-append [] s h = refl
partition_colon-append (c ∷ id) s h = ground (arith, partition_colon-append id s)

module _ (l : Library) (inv : IsInverse l) where
  within-utf8 :
      (p : Text) → length (l.utf8 p) ≤ max_decompressed_bytes → within l (l.utf8 p) ≡ some p
  within-utf8 p h = ground (arith, inv.utf8_back p)

  decompress_encoded :
      (codec : Compressor) (p : Text)
      → length (l.utf8 p) ≤ max_decompressed_bytes
      → decompress_payload l (encoded l codec (l.utf8 p)) ≡ some p
  unfolding decompress_payload gunzip_bounded zstd_decompress_bounded
  decompress_encoded gzip p h =
      rw (inv.b64_back (l.gzip (l.utf8 p)), inv.gzip_back (l.utf8 p)) (within-utf8 p h)
  decompress_encoded zstd p h =
      rw (inv.b64_back (l.zstd (l.utf8 p)), inv.zstd_back (l.utf8 p)) (within-utf8 p h)

  decompress_plain : (p : Text) → IsPlain p → decompress_payload l p ≡ some p
  unfolding decompress_payload
  decompress_plain p h = rw (h.0, h.1)

  -- What compression makes of a payload: the payload, or a marked text.
  abbrev pub Packs : Text → Text → Type 0
  Packs p t = (t ≡ p) ⊎ ((codec : Compressor) × (t ≡ encoded l codec (l.utf8 p)))

  shorter-Packs :
      (p : Text) (codec : Compressor) → Packs p (shorter l p (encoded l codec (l.utf8 p)))
  shorter-Packs p codec =
      elim (leb (length p) (length (encoded l codec (l.utf8 p))))
        as (λ b. Packs p (if b then p else encoded l codec (l.utf8 p))) [
          | true ↦ inl refl
          | false ↦ inr (codec, refl)
        ]

  pub compress_payload-Packs :
      (c : Option Compressor) (min_bytes : ℕ) (p : Text)
      → Packs p (compress_payload l c min_bytes p)
  unfolding compress_payload
  compress_payload-Packs none min_bytes p = inl refl
  compress_payload-Packs (some codec) min_bytes [] = inl refl
  compress_payload-Packs (some codec) min_bytes (x ∷ p) =
      elim (ltb (length (l.utf8 (x ∷ p))) min_bytes)
        as (λ b.
          Packs (x ∷ p)
            (if b then x ∷ p else shorter l (x ∷ p) (encoded l codec (l.utf8 (x ∷ p))))) [
              | true ↦ inl refl
              | false ↦ shorter-Packs (x ∷ p) codec
            ]

  -- Behind the marker: the active key decrypts what it encrypted, under associated data of its own.
  pub unseal-sealed :
      (bound : Bool) (ring : KeyRing) (key nonce : Bytes) (payload : Text)
      (context other : Option Text)
      → key_of ring.active_key_id ring.keys ≡ some key
      → any (λ d. d == b':') ring.active_key_id ≡ false
      → length nonce ≡ nonce_bytes
      → unseal l bound ring
          (ring.active_key_id
            ++ b':'
              ∷ l.b64encode
                  (nonce ++ l.aes_encrypt key nonce (l.utf8 payload) (aad_of l bound context)))
          other
        ≡ (l.aes_decrypt key nonce
              (l.aes_encrypt key nonce (l.utf8 payload) (aad_of l bound context))
              (aad_of l bound other)
            >>= l.utf8_decode)
  unfolding unseal
  unseal-sealed bound ring key nonce payload context other found no_colon size =
      let cipher = l.aes_encrypt key nonce (l.utf8 payload) (aad_of l bound context) in
      let front : take nonce_bytes (nonce ++ cipher) ≡ nonce =
        ap (λ k. take k (nonce ++ cipher)) (sym size) ∙ take-append nonce cipher in
      let back : drop nonce_bytes (nonce ++ cipher) ≡ cipher =
        ap (λ k. drop k (nonce ++ cipher)) (sym size) ∙ drop-append nonce cipher in
      rw (
        partition_colon-append ring.active_key_id (l.b64encode (nonce ++ cipher)) no_colon,
        found,
        inv.b64_back (nonce ++ cipher),
        front,
        back,
      )

  decrypt-sealed :
      (bound : Bool) (ring : KeyRing) (u : IsUsable ring) (nonce : Bytes) (payload context : Text)
      → length nonce ≡ nonce_bytes
      → decrypt_payload l
          (some ring)
          (sealed l bound ring.active_key_id u.key nonce payload (some context))
          (some context)
        ≡ some payload
  unfolding decrypt_payload
  decrypt-sealed true ring u nonce payload context size =
      unseal-sealed true ring u.key nonce payload (some context) (some context) u.found u.no_colon
        size
      ∙ ap (λ o. o >>= l.utf8_decode)
          (inv.aes_back u.key nonce (l.utf8 payload) (some (l.utf8 context)))
      ∙ inv.utf8_back payload
  decrypt-sealed false ring u nonce payload context size =
      unseal-sealed false ring u.key nonce payload (some context) (some context) u.found u.no_colon
        size
      ∙ ap (λ o. o >>= l.utf8_decode) (inv.aes_back u.key nonce (l.utf8 payload) none)
      ∙ inv.utf8_back payload

  -- Encryption gives a text, which decrypts to the payload.
  decrypt-encrypt :
      (ring : Option KeyRing) (nonce : Bytes) (payload context : Text)
      → IsUsable? ring
      → length nonce ≡ nonce_bytes
      → after_prefix enc_prefix payload ≡ none
      → after_prefix bound_prefix payload ≡ none
      → (t : Text) × (encrypt_payload l ring nonce payload (some context) ≡ some t)
        × (decrypt_payload l ring t (some context) ≡ some payload)
  unfolding encrypt_payload
  decrypt-encrypt none nonce payload context u size h k =
      (payload, refl, unfold decrypt_payload in rw (k, h))
  decrypt-encrypt (some ring) nonce [] context u size h k =
      ([], refl, unfold decrypt_payload in refl)
  decrypt-encrypt (some ring) nonce (c ∷ p) context u size h k = (
    sealed l ring.bind_context ring.active_key_id u.key nonce (c ∷ p) (some context),
    rw u.found,
    decrypt-sealed ring.bind_context ring u nonce (c ∷ p) context size,
  )

  Unsealed : Text → Type 0
  Unsealed t = (after_prefix enc_prefix t ≡ none) × (after_prefix bound_prefix t ≡ none)

  Packs-Unsealed : (p t : Text) → IsPlain p → Packs p t → Unsealed t
  unfolding Unsealed
  Packs-Unsealed p t h (inl e) = rw e (h.2, h.3)
  Packs-Unsealed p t h (inr (gzip, e)) = rw e (refl, refl)
  Packs-Unsealed p t h (inr (zstd, e)) = rw e (refl, refl)

  decompress-Packs :
      (p t : Text)
      → IsPlain p
      → length (l.utf8 p) ≤ max_decompressed_bytes
      → Packs p t
      → decompress_payload l t ≡ some p
  decompress-Packs p t h size (inl e) = ap (decompress_payload l) e ∙ decompress_plain p h
  decompress-Packs p t h size (inr (codec, e)) =
      ap (decompress_payload l) e ∙ decompress_encoded codec p size

  -- Whatever the settings, a payload that begins with no marker and is no longer than the cap on
  -- decompression is stored as a text that is read back as the payload, under the same context. The
  -- ring, if there is one, can encrypt; the nonce has its length; the libraries' decoders undo their
  -- encoders.
  pub decode_payload-encode_payload :
      (c : Settings) (nonce : Bytes) (p context : Text)
      → IsPlain p
      → length (l.utf8 p) ≤ max_decompressed_bytes
      → IsUsable? c.keyring
      → length nonce ≡ nonce_bytes
      → (t : Text) × (encode_payload l c nonce p (some context) ≡ some t)
        × (decode_payload l c t (some context) ≡ some p)
  unfolding encode_payload decode_payload Unsealed
  decode_payload-encode_payload c nonce p context h size u n =
      let packed = compress_payload l c.compression c.compress_min_bytes p in
      let packs = compress_payload-Packs c.compression c.compress_min_bytes p in
      let (no_enc, no_bound) = Packs-Unsealed p packed h packs in
      let (t, sealing, opening) =
        decrypt-encrypt c.keyring nonce packed context u n no_enc no_bound in
      (
        t,
        sealing,
        ap (λ o. o >>= decompress_payload l) opening ∙ decompress-Packs p packed h size packs,
      )
